-- ===== src/Transport/Termination.antt =====
-- The loops of src/transport.rs end: the fuel of the model is never used up.
use nexus_intelli_core.Prelude.{
  ℕ, zero, suc, ◌≤◌, ◌<◌, Bool, true, false, not, ◌&&◌, List, [], ◌∷◌, ◌⊎◌, inl, inr, length, ◌≡◌,
  refl, arith, leb, ltb, ◌==◌, if◌then◌else◌,
}
use nexus_intelli_core.Prelude.Text.{Text, codes}
use nexus_intelli_core.Transport.{
  TransportLimits, Outcome, fault, Fault, out_of_fuel, invalid_utf8, line_too_long,
  empty_header_block, too_many_headers, parsed, looks_like_json, Headers, HeaderBlock, headers,
  no_more, refused, HeaderStep, finish, more, McpTransport, Codec, parse_header_line, header_step,
  read_headers_loop, read_headers, extract_content_length, validate_content_length, read_body,
  read_framed, read_lines_loop, after_headers, read_message,
}
use nexus_intelli_core.Transport.Bytes.{split_line, trim_end_matches, is_utf8}

unfoldable pub is_exhausted : Outcome → Bool
is_exhausted (fault out_of_fuel) = true
is_exhausted _ = false

block_exhausted : HeaderBlock → Bool
block_exhausted (refused out_of_fuel) = true
block_exhausted _ = false

step_exhausted : HeaderStep → Bool
unfolding block_exhausted
step_exhausted (finish b _) = block_exhausted b
step_exhausted (more _) = false

split_line-shorter : (c : ℕ) (s : List ℕ) → length (split_line (c ∷ s)).1 ≤ length s
unfolding split_line
split_line-shorter c [] = ground arith
split_line-shorter c (d ∷ s) = ground (arith, split_line-shorter d s)

sum_exhausted : Headers ⊎ Fault → Bool
unfolding block_exhausted
sum_exhausted (inl hs) = false
sum_exhausted (inr e) = block_exhausted (refused e)

step_of_sum : Headers ⊎ Fault → HeaderStep
step_of_sum (inl hs) = more hs
step_of_sum (inr e) = finish (refused e) false

step_of_sum-ends :
    (r : Headers ⊎ Fault) → sum_exhausted r ≡ false → step_exhausted (step_of_sum r) ≡ false
unfolding step_of_sum sum_exhausted step_exhausted
step_of_sum-ends (inl hs) e = refl
step_of_sum-ends (inr f) e = e

-- Every exit of the loop's body but the last is a fault of its own.
exits-end :
    (a b c d e g : Bool) (hs₁ hs : Headers) (st : HeaderStep)
    → step_exhausted st ≡ false
    → step_exhausted (
        if a
        then finish (refused invalid_utf8) false
        else if b
        then finish (refused line_too_long) false
        else if c
        then finish (headers hs₁) true
        else if d
        then finish (if g then refused empty_header_block else headers hs) false
        else if e
        then finish (refused too_many_headers) false
        else st)
      ≡ false
unfolding step_exhausted block_exhausted
exits-end true b c d e g hs₁ hs st h = refl
exits-end false true c d e g hs₁ hs st h = refl
exits-end false false true d e g hs₁ hs st h = refl
exits-end false false false true e true hs₁ hs st h = refl
exits-end false false false true e false hs₁ hs st h = refl
exits-end false false false false true g hs₁ hs st h = refl
exits-end false false false false false g hs₁ hs st h = h

module _ (cd : Codec) where
  parse_header_line-ends :
      (line : Text) (hs : Headers) → sum_exhausted (parse_header_line cd line hs) ≡ false
  unfolding parse_header_line sum_exhausted block_exhausted
  parse_header_line-ends line hs = ground arith

  header_step-ends :
      (lim : TransportLimits) (first : Bool) (hs : Headers) (line : Text)
      → step_exhausted (header_step cd lim first hs line) ≡ false
  unfolding header_step step_of_sum
  header_step-ends lim first hs line =
      let trimmed = trim_end_matches 13 (trim_end_matches 10 line) in
      exits-end (not (is_utf8 line)) (ltb lim.max_header_line_bytes (length line))
        (first && looks_like_json trimmed) (length trimmed == 0) (leb lim.max_headers (length hs))
        (length hs == 0) ((codes "x-compat-json-message", trimmed) ∷ []) hs
        (step_of_sum (parse_header_line cd trimmed hs))
        (step_of_sum-ends (parse_header_line cd trimmed hs) (parse_header_line-ends trimmed hs))

  after_step-ends :
      (f : ℕ) (lim : TransportLimits) (rest : List ℕ) (st : HeaderStep)
      → step_exhausted st ≡ false
      → ((hs : Headers) → block_exhausted (read_headers_loop cd f lim false hs rest).0 ≡ false)
      → block_exhausted
          (elim st as (λ _. HeaderBlock × Bool × List ℕ) [
            | finish block mode ↦ (block, mode, rest)
            | more hs ↦ read_headers_loop cd f lim false hs rest
          ]).0
        ≡ false
  unfolding step_exhausted
  after_step-ends f lim rest (finish block mode) e ih = e
  after_step-ends f lim rest (more hs) e ih = ih hs

  read_headers_loop-ends :
      (f : ℕ) (lim : TransportLimits) (first : Bool) (hs : Headers) (input : List ℕ)
      → length input < f
      → block_exhausted (read_headers_loop cd f lim first hs input).0 ≡ false
  unfolding read_headers_loop block_exhausted
  read_headers_loop-ends zero lim first hs input h = absurd (omega arith)
  read_headers_loop-ends (suc f) lim true hs [] h = refl
  read_headers_loop-ends (suc f) lim false hs [] h = refl
  read_headers_loop-ends (suc f) lim first hs (c ∷ s) h =
      after_step-ends f lim (split_line (c ∷ s)).1
        (header_step cd lim first hs (split_line (c ∷ s)).0)
        (header_step-ends lim first hs (split_line (c ∷ s)).0)
        (λ hs'.
          read_headers_loop-ends f lim false hs' (split_line (c ∷ s)).1
            (omega (arith, split_line-shorter c s)))

  parsed-ends : (t : Text) → is_exhausted (parsed cd t) ≡ false
  unfolding is_exhausted
  parsed-ends t = ground arith

  after_line-ends :
      (u : Bool) (n : ℕ) (out : Outcome) (rest : List ℕ) (again : Outcome × List ℕ)
      → is_exhausted out ≡ false
      → is_exhausted again.0 ≡ false
      → is_exhausted
          (elim u as (λ _. Outcome × List ℕ) [
            | false ↦ (fault invalid_utf8, rest)
            | true ↦ elim n as (λ _. Outcome × List ℕ) [ zero ↦ again | suc _ ↦ (out, rest) ]
          ]).0
        ≡ false
  unfolding is_exhausted
  after_line-ends false n out rest again e e' = refl
  after_line-ends true zero out rest again e e' = e'
  after_line-ends true (suc n) out rest again e e' = e

  read_lines_loop-ends :
      (f : ℕ) (input : List ℕ)
      → length input < f
      → is_exhausted (read_lines_loop cd f input).0 ≡ false
  unfolding read_lines_loop is_exhausted
  read_lines_loop-ends zero input h = absurd (omega arith)
  read_lines_loop-ends (suc f) [] h = refl
  read_lines_loop-ends (suc f) (c ∷ s) h =
      after_line-ends _ _ _ _ (read_lines_loop cd f (split_line (c ∷ s)).1) (parsed-ends _)
        (read_lines_loop-ends f (split_line (c ∷ s)).1 (omega (arith, split_line-shorter c s)))

  read_framed-ends :
      (lim : TransportLimits) (hs : Headers) (input : List ℕ)
      → is_exhausted (read_framed cd lim hs input).0 ≡ false
  unfolding read_framed extract_content_length validate_content_length read_body is_exhausted
  read_framed-ends lim hs input = ground arith

  after_headers-ends :
      (t : McpTransport) (block : HeaderBlock) (mode : Bool) (rest : List ℕ)
      → block_exhausted block ≡ false
      → is_exhausted (after_headers cd t (block, mode, rest)).0 ≡ false
  unfolding after_headers is_exhausted block_exhausted
  after_headers-ends t no_more mode rest e = refl
  after_headers-ends t (headers hs) mode rest e = read_framed-ends t.limits hs rest
  after_headers-ends t (refused f) mode rest e = ground arith

  either-ends :
      (b : Bool) (x y : Outcome × McpTransport)
      → is_exhausted x.0 ≡ false
      → is_exhausted y.0 ≡ false
      → is_exhausted (elim b as (λ _. Outcome × McpTransport) [ true ↦ x | false ↦ y ]).0 ≡ false
  either-ends true x y e e' = e
  either-ends false x y e e' = e'

  -- Whatever bytes stand in the input, `read_message` ends: the loop over the header lines and the
  -- loop that skips blank lines both stop before their fuel is used up.
  pub read_message-ends : (t : McpTransport) → is_exhausted (read_message cd t).0 ≡ false
  unfolding read_message read_headers
  read_message-ends t =
      either-ends t.line_delimited_json_mode _ _
        (read_lines_loop-ends (suc (length t.reader)) t.reader (omega arith))
        (after_headers-ends t (read_headers cd t.limits t.reader).0 _ _
          (read_headers_loop-ends (suc (length t.reader)) t.limits true [] t.reader (omega arith)))
