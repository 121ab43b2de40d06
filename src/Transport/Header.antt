-- ===== src/Transport/Header.antt =====
-- The header line that src/transport.rs writes, byte by byte.
use nexus_intelli_core.Prelude.{
  ℕ, ◌≤◌, ◌<◌, false, List, [], ◌∷◌, ◌++◌, length, length-append, append_assoc, ◌≡◌, ◌≢◌, refl, sym,
  ap, ◌∙◌, arith, All, All-append, ltb, ◌==◌,
}
use nexus_intelli_core.Prelude.Text.{Text, codes}
use nexus_intelli_core.Prelude.Decimal.{to_dec}
use nexus_intelli_core.Prelude.Decimal.RoundTrip.{to_dec-IsDigit, to_dec-length}
use nexus_intelli_core.Transport.{defaults, looks_like_json}
use nexus_intelli_core.Transport.Bytes.{
  split_line, trim_start, trim_after, white_width, white2, white3, trim_end_matches,
}
use nexus_intelli_core.Transport.Lines.{
  split_line-append, trim_end_matches-none, trim_end_matches-append,
}

module _ {P Q : ℕ → Type 0} where
  pub All-map : ((c : ℕ) → P c → Q c) → (s : List ℕ) → All P s → All Q s
  All-map f [] h = tt
  All-map f (c ∷ s) (h, hs) = (f c h, All-map f s hs)

abbrev pub prefix : Text
prefix = codes "Content-Length: "

-- The bytes of a header line before its end: printable ASCII.
abbrev pub IsPlain : ℕ → Type 0
IsPlain c = (32 ≤ c) × (c < 128)

unfoldable pub header_text : ℕ → Text
header_text n = prefix ++ to_dec n

pub header_text-IsPlain : (n : ℕ) → All IsPlain (header_text n)
unfolding header_text
header_text-IsPlain n =
    All-append IsPlain prefix (to_dec n) (ground arith)
      (All-map (λ c h. (omega (arith, h.0), omega (arith, h.1))) (to_dec n) (to_dec-IsDigit n))

pub header_line-ascii : (n : ℕ) → All (λ c. c < 128) (header_text n ++ (13 ∷ 10 ∷ []))
header_line-ascii n =
    All-append (λ c. c < 128) (header_text n) (13 ∷ 10 ∷ [])
      (All-map (λ c h. h.1) (header_text n) (header_text-IsPlain n)) (ground arith)

pub header_line-trimmed :
    (n : ℕ)
    → trim_end_matches 13 (trim_end_matches 10 (header_text n ++ (13 ∷ 10 ∷ []))) ≡ header_text n
header_line-trimmed n =
    let plain = header_text-IsPlain n in
    let apart10 : All (λ c. c ≢ 10) (header_text n ++ (13 ∷ [])) =
      All-append (λ c. c ≢ 10) (header_text n) (13 ∷ [])
        (All-map (λ c h. ground (arith, h.0)) (header_text n) plain) (ground arith) in
    let apart13 : All (λ c. c ≢ 13) (header_text n) =
      All-map (λ c h. ground (arith, h.0)) (header_text n) plain in
    rw (sym (append_assoc (header_text n) (13 ∷ []) (10 ∷ []))) (
      ap (trim_end_matches 13) (
        trim_end_matches-append 10 (header_text n ++ (13 ∷ []))
        ∙ trim_end_matches-none 10 (header_text n ++ (13 ∷ [])) apart10)
      ∙ trim_end_matches-append 13 (header_text n)
      ∙ trim_end_matches-none 13 (header_text n) apart13)

pub split_line-header :
    (n : ℕ) (r : List ℕ)
    → split_line (header_text n ++ (13 ∷ 10 ∷ r)) ≡ (header_text n ++ (13 ∷ 10 ∷ []), r)
split_line-header n r =
    let apart10 : All (λ c. c ≢ 10) (header_text n ++ (13 ∷ [])) =
      All-append (λ c. c ≢ 10) (header_text n) (13 ∷ [])
        (All-map (λ c h. ground (arith, h.0)) (header_text n) (header_text-IsPlain n))
        (ground arith) in
    ap split_line (sym (append_assoc (header_text n) (13 ∷ []) (10 ∷ r)))
    ∙ split_line-append (header_text n ++ (13 ∷ [])) r apart10
    ∙ ap (λ l. (l, r)) (append_assoc (header_text n) (13 ∷ []) (10 ∷ []))

pub header_line-length :
    (n : ℕ)
    → n ≤ defaults.max_message_bytes
    → ltb defaults.max_header_line_bytes (length (header_text n ++ (13 ∷ 10 ∷ []))) ≡ false
unfolding header_text defaults
header_line-length n h =
    let short = to_dec-length 8 n (omega (arith, h)) in
    rw (length-append (to_dec n) (13 ∷ 10 ∷ [])) (ground (arith, short))

pub header_text-json : (n : ℕ) → looks_like_json (header_text n) ≡ false
unfolding header_text looks_like_json trim_start trim_after white_width white2 white3
header_text-json n = refl

pub header_text-nonempty : (n : ℕ) → (length (header_text n) == 0) ≡ false
unfolding header_text
header_text-nonempty n = ground arith
