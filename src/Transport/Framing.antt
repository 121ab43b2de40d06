-- ===== src/Transport/Framing.antt =====
-- What src/transport.rs writes, it reads back, message after message.
use nexus_intelli_core.Prelude.{
  ℕ, zero, suc, ◌≤◌, Bool, true, false, List, [], ◌∷◌, ◌++◌, none, some, ◌⊎◌, inl, inr, length,
  take-length_append, drop-length_append, length-append, append_assoc, ◌≡◌, refl, ap, ◌∙◌, arith,
  leb,
}
use nexus_intelli_core.Prelude.Text.{codes, text_eq}
use nexus_intelli_core.Prelude.Decimal.{to_dec, usize_max}
use nexus_intelli_core.Prelude.Decimal.RoundTrip.{to_dec-IsDigit, parse_usize-to_dec}
use nexus_intelli_core.Json.{Value}
use nexus_intelli_core.Transport.{
  TransportLimits, defaults, message, Headers, HeaderBlock, headers, refused, Fault, HeaderStep,
  finish, more, McpTransport, Codec, get_header, validate_content_length, parse_header_line,
  header_step, read_headers_loop, read_headers, extract_content_length, parsed, read_body,
  read_framed, read_message, after_headers, frame,
}
use nexus_intelli_core.Transport.Bytes.{
  is_utf8, split_line, split_once, trim, utf8_after, utf8_tail, trim_end_matches,
}
use nexus_intelli_core.Transport.Lines.{is_utf8-ascii, trim-digits}
use nexus_intelli_core.Transport.Header.{
  prefix, header_text, header_line-ascii, header_line-trimmed, split_line-header,
  header_line-length, header_text-json, header_text-nonempty,
}

valid_length :
    (n : ℕ) → 1 ≤ n → n ≤ defaults.max_message_bytes → validate_content_length n defaults ≡ none
unfolding validate_content_length
valid_length n some' h = ground arith

body_fits : (body rest : List ℕ) → leb (length body) (length (body ++ rest)) ≡ true
body_fits body rest = rw (length-append body rest) (ground arith)

-- A message whose text is not empty, fits the limit and is read back as itself.
abbrev pub IsSendable : Codec → Value → Type 0
IsSendable cd v =
    (1 ≤ length (cd.to_vec v))
    × (length (cd.to_vec v) ≤ defaults.max_message_bytes)
    × (cd.from_slice (cd.to_vec v) ≡ some v)

-- A transport in the framed mode with the default limits.
abbrev pub framed : List ℕ → List ℕ → McpTransport
framed r w = record { reader = r; writer = w; line_delimited_json_mode = false; limits = defaults }

-- What the loop makes of a parsed header line.
after_line : Headers ⊎ Fault → HeaderStep
after_line (inl hs) = more hs
after_line (inr e) = finish (refused e) false

module _ (cd : Codec)
    (lower : cd.to_lowercase (codes "Content-Length") ≡ codes "content-length") where
  parse_header_line-length :
      (n : ℕ)
      → parse_header_line cd (header_text n) [] ≡ inl ((codes "content-length", to_dec n) ∷ [])
  unfolding header_text parse_header_line split_once get_header trim
  parse_header_line-length n = rw (lower, trim-digits (to_dec n) (to_dec-IsDigit n)) refl

  header_step-length :
      (n : ℕ)
      → n ≤ defaults.max_message_bytes
      → header_step cd defaults true [] (header_text n ++ (13 ∷ 10 ∷ []))
        ≡ more ((codes "content-length", to_dec n) ∷ [])
  unfolding header_step defaults after_line parse_header_line
  header_step-length n h =
      rw
        (
          is_utf8-ascii _ (header_line-ascii n),
          header_line-length n h,
          header_line-trimmed n,
          header_text-json n,
          header_text-nonempty n,
        )
        (ap after_line (parse_header_line-length n))

  header_step-blank :
      (hs : Headers)
      → 1 ≤ length hs
      → header_step cd defaults false hs (13 ∷ 10 ∷ []) ≡ finish (headers hs) false
  unfolding header_step defaults is_utf8 utf8_after utf8_tail trim_end_matches
  header_step-blank hs h = ground arith

  loop-more :
      (f : ℕ) (lim : TransportLimits) (first : Bool) (hs hs' : Headers) (c : ℕ)
      (s line rest : List ℕ)
      → split_line (c ∷ s) ≡ (line, rest)
      → header_step cd lim first hs line ≡ more hs'
      → read_headers_loop cd (suc f) lim first hs (c ∷ s)
        ≡ read_headers_loop cd f lim false hs' rest
  unfolding read_headers_loop
  loop-more f lim first hs hs' c s line rest e e' =
      rw (ap (λ p. header_step cd lim first hs p.0) e ∙ e', read_headers_loop)
        (ap (λ p. read_headers_loop cd f lim false hs' p.1) e)

  loop-finish :
      (f : ℕ) (lim : TransportLimits) (first : Bool) (hs : Headers) (block : HeaderBlock)
      (mode : Bool) (c : ℕ) (s line rest : List ℕ)
      → split_line (c ∷ s) ≡ (line, rest)
      → header_step cd lim first hs line ≡ finish block mode
      → read_headers_loop cd (suc f) lim first hs (c ∷ s) ≡ (block, mode, rest)
  unfolding read_headers_loop
  loop-finish f lim first hs block mode c s line rest e e' =
      rw (ap (λ p. header_step cd lim first hs p.0) e ∙ e', read_headers_loop)
        (ap (λ p. (block, mode, p.1)) e)

  header_block : ℕ → Headers
  header_block n = (codes "content-length", to_dec n) ∷ []

  read_headers_loop-frame :
      (f n : ℕ) (rest : List ℕ)
      → n ≤ defaults.max_message_bytes
      → 2 ≤ f
      → read_headers_loop cd f defaults true [] (header_text n ++ (13 ∷ 10 ∷ 13 ∷ 10 ∷ rest))
        ≡ (headers (header_block n), false, rest)
  unfolding header_block header_text split_line
  read_headers_loop-frame zero n rest h fuel = absurd (omega arith)
  read_headers_loop-frame (suc zero) n rest h fuel = absurd (omega arith)
  read_headers_loop-frame (suc (suc f)) n rest h fuel =
      loop-more (suc f) defaults true [] (header_block n) _ _ _ _
        (split_line-header n (13 ∷ 10 ∷ rest)) (header_step-length n h)
      ∙ loop-finish f defaults false (header_block n) (headers (header_block n)) false 13 _ _ rest
          refl (header_step-blank (header_block n) (omega arith))

  extract_content_length-block :
      (n : ℕ) → n ≤ usize_max → extract_content_length cd (header_block n) ≡ inl n
  unfolding header_block get_header text_eq extract_content_length
  extract_content_length-block n h = rw (parse_usize-to_dec n h, extract_content_length) refl

  read_body-fits :
      (body rest : List ℕ) → read_body cd (length body) (body ++ rest) ≡ (parsed cd body, rest)
  unfolding read_body
  read_body-fits body rest =
      rw (body_fits body rest, take-length_append body rest, drop-length_append body rest) refl

  read_framed-body :
      (body rest : List ℕ)
      → 1 ≤ length body
      → length body ≤ defaults.max_message_bytes
      → read_framed cd defaults (header_block (length body)) (body ++ rest) ≡ (parsed cd body, rest)
  unfolding read_framed header_block get_header text_eq defaults
  read_framed-body body rest some' h =
      rw
        (
          extract_content_length-block (length body) (omega (arith, h)),
          read_framed,
          valid_length (length body) some' h,
        )
        (read_body-fits body rest)

  frame-header :
      (body rest : List ℕ)
      → frame cd body ++ rest ≡ header_text (length body) ++ (13 ∷ 10 ∷ 13 ∷ 10 ∷ (body ++ rest))
  unfolding frame header_text
  frame-header body rest =
      ap (λ t. prefix ++ t) (append_assoc (to_dec (length body)) (13 ∷ 10 ∷ 13 ∷ 10 ∷ body) rest)

  read_headers-header :
      (n : ℕ) (rest : List ℕ)
      → n ≤ defaults.max_message_bytes
      → read_headers cd defaults (header_text n ++ (13 ∷ 10 ∷ 13 ∷ 10 ∷ rest))
        ≡ (headers (header_block n), false, rest)
  unfolding read_headers
  read_headers-header n rest h =
      let long = length-append (header_text n) (13 ∷ 10 ∷ 13 ∷ 10 ∷ rest) in
      read_headers_loop-frame (suc (length (header_text n ++ (13 ∷ 10 ∷ 13 ∷ 10 ∷ rest)))) n rest h
        (omega (arith, long))

  read_headers-frame :
      (body rest : List ℕ)
      → length body ≤ defaults.max_message_bytes
      → read_headers cd defaults (frame cd body ++ rest)
        ≡ (headers (header_block (length body)), false, body ++ rest)
  read_headers-frame body rest h =
      ap (read_headers cd defaults) (frame-header body rest)
      ∙ read_headers-header (length body) (body ++ rest) h

  parsed-sendable : (v : Value) → IsSendable cd v → parsed cd (cd.to_vec v) ≡ message v
  parsed-sendable v (some', fits, back) = rw (back, parsed) refl

  after_headers-block :
      (v : Value) (rest w r : List ℕ)
      → IsSendable cd v
      → after_headers cd
          (framed r w)
          (headers (header_block (length (cd.to_vec v))), false, cd.to_vec v ++ rest)
        ≡ (message v, framed rest w)
  unfolding after_headers
  after_headers-block v rest w r h =
      ap (λ p. (p.0, framed p.1 w)) (read_framed-body (cd.to_vec v) rest h.0 h.1)
      ∙ ap (λ o. (o, framed rest w)) (parsed-sendable v h)

  pub read_message-frame :
      (v : Value) (rest w : List ℕ)
      → IsSendable cd v
      → read_message cd (framed (frame cd (cd.to_vec v) ++ rest) w) ≡ (message v, framed rest w)
  unfolding read_message
  read_message-frame v rest w h =
      let r = frame cd (cd.to_vec v) ++ rest in
      ap (after_headers cd (framed r w)) (read_headers-frame (cd.to_vec v) rest h.1)
      ∙ after_headers-block v rest w r h
