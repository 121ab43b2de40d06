-- ===== src/Server/Uri/RoundTrip.antt =====
-- Any percent-encoding of a path is decoded by `uri_to_path` of src/server.rs.
use nexus_intelli_core.Prelude.{
  ℕ, ◌+◌, ◌-◌, ◌/◌, ◌%◌, ◌<◌, Bool, true, false, List, [], ◌∷◌, ◌++◌, none, some, ltb, ◌==◌,
  if◌then◌else◌, ◌≡◌, refl, ap, arith, All, Bool-cases, inl, inr, ==_iff,
}
use nexus_intelli_core.Prelude.Text.{Text, codes, text_starts_with}
use nexus_intelli_core.Json.Access.{◌>>=◌}
use nexus_intelli_core.Transport.Bytes.{is_utf8}
use nexus_intelli_core.Server.Uri.{
  strip_text, hex_pair, hex_digit, decode, without_drive_slash, utf8_text, uri_to_path,
}

unfoldable pub hex_char : ℕ → ℕ
hex_char n = if ltb n 10 then b'0' + n else b'A' + (n - 10)

-- An encoder may leave any bytes but `%` as they are; `keep` says which.
unfoldable pub encode : (ℕ → Bool) → List ℕ → Text
encode keep [] = []
encode keep (c ∷ cs) =
    let rest = encode keep cs in
    if keep c then c ∷ rest else b'%' ∷ hex_char (c / 16) ∷ hex_char (c % 16) ∷ rest

hex_digit-hex_char : (n : ℕ) → n < 16 → hex_digit (hex_char n) ≡ some n
unfolding hex_digit hex_char
hex_digit-hex_char n h = ground arith

hex_char-plus : (n : ℕ) → n < 16 → (hex_char n == b'+') ≡ false
unfolding hex_char
hex_char-plus n h = ground arith

hex_pair-hex_char : (c : ℕ) → c < 256 → hex_pair (hex_char (c / 16)) (hex_char (c % 16)) ≡ some c
unfolding hex_pair
hex_pair-hex_char c h =
    rw
      (
        hex_char-plus (c / 16) (omega arith),
        hex_digit-hex_char (c / 16) (omega arith),
        hex_digit-hex_char (c % 16) (omega arith),
      )
      (ap some (omega arith))

decode-plain :
    (c : ℕ) (cs bytes : Text)
    → (c == b'%') ≡ false
    → decode cs ≡ some bytes
    → decode (c ∷ cs) ≡ some (c ∷ bytes)
unfolding decode
decode-plain c [] bytes e h = rw e (ap (λ o. o >>= λ bytes. some (c ∷ bytes)) h)
decode-plain c (a ∷ []) bytes e h = rw (e, decode) (ap (λ o. o >>= λ bytes. some (c ∷ bytes)) h)
decode-plain c (a ∷ b ∷ cs) bytes e h = rw (e, decode) (ap (λ o. o >>= λ bytes. some (c ∷ bytes)) h)

decode-percent :
    (a b byte : ℕ) (cs bytes : Text)
    → hex_pair a b ≡ some byte
    → decode cs ≡ some bytes
    → decode (b'%' ∷ a ∷ b ∷ cs) ≡ some (byte ∷ bytes)
unfolding decode
decode-percent a b byte cs bytes e h = rw (e, h, decode) refl

not_percent : (keep : ℕ → Bool) (c : ℕ) → keep b'%' ≡ false → keep c ≡ true → (c == b'%') ≡ false
not_percent keep c k kept = elim (Bool-cases (c == b'%')) [
  | inl same ↦ let e = (==_iff c b'%').0 same in absurd (ground (arith, ap keep e))
  | inr other ↦ other
]

-- Bytes that the encoder may leave alone do not include the percent sign.
decode-encode :
    (keep : ℕ → Bool) (bytes : List ℕ)
    → keep b'%' ≡ false
    → All (λ c. c < 256) bytes
    → decode (encode keep bytes) ≡ some bytes
unfolding encode decode
decode-encode keep [] k h = refl
decode-encode keep (c ∷ cs) k (small, h) = elim (Bool-cases (keep c)) [
  | inl kept ↦
      rw (kept, encode)
        (decode-plain c (encode keep cs) cs (not_percent keep c k kept) (decode-encode keep cs k h))
  | inr escaped ↦
      rw (escaped, encode)
        (decode-percent (hex_char (c / 16)) (hex_char (c % 16)) c (encode keep cs) cs
          (hex_pair-hex_char c small) (decode-encode keep cs k h))
]

-- An absolute path that is not of the form `/C:...`.
abbrev pub IsUnixPath : Text → Type 0
IsUnixPath path = (text_starts_with path (codes "/") ≡ true) × (without_drive_slash path ≡ path)

no_host :
    (keep : ℕ → Bool) (path : Text)
    → text_starts_with path (codes "/") ≡ true
    → strip_text (codes "localhost") (encode keep path) ≡ none
unfolding strip_text encode text_starts_with
no_host keep [] e = cc
no_host keep (c ∷ cs) e = ground arith

-- The end of the function on bytes that decode to the path.
decoded :
    (keep : ℕ → Bool) (path : Text)
    → keep b'%' ≡ false
    → All (λ c. c < 256) path
    → is_utf8 path ≡ true
    → without_drive_slash path ≡ path
    → ((decode (encode keep path) >>= utf8_text) >>= λ p. some (without_drive_slash p)) ≡ some path
decoded keep path k small utf8 no_drive =
    rw (decode-encode keep path k small, utf8) (ap some no_drive)

-- Whatever bytes but the percent sign an encoder leaves as they are, the URI `file://` followed by
-- the percent-encoding of a UTF-8 absolute path without a drive letter is turned back into the path,
-- also with the host `localhost`.
pub uri_to_path-encode :
    (keep : ℕ → Bool) (path : Text)
    → keep b'%' ≡ false
    → All (λ c. c < 256) path
    → is_utf8 path ≡ true
    → IsUnixPath path
    → (uri_to_path (codes "file://" ++ encode keep path) ≡ some path)
      × (uri_to_path (codes "file://localhost" ++ encode keep path) ≡ some path)
unfolding uri_to_path strip_text
uri_to_path-encode keep path k small utf8 (absolute, no_drive) =
    let done = decoded keep path k small utf8 no_drive in
    (rw (no_host keep path absolute) done, done)
