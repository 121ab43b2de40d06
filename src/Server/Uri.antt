-- ===== src/Server/Uri.antt =====
-- `uri_to_path` of src/server.rs: the path of a `file://` URI, or of a plain absolute path, as text.
pub mod RoundTrip
use nexus_intelli_core.Prelude.{
  ℕ, suc, ◌+◌, ◌*◌, ◌-◌, Bool, true, false, ◌&&◌, ◌||◌, List, [], ◌∷◌, Option, none, some, leb,
  ◌==◌, if◌then◌else◌,
}
use nexus_intelli_core.Prelude.Text.{Text, codes}
use nexus_intelli_core.Json.Access.{◌>>=◌, unwrap_or}
use nexus_intelli_core.Transport.Bytes.{is_utf8}

-- `str::strip_prefix`, the prefix first.
unfoldable pub strip_text : Text → Text → Option Text
strip_text [] t = some t
strip_text (_ ∷ _) [] = none
strip_text (p ∷ ps) (c ∷ cs) = if p == c then strip_text ps cs else none

unfoldable pub hex_digit : ℕ → Option ℕ
hex_digit c =
    if leb b'0' c && leb c b'9'
    then some (c - b'0')
    else if leb b'a' c && leb c b'f'
    then some (c - b'a' + 10)
    else if leb b'A' c && leb c b'F'
    then some (c - b'A' + 10)
    else none

-- `u8::from_str_radix` of two bytes in base 16: a `+` may stand in front.
unfoldable pub hex_pair : ℕ → ℕ → Option ℕ
unfolding hex_digit
hex_pair a b =
    if a == b'+'
    then hex_digit b
    else (hex_digit a >>= λ high. hex_digit b >>= λ low. some (high * 16 + low))

-- The loop over the bytes.
unfoldable pub decode : Text → Option (List ℕ)
unfolding hex_pair
decode [] = some []
decode (c ∷ []) = if c == b'%' then none else some (c ∷ [])
decode (c ∷ a ∷ []) =
    let rest = decode (a ∷ []) in if c == b'%' then none else (rest >>= λ bytes. some (c ∷ bytes))
decode (c ∷ a ∷ b ∷ cs) =
    let after = decode cs in
    let rest = decode (a ∷ b ∷ cs) in
    if c == b'%'
    then (hex_pair a b >>= λ byte. after >>= λ bytes. some (byte ∷ bytes))
    else (rest >>= λ bytes. some (c ∷ bytes))

abbrev pub is_ascii_alphabetic : ℕ → Bool
is_ascii_alphabetic c = (leb b'A' c && leb c b'Z') || (leb b'a' c && leb c b'z')

-- Drive URIs look like `/C:/dir`.
unfoldable pub without_drive_slash : Text → Text
without_drive_slash (s ∷ d ∷ c ∷ cs) =
    if s == b'/' && (is_ascii_alphabetic d && c == b':') then d ∷ c ∷ cs else s ∷ d ∷ c ∷ cs
without_drive_slash t = t

abbrev pub utf8_text : List ℕ → Option Text
utf8_text bytes = if is_utf8 bytes then some bytes else none

abbrev pub plain_path : Text → Option Text
plain_path [] = none
plain_path (c ∷ cs) = if c == b'/' then some (c ∷ cs) else none

unfoldable pub uri_to_path : Text → Option Text
unfolding strip_text decode without_drive_slash is_utf8
uri_to_path uri = elim (strip_text (codes "file://") uri) [
  | none ↦ plain_path uri
  | some rest ↦
      (decode (unwrap_or (strip_text (codes "localhost") rest) rest) >>= utf8_text) >>= λ path.
      some (without_drive_slash path)
]
