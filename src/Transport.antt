-- ===== src/Transport.antt =====
-- src/transport.rs: messages framed by a `Content-Length` header on standard input and output, or
-- one per line. The input is the sequence of all bytes that the client sends; tracing is left out.
pub mod Bytes
pub mod Lines
pub mod Header
pub mod Framing
pub mod Pipelining
pub mod Termination
use nexus_intelli_core.Prelude.{
  ℕ, zero, suc, ◌+◌, ◌*◌, ◌⊎◌, inl, inr, Bool, true, false, not, ◌&&◌, ◌||◌, List, [], ◌∷◌, ◌++◌,
  Option, none, some, length, take, drop, leb, ltb, ◌==◌, if◌then◌else◌,
}
use nexus_intelli_core.Prelude.Text.{Text, codes, text_eq}
use nexus_intelli_core.Prelude.Decimal.{to_dec, parse_usize}
use nexus_intelli_core.Json.{Value}
use nexus_intelli_core.Transport.Bytes.{
  is_utf8, split_line, trim_start, trim, trim_end_matches, split_once,
}

pub record TransportLimits : Type 0 where
  pub max_message_bytes : ℕ
  pub max_header_line_bytes : ℕ
  pub max_headers : ℕ

unfoldable pub defaults : TransportLimits
defaults = record {
  max_message_bytes = 100 * 1024 * 1024;
  max_header_line_bytes = 8192;
  max_headers = 64;
}

pub data Fault : Type 0 where
  invalid_utf8 eof_in_headers line_too_long too_many_headers invalid_header duplicate_header : Fault
  empty_header_block missing_length invalid_length zero_length oversized eof_in_body invalid_json :
      Fault
  -- of the model only: a loop has run more often than its fuel
  out_of_fuel : Fault

-- The result of `read_message`: `Ok(None)`, `Ok(Some(_))` or `Err(_)`.
pub data Outcome : Type 0 where
  closed : Outcome
  message : Value → Outcome
  fault : Fault → Outcome

abbrev pub Headers : Type 0
Headers = List (Text × Text)

-- How `read_headers` ends.
pub data HeaderBlock : Type 0 where
  no_more : HeaderBlock
  headers : Headers → HeaderBlock
  refused : Fault → HeaderBlock

-- What one line of a header block leads to: the end, and whether the lines turn out to be
-- messages, or more lines.
pub data HeaderStep : Type 0 where
  finish : HeaderBlock → Bool → HeaderStep
  more : Headers → HeaderStep

pub record McpTransport : Type 0 where
  pub reader : List ℕ
  pub writer : List ℕ
  pub line_delimited_json_mode : Bool
  pub limits : TransportLimits

unfoldable pub new : List ℕ → McpTransport
unfolding defaults
new input = record {
  reader = input;
  writer = [];
  line_delimited_json_mode = false;
  limits = defaults;
}

unfoldable pub get_header : Text → Headers → Option Text
get_header k [] = none
get_header k ((j, v) ∷ hs) = if text_eq j k then some v else get_header k hs

-- Crate `serde_json` (`from_str` reads a text as `from_slice` reads its bytes), and
-- `str::to_lowercase` of the standard library.
pub record Codec : Type 0 where
  pub to_vec : Value → Text
  pub from_slice : Text → Option Value
  pub to_lowercase : Text → Text

unfoldable pub looks_like_json : Text → Bool
unfolding trim_start
looks_like_json s = elim (trim_start s) [ [] ↦ false | c ∷ _ ↦ c == b'{' || c == b'[' ]

unfoldable pub validate_content_length : ℕ → TransportLimits → Option Fault
validate_content_length n lim =
    if n == 0
    then some zero_length
    else if ltb lim.max_message_bytes n
    then some oversized
    else none

module _ (cd : Codec) where
  open cd use {to_vec, from_slice, to_lowercase}

  unfoldable pub parse_header_line : Text → Headers → Headers ⊎ Fault
  unfolding split_once trim get_header
  parse_header_line trimmed hs = elim (split_once b':' trimmed) [
    | none ↦ inr invalid_header
    | some (name, value) ↦
        let name_lower = to_lowercase (trim name) in
        elim (get_header name_lower hs) [
          | some _ ↦ inr duplicate_header
          | none ↦ inl ((name_lower, trim value) ∷ hs)
        ]
  ]

  -- The body of the loop of `read_headers` on a line that is not empty.
  unfoldable pub header_step : TransportLimits → Bool → Headers → Text → HeaderStep
  unfolding is_utf8 trim_end_matches looks_like_json parse_header_line
  header_step lim first hs line =
      let trimmed = trim_end_matches 13 (trim_end_matches 10 line) in
      if not (is_utf8 line)
      then finish (refused invalid_utf8) false
      else if ltb lim.max_header_line_bytes (length line)
      then finish (refused line_too_long) false
      else if first && looks_like_json trimmed
      then finish (headers ((codes "x-compat-json-message", trimmed) ∷ [])) true
      else if length trimmed == 0
      then finish (if length hs == 0 then refused empty_header_block else headers hs) false
      else if leb lim.max_headers (length hs)
      then finish (refused too_many_headers) false
      else elim (parse_header_line trimmed hs) [
        | inl hs' ↦ more hs'
        | inr e ↦ finish (refused e) false
      ]

  -- The loop of `read_headers`: how it ends, whether the mode changes, and what is left to read.
  unfoldable pub read_headers_loop :
      ℕ → TransportLimits → Bool → Headers → List ℕ → HeaderBlock × Bool × List ℕ
  unfolding split_line header_step
  read_headers_loop zero lim first hs input = (refused out_of_fuel, false, input)
  read_headers_loop (suc n) lim first hs [] =
      (if first then no_more else refused eof_in_headers, false, [])
  read_headers_loop (suc n) lim first hs (c ∷ s) =
      let (line, rest) = split_line (c ∷ s) in
      elim (header_step lim first hs line) [
        | finish block mode ↦ (block, mode, rest)
        | more hs' ↦ read_headers_loop n lim false hs' rest
      ]

  -- A round reads at least a byte.
  unfoldable pub read_headers : TransportLimits → List ℕ → HeaderBlock × Bool × List ℕ
  unfolding read_headers_loop
  read_headers lim input = read_headers_loop (suc (length input)) lim true [] input

  unfoldable pub extract_content_length : Headers → ℕ ⊎ Fault
  unfolding get_header parse_usize
  extract_content_length hs = elim (get_header (codes "content-length") hs) [
    | none ↦ inr missing_length
    | some value ↦ elim (parse_usize value) [ none ↦ inr invalid_length | some n ↦ inl n ]
  ]

  -- JSON that is read, or an error.
  abbrev pub parsed : Text → Outcome
  parsed t = elim (from_slice t) [ none ↦ fault invalid_json | some v ↦ message v ]

  unfoldable pub read_body : ℕ → List ℕ → Outcome × List ℕ
  read_body n input =
      if leb n (length input)
      then (parsed (take n input), drop n input)
      else (fault eof_in_body, [])

  -- `read_message` once the headers are read.
  unfoldable pub read_framed : TransportLimits → Headers → List ℕ → Outcome × List ℕ
  unfolding get_header extract_content_length validate_content_length read_body
  read_framed lim hs input = elim (get_header (codes "x-compat-json-message") hs) [
    | some text ↦ (parsed text, input)
    | none ↦ elim (extract_content_length hs) [
      | inr e ↦ (fault e, input)
      | inl n ↦ elim (validate_content_length n lim) [
        | some e ↦ (fault e, input)
        | none ↦ read_body n input
      ]
    ]
  ]

  -- `read_message_line_delimited`.
  unfoldable pub read_lines_loop : ℕ → List ℕ → Outcome × List ℕ
  unfolding split_line is_utf8 trim trim_end_matches
  read_lines_loop zero input = (fault out_of_fuel, input)
  read_lines_loop (suc n) [] = (closed, [])
  read_lines_loop (suc n) (c ∷ s) =
      let (line, rest) = split_line (c ∷ s) in
      let trimmed = trim (trim_end_matches 13 (trim_end_matches 10 line)) in
      elim (is_utf8 line) [
        | false ↦ (fault invalid_utf8, rest)
        | true ↦ elim (length trimmed) [
          | zero ↦ read_lines_loop n rest
          | suc _ ↦ (parsed trimmed, rest)
        ]
      ]

  -- The rest of `read_message` after `read_headers`.
  unfoldable pub after_headers : McpTransport → HeaderBlock × Bool × List ℕ → Outcome × McpTransport
  unfolding read_framed
  after_headers t (no_more, mode, rest) = (closed, record t { reader = rest })
  after_headers t (refused e, mode, rest) =
      (fault e, record t { reader = rest; line_delimited_json_mode = mode })
  after_headers t (headers hs, mode, rest) =
      let (out, rest') = read_framed t.limits hs rest in
      (out, record t { reader = rest'; line_delimited_json_mode = mode })

  unfoldable pub read_message : McpTransport → Outcome × McpTransport
  unfolding read_headers after_headers read_lines_loop
  read_message t = elim t.line_delimited_json_mode [
    | true ↦
        let (out, rest) = read_lines_loop (suc (length t.reader)) t.reader in
        (out, record t { reader = rest })
    | false ↦ after_headers t (read_headers t.limits t.reader)
  ]

  -- The bytes of a framed message.
  unfoldable pub frame : Text → List ℕ
  unfolding to_dec
  frame body = codes "Content-Length: " ++ (to_dec (length body) ++ (13 ∷ 10 ∷ 13 ∷ 10 ∷ body))

  unfoldable pub write_message : Value → McpTransport → McpTransport
  unfolding frame
  write_message msg t =
      if t.line_delimited_json_mode
      then record t { writer = t.writer ++ (to_vec msg ++ (10 ∷ [])) }
      else record t { writer = t.writer ++ frame (to_vec msg) }
