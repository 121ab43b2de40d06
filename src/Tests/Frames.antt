-- ===== src/Tests/Frames.antt =====
-- Two framed messages, one after the other.
use nexus_intelli_core.Prelude.{
  false, List, [], ◌∷◌, ◌++◌, none, some, map, suc, length, arith, ◌≡◌, refl, if◌then◌else◌,
}
use nexus_intelli_core.Prelude.Text.{Text, codes, text_eq}
use nexus_intelli_core.Json.{Value, null, bool, object, end}
use nexus_intelli_core.Transport.{McpTransport, Codec, message, defaults, closed, new, read_message}
use nexus_intelli_core.Transport.Pipelining.{write_all, read_n, pipelined_round_trip}
use nexus_intelli_core.Transport.Termination.{is_exhausted, read_message-ends}
use nexus_intelli_core.Tests.Fixtures.{lower}

-- A codec that knows two documents.
abbrev print : Value → Text
print null = codes "null"
print (bool b) = codes "true"
print _ = codes "{}"

abbrev codec : Codec
codec = record {
  to_vec = print;
  from_slice = λ t.
      if text_eq t (codes "null")
      then some null
      else if text_eq t (codes "{}")
      then some (object end)
      else none;
  to_lowercase = lower;
}

abbrev documents : List Value
documents = object end ∷ null ∷ object end ∷ []

pipelined_round_trip_example :
    read_n codec (suc (length documents)) (new (write_all codec documents (new [])).writer)
    ≡ (map message documents ++ (closed ∷ []), new [])
unfolding text_eq defaults
pipelined_round_trip_example = pipelined_round_trip codec refl documents (
  (omega arith, omega arith, refl),
  ((omega arith, omega arith, refl), ((omega arith, omega arith, refl), tt)),
)

read_message-ends_example : is_exhausted (read_message codec (new (codes "no header"))).0 ≡ false
read_message-ends_example = read_message-ends codec (new (codes "no header"))

abbrev header_as_message : McpTransport
header_as_message = new (codes "X-Compat-Json-Message: {}" ++ (10 ∷ 10 ∷ []))

-- A header of that name is taken for a message of the line mode, in the framed mode too.
compat_header : (read_message codec header_as_message).0 ≡ message (object end)
unfolding read_message new text_eq
compat_header = refl
