-- ===== src/Prelude/Decimal.antt =====
-- Decimal numerals: `to_string` of an unsigned integer, and `str::parse::<usize>`.
pub mod RoundTrip
use nexus_intelli_core.Prelude.Tests.{leb, ltb, ◌==◌, if◌then◌else◌}
use Prim.Native.Nat.{ℕ, zero, suc, ◌+◌, ◌-◌, ◌*◌, ◌/◌, ◌%◌, ◌^◌, ◌≤◌, ◌<◌}
use mathlib.Core.Path.{◌≡◌, refl}
use mathlib.Core.Bool.{Bool, true, false, ◌&&◌}
use mathlib.Core.Option.{Option, none, some}
use mathlib.Core.List.{List, [], ◌∷◌, ◌++◌, append_assoc}
use native.Mathlib.Omega.{arith}
use nexus_intelli_core.Prelude.Text.{Text}

-- The digits of `n` before `acc`. The fuel bounds the number of digits.
unfoldable pub digits : ℕ → ℕ → Text → Text
digits zero n acc = acc
digits (suc f) n acc =
    let more = digits f (n / 10) ((b'0' + n % 10) ∷ acc) in
    if ltb n 10 then (b'0' + n) ∷ acc else more

-- `n.to_string()`: a number has at most `n + 1` digits.
unfoldable pub to_dec : ℕ → Text
unfolding digits
to_dec n = digits (suc n) n []

abbrev pub is_digit : ℕ → Bool
is_digit c = leb b'0' c && leb c b'9'

abbrev pub usize_max : ℕ
usize_max = 18446744073709551615

-- One step of the loop of `from_str_radix`: a digit that does not overflow.
unfoldable pub parse_digits : Text → ℕ → Option ℕ
parse_digits [] acc = some acc
parse_digits (c ∷ cs) acc =
    let next = acc * 10 + (c - b'0') in
    let rest = parse_digits cs next in if is_digit c && leb next usize_max then rest else none

-- An empty text is refused, and one `+` may stand in front of the digits.
unfoldable pub parse_usize : Text → Option ℕ
unfolding parse_digits
parse_usize [] = none
parse_usize (c ∷ []) = parse_digits (c ∷ []) 0
parse_usize (c ∷ d ∷ cs) =
    if c == b'+' then parse_digits (d ∷ cs) 0 else parse_digits (c ∷ d ∷ cs) 0
