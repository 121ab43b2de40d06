-- ===== src/Prelude/Decimal/RoundTrip.antt =====
-- Reading back the numerals that are written, and their length.
use Prim.Native.Nat.{ℕ, zero, suc, ◌+◌, ◌*◌, ◌/◌, ◌%◌, ◌^◌, ◌≤◌, ◌<◌}
use mathlib.Core.Path.{◌≡◌, refl, ap, ◌∙◌}
use mathlib.Core.Logic.{inl, inr}
use mathlib.Core.Option.{some}
use mathlib.Core.List.{[], ◌∷◌}
use native.Mathlib.Omega.{arith}
use native.Mathlib.Numerals.{unary_clauses}
use nexus_intelli_core.Prelude.Tests.{ltb, Bool-cases}
use nexus_intelli_core.Prelude.Lists.{length, All}
use nexus_intelli_core.Prelude.Text.{Text}
use nexus_intelli_core.Prelude.Decimal.{digits, to_dec, usize_max, parse_digits, parse_usize}

abbrev pub IsDigit : ℕ → Type 0
IsDigit c = (48 ≤ c) × (c ≤ 57)

digits-small : (f n : ℕ) (acc : Text) → n < 10 → digits (suc f) n acc ≡ (48 + n) ∷ acc
unfolding digits
digits-small f n acc h = ground arith

digits-large :
    (f n : ℕ) (acc : Text) → 10 ≤ n → digits (suc f) n acc ≡ digits f (n / 10) ((48 + n % 10) ∷ acc)
unfolding digits
digits-large f n acc h = ground arith

parse_digits-step :
    (d : ℕ) (acc : Text) (m : ℕ)
    → d < 10
    → m * 10 + d ≤ usize_max
    → parse_digits ((48 + d) ∷ acc) m ≡ parse_digits acc (m * 10 + d)
unfolding parse_digits
parse_digits-step d acc m small fits = ground arith

parse_digits-digits :
    (f n : ℕ) (acc : Text)
    → n < f
    → n ≤ usize_max
    → parse_digits (digits f n acc) 0 ≡ parse_digits acc n
parse_digits-digits zero n acc fuel fits = absurd (omega arith)
parse_digits-digits (suc f) n acc fuel fits = elim (Bool-cases (ltb n 10)) [
  | inl e ↦
      rw (digits-small f n acc (ground arith)) (
        parse_digits-step n acc 0 (ground arith) (omega arith)
        ∙ ap (parse_digits acc) (omega arith))
  | inr e ↦ rw (digits-large f n acc (ground arith)) (
      parse_digits-digits f (n / 10) ((48 + n % 10) ∷ acc) (ground arith) (omega arith)
      ∙ parse_digits-step (n % 10) acc (n / 10) (omega arith) (omega arith)
      ∙ ap (parse_digits acc) (omega arith))
]

digits-IsDigit : (f n : ℕ) (acc : Text) → n < f → All IsDigit acc → All IsDigit (digits f n acc)
digits-IsDigit zero n acc fuel h = absurd (omega arith)
digits-IsDigit (suc f) n acc fuel h = elim (Bool-cases (ltb n 10)) [
  | inl e ↦
      let small : n < 10 = ground arith in
      rw (digits-small f n acc small) ((omega arith, omega arith), h)
  | inr e ↦
      rw (digits-large f n acc (ground arith))
        (digits-IsDigit f (n / 10) _ (ground arith) ((omega arith, omega arith), h))
]

pub to_dec-IsDigit : (n : ℕ) → All IsDigit (to_dec n)
unfolding to_dec
to_dec-IsDigit n = digits-IsDigit (suc n) n [] (omega arith) tt

digits-length :
    (k f n : ℕ) (acc : Text) → n < f → n < 10 ^ suc k → length (digits f n acc) ≤ suc k + length acc
digits-length k zero n acc fuel h = absurd (omega arith)
digits-length zero (suc f) n acc fuel h = rw (digits-small f n acc (omega arith)) (omega arith)
digits-length (suc k) (suc f) n acc fuel h = elim (Bool-cases (ltb n 10)) [
  | inl e ↦ rw (digits-small f n acc (ground arith)) (omega arith)
  | inr e ↦
      let bound : n < 10 ^ k * 10 * 10 = simp unary_clauses at h in
      let rest =
        digits-length k f (n / 10) ((48 + n % 10) ∷ acc) (ground arith)
          (simp unary_clauses (omega (arith, bound))) in
      rw (digits-large f n acc (ground arith)) (omega (arith, rest))
]

pub to_dec-length : (k n : ℕ) → n < 10 ^ suc k → length (to_dec n) ≤ suc k
unfolding to_dec
to_dec-length k n h = omega (arith, digits-length k (suc n) n [] (omega arith) h)

digits-longer : (f n : ℕ) (acc : Text) → n < f → length acc < length (digits f n acc)
digits-longer zero n acc fuel = absurd (omega arith)
digits-longer (suc f) n acc fuel = elim (Bool-cases (ltb n 10)) [
  | inl e ↦ rw (digits-small f n acc (ground arith)) (omega arith)
  | inr e ↦
      let rest = digits-longer f (n / 10) ((48 + n % 10) ∷ acc) (ground arith) in
      rw (digits-large f n acc (ground arith)) (omega (arith, rest))
]

pub to_dec-nonempty : (n : ℕ) → 1 ≤ length (to_dec n)
unfolding to_dec
to_dec-nonempty n = digits-longer (suc n) n [] (omega arith)

parse_usize-IsDigit : (s : Text) → All IsDigit s → 1 ≤ length s → parse_usize s ≡ parse_digits s 0
unfolding parse_usize
parse_usize-IsDigit [] h long = absurd (omega arith)
parse_usize-IsDigit (c ∷ []) h long = refl
parse_usize-IsDigit (c ∷ d ∷ cs) (h, _) long = ground arith

pub parse_usize-to_dec : (n : ℕ) → n ≤ usize_max → parse_usize (to_dec n) ≡ some n
unfolding to_dec parse_digits
parse_usize-to_dec n h =
    parse_usize-IsDigit (to_dec n) (to_dec-IsDigit n) (to_dec-nonempty n)
    ∙ parse_digits-digits (suc n) n [] (omega arith) h
