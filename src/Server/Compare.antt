-- ===== src/Server/Compare.antt =====
-- Token digests and their comparison (src/security.rs).
use Prim.Native.Nat.{bit_or, bit_xor, digits, differ, max, bit_or-bitwise, bit_xor-bitwise}
use nexus_intelli_core.Prelude.{
  ℕ, zero, suc, ◌/◌, ◌%◌, ◌≤◌, Bool, true, List, [], ◌∷◌, ◌≡◌, ◌↔◌, refl, sym, ap, ◌∙◌, arith,
  length, ◌==◌, ==_iff,
}

-- A `[u8; 32]`.
abbrev pub Digest : Type 0
Digest = List ℕ

-- The loop `diff |= a[i] ^ b[i]` over the bytes of both.
unfoldable pub diff_from : ℕ → Digest → Digest → ℕ
diff_from diff (x ∷ xs) (y ∷ ys) = diff_from (bit_or diff (bit_xor x y)) xs ys
diff_from diff _ _ = diff

unfoldable pub constant_time_compare_hashes : Digest → Digest → Bool
unfolding diff_from
constant_time_compare_hashes a b = diff_from 0 a b == 0

or_digits-zero : (n a b : ℕ) → a ≤ n → digits (λ b. b) max n a b ≡ 0 → (a ≡ 0) × (b ≡ 0)
or_digits-zero zero zero b h e = (refl, e)
or_digits-zero zero (suc a) b h e = absurd (omega arith)
or_digits-zero (suc n) zero b h e = (refl, e)
or_digits-zero (suc n) (suc a) b h e =
    let rest : digits (λ b. b) max n (suc a / 2) (b / 2) ≡ 0 = omega arith in
    omega (arith, or_digits-zero n (suc a / 2) (b / 2) (omega arith) rest)

differ-zero : (x y : ℕ) → differ x y ≡ 0 → x ≡ y
differ-zero zero y e = sym e
differ-zero (suc x) zero e = absurd (omega arith)
differ-zero (suc x) (suc y) e = ap suc (differ-zero x y e)

differ_self : (x : ℕ) → differ x x ≡ 0
differ_self zero = refl
differ_self (suc x) = differ_self x

xor_digits-zero : (n a b : ℕ) → a ≤ n → digits (λ b. b) differ n a b ≡ 0 → a ≡ b
xor_digits-zero zero zero b h e = sym e
xor_digits-zero zero (suc a) b h e = absurd (omega arith)
xor_digits-zero (suc n) zero b h e = sym e
xor_digits-zero (suc n) (suc a) b h e =
    let rest : digits (λ b. b) differ n (suc a / 2) (b / 2) ≡ 0 = omega arith in
    let low : differ (suc a % 2) (b % 2) ≡ 0 = omega arith in
    omega (
      arith,
      xor_digits-zero n (suc a / 2) (b / 2) (omega arith) rest,
      differ-zero (suc a % 2) (b % 2) low,
    )

xor_digits_self : (n a : ℕ) → a ≤ n → digits (λ b. b) differ n a a ≡ 0
xor_digits_self zero zero h = refl
xor_digits_self zero (suc a) h = absurd (omega arith)
xor_digits_self (suc n) zero h = refl
xor_digits_self (suc n) (suc a) h =
    omega (arith, xor_digits_self n (suc a / 2) (omega arith), differ_self (suc a % 2))

bit_or-eq_zero : (a b : ℕ) → bit_or a b ≡ 0 → (a ≡ 0) × (b ≡ 0)
bit_or-eq_zero a b e = or_digits-zero a a b (omega arith) (sym (bit_or-bitwise a b) ∙ e)

pub bit_xor-eq_zero : (a b : ℕ) → bit_xor a b ≡ 0 → a ≡ b
bit_xor-eq_zero a b e = xor_digits-zero a a b (omega arith) (sym (bit_xor-bitwise a b) ∙ e)

pub bit_xor_self : (a : ℕ) → bit_xor a a ≡ 0
bit_xor_self a = bit_xor-bitwise a a ∙ xor_digits_self a a (omega arith)

pub diff_from-zero :
    (d : ℕ) (a b : Digest) → length a ≡ length b → diff_from d a b ≡ 0 → (d ≡ 0) × (a ≡ b)
unfolding diff_from
diff_from-zero d [] [] h e = (e, refl)
diff_from-zero d [] (y ∷ b) h e = absurd (omega arith)
diff_from-zero d (x ∷ a) [] h e = absurd (omega arith)
diff_from-zero d (x ∷ a) (y ∷ b) h e =
    let (or_zero, same) = diff_from-zero (bit_or d (bit_xor x y)) a b (omega arith) e in
    let (d_zero, xor_zero) = bit_or-eq_zero d (bit_xor x y) or_zero in
    (d_zero, cc (bit_xor-eq_zero x y xor_zero))

pub diff_from_self : (a : Digest) → diff_from 0 a a ≡ 0
unfolding diff_from
diff_from_self [] = refl
diff_from_self (x ∷ a) = rw (bit_xor_self x) (diff_from_self a)

-- For digests of the same length the comparison that looks at every byte is equality.
pub constant_time_compare_iff :
    (a b : Digest) → length a ≡ length b → (constant_time_compare_hashes a b ≡ true) ↔ (a ≡ b)
unfolding constant_time_compare_hashes
constant_time_compare_iff a b h = (
  λ e. (diff_from-zero 0 a b h ((==_iff _ 0).0 e)).1,
  λ e. (==_iff _ 0).1 (rw e (diff_from_self b)),
)
