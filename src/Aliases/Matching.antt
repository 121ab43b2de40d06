-- ===== src/Aliases/Matching.antt =====
-- Matching an alias of src/state/resolver.rs and putting the wildcard back are inverse.
use nexus_intelli_core.Prelude.{
  ℕ, zero, suc, ◌+◌, ◌-◌, ◌≤◌, true, [], ◌∷◌, ◌++◌, some, length, take, drop, length-append,
  take-length_append, drop-length_append, append_assoc, ◌≡◌, inl, inr, refl, sym, ap, ◌∙◌, arith,
  Bool-cases, Option-cases,
}
use nexus_intelli_core.Prelude.Text.{Text, text_eq, text_eq→eq, text_eq_refl, text_starts_with}
use nexus_intelli_core.Transport.Bytes.{split_once}
use nexus_intelli_core.Aliases.{
  text_ends_with, has_parts, between, match_alias_pattern, apply_alias_target,
}

take-drop : (n : ℕ) (s : Text) → take n s ++ drop n s ≡ s
take-drop zero s = refl
take-drop (suc n) [] = refl
take-drop (suc n) (c ∷ s) = ap (◌∷◌ c) (take-drop n s)

drop-nil : (n : ℕ) → drop {A = ℕ} n [] ≡ []
drop-nil zero = refl
drop-nil (suc n) = refl

drop-drop : (m n k : ℕ) (s : Text) → m ≡ k + n → drop n (drop k s) ≡ drop m s
drop-drop m n zero s e = ap (λ i. drop i s) (omega arith)
drop-drop m n (suc k) [] e = drop-nil n ∙ sym (drop-nil m)
drop-drop zero n (suc k) (c ∷ s) e = absurd (omega arith)
drop-drop (suc m) n (suc k) (c ∷ s) e = drop-drop m n k s (omega arith)

length-drop : (n : ℕ) (s : Text) → length (drop n s) ≡ length s - n
length-drop zero s = omega arith
length-drop (suc n) [] = omega arith
length-drop (suc n) (c ∷ s) = omega (arith, length-drop n s)

starts_with-append : (t p : Text) → text_starts_with t p ≡ true → p ++ drop (length p) t ≡ t
unfolding text_starts_with
starts_with-append t [] e = refl
starts_with-append [] (x ∷ p) e = cc
starts_with-append (c ∷ t) (x ∷ p) e = ground (arith, starts_with-append t p)

starts_with_self : (p t : Text) → text_starts_with (p ++ t) p ≡ true
unfolding text_starts_with
starts_with_self [] t = refl
starts_with_self (x ∷ p) t = ground (arith, starts_with_self p t)

-- The parts of a path that passes the three tests.
parts : (path p q : Text) → has_parts p q path ≡ true → p ++ (between p q path ++ q) ≡ path
unfolding text_ends_with has_parts
parts path p q h =
    let starts : text_starts_with path p ≡ true = ground (arith, h) in
    let fits : length p + length q ≤ length path = ground (arith, h) in
    let r = drop (length p) path in
    let n = length path - length q - length p in
    let ending : drop (length path - length q) path ≡ q = text_eq→eq _ _ (ground arith) in
    let tail : drop n r ≡ q =
      drop-drop (length path - length q) n (length p) path (omega arith) ∙ ending in
    ap (λ t. p ++ (take n r ++ t)) (sym tail)
    ∙ ap (λ t. p ++ t) (take-drop n r)
    ∙ starts_with-append path p starts

-- If a pattern matches a path, the matched text in the place of the pattern's first star gives the
-- path back.
pub apply-match_alias_pattern :
    (pattern_text path w : Text)
    → match_alias_pattern pattern_text path ≡ some w
    → apply_alias_target pattern_text w ≡ path
unfolding match_alias_pattern apply_alias_target
apply-match_alias_pattern pattern_text path w e =
    elim (Option-cases (split_once b'*' pattern_text)) [
      | inl none' ↦ elim (Bool-cases (text_eq pattern_text path)) [
        | inl same ↦ rw (none', apply_alias_target) (text_eq→eq pattern_text path same)
        | inr differs ↦ absurd (ground (arith, e, none', differs))
      ]
      | inr ((p, q), found) ↦ elim (Bool-cases (has_parts p q path)) [
        | inl h ↦
            let e' : between p q path ≡ w = ground (arith, e, found, h) in
            rw (found, apply_alias_target) (ap (λ v. p ++ (v ++ q)) (sym e') ∙ parts path p q h)
        | inr fails ↦ absurd (ground (arith, e, found, fails))
      ]
    ]

ends_with_append : (t q : Text) → text_ends_with (t ++ q) q ≡ true
unfolding text_ends_with
ends_with_append t q =
    let long = length-append t q in
    let e : drop (length (t ++ q) - length q) (t ++ q) ≡ q =
      ap (λ n. drop n (t ++ q)) (omega (arith, long)) ∙ drop-length_append t q in
    rw (e, text_eq_refl q) (ground (arith, long))

has_parts_append : (p w q : Text) → has_parts p q (p ++ (w ++ q)) ≡ true
unfolding has_parts
has_parts_append p w q =
    let ends : text_ends_with (p ++ (w ++ q)) q ≡ true =
      ap (λ t. text_ends_with t q) (sym (append_assoc p w q)) ∙ ends_with_append (p ++ w) q in
    let long = length-append p (w ++ q) in
    let long' = length-append w q in
    rw (starts_with_self p (w ++ q), ends) (ground (arith, long, long'))

between_append : (p w q : Text) → between p q (p ++ (w ++ q)) ≡ w
between_append p w q =
    let long = length-append p (w ++ q) in
    let long' = length-append w q in
    rw (drop-length_append p (w ++ q))
      (ap (λ n. take n (w ++ q)) (omega (arith, long, long')) ∙ take-length_append w q)

apply-split_once :
    (target w p q : Text)
    → split_once b'*' target ≡ some (p, q)
    → apply_alias_target target w ≡ p ++ (w ++ q)
unfolding apply_alias_target
apply-split_once target w p q e = rw (e, apply_alias_target) refl

match-has_parts :
    (pattern_text path p q : Text)
    → split_once b'*' pattern_text ≡ some (p, q)
    → has_parts p q path ≡ true
    → match_alias_pattern pattern_text path ≡ some (between p q path)
unfolding match_alias_pattern
match-has_parts pattern_text path p q e h = rw (e, match_alias_pattern, h) refl

-- A pattern with a star matches what comes of it by putting any text in the place of the first
-- star, and the match is that text.
pub match-apply_alias_target :
    (pattern_text w p q : Text)
    → split_once b'*' pattern_text ≡ some (p, q)
    → match_alias_pattern pattern_text (apply_alias_target pattern_text w) ≡ some w
unfolding match_alias_pattern apply_alias_target
match-apply_alias_target pattern_text w p q e =
    ap (match_alias_pattern pattern_text) (apply-split_once pattern_text w p q e)
    ∙ match-has_parts pattern_text (p ++ (w ++ q)) p q e (has_parts_append p w q)
    ∙ ap some (between_append p w q)
