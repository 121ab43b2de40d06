-- ===== src/Linter/Scanned.antt =====
-- Where src/linter/level1.rs looks for the patterns of its rules: outside of strings and comments.
use mathlib.Core.Path.{subst}
use nexus_intelli_core.Prelude.{
  ℕ, zero, suc, Bool, true, false, not, ◌&&◌, ◌||◌, [], ◌∷◌, map, some, ◌==◌, ◌≡◌, ◌⊎◌, inl, inr,
  refl, sym, arith, Bool-cases, Option-cases, if◌then◌else◌,
}
use nexus_intelli_core.Prelude.Text.{Text, text_starts_with}
use nexus_intelli_core.Linter.{blank, is_line_comment_start, string_next, mask, find_text}

-- Where a scanner of a line stands before a byte; inside a string, with whether a backslash escapes
-- the byte.
pub data Place : Type 0 where
  in_code in_comment : Place
  in_single in_double : Bool → Place

abbrev pub is_quote : ℕ → Bool
is_quote c = c == 39 || c == 34

-- The place before the next byte.
abbrev pub next_place : Text → Place → Text → Place
next_place language p [] = p
next_place language in_comment (c ∷ cs) = in_comment
next_place language (in_single true) (c ∷ cs) = in_single false
next_place language (in_single false) (c ∷ cs) =
    if c == 92 then in_single true else if c == 39 then in_code else in_single false
next_place language (in_double true) (c ∷ cs) = in_double false
next_place language (in_double false) (c ∷ cs) =
    if c == 92 then in_double true else if c == 34 then in_code else in_double false
next_place language in_code (c ∷ cs) =
    if is_line_comment_start language (c ∷ cs)
    then in_comment
    else if c == 39
    then in_single false
    else if c == 34
    then in_double false
    else in_code

-- The first byte belongs to the code: no quote, and no comment starts there.
abbrev pub is_code : Text → Place → Text → Bool
is_code language in_code (c ∷ cs) =
    not (is_line_comment_start language (c ∷ cs)) && not (is_quote c)
is_code language _ _ = false

-- The byte at an offset belongs to the code, and is the given one.
unfoldable pub HasCode : Text → Place → Text → ℕ → ℕ → Type 0
HasCode language p [] k x = ⊥
HasCode language p (c ∷ cs) zero x = (c ≡ x) × (is_code language p (c ∷ cs) ≡ true)
HasCode language p (c ∷ cs) (suc k) x = HasCode language (next_place language p (c ∷ cs)) cs k x

-- What the masking makes of a text that begins at a place.
unfoldable pub mask_from : Text → Place → Text → Text
unfolding mask
mask_from language in_code line = mask language false false false line
mask_from language in_comment line = map (λ _. blank) line
mask_from language (in_single e) line = mask language true false e line
mask_from language (in_double e) line = mask language false true e line

pub mask_from-nil : (language : Text) (p : Place) → mask_from language p [] ≡ []
unfolding mask_from mask
mask_from-nil language in_code = refl
mask_from-nil language in_comment = refl
mask_from-nil language (in_single e) = refl
mask_from-nil language (in_double e) = refl

abbrev pub shown : Text → Place → ℕ → Text → ℕ
shown language p c cs = if is_code language p (c ∷ cs) then c else blank

pub mask_from-step :
    (language : Text) (p : Place) (c : ℕ) (cs : Text)
    → mask_from language p (c ∷ cs)
      ≡ shown language p c cs ∷ mask_from language (next_place language p (c ∷ cs)) cs
unfolding mask_from mask string_next
mask_from-step language in_comment c cs = refl
mask_from-step language (in_single true) c cs = refl
mask_from-step language (in_double true) c cs = refl
mask_from-step language (in_single false) c cs = elim (Bool-cases (c == 92)) [
  | inl h ↦ rw (h, mask_from) refl
  | inr h ↦ elim (Bool-cases (c == 39)) [
    | inl k ↦ rw (h, k, mask_from) refl
    | inr k ↦ rw (h, k, mask_from) refl
  ]
]
mask_from-step language (in_double false) c cs = elim (Bool-cases (c == 92)) [
  | inl h ↦ rw (h, mask_from) refl
  | inr h ↦ elim (Bool-cases (c == 34)) [
    | inl k ↦ rw (h, k, mask_from) refl
    | inr k ↦ rw (h, k, mask_from) refl
  ]
]
mask_from-step language in_code c cs = elim (Bool-cases (is_line_comment_start language (c ∷ cs))) [
  | inl h ↦ rw (h, mask_from) refl
  | inr h ↦ elim (Bool-cases (c == 39)) [
    | inl k ↦ rw (h, k, mask_from) refl
    | inr k ↦ elim (Bool-cases (c == 34)) [
      | inl l ↦ rw (h, k, l, mask_from) refl
      | inr l ↦ rw (h, k, l, mask_from) refl
    ]
  ]
]

-- From an offset on, each byte of the pattern is a blank or stands in the line as code.
unfoldable pub MatchesCode : Text → Place → Text → ℕ → Text → Type 0
unfolding HasCode
MatchesCode language p line k [] = Unit
MatchesCode language p line k (x ∷ xs) =
    ((x ≡ blank) ⊎ HasCode language p line k x) × MatchesCode language p line (suc k) xs

MatchesCode-suc :
    (language : Text) (p : Place) (c : ℕ) (cs : Text) (k : ℕ) (xs : Text)
    → MatchesCode language (next_place language p (c ∷ cs)) cs k xs
    → MatchesCode language p (c ∷ cs) (suc k) xs
unfolding MatchesCode HasCode
MatchesCode-suc language p c cs k [] h = tt
MatchesCode-suc language p c cs k (x ∷ xs) (h, hs) =
    (h, MatchesCode-suc language p c cs (suc k) xs hs)

starts-MatchesCode :
    (language : Text) (p : Place) (line xs : Text)
    → text_starts_with (mask_from language p line) xs ≡ true
    → MatchesCode language p line 0 xs
unfolding MatchesCode HasCode text_starts_with
starts-MatchesCode language p line [] h = tt
starts-MatchesCode language p [] (x ∷ xs) h =
    absurd
      (ground (arith, subst (λ t. text_starts_with t (x ∷ xs) ≡ true) (mask_from-nil language p) h))
starts-MatchesCode language p (c ∷ cs) (x ∷ xs) h =
    let q = next_place language p (c ∷ cs) in
    let k : text_starts_with (shown language p c cs ∷ mask_from language q cs) (x ∷ xs) ≡ true =
      subst (λ t. text_starts_with t (x ∷ xs) ≡ true) (mask_from-step language p c cs) h in
    let rest = starts-MatchesCode language q cs xs (ground (arith, k)) in
    (
      elim (Bool-cases (is_code language p (c ∷ cs))) [
        | inl y ↦ inr (ground (arith, k, y), y)
        | inr n ↦ inl (ground (arith, k, n))
      ],
      MatchesCode-suc language p c cs 0 xs rest,
    )

pub find-MatchesCode :
    (language : Text) (p : Place) (line xs : Text) (k : ℕ)
    → find_text xs (mask_from language p line) ≡ some k
    → MatchesCode language p line k xs
unfolding MatchesCode find_text
find-MatchesCode language p line [] k h = tt
find-MatchesCode language p [] (x ∷ xs) k h =
    absurd (ground (arith, subst (λ t. find_text (x ∷ xs) t ≡ some k) (mask_from-nil language p) h))
find-MatchesCode language p (c ∷ cs) (x ∷ xs) k h =
    let q = next_place language p (c ∷ cs) in
    let m = mask_from language q cs in
    let d = shown language p c cs in
    let f : find_text (x ∷ xs) (d ∷ m) ≡ some k =
      subst (λ t. find_text (x ∷ xs) t ≡ some k) (mask_from-step language p c cs) h in
    elim (Bool-cases (text_starts_with (d ∷ m) (x ∷ xs))) [
      | inl here ↦
          let zero_k : k ≡ 0 = ground (arith, f, here) in
          rw zero_k (
            starts-MatchesCode language p (c ∷ cs) (x ∷ xs) (
              subst (λ t. text_starts_with t (x ∷ xs) ≡ true) (sym (mask_from-step language p c cs))
                here))
      | inr later ↦ elim (Option-cases (find_text (x ∷ xs) m)) [
        | inl none' ↦ absurd (ground (arith, f, later, none'))
        | inr (n, found) ↦
            let next_k : k ≡ suc n = ground (arith, f, later, found) in
            rw next_k (
              MatchesCode-suc language p c cs n (x ∷ xs)
                (find-MatchesCode language q cs (x ∷ xs) n found))
      ]
    ]
