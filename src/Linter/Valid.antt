-- ===== src/Linter/Valid.antt =====
-- That the masking of src/linter/level1.rs leaves a line UTF-8: only whole characters are blanked.
use mathlib.Core.Path.{subst}
use nexus_intelli_core.Prelude.{
  ℕ, ◌≤◌, ◌<◌, Bool, true, false, ◌&&◌, List, [], ◌∷◌, Option, none, some, ◌==◌, leb, ◌≡◌, inl, inr,
  refl, sym, ap, ◌∙◌, arith, All, Bool-cases, Option-cases, if◌then◌else◌,
}
use nexus_intelli_core.Prelude.Text.{Text}
use nexus_intelli_core.Transport.Bytes.{utf8_tail, utf8_after, is_utf8}
use nexus_intelli_core.Linter.{blank, is_line_comment_start, mask}
use nexus_intelli_core.Linter.Scanned.{
  Place, in_code, in_comment, in_single, in_double, is_code, next_place, mask_from, shown,
  mask_from-nil, mask_from-step,
}

-- Bytes that continue a character are at least 128.
abbrev AreHigh : List (ℕ × ℕ) → Type 0
AreHigh rs = All (λ r. 128 ≤ r.0) rs

utf8_tail-AreHigh : (a : ℕ) (rs : List (ℕ × ℕ)) → utf8_tail a ≡ some rs → AreHigh rs
unfolding utf8_tail
utf8_tail-AreHigh a rs h = ground (arith, h)

-- What is still to come of a character after one more byte.
abbrev after_byte : List (ℕ × ℕ) → ℕ → Option (List (ℕ × ℕ))
after_byte [] c = utf8_tail c
after_byte ((low, high) ∷ rs) c = if leb low c && leb c high then some rs else none

abbrev ends_well : Option (List (ℕ × ℕ)) → Text → Bool
ends_well none s = false
ends_well (some rs) s = utf8_after rs s

utf8_after-step :
    (rs : List (ℕ × ℕ)) (c : ℕ) (cs : Text)
    → utf8_after rs (c ∷ cs) ≡ ends_well (after_byte rs c) cs
unfolding utf8_after
utf8_after-step [] c cs = elim (Option-cases (utf8_tail c)) [
  | inl h ↦ rw (h, utf8_after) refl
  | inr (ts, h) ↦ rw (h, utf8_after) refl
]
utf8_after-step ((low, high) ∷ rs) c cs = elim (Bool-cases (leb low c && leb c high)) [
  | inl h ↦ rw h refl
  | inr h ↦ rw h refl
]

after_byte-AreHigh :
    (rs ts : List (ℕ × ℕ)) (c : ℕ) → AreHigh rs → after_byte rs c ≡ some ts → AreHigh ts
after_byte-AreHigh [] ts c h e = utf8_tail-AreHigh c ts e
after_byte-AreHigh ((low, high) ∷ rs) ts c (h, hs) e = elim (Bool-cases (leb low c && leb c high)) [
  | inl y ↦ subst AreHigh (ground (arith, e, y)) hs
  | inr n ↦ absurd (ground (arith, e, n))
]

-- A byte below 128 stands alone.
after_byte-low :
    (rs ts : List (ℕ × ℕ)) (c : ℕ)
    → AreHigh rs
    → after_byte rs c ≡ some ts
    → c < 128
    → (rs ≡ []) × (ts ≡ [])
unfolding utf8_tail
after_byte-low [] ts c h e l = (refl, ground (arith, e, l))
after_byte-low ((low, high) ∷ rs) ts c (h, hs) e l = absurd (ground (arith, e, l, h))

-- The bytes of a character are left to come in code only; elsewhere each of them becomes a blank.
abbrev pending : Place → List (ℕ × ℕ) → List (ℕ × ℕ)
pending in_code rs = rs
pending _ rs = []

not_code-low :
    (language : Text) (c : ℕ) (cs : Text) → is_code language in_code (c ∷ cs) ≡ false → c < 128
unfolding is_line_comment_start
not_code-low language c cs h = ground (arith, h)

pending-nil : (p : Place) → pending p [] ≡ []
pending-nil in_code = refl
pending-nil in_comment = refl
pending-nil (in_single e) = refl
pending-nil (in_double e) = refl

next_place-code :
    (language : Text) (c : ℕ) (cs : Text)
    → is_code language in_code (c ∷ cs) ≡ true
    → next_place language in_code (c ∷ cs) ≡ in_code
next_place-code language c cs h =
    let n : is_line_comment_start language (c ∷ cs) ≡ false = ground (arith, h) in
    let k : (c == 39) ≡ false = ground (arith, h) in
    let l : (c == 34) ≡ false = ground (arith, h) in rw (n, k, l) refl

-- Within a string or a comment, a byte that is not alone leads to no code.
abbrev IsBlanked : Place → Type 0
IsBlanked in_code = ⊥
IsBlanked _ = Unit

pending-blanked :
    (language : Text) (p : Place) (c : ℕ) (cs : Text) (ts : List (ℕ × ℕ))
    → IsBlanked p
    → 128 ≤ c
    → pending (next_place language p (c ∷ cs)) ts ≡ []
pending-blanked language in_code c cs ts b h = elim b [ ]
pending-blanked language in_comment c cs ts b h = refl
pending-blanked language (in_single true) c cs ts b h = refl
pending-blanked language (in_double true) c cs ts b h = refl
pending-blanked language (in_single false) c cs ts b h =
    let k : (c == 92) ≡ false = ground (arith, h) in
    let l : (c == 39) ≡ false = ground (arith, h) in rw (k, l) refl
pending-blanked language (in_double false) c cs ts b h =
    let k : (c == 92) ≡ false = ground (arith, h) in
    let l : (c == 34) ≡ false = ground (arith, h) in rw (k, l) refl

blank_first : (m : Text) → utf8_after [] (blank ∷ m) ≡ utf8_after [] m
unfolding utf8_after utf8_tail
blank_first m = refl

module _ (language : Text) (c : ℕ) (cs m : Text) (rs ts : List (ℕ × ℕ)) where
  -- A blank in front, where nothing of a character is left to come behind it.
  blank_step :
      (q : Place) (qs : List (ℕ × ℕ))
      → pending q qs ≡ []
      → utf8_after (pending q qs) m ≡ true
      → utf8_after [] (blank ∷ m) ≡ true
  blank_step q qs e h = blank_first m ∙ subst (λ l. utf8_after l m ≡ true) e h

  low_pending : (q : Place) → AreHigh rs → after_byte rs c ≡ some ts → c < 128 → pending q ts ≡ []
  low_pending q a e l = ap (pending q) (after_byte-low rs ts c a e l).1 ∙ pending-nil q

  blanked_step :
      (p : Place)
      → IsBlanked p
      → AreHigh rs
      → after_byte rs c ≡ some ts
      → utf8_after (pending (next_place language p (c ∷ cs)) ts) m ≡ true
      → utf8_after [] (blank ∷ m) ≡ true
  blanked_step p b a e h =
      let q = next_place language p (c ∷ cs) in
      elim (Bool-cases (leb 128 c)) [
        | inl y ↦ blank_step q ts (pending-blanked language p c cs ts b (ground (arith, y))) h
        | inr n ↦ blank_step q ts (low_pending q a e (ground (arith, n))) h
      ]

  -- One byte and what the masking makes of it.
  shown_step :
      (p : Place)
      → AreHigh rs
      → after_byte rs c ≡ some ts
      → utf8_after (pending (next_place language p (c ∷ cs)) ts) m ≡ true
      → utf8_after (pending p rs) (shown language p c cs ∷ m) ≡ true
  shown_step in_comment a e h = blanked_step in_comment tt a e h
  shown_step (in_single x) a e h = blanked_step (in_single x) tt a e h
  shown_step (in_double x) a e h = blanked_step (in_double x) tt a e h
  shown_step in_code a e h = elim (Bool-cases (is_code language in_code (c ∷ cs))) [
    | inl y ↦
        let k : utf8_after ts m ≡ true =
          subst (λ q. utf8_after (pending q ts) m ≡ true) (next_place-code language c cs y) h in
        let f : shown language in_code c cs ≡ c = ground (arith, y) in
        ap (λ d. utf8_after rs (d ∷ m)) f ∙ utf8_after-step rs c m ∙ ap (λ o. ends_well o m) e ∙ k
    | inr n ↦
        let l = not_code-low language c cs n in
        let q = next_place language in_code (c ∷ cs) in
        let f : shown language in_code c cs ≡ blank = ground (arith, n) in
        ap (λ d. utf8_after rs (d ∷ m)) f
        ∙ ap (λ r. utf8_after r (blank ∷ m)) (after_byte-low rs ts c a e l).0
        ∙ blank_step q ts (low_pending q a e l) h
  ]

mask_from-valid :
    (language : Text) (p : Place) (rs : List (ℕ × ℕ)) (line : Text)
    → AreHigh rs
    → utf8_after rs line ≡ true
    → utf8_after (pending p rs) (mask_from language p line) ≡ true
unfolding utf8_after
mask_from-valid language p [] [] a h =
    ap (λ r. utf8_after r (mask_from language p [])) (pending-nil p)
    ∙ ap (utf8_after []) (mask_from-nil language p)
mask_from-valid language p (r ∷ rs) [] a h = absurd (ground (arith, h))
mask_from-valid language p rs (c ∷ cs) a h = elim (Option-cases (after_byte rs c)) [
  | inl e ↦ absurd (ground (arith, sym h ∙ (utf8_after-step rs c cs ∙ ap (λ o. ends_well o cs) e)))
  | inr (ts, e) ↦
      let k : utf8_after ts cs ≡ true =
        sym (utf8_after-step rs c cs ∙ ap (λ o. ends_well o cs) e) ∙ h in
      let q = next_place language p (c ∷ cs) in
      let rest = mask_from-valid language q ts cs (after_byte-AreHigh rs ts c a e) k in
      ap (utf8_after (pending p rs)) (mask_from-step language p c cs)
      ∙ shown_step language c cs (mask_from language q cs) rs ts p a e rest
]

-- Masking a UTF-8 line leaves it UTF-8.
pub mask-is_utf8 :
    (language line : Text)
    → is_utf8 line ≡ true
    → is_utf8 (mask language false false false line) ≡ true
unfolding is_utf8 mask_from
mask-is_utf8 language line h = mask_from-valid language in_code [] line tt h
