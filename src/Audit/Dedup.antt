-- ===== src/Audit/Dedup.antt =====
-- What the deduplication of src/tools/audit.rs keeps, and that its counts are complete.
use mathlib.Core.Path.{subst}
use nexus_intelli_core.Prelude.{
  ◌+◌, ◌≤◌, true, false, List, [], ◌∷◌, map, length, any, All, ◌≡◌, ◌⊎◌, refl, sym, inl, inr, arith,
  Bool-cases,
}
use nexus_intelli_core.Prelude.Text.{Text, text_eq, text_eq_refl}
use nexus_intelli_core.Audit.{
  production, test, fixture, detector_definition, RichFinding, keep_new, dedup, count_of, counts_of,
}

abbrev pub HasPrint : List Text → RichFinding → Type 0
HasPrint ts f = any (text_eq f.fingerprint) ts ≡ true

abbrev pub LacksPrint : List Text → RichFinding → Type 0
LacksPrint ts f = any (text_eq f.fingerprint) ts ≡ false

abbrev pub prints : List RichFinding → List Text
prints fs = map (λ f. f.fingerprint) fs

-- No two findings have the same fingerprint.
abbrev pub AreDistinct : List RichFinding → Type 0
AreDistinct [] = Unit
AreDistinct (f ∷ fs) = All (LacksPrint (f.fingerprint ∷ [])) fs × AreDistinct fs

keep-seen :
    (seen : List Text) (f : RichFinding) (fs : List RichFinding)
    → HasPrint seen f
    → keep_new seen (f ∷ fs) ≡ keep_new seen fs
unfolding keep_new
keep-seen seen f fs h = rw h refl

keep-fresh :
    (seen : List Text) (f : RichFinding) (fs : List RichFinding)
    → LacksPrint seen f
    → keep_new seen (f ∷ fs) ≡ f ∷ keep_new (f.fingerprint ∷ seen) fs
unfolding keep_new
keep-fresh seen f fs h = rw h refl

lacks-split :
    (t : Text) (seen : List Text) (fs : List RichFinding)
    → All (LacksPrint (t ∷ seen)) fs
    → All (LacksPrint (t ∷ [])) fs × All (LacksPrint seen) fs
lacks-split t seen [] h = (tt, tt)
lacks-split t seen (f ∷ fs) (l, h) =
    let (a, b) = lacks-split t seen fs h in ((ground (arith, l), a), (ground (arith, l), b))

keep_new-AreDistinct :
    (fs : List RichFinding) (seen : List Text)
    → All (LacksPrint seen) (keep_new seen fs) × AreDistinct (keep_new seen fs)
unfolding keep_new
keep_new-AreDistinct [] seen = (tt, tt)
keep_new-AreDistinct (f ∷ fs) seen = elim (Bool-cases (any (text_eq f.fingerprint) seen)) [
  | inl h ↦ rw (keep-seen seen f fs h) (keep_new-AreDistinct fs seen)
  | inr n ↦
      let (l, d) = keep_new-AreDistinct fs (f.fingerprint ∷ seen) in
      let (a, b) = lacks-split f.fingerprint seen (keep_new (f.fingerprint ∷ seen) fs) l in
      rw (keep-fresh seen f fs n) ((n, b), (a, d))
]

-- Each finding's fingerprint was seen or is kept.
abbrev IsAccounted : List Text → List RichFinding → RichFinding → Type 0
IsAccounted seen kept f = HasPrint seen f ⊎ HasPrint (prints kept) f

moved :
    (t : Text) (seen : List Text) (k : RichFinding) (kept fs : List RichFinding)
    → k.fingerprint ≡ t
    → All (IsAccounted (t ∷ seen) kept) fs
    → All (IsAccounted seen (k ∷ kept)) fs
moved t seen k kept [] e h = tt
moved t seen k kept (f ∷ fs) e (a, h) = (
  elim a [
    | inl y ↦ elim (Bool-cases (text_eq f.fingerprint t)) [
      | inl same ↦ inr (rw e (ground (arith, same)))
      | inr other ↦ inl (ground (arith, y, other))
    ]
    | inr y ↦ inr (ground (arith, y))
  ],
  moved t seen k kept fs e h,
)

keep_new-IsAccounted :
    (fs : List RichFinding) (seen : List Text) → All (IsAccounted seen (keep_new seen fs)) fs
unfolding keep_new
keep_new-IsAccounted [] seen = tt
keep_new-IsAccounted (f ∷ fs) seen = elim (Bool-cases (any (text_eq f.fingerprint) seen)) [
  | inl h ↦
      subst (λ k. All (IsAccounted seen k) (f ∷ fs)) (sym (keep-seen seen f fs h))
        (inl h, keep_new-IsAccounted fs seen)
  | inr n ↦
      subst (λ k. All (IsAccounted seen k) (f ∷ fs)) (sym (keep-fresh seen f fs n))
        (
          inr (rw (text_eq_refl f.fingerprint) refl),
          moved f.fingerprint seen f (keep_new (f.fingerprint ∷ seen) fs) fs refl
              (keep_new-IsAccounted fs (f.fingerprint ∷ seen)),
        )
]

keep_new-le : (fs : List RichFinding) (seen : List Text) → length (keep_new seen fs) ≤ length fs
unfolding keep_new
keep_new-le [] seen = omega arith
keep_new-le (f ∷ fs) seen =
    ground (arith, keep_new-le fs seen, keep_new-le fs (f.fingerprint ∷ seen))

fresh_only :
    (kept fs : List RichFinding) → All (IsAccounted [] kept) fs → All (HasPrint (prints kept)) fs
fresh_only kept [] h = tt
fresh_only kept (f ∷ fs) (inl y, h) = absurd (ground (arith, y))
fresh_only kept (f ∷ fs) (inr y, h) = (y, fresh_only kept fs h)

counts-total :
    (fs : List RichFinding)
    → counts_of production fs
        + counts_of test fs
        + counts_of fixture fs
        + counts_of detector_definition fs
      ≡ length fs
unfolding counts_of count_of
counts-total [] = refl
counts-total (f ∷ fs) = ground (arith, counts-total fs)

-- After the deduplication no two findings have the same fingerprint, each finding's fingerprint is
-- still there, the kept findings and the number of removed ones make up all, and the counts that the
-- report gives for the contexts and severities add up to the kept findings.
pub dedup-AreDistinct :
    (fs : List RichFinding)
    → AreDistinct (dedup fs).0
      × All (HasPrint (prints (dedup fs).0)) fs
      × (length (dedup fs).0 + (dedup fs).1 ≡ length fs)
      × (counts_of production (dedup fs).0
            + counts_of test (dedup fs).0
            + counts_of fixture (dedup fs).0
            + counts_of detector_definition (dedup fs).0
          ≡ length (dedup fs).0)
unfolding dedup
dedup-AreDistinct fs = (
  (keep_new-AreDistinct fs []).1,
  fresh_only (keep_new [] fs) fs (keep_new-IsAccounted fs []),
  omega (arith, keep_new-le fs []),
  counts-total (keep_new [] fs),
)
