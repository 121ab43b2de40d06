-- ===== src/DepsGraph/Reference.antt =====
-- src/tools/deps_graph/imports.rs: `normalise_internal_reference`.
use nexus_intelli_core.Prelude.{
  ℕ, zero, suc, ◌<◌, ◌≤◌, Bool, true, false, not, ◌&&◌, [], ◌∷◌, length, drop, Option, none, some,
  any, ◌==◌, ◌≡◌, refl, arith, inl, inr, Bool-cases, if◌then◌else◌,
}
use nexus_intelli_core.Prelude.Text.{Text, codes, text_starts_with}
use nexus_intelli_core.Transport.Bytes.{trim_end_matches}
use nexus_intelli_core.Linter.{find_text}
use nexus_intelli_core.Json.Access.{is_some}

-- `replace("::", "/")`; the flag tells that a colon was just read and not yet written.
unfoldable pub replace_colons : Bool → Text → Text
replace_colons false [] = []
replace_colons true [] = b':' ∷ []
replace_colons false (c ∷ s) =
    let held = replace_colons true s in
    let plain = replace_colons false s in if c == b':' then held else c ∷ plain
replace_colons true (c ∷ s) =
    let plain = replace_colons false s in if c == b':' then b'/' ∷ plain else b':' ∷ c ∷ plain

unfoldable pub replace_dots : Text → Text
replace_dots [] = []
replace_dots (c ∷ s) = (if c == b'.' then b'/' else c) ∷ replace_dots s

unfoldable pub trim_start_matches : ℕ → Text → Text
trim_start_matches b [] = []
trim_start_matches b (c ∷ s) = let rest = trim_start_matches b s in if c == b then rest else c ∷ s

abbrev super_slash : Text
super_slash = codes "super/"

-- The loop; each round takes six bytes away.
unfoldable pub strip_super : ℕ → Text → Option Text
unfolding text_starts_with
strip_super zero normalised = none
strip_super (suc fuel) normalised =
    let rest = strip_super fuel (drop 6 normalised) in
    if text_starts_with normalised super_slash then rest else some normalised

unfoldable pub with_slashes : Text → Text
unfolding replace_colons replace_dots find_text
with_slashes path =
    if is_some (find_text (codes "::") path)
    then replace_colons false path
    else if any (λ c. c == b'.') path && not (any (λ c. c == b'/') path)
    then replace_dots path
    else path

unfoldable pub strip_crate : Text → Text
unfolding text_starts_with
strip_crate normalised =
    if text_starts_with normalised (codes "crate/")
    then drop 6 normalised
    else if text_starts_with normalised (codes "self/")
    then drop 5 normalised
    else normalised

unfoldable pub reference_base : Text → Text
unfolding with_slashes strip_crate trim_start_matches trim_end_matches
reference_base path =
    strip_crate (trim_end_matches b'/' (trim_start_matches b'/' (with_slashes path)))

unfoldable pub normalise_internal_reference : Text → Option Text
unfolding reference_base strip_super
normalise_internal_reference path =
    let base = reference_base path in strip_super (suc (length base)) base

drop_shrinks : (n : ℕ) (s : Text) → length (drop n s) ≤ length s
drop_shrinks zero s = omega arith
drop_shrinks (suc n) [] = omega arith
drop_shrinks (suc n) (c ∷ s) = omega (arith, drop_shrinks n s)

shorter : (t : Text) → text_starts_with t super_slash ≡ true → length (drop 6 t) < length t
unfolding text_starts_with
shorter [] h = absurd (ground (arith, h))
shorter (c ∷ s) h = omega (arith, drop_shrinks 5 s)

strip_super-total :
    (fuel : ℕ) (t : Text)
    → length t < fuel
    → (r : Text) × ((strip_super fuel t ≡ some r) × (text_starts_with r super_slash ≡ false))
unfolding strip_super
strip_super-total zero t h = absurd (omega arith)
strip_super-total (suc fuel) t h = elim (Bool-cases (text_starts_with t super_slash)) [
  | inl e ↦
      let (r, (k, l)) = strip_super-total fuel (drop 6 t) (omega (arith, shorter t e, h)) in
      (r, (rw e k, l))
  | inr e ↦ (t, (rw e refl, e))
]

-- The loop that takes `super/` away ends with the fuel given, and then none is left in front.
pub normalise_internal_reference-Ends :
    (path : Text)
    → (r : Text) × ((normalise_internal_reference path ≡ some r)
        × (text_starts_with r (codes "super/") ≡ false))
unfolding normalise_internal_reference
normalise_internal_reference-Ends path =
    strip_super-total (suc (length (reference_base path))) (reference_base path) (omega arith)
