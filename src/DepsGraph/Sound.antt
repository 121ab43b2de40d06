-- ===== src/DepsGraph/Sound.antt =====
-- What src/tools/deps_graph/imports.rs promises of an import's kind.
use mathlib.Core.List.{Memᴰ}
use nexus_intelli_core.Prelude.{
  Bool, true, false, List, [], ◌∷◌, Option, none, some, any, find, any_iff, ◌≡◌, ◌≢◌, refl, sym,
  ◌∙◌, ap, if◌then◌else◌, inl, inr, arith, Bool-cases, Option-cases,
}
use nexus_intelli_core.Prelude.Text.{Text, text_eq}
use mathlib.Core.Option.{some-injective}
use mathlib.Core.Path.{subst}
use nexus_intelli_core.Aliases.{Component}
use nexus_intelli_core.Registry.{FilePath, path_eq}
use nexus_intelli_core.Registry.Keys.{path_eq→eq, path_eq_refl}
use nexus_intelli_core.DepsGraph.Relative.{
  join_path, parent_of, path_text, normalise_path, with_extension,
}
use nexus_intelli_core.DepsGraph.Reference.{normalise_internal_reference-Ends}
use nexus_intelli_core.DepsGraph.Imports.{
  ImportKind, internal_local, internal_restricted, external_library, unresolved, Resolution,
  ImportInfo, Lookup, classify_project_path, not_found, try_extensions, resolve_reference,
  matches_reference, resolve_alias_target, resolve_ts_alias_import, skips, is_relative, extensions,
  resolve_by_path, resolve_plain_import, resolve_relative_import_path,
  resolve_non_relative_import_path, find_matching_file, resolve_import_path,
}

-- A local import leads to an allowed file, a restricted one to a restricted file that is not
-- allowed, and any other to no file.
pub data IsSound (allowed restricted : List FilePath) : Resolution → Type 0 where
  to_allowed :
      (f : FilePath)
      → Memᴰ f allowed
      → IsSound allowed restricted
          (record { rel = path_text f; kind = internal_local; resolved = some f })
  to_restricted :
      (f : FilePath)
      → Memᴰ f restricted
      → ¬ Memᴰ f allowed
      → IsSound allowed restricted
          (record { rel = path_text f; kind = internal_restricted; resolved = some f })
  to_none :
      (t : Text) (k : ImportKind)
      → k ≢ internal_local
      → k ≢ internal_restricted
      → IsSound allowed restricted (record { rel = t; kind = k; resolved = none })

true_not_false : (b : Bool) → b ≡ true → ¬ (b ≡ false)
true_not_false b h k = cc

listed : (f : FilePath) (fs : List FilePath) → any (path_eq f) fs ≡ true → Memᴰ f fs
listed f fs h =
    let (g, (m, e)) = (any_iff (path_eq f) fs).0 h in
    subst (λ x. Memᴰ x fs) (sym (path_eq→eq f g e)) m

unlisted :
    (p : FilePath → Bool) (f : FilePath) (fs : List FilePath)
    → p f ≡ true
    → any p fs ≡ false
    → ¬ Memᴰ f fs
unlisted p f fs e h m = true_not_false _ ((any_iff p fs).1 (f, (m, e))) h

find-mem :
    (p : FilePath → Bool) (fs : List FilePath) (f : FilePath)
    → find p fs ≡ some f
    → Memᴰ f fs × (p f ≡ true)
find-mem p [] f h = absurd (ground (arith, h))
find-mem p (g ∷ fs) f h = elim (Bool-cases (p g)) [
  | inl e ↦
      let k : g ≡ f = some-injective g f (sym (rw (e, find) refl) ∙ h) in
      (Memᴰ.head (sym k), ap p (sym k) ∙ e)
  | inr e ↦ let (m, k) = find-mem p fs f (sym (rw (e, find) refl) ∙ h) in (Memᴰ.tail m, k)
]

find-none : (p : FilePath → Bool) (fs : List FilePath) → find p fs ≡ none → any p fs ≡ false
find-none p [] h = refl
find-none p (g ∷ fs) h = elim (Bool-cases (p g)) [
  | inl e ↦ absurd (ground (arith, h, e))
  | inr e ↦ rw e (find-none p fs (sym (rw (e, find) refl) ∙ h))
]

module _ (allowed restricted : List FilePath) where
  -- No resolution, or one that is sound.
  abbrev Each : Option Resolution → Type 0
  Each none = Unit
  Each (some r) = IsSound allowed restricted r

  classify-Each : (f : FilePath) → Each (classify_project_path allowed restricted f)
  unfolding classify_project_path
  classify-Each f = elim (Bool-cases (any (path_eq f) allowed)) [
    | inl h ↦ rw h (to_allowed f (listed f allowed h))
    | inr h ↦ rw h (elim (Bool-cases (any (path_eq f) restricted)) [
      | inl k ↦ rw k (
          to_restricted f (listed f restricted k)
            (unlisted (path_eq f) f allowed (path_eq_refl f) h))
      | inr k ↦ rw k tt
    ])
  ]

  not_found-IsSound : (t : Text) → IsSound allowed restricted (not_found t)
  not_found-IsSound t = to_none t unresolved (λ e. ground (arith, e)) (λ e. ground (arith, e))

  pick :
      (o : Option Resolution) (d : Resolution)
      → Each o
      → IsSound allowed restricted d
      → IsSound allowed restricted (elim o [ none ↦ d | some r ↦ r ])
  pick none d h k = k
  pick (some r) d h k = h

  try_extensions-IsSound :
      (path : Text) (c : List Component) (exts : List Text)
      → IsSound allowed restricted (try_extensions allowed restricted path c exts)
  unfolding try_extensions
  try_extensions-IsSound path c [] = not_found-IsSound path
  try_extensions-IsSound path c (ext ∷ exts) =
      pick _ _ (classify-Each (normalise_path (if text_eq ext [] then c else with_extension ext c)))
        (try_extensions-IsSound path c exts)

  resolve_reference-IsSound :
      (t : Text) → IsSound allowed restricted (resolve_reference allowed restricted t)
  unfolding resolve_reference find_matching_file
  resolve_reference-IsSound t = elim (Option-cases (find (matches_reference t) allowed)) [
    | inr (f, e) ↦
        rw (e, resolve_reference) (to_allowed f (find-mem (matches_reference t) allowed f e).0)
    | inl e ↦
        rw (e, resolve_reference)
          (elim (Option-cases (find (matches_reference t) restricted)) [
            | inr (f, k) ↦
                let (m, y) = find-mem (matches_reference t) restricted f k in
                rw k (
                  to_restricted f m (
                    unlisted (matches_reference t) f allowed y
                      (find-none (matches_reference t) allowed e)))
            | inl k ↦ rw k (not_found-IsSound t)
          ])
  ]

  canonical :
      (w : Lookup) (path : Text) (o : Option FilePath)
      → IsSound allowed restricted (elim o [
        | none ↦ not_found path
        | some canon ↦ elim (classify_project_path allowed restricted canon) [
          | some r ↦ r
          | none ↦ not_found path
        ]
      ])
  canonical w path none = not_found-IsSound path
  canonical w path (some canon) = pick _ _ (classify-Each canon) (not_found-IsSound path)

  alias_target-IsSound :
      (w : Lookup) (path : Text) (f : FilePath)
      → IsSound allowed restricted (resolve_alias_target allowed restricted w path f)
  unfolding resolve_alias_target
  alias_target-IsSound w path f = pick _ _ (classify-Each f) (canonical w path (w.canonicalize f))

  aimed :
      (w : Lookup) (path : Text) (o : Option FilePath)
      → Each (elim o [
        | none ↦ none
        | some f ↦ some (resolve_alias_target allowed restricted w path f)
      ])
  aimed w path none = tt
  aimed w path (some f) = alias_target-IsSound w path f

  alias_import-Each :
      (state : Option Lookup) (language path : Text) (from : FilePath)
      → Each (resolve_ts_alias_import allowed restricted state language path from)
  unfolding resolve_ts_alias_import
  alias_import-Each none language path from = tt
  alias_import-Each (some w) language path from = elim (Bool-cases (skips language path)) [
    | inl h ↦ rw (h, resolve_ts_alias_import) tt
    | inr h ↦ rw (h, resolve_ts_alias_import) (aimed w path (w.resolve_ts_path_alias path from))
  ]

  -- A resolution that is there and is sound.
  abbrev Found : Option Resolution → Type 0
  Found o = (r : Resolution) × ((o ≡ some r) × IsSound allowed restricted r)

  relative-IsSound :
      (path : Text) (from : FilePath)
      → IsSound allowed restricted (resolve_relative_import_path allowed restricted path from)
  unfolding resolve_relative_import_path
  relative-IsSound path from =
      try_extensions-IsSound path (join_path (parent_of from) path) extensions

  non_relative-Found :
      (path : Text) → Found (resolve_non_relative_import_path allowed restricted path)
  unfolding resolve_non_relative_import_path
  non_relative-Found path =
      let (t, (e, _)) = normalise_internal_reference-Ends path in
      rw (e, resolve_non_relative_import_path) (_, (refl, resolve_reference-IsSound t))

  by_path-Found :
      (path : Text) (from : FilePath) → Found (resolve_by_path allowed restricted path from)
  unfolding resolve_by_path resolve_relative_import_path
  by_path-Found path from = elim (Bool-cases (is_relative path)) [
    | inl h ↦ rw (h, resolve_by_path) (_, (refl, relative-IsSound path from))
    | inr h ↦ rw (h, resolve_by_path) (non_relative-Found path)
  ]

  plain-Found :
      (kind : ImportKind) (path : Text) (from : FilePath)
      → Found (resolve_plain_import allowed restricted kind path from)
  unfolding resolve_plain_import
  plain-Found external_library path from =
      (_, (refl, to_none path external_library (λ e. ground (arith, e)) (λ e. ground (arith, e))))
  plain-Found internal_local path from = by_path-Found path from
  plain-Found internal_restricted path from = by_path-Found path from
  plain-Found unresolved path from = by_path-Found path from

  first :
      (o d : Option Resolution) → Each o → Found d → Found (elim o [ some r ↦ some r | none ↦ d ])
  first none d h k = k
  first (some r) d h k = (r, (refl, h))

  -- Every import gets a resolution, and its kind is sound: a local one names an allowed file, a
  -- restricted one a restricted file that is not allowed, and the others no file.
  pub resolve_import_path-IsSound :
      (imp : ImportInfo) (from_file : FilePath) (source_language : Text) (state : Option Lookup)
      → (r : Resolution) × ((resolve_import_path allowed restricted imp from_file source_language
              state
            ≡ some r)
          × IsSound allowed restricted r)
  unfolding resolve_import_path
  resolve_import_path-IsSound imp from language state =
      first _ _ (alias_import-Each state language imp.path from)
        (plain-Found imp.kind imp.path from)
