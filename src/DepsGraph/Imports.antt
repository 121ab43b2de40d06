-- ===== src/DepsGraph/Imports.antt =====
-- src/tools/deps_graph/imports.rs: the classification of an import. The alias that the server's
-- state resolves and `fs::canonicalize` come from outside.
use nexus_intelli_core.Prelude.{
  Bool, ◌||◌, not, List, [], ◌∷◌, Option, none, some, any, find, if◌then◌else◌,
}
use nexus_intelli_core.Prelude.Text.{Text, codes, text_eq, text_starts_with}
use nexus_intelli_core.Aliases.{Component, text_ends_with}
use nexus_intelli_core.Registry.{FilePath, path_eq}
use nexus_intelli_core.DepsGraph.Relative.{
  join_path, parent_of, with_extension, normalise_path, path_text,
}
use nexus_intelli_core.DepsGraph.Reference.{normalise_internal_reference}

pub data ImportKind : Type 0 where
  internal_local internal_restricted external_library unresolved : ImportKind

pub record ImportInfo : Type 0 where
  pub path : Text
  pub kind : ImportKind

-- The text, the kind and the file that an import leads to.
pub record Resolution : Type 0 where
  pub rel : Text
  pub kind : ImportKind
  pub resolved : Option FilePath

-- `resolve_ts_path_alias` and `fs::canonicalize`.
pub record Lookup : Type 0 where
  pub resolve_ts_path_alias : Text → FilePath → Option FilePath
  pub canonicalize : FilePath → Option FilePath

abbrev pub local_file : FilePath → Resolution
local_file f = record { rel = path_text f; kind = internal_local; resolved = some f }

abbrev pub restricted_file : FilePath → Resolution
restricted_file f = record { rel = path_text f; kind = internal_restricted; resolved = some f }

abbrev pub not_found : Text → Resolution
not_found t = record { rel = t; kind = unresolved; resolved = none }

abbrev pub extensions : List Text
extensions =
    [] ∷ codes "rs" ∷ codes "ts" ∷ codes "tsx" ∷ codes "js" ∷ codes "py" ∷ codes "java" ∷ []

-- `trim_end_matches` of a text that is not empty.
unfoldable pub trim_suffix : Text → Text → Text
trim_suffix p [] = []
trim_suffix p (c ∷ s) = let rest = trim_suffix p s in if text_eq (c ∷ rest) p then [] else c ∷ rest

unfoldable pub stem_of : Text → Text
unfolding trim_suffix
stem_of t = trim_suffix (codes ".js") (
    trim_suffix (codes ".ts") (
      trim_suffix (codes ".tsx")
        (trim_suffix (codes ".java") (trim_suffix (codes ".py") (trim_suffix (codes ".rs") t)))))

unfoldable pub matches_reference : Text → FilePath → Bool
unfolding stem_of
matches_reference normalised file =
    let stem = stem_of (path_text file) in
    text_eq stem normalised || text_ends_with stem (b'/' ∷ normalised)

unfoldable pub find_matching_file : Text → List FilePath → Option FilePath
unfolding matches_reference
find_matching_file normalised files = find (matches_reference normalised) files

unfoldable pub is_relative : Text → Bool
is_relative path = text_starts_with path (codes "./") || text_starts_with path (codes "../")

-- The guard of `resolve_ts_alias_import`.
unfoldable pub skips : Text → Text → Bool
unfolding is_relative
skips language path =
    not (any (text_eq language) (codes "javascript" ∷ codes "typescript" ∷ codes "tsx" ∷ []))
    || is_relative path

module _ (allowed_files restricted_files : List FilePath) where
  unfoldable pub classify_project_path : FilePath → Option Resolution
  classify_project_path candidate =
      if any (path_eq candidate) allowed_files
      then some (local_file candidate)
      else if any (path_eq candidate) restricted_files
      then some (restricted_file candidate)
      else none

  unfoldable pub try_extensions : Text → List Component → List Text → Resolution
  unfolding classify_project_path
  try_extensions path candidate [] = not_found path
  try_extensions path candidate (ext ∷ exts) =
      let with_ext = if text_eq ext [] then candidate else with_extension ext candidate in
      let rest = try_extensions path candidate exts in
      elim (classify_project_path (normalise_path with_ext)) [ none ↦ rest | some r ↦ r ]

  unfoldable pub resolve_relative_import_path : Text → FilePath → Resolution
  unfolding try_extensions
  resolve_relative_import_path path from_file =
      try_extensions path (join_path (parent_of from_file) path) extensions

  unfoldable pub resolve_reference : Text → Resolution
  resolve_reference normalised = elim (find_matching_file normalised allowed_files) [
    | some matched ↦ local_file matched
    | none ↦ elim (find_matching_file normalised restricted_files) [
      | some matched ↦ restricted_file matched
      | none ↦ not_found normalised
    ]
  ]

  unfoldable pub resolve_non_relative_import_path : Text → Option Resolution
  unfolding resolve_reference
  resolve_non_relative_import_path path = elim (normalise_internal_reference path) [
    | none ↦ none
    | some normalised ↦ some (resolve_reference normalised)
  ]

  unfoldable pub resolve_alias_target : Lookup → Text → FilePath → Resolution
  unfolding classify_project_path
  resolve_alias_target w path alias_target = elim (classify_project_path alias_target) [
    | some r ↦ r
    | none ↦ elim (w.canonicalize alias_target) [
      | none ↦ not_found path
      | some canon ↦ elim (classify_project_path canon) [ some r ↦ r | none ↦ not_found path ]
    ]
  ]

  unfoldable pub resolve_ts_alias_import :
      Option Lookup → Text → Text → FilePath → Option Resolution
  unfolding resolve_alias_target skips
  resolve_ts_alias_import none language path from_file = none
  resolve_ts_alias_import (some w) language path from_file =
      if skips language path then none else (elim (w.resolve_ts_path_alias path from_file) [
        | none ↦ none
        | some alias_target ↦ some (resolve_alias_target w path alias_target)
      ])

  unfoldable pub resolve_by_path : Text → FilePath → Option Resolution
  unfolding resolve_relative_import_path resolve_non_relative_import_path is_relative
  resolve_by_path path from_file =
      if is_relative path
      then some (resolve_relative_import_path path from_file)
      else resolve_non_relative_import_path path

  unfoldable pub resolve_plain_import : ImportKind → Text → FilePath → Option Resolution
  unfolding resolve_by_path
  resolve_plain_import external_library path from_file =
      some (record { rel = path; kind = external_library; resolved = none })
  resolve_plain_import _ path from_file = resolve_by_path path from_file

  unfoldable pub resolve_import_path :
      ImportInfo → FilePath → Text → Option Lookup → Option Resolution
  unfolding resolve_ts_alias_import resolve_plain_import
  resolve_import_path imp from_file source_language state =
      elim (resolve_ts_alias_import state source_language imp.path from_file) [
        | some r ↦ some r
        | none ↦ resolve_plain_import imp.kind imp.path from_file
      ]
