-- ===== src/Aliases.antt =====
-- The TypeScript path aliases of src/state/resolver.rs: `match_alias_pattern`, `apply_alias_target`
-- and `normalize_relative_path`.
pub mod Matching
pub mod Normal
use nexus_intelli_core.Prelude.{
  ℕ, zero, suc, ◌+◌, ◌-◌, Bool, true, false, ◌&&◌, List, [], ◌∷◌, ◌++◌, Option, none, some, length,
  take, drop, leb, if◌then◌else◌,
}
use nexus_intelli_core.Prelude.Text.{Text, codes, text_eq, text_starts_with}
use nexus_intelli_core.Transport.Bytes.{split_once}

-- `str::ends_with`, the suffix last.
unfoldable pub text_ends_with : Text → Text → Bool
text_ends_with t s = leb (length s) (length t) && text_eq (drop (length t - length s) t) s

-- The three tests of a path against the parts of a pattern with a star.
unfoldable pub has_parts : Text → Text → Text → Bool
unfolding text_ends_with
has_parts prefix suffix path =
    text_starts_with path prefix
    && (text_ends_with path suffix && leb (length prefix + length suffix) (length path))

-- What stands between the two parts.
abbrev pub between : Text → Text → Text → Text
between prefix suffix path =
    take (length path - length suffix - length prefix) (drop (length prefix) path)

unfoldable pub match_alias_pattern : Text → Text → Option Text
unfolding split_once has_parts
match_alias_pattern pattern_text import_path = elim (split_once b'*' pattern_text) [
  | some (prefix, suffix) ↦
      if has_parts prefix suffix import_path then some (between prefix suffix import_path) else none
  | none ↦ if text_eq pattern_text import_path then some [] else none
]

-- `replacen` of the first star.
unfoldable pub apply_alias_target : Text → Text → Text
unfolding split_once
apply_alias_target target wildcard = elim (split_once b'*' target) [
  | none ↦ target
  | some (before, after) ↦ before ++ (wildcard ++ after)
]

-- The components of a path; a prefix of a drive occurs on Windows only.
pub data Component : Type 0 where
  root_dir parent_dir cur_dir : Component
  normal : Text → Component

unfoldable pub pop : List Text → List Text
pop [] = []
pop (x ∷ []) = []
pop (x ∷ y ∷ ys) = x ∷ pop (y ∷ ys)

-- A path without `.` and `..`: whether it starts at the root, and its names.
pub record NormalPath : Type 0 where
  pub absolute : Bool
  pub names : List Text

-- Pushing the root replaces the path, and popping does not remove the root.
unfoldable pub normalize_from : NormalPath → List Component → NormalPath
unfolding pop
normalize_from acc [] = acc
normalize_from acc (root_dir ∷ cs) = normalize_from (record { absolute = true; names = [] }) cs
normalize_from acc (parent_dir ∷ cs) = normalize_from (record acc { names = pop acc.names }) cs
normalize_from acc (cur_dir ∷ cs) = normalize_from acc cs
normalize_from acc (normal t ∷ cs) =
    normalize_from (record acc { names = acc.names ++ (t ∷ []) }) cs

abbrev pub empty_path : NormalPath
empty_path = record { absolute = false; names = [] }

unfoldable pub normalize_relative_path : List Component → NormalPath
unfolding normalize_from
normalize_relative_path path = normalize_from empty_path path
