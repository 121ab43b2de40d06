-- ===== src/Tests/Imports.antt =====
-- An alias with a star, and a relative path.
use nexus_intelli_core.DepsGraph.Reference.{normalise_internal_reference}
use nexus_intelli_core.DepsGraph.Imports.{
  ImportInfo, unresolved, Resolution, local_file, restricted_file, find_matching_file,
  resolve_import_path,
}
use nexus_intelli_core.DepsGraph.Sound.{IsSound, resolve_import_path-IsSound}
use nexus_intelli_core.DepsGraph.Relative.{
  normalise_path, join_path, parent_of, with_extension, path_text,
}
use nexus_intelli_core.Registry.{FilePath, path_eq}
use nexus_intelli_core.Linter.{find_text}
use nexus_intelli_core.Prelude.{List, [], ◌∷◌, ◌++◌, Option, none, some, true, false, ◌≡◌, refl}
use nexus_intelli_core.Prelude.Text.{Text, codes, text_eq, text_starts_with}
use nexus_intelli_core.Transport.Bytes.{trim_end_matches}
use nexus_intelli_core.Aliases.{
  text_ends_with, match_alias_pattern, apply_alias_target, Component, root_dir, parent_dir, cur_dir,
  normal, normalize_relative_path,
}
use nexus_intelli_core.Aliases.Matching.{apply-match_alias_pattern}
use nexus_intelli_core.Aliases.Normal.{normalize_relative_path-resolves}

apply-match_alias_pattern_example :
    apply_alias_target (codes "@app/*.ts") (codes "core/a") ≡ codes "@app/core/a.ts"
unfolding match_alias_pattern text_eq text_starts_with
apply-match_alias_pattern_example =
    apply-match_alias_pattern (codes "@app/*.ts") (codes "@app/core/a.ts") (codes "core/a") refl

abbrev up_and_down : List Component
up_and_down = normal (codes "a") ∷ parent_dir ∷ parent_dir ∷ cur_dir ∷ normal (codes "b") ∷ []

normalize_relative_path-resolves_example :
    (normalize_relative_path (up_and_down ++ (normal (codes "x") ∷ parent_dir ∷ up_and_down))
      ≡ normalize_relative_path (up_and_down ++ up_and_down))
    × (normalize_relative_path (up_and_down ++ (cur_dir ∷ up_and_down))
        ≡ normalize_relative_path (up_and_down ++ up_and_down))
    × (normalize_relative_path (parent_dir ∷ up_and_down) ≡ normalize_relative_path up_and_down)
    × (normalize_relative_path (up_and_down ++ (root_dir ∷ parent_dir ∷ up_and_down))
        ≡ normalize_relative_path (root_dir ∷ up_and_down))
    × (normalize_relative_path (normal (codes "a") ∷ normal (codes "b") ∷ [])
        ≡ record { absolute = false; names = codes "a" ∷ codes "b" ∷ [] })
    × (normalize_relative_path (root_dir ∷ normal (codes "a") ∷ normal (codes "b") ∷ [])
        ≡ record { absolute = true; names = codes "a" ∷ codes "b" ∷ [] })
normalize_relative_path-resolves_example =
    normalize_relative_path-resolves up_and_down up_and_down (codes "x")
      (codes "a" ∷ codes "b" ∷ [])

-- `/w/src/../lib` is `/w/lib`.
below_root :
    normalize_relative_path (
      root_dir ∷ normal (codes "w") ∷ normal (codes "src") ∷ parent_dir ∷ normal (codes "lib") ∷ [])
    ≡ record { absolute = true; names = codes "w" ∷ codes "lib" ∷ [] }
unfolding normalize_relative_path
below_root = refl

abbrev lib_file : FilePath
lib_file = codes "w" ∷ codes "src" ∷ codes "lib.rs" ∷ []

abbrev hero_file : FilePath
hero_file = codes "w" ∷ codes "hero.ts" ∷ []

abbrev import_of : Text → ImportInfo
import_of path = record { path = path; kind = unresolved }

abbrev resolve_here : Text → Option Resolution
resolve_here path =
    resolve_import_path (lib_file ∷ []) (hero_file ∷ []) (import_of path)
      (codes "w" ∷ codes "src" ∷ codes "main.rs" ∷ []) (codes "rust") none

found_lib : resolve_here (codes "crate::lib") ≡ some (local_file lib_file)
unfolding resolve_import_path text_eq text_starts_with path_eq trim_end_matches find_text
    text_ends_with normalise_internal_reference find_matching_file path_text
found_lib = refl

-- The extension that is tried takes the place of what follows the name's last dot.
found_hero : resolve_here (codes "../hero.component") ≡ some (restricted_file hero_file)
unfolding resolve_import_path text_eq text_starts_with path_eq normalise_path join_path parent_of
    with_extension
found_hero = refl

resolve_import_path-IsSound_example :
    (r : Resolution) × ((resolve_here (codes "crate::lib") ≡ some r)
      × IsSound (lib_file ∷ []) (hero_file ∷ []) r)
resolve_import_path-IsSound_example =
    resolve_import_path-IsSound (lib_file ∷ []) (hero_file ∷ []) (import_of (codes "crate::lib"))
      (codes "w" ∷ codes "src" ∷ codes "main.rs" ∷ []) (codes "rust") none
