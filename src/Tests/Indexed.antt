-- ===== src/Tests/Indexed.antt =====
-- A small project with a restricted file.
use mathlib.Core.List.{Memᴰ}
use nexus_intelli_core.Prelude.{true, false, List, [], ◌∷◌, some, All, ◌≡◌, ◌⊎◌, arith}
use nexus_intelli_core.Prelude.Text.{codes, text_eq}
use nexus_intelli_core.Registry.{FilePath, path_eq}
use nexus_intelli_core.Linter.Targets.{strip_prefix}
use nexus_intelli_core.Indexer.{
  Entry, unreadable, entry, Matcher, is_skipped, relative, walk_files, stats, shown_tree,
}
use nexus_intelli_core.Indexer.Walk.{IsAllowed, IsBlocked, walk_files-Separates}
use nexus_intelli_core.Indexer.Stats.{stats-shown_tree}

abbrev project_root : FilePath
project_root = codes "w" ∷ []

abbrev secret_file : FilePath
secret_file = codes "w" ∷ codes "src" ∷ codes "key.rs" ∷ []

abbrev open_file : FilePath
open_file = codes "w" ∷ codes "src" ∷ codes "a.rs" ∷ []

abbrev hides_key : Matcher
hides_key = some (path_eq (codes "src" ∷ codes "key.rs" ∷ []))

abbrev walked : List Entry
walked = entry project_root false ∷ entry open_file true ∷ unreadable ∷ entry secret_file true ∷ []

walk_files-Separates_example :
    All (IsAllowed project_root hides_key) (walk_files project_root hides_key walked).0
    × All (IsBlocked project_root hides_key) (walk_files project_root hides_key walked).1
    × ((path : FilePath)
        → Memᴰ (entry path true) walked
        → is_skipped (relative project_root path) ≡ false
        → Memᴰ path (walk_files project_root hides_key walked).0
          ⊎ Memᴰ path (walk_files project_root hides_key walked).1)
walk_files-Separates_example = walk_files-Separates project_root hides_key walked

stats-shown_tree_example :
    ((stats (shown_tree project_root (open_file ∷ []) (secret_file ∷ []))).files ≡ 2)
    × ((stats (shown_tree project_root (open_file ∷ []) (secret_file ∷ []))).restricted ≡ 1)
unfolding relative strip_prefix text_eq
stats-shown_tree_example =
    stats-shown_tree project_root (open_file ∷ []) (secret_file ∷ []) ((λ e. ground (arith, e)), tt)
      ((λ e. ground (arith, e)), tt)
