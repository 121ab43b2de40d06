-- ===== src/Linter/Targets.antt =====
-- src/linter/level2.rs: whether a linter's line is about the file that is checked. Paths are
-- absolute and lists of names; a linter's path is a text.
use nexus_intelli_core.Prelude.{
  Bool, ◌&&◌, ◌||◌, not, List, [], ◌∷◌, ◌++◌, map, Option, none, some, ◌==◌, if◌then◌else◌,
}
use nexus_intelli_core.Prelude.Text.{Text, codes, text_eq, text_starts_with}
use nexus_intelli_core.Aliases.{text_ends_with}
use nexus_intelli_core.Registry.{FilePath}
use nexus_intelli_core.DepsGraph.Relative.{path_text}

unfoldable pub relative_text : List Text → Text
relative_text [] = []
relative_text (p ∷ []) = p
relative_text (p ∷ q ∷ ps) = p ++ b'/' ∷ relative_text (q ∷ ps)

-- `target.strip_prefix(root)`.
unfoldable pub strip_prefix : FilePath → FilePath → Option FilePath
strip_prefix target [] = some target
strip_prefix [] (r ∷ rs) = none
strip_prefix (t ∷ ts) (r ∷ rs) = let rest = strip_prefix ts rs in if text_eq t r then rest else none

-- `normalize_path` of level2.rs.
unfoldable pub forward_slashes : Text → Text
forward_slashes t = map (λ c. if c == b'\\' then b'/' else c) t

unfoldable pub join_text : FilePath → Text → Text
join_text [] candidate = b'/' ∷ candidate
join_text (r ∷ rs) candidate = path_text (r ∷ rs) ++ b'/' ∷ candidate

unfoldable pub target_relative : FilePath → FilePath → Text
unfolding strip_prefix relative_text forward_slashes
target_relative target root = elim (strip_prefix target root) [
  | none ↦ []
  | some rel ↦ forward_slashes (relative_text rel)
]

unfoldable pub candidate_text : Text → FilePath → Text
unfolding forward_slashes join_text
candidate_text candidate root =
    if text_starts_with candidate (codes "/")
    then forward_slashes candidate
    else forward_slashes (join_text root candidate)

unfoldable pub path_matches_target : Text → FilePath → FilePath → Bool
unfolding forward_slashes target_relative candidate_text
path_matches_target candidate target root =
    not (text_eq candidate [])
    && (text_eq (candidate_text candidate root) (forward_slashes (path_text target))
        || (not (text_eq (target_relative target root) [])
            && text_ends_with (candidate_text candidate root) (b'/' ∷ target_relative target root)))
