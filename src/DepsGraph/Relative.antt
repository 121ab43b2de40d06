-- ===== src/DepsGraph/Relative.antt =====
-- src/tools/deps_graph/imports.rs: paths. A path of the project is absolute and is the list of its
-- names; an import's path is a text, or its components.
use nexus_intelli_core.Prelude.{
  ◌||◌, List, [], ◌∷◌, ◌++◌, map, Option, none, some, ◌==◌, if◌then◌else◌,
}
use nexus_intelli_core.Prelude.Text.{Text, codes, text_eq}
use nexus_intelli_core.Aliases.{Component, root_dir, parent_dir, cur_dir, normal, pop}
use nexus_intelli_core.Registry.{FilePath}

-- The pieces between slashes.
unfoldable pub split_slash : Text → List Text
split_slash [] = [] ∷ []
split_slash (c ∷ s) =
    let rest = split_slash s in
    if c == b'/' then [] ∷ rest else (elim rest [ [] ↦ (c ∷ []) ∷ [] | p ∷ ps ↦ (c ∷ p) ∷ ps ])

-- `Path::components` of a relative path, without its dots.
unfoldable pub piece_components : List Text → List Component
piece_components [] = []
piece_components (p ∷ ps) =
    let rest = piece_components ps in
    if text_eq p [] || text_eq p (codes ".")
    then rest
    else if text_eq p (codes "..")
    then parent_dir ∷ rest
    else normal p ∷ rest

-- `base.join(path)` for a relative path.
unfoldable pub join_path : FilePath → Text → List Component
unfolding split_slash piece_components
join_path base path = map normal base ++ piece_components (split_slash path)

unfoldable pub parent_of : FilePath → FilePath
unfolding pop
parent_of path = pop path

-- The name up to its last dot, or all of it when no dot comes after the first byte.
unfoldable pub before_last_dot : Text → Option Text
before_last_dot [] = none
before_last_dot (c ∷ s) = elim (before_last_dot s) [
  | some l ↦ some (c ∷ l)
  | none ↦ if c == b'.' then some [] else none
]

unfoldable pub file_stem : Text → Text
unfolding before_last_dot
file_stem name = elim (before_last_dot name) [ none ↦ name | some [] ↦ name | some (c ∷ l) ↦ c ∷ l ]

unfoldable pub with_extension : Text → List Component → List Component
unfolding file_stem
with_extension ext [] = []
with_extension ext (normal name ∷ []) = normal (file_stem name ++ b'.' ∷ ext) ∷ []
with_extension ext (parent_dir ∷ []) = parent_dir ∷ []
with_extension ext (cur_dir ∷ []) = cur_dir ∷ []
with_extension ext (root_dir ∷ []) = root_dir ∷ []
with_extension ext (c ∷ d ∷ ds) = c ∷ with_extension ext (d ∷ ds)

unfoldable pub normalise_from : FilePath → List Component → FilePath
unfolding pop
normalise_from acc [] = acc
normalise_from acc (parent_dir ∷ cs) = normalise_from (pop acc) cs
normalise_from acc (cur_dir ∷ cs) = normalise_from acc cs
normalise_from acc (root_dir ∷ cs) = normalise_from [] cs
normalise_from acc (normal t ∷ cs) = normalise_from (acc ++ (t ∷ [])) cs

-- `normalise_path`; the root is never taken away.
unfoldable pub normalise_path : List Component → FilePath
unfolding normalise_from
normalise_path path = normalise_from [] path

unfoldable pub path_text : FilePath → Text
path_text [] = codes "/"
path_text (p ∷ []) = b'/' ∷ p
path_text (p ∷ q ∷ ps) = b'/' ∷ (p ++ path_text (q ∷ ps))
