-- ===== src/Indexer.antt =====
-- src/indexer.rs: which files are allowed and which restricted, and the tree of directories that is
-- shown. The walk of the file system and the compiled globs come from outside.
pub mod Walk
pub mod Stats
use nexus_intelli_core.Prelude.{
  ℕ, suc, ◌+◌, ◌-◌, Bool, true, false, not, ◌&&◌, ◌||◌, List, [], ◌∷◌, ◌++◌, map, length, replicate,
  Option, none, some, retain, ltb, leb, ◌==◌, if◌then◌else◌,
}
use nexus_intelli_core.Prelude.Text.{Text, codes, text_eq, text_starts_with}
use nexus_intelli_core.Prelude.Decimal.{to_dec}
use nexus_intelli_core.Transport.Bytes.{trim}
use nexus_intelli_core.Registry.{FilePath}
use nexus_intelli_core.DepsGraph.Relative.{path_text}
use nexus_intelli_core.Linter.{lines}
use nexus_intelli_core.Linter.Targets.{relative_text, strip_prefix}
use nexus_intelli_core.Linter.Pool.{text_before}
use nexus_intelli_core.Privacy.Config.{join_lines}

-- What the walk yields: an entry that cannot be read or has no type, or a path and whether it is
-- the path of a file.
pub data Entry : Type 0 where
  unreadable : Entry
  entry : (path : FilePath) (is_file : Bool) → Entry

-- A compiled set of globs, on paths relative to the root.
abbrev pub Matcher : Type 0
Matcher = Option (FilePath → Bool)

unfoldable pub is_match : Matcher → FilePath → Bool
is_match none rel = false
is_match (some m) rel = m rel

-- `path.strip_prefix(root).unwrap_or(path)`.
unfoldable pub relative : FilePath → FilePath → FilePath
unfolding strip_prefix
relative root path = elim (strip_prefix path root) [ none ↦ path | some rel ↦ rel ]

-- The Rust build output and VCS metadata.
unfoldable pub is_skipped : FilePath → Bool
unfolding relative_text text_starts_with
is_skipped rel =
    text_starts_with (relative_text rel) (codes "target/")
    || text_starts_with (relative_text rel) (codes ".git/")

-- The allowed files and the restricted ones.
unfoldable pub walk_files : FilePath → Matcher → List Entry → List FilePath × List FilePath
unfolding is_match relative is_skipped
walk_files root m [] = ([], [])
walk_files root m (unreadable ∷ es) = walk_files root m es
walk_files root m (entry path is_file ∷ es) =
    let (allowed, restricted) = walk_files root m es in
    if not is_file || is_skipped (relative root path)
    then (allowed, restricted)
    else if is_match m (relative root path)
    then (allowed, path ∷ restricted)
    else (path ∷ allowed, restricted)

-- The lines of a `.mcpignore`.
unfoldable pub mcpignore_patterns : Text → List Text
unfolding lines trim text_eq text_starts_with
mcpignore_patterns content = map trim (
    retain (λ l. not (text_starts_with l (codes "#")) && not (text_eq (trim l) [])) (lines content))

-- A pattern that is not bound to the root.
unfoldable pub globs_anywhere : Text → List Text
globs_anywhere p =
    p ∷ (codes "**/" ++ p) ∷ (p ++ codes "/**") ∷ (codes "**/" ++ p ++ codes "/**") ∷ []

-- The globs of one pattern.
unfoldable pub globs_of : Text → List Text
unfolding globs_anywhere
globs_of [] = globs_anywhere []
globs_of (c ∷ p) = if c == b'/' then p ∷ (p ++ codes "/**") ∷ [] else globs_anywhere (c ∷ p)

mutual
  pub data TreeNode : Type 0 where
    tree : (files : List (Text × Bool)) → Dirs → TreeNode

  -- A `BTreeMap`, in the order of the names.
  pub data Dirs : Type 0 where
    no_dirs : Dirs
    dir : Text → TreeNode → Dirs → Dirs

abbrev pub empty_tree : TreeNode
empty_tree = tree [] no_dirs

-- `entry(name).or_default()`, and what becomes of the node there.
unfoldable pub at_dir : Text → (TreeNode → TreeNode) → Dirs → Dirs
unfolding text_eq text_before
at_dir name f no_dirs = dir name (f empty_tree) no_dirs
at_dir name f (dir other t ds) =
    let rest = at_dir name f ds in
    if text_eq name other
    then dir other (f t) ds
    else if text_before name other
    then dir name (f empty_tree) (dir other t ds)
    else dir other t rest

unfoldable pub insert_path : FilePath → Bool → TreeNode → TreeNode
unfolding at_dir
insert_path [] restricted t = t
insert_path (name ∷ []) restricted (tree files ds) = tree (files ++ ((name, restricted) ∷ [])) ds
insert_path (name ∷ next ∷ parts) restricted (tree files ds) =
    tree files (at_dir name (insert_path (next ∷ parts) restricted) ds)

pub record TreeStats : Type 0 where
  pub files : ℕ
  pub dirs : ℕ
  pub restricted : ℕ

unfoldable pub count_restricted : List (Text × Bool) → ℕ
count_restricted [] = 0
count_restricted ((name, r) ∷ fs) = (if r then 1 else 0) + count_restricted fs

unfoldable mutual
  unfolding count_restricted

  pub stats : TreeNode → TreeStats
  stats (tree fs ds) =
      let below = stats_below ds in
      record {
        files = length fs + below.files;
        dirs = below.dirs;
        restricted = count_restricted fs + below.restricted;
      }

  -- The directories themselves and what is in them.
  pub stats_below : Dirs → TreeStats
  stats_below no_dirs = record { files = 0; dirs = 0; restricted = 0 }
  stats_below (dir name t ds) =
      let here = stats t in
      let rest = stats_below ds in
      record {
        files = here.files + rest.files;
        dirs = suc (here.dirs + rest.dirs);
        restricted = here.restricted + rest.restricted;
      }

-- `Path::cmp`, component by component.
unfoldable pub path_before : FilePath → FilePath → Bool
unfolding text_before text_eq
path_before p [] = false
path_before [] (y ∷ q) = true
path_before (x ∷ p) (y ∷ q) = text_before x y || (text_eq x y && path_before p q)

unfoldable pub insert_sorted : FilePath × Bool → List (FilePath × Bool) → List (FilePath × Bool)
unfolding path_before
insert_sorted e [] = e ∷ []
insert_sorted (p, r) ((q, s) ∷ es) =
    let rest = insert_sorted (p, r) es in
    if path_before q p then (q, s) ∷ rest else (p, r) ∷ (q, s) ∷ es

unfoldable pub sort_entries : List (FilePath × Bool) → List (FilePath × Bool)
unfolding insert_sorted
sort_entries [] = []
sort_entries (e ∷ es) = insert_sorted e (sort_entries es)

unfoldable pub insert_all : List (FilePath × Bool) → TreeNode → TreeNode
unfolding insert_path
insert_all [] t = t
insert_all ((path, r) ∷ es) t = insert_all es (insert_path path r t)

-- The tree that `render_tree` shows.
unfoldable pub shown_tree : FilePath → List FilePath → List FilePath → TreeNode
unfolding relative sort_entries insert_all
shown_tree root allowed restricted =
    insert_all
      (sort_entries (
        map (λ p. (relative root p, false)) allowed
        ++ map (λ p. (relative root p, true)) restricted))
      empty_tree

unfoldable pub stats_text : TreeStats → Text
stats_text s =
    codes "/ [files: "
    ++ to_dec s.files
    ++ codes ", dirs: "
    ++ to_dec s.dirs
    ++ codes ", restricted: "
    ++ to_dec s.restricted
    ++ codes "]"
