-- ===== src/Indexer/Stats.antt =====
-- The numbers that src/indexer.rs shows with the tree of directories.
use nexus_intelli_core.Prelude.{
  ℕ, suc, ◌+◌, Bool, true, false, List, [], ◌∷◌, ◌++◌, map, length, length-append, ◌≡◌, ◌≢◌, refl,
  ap, All, All-append, inl, inr, arith, Bool-cases, if◌then◌else◌,
}
use nexus_intelli_core.Prelude.Text.{Text, text_eq}
use nexus_intelli_core.Registry.{FilePath}
use nexus_intelli_core.Linter.Pool.{text_before}
use nexus_intelli_core.Indexer.{
  TreeNode, tree, Dirs, no_dirs, dir, empty_tree, at_dir, insert_path, TreeStats, count_restricted,
  stats, stats_below, path_before, insert_sorted, sort_entries, insert_all, shown_tree, relative,
}

abbrev as_one : Bool → ℕ
as_one r = if r then 1 else 0

-- One more file, and one more restricted file when it is restricted.
record Adds (r : Bool) (before after : TreeStats) : Type 0 where
  pub file : after.files ≡ suc before.files
  pub blocked : after.restricted ≡ as_one r + before.restricted

count_restricted-append :
    (xs ys : List (Text × Bool))
    → count_restricted (xs ++ ys) ≡ count_restricted xs + count_restricted ys
unfolding count_restricted
count_restricted-append [] ys = omega arith
count_restricted-append ((n, r) ∷ xs) ys = omega (arith, count_restricted-append xs ys)

pick :
    (r : Bool) (before : TreeStats) (b : Bool) (x y : Dirs)
    → Adds r before (stats_below x)
    → Adds r before (stats_below y)
    → Adds r before (stats_below (if b then x else y))
pick r before true x y h k = h
pick r before false x y h k = k

at_dir-Adds :
    (r : Bool) (name : Text) (f : TreeNode → TreeNode) (ds : Dirs)
    → ((t : TreeNode) → Adds r (stats t) (stats (f t)))
    → Adds r (stats_below ds) (stats_below (at_dir name f ds))
unfolding at_dir stats stats_below
at_dir-Adds r name f no_dirs h =
    let a = h empty_tree in
    record { file = omega (arith, a.file); blocked = omega (arith, a.blocked) }
at_dir-Adds r name f (dir other t ds) h =
    let a = h t in
    let e = h empty_tree in
    let b = at_dir-Adds r name f ds h in
    pick r _ (text_eq name other) _ _
      (record { file = omega (arith, a.file); blocked = omega (arith, a.blocked) })
      (pick r _ (text_before name other) _ _
        (record { file = omega (arith, e.file); blocked = omega (arith, e.blocked) })
        (record { file = omega (arith, b.file); blocked = omega (arith, b.blocked) }))

insert_path-Adds :
    (path : FilePath) (r : Bool) (t : TreeNode)
    → path ≢ []
    → Adds r (stats t) (stats (insert_path path r t))
unfolding insert_path stats stats_below count_restricted
insert_path-Adds [] r t n = absurd (n refl)
insert_path-Adds (name ∷ []) r (tree fs ds) n = record {
  file = omega (arith, length-append fs ((name, r) ∷ []));
  blocked = ground (arith, count_restricted-append fs ((name, r) ∷ []));
}
insert_path-Adds (name ∷ next ∷ parts) r (tree fs ds) n =
    let a =
      at_dir-Adds r name (insert_path (next ∷ parts) r) ds
        (λ t. insert_path-Adds (next ∷ parts) r t (λ e. ground (arith, e))) in
    record { file = omega (arith, a.file); blocked = omega (arith, a.blocked) }

-- The restricted ones of the entries.
unfoldable pub restricted_entries : List (FilePath × Bool) → ℕ
restricted_entries [] = 0
restricted_entries ((p, r) ∷ es) = as_one r + restricted_entries es

abbrev pub HasName : FilePath × Bool → Type 0
HasName e = e.0 ≢ []

insert_all-stats :
    (es : List (FilePath × Bool)) (t : TreeNode)
    → All HasName es
    → ((stats (insert_all es t)).files ≡ length es + (stats t).files)
      × ((stats (insert_all es t)).restricted ≡ restricted_entries es + (stats t).restricted)
unfolding insert_all restricted_entries
insert_all-stats [] t h = (omega arith, omega arith)
insert_all-stats ((p, r) ∷ es) t (n, h) =
    let a = insert_path-Adds p r t n in
    let (f, b) = insert_all-stats es (insert_path p r t) h in
    (omega (arith, f, a.file), omega (arith, b, a.blocked))

-- Sorting keeps the numbers and the names.
record SameEntries (es fs : List (FilePath × Bool)) : Type 0 where
  pub size : length es ≡ length fs
  pub blocked : restricted_entries es ≡ restricted_entries fs
  pub named : All HasName fs → All HasName es

insert_sorted-Same :
    (e : FilePath × Bool) (es : List (FilePath × Bool)) → SameEntries (insert_sorted e es) (e ∷ es)
unfolding insert_sorted restricted_entries
insert_sorted-Same e [] = record { size = refl; blocked = refl; named = λ h. h }
insert_sorted-Same (p, r) ((q, s) ∷ es) =
    let h = insert_sorted-Same (p, r) es in
    elim (Bool-cases (path_before q p)) [
      | inl y ↦
          rw (y, insert_sorted)
            (record {
              size = omega (arith, h.size);
              blocked = omega (arith, h.blocked);
              named = λ k. (k.1.0, h.named (k.0, k.1.1));
            })
      | inr n ↦ rw (n, insert_sorted) (record { size = refl; blocked = refl; named = λ k. k })
    ]

sort_entries-Same : (es : List (FilePath × Bool)) → SameEntries (sort_entries es) es
unfolding sort_entries restricted_entries
sort_entries-Same [] = record { size = refl; blocked = refl; named = λ h. h }
sort_entries-Same ((p, r) ∷ es) =
    let h = sort_entries-Same es in
    let k = insert_sorted-Same (p, r) (sort_entries es) in
    record {
      size = omega (arith, h.size, k.size);
      blocked = omega (arith, h.blocked, k.blocked);
      named = λ n. k.named (n.0, h.named n.1);
    }

abbrev listed : FilePath → Bool → List FilePath → List (FilePath × Bool)
listed root r ps = map (λ p. (relative root p, r)) ps

length-listed :
    (root : FilePath) (r : Bool) (ps : List FilePath) → length (listed root r ps) ≡ length ps
length-listed root r [] = refl
length-listed root r (p ∷ ps) = ap suc (length-listed root r ps)

restricted-listed :
    (root : FilePath) (r : Bool) (ps : List FilePath)
    → restricted_entries (listed root r ps) ≡ (if r then length ps else 0)
unfolding restricted_entries
restricted-listed root true [] = refl
restricted-listed root false [] = refl
restricted-listed root true (p ∷ ps) = omega (arith, restricted-listed root true ps)
restricted-listed root false (p ∷ ps) = omega (arith, restricted-listed root false ps)

restricted-append :
    (es fs : List (FilePath × Bool))
    → restricted_entries (es ++ fs) ≡ restricted_entries es + restricted_entries fs
unfolding restricted_entries
restricted-append [] fs = omega arith
restricted-append ((p, r) ∷ es) fs = omega (arith, restricted-append es fs)

-- A path below the root.
abbrev pub IsBelow : FilePath → FilePath → Type 0
IsBelow root p = relative root p ≢ []

named-listed :
    (root : FilePath) (r : Bool) (ps : List FilePath)
    → All (IsBelow root) ps
    → All HasName (listed root r ps)
named-listed root r [] h = tt
named-listed root r (p ∷ ps) (n, h) = (n, named-listed root r ps h)

-- For files below the root, the numbers of files and of restricted files that the shown tree carries
-- are those of all files given, and of the restricted ones.
pub stats-shown_tree :
    (root : FilePath) (allowed restricted : List FilePath)
    → All (IsBelow root) allowed
    → All (IsBelow root) restricted
    → ((stats (shown_tree root allowed restricted)).files ≡ length allowed + length restricted)
      × ((stats (shown_tree root allowed restricted)).restricted ≡ length restricted)
unfolding shown_tree stats stats_below count_restricted
stats-shown_tree root allowed restricted ha hr =
    let open_ones = listed root false allowed in
    let shut = listed root true restricted in
    let same = sort_entries-Same (open_ones ++ shut) in
    let names = same.named (
      All-append HasName open_ones shut (named-listed root false allowed ha)
        (named-listed root true restricted hr)) in
    let (f, b) = insert_all-stats (sort_entries (open_ones ++ shut)) empty_tree names in
    (
      omega (
        arith,
        f,
        same.size,
        length-append open_ones shut,
        length-listed root false allowed,
        length-listed root true restricted,
      ),
      omega (
        arith,
        b,
        same.blocked,
        restricted-append open_ones shut,
        restricted-listed root false allowed,
        restricted-listed root true restricted,
      ),
    )
