-- ===== src/Aliases/Normal.antt =====
-- What the normalization of a path in src/state/resolver.rs does with `.` and `..`.
use nexus_intelli_core.Prelude.{
  true, false, List, [], ◌∷◌, ◌++◌, map, append_assoc, append-nil, ◌≡◌, refl, sym, ap, ◌∙◌,
}
use nexus_intelli_core.Prelude.Text.{Text}
use nexus_intelli_core.Aliases.{
  Component, root_dir, parent_dir, cur_dir, normal, pop, NormalPath, empty_path, normalize_from,
  normalize_relative_path,
}

pop-append : (ts : List Text) (t : Text) → pop (ts ++ (t ∷ [])) ≡ ts
unfolding pop
pop-append [] t = refl
pop-append (x ∷ []) t = refl
pop-append (x ∷ y ∷ ts) t = ap (◌∷◌ x) (pop-append (y ∷ ts) t)

normalize_from-append :
    (acc : NormalPath) (p q : List Component)
    → normalize_from acc (p ++ q) ≡ normalize_from (normalize_from acc p) q
unfolding normalize_from
normalize_from-append acc [] q = refl
normalize_from-append acc (root_dir ∷ p) q =
    normalize_from-append (record { absolute = true; names = [] }) p q
normalize_from-append acc (parent_dir ∷ p) q =
    normalize_from-append (record acc { names = pop acc.names }) p q
normalize_from-append acc (cur_dir ∷ p) q = normalize_from-append acc p q
normalize_from-append acc (normal t ∷ p) q =
    normalize_from-append (record acc { names = acc.names ++ (t ∷ []) }) p q

normalize_from-names :
    (acc : NormalPath) (ts : List Text)
    → normalize_from acc (map normal ts) ≡ record acc { names = acc.names ++ ts }
unfolding normalize_from
normalize_from-names acc [] = ap (λ ns. record acc { names = ns }) (sym (append-nil acc.names))
normalize_from-names acc (t ∷ ts) =
    normalize_from-names (record acc { names = acc.names ++ (t ∷ []) }) ts
    ∙ ap (λ ns. record acc { names = ns }) (append_assoc acc.names (t ∷ []) ts)

-- Two middles that do the same to every path read so far can stand for each other.
same_middle :
    (p m n q : List Component)
    → ((acc : NormalPath) → normalize_from acc (m ++ q) ≡ normalize_from acc (n ++ q))
    → normalize_relative_path (p ++ (m ++ q)) ≡ normalize_relative_path (p ++ (n ++ q))
unfolding normalize_relative_path
same_middle p m n q h =
    normalize_from-append empty_path p (m ++ q)
    ∙ h (normalize_from empty_path p)
    ∙ sym (normalize_from-append empty_path p (n ++ q))

-- A name with `..` behind it can be left out anywhere in a path, and so can `.`; `..` is dropped at
-- the start of a path and directly below the root; and names alone, below the root or not, stay as
-- they are.
pub normalize_relative_path-resolves :
    (p q : List Component) (t : Text) (ts : List Text)
    → (normalize_relative_path (p ++ (normal t ∷ parent_dir ∷ q))
        ≡ normalize_relative_path (p ++ q))
      × (normalize_relative_path (p ++ (cur_dir ∷ q)) ≡ normalize_relative_path (p ++ q))
      × (normalize_relative_path (parent_dir ∷ q) ≡ normalize_relative_path q)
      × (normalize_relative_path (p ++ (root_dir ∷ parent_dir ∷ q))
          ≡ normalize_relative_path (root_dir ∷ q))
      × (normalize_relative_path (map normal ts) ≡ record { absolute = false; names = ts })
      × (normalize_relative_path (root_dir ∷ map normal ts)
          ≡ record { absolute = true; names = ts })
unfolding normalize_relative_path normalize_from pop
normalize_relative_path-resolves p q t ts = (
  same_middle p (normal t ∷ parent_dir ∷ []) [] q
      (λ acc. ap (λ ns. normalize_from (record acc { names = ns }) q) (pop-append acc.names t)),
  same_middle p (cur_dir ∷ []) [] q (λ acc. refl),
  refl,
  normalize_from-append empty_path p (root_dir ∷ parent_dir ∷ q),
  normalize_from-names empty_path ts,
  normalize_from-names (record { absolute = true; names = [] }) ts,
)
