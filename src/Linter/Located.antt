-- ===== src/Linter/Located.antt =====
-- What the readers of JSON in src/linter/level2.rs give: the bounds of a diagnostic's place.
use Prim.Native.String.{String}
use mathlib.Core.Path.{subst}
use nexus_intelli_core.Prelude.{
  ℕ, ◌^◌, ◌<◌, Bool, true, false, List, [], ◌∷◌, map, Option, none, some, find, All, All-append,
  ◌≡◌, refl, ap, arith, if◌then◌else◌, ltb,
}
use nexus_intelli_core.Prelude.Text.{Text, codes, text_eq, text_starts_with}
use nexus_intelli_core.Prelude.Decimal.{parse_usize}
use nexus_intelli_core.Json.{Value, get, null}
use nexus_intelli_core.Json.Access.{unwrap_or}
use nexus_intelli_core.Transport.Bytes.{trim}
use nexus_intelli_core.Registry.{FilePath}
use nexus_intelli_core.Linter.{LintDiagnostic}
use nexus_intelli_core.Linter.External.{parse_u32}
use nexus_intelli_core.Linter.Targets.{path_matches_target}
use nexus_intelli_core.Linter.Documents.{
  u32_at, values_at, text_at, is_best_span, clippy_at, clippy_message, clippy_value, clippy_line,
  clippy_lines, eslint_message, eslint_file, eslint_files,
}
use nexus_intelli_core.Linter.Listings.{each_line}
use nexus_intelli_core.Linter.Captured.{number_of}

-- The line and the column are `u32`s, and the source is the one given.
pub record IsLocated (s : Text) (d : LintDiagnostic) : Type 0 where
  pub line_fits : d.line < 2 ^ 32
  pub column_fits : d.column < 2 ^ 32
  pub source_is : d.source ≡ s

u32_at_fits : (k : String) (v : Value) → u32_at k v < 2 ^ 32
unfolding u32_at
u32_at_fits k v = omega arith

bounded :
    (o : Option ℕ)
    → unwrap_or (elim o [ none ↦ none | some n ↦ if ltb n (2 ^ 32) then some n else none ]) 1
      < 2 ^ 32
bounded none = omega arith
bounded (some n) = ground arith

pub parse_u32-fits : (t : Text) → unwrap_or (parse_u32 t) 1 < 2 ^ 32
unfolding parse_u32
parse_u32-fits t = bounded (parse_usize t)

pub parse_u32-some : (t : Text) (n : ℕ) → parse_u32 t ≡ some n → n < 2 ^ 32
parse_u32-some t n e = subst (λ m. m < 2 ^ 32) (ap (λ o. unwrap_or o 1) e) (parse_u32-fits t)

pub number_of_fits : (g : Option Text) → number_of g < 2 ^ 32
unfolding number_of
number_of_fits none = omega arith
number_of_fits (some t) = parse_u32-fits t

abbrev pub AreLocated : Text → List LintDiagnostic → Type 0
AreLocated s ds = All (IsLocated s) ds

-- The ways in which the readers put lists of diagnostics together.
module _ (s : Text) where
  pub each_line-AreLocated :
      (f : Text → List LintDiagnostic) (ls : List Text)
      → ((t : Text) → AreLocated s (f t))
      → AreLocated s (each_line f ls)
  unfolding each_line
  each_line-AreLocated f [] h = tt
  each_line-AreLocated f (l ∷ ls) h =
      All-append (IsLocated s) (f l) (each_line f ls) (h l) (each_line-AreLocated f ls h)

  map-AreLocated :
      {A : Type 0} (f : A → LintDiagnostic) (xs : List A)
      → ((x : A) → IsLocated s (f x))
      → AreLocated s (map f xs)
  map-AreLocated f [] h = tt
  map-AreLocated f (x ∷ xs) h = (h x, map-AreLocated f xs h)

  pub guarded :
      (b : Bool) (ds : List LintDiagnostic) → AreLocated s ds → AreLocated s (if b then ds else [])
  guarded true ds h = h
  guarded false ds h = tt

  pub from_option :
      {A : Type 0} (f : A → List LintDiagnostic) (o : Option A)
      → ((a : A) → AreLocated s (f a))
      → AreLocated s (elim o as (λ _. List LintDiagnostic) [ none ↦ [] | some a ↦ f a ])
  from_option f none h = tt
  from_option f (some a) h = h a

module _ (from_str : Text → Option Value) (target root : FilePath) where
  clippy_message-AreLocated :
      (v : Value) → AreLocated (codes "clippy") (clippy_message from_str target root v)
  unfolding clippy_message clippy_at
  clippy_message-AreLocated v =
      from_option (codes "clippy") _
        (find (is_best_span from_str target root) (values_at "spans" v))
        (λ span. (
          record {
            line_fits = u32_at_fits "line_start" span;
            column_fits = u32_at_fits "column_start" span;
            source_is = refl;
          },
          tt,
        ))

  clippy_line-AreLocated :
      (t : Text) → AreLocated (codes "clippy") (clippy_line from_str target root t)
  unfolding clippy_line clippy_value
  clippy_line-AreLocated t = guarded (codes "clippy") (text_starts_with t (codes "{")) _ (
      from_option (codes "clippy") (clippy_value from_str target root) (from_str t) (λ v.
        guarded (codes "clippy")
          (text_eq (unwrap_or (text_at "reason" v) []) (codes "compiler-message")) _
          (clippy_message-AreLocated (unwrap_or (get (codes "message") v) null))))

  pub clippy_lines-AreLocated :
      (ls : List Text) → AreLocated (codes "clippy") (clippy_lines from_str target root ls)
  unfolding clippy_lines
  clippy_lines-AreLocated [] = tt
  clippy_lines-AreLocated (l ∷ ls) =
      All-append (IsLocated (codes "clippy")) (clippy_line from_str target root (trim l)) _
        (clippy_line-AreLocated (trim l)) (clippy_lines-AreLocated ls)

  eslint_file-AreLocated :
      (v : Value) → AreLocated (codes "eslint") (eslint_file from_str target root v)
  unfolding eslint_file eslint_message
  eslint_file-AreLocated v =
      guarded (codes "eslint")
        (path_matches_target (unwrap_or (text_at "filePath" v) []) target root) _
        (map-AreLocated (codes "eslint") (eslint_message from_str target root)
          (values_at "messages" v)
          (λ m. record {
            line_fits = u32_at_fits "line" m;
            column_fits = u32_at_fits "column" m;
            source_is = refl;
          }))

  pub eslint_files-AreLocated :
      (vs : List Value) → AreLocated (codes "eslint") (eslint_files from_str target root vs)
  unfolding eslint_files
  eslint_files-AreLocated [] = tt
  eslint_files-AreLocated (v ∷ vs) =
      All-append (IsLocated (codes "eslint")) (eslint_file from_str target root v) _
        (eslint_file-AreLocated v) (eslint_files-AreLocated vs)
