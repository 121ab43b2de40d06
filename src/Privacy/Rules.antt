-- ===== src/Privacy/Rules.antt =====
-- src/privacy_gateway.rs: the custom rules, read at each call and compiled when they have changed.
-- The environment, the file system and the compiler of regular expressions come from outside.
use nexus_intelli_core.Prelude.{
  Bool, true, false, ◌&&◌, List, [], ◌∷◌, ◌++◌, map, Option, none, some, ◌≡◌, refl, ap, ◌∙◌, inl,
  inr, arith, Bool-cases, if◌then◌else◌,
}
use nexus_intelli_core.Prelude.Text.{Text, codes, text_eq, text_eq→eq}
use nexus_intelli_core.Json.{Value, get, as_str, as_array}
use nexus_intelli_core.Json.Access.{◌>>=◌, ◌or_else◌, unwrap_or}
use nexus_intelli_core.Transport.Bytes.{trim}
use nexus_intelli_core.Security.{trimmed_pieces, unless_empty}
use nexus_intelli_core.Privacy.{Regex}

pub record DynamicSecurityOverrides : Type 0 where
  pub custom_redaction_patterns : List Text
  pub custom_strip_placeholder : Option Text

pub record CompiledPrivacyRules : Type 0 where
  pub custom_secret_regexes : List (Text × Regex)
  pub strip_placeholder : Text

-- `std::env::var`, `fs::read_to_string` and `serde_json::from_str`.
pub record Sources : Type 0 where
  pub var : Text → Option Text
  pub read_to_string : Text → Option Text
  pub from_str : Text → Option Value

-- The texts of an array that are not empty.
unfoldable pub texts_of : List Value → List Text
unfolding text_eq
texts_of [] = []
texts_of (v ∷ vs) =
    let rest = texts_of vs in
    elim (as_str v) [ none ↦ rest | some t ↦ if text_eq t [] then rest else t ∷ rest ]

-- The JSON value of the file at MCP_SECURITY_CONFIG_PATH.
unfoldable pub parsed_config : Sources → Option Value
parsed_config w =
    w.var (codes "MCP_SECURITY_CONFIG_PATH") >>= (λ path. w.read_to_string path >>= w.from_str)

unfoldable pub file_patterns : Option Value → List Text
unfolding texts_of get
file_patterns parsed =
    elim (parsed >>= (λ v. get (codes "custom_redaction_patterns") v >>= as_array)) [
      | none ↦ []
      | some vs ↦ texts_of vs
    ]

unfoldable pub file_placeholder : Option Value → Option Text
unfolding unless_empty trim get
file_placeholder parsed =
    parsed
    >>= (λ v. get (codes "custom_strip_placeholder") v >>= as_str)
    >>= (λ t. unless_empty (trim t))

unfoldable pub load_dynamic_overrides : Sources → DynamicSecurityOverrides
unfolding parsed_config file_patterns file_placeholder trimmed_pieces unless_empty trim
load_dynamic_overrides w = record {
  custom_redaction_patterns =
      elim (w.var (codes "MCP_CUSTOM_REDACTION_PATTERNS")) as (λ _. List Text) [
        | none ↦ []
        | some raw ↦ trimmed_pieces raw
      ]
      ++ file_patterns (parsed_config w);
  custom_strip_placeholder =
      (w.var (codes "MCP_CUSTOM_STRIP_PLACEHOLDER") >>= (λ raw. unless_empty (trim raw)))
      or_else file_placeholder (parsed_config w);
}

unfoldable pub texts_eq : List Text → List Text → Bool
unfolding text_eq
texts_eq [] [] = true
texts_eq (s ∷ ss) (t ∷ ts) = text_eq s t && texts_eq ss ts
texts_eq _ _ = false

unfoldable pub placeholder_eq : Option Text → Option Text → Bool
unfolding text_eq
placeholder_eq none none = true
placeholder_eq (some s) (some t) = text_eq s t
placeholder_eq _ _ = false

unfoldable pub overrides_eq : DynamicSecurityOverrides → DynamicSecurityOverrides → Bool
unfolding texts_eq placeholder_eq
overrides_eq a b =
    texts_eq a.custom_redaction_patterns b.custom_redaction_patterns
    && placeholder_eq a.custom_strip_placeholder b.custom_strip_placeholder

abbrev pub default_strip_placeholder : Text
default_strip_placeholder =
    codes "L" ++ (195 ∷ 179 ∷ []) ++ codes "gica de negocio ofuscada por seguridad"

module _ (compile : Text → Option Regex) where
  -- A pattern that does not compile is only logged.
  unfoldable pub compile_patterns : List Text → List (Text × Regex)
  compile_patterns [] = []
  compile_patterns (p ∷ ps) =
      let rest = compile_patterns ps in elim (compile p) [ none ↦ rest | some re ↦ (p, re) ∷ rest ]

  unfoldable pub compile_privacy_rules : DynamicSecurityOverrides → CompiledPrivacyRules
  unfolding compile_patterns
  compile_privacy_rules overrides = record {
    custom_secret_regexes = compile_patterns overrides.custom_redaction_patterns;
    strip_placeholder = unwrap_or overrides.custom_strip_placeholder default_strip_placeholder;
  }

  abbrev pub CachedPrivacyRules : Type 0
  CachedPrivacyRules = Option (DynamicSecurityOverrides × CompiledPrivacyRules)

  unfoldable pub recompile : DynamicSecurityOverrides → CompiledPrivacyRules × CachedPrivacyRules
  unfolding compile_privacy_rules
  recompile overrides =
      let rules = compile_privacy_rules overrides in (rules, some (overrides, rules))

  -- The rules, and the cache afterwards.
  unfoldable pub compiled_privacy_rules :
      CachedPrivacyRules → DynamicSecurityOverrides → CompiledPrivacyRules × CachedPrivacyRules
  unfolding recompile overrides_eq
  compiled_privacy_rules none overrides = recompile overrides
  compiled_privacy_rules (some (cached_overrides, rules)) overrides =
      if overrides_eq cached_overrides overrides
      then (rules, some (cached_overrides, rules))
      else recompile overrides

  -- The calls one after the other, each with the overrides that it reads.
  unfoldable pub rules_of_calls :
      CachedPrivacyRules → List DynamicSecurityOverrides → List CompiledPrivacyRules
  unfolding compiled_privacy_rules
  rules_of_calls cache [] = []
  rules_of_calls cache (o ∷ os) =
      let (rules, after) = compiled_privacy_rules cache o in rules ∷ rules_of_calls after os

texts_eq→eq : (s t : List Text) → texts_eq s t ≡ true → s ≡ t
unfolding texts_eq
texts_eq→eq [] [] h = refl
texts_eq→eq (x ∷ s) (y ∷ t) h = elim (Bool-cases (text_eq x y)) [
  | inl e ↦ rw (text_eq→eq x y e) (ap (◌∷◌ y) (texts_eq→eq s t (ground (arith, h, e))))
  | inr e ↦ absurd (ground (arith, h, e))
]
texts_eq→eq _ _ h = cc

placeholder_eq→eq : (s t : Option Text) → placeholder_eq s t ≡ true → s ≡ t
unfolding placeholder_eq
placeholder_eq→eq none none h = refl
placeholder_eq→eq (some s) (some t) h = ap some (text_eq→eq s t h)
placeholder_eq→eq _ _ h = cc

overrides_eq→eq : (a b : DynamicSecurityOverrides) → overrides_eq a b ≡ true → a ≡ b
unfolding overrides_eq
overrides_eq→eq a b h = cc (
  texts_eq→eq a.custom_redaction_patterns b.custom_redaction_patterns (ground (arith, h)),
  placeholder_eq→eq a.custom_strip_placeholder b.custom_strip_placeholder (ground (arith, h)),
)

module _ (compile : Text → Option Regex) where
  -- What is kept in the cache was compiled from the overrides kept with it.
  IsFresh : CachedPrivacyRules compile → Type 0
  IsFresh none = Unit
  IsFresh (some (overrides, rules)) = rules ≡ compile_privacy_rules compile overrides

  compiled-Fresh :
      (cache : CachedPrivacyRules compile) (o : DynamicSecurityOverrides)
      → IsFresh cache
      → ((compiled_privacy_rules compile cache o).0 ≡ compile_privacy_rules compile o)
        × IsFresh (compiled_privacy_rules compile cache o).1
  unfolding compiled_privacy_rules recompile IsFresh
  compiled-Fresh none o h = (refl, refl)
  compiled-Fresh (some (kept, rules)) o h = elim (Bool-cases (overrides_eq kept o)) [
    | inl e ↦
        rw (e, compiled_privacy_rules)
          (h ∙ ap (compile_privacy_rules compile) (overrides_eq→eq kept o e), h)
    | inr e ↦ rw (e, compiled_privacy_rules) (refl, refl)
  ]

  calls-Fresh :
      (cache : CachedPrivacyRules compile) (os : List DynamicSecurityOverrides)
      → IsFresh cache
      → rules_of_calls compile cache os ≡ map (compile_privacy_rules compile) os
  unfolding rules_of_calls
  calls-Fresh cache [] h = refl
  calls-Fresh cache (o ∷ os) h =
      let (e, k) = compiled-Fresh cache o h in
      rw e (
        ap (◌∷◌ (compile_privacy_rules compile o))
          (calls-Fresh (compiled_privacy_rules compile cache o).1 os k))

  -- However the overrides change between the calls, each call gets the rules compiled from the
  -- overrides that it reads.
  pub rules_of_calls-compile :
      (os : List DynamicSecurityOverrides)
      → rules_of_calls compile none os ≡ map (compile_privacy_rules compile) os
  unfolding IsFresh
  rules_of_calls-compile os = calls-Fresh none os tt
