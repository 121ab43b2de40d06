-- ===== src/Tests/Texts.antt =====
-- What is redacted of small texts and values.
use mathlib.Core.Option
use nexus_intelli_core.Prelude.{List, [], ◌∷◌, ◌++◌, map, ◌≡◌, ◌↔◌, refl}
use nexus_intelli_core.Prelude.Text.{codes, text_eq}
use nexus_intelli_core.Json.{Value, string, object, field, end}
use nexus_intelli_core.Json.Paths.{Move, key, go, at}
use nexus_intelli_core.Privacy.{builtin, custom_labelled, sanitize_text_with_dynamic_patterns}
use nexus_intelli_core.Privacy.Policy.{default_policy, sanitize_json_args, is_sensitive, redacted}
use nexus_intelli_core.Privacy.Texts.{
  Misses, IsSublist, sanitize_text-quiet_iff, sanitize_text-IsSublist,
}
use nexus_intelli_core.Privacy.Gateway.{sanitize_json-hidden, sanitize_json-visible}
use nexus_intelli_core.Tests.Fixtures.{engine}

abbrev login : Value
login = object (
    field (codes "Token") (string (codes "abc")) (field (codes "user") (string (codes "sk-1")) end))

sanitize_text-quiet_iff_example :
    (((sanitize_text_with_dynamic_patterns engine (codes "plain")).1 ≡ [])
      ↔ (Misses (codes "plain") (builtin engine) × Misses (codes "plain") (custom_labelled engine)))
    × ((sanitize_text_with_dynamic_patterns engine (codes "plain")).1 ≡ []
        → (sanitize_text_with_dynamic_patterns engine (codes "plain")).0 ≡ codes "plain")
sanitize_text-quiet_iff_example = sanitize_text-quiet_iff engine (codes "plain")

sanitize_text-IsSublist_example :
    IsSublist
      (sanitize_text_with_dynamic_patterns engine (codes "sk-1")).1
      (map (λ p. p.0) (builtin engine) ++ map (λ p. p.0) (custom_labelled engine))
sanitize_text-IsSublist_example = sanitize_text-IsSublist engine (codes "sk-1")

abbrev nowhere : List Move
nowhere = []

sanitize_json-hidden_example : (string redacted ≡ string redacted) × (nowhere ≡ [])
unfolding is_sensitive sanitize_json_args at go text_eq
sanitize_json-hidden_example =
    sanitize_json-hidden engine default_policy [] (codes "Token") nowhere login (string redacted)
      refl refl

sanitize_json-visible_example :
    at (key (codes "user") ∷ []) (sanitize_json_args engine default_policy login)
    ≡ Option.map (sanitize_json_args engine default_policy) (at (key (codes "user") ∷ []) login)
unfolding is_sensitive text_eq
sanitize_json-visible_example =
    sanitize_json-visible engine default_policy (key (codes "user") ∷ []) login (refl, tt)
