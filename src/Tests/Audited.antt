-- ===== src/Tests/Audited.antt =====
-- A hasher, an audit file and overrides that change.
use nexus_intelli_core.Prelude.{
  ℕ, ◌+◌, ◌%◌, true, false, List, [], ◌∷◌, Option, none, some, map, length, ◌≡◌, refl,
}
use nexus_intelli_core.Prelude.Text.{Text, codes, text_eq}
use nexus_intelli_core.Json.{Value, null}
use nexus_intelli_core.Security.Audit.{
  AuditCall, first_audit_hash, log_runs, all_written, checks, IsChained, log_runs-IsChained,
}
use nexus_intelli_core.Privacy.{Regex}
use nexus_intelli_core.Privacy.Rules.{
  DynamicSecurityOverrides, compile_privacy_rules, rules_of_calls, rules_of_calls-compile,
}
use nexus_intelli_core.Tests.Fixtures.{word}

abbrev chain_hash : ℕ → ℕ → Text → Text → ℕ
chain_hash prev at event details = (prev + at + length event) % 1000

abbrev no_text : Value → Text
no_text v = []

abbrev two_calls : List AuditCall
two_calls =
    (record { at = 5; event_type = codes "auth_success"; details = null; writes = true })
    ∷ (record { at = 9; event_type = codes "tool_call_start"; details = null; writes = true })
    ∷ []

log_runs-IsChained_example :
    IsChained chain_hash no_text []
      (two_calls ∷ two_calls ∷ [])
      (log_runs chain_hash no_text [] (two_calls ∷ two_calls ∷ []))
unfolding all_written
log_runs-IsChained_example =
    log_runs-IsChained chain_hash no_text [] (two_calls ∷ two_calls ∷ []) (refl, (refl, tt))

-- Over a restart the file is no single chain.
breaks_at_restart :
    checks chain_hash no_text first_audit_hash
      (log_runs chain_hash no_text [] (two_calls ∷ two_calls ∷ []))
    ≡ false
unfolding checks log_runs text_eq
breaks_at_restart = refl

abbrev overrides_of : List Text → DynamicSecurityOverrides
overrides_of ps = record { custom_redaction_patterns = ps; custom_strip_placeholder = none }

abbrev compile_word : Text → Option Regex
compile_word t = some (word t)

rules_of_calls-compile_example :
    rules_of_calls compile_word none
      (overrides_of (codes "a" ∷ []) ∷ overrides_of (codes "a" ∷ []) ∷ overrides_of [] ∷ [])
    ≡ map
        (compile_privacy_rules compile_word)
        (overrides_of (codes "a" ∷ []) ∷ overrides_of (codes "a" ∷ []) ∷ overrides_of [] ∷ [])
rules_of_calls-compile_example =
    rules_of_calls-compile compile_word
      (overrides_of (codes "a" ∷ []) ∷ overrides_of (codes "a" ∷ []) ∷ overrides_of [] ∷ [])
