-- ===== src/Privacy/Policy.antt =====
-- `PrivacyPolicy` and the sanitizers of src/privacy_gateway.rs that take one.
use nexus_intelli_core.Prelude.{Bool, true, false, List, [], ◌∷◌, any, if◌then◌else◌}
use nexus_intelli_core.Prelude.Text.{Text, codes, text_eq}
use nexus_intelli_core.Json.{
  Value, null, bool, number, string, array, object, Items, nil, cons, Fields, end, field,
}
use nexus_intelli_core.Privacy.{Engine, sanitize_text_with_dynamic_patterns}

pub record PrivacyPolicy : Type 0 where
  pub omit_restricted : Bool
  pub redact_secrets : Bool
  pub apply_strip_marks : Bool
  pub sensitive_keys : List Text

-- `PrivacyPolicy::new`.
abbrev pub policy_of : List Text → PrivacyPolicy
policy_of keys = record {
  omit_restricted = false;
  redact_secrets = true;
  apply_strip_marks = true;
  sensitive_keys = keys;
}

-- `PrivacyPolicy::default`.
abbrev pub default_policy : PrivacyPolicy
default_policy = policy_of (
    codes "api_key"
    ∷ codes "password"
    ∷ codes "token"
    ∷ codes "secret"
    ∷ codes "authorization"
    ∷ codes "private_key"
    ∷ [])

abbrev pub redacted : Text
redacted = codes "[REDACTED]"

module _ (e : Engine) (policy : PrivacyPolicy) where
  unfoldable pub is_sensitive : Text → Bool
  is_sensitive k = any (text_eq (e.to_lowercase k)) policy.sensitive_keys

  -- Also `sanitize_import`, `sanitize_doc_comment`, `sanitize_file_outline` and
  -- `sanitize_security_report`, whose bodies are the same.
  unfoldable pub sanitize_output_text : Text → Text × List Text
  unfolding sanitize_text_with_dynamic_patterns
  sanitize_output_text text =
      if policy.redact_secrets then sanitize_text_with_dynamic_patterns e text else (text, [])

  unfoldable mutual
    unfolding is_sensitive

    pub sanitize_json_args : Value → Value
    sanitize_json_args (string s) = string (sanitize_output_text s).0
    sanitize_json_args (array vs) = array (sanitize_items vs)
    sanitize_json_args (object fs) = object (sanitize_fields fs)
    sanitize_json_args null = null
    sanitize_json_args (bool b) = bool b
    sanitize_json_args (number n) = number n

    pub sanitize_items : Items → Items
    sanitize_items nil = nil
    sanitize_items (cons v vs) = cons (sanitize_json_args v) (sanitize_items vs)

    pub sanitize_fields : Fields → Fields
    sanitize_fields end = end
    sanitize_fields (field k v fs) =
        field k (if is_sensitive k then string redacted else sanitize_json_args v)
          (sanitize_fields fs)
