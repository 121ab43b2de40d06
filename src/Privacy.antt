-- ===== src/Privacy.antt =====
-- src/sanitizer.rs and src/privacy_gateway.rs: what is removed from a text or a JSON value before it
-- leaves the server. A compiled regular expression (crate `regex`) is a parameter.
pub mod Policy
pub mod Texts
pub mod Gateway
pub mod Config
pub mod Bodies
pub mod Rules
pub mod Graph
use nexus_intelli_core.Prelude.{ℕ, Bool, true, false, List, [], ◌∷◌, ◌++◌, map, if◌then◌else◌}
use nexus_intelli_core.Prelude.Text.{Text, codes}

-- What the source calls on a `Regex`; `replace_all` takes the replacement, then the text.
pub record Regex : Type 0 where
  pub is_match : Text → Bool
  pub replace_all : Text → Text → Text
  -- the offsets at which the matches of `find_iter` start
  pub find_starts : Text → List ℕ

abbrev pub redacted_by_mcp : Text
redacted_by_mcp = codes "[REDACTED_BY_MCP]"

-- The nine entries of SECRET_PATTERNS, in order.
pub data SecretKind : Type 0 where
  openai_key aws_access_key jwt_token db_connection_uri private_ip : SecretKind
  github_token generic_secret pem_private_key internal_hostname : SecretKind

abbrev pub secret_patterns : List SecretKind
secret_patterns =
    openai_key ∷ aws_access_key ∷ jwt_token ∷ db_connection_uri ∷ private_ip ∷ github_token
    ∷ generic_secret ∷ pem_private_key ∷ internal_hostname ∷ []

abbrev pub label : SecretKind → Text
label openai_key = codes "OPENAI_KEY"
label aws_access_key = codes "AWS_ACCESS_KEY"
label jwt_token = codes "JWT_TOKEN"
label db_connection_uri = codes "DB_CONNECTION_URI"
label private_ip = codes "PRIVATE_IP"
label github_token = codes "GITHUB_TOKEN"
label generic_secret = codes "GENERIC_SECRET"
label pem_private_key = codes "PEM_PRIVATE_KEY"
label internal_hostname = codes "INTERNAL_HOSTNAME"

-- The loop that `sanitize_text` and `apply_custom_redaction_patterns` share: each pattern that
-- matches what the earlier ones left replaces its matches, and its label is recorded.
unfoldable pub redact_loop : List (Text × Regex) → Text → Text × List Text
redact_loop [] result = (result, [])
redact_loop ((l, r) ∷ ps) result =
    let (kept, fired) =
      redact_loop ps (if r.is_match result then r.replace_all redacted_by_mcp result else result) in
    (kept, if r.is_match result then l ∷ fired else fired)

-- The compiled patterns and `str::to_lowercase`.
pub record Engine : Type 0 where
  pub secret_regex : SecretKind → Regex
  pub sensitive_comment : Regex
  pub custom : List (Text × Regex)
  pub to_lowercase : Text → Text

module _ (e : Engine) where
  open e use {secret_regex, sensitive_comment, custom}

  abbrev pub builtin : List (Text × Regex)
  builtin = map (λ k. (label k, secret_regex k)) secret_patterns

  unfoldable pub sanitize_text : Text → Text × List Text
  unfolding redact_loop
  sanitize_text text = redact_loop builtin text

  abbrev pub custom_labelled : List (Text × Regex)
  custom_labelled = map (λ p. (codes "CUSTOM_PATTERN:" ++ p.0, p.1)) custom

  unfoldable pub apply_custom_redaction_patterns : Text → Text × List Text
  unfolding redact_loop
  apply_custom_redaction_patterns text = redact_loop custom_labelled text

  unfoldable pub sanitize_text_with_dynamic_patterns : Text → Text × List Text
  unfolding sanitize_text apply_custom_redaction_patterns
  sanitize_text_with_dynamic_patterns text =
      let (sanitized, redactions) = sanitize_text text in
      let (sanitized_custom, custom_redactions) = apply_custom_redaction_patterns sanitized in
      (sanitized_custom, redactions ++ custom_redactions)

  unfoldable pub strip_sensitive_comments : Text → Text
  strip_sensitive_comments text =
      sensitive_comment.replace_all (codes "// [COMMENT REDACTED BY MCP]") text

  -- `sanitize_function_source`; its signature, language and policy are not looked at.
  unfoldable pub sanitize_function_source : Text → Text × List Text
  unfolding strip_sensitive_comments sanitize_text_with_dynamic_patterns
  sanitize_function_source source =
      sanitize_text_with_dynamic_patterns (strip_sensitive_comments source)
