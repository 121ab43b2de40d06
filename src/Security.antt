-- ===== src/Security.antt =====
-- src/security.rs: the configuration and the digests of tokens. The environment, the file of the
-- configuration and the standard library's hasher come from outside.
pub mod Digests
pub mod Audit
use nexus_intelli_core.Prelude.{
  ℕ, zero, suc, ◌+◌, ◌/◌, ◌%◌, Bool, true, false, not, List, [], ◌∷◌, ◌++◌, map, length, Option,
  none, some, retain, ◌==◌, if◌then◌else◌,
}
use mathlib.Core.Option
use nexus_intelli_core.Prelude.Text.{Text, codes, text_eq}
use nexus_intelli_core.Transport.Bytes.{trim, split_once}
use nexus_intelli_core.Server.Compare.{Digest, diff_from}
use Prim.Native.Nat.{bit_xor}
use Prim.Native.String.{String}

-- `to_le_bytes` of the lowest bytes of a number.
unfoldable pub le_bytes : ℕ → ℕ → List ℕ
le_bytes zero n = []
le_bytes (suc k) n = n % 256 ∷ le_bytes k (n / 256)

-- `DefaultHasher` on the index of a chunk and the bytes of the token.
abbrev pub Hasher : Type 0
Hasher = ℕ → Text → ℕ

-- The chunks from an index on.
unfoldable pub digest_chunks : Hasher → Text → ℕ → ℕ → Digest
unfolding le_bytes
digest_chunks finish token zero i = []
digest_chunks finish token (suc k) i =
    le_bytes 8 (finish i token) ++ digest_chunks finish token k (suc i)

unfoldable pub compute_token_digest : Hasher → Text → Digest
unfolding digest_chunks
compute_token_digest finish token = digest_chunks finish token 4 0

unfoldable pub constant_time_compare : Hasher → Text → Text → Bool
unfolding diff_from compute_token_digest
constant_time_compare finish a b =
    diff_from (bit_xor (length a) (length b)) (compute_token_digest finish a)
      (compute_token_digest finish b)
    == 0

pub record SecurityConfig : Type 0 where
  pub auth_token_hash : Option Digest
  pub allowed_tools : Option (List Text)
  pub audit_log_path : Option Text
  pub custom_redaction_patterns : Option (List Text)
  pub custom_strip_placeholder : Option Text

pub record SecurityConfigRaw : Type 0 where
  pub auth_token : Option Text
  pub allowed_tools : Option (List Text)
  pub audit_log_path : Option Text
  pub custom_redaction_patterns : Option (List Text)
  pub custom_strip_placeholder : Option Text

-- `std::env::var`, and reading a `SecurityConfigRaw` from the file at a path.
pub record Environment : Type 0 where
  pub var : Text → Option Text
  pub read_config : Text → Option SecurityConfigRaw

-- `split(',')`.
unfoldable pub split_commas : Text → List Text
split_commas [] = [] ∷ []
split_commas (c ∷ s) =
    let rest = split_commas s in
    if c == b',' then [] ∷ rest else (elim rest [ [] ↦ (c ∷ []) ∷ [] | p ∷ ps ↦ (c ∷ p) ∷ ps ])

unfoldable pub unless_empty : {A : Type 0} → List A → Option (List A)
unless_empty [] = none
unless_empty (x ∷ xs) = some (x ∷ xs)

unfoldable pub bind_text : {A : Type 0} → (Text → Option A) → Option Text → Option A
bind_text f none = none
bind_text f (some t) = f t

-- The pieces that are not empty once trimmed.
unfoldable pub trimmed_pieces : Text → List Text
unfolding split_commas trim text_eq
trimmed_pieces s = retain (λ p. not (text_eq p [])) (map trim (split_commas s))

module _ (finish : Hasher) (e : Environment) where
  unfoldable pub load_from_env : SecurityConfig
  unfolding compute_token_digest split_commas trimmed_pieces unless_empty bind_text trim
  load_from_env = record {
    auth_token_hash = Option.map (compute_token_digest finish) (e.var (codes "MCP_AUTH_TOKEN"));
    allowed_tools = Option.map (λ s. map trim (split_commas s)) (e.var (codes "MCP_ALLOWED_TOOLS"));
    audit_log_path = e.var (codes "MCP_AUDIT_LOG_PATH");
    custom_redaction_patterns =
        bind_text (λ s. unless_empty (trimmed_pieces s))
          (e.var (codes "MCP_CUSTOM_REDACTION_PATTERNS"));
    custom_strip_placeholder =
        bind_text (λ s. unless_empty (trim s)) (e.var (codes "MCP_CUSTOM_STRIP_PLACEHOLDER"));
  }

  unfoldable pub of_raw : SecurityConfigRaw → SecurityConfig
  unfolding compute_token_digest
  of_raw raw = record {
    auth_token_hash = Option.map (compute_token_digest finish) raw.auth_token;
    allowed_tools = raw.allowed_tools;
    audit_log_path = raw.audit_log_path;
    custom_redaction_patterns = raw.custom_redaction_patterns;
    custom_strip_placeholder = raw.custom_strip_placeholder;
  }

  -- The error is only logged.
  unfoldable pub load_from_json : Option SecurityConfig
  unfolding of_raw bind_text
  load_from_json =
      Option.map of_raw (bind_text e.read_config (e.var (codes "MCP_SECURITY_CONFIG_PATH")))

  unfoldable pub load : SecurityConfig
  unfolding load_from_env load_from_json
  load = elim load_from_json [ some config ↦ config | none ↦ load_from_env ]
