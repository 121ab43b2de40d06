-- ===== src/Privacy/Config.antt =====
-- src/sanitizer.rs: the redaction of configuration files, line by line. The compiled regular
-- expressions are parameters.
use nexus_intelli_core.Prelude.{
  Bool, true, false, ◌||◌, List, [], ◌∷◌, ◌++◌, Option, none, some, ◌≡◌, refl, sym, ◌∙◌,
  if◌then◌else◌,
}
use nexus_intelli_core.Prelude.Text.{Text, codes, text_eq, text_starts_with}
use nexus_intelli_core.Transport.Bytes.{trim, trim_start}
use nexus_intelli_core.Linter.{lines}
use nexus_intelli_core.Privacy.{Engine, redacted_by_mcp, sanitize_text}

-- The groups of CONFIG_KV_RE.
pub record Captures : Type 0 where
  pub indent : Text
  pub key : Text
  pub sep : Text
  pub value : Text

-- CONFIG_IPV4_RE with its `replace_all`, CONFIG_KV_RE and CONFIG_SENSITIVE_KEY_RE.
pub record ConfigEngine : Type 0 where
  pub engine : Engine
  pub has_ipv4 : Text → Bool
  pub replace_ipv4 : (Text → Text) → Text → Text
  pub captures : Text → Option Captures
  pub is_sensitive_key : Text → Bool

unfoldable pub redact_address : Text → Text
redact_address ip =
    if text_eq ip (codes "127.0.0.1") || text_eq ip (codes "0.0.0.0") then ip else redacted_by_mcp

abbrev pub is_empty : Text → Bool
is_empty [] = true
is_empty (_ ∷ _) = false

unfoldable pub join_lines : List Text → Text
join_lines [] = []
join_lines (l ∷ []) = l
join_lines (l ∷ m ∷ ls) = l ++ 10 ∷ join_lines (m ∷ ls)

module _ (c : ConfigEngine) where
  open c use {engine, has_ipv4, replace_ipv4, captures, is_sensitive_key}

  unfoldable pub redact_config_value : Text → Text × List Text
  unfolding sanitize_text redact_address
  redact_config_value value =
      let (sanitized, fired) = sanitize_text engine value in
      if has_ipv4 sanitized
      then (let redacted = replace_ipv4 redact_address sanitized in
          (
            redacted,
            if text_eq redacted sanitized then fired else fired ++ codes "CONFIG_IPV4" ∷ [],
          ))
      else (sanitized, fired)

  unfoldable pub sanitize_pair : Text → Captures → Text × List Text
  unfolding redact_config_value
  sanitize_pair line caps =
      let kept = caps.indent ++ caps.key ++ caps.sep in
      if is_empty (trim caps.value)
      then (line, [])
      else if is_sensitive_key caps.key
      then (kept ++ redacted_by_mcp, codes "CONFIG_SENSITIVE_KEY" ∷ [])
      else (let (sanitized_value, value_fired) = redact_config_value caps.value in
          (kept ++ sanitized_value, value_fired))

  -- Blank lines and comments.
  unfoldable pub is_plain : Text → Bool
  is_plain line =
      let trimmed = trim_start line in
      is_empty trimmed
      || (text_starts_with trimmed (codes "#") || text_starts_with trimmed (codes "!"))

  unfoldable pub sanitize_line : Text → Text × List Text
  unfolding redact_config_value sanitize_pair is_plain
  sanitize_line line = if is_plain line then (line, []) else (elim (captures line) [
    | none ↦ redact_config_value line
    | some caps ↦ sanitize_pair line caps
  ])

  unfoldable pub config_lines : List Text → List Text × List Text
  unfolding sanitize_line
  config_lines [] = ([], [])
  config_lines (line ∷ ls) =
      let (out, fired) = sanitize_line line in
      let (outs, fireds) = config_lines ls in (out ∷ outs, fired ++ fireds)

  unfoldable pub sanitize_config_text : Text → Text × List Text
  unfolding config_lines join_lines lines
  sanitize_config_text text =
      let (out_lines, fired) = config_lines (lines text) in (join_lines out_lines, fired)

  -- The line gives a value to a sensitive key.
  pub record IsSecret (line : Text) (caps : Captures) : Type 0 where
    pub found : captures line ≡ some caps
    pub visible : is_plain line ≡ false
    pub present : is_empty (trim caps.value) ≡ false
    pub sensitive : is_sensitive_key caps.key ≡ true

  -- Two lines are the same but for the value of one sensitive key.
  pub record HideValue (line other : Text) : Type 0 where
    pub here : Captures
    pub there : Captures
    pub left : IsSecret line here
    pub right : IsSecret other there
    pub same_indent : here.indent ≡ there.indent
    pub same_key : here.key ≡ there.key
    pub same_sep : here.sep ≡ there.sep

  pub data SameButSecrets : List Text → List Text → Type 0 where
    done : SameButSecrets [] []
    equal : {l : Text} {ls ms : List Text} → SameButSecrets ls ms → SameButSecrets (l ∷ ls) (l ∷ ms)
    secret :
        {l m : Text} {ls ms : List Text}
        → HideValue l m
        → SameButSecrets ls ms
        → SameButSecrets (l ∷ ls) (m ∷ ms)

  -- What a line that gives a value to a sensitive key becomes.
  sanitize_line-secret :
      (line : Text) (caps : Captures)
      → IsSecret line caps
      → sanitize_line line ≡ (
        (caps.indent ++ caps.key ++ caps.sep) ++ redacted_by_mcp,
        codes "CONFIG_SENSITIVE_KEY" ∷ [],
      )
  unfolding sanitize_line sanitize_pair
  sanitize_line-secret line caps s =
      rw (IsSecret.visible s, IsSecret.found s)
        (rw (sanitize_pair, IsSecret.present s, IsSecret.sensitive s) refl)

  sanitize_line-HideValue : (l m : Text) → HideValue l m → sanitize_line l ≡ sanitize_line m
  sanitize_line-HideValue l m h =
      sanitize_line-secret l h.here h.left
      ∙ (rw (h.same_indent, h.same_key, h.same_sep) (sym (sanitize_line-secret m h.there h.right)))

  config_lines-SameButSecrets :
      (ls ms : List Text) → SameButSecrets ls ms → config_lines ls ≡ config_lines ms
  unfolding config_lines
  config_lines-SameButSecrets _ _ done = refl
  config_lines-SameButSecrets (l ∷ ls) (_ ∷ ms) (equal r) =
      rw (config_lines-SameButSecrets ls ms r) refl
  config_lines-SameButSecrets (l ∷ ls) (m ∷ ms) (secret h r) =
      rw (sanitize_line-HideValue l m h, config_lines-SameButSecrets ls ms r) refl

  -- Two configuration texts are sanitized to the same text with the same labels when they differ only
  -- in values of sensitive keys, in lines that are neither blank nor comments, and where neither of
  -- the two values is blank.
  pub sanitize_config_text-SameButSecrets :
      (text other : Text)
      → SameButSecrets (lines text) (lines other)
      → sanitize_config_text text ≡ sanitize_config_text other
  unfolding sanitize_config_text
  sanitize_config_text-SameButSecrets text other r =
      rw (config_lines-SameButSecrets (lines text) (lines other) r) refl
