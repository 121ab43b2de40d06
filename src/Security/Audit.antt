-- ===== src/Security/Audit.antt =====
-- src/security.rs: the chain of hashes of the audit file. The clock, the hasher, the text of a JSON
-- value and whether a line can be written come from outside.
use mathlib.Core.Path.{subst}
use nexus_intelli_core.Prelude.{
  ℕ, zero, suc, ◌+◌, ◌-◌, ◌/◌, ◌%◌, Bool, true, false, ◌&&◌, List, [], ◌∷◌, ◌++◌, map, append_assoc,
  append-nil, All, ltb, ◌≡◌, refl, sym, ap, ◌∙◌, arith, if◌then◌else◌,
}
use nexus_intelli_core.Prelude.Text.{Text, text_eq, text_eq_refl}
use nexus_intelli_core.Json.{Value}

abbrev hex_digit : ℕ → ℕ
hex_digit d = if ltb d 10 then b'0' + d else b'a' + (d - 10)

unfoldable pub hex_digits : ℕ → ℕ → Text → Text
hex_digits zero n acc = acc
hex_digits (suc k) n acc = hex_digits k (n / 16) (hex_digit (n % 16) ∷ acc)

-- `{:016x}` of a `u64`.
unfoldable pub hex16 : ℕ → Text
unfolding hex_digits
hex16 n = hex_digits 16 n []

pub record LogEntry : Type 0 where
  pub timestamp : ℕ
  pub event : Text
  pub details : Value
  pub prev_hash : Text
  pub hash : Text

-- The atomic PREV_AUDIT_HASH, and the lines of the file.
pub record AuditState : Type 0 where
  pub prev_audit_hash : ℕ
  pub file : List LogEntry

-- One call: the time, the kind of the event and its details, and whether the line is written.
pub record AuditCall : Type 0 where
  pub at : ℕ
  pub event_type : Text
  pub details : Value
  pub writes : Bool

abbrev pub first_audit_hash : ℕ
first_audit_hash = 14627333968688430831

-- What a line tells apart from the hashes, and what a call gives for it.
abbrev pub note_of : LogEntry → Text × (Value × ℕ)
note_of l = (l.event, (l.details, l.timestamp))

abbrev pub call_note : AuditCall → Text × (Value × ℕ)
call_note c = (c.event_type, (c.details, c.at))

-- The program starts: the atomic is at its first value, whatever lines the file has.
abbrev pub start_of_audit : List LogEntry → AuditState
start_of_audit file = record { prev_audit_hash = first_audit_hash; file = file }

if-true : {A : Type 0} {b : Bool} (x y : A) → b ≡ true → (if b then x else y) ≡ x
if-true x y h = rw h refl

module _ (hash_of : ℕ → ℕ → Text → Text → ℕ) (to_string : Value → Text) where
  abbrev pub entry_of : ℕ → AuditCall → LogEntry
  entry_of prev c = record {
    timestamp = c.at;
    event = c.event_type;
    details = c.details;
    prev_hash = hex16 prev;
    hash = hex16 (hash_of prev c.at c.event_type (to_string c.details));
  }

  -- `log_audit_event` when a path is configured, no other call running meanwhile.
  unfoldable pub log_audit_line : AuditState → AuditCall → AuditState
  unfolding hex16
  log_audit_line s c = record {
    prev_audit_hash = hash_of s.prev_audit_hash c.at c.event_type (to_string c.details);
    file = if c.writes then s.file ++ (entry_of s.prev_audit_hash c ∷ []) else s.file;
  }

  unfoldable pub log_all : AuditState → List AuditCall → AuditState
  unfolding log_audit_line
  log_all s [] = s
  log_all s (c ∷ cs) = log_all (log_audit_line s c) cs

  -- What an auditor checks: from a hash on, each line names the hash before it and carries its own.
  unfoldable pub checks : ℕ → List LogEntry → Bool
  checks prev [] = true
  checks prev (l ∷ ls) =
      let own = hash_of prev l.timestamp l.event (to_string l.details) in
      let rest = checks own ls in
      (text_eq l.prev_hash (hex16 prev) && text_eq l.hash (hex16 own)) && rest

  unfoldable pub all_written : List AuditCall → Bool
  all_written [] = true
  all_written (c ∷ cs) = let rest = all_written cs in if c.writes then rest else false

  -- The file after the program ran several times with the same path, with the calls of each run.
  unfoldable pub log_runs : List LogEntry → List (List AuditCall) → List LogEntry
  unfolding log_all
  log_runs file [] = file
  log_runs file (cs ∷ runs) = log_runs (log_all (start_of_audit file) cs).file runs

  -- Each run appends a chain of hashes that begins at the first one, a line for each call in order.
  pub data IsChained : List LogEntry → List (List AuditCall) → List LogEntry → Type 0 where
    no_run : {file : List LogEntry} → IsChained file [] file
    one_run :
        {before after : List LogEntry} {cs : List AuditCall} {runs : List (List AuditCall)}
        (ls : List LogEntry)
        → checks first_audit_hash ls ≡ true
        → map note_of ls ≡ map call_note cs
        → IsChained (before ++ ls) runs after
        → IsChained before (cs ∷ runs) after

  -- The lines that the calls of one run write.
  unfoldable lines_of : ℕ → List AuditCall → List LogEntry
  lines_of prev [] = []
  lines_of prev (c ∷ cs) =
      entry_of prev c ∷ lines_of (hash_of prev c.at c.event_type (to_string c.details)) cs

  checks-lines_of : (prev : ℕ) (cs : List AuditCall) → checks prev (lines_of prev cs) ≡ true
  unfolding checks lines_of
  checks-lines_of prev [] = refl
  checks-lines_of prev (c ∷ cs) =
      let own = hash_of prev c.at c.event_type (to_string c.details) in
      rw (text_eq_refl (hex16 prev), text_eq_refl (hex16 own)) (checks-lines_of own cs)

  events-lines_of :
      (prev : ℕ) (cs : List AuditCall) → map note_of (lines_of prev cs) ≡ map call_note cs
  unfolding lines_of
  events-lines_of prev [] = refl
  events-lines_of prev (c ∷ cs) =
      ap (◌∷◌ (call_note c))
        (events-lines_of (hash_of prev c.at c.event_type (to_string c.details)) cs)

  log_all-lines_of :
      (s : AuditState) (cs : List AuditCall)
      → all_written cs ≡ true
      → (log_all s cs).file ≡ s.file ++ lines_of s.prev_audit_hash cs
  unfolding log_all log_audit_line lines_of all_written
  log_all-lines_of s [] w = sym (append-nil s.file)
  log_all-lines_of s (c ∷ cs) w =
      let entry = entry_of s.prev_audit_hash c in
      let own = hash_of s.prev_audit_hash c.at c.event_type (to_string c.details) in
      log_all-lines_of (log_audit_line s c) cs (ground (arith, w))
      ∙ ap (λ f. f ++ lines_of own cs) (if-true (s.file ++ (entry ∷ [])) s.file (ground (arith, w)))
      ∙ append_assoc s.file (entry ∷ []) (lines_of own cs)

  -- However often the program runs with one audit file, whatever lines the file had before, and
  -- however many events each run logs, one after the other and each line written: each run appends a
  -- line for each of its calls in order, with its time, event and details, and the lines of a run
  -- are a chain of hashes that an auditor accepts from the first hash on.
  pub log_runs-IsChained :
      (file : List LogEntry) (runs : List (List AuditCall))
      → All (λ cs. all_written cs ≡ true) runs
      → IsChained file runs (log_runs file runs)
  unfolding log_runs
  log_runs-IsChained file [] w = no_run
  log_runs-IsChained file (cs ∷ runs) (w, h) =
      one_run (lines_of first_audit_hash cs) (checks-lines_of first_audit_hash cs)
        (events-lines_of first_audit_hash cs)
        (subst (λ f. IsChained f runs (log_runs (log_all (start_of_audit file) cs).file runs))
          (log_all-lines_of (start_of_audit file) cs w)
          (log_runs-IsChained (log_all (start_of_audit file) cs).file runs h))
