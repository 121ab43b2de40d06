-- ===== src/Tools/Arguments.antt =====
-- The arguments of a project tool: `FilePathArgs`, `require_str`, `require_file_path` and the
-- routing table of `dispatch_project_tool` in src/tools/mod.rs.
pub mod Valid
use Prim.Native.Nat.{min}
use mathlib.Core.Path.{subst}
use nexus_intelli_core.Prelude.{
  ℕ, ◌≤◌, Bool, true, false, List, [], ◌∷◌, ◌++◌, ◌≡◌, inl, inr, arith, Option, none, some, any,
  find, if◌then◌else◌, Bool-cases, Option-cases,
}
use nexus_intelli_core.Prelude.Text.{Text, codes, text_eq}
use nexus_intelli_core.Json.{
  Value, null, string, array, object, nil, cons, Fields, end, field, get, as_str, as_bool, as_u64,
  as_array,
}
use nexus_intelli_core.Json.Access.{◌>>=◌, ◌or_else◌, unwrap_or}

pub record FilePathArgs : Type 0 where
  pub file_path : Option Text
  pub component_path : Option Text

-- `Option<String>`: a string or `null`.
abbrev optional_string : Value → Option (Option Text)
optional_string null = some none
optional_string (string s) = some (some s)
optional_string _ = none

abbrev file_path_names : List Text
file_path_names = codes "file_path" ∷ codes "FilePath" ∷ codes "filepath" ∷ codes "file-path" ∷ []

abbrev component_path_names : List Text
component_path_names =
    codes "component_path"
    ∷ codes "ComponentPath"
    ∷ codes "componentPath"
    ∷ codes "component-path"
    ∷ []

-- The values under any of these names.
named : List Text → Fields → List Value
named names end = []
named names (field k v fs) =
    let rest = named names fs in if any (text_eq k) names then v ∷ rest else rest

-- An absent field is `None`; a field given under two of its names is an error.
one_of : List Value → Option (Option Text)
one_of [] = some none
one_of (v ∷ []) = optional_string v
one_of (_ ∷ _ ∷ _) = none

both : Option (Option Text) → Option (Option Text) → Option FilePathArgs
both f c = do
  file ← f
  component ← c
  some (record { file_path = file; component_path = component })

-- The derived `Deserialize` with its aliases.
unfoldable pub file_path_args : Value → Option FilePathArgs
unfolding named one_of both
file_path_args (object fs) =
    both (one_of (named file_path_names fs)) (one_of (named component_path_names fs))
file_path_args (array (cons f (cons c nil))) = both (optional_string f) (optional_string c)
file_path_args _ = none

-- The file that a call is about, for `resolve_scope`.
unfoldable pub owner_file : Value → Option Text
unfolding file_path_args
owner_file args = do a ← file_path_args args; a.file_path or_else a.component_path

pub record DocsArgs : Type 0 where
  pub sections : List Text
  pub public_only : Bool
  pub max_files : ℕ
  pub file_offset : ℕ
  pub language : Text

-- A call of a project tool, its arguments read.
pub data ToolCall : Type 0 where
  project_structure dependencies_graph design_patterns audit_measures : ToolCall
  refresh_index server_stats : ToolCall
  file_outline lint_file read_config angular_component : Text → ToolCall
  inspect_symbol : Text → Text → Text → Bool → Option Text → ToolCall
  query_ast : Text → Text → ToolCall
  module_summary : Text → Bool → ToolCall
  project_docs : DocsArgs → ToolCall

-- `bad` is an `Err`, `refused` an error result of the tool. What serde says of a value that does not
-- fit is left out of the message.
pub data Parsed : Type 0 where
  call : ToolCall → Parsed
  bad : Text → Parsed
  refused : Text → Parsed

abbrev pub str_arg : Text → Value → Option Text
str_arg k args = get k args >>= as_str

abbrev bool_or : Text → Value → Bool → Bool
bool_or k args d = unwrap_or (get k args >>= as_bool) d

abbrev or_bad : Option Text → Text → (Text → Parsed) → Parsed
or_bad none message k = bad message
or_bad (some s) message k = k s

abbrev file_of : Option FilePathArgs → (Text → Parsed) → Parsed
file_of none k = bad (codes "Invalid argument format for file_path: ")
file_of (some a) k =
    or_bad a.file_path
      (codes "Missing required argument: file_path (aliases: FilePath, filepath, file-path)") k

abbrev file_or_component_of : Option FilePathArgs → (Text → Parsed) → Parsed
file_or_component_of none k = bad (codes "Invalid argument format for file_path/component_path: ")
file_or_component_of (some a) k =
    or_bad (a.file_path or_else a.component_path)
      (codes
        "Missing required argument: file_path (aliases: FilePath, filepath, file-path) or legacy component_path")
      k

-- `require_file_path`, `require_file_path_or_component_path` and `require_str`.
with_file : Value → (Text → Parsed) → Parsed
with_file args = file_of (file_path_args args)

with_either : Value → (Text → Parsed) → Parsed
with_either args = file_or_component_of (file_path_args args)

with_str : Text → Value → (Text → Parsed) → Parsed
with_str name args = or_bad (str_arg name args) (codes "Missing required argument: " ++ name)

abbrev match_modes : List Text
match_modes = codes "auto" ∷ codes "simple" ∷ codes "qualified" ∷ []

abbrev pub is_match_mode : Text → Bool
is_match_mode m = any (text_eq m) match_modes

symbol_call : Value → Text → Text → Parsed
symbol_call args file symbol =
    let match_mode = unwrap_or (str_arg (codes "match_mode") args) (codes "auto") in
    if is_match_mode match_mode
    then call (
        inspect_symbol file symbol match_mode (bool_or (codes "return_all_matches") args false)
          (str_arg (codes "signature_hint") args))
    else refused (
        codes "Invalid match_mode '"
        ++ match_mode
        ++ codes "'. Allowed values: auto, simple, qualified")

abbrev strings : List Value → List Text
strings [] = []
strings (string s ∷ vs) = s ∷ strings vs
strings (_ ∷ vs) = strings vs

abbrev default_sections : List Text
default_sections = codes "overview" ∷ codes "usage" ∷ codes "api" ∷ codes "use_cases" ∷ []

abbrev capped : Option ℕ → ℕ
capped none = 50
capped (some n) = min n 150

abbrev sections_of : Option (List Value) → List Text
sections_of none = default_sections
sections_of (some vs) = strings vs

-- `usize::try_from` keeps every `u64` on a 64-bit machine.
docs_args : Value → DocsArgs
docs_args args = record {
  sections = sections_of (get (codes "sections") args >>= as_array);
  public_only = bool_or (codes "public_only") args true;
  max_files = capped (get (codes "max_files") args >>= as_u64);
  file_offset = unwrap_or (get (codes "file_offset") args >>= as_u64) 0;
  language = unwrap_or (str_arg (codes "language") args) (codes "en");
}

-- The arms of the `match` of `dispatch_project_tool`, and the name that selects each.
pub data Arm : Type 0 where
  on_structure on_outline on_symbol on_lint on_dependencies on_query on_config : Arm
  on_patterns on_audit on_refresh on_stats on_angular on_summary on_docs : Arm

abbrev pub arms : List (Text × Arm)
arms =
    (codes "get_project_structure", on_structure)
    ∷ (codes "get_file_outline", on_outline)
    ∷ (codes "inspect_symbol", on_symbol)
    ∷ (codes "lint_file", on_lint)
    ∷ (codes "get_dependencies_graph", on_dependencies)
    ∷ (codes "query_ast", on_query)
    ∷ (codes "read_config_file", on_config)
    ∷ (codes "search_design_patterns", on_patterns)
    ∷ (codes "audit_security_measures", on_audit)
    ∷ (codes "refresh_index", on_refresh)
    ∷ (codes "get_server_stats", on_stats)
    ∷ (codes "analyze_angular_component", on_angular)
    ∷ (codes "get_module_summary", on_summary)
    ∷ (codes "generate_project_docs", on_docs)
    ∷ []

-- An arm up to the call of its handler.
unfoldable pub arm_call : Arm → Value → Parsed
unfolding symbol_call docs_args with_file with_either with_str
arm_call on_structure args = call project_structure
arm_call on_outline args = with_file args (λ f. call (file_outline f))
arm_call on_symbol args =
    with_file args (λ f. with_str (codes "symbol_name") args (symbol_call args f))
arm_call on_lint args = with_file args (λ f. call (lint_file f))
arm_call on_dependencies args = call dependencies_graph
arm_call on_query args =
    with_file args (λ f. with_str (codes "query") args (λ q. call (query_ast f q)))
arm_call on_config args = with_file args (λ f. call (read_config f))
arm_call on_patterns args = call design_patterns
arm_call on_audit args = call audit_measures
arm_call on_refresh args = call refresh_index
arm_call on_stats args = call server_stats
arm_call on_angular args = with_either args (λ f. call (angular_component f))
arm_call on_summary args =
    with_file args (λ f. call (module_summary f (bool_or (codes "public_only") args false)))
arm_call on_docs args = call (project_docs (docs_args args))

unfoldable pub project_call : Text → Value → Parsed
unfolding arm_call
project_call name args = elim (find (λ a. text_eq a.0 name) arms) [
  | none ↦ refused (codes "Unknown tool: " ++ name)
  | some a ↦ arm_call a.1 args
]
