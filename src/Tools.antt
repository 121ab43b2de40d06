-- ===== src/Tools.antt =====
-- src/tools/mod.rs and src/tools/definitions.rs: the table of tools, the arguments of a call, and
-- (in the children) the dispatcher with its cache.
pub mod Arguments
pub mod World
pub mod Projects
pub mod Dispatch
use nexus_intelli_core.Prelude.{
  ℕ, Bool, true, false, List, [], ◌∷◌, ◌++◌, Option, none, some, any, find, if◌then◌else◌,
}
use nexus_intelli_core.Prelude.Text.{Text, codes, text_eq}

-- A `ToolDefinition`, less its schema.
pub record ToolDefinition : Type 0 where
  pub name : Text
  pub cacheable : Bool
  pub expensive : Bool

abbrev tool : Text → Bool → Bool → ToolDefinition
tool n c e = record { name = n; cacheable = c; expensive = e }

abbrev pub all_tool_definitions : List ToolDefinition
all_tool_definitions =
    tool (codes "get_project_structure") true true
    ∷ tool (codes "get_file_outline") true false
    ∷ tool (codes "inspect_symbol") true false
    ∷ tool (codes "lint_file") false true
    ∷ tool (codes "get_dependencies_graph") true true
    ∷ tool (codes "query_ast") true false
    ∷ tool (codes "read_config_file") true false
    ∷ tool (codes "search_design_patterns") true true
    ∷ tool (codes "audit_security_measures") true true
    ∷ tool (codes "refresh_index") false true
    ∷ tool (codes "get_server_stats") false false
    ∷ tool (codes "get_module_summary") true false
    ∷ tool (codes "generate_project_docs") true true
    ∷ tool (codes "list_projects") false false
    ∷ tool (codes "register_project") false true
    ∷ tool (codes "unregister_project") false false
    ∷ tool (codes "set_active_project") false false
    ∷ []

abbrev pub angular_tool_definitions : ToolDefinition
angular_tool_definitions = tool (codes "analyze_angular_component") true false

-- The Angular tool is registered for an Angular project only.
unfoldable pub registered_tool_definitions : Bool → List ToolDefinition
registered_tool_definitions is_angular =
    if is_angular
    then all_tool_definitions ++ (angular_tool_definitions ∷ [])
    else all_tool_definitions

abbrev pub is_some_and : Option ToolDefinition → (ToolDefinition → Bool) → Bool
is_some_and none f = false
is_some_and (some d) f = f d

unfoldable pub tool_is_cacheable : Bool → Text → Bool
unfolding registered_tool_definitions
tool_is_cacheable angular name =
    is_some_and (find (λ d. text_eq d.name name) (registered_tool_definitions angular))
      (λ d. d.cacheable)

unfoldable pub is_expensive_tool : Bool → Text → Bool
unfolding registered_tool_definitions
is_expensive_tool angular name =
    is_some_and (find (λ d. text_eq d.name name) (registered_tool_definitions angular))
      (λ d. d.expensive)

abbrev pub project_scoped_tools : List Text
project_scoped_tools =
    codes "get_project_structure"
    ∷ codes "get_file_outline"
    ∷ codes "inspect_symbol"
    ∷ codes "lint_file"
    ∷ codes "get_dependencies_graph"
    ∷ codes "query_ast"
    ∷ codes "read_config_file"
    ∷ codes "search_design_patterns"
    ∷ codes "audit_security_measures"
    ∷ codes "refresh_index"
    ∷ codes "get_server_stats"
    ∷ codes "analyze_angular_component"
    ∷ codes "get_module_summary"
    ∷ codes "generate_project_docs"
    ∷ []

unfoldable pub is_project_scoped : Text → Bool
is_project_scoped name = any (text_eq name) project_scoped_tools
