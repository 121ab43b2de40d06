-- ===== src/Tests/Calls.antt =====
-- Calls of tools, one of them from the cache.
use nexus_intelli_core.Prelude.{true, false, List, [], ◌∷◌, none, some, ◌≡◌, refl, All}
use nexus_intelli_core.Prelude.Text.{codes, text_eq}
use nexus_intelli_core.Json.{Value, string, object, field, end, get, insert_field}
use nexus_intelli_core.Json.Paths.{Move, go, at}
use nexus_intelli_core.Privacy.Policy.{is_sensitive, sanitize_json_args, redacted}
use nexus_intelli_core.Registry.{get_project, resolve_project}
use nexus_intelli_core.Tools.{is_expensive_tool, is_project_scoped, tool_is_cacheable}
use nexus_intelli_core.Tools.Arguments.{
  ToolCall, inspect_symbol, owner_file, project_call, file_path_args,
}
use nexus_intelli_core.Tools.Arguments.Valid.{IsValid, project_call-IsValid}
use nexus_intelli_core.Tools.World.{World, Reply, done, failed, is_error, cached, key_eq}
use nexus_intelli_core.Tools.Dispatch.{dispatch_tool_internal, resolve_scope}
use nexus_intelli_core.Tools.Dispatch.Clean.{
  ToolRequest, run_calls, cache_no_errors, dispatch-hidden,
}
use nexus_intelli_core.Tests.Fixtures.{services, world, app}

abbrev symbol_args : Value
symbol_args = object (
    field (codes "file_path") (string (codes "a.rs"))
      (field (codes "symbol_name") (string (codes "f")) end))

abbrev inspect_f : ToolCall
inspect_f = inspect_symbol (codes "a.rs") (codes "f") (codes "auto") false none

project_call-IsValid_example : IsValid inspect_f
unfolding project_call text_eq file_path_args get
project_call-IsValid_example =
    project_call-IsValid (codes "inspect_symbol") symbol_args inspect_f refl

abbrev ready : World
ready = record world {
  registry = record {
    projects =
        (codes "app", record { id = codes "app"; root = app; is_angular_project = false }) ∷ [];
    default_project_id = some (codes "app");
  };
}

abbrev structure : ToolRequest
structure = record { permit = true; name = codes "get_project_structure"; args = object end }

cache_no_errors_example :
    All
      (λ e. is_error e.1 ≡ false)
      (run_calls services (structure ∷ structure ∷ []) ready).tool_cache
cache_no_errors_example = cache_no_errors services (structure ∷ structure ∷ []) ready refl

abbrev value_of : Reply → Value
value_of (done v) = v
value_of (failed e) = string e

abbrev answer : Value
answer =
    value_of
      (dispatch_tool_internal services true structure.name structure.args
        (run_calls services (structure ∷ []) ready)).1

abbrev nowhere : List Move
nowhere = []

dispatch-hidden_example : (string redacted ≡ string redacted) × (nowhere ≡ [])
unfolding dispatch_tool_internal run_calls is_sensitive sanitize_json_args at go text_eq
    is_expensive_tool get_project tool_is_cacheable resolve_scope get owner_file resolve_project
    cached is_project_scoped project_call insert_field key_eq
dispatch-hidden_example =
    dispatch-hidden services (structure ∷ []) ready structure answer [] (codes "token") nowhere
      (string redacted) refl refl refl refl
