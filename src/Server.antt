-- ===== src/Server.antt =====
-- src/server.rs, with `authenticate` of src/state/mod.rs and the digests of src/security.rs: which
-- requests are answered, and which of them reach a tool. Delays, clocks and logging are left out.
pub mod Uri
pub mod Compare
pub mod Access
pub mod Allowlist
use nexus_intelli_core.Prelude.{
  ℕ, suc, ◌+◌, Bool, true, false, not, ◌&&◌, ◌||◌, List, [], ◌∷◌, ◌++◌, Option, none, some, any,
  retain, length, if◌then◌else◌,
}
use nexus_intelli_core.Prelude.Text.{Text, codes, text_eq, text_starts_with}
use nexus_intelli_core.Json.{
  Value, null, bool, number, pos_int, string, array, object, end, field, of_items, get, as_str,
  as_array,
}
use nexus_intelli_core.Json.Access.{◌>>=◌, ◌or_else◌, unwrap_or, is_some}
use nexus_intelli_core.Privacy.Policy.{default_policy, sanitize_json_args, sanitize_output_text}
use nexus_intelli_core.Protocol.{
  JsonRpcRequest, JsonRpcResponse, request_of, success, error, text_content,
}
use nexus_intelli_core.Registry.{ProjectContext, project_containing}
use nexus_intelli_core.Server.Uri.{uri_to_path}
use nexus_intelli_core.Server.Compare.{Digest, constant_time_compare_hashes}
use nexus_intelli_core.Tools.Dispatch.{Timing, in_time, late, dispatch_tool}
use nexus_intelli_core.Tools.World.{Services, World, Reply, done, failed}

-- What the server is built with, besides the services of the tools.
pub record Config : Type 0 where
  pub services : Services
  pub auth_token_hash : Option Digest
  pub allowed_tools : Option (List Text)
  pub audit_log : Bool
  -- `compute_token_digest`, over the standard library's hasher
  pub compute_token_digest : Text → Digest
  -- `tools::tool_definitions`
  pub tool_definitions : List Value
  -- the wording of a failed `from_value::<JsonRpcRequest>`
  pub parse_error : Value → Text
  -- `env!("CARGO_PKG_VERSION")`
  pub version : Text

pub record AuditEvent : Type 0 where
  pub event : Text
  pub details : Value

pub record State : Type 0 where
  pub world : World
  pub client_authenticated : Bool
  pub auth_failure_count : ℕ
  -- the entries of the audit file, the latest first
  pub audit : List AuditEvent

pub data Method : Type 0 where
  initialize notification tools_list tools_call ping other : Method

abbrev pub option_cons {ℓ} : {A : Type ℓ} → Option A → List A → List A
option_cons none xs = xs
option_cons (some x) xs = x ∷ xs

module _ (cfg : Config) where
  open cfg use {services, auth_token_hash, allowed_tools, audit_log, compute_token_digest}

  log_audit_event : Text → Value → State → State
  log_audit_event event details s =
      if audit_log
      then record s { audit = (record { event = event; details = details }) ∷ s.audit }
      else s

  accepts : Option Digest → Text → Bool
  unfolding constant_time_compare_hashes
  accepts none token = false
  accepts (some expected) token = constant_time_compare_hashes expected (compute_token_digest token)

  -- `ServerState::authenticate`, and the reset of the failure count after it.
  authenticate : Text → State → State
  unfolding accepts
  authenticate token s =
      if accepts auth_token_hash token
      then record s { client_authenticated = true; auth_failure_count = 0 }
      else s

  -- The token of an `initialize` request: the first of the four places that is present.
  unfoldable pub token_opt : Value → Option Text
  token_opt params =
      (get (codes "auth_token") params
        or_else get (codes "token") params
        or_else (get (codes "_meta") params >>= get (codes "auth_token"))
        or_else (get (codes "_meta") params >>= get (codes "token")))
      >>= as_str

  authenticate_opt : Option Text → State → State
  unfolding authenticate
  authenticate_opt none s = s
  authenticate_opt (some token) s = authenticate token s

  first_uri : List Text → World → Option ProjectContext
  unfolding uri_to_path
  first_uri [] w = none
  first_uri (u ∷ us) w =
      (uri_to_path u >>= λ p. project_containing services.files p w.registry) or_else first_uri us w

  folder_uris : List Value → List Text
  folder_uris [] = []
  folder_uris (f ∷ fs) = elim (get (codes "uri") f >>= as_str) [
    | none ↦ folder_uris fs
    | some u ↦ u ∷ folder_uris fs
  ]

  uris : Value → List Text
  unfolding folder_uris
  uris params =
      let folders =
        folder_uris (unwrap_or (get (codes "workspaceFolders") params >>= as_array) []) in
      elim (get (codes "rootUri") params >>= as_str) [ none ↦ folders | some u ↦ u ∷ folders ]

  select_project_from_initialize : Value → State → State
  unfolding first_uri uris
  select_project_from_initialize params s = elim (first_uri (uris params) s.world) [
    | none ↦ s
    | some proj ↦ record s { world = record (s.world) { active_project_id = some proj.id } }
  ]

  pub server_info : Value
  server_info = object (
      field (codes "capabilities") (object (field (codes "tools") (object end) end)) (
        field (codes "protocolVersion") (string (codes "2024-11-05")) (
          field (codes "serverInfo")
            (object (
              field (codes "description")
                (string (codes "Semantic code analysis MCP server with Privacy Gateway"))
                (field (codes "name") (string (codes "NexusIntelliCore"))
                  (field (codes "version") (string cfg.version) end))))
            end)))

  welcome : Bool → Value → Value → State → State × JsonRpcResponse
  unfolding log_audit_event select_project_from_initialize server_info
  welcome token_present id params s =
      let logged =
        log_audit_event (codes "auth_success")
          (object (
            field (codes "method") (string (codes "initialize"))
              (field (codes "token_present") (bool token_present) end)))
          s in
      (select_project_from_initialize params logged, success id server_info)

  reject : Value → State → State × JsonRpcResponse
  unfolding log_audit_event
  reject id s =
      let fails = suc s.auth_failure_count in
      (
        log_audit_event (codes "auth_failure")
            (object (
              field (codes "consecutive_failures") (number (pos_int fails)) (
                field (codes "method") (string (codes "initialize")) (
                  field (codes "reason") (string (codes "missing or invalid authentication token"))
                    end))))
            (record s { auth_failure_count = fails }),
        error id 32001 (codes "Unauthorized: missing or invalid authentication token"),
      )

  token_accepted : Option Text → Bool
  unfolding accepts
  token_accepted none = false
  token_accepted (some token) = accepts auth_token_hash token

  handle_initialize : Value → Value → State → State × JsonRpcResponse
  unfolding welcome reject authenticate_opt token_accepted
  handle_initialize id params s =
      if is_some auth_token_hash
      then (let tried = authenticate_opt (token_opt params) s in
          if tried.client_authenticated
          then welcome (token_accepted (token_opt params)) id params tried
          else reject id tried)
      else welcome false id params s

  is_listed : Option (List Text) → Text → Bool
  is_listed none name = true
  is_listed (some allowed) name = any (text_eq name) allowed

  definition_listed : List Text → Value → Bool
  definition_listed allowed t = elim (get (codes "name") t >>= as_str) [
    | none ↦ false
    | some name ↦ any (λ tool. text_eq tool name) allowed
  ]

  filtered_tools : Option (List Text) → List Value
  unfolding definition_listed
  filtered_tools none = cfg.tool_definitions
  filtered_tools (some allowed) = retain (definition_listed allowed) cfg.tool_definitions

  unfoldable pub handle_tools_list : Value → State → State × JsonRpcResponse
  unfolding filtered_tools log_audit_event
  handle_tools_list id s =
      let tools = filtered_tools allowed_tools in
      (
        log_audit_event (codes "tools_list")
            (object (field (codes "count") (number (pos_int (length tools))) end)) s,
        success id (object (field (codes "tools") (array (of_items tools)) end)),
      )

  safe : Text → Text
  safe t = (sanitize_output_text services.engine default_policy t).0

  -- The result of a tool as a response; the elapsed time is left out of the log.
  tool_result : Value → Text → State × Reply → State × JsonRpcResponse
  unfolding safe log_audit_event
  tool_result id name (s, done result) = (
    log_audit_event (codes "tool_call_success")
        (object (field (codes "tool") (string (safe name)) end)) s,
    success id result,
  )
  tool_result id name (s, failed e) = (
    log_audit_event (codes "tool_call_failure")
        (object (field (codes "tool") (string (safe name)) end)) s,
    success id (
        object (
          field (codes "content")
            (array (of_items (text_content (codes "Internal error: " ++ safe e) ∷ [])))
            (field (codes "isError") (bool true) end))),
  )

  call_tool : Timing → Value → Text → Value → State → State × JsonRpcResponse
  unfolding tool_result dispatch_tool
  call_tool time id name args s =
      let started =
        log_audit_event (codes "tool_call_start")
          (object (
            field (codes "arguments") (sanitize_json_args services.engine default_policy args)
              (field (codes "tool") (string (safe name)) end)))
          s in
      let (w, reply) = dispatch_tool services time name args started.world in
      tool_result id name (record started { world = w }, reply)

  deny_tool : Value → Text → State → State × JsonRpcResponse
  unfolding safe log_audit_event
  deny_tool id name s = (
    log_audit_event (codes "tool_denied")
        (object (
          field (codes "reason") (string (codes "tool not allowed in security configuration"))
            (field (codes "tool") (string (safe name)) end)))
        s,
    error id 32003 (codes "Access denied: tool '" ++ (safe name ++ codes "' is not allowed")),
  )

  handle_tool_call : Timing → Value → Value → State → State × JsonRpcResponse
  unfolding is_listed deny_tool call_tool
  handle_tool_call time id params s = elim (get (codes "name") params >>= as_str) [
    | none ↦ (s, error id 32602 (codes "Missing 'name' in tool call"))
    | some name ↦
        if is_listed allowed_tools name
        then call_tool time id name (unwrap_or (get (codes "arguments") params) (object end)) s
        else deny_tool id name s
  ]

  unauthorized : Value → Text → State → State × JsonRpcResponse
  unfolding log_audit_event
  unauthorized id method s = (
    log_audit_event (codes "auth_failure")
        (object (
          field (codes "method") (string method) (
            field (codes "reason")
              (string (codes "unauthenticated request received before initialization")) end)))
        s,
    error id 32001 (codes "Unauthorized: client must authenticate during initialization"),
  )

  -- The arms of the `match` on the method.
  arm_of : Text → Method
  arm_of method =
      if text_eq method (codes "initialize")
      then initialize
      else if text_starts_with method (codes "notifications/")
      then notification
      else if text_eq method (codes "tools/list")
      then tools_list
      else if text_eq method (codes "tools/call")
      then tools_call
      else if text_eq method (codes "ping")
      then ping
      else other

  handle_method : Method → Timing → Value → JsonRpcRequest → State → State × Option JsonRpcResponse
  unfolding handle_initialize handle_tools_list handle_tool_call
  handle_method initialize time id req s =
      let (s', r) = handle_initialize id req.params s in (s', some r)
  handle_method notification time id req s = (s, none)
  handle_method tools_list time id req s = let (s', r) = handle_tools_list id s in (s', some r)
  handle_method tools_call time id req s =
      let (s', r) = handle_tool_call time id req.params s in (s', some r)
  handle_method ping time id req s = (s, some (success id (object end)))
  handle_method other time id req s =
      (s, some (error id 32601 (codes "Method not found: " ++ req.method)))

  -- `handle_request`.
  unfoldable pub handle_request : Timing → JsonRpcRequest → State → State × Option JsonRpcResponse
  unfolding unauthorized arm_of handle_method
  handle_request time req s =
      let id = unwrap_or req.id null in
      if not s.client_authenticated && not (text_eq req.method (codes "initialize"))
      then (let (s', r) = unauthorized id req.method s in (s', some r))
      else handle_method (arm_of req.method) time id req s

  -- One round of the loop of src/main.rs.
  unfoldable pub handle_message : Timing → Value → State → State × Option JsonRpcResponse
  unfolding handle_request
  handle_message time msg s = elim (request_of msg) [
    | none ↦ (s, some (error null 32700 (codes "Parse error: " ++ cfg.parse_error msg)))
    | some req ↦ if text_eq req.jsonrpc (codes "2.0") then handle_request time req s else (
      s,
      some (
          error (unwrap_or req.id null) 32600
            (codes "Unsupported jsonrpc version: " ++ req.jsonrpc)),
    )
  ]

  -- The loop of src/main.rs, with the responses in order.
  unfoldable pub serve : List (Timing × Value) → State → State × List JsonRpcResponse
  serve [] s = (s, [])
  serve ((time, msg) ∷ ms) s =
      let (s', r) = handle_message time msg s in
      let (s'', rs) = serve ms s' in (s'', option_cons r rs)

  -- `ServerState::empty`: authenticated from the start if no token is required.
  abbrev pub start : World → State
  start w = record {
    world = w;
    client_authenticated = not (is_some auth_token_hash);
    auth_failure_count = 0;
    audit = [];
  }
