-- ===== src/Tools/Dispatch.antt =====
-- The dispatcher of src/tools/mod.rs: routing, the project scope, the privacy pass over every
-- result, and the cache.
pub mod Clean
use nexus_intelli_core.Prelude.{
  ℕ, Bool, true, false, not, List, [], ◌∷◌, ◌++◌, Option, none, some, if◌then◌else◌,
}
use nexus_intelli_core.Prelude.Text.{Text, codes, text_eq}
use nexus_intelli_core.Prelude.Decimal.{to_dec}
use nexus_intelli_core.Json.{
  Value, null, bool, number, string, array, object, end, field, insert_field, as_str, get,
}
use nexus_intelli_core.Json.Access.{◌>>=◌, ◌or_else◌, is_some}
use nexus_intelli_core.Protocol.{error_response}
use nexus_intelli_core.Privacy.Policy.{default_policy, sanitize_json_args, sanitize_output_text}
use nexus_intelli_core.Registry.{
  FilePath, ProjectContext, Result, ok, err, get_project, project_containing, resolve_project,
}
use nexus_intelli_core.Tools.{is_project_scoped, tool_is_cacheable, is_expensive_tool}
use nexus_intelli_core.Tools.Arguments.{
  owner_file, str_arg, call, bad, refused, project_call, Parsed,
}
use nexus_intelli_core.Tools.Projects.{
  list_projects, register_project_tool, set_active_project, unregister_project_tool,
}
use nexus_intelli_core.Tools.World.{
  ToolCacheKey, ToolCache, cached, Reply, done, failed, World, Services, is_error, display,
  invalidate_tool_cache_for_file, drop_entries, count_hit, count_miss, count_rejection,
  count_invocation,
}

-- `explicit_project_ref`.
abbrev explicit_project_ref : Value → Option Text
explicit_project_ref args =
    str_arg (codes "project_id") args
    or_else str_arg (codes "root_path") args
    or_else str_arg (codes "project") args

-- `tag_with_project`.
unfoldable pub tag_with_project : ProjectContext → Value → Value
tag_with_project proj (object fs) = object (
    insert_field (codes "project")
      (object (
        field (codes "id") (string proj.id)
          (field (codes "root") (string (display proj.root)) end)))
      fs)
tag_with_project proj v = v

abbrev tag_reply : ProjectContext → Reply → Reply
tag_reply proj (done v) = done (tag_with_project proj v)
tag_reply proj (failed e) = failed e

abbrev or_session : Option ProjectContext → Result ProjectContext → Result ProjectContext
or_session (some p) r = ok p
or_session none r = r

-- The tools that are not about one project.
pub data Global : Type 0 where
  to_list to_register to_unregister to_set_active : Global

abbrev pub global_tool : Text → Option Global
global_tool name =
    if text_eq name (codes "list_projects")
    then some to_list
    else if text_eq name (codes "register_project")
    then some to_register
    else if text_eq name (codes "unregister_project")
    then some to_unregister
    else if text_eq name (codes "set_active_project")
    then some to_set_active
    else none

-- How a call fares: it ends in time, with or without a permit of the semaphore, or it is cancelled
-- after `secs` seconds.
pub data Timing : Type 0 where
  in_time : Bool → Timing
  late : ℕ → (World → World) → Timing

module _ (sv : Services) where
  open sv use {files, engine, describe, handle, canonicalize_json}

  unfoldable pub apply_final_privacy_pass : Value → Value
  apply_final_privacy_pass v = sanitize_json_args engine default_policy v

  abbrev clean_error : Text → Value
  clean_error m = apply_final_privacy_pass (error_response m)

  abbrev clean_reply : Reply → Reply
  clean_reply (done v) = done (apply_final_privacy_pass v)
  clean_reply (failed e) = failed e

  unfoldable pub resolve_scope : Value → World → Result ProjectContext
  resolve_scope args w = elim (explicit_project_ref args) [
    | some k ↦ get_project files (some k) w.registry
    | none ↦
        or_session (owner_file args >>= λ f. project_containing files f w.registry)
          (resolve_project files w.active_project_id none w.registry)
  ]

  run_parsed : Parsed → ProjectContext → World → World × Reply
  run_parsed (bad m) proj w = (w, failed m)
  run_parsed (refused m) proj w = (w, done (error_response m))
  run_parsed (call c) proj w = let (reply, gone) = handle c proj w in (drop_entries gone w, reply)

  -- `dispatch_project_tool`, and the tag on its result.
  dispatch_project_tool : ProjectContext → Text → Value → World → World × Reply
  unfolding run_parsed tag_with_project
  dispatch_project_tool proj name args w =
      let (w', reply) = run_parsed (project_call name args) proj w in (w', tag_reply proj reply)

  dispatch_scoped : Text → Value → World → World × Reply
  unfolding dispatch_project_tool
  dispatch_scoped name args w = elim (resolve_scope args w) [
    | err e ↦ (w, done (error_response (describe e)))
    | ok proj ↦ dispatch_project_tool proj name args w
  ]

  dispatch_global : Global → Value → World → World × Reply
  dispatch_global to_list args w = (w, list_projects sv w)
  dispatch_global to_register args w = register_project_tool sv args w
  dispatch_global to_unregister args w = unregister_project_tool sv args w
  dispatch_global to_set_active args w = set_active_project sv args w

  -- `raw` of `dispatch_tool_uncached`, before the privacy pass.
  dispatch_raw : Text → Value → World → World × Reply
  unfolding dispatch_global dispatch_scoped
  dispatch_raw name args w = elim (global_tool name) [
    | some g ↦ dispatch_global g args w
    | none ↦
        if is_project_scoped name
        then dispatch_scoped name args w
        else (w, done (error_response (codes "Unknown tool: " ++ name)))
  ]

  unfoldable pub dispatch_tool_uncached : Text → Value → World → World × Reply
  unfolding dispatch_raw apply_final_privacy_pass
  dispatch_tool_uncached name args w =
      let (w', raw) = dispatch_raw name args w in (w', clean_reply raw)

  -- An `Err` of a cacheable tool becomes an error result.
  error_value : Reply → Value
  unfolding apply_final_privacy_pass
  error_value (done v) = v
  error_value (failed e) =
      clean_error
        (codes "Internal tool error: " ++ (sanitize_output_text engine default_policy e).0)

  -- Insert, unless the result is an error.
  store : ToolCacheKey → Value → World → World
  store key v w = if is_error v then w else record w { tool_cache = (key, v) ∷ w.tool_cache }

  -- An error result clears the entries that name the project's root.
  after_result : ProjectContext → World → Value → World × Reply
  after_result proj w v =
      (if is_error v then invalidate_tool_cache_for_file sv proj.root w else w, done v)

  compute : ToolCacheKey → Text → Value → World → World × Value
  unfolding store error_value dispatch_tool_uncached
  compute key name args w =
      let (w', reply) = dispatch_tool_uncached name args w in
      (store key (error_value reply) w', error_value reply)

  dispatch_in : ProjectContext → Text → Value → World → World × Reply
  unfolding compute after_result
  dispatch_in proj name args w =
      let key : ToolCacheKey = record {
        root_path = proj.root;
        tool_name = name;
        canonical_args = canonicalize_json args;
      } in
      elim (cached key w.tool_cache) [
        | some v ↦ after_result proj (count_hit w) v
        | none ↦ let (w', v) = compute key name args (count_miss w) in after_result proj w' v
      ]

  dispatch_cacheable : Text → Value → World → World × Reply
  unfolding dispatch_in apply_final_privacy_pass
  dispatch_cacheable name args w = elim (resolve_scope args w) [
    | err e ↦ (w, done (clean_error (describe e)))
    | ok proj ↦ dispatch_in proj name args w
  ]

  abbrev is_angular : World → Bool
  is_angular w = elim (get_project files none w.registry) [
    | ok p ↦ p.is_angular_project
    | err e ↦ false
  ]

  admitted : Text → Value → World → World × Reply
  unfolding dispatch_cacheable dispatch_tool_uncached
  admitted name args w =
      if tool_is_cacheable (is_angular w) name
      then dispatch_cacheable name args w
      else dispatch_tool_uncached name args w

  abbrev busy : Text → Text
  busy name =
      codes "Tool '"
      ++ (name
          ++ codes
              "' is temporarily unavailable: server is processing too many concurrent requests. Please retry in a few seconds.")

  -- `dispatch_tool_internal`. The flag says whether a permit of the semaphore came in time.
  unfoldable pub dispatch_tool_internal : Bool → Text → Value → World → World × Reply
  unfolding admitted apply_final_privacy_pass
  dispatch_tool_internal permit name args w =
      let counted = count_invocation name w in
      if is_expensive_tool (is_angular counted) name
      then (if permit
          then admitted name args counted
          else (count_rejection counted, done (clean_error (busy name))))
      else admitted name args counted

  -- The reply of `dispatch_tool` after the timeout of `secs` seconds.
  unfoldable pub timed_out : Text → ℕ → Reply
  unfolding apply_final_privacy_pass
  timed_out name secs = done (
      clean_error (
        codes "Tool '"
        ++ (name
            ++ (codes "' timed out after "
                ++ (to_dec secs
                    ++ codes " seconds. Operation cancelled to preserve server responsiveness.")))))

  -- `dispatch_tool`: in time, or cut off with what it had changed by then.
  unfoldable pub dispatch_tool : Timing → Text → Value → World → World × Reply
  unfolding dispatch_tool_internal timed_out
  dispatch_tool (in_time permit) name args w = dispatch_tool_internal permit name args w
  dispatch_tool (late secs changes) name args w = (changes w, timed_out name secs)
