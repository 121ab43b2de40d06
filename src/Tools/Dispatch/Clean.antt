-- ===== src/Tools/Dispatch/Clean.antt =====
-- What leaves the dispatcher of src/tools/mod.rs, from the cache or freshly computed, has passed the
-- privacy gateway.
use mathlib.Core.Path.{subst}
use nexus_intelli_core.Prelude.{
  Bool, true, false, List, [], ◌∷◌, ◌++◌, some, ◌≡◌, inl, inr, All, retain, Bool-cases,
  Option-cases,
}
use nexus_intelli_core.Prelude.Text.{Text}
use nexus_intelli_core.Json.{Value, string}
use nexus_intelli_core.Json.Paths.{Move, key, at}
use nexus_intelli_core.Privacy.Gateway.{sanitize_json-hidden}
use nexus_intelli_core.Privacy.Policy.{default_policy, redacted, is_sensitive}
use nexus_intelli_core.Registry.{ProjectContext, Result-cases}
use nexus_intelli_core.Tools.Dispatch.{
  Global, to_list, to_register, to_unregister, to_set_active, global_tool, apply_final_privacy_pass,
  clean_reply, run_parsed, dispatch_scoped, dispatch_global, dispatch_raw, dispatch_tool_uncached,
  error_value, store, after_result, dispatch_in, dispatch_cacheable, admitted, is_angular,
  dispatch_tool_internal, resolve_scope,
}
use nexus_intelli_core.Tools.Arguments.{Parsed, call, bad, refused, project_call}
use nexus_intelli_core.Tools.Projects.Keeps.{
  register-tool_cache, set_active-tool_cache, unregister-tool_cache,
}
use nexus_intelli_core.Tools.World.{
  ToolCacheKey, ToolCache, cached, Reply, done, failed, World, Services, is_error,
  invalidate_tool_cache_for_file, key_eq, count_hit, count_miss, count_invocation,
}
use nexus_intelli_core.Tools.{is_project_scoped, tool_is_cacheable, is_expensive_tool}

module _ (P : Value → Type 0) where
  abbrev Holding : ToolCache → Type 0
  Holding c = All (λ e. P e.1) c

  cached-Holding :
      (k : ToolCacheKey) (c : ToolCache) (v : Value) → Holding c → cached k c ≡ some v → P v
  unfolding cached
  cached-Holding k [] v h e = cc
  cached-Holding k ((j, u) ∷ c) v (p, h) e = elim (Bool-cases (key_eq j k)) [
    | inl same ↦ let found : some u ≡ some v = rw same at e in let eq : u ≡ v = cc in subst P eq p
    | inr other ↦ cached-Holding k c v h (rw other at e)
  ]

  retain-Holding :
      (f : ToolCacheKey × Value → Bool) (c : ToolCache) → Holding c → Holding (retain f c)
  retain-Holding f [] h = tt
  retain-Holding f (e ∷ c) (p, h) = elim (Bool-cases (f e)) [
    | inl kept ↦ rw (kept, retain) (p, retain-Holding f c h)
    | inr gone ↦ rw (gone, retain) (retain-Holding f c h)
  ]

module _ (sv : Services) where
  -- Under a sensitive key there is only the text "[REDACTED]".
  abbrev pub IsClean : Value → Type 0
  IsClean v =
      (pre : List Move) (k : Text) (post : List Move) (w : Value)
      → is_sensitive sv.engine default_policy k ≡ true
      → at (pre ++ (key k ∷ post)) v ≡ some w
      → (w ≡ string redacted) × (post ≡ [])

  pass-IsClean : (v : Value) → IsClean (apply_final_privacy_pass sv v)
  unfolding apply_final_privacy_pass
  pass-IsClean v pre k post w = sanitize_json-hidden sv.engine default_policy pre k post v w

  abbrev CleanReply : Reply → Type 0
  CleanReply (done v) = IsClean v
  CleanReply (failed e) = Unit

  -- The cache holds clean results that are no errors.
  abbrev pub CleanCache : ToolCache → Type 0
  CleanCache c = All (λ e. IsClean e.1 × (is_error e.1 ≡ false)) c

  abbrev Good : World × Reply → Type 0
  Good r = CleanCache r.0.tool_cache × CleanReply r.1

  invalidate-CleanCache :
      (proj : ProjectContext) (w : World)
      → CleanCache w.tool_cache
      → CleanCache (invalidate_tool_cache_for_file sv proj.root w).tool_cache
  unfolding invalidate_tool_cache_for_file
  invalidate-CleanCache proj w h = retain-Holding _ _ w.tool_cache h

  run_parsed-CleanCache :
      (p : Parsed) (proj : ProjectContext) (w : World)
      → CleanCache w.tool_cache
      → CleanCache (run_parsed sv p proj w).0.tool_cache
  unfolding run_parsed
  run_parsed-CleanCache (bad m) proj w h = h
  run_parsed-CleanCache (refused m) proj w h = h
  run_parsed-CleanCache (call c) proj w h = retain-Holding _ _ w.tool_cache h

  dispatch_global-CleanCache :
      (g : Global) (args : Value) (w : World)
      → CleanCache w.tool_cache
      → CleanCache (dispatch_global sv g args w).0.tool_cache
  unfolding dispatch_global
  dispatch_global-CleanCache to_list args w h = h
  dispatch_global-CleanCache to_register args w h = rw (register-tool_cache sv args w) h
  dispatch_global-CleanCache to_set_active args w h = rw (set_active-tool_cache sv args w) h
  dispatch_global-CleanCache to_unregister args w h = elim (unregister-tool_cache sv args w) [
    | inl same ↦ rw same h
    | inr emptied ↦ rw emptied tt
  ]

  dispatch_scoped-CleanCache :
      (name : Text) (args : Value) (w : World)
      → CleanCache w.tool_cache
      → CleanCache (dispatch_scoped sv name args w).0.tool_cache
  unfolding dispatch_scoped
  dispatch_scoped-CleanCache name args w h = elim (Result-cases (resolve_scope sv args w)) [
    | inr (x, missing) ↦ rw (missing, dispatch_scoped) h
    | inl (proj, found) ↦
        rw (found, dispatch_scoped) (run_parsed-CleanCache (project_call name args) proj w h)
  ]

  dispatch_raw-CleanCache :
      (name : Text) (args : Value) (w : World)
      → CleanCache w.tool_cache
      → CleanCache (dispatch_raw sv name args w).0.tool_cache
  unfolding dispatch_raw
  dispatch_raw-CleanCache name args w h = elim (Option-cases (global_tool name)) [
    | inr (g, found) ↦ rw (found, dispatch_raw) (dispatch_global-CleanCache g args w h)
    | inl unknown ↦ elim (Bool-cases (is_project_scoped name)) [
      | inr other ↦ rw (unknown, other, dispatch_raw) h
      | inl scoped ↦ rw (unknown, scoped, dispatch_raw) (dispatch_scoped-CleanCache name args w h)
    ]
  ]

  clean_reply-CleanReply : (r : Reply) → CleanReply (clean_reply sv r)
  clean_reply-CleanReply (done v) = pass-IsClean v
  clean_reply-CleanReply (failed e) = tt

  uncached-Good :
      (name : Text) (args : Value) (w : World)
      → CleanCache w.tool_cache
      → Good (dispatch_tool_uncached sv name args w)
  unfolding dispatch_tool_uncached
  uncached-Good name args w h = (dispatch_raw-CleanCache name args w h, clean_reply-CleanReply _)

  error_value-IsClean : (r : Reply) → CleanReply r → IsClean (error_value sv r)
  unfolding error_value
  error_value-IsClean (done v) h = h
  error_value-IsClean (failed e) h = pass-IsClean _

  store-CleanCache :
      (k : ToolCacheKey) (v : Value) (w : World)
      → CleanCache w.tool_cache
      → IsClean v
      → CleanCache (store sv k v w).tool_cache
  unfolding store
  store-CleanCache k v w h c = elim (Bool-cases (is_error v)) [
    | inl error' ↦ rw error' h
    | inr fine ↦ rw fine ((c, fine), h)
  ]

  after_result-Good :
      (proj : ProjectContext) (w : World) (v : Value)
      → CleanCache w.tool_cache
      → IsClean v
      → Good (after_result sv proj w v)
  unfolding after_result
  after_result-Good proj w v h c = elim (Bool-cases (is_error v)) [
    | inl error' ↦ rw error' (invalidate-CleanCache proj w h, c)
    | inr fine ↦ rw fine (h, c)
  ]

  dispatch_in-Good :
      (proj : ProjectContext) (name : Text) (args : Value) (w : World)
      → CleanCache w.tool_cache
      → Good (dispatch_in sv proj name args w)
  unfolding dispatch_in
  dispatch_in-Good proj name args w h =
      let k : ToolCacheKey = record {
        root_path = proj.root;
        tool_name = name;
        canonical_args = sv.canonicalize_json args;
      } in
      elim (Option-cases (cached k w.tool_cache)) [
        | inr (v, hit) ↦
            rw (hit, dispatch_in)
              (after_result-Good proj (count_hit w) v h (cached-Holding _ k w.tool_cache v h hit).0)
        | inl miss ↦
            let (kept, clean) = uncached-Good name args (count_miss w) h in
            let value = error_value-IsClean _ clean in
            rw (miss, dispatch_in)
              (after_result-Good proj _ _ (store-CleanCache k _ _ kept value) value)
      ]

  admitted-Good :
      (name : Text) (args : Value) (w : World)
      → CleanCache w.tool_cache
      → Good (admitted sv name args w)
  unfolding admitted
  admitted-Good name args w h = elim (Bool-cases (tool_is_cacheable (is_angular sv w) name)) [
    | inr uncacheable ↦ rw uncacheable (uncached-Good name args w h)
    | inl cacheable ↦ elim (Result-cases (resolve_scope sv args w)) [
      | inr (x, missing) ↦ rw (cacheable, missing, dispatch_cacheable) (h, pass-IsClean _)
      | inl (proj, found) ↦
          rw (cacheable, found, dispatch_cacheable) (dispatch_in-Good proj name args w h)
    ]
  ]

  internal-Good :
      (permit : Bool) (name : Text) (args : Value) (w : World)
      → CleanCache w.tool_cache
      → Good (dispatch_tool_internal sv permit name args w)
  unfolding dispatch_tool_internal
  internal-Good permit name args w h =
      let counted = count_invocation name w in
      elim (Bool-cases (is_expensive_tool (is_angular sv counted) name)) [
        | inr cheap ↦ rw cheap (admitted-Good name args counted h)
        | inl expensive ↦ elim (Bool-cases permit) [
          | inl granted ↦ rw (expensive, granted) (admitted-Good name args counted h)
          | inr refused' ↦ rw (expensive, refused') (h, pass-IsClean _)
        ]
      ]

-- A call of a tool, and whether it got a permit in time.
pub record ToolRequest : Type 0 where
  pub permit : Bool
  pub name : Text
  pub args : Value

unfoldable pub run_calls : Services → List ToolRequest → World → World
run_calls sv [] w = w
run_calls sv (c ∷ cs) w = run_calls sv cs (dispatch_tool_internal sv c.permit c.name c.args w).0

run_calls-CleanCache :
    (sv : Services) (cs : List ToolRequest) (w : World)
    → CleanCache sv w.tool_cache
    → CleanCache sv (run_calls sv cs w).tool_cache
unfolding run_calls
run_calls-CleanCache sv [] w h = h
run_calls-CleanCache sv (c ∷ cs) w h =
    run_calls-CleanCache sv cs _ (internal-Good sv c.permit c.name c.args w h).0

calls-CleanCache :
    (sv : Services) (cs : List ToolRequest) (w : World)
    → w.tool_cache ≡ []
    → CleanCache sv (run_calls sv cs w).tool_cache
calls-CleanCache sv cs w empty' = run_calls-CleanCache sv cs w (rw empty' tt)

no_errors_of_CleanCache :
    (sv : Services) (c : ToolCache) → CleanCache sv c → All (λ e. is_error e.1 ≡ false) c
no_errors_of_CleanCache sv [] h = tt
no_errors_of_CleanCache sv (e ∷ c) ((clean, fine), h) = (fine, no_errors_of_CleanCache sv c h)

-- After any calls of tools on an empty cache, whatever the handlers reply, no cached value is an
-- error result.
pub cache_no_errors :
    (sv : Services) (cs : List ToolRequest) (w : World)
    → w.tool_cache ≡ []
    → All (λ e. is_error e.1 ≡ false) (run_calls sv cs w).tool_cache
cache_no_errors sv cs w empty' = no_errors_of_CleanCache sv _ (calls-CleanCache sv cs w empty')

-- After any calls of tools on an empty cache, whatever the handlers reply, take the value with which
-- the next call is answered, from the cache or freshly computed: what is read in it on a path through
-- a sensitive key is the text "[REDACTED]" at that key itself.
pub dispatch-hidden :
    (sv : Services) (cs : List ToolRequest) (w : World) (c : ToolRequest) (v : Value)
    (pre : List Move) (k : Text) (post : List Move) (x : Value)
    → w.tool_cache ≡ []
    → (dispatch_tool_internal sv c.permit c.name c.args (run_calls sv cs w)).1 ≡ done v
    → is_sensitive sv.engine default_policy k ≡ true
    → at (pre ++ (key k ∷ post)) v ≡ some x
    → (x ≡ string redacted) × (post ≡ [])
dispatch-hidden sv cs w c v pre k post x empty' e =
    let h = calls-CleanCache sv cs w empty' in
    let good = internal-Good sv c.permit c.name c.args (run_calls sv cs w) h in
    subst (CleanReply sv) e good.1 pre k post x
