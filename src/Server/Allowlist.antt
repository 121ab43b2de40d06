-- ===== src/Server/Allowlist.antt =====
-- The list of allowed tools in src/server.rs: what it hides and what it refuses.
use mathlib.Core.List.{Memᴰ}
use mathlib.Core.List.Memᴰ
use mathlib.Core.Option.{some-injective}
use mathlib.Core.Path.{subst}
use nexus_intelli_core.Prelude.{
  Bool, true, false, not, List, [], ◌∷◌, Option, none, some, any, retain, ◌≡◌, refl, sym, ap, ◌∙◌,
  ◌↔◌, arith, inl, inr, any_iff, mem-retain_iff, All, Bool-cases,
}
use nexus_intelli_core.Prelude.Text.{
  Text, codes, text_eq, text_eq→eq, text_eq_refl, text_starts_with,
}
use nexus_intelli_core.Json.{Value, null, items, of_items, get, as_str, as_array}
use nexus_intelli_core.Json.Access.{◌>>=◌, unwrap_or}
use nexus_intelli_core.Protocol.{JsonRpcRequest, JsonRpcResponse}
use nexus_intelli_core.Server.{
  Config, State, option_cons, arm_of, unauthorized, handle_method, handle_request, log_audit_event,
  is_listed, handle_tool_call, deny_tool, handle_tools_list, filtered_tools, definition_listed,
}
use nexus_intelli_core.Server.Access.{IsErrorReply}
use nexus_intelli_core.Tools.Dispatch.{Timing}

-- The tools that a response carries.
unfoldable pub listed : JsonRpcResponse → List Value
listed r = unwrap_or ((r.result >>= get (codes "tools")) >>= as_array) []

items-of_items : (vs : List Value) → items (of_items vs) ≡ vs
items-of_items [] = refl
items-of_items (v ∷ vs) = ap (◌∷◌ v) (items-of_items vs)

named_listed : List Text → Option Text → Bool
named_listed allowed none = false
named_listed allowed (some name) = any (λ tool. text_eq tool name) allowed

named_listed_iff :
    (allowed : List Text) (o : Option Text)
    → (named_listed allowed o ≡ true) ↔ ((name : Text) × ((o ≡ some name) × Memᴰ name allowed))
unfolding named_listed
named_listed_iff allowed none = (λ e. absurd (ground arith), λ s. absurd (ground (arith, s.1.0)))
named_listed_iff allowed (some x) = (
  λ e.
      let (tool, (m, k)) = (any_iff (λ tool. text_eq tool x) allowed).0 e in
      (x, (refl, Memᴰ.cast (sym (text_eq→eq tool x k)) m)),
  λ s.
      (any_iff (λ tool. text_eq tool x) allowed).1 (
        s.0,
        (s.1.1, subst (λ n. text_eq n x ≡ true) (some-injective x s.0 s.1.0) (text_eq_refl x)),
      ),
)

definition_listed_iff :
    (cfg : Config) (allowed : List Text) (t : Value)
    → (definition_listed cfg allowed t ≡ true)
      ↔ ((name : Text) × (((get (codes "name") t >>= as_str) ≡ some name) × Memᴰ name allowed))
unfolding definition_listed named_listed
definition_listed_iff cfg allowed t = named_listed_iff allowed (get (codes "name") t >>= as_str)

mem-retain-listed :
    (cfg : Config) (allowed : List Text) (t : Value)
    → Memᴰ t (retain (definition_listed cfg allowed) cfg.tool_definitions) ↔ (
        Memᴰ t cfg.tool_definitions
        × ((name : Text) × (((get (codes "name") t >>= as_str) ≡ some name) × Memᴰ name allowed)))
mem-retain-listed cfg allowed t =
    let filter = mem-retain_iff (definition_listed cfg allowed) cfg.tool_definitions t in
    let by_name = definition_listed_iff cfg allowed t in
    (λ m. let (d, l) = filter.0 m in (d, by_name.0 l), λ s. filter.1 (s.0, by_name.1 s.1))

listed-handle_tools_list :
    (cfg : Config) (id : Value) (s : State)
    → listed (handle_tools_list cfg id s).1 ≡ filtered_tools cfg cfg.allowed_tools
unfolding listed handle_tools_list get text_eq
listed-handle_tools_list cfg id s = items-of_items (filtered_tools cfg cfg.allowed_tools)

-- With a list of allowed tools, the reply to tools/list carries exactly those definitions of the
-- server whose name is on the list.
pub tools_list-listed_iff :
    (cfg : Config) (allowed : List Text)
    → cfg.allowed_tools ≡ some allowed
    → (id : Value) (s : State) (t : Value)
    → Memᴰ t (listed (handle_tools_list cfg id s).1) ↔ (
        Memᴰ t cfg.tool_definitions
        × ((name : Text) × (((get (codes "name") t >>= as_str) ≡ some name) × Memᴰ name allowed)))
unfolding filtered_tools
tools_list-listed_iff cfg allowed e id s t =
    rw (listed-handle_tools_list cfg id s ∙ ap (filtered_tools cfg) e)
      (mem-retain-listed cfg allowed t)

listed_name :
    (allowed : List Text) (name : Text) → any (text_eq name) allowed ≡ true → Memᴰ name allowed
listed_name allowed name e =
    let (tool, (m, k)) = (any_iff (text_eq name) allowed).0 e in
    Memᴰ.cast (text_eq→eq name tool k) m

not_listed :
    (cfg : Config) (allowed : List Text) (name : Text)
    → cfg.allowed_tools ≡ some allowed
    → ¬ Memᴰ name allowed
    → is_listed cfg cfg.allowed_tools name ≡ false
unfolding is_listed
not_listed cfg allowed name e absent = rw e (elim (Bool-cases (any (text_eq name) allowed)) [
  | inl found ↦ absurd (absent (listed_name allowed name found))
  | inr missing ↦ missing
])

-- What a refused call leaves and answers.
abbrev IsDenied : State → State × JsonRpcResponse → Type 0
IsDenied s (s', r) =
    (s'.world ≡ s.world) × (s'.client_authenticated ≡ s.client_authenticated) × IsErrorReply r

deny_tool-IsDenied :
    (cfg : Config) (id : Value) (name : Text) (s : State) → IsDenied s (deny_tool cfg id name s)
unfolding deny_tool log_audit_event
deny_tool-IsDenied cfg id name s = ground arith

handle_tool_call-IsDenied :
    (cfg : Config) (allowed : List Text) (name : Text)
    → cfg.allowed_tools ≡ some allowed
    → ¬ Memᴰ name allowed
    → (time : Timing) (id params : Value) (s : State)
    → (get (codes "name") params >>= as_str) ≡ some name
    → IsDenied s (handle_tool_call cfg time id params s)
unfolding handle_tool_call
handle_tool_call-IsDenied cfg allowed name e absent time id params s found =
    rw (found, handle_tool_call, not_listed cfg allowed name e absent)
      (deny_tool-IsDenied cfg id name s)

-- A call of a tool that is not on the list of allowed tools, authenticated or not, is answered
-- with an error, and neither the registry, the caches, the counters, the active project nor the
-- authentication changes.
pub unlisted_call-refused :
    (cfg : Config) (allowed : List Text) (name : Text)
    → cfg.allowed_tools ≡ some allowed
    → ¬ Memᴰ name allowed
    → (time : Timing) (req : JsonRpcRequest) (s : State) → req.method ≡ codes "tools/call"
    → (get (codes "name") req.params >>= as_str) ≡ some name
    → ((handle_request cfg time req s).0.world ≡ s.world)
      × ((handle_request cfg time req s).0.client_authenticated ≡ s.client_authenticated)
      × All IsErrorReply (option_cons (handle_request cfg time req s).1 [])
unfolding handle_request handle_method arm_of unauthorized log_audit_event text_eq text_starts_with
unlisted_call-refused cfg allowed name e absent time req s method found =
    let denied =
      handle_tool_call-IsDenied cfg allowed name e absent time (unwrap_or req.id null) req.params s
        found in
    elim (Bool-cases s.client_authenticated) [
      | inl yes' ↦ rw (method, ap not yes') (denied.0, denied.1, (denied.2, tt))
      | inr no' ↦ rw (method, ap not no') (ground arith)
    ]
