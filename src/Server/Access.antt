-- ===== src/Server/Access.antt =====
-- Who gets past the handshake of src/server.rs, and which tools a client may call.
use nexus_intelli_core.Prelude.{
  Bool, true, false, not, List, [], ◌∷◌, Option, none, some, length, ◌≡◌, refl, sym, ap, ◌∙◌, arith,
  inl, inr, All, Option-cases, Bool-cases,
}
use mathlib.Core.Path.{subst}
use nexus_intelli_core.Prelude.Text.{Text, codes, text_eq, text_eq→eq, text_starts_with}
use nexus_intelli_core.Json.{Value, null}
use nexus_intelli_core.Json.Access.{unwrap_or, is_some}
use nexus_intelli_core.Protocol.{JsonRpcRequest, JsonRpcResponse, request_of, success}
use nexus_intelli_core.Server.Compare.{Digest, constant_time_compare_iff}
use nexus_intelli_core.Server.{
  Config, State, server_info, select_project_from_initialize, option_cons, accepts, authenticate,
  authenticate_opt, token_opt, token_accepted, handle_initialize, reject, welcome, handle_method,
  arm_of, unauthorized, handle_request, handle_message, serve, log_audit_event,
}
use nexus_intelli_core.Tools.Dispatch.{Timing}

-- A message that is an `initialize` request with a token of the digest h.
pub data CarriesToken (cfg : Config) (h : Digest) (msg : Value) : Type 0 where
  carries :
      (req : JsonRpcRequest) (t : Text)
      → request_of msg ≡ some req
      → req.method ≡ codes "initialize"
      → token_opt cfg req.params ≡ some t
      → cfg.compute_token_digest t ≡ h
      → CarriesToken cfg h msg

abbrev pub IsErrorReply : JsonRpcResponse → Type 0
IsErrorReply r = is_some r.error ≡ true

-- What an unauthenticated client gets: an error, and nothing changes but the audit.
abbrev IsRefused : State → State × Option JsonRpcResponse → Type 0
IsRefused s (s', r) =
    (s'.world ≡ s.world) × (s'.client_authenticated ≡ false) × All IsErrorReply (option_cons r [])

All-option_cons :
    {A : Type 0} (P : A → Type 0) (o : Option A) (xs : List A)
    → All P (option_cons o [])
    → All P xs
    → All P (option_cons o xs)
All-option_cons P none xs ps qs = qs
All-option_cons P (some x) xs (p, _) qs = (p, qs)

module _ (cfg : Config) (h : Digest) (required : cfg.auth_token_hash ≡ some h)
    (sizes : (t : Text) → length h ≡ length (cfg.compute_token_digest t)) where
  accepts-eq :
      (t : Text) → accepts cfg cfg.auth_token_hash t ≡ true → cfg.compute_token_digest t ≡ h
  unfolding accepts
  accepts-eq t e =
      let e' : accepts cfg (some h) t ≡ true = subst (λ o. accepts cfg o t ≡ true) required e in
      sym ((constant_time_compare_iff h (cfg.compute_token_digest t) (sizes t)).0 e')

  refused_token :
      (o : Option Text) (s : State)
      → s.client_authenticated ≡ false
      → ((t : Text) → o ≡ some t → ¬ (cfg.compute_token_digest t ≡ h))
      → authenticate_opt cfg o s ≡ s
  unfolding authenticate_opt authenticate
  refused_token none s unauth no_token = refl
  refused_token (some t) s unauth no_token = elim (Bool-cases (accepts cfg cfg.auth_token_hash t)) [
    | inl e ↦ absurd (no_token t refl (accepts-eq t e))
    | inr e ↦ rw e refl
  ]

  initialize-rejects :
      (id params : Value) (s : State)
      → s.client_authenticated ≡ false
      → ((t : Text) → token_opt cfg params ≡ some t → ¬ (cfg.compute_token_digest t ≡ h))
      → handle_initialize cfg id params s ≡ reject cfg id s
  unfolding handle_initialize
  initialize-rejects id params s unauth no_token =
      rw (ap is_some required, refused_token (token_opt cfg params) s unauth no_token, unauth) refl

  reject_lem :
      (id : Value) (s : State)
      → s.client_authenticated ≡ false
      → IsRefused s (let (s', r) = reject cfg id s in (s', some r))
  unfolding reject log_audit_event
  reject_lem id s unauth = ground arith

  unauthorized_lem :
      (id : Value) (method : Text) (s : State)
      → s.client_authenticated ≡ false
      → IsRefused s (let (s', r) = unauthorized cfg id method s in (s', some r))
  unfolding unauthorized log_audit_event
  unauthorized_lem id method s unauth = ground arith

  handle_request-IsRefused :
      (time : Timing) (req : JsonRpcRequest) (s : State)
      → s.client_authenticated ≡ false
      → ((t : Text)
          → req.method ≡ codes "initialize"
          → token_opt cfg req.params ≡ some t
          → ¬ (cfg.compute_token_digest t ≡ h))
      → IsRefused s (handle_request cfg time req s)
  unfolding handle_request handle_method arm_of
  handle_request-IsRefused time req s unauth no_token =
      elim (Bool-cases (text_eq req.method (codes "initialize"))) [
        | inl e ↦
            let id = unwrap_or req.id null in
            let rejects =
              initialize-rejects id req.params s unauth
                (λ t. no_token t (text_eq→eq req.method (codes "initialize") e)) in
            rw (ap not unauth, e, rejects) (reject_lem id s unauth)
        | inr e ↦
            rw (ap not unauth, e) (unauthorized_lem (unwrap_or req.id null) req.method s unauth)
      ]

  handle_message-IsRefused :
      (time : Timing) (msg : Value) (s : State)
      → s.client_authenticated ≡ false
      → ¬ CarriesToken cfg h msg
      → IsRefused s (handle_message cfg time msg s)
  unfolding handle_message
  handle_message-IsRefused time msg s unauth no_token = elim (Option-cases (request_of msg)) [
    | inl e ↦ rw (e, handle_message) (refl, unauth, (refl, tt))
    | inr (req, e) ↦ elim (Bool-cases (text_eq req.jsonrpc (codes "2.0"))) [
      | inl v ↦
          rw (e, handle_message, v)
            (handle_request-IsRefused time req s unauth
              (λ t m o d. no_token (carries req t e m o d)))
      | inr v ↦ rw (e, handle_message, v) (refl, unauth, (refl, tt))
    ]
  ]

  -- As long as no message is an `initialize` with a token whose digest is the configured one,
  -- an unauthenticated client changes nothing of the registry, the caches, the counters and the
  -- active project, stays unauthenticated, and is sent nothing but error responses.
  pub unauthenticated_session :
      (ms : List (Timing × Value)) (s : State)
      → s.client_authenticated ≡ false
      → All (λ m. ¬ CarriesToken cfg h m.1) ms
      → ((serve cfg ms s).0.world ≡ s.world)
        × ((serve cfg ms s).0.client_authenticated ≡ false)
        × All IsErrorReply (serve cfg ms s).1
  unfolding serve
  unauthenticated_session [] s unauth ns = (refl, unauth, tt)
  unauthenticated_session ((time, msg) ∷ ms) s unauth (n, ns) =
      let (world_same, unauth', refused) = handle_message-IsRefused time msg s unauth n in
      let (world_same', unauth'', rest) =
        unauthenticated_session ms (handle_message cfg time msg s).0 unauth' ns in
      (
        world_same' ∙ world_same,
        unauth'',
        All-option_cons IsErrorReply (handle_message cfg time msg s).1 _ refused rest,
      )

  token_is_accepted :
      (t : Text) → cfg.compute_token_digest t ≡ h → accepts cfg cfg.auth_token_hash t ≡ true
  unfolding accepts
  token_is_accepted t d =
      let same = (constant_time_compare_iff h (cfg.compute_token_digest t) (sizes t)).1 (sym d) in
      subst (λ o. accepts cfg o t ≡ true) (sym required) same

  authenticated : State → State
  authenticated s = record s { client_authenticated = true; auth_failure_count = 0 }

  authenticate-accepted :
      (t : Text) (s : State)
      → cfg.compute_token_digest t ≡ h
      → authenticate_opt cfg (some t) s ≡ authenticated s
  unfolding authenticate_opt authenticate authenticated
  authenticate-accepted t s d = rw (token_is_accepted t d) refl

  -- The server's answer to a client that it has accepted.
  abbrev IsWelcomed : Value → State × JsonRpcResponse → Type 0
  IsWelcomed id (s', r) =
      (s'.client_authenticated ≡ true)
      × (s'.auth_failure_count ≡ 0)
      × (r ≡ success id (server_info cfg))

  welcome_lem :
      (b : Bool) (id params : Value) (s : State)
      → IsWelcomed id (welcome cfg b id params (authenticated s))
  unfolding welcome select_project_from_initialize log_audit_event authenticated
  welcome_lem b id params s = ground arith

  initialize-welcomes :
      (id params : Value) (t : Text) (s : State)
      → token_opt cfg params ≡ some t
      → cfg.compute_token_digest t ≡ h
      → IsWelcomed id (handle_initialize cfg id params s)
  unfolding handle_initialize authenticated
  initialize-welcomes id params t s token d =
      rw
        (
          ap is_some required,
          ap (λ o. authenticate_opt cfg o s) token ∙ authenticate-accepted t s d,
        )
        (welcome_lem (token_accepted cfg (token_opt cfg params)) id params s)

  -- An `initialize` request with a token of the configured digest authenticates the client,
  -- resets the count of failures, and is answered with the server's description.
  pub initialize-with_token :
      (time : Timing) (req : JsonRpcRequest) (t : Text) (s : State)
      → req.method ≡ codes "initialize"
      → token_opt cfg req.params ≡ some t
      → cfg.compute_token_digest t ≡ h
      → ((handle_request cfg time req s).0.client_authenticated ≡ true)
        × ((handle_request cfg time req s).0.auth_failure_count ≡ 0)
        × ((handle_request cfg time req s).1
            ≡ some (success (unwrap_or req.id null) (server_info cfg)))
  unfolding handle_request handle_method arm_of text_eq text_starts_with
  initialize-with_token time req t s method token d =
      let (known, fails, reply) =
        initialize-welcomes (unwrap_or req.id null) req.params t s token d in
      elim (Bool-cases s.client_authenticated) [
        | inl e ↦ rw (method, ap not e) (known, fails, ap some reply)
        | inr e ↦ rw (method, ap not e) (known, fails, ap some reply)
      ]
