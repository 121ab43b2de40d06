-- ===== src/Tests/Sessions.antt =====
-- Sessions with and without the token.
use mathlib.Core.List.{Memᴰ}
use mathlib.Core.Option.{some-injective}
use nexus_intelli_core.Prelude.{
  true, false, List, [], ◌∷◌, none, some, length, arith, ap, ◌∙◌, ◌≡◌, ◌↔◌, refl, All,
}
use nexus_intelli_core.Prelude.Text.{Text, codes, text_eq}
use nexus_intelli_core.Json.{Value, null, string, object, field, end, get, as_str}
use nexus_intelli_core.Json.Access.{◌>>=◌, unwrap_or}
use nexus_intelli_core.Protocol.{JsonRpcRequest, request_of, success}
use nexus_intelli_core.Server.{
  State, serve, start, server_info, token_opt, handle_request, handle_tools_list, option_cons,
}
use nexus_intelli_core.Server.Compare.{
  Digest, constant_time_compare_hashes, constant_time_compare_iff,
}
use nexus_intelli_core.Server.Access.{
  CarriesToken, carries, IsErrorReply, unauthenticated_session, initialize-with_token,
}
use nexus_intelli_core.Server.Allowlist.{listed, tools_list-listed_iff, unlisted_call-refused}
use nexus_intelli_core.Tools.Dispatch.{Timing, in_time}
use nexus_intelli_core.Prelude.Text.{text_starts_with}
use nexus_intelli_core.Prelude.{◌++◌, not, ◌&&◌, ◌==◌}
use nexus_intelli_core.Transport.Bytes.{is_utf8}
use nexus_intelli_core.Server.Uri.{uri_to_path, without_drive_slash}
use nexus_intelli_core.Server.Uri.RoundTrip.{encode, uri_to_path-encode}
use nexus_intelli_core.Tests.Fixtures.{config, world}

abbrev expected : Digest
expected = 7 ∷ 9 ∷ []

abbrev other_digest : Digest
other_digest = 7 ∷ 8 ∷ []

constant_time_compare_iff_example :
    (constant_time_compare_hashes expected other_digest ≡ true) ↔ (expected ≡ other_digest)
constant_time_compare_iff_example = constant_time_compare_iff expected other_digest refl

sizes : (t : Text) → length expected ≡ length (config.compute_token_digest t)
sizes t = ground arith

abbrev message_of : Text → Text → Value
message_of method token = object (
    field (codes "jsonrpc") (string (codes "2.0")) (
      field (codes "method") (string method)
        (field (codes "params") (object (field (codes "token") (string token) end)) end)))

abbrev attempts : List (Timing × Value)
attempts =
    (in_time true, message_of (codes "tools/list") (codes "open"))
    ∷ (in_time true, message_of (codes "initialize") (codes "shut"))
    ∷ []

no_list : ¬ CarriesToken config expected (message_of (codes "tools/list") (codes "open"))
unfolding request_of get text_eq
no_list (carries req t e m o d) =
    let m' : codes "tools/list" ≡ codes "initialize" =
      ap (λ r. r.method) (some-injective _ _ e) ∙ m in
    absurd (ground arith)

no_shut : ¬ CarriesToken config expected (message_of (codes "initialize") (codes "shut"))
unfolding request_of get text_eq token_opt
no_shut (carries req t e m o d) =
    let o' : some (codes "shut") ≡ some t =
      ap (λ r. token_opt config r.params) (some-injective _ _ e) ∙ o in
    let d' : 0 ∷ 0 ∷ [] ≡ expected = ap config.compute_token_digest (some-injective _ _ o') ∙ d in
    absurd (ground arith)

unauthenticated_session_example :
    ((serve config attempts (start config world)).0.world ≡ (start config world).world)
    × ((serve config attempts (start config world)).0.client_authenticated ≡ false)
    × All IsErrorReply (serve config attempts (start config world)).1
unauthenticated_session_example =
    unauthenticated_session config expected refl sizes attempts (start config world) refl
      (no_list, (no_shut, tt))

abbrev hello : JsonRpcRequest
hello = record {
  jsonrpc = codes "2.0";
  id = none;
  method = codes "initialize";
  params = object (field (codes "token") (string (codes "open")) end);
}

initialize-with_token_example :
    ((handle_request config (in_time true) hello (start config world)).0.client_authenticated
      ≡ true)
    × ((handle_request config (in_time true) hello (start config world)).0.auth_failure_count ≡ 0)
    × ((handle_request config (in_time true) hello (start config world)).1
        ≡ some (success (unwrap_or none null) (server_info config)))
unfolding get text_eq token_opt
initialize-with_token_example =
    initialize-with_token config expected refl sizes (in_time true) hello (codes "open")
      (start config world) refl refl refl

abbrev stats_tool : Value
stats_tool = object (field (codes "name") (string (codes "server_stats")) end)

tools_list-listed_iff_example :
    Memᴰ stats_tool (listed (handle_tools_list config null (start config world)).1) ↔ (
      Memᴰ stats_tool config.tool_definitions
      × ((name : Text) × (((get (codes "name") stats_tool >>= as_str) ≡ some name)
            × Memᴰ name (codes "server_stats" ∷ []))))
tools_list-listed_iff_example =
    tools_list-listed_iff config (codes "server_stats" ∷ []) refl null (start config world)
      stats_tool

abbrev lint : JsonRpcRequest
lint = record {
  jsonrpc = codes "2.0";
  id = none;
  method = codes "tools/call";
  params = object (field (codes "name") (string (codes "lint_file")) end);
}

abbrev signed_in : State
signed_in = record (start config world) { client_authenticated = true }

lint_absent : ¬ Memᴰ (codes "lint_file") (codes "server_stats" ∷ [])
lint_absent (Memᴰ.head e) = ground arith
lint_absent (Memᴰ.tail m) = elim m [ ]

unlisted_call-refused_example :
    ((handle_request config (in_time true) lint signed_in).0.world ≡ signed_in.world)
    × ((handle_request config (in_time true) lint signed_in).0.client_authenticated ≡ true)
    × All IsErrorReply (option_cons (handle_request config (in_time true) lint signed_in).1 [])
unfolding get text_eq
unlisted_call-refused_example =
    unlisted_call-refused config (codes "server_stats" ∷ []) (codes "lint_file") refl lint_absent
      (in_time true) lint signed_in refl refl

-- `/a b`, with the blank encoded.
abbrev blank_path : Text
blank_path = codes "/a b"

uri_to_path-encode_example :
    (uri_to_path (codes "file://" ++ encode (λ c. not (c == 32) && not (c == b'%')) blank_path)
      ≡ some blank_path)
    × (uri_to_path
          (codes "file://localhost" ++ encode (λ c. not (c == 32) && not (c == b'%')) blank_path)
        ≡ some blank_path)
unfolding is_utf8 text_starts_with without_drive_slash
uri_to_path-encode_example =
    uri_to_path-encode (λ c. not (c == 32) && not (c == b'%')) blank_path refl
      (omega arith, (omega arith, (omega arith, (omega arith, tt)))) refl (refl, refl)
