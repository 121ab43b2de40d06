-- ===== src/Protocol.antt =====
-- src/protocol.rs: requests, responses, and the shapes of a tool's result.
use nexus_intelli_core.Prelude.{ℕ, true, List, Option, none, some}
use nexus_intelli_core.Prelude.Text.{Text, codes}
use nexus_intelli_core.Json.{
  Value, null, bool, string, array, object, nil, cons, end, field, of_items, get, as_str,
}
use nexus_intelli_core.Json.Access.{◌>>=◌, unwrap_or}

pub record JsonRpcRequest : Type 0 where
  pub jsonrpc : Text
  pub id : Option Value
  pub method : Text
  pub params : Value

-- A negative error code, by its absolute value.
pub record JsonRpcError : Type 0 where
  pub neg_code : ℕ
  pub message : Text

pub record JsonRpcResponse : Type 0 where
  pub id : Value
  pub result : Option Value
  pub error : Option JsonRpcError

-- An absent id and `null` are the same for `Option<Value>`.
abbrev present : Option Value → Option Value
present none = none
present (some null) = none
present (some v) = some v

abbrev request : Option Text → Option Value → Option Text → Value → Option JsonRpcRequest
request jsonrpc id method params = do
  j ← jsonrpc
  m ← method
  some (record { jsonrpc = j; id = present id; method = m; params = params })

-- The derived `Deserialize`: from an object by names, from an array by positions.
unfoldable pub request_of : Value → Option JsonRpcRequest
request_of (object fs) =
    request (get (codes "jsonrpc") (object fs) >>= as_str) (get (codes "id") (object fs))
      (get (codes "method") (object fs) >>= as_str)
      (unwrap_or (get (codes "params") (object fs)) null)
request_of (array (cons j (cons i (cons m nil)))) = request (as_str j) (some i) (as_str m) null
request_of (array (cons j (cons i (cons m (cons p nil))))) =
    request (as_str j) (some i) (as_str m) p
request_of _ = none

abbrev pub success : Value → Value → JsonRpcResponse
success id result = record { id = id; result = some result; error = none }

-- `JsonRpcResponse::error` with the code -n.
abbrev pub error : Value → ℕ → Text → JsonRpcResponse
error id n message = record {
  id = id;
  result = none;
  error = some (record { neg_code = n; message = message });
}

abbrev pub text_content : Text → Value
text_content t =
    object (field (codes "text") (string t) (field (codes "type") (string (codes "text")) end))

abbrev pub tool_response : List Value → Value
tool_response content = object (field (codes "content") (array (of_items content)) end)

abbrev pub error_response : Text → Value
error_response message = object (
    field (codes "content") (array (cons (text_content message) nil))
      (field (codes "isError") (bool true) end))
