-- ===== src/Rpc/RoundTrip.antt =====
-- The answer of a server, read by a client: rosrust/src/rosxmlrpc.
use rosrust.Prelude.{◌≡◌, refl, Bytes}
use rosrust.Rpc.{
  Value, Values, Response, ok, err, ResponseError, CallResult, answer, from_response,
  from_response_success, from_response_error, from_client_error, from_server_error, into_values,
  remove_array_wrappers, from_array, into_response, request_tree_with_tree,
}

-- A client that reads a server's answer has the response that the server's handler gave: its value or
-- its error, of the same kind and with the same text.
pub request_tree-answer :
    (show : Values → Bytes) (response : Response Value) (msg : Bytes)
    → request_tree_with_tree show (CallResult.values (answer response msg)) ≡ response
unfolding answer from_response from_response_success from_response_error from_client_error
    from_server_error into_values remove_array_wrappers from_array into_response
    request_tree_with_tree
request_tree-answer show (ok v) msg = refl
request_tree-answer show (err (ResponseError.client text)) msg = refl
request_tree-answer show (err (ResponseError.server text)) msg = refl
