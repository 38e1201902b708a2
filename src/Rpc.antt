-- ===== src/Rpc.antt =====
-- The answers of the XML-RPC interface: rosrust/src/rosxmlrpc. The values of the package xml_rpc are
-- those that the sources take apart, and the rest of them; the text that the package gives for a list
-- of values is a parameter.
use rosrust.Prelude.{
  ℕ, suc, Bool, not, ◌&&◌, List, [], ◌∷◌, ◌++◌, if◌then◌else◌, Bytes, codes, decimal,
}
use rosrust.Prelude.Int.{ℤ, pos, negsuc, ltb_ℤ}
pub mod RoundTrip

mutual
  pub data Value : Type 0 where
    int : ℤ → Value
    string : Bytes → Value
    array : Values → Value
    other : ℕ → Value

  -- `Vec<Value>`.
  pub data Values : Type 0 where
    nil : Values
    cons : Value → Values → Values

abbrev pub to_list : Values → List Value
to_list nil = []
to_list (cons v vs) = v ∷ to_list vs

abbrev pub of_list : List Value → Values
of_list [] = nil
of_list (v ∷ vs) = cons v (of_list vs)

pub data ResponseError : Type 0 where
  client server : Bytes → ResponseError

-- `Response<T>`.
pub data Response (A : Type 0) : Type 0 where
  ok : A → Response A
  err : ResponseError → Response A

infixl 5 ◌>>=◌
abbrev pub ◌>>=◌ : {A B : Type 0} → Response A → (A → Response B) → Response B
ok a >>= next = next a
err e >>= next = err e

-- `Display` of an error.
unfoldable pub display_error : ResponseError → Bytes
display_error (ResponseError.client v) = codes "Client error: " ++ v
display_error (ResponseError.server v) = codes "Server error: " ++ v

abbrev pub error_code : ℤ
error_code = negsuc 0

abbrev pub failure_code : ℤ
failure_code = pos 0

abbrev pub success_code : ℤ
success_code = pos 1

pub record ResponseInfo : Type 0 where
  pub code : ℤ
  pub message : Bytes
  pub data_ : Value

unfoldable pub from_array : (Values → Bytes) → Values → Response ResponseInfo
from_array show (cons (Value.int code) (cons (Value.string message) (cons data_ nil))) =
    ok (record { code = code; message = message; data_ = data_ })
from_array show parameters = err (
    ResponseError.server (
      codes "Response with three parameters (int code, str msg, value) expected from server, "
      ++ (codes "received: " ++ show parameters)))

unfoldable pub from_client_error : Bytes → ResponseInfo
from_client_error message = record {
  code = error_code;
  message = message;
  data_ = Value.int (pos 0);
}

unfoldable pub from_server_error : Bytes → ResponseInfo
from_server_error message = record {
  code = failure_code;
  message = message;
  data_ = Value.int (pos 0);
}

unfoldable pub from_response_error : ResponseError → ResponseInfo
unfolding from_client_error from_server_error
from_response_error (ResponseError.client msg) = from_client_error msg
from_response_error (ResponseError.server msg) = from_server_error msg

unfoldable pub from_response_success : Value → Bytes → ResponseInfo
from_response_success data_ message = record {
  code = success_code;
  message = message;
  data_ = data_;
}

unfoldable pub from_response : Response Value → Bytes → ResponseInfo
unfolding from_response_success from_response_error
from_response (ok data_) message = from_response_success data_ message
from_response (err e) message = from_response_error e

-- `Into<xml_rpc::Response>`: the values of a response that is not a fault.
unfoldable pub into_values : ResponseInfo → Values
into_values info =
    cons (Value.array (of_list (Value.int info.code ∷ Value.string info.message ∷ info.data_ ∷ [])))
      nil

abbrev decimal_ℤ : ℤ → Bytes
decimal_ℤ (pos n) = decimal 20 n
decimal_ℤ (negsuc n) = codes "-" ++ decimal 20 (suc n)

abbrev eq_ℤ : ℤ → ℤ → Bool
eq_ℤ a b = not (ltb_ℤ a b) && not (ltb_ℤ b a)

-- `Into<Response<Value>>`.
unfoldable pub into_response : ResponseInfo → Response Value
into_response info =
    if eq_ℤ info.code success_code
    then ok info.data_
    else if eq_ℤ info.code error_code
    then err (ResponseError.client info.message)
    else if eq_ℤ info.code failure_code
    then err (ResponseError.server info.message)
    else err (
        ResponseError.server (
          codes "Bad response code \"" ++ (decimal_ℤ info.code ++ codes "\" returned from server")))

-- `Server::register_value`: what the server answers to a call, given the handler's response.
unfoldable pub answer : Response Value → Bytes → Values
unfolding from_response into_values
answer response msg = into_values (from_response response msg)

-- `on_missing`.
unfoldable pub on_missing : Values
unfolding from_response_error into_values
on_missing = into_values (from_response_error (ResponseError.client (codes "Bad method requested")))

-- What the package's `call_value` gives: no call, a fault, or the values of a response.
pub data CallResult : Type 0 where
  failed : Bytes → CallResult
  fault : ℤ → Bytes → CallResult
  values : Values → CallResult

unfoldable pub remove_array_wrappers : Values → Values
remove_array_wrappers (cons (Value.array children) nil) = remove_array_wrappers children
remove_array_wrappers vs = vs

-- `Client::request_tree_with_tree`, given what the call of the package gives.
unfoldable pub request_tree_with_tree : (Values → Bytes) → CallResult → Response Value
unfolding remove_array_wrappers from_array into_response
request_tree_with_tree show (failed e) =
    err (ResponseError.client (codes "Failed to perform call to server: " ++ e))
request_tree_with_tree show (fault code message) = err (
    ResponseError.client (
      codes "Unexpected fault #"
      ++ (decimal_ℤ code ++ (codes " received from server: " ++ message))))
request_tree_with_tree show (values parameters) =
    from_array show (remove_array_wrappers parameters) >>= λ info. into_response info
