-- ===== src/Rpc/Dispatcher.antt =====
-- agent/dispatcher.py: the registration of handlers and the dispatch of a request. `J` is the type of
-- JSON values, `C` the context of a call and `S` the state of the handlers. The journal is not
-- modelled.
pub mod Reached
use nas_os.Common.{
  String, ◌<>◌, Bool, true, false, not, Option, none, some, Result, ok, err, is_some, if◌then◌else◌,
  string_eq,
}
use nas_os.Common.Dict
use nas_os.Common.Dict.{Dict}
use nas_os.Common.Errors.{Exc, rpc_exception, other_error}
use nas_os.Rpc.Transport.{RpcError, RpcResponse}

-- The models of a method in `REGISTRY`: the validation of its parameters and of its result.
pub record MethodSpec (J : Type 0) : Type 0 where
  pub model_validate : J → Result String J
  pub result_validate : J → Result String J

pub record RpcRequest (J C : Type 0) : Type 0 where
  pub id : String
  pub method : String
  pub params : J
  pub ctx : C

-- A handler, with the result as it is dumped.
abbrev pub HandlerFn : Type 0 → Type 0 → Type 0 → Type 0
HandlerFn J C S = J → C → S → Result Exc J × S

module _ {J : Type 0} where
  -- `_error`
  unfoldable pub error_response : String → String → String → RpcResponse J
  error_response request_id code message = record {
    id = request_id;
    succeeded = false;
    result = none;
    error = some (record { code = code; message = message });
  }

  -- The response to what a handler returned or raised.
  unfoldable pub respond : String → Result Exc J → RpcResponse J
  unfolding error_response
  respond request_id (ok result) = record {
    id = request_id;
    succeeded = true;
    result = some result;
    error = none;
  }
  respond request_id (err (rpc_exception code message)) = error_response request_id code message
  respond request_id (err _) = error_response request_id "internal_error" "internal error"

module _ {J C S : Type 0} where
  -- `handler(method)`, applied to a function.
  unfoldable pub handler :
      Dict String (MethodSpec J)
      → String
      → HandlerFn J C S
      → Dict String (HandlerFn J C S)
      → Result Exc (Dict String (HandlerFn J C S))
  handler registry method fn handlers =
      if not (is_some (Dict.lookup method registry))
      then err (other_error ("'" <> (method <> "' is not declared in rpc.schemas.REGISTRY")))
      else if is_some (Dict.lookup method handlers)
      then err (other_error ("'" <> (method <> "' already has a handler")))
      else ok (Dict.insert method fn handlers)

  unfoldable pub call_handler :
      RpcRequest J C → HandlerFn J C S → Result String J → S → RpcResponse J × S
  unfolding respond
  call_handler request fn (err text) s = (error_response request.id "invalid_params" text, s)
  call_handler request fn (ok params) s =
      let (result, s') = fn params request.ctx s in (respond request.id result, s')

  unfoldable pub handle_with :
      RpcRequest J C → Option (MethodSpec J) → Option (HandlerFn J C S) → S → RpcResponse J × S
  unfolding call_handler
  handle_with request none fn s =
      (error_response request.id "unknown_method" ("no such method: " <> request.method), s)
  handle_with request (some spec) none s =
      (error_response request.id "not_implemented" ("no handler for: " <> request.method), s)
  handle_with request (some spec) (some fn) s =
      call_handler request fn (spec.model_validate request.params) s

  -- `Dispatcher.handle`
  unfoldable pub handle :
      Dict String (MethodSpec J)
      → Dict String (HandlerFn J C S)
      → RpcRequest J C
      → S
      → RpcResponse J × S
  unfolding handle_with
  handle registry handlers request s =
      handle_with request (Dict.lookup request.method registry)
        (Dict.lookup request.method handlers) s
