-- ===== src/Rpc/Dispatcher/Reached.antt =====
-- When a request reaches a handler.
use nas_os.Common.{
  String, false, none, some, Result, ok, err, ok-injective, succeeds, is_some, ◌≡◌, refl, sym,
  arith, ◌==◌, string_eq, Option-cases, Result-cases, Bool-cases, ◌⊎◌, inl, inr,
}
use nas_os.Common.Dict
use nas_os.Common.Dict.{Dict, lookup-insert}
use nas_os.Common.Errors.{Exc, rpc_exception}
use nas_os.Rpc.Transport.{answer_of, error_of, result_or}
use nas_os.Rpc.Dispatcher.{
  MethodSpec, RpcRequest, HandlerFn, handler, error_response, respond, call_handler, handle_with,
  handle,
}

module _ {J : Type 0} where
  -- What the caller gets for what a handler returned or raised.
  unfoldable pub seen : Result Exc J → Result Exc J
  seen (ok result) = ok result
  seen (err (rpc_exception code message)) = err (rpc_exception code message)
  seen (err _) = err (rpc_exception "internal_error" "internal error")

  answer_of-respond :
      (empty : J) (id : String) (r : Result Exc J) → answer_of empty (respond id r) ≡ seen r
  unfolding answer_of respond error_response error_of result_or seen
  answer_of-respond empty id (ok result) = refl
  answer_of-respond empty id (err (rpc_exception code message)) = refl
  answer_of-respond empty id (err _) = refl

  refused :
      (empty : J) (id code message : String)
      → succeeds (answer_of empty (error_response id code message)) ≡ false
  unfolding answer_of error_response
  refused empty id code message = refl

module _ {J C S : Type 0} where
  -- A caller gets a result, and the state changes, only through a handler: either the caller gets an
  -- error and the state is as it was, or the method is declared and has a handler, the parameters
  -- validate, the state is the one that the handler left for them, and the caller gets what it
  -- returned, its `RpcException`, or for any other exception the internal error. What it returned
  -- is answered whatever the result's model says of it, against the text at the top of
  -- rpc/schemas.py: the model's `result_validate` is arbitrary here.
  pub handle-reaches :
      (registry : Dict String (MethodSpec J)) (handlers : Dict String (HandlerFn J C S))
      (request : RpcRequest J C) (empty : J) (s : S)
      → ((succeeds (answer_of empty (handle registry handlers request s).0) ≡ false)
          × ((handle registry handlers request s).1 ≡ s))
        ⊎ ((spec : MethodSpec J) × (fn : HandlerFn J C S) × (params : J) × (Dict.lookup
                request.method registry
              ≡ some spec)
            × (Dict.lookup request.method handlers ≡ some fn)
            × (spec.model_validate request.params ≡ ok params)
            × ((handle registry handlers request s).1 ≡ (fn params request.ctx s).1)
            × (answer_of empty (handle registry handlers request s).0
                ≡ seen (fn params request.ctx s).0))
  unfolding handle handle_with call_handler
  handle-reaches registry handlers request empty s =
      elim (Option-cases (Dict.lookup request.method registry)) [
        | inl e ↦ inl (rw e (refused empty request.id _ _, refl))
        | inr (spec, e) ↦ elim (Option-cases (Dict.lookup request.method handlers)) [
          | inl h ↦ inl (rw (e, h) (refused empty request.id _ _, refl))
          | inr (fn, h) ↦ elim (Result-cases (spec.model_validate request.params)) [
            | inl (text, v) ↦ inl (rw (e, h, v) (refused empty request.id _ _, refl))
            | inr (params, v) ↦ inr (
              spec,
              fn,
              params,
              e,
              h,
              v,
              rw (e, h, v) refl,
              rw (e, h, v) (answer_of-respond empty request.id (fn params request.ctx s).0),
            )
          ]
        ]
      ]

  handler-ok :
      (registry : Dict String (MethodSpec J)) (handlers handlers' : Dict String (HandlerFn J C S))
      (method : String) (fn : HandlerFn J C S)
      → handler registry method fn handlers ≡ ok handlers'
      → (Dict.lookup method handlers ≡ none) × (Dict.insert method fn handlers ≡ handlers')
  unfolding handler
  handler-ok registry handlers handlers' method fn h =
      elim (Bool-cases (is_some (Dict.lookup method registry))) [
        | inr e ↦ let h' = rw e at h in cc
        | inl e ↦ elim (Option-cases (Dict.lookup method handlers)) [
          | inl o ↦ (o, ok-injective (rw (e, o) at h))
          | inr (_, o) ↦ let h' = rw (e, o) at h in cc
        ]
      ]

  -- A handler that was registered for a method is the one of this method, which had none before, and
  -- requests for other methods are answered as they were.
  pub handler-handle :
      (registry : Dict String (MethodSpec J)) (handlers handlers' : Dict String (HandlerFn J C S))
      (method : String) (fn : HandlerFn J C S) (request : RpcRequest J C) (s : S)
      → handler registry method fn handlers ≡ ok handlers'
      → (request.method == method) ≡ false
      → (Dict.lookup method handlers ≡ none)
        × (Dict.lookup method handlers' ≡ some fn)
        × (handle registry handlers' request s ≡ handle registry handlers request s)
  unfolding handle
  handler-handle registry handlers handlers' method fn request s h n =
      let (absent, same) = handler-ok registry handlers handlers' method fn h in
      let others = lookup-insert request.method method fn handlers in
      (
        absent,
        rw (sym same) (ground (arith, lookup-insert method method fn handlers)),
        rw (sym same, others, n) refl,
      )
