-- ===== src/Services.antt =====
-- What the services of the web process share: their database beside the system, which they reach by
-- calls of the agent, through a dispatcher that hides every exception but `RpcException`.
use nas_os.Common.{Result, ok, err, ◌≡◌}
use nas_os.Common.Actions.{Action}
use nas_os.Common.Errors.{Exc, rpc_exception, service_error}

pub record World (D S : Type 0) : Type 0 where
  pub db : D
  pub system : S

-- What the service makes of the answer of a call.
unfoldable pub service_result {ℓ} : {A : Type ℓ} → Result Exc A → Result Exc A
service_result (ok a) = ok a
service_result (err (rpc_exception code message)) = err (service_error code message)
service_result (err _) = err (service_error "internal_error" "internal error")

module _ {D S : Type 0} where
  unfoldable pub call : {A : Type 0} → Action S A → Action (World D S) A
  unfolding service_result
  call action w = (service_result (action w.system).0, record w { system = (action w.system).1 })

service_result-ok : {A : Type 0} (r : Result Exc A) {a : A} → service_result r ≡ ok a → r ≡ ok a
unfolding service_result
service_result-ok (ok b) h = h
service_result-ok (err (rpc_exception code message)) h = cc
service_result-ok (err _) h = cc

-- A call that returned has been answered.
pub call-ok :
    {D S A : Type 0} (action : Action S A) (w : World D S) {a : A}
    → (call action w).0 ≡ ok a
    → (action w.system).0 ≡ ok a
unfolding call
call-ok action w h = service_result-ok (action w.system).0 h
