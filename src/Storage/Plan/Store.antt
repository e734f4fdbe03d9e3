-- ===== src/Storage/Plan/Store.antt =====
-- `PlanStore`, `create_plan` and `execute_plan` of services/storage/plan.py. The HMAC of a plan
-- under the store's key, and the call `storage.execute_plan` with the state `S` that it changes, are
-- parameters. The call is awaited: other requests change the store between the look-up and the end
-- of an execution, which are separate steps here.
use nas_os.Common.{ℕ, String, ◌<>◌, Option, none, some, List, [], ◌∷◌, ◌++◌, Result, ok, err}
use nas_os.Common.{◌==◌, string_eq, if◌then◌else◌, not}
use nas_os.Common.Dict
use nas_os.Common.Dict.{Dict}
use nas_os.Common.Actions.{Action}
use nas_os.Common.Errors.{Exc, service_error}
use nas_os.Config.{Settings}
use nas_os.Storage.Device.{StorageInventoryResult}
use nas_os.Storage.Spec.{StoragePlanSpec}
use nas_os.Storage.Plan.{Plan, Plans, gc, as_service, CreatePlanRequest, make_plan}

-- `put`, `get` and `pop`, each after `_gc`.
unfoldable pub put : ℕ → Plan → Plans → Plans
put now plan plans = Dict.insert plan.id plan (gc now plans)

unfoldable pub get : ℕ → String → Plans → Option Plan
get now plan_id plans = Dict.lookup plan_id (gc now plans)

unfoldable pub pop : ℕ → String → Plans → Plans
pop now plan_id plans = Dict.erase plan_id (gc now plans)

module _ (confirm_token : String → StoragePlanSpec → String) where
  unfoldable pub store_plan : Result Exc Plan → ℕ → Plans → Result Exc (Plan × String) × Plans
  unfolding put
  store_plan (ok plan) now plans = (ok (plan, confirm_token plan.id plan.spec), put now plan plans)
  store_plan (err e) now plans = (err e, plans)

  -- `create_plan`; the identifier and the time are those that it draws.
  unfoldable pub create_plan :
      Settings
      → CreatePlanRequest
      → Result Exc StorageInventoryResult
      → String
      → ℕ
      → Plans
      → Result Exc (Plan × String) × Plans
  unfolding store_plan
  create_plan settings body answer id now plans =
      store_plan (make_plan settings body answer id now) now plans

  -- The three tests before the call.
  unfoldable pub confirm : Option Plan → String → String → Result Exc Plan
  confirm none given typed = err (service_error "plan_not_found" "plan not found or expired")
  confirm (some plan) given typed =
      if not (confirm_token plan.id plan.spec == given)
      then err (service_error "bad_confirm_token" "confirm token does not match this plan")
      else if not (typed == plan.confirm_text)
      then err (
          service_error "confirmation_mismatch"
            ("type '" <> (plan.confirm_text <> "' exactly to confirm")))
      else ok plan

  -- What is done up to the call.
  unfoldable pub begin : ℕ → String → String → String → Plans → Result Exc Plan × Plans
  unfolding confirm get
  begin now plan_id given typed plans = (confirm (get now plan_id plans) given typed, gc now plans)

  -- What is done once the call has returned, at the time `done`: the plan goes if it succeeded.
  unfoldable pub finish : Result Exc String → ℕ → String → Plans → Result Exc String × Plans
  unfolding pop
  finish (ok job_id) done plan_id plans = (ok job_id, pop done plan_id plans)
  finish (err e) done plan_id plans = (err e, plans)

  module _ {S : Type 0}
      (call : StoragePlanSpec → Dict String ℕ → List String → Action S String) where
    -- The call of the agent with the mount points of the managed volumes and of the new one.
    unfoldable pub call_agent : Plan → List String → Action S String
    unfolding as_service
    call_agent plan managed s =
        let (answer, s') =
          call plan.spec plan.expected_sizes (managed ++ (plan.spec.mountpoint ∷ [])) s in
        (as_service answer, s')

    -- `others` is what other requests make of the store while the call is awaited.
    unfoldable pub run_confirmed :
        Result Exc Plan
        → List String
        → (Plans → Plans)
        → ℕ
        → String
        → Plans
        → S
        → Result Exc String × Plans × S
    unfolding finish call_agent
    run_confirmed (ok plan) managed others done plan_id plans s =
        let (answer, s') = call_agent plan managed s in
        let (result, plans') = finish answer done plan_id (others plans) in (result, plans', s')
    run_confirmed (err e) managed others done plan_id plans s = (err e, plans, s)

    -- `execute_plan`: `now` is the time of the look-up, `managed` the mount points in the database.
    unfoldable pub execute_plan :
        ℕ
        → ℕ
        → String
        → String
        → String
        → List String
        → (Plans → Plans)
        → Plans
        → S
        → Result Exc String × Plans × S
    unfolding run_confirmed begin
    execute_plan now done plan_id given typed managed others plans s =
        let (accepted, plans') = begin now plan_id given typed plans in
        run_confirmed accepted managed others done plan_id plans' s
