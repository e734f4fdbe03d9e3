-- ===== src/Storage/Plan/Confirm.antt =====
-- `execute_plan` of services/storage/plan.py, among the other requests.
use nas_os.Common.{ℕ, ◌+◌, ◌≤◌, String, Option, none, some, List, [], ◌∷◌, ◌++◌, Result, ok, err}
use nas_os.Common.{Result-cases, ◌⊎◌, inl, inr, string_eq, ◌≡◌, refl, arith, ok-injective, sym, ap}
use mathlib.Core.Path.{subst}
use nas_os.Common.Dict
use nas_os.Common.Dict.{
  Dict, NodupKeys, lookup-keep, lookup-insert, lookup-erase, lookup-keep_of_absent, keep-NodupKeys,
  insert-NodupKeys, erase-NodupKeys,
}
use nas_os.Common.Actions.{Action}
use nas_os.Common.Errors.{Exc, service_error}
use nas_os.Config.{Settings}
use nas_os.Storage.Device.{StorageInventoryResult}
use nas_os.Storage.Spec.{StoragePlanSpec}
use nas_os.Storage.Plan.{Plan, Plans, plan_ttl, gc, as_service, CreatePlanRequest, make_plan}
use nas_os.Storage.Plan.Store.{
  put, get, pop, store_plan, create_plan, confirm, begin, call_agent, finish, run_confirmed,
  execute_plan,
}
use nas_os.Storage.Plan.Requests.{
  get-some, get-put, make_plan-stamp, StoreSteps, lookup-StoreSteps, absent-pop, get-absent,
}

module _ (confirm_token : String → StoragePlanSpec → String) where
  confirm-ok :
      (o : Option Plan) (given typed : String) (plan : Plan)
      → confirm confirm_token o given typed ≡ ok plan
      → (o ≡ some plan) × (confirm_token plan.id plan.spec ≡ given) × (typed ≡ plan.confirm_text)
  unfolding confirm
  confirm-ok none given typed plan h = cc
  confirm-ok (some p) given typed plan h = ground arith

  confirm_self :
      (plan : Plan)
      → confirm confirm_token (some plan) (confirm_token plan.id plan.spec) plan.confirm_text
        ≡ ok plan
  unfolding confirm
  confirm_self plan = ground arith

  not-store_plan :
      (e : Exc) (now : ℕ) (plans : Plans) (answer : Plan × String)
      → ¬ ((store_plan confirm_token (err e) now plans).0 ≡ ok answer)
  unfolding store_plan
  not-store_plan e now plans answer h = cc

  store_plan-ok :
      (p : Plan) (now : ℕ) (plans : Plans) (plan : Plan) (token : String)
      → (store_plan confirm_token (ok p) now plans).0 ≡ ok (plan, token)
      → (p ≡ plan) × (confirm_token p.id p.spec ≡ token)
  unfolding store_plan
  store_plan-ok p now plans plan token h = (
    ap (λ (r : Plan × String). r.0) (ok-injective h),
    ap (λ (r : Plan × String). r.1) (ok-injective h),
  )

  finish-ok :
      (r : Result Exc String) (done : ℕ) (plan_id : String) (plans : Plans) (job_id : String)
      → (finish confirm_token r done plan_id plans).0 ≡ ok job_id
      → (finish confirm_token r done plan_id plans).1 ≡ pop done plan_id plans
  unfolding finish
  finish-ok (ok a) done plan_id plans job_id h = refl
  finish-ok (err e) done plan_id plans job_id h = cc

  result-finish :
      (r : Result Exc String) (done : ℕ) (plan_id : String) (plans : Plans)
      → (finish confirm_token r done plan_id plans).0 ≡ r
  unfolding finish
  result-finish (ok a) done plan_id plans = refl
  result-finish (err e) done plan_id plans = refl

module _ (confirm_token : String → StoragePlanSpec → String) {S : Type 0}
    (call : StoragePlanSpec → Dict String ℕ → List String → Action S String) where
  -- An attempt whose tests hold asks the agent once, and returns its answer.
  run_confirmed-accepted :
      (plan : Plan) (managed : List String) (others : Plans → Plans) (done : ℕ) (plan_id : String)
      (plans : Plans) (s : S)
      → let r = run_confirmed confirm_token call (ok plan) managed others done plan_id plans s in
        let a = call plan.spec plan.expected_sizes (managed ++ (plan.spec.mountpoint ∷ [])) s in
        (r.0 ≡ as_service a.0) × (r.2 ≡ a.1)
  unfolding run_confirmed call_agent
  run_confirmed-accepted plan managed others done plan_id plans s =
      (result-finish confirm_token _ done plan_id (others plans), refl)

  run_confirmed-ok :
      (r : Result Exc Plan) (managed : List String) (others : Plans → Plans) (done : ℕ)
      (plan_id : String) (plans : Plans) (s : S) (job_id : String)
      → (run_confirmed confirm_token call r managed others done plan_id plans s).0 ≡ ok job_id
      → (run_confirmed confirm_token call r managed others done plan_id plans s).1
        ≡ pop done plan_id (others plans)
  unfolding run_confirmed
  run_confirmed-ok (ok plan) managed others done plan_id plans s job_id h =
      finish-ok confirm_token _ done plan_id (others plans) job_id h
  run_confirmed-ok (err e) managed others done plan_id plans s job_id h = cc

  -- Whatever other requests do meanwhile, an attempt to execute a plan either is refused without
  -- asking the agent, whose state is as it was, or: the plan is in the store, is at most five
  -- minutes old, its token and its confirmation text are the ones given, and the agent was asked
  -- once, to run that plan's spec with the sizes recorded at its creation; its state is as this
  -- call left it and the result is its answer. The look-up and the tests are made before the call,
  -- with the store as it was then.
  pub execute_plan-needs :
      (now done : ℕ) (plan_id given typed : String) (managed : List String) (others : Plans → Plans)
      (plans : Plans) (s : S)
      → NodupKeys plans
      → ((e : Exc) × (execute_plan confirm_token call now done plan_id given typed managed others
              plans s
            ≡ (err e, gc now plans, s)))
        ⊎ ((plan : Plan) × (Dict.lookup plan_id plans ≡ some plan)
            × (now ≤ plan.created_at + plan_ttl)
            × (confirm_token plan.id plan.spec ≡ given)
            × (typed ≡ plan.confirm_text)
            × ((execute_plan confirm_token call now done plan_id given typed managed others plans
                  s).0
                ≡ as_service
                    (call plan.spec plan.expected_sizes
                      (managed ++ (plan.spec.mountpoint ∷ []))
                      s).0)
            × ((execute_plan confirm_token call now done plan_id given typed managed others plans
                  s).2
                ≡ (call plan.spec plan.expected_sizes
                    (managed ++ (plan.spec.mountpoint ∷ []))
                    s).1))
  unfolding execute_plan begin run_confirmed
  execute_plan-needs now done plan_id given typed managed others plans s u =
      elim (Result-cases (confirm confirm_token (get now plan_id plans) given typed)) [
        | inl (e, c) ↦ inl (e, rw c refl)
        | inr (plan, c) ↦
            let (found, token, text) =
              confirm-ok confirm_token (get now plan_id plans) given typed plan c in
            let (stored, young) = get-some now plan_id plans plan u found in
            let (answer, after) =
              run_confirmed-accepted plan managed others done plan_id (gc now plans) s in
            inr (plan, stored, young, token, text, rw c answer, rw c after)
      ]

  -- Once an attempt to execute a plan has returned the agent's job, no attempt that begins later,
  -- after any steps of any requests that do not create a plan under the same identifier, is
  -- accepted, with any token, confirmation text and time: it is refused as not found, and the
  -- agent is not asked. An attempt that begins before the first one returned is not excluded.
  pub execute_plan-once :
      (now done now' done' : ℕ) (plan_id given typed given' typed' : String)
      (managed managed' : List String) (others others' : Plans → Plans) (plans plans' : Plans)
      (s s' : S) (job_id : String)
      → (execute_plan confirm_token call now done plan_id given typed managed others plans s).0
        ≡ ok job_id
      → StoreSteps confirm_token plan_id
          (execute_plan confirm_token call now done plan_id given typed managed others plans s).1
          plans'
      → execute_plan confirm_token call now' done' plan_id given' typed' managed' others' plans' s'
        ≡ (err (service_error "plan_not_found" "plan not found or expired"), gc now' plans', s')
  unfolding execute_plan begin confirm run_confirmed
  execute_plan-once now done now' done' plan_id given typed given' typed' managed managed' others
        others' plans plans' s s' job_id h steps =
      let after =
        run_confirmed-ok (confirm confirm_token (get now plan_id plans) given typed) managed others
          done plan_id (gc now plans) s job_id h in
      let gone =
        lookup-StoreSteps confirm_token steps
          (rw after (absent-pop confirm_token done plan_id (others (gc now plans)))) in
      rw (get-absent confirm_token now' plan_id plans' gone) refl

  -- A plan that was just created is executed, within five minutes and with its own token and
  -- confirmation text, by one call for the spec of the plan, whatever else the store holds.
  pub execute_plan-create_plan :
      (settings : Settings) (body : CreatePlanRequest) (answer : Result Exc StorageInventoryResult)
      (id : String) (created now done : ℕ) (managed : List String) (others : Plans → Plans)
      (plans : Plans) (plan : Plan) (token : String) (s : S)
      → NodupKeys plans
      → (create_plan confirm_token settings body answer id created plans).0 ≡ ok (plan, token)
      → now ≤ created + plan_ttl
      → ((execute_plan confirm_token call now done id token plan.confirm_text managed others
            (create_plan confirm_token settings body answer id created plans).1
            s).0
          ≡ as_service
              (call plan.spec plan.expected_sizes (managed ++ (plan.spec.mountpoint ∷ [])) s).0)
        × ((execute_plan confirm_token call now done id token plan.confirm_text managed others
              (create_plan confirm_token settings body answer id created plans).1
              s).2
            ≡ (call plan.spec plan.expected_sizes (managed ++ (plan.spec.mountpoint ∷ [])) s).1)
  unfolding create_plan execute_plan begin store_plan
  execute_plan-create_plan settings body answer id created now done managed others plans plan token
        s u h t =
      elim (Result-cases (make_plan settings body answer id created)) [
        | inl (e, made) ↦
            let h' = rw made at h in absurd (not-store_plan confirm_token e created plans _ h')
        | inr (p, made) ↦
            let (same, tokens) =
              store_plan-ok confirm_token p created plans plan token (rw made at h) in
            let (same_id, at) = make_plan-stamp settings body answer id created p made in
            let young : now ≤ p.created_at + plan_ttl = omega arith in
            let found : get now id (put created p plans) ≡ some p =
              subst (λ k. get now k (put created p plans) ≡ some p) same_id
                (get-put now created p plans u young) in
            let found' : get now id (store_plan confirm_token (ok p) created plans).1 ≡ some p =
              found in
            let accepted : confirm confirm_token (some p) token plan.confirm_text ≡ ok p =
              rw (sym same, sym tokens) (confirm_self confirm_token p) in
            rw (made, found', accepted, sym same)
              (run_confirmed-accepted p managed others done id _ s)
      ]
