-- ===== src/Storage/Plan/Requests.antt =====
-- What the web process's requests do to the store of plans, as steps in any order, and what of it a
-- look-up sees.
use nas_os.Common.{ℕ, ◌+◌, ◌≤◌, String, none, some, Result, ok, err}
use nas_os.Common.{
  false, ◌==◌, string_eq, ◌≡◌, refl, arith, ◌∙◌, ok-injective, >>=-eq-ok, sym, ap, length,
}
use nas_os.Common.Dict
use nas_os.Common.Dict.{
  Dict, NodupKeys, lookup-keep, lookup-insert, lookup-erase, lookup-keep_of_absent, keep-NodupKeys,
  insert-NodupKeys, erase-NodupKeys,
}
use nas_os.Common.Errors.{Exc}
use nas_os.Config.{Settings}
use nas_os.Storage.Device.{StorageInventoryResult}
use nas_os.Storage.Spec.{StoragePlanSpec}
use nas_os.Storage.Plan.{
  Plan, Plans, plan_ttl, is_fresh, gc, as_service, CreatePlanRequest, make_plan, new_plan, Selected,
  check_count, level_min_disks, select_disks, no_disks, checked_spec, plan_spec,
}
use nas_os.Storage.Steps.{build_steps}
use nas_os.Storage.Resolve.{by_serial}
use nas_os.Storage.Plan.Store.{put, get, pop, store_plan, create_plan, begin, finish}

-- A look-up finds a plan that is in the store and not too old.
pub get-some :
    (now : ℕ) (plan_id : String) (plans : Plans) (plan : Plan)
    → NodupKeys plans
    → get now plan_id plans ≡ some plan
    → (Dict.lookup plan_id plans ≡ some plan) × (now ≤ plan.created_at + plan_ttl)
unfolding get gc is_fresh
get-some now plan_id plans plan u h = ground (arith, lookup-keep (is_fresh now) plan_id plans u)

pub get-put :
    (now created : ℕ) (plan : Plan) (plans : Plans)
    → NodupKeys plans
    → now ≤ plan.created_at + plan_ttl
    → get now plan.id (put created plan plans) ≡ some plan
unfolding get put gc is_fresh
get-put now created plan plans u t =
    let kept = keep-NodupKeys (is_fresh created) plans u in
    lookup-keep (is_fresh now) plan.id (Dict.insert plan.id plan (gc created plans))
      (insert-NodupKeys plan.id plan (gc created plans) kept)
    ∙ rw lookup-insert (ground arith)

new_plan-stamp :
    (id : String) (now : ℕ) (spec : StoragePlanSpec) (selected : Selected) (plan : Plan)
    → new_plan id now spec selected ≡ ok plan
    → (plan.id ≡ id) × (plan.created_at ≡ now)
unfolding new_plan
new_plan-stamp id now spec selected plan h =
    let (steps, _, e) = >>=-eq-ok (build_steps spec) _ h in
    (
      ap (λ (p : Plan). p.id) (sym (ok-injective e)),
      ap (λ (p : Plan). p.created_at) (sym (ok-injective e)),
    )

pub make_plan-stamp :
    (settings : Settings) (body : CreatePlanRequest) (answer : Result Exc StorageInventoryResult)
    (id : String) (now : ℕ) (plan : Plan)
    → make_plan settings body answer id now ≡ ok plan
    → (plan.id ≡ id) × (plan.created_at ≡ now)
unfolding make_plan
make_plan-stamp settings body answer id now plan h =
    let (_, _, h1) =
      >>=-eq-ok (check_count body.level (length body.disk_serials) (level_min_disks body.level)) _
        h in
    let (inventory, _, h2) = >>=-eq-ok (as_service answer) _ h1 in
    let (selected, _, h3) =
      >>=-eq-ok (select_disks (by_serial inventory.disks) body.disk_serials no_disks) _ h2 in
    let (spec, _, h4) =
      >>=-eq-ok (checked_spec (plan_spec settings body selected.disk_paths)) _ h3 in
    new_plan-stamp id now spec selected plan h4

module _ (confirm_token : String → StoragePlanSpec → String) where
  -- What the requests of the web process do to the store, one step at a time: they create plans
  -- under other identifiers than `plan_id`, and they begin and finish executions of any plan, in
  -- any order, so that executions overlap.
  pub data StoreStep (plan_id : String) (plans : Plans) : Plans → Type 0 where
    plan_created :
        (settings : Settings) (body : CreatePlanRequest)
        (answer : Result Exc StorageInventoryResult) (id : String) (now : ℕ)
        → (plan_id == id) ≡ false
        → StoreStep plan_id plans (create_plan confirm_token settings body answer id now plans).1
    plan_begun :
        (now : ℕ) (id given typed : String)
        → StoreStep plan_id plans (begin confirm_token now id given typed plans).1
    plan_finished :
        (answer : Result Exc String) (done : ℕ) (id : String)
        → StoreStep plan_id plans (finish confirm_token answer done id plans).1

  pub data StoreSteps (plan_id : String) (plans : Plans) : Plans → Type 0 where
    here : StoreSteps plan_id plans plans
    next :
        {before after : Plans}
        → StoreSteps plan_id plans before
        → StoreStep plan_id before after
        → StoreSteps plan_id plans after

  lookup-gc :
      (now : ℕ) (plan_id : String) (plans : Plans)
      → Dict.lookup plan_id plans ≡ none
      → Dict.lookup plan_id (gc now plans) ≡ none
  unfolding gc
  lookup-gc now plan_id plans h = lookup-keep_of_absent (is_fresh now) plan_id plans h

  lookup-pop :
      (now : ℕ) (id plan_id : String) (plans : Plans)
      → Dict.lookup plan_id plans ≡ none
      → Dict.lookup plan_id (pop now id plans) ≡ none
  unfolding pop
  lookup-pop now id plan_id plans h =
      let h' = lookup-gc now plan_id plans h in
      ground (arith, lookup-erase plan_id id (gc now plans))

  lookup-store_plan :
      (r : Result Exc Plan) (now : ℕ) (plan_id : String) (plans : Plans)
      → ((plan : Plan) → r ≡ ok plan → (plan_id == plan.id) ≡ false)
      → Dict.lookup plan_id plans ≡ none
      → Dict.lookup plan_id (store_plan confirm_token r now plans).1 ≡ none
  unfolding store_plan put
  lookup-store_plan (ok plan) now plan_id plans other h =
      rw (lookup-insert plan_id plan.id plan (gc now plans), other plan refl)
        (lookup-gc now plan_id plans h)
  lookup-store_plan (err e) now plan_id plans other h = h

  lookup-finish :
      (answer : Result Exc String) (done : ℕ) (id plan_id : String) (plans : Plans)
      → Dict.lookup plan_id plans ≡ none
      → Dict.lookup plan_id (finish confirm_token answer done id plans).1 ≡ none
  unfolding finish
  lookup-finish (ok a) done id plan_id plans h = lookup-pop done id plan_id plans h
  lookup-finish (err e) done id plan_id plans h = h

  lookup-StoreStep :
      {plan_id : String} {plans plans' : Plans}
      → StoreStep plan_id plans plans'
      → Dict.lookup plan_id plans ≡ none
      → Dict.lookup plan_id plans' ≡ none
  unfolding create_plan begin
  lookup-StoreStep {plan_id} {plans} (plan_created settings body answer id now other) h =
      lookup-store_plan (make_plan settings body answer id now) now plan_id plans
        (λ plan made. rw (make_plan-stamp settings body answer id now plan made).0 other) h
  lookup-StoreStep {plan_id} {plans} (plan_begun now id given typed) h =
      lookup-gc now plan_id plans h
  lookup-StoreStep {plan_id} {plans} (plan_finished answer done id) h =
      lookup-finish answer done id plan_id plans h

  pub lookup-StoreSteps :
      {plan_id : String} {plans plans' : Plans}
      → StoreSteps plan_id plans plans'
      → Dict.lookup plan_id plans ≡ none
      → Dict.lookup plan_id plans' ≡ none
  lookup-StoreSteps here h = h
  lookup-StoreSteps (next steps step) h = lookup-StoreStep step (lookup-StoreSteps steps h)

  pub absent-pop :
      (done : ℕ) (plan_id : String) (plans : Plans)
      → Dict.lookup plan_id (pop done plan_id plans) ≡ none
  unfolding pop
  absent-pop done plan_id plans = ground (arith, lookup-erase plan_id plan_id (gc done plans))

  pub get-absent :
      (now : ℕ) (plan_id : String) (plans : Plans)
      → Dict.lookup plan_id plans ≡ none
      → get now plan_id plans ≡ none
  unfolding get
  get-absent now plan_id plans h = lookup-gc now plan_id plans h
