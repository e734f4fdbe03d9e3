-- ===== src/Storage/Plan/Checks.antt =====
-- What a plan that `create_plan` has made is known to satisfy.
use mathlib.Core.List.{append-nil, append_assoc}
use mathlib.Core.Path.{subst}
use nas_os.Common.{
  ℕ, ◌%◌, ◌≤◌, String, true, false, Option, none, some, List, [], ◌∷◌, ◌++◌, length, Result, ok,
  err, ◌>>=◌,
}
use nas_os.Common.{string_eq, nat_eq, ◌≡◌, refl, sym, ap, ◌∙◌, arith, >>=-eq-ok, ok-injective}
use nas_os.Common.Dict
use nas_os.Common.Dict.{Dict}
use nas_os.Common.Errors.{Exc, rpc_exception}
use nas_os.Config.{Settings}
use nas_os.Storage.Device.{NodeInfo, StorageInventoryResult}
use nas_os.Storage.Spec.{StoragePlanSpec, validates}
use nas_os.Storage.Steps.{build_steps}
use nas_os.Storage.Steps.Total.{build_steps_total}
use nas_os.Storage.Resolve.{by_serial}
use nas_os.Storage.Plan.{
  Plan, CreatePlanRequest, Selected, make_plan, as_service, check_count, level_min_disks,
  select_disk, select_disks, add_disk, no_disks, checked_spec, plan_spec, plan_of, new_plan,
}

check_count-ok :
    (level : String) (count : ℕ) (o : Option ℕ) (u : Unit {0})
    → check_count level count o ≡ ok u
    → (minimum : ℕ) × (o ≡ some minimum)
      × (minimum ≤ count)
      × (level ≡ "basic" → count ≡ 1)
      × (level ≡ "10" → count % 2 ≡ 0)
unfolding check_count
check_count-ok level count none u h = cc
check_count-ok level count (some m) u h =
    (m, refl, ground arith, λ e. ground arith, λ e. ground arith)

checked_spec-ok :
    (spec spec' : StoragePlanSpec)
    → checked_spec spec ≡ ok spec'
    → (validates spec ≡ true) × (spec ≡ spec')
unfolding checked_spec
checked_spec-ok spec spec' h = ground arith

as_service-ok : {A : Type 0} (r : Result Exc A) (a : A) → as_service r ≡ ok a → r ≡ ok a
unfolding as_service
as_service-ok (ok b) a h = h
as_service-ok (err (rpc_exception c m)) a h = cc
as_service-ok (err _) a h = cc

module _ (nodes : Dict String NodeInfo) where
  -- Serial by serial: the path is that of an unprotected device.
  abbrev pub Chosen : List String → List String → Type 0
  Chosen [] [] = Unit
  Chosen (s ∷ ss) (p ∷ ps) =
      ((n : NodeInfo) × (Dict.lookup s nodes ≡ some n) × (n.protected ≡ false) × (n.path ≡ p))
      × Chosen ss ps
  Chosen _ _ = ⊥

  select_disk-ok :
      (serial : String) (o : Option NodeInfo) (n : NodeInfo)
      → select_disk serial o ≡ ok n
      → (o ≡ some n) × (n.protected ≡ false)
  unfolding select_disk
  select_disk-ok serial none n h = cc
  select_disk-ok serial (some m) n h = ground arith

  select_disks-Chosen :
      (serials : List String) (s t : Selected)
      → select_disks nodes serials s ≡ ok t
      → (paths : List String) × (t.disk_paths ≡ s.disk_paths ++ paths) × Chosen serials paths
  unfolding select_disks add_disk
  select_disks-Chosen [] s t h = (
    [],
    ap (λ (r : Selected). r.disk_paths) (sym (ok-injective h)) ∙ sym (append-nil s.disk_paths),
    tt,
  )
  select_disks-Chosen (serial ∷ serials) s t h =
      let (n, chosen, h') = >>=-eq-ok (select_disk serial (Dict.lookup serial nodes)) _ h in
      let (found, free) = select_disk-ok serial (Dict.lookup serial nodes) n chosen in
      let (ps, e, rest) = select_disks-Chosen serials (add_disk s serial n) t h' in
      (n.path ∷ ps, e ∙ append_assoc s.disk_paths (n.path ∷ []) ps, ((n, found, free, refl), rest))

-- The chain of `make_plan`, taken apart.
make_plan-parts :
    (settings : Settings) (body : CreatePlanRequest) (answer : Result Exc StorageInventoryResult)
    (id : String) (now : ℕ) (plan : Plan)
    → make_plan settings body answer id now ≡ ok plan
    → (u : Unit {0}) × (check_count body.level
          (length body.disk_serials)
          (level_min_disks body.level)
        ≡ ok u)
      × (inventory : StorageInventoryResult) × (as_service answer ≡ ok inventory)
      × (selected : Selected) × (select_disks (by_serial inventory.disks) body.disk_serials no_disks
          ≡ ok selected)
      × (validates (plan_spec settings body selected.disk_paths) ≡ true)
      × (new_plan id now (plan_spec settings body selected.disk_paths) selected ≡ ok plan)
unfolding make_plan
make_plan-parts settings body answer id now plan h =
    let (u, counted, h1) =
      >>=-eq-ok (check_count body.level (length body.disk_serials) (level_min_disks body.level)) _
        h in
    let (inventory, answered, h2) = >>=-eq-ok (as_service answer) _ h1 in
    let (selected, chosen, h3) =
      >>=-eq-ok (select_disks (by_serial inventory.disks) body.disk_serials no_disks) _ h2 in
    let (spec, checked, h4) =
      >>=-eq-ok (checked_spec (plan_spec settings body selected.disk_paths)) _ h3 in
    let (valid, same) =
      checked_spec-ok (plan_spec settings body selected.disk_paths) spec checked in
    (
      u,
      counted,
      inventory,
      answered,
      selected,
      chosen,
      valid,
      subst (λ (s : StoragePlanSpec). new_plan id now s selected ≡ ok plan) (sym same) h4,
    )

-- What the plan's fields are.
new_plan-fields :
    (id : String) (now : ℕ) (spec : StoragePlanSpec) (selected : Selected) (plan : Plan)
    → new_plan id now spec selected ≡ ok plan
    → (plan.spec ≡ spec)
      × (build_steps spec ≡ ok plan.steps)
      × (plan.expected_sizes ≡ selected.expected_sizes)
unfolding new_plan
new_plan-fields id now spec selected plan h =
    let (steps, built, e) = >>=-eq-ok (build_steps spec) _ h in
    let same = sym (ok-injective e) in
    (
      ap (λ (p : Plan). p.spec) same,
      built ∙ ap (λ (p : Plan). ok p.steps) (ok-injective e),
      ap (λ (p : Plan). p.expected_sizes) same,
    )

-- A plan that was made has a supported level with enough disks, one for basic and an even number
-- for level 10; its spec validates, its steps are the builder's, and its paths are, serial by
-- serial, those of devices of the inventory that the guard had not marked.
pub make_plan_sound :
    (settings : Settings) (body : CreatePlanRequest) (answer : Result Exc StorageInventoryResult)
    (id : String) (now : ℕ) (plan : Plan)
    → make_plan settings body answer id now ≡ ok plan
    → (minimum : ℕ) × (inventory : StorageInventoryResult) × (level_min_disks body.level
        ≡ some minimum)
      × (minimum ≤ length body.disk_serials)
      × (body.level ≡ "basic" → length body.disk_serials ≡ 1)
      × (body.level ≡ "10" → length body.disk_serials % 2 ≡ 0)
      × (answer ≡ ok inventory)
      × (validates plan.spec ≡ true)
      × (build_steps plan.spec ≡ ok plan.steps)
      × Chosen (by_serial inventory.disks) body.disk_serials plan.spec.disk_paths
unfolding plan_spec
make_plan_sound settings body answer id now plan h =
    let (u, counted, inventory, answered, selected, chosen, valid, made) =
      make_plan-parts settings body answer id now plan h in
    let (minimum, level, enough, basic, ten) =
      check_count-ok body.level (length body.disk_serials) (level_min_disks body.level) u counted in
    let (paths, e, all_free) =
      select_disks-Chosen (by_serial inventory.disks) body.disk_serials no_disks selected chosen in
    let (spec, built, _) =
      new_plan-fields id now (plan_spec settings body selected.disk_paths) selected plan made in
    (
      minimum,
      inventory,
      level,
      enough,
      basic,
      ten,
      as_service-ok answer inventory answered,
      ap validates spec ∙ valid,
      ap build_steps spec ∙ built,
      subst (Chosen (by_serial inventory.disks) body.disk_serials)
          (sym (ap (λ (s : StoragePlanSpec). s.disk_paths) spec ∙ e)) all_free,
    )

as_service_answer : {A : Type 0} (a : A) → as_service (ok a) ≡ ok a
unfolding as_service
as_service_answer a = refl

mirror_counted : check_count "1" 2 (level_min_disks "1") ≡ ok tt
unfolding check_count level_min_disks string_eq nat_eq
mirror_counted = refl

select_disk_free :
    (serial : String) (n : NodeInfo) → n.protected ≡ false → select_disk serial (some n) ≡ ok n
unfolding select_disk
select_disk_free serial n free = ground arith

select_twice :
    (nodes : Dict String NodeInfo) (serial : String) (n : NodeInfo)
    → Dict.lookup serial nodes ≡ some n
    → n.protected ≡ false
    → select_disks nodes (serial ∷ serial ∷ []) no_disks
      ≡ ok (add_disk (add_disk no_disks serial n) serial n)
unfolding select_disks
select_twice nodes serial n found free = rw found (rw (select_disk_free serial n free) refl)

checked_spec_valid : (spec : StoragePlanSpec) → validates spec ≡ true → checked_spec spec ≡ ok spec
unfolding checked_spec
checked_spec_valid spec valid = rw valid

-- The rest of `make_plan`, once the disks are selected.
finish_plan :
    (id : String) (now : ℕ) (spec : StoragePlanSpec) (selected : Selected)
    → validates spec ≡ true
    → (plan : Plan) × ((checked_spec spec >>= λ s. new_plan id now s selected) ≡ ok plan)
      × (plan.spec ≡ spec)
unfolding new_plan
finish_plan id now spec selected valid =
    let (steps, built, _) = build_steps_total spec valid in
    (plan_of id now spec selected steps, rw (checked_spec_valid spec valid, built) refl, refl)

-- Nothing compares the serials of a request with one another: whenever a plan for a mirror is made
-- from one serial given twice, both members of the array are the same device.
pub make_plan-same_disk :
    (settings : Settings) (volume_name filesystem serial id : String)
    (inventory : StorageInventoryResult) (now : ℕ) (n : NodeInfo)
    → let body : CreatePlanRequest = record {
      volume_name = volume_name;
      level = "1";
      filesystem = filesystem;
      disk_serials = serial ∷ serial ∷ [];
    } in
      Dict.lookup serial (by_serial inventory.disks) ≡ some n
      → n.protected ≡ false
      → validates (plan_spec settings body (n.path ∷ n.path ∷ [])) ≡ true
      → (plan : Plan) × (make_plan settings body (ok inventory) id now ≡ ok plan)
        × (plan.spec.disk_paths ≡ n.path ∷ n.path ∷ [])
unfolding make_plan add_disk plan_spec
make_plan-same_disk settings volume_name filesystem serial id inventory now n found free valid =
    let nodes = by_serial inventory.disks in
    let body : CreatePlanRequest = record {
      volume_name = volume_name;
      level = "1";
      filesystem = filesystem;
      disk_serials = serial ∷ serial ∷ [];
    } in
    let selected : Selected = add_disk (add_disk no_disks serial n) serial n in
    let (plan, made, same) =
      finish_plan id now (plan_spec settings body (n.path ∷ n.path ∷ [])) selected valid in
    (
      plan,
      rw (mirror_counted, as_service_answer) (rw (select_twice nodes serial n found free) made),
      ap (λ (s : StoragePlanSpec). s.disk_paths) same,
    )
