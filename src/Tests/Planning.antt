-- ===== src/Tests/Planning.antt =====
-- The plan builder and the web process's plans, at the inventory of `Disks`.
use nas_os.Common.{
  ℕ, ◌+◌, ◌*◌, ◌≤◌, ◌%◌, String, ◌<>◌, true, some, List, [], ◌∷◌, length, Result, ok, err, ◌≡◌, ◌⊎◌,
  refl, arith, string_eq, nat_eq, option_eq, if◌then◌else◌, ◌==◌, succeeds, value_of_succeeds,
}
use nas_os.Common.Dict
use nas_os.Common.Dict.{Dict, NodupKeys}
use nas_os.Common.Text.{truthy}
use nas_os.Common.Actions.{Action}
use nas_os.Common.Errors.{Exc, service_error}
use nas_os.Storage.Device.{flatten, StorageInventoryResult}
use nas_os.Storage.Spec.{StoragePlanSpec, validates}
use nas_os.Storage.Steps.{PlanStep, build_steps, array_steps, mkfs_argv, partitions}
use nas_os.Storage.Steps.Total.{build_steps_total}
use nas_os.Storage.Steps.Scope.{target, targets, targets-build_steps}
use nas_os.Storage.Resolve.{by_serial}
use nas_os.Storage.Plan.{
  Plan, Plans, plan_ttl, gc, make_plan, check_count, level_min_disks, select_disks, plan_spec,
  checked_spec, new_plan, as_service, CreatePlanRequest,
}
use nas_os.Storage.Plan.Requests.{StoreSteps, here, next, plan_created, plan_begun}
use nas_os.Storage.Plan.Store.{create_plan, begin, execute_plan}
use nas_os.Storage.Plan.Checks.{Chosen, make_plan_sound, make_plan-same_disk}
use nas_os.Storage.Plan.Confirm.{execute_plan-needs, execute_plan-once, execute_plan-create_plan}
use nas_os.Tests.Disks.{sda, inventory, spec, settings, body}

spec-validates : validates spec ≡ true
unfolding validates string_eq
spec-validates = refl

the_steps :
    (steps : List PlanStep) × (build_steps spec ≡ ok steps)
    × (length steps ≡ 2 * length spec.disk_paths + (if spec.level == "basic" then 10 else 11))
the_steps = build_steps_total spec spec-validates

build_steps_total_example :
    (steps : List PlanStep) × (build_steps spec ≡ ok steps)
    × (length steps ≡ 2 * length spec.disk_paths + (if spec.level == "basic" then 10 else 11))
build_steps_total_example = build_steps_total spec spec-validates

targets-build_steps_example :
    (targets (target "wipefs") the_steps.0 ≡ spec.disk_paths)
    × (targets (target "parted") the_steps.0 ≡ spec.disk_paths)
targets-build_steps_example = targets-build_steps spec the_steps.0 the_steps.1

plan_result : Result Exc Plan
plan_result = make_plan settings body (ok inventory) "p1" 7

plan_made : succeeds plan_result ≡ true
unfolding plan_result make_plan check_count level_min_disks as_service truthy by_serial select_disks
    plan_spec checked_spec validates new_plan build_steps array_steps partitions mkfs_argv flatten
    string_eq nat_eq option_eq Dict.lookup Dict.insert
plan_made = refl

the_plan : (plan : Plan) × (make_plan settings body (ok inventory) "p1" 7 ≡ ok plan)
unfolding plan_result
the_plan = value_of_succeeds (make_plan settings body (ok inventory) "p1" 7) plan_made

make_plan_sound_example :
    (minimum : ℕ) × (found : StorageInventoryResult) × (level_min_disks body.level ≡ some minimum)
    × (minimum ≤ length body.disk_serials)
    × (body.level ≡ "basic" → length body.disk_serials ≡ 1)
    × (body.level ≡ "10" → length body.disk_serials % 2 ≡ 0)
    × (◌≡◌ {A = Result Exc StorageInventoryResult} (ok inventory) (ok found))
    × (validates the_plan.0.spec ≡ true)
    × (build_steps the_plan.0.spec ≡ ok the_plan.0.steps)
    × Chosen (by_serial found.disks) body.disk_serials the_plan.0.spec.disk_paths
make_plan_sound_example = make_plan_sound settings body (ok inventory) "p1" 7 the_plan.0 the_plan.1

-- A stand-in for the HMAC, and an agent that accepts and counts its calls.
abbrev confirm_token : String → StoragePlanSpec → String
confirm_token id _ = "token of " <> id

abbrev agent : StoragePlanSpec → Dict String ℕ → List String → Action ℕ String
agent _ _ _ calls = (ok "job", 1 + calls)

abbrev alone : Plans → Plans
alone plans = plans

abbrev created : Result Exc (Plan × String) × Plans
created = create_plan confirm_token settings body (ok inventory) "p1" 7 []

created_ok : created.0 ≡ ok (the_plan.0, confirm_token the_plan.0.id the_plan.0.spec)
unfolding create_plan
created_ok = rw (the_plan.1)

accepted : Result Exc String × Plans × ℕ
accepted =
    execute_plan confirm_token agent 9 10 "p1" (confirm_token the_plan.0.id the_plan.0.spec)
      the_plan.0.confirm_text [] alone created.1 0

execute_plan-create_plan_example : (accepted.0 ≡ as_service (ok "job")) × (accepted.2 ≡ 1)
unfolding accepted
execute_plan-create_plan_example =
    execute_plan-create_plan confirm_token agent settings body (ok inventory) "p1" 7 9 10 [] alone
      [] the_plan.0 (confirm_token the_plan.0.id the_plan.0.spec) 0 tt created_ok (omega arith)

accepted_ok : accepted.0 ≡ ok "job"
unfolding as_service
accepted_ok = execute_plan-create_plan_example.0

created-NodupKeys : NodupKeys created.1
unfolding create_plan gc Dict.keep
created-NodupKeys = rw (the_plan.1) (Dict.insert-NodupKeys the_plan.0.id the_plan.0 [] tt)

execute_plan-needs_example :
    ((e : Exc) × (execute_plan confirm_token agent 9 10 "p1" "x" "y" [] alone created.1 0
        ≡ (err e, gc 9 created.1, 0)))
    ⊎ ((plan : Plan) × (Dict.lookup "p1" created.1 ≡ some plan)
        × (9 ≤ plan.created_at + plan_ttl)
        × (confirm_token plan.id plan.spec ≡ "x")
        × ("y" ≡ plan.confirm_text)
        × ((execute_plan confirm_token agent 9 10 "p1" "x" "y" [] alone created.1 0).0
            ≡ as_service (ok "job"))
        × ((execute_plan confirm_token agent 9 10 "p1" "x" "y" [] alone created.1 0).2 ≡ 1))
execute_plan-needs_example =
    execute_plan-needs confirm_token agent 9 10 "p1" "x" "y" [] alone created.1 0 created-NodupKeys

-- Between the two attempts another plan is created and looked up.
abbrev second_body : CreatePlanRequest
second_body = record body { volume_name = "v2" }

abbrev after_others : Plans
after_others =
    (begin confirm_token 11 "p2" "x" "y"
      (create_plan confirm_token settings second_body (ok inventory) "p2" 11 accepted.1).1).1

others_steps : StoreSteps confirm_token "p1" accepted.1 after_others
unfolding string_eq
others_steps =
    next (next here (plan_created settings second_body (ok inventory) "p2" 11 refl))
      (plan_begun 11 "p2" "x" "y")

execute_plan-once_example :
    execute_plan confirm_token agent 11 12 "p1" "x" "y" [] alone after_others 5
    ≡ (err (service_error "plan_not_found" "plan not found or expired"), gc 11 after_others, 5)
unfolding accepted
execute_plan-once_example =
    execute_plan-once confirm_token agent 9 10 11 12 "p1"
      (confirm_token the_plan.0.id the_plan.0.spec) the_plan.0.confirm_text "x" "y" [] [] alone
      alone created.1 after_others 0 5 "job" accepted_ok others_steps

abbrev mirror : CreatePlanRequest
mirror = record body { level = "1"; disk_serials = "S1" ∷ "S1" ∷ [] }

S1_found : Dict.lookup "S1" (by_serial inventory.disks) ≡ some sda
unfolding by_serial truthy flatten string_eq Dict.lookup Dict.insert
S1_found = refl

mirror-validates : validates (plan_spec settings mirror (sda.path ∷ sda.path ∷ [])) ≡ true
unfolding validates plan_spec string_eq
mirror-validates = refl

make_plan-same_disk_example :
    (plan : Plan) × (make_plan settings mirror (ok inventory) "p2" 7 ≡ ok plan)
    × (plan.spec.disk_paths ≡ "/dev/sda" ∷ "/dev/sda" ∷ [])
make_plan-same_disk_example =
    make_plan-same_disk settings "v1" "xfs" "S1" "p2" inventory 7 sda S1_found refl mirror-validates
