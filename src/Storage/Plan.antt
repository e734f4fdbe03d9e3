-- ===== src/Storage/Plan.antt =====
-- services/storage/plan.py: the web process's plans and their two phases.
pub mod Store
pub mod Requests
pub mod Confirm
pub mod Checks
use nas_os.Common.{
  ℕ, ◌%◌, ◌+◌, String, ◌<>◌, Bool, not, Option, none, some, List, [], ◌∷◌, ◌++◌, length, ltb,
}
use nas_os.Common.{Result, ok, err, ◌>>=◌, ◌==◌, ◌&&◌, contains, string_eq, nat_eq, if◌then◌else◌}
use nas_os.Common.Dict
use nas_os.Common.Dict.{Dict}
use nas_os.Common.Text.{str, join}
use nas_os.Common.Errors.{Exc, rpc_exception, service_error, validation_error}
use nas_os.Config.{Settings, system_path}
use nas_os.Storage.Device.{NodeInfo, Nodes, StorageInventoryResult}
use nas_os.Storage.Guard.{shown}
use nas_os.Storage.Bytes.{format_bytes}
use nas_os.Storage.Spec.{StoragePlanSpec, validates}
use nas_os.Storage.Steps.{PlanStep, build_steps}
use nas_os.Storage.Resolve.{by_serial}

-- Times are nanoseconds of the monotonic clock. `created_at_wall` is for display only.
pub record Plan : Type 0 where
  pub id : String
  pub spec : StoragePlanSpec
  pub steps : List PlanStep
  pub expected_sizes : Dict String ℕ
  pub data_loss_summary : String
  pub confirm_text : String
  pub created_at : ℕ

-- `PLAN_TTL_SECONDS`
abbrev pub plan_ttl : ℕ
plan_ttl = 300_000_000_000

-- `PlanStore._plans`
abbrev pub Plans : Type 0
Plans = Dict String Plan

-- `created_at < now - PLAN_TTL_SECONDS` fails
unfoldable pub is_fresh : ℕ → Plan → Bool
is_fresh now plan = not (ltb (plan.created_at + plan_ttl) now)

-- `PlanStore._gc`
unfoldable pub gc : ℕ → Plans → Plans
gc now = Dict.keep (is_fresh now)

-- `except RpcCallError as exc: raise StorageServiceError(exc.code, exc.message)`
unfoldable pub as_service {ℓ} : {A : Type ℓ} → Result Exc A → Result Exc A
as_service (err (rpc_exception code message)) = err (service_error code message)
as_service r = r

unfoldable pub level_min_disks : String → Option ℕ
unfolding string_eq
level_min_disks level =
    if level == "basic"
    then some 1
    else if level == "1"
    then some 2
    else if level == "5"
    then some 3
    else if level == "6"
    then some 4
    else if level == "10"
    then some 4
    else none

-- The checks of a level against a number of disks, in the order of the code.
unfoldable pub check_count : String → ℕ → Option ℕ → Result Exc (Unit {0})
unfolding nat_eq
check_count level count none =
    err (service_error "invalid_level" ("unsupported RAID level: " <> level))
check_count level count (some minimum) =
    if ltb count minimum
    then err (
        service_error "not_enough_disks"
          ("level " <> (level <> (" needs at least " <> (str minimum <> " disk(s)")))))
    else if level == "basic" && not (count == 1)
    then err (service_error "invalid_disk_count" "basic (single-disk) needs exactly 1 disk")
    else if level == "10" && not (count % 2 == 0)
    then err (service_error "invalid_disk_count" "level 10 needs an even number of disks")
    else ok tt

-- What the loop over the serials collects: a path, a size and a line for each disk.
pub record Selected : Type 0 where
  pub disk_paths : List String
  pub expected_sizes : Dict String ℕ
  pub summary_lines : List String

unfoldable pub select_disk : String → Option NodeInfo → Result Exc NodeInfo
unfolding shown
select_disk serial none = err (service_error "not_found" ("no such disk: " <> serial))
select_disk serial (some n) =
    if n.protected
    then err (
        service_error "device_protected"
          (n.path <> (" (" <> (serial <> (") is protected: " <> shown n.protected_reason)))))
    else ok n

unfoldable pub summary_line : String → NodeInfo → String
unfolding format_bytes
summary_line serial n = n.path <> (" (" <> (serial <> (", " <> (format_bytes n.size <> ")"))))

unfoldable pub add_disk : Selected → String → NodeInfo → Selected
unfolding summary_line
add_disk s serial n = record {
  disk_paths = s.disk_paths ++ (n.path ∷ []);
  expected_sizes = Dict.insert serial n.size s.expected_sizes;
  summary_lines = s.summary_lines ++ (summary_line serial n ∷ []);
}

unfoldable pub select_disks : Dict String NodeInfo → List String → Selected → Result Exc Selected
unfolding select_disk add_disk
select_disks nodes [] s = ok s
select_disks nodes (serial ∷ serials) s = do
  n ← select_disk serial (Dict.lookup serial nodes)
  select_disks nodes serials (add_disk s serial n)

abbrev pub no_disks : Selected
no_disks = record { disk_paths = []; expected_sizes = []; summary_lines = [] }

-- What the caller asks for.
pub record CreatePlanRequest : Type 0 where
  pub volume_name : String
  pub level : String
  pub filesystem : String
  pub disk_serials : List String

unfoldable pub plan_spec : Settings → CreatePlanRequest → List String → StoragePlanSpec
unfolding system_path
plan_spec settings body disk_paths = record {
  volume_name = body.volume_name;
  level = body.level;
  filesystem = body.filesystem;
  disk_paths = disk_paths;
  disk_serials = body.disk_serials;
  array_name = body.volume_name;
  vg_name = "nasos_" <> body.volume_name;
  lv_name = body.volume_name;
  mountpoint = system_path settings (settings.volumes_root <> ("/" <> body.volume_name));
}

-- `StoragePlanSpec(...)`, which raises where a field does not validate.
unfoldable pub checked_spec : StoragePlanSpec → Result Exc StoragePlanSpec
checked_spec spec = if validates spec then ok spec else err validation_error

unfoldable pub summary : StoragePlanSpec → List String → String
unfolding join
summary spec lines =
    "This will ERASE ALL DATA on: "
    <> (join ", " lines
        <> (". A new "
            <> ((if spec.level == "basic" then "single-disk" else "RAID " <> spec.level)
                <> (" "
                    <> (spec.filesystem
                        <> (" volume '"
                            <> (spec.volume_name
                                <> ("' will be created at " <> (spec.mountpoint <> ".")))))))))

unfoldable pub confirm_text : List String → String
confirm_text (serial ∷ []) = serial
confirm_text _ = "ERASE"

-- The plan for a spec, its steps, and what was collected on the way.
unfoldable pub plan_of : String → ℕ → StoragePlanSpec → Selected → List PlanStep → Plan
unfolding summary confirm_text
plan_of id now spec selected steps = record {
  id = id;
  spec = spec;
  steps = steps;
  expected_sizes = selected.expected_sizes;
  data_loss_summary = summary spec selected.summary_lines;
  confirm_text = confirm_text spec.disk_serials;
  created_at = now;
}

unfoldable pub new_plan : String → ℕ → StoragePlanSpec → Selected → Result Exc Plan
unfolding plan_of
new_plan id now spec selected = do steps ← build_steps spec; ok (plan_of id now spec selected steps)

-- The plan of `create_plan`, from the answer of the call `storage.inventory`.
unfoldable pub make_plan :
    Settings → CreatePlanRequest → Result Exc StorageInventoryResult → String → ℕ → Result Exc Plan
make_plan settings body answer id now = do
  _ ← check_count body.level (length body.disk_serials) (level_min_disks body.level)
  inventory ← as_service answer
  selected ← select_disks (by_serial inventory.disks) body.disk_serials no_disks
  spec ← checked_spec (plan_spec settings body selected.disk_paths)
  new_plan id now spec selected
