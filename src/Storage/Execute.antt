-- ===== src/Storage/Execute.antt =====
-- The job of `execute_plan` of agent/handlers/storage.py, with system/mount_units.py. What the job
-- asks of the system is an interface; the job sees each command's result and nothing else.
pub mod Wipes
pub mod Prefix
pub mod Scope
use nas_os.Common.{
  ℕ, ◌+◌, ◌*◌, ◌/◌, String, ◌<>◌, Bool, ◌||◌, not, Option, none, some, List, [], ◌∷◌, ◌++◌, length,
  Result, ok, err, ◌==◌, string_eq, nat_eq, if◌then◌else◌,
}
use nas_os.Common.Dict.{Dict}
use nas_os.Common.Text.{join}
use nas_os.Common.Errors.{Exc, runtime_error, mount_unit_error, assertion_error}
use nas_os.Config.{Settings, system_path}
use nas_os.System.Runner.{CommandResult}
use nas_os.Storage.Device.{StorageInventoryResult}
use nas_os.Storage.Guard.{compute_protected}
use nas_os.Storage.Spec.{StoragePlanSpec}
use nas_os.Storage.Steps.{
  Op, PlanStep, run, write_mount_unit, write_target, write_dropins, daemon_reload,
  enable_start_unit, restorecon, build_steps, lv_device,
}
use nas_os.Storage.Resolve.{resolve_spec}

-- What the job uses of its surroundings: the runner, the inventory, the write of a managed file at a
-- path, systemd, `os.makedirs`; `str.strip` and `json.dumps` of the volume with its UUID.
pub record Host (S : Type 0) : Type 0 where
  pub command : List String → S → Result Exc CommandResult × S
  pub gather : S → Result Exc StorageInventoryResult × S
  pub write_managed : String → String → S → Result Exc String × S
  pub reload : S → Result Exc (Unit {0}) × S
  pub enable : String → S → Result Exc (Unit {0}) × S
  pub begin : String → S → Result Exc (Unit {0}) × S
  pub wait_active : String → ℕ → S → Result Exc (Unit {0}) × S
  pub make_directories : String → S → Result Exc (Unit {0}) × S
  pub strip : String → String
  pub volume_json : StoragePlanSpec → String → String
  pub version : String

-- The system, the commands that the job has run, in order, and its progress in millionths.
pub record Machine (S : Type 0) : Type 0 where
  pub system : S
  pub commands : List (List String)
  pub reports : List (ℕ × String)

-- `unit_name` and `fs_uuid`
pub record Locals : Type 0 where
  pub unit_name : Option String
  pub fs_uuid : String

abbrev pub no_locals : Locals
no_locals = record { unit_name = none; fs_uuid = "" }

abbrev pub Answer : Type 0 → Type 0 → Type 0
Answer S A = Result Exc A × Machine S

module _ {S : Type 0} {A B : Type 0} where
  -- The rest of a block is not reached after an exception.
  unfoldable pub and_then : (A → Machine S → Answer S B) → Answer S A → Answer S B
  and_then rest (ok a, m) = rest a m
  and_then rest (err e, m) = (err e, m)

  infixl 5 ◌>>=◌
  unfoldable pub ◌>>=◌ :
      (Machine S → Answer S A) → (A → Machine S → Answer S B) → Machine S → Answer S B
  unfolding and_then
  (first >>= rest) m = and_then rest (first m)

module _ {S : Type 0} {A : Type 0} where
  abbrev pub give : Result Exc A → Machine S → Answer S A
  give r m = (r, m)

  -- An operation of the surroundings.
  unfoldable pub use_host : (S → Result Exc A × S) → Machine S → Answer S A
  use_host f m = let (r, s) = f m.system in (r, record m { system = s })

unfoldable pub header : String → String
header version =
    "# Generated by NAS-OS " <> (version <> ". DO NOT EDIT; managed by Storage Manager.\n")

unfoldable pub render_mount_unit : String → String → String → String → String
unfolding header
render_mount_unit version uuid where_ fstype =
    header version
    <> ("[Unit]\nDescription=NAS-OS volume "
        <> (where_
            <> ("\n\n[Mount]\nWhat=UUID="
                <> (uuid
                    <> ("\nWhere="
                        <> (where_
                            <> ("\nType="
                                <> (fstype
                                    <> "\nOptions=defaults,noatime\n\n[Install]\nWantedBy=nasos-volumes.target\n"))))))))

unfoldable pub render_volumes_target : String → String
unfolding header
render_volumes_target version =
    header version
    <> "[Unit]\nDescription=NAS-OS managed volumes\n\n[Install]\nWantedBy=multi-user.target\n"

unfoldable pub render_service_dropin : String → List String → String
unfolding header join
render_service_dropin version mountpoints =
    header version
    <> ("[Unit]\nAfter=nasos-volumes.target\nRequiresMountsFor=" <> (join " " mountpoints <> "\n"))

abbrev pub volumes_target_unit_path : String
volumes_target_unit_path = "/etc/systemd/system/nasos-volumes.target"

unfoldable pub mount_unit_path : String → String
mount_unit_path unit_name = "/etc/systemd/system/" <> unit_name

unfoldable pub service_dropin_path : String → String
service_dropin_path service_unit =
    "/etc/systemd/system/" <> (service_unit <> ".d/50-nasos-volumes.conf")

-- `_DROPIN_SERVICES`
abbrev pub dropin_services : List String
dropin_services = "smb.service" ∷ "nfs-server.service" ∷ "vsftpd.service" ∷ []

module _ {S : Type 0} where
  unfoldable pub report : ℕ → String → Machine S → Answer S (Unit {0})
  report fraction message m =
      (ok tt, record m { reports = m.reports ++ ((fraction, message) ∷ []) })

-- The check of the plan against an inventory: the guard marks it, the spec is resolved.
unfoldable pub resolve_fresh :
    StoragePlanSpec → Dict String ℕ → StorageInventoryResult → Result Exc StoragePlanSpec
resolve_fresh spec expected_sizes fresh =
    let (marked, protected_serials) = compute_protected fresh in
    resolve_spec spec marked protected_serials expected_sizes

module _ {S : Type 0} (host : Host S) (settings : Settings) where
  -- `runner.run`
  unfoldable pub run_command : List String → Machine S → Answer S CommandResult
  run_command argv m =
      let (r, s) = host.command argv m.system in
      (r, record m { system = s; commands = m.commands ++ (argv ∷ []) })

  unfoldable pub name_or_raise : String → CommandResult → Result Exc String
  unfolding string_eq nat_eq
  name_or_raise name result =
      if not (result.returncode == 0) || name == ""
      then err (
          mount_unit_error (
            if host.strip result.stderr == ""
            then "systemd-escape produced no unit name"
            else host.strip result.stderr))
      else ok name

  unfoldable pub mount_unit_name : String → Machine S → Answer S String
  unfolding name_or_raise
  mount_unit_name mountpoint = do
    result ← run_command ("systemd-escape" ∷ "-p" ∷ "--suffix=mount" ∷ mountpoint ∷ [])
    give (name_or_raise (host.strip result.stdout) result)

  unfoldable pub write_file : String → String → Machine S → Answer S String
  unfolding system_path
  write_file path content = use_host (host.write_managed (system_path settings path) content)

  module _ (resolved : StoragePlanSpec) (managed_mountpoints : List String) where
    unfoldable pub check_result : PlanStep → Locals → CommandResult → Result Exc Locals
    unfolding nat_eq
    check_result step locals result =
        if result.returncode == 0
        then ok locals
        else err (runtime_error (step.description <> (" failed: " <> host.strip result.stderr)))

    unfoldable pub do_run : PlanStep → Locals → Machine S → Answer S Locals
    unfolding check_result
    do_run step locals = do result ← run_command step.argv; give (check_result step locals result)

    unfoldable pub do_write_unit : Machine S → Answer S Locals
    unfolding render_mount_unit mount_unit_path
    do_write_unit = do
      result ← run_command ("blkid" ∷ "-o" ∷ "value" ∷ "-s" ∷ "UUID" ∷ lv_device resolved ∷ [])
      name ← mount_unit_name resolved.mountpoint
      _ ← write_file (mount_unit_path name) (
          render_mount_unit host.version (host.strip result.stdout) resolved.mountpoint
            resolved.filesystem)
      give (ok (record { unit_name = some name; fs_uuid = host.strip result.stdout }))

    -- The loop over the services.
    unfoldable pub write_dropin_files : List String → Machine S → Answer S (Unit {0})
    unfolding service_dropin_path render_service_dropin
    write_dropin_files [] = give (ok tt)
    write_dropin_files (service_unit ∷ service_units) = do
      _ ←
          write_file (service_dropin_path service_unit)
            (render_service_dropin host.version managed_mountpoints)
      write_dropin_files service_units

    unfoldable pub do_enable : Option String → Machine S → Answer S (Unit {0})
    do_enable none = give (err assertion_error)
    do_enable (some unit_name) = do
      _ ← use_host (host.enable unit_name)
      _ ← use_host (host.begin unit_name)
      use_host (host.wait_active unit_name 30)

    -- The branches over `step.op`.
    unfoldable pub do_step : Op → PlanStep → Locals → Machine S → Answer S Locals
    unfolding do_run do_write_unit write_dropin_files do_enable render_volumes_target
    do_step run step locals = do_run step locals
    do_step write_mount_unit step locals = do_write_unit
    do_step write_target step locals = do
      _ ← write_file volumes_target_unit_path (render_volumes_target host.version)
      give (ok locals)
    do_step write_dropins step locals = do _ ← write_dropin_files dropin_services; give (ok locals)
    do_step daemon_reload step locals = do _ ← use_host host.reload; give (ok locals)
    do_step enable_start_unit step locals = do _ ← do_enable locals.unit_name; give (ok locals)
    do_step restorecon step locals = do
      _ ← run_command ("restorecon" ∷ "-R" ∷ resolved.mountpoint ∷ [])
      give (ok locals)

    -- The loop over the steps, from an index of all of them.
    unfoldable pub do_steps : ℕ → ℕ → List PlanStep → Locals → Machine S → Answer S Locals
    unfolding do_step report
    do_steps total index [] locals = give (ok locals)
    do_steps total index (step ∷ steps) locals = do
      _ ← report (index * 1_000_000 / total) step.description
      locals' ← do_step step.op step locals
      do_steps total (index + 1) steps locals'

    -- What follows the resolution.
    unfoldable pub do_plan : Machine S → Answer S (Unit {0})
    unfolding do_steps
    do_plan = do
      steps ← give (build_steps resolved)
      locals ← do_steps (length steps) 0 steps no_locals
      _ ← use_host (host.make_directories (resolved.mountpoint <> "/@nasos/tmp"))
      report 1_000_000 (host.volume_json resolved locals.fs_uuid)

  -- `body`
  unfoldable pub body :
      StoragePlanSpec → Dict String ℕ → List String → Machine S → Answer S (Unit {0})
  unfolding do_plan report resolve_fresh
  body spec expected_sizes managed_mountpoints = do
    _ ← report 0 "Re-checking device safety"
    fresh ← use_host host.gather
    resolved ← give (resolve_fresh spec expected_sizes fresh)
    do_plan resolved managed_mountpoints
