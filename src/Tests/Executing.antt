-- ===== src/Tests/Executing.antt =====
-- A run of the storage job on a host where every command succeeds.
use nas_os.Common.{[], Result, ok, ◌≡◌, refl, ◌⊎◌, string_eq, nat_eq, option_eq}
use nas_os.Common.Dict
use nas_os.Common.Dict.{Dict}
use nas_os.Common.Text.{truthy}
use nas_os.Common.Errors.{Exc}
use nas_os.Storage.Device.{flatten, StorageInventoryResult}
use nas_os.Storage.Guard.{compute_protected, own_reason, serial_if_protected}
use nas_os.Storage.Spec.{StoragePlanSpec}
use nas_os.Storage.Steps.{
  build_steps, array_steps, partitions, mkfs_argv, disk_steps, volume_steps, mount_steps,
}
use nas_os.Storage.Resolve.{by_serial, resolve_spec, resolve_paths, check_disk}
use nas_os.Storage.Execute.{
  Host, Machine, ◌>>=◌, and_then, use_host, report, run_command, name_or_raise, mount_unit_name,
  write_file, check_result, do_run, do_write_unit, write_dropin_files, do_enable, do_step, do_steps,
  do_plan, resolve_fresh, body,
}
use nas_os.Storage.Steps.Scope.{target}
use nas_os.Storage.Steps.Devices.{written, devices_of}
use nas_os.Storage.Execute.Wipes.{overwritten}
use nas_os.Storage.Execute.Scope.{fresh_machine, Begins, body-overwrites, body-completes}
use nas_os.Tests.Disks.{inventory, spec, settings}

abbrev host : Host (Unit {0})
host = record {
  command = λ argv s. (ok (record { returncode = 0; stdout = "srv-v1.mount"; stderr = "" }), s);
  gather = λ s. (ok inventory, s);
  write_managed = λ path content s. (ok "digest", s);
  reload = λ s. (ok tt, s);
  enable = λ unit s. (ok tt, s);
  begin = λ unit s. (ok tt, s);
  wait_active = λ unit seconds s. (ok tt, s);
  make_directories = λ path s. (ok tt, s);
  strip = λ text. text;
  volume_json = λ resolved uuid. uuid;
  version = "1.0";
}

abbrev after : Result Exc (Unit {0}) × Machine (Unit {0})
after = body host settings spec [] [] (fresh_machine tt)

returned : after.0 ≡ ok tt
unfolding body do_plan do_steps do_step do_run ◌>>=◌ and_then use_host report run_command
    mount_unit_name name_or_raise write_file check_result do_enable do_write_unit write_dropin_files
    resolve_fresh resolve_spec resolve_paths check_disk by_serial compute_protected own_reason
    serial_if_protected flatten build_steps array_steps partitions mkfs_argv disk_steps volume_steps
    mount_steps truthy string_eq nat_eq option_eq Dict.lookup Dict.insert
returned = refl

body-overwrites_example :
    (after.1.commands ≡ [])
    ⊎ ((fresh : StorageInventoryResult) × (resolved : StoragePlanSpec) × (◌≡◌
          {A = Result Exc StorageInventoryResult}
          (ok inventory)
          (ok fresh))
        × (resolve_fresh spec [] fresh ≡ ok resolved)
        × Begins host settings spec [] [] tt resolved after.1.commands)
body-overwrites_example = body-overwrites host settings spec [] [] tt

body-completes_example :
    (fresh : StorageInventoryResult) × (resolved : StoragePlanSpec) × (◌≡◌
      {A = Result Exc StorageInventoryResult}
      (ok inventory)
      (ok fresh))
    × (resolve_fresh spec [] fresh ≡ ok resolved)
    × (overwritten (target "wipefs") after.1.commands ≡ resolved.disk_paths)
    × (overwritten (target "parted") after.1.commands ≡ resolved.disk_paths)
    × (overwritten written after.1.commands ≡ devices_of resolved)
body-completes_example = body-completes host settings spec [] [] tt returned
