-- ===== src/Storage/Steps.antt =====
-- system/storage_plan.py, with the argv builders of system/{parted,mdadm,lvm,mkfs}.py.
pub mod Total
pub mod Scope
pub mod Devices
use nas_os.Common.{ℕ, String, ◌<>◌, List, [], ◌∷◌, ◌++◌, map, length, Result, ok, err, ◌>>=◌}
use nas_os.Common.{◌==◌, string_eq, if◌then◌else◌}
use nas_os.Common.Text.{str, ends_in_digit}
use nas_os.Common.Errors.{Exc, mkfs_error, index_error}
use nas_os.Storage.Spec.{StoragePlanSpec}

-- parted.py
unfoldable pub wipefs_argv : String → List String
wipefs_argv device = "wipefs" ∷ "-a" ∷ device ∷ []

unfoldable pub mkpart_argv : String → List String
mkpart_argv device =
    "parted" ∷ "-s" ∷ device ∷ "mklabel" ∷ "gpt" ∷ "mkpart" ∷ "nasos" ∷ "1MiB" ∷ "100%" ∷ "set"
    ∷ "1" ∷ "raid" ∷ "on" ∷ []

-- mdadm.py, `create_argv`
unfoldable pub mdadm_create_argv : String → String → List String → List String
unfolding str
mdadm_create_argv array_name level devices =
    "mdadm"
    ∷ "--create"
    ∷ ("/dev/md/" <> array_name)
    ∷ ("--level=" <> level)
    ∷ ("--raid-devices=" <> str (length devices))
    ∷ "--metadata=1.2"
    ∷ ("--name=" <> array_name)
    ∷ "--run"
    ∷ devices

-- lvm.py
unfoldable pub pvcreate_argv : String → List String
pvcreate_argv device = "pvcreate" ∷ device ∷ []

unfoldable pub vgcreate_argv : String → String → List String
vgcreate_argv vg_name device = "vgcreate" ∷ vg_name ∷ device ∷ []

unfoldable pub lvcreate_full_free_argv : String → String → List String
lvcreate_full_free_argv vg_name lv_name =
    "lvcreate" ∷ "-l" ∷ "100%FREE" ∷ "-n" ∷ lv_name ∷ vg_name ∷ []

-- mkfs.py, `argv`
unfoldable pub mkfs_argv : String → String → String → Result Exc (List String)
mkfs_argv filesystem label device =
    if filesystem == "xfs"
    then ok ("mkfs.xfs" ∷ "-L" ∷ label ∷ device ∷ [])
    else if filesystem == "ext4"
    then ok ("mkfs.ext4" ∷ "-L" ∷ label ∷ device ∷ [])
    else err (mkfs_error ("unsupported filesystem: " <> filesystem))

-- The values of `PlanStep.op`.
pub data Op : Type 0 where
  run write_mount_unit write_target write_dropins daemon_reload enable_start_unit restorecon : Op

pub record PlanStep : Type 0 where
  pub description : String
  pub op : Op
  pub argv : List String

unfoldable pub partition_path : String → ℕ → String
unfolding str ends_in_digit
partition_path disk number =
    if ends_in_digit disk then disk <> ("p" <> str number) else disk <> str number

unfoldable pub array_device : StoragePlanSpec → String
array_device spec = "/dev/md/" <> spec.array_name

unfoldable pub lv_device : StoragePlanSpec → String
lv_device spec = "/dev/" <> (spec.vg_name <> ("/" <> spec.lv_name))

-- `PlanStep(description, op)`
abbrev pub system_step : String → Op → PlanStep
system_step description op = record { description = description; op = op; argv = [] }

abbrev pub run_step : String → List String → PlanStep
run_step description argv = record { description = description; op = run; argv = argv }

-- The loop over `spec.disk_paths`.
unfoldable pub disk_steps : List String → List PlanStep
unfolding wipefs_argv mkpart_argv
disk_steps [] = []
disk_steps (disk ∷ disks) =
    run_step ("Wipe existing signatures on " <> disk) (wipefs_argv disk)
    ∷ run_step ("Create partition table on " <> disk) (mkpart_argv disk)
    ∷ disk_steps disks

unfoldable pub partitions : StoragePlanSpec → List String
unfolding partition_path
partitions spec = map (λ disk. partition_path disk 1) spec.disk_paths

-- `partitions[0]`
unfoldable pub first_partition : List String → Result Exc String
first_partition [] = err index_error
first_partition (p ∷ ps) = ok p

-- `pv_device`, with the step that makes the array.
unfoldable pub array_steps : StoragePlanSpec → Result Exc (String × List PlanStep)
unfolding array_device first_partition
array_steps spec =
    if spec.level == "basic"
    then (do p ← first_partition (partitions spec); ok (p, []))
    else ok (
      array_device spec,
      run_step ("Create RAID " <> (spec.level <> (" array " <> spec.array_name)))
            (mdadm_create_argv spec.array_name spec.level (partitions spec))
          ∷ [],
    )

-- The steps from the physical volume to the file system.
unfoldable pub volume_steps : StoragePlanSpec → String → List String → List PlanStep
unfolding pvcreate_argv vgcreate_argv lvcreate_full_free_argv
volume_steps spec pv_device mkfs =
    run_step ("Initialize physical volume on " <> pv_device) (pvcreate_argv pv_device)
    ∷ run_step ("Create volume group " <> spec.vg_name) (vgcreate_argv spec.vg_name pv_device)
    ∷ run_step ("Create logical volume " <> spec.lv_name)
        (lvcreate_full_free_argv spec.vg_name spec.lv_name)
    ∷ run_step ("Create " <> (spec.filesystem <> " filesystem")) mkfs
    ∷ []

-- The steps that mount the volume.
unfoldable pub mount_steps : StoragePlanSpec → List PlanStep
mount_steps spec =
    system_step ("Create mount unit for " <> spec.mountpoint) write_mount_unit
    ∷ system_step "Ensure nasos-volumes.target exists" write_target
    ∷ system_step "Update service drop-ins (RequiresMountsFor)" write_dropins
    ∷ system_step "Reload systemd" daemon_reload
    ∷ system_step ("Enable and start mount for " <> spec.mountpoint) enable_start_unit
    ∷ system_step ("Apply SELinux context to " <> spec.mountpoint) restorecon
    ∷ []

unfoldable pub build_steps : StoragePlanSpec → Result Exc (List PlanStep)
build_steps spec = do
  (pv_device, array) ← array_steps spec
  mkfs ← mkfs_argv spec.filesystem spec.lv_name (lv_device spec)
  ok (
      disk_steps spec.disk_paths
      ++ (array ++ (volume_steps spec pv_device mkfs ++ mount_steps spec)))
