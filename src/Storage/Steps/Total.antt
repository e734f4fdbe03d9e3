-- ===== src/Storage/Steps/Total.antt =====
-- The plan builder on a spec that pydantic has accepted.
use nas_os.Common.{◌+◌, ◌*◌, String, true, List, [], ◌∷◌, ◌++◌, length, length-append}
use nas_os.Common.{
  ok, ◌≡◌, refl, arith, ◌==◌, string_eq, if◌then◌else◌, ltb, contains, succeeds, value_of_succeeds,
}
use nas_os.Storage.Spec.{StoragePlanSpec, validates, filesystems}
use nas_os.Storage.Steps.{
  PlanStep, disk_steps, array_steps, volume_steps, mount_steps, mkfs_argv, lv_device, partitions,
  build_steps,
}

length-disk_steps : (disks : List String) → length (disk_steps disks) ≡ 2 * length disks
unfolding disk_steps
length-disk_steps [] = refl
length-disk_steps (d ∷ ds) = omega (arith, length-disk_steps ds)

validates-filesystem :
    (spec : StoragePlanSpec) → validates spec ≡ true → contains filesystems spec.filesystem ≡ true
unfolding validates
validates-filesystem spec v = ground arith

validates-disk_paths :
    (spec : StoragePlanSpec) → validates spec ≡ true → ltb 0 (length spec.disk_paths) ≡ true
unfolding validates
validates-disk_paths spec v = ground arith

mkfs_total :
    (fs label device : String)
    → contains filesystems fs ≡ true
    → succeeds (mkfs_argv fs label device) ≡ true
unfolding mkfs_argv
mkfs_total fs label device c = ground arith

array_total :
    (spec : StoragePlanSpec)
    → ltb 0 (length spec.disk_paths) ≡ true
    → succeeds (array_steps spec) ≡ true
unfolding array_steps partitions
array_total spec h = go spec.disk_paths h
  where
    go :
        (disks : List String)
        → ltb 0 (length disks) ≡ true
        → succeeds (array_steps (record spec { disk_paths = disks })) ≡ true
    go [] h = cc
    go (d ∷ ds) h = ground arith

-- How many steps the array takes.
length-array_steps :
    (spec : StoragePlanSpec) (r : String × List PlanStep)
    → array_steps spec ≡ ok r
    → length r.1 + 10 ≡ (if spec.level == "basic" then 10 else 11)
unfolding array_steps
length-array_steps spec r h = ground arith

length-volume_mount :
    (spec : StoragePlanSpec) (pv : String) (argv : List String)
    → length (volume_steps spec pv argv ++ mount_steps spec) ≡ 10
unfolding volume_steps mount_steps
length-volume_mount spec pv argv = refl

-- For a spec that passes validation the builder raises nothing, and its plan has two steps for
-- each disk, one more for an array, and ten for the volume and its mount.
pub build_steps_total :
    (spec : StoragePlanSpec)
    → validates spec ≡ true
    → (steps : List PlanStep) × (build_steps spec ≡ ok steps)
      × (length steps ≡ 2 * length spec.disk_paths + (if spec.level == "basic" then 10 else 11))
unfolding build_steps
build_steps_total spec v =
    let fs = validates-filesystem spec v in
    let (a, array) = value_of_succeeds _ (array_total spec (validates-disk_paths spec v)) in
    let (argv, mkfs) =
      value_of_succeeds _ (mkfs_total spec.filesystem spec.lv_name (lv_device spec) fs) in
    (
      disk_steps spec.disk_paths ++ (a.1 ++ (volume_steps spec a.0 argv ++ mount_steps spec)),
      rw (array, mkfs),
      omega (
        arith,
        length-append (disk_steps spec.disk_paths)
            (a.1 ++ (volume_steps spec a.0 argv ++ mount_steps spec)),
        length-append a.1 (volume_steps spec a.0 argv ++ mount_steps spec),
        length-disk_steps spec.disk_paths,
        length-volume_mount spec a.0 argv,
        length-array_steps spec a array,
      ),
    )
