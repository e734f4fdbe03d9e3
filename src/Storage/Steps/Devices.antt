-- ===== src/Storage/Steps/Devices.antt =====
-- Which devices the commands of a plan write to, of all of its tools.
use nas_os.Common.{
  String, ◌<>◌, List, [], ◌∷◌, ◌++◌, ok, map, drop, take, Bool-cases, ◌≡◌, refl, ap, sym, ◌∙◌, inl,
  inr, ◌==◌, string_eq, if◌then◌else◌, >>=-eq-ok, ok-injective,
}
use mathlib.Core.List.{append-nil}
use nas_os.Common.Text.{str, ends_in_digit}
use nas_os.Storage.Spec.{StoragePlanSpec}
use nas_os.Storage.Steps.{
  PlanStep, run_step, disk_steps, array_steps, volume_steps, mount_steps, mkfs_argv, partition_path,
  partitions, first_partition, array_device, lv_device, build_steps, mdadm_create_argv,
}
use nas_os.Storage.Steps.Scope.{targets, targets-append, mkfs_cases}

-- The devices that a command writes to: those that its words name after its options. `blkid`,
-- `systemd-escape` and `restorecon` write to none; of a command that is not known, every word counts.
abbrev written_by : String → List String → List String
written_by tool args =
    if tool == "wipefs"
    then drop 1 args
    else if tool == "parted"
    then take 1 (drop 1 args)
    else if tool == "mdadm"
    then drop 7 args
    else if tool == "vgcreate"
    then drop 1 args
    else if tool == "lvcreate"
    then []
    else if tool == "mkfs.xfs"
    then drop 2 args
    else if tool == "mkfs.ext4"
    then drop 2 args
    else if tool == "blkid"
    then []
    else if tool == "systemd-escape"
    then []
    else if tool == "restorecon"
    then []
    else args

abbrev pub written : List String → List String
written [] = []
written (tool ∷ args) = written_by tool args

-- The first partition of a disk.
abbrev part_one : String → String
part_one disk = if ends_in_digit disk then disk <> "p1" else disk <> "1"

abbrev first_of : List String → String
first_of [] = ""
first_of (p ∷ ps) = p

abbrev twice : List String → List String
twice [] = []
twice (d ∷ ds) = d ∷ d ∷ twice ds

-- What carries the volume: the partition of a single disk, or the array.
abbrev volume_base : StoragePlanSpec → String
volume_base spec =
    if spec.level == "basic"
    then first_of (map part_one spec.disk_paths)
    else "/dev/md/" <> spec.array_name

-- The devices of a plan: each disk to be wiped and then partitioned, for an array the first
-- partitions of the disks, then what carries the volume for the physical volume and for the group,
-- and the logical volume.
abbrev pub devices_of : StoragePlanSpec → List String
devices_of spec =
    twice spec.disk_paths
    ++ ((if spec.level == "basic" then [] else map part_one spec.disk_paths)
        ++ (volume_base spec
            ∷ volume_base spec
            ∷ ("/dev/" <> (spec.vg_name <> ("/" <> spec.lv_name)))
            ∷ []))

written-disk_steps : (disks : List String) → targets written (disk_steps disks) ≡ twice disks
unfolding disk_steps string_eq
written-disk_steps [] = refl
written-disk_steps (d ∷ ds) = ap (λ r. d ∷ d ∷ r) (written-disk_steps ds)

partition_path-one : (disk : String) → partition_path disk 1 ≡ part_one disk
unfolding partition_path str
partition_path-one disk = refl

map-partition_path :
    (disks : List String) → map (λ disk. partition_path disk 1) disks ≡ map part_one disks
map-partition_path [] = refl
map-partition_path (d ∷ ds) = simp (partition_path-one d, map-partition_path ds)

first_partition-ok : (ps : List String) (p : String) → first_partition ps ≡ ok p → p ≡ first_of ps
unfolding first_partition
first_partition-ok [] p h = cc
first_partition-ok (q ∷ ps) p h = sym (ok-injective h)

written-mdadm_create_argv :
    (description name level : String) (devices : List String)
    → targets written (run_step description (mdadm_create_argv name level devices) ∷ []) ≡ devices
unfolding mdadm_create_argv string_eq
written-mdadm_create_argv description name level devices = append-nil devices

written-array_steps :
    (spec : StoragePlanSpec) (r : String × List PlanStep)
    → array_steps spec ≡ ok r
    → (r.0 ≡ volume_base spec)
      × (targets written r.1 ≡ (if spec.level == "basic" then [] else map part_one spec.disk_paths))
unfolding array_steps partitions array_device
written-array_steps spec r h = elim (Bool-cases (spec.level == "basic")) [
  | inl e ↦
      let h1 = rw e at h in
      let (p, first, same) =
        >>=-eq-ok (first_partition (map (λ disk. partition_path disk 1) spec.disk_paths)) _ h1 in
      let made = sym (ok-injective same) in
      rw e (
        ap (λ (x : String × List PlanStep). x.0) made
            ∙ first_partition-ok _ p first
            ∙ ap first_of (map-partition_path spec.disk_paths),
        ap (λ (x : String × List PlanStep). targets written x.1) made,
      )
  | inr e ↦
      let h1 = rw e at h in
      let made = sym (ok-injective h1) in
      rw e (
        ap (λ (x : String × List PlanStep). x.0) made,
        ap (λ (x : String × List PlanStep). targets written x.1) made
            ∙ written-mdadm_create_argv
                ("Create RAID " <> (spec.level <> (" array " <> spec.array_name))) spec.array_name
                spec.level (map (λ disk. partition_path disk 1) spec.disk_paths)
            ∙ map-partition_path spec.disk_paths,
      )
]

written-volume_steps :
    (spec : StoragePlanSpec) (pv fs : String) (argv : List String)
    → mkfs_argv fs spec.lv_name (lv_device spec) ≡ ok argv
    → targets written (volume_steps spec pv argv ++ mount_steps spec)
      ≡ pv ∷ pv ∷ ("/dev/" <> (spec.vg_name <> ("/" <> spec.lv_name))) ∷ []
unfolding volume_steps mount_steps lv_device string_eq
written-volume_steps spec pv fs argv h = elim (mkfs_cases fs spec.lv_name (lv_device spec) argv h) [
  | inl e ↦ rw e refl
  | inr e ↦ rw e refl
]

-- The devices that the commands of a built plan write to.
pub written-build_steps :
    (spec : StoragePlanSpec) (steps : List PlanStep)
    → build_steps spec ≡ ok steps
    → targets written steps ≡ devices_of spec
unfolding build_steps
written-build_steps spec steps h =
    let (a, array, h') = >>=-eq-ok (array_steps spec) _ h in
    let (argv, mkfs, e) =
      >>=-eq-ok (mkfs_argv spec.filesystem spec.lv_name (lv_device spec)) _ h' in
    let (base, members) = written-array_steps spec a array in
    let last = written-volume_steps spec a.0 spec.filesystem argv mkfs in
    let all_last : List PlanStep = volume_steps spec a.0 argv ++ mount_steps spec in
    let disks : List PlanStep = disk_steps spec.disk_paths in
    ap (targets written) (sym (ok-injective e))
    ∙ targets-append written disks (a.1 ++ all_last)
    ∙ ap (λ r. targets written disks ++ r) (targets-append written a.1 all_last)
    ∙ rw (written-disk_steps spec.disk_paths, members, last, base) refl
