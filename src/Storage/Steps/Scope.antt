-- ===== src/Storage/Steps/Scope.antt =====
-- Which devices the commands of a plan write to.
use nas_os.Common.{
  String, ◌<>◌, List, [], ◌∷◌, ◌++◌, ok, ◌≡◌, refl, ap, arith, ◌⊎◌, inl, inr, ◌∙◌, sym,
}
use nas_os.Common.{◌==◌, string_eq, if◌then◌else◌, >>=-eq-ok, ok-injective}
use nas_os.Storage.Spec.{StoragePlanSpec}
use nas_os.Storage.Steps.{
  PlanStep, run, run_step, disk_steps, array_steps, volume_steps, mount_steps, mkfs_argv,
  partitions, lv_device, build_steps, mdadm_create_argv,
}
use mathlib.Core.List.{append-nil, append_assoc}

-- The device that `wipefs -a D` and `parted -s D …` overwrite.
abbrev pub target : String → List String → List String
target tool (word ∷ option ∷ device ∷ rest) = if word == tool then device ∷ [] else []
target tool _ = []

-- What a step's own command does, by a reading of commands; the other kinds of step have none.
abbrev pub step_target : (List String → List String) → PlanStep → List String
step_target read s = elim s.op [ run ↦ read s.argv | _ ↦ [] ]

-- What the commands read as, in the order of the steps.
abbrev pub targets : (List String → List String) → List PlanStep → List String
targets read [] = []
targets read (s ∷ ss) = step_target read s ++ targets read ss

pub targets-append :
    (read : List String → List String) (xs ys : List PlanStep)
    → targets read (xs ++ ys) ≡ targets read xs ++ targets read ys
targets-append read [] ys = refl
targets-append read (x ∷ xs) ys = simp (targets-append read xs ys, append_assoc)

targets-three :
    (read : List String → List String) (xs ys zs : List PlanStep) {disks : List String}
    → targets read xs ≡ disks
    → targets read ys ≡ []
    → targets read zs ≡ []
    → targets read (xs ++ (ys ++ zs)) ≡ disks
targets-three read xs ys zs p q r = simp (targets-append, p, q, r, append-nil)

wiper_disks :
    (disks : List String)
    → (targets (target "wipefs") (disk_steps disks) ≡ disks)
      × (targets (target "parted") (disk_steps disks) ≡ disks)
unfolding disk_steps string_eq
wiper_disks [] = (refl, refl)
wiper_disks (d ∷ ds) = (ap (λ r. d ∷ r) (wiper_disks ds).0, ap (λ r. d ∷ r) (wiper_disks ds).1)

array_cases :
    (spec : StoragePlanSpec) (r : String × List PlanStep)
    → array_steps spec ≡ ok r
    → (r.1 ≡ [])
      ⊎ (r.1
          ≡ run_step
              ("Create RAID " <> (spec.level <> (" array " <> spec.array_name)))
              (mdadm_create_argv spec.array_name spec.level (partitions spec))
            ∷ [])
unfolding array_steps
array_cases spec r h = ground arith

no_array_targets :
    (spec : StoragePlanSpec) (r : String × List PlanStep)
    → array_steps spec ≡ ok r
    → (targets (target "wipefs") r.1 ≡ []) × (targets (target "parted") r.1 ≡ [])
unfolding string_eq mdadm_create_argv
no_array_targets spec r h = elim (array_cases spec r h) [
  | inl e ↦ rw e (refl, refl)
  | inr e ↦ rw e (refl, refl)
]

pub mkfs_cases :
    (fs label device : String) (argv : List String)
    → mkfs_argv fs label device ≡ ok argv
    → (argv ≡ "mkfs.xfs" ∷ "-L" ∷ label ∷ device ∷ [])
      ⊎ (argv ≡ "mkfs.ext4" ∷ "-L" ∷ label ∷ device ∷ [])
unfolding mkfs_argv
mkfs_cases fs label device argv h = ground arith

no_volume_targets :
    (spec : StoragePlanSpec) (pv fs label device : String) (argv : List String)
    → mkfs_argv fs label device ≡ ok argv
    → (targets (target "wipefs") (volume_steps spec pv argv ++ mount_steps spec) ≡ [])
      × (targets (target "parted") (volume_steps spec pv argv ++ mount_steps spec) ≡ [])
unfolding volume_steps mount_steps string_eq
no_volume_targets spec pv fs label device argv h = elim (mkfs_cases fs label device argv h) [
  | inl e ↦ rw e (refl, refl)
  | inr e ↦ rw e (refl, refl)
]

-- When the builder succeeds, the disks whose signatures its plan wipes are the disks of the spec, in
-- their order, and so are the disks that it repartitions.
pub targets-build_steps :
    (spec : StoragePlanSpec) (steps : List PlanStep)
    → build_steps spec ≡ ok steps
    → (targets (target "wipefs") steps ≡ spec.disk_paths)
      × (targets (target "parted") steps ≡ spec.disk_paths)
unfolding build_steps
targets-build_steps spec steps h =
    let (a, array, h') = >>=-eq-ok (array_steps spec) _ h in
    let (argv, mkfs, e) =
      >>=-eq-ok (mkfs_argv spec.filesystem spec.lv_name (lv_device spec)) _ h' in
    let mid = no_array_targets spec a array in
    let last = no_volume_targets spec a.0 spec.filesystem spec.lv_name (lv_device spec) argv mkfs in
    let first = wiper_disks spec.disk_paths in
    let all_last : List PlanStep = volume_steps spec a.0 argv ++ mount_steps spec in
    let disks : List PlanStep = disk_steps spec.disk_paths in
    (
      ap (targets (target "wipefs")) (sym (ok-injective e))
          ∙ targets-three (target "wipefs") disks a.1 all_last first.0 mid.0 last.0,
      ap (targets (target "parted")) (sym (ok-injective e))
          ∙ targets-three (target "parted") disks a.1 all_last first.1 mid.1 last.1,
    )
