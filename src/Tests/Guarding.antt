-- ===== src/Tests/Guarding.antt =====
-- The guard and the agent's resolution of a plan, at the inventory of `Disks`.
use nas_os.Common.{
  true, false, some, [], ◌∷◌, ok, err, ◌≡◌, refl, contains, string_eq, nat_eq, option_eq,
}
use nas_os.Common.Dict
use nas_os.Common.Text.{truthy}
use nas_os.Common.Errors.{rpc_exception}
use nas_os.Storage.Device.{flatten}
use nas_os.Storage.Guard.{compute_protected, protected_pvs}
use nas_os.Storage.Guard.Exact.{
  any_holds, marked_all, contains-compute_protected, compute_protected-eq-marked,
}
use nas_os.Storage.Spec.{StoragePlanSpec}
use nas_os.Storage.Resolve.{resolve_spec}
use nas_os.Storage.Resolve.Sound.{FromDevices, resolve_spec_sound, resolve_spec-unused}
use nas_os.Tests.Disks.{inventory, spec, sizes}

abbrev resolved : StoragePlanSpec
resolved = record spec { disk_paths = "/dev/sda" ∷ [] }

resolves :
    resolve_spec spec (compute_protected inventory).0 (compute_protected inventory).1 sizes
    ≡ ok resolved
unfolding resolve_spec compute_protected flatten string_eq nat_eq option_eq Dict.lookup Dict.insert
resolves = refl

refuses_root_disk :
    resolve_spec
      (record spec { disk_serials = "S2" ∷ [] })
      (compute_protected inventory).0
      (compute_protected inventory).1
      sizes
    ≡ err (rpc_exception "device_protected" "disk S2 is now protected: mounted at /")
unfolding resolve_spec compute_protected flatten string_eq nat_eq option_eq Dict.lookup Dict.insert
refuses_root_disk = refl

S1_truthy : truthy (some "S1") ≡ true
unfolding truthy
S1_truthy = refl

S2_truthy : truthy (some "S2") ≡ true
unfolding truthy
S2_truthy = refl

S1_listed : contains spec.disk_serials "S1" ≡ true
unfolding string_eq
S1_listed = refl

contains-compute_protected_example :
    contains (compute_protected inventory).1 "S2"
    ≡ any_holds (protected_pvs inventory) "S2" inventory.disks
contains-compute_protected_example = contains-compute_protected inventory "S2" S2_truthy

compute_protected-eq-marked_example :
    (compute_protected inventory).0
    ≡ record inventory { disks = marked_all (protected_pvs inventory) inventory.disks }
compute_protected-eq-marked_example = compute_protected-eq-marked inventory

resolve_spec_sound_example :
    (resolved ≡ record spec { disk_paths = resolved.disk_paths })
    × FromDevices
        (flatten (compute_protected inventory).0.disks)
        (compute_protected inventory).1
        sizes
        spec.disk_serials
        resolved.disk_paths
resolve_spec_sound_example = resolve_spec_sound spec resolved inventory sizes resolves

resolve_spec-unused_example : any_holds (protected_pvs inventory) "S1" inventory.disks ≡ false
resolve_spec-unused_example =
    resolve_spec-unused spec resolved inventory sizes "S1" resolves S1_listed S1_truthy
