-- ===== src/Storage/Resolve/Sound.antt =====
-- What a spec that the agent has resolved is known to satisfy.
use nas_os.Common.{ℕ, String, true, false, Option, none, some, List, [], ◌∷◌, ok}
use nas_os.Common.{◌≡◌, refl, sym, ap, ◌∙◌, ◌⊎◌, inl, inr, arith, >>=-eq-ok, ok-injective}
use nas_os.Common.{contains, string_eq, nat_eq, Option-cases}
use mathlib.Core.Path.{subst}
use mathlib.Core.List.{Memᴰ}
use nas_os.Common.Dict
use nas_os.Common.Dict.{Dict}
use nas_os.Common.Text.{truthy, truthy-none}
use nas_os.Storage.Device.{NodeInfo, Nodes, flatten, StorageInventoryResult}
use nas_os.Storage.Guard.{protected_pvs, compute_protected}
use nas_os.Storage.Guard.Exact.{any_holds, contains-compute_protected}
use nas_os.Storage.Spec.{StoragePlanSpec}
use nas_os.Storage.Resolve.{
  index_node, index_nodes, by_serial, check_disk, resolve_paths, resolve_spec,
}

-- The recorded size of a disk, if there is one, is its size.
abbrev pub SizeFits : NodeInfo → Option ℕ → Type 0
SizeFits n none = Unit
SizeFits n (some expected) = n.size ≡ expected

module _ (nodes : Dict String NodeInfo) (protected_serials : List String)
    (sizes : Dict String ℕ) where
  -- Serial by serial: the path is that of the present, unprotected disk of unchanged size.
  abbrev pub Resolved : List String → List String → Type 0
  Resolved [] [] = Unit
  Resolved (s ∷ ss) (p ∷ ps) =
      ((n : NodeInfo) × (Dict.lookup s nodes ≡ some n)
        × (n.path ≡ p)
        × (contains protected_serials s ≡ false)
        × SizeFits n (Dict.lookup s sizes))
      × Resolved ss ps
  Resolved _ _ = ⊥

  check_disk_sound :
      (s : String) (o : Option NodeInfo) (e : Option ℕ) (n : NodeInfo)
      → check_disk s o protected_serials e ≡ ok n
      → (o ≡ some n) × (contains protected_serials s ≡ false) × SizeFits n e
  unfolding check_disk
  check_disk_sound s none e n h = cc
  check_disk_sound s (some m) none n h = ground arith
  check_disk_sound s (some m) (some e) n h = ground arith

  resolve_paths_sound :
      (serials paths : List String)
      → resolve_paths nodes protected_serials sizes serials ≡ ok paths
      → Resolved serials paths
  unfolding resolve_paths
  resolve_paths_sound [] [] h = tt
  resolve_paths_sound [] (p ∷ ps) h = cc
  resolve_paths_sound (s ∷ ss) [] h =
      let (n, _, h') =
        >>=-eq-ok (check_disk s (Dict.lookup s nodes) protected_serials (Dict.lookup s sizes)) _
          h in
      let (qs, _, e) = >>=-eq-ok (resolve_paths nodes protected_serials sizes ss) _ h' in cc e
  resolve_paths_sound (s ∷ ss) (p ∷ ps) h =
      let (n, found, h') =
        >>=-eq-ok (check_disk s (Dict.lookup s nodes) protected_serials (Dict.lookup s sizes)) _
          h in
      let (qs, rest, e) = >>=-eq-ok (resolve_paths nodes protected_serials sizes ss) _ h' in
      let (o, free, fits) = check_disk_sound s _ _ n found in
      let same : n.path ∷ qs ≡ p ∷ ps = ok-injective e in
      ((n, o, (cc same), free, fits), resolve_paths_sound ss ps (rest ∙ ap ok (cc same)))

index_node_sound :
    (m n : NodeInfo) (found : Dict String NodeInfo) (s : String)
    → Dict.lookup s (index_node m found) ≡ some n
    → ((n ≡ m) × (m.serial ≡ some s) × (truthy (some s) ≡ true)) ⊎ (Dict.lookup s found ≡ some n)
unfolding index_node
index_node_sound m n found s h = elim (Option-cases m.serial) [
  | inl e ↦ inr (rw (e, truthy-none) at h)
  | inr (t, e) ↦ ground (arith, Dict.lookup-insert s t m found)
]

-- A node that the index holds under a serial is a node of the list and has that serial.
index_nodes_sound :
    (ns : List NodeInfo) (found : Dict String NodeInfo) (s : String) (n : NodeInfo)
    → Dict.lookup s (index_nodes ns found) ≡ some n
    → (Memᴰ n ns × (n.serial ≡ some s) × (truthy (some s) ≡ true)) ⊎ (Dict.lookup s found ≡ some n)
unfolding index_nodes
index_nodes_sound [] found s n h = inr h
index_nodes_sound (m ∷ ns) found s n h = elim (index_nodes_sound ns (index_node m found) s n h) [
  | inl (i, e, t) ↦ inl (Memᴰ.tail i, e, t)
  | inr h' ↦ elim (index_node_sound m n found s h') [
    | inl (p, e, t) ↦ inl (Memᴰ.head p, ap (λ (k : NodeInfo). k.serial) p ∙ e, t)
    | inr old ↦ inr old
  ]
]

-- The index of a forest holds under a serial only nodes of the forest that have that serial.
by_serial_sound :
    (disks : Nodes) (s : String) (n : NodeInfo)
    → Dict.lookup s (by_serial disks) ≡ some n
    → Memᴰ n (flatten disks) × (n.serial ≡ some s) × (truthy (some s) ≡ true)
unfolding by_serial
by_serial_sound disks s n h = elim (index_nodes_sound (flatten disks) [] s n h) [
  | inl r ↦ r
  | inr e ↦ cc (Dict.lookup-nil {V = NodeInfo} s)
]

-- The serials of a resolved plan are not in the guard's result.
unprotected :
    (nodes : Dict String NodeInfo) (protected_serials : List String) (sizes : Dict String ℕ)
    (serials paths : List String) (s : String)
    → Resolved nodes protected_serials sizes serials paths
    → contains serials s ≡ true
    → contains protected_serials s ≡ false
unprotected nodes ps sizes [] paths s r c = cc
unprotected nodes ps sizes (t ∷ ts) [] s r c = absurd r
unprotected nodes ps sizes (t ∷ ts) (p ∷ paths) s (d, r) c =
    ground (arith, unprotected nodes ps sizes ts paths s r)

-- Serial by serial: the path is that of a device among these that has the serial, is not
-- protected, and has the recorded size.
abbrev pub FromDevices :
    List NodeInfo → List String → Dict String ℕ → List String → List String → Type 0
FromDevices ns prot sizes [] [] = Unit
FromDevices ns prot sizes (s ∷ ss) (p ∷ ps) =
    ((n : NodeInfo) × Memᴰ n ns
      × (n.serial ≡ some s)
      × (n.path ≡ p)
      × (contains prot s ≡ false)
      × SizeFits n (Dict.lookup s sizes))
    × FromDevices ns prot sizes ss ps
FromDevices ns prot sizes _ _ = ⊥

from_devices :
    (disks : Nodes) (prot : List String) (sizes : Dict String ℕ) (serials paths : List String)
    → Resolved (by_serial disks) prot sizes serials paths
    → FromDevices (flatten disks) prot sizes serials paths
from_devices disks prot sizes [] [] r = tt
from_devices disks prot sizes [] (p ∷ ps) r = absurd r
from_devices disks prot sizes (s ∷ ss) [] r = absurd r
from_devices disks prot sizes (s ∷ ss) (p ∷ ps) ((n, found, path, free, fits), r) =
    let (i, serial, _) = by_serial_sound disks s n found in
    ((n, i, serial, path, free, fits), from_devices disks prot sizes ss ps r)

-- When the agent resolves a plan against the inventory that it has just gathered, only the paths
-- of the spec change, and the paths are, serial by serial, those of devices of the inventory that
-- have this serial, are not protected, and have the size that the plan recorded.
pub resolve_spec_sound :
    (spec spec' : StoragePlanSpec) (inventory : StorageInventoryResult) (sizes : Dict String ℕ)
    → let (fresh, protected_serials) = compute_protected inventory in
      resolve_spec spec fresh protected_serials sizes ≡ ok spec'
      → (spec' ≡ record spec { disk_paths = spec'.disk_paths })
        × FromDevices
            (flatten fresh.disks)
            protected_serials
            sizes
            spec.disk_serials
            spec'.disk_paths
unfolding resolve_spec
resolve_spec_sound spec spec' inventory sizes h =
    let (fresh, prot) = compute_protected inventory in
    let (paths, found, e) =
      >>=-eq-ok (resolve_paths (by_serial fresh.disks) prot sizes spec.disk_serials) _ h in
    let same : record spec { disk_paths = paths } ≡ spec' = ok-injective e in
    subst
      (λ (r : StoragePlanSpec).
        (r ≡ record spec { disk_paths = r.disk_paths })
        × FromDevices (flatten fresh.disks) prot sizes spec.disk_serials r.disk_paths)
      same
      (
        refl,
        from_devices fresh.disks prot sizes spec.disk_serials paths
            (resolve_paths_sound (by_serial fresh.disks) prot sizes spec.disk_serials paths found),
      )

-- When the agent resolves a plan, no disk with a serial of the plan is marked or holds, at any
-- depth, a node that is mounted, swap, an active physical volume or a RAID member.
pub resolve_spec-unused :
    (spec spec' : StoragePlanSpec) (inventory : StorageInventoryResult) (sizes : Dict String ℕ)
    (serial : String)
    → let (fresh, protected_serials) = compute_protected inventory in
      resolve_spec spec fresh protected_serials sizes ≡ ok spec'
      → contains spec.disk_serials serial ≡ true
      → truthy (some serial) ≡ true
      → any_holds (protected_pvs inventory) serial inventory.disks ≡ false
unfolding resolve_spec
resolve_spec-unused spec spec' inventory sizes serial h c t =
    let (fresh, prot) = compute_protected inventory in
    let (paths, found, _) =
      >>=-eq-ok (resolve_paths (by_serial fresh.disks) prot sizes spec.disk_serials) _ h in
    sym (contains-compute_protected inventory serial t)
    ∙ unprotected (by_serial fresh.disks) prot sizes spec.disk_serials paths serial
        (resolve_paths_sound (by_serial fresh.disks) prot sizes spec.disk_serials paths found) c
