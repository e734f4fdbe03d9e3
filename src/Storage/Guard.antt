-- ===== src/Storage/Guard.antt =====
-- services/storage/guard.py: which disks must not be touched.
pub mod Exact
pub mod Idempotent
use nas_os.Common.{String, ◌<>◌, Bool, true, Option, none, some, List, [], ◌∷◌, ◌++◌, map}
use nas_os.Common.{◌==◌, contains, string_eq, option_eq, if◌then◌else◌, starts_with, ◌&&◌}
use nas_os.Common.Text.{truthy}
use nas_os.Storage.Device.{
  NodeInfo, DiskNode, Nodes, node, nil, cons, info, VgInfo, LvInfo, StorageInventoryResult,
}

-- `f"{x}"` of a text that may be `None`
unfoldable pub shown : Option String → String
shown none = "None"
shown (some s) = s

-- `_own_reason`
unfoldable pub own_reason : NodeInfo → List String → Option String
unfolding shown truthy
own_reason n protected_pv_paths =
    if truthy n.mountpoint
    then some ("mounted at " <> shown n.mountpoint)
    else if n.fstype == some "swap"
    then some "active swap"
    else if contains protected_pv_paths n.path
    then some "LVM physical volume backing an active logical volume"
    else if starts_with n.type "raid"
    then some ("active RAID member (" <> (n.type <> ")"))
    else none

-- The last three lines of `_walk`: a reason marks the node, none leaves it as it was.
unfoldable pub mark : Option String → NodeInfo → NodeInfo
mark none n = n
mark (some reason) n = record n { protected = true; protected_reason = some reason }

-- `reason` after one child: the first one that was found stays.
unfoldable pub first_of_two : Option String → Option String → Option String
first_of_two none child_reason = child_reason
first_of_two (some reason) _ = some reason

-- The serial that the loop of `compute_protected` adds for a walked disk.
unfoldable pub serial_if_protected : NodeInfo → List String
unfolding shown
serial_if_protected n = if n.protected && truthy n.serial then shown n.serial ∷ [] else []

module _ (protected_pv_paths : List String) where
  -- `_walk`, with the marked tree beside the reason; `walk_children` is its loop.
  unfoldable mutual
    unfolding own_reason mark first_of_two

    pub walk : DiskNode → DiskNode × Option String
    walk (node i children) =
        let (children', reason) = walk_children children (own_reason i protected_pv_paths) in
        (node (mark reason i) children', reason)

    pub walk_children : Nodes → Option String → Nodes × Option String
    walk_children nil reason = (nil, reason)
    walk_children (cons d ds) reason =
        let (d', child_reason) = walk d in
        let (ds', reason') = walk_children ds (first_of_two reason child_reason) in
        (cons d' ds', reason')

  -- The loop of `compute_protected` over the disks.
  unfoldable pub walk_disks : Nodes → Nodes × List String
  unfolding walk serial_if_protected
  walk_disks nil = (nil, [])
  walk_disks (cons d ds) =
      let d' = (walk d).0 in
      let (ds', serials) = walk_disks ds in (cons d' ds', serial_if_protected (info d') ++ serials)

-- The physical volumes of the volume groups that have a logical volume.
unfoldable pub active_pvs : List VgInfo → List String → List String
active_pvs [] lv_vgs = []
active_pvs (vg ∷ vgs) lv_vgs =
    let rest = active_pvs vgs lv_vgs in if contains lv_vgs vg.name then vg.pvs ++ rest else rest

unfoldable pub protected_pvs : StorageInventoryResult → List String
unfolding active_pvs
protected_pvs inventory = active_pvs inventory.vgs (map (λ (lv : LvInfo). lv.vg) inventory.lvs)

-- The marked inventory, and the protected serials.
unfoldable pub compute_protected : StorageInventoryResult → StorageInventoryResult × List String
unfolding protected_pvs walk_disks
compute_protected inventory =
    let (disks, serials) = walk_disks (protected_pvs inventory) inventory.disks in
    (record inventory { disks = disks }, serials)
