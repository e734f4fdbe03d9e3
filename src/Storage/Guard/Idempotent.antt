-- ===== src/Storage/Guard/Idempotent.antt =====
-- The guard run twice, as the agent runs it at the plan's preview and again before execution.
use mathlib.Core.Path.{ap₂}
use nas_os.Common.{String, Option, none, some, List, ◌++◌, ◌≡◌, refl, sym, ap, ◌∙◌}
use nas_os.Storage.Device.{
  NodeInfo, DiskNode, Nodes, node, nil, cons, info, StorageInventoryResult, flatten, flatten_node,
}
use nas_os.Storage.Guard.{
  own_reason, mark, first_of_two, walk, walk_disks, serial_if_protected, protected_pvs,
  compute_protected,
}
use nas_os.Storage.Guard.Exact.{
  first_reason, first_reason-append, marked, marked_all, walk-eq-marked,
}

own_reason-mark :
    (r : Option String) (n : NodeInfo) (pvs : List String)
    → own_reason (mark r n) pvs ≡ own_reason n pvs
unfolding mark own_reason
own_reason-mark none n pvs = refl
own_reason-mark (some r) n pvs = refl

mark-mark : (r : Option String) (n : NodeInfo) → mark r (mark r n) ≡ mark r n
unfolding mark
mark-mark none n = refl
mark-mark (some r) n = refl

module _ (pvs : List String) where
  mutual
    unfolding marked flatten

    first_reason-marked :
        (d : DiskNode)
        → first_reason pvs (flatten_node (marked pvs d)) ≡ first_reason pvs (flatten_node d)
    first_reason-marked (node i children) =
        ap₂ first_of_two (own_reason-mark _ i pvs) (first_reason-marked_all children)

    first_reason-marked_all :
        (ds : Nodes)
        → first_reason pvs (flatten (marked_all pvs ds)) ≡ first_reason pvs (flatten ds)
    first_reason-marked_all nil = refl
    first_reason-marked_all (cons d ds) =
        first_reason-append pvs (flatten_node (marked pvs d)) _
        ∙ ap₂ first_of_two (first_reason-marked d) (first_reason-marked_all ds)
        ∙ sym (first_reason-append pvs (flatten_node d) _)

  mutual
    unfolding marked flatten

    marked-marked : (d : DiskNode) → marked pvs (marked pvs d) ≡ marked pvs d
    marked-marked (node i children) =
        ap₂ node
          (ap (λ r. mark r (mark (first_reason pvs (flatten_node (node i children))) i))
              (first_reason-marked (node i children))
            ∙ mark-mark (first_reason pvs (flatten_node (node i children))) i)
          (marked_all-marked children)

    marked_all-marked : (ds : Nodes) → marked_all pvs (marked_all pvs ds) ≡ marked_all pvs ds
    marked_all-marked nil = refl
    marked_all-marked (cons d ds) = ap₂ cons (marked-marked d) (marked_all-marked ds)

  walk-walk : (d : DiskNode) → (walk pvs (walk pvs d).0).0 ≡ (walk pvs d).0
  walk-walk d =
      walk-eq-marked pvs (walk pvs d).0
      ∙ ap (marked pvs) (walk-eq-marked pvs d)
      ∙ marked-marked d
      ∙ sym (walk-eq-marked pvs d)

  walk_disks-walk_disks : (ds : Nodes) → walk_disks pvs (walk_disks pvs ds).0 ≡ walk_disks pvs ds
  unfolding walk_disks
  walk_disks-walk_disks nil = refl
  walk_disks-walk_disks (cons d ds) =
      ap₂
        (λ (d' : DiskNode) (r : Nodes × List String).
          (cons d' r.0, serial_if_protected (info d') ++ r.1))
        (walk-walk d) (walk_disks-walk_disks ds)

-- A second run of the guard over the inventory that it has marked finds the same serials and
-- leaves the marks as they are.
pub compute_protected-idempotent :
    (inventory : StorageInventoryResult)
    → compute_protected (compute_protected inventory).0 ≡ compute_protected inventory
unfolding compute_protected
compute_protected-idempotent inventory =
    ap (λ (r : Nodes × List String). (record inventory { disks = r.0 }, r.1))
      (walk_disks-walk_disks (protected_pvs inventory) inventory.disks)
