-- ===== src/Storage/Guard/Exact.antt =====
-- The guard against its description: a disk is protected exactly when something below it is in use.
use nas_os.Common.{
  String, Bool, true, false, Option, none, some, List, [], ◌∷◌, ◌++◌, arith, ◌≡◌, refl, ◌∙◌, ap,
  sym,
}
use nas_os.Common.{◌==◌, ◌&&◌, ◌||◌, contains, string_eq, any}
use mathlib.Core.Path.{ap₂}
use nas_os.Common.{
  option_eq, is_some, Option-cases, none-==-some, some-==-some, contains-append, inl, inr,
}
use nas_os.Common.Text.{truthy, truthy-none}
use nas_os.Storage.Device.{
  NodeInfo, DiskNode, Nodes, node, nil, cons, info, StorageInventoryResult, flatten, flatten_node,
}
use nas_os.Storage.Guard.{
  own_reason, mark, first_of_two, walk, walk_children, serial_if_protected, walk_disks,
  protected_pvs, compute_protected,
}

contains-serial_if_protected :
    (serial : String) (n : NodeInfo)
    → truthy (some serial) ≡ true
    → contains (serial_if_protected n) serial ≡ ((n.serial == some serial) && n.protected)
unfolding serial_if_protected
contains-serial_if_protected serial n t = elim (Option-cases n.serial) [
  | inl e ↦ rw (e, none-==-some) (ground (arith, truthy-none))
  | inr (s, e) ↦ rw (e, some-==-some) (ground (arith, t))
]

serial-mark : (r : Option String) (n : NodeInfo) → (mark r n).serial ≡ n.serial
unfolding mark
serial-mark none n = refl
serial-mark (some r) n = refl

protected-mark :
    (r : Option String) (n : NodeInfo) → (mark r n).protected ≡ (n.protected || is_some r)
unfolding mark
protected-mark none n = ground arith
protected-mark (some r) n = ground arith

module _ (pvs : List String) where
  -- The first reason among some nodes.
  abbrev pub first_reason : List NodeInfo → Option String
  first_reason [] = none
  first_reason (n ∷ ns) = first_of_two (own_reason n pvs) (first_reason ns)

  -- A node is in use by itself.
  abbrev pub in_use : NodeInfo → Bool
  in_use n = elim (own_reason n pvs) [ none ↦ false | some _ ↦ true ]

  first_of_two_assoc :
      (a b c : Option String)
      → first_of_two (first_of_two a b) c ≡ first_of_two a (first_of_two b c)
  unfolding first_of_two
  first_of_two_assoc none b c = refl
  first_of_two_assoc (some a) b c = refl

  first_of_two-none : (a : Option String) → first_of_two a none ≡ a
  unfolding first_of_two
  first_of_two-none none = refl
  first_of_two-none (some a) = refl

  pub first_reason-append :
      (xs ys : List NodeInfo)
      → first_reason (xs ++ ys) ≡ first_of_two (first_reason xs) (first_reason ys)
  first_reason-append [] ys = unfold first_of_two in refl
  first_reason-append (x ∷ xs) ys = rw (first_reason-append xs ys) (rw first_of_two_assoc refl)

  mutual
    unfolding walk flatten

    -- The walk returns the first reason in document order.
    pub walk-eq-first_reason : (d : DiskNode) → (walk pvs d).1 ≡ first_reason (flatten_node d)
    walk-eq-first_reason (node i children) =
        walk_children-eq-first_reason children (own_reason i pvs)

    walk_children-eq-first_reason :
        (ds : Nodes) (reason : Option String)
        → (walk_children pvs ds reason).1 ≡ first_of_two reason (first_reason (flatten ds))
    walk_children-eq-first_reason nil reason = sym (first_of_two-none reason)
    walk_children-eq-first_reason (cons d ds) reason =
        walk_children-eq-first_reason ds (first_of_two reason (walk pvs d).1)
        ∙ first_of_two_assoc reason (walk pvs d).1 (first_reason (flatten ds))
        ∙ rw (walk-eq-first_reason d, first_reason-append)

  -- The mark that every node should get: the first reason at or below it.
  unfoldable mutual
    pub marked : DiskNode → DiskNode
    marked (node i children) =
        node (mark (first_reason (i ∷ flatten children)) i) (marked_all children)

    pub marked_all : Nodes → Nodes
    marked_all nil = nil
    marked_all (cons d ds) = cons (marked d) (marked_all ds)

  mutual
    unfolding walk marked

    -- The walk marks every node of the tree with the first reason at or below it.
    pub walk-eq-marked : (d : DiskNode) → (walk pvs d).0 ≡ marked d
    walk-eq-marked (node i children) =
        ap₂ (λ r cs. node (mark r i) cs) (walk_children-eq-first_reason children (own_reason i pvs))
          (walk_children-eq-marked children (own_reason i pvs))

    walk_children-eq-marked :
        (ds : Nodes) (reason : Option String) → (walk_children pvs ds reason).0 ≡ marked_all ds
    walk_children-eq-marked nil reason = refl
    walk_children-eq-marked (cons d ds) reason =
        ap₂ cons (walk-eq-marked d)
          (walk_children-eq-marked ds (first_of_two reason (walk pvs d).1))

  walk_disks-eq-marked : (ds : Nodes) → (walk_disks pvs ds).0 ≡ marked_all ds
  unfolding walk_disks marked
  walk_disks-eq-marked nil = refl
  walk_disks-eq-marked (cons d ds) = ap₂ cons (walk-eq-marked d) (walk_disks-eq-marked ds)

  is_some-first_reason : (ns : List NodeInfo) → is_some (first_reason ns) ≡ any ns in_use
  unfolding first_of_two
  is_some-first_reason [] = refl
  is_some-first_reason (n ∷ ns) = ground (arith, is_some-first_reason ns)

  -- The disk has this serial, and it or a node below it is in use or was marked before.
  abbrev pub holds : String → DiskNode → Bool
  holds serial d =
      ((info d).serial == some serial) && ((info d).protected || any (flatten_node d) in_use)

  abbrev pub any_holds : String → Nodes → Bool
  any_holds serial nil = false
  any_holds serial (cons d ds) = holds serial d || any_holds serial ds

  contains-walk_disks :
      (serial : String) (ds : Nodes)
      → truthy (some serial) ≡ true
      → contains (walk_disks pvs ds).1 serial ≡ any_holds serial ds
  unfolding walk_disks
  contains-walk_disks serial nil t = refl
  contains-walk_disks serial (cons (node i children) ds) t = rw contains-append (
      ground (
        arith,
        contains-walk_disks serial ds t,
        contains-serial_if_protected serial (info (walk pvs (node i children)).0) t,
        serial-mark (walk pvs (node i children)).1 i,
        protected-mark (walk pvs (node i children)).1 i,
        walk-eq-first_reason (node i children),
        is_some-first_reason (flatten_node (node i children)),
      ))

-- A serial is in the guard's result exactly if a disk of the inventory has it and that disk was
-- marked before or has, itself or at any depth below it, a node that is in use.
pub contains-compute_protected :
    (inventory : StorageInventoryResult) (serial : String)
    → truthy (some serial) ≡ true
    → contains (compute_protected inventory).1 serial
      ≡ any_holds (protected_pvs inventory) serial inventory.disks
unfolding compute_protected
contains-compute_protected inventory serial t =
    contains-walk_disks (protected_pvs inventory) serial inventory.disks t

-- The guard gives every node of the inventory, at any depth, the mark of the first node at or
-- below it that is in use, changes no other field and keeps the rest of the inventory.
pub compute_protected-eq-marked :
    (inventory : StorageInventoryResult)
    → (compute_protected inventory).0
      ≡ record inventory { disks = marked_all (protected_pvs inventory) inventory.disks }
unfolding compute_protected
compute_protected-eq-marked inventory =
    ap (λ ds. record inventory { disks = ds })
      (walk_disks-eq-marked (protected_pvs inventory) inventory.disks)
