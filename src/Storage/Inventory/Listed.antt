-- ===== src/Storage/Inventory/Listed.antt =====
-- The arrays of an inventory are the RAID nodes of the device tree, once for each place.
use nas_os.Common.{
  String, starts_with, List, [], ◌∷◌, ◌++◌, map, Bool-cases, ◌≡◌, refl, sym, ap, ◌∙◌, inl, inr,
  if◌then◌else◌,
}
use nas_os.Common.Dict.{Dict}
use nas_os.Storage.Device.{
  NodeInfo, DiskNode, Nodes, node, nil, cons, VgInfo, LvInfo, flatten, flatten_node,
}
use nas_os.Storage.Inventory.{Reading, find_type_prefix, find_all, array_info, arrays_of, merge}

-- The nodes whose type begins with a text.
abbrev pub with_type : String → List NodeInfo → List NodeInfo
with_type prefix [] = []
with_type prefix (i ∷ is) =
    if starts_with i.type prefix then i ∷ with_type prefix is else with_type prefix is

with_type-append :
    (prefix : String) (xs ys : List NodeInfo)
    → with_type prefix (xs ++ ys) ≡ with_type prefix xs ++ with_type prefix ys
with_type-append prefix [] ys = refl
with_type-append prefix (x ∷ xs) ys = elim (Bool-cases (starts_with x.type prefix)) [
  | inl e ↦ rw e (ap (◌∷◌ x) (with_type-append prefix xs ys))
  | inr e ↦ rw e (with_type-append prefix xs ys)
]

mutual
  unfolding find_type_prefix find_all flatten flatten_node

  find_type_prefix-eq-with_type :
      (prefix : String) (d : DiskNode)
      → find_type_prefix prefix d ≡ with_type prefix (flatten_node d)
  find_type_prefix-eq-with_type prefix (node i children) =
      rw (find_all-eq-with_type prefix children) refl

  find_all-eq-with_type :
      (prefix : String) (ds : Nodes) → find_all prefix ds ≡ with_type prefix (flatten ds)
  find_all-eq-with_type prefix nil = refl
  find_all-eq-with_type prefix (cons d ds) =
      rw (find_type_prefix-eq-with_type prefix d, find_all-eq-with_type prefix ds)
        (sym (with_type-append prefix (flatten_node d) (flatten ds)))

arrays_of-eq-map :
    (reading : Reading) (mdstat_text : String) (array_details : Dict String (Dict String String))
    (nodes : List NodeInfo)
    → arrays_of reading mdstat_text array_details nodes
      ≡ map (array_info reading mdstat_text array_details) nodes
unfolding arrays_of
arrays_of-eq-map reading mdstat_text array_details [] = refl
arrays_of-eq-map reading mdstat_text array_details (i ∷ is) =
    ap (◌∷◌ (array_info reading mdstat_text array_details i))
      (arrays_of-eq-map reading mdstat_text array_details is)

-- The arrays of a merged inventory are those of the nodes of the device tree whose type begins with
-- "raid", in the order of the tree, a node before its children, with one entry for each place of the tree that an
-- array has: one below each disk that has a member of it.
pub merge-arrays :
    (reading : Reading) (disks : Nodes) (vgs : List VgInfo) (lvs : List LvInfo)
    (mdstat_text : String) (array_details : Dict String (Dict String String))
    → (merge reading disks vgs lvs mdstat_text array_details).arrays
      ≡ map (array_info reading mdstat_text array_details) (with_type "raid" (flatten disks))
unfolding merge
merge-arrays reading disks vgs lvs mdstat_text array_details =
    arrays_of-eq-map reading mdstat_text array_details (find_all "raid" disks)
    ∙ ap (map (array_info reading mdstat_text array_details)) (find_all-eq-with_type "raid" disks)
