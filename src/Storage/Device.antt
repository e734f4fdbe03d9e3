-- ===== src/Storage/Device.antt =====
-- The storage part of rpc/schemas.py: the lsblk device tree and the inventory.
use nas_os.Common.{ℕ, String, Bool, Option, List, [], ◌∷◌, ◌++◌}

-- The fields that the modelled code reads; temperature, hours and attributes are for display.
pub record DiskSmart : Type 0 where
  pub health : String

-- The fields of a `DiskNode` other than its children.
pub record NodeInfo : Type 0 where
  pub name : String
  pub path : String
  pub type : String
  pub serial : Option String
  pub model : Option String
  pub wwn : Option String
  pub size : ℕ
  pub rota : Bool
  pub transport : String
  pub fstype : Option String
  pub mountpoint : Option String
  pub uuid : Option String
  pub smart : Option DiskSmart
  pub protected : Bool
  pub protected_reason : Option String

mutual
  pub data DiskNode : Type 0 where
    node : NodeInfo → Nodes → DiskNode

  -- `list[DiskNode]`
  pub data Nodes : Type 0 where
    nil : Nodes
    cons : DiskNode → Nodes → Nodes

abbrev pub info : DiskNode → NodeInfo
info (node i _) = i

-- `resync_percent` is kept as the text that `float` is given.
pub record ArrayInfo : Type 0 where
  pub path : String
  pub name : String
  pub level : String
  pub devices : List String
  pub state : String
  pub resync_percent : Option String

pub record VgInfo : Type 0 where
  pub name : String
  pub pvs : List String
  pub size : ℕ
  pub free : ℕ

pub record LvInfo : Type 0 where
  pub name : String
  pub vg : String
  pub path : String
  pub size : ℕ

pub record StorageInventoryResult : Type 0 where
  pub disks : Nodes
  pub arrays : List ArrayInfo
  pub vgs : List VgInfo
  pub lvs : List LvInfo

-- `_flatten`: every node of the forest, a node before its children.
unfoldable mutual
  pub flatten : Nodes → List NodeInfo
  flatten nil = []
  flatten (cons d ds) = flatten_node d ++ flatten ds

  pub flatten_node : DiskNode → List NodeInfo
  flatten_node (node i children) = i ∷ flatten children
