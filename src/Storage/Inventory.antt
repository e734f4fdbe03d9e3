-- ===== src/Storage/Inventory.antt =====
-- agent/inventory.py, with the parts of system/mdadm.py and system/mdstat.py that it reads: the
-- arrays of the device tree. `splitlines`, `endswith`, `strip` and the search of the regular expression
-- are parameters.
pub mod Listed
use nas_os.Common.{
  ℕ, String, ◌<>◌, starts_with, Bool, true, false, not, ◌&&◌, ◌||◌, Option, none, some, List, [],
  ◌∷◌, ◌++◌, ◌==◌, if◌then◌else◌, string_eq,
}
use nas_os.Common.Dict
use nas_os.Common.Dict.{Dict}
use nas_os.Common.Text.{truthy}
use nas_os.System.ManagedFile.{sorted}
use nas_os.Storage.Device.{
  NodeInfo, DiskNode, Nodes, node, nil, cons, DiskSmart, ArrayInfo, VgInfo, LvInfo,
  StorageInventoryResult,
}

pub record Reading : Type 0 where
  pub splitlines : String → List String
  pub ends_with : String → String → Bool
  pub strip : String → String
  -- `_RESYNC_RE.search`, and the text of its group
  pub resync_search : String → Option String

-- `d.get(key, default)`
unfoldable pub get_or : String → Option String → String
get_or default none = default
get_or default (some text) = text

-- `details.get(name, {})`
unfoldable pub detail_of : Option (Dict String String) → Dict String String
detail_of none = []
detail_of (some detail) = detail

-- `_find_type_prefix`; `find_all` is its loop over the children.
unfoldable mutual
  pub find_type_prefix : String → DiskNode → List NodeInfo
  find_type_prefix prefix (node i children) =
      let found = find_all prefix children in if starts_with i.type prefix then i ∷ found else found

  pub find_all : String → Nodes → List NodeInfo
  find_all prefix nil = []
  find_all prefix (cons d ds) = find_type_prefix prefix d ++ find_all prefix ds

-- The loop of `gather` that reads the health of the nodes with a serial.
module _ (read : String → Option DiskSmart) where
  unfoldable mutual
    unfolding truthy

    pub with_smart : DiskNode → DiskNode
    with_smart (node i children) =
        let below = with_smart_all children in
        node (if truthy i.serial then record i { smart = read i.path } else i) below

    pub with_smart_all : Nodes → Nodes
    with_smart_all nil = nil
    with_smart_all (cons d ds) = cons (with_smart d) (with_smart_all ds)

module _ (reading : Reading) where
  unfoldable pub device_values : Dict String String → List String
  device_values [] = []
  device_values ((key, value) ∷ detail) =
      let rest = device_values detail in
      if starts_with key "MD_DEVICE_" && reading.ends_with key "_DEV" then value ∷ rest else rest

  unfoldable pub member_devices : Dict String String → List String
  unfolding device_values
  member_devices detail = sorted (device_values detail)

  -- A line of the array, by what the search finds in it.
  unfoldable pub resync_line : Option String → String → Option String → Option String
  unfolding string_eq
  resync_line (some percent) line rest = some percent
  resync_line none line rest =
      if reading.strip line == "" || not (starts_with line " ") then none else rest

  unfoldable pub resync_from : String → Bool → List String → Option String
  unfolding resync_line
  resync_from array_name in_array [] = none
  resync_from array_name in_array (line ∷ lines) =
      let in_it = resync_from array_name true lines in
      let outside = resync_from array_name false lines in
      if starts_with line (array_name <> " ") || starts_with line (array_name <> ":")
      then in_it
      else if in_array
      then resync_line (reading.resync_search line) line in_it
      else outside

  -- `resync_percent`
  unfoldable pub resync_percent : String → String → Option String
  unfolding resync_from
  resync_percent mdstat_text array_name =
      resync_from array_name false (reading.splitlines mdstat_text)

  unfoldable pub array_info : String → Dict String (Dict String String) → NodeInfo → ArrayInfo
  unfolding get_or detail_of member_devices resync_percent string_eq
  array_info mdstat_text array_details md_node =
      let detail = detail_of (Dict.lookup md_node.name array_details) in
      record {
        path = md_node.path;
        name = md_node.name;
        level = get_or md_node.type (Dict.lookup "MD_LEVEL" detail);
        devices = member_devices detail;
        state = get_or "unknown" (Dict.lookup "MD_METADATA" detail);
        resync_percent = resync_percent mdstat_text md_node.name;
      }

  unfoldable pub arrays_of :
      String → Dict String (Dict String String) → List NodeInfo → List ArrayInfo
  unfolding array_info
  arrays_of mdstat_text array_details [] = []
  arrays_of mdstat_text array_details (md_node ∷ nodes) =
      array_info mdstat_text array_details md_node ∷ arrays_of mdstat_text array_details nodes

  unfoldable pub merge :
      Nodes
      → List VgInfo
      → List LvInfo
      → String
      → Dict String (Dict String String)
      → StorageInventoryResult
  unfolding arrays_of find_all
  merge disks vgs lvs mdstat_text array_details = record {
    disks = disks;
    arrays = arrays_of mdstat_text array_details (find_all "raid" disks);
    vgs = vgs;
    lvs = lvs;
  }
