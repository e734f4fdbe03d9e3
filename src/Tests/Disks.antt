-- ===== src/Tests/Disks.antt =====
-- An inventory with an empty disk and one that holds the root file system, and plans for it.
use nas_os.Common.{ℕ, String, false, Option, none, some, [], ◌∷◌}
use nas_os.Common.Dict.{Dict}
use nas_os.Config.{Settings, prod}
use nas_os.Storage.Device.{NodeInfo, node, nil, cons, StorageInventoryResult}
use nas_os.Storage.Spec.{StoragePlanSpec}
use nas_os.Storage.Plan.{CreatePlanRequest}

abbrev pub device : String → String → String → Option String → Option String → NodeInfo
device name path type serial mountpoint = record {
  name = name;
  path = path;
  type = type;
  serial = serial;
  model = none;
  wwn = none;
  size = 1000;
  rota = false;
  transport = "sata";
  fstype = none;
  mountpoint = mountpoint;
  uuid = none;
  smart = none;
  protected = false;
  protected_reason = none;
}

abbrev pub sda : NodeInfo
sda = device "sda" "/dev/sda" "disk" (some "S1") none

abbrev pub sdb : NodeInfo
sdb = device "sdb" "/dev/sdb" "disk" (some "S2") none

abbrev pub sdb1 : NodeInfo
sdb1 = device "sdb1" "/dev/sdb1" "part" none (some "/")

abbrev pub inventory : StorageInventoryResult
inventory = record {
  disks = cons (node sda nil) (cons (node sdb (cons (node sdb1 nil) nil)) nil);
  arrays = [];
  vgs = [];
  lvs = [];
}

abbrev pub spec : StoragePlanSpec
spec = record {
  volume_name = "v1";
  level = "basic";
  filesystem = "xfs";
  disk_paths = "/dev/sdx" ∷ [];
  disk_serials = "S1" ∷ [];
  array_name = "v1";
  vg_name = "nasos_v1";
  lv_name = "v1";
  mountpoint = "/volume/v1";
}

abbrev pub sizes : Dict String ℕ
sizes = ("S1", 1000) ∷ []

abbrev pub settings : Settings
settings = record {
  mode = prod;
  state_dir = "/var/lib/nasos";
  volumes_root = "/volume";
  devdata_dir = "./devdata";
}

abbrev pub body : CreatePlanRequest
body = record { volume_name = "v1"; level = "basic"; filesystem = "xfs"; disk_serials = "S1" ∷ [] }
