-- ===== src/Storage/Health.antt =====
-- services/storage/health.py: the disks that were ever seen, and a notification where the health of
-- one has become bad.
pub mod Again
use nas_os.Common.{
  ℕ, String, ◌<>◌, Bool, true, false, not, ◌&&◌, ◌||◌, Option, none, some, List, [], ◌∷◌, ◌++◌,
  Result, ok, err, ◌==◌, if◌then◌else◌, string_eq, option_eq,
}
use nas_os.Common.Dict
use nas_os.Common.Dict.{Dict}
use nas_os.Common.Text.{truthy}
use nas_os.Common.Errors.{Exc, rpc_exception}
use nas_os.Notifications.{Notification}
use nas_os.Storage.Device.{DiskSmart, NodeInfo, flatten, StorageInventoryResult}
use nas_os.Storage.Guard.{shown}

-- A row of the table `disks_seen`, under its serial.
pub record DiskSeen : Type 0 where
  pub path : String
  pub model : Option String
  pub size : ℕ
  pub last_health : Option String

pub record Database : Type 0 where
  pub disks_seen : Dict String DiskSeen
  pub notifications : List Notification

unfoldable pub health_of : Option DiskSmart → String
health_of none = "unknown"
health_of (some smart) = smart.health

-- `_ALERT_LEVELS`
unfoldable pub is_alert : String → Bool
unfolding string_eq
is_alert health = health == "warning" || health == "critical"

unfoldable pub previous_health : Option DiskSeen → Option String
previous_health none = none
previous_health (some row) = row.last_health

unfoldable pub seen : NodeInfo → DiskSeen
unfolding health_of
seen disk = record {
  path = disk.path;
  model = disk.model;
  size = disk.size;
  last_health = some (health_of disk.smart);
}

unfoldable pub alert : NodeInfo → Notification
unfolding health_of truthy shown
alert disk = record {
  level = health_of disk.smart;
  title = "Disk health: " <> health_of disk.smart;
  message =
      (if truthy disk.model then shown disk.model else disk.path)
      <> (" (" <> (shown disk.serial <> (") SMART health is now " <> health_of disk.smart)));
  source = "storage";
}

-- Whether `_update` adds a notification.
unfoldable pub is_news : NodeInfo → Option DiskSeen → Bool
unfolding health_of is_alert previous_health option_eq
is_news disk row =
    not (some (health_of disk.smart) == previous_health row) && is_alert (health_of disk.smart)

-- `_update`
unfoldable pub update : NodeInfo → Database → Database
unfolding seen alert is_news shown string_eq
update disk db = record {
  disks_seen = Dict.insert (shown disk.serial) (seen disk) db.disks_seen;
  notifications =
      if is_news disk (Dict.lookup (shown disk.serial) db.disks_seen)
      then db.notifications ++ (alert disk ∷ [])
      else db.notifications;
}

unfoldable pub update_all : List NodeInfo → Database → Database
unfolding update truthy
update_all [] db = db
update_all (disk ∷ disks) db = update_all disks (if truthy disk.serial then update disk db else db)

-- `poll_once`, of the answer of the agent
unfoldable pub poll_once :
    Result Exc StorageInventoryResult → Database → Result Exc (Unit {0}) × Database
unfolding update_all
poll_once (ok inventory) db = (ok tt, update_all (flatten inventory.disks) db)
poll_once (err (rpc_exception _ _)) db = (ok tt, db)
poll_once (err e) db = (err e, db)
