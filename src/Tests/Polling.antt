-- ===== src/Tests/Polling.antt =====
-- Polls of an inventory with a failing disk and a mirror that lies on two disks.
use mathlib.Core.Bool.{false≢true}
use text.Mathlib.TextEquality.{eq_iff}
use nas_os.Common.{false, none, some, [], ◌∷◌, map, ok, ◌≡◌, refl, string_eq, option_eq}
use nas_os.Common.Dict
use nas_os.Common.Text.{truthy}
use nas_os.Storage.Device.{
  NodeInfo, Nodes, node, nil, cons, StorageInventoryResult, flatten, flatten_node,
}
use nas_os.Storage.Guard.{shown}
use nas_os.Storage.Health.{
  Database, health_of, is_alert, previous_health, is_news, seen, alert, update, update_all,
  poll_once,
}
use nas_os.Storage.Health.Again.{Agree, poll_once-poll_once}
use nas_os.Storage.Inventory.{Reading, array_info, merge}
use nas_os.Storage.Inventory.Listed.{with_type, merge-arrays}
use nas_os.Tests.Disks.{device}

abbrev md0 : NodeInfo
md0 = device "md0" "/dev/md0" "raid1" none none

abbrev failing : NodeInfo
failing = record (device "sda" "/dev/sda" "disk" (some "S1") none) {
  smart = some (record { health = "critical" });
}

abbrev mirror : Nodes
mirror =
    cons (node failing (cons (node md0 nil) nil))
      (cons (node (device "sdb" "/dev/sdb" "disk" (some "S2") none) (cons (node md0 nil) nil)) nil)

abbrev found : StorageInventoryResult
found = record { disks = mirror; arrays = []; vgs = []; lvs = [] }

abbrev nothing_seen : Database
nothing_seen = record { disks_seen = []; notifications = [] }

found-Agree : Agree (flatten found.disks)
unfolding flatten flatten_node truthy shown string_eq
found-Agree = (
  (λ a b e. cc, (λ a b e. absurd (false≢true ((eq_iff "S1" "S2").1 e)), (λ a b e. cc, tt))),
  ((λ a b e. cc, (λ a b e. cc, tt)), ((λ a b e. cc, tt), (tt, tt))),
)

poll_once-poll_once_example :
    poll_once (ok found) (poll_once (ok found) nothing_seen).1 ≡ poll_once (ok found) nothing_seen
poll_once-poll_once_example = poll_once-poll_once found nothing_seen found-Agree

-- The one notification of the first poll.
notified : (poll_once (ok found) nothing_seen).1.notifications ≡ alert failing ∷ []
unfolding poll_once update_all update is_news is_alert previous_health health_of seen alert truthy
    shown flatten flatten_node Dict.lookup Dict.insert string_eq option_eq
notified = refl

abbrev plain_reading : Reading
plain_reading = record {
  splitlines = λ s. s ∷ [];
  ends_with = λ s t. false;
  strip = λ s. s;
  resync_search = λ s. none;
}

merge-arrays_example :
    (merge plain_reading mirror [] [] "" []).arrays
    ≡ map (array_info plain_reading "" []) (with_type "raid" (flatten mirror))
merge-arrays_example = merge-arrays plain_reading mirror [] [] "" []

-- The mirror is listed twice.
listed_twice : with_type "raid" (flatten mirror) ≡ md0 ∷ md0 ∷ []
unfolding flatten flatten_node
listed_twice = refl
