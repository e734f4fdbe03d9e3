-- ===== src/Storage/Health/Again.antt =====
-- A poll that finds what the last one found changes nothing.
use nas_os.Common.{
  true, false, some, List, [], ◌∷◌, ok, Bool-cases, ◌≡◌, refl, ap, inl, inr, arith, ◌==◌,
  if◌then◌else◌, string_eq, option_eq,
}
use nas_os.Common.Dict
use nas_os.Common.Dict.{lookup-insert, lookup-insert_same, insert_same}
use nas_os.Common.Text.{truthy}
use nas_os.Storage.Device.{NodeInfo, flatten, StorageInventoryResult}
use nas_os.Storage.Guard.{shown}
use nas_os.Storage.Health.{Database, previous_health, seen, is_news, update, update_all, poll_once}

-- The row of a node is the one that the node gives.
abbrev Held : Database → NodeInfo → Type 0
Held db n = truthy n.serial ≡ true → Dict.lookup (shown n.serial) db.disks_seen ≡ some (seen n)

-- Two nodes of one serial, where they have one, say the same of their disk.
abbrev pub SameDisk : NodeInfo → NodeInfo → Type 0
SameDisk n m =
    truthy n.serial ≡ true
    → truthy m.serial ≡ true
    → shown n.serial ≡ shown m.serial
    → seen m ≡ seen n

abbrev pub AgreeWith : NodeInfo → List NodeInfo → Type 0
AgreeWith n [] = Unit
AgreeWith n (m ∷ ms) = SameDisk n m × AgreeWith n ms

-- Every two nodes of a list, the first before the second.
abbrev pub Agree : List NodeInfo → Type 0
Agree [] = Unit
Agree (n ∷ ns) = AgreeWith n ns × Agree ns

abbrev AllHeld : Database → List NodeInfo → Type 0
AllHeld db [] = Unit
AllHeld db (n ∷ ns) = Held db n × AllHeld db ns

abbrev updated : NodeInfo → Database → Database
updated n db = if truthy n.serial then update n db else db

updated-Held : (n : NodeInfo) (db : Database) → Held (updated n db) n
unfolding update
updated-Held n db t = rw t (lookup-insert_same (shown n.serial) (seen n) db.disks_seen)

updated-Held_other :
    (n m : NodeInfo) (db : Database) → SameDisk n m → Held db n → Held (updated m db) n
unfolding update
updated-Held_other n m db same h t = elim (Bool-cases (truthy m.serial)) [
  | inr e ↦ rw e (h t)
  | inl e ↦ elim (Bool-cases (shown n.serial == shown m.serial)) [
    | inl k ↦
        rw (e, lookup-insert (shown n.serial) (shown m.serial) (seen m) db.disks_seen, k)
          (ap some (same t e (ground arith)))
    | inr k ↦
        rw (e, lookup-insert (shown n.serial) (shown m.serial) (seen m) db.disks_seen, k) (h t)
  ]
]

update_all-Held :
    (n : NodeInfo) (ms : List NodeInfo) (db : Database)
    → AgreeWith n ms
    → Held db n
    → Held (update_all ms db) n
unfolding update_all
update_all-Held n [] db a h = h
update_all-Held n (m ∷ ms) db (same, a) h =
    update_all-Held n ms (updated m db) a (updated-Held_other n m db same h)

update_all-AllHeld : (ns : List NodeInfo) (db : Database) → Agree ns → AllHeld (update_all ns db) ns
unfolding update_all
update_all-AllHeld [] db a = tt
update_all-AllHeld (n ∷ ns) db (with_rest, a) = (
  update_all-Held n ns (updated n db) with_rest (updated-Held n db),
  update_all-AllHeld ns (updated n db) a,
)

is_news-seen : (n : NodeInfo) → is_news n (some (seen n)) ≡ false
unfolding is_news previous_health seen
is_news-seen n = ground arith

updated_same : (n : NodeInfo) (db : Database) → Held db n → updated n db ≡ db
unfolding update
updated_same n db h = elim (Bool-cases (truthy n.serial)) [
  | inr e ↦ rw e refl
  | inl e ↦
      rw (e, h e, insert_same (shown n.serial) (seen n) db.disks_seen (h e), is_news-seen n) refl
]

update_all_same : (ns : List NodeInfo) (db : Database) → AllHeld db ns → update_all ns db ≡ db
unfolding update_all
update_all_same [] db h = refl
update_all_same (n ∷ ns) db (h, hs) = rw (updated_same n db h) (update_all_same ns db hs)

-- Where nodes of one serial agree in their path, model, size and health, a second poll that is
-- answered with the same inventory changes neither the disks seen nor the notifications.
pub poll_once-poll_once :
    (inventory : StorageInventoryResult) (db : Database)
    → Agree (flatten inventory.disks)
    → poll_once (ok inventory) (poll_once (ok inventory) db).1 ≡ poll_once (ok inventory) db
unfolding poll_once
poll_once-poll_once inventory db a =
    ap (λ d. (ok tt, d))
      (update_all_same (flatten inventory.disks) _
        (update_all-AllHeld (flatten inventory.disks) db a))
