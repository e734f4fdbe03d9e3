-- ===== src/Shares/Registered.antt =====
-- services/groups.py and services/volumes.py, over the handlers of the agent.
use nas_os.Common.{
  ℕ, String, Bool, true, false, ◌||◌, [], ◌∷◌, ok, err, is_some, ◌==◌, if◌then◌else◌, string_eq,
  nat_eq,
}
use nas_os.Common.Dict
use nas_os.Common.Dict.{Dict}
use nas_os.Common.Actions.{Action, ◌>>=◌}
use nas_os.Common.Errors.{integrity_error}
use nas_os.Services.{World, call}
use nas_os.System.Users.{PosixUsers}
use nas_os.Agent.Users.{
  group_create_handler, group_delete_handler, add_member_handler, remove_member_handler,
}
use nas_os.Agent.Shares.{VolumeInfo, MountInfo, register_handler}
use nas_os.Shares.{Database, GroupMeta, Volume}

unfoldable pub group_name_taken : String → Dict ℕ GroupMeta → Bool
unfolding string_eq
group_name_taken name [] = false
group_name_taken name ((_, group) ∷ groups) = group.name == name || group_name_taken name groups

unfoldable pub volume_taken : Volume → Dict ℕ Volume → Bool
unfolding string_eq
volume_taken volume [] = false
volume_taken volume ((_, other) ∷ volumes) =
    (volume.name == other.name || volume.mountpoint == other.mountpoint)
    || volume_taken volume volumes

module _ {S : Type 0} where
  -- `db.add(group)` and `db.commit()`
  unfoldable pub add_group : GroupMeta → Action (World Database S) GroupMeta
  unfolding group_name_taken nat_eq
  add_group group w =
      if is_some (Dict.lookup group.gid w.db.groups) || group_name_taken group.name w.db.groups
      then (err integrity_error, w)
      else (
        ok group,
        record w { db = record w.db { groups = Dict.insert group.gid group w.db.groups } },
      )

  unfoldable pub delete_group_row : GroupMeta → Action (World Database S) (Unit {0})
  unfolding nat_eq
  delete_group_row group w =
      (ok tt, record w { db = record w.db { groups = Dict.erase group.gid w.db.groups } })

  unfoldable pub add_volume : Volume → Action (World Database S) Volume
  unfolding volume_taken nat_eq
  add_volume volume w = if volume_taken volume w.db.volumes then (err integrity_error, w) else (
    ok volume,
    record w { db = record w.db { volumes = Dict.insert volume.id volume w.db.volumes } },
  )

module _ {S : Type 0} (users : PosixUsers S) where
  unfoldable pub create_group : String → String → Action (World Database S) GroupMeta
  unfolding call add_group
  create_group name description = do
    info ← call (group_create_handler users name)
    add_group (record {
      gid = info.gid;
      name = info.name;
      description = description;
      created_by_nasos = true;
    })

  unfoldable pub delete_group : GroupMeta → Action (World Database S) (Unit {0})
  unfolding call delete_group_row
  delete_group group = do _ ← call (group_delete_handler users group.name); delete_group_row group

  unfoldable pub add_member : GroupMeta → String → Action (World Database S) (Unit {0})
  unfolding call
  add_member group username = call (add_member_handler users group.name username)

  unfoldable pub remove_member : GroupMeta → String → Action (World Database S) (Unit {0})
  unfolding call
  remove_member group username = call (remove_member_handler users group.name username)

module _ (rstrip : String → String) {S : Type 0} (mounts : MountInfo S) where
  -- A handler that only looks.
  unfoldable pub looked_up : String → Action S VolumeInfo
  unfolding register_handler
  looked_up mountpoint s = (register_handler rstrip mounts mountpoint s, s)

  -- `register_volume`; `new_id` is the number that the database gives to the row.
  unfoldable pub register_volume : ℕ → String → String → Action (World Database S) Volume
  unfolding call looked_up add_volume
  register_volume new_id name mountpoint = do
    info ← call (looked_up mountpoint)
    add_volume (record {
      id = new_id;
      name = name;
      mountpoint = info.mountpoint;
      filesystem = info.filesystem;
      managed = false;
    })
