-- ===== src/Shares/Service.antt =====
-- The operations of services/shares.py.
use nas_os.Common.{
  ℕ, String, ◌<>◌, Bool, true, false, Option, none, some, List, ◌++◌, Result, ok, err,
  if◌then◌else◌, string_eq, nat_eq,
}
use nas_os.Common.Dict
use nas_os.Common.Dict.{Dict}
use nas_os.Common.Text.{str}
use nas_os.Common.Actions.{Action, ◌>>=◌, give}
use nas_os.Common.Errors.{Exc, service_error, integrity_error}
use nas_os.Services.{World, call}
use nas_os.System.Acl.{AclEntry}
use nas_os.Shares.{
  Database, Share, Volume, Permission, ShareSambaView, Agent, views, without_share, rows_of,
  has_duplicate, is_taken, resolve_all,
}

unfoldable pub volume_or_raise : ℕ → Option Volume → Result Exc Volume
unfolding str
volume_or_raise volume_id none =
    err (service_error "not_found" ("no such volume: " <> str volume_id))
volume_or_raise volume_id (some volume) = ok volume

module _ {S : Type 0} where
  -- `db.add(share)` and `db.commit()`
  unfoldable pub add_share : Share → Action (World Database S) Share
  unfolding is_taken
  add_share share w = if is_taken share w.db.shares then (err integrity_error, w) else (
    ok share,
    record w { db = record w.db { shares = Dict.insert share.id share w.db.shares } },
  )

  -- `db.delete(share)`, with its permissions
  unfoldable pub delete_row : Share → Action (World Database S) (Unit {0})
  unfolding without_share nat_eq
  delete_row share w = (
    ok tt,
    record w {
      db = record w.db {
        shares = Dict.erase share.id w.db.shares;
        permissions = without_share share.id w.db.permissions;
      };
    },
  )

  -- The permissions of the share are replaced, in one transaction.
  unfoldable pub replace_permissions :
      Share → List Permission → Action (World Database S) (Unit {0})
  unfolding without_share rows_of has_duplicate
  replace_permissions share permissions w =
      if has_duplicate permissions then (err integrity_error, w) else (
        ok tt,
        record w {
          db = record w.db {
            permissions = without_share share.id w.db.permissions ++ rows_of share.id permissions;
          };
        },
      )

module _ (render_nasos_conf : List ShareSambaView → String) {S : Type 0} (agent : Agent S) where
  -- `apply_samba_config`
  unfoldable pub apply_samba_config : Bool → Action (World Database S) String
  unfolding call views
  apply_samba_config restart w =
      call (agent.apply_config (render_nasos_conf (views w.db.shares w.db.permissions)) restart) w

  unfoldable pub create_in :
      ℕ → String → String → Result Exc Volume → Action (World Database S) Share
  unfolding call add_share apply_samba_config
  create_in new_id name description (err e) = give (err e)
  create_in new_id name description (ok volume) =
      let path = volume.mountpoint <> ("/" <> name) in
      do
        _ ← call (agent.create_folder path)
        share ← add_share (record {
          id = new_id;
          name = name;
          volume_id = volume.id;
          path = path;
          description = description;
          smb_enabled = true;
        })
        _ ← apply_samba_config false
        give (ok share)

  unfoldable pub create_share : ℕ → String → ℕ → String → Action (World Database S) Share
  unfolding create_in volume_or_raise nat_eq
  create_share new_id name volume_id description w =
      create_in new_id name description
        (volume_or_raise volume_id (Dict.lookup volume_id w.db.volumes)) w

  unfoldable pub delete_share : Share → Bool → Action (World Database S) (Unit {0})
  unfolding call delete_row apply_samba_config
  delete_share share delete_files = do
    _ ← call (agent.delete_folder share.path delete_files)
    _ ← delete_row share
    _ ← apply_samba_config false
    give (ok tt)

  unfoldable pub set_resolved :
      Share
      → List Permission
      → Bool
      → Result Exc (List AclEntry)
      → Action (World Database S) (Option String)
  unfolding call replace_permissions apply_samba_config
  set_resolved share permissions recursive (err e) = give (err e)
  set_resolved share permissions recursive (ok entries) = do
    job_id ← call (agent.set_permissions share.path entries recursive)
    _ ← replace_permissions share permissions
    _ ← apply_samba_config false
    give (ok job_id)

  unfoldable pub set_share_permissions :
      Share → List Permission → Bool → Action (World Database S) (Option String)
  unfolding set_resolved resolve_all
  set_share_permissions share permissions recursive w =
      set_resolved share permissions recursive (resolve_all w.db permissions) w
