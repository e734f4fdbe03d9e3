-- ===== src/Agent/Users.antt =====
-- agent/handlers/users.py and agent/handlers/groups.py, over the interface to the accounts.
use nas_os.Common.{ℕ, String, ◌<>◌, Bool, Option, none, some, Result, ok, err}
use nas_os.Common.Actions.{Action, ◌>>=◌, give, map_error}
use nas_os.Common.Errors.{Exc, system_user_error, rpc_exception}
use nas_os.System.Users.{PosixUsers}

pub record UserInfo : Type 0 where
  pub uid : ℕ
  pub username : String

pub record GroupInfo : Type 0 where
  pub gid : ℕ
  pub name : String

-- `except SystemUserError as exc: raise RpcException(code, str(exc))`
unfoldable pub as_rpc : String → Exc → Exc
as_rpc code (system_user_error message) = rpc_exception code message
as_rpc code e = e

-- `except SystemUserError: pass`
unfoldable pub ignored : Result Exc (Unit {0}) → Result Exc (Unit {0})
ignored (err (system_user_error message)) = ok tt
ignored r = r

-- `if uid is None`
unfoldable pub uid_or_raise : String → Option ℕ → Result Exc ℕ
uid_or_raise username none = err (rpc_exception "not_found" ("no such POSIX account: " <> username))
uid_or_raise username (some uid) = ok uid

module _ {S : Type 0} (users : PosixUsers S) where
  unfoldable pub create_accounts : String → String → String → Action S ℕ
  create_accounts username password description = do
    uid ← users.create username ("/home/" <> username) description
    _ ← users.set_unix_password username password
    _ ← users.smb_create username password
    give (ok uid)

  -- `users.create`
  unfoldable pub create_handler : String → String → String → Action S UserInfo
  unfolding create_accounts as_rpc
  create_handler username password description = do
    uid ← map_error (as_rpc "system_error") (create_accounts username password description)
    give (ok (record { uid = uid; username = username }))

  -- `users.set_smb_enabled`
  unfoldable pub set_smb_enabled_handler : String → Bool → Action S (Unit {0})
  unfolding as_rpc
  set_smb_enabled_handler username enabled =
      map_error (as_rpc "system_error") (users.smb_set_enabled username enabled)

  unfoldable pub try_smb_delete : String → Action S (Unit {0})
  unfolding ignored
  try_smb_delete username s =
      (ignored (users.smb_delete username s).0, (users.smb_delete username s).1)

  -- `users.delete`
  unfoldable pub delete_handler : String → Bool → Action S (Unit {0})
  unfolding try_smb_delete as_rpc
  delete_handler username delete_home = do
    _ ← try_smb_delete username
    map_error (as_rpc "system_error") (users.delete username delete_home)

  -- `users.set_password`
  unfoldable pub set_password_handler : String → String → Action S (Unit {0})
  unfolding as_rpc
  set_password_handler username password = do
    _ ← map_error (as_rpc "system_error") (users.set_unix_password username password)
    map_error (as_rpc "smb_password_sync_failed") (users.smb_set_password username password)

  -- `users.import_existing`
  unfoldable pub import_handler : String → Action S UserInfo
  unfolding uid_or_raise as_rpc
  import_handler username = do
    found ← users.lookup username
    uid ← give (uid_or_raise username found)
    _ ← map_error (as_rpc "system_error") (users.add_to_group username "nasos-users")
    give (ok (record { uid = uid; username = username }))

  -- `groups.create`
  unfoldable pub group_create_handler : String → Action S GroupInfo
  unfolding as_rpc
  group_create_handler name = do
    gid ← map_error (as_rpc "system_error") (users.group_create name)
    give (ok (record { gid = gid; name = name }))

  -- `groups.delete`
  unfoldable pub group_delete_handler : String → Action S (Unit {0})
  unfolding as_rpc
  group_delete_handler name = map_error (as_rpc "system_error") (users.group_delete name)

  -- `groups.add_member` and `groups.remove_member`
  unfoldable pub add_member_handler : String → String → Action S (Unit {0})
  unfolding as_rpc
  add_member_handler name username =
      map_error (as_rpc "system_error") (users.add_to_group username name)

  unfoldable pub remove_member_handler : String → String → Action S (Unit {0})
  unfolding as_rpc
  remove_member_handler name username =
      map_error (as_rpc "system_error") (users.remove_from_group username name)
