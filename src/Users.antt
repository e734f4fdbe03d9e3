-- ===== src/Users.antt =====
-- services/users.py: the table of the managed users beside the accounts of the system. The agent
-- is called through its dispatcher, which hides every exception but `RpcException`.
pub mod Contract
pub mod Handled
pub mod Invariant
use nas_os.Common.{
  ℕ, String, ◌<>◌, Bool, true, false, ◌||◌, Option, none, some, List, [], ◌∷◌, ◌++◌, Result, ok,
  err, is_some, ◌==◌, if◌then◌else◌, string_eq, nat_eq,
}
use nas_os.Common.Dict
use nas_os.Common.Dict.{Dict}
use nas_os.Common.Actions.{Action, ◌>>=◌, give}
use nas_os.Common.Errors.{Exc, rpc_exception, service_error, integrity_error, other_error}
use nas_os.Services.{World, call}
use nas_os.Notifications.{Notification}
use nas_os.System.Users.{PosixUsers}
use nas_os.Agent.Users.{
  UserInfo, create_handler, set_smb_enabled_handler, delete_handler, set_password_handler,
  import_handler,
}

-- A row of the table `users`, which has two unique columns: `uid`, its key, and `username`.
pub record User : Type 0 where
  pub uid : ℕ
  pub username : String
  pub description : String
  pub smb_enabled : Bool
  pub ftp_enabled : Bool
  pub created_by_nasos : Bool
  pub smb_password_synced : Bool

pub record Database : Type 0 where
  pub users : Dict ℕ User
  pub notifications : List Notification

unfoldable pub username_taken : String → Dict ℕ User → Bool
unfolding string_eq
username_taken username [] = false
username_taken username ((_, row) ∷ rows) = row.username == username || username_taken username rows

module _ {S : Type 0} where
  -- `db.add(user)` and `db.commit()`
  unfoldable pub add_user : User → Action (World Database S) User
  unfolding username_taken
  add_user user w =
      if is_some (Dict.lookup user.uid w.db.users) || username_taken user.username w.db.users
      then (err integrity_error, w)
      else (ok user, record w { db = record w.db { users = Dict.insert user.uid user w.db.users } })

  unfoldable pub update_row :
      ℕ → (User → User) → Option User → World Database S → Result Exc User × World Database S
  update_row uid change none w = (err (other_error "StaleDataError"), w)
  update_row uid change (some row) w = (
    ok (change row),
    record w { db = record w.db { users = Dict.insert uid (change row) w.db.users } },
  )

  -- The commit of changed columns of a row that was loaded before.
  unfoldable pub update_user : User → (User → User) → Action (World Database S) User
  unfolding update_row
  update_user user change w = update_row user.uid change (Dict.lookup user.uid w.db.users) w

  unfoldable pub delete_row : User → Action (World Database S) (Unit {0})
  delete_row user w =
      (ok tt, record w { db = record w.db { users = Dict.erase user.uid w.db.users } })

  unfoldable pub notify : Notification → World Database S → World Database S
  notify n w = record w { db = record w.db { notifications = w.db.notifications ++ (n ∷ []) } }

unfoldable pub created_user : UserInfo → String → User
created_user info description = record {
  uid = info.uid;
  username = info.username;
  description = description;
  smb_enabled = true;
  ftp_enabled = false;
  created_by_nasos = true;
  smb_password_synced = true;
}

unfoldable pub imported_user : UserInfo → String → User
imported_user info description = record {
  uid = info.uid;
  username = info.username;
  description = description;
  smb_enabled = false;
  ftp_enabled = false;
  created_by_nasos = false;
  smb_password_synced = false;
}

unfoldable pub out_of_sync : User → String → Notification
out_of_sync user message = record {
  level = "warning";
  title = "Samba password out of sync";
  message = user.username <> ("'s SMB password wasn't updated: " <> message);
  source = "users";
}

module _ {S : Type 0} (users : PosixUsers S) where
  unfoldable pub create_user : String → String → String → Action (World Database S) User
  unfolding call created_user add_user
  create_user username password description = do
    info ← call (create_handler users username password description)
    add_user (created_user info description)

  unfoldable pub import_user : String → String → Action (World Database S) User
  unfolding call imported_user add_user
  import_user username description = do
    info ← call (import_handler users username)
    add_user (imported_user info description)

  unfoldable pub set_smb_enabled : User → Bool → Action (World Database S) User
  unfolding call update_user
  set_smb_enabled user enabled = do
    _ ← call (set_smb_enabled_handler users user.username enabled)
    update_user user (λ row. record row { smb_enabled = enabled })

  -- What follows the call: the flag, with a notification where only Samba refused.
  unfoldable pub after_password : User → Result Exc (Unit {0}) → Action (World Database S) User
  unfolding string_eq update_user notify out_of_sync
  after_password user (ok _) w =
      update_user user (λ row. record row { smb_password_synced = true }) w
  after_password user (err (service_error code message)) w =
      if code == "smb_password_sync_failed"
      then update_user user (λ row. record row { smb_password_synced = false })
          (notify (out_of_sync user message) w)
      else (err (service_error code message), w)
  after_password user (err e) w = (err e, w)

  unfoldable pub set_password : User → String → Action (World Database S) User
  unfolding call after_password
  set_password user password w =
      let (answer, w') = call (set_password_handler users user.username password) w in
      after_password user answer w'

  unfoldable pub delete_user : User → Bool → Action (World Database S) (Unit {0})
  unfolding call delete_row
  delete_user user delete_home = do
    _ ← call (delete_handler users user.username delete_home)
    delete_row user

module _ {S : Type 0} where
  unfoldable pub update_description : User → String → Action (World Database S) User
  unfolding update_user
  update_description user description =
      update_user user (λ row. record row { description = description })
