-- ===== src/Users/Invariant.antt =====
-- The agreement of the table of the managed users with the accounts, and the worlds reached.
pub mod Steps
pub mod Kept
use nas_os.Common.{
  ℕ, String, Bool, true, false, Option, none, some, [], Result, ok, err, succeeds, is_some,
  ok-injective, Option-cases, Result-cases, Bool-cases, ◌≡◌, refl, sym, ap, ◌∙◌, arith, ◌⊎◌, inl,
  inr, ◌==◌, if◌then◌else◌, string_eq, nat_eq, ◌||◌,
}
use mathlib.Core.Path.{subst}
use mathlib.Core.Option.{some-injective}
use nas_os.Common.Dict
use nas_os.Common.Dict.{Dict, lookup-nil, lookup-insert, lookup-erase}
use nas_os.Common.Actions.{Action, and_then, ◌>>=◌, give, bind-ok, bind-err, bind-eq}
use nas_os.Common.Errors.{Exc, rpc_exception, service_error}
use nas_os.System.Users.{PosixUsers}
use nas_os.Agent.Users.{
  UserInfo, create_handler, set_smb_enabled_handler, delete_handler, set_password_handler,
  import_handler,
}
use nas_os.Services.{World, call, service_result}
use nas_os.Users.{
  User, Database, Notification, add_user, username_taken, update_row, update_user, delete_row,
  notify, created_user, imported_user, out_of_sync, create_user, import_user, set_smb_enabled,
  after_password, set_password, delete_user, update_description,
}
use nas_os.Users.Contract.{
  Account, set_unix, set_smb, SameOthers, Contract, IsFramed, IsFreeOrRefused, DeletesOrLeaves,
}
use nas_os.Users.Handled.{
  create_handler-IsFramed, create_handler-ok, set_password_handler-Outcome,
  set_password_handler-IsFramed, delete_handler-IsFramed, delete_handler-Left,
  set_smb_enabled_handler-same, set_smb_enabled_handler-IsFramed, import_handler-IsFramed,
  import_handler-same, import_handler-ok,
}

-- A row agrees with an account: it has the account's uid, and if the row says that the Samba
-- password is in step, then there is none, or it is the Unix password.
abbrev pub AgreesAt : User → Account → Type 0
AgreesAt row a =
    (a.uid ≡ some row.uid) × (row.smb_password_synced ≡ true → (a.smb ≡ none) ⊎ (a.smb ≡ a.unix))

abbrev pub no_rows : Database
no_rows = record { users = []; notifications = [] }

module _ {S : Type 0} (users : PosixUsers S) (c : Contract users) where
  -- The worlds that the service reaches from an empty table and any accounts, by operations on rows
  -- as they were loaded.
  pub data Reach : World Database S → Type 0 where
    initial : (s : S) → Reach (record { db = no_rows; system = s })
    created :
        {w : World Database S} (username password description : String)
        → Reach w
        → c.fits username password ≡ true
        → IsFreeOrRefused users c.account username description w.system
        → Reach (create_user users username password description w).1
    imported :
        {w : World Database S} (username description : String)
        → Reach w
        → Reach (import_user users username description w).1
    enabled :
        {w : World Database S} (user : User) (enable : Bool)
        → Reach w
        → Dict.lookup user.uid w.db.users ≡ some user
        → Reach (set_smb_enabled users user enable w).1
    passworded :
        {w : World Database S} (user : User) (password : String)
        → Reach w
        → c.fits user.username password ≡ true
        → Dict.lookup user.uid w.db.users ≡ some user
        → Reach (set_password users user password w).1
    deleted :
        {w : World Database S} (user : User) (home : Bool)
        → Reach w
        → DeletesOrLeaves users c.account user.username home
            (users.smb_delete user.username w.system).1
        → Dict.lookup user.uid w.db.users ≡ some user
        → Reach (delete_user users user home w).1
    described :
        {w : World Database S} (user : User) (description : String)
        → Reach w
        → Dict.lookup user.uid w.db.users ≡ some user
        → Reach (update_description user description w).1

  -- Every row is under its uid and agrees with the account of its name.
  abbrev pub Inv : World Database S → Type 0
  Inv w =
      (uid : ℕ) (row : User)
      → Dict.lookup uid w.db.users ≡ some row
      → (row.uid ≡ uid) × AgreesAt row (c.account w.system row.username)

  -- A change of one account that keeps the agreement of that account's rows.
  pub Inv-frame :
      (w : World Database S) (s : S) (name : String)
      → Inv w
      → SameOthers c.account name w.system s
      → ((row : User)
          → row.username ≡ name
          → AgreesAt row (c.account w.system name)
          → AgreesAt row (c.account s name))
      → Inv (record w { system = s })
  Inv-frame w s name inv frame own uid row h =
      let (same, a) = inv uid row h in
      elim (Bool-cases (row.username == name)) [
        | inl e ↦
            let n : row.username ≡ name = ground arith in
            (
              same,
              subst (λ u. AgreesAt row (c.account s u)) (sym n)
                  (own row n (subst (λ u. AgreesAt row (c.account w.system u)) n a)),
            )
        | inr e ↦ (same, subst (AgreesAt row) (sym (frame row.username e)) a)
      ]

  Inv-insert :
      (w : World Database S) (row : User)
      → Inv w
      → AgreesAt row (c.account w.system row.username)
      → Inv (record w { db = record w.db { users = Dict.insert row.uid row w.db.users } })
  Inv-insert w row inv a uid found h =
      let l = sym (lookup-insert uid row.uid row w.db.users) ∙ h in
      elim (Bool-cases (uid == row.uid)) [
        | inl e ↦
            let same : row ≡ found = some-injective _ _ (rw e at l) in
            let at : uid ≡ row.uid = ground arith in
            (
              ap (λ (r : User). r.uid) (sym same) ∙ sym at,
              subst (λ (r : User). AgreesAt r (c.account w.system r.username)) same a,
            )
        | inr e ↦ inv uid found (rw e at l)
      ]

  pub Inv-add_user :
      (w : World Database S) (row : User)
      → Inv w
      → AgreesAt row (c.account w.system row.username)
      → Inv (add_user row w).1
  unfolding add_user
  Inv-add_user w row inv a =
      elim (Bool-cases
        (is_some (Dict.lookup row.uid w.db.users) || username_taken row.username w.db.users)) [
          | inl e ↦ rw e inv
          | inr e ↦ rw e (Inv-insert w row inv a)
        ]

  -- A row is changed to one of the same uid that still agrees.
  pub Inv-update_user :
      (w : World Database S) (user : User) (change : User → User)
      → Inv w
      → ((row : User)
          → Dict.lookup user.uid w.db.users ≡ some row
          → ((change row).uid ≡ row.uid)
            × AgreesAt (change row) (c.account w.system (change row).username))
      → Inv (update_user user change w).1
  unfolding update_user update_row
  Inv-update_user w user change inv keeps = elim (Option-cases (Dict.lookup user.uid w.db.users)) [
    | inl e ↦ rw e inv
    | inr (row, e) ↦
        let (same, a) = keeps row e in
        let key : (change row).uid ≡ user.uid = same ∙ (inv user.uid row e).0 in
        let found = Inv-insert w (change row) inv a in
        rw e (
          subst
            (λ k.
              Inv (record w { db = record w.db { users = Dict.insert k (change row) w.db.users } }))
            key found)
  ]
