-- ===== src/Users/Invariant/Kept.antt =====
-- Every operation of the service keeps the agreement of the table with the accounts.
use nas_os.Common.{
  ℕ, String, Bool, true, some, err, Bool-cases, ◌≡◌, refl, sym, ap, ◌∙◌, inl, inr, ◌==◌, string_eq,
  nat_eq,
}
use mathlib.Core.Path.{subst}
use nas_os.Common.Dict
use nas_os.Common.Dict.{lookup-nil, lookup-insert, lookup-erase}
use nas_os.Common.Errors.{Exc}
use nas_os.System.Users.{PosixUsers}
use nas_os.Agent.Users.{create_handler, set_smb_enabled_handler, delete_handler, import_handler}
use nas_os.Services.{World, call, service_result}
use nas_os.Users.{
  User, delete_row, notify, created_user, imported_user, create_user, import_user, set_smb_enabled,
  after_password, set_password, delete_user, update_description, Database,
}
use nas_os.Users.Contract.{Account, SameOthers, Contract, IsFreeOrRefused, DeletesOrLeaves}
use nas_os.Users.Handled.{
  create_handler-IsFramed, create_handler-ok, create_handler-refused, set_password_handler-Outcome,
  set_password_handler-IsFramed, delete_handler-IsFramed, delete_handler-Left,
  set_smb_enabled_handler-same, set_smb_enabled_handler-IsFramed, import_handler-IsFramed,
  import_handler-same, import_handler-ok,
}
use nas_os.Users.Invariant.{
  AgreesAt, Inv, Inv-frame, Inv-add_user, Inv-update_user, Reach, initial, created, imported,
  enabled, passworded, deleted, described,
}
use nas_os.Users.Invariant.Steps.{Inv-call, Inv-same, others_agree, Inv-changed_row}

module _ {S : Type 0} (users : PosixUsers S) (c : Contract users) where
  create_user-Inv :
      (username password description : String) (w : World Database S)
      → Inv users c w
      → c.fits username password ≡ true
      → IsFreeOrRefused users c.account username description w.system
      → Inv users c (create_user users username password description w).1
  unfolding create_user created_user
  create_user-Inv username password description w inv fit free =
      Inv-call users c (create_handler users username password description) _ w (λ e h. kept)
        (λ info h.
          let (named, made) =
            create_handler-ok users c username password description w.system info fit h in
          Inv-add_user users c _ (created_user info description) kept (
            let at = ap (c.account _) named ∙ made in
            (
              ap (λ (a : Account). a.uid) at,
              λ _. inr (ap (λ (a : Account). a.smb) at ∙ sym (ap (λ (a : Account). a.unix) at)),
            )))
    where
      kept :
          Inv users c
            (record w { system = (create_handler users username password description w.system).1 })
      kept =
          Inv-frame users c w _ username inv
            ((create_handler-IsFramed users c username password description fit).frame w.system)
            (λ row n a. elim free [
              | inl none_yet ↦ let h = sym a.0 ∙ none_yet in cc
              | inr (raises, same) ↦
                  subst (AgreesAt row)
                    (sym
                      (create_handler-refused users c username password description w.system raises
                        same).1)
                    a
            ])

  import_user-Inv :
      (username description : String) (w : World Database S)
      → Inv users c w
      → Inv users c (import_user users username description w).1
  unfolding import_user imported_user
  import_user-Inv username description w inv =
      Inv-call users c (import_handler users username) _ w (λ e h. kept)
        (λ info h.
          let (named, found) = import_handler-ok users c username w.system info h in
          Inv-add_user users c _ (imported_user info description) kept (
            ap (λ (a : Account). a.uid)
                  (ap (c.account _) named ∙ import_handler-same users c username w.system)
                ∙ found,
            λ g. cc,
          ))
    where
      kept : Inv users c (record w { system = (import_handler users username w.system).1 })
      kept =
          Inv-same users c username _ w inv (import_handler-IsFramed users c username)
            (import_handler-same users c username w.system)

  set_smb_enabled-Inv :
      (user : User) (enable : Bool) (w : World Database S)
      → Inv users c w
      → Inv users c (set_smb_enabled users user enable w).1
  unfolding set_smb_enabled
  set_smb_enabled-Inv user enable w inv =
      Inv-call users c (set_smb_enabled_handler users user.username enable) _ w (λ e h. kept)
        (λ x h. Inv-update_user users c _ user _ kept (λ row e. (refl, (kept user.uid row e).1)))
    where
      kept :
          Inv users c
            (record w { system = (set_smb_enabled_handler users user.username enable w.system).1 })
      kept =
          Inv-same users c user.username _ w inv
            (set_smb_enabled_handler-IsFramed users c user.username enable)
            (set_smb_enabled_handler-same users c user.username enable w.system)

  update_description-Inv :
      (user : User) (description : String) (w : World Database S)
      → Inv users c w
      → Inv users c (update_description user description w).1
  unfolding update_description
  update_description-Inv user description w inv =
      Inv-update_user users c w user _ inv (λ row e. (refl, (inv user.uid row e).1))

  -- The rows of the other keys have other names, so a change of one account is none of theirs.
  set_password-Inv :
      (user : User) (password : String) (w : World Database S)
      → Inv users c w
      → c.fits user.username password ≡ true
      → Dict.lookup user.uid w.db.users ≡ some user
      → Inv users c (set_password users user password w).1
  unfolding set_password call after_password service_result notify
  set_password-Inv user password w inv fit here =
      let frame =
        (set_password_handler-IsFramed users c user.username password fit).frame w.system in
      let (_, has) = inv user.uid user here in
      elim (set_password_handler-Outcome users c user.username password w.system fit) [
        | inl (h, e) ↦ rw h (
            Inv-changed_row users c w _ user _ inv here refl frame refl (
              ap (λ (a : Account). a.uid) e ∙ has.0,
              λ _. inr (ap (λ (a : Account). a.smb) e ∙ sym (ap (λ (a : Account). a.unix) e)),
            ))
        | inr (inl (m, h, e)) ↦ rw h (
            Inv-changed_row users c w _ user _ inv here refl frame refl
              (ap (λ (a : Account). a.uid) e ∙ has.0, λ g. cc))
        | inr (inr (m, h, e)) ↦ rw h (
            Inv-same users c user.username _ w inv
              (set_password_handler-IsFramed users c user.username password fit) e)
      ]

  delete_user-Inv :
      (user : User) (home : Bool) (w : World Database S)
      → Inv users c w
      → DeletesOrLeaves users c.account user.username home
          (users.smb_delete user.username w.system).1
      → Dict.lookup user.uid w.db.users ≡ some user
      → Inv users c (delete_user users user home w).1
  unfolding delete_user delete_row
  delete_user-Inv user home w inv deletes here =
      Inv-call users c (delete_handler users user.username home) _ w failed (λ x h uid row g.
        let l = sym (lookup-erase uid user.uid w.db.users) ∙ g in
        elim (Bool-cases (uid == user.uid)) [
          | inl e ↦ let l' = rw e at l in cc
          | inr e ↦ others_agree users c w user _ inv here frame uid row (rw e at l) e
        ])
    where
      frame :
          SameOthers c.account user.username w.system
            (delete_handler users user.username home w.system).1
      frame = (delete_handler-IsFramed users c user.username home).frame w.system

      failed :
          (e : Exc)
          → (delete_handler users user.username home w.system).0 ≡ err e
          → Inv users c (record w { system = (delete_handler users user.username home w.system).1 })
      failed e h = elim (delete_handler-Left users c user.username home w.system deletes) [
        | inl g ↦ cc
        | inr (m, g, inl (a, gone)) ↦ Inv-frame users c w _ user.username inv frame (λ row n b.
            (ap (λ (x : Account). x.uid) gone ∙ b.0, λ _. inl (ap (λ (x : Account). x.smb) gone)))
        | inr (m, g, inr same) ↦
            Inv-same users c user.username _ w inv
              (delete_handler-IsFramed users c user.username home) same
      ]

  users_sound : (w : World Database S) → Reach users c w → Inv users c w
  users_sound _ (initial s) = λ uid row h. let h' = sym (lookup-nil uid) ∙ h in cc
  users_sound _ (created {w} username password description r fit free) =
      create_user-Inv username password description w (users_sound w r) fit free
  users_sound _ (imported {w} username description r) =
      import_user-Inv username description w (users_sound w r)
  users_sound _ (enabled {w} user enable r here) =
      set_smb_enabled-Inv user enable w (users_sound w r)
  users_sound _ (passworded {w} user password r fit here) =
      set_password-Inv user password w (users_sound w r) fit here
  users_sound _ (deleted {w} user home r deletes here) =
      delete_user-Inv user home w (users_sound w r) deletes here
  users_sound _ (described {w} user description r here) =
      update_description-Inv user description w (users_sound w r)

-- Over accounts whose commands have their documented effects, in every world that the service reaches
-- from an empty table and any accounts, by operations on rows as they were loaded, each row has its
-- key as its uid and the uid of the account of its name, and where the row says that the Samba
-- password is in step, there is none or it is the Unix password. A user is created, or given a
-- password, with a name and a password that fit the commands' input; a user is created under a name
-- that is free or that the system refuses; and a deletion of an account either returns or leaves it.
pub table_sound :
    {S : Type 0} (users : PosixUsers S) (c : Contract users) (w : World Database S)
    → Reach users c w
    → (uid : ℕ) (row : User) → Dict.lookup uid w.db.users ≡ some row
    → (row.uid ≡ uid) × AgreesAt row (c.account w.system row.username)
table_sound users c w r uid row h = users_sound users c w r uid row h
