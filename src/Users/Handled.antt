-- ===== src/Users/Handled.antt =====
-- What each handler of the agent does to the accounts.
use nas_os.Common.{
  ℕ, String, ◌<>◌, Bool, true, false, none, some, Result, ok, err, succeeds, ok-injective,
  Option-cases, ◌≡◌, refl, sym, ap, ◌∙◌, ◌⊎◌, inl, inr, string_eq,
}
use nas_os.Common.Actions.{
  and_then, ◌>>=◌, map_error, map_error-ok, state-map_error, renamed, bind-ok, bind-failed,
}
use nas_os.Common.Errors.{Exc, rpc_exception}
use nas_os.System.Users.{PosixUsers}
use nas_os.Agent.Users.{
  UserInfo, as_rpc, ignored, uid_or_raise, create_accounts, create_handler, set_smb_enabled_handler,
  try_smb_delete, delete_handler, set_password_handler, import_handler,
}
use nas_os.Users.Contract.{
  set_unix, set_smb, IsFramed, give-IsFramed, bind-IsFramed, map_error-IsFramed, changed_if_ok,
  Contract, DeletesOrLeaves,
}

module _ {S : Type 0} (users : PosixUsers S) (c : Contract users) where
  pub create_handler-IsFramed :
      (name password description : String)
      → c.fits name password ≡ true
      → IsFramed c.account name (create_handler users name password description)
  unfolding create_handler create_accounts
  create_handler-IsFramed name password description fit =
      bind-IsFramed c.account name _ _
        (map_error-IsFramed c.account name _ _ (
          bind-IsFramed c.account name _ _ (c.create_framed name _ description) (λ uid.
            bind-IsFramed c.account name _ _ (c.set_unix_lem name password fit).framed (λ x.
              bind-IsFramed c.account name _ _ (c.smb_create_lem name password fit).framed
                (λ y. give-IsFramed c.account name _)))))
        (λ uid. give-IsFramed c.account name _)

  create_accounts-ok :
      (name password description : String) (s : S) (uid : ℕ)
      → c.fits name password ≡ true
      → (create_accounts users name password description s).0 ≡ ok uid
      → c.account (create_accounts users name password description s).1 name
        ≡ record { uid = some uid; unix = some password; smb = some password }
  unfolding create_accounts
  create_accounts-ok name password description s uid fit h =
      let (u, a, h1, e1) = bind-ok (users.create name ("/home/" <> name) description) _ s h in
      let s1 = (users.create name ("/home/" <> name) description s).1 in
      let (_, b, h2, e2) = bind-ok (users.set_unix_password name password) _ s1 h1 in
      let s2 = (users.set_unix_password name password s1).1 in
      let (_, d, h3, e3) = bind-ok (users.smb_create name password) _ s2 h2 in
      let same : u ≡ uid = ok-injective h3 in
      let at1 = c.create_lem name ("/home/" <> name) description s u a in
      let at2 = changed_if_ok c.account name _ _ s1 (c.set_unix_lem name password fit) (b ∙ refl) in
      let at3 =
        changed_if_ok c.account name _ _ s2 (c.smb_create_lem name password fit) (d ∙ refl) in
      rw (e1, e2, e3)
        (at3
          ∙ ap (set_smb (some password)) at2
          ∙ ap (λ v. record { uid = v; unix = some password; smb = some password })
              (at1 ∙ ap some same))

  -- A created user has the uid that is answered, and the password in both places.
  pub create_handler-ok :
      (name password description : String) (s : S) (info : UserInfo)
      → c.fits name password ≡ true
      → (create_handler users name password description s).0 ≡ ok info
      → (info.username ≡ name)
        × (c.account (create_handler users name password description s).1 name
            ≡ record { uid = some info.uid; unix = some password; smb = some password })
  unfolding create_handler
  create_handler-ok name password description s info fit h =
      let accounts = create_accounts users name password description in
      let (uid, a, h1, e1) = bind-ok (map_error (as_rpc "system_error") accounts) _ s h in
      let same : record { uid = uid; username = name } ≡ info = ok-injective h1 in
      let made =
        create_accounts-ok name password description s uid fit
          (map_error-ok (as_rpc "system_error") accounts s a) in
      (
        ap (λ (i : UserInfo). i.username) (sym same),
        rw (e1, state-map_error (as_rpc "system_error") accounts s)
            (made
              ∙ ap (λ v. record { uid = some v; unix = some password; smb = some password })
                  (ap (λ (i : UserInfo). i.uid) same)),
      )

  succeeds-renamed :
      {A : Type 0} (f : Exc → Exc) (r : Result Exc A) → succeeds (renamed f r) ≡ succeeds r
  succeeds-renamed f (ok a) = refl
  succeeds-renamed f (err e) = refl

  -- A name that `create` refuses is refused by the handler, which leaves its account too.
  pub create_handler-refused :
      (name password description : String) (s : S)
      → succeeds (users.create name ("/home/" <> name) description s).0 ≡ false
      → c.account (users.create name ("/home/" <> name) description s).1 name ≡ c.account s name
      → (succeeds (create_handler users name password description s).0 ≡ false)
        × (c.account (create_handler users name password description s).1 name ≡ c.account s name)
  unfolding create_handler create_accounts map_error
  create_handler-refused name password description s raises same =
      let (raises1, e1) =
        bind-failed (users.create name ("/home/" <> name) description) _ s raises in
      let (raises2, e2) =
        bind-failed
          (map_error (as_rpc "system_error") (create_accounts users name password description)) _ s
          (succeeds-renamed (as_rpc "system_error") _ ∙ raises1) in
      (raises2, rw (e2, e1) same)

  -- The three outcomes of a change of password.
  abbrev pub Outcome : String → String → S → Result Exc (Unit {0}) × S → Type 0
  Outcome name password s (r, s') =
      ((r ≡ ok tt)
        × (c.account s' name ≡ set_smb (some password) (set_unix password (c.account s name))))
      ⊎ (((message : String) × (r ≡ err (rpc_exception "smb_password_sync_failed" message))
            × (c.account s' name ≡ set_unix password (c.account s name)))
          ⊎ ((message : String) × (r ≡ err (rpc_exception "system_error" message))
              × (c.account s' name ≡ c.account s name)))

  pub set_password_handler-Outcome :
      (name password : String) (s : S)
      → c.fits name password ≡ true
      → Outcome name password s (set_password_handler users name password s)
  unfolding set_password_handler as_rpc map_error ◌>>=◌ and_then
  set_password_handler-Outcome name password s fit =
      elim ((c.set_unix_lem name password fit).effect s) [
        | inr (m, a, same) ↦ rw a (inr (inr (m, refl, same)))
        | inl (a, made) ↦
            rw a
              (elim ((c.smb_set_lem name password fit).effect
                (users.set_unix_password name password s).1) [
                  | inl (b, done) ↦ inl (rw b refl, done ∙ ap (set_smb (some password)) made)
                  | inr (m, b, same) ↦ inr (inl (m, rw b refl, same ∙ made))
                ])
      ]

  pub set_password_handler-IsFramed :
      (name password : String)
      → c.fits name password ≡ true
      → IsFramed c.account name (set_password_handler users name password)
  unfolding set_password_handler
  set_password_handler-IsFramed name password fit =
      bind-IsFramed c.account name _ _
        (map_error-IsFramed c.account name _ _ (c.set_unix_lem name password fit).framed)
        (λ x. map_error-IsFramed c.account name _ _ (c.smb_set_lem name password fit).framed)

  -- What a deletion that raises leaves: the account, with or without its Samba password.
  pub delete_handler-IsFramed :
      (name : String) (home : Bool) → IsFramed c.account name (delete_handler users name home)
  unfolding delete_handler try_smb_delete
  delete_handler-IsFramed name home =
      bind-IsFramed c.account name _ _ (record { frame = (c.smb_delete_lem name).framed.frame })
        (λ x. map_error-IsFramed c.account name _ _ (c.delete_framed name home))

  -- The account after a deletion that raised, by what Samba answered.
  abbrev pub Left : String → S → Result Exc (Unit {0}) × S → Type 0
  Left name s (r, s') =
      (r ≡ ok tt)
      ⊎ ((message : String) × (r ≡ err (rpc_exception "system_error" message))
          × (((users.smb_delete name s).0 ≡ ok tt)
                × (c.account s' name ≡ set_smb none (c.account s name))
              ⊎ (c.account s' name ≡ c.account s name)))

  pub delete_handler-Left :
      (name : String) (home : Bool) (s : S)
      → DeletesOrLeaves users c.account name home (users.smb_delete name s).1
      → Left name s (delete_handler users name home s)
  unfolding delete_handler try_smb_delete ignored as_rpc map_error ◌>>=◌ and_then
  delete_handler-Left name home s deletes = elim ((c.smb_delete_lem name).effect s) [
    | inl (a, gone) ↦ elim (deletes) [
      | inl d ↦ inl (rw (a, d) refl)
      | inr (m, d, same) ↦ inr (m, rw (a, d) refl, inl (a, rw a (same ∙ gone)))
    ]
    | inr (_, a, kept) ↦ elim (deletes) [
      | inl d ↦ inl (rw (a, d) refl)
      | inr (m, d, same) ↦ inr (m, rw (a, d) refl, inr (rw a (same ∙ kept)))
    ]
  ]

  -- The two calls that leave the passwords and the uid alone.
  pub set_smb_enabled_handler-same :
      (name : String) (enabled : Bool) (s : S)
      → c.account (set_smb_enabled_handler users name enabled s).1 name ≡ c.account s name
  unfolding set_smb_enabled_handler map_error
  set_smb_enabled_handler-same name enabled s = elim ((c.smb_enabled_lem name enabled).effect s) [
    | inl (_, e) ↦ e
    | inr (_, _, e) ↦ e
  ]

  pub set_smb_enabled_handler-IsFramed :
      (name : String) (enabled : Bool)
      → IsFramed c.account name (set_smb_enabled_handler users name enabled)
  unfolding set_smb_enabled_handler
  set_smb_enabled_handler-IsFramed name enabled =
      map_error-IsFramed c.account name _ _ (c.smb_enabled_lem name enabled).framed

  pub import_handler-IsFramed :
      (name : String) → IsFramed c.account name (import_handler users name)
  unfolding import_handler
  import_handler-IsFramed name = bind-IsFramed c.account name _ _ lookup-IsFramed (λ found.
      bind-IsFramed c.account name _ _ (give-IsFramed c.account name _) (λ uid.
        bind-IsFramed c.account name _ _
          (map_error-IsFramed c.account name _ _ (c.add_to_group_lem name "nasos-users").framed)
          (λ x. give-IsFramed c.account name _)))
    where
      lookup-IsFramed : IsFramed c.account name (users.lookup name)
      lookup-IsFramed = record { frame = λ s other n. rw (c.lookup_lem name s) refl }

  -- An import finds the account as it is, and leaves it so.
  pub import_handler-same :
      (name : String) (s : S) → c.account (import_handler users name s).1 name ≡ c.account s name
  unfolding import_handler map_error uid_or_raise ◌>>=◌ and_then
  import_handler-same name s = elim (Option-cases (c.account s name).uid) [
    | inl none_found ↦ simp (c.lookup_lem name s, none_found)
    | inr (uid, found) ↦ elim ((c.add_to_group_lem name "nasos-users").effect s) [
      | inl (a, e) ↦ simp (c.lookup_lem name s, found, a, e)
      | inr (m, a, e) ↦ simp (c.lookup_lem name s, found, a, e)
    ]
  ]

  pub import_handler-ok :
      (name : String) (s : S) (info : UserInfo)
      → (import_handler users name s).0 ≡ ok info
      → (info.username ≡ name) × ((c.account s name).uid ≡ some info.uid)
  unfolding import_handler map_error uid_or_raise ◌>>=◌ and_then
  import_handler-ok name s info h = elim (Option-cases (c.account s name).uid) [
    | inl none_found ↦ let h' = rw (c.lookup_lem name s, none_found) at h in cc
    | inr (uid, found) ↦ elim ((c.add_to_group_lem name "nasos-users").effect s) [
      | inl (a, e) ↦
          let same : record { uid = uid; username = name } ≡ info =
            ok-injective (rw (c.lookup_lem name s, found, a) at h) in
          (
            ap (λ (i : UserInfo). i.username) (sym same),
            found ∙ ap (λ (i : UserInfo). some i.uid) same,
          )
      | inr (m, a, e) ↦ let h' = rw (c.lookup_lem name s, found, a) at h in cc
    ]
  ]
