-- ===== src/Users/Contract.antt =====
-- What the services rely on of the accounts: the documented effects of the commands on an account's
-- uid and its two passwords, for the names and passwords that fit the input of `chpasswd` and
-- `smbpasswd`, which read lines. `FakePosixUsers` keeps all of it, with any password. Two things
-- are asked of single calls, not of the accounts as a whole: that a name is free or refused (`useradd`
-- refuses a name that exists, `FakePosixUsers` does not), and that a deletion that fails leaves
-- the account (a `userdel -r` that ends with status 12 has removed it).
use nas_os.Common.{
  ℕ, String, ◌<>◌, Bool, true, false, Option, none, some, Result, ok, err, succeeds, ◌≡◌, refl, sym,
  ◌∙◌, ◌⊎◌, inl, inr, ◌==◌, string_eq,
}
use nas_os.Common.Actions.{Action, and_then, ◌>>=◌, give, map_error}
use nas_os.Common.Errors.{Exc, system_user_error}
use nas_os.System.Users.{PosixUsers}

pub record Account : Type 0 where
  pub uid : Option ℕ
  pub unix : Option String
  pub smb : Option String

abbrev pub set_unix : String → Account → Account
set_unix password a = record a { unix = some password }

abbrev pub set_smb : Option String → Account → Account
set_smb password a = record a { smb = password }

module _ {S : Type 0} (account : S → String → Account) (name : String) where
  -- Only the account of the name may differ.
  abbrev pub SameOthers : S → S → Type 0
  SameOthers s s' = (other : String) → (other == name) ≡ false → account s' other ≡ account s other

  -- An action touches no account but that of the name.
  pub record IsFramed {A : Type 0} (action : Action S A) : Type 0 where
    pub frame : (s : S) → SameOthers s (action s).1

  pub give-IsFramed : {A : Type 0} (r : Result Exc A) → IsFramed (give r)
  give-IsFramed r = record { frame = λ s other h. refl }

  and_then-same :
      {A B : Type 0} (rest : A → Action S B) (before : S) (answer : Result Exc A × S)
      → SameOthers before answer.1
      → ((x : A) → IsFramed (rest x))
      → SameOthers before (and_then rest answer).1
  unfolding and_then
  and_then-same rest before (ok x, s) h q other n = (q x).frame s other n ∙ h other n
  and_then-same rest before (err e, s) h q other n = h other n

  pub bind-IsFramed :
      {A B : Type 0} (first : Action S A) (rest : A → Action S B)
      → IsFramed first
      → ((x : A) → IsFramed (rest x))
      → IsFramed (first >>= rest)
  unfolding ◌>>=◌
  bind-IsFramed first rest p q = record {
    frame = λ s. and_then-same rest s (first s) (p.frame s) q;
  }

  pub map_error-IsFramed :
      {A : Type 0} (f : Exc → Exc) (action : Action S A)
      → IsFramed action
      → IsFramed (map_error f action)
  unfolding map_error
  map_error-IsFramed f action p = record { frame = p.frame }

  -- An action changes the account of the name, or fails with a message and changes nothing.
  pub record Changes (change : Account → Account) (action : Action S (Unit {0})) : Type 0 where
    pub framed : IsFramed action
    pub effect :
        (s : S)
        → (((action s).0 ≡ ok tt) × (account (action s).1 name ≡ change (account s name)))
          ⊎ ((message : String) × ((action s).0 ≡ err (system_user_error message))
              × (account (action s).1 name ≡ account s name))

module _ {S : Type 0} (account : S → String → Account) (name : String) where
  pub changed_if_ok :
      (change : Account → Account) (action : Action S (Unit {0})) (s : S)
      → Changes account name change action
      → (action s).0 ≡ ok tt
      → account (action s).1 name ≡ change (account s name)
  changed_if_ok change action s p h = elim (p.effect s) [
    | inl (_, e) ↦ e
    | inr (m, e, _) ↦ let h' = sym e ∙ h in cc
  ]

pub record Contract {S : Type 0} (users : PosixUsers S) : Type 0 where
  pub account : S → String → Account
  pub fits : String → String → Bool
  pub lookup_lem : (name : String) (s : S) → users.lookup name s ≡ (ok (account s name).uid, s)
  pub create_framed :
      (name home description : String) → IsFramed account name (users.create name home description)
  pub create_lem :
      (name home description : String) (s : S) (uid : ℕ)
      → (users.create name home description s).0 ≡ ok uid
      → (account (users.create name home description s).1 name).uid ≡ some uid
  pub set_unix_lem :
      (name password : String)
      → fits name password ≡ true
      → Changes account name (set_unix password) (users.set_unix_password name password)
  pub smb_create_lem :
      (name password : String)
      → fits name password ≡ true
      → Changes account name (set_smb (some password)) (users.smb_create name password)
  pub smb_set_lem :
      (name password : String)
      → fits name password ≡ true
      → Changes account name (set_smb (some password)) (users.smb_set_password name password)
  pub smb_delete_lem : (name : String) → Changes account name (set_smb none) (users.smb_delete name)
  pub smb_enabled_lem :
      (name : String) (enabled : Bool)
      → Changes account name (λ a. a) (users.smb_set_enabled name enabled)
  pub add_to_group_lem :
      (name group : String) → Changes account name (λ a. a) (users.add_to_group name group)
  pub delete_framed : (name : String) (home : Bool) → IsFramed account name (users.delete name home)

module _ {S : Type 0} (users : PosixUsers S) (account : S → String → Account) where
  -- At these accounts the name is free, or `create` refuses it and leaves its account.
  abbrev pub IsFreeOrRefused : String → String → S → Type 0
  IsFreeOrRefused name description s =
      ((account s name).uid ≡ none)
      ⊎ ((succeeds (users.create name ("/home/" <> name) description s).0 ≡ false)
          × (account (users.create name ("/home/" <> name) description s).1 name ≡ account s name))

  -- At these accounts `delete` returns, or fails and leaves the account.
  abbrev pub DeletesOrLeaves : String → Bool → S → Type 0
  DeletesOrLeaves name home s =
      ((users.delete name home s).0 ≡ ok tt)
      ⊎ ((message : String) × ((users.delete name home s).0 ≡ err (system_user_error message))
          × (account (users.delete name home s).1 name ≡ account s name))
