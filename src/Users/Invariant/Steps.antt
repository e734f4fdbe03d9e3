-- ===== src/Users/Invariant/Steps.antt =====
-- What the operations of the service have in common: a call of the agent, and a row that changes.
use nas_os.Common.{
  ℕ, String, false, some, Result, ok, err, Result-cases, Bool-cases, ◌≡◌, refl, sym, ap, ◌∙◌, arith,
  inl, inr, ◌==◌, string_eq, nat_eq,
}
use mathlib.Core.Path.{subst}
use mathlib.Core.Option.{some-injective}
use nas_os.Common.Dict
use nas_os.Common.Dict.{lookup-nil, lookup-insert, lookup-erase}
use nas_os.Common.Actions.{Action, ◌>>=◌, bind-err, bind-eq}
use nas_os.Common.Errors.{Exc, rpc_exception, service_error}
use nas_os.System.Users.{PosixUsers}
use nas_os.Services.{World, call, service_result}
use nas_os.Users.{User, update_row, update_user, Database}
use nas_os.Users.Contract.{SameOthers, Contract, IsFramed}
use nas_os.Users.Invariant.{AgreesAt, Inv, Inv-frame}

service_result-err : {A : Type 0} (e : Exc) → (x : Exc) × (service_result {A = A} (err e) ≡ err x)
unfolding service_result
service_result-err (rpc_exception code message) = (service_error code message, refl)
service_result-err _ = (service_error "internal_error" "internal error", refl)

module _ {S : Type 0} (users : PosixUsers S) (c : Contract users) where
  call-answer :
      {A : Type 0} (action : Action S A) (w : World Database S) {r : Result Exc A}
      → (action w.system).0 ≡ r
      → (call action w).0 ≡ service_result r
  unfolding call
  call-answer action w h = ap service_result h

  call-ok :
      {A : Type 0} (action : Action S A) (w : World Database S) {a : A}
      → (action w.system).0 ≡ ok a
      → (call action w).0 ≡ ok a
  unfolding call service_result
  call-ok action w h = rw h refl

  -- A call, then what follows where it answers.
  pub Inv-call :
      {A B : Type 0} (action : Action S A) (rest : A → Action (World Database S) B)
      (w : World Database S)
      → ((e : Exc)
          → (action w.system).0 ≡ err e
          → Inv users c (record w { system = (action w.system).1 }))
      → ((a : A)
          → (action w.system).0 ≡ ok a
          → Inv users c (rest a (record w { system = (action w.system).1 })).1)
      → Inv users c ((call action >>= rest) w).1
  unfolding call
  Inv-call action rest w failed answered = elim (Result-cases (action w.system).0) [
    | inl (e, h) ↦
        let (x, same) = service_result-err e in
        rw (bind-err (call action) rest w (call-answer action w h ∙ same)) (failed e h)
    | inr (a, h) ↦ rw (bind-eq (call action) rest w (call-ok action w h)) (answered a h)
  ]

  -- A call that touches the account of one name, and leaves it as it is.
  pub Inv-same :
      {A : Type 0} (name : String) (action : Action S A) (w : World Database S)
      → Inv users c w
      → IsFramed c.account name action
      → c.account (action w.system).1 name ≡ c.account w.system name
      → Inv users c (record w { system = (action w.system).1 })
  Inv-same name action w inv f same =
      Inv-frame users c w _ name inv (f.frame w.system)
        (λ row n a. subst (AgreesAt row) (sym same) a)

  pub others_agree :
      (w : World Database S) (user : User) (s : S)
      → Inv users c w
      → Dict.lookup user.uid w.db.users ≡ some user
      → SameOthers c.account user.username w.system s
      → (uid : ℕ) (row : User) → Dict.lookup uid w.db.users ≡ some row
      → (uid == user.uid) ≡ false
      → (row.uid ≡ uid) × AgreesAt row (c.account s row.username)
  others_agree w user s inv here frame uid row h n =
      let (same, a) = inv uid row h in
      let (_, b) = inv user.uid user here in
      elim (Bool-cases (row.username == user.username)) [
        | inr e ↦ (same, subst (AgreesAt row) (sym (frame row.username e)) a)
        | inl e ↦
            let named : row.username ≡ user.username = ground arith in
            let keys : row.uid ≡ user.uid =
              some-injective _ _ (sym a.0 ∙ ap (λ u. (c.account w.system u).uid) named ∙ b.0) in
            let at : uid ≡ user.uid = sym same ∙ keys in let bad : ⊥ = ground arith in elim bad [ ]
      ]

  -- A row is changed together with the account of its name.
  pub Inv-changed_row :
      (w w' : World Database S) (user : User) (change : User → User)
      → Inv users c w
      → Dict.lookup user.uid w.db.users ≡ some user
      → w'.db.users ≡ w.db.users
      → SameOthers c.account user.username w.system w'.system
      → (change user).uid ≡ user.uid
      → AgreesAt (change user) (c.account w'.system (change user).username)
      → Inv users c (update_user user change w').1
  unfolding update_user update_row
  Inv-changed_row w w' user change inv here table frame key a =
      let here' : Dict.lookup user.uid w'.db.users ≡ some user =
        ap (Dict.lookup user.uid) table ∙ here in
      rw here' (λ uid row h.
        let l = sym (lookup-insert uid user.uid (change user) w'.db.users) ∙ h in
        elim (Bool-cases (uid == user.uid)) [
          | inl e ↦
              let at : uid ≡ user.uid = ground arith in
              let same : change user ≡ row = some-injective _ _ (rw e at l) in
              (
                ap (λ (r : User). r.uid) (sym same) ∙ key ∙ sym at,
                subst (λ (r : User). AgreesAt r (c.account w'.system r.username)) same a,
              )
          | inr e ↦
              others_agree w user w'.system inv here frame uid row
                (sym (ap (Dict.lookup uid) table) ∙ rw e at l) e
        ])
