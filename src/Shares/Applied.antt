-- ===== src/Shares/Applied.antt =====
-- What a change of the permissions of a share leaves.
use mathlib.Core.Path.{subst}
use mathlib.Core.List.{append-nil}
use nas_os.Common.{
  ℕ, String, Bool, false, Option, List, [], ◌∷◌, ◌++◌, ok, err, Result-cases, Bool-cases, ◌≡◌, refl,
  sym, ap, ◌∙◌, inl, inr, ◌==◌, arith, string_eq, nat_eq,
}
use nas_os.Common.Actions.{bind-ok}
use nas_os.Common.Errors.{Exc}
use nas_os.Services.{World, call, call-ok}
use nas_os.System.Acl.{AclEntry}
use nas_os.Shares.{
  Database, Share, Permission, SharePermission, ShareSambaView, Agent, views, list_permissions,
  without_share, rows_of, has_duplicate, resolve_all,
}
use nas_os.Shares.Service.{
  replace_permissions, apply_samba_config, set_resolved, set_share_permissions,
}

list_permissions-append :
    (id : ℕ) (xs ys : List SharePermission)
    → list_permissions id (xs ++ ys) ≡ list_permissions id xs ++ list_permissions id ys
unfolding list_permissions
list_permissions-append id [] ys = refl
list_permissions-append id (x ∷ xs) ys = elim (Bool-cases (x.share_id == id)) [
  | inl e ↦ rw e (ap (◌∷◌ x.permission) (list_permissions-append id xs ys))
  | inr e ↦ rw e (list_permissions-append id xs ys)
]

list_permissions-without_share :
    (id : ℕ) (xs : List SharePermission) → list_permissions id (without_share id xs) ≡ []
unfolding list_permissions without_share
list_permissions-without_share id [] = refl
list_permissions-without_share id (x ∷ xs) = elim (Bool-cases (x.share_id == id)) [
  | inl e ↦ rw e (list_permissions-without_share id xs)
  | inr e ↦ rw (e, e) (list_permissions-without_share id xs)
]

list_permissions-without_other :
    (id other : ℕ) (xs : List SharePermission)
    → (other == id) ≡ false
    → list_permissions other (without_share id xs) ≡ list_permissions other xs
unfolding list_permissions without_share
list_permissions-without_other id other [] n = refl
list_permissions-without_other id other (x ∷ xs) n = elim (Bool-cases (x.share_id == id)) [
  | inl e ↦
      let mine : (x.share_id == other) ≡ false = ground arith in
      rw (e, mine) (list_permissions-without_other id other xs n)
  | inr e ↦ rw (e, list_permissions-without_other id other xs n) refl
]

list_permissions-rows_of :
    (id : ℕ) (ps : List Permission) → list_permissions id (rows_of id ps) ≡ ps
unfolding list_permissions rows_of
list_permissions-rows_of id [] = refl
list_permissions-rows_of id (p ∷ ps) = ground (arith, list_permissions-rows_of id ps)

list_permissions-rows_of_other :
    (id other : ℕ) (ps : List Permission)
    → (other == id) ≡ false
    → list_permissions other (rows_of id ps) ≡ []
unfolding list_permissions rows_of
list_permissions-rows_of_other id other [] n = refl
list_permissions-rows_of_other id other (p ∷ ps) n =
    ground (arith, list_permissions-rows_of_other id other ps n)

-- The rows of the permissions after they were replaced.
abbrev pub Replaced : ℕ → List Permission → List SharePermission → List SharePermission → Type 0
Replaced id permissions before after =
    (list_permissions id after ≡ permissions)
    × ((other : ℕ)
        → (other == id) ≡ false
        → list_permissions other after ≡ list_permissions other before)

replaced :
    (id : ℕ) (permissions : List Permission) (before : List SharePermission)
    → Replaced id permissions before (without_share id before ++ rows_of id permissions)
replaced id permissions before = (
  list_permissions-append id (without_share id before) (rows_of id permissions)
      ∙ ap (λ xs. xs ++ list_permissions id (rows_of id permissions))
          (list_permissions-without_share id before)
      ∙ list_permissions-rows_of id permissions,
  λ other n.
      list_permissions-append other (without_share id before) (rows_of id permissions)
      ∙ ap (λ xs. xs ++ list_permissions other (rows_of id permissions))
          (list_permissions-without_other id other before n)
      ∙ ap (λ ys. list_permissions other before ++ ys)
          (list_permissions-rows_of_other id other permissions n)
      ∙ append-nil (list_permissions other before),
)

replace_permissions-ok :
    {S : Type 0} (share : Share) (permissions : List Permission) (w : World Database S)
    → (replace_permissions share permissions w).0 ≡ ok tt
    → (replace_permissions share permissions w).1 ≡ record w {
      db = record w.db {
        permissions = without_share share.id w.db.permissions ++ rows_of share.id permissions;
      };
    }
unfolding replace_permissions
replace_permissions-ok share permissions w h = elim (Bool-cases (has_duplicate permissions)) [
  | inl e ↦ let h' = rw e at h in cc
  | inr e ↦ rw e refl
]

-- The configuration that the agent applied last is that of the tables.
abbrev pub IsApplied :
    {S : Type 0} → (List ShareSambaView → String) → Agent S → World Database S → Type 0
IsApplied {S = S} render agent w =
    (s : S) × (sha256 : String) × ((agent.apply_config (render (views w.db.shares w.db.permissions))
        false s).0
      ≡ ok sha256)
    × ((agent.apply_config (render (views w.db.shares w.db.permissions)) false s).1 ≡ w.system)

module _ (render : List ShareSambaView → String) {S : Type 0} (agent : Agent S) where
  set_resolved-ok :
      (share : Share) (permissions : List Permission) (recursive : Bool) (entries : List AclEntry)
      (w : World Database S) (job_id : Option String)
      → (set_resolved render agent share permissions recursive (ok entries) w).0 ≡ ok job_id
      → ((agent.set_permissions share.path entries recursive w.system).0 ≡ ok job_id)
        × (Replaced share.id permissions w.db.permissions
              (set_resolved render agent share permissions recursive
                (ok entries)
                w).1.db.permissions
            × IsApplied render agent
                (set_resolved render agent share permissions recursive (ok entries) w).1)
  unfolding set_resolved call apply_samba_config
  set_resolved-ok share permissions recursive entries w job_id h =
      let setting = call (agent.set_permissions share.path entries recursive) in
      let (j, a, h1, e1) = bind-ok setting _ w h in
      let (x, b, h2, e2) = bind-ok (replace_permissions share permissions) _ (setting w).1 h1 in
      let w2 = (replace_permissions share permissions (setting w).1).1 in
      let made = replace_permissions-ok share permissions (setting w).1 b in
      let (sha, d, h3, e3) = bind-ok (apply_samba_config render agent false) _ w2 h2 in
      let config = render (views w2.db.shares w2.db.permissions) in
      let perms = ap (λ (v : World Database S). v.db.permissions) made in
      rw (e1, e2, e3)
        (
          call-ok (agent.set_permissions share.path entries recursive) w (a ∙ h3),
          (
            subst (Replaced share.id permissions w.db.permissions) (sym perms)
                (replaced share.id permissions w.db.permissions),
            (w2.system, sha, call-ok (agent.apply_config config false) w2 d, refl),
          ),
        )

refused :
    (render : List ShareSambaView → String) {S : Type 0} (agent : Agent S) (share : Share)
    (permissions : List Permission) (recursive : Bool) (e : Exc) (w : World Database S)
    {job_id : Option String}
    → (set_resolved render agent share permissions recursive (err e) w).0 ≡ ok job_id
    → ⊥
unfolding set_resolved
refused render agent share permissions recursive e w h = cc

-- Where a change of the permissions of a share returns, every principal was resolved and the agent
-- was given the resolved entries, which it answered with the job; the permissions of the share
-- are those that were given, in their order, and those of the other shares are as before; and the
-- configuration that the agent applied last is rendered from the tables as they are then.
pub set_share_permissions-ok :
    (render : List ShareSambaView → String) {S : Type 0} (agent : Agent S) (share : Share)
    (permissions : List Permission) (recursive : Bool) (w : World Database S)
    (job_id : Option String)
    → (set_share_permissions render agent share permissions recursive w).0 ≡ ok job_id
    → ((entries : List AclEntry) × (resolve_all w.db permissions ≡ ok entries)
        × ((agent.set_permissions share.path entries recursive w.system).0 ≡ ok job_id))
      × (Replaced share.id permissions w.db.permissions
            (set_share_permissions render agent share permissions recursive w).1.db.permissions
          × IsApplied render agent
              (set_share_permissions render agent share permissions recursive w).1)
unfolding set_share_permissions
set_share_permissions-ok render agent share permissions recursive w job_id h =
    elim (Result-cases (resolve_all w.db permissions)) [
      | inl (e, r) ↦
          let h' = refused render agent share permissions recursive e w (rw r at h) in elim h' [ ]
      | inr (entries, r) ↦
          let (called, left) =
            set_resolved-ok render agent share permissions recursive entries w job_id (rw r at h) in
          rw r ((entries, refl, called), left)
    ]
