-- ===== src/System/Samba/Applied.antt =====
-- What `samba.apply_config` of agent/handlers/samba.py leaves where it returns and where it raises.
use nas_os.Common.{
  String, ◌<>◌, Bool, true, false, not, ◌||◌, Option, some, List, [], ◌∷◌, Result, ok, err,
  succeeds, Result-cases, Bool-cases, ◌≡◌, refl, ap, ◌∙◌, ◌⊎◌, inl, inr, ◌==◌, string_eq, nat_eq,
}
use nas_os.Common.Actions.{Action, ◌>>=◌, and_then, map_error, renamed}
use nas_os.Common.Errors.{Exc, config_apply_error, config_validation_error, rpc_exception}
use nas_os.System.Runner.{CommandResult}
use nas_os.System.ManagedFile.{Files, Target, Host, Io, path_of, write_and_apply}
use nas_os.System.ManagedFile.Faults.{Serves}
use nas_os.System.ManagedFile.Writes.{IsSeparate, content_at}
use nas_os.System.ManagedFile.Rollback.{Atomic, IsValidation, IsApplication, write_and_apply-Atomic}
use nas_os.System.Samba.{
  smb_conf, TextOps, Systemd, check_testparm, validate, restart_units, start, after_reload, reload,
  reload_if_active, reload_or_start, apply_fn, as_rpc, apply_config,
}

module _ (text : TextOps) {S : Type 0} (run : List String → Action S CommandResult)
    (systemd : Systemd S)
    (runs : (args : List String) (s : S) → succeeds (run args s).0 ≡ true) where
  check_testparm-IsValidation :
      (result : CommandResult) → IsValidation (check_testparm text run systemd result)
  unfolding check_testparm
  check_testparm-IsValidation result =
      elim (Bool-cases (
        not (result.returncode == 0)
        || text.occurs_in "Error loading services." (result.stdout <> result.stderr))) [
          | inl e ↦ rw e tt
          | inr e ↦ rw e tt
        ]

  validate-IsValidation : (s : S) → IsValidation (validate text run systemd s).0
  unfolding validate ◌>>=◌ and_then
  validate-IsValidation s =
      let args : List String = "testparm" ∷ "-s" ∷ "--suppress-prompt" ∷ smb_conf ∷ [] in
      let can : succeeds (run args s).0 ≡ true = runs args s in
      elim (Result-cases (run args s).0) [
        | inl (e, r) ↦ let h = rw r at can in cc
        | inr (result, r) ↦ rw r (check_testparm-IsValidation result)
      ]

  renamed-IsApplication :
      (text_of : Exc → String) (r : Result Exc (Unit {0}))
      → IsApplication (renamed (λ e. config_apply_error (text_of e)) r)
  renamed-IsApplication text_of (ok _) = tt
  renamed-IsApplication text_of (err e) = tt

  start-IsApplication : (s : S) → IsApplication (start text run systemd s).0
  unfolding start map_error
  start-IsApplication s = renamed-IsApplication _ (restart_units text run systemd s).0

  after_reload-IsApplication :
      (result : CommandResult) (s : S) → IsApplication (after_reload text run systemd result s).0
  unfolding after_reload
  after_reload-IsApplication result s = elim (Bool-cases (result.returncode == 0)) [
    | inl e ↦ rw e tt
    | inr e ↦ rw e (start-IsApplication s)
  ]

  reload-IsApplication : (s : S) → IsApplication (reload text run systemd s).0
  unfolding reload ◌>>=◌ and_then
  reload-IsApplication s =
      let args : List String = "smbcontrol" ∷ "all" ∷ "reload-config" ∷ [] in
      let can : succeeds (run args s).0 ≡ true = runs args s in
      elim (Result-cases (run args s).0) [
        | inl (e, r) ↦ let h = rw r at can in cc
        | inr (result, r) ↦ rw r (after_reload-IsApplication result (run args s).1)
      ]

  reload_if_active-IsApplication :
      (state : String) (s : S) → IsApplication (reload_if_active text run systemd state s).0
  unfolding reload_if_active
  reload_if_active-IsApplication state s = elim (Bool-cases (state == "active")) [
    | inl e ↦ rw e (reload-IsApplication s)
    | inr e ↦ rw e (start-IsApplication s)
  ]

  reload_or_start-IsApplication :
      (s : S)
      → succeeds (systemd.active_state "smb.service" s).0 ≡ true
      → IsApplication (reload_or_start text run systemd s).0
  unfolding reload_or_start ◌>>=◌ and_then
  reload_or_start-IsApplication s h = elim (Result-cases (systemd.active_state "smb.service" s).0) [
    | inl (e, r) ↦ let h' = rw r at h in cc
    | inr (state, r) ↦
        rw r (reload_if_active-IsApplication state (systemd.active_state "smb.service" s).1)
  ]

-- Every command can be run, whatever its exit code.
abbrev pub Runs : {S : Type 0} → Io S → Type 0
Runs {S} io = (files : Files) (args : List String) (s : S) → succeeds (io.run files args s).0 ≡ true

apply_fn-IsApplication :
    (text : TextOps) {S : Type 0} (io : Io S) (systemd : Systemd S) (digest : String → String)
    (restart : Bool) (files : Files) (s : S)
    → Runs io
    → (restart ≡ true) ⊎ ((s' : S) → succeeds (systemd.active_state "smb.service" s').0 ≡ true)
    → IsApplication (apply_fn text io systemd digest restart files s).0
unfolding apply_fn
apply_fn-IsApplication text io systemd digest true files s runs answers =
    start-IsApplication text (io.run files) systemd (runs files) s
apply_fn-IsApplication text io systemd digest false files s runs (inl e) = cc
apply_fn-IsApplication text io systemd digest false files s runs (inr answers) =
    reload_or_start-IsApplication text (io.run files) systemd (runs files) s (answers s)

as_rpc-err : (x : Exc) → (y : Exc) × (as_rpc (err x) ≡ err y)
unfolding as_rpc
as_rpc-err (config_validation_error detail) = (rpc_exception "config_invalid" detail, refl)
as_rpc-err (config_apply_error detail) = (rpc_exception "apply_failed" detail, refl)
as_rpc-err e = (e, refl)

Atomic-as_rpc :
    {S : Type 0} (t : Target) (digest content : String) (previous : Option String)
    (r : Result Exc String) (h : Host S)
    → Atomic t digest content previous (r, h)
    → Atomic t digest content previous (as_rpc r, h)
unfolding as_rpc
Atomic-as_rpc t digest content previous r h (inl (e, c)) = inl (ap as_rpc e, c)
Atomic-as_rpc t digest content previous r h (inr (x, e, c)) =
    let (y, f) = as_rpc-err x in inr (y, ap as_rpc e ∙ f, c)

-- For a file apart from its backups, where every command can be run, whatever it answers, where the
-- system refuses no file once the new content is in place, and where the state of smb.service can
-- be asked or a restart is asked for, `samba.apply_config` either returns the digest with the new
-- content in the file, or raises with the content from before the call in it, or no file where
-- there was none.
pub apply_config-Committed :
    (text : TextOps) {S : Type 0} (io : Io S) (systemd : Systemd S) (digest : String → String)
    (t : Target) (stamp content : String) (restart : Bool) (h : Host S)
    → IsSeparate t stamp
    → Serves io t content
    → Runs io
    → (restart ≡ true) ⊎ ((s : S) → succeeds (systemd.active_state "smb.service" s).0 ≡ true)
    → Atomic t
        (digest content)
        content
        (content_at (path_of t) h.files)
        (apply_config text io systemd digest t stamp content restart h)
unfolding apply_config
apply_config-Committed text io systemd digest t stamp content restart h sep serves runs answers =
    let validating = λ (files : Files). validate text (io.run files) systemd in
    let applying = apply_fn text io systemd digest restart in
    let r = write_and_apply io digest t (some validating) (some applying) stamp content h in
    Atomic-as_rpc t (digest content) content (content_at (path_of t) h.files) r.0 r.1 (
      write_and_apply-Atomic io digest t (some validating) (some applying) stamp content h sep
        serves (λ files s. validate-IsValidation text (io.run files) systemd (runs files) s)
        (λ files s. apply_fn-IsApplication text io systemd digest restart files s runs answers))
