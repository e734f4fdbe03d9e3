-- ===== src/System/Samba.antt =====
-- system/samba.py and the handlers samba.* of agent/handlers/samba.py: the include block of
-- smb.conf, the validation of the configuration and the restart of the services. `str.strip`, `lower`,
-- `endswith`, `splitlines` and `in` are parameters, and so are the units of systemd.
pub mod Block
pub mod Applied
use nas_os.Common.{
  ℕ, suc, ◌+◌, String, ◌<>◌, starts_with, Bool, true, false, not, ◌&&◌, ◌||◌, Option, none, some,
  List, [], ◌∷◌, ◌++◌, Result, ok, err, length, take, drop, is_some, ◌==◌, if◌then◌else◌, string_eq,
  nat_eq,
}
use nas_os.Common.Dict
use nas_os.Common.Actions.{Action, ◌>>=◌, give, map_error}
use nas_os.Common.Errors.{
  Exc, exc_str, rpc_exception, config_validation_error, config_apply_error, os_error,
}
use nas_os.System.Runner.{CommandResult}
use nas_os.System.ManagedFile.{File, Files, Target, Host, Io, no_result, copy_or, write_and_apply}

abbrev pub smb_conf : String
smb_conf = "/etc/samba/smb.conf"

abbrev pub nasos_conf : String
nasos_conf = "/etc/samba/nasos.conf"

unfoldable pub marker_begin : String
marker_begin = "# BEGIN NASOS MANAGED"

-- The block, after its first line's text.
unfoldable pub after_marker : String
after_marker = "\n" <> ("include = " <> (nasos_conf <> ("\n" <> "# END NASOS MANAGED\n")))

unfoldable pub marker_block : String
unfolding marker_begin after_marker
marker_block = marker_begin <> after_marker

-- `"".join`
unfoldable pub join_lines : List String → String
join_lines [] = ""
join_lines (line ∷ lines) = line <> join_lines lines

-- What the program uses of `str`.
pub record TextOps : Type 0 where
  pub strip : String → String
  pub lower : String → String
  pub ends_with : String → String → Bool
  pub splitlines : String → List String
  pub occurs_in : String → String → Bool

module _ (text : TextOps) where
  unfoldable pub is_global : String → Bool
  unfolding string_eq
  is_global line = text.lower (text.strip line) == "[global]"

  unfoldable pub is_section : String → Bool
  is_section line = starts_with (text.strip line) "[" && text.ends_with (text.strip line) "]"

  -- The loop of `_end_of_global_section` from line `i` on.
  unfoldable pub end_from : Bool → ℕ → List String → ℕ
  unfolding is_global is_section
  end_from in_global i [] = i
  end_from in_global i (line ∷ lines) =
      let in_it = end_from true (suc i) lines in
      let on = end_from in_global (suc i) lines in
      if is_global line then in_it else if in_global && is_section line then i else on

  unfoldable pub end_of_global_section : List String → ℕ
  unfolding end_from
  end_of_global_section lines = end_from false 0 lines

  unfoldable pub insert_block : List String → String
  unfolding end_of_global_section join_lines marker_block
  insert_block lines =
      let insert_at = end_of_global_section lines in
      join_lines (take insert_at lines) <> (marker_block <> join_lines (drop insert_at lines))

  unfoldable pub ensure_include_block : String → String
  unfolding insert_block marker_begin
  ensure_include_block smb_conf_text =
      if text.occurs_in marker_begin smb_conf_text
      then smb_conf_text
      else insert_block (text.splitlines smb_conf_text)

-- The units that the adapter uses of `Systemd`.
pub record Systemd (S : Type 0) : Type 0 where
  pub restart : String → Action S (Unit {0})
  pub enable : String → Action S (Unit {0})
  pub active_state : String → Action S String
  pub wait_active : String → ℕ → Action S (Unit {0})

module _ (text : TextOps) {S : Type 0} (run : List String → Action S CommandResult)
    (systemd : Systemd S) where
  unfoldable pub check_testparm : CommandResult → Result Exc (Unit {0})
  unfolding nat_eq
  check_testparm result =
      let output = result.stdout <> result.stderr in
      if not (result.returncode == 0) || text.occurs_in "Error loading services." output
      then err (config_validation_error (text.strip output))
      else ok tt

  unfoldable pub validate : Action S (Unit {0})
  unfolding check_testparm
  validate = do
    result ← run ("testparm" ∷ "-s" ∷ "--suppress-prompt" ∷ smb_conf ∷ [])
    give (check_testparm result)

  unfoldable pub restart_units : Action S (Unit {0})
  restart_units = do
    _ ← systemd.restart "smb.service"
    _ ← systemd.restart "nmb.service"
    systemd.wait_active "smb.service" 15

  -- `_start`, also `restart`
  unfoldable pub start : Action S (Unit {0})
  unfolding restart_units exc_str
  start = map_error (λ e. config_apply_error (exc_str e)) restart_units

  unfoldable pub after_reload : CommandResult → Action S (Unit {0})
  unfolding start nat_eq
  after_reload result = if result.returncode == 0 then give (ok tt) else start

  unfoldable pub reload : Action S (Unit {0})
  unfolding after_reload
  reload = do result ← run ("smbcontrol" ∷ "all" ∷ "reload-config" ∷ []); after_reload result

  unfoldable pub reload_if_active : String → Action S (Unit {0})
  unfolding reload start string_eq
  reload_if_active state = if state == "active" then reload else start

  unfoldable pub reload_or_start : Action S (Unit {0})
  unfolding reload_if_active
  reload_or_start = do state ← systemd.active_state "smb.service"; reload_if_active state

-- `except ConfigValidationError` and `except ConfigApplyError`
unfoldable pub as_rpc : Result Exc String → Result Exc String
as_rpc (ok sha256) = ok sha256
as_rpc (err (config_validation_error detail)) = err (rpc_exception "config_invalid" detail)
as_rpc (err (config_apply_error detail)) = err (rpc_exception "apply_failed" detail)
as_rpc (err e) = err e

-- `except OSError as exc`
unfoldable pub as_system_error : Exc → Exc
as_system_error (os_error _ message) = rpc_exception "system_error" message
as_system_error e = e

module _ (text : TextOps) {S : Type 0} (io : Io S) (systemd : Systemd S)
    (digest : String → String) where
  unfoldable pub apply_fn : Bool → Files → Action S (Unit {0})
  unfolding start reload_or_start
  apply_fn restart files =
      if restart
      then start text (io.run files) systemd
      else reload_or_start text (io.run files) systemd

  -- `samba.apply_config`, into the file that the target says; `stamp` is the time of the backup.
  unfoldable pub apply_config : Target → String → String → Bool → Action (Host S) String
  unfolding apply_fn as_rpc validate
  apply_config target stamp content restart h =
      let (answer, h') =
        write_and_apply io digest target (some (λ files. validate text (io.run files) systemd))
          (some (apply_fn restart)) stamp content h in
      (as_rpc answer, h')

  unfoldable pub text_of : Option File → String
  text_of none = ""
  text_of (some file) = file.content

  unfoldable pub with_content : Option File → String → File
  with_content none content = record { content = content; mode = 420; owner = none; group = none }
  with_content (some file) content = record file { content = content }

  unfoldable pub write_conf : File → Action (Host S) (Unit {0})
  unfolding copy_or
  write_conf file h = copy_or (io.write_fault smb_conf h.files) smb_conf file h

  unfoldable pub relabel_conf : Action (Host S) (Unit {0})
  unfolding no_result
  relabel_conf h =
      let (result, services) = io.run h.files ("restorecon" ∷ smb_conf ∷ []) h.services in
      (no_result result, record h { services = services })

  -- The block is written where it is missing.
  unfoldable pub write_include : Action (Host S) (Unit {0})
  unfolding text_of with_content ensure_include_block string_eq write_conf relabel_conf
      as_system_error
  write_include h =
      let file = Dict.lookup smb_conf h.files in
      let updated = ensure_include_block text (text_of file) in
      if updated == text_of file
      then (ok tt, h)
      else map_error as_system_error
          (write_conf (with_content file updated) >>= (λ _. relabel_conf)) h

  unfoldable pub enable_units : Files → Action S (Unit {0})
  unfolding start
  enable_units files = do
    _ ← systemd.enable "smb.service"
    _ ← systemd.enable "nmb.service"
    start text (io.run files) systemd

  unfoldable pub use_units : Action (Host S) (Unit {0})
  unfolding enable_units exc_str
  use_units h =
      let (answer, services) =
        map_error (λ e. rpc_exception "apply_failed" (exc_str e)) (enable_units h.files)
          h.services in
      (answer, record h { services = services })

  -- `samba.ensure_enabled`, where smb.conf can be read
  unfoldable pub ensure_enabled : Action (Host S) (Unit {0})
  unfolding write_include use_units
  ensure_enabled = do _ ← write_include; use_units
