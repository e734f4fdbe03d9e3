-- ===== src/System/ManagedFile.antt =====
-- system/managedfile.py: one configuration file, written, validated, applied and rolled back.
-- The validating and applying tools are functions of the files and of a service state of their
-- own. The path is given by its directory and its last component. What the file system refuses and
-- how commands are run are parameters; every operation on the files may raise.
pub mod Writes
pub mod Faults
pub mod Prepared
pub mod Rollback
use text.Mathlib.Text.{is_le}
use Prim.Native.String.{compare}
use nas_os.Common.{ℕ, ◌-◌, String, ◌<>◌, starts_with, Bool, Option, none, some, List, [], ◌∷◌, map}
use nas_os.Common.{Result, ok, err, if◌then◌else◌, length, take, string_eq}
use nas_os.Common.Dict
use nas_os.Common.Dict.{Dict}
use nas_os.Common.Actions.{Action, ◌>>=◌, and_then, give}
use nas_os.System.Runner.{CommandResult}
use nas_os.Common.Errors.{Exc, config_validation_error, config_apply_error}

-- A file with its mode and the owner and group that it was given, if any.
pub record File : Type 0 where
  pub content : String
  pub mode : ℕ
  pub owner : Option String
  pub group : Option String

abbrev pub Files : Type 0
Files = Dict String File

-- The fields that say where and how the file is written.
pub record Target : Type 0 where
  pub directory : String
  pub name : String
  pub mode : ℕ
  pub owner : Option String
  pub group : Option String
  pub backup_dir : String

abbrev pub max_backups : ℕ
max_backups = 20

unfoldable pub path_of : Target → String
path_of t = t.directory <> ("/" <> t.name)

unfoldable pub tmp_path : Target → String
tmp_path t = t.directory <> ("/." <> (t.name <> ".nasos-tmp"))

-- The files, and the services that the tools see.
pub record Host (S : Type 0) : Type 0 where
  pub files : Files
  pub services : S

-- What the system answers: the `OSError` that reading, writing or unlinking a path raises at given
-- files, if any, with what a failed write leaves at the path; and `runner.run`.
pub record Io (S : Type 0) : Type 0 where
  pub read_fault : String → Files → Option Exc
  pub write_fault : String → Files → Option (Exc × Option File)
  pub unlink_fault : String → Files → Option Exc
  pub run : Files → List String → S → Result Exc CommandResult × S

unfoldable pub left_at : String → Option File → Files → Files
left_at path none files = files
left_at path (some file) files = Dict.insert path file files

-- A result that is only logged.
unfoldable pub no_result : Result Exc CommandResult → Result Exc (Unit {0})
no_result (ok _) = ok tt
no_result (err e) = err e

module _ {S : Type 0} where
  -- The temporary file is written, given its mode and owners, and renamed, or one of this raises.
  unfoldable pub place : Target → File → Option (Exc × Option File) → Action (Host S) (Unit {0})
  unfolding left_at
  place t file none h =
      let written = Dict.insert (tmp_path t) file h.files in
      (ok tt, record h { files = Dict.insert (path_of t) file (Dict.erase (tmp_path t) written) })
  place t file (some (e, partial)) h =
      (err e, record h { files = left_at (tmp_path t) partial h.files })

  unfoldable pub erase_or : Option Exc → String → Action (Host S) (Unit {0})
  erase_or none path h = (ok tt, record h { files = Dict.erase path h.files })
  erase_or (some e) path h = (err e, h)

  unfoldable pub lookup_or : Option Exc → String → Action (Host S) (Option File)
  lookup_or none path h = (ok (Dict.lookup path h.files), h)
  lookup_or (some e) path h = (err e, h)

module _ {S : Type 0} (io : Io S) where
  unfoldable pub stage : Target → String → Action (Host S) (Unit {0})
  unfolding place
  stage t content h =
      let file : File = record {
        content = content;
        mode = t.mode;
        owner = t.owner;
        group = t.group;
      } in
      place t file (io.write_fault (tmp_path t) h.files) h

  -- `restorecon`, whose exit code is only logged
  unfoldable pub relabel : Target → Action (Host S) (Unit {0})
  unfolding no_result
  relabel t h =
      let (result, services) = io.run h.files ("restorecon" ∷ path_of t ∷ []) h.services in
      (no_result result, record h { services = services })

  -- `_write_atomic`
  unfoldable pub write_atomic : Target → String → Action (Host S) (Unit {0})
  unfolding stage relabel
  write_atomic t content = do _ ← stage t content; relabel t

  -- `_restore`
  unfoldable pub restore : Target → Option File → Action (Host S) (Unit {0})
  unfolding write_atomic erase_or
  restore t none h = erase_or (io.unlink_fault (path_of t) h.files) (path_of t) h
  restore t (some previous) h = write_atomic t previous.content h

  -- `target.read_bytes() if target.exists() else None`
  unfoldable pub read_previous : Target → Action (Host S) (Option File)
  unfolding lookup_or
  read_previous t h = lookup_or (io.read_fault (path_of t) h.files) (path_of t) h

-- `sorted`, over texts
unfoldable pub insert_sorted : String → List String → List String
insert_sorted s [] = s ∷ []
insert_sorted s (t ∷ ts) = if is_le (compare s t) then s ∷ t ∷ ts else t ∷ insert_sorted s ts

unfoldable pub sorted : List String → List String
unfolding insert_sorted
sorted [] = []
sorted (s ∷ ss) = insert_sorted s (sorted ss)

-- The paths of the files whose path begins with a text.
unfoldable pub with_prefix : String → Files → List String
with_prefix prefix [] = []
with_prefix prefix ((path, _) ∷ files) =
    let rest = with_prefix prefix files in if starts_with path prefix then path ∷ rest else rest

unfoldable pub backup_prefix : Target → String
backup_prefix t = t.backup_dir <> ("/" <> (t.name <> "."))

-- `existing[:-MAX_BACKUPS]`
unfoldable pub stale_backups : Target → Files → List String
stale_backups t files =
    let existing = sorted (with_prefix (backup_prefix t) files) in
    take (length existing - max_backups) existing

module _ {S : Type 0} where
  unfoldable pub copy_or : Option (Exc × Option File) → String → File → Action (Host S) (Unit {0})
  unfolding left_at
  copy_or none path copy h = (ok tt, record h { files = Dict.insert path copy h.files })
  copy_or (some (e, partial)) path copy h =
      (err e, record h { files = left_at path partial h.files })

module _ {S : Type 0} (io : Io S) where
  unfoldable pub unlink_all : List String → Action (Host S) (Unit {0})
  unfolding erase_or
  unlink_all [] h = (ok tt, h)
  unlink_all (path ∷ paths) h =
      and_then (λ _. unlink_all paths) (erase_or (io.unlink_fault path h.files) path h)

  unfoldable pub copy_previous : Target → String → File → Action (Host S) (Unit {0})
  unfolding copy_or
  copy_previous t stamp previous h =
      copy_or (io.write_fault (backup_prefix t <> stamp) h.files) (backup_prefix t <> stamp)
        (record { content = previous.content; mode = 420; owner = none; group = none }) h

  -- `_backup`, with the time stamp that it takes.
  unfoldable pub backup : Target → String → File → Action (Host S) (Unit {0})
  unfolding copy_previous unlink_all stale_backups
  backup t stamp previous = do
    _ ← copy_previous t stamp previous
    λ h. unlink_all (stale_backups t h.files) h

  unfoldable pub backup_previous : Target → String → Option File → Action (Host S) (Unit {0})
  unfolding backup
  backup_previous t stamp none h = (ok tt, h)
  backup_previous t stamp (some previous) h = backup t stamp previous h

  -- The new content is put in place, and the previous one backed up.
  unfoldable pub exchange : Target → String → String → Option File → Action (Host S) (Option File)
  unfolding write_atomic backup_previous
  exchange t stamp content previous = do
    _ ← write_atomic io t content
    _ ← backup_previous t stamp previous
    give (ok previous)

  -- What is done before the tools.
  unfoldable pub prepare : Target → String → String → Action (Host S) (Option File)
  unfolding read_previous exchange
  prepare t stamp content = do previous ← read_previous io t; exchange t stamp content previous

-- A validating or applying tool; `None` where the file has none.
abbrev pub Tool : Type 0 → Type 0
Tool S = Option (Files → Action S (Unit {0}))

-- `except ConfigApplyError: restore, apply again, raise`. The second attempt's
-- `ConfigApplyError` is suppressed; any other exception of it replaces the first.
unfoldable pub second_error : Exc → Result Exc (Unit {0}) → Exc
second_error first (err (config_apply_error _)) = first
second_error first (err other) = other
second_error first (ok _) = first

module _ {S : Type 0} where
  -- A tool, over the files and the services.
  unfoldable pub use_tool : (Files → Action S (Unit {0})) → Action (Host S) (Unit {0})
  use_tool tool h =
      let (answer, services) = tool h.files h.services in (answer, record h { services = services })

  unfoldable pub raise_second : Exc → Result Exc (Unit {0}) × Host S → Result Exc String × Host S
  unfolding second_error
  raise_second first (again, h) = (err (second_error first again), h)

module _ {S : Type 0} (io : Io S) where
  unfoldable pub after_apply :
      Target
      → Option File
      → (Files → Action S (Unit {0}))
      → String
      → Result Exc (Unit {0}) × Host S
      → Result Exc String × Host S
  unfolding restore use_tool raise_second
  after_apply t previous apply digest (ok _, h) = (ok digest, h)
  after_apply t previous apply digest (err (config_apply_error detail), h) =
      and_then (λ _ restored. raise_second (config_apply_error detail) (use_tool apply restored))
        (restore io t previous h)
  after_apply t previous apply digest (err e, h) = (err e, h)

  unfoldable pub run_apply : Target → Option File → Tool S → String → Action (Host S) String
  unfolding after_apply
  run_apply t previous none digest h = (ok digest, h)
  run_apply t previous (some apply) digest h =
      after_apply t previous apply digest (use_tool apply h)

  unfoldable pub after_validate :
      Target
      → Option File
      → Tool S
      → String
      → Result Exc (Unit {0}) × Host S
      → Result Exc String × Host S
  unfolding run_apply
  after_validate t previous apply digest (ok _, h) = run_apply t previous apply digest h
  after_validate t previous apply digest (err (config_validation_error detail), h) =
      and_then (λ _. give (err (config_validation_error detail))) (restore io t previous h)
  after_validate t previous apply digest (err e, h) = (err e, h)

  unfoldable pub run_validate :
      Target → Option File → Tool S → Tool S → String → Action (Host S) String
  unfolding after_validate
  run_validate t previous none apply digest h = run_apply t previous apply digest h
  run_validate t previous (some validate) apply digest h =
      after_validate t previous apply digest (use_tool validate h)

  -- `write_and_apply` of the rendered content; `digest` is the hash function.
  unfoldable pub write_and_apply :
      (String → String) → Target → Tool S → Tool S → String → String → Action (Host S) String
  unfolding prepare run_validate
  write_and_apply digest t validate apply stamp content = do
    previous ← prepare io t stamp content
    run_validate t previous validate apply (digest content)
