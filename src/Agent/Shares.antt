-- ===== src/Agent/Shares.antt =====
-- agent/handlers/shares.py and agent/handlers/volumes.py, over interfaces to the folders, the access
-- lists, the mounts and the jobs. `rstrip("/")` is a parameter.
use nas_os.Common.{
  ℕ, String, ◌<>◌, starts_with, Bool, true, false, not, ◌||◌, Option, none, some, List, Result, ok,
  err, ◌==◌, if◌then◌else◌, string_eq,
}
use nas_os.Common.Actions.{Action, ◌>>=◌, give, map_error}
use nas_os.Common.Errors.{Exc, rpc_exception, runtime_error, acl_error, os_error, file_not_found}
use nas_os.System.Acl.{AclEntry, Acl}
use nas_os.Agent.Files.Bodies.{Job, on_files, report}

pub record Folders (S : Type 0) : Type 0 where
  pub path_exists : String → S → Bool
  pub group_id : String → S → Option ℕ
  pub makedirs : String → Action S (Unit {0})
  pub chown : String → ℕ → ℕ → Action S (Unit {0})
  pub chmod : String → ℕ → Action S (Unit {0})
  pub rmtree : String → Action S (Unit {0})

-- `_SHARE_MODE`, 0o2700
abbrev pub share_mode : ℕ
share_mode = 1472

-- `except OSError`
unfoldable pub os_as_rpc : Exc → Exc
os_as_rpc (os_error kind message) = rpc_exception "system_error" message
os_as_rpc e = e

-- `except AclError`, in the handler and in the body of the job
unfoldable pub acl_as_rpc : Exc → Exc
acl_as_rpc (acl_error message) = rpc_exception "system_error" message
acl_as_rpc e = e

unfoldable pub acl_as_runtime : Exc → Exc
acl_as_runtime (acl_error message) = runtime_error message
acl_as_runtime e = e

-- `contextlib.suppress(FileNotFoundError)`
unfoldable pub suppressed : Result Exc (Unit {0}) → Result Exc (Unit {0})
suppressed (err (os_error file_not_found message)) = ok tt
suppressed r = r

-- The group of the folder, which a sandbox does without.
unfoldable pub gid_or_raise : Bool → Option ℕ → Result Exc (Option ℕ)
gid_or_raise is_sandboxed found = if is_sandboxed then ok none else in_production found
  where
    in_production : Option ℕ → Result Exc (Option ℕ)
    in_production none = err (rpc_exception "system_error" "nasos-users group does not exist")
    in_production (some gid) = ok (some gid)

module _ {S : Type 0} (folders : Folders S) where
  unfoldable pub chown_to : String → Option ℕ → Action S (Unit {0})
  chown_to path none = give (ok tt)
  chown_to path (some gid) = folders.chown path 0 gid

  unfoldable pub make_folder : String → Option ℕ → Action S (Unit {0})
  unfolding chown_to
  make_folder path gid = do
    _ ← folders.makedirs path
    _ ← chown_to path gid
    folders.chmod path share_mode

  -- `shares.create`
  unfoldable pub create_handler : Bool → String → Action S (Unit {0})
  unfolding gid_or_raise make_folder os_as_rpc
  create_handler is_sandboxed path s =
      if folders.path_exists path s
      then (err (rpc_exception "already_exists" (path <> " already exists")), s)
      else (give (gid_or_raise is_sandboxed (folders.group_id "nasos-users" s))
            >>= (λ gid. map_error os_as_rpc (make_folder path gid)))
          s

  -- `shares.delete`
  unfoldable pub delete_handler : String → Bool → Action S (Unit {0})
  unfolding suppressed
  delete_handler path delete_files s =
      if delete_files
      then (suppressed (folders.rmtree path s).0, (folders.rmtree path s).1)
      else (ok tt, s)

module _ {S : Type 0} (acl : Acl S) where
  -- The body of the job `shares.apply_permissions`
  unfoldable pub set_permissions_body : String → List AclEntry → Action (Job S) (Unit {0})
  unfolding acl_as_runtime
  set_permissions_body path entries = do
    _ ← report 0 1 "applying permissions recursively"
    _ ← on_files (map_error acl_as_runtime (acl.replace_all path entries true))
    report 1 1 "done"

  unfoldable pub apply_later :
      (String → Action (Job S) (Unit {0}) → Action S String)
      → String
      → List AclEntry
      → Action S (Option String)
  unfolding set_permissions_body
  apply_later submit path entries = do
    job_id ← submit ("share:" <> path) (set_permissions_body path entries)
    give (ok (some job_id))

  unfoldable pub apply_now : String → List AclEntry → Action S (Option String)
  unfolding acl_as_rpc
  apply_now path entries = do
    _ ← map_error acl_as_rpc (acl.replace_all path entries false)
    give (ok none)

  -- `shares.set_permissions`; `submit` gives the job to the runner, under the resource of the share.
  unfoldable pub set_permissions_handler :
      (String → Action (Job S) (Unit {0}) → Action S String)
      → String
      → List AclEntry
      → Bool
      → Action S (Option String)
  unfolding apply_later apply_now
  set_permissions_handler submit path entries recursive =
      if recursive then apply_later submit path entries else apply_now path entries

pub record VolumeInfo : Type 0 where
  pub mountpoint : String
  pub filesystem : String

pub record MountInfo (S : Type 0) : Type 0 where
  pub is_mountpoint : String → S → Bool
  pub filesystem_type : String → S → Option String

-- `_is_forbidden`
unfoldable pub is_forbidden : String → Bool
unfolding string_eq
is_forbidden mountpoint =
    mountpoint == "/" || (mountpoint == "/boot" || starts_with mountpoint "/boot/")

unfoldable pub volume_or_raise : String → Option String → Result Exc VolumeInfo
volume_or_raise mountpoint none =
    err (rpc_exception "not_a_mountpoint" (mountpoint <> " is not in /proc/mounts"))
volume_or_raise mountpoint (some filesystem) =
    ok (record { mountpoint = mountpoint; filesystem = filesystem })

module _ (rstrip : String → String) {S : Type 0} (mounts : MountInfo S) where
  unfoldable pub register_at : String → S → Result Exc VolumeInfo
  unfolding is_forbidden volume_or_raise
  register_at mountpoint s =
      if is_forbidden mountpoint
      then err
          (rpc_exception "forbidden" (mountpoint <> " cannot be registered as a NAS-OS volume"))
      else if not (mounts.is_mountpoint mountpoint s)
      then err (rpc_exception "not_a_mountpoint" (mountpoint <> " is not a mountpoint"))
      else volume_or_raise mountpoint (mounts.filesystem_type mountpoint s)

  -- `volumes.register`
  unfoldable pub register_handler : String → S → Result Exc VolumeInfo
  unfolding register_at string_eq
  register_handler mountpoint s =
      register_at (if rstrip mountpoint == "" then "/" else rstrip mountpoint) s
