-- ===== src/Agent/Files/Others.antt =====
-- The archives, the properties and the access lists of agent/handlers/files.py. `pwd.getpwuid` and the
-- text of a mode are parameters.
use nas_os.Common.{
  ℕ, zero, suc, ◌+◌, String, Bool, true, false, Option, none, some, List, [], ◌∷◌, ◌++◌, Result, ok,
  err, length, if◌then◌else◌, string_eq, ◌==◌,
}
use nas_os.Common.Text.{str}
use nas_os.Common.Actions.{Action, ◌>>=◌, give}
use nas_os.Common.Errors.{Exc, os_error}
use nas_os.System.Acl.{AclEntry, Acl}
use nas_os.Agent.Files.{Stat, Paths, FileSystem, wrap_os_error}
use nas_os.Agent.Files.Bodies.{Job, on_files, report}

-- `zipfile.ZipFile` opened for writing, which replaces a file that is there.
pub record Archives (S : Type 0) : Type 0 where
  pub open_new : String → Action S (Unit {0})
  pub write : String → String → Action S (Unit {0})
  pub close : Action S (Unit {0})

-- `finally`: the exception of the cleanup replaces that of the body.
unfoldable pub after_cleanup : Result Exc (Unit {0}) → Result Exc (Unit {0}) → Result Exc (Unit {0})
after_cleanup first (ok _) = first
after_cleanup first (err e) = err e

module _ {S : Type 0} where
  unfoldable pub finally_do : Action S (Unit {0}) → Action S (Unit {0}) → Action S (Unit {0})
  unfolding after_cleanup
  finally_do cleanup body s =
      (after_cleanup (body s).0 (cleanup (body s).1).0, (cleanup (body s).1).1)

module _ (paths : Paths) {S : Type 0} (fs : FileSystem S) where
  -- The files of one directory of a walk, with their names in the archive.
  unfoldable pub members_in : String → String → String → List String → List (String × String)
  members_in source base root [] = []
  members_in source base root (name ∷ names) =
      (paths.join root name, paths.join base (paths.relpath (paths.join root name) source))
      ∷ members_in source base root names

  unfoldable pub members_of :
      String → String → List (String × List String × List String) → List (String × String)
  unfolding members_in
  members_of source base [] = []
  members_of source base ((root, _, filenames) ∷ rest) =
      members_in source base root filenames ++ members_of source base rest

  -- `_files_under`
  unfoldable pub files_under : List String → S → List (String × String)
  unfolding members_of
  files_under [] s = []
  files_under (source ∷ sources) s =
      let base = paths.basename (paths.rstrip source) in
      let rest = files_under sources s in
      (if fs.is_dir source s
        then members_of source base (fs.walk source s)
        else (source, base) ∷ [])
      ++ rest

  -- `max(len(files), 1)`
  unfoldable pub at_least_one : ℕ → ℕ
  at_least_one zero = 1
  at_least_one (suc n) = suc n

  module _ (archives : Archives S) where
    unfoldable pub write_members :
        (ℕ → Bool) → ℕ → ℕ → List (String × String) → Action (Job S) (Unit {0})
    unfolding on_files report
    write_members cancelled i total [] = give (ok tt)
    write_members cancelled i total ((full, arcname) ∷ files) =
        let rest = write_members cancelled (i + 1) total files in
        if cancelled i
        then give (ok tt)
        else do _ ← on_files (archives.write full arcname); _ ← report (i + 1) total arcname; rest

    unfoldable pub write_archive :
        (ℕ → Bool) → String → List (String × String) → Action (Job S) (Unit {0})
    unfolding write_members finally_do at_least_one
    write_archive cancelled dest_path files = do
      _ ← on_files (archives.open_new dest_path)
      finally_do (on_files archives.close)
          (write_members cancelled 0 (at_least_one (length files)) files)

    -- `body` of `files.zip`
    unfoldable pub zip_body : (ℕ → Bool) → List String → String → Action (Job S) (Unit {0})
    unfolding write_archive files_under
    zip_body cancelled sources dest_path j =
        write_archive cancelled dest_path (files_under sources j.files) j

pub record Properties : Type 0 where
  pub name : String
  pub path : String
  pub is_dir : Bool
  pub size : ℕ
  pub mtime : ℕ
  pub owner_uid : ℕ
  pub owner_name : String
  pub mode : String
  pub item_count : Option ℕ

-- `except KeyError: owner_name = str(st.st_uid)`
unfoldable pub owner_or_uid : ℕ → Option String → String
unfolding str
owner_or_uid uid none = str uid
owner_or_uid uid (some name) = name

-- `except OSError: item_count = None`
unfoldable pub count_or_none : Result Exc (List String) → Result Exc (Option ℕ)
count_or_none (ok names) = ok (some (length names))
count_or_none (err (os_error _ _)) = ok none
count_or_none (err e) = err e

module _ (paths : Paths) (getpwuid : ℕ → Option String) where
  unfoldable pub properties_with : String → Stat → Result Exc (Option ℕ) → Result Exc Properties
  unfolding owner_or_uid string_eq
  properties_with path st (err e) = err e
  properties_with path st (ok item_count) = ok (record {
    name =
        if paths.basename (paths.rstrip path) == ""
        then path
        else paths.basename (paths.rstrip path);
    path = path;
    is_dir = st.is_dir;
    size = st.size;
    mtime = st.mtime;
    owner_uid = st.owner_uid;
    owner_name = owner_or_uid st.owner_uid (getpwuid st.owner_uid);
    mode = st.mode;
    item_count = item_count;
  })

  module _ {S : Type 0} (fs : FileSystem S) where
    unfoldable pub properties_of : String → Result Exc Stat → S → Result Exc Properties
    unfolding wrap_os_error properties_with count_or_none
    properties_of path (err e) s = err (wrap_os_error e)
    properties_of path (ok st) s =
        properties_with path st (if st.is_dir then count_or_none (fs.listdir path s) else ok none)

    -- `files.properties`
    unfoldable pub properties : String → S → Result Exc Properties
    unfolding properties_of
    properties path s = properties_of path (fs.stat path s) s

module _ {S : Type 0} (acl : Acl S) where
  -- `files.get_acl`
  unfoldable pub get_acl : String → S → Result Exc (List AclEntry)
  get_acl path s = acl.read_acl path s

  -- The body of the job `files.set_acl`
  unfoldable pub set_acl_body : String → List AclEntry → Action (Job S) (Unit {0})
  unfolding report on_files
  set_acl_body path entries = do _ ← report 0 1 path; on_files (acl.replace_all path entries true)

  unfoldable pub set_acl_now : String → List AclEntry → Action S (Option String)
  set_acl_now path entries = do _ ← acl.replace_all path entries false; give (ok none)

  unfoldable pub set_acl_later :
      (Action (Job S) (Unit {0}) → Action S String)
      → String
      → List AclEntry
      → Action S (Option String)
  unfolding set_acl_body
  set_acl_later submit path entries = do
    job_id ← submit (set_acl_body path entries)
    give (ok (some job_id))

  -- `files.set_acl`; `submit` gives the job to the runner.
  unfoldable pub set_acl :
      (Action (Job S) (Unit {0}) → Action S String)
      → String
      → List AclEntry
      → Bool
      → Action S (Option String)
  unfolding set_acl_now set_acl_later
  set_acl submit path entries recursive =
      if recursive then set_acl_later submit path entries else set_acl_now path entries
