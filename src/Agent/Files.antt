-- ===== src/Agent/Files.antt =====
-- agent/handlers/files.py, over an interface to the system calls. What os.path and str give of
-- a text are parameters. A time of modification is only handed on, as a number.
pub mod Bodies
pub mod Others
pub mod Searched
pub mod Listed
use nas_os.Common.{
  ℕ, suc, ◌+◌, String, ◌<>◌, Bool, true, false, not, ◌&&◌, Option, none, some, List, [], ◌∷◌, ◌++◌,
  map, Result, ok, err, length, leb, ◌==◌, if◌then◌else◌, string_eq,
}
use nas_os.Common.Actions.{Action, ◌>>=◌, give, map_error}
use nas_os.Common.Errors.{
  Exc, OsKind, file_not_found, file_exists, permission, is_a_directory, not_a_directory, other_kind,
  os_error, rpc_exception,
}

pub record Stat : Type 0 where
  pub is_dir : Bool
  pub size : ℕ
  pub mtime : ℕ
  pub owner_uid : ℕ
  pub mode : String

pub record FileEntry : Type 0 where
  pub name : String
  pub path : String
  pub is_dir : Bool
  pub size : ℕ
  pub mtime : ℕ
  pub owner_uid : ℕ

-- `os.path.basename`, `dirname`, `join` and `relpath`, `rstrip("/")`, `lower`, `in`, and the order
-- of texts.
pub record Paths : Type 0 where
  pub basename : String → String
  pub dirname : String → String
  pub join : String → String → String
  pub relpath : String → String → String
  pub rstrip : String → String
  pub lower : String → String
  pub occurs_in : String → String → Bool
  pub text_le : String → String → Bool

-- The system calls. `walk` is `os.walk`, which skips what it cannot read.
pub record FileSystem (S : Type 0) : Type 0 where
  pub listdir : String → S → Result Exc (List String)
  pub stat : String → S → Result Exc Stat
  pub lstat : String → S → Result Exc Stat
  pub path_exists : String → S → Bool
  pub is_dir : String → S → Bool
  pub is_link : String → S → Bool
  pub walk : String → S → List (String × List String × List String)
  pub mkdir : String → Action S (Unit {0})
  pub rename : String → String → Action S (Unit {0})
  pub rmtree : String → Action S (Unit {0})
  pub remove : String → Action S (Unit {0})
  pub copytree : String → String → Action S (Unit {0})
  pub copy_file : String → String → Action S (Unit {0})
  pub move : String → String → Action S (Unit {0})

unfoldable pub max_search_results : ℕ
max_search_results = 500

unfoldable pub wrap_os_error : Exc → Exc
wrap_os_error (os_error file_not_found message) = rpc_exception "not_found" message
wrap_os_error (os_error file_exists message) = rpc_exception "already_exists" message
wrap_os_error (os_error permission message) = rpc_exception "permission_denied" message
wrap_os_error (os_error is_a_directory message) = rpc_exception "is_a_directory" message
wrap_os_error (os_error not_a_directory message) = rpc_exception "not_a_directory" message
wrap_os_error (os_error other_kind message) = rpc_exception "io_error" message
wrap_os_error e = e

-- `except OSError: st = os.lstat(path)`
unfoldable pub or_lstat : Result Exc Stat → Result Exc Stat → Result Exc Stat
or_lstat (err (os_error _ _)) second = second
or_lstat first second = first

-- `except OSError: continue`, before the entries of the other names
unfoldable pub or_skip :
    Result Exc FileEntry → Result Exc (List FileEntry) → Result Exc (List FileEntry)
or_skip (ok e) (ok es) = ok (e ∷ es)
or_skip (ok e) (err other) = err other
or_skip (err (os_error _ _)) rest = rest
or_skip (err e) rest = err e

-- The state of a search: it returned, or goes on.
pub data Search : Type 0 where
  returned : List FileEntry → Search
  going : List FileEntry → Search

abbrev pub matches_of : Search → List FileEntry
matches_of (returned matches) = matches
matches_of (going matches) = matches

unfoldable pub go_on : Result Exc Search → (List FileEntry → Result Exc Search) → Result Exc Search
go_on (ok (returned matches)) rest = ok (returned matches)
go_on (ok (going matches)) rest = rest matches
go_on (err e) rest = err e

-- After `matches.append(…)`
unfoldable pub full_or_going : List FileEntry → Search
unfolding max_search_results
full_or_going matches =
    if leb max_search_results (length matches) then returned matches else going matches

unfoldable pub append_match : Result Exc FileEntry → List FileEntry → Result Exc Search
unfolding full_or_going
append_match (ok e) matches = ok (full_or_going (matches ++ (e ∷ [])))
append_match (err (os_error _ _)) matches = ok (going matches)
append_match (err e) matches = err e

-- `(not a, x) <= (not b, y)`, where `x <= y` is given
unfoldable pub flag_le : Bool → Bool → Bool → Bool
flag_le true false le = true
flag_le false true le = false
flag_le true true le = le
flag_le false false le = le

module _ (paths : Paths) where
  abbrev pub entry_of : String → Stat → FileEntry
  entry_of path st = record {
    name = paths.basename path;
    path = path;
    is_dir = st.is_dir;
    size = st.size;
    mtime = st.mtime;
    owner_uid = st.owner_uid;
  }

  unfoldable pub entry_or : String → Result Exc Stat → Result Exc FileEntry
  entry_or path (ok st) = ok (entry_of path st)
  entry_or path (err e) = err e

  -- `key(a) <= key(b)`, for the key `(not e.is_dir, e.name.lower())`
  unfoldable pub key_le : FileEntry → FileEntry → Bool
  unfolding flag_le
  key_le a b = flag_le a.is_dir b.is_dir (paths.text_le (paths.lower a.name) (paths.lower b.name))

  unfoldable pub insert_entry : FileEntry → List FileEntry → List FileEntry
  unfolding key_le
  insert_entry e [] = e ∷ []
  insert_entry e (x ∷ xs) =
      let rest = insert_entry e xs in if key_le e x then e ∷ x ∷ xs else x ∷ rest

  -- `entries.sort(key=…)`, which is stable
  unfoldable pub sort_entries : List FileEntry → List FileEntry
  unfolding insert_entry
  sort_entries [] = []
  sort_entries (e ∷ es) = insert_entry e (sort_entries es)

  module _ {S : Type 0} (fs : FileSystem S) where
    -- `_entry`
    unfoldable pub entry : String → S → Result Exc FileEntry
    unfolding entry_or or_lstat
    entry path s = entry_or path (or_lstat (fs.stat path s) (fs.lstat path s))

    unfoldable pub read_entries : String → List String → S → Result Exc (List FileEntry)
    unfolding or_skip entry
    read_entries path [] s = ok []
    read_entries path (name ∷ names) s =
        or_skip (entry (paths.join path name) s) (read_entries path names s)

    unfoldable pub list_names : String → Result Exc (List String) → S → Result Exc (List FileEntry)
    unfolding read_entries sort_entries wrap_os_error
    list_names path (ok names) s = sorted_entries (read_entries path names s)
      where
        sorted_entries : Result Exc (List FileEntry) → Result Exc (List FileEntry)
        sorted_entries (ok es) = ok (sort_entries es)
        sorted_entries (err e) = err e
    list_names path (err e) s = err (wrap_os_error e)

    -- `files.list`
    unfoldable pub list_dir : String → S → Result Exc (List FileEntry)
    unfolding list_names
    list_dir path s = list_names path (fs.listdir path s) s

    unfoldable pub search_name : String → String → String → S → List FileEntry → Result Exc Search
    unfolding append_match entry
    search_name query root name s matches =
        if paths.occurs_in query (paths.lower name)
        then append_match (entry (paths.join root name) s) matches
        else ok (going matches)

    unfoldable pub search_names :
        String → String → List String → S → List FileEntry → Result Exc Search
    unfolding search_name go_on
    search_names query root [] s matches = ok (going matches)
    search_names query root (name ∷ names) s matches =
        go_on (search_name query root name s matches) (search_names query root names s)

    unfoldable pub search_walk :
        String → List (String × List String × List String) → S → List FileEntry → Result Exc Search
    unfolding search_names go_on
    search_walk query [] s matches = ok (going matches)
    search_walk query ((root, dirnames, filenames) ∷ rest) s matches =
        go_on (search_names query root (dirnames ++ filenames) s matches) (search_walk query rest s)

    -- `files.search`
    unfoldable pub search_files : String → String → S → Result Exc (List FileEntry)
    unfolding search_walk
    search_files path query s = found (search_walk (paths.lower query) (fs.walk path s) s [])
      where
        found : Result Exc Search → Result Exc (List FileEntry)
        found (ok state) = ok (matches_of state)
        found (err e) = err (wrap_os_error e)
