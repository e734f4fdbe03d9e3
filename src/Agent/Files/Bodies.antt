-- ===== src/Agent/Files/Bodies.antt =====
-- The jobs and the other changes of agent/handlers/files.py. A job looks at its flag of
-- cancellation once for each item; the answers are a parameter.
pub mod Loop
pub mod Kept
pub mod Gone
use nas_os.Common.{
  ℕ, suc, ◌+◌, String, ◌<>◌, Bool, true, false, not, ◌&&◌, Option, none, some, List, [], ◌∷◌, ◌++◌,
  map, Result, ok, err, length, ◌==◌, if◌then◌else◌, string_eq,
}
use nas_os.Common.Actions.{Action, ◌>>=◌, give, map_error}
use nas_os.Common.Errors.{Exc, rpc_exception}
use nas_os.Agent.Files.{Stat, Paths, FileSystem, wrap_os_error}

-- A call of `handle.progress`: `done` of `total` items, and the text.
pub record Report : Type 0 where
  pub done : ℕ
  pub total : ℕ
  pub text : String

pub record Job (S : Type 0) : Type 0 where
  pub files : S
  pub reports : List Report

module _ {S : Type 0} where
  unfoldable pub on_files : {A : Type 0} → Action S A → Action (Job S) A
  on_files action j = ((action j.files).0, record j { files = (action j.files).1 })

  unfoldable pub report : ℕ → ℕ → String → Action (Job S) (Unit {0})
  report done total text j = (
    ok tt,
    record j { reports = j.reports ++ (record { done = done; total = total; text = text } ∷ []) },
  )

  -- The loop of the jobs: each item is worked on, which gives the text of the report.
  unfoldable pub each :
      (String → Action S String) → (ℕ → Bool) → ℕ → ℕ → List String → Action (Job S) (Unit {0})
  unfolding on_files report
  each one cancelled i total [] = give (ok tt)
  each one cancelled i total (item ∷ items) =
      let rest = each one cancelled (i + 1) total items in
      if cancelled i
      then give (ok tt)
      else do text ← on_files (one item); _ ← report (i + 1) total text; rest

module _ (paths : Paths) {S : Type 0} (fs : FileSystem S) where
  unfoldable pub dest_path : String → String → String
  dest_path source dest_dir = paths.join dest_dir (paths.basename (paths.rstrip source))

  -- `_dest_for`
  unfoldable pub dest_for : String → String → Action S String
  unfolding dest_path
  dest_for source dest_dir s =
      if fs.path_exists (dest_path source dest_dir) s
      then (
        err (rpc_exception "already_exists" (dest_path source dest_dir <> " already exists")),
        s,
      )
      else (ok (dest_path source dest_dir), s)

  unfoldable pub delete_path : String → Action S (Unit {0})
  delete_path path s =
      if fs.is_dir path s && not (fs.is_link path s) then fs.rmtree path s else fs.remove path s

  unfoldable pub delete_one : String → Action S String
  unfolding delete_path wrap_os_error
  delete_one path = do _ ← map_error wrap_os_error (delete_path path); give (ok path)

  -- `body` of `files.delete`
  unfoldable pub delete_body : (ℕ → Bool) → List String → Action (Job S) (Unit {0})
  unfolding each delete_one
  delete_body cancelled items = each delete_one cancelled 0 (length items) items

  unfoldable pub copy_path : String → String → Action S (Unit {0})
  copy_path source dest s =
      if fs.is_dir source s && not (fs.is_link source s)
      then fs.copytree source dest s
      else fs.copy_file source dest s

  unfoldable pub copy_one : String → String → Action S String
  unfolding dest_for copy_path wrap_os_error
  copy_one dest_dir source = do
    dest ← dest_for source dest_dir
    _ ← map_error wrap_os_error (copy_path source dest)
    give (ok dest)

  -- `body` of `files.copy`
  unfoldable pub copy_body : (ℕ → Bool) → String → List String → Action (Job S) (Unit {0})
  unfolding each copy_one
  copy_body cancelled dest_dir sources =
      each (copy_one dest_dir) cancelled 0 (length sources) sources

  unfoldable pub move_one : String → String → Action S String
  unfolding dest_for wrap_os_error
  move_one dest_dir source = do
    dest ← dest_for source dest_dir
    _ ← map_error wrap_os_error (fs.move source dest)
    give (ok dest)

  -- `body` of `files.move`
  unfoldable pub move_body : (ℕ → Bool) → String → List String → Action (Job S) (Unit {0})
  unfolding each move_one
  move_body cancelled dest_dir sources =
      each (move_one dest_dir) cancelled 0 (length sources) sources

  -- `files.mkdir`
  unfoldable pub mkdir : String → Action S (Unit {0})
  unfolding wrap_os_error
  mkdir path = map_error wrap_os_error (fs.mkdir path)

  unfoldable pub rename_to : String → String → Action S (Unit {0})
  unfolding wrap_os_error
  rename_to path dest s =
      if fs.path_exists dest s
      then (err (rpc_exception "already_exists" (dest <> " already exists")), s)
      else map_error wrap_os_error (fs.rename path dest) s

  -- `files.rename`
  unfoldable pub rename : String → String → Action S (Unit {0})
  unfolding rename_to
  rename path new_name s =
      if paths.occurs_in "/" new_name
      then (err (rpc_exception "invalid_params" "new_name must not contain a path separator"), s)
      else rename_to path (paths.join (paths.dirname path) new_name) s
