-- ===== src/Agent/Uploads.antt =====
-- The uploads of a fileworker: agent/handlers/uploads.py, `write_chunk` of agent/filedata.py and
-- `_op_upload_chunk` of agent/fileworker.py. `os.path.dirname`, `os.path.join` and the text of the
-- error for a path that does not exist are parameters. A file is its bytes under its path; a
-- system call that fails for another reason gives the text of its error.
pub mod Resume
pub mod Private
use nas_os.Common.{
  ℕ, zero, suc, ◌+◌, ◌-◌, String, ◌<>◌, Bool, true, false, Option, none, some, List, [], ◌∷◌, ◌++◌,
  Result, ok, err, length, take, drop, is_some, if◌then◌else◌, string_eq,
}
use nas_os.Common.Dict
use nas_os.Common.Dict.{Dict}
use nas_os.Common.Errors.{Exc, rpc_exception}

pub record UploadHandle : Type 0 where
  pub dest_path : String
  pub part_path : String

abbrev pub Bytes : Type 0
Bytes = List ℕ

abbrev pub Files : Type 0
Files = Dict String Bytes

-- `WorkerState`, with the files that the worker sees.
pub record WorkerState : Type 0 where
  pub uploads : Dict String UploadHandle
  pub files : Files

-- The outcome of a handler: the empty answer or an exception, and the state.
abbrev pub Reply : Type 0 → Type 0
Reply A = Result Exc A × WorkerState

-- The error of a system call, where there is one.
abbrev pub Fault : Type 0
Fault = Option String

unfoldable pub zeros : ℕ → Bytes
zeros zero = []
zeros (suc n) = 0 ∷ zeros n

-- `seek(offset)` and `write(data)`: bytes are replaced or appended, with zeros in a gap.
unfoldable pub write_at : ℕ → Bytes → Bytes → Bytes
unfolding zeros
write_at offset [] content = content
write_at offset (b ∷ bs) content =
    take offset content
    ++ (zeros (offset - length content) ++ ((b ∷ bs) ++ drop (offset + length (b ∷ bs)) content))

-- `open(part_path, os.O_CREAT | os.O_WRONLY)`: a file that exists keeps its content.
unfoldable pub open_create : String → Option Bytes → Files → Files
open_create path none files = Dict.insert path [] files
open_create path (some _) files = files

module _ (dirname : String → String) (path_join : String → String → String) where
  unfoldable pub part_path_for : String → String → String
  part_path_for dest_path upload_id =
      path_join (dirname dest_path) (".nasos-upload-" <> (upload_id <> ".part"))

  unfoldable pub begin_at : Fault → String → String → WorkerState → Reply (Unit {0})
  unfolding part_path_for open_create
  begin_at (some text) upload_id dest_path st = (err (rpc_exception "io_error" text), st)
  begin_at none upload_id dest_path st =
      let part_path = part_path_for dest_path upload_id in
      let handle : UploadHandle = record { dest_path = dest_path; part_path = part_path } in
      (
        ok tt,
        record {
          uploads = Dict.insert upload_id handle st.uploads;
          files = open_create part_path (Dict.lookup part_path st.files) st.files;
        },
      )

  unfoldable pub upload_begin : Fault → String → String → WorkerState → Reply (Unit {0})
  unfolding begin_at
  upload_begin fault upload_id dest_path st =
      if is_some (Dict.lookup dest_path st.files)
      then (err (rpc_exception "already_exists" (dest_path <> " already exists")), st)
      else begin_at fault upload_id dest_path st

unfoldable pub found_or_raise : String → Option UploadHandle → Result Exc UploadHandle
found_or_raise upload_id none = err (rpc_exception "not_found" ("unknown upload_id: " <> upload_id))
found_or_raise upload_id (some handle) = ok handle

unfoldable pub handle_or_raise : WorkerState → String → Result Exc UploadHandle
unfolding found_or_raise
handle_or_raise st upload_id = found_or_raise upload_id (Dict.lookup upload_id st.uploads)

-- What `rename` does with the content at its first path.
unfoldable pub rename : String → String → Bytes → Files → Files
rename source target content files = Dict.insert target content (Dict.erase source files)

module _ (missing : String → String) where
  unfoldable pub size_of : String → Option Bytes → Result Exc ℕ
  size_of path none = err (rpc_exception "not_found" (missing path))
  size_of path (some content) = ok (length content)

  unfoldable pub offset_of : WorkerState → Result Exc UploadHandle → Result Exc ℕ
  unfolding size_of
  offset_of st (err e) = err e
  offset_of st (ok handle) = size_of handle.part_path (Dict.lookup handle.part_path st.files)

  unfoldable pub upload_offset : String → WorkerState → Reply ℕ
  unfolding offset_of handle_or_raise
  upload_offset upload_id st = (offset_of st (handle_or_raise st upload_id), st)

  -- `os.rename`, `except OSError`, and `uploads.pop`.
  unfoldable pub rename_part :
      Fault → String → UploadHandle → Option Bytes → WorkerState → Reply (Unit {0})
  unfolding rename
  rename_part (some text) upload_id handle found st = (err (rpc_exception "io_error" text), st)
  rename_part none upload_id handle none st =
      (err (rpc_exception "io_error" (missing handle.part_path)), st)
  rename_part none upload_id handle (some content) st = (
    ok tt,
    record {
      uploads = Dict.erase upload_id st.uploads;
      files = rename handle.part_path handle.dest_path content st.files;
    },
  )

  unfoldable pub complete_with :
      Fault → String → Result Exc UploadHandle → WorkerState → Reply (Unit {0})
  unfolding rename_part
  complete_with fault upload_id (err e) st = (err e, st)
  complete_with fault upload_id (ok handle) st =
      rename_part fault upload_id handle (Dict.lookup handle.part_path st.files) st

  unfoldable pub upload_complete : Fault → String → WorkerState → Reply (Unit {0})
  unfolding complete_with handle_or_raise
  upload_complete fault upload_id st =
      complete_with fault upload_id (handle_or_raise st upload_id) st

  -- `write_chunk`. A failing write has written some of the bytes before the error.
  unfoldable pub write_chunk :
      Option (ℕ × String) → String → ℕ → Bytes → Option Bytes → Files → Result String ℕ × Files
  unfolding write_at
  write_chunk fault path offset chunk none files = (err (missing path), files)
  write_chunk none path offset chunk (some content) files =
      (ok (offset + length chunk), Dict.insert path (write_at offset chunk content) files)
  write_chunk (some (written, text)) path offset chunk (some content) files =
      (err text, Dict.insert path (write_at offset (take written chunk) content) files)

  unfoldable pub chunk_with :
      Option (ℕ × String)
      → String
      → ℕ
      → Bytes
      → Option UploadHandle
      → WorkerState
      → Result String ℕ × WorkerState
  unfolding write_chunk
  chunk_with fault upload_id offset chunk none st = (err ("unknown upload_id: " <> upload_id), st)
  chunk_with fault upload_id offset chunk (some handle) st =
      let (answer, files) =
        write_chunk fault handle.part_path offset chunk (Dict.lookup handle.part_path st.files)
          st.files in
      (answer, record st { files = files })

  -- `_op_upload_chunk`, with the answer that its connection sends for an `OSError`.
  unfoldable pub op_upload_chunk :
      Option (ℕ × String) → String → ℕ → Bytes → WorkerState → Result String ℕ × WorkerState
  unfolding chunk_with
  op_upload_chunk fault upload_id offset chunk st =
      chunk_with fault upload_id offset chunk (Dict.lookup upload_id st.uploads) st

-- `os.remove`; the handle is gone before it is called, and a missing file is no error.
unfoldable pub remove_part :
    Fault → String → Option UploadHandle → WorkerState → Result Exc (Unit {0}) × WorkerState
remove_part fault upload_id none st = (ok tt, st)
remove_part (some text) upload_id (some handle) st =
    (err (Exc.other_error text), record st { uploads = Dict.erase upload_id st.uploads })
remove_part none upload_id (some handle) st = (
  ok tt,
  record {
    uploads = Dict.erase upload_id st.uploads;
    files = Dict.erase handle.part_path st.files;
  },
)

unfoldable pub upload_abort : Fault → String → WorkerState → Result Exc (Unit {0}) × WorkerState
unfolding remove_part
upload_abort fault upload_id st = remove_part fault upload_id (Dict.lookup upload_id st.uploads) st
