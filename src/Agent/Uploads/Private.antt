-- ===== src/Agent/Uploads/Private.antt =====
-- What an upload touches before it is completed.
use nas_os.Common.{
  ℕ, String, false, Option, none, some, List, [], ◌∷◌, ◌≡◌, refl, ap, ◌∙◌, arith, ◌==◌, string_eq,
  if◌then◌else◌, Bool-cases, inl, inr,
}
use nas_os.Common.Dict
use nas_os.Common.Dict.{Dict, lookup-insert, lookup-erase}
use nas_os.Agent.Uploads.{
  UploadHandle, Bytes, WorkerState, open_create, part_path_for, begin_at, upload_begin, write_chunk,
  chunk_with, op_upload_chunk, remove_part, upload_abort,
}

-- A chunk that is sent: how the write fails, if it does, its offset and its bytes.
abbrev pub Attempt : Type 0
Attempt = Option (ℕ × String) × ℕ × Bytes

module _ (missing : String → String) where
  unfoldable pub attempt_all : String → List Attempt → WorkerState → WorkerState
  attempt_all upload_id [] st = st
  attempt_all upload_id ((fault, offset, chunk) ∷ attempts) st =
      attempt_all upload_id attempts (op_upload_chunk missing fault upload_id offset chunk st).1

  write_chunk-other :
      (fault : Option (ℕ × String)) (part path : String) (offset : ℕ) (chunk : Bytes)
      (found : Option Bytes) (files : Dict String Bytes)
      → (path == part) ≡ false
      → Dict.lookup path (write_chunk missing fault part offset chunk found files).1
        ≡ Dict.lookup path files
  unfolding write_chunk
  write_chunk-other fault part path offset chunk none files h = refl
  write_chunk-other none part path offset chunk (some content) files h =
      lookup-insert path part _ files ∙ rw h refl
  write_chunk-other (some (written, text)) part path offset chunk (some content) files h =
      lookup-insert path part _ files ∙ rw h refl

  op_upload_chunk-other :
      (fault : Option (ℕ × String)) (upload_id path : String) (offset : ℕ) (chunk : Bytes)
      (handle : UploadHandle) (st : WorkerState)
      → Dict.lookup upload_id st.uploads ≡ some handle
      → (path == handle.part_path) ≡ false
      → Dict.lookup path (op_upload_chunk missing fault upload_id offset chunk st).1.files
        ≡ Dict.lookup path st.files
  unfolding op_upload_chunk chunk_with
  op_upload_chunk-other fault upload_id path offset chunk handle st h n = rw h (
      write_chunk-other fault handle.part_path path offset chunk
        (Dict.lookup handle.part_path st.files) st.files n)

  uploads-op_upload_chunk :
      (fault : Option (ℕ × String)) (upload_id : String) (offset : ℕ) (chunk : Bytes)
      (handle : UploadHandle) (st : WorkerState)
      → Dict.lookup upload_id st.uploads ≡ some handle
      → (op_upload_chunk missing fault upload_id offset chunk st).1.uploads ≡ st.uploads
  unfolding op_upload_chunk chunk_with
  uploads-op_upload_chunk fault upload_id offset chunk handle st h = rw h refl

  attempt_all-other :
      (upload_id path : String) (attempts : List Attempt) (handle : UploadHandle) (st : WorkerState)
      → Dict.lookup upload_id st.uploads ≡ some handle
      → (path == handle.part_path) ≡ false
      → Dict.lookup path (attempt_all upload_id attempts st).files ≡ Dict.lookup path st.files
  unfolding attempt_all
  attempt_all-other upload_id path [] handle st h n = refl
  attempt_all-other upload_id path ((fault, offset, chunk) ∷ attempts) handle st h n =
      let u = uploads-op_upload_chunk fault upload_id offset chunk handle st h in
      attempt_all-other upload_id path attempts handle
        (op_upload_chunk missing fault upload_id offset chunk st).1
        (ap (Dict.lookup upload_id) u ∙ h) n
      ∙ op_upload_chunk-other fault upload_id path offset chunk handle st h n

  uploads-attempt_all :
      (upload_id : String) (attempts : List Attempt) (handle : UploadHandle) (st : WorkerState)
      → Dict.lookup upload_id st.uploads ≡ some handle
      → Dict.lookup upload_id (attempt_all upload_id attempts st).uploads ≡ some handle
  unfolding attempt_all
  uploads-attempt_all upload_id [] handle st h = h
  uploads-attempt_all upload_id ((fault, offset, chunk) ∷ attempts) handle st h =
      let u = uploads-op_upload_chunk fault upload_id offset chunk handle st h in
      uploads-attempt_all upload_id attempts handle
        (op_upload_chunk missing fault upload_id offset chunk st).1
        (ap (Dict.lookup upload_id) u ∙ h)

upload_abort-eq :
    (upload_id : String) (handle : UploadHandle) (st : WorkerState)
    → Dict.lookup upload_id st.uploads ≡ some handle
    → (upload_abort none upload_id st).1.files ≡ Dict.erase handle.part_path st.files
unfolding upload_abort remove_part
upload_abort-eq upload_id handle st h = rw h refl

open_create-other :
    (path part : String) (found : Option Bytes) (files : Dict String Bytes)
    → (path == part) ≡ false
    → Dict.lookup path (open_create part found files) ≡ Dict.lookup path files
unfolding open_create
open_create-other path part none files h = lookup-insert path part [] files ∙ rw h refl
open_create-other path part (some _) files h = refl

module _ (dirname : String → String) (path_join : String → String → String)
    (missing : String → String) where
  -- If the destination does not exist, then after an upload to it was begun, any chunks were sent,
  -- at any offsets and with any failures, and it was aborted, the part file does not exist and
  -- every other path, the destination among them, holds what it held before.
  pub upload_abort-attempt_all :
      (upload_id dest_path path : String) (attempts : List Attempt) (st : WorkerState)
      → Dict.lookup dest_path st.files ≡ none
      → Dict.lookup path
          (upload_abort none upload_id (
            attempt_all missing upload_id attempts
              (upload_begin dirname path_join none upload_id dest_path st).1)).1.files
        ≡ (if path == part_path_for dirname path_join dest_path upload_id
            then none
            else Dict.lookup path st.files)
  unfolding upload_begin begin_at
  upload_abort-attempt_all upload_id dest_path path attempts st d =
      let part = part_path_for dirname path_join dest_path upload_id in
      let handle : UploadHandle = record { dest_path = dest_path; part_path = part } in
      let begun : WorkerState = record {
        uploads = Dict.insert upload_id handle st.uploads;
        files = open_create part (Dict.lookup part st.files) st.files;
      } in
      let h : Dict.lookup upload_id begun.uploads ≡ some handle =
        ground (arith, lookup-insert upload_id upload_id handle st.uploads) in
      let tried = attempt_all missing upload_id attempts begun in
      rw
        (
          d,
          upload_abort-eq upload_id handle tried
              (uploads-attempt_all missing upload_id attempts handle begun h),
        )
        (lookup-erase path part tried.files ∙ elim (Bool-cases (path == part)) [
          | inl e ↦ rw e refl
          | inr e ↦ rw e (
              attempt_all-other missing upload_id path attempts handle begun h e
              ∙ open_create-other path part _ st.files e)
        ])
