-- ===== src/Agent/Uploads/Resume.antt =====
-- What arrives at the destination of an upload.
use nas_os.Common.{
  ℕ, zero, suc, ◌+◌, ◌-◌, ◌≤◌, String, false, none, some, List, [], ◌∷◌, ◌++◌, Result, ok, err,
  length, length-append, take, drop, ◌≡◌, refl, sym, ap, ◌∙◌, arith, ◌==◌, string_eq,
}
use mathlib.Core.List.{append-nil, append_assoc}
use mathlib.Core.List.{flatten}
use nas_os.Common.Dict
use nas_os.Common.Dict.{Dict, lookup-insert, lookup-erase}
use nas_os.Agent.Uploads.{
  UploadHandle, Bytes, WorkerState, zeros, write_at, open_create, part_path_for, begin_at,
  upload_begin, handle_or_raise, found_or_raise, rename, size_of, offset_of, upload_offset,
  rename_part, complete_with, upload_complete, write_chunk, chunk_with, op_upload_chunk,
}

take-length : (xs : Bytes) → take (length xs) xs ≡ xs
take-length [] = refl
take-length (x ∷ xs) = ap (λ ys. x ∷ ys) (take-length xs)

drop-past : (n : ℕ) (xs : Bytes) → length xs ≤ n → drop n xs ≡ []
drop-past zero [] h = refl
drop-past zero (x ∷ xs) h = ground arith
drop-past (suc n) [] h = refl
drop-past (suc n) (x ∷ xs) h = drop-past n xs (omega (arith, h))

take-append-drop : (n : ℕ) (xs : Bytes) → take n xs ++ drop n xs ≡ xs
take-append-drop zero xs = refl
take-append-drop (suc n) [] = refl
take-append-drop (suc n) (x ∷ xs) = ap (λ ys. x ∷ ys) (take-append-drop n xs)

length-take_of_le : (n : ℕ) (xs : Bytes) → n ≤ length xs → length (take n xs) ≡ n
length-take_of_le zero xs h = refl
length-take_of_le (suc n) [] h = omega (arith, h)
length-take_of_le (suc n) (x ∷ xs) h = ap suc (length-take_of_le n xs (omega (arith, h)))

lookup-insert_same :
    (path : String) (content : Bytes) (files : Dict String Bytes)
    → Dict.lookup path (Dict.insert path content files) ≡ some content
lookup-insert_same path content files = ground (arith, lookup-insert path path content files)

-- A write at the end appends.
write_at-end : (chunk content : Bytes) → write_at (length content) chunk content ≡ content ++ chunk
unfolding write_at zeros
write_at-end [] content = sym (append-nil content)
write_at-end (b ∷ bs) content =
    let none_left = drop-past (length content + suc (length bs)) content (omega arith) in
    let no_gap : length content - length content ≡ 0 = omega arith in
    rw (take-length content, none_left, no_gap, append-nil bs) refl

-- The client stops at the first error.
abbrev pub continue :
    (ℕ → WorkerState → Result String ℕ × WorkerState)
    → Result String ℕ × WorkerState
    → Result String ℕ × WorkerState
continue more (ok next, st) = more next st
continue more (err e, st) = (err e, st)

module _ (missing : String → String) where
  -- The client's loop: each chunk goes to the offset that the worker reported for the one before.
  unfoldable pub send : String → List Bytes → ℕ → WorkerState → Result String ℕ × WorkerState
  send upload_id [] offset st = (ok offset, st)
  send upload_id (chunk ∷ chunks) offset st =
      continue (λ next st'. send upload_id chunks next st')
        (op_upload_chunk missing none upload_id offset chunk st)

  op_upload_chunk-end :
      (upload_id : String) (chunk content : Bytes) (handle : UploadHandle) (st : WorkerState)
      → Dict.lookup upload_id st.uploads ≡ some handle
      → Dict.lookup handle.part_path st.files ≡ some content
      → op_upload_chunk missing none upload_id (length content) chunk st ≡ (
        ok (length content + length chunk),
        record st { files = Dict.insert handle.part_path (content ++ chunk) st.files },
      )
  unfolding op_upload_chunk chunk_with write_chunk
  op_upload_chunk-end upload_id chunk content handle st h c =
      rw (h, c, write_at-end chunk content) refl

  op_upload_chunk-fault :
      (upload_id text : String) (written : ℕ) (chunk content : Bytes) (handle : UploadHandle)
      (st : WorkerState)
      → Dict.lookup upload_id st.uploads ≡ some handle
      → Dict.lookup handle.part_path st.files ≡ some content
      → op_upload_chunk missing (some (written, text)) upload_id (length content) chunk st ≡ (
        err text,
        record st { files = Dict.insert handle.part_path (content ++ take written chunk) st.files },
      )
  unfolding op_upload_chunk chunk_with write_chunk
  op_upload_chunk-fault upload_id text written chunk content handle st h c =
      rw (h, c, write_at-end (take written chunk) content) refl

  -- What a whole session of chunks does, from a file with some content.
  send-eq :
      (upload_id : String) (chunks : List Bytes) (content : Bytes) (handle : UploadHandle)
      (st : WorkerState)
      → Dict.lookup upload_id st.uploads ≡ some handle
      → Dict.lookup handle.part_path st.files ≡ some content
      → ((send upload_id chunks (length content) st).1.uploads ≡ st.uploads)
        × (Dict.lookup handle.part_path (send upload_id chunks (length content) st).1.files
            ≡ some (content ++ flatten chunks))
  unfolding send flatten
  send-eq upload_id [] content handle st h c = (refl, c ∙ ap some (sym (append-nil content)))
  send-eq upload_id (chunk ∷ chunks) content handle st h c =
      let st' : WorkerState = record st {
        files = Dict.insert handle.part_path (content ++ chunk) st.files;
      } in
      let c' : Dict.lookup handle.part_path st'.files ≡ some (content ++ chunk) =
        ground
          (arith, lookup-insert handle.part_path handle.part_path (content ++ chunk) st.files) in
      let (u, l) = send-eq upload_id chunks (content ++ chunk) handle st' h c' in
      rw
        (
          op_upload_chunk-end upload_id chunk content handle st h c,
          sym (length-append content chunk),
        )
        (u, l ∙ ap some (append_assoc content chunk (flatten chunks)))

  upload_offset-eq :
      (upload_id : String) (content : Bytes) (handle : UploadHandle) (st : WorkerState)
      → Dict.lookup upload_id st.uploads ≡ some handle
      → Dict.lookup handle.part_path st.files ≡ some content
      → (upload_offset missing upload_id st).0 ≡ ok (length content)
  unfolding upload_offset offset_of size_of handle_or_raise found_or_raise
  upload_offset-eq upload_id content handle st h c = rw (h, c) refl

  upload_complete-eq :
      (upload_id : String) (content : Bytes) (handle : UploadHandle) (st : WorkerState)
      → Dict.lookup upload_id st.uploads ≡ some handle
      → Dict.lookup handle.part_path st.files ≡ some content
      → upload_complete missing none upload_id st ≡ (
        ok tt,
        record {
          uploads = Dict.erase upload_id st.uploads;
          files = Dict.insert handle.dest_path content (Dict.erase handle.part_path st.files);
        },
      )
  unfolding upload_complete complete_with rename_part rename handle_or_raise found_or_raise
  upload_complete-eq upload_id content handle st h c = rw (h, c) refl

  -- If a chunk at the end of what has arrived fails after some of its bytes were written, the
  -- offset that the worker then reports is the number of the bytes that have arrived, and sending
  -- the rest of the chunk from there leaves the content as if the chunk had not failed.
  pub upload_offset-fault :
      (upload_id text : String) (written : ℕ) (chunk content : Bytes) (handle : UploadHandle)
      (st : WorkerState)
      → Dict.lookup upload_id st.uploads ≡ some handle
      → Dict.lookup handle.part_path st.files ≡ some content
      → written ≤ length chunk
      → let st' =
          (op_upload_chunk missing (some (written, text)) upload_id (length content) chunk st).1 in
        ((upload_offset missing upload_id st').0 ≡ ok (length content + written))
        × (Dict.lookup handle.part_path
              (op_upload_chunk missing none upload_id
                (length content + written)
                (drop written chunk)
                st').1.files
            ≡ some (content ++ chunk))
  upload_offset-fault upload_id text written chunk content handle st h c l =
      let arrived : Bytes = content ++ take written chunk in
      let st' : WorkerState = record st { files = Dict.insert handle.part_path arrived st.files } in
      let at = lookup-insert_same handle.part_path arrived st.files in
      let size : length arrived ≡ length content + written =
        omega
          (arith, length-append content (take written chunk), length-take_of_le written chunk l) in
      let whole : arrived ++ drop written chunk ≡ content ++ chunk =
        append_assoc content (take written chunk) (drop written chunk)
        ∙ ap (λ xs. content ++ xs) (take-append-drop written chunk) in
      rw (op_upload_chunk-fault upload_id text written chunk content handle st h c, sym size)
        (
          upload_offset-eq upload_id arrived handle st' h at,
          rw (op_upload_chunk-end upload_id (drop written chunk) arrived handle st' h at) (
              lookup-insert_same handle.part_path (arrived ++ drop written chunk) st'.files
              ∙ ap some whole),
        )

  module _ (dirname : String → String) (path_join : String → String → String) where
    upload_begin-eq :
        (upload_id dest_path : String) (st : WorkerState)
        → Dict.lookup dest_path st.files ≡ none
        → Dict.lookup (part_path_for dirname path_join dest_path upload_id) st.files ≡ none
        → upload_begin dirname path_join none upload_id dest_path st ≡ (
          ok tt,
          record {
            uploads =
                Dict.insert upload_id
                  (record {
                    dest_path = dest_path;
                    part_path = part_path_for dirname path_join dest_path upload_id;
                  })
                  st.uploads;
            files = Dict.insert (part_path_for dirname path_join dest_path upload_id) [] st.files;
          },
        )
    unfolding upload_begin begin_at open_create
    upload_begin-eq upload_id dest_path st d p = rw (d, p) refl

    -- If neither the destination nor the part file exists, and they are different, then beginning
    -- an upload, sending its chunks one after the other, each at the offset that the worker
    -- reported, and completing it succeeds; the destination then holds the chunks in their order,
    -- and neither the part file nor the upload is left.
    pub upload_complete-send :
        (upload_id dest_path : String) (chunks : List Bytes) (st : WorkerState)
        → Dict.lookup dest_path st.files ≡ none
        → Dict.lookup (part_path_for dirname path_join dest_path upload_id) st.files ≡ none
        → (dest_path == part_path_for dirname path_join dest_path upload_id) ≡ false
        → let received =
            (send upload_id chunks 0
              (upload_begin dirname path_join none upload_id dest_path st).1).1 in
          let done = upload_complete missing none upload_id received in
          (done.0 ≡ ok tt)
          × (Dict.lookup dest_path done.1.files ≡ some (flatten chunks))
          × (Dict.lookup (part_path_for dirname path_join dest_path upload_id) done.1.files ≡ none)
          × (Dict.lookup upload_id done.1.uploads ≡ none)
    upload_complete-send upload_id dest_path chunks st d p differ =
        let part = part_path_for dirname path_join dest_path upload_id in
        let handle : UploadHandle = record { dest_path = dest_path; part_path = part } in
        let begun : WorkerState = record {
          uploads = Dict.insert upload_id handle st.uploads;
          files = Dict.insert part [] st.files;
        } in
        let h : Dict.lookup upload_id begun.uploads ≡ some handle =
          ground (arith, lookup-insert upload_id upload_id handle st.uploads) in
        let at = lookup-insert_same part [] st.files in
        let (u, l) = send-eq upload_id chunks [] handle begun h at in
        let received = (send upload_id chunks 0 begun).1 in
        rw (upload_begin-eq upload_id dest_path st d p) (
          rw
            (upload_complete-eq upload_id (flatten chunks) handle received
              (ap (Dict.lookup upload_id) u ∙ h) l)
            (
              refl,
              lookup-insert_same dest_path (flatten chunks) (Dict.erase part received.files),
              ground (
                arith,
                lookup-insert part dest_path (flatten chunks) (Dict.erase part received.files),
                lookup-erase part part received.files,
              ),
              ground (arith, lookup-erase upload_id upload_id received.uploads),
            ))
