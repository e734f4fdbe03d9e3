-- ===== src/System/ManagedFile/Writes.antt =====
-- What a write and a backup leave at the path of the file, whether they return or raise.
use nas_os.Common.{
  ℕ, zero, suc, String, ◌<>◌, starts_with, false, Option, none, some, List, [], ◌∷◌, Result, ok,
  err, ap, ◌⊎◌, inl, inr,
}
use nas_os.Common.{◌==◌, contains, take, string_eq, ◌≡◌, ◌≢◌, refl, arith, ◌||◌, ◌∙◌}
use nas_os.Common.Dict
use nas_os.Common.Dict.{lookup-insert, lookup-erase}
use nas_os.Common.Actions.{Action, and_then, ◌>>=◌, bind-eq, bind-err}
use nas_os.Common.Errors.{Exc}
use nas_os.System.ManagedFile.{
  File, Files, Target, Host, Io, path_of, tmp_path, left_at, place, stage, relabel, write_atomic,
  erase_or, insert_sorted, sorted, with_prefix, unlink_all, backup_prefix, stale_backups, copy_or,
  copy_previous, backup, backup_previous,
}

-- The file is not among its own backups, and is not its own temporary file.
pub record IsSeparate (t : Target) (stamp : String) : Type 0 where
  pub not_prefixed : starts_with (path_of t) (backup_prefix t) ≡ false
  pub not_copy : backup_prefix t <> stamp ≢ path_of t
  pub not_tmp : tmp_path t ≢ path_of t

abbrev pub content_of : Option File → Option String
content_of none = none
content_of (some f) = some f.content

abbrev pub content_at : String → Files → Option String
content_at path files = content_of (Dict.lookup path files)

module _ {S : Type 0} where
  -- A placing that returned leaves the new content, and one that raised the one from before.
  place-content :
      (t : Target) (file : File) (fault : Option (Exc × Option File)) (h : Host S)
      → tmp_path t ≢ path_of t
      → (((place t file fault h).0 ≡ ok tt)
          × (content_at (path_of t) (place t file fault h).1.files ≡ some file.content))
        ⊎ ((e : Exc) × ((place t file fault h).0 ≡ err e)
            × (content_at (path_of t) (place t file fault h).1.files
                ≡ content_at (path_of t) h.files))
  unfolding place left_at
  place-content t file none h sep = inl (
    refl,
    ground (
      arith,
      lookup-insert (path_of t) (path_of t) file
          (Dict.erase (tmp_path t) (Dict.insert (tmp_path t) file h.files)),
    ),
  )
  place-content t file (some (e, none)) h sep = inr (e, refl, refl)
  place-content t file (some (e, some partial)) h sep = inr (
    e,
    refl,
    ap content_of (lookup-insert (path_of t) (tmp_path t) partial h.files ∙ ground (arith, sep)),
  )

module _ {S : Type 0} (io : Io S) where
  -- A write returns with the new content in place, or raises: before the renaming with the content
  -- from before, or in `restorecon` with the new one.
  pub write_atomic-content :
      (t : Target) (content : String) (h : Host S)
      → tmp_path t ≢ path_of t
      → ((e : Exc) × ((write_atomic io t content h).0 ≡ err e)
          × (content_at (path_of t) (write_atomic io t content h).1.files
              ≡ content_at (path_of t) h.files))
        ⊎ (((write_atomic io t content h).0 ≡ (relabel io t (stage io t content h).1).0)
            × ((stage io t content h).0 ≡ ok tt)
            × (content_at (path_of t) (write_atomic io t content h).1.files ≡ some content))
  unfolding write_atomic stage relabel
  write_atomic-content t content h sep =
      let file : File = record {
        content = content;
        mode = t.mode;
        owner = t.owner;
        group = t.group;
      } in
      let fault = io.write_fault (tmp_path t) h.files in
      elim (place-content t file fault h sep) [
        | inl (r, c) ↦ inr (
          ap (λ (x : Result Exc (Unit {0}) × Host S). x.0)
              (bind-eq (stage io t content) (λ _. relabel io t) h r),
          r,
          ap (λ (x : Result Exc (Unit {0}) × Host S). content_at (path_of t) x.1.files)
                (bind-eq (stage io t content) (λ _. relabel io t) h r)
              ∙ c,
        )
        | inr (e, r, c) ↦ inl (
          e,
          ap (λ (x : Result Exc (Unit {0}) × Host S). x.0)
              (bind-err (stage io t content) (λ _. relabel io t) h r),
          ap (λ (x : Result Exc (Unit {0}) × Host S). content_at (path_of t) x.1.files)
                (bind-err (stage io t content) (λ _. relabel io t) h r)
              ∙ c,
        )
      ]

contains-insert_sorted :
    (a s : String) (ss : List String) → contains (insert_sorted s ss) a ≡ (a == s || contains ss a)
unfolding insert_sorted
contains-insert_sorted a s [] = refl
contains-insert_sorted a s (t ∷ ts) = ground (arith, contains-insert_sorted a s ts)

contains-sorted : (a : String) (ss : List String) → contains (sorted ss) a ≡ contains ss a
unfolding sorted
contains-sorted a [] = refl
contains-sorted a (s ∷ ss) =
    ground (arith, contains-insert_sorted a s (sorted ss), contains-sorted a ss)

contains-take :
    (n : ℕ) (a : String) (ss : List String) → contains ss a ≡ false → contains (take n ss) a ≡ false
contains-take zero a ss h = refl
contains-take (suc n) a [] h = refl
contains-take (suc n) a (s ∷ ss) h = ground (arith, contains-take n a ss)

contains-with_prefix :
    (prefix a : String) (files : Files)
    → starts_with a prefix ≡ false
    → contains (with_prefix prefix files) a ≡ false
unfolding with_prefix
contains-with_prefix prefix a [] h = refl
contains-with_prefix prefix a ((path, f) ∷ files) h =
    ground (arith, contains-with_prefix prefix a files)

pub contains-stale_backups :
    (t : Target) (a : String) (files : Files)
    → starts_with a (backup_prefix t) ≡ false
    → contains (stale_backups t files) a ≡ false
unfolding stale_backups
contains-stale_backups t a files h =
    contains-take _ a (sorted (with_prefix (backup_prefix t) files)) (
      contains-sorted a (with_prefix (backup_prefix t) files)
      ∙ contains-with_prefix (backup_prefix t) a files h)

module _ {S : Type 0} where
  pub lookup-erase_or :
      (a path : String) (fault : Option Exc) (h : Host S)
      → (a == path) ≡ false
      → Dict.lookup a (erase_or fault path h).1.files ≡ Dict.lookup a h.files
  unfolding erase_or
  lookup-erase_or a path none h n = rw (lookup-erase a path h.files, n) refl
  lookup-erase_or a path (some e) h n = refl

  lookup-copy_or :
      (a path : String) (fault : Option (Exc × Option File)) (copy : File) (h : Host S)
      → (a == path) ≡ false
      → Dict.lookup a (copy_or fault path copy h).1.files ≡ Dict.lookup a h.files
  unfolding copy_or left_at
  lookup-copy_or a path none copy h n = rw (lookup-insert a path copy h.files, n) refl
  lookup-copy_or a path (some (e, none)) copy h n = refl
  lookup-copy_or a path (some (e, some partial)) copy h n =
      rw (lookup-insert a path partial h.files, n) refl

  pub lookup-and_then :
      {A B : Type 0} (a : String) (rest : A → Action (Host S) B) (answer : Result Exc A × Host S)
      → ((x : A) (h : Host S) → Dict.lookup a (rest x h).1.files ≡ Dict.lookup a h.files)
      → Dict.lookup a (and_then rest answer).1.files ≡ Dict.lookup a answer.1.files
  unfolding and_then
  lookup-and_then a rest (ok x, h) same = same x h
  lookup-and_then a rest (err e, h) same = refl

module _ {S : Type 0} (io : Io S) where
  lookup-unlink_all :
      (a : String) (paths : List String)
      → contains paths a ≡ false
      → (h : Host S) → Dict.lookup a (unlink_all io paths h).1.files ≡ Dict.lookup a h.files
  unfolding unlink_all
  lookup-unlink_all a [] n h = refl
  lookup-unlink_all a (p ∷ ps) n h =
      lookup-and_then a (λ _. unlink_all io ps) _ (λ _ h'. lookup-unlink_all a ps (ground arith) h')
      ∙ lookup-erase_or a p (io.unlink_fault p h.files) h (ground arith)

  pub lookup-copy_previous :
      (t : Target) (stamp : String) (previous : File) (h : Host S)
      → IsSeparate t stamp
      → Dict.lookup (path_of t) (copy_previous io t stamp previous h).1.files
        ≡ Dict.lookup (path_of t) h.files
  unfolding copy_previous
  lookup-copy_previous t stamp previous h sep =
      lookup-copy_or (path_of t) (backup_prefix t <> stamp) _ _ h (ground (arith, sep.not_copy))

  lookup-backup :
      (t : Target) (stamp : String) (previous : File) (h : Host S)
      → IsSeparate t stamp
      → Dict.lookup (path_of t) (backup io t stamp previous h).1.files
        ≡ Dict.lookup (path_of t) h.files
  unfolding backup ◌>>=◌
  lookup-backup t stamp previous h sep =
      lookup-and_then (path_of t) _ _ (λ _ h'.
        lookup-unlink_all (path_of t) (stale_backups t h'.files)
          (contains-stale_backups t (path_of t) h'.files sep.not_prefixed) h')
      ∙ lookup-copy_previous t stamp previous h sep

  -- Backups and their clean-up do not touch the file, whether they return or raise.
  pub lookup-backup_previous :
      (t : Target) (stamp : String) (previous : Option File) (h : Host S)
      → IsSeparate t stamp
      → Dict.lookup (path_of t) (backup_previous io t stamp previous h).1.files
        ≡ Dict.lookup (path_of t) h.files
  unfolding backup_previous
  lookup-backup_previous t stamp none h sep = refl
  lookup-backup_previous t stamp (some f) h sep = lookup-backup t stamp f h sep
