-- ===== src/System/ManagedFile/Faults.antt =====
-- The steps of `ManagedFile` on a system that refuses nothing once the new content is in place.
use nas_os.Common.{
  String, ◌<>◌, false, true, Option, none, some, List, [], ◌∷◌, Result, ok, err, succeeds, ap,
  contains, ◌≡◌, ◌≢◌, refl, sym, arith, ◌∙◌, ◌⊎◌, inl, inr, string_eq,
}
use nas_os.Common.Dict
use nas_os.Common.Dict.{lookup-insert, lookup-erase}
use nas_os.Common.Actions.{and_then, bind-eq}
use nas_os.Common.Errors.{Exc}
use nas_os.System.Runner.{CommandResult}
use nas_os.System.ManagedFile.{
  File, Files, Target, Host, Io, path_of, tmp_path, no_result, place, stage, relabel, write_atomic,
  restore, erase_or, unlink_all, backup_prefix, stale_backups, copy_or, copy_previous, backup,
  backup_previous,
}
use nas_os.System.ManagedFile.Writes.{
  IsSeparate, content_of, content_at, write_atomic-content, lookup-copy_previous,
  contains-stale_backups,
}

-- `restorecon` can be run, and with the new content in place no file is refused to be written or
-- unlinked. The writing of the new content itself may be refused.
pub record Serves {S : Type 0} (io : Io S) (t : Target) (content : String) : Type 0 where
  pub relabels :
      (files : Files) (s : S) → succeeds (io.run files ("restorecon" ∷ path_of t ∷ []) s).0 ≡ true
  pub writes :
      (path : String) (files : Files)
      → content_at (path_of t) files ≡ some content
      → io.write_fault path files ≡ none
  pub unlinks :
      (path : String) (files : Files)
      → content_at (path_of t) files ≡ some content
      → io.unlink_fault path files ≡ none

no_result-ok : (r : Result Exc CommandResult) → succeeds r ≡ true → no_result r ≡ ok tt
unfolding no_result
no_result-ok (ok _) h = refl
no_result-ok (err e) h = cc

module _ {S : Type 0} (io : Io S) (t : Target) (content : String)
    (serves : Serves io t content) where
  relabel-ok : (h : Host S) → (relabel io t h).0 ≡ ok tt
  unfolding relabel
  relabel-ok h = no_result-ok _ (serves.relabels h.files h.services)

  -- A write of any content returns with it, or raises with the content from before.
  pub write_atomic-cases :
      (new : String) (h : Host S)
      → tmp_path t ≢ path_of t
      → (((write_atomic io t new h).0 ≡ ok tt)
          × (content_at (path_of t) (write_atomic io t new h).1.files ≡ some new))
        ⊎ ((e : Exc) × ((write_atomic io t new h).0 ≡ err e)
            × (content_at (path_of t) (write_atomic io t new h).1.files
                ≡ content_at (path_of t) h.files))
  write_atomic-cases new h sep = elim (write_atomic-content io t new h sep) [
    | inl (e, r, c) ↦ inr (e, r, c)
    | inr (r, _, c) ↦ inl (r ∙ relabel-ok (stage io t new h).1, c)
  ]

  stage-ok :
      (new : String) (h : Host S)
      → content_at (path_of t) h.files ≡ some content
      → (stage io t new h).0 ≡ ok tt
  unfolding stage place
  stage-ok new h c = rw (serves.writes (tmp_path t) h.files c) refl

  write_atomic-ok :
      (new : String) (h : Host S)
      → content_at (path_of t) h.files ≡ some content
      → (write_atomic io t new h).0 ≡ ok tt
  unfolding write_atomic
  write_atomic-ok new h c =
      rw (bind-eq (stage io t new) (λ _. relabel io t) h (stage-ok new h c))
        (relabel-ok (stage io t new h).1)

  restored_absent :
      (h : Host S)
      → content_at (path_of t) h.files ≡ some content
      → ((restore io t none h).0 ≡ ok tt)
        × (content_at (path_of t) (restore io t none h).1.files ≡ none)
  unfolding restore erase_or
  restored_absent h c =
      rw (serves.unlinks (path_of t) h.files c)
        (refl, ground (arith, lookup-erase (path_of t) (path_of t) h.files))

  restored_file :
      (f : File) (h : Host S)
      → tmp_path t ≢ path_of t
      → content_at (path_of t) h.files ≡ some content
      → ((restore io t (some f) h).0 ≡ ok tt)
        × (content_at (path_of t) (restore io t (some f) h).1.files ≡ some f.content)
  unfolding restore
  restored_file f h sep c =
      let done = write_atomic-ok f.content h c in
      elim (write_atomic-cases f.content h sep) [
        | inl (r, d) ↦ (r, d)
        | inr (e, r, d) ↦ let bad = sym done ∙ r in cc
      ]

  -- From the new content, the previous one is restored.
  pub content-restore :
      (previous : Option File) (h : Host S)
      → tmp_path t ≢ path_of t
      → content_at (path_of t) h.files ≡ some content
      → ((restore io t previous h).0 ≡ ok tt)
        × (content_at (path_of t) (restore io t previous h).1.files ≡ content_of previous)
  content-restore none h sep c = restored_absent h c
  content-restore (some f) h sep c = restored_file f h sep c

  unlink_all-ok :
      (paths : List String) (h : Host S)
      → contains paths (path_of t) ≡ false
      → content_at (path_of t) h.files ≡ some content
      → (unlink_all io paths h).0 ≡ ok tt
  unfolding unlink_all erase_or and_then
  unlink_all-ok [] h n c = refl
  unlink_all-ok (p ∷ ps) h n c = rw (serves.unlinks p h.files c) (
      unlink_all-ok ps (record h { files = Dict.erase p h.files }) (ground arith)
        (ap content_of (ground (arith, lookup-erase (path_of t) p h.files)) ∙ c))

  copy_previous-ok :
      (stamp : String) (previous : File) (h : Host S)
      → content_at (path_of t) h.files ≡ some content
      → (copy_previous io t stamp previous h).0 ≡ ok tt
  unfolding copy_previous copy_or
  copy_previous-ok stamp previous h c = rw (serves.writes (backup_prefix t <> stamp) h.files c) refl

  backup-ok :
      (stamp : String) (previous : File) (h : Host S)
      → IsSeparate t stamp
      → content_at (path_of t) h.files ≡ some content
      → (backup io t stamp previous h).0 ≡ ok tt
  unfolding backup
  backup-ok stamp previous h sep c =
      let after = (copy_previous io t stamp previous h).1 in
      rw
        (bind-eq (copy_previous io t stamp previous)
          (λ _ h'. unlink_all io (stale_backups t h'.files) h') h
          (copy_previous-ok stamp previous h c))
        (unlink_all-ok (stale_backups t after.files) after
          (contains-stale_backups t (path_of t) after.files sep.not_prefixed)
          (ap content_of (lookup-copy_previous io t stamp previous h sep) ∙ c))

  pub backup_previous-ok :
      (stamp : String) (previous : Option File) (h : Host S)
      → IsSeparate t stamp
      → content_at (path_of t) h.files ≡ some content
      → (backup_previous io t stamp previous h).0 ≡ ok tt
  unfolding backup_previous
  backup_previous-ok stamp none h sep c = refl
  backup_previous-ok stamp (some f) h sep c = backup-ok stamp f h sep c
