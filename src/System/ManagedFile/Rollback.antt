-- ===== src/System/ManagedFile/Rollback.antt =====
-- `write_and_apply` of system/managedfile.py: what it leaves where it returns and where it raises.
use nas_os.Common.{String, Option, none, some, Result, ok, err}
use nas_os.Common.{◌≡◌, ◌≢◌, refl, ◌⊎◌, inl, inr, ◌∙◌, string_eq, ap, sym}
use mathlib.Core.Path.{subst}
use nas_os.Common.Dict
use nas_os.Common.Actions.{Action, and_then, give, bind-eq, bind-err}
use nas_os.Common.Errors.{Exc, config_validation_error, config_apply_error}
use nas_os.System.ManagedFile.{
  File, Files, Target, Tool, Host, Io, path_of, tmp_path, restore, prepare, use_tool, raise_second,
  after_apply, run_apply, after_validate, run_validate, write_and_apply, second_error,
}
use nas_os.System.ManagedFile.Writes.{IsSeparate, content_at, content_of}
use nas_os.System.ManagedFile.Faults.{Serves, content-restore}
use nas_os.System.ManagedFile.Prepared.{prepare-ok, prepare-cases}

-- The documented errors of a validating tool, and of an applying tool.
abbrev pub IsValidation : Result Exc (Unit {0}) → Type 0
IsValidation (ok _) = Unit
IsValidation (err (config_validation_error _)) = Unit
IsValidation (err _) = ⊥

abbrev pub IsApplication : Result Exc (Unit {0}) → Type 0
IsApplication (ok _) = Unit
IsApplication (err (config_apply_error _)) = Unit
IsApplication (err _) = ⊥

module _ {S : Type 0} where
  abbrev pub Raises : (Result Exc (Unit {0}) → Type 0) → Tool S → Type 0
  Raises P none = Unit
  Raises P (some tool) = (files : Files) (s : S) → P (tool files s).0

  -- Committed with the digest, or failed with the previous content in place.
  abbrev pub Atomic : Target → String → String → Option String → Result Exc String × Host S → Type 0
  Atomic t digest content previous r =
      ((r.0 ≡ ok digest) × (content_at (path_of t) r.1.files ≡ some content))
      ⊎ ((e : Exc) × (r.0 ≡ err e) × (content_at (path_of t) r.1.files ≡ previous))

  -- Once the previous content is back, the error is raised whatever the second attempt does.
  and_then-restored :
      (t : Target) (digest content : String) (previous : Option String) (first : Exc)
      (apply : Files → Action S (Unit {0})) (r : Result Exc (Unit {0}) × Host S)
      → r.0 ≡ ok tt
      → content_at (path_of t) r.1.files ≡ previous
      → Atomic t digest content previous
          (and_then (λ _ restored. raise_second first (use_tool apply restored)) r)
  unfolding and_then raise_second use_tool
  and_then-restored t digest content previous first apply (ok _, h) a c =
      inr (second_error first (apply h.files h.services).0, refl, c)
  and_then-restored t digest content previous first apply (err e, h) a c = cc

  and_then-raised :
      (t : Target) (digest content : String) (previous : Option String) (e : Exc)
      (r : Result Exc (Unit {0}) × Host S)
      → r.0 ≡ ok tt
      → content_at (path_of t) r.1.files ≡ previous
      → Atomic t digest content previous (and_then (λ _. give (err e)) r)
  unfolding and_then
  and_then-raised t digest content previous e (ok _, h) a c = inr (e, refl, c)
  and_then-raised t digest content previous e (err x, h) a c = cc

module _ {S : Type 0} (io : Io S) (t : Target) (previous : Option File) (digest content : String)
    (serves : Serves io t content) (sep : tmp_path t ≢ path_of t) where
  after_apply-Atomic :
      (apply : Files → Action S (Unit {0})) (r : Result Exc (Unit {0})) (h : Host S)
      → IsApplication r
      → content_at (path_of t) h.files ≡ some content
      → Atomic t digest content
          (content_of previous)
          (after_apply io t previous apply digest (r, h))
  unfolding after_apply
  after_apply-Atomic apply (ok _) h a c = inl (refl, c)
  after_apply-Atomic apply (err (config_apply_error d)) h a c =
      let (r, back) = content-restore io t content serves previous h sep c in
      and_then-restored t digest content (content_of previous) (config_apply_error d) apply
        (restore io t previous h) r back
  after_apply-Atomic apply (err _) h a c = absurd a

  run_apply-Atomic :
      (apply : Tool S) (h : Host S)
      → Raises IsApplication apply
      → content_at (path_of t) h.files ≡ some content
      → Atomic t digest content (content_of previous) (run_apply io t previous apply digest h)
  unfolding run_apply use_tool
  run_apply-Atomic none h a c = inl (refl, c)
  run_apply-Atomic (some apply) h a c =
      after_apply-Atomic apply (apply h.files h.services).0
        (record h { services = (apply h.files h.services).1 }) (a h.files h.services) c

  after_validate-Atomic :
      (apply : Tool S) (r : Result Exc (Unit {0})) (h : Host S)
      → IsValidation r
      → Raises IsApplication apply
      → content_at (path_of t) h.files ≡ some content
      → Atomic t digest content
          (content_of previous)
          (after_validate io t previous apply digest (r, h))
  unfolding after_validate
  after_validate-Atomic apply (ok _) h v a c = run_apply-Atomic apply h a c
  after_validate-Atomic apply (err (config_validation_error d)) h v a c =
      let (r, back) = content-restore io t content serves previous h sep c in
      and_then-raised t digest content (content_of previous) (config_validation_error d)
        (restore io t previous h) r back
  after_validate-Atomic apply (err _) h v a c = absurd v

  run_validate-Atomic :
      (validate apply : Tool S) (h : Host S)
      → Raises IsValidation validate
      → Raises IsApplication apply
      → content_at (path_of t) h.files ≡ some content
      → Atomic t digest content
          (content_of previous)
          (run_validate io t previous validate apply digest h)
  unfolding run_validate use_tool
  run_validate-Atomic none apply h v a c = run_apply-Atomic apply h a c
  run_validate-Atomic (some validate) apply h v a c =
      after_validate-Atomic apply (validate h.files h.services).0
        (record h { services = (validate h.files h.services).1 }) (v h.files h.services) a c

module _ {S : Type 0} (io : Io S) where
  after_validate_other :
      (t : Target) (previous : Option File) (digest : String) (apply : Tool S)
      (r : Result Exc (Unit {0})) (h : Host S) (e : Exc)
      → r ≡ err e
      → ((d : String) → e ≢ config_validation_error d)
      → after_validate io t previous apply digest (r, h) ≡ (err e, h)
  unfolding after_validate
  after_validate_other t previous digest apply (ok _) h e r other = cc
  after_validate_other t previous digest apply (err (config_validation_error d)) h e r other =
      absurd (other d (cc))
  after_validate_other t previous digest apply (err _) h e r other = cc

  -- If `restorecon` can be run, the system refuses no file once the new content is in place, and the
  -- validating and the applying tool raise only their documented errors, a write either returns the
  -- digest and leaves the new content at the path, or raises and leaves there the content from
  -- before the write, or no file where there was none. The previous file may fail to be read, and
  -- the new one to be written up to its renaming.
  pub write_and_apply-Atomic :
      (hash : String → String) (t : Target) (validate apply : Tool S) (stamp content : String)
      (h : Host S)
      → IsSeparate t stamp
      → Serves io t content
      → Raises IsValidation validate
      → Raises IsApplication apply
      → Atomic t
          (hash content)
          content
          (content_at (path_of t) h.files)
          (write_and_apply io hash t validate apply stamp content h)
  unfolding write_and_apply
  write_and_apply-Atomic hash t validate apply stamp content h sep serves v a =
      let go = λ (old : Option File). run_validate io t old validate apply (hash content) in
      let P = Atomic t (hash content) content (content_at (path_of t) h.files) in
      elim (prepare-cases io t stamp content serves sep h) [
        | inl (p, c) ↦ subst P (sym (bind-eq (prepare io t stamp content) go h p)) (
            run_validate-Atomic io t (Dict.lookup (path_of t) h.files) (hash content) content serves
              sep.not_tmp validate apply (prepare io t stamp content h).1 v a c)
        | inr (e, p, c) ↦
            subst P (sym (bind-err (prepare io t stamp content) go h p)) (inr (e, refl, c))
      ]

  -- Any other exception of the validating tool, where the new content could be put in place, is
  -- passed on with the new content, which was not validated, still at the path.
  pub write_and_apply-unvalidated :
      (hash : String → String) (t : Target) (validate : Files → Action S (Unit {0}))
      (apply : Tool S) (stamp content : String) (h : Host S) (previous : Option File) (e : Exc)
      → IsSeparate t stamp
      → (prepare io t stamp content h).0 ≡ ok previous
      → (validate
          (prepare io t stamp content h).1.files
          (prepare io t stamp content h).1.services).0
        ≡ err e
      → ((d : String) → e ≢ config_validation_error d)
      → ((write_and_apply io hash t (some validate) apply stamp content h).0 ≡ err e)
        × (content_at
              (path_of t)
              (write_and_apply io hash t (some validate) apply stamp content h).1.files
            ≡ some content)
  unfolding write_and_apply run_validate use_tool
  write_and_apply-unvalidated hash t validate apply stamp content h previous e sep p r other =
      let ready = (prepare io t stamp content h).1 in
      let same =
        bind-eq (prepare io t stamp content)
          (λ old. run_validate io t old (some validate) apply (hash content)) h p
        ∙ after_validate_other t previous (hash content) apply
            (validate ready.files ready.services).0
            (record ready { services = (validate ready.files ready.services).1 }) e r other in
      (
        ap (λ (x : Result Exc String × Host S). x.0) same,
        ap (λ (x : Result Exc String × Host S). content_at (path_of t) x.1.files) same
            ∙ prepare-ok io t stamp content h previous sep p,
      )
