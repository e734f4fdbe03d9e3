-- ===== src/System/ManagedFile/Prepared.antt =====
-- What a managed file's preparation leaves: the new content in place, or the previous one.
use nas_os.Common.{String, Option, none, some, Result, ok, err}
use nas_os.Common.{◌≡◌, ◌≢◌, refl, ◌⊎◌, inl, inr, ◌∙◌, string_eq, ap, sym}
use mathlib.Core.Path.{subst}
use nas_os.Common.Dict
use nas_os.Common.Actions.{Action, ◌>>=◌, give, bind-ok, bind-eq, bind-err}
use nas_os.Common.Errors.{Exc}
use nas_os.System.ManagedFile.{
  File, Target, Host, Io, path_of, tmp_path, lookup_or, read_previous, write_atomic,
  backup_previous, exchange, prepare,
}
use nas_os.System.ManagedFile.Writes.{
  IsSeparate, content_at, content_of, write_atomic-content, lookup-backup_previous,
}
use nas_os.System.ManagedFile.Faults.{Serves, write_atomic-cases, backup_previous-ok}

module _ {S : Type 0} where
  lookup_or-cases :
      (fault : Option Exc) (path : String) (h : Host S)
      → (lookup_or fault path h ≡ (ok (Dict.lookup path h.files), h))
        ⊎ ((e : Exc) × (lookup_or fault path h ≡ (err e, h)))
  unfolding lookup_or
  lookup_or-cases none path h = inl refl
  lookup_or-cases (some e) path h = inr (e, refl)

module _ {S : Type 0} (io : Io S) (t : Target) (stamp content : String) where
  read_previous-cases :
      (h : Host S)
      → (read_previous io t h ≡ (ok (Dict.lookup (path_of t) h.files), h))
        ⊎ ((e : Exc) × (read_previous io t h ≡ (err e, h)))
  unfolding read_previous
  read_previous-cases h = lookup_or-cases (io.read_fault (path_of t) h.files) (path_of t) h

  written :
      (h : Host S)
      → tmp_path t ≢ path_of t
      → (write_atomic io t content h).0 ≡ ok tt
      → content_at (path_of t) (write_atomic io t content h).1.files ≡ some content
  written h sep b = elim (write_atomic-content io t content h sep) [
    | inl (e, r, _) ↦ let bad = sym b ∙ r in cc
    | inr (_, _, c) ↦ c
  ]

  -- A preparation that returned left the new content.
  pub prepare-ok :
      (h : Host S) (previous : Option File)
      → IsSeparate t stamp
      → (prepare io t stamp content h).0 ≡ ok previous
      → content_at (path_of t) (prepare io t stamp content h).1.files ≡ some content
  unfolding prepare exchange
  prepare-ok h previous sep p =
      let (old, a, p1, e1) = bind-ok (read_previous io t) (exchange io t stamp content) h p in
      let h1 = (read_previous io t h).1 in
      let (_, b, p2, e2) =
        bind-ok (write_atomic io t content)
          (λ _. backup_previous io t stamp old >>= (λ _. give (ok old))) h1 p1 in
      let h2 = (write_atomic io t content h1).1 in
      let (_, c, p3, e3) = bind-ok (backup_previous io t stamp old) (λ _. give (ok old)) h2 p2 in
      ap (λ (r : Result Exc (Option File) × Host S). content_at (path_of t) r.1.files)
        (e1 ∙ e2 ∙ e3)
      ∙ ap content_of (lookup-backup_previous io t stamp old h2 sep)
      ∙ written h1 sep.not_tmp b

  module _ (serves : Serves io t content) (sep : IsSeparate t stamp) where
    -- Where the system serves, the exchange returns with the new content in place, or raises with
    -- the previous content.
    exchange-cases :
        (previous : Option File) (h : Host S)
        → (((exchange io t stamp content previous h).0 ≡ ok previous)
            × (content_at (path_of t) (exchange io t stamp content previous h).1.files
                ≡ some content))
          ⊎ ((e : Exc) × ((exchange io t stamp content previous h).0 ≡ err e)
              × (content_at (path_of t) (exchange io t stamp content previous h).1.files
                  ≡ content_at (path_of t) h.files))
    unfolding exchange
    exchange-cases previous h =
        let rest : Unit {0} → Action (Host S) (Option File) =
          λ _. backup_previous io t stamp previous >>= (λ _. give (ok previous)) in
        let h2 = (write_atomic io t content h).1 in
        elim (write_atomic-cases io t content serves content h sep.not_tmp) [
          | inl (r, c) ↦
              let same =
                bind-eq (write_atomic io t content) rest h r
                ∙ bind-eq (backup_previous io t stamp previous) (λ _. give (ok previous)) h2
                    (backup_previous-ok io t content serves stamp previous h2 sep c) in
              inl (
                ap (λ (x : Result Exc (Option File) × Host S). x.0) same,
                ap (λ (x : Result Exc (Option File) × Host S). content_at (path_of t) x.1.files)
                      same
                    ∙ ap content_of (lookup-backup_previous io t stamp previous h2 sep)
                    ∙ c,
              )
          | inr (e, r, c) ↦
              let same = bind-err (write_atomic io t content) rest h r in
              inr (
                e,
                ap (λ (x : Result Exc (Option File) × Host S). x.0) same,
                ap (λ (x : Result Exc (Option File) × Host S). content_at (path_of t) x.1.files)
                      same
                    ∙ c,
              )
        ]

    -- So does the whole preparation, with the previous file.
    pub prepare-cases :
        (h : Host S)
        → (((prepare io t stamp content h).0 ≡ ok (Dict.lookup (path_of t) h.files))
            × (content_at (path_of t) (prepare io t stamp content h).1.files ≡ some content))
          ⊎ ((e : Exc) × ((prepare io t stamp content h).0 ≡ err e)
              × (content_at (path_of t) (prepare io t stamp content h).1.files
                  ≡ content_at (path_of t) h.files))
    unfolding prepare
    prepare-cases h = elim (read_previous-cases h) [
      | inl r ↦
          let previous = Dict.lookup (path_of t) h.files in
          let same =
            bind-eq (read_previous io t) (exchange io t stamp content) h
              (ap (λ (x : Result Exc (Option File) × Host S). x.0) r)
            ∙ ap (exchange io t stamp content previous)
                (ap (λ (x : Result Exc (Option File) × Host S). x.1) r) in
          subst
            (λ (x : Result Exc (Option File) × Host S).
              ((x.0 ≡ ok previous) × (content_at (path_of t) x.1.files ≡ some content))
              ⊎ ((e : Exc) × (x.0 ≡ err e)
                  × (content_at (path_of t) x.1.files ≡ content_at (path_of t) h.files)))
            (sym same) (exchange-cases previous h)
      | inr (e, r) ↦
          let same =
            bind-err (read_previous io t) (exchange io t stamp content) h
              (ap (λ (x : Result Exc (Option File) × Host S). x.0) r) in
          inr (
            e,
            ap (λ (x : Result Exc (Option File) × Host S). x.0) same,
            ap (λ (x : Result Exc (Option File) × Host S). content_at (path_of t) x.1.files) same
                ∙ ap (λ (x : Result Exc (Option File) × Host S). content_at (path_of t) x.1.files)
                    r,
          )
    ]
