-- ===== src/Agent/Files/Bodies/Loop.antt =====
-- The loop that the jobs share: what it keeps, and its steps.
use nas_os.Common.{
  ℕ, ◌+◌, String, Bool, true, false, List, [], ◌∷◌, ◌++◌, Result, ok, ◌≡◌, refl, sym, ap, ◌∙◌,
}
use nas_os.Common.Actions.{Action, ◌>>=◌, bind-ok}
use nas_os.Common.Errors.{Exc}
use nas_os.Common.Related.{Order, IsRelated, give-IsRelated, bind-IsRelated, if-IsRelated}
use nas_os.Agent.Files.Bodies.{Job, on_files, report, each}

module _ {S : Type 0} where
  -- An order of the files, for the state of a job.
  abbrev pub on_job : Order S → Order (Job S)
  on_job r = record {
    rel = λ j j'. r.rel j.files j'.files;
    reflexive = λ j. r.reflexive j.files;
    transitive = λ p q. r.transitive p q;
  }

  on_files-IsRelated :
      (r : Order S) {A : Type 0} (action : Action S A)
      → IsRelated r action
      → IsRelated (on_job r) (on_files action)
  unfolding on_files
  on_files-IsRelated r action p = record { related = λ j. p.related j.files }

  report-IsRelated :
      (r : Order S) (done total : ℕ) (text : String) → IsRelated (on_job r) (report done total text)
  unfolding report
  report-IsRelated r done total text = record { related = λ j. r.reflexive j.files }

  -- The loop keeps what each of its items keeps.
  pub each-IsRelated :
      (r : Order S) (one : String → Action S String) (cancelled : ℕ → Bool) (i total : ℕ)
      (items : List String)
      → ((item : String) → IsRelated r (one item))
      → IsRelated (on_job r) (each one cancelled i total items)
  unfolding each
  each-IsRelated r one cancelled i total [] q = give-IsRelated _ _
  each-IsRelated r one cancelled i total (item ∷ items) q =
      if-IsRelated _ (cancelled i) _ _ (give-IsRelated _ _) (
        bind-IsRelated _ _ _ (on_files-IsRelated r (one item) (q item)) (λ text.
          bind-IsRelated _ _ _ (report-IsRelated r (i + 1) total text)
            (λ x. each-IsRelated r one cancelled (i + 1) total items q)))

  pub each-cancelled :
      (one : String → Action S String) (cancelled : ℕ → Bool) (i total : ℕ) (item : String)
      (items : List String) (j : Job S)
      → cancelled i ≡ true
      → each one cancelled i total (item ∷ items) j ≡ (ok tt, j)
  unfolding each
  each-cancelled one cancelled i total item items j h = rw h refl

  -- The state after an item and its report.
  abbrev pub reported : (String → Action S String) → ℕ → ℕ → String → String → Job S → Job S
  reported one i total item text j = record {
    files = (one item j.files).1;
    reports = j.reports ++ (record { done = i + 1; total = total; text = text } ∷ []);
  }

  pub each-step :
      (one : String → Action S String) (cancelled : ℕ → Bool) (i total : ℕ) (item : String)
      (items : List String) (j : Job S)
      → cancelled i ≡ false
      → (each one cancelled i total (item ∷ items) j).0 ≡ ok tt
      → (text : String) × ((one item j.files).0 ≡ ok text)
        × (each one cancelled i total (item ∷ items) j
            ≡ each one cancelled (i + 1) total items (reported one i total item text j))
  unfolding each on_files report
  each-step one cancelled i total item items j c h =
      let going : each one cancelled i total (item ∷ items) j
          ≡ (on_files (one item) >>= (λ text.
                report (i + 1) total text >>= (λ x. each one cancelled (i + 1) total items)))
              j =
        rw c refl in
      let (text, a, h1, e1) =
        bind-ok (on_files (one item)) _ j
          (sym (ap (λ (a : Result Exc (Unit {0}) × Job S). a.0) going) ∙ h) in
      let (_, b, h2, e2) = bind-ok (report (i + 1) total text) _ _ h1 in (text, a, going ∙ e1 ∙ e2)
