-- ===== src/Storage/Execute/Prefix.antt =====
-- What the job's commands read as is the beginning of what its steps read as.
use nas_os.Common.{
  ℕ, ◌+◌, ◌*◌, ◌/◌, String, true, List, [], ◌∷◌, ◌++◌, length, ok, err, succeeds, ◌≡◌, refl, sym,
  ap, ◌∙◌, string_eq,
}
use mathlib.Core.List.{append-nil, append_assoc}
use nas_os.Config.{Settings}
use nas_os.Storage.Spec.{StoragePlanSpec}
use nas_os.Storage.Steps.{PlanStep, build_steps}
use nas_os.Storage.Steps.Scope.{step_target, targets}
use nas_os.Storage.Execute.{
  Host, Machine, Locals, no_locals, Answer, and_then, ◌>>=◌, report, do_step, do_steps, do_plan,
}
use nas_os.Storage.Execute.Wipes.{
  overwritten, done, IsQuiet, bind-IsQuiet, use_host-IsQuiet, report-IsQuiet, do_step-done,
}

module _ {S : Type 0} (read : List String → List String) where
  -- What was overwritten is the beginning of a list, and the whole list after a success.
  pub record Part {A : Type 0} (whole : List String) (a : Answer S A) : Type 0 where
    pub rest : List String
    pub begins : done read a ++ rest ≡ whole
    pub complete : succeeds a.0 ≡ true → rest ≡ []

  pub whole_of :
      {A : Type 0} {whole : List String} {a : Answer S A}
      → Part whole a
      → succeeds a.0 ≡ true
      → done read a ≡ whole
  whole_of {A} {whole} {a} p h =
      sym (append-nil (done read a)) ∙ ap (λ r. done read a ++ r) (sym (p.complete h)) ∙ p.begins

  and_then-Part :
      {A B : Type 0} (next : A → Machine S → Answer S B) (first : List String) (more : List String)
      (before : List String) (a : Answer S A)
      → done read a ≡ before ++ first
      → ((x : A) (m : Machine S) → Part (overwritten read m.commands ++ more) (next x m))
      → Part (before ++ (first ++ more)) (and_then next a)
  unfolding and_then
  and_then-Part next first more before (ok x, m) d q =
      let p = q x m in
      record {
        rest = p.rest;
        begins = p.begins ∙ ap (λ xs. xs ++ more) d ∙ append_assoc before first more;
        complete = p.complete;
      }
  and_then-Part next first more before (err e, m) d q = record {
    rest = more;
    begins = ap (λ xs. xs ++ more) d ∙ append_assoc before first more;
    complete = λ h. cc;
  }

  Part-and_then :
      {A B : Type 0} (next : A → Machine S → Answer S B) (whole : List String) (a : Answer S A)
      → Part whole a
      → ((x : A) → IsQuiet read (next x))
      → Part whole (and_then next a)
  unfolding and_then
  Part-and_then next whole (ok x, m) p q = record {
    rest = p.rest;
    begins = ap (λ xs. xs ++ p.rest) ((q x).quiet m) ∙ p.begins;
    complete = λ h. p.complete refl;
  }
  Part-and_then next whole (err e, m) p q = record {
    rest = p.rest;
    begins = p.begins;
    complete = λ h. cc;
  }

  module _ (host : Host S) (settings : Settings)
      (blkid : (args : List String) → read ("blkid" ∷ args) ≡ [])
      (escape : (args : List String) → read ("systemd-escape" ∷ args) ≡ [])
      (relabel : (args : List String) → read ("restorecon" ∷ args) ≡ [])
      (resolved : StoragePlanSpec) (managed : List String) where
    do_steps-Part :
        (total index : ℕ) (steps : List PlanStep) (locals : Locals) (m : Machine S)
        → Part
            (overwritten read m.commands ++ targets read steps)
            (do_steps host settings resolved managed total index steps locals m)
    unfolding do_steps ◌>>=◌
    do_steps-Part total index [] locals m = record {
      rest = [];
      begins = refl;
      complete = λ h. refl;
    }
    do_steps-Part total index (step ∷ steps) locals m =
        and_then-Part _ [] (targets read (step ∷ steps)) (overwritten read m.commands)
          (report (index * 1_000_000 / total) step.description m)
          ((report-IsQuiet read (index * 1_000_000 / total) step.description).quiet m
            ∙ sym (append-nil (overwritten read m.commands)))
          (λ x m'.
            and_then-Part _ (step_target read step) (targets read steps)
              (overwritten read m'.commands)
              (do_step host settings resolved managed step.op step locals m')
              (do_step-done read host settings blkid escape relabel resolved managed step.op step
                locals m' refl)
              (λ locals' m''. do_steps-Part total (index + 1) steps locals' m''))

    pub do_plan-Part :
        (steps : List PlanStep) (m : Machine S)
        → build_steps resolved ≡ ok steps
        → Part
            (overwritten read m.commands ++ targets read steps)
            (do_plan host settings resolved managed m)
    unfolding do_plan ◌>>=◌ and_then
    do_plan-Part steps m h = rw h (
        Part-and_then _ (overwritten read m.commands ++ targets read steps)
          (do_steps host settings resolved managed (length steps) 0 steps no_locals m)
          (do_steps-Part (length steps) 0 steps no_locals m)
          (λ locals.
            bind-IsQuiet read _ _ (use_host-IsQuiet read _) (λ x. report-IsQuiet read _ _)))
