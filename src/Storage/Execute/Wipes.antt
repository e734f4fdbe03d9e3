-- ===== src/Storage/Execute/Wipes.antt =====
-- Which disks the job overwrites, whatever the commands answer.
use nas_os.Common.{
  ℕ, String, Option, none, some, List, [], ◌∷◌, ◌++◌, Result, ok, err, ◌≡◌, refl, sym, ap, ◌∙◌,
  string_eq,
}
use mathlib.Core.List.{append-nil, append_assoc}
use nas_os.Common.Errors.{Exc}
use nas_os.Config.{Settings}
use nas_os.Storage.Spec.{StoragePlanSpec}
use nas_os.Storage.Steps.{
  Op, PlanStep, run, write_mount_unit, write_target, write_dropins, daemon_reload,
  enable_start_unit, restorecon, lv_device,
}
use nas_os.Storage.Steps.Scope.{step_target}
use nas_os.Storage.Execute.{
  Host, Machine, Locals, Answer, and_then, ◌>>=◌, give, use_host, report, run_command,
  mount_unit_name, write_file, do_run, do_write_unit, write_dropin_files, do_enable, do_step,
  dropin_services,
}

-- What the commands that were run read as, in their order.
abbrev pub overwritten : (List String → List String) → List (List String) → List String
overwritten read [] = []
overwritten read (argv ∷ commands) = read argv ++ overwritten read commands

overwritten-append :
    (read : List String → List String) (xs ys : List (List String))
    → overwritten read (xs ++ ys) ≡ overwritten read xs ++ overwritten read ys
overwritten-append read [] ys = refl
overwritten-append read (x ∷ xs) ys = simp (overwritten-append read xs ys, append_assoc)

module _ {S : Type 0} (read : List String → List String) where
  abbrev pub done : {A : Type 0} → Answer S A → List String
  done (_, m) = overwritten read m.commands

  -- A computation that overwrites nothing with the read.
  pub record IsQuiet {A : Type 0} (c : Machine S → Answer S A) : Type 0 where
    pub quiet : (m : Machine S) → done (c m) ≡ overwritten read m.commands

  pub and_then-done :
      {A B : Type 0} (rest : A → Machine S → Answer S B) (a : Answer S A)
      → ((x : A) → IsQuiet (rest x))
      → done (and_then rest a) ≡ done a
  unfolding and_then
  and_then-done rest (ok a, m) q = (q a).quiet m
  and_then-done rest (err e, m) q = refl

  pub bind-IsQuiet :
      {A B : Type 0} (first : Machine S → Answer S A) (rest : A → Machine S → Answer S B)
      → IsQuiet first
      → ((x : A) → IsQuiet (rest x))
      → IsQuiet (first >>= rest)
  unfolding ◌>>=◌
  bind-IsQuiet first rest p q = record { quiet = λ m. and_then-done rest (first m) q ∙ p.quiet m }

  give-IsQuiet : {A : Type 0} (r : Result Exc A) → IsQuiet (give r)
  give-IsQuiet r = record { quiet = λ m. refl }

  pub use_host-IsQuiet : {A : Type 0} (f : S → Result Exc A × S) → IsQuiet (use_host f)
  unfolding use_host
  use_host-IsQuiet f = record { quiet = λ m. refl }

  pub report-IsQuiet : (fraction : ℕ) (message : String) → IsQuiet (report fraction message)
  unfolding report
  report-IsQuiet fraction message = record { quiet = λ m. refl }

  module _ (host : Host S) (settings : Settings) where
    run_command-done :
        (argv : List String) (m : Machine S)
        → done (run_command host settings argv m) ≡ overwritten read m.commands ++ read argv
    unfolding run_command
    run_command-done argv m =
        overwritten-append read m.commands (argv ∷ [])
        ∙ ap (λ r. overwritten read m.commands ++ r) (append-nil (read argv))

    run_command-IsQuiet :
        (argv : List String) → read argv ≡ [] → IsQuiet (run_command host settings argv)
    run_command-IsQuiet argv h = record {
      quiet = λ m. run_command-done argv m ∙ rw h (append-nil (overwritten read m.commands));
    }

    module _ (blkid : (args : List String) → read ("blkid" ∷ args) ≡ [])
        (escape : (args : List String) → read ("systemd-escape" ∷ args) ≡ [])
        (relabel : (args : List String) → read ("restorecon" ∷ args) ≡ [])
        (resolved : StoragePlanSpec) (managed : List String) where
      write_file-IsQuiet : (path content : String) → IsQuiet (write_file host settings path content)
      unfolding write_file
      write_file-IsQuiet path content = use_host-IsQuiet _

      mount_unit_name-IsQuiet :
          (mountpoint : String) → IsQuiet (mount_unit_name host settings mountpoint)
      unfolding mount_unit_name
      mount_unit_name-IsQuiet mountpoint =
          bind-IsQuiet _ _
            (run_command-IsQuiet ("systemd-escape" ∷ "-p" ∷ "--suffix=mount" ∷ mountpoint ∷ [])
              (escape _))
            (λ result. give-IsQuiet _)

      do_write_unit-IsQuiet : IsQuiet (do_write_unit host settings resolved managed)
      unfolding do_write_unit
      do_write_unit-IsQuiet =
          bind-IsQuiet _ _
            (run_command-IsQuiet
              ("blkid" ∷ "-o" ∷ "value" ∷ "-s" ∷ "UUID" ∷ lv_device resolved ∷ []) (blkid _))
            (λ result.
              bind-IsQuiet _ _ (mount_unit_name-IsQuiet resolved.mountpoint)
                (λ name. bind-IsQuiet _ _ (write_file-IsQuiet _ _) (λ digest. give-IsQuiet _)))

      write_dropin_files-IsQuiet :
          (units : List String) → IsQuiet (write_dropin_files host settings resolved managed units)
      unfolding write_dropin_files
      write_dropin_files-IsQuiet [] = give-IsQuiet _
      write_dropin_files-IsQuiet (unit ∷ units) =
          bind-IsQuiet _ _ (write_file-IsQuiet _ _) (λ digest. write_dropin_files-IsQuiet units)

      do_enable-IsQuiet :
          (unit : Option String) → IsQuiet (do_enable host settings resolved managed unit)
      unfolding do_enable
      do_enable-IsQuiet none = give-IsQuiet _
      do_enable-IsQuiet (some unit) =
          bind-IsQuiet _ _ (use_host-IsQuiet _)
            (λ x. bind-IsQuiet _ _ (use_host-IsQuiet _) (λ y. use_host-IsQuiet _))

      do_run-done :
          (step : PlanStep) (locals : Locals) (m : Machine S)
          → done (do_run host settings resolved managed step locals m)
            ≡ overwritten read m.commands ++ read step.argv
      unfolding do_run ◌>>=◌
      do_run-done step locals m =
          and_then-done _ (run_command host settings step.argv m) (λ result. give-IsQuiet _)
          ∙ run_command-done step.argv m

      quiet-done :
          (c : Machine S → Answer S Locals) (m : Machine S)
          → IsQuiet c
          → done (c m) ≡ overwritten read m.commands ++ []
      quiet-done c m q = q.quiet m ∙ sym (append-nil (overwritten read m.commands))

      pub do_step-done :
          (op : Op) (step : PlanStep) (locals : Locals) (m : Machine S)
          → step.op ≡ op
          → done (do_step host settings resolved managed op step locals m)
            ≡ overwritten read m.commands ++ step_target read step
      unfolding do_step
      do_step-done run step locals m h = rw h (do_run-done step locals m)
      do_step-done write_mount_unit step locals m h = rw h (quiet-done _ m do_write_unit-IsQuiet)
      do_step-done write_target step locals m h =
          rw h (quiet-done _ m (bind-IsQuiet _ _ (write_file-IsQuiet _ _) (λ x. give-IsQuiet _)))
      do_step-done write_dropins step locals m h = rw h (
          quiet-done _ m
            (bind-IsQuiet _ _ (write_dropin_files-IsQuiet dropin_services) (λ x. give-IsQuiet _)))
      do_step-done daemon_reload step locals m h =
          rw h (quiet-done _ m (bind-IsQuiet _ _ (use_host-IsQuiet _) (λ x. give-IsQuiet _)))
      do_step-done enable_start_unit step locals m h = rw h (
          quiet-done _ m
            (bind-IsQuiet _ _ (do_enable-IsQuiet locals.unit_name) (λ x. give-IsQuiet _)))
      do_step-done restorecon step locals m h = rw h (
          quiet-done _ m (
            bind-IsQuiet _ _
              (run_command-IsQuiet ("restorecon" ∷ "-R" ∷ resolved.mountpoint ∷ []) (relabel _))
              (λ x. give-IsQuiet _)))
