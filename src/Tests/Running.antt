-- ===== src/Tests/Running.antt =====
-- Runs of the job runner.
use nas_os.Common.{
  false, Option, none, some, List, [], ◌∷◌, ◌≡◌, refl, string_eq, nat_eq, option_eq,
}
use nas_os.Common.Dict
use nas_os.Common.Text.{truthy}
use nas_os.Agent.Jobs.{
  JobRunner, Task, waiting, queued, Action, submit, acquire_slot, acquire_lock, step, start,
  new_task, Reach, initial, next, lock_free, has_lock, moved,
}
use nas_os.Agent.Jobs.Invariant.{Inv, Reach-Inv}
use nas_os.Agent.Jobs.Progress.{Advances, Reach-Advances}

abbrev task : Task
task = record {
  job = record {
    id = "a";
    kind = "mkfs";
    resource = some "storage";
    status = queued;
    progress = 0;
    message = "";
    created_by = none;
  };
  phase = waiting;
  cancel_requested = false;
  last_publish = 0;
}

abbrev submitted : JobRunner
submitted = record { tasks = ("a", task) ∷ []; published = []; results = [] }

submits : step start (submit "a" "mkfs" (some "storage") none) ≡ some submitted
unfolding step new_task Dict.lookup Dict.insert
submits = refl

reached : Reach submitted
reached = next (submit "a" "mkfs" (some "storage") none) (initial start refl) submits

Reach-Inv_example : Inv submitted
Reach-Inv_example = Reach-Inv reached

a_found : Dict.lookup "a" submitted.tasks ≡ some task
unfolding Dict.lookup string_eq
a_found = refl

Reach-Advances_example : (a : Action) × (r : JobRunner) × Advances a × (step submitted a ≡ some r)
Reach-Advances_example = Reach-Advances submitted "a" task reached a_found (λ e. cc)

-- Runs a list of actions, as long as none is refused.
run : List Action → Option JobRunner → Option JobRunner
run [] r = r
run (a ∷ rest) none = none
run (a ∷ rest) (some r) = run rest (step r a)

-- One job holds the lock of the storage and three wait for it inside the semaphore; a job that
-- needs no lock is refused a slot, although only one body runs.
blocked :
    run
      (submit "a" "mkfs" (some "storage") none
        ∷ submit "b" "mkfs" (some "storage") none
        ∷ submit "c" "mkfs" (some "storage") none
        ∷ submit "d" "mkfs" (some "storage") none
        ∷ submit "e" "copy" none none
        ∷ acquire_slot "a"
        ∷ acquire_slot "b"
        ∷ acquire_slot "c"
        ∷ acquire_slot "d"
        ∷ acquire_lock "a"
        ∷ acquire_slot "e"
        ∷ [])
      (some start)
    ≡ none
unfolding run step moved new_task lock_free has_lock truthy string_eq option_eq nat_eq Dict.lookup
    Dict.insert
blocked = refl
