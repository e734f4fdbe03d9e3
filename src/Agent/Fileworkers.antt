-- ===== src/Agent/Fileworkers.antt =====
-- `FileWorkerSupervisor` of agent/fileworker_supervisor.py. Whether a process is alive, what binding
-- a socket and spawning a process give, and which children `waitpid` reports are arguments of the
-- operation that asks for them.
pub mod Agree
use nas_os.Common.{
  ℕ, String, ◌<>◌, Bool, true, Option, none, some, List, [], ◌∷◌, Result, ok, err, ◌≡◌,
  if◌then◌else◌, ◌==◌, nat_eq,
}
use nas_os.Common.Dict
use nas_os.Common.Dict.{Dict}
use nas_os.Common.Text.{str}
use nas_os.Common.Errors.{Exc}

-- `_Worker`
pub record Worker : Type 0 where
  pub pid : ℕ
  pub socket_path : String

pub record FileWorkerSupervisor : Type 0 where
  pub run_dir : String
  pub workers : Dict ℕ Worker
  pub pid_to_uid : Dict ℕ ℕ

-- `FileWorkerSupervisor(run_dir)`
abbrev pub new_supervisor : String → FileWorkerSupervisor
new_supervisor run_dir = record { run_dir = run_dir; workers = []; pid_to_uid = [] }

unfoldable pub socket_path_for : FileWorkerSupervisor → ℕ → String
socket_path_for s uid = s.run_dir <> ("/workers/" <> (str uid <> ".sock"))

-- The end of `ensure`: a worker that was spawned is entered in both tables.
unfoldable pub track :
    FileWorkerSupervisor → ℕ → Result Exc ℕ → Result Exc String × FileWorkerSupervisor
track s uid (err e) = (err e, s)
track s uid (ok pid) = (
  ok (socket_path_for s uid),
  record s {
    workers = Dict.insert uid (record { pid = pid; socket_path = socket_path_for s uid }) s.workers;
    pid_to_uid = Dict.insert pid uid s.pid_to_uid;
  },
)

unfoldable pub ensure_from :
    FileWorkerSupervisor
    → ℕ
    → (ℕ → Bool)
    → Result Exc ℕ
    → Option Worker
    → Result Exc String × FileWorkerSupervisor
unfolding track
ensure_from s uid alive spawned none = track s uid spawned
ensure_from s uid alive spawned (some existing) =
    if alive existing.pid then (ok existing.socket_path, s) else track s uid spawned

-- `ensure`, with `_process_alive`, and the pid of the worker that it would spawn or the exception.
unfoldable pub ensure :
    FileWorkerSupervisor → ℕ → (ℕ → Bool) → Result Exc ℕ → Result Exc String × FileWorkerSupervisor
unfolding ensure_from
ensure s uid alive spawned = ensure_from s uid alive spawned (Dict.lookup uid s.workers)

-- `worker is not None and worker.pid == pid`
unfoldable pub is_worker : Option Worker → ℕ → Bool
unfolding nat_eq
is_worker none pid = Bool.false
is_worker (some worker) pid = worker.pid == pid

unfoldable pub drop_worker : FileWorkerSupervisor → ℕ → Option ℕ → FileWorkerSupervisor
unfolding is_worker
drop_worker s pid none = s
drop_worker s pid (some uid) =
    let popped = record s { pid_to_uid = Dict.erase pid s.pid_to_uid } in
    if is_worker (Dict.lookup uid s.workers) pid
    then record popped { workers = Dict.erase uid s.workers }
    else popped

-- One turn of the loop of `reap`, for a child that `waitpid` reports.
unfoldable pub reap_one : FileWorkerSupervisor → ℕ → FileWorkerSupervisor
unfolding drop_worker
reap_one s pid = drop_worker s pid (Dict.lookup pid s.pid_to_uid)

-- `reap`, for the children that `waitpid` reports one after the other.
unfoldable pub reap : FileWorkerSupervisor → List ℕ → FileWorkerSupervisor
unfolding reap_one
reap s [] = s
reap s (pid ∷ pids) = reap (reap_one s pid) pids

-- The states of a supervisor. The system gives a new child a pid that no unreaped child has.
pub data Reach : FileWorkerSupervisor → Type 0 where
  initial : (run_dir : String) → Reach (new_supervisor run_dir)
  ensured :
      {s : FileWorkerSupervisor} (uid pid : ℕ) (alive : ℕ → Bool)
      → Reach s
      → Dict.lookup pid s.pid_to_uid ≡ none
      → Reach (ensure s uid alive (ok pid)).1
  refused :
      {s : FileWorkerSupervisor} (uid : ℕ) (e : Exc) (alive : ℕ → Bool)
      → Reach s
      → Reach (ensure s uid alive (err e)).1
  reaped : {s : FileWorkerSupervisor} (pids : List ℕ) → Reach s → Reach (reap s pids)
