-- ===== src/Agent/Jobs.antt =====
-- agent/jobs.py: the runner of long operations. A task of the event loop is a `Task`; what the
-- loop does next is an `Action`, and `step` refuses one that the code would make wait.
pub mod Count
pub mod Invariant
pub mod Progress
use nas_os.Common.{
  ℕ, suc, ◌+◌, ◌≤◌, String, Bool, true, false, not, Option, none, some, List, [], ◌∷◌, ◌++◌,
}
use nas_os.Common.{◌==◌, string_eq, nat_eq, option_eq, if◌then◌else◌, ltb, leb, ◌≡◌}
use nas_os.Common.Dict
use nas_os.Common.Dict.{Dict}
use nas_os.Common.Text.{truthy}

pub data JobStatus : Type 0 where
  queued running done failed cancelled : JobStatus

-- `progress` counts millionths; a body's fraction is not negative.
pub record JobRecord : Type 0 where
  pub id : String
  pub kind : String
  pub resource : Option String
  pub status : JobStatus
  pub progress : ℕ
  pub message : String
  pub created_by : Option String

-- Where `_run` is: before the semaphore, inside it before the lock, in the body, or done.
pub data Phase : Type 0 where
  waiting holding inside over : Phase

-- A job with its handle; `last_publish` is in milliseconds.
pub record Task : Type 0 where
  pub job : JobRecord
  pub phase : Phase
  pub cancel_requested : Bool
  pub last_publish : ℕ

-- The runner with what it has published and what it has appended to its log.
pub record JobRunner : Type 0 where
  pub tasks : Dict String Task
  pub published : List JobRecord
  pub results : List JobRecord

abbrev pub start : JobRunner
start = record { tasks = []; published = []; results = [] }

abbrev pub max_concurrency : ℕ
max_concurrency = 4

abbrev pub progress_throttle : ℕ
progress_throttle = 500

-- A task that is inside `async with self._semaphore`.
abbrev pub has_slot : Task → Bool
has_slot t = elim t.phase [ holding ↦ true | inside ↦ true | _ ↦ false ]

-- A task that holds the lock of a resource.
unfoldable pub has_lock : String → Task → Bool
has_lock resource t = elim t.phase [ inside ↦ t.job.resource == some resource | _ ↦ false ]

abbrev pub count : Dict String Task → (Task → Bool) → ℕ
count [] p = 0
count ((_, t) ∷ tasks) p = (if p t then 1 else 0) + count tasks p

-- How a body ends.
pub data Outcome : Type 0 where
  returned : Outcome
  raised : String → Outcome

pub data Action : Type 0 where
  -- `submit`, with the identifier that it draws
  submit : String → String → Option String → Option String → Action
  request_cancel : String → Action
  -- `JobHandle.progress` in the body, at a time
  progress : String → ℕ → String → ℕ → Action
  acquire_slot acquire_lock : String → Action
  finish : String → Outcome → Action

unfoldable pub new_task : String → String → Option String → Option String → Task
new_task id kind resource created_by = record {
  job = record {
    id = id;
    kind = kind;
    resource = resource;
    status = queued;
    progress = 0;
    message = "";
    created_by = created_by;
  };
  phase = waiting;
  cancel_requested = false;
  last_publish = 0;
}

-- The new progress and message of a record.
unfoldable pub set_progress : JobRecord → ℕ → String → JobRecord
set_progress job fraction message = record job {
  progress = if ltb 1_000_000 fraction then 1_000_000 else fraction;
  message = if message == "" then job.message else message;
}

-- `now - self._last_publish >= PROGRESS_THROTTLE_SECONDS`
unfoldable pub is_due : Task → ℕ → Bool
is_due t now = leb (t.last_publish + progress_throttle) now

-- The record that a job's end leaves, in its body's outcome and the cancellation flag.
unfoldable pub ended : JobRecord → Bool → Outcome → JobRecord
ended job true returned = record job { status = cancelled }
ended job false returned = record job { status = done; progress = 1_000_000 }
ended job cancel (raised message) = record job { status = failed; message = message }

-- The lock of a task's resource is free, or it needs none.
unfoldable pub lock_free : JobRunner → Task → Bool
unfolding nat_eq
lock_free r t = elim t.job.resource [
  | none ↦ true
  | some resource ↦ if truthy (some resource) then count r.tasks (has_lock resource) == 0 else true
]

-- The task that an action leaves in place of the one that it names, or nothing where the code
-- waits: for a slot of the semaphore, for the lock, or for the body.
unfoldable pub moved : JobRunner → Action → Task → Option Task
unfolding set_progress is_due ended
moved r (request_cancel _) t = elim t.phase [
  | over ↦ some t
  | _ ↦ some (record t { cancel_requested = true })
]
moved r (progress _ fraction message now) t = elim t.phase [
  | inside ↦ some (record t {
    job = set_progress t.job fraction message;
    last_publish = if is_due t now then now else t.last_publish;
  })
  | _ ↦ none
]
moved r (acquire_slot _) t = elim t.phase [
  | waiting ↦
      if ltb (count r.tasks has_slot) max_concurrency
      then some (record t { phase = holding })
      else none
  | _ ↦ none
]
moved r (acquire_lock _) t = elim t.phase [
  | holding ↦
      if lock_free r t
      then some (record t { phase = inside; job = record t.job { status = running } })
      else none
  | _ ↦ none
]
moved r (finish _ outcome) t = elim t.phase [
  | inside ↦ some (record t { phase = over; job = ended t.job t.cancel_requested outcome })
  | _ ↦ none
]
moved r (submit _ _ _ _) t = none

-- `_publish`
unfoldable pub publish : JobRunner → JobRecord → JobRunner
publish r job = record r { published = r.published ++ (job ∷ []) }

-- What the action publishes and appends to the log, given the task before it and the new record.
unfoldable pub announce : Action → Task → JobRecord → JobRunner → JobRunner
unfolding publish
announce (progress _ _ _ now) t job r = if is_due t now then publish r job else r
announce (acquire_lock _) t job r = publish r job
announce (finish _ _) t job r = record (publish r job) { results = r.results ++ (job ∷ []) }
announce _ t job r = r

abbrev pub subject : Action → String
subject (submit id _ _ _) = id
subject (request_cancel id) = id
subject (progress id _ _ _) = id
subject (acquire_slot id) = id
subject (acquire_lock id) = id
subject (finish id _) = id

unfoldable pub put : JobRunner → String → Task → JobRunner
put r id t = record r { tasks = Dict.insert id t r.tasks }

unfoldable pub settle : JobRunner → Action → Task → Option Task → Option JobRunner
unfolding announce put
settle r a t none = none
settle r a t (some t') = some (announce a t t'.job (put r (subject a) t'))

-- Without the task only `submit` does something, and `request_cancel` returns False.
unfoldable pub act_unknown : JobRunner → Action → Option JobRunner
unfolding put new_task
act_unknown r (submit id kind resource created_by) =
    some (put r id (new_task id kind resource created_by))
act_unknown r (request_cancel id) = some r
act_unknown r _ = none

unfoldable pub step_on : JobRunner → Action → Option Task → Option JobRunner
unfolding settle act_unknown
step_on r a none = act_unknown r a
step_on r a (some t) = settle r a t (moved r a t)

unfoldable pub step : JobRunner → Action → Option JobRunner
unfolding step_on
step r a = step_on r a (Dict.lookup (subject a) r.tasks)

-- The states that a runner can be in.
pub data Reach : JobRunner → Type 0 where
  initial : (r : JobRunner) → r ≡ start → Reach r
  next : {r t : JobRunner} (a : Action) → Reach r → step r a ≡ some t → Reach t
