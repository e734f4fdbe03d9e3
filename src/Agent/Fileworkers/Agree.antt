-- ===== src/Agent/Fileworkers/Agree.antt =====
-- The supervisor's two tables agree.
use nas_os.Common.{
  ℕ, String, Bool, false, Option, none, some, List, [], ◌∷◌, ok, err, ◌≡◌, refl, sym, ap, ◌∙◌,
  arith, ◌==◌, nat_eq, Option-cases, Bool-cases, ◌⊎◌, inl, inr,
}
use nas_os.Common.Dict
use nas_os.Common.Dict.{Dict, lookup-nil, lookup-insert, lookup-erase}
use nas_os.Common.Errors.{Exc}
use nas_os.Agent.Fileworkers.{
  Worker, FileWorkerSupervisor, new_supervisor, socket_path_for, track, ensure_from, ensure,
  is_worker, drop_worker, reap_one, reap, Reach, initial, ensured, refused, reaped,
}

-- The pid of a tracked worker leads back to its user.
abbrev pub Agree : FileWorkerSupervisor → Type 0
Agree s =
    (uid : ℕ) (worker : Worker)
    → Dict.lookup uid s.workers ≡ some worker
    → Dict.lookup worker.pid s.pid_to_uid ≡ some uid

initial-Agree : (run_dir : String) → Agree (new_supervisor run_dir)
initial-Agree run_dir uid worker h = cc (sym (lookup-nil uid) ∙ h)

track-Agree :
    (s : FileWorkerSupervisor) (uid pid : ℕ)
    → Agree s
    → Dict.lookup pid s.pid_to_uid ≡ none
    → Agree (track s uid (ok pid)).1
unfolding track
track-Agree s uid pid a fresh other worker h =
    let new : Worker = record { pid = pid; socket_path = socket_path_for s uid } in
    let found = sym (lookup-insert other uid new s.workers) ∙ h in
    elim (Bool-cases (other == uid)) [
      | inl e ↦
          let same : new ≡ worker = ground arith in
          let at : pid ≡ worker.pid = ap (λ (w : Worker). w.pid) same in
          ground (arith, at, lookup-insert worker.pid pid uid s.pid_to_uid)
      | inr e ↦
          let kept : Dict.lookup other s.workers ≡ some worker = ground arith in
          ground (arith, a other worker kept, lookup-insert worker.pid pid uid s.pid_to_uid)
    ]

is_worker-eq : (worker : Worker) (pid : ℕ) → is_worker (some worker) pid ≡ (worker.pid == pid)
unfolding is_worker
is_worker-eq worker pid = refl

-- The pid of a tracked worker that stays is not the one that went.
kept-Agree :
    (s : FileWorkerSupervisor) (uid other pid : ℕ) (worker : Worker)
    → Agree s
    → Dict.lookup pid s.pid_to_uid ≡ some uid
    → Dict.lookup other s.workers ≡ some worker
    → ((other == uid) ≡ false) ⊎ ((worker.pid == pid) ≡ false)
    → Dict.lookup worker.pid (Dict.erase pid s.pid_to_uid) ≡ some other
kept-Agree s uid other pid worker a h found differs =
    let back = a other worker found in
    let l = lookup-erase worker.pid pid s.pid_to_uid in
    elim (Bool-cases (worker.pid == pid)) [
      | inl e ↦
          let same : worker.pid ≡ pid = ground arith in
          let users : some uid ≡ some other =
            sym h ∙ ap (λ p. Dict.lookup p s.pid_to_uid) (sym same) ∙ back in
          ground arith
      | inr e ↦ l ∙ rw e back
    ]

not_worker-differs :
    (s : FileWorkerSupervisor) (uid other pid : ℕ) (worker : Worker)
    → Dict.lookup other s.workers ≡ some worker
    → is_worker (Dict.lookup uid s.workers) pid ≡ false
    → ((other == uid) ≡ false) ⊎ ((worker.pid == pid) ≡ false)
not_worker-differs s uid other pid worker found t = elim (Bool-cases (other == uid)) [
  | inr e ↦ inl e
  | inl e ↦
      let same : other ≡ uid = ground arith in
      let here : Dict.lookup uid s.workers ≡ some worker =
        ap (λ u. Dict.lookup u s.workers) (sym same) ∙ found in
      inr (sym (is_worker-eq worker pid) ∙ rw here at t)
]

-- A child that no user has is not the pid of a tracked worker; the one of a user is that user's.
drop_worker-Agree :
    (s : FileWorkerSupervisor) (pid : ℕ) (owner : Option ℕ)
    → Agree s
    → Dict.lookup pid s.pid_to_uid ≡ owner
    → Agree (drop_worker s pid owner)
unfolding drop_worker
drop_worker-Agree s pid none a h other worker found = a other worker found
drop_worker-Agree s pid (some uid) a h other worker found =
    elim (Bool-cases (is_worker (Dict.lookup uid s.workers) pid)) [
      | inl t ↦
          let found' = rw t at found in
          let gone = sym (lookup-erase other uid s.workers) ∙ found' in
          let here : (Dict.lookup other s.workers ≡ some worker) × ((other == uid) ≡ false) =
            ground arith in
          rw t (kept-Agree s uid other pid worker a h here.0 (inl here.1))
      | inr t ↦
          let found' = rw t at found in
          rw t (
            kept-Agree s uid other pid worker a h found'
              (not_worker-differs s uid other pid worker found' t))
    ]

reap-Agree : (s : FileWorkerSupervisor) (pids : List ℕ) → Agree s → Agree (reap s pids)
unfolding reap reap_one
reap-Agree s [] a = a
reap-Agree s (pid ∷ pids) a =
    reap-Agree (reap_one s pid) pids (drop_worker-Agree s pid (Dict.lookup pid s.pid_to_uid) a refl)

ensure-Agree :
    (s : FileWorkerSupervisor) (uid pid : ℕ) (alive : ℕ → Bool)
    → Agree s
    → Dict.lookup pid s.pid_to_uid ≡ none
    → Agree (ensure s uid alive (ok pid)).1
unfolding ensure ensure_from
ensure-Agree s uid pid alive a fresh = elim (Option-cases (Dict.lookup uid s.workers)) [
  | inl e ↦ rw e (track-Agree s uid pid a fresh)
  | inr (worker, e) ↦ elim (Bool-cases (alive worker.pid)) [
    | inl l ↦ rw (e, l) a
    | inr l ↦ rw (e, l) (track-Agree s uid pid a fresh)
  ]
]

refused-Agree :
    (s : FileWorkerSupervisor) (uid : ℕ) (e : Exc) (alive : ℕ → Bool)
    → Agree s
    → Agree (ensure s uid alive (err e)).1
unfolding ensure ensure_from track
refused-Agree s uid e alive a = elim (Option-cases (Dict.lookup uid s.workers)) [
  | inl n ↦ rw n a
  | inr (worker, f) ↦ elim (Bool-cases (alive worker.pid)) [
    | inl l ↦ rw (f, l) a
    | inr l ↦ rw (f, l) a
  ]
]

-- In every reachable state the pid of a tracked worker leads back to its user in the other table.
pub Reach-Agree : {s : FileWorkerSupervisor} → Reach s → Agree s
Reach-Agree (initial run_dir) = initial-Agree run_dir
Reach-Agree (ensured {s} uid pid alive r fresh) = ensure-Agree s uid pid alive (Reach-Agree r) fresh
Reach-Agree (refused {s} uid e alive r) = refused-Agree s uid e alive (Reach-Agree r)
Reach-Agree (reaped {s} pids r) = reap-Agree s pids (Reach-Agree r)

-- In every reachable state two users with the same worker process are the same user.
pub Reach-distinct :
    {s : FileWorkerSupervisor}
    → Reach s
    → (uid other : ℕ) (worker shared : Worker) → Dict.lookup uid s.workers ≡ some worker
    → Dict.lookup other s.workers ≡ some shared
    → shared.pid ≡ worker.pid
    → other ≡ uid
Reach-distinct {s} r uid other worker shared found found' same =
    let back = Reach-Agree r uid worker found in
    let back' = Reach-Agree r other shared found' in
    let users : some other ≡ some uid =
      sym back' ∙ ap (λ p. Dict.lookup p s.pid_to_uid) same ∙ back in
    ground arith

reap_one-eq :
    (s : FileWorkerSupervisor) (uid : ℕ) (worker : Worker)
    → Dict.lookup uid s.workers ≡ some worker
    → Dict.lookup worker.pid s.pid_to_uid ≡ some uid
    → reap_one s worker.pid ≡ record s {
      workers = Dict.erase uid s.workers;
      pid_to_uid = Dict.erase worker.pid s.pid_to_uid;
    }
unfolding reap_one drop_worker
reap_one-eq s uid worker found back =
    rw (back, found, is_worker-eq worker worker.pid) (ground arith)

-- In every reachable state, once a user's worker has been reaped, the next call of `ensure` for the
-- user starts a new process, returns the user's socket and tracks that process, whatever
-- process is said to be alive.
pub Reach-respawns :
    {s : FileWorkerSupervisor}
    → Reach s
    → (uid pid : ℕ) (worker : Worker) (alive : ℕ → Bool) → Dict.lookup uid s.workers ≡ some worker
    → ((ensure (reap_one s worker.pid) uid alive (ok pid)).0 ≡ ok (socket_path_for s uid))
      × (Dict.lookup uid (ensure (reap_one s worker.pid) uid alive (ok pid)).1.workers
          ≡ some (record { pid = pid; socket_path = socket_path_for s uid }))
unfolding ensure ensure_from track socket_path_for
Reach-respawns {s} r uid pid worker alive found =
    let gone : Dict.lookup uid (Dict.erase uid s.workers) ≡ none =
      ground (arith, lookup-erase uid uid s.workers) in
    let new : Worker = record { pid = pid; socket_path = socket_path_for s uid } in
    rw (reap_one-eq s uid worker found (Reach-Agree r uid worker found), gone)
      (refl, ground (arith, lookup-insert uid uid new (Dict.erase uid s.workers)))
