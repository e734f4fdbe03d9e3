-- ===== src/Agent/Jobs/Progress.antt =====
-- The runner does not deadlock.
use nas_os.Common.{
  ◌+◌, ◌≤◌, String, Bool, true, false, some, [], ◌∷◌, arith, ◌≡◌, ◌≢◌, refl, ◌⊎◌, inl, inr, sym,
}
use nas_os.Common.{string_eq, nat_eq, option_eq, Bool-cases, Option-cases}
use mathlib.Core.Path.{subst}
use nas_os.Common.Dict
use nas_os.Common.Dict.{Dict, NodupKeys, insert-NodupKeys}
use nas_os.Agent.Jobs.{
  JobRunner, Task, waiting, holding, inside, over, Action, acquire_slot, acquire_lock, finish,
  announce, ended, running, count, has_slot, has_lock, moved, settle, lock_free, put, step, Reach,
  initial, next, returned, subject,
}
use nas_os.Agent.Jobs.Count.{count-pos}
use nas_os.Agent.Jobs.Invariant.{Changes, none_changed, added, replaced, step-Changes}

abbrev is_inside : Task → Bool
is_inside t = elim t.phase [ inside ↦ true | _ ↦ false ]

abbrev is_holding : Task → Bool
is_holding t = elim t.phase [ holding ↦ true | _ ↦ false ]

count-has_slot :
    (tasks : Dict String Task)
    → count tasks has_slot ≤ count tasks is_inside + count tasks is_holding
count-has_slot [] = omega arith
count-has_slot ((j, u) ∷ tasks) = ground (arith, count-has_slot tasks)

count-has_lock :
    (res : String) (tasks : Dict String Task) → count tasks (has_lock res) ≤ count tasks is_inside
unfolding has_lock
count-has_lock res [] = omega arith
count-has_lock res ((j, u) ∷ tasks) = ground (arith, count-has_lock res tasks)

-- Either no task passes, or some key has one that does.
search_tasks :
    (p : Task → Bool) (tasks : Dict String Task)
    → NodupKeys tasks
    → (count tasks p ≡ 0)
      ⊎ ((id : String) × (t : Task) × (Dict.lookup id tasks ≡ some t) × (p t ≡ true))
unfolding Dict.lookup
search_tasks p [] n = inl refl
search_tasks p ((j, u) ∷ tasks) (fresh, n) = elim (Bool-cases (p u)) [
  | inl yes' ↦ inr (j, u, ground arith, yes')
  | inr no' ↦ elim (search_tasks p tasks n) [
    | inl zero' ↦ inl (rw (no', zero') refl)
    | inr (id, t, found, yes') ↦ inr (id, t, ground arith, yes')
  ]
]

Changes-NodupKeys :
    {r r' : JobRunner} {a : Action} → Changes r r' a → NodupKeys r.tasks → NodupKeys r'.tasks
Changes-NodupKeys (none_changed e) n = subst (λ (q : JobRunner). NodupKeys q.tasks) (sym e) n
Changes-NodupKeys {r} {r'} {a} (added t' _ _ e) n =
    subst NodupKeys (sym e) (insert-NodupKeys (subject a) t' r.tasks n)
Changes-NodupKeys {r} {r'} {a} (replaced t t' _ _ e) n =
    subst NodupKeys (sym e) (insert-NodupKeys (subject a) t' r.tasks n)

Reach-NodupKeys : {r : JobRunner} → Reach r → NodupKeys r.tasks
Reach-NodupKeys (initial r e) = subst (λ (q : JobRunner). NodupKeys q.tasks) (sym e) tt
Reach-NodupKeys (next {r = s} {t = u} a reached h) =
    Changes-NodupKeys (step-Changes s u a h) (Reach-NodupKeys reached)

enabled :
    (r : JobRunner) (a : Action) (t t' : Task)
    → Dict.lookup (subject a) r.tasks ≡ some t
    → moved r a t ≡ some t'
    → (r' : JobRunner) × (step r a ≡ some r')
unfolding step settle
enabled r a t t' found m = (announce a t t'.job (put r (subject a) t'), rw (found, m) refl)

-- The actions by which a job gets on: entering the semaphore, entering the lock, and ending.
abbrev pub Advances : Action → Type 0
Advances (acquire_slot _) = Unit
Advances (acquire_lock _) = Unit
Advances (finish _ _) = Unit
Advances _ = ⊥

free_without_inside :
    (r : JobRunner) (t : Task) → count r.tasks is_inside ≡ 0 → lock_free r t ≡ true
unfolding lock_free
free_without_inside r t h = elim (Option-cases t.job.resource) [
  | inl e ↦ ground arith
  | inr (res, e) ↦ ground (arith, count-has_lock res r.tasks)
]

can_finish :
    (r : JobRunner) (id : String) (t : Task)
    → is_inside t ≡ true
    → moved r (finish id returned) t
      ≡ some (record t { phase = over; job = ended t.job t.cancel_requested returned })
unfolding moved
can_finish r id t h = ground arith

can_lock :
    (r : JobRunner) (id : String) (t : Task)
    → is_holding t ≡ true
    → lock_free r t ≡ true
    → moved r (acquire_lock id) t
      ≡ some (record t { phase = inside; job = record t.job { status = running } })
unfolding moved
can_lock r id t h free = ground arith

can_enter :
    (r : JobRunner) (id : String) (t : Task)
    → t.phase ≡ waiting
    → count r.tasks has_slot ≡ 0
    → moved r (acquire_slot id) t ≡ some (record t { phase = holding })
unfolding moved
can_enter r id t h room = ground arith

is_waiting :
    (t : Task) → t.phase ≢ over → is_inside t ≡ false → is_holding t ≡ false → t.phase ≡ waiting
is_waiting t h i k = ground arith

not_counted :
    (p : Task → Bool) (id : String) (t : Task) (tasks : Dict String Task)
    → Dict.lookup id tasks ≡ some t
    → count tasks p ≡ 0
    → p t ≡ false
not_counted p id t tasks found none' = elim (Bool-cases (p t)) [
  | inl yes' ↦ absurd (omega (arith, count-pos p id t tasks found yes'))
  | inr no' ↦ no'
]

-- From every reachable state with a job that has not ended, some job can enter the semaphore, enter
-- its lock, or end.
pub Reach-Advances :
    (r : JobRunner) (id : String) (t : Task)
    → Reach r
    → Dict.lookup id r.tasks ≡ some t
    → t.phase ≢ over
    → (a : Action) × (r' : JobRunner) × Advances a × (step r a ≡ some r')
Reach-Advances r id t reached found unfinished =
    elim (search_tasks is_inside r.tasks (Reach-NodupKeys reached)) [
      | inr (j, u, there, busy) ↦
          let (r', e) = enabled r (finish j returned) u _ there (can_finish r j u busy) in
          (finish j returned, r', tt, e)
      | inl idle ↦ elim (search_tasks is_holding r.tasks (Reach-NodupKeys reached)) [
        | inr (j, u, there, holds) ↦
            let free = free_without_inside r u idle in
            let (r', e) = enabled r (acquire_lock j) u _ there (can_lock r j u holds free) in
            (acquire_lock j, r', tt, e)
        | inl empty ↦
            let calm =
              is_waiting t unfinished (not_counted is_inside id t r.tasks found idle)
                (not_counted is_holding id t r.tasks found empty) in
            let room : count r.tasks has_slot ≡ 0 = omega (arith, count-has_slot r.tasks) in
            let (r', e) = enabled r (acquire_slot id) t _ found (can_enter r id t calm room) in
            (acquire_slot id, r', tt, e)
      ]
    ]
