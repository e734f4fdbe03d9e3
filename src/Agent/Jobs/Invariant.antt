-- ===== src/Agent/Jobs/Invariant.antt =====
-- What holds of every state that the runner can reach.
use nas_os.Common.{
  ◌≤◌, ◌<◌, String, Bool, true, false, Option, none, some, arith, ◌≡◌, refl, ◌⊎◌, inl, inr, ap, ◌∙◌,
  sym,
}
use nas_os.Common.{string_eq, option_eq, nat_eq, Bool-cases}
use mathlib.Core.Path.{subst}
use mathlib.Core.Option.{some-injective}
use nas_os.Common.Dict
use nas_os.Common.Dict.{Dict}
use nas_os.Common.Text.{truthy}
use nas_os.Agent.Jobs.{
  JobRunner, Task, JobRecord, waiting, Action, submit, request_cancel, progress, acquire_slot,
  acquire_lock, finish, subject, count, has_slot, has_lock, moved, announce, settle, act_unknown,
  lock_free, put, new_task, ended, step, step_on, Reach, initial, next, max_concurrency, returned,
  raised, Outcome,
}
use nas_os.Agent.Jobs.Count.{count-le_replaced, count-le_added}

-- At most four jobs hold a slot, and no two hold the lock of one resource.
pub record Inv (r : JobRunner) : Type 0 where
  pub slots : count r.tasks has_slot ≤ max_concurrency
  pub exclusive :
      (resource : String) → truthy (some resource) ≡ true → count r.tasks (has_lock resource) ≤ 1

slot_rule :
    (r : JobRunner) (a : Action) (t t' : Task)
    → moved r a t ≡ some t'
    → (has_slot t' ≡ has_slot t)
      ⊎ (has_slot t' ≡ false)
      ⊎ (count r.tasks has_slot < max_concurrency)
unfolding moved
slot_rule r (submit _ _ _ _) t t' h = cc
slot_rule r _ t t' h = ground arith

resource-ended :
    (job : JobRecord) (cancel : Bool) (o : Outcome) → (ended job cancel o).resource ≡ job.resource
unfolding ended
resource-ended job true returned = refl
resource-ended job false returned = refl
resource-ended job true (raised m) = refl
resource-ended job false (raised m) = refl

free_count :
    (resource : String) (r : JobRunner) (t : Task)
    → truthy (some resource) ≡ true
    → t.job.resource ≡ some resource
    → lock_free r t ≡ true
    → count r.tasks (has_lock resource) ≡ 0
unfolding lock_free
free_count resource r t e same free = ground arith

resource-has_lock :
    (resource : String) (t : Task) → has_lock resource t ≡ true → t.job.resource ≡ some resource
unfolding has_lock
resource-has_lock resource t h = ground arith

moved-acquire_lock :
    (id : String) (r : JobRunner) (t t' : Task)
    → moved r (acquire_lock id) t ≡ some t'
    → (lock_free r t ≡ true) × (t'.job.resource ≡ t.job.resource)
unfolding moved
moved-acquire_lock id r t t' h = ground arith

lock_rule :
    (resource : String) (r : JobRunner) (a : Action) (t t' : Task)
    → truthy (some resource) ≡ true
    → moved r a t ≡ some t'
    → (has_lock resource t' ≡ has_lock resource t)
      ⊎ (has_lock resource t' ≡ false)
      ⊎ (count r.tasks (has_lock resource) < 1)
unfolding moved has_lock
lock_rule resource r (submit _ _ _ _) t t' e h = cc
lock_rule resource r (request_cancel _) t t' e h = ground arith
lock_rule resource r (progress _ _ _ _) t t' e h = ground arith
lock_rule resource r (acquire_slot _) t t' e h = ground arith
lock_rule resource r (acquire_lock id) t t' e h =
    let (free, same) = moved-acquire_lock id r t t' h in
    elim (Bool-cases (has_lock resource t')) [
      | inl yes' ↦ inr (
          inr (
            omega (
              arith,
              free_count resource r t e (sym same ∙ resource-has_lock resource t' yes') free,
            )))
      | inr no' ↦ inr (inl no')
    ]
lock_rule resource r (finish _ _) t t' e h = ground arith

tasks-announce :
    (a : Action) (t : Task) (job : JobRecord) (r : JobRunner) → (announce a t job r).tasks ≡ r.tasks
unfolding announce
tasks-announce (submit _ _ _ _) t job r = refl
tasks-announce (progress _ _ _ now) t job r = ground arith
tasks-announce _ t job r = refl

-- A step changes one task by `moved`, adds one, or changes none.
pub data Changes (r r' : JobRunner) (a : Action) : Type 0 where
  none_changed : r' ≡ r → Changes r r' a
  added :
      (t' : Task)
      → Dict.lookup (subject a) r.tasks ≡ none
      → t'.phase ≡ waiting
      → r'.tasks ≡ Dict.insert (subject a) t' r.tasks
      → Changes r r' a
  replaced :
      (t t' : Task)
      → Dict.lookup (subject a) r.tasks ≡ some t
      → moved r a t ≡ some t'
      → r'.tasks ≡ Dict.insert (subject a) t' r.tasks
      → Changes r r' a

act_unknown-Changes :
    (r r' : JobRunner) (a : Action)
    → Dict.lookup (subject a) r.tasks ≡ none
    → act_unknown r a ≡ some r'
    → Changes r r' a
unfolding act_unknown
act_unknown-Changes r r' (submit id kind resource by) absent h =
    added (new_task id kind resource by) absent refl
      (ap (λ (q : JobRunner). q.tasks) (sym (some-injective _ _ h)))
act_unknown-Changes r r' (request_cancel id) absent h = none_changed (sym (some-injective _ _ h))
act_unknown-Changes r r' _ absent h = cc

settle-Changes :
    (r r' : JobRunner) (a : Action) (t : Task) (o : Option Task)
    → Dict.lookup (subject a) r.tasks ≡ some t
    → moved r a t ≡ o
    → settle r a t o ≡ some r'
    → Changes r r' a
unfolding settle
settle-Changes r r' a t none found e h = cc
settle-Changes r r' a t (some t') found e h = replaced t t' found e (
    ap (λ (q : JobRunner). q.tasks) (sym (some-injective _ _ h))
    ∙ tasks-announce a t t'.job (put r (subject a) t'))

pub step-Changes : (r r' : JobRunner) (a : Action) → step r a ≡ some r' → Changes r r' a
unfolding step
step-Changes r r' a h = go (Dict.lookup (subject a) r.tasks) refl h
  where
    go :
        (o : Option Task)
        → Dict.lookup (subject a) r.tasks ≡ o
        → step_on r a o ≡ some r'
        → Changes r r' a
    go none e k = act_unknown-Changes r r' a e k
    go (some t) e k = settle-Changes r r' a t (moved r a t) e refl k

waiting_no_lock : (res : String) (t : Task) → t.phase ≡ waiting → has_lock res t ≡ false
unfolding has_lock
waiting_no_lock res t w = ground arith

Changes-Inv : {r r' : JobRunner} {a : Action} → Changes r r' a → Inv r → Inv r'
Changes-Inv (none_changed e) i = subst Inv (sym e) i
Changes-Inv {r} {r'} {a} (added t' absent w e) i = record {
  slots =
      subst (λ ts. count ts has_slot ≤ max_concurrency) (sym e)
        (count-le_added has_slot (subject a) t' r.tasks max_concurrency absent i.slots (rw w));
  exclusive = λ res e'.
      subst (λ ts. count ts (has_lock res) ≤ 1) (sym e)
        (count-le_added (has_lock res) (subject a) t' r.tasks 1 absent (i.exclusive res e')
          (waiting_no_lock res t' w));
}
Changes-Inv {r} {r'} {a} (replaced t t' found m e) i = record {
  slots =
      subst (λ ts. count ts has_slot ≤ max_concurrency) (sym e)
        (count-le_replaced has_slot (subject a) t t' r.tasks max_concurrency found i.slots
          (slot_rule r a t t' m));
  exclusive = λ res e'.
      subst (λ ts. count ts (has_lock res) ≤ 1) (sym e)
        (count-le_replaced (has_lock res) (subject a) t t' r.tasks 1 found (i.exclusive res e')
          (lock_rule res r a t t' e' m));
}

-- In every state that the runner reaches at most four jobs are inside the semaphore, and for each
-- resource at most one job is inside its lock.
pub Reach-Inv : {r : JobRunner} → Reach r → Inv r
Reach-Inv (initial r e) =
    subst Inv (sym e) (record { slots = omega arith; exclusive = λ res e'. omega arith })
Reach-Inv (next {r = s} {t = u} a reached h) =
    Changes-Inv (step-Changes s u a h) (Reach-Inv reached)
