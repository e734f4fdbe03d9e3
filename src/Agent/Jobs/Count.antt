-- ===== src/Agent/Jobs/Count.antt =====
-- Counting the tasks of a runner across an update of one of them.
use nas_os.Common.{
  ℕ, ◌+◌, ◌≤◌, ◌<◌, String, Bool, true, false, none, some, [], ◌∷◌, arith, ◌≡◌, ◌⊎◌, inl, inr,
}
use nas_os.Common.{string_eq, if◌then◌else◌}
use nas_os.Common.Dict
use nas_os.Common.Dict.{Dict}
use nas_os.Agent.Jobs.{Task, count}

abbrev pub one_if : Bool → ℕ
one_if b = if b then 1 else 0

-- A task that changes counts as what it is afterwards.
pub count-insert_present :
    (p : Task → Bool) (id : String) (t t' : Task) (tasks : Dict String Task)
    → Dict.lookup id tasks ≡ some t
    → count (Dict.insert id t' tasks) p + one_if (p t) ≡ count tasks p + one_if (p t')
unfolding Dict.lookup Dict.insert
count-insert_present p id t t' [] h = cc
count-insert_present p id t t' ((j, u) ∷ tasks) h =
    ground (arith, count-insert_present p id t t' tasks)

pub count-insert_absent :
    (p : Task → Bool) (id : String) (t' : Task) (tasks : Dict String Task)
    → Dict.lookup id tasks ≡ none
    → count (Dict.insert id t' tasks) p ≡ count tasks p + one_if (p t')
unfolding Dict.lookup Dict.insert
count-insert_absent p id t' [] h = omega arith
count-insert_absent p id t' ((j, u) ∷ tasks) h = ground (arith, count-insert_absent p id t' tasks)

-- A task that is there and passes is counted.
pub count-pos :
    (p : Task → Bool) (id : String) (t : Task) (tasks : Dict String Task)
    → Dict.lookup id tasks ≡ some t
    → p t ≡ true
    → 0 < count tasks p
unfolding Dict.lookup
count-pos p id t [] h e = cc
count-pos p id t ((j, u) ∷ tasks) h e = ground (arith, count-pos p id t tasks)

-- A count that was within a bound stays so, if the task counted before, does not count now, or
-- found room below the bound.
pub count-le_replaced :
    (p : Task → Bool) (id : String) (t t' : Task) (tasks : Dict String Task) (b : ℕ)
    → Dict.lookup id tasks ≡ some t
    → count tasks p ≤ b
    → (p t' ≡ p t) ⊎ (p t' ≡ false) ⊎ (count tasks p < b)
    → count (Dict.insert id t' tasks) p ≤ b
count-le_replaced p id t t' tasks b found le rule =
    let balance = count-insert_present p id t t' tasks found in
    elim rule [
      | inl same ↦ omega (arith, rw same at balance)
      | inr (inl gone) ↦ omega (arith, rw gone at balance)
      | inr (inr room) ↦ ground arith
    ]

pub count-le_added :
    (p : Task → Bool) (id : String) (t' : Task) (tasks : Dict String Task) (b : ℕ)
    → Dict.lookup id tasks ≡ none
    → count tasks p ≤ b
    → p t' ≡ false
    → count (Dict.insert id t' tasks) p ≤ b
count-le_added p id t' tasks b absent le gone =
    omega (arith, rw gone at (count-insert_absent p id t' tasks absent))
