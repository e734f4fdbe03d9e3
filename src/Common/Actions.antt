-- ===== src/Common/Actions.antt =====
-- Code that changes a state and may raise: `do` runs the parts in order and stops at an exception,
-- which leaves the state as it is by then.
use mathlib.Core.Path.{◌≡◌, refl, ap}
use mathlib.Core.Bool.{false}
use nas_os.Common.{Result, ok, err, succeeds}
use nas_os.Common.Errors.{Exc}

abbrev pub Action : Type 0 → Type 0 → Type 0
Action S A = S → Result Exc A × S

module _ {S A B : Type 0} where
  unfoldable pub and_then : (A → Action S B) → Result Exc A × S → Result Exc B × S
  and_then rest (ok a, s) = rest a s
  and_then rest (err e, s) = (err e, s)

  infixl 5 ◌>>=◌
  unfoldable pub ◌>>=◌ : Action S A → (A → Action S B) → Action S B
  unfolding and_then
  (first >>= rest) s = and_then rest (first s)

module _ {A : Type 0} where
  abbrev pub renamed : (Exc → Exc) → Result Exc A → Result Exc A
  renamed f (ok a) = ok a
  renamed f (err e) = err (f e)

module _ {S A : Type 0} where
  abbrev pub give : Result Exc A → Action S A
  give r s = (r, s)

  -- `except E as exc: raise F(…) from exc`
  unfoldable pub map_error : (Exc → Exc) → Action S A → Action S A
  map_error f action s = (renamed f (action s).0, (action s).1)

module _ {S A : Type 0} where
  pub map_error-ok :
      (f : Exc → Exc) (action : Action S A) (s : S) {a : A}
      → (map_error f action s).0 ≡ ok a
      → (action s).0 ≡ ok a
  unfolding map_error
  map_error-ok f action s {a} h = of_renamed (action s).0 h
    where
      of_renamed : (r : Result Exc A) → renamed f r ≡ ok a → r ≡ ok a
      of_renamed (ok b) e = e
      of_renamed (err e) g = cc

module _ {S A B : Type 0} where
  and_then-ok :
      (rest : A → Action S B) (answer : Result Exc A × S) {b : B}
      → (and_then rest answer).0 ≡ ok b
      → (a : A) × (answer.0 ≡ ok a)
        × ((rest a answer.1).0 ≡ ok b)
        × (and_then rest answer ≡ rest a answer.1)
  unfolding and_then
  and_then-ok rest (ok a, s) h = (a, refl, h, refl)
  and_then-ok rest (err e, s) h = cc

  -- A chain that returned: what its first part returned, and that the rest ran from there.
  pub bind-ok :
      (first : Action S A) (rest : A → Action S B) (s : S) {b : B}
      → ((first >>= rest) s).0 ≡ ok b
      → (a : A) × ((first s).0 ≡ ok a)
        × ((rest a (first s).1).0 ≡ ok b)
        × ((first >>= rest) s ≡ rest a (first s).1)
  unfolding ◌>>=◌
  bind-ok first rest s h = and_then-ok rest (first s) h

  and_then-failed :
      (rest : A → Action S B) (answer : Result Exc A × S)
      → succeeds answer.0 ≡ false
      → (succeeds (and_then rest answer).0 ≡ false) × ((and_then rest answer).1 ≡ answer.1)
  unfolding and_then
  and_then-failed rest (ok a, s) h = cc
  and_then-failed rest (err e, s) h = (refl, refl)

  -- A chain whose first part raised stops there.
  pub bind-failed :
      (first : Action S A) (rest : A → Action S B) (s : S)
      → succeeds (first s).0 ≡ false
      → (succeeds ((first >>= rest) s).0 ≡ false) × (((first >>= rest) s).1 ≡ (first s).1)
  unfolding ◌>>=◌
  bind-failed first rest s h = and_then-failed rest (first s) h

  pub bind-eq :
      (first : Action S A) (rest : A → Action S B) (s : S) {a : A}
      → (first s).0 ≡ ok a
      → (first >>= rest) s ≡ rest a (first s).1
  unfolding ◌>>=◌ and_then
  bind-eq first rest s h = rw h refl

  pub bind-err :
      (first : Action S A) (rest : A → Action S B) (s : S) {e : Exc}
      → (first s).0 ≡ err e
      → (first >>= rest) s ≡ (err e, (first s).1)
  unfolding ◌>>=◌ and_then
  bind-err first rest s h = rw h refl

module _ {S A : Type 0} where
  pub map_error-eq :
      (f : Exc → Exc) (action : Action S A) (s : S) {r : Result Exc A}
      → (action s).0 ≡ r
      → (map_error f action s).0 ≡ renamed f r
  unfolding map_error
  map_error-eq f action s h = ap (renamed f) h

  pub state-map_error :
      (f : Exc → Exc) (action : Action S A) (s : S) → (map_error f action s).1 ≡ (action s).1
  unfolding map_error
  state-map_error f action s = refl

module _ {S A B : Type 0} where
  and_then-give :
      (f : A → Result Exc B) (answer : Result Exc A × S)
      → (and_then (λ a. give (f a)) answer).1 ≡ answer.1
  unfolding and_then
  and_then-give f (ok a, s) = refl
  and_then-give f (err e, s) = refl

  -- What is only returned at the end leaves the state.
  pub state-bind-give :
      (action : Action S A) (f : A → Result Exc B) (s : S)
      → ((action >>= (λ a. give (f a))) s).1 ≡ (action s).1
  unfolding ◌>>=◌
  state-bind-give action f s = and_then-give f (action s)
