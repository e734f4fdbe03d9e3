-- ===== src/Common/Related.antt =====
-- Actions whose end state always stands in a reflexive and transitive relation to their start.
use mathlib.Core.Bool.{Bool, true, false}
use nas_os.Common.{Result, ok, err, if◌then◌else◌}
use nas_os.Common.Actions.{Action, and_then, ◌>>=◌, give, map_error}
use nas_os.Common.Errors.{Exc}

pub record Order (S : Type 0) : Type 1 where
  pub rel : S → S → Type 0
  pub reflexive : (s : S) → rel s s
  pub transitive : {s t u : S} → rel s t → rel t u → rel s u

module _ {S : Type 0} (r : Order S) where
  pub record IsRelated {A : Type 0} (action : Action S A) : Type 0 where
    pub related : (s : S) → r.rel s (action s).1

  pub give-IsRelated : {A : Type 0} (answer : Result Exc A) → IsRelated (give answer)
  give-IsRelated answer = record { related = r.reflexive }

  and_then-related :
      {A B : Type 0} (rest : A → Action S B) (before : S) (answer : Result Exc A × S)
      → r.rel before answer.1
      → ((a : A) → IsRelated (rest a))
      → r.rel before (and_then rest answer).1
  unfolding and_then
  and_then-related rest before (ok a, s) h q = r.transitive h ((q a).related s)
  and_then-related rest before (err e, s) h q = h

  pub bind-IsRelated :
      {A B : Type 0} (first : Action S A) (rest : A → Action S B)
      → IsRelated first
      → ((a : A) → IsRelated (rest a))
      → IsRelated (first >>= rest)
  unfolding ◌>>=◌
  bind-IsRelated first rest p q = record {
    related = λ s. and_then-related rest s (first s) (p.related s) q;
  }

  pub map_error-IsRelated :
      {A : Type 0} (f : Exc → Exc) (action : Action S A)
      → IsRelated action
      → IsRelated (map_error f action)
  unfolding map_error
  map_error-IsRelated f action p = record { related = p.related }

  pub if-IsRelated :
      {A : Type 0} (test : Bool) (first second : Action S A)
      → IsRelated first
      → IsRelated second
      → IsRelated (if test then first else second)
  if-IsRelated true first second p q = p
  if-IsRelated false first second p q = q
