-- ===== src/Common/Dict.antt =====
-- Python's `dict`: keys in insertion order. Proofs go by the laws; only tests unfold the operations.
use mathlib.Core.Path.{◌≡◌, refl, sym, ap, ◌∙◌}
use mathlib.Core.Bool.{Bool}
use mathlib.Core.Option.{Option, none, some}
use mathlib.Core.List.{List, [], ◌∷◌}
use native.Mathlib.Omega.{arith}
use mathlib.Core.Logic.{inl, inr}
use mathlib.Core.Option.{some-injective}
use nas_os.Common.{Eq, Bool-cases, ◌==◌, if◌then◌else◌}

abbrev pub Dict {ℓ κ} : Type ℓ → Type κ → Type (ℓ ⊔ κ)
Dict K V = List (K × V)

-- An optional value that passes a test.
abbrev pub passing {ℓ} : {V : Type ℓ} → (V → Bool) → Option V → Option V
passing p none = none
passing p (some v) = if p v then some v else none

module _ {ℓ κ} {K : Type ℓ} {V : Type κ} ⦃e : Eq K⦄ where
  -- `d.get(k)`
  unfoldable pub lookup : K → Dict K V → Option V
  lookup k [] = none
  lookup k ((j, w) ∷ d) = if k == j then some w else lookup k d

  -- `d[k] = v`
  unfoldable pub insert : K → V → Dict K V → Dict K V
  insert k v [] = (k, v) ∷ []
  insert k v ((j, w) ∷ d) = if k == j then (k, v) ∷ d else (j, w) ∷ insert k v d

  -- `d.pop(k, None)`. Every entry of the key goes; a real dict has at most one.
  unfoldable pub erase : K → Dict K V → Dict K V
  erase k [] = []
  erase k ((j, w) ∷ d) = let rest = erase k d in if k == j then rest else (j, w) ∷ rest

  pub lookup-nil : (k : K) → lookup k [] ≡ none
  unfolding lookup
  lookup-nil k = refl

  pub lookup-cons :
      (j k : K) (v : V) (d : Dict K V)
      → lookup j ((k, v) ∷ d) ≡ (if j == k then some v else lookup j d)
  unfolding lookup
  lookup-cons j k v d = refl

  pub lookup-insert :
      (j k : K) (v : V) (d : Dict K V)
      → lookup j (insert k v d) ≡ (if j == k then some v else lookup j d)
  unfolding insert lookup
  lookup-insert j k v [] = lookup-cons j k v []
  lookup-insert j k v (_ ∷ d) = ground (arith, lookup-insert j k v d)

  pub lookup-insert_same : (k : K) (v : V) (d : Dict K V) → lookup k (insert k v d) ≡ some v
  lookup-insert_same k v d = ground (arith, lookup-insert k k v d)

  -- A key that is given the value that it has.
  pub insert_same : (k : K) (v : V) (d : Dict K V) → lookup k d ≡ some v → insert k v d ≡ d
  unfolding insert lookup
  insert_same k v [] h = cc
  insert_same k v ((j, w) ∷ d) h = elim (Bool-cases (k == j)) [
    | inl e ↦
        let key : k ≡ j = ground arith in
        let val : w ≡ v = some-injective _ _ (rw e at h) in
        rw e (ap (λ x. (x, v) ∷ d) key ∙ ap (λ x. (j, x) ∷ d) (sym val))
    | inr e ↦ rw e (ap (◌∷◌ (j, w)) (insert_same k v d (rw e at h)))
  ]

  pub lookup-erase :
      (j k : K) (d : Dict K V) → lookup j (erase k d) ≡ (if j == k then none else lookup j d)
  unfolding erase lookup
  lookup-erase j k [] = ground arith
  lookup-erase j k (_ ∷ d) = ground (arith, lookup-erase j k d)

  abbrev pub NodupKeys : Dict K V → Type κ
  NodupKeys [] = Unit
  NodupKeys ((k, _) ∷ d) = (lookup k d ≡ none) × NodupKeys d

  -- The entries whose value passes a test.
  unfoldable pub keep : (V → Bool) → Dict K V → Dict K V
  keep p [] = []
  keep p ((k, v) ∷ d) = let rest = keep p d in if p v then (k, v) ∷ rest else rest

  pub lookup-keep_of_absent :
      (p : V → Bool) (k : K) (d : Dict K V) → lookup k d ≡ none → lookup k (keep p d) ≡ none
  unfolding lookup keep
  lookup-keep_of_absent p k [] h = refl
  lookup-keep_of_absent p k ((j, v) ∷ d) h = ground (arith, lookup-keep_of_absent p k d)

  pub lookup-keep :
      (p : V → Bool) (k : K) (d : Dict K V)
      → NodupKeys d
      → lookup k (keep p d) ≡ passing p (lookup k d)
  unfolding lookup keep
  lookup-keep p k [] u = refl
  lookup-keep p k ((j, v) ∷ d) (fresh, u) =
      ground (arith, lookup-keep p k d u, lookup-keep_of_absent p k d)

  pub keep-NodupKeys : (p : V → Bool) (d : Dict K V) → NodupKeys d → NodupKeys (keep p d)
  unfolding keep
  keep-NodupKeys p [] u = tt
  keep-NodupKeys p ((j, v) ∷ d) (fresh, u) =
      ground (arith, keep-NodupKeys p d u, lookup-keep_of_absent p j d fresh)

  pub insert-NodupKeys : (k : K) (v : V) (d : Dict K V) → NodupKeys d → NodupKeys (insert k v d)
  unfolding insert
  insert-NodupKeys k v [] _ = (lookup-nil k, tt)
  insert-NodupKeys k v ((j, _) ∷ d) (fresh, u) =
      ground (arith, insert-NodupKeys k v d u, lookup-insert j k v d)

  pub erase-NodupKeys : (k : K) (d : Dict K V) → NodupKeys d → NodupKeys (erase k d)
  unfolding erase
  erase-NodupKeys k [] _ = tt
  erase-NodupKeys k ((j, _) ∷ d) (fresh, u) =
      ground (arith, erase-NodupKeys k d u, lookup-erase j k d)
