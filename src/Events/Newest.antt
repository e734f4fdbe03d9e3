-- ===== src/Events/Newest.antt =====
-- What a subscriber finds in its queue.
use nas_os.Common.{
  ℕ, zero, suc, ◌+◌, ◌-◌, ◌≤◌, ◌<◌, String, Option, none, some, List, [], ◌∷◌, ◌++◌, length, ltb,
  drop, length-append, ◌≡◌, refl, sym, ap, ◌∙◌, arith, if◌then◌else◌, ◌==◌, string_eq, nat_eq,
  Option-cases, Bool-cases, false, ◌⊎◌, inl, inr,
}
use mathlib.Core.List.{append-nil, append_assoc}
use nas_os.Common.Dict
use nas_os.Common.Dict.{Dict, lookup-insert}
use nas_os.Events.{
  queue_maxsize, put_nowait, or_unchanged, offer, offer_all, EventBus, publish, publish_to,
  publish_all,
}

module _ {A : Type 0} where
  -- The last `queue_maxsize` items.
  unfoldable pub newest : List A → List A
  newest xs = drop (length xs - queue_maxsize) xs

  drop-append : (n : ℕ) (xs ys : List A) → n ≤ length xs → drop n (xs ++ ys) ≡ drop n xs ++ ys
  drop-append zero xs ys h = refl
  drop-append (suc n) [] ys h = ground arith
  drop-append (suc n) (x ∷ xs) ys h = drop-append n xs ys (omega (arith, h))

  drop-nil : (n : ℕ) → [] ≡ drop {A = A} n []
  drop-nil zero = refl
  drop-nil (suc n) = refl

  drop-drop : (m n : ℕ) (xs : List A) → drop m (drop n xs) ≡ drop (n + m) xs
  drop-drop m zero xs = ap (λ k. drop k xs) {x = m} {y = 0 + m} (omega arith)
  drop-drop zero (suc n) [] = drop-nil (suc n + 0)
  drop-drop (suc m) (suc n) [] = drop-nil (suc n + suc m)
  drop-drop m (suc n) (x ∷ xs) =
      drop-drop m n xs ∙ ap (λ k. drop k (x ∷ xs)) {x = suc (n + m)} {y = suc n + m} (omega arith)

  length-drop : (n : ℕ) (xs : List A) → length (drop n xs) ≡ length xs - n
  length-drop zero xs = omega arith
  length-drop (suc n) [] = omega arith
  length-drop (suc n) (x ∷ xs) = omega (arith, length-drop n xs)

  put_nowait-eq :
      (x : A) (queue : List A)
      → ((length queue < queue_maxsize) × (put_nowait x queue ≡ some (queue ++ (x ∷ []))))
        ⊎ ((queue_maxsize ≤ length queue) × (put_nowait x queue ≡ none))
  unfolding put_nowait
  put_nowait-eq x queue = elim (Bool-cases (ltb (length queue) queue_maxsize)) [
    | inl e ↦ inl (ground arith, rw e refl)
    | inr e ↦ inr (ground arith, rw e refl)
  ]

  offer-room :
      (x : A) (queue : List A) → length queue < queue_maxsize → offer x queue ≡ queue ++ (x ∷ [])
  unfolding offer or_unchanged
  offer-room x queue h = elim (put_nowait-eq x queue) [
    | inl (_, e) ↦ rw e refl
    | inr (l, _) ↦ ground arith
  ]

  offer-full :
      (x : A) (queue : List A)
      → length queue ≡ queue_maxsize
      → offer x queue ≡ drop 1 queue ++ (x ∷ [])
  unfolding offer or_unchanged
  offer-full x queue h = elim (put_nowait-eq x queue) [
    | inl (l, _) ↦ ground arith
    | inr (_, e) ↦ elim (put_nowait-eq x (drop 1 queue)) [
      | inl (_, e') ↦ rw (e, e') refl
      | inr (l, _) ↦ ground (arith, length-drop 1 queue)
    ]
  ]

  newest-short : (xs : List A) → length xs ≤ queue_maxsize → newest xs ≡ xs
  unfolding newest
  newest-short xs h = ap (λ n. drop n xs) {x = length xs - queue_maxsize} {y = 0} (omega (arith, h))

  newest-long :
      (x : A) (xs : List A)
      → queue_maxsize ≤ length xs
      → drop 1 (newest xs) ++ (x ∷ []) ≡ newest (xs ++ (x ∷ []))
  unfolding newest
  newest-long x xs h =
      ap (λ ys. ys ++ (x ∷ [])) (drop-drop 1 (length xs - queue_maxsize) xs)
      ∙ sym (drop-append (length xs - queue_maxsize + 1) xs (x ∷ []) (omega (arith, h)))
      ∙ ap (λ n. drop n (xs ++ (x ∷ []))) {x = length xs - queue_maxsize + 1}
          {y = length (xs ++ (x ∷ [])) - queue_maxsize}
          (omega (arith, h, length-append xs (x ∷ [])))

  length-newest : (xs : List A) → queue_maxsize ≤ length xs → length (newest xs) ≡ queue_maxsize
  unfolding newest
  length-newest xs h = omega (arith, h, length-drop (length xs - queue_maxsize) xs)

  -- Offering an item to the newest of a history gives the newest of the longer history.
  pub offer-newest : (x : A) (xs : List A) → offer x (newest xs) ≡ newest (xs ++ (x ∷ []))
  offer-newest x xs = elim (Bool-cases (ltb (length xs) queue_maxsize)) [
    | inl e ↦
        let short : length xs < queue_maxsize = ground arith in
        rw (newest-short xs (omega (arith, short))) (
          offer-room x xs short
          ∙ sym (newest-short (xs ++ (x ∷ [])) (omega (arith, short, length-append xs (x ∷ [])))))
    | inr e ↦
        let long : queue_maxsize ≤ length xs = ground arith in
        offer-full x (newest xs) (length-newest xs long) ∙ newest-long x xs long
  ]

  -- The items of a topic, in a sequence of events.
  unfoldable pub items_of : String → List (String × A) → List A
  items_of topic [] = []
  items_of topic ((other, x) ∷ events) =
      (if topic == other then x ∷ [] else []) ++ items_of topic events

  -- The queue of a subscriber of a topic.
  unfoldable pub queue_in : ℕ → Option (Dict ℕ (List A)) → Option (List A)
  queue_in subscriber none = none
  queue_in subscriber (some queues) = Dict.lookup subscriber queues

  abbrev pub queue_at : String → ℕ → EventBus A → Option (List A)
  queue_at topic subscriber bus = queue_in subscriber (Dict.lookup topic bus)

  abbrev offered : A → Option (List A) → Option (List A)
  offered x none = none
  offered x (some queue) = some (offer x queue)

  lookup-offer_all :
      (x : A) (subscriber : ℕ) (queues : Dict ℕ (List A))
      → Dict.lookup subscriber (offer_all x queues) ≡ offered x (Dict.lookup subscriber queues)
  unfolding offer_all Dict.lookup
  lookup-offer_all x subscriber [] = refl
  lookup-offer_all x subscriber ((other, queue) ∷ queues) =
      ground (arith, lookup-offer_all x subscriber queues)

  queue_at-publish_same :
      (topic : String) (x : A) (subscriber : ℕ) (bus : EventBus A)
      → queue_at topic subscriber (publish topic x bus) ≡ offered x (queue_at topic subscriber bus)
  unfolding publish publish_to queue_in
  queue_at-publish_same topic x subscriber bus = elim (Option-cases (Dict.lookup topic bus)) [
    | inl e ↦ ground (arith, e)
    | inr (queues, e) ↦ ground (
      arith,
      e,
      lookup-insert topic topic (offer_all x queues) bus,
      lookup-offer_all x subscriber queues,
    )
  ]

  queue_at-publish_other :
      (topic other : String) (x : A) (subscriber : ℕ) (bus : EventBus A)
      → (topic == other) ≡ false
      → queue_at topic subscriber (publish other x bus) ≡ queue_at topic subscriber bus
  unfolding publish publish_to
  queue_at-publish_other topic other x subscriber bus h =
      elim (Option-cases (Dict.lookup other bus)) [
        | inl e ↦ rw e refl
        | inr (queues, e) ↦ rw (e, lookup-insert topic other (offer_all x queues) bus, h) refl
      ]

  queue_at-publish :
      (topic other : String) (x : A) (subscriber : ℕ) (history : List A) (bus : EventBus A)
      → queue_at topic subscriber bus ≡ some (newest history)
      → queue_at topic subscriber (publish other x bus)
        ≡ some (newest (history ++ (if topic == other then x ∷ [] else [])))
  queue_at-publish topic other x subscriber history bus h = elim (Bool-cases (topic == other)) [
    | inl e ↦
        let same : topic ≡ other = ground arith in
        rw (e, sym same)
          (queue_at-publish_same topic x subscriber bus ∙ rw h (ap some (offer-newest x history)))
    | inr e ↦ rw (e, append-nil history) (queue_at-publish_other topic other x subscriber bus e ∙ h)
  ]

  -- A subscriber whose queue holds the newest 64 items of a history then holds, after any sequence
  -- of events on any topics, the newest 64 items of that history followed by the events of its own
  -- topic, in order; with an empty history it is a subscriber that has just come.
  pub queue_at-publish_all :
      (topic : String) (subscriber : ℕ) (events : List (String × A)) (history : List A)
      (bus : EventBus A)
      → queue_at topic subscriber bus ≡ some (newest history)
      → queue_at topic subscriber (publish_all events bus)
        ≡ some (newest (history ++ items_of topic events))
  unfolding publish_all items_of
  queue_at-publish_all topic subscriber [] history bus h = rw (append-nil history) h
  queue_at-publish_all topic subscriber ((other, x) ∷ events) history bus h =
      queue_at-publish_all topic subscriber events
        (history ++ (if topic == other then x ∷ [] else [])) (publish other x bus)
        (queue_at-publish topic other x subscriber history bus h)
      ∙ ap (λ xs. some (newest xs))
          (append_assoc history (if topic == other then x ∷ [] else []) (items_of topic events))
