-- ===== src/Events.antt =====
-- events/bus.py: the in-process fan-out of events to the queues of the subscribers.
pub mod Newest
use nas_os.Common.{
  ℕ, String, Option, none, some, List, [], ◌∷◌, ◌++◌, length, ltb, if◌then◌else◌, drop, string_eq,
  nat_eq,
}
use nas_os.Common.Dict
use nas_os.Common.Dict.{Dict}

-- `_QUEUE_MAXSIZE`
abbrev pub queue_maxsize : ℕ
queue_maxsize = 64

module _ {A : Type 0} where
  -- `put_nowait`: nothing for `QueueFull`.
  unfoldable pub put_nowait : A → List A → Option (List A)
  put_nowait x queue = if ltb (length queue) queue_maxsize then some (queue ++ (x ∷ [])) else none

  -- The queue after a `put_nowait` whose `QueueFull` is suppressed.
  unfoldable pub or_unchanged : List A → Option (List A) → List A
  or_unchanged queue none = queue
  or_unchanged queue (some queue') = queue'

  -- The body of the loop of `publish`: a full queue loses its oldest item.
  unfoldable pub offer : A → List A → List A
  unfolding put_nowait or_unchanged
  offer x queue =
      or_unchanged (or_unchanged (drop 1 queue) (put_nowait x (drop 1 queue))) (put_nowait x queue)

  -- The queues of a topic, each under the number of its subscriber.
  unfoldable pub offer_all : A → Dict ℕ (List A) → Dict ℕ (List A)
  offer_all x [] = []
  offer_all x ((subscriber, queue) ∷ queues) = (subscriber, offer x queue) ∷ offer_all x queues

module _ (A : Type 0) where
  -- `_subscribers`
  abbrev pub EventBus : Type 0
  EventBus = Dict String (Dict ℕ (List A))

module _ {A : Type 0} where
  unfoldable pub queues_of : Option (Dict ℕ (List A)) → Dict ℕ (List A)
  queues_of none = []
  queues_of (some queues) = queues

  -- `subscribe`, on entry and on exit.
  unfoldable pub subscribe : String → ℕ → EventBus A → EventBus A
  unfolding queues_of
  subscribe topic subscriber bus =
      Dict.insert topic (Dict.insert subscriber [] (queues_of (Dict.lookup topic bus))) bus

  unfoldable pub unsubscribe : String → ℕ → EventBus A → EventBus A
  unfolding queues_of
  unsubscribe topic subscriber bus =
      Dict.insert topic (Dict.erase subscriber (queues_of (Dict.lookup topic bus))) bus

  unfoldable pub publish_to : String → A → Option (Dict ℕ (List A)) → EventBus A → EventBus A
  unfolding offer_all
  publish_to topic x none bus = bus
  publish_to topic x (some queues) bus = Dict.insert topic (offer_all x queues) bus

  unfoldable pub publish : String → A → EventBus A → EventBus A
  unfolding publish_to
  publish topic x bus = publish_to topic x (Dict.lookup topic bus) bus

  -- A sequence of events, each with its topic.
  unfoldable pub publish_all : List (String × A) → EventBus A → EventBus A
  unfolding publish
  publish_all [] bus = bus
  publish_all ((topic, x) ∷ events) bus = publish_all events (publish topic x bus)
