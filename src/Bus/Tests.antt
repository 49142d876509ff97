-- ===== src/Bus/Tests.antt =====
-- A bus with a subscription to "a" and one to "#", and the properties there.
use livio_ark.Prelude.{
  zero, suc, ◌%◌, ◌≤◌, ◌<◌, get_elem?, ℕ, ◌+◌, ◌≡◌, refl, Bool, false, List, [], ◌∷◌, Option, none,
  some, Bytes, if◌then◌else◌, tally, ◌==◌, arith,
}
use livio_ark.Levels.{hash, split_levels}
use livio_ark.Topic.{is_wildcard}
use livio_ark.Registry.{add_topic, resolve_slow, resolve, find_topic}
use livio_ark.Slot.{Outcome, threw}
use livio_ark.Slot.Laws.{logged}
use livio_ark.Bus.Subscribing.{
  Subscriptions, Result, ok, type_mismatch, checked_slot, create_slot, get_or_create_slot,
  hash_inside, subscribe_wildcard, add_to_slot, subscribe_exact, subscribe, unsubscribe,
}
use livio_ark.Bus.Subscribing
use livio_ark.Bus.Live.{Sub, find_sub, Represents}
use livio_ark.Bus.Adding.{Subscribed}
use livio_ark.Bus.Patterns.{new_sub, subscribe-Represents}
use livio_ark.Bus.Dropping.{drop}
use livio_ark.Bus.Unsubscribing.{unsubscribe-Represents}
use livio_ark.Bus.Dispatching.{Message, dispatch_message}
use livio_ark.Bus.Found.{receives}
use livio_ark.Bus.Delivery.{dispatch_message-calls}
use livio_ark.Bus.History.{Call, subscribes, unsubscribes, run, live_run, run-Represents}
use livio_ark.Queue
use livio_ark.Queue.{Queue}
use livio_ark.Bus.Draining.{drain}
use livio_ark.Bus.Drained.{share, drain-calls}
use livio_ark.Bus.Typing.{new_subscriptions, new-Represents, subscribe-type}

-- "a" and "#"
abbrev plain_topic : Bytes
plain_topic = 97 ∷ []

abbrev pattern : Bytes
pattern = hash ∷ []

abbrev first_bus : Subscriptions
first_bus = (subscribe plain_topic 7 10 new_subscriptions).0

abbrev first_sub : Sub
first_sub = new_sub plain_topic 7 10 new_subscriptions

abbrev second_bus : Subscriptions
second_bus = (subscribe pattern 7 20 first_bus).0

abbrev second_sub : Sub
second_sub = new_sub pattern 7 20 first_bus

-- The ids that are used up, and the id of "a".
first_bus_ids : (first_bus.next_id ≡ 1) × (first_bus.registry.next_id ≡ 2)
unfolding subscribe is_wildcard subscribe_wildcard hash_inside subscribe_exact add_to_slot
    get_or_create_slot create_slot resolve resolve_slow add_topic
first_bus_ids = (refl, refl)

second_bus_ids : (second_bus.next_id ≡ 2) × (second_bus.registry.next_id ≡ 2)
unfolding subscribe is_wildcard subscribe_wildcard hash_inside subscribe_exact add_to_slot
    get_or_create_slot create_slot resolve resolve_slow add_topic
second_bus_ids = (refl, refl)

second_bus_topic : find_topic plain_topic second_bus.registry ≡ some 1
unfolding subscribe is_wildcard subscribe_wildcard hash_inside subscribe_exact add_to_slot
    get_or_create_slot create_slot resolve resolve_slow add_topic livio_ark.Prelude.Bytes-discrete
second_bus_topic = refl

first-Represents : Represents (first_sub ∷ []) first_bus
unfolding Subscribed subscribe is_wildcard subscribe_exact add_to_slot get_or_create_slot
    create_slot
first-Represents =
    (subscribe-Represents [] plain_topic 7 10 new_subscriptions (omega arith) (omega arith)
      new-Represents).1

subscribe-Represents_example :
    Subscribed (first_sub ∷ []) second_sub (subscribe pattern 7 20 first_bus)
subscribe-Represents_example =
    subscribe-Represents (first_sub ∷ []) pattern 7 20 first_bus (omega (arith, first_bus_ids.0))
      (omega (arith, first_bus_ids.1)) first-Represents

second-Represents : Represents (first_sub ∷ second_sub ∷ []) second_bus
unfolding Subscribed subscribe is_wildcard subscribe_wildcard hash_inside
second-Represents =
    (subscribe-Represents (first_sub ∷ []) pattern 7 20 first_bus (omega (arith, first_bus_ids.0))
      (omega (arith, first_bus_ids.1)) first-Represents).1

unsubscribe-Represents_example :
    Represents (drop 1 (first_sub ∷ second_sub ∷ [])) (unsubscribe 1 second_bus)
unsubscribe-Represents_example =
    unsubscribe-Represents (first_sub ∷ second_sub ∷ []) 1 second_bus second-Represents

-- Another type for "a".
subscribe-type_example : (subscribe plain_topic 8 30 second_bus).1 ≡ Subscribing.threw type_mismatch
subscribe-type_example =
    subscribe-type (first_sub ∷ second_sub ∷ []) second_bus 1 8 30 first_sub
      (omega (arith, second_bus_ids.0)) (omega (arith, second_bus_ids.1)) second-Represents
      (unfold find_sub in refl) (unfold is_wildcard in refl)

abbrev message : Message
message = record { topic_id = 1; topic_sv = plain_topic; type = 7; data_ = 5; on_drop_ = none }

-- Handlers that throw.
abbrev body : ℕ → ℕ → Subscriptions → Outcome × Subscriptions
body h payload s = (threw, s)

dispatch_message-calls_example :
    (w : Subscriptions × List (ℕ × ℕ)) × (dispatch_message
        (λ (x : Subscriptions × List (ℕ × ℕ)). x.0)
        (logged body)
        message
        (second_bus, [])
      ≡ some w)
    × (w.0 ≡ second_bus)
    × ((g : ℕ × ℕ → ℕ)
        → tally g w.1
          ≡ 0
            + tally
                (λ u. if receives plain_topic 7 u then g (u.handler, 5) else 0)
                (first_sub ∷ second_sub ∷ []))
dispatch_message-calls_example =
    dispatch_message-calls (λ s. s) body (λ h payload s. refl) (first_sub ∷ second_sub ∷ []) message
      second_bus [] second-Represents second_bus_topic
      (unfold split_levels in (λ e. cc, λ e. cc, tt))

-- Both subscriptions, one of another type that is refused, and the end of the first.
abbrev calls : List Call
calls =
    subscribes plain_topic 7 10
    ∷ subscribes pattern 7 20
    ∷ subscribes plain_topic 8 30
    ∷ unsubscribes 1
    ∷ []

run-Represents_example :
    Represents (live_run [] new_subscriptions calls) (run new_subscriptions calls)
run-Represents_example = run-Represents calls (omega arith)

-- A queue of two cells with the message in it.
abbrev one_queued : Queue Message
one_queued = record {
  capacity = 2;
  mask = 1;
  buffer = λ i.
      if i == 0
      then record { sequence = 1; value = some message }
      else record { sequence = i; value = none };
  enqueue_pos = 1;
  dequeue_pos = 0;
}

one-filled :
    (i : ℕ) (x : Message)
    → get_elem? (message ∷ []) i ≡ some x
    → one_queued.buffer ((0 + i) % 2) ≡ record { sequence = 0 + i + 1; value = some x }
one-filled zero x e = ground arith
one-filled (suc i) x e = absurd (ground arith)

one-free : (i : ℕ) → 1 ≤ i → i < 2 → (one_queued.buffer ((0 + i) % 2)).sequence ≡ 0 + i
one-free zero le lt = absurd (omega arith)
one-free (suc zero) le lt = refl
one-free (suc (suc i)) le lt = absurd (omega arith)

one-Holds : Queue.Fifo.Holds (message ∷ []) one_queued
one-Holds = record {
  exponent = 1;
  sized = refl;
  two = omega arith;
  masked = refl;
  tail = refl;
  fits = omega arith;
  filled = one-filled;
  free = one-free;
}

-- Handlers that throw, beside the queue.
abbrev queue_body :
    ℕ → ℕ → Queue Message × Subscriptions → Outcome × (Queue Message × Subscriptions)
queue_body h payload v = (threw, v)

drain-calls_example :
    (w : (Queue Message × Subscriptions) × List (ℕ × ℕ)) × (drain
        (λ x. x.0.1)
        (λ x. x.0.0)
        (λ q x. ((q, x.0.1), x.1))
        (logged queue_body)
        2
        ((one_queued, second_bus), [])
      ≡ some w)
    × Queue.Fifo.Holds [] w.0.0
    × ((g : ℕ × ℕ → ℕ)
        → tally g w.1 ≡ 0 + tally (share g (first_sub ∷ second_sub ∷ [])) (message ∷ []))
drain-calls_example =
    drain-calls (λ s. s) queue_body (λ h payload v. refl) (λ h payload v. refl) (message ∷ [])
      (first_sub ∷ second_sub ∷ []) (one_queued, second_bus) [] second-Represents one-Holds
      (omega arith) (second_bus_topic, unfold split_levels in (λ e. cc, λ e. cc, tt), tt)
