-- ===== src/Bus/History.antt =====
-- The bus after any sequence of `subscribe` and `unsubscribe` calls.
use livio_ark.Prelude.{
  ℕ, ◌+◌, ◌%◌, ◌≤◌, ◌<◌, ◌≡◌, inl, inr, Bool-cases, Option-cases, List, [], ◌∷◌, ◌++◌, Bytes,
  length, ℕ_discrete, find, arith,
}
use livio_ark.Topic.{is_wildcard}
use livio_ark.Registry.{Registry, topic_ids, resolve}
use livio_ark.Registry.Laws.{HasRoom, resolve-eq-resolve_slow, resolve_slow-next_id}
use livio_ark.Slot.{Slot}
use livio_ark.Bus.Subscribing.{
  Subscriptions, subscription_ids, Result, ok, threw, get_or_create_slot, hash_inside,
  subscribe_wildcard, add_to_slot, subscribe_exact, subscribe, remove_sub, unsubscribe,
}
use livio_ark.Bus.Live.{Sub, Represents}
use livio_ark.Bus.Adding.{Subscribed}
use livio_ark.Bus.Patterns.{new_sub, subscribe-Represents}
use livio_ark.Bus.Dropping.{drop}
use livio_ark.Bus.Unsubscribing.{unsubscribe-Represents}
use livio_ark.Bus.Typing.{new_subscriptions, new-Represents}

pub data Call : Type 0 where
  subscribes : Bytes → ℕ → ℕ → Call
  unsubscribes : ℕ → Call

abbrev pub step : Subscriptions → Call → Subscriptions
step s (subscribes topic type handler) = (subscribe topic type handler s).0
step s (unsubscribes id) = unsubscribe id s

pub run : Subscriptions → List Call → Subscriptions
run s [] = s
run s (c ∷ cs) = run (step s c) cs

-- What the list of live subscriptions is by the results that the callers saw.
unfoldable pub joined : List Sub → Sub → Result ℕ → List Sub
joined live u (ok id) = live ++ u ∷ []
joined live u (threw e) = live

abbrev pub live_step : List Sub → Subscriptions → Call → List Sub
live_step live s (subscribes topic type handler) =
    joined live (new_sub topic type handler s) (subscribe topic type handler s).1
live_step live s (unsubscribes id) = drop id live

pub live_run : List Sub → Subscriptions → List Call → List Sub
live_run live s [] = live
live_run live s (c ∷ cs) = live_run (live_step live s c) (step s c) cs

Subscribed-joined :
    (live : List Sub) (u : Sub) (r : Subscriptions × Result ℕ)
    → Subscribed live u r
    → Represents (joined live u r.1) r.0
unfolding Subscribed joined
Subscribed-joined live u (s, ok id) h = h.1
Subscribed-joined live u (s, threw e) h = h

-- At most `n` more of either kind of id are used up.
abbrev Grows : ℕ → Subscriptions → Subscriptions → Type 0
Grows n s s' = (s'.next_id ≤ s.next_id + n) × (s'.registry.next_id ≤ s.registry.next_id + n)

add_to_slot-Grows :
    (tid handler id : ℕ) (q : Result (List (ℕ × Slot) × Slot)) (s : Subscriptions)
    → Grows 0 s (add_to_slot tid handler id q s).0
unfolding add_to_slot
add_to_slot-Grows tid handler id (threw e) s = (omega arith, omega arith)
add_to_slot-Grows tid handler id (ok (slots, slot)) s = (omega arith, omega arith)

subscribe_wildcard-Grows :
    (topic : Bytes) (type handler id : ℕ) (s : Subscriptions)
    → Grows 0 s (subscribe_wildcard topic type handler id s).0
unfolding subscribe_wildcard
subscribe_wildcard-Grows topic type handler id s = elim (Bool-cases (hash_inside topic)) [
  | inl inside ↦ rw (inside, subscribe_wildcard) (omega arith, omega arith)
  | inr outside ↦ rw (outside, subscribe_wildcard) (omega arith, omega arith)
]

resolve-next_id_le :
    (topic : Bytes) (r : Registry) → HasRoom r → (resolve topic r).0.next_id ≤ r.next_id + 1
resolve-next_id_le topic r room =
    rw (resolve-eq-resolve_slow topic r) (resolve_slow-next_id topic r room)

subscribe-Grows :
    (topic : Bytes) (type handler : ℕ) (s : Subscriptions)
    → s.next_id + 1 < subscription_ids
    → HasRoom s.registry
    → Grows 1 s (subscribe topic type handler s).0
unfolding subscribe subscribe_exact
subscribe-Grows topic type handler s ids room = rw small (elim (Bool-cases (is_wildcard topic)) [
  | inl wildcard ↦ rw wildcard (
      let (a, b) = subscribe_wildcard-Grows topic type handler (s.next_id + 1) s' in
      (omega arith, omega arith))
  | inr exactly ↦ rw exactly (
      let (a, b) =
        add_to_slot-Grows (resolve topic s.registry).1 handler (s.next_id + 1)
          (get_or_create_slot type (resolve topic s.registry).1 s.slots)
          (record s' { registry = (resolve topic s.registry).0 }) in
      (omega arith, omega (arith, resolve-next_id_le topic s.registry room)))
])
  where
    s' : Subscriptions
    s' = record s { next_id = s.next_id + 1 }

    small : (s.next_id + 1) % subscription_ids ≡ s.next_id + 1
    small = omega arith

unsubscribe-Grows : (id : ℕ) (s : Subscriptions) → Grows 0 s (unsubscribe id s)
unfolding unsubscribe remove_sub
unsubscribe-Grows id s = elim (Option-cases (find ℕ_discrete id s.sub_to_topic)) [
  | inl missing ↦ rw (missing, unsubscribe) (omega arith, omega arith)
  | inr (info, there) ↦
      rw (there, unsubscribe)
        (elim (Bool-cases info.is_wildcard) [
          | inl wildcard ↦ rw (wildcard, remove_sub) (omega arith, omega arith)
          | inr exactly ↦ rw (exactly, remove_sub) (omega arith, omega arith)
        ])
]

run-steps :
    (cs : List Call) (live : List Sub) (s : Subscriptions)
    → s.next_id + length cs < subscription_ids
    → s.registry.next_id + length cs < topic_ids
    → Represents live s
    → Represents (live_run live s cs) (run s cs)
unfolding live_run run
run-steps [] live s ids topics r = r
run-steps (subscribes topic type handler ∷ cs) live s ids topics r =
    let (a, b) = subscribe-Grows topic type handler s (omega arith) (omega arith) in
    run-steps cs (live_step live s (subscribes topic type handler))
      (subscribe topic type handler s).0 (omega arith) (omega arith)
      (Subscribed-joined live (new_sub topic type handler s) (subscribe topic type handler s)
        (subscribe-Represents live topic type handler s (omega arith) (omega arith) r))
run-steps (unsubscribes id ∷ cs) live s ids topics r =
    let (a, b) = unsubscribe-Grows id s in
    run-steps cs (drop id live) (unsubscribe id s) (omega arith) (omega arith)
      (unsubscribe-Represents live id s r)

-- After any sequence of fewer than 2 ^ 32 - 1 `subscribe` and `unsubscribe` calls on a new bus, the
-- registry, slots, trie and maps of the bus represent exactly the live subscriptions: those whose
-- `subscribe` returned an id, in order, without those that an `unsubscribe` named afterwards.
pub run-Represents :
    (cs : List Call)
    → length cs + 1 < topic_ids
    → Represents (live_run [] new_subscriptions cs) (run new_subscriptions cs)
run-Represents cs few = run-steps cs [] new_subscriptions (omega arith) (omega arith) new-Represents
