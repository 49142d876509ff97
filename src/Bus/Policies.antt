-- ===== src/Bus/Policies.antt =====
-- What becomes of a message under each policy, by the list of those that the queue holds.
use livio_ark.Prelude.{
  ℕ, Option, Bytes, Option-cases, ◌<◌, ◌≡◌, refl, sym, inl, inr, Bool, true, false, List, [], ◌∷◌,
  ◌++◌, none, some, length, arith,
}
use mathlib.Core.Path.{subst}
use mathlib.Core.List.{append-nil}
use livio_ark.Queue.{try_enqueue}
use livio_ark.Queue.Fifo.{Holds, NoWrap, try_enqueue-Holds, try_dequeue-Holds}
use livio_ark.Bus.Dispatching.{Message}
use livio_ark.Bus.Publishing.{
  FullPolicy, return_false, drop_oldest, drop_newest, block, Drop, Outbox, Wake, Offer, returned,
  waiting, out_of_fuel, notify_drop, try_or, discard_oldest, make_room, wait_for_room,
  enqueue_message, when_full,
}

-- The queue's messages, and what the call comes to.
abbrev pub Came : List Message → List Drop → Bool → Offer → Type 0
Came xs drops b r = (o : Outbox) × (r ≡ returned o b) × Holds xs o.queue × (o.drops ≡ drops)

-- The runs of callbacks that tell of a message: one with its topic and its contents, or none where it
-- has no callback.
abbrev runs_of : Option ℕ → Bytes → ℕ → List Drop
runs_of none topic payload = []
runs_of (some callback) topic payload = (callback, topic, payload) ∷ []

abbrev pub told : Message → List Drop
told m = runs_of m.on_drop_ m.topic_sv m.data_

notify_drop-told : (m : Message) (drops : List Drop) → notify_drop m drops ≡ drops ++ told m
unfolding notify_drop
notify_drop-told m drops = elim (Option-cases m.on_drop_) [
  | inl e ↦ rw (e, append-nil drops) refl
  | inr (callback, e) ↦ rw e refl
]

module _ (xs : List Message) (o : Outbox) (msg : Message) (h : Holds xs o.queue)
    (bound : NoWrap o.queue) where
  try_or-room :
      (otherwise : Outbox → Offer)
      → length xs < o.queue.capacity
      → Came (xs ++ msg ∷ []) o.drops true (try_or msg o otherwise)
  unfolding try_or
  try_or-room otherwise room = elim (try_enqueue-Holds xs o.queue msg h bound) [
    | inl (lt, (q, done, holds, same)) ↦ (record o { queue = q }, rw (done, try_or), holds, refl)
    | inr (full, done) ↦ absurd (omega arith)
  ]

  try_or-full :
      (otherwise : Outbox → Offer)
      → length xs ≡ o.queue.capacity
      → try_or msg o otherwise ≡ otherwise o
  unfolding try_or
  try_or-full otherwise full = elim (try_enqueue-Holds xs o.queue msg h bound) [
    | inl (lt, rest) ↦ absurd (omega arith)
    | inr (full', done) ↦ rw (done, try_or)
  ]

-- On a queue that holds a list of messages and has room, `enqueueMessage` under every policy puts
-- the message behind the others, drops nothing and returns true.
pub enqueue_message-room :
    (xs : List Message) (o : Outbox) (msg : Message) (policy : FullPolicy) (wakes : List Wake)
    → Holds xs o.queue
    → NoWrap o.queue
    → length xs < o.queue.capacity
    → Came (xs ++ msg ∷ []) o.drops true (enqueue_message policy wakes msg o)
unfolding enqueue_message
enqueue_message-room xs o msg policy wakes h bound room =
    try_or-room xs o msg h bound (when_full policy wakes msg) room

oldest-discarded :
    (x : Message) (xs : List Message) (o : Outbox) (msg : Message)
    → Holds (x ∷ xs) o.queue
    → NoWrap o.queue
    → length (x ∷ xs) ≡ o.queue.capacity
    → Came (xs ++ msg ∷ []) (o.drops ++ told x) true (discard_oldest o (make_room 1 msg))
unfolding discard_oldest make_room
oldest-discarded x xs o msg h bound full =
    let (q, done, holds, same, end) = try_dequeue-Holds (x ∷ xs) o.queue h bound in
    rw (done, discard_oldest)
      (subst
        (λ drops. Came (xs ++ msg ∷ []) drops true (
          try_or msg (record { queue = q; drops = notify_drop x o.drops })
            (λ o'. discard_oldest o' (make_room 0 msg))))
        (notify_drop-told x o.drops)
        (try_or-room xs (record { queue = q; drops = notify_drop x o.drops }) msg holds
          (omega (arith, same, end)) (λ o'. discard_oldest o' (make_room 0 msg))
          (omega (arith, same))))

-- On a full queue, ReturnFalse returns false and changes nothing; DropNewest returns true and drops
-- the new message; DropOldest returns true, drops the oldest message and puts the new one behind
-- the others. A dropped message's callback, where it has one, runs once, with the message's topic
-- and data, and no other callback runs.
pub enqueue_message-full :
    (x : Message) (xs : List Message) (o : Outbox) (msg : Message) (wakes : List Wake)
    → Holds (x ∷ xs) o.queue
    → NoWrap o.queue
    → length (x ∷ xs) ≡ o.queue.capacity
    → Came (x ∷ xs) o.drops false (enqueue_message return_false wakes msg o)
      × Came (x ∷ xs) (o.drops ++ told msg) true (enqueue_message drop_newest wakes msg o)
      × Came (xs ++ msg ∷ []) (o.drops ++ told x) true (enqueue_message drop_oldest wakes msg o)
unfolding enqueue_message when_full
enqueue_message-full x xs o msg wakes h bound full = (
  (o, try_or-full (x ∷ xs) o msg h bound (when_full return_false wakes msg) full, h, refl),
  (
    record o { drops = notify_drop msg o.drops },
    try_or-full (x ∷ xs) o msg h bound (when_full drop_newest wakes msg) full,
    h,
    notify_drop-told msg o.drops,
  ),
  subst (Came (xs ++ msg ∷ []) (o.drops ++ told x) true)
      (sym (try_or-full (x ∷ xs) o msg h bound (when_full drop_oldest wakes msg) full))
      (oldest-discarded x xs o msg h bound full),
)

-- The bus runs at every evaluation.
abbrev pub AllRunning : List Wake → Type 0
AllRunning [] = Unit
AllRunning (w ∷ ws) = (w.running ≡ true) × AllRunning ws

unfoldable pub IsRefusal : Offer → Type 0
IsRefusal (returned o true) = ⊥
IsRefusal (returned o false) = Unit
IsRefusal (waiting o) = ⊥
IsRefusal out_of_fuel = ⊥

try_or-IsRefusal :
    (msg : Message) (o : Outbox) (otherwise : Outbox → Offer)
    → ((o' : Outbox) → ¬ IsRefusal (otherwise o'))
    → ¬ IsRefusal (try_or msg o otherwise)
unfolding try_or IsRefusal
try_or-IsRefusal msg o otherwise n r =
    elim (try_enqueue msg o.queue)
        as (λ t.
          IsRefusal (elim t [
            | none ↦ out_of_fuel
            | some (q, true) ↦ returned (record o { queue = q }) true
            | some (q, false) ↦ otherwise (record o { queue = q })
          ])
          → ⊥) [
            | none ↦ λ x. x
            | some (q, true) ↦ λ x. x
            | some (q, false) ↦ λ x. n (record o { queue = q }) x
          ]
      r

wait-IsRefusal :
    (wakes : List Wake) (msg : Message)
    → AllRunning wakes
    → (o : Outbox) → ¬ IsRefusal (wait_for_room wakes msg o)
unfolding wait_for_room
wait-IsRefusal [] msg all o r = unfold IsRefusal in r
wait-IsRefusal (w ∷ ws) msg all o r =
    try_or-IsRefusal msg (record o { queue = w.others o.queue }) (wait_for_room ws msg)
      (wait-IsRefusal ws msg all.1) (rw (all.0) at r)

-- Under Block, whatever other threads do to the queue, `enqueueMessage` does not return false while
-- the bus runs at every evaluation of the wait.
pub enqueue_message-block :
    (wakes : List Wake) (msg : Message) (o : Outbox)
    → AllRunning wakes
    → ¬ IsRefusal (enqueue_message block wakes msg o)
unfolding enqueue_message when_full
enqueue_message-block wakes msg o all =
    try_or-IsRefusal msg o (when_full block wakes msg) (wait-IsRefusal wakes msg all)
