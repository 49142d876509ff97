-- ===== src/Running/Single.antt =====
-- `MessageBus` with one dispatcher (include/livioark/msgbus/message_bus.h).
use livio_ark.Prelude.{
  ℕ, suc, ◌≡◌, Bool, true, false, List, [], ◌∷◌, ◌++◌, Option, none, some, if◌then◌else◌,
}
use livio_ark.Queue.{Queue, new_queue, try_enqueue, try_dequeue}
use livio_ark.Bus.Dispatching.{Message}
use livio_ark.Running.Loops.{
  Place, absent, checking, handling, draining, drain_handling, ended, loop_step, in_hand,
  empty_handed, calls_queue, is_in, without, Left, passed,
}

-- `stopping` holds while a call of `stop` waits for the thread, and `unstored` holds the positions of
-- the calls of try_enqueue between their compare-exchange and their store. `accepted`, `left` and
-- `delivered` record the messages that went into the queue, those that left it, and those that were
-- dispatched, in their order.
pub record Single : Type 0 where
  pub queue : Queue Message
  pub running : Bool
  pub dispatcher : Place
  pub stopping : Bool
  pub unstored : List ℕ
  pub accepted : List Message
  pub left : Left
  pub delivered : List Message

unfoldable pub new_bus : ℕ → Single
new_bus queue_capacity = record {
  queue = new_queue queue_capacity;
  running = false;
  dispatcher = absent;
  stopping = false;
  unstored = [];
  accepted = [];
  left = [];
  delivered = [];
}

-- `start`, which is not called while a call of `stop` has not returned.
abbrev pub start : Single → Single
start s = if s.running then s else record s { running = true; dispatcher = checking 0 }

-- The two parts of `stop`: up to the wait for the thread, and from its end on.
abbrev pub stop : Single → Single
stop s = if s.running then record s { running = false; stopping = true } else s

abbrev pub join : Single → Single
join s = record s { dispatcher = absent; stopping = false }

-- A step of dispatchLoop.
unfoldable pub dispatcher_step : Single → Option Single
dispatcher_step s = elim s.dispatcher [
  | handling m ↦ some (record s { dispatcher = checking 0; delivered = s.delivered ++ m ∷ [] })
  | drain_handling m ↦ some (record s { dispatcher = draining; delivered = s.delivered ++ m ∷ [] })
  | place ↦ elim (loop_step s.running s.queue place) [
    | none ↦ none
    | some (q, next) ↦
        some (record s { queue = q; dispatcher = next; left = s.left ++ passed (in_hand next) })
  ]
]

-- A call of try_dequeue that finds nothing though there are messages: the cell at its position
-- belongs to a call of try_enqueue that has not stored its message.
abbrev pub block_dispatcher : Single → Single
block_dispatcher s = record s { dispatcher = empty_handed s.dispatcher }

-- `try_enqueue` by `publish` up to its compare-exchange, and its store.
unfoldable pub offer : Message → Single → Option (Single × Bool)
offer m s = elim (try_enqueue m s.queue) [
  | none ↦ none
  | some (q, true) ↦ some (
    record s {
      queue = q;
      accepted = s.accepted ++ m ∷ [];
      unstored = s.queue.enqueue_pos ∷ s.unstored;
    },
    true,
  )
  | some (q, false) ↦ some (record s { queue = q }, false)
]

abbrev pub store : ℕ → Single → Single
store pos s = record s { unstored = without pos s.unstored }

-- `try_dequeue` by `publish` under DropOldest; the callback that it then runs is in Bus/Publishing.
unfoldable pub discard : Single → Option Single
discard s = elim (try_dequeue s.queue) [
  | none ↦ none
  | some (q, none, got) ↦ some (record s { queue = q })
  | some (q, some m, got) ↦ some (record s { queue = q; left = s.left ++ (false, m) ∷ [] })
]

-- A step of some thread. Calls of `start` and `stop` do not overlap. A call of the queue takes effect
-- at its compare-exchange, and a call that returns false leaves the queue as it is.
pub data Step (s u : Single) : Type 0 where
  starts : s.stopping ≡ false → u ≡ start s → Step s u
  stops : u ≡ stop s → Step s u
  joins : s.stopping ≡ true → s.dispatcher ≡ ended → u ≡ join s → Step s u
  dispatches :
      (calls_queue s.dispatcher ≡ true → is_in s.queue.dequeue_pos s.unstored ≡ false)
      → dispatcher_step s ≡ some u
      → Step s u
  blocks :
      calls_queue s.dispatcher ≡ true
      → is_in s.queue.dequeue_pos s.unstored ≡ true
      → u ≡ block_dispatcher s
      → Step s u
  offers : (m : Message) (took : Bool) → offer m s ≡ some (u, took) → Step s u
  stores : (pos : ℕ) → is_in pos s.unstored ≡ true → u ≡ store pos s → Step s u
  discards : is_in s.queue.dequeue_pos s.unstored ≡ false → discard s ≡ some u → Step s u

-- What the bus can be after `n` steps.
pub data Reach (queue_capacity : ℕ) : ℕ → Single → Type 0 where
  here : Reach queue_capacity 0 (new_bus queue_capacity)
  next :
      {n : ℕ} {s u : Single} → Reach queue_capacity n s → Step s u → Reach queue_capacity (suc n) u
