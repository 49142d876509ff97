-- ===== src/Running/Multi.antt =====
-- `MessageBus` with a router and several workers (include/livioark/msgbus/message_bus.h).
use livio_ark.Prelude.{
  ℕ, suc, ◌+◌, ◌%◌, Bool, true, false, ltb, List, [], ◌∷◌, ◌++◌, Option, none, some, if◌then◌else◌,
  update,
}
use livio_ark.Queue.{Queue, new_queue, try_enqueue, try_dequeue}
use livio_ark.Bus.Dispatching.{Message}
use livio_ark.Running.Loops.{
  Place, absent, checking, handling, draining, drain_handling, is_over, loop_step, backoff,
  spin_threshold, in_hand, empty_handed, without, Left, passed,
}

-- Where a worker is: in its three loops, of which the second waits for `router_drained_` and the last
-- empties its queue, about to load a flag, about to take a message, or with one in hand.
pub data WorkerPlace : Type 0 where
  worker_absent : WorkerPlace
  worker_checking : ℕ → WorkerPlace
  worker_polling : ℕ → WorkerPlace
  worker_handling : Message → WorkerPlace
  waiting : ℕ → WorkerPlace
  waiting_polling : ℕ → WorkerPlace
  waiting_handling : Message → WorkerPlace
  final : WorkerPlace
  final_handling : Message → WorkerPlace
  worker_ended : WorkerPlace

-- How far a call of `stop` is: none waits, it waits for the router, or for the worker of a number.
pub data Stopping : Type 0 where
  no_stop : Stopping
  joining_router : Stopping
  joining_worker : ℕ → Stopping

-- `unstored` holds the positions of the calls of try_enqueue on the main queue between their
-- compare-exchange and their store. `accepted`, `left` and `delivered` record the messages that went into the main queue,
-- those that left it, and those that were dispatched, in their order. `late` records the messages
-- there that were accepted since the router left its loops, or while there was none, and `cut` that
-- the router left them behind such a call.
pub record Multi : Type 0 where
  pub queue : Queue Message
  pub worker_queues : ℕ → Queue Message
  pub running : Bool
  pub router_drained : Bool
  pub router : Place
  pub workers : ℕ → WorkerPlace
  pub stopping : Stopping
  pub unstored : List ℕ
  pub accepted : List Message
  pub left : Left
  pub delivered : List Message
  pub late : List Message
  pub cut : Bool

unfoldable pub new_multi : ℕ → Multi
new_multi queue_capacity = record {
  queue = new_queue queue_capacity;
  worker_queues = λ i. new_queue queue_capacity;
  running = false;
  router_drained = false;
  router = absent;
  workers = λ i. worker_absent;
  stopping = no_stop;
  unstored = [];
  accepted = [];
  left = [];
  delivered = [];
  late = [];
  cut = false;
}

-- `drain_idle` after a round without a message.
abbrev pub drain_backoff : ℕ → ℕ
drain_backoff idle = if ltb idle spin_threshold then idle + 1 else idle

abbrev pub but_first : List Message → List Message
but_first [] = []
but_first (m ∷ ms) = ms

-- The place for what `try_dequeue` gave.
abbrev pub took : Option Message → (Message → WorkerPlace) → WorkerPlace → WorkerPlace
took none got empty = empty
took (some m) got empty = got m

-- `hash` is `std::hash` of a topic's id, and `count` is `num_dispatchers_`.
module _ (hash : ℕ → ℕ) (count : ℕ) where
  -- The worker of a topic.
  abbrev pub worker_of : ℕ → ℕ
  worker_of topic_id = hash topic_id % count

  -- `start`, which is not called while a call of `stop` has not returned. The queues of the workers
  -- are new.
  abbrev pub start_multi : ℕ → Multi → Multi
  start_multi queue_capacity s = if s.running then s else record s {
    running = true;
    worker_queues = λ i. new_queue queue_capacity;
    router = checking 0;
    workers = λ i. if ltb i count then worker_checking 0 else worker_absent;
    late = [];
    cut = false;
  }

  -- A step of `stop`: its begin, the end of its wait for the router, and that for a worker, after the
  -- last of which it forgets its threads and their queues.
  abbrev pub stop_begin : Multi → Multi
  stop_begin s = if s.running then record s { running = false; stopping = joining_router } else s

  abbrev pub join_router : Multi → Multi
  join_router s = record s { router_drained = true; stopping = joining_worker 0 }

  abbrev pub join_worker : ℕ → Multi → Multi
  join_worker i s =
      if ltb (suc i) count then record s { stopping = joining_worker (suc i) } else record s {
        router = absent;
        workers = λ j. worker_absent;
        router_drained = false;
        stopping = no_stop;
      }

  -- `routeToWorker`, one round of its loop: the router stays with its message where the queue is full.
  unfoldable pub route_to_worker : Message → Place → Multi → Option Multi
  route_to_worker m after s =
      let i = worker_of m.topic_id in
      elim (try_enqueue m (s.worker_queues i)) [
        | none ↦ none
        | some (q, true) ↦
            some (record s { worker_queues = update i q s.worker_queues; router = after })
        | some (q, false) ↦ some (record s { worker_queues = update i q s.worker_queues })
      ]

  -- A step of routerLoop.
  unfoldable pub router_step : Multi → Option Multi
  router_step s = elim s.router [
    | handling m ↦ route_to_worker m (checking 0) s
    | drain_handling m ↦ route_to_worker m draining s
    | place ↦ elim (loop_step s.running s.queue place) [
      | none ↦ none
      | some (q, to) ↦
          some (record s { queue = q; router = to; left = s.left ++ passed (in_hand to) })
    ]
  ]

  abbrev pub at_place : ℕ → WorkerPlace → Multi → Multi
  at_place i place s = record s { workers = update i place s.workers }

  -- A message taken by worker `i` from its queue, and a message delivered by it.
  unfoldable pub worker_take : ℕ → (Message → WorkerPlace) → WorkerPlace → Multi → Option Multi
  worker_take i got empty s = elim (try_dequeue (s.worker_queues i)) [
    | none ↦ none
    | some (q, m, _) ↦
        some
          (at_place i (took m got empty) (record s { worker_queues = update i q s.worker_queues }))
  ]

  abbrev pub worker_deliver : ℕ → Message → WorkerPlace → Multi → Multi
  worker_deliver i m after s = at_place i after (record s { delivered = s.delivered ++ m ∷ [] })

  -- A step of workerLoop.
  unfoldable pub worker_step : ℕ → Multi → Option Multi
  worker_step i s = elim (s.workers i) [
    | worker_absent ↦ some s
    | worker_checking idle ↦
        some (at_place i (if s.running then worker_polling idle else waiting 0) s)
    | worker_polling idle ↦ worker_take i worker_handling (worker_checking (backoff idle)) s
    | worker_handling m ↦ some (worker_deliver i m (worker_checking 0) s)
    | waiting idle ↦ some (at_place i (if s.router_drained then final else waiting_polling idle) s)
    | waiting_polling idle ↦ worker_take i waiting_handling (waiting (drain_backoff idle)) s
    | waiting_handling m ↦ some (worker_deliver i m (waiting 0) s)
    | final ↦ worker_take i final_handling worker_ended s
    | final_handling m ↦ some (worker_deliver i m final s)
    | worker_ended ↦ some s
  ]

  -- A call of try_dequeue on the main queue that finds nothing though there are messages: the cell
  -- at its position belongs to a call of try_enqueue that has not stored its message.
  abbrev pub block_router : Multi → Multi
  block_router s = record s {
    router = empty_handed s.router;
    cut = is_over (empty_handed s.router);
  }

  -- `try_enqueue` by `publish` up to its compare-exchange, and its store.
  unfoldable pub offer_multi : Message → Multi → Option (Multi × Bool)
  offer_multi m s = elim (try_enqueue m s.queue) [
    | none ↦ none
    | some (q, true) ↦ some (
      record s {
        queue = q;
        unstored = s.queue.enqueue_pos ∷ s.unstored;
        accepted = s.accepted ++ m ∷ [];
        late = if is_over s.router then s.late ++ m ∷ [] else s.late;
      },
      true,
    )
    | some (q, false) ↦ some (record s { queue = q }, false)
  ]

  abbrev pub store_multi : ℕ → Multi → Multi
  store_multi pos s = record s { unstored = without pos s.unstored }

  -- `try_dequeue` by `publish` under DropOldest; the callback that it then runs is in Bus/Publishing.
  unfoldable pub discard_multi : Multi → Option Multi
  discard_multi s = elim (try_dequeue s.queue) [
    | none ↦ none
    | some (q, none, got) ↦ some (record s { queue = q })
    | some (q, some m, got) ↦
        some (record s { queue = q; left = s.left ++ (false, m) ∷ []; late = but_first s.late })
  ]
