-- ===== src/Running/MultiSteps.antt =====
-- The threads of a `MessageBus` with a router and several workers
-- (include/livioark/msgbus/message_bus.h), in any order.
use livio_ark.Prelude.{ℕ, suc, ◌<◌, ◌≡◌, Bool, true, false, some}
use livio_ark.Bus.Dispatching.{Message}
use livio_ark.Running.Loops.{ended, calls_queue, is_in}
use livio_ark.Running.Multi.{
  worker_ended, Multi, no_stop, joining_router, joining_worker, new_multi, start_multi, stop_begin,
  join_router, join_worker, router_step, worker_step, block_router, offer_multi, store_multi,
  discard_multi,
}

module _ (hash : ℕ → ℕ) (count : ℕ) where
  -- A step of some thread. Calls of `start` and `stop` do not overlap. A call of the main queue takes
  -- effect at its compare-exchange, one that puts a message into a worker's queue, which the router
  -- alone does, at its store; a call that returns false leaves the queue as it is.
  pub data MultiStep (queue_capacity : ℕ) (s u : Multi) : Type 0 where
    starts :
        s.stopping ≡ no_stop
        → u ≡ start_multi hash count queue_capacity s
        → MultiStep queue_capacity s u
    stops : u ≡ stop_begin hash count s → MultiStep queue_capacity s u
    joins_router :
        s.stopping ≡ joining_router
        → s.router ≡ ended
        → u ≡ join_router hash count s
        → MultiStep queue_capacity s u
    joins_worker :
        (i : ℕ)
        → s.stopping ≡ joining_worker i
        → s.workers i ≡ worker_ended
        → u ≡ join_worker hash count i s
        → MultiStep queue_capacity s u
    routes :
        (calls_queue s.router ≡ true → is_in s.queue.dequeue_pos s.unstored ≡ false)
        → router_step hash count s ≡ some u
        → MultiStep queue_capacity s u
    works : (i : ℕ) → i < count → worker_step hash count i s ≡ some u → MultiStep queue_capacity s u
    blocks :
        calls_queue s.router ≡ true
        → is_in s.queue.dequeue_pos s.unstored ≡ true
        → u ≡ block_router hash count s
        → MultiStep queue_capacity s u
    stores :
        (pos : ℕ)
        → is_in pos s.unstored ≡ true
        → u ≡ store_multi hash count pos s
        → MultiStep queue_capacity s u
    discards :
        is_in s.queue.dequeue_pos s.unstored ≡ false
        → discard_multi hash count s ≡ some u
        → MultiStep queue_capacity s u
    offers :
        (m : Message) (stored : Bool)
        → offer_multi hash count m s ≡ some (u, stored)
        → MultiStep queue_capacity s u

  -- What the bus can be after `n` steps.
  pub data MultiReach (queue_capacity : ℕ) : ℕ → Multi → Type 0 where
    here : MultiReach queue_capacity 0 (new_multi queue_capacity)
    next :
        {n : ℕ} {s u : Multi}
        → MultiReach queue_capacity n s
        → MultiStep queue_capacity s u
        → MultiReach queue_capacity (suc n) u
