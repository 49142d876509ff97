-- ===== src/Running/Stopped.antt =====
-- With several workers: what has been delivered when `stop` returns.
use mathlib.Core.List.{append-nil}
use livio_ark.Prelude.{ℕ, ◌^◌, ◌≤◌, ◌<◌, ◌≡◌, ap, ◌∙◌, false, List, [], ◌++◌}
use livio_ark.Queue.Fifo.{Holds}
use livio_ark.Bus.Dispatching.{Message}
use livio_ark.Running.Loops.{in_hand, is_over, all_of, handed}
use livio_ark.Running.Multi.{Multi, no_stop, worker_of}
use livio_ark.Running.MultiSteps.{MultiReach}
use livio_ark.Running.MultiOrder.{worker_hand, on_topic}
use livio_ark.Running.MultiReach.{MultiReach-IsRouted}

module _ (hash : ℕ → ℕ) (count queue_capacity n : ℕ) (s : Multi) (some_worker : 0 < count)
    (few : queue_capacity ≤ 2 ^ 61) (bound : n ≤ 2 ^ 61)
    (reached : MultiReach hash count queue_capacity n s) where
  -- When no thread runs and no call of stop waits on a bus with a router and at least one worker,
  -- after up to 2 ^ 61 steps in any order, calls of start and stop not overlapping, with queues of
  -- up to 2 ^ 61 messages: the accepted messages are, in their order, those that left the main
  -- queue and those still in it; of those that left it and were not discarded by DropOldest, the
  -- ones of each topic have all been delivered, in their order; and where the router did not leave
  -- its loops behind a try_enqueue that had not stored its message, the main queue holds exactly
  -- the messages that were accepted since the router left its loops or while there was none, less
  -- those discarded.
  pub MultiReach-stopped :
      s.running ≡ false
      → s.stopping ≡ no_stop
      → (rest : List Message) × Holds rest s.queue
        × (s.accepted ≡ all_of s.left ++ rest)
        × ((t : ℕ) → on_topic t (handed s.left) ≡ on_topic t s.delivered)
        × (s.cut ≡ false → rest ≡ s.late)
  MultiReach-stopped off at_rest =
      let v = MultiReach-IsRouted hash count queue_capacity n s some_worker few bound reached in
      (
        v.main_items,
        v.main_holds,
        v.history,
        λ t.
            let k = worker_of hash count t in
            v.order t
            ∙ ap
                (λ p.
                  on_topic t s.delivered
                  ++ (on_topic t (worker_hand (s.workers k) ++ v.items k)
                      ++ on_topic t (in_hand p)))
                (v.rest_router off at_rest)
            ∙ ap (λ p. on_topic t s.delivered ++ (on_topic t (worker_hand p ++ v.items k) ++ []))
                (v.rest_workers off at_rest k)
            ∙ ap (λ ms. on_topic t s.delivered ++ (on_topic t ms ++ []))
                (v.rest_items off at_rest k)
            ∙ append-nil (on_topic t s.delivered),
        v.late_over (ap is_over (v.rest_router off at_rest)),
      )
