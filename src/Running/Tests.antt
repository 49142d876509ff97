-- ===== src/Running/Tests.antt =====
-- The theorems on running buses at concrete runs.
use livio_ark.Prelude.{
  ℕ, ◌+◌, ◌≡◌, ◌^◌, refl, true, false, List, ◌++◌, Option, none, some, bytes, arith,
}
use livio_ark.Queue.{new_queue, round_up_power_of_2, try_enqueue, try_dequeue}
use livio_ark.Queue.Fifo.{Holds}
use livio_ark.Bus.Dispatching.{Message}
use livio_ark.Running.Loops.{loop_step, all_of, handed}
use livio_ark.Running.Single.{Single, new_bus, start, dispatcher_step, offer, store, discard, Reach}
use livio_ark.Running.Single
use livio_ark.Running.SingleSteps.{IsOrdered, IsStepped}
use livio_ark.Running.SingleOrder.{Reach-InOrder}
use livio_ark.Running.Multi.{
  Multi, new_multi, start_multi, stop_begin, join_router, join_worker, route_to_worker, router_step,
  worker_take, worker_step, offer_multi, store_multi,
}
use livio_ark.Running.MultiSteps.{MultiReach}
use livio_ark.Running.MultiSteps
use livio_ark.Running.MultiOrder.{IsRouted, on_topic}
use livio_ark.Running.MultiReach.{MultiReach-IsRouted}
use livio_ark.Running.Stopped.{MultiReach-stopped}

abbrev greeting : Message
greeting = record { topic_id = 3; topic_sv = bytes "a"; type = 5; data_ = 7; on_drop_ = none }

abbrev single_or : Single → Option Single → Single
single_or s none = s
single_or s (some u) = u

-- Two messages come after the start; the first is discarded, and the dispatcher takes the second.
abbrev single_start : Single
single_start = start (new_bus 2)

abbrev offer_or : Single → Single
offer_or s = elim (offer greeting s) [ none ↦ s | some (u, took) ↦ u ]

abbrev single_one : Single
single_one = store 0 (offer_or single_start)

abbrev single_two : Single
single_two = store 1 (offer_or single_one)

abbrev single_discarded : Single
single_discarded = single_or single_two (discard single_two)

abbrev single_polling : Single
single_polling = single_or single_discarded (dispatcher_step single_discarded)

abbrev single_handling : Single
single_handling = single_or single_polling (dispatcher_step single_polling)

single_two-run : Reach 2 5 single_two
unfolding new_bus offer new_queue round_up_power_of_2 try_enqueue
single_two-run =
    Single.next
      (Single.next
        (Single.next
          (Single.next (Single.next Single.here (Single.starts refl refl))
            (Single.offers greeting true refl))
          (Single.stores 0 refl refl))
        (Single.offers greeting true refl))
      (Single.stores 1 refl refl)

single_run : Reach 2 8 single_handling
unfolding new_bus offer discard dispatcher_step loop_step new_queue round_up_power_of_2 try_enqueue
    try_dequeue
single_run =
    Single.next
      (Single.next (Single.next single_two-run (Single.discards refl refl))
        (Single.dispatches (λ a. refl) refl))
      (Single.dispatches (λ a. refl) refl)

Reach-InOrder_example :
    IsOrdered (2 ^ 62 + 8) single_handling
    × IsStepped (2 ^ 62 + 8) single_handling (dispatcher_step single_handling)
Reach-InOrder_example = Reach-InOrder 2 8 single_handling (omega arith) (omega arith) single_run

abbrev multi_or : Multi → Option Multi → Multi
multi_or s none = s
multi_or s (some u) = u

-- A bus with two workers gets a message and is stopped, and the second worker delivers the message.
abbrev by_id : ℕ → ℕ
by_id topic_id = topic_id

abbrev started : Multi
started = start_multi by_id 2 2 (new_multi 2)

started_run : MultiReach by_id 2 2 1 started
unfolding new_multi offer_multi router_step route_to_worker worker_take worker_step loop_step
    new_queue round_up_power_of_2 try_enqueue try_dequeue
started_run = MultiSteps.next MultiSteps.here (MultiSteps.starts refl refl)

abbrev offered : Multi
offered = elim (offer_multi by_id 2 greeting started) [ none ↦ started | some (u, stored) ↦ u ]

offered_run : MultiReach by_id 2 2 2 offered
unfolding new_multi offer_multi router_step route_to_worker worker_take worker_step loop_step
    new_queue round_up_power_of_2 try_enqueue try_dequeue
offered_run = MultiSteps.next started_run (MultiSteps.offers greeting true refl)

abbrev stored : Multi
stored = store_multi by_id 2 0 offered

stored_run : MultiReach by_id 2 2 3 stored
unfolding new_multi offer_multi router_step route_to_worker worker_take worker_step loop_step
    new_queue round_up_power_of_2 try_enqueue try_dequeue
stored_run = MultiSteps.next offered_run (MultiSteps.stores 0 refl refl)

abbrev stopping : Multi
stopping = stop_begin by_id 2 stored

stopping_run : MultiReach by_id 2 2 4 stopping
unfolding new_multi offer_multi router_step route_to_worker worker_take worker_step loop_step
    new_queue round_up_power_of_2 try_enqueue try_dequeue
stopping_run = MultiSteps.next stored_run (MultiSteps.stops refl)

abbrev router_leaves : Multi
router_leaves = multi_or stopping (router_step by_id 2 stopping)

router_leaves_run : MultiReach by_id 2 2 5 router_leaves
unfolding new_multi offer_multi router_step route_to_worker worker_take worker_step loop_step
    new_queue round_up_power_of_2 try_enqueue try_dequeue
router_leaves_run = MultiSteps.next stopping_run (MultiSteps.routes (λ a. refl) refl)

abbrev router_takes : Multi
router_takes = multi_or router_leaves (router_step by_id 2 router_leaves)

router_takes_run : MultiReach by_id 2 2 6 router_takes
unfolding new_multi offer_multi router_step route_to_worker worker_take worker_step loop_step
    new_queue round_up_power_of_2 try_enqueue try_dequeue
router_takes_run = MultiSteps.next router_leaves_run (MultiSteps.routes (λ a. refl) refl)

abbrev router_routes : Multi
router_routes = multi_or router_takes (router_step by_id 2 router_takes)

router_routes_run : MultiReach by_id 2 2 7 router_routes
unfolding new_multi offer_multi router_step route_to_worker worker_take worker_step loop_step
    new_queue round_up_power_of_2 try_enqueue try_dequeue
router_routes_run = MultiSteps.next router_takes_run (MultiSteps.routes (λ a. refl) refl)

abbrev router_ends : Multi
router_ends = multi_or router_routes (router_step by_id 2 router_routes)

router_ends_run : MultiReach by_id 2 2 8 router_ends
unfolding new_multi offer_multi router_step route_to_worker worker_take worker_step loop_step
    new_queue round_up_power_of_2 try_enqueue try_dequeue
router_ends_run = MultiSteps.next router_routes_run (MultiSteps.routes (λ a. refl) refl)

abbrev router_joined : Multi
router_joined = join_router by_id 2 router_ends

router_joined_run : MultiReach by_id 2 2 9 router_joined
unfolding new_multi offer_multi router_step route_to_worker worker_take worker_step loop_step
    new_queue round_up_power_of_2 try_enqueue try_dequeue
router_joined_run = MultiSteps.next router_ends_run (MultiSteps.joins_router refl refl refl)

abbrev first_waits : Multi
first_waits = multi_or router_joined (worker_step by_id 2 0 router_joined)

first_waits_run : MultiReach by_id 2 2 10 first_waits
unfolding new_multi offer_multi router_step route_to_worker worker_take worker_step loop_step
    new_queue round_up_power_of_2 try_enqueue try_dequeue
first_waits_run = MultiSteps.next router_joined_run (MultiSteps.works 0 (omega arith) refl)

abbrev first_final : Multi
first_final = multi_or first_waits (worker_step by_id 2 0 first_waits)

first_final_run : MultiReach by_id 2 2 11 first_final
unfolding new_multi offer_multi router_step route_to_worker worker_take worker_step loop_step
    new_queue round_up_power_of_2 try_enqueue try_dequeue
first_final_run = MultiSteps.next first_waits_run (MultiSteps.works 0 (omega arith) refl)

abbrev first_ends : Multi
first_ends = multi_or first_final (worker_step by_id 2 0 first_final)

first_ends_run : MultiReach by_id 2 2 12 first_ends
unfolding new_multi offer_multi router_step route_to_worker worker_take worker_step loop_step
    new_queue round_up_power_of_2 try_enqueue try_dequeue
first_ends_run = MultiSteps.next first_final_run (MultiSteps.works 0 (omega arith) refl)

abbrev second_waits : Multi
second_waits = multi_or first_ends (worker_step by_id 2 1 first_ends)

second_waits_run : MultiReach by_id 2 2 13 second_waits
unfolding new_multi offer_multi router_step route_to_worker worker_take worker_step loop_step
    new_queue round_up_power_of_2 try_enqueue try_dequeue
second_waits_run = MultiSteps.next first_ends_run (MultiSteps.works 1 (omega arith) refl)

abbrev second_final : Multi
second_final = multi_or second_waits (worker_step by_id 2 1 second_waits)

second_final_run : MultiReach by_id 2 2 14 second_final
unfolding new_multi offer_multi router_step route_to_worker worker_take worker_step loop_step
    new_queue round_up_power_of_2 try_enqueue try_dequeue
second_final_run = MultiSteps.next second_waits_run (MultiSteps.works 1 (omega arith) refl)

abbrev second_takes : Multi
second_takes = multi_or second_final (worker_step by_id 2 1 second_final)

second_takes_run : MultiReach by_id 2 2 15 second_takes
unfolding new_multi offer_multi router_step route_to_worker worker_take worker_step loop_step
    new_queue round_up_power_of_2 try_enqueue try_dequeue
second_takes_run = MultiSteps.next second_final_run (MultiSteps.works 1 (omega arith) refl)

abbrev second_delivers : Multi
second_delivers = multi_or second_takes (worker_step by_id 2 1 second_takes)

second_delivers_run : MultiReach by_id 2 2 16 second_delivers
unfolding new_multi offer_multi router_step route_to_worker worker_take worker_step loop_step
    new_queue round_up_power_of_2 try_enqueue try_dequeue
second_delivers_run = MultiSteps.next second_takes_run (MultiSteps.works 1 (omega arith) refl)

abbrev second_ends : Multi
second_ends = multi_or second_delivers (worker_step by_id 2 1 second_delivers)

second_ends_run : MultiReach by_id 2 2 17 second_ends
unfolding new_multi offer_multi router_step route_to_worker worker_take worker_step loop_step
    new_queue round_up_power_of_2 try_enqueue try_dequeue
second_ends_run = MultiSteps.next second_delivers_run (MultiSteps.works 1 (omega arith) refl)

abbrev first_joined : Multi
first_joined = join_worker by_id 2 0 second_ends

first_joined_run : MultiReach by_id 2 2 18 first_joined
unfolding new_multi offer_multi router_step route_to_worker worker_take worker_step loop_step
    new_queue round_up_power_of_2 try_enqueue try_dequeue
first_joined_run = MultiSteps.next second_ends_run (MultiSteps.joins_worker 0 refl refl refl)

abbrev second_joined : Multi
second_joined = join_worker by_id 2 1 first_joined

second_joined_run : MultiReach by_id 2 2 19 second_joined
unfolding new_multi offer_multi router_step route_to_worker worker_take worker_step loop_step
    new_queue round_up_power_of_2 try_enqueue try_dequeue
second_joined_run = MultiSteps.next first_joined_run (MultiSteps.joins_worker 1 refl refl refl)

MultiReach-IsRouted_example : IsRouted by_id 2 (2 ^ 62 + 16) second_delivers
MultiReach-IsRouted_example =
    MultiReach-IsRouted by_id 2 2 16 second_delivers (omega arith) (omega arith) (omega arith)
      second_delivers_run

MultiReach-stopped_example :
    (rest : List Message) × Holds rest second_joined.queue
    × (second_joined.accepted ≡ all_of second_joined.left ++ rest)
    × ((t : ℕ) → on_topic t (handed second_joined.left) ≡ on_topic t second_joined.delivered)
    × (second_joined.cut ≡ false → rest ≡ second_joined.late)
unfolding new_multi offer_multi router_step route_to_worker worker_take worker_step loop_step
    new_queue round_up_power_of_2 try_enqueue try_dequeue
MultiReach-stopped_example =
    MultiReach-stopped by_id 2 2 19 second_joined (omega arith) (omega arith) (omega arith)
      second_joined_run refl refl
