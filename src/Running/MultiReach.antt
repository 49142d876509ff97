-- ===== src/Running/MultiReach.antt =====
-- With several workers: what holds at any time.
use mathlib.Core.Path.{subst}
use livio_ark.Prelude.{
  ℕ, suc, ◌+◌, ◌^◌, ◌≤◌, ◌<◌, ◌≡◌, refl, sym, ap, ◌∙◌, true, [], ◌++◌, Option, none, some, arith,
}
use livio_ark.Queue.{Queue, new_queue}
use livio_ark.Bus.Dispatching.{Message}
use livio_ark.Running.Loops.{
  Place, absent, checking, polling, handling, draining, drain_handling, ended, loop_step, in_hand,
  is_looping, is_over, passed,
}
use livio_ark.Running.Multi.{Multi, new_multi, router_step}
use livio_ark.Running.MultiSteps.{
  MultiStep, starts, stops, joins_router, joins_worker, routes, works, blocks, stores, discards,
  offers, MultiReach, here, next,
}
use livio_ark.Running.MultiOrder.{IsRouted}
use livio_ark.Running.LoopSteps.{loop_step-Looped}
use livio_ark.Running.RouterSteps.{Looped-IsRouted}
use livio_ark.Running.Routing.{route_to_worker-IsRouted}
use livio_ark.Running.WorkerSteps.{worker_step-Works}
use livio_ark.Running.Discards.{
  block_router-IsRouted, calls_queue-going, store-IsRouted, discard_multi-IsRouted,
}
use livio_ark.Running.StopSteps.{
  stop_begin-IsRouted, join_router-IsRouted, join_worker-IsRouted, IsRouted-later,
}
use livio_ark.Running.StartSteps.{start_multi-IsRouted, offer_multi-IsRouted}
use livio_ark.Queue.Rounding.{new_queue-Holds, new_queue-start}

router_step-loops :
    (hash : ℕ → ℕ) (count : ℕ) (s : Multi) (place to : Place) (q : Queue Message)
    → s.router ≡ place
    → in_hand place ≡ []
    → loop_step s.running s.queue s.router ≡ some (q, to)
    → router_step hash count s
      ≡ some (record s { queue = q; router = to; left = s.left ++ passed (in_hand to) })
unfolding router_step
router_step-loops hash count s absent to q e empty e' = ground arith
router_step-loops hash count s (checking idle) to q e empty e' = ground arith
router_step-loops hash count s (polling idle) to q e empty e' = ground arith
router_step-loops hash count s (handling m) to q e empty e' = cc
router_step-loops hash count s draining to q e empty e' = ground arith
router_step-loops hash count s (drain_handling m) to q e empty e' = cc
router_step-loops hash count s ended to q e empty e' = ground arith

module _ (hash : ℕ → ℕ) (count : ℕ) {bound : ℕ} {s : Multi} (v : IsRouted hash count bound s)
    (small : bound < 2 ^ 63) (some_worker : 0 < count) where
  abbrev Steps : Option Multi → Type 0
  Steps r = (u : Multi) × (r ≡ some u) × IsRouted hash count (bound + 1) u

  loops-Steps : (p : Place) → s.router ≡ p → in_hand p ≡ [] → Steps (router_step hash count s)
  loops-Steps p e empty =
      let l =
        loop_step-Looped s.running v.main_items s.queue s.router v.main_holds
          (omega (arith, v.main_room)) in
      (
        record s {
          queue = l.queue_after;
          router = l.place_after;
          left = s.left ++ passed (in_hand l.place_after);
        },
        router_step-loops hash count s p l.place_after l.queue_after e empty l.result,
        IsRouted-later hash count
            (Looped-IsRouted hash count v small some_worker _ l (ap in_hand e ∙ empty)),
      )

  router_step-Steps : Steps (router_step hash count s)
  unfolding router_step
  router_step-Steps = by_place s.router refl
    where
      by_place : (p : Place) → s.router ≡ p → Steps (router_step hash count s)
      by_place (handling m) e =
          let (u, given, w) =
            route_to_worker-IsRouted hash count v small some_worker m (checking 0) (ap in_hand e)
              refl (λ a. refl) (ap is_over e) refl (λ a. cc) (λ a. cc) in
          (u, rw (router_step, e) given, w)
      by_place (drain_handling m) e =
          let not_draining : s.running ≡ true → is_looping draining ≡ true =
            λ a. let looping = v.looping a in let not_looping = ap is_looping e in cc in
          let (u, given, w) =
            route_to_worker-IsRouted hash count v small some_worker m draining (ap in_hand e) refl
              not_draining (ap is_over e) refl (λ a. cc) (λ a. cc) in
          (u, rw (router_step, e) given, w)
      by_place absent e = loops-Steps absent e refl
      by_place (checking idle) e = loops-Steps (checking idle) e refl
      by_place (polling idle) e = loops-Steps (polling idle) e refl
      by_place draining e = loops-Steps draining e refl
      by_place ended e = loops-Steps ended e refl

  MultiStep-IsRouted :
      (queue_capacity : ℕ) {u : Multi}
      → queue_capacity ≤ 2 ^ 61
      → 2 ^ 62 ≤ bound
      → MultiStep hash count queue_capacity s u
      → IsRouted hash count (bound + 1) u
  MultiStep-IsRouted queue_capacity few roomy (starts a e) =
      subst (IsRouted hash count (bound + 1)) (sym e) (
        IsRouted-later hash count
          (start_multi-IsRouted hash count v small queue_capacity few roomy a))
  MultiStep-IsRouted queue_capacity few roomy (stops e) =
      subst (IsRouted hash count (bound + 1)) (sym e)
        (IsRouted-later hash count (stop_begin-IsRouted hash count v small))
  MultiStep-IsRouted queue_capacity few roomy (joins_router a b e) =
      subst (IsRouted hash count (bound + 1)) (sym e)
        (IsRouted-later hash count (join_router-IsRouted hash count v small a b))
  MultiStep-IsRouted queue_capacity few roomy (joins_worker i a b e) =
      subst (IsRouted hash count (bound + 1)) (sym e)
        (IsRouted-later hash count (join_worker-IsRouted hash count v small some_worker i a b))
  MultiStep-IsRouted queue_capacity few roomy (routes a e) =
      let (u', e', w) = router_step-Steps in
      subst (IsRouted hash count (bound + 1))
        (ap (λ r. elim r [ none ↦ s | some x ↦ x ]) (sym e' ∙ e)) w
  MultiStep-IsRouted queue_capacity few roomy (works i i_in e) =
      let (u', e', w) = worker_step-Works hash count v small i i_in in
      subst (IsRouted hash count (bound + 1))
        (ap (λ r. elim r [ none ↦ s | some x ↦ x ]) (sym e' ∙ e)) (IsRouted-later hash count w)
  MultiStep-IsRouted queue_capacity few roomy (blocks going a e) =
      subst (IsRouted hash count (bound + 1)) (sym e) (
        IsRouted-later hash count
          (block_router-IsRouted hash count v small (calls_queue-going s.router going)))
  MultiStep-IsRouted queue_capacity few roomy (stores pos a e) =
      subst (IsRouted hash count (bound + 1)) (sym e)
        (IsRouted-later hash count (store-IsRouted hash count v small pos))
  MultiStep-IsRouted queue_capacity few roomy (discards a e) =
      let (u', e', w) = discard_multi-IsRouted hash count v small in
      subst (IsRouted hash count (bound + 1))
        (ap (λ r. elim r [ none ↦ s | some x ↦ x ]) (sym e' ∙ e)) (IsRouted-later hash count w)
  MultiStep-IsRouted queue_capacity few roomy (offers m stored e) =
      let (u', stored', e', w) = offer_multi-IsRouted hash count v small m in
      subst (IsRouted hash count (bound + 1))
        (ap (λ r. elim r [ none ↦ s | some x ↦ x.0 ]) (sym e' ∙ e)) w

new_multi-IsRouted :
    (hash : ℕ → ℕ) (count queue_capacity : ℕ)
    → queue_capacity ≤ 2 ^ 61
    → IsRouted hash count (2 ^ 62) (new_multi queue_capacity)
unfolding new_multi
new_multi-IsRouted hash count queue_capacity few =
    let (empty, le, lt) = new_queue-Holds {A = Message} queue_capacity (omega arith) in
    let room : (new_queue {A = Message} queue_capacity).enqueue_pos
          + (new_queue {A = Message} queue_capacity).capacity
        ≤ 2 ^ 62 =
      omega (arith, new_queue-start Message queue_capacity, lt) in
    record {
      main_items = [];
      items = λ i. [];
      main_holds = empty;
      main_room = room;
      holds = λ i. empty;
      rooms = λ i. room;
      history = refl;
      order = λ t. refl;
      routed = λ t i away. refl;
      drained = λ a. cc;
      finals = λ i a. cc;
      empty = λ i a. refl;
      beyond = λ i a. refl;
      late_over = λ a b. refl;
      late_none = λ a. refl;
      looping = λ a. cc;
      waited = λ a. refl;
      joined = λ i j a b. cc;
      rest_router = λ a b. refl;
      rest_workers = λ a b i. refl;
      rest_items = λ a b i. refl;
    }

-- At any time of a bus with a router and at least one worker, after up to 2 ^ 61 steps of its
-- threads and of publishers in any order, calls of start and stop not overlapping, with queues of
-- up to 2 ^ 61 messages, also where try_dequeue stands behind a try_enqueue that has not stored its
-- message: the accepted messages are, in their order, those that left the main queue and those in
-- it. Of those that left it and were not discarded by DropOldest, the ones of each topic are, in
-- their order, those delivered, those that the topic's worker holds and those in the router's hand:
-- none of them is lost, doubled or out of order, no worker holds a message of another's topics, a
-- worker that has ended holds nothing, and the router has ended before the workers are told so.
pub MultiReach-IsRouted :
    (hash : ℕ → ℕ) (count queue_capacity n : ℕ) (s : Multi)
    → 0 < count
    → queue_capacity ≤ 2 ^ 61
    → n ≤ 2 ^ 61
    → MultiReach hash count queue_capacity n s
    → IsRouted hash count (2 ^ 62 + n) s
MultiReach-IsRouted hash count queue_capacity n s some_worker few bound here =
    new_multi-IsRouted hash count queue_capacity few
MultiReach-IsRouted hash count queue_capacity (suc n) s some_worker few bound (next r st) =
    let same : 2 ^ 62 + n + 1 ≡ 2 ^ 62 + suc n = omega arith in
    subst (λ b. IsRouted hash count b s) same
      (MultiStep-IsRouted hash count
        (MultiReach-IsRouted hash count queue_capacity n _ some_worker few (omega arith) r)
        (omega arith) some_worker queue_capacity few (omega arith) st)
