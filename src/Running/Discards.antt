-- ===== src/Running/Discards.antt =====
-- With several workers: a call of the main queue that stands behind another, the end of one, and the
-- discards of DropOldest keep what holds.
use livio_ark.Prelude.{
  ℕ, ◌^◌, ◌<◌, ◌≡◌, refl, sym, ap, ◌∙◌, true, false, List, [], ◌∷◌, ◌++◌, none, some, arith,
}
use livio_ark.Queue.{Queue, try_dequeue}
use livio_ark.Queue.Fifo.{Dequeued, try_dequeue-Holds}
use livio_ark.Bus.Dispatching.{Message}
use livio_ark.Running.Loops.{
  Place, absent, checking, polling, handling, draining, drain_handling, ended, is_over,
  empty_handed, calls_queue, all_of,
}
use livio_ark.Running.LeftSteps.{handed-discard, history-discard}
use livio_ark.Running.SingleOffers.{empty_handed-hand, empty_handed-looping}
use livio_ark.Running.Multi.{Multi, worker_of, block_router, store_multi, discard_multi, but_first}
use livio_ark.Running.MultiOrder.{on_topic, held, IsRouted}

pub calls_queue-going : (p : Place) → calls_queue p ≡ true → is_over p ≡ false
calls_queue-going absent e = cc
calls_queue-going (checking idle) e = refl
calls_queue-going (polling idle) e = refl
calls_queue-going (handling m) e = refl
calls_queue-going draining e = refl
calls_queue-going (drain_handling m) e = refl
calls_queue-going ended e = cc

module _ (hash : ℕ → ℕ) (count : ℕ) {bound : ℕ} {s : Multi} (v : IsRouted hash count bound s)
    (small : bound < 2 ^ 63) where
  pub block_router-IsRouted :
      is_over s.router ≡ false → IsRouted hash count bound (block_router hash count s)
  block_router-IsRouted going = record {
    main_items = v.main_items;
    items = v.items;
    main_holds = v.main_holds;
    main_room = v.main_room;
    holds = v.holds;
    rooms = v.rooms;
    history = v.history;
    order = λ t.
        v.order t
        ∙ ap
            (λ ms.
              on_topic t s.delivered
              ++ (on_topic t (held s v.items (worker_of hash count t)) ++ on_topic t ms))
            (sym (empty_handed-hand s.router));
    routed = v.routed;
    drained = λ a. ap empty_handed (v.drained a);
    finals = v.finals;
    empty = v.empty;
    beyond = v.beyond;
    late_over = λ a b. cc;
    late_none = λ a. v.late_none going;
    looping = λ a. empty_handed-looping s.router ∙ v.looping a;
    waited = v.waited;
    joined = v.joined;
    rest_router = λ a b. ap empty_handed (v.rest_router a b);
    rest_workers = v.rest_workers;
    rest_items = v.rest_items;
  }

  pub store-IsRouted : (pos : ℕ) → IsRouted hash count bound (store_multi hash count pos s)
  store-IsRouted pos = record {
    main_items = v.main_items;
    items = v.items;
    main_holds = v.main_holds;
    main_room = v.main_room;
    holds = v.holds;
    rooms = v.rooms;
    history = v.history;
    order = v.order;
    routed = v.routed;
    drained = v.drained;
    finals = v.finals;
    empty = v.empty;
    beyond = v.beyond;
    late_over = v.late_over;
    late_none = v.late_none;
    looping = v.looping;
    waited = v.waited;
    joined = v.joined;
    rest_router = v.rest_router;
    rest_workers = v.rest_workers;
    rest_items = v.rest_items;
  }

  discard_multi-nothing :
      (q : Queue Message)
      → try_dequeue s.queue ≡ some (q, none, false)
      → discard_multi hash count s ≡ some (record s { queue = q })
  unfolding discard_multi
  discard_multi-nothing q e = rw (discard_multi, e) refl

  discard_multi-oldest :
      (q : Queue Message) (m : Message)
      → try_dequeue s.queue ≡ some (q, some m, true)
      → discard_multi hash count s
        ≡ some (record s { queue = q; left = s.left ++ (false, m) ∷ []; late = but_first s.late })
  unfolding discard_multi
  discard_multi-oldest q m e = rw (discard_multi, e) refl

  discarded :
      (items : List Message)
      → v.main_items ≡ items
      → Dequeued s.queue items (try_dequeue s.queue)
      → (u : Multi) × (discard_multi hash count s ≡ some u) × IsRouted hash count bound u
  discarded [] same e = (record s { queue = s.queue }, discard_multi-nothing s.queue e, v)
  discarded (m ∷ ms) same (q, e, holds, size, pos) = (
    record s { queue = q; left = s.left ++ (false, m) ∷ []; late = but_first s.late },
    discard_multi-oldest q m e,
    record {
      main_items = ms;
      items = v.items;
      main_holds = holds;
      main_room = omega (arith, v.main_room, size, pos);
      holds = v.holds;
      rooms = v.rooms;
      history =
          history-discard s.accepted s.left m ms (v.history ∙ ap (λ x. all_of s.left ++ x) same);
      order = λ t. ap (on_topic t) (handed-discard s.left m) ∙ v.order t;
      routed = v.routed;
      drained = v.drained;
      finals = v.finals;
      empty = v.empty;
      beyond = v.beyond;
      late_over = λ a b. ap but_first (sym same ∙ v.late_over a b);
      late_none = λ a. ap but_first (v.late_none a);
      looping = v.looping;
      waited = v.waited;
      joined = v.joined;
      rest_router = v.rest_router;
      rest_workers = v.rest_workers;
      rest_items = v.rest_items;
    },
  )

  pub discard_multi-IsRouted :
      (u : Multi) × (discard_multi hash count s ≡ some u) × IsRouted hash count bound u
  discard_multi-IsRouted =
      discarded v.main_items refl
        (try_dequeue-Holds v.main_items s.queue v.main_holds (omega (arith, v.main_room)))
