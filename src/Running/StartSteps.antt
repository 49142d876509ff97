-- ===== src/Running/StartSteps.antt =====
-- With several workers: start and publish keep what holds.
use mathlib.Core.Path.{subst}
use livio_ark.Prelude.{
  ltb, ℕ, ◌+◌, ◌^◌, ◌≤◌, ◌<◌, ◌≡◌, refl, sym, ap, ◌∙◌, inl, inr, if-holds, Bool, true, false, [],
  ◌∷◌, ◌++◌, some, if◌then◌else◌, arith,
}
use livio_ark.Queue.{Queue, new_queue, try_enqueue}
use livio_ark.Queue.Fifo.{Holds, NoWrap, try_enqueue-Holds, try_enqueue-stored}
use livio_ark.Bus.Dispatching.{Message}
use livio_ark.Running.Loops.{absent, checking, ended, in_hand, is_over}
use livio_ark.Running.LeftSteps.{history-offer}
use livio_ark.Running.Multi.{
  WorkerPlace, worker_absent, worker_checking, Multi, no_stop, joining_worker, start_multi,
  offer_multi, worker_of,
}
use livio_ark.Running.MultiOrder.{worker_hand, is_final, on_topic, held, is_waited, line, IsRouted}
use livio_ark.Queue.Rounding.{new_queue-Holds, new_queue-start}
use livio_ark.Running.StopSteps.{IsRouted-later}

module _ (hash : ℕ → ℕ) (count : ℕ) {bound : ℕ} {s : Multi} (v : IsRouted hash count bound s)
    (small : bound < 2 ^ 63) where
  -- A worker that starts has nothing, nor one that is not there.
  started_place : ℕ → WorkerPlace
  started_place j = if ltb j count then worker_checking 0 else worker_absent

  started_hand : (j : ℕ) → worker_hand (started_place j) ≡ []
  unfolding started_place
  started_hand j = if-holds (λ p. worker_hand p ≡ []) (ltb j count) refl refl

  started_final : (j : ℕ) → is_final (started_place j) ≡ false
  unfolding started_place
  started_final j = if-holds (λ p. is_final p ≡ false) (ltb j count) refl refl

  abbrev started : ℕ → Multi
  started queue_capacity = record s {
    running = true;
    worker_queues = λ i. new_queue queue_capacity;
    router = checking 0;
    workers = λ i. if ltb i count then worker_checking 0 else worker_absent;
    late = [];
    cut = false;
  }

  module _ (queue_capacity : ℕ) (capacity_bound : queue_capacity ≤ 2 ^ 61) (roomy : 2 ^ 62 ≤ bound)
      (off : s.running ≡ false) (at_rest : s.stopping ≡ no_stop) where
    held-started : (j : ℕ) → held (started queue_capacity) v.items j ≡ []
    unfolding started_place
    held-started j = ap (λ ms. ms ++ v.items j) (started_hand j) ∙ v.rest_items off at_rest j

    held-rest : (j : ℕ) → held s v.items j ≡ []
    held-rest j =
        ap (λ p. worker_hand p ++ v.items j) (v.rest_workers off at_rest j)
        ∙ v.rest_items off at_rest j

    started-line :
        (t : ℕ) → line hash count t s v.items ≡ line hash count t (started queue_capacity) v.items
    started-line t =
        let k = worker_of hash count t in
        ap
          (λ p. on_topic t s.delivered ++ (on_topic t (held s v.items k) ++ on_topic t (in_hand p)))
          (v.rest_router off at_rest)
        ∙ ap (λ ms. on_topic t s.delivered ++ (on_topic t ms ++ on_topic t []))
            (held-rest k ∙ sym (held-started k))

    new_room :
        (new_queue {A = Message} queue_capacity).enqueue_pos
          + (new_queue {A = Message} queue_capacity).capacity
        ≤ bound
    new_room =
        let (holds, le, lt) = new_queue-Holds {A = Message} queue_capacity (omega arith) in
        omega (arith, new_queue-start Message queue_capacity, lt)

    started-IsRouted : IsRouted hash count bound (started queue_capacity)
    unfolding started_place
    started-IsRouted = record {
      main_items = v.main_items;
      items = v.items;
      main_holds = v.main_holds;
      main_room = v.main_room;
      holds = λ j.
          subst (λ ms. Holds ms (new_queue queue_capacity)) (sym (v.rest_items off at_rest j))
            (new_queue-Holds queue_capacity (omega arith)).0;
      rooms = λ j. new_room;
      history = v.history;
      order = λ t. v.order t ∙ started-line t;
      routed = λ t j away. ap (on_topic t) (held-started j);
      drained = λ a.
          let gone = v.rest_router off at_rest in
          let over = v.drained a in absurd (absent-ended (sym gone ∙ over));
      finals = λ j a. let not_final = started_final j in cc;
      empty = λ j a. v.rest_items off at_rest j;
      beyond = v.beyond;
      late_over = λ a b. cc;
      late_none = λ a. refl;
      looping = λ a. refl;
      waited = λ a. let not_waited = ap is_waited at_rest in cc;
      joined = λ k j a b. absurd (no_stop-joining k (sym at_rest ∙ a));
      rest_router = λ a b. cc;
      rest_workers = λ a b. cc;
      rest_items = λ a b. cc;
    }
      where
        absent-ended : absent ≡ ended → ⊥
        absent-ended e = cc

        no_stop-joining : (k : ℕ) → no_stop ≡ joining_worker k → ⊥
        no_stop-joining k e = cc

  pub start_multi-IsRouted :
      (queue_capacity : ℕ)
      → queue_capacity ≤ 2 ^ 61
      → 2 ^ 62 ≤ bound
      → s.stopping ≡ no_stop
      → IsRouted hash count bound (start_multi hash count queue_capacity s)
  start_multi-IsRouted queue_capacity capacity_bound roomy at_rest = by_flag s.running refl
    where
      by_flag :
          (b : Bool)
          → s.running ≡ b
          → IsRouted hash count bound (if b then s else started queue_capacity)
      by_flag true e = v
      by_flag false e = started-IsRouted queue_capacity capacity_bound roomy e at_rest

  abbrev offered : Message → Queue Message → Multi
  offered m q = record s {
    queue = q;
    unstored = s.queue.enqueue_pos ∷ s.unstored;
    accepted = s.accepted ++ m ∷ [];
    late = if is_over s.router then s.late ++ m ∷ [] else s.late;
  }

  offer_multi-stored :
      (m : Message) (q : Queue Message)
      → try_enqueue m s.queue ≡ some (q, true)
      → offer_multi hash count m s ≡ some (offered m q, true)
  unfolding offer_multi
  offer_multi-stored m q e = rw (offer_multi, e) refl

  offer_multi-refused :
      (m : Message)
      → try_enqueue m s.queue ≡ some (s.queue, false)
      → offer_multi hash count m s ≡ some (record s { queue = s.queue }, false)
  unfolding offer_multi
  offer_multi-refused m e = rw (offer_multi, e) refl

  stored-IsRouted :
      (m : Message) (q : Queue Message)
      → Holds (v.main_items ++ m ∷ []) q
      → q.enqueue_pos + q.capacity ≤ bound + 1
      → IsRouted hash count (bound + 1) (offered m q)
  stored-IsRouted m q holds room = record {
    main_items = v.main_items ++ m ∷ [];
    items = v.items;
    main_holds = holds;
    main_room = room;
    holds = v.holds;
    rooms = λ i. omega (arith, v.rooms i);
    history = history-offer s.accepted s.left v.main_items (m ∷ []) v.history;
    order = v.order;
    routed = v.routed;
    drained = v.drained;
    finals = v.finals;
    empty = v.empty;
    beyond = v.beyond;
    late_over = λ a b. rw a (ap (λ ms. ms ++ m ∷ []) (v.late_over a b));
    late_none = λ a. rw a (v.late_none a);
    looping = v.looping;
    waited = v.waited;
    joined = v.joined;
    rest_router = v.rest_router;
    rest_workers = v.rest_workers;
    rest_items = v.rest_items;
  }

  pub offer_multi-IsRouted :
      (m : Message)
      → (u : Multi) × (stored : Bool) × (offer_multi hash count m s ≡ some (u, stored))
        × IsRouted hash count (bound + 1) u
  offer_multi-IsRouted m =
      let fits : NoWrap s.queue = omega (arith, v.main_room) in
      elim (try_enqueue-Holds v.main_items s.queue m v.main_holds fits) [
        | inl (room, ok) ↦
            let (q, e, holds, size, pos) =
              try_enqueue-stored v.main_items s.queue m v.main_holds fits room in
            (
              offered m q,
              true,
              offer_multi-stored m q e,
              stored-IsRouted m q holds (omega (arith, v.main_room, size, pos)),
            )
        | inr (full, e) ↦ (
          record s { queue = s.queue },
          false,
          offer_multi-refused m e,
          IsRouted-later hash count v,
        )
      ]
