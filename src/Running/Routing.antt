-- ===== src/Running/Routing.antt =====
-- With several workers: one round of `routeToWorker` succeeds and keeps what holds.
use native.Mathlib.Nat.{mod-lt}
use mathlib.Core.Path.{subst}
use mathlib.Core.List.{append_assoc}
use livio_ark.Prelude.{
  ℕ, ◌+◌, ◌^◌, ◌≤◌, ◌<◌, ◌≡◌, ◌≢◌, refl, sym, ap, ◌∙◌, inl, inr, Bool-cases, if-related, if-holds,
  true, false, List, [], ◌∷◌, ◌++◌, some, ◌==◌, update, keep-append, ℕ_discrete, arith,
}
use livio_ark.Queue.{Queue, try_enqueue}
use livio_ark.Queue.Fifo.{Holds, NoWrap, try_enqueue-Holds, try_enqueue-stored}
use livio_ark.Bus.Dispatching.{Message}
use livio_ark.Running.Loops.{Place, absent, ended, in_hand, is_looping, is_over}
use livio_ark.Running.Multi.{Multi, worker_of, route_to_worker}
use livio_ark.Running.MultiOrder.{
  worker_hand, is_final, on_topic, held, line, IsRouted, line-routes,
}
use livio_ark.Running.Workers.{update-mine, update-other}

update-same : {A : Type 0} (i j : ℕ) (f : ℕ → A) → update i (f i) f j ≡ f j
update-same i j f = ground arith

module _ (hash : ℕ → ℕ) (count : ℕ) {bound : ℕ} {s : Multi} (v : IsRouted hash count bound s)
    (small : bound < 2 ^ 63) (some_worker : 0 < count) where
  module _ (m : Message) (after : Place) (hand : in_hand s.router ≡ m ∷ [])
      (empty_hand : in_hand after ≡ []) (loops : s.running ≡ true → is_looping after ≡ true)
      (in_loop : is_over s.router ≡ false) (goes_on : is_over after ≡ false)
      (going : s.router ≢ ended) (there : s.router ≢ absent) where
    abbrev i : ℕ
    i = worker_of hash count m.topic_id

    i-lt : i < count
    i-lt = mod-lt (hash m.topic_id) some_worker

    abbrev stored : Queue Message → Multi
    stored q = record s { worker_queues = update i q s.worker_queues; router = after }

    abbrev stored_items : ℕ → List Message
    stored_items = update i (v.items i ++ m ∷ []) v.items

    held-mine : (q : Queue Message) → held (stored q) stored_items i ≡ held s v.items i ++ m ∷ []
    held-mine q =
        ap (λ ms. worker_hand (s.workers i) ++ ms) (update-mine i (v.items i ++ m ∷ []) v.items)
        ∙ sym (append_assoc (worker_hand (s.workers i)) (v.items i) (m ∷ []))

    held-other :
        (q : Queue Message) (j : ℕ) → j ≢ i → held (stored q) stored_items j ≡ held s v.items j
    held-other q j other =
        ap (λ ms. worker_hand (s.workers j) ++ ms)
          (update-other i j (v.items i ++ m ∷ []) v.items other)

    -- A topic of another worker is not the message's.
    other_topic : (t : ℕ) → worker_of hash count t ≢ i → on_topic t (m ∷ []) ≡ []
    other_topic t other = elim (Bool-cases (m.topic_id == t)) [
      | inl e ↦ absurd (
          other
            (ap (worker_of hash count) (sym (let same : m.topic_id ≡ t = ground arith in same))))
      | inr e ↦ rw e refl
    ]

    stored-line :
        (q : Queue Message) (t : ℕ)
        → line hash count t s v.items ≡ line hash count t (stored q) stored_items
    stored-line q t = elim (ℕ_discrete (worker_of hash count t) i) [
      | yes mine ↦
          let before = on_topic t s.delivered in
          let others = on_topic t (in_hand s.router) in
          ap (λ k. before ++ (on_topic t (held s v.items k) ++ others)) mine
          ∙ ap (λ ms. before ++ (on_topic t (held s v.items i) ++ on_topic t (ms))) hand
          ∙ line-routes t before (held s v.items i) (m ∷ []) []
          ∙ ap (λ ms. before ++ (on_topic t ms ++ on_topic t [])) (sym (held-mine q))
          ∙ ap (λ ms. before ++ (on_topic t (held (stored q) stored_items i) ++ on_topic t (ms)))
              (sym empty_hand)
          ∙ ap
              (λ k.
                before
                ++ (on_topic t (held (stored q) stored_items k) ++ on_topic t (in_hand after)))
              (sym mine)
      | no other ↦
          let before = on_topic t s.delivered in
          let k = worker_of hash count t in
          ap (λ ms. before ++ (on_topic t (held s v.items k) ++ on_topic t (ms))) hand
          ∙ ap (λ ms. before ++ (on_topic t (held s v.items k) ++ ms)) (other_topic t other)
          ∙ ap (λ ms. before ++ (on_topic t (held s v.items k) ++ on_topic t (ms))) (sym empty_hand)
          ∙ ap (λ ms. before ++ (on_topic t ms ++ on_topic t (in_hand after)))
              (sym (held-other q k other))
    ]

    routed_mine :
        (q : Queue Message) (t j : ℕ)
        → j ≡ i
        → worker_of hash count t ≢ j
        → on_topic t (held (stored q) stored_items j) ≡ []
    routed_mine q t j mine away =
        let away' : worker_of hash count t ≢ i = λ e. away (e ∙ sym mine) in
        ap (λ k. on_topic t (held (stored q) stored_items k)) mine
        ∙ ap (on_topic t) (held-mine q)
        ∙ keep-append (λ x. x.topic_id == t) (held s v.items i) (m ∷ [])
        ∙ ap (λ ms. ms ++ on_topic t (m ∷ [])) (v.routed t i away')
        ∙ other_topic t away'

    stored-IsRouted :
        (q : Queue Message)
        → Holds (v.items i ++ m ∷ []) q
        → q.enqueue_pos + q.capacity ≤ bound + 1
        → IsRouted hash count (bound + 1) (stored q)
    stored-IsRouted q holds room = record {
      main_items = v.main_items;
      items = stored_items;
      main_holds = v.main_holds;
      main_room = omega (arith, v.main_room);
      holds = λ j. if-related Holds (i == j) holds (v.holds j);
      rooms = λ j.
          if-holds (λ (k : Queue Message). k.enqueue_pos + k.capacity ≤ bound + 1) (i == j) room
            (omega (arith, v.rooms j));
      history = v.history;
      order = λ t. v.order t ∙ stored-line q t;
      routed = λ t j away. elim (ℕ_discrete j i) [
        | yes mine ↦ routed_mine q t j mine away
        | no other ↦ ap (on_topic t) (held-other q j other) ∙ v.routed t j away
      ];
      drained = λ a. absurd (going (v.drained a));
      finals = v.finals;
      empty = λ j a. absurd (going (v.drained (v.finals j (ap is_final a))));
      beyond = λ j a.
          update-other i j (v.items i ++ m ∷ []) v.items
            (λ e. let lt = i-lt in omega (arith, lt, e))
          ∙ v.beyond j a;
      late_over = λ a b. cc;
      late_none = λ a. v.late_none in_loop;
      looping = loops;
      waited = v.waited;
      joined = v.joined;
      rest_router = λ a b. absurd (there (v.rest_router a b));
      rest_workers = v.rest_workers;
      rest_items = λ a b. absurd (there (v.rest_router a b));
    }

    -- The queue is full, and the router stays.
    refused-IsRouted :
        IsRouted hash count
          (bound + 1)
          (record s { worker_queues = update i (s.worker_queues i) s.worker_queues })
    refused-IsRouted = record {
      main_items = v.main_items;
      items = v.items;
      main_holds = v.main_holds;
      main_room = omega (arith, v.main_room);
      holds = λ j. subst (Holds (v.items j)) (sym (update-same i j s.worker_queues)) (v.holds j);
      rooms = λ j.
          subst (λ (k : Queue Message). k.enqueue_pos + k.capacity ≤ bound + 1)
            (sym (update-same i j s.worker_queues)) (omega (arith, v.rooms j));
      history = v.history;
      order = v.order;
      routed = v.routed;
      drained = v.drained;
      finals = v.finals;
      empty = v.empty;
      beyond = v.beyond;
      late_over = v.late_over;
      late_none = v.late_none;
      looping = v.looping;
      waited = v.waited;
      joined = v.joined;
      rest_router = v.rest_router;
      rest_workers = v.rest_workers;
      rest_items = v.rest_items;
    }

    route_to_worker-result :
        (q : Queue Message)
        → try_enqueue m (s.worker_queues i) ≡ some (q, true)
        → route_to_worker hash count m after s ≡ some (stored q)
    unfolding route_to_worker
    route_to_worker-result q e = rw (route_to_worker, e) refl

    route_to_worker-refused :
        try_enqueue m (s.worker_queues i) ≡ some (s.worker_queues i, false)
        → route_to_worker hash count m after s
          ≡ some (record s { worker_queues = update i (s.worker_queues i) s.worker_queues })
    unfolding route_to_worker
    route_to_worker-refused e = rw (route_to_worker, e) refl

    pub route_to_worker-IsRouted :
        (u : Multi) × (route_to_worker hash count m after s ≡ some u)
        × IsRouted hash count (bound + 1) u
    route_to_worker-IsRouted =
        let fits : NoWrap (s.worker_queues i) = omega (arith, v.rooms i) in
        elim (try_enqueue-Holds (v.items i) (s.worker_queues i) m (v.holds i) fits) [
          | inl (room, ok) ↦
              let (q, e, holds, size, pos) =
                try_enqueue-stored (v.items i) (s.worker_queues i) m (v.holds i) fits room in
              (
                stored q,
                route_to_worker-result q e,
                stored-IsRouted q holds (omega (arith, v.rooms i, size, pos)),
              )
          | inr (full, e) ↦ (
            record s { worker_queues = update i (s.worker_queues i) s.worker_queues },
            route_to_worker-refused e,
            refused-IsRouted,
          )
        ]
