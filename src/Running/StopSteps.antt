-- ===== src/Running/StopSteps.antt =====
-- With several workers: start, the parts of stop, and publish keep what holds.
use native.Mathlib.Nat.{mod-lt}
use mathlib.Core.Path.{subst}
use native.Mathlib.Decide.{dec_lt}
use livio_ark.Prelude.{
  ltb, ℕ, suc, ◌+◌, ◌^◌, ◌≤◌, ◌<◌, ◌≡◌, refl, sym, ap, ◌∙◌, inl, inr, Bool-cases, if-holds, false,
  [], ◌++◌, if◌then◌else◌, ℕ_discrete, arith,
}
use livio_ark.Running.Loops.{absent, ended, in_hand, is_over}
use livio_ark.Running.Multi.{
  worker_absent, worker_ended, Multi, no_stop, joining_router, joining_worker, stop_begin,
  join_router, join_worker, worker_of,
}
use livio_ark.Running.MultiOrder.{worker_hand, is_final, on_topic, held, is_waited, line, IsRouted}

pub IsRouted-later :
    (hash : ℕ → ℕ) (count : ℕ) {bound : ℕ} {s : Multi}
    → IsRouted hash count bound s
    → IsRouted hash count (bound + 1) s
IsRouted-later hash count v = record {
  main_items = v.main_items;
  items = v.items;
  main_holds = v.main_holds;
  main_room = omega (arith, v.main_room);
  holds = v.holds;
  rooms = λ i. omega (arith, v.rooms i);
  history = v.history;
  order = v.order;
  routed = v.routed;
  drained = v.drained;
  finals = v.finals;
  empty = v.empty;
  beyond = v.beyond;
  late_over = v.late_over;
  late_none = v.late_none;
  looping = v.looping;
  waited = v.waited;
  joined = v.joined;
  rest_router = v.rest_router;
  rest_workers = v.rest_workers;
  rest_items = v.rest_items;
}

module _ (hash : ℕ → ℕ) (count : ℕ) {bound : ℕ} {s : Multi} (v : IsRouted hash count bound s)
    (small : bound < 2 ^ 63) where
  pub stop_begin-IsRouted : IsRouted hash count bound (stop_begin hash count s)
  stop_begin-IsRouted =
      if-holds (IsRouted hash count bound) s.running
        (record {
          main_items = v.main_items;
          items = v.items;
          main_holds = v.main_holds;
          main_room = v.main_room;
          holds = v.holds;
          rooms = v.rooms;
          history = v.history;
          order = v.order;
          routed = v.routed;
          drained = v.drained;
          finals = v.finals;
          empty = v.empty;
          beyond = v.beyond;
          late_over = v.late_over;
          late_none = v.late_none;
          looping = λ a. cc;
          waited = λ a. refl;
          joined = λ i j a b. cc;
          rest_router = λ a b. cc;
          rest_workers = λ a b. cc;
          rest_items = λ a b. cc;
        })
        v

  pub join_router-IsRouted :
      s.stopping ≡ joining_router
      → s.router ≡ ended
      → IsRouted hash count bound (join_router hash count s)
  join_router-IsRouted waits over = record {
    main_items = v.main_items;
    items = v.items;
    main_holds = v.main_holds;
    main_room = v.main_room;
    holds = v.holds;
    rooms = v.rooms;
    history = v.history;
    order = v.order;
    routed = v.routed;
    drained = λ a. over;
    finals = λ i a. refl;
    empty = v.empty;
    beyond = v.beyond;
    late_over = v.late_over;
    late_none = v.late_none;
    looping = v.looping;
    waited = λ a. v.waited (ap is_waited waits);
    joined = λ i j a b. ground (arith);
    rest_router = λ a b. cc;
    rest_workers = λ a b. cc;
    rest_items = λ a b. cc;
  }

  -- The end of the wait for a worker that is not the last.
  next_worker-IsRouted :
      (i : ℕ)
      → s.stopping ≡ joining_worker i
      → s.workers i ≡ worker_ended
      → IsRouted hash count bound (record s { stopping = joining_worker (suc i) })
  next_worker-IsRouted i waits over = record {
    main_items = v.main_items;
    items = v.items;
    main_holds = v.main_holds;
    main_room = v.main_room;
    holds = v.holds;
    rooms = v.rooms;
    history = v.history;
    order = v.order;
    routed = v.routed;
    drained = v.drained;
    finals = v.finals;
    empty = v.empty;
    beyond = v.beyond;
    late_over = v.late_over;
    late_none = v.late_none;
    looping = v.looping;
    waited = λ a. v.waited (ap is_waited waits);
    joined = λ k j a b. ground (arith, v.joined i j waits);
    rest_router = λ a b. cc;
    rest_workers = λ a b. cc;
    rest_items = λ a b. cc;
  }

  -- When the last worker has ended, all have, and no worker holds a message.
  module _ (some_worker : 0 < count) (i : ℕ) (waits : s.stopping ≡ joining_worker i)
      (over : s.workers i ≡ worker_ended) (last : count ≤ suc i) where
    abbrev cleared : Multi
    cleared = record s {
      router = absent;
      workers = λ j. worker_absent;
      router_drained = false;
      stopping = no_stop;
    }

    all_ended : (j : ℕ) → j < count → s.workers j ≡ worker_ended
    all_ended j lt = elim (ℕ_discrete j i) [
      | yes same ↦ ap s.workers same ∙ over
      | no other ↦ v.joined i j waits (omega arith)
    ]

    all_empty : (j : ℕ) → v.items j ≡ []
    all_empty j = elim (dec_lt j count) [
      | yes lt ↦ v.empty j (all_ended j lt)
      | no beyond ↦ v.beyond j (omega arith)
    ]

    router_over : s.router ≡ ended
    router_over = v.drained (v.finals i (ap is_final over))

    cleared-line : (t : ℕ) → line hash count t s v.items ≡ line hash count t cleared v.items
    cleared-line t =
        let k = worker_of hash count t in
        ap
          (λ p. on_topic t s.delivered ++ (on_topic t (held s v.items k) ++ on_topic t (in_hand p)))
          router_over
        ∙ ap
            (λ w.
              on_topic t s.delivered ++ (on_topic t (worker_hand w ++ v.items k) ++ on_topic t []))
            (all_ended k (mod-lt (hash t) some_worker))

    cleared-IsRouted : IsRouted hash count bound cleared
    cleared-IsRouted = record {
      main_items = v.main_items;
      items = v.items;
      main_holds = v.main_holds;
      main_room = v.main_room;
      holds = v.holds;
      rooms = v.rooms;
      history = v.history;
      order = λ t. v.order t ∙ cleared-line t;
      routed = λ t j away. ap (on_topic t) (all_empty j);
      drained = λ a. cc;
      finals = λ j a. cc;
      empty = λ j a. cc;
      beyond = v.beyond;
      late_over = λ a. v.late_over (ap is_over router_over);
      late_none = λ a. cc;
      looping = λ a. let off = v.waited (ap is_waited waits) in cc;
      waited = λ a. cc;
      joined = λ k j a b. cc;
      rest_router = λ a b. refl;
      rest_workers = λ a b j. refl;
      rest_items = λ a b j. all_empty j;
    }

  pub join_worker-IsRouted :
      0 < count
      → (i : ℕ) → s.stopping ≡ joining_worker i
      → s.workers i ≡ worker_ended
      → IsRouted hash count bound (join_worker hash count i s)
  join_worker-IsRouted some_worker i waits over = elim (Bool-cases (ltb (suc i) count)) [
    | inl e ↦
        subst (IsRouted hash count bound)
          (sym (
            ap (λ b. if b then record s { stopping = joining_worker (suc i) } else cleared_state)
              e))
          (next_worker-IsRouted i waits over)
    | inr e ↦
        subst (IsRouted hash count bound)
          (sym (
            ap (λ b. if b then record s { stopping = joining_worker (suc i) } else cleared_state)
              e))
          (cleared-IsRouted some_worker i waits over (ground arith))
  ]
    where
      cleared_state : Multi
      cleared_state = record s {
        router = absent;
        workers = λ j. worker_absent;
        router_drained = false;
        stopping = no_stop;
      }
