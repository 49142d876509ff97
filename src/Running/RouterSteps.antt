-- ===== src/Running/RouterSteps.antt =====
-- With several workers: every step of the router succeeds and keeps what holds.
use mathlib.Core.List.{append_assoc, append-nil}
use livio_ark.Prelude.{
  ℕ, ◌^◌, ◌<◌, sym, ap, ◌∙◌, ◌≡◌, inl, inr, Bool-cases, [], ◌++◌, ◌==◌, keep-append, Option, arith,
}
use livio_ark.Queue.{Queue}
use livio_ark.Bus.Dispatching.{Message}
use livio_ark.Running.Loops.{Place, is_over, in_hand, handed, passed}
use livio_ark.Running.LeftSteps.{handed-more, history-more}
use livio_ark.Running.Multi.{Multi, worker_of}
use livio_ark.Running.MultiOrder.{on_topic, held, IsRouted}
use livio_ark.Running.LoopSteps.{Looped}

module _ (hash : ℕ → ℕ) (count : ℕ) {bound : ℕ} {s : Multi} (v : IsRouted hash count bound s)
    (small : bound < 2 ^ 63) (some_worker : 0 < count) where
  -- The loop over the main queue.
  pub Looped-IsRouted :
      (r : Option (Queue Message × Place)) (l : Looped s.running v.main_items s.queue s.router r)
      → in_hand s.router ≡ []
      → IsRouted hash count bound (record s {
        queue = l.queue_after;
        router = l.place_after;
        left = s.left ++ passed (in_hand l.place_after);
      })
  Looped-IsRouted r l empty = record {
    main_items = l.items_after;
    items = v.items;
    main_holds = l.holds;
    main_room = omega (arith, v.main_room, l.same_capacity, l.same_pos);
    holds = v.holds;
    rooms = v.rooms;
    history =
        history-more s.accepted s.left v.main_items (in_hand l.place_after) l.items_after v.history
          (sym (l.same_messages ∙ ap (λ x. x ++ v.main_items) empty));
    order = λ t.
        ap (on_topic t) (handed-more s.left (in_hand l.place_after))
        ∙ keep-append (λ m. m.topic_id == t) (handed s.left) (in_hand l.place_after)
        ∙ ap (λ ms. ms ++ on_topic t (in_hand l.place_after))
            (v.order t
              ∙ ap
                  (λ ms.
                    on_topic t s.delivered
                    ++ (on_topic t (held s v.items (worker_of hash count t)) ++ on_topic t ms))
                  empty
              ∙ ap (λ ms. on_topic t s.delivered ++ ms) (append-nil _))
        ∙ append_assoc (on_topic t s.delivered)
            (on_topic t (held s v.items (worker_of hash count t)))
            (on_topic t (in_hand l.place_after));
    routed = v.routed;
    drained = λ a. l.stays_ended (v.drained a);
    finals = v.finals;
    empty = v.empty;
    beyond = v.beyond;
    late_over = λ a b. elim (Bool-cases (is_over s.router)) [
      | inl over ↦ l.over_same a over ∙ v.late_over over b
      | inr not_over ↦ l.over_empty a not_over ∙ sym (v.late_none not_over)
    ];
    late_none = λ a. elim (Bool-cases (is_over s.router)) [
      | inl over ↦ let still = l.stays_over over in absurd cc
      | inr not_over ↦ v.late_none not_over
    ];
    looping = λ a. l.stays_looping a (v.looping a);
    waited = v.waited;
    joined = v.joined;
    rest_router = λ a b. l.stays_absent (v.rest_router a b);
    rest_workers = v.rest_workers;
    rest_items = v.rest_items;
  }
