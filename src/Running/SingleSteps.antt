-- ===== src/Running/SingleSteps.antt =====
-- With one dispatcher: every step keeps the order of the messages.
use mathlib.Core.Path.{subst}
use mathlib.Core.List.{append-nil}
use livio_ark.Prelude.{
  ℕ, ◌+◌, ◌^◌, ◌≤◌, ◌<◌, ◌≡◌, ◌≢◌, refl, sym, ap, ◌∙◌, inl, inr, Bool-cases, true, false, List, [],
  ◌∷◌, ◌++◌, Option, some, if◌then◌else◌, arith,
}
use livio_ark.Queue.{Queue}
use livio_ark.Queue.Fifo.{Holds}
use livio_ark.Bus.Dispatching.{Message}
use livio_ark.Running.Loops.{
  Place, absent, checking, polling, handling, draining, drain_handling, ended, in_hand, is_looping,
  loop_step, handed, all_of, passed,
}
use livio_ark.Running.LeftSteps.{handed-more, history-more}
use livio_ark.Running.LoopSteps.{Looped, loop_step-Looped}
use livio_ark.Running.Single.{Single, start, stop, join, dispatcher_step}

dispatcher_step-delivers :
    (s : Single) (m : Message)
    → s.dispatcher ≡ handling m
    → dispatcher_step s
      ≡ some (record s { dispatcher = checking 0; delivered = s.delivered ++ m ∷ [] })
unfolding dispatcher_step
dispatcher_step-delivers s m e = ground arith

dispatcher_step-drains :
    (s : Single) (m : Message)
    → s.dispatcher ≡ drain_handling m
    → dispatcher_step s
      ≡ some (record s { dispatcher = draining; delivered = s.delivered ++ m ∷ [] })
unfolding dispatcher_step
dispatcher_step-drains s m e = ground arith

dispatcher_step-loops :
    (s : Single) (place to : Place) (q : Queue Message)
    → s.dispatcher ≡ place
    → in_hand place ≡ []
    → loop_step s.running s.queue s.dispatcher ≡ some (q, to)
    → dispatcher_step s
      ≡ some (record s { queue = q; dispatcher = to; left = s.left ++ passed (in_hand to) })
unfolding dispatcher_step
dispatcher_step-loops s absent to q e empty e' = ground arith
dispatcher_step-loops s (checking idle) to q e empty e' = ground arith
dispatcher_step-loops s (polling idle) to q e empty e' = ground arith
dispatcher_step-loops s (handling m) to q e empty e' = cc
dispatcher_step-loops s draining to q e empty e' = ground arith
dispatcher_step-loops s (drain_handling m) to q e empty e' = cc
dispatcher_step-loops s ended to q e empty e' = ground arith

-- `bound` is one for the positions of the queue.
pub record IsOrdered (bound : ℕ) (s : Single) : Type 0 where
  pub items : List Message
  pub holds : Holds items s.queue
  pub room : s.queue.enqueue_pos + s.queue.capacity ≤ bound
  pub history : s.accepted ≡ all_of s.left ++ items
  pub order : handed s.left ≡ s.delivered ++ in_hand s.dispatcher
  pub looping : s.running ≡ true → is_looping s.dispatcher ≡ true
  pub gone : s.running ≡ false → s.stopping ≡ false → s.dispatcher ≡ absent
  pub stopped : s.stopping ≡ true → s.running ≡ false

-- What a step of the dispatcher is to give.
pub record IsStepped (bound : ℕ) (s : Single) (r : Option Single) : Type 0 where
  pub after : Single
  pub result : r ≡ some after
  pub ordered : IsOrdered bound after
  pub complete :
      after.dispatcher ≡ ended
      → s.dispatcher ≢ ended
      → (after.accepted ≡ all_of after.left) × (handed after.left ≡ after.delivered)

module _ {bound : ℕ} {s : Single} (v : IsOrdered bound s) (small : bound < 2 ^ 63) where
  pub start-IsOrdered : s.stopping ≡ false → IsOrdered bound (start s)
  start-IsOrdered at_rest = elim (Bool-cases s.running) [
    | inl e ↦
        subst (IsOrdered bound)
          (sym (ap (λ b. if b then s else record s { running = true; dispatcher = checking 0 }) e))
          v
    | inr e ↦
        let none_there = v.gone e at_rest in
        subst (IsOrdered bound)
          (sym (ap (λ b. if b then s else record s { running = true; dispatcher = checking 0 }) e))
          (record {
            items = v.items;
            holds = v.holds;
            room = v.room;
            history = v.history;
            order = v.order ∙ ap (λ p. s.delivered ++ in_hand p) none_there;
            looping = λ a. refl;
            gone = λ a b. cc;
            stopped = λ a. cc;
          })
  ]

  pub stop-IsOrdered : IsOrdered bound (stop s)
  stop-IsOrdered = elim (Bool-cases s.running) [
    | inl e ↦
        subst (IsOrdered bound)
          (sym (ap (λ b. if b then record s { running = false; stopping = true } else s) e))
          (record {
            items = v.items;
            holds = v.holds;
            room = v.room;
            history = v.history;
            order = v.order;
            looping = λ a. cc;
            gone = λ a b. cc;
            stopped = λ a. refl;
          })
    | inr e ↦
        subst (IsOrdered bound)
          (sym (ap (λ b. if b then record s { running = false; stopping = true } else s) e)) v
  ]

  pub join-IsOrdered : s.dispatcher ≡ ended → s.running ≡ false → IsOrdered bound (join s)
  join-IsOrdered over off = record {
    items = v.items;
    holds = v.holds;
    room = v.room;
    history = v.history;
    order = v.order ∙ ap (λ p. s.delivered ++ in_hand p) over;
    looping = λ a. cc;
    gone = λ a b. refl;
    stopped = λ a. cc;
  }

  Looped-IsStepped :
      Looped s.running v.items s.queue s.dispatcher (loop_step s.running s.queue s.dispatcher)
      → ((q : Queue Message) (p : Place)
          → loop_step s.running s.queue s.dispatcher ≡ some (q, p)
          → dispatcher_step s
            ≡ some (record s { queue = q; dispatcher = p; left = s.left ++ passed (in_hand p) }))
      → in_hand s.dispatcher ≡ []
      → IsStepped bound s (dispatcher_step s)
  Looped-IsStepped l step empty =
      let split : v.items ≡ in_hand l.place_after ++ l.items_after =
        sym (l.same_messages ∙ ap (λ x. x ++ v.items) empty) in
      let order' : handed (s.left ++ passed (in_hand l.place_after))
          ≡ s.delivered ++ in_hand l.place_after =
        handed-more s.left (in_hand l.place_after)
        ∙ ap (λ x. x ++ in_hand l.place_after)
            (v.order ∙ ap (λ x. s.delivered ++ x) empty ∙ append-nil s.delivered) in
      let history' = history-more s.accepted s.left v.items _ l.items_after v.history split in
      record {
        after = record s {
          queue = l.queue_after;
          dispatcher = l.place_after;
          left = s.left ++ passed (in_hand l.place_after);
        };
        result = step l.queue_after l.place_after l.result;
        ordered = record {
          items = l.items_after;
          holds = l.holds;
          room = omega (arith, v.room, l.same_capacity, l.same_pos);
          history = history';
          order = order';
          looping = λ a. l.stays_looping a (v.looping a);
          gone = λ a b. l.stays_absent (v.gone a b);
          stopped = v.stopped;
        };
        complete = λ a b. (
          history'
              ∙ ap (λ x. all_of (s.left ++ passed (in_hand l.place_after)) ++ x) (l.ends_empty a b)
              ∙ append-nil _,
          order' ∙ ap (λ p. s.delivered ++ in_hand p) a ∙ append-nil s.delivered,
        );
      }

  delivered-IsStepped :
      (m : Message) (p : Place)
      → in_hand s.dispatcher ≡ m ∷ []
      → in_hand p ≡ []
      → (p ≡ ended → ⊥)
      → (s.running ≡ true → is_looping p ≡ true)
      → (s.dispatcher ≡ absent → ⊥)
      → dispatcher_step s ≡ some (record s { dispatcher = p; delivered = s.delivered ++ m ∷ [] })
      → IsStepped bound s (dispatcher_step s)
  delivered-IsStepped m p hand empty goes_on loops there e = record {
    after = record s { dispatcher = p; delivered = s.delivered ++ m ∷ [] };
    result = e;
    ordered = record {
      items = v.items;
      holds = v.holds;
      room = v.room;
      history = v.history;
      order =
          v.order
          ∙ ap (λ x. s.delivered ++ x) hand
          ∙ sym (append-nil (s.delivered ++ m ∷ []))
          ∙ ap (λ x. (s.delivered ++ m ∷ []) ++ x) (sym empty);
      looping = loops;
      gone = λ a b. absurd (there (v.gone a b));
      stopped = v.stopped;
    };
    complete = λ a b. absurd (goes_on a);
  }

  loops-IsStepped :
      (p : Place) → s.dispatcher ≡ p → in_hand p ≡ [] → IsStepped bound s (dispatcher_step s)
  loops-IsStepped p e empty =
      Looped-IsStepped
        (loop_step-Looped s.running v.items s.queue s.dispatcher v.holds (omega (arith, v.room)))
        (λ q to given. dispatcher_step-loops s p to q e empty given) (ap in_hand e ∙ empty)

  pub dispatcher_step-IsStepped : IsStepped bound s (dispatcher_step s)
  dispatcher_step-IsStepped = by_place s.dispatcher refl
    where
      by_place : (p : Place) → s.dispatcher ≡ p → IsStepped bound s (dispatcher_step s)
      by_place (handling m) e =
          delivered-IsStepped m (checking 0) (ap in_hand e) refl (λ a. cc) (λ a. refl) (λ a. cc)
            (dispatcher_step-delivers s m e)
      by_place (drain_handling m) e =
          delivered-IsStepped m draining (ap in_hand e) refl (λ a. cc)
            (λ a. let looping = v.looping a in let not_looping = ap is_looping e in cc) (λ a. cc)
            (dispatcher_step-drains s m e)
      by_place absent e = loops-IsStepped absent e refl
      by_place (checking idle) e = loops-IsStepped (checking idle) e refl
      by_place (polling idle) e = loops-IsStepped (polling idle) e refl
      by_place draining e = loops-IsStepped draining e refl
      by_place ended e = loops-IsStepped ended e refl
