-- ===== src/Running/LoopSteps.antt =====
-- A step of the loop over the main queue takes the oldest message into the thread's hand, or leaves
-- the messages as they are; it ends the loop only on an empty queue.
use livio_ark.Prelude.{
  ℕ, ◌≡◌, refl, ap, Bool, true, false, List, [], ◌∷◌, ◌++◌, Option, some, if◌then◌else◌,
}
use livio_ark.Queue.{Queue, try_dequeue}
use livio_ark.Queue.Fifo.{Holds, NoWrap, Dequeued, try_dequeue-Holds}
use livio_ark.Bus.Dispatching.{Message}
use livio_ark.Running.Loops.{
  Place, absent, checking, polling, handling, draining, drain_handling, ended, in_hand, is_looping,
  is_over, backoff, loop_step,
}

pub record Looped (running : Bool) (items : List Message) (q : Queue Message) (place : Place)
    (r : Option (Queue Message × Place)) : Type 0 where
  pub queue_after : Queue Message
  pub place_after : Place
  pub items_after : List Message
  pub result : r ≡ some (queue_after, place_after)
  pub holds : Holds items_after queue_after
  pub same_capacity : queue_after.capacity ≡ q.capacity
  pub same_pos : queue_after.enqueue_pos ≡ q.enqueue_pos
  pub same_messages : in_hand place_after ++ items_after ≡ in_hand place ++ items
  pub ends_empty : place_after ≡ ended → (place ≡ ended → ⊥) → items_after ≡ []
  pub stays_looping : running ≡ true → is_looping place ≡ true → is_looping place_after ≡ true
  pub stays_absent : place ≡ absent → place_after ≡ absent
  pub stays_ended : place ≡ ended → place_after ≡ ended
  pub stays_over : is_over place ≡ true → is_over place_after ≡ true
  pub over_same : is_over place_after ≡ true → is_over place ≡ true → items_after ≡ items
  pub over_empty : is_over place_after ≡ true → is_over place ≡ false → items_after ≡ []

module _ (running : Bool) where
  polled :
      (items : List Message) (q : Queue Message) (idle : ℕ)
      → Holds items q
      → Dequeued q items (try_dequeue q)
      → Looped running items q (polling idle) (loop_step running q (polling idle))
  unfolding loop_step
  polled [] q idle h e = record {
    queue_after = q;
    place_after = checking (backoff idle);
    items_after = [];
    result = rw (loop_step, e) refl;
    holds = h;
    same_capacity = refl;
    same_pos = refl;
    same_messages = refl;
    ends_empty = λ a b. refl;
    stays_looping = λ a b. refl;
    stays_absent = λ a. cc;
    stays_ended = λ a. cc;
    stays_over = λ a. cc;
    over_same = λ a b. cc;
    over_empty = λ a b. cc;
  }
  polled (m ∷ ms) q idle h (q', e, holds, size, pos) = record {
    queue_after = q';
    place_after = handling m;
    items_after = ms;
    result = rw (loop_step, e) refl;
    holds = holds;
    same_capacity = size;
    same_pos = pos;
    same_messages = refl;
    ends_empty = λ a b. cc;
    stays_looping = λ a b. refl;
    stays_absent = λ a. cc;
    stays_ended = λ a. cc;
    stays_over = λ a. cc;
    over_same = λ a b. cc;
    over_empty = λ a b. cc;
  }

  drained :
      (items : List Message) (q : Queue Message)
      → Holds items q
      → Dequeued q items (try_dequeue q)
      → Looped running items q draining (loop_step running q draining)
  unfolding loop_step
  drained [] q h e = record {
    queue_after = q;
    place_after = ended;
    items_after = [];
    result = rw (loop_step, e) refl;
    holds = h;
    same_capacity = refl;
    same_pos = refl;
    same_messages = refl;
    ends_empty = λ a b. refl;
    stays_looping = λ a b. cc;
    stays_absent = λ a. cc;
    stays_ended = λ a. cc;
    stays_over = λ a. cc;
    over_same = λ a b. cc;
    over_empty = λ a b. refl;
  }
  drained (m ∷ ms) q h (q', e, holds, size, pos) = record {
    queue_after = q';
    place_after = drain_handling m;
    items_after = ms;
    result = rw (loop_step, e) refl;
    holds = holds;
    same_capacity = size;
    same_pos = pos;
    same_messages = refl;
    ends_empty = λ a b. cc;
    stays_looping = λ a b. cc;
    stays_absent = λ a. cc;
    stays_ended = λ a. cc;
    stays_over = λ a. cc;
    over_same = λ a b. cc;
    over_empty = λ a b. cc;
  }

  stayed :
      (items : List Message) (q : Queue Message) (place next : Place)
      → Holds items q
      → loop_step running q place ≡ some (q, next)
      → in_hand next ≡ in_hand place
      → (next ≡ ended → place ≡ ended)
      → (running ≡ true → is_looping place ≡ true → is_looping next ≡ true)
      → (place ≡ absent → next ≡ absent)
      → (place ≡ ended → next ≡ ended)
      → (is_over place ≡ true → is_over next ≡ true)
      → (is_over place ≡ false → is_over next ≡ true → ⊥)
      → Looped running items q place (loop_step running q place)
  stayed items q place next h e same ends looping gone over over_still not_over = record {
    queue_after = q;
    place_after = next;
    items_after = items;
    result = e;
    holds = h;
    same_capacity = refl;
    same_pos = refl;
    same_messages = ap (λ x. x ++ items) same;
    ends_empty = λ a b. absurd (b (ends a));
    stays_looping = looping;
    stays_absent = gone;
    stays_ended = over;
    stays_over = over_still;
    over_same = λ a b. refl;
    over_empty = λ a b. absurd (not_over b a);
  }

  pub loop_step-Looped :
      (items : List Message) (q : Queue Message) (place : Place)
      → Holds items q
      → NoWrap q
      → Looped running items q place (loop_step running q place)
  unfolding loop_step
  loop_step-Looped items q absent h fits =
      stayed items q absent absent h refl refl (λ e. e) (λ a b. b) (λ e. e) (λ e. e) (λ e. e)
        (λ a b. cc)
  loop_step-Looped items q (checking idle) h fits =
      stayed items q (checking idle) (if running then polling idle else draining) h refl
        (by_flag running) (not_ended running) (looping running) (λ e. cc) (λ e. cc) (λ e. cc)
        (not_over running)
    where
      by_flag : (b : Bool) → in_hand (if b then polling idle else draining) ≡ []
      by_flag true = refl
      by_flag false = refl

      looping :
          (b : Bool)
          → b ≡ true
          → is_looping (checking idle) ≡ true
          → is_looping (if b then polling idle else draining) ≡ true
      looping true a e = refl
      looping false a e = cc

      not_over :
          (b : Bool)
          → is_over (checking idle) ≡ false
          → is_over (if b then polling idle else draining) ≡ true
          → ⊥
      not_over true a e = cc
      not_over false a e = cc

      not_ended :
          (b : Bool) → (if b then polling idle else draining) ≡ ended → checking idle ≡ ended
      not_ended true e = cc
      not_ended false e = cc
  loop_step-Looped items q (polling idle) h fits =
      polled items q idle h (try_dequeue-Holds items q h fits)
  loop_step-Looped items q (handling m) h fits =
      stayed items q (handling m) (handling m) h refl refl (λ e. e) (λ a b. b) (λ e. e) (λ e. e)
        (λ e. e) (λ a b. cc)
  loop_step-Looped items q draining h fits = drained items q h (try_dequeue-Holds items q h fits)
  loop_step-Looped items q (drain_handling m) h fits =
      stayed items q (drain_handling m) (drain_handling m) h refl refl (λ e. e) (λ a b. b) (λ e. e)
        (λ e. e) (λ e. e) (λ a b. cc)
  loop_step-Looped items q ended h fits =
      stayed items q ended ended h refl refl (λ e. e) (λ a b. b) (λ e. e) (λ e. e) (λ e. e)
        (λ a b. cc)
