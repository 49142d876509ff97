-- ===== src/Running/SingleOrder.antt =====
-- With one dispatcher: messages are delivered in the order in which the queue took them, and the
-- thread ends when none is left.
use mathlib.Core.Path.{subst}
use livio_ark.Prelude.{ℕ, suc, ◌+◌, ◌^◌, ◌≤◌, ◌<◌, ◌≡◌, refl, sym, ap, ◌∙◌, [], none, some, arith}
use livio_ark.Queue.Rounding.{new_queue-Holds, new_queue-start}
use livio_ark.Bus.Dispatching.{Message}
use livio_ark.Running.Single.{
  Single, new_bus, dispatcher_step, Step, starts, stops, joins, dispatches, blocks, offers, stores,
  discards, Reach, here, next,
}
use livio_ark.Running.SingleOffers.{
  offer-IsOrdered, block-IsOrdered, store-IsOrdered, discard-IsOrdered, IsOrdered-later,
}
use livio_ark.Running.SingleSteps.{
  IsOrdered, start-IsOrdered, stop-IsOrdered, join-IsOrdered, IsStepped, dispatcher_step-IsStepped,
}

module _ {bound : ℕ} {s : Single} (v : IsOrdered bound s) (small : bound < 2 ^ 63) where
  Step-IsOrdered : {u : Single} → Step s u → IsOrdered (bound + 1) u
  Step-IsOrdered (starts a e) =
      subst (IsOrdered (bound + 1)) (sym e) (IsOrdered-later (start-IsOrdered v small a))
  Step-IsOrdered (stops e) =
      subst (IsOrdered (bound + 1)) (sym e) (IsOrdered-later (stop-IsOrdered v small))
  Step-IsOrdered (joins a b e) =
      subst (IsOrdered (bound + 1)) (sym e)
        (IsOrdered-later (join-IsOrdered v small b (v.stopped a)))
  Step-IsOrdered (dispatches a e) =
      let q = dispatcher_step-IsStepped v small in
      subst (IsOrdered (bound + 1)) (ap (λ r. elim r [ none ↦ s | some x ↦ x ]) (sym q.result ∙ e))
        (IsOrdered-later q.ordered)
  Step-IsOrdered (blocks c a e) =
      subst (IsOrdered (bound + 1)) (sym e) (IsOrdered-later (block-IsOrdered v small))
  Step-IsOrdered (stores pos a e) =
      subst (IsOrdered (bound + 1)) (sym e) (IsOrdered-later (store-IsOrdered v small pos))
  Step-IsOrdered (discards a e) =
      let (u', e', w) = discard-IsOrdered v small in
      subst (IsOrdered (bound + 1)) (ap (λ r. elim r [ none ↦ s | some x ↦ x ]) (sym e' ∙ e))
        (IsOrdered-later w)
  Step-IsOrdered (offers m took e) =
      let (u', took', e', w) = offer-IsOrdered v small m in
      subst (IsOrdered (bound + 1)) (ap (λ r. elim r [ none ↦ s | some x ↦ x.0 ]) (sym e' ∙ e)) w

new_bus-IsOrdered : (capacity : ℕ) → capacity ≤ 2 ^ 61 → IsOrdered (2 ^ 62) (new_bus capacity)
unfolding new_bus
new_bus-IsOrdered capacity bound =
    let (holds, le, lt) = new_queue-Holds {A = Message} capacity (omega arith) in
    record {
      items = [];
      holds = holds;
      room = omega (arith, new_queue-start Message capacity, lt);
      history = refl;
      order = refl;
      looping = λ a. cc;
      gone = λ a b. refl;
      stopped = λ a. refl;
    }

Reach-IsOrdered :
    (capacity n : ℕ) (s : Single)
    → capacity ≤ 2 ^ 61
    → n ≤ 2 ^ 61
    → Reach capacity n s
    → IsOrdered (2 ^ 62 + n) s
Reach-IsOrdered capacity n s bound few here = new_bus-IsOrdered capacity bound
Reach-IsOrdered capacity (suc n) s bound few (next r st) =
    let same : 2 ^ 62 + n + 1 ≡ 2 ^ 62 + suc n = omega arith in
    subst (λ b. IsOrdered b s) same
      (Step-IsOrdered (Reach-IsOrdered capacity n _ bound (omega arith) r) (omega arith) st)

-- At any time of a bus with one dispatcher, after up to 2 ^ 61 steps of its threads and of
-- publishers in any order, calls of start and stop not overlapping, with a queue of up to 2 ^ 61
-- messages, also where try_dequeue stood behind a try_enqueue that had not stored its message: the
-- accepted messages are, in their order, those that left the queue and those in it; those that left
-- it and were not discarded by DropOldest are, in their order, those delivered and the one in the
-- dispatcher's hand; the dispatcher is gone when the bus neither runs nor waits in stop; and its
-- next step, where it does not stand behind such a try_enqueue, succeeds, and ends its thread only
-- when every accepted message has been delivered or discarded.
pub Reach-InOrder :
    (capacity n : ℕ) (s : Single)
    → capacity ≤ 2 ^ 61
    → n ≤ 2 ^ 61
    → Reach capacity n s
    → IsOrdered (2 ^ 62 + n) s × IsStepped (2 ^ 62 + n) s (dispatcher_step s)
Reach-InOrder capacity n s bound few r =
    let v = Reach-IsOrdered capacity n s bound few r in
    (v, dispatcher_step-IsStepped v (omega arith))
