-- ===== src/Running/SingleOffers.antt =====
-- With one dispatcher: publish keeps the order of the messages.
use livio_ark.Prelude.{
  ℕ, ◌+◌, ◌^◌, ◌<◌, ◌≡◌, refl, sym, ap, ◌∙◌, inl, inr, Bool, true, false, List, [], ◌∷◌, ◌++◌, none,
  some, arith,
}
use livio_ark.Queue.{Queue, try_enqueue, try_dequeue}
use livio_ark.Queue.Fifo.{
  NoWrap, Dequeued, try_enqueue-Holds, try_enqueue-stored, try_dequeue-Holds,
}
use livio_ark.Bus.Dispatching.{Message}
use livio_ark.Running.Loops.{
  Place, absent, checking, polling, handling, draining, drain_handling, ended, in_hand, is_looping,
  empty_handed, all_of,
}
use livio_ark.Running.LeftSteps.{handed-discard, history-discard, history-offer}
use livio_ark.Running.Single.{Single, offer, discard, block_dispatcher, store}
use livio_ark.Running.SingleSteps.{IsOrdered}

offer-stored :
    (m : Message) (s : Single) (q : Queue Message)
    → try_enqueue m s.queue ≡ some (q, true)
    → offer m s
      ≡ some (
        record s {
          queue = q;
          accepted = s.accepted ++ m ∷ [];
          unstored = s.queue.enqueue_pos ∷ s.unstored;
        },
        true,
      )
unfolding offer
offer-stored m s q e = rw (offer, e) refl

offer-refused :
    (m : Message) (s : Single) (q : Queue Message)
    → try_enqueue m s.queue ≡ some (q, false)
    → offer m s ≡ some (record s { queue = q }, false)
unfolding offer
offer-refused m s q e = rw (offer, e) refl

module _ {bound : ℕ} {s : Single} (v : IsOrdered bound s) (small : bound < 2 ^ 63) where
  pub offer-IsOrdered :
      (m : Message)
      → (u : Single) × (took : Bool) × (offer m s ≡ some (u, took)) × IsOrdered (bound + 1) u
  offer-IsOrdered m =
      let fits : NoWrap s.queue = omega (arith, v.room) in
      elim (try_enqueue-Holds v.items s.queue m v.holds fits) [
        | inl (room, stored) ↦
            let (q, e, holds, size, pos) = try_enqueue-stored v.items s.queue m v.holds fits room in
            (
              record s {
                queue = q;
                accepted = s.accepted ++ m ∷ [];
                unstored = s.queue.enqueue_pos ∷ s.unstored;
              },
              true,
              offer-stored m s q e,
              record {
                items = v.items ++ m ∷ [];
                holds = holds;
                room = omega (arith, v.room, size, pos);
                history = history-offer s.accepted s.left v.items (m ∷ []) v.history;
                order = v.order;
                looping = v.looping;
                gone = v.gone;
                stopped = v.stopped;
              },
            )
        | inr (full, e) ↦ (
          record s { queue = s.queue },
          false,
          offer-refused m s s.queue e,
          record {
            items = v.items;
            holds = v.holds;
            room = omega (arith, v.room);
            history = v.history;
            order = v.order;
            looping = v.looping;
            gone = v.gone;
            stopped = v.stopped;
          },
        )
      ]

pub IsOrdered-later : {bound : ℕ} {s : Single} → IsOrdered bound s → IsOrdered (bound + 1) s
IsOrdered-later v = record {
  items = v.items;
  holds = v.holds;
  room = omega (arith, v.room);
  history = v.history;
  order = v.order;
  looping = v.looping;
  gone = v.gone;
  stopped = v.stopped;
}

-- A call of the queue that finds nothing leaves a thread with no message where it had none.
pub empty_handed-hand : (p : Place) → in_hand (empty_handed p) ≡ in_hand p
empty_handed-hand absent = refl
empty_handed-hand (checking idle) = refl
empty_handed-hand (polling idle) = refl
empty_handed-hand (handling m) = refl
empty_handed-hand draining = refl
empty_handed-hand (drain_handling m) = refl
empty_handed-hand ended = refl

pub empty_handed-looping : (p : Place) → is_looping (empty_handed p) ≡ is_looping p
empty_handed-looping absent = refl
empty_handed-looping (checking idle) = refl
empty_handed-looping (polling idle) = refl
empty_handed-looping (handling m) = refl
empty_handed-looping draining = refl
empty_handed-looping (drain_handling m) = refl
empty_handed-looping ended = refl

module _ {bound : ℕ} {s : Single} (v : IsOrdered bound s) (small : bound < 2 ^ 63) where
  pub block-IsOrdered : IsOrdered bound (block_dispatcher s)
  block-IsOrdered = record {
    items = v.items;
    holds = v.holds;
    room = v.room;
    history = v.history;
    order = v.order ∙ ap (λ x. s.delivered ++ x) (sym (empty_handed-hand s.dispatcher));
    looping = λ a. empty_handed-looping s.dispatcher ∙ v.looping a;
    gone = λ a b. ap empty_handed (v.gone a b);
    stopped = v.stopped;
  }

  pub store-IsOrdered : (pos : ℕ) → IsOrdered bound (store pos s)
  store-IsOrdered pos = record {
    items = v.items;
    holds = v.holds;
    room = v.room;
    history = v.history;
    order = v.order;
    looping = v.looping;
    gone = v.gone;
    stopped = v.stopped;
  }

  discard-nothing :
      (q : Queue Message)
      → try_dequeue s.queue ≡ some (q, none, false)
      → discard s ≡ some (record s { queue = q })
  unfolding discard
  discard-nothing q e = rw (discard, e) refl

  discard-oldest :
      (q : Queue Message) (m : Message)
      → try_dequeue s.queue ≡ some (q, some m, true)
      → discard s ≡ some (record s { queue = q; left = s.left ++ (false, m) ∷ [] })
  unfolding discard
  discard-oldest q m e = rw (discard, e) refl

  discarded :
      (items : List Message)
      → v.items ≡ items
      → Dequeued s.queue items (try_dequeue s.queue)
      → (u : Single) × (discard s ≡ some u) × IsOrdered bound u
  discarded [] same e = (record s { queue = s.queue }, discard-nothing s.queue e, v)
  discarded (m ∷ ms) same (q, e, holds, size, pos) = (
    record s { queue = q; left = s.left ++ (false, m) ∷ [] },
    discard-oldest q m e,
    record {
      items = ms;
      holds = holds;
      room = omega (arith, v.room, size, pos);
      history =
          history-discard s.accepted s.left m ms (v.history ∙ ap (λ x. all_of s.left ++ x) same);
      order = handed-discard s.left m ∙ v.order;
      looping = v.looping;
      gone = v.gone;
      stopped = v.stopped;
    },
  )

  pub discard-IsOrdered : (u : Single) × (discard s ≡ some u) × IsOrdered bound u
  discard-IsOrdered =
      discarded v.items refl (try_dequeue-Holds v.items s.queue v.holds (omega (arith, v.room)))
