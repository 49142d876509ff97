-- ===== src/Running/WorkerSteps.antt =====
-- With several workers: every step of a worker succeeds and keeps what holds.
use mathlib.Core.Path.{subst}
use mathlib.Core.List.{append-nil}
use livio_ark.Prelude.{
  ℕ, ◌+◌, ◌^◌, ◌≤◌, ◌<◌, ◌≡◌, ◌≢◌, refl, sym, ap, ◌∙◌, Bool, true, false, List, [], ◌∷◌, ◌++◌,
  Option, none, some, if◌then◌else◌, update, arith,
}
use livio_ark.Queue.{Queue, try_dequeue}
use livio_ark.Queue.Fifo.{Holds, Dequeued, try_dequeue-Holds}
use livio_ark.Bus.Dispatching.{Message}
use livio_ark.Running.Loops.{backoff}
use livio_ark.Running.Multi.{
  WorkerPlace, worker_absent, worker_checking, worker_polling, worker_handling, waiting,
  waiting_polling, waiting_handling, final, final_handling, worker_ended, Multi, drain_backoff,
  took, at_place, worker_take, worker_deliver, worker_step,
}
use livio_ark.Running.MultiOrder.{worker_hand, is_final, held, IsRouted}
use livio_ark.Running.Workers.{changed-IsRouted, update-mine, update-other}

module _ (hash : ℕ → ℕ) (count : ℕ) {bound : ℕ} {s : Multi} (v : IsRouted hash count bound s)
    (small : bound < 2 ^ 63) (i : ℕ) (i_in : i < count) where
  abbrev pub Works : Option Multi → Type 0
  Works r = (u : Multi) × (r ≡ some u) × IsRouted hash count bound u

  -- A change of place with nothing in hand.
  placed-IsRouted :
      (place : WorkerPlace)
      → worker_hand (s.workers i) ≡ []
      → worker_hand place ≡ []
      → (is_final place ≡ true → s.router_drained ≡ true)
      → place ≢ worker_ended
      → s.workers i ≢ worker_absent
      → s.workers i ≢ worker_ended
      → IsRouted hash count bound (at_place hash count i place s)
  placed-IsRouted place was is finals not_ended there going =
      changed-IsRouted hash count v small i i_in place s.worker_queues s.delivered [] (v.items i)
        (sym (append-nil s.delivered)) (ap (λ ms. ms ++ v.items i) (is ∙ sym was)) (λ j other. refl)
        (v.holds i) (v.rooms i) finals (λ e. absurd (not_ended e)) there going

  worker_deliver-IsRouted :
      (m : Message) (after : WorkerPlace)
      → worker_hand (s.workers i) ≡ m ∷ []
      → worker_hand after ≡ []
      → (is_final after ≡ true → s.router_drained ≡ true)
      → after ≢ worker_ended
      → s.workers i ≢ worker_absent
      → s.workers i ≢ worker_ended
      → IsRouted hash count bound (worker_deliver hash count i m after s)
  worker_deliver-IsRouted m after was is finals not_ended there going =
      changed-IsRouted hash count v small i i_in after s.worker_queues (s.delivered ++ m ∷ [])
        (m ∷ []) (v.items i) refl
        (ap (λ ms. m ∷ (ms ++ v.items i)) is ∙ ap (λ ms. ms ++ v.items i) (sym was))
        (λ j other. refl) (v.holds i) (v.rooms i) finals (λ e. absurd (not_ended e)) there going

  worker_take-result :
      (got : Message → WorkerPlace) (empty : WorkerPlace) (q : Queue Message) (m : Option Message)
      (b : Bool)
      → try_dequeue (s.worker_queues i) ≡ some (q, m, b)
      → worker_take hash count i got empty s
        ≡ some (
            at_place hash count i
              (took m got empty)
              (record s { worker_queues = update i q s.worker_queues }))
  unfolding worker_take
  worker_take-result got empty q m b e = rw (worker_take, e) refl

  taken-IsRouted :
      (place : WorkerPlace) (q : Queue Message) (xs : List Message)
      → worker_hand place ++ xs ≡ held s v.items i
      → Holds xs q
      → q.capacity ≡ (s.worker_queues i).capacity
      → q.enqueue_pos ≡ (s.worker_queues i).enqueue_pos
      → (is_final place ≡ true → s.router_drained ≡ true)
      → (place ≡ worker_ended → xs ≡ [])
      → s.workers i ≢ worker_absent
      → s.workers i ≢ worker_ended
      → IsRouted hash count bound
          (at_place hash count i place (record s { worker_queues = update i q s.worker_queues }))
  taken-IsRouted place q xs same holds size pos finals over there going =
      changed-IsRouted hash count v small i i_in place (update i q s.worker_queues) s.delivered []
        xs (sym (append-nil s.delivered)) same (λ j other. update-other i j q s.worker_queues other)
        (subst (Holds xs) (sym (update-mine i q s.worker_queues)) holds)
        (subst (λ (k : Queue Message). k.enqueue_pos + k.capacity ≤ bound)
          (sym (update-mine i q s.worker_queues)) (omega (arith, v.rooms i, size, pos)))
        finals over there going

  worker_take-Works :
      (got : Message → WorkerPlace) (empty : WorkerPlace) (xs : List Message)
      → Holds xs (s.worker_queues i)
      → v.items i ≡ xs
      → Dequeued (s.worker_queues i) xs (try_dequeue (s.worker_queues i))
      → worker_hand (s.workers i) ≡ []
      → ((m : Message) → worker_hand (got m) ≡ m ∷ [])
      → worker_hand empty ≡ []
      → (is_final empty ≡ true → s.router_drained ≡ true)
      → ((m : Message) → is_final (got m) ≡ true → s.router_drained ≡ true)
      → ((m : Message) → got m ≢ worker_ended)
      → s.workers i ≢ worker_absent
      → s.workers i ≢ worker_ended
      → Works (worker_take hash count i got empty s)
  worker_take-Works got empty [] h same e was gets is final_empty final_got goes there going =
      let q = s.worker_queues i in
      (
        at_place hash count i empty (record s { worker_queues = update i q s.worker_queues }),
        worker_take-result got empty q none false e,
        taken-IsRouted empty q []
            (ap (λ ms. ms ++ []) (is ∙ sym was)
              ∙ ap (λ ms. worker_hand (s.workers i) ++ ms) (sym same))
            h refl refl final_empty (λ o. refl) there going,
      )
  worker_take-Works got empty (m ∷ xs) h same (q, e, holds, size, pos) was gets is final_empty
        final_got goes there going =
      (
        at_place hash count i (got m) (record s { worker_queues = update i q s.worker_queues }),
        worker_take-result got empty q (some m) true e,
        taken-IsRouted (got m) q xs
            (ap (λ ms. ms ++ xs) (gets m) ∙ sym same ∙ ap (λ ms. ms ++ v.items i) (sym was)) holds
            size pos (final_got m) (λ o. absurd (goes m o)) there going,
      )

  by_take :
      (got : Message → WorkerPlace) (empty : WorkerPlace)
      → worker_step hash count i s ≡ worker_take hash count i got empty s
      → worker_hand (s.workers i) ≡ []
      → ((m : Message) → worker_hand (got m) ≡ m ∷ [])
      → worker_hand empty ≡ []
      → (is_final empty ≡ true → s.router_drained ≡ true)
      → ((m : Message) → is_final (got m) ≡ true → s.router_drained ≡ true)
      → ((m : Message) → got m ≢ worker_ended)
      → s.workers i ≢ worker_absent
      → s.workers i ≢ worker_ended
      → Works (worker_step hash count i s)
  by_take got empty step was gets is final_empty final_got goes there going =
      let (u, e, w) =
        worker_take-Works got empty (v.items i) (v.holds i) refl
          (try_dequeue-Holds (v.items i) (s.worker_queues i) (v.holds i) (omega (arith, v.rooms i)))
          was gets is final_empty final_got goes there going in
      (u, step ∙ e, w)

  -- A change of place by a flag, to one of two that are neither at the end.
  flagged-Works :
      (b : Bool) (x y : WorkerPlace)
      → worker_step hash count i s ≡ some (at_place hash count i (if b then x else y) s)
      → worker_hand (s.workers i) ≡ []
      → (worker_hand x ≡ []) × (worker_hand y ≡ [])
      → (b ≡ true → is_final x ≡ true → s.router_drained ≡ true)
      → (is_final y ≡ true → s.router_drained ≡ true)
      → (x ≢ worker_ended) × (y ≢ worker_ended)
      → s.workers i ≢ worker_absent
      → s.workers i ≢ worker_ended
      → Works (worker_step hash count i s)
  flagged-Works true x y step was is finals_x finals_y not_ended there going = (
    at_place hash count i x s,
    step,
    placed-IsRouted x was is.0 (finals_x refl) not_ended.0 there going,
  )
  flagged-Works false x y step was is finals_x finals_y not_ended there going =
      (at_place hash count i y s, step, placed-IsRouted y was is.1 finals_y not_ended.1 there going)

  pub worker_step-Works : Works (worker_step hash count i s)
  unfolding worker_step
  worker_step-Works = by_place (s.workers i) refl
    where
      by_place : (p : WorkerPlace) → s.workers i ≡ p → Works (worker_step hash count i s)
      by_place worker_absent e = (s, rw (worker_step, e) refl, v)
      by_place worker_ended e = (s, rw (worker_step, e) refl, v)
      by_place (worker_checking idle) e =
          flagged-Works s.running (worker_polling idle) (waiting 0) (rw (worker_step, e) refl)
            (ap worker_hand e) (refl, refl) (λ b f. cc) (λ f. cc) ((λ f. cc), (λ f. cc)) (λ f. cc)
            (λ f. cc)
      by_place (worker_polling idle) e =
          by_take worker_handling (worker_checking (backoff idle)) (rw (worker_step, e) refl)
            (ap worker_hand e) (λ m. refl) refl (λ f. cc) (λ m f. cc) (λ m f. cc) (λ f. cc)
            (λ f. cc)
      by_place (worker_handling m) e = (
        worker_deliver hash count i m (worker_checking 0) s,
        rw (worker_step, e) refl,
        worker_deliver-IsRouted m (worker_checking 0) (ap worker_hand e) refl (λ f. cc) (λ f. cc)
            (λ f. cc) (λ f. cc),
      )
      by_place (waiting idle) e =
          flagged-Works s.router_drained final (waiting_polling idle) (rw (worker_step, e) refl)
            (ap worker_hand e) (refl, refl) (λ b f. b) (λ f. cc) ((λ f. cc), (λ f. cc)) (λ f. cc)
            (λ f. cc)
      by_place (waiting_polling idle) e =
          by_take waiting_handling (waiting (drain_backoff idle)) (rw (worker_step, e) refl)
            (ap worker_hand e) (λ m. refl) refl (λ f. cc) (λ m f. cc) (λ m f. cc) (λ f. cc)
            (λ f. cc)
      by_place (waiting_handling m) e = (
        worker_deliver hash count i m (waiting 0) s,
        rw (worker_step, e) refl,
        worker_deliver-IsRouted m (waiting 0) (ap worker_hand e) refl (λ f. cc) (λ f. cc) (λ f. cc)
            (λ f. cc),
      )
      by_place final e =
          let drained = v.finals i (ap is_final e) in
          by_take final_handling worker_ended (rw (worker_step, e) refl) (ap worker_hand e)
            (λ m. refl) refl (λ f. drained) (λ m f. drained) (λ m f. cc) (λ f. cc) (λ f. cc)
      by_place (final_handling m) e =
          let drained = v.finals i (ap is_final e) in
          (
            worker_deliver hash count i m final s,
            rw (worker_step, e) refl,
            worker_deliver-IsRouted m final (ap worker_hand e) refl (λ f. drained) (λ f. cc)
                (λ f. cc) (λ f. cc),
          )
