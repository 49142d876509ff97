-- ===== src/Running/Workers.antt =====
-- With several workers: what a worker can change, and that it keeps what holds.
use mathlib.Core.Path.{subst}
use mathlib.Core.List.{append-nil}
use livio_ark.Prelude.{
  ℕ, ◌+◌, ◌^◌, ◌≤◌, ◌<◌, ◌≡◌, ◌≢◌, sym, ap, ◌∙◌, true, List, [], ◌++◌, ◌==◌, update, keep-append,
  append_nil_left, append_nil_right, ℕ_discrete, arith,
}
use livio_ark.Queue.{Queue}
use livio_ark.Queue.Fifo.{Holds}
use livio_ark.Bus.Dispatching.{Message}
use livio_ark.Running.Loops.{in_hand}
use livio_ark.Running.Multi.{WorkerPlace, worker_absent, worker_ended, Multi, worker_of}
use livio_ark.Running.MultiOrder.{
  worker_hand, is_final, on_topic, held, line, IsRouted, line-delivers,
}

pub update-mine : {A : Type 0} (i : ℕ) (x : A) (f : ℕ → A) → update i x f i ≡ x
update-mine i x f = ground arith

pub update-other : {A : Type 0} (i j : ℕ) (x : A) (f : ℕ → A) → j ≢ i → update i x f j ≡ f j
update-other i j x f other = ground arith

module _ (hash : ℕ → ℕ) (count : ℕ) {bound : ℕ} {s : Multi} (v : IsRouted hash count bound s)
    (small : bound < 2 ^ 63) (i : ℕ) (i_in : i < count) where
  -- The state after the worker's place, its queue and what is delivered have changed.
  abbrev pub changed : WorkerPlace → (ℕ → Queue Message) → List Message → Multi
  changed place queues delivered = record s {
    workers = update i place s.workers;
    worker_queues = queues;
    delivered = delivered;
  }

  held-mine :
      (place : WorkerPlace) (queues : ℕ → Queue Message) (delivered xs : List Message)
      → held (changed place queues delivered) (update i xs v.items) i ≡ worker_hand place ++ xs
  held-mine place queues delivered xs = ground arith

  held-other :
      (place : WorkerPlace) (queues : ℕ → Queue Message) (delivered xs : List Message) (j : ℕ)
      → j ≢ i
      → held (changed place queues delivered) (update i xs v.items) j ≡ held s v.items j
  held-other place queues delivered xs j other = ground arith

  -- Another worker's topics are not among what this one holds.
  nothing_on :
      (t : ℕ) (out rest : List Message)
      → out ++ rest ≡ held s v.items i
      → worker_of hash count t ≢ i
      → on_topic t out ++ on_topic t rest ≡ []
  nothing_on t out rest same other =
      sym (keep-append (λ m. m.topic_id == t) out rest) ∙ ap (on_topic t) same ∙ v.routed t i other

  -- `out` goes out of what the worker holds, of which `rest` stays.
  changed-line :
      (place : WorkerPlace) (queues : ℕ → Queue Message) (delivered out xs : List Message) (t : ℕ)
      → delivered ≡ s.delivered ++ out
      → out ++ (worker_hand place ++ xs) ≡ held s v.items i
      → line hash count t s v.items
        ≡ line hash count t (changed place queues delivered) (update i xs v.items)
  changed-line place queues delivered out xs t e same =
      elim (ℕ_discrete (worker_of hash count t) i) [
        | yes mine ↦
            let rest = worker_hand place ++ xs in
            let others = on_topic t (in_hand s.router) in
            ap (λ k. on_topic t s.delivered ++ (on_topic t (held s v.items k) ++ others)) mine
            ∙ ap (λ ms. on_topic t s.delivered ++ (on_topic t ms ++ others)) (sym same)
            ∙ line-delivers t s.delivered out rest others
            ∙ ap (λ ms. on_topic t ms ++ (on_topic t rest ++ others)) (sym e)
            ∙ ap (λ ms. on_topic t delivered ++ (on_topic t ms ++ others))
                (sym (held-mine place queues delivered xs))
            ∙ ap
                (λ k.
                  on_topic t delivered
                  ++ (on_topic t (held (changed place queues delivered) (update i xs v.items) k)
                      ++ others))
                (sym mine)
        | no other ↦
            let others = on_topic t (in_hand s.router) in
            let k = worker_of hash count t in
            let nothing =
              append_nil_left _ _ (nothing_on t out (worker_hand place ++ xs) same other) in
            let same_delivered : on_topic t delivered ≡ on_topic t s.delivered =
              ap (on_topic t) e
              ∙ keep-append (λ m. m.topic_id == t) s.delivered out
              ∙ ap (λ ms. on_topic t s.delivered ++ ms) nothing
              ∙ append-nil (on_topic t s.delivered) in
            ap (λ ms. ms ++ (on_topic t (held s v.items k) ++ others)) (sym same_delivered)
            ∙ ap (λ ms. on_topic t delivered ++ (on_topic t ms ++ others))
                (sym (held-other place queues delivered xs k other))
      ]

  pub changed-IsRouted :
      (place : WorkerPlace) (queues : ℕ → Queue Message) (delivered out xs : List Message)
      → delivered ≡ s.delivered ++ out
      → out ++ (worker_hand place ++ xs) ≡ held s v.items i
      → ((j : ℕ) → j ≢ i → queues j ≡ s.worker_queues j)
      → Holds xs (queues i)
      → (queues i).enqueue_pos + (queues i).capacity ≤ bound
      → (is_final place ≡ true → s.router_drained ≡ true)
      → (place ≡ worker_ended → xs ≡ [])
      → s.workers i ≢ worker_absent
      → s.workers i ≢ worker_ended
      → IsRouted hash count bound (changed place queues delivered)
  changed-IsRouted place queues delivered out xs e same others holds room finals over there going =
      record {
        main_items = v.main_items;
        items = update i xs v.items;
        main_holds = v.main_holds;
        main_room = v.main_room;
        holds = λ j. elim (ℕ_discrete j i) [
          | yes mine ↦
              subst (λ k. Holds (update i xs v.items k) (queues k)) (sym mine)
                (subst (λ ms. Holds ms (queues i)) (sym (update-mine i xs v.items)) holds)
          | no other ↦
              subst (λ ms. Holds ms (queues j)) (sym (update-other i j xs v.items other))
                (subst (Holds (v.items j)) (sym (others j other)) (v.holds j))
        ];
        rooms = λ j. elim (ℕ_discrete j i) [
          | yes mine ↦
              subst (λ k. (queues k).enqueue_pos + (queues k).capacity ≤ bound) (sym mine) room
          | no other ↦
              subst (λ (q : Queue Message). q.enqueue_pos + q.capacity ≤ bound)
                (sym (others j other)) (v.rooms j)
        ];
        history = v.history;
        order = λ t. v.order t ∙ changed-line place queues delivered out xs t e same;
        routed = λ t j away. elim (ℕ_discrete j i) [
          | yes mine ↦
              subst
                (λ k.
                  on_topic t (held (changed place queues delivered) (update i xs v.items) k) ≡ [])
                (sym mine)
                (ap (on_topic t) (held-mine place queues delivered xs)
                  ∙ append_nil_right _ _
                      (nothing_on t out (worker_hand place ++ xs) same (λ w. away (w ∙ sym mine))))
          | no other ↦
              ap (on_topic t) (held-other place queues delivered xs j other) ∙ v.routed t j away
        ];
        drained = v.drained;
        finals = λ j a. ground (arith, v.finals j);
        empty = λ j a. ground (arith, v.empty j);
        beyond = λ j a. ground (arith, v.beyond j);
        late_over = v.late_over;
        late_none = v.late_none;
        looping = v.looping;
        waited = v.waited;
        joined = λ k j a b. ground (arith, v.joined k j);
        rest_router = v.rest_router;
        rest_workers = λ a b. absurd (there (v.rest_workers a b i));
        rest_items = λ a b. absurd (there (v.rest_workers a b i));
      }
