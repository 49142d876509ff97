-- ===== src/Running/MultiOrder.antt =====
-- With several workers: what holds between any two steps, and the messages of one topic in the order
-- in which they are on their way.
use mathlib.Core.List.{append_assoc}
use livio_ark.Prelude.{
  ℕ, ◌+◌, ◌≤◌, ◌<◌, ◌≡◌, ◌≢◌, sym, ap, ◌∙◌, Bool, true, false, List, [], ◌∷◌, ◌++◌, ◌==◌, keep,
  keep-append,
}
use livio_ark.Queue.Fifo.{Holds}
use livio_ark.Bus.Dispatching.{Message}
use livio_ark.Running.Loops.{absent, ended, in_hand, is_looping, is_over, all_of, handed}
use livio_ark.Running.Multi

abbrev pub worker_hand : Multi.WorkerPlace → List Message
worker_hand Multi.worker_absent = []
worker_hand (Multi.worker_checking idle) = []
worker_hand (Multi.worker_polling idle) = []
worker_hand (Multi.worker_handling m) = m ∷ []
worker_hand (Multi.waiting idle) = []
worker_hand (Multi.waiting_polling idle) = []
worker_hand (Multi.waiting_handling m) = m ∷ []
worker_hand Multi.final = []
worker_hand (Multi.final_handling m) = m ∷ []
worker_hand Multi.worker_ended = []

-- In the last loop, or after it.
abbrev pub is_final : Multi.WorkerPlace → Bool
is_final Multi.worker_absent = false
is_final (Multi.worker_checking idle) = false
is_final (Multi.worker_polling idle) = false
is_final (Multi.worker_handling m) = false
is_final (Multi.waiting idle) = false
is_final (Multi.waiting_polling idle) = false
is_final (Multi.waiting_handling m) = false
is_final Multi.final = true
is_final (Multi.final_handling m) = true
is_final Multi.worker_ended = true

abbrev pub is_waited : Multi.Stopping → Bool
is_waited Multi.no_stop = false
is_waited Multi.joining_router = true
is_waited (Multi.joining_worker i) = true

abbrev pub on_topic : ℕ → List Message → List Message
on_topic t = keep (λ m. m.topic_id == t)

-- The messages that a worker holds, in its hand and in its queue.
abbrev pub held : Multi.Multi → (ℕ → List Message) → ℕ → List Message
held s items i = worker_hand (s.workers i) ++ items i

module _ (hash : ℕ → ℕ) (count : ℕ) where
  -- The messages of a topic that the router took, in the order in which they will be delivered or
  -- were.
  abbrev pub line : ℕ → Multi.Multi → (ℕ → List Message) → List Message
  line t s items =
      on_topic t s.delivered
      ++ (on_topic t (held s items (Multi.worker_of hash count t)) ++ on_topic t (in_hand s.router))

  -- `items i` is in the queue of worker `i`, `main_items` in the main queue, and `bound` is one for
  -- the positions of the queues.
  pub record IsRouted (bound : ℕ) (s : Multi.Multi) : Type 0 where
    pub main_items : List Message
    pub items : ℕ → List Message
    pub main_holds : Holds main_items s.queue
    pub main_room : s.queue.enqueue_pos + s.queue.capacity ≤ bound
    pub holds : (i : ℕ) → Holds (items i) (s.worker_queues i)
    pub rooms : (i : ℕ) → (s.worker_queues i).enqueue_pos + (s.worker_queues i).capacity ≤ bound
    pub history : s.accepted ≡ all_of s.left ++ main_items
    pub order : (t : ℕ) → on_topic t (handed s.left) ≡ line t s items
    pub routed : (t i : ℕ) → Multi.worker_of hash count t ≢ i → on_topic t (held s items i) ≡ []
    pub drained : s.router_drained ≡ true → s.router ≡ ended
    pub finals : (i : ℕ) → is_final (s.workers i) ≡ true → s.router_drained ≡ true
    pub empty : (i : ℕ) → s.workers i ≡ Multi.worker_ended → items i ≡ []
    pub beyond : (i : ℕ) → count ≤ i → items i ≡ []
    pub late_over : is_over s.router ≡ true → s.cut ≡ false → main_items ≡ s.late
    pub late_none : is_over s.router ≡ false → s.late ≡ []
    pub looping : s.running ≡ true → is_looping s.router ≡ true
    pub waited : is_waited s.stopping ≡ true → s.running ≡ false
    pub joined :
        (i j : ℕ) → s.stopping ≡ Multi.joining_worker i → j < i → s.workers j ≡ Multi.worker_ended
    pub rest_router : s.running ≡ false → s.stopping ≡ Multi.no_stop → s.router ≡ absent
    pub rest_workers :
        s.running ≡ false → s.stopping ≡ Multi.no_stop → (i : ℕ) → s.workers i ≡ Multi.worker_absent
    pub rest_items : s.running ≡ false → s.stopping ≡ Multi.no_stop → (i : ℕ) → items i ≡ []

-- A worker delivers the first of what it holds.
pub line-delivers :
    (t : ℕ) (delivered out rest others : List Message)
    → on_topic t delivered ++ (on_topic t (out ++ rest) ++ others)
      ≡ on_topic t (delivered ++ out) ++ (on_topic t rest ++ others)
line-delivers t delivered out rest others =
    let p = λ (m : Message). m.topic_id == t in
    ap (λ x. keep p delivered ++ (x ++ others)) (keep-append p out rest)
    ∙ ap (λ x. keep p delivered ++ x) (append_assoc (keep p out) (keep p rest) others)
    ∙ sym (append_assoc (keep p delivered) (keep p out) (keep p rest ++ others))
    ∙ ap (λ x. x ++ (keep p rest ++ others)) (sym (keep-append p delivered out))

-- A message that goes from the router's hand to the end of a worker's queue.
pub line-routes :
    (t : ℕ) (before mine out rest : List Message)
    → before ++ (on_topic t mine ++ on_topic t (out ++ rest))
      ≡ before ++ (on_topic t (mine ++ out) ++ on_topic t rest)
line-routes t before mine out rest =
    let p = λ (m : Message). m.topic_id == t in
    ap (λ x. before ++ (keep p mine ++ x)) (keep-append p out rest)
    ∙ ap (λ x. before ++ x) (sym (append_assoc (keep p mine) (keep p out) (keep p rest)))
    ∙ ap (λ x. before ++ (x ++ keep p rest)) (sym (keep-append p mine out))
