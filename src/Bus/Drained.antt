-- ===== src/Bus/Drained.antt =====
-- The drain at the end of `dispatchLoop` ends, and gives every message to its subscriptions.
use livio_ark.Prelude.{
  ℕ, suc, ◌+◌, ◌≡◌, refl, sym, ◌∙◌, Bool, List, [], ◌∷◌, none, some, if◌then◌else◌, length, tally,
  arith,
}
use mathlib.Core.Path.{subst}
use livio_ark.Levels.{split_levels}
use livio_ark.Levels.Matching.{IsConcrete}
use livio_ark.Registry.{find_topic}
use livio_ark.Slot.{Outcome}
use livio_ark.Slot.Laws.{logged}
use livio_ark.Queue.{Queue, try_dequeue}
use livio_ark.Queue.Fifo.{Holds, NoWrap, try_dequeue-Holds}
use livio_ark.Bus.Subscribing.{Subscriptions}
use livio_ark.Bus.Live.{Sub, Represents}
use livio_ark.Bus.Dispatching.{Message, dispatch_message}
use livio_ark.Bus.Found.{receives}
use livio_ark.Bus.Delivery.{dispatch_message-calls}
use livio_ark.Bus.Kept.{After, dispatch_message-After}
use livio_ark.Bus.Draining.{drain}

-- Every message is on a registered topic with no wildcard level.
abbrev pub AllKnown : Subscriptions → List Message → Type 0
AllKnown s [] = Unit
AllKnown s (m ∷ ms) =
    (find_topic m.topic_sv s.registry ≡ some m.topic_id)
    × IsConcrete (split_levels m.topic_sv)
    × AllKnown s ms

-- The sum over the calls that a message is to make.
abbrev pub share : (ℕ × ℕ → ℕ) → List Sub → Message → ℕ
share g live m =
    tally (λ u. if receives m.topic_sv m.type u then g (u.handler, m.data_) else 0) live

module _ {W : Type 0} (bus : W → Subscriptions) (queue : W → Queue Message)
    (set_queue : Queue Message → W → W) (call : ℕ → ℕ → W → Outcome × W) (f : ℕ) (w : W) where
  drain-end :
      (q : Queue Message) (taken : Bool)
      → try_dequeue (queue w) ≡ some (q, none, taken)
      → drain bus queue set_queue call (suc f) w ≡ some (set_queue q w)
  unfolding drain
  drain-end q taken e = rw (drain, e)

  drain-next :
      (q : Queue Message) (msg : Message) (taken : Bool) (w' : W)
      → try_dequeue (queue w) ≡ some (q, some msg, taken)
      → dispatch_message bus call msg (set_queue q w) ≡ some w'
      → drain bus queue set_queue call (suc f) w ≡ drain bus queue set_queue call f w'
  unfolding drain
  drain-next q msg taken w' e d = rw (drain, e) (rw d refl)

-- The queue, and what else the handlers can change.
module _ {U : Type 0} (subs : U → Subscriptions)
    (body : ℕ → ℕ → Queue Message × U → Outcome × (Queue Message × U))
    (keeps_queue : (h payload : ℕ) (v : Queue Message × U) → (body h payload v).1.0 ≡ v.0)
    (keeps_subs : (h payload : ℕ) (v : Queue Message × U)
      → subs (body h payload v).1.1 ≡ subs v.1) where
  -- Where handlers, throwing or not, leave the queue and the subscriptions as they are, the drain
  -- at the end of `dispatchLoop` of a queue that holds a list of messages on registered topics with
  -- no wildcard level, with the bus representing the live subscriptions, ends within one round more
  -- than there are messages and leaves the queue empty. Each message's data is given once to each
  -- live subscription that receives it, and no other call is made.
  pub drain-calls :
      (ms : List Message) (live : List Sub) (v : Queue Message × U) (log : List (ℕ × ℕ))
      → Represents live (subs v.1)
      → Holds ms v.0
      → NoWrap v.0
      → AllKnown (subs v.1) ms
      → (w : (Queue Message × U) × List (ℕ × ℕ)) × (drain
            (λ x. subs x.0.1)
            (λ x. x.0.0)
            (λ q x. ((q, x.0.1), x.1))
            (logged body)
            (suc (length ms))
            (v, log)
          ≡ some w)
        × Holds [] w.0.0
        × ((g : ℕ × ℕ → ℕ) → tally g w.1 ≡ tally g log + tally (share g live) ms)
  drain-calls [] live v log r h bound known = (
    ((v.0, v.1), log),
    drain-end _ _ _ _ 0 (v, log) v.0 _ (try_dequeue-Holds [] v.0 h bound),
    h,
    λ g. omega arith,
  )
  drain-calls (m ∷ ms) live v log r h bound known =
      let (q, taken, holds, same, end) = try_dequeue-Holds (m ∷ ms) v.0 h bound in
      let (w', done, same_subs, calls) =
        dispatch_message-calls (λ (p : Queue Message × U). subs p.1) body keeps_subs live m (q, v.1)
          log r known.0 known.1 in
      let same_queue : w'.0.0 ≡ q =
        unfold After in
        subst (After (λ (x : (Queue Message × U) × List (ℕ × ℕ)). x.0.0 ≡ q)) done (
          dispatch_message-After (λ (x : (Queue Message × U) × List (ℕ × ℕ)). subs x.0.1)
            (logged body) (λ x. x.0.0 ≡ q) (λ k payload x p. keeps_queue k payload x.0 ∙ p) m
            ((q, v.1), log) refl) in
      let (w, rest, empty, rest_calls) =
        drain-calls ms live w'.0 w'.1 (subst (Represents live) (sym same_subs) r)
          (subst (Holds ms) (sym same_queue) holds)
          (subst NoWrap (sym same_queue) (omega (arith, same, end)))
          (subst (λ s. AllKnown s ms) (sym same_subs) known.2) in
      (
        w,
        drain-next _ _ _ _ (suc (length ms)) (v, log) q m _ w' taken done ∙ rest,
        empty,
        λ g. omega (arith, calls g, rest_calls g),
      )
