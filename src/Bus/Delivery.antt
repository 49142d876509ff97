-- ===== src/Bus/Delivery.antt =====
-- `dispatchMessage` calls the handlers of the live subscriptions that are to get the message.
use livio_ark.Prelude.{
  ℕ, ◌+◌, ◌≡◌, refl, ◌∙◌, not, ◌&&◌, List, some, Bytes, ◌==◌, if◌then◌else◌, indicator, tally,
  tally-zero, ℕ_discrete, find, arith,
}
use mathlib.Core.Path.{subst}
use livio_ark.Levels.{split_levels}
use livio_ark.Levels.Matching.{IsConcrete, level_matches}
use livio_ark.Registry.{find_topic}
use livio_ark.Slot.{Outcome}
use livio_ark.Slot.Laws.{logged}
use livio_ark.Trie
use livio_ark.Trie.Refinement
use livio_ark.Bus.Subscribing.{Subscriptions}
use livio_ark.Bus.Live.{Sub, is_wild, wild_items, find_sub, SlotHolds, slot_of, Represents}
use livio_ark.Bus.Dispatching.{Message, dispatch_exact, dispatch_matched, dispatch_message}
use livio_ark.Bus.Found.{tally-Each, live-IsFound, receives, wild_share, receives-shares, wild_scan}
use livio_ark.Bus.Calls.{is_target, handler_of, exact-calls, matched-calls}

-- A sum over the slots that the trie gives is one over the live subscriptions with wildcards.
matched-tally :
    (live : List Sub) (s : Subscriptions) (topic : Bytes) (type : ℕ) (f : ℕ → ℕ) (g : Sub → ℕ)
    → Represents live s
    → IsConcrete (split_levels topic)
    → ((u : Sub)
        → find_sub u.id live ≡ some u
        → (if is_wild u
              && (level_matches (split_levels u.text) (split_levels topic) && u.type == type)
            then f u.id
            else 0)
          ≡ g u)
    → tally f (Trie.match topic type s.wildcard_trie) ≡ tally g live
matched-tally live s topic type f g r concrete same =
    Refinement.match-linear_scan (wild_items live) s.wildcard_trie topic type r.trie concrete f
    ∙ wild_scan f topic type live
    ∙ tally-Each (λ u. find_sub u.id live ≡ some u) _ g same live (live-IsFound live r.distinct)

dispatch_message-parts :
    {W : Type 0} (bus : W → Subscriptions) (call : ℕ → ℕ → W → Outcome × W) (msg : Message)
    (w w1 w2 : W)
    → dispatch_exact bus call (find ℕ_discrete msg.topic_id (bus w).slots) msg w ≡ some w1
    → dispatch_matched bus call (Trie.match msg.topic_sv msg.type (bus w1).wildcard_trie) msg w1
      ≡ some w2
    → dispatch_message bus call msg w ≡ some w2
unfolding dispatch_message
dispatch_message-parts bus call msg w w1 w2 e f = rw (dispatch_message, e) f

module _ {V : Type 0} (subs : V → Subscriptions) (body : ℕ → ℕ → V → Outcome × V)
    (keeps : (h payload : ℕ) (v : V) → subs (body h payload v).1 ≡ subs v) where
  -- Where handlers, throwing or not, leave the subscriptions as they are, the dispatch of a message
  -- on a registered topic with no wildcard level, from a bus that represents the live
  -- subscriptions, never casts a message to another type. It calls the handler of every live
  -- subscription that receives the message, with the message's data, once for each, and makes no
  -- other call.
  pub dispatch_message-calls :
      (live : List Sub) (msg : Message) (v : V) (log : List (ℕ × ℕ))
      → Represents live (subs v)
      → find_topic msg.topic_sv (subs v).registry ≡ some msg.topic_id
      → IsConcrete (split_levels msg.topic_sv)
      → (w : V × List (ℕ × ℕ)) × (dispatch_message
            (λ (x : V × List (ℕ × ℕ)). subs x.0)
            (logged body)
            msg
            (v, log)
          ≡ some w)
        × (subs w.0 ≡ subs v)
        × ((g : ℕ × ℕ → ℕ)
            → tally g w.1
              ≡ tally g log
                + tally
                    (λ u. if receives msg.topic_sv msg.type u then g (u.handler, msg.data_) else 0)
                    live)
  dispatch_message-calls live msg v log r known concrete =
      let held =
        subst (λ o. SlotHolds msg.topic_sv live (slot_of o (subs v).slots)) known
          (r.exact msg.topic_sv) in
      let (w1, done1, same1, calls1) =
        exact-calls subs body keeps live (find ℕ_discrete msg.topic_id (subs v).slots) msg (v, log)
          held in
      let matched = Trie.match msg.topic_sv msg.type (subs v).wildcard_trie in
      let targets : tally (λ id. indicator (not (is_target live msg.type id))) matched ≡ 0 =
        matched-tally live (subs v) msg.topic_sv msg.type _ (λ _. 0) r concrete
          (λ u p. ground arith)
        ∙ tally-zero (λ (u : Sub). 0) (λ u. refl) live in
      let (w2, done2, same2, calls2) =
        matched-calls subs body keeps live (subs v) msg r matched targets w1 same1 in
      (
        w2,
        dispatch_message-parts (λ (x : V × List (ℕ × ℕ)). subs x.0) (logged body) msg (v, log) w1 w2
            done1 (rw same1 done2),
        same2,
        λ g.
            let h : ℕ → ℕ = λ k. g (k, msg.data_) in
            omega (
              arith,
              calls1 g,
              calls2 g,
              receives-shares h msg.topic_sv msg.type live,
              matched-tally live (subs v) msg.topic_sv msg.type
                  (λ id. g (handler_of live id, msg.data_)) (wild_share h msg.topic_sv msg.type) r
                  concrete (λ u p. ground (arith, p)),
            ),
      )
