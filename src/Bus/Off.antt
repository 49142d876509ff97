-- ===== src/Bus/Off.antt =====
-- `unsubscribe` and the destructor of `AsyncWaitAwaitable` of `MessageBus`
-- (include/livioark/msgbus/message_bus.h) take the id off the bus.
use mathlib.Core.Path.{subst}
use livio_ark.Prelude.{
  ℕ, ◌≡◌, ◌≢◌, refl, sym, ap, ◌∙◌, inl, inr, Bool-cases, Option-cases, if-holds, none, some, ◌==◌,
  if◌then◌else◌, ℕ_discrete, find, erase, find-erase, pick-same, arith,
}
use livio_ark.Bus.Subscribing.{Subscriptions, SubInfo, remove_sub, unsubscribe}
use livio_ark.Bus.Waiting.{Wait, destroy}

-- Nothing of the subscription with an id is left in the bus's table.
abbrev pub IsOff : ℕ → Subscriptions → Type 0
IsOff id bus = find ℕ_discrete id bus.sub_to_topic ≡ none

remove_sub-info :
    (id : ℕ) (i : SubInfo) (s : Subscriptions) → (remove_sub id i s).sub_to_topic ≡ s.sub_to_topic
unfolding remove_sub
remove_sub-info id i s =
    if-holds (λ (t : Subscriptions). t.sub_to_topic ≡ s.sub_to_topic) i.is_wildcard refl refl

unsubscribe-unknown :
    (id : ℕ) (s : Subscriptions) → find ℕ_discrete id s.sub_to_topic ≡ none → unsubscribe id s ≡ s
unfolding unsubscribe
unsubscribe-unknown id s e = rw (e, unsubscribe) refl

unsubscribe-known :
    (id : ℕ) (i : SubInfo) (s : Subscriptions)
    → find ℕ_discrete id s.sub_to_topic ≡ some i
    → unsubscribe id s
      ≡ remove_sub id i (record s { sub_to_topic = erase ℕ_discrete id s.sub_to_topic })
unfolding unsubscribe
unsubscribe-known id i s e = rw (e, unsubscribe) refl

pub unsubscribe-IsOff : (id : ℕ) (s : Subscriptions) → IsOff id (unsubscribe id s)
unsubscribe-IsOff id s = elim (Option-cases (find ℕ_discrete id s.sub_to_topic)) [
  | inl e ↦ subst (IsOff id) (sym (unsubscribe-unknown id s e)) e
  | inr (i, e) ↦
      let erased = record s { sub_to_topic = erase ℕ_discrete id s.sub_to_topic } in
      subst (IsOff id) (sym (unsubscribe-known id i s e)) (
        ap (find ℕ_discrete id) (remove_sub-info id i erased)
        ∙ find-erase ℕ_discrete id id s.sub_to_topic
        ∙ pick-same ℕ_discrete id none (find ℕ_discrete id s.sub_to_topic))
]

pub destroy-IsOff : (w : Wait) → w.sub_id ≢ 0 → IsOff w.sub_id (destroy w).bus
destroy-IsOff w some_id = elim (Bool-cases (w.sub_id == 0)) [
  | inl e ↦ absurd (some_id (let same : w.sub_id ≡ 0 = ground arith in same))
  | inr e ↦
      subst (λ b. IsOff w.sub_id (if b then w.bus else unsubscribe w.sub_id w.bus)) (sym e)
        (unsubscribe-IsOff w.sub_id w.bus)
]
