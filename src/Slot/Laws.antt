-- ===== src/Slot/Laws.antt =====
-- What a slot's operations do to its subscribers.
use livio_ark.Prelude.{
  ℕ, ◌≡◌, refl, sym, ◌∙◌, ap, ◌↔◌, inl, inr, Bool-cases, false, not, List, [], ◌∷◌, ◌++◌, map, ◌==◌,
  indicator, keep, tally, arith,
}
use mathlib.Core.List.{append-nil, append_assoc}
use livio_ark.Slot.{
  Subscriber, Slot, copy_without, remove_subscriber, Outcome, returned, threw, caught, dispatch_to,
}

pub caught-snd : {W : Type 0} (r : Outcome × W) → caught r ≡ r.1
unfolding caught
caught-snd (returned, w) = refl
caught-snd (threw, w) = refl

-- How often the id is in the list.
abbrev pub times : ℕ → List Subscriber → ℕ
times id = tally (λ s. indicator (s.id == id))

abbrev pub others_than : ℕ → List Subscriber → List Subscriber
others_than id = keep (λ s. not (s.id == id))

copy_without-fst : (id : ℕ) (ss : List Subscriber) → (copy_without id ss).0 ≡ others_than id ss
unfolding copy_without
copy_without-fst id [] = refl
copy_without-fst id (s ∷ ss) = ground (arith, copy_without-fst id ss)

copy_without-snd :
    (id : ℕ) (ss : List Subscriber) → ((copy_without id ss).1 ≡ false) ↔ (times id ss ≡ 0)
unfolding copy_without
copy_without-snd id [] = (λ _. refl, λ _. refl)
copy_without-snd id (s ∷ ss) =
    let (there, back) = copy_without-snd id ss in (λ e. ground arith, λ e. ground arith)

others_than-all : (id : ℕ) (ss : List Subscriber) → times id ss ≡ 0 → others_than id ss ≡ ss
others_than-all id [] h = refl
others_than-all id (s ∷ ss) h = ground (arith, others_than-all id ss)

-- `removeSubscriber` drops every subscriber of that id and keeps the others in order; it returns
-- false exactly when there was none.
pub remove_subscriber_lem :
    (id : ℕ) (slot : Slot)
    → ((remove_subscriber id slot).0
        ≡ record slot { subscribers = others_than id slot.subscribers })
      × (((remove_subscriber id slot).1 ≡ false) ↔ (times id slot.subscribers ≡ 0))
unfolding remove_subscriber
remove_subscriber_lem id slot = (
  elim (Bool-cases (copy_without id slot.subscribers).1) [
    | inl found ↦ rw (found, copy_without-fst id slot.subscribers)
    | inr missing ↦ rw (
      missing,
      others_than-all id slot.subscribers ((copy_without-snd id slot.subscribers).0 missing),
    )
  ],
  copy_without-snd id slot.subscribers,
)

-- A handler that also writes down that it was called, and with what.
module _ {W : Type 0} (body : ℕ → ℕ → W → Outcome × W) where
  abbrev pub logged : ℕ → ℕ → W × List (ℕ × ℕ) → Outcome × (W × List (ℕ × ℕ))
  logged h payload (w, log) =
      let (outcome, after) = body h payload w in (outcome, (after, log ++ (h, payload) ∷ []))

  -- `dispatch` calls every subscriber's handler once with the message's data, in the order of
  -- subscription, also after a handler that throws.
  pub dispatch_to-calls :
      (ss : List Subscriber) (payload : ℕ) (w : W) (log : List (ℕ × ℕ))
      → (dispatch_to logged ss payload (w, log)).1 ≡ log ++ map (λ s. (s.handler, payload)) ss
  unfolding dispatch_to
  dispatch_to-calls [] payload w log = sym (append-nil log)
  dispatch_to-calls (s ∷ ss) payload w log =
      ap (λ (z : W × List (ℕ × ℕ)). (dispatch_to logged ss payload z).1)
        (caught-snd (logged s.handler payload (w, log)))
      ∙ dispatch_to-calls ss payload (body s.handler payload w).1 (log ++ (s.handler, payload) ∷ [])
      ∙ append_assoc log ((s.handler, payload) ∷ []) (map (λ x. (x.handler, payload)) ss)
