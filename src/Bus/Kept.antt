-- ===== src/Bus/Kept.antt =====
-- What every handler keeps a dispatch keeps.
use livio_ark.Prelude.{
  ℕ, sym, inl, inr, Bool-cases, Option-cases, List, [], ◌∷◌, Option, none, some, ◌==◌, ℕ_discrete,
  find,
}
use mathlib.Core.Path.{subst}
use livio_ark.Slot.{Slot, Subscriber, Outcome, caught, dispatch_to, dispatch}
use livio_ark.Slot.Laws.{caught-snd}
use livio_ark.Trie
use livio_ark.Bus.Subscribing.{Subscriptions}
use livio_ark.Bus.Dispatching.{Message, dispatch_exact, dispatch_matched, dispatch_message}

-- Of the state that is left, if one is.
unfoldable pub After : {W : Type 0} → (W → Type 0) → Option W → Type 0
After P none = Unit
After P (some w) = P w

module _ {W : Type 0} (bus : W → Subscriptions) (call : ℕ → ℕ → W → Outcome × W) (P : W → Type 0)
    (kept : (h payload : ℕ) (w : W) → P w → P (call h payload w).1) where
  dispatch_to-After :
      (ss : List Subscriber) (payload : ℕ) (w : W) → P w → P (dispatch_to call ss payload w)
  unfolding dispatch_to
  dispatch_to-After [] payload w p = p
  dispatch_to-After (s ∷ ss) payload w p =
      dispatch_to-After ss payload (caught (call s.handler payload w))
        (subst P (sym (caught-snd (call s.handler payload w))) (kept s.handler payload w p))

  dispatch-After :
      (slot : Slot) (type payload : ℕ) (w : W) → P w → After P (dispatch call slot type payload w)
  unfolding dispatch After
  dispatch-After slot type payload w p = elim (Option-cases slot.msg_type) [
    | inl none_there ↦ rw (none_there, dispatch) tt
    | inr (t, typed) ↦
        rw (typed, dispatch)
          (elim (Bool-cases (t == type)) [
            | inl own ↦ rw own (dispatch_to-After slot.subscribers payload w p)
            | inr other ↦ rw other tt
          ])
  ]

  dispatch_exact-After :
      (slot : Option Slot) (msg : Message) (w : W)
      → P w
      → After P (dispatch_exact bus call slot msg w)
  unfolding dispatch_exact
  dispatch_exact-After none msg w p = unfold After in p
  dispatch_exact-After (some slot) msg w p = elim (Option-cases slot.msg_type) [
    | inl none_there ↦ rw (none_there, dispatch_exact) (unfold After in p)
    | inr (t, typed) ↦
        rw (typed, dispatch_exact)
          (elim (Bool-cases (t == msg.type)) [
            | inl own ↦ rw own (dispatch-After slot msg.type msg.data_ w p)
            | inr other ↦ rw other (unfold After in p)
          ])
  ]

  dispatch_matched-After :
      (m : List ℕ) (msg : Message) (w : W) → P w → After P (dispatch_matched bus call m msg w)
  unfolding dispatch_matched
  dispatch_matched-After [] msg w p = unfold After in p
  dispatch_matched-After (a ∷ m) msg w p =
      elim (Option-cases (dispatch call ((bus w).wildcard_slots a) msg.type msg.data_ w)) [
        | inl failed ↦ rw (failed, dispatch_matched) (unfold After in tt)
        | inr (w', done) ↦
            rw (done, dispatch_matched)
              (dispatch_matched-After m msg w' (
                unfold After in
                subst (After P) done
                  (dispatch-After ((bus w).wildcard_slots a) msg.type msg.data_ w p)))
      ]

  pub dispatch_message-After :
      (msg : Message) (w : W) → P w → After P (dispatch_message bus call msg w)
  unfolding dispatch_message
  dispatch_message-After msg w p =
      elim (Option-cases
        (dispatch_exact bus call (find ℕ_discrete msg.topic_id (bus w).slots) msg w)) [
          | inl failed ↦ rw (failed, dispatch_message) (unfold After in tt)
          | inr (w', done) ↦
              rw (done, dispatch_message)
                (dispatch_matched-After (Trie.match msg.topic_sv msg.type (bus w').wildcard_trie)
                  msg w'
                  (unfold After in
                    subst (After P) done
                      (dispatch_exact-After (find ℕ_discrete msg.topic_id (bus w).slots) msg w p)))
        ]
