-- ===== src/Bus/Dispatching.antt =====
-- `dispatchMessage` of `MessageBus` (include/livioark/msgbus/message_bus.h).
use livio_ark.Prelude.{
  ℕ, List, [], ◌∷◌, Option, none, some, Bytes, ◌==◌, if◌then◌else◌, ℕ_discrete, find,
}
use livio_ark.Slot.{Slot, Outcome, dispatch}
use livio_ark.Trie
use livio_ark.Bus.Subscribing.{Subscriptions}

-- The data of a message is the number that names it; `on_drop_` is the callback's, if there is one.
pub record Message : Type 0 where
  pub topic_id : ℕ
  pub topic_sv : Bytes
  pub type : ℕ
  pub data_ : ℕ
  pub on_drop_ : Option ℕ

-- `W` is all that a handler can change, the bus among it: a handler may subscribe and unsubscribe.
-- A slot's subscribers are read when it is dispatched, `none` is a `static_cast` to another type.
module _ {W : Type 0} (bus : W → Subscriptions) (call : ℕ → ℕ → W → Outcome × W) where
  -- `msg_type && *msg_type == msg->type()`
  unfoldable pub dispatch_exact : Option Slot → Message → W → Option W
  dispatch_exact none msg w = some w
  dispatch_exact (some slot) msg w = elim slot.msg_type [
    | none ↦ some w
    | some t ↦ if t == msg.type then dispatch call slot msg.type msg.data_ w else some w
  ]

  unfoldable pub dispatch_matched : List ℕ → Message → W → Option W
  dispatch_matched [] msg w = some w
  dispatch_matched (a ∷ matched) msg w =
      elim (dispatch call ((bus w).wildcard_slots a) msg.type msg.data_ w) [
        | none ↦ none
        | some w' ↦ dispatch_matched matched msg w'
      ]

  unfoldable pub dispatch_message : Message → W → Option W
  unfolding dispatch_exact dispatch_matched
  dispatch_message msg w =
      elim (dispatch_exact (find ℕ_discrete msg.topic_id (bus w).slots) msg w) [
        | none ↦ none
        | some w' ↦
            dispatch_matched (Trie.match msg.topic_sv msg.type (bus w').wildcard_trie) msg w'
      ]
