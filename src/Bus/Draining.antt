-- ===== src/Bus/Draining.antt =====
-- The end of `dispatchLoop` of `MessageBus` (include/livioark/msgbus/message_bus.h): the messages that
-- are left when the bus has stopped are dispatched. A handler may publish, so the queue is a part of
-- what it can change.
use livio_ark.Prelude.{ℕ, zero, suc, Option, none, some}
use livio_ark.Slot.{Outcome}
use livio_ark.Queue.{Queue, try_dequeue}
use livio_ark.Bus.Subscribing.{Subscriptions}
use livio_ark.Bus.Dispatching.{Message, dispatch_message}

-- `none` is a loop that has not ended, or the undefined behaviour of a dispatch.
module _ {W : Type 0} (bus : W → Subscriptions) (queue : W → Queue Message)
    (set_queue : Queue Message → W → W) (call : ℕ → ℕ → W → Outcome × W) where
  unfoldable pub drain : ℕ → W → Option W
  drain zero w = none
  drain (suc f) w = elim (try_dequeue (queue w)) [
    | none ↦ none
    | some (q, none, taken) ↦ some (set_queue q w)
    | some (q, some msg, taken) ↦ elim (dispatch_message bus call msg (set_queue q w)) [
      | none ↦ none
      | some w' ↦ drain f w'
    ]
  ]
