-- ===== src/Bus/Publishing.antt =====
-- `publish` and `enqueueMessage` of `MessageBus` (include/livioark/msgbus/message_bus.h), one call at
-- a time. Waking a dispatcher only cuts its sleep short, and recycling a message only its
-- allocation: neither is in the model.
use livio_ark.Prelude.{
  ℕ, zero, suc, Bool, true, false, List, [], ◌∷◌, ◌++◌, Option, none, some, Bytes,
}
use livio_ark.Registry.{Registry, resolve, to_string}
use livio_ark.Queue.{Queue, try_enqueue, try_dequeue}
use livio_ark.Bus.Dispatching.{Message}

pub data FullPolicy : Type 0 where
  return_false drop_oldest drop_newest block block_timeout : FullPolicy

-- A run of a drop callback, with the topic and the data that it gets.
abbrev pub Drop : Type 0
Drop = ℕ × Bytes × ℕ

-- The main queue, and the callbacks that ran.
pub record Outbox : Type 0 where
  pub queue : Queue Message
  pub drops : List Drop

-- One evaluation of the predicate of `cv_not_full_.wait`: what other threads did to the queue since
-- the last, and whether the bus runs.
pub record Wake : Type 0 where
  pub others : Queue Message → Queue Message
  pub running : Bool

-- `waiting` is a call that blocks still, `out_of_fuel` a loop that has not ended.
pub data Offer : Type 0 where
  returned : Outbox → Bool → Offer
  waiting : Outbox → Offer
  out_of_fuel : Offer

-- The callback is cleared, so it runs once for a message; a message that is dropped is gone.
unfoldable pub notify_drop : Message → List Drop → List Drop
notify_drop msg drops = elim msg.on_drop_ [
  | none ↦ drops
  | some cb ↦ drops ++ (cb, msg.topic_sv, msg.data_) ∷ []
]

-- `try_enqueue`, and what is done where it fails.
unfoldable pub try_or : Message → Outbox → (Outbox → Offer) → Offer
try_or msg o otherwise = elim (try_enqueue msg o.queue) [
  | none ↦ out_of_fuel
  | some (q, true) ↦ returned (record o { queue = q }) true
  | some (q, false) ↦ otherwise (record o { queue = q })
]

-- One message is discarded, if there is one, and its callback runs.
unfoldable pub discard_oldest : Outbox → (Outbox → Offer) → Offer
unfolding notify_drop
discard_oldest o next = elim (try_dequeue o.queue) [
  | none ↦ out_of_fuel
  | some (q, none, taken) ↦ next (record o { queue = q })
  | some (q, some oldest, taken) ↦ next (record { queue = q; drops = notify_drop oldest o.drops })
]

-- The retries of DropOldest.
unfoldable pub make_room : ℕ → Message → Outbox → Offer
unfolding try_or discard_oldest
make_room zero msg o = out_of_fuel
make_room (suc f) msg o = try_or msg o (λ o'. discard_oldest o' (make_room f msg))

-- The wait of Block, by the evaluations of its predicate.
unfoldable pub wait_for_room : List Wake → Message → Outbox → Offer
unfolding try_or
wait_for_room [] msg o = waiting o
wait_for_room (w ∷ ws) msg o =
    let now = record o { queue = w.others o.queue } in
    elim w.running [ false ↦ returned now false | true ↦ try_or msg now (wait_for_room ws msg) ]

-- The wait of BlockTimeout ends with the last evaluation, the one after the deadline.
unfoldable pub timed_out : Offer → Offer
timed_out (returned o enqueued) = returned o enqueued
timed_out (waiting o) = returned o false
timed_out out_of_fuel = out_of_fuel

-- What each policy does where the first `try_enqueue` fails. One retry is enough for DropOldest while
-- no other thread takes part.
unfoldable pub when_full : FullPolicy → List Wake → Message → Outbox → Offer
unfolding discard_oldest notify_drop make_room wait_for_room timed_out
when_full return_false wakes msg o = returned o false
when_full drop_newest wakes msg o = returned (record o { drops = notify_drop msg o.drops }) true
when_full drop_oldest wakes msg o = discard_oldest o (make_room 1 msg)
when_full block wakes msg o = wait_for_room wakes msg o
when_full block_timeout wakes msg o = timed_out (wait_for_room wakes msg o)

unfoldable pub enqueue_message : FullPolicy → List Wake → Message → Outbox → Offer
unfolding try_or when_full
enqueue_message policy wakes msg o = try_or msg o (when_full policy wakes msg)

-- The message that `publish` makes.
abbrev pub new_message : Bytes → ℕ → ℕ → Option ℕ → Registry → Registry × Message
new_message topic type payload on_drop r =
    let (r', tid) = resolve topic r in
    (
      r',
      record {
        topic_id = tid;
        topic_sv = to_string tid r';
        type = type;
        data_ = payload;
        on_drop_ = on_drop;
      },
    )

unfoldable pub publish :
    FullPolicy → List Wake → Bytes → ℕ → ℕ → Option ℕ → Registry × Outbox → Registry × Offer
unfolding enqueue_message
publish policy wakes topic type payload on_drop (r, o) =
    let (r', msg) = new_message topic type payload on_drop r in
    (r', enqueue_message policy wakes msg o)
