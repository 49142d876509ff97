-- ===== src/Bus/Published.antt =====
-- The message that `publish` puts into the queue: its topic is registered under its id.
use livio_ark.Prelude.{
  ℕ, ◌≡◌, ◌<◌, refl, ◌∙◌, true, List, [], ◌∷◌, ◌++◌, Option, some, Bytes, Bytes-discrete, length,
  pick-same,
}
use livio_ark.Registry.{Registry, find_topic, resolve}
use livio_ark.Registry.Laws.{IsValid, HasRoom, find_topic-resolve, resolve-IsValid, to_string-find}
use livio_ark.Queue.Fifo.{Holds, NoWrap}
use livio_ark.Bus.Dispatching.{Message}
use livio_ark.Bus.Publishing.{FullPolicy, Outbox, Wake, new_message, publish}
use livio_ark.Bus.Policies.{Came, enqueue_message-room}

-- On a valid registry with ids left and a queue with room, `publish` under every policy returns
-- true, drops nothing and puts a message with the topic's text, the type and the data behind those
-- that the queue holds; the registry is valid after it and has the topic under the message's topic
-- id.
pub publish-room :
    (xs : List Message) (r : Registry) (o : Outbox) (policy : FullPolicy) (wakes : List Wake)
    (topic : Bytes) (type payload : ℕ) (on_drop : Option ℕ)
    → IsValid r
    → HasRoom r
    → Holds xs o.queue
    → NoWrap o.queue
    → length xs < o.queue.capacity
    → (m : Message) × (m.topic_sv ≡ topic)
      × (m.type ≡ type)
      × (m.data_ ≡ payload)
      × IsValid (publish policy wakes topic type payload on_drop (r, o)).0
      × (find_topic topic (publish policy wakes topic type payload on_drop (r, o)).0
          ≡ some m.topic_id)
      × Came (xs ++ m ∷ []) o.drops true (publish policy wakes topic type payload on_drop (r, o)).1
unfolding publish
publish-room xs r o policy wakes topic type payload on_drop v ids h bound room = (
  msg,
  to_string-find topic tid (resolve topic r).0 (after.back topic tid known),
  refl,
  refl,
  after,
  known,
  enqueue_message-room xs o msg policy wakes h bound room,
)
  where
    msg : Message
    msg = (new_message topic type payload on_drop r).1

    tid : ℕ
    tid = (resolve topic r).1

    after : IsValid (resolve topic r).0
    after = resolve-IsValid topic r ids v

    known : find_topic topic (resolve topic r).0 ≡ some tid
    known = find_topic-resolve topic topic r ∙ pick-same Bytes-discrete topic _ _
