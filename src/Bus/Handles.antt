-- ===== src/Bus/Handles.antt =====
-- `TopicHandle` of `MessageBus` (include/livioark/msgbus/message_bus.h): publishing through a handle
-- is publishing.
use livio_ark.Prelude.{
  ℕ, suc, ◌≡◌, refl, sym, ap, ◌∙◌, List, Option, some, Bytes, Bytes-discrete, length, pick-same,
  arith,
}
use livio_ark.Registry.{Registry, find_topic, resolve, to_string}
use livio_ark.Registry.Laws.{
  IsValid, HasRoomFor, slow_topics, slow_topics-IsValid, slow_topics-keeps, find_topic-resolve,
  resolve-IsValid, resolve-eq-resolve_slow, resolve_slow-next_id, to_string-find,
}
use livio_ark.Bus.Publishing.{FullPolicy, Outbox, Wake, Offer, enqueue_message, publish}

-- `type` is the type that the handle was made for.
pub record TopicHandle : Type 0 where
  pub tid : ℕ
  pub topic_sv : Bytes
  pub type : ℕ
  pub cached_on_drop : Option ℕ

-- `topic`, with or without a drop callback.
unfoldable pub topic_handle : Bytes → ℕ → Option ℕ → Registry → Registry × TopicHandle
topic_handle topic type on_drop r =
    let (r', tid) = resolve topic r in
    (r', record { tid = tid; topic_sv = to_string tid r'; type = type; cached_on_drop = on_drop })

-- `TopicHandle::publish`
unfoldable pub handle_publish : FullPolicy → List Wake → TopicHandle → ℕ → Outbox → Offer
handle_publish policy wakes handle payload o =
    enqueue_message policy wakes
      (record {
        topic_id = handle.tid;
        topic_sv = handle.topic_sv;
        type = handle.type;
        data_ = payload;
        on_drop_ = handle.cached_on_drop;
      })
      o

resolve-known :
    (topic : Bytes) (r : Registry) (id : ℕ)
    → find_topic topic r ≡ some id
    → resolve topic r ≡ (r, id)
unfolding resolve
resolve-known topic r id e = ground arith

publish-known :
    (policy : FullPolicy) (wakes : List Wake) (topic : Bytes) (type payload : ℕ)
    (on_drop : Option ℕ) (r : Registry) (o : Outbox) (id : ℕ)
    → find_topic topic r ≡ some id
    → to_string id r ≡ topic
    → publish policy wakes topic type payload on_drop (r, o) ≡ (
      r,
      handle_publish policy wakes
          (record { tid = id; topic_sv = topic; type = type; cached_on_drop = on_drop })
          payload
          o,
    )
unfolding publish handle_publish
publish-known policy wakes topic type payload on_drop r o id e back =
    rw (resolve-known topic r id e, back) refl

-- Publishing through a handle does exactly what publish on the handle's topic with its drop
-- callback does, under every policy and whatever other topics were registered since the handle was
-- made: the same result, queue and dropped messages, and publish leaves the registry as it is; on a
-- valid registry with ids left for the topics.
pub handle_publish-publish :
    (policy : FullPolicy) (wakes : List Wake) (topic : Bytes) (type payload : ℕ)
    (on_drop : Option ℕ) (others : List Bytes) (r : Registry) (o : Outbox)
    → IsValid r
    → HasRoomFor (suc (length others)) r
    → publish policy wakes topic type payload on_drop
        (slow_topics others (topic_handle topic type on_drop r).0, o)
      ≡ (
        slow_topics others (topic_handle topic type on_drop r).0,
        handle_publish policy wakes (topic_handle topic type on_drop r).1 payload o,
      )
unfolding topic_handle
handle_publish-publish policy wakes topic type payload on_drop others r o v room =
    let (r1, id) = resolve topic r in
    let known : find_topic topic r1 ≡ some id =
      find_topic-resolve topic topic r ∙ pick-same Bytes-discrete topic _ _ in
    let same_next = ap (λ (x : Registry × ℕ). x.0.next_id) (resolve-eq-resolve_slow topic r) in
    let v1 = resolve-IsValid topic r (omega arith) v in
    let r2 = slow_topics others r1 in
    let v2 : IsValid r2 =
      slow_topics-IsValid others r1
        (omega (arith, same_next, resolve_slow-next_id topic r (omega arith))) v1 in
    let still : find_topic topic r2 ≡ some id = slow_topics-keeps others topic r1 id known in
    publish-known policy wakes topic type payload on_drop r2 o id still
      (to_string-find topic id r2 (v2.back topic id still))
    ∙ ap
        (λ sv. (
          r2,
          handle_publish policy wakes
              (record { tid = id; topic_sv = sv; type = type; cached_on_drop = on_drop }) payload o,
        ))
        (sym (to_string-find topic id r1 (v1.back topic id known)))
