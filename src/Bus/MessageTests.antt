-- ===== src/Bus/MessageTests.antt =====
-- A queue of two cells, empty and full of messages, and the properties of publishing there.
use livio_ark.Prelude.{
  ℕ, zero, suc, ◌+◌, ◌%◌, ◌≡◌, refl, true, false, [], ◌∷◌, ◌++◌, none, some, Bytes, ◌==◌,
  if◌then◌else◌, get_elem?, arith,
}
use livio_ark.Registry.{empty_registry, find_topic}
use livio_ark.Registry.Laws.{IsValid, empty-IsValid, slow_topics}
use livio_ark.Queue.Fifo.{Holds}
use livio_ark.Bus.Dispatching.{Message}
use livio_ark.Bus.Publishing.{
  return_false, drop_oldest, drop_newest, block, Outbox, Wake, enqueue_message, publish,
}
use livio_ark.Bus.Policies.{Came, IsRefusal, enqueue_message-full, enqueue_message-block}
use livio_ark.Bus.Published.{publish-room}
use livio_ark.Bus.Handles.{topic_handle, handle_publish, handle_publish-publish}

abbrev topic : Bytes
topic = 97 ∷ []

-- Callback 9 is told when a message is dropped.
abbrev message : ℕ → Message
message payload = record {
  topic_id = 1;
  topic_sv = topic;
  type = 7;
  data_ = payload;
  on_drop_ = some 9;
}

abbrev empty_outbox : Outbox
empty_outbox = record {
  queue = record {
    capacity = 2;
    mask = 1;
    buffer = λ i. record { sequence = i; value = none };
    enqueue_pos = 0;
    dequeue_pos = 0;
  };
  drops = [];
}

abbrev full_outbox : Outbox
full_outbox = record {
  queue = record {
    capacity = 2;
    mask = 1;
    buffer = λ i.
        if i == 0
        then record { sequence = 1; value = some (message 5) }
        else record { sequence = 2; value = some (message 6) };
    enqueue_pos = 2;
    dequeue_pos = 0;
  };
  drops = [];
}

-- One evaluation of a wait, with nothing done by others.
abbrev idle_wake : Wake
idle_wake = record { others = λ q. q; running = true }

empty-Holds : Holds [] empty_outbox.queue
empty-Holds = record {
  exponent = 1;
  sized = refl;
  two = omega arith;
  masked = refl;
  tail = refl;
  fits = omega arith;
  filled = λ i x e. absurd (ground arith);
  free = λ i le lt. omega arith;
}

full-filled :
    (i : ℕ) (x : Message)
    → get_elem? (message 5 ∷ message 6 ∷ []) i ≡ some x
    → full_outbox.queue.buffer ((0 + i) % 2) ≡ record { sequence = 0 + i + 1; value = some x }
full-filled zero x e = ground arith
full-filled (suc zero) x e = ground arith
full-filled (suc (suc i)) x e = absurd (ground arith)

full-Holds : Holds (message 5 ∷ message 6 ∷ []) full_outbox.queue
full-Holds = record {
  exponent = 1;
  sized = refl;
  two = omega arith;
  masked = refl;
  tail = refl;
  fits = omega arith;
  filled = λ i x e. full-filled i x e;
  free = λ i le lt. absurd (omega arith);
}

enqueue_message-full_example :
    Came
      (message 5 ∷ message 6 ∷ [])
      []
      false
      (enqueue_message return_false [] (message 8) full_outbox)
    × Came
        (message 5 ∷ message 6 ∷ [])
        ((9, topic, 8) ∷ [])
        true
        (enqueue_message drop_newest [] (message 8) full_outbox)
    × Came
        (message 6 ∷ message 8 ∷ [])
        ((9, topic, 5) ∷ [])
        true
        (enqueue_message drop_oldest [] (message 8) full_outbox)
enqueue_message-full_example =
    enqueue_message-full (message 5) (message 6 ∷ []) full_outbox (message 8) [] full-Holds
      (omega arith) refl

enqueue_message-block_example :
    ¬ IsRefusal (enqueue_message block (idle_wake ∷ []) (message 8) full_outbox)
enqueue_message-block_example =
    enqueue_message-block (idle_wake ∷ []) (message 8) full_outbox (refl, tt)

publish-room_example :
    (m : Message) × (m.topic_sv ≡ topic)
    × (m.type ≡ 7)
    × (m.data_ ≡ 5)
    × IsValid (publish block [] topic 7 5 none (empty_registry, empty_outbox)).0
    × (find_topic topic (publish block [] topic 7 5 none (empty_registry, empty_outbox)).0
        ≡ some m.topic_id)
    × Came ([] ++ m ∷ []) [] true (publish block [] topic 7 5 none (empty_registry, empty_outbox)).1
publish-room_example =
    publish-room [] empty_registry empty_outbox block [] topic 7 5 none empty-IsValid (omega arith)
      empty-Holds (omega arith) (omega arith)

-- Another topic is registered between the handle's making and its use.
handle_publish-publish_example :
    publish drop_oldest [] topic 7 5
      (some 9)
      (slow_topics ((98 ∷ []) ∷ []) (topic_handle topic 7 (some 9) empty_registry).0, full_outbox)
    ≡ (
      slow_topics ((98 ∷ []) ∷ []) (topic_handle topic 7 (some 9) empty_registry).0,
      handle_publish drop_oldest [] (topic_handle topic 7 (some 9) empty_registry).1 5 full_outbox,
    )
handle_publish-publish_example =
    handle_publish-publish drop_oldest [] topic 7 5 (some 9) ((98 ∷ []) ∷ []) empty_registry
      full_outbox empty-IsValid (omega arith)
