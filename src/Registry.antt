-- ===== src/Registry.antt =====
-- `TopicRegistry` of include/livioark/msgbus/topic_registry.h. A `string_view` into a key of `map_`
-- is the key's text. `resolve` is two critical sections: a lookup under the shared lock, and under
-- the exclusive lock a second lookup and the insertion.
mod Tests
pub mod Laws
pub mod Sharing
use livio_ark.Prelude.{
  ℕ, ◌+◌, ◌%◌, ◌^◌, List, [], Option, none, some, Bytes, Bytes-discrete, ℕ_discrete, find, emplace,
}

-- `uint32_t`
abbrev pub topic_ids : ℕ
topic_ids = 2 ^ 32

abbrev pub invalid_topic_id : ℕ
invalid_topic_id = 0

pub record Registry : Type 0 where
  pub map_ : List (Bytes × ℕ)
  pub id_to_sv : List (ℕ × Bytes)
  pub next_id : ℕ

abbrev pub empty_registry : Registry
empty_registry = record { map_ = []; id_to_sv = []; next_id = 1 }

abbrev pub find_topic : Bytes → Registry → Option ℕ
find_topic topic r = find Bytes-discrete topic r.map_

-- The insertion of a topic that is not there.
unfoldable pub add_topic : Bytes → Registry → Registry × ℕ
add_topic topic r =
    let id = r.next_id in
    (
      record {
        map_ = emplace Bytes-discrete topic id r.map_;
        id_to_sv = emplace ℕ_discrete id topic r.id_to_sv;
        next_id = (r.next_id + 1) % topic_ids;
      },
      id,
    )

-- The section under the exclusive lock.
unfoldable pub resolve_slow : Bytes → Registry → Registry × ℕ
unfolding add_topic
resolve_slow topic r = elim (find_topic topic r) [ some id ↦ (r, id) | none ↦ add_topic topic r ]

-- The call with no other thread between its sections.
unfoldable pub resolve : Bytes → Registry → Registry × ℕ
unfolding resolve_slow add_topic
resolve topic r = elim (find_topic topic r) [ some id ↦ (r, id) | none ↦ resolve_slow topic r ]

unfoldable pub to_string : ℕ → Registry → Bytes
to_string id r = elim (find ℕ_discrete id r.id_to_sv) [ some topic ↦ topic | none ↦ [] ]
