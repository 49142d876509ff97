-- ===== src/Registry/Laws.antt =====
-- Ids are given out once, and each leads back to its topic.
use livio_ark.Prelude.{
  ℕ, ◌+◌, ◌≤◌, ◌<◌, ◌≡◌, refl, ◌∙◌, inl, inr, List, [], ◌∷◌, none, some, Option-cases, Bytes,
  Bytes-discrete, ℕ_discrete, find, find-emplace, pick, arith, length,
}
use livio_ark.Registry.{
  Registry, empty_registry, topic_ids, find_topic, add_topic, resolve_slow, resolve, to_string,
}

pub record IsValid (r : Registry) : Type 0 where
  pub positive : 0 < r.next_id
  pub used : (topic : Bytes) (id : ℕ) → find_topic topic r ≡ some id → (0 < id) × (id < r.next_id)
  pub back :
      (topic : Bytes) (id : ℕ)
      → find_topic topic r ≡ some id
      → find ℕ_discrete id r.id_to_sv ≡ some topic
  pub unused : (id : ℕ) → r.next_id ≤ id → find ℕ_discrete id r.id_to_sv ≡ none

pub empty-IsValid : IsValid empty_registry
empty-IsValid = record {
  positive = omega arith;
  used = λ t i e. cc;
  back = λ t i e. cc;
  unused = λ i h. refl;
}

-- The ids are not used up: the next one but one is a `uint32_t` too.
abbrev pub HasRoom : Registry → Type 0
HasRoom r = r.next_id + 1 < topic_ids

find_topic-add_topic :
    (topic other : Bytes) (r : Registry)
    → find_topic topic r ≡ none
    → find_topic other (add_topic topic r).0
      ≡ pick Bytes-discrete topic other (some r.next_id) (find_topic other r)
unfolding add_topic
find_topic-add_topic topic other r new =
    find-emplace Bytes-discrete topic other r.next_id r.map_ new

add_topic-IsValid :
    (topic : Bytes) (r : Registry)
    → HasRoom r
    → IsValid r
    → find_topic topic r ≡ none
    → IsValid (add_topic topic r).0
unfolding add_topic
add_topic-IsValid topic r room v new = record {
  positive = omega arith;
  used = λ t i e. ground (arith, find_topic-add_topic topic t r new, v.used t i);
  back = λ t i e. ground (
    arith,
    find_topic-add_topic topic t r new,
    v.used t i,
    v.back t i,
    v.unused r.next_id,
    find-emplace ℕ_discrete r.next_id i topic r.id_to_sv,
  );
  unused = λ i h.
      ground (
        arith,
        v.unused r.next_id,
        v.unused i,
        find-emplace ℕ_discrete r.next_id i topic r.id_to_sv,
      );
}

abbrev pub slow_topics : List Bytes → Registry → Registry
slow_topics [] r = r
slow_topics (t ∷ ts) r = slow_topics ts (resolve_slow t r).0

-- There are ids for `n` more topics.
abbrev pub HasRoomFor : ℕ → Registry → Type 0
HasRoomFor n r = r.next_id + n < topic_ids

pub resolve_slow-IsValid :
    (topic : Bytes) (r : Registry) → HasRoom r → IsValid r → IsValid (resolve_slow topic r).0
unfolding resolve_slow
resolve_slow-IsValid topic r room v = elim (Option-cases (find_topic topic r)) [
  | inl new ↦ rw (new, resolve_slow) (add_topic-IsValid topic r room v new)
  | inr (id, old) ↦ rw (old, resolve_slow) v
]

pub resolve_slow-next_id :
    (topic : Bytes) (r : Registry) → HasRoom r → (resolve_slow topic r).0.next_id ≤ r.next_id + 1
unfolding resolve_slow add_topic
resolve_slow-next_id topic r room = ground arith

-- The id that a call returns is the topic's from then on.
pub find_topic-resolve_slow :
    (topic : Bytes) (r : Registry)
    → find_topic topic (resolve_slow topic r).0 ≡ some (resolve_slow topic r).1
unfolding resolve_slow
find_topic-resolve_slow topic r = elim (Option-cases (find_topic topic r)) [
  | inl new ↦
      rw (new, resolve_slow)
        (find_topic-add_topic topic topic r new ∙ unfold add_topic in ground arith)
  | inr (id, old) ↦ rw (old, resolve_slow) old
]

pub resolve_slow-keeps :
    (topic other : Bytes) (r : Registry) (id : ℕ)
    → find_topic other r ≡ some id
    → find_topic other (resolve_slow topic r).0 ≡ some id
unfolding resolve_slow
resolve_slow-keeps topic other r id e = elim (Option-cases (find_topic topic r)) [
  | inl new ↦ rw (new, resolve_slow) (ground (arith, find_topic-add_topic topic other r new))
  | inr (old_id, old) ↦ rw (old, resolve_slow) e
]

pub slow_topics-IsValid :
    (ts : List Bytes) (r : Registry)
    → HasRoomFor (length ts) r
    → IsValid r
    → IsValid (slow_topics ts r)
slow_topics-IsValid [] r room v = v
slow_topics-IsValid (t ∷ ts) r room v =
    slow_topics-IsValid ts (resolve_slow t r).0
      (omega (arith, resolve_slow-next_id t r (omega arith)))
      (resolve_slow-IsValid t r (omega arith) v)

pub slow_topics-keeps :
    (ts : List Bytes) (other : Bytes) (r : Registry) (id : ℕ)
    → find_topic other r ≡ some id
    → find_topic other (slow_topics ts r) ≡ some id
slow_topics-keeps [] other r id e = e
slow_topics-keeps (t ∷ ts) other r id e =
    slow_topics-keeps ts other (resolve_slow t r).0 id (resolve_slow-keeps t other r id e)

pub slow_topics-next_id :
    (ts : List Bytes) (r : Registry)
    → HasRoomFor (length ts) r
    → (slow_topics ts r).next_id ≤ r.next_id + length ts
slow_topics-next_id [] r room = omega arith
slow_topics-next_id (t ∷ ts) r room = omega (
  arith,
  resolve_slow-next_id t r (omega arith),
  slow_topics-next_id ts (resolve_slow t r).0
      (omega (arith, resolve_slow-next_id t r (omega arith))),
)

pub to_string-find :
    (topic : Bytes) (id : ℕ) (r : Registry)
    → find ℕ_discrete id r.id_to_sv ≡ some topic
    → to_string id r ≡ topic
unfolding to_string
to_string-find topic id r e = ground arith

-- With no other thread in between, the first lookup changes nothing.
pub resolve-eq-resolve_slow :
    (topic : Bytes) (r : Registry) → resolve topic r ≡ resolve_slow topic r
unfolding resolve
resolve-eq-resolve_slow topic r = ground arith

-- The lookup after a call, for every topic.
pub find_topic-resolve :
    (topic other : Bytes) (r : Registry)
    → find_topic other (resolve topic r).0
      ≡ pick Bytes-discrete topic other (some (resolve topic r).1) (find_topic other r)
find_topic-resolve topic other r =
    rw (resolve-eq-resolve_slow topic r) (elim (Option-cases (find_topic topic r)) [
      | inl new ↦
          unfold resolve_slow in rw (new, resolve_slow) (find_topic-add_topic topic other r new)
      | inr (id, old) ↦ unfold resolve_slow in rw (old, resolve_slow) (ground (arith, old))
    ])

pub resolve-IsValid :
    (topic : Bytes) (r : Registry) → HasRoom r → IsValid r → IsValid (resolve topic r).0
resolve-IsValid topic r room v =
    rw (resolve-eq-resolve_slow topic r) (resolve_slow-IsValid topic r room v)

-- Ids are handed out in order: a topic that had none gets the next.
pub resolve-next_id :
    (topic : Bytes) (r : Registry)
    → HasRoom r
    → (r.next_id ≤ (resolve topic r).0.next_id)
      × (find_topic topic r ≡ none → (resolve topic r).1 ≡ r.next_id)
      × ((id : ℕ) → find_topic topic r ≡ some id → (resolve topic r).1 ≡ id)
unfolding resolve
resolve-next_id topic r room = (ground arith, λ e. ground arith, λ id e. ground arith)
