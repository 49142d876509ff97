-- ===== src/Bus/Subscribing.antt =====
-- `subscribe`, `unsubscribe`, `getOrCreateSlot` and `checkedSlot` of `MessageBus`
-- (include/livioark/msgbus/message_bus.h). A slot of `slots_` is held by that map alone, so the map
-- holds its value. The slot of a wildcard subscription is shared by the trie's snapshots: it stands
-- in a store, at the number of the `subscribe` call that made it.
use livio_ark.Prelude.{
  ℕ, ◌+◌, ◌%◌, ◌^◌, Bool, true, false, not, List, [], ◌∷◌, Option, none, some, Bytes, ◌==◌,
  if◌then◌else◌, is_nil, ℕ_discrete, find, assign, erase,
}
use livio_ark.Levels.{hash}
use livio_ark.Topic.{is_wildcard}
use livio_ark.Registry.{Registry, invalid_topic_id, resolve}
use livio_ark.Slot.{Slot, new_slot, add_subscriber, remove_subscriber}
use livio_ark.Trie.{Entry, Snapshot}
use livio_ark.Trie

-- `uint64_t`
abbrev pub subscription_ids : ℕ
subscription_ids = 2 ^ 64

pub record SubInfo : Type 0 where
  pub tid : ℕ
  pub is_wildcard : Bool

pub record Subscriptions : Type 0 where
  pub registry : Registry
  pub slots : List (ℕ × Slot)
  pub wildcard_slots : ℕ → Slot
  pub wildcard_trie : Snapshot
  pub sub_to_topic : List (ℕ × SubInfo)
  pub next_id : ℕ

-- The two `runtime_error`s.
pub data Failure : Type 0 where
  invalid_pattern type_mismatch : Failure

pub data Result (A : Type 0) : Type 0 where
  ok : A → Result A
  threw : Failure → Result A

-- `sp->msg_type && *sp->msg_type != typeid(T)`
abbrev pub mismatches : Slot → ℕ → Bool
mismatches slot type = elim slot.msg_type [ none ↦ false | some t ↦ not (t == type) ]

unfoldable pub checked_slot : ℕ → Slot → Result Slot
checked_slot type slot = if mismatches slot type then threw type_mismatch else ok slot

-- The slow path, with its second lookup, and the slot that the topic has after it.
unfoldable pub create_slot : ℕ → ℕ → List (ℕ × Slot) → Result (List (ℕ × Slot) × Slot)
create_slot type tid slots = elim (find ℕ_discrete tid slots) [
  | some slot ↦ elim (checked_slot type slot) [ ok sl ↦ ok (slots, sl) | threw e ↦ threw e ]
  | none ↦ ok (assign ℕ_discrete tid (new_slot type) slots, new_slot type)
]

unfoldable pub get_or_create_slot : ℕ → ℕ → List (ℕ × Slot) → Result (List (ℕ × Slot) × Slot)
get_or_create_slot type tid slots = elim (find ℕ_discrete tid slots) [
  | some slot ↦ elim (checked_slot type slot) [ ok sl ↦ ok (slots, sl) | threw e ↦ threw e ]
  | none ↦ create_slot type tid slots
]

-- `pos != npos && pos + 1 != topic.size()` for the first '#'.
unfoldable pub hash_inside : Bytes → Bool
hash_inside [] = false
hash_inside (c ∷ s) = if c == hash then not (is_nil s) else hash_inside s

abbrev pub put_slot : ℕ → Slot → (ℕ → Slot) → ℕ → Slot
put_slot a slot store b = if a == b then slot else store b

-- The branch for a pattern with wildcards; `id` is the new id.
unfoldable pub subscribe_wildcard : Bytes → ℕ → ℕ → ℕ → Subscriptions → Subscriptions × Result ℕ
subscribe_wildcard topic type handler id s =
    if hash_inside topic then (s, threw invalid_pattern) else (
      record s {
        wildcard_slots = put_slot id (add_subscriber handler id (new_slot type)) s.wildcard_slots;
        wildcard_trie =
            Trie.insert topic (record { type = type; slot = id; sub_id = id }) s.wildcard_trie;
        sub_to_topic =
            assign ℕ_discrete id (record { tid = invalid_topic_id; is_wildcard = true })
              s.sub_to_topic;
      },
      ok id,
    )

-- What is left to do in the other branch once the slot is there.
unfoldable pub add_to_slot :
    ℕ → ℕ → ℕ → Result (List (ℕ × Slot) × Slot) → Subscriptions → Subscriptions × Result ℕ
add_to_slot tid handler id (threw e) s = (s, threw e)
add_to_slot tid handler id (ok (slots, slot)) s = (
  record s {
    slots = assign ℕ_discrete tid (add_subscriber handler id slot) slots;
    sub_to_topic = assign ℕ_discrete id (record { tid = tid; is_wildcard = false }) s.sub_to_topic;
  },
  ok id,
)

unfoldable pub subscribe_exact : Bytes → ℕ → ℕ → ℕ → Subscriptions → Subscriptions × Result ℕ
unfolding add_to_slot
subscribe_exact topic type handler id s =
    let (registry', tid) = resolve topic s.registry in
    add_to_slot tid handler id (get_or_create_slot type tid s.slots)
      (record s { registry = registry' })

unfoldable pub subscribe : Bytes → ℕ → ℕ → Subscriptions → Subscriptions × Result ℕ
subscribe topic type handler s =
    let id = (s.next_id + 1) % subscription_ids in
    let s' = record s { next_id = id } in
    if is_wildcard topic
    then subscribe_wildcard topic type handler id s'
    else subscribe_exact topic type handler id s'

-- `removeFrom` also removes the subscriber from the slot of the entry that it erases.
unfoldable pub forget_subscriber : ℕ → Option Entry → (ℕ → Slot) → ℕ → Slot
forget_subscriber id none store = store
forget_subscriber id (some e) store = put_slot e.slot (remove_subscriber id (store e.slot)).0 store

unfoldable pub remove_exact : ℕ → ℕ → List (ℕ × Slot) → List (ℕ × Slot)
remove_exact id tid slots = elim (find ℕ_discrete tid slots) [
  | none ↦ slots
  | some slot ↦ assign ℕ_discrete tid (remove_subscriber id slot).0 slots
]

unfoldable pub remove_sub : ℕ → SubInfo → Subscriptions → Subscriptions
unfolding forget_subscriber remove_exact
remove_sub id info s =
    let (trie', erased) = Trie.remove id s.wildcard_trie in
    if info.is_wildcard
    then record s {
      wildcard_trie = trie';
      wildcard_slots = forget_subscriber id erased s.wildcard_slots;
    }
    else record s { slots = remove_exact id info.tid s.slots }

unfoldable pub unsubscribe : ℕ → Subscriptions → Subscriptions
unfolding remove_sub
unsubscribe id s = elim (find ℕ_discrete id s.sub_to_topic) [
  | none ↦ s
  | some info ↦ remove_sub id info (record s { sub_to_topic = erase ℕ_discrete id s.sub_to_topic })
]
