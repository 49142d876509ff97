-- ===== src/Bus/Live.antt =====
-- The subscriptions that are live, as a plain list, and what it means that the maps, slots and trie
-- of the bus stand for them.
use livio_ark.Prelude.{
  ℕ, ◌≤◌, ◌<◌, ◌≡◌, refl, Bool, true, false, not, ◌&&◌, List, [], ◌∷◌, ◌++◌, map, Option, none,
  some, Bytes, ◌==◌, str_eq, if◌then◌else◌, indicator, keep, tally, ℕ_discrete, find, arith,
}
use livio_ark.Levels.{split_levels}
use livio_ark.Topic.{is_wildcard}
use livio_ark.Registry.{find_topic}
use livio_ark.Registry.Laws.{IsValid}
use livio_ark.Slot.{Slot, Subscriber}
use livio_ark.Trie.Contents.{Item}
use livio_ark.Trie.Refinement
use livio_ark.Bus.Subscribing.{SubInfo, Subscriptions}

-- A call of `subscribe` that returned `id`; `tid` is the id of a topic with no wildcard.
pub record Sub : Type 0 where
  pub id : ℕ
  pub text : Bytes
  pub type : ℕ
  pub handler : ℕ
  pub tid : ℕ

abbrev pub subscriber : Sub → Subscriber
subscriber u = record { id = u.id; handler = u.handler }

abbrev pub item : Sub → Item
item u = (split_levels u.text, record { type = u.type; slot = u.id; sub_id = u.id })

-- Subscribed to the very text.
abbrev pub is_exact : Bytes → Sub → Bool
is_exact text u = not (is_wildcard u.text) && str_eq u.text text

abbrev pub is_wild : Sub → Bool
is_wild u = is_wildcard u.text

abbrev pub exact_subs : Bytes → List Sub → List Subscriber
exact_subs text live = map subscriber (keep (is_exact text) live)

abbrev pub wild_items : List Sub → List Item
wild_items live = map item (keep is_wild live)

unfoldable pub find_sub : ℕ → List Sub → Option Sub
find_sub id [] = none
find_sub id (u ∷ live) = let rest = find_sub id live in if u.id == id then some u else rest

abbrev pub info : Sub → SubInfo
info u = record { tid = u.tid; is_wildcard = is_wildcard u.text }

abbrev pub info_of : Option Sub → Option SubInfo
info_of none = none
info_of (some u) = some (info u)

-- Subscribed to the text with another type.
abbrev pub is_alien : Bytes → ℕ → Sub → Bool
is_alien text type u = is_exact text u && not (u.type == type)

-- The slot of a topic, if there is one, has the topic's subscribers in order, all of its type.
abbrev pub SlotHolds : Bytes → List Sub → Option Slot → Type 0
SlotHolds text live none = exact_subs text live ≡ []
SlotHolds text live (some slot) =
    (type : ℕ) × (slot.msg_type ≡ some type)
    × (slot.subscribers ≡ exact_subs text live)
    × (tally (λ u. indicator (is_alien text type u)) live ≡ 0)

abbrev pub slot_of : Option ℕ → List (ℕ × Slot) → Option Slot
slot_of none slots = none
slot_of (some tid) slots = find ℕ_discrete tid slots

pub record Represents (live : List Sub) (s : Subscriptions) : Type 0 where
  pub registered : IsValid s.registry
  pub trie : Refinement.Holds (wild_items live) s.wildcard_trie
  pub distinct : (id : ℕ) → tally (λ u. indicator (u.id == id)) live ≤ 1
  pub given : (id : ℕ) → s.next_id < id → find_sub id live ≡ none
  pub infos : (id : ℕ) → find ℕ_discrete id s.sub_to_topic ≡ info_of (find_sub id live)
  pub topics :
      (id : ℕ) (u : Sub)
      → find_sub id live ≡ some u
      → is_wildcard u.text ≡ false
      → find_topic u.text s.registry ≡ some u.tid
  pub unslotted : (tid : ℕ) → s.registry.next_id ≤ tid → find ℕ_discrete tid s.slots ≡ none
  pub exact : (text : Bytes) → SlotHolds text live (slot_of (find_topic text s.registry) s.slots)
  pub wild :
      (id : ℕ) (u : Sub)
      → find_sub id live ≡ some u
      → is_wildcard u.text ≡ true
      → s.wildcard_slots id ≡ record { msg_type = some u.type; subscribers = subscriber u ∷ [] }

pub find_sub-count :
    (id : ℕ) (live : List Sub)
    → find_sub id live ≡ none
    → tally (λ u. indicator (u.id == id)) live ≡ 0
unfolding find_sub
find_sub-count id [] e = refl
find_sub-count id (u ∷ live) e = ground (arith, find_sub-count id live)

pub find_sub-append :
    (id : ℕ) (live : List Sub) (u : Sub)
    → find_sub u.id live ≡ none
    → find_sub id (live ++ u ∷ []) ≡ (if u.id == id then some u else find_sub id live)
unfolding find_sub
find_sub-append id [] u fresh = refl
find_sub-append id (v ∷ live) u fresh = ground (arith, find_sub-append id live u)

pub find_sub-id : (id : ℕ) (live : List Sub) (u : Sub) → find_sub id live ≡ some u → u.id ≡ id
unfolding find_sub
find_sub-id id [] u e = cc
find_sub-id id (v ∷ live) u e = ground (arith, find_sub-id id live u)

pub exact_subs-append :
    (text : Bytes) (live : List Sub) (u : Sub)
    → exact_subs text (live ++ u ∷ []) ≡ (
        if is_exact text u then exact_subs text live ++ subscriber u ∷ [] else exact_subs text live)
exact_subs-append text [] u = ground arith
exact_subs-append text (v ∷ live) u = ground (arith, exact_subs-append text live u)

pub wild_items-append :
    (live : List Sub) (u : Sub)
    → wild_items (live ++ u ∷ [])
      ≡ (if is_wild u then wild_items live ++ item u ∷ [] else wild_items live)
wild_items-append [] u = ground arith
wild_items-append (v ∷ live) u = ground (arith, wild_items-append live u)

-- A topic with no subscriber has none of another type.
pub exact_subs-alien :
    (text : Bytes) (type : ℕ) (live : List Sub)
    → exact_subs text live ≡ []
    → tally (λ u. indicator (is_alien text type u)) live ≡ 0
exact_subs-alien text type [] e = refl
exact_subs-alien text type (v ∷ live) e = ground (arith, exact_subs-alien text type live)
