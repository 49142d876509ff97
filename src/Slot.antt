-- ===== src/Slot.antt =====
-- `ITopicSlot` and `TopicSlot` of include/livioark/msgbus/topic_slot.h, with `Subscriber` of
-- include/livioark/msgbus/subscriber.h. The published subscriber list is a value: a dispatch that
-- has loaded it goes on with it whatever is published after.
mod Tests
pub mod Laws
use livio_ark.Prelude.{
  ℕ, Bool, true, false, List, [], ◌∷◌, ◌++◌, ◌||◌, Option, none, some, ◌==◌, if◌then◌else◌,
}

-- `std::function` is the number that names it.
pub record Subscriber : Type 0 where
  pub id : ℕ
  pub handler : ℕ

pub record Slot : Type 0 where
  pub msg_type : Option ℕ
  pub subscribers : List Subscriber

-- `TopicSlot<T>()`
abbrev pub new_slot : ℕ → Slot
new_slot type = record { msg_type = some type; subscribers = [] }

unfoldable pub add_subscriber : ℕ → ℕ → Slot → Slot
add_subscriber handler id slot = record slot {
  subscribers = slot.subscribers ++ record { id = id; handler = handler } ∷ [];
}

-- The copy without the subscriber, and whether the loop saw it.
pub copy_without : ℕ → List Subscriber → List Subscriber × Bool
copy_without id [] = ([], false)
copy_without id (s ∷ ss) =
    let (rest, found) = copy_without id ss in if s.id == id then (rest, true) else (s ∷ rest, found)

unfoldable pub remove_subscriber : ℕ → Slot → Slot × Bool
unfolding copy_without
remove_subscriber id slot =
    let (new_list, found) = copy_without id slot.subscribers in
    (if found then record slot { subscribers = new_list } else slot, found)

pub data Outcome : Type 0 where
  returned threw : Outcome

-- `catch (...) {}`: what the handler did up to its exception stays done.
unfoldable pub caught : {W : Type 0} → Outcome × W → W
caught (returned, w) = w
caught (threw, w) = w

-- `W` is all that a handler can change; `call` runs a handler on the data of a message.
module _ {W : Type 0} (call : ℕ → ℕ → W → Outcome × W) where
  unfoldable pub dispatch_to : List Subscriber → ℕ → W → W
  dispatch_to [] payload w = w
  dispatch_to (s ∷ ss) payload w = dispatch_to ss payload (caught (call s.handler payload w))

  -- `none` is the undefined behaviour of a `static_cast` to a message of another type.
  unfoldable pub dispatch : Slot → ℕ → ℕ → W → Option W
  unfolding dispatch_to
  dispatch slot type payload w = elim slot.msg_type [
    | none ↦ none
    | some t ↦ if t == type then some (dispatch_to slot.subscribers payload w) else none
  ]
