-- ===== src/Trie.antt =====
-- `WildcardTrie` of include/livioark/msgbus/wildcard_trie.h: a trie over topic levels that indexes
-- wildcard subscriptions. A published snapshot is a value; the store of a new one is the new state.
use livio_ark.Prelude.{
  ℕ, ◌+◌, ◌-◌, Bool, true, false, List, [], ◌∷◌, ◌++◌, Option, none, some, Bytes, ◌==◌, str_eq,
  if◌then◌else◌,
}
mod Tests
pub mod Contents
pub mod Matching
pub mod Updates
pub mod Removal
pub mod Cloning
pub mod Refinement
pub mod Pruning
pub mod History
pub mod Doubled
use livio_ark.Levels.{star_level, hash_level, split_levels}

-- `slot` is the address of the `ITopicSlot` that the shared pointer holds, `type` the `type_info`.
pub record Entry : Type 0 where
  pub type : ℕ
  pub slot : ℕ
  pub sub_id : ℕ

-- `unordered_map<string, unique_ptr<Node>>` is a list of keys and nodes.
mutual
  pub data Node : Type 0 where
    node : Children → List Entry → Node

  pub data Children : Type 0 where
    no_child : Children
    child : Bytes → Node → Children → Children

abbrev pub children : Node → Children
children (node cs es) = cs

abbrev pub entries : Node → List Entry
entries (node cs es) = es

abbrev pub empty_node : Node
empty_node = node no_child []

-- `children.find(key)`
pub find_child : Bytes → Children → Option Node
find_child l no_child = none
find_child l (child k n cs) = let rest = find_child l cs in if str_eq k l then some n else rest

-- One round of the loop of `insert`: find the child or make it, and go on below it.
pub at_child : Bytes → (Node → Node) → Children → Children
at_child l f no_child = child l (f empty_node) no_child
at_child l f (child k n cs) =
    let rest = at_child l f cs in if str_eq k l then child k (f n) cs else child k n rest

pub insert_at : List Bytes → Entry → Node → Node
insert_at [] e (node cs es) = node cs (es ++ e ∷ [])
insert_at (l ∷ ls) e (node cs es) = node (at_child l (insert_at ls e) cs) es

-- The slots of the entries for messages of a type.
pub push_slots : ℕ → List Entry → List ℕ
push_slots ty [] = []
push_slots ty (e ∷ es) = let rest = push_slots ty es in if e.type == ty then e.slot ∷ rest else rest

hash_slots : ℕ → Children → List ℕ
unfolding find_child push_slots
hash_slots ty cs = elim (find_child hash_level cs) [
  | none ↦ []
  | some n ↦ push_slots ty (entries n)
]

-- What `matchNode` pushes to `out`, for the levels from `depth` on.
pub match_node : ℕ → List Bytes → Node → List ℕ
match_node ty [] (node cs es) = hash_slots ty cs ++ push_slots ty es
match_node ty (l ∷ ls) (node cs es) =
    hash_slots ty cs
    ++ (elim (find_child l cs) [ none ↦ [] | some n ↦ match_node ty ls n ]
        ++ elim (find_child star_level cs) [ none ↦ [] | some n ↦ match_node ty ls n ])

-- `node->entries.erase(it)` at the first entry of the subscription.
pub remove_entry : ℕ → List Entry → Option (List Entry × Entry)
remove_entry id [] = none
remove_entry id (e ∷ es) = elim (e.sub_id == id) [
  | true ↦ some (es, e)
  | false ↦ elim (remove_entry id es) [ none ↦ none | some (es', x) ↦ some (e ∷ es', x) ]
]

abbrev is_bare : Node → Bool
is_bare (node no_child []) = true
is_bare (node _ _) = false

-- `removeFrom`: the new node and the entry that it erased, on whose slot it also calls
-- `removeSubscriber`; `none` is the result `false`.
mutual
  unfolding remove_entry

  pub remove_from : ℕ → Node → Option (Node × Entry)
  remove_from id (node cs es) = elim (remove_entry id es) [
    | some (es', e) ↦ some (node cs es', e)
    | none ↦ elim (remove_children id cs) [ none ↦ none | some (cs', e) ↦ some (node cs' es, e) ]
  ]

  pub remove_children : ℕ → Children → Option (Children × Entry)
  remove_children id no_child = none
  remove_children id (child k n cs) = elim (remove_from id n) [
    | some (n', e) ↦ some (if is_bare n' then cs else child k n' cs, e)
    | none ↦ elim (remove_children id cs) [ none ↦ none | some (cs', e) ↦ some (child k n cs', e) ]
  ]

-- `dst.children.emplace(key, node)`: a key that is there keeps its node.
pub emplace_child : Bytes → Node → Children → Children
emplace_child l n no_child = child l n no_child
emplace_child l n (child k m cs) =
    let rest = emplace_child l n cs in if str_eq k l then child k m cs else child k m rest

-- `cloneNode`, with the children of `dst` that are copied so far.
mutual
  unfolding emplace_child

  pub clone_node : Node → Node
  clone_node (node cs es) = node (clone_children cs no_child) es

  pub clone_children : Children → Children → Children
  clone_children no_child dst = dst
  clone_children (child k n cs) dst = clone_children cs (emplace_child k (clone_node n) dst)

pub record Snapshot : Type 0 where
  pub root : Node
  pub entry_count : ℕ

abbrev pub empty_snapshot : Snapshot
empty_snapshot = record { root = empty_node; entry_count = 0 }

pub clone_snapshot : Snapshot → Snapshot
clone_snapshot old = record { root = clone_node old.root; entry_count = old.entry_count }

unfoldable pub insert : Bytes → Entry → Snapshot → Snapshot
unfolding clone_snapshot
insert pattern e old =
    let snap = clone_snapshot old in
    record {
      root = insert_at (split_levels pattern) e snap.root;
      entry_count = snap.entry_count + 1;
    }

-- `if (found)`: the new snapshot is published, and otherwise dropped.
abbrev pub publish_removal : Snapshot → Snapshot → Option (Node × Entry) → Snapshot × Option Entry
publish_removal old snap none = (old, none)
publish_removal old snap (some (root', e)) =
    (record { root = root'; entry_count = snap.entry_count - 1 }, some e)

-- The second component is the entry that was erased: its slot loses the subscriber.
unfoldable pub remove : ℕ → Snapshot → Snapshot × Option Entry
unfolding clone_snapshot
remove id old = let snap = clone_snapshot old in publish_removal old snap (remove_from id snap.root)

unfoldable pub match : Bytes → ℕ → Snapshot → List ℕ
match topic ty snap =
    if snap.entry_count == 0 then [] else match_node ty (split_levels topic) snap.root

unfoldable pub is_empty : Snapshot → Bool
is_empty snap = snap.entry_count == 0
