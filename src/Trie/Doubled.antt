-- ===== src/Trie/Doubled.antt =====
-- A topic that has a level "*" of its own: `matchNode` takes the child "*" once as the exact level
-- and once as the wildcard.
use livio_ark.Prelude.{◌≡◌, List, [], ◌∷◌, ◌++◌, Bytes, arith}
use mathlib.Core.List.{append-nil}
use livio_ark.Levels.{star_level, split_levels}
use livio_ark.Levels.Matching.{IsConcrete}
use livio_ark.Trie.{
  Entry, empty_node, empty_snapshot, find_child, at_child, insert_at, push_slots, hash_slots,
  match_node, insert, match,
}
use livio_ark.Trie.Contents.{HasKeys}
use livio_ark.Trie.Cloning.{insert-eq}

match_node-star_level :
    (ls : List Bytes) (e : Entry)
    → IsConcrete ls
    → match_node e.type (ls ++ star_level ∷ []) (insert_at (ls ++ star_level ∷ []) e empty_node)
      ≡ e.slot ∷ e.slot ∷ []
unfolding match_node insert_at at_child hash_slots push_slots find_child
match_node-star_level [] e c = ground arith
match_node-star_level (l ∷ ls) e c =
    ground (arith, match_node-star_level ls e c.2, append-nil (e.slot ∷ e.slot ∷ []))

-- With one subscription, to a pattern with '*' as its last level and no wildcard before, a message
-- on the topic of that very text is given to the subscriber's slot twice.
pub match-star_level :
    (topic : Bytes) (ls : List Bytes) (e : Entry)
    → split_levels topic ≡ ls ++ star_level ∷ []
    → IsConcrete ls
    → match topic e.type (insert topic e empty_snapshot) ≡ e.slot ∷ e.slot ∷ []
unfolding match HasKeys
match-star_level topic ls e eq c =
    rw (insert-eq empty_snapshot topic e tt, eq) (match_node-star_level ls e c)
