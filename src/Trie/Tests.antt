-- ===== src/Trie/Tests.antt =====
-- The trie of wildcard subscriptions after concrete calls, and its properties there.
use livio_ark.Prelude.{◌+◌, ◌≡◌, refl, List, [], ◌∷◌, Bytes, tally, arith}
use livio_ark.Levels.{slash, star, hash, split_levels}
use livio_ark.Levels.Matching.{IsConcrete}
use livio_ark.Trie.{Entry, Snapshot, empty_snapshot, insert, remove, match}
use livio_ark.Trie.Contents.{Item}
use livio_ark.Trie.Matching.{linear_scan}
use livio_ark.Trie.Refinement.{
  Holds, HasDistinctIds, without, empty-Holds, insert-Holds, remove-Holds, match-linear_scan,
}
use livio_ark.Trie.History.{
  Call, inserts, removes, AllNew, run, list_run, run-empty-Holds, match-run,
}
use livio_ark.Trie.Pruning.{IsPruned}
use livio_ark.Trie.Doubled.{match-star_level}

-- "s/t", "s/*" and "s/#"
abbrev topic : Bytes
topic = 115 ∷ slash ∷ 116 ∷ []

abbrev star_pattern : Bytes
star_pattern = 115 ∷ slash ∷ star ∷ []

abbrev hash_pattern : Bytes
hash_pattern = 115 ∷ slash ∷ hash ∷ []

abbrev first_entry : Entry
first_entry = record { type = 7; slot = 1; sub_id = 1 }

abbrev second_entry : Entry
second_entry = record { type = 7; slot = 2; sub_id = 2 }

abbrev one_item : List Item
one_item = (split_levels star_pattern, first_entry) ∷ []

abbrev one_snapshot : Snapshot
one_snapshot = insert star_pattern first_entry empty_snapshot

abbrev calls : List Call
calls = inserts star_pattern first_entry ∷ inserts hash_pattern second_entry ∷ removes 1 ∷ []

topic-IsConcrete : IsConcrete (split_levels topic)
unfolding split_levels
topic-IsConcrete = (λ e. cc, λ e. cc, (λ e. cc, λ e. cc, tt))

one-Holds : Holds one_item one_snapshot
one-Holds = insert-Holds [] empty_snapshot star_pattern first_entry empty-Holds

calls-AllNew : AllNew [] calls
calls-AllNew = (refl, (refl, (tt, tt)))

one-HasDistinctIds : HasDistinctIds one_item
one-HasDistinctIds id = ground arith

insert-Holds_example :
    Holds
      ((split_levels hash_pattern, second_entry) ∷ one_item)
      (insert hash_pattern second_entry one_snapshot)
insert-Holds_example = insert-Holds one_item one_snapshot hash_pattern second_entry one-Holds

remove-Holds_example : Holds (without 1 one_item) (remove 1 one_snapshot).0
remove-Holds_example = remove-Holds one_item one_snapshot 1 one-Holds one-HasDistinctIds

match-linear_scan_example :
    tally (λ a. a + 1) (match topic 7 one_snapshot)
    ≡ tally (λ a. a + 1) (linear_scan 7 (split_levels topic) one_item)
match-linear_scan_example =
    match-linear_scan one_item one_snapshot topic 7 one-Holds topic-IsConcrete (λ a. a + 1)

run-empty-Holds_example :
    Holds (list_run [] calls) (run empty_snapshot calls) × IsPruned (run empty_snapshot calls).root
run-empty-Holds_example = run-empty-Holds calls calls-AllNew

match-run_example :
    tally (λ a. a + 1) (match topic 7 (run empty_snapshot calls))
    ≡ tally (λ a. a + 1) (linear_scan 7 (split_levels topic) (list_run [] calls))
match-run_example = match-run calls topic 7 calls-AllNew topic-IsConcrete (λ a. a + 1)

-- "s/*" as a topic
match-star_level_example :
    match star_pattern 7 (insert star_pattern first_entry empty_snapshot) ≡ 1 ∷ 1 ∷ []
unfolding split_levels
match-star_level_example =
    match-star_level star_pattern ((115 ∷ []) ∷ []) first_entry refl (λ e. cc, λ e. cc, tt)
