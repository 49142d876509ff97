-- ===== src/Trie/History.antt =====
-- `WildcardTrie` after any sequence of `insert` and `remove` calls.
use livio_ark.Prelude.{ℕ, ◌≤◌, ◌≡◌, refl, List, [], ◌∷◌, Bytes, tally, arith, Option, none, some}
use mathlib.Core.Path.{subst, sym}
use livio_ark.Levels.Matching.{IsConcrete}
use livio_ark.Levels.{split_levels}
use livio_ark.Trie.{
  Entry, Node, Snapshot, empty_snapshot, insert, remove, match, remove_from, publish_removal,
}
use livio_ark.Trie.Contents.{Item}
use livio_ark.Trie.Cloning.{insert-eq, remove-eq}
use livio_ark.Trie.Matching.{linear_scan}
use livio_ark.Trie.Removal.{has_id}
use livio_ark.Trie.Pruning.{IsPruned, insert_at-IsPruned, remove_from-IsPruned}
use livio_ark.Trie.Refinement.{
  Holds, HasDistinctIds, without, empty-Holds, insert-Holds, remove-Holds, match-linear_scan,
}

pub data Call : Type 0 where
  inserts : Bytes → Entry → Call
  removes : ℕ → Call

abbrev pub step : Snapshot → Call → Snapshot
step s (inserts pattern e) = insert pattern e s
step s (removes id) = (remove id s).0

pub run : Snapshot → List Call → Snapshot
run s [] = s
run s (c ∷ cs) = run (step s c) cs

-- The same calls on a plain list.
abbrev pub list_step : List Item → Call → List Item
list_step xs (inserts pattern e) = (split_levels pattern, e) ∷ xs
list_step xs (removes id) = without id xs

pub list_run : List Item → List Call → List Item
list_run xs [] = xs
list_run xs (c ∷ cs) = list_run (list_step xs c) cs

-- No insert uses the id of a subscription that is there.
abbrev pub IsNew : List Item → Call → Type 0
IsNew xs (inserts pattern e) = tally (has_id e.sub_id) xs ≡ 0
IsNew xs (removes id) = Unit {0}

abbrev pub AllNew : List Item → List Call → Type 0
AllNew xs [] = Unit {0}
AllNew xs (c ∷ cs) = IsNew xs c × AllNew (list_step xs c) cs

without-le : (id k : ℕ) (xs : List Item) → tally (has_id k) (without id xs) ≤ tally (has_id k) xs
without-le id k [] = omega arith
without-le id k (x ∷ xs) = ground (arith, without-le id k xs)

list_step-HasDistinctIds :
    (xs : List Item) (c : Call) → IsNew xs c → HasDistinctIds xs → HasDistinctIds (list_step xs c)
list_step-HasDistinctIds xs (inserts pattern e) new d k = ground (arith, d k)
list_step-HasDistinctIds xs (removes id) new d k = omega (arith, d k, without-le id k xs)

step-Holds :
    (xs : List Item) (s : Snapshot) (c : Call)
    → HasDistinctIds xs
    → Holds xs s
    → Holds (list_step xs c) (step s c)
step-Holds xs s (inserts pattern e) d h = insert-Holds xs s pattern e h
step-Holds xs s (removes id) d h = remove-Holds xs s id h d

publish_removal-IsPruned :
    (s : Snapshot) (id : ℕ) (r : Option (Node × Entry))
    → remove_from id s.root ≡ r
    → IsPruned s.root
    → IsPruned (publish_removal s s r).0.root
publish_removal-IsPruned s id none e p = p
publish_removal-IsPruned s id (some (n, x)) e p = remove_from-IsPruned id s.root n x e p

step-IsPruned :
    (xs : List Item) (s : Snapshot) (c : Call)
    → Holds xs s
    → IsPruned s.root
    → IsPruned (step s c).root
step-IsPruned xs s (inserts pattern e) h p =
    subst (λ (q : Snapshot). IsPruned q.root) (sym (insert-eq s pattern e h.keys))
      (insert_at-IsPruned (split_levels pattern) e s.root p)
step-IsPruned xs s (removes id) h p =
    subst (λ (q : Snapshot × Option Entry). IsPruned q.0.root) (sym (remove-eq s id h.keys))
      (publish_removal-IsPruned s id (remove_from id s.root) refl p)

run-Holds :
    (xs : List Item) (s : Snapshot) (cs : List Call)
    → AllNew xs cs
    → HasDistinctIds xs
    → Holds xs s
    → IsPruned s.root
    → Holds (list_run xs cs) (run s cs) × IsPruned (run s cs).root
unfolding run list_run
run-Holds xs s [] new d h p = (h, p)
run-Holds xs s (c ∷ cs) new d h p =
    run-Holds (list_step xs c) (step s c) cs new.1 (list_step-HasDistinctIds xs c new.0 d)
      (step-Holds xs s c d h) (step-IsPruned xs s c h p)

-- After any sequence of `insert` and `remove` calls on an empty trie, in which no insert uses the
-- id of a subscription that is there, the trie holds what a list holds after the same calls, and
-- has no empty node below its root.
pub run-empty-Holds :
    (cs : List Call)
    → AllNew [] cs
    → Holds (list_run [] cs) (run empty_snapshot cs) × IsPruned (run empty_snapshot cs).root
unfolding IsPruned
run-empty-Holds cs new = run-Holds [] empty_snapshot cs new (λ id. omega arith) empty-Holds tt

-- After any sequence of `insert` and `remove` calls on an empty trie, in which no insert uses the
-- id of a subscription that is there, `match` on a topic with no wildcard level gives each slot as
-- often as a scan over the list on which the same calls were made.
pub match-run :
    (cs : List Call) (topic : Bytes) (ty : ℕ)
    → AllNew [] cs
    → IsConcrete (split_levels topic)
    → (g : ℕ → ℕ)
    → tally g (match topic ty (run empty_snapshot cs))
      ≡ tally g (linear_scan ty (split_levels topic) (list_run [] cs))
match-run cs topic ty new c =
    match-linear_scan (list_run [] cs) (run empty_snapshot cs) topic ty (run-empty-Holds cs new).0 c
