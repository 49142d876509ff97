-- ===== src/Trie/Refinement.antt =====
-- The trie as a list of subscriptions: each operation of `WildcardTrie` does to the trie what a
-- plain list operation does to the list.
use livio_ark.Prelude.{
  ◌++◌, length-append, tally-append, ℕ, ◌+◌, ◌-◌, ◌≤◌, ◌≡◌, ◌↔◌, refl, sym, ◌∙◌, inl, inr,
  Option-cases, Bool, true, false, not, List, [], ◌∷◌, none, some, Bytes, ◌==◌, if◌then◌else◌,
  length, tally, tally-split, tally-keep, tally-map, keep, arith,
}
use livio_ark.Levels.Matching.{IsConcrete}
use livio_ark.Levels.{split_levels}
use livio_ark.Trie.{
  Entry, Node, Snapshot, empty_snapshot, remove_from, insert, remove, match, is_empty,
}
use livio_ark.Trie.Contents.{Item, contents, HasKeys}
use livio_ark.Trie.Matching.{fits, slot_of, linear_scan, match_node-linear_scan}
use livio_ark.Trie.Updates.{tally-empty_node, tally-insert_at, insert_at-HasKeys}
use livio_ark.Trie.Removal.{has_id, Removes, remove_from-Removes, remove_from-HasKeys}
use livio_ark.Trie.Cloning.{clone_node-eq}

-- The trie holds exactly these subscriptions, each as often, and counts them.
pub record Holds (xs : List Item) (s : Snapshot) : Type 0 where
  pub keys : HasKeys s.root
  pub counted : s.entry_count ≡ length xs
  pub same : (f : Item → ℕ) → tally f (contents s.root) ≡ tally f xs

pub empty-Holds : Holds [] empty_snapshot
unfolding HasKeys
empty-Holds = record { keys = tt; counted = refl; same = tally-empty_node }

-- `insert` on a trie that holds a list of subscriptions leaves one that holds that list and the new
-- subscription, under the levels of its pattern.
pub insert-Holds :
    (xs : List Item) (s : Snapshot) (pattern : Bytes) (e : Entry)
    → Holds xs s
    → Holds ((split_levels pattern, e) ∷ xs) (insert pattern e s)
unfolding insert
insert-Holds xs s pattern e h = rw (clone_node-eq s.root h.keys) (record {
  keys = insert_at-HasKeys (split_levels pattern) e s.root h.keys;
  counted = omega (arith, h.counted);
  same = λ f. omega (arith, h.same f, tally-insert_at f (split_levels pattern) e s.root);
})

-- Subscription ids are given out once.
abbrev pub HasDistinctIds : List Item → Type 0
HasDistinctIds xs = (id : ℕ) → tally (has_id id) xs ≤ 1

abbrev pub without : ℕ → List Item → List Item
without id = keep (λ x. not (x.1.sub_id == id))

linear_scan-tally :
    (g : ℕ → ℕ) (ty : ℕ) (ts : List Bytes) (xs : List Item)
    → tally g (linear_scan ty ts xs) ≡ tally (λ x. if fits ty ts x then g (slot_of x) else 0) xs
linear_scan-tally g ty ts xs =
    tally-map g slot_of (keep (fits ty ts) xs) ∙ tally-keep (λ x. g (slot_of x)) (fits ty ts) xs

-- The test of `without`, and the sum over what it drops.
abbrev is_other : ℕ → Item → Bool
is_other id x = not (x.1.sub_id == id)

dropped-zero :
    (id : ℕ) (f : Item → ℕ) (xs : List Item)
    → tally (has_id id) xs ≡ 0
    → tally (λ x. if is_other id x then 0 else f x) xs ≡ 0
dropped-zero id f [] h = refl
dropped-zero id f (x ∷ xs) h = ground (arith, dropped-zero id f xs)

length-without :
    (id : ℕ) (xs : List Item) → length xs ≡ length (without id xs) + tally (has_id id) xs
length-without id [] = refl
length-without id (x ∷ xs) = ground (arith, length-without id xs)

without-Holds :
    (xs : List Item) (id : ℕ) (s : Snapshot)
    → Holds xs s
    → tally (has_id id) xs ≡ 0
    → Holds (without id xs) s
without-Holds xs id s h z = record {
  keys = h.keys;
  counted = omega (arith, h.counted, length-without id xs);
  same = λ f. omega (arith, h.same f, tally-split (is_other id) f xs, dropped-zero id f xs z);
}

erased-Holds :
    (xs : List Item) (id : ℕ) (s : Snapshot)
    → Holds xs s
    → (n : Node) (x : Entry) → HasKeys n
    → Removes id s.root (some (n, x))
    → tally (has_id id) xs ≤ 1
    → Holds (without id xs) (record { root = n; entry_count = s.entry_count - 1 })
erased-Holds xs id s h n x w (ls, eq, gone) d = record {
  keys = w;
  counted = ground (arith, h.same (has_id id), gone (has_id id), h.counted, length-without id xs);
  same = λ f.
      let kept = λ (y : Item). if is_other id y then f y else 0 in
      ground (
        arith,
        h.same kept,
        gone kept,
        tally-keep f (is_other id) xs,
        tally-keep f (is_other id) (contents n),
        tally-split (is_other id) f (contents n),
        dropped-zero id f (contents n) left,
      );
}
  where
    left : tally (has_id id) (contents n) ≡ 0
    left = ground (arith, h.same (has_id id), gone (has_id id))

module _ (xs : List Item) (s : Snapshot) (id : ℕ) (h : Holds xs s) where
  -- `remove` on a trie that holds a list of subscriptions with distinct ids leaves one that holds
  -- the list without the subscription of that id, whether it was there or not.
  pub remove-Holds : HasDistinctIds xs → Holds (without id xs) (remove id s).0
  unfolding remove
  remove-Holds d = elim (Option-cases (remove_from id s.root)) [
    | inl missing ↦
        rw (clone_node-eq s.root h.keys, missing)
          (without-Holds xs id s h
            (omega (arith, h.same (has_id id), remove_from-Removes id s.root none missing)))
    | inr ((n, x), found) ↦
        rw (clone_node-eq s.root h.keys, found)
          (erased-Holds xs id s h n x (remove_from-HasKeys id s.root n x found h.keys)
            (remove_from-Removes id s.root (some (n, x)) found) (d id))
  ]

  -- `remove` on a trie that holds a list of subscriptions erases no entry exactly when the list has
  -- no subscription of that id.
  remove-found : ((remove id s).1 ≡ none) ↔ (tally (has_id id) xs ≡ 0)
  unfolding remove
  remove-found = elim (Option-cases (remove_from id s.root)) [
    | inl missing ↦
        rw (clone_node-eq s.root h.keys, missing)
          (
            λ _. omega (arith, h.same (has_id id), remove_from-Removes id s.root none missing),
            λ _. refl,
          )
    | inr ((n, x), found) ↦
        let gone = remove_from-Removes id s.root (some (n, x)) found in
        rw (clone_node-eq s.root h.keys, found)
          (λ e. cc, λ e. ground (arith, h.same (has_id id), gone.2 (has_id id)))
  ]

-- On a trie that holds a list of subscriptions, and a topic with no wildcard level, `match` gives
-- each slot as often as a scan over the list does.
pub match-linear_scan :
    (xs : List Item) (s : Snapshot) (topic : Bytes) (ty : ℕ)
    → Holds xs s
    → IsConcrete (split_levels topic)
    → (g : ℕ → ℕ) → tally g (match topic ty s) ≡ tally g (linear_scan ty (split_levels topic) xs)
unfolding match
match-linear_scan [] s topic ty h c g = ground arith
match-linear_scan (x ∷ xs) s topic ty h c g =
    let some_entry : (s.entry_count == 0) ≡ false = ground (arith, h.counted) in
    rw some_entry (
      match_node-linear_scan g ty (split_levels topic) c s.root h.keys
      ∙ linear_scan-tally g ty (split_levels topic) (contents s.root)
      ∙ h.same _
      ∙ sym (linear_scan-tally g ty (split_levels topic) (x ∷ xs)))

-- On a trie that holds a list of subscriptions, `empty` is true exactly when the list is empty.
pub is_empty-Holds : (xs : List Item) (s : Snapshot) → Holds xs s → (is_empty s ≡ true) ↔ (xs ≡ [])
unfolding is_empty
is_empty-Holds [] s h = ground arith
is_empty-Holds (x ∷ xs) s h = ground arith

-- The order of the list does not count.
pub Holds-rotate :
    (x : Item) (xs : List Item) (s : Snapshot) → Holds (x ∷ xs) s → Holds (xs ++ x ∷ []) s
Holds-rotate x xs s h = record {
  keys = h.keys;
  counted = omega (arith, h.counted, length-append xs (x ∷ []));
  same = λ f. omega (arith, h.same f, tally-append f xs (x ∷ []));
}
