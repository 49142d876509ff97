-- ===== src/Bus/Unsubscribing.antt =====
-- `unsubscribe`, with one text or with wildcards: the live subscriptions afterwards.
use livio_ark.Prelude.{
  ℕ, ◌≡◌, ◌≢◌, sym, ap, ◌∙◌, inl, inr, Bool-cases, Option-cases, true, List, [], ◌∷◌, Option, none,
  some, ◌==◌, arith,
}
use mathlib.Core.Path.{subst}
use livio_ark.Topic.{is_wildcard}
use livio_ark.Registry.{find_topic}
use livio_ark.Slot.{Slot}
use livio_ark.Slot.Laws.{remove_subscriber_lem}
use livio_ark.Trie.{Entry}
use livio_ark.Trie
use livio_ark.Trie.Refinement
use livio_ark.Bus.Subscribing.{Subscriptions, forget_subscriber, remove_sub, unsubscribe}
use livio_ark.Bus.Live.{
  Sub, subscriber, wild_items, find_sub, find_sub-id, info, info_of, slot_of, Represents,
}
use livio_ark.Bus.Dropping.{drop, drop-none, wild_items-drop}
use livio_ark.Bus.Removing.{
  rest, infos-drop, distinct-drop, given-drop, find_sub-dropped, SlotHolds-elsewhere,
  wild_items-HasDistinctIds, exact-Represents,
}

-- The slot of another subscription does not change.
forget_subscriber-other :
    (id k : ℕ) (o : Option Entry) (store : ℕ → Slot) (v : Sub)
    → id ≢ v.id
    → store k ≡ record { msg_type = some v.type; subscribers = subscriber v ∷ [] }
    → forget_subscriber id o store k
      ≡ record { msg_type = some v.type; subscribers = subscriber v ∷ [] }
unfolding forget_subscriber
forget_subscriber-other id k none store v n h = h
forget_subscriber-other id k (some e) store v n h = elim (Bool-cases (e.slot == k)) [
  | inl own ↦
      let same : e.slot ≡ k = ground arith in
      rw (same, (remove_subscriber_lem id (store k)).0, h) (ground arith)
  | inr other ↦ rw other h
]

module _ (id : ℕ) (live : List Sub) (s : Subscriptions) (u : Sub) (r : Represents live s)
    (here : find_sub id live ≡ some u) where
  pattern-Represents :
      is_wildcard u.text ≡ true
      → Represents (drop id live) (record (rest id live s u r here) {
        wildcard_trie = (Trie.remove id s.wildcard_trie).0;
        wildcard_slots = forget_subscriber id (Trie.remove id s.wildcard_trie).1 s.wildcard_slots;
      })
  pattern-Represents wildcard = record {
    registered = r.registered;
    trie =
        subst (λ l. Refinement.Holds l (Trie.remove id s.wildcard_trie).0)
          (sym (wild_items-drop id live))
          (Refinement.remove-Holds (wild_items live) s.wildcard_trie id r.trie
            (wild_items-HasDistinctIds id live s u r here));
    distinct = distinct-drop id live s u r here;
    given = given-drop id live s u r here;
    infos = infos-drop id live s u r here;
    topics = λ k v e w. r.topics k v (find_sub-dropped id live s u r here k v e).1 w;
    unslotted = r.unslotted;
    exact = λ text.
        SlotHolds-elsewhere id live s u r here text (slot_of (find_topic text s.registry) s.slots)
          (rw wildcard) (r.exact text);
    wild = λ k v e w.
        let kept = find_sub-dropped id live s u r here k v e in
        forget_subscriber-other id k (Trie.remove id s.wildcard_trie).1 s.wildcard_slots v
          (rw (find_sub-id k live v kept.1) kept.0) (r.wild k v kept.1 w);
  }

  removed-Represents : Represents (drop id live) (remove_sub id (info u) (rest id live s u r here))
  unfolding remove_sub
  removed-Represents = elim (Bool-cases (is_wildcard u.text)) [
    | inl wildcard ↦ rw (wildcard, remove_sub) (pattern-Represents wildcard)
    | inr exactly ↦ rw (exactly, remove_sub) (exact-Represents id live s u r here exactly)
  ]

-- `unsubscribe` with any id, known or not, on a bus that represents a list of live subscriptions
-- leaves one that represents the list without the subscription of that id.
pub unsubscribe-Represents :
    (live : List Sub) (id : ℕ) (s : Subscriptions)
    → Represents live s
    → Represents (drop id live) (unsubscribe id s)
unfolding unsubscribe
unsubscribe-Represents live id s r = elim (Option-cases (find_sub id live)) [
  | inl unknown ↦
      rw (unsubscribe, r.infos id ∙ ap info_of unknown) (rw (drop-none id live unknown) r)
  | inr (u, here) ↦
      rw (unsubscribe, r.infos id ∙ ap info_of here) (removed-Represents id live s u r here)
]
