-- ===== src/Bus/Removing.antt =====
-- `unsubscribe` of a subscription to one text: the live subscriptions afterwards.
use livio_ark.Prelude.{
  ℕ, ◌≤◌, ◌<◌, ◌≡◌, ◌≢◌, refl, sym, ap, ◌∙◌, inl, inr, Option-cases, false, List, map, Option, none,
  some, Bytes, ◌==◌, indicator, tally, ℕ_discrete, find, erase, find-assign, find-erase, pick,
  pick-other, pick-same, arith,
}
use mathlib.Core.Path.{subst}
use livio_ark.Topic.{is_wildcard}
use livio_ark.Registry.{find_topic}
use livio_ark.Slot.{Slot, remove_subscriber}
use livio_ark.Slot.Laws.{others_than, remove_subscriber_lem}
use livio_ark.Trie.Refinement
use livio_ark.Bus.Subscribing.{Subscriptions, remove_exact}
use livio_ark.Bus.Live.{
  Sub, subscriber, item, is_exact, is_wild, wild_items, find_sub, info_of, is_alien, SlotHolds,
  slot_of, Represents,
}
use livio_ark.Bus.Adding.{is_exact-other, some-injective}
use livio_ark.Bus.Dropping.{
  drop, find_sub-drop, tally-drop, exact_subs-drop, keep-drop, wild_items-distinct,
}

alien-drop :
    (text : Bytes) (type id : ℕ) (live : List Sub)
    → tally (λ u. indicator (is_alien text type u)) live ≡ 0
    → tally (λ u. indicator (is_alien text type u)) (drop id live) ≡ 0
alien-drop text type id live e =
    omega (arith, tally-drop (λ u. indicator (is_alien text type u)) id live)

module _ (id : ℕ) (live : List Sub) (s : Subscriptions) (u : Sub) (r : Represents live s)
    (here : find_sub id live ≡ some u) where
  pub infos-drop :
      (k : ℕ)
      → find ℕ_discrete k (erase ℕ_discrete id s.sub_to_topic) ≡ info_of (find_sub k (drop id live))
  infos-drop k =
      find-erase ℕ_discrete id k s.sub_to_topic
      ∙ rw (find_sub-drop id k live) (ground (arith, r.infos k))

  pub distinct-drop : (k : ℕ) → tally (λ v. indicator (v.id == k)) (drop id live) ≤ 1
  distinct-drop k = omega (arith, r.distinct k, tally-drop (λ v. indicator (v.id == k)) id live)

  pub given-drop : (k : ℕ) → s.next_id < k → find_sub k (drop id live) ≡ none
  given-drop k lt = find_sub-drop id k live ∙ ground (arith, r.given k lt)

  pub find_sub-dropped :
      (k : ℕ) (v : Sub) → find_sub k (drop id live) ≡ some v → (id ≢ k) × (find_sub k live ≡ some v)
  find_sub-dropped k v e = ground (arith, find_sub-drop id k live)

  -- The slot of a text that is not the subscription's.
  pub SlotHolds-elsewhere :
      (text : Bytes) (o : Option Slot)
      → is_exact text u ≡ false
      → SlotHolds text live o
      → SlotHolds text (drop id live) o
  SlotHolds-elsewhere text none n h =
      ap (map subscriber) (keep-drop (is_exact text) id live u (r.distinct id) here n) ∙ h
  SlotHolds-elsewhere text (some slot) n (t, typed, same, one_type) = (
    t,
    typed,
    same ∙ ap (map subscriber) (sym (keep-drop (is_exact text) id live u (r.distinct id) here n)),
    alien-drop text t id live one_type,
  )

  SlotHolds-removed :
      (text : Bytes) (slot : Slot)
      → SlotHolds text live (some slot)
      → SlotHolds text (drop id live) (some (remove_subscriber id slot).0)
  SlotHolds-removed text slot (t, typed, same, one_type) = rw ((remove_subscriber_lem id slot).0) (
    t,
    typed,
    ap (others_than id) same ∙ sym (exact_subs-drop text id live),
    alien-drop text t id live one_type,
  )

  pub wild_items-HasDistinctIds : Refinement.HasDistinctIds (wild_items live)
  wild_items-HasDistinctIds k = omega (arith, wild_items-distinct k live, r.distinct k)

none-some : {a : ℕ} → none ≢ some a
none-some e = cc

removed_from : ℕ → Option Slot → Option Slot
removed_from id none = none
removed_from id (some slot) = some (remove_subscriber id slot).0

find-remove_exact :
    (id tid j : ℕ) (slots : List (ℕ × Slot))
    → find ℕ_discrete j (remove_exact id tid slots)
      ≡ pick ℕ_discrete tid j
          (removed_from id (find ℕ_discrete tid slots))
          (find ℕ_discrete j slots)
unfolding remove_exact removed_from
find-remove_exact id tid j slots = elim (Option-cases (find ℕ_discrete tid slots)) [
  | inl missing ↦
      rw (missing, remove_exact)
        (elim (ℕ_discrete tid j)
          as (λ d.
            find ℕ_discrete j slots ≡ elim d [ yes _ ↦ none | no _ ↦ find ℕ_discrete j slots ]) [
              | yes p ↦ rw⁻¹ p missing
              | no n ↦ refl
            ])
  | inr (slot, there) ↦
      rw (there, remove_exact) (find-assign ℕ_discrete tid j (remove_subscriber id slot).0 slots)
]

-- A subscription to one text, and one with wildcards.
module _ (id : ℕ) (live : List Sub) (s : Subscriptions) (u : Sub) (r : Represents live s)
    (here : find_sub id live ≡ some u) where
  abbrev pub rest : Subscriptions
  rest = record s { sub_to_topic = erase ℕ_discrete id s.sub_to_topic }

  module _ (exactly : is_wildcard u.text ≡ false) where
    known : find_topic u.text s.registry ≡ some u.tid
    known = r.topics id u here exactly

    own-remove : SlotHolds u.text (drop id live) (removed_from id (find ℕ_discrete u.tid s.slots))
    unfolding removed_from
    own-remove = elim (Option-cases (find ℕ_discrete u.tid s.slots)) [
      | inl missing ↦ rw missing (
          exact_subs-drop u.text id live
          ∙ ap (others_than id) (subst (SlotHolds u.text live) missing held))
      | inr (slot, there) ↦ rw there (
          SlotHolds-removed id live s u r here u.text slot
            (subst (SlotHolds u.text live) there held))
    ]
      where
        held : SlotHolds u.text live (find ℕ_discrete u.tid s.slots)
        held = subst (λ o. SlotHolds u.text live (slot_of o s.slots)) known (r.exact u.text)

    exact-remove :
        (text : Bytes)
        → SlotHolds text
            (drop id live)
            (slot_of (find_topic text s.registry) (remove_exact id u.tid s.slots))
    exact-remove text = elim (Option-cases (find_topic text s.registry)) [
      | inl unknown ↦
          let other : u.text ≢ text =
            λ p. none-some (sym unknown ∙ ap (λ t. find_topic t s.registry) (sym p) ∙ known) in
          rw unknown (
            SlotHolds-elsewhere id live s u r here text none (is_exact-other text u other)
              (subst (λ o. SlotHolds text live (slot_of o s.slots)) unknown (r.exact text)))
      | inr (tid, there) ↦ elim (ℕ_discrete u.tid tid) [
        | yes same ↦
            let both : some u.text ≡ some text =
              sym (r.registered.back u.text u.tid known)
              ∙ rw same (r.registered.back text tid there) in
            let own : u.text ≡ text = cc in
            rw (there, find-remove_exact id u.tid tid s.slots)
              (rw⁻¹ own (
                rw⁻¹ same (
                  rw
                    (pick-same ℕ_discrete u.tid (removed_from id (find ℕ_discrete u.tid s.slots))
                      (find ℕ_discrete u.tid s.slots))
                    own-remove)))
        | no other ↦
            let apart : u.text ≢ text = λ p.
              other (some-injective (sym known ∙ ap (λ t. find_topic t s.registry) p ∙ there)) in
            rw (there, find-remove_exact id u.tid tid s.slots ∙ pick-other ℕ_discrete _ _ other)
              (SlotHolds-elsewhere id live s u r here text (find ℕ_discrete tid s.slots)
                (is_exact-other text u apart)
                (subst (λ o. SlotHolds text live (slot_of o s.slots)) there (r.exact text)))
      ]
    ]

    unslotted-remove :
        (tid : ℕ)
        → s.registry.next_id ≤ tid
        → find ℕ_discrete tid (remove_exact id u.tid s.slots) ≡ none
    unslotted-remove tid h =
        let other : u.tid ≢ tid = omega (arith, r.registered.used u.text u.tid known) in
        find-remove_exact id u.tid tid s.slots ∙ pick-other ℕ_discrete _ _ other ∙ r.unslotted tid h

    pub exact-Represents :
        Represents (drop id live) (record rest { slots = remove_exact id u.tid s.slots })
    exact-Represents = record {
      registered = r.registered;
      trie =
          subst (λ l. Refinement.Holds l s.wildcard_trie)
            (sym (ap (map item) (keep-drop is_wild id live u (r.distinct id) here exactly))) r.trie;
      distinct = distinct-drop id live s u r here;
      given = given-drop id live s u r here;
      infos = infos-drop id live s u r here;
      topics = λ k v e w. r.topics k v (find_sub-dropped id live s u r here k v e).1 w;
      unslotted = unslotted-remove;
      exact = exact-remove;
      wild = λ k v e w. r.wild k v (find_sub-dropped id live s u r here k v e).1 w;
    }
