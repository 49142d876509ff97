-- ===== src/Bus/Patterns.antt =====
-- `subscribe` with a pattern that has wildcards, and the theorem on both branches.
use livio_ark.Prelude.{
  ℕ, ◌+◌, ◌%◌, ◌≤◌, ◌<◌, ◌≡◌, refl, sym, ◌∙◌, inl, inr, Bool-cases, true, false, List, [], ◌∷◌,
  ◌++◌, none, some, Bytes, ◌==◌, if◌then◌else◌, ℕ_discrete, assign, pick-same, Bytes-discrete,
  arith,
}
use mathlib.Core.Path.{subst}
use livio_ark.Topic.{is_wildcard}
use livio_ark.Trie
use livio_ark.Registry.{invalid_topic_id, find_topic, resolve}
use livio_ark.Registry.Laws.{HasRoom, find_topic-resolve}
use livio_ark.Slot.{Slot, new_slot, add_subscriber}
use livio_ark.Trie.Refinement
use livio_ark.Bus.Subscribing.{
  SubInfo, Subscriptions, subscription_ids, get_or_create_slot, hash_inside, put_slot,
  subscribe_wildcard, subscribe_exact, subscribe,
}
use livio_ark.Bus.Live.{
  Sub, subscriber, item, wild_items, find_sub, info, SlotHolds, slot_of, Represents,
  find_sub-append, wild_items-append,
}
use livio_ark.Bus.Slots.{
  resolved, resolved-Represents, get_or_create_slot-SlotReady, advance-Represents,
}
use livio_ark.Bus.Adding.{
  Subscribed, distinct-append, given-append, infos-append, SlotHolds-other, add_to_slot-Subscribed,
}

module _ (live : List Sub) (s : Subscriptions) (u : Sub) (r : Represents live s)
    (fresh : find_sub u.id live ≡ none) (le : u.id ≤ s.next_id)
    (wildcard : is_wildcard u.text ≡ true) (no_topic : u.tid ≡ invalid_topic_id) where
  trie' : Trie.Snapshot
  trie' = Trie.insert u.text (record { type = u.type; slot = u.id; sub_id = u.id }) s.wildcard_trie

  store' : ℕ → Slot
  store' = put_slot u.id (add_subscriber u.handler u.id (new_slot u.type)) s.wildcard_slots

  topics-pattern :
      (id : ℕ) (v : Sub)
      → find_sub id (live ++ u ∷ []) ≡ some v
      → is_wildcard v.text ≡ false
      → find_topic v.text s.registry ≡ some v.tid
  topics-pattern id v e w = elim (Bool-cases (u.id == id)) [
    | inl own ↦
        let same : some u ≡ some v = sym (find_sub-append id live u fresh ∙ rw own) ∙ e in
        let same' : u ≡ v = cc in absurd cc
    | inr other ↦ r.topics id v (sym (find_sub-append id live u fresh ∙ rw other) ∙ e) w
  ]

  wild-pattern :
      (id : ℕ) (v : Sub)
      → find_sub id (live ++ u ∷ []) ≡ some v
      → is_wildcard v.text ≡ true
      → store' id ≡ record { msg_type = some v.type; subscribers = subscriber v ∷ [] }
  unfolding store' add_subscriber
  wild-pattern id v e w = elim (Bool-cases (u.id == id)) [
    | inl own ↦
        let same : some u ≡ some v = sym (find_sub-append id live u fresh ∙ rw own) ∙ e in
        let same' : u ≡ v = cc in
        rw own (
          subst
            (λ x.
              add_subscriber u.handler u.id (new_slot u.type)
              ≡ record { msg_type = some x.type; subscribers = subscriber x ∷ [] })
            same' refl)
    | inr other ↦ rw other (r.wild id v (sym (find_sub-append id live u fresh ∙ rw other) ∙ e) w)
  ]

  pattern-Represents : Represents (live ++ u ∷ []) (record s {
    wildcard_slots = store';
    wildcard_trie = trie';
    sub_to_topic = assign ℕ_discrete u.id (info u) s.sub_to_topic;
  })
  unfolding trie'
  pattern-Represents = record {
    registered = r.registered;
    trie =
        subst (λ l. Refinement.Holds l trie') (sym (wild_items-append live u ∙ rw wildcard))
          (Refinement.Holds-rotate (item u) (wild_items live) trie'
            (Refinement.insert-Holds (wild_items live) s.wildcard_trie u.text _ r.trie));
    distinct = distinct-append live s u r fresh;
    given = given-append live s u r fresh le;
    infos = infos-append live s u r fresh;
    topics = topics-pattern;
    unslotted = r.unslotted;
    exact = λ text.
        SlotHolds-other text live u (slot_of (find_topic text s.registry) s.slots) (rw wildcard)
          (r.exact text);
    wild = wild-pattern;
  }

subscribe_wildcard-Subscribed :
    (live : List Sub) (s : Subscriptions) (u : Sub)
    → Represents live s
    → find_sub u.id live ≡ none
    → u.id ≤ s.next_id
    → is_wildcard u.text ≡ true
    → u.tid ≡ invalid_topic_id
    → Subscribed live u (subscribe_wildcard u.text u.type u.handler u.id s)
unfolding subscribe_wildcard
subscribe_wildcard-Subscribed live s u r fresh le wildcard no_topic =
    elim (Bool-cases (hash_inside u.text)) [
      | inl inside ↦ rw (inside, subscribe_wildcard) (unfold Subscribed in r)
      | inr outside ↦
          rw (outside, subscribe_wildcard)
            (unfold Subscribed in
              (
                refl,
                subst
                    (λ (i : SubInfo). Represents (live ++ u ∷ []) (record s {
                      wildcard_slots =
                          put_slot u.id (add_subscriber u.handler u.id (new_slot u.type))
                            s.wildcard_slots;
                      wildcard_trie =
                          Trie.insert u.text (record { type = u.type; slot = u.id; sub_id = u.id })
                            s.wildcard_trie;
                      sub_to_topic = assign ℕ_discrete u.id i s.sub_to_topic;
                    }))
                    same_info
                    (unfold trie' store' in
                      pattern-Represents live s u r fresh le wildcard no_topic),
              ))
    ]
  where
    same_info : info u ≡ record { tid = invalid_topic_id; is_wildcard = true }
    same_info = rw (wildcard, no_topic) refl

-- The subscription that a call is to make.
abbrev pub new_sub : Bytes → ℕ → ℕ → Subscriptions → Sub
new_sub topic type handler s = record {
  id = s.next_id + 1;
  text = topic;
  type = type;
  handler = handler;
  tid = if is_wildcard topic then invalid_topic_id else (resolve topic s.registry).1;
}

-- As long as neither the subscription ids nor the topic ids run out, `subscribe` on a bus that
-- represents a list of live subscriptions leaves one that represents the same list if it threw,
-- and, if it returned an id, that id is the new subscription's and the bus represents the list with
-- it at the end.
pub subscribe-Represents :
    (live : List Sub) (topic : Bytes) (type handler : ℕ) (s : Subscriptions)
    → s.next_id + 1 < subscription_ids
    → HasRoom s.registry
    → Represents live s
    → Subscribed live (new_sub topic type handler s) (subscribe topic type handler s)
unfolding subscribe subscribe_exact resolved
subscribe-Represents live topic type handler s room topics r =
    rw small (elim (Bool-cases (is_wildcard topic)) [
      | inl wildcard ↦ rw wildcard (
          subscribe_wildcard-Subscribed live s' (with_tid invalid_topic_id) there fresh
            (omega arith) wildcard refl)
      | inr exactly ↦ rw exactly (subscribe_exact-Subscribed exactly)
    ])
  where
    with_tid : ℕ → Sub
    with_tid tid = record {
      id = s.next_id + 1;
      text = topic;
      type = type;
      handler = handler;
      tid = tid;
    }

    s' : Subscriptions
    s' = record s { next_id = s.next_id + 1 }

    small : (s.next_id + 1) % subscription_ids ≡ s.next_id + 1
    small = omega arith

    there : Represents live s'
    there = advance-Represents live s (s.next_id + 1) (omega arith) r

    fresh : find_sub (s.next_id + 1) live ≡ none
    fresh = r.given (s.next_id + 1) (omega arith)

    subscribe_exact-Subscribed :
        is_wildcard topic ≡ false
        → Subscribed live
            (with_tid (resolve topic s.registry).1)
            (subscribe_exact topic type handler (s.next_id + 1) s')
    subscribe_exact-Subscribed exactly =
        add_to_slot-Subscribed live (resolved topic s') (with_tid (resolve topic s.registry).1)
          (get_or_create_slot type (resolve topic s.registry).1 s.slots)
          (resolved-Represents live topic s' topics there) fresh (omega arith) exactly now
          (get_or_create_slot-SlotReady topic type (resolve topic s.registry).1 live s.slots (
            subst (λ o. SlotHolds topic live (slot_of o s.slots)) now
              ((resolved-Represents live topic s' topics there).exact topic)))
      where
        now : find_topic topic (resolve topic s.registry).0 ≡ some (resolve topic s.registry).1
        now = find_topic-resolve topic topic s.registry ∙ pick-same Bytes-discrete topic _ _
