-- ===== src/Bus/Adding.antt =====
-- `subscribe` on each of its branches: the live subscriptions afterwards.
use livio_ark.Prelude.{
  ℕ, ◌≤◌, ◌<◌, ◌≡◌, ◌≢◌, refl, sym, ap, ◌∙◌, inl, inr, Bool-cases, Option-cases, Bool, true, false,
  List, [], ◌∷◌, ◌++◌, Option, none, some, Bytes, ◌==◌, eq→str_eq, pick-other, pick-same, indicator,
  tally, tally-append, ℕ_discrete, find, assign, find-assign, arith,
}
use mathlib.Core.Path.{subst}
use livio_ark.Topic.{is_wildcard}
use livio_ark.Registry.{find_topic}
use livio_ark.Slot.{Slot, Subscriber, add_subscriber}
use livio_ark.Trie.Refinement
use livio_ark.Bus.Subscribing.{Subscriptions, Result, ok, threw, add_to_slot}
use livio_ark.Bus.Live.{
  Sub, subscriber, is_exact, find_sub, info, info_of, is_alien, SlotHolds, slot_of, Represents,
  find_sub-count, find_sub-append, exact_subs-append, wild_items-append,
}
use livio_ark.Bus.Slots.{SlotReady}

-- What a call leaves: the subscription is live if the call returned its id, and all is as it was if
-- the call threw.
unfoldable pub Subscribed : List Sub → Sub → Subscriptions × Result ℕ → Type 0
Subscribed live u (s, threw e) = Represents live s
Subscribed live u (s, ok id) = (u.id ≡ id) × Represents (live ++ u ∷ []) s

-- A subscriber of one text is none of another.
pub is_exact-other : (text : Bytes) (u : Sub) → u.text ≢ text → is_exact text u ≡ false
is_exact-other text u n = ground arith

alien-append :
    (text : Bytes) (type : ℕ) (live : List Sub) (u : Sub)
    → tally (λ v. indicator (is_alien text type v)) live ≡ 0
    → is_alien text type u ≡ false
    → tally (λ v. indicator (is_alien text type v)) (live ++ u ∷ []) ≡ 0
alien-append text type live u e own =
    tally-append (λ v. indicator (is_alien text type v)) live (u ∷ []) ∙ ground arith

pub SlotHolds-other :
    (text : Bytes) (live : List Sub) (u : Sub) (o : Option Slot)
    → is_exact text u ≡ false
    → SlotHolds text live o
    → SlotHolds text (live ++ u ∷ []) o
SlotHolds-other text live u none n h = exact_subs-append text live u ∙ rw n h
SlotHolds-other text live u (some slot) n (t, typed, same, one_type) = (
  t,
  typed,
  same ∙ sym (exact_subs-append text live u ∙ rw n),
  alien-append text t live u one_type (rw n),
)

module _ (live : List Sub) (s : Subscriptions) (u : Sub) where
  pub distinct-append :
      Represents live s
      → find_sub u.id live ≡ none
      → (id : ℕ) → tally (λ v. indicator (v.id == id)) (live ++ u ∷ []) ≤ 1
  distinct-append r fresh id =
      subst (λ (n : ℕ). n ≤ 1) (sym (tally-append (λ v. indicator (v.id == id)) live (u ∷ [])))
        (ground (arith, r.distinct id, find_sub-count u.id live fresh))

  pub given-append :
      Represents live s
      → find_sub u.id live ≡ none
      → u.id ≤ s.next_id
      → (id : ℕ) → s.next_id < id
      → find_sub id (live ++ u ∷ []) ≡ none
  given-append r fresh le id lt = find_sub-append id live u fresh ∙ ground (arith, r.given id lt)

  pub infos-append :
      Represents live s
      → find_sub u.id live ≡ none
      → (id : ℕ)
      → find ℕ_discrete id (assign ℕ_discrete u.id (info u) s.sub_to_topic)
        ≡ info_of (find_sub id (live ++ u ∷ []))
  infos-append r fresh id =
      find-assign ℕ_discrete u.id id (info u) s.sub_to_topic
      ∙ rw (find_sub-append id live u fresh) (ground (arith, r.infos id))

pub some-injective : {a b : ℕ} → some a ≡ some b → a ≡ b
some-injective e = cc

-- What a subscription to one text, added to a slot that is ready, leaves.
module _ (live : List Sub) (s : Subscriptions) (u : Sub) (slots : List (ℕ × Slot)) (slot : Slot)
    (r : Represents live s) (fresh : find_sub u.id live ≡ none) (le : u.id ≤ s.next_id)
    (exactly : is_wildcard u.text ≡ false) (known : find_topic u.text s.registry ≡ some u.tid)
    (ready : SlotReady u.text u.type u.tid live s.slots (ok (slots, slot))) where
  topics-append :
      (id : ℕ) (v : Sub)
      → find_sub id (live ++ u ∷ []) ≡ some v
      → is_wildcard v.text ≡ false
      → find_topic v.text s.registry ≡ some v.tid
  topics-append id v e w = elim (Bool-cases (u.id == id)) [
    | inl own ↦
        let same : some u ≡ some v = sym (find_sub-append id live u fresh ∙ rw own) ∙ e in
        let same' : u ≡ v = cc in subst (λ x. find_topic x.text s.registry ≡ some x.tid) same' known
    | inr other ↦ r.topics id v (sym (find_sub-append id live u fresh ∙ rw other) ∙ e) w
  ]

  wild-append :
      (id : ℕ) (v : Sub)
      → find_sub id (live ++ u ∷ []) ≡ some v
      → is_wildcard v.text ≡ true
      → s.wildcard_slots id ≡ record { msg_type = some v.type; subscribers = subscriber v ∷ [] }
  wild-append id v e w = elim (Bool-cases (u.id == id)) [
    | inl own ↦
        let same : some u ≡ some v = sym (find_sub-append id live u fresh ∙ rw own) ∙ e in
        let same' : u ≡ v = cc in absurd (cc)
    | inr other ↦ r.wild id v (sym (find_sub-append id live u fresh ∙ rw other) ∙ e) w
  ]

  slots' : List (ℕ × Slot)
  slots' = assign ℕ_discrete u.tid (add_subscriber u.handler u.id slot) slots

  unslotted-append : (tid : ℕ) → s.registry.next_id ≤ tid → find ℕ_discrete tid slots' ≡ none
  unfolding SlotReady slots'
  unslotted-append tid h =
      let other : u.tid ≢ tid = omega (arith, r.registered.used u.text u.tid known) in
      find-assign ℕ_discrete u.tid tid (add_subscriber u.handler u.id slot) slots
      ∙ pick-other ℕ_discrete _ _ other
      ∙ ready.3 tid other
      ∙ r.unslotted tid h

  -- The slot of the subscription's own topic.
  own-append : SlotHolds u.text (live ++ u ∷ []) (find ℕ_discrete u.tid slots')
  unfolding slots' SlotReady add_subscriber
  own-append =
      rw
        (find-assign ℕ_discrete u.tid u.tid (add_subscriber u.handler u.id slot) slots
          ∙ pick-same ℕ_discrete u.tid _ _)
        (
          u.type,
          ready.0,
          ap (λ (l : List Subscriber). l ++ subscriber u ∷ []) ready.1
              ∙ sym (exact_subs-append u.text live u ∙ rw is_own),
          alien-append u.text u.type live u ready.2 (ground arith),
        )
    where
      is_own : is_exact u.text u ≡ true
      is_own = rw exactly (eq→str_eq u.text u.text refl)

  exact-append :
      (text : Bytes) → SlotHolds text (live ++ u ∷ []) (slot_of (find_topic text s.registry) slots')
  unfolding slots' SlotReady
  exact-append text = elim (Option-cases (find_topic text s.registry)) [
    | inl unknown ↦
        let other : u.text ≢ text = cc in
        rw unknown (
          SlotHolds-other text live u none (is_exact-other text u other)
            (subst (λ o. SlotHolds text live (slot_of o s.slots)) unknown (r.exact text)))
    | inr (tid, there) ↦ elim (ℕ_discrete u.tid tid) [
      | yes same ↦
          let back1 = r.registered.back text tid there in
          let back2 = r.registered.back u.text u.tid known in
          let own : u.text ≡ text =
            (let both : some u.text ≡ some text = sym back2 ∙ rw same back1 in cc) in
          rw there (rw⁻¹ own (rw⁻¹ same own-append))
      | no other ↦
          let apart : u.text ≢ text =
            λ p. other (some-injective (sym known ∙ ap (λ t. find_topic t s.registry) p ∙ there)) in
          rw
            (
              there,
              find-assign ℕ_discrete u.tid tid (add_subscriber u.handler u.id slot) slots
                  ∙ pick-other ℕ_discrete _ _ other
                  ∙ ready.3 tid other,
            )
            (SlotHolds-other text live u (find ℕ_discrete tid s.slots) (is_exact-other text u apart)
              (subst (λ o. SlotHolds text live (slot_of o s.slots)) there (r.exact text)))
    ]
  ]

  slot-Represents :
      Represents
        (live ++ u ∷ [])
        (record s { slots = slots'; sub_to_topic = assign ℕ_discrete u.id (info u) s.sub_to_topic })
  slot-Represents = record {
    registered = r.registered;
    trie =
        subst (λ l. Refinement.Holds l s.wildcard_trie)
          (sym (wild_items-append live u ∙ rw exactly)) r.trie;
    distinct = distinct-append live s u r fresh;
    given = given-append live s u r fresh le;
    infos = infos-append live s u r fresh;
    topics = topics-append;
    unslotted = unslotted-append;
    exact = exact-append;
    wild = wild-append;
  }

pub add_to_slot-Subscribed :
    (live : List Sub) (s : Subscriptions) (u : Sub) (q : Result (List (ℕ × Slot) × Slot))
    → Represents live s
    → find_sub u.id live ≡ none
    → u.id ≤ s.next_id
    → is_wildcard u.text ≡ false
    → find_topic u.text s.registry ≡ some u.tid
    → SlotReady u.text u.type u.tid live s.slots q
    → Subscribed live u (add_to_slot u.tid u.handler u.id q s)
unfolding add_to_slot Subscribed
add_to_slot-Subscribed live s u (threw e) r fresh le exactly known ready = r
add_to_slot-Subscribed live s u (ok (slots, slot)) r fresh le exactly known ready = (
  refl,
  subst
      (λ (w : Bool). Represents (live ++ u ∷ []) (record s {
        slots = assign ℕ_discrete u.tid (add_subscriber u.handler u.id slot) slots;
        sub_to_topic =
            assign ℕ_discrete u.id (record { tid = u.tid; is_wildcard = w }) s.sub_to_topic;
      }))
      exactly (unfold slots' in slot-Represents live s u slots slot r fresh le exactly known ready),
)
