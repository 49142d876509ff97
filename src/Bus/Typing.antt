-- ===== src/Bus/Typing.antt =====
-- A bus with no subscription, and the type that a live subscription gives its topic.
use livio_ark.Prelude.{
  ℕ, ◌+◌, ◌%◌, ◌<◌, ◌≡◌, ◌≢◌, refl, sym, ap, ◌∙◌, inl, inr, Option-cases, Bool-cases, true, false,
  not, List, [], ◌∷◌, some, ◌==◌, eq→str_eq, if◌then◌else◌, indicator, tally, ℕ_discrete, find,
  arith,
}
use mathlib.Core.Path.{subst}
use livio_ark.Topic.{is_wildcard}
use livio_ark.Registry.{empty_registry, resolve}
use livio_ark.Registry.Laws.{HasRoom, empty-IsValid, resolve-next_id}
use livio_ark.Slot.{Slot, new_slot}
use livio_ark.Trie
use livio_ark.Trie.Refinement
use livio_ark.Bus.Subscribing.{
  Subscriptions, subscription_ids, ok, threw, type_mismatch, mismatches, add_to_slot,
  subscribe_exact, subscribe,
}
use livio_ark.Bus.Live.{
  Sub, is_exact, exact_subs, find_sub, is_alien, SlotHolds, slot_of, Represents,
}
use livio_ark.Bus.Slots.{get_or_create_slot-there}

-- `MessageBus` as constructed, with what its slots would be before they are made.
abbrev pub new_subscriptions : Subscriptions
new_subscriptions = record {
  registry = empty_registry;
  slots = [];
  wildcard_slots = λ id. new_slot 0;
  wildcard_trie = Trie.empty_snapshot;
  sub_to_topic = [];
  next_id = 0;
}

pub new-Represents : Represents [] new_subscriptions
new-Represents = record {
  registered = empty-IsValid;
  trie = Refinement.empty-Holds;
  distinct = λ id. omega arith;
  given = λ id lt. unfold find_sub in refl;
  infos = λ id. unfold find_sub in refl;
  topics = λ id u e w. absurd (unfold find_sub in cc);
  unslotted = λ tid le. refl;
  exact = λ text. refl;
  wild = λ id u e w. absurd (unfold find_sub in cc);
}

exact_subs-there :
    (id : ℕ) (live : List Sub) (u : Sub)
    → find_sub id live ≡ some u
    → is_exact u.text u ≡ true
    → exact_subs u.text live ≢ []
unfolding find_sub
exact_subs-there id [] u e h p = cc
exact_subs-there id (v ∷ live) u e h p = ground (arith, exact_subs-there id live u)

alien-there :
    (id type : ℕ) (live : List Sub) (u : Sub)
    → find_sub id live ≡ some u
    → is_exact u.text u ≡ true
    → tally (λ v. indicator (is_alien u.text type v)) live ≡ 0
    → u.type ≡ type
unfolding find_sub
alien-there id type [] u e h z = absurd cc
alien-there id type (v ∷ live) u e h z = ground (arith, alien-there id type live u)

-- The slot that a live subscription to one text keeps: it has the subscription's type.
live-slot :
    (live : List Sub) (s : Subscriptions) (id : ℕ) (u : Sub)
    → Represents live s
    → find_sub id live ≡ some u
    → is_wildcard u.text ≡ false
    → (slot : Slot) × (find ℕ_discrete u.tid s.slots ≡ some slot) × (slot.msg_type ≡ some u.type)
live-slot live s id u r here exactly = elim (Option-cases (find ℕ_discrete u.tid s.slots)) [
  | inl missing ↦
      absurd (exact_subs-there id live u here own (subst (SlotHolds u.text live) missing held))
  | inr (slot, there) ↦
      let (t, typed, same, one_type) = subst (SlotHolds u.text live) there held in
      (slot, there, typed ∙ ap some (sym (alien-there id t live u here own one_type)))
]
  where
    own : is_exact u.text u ≡ true
    own = rw exactly (eq→str_eq u.text u.text refl)

    held : SlotHolds u.text live (find ℕ_discrete u.tid s.slots)
    held =
        subst (λ o. SlotHolds u.text live (slot_of o s.slots)) (r.topics id u here exactly)
          (r.exact u.text)

mismatches-typed :
    (slot : Slot) (t type : ℕ) → slot.msg_type ≡ some t → mismatches slot type ≡ not (t == type)
mismatches-typed slot t type e = rw e

-- While a subscription to a text with no wildcard is live on a bus that represents the live
-- subscriptions, and neither kind of id runs out, `subscribe` to that text returns the next id for
-- a handler of the same type, and throws for any other type.
pub subscribe-type :
    (live : List Sub) (s : Subscriptions) (id type handler : ℕ) (u : Sub)
    → s.next_id + 1 < subscription_ids
    → HasRoom s.registry
    → Represents live s
    → find_sub id live ≡ some u
    → is_wildcard u.text ≡ false
    → (subscribe u.text type handler s).1
      ≡ (if u.type == type then ok (s.next_id + 1) else threw type_mismatch)
unfolding subscribe subscribe_exact add_to_slot
subscribe-type live s id type handler u room topics r here exactly =
    let (slot, there, typed) = live-slot live s id u r here exactly in
    let small : (s.next_id + 1) % subscription_ids ≡ s.next_id + 1 = omega arith in
    let tid : (resolve u.text s.registry).1 ≡ u.tid =
      (resolve-next_id u.text s.registry topics).2 u.tid (r.topics id u here exactly) in
    rw
      (
        small,
        exactly,
        tid,
        get_or_create_slot-there type u.tid s.slots slot there,
        mismatches-typed slot u.type type typed,
      )
      (unfold add_to_slot in
        elim (Bool-cases (u.type == type)) [ inl same ↦ rw same | inr other ↦ rw other ])
