-- ===== src/Bus/Slots.antt =====
-- What the registry and the slots are after `resolve` and `getOrCreateSlot`, for the subscriptions that are live.
use livio_ark.Prelude.{
  ℕ, ◌≤◌, ◌≡◌, ◌≢◌, refl, sym, ap, ◌∙◌, inl, inr, Bool-cases, Option-cases, Bool, true, false, not,
  ◌&&◌, List, Option, none, some, Bytes, Bytes-discrete, ◌==◌, if◌then◌else◌, indicator, tally,
  ℕ_discrete, find, assign, find-assign, pick, arith,
}
use mathlib.Core.Path.{subst}
use livio_ark.Registry.{find_topic, resolve}
use livio_ark.Registry.Laws.{HasRoom, find_topic-resolve, resolve-IsValid, resolve-next_id}
use livio_ark.Slot.{Slot, new_slot}
use livio_ark.Bus.Subscribing.{
  Subscriptions, Result, ok, threw, type_mismatch, mismatches, checked_slot, create_slot,
  get_or_create_slot,
}
use livio_ark.Bus.Live.{
  Sub, is_exact, exact_subs, is_alien, SlotHolds, slot_of, Represents, exact_subs-alien,
}

-- The new id is used up whatever comes of the call.
pub advance-Represents :
    (live : List Sub) (s : Subscriptions) (id : ℕ)
    → s.next_id ≤ id
    → Represents live s
    → Represents live (record s { next_id = id })
advance-Represents live s id le r = record {
  registered = r.registered;
  trie = r.trie;
  distinct = r.distinct;
  given = λ k lt. r.given k (omega arith);
  infos = r.infos;
  topics = r.topics;
  unslotted = r.unslotted;
  exact = r.exact;
  wild = r.wild;
}

unfoldable pub resolved : Bytes → Subscriptions → Subscriptions
resolved topic s = record s { registry = (resolve topic s.registry).0 }

-- A topic that is registered now and was not has no slot, and nobody subscribed to it.
slot_of-resolve :
    (live : List Sub) (topic text : Bytes) (s : Subscriptions)
    → HasRoom s.registry
    → Represents live s
    → SlotHolds text live (slot_of (find_topic text (resolve topic s.registry).0) s.slots)
slot_of-resolve live topic text s room r =
    rw (find_topic-resolve topic text s.registry)
      (elim (Bytes-discrete topic text)
        as (λ d. SlotHolds text live (
          slot_of
            (elim d [
              | yes p ↦ some (resolve topic s.registry).1
              | no n ↦ find_topic text s.registry
            ])
            s.slots)) [
              | no n ↦ r.exact text
              | yes p ↦
                  subst
                    (λ t. SlotHolds t live (find ℕ_discrete (resolve topic s.registry).1 s.slots)) p
                    (elim (Option-cases (find_topic topic s.registry)) [
                      | inl new ↦
                          let same : find ℕ_discrete (resolve topic s.registry).1 s.slots ≡ none =
                            rw ((resolve-next_id topic s.registry room).1 new)
                              (r.unslotted s.registry.next_id (omega arith)) in
                          rw same (
                            subst (λ o. SlotHolds topic live (slot_of o s.slots)) new
                              (r.exact topic))
                      | inr (id, old) ↦ rw ((resolve-next_id topic s.registry room).2 id old) (
                          subst (λ o. SlotHolds topic live (slot_of o s.slots)) old (r.exact topic))
                    ])
            ])

pub resolved-Represents :
    (live : List Sub) (topic : Bytes) (s : Subscriptions)
    → HasRoom s.registry
    → Represents live s
    → Represents live (resolved topic s)
unfolding resolved
resolved-Represents live topic s room r = record {
  registered = resolve-IsValid topic s.registry room r.registered;
  trie = r.trie;
  distinct = r.distinct;
  given = r.given;
  infos = r.infos;
  topics = λ id u e w.
      find_topic-resolve topic u.text s.registry ∙ pick-kept topic u.text (r.topics id u e w);
  unslotted = λ tid le. r.unslotted tid (omega (arith, (resolve-next_id topic s.registry room).0));
  exact = λ text. slot_of-resolve live topic text s room r;
  wild = r.wild;
}
  where
    pick-kept :
        (t o : Bytes) {i : ℕ}
        → find_topic o s.registry ≡ some i
        → pick Bytes-discrete t o (some (resolve t s.registry).1) (find_topic o s.registry) ≡ some i
    pick-kept t o {i} e =
        elim (Bytes-discrete t o)
          as (λ d.
            elim d [ yes p ↦ some (resolve t s.registry).1 | no n ↦ find_topic o s.registry ]
            ≡ some i) [
              | yes p ↦ ap some ((resolve-next_id t s.registry room).2 i (rw p e))
              | no n ↦ e
            ]

-- The slot that a subscriber is added to holds the topic's subscribers, all of the new one's type.
unfoldable pub SlotReady :
    Bytes → ℕ → ℕ → List Sub → List (ℕ × Slot) → Result (List (ℕ × Slot) × Slot) → Type 0
SlotReady text type tid live slots (threw e) = Unit
SlotReady text type tid live slots (ok (slots', slot)) =
    (slot.msg_type ≡ some type)
    × (slot.subscribers ≡ exact_subs text live)
    × (tally (λ u. indicator (is_alien text type u)) live ≡ 0)
    × ((j : ℕ) → tid ≢ j → find ℕ_discrete j slots' ≡ find ℕ_discrete j slots)

get_or_create_slot-missing :
    (type tid : ℕ) (slots : List (ℕ × Slot))
    → find ℕ_discrete tid slots ≡ none
    → get_or_create_slot type tid slots
      ≡ ok (assign ℕ_discrete tid (new_slot type) slots, new_slot type)
unfolding get_or_create_slot create_slot
get_or_create_slot-missing type tid slots e = ground arith

pub get_or_create_slot-there :
    (type tid : ℕ) (slots : List (ℕ × Slot)) (slot : Slot)
    → find ℕ_discrete tid slots ≡ some slot
    → get_or_create_slot type tid slots
      ≡ (if mismatches slot type then threw type_mismatch else ok (slots, slot))
unfolding get_or_create_slot create_slot checked_slot
get_or_create_slot-there type tid slots slot e = ground arith

some_type : (t type : ℕ) → not (t == type) ≡ false → some t ≡ some type
some_type t type e = ground arith

reused-SlotReady :
    (text : Bytes) (type tid : ℕ) (live : List Sub) (slots : List (ℕ × Slot)) (slot : Slot)
    → SlotHolds text live (some slot)
    → SlotReady text type tid live slots
        (if mismatches slot type then threw type_mismatch else ok (slots, slot))
unfolding SlotReady
reused-SlotReady text type tid live slots slot (t, typed, same, one_type) =
    rw typed (elim (Bool-cases (not (t == type))) [
      | inl alien ↦ rw alien tt
      | inr own ↦ rw own (
        some_type t type own,
        same,
        subst
            (λ (o : Option ℕ).
              tally (λ u. indicator (is_exact text u && not (mismatch u o))) live ≡ 0)
            (some_type t type own) one_type,
        λ j n. refl,
      )
    ])
  where
    mismatch : Sub → Option ℕ → Bool
    mismatch u none = true
    mismatch u (some x) = u.type == x

pub get_or_create_slot-SlotReady :
    (text : Bytes) (type tid : ℕ) (live : List Sub) (slots : List (ℕ × Slot))
    → SlotHolds text live (find ℕ_discrete tid slots)
    → SlotReady text type tid live slots (get_or_create_slot type tid slots)
get_or_create_slot-SlotReady text type tid live slots h =
    elim (Option-cases (find ℕ_discrete tid slots)) [
      | inl missing ↦ rw (get_or_create_slot-missing type tid slots missing) (
          unfold SlotReady in
          (
            refl,
            sym (subst (SlotHolds text live) missing h),
            exact_subs-alien text type live (subst (SlotHolds text live) missing h),
            λ j n. find-assign ℕ_discrete tid j (new_slot type) slots ∙ ground arith,
          ))
      | inr (slot, there) ↦
          rw (get_or_create_slot-there type tid slots slot there)
            (reused-SlotReady text type tid live slots slot (subst (SlotHolds text live) there h))
    ]
