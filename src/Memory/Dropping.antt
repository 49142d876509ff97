-- ===== src/Memory/Dropping.antt =====
-- A reference that goes: the last one deletes its object or puts it into its pool.
use livio_ark.Prelude.{
  ℕ, ◌+◌, ◌-◌, ◌^◌, ◌≤◌, ◌<◌, ◌≡◌, refl, sym, ap, ◌∙◌, inl, inr, Option-cases, Bool-cases, false,
  none, some, ◌==◌, if◌then◌else◌, update, List, [], ◌∷◌, ◌++◌, tally-append, indicator, if-related,
  arith,
}
use livio_ark.Queue.{Queue}
use livio_ark.Queue.Fifo.{Holds, NoWrap, try_enqueue-Holds, try_enqueue-stored}
use livio_ark.Memory.Objects.{
  Heap, default_pool_capacity, release_ref, delete, release, recycle, drop_ref,
}
use mathlib.Core.Path.{subst}
use livio_ark.Memory.Counted.{times, IsCounted, lower, later}

module _ {n : ℕ} {items : ℕ → List ℕ} {own : ℕ → ℕ} {h : Heap} (v : IsCounted n items own h)
    (p : ℕ) where
  -- The heap after `release_ref`, and with the object deleted or pooled.
  abbrev lowered : Heap
  lowered = record h {
    objects = update p (record (h.objects p) { ref_count = own p - 1 }) h.objects;
  }

  abbrev deleted : (ℕ → Queue ℕ) → Heap
  deleted pools = record lowered { allocated = update p false h.allocated; pools = pools }

  abbrev recycled : ℕ → Queue ℕ → Heap
  recycled t q = record lowered { pools = update t q h.pools }

  lowered-IsCounted : 1 < own p → IsCounted n items (lower p own) lowered
  lowered-IsCounted others = record {
    counted = λ q a. ground (arith, v.counted q);
    owned = λ q a. ground (arith, v.owned q);
    kept = λ q a b. ground (arith, v.kept q);
    pooled = v.pooled;
    unowned = λ t q a. ground (arith, v.unowned t q);
    typed = λ t q a. ground (arith, v.typed t q);
    once = v.once;
    recyclers = λ q t a b. ground (arith, v.recyclers q t);
    made = v.made;
    queues = v.queues;
    sized = v.sized;
    few = v.few;
  }

  deleted-IsCounted :
      (pools : ℕ → Queue ℕ)
      → ((t : ℕ) → pools t ≡ h.pools t)
      → own p ≡ 1
      → IsCounted n items (lower p own) (deleted pools)
  deleted-IsCounted pools same last = record {
    counted = λ q a. ground (arith, v.counted q);
    owned = λ q a. ground (arith, v.owned q);
    kept = λ q a b. ground (arith, v.kept q);
    pooled = λ t q a. ground (arith, v.pooled t q, v.unowned t q);
    unowned = λ t q a. ground (arith, v.unowned t q);
    typed = λ t q a. ground (arith, v.typed t q);
    once = v.once;
    recyclers = λ q t a b. ground (arith, v.recyclers q t);
    made = λ q a. ground (arith, v.made q);
    queues = λ t. subst (Holds (items t)) (sym (same t)) (v.queues t);
    sized = λ t. ap (λ (q : Queue ℕ). q.capacity) (same t) ∙ v.sized t;
    few = λ t. let e = ap (λ (q : Queue ℕ). q.enqueue_pos) (same t) in omega (arith, v.few t);
  }

  absent : (t : ℕ) → 0 < own p → times p (items t) ≡ 0
  absent t some_owner = ground (arith, v.unowned t p)

  times-last : (q : ℕ) (xs : List ℕ) → times q (xs ++ p ∷ []) ≡ times q xs + indicator (q == p)
  times-last q xs = omega (arith, tally-append (λ x. indicator (q == x)) xs (p ∷ []))

  recycled-IsCounted :
      (t : ℕ) (q : Queue ℕ)
      → own p ≡ 1
      → (h.objects p).type ≡ t
      → Holds (items t ++ p ∷ []) q
      → q.capacity ≡ default_pool_capacity
      → q.enqueue_pos ≤ n + 1
      → IsCounted (n + 1) (update t (items t ++ p ∷ []) items) (lower p own) (recycled t q)
  recycled-IsCounted t q last own_type holds size bound = record {
    counted = λ k a. ground (arith, v.counted k);
    owned = λ k a. ground (arith, v.owned k);
    kept = λ k a b. ground (arith, v.kept k, times-last k (items t));
    pooled = λ s k a. ground (arith, v.pooled s k, v.owned k, times-last k (items t));
    unowned = λ s k a. ground (arith, v.unowned s k, times-last k (items t));
    typed = λ s k a. ground (arith, v.typed s k, times-last k (items t));
    once = λ s k. ground (arith, v.once s k, times-last k (items t), absent t);
    recyclers = λ k s a b. ground (arith, v.recyclers k s);
    made = v.made;
    queues = λ s. if-related Holds (t == s) holds (v.queues s);
    sized = λ s. ground (arith, v.sized s);
    few = λ s. ground (arith, v.few s);
  }

  drop_ref-released :
      0 < own p
      → own p < 2 ^ 31
      → drop_ref p h ≡ (
          if own p == 1
          then elim (h.objects p).recycler [
            | none ↦ delete p lowered
            | some t ↦ recycle t p lowered
          ]
          else some lowered)
  unfolding drop_ref release_ref
  drop_ref-released some_owner bound =
      ground (arith, v.counted p (v.owned p some_owner), v.owned p some_owner)

  recycle-IsCounted :
      (t : ℕ)
      → own p ≡ 1
      → (h.objects p).type ≡ t
      → n + default_pool_capacity < 2 ^ 63
      → (h' : Heap) × (items' : ℕ → List ℕ) × (recycle t p lowered ≡ some h')
        × IsCounted (n + 1) items' (lower p own) h'
  unfolding recycle release
  recycle-IsCounted t last own_type bound =
      let fits : NoWrap (h.pools t) = omega (arith, v.few t, v.sized t) in
      elim (try_enqueue-Holds (items t) (h.pools t) p (v.queues t) fits) [
        | inl (room, stored) ↦
            let (q, e, holds, size, pos) =
              try_enqueue-stored (items t) (h.pools t) p (v.queues t) fits room in
            (
              recycled t q,
              update t (items t ++ p ∷ []) items,
              ground (arith, e),
              recycled-IsCounted t q last own_type holds (size ∙ v.sized t)
                  (omega (arith, v.few t)),
            )
        | inr (full, e) ↦ (
          deleted (update t (h.pools t) h.pools),
          items,
          ground (arith, e, v.owned p),
          later (deleted-IsCounted (update t (h.pools t) h.pools) (λ s. ground arith) last),
        )
      ]

  pub drop_ref-IsCounted :
      0 < own p
      → own p < 2 ^ 31
      → n + default_pool_capacity < 2 ^ 63
      → (h' : Heap) × (items' : ℕ → List ℕ) × (drop_ref p h ≡ some h')
        × IsCounted (n + 1) items' (lower p own) h'
  drop_ref-IsCounted some_owner bound fits =
      let there = v.owned p some_owner in
      let e = drop_ref-released some_owner bound in
      elim (Bool-cases (own p == 1)) [
        | inr several ↦
            (lowered, items, e ∙ rw several refl, later (lowered-IsCounted (ground arith)))
        | inl last ↦
            let one : own p ≡ 1 = ground arith in
            elim (Option-cases (h.objects p).recycler) [
              | inl none_set ↦ (
                deleted h.pools,
                items,
                e ∙ rw (last, none_set) ground (arith, there),
                later (deleted-IsCounted h.pools (λ t. refl) one),
              )
              | inr (t, set) ↦
                  let (h', items', e', w) =
                    recycle-IsCounted t one (v.recyclers p t there set) fits in
                  (h', items', e ∙ rw (last, set) e', w)
            ]
      ]
