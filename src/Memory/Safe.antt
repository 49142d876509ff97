-- ===== src/Memory/Safe.antt =====
-- Every operation of `MessagePtr` succeeds and keeps the counts.
use livio_ark.Prelude.{
  ℕ, ◌+◌, ◌%◌, ◌^◌, ◌≤◌, ◌<◌, ◌≡◌, refl, sym, ap, ◌∙◌, inl, inr, Option-cases, Bytes, Option, none,
  some, List, [], ◌∷◌, ◌++◌, length, length-append, arith,
}
use livio_ark.Memory.Objects.{Heap, typed_message, allocate, counts}
use livio_ark.Memory.Pointers.{
  Memory, ptr_at, set_ptr, reset, add_ref_to, copy, point_to, move, make_ptr, adopt_new,
}
use livio_ark.Memory.Owners.{
  points, owners, owners-append, owners-set_ptr, owners-le, owners-there, length-set_ptr,
  set_ptr-same,
}
use livio_ark.Memory.Counted.{
  IsCounted, later, recounted, reheaped, put, add_ref-IsCounted, added-IsCounted,
}
use livio_ark.Memory.Dropping.{drop_ref-IsCounted}
use livio_ark.Memory.Making.{make_message-IsMade}

-- The counts are the numbers of variables that point to the objects; `n` bounds the variables and the
-- positions of the pools.
pub record IsValid (n : ℕ) (m : Memory) : Type 0 where
  pub few_ptrs : length m.ptrs ≤ n
  pub items : ℕ → List ℕ
  pub counted : IsCounted n items (owners m.ptrs) m.heap

abbrev pub Succeeds : ℕ → Option Memory → Type 0
Succeeds n r = (m' : Memory) × (r ≡ some m') × IsValid n m'

pub IsValid-later : {n : ℕ} {m : Memory} → IsValid n m → IsValid (n + 1) m
IsValid-later v = record {
  few_ptrs = omega (arith, v.few_ptrs);
  items = v.items;
  counted = later v.counted;
}

-- With the pointers of the variables afterwards.
abbrev pub Gives : ℕ → List (Option ℕ) → Option Memory → Type 0
Gives n ptrs r = (m' : Memory) × (r ≡ some m') × (m'.ptrs ≡ ptrs) × IsValid n m'

module _ {n : ℕ} {m : Memory} (v : IsValid n m) (few : n < 2 ^ 31) where
  -- `reset` clears its variable, and leaves the others.
  pub record Clears (i : ℕ) : Type 0 where
    pub after : Heap
    pub items_after : ℕ → List ℕ
    pub result : reset i m ≡ some (record { heap = after; ptrs = set_ptr i none m.ptrs })
    pub counted_after : IsCounted (n + 1) items_after (owners (set_ptr i none m.ptrs)) after

  pub reset-Clears : (i : ℕ) → i < length m.ptrs → Clears i
  unfolding reset
  reset-Clears i b = elim (Option-cases (ptr_at i m.ptrs)) [
    | inl null ↦
        let same : set_ptr i none m.ptrs ≡ m.ptrs =
          ap (λ o. set_ptr i o m.ptrs) (sym null) ∙ set_ptr-same i m.ptrs in
        record {
          after = m.heap;
          items_after = v.items;
          result = rw (reset, null, same) refl;
          counted_after = rw same (later v.counted);
        }
    | inr (p, there) ↦
        let (h', items', e, w) =
          drop_ref-IsCounted v.counted p (owners-there i m.ptrs p there)
            (omega (arith, owners-le m.ptrs p, v.few_ptrs)) (omega arith) in
        record {
          after = h';
          items_after = items';
          result = rw (reset, there, e) refl;
          counted_after = recounted w (owners (set_ptr i none m.ptrs)) (λ q.
              let gone = owners-set_ptr i none m.ptrs q b in
              let at_p = ap (points q) there in omega (arith, gone, at_p));
        }
  ]

  pub Clears-IsValid :
      (i : ℕ) (q : Clears i)
      → IsValid (n + 1) (record { heap = q.after; ptrs = set_ptr i none m.ptrs })
  Clears-IsValid i q = record {
    few_ptrs = omega (arith, length-set_ptr i none m.ptrs, v.few_ptrs);
    items = q.items_after;
    counted = q.counted_after;
  }

  pub reset-IsValid : (i : ℕ) → i < length m.ptrs → Succeeds (n + 1) (reset i m)
  reset-IsValid i b =
      let q = reset-Clears i b in
      (record { heap = q.after; ptrs = set_ptr i none m.ptrs }, q.result, Clears-IsValid i q)

-- An owner more for what a variable points to.
add_ref_to-IsCounted :
    {n : ℕ} {items : ℕ → List ℕ} {own : ℕ → ℕ} {h : Heap}
    → IsCounted n items own h
    → (o : Option ℕ) → ((p : ℕ) → o ≡ some p → (0 < own p) × (own p < 2 ^ 31))
    → (h' : Heap) × (add_ref_to o h ≡ some h') × IsCounted n items (λ q. own q + points q o) h'
add_ref_to-IsCounted {h = h} w none known = (h, refl, recounted w _ (λ p. omega arith))
add_ref_to-IsCounted w (some p) known = add_ref-IsCounted w p (known p refl).0 (known p refl).1

-- A new variable that points to what a variable points to.
appended-IsValid :
    {n : ℕ} {m : Memory} {items : ℕ → List ℕ} {h' : Heap} (v : IsValid n m) (o : Option ℕ)
    → IsCounted n items (λ q. owners m.ptrs q + points q o) h'
    → IsValid (n + 1) (record { heap = h'; ptrs = m.ptrs ++ o ∷ [] })
appended-IsValid {m = m} v o w = record {
  few_ptrs = omega (arith, length-append m.ptrs (o ∷ []), v.few_ptrs);
  items = _;
  counted = later (recounted w (owners (m.ptrs ++ o ∷ [])) (λ q. owners-append m.ptrs o q));
}

module _ {n : ℕ} {m : Memory} (v : IsValid n m) (few : n < 2 ^ 31) where
  -- What a variable points to has an owner, and not too many.
  pointed :
      (i p : ℕ) → ptr_at i m.ptrs ≡ some p → (0 < owners m.ptrs p) × (owners m.ptrs p < 2 ^ 31)
  pointed i p e = (owners-there i m.ptrs p e, omega (arith, owners-le m.ptrs p, v.few_ptrs))

  pub copy-IsValid : (o : ℕ) → Succeeds (n + 1) (copy o m)
  copy-IsValid o =
      let (h', e, w) = add_ref_to-IsCounted v.counted (ptr_at o m.ptrs) (pointed o) in
      (
        record { heap = h'; ptrs = m.ptrs ++ ptr_at o m.ptrs ∷ [] },
        rw (copy, e) refl,
        appended-IsValid v (ptr_at o m.ptrs) w,
      )

  pub move-IsValid : (o : ℕ) → o < length m.ptrs → IsValid (n + 1) (move o m)
  move-IsValid o b =
      let left = set_ptr o none m.ptrs in
      record {
        few_ptrs = omega (
          arith,
          length-append left (ptr_at o m.ptrs ∷ []),
          length-set_ptr o none m.ptrs,
          v.few_ptrs,
        );
        items = v.items;
        counted = later (
            recounted v.counted (owners (left ++ ptr_at o m.ptrs ∷ [])) (λ q.
              omega
                (arith, owners-append left (ptr_at o m.ptrs) q, owners-set_ptr o none m.ptrs q b)));
      }

  pub make_ptr-IsValid :
      (type topic_id : ℕ) (topic_sv : Bytes) (data_ : ℕ) (on_drop : Option ℕ)
      → Succeeds (n + 1) (make_ptr type topic_id topic_sv data_ on_drop m)
  unfolding make_ptr
  make_ptr-IsValid type topic_id topic_sv data_ on_drop =
      let q = make_message-IsMade v.counted type topic_id topic_sv data_ on_drop (omega arith) in
      (
        record { heap = q.after; ptrs = m.ptrs ++ some q.made_at ∷ [] },
        rw (make_ptr, q.given) refl,
        appended-IsValid v (some q.made_at) q.counted_after,
      )

  pub adopt_new-IsValid :
      (type topic_id data_ : ℕ) → Succeeds (n + 1) (adopt_new type topic_id data_ m)
  adopt_new-IsValid type topic_id data_ =
      let first = typed_message type topic_id data_ in
      let h' =
        put m.heap.made (λ o. record o { ref_count = (o.ref_count + 1) % counts })
          (allocate first m.heap).0 in
      (
        record { heap = h'; ptrs = m.ptrs ++ some m.heap.made ∷ [] },
        ground arith,
        appended-IsValid v (some m.heap.made) (
            reheaped (added-IsCounted v.counted (record first { ref_count = 1 }) refl (λ t e. cc))
              h' (λ q. ground arith) (λ q. refl) refl (λ t. refl)),
      )

  pub point_to-IsValid :
      (i : ℕ) (o : Option ℕ)
      → i < length m.ptrs
      → ptr_at i m.ptrs ≡ none
      → ((p : ℕ) → o ≡ some p → 0 < owners m.ptrs p)
      → Gives n (set_ptr i o m.ptrs) (point_to i o m)
  point_to-IsValid i o b null known =
      let (h', e, w) =
        add_ref_to-IsCounted v.counted o
          (λ p eq. (known p eq, omega (arith, owners-le m.ptrs p, v.few_ptrs))) in
      (
        record { heap = h'; ptrs = set_ptr i o m.ptrs },
        rw (point_to, e) refl,
        refl,
        record {
          few_ptrs = omega (arith, length-set_ptr i o m.ptrs, v.few_ptrs);
          items = v.items;
          counted = recounted w (owners (set_ptr i o m.ptrs)) (λ q.
              let nothing = ap (points q) null in
              omega (arith, owners-set_ptr i o m.ptrs q b, nothing));
        },
      )
