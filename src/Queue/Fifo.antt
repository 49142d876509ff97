-- ===== src/Queue/Fifo.antt =====
-- One thread at a time, the ring of cells is a bounded first-in first-out queue.
use native.Mathlib.Nat.{add-zero, add-mod_right}
use native.Mathlib.Decide.{dec_lt}
use Prim.Native.Nat.{bit_and}
use livio_ark.Prelude.{
  ℕ, suc, ◌+◌, ◌-◌, ◌%◌, ◌^◌, ◌≤◌, ◌<◌, ◌≡◌, refl, sym, ◌∙◌, ap, ◌⊎◌, inl, inr, Option-cases, Bool,
  true, false, List, [], ◌∷◌, ◌++◌, Option, none, some, length, length-append, get_elem?,
  get_elem?-append_last, get_elem?-lt, get_elem?-zero, arith,
}
use livio_ark.Queue.{Cell, Queue, set_cell, try_enqueue, try_dequeue}
use livio_ark.Queue.Index.{bit_and_mask, mod-injective}

-- The cells from `dequeue_pos` on hold the items and carry the next position; the others carry the
-- position for which they are free.
pub record Holds {A : Type 0} (xs : List A) (q : Queue A) : Type 0 where
  pub exponent : ℕ
  pub sized : q.capacity ≡ 2 ^ exponent
  pub two : 2 ≤ q.capacity
  pub masked : q.mask ≡ q.capacity - 1
  pub tail : q.enqueue_pos ≡ q.dequeue_pos + length xs
  pub fits : length xs ≤ q.capacity
  pub filled :
      (i : ℕ) (x : A)
      → get_elem? xs i ≡ some x
      → q.buffer ((q.dequeue_pos + i) % q.capacity)
        ≡ record { sequence = q.dequeue_pos + i + 1; value = some x }
  pub free :
      (i : ℕ)
      → length xs ≤ i
      → i < q.capacity
      → (q.buffer ((q.dequeue_pos + i) % q.capacity)).sequence ≡ q.dequeue_pos + i

-- Positions stay where `intptr_t` has them in order.
abbrev pub NoWrap : {A : Type 0} → Queue A → Type 0
NoWrap q = q.enqueue_pos + q.capacity < 2 ^ 63

module _ {A : Type 0} (xs : List A) (q : Queue A) (h : Holds xs q) where
  index : (pos : ℕ) → bit_and pos q.mask ≡ pos % q.capacity
  index pos =
      ap (bit_and pos) (h.masked ∙ ap (λ (c : ℕ). c - 1) h.sized)
      ∙ bit_and_mask h.exponent pos
      ∙ ap (λ (c : ℕ). pos % c) (sym h.sized)

  abbrev put : A → Queue A
  put x = record q {
    enqueue_pos = q.enqueue_pos + 1;
    buffer =
        set_cell (q.enqueue_pos % q.capacity)
          (record { sequence = q.enqueue_pos + 1; value = some x }) q.buffer;
  }

  end_free :
      length xs < q.capacity → (q.buffer (q.enqueue_pos % q.capacity)).sequence ≡ q.enqueue_pos
  end_free room = rw h.tail (h.free (length xs) (omega arith) room)

  try_enqueue-room :
      (x : A) → NoWrap q → length xs < q.capacity → try_enqueue x q ≡ some (put x, true)
  unfolding try_enqueue
  try_enqueue-room x bound room = rw (index q.enqueue_pos) (ground (arith, end_free room))

  put-Holds : (x : A) → NoWrap q → length xs < q.capacity → Holds (xs ++ x ∷ []) (put x)
  put-Holds x bound room = record {
    exponent = h.exponent;
    sized = h.sized;
    two = h.two;
    masked = h.masked;
    tail = omega (arith, h.tail, length-append xs (x ∷ []));
    fits = omega (arith, length-append xs (x ∷ []));
    filled = λ i y e. ground (
      arith,
      get_elem?-append_last xs x i,
      get_elem?-lt xs i y,
      h.filled i y,
      ap (λ (t : ℕ). t % q.capacity) h.tail,
      mod-injective q.dequeue_pos q.capacity i (length xs),
    );
    free = λ i le lt. ground (
      arith,
      length-append xs (x ∷ []),
      h.free i,
      ap (λ (t : ℕ). t % q.capacity) h.tail,
      mod-injective q.dequeue_pos q.capacity i (length xs),
    );
  }

  first_filled :
      (i : ℕ) (x : A)
      → get_elem? xs i ≡ some x
      → (q.buffer ((q.dequeue_pos + i) % q.capacity)).sequence ≡ q.dequeue_pos + i + 1
  first_filled i x e = ap (λ (c : Cell A). c.sequence) (h.filled i x e)

  try_enqueue-full : (x : A) → NoWrap q → length xs ≡ q.capacity → try_enqueue x q ≡ some (q, false)
  unfolding try_enqueue
  try_enqueue-full x bound full = elim (Option-cases (get_elem? xs 0)) [
    | inl missing ↦ absurd (omega (arith, h.two, get_elem?-zero xs missing))
    | inr (y, e) ↦ rw (index q.enqueue_pos) (
        ground (
          arith,
          h.two,
          first_filled 0 y e,
          h.tail,
          ap (λ (t : ℕ). t % q.capacity) h.tail,
          ap (λ (t : ℕ). (q.dequeue_pos + t) % q.capacity) full,
          add-mod_right q.dequeue_pos q.capacity,
          ap (λ (t : ℕ). t % q.capacity) (add-zero q.dequeue_pos),
        ))
  ]

module _ {A : Type 0} where
  abbrev taken : A → List A → Queue A → Queue A
  taken x xs q = record q {
    dequeue_pos = q.dequeue_pos + 1;
    buffer =
        set_cell (q.dequeue_pos % q.capacity)
          (record { sequence = q.dequeue_pos + q.capacity; value = none }) q.buffer;
  }

  -- What `try_dequeue` is to give.
  abbrev pub Dequeued : Queue A → List A → Option (Queue A × Option A × Bool) → Type 0
  Dequeued q [] r = r ≡ some (q, none, false)
  Dequeued q (x ∷ xs) r =
      (q' : Queue A) × (r ≡ some (q', some x, true))
      × Holds xs q'
      × (q'.capacity ≡ q.capacity)
      × (q'.enqueue_pos ≡ q.enqueue_pos)

  try_dequeue-empty : (q : Queue A) → Holds [] q → NoWrap q → try_dequeue q ≡ some (q, none, false)
  unfolding try_dequeue
  try_dequeue-empty q h bound =
      rw (index [] q h q.dequeue_pos)
        (ground (arith, h.two, h.free 0, ap (λ (t : ℕ). t % q.capacity) (add-zero q.dequeue_pos)))

  try_dequeue-item :
      (x : A) (xs : List A) (q : Queue A)
      → Holds (x ∷ xs) q
      → NoWrap q
      → try_dequeue q ≡ some (taken x xs q, some x, true)
  unfolding try_dequeue
  try_dequeue-item x xs q h bound = rw (index (x ∷ xs) q h q.dequeue_pos) (
      ground (
        arith,
        h.two,
        h.masked,
        h.tail,
        h.filled 0 x refl,
        ap (λ (t : ℕ). t % q.capacity) (add-zero q.dequeue_pos),
      ))

  taken-Holds :
      (x : A) (xs : List A) (q : Queue A) → Holds (x ∷ xs) q → NoWrap q → Holds xs (taken x xs q)
  taken-Holds x xs q h bound = record {
    exponent = h.exponent;
    sized = h.sized;
    two = h.two;
    masked = h.masked;
    tail = omega (arith, h.tail);
    fits = omega (arith, h.fits);
    filled = λ i y e. ground (
      arith,
      h.filled (suc i) y,
      get_elem?-lt xs i y,
      h.fits,
      shifted i,
      at_start,
      mod-injective q.dequeue_pos q.capacity 0 (suc i),
    );
    free = λ i le lt. ground (
      arith,
      h.free (suc i),
      shifted i,
      at_start,
      last i,
      mod-injective q.dequeue_pos q.capacity 0 (suc i),
    );
  }
    where
      shifted :
          (i : ℕ) → (q.dequeue_pos + 1 + i) % q.capacity ≡ (q.dequeue_pos + suc i) % q.capacity
      shifted i = ap (λ (t : ℕ). t % q.capacity) (omega arith)

      at_start : (q.dequeue_pos + 0) % q.capacity ≡ q.dequeue_pos % q.capacity
      at_start = ap (λ (t : ℕ). t % q.capacity) (add-zero q.dequeue_pos)

      last :
          (i : ℕ)
          → suc i ≡ q.capacity
          → (q.dequeue_pos + suc i) % q.capacity ≡ q.dequeue_pos % q.capacity
      last i e =
          ap (λ (t : ℕ). (q.dequeue_pos + t) % q.capacity) e
          ∙ add-mod_right q.dequeue_pos q.capacity

  -- `try_enqueue` where there is room, with the position afterwards.
  pub try_enqueue-stored :
      (xs : List A) (q : Queue A) (x : A)
      → Holds xs q
      → NoWrap q
      → length xs < q.capacity
      → (q' : Queue A) × (try_enqueue x q ≡ some (q', true))
        × Holds (xs ++ x ∷ []) q'
        × (q'.capacity ≡ q.capacity)
        × (q'.enqueue_pos ≡ q.enqueue_pos + 1)
  try_enqueue-stored xs q x h bound room = (
    put xs q h x,
    try_enqueue-room xs q h x bound room,
    put-Holds xs q h x bound room,
    refl,
    refl,
  )

  -- On a queue that holds a list of items, with positions that stay below 2 ^ 63, `try_enqueue`
  -- ends: while there is room it stores the item behind the others, and it refuses it, with nothing
  -- changed, where the queue holds as many as its capacity.
  pub try_enqueue-Holds :
      (xs : List A) (q : Queue A) (x : A)
      → Holds xs q
      → NoWrap q
      → ((length xs < q.capacity)
          × ((q' : Queue A) × (try_enqueue x q ≡ some (q', true))
              × Holds (xs ++ x ∷ []) q'
              × (q'.capacity ≡ q.capacity)))
        ⊎ ((length xs ≡ q.capacity) × (try_enqueue x q ≡ some (q, false)))
  try_enqueue-Holds xs q x h bound = elim (dec_lt (length xs) q.capacity) [
    | yes room ↦ inl (
      room,
      (put xs q h x, try_enqueue-room xs q h x bound room, put-Holds xs q h x bound room, refl),
    )
    | no none_left ↦
        let full : length xs ≡ q.capacity = omega (arith, h.fits) in
        inr (full, try_enqueue-full xs q h x bound full)
  ]

  -- On a queue that holds a list of items, with positions that stay below 2 ^ 63, `try_dequeue`
  -- ends: it takes out the oldest item, or reports that there is none and changes nothing.
  pub try_dequeue-Holds :
      (xs : List A) (q : Queue A) → Holds xs q → NoWrap q → Dequeued q xs (try_dequeue q)
  try_dequeue-Holds [] q h bound = try_dequeue-empty q h bound
  try_dequeue-Holds (x ∷ xs) q h bound =
      (taken x xs q, try_dequeue-item x xs q h bound, taken-Holds x xs q h bound, refl, refl)
