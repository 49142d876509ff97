-- ===== src/Memory/Making.antt =====
-- The object that `publish` takes from the pool or makes.
use livio_ark.Prelude.{
  ℕ, ◌+◌, ◌%◌, ◌^◌, ◌≤◌, ◌<◌, ◌≡◌, refl, ap, ◌∙◌, true, Option, none, some, Bytes, ◌==◌, update,
  List, [], ◌∷◌, indicator, if-related, arith,
}
use livio_ark.Queue.{Queue, try_dequeue}
use livio_ark.Queue.Fifo.{Holds, try_dequeue-Holds, Dequeued}
use livio_ark.Memory.Objects.{
  Object, Heap, counts, default_pool_capacity, acquire, acquire_or_new, make_message, typed_message,
  reset_message, prepared, allocate,
}
use mathlib.Core.Path.{subst}
use livio_ark.Memory.Counted.{
  times, IsCounted, bump, reheaped, added-IsCounted, put, on_object-there,
}

module _ {n : ℕ} {items : ℕ → List ℕ} {own : ℕ → ℕ} {h : Heap} (v : IsCounted n items own h)
    (type topic_id : ℕ) (topic_sv : Bytes) (data_ : ℕ) (on_drop : Option ℕ) where
  -- What is in the object that `adopt` gets, whichever way it came.
  abbrev pub made_object : ℕ → Object
  made_object ref_count = record {
    ref_count = ref_count;
    recycler = some type;
    on_drop = on_drop;
    topic_sv = topic_sv;
    topic_id = topic_id;
    type = type;
    data_ = data_;
  }

  -- The heap with the object `p` out of its pool.
  abbrev with_object : ℕ → (ℕ → Object) → (ℕ → Queue ℕ) → Heap
  with_object p objects pools = record h {
    objects = update p (made_object 1) objects;
    pools = pools;
  }

  taken-IsCounted :
      (p : ℕ) (xs : List ℕ) (q : Queue ℕ) (objects : ℕ → Object)
      → items type ≡ p ∷ xs
      → ((k : ℕ) → (k ≡ p → ⊥) → objects k ≡ h.objects k)
      → Holds xs q
      → q.capacity ≡ default_pool_capacity
      → q.enqueue_pos ≤ n
      → IsCounted n
          (update type xs items)
          (bump p own)
          (with_object p objects (update type q h.pools))
  taken-IsCounted p xs q objects e same holds size bound = record {
    counted = λ k a. ground (arith, v.counted k, same k, is_unowned);
    owned = λ k a. ground (arith, v.owned k, is_there);
    kept = λ k a b. ground (arith, v.kept k, same k, count k);
    pooled = λ t k a. ground (arith, v.pooled t k, count k);
    unowned = λ t k a. ground (arith, v.unowned t k, count k, count p, v.once type p, elsewhere t);
    typed = λ t k a. ground (arith, v.typed t k, count k, same k, elsewhere t);
    once = λ t k. ground (arith, v.once t k, count k);
    recyclers = λ k t a b. ground (arith, v.recyclers k t, same k);
    made = λ k a. ground (arith, v.made k, is_there);
    queues = λ t. if-related Holds (type == t) holds (v.queues t);
    sized = λ t. ground (arith, v.sized t);
    few = λ t. ground (arith, v.few t);
  }
    where
      count : (k : ℕ) → times k (items type) ≡ indicator (k == p) + times k xs
      count k = ap (times k) e

      is_there : h.allocated p ≡ true
      is_there = v.pooled type p (ground (arith, count p))

      is_unowned : own p ≡ 0
      is_unowned = v.unowned type p (ground (arith, count p))

      -- Another type's pool does not have the object.
      elsewhere : (t : ℕ) → (type ≡ t → ⊥) → times p (items t) ≡ 0
      elsewhere t other = ground (arith, v.typed t p, v.typed type p, count p)

  abbrev add_one : Object → Object
  add_one o = record o { ref_count = (o.ref_count + 1) % counts }

  abbrev finished : ℕ → Heap → Heap
  finished p h' = put p add_one (put p (prepared type topic_sv on_drop) h')

  make_message-acquired :
      (p : ℕ) (h' : Heap)
      → h'.allocated p ≡ true
      → acquire_or_new type topic_id data_ h ≡ some (h', p)
      → make_message type topic_id topic_sv data_ on_drop h ≡ some (finished p h', p)
  unfolding make_message
  make_message-acquired p h' there e =
      rw (make_message, e, on_object-there p (prepared type topic_sv on_drop) h' there) rw
        (on_object-there p add_one (put p (prepared type topic_sv on_drop) h') there) refl

  -- What `make_message` is to give.
  pub record IsMade (result : Option (Heap × ℕ)) : Type 0 where
    pub after : Heap
    pub made_at : ℕ
    pub items_after : ℕ → List ℕ
    pub given : result ≡ some (after, made_at)
    pub unowned_before : own made_at ≡ 0
    pub contents : after.objects made_at ≡ made_object 1
    pub counted_after : IsCounted n items_after (bump made_at own) after

  acquired-empty :
      items type ≡ []
      → n + default_pool_capacity < 2 ^ 63
      → acquire type h ≡ some (record h { pools = update type (h.pools type) h.pools }, none)
  unfolding acquire
  acquired-empty e bound =
      rw
        (
          acquire,
          subst (λ xs. Dequeued (h.pools type) xs (try_dequeue (h.pools type))) e
              (try_dequeue-Holds (items type) (h.pools type) (v.queues type)
                (omega (arith, v.few type, v.sized type))),
        )
        refl

  acquire_or_new-empty :
      items type ≡ []
      → n + default_pool_capacity < 2 ^ 63
      → acquire_or_new type topic_id data_ h
        ≡ some (
            allocate
              (typed_message type topic_id data_)
              (record h { pools = update type (h.pools type) h.pools }))
  unfolding acquire_or_new
  acquire_or_new-empty e bound = rw (acquire_or_new, acquired-empty e bound) refl

  make_message-new :
      items type ≡ []
      → n + default_pool_capacity < 2 ^ 63
      → IsMade (make_message type topic_id topic_sv data_ on_drop h)
  make_message-new e bound =
      let new = v.made h.made (omega arith) in
      let pools = update type (h.pools type) h.pools in
      let (h', p) = allocate (typed_message type topic_id data_) (record h { pools = pools }) in
      record {
        after = finished h.made h';
        made_at = h.made;
        items_after = items;
        given = make_message-acquired h.made h' (ground arith) (acquire_or_new-empty e bound);
        unowned_before = ground (arith, v.owned h.made);
        contents = ground arith;
        counted_after =
            reheaped (added-IsCounted v (made_object 1) refl (λ t e. ground arith))
              (finished h.made h') (λ q. ground arith) (λ q. refl) refl (λ t. ground arith);
      }

  acquire_or_new-taken :
      (p : ℕ) (q : Queue ℕ)
      → h.allocated p ≡ true
      → try_dequeue (h.pools type) ≡ some (q, some p, true)
      → acquire_or_new type topic_id data_ h
        ≡ some
            (put p (reset_message topic_id data_) (record h { pools = update type q h.pools }), p)
  unfolding acquire_or_new acquire
  acquire_or_new-taken p q there taken = rw (acquire_or_new, acquire, taken, there) refl

  make_message-taken :
      (p : ℕ) (xs : List ℕ)
      → items type ≡ p ∷ xs
      → n + default_pool_capacity < 2 ^ 63
      → IsMade (make_message type topic_id topic_sv data_ on_drop h)
  make_message-taken p xs e bound =
      let (q, taken, holds, size, pos) =
        subst (λ ys. Dequeued (h.pools type) ys (try_dequeue (h.pools type))) e
          (try_dequeue-Holds (items type) (h.pools type) (v.queues type)
            (omega (arith, v.few type, v.sized type))) in
      let count : times p (items type) ≡ indicator (p == p) + times p xs = ap (times p) e in
      let there = v.pooled type p (ground arith) in
      let h0 = record h { pools = update type q h.pools } in
      let h' = put p (reset_message topic_id data_) h0 in
      let same_type = v.typed type p (ground arith) in
      record {
        after = finished p h';
        made_at = p;
        items_after = update type xs items;
        given = make_message-acquired p h' there (acquire_or_new-taken p q there taken);
        unowned_before = v.unowned type p (ground arith);
        contents = ground arith;
        counted_after =
            reheaped
              (taken-IsCounted p xs q h'.objects e (λ k other. ground arith) holds
                (size ∙ v.sized type) (omega (arith, v.few type)))
              (finished p h') (λ k. ground arith) (λ k. refl) refl (λ t. refl);
      }

  -- With counts that are right and positions of the pools that do not reach 2 ^ 63, the message
  -- that publish makes has exactly the topic, text, type, data and drop callback of this publish,
  -- the recycler of its type and one reference, whether its object was in the pool or is new; no
  -- variable pointed to the object before, and the counts stay right with its one owner more.
  pub make_message-IsMade :
      n + default_pool_capacity < 2 ^ 63
      → IsMade (make_message type topic_id topic_sv data_ on_drop h)
  make_message-IsMade bound = by_pool (items type) refl
    where
      by_pool :
          (xs : List ℕ)
          → items type ≡ xs
          → IsMade (make_message type topic_id topic_sv data_ on_drop h)
      by_pool [] e = make_message-new e bound
      by_pool (p ∷ xs) e = make_message-taken p xs e bound
