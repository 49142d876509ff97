-- ===== src/Memory/Counted.antt =====
-- The invariant of message objects: a count is the number of its owners, an object without owners is
-- in its pool and nowhere else, and no other object is there.
use mathlib.Core.Path.{subst}
use livio_ark.Prelude.{
  ℕ, ◌+◌, ◌-◌, ◌^◌, ◌≤◌, ◌<◌, ◌≡◌, refl, sym, ap, ◌∙◌, true, false, some, ◌==◌, update, List, tally,
  indicator, arith,
}
use livio_ark.Queue.{Queue}
use livio_ark.Queue.Fifo.{Holds}
use livio_ark.Memory.Objects.{Object, Heap, default_pool_capacity, on_object, add_ref}

-- How often `p` occurs.
abbrev pub times : ℕ → List ℕ → ℕ
times p = tally (λ q. indicator (p == q))

-- `own p` is the number of owners, `items t` what the pool of type `t` holds, and `n` bounds the
-- positions of the pools' queues.
pub record IsCounted (n : ℕ) (items : ℕ → List ℕ) (own : ℕ → ℕ) (h : Heap) : Type 0 where
  pub counted : (p : ℕ) → h.allocated p ≡ true → (h.objects p).ref_count ≡ own p
  pub owned : (p : ℕ) → 0 < own p → h.allocated p ≡ true
  pub kept : (p : ℕ) → h.allocated p ≡ true → own p ≡ 0 → 0 < times p (items (h.objects p).type)
  pub pooled : (t p : ℕ) → 0 < times p (items t) → h.allocated p ≡ true
  pub unowned : (t p : ℕ) → 0 < times p (items t) → own p ≡ 0
  pub typed : (t p : ℕ) → 0 < times p (items t) → (h.objects p).type ≡ t
  pub once : (t p : ℕ) → times p (items t) ≤ 1
  pub recyclers :
      (p t : ℕ) → h.allocated p ≡ true → (h.objects p).recycler ≡ some t → (h.objects p).type ≡ t
  pub made : (p : ℕ) → h.made ≤ p → h.allocated p ≡ false
  pub queues : (t : ℕ) → Holds (items t) (h.pools t)
  pub sized : (t : ℕ) → (h.pools t).capacity ≡ default_pool_capacity
  pub few : (t : ℕ) → (h.pools t).enqueue_pos ≤ n

-- `on_object` on an object that is there.
abbrev pub put : ℕ → (Object → Object) → Heap → Heap
put p f h = record h { objects = update p (f (h.objects p)) h.objects }

pub on_object-there :
    (p : ℕ) (f : Object → Object) (h : Heap)
    → h.allocated p ≡ true
    → on_object p f h ≡ some (put p f h)
on_object-there p f h e = rw e refl

abbrev pub bump : ℕ → (ℕ → ℕ) → ℕ → ℕ
bump p own q = own q + indicator (p == q)

abbrev pub lower : ℕ → (ℕ → ℕ) → ℕ → ℕ
lower p own q = own q - indicator (p == q)

module _ {n : ℕ} {items : ℕ → List ℕ} {own : ℕ → ℕ} {h : Heap} (v : IsCounted n items own h) where
  -- More steps are allowed, and the same owners by another account.
  pub later : IsCounted (n + 1) items own h
  later = record {
    counted = v.counted;
    owned = v.owned;
    kept = v.kept;
    pooled = v.pooled;
    unowned = v.unowned;
    typed = v.typed;
    once = v.once;
    recyclers = v.recyclers;
    made = v.made;
    queues = v.queues;
    sized = v.sized;
    few = λ t. omega (arith, v.few t);
  }

  pub recounted : (own' : ℕ → ℕ) → ((p : ℕ) → own' p ≡ own p) → IsCounted n items own' h
  recounted own' e = record {
    counted = λ p a. v.counted p a ∙ sym (e p);
    owned = λ p a. v.owned p (omega (arith, e p));
    kept = λ p a b. v.kept p a (sym (e p) ∙ b);
    pooled = v.pooled;
    unowned = λ t p a. e p ∙ v.unowned t p a;
    typed = v.typed;
    once = v.once;
    recyclers = v.recyclers;
    made = v.made;
    queues = v.queues;
    sized = v.sized;
    few = v.few;
  }

  -- A heap with the same entries everywhere.
  pub reheaped :
      (h' : Heap)
      → ((p : ℕ) → h'.objects p ≡ h.objects p)
      → ((p : ℕ) → h'.allocated p ≡ h.allocated p)
      → h'.made ≡ h.made
      → ((t : ℕ) → h'.pools t ≡ h.pools t)
      → IsCounted n items own h'
  reheaped h' objects allocated next pools = record {
    counted = λ p a. ground (arith, v.counted p, objects p, allocated p);
    owned = λ p a. allocated p ∙ v.owned p a;
    kept = λ p a b. ground (arith, v.kept p, objects p, allocated p);
    pooled = λ t p a. allocated p ∙ v.pooled t p a;
    unowned = v.unowned;
    typed = λ t p a. ap (λ (o : Object). o.type) (objects p) ∙ v.typed t p a;
    once = v.once;
    recyclers = λ p t a b. ground (arith, v.recyclers p t, objects p, allocated p);
    made = λ p a. allocated p ∙ v.made p (omega (arith, next));
    queues = λ t. subst (Holds (items t)) (sym (pools t)) (v.queues t);
    sized = λ t. ap (λ (q : Queue ℕ). q.capacity) (pools t) ∙ v.sized t;
    few = λ t. let e = ap (λ (q : Queue ℕ). q.enqueue_pos) (pools t) in omega (arith, v.few t);
  }

  pub add_ref-IsCounted :
      (p : ℕ)
      → 0 < own p
      → own p < 2 ^ 31
      → (h' : Heap) × (add_ref p h ≡ some h') × IsCounted n items (bump p own) h'
  add_ref-IsCounted p some_owner bound =
      let there = v.owned p some_owner in
      (
        record h { objects = update p (record (h.objects p) { ref_count = own p + 1 }) h.objects },
        ground (arith, v.counted p),
        record {
          counted = λ q a. ground (arith, v.counted q);
          owned = λ q a. ground (arith, v.owned q);
          kept = λ q a b. ground (arith, v.kept q);
          pooled = v.pooled;
          unowned = λ t q a. ground (arith, v.unowned t q);
          typed = λ t q a. ground (arith, v.typed t q);
          once = v.once;
          recyclers = λ q t a b. ground (arith, v.recyclers q t);
          made = v.made;
          queues = v.queues;
          sized = v.sized;
          few = v.few;
        },
      )

  -- The heap with one object more, which has one owner.
  abbrev pub added : Object → Heap
  added o = record {
    objects = update h.made o h.objects;
    allocated = update h.made true h.allocated;
    made = h.made + 1;
    pools = h.pools;
  }

  pub added-IsCounted :
      (o : Object)
      → o.ref_count ≡ 1
      → ((t : ℕ) → o.recycler ≡ some t → o.type ≡ t)
      → IsCounted n items (bump h.made own) (added o)
  added-IsCounted o one recycles =
      let new = v.made h.made (omega arith) in
      record {
        counted = λ q a. ground (arith, v.counted q, v.owned q, new);
        owned = λ q a. ground (arith, v.owned q);
        kept = λ q a b. ground (arith, v.kept q);
        pooled = λ t q a. ground (arith, v.pooled t q);
        unowned = λ t q a. ground (arith, v.unowned t q, v.pooled t q, new);
        typed = λ t q a. ground (arith, v.typed t q, v.pooled t q, new);
        once = v.once;
        recyclers = λ q t a b. ground (arith, v.recyclers q t, recycles t);
        made = λ q a. ground (arith, v.made q, new);
        queues = v.queues;
        sized = v.sized;
        few = v.few;
      }
