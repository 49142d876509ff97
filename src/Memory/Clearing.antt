-- ===== src/Memory/Clearing.antt =====
-- `~ObjectPool`: its loop ends, and deletes what the pool holds and nothing else.
use mathlib.Core.Path.{subst}
use livio_ark.Prelude.{
  ℕ, zero, suc, ◌+◌, ◌^◌, ◌≤◌, ◌<◌, ◌≡◌, refl, sym, ◌∙◌, true, false, Option, none, some, ltb,
  if◌then◌else◌, update, List, [], ◌∷◌, length, arith,
}
use livio_ark.Queue.{Queue, try_dequeue}
use livio_ark.Queue.Fifo.{Holds, NoWrap, try_dequeue-Holds}
use livio_ark.Memory.Objects.{Heap, clear_pool, default_pool_capacity}
use livio_ark.Memory.Counted.{times, IsCounted}

-- What the loop needs of the pool: what it holds is there, once each.
record IsPool (t : ℕ) (xs : List ℕ) (h : Heap) : Type 0 where
  queue : Holds xs (h.pools t)
  fits : NoWrap (h.pools t)
  there : (p : ℕ) → 0 < times p xs → h.allocated p ≡ true
  once : (p : ℕ) → times p xs ≤ 1

clear_pool-end :
    (f t : ℕ) (q : Queue ℕ) (h : Heap)
    → try_dequeue (h.pools t) ≡ some (q, none, false)
    → clear_pool (suc f) t h ≡ some (record h { pools = update t q h.pools })
unfolding clear_pool
clear_pool-end f t q h e = rw (clear_pool, e) refl

clear_pool-next :
    (f t p : ℕ) (q : Queue ℕ) (h : Heap)
    → try_dequeue (h.pools t) ≡ some (q, some p, true)
    → h.allocated p ≡ true
    → clear_pool (suc f) t h
      ≡ clear_pool f t
          (record h { allocated = update p false h.allocated; pools = update t q h.pools })
unfolding clear_pool
clear_pool-next f t p q h e there = rw (clear_pool, e, there) refl

abbrev pub Cleared : ℕ → List ℕ → Heap → Option Heap → Type 0
Cleared t xs h r =
    (h' : Heap) × (r ≡ some h')
    × ((p : ℕ) → h'.allocated p ≡ (if ltb 0 (times p xs) then false else h.allocated p))
    × Holds [] (h'.pools t)

update-there : (t : ℕ) (q : Queue ℕ) (pools : ℕ → Queue ℕ) → update t q pools t ≡ q
update-there t q pools = ground arith

clear_from :
    (t : ℕ) (xs : List ℕ) (f : ℕ) (h : Heap)
    → IsPool t xs h
    → length xs < f
    → Cleared t xs h (clear_pool f t h)
clear_from t xs zero h v enough = absurd (omega arith)
clear_from t [] (suc f) h v enough =
    let e = try_dequeue-Holds [] (h.pools t) v.queue v.fits in
    (
      record h { pools = update t (h.pools t) h.pools },
      clear_pool-end f t (h.pools t) h e,
      λ p. ground arith,
      subst (Holds []) (sym (update-there t (h.pools t) h.pools)) v.queue,
    )
clear_from t (p ∷ xs) (suc f) h v enough =
    let (q, e, holds, size, pos) = try_dequeue-Holds (p ∷ xs) (h.pools t) v.queue v.fits in
    let h1 = record h { allocated = update p false h.allocated; pools = update t q h.pools } in
    let same : update t q h.pools t ≡ q = update-there t q h.pools in
    let pool : IsPool t xs h1 = record {
      queue = subst (Holds xs) (sym same) holds;
      fits = rw same (omega (arith, size, pos, v.fits));
      there = λ k some_k. ground (arith, v.there k, v.once k);
      once = λ k. ground (arith, v.once k);
    } in
    let (h', given, gone, empty) = clear_from t xs f h1 pool (omega arith) in
    (
      h',
      clear_pool-next f t p q h e (v.there p (ground arith)) ∙ given,
      λ k. ground (arith, gone k),
      empty,
    )

-- With counts that are right and positions of the pools that do not reach 2 ^ 63, the loop of
-- ~ObjectPool ends after one more round than the pool holds objects; it deletes exactly the objects
-- that the pool holds, each once, and leaves the pool empty.
pub clear_pool-Cleared :
    {n : ℕ} {items : ℕ → List ℕ} {own : ℕ → ℕ} {h : Heap}
    → IsCounted n items own h
    → n + default_pool_capacity < 2 ^ 63
    → (t f : ℕ) → length (items t) < f
    → Cleared t (items t) h (clear_pool f t h)
clear_pool-Cleared {items = items} {h = h} v bound t f enough =
    clear_from t (items t) f h
      (record {
        queue = v.queues t;
        fits = omega (arith, v.few t, v.sized t);
        there = v.pooled t;
        once = v.once t;
      })
      enough
