-- ===== src/Memory/History.antt =====
-- Any sequence of operations on the messages of a program.
use livio_ark.Prelude.{
  ℕ, ◌+◌, ◌^◌, ◌<◌, ◌≡◌, refl, ap, ◌∙◌, Bool, true, false, ltb, ◌&&◌, Bytes, Option, none, some,
  if◌then◌else◌, List, [], ◌∷◌, length, arith,
}
use mathlib.Core.Path.{subst}
use livio_ark.Queue.{new_queue, round_up_power_of_2}
use livio_ark.Queue.Fifo.{Holds}
use livio_ark.Memory.Objects.{new_heap, default_pool_capacity}
use livio_ark.Memory.Pointers.{
  Memory, new_memory, reset, copy, copy_assign, move, move_assign, make_ptr, adopt_new,
}
use livio_ark.Memory.Owners.{owners}
use livio_ark.Memory.Counted.{IsCounted}
use livio_ark.Memory.Safe.{
  IsValid, Succeeds, Gives, IsValid-later, reset-IsValid, copy-IsValid, move-IsValid,
  make_ptr-IsValid, adopt_new-IsValid,
}
use livio_ark.Memory.Assigning.{copy_assign-Gives, move_assign-Gives}

-- A variable is its number, in the order in which they are made.
pub data Step : Type 0 where
  make_step : ℕ → ℕ → Bytes → ℕ → Option ℕ → Step
  adopt_step : ℕ → ℕ → ℕ → Step
  copy_step : ℕ → Step
  copy_assign_step : ℕ → ℕ → Step
  move_step : ℕ → Step
  move_assign_step : ℕ → ℕ → Step
  reset_step : ℕ → Step

abbrev pub is_variable : ℕ → Memory → Bool
is_variable i m = ltb i (length m.ptrs)

-- A step on a variable that is not there is none.
abbrev pub apply : Step → Memory → Option Memory
apply (make_step type topic_id topic_sv data_ on_drop) m =
    make_ptr type topic_id topic_sv data_ on_drop m
apply (adopt_step type topic_id data_) m = adopt_new type topic_id data_ m
apply (copy_step o) m = copy o m
apply (copy_assign_step i o) m =
    if is_variable i m && is_variable o m then copy_assign i o m else some m
apply (move_step o) m = if is_variable o m then some (move o m) else some m
apply (move_assign_step i o) m =
    if is_variable i m && is_variable o m then move_assign i o m else some m
apply (reset_step i) m = if is_variable i m then reset i m else some m

abbrev pub run : List Step → Memory → Option Memory
run [] m = some m
run (s ∷ steps) m = elim (apply s m) [ none ↦ none | some m' ↦ run steps m' ]

new_queue-empty : Holds {A = ℕ} [] (new_queue default_pool_capacity)
unfolding new_queue round_up_power_of_2
new_queue-empty = record {
  exponent = 13;
  sized = refl;
  two = omega arith;
  masked = refl;
  tail = refl;
  fits = omega arith;
  filled = λ i x e. cc;
  free = λ i le lt. ground arith;
}

new-IsCounted : IsCounted 0 (λ t. []) (owners []) new_heap
unfolding new_heap new_queue round_up_power_of_2
new-IsCounted = record {
  counted = λ p a. cc;
  owned = λ p a. absurd (omega arith);
  kept = λ p a b. cc;
  pooled = λ t p a. absurd (omega arith);
  unowned = λ t p a. absurd (omega arith);
  typed = λ t p a. absurd (omega arith);
  once = λ t p. omega arith;
  recyclers = λ p t a b. cc;
  made = λ p a. refl;
  queues = λ t. new_queue-empty;
  sized = λ t. refl;
  few = λ t. omega arith;
}

new-IsValid : IsValid 0 new_memory
unfolding new_memory
new-IsValid = record { few_ptrs = omega arith; items = λ t. []; counted = new-IsCounted }

guarded :
    {n : ℕ} {m : Memory} (b : Bool) {r : Option Memory}
    → IsValid n m
    → (b ≡ true → Succeeds (n + 1) r)
    → Succeeds (n + 1) (if b then r else some m)
guarded {m = m} true v h = h refl
guarded {m = m} false v h = (m, refl, IsValid-later v)

Gives-Succeeds :
    {n : ℕ} {ptrs : List (Option ℕ)} {r : Option Memory} → Gives n ptrs r → Succeeds n r
Gives-Succeeds (m', e, same, v) = (m', e, v)

apply-Succeeds :
    {n : ℕ} {m : Memory} (s : Step) → IsValid n m → n + 1 < 2 ^ 31 → Succeeds (n + 1) (apply s m)
apply-Succeeds (make_step type topic_id topic_sv data_ on_drop) v few =
    make_ptr-IsValid v (omega arith) type topic_id topic_sv data_ on_drop
apply-Succeeds (adopt_step type topic_id data_) v few =
    adopt_new-IsValid v (omega arith) type topic_id data_
apply-Succeeds (copy_step o) v few = copy-IsValid v (omega arith) o
apply-Succeeds {m = m} (copy_assign_step i o) v few =
    guarded (is_variable i m && is_variable o m) v
      (λ e. Gives-Succeeds (copy_assign-Gives v few i o (ground arith) (ground arith)))
apply-Succeeds {m = m} (move_step o) v few =
    guarded (is_variable o m) v
      (λ e. (move o m, refl, move-IsValid v (omega arith) o (ground arith)))
apply-Succeeds {m = m} (move_assign_step i o) v few =
    guarded (is_variable i m && is_variable o m) v
      (λ e. Gives-Succeeds (move_assign-Gives v few i o (ground arith) (ground arith)))
apply-Succeeds {m = m} (reset_step i) v few =
    guarded (is_variable i m) v (λ e. reset-IsValid v (omega arith) i (ground arith))

run_from-Succeeds :
    (steps : List Step) (n total : ℕ) (m : Memory)
    → IsValid n m
    → n + length steps ≡ total
    → total < 2 ^ 31
    → Succeeds total (run steps m)
run_from-Succeeds [] n total m v e few =
    let e' : n ≡ total = omega arith in (m, refl, subst (λ k. IsValid k m) e' v)
run_from-Succeeds (s ∷ steps) n total m v e few =
    let (m', given, w) = apply-Succeeds s v (omega arith) in
    let (m'', rest, x) = run_from-Succeeds steps (n + 1) total m' w (omega arith) few in
    (m'', ap (λ r. elim r [ none ↦ none | some k ↦ run steps k ]) given ∙ rest, x)

-- Every sequence of fewer than 2 ^ 31 operations on messages (the making of one by publish, the
-- adoption of one without a pool, copies, moves, assignments and resets of variables) from the
-- program's start runs without an access to a deleted object, a second deletion or a wrong cast;
-- afterwards the count of every object that is there is the number of variables that point to it,
-- every object that a variable points to is there, and an object with no variable is in the pool of
-- its type, once and in no other.
pub run-Succeeds :
    (steps : List Step) → length steps < 2 ^ 31 → Succeeds (length steps) (run steps new_memory)
run-Succeeds steps few =
    run_from-Succeeds steps 0 (length steps) new_memory new-IsValid (omega arith) few
