-- ===== src/Memory/Tests.antt =====
-- The theorems on messages at concrete inputs.
use mathlib.Core.Path.{subst}
use livio_ark.Prelude.{
  ℕ, ◌+◌, ◌<◌, ◌≡◌, refl, sym, ap, Option, none, some, List, [], ◌∷◌, bytes, length, arith,
}
use livio_ark.Queue.{new_queue, round_up_power_of_2, try_enqueue, try_dequeue}
use livio_ark.Memory.Objects.{
  new_heap, make_message, acquire, acquire_or_new, release_ref, release, recycle, drop_ref,
  clear_pool,
}
use livio_ark.Memory.Pointers.{Memory, new_memory, reset, copy_assign, make_ptr}
use livio_ark.Memory.Safe.{IsValid, Succeeds, Gives}
use livio_ark.Memory.Making.{IsMade, make_message-IsMade}
use livio_ark.Memory.Assigning.{copy_assign-Gives}
use livio_ark.Memory.Clearing.{Cleared, clear_pool-Cleared}
use livio_ark.Memory.History.{Step, make_step, adopt_step, copy_step, reset_step, run, run-Succeeds}

-- Two messages of one type and one without a pool, a copy of the first, and the second goes.
abbrev steps : List Step
steps =
    make_step 5 1 (bytes "a") 10 none
    ∷ make_step 5 2 (bytes "b") 11 (some 4)
    ∷ adopt_step 6 3 12
    ∷ copy_step 0
    ∷ reset_step 1
    ∷ []

run-Succeeds_example : Succeeds 5 (run steps new_memory)
run-Succeeds_example = run-Succeeds steps (omega arith)

abbrev some_or : Option Memory → Memory
some_or none = new_memory
some_or (some m) = m

abbrev ran : Memory
ran = some_or (run steps new_memory)

ran-IsValid : IsValid 5 ran
ran-IsValid =
    let (m', e, v) = run-Succeeds steps (omega arith) in
    subst (λ m. IsValid 5 m) (sym (ap some_or e)) v

ran_ptrs : ran.ptrs ≡ some 0 ∷ none ∷ some 2 ∷ some 0 ∷ []
unfolding make_ptr make_message acquire_or_new acquire try_dequeue new_memory reset drop_ref
    new_heap recycle release release_ref new_queue round_up_power_of_2 try_enqueue
ran_ptrs = refl

in_ran : (i : ℕ) → i < 4 → i < length ran.ptrs
in_ran i b = rw ran_ptrs b

make_message-IsMade_example :
    IsMade
      (ran-IsValid.counted)
      5
      7
      (bytes "c")
      13
      none
      (make_message 5 7 (bytes "c") 13 none ran.heap)
make_message-IsMade_example =
    make_message-IsMade ran-IsValid.counted 5 7 (bytes "c") 13 none (omega arith)

copy_assign-Gives_example : Gives 6 (some 2 ∷ none ∷ some 2 ∷ some 0 ∷ []) (copy_assign 0 2 ran)
unfolding make_ptr make_message acquire_or_new acquire try_dequeue new_memory reset drop_ref
    new_heap recycle release release_ref new_queue round_up_power_of_2 try_enqueue
copy_assign-Gives_example =
    copy_assign-Gives ran-IsValid (omega arith) 0 2 (in_ran 0 (omega arith))
      (in_ran 2 (omega arith))

clear_pool-Cleared_example :
    Cleared 5
      (ran-IsValid.items 5)
      ran.heap
      (clear_pool (length (ran-IsValid.items 5) + 1) 5 ran.heap)
clear_pool-Cleared_example =
    clear_pool-Cleared ran-IsValid.counted (omega arith) 5 (length (ran-IsValid.items 5) + 1)
      (omega arith)
