-- ===== src/Queue/Tests.antt =====
-- A queue of four cells, and the properties there.
use livio_ark.Prelude.{
  ℕ, ◌*◌, ◌^◌, ◌≤◌, ◌≡◌, ◌<◌, ◌⊎◌, refl, true, false, [], ◌∷◌, ◌++◌, none, some, length, arith,
}
use livio_ark.Queue.{Queue, round_up_power_of_2, new_queue, try_enqueue, try_dequeue}
use livio_ark.Queue.Rounding.{round_up_power_of_2-smallest}
use livio_ark.Queue.Fifo.{Holds, Dequeued, try_enqueue-Holds, try_dequeue-Holds}

round_up_five : round_up_power_of_2 5 ≡ 8
unfolding round_up_power_of_2
round_up_five = refl

abbrev four_cells : Queue ℕ
four_cells = record {
  capacity = 4;
  mask = 3;
  buffer = λ i. record { sequence = i; value = none };
  enqueue_pos = 0;
  dequeue_pos = 0;
}

new_queue_three : (new_queue {A = ℕ} 3) ≡ four_cells
unfolding new_queue round_up_power_of_2
new_queue_three = refl

four_cells-Holds : Holds [] four_cells
four_cells-Holds = record {
  exponent = 2;
  sized = refl;
  two = omega arith;
  masked = refl;
  tail = refl;
  fits = omega arith;
  filled = λ i x e. absurd (ground arith);
  free = λ i le lt. omega arith;
}

try_enqueue-Holds_example :
    ((length {A = ℕ} [] < 4)
      × ((q' : Queue ℕ) × (try_enqueue 9 four_cells ≡ some (q', true))
          × Holds ([] ++ 9 ∷ []) q'
          × (q'.capacity ≡ 4)))
    ⊎ ((length {A = ℕ} [] ≡ 4) × (try_enqueue 9 four_cells ≡ some (four_cells, false)))
try_enqueue-Holds_example = try_enqueue-Holds [] four_cells 9 four_cells-Holds (omega arith)

try_dequeue-Holds_example : Dequeued four_cells [] (try_dequeue four_cells)
try_dequeue-Holds_example = try_dequeue-Holds [] four_cells four_cells-Holds (omega arith)

round_up_power_of_2-smallest_example :
    (k : ℕ) × (round_up_power_of_2 65537 ≡ 2 ^ k) × (65537 ≤ 2 ^ k) × (2 ^ k < 2 * 65537)
round_up_power_of_2-smallest_example =
    round_up_power_of_2-smallest 65537 (omega arith) (omega arith)
