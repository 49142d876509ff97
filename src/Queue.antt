-- ===== src/Queue.antt =====
-- `LockFreeQueue` of include/livioark/msgbus/lock_free_queue.h, in the calls of one thread at a
-- time. `size_t` is a number below 2 ^ 64, and wraps.
mod Tests
pub mod Index
pub mod Fifo
pub mod Rounding
use Prim.Native.Nat.{bit_and, bit_or}
use livio_ark.Prelude.{
  ℕ, zero, suc, ◌+◌, ◌-◌, ◌/◌, ◌%◌, ◌^◌, Bool, true, false, Option, none, some, ◌==◌, ltb,
  if◌then◌else◌,
}

abbrev pub sizes : ℕ
sizes = 2 ^ 64

-- `value` is absent in a cell whose object was never set or was moved from.
pub record Cell {ℓ} (A : Type ℓ) : Type ℓ where
  pub sequence : ℕ
  pub value : Option A

pub record Queue {ℓ} (A : Type ℓ) : Type ℓ where
  pub capacity : ℕ
  pub mask : ℕ
  pub buffer : ℕ → Cell A
  pub enqueue_pos : ℕ
  pub dequeue_pos : ℕ

-- `v |= v >> k`
abbrev pub smear : ℕ → ℕ → ℕ
smear k v = bit_or v (v / 2 ^ k)

unfoldable pub round_up_power_of_2 : ℕ → ℕ
round_up_power_of_2 v =
    let ones =
      smear 32 (smear 16 (smear 8 (smear 4 (smear 2 (smear 1 ((v + sizes - 1) % sizes)))))) in
    let w = (ones + 1) % sizes in if ltb w 2 then 2 else w

-- `diff < 0` for `intptr_t` values of the two positions: adding 2 ^ 63 turns the signed order
-- into the order of numbers.
abbrev pub is_behind : ℕ → ℕ → Bool
is_behind seq pos = ltb ((seq + 2 ^ 63) % sizes) ((pos + 2 ^ 63) % sizes)

module _ {ℓ} {A : Type ℓ} where
  unfoldable pub new_queue : ℕ → Queue A
  unfolding round_up_power_of_2
  new_queue capacity =
      let rounded = round_up_power_of_2 (if ltb capacity 2 then 2 else capacity) in
      record {
        capacity = rounded;
        mask = rounded - 1;
        buffer = λ i. record { sequence = i; value = none };
        enqueue_pos = 0;
        dequeue_pos = 0;
      }

  abbrev pub set_cell : ℕ → Cell A → (ℕ → Cell A) → ℕ → Cell A
  set_cell i c buffer j = if i == j then c else buffer j

  -- The loop, from a round that starts with `pos`. With one thread the compare-exchange finds
  -- `enqueue_pos` as it was loaded. `none` means that the fuel ran out.
  pub enqueue_loop : ℕ → ℕ → A → Queue A → Option (Queue A × Bool)
  enqueue_loop zero pos x q = none
  enqueue_loop (suc f) pos x q =
      let i = bit_and pos q.mask in
      let seq = (q.buffer i).sequence in
      let again = enqueue_loop f q.enqueue_pos x q in
      if seq == pos
      then some (
        record q {
          enqueue_pos = (pos + 1) % sizes;
          buffer = set_cell i (record { sequence = (pos + 1) % sizes; value = some x }) q.buffer;
        },
        true,
      )
      else if is_behind seq pos
      then some (q, false)
      else again

  -- One round is enough for one thread: a second would read what the first read.
  unfoldable pub try_enqueue : A → Queue A → Option (Queue A × Bool)
  unfolding enqueue_loop
  try_enqueue x q = enqueue_loop 1 q.enqueue_pos x q

  -- `value` of the caller stays as it was where the result is false.
  pub dequeue_loop : ℕ → ℕ → Queue A → Option (Queue A × Option A × Bool)
  dequeue_loop zero pos q = none
  dequeue_loop (suc f) pos q =
      let i = bit_and pos q.mask in
      let seq = (q.buffer i).sequence in
      let again = dequeue_loop f q.dequeue_pos q in
      if seq == (pos + 1) % sizes
      then some (
        record q {
          dequeue_pos = (pos + 1) % sizes;
          buffer =
              set_cell i (record { sequence = (pos + q.mask + 1) % sizes; value = none }) q.buffer;
        },
        (q.buffer i).value,
        true,
      )
      else if is_behind seq ((pos + 1) % sizes)
      then some (q, none, false)
      else again

  unfoldable pub try_dequeue : Queue A → Option (Queue A × Option A × Bool)
  unfolding dequeue_loop
  try_dequeue q = dequeue_loop 1 q.dequeue_pos q
