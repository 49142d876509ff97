-- ===== src/Queue/Rounding.antt =====
-- `roundUpPowerOf2`: what its shifts leave, bit by bit from the highest.
use Prim.Native.Nat.{max, bit_or, digits, bit_or-bitwise}
use mathlib.Core.Path.{subst}
use native.Mathlib.Nat.{
  pow-suc, pow-succ', pow-le-pow_right, mod-eq_of_lt, div-div-eq-div-mul, zero-div,
}
use native.Mathlib.Decide.{dec_lt}
use livio_ark.Prelude.{
  ℕ, zero, suc, ◌+◌, ◌-◌, ◌*◌, ◌/◌, ◌%◌, ◌^◌, ◌≤◌, ◌<◌, ◌≡◌, refl, sym, ap, ◌∙◌, if◌then◌else◌, ltb,
  [], arith,
}
use livio_ark.Queue.{sizes, smear, round_up_power_of_2, new_queue}
use livio_ark.Queue.Fifo.{Holds}

-- A number of digits that is enough gives the same as any other.
or_digits-enough :
    (n m a b : ℕ) → a ≤ n → a ≤ m → digits (λ c. c) max n a b ≡ digits (λ c. c) max m a b
or_digits-enough zero zero a b p q = refl
or_digits-enough zero (suc m) zero b p q = refl
or_digits-enough zero (suc m) (suc a) b p q = absurd (omega arith)
or_digits-enough (suc n) zero zero b p q = refl
or_digits-enough (suc n) zero (suc a) b p q = absurd (omega arith)
or_digits-enough (suc n) (suc m) zero b p q = refl
or_digits-enough (suc n) (suc m) (suc a) b p q =
    omega (arith, or_digits-enough n m (suc a / 2) (b / 2) (omega arith) (omega arith))

-- The lowest digit and the others.
bit_or-halves : (a b : ℕ) → bit_or a b ≡ bit_or (a / 2) (b / 2) * 2 + max (a % 2) (b % 2)
bit_or-halves zero b = omega (arith, bit_or-bitwise 0 b, bit_or-bitwise 0 (b / 2))
bit_or-halves (suc a) b = omega (
  arith,
  bit_or-bitwise (suc a) b,
  bit_or-bitwise (suc a / 2) (b / 2),
  or_digits-enough a (suc a / 2) (suc a / 2) (b / 2) (omega arith) (omega arith),
)

-- `x` has at most `n` digits, and the highest `j` of these are ones.
abbrev Tops : ℕ → ℕ → ℕ → Type 0
Tops j zero x = x ≡ 0
Tops j (suc n) x = Tops j n (x / 2) × (suc n ≤ j → x % 2 ≡ 1)

shift-suc : (x k : ℕ) → x / 2 ^ suc k ≡ x / 2 / 2 ^ k
shift-suc x k = ap (λ (d : ℕ). x / d) (pow-succ' 2 k) ∙ sym (div-div-eq-div-mul x 2 (2 ^ k))

shift_past_half : (x k : ℕ) → x / 2 ^ k / 2 ≡ x / 2 / 2 ^ k
shift_past_half x k =
    div-div-eq-div-mul x (2 ^ k) 2 ∙ ap (λ (d : ℕ). x / d) (sym (pow-suc 2 k)) ∙ shift-suc x k

Tops-shifted : (j k n m x : ℕ) → m ≡ n + k → Tops j m x → Tops j n (x / 2 ^ k)
Tops-shifted j zero n m x e t =
    let e' : m ≡ n = omega arith in let same : x / 2 ^ 0 ≡ x = omega arith in rw same (rw (← e') t)
Tops-shifted j (suc k) n zero x e t = absurd (omega arith)
Tops-shifted j (suc k) n (suc m) x e (t, top) =
    rw (shift-suc x k) (Tops-shifted j k n m (x / 2) (omega arith) t)

-- Where there are no more than `j` digits, they are ones.
lowest_one : (j n x : ℕ) → 0 < n → n ≤ j → Tops j n x → x % 2 ≡ 1
lowest_one j zero x some_digit few t = absurd (omega arith)
lowest_one j (suc n) x some_digit few (t, top) = top few

-- `v |= v >> k` makes the next `k` digits ones too.
Tops-smear : (j k n x : ℕ) → k ≤ j → Tops j n x → Tops (j + k) n (smear k x)
Tops-smear j k zero x le t = ap (smear k) t ∙ bit_or-bitwise 0 (0 / 2 ^ k) ∙ zero-div (2 ^ k)
Tops-smear j k (suc n) x le (t, top) =
    (subst (Tops (j + k) n) (sym halved) (Tops-smear j k n (x / 2) le t), lowest)
  where
    halved : smear k x / 2 ≡ smear k (x / 2)
    halved = omega (arith, bit_or-halves x (x / 2 ^ k), ap (bit_or (x / 2)) (shift_past_half x k))

    by_shift : (suc n ≤ j → ⊥) → suc n ≤ j + k → x / 2 ^ k % 2 ≡ 1
    by_shift more few =
        lowest_one j (suc n - k) (x / 2 ^ k) (omega arith) (omega arith)
          (Tops-shifted j k (suc n - k) (suc n) x (omega arith) (t, top))

    lowest : suc n ≤ j + k → smear k x % 2 ≡ 1
    lowest few = elim (dec_lt j (suc n)) [
      | yes more ↦ omega (arith, bit_or-halves x (x / 2 ^ k), by_shift (λ le'. omega arith) few)
      | no all ↦ omega (arith, bit_or-halves x (x / 2 ^ k), top (omega arith))
    ]

Tops-lt : (j n x : ℕ) → Tops j n x → x < 2 ^ n
Tops-lt j zero x t = omega arith
Tops-lt j (suc n) x (t, top) = omega (arith, Tops-lt j n (x / 2) t, pow-suc 2 n)

Tops-ones : (j n x : ℕ) → n ≤ j → Tops j n x → x + 1 ≡ 2 ^ n
Tops-ones j zero x all t = omega arith
Tops-ones j (suc n) x all (t, top) =
    omega (arith, Tops-ones j n (x / 2) (omega arith) t, top all, pow-suc 2 n)

Tops-ge : (n x : ℕ) → Tops 1 (suc n) x → 2 ^ n ≤ x
Tops-ge zero x (t, top) = omega (arith, top (omega arith))
Tops-ge (suc n) x (t, top) = omega (arith, Tops-ge n (x / 2) t, pow-suc 2 n)

-- A positive number has a highest digit.
highest : (fuel x : ℕ) → 0 < x → x ≤ fuel → (n : ℕ) × Tops 1 (suc n) x
highest zero x some_digit le = absurd (omega arith)
highest (suc fuel) x some_digit le = elim (dec_lt x 2) [
  | yes one ↦ (0, (omega arith, λ le'. omega arith))
  | no more ↦
      let (n, t) = highest fuel (x / 2) (omega arith) (omega arith) in
      (suc n, (t, λ few. absurd (omega arith)))
]

abbrev smeared : ℕ → ℕ
smeared x = smear 32 (smear 16 (smear 8 (smear 4 (smear 2 (smear 1 x)))))

Tops-smeared : (n x : ℕ) → Tops 1 n x → Tops 64 n (smeared x)
Tops-smeared n x t = Tops-smear 32 32 n _ (omega arith) (
    Tops-smear 16 16 n _ (omega arith) (
      Tops-smear 8 8 n _ (omega arith) (
        Tops-smear 4 4 n _ (omega arith)
          (Tops-smear 2 2 n _ (omega arith) (Tops-smear 1 1 n x (omega arith) t)))))

round_up_power_of_2-smeared :
    (v x : ℕ)
    → (v + sizes - 1) % sizes ≡ x
    → round_up_power_of_2 v
      ≡ (if ltb ((smeared x + 1) % sizes) 2 then 2 else (smeared x + 1) % sizes)
unfolding round_up_power_of_2
round_up_power_of_2-smeared v x e = rw (← e) refl

at_least_two : (w : ℕ) → 2 ≤ w → (if ltb w 2 then 2 else w) ≡ w
at_least_two w h = ground arith

few_digits : (n x : ℕ) → 2 ^ n ≤ x → x < 2 ^ 62 → n < 62
few_digits n x low bound = elim (dec_lt n 62) [
  | yes few ↦ few
  | no many ↦
      let more : 2 ^ 62 ≤ 2 ^ n =
        pow-le-pow_right {n = 2} (omega arith) {i = 62} {j = n} (omega arith) in
      absurd (omega (arith, more))
]

-- roundUpPowerOf2 of a number from 2 to 2 ^ 62 is a power of two that is not below the number and
-- is below twice the number.
pub round_up_power_of_2-smallest :
    (v : ℕ)
    → 2 ≤ v
    → v ≤ 2 ^ 62
    → (k : ℕ) × (round_up_power_of_2 v ≡ 2 ^ k) × (v ≤ 2 ^ k) × (2 ^ k < 2 * v)
round_up_power_of_2-smallest v two bound =
    let (n, t) = highest (v - 1) (v - 1) (omega arith) (omega arith) in
    let low = Tops-ge n (v - 1) t in
    let high = Tops-lt 1 (suc n) (v - 1) t in
    let double = pow-suc 2 n in
    let few = few_digits n (v - 1) low (omega arith) in
    let ones =
      Tops-ones 64 (suc n) (smeared (v - 1)) (omega arith) (Tops-smeared (suc n) (v - 1) t) in
    let room : 2 ^ suc n ≤ 2 ^ 63 =
      pow-le-pow_right {n = 2} (omega arith) {i = suc n} {j = 63} (omega arith) in
    let same : (smeared (v - 1) + 1) % sizes ≡ 2 ^ suc n =
      ap (λ (w : ℕ). w % sizes) ones ∙ mod-eq_of_lt (omega (arith, room)) in
    (
      suc n,
      round_up_power_of_2-smeared v (v - 1) (omega arith)
          ∙ ap (λ w. if ltb w 2 then 2 else w) same
          ∙ at_least_two (2 ^ suc n) (omega (arith, low, double)),
      omega (arith, high),
      omega (arith, low, double),
    )

-- A new queue is empty, and its capacity is the least power of two from the one that was asked for.
pub new_queue-Holds :
    {A : Type 0} (capacity : ℕ)
    → capacity ≤ 2 ^ 62
    → Holds {A = A} [] (new_queue capacity)
      × (capacity ≤ (new_queue {A = A} capacity).capacity)
      × ((new_queue {A = A} capacity).capacity < 2 * max capacity 2)
unfolding new_queue
new_queue-Holds {A = A} capacity bound =
    let asked = if ltb capacity 2 then 2 else capacity in
    let (k, e, le, lt) = round_up_power_of_2-smallest asked (ground arith) (ground arith) in
    (
      record {
        exponent = k;
        sized = e;
        two = ground (arith, e, le);
        masked = refl;
        tail = omega arith;
        fits = omega arith;
        filled = λ i x at_i. cc;
        free = λ i ge below. mod-eq_of_lt (omega (arith, below));
      },
      ground (arith, e, le),
      ground (arith, e, lt),
    )

pub new_queue-start : (A : Type 0) (capacity : ℕ) → (new_queue {A = A} capacity).enqueue_pos ≡ 0
unfolding new_queue
new_queue-start A capacity = refl
