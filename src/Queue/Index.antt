-- ===== src/Queue/Index.antt =====
-- `pos & mask_` is the remainder by the capacity, a power of two, and different offsets below the
-- capacity have different cells.
use Prim.Native.Nat.{min, bit_and, digits, bit_and-bitwise}
use native.Mathlib.Nat.{
  pow-suc, mul-suc, mod-lt, mod-eq_of_lt, div-add-mod, mul-add-mod_self_left, mul-le-mul_left,
}
use native.Mathlib.Decide.{dec_lt}
use livio_ark.Prelude.{
  ℕ, zero, suc, ◌+◌, ◌-◌, ◌*◌, ◌/◌, ◌%◌, ◌^◌, ◌≤◌, ◌<◌, ◌≡◌, sym, ap, ◌∙◌, arith,
}

pow-pos : (k : ℕ) → 0 < 2 ^ k
pow-pos zero = omega arith
pow-pos (suc k) = omega (arith, pow-suc 2 k, pow-pos k)

mod-halves : (a m : ℕ) → 0 < m → a % (m * 2) ≡ a / 2 % m * 2 + a % 2
mod-halves a m h =
    ap (λ (z : ℕ). z % (m * 2)) whole
    ∙ mul-add-mod_self_left (m * 2) (a / 2 / m) low
    ∙ mod-eq_of_lt (omega (arith, mod-lt (a / 2) h))
  where
    low : ℕ
    low = a / 2 % m * 2 + a % 2

    whole : a ≡ m * 2 * (a / 2 / m) + low
    whole = omega (arith, div-add-mod (a / 2) m)

half_mask : (k : ℕ) → (2 ^ suc k - 1) / 2 ≡ 2 ^ k - 1
half_mask k = omega (arith, pow-suc 2 k, pow-pos k)

-- The digits of `a` under a mask of `k` ones, lowest first.
masked_digits : (n a k : ℕ) → a ≤ n → digits (λ b. zero) min n a (2 ^ k - 1) ≡ a % 2 ^ k
masked_digits zero zero k h = sym (mod-eq_of_lt (pow-pos k))
masked_digits (suc n) zero k h = sym (mod-eq_of_lt (pow-pos k))
masked_digits zero (suc a) k h = absurd (omega arith)
masked_digits (suc n) (suc a) zero h = omega (arith, masked_digits n (suc a / 2) zero (omega arith))
masked_digits (suc n) (suc a) (suc k) h = omega (
  arith,
  masked_digits n (suc a / 2) k (omega arith),
  ap (digits (λ b. zero) min n (suc a / 2)) (half_mask k),
  pow-suc 2 k,
  pow-pos k,
  ap (λ (m : ℕ). suc a % m) (pow-suc 2 k),
  mod-halves (suc a) (2 ^ k) (pow-pos k),
)

-- A mask of `k` ones takes the remainder by 2 ^ k.
pub bit_and_mask : (k a : ℕ) → bit_and a (2 ^ k - 1) ≡ a % 2 ^ k
bit_and_mask k a = bit_and-bitwise a (2 ^ k - 1) ∙ masked_digits a a k (omega arith)

below : (d c i j : ℕ) → i < c → j < c → (d + i) % c ≡ (d + j) % c → (d + i) / c < (d + j) / c → ⊥
below d c i j p q e lt = omega (
  arith,
  div-add-mod (d + i) c,
  div-add-mod (d + j) c,
  mul-le-mul_left c lt,
  mul-suc c ((d + i) / c),
)

pub mod-injective : (d c i j : ℕ) → i < c → j < c → (d + i) % c ≡ (d + j) % c → i ≡ j
mod-injective d c i j p q e = elim (dec_lt ((d + i) / c) ((d + j) / c)) [
  | yes lt ↦ absurd (below d c i j p q e lt)
  | no ge ↦ elim (dec_lt ((d + j) / c) ((d + i) / c)) [
    | yes gt ↦ absurd (below d c j i q p (sym e) gt)
    | no le ↦
        let same : (d + i) / c ≡ (d + j) / c = omega arith in
        omega (arith, div-add-mod (d + i) c, div-add-mod (d + j) c, ap (λ (t : ℕ). c * t) same)
  ]
]
