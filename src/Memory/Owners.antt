-- ===== src/Memory/Owners.antt =====
-- How many variables point to an object.
use livio_ark.Prelude.{
  ℕ, zero, suc, ◌+◌, ◌≤◌, ◌<◌, ◌≡◌, refl, ap, Option, none, some, ◌==◌, if◌then◌else◌, List, [],
  ◌∷◌, ◌++◌, tally, tally-append, indicator, length, arith,
}
use livio_ark.Memory.Pointers.{ptr_at, set_ptr}

abbrev pub points : ℕ → Option ℕ → ℕ
points q none = 0
points q (some p) = indicator (p == q)

abbrev pub owners : List (Option ℕ) → ℕ → ℕ
owners ptrs q = tally (points q) ptrs

pub owners-append :
    (ptrs : List (Option ℕ)) (o : Option ℕ) (q : ℕ)
    → owners (ptrs ++ o ∷ []) q ≡ owners ptrs q + points q o
owners-append ptrs o q = omega (arith, tally-append (points q) ptrs (o ∷ []))

pub owners-set_ptr :
    (i : ℕ) (o : Option ℕ) (ptrs : List (Option ℕ)) (q : ℕ)
    → i < length ptrs
    → owners (set_ptr i o ptrs) q + points q (ptr_at i ptrs) ≡ owners ptrs q + points q o
owners-set_ptr i o [] q b = absurd (omega arith)
owners-set_ptr zero o (x ∷ xs) q b = omega arith
owners-set_ptr (suc i) o (x ∷ xs) q b = omega (arith, owners-set_ptr i o xs q (omega arith))

points-le : (q : ℕ) (o : Option ℕ) → points q o ≤ 1
points-le q none = omega arith
points-le q (some p) = ground arith

pub owners-le : (ptrs : List (Option ℕ)) (q : ℕ) → owners ptrs q ≤ length ptrs
owners-le [] q = omega arith
owners-le (x ∷ xs) q = omega (arith, owners-le xs q, points-le q x)

pub owners-there :
    (i : ℕ) (ptrs : List (Option ℕ)) (p : ℕ) → ptr_at i ptrs ≡ some p → 0 < owners ptrs p
owners-there i [] p e = cc
owners-there zero (x ∷ xs) p e = rw e ground arith
owners-there (suc i) (x ∷ xs) p e = omega (arith, owners-there i xs p e)

pub length-set_ptr :
    (i : ℕ) (o : Option ℕ) (ptrs : List (Option ℕ)) → length (set_ptr i o ptrs) ≡ length ptrs
length-set_ptr i o [] = refl
length-set_ptr zero o (x ∷ xs) = refl
length-set_ptr (suc i) o (x ∷ xs) = ap suc (length-set_ptr i o xs)

pub ptr_at-set_ptr :
    (i j : ℕ) (o : Option ℕ) (ptrs : List (Option ℕ))
    → i < length ptrs
    → ptr_at j (set_ptr i o ptrs) ≡ (if i == j then o else ptr_at j ptrs)
ptr_at-set_ptr i j o [] b = absurd (omega arith)
ptr_at-set_ptr zero zero o (x ∷ xs) b = ground arith
ptr_at-set_ptr zero (suc j) o (x ∷ xs) b = ground arith
ptr_at-set_ptr (suc i) zero o (x ∷ xs) b = ground arith
ptr_at-set_ptr (suc i) (suc j) o (x ∷ xs) b = ground (arith, ptr_at-set_ptr i j o xs (omega arith))

pub set_ptr-same : (i : ℕ) (ptrs : List (Option ℕ)) → set_ptr i (ptr_at i ptrs) ptrs ≡ ptrs
set_ptr-same i [] = refl
set_ptr-same zero (x ∷ xs) = refl
set_ptr-same (suc i) (x ∷ xs) = ap (λ ys. x ∷ ys) (set_ptr-same i xs)
