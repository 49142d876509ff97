-- ===== src/Memory/Assigning.antt =====
-- The assignments of `MessagePtr`.
use livio_ark.Prelude.{
  ℕ, zero, suc, ◌+◌, ◌^◌, ◌<◌, ◌≡◌, refl, sym, ap, ◌∙◌, inl, inr, Bool-cases, true, false, Option,
  none, some, ◌==◌, if◌then◌else◌, List, [], ◌∷◌, length, arith,
}
use livio_ark.Memory.Pointers.{
  Memory, same_ptr, ptr_at, set_ptr, reset, point_to, copy_assign, move_assign,
}
use livio_ark.Memory.Owners.{
  points, owners, owners-set_ptr, owners-there, length-set_ptr, ptr_at-set_ptr, set_ptr-same,
}
use livio_ark.Memory.Counted.{recounted}
use livio_ark.Memory.Safe.{
  IsValid, Gives, Clears-IsValid, IsValid-later, reset-Clears, point_to-IsValid,
}

same_ptr→eq : (x y : Option ℕ) → same_ptr x y ≡ true → x ≡ y
same_ptr→eq none none e = refl
same_ptr→eq none (some q) e = cc
same_ptr→eq (some p) none e = cc
same_ptr→eq (some p) (some q) e = ap some (ground arith)

pub eq→same_ptr : (x y : Option ℕ) → x ≡ y → same_ptr x y ≡ true
eq→same_ptr none none e = refl
eq→same_ptr none (some q) e = cc
eq→same_ptr (some p) none e = cc
eq→same_ptr (some p) (some q) e = ground arith

set_ptr-set_ptr :
    (i : ℕ) (x y : Option ℕ) (ptrs : List (Option ℕ))
    → set_ptr i x (set_ptr i y ptrs) ≡ set_ptr i x ptrs
set_ptr-set_ptr i x y [] = refl
set_ptr-set_ptr zero x y (z ∷ zs) = refl
set_ptr-set_ptr (suc i) x y (z ∷ zs) = ap (λ ps. z ∷ ps) (set_ptr-set_ptr i x y zs)

module _ {n : ℕ} {m : Memory} (v : IsValid n m) (few : n + 1 < 2 ^ 31) (i o : ℕ)
    (i_in : i < length m.ptrs) (o_in : o < length m.ptrs) where
  -- The pointers after `reset` of the assigned variable.
  abbrev cleared : List (Option ℕ)
  cleared = set_ptr i none m.ptrs

  cleared_at : ptr_at i cleared ≡ none
  cleared_at = ground (arith, ptr_at-set_ptr i i none m.ptrs i_in)

  cleared_other : (i ≡ o → ⊥) → ptr_at o cleared ≡ ptr_at o m.ptrs
  cleared_other apart = ground (arith, ptr_at-set_ptr i o none m.ptrs i_in)

  copy_assign-same :
      same_ptr (ptr_at i m.ptrs) (ptr_at o m.ptrs) ≡ true → copy_assign i o m ≡ some m
  unfolding copy_assign
  copy_assign-same e = rw (copy_assign, e) refl

  copy_assign-reset :
      (m' : Memory)
      → same_ptr (ptr_at i m.ptrs) (ptr_at o m.ptrs) ≡ false
      → reset i m ≡ some m'
      → copy_assign i o m ≡ point_to i (ptr_at o m'.ptrs) m'
  unfolding copy_assign
  copy_assign-reset m' differ e = rw (copy_assign, differ, e) refl

  apart_if : same_ptr (ptr_at i m.ptrs) (ptr_at o m.ptrs) ≡ false → i ≡ o → ⊥
  apart_if differ e =
      let same = eq→same_ptr (ptr_at i m.ptrs) (ptr_at o m.ptrs) (ap (λ k. ptr_at k m.ptrs) e) in cc

  -- Assigning one MessagePtr to another, both variables of the program, with fewer than 2 ^ 31 - 1
  -- operations before, succeeds, makes the one point to what the other points to, leaves every
  -- other variable as it was, and keeps the counts right, an assignment of a variable to itself or
  -- to one with the same object included.
  pub copy_assign-Gives : Gives (n + 1) (set_ptr i (ptr_at o m.ptrs) m.ptrs) (copy_assign i o m)
  copy_assign-Gives = elim (Bool-cases (same_ptr (ptr_at i m.ptrs) (ptr_at o m.ptrs))) [
    | inl e ↦
        let same = same_ptr→eq (ptr_at i m.ptrs) (ptr_at o m.ptrs) e in
        (
          m,
          copy_assign-same e,
          sym (ap (λ x. set_ptr i x m.ptrs) (sym same) ∙ set_ptr-same i m.ptrs),
          IsValid-later v,
        )
    | inr e ↦
        let q = reset-Clears v (omega arith) i i_in in
        let m1 : Memory = record { heap = q.after; ptrs = cleared } in
        let other = cleared_other (apart_if e) in
        let (m', given, ptrs, w) =
          point_to-IsValid (Clears-IsValid v (omega arith) i q) few i (ptr_at o cleared)
            (omega (arith, length-set_ptr i none m.ptrs)) cleared_at
            (λ p there. owners-there o cleared p there) in
        (
          m',
          copy_assign-reset m1 e q.result ∙ given,
          ptrs
              ∙ ap (λ x. set_ptr i x cleared) other
              ∙ set_ptr-set_ptr i (ptr_at o m.ptrs) none m.ptrs,
          w,
        )
  ]

  move_assign-same : (i == o) ≡ true → move_assign i o m ≡ some m
  unfolding move_assign
  move_assign-same e = rw (move_assign, e) refl

  move_assign-reset :
      (m' : Memory)
      → (i == o) ≡ false
      → reset i m ≡ some m'
      → move_assign i o m
        ≡ some (record m' { ptrs = set_ptr o none (set_ptr i (ptr_at o m'.ptrs) m'.ptrs) })
  unfolding move_assign
  move_assign-reset m' differ e = rw (move_assign, differ, e) refl

  -- The pointer goes from one variable to the other, so each object has the owners that it had.
  moved-owners :
      (k : ℕ)
      → (i ≡ o → ⊥)
      → owners (set_ptr o none (set_ptr i (ptr_at o cleared) cleared)) k ≡ owners cleared k
  moved-owners k apart =
      let x = ptr_at o cleared in
      let put_in = owners-set_ptr i x cleared k (omega (arith, length-set_ptr i none m.ptrs)) in
      let taken_out =
        owners-set_ptr o none (set_ptr i x cleared) k
          (omega (arith, length-set_ptr i x cleared, length-set_ptr i none m.ptrs)) in
      let nothing = ap (points k) cleared_at in
      let there : ptr_at o (set_ptr i x cleared) ≡ x =
        ground
          (arith, ptr_at-set_ptr i o x cleared (omega (arith, length-set_ptr i none m.ptrs))) in
      let same = ap (points k) there in omega (arith, put_in, taken_out, nothing, same)

  pub move_assign-Gives :
      Gives
        (n + 1)
        (if i == o then m.ptrs else set_ptr o none (set_ptr i (ptr_at o m.ptrs) m.ptrs))
        (move_assign i o m)
  move_assign-Gives = elim (Bool-cases (i == o)) [
    | inl e ↦ (m, move_assign-same e, rw e refl, IsValid-later v)
    | inr e ↦
        let apart : i ≡ o → ⊥ = λ eq. ground arith in
        let q = reset-Clears v (omega arith) i i_in in
        let m1 : Memory = record { heap = q.after; ptrs = cleared } in
        let w = Clears-IsValid v (omega arith) i q in
        let ptrs = set_ptr o none (set_ptr i (ptr_at o cleared) cleared) in
        (
          record m1 { ptrs = ptrs },
          move_assign-reset m1 e q.result,
          rw (e, cleared_other apart, set_ptr-set_ptr i (ptr_at o m.ptrs) none m.ptrs) refl,
          record {
            few_ptrs = omega (
              arith,
              length-set_ptr o none (set_ptr i (ptr_at o cleared) cleared),
              length-set_ptr i (ptr_at o cleared) cleared,
              w.few_ptrs,
            );
            items = w.items;
            counted = recounted w.counted (owners ptrs) (λ k. moved-owners k apart);
          },
        )
  ]
