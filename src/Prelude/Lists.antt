-- ===== src/Prelude/Lists.antt =====
-- Lengths, sums over a list, and tests on its elements.
use Prim.Native.Nat.{ℕ, zero, suc, ◌+◌, ◌<◌}
use mathlib.Core.Path.{◌≡◌, refl}
use mathlib.Core.Bool.{Bool, true, false}
use mathlib.Core.Option.{Option, none, some}
use mathlib.Core.List.{List, [], ◌∷◌, ◌++◌, map}
use native.Mathlib.Omega.{arith}
use livio_ark.Prelude.Tests.{◌==◌, if◌then◌else◌, indicator}

module _ {ℓ} {A : Type ℓ} where
  abbrev pub length : List A → ℕ
  length [] = 0
  length (x ∷ xs) = suc (length xs)

  abbrev pub is_nil : List A → Bool
  is_nil [] = true
  is_nil (_ ∷ _) = false

  abbrev pub get_elem? : List A → ℕ → Option A
  get_elem? [] i = none
  get_elem? (x ∷ xs) zero = some x
  get_elem? (x ∷ xs) (suc i) = get_elem? xs i

  pub get_elem?-append_last :
      (xs : List A) (x : A) (i : ℕ)
      → get_elem? (xs ++ x ∷ []) i ≡ (if i == length xs then some x else get_elem? xs i)
  get_elem?-append_last [] x zero = refl
  get_elem?-append_last [] x (suc i) = ground arith
  get_elem?-append_last (y ∷ xs) x zero = ground arith
  get_elem?-append_last (y ∷ xs) x (suc i) = ground (arith, get_elem?-append_last xs x i)

  pub get_elem?-lt : (xs : List A) (i : ℕ) (x : A) → get_elem? xs i ≡ some x → i < length xs
  get_elem?-lt [] i x e = cc
  get_elem?-lt (y ∷ xs) zero x e = omega arith
  get_elem?-lt (y ∷ xs) (suc i) x e = omega (arith, get_elem?-lt xs i x e)

  pub get_elem?-zero : (xs : List A) → get_elem? xs 0 ≡ none → length xs ≡ 0
  get_elem?-zero [] e = refl
  get_elem?-zero (x ∷ xs) e = cc

  pub length-append : (xs ys : List A) → length (xs ++ ys) ≡ length xs + length ys
  length-append [] ys = omega arith
  length-append (x ∷ xs) ys = omega (arith, length-append xs ys)

  -- The sum of `f` over the elements: with every `f`, it tells how often each element occurs.
  abbrev pub tally : (A → ℕ) → List A → ℕ
  tally f [] = 0
  tally f (x ∷ xs) = f x + tally f xs

  pub tally-append : (f : A → ℕ) (xs ys : List A) → tally f (xs ++ ys) ≡ tally f xs + tally f ys
  tally-append f [] ys = omega arith
  tally-append f (x ∷ xs) ys = omega (arith, tally-append f xs ys)

  pub tally-ext : (f g : A → ℕ) → ((a : A) → f a ≡ g a) → (xs : List A) → tally f xs ≡ tally g xs
  tally-ext f g h [] = refl
  tally-ext f g h (x ∷ xs) = omega (arith, h x, tally-ext f g h xs)

  pub tally-zero : (f : A → ℕ) → ((a : A) → f a ≡ 0) → (xs : List A) → tally f xs ≡ 0
  tally-zero f h [] = refl
  tally-zero f h (x ∷ xs) = omega (arith, h x, tally-zero f h xs)

  pub tally-add : (f g : A → ℕ) (xs : List A) → tally (λ a. f a + g a) xs ≡ tally f xs + tally g xs
  tally-add f g [] = refl
  tally-add f g (x ∷ xs) = omega (arith, tally-add f g xs)

  pub tally-if :
      (b : Bool) (f : A → ℕ) (xs : List A)
      → tally (λ a. if b then f a else 0) xs ≡ (if b then tally f xs else 0)
  tally-if true f xs = refl
  tally-if false f xs = tally-zero (λ a. 0) (λ a. refl) xs

  -- The elements that pass the test, in order.
  abbrev pub keep : (A → Bool) → List A → List A
  keep p [] = []
  keep p (x ∷ xs) = let rest = keep p xs in if p x then x ∷ rest else rest

  pub keep-append : (p : A → Bool) (xs ys : List A) → keep p (xs ++ ys) ≡ keep p xs ++ keep p ys
  keep-append p [] ys = refl
  keep-append p (x ∷ xs) ys = ground (arith, keep-append p xs ys)

  pub append_nil_left : (xs ys : List A) → xs ++ ys ≡ [] → xs ≡ []
  append_nil_left [] ys e = refl
  append_nil_left (x ∷ xs) ys e = cc

  pub append_nil_right : (xs ys : List A) → xs ++ ys ≡ [] → ys ≡ []
  append_nil_right [] ys e = e
  append_nil_right (x ∷ xs) ys e = cc

  pub tally-keep :
      (f : A → ℕ) (p : A → Bool) (xs : List A)
      → tally f (keep p xs) ≡ tally (λ a. if p a then f a else 0) xs
  tally-keep f p [] = refl
  tally-keep f p (x ∷ xs) = ground (arith, tally-keep f p xs)

  pub length-keep :
      (p : A → Bool) (xs : List A) → length (keep p xs) ≡ tally (λ a. indicator (p a)) xs
  length-keep p [] = refl
  length-keep p (x ∷ xs) = ground (arith, length-keep p xs)

  pub tally-one : (xs : List A) → tally (λ a. 1) xs ≡ length xs
  tally-one [] = refl
  tally-one (x ∷ xs) = omega (arith, tally-one xs)

  -- Where no element passes the test, a sum over those that pass is 0.
  pub tally-if_none :
      (p : A → Bool) (f : A → ℕ) (xs : List A)
      → tally (λ a. indicator (p a)) xs ≡ 0
      → tally (λ a. if p a then f a else 0) xs ≡ 0
  tally-if_none p f [] h = refl
  tally-if_none p f (x ∷ xs) h = ground (arith, tally-if_none p f xs)

  -- A sum splits by a test.
  pub tally-split :
      (p : A → Bool) (f : A → ℕ) (xs : List A)
      → tally f xs ≡ tally f (keep p xs) + tally (λ a. if p a then 0 else f a) xs
  tally-split p f [] = refl
  tally-split p f (x ∷ xs) = ground (arith, tally-split p f xs)

pub tally-map {ℓ κ} :
    {A : Type ℓ} {B : Type κ} (f : B → ℕ) (g : A → B) (xs : List A)
    → tally f (map g xs) ≡ tally (λ a. f (g a)) xs
tally-map f g [] = refl
tally-map f g (x ∷ xs) = omega (arith, tally-map f g xs)
