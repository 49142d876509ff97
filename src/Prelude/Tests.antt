-- ===== src/Prelude/Tests.antt =====
-- Boolean tests on numbers and on byte strings, and the split on a computed test.
use Prim.Native.Nat.{ℕ, compare, Ordering}
use mathlib.Core.Path.{◌≡◌, refl}
use mathlib.Core.Logic.{◌⊎◌, inl, inr}
use mathlib.Core.Bool.{Bool, true, false}
use mathlib.Core.Option.{Option, none, some}
use mathlib.Core.List.{List}
use native.Mathlib.Omega.{arith}
use native.Mathlib.Decide.{ℕ_discrete}

-- A string is the list of its bytes.
abbrev pub Bytes : Type 0
Bytes = List ℕ

unfoldable pub Bytes-discrete : Discrete Bytes
unfolding ℕ_discrete
Bytes-discrete = hlevel ℕ_discrete

infix 50 ◌==◌
abbrev pub ◌==◌ : ℕ → ℕ → Bool
a == b = elim (compare a b) [ Ordering.eq ↦ true | _ ↦ false ]

abbrev pub ltb : ℕ → ℕ → Bool
ltb a b = elim (compare a b) [ Ordering.lt ↦ true | _ ↦ false ]

abbrev pub leb : ℕ → ℕ → Bool
leb a b = elim (compare a b) [ Ordering.gt ↦ false | _ ↦ true ]

abbrev pub str_eq : Bytes → Bytes → Bool
str_eq a b = elim (Bytes-discrete a b) [ yes _ ↦ true | no _ ↦ false ]

infix 1 if◌then◌else◌
abbrev pub if◌then◌else◌ {ℓ} : {A : Type ℓ} → Bool → A → A → A
if true then x else y = x
if false then x else y = y

pub if-holds {ℓ κ} :
    {A : Type ℓ} (P : A → Type κ) (b : Bool) {x y : A} → P x → P y → P (if b then x else y)
if-holds P true p q = p
if-holds P false p q = q

pub if-related {ℓ κ ι} :
    {A : Type ℓ} {B : Type κ} (R : A → B → Type ι) (b : Bool) {x y : A} {u v : B}
    → R x u
    → R y v
    → R (if b then x else y) (if b then u else v)
if-related R true p q = p
if-related R false p q = q

pub Bool-cases : (b : Bool) → (b ≡ true) ⊎ (b ≡ false)
Bool-cases true = inl refl
Bool-cases false = inr refl

pub str_eq→eq : (a b : Bytes) → str_eq a b ≡ true → a ≡ b
str_eq→eq a b h = ground arith

pub eq→str_eq : (a b : Bytes) → a ≡ b → str_eq a b ≡ true
eq→str_eq a b h = ground arith

pub Option-cases {ℓ} : {A : Type ℓ} (o : Option A) → (o ≡ none) ⊎ ((a : A) × (o ≡ some a))
Option-cases none = inl refl
Option-cases (some a) = inr (a, refl)

-- 1 where the test holds.
abbrev pub indicator : Bool → ℕ
indicator b = if b then 1 else 0
