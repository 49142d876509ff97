-- ===== src/Prelude/Maps.antt =====
-- A hash map as a list of keys and values: `find`, `emplace` (a key that is there keeps its value),
-- `m[k] = v` and `erase`.
use Prim.Native.Nat.{ℕ}
use livio_ark.Prelude.Tests.{◌==◌, if◌then◌else◌}
use mathlib.Core.Path.{◌≡◌, refl}
use mathlib.Core.Logic.{◌≢◌}
use mathlib.Core.List.{List, [], ◌∷◌}
use mathlib.Core.Option.{Option, none, some}
use native.Mathlib.Omega.{arith}

module _ {ℓ κ} {K : Type ℓ} {V : Type κ} (same : Discrete K) where
  abbrev pub find : K → List (K × V) → Option V
  find k [] = none
  find k ((j, v) ∷ m) = let rest = find k m in elim (same j k) [ yes _ ↦ some v | no _ ↦ rest ]

  abbrev pub emplace : K → V → List (K × V) → List (K × V)
  emplace k v [] = (k, v) ∷ []
  emplace k v ((j, w) ∷ m) =
      let rest = emplace k v m in elim (same j k) [ yes _ ↦ (j, w) ∷ m | no _ ↦ (j, w) ∷ rest ]

  abbrev pub assign : K → V → List (K × V) → List (K × V)
  assign k v [] = (k, v) ∷ []
  assign k v ((j, w) ∷ m) =
      let rest = assign k v m in elim (same j k) [ yes _ ↦ (j, v) ∷ m | no _ ↦ (j, w) ∷ rest ]

  abbrev pub erase : K → List (K × V) → List (K × V)
  erase k [] = []
  erase k ((j, w) ∷ m) =
      let rest = erase k m in elim (same j k) [ yes _ ↦ rest | no _ ↦ (j, w) ∷ rest ]

  abbrev pub pick : K → K → Option V → Option V → Option V
  pick k j a b = elim (same k j) [ yes _ ↦ a | no _ ↦ b ]

  pub find-emplace :
      (k j : K) (v : V) (m : List (K × V))
      → find k m ≡ none
      → find j (emplace k v m) ≡ pick k j (some v) (find j m)
  find-emplace k j v [] h = refl
  find-emplace k j v ((i, w) ∷ m) h = ground (arith, find-emplace k j v m)

  pub find-assign :
      (k j : K) (v : V) (m : List (K × V)) → find j (assign k v m) ≡ pick k j (some v) (find j m)
  find-assign k j v [] = refl
  find-assign k j v ((i, w) ∷ m) = ground (arith, find-assign k j v m)

  pub find-erase : (k j : K) (m : List (K × V)) → find j (erase k m) ≡ pick k j none (find j m)
  find-erase k j [] = ground arith
  find-erase k j ((i, w) ∷ m) = ground (arith, find-erase k j m)

  pub pick-other : {k j : K} (a b : Option V) → k ≢ j → pick k j a b ≡ b
  pick-other {k} {j} a b n = ground arith

  pub pick-same : (k : K) (a b : Option V) → pick k k a b ≡ a
  pick-same k a b = ground arith

-- A store of objects by number.
abbrev pub update {ℓ} : {A : Type ℓ} → ℕ → A → (ℕ → A) → ℕ → A
update i a f j = if i == j then a else f j
