-- ===== src/Bus/Dropping.antt =====
-- The live subscriptions without one of them.
use livio_ark.Prelude.{
  ℕ, ◌≤◌, ◌≡◌, refl, ap, ◌∙◌, inl, inr, Bool-cases, Bool, false, not, List, [], ◌∷◌, none, some,
  Bytes, ◌==◌, if◌then◌else◌, indicator, keep, tally, arith,
}
use livio_ark.Slot.Laws.{others_than}
use livio_ark.Trie.Refinement
use livio_ark.Bus.Live.{Sub, exact_subs, wild_items, find_sub}

abbrev pub drop : ℕ → List Sub → List Sub
drop id live = keep (λ u. not (u.id == id)) live

pub drop-none : (id : ℕ) (live : List Sub) → find_sub id live ≡ none → drop id live ≡ live
unfolding find_sub
drop-none id [] e = refl
drop-none id (v ∷ live) e = ground (arith, drop-none id live)

pub find_sub-drop :
    (id k : ℕ) (live : List Sub)
    → find_sub k (drop id live) ≡ (if id == k then none else find_sub k live)
unfolding find_sub
find_sub-drop id k [] = ground arith
find_sub-drop id k (v ∷ live) = ground (arith, find_sub-drop id k live)

pub tally-drop : (f : Sub → ℕ) (id : ℕ) (live : List Sub) → tally f (drop id live) ≤ tally f live
tally-drop f id [] = omega arith
tally-drop f id (v ∷ live) = ground (arith, tally-drop f id live)

pub exact_subs-drop :
    (text : Bytes) (id : ℕ) (live : List Sub)
    → exact_subs text (drop id live) ≡ others_than id (exact_subs text live)
exact_subs-drop text id [] = refl
exact_subs-drop text id (v ∷ live) = ground (arith, exact_subs-drop text id live)

pub wild_items-drop :
    (id : ℕ) (live : List Sub) → wild_items (drop id live) ≡ Refinement.without id (wild_items live)
wild_items-drop id [] = refl
wild_items-drop id (v ∷ live) = ground (arith, wild_items-drop id live)

find_sub-zero :
    (id : ℕ) (live : List Sub)
    → tally (λ u. indicator (u.id == id)) live ≡ 0
    → find_sub id live ≡ none
unfolding find_sub
find_sub-zero id [] e = refl
find_sub-zero id (v ∷ live) e = ground (arith, find_sub-zero id live)

-- The one that goes is not among those that a test keeps.
pub keep-drop :
    (p : Sub → Bool) (id : ℕ) (live : List Sub) (u : Sub)
    → tally (λ v. indicator (v.id == id)) live ≤ 1
    → find_sub id live ≡ some u
    → p u ≡ false
    → keep p (drop id live) ≡ keep p live
unfolding find_sub
keep-drop p id [] u le e h = refl
keep-drop p id (v ∷ live) u le e h = elim (Bool-cases (v.id == id)) [
  | inl own ↦
      let last : tally (λ w. indicator (w.id == id)) live ≡ 0 = ground arith in
      let same : some v ≡ some u = ground arith in
      let same' : v ≡ u = cc in
      rw own
        (ap (keep p) (drop-none id live (find_sub-zero id live last)) ∙ rw (ap p same' ∙ h) refl)
  | inr other ↦ ground (arith, keep-drop p id live u)
]

pub wild_items-distinct :
    (id : ℕ) (live : List Sub)
    → tally (λ x. indicator (x.1.sub_id == id)) (wild_items live)
      ≤ tally (λ u. indicator (u.id == id)) live
wild_items-distinct id [] = omega arith
wild_items-distinct id (v ∷ live) = ground (arith, wild_items-distinct id live)
