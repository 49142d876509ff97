-- ===== src/Bus/Found.antt =====
-- Sums over the live subscriptions, each of which is found under its id.
use livio_ark.Prelude.{
  ℕ, ◌+◌, ◌≤◌, ◌≡◌, ◌≢◌, refl, Bool, ◌&&◌, List, [], ◌∷◌, some, Bytes, ◌==◌, str_eq, if◌then◌else◌,
  indicator, tally, arith,
}
use livio_ark.Levels.{split_levels}
use livio_ark.Levels.Matching.{level_matches}
use livio_ark.Trie.Matching.{linear_scan}
use livio_ark.Bus.Live.{Sub, is_exact, is_wild, exact_subs, wild_items, find_sub, is_alien}

-- Of every element.
abbrev pub Each : (Sub → Type 0) → List Sub → Type 0
Each P [] = Unit
Each P (u ∷ us) = P u × Each P us

Each-map : (P Q : Sub → Type 0) → ((u : Sub) → P u → Q u) → (us : List Sub) → Each P us → Each Q us
Each-map P Q f [] e = tt
Each-map P Q f (u ∷ us) (p, e) = (f u p, Each-map P Q f us e)

pub tally-Each :
    (P : Sub → Type 0) (f g : Sub → ℕ)
    → ((u : Sub) → P u → f u ≡ g u)
    → (us : List Sub) → Each P us
    → tally f us ≡ tally g us
tally-Each P f g h [] e = refl
tally-Each P f g h (u ∷ us) (p, e) = omega (arith, h u p, tally-Each P f g h us e)

find_sub-counted :
    (id : ℕ) (live : List Sub) (u : Sub)
    → find_sub id live ≡ some u
    → 1 ≤ tally (λ v. indicator (v.id == id)) live
unfolding find_sub
find_sub-counted id [] u e = absurd cc
find_sub-counted id (v ∷ live) u e = ground (arith, find_sub-counted id live u)

pub live-IsFound :
    (live : List Sub)
    → ((id : ℕ) → tally (λ v. indicator (v.id == id)) live ≤ 1)
    → Each (λ u. find_sub u.id live ≡ some u) live
live-IsFound [] d = tt
live-IsFound (v ∷ live) d = (
  unfold find_sub in ground arith,
  Each-map (λ u. find_sub u.id live ≡ some u) (λ u. find_sub u.id (v ∷ live) ≡ some u)
      (λ u p. unfold find_sub in ground (arith, d u.id, find_sub-counted u.id live u p)) live
      (live-IsFound live (λ id. omega (arith, d id))),
)

-- Whether a message of that type on that topic is the subscription's: a subscription with wildcards
-- gets the topics that its levels match, any other its own topic.
abbrev pub receives : Bytes → ℕ → Sub → Bool
receives topic type u =
    u.type == type
    && (if is_wild u
        then level_matches (split_levels u.text) (split_levels topic)
        else str_eq u.text topic)

module _ (g : ℕ → ℕ) (topic : Bytes) (type : ℕ) where
  -- The two kinds of subscription, by what each adds to the sum.
  abbrev pub exact_share : Sub → ℕ
  exact_share u = if u.type == type && is_exact topic u then g u.handler else 0

  abbrev pub wild_share : Sub → ℕ
  wild_share u =
      if is_wild u && (level_matches (split_levels u.text) (split_levels topic) && u.type == type)
      then g u.handler
      else 0

  pub receives-shares :
      (live : List Sub)
      → tally (λ u. if receives topic type u then g u.handler else 0) live
        ≡ tally exact_share live + tally wild_share live
  receives-shares [] = omega arith
  receives-shares (u ∷ live) = ground (arith, receives-shares live)

  pub exact_share-own :
      (live : List Sub)
      → tally (λ u. indicator (is_alien topic type u)) live ≡ 0
      → tally exact_share live ≡ tally (λ s. g s.handler) (exact_subs topic live)
  exact_share-own [] e = refl
  exact_share-own (u ∷ live) e = ground (arith, exact_share-own live)

  pub exact_share-alien :
      (t : ℕ) (live : List Sub)
      → t ≢ type
      → tally (λ u. indicator (is_alien topic t u)) live ≡ 0
      → tally exact_share live ≡ 0
  exact_share-alien t [] n e = refl
  exact_share-alien t (u ∷ live) n e = ground (arith, exact_share-alien t live n)

  pub exact_share-none : (live : List Sub) → exact_subs topic live ≡ [] → tally exact_share live ≡ 0
  exact_share-none [] e = refl
  exact_share-none (u ∷ live) e = ground (arith, exact_share-none live)

pub wild_scan :
    (f : ℕ → ℕ) (topic : Bytes) (type : ℕ) (live : List Sub)
    → tally f (linear_scan type (split_levels topic) (wild_items live))
      ≡ tally
          (λ u.
            if is_wild u
              && (level_matches (split_levels u.text) (split_levels topic) && u.type == type)
            then f u.id
            else 0)
          live
wild_scan f topic type [] = refl
wild_scan f topic type (u ∷ live) = ground (arith, wild_scan f topic type live)
