-- ===== src/Topic/Reading.antt =====
-- A topic and a pattern read byte by byte, by `topicMatches` (include/livioark/msgbus/topic_matcher.h),
-- and the levels that the texts have from the current byte on.
use livio_ark.Prelude.{
  ℕ, ◌≡◌, ◌≢◌, refl, ◌⊎◌, Bool, true, false, not, ◌&&◌, ◌||◌, Bool-cases, inl, inr, List, [], ◌∷◌,
  Bytes, ◌==◌, str_eq, if◌then◌else◌, is_nil, arith,
}
use livio_ark.Levels.{slash, star, hash}
use livio_ark.Levels.Split.{split, ends_in_slash}
use livio_ark.Levels.Matching.{level_matches}
use livio_ark.Topic.{skip_level, skip_slash, finish, match_loop}

-- The level that a text begins in, and the levels behind its first slash.
unfoldable pub first : Bytes → Bytes
first [] = []
first (c ∷ s) = if c == slash then [] else c ∷ first s

unfoldable pub others : Bytes → List Bytes
others [] = []
others (c ∷ s) = if c == slash then first s ∷ others s else others s

-- No byte of the level is a wildcard.
unfoldable pub is_plain : Bytes → Bool
is_plain [] = true
is_plain (c ∷ s) = (not (c == star) && not (c == hash)) && is_plain s

-- A level of a pattern: '#' at the end, '*', or a plain level that is not empty.
unfoldable pub is_level : Bytes → List Bytes → Bool
is_level [] rest = false
is_level (c ∷ l) rest =
    ((c == hash && is_nil l) && is_nil rest) || ((c == star && is_nil l) || is_plain (c ∷ l))

unfoldable pub are_levels : List Bytes → Bool
are_levels [] = true
are_levels (l ∷ ls) = is_level l ls && are_levels ls

-- In the middle of a level.
abbrev pub Inside : Bytes → Bytes → Type 0
Inside ps ts =
    is_plain (first ps) ≡ true
    → are_levels (others ps) ≡ true
    → ends_in_slash ts ≡ false
    → match_loop false ps ts
      ≡ (str_eq (first ps) (first ts) && level_matches (others ps) (others ts))

-- At the start of a level.
abbrev pub Start : Bytes → Bytes → Type 0
Start ps ts =
    are_levels (first ps ∷ others ps) ≡ true
    → ends_in_slash ts ≡ false
    → ts ≢ []
    → match_loop false ps ts ≡ level_matches (first ps ∷ others ps) (first ts ∷ others ts)

-- Behind the level that the topic is in.
abbrev pub rest : Bytes → Bytes
rest ts = skip_slash (skip_level ts)

pub rest-cases :
    (ts : Bytes)
    → ends_in_slash ts ≡ false
    → ((rest ts ≡ []) × (others ts ≡ []))
      ⊎ ((c : ℕ) × (s : Bytes) × (rest ts ≡ c ∷ s)
          × (others ts ≡ first (c ∷ s) ∷ others (c ∷ s))
          × (ends_in_slash (c ∷ s) ≡ false))
unfolding skip_level first others ends_in_slash
rest-cases [] e = inl (refl, refl)
rest-cases (t ∷ []) e = inl (ground arith, ground arith)
rest-cases (t ∷ u ∷ ts) e = elim (Bool-cases (t == slash)) [
  | inl s ↦ inr (u, ts, ground arith, ground arith, e)
  | inr n ↦ rw n (rest-cases (u ∷ ts) e)
]

-- The topic has ended, and the pattern is at the start of a level.
pub ended :
    (ps : Bytes)
    → are_levels (first ps ∷ others ps) ≡ true
    → match_loop false ps [] ≡ level_matches (first ps ∷ others ps) []
unfolding match_loop finish first others is_plain is_level are_levels level_matches
ended [] v = cc
ended (p ∷ ps) v = ground arith

-- A '*' at the end of the pattern.
pub star_last :
    (ts : Bytes) → ends_in_slash ts ≡ false → match_loop true [] (rest ts) ≡ is_nil (others ts)
unfolding match_loop finish
star_last ts e = ground (arith, rest-cases ts e)

-- A '*' with more levels behind it.
pub star_slash :
    (q : ℕ) (ps ts : Bytes)
    → ((xs : Bytes) → Start ps xs)
    → first (q ∷ ps) ≡ []
    → are_levels (others (q ∷ ps)) ≡ true
    → ends_in_slash ts ≡ false
    → match_loop true (q ∷ ps) (rest ts) ≡ level_matches (others (q ∷ ps)) (others ts)
unfolding match_loop first others
star_slash q ps ts ih f v e = elim (rest-cases ts e) [
  | inl (r, o) ↦ rw (r, o) (ground (arith, ended ps))
  | inr (c, s, r, o, n) ↦ rw (r, o) (ground (arith, ih (c ∷ s)))
]

pub ends_in_slash-tail :
    (t : ℕ) (ts : Bytes) → ends_in_slash (t ∷ ts) ≡ false → ends_in_slash ts ≡ false
unfolding ends_in_slash
ends_in_slash-tail t [] e = refl
ends_in_slash-tail t (u ∷ ts) e = e

pub first-cons : (c : ℕ) (s : Bytes) → (c == slash) ≡ false → first (c ∷ s) ≡ c ∷ first s
unfolding first
first-cons c s n = rw n

pub others-cons : (c : ℕ) (s : Bytes) → (c == slash) ≡ false → others (c ∷ s) ≡ others s
unfolding others
others-cons c s n = rw n

pub str_eq-cons : (c : ℕ) (a b : Bytes) → str_eq (c ∷ a) (c ∷ b) ≡ str_eq a b
str_eq-cons c a b = ground arith

-- One byte that is no wildcard.
pub match_loop-byte :
    (p : ℕ) (ps : Bytes) (t : ℕ) (ts : Bytes)
    → (p == hash) ≡ false
    → (p == star) ≡ false
    → match_loop false (p ∷ ps) (t ∷ ts) ≡ (if p == t then match_loop false ps ts else false)
unfolding match_loop
match_loop-byte p ps t ts h s = ground arith

pub is_plain-cons :
    (p : ℕ) (ps : Bytes)
    → is_plain (p ∷ ps) ≡ true
    → ((p == hash) ≡ false) × ((p == star) ≡ false) × (is_plain ps ≡ true)
unfolding is_plain
is_plain-cons p ps pl = ground arith

-- A text that does not end in a slash has the levels that it is read in.
pub split-first :
    (c : ℕ) (s : Bytes)
    → ends_in_slash (c ∷ s) ≡ false
    → split (c ∷ s) ≡ first (c ∷ s) ∷ others (c ∷ s)
unfolding split first others ends_in_slash
split-first c [] e = ground arith
split-first c (d ∷ s) e = ground (arith, split-first d s)
