-- ===== src/Topic/Valid.antt =====
-- What `isValidTopic` accepts.
use livio_ark.Prelude.{
  ℕ, ◌≡◌, ◌≢◌, refl, ◌∙◌, Bool, true, false, not, ◌&&◌, ◌||◌, Bool-cases, inl, inr, List, [], ◌∷◌,
  ◌++◌, Option, none, some, Bytes, ◌==◌, str_eq, is_nil, arith,
}
use livio_ark.Levels.{slash, star, star_level, hash_level, split_levels}
use livio_ark.Levels.Split.{ends_in_slash, split_levels-eq-split}
use livio_ark.Topic.Reading.{first, others, is_plain, split-first}
use livio_ark.Topic.{valid_loop, is_valid_topic}

-- Plain levels, but for a last one that may be "*" or "#".
accepted : Bytes → List Bytes → Bool
accepted l [] = is_plain l || (str_eq l star_level || str_eq l hash_level)
accepted l (m ∷ ls) = is_plain l && accepted m ls

-- The levels of a text, of which there is at least one.
pub accepted_levels : List Bytes → Bool
unfolding accepted
accepted_levels [] = false
accepted_levels (l ∷ ls) = accepted l ls

abbrev rest_accepted : List Bytes → Bool
rest_accepted [] = true
rest_accepted (m ∷ ls) = accepted m ls

abbrev starts : Option ℕ → Bool
starts none = true
starts (some b) = b == slash

abbrev AtStart : Option ℕ → Bytes → Type 0
AtStart b s =
    starts b ≡ true
    → s ≢ []
    → valid_loop false false b s ≡ (not (ends_in_slash s) && accepted (first s) (others s))

abbrev AtPlain : Option ℕ → Bytes → Type 0
AtPlain b s =
    valid_loop true false b s
    ≡ (not (ends_in_slash s) && (is_plain (first s) && rest_accepted (others s)))

behind_star : (b : Option ℕ) (s : Bytes) → valid_loop true true b s ≡ is_nil s
unfolding valid_loop
behind_star b [] = refl
behind_star b (c ∷ s) = ground arith

plain_step :
    (b : Option ℕ) (c : ℕ) (s : Bytes) → AtStart (some c) s → AtPlain (some c) s → AtPlain b (c ∷ s)
unfolding valid_loop accepted first others is_plain ends_in_slash
plain_step b c [] u v = ground (arith, v)
plain_step b c (d ∷ s) u v = ground (arith, u, v)

start_step :
    (b : Option ℕ) (c : ℕ) (s : Bytes) → AtStart (some c) s → AtPlain (some c) s → AtStart b (c ∷ s)
unfolding valid_loop accepted first others is_plain ends_in_slash
start_step b c [] u v h n = ground (arith, behind_star (some c) [])
start_step b c (d ∷ s) u v h n = ground (arith, behind_star (some c) (d ∷ s), u, v)

at_end : (b : Option ℕ) → AtPlain b []
unfolding valid_loop first others is_plain ends_in_slash
at_end b = refl

mutual
  at_start : (b : Option ℕ) (s : Bytes) → AtStart b s
  at_start b [] = λ h n. absurd (n refl)
  at_start b (c ∷ s) = start_step b c s (at_start (some c) s) (at_plain (some c) s)

  at_plain : (b : Option ℕ) (s : Bytes) → AtPlain b s
  at_plain b [] = at_end b
  at_plain b (c ∷ s) = plain_step b c s (at_start (some c) s) (at_plain (some c) s)

-- `isValidTopic` accepts exactly the texts that are not empty, do not end in a slash, and whose
-- levels hold no wildcard, but for a last level that may be "*" or "#".
pub is_valid_topic-accepted_levels :
    (s : Bytes) → is_valid_topic s ≡ (not (ends_in_slash s) && accepted_levels (split_levels s))
unfolding is_valid_topic accepted_levels
is_valid_topic-accepted_levels [] = unfold split_levels ends_in_slash in refl
is_valid_topic-accepted_levels (c ∷ s) = elim (Bool-cases (ends_in_slash (c ∷ s))) [
  | inl e ↦ at_start none (c ∷ s) refl (λ h. cc) ∙ rw e
  | inr e ↦
      at_start none (c ∷ s) refl (λ h. cc)
      ∙ rw (e, split_levels-eq-split (c ∷ s), split-first c s e)
]

loop-star-slash :
    (in_segment last : Bool) (b : Option ℕ) (before after : Bytes)
    → valid_loop in_segment last b (before ++ star ∷ slash ∷ after) ≡ false
unfolding valid_loop
loop-star-slash i l b [] after = ground arith
loop-star-slash i l b (c ∷ before) after = ground (
  arith,
  loop-star-slash false false (some c) before after,
  loop-star-slash true true (some c) before after,
  loop-star-slash true false (some c) before after,
)

-- `isValidTopic` accepts no text with a '*' in front of a slash.
pub is_valid_topic-star-slash :
    (before after : Bytes) → is_valid_topic (before ++ star ∷ slash ∷ after) ≡ false
unfolding is_valid_topic
is_valid_topic-star-slash [] after = loop-star-slash false false none [] after
is_valid_topic-star-slash (c ∷ before) after = loop-star-slash false false none (c ∷ before) after
