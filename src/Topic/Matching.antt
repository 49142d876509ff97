-- ===== src/Topic/Matching.antt =====
-- `topicMatches` reads the texts byte by byte, and decides what the level rules say.
use livio_ark.Prelude.{
  ℕ, ◌≡◌, ◌≢◌, refl, true, false, Bool-cases, inl, inr, [], ◌∷◌, Bytes, ◌==◌, arith,
}
use mathlib.Core.Path.{subst}
use livio_ark.Levels.{slash, star, split_levels}
use livio_ark.Levels.Split.{ends_in_slash, split_levels-eq-split}
use livio_ark.Levels.Matching.{level_matches}
use livio_ark.Topic.{finish, match_loop, topic_matches}
use livio_ark.Topic.Reading.{
  first, others, is_plain, is_level, are_levels, Inside, Start, star_last, star_slash,
  ends_in_slash-tail, first-cons, others-cons, str_eq-cons, match_loop-byte, is_plain-cons,
  split-first,
}

Inside-nil : (ts : Bytes) → Inside [] ts
unfolding match_loop finish first others is_plain is_level are_levels level_matches ends_in_slash
Inside-nil [] pl vl e = ground arith
Inside-nil (t ∷ []) pl vl e = ground arith
Inside-nil (t ∷ u ∷ ts) pl vl e = ground (arith, Inside-nil (u ∷ ts))

Inside-ended : (p : ℕ) (ps : Bytes) → Inside (p ∷ ps) []
unfolding match_loop finish first others is_plain is_level are_levels level_matches ends_in_slash
Inside-ended p ps pl vl e = ground arith

Inside-slash :
    (p : ℕ) (ps : Bytes) (t : ℕ) (ts : Bytes)
    → (p == slash) ≡ true
    → Start ps ts
    → Inside (p ∷ ps) (t ∷ ts)
unfolding match_loop finish first others is_plain is_level are_levels level_matches ends_in_slash
Inside-slash p ps t [] s b pl vl e = ground arith
Inside-slash p ps t (u ∷ ts) s b pl vl e = ground (arith, b)

Inside-same :
    (p : ℕ) (ps ts : Bytes) → (p == slash) ≡ false → Inside ps ts → Inside (p ∷ ps) (p ∷ ts)
Inside-same p ps ts n a pl vl e =
    let plain = is_plain-cons p (first ps) (rw (first-cons p ps n) at pl) in
    rw (match_loop-byte p ps p ts plain.0 plain.1) (
      rw (first-cons p ps n, first-cons p ts n, others-cons p ps n, others-cons p ts n)
        (rw (str_eq-cons p (first ps) (first ts))
          (ground (arith, a plain.2 (rw (others-cons p ps n) at vl) (ends_in_slash-tail p ts e)))))

Inside-other :
    (p : ℕ) (ps : Bytes) (t : ℕ) (ts : Bytes)
    → (p == slash) ≡ false
    → (p == t) ≡ false
    → Inside (p ∷ ps) (t ∷ ts)
unfolding first
Inside-other p ps t ts n d pl vl e =
    let plain = is_plain-cons p (first ps) (rw (first-cons p ps n) at pl) in
    rw (match_loop-byte p ps t ts plain.0 plain.1) (rw (d, n) (ground arith))

Inside-char :
    (p : ℕ) (ps : Bytes) (t : ℕ) (ts : Bytes)
    → (p == slash) ≡ false
    → Inside ps ts
    → Inside (p ∷ ps) (t ∷ ts)
Inside-char p ps t ts n a = elim (Bool-cases (p == t)) [
  | inl same ↦
      let eq : p ≡ t = ground arith in
      subst (λ (d : ℕ). Inside (p ∷ ps) (d ∷ ts)) eq (Inside-same p ps ts n a)
  | inr other ↦ Inside-other p ps t ts n other
]

Inside-step :
    (p : ℕ) (ps : Bytes) (t : ℕ) (ts : Bytes)
    → Inside ps ts
    → Start ps ts
    → Inside (p ∷ ps) (t ∷ ts)
Inside-step p ps t ts a b = elim (Bool-cases (p == slash)) [
  | inl s ↦ Inside-slash p ps t ts s b
  | inr n ↦ Inside-char p ps t ts n a
]

Start-step :
    (p : ℕ) (ps : Bytes) (t : ℕ) (ts : Bytes)
    → (p == star) ≡ false
    → Inside ps ts
    → Start (p ∷ ps) (t ∷ ts)
unfolding match_loop finish first others is_plain is_level are_levels level_matches ends_in_slash
Start-step p ps t [] n a v e ne = ground (arith, a)
Start-step p ps t (u ∷ ts) n a v e ne = ground (arith, a)

Start-nil : (ts : Bytes) → Start [] ts
unfolding first is_level are_levels
Start-nil ts v e ne = cc

Start-star_last : (p t : ℕ) (ts : Bytes) → (p == star) ≡ true → Start (p ∷ []) (t ∷ ts)
unfolding match_loop finish first others is_plain is_level are_levels level_matches ends_in_slash
Start-star_last p t ts s v e ne = ground (arith, star_last (t ∷ ts) e)

Start-star :
    (p q : ℕ) (ps : Bytes) (t : ℕ) (ts : Bytes)
    → (p == star) ≡ true
    → ((xs : Bytes) → Start ps xs)
    → Start (p ∷ q ∷ ps) (t ∷ ts)
unfolding match_loop finish first others is_plain is_level are_levels level_matches ends_in_slash
Start-star p q ps t ts s ih v e ne = ground (arith, star_slash q ps (t ∷ ts) ih)

mutual
  inside : (ps ts : Bytes) → Inside ps ts
  inside [] ts = Inside-nil ts
  inside (p ∷ ps) [] = Inside-ended p ps
  inside (p ∷ ps) (t ∷ ts) = Inside-step p ps t ts (inside ps ts) (start ps ts)

  start : (ps ts : Bytes) → Start ps ts
  start ps [] = λ v e ne. absurd (ne refl)
  start [] (t ∷ ts) = Start-nil (t ∷ ts)
  start (p ∷ []) (t ∷ ts) = elim (Bool-cases (p == star)) [
    | inl s ↦ Start-star_last p t ts s
    | inr n ↦ Start-step p [] t ts n (inside [] ts)
  ]
  start (p ∷ q ∷ ps) (t ∷ ts) = elim (Bool-cases (p == star)) [
    | inl s ↦ Start-star p q ps t ts s (start ps)
    | inr n ↦ Start-step p (q ∷ ps) t ts n (inside (q ∷ ps) ts)
  ]

-- For a pattern whose levels are '*', plain, or '#' at the end, none of them empty, and a topic
-- that is not empty, neither text ending in a slash, `topicMatches` is the rules on levels.
pub topic_matches-level_matches :
    (pattern topic : Bytes)
    → are_levels (split_levels pattern) ≡ true
    → ends_in_slash pattern ≡ false
    → ends_in_slash topic ≡ false
    → topic ≢ []
    → topic_matches pattern topic ≡ level_matches (split_levels pattern) (split_levels topic)
unfolding topic_matches
topic_matches-level_matches ps [] v p e ne = absurd (ne refl)
topic_matches-level_matches [] (t ∷ ts) v p e ne =
    rw (split_levels-eq-split (t ∷ ts), split-first t ts e)
      (unfold match_loop finish level_matches split_levels in refl)
topic_matches-level_matches (c ∷ ps) (t ∷ ts) v p e ne =
    let levels = rw (split_levels-eq-split (c ∷ ps), split-first c ps p) at v in
    rw (split_levels-eq-split (c ∷ ps), split_levels-eq-split (t ∷ ts))
      (rw (split-first c ps p, split-first t ts e) (start (c ∷ ps) (t ∷ ts) levels e ne))
