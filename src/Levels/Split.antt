-- ===== src/Levels/Split.antt =====
-- `splitLevels` against a plain recursion on the text.
use livio_ark.Prelude.{
  ℕ, zero, suc, ◌≤◌, ◌≡◌, ◌≢◌, refl, sym, ap, ◌∙◌, Bool, false, Bool-cases, inl, inr, List, [], ◌∷◌,
  ◌++◌, none, some, Bytes, ◌==◌, if◌then◌else◌, length, arith, Option-cases,
}
use livio_ark.Levels.{slash, find_slash, split_loop, split_levels}

abbrev pub add_to_head : ℕ → List Bytes → List Bytes
add_to_head c [] = (c ∷ []) ∷ []
add_to_head c (l ∷ ls) = (c ∷ l) ∷ ls

-- A slash ends a level; what follows the last slash is a level if it is not empty.
unfoldable pub split : Bytes → List Bytes
split [] = []
split (c ∷ s) = let rest = split s in if c == slash then [] ∷ rest else add_to_head c rest

-- What `find` gives is the first level, and the text of the others.
find_slash-none :
    (c : ℕ) (s : Bytes)
    → (find_slash (c ∷ s)).1 ≡ none
    → split (c ∷ s) ≡ (find_slash (c ∷ s)).0 ∷ []
unfolding split find_slash
find_slash-none c [] e = ground arith
find_slash-none c (d ∷ s) e = ground (arith, find_slash-none d s)

find_slash-some :
    (c : ℕ) (s r : Bytes)
    → (find_slash (c ∷ s)).1 ≡ some r
    → (split (c ∷ s) ≡ (find_slash (c ∷ s)).0 ∷ split r) × (length r ≤ length s)
unfolding split find_slash
find_slash-some c [] r e = ground arith
find_slash-some c (d ∷ s) r e = ground (arith, find_slash-some d s r)

split_loop-eq-split : (f : ℕ) (s : Bytes) → length s ≤ f → split_loop f s ≡ split s
unfolding split_loop
split_loop-eq-split zero [] h = unfold split in refl
split_loop-eq-split zero (c ∷ s) h = absurd (omega arith)
split_loop-eq-split (suc f) [] h = unfold split in refl
split_loop-eq-split (suc f) (c ∷ s) h = elim (Option-cases (find_slash (c ∷ s)).1) [
  | inl e ↦ rw (e, split_loop) (sym (find_slash-none c s e))
  | inr (r, e) ↦
      let (eq, shorter) = find_slash-some c s r e in
      rw (e, split_loop, eq)
        (ap (◌∷◌ (find_slash (c ∷ s)).0) (split_loop-eq-split f r (omega arith)))
]

-- The loop stops within its fuel, and gives the levels of the text.
pub split_levels-eq-split : (s : Bytes) → split_levels s ≡ split s
unfolding split_levels
split_levels-eq-split s = split_loop-eq-split (length s) s (omega arith)

-- Levels put together again.
pub join : List Bytes → Bytes
join [] = []
join (l ∷ []) = l
join (l ∷ m ∷ ls) = l ++ slash ∷ join (m ∷ ls)

abbrev pub NoSlash : Bytes → Type 0
NoSlash [] = Unit {0}
NoSlash (c ∷ s) = ((c == slash) ≡ false) × NoSlash s

-- Levels of a text: none holds a slash, and the last is not empty.
abbrev pub AreLevels : List Bytes → Type 0
AreLevels [] = Unit {0}
AreLevels (l ∷ []) = NoSlash l × (l ≢ [])
AreLevels (l ∷ m ∷ ls) = NoSlash l × AreLevels (m ∷ ls)

split-NoSlash : (c : ℕ) (l : Bytes) → NoSlash (c ∷ l) → split (c ∷ l) ≡ (c ∷ l) ∷ []
unfolding split
split-NoSlash c [] n = rw n.0
split-NoSlash c (d ∷ l) n = rw (n.0, split-NoSlash d l n.1)

split-append : (l s : Bytes) → NoSlash l → split (l ++ slash ∷ s) ≡ l ∷ split s
unfolding split
split-append [] s n = refl
split-append (c ∷ l) s n = rw (n.0, split-append l s n.1)

split-join : (ls : List Bytes) → AreLevels ls → split (join ls) ≡ ls
unfolding join
split-join [] a = unfold split in refl
split-join ([] ∷ []) a = absurd (a.1 refl)
split-join ((c ∷ l) ∷ []) a = split-NoSlash c l a.0
split-join (l ∷ m ∷ ls) a =
    rw (split-append l (join (m ∷ ls)) a.0) (ap (◌∷◌ l) (split-join (m ∷ ls) a.1))

-- Joining levels, none of which holds a slash and the last of which is not empty, and splitting the
-- text gives the levels.
pub split_levels-join : (ls : List Bytes) → AreLevels ls → split_levels (join ls) ≡ ls
split_levels-join ls a = split_levels-eq-split (join ls) ∙ split-join ls a

-- Everywhere but at the end of the text a slash starts another level.
unfoldable pub ends_in_slash : Bytes → Bool
ends_in_slash [] = false
ends_in_slash (c ∷ []) = c == slash
ends_in_slash (c ∷ d ∷ s) = ends_in_slash (d ∷ s)

join-add_to_head : (c : ℕ) (ls : List Bytes) → join (add_to_head c ls) ≡ c ∷ join ls
unfolding join
join-add_to_head c [] = refl
join-add_to_head c (l ∷ []) = refl
join-add_to_head c (l ∷ m ∷ ls) = refl

split-cons :
    (c : ℕ) (s : Bytes)
    → split (c ∷ s) ≡ (if c == slash then [] ∷ split s else add_to_head c (split s))
unfolding split
split-cons c s = refl

split-ne-nil : (c : ℕ) (s : Bytes) → split (c ∷ s) ≢ []
split-ne-nil c s = rw (split-cons c s) (go (split s))
  where
    go : (rest : List Bytes) → (if c == slash then [] ∷ rest else add_to_head c rest) ≢ []
    go [] = ground arith
    go (m ∷ ms) = ground arith

join-nil : (ls : List Bytes) → ls ≢ [] → join ([] ∷ ls) ≡ slash ∷ join ls
unfolding join
join-nil [] h = absurd (h refl)
join-nil (l ∷ ls) h = refl

-- Joining undoes splitting, but for a slash at the end of the text.
join-split : (s : Bytes) → ends_in_slash s ≡ false → join (split s) ≡ s
unfolding ends_in_slash
join-split [] h = unfold split join in refl
join-split (c ∷ []) h = rw (split-cons c [], h) (unfold split join in refl)
join-split (c ∷ d ∷ s) h = rw (split-cons c (d ∷ s)) (elim (Bool-cases (c == slash)) [
  | inl e ↦
      rw e (join-nil (split (d ∷ s)) (split-ne-nil d s) ∙ ground (arith, join-split (d ∷ s) h))
  | inr e ↦ rw e (join-add_to_head c (split (d ∷ s)) ∙ ap (◌∷◌ c) (join-split (d ∷ s) h))
])

-- Joining the levels of a text that does not end in a slash gives the text.
pub join-split_levels : (s : Bytes) → ends_in_slash s ≡ false → join (split_levels s) ≡ s
join-split_levels s h = rw (split_levels-eq-split s) (join-split s h)
