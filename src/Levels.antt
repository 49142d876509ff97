-- ===== src/Levels.antt =====
-- Topics as lists of levels: `splitLevels` of include/livioark/msgbus/wildcard_trie.h.
pub mod Split
pub mod Matching
use livio_ark.Prelude.{
  ℕ, zero, suc, List, [], ◌∷◌, Option, none, some, Bytes, ◌==◌, if◌then◌else◌, length,
}

abbrev pub slash : ℕ
slash = b'/'

abbrev pub star : ℕ
star = b'*'

abbrev pub hash : ℕ
hash = b'#'

-- The level "*".
abbrev pub star_level : Bytes
star_level = star ∷ []

-- The level "#".
abbrev pub hash_level : Bytes
hash_level = hash ∷ []

-- `s.find('/', start)` on the text from `start` on: what stands before the slash, and what stands
-- behind it, if there is a slash.
pub find_slash : Bytes → Bytes × Option Bytes
find_slash [] = ([], none)
find_slash (c ∷ s) =
    let (before, after) = find_slash s in if c == slash then ([], some s) else (c ∷ before, after)

-- The loop, on the text from `start` on.
pub split_loop : ℕ → Bytes → List Bytes
split_loop zero s = []
split_loop (suc f) [] = []
split_loop (suc f) (c ∷ s) =
    let (level, after) = find_slash (c ∷ s) in
    elim after [ none ↦ level ∷ [] | some rest ↦ level ∷ split_loop f rest ]

unfoldable pub split_levels : Bytes → List Bytes
unfolding split_loop find_slash
split_levels s = split_loop (length s) s
