-- ===== src/Levels/Matching.antt =====
-- Which topics a pattern selects, level by level: the rules in the comments of
-- include/livioark/msgbus/topic_matcher.h and include/livioark/msgbus/wildcard_trie.h.
use livio_ark.Prelude.{◌≢◌, Bool, ◌&&◌, ◌||◌, List, [], ◌∷◌, Bytes, str_eq, is_nil}
use livio_ark.Levels.{star_level, hash_level}

-- An exact level, '*' for one level, and '#' at the end for all that remain, be it none.
unfoldable pub level_matches : List Bytes → List Bytes → Bool
level_matches [] ts = is_nil ts
level_matches (p ∷ ps) [] = str_eq p hash_level && is_nil ps
level_matches (p ∷ ps) (t ∷ ts) =
    (str_eq p hash_level && is_nil ps)
    || ((str_eq p t || str_eq p star_level) && level_matches ps ts)

-- No level of the topic is itself a wildcard.
abbrev pub IsConcrete : List Bytes → Type 0
IsConcrete [] = Unit {0}
IsConcrete (t ∷ ts) = (t ≢ star_level) × (t ≢ hash_level) × IsConcrete ts
