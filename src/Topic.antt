-- ===== src/Topic.antt =====
-- include/livioark/msgbus/topic_matcher.h: matching a pattern against a topic, and the tests
-- `isWildcard` and `isValidTopic`. A text is read from the current index on.
mod Tests
pub mod Reading
pub mod Matching
pub mod Valid
use livio_ark.Prelude.{
  ℕ, Bool, true, false, not, ◌&&◌, ◌||◌, List, [], ◌∷◌, Option, none, some, Bytes, ◌==◌,
  if◌then◌else◌, is_nil,
}
use livio_ark.Levels.{slash, star, hash}

-- `i < s.size() && s[i] == c`
abbrev pub at_char : ℕ → Bytes → Bool
at_char c [] = false
at_char c (d ∷ s) = d == c

-- `while (ti < topic.size() && topic[ti] != '/') ++ti;`
pub skip_level : Bytes → Bytes
skip_level [] = []
skip_level (t ∷ ts) = let rest = skip_level ts in if t == slash then t ∷ ts else rest

-- `if (ti < topic.size() && topic[ti] == '/') ++ti;`
abbrev pub skip_slash : Bytes → Bytes
skip_slash [] = []
skip_slash (t ∷ ts) = if t == slash then ts else t ∷ ts

-- `pi + 1 < pattern.size() && pattern[pi] == '/' && pattern[pi + 1] == '#'`
abbrev pub slash_hash : Bytes → Bool
slash_hash [] = false
slash_hash (p ∷ ps) = p == slash && at_char hash ps

-- The tests behind the loop.
pub finish : Bytes → Bytes → Bool
finish ps ts =
    if at_char hash ps then true else if slash_hash ps then true else is_nil ps && is_nil ts

-- The loop. With `after_star` it stands behind a '*' of the pattern, where
-- `if (pi < pattern.size() && pattern[pi] == '/') ++pi;` is still to be done.
pub match_loop : Bool → Bytes → Bytes → Bool
match_loop after_star [] ts = finish [] ts
match_loop after_star (p ∷ ps) [] = elim (after_star && p == slash) [
  | true ↦ match_loop false ps []
  | false ↦ finish (p ∷ ps) []
]
match_loop after_star (p ∷ ps) (t ∷ ts) = elim (after_star && p == slash) [
  | true ↦ match_loop false ps (t ∷ ts)
  | false ↦ elim (p == hash) [
    | true ↦ true
    | false ↦ elim (p == star) [
      | true ↦ match_loop true ps (skip_slash (skip_level (t ∷ ts)))
      | false ↦ elim (p == t) [ true ↦ match_loop false ps ts | false ↦ false ]
    ]
  ]
]

unfoldable pub topic_matches : Bytes → Bytes → Bool
unfolding match_loop finish skip_level
topic_matches pattern topic = match_loop false pattern topic

-- `pattern.find_first_of("*#") != npos`
unfoldable pub is_wildcard : Bytes → Bool
is_wildcard [] = false
is_wildcard (c ∷ s) = (c == star || c == hash) || is_wildcard s

-- The loop of `isValidTopic`; `before` is `topic[i - 1]`, absent at the first index.
pub valid_loop : Bool → Bool → Option ℕ → Bytes → Bool
valid_loop in_segment last_was_wildcard before [] = true
valid_loop in_segment last_was_wildcard before (c ∷ s) =
    let starts_segment : Bool =
      not in_segment && elim before [ none ↦ true | some b ↦ b == slash ] in
    elim (c == slash) [
      | true ↦
          if last_was_wildcard
          then false
          else if is_nil s
          then false
          else valid_loop false false (some c) s
      | false ↦ elim (c == hash) [
        | true ↦ if starts_segment then is_nil s else false
        | false ↦ elim (c == star) [
          | true ↦ if starts_segment then valid_loop true true (some c) s else false
          | false ↦ if last_was_wildcard then false else valid_loop true false (some c) s
        ]
      ]
    ]

unfoldable pub is_valid_topic : Bytes → Bool
unfolding valid_loop
is_valid_topic [] = false
is_valid_topic (c ∷ s) = valid_loop false false none (c ∷ s)
