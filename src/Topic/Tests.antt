-- ===== src/Topic/Tests.antt =====
-- The functions on topics at concrete texts, and the properties there.
use livio_ark.Prelude.{◌≡◌, refl, true, false, not, ◌&&◌, List, [], ◌∷◌, ◌++◌, Bytes}
use livio_ark.Levels.{slash, star, hash, split_levels}
use livio_ark.Levels.Split.{ends_in_slash, join, split_levels-join, join-split_levels}
use livio_ark.Levels.Matching.{level_matches}
use livio_ark.Topic.{topic_matches, is_wildcard, is_valid_topic, valid_loop}
use livio_ark.Topic.Reading.{are_levels}
use livio_ark.Topic.Matching.{topic_matches-level_matches}
use livio_ark.Topic.Valid.{
  accepted_levels, is_valid_topic-accepted_levels, is_valid_topic-star-slash,
}

-- "s/t", "s/*", "s/t/*" and "s/#"
abbrev plain_topic : Bytes
plain_topic = 115 ∷ slash ∷ 116 ∷ []

abbrev star_pattern : Bytes
star_pattern = 115 ∷ slash ∷ star ∷ []

abbrev hash_pattern : Bytes
hash_pattern = 115 ∷ slash ∷ hash ∷ []

abbrev two_levels : List Bytes
two_levels = (115 ∷ []) ∷ (116 ∷ []) ∷ []

is_valid_topic_plain : is_valid_topic plain_topic ≡ true
unfolding is_valid_topic valid_loop
is_valid_topic_plain = refl

is_valid_topic_hash : is_valid_topic hash_pattern ≡ true
unfolding is_valid_topic valid_loop
is_valid_topic_hash = refl

is_wildcard_star : is_wildcard star_pattern ≡ true
unfolding is_wildcard
is_wildcard_star = refl

topic_matches-level_matches_example :
    topic_matches star_pattern plain_topic
    ≡ level_matches (split_levels star_pattern) (split_levels plain_topic)
unfolding split_levels ends_in_slash are_levels livio_ark.Topic.Reading.is_level
    livio_ark.Topic.Reading.is_plain
topic_matches-level_matches_example =
    topic_matches-level_matches star_pattern plain_topic refl refl refl (cc)

is_valid_topic-accepted_levels_example :
    is_valid_topic star_pattern
    ≡ (not (ends_in_slash star_pattern) && accepted_levels (split_levels star_pattern))
is_valid_topic-accepted_levels_example = is_valid_topic-accepted_levels star_pattern

is_valid_topic-star-slash_example :
    is_valid_topic ((115 ∷ slash ∷ []) ++ star ∷ slash ∷ 116 ∷ []) ≡ false
is_valid_topic-star-slash_example = is_valid_topic-star-slash (115 ∷ slash ∷ []) (116 ∷ [])

split_levels-join_example : split_levels (join two_levels) ≡ two_levels
split_levels-join_example = split_levels-join two_levels ((refl, tt), ((refl, tt), λ e. cc))

join-split_levels_example : join (split_levels plain_topic) ≡ plain_topic
unfolding ends_in_slash
join-split_levels_example = join-split_levels plain_topic refl
