-- ===== src/Trie/Matching.antt =====
-- `matchNode` finds what a linear scan over all subscriptions finds, when no level of the topic
-- is itself "*" or "#".
use livio_ark.Prelude.{
  is_nil, ℕ, ◌+◌, ◌≡◌, ◌≢◌, refl, sym, ◌∙◌, inl, inr, Bool, Bool-cases, Option-cases, ◌&&◌, List,
  [], ◌∷◌, ◌++◌, map, Option, none, some, Bytes, ◌==◌, str_eq, if◌then◌else◌, tally, tally-append,
  tally-add, tally-if, tally-ext, tally-zero, tally-keep, tally-map, keep, arith,
}
use mathlib.Core.Path.{subst}
use livio_ark.Levels.Matching.{level_matches, IsConcrete}
use livio_ark.Levels.{star_level, hash_level}
use livio_ark.Trie.{
  Entry, Node, node, Children, no_child, child, entries, find_child, push_slots, hash_slots,
  match_node,
}
use livio_ark.Trie.Contents.{
  Item, below, contents, sum_children, tally_below, tally-contents, Fresh, HasKeys, HaveKeys,
}

abbrev pub fits : ℕ → List Bytes → Item → Bool
fits ty ts (ps, e) = level_matches ps ts && e.type == ty

abbrev pub slot_of : Item → ℕ
slot_of (ps, e) = e.slot

-- The linear scan: every subscription whose pattern matches and whose type is the message's.
abbrev pub linear_scan : ℕ → List Bytes → List Item → List ℕ
linear_scan ty ts xs = map slot_of (keep (fits ty ts) xs)

module _ (h : Node → ℕ) (l : Bytes) where
  abbrev at_key : Bytes → Node → ℕ
  at_key k n = if str_eq k l then h n else 0

  abbrev at_found : Option Node → ℕ
  at_found none = 0
  at_found (some n) = h n

  sum-at_key-Fresh : (cs : Children) → Fresh l cs → sum_children at_key cs ≡ 0
  unfolding find_child
  sum-at_key-Fresh no_child fr = refl
  sum-at_key-Fresh (child k n cs) fr = ground (arith, sum-at_key-Fresh cs)

  -- With distinct keys a sum over the children with one key is what `find` finds.
  sum-at_key : (cs : Children) → HaveKeys cs → sum_children at_key cs ≡ at_found (find_child l cs)
  unfolding find_child HasKeys
  sum-at_key no_child w = refl
  sum-at_key (child k n cs) w = ground (arith, sum-at_key cs w.2, sum-at_key-Fresh cs)

find_child-HasKeys :
    (l : Bytes) (cs : Children) {n : Node} → HaveKeys cs → find_child l cs ≡ some n → HasKeys n
unfolding find_child HasKeys
find_child-HasKeys l no_child w e = cc
find_child-HasKeys l (child k m cs) {n} w e = elim (Bool-cases (str_eq k l)) [
  | inl eq ↦ let same : m ≡ n = ground arith in subst HasKeys same w.1
  | inr ne ↦ find_child-HasKeys l cs w.2 (rw ne at e)
]

module _ (g : ℕ → ℕ) (ty : ℕ) where
  abbrev of_type : Entry → ℕ
  of_type e = if e.type == ty then g e.slot else 0

  abbrev hit : List Bytes → Item → ℕ
  hit ts x = if fits ty ts x then g (slot_of x) else 0

  abbrev ending : Item → ℕ
  ending (ps, e) = if is_nil ps && e.type == ty then g e.slot else 0

  tally-push_slots : (es : List Entry) → tally g (push_slots ty es) ≡ tally of_type es
  unfolding push_slots
  tally-push_slots [] = refl
  tally-push_slots (e ∷ es) = ground (arith, tally-push_slots es)

  sum_children-zero :
      (f : Bytes → Node → ℕ)
      → ((k : Bytes) (n : Node) → f k n ≡ 0)
      → (cs : Children) → sum_children f cs ≡ 0
  sum_children-zero f z no_child = refl
  sum_children-zero f z (child k n cs) = omega (arith, z k n, sum_children-zero f z cs)

  tally-ending : (n : Node) → tally ending (contents n) ≡ tally of_type (entries n)
  tally-ending (node cs es) = omega (
    arith,
    tally-contents ending cs es,
    sum_children-zero (tally_below ending) (λ k n. tally-zero _ (λ x. refl) (contents n)) cs,
  )

  tally-hash_slots :
      (cs : Children)
      → HaveKeys cs
      → tally g (hash_slots ty cs)
        ≡ sum_children (at_key (λ n. tally ending (contents n)) hash_level) cs
  unfolding hash_slots
  tally-hash_slots cs w = elim (Option-cases (find_child hash_level cs)) [
    | inl e ↦ rw (e, hash_slots) (rw (sum-at_key _ hash_level cs w, e))
    | inr (n, e) ↦
        rw (e, hash_slots)
          (rw (sum-at_key _ hash_level cs w, e)
            (tally-push_slots (entries n) ∙ sym (tally-ending n)))
  ]

  hit-below :
      (t : Bytes) (ts : List Bytes)
      → t ≢ star_level
      → t ≢ hash_level
      → (k : Bytes) (x : Item)
      → hit (t ∷ ts) (below k x)
        ≡ (if str_eq k hash_level then ending x else 0)
          + ((if str_eq k t then hit ts x else 0) + (if str_eq k star_level then hit ts x else 0))
  unfolding level_matches
  hit-below t ts s h k (ps, e) = ground arith

  -- The children under the key `l` that match the rest of the topic.
  abbrev rest_of : List Bytes → Node → ℕ
  rest_of ts n = tally (hit ts) (contents n)

  hit-children :
      (t : Bytes) (ts : List Bytes)
      → t ≢ star_level
      → t ≢ hash_level
      → (cs : Children)
      → sum_children (tally_below (hit (t ∷ ts))) cs
        ≡ sum_children (at_key (λ n. tally ending (contents n)) hash_level) cs
          + (sum_children (at_key (rest_of ts) t) cs
              + sum_children (at_key (rest_of ts) star_level) cs)
  hit-children t ts s h no_child = refl
  hit-children t ts s h (child k n cs) = omega (
    arith,
    hit-children t ts s h cs,
    tally-ext _ _ (hit-below t ts s h k) (contents n),
    tally-add (λ x. if str_eq k hash_level then ending x else 0) _ (contents n),
    tally-add (λ x. if str_eq k t then hit ts x else 0) _ (contents n),
    tally-if (str_eq k hash_level) ending (contents n),
    tally-if (str_eq k t) (hit ts) (contents n),
    tally-if (str_eq k star_level) (hit ts) (contents n),
  )

  hit-below_end :
      (k : Bytes) (x : Item) → hit [] (below k x) ≡ (if str_eq k hash_level then ending x else 0)
  unfolding level_matches
  hit-below_end k (ps, e) = ground arith

  hit-children_end :
      (cs : Children)
      → sum_children (tally_below (hit [])) cs
        ≡ sum_children (at_key (λ n. tally ending (contents n)) hash_level) cs
  hit-children_end no_child = refl
  hit-children_end (child k n cs) = omega (
    arith,
    hit-children_end cs,
    tally-ext _ _ (hit-below_end k) (contents n),
    tally-if (str_eq k hash_level) ending (contents n),
  )

  hit-here : (es : List Entry) → tally (λ e. hit [] ([], e)) es ≡ tally of_type es
  unfolding level_matches
  hit-here [] = refl
  hit-here (e ∷ es) = omega (arith, hit-here es)

  hit-here_deeper :
      (t : Bytes) (ts : List Bytes) (es : List Entry) → tally (λ e. hit (t ∷ ts) ([], e)) es ≡ 0
  unfolding level_matches
  hit-here_deeper t ts = tally-zero _ (λ e. refl)

  -- Below the child under the key `l`, if there is one.
  abbrev descend : List Bytes → Option Node → List ℕ
  descend ts none = []
  descend ts (some n) = match_node ty ts n

  tally-descend :
      (ts : List Bytes)
      → ((n : Node) → HasKeys n → tally g (match_node ty ts n) ≡ rest_of ts n)
      → (l : Bytes) (cs : Children) → HaveKeys cs
      → tally g (descend ts (find_child l cs)) ≡ sum_children (at_key (rest_of ts) l) cs
  tally-descend ts ih l cs w = elim (Option-cases (find_child l cs)) [
    | inl e ↦ rw (sum-at_key (rest_of ts) l cs w, e)
    | inr (n, e) ↦ rw (sum-at_key (rest_of ts) l cs w, e) (ih n (find_child-HasKeys l cs w e))
  ]

  tally-match_node :
      (ts : List Bytes)
      → IsConcrete ts
      → (n : Node) → HasKeys n
      → tally g (match_node ty ts n) ≡ tally (hit ts) (contents n)
  unfolding match_node HasKeys
  tally-match_node [] c (node cs es) w = omega (
    arith,
    tally-append g (hash_slots ty cs) (push_slots ty es),
    tally-push_slots es,
    tally-hash_slots cs w,
    tally-contents (hit []) cs es,
    hit-children_end cs,
    hit-here es,
  )
  tally-match_node (t ∷ ts) c (node cs es) w = omega (
    arith,
    tally-append g (hash_slots ty cs)
        (descend ts (find_child t cs) ++ descend ts (find_child star_level cs)),
    tally-append g (descend ts (find_child t cs)) (descend ts (find_child star_level cs)),
    tally-hash_slots cs w,
    tally-contents (hit (t ∷ ts)) cs es,
    hit-children t ts c.0 c.1 cs,
    hit-here_deeper t ts es,
    tally-descend ts (tally-match_node ts c.2) t cs w,
    tally-descend ts (tally-match_node ts c.2) star_level cs w,
  )

  -- The trie gives each slot as often as the linear scan over what it holds.
  pub match_node-linear_scan :
      (ts : List Bytes)
      → IsConcrete ts
      → (n : Node) → HasKeys n
      → tally g (match_node ty ts n) ≡ tally g (linear_scan ty ts (contents n))
  match_node-linear_scan ts c n w = omega (
    arith,
    tally-match_node ts c n w,
    tally-map g slot_of (keep (fits ty ts) (contents n)),
    tally-keep (λ x. g (slot_of x)) (fits ty ts) (contents n),
  )
