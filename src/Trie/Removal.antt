-- ===== src/Trie/Removal.antt =====
-- What `removeFrom` does to the contents of a trie.
use livio_ark.Prelude.{
  ℕ, ◌+◌, ◌≡◌, refl, inl, inr, Bool-cases, Option-cases, true, List, [], ◌∷◌, Option, none, some,
  Bytes, ◌==◌, indicator, tally, arith,
}
use mathlib.Core.Path.{subst}
use livio_ark.Trie.{
  Entry, Node, node, Children, no_child, child, is_bare, find_child, remove_entry, remove_from,
  remove_children,
}
use livio_ark.Trie.Contents.{
  Item, below, contents, sum_children, tally_below, tally-contents, Fresh, HasKeys, HaveKeys,
}

abbrev pub has_id : ℕ → Item → ℕ
has_id id (ls, e) = indicator (e.sub_id == id)

-- An entry of the subscription is gone and all else is there, or there was none.
abbrev pub Removes : ℕ → Node → Option (Node × Entry) → Type 0
Removes id n none = tally (has_id id) (contents n) ≡ 0
Removes id n (some (n', e)) =
    (ls : List Bytes) × (e.sub_id ≡ id)
    × ((f : Item → ℕ) → tally f (contents n) ≡ tally f (contents n') + f (ls, e))

abbrev RemovesBelow : ℕ → Children → Option (Children × Entry) → Type 0
RemovesBelow id cs none = sum_children (tally_below (has_id id)) cs ≡ 0
RemovesBelow id cs (some (cs', e)) =
    (ls : List Bytes) × (e.sub_id ≡ id)
    × ((f : Item → ℕ)
        → sum_children (tally_below f) cs ≡ sum_children (tally_below f) cs' + f (ls, e))

abbrev RemovesEntry : ℕ → List Entry → Option (List Entry × Entry) → Type 0
RemovesEntry id es none = tally (λ e. indicator (e.sub_id == id)) es ≡ 0
RemovesEntry id es (some (es', e)) =
    (e.sub_id ≡ id) × ((f : Entry → ℕ) → tally f es ≡ tally f es' + f e)

remove_entry-RemovesEntry :
    (id : ℕ) (es : List Entry) (r : Option (List Entry × Entry))
    → remove_entry id es ≡ r
    → RemovesEntry id es r
unfolding remove_entry
remove_entry-RemovesEntry id [] none h = refl
remove_entry-RemovesEntry id [] (some x) h = cc
remove_entry-RemovesEntry id (e ∷ es) none h = ground (arith, remove_entry-RemovesEntry id es none)
remove_entry-RemovesEntry id (e ∷ es) (some (xs, x)) h = elim (Option-cases (remove_entry id es)) [
  | inl none_below ↦ (ground arith, λ f. ground arith)
  | inr ((ys, y), below) ↦
      let rest = remove_entry-RemovesEntry id es (some (ys, y)) below in
      (ground arith, λ f. ground (arith, rest.1 f))
]

-- A node that is pruned holds nothing.
tally-bare : (f : Item → ℕ) (n : Node) → is_bare n ≡ true → tally f (contents n) ≡ 0
unfolding contents
tally-bare f (node no_child []) h = refl
tally-bare f (node no_child (e ∷ es)) h = cc
tally-bare f (node (child k n cs) es) h = cc

mutual
  unfolding remove_from

  pub remove_from-Removes :
      (id : ℕ) (n : Node) (r : Option (Node × Entry)) → remove_from id n ≡ r → Removes id n r
  remove_from-Removes id (node cs es) none h = elim (Option-cases (remove_entry id es)) [
    | inl missing ↦ ground (
      arith,
      remove_entry-RemovesEntry id es none missing,
      remove_children-RemovesBelow id cs none,
      tally-contents (has_id id) cs es,
    )
    | inr ((ys, y), found) ↦ ground arith
  ]
  remove_from-Removes id (node cs es) (some (n', x)) h = elim (Option-cases (remove_entry id es)) [
    | inl missing ↦ elim (Option-cases (remove_children id cs)) [
      | inl nowhere ↦ ground arith
      | inr ((ds, y), found) ↦
          let rest = remove_children-RemovesBelow id cs (some (ds, y)) found in
          (
            rest.0,
            ground arith,
            λ f. ground (arith, rest.2 f, tally-contents f cs es, tally-contents f ds es),
          )
    ]
    | inr ((ys, y), found) ↦
        let gone = remove_entry-RemovesEntry id es (some (ys, y)) found in
        (
          [],
          ground arith,
          λ f.
              ground
                (arith, gone.1 (λ y. f ([], y)), tally-contents f cs es, tally-contents f cs ys),
        )
  ]

  remove_children-RemovesBelow :
      (id : ℕ) (cs : Children) (r : Option (Children × Entry))
      → remove_children id cs ≡ r
      → RemovesBelow id cs r
  remove_children-RemovesBelow id no_child none h = refl
  remove_children-RemovesBelow id no_child (some x) h = cc
  remove_children-RemovesBelow id (child k n cs) none h =
      ground (arith, remove_from-Removes id n none, remove_children-RemovesBelow id cs none)
  remove_children-RemovesBelow id (child k n cs) (some (cs', x)) h =
      elim (Option-cases (remove_from id n)) [
        | inl missing ↦ elim (Option-cases (remove_children id cs)) [
          | inl nowhere ↦ ground arith
          | inr ((ds, y), found) ↦
              let rest = remove_children-RemovesBelow id cs (some (ds, y)) found in
              (rest.0, ground arith, λ f. ground (arith, rest.2 f))
        ]
        | inr ((m, y), found) ↦
            let rest = remove_from-Removes id n (some (m, y)) found in
            (
              k ∷ rest.0,
              ground arith,
              λ f. ground (arith, rest.2 (λ z. f (below k z)), tally-bare (λ z. f (below k z)) m),
            )
      ]

find_child-remove_children :
    (l : Bytes) (id : ℕ) (cs cs' : Children) (x : Entry)
    → remove_children id cs ≡ some (cs', x)
    → Fresh l cs
    → Fresh l cs'
unfolding remove_from find_child
find_child-remove_children l id no_child cs' x h fr = cc
find_child-remove_children l id (child k n cs) cs' x h fr = elim (Option-cases (remove_from id n)) [
  | inl missing ↦ elim (Option-cases (remove_children id cs)) [
    | inl nowhere ↦ ground arith
    | inr ((ds, y), found) ↦ ground (arith, find_child-remove_children l id cs ds y found)
  ]
  | inr ((m, y), found) ↦ ground arith
]

mutual
  unfolding remove_from HasKeys

  pub remove_from-HasKeys :
      (id : ℕ) (n n' : Node) (x : Entry) → remove_from id n ≡ some (n', x) → HasKeys n → HasKeys n'
  remove_from-HasKeys id (node cs es) n' x h w = elim (Option-cases (remove_entry id es)) [
    | inl missing ↦ elim (Option-cases (remove_children id cs)) [
      | inl nowhere ↦ absurd (ground arith)
      | inr ((ds, y), found) ↦
          let eq : node ds es ≡ n' = ground arith in
          subst HasKeys eq (remove_children-HaveKeys id cs ds y found w)
    ]
    | inr ((ys, y), found) ↦ let eq : node cs ys ≡ n' = ground arith in subst HasKeys eq w
  ]

  remove_children-HaveKeys :
      (id : ℕ) (cs cs' : Children) (x : Entry)
      → remove_children id cs ≡ some (cs', x)
      → HaveKeys cs
      → HaveKeys cs'
  remove_children-HaveKeys id no_child cs' x h w = cc
  remove_children-HaveKeys id (child k n cs) cs' x h w = elim (Option-cases (remove_from id n)) [
    | inl missing ↦ elim (Option-cases (remove_children id cs)) [
      | inl nowhere ↦ absurd (ground arith)
      | inr ((ds, y), found) ↦
          let eq : child k n ds ≡ cs' = ground arith in
          subst HaveKeys eq (
            find_child-remove_children k id cs ds y found w.0,
            w.1,
            remove_children-HaveKeys id cs ds y found w.2,
          )
    ]
    | inr ((m, y), found) ↦ elim (Bool-cases (is_bare m)) [
      | inl bare ↦ let eq : cs ≡ cs' = ground arith in subst HaveKeys eq w.2
      | inr used ↦
          let eq : child k m cs ≡ cs' = ground arith in
          subst HaveKeys eq (w.0, remove_from-HasKeys id n m y found w.1, w.2)
    ]
  ]
