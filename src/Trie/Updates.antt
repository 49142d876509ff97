-- ===== src/Trie/Updates.antt =====
-- What `insert`, `cloneNode` and `removeFrom` do to the contents of a trie.
use livio_ark.Prelude.{
  ℕ, ◌+◌, ◌≡◌, refl, sym, inl, inr, Bool-cases, false, List, [], ◌∷◌, ◌++◌, Bytes, str_eq,
  str_eq→eq, tally, tally-append, arith,
}
use mathlib.Core.Path.{subst}
use livio_ark.Trie.{
  Entry, Node, node, Children, no_child, child, empty_node, find_child, at_child, insert_at,
}
use livio_ark.Trie.Contents.{
  Item, below, contents, sum_children, tally_below, tally-contents, Fresh, HasKeys, HaveKeys,
}

pub tally-empty_node : (f : Item → ℕ) → tally f (contents empty_node) ≡ 0
unfolding contents
tally-empty_node f = refl

module _ (f : Item → ℕ) (l : Bytes) (change : Node → Node) (v : ℕ)
    (grows : (n : Node) → tally_below f l (change n) ≡ tally_below f l n + v) where
  sum-at_child :
      (cs : Children)
      → sum_children (tally_below f) (at_child l change cs) ≡ sum_children (tally_below f) cs + v
  unfolding at_child
  sum-at_child no_child = omega (arith, grows empty_node, tally-empty_node (λ x. f (below l x)))
  sum-at_child (child k n cs) = elim (Bool-cases (str_eq k l)) [
    | inl e ↦ rw e (
        omega (
          arith,
          subst (λ (j : Bytes). tally_below f j (change n) ≡ tally_below f j n + v)
              (sym (str_eq→eq k l e)) (grows n),
        ))
    | inr e ↦ rw e (omega (arith, sum-at_child cs))
  ]

-- `insert` adds its entry under the levels of its pattern, and nothing else.
pub tally-insert_at :
    (f : Item → ℕ) (ls : List Bytes) (e : Entry) (n : Node)
    → tally f (contents (insert_at ls e n)) ≡ tally f (contents n) + f (ls, e)
unfolding insert_at
tally-insert_at f [] e (node cs es) = omega (
  arith,
  tally-contents f cs es,
  tally-contents f cs (es ++ e ∷ []),
  tally-append (λ (x : Entry). f ([], x)) es (e ∷ []),
)
tally-insert_at f (l ∷ ls) e (node cs es) = omega (
  arith,
  tally-contents f cs es,
  tally-contents f (at_child l (insert_at ls e) cs) es,
  sum-at_child f l (insert_at ls e) (f (l ∷ ls, e)) (tally-insert_at (λ x. f (below l x)) ls e) cs,
)

find_child-at_child :
    (k l : Bytes) (change : Node → Node) (cs : Children)
    → str_eq l k ≡ false
    → Fresh k cs
    → Fresh k (at_child l change cs)
unfolding find_child at_child
find_child-at_child k l change no_child ne fr = ground arith
find_child-at_child k l change (child j n cs) ne fr =
    ground (arith, find_child-at_child k l change cs)

at_child-HaveKeys :
    (l : Bytes) (change : Node → Node)
    → HasKeys (change empty_node)
    → ((n : Node) → HasKeys n → HasKeys (change n))
    → (cs : Children) → HaveKeys cs
    → HaveKeys (at_child l change cs)
unfolding at_child HasKeys find_child
at_child-HaveKeys l change new old no_child w = (refl, new, tt)
at_child-HaveKeys l change new old (child k n cs) w = elim (Bool-cases (str_eq k l)) [
  | inl e ↦ rw e (w.0, old n w.1, w.2)
  | inr e ↦ rw e (
    find_child-at_child k l change cs (ground arith) w.0,
    w.1,
    at_child-HaveKeys l change new old cs w.2,
  )
]

pub insert_at-HasKeys :
    (ls : List Bytes) (e : Entry) (n : Node) → HasKeys n → HasKeys (insert_at ls e n)
unfolding insert_at HasKeys
insert_at-HasKeys [] e (node cs es) w = w
insert_at-HasKeys (l ∷ ls) e (node cs es) w =
    at_child-HaveKeys l (insert_at ls e) (insert_at-HasKeys ls e empty_node tt)
      (insert_at-HasKeys ls e) cs w
