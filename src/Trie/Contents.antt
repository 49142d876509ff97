-- ===== src/Trie/Contents.antt =====
-- What a trie holds: the list of its entries, each with the levels of its pattern. A sum over a
-- node is a sum over its entries and over its children.
use livio_ark.Prelude.{
  ℕ, ◌+◌, ◌≡◌, refl, List, [], ◌∷◌, ◌++◌, map, none, Bytes, tally, tally-append, tally-map, arith,
}
use livio_ark.Trie.{Entry, Node, node, Children, no_child, child, find_child}

-- A pattern's levels and the entry of its subscription.
abbrev pub Item : Type 0
Item = List Bytes × Entry

abbrev pub below : Bytes → Item → Item
below l (ls, e) = (l ∷ ls, e)

abbrev pub here : Entry → Item
here e = ([], e)

unfoldable mutual
  pub contents : Node → List Item
  contents (node cs es) = map here es ++ contents_children cs

  pub contents_children : Children → List Item
  contents_children no_child = []
  contents_children (child k n cs) = map (below k) (contents n) ++ contents_children cs

-- The sum of `f` over the children.
abbrev pub sum_children : (Bytes → Node → ℕ) → Children → ℕ
sum_children f no_child = 0
sum_children f (child k n cs) = f k n + sum_children f cs

abbrev pub tally_below : (Item → ℕ) → Bytes → Node → ℕ
tally_below f k n = tally (λ x. f (below k x)) (contents n)

tally-contents_children :
    (f : Item → ℕ) (cs : Children)
    → tally f (contents_children cs) ≡ sum_children (tally_below f) cs
unfolding contents
tally-contents_children f no_child = refl
tally-contents_children f (child k n cs) = omega (
  arith,
  tally-append f (map (below k) (contents n)) (contents_children cs),
  tally-map f (below k) (contents n),
  tally-contents_children f cs,
)

pub tally-contents :
    (f : Item → ℕ) (cs : Children) (es : List Entry)
    → tally f (contents (node cs es)) ≡ tally (λ e. f ([], e)) es + sum_children (tally_below f) cs
unfolding contents
tally-contents f cs es = omega (
  arith,
  tally-append f (map here es) (contents_children cs),
  tally-map f here es,
  tally-contents_children f cs,
)

-- No key stands twice, at any depth.
abbrev pub Fresh : Bytes → Children → Type 0
Fresh l cs = find_child l cs ≡ none

unfoldable mutual
  pub HasKeys : Node → Type 0
  HasKeys (node cs es) = HaveKeys cs

  pub HaveKeys : Children → Type 0
  HaveKeys no_child = Unit {0}
  HaveKeys (child k n cs) = Fresh k cs × HasKeys n × HaveKeys cs
