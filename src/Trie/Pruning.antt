-- ===== src/Trie/Pruning.antt =====
-- The trie keeps no empty nodes: each node below the root leads to an entry.
use livio_ark.Prelude.{
  ℕ, ◌≡◌, refl, inl, inr, Bool-cases, Option-cases, false, List, [], ◌∷◌, some, Bytes, str_eq,
  arith,
}
use mathlib.Core.Path.{subst}
use livio_ark.Trie.{
  Entry, Node, node, Children, no_child, child, empty_node, is_bare, at_child, insert_at,
  remove_entry, remove_from, remove_children,
}

unfoldable mutual
  pub IsPruned : Node → Type 0
  IsPruned (node cs es) = ArePruned cs

  pub ArePruned : Children → Type 0
  ArePruned no_child = Unit {0}
  ArePruned (child k n cs) = (is_bare n ≡ false) × IsPruned n × ArePruned cs

at_child-bare :
    (l : Bytes) (change : Node → Node) (cs : Children) (es : List Entry)
    → is_bare (node (at_child l change cs) es) ≡ false
unfolding at_child
at_child-bare l change no_child es = refl
at_child-bare l change (child k n cs) es = ground arith

insert_at-bare : (ls : List Bytes) (e : Entry) (n : Node) → is_bare (insert_at ls e n) ≡ false
unfolding insert_at
insert_at-bare [] e (node no_child []) = refl
insert_at-bare [] e (node no_child (x ∷ es)) = refl
insert_at-bare [] e (node (child k n cs) es) = ground arith
insert_at-bare (l ∷ ls) e (node cs es) = at_child-bare l (insert_at ls e) cs es

at_child-ArePruned :
    (l : Bytes) (change : Node → Node)
    → ((n : Node) → is_bare (change n) ≡ false)
    → ((n : Node) → IsPruned n → IsPruned (change n))
    → (cs : Children) → ArePruned cs
    → ArePruned (at_child l change cs)
unfolding at_child IsPruned
at_child-ArePruned l change used kept no_child p = (used empty_node, kept empty_node tt, tt)
at_child-ArePruned l change used kept (child k n cs) p = elim (Bool-cases (str_eq k l)) [
  | inl e ↦ rw e (used n, kept n p.1, p.2)
  | inr e ↦ rw e (p.0, p.1, at_child-ArePruned l change used kept cs p.2)
]

pub insert_at-IsPruned :
    (ls : List Bytes) (e : Entry) (n : Node) → IsPruned n → IsPruned (insert_at ls e n)
unfolding insert_at IsPruned
insert_at-IsPruned [] e (node cs es) p = p
insert_at-IsPruned (l ∷ ls) e (node cs es) p =
    at_child-ArePruned l (insert_at ls e) (insert_at-bare ls e) (insert_at-IsPruned ls e) cs p

mutual
  unfolding remove_from IsPruned

  pub remove_from-IsPruned :
      (id : ℕ) (n n' : Node) (x : Entry)
      → remove_from id n ≡ some (n', x)
      → IsPruned n
      → IsPruned n'
  remove_from-IsPruned id (node cs es) n' x h p = elim (Option-cases (remove_entry id es)) [
    | inl missing ↦ elim (Option-cases (remove_children id cs)) [
      | inl nowhere ↦ absurd (ground arith)
      | inr ((ds, y), found) ↦
          let eq : node ds es ≡ n' = ground arith in
          subst IsPruned eq (remove_children-ArePruned id cs ds y found p)
    ]
    | inr ((ys, y), found) ↦ let eq : node cs ys ≡ n' = ground arith in subst IsPruned eq p
  ]

  remove_children-ArePruned :
      (id : ℕ) (cs cs' : Children) (x : Entry)
      → remove_children id cs ≡ some (cs', x)
      → ArePruned cs
      → ArePruned cs'
  remove_children-ArePruned id no_child cs' x h p = cc
  remove_children-ArePruned id (child k n cs) cs' x h p = elim (Option-cases (remove_from id n)) [
    | inl missing ↦ elim (Option-cases (remove_children id cs)) [
      | inl nowhere ↦ absurd (ground arith)
      | inr ((ds, y), found) ↦
          let eq : child k n ds ≡ cs' = ground arith in
          subst ArePruned eq (p.0, p.1, remove_children-ArePruned id cs ds y found p.2)
    ]
    | inr ((m, y), found) ↦ elim (Bool-cases (is_bare m)) [
      | inl bare ↦ let eq : cs ≡ cs' = ground arith in subst ArePruned eq p.2
      | inr used ↦
          let eq : child k m cs ≡ cs' = ground arith in
          subst ArePruned eq (used, remove_from-IsPruned id n m y found p.1, p.2)
    ]
  ]
