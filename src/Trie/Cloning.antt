-- ===== src/Trie/Cloning.antt =====
-- `cloneNode` gives a node with the same children and entries.
use livio_ark.Prelude.{ℕ, ◌+◌, ◌≡◌, refl, sym, ap, ◌∙◌, false, Bytes, str_eq, arith}
use livio_ark.Levels.{split_levels}
use livio_ark.Trie.{
  Entry, Snapshot, clone_snapshot, insert_at, insert, remove, remove_from, publish_removal, Node,
  node, Children, no_child, child, find_child, emplace_child, clone_node, clone_children,
}
use livio_ark.Trie.Contents.{Fresh, HasKeys, HaveKeys}

abbrev join : Children → Children → Children
join no_child ds = ds
join (child k n cs) ds = child k n (join cs ds)

join-no_child : (cs : Children) → join cs no_child ≡ cs
join-no_child no_child = refl
join-no_child (child k n cs) = ap (child k n) (join-no_child cs)

join_assoc : (bs cs ds : Children) → join (join bs cs) ds ≡ join bs (join cs ds)
join_assoc no_child cs ds = refl
join_assoc (child k n bs) cs ds = ap (child k n) (join_assoc bs cs ds)

emplace_child-eq-join :
    (k : Bytes) (n : Node) (dst : Children)
    → Fresh k dst
    → emplace_child k n dst ≡ join dst (child k n no_child)
unfolding emplace_child find_child
emplace_child-eq-join k n no_child fr = refl
emplace_child-eq-join k n (child j m cs) fr = ground (arith, emplace_child-eq-join k n cs)

-- The keys of the first are not among those of the second.
abbrev Apart : Children → Children → Type 0
Apart no_child dst = Unit {0}
Apart (child k n cs) dst = Fresh k dst × Apart cs dst

Fresh-join :
    (l k : Bytes) (n : Node) (dst : Children)
    → str_eq k l ≡ false
    → Fresh l dst
    → Fresh l (join dst (child k n no_child))
unfolding find_child
Fresh-join l k n no_child ne fr = ground arith
Fresh-join l k n (child j m cs) ne fr = ground (arith, Fresh-join l k n cs)

Apart-join :
    (k : Bytes) (n : Node) (cs dst : Children)
    → Fresh k cs
    → Apart cs dst
    → Apart cs (join dst (child k n no_child))
unfolding find_child
Apart-join k n no_child dst fr a = tt
Apart-join k n (child l m cs) dst fr a =
    (Fresh-join l k n dst (ground arith) a.0, Apart-join k n cs dst (ground arith) a.1)

Apart-no_child : (cs : Children) → Apart cs no_child
unfolding find_child
Apart-no_child no_child = tt
Apart-no_child (child k n cs) = (refl, Apart-no_child cs)

mutual
  unfolding clone_node HasKeys

  pub clone_node-eq : (n : Node) → HasKeys n → clone_node n ≡ n
  clone_node-eq (node cs es) w =
      ap (λ (ds : Children). node ds es) (clone_children-eq cs no_child w (Apart-no_child cs))

  clone_children-eq :
      (cs dst : Children) → HaveKeys cs → Apart cs dst → clone_children cs dst ≡ join dst cs
  clone_children-eq no_child dst w a = sym (join-no_child dst)
  clone_children-eq (child k n cs) dst w a =
      rw (clone_node-eq n w.1, emplace_child-eq-join k n dst a.0)
        (clone_children-eq cs (join dst (child k n no_child)) w.2 (Apart-join k n cs dst w.0 a.1)
          ∙ join_assoc dst (child k n no_child) cs)

-- The copy that `insert` and `remove` work on is the published snapshot.
pub clone_snapshot-eq : (s : Snapshot) → HasKeys s.root → clone_snapshot s ≡ s
unfolding clone_snapshot
clone_snapshot-eq s w =
    ap (λ (n : Node). record { root = n; entry_count = s.entry_count }) (clone_node-eq s.root w)

pub insert-eq :
    (s : Snapshot) (pattern : Bytes) (e : Entry)
    → HasKeys s.root
    → insert pattern e s
      ≡ record { root = insert_at (split_levels pattern) e s.root; entry_count = s.entry_count + 1 }
unfolding insert
insert-eq s pattern e w =
    ap
      (λ (z : Snapshot). record {
        root = insert_at (split_levels pattern) e z.root;
        entry_count = z.entry_count + 1;
      })
      (clone_snapshot-eq s w)

pub remove-eq :
    (s : Snapshot) (id : ℕ)
    → HasKeys s.root
    → remove id s ≡ publish_removal s s (remove_from id s.root)
unfolding remove
remove-eq s id w =
    ap (λ (z : Snapshot). publish_removal s z (remove_from id z.root)) (clone_snapshot-eq s w)
