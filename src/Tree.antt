-- ===== src/Tree.antt =====
-- The red-black tree of stack/pico_tree.c and include/pico_tree.h, generic in the keys.
--
-- A node of the C code has pointers to its parent and its two children. Here a tree is a value, and
-- the chain of parents above a node is a list of `Frame`s, innermost first: a node with its frames
-- is what the C code has at hand as `node` with `node->parent`, and `close` is the way back to
-- `tree->root`. The key `void *` is the type parameter, and `tree->compare` is a parameter of
-- the operations, of whose result only the sign is read. What `PICO_ZALLOC` answers is a Boolean
-- argument of the insertion.
--
-- `LEAF` is one node that all trees share, and its colour is a field that the C code reads and
-- writes: it is the argument and the result `lc` of the operations. Its links are never changed.
pub mod Delete
pub mod Balance
pub mod Order
pub mod Refine
pub mod Walk
pub mod Search
pub mod Members
pub mod Agree
mod Tests
use picotcp.Base.{Bool, true, false, Option, none, some, List, [], ◌∷◌, ◌++◌, Ordering}

pub data Color : Type 0 where
  red black : Color

pub data Tree {ℓ} (A : Type ℓ) : Type ℓ where
  leaf : Tree A
  node : Color → A → Tree A → Tree A → Tree A

-- One parent: which child the node below is, the parent's colour and key, and its other child.
pub data Frame {ℓ} (A : Type ℓ) : Type ℓ where
  as_left : Color → A → Tree A → Frame A
  as_right : Color → A → Tree A → Frame A

-- What `pico_tree_insert` tells: NULL, the key that is there already, or &LEAF.
pub data Inserted {ℓ} (A : Type ℓ) : Type ℓ where
  done : Inserted A
  exists : A → Inserted A
  no_memory : Inserted A

abbrev pub is_red : Color → Bool
is_red red = true
is_red black = false

module _ {ℓ} {A : Type ℓ} where
  -- `t->color`
  abbrev pub color : Color → Tree A → Color
  color lc leaf = lc
  color lc (node c k l r) = c

  -- `t->color = c`: the node, and the colour of LEAF after the assignment.
  abbrev pub paint : Color → Tree A → Tree A
  paint c leaf = leaf
  paint c (node c' k l r) = node c k l r

  abbrev pub leaf_after : Color → Tree A → Color → Color
  leaf_after c leaf lc = c
  leaf_after c (node c' k l r) lc = lc

  abbrev pub left_child : Tree A → Tree A
  left_child leaf = leaf
  left_child (node c k l r) = l

  abbrev pub right_child : Tree A → Tree A
  right_child leaf = leaf
  right_child (node c k l r) = r

  -- The parent node, with the child hung in again.
  abbrev pub plug : Tree A → Frame A → Tree A
  plug t (as_left c k r) = node c k t r
  plug t (as_right c k l) = node c k l t

  abbrev pub frame_color : Frame A → Color
  frame_color (as_left c k r) = c
  frame_color (as_right c k l) = c

  abbrev pub sibling : Frame A → Tree A
  sibling (as_left c k r) = r
  sibling (as_right c k l) = l

  abbrev pub with_sibling : Tree A → Frame A → Frame A
  with_sibling s (as_left c k r) = as_left c k s
  with_sibling s (as_right c k l) = as_right c k s

  -- From a node up to the root.
  abbrev pub close : Tree A → List (Frame A) → Tree A
  close t [] = t
  close t (f ∷ fs) = close (plug t f) fs

  -- The keys from left to right: the order of `pico_tree_foreach`.
  abbrev pub keys : Tree A → List A
  keys leaf = []
  keys (node c k l r) = keys l ++ k ∷ keys r

  -- rotateToLeft and rotateToRight, on the subtree whose root is `node`.
  abbrev pub rotate_to_left : Tree A → Tree A
  rotate_to_left (node c k l (node c' k' l' r')) = node c' k' (node c k l l') r'
  rotate_to_left (node c k l leaf) = node c k l leaf
  rotate_to_left leaf = leaf

  abbrev pub rotate_to_right : Tree A → Tree A
  rotate_to_right (node c k (node c' k' l' r') r) = node c' k' l' (node c k r' r)
  rotate_to_right (node c k leaf r) = node c k leaf r
  rotate_to_right leaf = leaf

  -- pico_tree_empty
  unfoldable pub empty : Tree A → Bool
  empty leaf = true
  empty (node c k l r) = false

  -- The parent and the uncle turn black and the grandparent red.
  abbrev pub recolor : Tree A → Frame A → Frame A → Tree A
  recolor n p g =
      paint red (plug (paint black (plug n p)) (with_sibling (paint black (sibling g)) g))

  -- The rotations below a black uncle: the first if the node is the inner grandchild.
  abbrev pub lift_left : Tree A → Frame A → Tree A
  lift_left n (as_left c k s) = rotate_to_right (plug n (as_left c k s))
  lift_left n (as_right c k s) = plug n (as_right c k s)

  abbrev pub lift_right : Tree A → Frame A → Tree A
  lift_right n (as_right c k s) = rotate_to_left (plug n (as_right c k s))
  lift_right n (as_left c k s) = plug n (as_left c k s)

  abbrev pub rotate_up : Tree A → Frame A → Frame A → Tree A
  rotate_up n p (as_right c k s) =
      rotate_to_left (paint red (plug (paint black (lift_left n p)) (as_right c k s)))
  rotate_up n p (as_left c k s) =
      rotate_to_right (paint red (plug (paint black (lift_right n p)) (as_left c k s)))

  -- The loop of fix_insert_collisions. After a rotation the node's parent is black, which ends it.
  pub fix_insert : Color → Tree A → List (Frame A) → Tree A × Color
  fix_insert lc n [] = (n, lc)
  fix_insert lc n (p ∷ []) = (plug n p, lc)
  fix_insert lc n (p ∷ g ∷ fs) = elim (frame_color p) [
    | black ↦ (close n (p ∷ g ∷ fs), lc)
    | red ↦ elim (color lc (sibling g)) [
      | red ↦ fix_insert (leaf_after black (sibling g) lc) (recolor n p g) fs
      | black ↦ (close (rotate_up n p g) fs, lc)
    ]
  ]

module _ {ℓ} {A : Type ℓ} (cmp : A → A → Ordering) where
  -- pico_tree_findNode: the node that is found, with its parents.
  unfoldable pub find_node : A → Tree A → List (Frame A) → Option (Tree A × List (Frame A))
  find_node k leaf fs = none
  find_node k (node c x l r) fs = elim (cmp x k) [
    | Ordering.eq ↦ some (node c x l r, fs)
    | Ordering.lt ↦ find_node k r (as_right c x l ∷ fs)
    | Ordering.gt ↦ find_node k l (as_left c x r ∷ fs)
  ]

  abbrev pub key_of : Option (Tree A × List (Frame A)) → Option A
  key_of none = none
  key_of (some (leaf, fs)) = none
  key_of (some (node c k l r, fs)) = some k

  -- pico_tree_findKey
  unfoldable pub find_key : A → Tree A → Option A
  unfolding find_node
  find_key k t = key_of (find_node k t [])

  -- The search of pico_tree_insert_node: the parents of the place where the new node is hung in.
  unfoldable pub insert_place : A → Tree A → List (Frame A) → List (Frame A)
  insert_place k leaf fs = fs
  insert_place k (node c x l r) fs = elim (cmp k x) [
    | Ordering.lt ↦ insert_place k l (as_left c x r ∷ fs)
    | _ ↦ insert_place k r (as_right c x l ∷ fs)
  ]

  -- What follows `findKey` in pico_tree_insert_implementation; `alloc` says whether
  -- `create_node` gets its memory.
  unfoldable pub insert_absent : Bool → Color → A → Tree A → Tree A × Color × Inserted A
  unfolding insert_place fix_insert
  insert_absent false lc k t = (t, lc, no_memory)
  insert_absent true lc k t =
      let (t', lc') = fix_insert lc (node red k leaf leaf) (insert_place k t []) in
      (paint black t', lc', done)

  unfoldable pub insert : Bool → Color → A → Tree A → Tree A × Color × Inserted A
  unfolding find_key insert_absent
  insert alloc lc k t = elim (find_key k t) [
    | some found ↦ (t, lc, exists found)
    | none ↦ insert_absent alloc lc k t
  ]
