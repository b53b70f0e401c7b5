-- ===== src/Tree/Delete.antt =====
-- Deletion: pico_tree_delete_node, pico_tree_delete_check_switch, fix_delete_collisions and
-- pico_tree_delete_implementation of stack/pico_tree.c. `switchNodes` hangs a subtree in where
-- another one was, which is what `close` and `plug` do to a subtree and its frames.
-- A NULL key, which the C code refuses, is not a value of the key type.
pub mod Refine
use picotcp.Base.{Option, none, some, List, [], ◌∷◌, ◌++◌, Ordering}
use picotcp.Tree.{
  Color, red, black, Tree, leaf, node, Frame, as_left, as_right, color, paint, leaf_after,
  left_child, right_child, plug, close, rotate_to_left, rotate_to_right, find_node,
}

-- How one round of the loop of fix_delete_collisions ends: `climb`, the parent is `node` now and
-- the test is made again; `ended`, `node` was red, and has been painted; `settled`, `node` is the
-- root. The tree is what stands where the parent stood.
pub data Round {ℓ} (A : Type ℓ) : Type ℓ where
  climb : Tree A → Color → Round A
  ended : Tree A → Color → Round A
  settled : Tree A → Color → Round A

module _ {ℓ} {A : Type ℓ} where
  -- A red sibling has been rotated above the parent, which is red then.
  abbrev pub below : Frame A → Round A → Round A
  below f (climb t lc) = ended (plug (paint black t) f) lc
  below f (ended t lc) = ended (plug t f) lc
  below f (settled t lc) = settled (plug t f) lc

  -- The sibling `s` of a left child after `temp->rightChild->color == BLACK` has been treated:
  -- its left child is rotated above it. In the C code `temp` stays the old sibling, because its
  -- parent is that left child by then, so it is the old sibling that takes the parent's colour.
  abbrev pub inner_left : Color → Tree A → Tree A
  inner_left c leaf = leaf
  inner_left c (node d x leaf r) = node c x leaf (paint black r)
  inner_left c (node d x (node d' x' l' r') r) = node black x' l' (node c x r' (paint black r))

  abbrev pub inner_right : Color → Tree A → Tree A
  inner_right c leaf = leaf
  inner_right c (node d x l leaf) = node c x (paint black l) leaf
  inner_right c (node d x l (node d' x' l' r')) = node black x' (node c x (paint black l) l') r'

  abbrev pub outer_left : Color → Tree A → Tree A
  outer_left c leaf = leaf
  outer_left c (node d x l r) = node c x l (paint black r)

  abbrev pub outer_right : Color → Tree A → Tree A
  outer_right c leaf = leaf
  outer_right c (node d x l r) = node c x (paint black l) r

  -- The part of a round after the test for a red sibling: `n` is a left child, its parent has the
  -- colour `c` and the key `k`, and `s` is its sibling.
  abbrev pub nephews_left : Color → Tree A → Color → A → Tree A → Round A
  nephews_left lc n c k s = elim (color lc (right_child s)) [
    | red ↦
        settled (rotate_to_left (node black k n (outer_left c s)))
          (leaf_after black (right_child s) (leaf_after c s lc))
    | black ↦ elim (color lc (left_child s)) [
      | black ↦ climb (node c k n (paint red s)) (leaf_after red s lc)
      | red ↦
          settled (rotate_to_left (node black k n (inner_left c s)))
            (leaf_after black (right_child s) (leaf_after c s (leaf_after black (left_child s) lc)))
    ]
  ]

  abbrev pub nephews_right : Color → Tree A → Color → A → Tree A → Round A
  nephews_right lc n c k s = elim (color lc (left_child s)) [
    | red ↦
        settled (rotate_to_right (node black k (outer_right c s) n))
          (leaf_after black (left_child s) (leaf_after c s lc))
    | black ↦ elim (color lc (right_child s)) [
      | black ↦ climb (node c k (paint red s) n) (leaf_after red s lc)
      | red ↦
          settled (rotate_to_right (node black k (inner_right c s) n))
            (leaf_after black (left_child s) (leaf_after c s (leaf_after black (right_child s) lc)))
    ]
  ]

  -- The sibling is red: it turns black, the parent red, and is rotated above the parent. LEAF
  -- can be red, and is not rotated.
  abbrev pub red_sibling : Color → Tree A → Frame A → Round A
  red_sibling lc n (as_left c k leaf) = nephews_left black n red k leaf
  red_sibling lc n (as_left c k (node d x l r)) =
      below (as_left black x r) (nephews_left lc n red k l)
  red_sibling lc n (as_right c k leaf) = nephews_right black n red k leaf
  red_sibling lc n (as_right c k (node d x l r)) =
      below (as_right black x l) (nephews_right lc n red k r)

  -- One round of the loop of fix_delete_collisions, at the node `n` below the frame.
  abbrev pub fix_round : Color → Tree A → Frame A → Round A
  fix_round lc n (as_left c k s) = elim (color lc s) [
    | red ↦ red_sibling lc n (as_left c k s)
    | black ↦ nephews_left lc n c k s
  ]
  fix_round lc n (as_right c k s) = elim (color lc s) [
    | red ↦ red_sibling lc n (as_right c k s)
    | black ↦ nephews_right lc n c k s
  ]

  -- fix_delete_collisions: the clauses are the loop's test, `node != root`, BLACK and no LEAF.
  unfoldable pub fix_delete : Color → Tree A → List (Frame A) → Tree A × Color
  fix_delete lc n [] = (paint black n, leaf_after black n lc)
  fix_delete lc leaf (f ∷ fs) = (close leaf (f ∷ fs), black)
  fix_delete lc (node red k l r) (f ∷ fs) = (close (node black k l r) (f ∷ fs), lc)
  fix_delete lc (node black k l r) (f ∷ fs) = elim (fix_round lc (node black k l r) f) [
    | climb n lc' ↦ fix_delete lc' n fs
    | ended t lc' ↦ (close t fs, lc')
    | settled t lc' ↦ (paint black (close t fs), lc')
  ]

  -- pico_tree_delete_node: `min`, the first node of the right child, takes the place of the
  -- deleted node, with its colour `d` and left child `dl`. The results are the colour that `min`
  -- had, the node `temp` that took the place of `min`, and the frames of `temp`.
  unfoldable pub take_min :
      Color → A → Tree A → Tree A → List (Frame A) → (Color × A × Tree A × List (Frame A))
  take_min c k leaf r fs = (c, k, r, fs)
  take_min c k (node c' k' l' r') r fs = take_min c' k' l' r' (as_left c k r ∷ fs)

  -- pico_tree_delete_check_switch: the deleted node has the colour `d` and the children given.
  unfoldable pub check_switch :
      Color → Tree A → Tree A → List (Frame A) → (Color × Tree A × List (Frame A))
  unfolding take_min
  check_switch d leaf r fs = (d, r, fs)
  check_switch d (node c k l r) leaf fs = (d, node c k l r, fs)
  check_switch d (node c k l r) (node c' k' l' r') fs =
      let (min_color, min_key, temp, up) = take_min c' k' l' r' [] in
      (min_color, temp, up ++ as_right d min_key (node c k l r) ∷ fs)

  -- if_nodecolor_black_fix_collisions
  abbrev pub fix_if_black : Color → (Color × Tree A × List (Frame A)) → Tree A × Color
  fix_if_black lc (red, temp, fs) = (close temp fs, lc)
  fix_if_black lc (black, temp, fs) = fix_delete lc temp fs

  unfoldable pub delete_found :
      Color → Option (Tree A × List (Frame A)) → Tree A → (Tree A × Color × Option A)
  unfolding fix_delete check_switch
  delete_found lc none t = (t, lc, none)
  delete_found lc (some (leaf, fs)) t = (t, lc, none)
  delete_found lc (some (node c k l r, fs)) t =
      let (t', lc') = fix_if_black lc (check_switch c l r fs) in (t', lc', some k)

-- pico_tree_delete: the new tree, the colour of LEAF, and the key that was removed.
unfoldable pub delete {ℓ} :
    {A : Type ℓ} → (A → A → Ordering) → Color → A → Tree A → (Tree A × Color × Option A)
unfolding delete_found find_node
delete cmp lc k t = delete_found lc (find_node cmp k t []) t
