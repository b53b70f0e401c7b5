-- ===== src/Tree/Balance/Depth.antt =====
-- What the red-black rules mean for the time of a search, and where a deletion breaks them.
use picotcp.Base.{
  ℕ, suc, ◌+◌, ◌<◌, ◌≡◌, sym, subst, Option, none, some, List, [], ◌∷◌, Ordering, arith, length,
}
use picotcp.Tree.{
  Color, red, black, Tree, leaf, node, Frame, as_left, as_right, sibling, close, find_node,
}
use picotcp.Tree.Balance.{black_height, IsRedBlack}
use picotcp.Tree.Search.{close-find_node}
use picotcp.Tree.Delete.{delete}

abbrev slack : Color → ℕ
slack red = 1
slack black = 0

module _ {ℓ} {A : Type ℓ} where
  abbrev pub size : Tree A → ℕ
  size leaf = 0
  size (node c k l r) = suc (size l + size r)

  -- The node that a search has found has fewer than `n` nodes above it.
  abbrev pub FoundWithin : ℕ → Option (Tree A × List (Frame A)) → Type 0
  FoundWithin n none = Unit
  FoundWithin n (some (t, fs)) = length fs < n

  IsRedBlack-below : (t : Tree A) (fs : List (Frame A)) → IsRedBlack (close t fs) → IsRedBlack t
  IsRedBlack-below t [] h = h
  IsRedBlack-below t (as_left c k r ∷ fs) h = (IsRedBlack-below (node c k t r) fs h).2
  IsRedBlack-below t (as_right c k l ∷ fs) h = (IsRedBlack-below (node c k l t) fs h).3

  -- A node that is hung in a red-black tree is as high as its sibling.
  sibling_height :
      (t : Tree A) (f : Frame A) (fs : List (Frame A))
      → IsRedBlack (close t (f ∷ fs))
      → black_height t ≡ black_height (sibling f)
  sibling_height t (as_left c k r) fs h = (IsRedBlack-below (node c k t r) fs h).1
  sibling_height t (as_right c k l) fs h = sym (IsRedBlack-below (node c k l t) fs h).1

module _ {ℓ} {A : Type ℓ} (cmp : A → A → Ordering) (k : A) where
  delete_black_leaf :
      (t : Tree A) (x : A) (f : Frame A) (fs : List (Frame A))
      → find_node cmp k t [] ≡ some (node black x leaf leaf, f ∷ fs)
      → close leaf (f ∷ fs) ≡ (delete cmp black k t).0
  unfolding delete
  delete_black_leaf t x f fs h = rw h

  -- fix_delete_collisions does not run at LEAF: when the deleted node is black, is not the root
  -- and has no children, the red-black tree is none afterwards.
  pub delete_unbalances :
      (t : Tree A) (x : A) (f : Frame A) (fs : List (Frame A))
      → IsRedBlack t
      → find_node cmp k t [] ≡ some (node black x leaf leaf, f ∷ fs)
      → ¬ IsRedBlack (delete cmp black k t).0
  delete_unbalances t x f fs h found after =
      let before : IsRedBlack (close (node black x leaf leaf) (f ∷ fs)) =
        subst IsRedBlack (close-find_node cmp k t [] (node black x leaf leaf) (f ∷ fs) found) h in
      omega (
        arith,
        sibling_height (node black x leaf leaf) f fs before,
        sibling_height leaf f fs (subst IsRedBlack (sym (delete_black_leaf t x f fs found)) after),
      )
