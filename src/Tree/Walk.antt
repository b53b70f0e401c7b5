-- ===== src/Tree/Walk.antt =====
-- Going through a tree: pico_tree_firstNode, pico_tree_next and the loop of pico_tree_foreach of
-- stack/pico_tree.c and include/pico_tree.h, and pico_tree_lastNode, pico_tree_prev and
-- pico_tree_foreach_reverse. A position is a node with its parents; `none` is &LEAF.
use mathlib.Core.List.{append_assoc, append-nil, reverse, reverse-append}
use picotcp.Base.{
  ℕ, zero, suc, ◌≤◌, ◌≡◌, refl, sym, ap, ◌∙◌, Option, none, some, List, [], ◌∷◌, ◌++◌, arith,
  length, length-append,
}
use picotcp.Tree.{Color, Tree, leaf, node, Frame, as_left, as_right, keys}
use picotcp.Tree.Refine.{lefts, rights}

abbrev pub Position {ℓ} : Type ℓ → Type ℓ
Position A = Option (Tree A × List (Frame A))

module _ {ℓ} {A : Type ℓ} where
  -- Down to the leftmost and to the rightmost node.
  unfoldable pub first_node : Tree A → List (Frame A) → Tree A × List (Frame A)
  first_node leaf fs = (leaf, fs)
  first_node (node c k leaf r) fs = (node c k leaf r, fs)
  first_node (node c k (node c' k' l' r') r) fs = first_node (node c' k' l' r') (as_left c k r ∷ fs)

  unfoldable pub last_node : Tree A → List (Frame A) → Tree A × List (Frame A)
  last_node leaf fs = (leaf, fs)
  last_node (node c k l leaf) fs = (node c k l leaf, fs)
  last_node (node c k l (node c' k' l' r')) fs = last_node (node c' k' l' r') (as_right c k l ∷ fs)

  -- Up to the first parent that is reached from its left child, or from its right one.
  unfoldable pub climb_right : Tree A → List (Frame A) → Position A
  climb_right t [] = none
  climb_right t (as_left c k r ∷ fs) = some (node c k t r, fs)
  climb_right t (as_right c k l ∷ fs) = climb_right (node c k l t) fs

  unfoldable pub climb_left : Tree A → List (Frame A) → Position A
  climb_left t [] = none
  climb_left t (as_right c k l ∷ fs) = some (node c k l t, fs)
  climb_left t (as_left c k r ∷ fs) = climb_left (node c k t r) fs

  unfoldable pub next : Tree A → List (Frame A) → Position A
  unfolding first_node climb_right
  next leaf fs = none
  next (node c k l leaf) fs = climb_right (node c k l leaf) fs
  next (node c k l (node c' k' l' r')) fs =
      some (first_node (node c' k' l' r') (as_right c k l ∷ fs))

  unfoldable pub prev : Tree A → List (Frame A) → Position A
  unfolding last_node climb_left
  prev leaf fs = none
  prev (node c k leaf r) fs = climb_left (node c k leaf r) fs
  prev (node c k (node c' k' l' r') r) fs = some (last_node (node c' k' l' r') (as_left c k r ∷ fs))

  abbrev key_at : Tree A × List (Frame A) → Option A
  key_at (leaf, fs) = none
  key_at (node c k l r, fs) = some k

  -- pico_tree_first
  unfoldable pub first : Tree A → Option A
  unfolding first_node
  first t = key_at (first_node t [])

  -- The keys that the loop meets from a position on, in at most so many rounds.
  unfoldable pub walk : ℕ → Position A → List A
  unfolding next
  walk zero p = []
  walk (suc fuel) none = []
  walk (suc fuel) (some (leaf, fs)) = []
  walk (suc fuel) (some (node c k l r, fs)) = k ∷ walk fuel (next (node c k l r) fs)

  unfoldable pub walk_back : ℕ → Position A → List A
  unfolding prev
  walk_back zero p = []
  walk_back (suc fuel) none = []
  walk_back (suc fuel) (some (leaf, fs)) = []
  walk_back (suc fuel) (some (node c k l r, fs)) = k ∷ walk_back fuel (prev (node c k l r) fs)

  unfoldable pub foreach : ℕ → Tree A → List A
  unfolding walk
  foreach fuel t = walk fuel (some (first_node t []))

  unfoldable pub foreach_reverse : ℕ → Tree A → List A
  unfolding walk_back
  foreach_reverse fuel t = walk_back fuel (some (last_node t []))

  -- The keys from a position on.
  abbrev ahead : Position A → List A
  ahead none = []
  ahead (some (leaf, fs)) = []
  ahead (some (node c k l r, fs)) = k ∷ (keys r ++ rights fs)

  ahead-first_node :
      (c : Color) (k : A) (l r : Tree A) (fs : List (Frame A))
      → ahead (some (first_node (node c k l r) fs)) ≡ keys (node c k l r) ++ rights fs
  unfolding first_node
  ahead-first_node c k leaf r fs = refl
  ahead-first_node c k (node c' k' l' r') r fs =
      ahead-first_node c' k' l' r' (as_left c k r ∷ fs) ∙ simp append_assoc

  abbrev pub head : List A → Option A
  head [] = none
  head (x ∷ xs) = some x

  key_at-ahead : (p : Tree A × List (Frame A)) → key_at p ≡ head (ahead (some p))
  key_at-ahead (leaf, fs) = refl
  key_at-ahead (node c k l r, fs) = refl

  pub first-keys : (t : Tree A) → first t ≡ head (keys t)
  unfolding first
  first-keys leaf = refl
  first-keys (node c k l r) =
      key_at-ahead (first_node (node c k l r) [])
      ∙ ap head (ahead-first_node c k l r [] ∙ append-nil (keys l ++ k ∷ keys r))

  ahead-climb_right : (t : Tree A) (fs : List (Frame A)) → ahead (climb_right t fs) ≡ rights fs
  unfolding climb_right
  ahead-climb_right t [] = refl
  ahead-climb_right t (as_left c k r ∷ fs) = refl
  ahead-climb_right t (as_right c k l ∷ fs) = ahead-climb_right (node c k l t) fs

  ahead-next :
      (c : Color) (k : A) (l r : Tree A) (fs : List (Frame A))
      → ahead (next (node c k l r) fs) ≡ keys r ++ rights fs
  unfolding next
  ahead-next c k l leaf fs = ahead-climb_right (node c k l leaf) fs
  ahead-next c k l (node c' k' l' r') fs = ahead-first_node c' k' l' r' (as_right c k l ∷ fs)

  walk-ahead : (fuel : ℕ) (p : Position A) → length (ahead p) ≤ fuel → walk fuel p ≡ ahead p
  unfolding walk
  walk-ahead zero none h = refl
  walk-ahead zero (some (leaf, fs)) h = refl
  walk-ahead zero (some (node c k l r, fs)) h = absurd (omega arith)
  walk-ahead (suc fuel) none h = refl
  walk-ahead (suc fuel) (some (leaf, fs)) h = refl
  walk-ahead (suc fuel) (some (node c k l r, fs)) h =
      let e = ahead-next c k l r fs in
      ap (λ (xs : List A). k ∷ xs)
        (walk-ahead fuel (next (node c k l r) fs) (omega (arith, ap length e, h)) ∙ e)

  -- pico_tree_foreach meets every key once, from left to right, and ends.
  pub foreach-keys : (fuel : ℕ) (t : Tree A) → length (keys t) ≤ fuel → foreach fuel t ≡ keys t
  unfolding foreach
  foreach-keys fuel leaf h = walk-ahead fuel (some (leaf, [])) h
  foreach-keys fuel (node c k l r) h =
      let e = ahead-first_node c k l r [] ∙ append-nil (keys l ++ k ∷ keys r) in
      walk-ahead fuel (some (first_node (node c k l r) [])) (omega (arith, ap length e, h)) ∙ e

  -- The keys from a position back: the reverse of those up to it.
  abbrev upto : Position A → List A
  upto none = []
  upto (some (leaf, fs)) = []
  upto (some (node c k l r, fs)) = lefts fs ++ (keys l ++ k ∷ [])

  upto-last_node :
      (c : Color) (k : A) (l r : Tree A) (fs : List (Frame A))
      → upto (some (last_node (node c k l r) fs)) ≡ lefts fs ++ keys (node c k l r)
  unfolding last_node
  upto-last_node c k l leaf fs = refl
  upto-last_node c k l (node c' k' l' r') fs =
      upto-last_node c' k' l' r' (as_right c k l ∷ fs) ∙ simp append_assoc

  upto-climb_left : (t : Tree A) (fs : List (Frame A)) → upto (climb_left t fs) ≡ lefts fs
  unfolding climb_left
  upto-climb_left t [] = refl
  upto-climb_left t (as_right c k l ∷ fs) = refl
  upto-climb_left t (as_left c k r ∷ fs) = upto-climb_left (node c k t r) fs

  upto-prev :
      (c : Color) (k : A) (l r : Tree A) (fs : List (Frame A))
      → upto (prev (node c k l r) fs) ≡ lefts fs ++ keys l
  unfolding prev
  upto-prev c k leaf r fs = upto-climb_left (node c k leaf r) fs ∙ sym (append-nil (lefts fs))
  upto-prev c k (node c' k' l' r') r fs = upto-last_node c' k' l' r' (as_left c k r ∷ fs)

  walk_back-upto :
      (fuel : ℕ) (p : Position A) → length (upto p) ≤ fuel → walk_back fuel p ≡ reverse (upto p)
  unfolding walk_back
  walk_back-upto zero none h = refl
  walk_back-upto zero (some (leaf, fs)) h = refl
  walk_back-upto zero (some (node c k l r, fs)) h =
      absurd (
        omega (arith, length-append (lefts fs) (keys l ++ k ∷ []), length-append (keys l) (k ∷ [])))
  walk_back-upto (suc fuel) none h = refl
  walk_back-upto (suc fuel) (some (leaf, fs)) h = refl
  walk_back-upto (suc fuel) (some (node c k l r, fs)) h =
      let e = upto-prev c k l r fs in
      let fits : length (upto (prev (node c k l r) fs)) ≤ fuel = omega (
        arith,
        ap length e,
        length-append (lefts fs) (keys l ++ k ∷ []),
        length-append (keys l) (k ∷ []),
        length-append (lefts fs) (keys l),
      ) in
      ap (λ (xs : List A). k ∷ xs)
        (walk_back-upto fuel (prev (node c k l r) fs) fits ∙ ap reverse e)
      ∙ sym (
          ap reverse (sym (append_assoc (lefts fs) (keys l) (k ∷ [])))
          ∙ reverse-append (lefts fs ++ keys l) (k ∷ []))

  -- pico_tree_foreach_reverse meets every key once, from right to left, and ends.
  pub foreach_reverse-keys :
      (fuel : ℕ) (t : Tree A) → length (keys t) ≤ fuel → foreach_reverse fuel t ≡ reverse (keys t)
  unfolding foreach_reverse
  foreach_reverse-keys fuel leaf h = walk_back-upto fuel (some (leaf, [])) h
  foreach_reverse-keys fuel (node c k l r) h =
      let e = upto-last_node c k l r [] in
      walk_back-upto fuel (some (last_node (node c k l r) [])) (omega (arith, ap length e, h))
      ∙ ap reverse e
