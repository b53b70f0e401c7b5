-- ===== src/Tree/Delete/Refine.antt =====
-- Deletion of stack/pico_tree.c, seen on the keys in order.
use mathlib.Core.List.{append_assoc, append-nil}
use picotcp.Base.{◌≡◌, refl, sym, ap, subst, ◌∙◌, Option, List, [], ◌∷◌, ◌++◌, Ordering, arith}
use picotcp.Tree.{
  Color, red, black, Tree, leaf, node, Frame, as_left, as_right, color, paint, plug, close, keys,
  find_node,
}
use picotcp.Tree.Order.{
  IsOrder, Sorted, Sorted-left, Sorted-right, search_key, search_key-left, search_key-right,
  remove_key, delete_list, remove_key-left, remove_key-right, remove_key-Sorted,
}
use picotcp.Tree.Refine.{
  lefts, rights, keys-close, keys-close_congr, keys-paint, keys-rotate_to_left,
  keys-rotate_to_right,
}
use picotcp.Tree.Delete.{
  Round, climb, ended, settled, below, inner_left, inner_right, outer_left, outer_right,
  nephews_left, nephews_right, red_sibling, fix_round, fix_delete, take_min, check_switch,
  fix_if_black, delete_found, delete,
}

module _ {ℓ} {A : Type ℓ} where
  abbrev round_keys : Round A → List A
  round_keys (climb t lc) = keys t
  round_keys (ended t lc) = keys t
  round_keys (settled t lc) = keys t

  keys-inner_left : (c : Color) (s : Tree A) → keys (inner_left c s) ≡ keys s
  keys-inner_left c leaf = refl
  keys-inner_left c (node d x leaf r) = simp keys-paint
  keys-inner_left c (node d x (node d' x' l' r') r) = simp (keys-paint, append_assoc)

  keys-inner_right : (c : Color) (s : Tree A) → keys (inner_right c s) ≡ keys s
  keys-inner_right c leaf = refl
  keys-inner_right c (node d x l leaf) = simp keys-paint
  keys-inner_right c (node d x l (node d' x' l' r')) = simp (keys-paint, append_assoc)

  keys-outer_left : (c : Color) (s : Tree A) → keys (outer_left c s) ≡ keys s
  keys-outer_left c leaf = refl
  keys-outer_left c (node d x l r) = simp keys-paint

  keys-outer_right : (c : Color) (s : Tree A) → keys (outer_right c s) ≡ keys s
  keys-outer_right c leaf = refl
  keys-outer_right c (node d x l r) = simp keys-paint

  keys-nephews_left :
      (lc : Color) (n : Tree A) (c : Color) (k : A) (s : Tree A)
      → round_keys (nephews_left lc n c k s) ≡ keys n ++ k ∷ keys s
  keys-nephews_left lc n c k s = ground (
    arith,
    keys-rotate_to_left (node black k n (outer_left c s)),
    keys-rotate_to_left (node black k n (inner_left c s)),
    keys-outer_left c s,
    keys-inner_left c s,
    keys-paint red s,
  )

  keys-nephews_right :
      (lc : Color) (n : Tree A) (c : Color) (k : A) (s : Tree A)
      → round_keys (nephews_right lc n c k s) ≡ keys s ++ k ∷ keys n
  keys-nephews_right lc n c k s = ground (
    arith,
    keys-rotate_to_right (node black k (outer_right c s) n),
    keys-rotate_to_right (node black k (inner_right c s) n),
    keys-outer_right c s,
    keys-inner_right c s,
    keys-paint red s,
  )

  keys-below_left :
      (c : Color) (x : A) (r : Tree A) (b : Round A)
      → round_keys (below (as_left c x r) b) ≡ round_keys b ++ x ∷ keys r
  keys-below_left c x r (climb t lc) = rw (keys-paint black t)
  keys-below_left c x r (ended t lc) = refl
  keys-below_left c x r (settled t lc) = refl

  keys-below_right :
      (c : Color) (x : A) (l : Tree A) (b : Round A)
      → round_keys (below (as_right c x l) b) ≡ keys l ++ x ∷ round_keys b
  keys-below_right c x l (climb t lc) = rw (keys-paint black t)
  keys-below_right c x l (ended t lc) = refl
  keys-below_right c x l (settled t lc) = refl

  keys-red_sibling :
      (lc : Color) (n : Tree A) (f : Frame A) → round_keys (red_sibling lc n f) ≡ keys (plug n f)
  keys-red_sibling lc n (as_left c k leaf) = keys-nephews_left black n red k leaf
  keys-red_sibling lc n (as_left c k (node d x l r)) =
      keys-below_left black x r (nephews_left lc n red k l)
      ∙ rw (keys-nephews_left lc n red k l) (append_assoc (keys n) (k ∷ keys l) (x ∷ keys r))
  keys-red_sibling lc n (as_right c k leaf) = keys-nephews_right black n red k leaf
  keys-red_sibling lc n (as_right c k (node d x l r)) =
      keys-below_right black x l (nephews_right lc n red k r)
      ∙ rw (keys-nephews_right lc n red k r) (sym (append_assoc (keys l) (x ∷ keys r) (k ∷ keys n)))

  keys-fix_round :
      (lc : Color) (n : Tree A) (f : Frame A) → round_keys (fix_round lc n f) ≡ keys (plug n f)
  keys-fix_round lc n (as_left c k s) =
      elim (color lc s)
        as (λ b.
          round_keys
            (elim b [ red ↦ red_sibling lc n (as_left c k s) | black ↦ nephews_left lc n c k s ])
          ≡ keys n ++ k ∷ keys s) [
            | red ↦ keys-red_sibling lc n (as_left c k s)
            | black ↦ keys-nephews_left lc n c k s
          ]
  keys-fix_round lc n (as_right c k s) =
      elim (color lc s)
        as (λ b.
          round_keys
            (elim b [ red ↦ red_sibling lc n (as_right c k s) | black ↦ nephews_right lc n c k s ])
          ≡ keys s ++ k ∷ keys n) [
            | red ↦ keys-red_sibling lc n (as_right c k s)
            | black ↦ keys-nephews_right lc n c k s
          ]

  -- One round, and what is left of the loop in each of its ends.
  keys-round_end :
      (fs : List (Frame A)) (b : Round A)
      → ((lc : Color) (n : Tree A) → keys (fix_delete lc n fs).0 ≡ keys (close n fs))
      → (t : Tree A) → round_keys b ≡ keys t
      → keys
          (elim b as (λ _. Tree A × Color) [
            | climb n lc' ↦ fix_delete lc' n fs
            | ended u lc' ↦ (close u fs, lc')
            | settled u lc' ↦ (paint black (close u fs), lc')
          ]).0
        ≡ keys (close t fs)
  keys-round_end fs (climb n lc) ih t e = ih lc n ∙ keys-close_congr n t fs e
  keys-round_end fs (ended u lc) ih t e = keys-close_congr u t fs e
  keys-round_end fs (settled u lc) ih t e =
      keys-paint black (close u fs) ∙ keys-close_congr u t fs e

  -- The rebalancing after a deletion leaves the order of the keys alone.
  keys-fix_delete :
      (lc : Color) (n : Tree A) (fs : List (Frame A))
      → keys (fix_delete lc n fs).0 ≡ keys (close n fs)
  unfolding fix_delete
  keys-fix_delete lc n [] = keys-paint black n
  keys-fix_delete lc leaf (f ∷ fs) = refl
  keys-fix_delete lc (node red k l r) (f ∷ fs) =
      keys-close_congr (node black k l r) (node red k l r) (f ∷ fs) refl
  keys-fix_delete lc (node black k l r) (f ∷ fs) =
      keys-round_end fs (fix_round lc (node black k l r) f) (λ lc' n. keys-fix_delete lc' n fs)
        (plug (node black k l r) f) (keys-fix_round lc (node black k l r) f)

  lefts-append : (up fs : List (Frame A)) → lefts (up ++ fs) ≡ lefts fs ++ lefts up
  lefts-append [] fs = sym (append-nil (lefts fs))
  lefts-append (as_left c k r ∷ up) fs = lefts-append up fs
  lefts-append (as_right c k l ∷ up) fs =
      rw (lefts-append up fs) (append_assoc (lefts fs) (lefts up) _)

  rights-append : (up fs : List (Frame A)) → rights (up ++ fs) ≡ rights up ++ rights fs
  rights-append [] fs = refl
  rights-append (as_left c k r ∷ up) fs = simp (rights-append up fs, append_assoc)
  rights-append (as_right c k l ∷ up) fs = rights-append up fs

  -- The first node of a subtree, and what is left of the subtree without it.
  take_min-keys :
      (c : Color) (k : A) (l r : Tree A) (fs : List (Frame A))
      → let (c', k', temp, up) = take_min c k l r fs in
        (k' ∷ (keys temp ++ rights up) ≡ keys (node c k l r) ++ rights fs) × (lefts up ≡ lefts fs)
  unfolding take_min
  take_min-keys c k leaf r fs = (refl, refl)
  take_min-keys c k (node c' k' l' r') r fs =
      let (e, p) = take_min-keys c' k' l' r' (as_left c k r ∷ fs) in (e ∙ simp append_assoc, p)

  -- The tree from which the node is taken has its keys, without the node's.
  pub check_switch-keys :
      (d : Color) (l r : Tree A) (fs : List (Frame A))
      → let (c, temp, fs') = check_switch d l r fs in
        keys (close temp fs') ≡ lefts fs ++ ((keys l ++ keys r) ++ rights fs)
  unfolding check_switch
  check_switch-keys d leaf r fs = keys-close r fs
  check_switch-keys d (node c k l r) leaf fs =
      keys-close (node c k l r) fs ∙ simp (append-nil, append_assoc)
  check_switch-keys d (node c k l r) (node c' k' l' r') fs =
      let (mc, mk, temp, up) = take_min c' k' l' r' [] in
      let f : Frame A = as_right d mk (node c k l r) in
      let (e, p) = take_min-keys c' k' l' r' [] in
      keys-close temp (up ++ f ∷ fs)
      ∙ simp (lefts-append up (f ∷ fs), rights-append up (f ∷ fs), p, append_assoc, append-nil)
          (ap (λ (z : List A). lefts fs ++ (keys l ++ k ∷ (keys r ++ z)))
            (ap (λ (z : List A). mk ∷ z) (sym (append_assoc (keys temp) (rights up) (rights fs)))
              ∙ ap (λ (z : List A). z ++ rights fs) (e ∙ append-nil (keys l' ++ k' ∷ keys r'))
              ∙ append_assoc (keys l') (k' ∷ keys r') (rights fs)))

  pub fix_if_black-keys :
      (lc c : Color) (temp : Tree A) (fs : List (Frame A))
      → keys (fix_if_black lc (c, temp, fs)).0 ≡ keys (close temp fs)
  fix_if_black-keys lc red temp fs = refl
  fix_if_black-keys lc black temp fs = keys-fix_delete lc temp fs

module _ {ℓ} {A : Type ℓ} (cmp : A → A → Ordering) (o : IsOrder cmp) (k : A) where
  deleted_keys :
      (lc : Color) (t whole : Tree A) (fs : List (Frame A))
      → Sorted cmp (keys t)
      → keys whole ≡ lefts fs ++ (keys t ++ rights fs)
      → let (t', lc', told) = delete_found lc (find_node cmp k t fs) whole in
        (keys t' ≡ lefts fs ++ (remove_key cmp k (keys t) ++ rights fs))
        × (told ≡ search_key cmp k (keys t))
  unfolding delete_found find_node remove_key search_key
  deleted_keys lc leaf whole fs s e = (e, refl)
  deleted_keys lc (node c x l r) whole fs s e =
      let (d, temp, fs') = check_switch c l r fs in
      ground (
        arith,
        e,
        deleted_keys lc l whole (as_left c x r ∷ fs) (Sorted-left cmp (keys l) x (keys r) s),
        deleted_keys lc r whole (as_right c x l ∷ fs) (Sorted-right cmp (keys l) x (keys r) s),
        search_key-right cmp o k (keys l) x (keys r) s,
        search_key-left cmp o k (keys l) x (keys r) s,
        remove_key-right cmp o k (keys l) x (keys r) s,
        remove_key-left cmp o k (keys l) x (keys r) s,
        fix_if_black-keys lc d temp fs',
        check_switch-keys c l r fs,
        append_assoc (keys l) (x ∷ keys r) (rights fs),
        append_assoc (remove_key cmp k (keys l)) (x ∷ keys r) (rights fs),
        append_assoc (keys l) (x ∷ remove_key cmp k (keys r)) (rights fs),
        append_assoc (lefts fs) (keys l ++ x ∷ []) (keys r ++ rights fs),
        append_assoc (keys l) (x ∷ []) (keys r ++ rights fs),
        append_assoc (lefts fs) (keys l ++ x ∷ []) (remove_key cmp k (keys r) ++ rights fs),
        append_assoc (keys l) (x ∷ []) (remove_key cmp k (keys r) ++ rights fs),
      )

  -- pico_tree_delete on a tree in order, whatever the colours: the key that compares equal is
  -- handed back and leaves the tree, and no other key does.
  pub delete_refines :
      (lc : Color) (t : Tree A)
      → Sorted cmp (keys t)
      → let (t', lc', told) = delete cmp lc k t in (keys t', told) ≡ delete_list cmp k (keys t)
  unfolding delete
  delete_refines lc t s =
      let (e, f) = deleted_keys lc t t [] s (sym (append-nil (keys t))) in
      ground (arith, e, f, append-nil (remove_key cmp k (keys t)))

  -- A deletion keeps the tree in order.
  pub delete-Sorted :
      (lc : Color) (t : Tree A) → Sorted cmp (keys t) → Sorted cmp (keys (delete cmp lc k t).0)
  delete-Sorted lc t s =
      subst (Sorted cmp) (sym (ap (λ (p : List A × Option A). p.0) (delete_refines lc t s)))
        (remove_key-Sorted cmp o k (keys t) s)
