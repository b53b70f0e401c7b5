-- ===== src/Tree/Refine.antt =====
-- Search and insertion of stack/pico_tree.c, seen on the keys in order.
use mathlib.Core.List.{append_assoc, append-nil}
use picotcp.Base.{
  ◌≡◌, ◌≢◌, ◌⊎◌, inl, inr, refl, sym, ◌∙◌, Bool, true, false, none, Option-cases, List, [], ◌∷◌,
  ◌++◌, Ordering, arith,
}
use picotcp.Tree.{
  Color, red, black, Tree, leaf, node, Frame, as_left, as_right, paint, leaf_after, plug, sibling,
  close, keys, rotate_to_left, rotate_to_right, recolor, rotate_up, lift_left, lift_right, Inserted,
  done, fix_insert, find_node, key_of, find_key, insert_place, insert_absent, insert,
}
use picotcp.Tree.Order.{
  IsOrder, Sorted, Sorted-left, Sorted-right, insert_key, insert_list, search_key, insert_key-left,
  insert_key-right, search_key-left, search_key-right, insert_key-Sorted,
}

ruleset append_laws = (append_assoc, append-nil)

module _ {ℓ} {A : Type ℓ} where
  -- The keys to the left and to the right of a node, from its frames.
  abbrev pub lefts : List (Frame A) → List A
  lefts [] = []
  lefts (as_left c k r ∷ fs) = lefts fs
  lefts (as_right c k l ∷ fs) = lefts fs ++ (keys l ++ k ∷ [])

  abbrev pub rights : List (Frame A) → List A
  rights [] = []
  rights (as_left c k r ∷ fs) = k ∷ (keys r ++ rights fs)
  rights (as_right c k l ∷ fs) = rights fs

  pub keys-close :
      (t : Tree A) (fs : List (Frame A)) → keys (close t fs) ≡ lefts fs ++ (keys t ++ rights fs)
  keys-close t [] = rw append-nil
  keys-close t (as_left c k r ∷ fs) = keys-close (node c k t r) fs ∙ simp append_assoc
  keys-close t (as_right c k l ∷ fs) = keys-close (node c k l t) fs ∙ simp append_assoc

  pub keys-close_congr :
      (t u : Tree A) (fs : List (Frame A)) → keys t ≡ keys u → keys (close t fs) ≡ keys (close u fs)
  keys-close_congr t u fs e = rw (keys-close t fs, keys-close u fs, e)

  pub keys-paint : (c : Color) (t : Tree A) → keys (paint c t) ≡ keys t
  keys-paint c leaf = refl
  keys-paint c (node d k l r) = refl

  pub keys-rotate_to_left : (t : Tree A) → keys (rotate_to_left t) ≡ keys t
  keys-rotate_to_left leaf = refl
  keys-rotate_to_left (node c k l leaf) = refl
  keys-rotate_to_left (node c k l (node c' k' l' r')) =
      append_assoc (keys l) (k ∷ keys l') (k' ∷ keys r')

  pub keys-rotate_to_right : (t : Tree A) → keys (rotate_to_right t) ≡ keys t
  keys-rotate_to_right leaf = refl
  keys-rotate_to_right (node c k leaf r) = refl
  keys-rotate_to_right (node c k (node c' k' l' r') r) =
      sym (append_assoc (keys l') (k' ∷ keys r') (k ∷ keys r))

  keys-recolor : (n : Tree A) (p g : Frame A) → keys (recolor n p g) ≡ keys (plug (plug n p) g)
  keys-recolor n p (as_left c k r) = simp keys-paint
  keys-recolor n p (as_right c k l) = simp keys-paint

  keys-lift_left : (n : Tree A) (p : Frame A) → keys (lift_left n p) ≡ keys (plug n p)
  keys-lift_left n (as_left c k r) = keys-rotate_to_right (node c k n r)
  keys-lift_left n (as_right c k r) = refl

  keys-lift_right : (n : Tree A) (p : Frame A) → keys (lift_right n p) ≡ keys (plug n p)
  keys-lift_right n (as_left c k r) = refl
  keys-lift_right n (as_right c k l) = keys-rotate_to_left (node c k l n)

  keys-rotate_up : (n : Tree A) (p g : Frame A) → keys (rotate_up n p g) ≡ keys (plug (plug n p) g)
  keys-rotate_up n p (as_left c k r) =
      keys-rotate_to_right (node red k (paint black (lift_right n p)) r)
      ∙ rw (keys-paint black (lift_right n p), keys-lift_right n p)
  keys-rotate_up n p (as_right c k l) =
      keys-rotate_to_left (node red k l (paint black (lift_left n p)))
      ∙ rw (keys-paint black (lift_left n p), keys-lift_left n p)

  -- The rebalancing after an insertion leaves the order of the keys alone.
  pub keys-fix_insert :
      (lc : Color) (n : Tree A) (fs : List (Frame A))
      → keys (fix_insert lc n fs).0 ≡ keys (close n fs)
  unfolding fix_insert
  keys-fix_insert lc n [] = refl
  keys-fix_insert lc n (p ∷ []) = refl
  keys-fix_insert lc n (p ∷ g ∷ fs) = ground (
    arith,
    keys-fix_insert (leaf_after black (sibling g) lc) (recolor n p g) fs,
    keys-close_congr (recolor n p g) (plug (plug n p) g) fs (keys-recolor n p g),
    keys-close_congr (rotate_up n p g) (plug (plug n p) g) fs (keys-rotate_up n p g),
  )

module _ {ℓ} {A : Type ℓ} (cmp : A → A → Ordering) (o : IsOrder cmp) (k : A) where
  key_of-find_node :
      (t : Tree A) (fs : List (Frame A))
      → Sorted cmp (keys t)
      → key_of cmp (find_node cmp k t fs) ≡ search_key cmp k (keys t)
  unfolding find_node search_key
  key_of-find_node leaf fs s = refl
  key_of-find_node (node c x l r) fs s = ground (
    arith,
    key_of-find_node l (as_left c x r ∷ fs) (Sorted-left cmp (keys l) x (keys r) s),
    key_of-find_node r (as_right c x l ∷ fs) (Sorted-right cmp (keys l) x (keys r) s),
    search_key-right cmp o k (keys l) x (keys r) s,
    search_key-left cmp o k (keys l) x (keys r) s,
  )

  -- On a tree in order, pico_tree_findKey finds the key that compares equal, and finds one
  -- whenever there is one.
  pub find_key-keys :
      (t : Tree A) → Sorted cmp (keys t) → find_key cmp k t ≡ search_key cmp k (keys t)
  unfolding find_key
  find_key-keys t s = key_of-find_node t [] s

  place-keys :
      (t : Tree A) (fs : List (Frame A))
      → Sorted cmp (keys t)
      → lefts (insert_place cmp k t fs) ++ k ∷ rights (insert_place cmp k t fs)
        ≡ lefts fs ++ (insert_key cmp k (keys t) ++ rights fs)
  unfolding insert_place insert_key
  place-keys leaf fs s = refl
  place-keys (node c x l r) fs s = ground (
    arith,
    place-keys l (as_left c x r ∷ fs) (Sorted-left cmp (keys l) x (keys r) s),
    place-keys r (as_right c x l ∷ fs) (Sorted-right cmp (keys l) x (keys r) s),
    insert_key-left cmp o k (keys l) x (keys r),
    insert_key-right cmp o k (keys l) x (keys r) s,
    append_assoc (insert_key cmp k (keys l)) (x ∷ keys r) (rights fs),
    append_assoc (keys l) (x ∷ insert_key cmp k (keys r)) (rights fs),
    append_assoc (lefts fs) (keys l ++ x ∷ []) (insert_key cmp k (keys r) ++ rights fs),
    append_assoc (keys l) (x ∷ []) (insert_key cmp k (keys r) ++ rights fs),
  )

  insert_absent-keys :
      (lc : Color) (t : Tree A)
      → Sorted cmp (keys t)
      → keys (insert_absent cmp true lc k t).0 ≡ insert_key cmp k (keys t)
  unfolding insert_absent
  insert_absent-keys lc t s =
      let fs = insert_place cmp k t [] in
      let n : Tree A = node red k leaf leaf in
      keys-paint black (fix_insert lc n fs).0
      ∙ keys-fix_insert lc n fs
      ∙ keys-close n fs
      ∙ place-keys t [] s
      ∙ append-nil (insert_key cmp k (keys t))

  -- pico_tree_insert on a tree in order, whatever the colours: a key that compares equal is
  -- handed back and nothing changes; so too without memory; else the key enters at its place.
  pub insert_refines :
      (alloc : Bool) (lc : Color) (t : Tree A)
      → Sorted cmp (keys t)
      → let (t', lc', told) = insert cmp alloc lc k t in
        (keys t', told) ≡ insert_list cmp k alloc (keys t)
  unfolding insert
  insert_refines true lc t s = ground (arith, find_key-keys t s, insert_absent-keys lc t s)
  insert_refines false lc t s = ground (arith, find_key-keys t s)

  -- An insertion keeps the tree in order.
  pub insert-Sorted :
      (alloc : Bool) (lc : Color) (t : Tree A)
      → Sorted cmp (keys t)
      → Sorted cmp (keys (insert cmp alloc lc k t).0)
  unfolding insert
  insert-Sorted true lc t s =
      ground
        (arith, find_key-keys t s, insert_absent-keys lc t s, insert_key-Sorted cmp o k (keys t) s)
  insert-Sorted false lc t s = ground arith

-- How an insertion into a list ends.
module _ {ℓ} {A : Type ℓ} (cmp : A → A → Ordering) (a : A) where
  abbrev ListInsertion : Bool → List A → List A × Inserted A → Type ℓ
  ListInsertion alloc xs (xs', told) =
      ((xs' ≡ xs) × (told ≢ done) × ((alloc ≡ false) ⊎ (search_key cmp a xs ≢ none)))
      ⊎ ((xs' ≡ insert_key cmp a xs)
          × (told ≡ done)
          × (alloc ≡ true)
          × (search_key cmp a xs ≡ none))

  pub insert_list_cases :
      (alloc : Bool) (xs : List A) → ListInsertion alloc xs (insert_list cmp a alloc xs)
  insert_list_cases alloc xs = elim (Option-cases (search_key cmp a xs)) [
    | inr (x, e) ↦
        inl (ground (arith, e), (λ h. ground (arith, e, h)), inr (λ h. ground (arith, e, h)))
    | inl e ↦ absent alloc e
  ]
    where
      absent :
          (alloc : Bool)
          → search_key cmp a xs ≡ none
          → ListInsertion alloc xs (insert_list cmp a alloc xs)
      absent true e = inr (ground (arith, e), ground (arith, e), refl, e)
      absent false e = inl (ground (arith, e), (λ h. ground (arith, e, h)), inl refl)
