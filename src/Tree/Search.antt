-- ===== src/Tree/Search.antt =====
-- What the trees of stack/pico_tree.c promise under any comparison function, also one that is no
-- order, as that of modules/pico_ipfilter.c.
use mathlib.Core.List.{append_assoc, append-nil}
use picotcp.Base.{
  ◌≡◌, ◌≢◌, ◌⊎◌, inl, inr, refl, sym, ap, ◌∙◌, subst, Bool, true, false, Option, none, some, List,
  [], ◌∷◌, ◌++◌, Ordering, arith, Option-cases,
}
use picotcp.Tree.{
  Color, red, black, Tree, leaf, node, Frame, as_left, as_right, Inserted, done, close, keys, paint,
  key_of, find_node, find_key, insert_place, fix_insert, insert_absent, insert,
}
use picotcp.Tree.Refine.{lefts, rights, keys-close, keys-paint, keys-fix_insert}
use picotcp.Tree.Delete.{check_switch, delete_found, delete}
use picotcp.Tree.Delete.Refine.{check_switch-keys, fix_if_black-keys}

abbrev pub All {ℓ κ} : {A : Type ℓ} → (A → Type κ) → List A → Type κ
All P [] = Unit
All P (x ∷ xs) = P x × All P xs

module _ {ℓ κ} {A : Type ℓ} (P : A → Type κ) where
  pub All-append : (xs ys : List A) → All P xs → All P ys → All P (xs ++ ys)
  All-append [] ys a b = b
  All-append (x ∷ xs) ys a b = (a.0, All-append xs ys a.1 b)

  pub All-left : (xs ys : List A) → All P (xs ++ ys) → All P xs
  All-left [] ys a = tt
  All-left (x ∷ xs) ys a = (a.0, All-left xs ys a.1)

  pub All-right : (xs ys : List A) → All P (xs ++ ys) → All P ys
  All-right [] ys a = a
  All-right (x ∷ xs) ys a = All-right xs ys a.1

  -- What holds of all members of a list holds of one at a place.
  pub All-at : (l xs : List A) (x : A) (ys : List A) → l ≡ xs ++ x ∷ ys → All P l → P x
  All-at l xs x ys e a = (All-right xs (x ∷ ys) (subst (All P) e a)).0

  -- Members may be added and taken out in the middle.
  pub All-add :
      (l xs : List A) (x : A) (ys : List A) → l ≡ xs ++ ys → All P l → P x → All P (xs ++ x ∷ ys)
  All-add l xs x ys e a p =
      let b : All P (xs ++ ys) = subst (All P) e a in
      All-append xs (x ∷ ys) (All-left xs ys b) (p, All-right xs ys b)

  pub All-take :
      (l xs : List A) (x : A) (ys : List A) → l ≡ xs ++ x ∷ ys → All P l → All P (xs ++ ys)
  All-take l xs x ys e a =
      let b : All P (xs ++ x ∷ ys) = subst (All P) e a in
      All-append xs ys (All-left xs (x ∷ ys) b) (All-right xs (x ∷ ys) b).1

module _ {ℓ} {A : Type ℓ} (cmp : A → A → Ordering) (k : A) where
  -- The node that is found, with its parents, is the tree.
  pub close-find_node :
      (t : Tree A) (fs : List (Frame A)) (u : Tree A) (gs : List (Frame A))
      → find_node cmp k t fs ≡ some (u, gs)
      → close t fs ≡ close u gs
  unfolding find_node
  close-find_node leaf fs u gs h = cc
  close-find_node (node c x l r) fs u gs h = ground (
    arith,
    close-find_node l (as_left c x r ∷ fs) u gs,
    close-find_node r (as_right c x l ∷ fs) u gs,
  )

  found_eq :
      (t : Tree A) (fs : List (Frame A)) (c : Color) (x : A) (l r : Tree A) (gs : List (Frame A))
      → find_node cmp k t fs ≡ some (node c x l r, gs)
      → cmp x k ≡ Ordering.eq
  unfolding find_node
  found_eq leaf fs c x l r gs h = cc
  found_eq (node d y m n) fs c x l r gs h = ground (
    arith,
    found_eq m (as_left d y n ∷ fs) c x l r gs,
    found_eq n (as_right d y m ∷ fs) c x l r gs,
  )

  key_of-some :
      (o : Option (Tree A × List (Frame A))) (x : A)
      → key_of cmp o ≡ some x
      → (c : Color) × (l r : Tree A) × (gs : List (Frame A)) × (o ≡ some (node c x l r, gs))
  key_of-some none x h = cc
  key_of-some (some (leaf, gs)) x h = cc
  key_of-some (some (node c y l r, gs)) x h = (c, l, r, gs, ground arith)

  found_shape :
      (t : Tree A) (c : Color) (x : A) (l r : Tree A) (gs : List (Frame A))
      → find_node cmp k t [] ≡ some (node c x l r, gs)
      → keys t ≡ (lefts gs ++ keys l) ++ x ∷ (keys r ++ rights gs)
  found_shape t c x l r gs h =
      ap keys (close-find_node t [] (node c x l r) gs h)
      ∙ keys-close (node c x l r) gs
      ∙ simp append_assoc

  -- A key that is found compares equal, and is one of the keys.
  pub find_key_sound :
      (t : Tree A) (x : A)
      → find_key cmp k t ≡ some x
      → (cmp x k ≡ Ordering.eq) × (xs ys : List A) × (keys t ≡ xs ++ x ∷ ys)
  unfolding find_key
  find_key_sound t x h =
      let (c, l, r, gs, e) = key_of-some (find_node cmp k t []) x h in
      (
        found_eq t [] c x l r gs e,
        lefts gs ++ keys l,
        keys r ++ rights gs,
        found_shape t c x l r gs e,
      )

  -- The place of a new node splits the keys in two.
  place_splits :
      (t : Tree A) (fs : List (Frame A))
      → lefts (insert_place cmp k t fs) ++ rights (insert_place cmp k t fs)
        ≡ lefts fs ++ (keys t ++ rights fs)
  unfolding insert_place
  place_splits leaf fs = refl
  place_splits (node c x l r) fs = ground (
    arith,
    place_splits l (as_left c x r ∷ fs),
    place_splits r (as_right c x l ∷ fs),
    append_assoc (keys l) (x ∷ keys r) (rights fs),
    append_assoc (lefts fs) (keys l ++ x ∷ []) (keys r ++ rights fs),
    append_assoc (keys l) (x ∷ []) (keys r ++ rights fs),
  )

  insert-absent :
      (alloc : Bool) (lc : Color) (t : Tree A)
      → find_key cmp k t ≡ none
      → insert cmp alloc lc k t ≡ insert_absent cmp alloc lc k t
  unfolding insert
  insert-absent alloc lc t h = rw (h, insert)

  -- An insertion that finds no key and gets its memory adds the key somewhere, and changes nothing
  -- else.
  pub insert_adds :
      (lc : Color) (t : Tree A)
      → find_key cmp k t ≡ none
      → (xs ys : List A) × (keys t ≡ xs ++ ys)
        × (keys (insert cmp true lc k t).0 ≡ xs ++ k ∷ ys)
        × ((insert cmp true lc k t).2 ≡ done)
  insert_adds lc t h =
      let fs = insert_place cmp k t [] in
      let n : Tree A = node red k leaf leaf in
      let e : keys (paint black (fix_insert lc n fs).0) ≡ lefts fs ++ k ∷ rights fs =
        keys-paint black (fix_insert lc n fs).0 ∙ keys-fix_insert lc n fs ∙ keys-close n fs in
      let i = insert-absent true lc t h in
      (
        lefts fs,
        rights fs,
        sym (place_splits t [] ∙ append-nil (keys t)),
        ap (λ (r : Tree A × Color × Inserted A). keys r.0) i ∙ unfold insert_absent in e,
        ap (λ (r : Tree A × Color × Inserted A). r.2) i ∙ unfold insert_absent in refl,
      )

  found_outcome :
      (alloc : Bool) (lc : Color) (t : Tree A) (x : A)
      → find_key cmp k t ≡ some x
      → let (t', lc', told) = insert cmp alloc lc k t in
        ((told ≢ done) × (t' ≡ t))
        ⊎ ((told ≡ done) × (xs ys : List A) × (keys t ≡ xs ++ ys) × (keys t' ≡ xs ++ k ∷ ys))
  unfolding insert
  found_outcome alloc lc t x e = inl (ground (arith, e), ground (arith, e))

  starved_outcome :
      (lc : Color) (t : Tree A)
      → find_key cmp k t ≡ none
      → let (t', lc', told) = insert cmp false lc k t in
        ((told ≢ done) × (t' ≡ t))
        ⊎ ((told ≡ done) × (xs ys : List A) × (keys t ≡ xs ++ ys) × (keys t' ≡ xs ++ k ∷ ys))
  unfolding insert
  starved_outcome lc t e = inl (ground (arith, e), ground (arith, e))

  -- An insertion adds its key somewhere or changes nothing, as it tells.
  pub insert_outcome :
      (alloc : Bool) (lc : Color) (t : Tree A)
      → let (t', lc', told) = insert cmp alloc lc k t in
        ((told ≢ done) × (t' ≡ t))
        ⊎ ((told ≡ done) × (xs ys : List A) × (keys t ≡ xs ++ ys) × (keys t' ≡ xs ++ k ∷ ys))
  insert_outcome true lc t = elim (Option-cases (find_key cmp k t)) [
    | inr (x, e) ↦ found_outcome true lc t x e
    | inl e ↦ let (xs, ys, a, b, c) = insert_adds lc t e in inr (c, xs, ys, a, b)
  ]
  insert_outcome false lc t = elim (Option-cases (find_key cmp k t)) [
    | inr (x, e) ↦ found_outcome false lc t x e
    | inl e ↦ starved_outcome lc t e
  ]

  -- A deletion that hands a key back takes this key out, and changes nothing else; the key is the
  -- one that a search finds.
  pub delete_takes :
      (lc : Color) (t : Tree A) (x : A)
      → find_key cmp k t ≡ some x
      → (xs ys : List A) × (keys t ≡ xs ++ x ∷ ys)
        × (keys (delete cmp lc k t).0 ≡ xs ++ ys)
        × ((delete cmp lc k t).2 ≡ some x)
  unfolding delete find_key
  delete_takes lc t x h =
      let (c, l, r, gs, e) = key_of-some (find_node cmp k t []) x h in
      let (d, temp, fs) = check_switch c l r gs in
      (
        lefts gs ++ keys l,
        keys r ++ rights gs,
        found_shape t c x l r gs e,
        rw e (fix_if_black-keys lc d temp fs ∙ check_switch-keys c l r gs ∙ simp append_assoc),
        rw e,
      )

  delete_found-none :
      (lc : Color) (o : Option (Tree A × List (Frame A))) (t : Tree A)
      → key_of cmp o ≡ none
      → delete_found lc o t ≡ (t, lc, none)
  unfolding delete_found
  delete_found-none lc none t h = refl
  delete_found-none lc (some (leaf, gs)) t h = refl
  delete_found-none lc (some (node c x l r, gs)) t h = cc

  -- A deletion that finds no key changes nothing.
  pub delete_absent :
      (lc : Color) (t : Tree A) → find_key cmp k t ≡ none → delete cmp lc k t ≡ (t, lc, none)
  unfolding delete find_key
  delete_absent lc t h = delete_found-none lc (find_node cmp k t []) t h
