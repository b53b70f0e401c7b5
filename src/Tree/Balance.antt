-- ===== src/Tree/Balance.antt =====
-- The balance of the red-black trees of stack/pico_tree.c under insertion.
pub mod Depth
use picotcp.Base.{
  ℕ, zero, suc, ◌+◌, ◌*◌, ◌^◌, ◌≤◌, ◌<◌, ◌≡◌, refl, sym, subst, Bool, true, false, ◌⊎◌, inl, inr,
  Option, none, some, List, [], ◌∷◌, Ordering, arith,
}
use picotcp.Tree.{
  Color, red, black, Tree, leaf, node, Frame, as_left, as_right, Inserted, exists, color, paint,
  plug, sibling, frame_color, close, leaf_after, recolor, rotate_up, fix_insert, insert_place,
  insert_absent, insert, find_key,
}

Color-cases : (c : Color) → (c ≡ black) ⊎ (c ≡ red)
Color-cases red = inr refl
Color-cases black = inl refl

abbrev pub above : Color → ℕ → ℕ
above red n = n
above black n = suc n

module _ {ℓ} {A : Type ℓ} where
  -- The black nodes on the way down to the leftmost LEAF.
  abbrev pub black_height : Tree A → ℕ
  black_height leaf = 0
  black_height (node red k l r) = black_height l
  black_height (node black k l r) = suc (black_height l)

  -- No red node has a red child.
  abbrev pub RedRule : Color → Tree A → Tree A → Type 0
  RedRule red l r = (color black l ≡ black) × (color black r ≡ black)
  RedRule black l r = Unit

  abbrev pub IsRedBlack : Tree A → Type 0
  IsRedBlack leaf = Unit
  IsRedBlack (node c k l r) =
      RedRule c l r × (black_height l ≡ black_height r) × IsRedBlack l × IsRedBlack r

  abbrev pub top_color : List (Frame A) → Color
  top_color [] = black
  top_color (f ∷ fs) = frame_color f

  -- The frames make a red-black tree out of one that is `n` black nodes high, but for its root.
  abbrev pub Fits : ℕ → List (Frame A) → Type 0
  Fits n [] = Unit
  Fits n (f ∷ fs) =
      (frame_color f ≡ red → (color black (sibling f) ≡ black) × (top_color fs ≡ black))
      × (black_height (sibling f) ≡ n)
      × IsRedBlack (sibling f)
      × Fits (above (frame_color f) n) fs

  -- A subtree may be hung in under its frames.
  IsRedBlack-close :
      (t : Tree A) (fs : List (Frame A))
      → IsRedBlack t
      → (color black t ≡ red → top_color fs ≡ black)
      → Fits (black_height t) fs
      → IsRedBlack (close t fs)
  IsRedBlack-close t [] h e f = h
  IsRedBlack-close t (as_left red k r ∷ fs) h e f =
      IsRedBlack-close (node red k t r) fs (ground arith) (ground arith) f.3
  IsRedBlack-close t (as_left black k r ∷ fs) h e f =
      IsRedBlack-close (node black k t r) fs (ground arith) (ground arith) f.3
  IsRedBlack-close t (as_right red k l ∷ fs) h e f =
      IsRedBlack-close (node red k l t) fs (ground arith) (ground arith)
        (subst (λ n. Fits n fs) (sym f.1) f.3)
  IsRedBlack-close t (as_right black k l ∷ fs) h e f =
      IsRedBlack-close (node black k l t) fs (ground arith) (ground arith)
        (subst (λ n. Fits (suc n) fs) (sym f.1) f.3)

  -- A round of fix_insert_collisions at a red node with a red parent and a black uncle gives a
  -- red-black tree with a black root, of the same height.
  rotate_up-IsRedBlack :
      (k : A) (l r : Tree A) (p g : Frame A) (fs : List (Frame A))
      → IsRedBlack (node red k l r)
      → frame_color p ≡ red
      → color black (sibling g) ≡ black
      → Fits (black_height l) (p ∷ g ∷ fs)
      → IsRedBlack (rotate_up (node red k l r) p g)
        × (color black (rotate_up (node red k l r) p g) ≡ black)
        × (black_height (rotate_up (node red k l r) p g) ≡ suc (black_height l))
  rotate_up-IsRedBlack k l r (as_left red x s) (as_left black y u) fs h e c f = ground arith
  rotate_up-IsRedBlack k l r (as_right red x s) (as_left black y u) fs h e c f = ground arith
  rotate_up-IsRedBlack k l r (as_left red x s) (as_right black y u) fs h e c f = ground arith
  rotate_up-IsRedBlack k l r (as_right red x s) (as_right black y u) fs h e c f = ground arith
  rotate_up-IsRedBlack k l r p g fs h e c f = ground arith

  recolor-IsRedBlack :
      (k : A) (l r : Tree A) (p g : Frame A) (fs : List (Frame A))
      → IsRedBlack (node red k l r)
      → frame_color p ≡ red
      → color black (sibling g) ≡ red
      → Fits (black_height l) (p ∷ g ∷ fs)
      → IsRedBlack (recolor (node red k l r) p g)
        × (color black (recolor (node red k l r) p g) ≡ red)
        × (black_height (recolor (node red k l r) p g) ≡ suc (black_height l))
  recolor-IsRedBlack k l r (as_left red x s) (as_left black y (node red z u v)) fs h e c f =
      ground arith
  recolor-IsRedBlack k l r (as_right red x s) (as_left black y (node red z u v)) fs h e c f =
      ground arith
  recolor-IsRedBlack k l r (as_left red x s) (as_right black y (node red z u v)) fs h e c f =
      ground arith
  recolor-IsRedBlack k l r (as_right red x s) (as_right black y (node red z u v)) fs h e c f =
      ground arith
  recolor-IsRedBlack k l r p g fs h e c f = ground arith

  paint-IsRedBlack : (t : Tree A) → IsRedBlack t → IsRedBlack (paint black t)
  paint-IsRedBlack leaf h = tt
  paint-IsRedBlack (node c k l r) h = (tt, h.1, h.2, h.3)

  leaf_stays_black : (t : Tree A) → leaf_after black t black ≡ black
  leaf_stays_black leaf = refl
  leaf_stays_black (node c k l r) = refl

  paint-black : (t : Tree A) → color black (paint black t) ≡ black
  paint-black leaf = refl
  paint-black (node c k l r) = refl

  fix_insert_leaf : (t : Tree A) (fs : List (Frame A)) → (fix_insert black t fs).1 ≡ black
  unfolding fix_insert
  fix_insert_leaf t [] = refl
  fix_insert_leaf t (p ∷ []) = refl
  fix_insert_leaf t (p ∷ g ∷ fs) =
      ground (arith, leaf_stays_black (sibling g), fix_insert_leaf (recolor t p g) fs)

  -- A red-black tree with a black root, and the colour of LEAF is black.
  abbrev pub Balanced : Tree A → Color → Type 0
  Balanced t lc = IsRedBlack t × (color black t ≡ black) × (lc ≡ black)

  -- Two frames up from below a red node, the black height is one more.
  Fits-grandparent :
      (n : ℕ) (p g : Frame A) (fs : List (Frame A))
      → frame_color p ≡ red
      → Fits n (p ∷ g ∷ fs)
      → Fits (suc n) fs
  Fits-grandparent n p g fs d f =
      subst (λ b. Fits (above b n) fs) (f.0 d).1
        (subst (λ b. Fits (above (frame_color g) (above b n)) fs) d f.3.3)

  -- The three ways on from a node with a grandparent.
  module _ (t : Tree A) (p g : Frame A) (fs : List (Frame A)) where
    fix_insert_stop :
        frame_color p ≡ black → close t (p ∷ g ∷ fs) ≡ (fix_insert black t (p ∷ g ∷ fs)).0
    unfolding fix_insert
    fix_insert_stop b = ground arith

    fix_insert_rotate :
        frame_color p ≡ red
        → color black (sibling g) ≡ black
        → close (rotate_up t p g) fs ≡ (fix_insert black t (p ∷ g ∷ fs)).0
    unfolding fix_insert
    fix_insert_rotate d c = ground arith

    fix_insert-recolor :
        frame_color p ≡ red
        → color black (sibling g) ≡ red
        → (fix_insert black (recolor t p g) fs).0 ≡ (fix_insert black t (p ∷ g ∷ fs)).0
    unfolding fix_insert
    fix_insert-recolor d c = ground (arith, leaf_stays_black (sibling g))

  abbrev Blackened : Tree A → Type 0
  Blackened u = IsRedBlack (paint black u)

  -- The loop of fix_insert_collisions at a red node.
  fix_insert-IsRedBlack :
      (t : Tree A) (fs : List (Frame A))
      → IsRedBlack t
      → color black t ≡ red
      → Fits (black_height t) fs
      → Blackened (fix_insert black t fs).0
  fix_insert-IsRedBlack t [] h e f = unfold fix_insert in paint-IsRedBlack t h
  fix_insert-IsRedBlack t (as_left c x s ∷ []) h e f = unfold fix_insert in ground arith
  fix_insert-IsRedBlack t (as_right c x s ∷ []) h e f = unfold fix_insert in ground arith
  fix_insert-IsRedBlack leaf (p ∷ g ∷ fs) h e f = cc
  fix_insert-IsRedBlack (node black k l r) (p ∷ g ∷ fs) h e f = cc
  fix_insert-IsRedBlack (node red k l r) (p ∷ g ∷ fs) h e f =
      let t : Tree A = node red k l r in
      elim (Color-cases (frame_color p)) [
        | inl b ↦
            subst Blackened (fix_insert_stop t p g fs b) (
              paint-IsRedBlack (close t (p ∷ g ∷ fs))
                (IsRedBlack-close t (p ∷ g ∷ fs) h (λ _. b) f))
        | inr d ↦ elim (Color-cases (color black (sibling g))) [
          | inl c ↦
              let (a, b, n) = rotate_up-IsRedBlack k l r p g fs h d c f in
              subst Blackened (fix_insert_rotate t p g fs d c) (
                paint-IsRedBlack (close (rotate_up t p g) fs) (
                  IsRedBlack-close (rotate_up t p g) fs a (λ q. cc)
                    (subst (λ m. Fits m fs) (sym n)
                      (Fits-grandparent (black_height l) p g fs d f))))
          | inr c ↦
              let (a, b, n) = recolor-IsRedBlack k l r p g fs h d c f in
              subst Blackened (fix_insert-recolor t p g fs d c) (
                fix_insert-IsRedBlack (recolor t p g) fs a b
                  (subst (λ m. Fits m fs) (sym n) (Fits-grandparent (black_height l) p g fs d f)))
        ]
      ]

  -- The frames of a tree's children.
  module _ (x : A) (l r : Tree A) (fs : List (Frame A)) where
    Fits-left :
        (c : Color)
        → IsRedBlack (node c x l r)
        → (c ≡ red → top_color fs ≡ black)
        → Fits (black_height (node c x l r)) fs
        → (color black l ≡ red → c ≡ black) × Fits (black_height l) (as_left c x r ∷ fs)
    Fits-left red h e f = (ground arith, ((λ q. (h.0.1, e refl)), sym h.1, h.3, f))
    Fits-left black h e f = ((λ q. refl), ((λ q. cc), sym h.1, h.3, f))

    Fits-right :
        (c : Color)
        → IsRedBlack (node c x l r)
        → (c ≡ red → top_color fs ≡ black)
        → Fits (black_height (node c x l r)) fs
        → (color black r ≡ red → c ≡ black) × Fits (black_height r) (as_right c x l ∷ fs)
    Fits-right red h e f =
        (ground arith, ((λ q. (h.0.0, e refl)), h.1, h.2, subst (λ m. Fits m fs) h.1 f))
    Fits-right black h e f =
        ((λ q. refl), ((λ q. cc), h.1, h.2, subst (λ m. Fits (suc m) fs) h.1 f))

  -- The place of a new node in a red-black tree.
  insert_place-Fits :
      (cmp : A → A → Ordering) (k : A) (t : Tree A) (fs : List (Frame A))
      → IsRedBlack t
      → (color black t ≡ red → top_color fs ≡ black)
      → Fits (black_height t) fs
      → Fits 0 (insert_place cmp k t fs)
  unfolding insert_place
  insert_place-Fits cmp k leaf fs h e f = f
  insert_place-Fits cmp k (node c x l r) fs h e f =
      let (el, fl) = Fits-left x l r fs c h e f in
      let (er, fr) = Fits-right x l r fs c h e f in
      ground (
        arith,
        insert_place-Fits cmp k l (as_left c x r ∷ fs) h.2 el fl,
        insert_place-Fits cmp k r (as_right c x l ∷ fs) h.3 er fr,
      )

module _ {ℓ} {A : Type ℓ} (cmp : A → A → Ordering) where
  insert_absent-Balanced :
      (alloc : Bool) (k : A) (t : Tree A)
      → IsRedBlack t
      → color black t ≡ black
      → let (t', lc, told) = insert_absent cmp alloc black k t in Balanced t' lc
  unfolding insert_absent
  insert_absent-Balanced false k t h e = (h, e, refl)
  insert_absent-Balanced true k t h e =
      let fs = insert_place cmp k t [] in
      let n : Tree A = node red k leaf leaf in
      (
        fix_insert-IsRedBlack n fs ((refl, refl), refl, tt, tt) refl
            (insert_place-Fits cmp k t [] h (λ _. refl) tt),
        paint-black (fix_insert black n fs).0,
        fix_insert_leaf n fs,
      )

  -- pico_tree_insert keeps a red-black tree with a black root such a tree, and LEAF black, on each of
  -- its outcomes: no red node has a red child, all ways down meet as many black nodes, and the root is
  -- black.
  pub insert-IsRedBlack :
      (alloc : Bool) (k : A) (t : Tree A)
      → IsRedBlack t
      → color black t ≡ black
      → let (t', lc, told) = insert cmp alloc black k t in
        IsRedBlack t' × (color black t' ≡ black) × (lc ≡ black)
  unfolding insert
  insert-IsRedBlack alloc k t h e =
      elim (find_key cmp k t)
        as (λ b.
          let r = elim b as (λ _. Tree A × Color × Inserted A) [
            | some found ↦ (t, black, exists found)
            | none ↦ insert_absent cmp alloc black k t
          ] in
          Balanced r.0 r.1) [
            | some found ↦ (h, e, refl)
            | none ↦ insert_absent-Balanced alloc k t h e
          ]
