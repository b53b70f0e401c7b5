-- ===== src/Tree/Agree.antt =====
-- Two comparison functions that agree on a key and the keys of a tree give the same searches,
-- insertions and deletions of stack/pico_tree.c. The comparison of sequence numbers is an order
-- inside a window only, where it agrees with one that is an order everywhere.
use picotcp.Base.{◌≡◌, refl, Bool, true, false, Option, none, some, List, [], ◌∷◌, Ordering, arith}
use picotcp.Tree.{
  Color, Tree, leaf, node, Frame, as_left, as_right, keys, key_of, find_node, find_key,
  insert_place, insert_absent, insert,
}
use picotcp.Tree.Search.{All, All-left, All-right}
use picotcp.Tree.Delete.{delete}

module _ {ℓ} {A : Type ℓ} (cmp cmp' : A → A → Ordering) (k : A) where
  -- On the comparisons that a search with `k` makes.
  abbrev pub Agree : A → Type 0
  Agree x = (cmp x k ≡ cmp' x k) × (cmp k x ≡ cmp' k x)

  find_node-Agree :
      (t : Tree A) (fs : List (Frame A))
      → All Agree (keys t)
      → find_node cmp k t fs ≡ find_node cmp' k t fs
  unfolding find_node
  find_node-Agree leaf fs a = refl
  find_node-Agree (node c x l r) fs a =
      let (p, b) = All-right Agree (keys l) (x ∷ keys r) a in
      ground (
        arith,
        p.0,
        find_node-Agree l (as_left c x r ∷ fs) (All-left Agree (keys l) (x ∷ keys r) a),
        find_node-Agree r (as_right c x l ∷ fs) b,
      )

  key_of_same : (o : Option (Tree A × List (Frame A))) → key_of cmp o ≡ key_of cmp' o
  key_of_same none = refl
  key_of_same (some (leaf, fs)) = refl
  key_of_same (some (node c x l r, fs)) = refl

  pub find_key-Agree : (t : Tree A) → All Agree (keys t) → find_key cmp k t ≡ find_key cmp' k t
  unfolding find_key
  find_key-Agree t a = rw (find_node-Agree t [] a, key_of_same (find_node cmp' k t []))

  insert_place-Agree :
      (t : Tree A) (fs : List (Frame A))
      → All Agree (keys t)
      → insert_place cmp k t fs ≡ insert_place cmp' k t fs
  unfolding insert_place
  insert_place-Agree leaf fs a = refl
  insert_place-Agree (node c x l r) fs a =
      let (p, b) = All-right Agree (keys l) (x ∷ keys r) a in
      ground (
        arith,
        p.1,
        insert_place-Agree l (as_left c x r ∷ fs) (All-left Agree (keys l) (x ∷ keys r) a),
        insert_place-Agree r (as_right c x l ∷ fs) b,
      )

  insert_absent-Agree :
      (alloc : Bool) (lc : Color) (t : Tree A)
      → All Agree (keys t)
      → insert_absent cmp alloc lc k t ≡ insert_absent cmp' alloc lc k t
  unfolding insert_absent
  insert_absent-Agree false lc t a = refl
  insert_absent-Agree true lc t a = rw (insert_place-Agree t [] a)

  pub insert-Agree :
      (alloc : Bool) (lc : Color) (t : Tree A)
      → All Agree (keys t)
      → insert cmp alloc lc k t ≡ insert cmp' alloc lc k t
  unfolding insert
  insert-Agree alloc lc t a = ground (arith, find_key-Agree t a, insert_absent-Agree alloc lc t a)

  pub delete-Agree :
      (lc : Color) (t : Tree A) → All Agree (keys t) → delete cmp lc k t ≡ delete cmp' lc k t
  unfolding delete
  delete-Agree lc t a = rw (find_node-Agree t [] a)
