-- ===== src/Tree/Order.antt =====
-- The order of the keys in the trees of stack/pico_tree.c: the comparison function, sorted lists,
-- and what insertion, search and deletion mean on them.
use picotcp.Base.{
  ◌≡◌, ◌≢◌, refl, Bool, true, false, Option, none, some, List, [], ◌∷◌, ◌++◌, Ordering, arith,
}
use picotcp.Tree.{Inserted, done, exists, no_memory}

abbrev pub opposite : Ordering → Ordering
opposite Ordering.lt = Ordering.gt
opposite Ordering.eq = Ordering.eq
opposite Ordering.gt = Ordering.lt

-- What a tree needs of its `compare`.
pub record IsOrder {ℓ} {A : Type ℓ} (cmp : A → A → Ordering) : Type ℓ where
  pub flip : (a b : A) → cmp b a ≡ opposite (cmp a b)
  pub trans : (a b c : A) → cmp a b ≡ Ordering.lt → cmp b c ≡ Ordering.lt → cmp a c ≡ Ordering.lt
  pub congr : (a b c : A) → cmp a b ≡ Ordering.eq → cmp a c ≡ cmp b c

module _ {ℓ} {A : Type ℓ} (cmp : A → A → Ordering) where
  -- Each key is before all that follow it.
  abbrev pub AllAfter : A → List A → Type 0
  AllAfter x [] = Unit
  AllAfter x (y ∷ ys) = (cmp x y ≡ Ordering.lt) × AllAfter x ys

  abbrev pub Sorted : List A → Type 0
  Sorted [] = Unit
  Sorted (x ∷ xs) = AllAfter x xs × Sorted xs

  -- The key goes before the first one that is greater.
  unfoldable pub insert_key : A → List A → List A
  insert_key k [] = k ∷ []
  insert_key k (x ∷ xs) = elim (cmp k x) [ Ordering.lt ↦ k ∷ x ∷ xs | _ ↦ x ∷ insert_key k xs ]

  -- The first key that compares equal.
  unfoldable pub search_key : A → List A → Option A
  search_key k [] = none
  search_key k (x ∷ xs) = elim (cmp x k) [ Ordering.eq ↦ some x | _ ↦ search_key k xs ]

  unfoldable pub remove_key : A → List A → List A
  remove_key k [] = []
  remove_key k (x ∷ xs) = elim (cmp x k) [ Ordering.eq ↦ xs | _ ↦ x ∷ remove_key k xs ]

  -- What an insertion and a deletion mean on the list of the keys, and what they tell.
  abbrev pub insert_list : A → Bool → List A → List A × Inserted A
  insert_list k alloc xs = elim (search_key k xs) [
    | some x ↦ (xs, exists x)
    | none ↦ elim alloc [ true ↦ (insert_key k xs, done) | false ↦ (xs, no_memory) ]
  ]

  abbrev pub delete_list : A → List A → List A × Option A
  delete_list k xs = (remove_key k xs, search_key k xs)

  -- A sorted list around one of its keys.
  AllAfter-left :
      (y : A) (zs : List A) (x : A) (ys : List A) → AllAfter y (zs ++ x ∷ ys) → AllAfter y zs
  AllAfter-left y [] x ys h = tt
  AllAfter-left y (z ∷ zs) x ys h = (h.0, AllAfter-left y zs x ys h.1)

  AllAfter-mid :
      (y : A) (xs : List A) (x : A) (ys : List A)
      → AllAfter y (xs ++ x ∷ ys)
      → cmp y x ≡ Ordering.lt
  AllAfter-mid y [] x ys h = h.0
  AllAfter-mid y (z ∷ xs) x ys h = AllAfter-mid y xs x ys h.1

  pub Sorted-left : (xs : List A) (x : A) (ys : List A) → Sorted (xs ++ x ∷ ys) → Sorted xs
  Sorted-left [] x ys s = tt
  Sorted-left (y ∷ xs) x ys s = (AllAfter-left y xs x ys s.0, Sorted-left xs x ys s.1)

  pub Sorted-right : (xs : List A) (x : A) (ys : List A) → Sorted (xs ++ x ∷ ys) → Sorted ys
  Sorted-right [] x ys s = s.1
  Sorted-right (y ∷ xs) x ys s = Sorted-right xs x ys s.1

  pub AllAfter-right : (xs : List A) (x : A) (ys : List A) → Sorted (xs ++ x ∷ ys) → AllAfter x ys
  AllAfter-right [] x ys s = s.0
  AllAfter-right (y ∷ xs) x ys s = AllAfter-right xs x ys s.1

  module _ (o : IsOrder cmp) (k : A) where
    -- A key before `x` that is no later than `k` is before `k`.
    lt-before : (y x : A) → cmp y x ≡ Ordering.lt → cmp x k ≢ Ordering.gt → cmp y k ≡ Ordering.lt
    lt-before y x h g =
        ground (arith, o.trans y x k, o.congr k x y, o.flip x k, o.flip y x, o.flip y k)

    gt-after : (x y : A) → cmp x y ≡ Ordering.lt → cmp x k ≡ Ordering.gt → cmp y k ≡ Ordering.gt
    gt-after x y h g = ground (arith, o.trans k x y, o.flip x k, o.flip k y)

    pub insert_key-left :
        (xs : List A) (x : A) (ys : List A)
        → cmp k x ≡ Ordering.lt
        → insert_key k (xs ++ x ∷ ys) ≡ insert_key k xs ++ x ∷ ys
    unfolding insert_key
    insert_key-left [] x ys h = ground arith
    insert_key-left (y ∷ xs) x ys h = ground (arith, insert_key-left xs x ys h)

    pub insert_key-right :
        (xs : List A) (x : A) (ys : List A)
        → Sorted (xs ++ x ∷ ys)
        → cmp k x ≢ Ordering.lt
        → insert_key k (xs ++ x ∷ ys) ≡ xs ++ x ∷ insert_key k ys
    unfolding insert_key
    insert_key-right [] x ys s h = ground arith
    insert_key-right (y ∷ xs) x ys s h = ground (
      arith,
      insert_key-right xs x ys s.1 h,
      lt-before y x (AllAfter-mid y xs x ys s.0),
      o.flip x k,
      o.flip y k,
    )

    -- No key of a list is found if all are before `k`, or all after it.
    search_key-gt :
        (x : A) (ys : List A) → AllAfter x ys → cmp x k ≡ Ordering.gt → search_key k ys ≡ none
    unfolding search_key
    search_key-gt x [] h g = refl
    search_key-gt x (y ∷ ys) h g = ground (arith, gt-after x y h.0 g, search_key-gt x ys h.1 g)

    remove_key-gt :
        (x : A) (ys : List A) → AllAfter x ys → cmp x k ≡ Ordering.gt → remove_key k ys ≡ ys
    unfolding remove_key
    remove_key-gt x [] h g = refl
    remove_key-gt x (y ∷ ys) h g = ground (arith, gt-after x y h.0 g, remove_key-gt x ys h.1 g)

    pub search_key-right :
        (xs : List A) (x : A) (ys : List A)
        → Sorted (xs ++ x ∷ ys)
        → cmp x k ≢ Ordering.gt
        → search_key k (xs ++ x ∷ ys) ≡ search_key k (x ∷ ys)
    unfolding search_key
    search_key-right [] x ys s h = refl
    search_key-right (y ∷ xs) x ys s h =
        ground (arith, search_key-right xs x ys s.1 h, lt-before y x (AllAfter-mid y xs x ys s.0) h)

    pub search_key-left :
        (xs : List A) (x : A) (ys : List A)
        → Sorted (xs ++ x ∷ ys)
        → cmp x k ≡ Ordering.gt
        → search_key k (xs ++ x ∷ ys) ≡ search_key k xs
    unfolding search_key
    search_key-left [] x ys s h = ground (arith, search_key-gt x ys s.0 h)
    search_key-left (y ∷ xs) x ys s h = ground (arith, search_key-left xs x ys s.1 h)

    pub remove_key-right :
        (xs : List A) (x : A) (ys : List A)
        → Sorted (xs ++ x ∷ ys)
        → cmp x k ≢ Ordering.gt
        → remove_key k (xs ++ x ∷ ys) ≡ xs ++ remove_key k (x ∷ ys)
    unfolding remove_key
    remove_key-right [] x ys s h = refl
    remove_key-right (y ∷ xs) x ys s h =
        ground (arith, remove_key-right xs x ys s.1 h, lt-before y x (AllAfter-mid y xs x ys s.0) h)

    pub remove_key-left :
        (xs : List A) (x : A) (ys : List A)
        → Sorted (xs ++ x ∷ ys)
        → cmp x k ≡ Ordering.gt
        → remove_key k (xs ++ x ∷ ys) ≡ remove_key k xs ++ x ∷ ys
    unfolding remove_key
    remove_key-left [] x ys s h = ground (arith, remove_key-gt x ys s.0 h)
    remove_key-left (y ∷ xs) x ys s h = ground (arith, remove_key-left xs x ys s.1 h)

    AllAfter-insert_key :
        (y : A) (xs : List A) → AllAfter y xs → cmp y k ≡ Ordering.lt → AllAfter y (insert_key k xs)
    unfolding insert_key
    AllAfter-insert_key y [] a h = (h, tt)
    AllAfter-insert_key y (x ∷ xs) a h = ground (arith, AllAfter-insert_key y xs a.1 h)

    AllAfter-trans : (y : A) (xs : List A) → cmp k y ≡ Ordering.lt → AllAfter y xs → AllAfter k xs
    AllAfter-trans y [] h a = tt
    AllAfter-trans y (x ∷ xs) h a = (o.trans k y x h a.0, AllAfter-trans y xs h a.1)

    -- A key that is not in a sorted list keeps it sorted.
    pub insert_key-Sorted :
        (xs : List A) → Sorted xs → search_key k xs ≡ none → Sorted (insert_key k xs)
    unfolding insert_key search_key
    insert_key-Sorted [] s h = (tt, tt)
    insert_key-Sorted (x ∷ xs) s h = ground (
      arith,
      insert_key-Sorted xs s.1,
      AllAfter-insert_key x xs s.0,
      AllAfter-trans x xs,
      o.flip x k,
    )

    AllAfter-remove_key : (y : A) (xs : List A) → AllAfter y xs → AllAfter y (remove_key k xs)
    unfolding remove_key
    AllAfter-remove_key y [] a = tt
    AllAfter-remove_key y (x ∷ xs) a = ground (arith, AllAfter-remove_key y xs a.1)

    pub remove_key-Sorted : (xs : List A) → Sorted xs → Sorted (remove_key k xs)
    unfolding remove_key
    remove_key-Sorted [] s = tt
    remove_key-Sorted (x ∷ xs) s =
        ground (arith, remove_key-Sorted xs s.1, AllAfter-remove_key x xs s.0)
