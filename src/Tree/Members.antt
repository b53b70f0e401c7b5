-- ===== src/Tree/Members.antt =====
-- Which keys a tree of stack/pico_tree.c in order has, before and after its operations, for a
-- client that reasons on members and not on lists.
use picotcp.Base.{
  ◌≡◌, ◌≢◌, ◌⊎◌, ◌↔◌, inl, inr, sym, ap, ◌∙◌, subst, Bool, true, false, Option, some, List, [], ◌∷◌,
  Ordering, arith,
}
use picotcp.Tree.{Color, Tree, Inserted, done, keys, find_key, insert}
use picotcp.Tree.Order.{IsOrder, AllAfter, Sorted, insert_key, search_key, remove_key, insert_list}
use picotcp.Tree.Refine.{find_key-keys, insert_refines}
use picotcp.Tree.Delete.{delete}
use picotcp.Tree.Delete.Refine.{delete_refines}

abbrev pub In : {A : Type 0} → A → List A → Type 0
In x [] = ⊥
In x (y ∷ ys) = (x ≡ y) ⊎ In x ys

module _ {A : Type 0} (cmp : A → A → Ordering) (o : IsOrder cmp) where
  pub AllAfter-In :
      (y : A) (xs : List A) (z : A) → AllAfter cmp y xs → In z xs → cmp y z ≡ Ordering.lt
  AllAfter-In y [] z a h = absurd h
  AllAfter-In y (x ∷ xs) z a (inl e) = subst (λ z. cmp y z ≡ Ordering.lt) (sym e) a.0
  AllAfter-In y (x ∷ xs) z a (inr h) = AllAfter-In y xs z a.1 h

  pub cmp_self : (a : A) → cmp a a ≡ Ordering.eq
  cmp_self a = ground (arith, o.flip a a)

  pub search_key_sound :
      (k : A) (xs : List A) (z : A)
      → search_key cmp k xs ≡ some z
      → In z xs × (cmp z k ≡ Ordering.eq)
  unfolding search_key
  search_key_sound k [] z h = cc
  search_key_sound k (x ∷ xs) z h = ground (arith, search_key_sound k xs z)

  pub search_key-In :
      (k : A) (xs : List A) (z : A)
      → Sorted cmp xs
      → In z xs
      → cmp z k ≡ Ordering.eq
      → search_key cmp k xs ≡ some z
  unfolding search_key
  search_key-In k [] z s h e = absurd h
  search_key-In k (x ∷ xs) z s (inl p) e = ground arith
  search_key-In k (x ∷ xs) z s (inr h) e = ground (
    arith,
    search_key-In k xs z s.1 h e,
    AllAfter-In x xs z s.0 h,
    o.flip x k,
    o.flip z x,
    o.flip z k,
    o.congr z k x,
  )

  pub insert_key-In :
      (k : A) (xs : List A) (z : A) → In z (insert_key cmp k xs) ↔ ((z ≡ k) ⊎ In z xs)
  unfolding insert_key
  insert_key-In k [] z = ((λ h. h), (λ h. h))
  insert_key-In k (x ∷ xs) z = ground (arith, insert_key-In k xs z)

  pub remove_key-In :
      (k : A) (xs : List A) (z : A)
      → Sorted cmp xs
      → In z (remove_key cmp k xs) ↔ (In z xs × (cmp z k ≢ Ordering.eq))
  unfolding remove_key
  remove_key-In k [] z s = ((λ h. absurd h), (λ h. h.0))
  remove_key-In k (x ∷ xs) z s = ground (
    arith,
    remove_key-In k xs z s.1,
    AllAfter-In x xs z s.0,
    o.flip x k,
    o.flip z x,
    o.flip z k,
    o.congr z k x,
  )

  -- What is found in a tree in order is the member that compares equal.
  pub find_key-found :
      (k : A) (t : Tree A) (z : A)
      → Sorted cmp (keys t)
      → find_key cmp k t ≡ some z
      → In z (keys t) × (cmp z k ≡ Ordering.eq)
  find_key-found k t z s h = search_key_sound k (keys t) z (sym (find_key-keys cmp o k t s) ∙ h)

  pub find_key-In :
      (k : A) (t : Tree A) (z : A)
      → Sorted cmp (keys t)
      → In z (keys t)
      → cmp z k ≡ Ordering.eq
      → find_key cmp k t ≡ some z
  find_key-In k t z s m e = find_key-keys cmp o k t s ∙ search_key-In k (keys t) z s m e

  -- Two members that compare equal are the same.
  pub same_member :
      (t : Tree A) (y z : A)
      → Sorted cmp (keys t)
      → In y (keys t)
      → In z (keys t)
      → cmp y z ≡ Ordering.eq
      → y ≡ z
  same_member t y z s m n e =
      ground (arith, search_key-In z (keys t) y s m e, search_key-In z (keys t) z s n (cmp_self z))

  insert_list-done :
      (k : A) (alloc : Bool) (xs : List A)
      → (insert_list cmp k alloc xs).1 ≡ done
      → (insert_list cmp k alloc xs).0 ≡ insert_key cmp k xs
  insert_list-done k true xs h = ground arith
  insert_list-done k false xs h = ground arith

  -- An insertion that tells so has added its key.
  pub insert-In :
      (k : A) (alloc : Bool) (lc : Color) (t : Tree A) (z : A)
      → Sorted cmp (keys t)
      → (insert cmp alloc lc k t).2 ≡ done
      → In z (keys (insert cmp alloc lc k t).0) ↔ ((z ≡ k) ⊎ In z (keys t))
  insert-In k alloc lc t z s h =
      let r = insert_refines cmp o k alloc lc t s in
      let told = λ (p : List A × Inserted A). p.1 in
      let list = λ (p : List A × Inserted A). p.0 in
      subst (λ xs. In z xs ↔ ((z ≡ k) ⊎ In z (keys t)))
        (sym (ap list r ∙ insert_list-done k alloc (keys t) (sym (ap told r) ∙ h)))
        (insert_key-In k (keys t) z)

  -- It tells so only if no member compares equal to the key.
  insert_list-new :
      (k : A) (alloc : Bool) (xs : List A) (z : A)
      → Sorted cmp xs
      → (insert_list cmp k alloc xs).1 ≡ done
      → In z xs
      → cmp z k ≢ Ordering.eq
  insert_list-new k true xs z s h m e = ground (arith, search_key-In k xs z s m e)
  insert_list-new k false xs z s h m e = ground (arith, search_key-In k xs z s m e)

  pub insert-new :
      (k : A) (alloc : Bool) (lc : Color) (t : Tree A) (z : A)
      → Sorted cmp (keys t)
      → (insert cmp alloc lc k t).2 ≡ done
      → In z (keys t)
      → cmp z k ≢ Ordering.eq
  insert-new k alloc lc t z s h =
      insert_list-new k alloc (keys t) z s
        (sym (ap (λ (p : List A × Inserted A). p.1) (insert_refines cmp o k alloc lc t s)) ∙ h)

  -- A deletion takes out the members that compare equal, of which there is one at most.
  pub delete-In :
      (k : A) (lc : Color) (t : Tree A) (z : A)
      → Sorted cmp (keys t)
      → In z (keys (delete cmp lc k t).0) ↔ (In z (keys t) × (cmp z k ≢ Ordering.eq))
  delete-In k lc t z s =
      subst (λ xs. In z xs ↔ (In z (keys t) × (cmp z k ≢ Ordering.eq)))
        (sym (ap (λ (p : List A × Option A). p.0) (delete_refines cmp o k lc t s)))
        (remove_key-In k (keys t) z s)
