-- ===== src/Tcp/Segments.antt =====
-- The queues of segments of modules/pico_tcp.c seen as lists in the order of the sequence numbers,
-- with their counters: what the search for a segment and its removal do with the list.
use picotcp.Base.{
  ℕ, suc, ◌+◌, ◌<◌, ◌≤◌, ◌≡◌, refl, sym, ap, ◌∙◌, subst, Bool, Option, none, some, List, [], ◌∷◌,
  arith, length,
}
use picotcp.Tree.{Color, Tree, Inserted, keys, insert}
use picotcp.Tree.Order.{
  Sorted, search_key, remove_key, insert_key, insert_key-Sorted, insert_list, delete_list,
}
use picotcp.Tree.Refine.{find_key-keys, insert_refines}
use picotcp.Tree.Delete.{delete}
use picotcp.Tree.Delete.Refine.{delete_refines}
use picotcp.Tree.Search.{All}
use picotcp.Tree.Agree.{find_key-Agree, insert-Agree, delete-Agree}
use picotcp.Tree.Walk.{head, first-keys}
use picotcp.Tcp.{
  Kind, TcpQueue, segment_compare, peek_segment, first_segment, counted_in, with_pool,
  discard_deleted, discard_segment,
}
use picotcp.Tcp.Order.{InWindow, by_offset, by_offset-IsOrder, Here, agree}

module _ {ℓ} {A : Type ℓ} (k : Kind A) (base : ℕ) where
  abbrev pub total : List A → ℕ
  total [] = 0
  total (x ∷ xs) = k.measure x + total xs

  abbrev pub Filled : A → Type 0
  Filled a = (0 < k.measure a) × (k.measure a < 65536)

  -- The queue has the segments of the list, which are in order inside the window, and its counters
  -- count them.
  pub record Holds (q : TcpQueue A) (xs : List A) : Type ℓ where
    pub held : keys q.pool ≡ xs
    pub sorted : Sorted (by_offset k base) xs
    pub here : All (Here k base) xs
    pub filled : All Filled xs
    pub counted : q.size ≡ total xs
    pub numbered : q.frames ≡ length xs
    pub within : q.size ≤ q.max_size
    pub limited : q.max_size < 2147483648

  length-total : (xs : List A) → All Filled xs → length xs ≤ total xs
  length-total [] a = omega arith
  length-total (x ∷ xs) a = omega (arith, a.0.0, length-total xs a.1)

  total-insert_key :
      (a : A) (xs : List A) → total (insert_key (by_offset k base) a xs) ≡ k.measure a + total xs
  unfolding insert_key
  total-insert_key a [] = refl
  total-insert_key a (x ∷ xs) = ground (arith, total-insert_key a xs)

  length-insert_key :
      (a : A) (xs : List A) → length (insert_key (by_offset k base) a xs) ≡ suc (length xs)
  unfolding insert_key
  length-insert_key a [] = refl
  length-insert_key a (x ∷ xs) = ground (arith, length-insert_key a xs)

  pub All-insert_key {κ} :
      (P : A → Type κ) (a : A) (xs : List A)
      → P a
      → All P xs
      → All P (insert_key (by_offset k base) a xs)
  unfolding insert_key
  All-insert_key P a [] p h = (p, tt)
  All-insert_key P a (x ∷ xs) p h = ground (arith, All-insert_key P a xs p h.1)

  module _ (l : base < 4294967296) (q : TcpQueue A) (xs : List A) (v : Holds q xs) where
    pub first_segment-Holds : first_segment k q ≡ head xs
    unfolding first_segment
    first_segment-Holds = first-keys q.pool ∙ ap head v.held

    pub peek_segment-Holds :
        (n : ℕ)
        → k.seq (k.at n) ≡ n
        → InWindow base n
        → peek_segment k q n ≡ search_key (by_offset k base) (k.at n) xs
    unfolding peek_segment
    peek_segment-Holds n e w =
        let h : All (Here k base) (keys q.pool) = subst (All (Here k base)) (sym v.held) v.here in
        let s : Sorted (by_offset k base) (keys q.pool) =
          subst (Sorted (by_offset k base)) (sym v.held) v.sorted in
        let w' : Here k base (k.at n) = subst (InWindow base) (sym e) w in
        find_key-Agree (segment_compare k) (by_offset k base) (k.at n) q.pool
          (agree k base (k.at n) (keys q.pool) l w' h)
        ∙ find_key-keys (by_offset k base) (by_offset-IsOrder k base) (k.at n) q.pool s
        ∙ ap (search_key (by_offset k base) (k.at n)) v.held

    pub tree_insert :
        (alloc : Bool) (a : A)
        → Here k base a
        → let (t, lc, told) = insert (segment_compare k) alloc q.leaf_color a q.pool in
          (keys t, told) ≡ insert_list (by_offset k base) a alloc xs
    tree_insert alloc a w =
        let h : All (Here k base) (keys q.pool) = subst (All (Here k base)) (sym v.held) v.here in
        let s : Sorted (by_offset k base) (keys q.pool) =
          subst (Sorted (by_offset k base)) (sym v.held) v.sorted in
        ap (λ (r : Tree A × Color × Inserted A). (keys r.0, r.2))
          (insert-Agree (segment_compare k) (by_offset k base) a alloc q.leaf_color q.pool
            (agree k base a (keys q.pool) l w h))
        ∙ insert_refines (by_offset k base) (by_offset-IsOrder k base) a alloc q.leaf_color q.pool s
        ∙ ap (insert_list (by_offset k base) a alloc) v.held

    tree_delete :
        (a : A)
        → Here k base a
        → let (t, lc, told) = delete (segment_compare k) q.leaf_color a q.pool in
          (keys t, told) ≡ delete_list (by_offset k base) a xs
    tree_delete a w =
        let h : All (Here k base) (keys q.pool) = subst (All (Here k base)) (sym v.held) v.here in
        let s : Sorted (by_offset k base) (keys q.pool) =
          subst (Sorted (by_offset k base)) (sym v.held) v.sorted in
        ap (λ (r : Tree A × Color × Option A). (keys r.0, r.2))
          (delete-Agree (segment_compare k) (by_offset k base) a q.leaf_color q.pool
            (agree k base a (keys q.pool) l w h))
        ∙ delete_refines (by_offset k base) (by_offset-IsOrder k base) a q.leaf_color q.pool s
        ∙ ap (delete_list (by_offset k base) a) v.held

    -- The queue with another tree of the same keys.
    pub same_keys : (t : Tree A) (lc : Color) → keys t ≡ xs → Holds (with_pool k t lc q) xs
    same_keys t lc e = record {
      held = e;
      sorted = v.sorted;
      here = v.here;
      filled = v.filled;
      counted = v.counted;
      numbered = v.numbered;
      within = v.within;
      limited = v.limited;
    }

    pub counted_in-Holds :
        (t : Tree A) (lc : Color) (a : A)
        → keys t ≡ insert_key (by_offset k base) a xs
        → Here k base a
        → Filled a
        → search_key (by_offset k base) a xs ≡ none
        → q.size + k.measure a ≤ q.max_size
        → Holds
            (counted_in k (k.measure a) (with_pool k t lc q))
            (insert_key (by_offset k base) a xs)
    counted_in-Holds t lc a e w f n m = record {
      held = e;
      sorted = insert_key-Sorted (by_offset k base) (by_offset-IsOrder k base) a xs v.sorted n;
      here = All-insert_key (Here k base) a xs w v.here;
      filled = All-insert_key Filled a xs f v.filled;
      counted = omega (arith, v.counted, v.limited, m, total-insert_key a xs);
      numbered = ground (
        arith,
        v.counted,
        v.within,
        v.limited,
        f.0,
        v.numbered,
        length-total xs v.filled,
        length-insert_key a xs,
      );
      within = omega (arith, v.limited, m);
      limited = v.limited;
    }

  delete_list-first :
      (a : A) (xs : List A) → delete_list (by_offset k base) a (a ∷ xs) ≡ (xs, some a)
  unfolding remove_key search_key
  delete_list-first a xs = ground arith

  -- What pico_tree_delete answers for the first segment, as discard_deleted takes it.
  discard_deleted-Holds :
      (q : TcpQueue A) (a : A) (xs : List A) (t : Tree A) (lc : Color) (o : Option A)
      → Holds q (a ∷ xs)
      → keys t ≡ xs
      → o ≡ some a
      → Holds (discard_deleted k (k.measure a) q (t, lc, o)) xs
  unfolding discard_deleted
  discard_deleted-Holds q a xs t lc none v e f = cc
  discard_deleted-Holds q a xs t lc (some x) v e f = record {
    held = e;
    sorted = v.sorted.1;
    here = v.here.1;
    filled = v.filled.1;
    counted = omega (arith, v.counted, v.within, v.limited);
    numbered = ground (
      arith,
      v.counted,
      v.within,
      v.limited,
      v.filled.0.0,
      v.numbered,
      length-total xs v.filled.1,
    );
    within = omega (arith, v.counted, v.within, v.limited);
    limited = v.limited;
  }

  -- The first segment of the queue leaves it.
  pub discard_segment-Holds :
      (l : base < 4294967296) (q : TcpQueue A) (a : A) (xs : List A)
      → Holds q (a ∷ xs)
      → Holds (discard_segment k q a) xs
  unfolding discard_segment
  discard_segment-Holds l q a xs v =
      let (t, lc, o) = delete (segment_compare k) q.leaf_color a q.pool in
      let e : (keys t, o) ≡ (xs, some a) =
        tree_delete l q (a ∷ xs) v a v.here.0 ∙ delete_list-first a xs in
      discard_deleted-Holds q a xs t lc o v (ap (λ (r : List A × Option A). r.0) e)
        (ap (λ (r : List A × Option A). r.1) e)
