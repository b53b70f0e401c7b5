-- ===== src/Arp/Table.antt =====
-- The table of modules/pico_arp.c: what is found after an entry is written to or added.
use picotcp.Base.{
  ℕ, ◌≡◌, inl, refl, sym, ap, ◌∙◌, subst, Bool, true, none, some, List, [], ◌∷◌, arith, map, pos,
}
use mathlib.Core.List.{map-append}
use picotcp.Tree.{
  Color, Tree, leaf, node, Inserted, done, exists, no_memory, keys, find_key, insert,
}
use picotcp.Tree.Order.{IsOrder, AllAfter, Sorted, search_key, insert_key, insert_key-Sorted}
use picotcp.Tree.Members.{In, insert_key-In, find_key-In, find_key-found}
use picotcp.Tree.Refine.{find_key-keys, insert_refines}
use picotcp.Arp.{
  Arp, arp_compare, Stack, Resolver, search_for, find_arp, map_tree, write_at, write_entry,
  entry_told, renewed, add_entry,
}

pub arp_compare-IsOrder : IsOrder arp_compare
arp_compare-IsOrder = record {
  flip = λ a b. ground arith;
  trans = λ a b c h i. ground arith;
  congr = λ a b c h. ground arith;
}

abbrev pub InOrder : Resolver → Type 0
InOrder st = Sorted arp_compare (keys st.arp_tree)

-- An insertion with memory of an entry that is not there.
insert_told :
    (e : Arp) (alloc : Bool) (lc : Color) (t : Tree Arp)
    → alloc ≡ true
    → Sorted arp_compare (keys t)
    → find_key arp_compare e t ≡ none
    → let (t', lc', told) = insert arp_compare alloc lc e t in
      ◌≡◌ {A = List Arp × Inserted Arp} (keys t', told) (insert_key arp_compare e (keys t), done)
insert_told e alloc lc t m s n =
    let q = find_key-keys arp_compare arp_compare-IsOrder e t s in
    insert_refines arp_compare arp_compare-IsOrder e alloc lc t s ∙ ground (arith, q, n, m)

search_same :
    (e : Arp) (xs : List Arp)
    → search_key arp_compare e xs ≡ search_key arp_compare (search_for e.ipv4) xs
unfolding search_key
search_same e [] = refl
search_same e (x ∷ xs) = ground (arith, search_same e xs)

-- The key of an entry finds what its address finds.
pub find_same :
    (e : Arp) (t : Tree Arp)
    → Sorted arp_compare (keys t)
    → find_key arp_compare e t ≡ find_key arp_compare (search_for e.ipv4) t
find_same e t s =
    find_key-keys arp_compare arp_compare-IsOrder e t s
    ∙ (search_same e (keys t)
        ∙ sym (find_key-keys arp_compare arp_compare-IsOrder (search_for e.ipv4) t s))

entry_told-find :
    (w : Stack) (e : Arp) (st : Resolver) (r : Tree Arp × Color × Inserted Arp)
    → w.timer_starts ≡ true
    → InOrder st
    → find_key arp_compare e st.arp_tree ≡ none
    → ◌≡◌ {A = List Arp × Inserted Arp}
        (keys r.0, r.2)
        (insert_key arp_compare e (keys st.arp_tree), done)
    → (find_arp (entry_told w e st r).0 e.ipv4 ≡ some e) × ((entry_told w e st r).2 ≡ pos 0)
entry_told-find w e st (t, lc, done) m s n q =
    let k : keys t ≡ insert_key arp_compare e (keys st.arp_tree) =
      ap (λ (p : List Arp × Inserted Arp). p.0) q in
    let p : search_key arp_compare e (keys st.arp_tree) ≡ none =
      sym (find_key-keys arp_compare arp_compare-IsOrder e st.arp_tree s) ∙ n in
    let s' : Sorted arp_compare (keys t) =
      subst (Sorted arp_compare) (sym k)
        (insert_key-Sorted arp_compare arp_compare-IsOrder e (keys st.arp_tree) s p) in
    let i : In e (keys t) =
      subst (In e) (sym k)
        ((insert_key-In arp_compare arp_compare-IsOrder e (keys st.arp_tree) e).1 (inl refl)) in
    let f =
      find_key-In arp_compare arp_compare-IsOrder (search_for e.ipv4) t e s' i (ground arith) in
    rw m (f, refl)
entry_told-find w e st (t, lc, exists a) m s n q = ground (arith, q)
entry_told-find w e st (t, lc, no_memory) m s n q = ground (arith, q)

keys-map_tree : (g : Arp → Arp) (t : Tree Arp) → keys (map_tree g t) ≡ map g (keys t)
unfolding map_tree
keys-map_tree g leaf = refl
keys-map_tree g (node c k l r) =
    rw (keys-map_tree g l, keys-map_tree g r) (sym (map-append g (keys l) (k ∷ keys r)))

search_key-write :
    (ip : ℕ) (g : Arp → Arp) (xs : List Arp) (a : Arp)
    → ((x : Arp) → (g x).ipv4 ≡ x.ipv4)
    → search_key arp_compare (search_for ip) xs ≡ some a
    → search_key arp_compare (search_for ip) (map (write_at ip g) xs) ≡ some (g a)
unfolding search_key
search_key-write ip g [] a k h = ground (arith, h)
search_key-write ip g (x ∷ xs) a k h = ground (arith, k x, search_key-write ip g xs a k, h)

-- Which entry pico_arp_add_entry leaves, with memory, a timer, and no entry of that address.
pub add_entry-find :
    (w : Stack) (e : Arp) (st : Resolver)
    → w.node_alloc ≡ true
    → w.timer_starts ≡ true
    → InOrder st
    → find_arp st e.ipv4 ≡ none
    → (find_arp (add_entry w e st).0 e.ipv4 ≡ some (renewed w e)) × ((add_entry w e st).2 ≡ pos 0)
unfolding add_entry
add_entry-find w e st m t s n =
    let n' = find_same (renewed w e) st.arp_tree s ∙ n in
    entry_told-find w (renewed w e) st _ t s n'
      (insert_told (renewed w e) w.node_alloc st.leaf_color st.arp_tree m s n')

AllAfter-write :
    (ip : ℕ) (g : Arp → Arp) (x : Arp) (xs : List Arp)
    → ((x : Arp) → (g x).ipv4 ≡ x.ipv4)
    → AllAfter arp_compare x xs
    → AllAfter arp_compare (write_at ip g x) (map (write_at ip g) xs)
AllAfter-write ip g x [] k s = tt
AllAfter-write ip g x (y ∷ ys) k s = (ground (arith, k x, k y, s.0), AllAfter-write ip g x ys k s.1)

Sorted-write :
    (ip : ℕ) (g : Arp → Arp) (xs : List Arp)
    → ((x : Arp) → (g x).ipv4 ≡ x.ipv4)
    → Sorted arp_compare xs
    → Sorted arp_compare (map (write_at ip g) xs)
Sorted-write ip g [] k s = tt
Sorted-write ip g (x ∷ xs) k s = (AllAfter-write ip g x xs k s.0, Sorted-write ip g xs k s.1)

pub write-lookup :
    (st : Resolver) (ip : ℕ) (g : Arp → Arp) (a : Arp)
    → InOrder st
    → ((x : Arp) → (g x).ipv4 ≡ x.ipv4)
    → find_arp st ip ≡ some a
    → find_arp (write_entry ip g st) ip ≡ some (g a)
write-lookup st ip g a s k h =
    let t' = map_tree (write_at ip g) st.arp_tree in
    let e = keys-map_tree (write_at ip g) st.arp_tree in
    find_key-keys arp_compare arp_compare-IsOrder (search_for ip) t'
      (subst (Sorted arp_compare) (sym e) (Sorted-write ip g (keys st.arp_tree) k s))
    ∙ (ap (search_key arp_compare (search_for ip)) e
        ∙ search_key-write ip g (keys st.arp_tree) a k
            (sym (find_key-keys arp_compare arp_compare-IsOrder (search_for ip) st.arp_tree s) ∙ h))

-- What is found at an address has it.
pub find_arp-ipv4 :
    (st : Resolver) (ip : ℕ) (a : Arp) → InOrder st → find_arp st ip ≡ some a → a.ipv4 ≡ ip
find_arp-ipv4 st ip a s h =
    ground (arith, find_key-found arp_compare arp_compare-IsOrder (search_for ip) st.arp_tree a s h)
