-- ===== src/IpFilter/Table.antt =====
-- The table of filters of modules/pico_ipfilter.c under pico_ipv4_filter_add and
-- pico_ipv4_filter_del, whatever the comparison makes of it.
use picotcp.Base.{
  ℕ, ◌+◌, ◌<◌, ◌≡◌, ◌≢◌, ◌⊎◌, inl, inr, refl, sym, ap, ◌∙◌, subst, Bool, true, false, Option, none,
  some, List, [], ◌∷◌, ◌++◌, Ordering, arith, Option-cases, Bool-cases, u32,
}
use picotcp.Tree.{Color, Tree, Inserted, done, exists, no_memory, keys, find_key, insert}
use picotcp.Tree.Search.{All, All-add, find_key_sound, insert_outcome, delete_takes, delete_absent}
use picotcp.IpFilter.{
  FilterNode, IpFilter, AddArgs, Err, filter_compare, add_validate, new_filter, add_result,
  filter_add, dummy, del_result, filter_del,
}

-- Every filter of the table has an identifier that has been given, and is not 0.
abbrev pub Given : ℕ → FilterNode → Type 0
Given next rule = (rule.filter_id ≢ 0) × (rule.filter_id < next)

pub record IsValid (st : IpFilter) : Type 0 where
  pub given : All (Given st.next_id) (keys st.filter_tree)
  pub counting : st.next_id ≢ 0
  pub in_range : st.next_id < 4294967296

-- Nothing has changed but the colour of LEAF.
abbrev pub SameTable : IpFilter → IpFilter → Type 0
SameTable st st' = (st'.filter_tree ≡ st.filter_tree) × (st'.next_id ≡ st.next_id)

-- The new filter is in the table, with the identifier that was next.
abbrev pub Added : AddArgs → IpFilter → IpFilter → Type 0
Added x st st' =
    (xs ys : List FilterNode) × (keys st.filter_tree ≡ xs ++ ys)
    × (keys st'.filter_tree ≡ xs ++ new_filter x st.next_id ∷ ys)
    × (st'.next_id ≡ u32 (st.next_id + 1))

add_result_refused :
    (st : IpFilter) (t : Tree FilterNode) (lc : Color) (told : Inserted FilterNode)
    → IsValid st
    → told ≢ done
    → t ≡ st.filter_tree
    → let (st', id, err) = add_result st st.next_id (t, lc, told) in
      (id ≡ 0) × (err ≢ none) × SameTable st st'
add_result_refused st t lc done v n e = absurd (n refl)
add_result_refused st t lc (exists x) v n e = (refl, (λ h. cc), (e, ground (arith, v)))
add_result_refused st t lc no_memory v n e = (refl, (λ h. cc), (e, ground (arith, v)))

abbrev Outcome : IpFilter → AddArgs → IpFilter × ℕ × Option Err → Type 0
Outcome st x (st', id, err) =
    ((id ≡ 0) × (err ≢ none) × SameTable st st')
    ⊎ ((id ≡ st.next_id) × (err ≡ none) × Added x st st')

inserted-Outcome :
    (alloc_node : Bool) (st : IpFilter) (x : AddArgs)
    → IsValid st
    → Outcome st x (
        add_result st st.next_id
          (insert filter_compare alloc_node st.leaf_color (new_filter x st.next_id) st.filter_tree))
inserted-Outcome alloc_node st x v =
    let n = new_filter x st.next_id in
    by_telling (insert filter_compare alloc_node st.leaf_color n st.filter_tree)
      (insert_outcome filter_compare n alloc_node st.leaf_color st.filter_tree)
  where
    by_telling :
        (r : Tree FilterNode × Color × Inserted FilterNode)
        → ((r.2 ≢ done) × (r.0 ≡ st.filter_tree))
          ⊎ ((r.2 ≡ done)
              × (xs ys : List FilterNode) × (keys st.filter_tree ≡ xs ++ ys)
              × (keys r.0 ≡ xs ++ new_filter x st.next_id ∷ ys))
        → Outcome st x (add_result st st.next_id r)
    by_telling (t, lc, told) (inl (n, e)) = inl (add_result_refused st t lc told v n e)
    by_telling (t, lc, done) (inr (d, xs, ys, a, b)) = inr (refl, refl, (xs, ys, a, b, refl))
    by_telling (t, lc, exists y) (inr (d, xs, ys, a, b)) = cc
    by_telling (t, lc, no_memory) (inr (d, xs, ys, a, b)) = cc

-- pico_ipv4_filter_add either refuses, with the result 0 and an error, and leaves the table and
-- the counter as they were; or it gives the next identifier, and the new filter is in the table
-- beside the old ones.
pub filter_add_outcome :
    (alloc alloc_node : Bool) (st : IpFilter) (x : AddArgs)
    → IsValid st
    → let (st', id, err) = filter_add alloc alloc_node st x in
      ((id ≡ 0) × (err ≢ none) × SameTable st st')
      ⊎ ((id ≡ st.next_id) × (err ≡ none) × Added x st st')
unfolding filter_add
filter_add_outcome true alloc_node st x v = elim (Bool-cases (add_validate x.prio x.action_code)) [
  | inl e ↦ rw e (inserted-Outcome alloc_node st x v)
  | inr e ↦ rw e (inl (refl, (λ h. cc), (refl, refl)))
]
filter_add_outcome false alloc_node st x v = elim (Bool-cases (add_validate x.prio x.action_code)) [
  | inl e ↦ rw e (inl (refl, (λ h. cc), (refl, refl)))
  | inr e ↦ rw e (inl (refl, (λ h. cc), (refl, refl)))
]

Given-later : (n : ℕ) (l : List FilterNode) → All (Given n) l → All (Given (n + 1)) l
Given-later n [] a = tt
Given-later n (r ∷ l) a = ((a.0.0, omega (arith, a.0.1)), Given-later n l a.1)

Outcome-IsValid :
    (st : IpFilter) (x : AddArgs) (st' : IpFilter) (id : ℕ) (err : Option Err)
    → IsValid st
    → st.next_id + 1 < 4294967296
    → Outcome st x (st', id, err)
    → IsValid st'
Outcome-IsValid st x st' id err v r (inl (z, n, same)) = record {
  given =
      subst (λ n. All (Given n) (keys st'.filter_tree)) (sym same.1)
        (subst (λ t. All (Given st.next_id) (keys t)) (sym same.0) v.given);
  counting = ground (arith, v, same.1);
  in_range = ground (arith, v, same.1);
}
Outcome-IsValid st x st' id err v r (inr (z, n, (xs, ys, a, b, c))) =
    let next : st'.next_id ≡ st.next_id + 1 = omega (arith, c, r) in
    record {
      given =
          subst (λ n. All (Given n) (keys st'.filter_tree)) (sym next)
            (subst (All (Given (st.next_id + 1))) (sym b) (
              All-add (Given (st.next_id + 1)) (keys st.filter_tree) xs (new_filter x st.next_id) ys
                a (Given-later st.next_id (keys st.filter_tree) v.given)
                (v.counting, omega arith)));
      counting = omega (arith, next);
      in_range = omega (arith, next, r);
    }

-- The identifiers in the table stay the ones that have been given, none of them 0, as long as the
-- counter does not wrap.
pub filter_add-IsValid :
    (alloc alloc_node : Bool) (st : IpFilter) (x : AddArgs)
    → IsValid st
    → st.next_id + 1 < 4294967296
    → IsValid (filter_add alloc alloc_node st x).0
filter_add-IsValid alloc alloc_node st x v r =
    let (st', id, err) = filter_add alloc alloc_node st x in
    Outcome-IsValid st x st' id err v r (filter_add_outcome alloc alloc_node st x v)

del_result_found :
    (st : IpFilter) (r : Tree FilterNode × Color × Option FilterNode) (x : FilterNode)
    → r.2 ≡ some x
    → ((del_result st r).1 ≡ true)
      × ((del_result st r).2 ≡ some x)
      × ((del_result st r).0.filter_tree ≡ r.0)
del_result_found st (t, lc, none) x h = cc
del_result_found st (t, lc, some y) x h = (refl, h, refl)

-- pico_ipv4_filter_del takes out the one filter that it hands back and no other, or fails and
-- changes nothing.
pub filter_del_outcome :
    (st : IpFilter) (id : ℕ)
    → let (st', ok, gone) = filter_del st id in
      ((ok ≡ false) × (gone ≡ none) × (st' ≡ st))
      ⊎ ((ok ≡ true)
          × (x : FilterNode) × (xs ys : List FilterNode) × (gone ≡ some x)
          × (filter_compare x (dummy id) ≡ Ordering.eq)
          × (keys st.filter_tree ≡ xs ++ x ∷ ys)
          × (keys st'.filter_tree ≡ xs ++ ys))
unfolding filter_del
filter_del_outcome st id = elim (Option-cases (find_key filter_compare (dummy id) st.filter_tree)) [
  | inl e ↦
      rw (delete_absent filter_compare (dummy id) st.leaf_color st.filter_tree e)
        (inl (refl, refl, refl))
  | inr (x, e) ↦
      let c = (find_key_sound filter_compare (dummy id) st.filter_tree x e).0 in
      let (xs, ys, a, b, d) =
        delete_takes filter_compare (dummy id) st.leaf_color st.filter_tree x e in
      let (ok, gone, t) = del_result_found st _ x d in
      inr (ok, x, xs, ys, gone, c, a, ap keys t ∙ b)
]
