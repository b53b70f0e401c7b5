-- ===== src/Nat/Table.antt =====
-- The two trees of modules/pico_nat.c stay in order and hold the same tuples.
use picotcp.Base.{
  ℕ, ◌≡◌, ◌≢◌, ◌⊎◌, ◌↔◌, inl, inr, refl, sym, subst, Bool, Option, none, some, Ordering, arith,
}
use picotcp.Tree.{Color, Tree, Inserted, done, exists, no_memory, keys, insert}
use picotcp.Tree.Order.{IsOrder, Sorted}
use picotcp.Tree.Refine.{insert-Sorted}
use picotcp.Tree.Search.{insert_outcome}
use picotcp.Tree.Delete.{delete}
use picotcp.Tree.Delete.Refine.{delete-Sorted}
use picotcp.Tree.Members.{In, insert-In, insert-new, delete-In, cmp_self}
use picotcp.Nat.{
  NatTuple, Nat, nat_cmp_inbound, nat_cmp_outbound, delete_outbound, inbound_told, add_inbound,
  outbound_told, add_tuple, cmp_uint,
}

cmp_uint-eq : (a b : ℕ) → cmp_uint a b ≡ Ordering.eq → a ≡ b
cmp_uint-eq a b h = ground arith

pub inbound-IsOrder : IsOrder nat_cmp_inbound
unfolding nat_cmp_inbound
inbound-IsOrder = record {
  flip = λ a b. ground arith;
  trans = λ a b c. ground arith;
  congr = λ a b c. ground arith;
}

pub outbound-IsOrder : IsOrder nat_cmp_outbound
unfolding nat_cmp_outbound
outbound-IsOrder = record {
  flip = λ a b. ground arith;
  trans = λ a b c. ground arith;
  congr = λ a b c. ground arith;
}

-- Both trees are in order and hold the same tuples, and no tuple has the NAT port 0.
pub record Tables (out inb : Tree NatTuple) : Type 0 where
  pub out_sorted : Sorted nat_cmp_outbound (keys out)
  pub in_sorted : Sorted nat_cmp_inbound (keys inb)
  pub same : (z : NatTuple) → In z (keys out) ↔ In z (keys inb)
  pub ports : (z : NatTuple) → In z (keys inb) → z.nat_port ≢ 0

abbrev pub IsValid : Nat → Type 0
IsValid st = Tables st.outbound st.inbound

-- The tuples of the table after an operation are those before it, without or with one more.
abbrev pub Kept : Nat → Nat → Type 0
Kept st st' = (z : NatTuple) → In z (keys st'.inbound) ↔ In z (keys st.inbound)

abbrev pub Added : NatTuple → Nat → Nat → Type 0
Added t st st' = (z : NatTuple) → In z (keys st'.inbound) ↔ ((z ≡ t) ⊎ In z (keys st.inbound))

abbrev pub AddOutcome : Nat → NatTuple → Nat × Option NatTuple → Type 0
AddOutcome st t (st', r) =
    IsValid st' × (((r ≡ none) × Kept st st') ⊎ ((r ≡ some t) × Added t st st'))

module _ (st : Nat) (t : NatTuple) (p : t.nat_port ≢ 0) where
  -- The outbound tree has the new tuple already.
  record Halfway (out : Tree NatTuple) : Type 0 where
    out_sorted : Sorted nat_cmp_outbound (keys out)
    more : (z : NatTuple) → In z (keys out) ↔ ((z ≡ t) ⊎ In z (keys st.inbound))
    fresh : (z : NatTuple) → In z (keys st.inbound) → nat_cmp_outbound z t ≢ Ordering.eq

  Tables-undone :
      (lc : Color) (out : Tree NatTuple)
      → IsValid st
      → Halfway out
      → Tables (delete nat_cmp_outbound lc t out).0 st.inbound
  Tables-undone lc out v h = record {
    out_sorted = delete-Sorted nat_cmp_outbound outbound-IsOrder t lc out h.out_sorted;
    in_sorted = v.in_sorted;
    same = λ z. ground (
      arith,
      delete-In nat_cmp_outbound outbound-IsOrder t lc out z h.out_sorted,
      h.more z,
      h.fresh z,
      cmp_self nat_cmp_outbound outbound-IsOrder t,
    );
    ports = v.ports;
  }

  Tables-more :
      (out inb : Tree NatTuple)
      → IsValid st
      → Halfway out
      → Sorted nat_cmp_inbound (keys inb)
      → ((z : NatTuple) → In z (keys inb) ↔ ((z ≡ t) ⊎ In z (keys st.inbound)))
      → Tables out inb
  Tables-more out inb v h s m = record {
    out_sorted = h.out_sorted;
    in_sorted = s;
    same = λ z. ground (arith, m z, h.more z);
    ports = λ z i. ground (arith, m z, v.ports z, p);
  }

  -- The second insertion has changed nothing.
  refused_outcome :
      (st' : Nat) (lc : Color) (inb : Tree NatTuple)
      → IsValid st
      → Halfway st'.outbound
      → inb ≡ st.inbound
      → AddOutcome st t (delete_outbound (record st' { inbound = inb; leaf_color = lc }) t, none)
  unfolding delete_outbound
  refused_outcome st' lc inb v h e = (
    subst (Tables (delete nat_cmp_outbound lc t st'.outbound).0) (sym e)
        (Tables-undone lc st'.outbound v h),
    inl (refl, λ z. subst (λ u. In z (keys u) ↔ In z (keys st.inbound)) (sym e) (λ i. i, λ i. i)),
  )

  inbound_told-outcome :
      (st' : Nat) (r : Tree NatTuple × Color × Inserted NatTuple)
      → IsValid st
      → Halfway st'.outbound
      → (r.2 ≢ done → r.0 ≡ st.inbound)
      → (r.2 ≡ done
          → Sorted nat_cmp_inbound (keys r.0)
            × ((z : NatTuple) → In z (keys r.0) ↔ ((z ≡ t) ⊎ In z (keys st.inbound))))
      → AddOutcome st t (inbound_told st' t r)
  inbound_told-outcome st' (inb, lc, done) v h e f =
      (Tables-more st'.outbound inb v h (f refl).0 (f refl).1, inr (refl, (f refl).1))
  inbound_told-outcome st' (inb, lc, exists x) v h e f =
      refused_outcome st' lc inb v h (e (λ q. cc))
  inbound_told-outcome st' (inb, lc, no_memory) v h e f =
      refused_outcome st' lc inb v h (e (λ q. cc))

  add_inbound-outcome :
      (alloc : Bool) (st' : Nat)
      → IsValid st
      → Halfway st'.outbound
      → st'.inbound ≡ st.inbound
      → AddOutcome st t (add_inbound alloc st' t)
  unfolding add_inbound
  add_inbound-outcome alloc st' v h e =
      let r = insert nat_cmp_inbound alloc st'.leaf_color t st'.inbound in
      let s : Sorted nat_cmp_inbound (keys st'.inbound) =
        subst (λ u. Sorted nat_cmp_inbound (keys u)) (sym e) v.in_sorted in
      inbound_told-outcome st' r v h
        (λ n. ground (arith, insert_outcome nat_cmp_inbound t alloc st'.leaf_color st'.inbound))
        (λ d. (
          insert-Sorted nat_cmp_inbound inbound-IsOrder t alloc st'.leaf_color st'.inbound s,
          λ z.
              subst (λ u. In z (keys r.0) ↔ ((z ≡ t) ⊎ In z (keys u))) e
                (insert-In nat_cmp_inbound inbound-IsOrder t alloc st'.leaf_color st'.inbound z s
                  d),
        ))

  outbound_told-outcome :
      (alloc : Bool) (st' : Nat) (r : Tree NatTuple × Color × Inserted NatTuple)
      → IsValid st
      → st'.inbound ≡ st.inbound
      → (r.2 ≢ done → r.0 ≡ st.outbound)
      → (r.2 ≡ done → Halfway r.0)
      → AddOutcome st t (outbound_told alloc st' t r)
  outbound_told-outcome alloc st' (out, lc, done) v e f g =
      add_inbound-outcome alloc (record st' { outbound = out; leaf_color = lc }) v (g refl) e
  outbound_told-outcome alloc st' (out, lc, exists x) v e f g =
      (ground (arith, e, f), inl (refl, ground (arith, e)))
  outbound_told-outcome alloc st' (out, lc, no_memory) v e f g =
      (ground (arith, e, f), inl (refl, ground (arith, e)))

  -- Both insertions, from a table with the tuples of `st`.
  pub add_tuple-outcome :
      (out_node in_node : Bool) (st' : Nat)
      → IsValid st
      → st'.outbound ≡ st.outbound
      → st'.inbound ≡ st.inbound
      → AddOutcome st t (add_tuple out_node in_node st' t)
  unfolding add_tuple
  add_tuple-outcome out_node in_node st' v d e =
      let r = insert nat_cmp_outbound out_node st'.leaf_color t st'.outbound in
      let s : Sorted nat_cmp_outbound (keys st'.outbound) =
        subst (λ u. Sorted nat_cmp_outbound (keys u)) (sym d) v.out_sorted in
      let i =
        λ (z : NatTuple). subst (λ u. In z (keys u) ↔ In z (keys st.inbound)) (sym d) (v.same z) in
      outbound_told-outcome in_node st' r v e
        (λ n.
          ground (arith, d, insert_outcome nat_cmp_outbound t out_node st'.leaf_color st'.outbound))
        (λ f. record {
          out_sorted =
              insert-Sorted nat_cmp_outbound outbound-IsOrder t out_node st'.leaf_color st'.outbound
                s;
          more = λ z. ground (
            arith,
            i z,
            insert-In nat_cmp_outbound outbound-IsOrder t out_node st'.leaf_color st'.outbound z s
                f,
          );
          fresh = λ z m.
              insert-new nat_cmp_outbound outbound-IsOrder t out_node st'.leaf_color st'.outbound z
                s f ((i z).1 m);
        })
