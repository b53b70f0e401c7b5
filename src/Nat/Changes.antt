-- ===== src/Nat/Changes.antt =====
-- What pico_ipv4_nat_add, pico_ipv4_nat_del and pico_ipv4_port_forward of modules/pico_nat.c do to
-- the table.
use picotcp.Base.{
  ℕ, ◌≡◌, ◌≢◌, ◌⊎◌, ◌↔◌, inl, inr, refl, sym, subst, true, false, Option, none, some, Ordering,
  arith, Option-cases, ◌==◌, if◌then◌else◌,
}
use picotcp.Tree.{Color, keys, find_key}
use picotcp.Tree.Delete.{delete}
use picotcp.Tree.Delete.Refine.{delete-Sorted}
use picotcp.Tree.Members.{In, find_key-found, same_member, delete-In, cmp_self}
use picotcp.Nat.{
  NatTuple, Nat, Memory, nat_cmp_inbound, nat_cmp_outbound, find_tuple, delete_outbound,
  delete_inbound, test_tuple, nat_add, delete_tuple, nat_del, new_session, set_session,
  port_forward, mark_forward,
}
use picotcp.Nat.Table.{IsValid, Kept, Added, add_tuple-outcome, inbound-IsOrder, outbound-IsOrder}

-- pico_ipv4_nat_add, for a NAT port that is not 0, keeps a valid table valid: the tuple with the
-- given fields is in both trees and handed back, or NULL is handed back and both trees hold the
-- tuples that they held.
pub nat_add_outcome :
    (m : Memory) (st : Nat) (x : NatTuple)
    → IsValid st
    → x.nat_port ≢ 0
    → let (st', r) = nat_add m st x in
      IsValid st'
      × (((r ≡ none) × Kept st st')
          ⊎ ((p : ℕ) × (m.tuple ≡ some p)
              × (r ≡ some (record x { ptr = p }))
              × Added (record x { ptr = p }) st st'))
unfolding nat_add
nat_add_outcome m st x v p = elim (Option-cases m.tuple) [
  | inl e ↦ rw e (v, inl (refl, λ z. (λ i. i, λ i. i)))
  | inr (q, e) ↦
      let t = record x { ptr = q } in
      let (w, told) =
        add_tuple-outcome st t p m.outbound_node m.inbound_node (set_session st t new_session) v
          refl refl in
      rw e (w, elim told [ inl n ↦ inl n | inr (a, b) ↦ inr (q, refl, a, b) ])
]

-- What pico_ipv4_nat_find_tuple finds is a tuple of the table.
pub find_tuple-In :
    (st : Nat) (nat_port : ℕ) (src_addr : Option ℕ) (src_port proto : ℕ) (t : NatTuple)
    → IsValid st
    → find_tuple st nat_port src_addr src_port proto ≡ some t
    → In t (keys st.inbound)
unfolding find_tuple
find_tuple-In st nat_port src_addr src_port proto t v =
    let test = test_tuple nat_port src_addr src_port proto in
    elim (nat_port == 0)
      as (λ b.
        (if b
            then find_key nat_cmp_outbound test st.outbound
            else find_key nat_cmp_inbound test st.inbound)
          ≡ some t
        → In t (keys st.inbound)) [
          | true ↦ λ h.
              (v.same t).0
                (find_key-found nat_cmp_outbound outbound-IsOrder test st.outbound t v.out_sorted
                  h).0
          | false ↦ λ h.
              (find_key-found nat_cmp_inbound inbound-IsOrder test st.inbound t v.in_sorted h).0
        ]

-- A tuple of the table that is deleted leaves both trees, and no other one does.
module _ (st : Nat) (t : NatTuple) (v : IsValid st) (m : In t (keys st.inbound)) where
  deleted-In :
      (lc : Color) (z : NatTuple)
      → In z (keys (delete nat_cmp_inbound lc t st.inbound).0) ↔ (In z (keys st.inbound) × (z ≢ t))
  deleted-In lc z =
      let d = delete-In nat_cmp_inbound inbound-IsOrder t lc st.inbound z v.in_sorted in
      (
        (λ i. (
          (d.0 i).0,
          λ e. (d.0 i).1 (
              subst (λ z. nat_cmp_inbound z t ≡ Ordering.eq) (sym e)
                (cmp_self nat_cmp_inbound inbound-IsOrder t)),
        )),
        (λ i. d.1 (
          i.0,
          λ e. i.1 (same_member nat_cmp_inbound inbound-IsOrder st.inbound z t v.in_sorted i.0 m e),
        )),
      )

  deleted_out :
      (lc : Color) (z : NatTuple)
      → In z (keys (delete nat_cmp_outbound lc t st.outbound).0)
        ↔ (In z (keys st.outbound) × (z ≢ t))
  deleted_out lc z =
      let d = delete-In nat_cmp_outbound outbound-IsOrder t lc st.outbound z v.out_sorted in
      (
        (λ i. (
          (d.0 i).0,
          λ e. (d.0 i).1 (
              subst (λ z. nat_cmp_outbound z t ≡ Ordering.eq) (sym e)
                (cmp_self nat_cmp_outbound outbound-IsOrder t)),
        )),
        (λ i. d.1 (
          i.0,
          λ e. i.1 (
              same_member nat_cmp_outbound outbound-IsOrder st.outbound z t v.out_sorted i.0
                ((v.same t).1 m) e),
        )),
      )

  delete_both :
      let st' = delete_inbound (delete_outbound st t) t in
      IsValid st' × ((z : NatTuple) → In z (keys st'.inbound) ↔ (In z (keys st.inbound) × (z ≢ t)))
  unfolding delete_outbound delete_inbound
  delete_both =
      let lc = (delete nat_cmp_outbound st.leaf_color t st.outbound).1 in
      (
        record {
          out_sorted =
              delete-Sorted nat_cmp_outbound outbound-IsOrder t st.leaf_color st.outbound
                v.out_sorted;
          in_sorted = delete-Sorted nat_cmp_inbound inbound-IsOrder t lc st.inbound v.in_sorted;
          same = λ z. ground (arith, deleted-In lc z, deleted_out st.leaf_color z, v.same z);
          ports = λ z i. v.ports z ((deleted-In lc z).0 i).0;
        },
        deleted-In lc,
      )

delete_tuple-outcome :
    (st : Nat) (o : Option NatTuple)
    → IsValid st
    → ((t : NatTuple) → o ≡ some t → In t (keys st.inbound))
    → let st' = delete_tuple st o in
      IsValid st'
      × (((o ≡ none) × (st' ≡ st))
          ⊎ ((t : NatTuple) × (o ≡ some t)
              × ((z : NatTuple) → In z (keys st'.inbound) ↔ (In z (keys st.inbound) × (z ≢ t)))))
delete_tuple-outcome st none v m = (v, inl (refl, refl))
delete_tuple-outcome st (some t) v m =
    let (w, d) = delete_both st t v (m t refl) in (w, inr (t, refl, d))

-- In a valid table, pico_ipv4_nat_del takes the tuple that it finds out of both trees and no other,
-- or finds none and changes nothing; the table stays valid.
pub nat_del_outcome :
    (st : Nat) (nat_port proto : ℕ)
    → IsValid st
    → let st' = nat_del st nat_port proto in
      IsValid st'
      × (((find_tuple st nat_port none 0 proto ≡ none) × (st' ≡ st))
          ⊎ ((t : NatTuple) × (find_tuple st nat_port none 0 proto ≡ some t)
              × ((z : NatTuple) → In z (keys st'.inbound) ↔ (In z (keys st.inbound) × (z ≢ t)))))
unfolding nat_del
nat_del_outcome st nat_port proto v =
    delete_tuple-outcome st (find_tuple st nat_port none 0 proto) v
      (λ t. find_tuple-In st nat_port none 0 proto t v)

marked : (r : Nat × Option NatTuple) → IsValid r.0 → IsValid (mark_forward r).0
marked (st, none) v = v
marked (st, some t) v = v

-- pico_ipv4_port_forward keeps the table valid, whatever it answers.
pub port_forward-IsValid :
    (m : Memory) (st : Nat) (x : NatTuple) (flag : ℕ)
    → IsValid st
    → x.nat_port ≢ 0
    → IsValid (port_forward m st x flag).0
unfolding port_forward
port_forward-IsValid m st x flag v p = ground (
  arith,
  marked (nat_add m st (record x { dst_addr = 0; dst_port = 0 }))
      (nat_add_outcome m st (record x { dst_addr = 0; dst_port = 0 }) v p).0,
  (nat_del_outcome st x.nat_port x.proto v).0,
  v,
)
