-- ===== src/Nat/Rounds.antt =====
-- What one round of the loop of pico_ipv4_nat_table_cleanup, modules/pico_nat.c, does to the table.
use picotcp.Base.{ℕ, ◌≡◌, ◌≢◌, ◌⊎◌, ◌↔◌, inl, inr, subst, false, arith}
use picotcp.Tree.{keys}
use picotcp.Tree.Members.{In}
use picotcp.Nat.{NatTuple, Nat, Session, nat_del, set_session, write}
use picotcp.Nat.Cleanup.{cleanup_tuple, tick}
use picotcp.Nat.Table.{IsValid, Kept}
use picotcp.Nat.Changes.{nat_del_outcome}
use picotcp.Nat.Outbound.{find_tuple_back}

-- The tuple has left the table, and no other one has.
abbrev pub Gone : NatTuple → Nat → Nat → Type 0
Gone t st st' = (z : NatTuple) → In z (keys st'.inbound) ↔ (In z (keys st.inbound) × (z ≢ t))

pub nat_del-Gone :
    (st : Nat) (t : NatTuple)
    → IsValid st
    → In t (keys st.inbound)
    → Gone t st (nat_del st t.nat_port t.proto)
nat_del-Gone st t v m = elim (nat_del_outcome st t.nat_port t.proto v).1 [
  | inl (e, f) ↦ ground (arith, find_tuple_back st t v m, e)
  | inr (u, e, d) ↦
      let eq : u ≡ t = ground (arith, find_tuple_back st t v m, e) in
      subst (λ u. Gone u st (nat_del st t.nat_port t.proto)) eq d
]

kept : (st : Nat) (s : ℕ → Session) → Kept st (record st { sessions = s })
kept st s z = (λ i. i, λ i. i)

-- A round deletes by the port of its tuple, or writes to a session, or does nothing.
pub cleanup_tuple_lem :
    (P : Nat → Type 0) (st : Nat) (t : NatTuple)
    → P st
    → P (nat_del st t.nat_port t.proto)
    → ((s : Session) → P (set_session st t s))
    → P (cleanup_tuple st t)
unfolding cleanup_tuple
cleanup_tuple_lem P st t a b c =
    let s = st.sessions t.ptr in ground (arith, a, b, c (record s { conn_active = 0 }), c (tick s))

-- A round for a tuple of a valid table deletes that tuple and no other one, or none.
pub cleanup_tuple_outcome :
    (st : Nat) (t : NatTuple)
    → IsValid st
    → In t (keys st.inbound)
    → Kept st (cleanup_tuple st t) ⊎ Gone t st (cleanup_tuple st t)
cleanup_tuple_outcome st t v m =
    cleanup_tuple_lem (λ st'. Kept st st' ⊎ Gone t st st') st t (inl (kept st st.sessions))
      (inr (nat_del-Gone st t v m)) (λ s. inl (kept st (write st.sessions t.ptr s)))

pub udp_ticks :
    (st : Nat) (t : NatTuple)
    → t.proto ≡ 17
    → (st.sessions t.ptr).portforward ≡ false
    → (st.sessions t.ptr).conn_active ≡ 1
    → cleanup_tuple st t ≡ set_session st t (tick (st.sessions t.ptr))
unfolding cleanup_tuple
udp_ticks st t p f c = ground arith

pub udp_expires :
    (st : Nat) (t : NatTuple)
    → t.proto ≡ 17
    → (st.sessions t.ptr).portforward ≡ false
    → (st.sessions t.ptr).conn_active ≡ 2
    → cleanup_tuple st t ≡ nat_del st t.nat_port t.proto
unfolding cleanup_tuple
udp_expires st t p f c = ground arith
