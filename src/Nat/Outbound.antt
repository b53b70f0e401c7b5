-- ===== src/Nat/Outbound.antt =====
-- The tuple that pico_ipv4_nat_outbound of modules/pico_nat.c takes for a frame: one of the table,
-- or a new one with a free port.
use picotcp.Base.{
  ℕ, zero, suc, ◌≡◌, ◌≢◌, ◌⊎◌, inl, inr, refl, Bool, true, false, ◌||◌, Option, none, some,
  Ordering, arith, short_be, if◌then◌else◌,
}
use picotcp.Tree.{Color, Tree, Inserted, done, exists, no_memory, keys, insert}
use picotcp.Tree.Members.{In, find_key-found, find_key-In}
use picotcp.Nat.{
  NatTuple, Nat, Memory, nat_cmp_inbound, nat_cmp_outbound, find_tuple, test_tuple, delete_outbound,
  inbound_told, add_inbound, outbound_told, add_tuple, nat_add, new_session, set_session,
}
use picotcp.Nat.Frames.{
  Datagram, Checksums, Ports, is_tcp, is_udp, is_port_free, random_port, find_port, tuple_for,
  generate_at, generate_tuple, found_or_generated,
}
use picotcp.Nat.Table.{IsValid, inbound-IsOrder, outbound-IsOrder}
use picotcp.Nat.Changes.{nat_add_outcome}

random_port_ne : (rand : ℕ) → random_port rand ≢ 0
unfolding short_be
random_port_ne rand h = omega (arith, h)

-- The port that the loop of pico_ipv4_nat_generate_tuple ends with is free, and not 0.
pub find_port_free :
    (ports : Ports) (st : Nat) (proto retry n : ℕ)
    → find_port ports st proto retry ≡ some n
    → (is_port_free ports st proto n ≡ true) × (n ≢ 0)
unfolding find_port
find_port_free ports st proto zero n h = cc
find_port_free ports st proto (suc retry) n h =
    ground (arith, find_port_free ports st proto retry n, random_port_ne (ports.rand retry))

-- A tuple of the table is found by its NAT port.
pub find_tuple_back :
    (st : Nat) (t : NatTuple)
    → IsValid st
    → In t (keys st.inbound)
    → find_tuple st t.nat_port none 0 t.proto ≡ some t
unfolding find_tuple nat_cmp_inbound
find_tuple_back st t v m = ground (
  arith,
  v.ports t m,
  find_key-In nat_cmp_inbound inbound-IsOrder (test_tuple t.nat_port none 0 t.proto) st.inbound t
      v.in_sorted m,
)

-- The tuple stands for the sender of the frame.
abbrev pub Sender : NatTuple → Datagram → Type 0
Sender t f = (t.src_addr ≡ f.src) × (t.src_port ≡ f.sport) × (t.proto ≡ f.proto)

cmp_outbound-Sender :
    (t : NatTuple) (f : Datagram)
    → nat_cmp_outbound t (test_tuple 0 (some f.src) f.sport f.proto) ≡ Ordering.eq
    → Sender t f
unfolding nat_cmp_outbound
cmp_outbound-Sender t f h = ground arith

pub find_tuple-Sender :
    (st : Nat) (f : Datagram) (t : NatTuple)
    → IsValid st
    → find_tuple st 0 (some f.src) f.sport f.proto ≡ some t
    → In t (keys st.inbound) × Sender t f
unfolding find_tuple
find_tuple-Sender st f t v h =
    let test = test_tuple 0 (some f.src) f.sport f.proto in
    let (m, e) =
      find_key-found nat_cmp_outbound outbound-IsOrder test st.outbound t v.out_sorted h in
    ((v.same t).0 m, cmp_outbound-Sender t f e)

-- The link stays what it is.
inbound_told-nat_link :
    (st : Nat) (t : NatTuple) (r : Tree NatTuple × Color × Inserted NatTuple)
    → (inbound_told st t r).0.nat_link ≡ st.nat_link
unfolding delete_outbound
inbound_told-nat_link st t (inb, lc, done) = refl
inbound_told-nat_link st t (inb, lc, exists x) = refl
inbound_told-nat_link st t (inb, lc, no_memory) = refl

outbound_told-nat_link :
    (alloc : Bool) (st : Nat) (t : NatTuple) (r : Tree NatTuple × Color × Inserted NatTuple)
    → (outbound_told alloc st t r).0.nat_link ≡ st.nat_link
unfolding add_inbound
outbound_told-nat_link alloc st t (out, lc, done) =
    inbound_told-nat_link (record st { outbound = out; leaf_color = lc }) t
      (insert nat_cmp_inbound alloc lc t st.inbound)
outbound_told-nat_link alloc st t (out, lc, exists x) = refl
outbound_told-nat_link alloc st t (out, lc, no_memory) = refl

nat_add-nat_link :
    (m : Memory) (st : Nat) (x : NatTuple) → (nat_add m st x).0.nat_link ≡ st.nat_link
unfolding nat_add add_tuple
nat_add-nat_link m st x =
    elim m.tuple
      as (λ o.
        (elim o as (λ y. Nat × Option NatTuple) [
          | none ↦ (st, none)
          | some p ↦
              let t = record x { ptr = p } in
              add_tuple m.outbound_node m.inbound_node (set_session st t new_session) t
        ]).0.nat_link
        ≡ st.nat_link) [
          | none ↦ refl
          | some p ↦
              let t = record x { ptr = p } in
              outbound_told-nat_link m.inbound_node (set_session st t new_session) t
                (insert nat_cmp_outbound m.outbound_node st.leaf_color t st.outbound)
        ]

-- The table, the link and the tuple after a tuple has been looked for or made.
abbrev pub Chosen : Nat → Datagram → Nat × Option NatTuple → Type 0
Chosen st f (st', r) =
    IsValid st'
    × (st'.nat_link ≡ st.nat_link)
    × ((t : NatTuple) → r ≡ some t → In t (keys st'.inbound) × Sender t f)

nat_add-Chosen :
    (m : Memory) (st : Nat) (f : Datagram) (n : ℕ)
    → IsValid st
    → n ≢ 0
    → Chosen st f (nat_add m st (tuple_for st f n))
nat_add-Chosen m st f n v p =
    let x = tuple_for st f n in
    let (w, told) = nat_add_outcome m st x v p in
    (
      w,
      nat_add-nat_link m st x,
      λ t e. elim told [ inl (a, b) ↦ cc | inr (q, a, b, c) ↦ ground (arith, b, c t, e) ],
    )

generate_at-Chosen :
    (m : Memory) (st : Nat) (f : Datagram) (o : Option ℕ)
    → IsValid st
    → ((n : ℕ) → o ≡ some n → n ≢ 0)
    → Chosen st f (generate_at m st f o)
generate_at-Chosen m st f none v p = (v, refl, λ t e. cc)
generate_at-Chosen m st f (some n) v p =
    elim (is_tcp f.proto || is_udp f.proto)
      as (λ b. Chosen st f (if b then nat_add m st (tuple_for st f n) else (st, none))) [
        | true ↦ nat_add-Chosen m st f n v (p n refl)
        | false ↦ (v, refl, λ t e. cc)
      ]

pub found_or_generated-Chosen :
    (cs : Checksums) (m : Memory) (ports : Ports) (st : Nat) (f : Datagram) (o : Option NatTuple)
    → IsValid st
    → find_tuple st 0 (some f.src) f.sport f.proto ≡ o
    → Chosen st f (found_or_generated cs m ports st f o)
unfolding generate_tuple
found_or_generated-Chosen cs m ports st f none v h =
    generate_at-Chosen m st f (find_port ports st f.proto 32) v
      (λ n e. (find_port_free ports st f.proto 32 n e).1)
found_or_generated-Chosen cs m ports st f (some u) v h =
    (v, refl, λ t e. ground (arith, find_tuple-Sender st f t v, h, e))

-- The tuple of a sender is found.
pub find_tuple_host :
    (st : Nat) (f : Datagram) (t : NatTuple)
    → IsValid st
    → In t (keys st.inbound)
    → Sender t f
    → find_tuple st 0 (some f.src) f.sport f.proto ≡ some t
unfolding find_tuple nat_cmp_outbound
find_tuple_host st f t v m s = ground (
  arith,
  find_key-In nat_cmp_outbound outbound-IsOrder (test_tuple 0 (some f.src) f.sport f.proto)
      st.outbound t v.out_sorted ((v.same t).1 m),
)

-- No tuple can be made without memory, or without a free port.
find_port-none :
    (ports : Ports) (st : Nat) (proto retry : ℕ)
    → ((n : ℕ) → is_port_free ports st proto n ≡ false)
    → find_port ports st proto retry ≡ none
unfolding find_port
find_port-none ports st proto zero h = refl
find_port-none ports st proto (suc retry) h =
    ground (arith, find_port-none ports st proto retry h, h (random_port (ports.rand retry)))

nat_add-none : (m : Memory) (st : Nat) (x : NatTuple) → m.tuple ≡ none → (nat_add m st x).1 ≡ none
unfolding nat_add
nat_add-none m st x e = rw e refl

generate_at-none :
    (m : Memory) (st : Nat) (f : Datagram) (o : Option ℕ)
    → (m.tuple ≡ none) ⊎ (o ≡ none)
    → (generate_at m st f o).1 ≡ none
generate_at-none m st f none h = refl
generate_at-none m st f (some n) (inl h) = ground (arith, nat_add-none m st (tuple_for st f n) h)
generate_at-none m st f (some n) (inr h) = cc

pub generate_tuple-none :
    (m : Memory) (ports : Ports) (st : Nat) (f : Datagram)
    → (m.tuple ≡ none) ⊎ ((n : ℕ) → is_port_free ports st f.proto n ≡ false)
    → (generate_tuple m ports st f).1 ≡ none
unfolding generate_tuple
generate_tuple-none m ports st f (inl h) =
    generate_at-none m st f (find_port ports st f.proto 32) (inl h)
generate_tuple-none m ports st f (inr h) =
    generate_at-none m st f (find_port ports st f.proto 32)
      (inr (find_port-none ports st f.proto 32 h))
