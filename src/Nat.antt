-- ===== src/Nat.antt =====
-- Network address translation, modules/pico_nat.c.
--
-- A `struct pico_nat_tuple` is in two trees at once. Its address in memory is the number `ptr`, the
-- fields that are written once are the record `NatTuple`, which stands in both trees, and the bit
-- fields that change later are the `Session` that the store `sessions` has at that address.
-- Addresses and ports keep their network byte order. `nat_link` is the address of the link, none
-- for NULL. Which pointer a new tuple gets, and whether the nodes of the trees get their memory, is
-- an argument.
pub mod Frames
pub mod Cleanup
pub mod Table
pub mod Changes
pub mod Outbound
pub mod Translate
pub mod Reachable
pub mod Idle
pub mod Rounds
mod Tests
use picotcp.Base.{
  ℕ, zero, suc, ◌+◌, ◌-◌, ◌%◌, Bool, true, false, ◌&&◌, ◌||◌, not, Option, none, some, Ordering,
  if◌then◌else◌, ltb, ◌==◌, bit_and, u16, short_be,
}
use picotcp.Tree.{Color, black, Tree, leaf, Inserted, done, exists, no_memory, find_key, insert}
use picotcp.Tree.Delete.{delete}

pub record NatTuple : Type 0 where
  pub ptr : ℕ
  pub proto : ℕ
  pub src_port : ℕ
  pub dst_port : ℕ
  pub nat_port : ℕ
  pub src_addr : ℕ
  pub dst_addr : ℕ
  pub nat_addr : ℕ

pub record Session : Type 0 where
  pub conn_active : ℕ
  pub portforward : Bool
  pub rst : Bool
  pub syn : Bool
  pub fin_in : Bool
  pub fin_out : Bool

pub record Nat : Type 0 where
  pub nat_link : Option ℕ
  pub outbound : Tree NatTuple
  pub inbound : Tree NatTuple
  pub leaf_color : Color
  pub sessions : ℕ → Session
  pub timers : ℕ

-- nat_cmp_natport, nat_cmp_srcport, nat_cmp_proto and pico_ipv4_compare.
abbrev pub cmp_uint : ℕ → ℕ → Ordering
cmp_uint a b = if ltb a b then Ordering.lt else if ltb b a then Ordering.gt else Ordering.eq

abbrev pub then_cmp : Ordering → Ordering → Ordering
then_cmp Ordering.lt next = Ordering.lt
then_cmp Ordering.gt next = Ordering.gt
then_cmp Ordering.eq next = next

unfoldable pub nat_cmp_inbound : NatTuple → NatTuple → Ordering
nat_cmp_inbound a b = then_cmp (cmp_uint a.nat_port b.nat_port) (cmp_uint a.proto b.proto)

unfoldable pub nat_cmp_outbound : NatTuple → NatTuple → Ordering
nat_cmp_outbound a b =
    then_cmp (cmp_uint a.src_addr b.src_addr)
      (then_cmp (cmp_uint a.src_port b.src_port) (cmp_uint a.proto b.proto))

abbrev pub addr_or_zero : Option ℕ → ℕ
addr_or_zero none = 0
addr_or_zero (some a) = a

-- `test` of pico_ipv4_nat_find_tuple, which is on the stack.
abbrev pub test_tuple : ℕ → Option ℕ → ℕ → ℕ → NatTuple
test_tuple nat_port src_addr src_port proto = record {
  ptr = 0;
  proto = proto;
  src_port = src_port;
  dst_port = 0;
  nat_port = nat_port;
  src_addr = addr_or_zero src_addr;
  dst_addr = 0;
  nat_addr = 0;
}

unfoldable pub find_tuple : Nat → ℕ → Option ℕ → ℕ → ℕ → Option NatTuple
find_tuple st nat_port src_addr src_port proto =
    let test = test_tuple nat_port src_addr src_port proto in
    if nat_port == 0
    then find_key nat_cmp_outbound test st.outbound
    else find_key nat_cmp_inbound test st.inbound

abbrev pub is_some : Option NatTuple → Bool
is_some none = false
is_some (some t) = true

-- pico_ipv4_nat_find
unfoldable pub nat_find : Nat → ℕ → Option ℕ → ℕ → ℕ → Bool
nat_find st nat_port src_addr src_port proto =
    is_some (find_tuple st nat_port src_addr src_port proto)

-- What the memory gives to pico_ipv4_nat_add: a tuple, and the nodes of the two trees.
pub record Memory : Type 0 where
  pub tuple : Option ℕ
  pub outbound_node : Bool
  pub inbound_node : Bool

abbrev pub new_session : Session
new_session = record {
  conn_active = 1;
  portforward = false;
  rst = false;
  syn = false;
  fin_in = false;
  fin_out = false;
}

abbrev pub write : (ℕ → Session) → ℕ → Session → ℕ → Session
write sessions p s q = if q == p then s else sessions q

abbrev pub set_session : Nat → NatTuple → Session → Nat
set_session st t s = record st { sessions = write st.sessions t.ptr s }

-- pico_tree_delete on each of the trees.
abbrev pub set_outbound : Nat → Tree NatTuple × Color × Option NatTuple → Nat
set_outbound st (t, lc, _) = record st { outbound = t; leaf_color = lc }

abbrev pub set_inbound : Nat → Tree NatTuple × Color × Option NatTuple → Nat
set_inbound st (t, lc, _) = record st { inbound = t; leaf_color = lc }

unfoldable pub delete_outbound : Nat → NatTuple → Nat
delete_outbound st t = set_outbound st (delete nat_cmp_outbound st.leaf_color t st.outbound)

unfoldable pub delete_inbound : Nat → NatTuple → Nat
delete_inbound st t = set_inbound st (delete nat_cmp_inbound st.leaf_color t st.inbound)

-- The second insertion of pico_ipv4_nat_add, and what follows it.
abbrev pub inbound_told :
    Nat → NatTuple → Tree NatTuple × Color × Inserted NatTuple → Nat × Option NatTuple
inbound_told st t (inb, lc, done) = (record st { inbound = inb; leaf_color = lc }, some t)
inbound_told st t (inb, lc, exists x) =
    (delete_outbound (record st { inbound = inb; leaf_color = lc }) t, none)
inbound_told st t (inb, lc, no_memory) =
    (delete_outbound (record st { inbound = inb; leaf_color = lc }) t, none)

unfoldable pub add_inbound : Bool → Nat → NatTuple → Nat × Option NatTuple
add_inbound alloc st t = inbound_told st t (insert nat_cmp_inbound alloc st.leaf_color t st.inbound)

abbrev pub outbound_told :
    Bool → Nat → NatTuple → Tree NatTuple × Color × Inserted NatTuple → Nat × Option NatTuple
outbound_told alloc st t (out, lc, done) =
    add_inbound alloc (record st { outbound = out; leaf_color = lc }) t
outbound_told alloc st t (out, lc, exists x) = (record st { outbound = out; leaf_color = lc }, none)
outbound_told alloc st t (out, lc, no_memory) =
    (record st { outbound = out; leaf_color = lc }, none)

-- The insertion of an initialised tuple.
unfoldable pub add_tuple : Bool → Bool → Nat → NatTuple → Nat × Option NatTuple
add_tuple out_node in_node st t =
    outbound_told in_node st t (insert nat_cmp_outbound out_node st.leaf_color t st.outbound)

-- pico_ipv4_nat_add: the fields of the tuple but for its pointer are those of the argument.
unfoldable pub nat_add : Memory → Nat → NatTuple → Nat × Option NatTuple
nat_add m st x = elim m.tuple [
  | none ↦ (st, none)
  | some p ↦
      let t = record x { ptr = p } in
      add_tuple m.outbound_node m.inbound_node (set_session st t new_session) t
]

abbrev pub delete_tuple : Nat → Option NatTuple → Nat
delete_tuple st none = st
delete_tuple st (some t) = delete_inbound (delete_outbound st t) t

-- pico_ipv4_nat_del
unfoldable pub nat_del : Nat → ℕ → ℕ → Nat
nat_del st nat_port proto = delete_tuple st (find_tuple st nat_port none 0 proto)

-- pico_ipv4_port_forward: 0, or -1 with PICO_ERR_EAGAIN or PICO_ERR_EINVAL.
pub data Forwarded : Type 0 where
  forwarded again invalid : Forwarded

abbrev pub mark_forward : Nat × Option NatTuple → Nat × Forwarded
mark_forward (st, none) = (st, again)
mark_forward (st, some t) =
    (set_session st t (record (st.sessions t.ptr) { portforward = true }), forwarded)

-- `x` has the addresses, the ports and the protocol of the call.
unfoldable pub port_forward : Memory → Nat → NatTuple → ℕ → Nat × Forwarded
port_forward m st x flag =
    if flag == 1
    then mark_forward (nat_add m st (record x { dst_addr = 0; dst_port = 0 }))
    else if flag == 0
    then (nat_del st x.nat_port x.proto, forwarded)
    else (st, invalid)

-- pico_ipv4_nat_enable, none for NULL: `timer` is what pico_timer_add answers.
unfoldable pub nat_enable : Bool → Nat → Option ℕ → Nat × Bool
nat_enable timer st none = (st, false)
nat_enable false st (some link) = (st, false)
nat_enable true st (some link) = (record st { nat_link = some link; timers = st.timers + 1 }, true)

-- pico_ipv4_nat_disable
unfoldable pub nat_disable : Nat → Nat
nat_disable st = record st { nat_link = none }

abbrev pub start : Nat
start = record {
  nat_link = none;
  outbound = leaf;
  inbound = leaf;
  leaf_color = black;
  sessions = λ p. new_session;
  timers = 0;
}
