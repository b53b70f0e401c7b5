-- ===== src/Nat/Tests.antt =====
-- Runs of the translation of modules/pico_nat.c, and instances of the theorems.
use picotcp.Base.{ℕ, ◌≡◌, inl, inr, refl, sym, true, false, none, some, [], arith, short_be}
use picotcp.Tree.{black, leaf, node, keys, find_key, insert}
use picotcp.Nat.{
  nat_cmp_inbound, nat_cmp_outbound, delete_inbound, delete_outbound, NatTuple, Nat, Memory,
  find_tuple, nat_find, add_tuple, add_inbound, nat_add, nat_del, start, nat_enable,
}
use picotcp.Nat.Frames.{
  Datagram, Checksums, Ports, nat_outbound, nat_inbound, translated, fault, is_port_free, find_port,
  is_enabled, generate_tuple, sniff_session, rewrite_out,
}
use picotcp.Tree.Walk.{foreach_reverse}
use picotcp.Tree.Delete.{delete}
use picotcp.Nat.Cleanup.{cleanup_all, table_cleanup}
use picotcp.Nat.Table.{IsValid}
use picotcp.Nat.Translate.{outbound_then_inbound, outbound_faults}
use picotcp.Nat.Reachable.{
  Reachable, started, stepped, enable_step, outbound_step, Reachable-IsValid,
}
use picotcp.Nat.Idle.{idle_udp_gone}
use picotcp.Tree.Members.{In}

-- Checksums that are easy to follow, a constant random number, and no sockets.
abbrev sums : Checksums
sums = record { tcp_checksum = λ f. f.sport; udp_checksum = λ f. f.dport; ip_checksum = λ f. f.src }

abbrev ports : Ports
ports = record { rand = λ n. n; sockport = λ proto port. false }

abbrev plenty : Memory
plenty = record { tuple = some 1; outbound_node = true; inbound_node = true }

abbrev out_of_memory : Memory
out_of_memory = record plenty { tuple = none }

-- A query of UDP, and the answer to the port 0x1f04, which is 1055 in network byte order.
abbrev query : Datagram
query = record {
  src = 7;
  dst = 9;
  proto = 17;
  sport = 500;
  dport = 53;
  tcp_flags = 0;
  transport_crc = 0;
  net_crc = 0;
}

abbrev answer : Datagram
answer = record query { src = 9; dst = 100; sport = 53; dport = 0x1f04 }

abbrev enabled : Nat
enabled = record start { nat_link = some 100; timers = 1 }

abbrev query_tuple : NatTuple
query_tuple = record {
  ptr = 1;
  proto = 17;
  src_port = 500;
  dst_port = 53;
  nat_port = 0x1f04;
  src_addr = 7;
  dst_addr = 9;
  nat_addr = 100;
}

abbrev one_session : Nat
one_session = record enabled {
  outbound = node black query_tuple leaf leaf;
  inbound = node black query_tuple leaf leaf;
}

enabled-Reachable : Reachable enabled
unfolding nat_enable
enabled-Reachable = stepped start enabled started (enable_step true start (some 100))

enabled-IsValid : IsValid enabled
enabled-IsValid = Reachable-IsValid enabled enabled-Reachable

one_session-IsValid : IsValid one_session
one_session-IsValid = record {
  out_sorted = (tt, tt);
  in_sorted = (tt, tt);
  same = λ z. (λ i. i, λ i. i);
  ports = λ z i. elim i [ inl e ↦ ground arith | inr h ↦ absurd h ];
}

query_leaves :
    let (st, f, told) = nat_outbound sums plenty ports enabled query 100 in
    (keys st.inbound ≡ keys one_session.inbound)
    × (keys st.outbound ≡ keys one_session.outbound)
    × (f.sport ≡ 0x1f04)
    × (f.src ≡ 100)
    × (told ≡ translated)
unfolding nat_outbound is_enabled find_tuple find_key generate_tuple find_port is_port_free nat_find
    short_be nat_add add_tuple insert add_inbound sniff_session rewrite_out
query_leaves = (refl, refl, refl, refl, refl)

outbound_then_inbound_example :
    let (st, f, told) = nat_outbound sums plenty ports enabled query 100 in
    let (st', g, answered) = nat_inbound sums st answer 100 in
    (answered ≡ translated) × (g.dst ≡ 7) × (g.dport ≡ 500)
unfolding is_enabled
outbound_then_inbound_example =
    outbound_then_inbound sums plenty ports enabled query answer 100 enabled-IsValid refl
      query_leaves.4 refl (sym query_leaves.2)

Reachable-IsValid_example : IsValid (nat_outbound sums plenty ports enabled query 100).0
Reachable-IsValid_example = Reachable-IsValid (nat_outbound sums plenty ports enabled query 100).0 (
    stepped enabled (nat_outbound sums plenty ports enabled query 100).0 enabled-Reachable
      (outbound_step sums plenty ports enabled query 100))

outbound_faults_example : (nat_outbound sums out_of_memory ports enabled query 100).2 ≡ fault
unfolding is_enabled find_tuple find_key
outbound_faults_example =
    outbound_faults sums out_of_memory ports enabled query 100 refl refl refl (inl refl)

abbrev query_port : ℕ
query_port = 0x1f04

idle_udp_gone_example :
    In query_tuple (keys (table_cleanup true one_session).inbound)
    × ¬ In query_tuple (keys (table_cleanup true (table_cleanup true one_session)).inbound)
idle_udp_gone_example =
    idle_udp_gone one_session query_tuple true true one_session-IsValid (inl refl)
      (λ z i e. elim i [ inl p ↦ p | inr h ↦ absurd h ]) refl refl refl

-- The second run of the timer deletes a session that has not been used since the first one.
cleanup_twice : keys (table_cleanup true (table_cleanup true one_session)).outbound ≡ []
unfolding table_cleanup cleanup_all foreach_reverse nat_del find_tuple find_key nat_cmp_inbound
    nat_cmp_outbound delete_inbound delete_outbound delete
cleanup_twice = refl
