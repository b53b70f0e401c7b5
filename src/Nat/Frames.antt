-- ===== src/Nat/Frames.antt =====
-- The translation of frames in modules/pico_nat.c: new ports, the state of sessions, and
-- pico_ipv4_nat_inbound and pico_ipv4_nat_outbound. Of a frame there is what the translation reads
-- and writes, a `Datagram`. The checksums, the random numbers and the table of the sockets' ports
-- belong to other modules, and are arguments.
use picotcp.Base.{
  ℕ, zero, suc, ◌+◌, ◌-◌, ◌%◌, Bool, true, false, ◌&&◌, ◌||◌, not, Option, none, some,
  if◌then◌else◌, ◌==◌, bit_and, u16, short_be,
}
use picotcp.Nat.{
  NatTuple, Session, Nat, Memory, addr_or_zero, find_tuple, nat_find, nat_add, set_session,
}

-- What the translation reads and writes of a frame.
pub record Datagram : Type 0 where
  pub src : ℕ
  pub dst : ℕ
  pub proto : ℕ
  pub sport : ℕ
  pub dport : ℕ
  pub tcp_flags : ℕ
  pub transport_crc : ℕ
  pub net_crc : ℕ

-- pico_tcp_checksum_ipv4, pico_udp_checksum_ipv4 and pico_checksum of the IP header.
pub record Checksums : Type 0 where
  pub tcp_checksum : Datagram → ℕ
  pub udp_checksum : Datagram → ℕ
  pub ip_checksum : Datagram → ℕ

-- Where new ports come from: `pico_rand` in each of the rounds, and whether pico_get_sockport finds
-- a socket for a protocol at a port.
pub record Ports : Type 0 where
  pub rand : ℕ → ℕ
  pub sockport : ℕ → ℕ → Bool

abbrev pub is_tcp : ℕ → Bool
is_tcp proto = proto == 6

abbrev pub is_udp : ℕ → Bool
is_udp proto = proto == 17

-- pico_is_port_free(proto, port, NULL, &pico_proto_ipv4)
unfoldable pub is_port_free : Ports → Nat → ℕ → ℕ → Bool
is_port_free ports st proto port =
    if nat_find st port none 0 proto then false else not (ports.sockport proto port)

-- `nport` of one round.
abbrev pub random_port : ℕ → ℕ
random_port rand = short_be (u16 (rand % 65536 % (65535 - 1024) + 1024))

-- The loop of pico_ipv4_nat_generate_tuple, with so many rounds left.
unfoldable pub find_port : Ports → Nat → ℕ → ℕ → Option ℕ
find_port ports st proto zero = none
find_port ports st proto (suc retry) =
    let rest = find_port ports st proto retry in
    let nport = random_port (ports.rand retry) in
    if is_port_free ports st proto nport then some nport else rest

abbrev pub link_address : Nat → ℕ
link_address st = addr_or_zero st.nat_link

-- The arguments that pico_ipv4_nat_generate_tuple passes to pico_ipv4_nat_add.
abbrev pub tuple_for : Nat → Datagram → ℕ → NatTuple
tuple_for st f nport = record {
  ptr = 0;
  proto = f.proto;
  src_port = f.sport;
  dst_port = f.dport;
  nat_port = nport;
  src_addr = f.src;
  dst_addr = f.dst;
  nat_addr = link_address st;
}

-- What follows the loop; the transport header is found for TCP and UDP only.
abbrev pub generate_at : Memory → Nat → Datagram → Option ℕ → Nat × Option NatTuple
generate_at m st f none = (st, none)
generate_at m st f (some nport) =
    if is_tcp f.proto || is_udp f.proto then nat_add m st (tuple_for st f nport) else (st, none)

-- pico_ipv4_nat_generate_tuple
unfoldable pub generate_tuple : Memory → Ports → Nat → Datagram → Nat × Option NatTuple
generate_tuple m ports st f = generate_at m st f (find_port ports st f.proto 32)

pub data Direction : Type 0 where
  inwards outwards : Direction

abbrev pub is_inwards : Direction → Bool
is_inwards inwards = true
is_inwards outwards = false

abbrev pub has_flag : ℕ → ℕ → Bool
has_flag flags bit = not (bit_and flags bit == 0)

-- pico_ipv4_nat_set_tcp_flags
unfoldable pub set_tcp_flags : Session → ℕ → Direction → Session
set_tcp_flags s flags d = record s {
  syn = if has_flag flags 2 then true else s.syn;
  rst = if has_flag flags 4 then true else s.rst;
  fin_in = if has_flag flags 1 && is_inwards d then true else s.fin_in;
  fin_out = if has_flag flags 1 && not (is_inwards d) then true else s.fin_out;
}

-- pico_ipv4_nat_sniff_session, for TCP and UDP; for ICMP it does nothing.
unfoldable pub sniff_session : Nat → NatTuple → Datagram → Direction → Nat
sniff_session st t f d =
    let s = st.sessions t.ptr in
    if is_tcp f.proto
    then set_session st t (set_tcp_flags s f.tcp_flags d)
    else if is_udp f.proto
    then set_session st t (record s { conn_active = 1 })
    else st

-- pico_ipv4_nat_is_enabled
unfoldable pub is_enabled : Nat → ℕ → Bool
is_enabled st link_addr = elim st.nat_link [ none ↦ false | some a ↦ a == link_addr ]

-- -1, 0, or the dereference of a NULL tuple.
pub data Verdict : Type 0 where
  refused translated fault : Verdict

module _ (cs : Checksums) where
  -- The checksum of the transport header over the frame with the field at 0.
  abbrev pub transport_checksum : Datagram → Datagram
  transport_checksum f =
      let zeroed = record f { transport_crc = 0 } in
      record f {
        transport_crc =
            short_be (if is_tcp f.proto then cs.tcp_checksum zeroed else cs.udp_checksum zeroed);
      }

  abbrev pub net_checksum : Datagram → Datagram
  net_checksum f = record f { net_crc = short_be (cs.ip_checksum (record f { net_crc = 0 })) }

  unfoldable pub rewrite_in : NatTuple → Datagram → Datagram
  rewrite_in t f =
      net_checksum (transport_checksum (record f { dst = t.src_addr; dport = t.src_port }))

  unfoldable pub rewrite_out : NatTuple → Datagram → Datagram
  rewrite_out t f =
      net_checksum (transport_checksum (record f { src = t.nat_addr; sport = t.nat_port }))

  abbrev pub inbound_with : Nat → Datagram → Option NatTuple → Nat × Datagram × Verdict
  inbound_with st f none = (st, f, refused)
  inbound_with st f (some t) = (sniff_session st t f inwards, rewrite_in t f, translated)

  -- pico_ipv4_nat_inbound; ICMP only gets a new checksum.
  unfoldable pub nat_inbound : Nat → Datagram → ℕ → Nat × Datagram × Verdict
  nat_inbound st f link_addr =
      if not (is_enabled st link_addr)
      then (st, f, refused)
      else if is_tcp f.proto || is_udp f.proto
      then inbound_with st f (find_tuple st f.dport none 0 f.proto)
      else if f.proto == 1
      then (st, net_checksum f, translated)
      else (st, f, refused)

  abbrev pub outbound_with : Datagram → Nat × Option NatTuple → Nat × Datagram × Verdict
  outbound_with f (st, none) = (st, f, fault)
  outbound_with f (st, some t) = (sniff_session st t f outwards, rewrite_out t f, translated)

  abbrev pub found_or_generated :
      Memory → Ports → Nat → Datagram → Option NatTuple → Nat × Option NatTuple
  found_or_generated m ports st f none = generate_tuple m ports st f
  found_or_generated m ports st f (some t) = (st, some t)

  -- pico_ipv4_nat_outbound
  unfoldable pub nat_outbound : Memory → Ports → Nat → Datagram → ℕ → Nat × Datagram × Verdict
  nat_outbound m ports st f link_addr =
      if not (is_enabled st link_addr)
      then (st, f, refused)
      else if is_tcp f.proto || is_udp f.proto
      then outbound_with f
          (found_or_generated m ports st f (find_tuple st 0 (some f.src) f.sport f.proto))
      else if f.proto == 1
      then (st, net_checksum f, translated)
      else (st, f, refused)
