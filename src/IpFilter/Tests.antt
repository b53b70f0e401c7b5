-- ===== src/IpFilter/Tests.antt =====
-- Runs of the packet filter of modules/pico_ipfilter.c, and instances of the theorems.
use picotcp.Base.{ℕ, ◌≡◌, refl, true, false, none, some, List, [], ◌∷◌, ◌++◌, arith, pos, negsuc}
use picotcp.Tree.{red, black, leaf, node, keys, find_key, insert}
use picotcp.Tree.Search.{All}
use picotcp.IpFilter.{
  FilterNode, IpFilter, AddArgs, Packet, discard, einval, start, filter_compare, match_rule,
  new_filter, filter_add, ipfilter, packet_node, function_ptr,
}
use picotcp.IpFilter.Match.{Matches, HasIdentifier, ipfilter_sound}
use picotcp.IpFilter.Table.{IsValid}

-- Drop TCP from the address 10.0.0.1, from any port, on any device.
abbrev tcp_host : AddArgs
tcp_host = record {
  dev = 0;
  proto = 6;
  out_addr = none;
  out_addr_netmask = none;
  in_addr = some 0x0100_000a;
  in_addr_netmask = some 0xffff_ffff;
  out_port = 0;
  in_port = 0;
  prio = pos 0;
  tos = 0;
  action_code = 2;
}

-- Drop whatever comes from the port 80.
abbrev any_port_80 : AddArgs
any_port_80 = record tcp_host { proto = 0; in_addr = none; in_addr_netmask = none; in_port = 80 }

-- Reject all on the device 7.
abbrev device_7 : AddArgs
device_7 = record any_port_80 { dev = 7; in_port = 0; action_code = 1 }

-- A TCP packet from the given address, from the port 80 to the port 1000, on the device 3.
abbrev tcp_from : ℕ → Packet
tcp_from a = record {
  dev = 3;
  dst = 0x0900_000a;
  src = a;
  proto = 6;
  dport = 0xe803;
  sport = 0x5000;
  icmp_type = 0;
  icmp_code = 0;
  prio = pos 0;
  tos = 0;
}

abbrev node_of : AddArgs → ℕ → FilterNode
node_of = new_filter

abbrev both : IpFilter
both = record {
  filter_tree = node black (node_of tcp_host 1) (node red (node_of any_port_80 2) leaf leaf) leaf;
  leaf_color = black;
  next_id = 3;
}

add_both :
    (filter_add true true (filter_add true true start tcp_host).0 any_port_80) ≡ (both, 2, none)
unfolding filter_add insert filter_compare
add_both = refl

drops_host : ipfilter both (tcp_from 0x0100_000a) ≡ (true, discard ∷ [])
unfolding ipfilter find_key filter_compare match_rule
drops_host = refl

-- The second filter matches this packet too, and is not found.
misses_port_80 : ipfilter both (tcp_from 0x0200_000a) ≡ (false, [])
unfolding ipfilter find_key filter_compare match_rule
misses_port_80 = refl

bad_priority :
    filter_add true true start (record tcp_host { prio = negsuc 10 }) ≡ (start, 0, some einval)
unfolding filter_add
bad_priority = refl

both_identified : All HasIdentifier (keys both.filter_tree)
both_identified = ((λ e. omega (arith, e)), ((λ e. omega (arith, e)), tt))

both-IsValid : IsValid both
both-IsValid = record {
  given = (((λ e. omega (arith, e)), omega arith), (((λ e. omega (arith, e)), omega arith), tt));
  counting = λ e. omega (arith, e);
  in_range = omega arith;
}

ipfilter_sound_example :
    (rule : FilterNode) × (xs ys : List FilterNode) × (keys both.filter_tree ≡ xs ++ rule ∷ ys)
    × Matches rule (packet_node (tcp_from 0x0100_000a))
    × (discard ∷ [] ≡ function_ptr rule.action)
ipfilter_sound_example =
    ipfilter_sound both (tcp_from 0x0100_000a) (discard ∷ []) both_identified drops_host

-- From another port no filter matches.
abbrev other_port : Packet
other_port = record (tcp_from 0x0200_000a) { sport = 0x5100 }

abbrev udp_host : AddArgs
udp_host = record tcp_host { proto = 17 }
