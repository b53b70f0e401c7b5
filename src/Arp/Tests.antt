-- ===== src/Arp/Tests.antt =====
-- Runs of the address resolution of modules/pico_arp.c, and instances of the theorems.
use picotcp.Base.{
  ◌==◌, if◌then◌else◌, ◌+◌, ◌≤◌, ◌≡◌, refl, true, false, none, some, [], ◌∷◌, pos, negsuc,
}
use picotcp.Tree.{black, leaf, node, find_key}
use picotcp.Arp.{
  reachable, stale, Arp, Datagram, ArpFrame, Stack, Resolver, arp_lookup, arp_receive, incoming_hdr,
  arp_expire,
}
use picotcp.Arp.Receive.{unchecked_update, sender_learned}
use picotcp.Arp.Limit.{replies, receive_all, replies_limited}

abbrev host : Stack
host = record {
  time = 700000;
  allocs = true;
  node_alloc = true;
  timer_starts = true;
  link_find = λ ip. if ip == 77 then 1 else 0;
  link_mac = λ ip. none;
  link_address = λ l. 77;
  sends = λ f. true;
  is_local = λ f. false;
  routing = record { routes = leaf; leaf_color = black; bcast_link = none };
}

abbrev neighbour : Arp
neighbour = record { eth = 4; ipv4 = 5; arp_status = reachable; timestamp = 0; dev = 1 }

abbrev table : Resolver
table = record {
  arp_tree = node black neighbour leaf leaf;
  leaf_color = black;
  max_arp_reqs = 1;
  frames_queued = none ∷ none ∷ none ∷ none ∷ none ∷ [];
  conflict_ipv4 = none;
}

abbrev old_table : Resolver
old_table = record table {
  arp_tree = node black (record neighbour { arp_status = stale }) leaf leaf;
}

-- A reply to another host from a multicast MAC address, and a request from 6 to this host.
abbrev forged : ArpFrame
forged = record { htype = 256; ptype = 8; opcode = 512; s_mac = 9; src = 5; dst = 99; dev = 1 }

abbrev request : ArpFrame
request = record { htype = 256; ptype = 8; opcode = 256; s_mac = 8; src = 6; dst = 77; dev = 1 }

abbrev moved : ArpFrame
moved = record request { src = 5 }

-- After its time the entry is stale, and found no more.
goes_stale : arp_lookup (arp_expire host 5 table).0 5 ≡ none
unfolding arp_lookup arp_expire find_key
goes_stale = refl

unchecked_update_example :
    (arp_lookup (arp_receive host forged table).0 5 ≡ some 9)
    × (incoming_hdr forged ≡ false → (arp_receive host forged table).2 ≡ negsuc 0)
unfolding find_key
unchecked_update_example = unchecked_update host forged table neighbour (tt, tt) refl (λ e. cc)

sender_learned_example :
    (arp_lookup (arp_receive host request table).0 6 ≡ some 8)
    × ((arp_receive host request table).2 ≡ pos 0)
unfolding find_key
sender_learned_example =
    sender_learned host request table (record table { max_arp_reqs = 0 }) (tt, tt) refl refl refl
      refl refl refl

replies_limited_example :
    let (st', es) = receive_all host table (request ∷ request ∷ []) in
    replies es + st'.max_arp_reqs ≤ 1
replies_limited_example = replies_limited host (request ∷ request ∷ []) table

abbrev waiting : Datagram
waiting = record { ref = 1; dst = 6; dev = 1; failure_count = 1 }
