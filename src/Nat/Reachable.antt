-- ===== src/Nat/Reachable.antt =====
-- The table of modules/pico_nat.c under any sequence of its operations.
use picotcp.Base.{ℕ, ◌≢◌, refl, Bool, true, false, Option, none, some, List, [], ◌∷◌, arith, length}
use picotcp.Tree.{keys}
use picotcp.Tree.Walk.{foreach_reverse}
use picotcp.Nat.{NatTuple, Nat, Memory, port_forward, nat_enable, nat_disable, start}
use picotcp.Nat.Frames.{
  Datagram, Checksums, Ports, inwards, outwards, inbound_with, nat_inbound, outbound_with,
  found_or_generated, nat_outbound,
}
use picotcp.Nat.Cleanup.{cleanup_tuple, cleanup_all, table_cleanup}
use picotcp.Nat.Table.{IsValid}
use picotcp.Nat.Changes.{nat_del_outcome, port_forward-IsValid}
use picotcp.Nat.Outbound.{found_or_generated-Chosen}
use picotcp.Nat.Translate.{sniff_session_lem}
use picotcp.Nat.{find_tuple}

-- One call of the module. Ports are forwarded to ports other than 0.
pub data Step : Nat → Nat → Type 0 where
  inbound_step :
      (cs : Checksums) (st : Nat) (f : Datagram) (link_addr : ℕ)
      → Step st (nat_inbound cs st f link_addr).0
  outbound_step :
      (cs : Checksums) (m : Memory) (ports : Ports) (st : Nat) (f : Datagram) (link_addr : ℕ)
      → Step st (nat_outbound cs m ports st f link_addr).0
  forward_step :
      (m : Memory) (st : Nat) (x : NatTuple) (flag : ℕ)
      → x.nat_port ≢ 0
      → Step st (port_forward m st x flag).0
  cleanup_step : (timer : Bool) (st : Nat) → Step st (table_cleanup timer st)
  enable_step : (timer : Bool) (st : Nat) (link : Option ℕ) → Step st (nat_enable timer st link).0
  disable_step : (st : Nat) → Step st (nat_disable st)

pub data Reachable : Nat → Type 0 where
  started : Reachable start
  stepped : (st st' : Nat) → Reachable st → Step st st' → Reachable st'

inbound_with-IsValid :
    (cs : Checksums) (st : Nat) (f : Datagram) (o : Option NatTuple)
    → IsValid st
    → IsValid (inbound_with cs st f o).0
inbound_with-IsValid cs st f none v = v
inbound_with-IsValid cs st f (some t) v = sniff_session_lem IsValid st t f inwards (λ s. v)

nat_inbound-IsValid :
    (cs : Checksums) (st : Nat) (f : Datagram) (link_addr : ℕ)
    → IsValid st
    → IsValid (nat_inbound cs st f link_addr).0
unfolding nat_inbound
nat_inbound-IsValid cs st f link_addr v =
    ground (arith, inbound_with-IsValid cs st f (find_tuple st f.dport none 0 f.proto) v)

outbound_with-IsValid :
    (cs : Checksums) (f : Datagram) (r : Nat × Option NatTuple)
    → IsValid r.0
    → IsValid (outbound_with cs f r).0
outbound_with-IsValid cs f (st, none) v = v
outbound_with-IsValid cs f (st, some t) v = sniff_session_lem IsValid st t f outwards (λ s. v)

nat_outbound-IsValid :
    (cs : Checksums) (m : Memory) (ports : Ports) (st : Nat) (f : Datagram) (link_addr : ℕ)
    → IsValid st
    → IsValid (nat_outbound cs m ports st f link_addr).0
unfolding nat_outbound
nat_outbound-IsValid cs m ports st f link_addr v =
    let o = find_tuple st 0 (some f.src) f.sport f.proto in
    let r = found_or_generated cs m ports st f o in
    ground
      (arith, outbound_with-IsValid cs f r (found_or_generated-Chosen cs m ports st f o v refl).0)

pub cleanup_tuple-IsValid : (st : Nat) (t : NatTuple) → IsValid st → IsValid (cleanup_tuple st t)
unfolding cleanup_tuple
cleanup_tuple-IsValid st t v = ground (arith, (nat_del_outcome st t.nat_port t.proto v).0)

cleanup_all-IsValid : (st : Nat) (ts : List NatTuple) → IsValid st → IsValid (cleanup_all st ts)
unfolding cleanup_all
cleanup_all-IsValid st [] v = v
cleanup_all-IsValid st (t ∷ ts) v =
    cleanup_all-IsValid (cleanup_tuple st t) ts (cleanup_tuple-IsValid st t v)

table_cleanup-IsValid : (timer : Bool) (st : Nat) → IsValid st → IsValid (table_cleanup timer st)
unfolding table_cleanup
table_cleanup-IsValid true st v =
    cleanup_all-IsValid st (foreach_reverse (length (keys st.outbound)) st.outbound) v
table_cleanup-IsValid false st v =
    cleanup_all-IsValid st (foreach_reverse (length (keys st.outbound)) st.outbound) v

nat_enable-IsValid :
    (timer : Bool) (st : Nat) (link : Option ℕ) → IsValid st → IsValid (nat_enable timer st link).0
unfolding nat_enable
nat_enable-IsValid true st none v = v
nat_enable-IsValid true st (some l) v = v
nat_enable-IsValid false st none v = v
nat_enable-IsValid false st (some l) v = v

Step-IsValid : (st st' : Nat) → Step st st' → IsValid st → IsValid st'
unfolding nat_disable
Step-IsValid _ _ (inbound_step cs st f l) v = nat_inbound-IsValid cs st f l v
Step-IsValid _ _ (outbound_step cs m ports st f l) v = nat_outbound-IsValid cs m ports st f l v
Step-IsValid _ _ (forward_step m st x flag p) v = port_forward-IsValid m st x flag v p
Step-IsValid _ _ (cleanup_step timer st) v = table_cleanup-IsValid timer st v
Step-IsValid _ _ (enable_step timer st l) v = nat_enable-IsValid timer st l v
Step-IsValid _ _ (disable_step st) v = v

start-IsValid : IsValid start
start-IsValid = record {
  out_sorted = tt;
  in_sorted = tt;
  same = λ z. (λ i. i, λ i. i);
  ports = λ z i. absurd i;
}

-- After any sequence of calls of the module, in which ports are forwarded to ports other than 0,
-- both trees are in order and hold the same tuples, each with a NAT port that is not 0.
pub Reachable-IsValid : (st : Nat) → Reachable st → IsValid st
Reachable-IsValid _ started = start-IsValid
Reachable-IsValid _ (stepped st st' r s) = Step-IsValid st st' s (Reachable-IsValid st r)
