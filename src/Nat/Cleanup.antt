-- ===== src/Nat/Cleanup.antt =====
-- The timer pico_ipv4_nat_table_cleanup of modules/pico_nat.c, which counts how long each session
-- has lasted and deletes the tuples of old ones. The loop takes the tuples from the last to the
-- first: each round deletes at most its own tuple, so that they are those of the table at the
-- start.
use picotcp.Base.{
  ◌+◌, ◌%◌, Bool, true, false, ◌&&◌, ◌||◌, List, [], ◌∷◌, if◌then◌else◌, ltb, ◌==◌, length,
}
use picotcp.Tree.{keys}
use picotcp.Tree.Walk.{foreach_reverse}
use picotcp.Nat.{NatTuple, Session, Nat, nat_del, set_session}

-- `t->conn_active++`, in eleven bits.
abbrev pub tick : Session → Session
tick s = record s { conn_active = (s.conn_active + 1) % 2048 }

abbrev pub is_over : Session → Bool
is_over s = s.rst || s.fin_in && s.fin_out

abbrev pub cleanup_tcp : Nat → NatTuple → Nat
cleanup_tcp st t =
    let s = st.sessions t.ptr in
    if s.portforward
    then st
    else if s.conn_active == 0 || ltb 360 s.conn_active
    then nat_del st t.nat_port t.proto
    else if is_over s
    then set_session st t (record s { conn_active = 0 })
    else set_session st t (tick s)

-- What is done for ICMP and the protocols without a case, and for UDP if nothing is forwarded.
abbrev pub cleanup_idle : Nat → NatTuple → Nat
cleanup_idle st t =
    let s = st.sessions t.ptr in
    if ltb 1 s.conn_active then nat_del st t.nat_port t.proto else set_session st t (tick s)

-- One round of the loop.
unfoldable pub cleanup_tuple : Nat → NatTuple → Nat
cleanup_tuple st t =
    if t.proto == 6
    then cleanup_tcp st t
    else if t.proto == 17
    then if (st.sessions t.ptr).portforward then st else cleanup_idle st t
    else cleanup_idle st t

unfoldable pub cleanup_all : Nat → List NatTuple → Nat
unfolding cleanup_tuple
cleanup_all st [] = st
cleanup_all st (t ∷ ts) = cleanup_all (cleanup_tuple st t) ts

-- `timer` is whether pico_timer_add starts the next round.
abbrev pub restart : Bool → Nat → Nat
restart true st = record st { timers = st.timers + 1 }
restart false st = st

-- pico_ipv4_nat_table_cleanup
unfoldable pub table_cleanup : Bool → Nat → Nat
table_cleanup timer st =
    restart timer (cleanup_all st (foreach_reverse (length (keys st.outbound)) st.outbound))
