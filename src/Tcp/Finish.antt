-- ===== src/Tcp/Finish.antt =====
-- What the announcement of the window leaves alone: tcp_set_space, tcp_send_ack and tcp_read_finish
-- of modules/pico_tcp.c do not touch the data that has come in.
use picotcp.Base.{ℕ, zero, suc, ◌≡◌, refl, ◌∙◌, Bool, true, false, arith, if◌then◌else◌}
use picotcp.Tcp.Input.{Receiver, check_winupdate, free_space, send_ack, set_space, read_finish}

-- The queue and the two numbers that say how far the stream has come in and been handed out.
abbrev pub Same : Receiver → Receiver → Type 0
Same t t' =
    (t'.tcpq_in ≡ t.tcpq_in) × (t'.rcv_processed ≡ t.rcv_processed) × (t'.rcv_nxt ≡ t.rcv_nxt)

pub Same-trans : (a b c : Receiver) → Same a b → Same b c → Same a c
Same-trans a b c (p, q, r) (x, y, z) = (x ∙ p, y ∙ q, z ∙ r)

check_winupdate-Same : (t : Receiver) (s : ℕ × ℕ) → Same t (check_winupdate t s).0
unfolding check_winupdate
check_winupdate-Same t (space, shift) = ground arith

pub send_ack-Same :
    (net_alloc : Bool) (fuel : ℕ) (t : Receiver) → Same t (send_ack net_alloc fuel t)
unfolding send_ack
send_ack-Same net_alloc zero t = (refl, refl, refl)
send_ack-Same false (suc fuel) t = (refl, refl, refl)
send_ack-Same true (suc fuel) t = ground (
  arith,
  check_winupdate-Same t (free_space t.tcpq_in),
  send_ack-Same true fuel (check_winupdate t (free_space t.tcpq_in)).0,
)

pub if-Same : (t a b : Receiver) (c : Bool) → Same t a → Same t b → Same t (if c then a else b)
if-Same t a b true h k = h
if-Same t a b false h k = k

set_space-Same : (net_alloc : Bool) (t : Receiver) → Same t (set_space net_alloc t)
unfolding set_space
set_space-Same net_alloc t =
    let (t', due) = check_winupdate t (free_space t.tcpq_in) in
    let k = check_winupdate-Same t (free_space t.tcpq_in) in
    if-Same t (send_ack net_alloc 2 t') t' due
      (Same-trans t t' (send_ack net_alloc 2 t') k (send_ack-Same net_alloc 2 t')) k

pub read_finish-Same : (net_alloc : Bool) (t : Receiver) → Same t (read_finish net_alloc t)
unfolding read_finish
read_finish-Same net_alloc t = ground (arith, set_space-Same net_alloc t)
