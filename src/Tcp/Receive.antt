-- ===== src/Tcp/Receive.antt =====
-- Data that comes in: tcp_data_in of modules/pico_tcp.c, from where the payload is known. Before
-- that, tcp_parse_options reads the options of the segment, which is not modelled.
use picotcp.Base.{
  ℕ, zero, suc, ◌+◌, Bool, true, false, not, ◌&&◌, Option, none, some, List, [], ◌∷◌, if◌then◌else◌,
  ltb, ◌==◌, u32, ℤ, pos, negsuc, length, ◌/◌, ◌%◌,
}
use picotcp.Seq.{seq_compare}
use picotcp.Tcp.{
  Segment, input, TcpQueue, end_of, is_zero, not_later, peek_segment, first_segment, next_segment,
  enqueue_segment,
}
use picotcp.Tcp.Input.{Receiver, or_bit, send_ack}

-- A segment that has arrived: SEQN(f), its payload and the byte of flags.
pub record InFrame : Type 0 where
  pub seq : ℕ
  pub payload : List ℕ
  pub flags : ℕ

-- segment_from_frame: NULL without payload, or without memory for one of its two allocations.
abbrev pub segment_from_frame : Bool → InFrame → Option Segment
segment_from_frame alloc f =
    if length f.payload == 0
    then none
    else if alloc
    then some (record { seq = f.seq; payload = f.payload })
    else none

-- The loop that moves rcv_nxt over the segments that follow, in at most so many rounds.
unfoldable pub scroll : ℕ → TcpQueue Segment → ℕ → Option Segment → ℕ
scroll zero q n o = n
scroll (suc fuel) q n none = n
scroll (suc fuel) q n (some s) =
    let n' = u32 (n + length s.payload) in scroll fuel q n' (peek_segment input q n')

-- After pico_enqueue_segment in tcp_data_in_expected; PICO_SOCK_EV_RD is 1.
abbrev pub expected_enqueued : Receiver → InFrame → TcpQueue Segment × ℤ → Receiver × ℤ
expected_enqueued t f (q, r) =
    let n = u32 (f.seq + length f.payload) in
    if not_later r then (record t { tcpq_in = q }, negsuc 0) else (
      record t {
        tcpq_in = q;
        rcv_nxt = scroll (suc q.frames) q n (peek_segment input q n);
        ev_pending = or_bit 1 t.ev_pending;
      },
      pos 0,
    )

abbrev pub expected_segment : Bool → Receiver → InFrame → Option Segment → Receiver × ℤ
expected_segment node_alloc t f none = (t, negsuc 0)
expected_segment node_alloc t f (some s) =
    expected_enqueued t f (enqueue_segment input node_alloc t.tcpq_in s)

-- tcp_data_in_expected: `alloc` answers for the segment, `node_alloc` for the node of the tree.
unfoldable pub data_in_expected : Bool → Bool → Receiver → InFrame → Receiver × ℤ
data_in_expected alloc node_alloc t f =
    if is_zero (seq_compare f.seq t.rcv_nxt)
    then expected_segment node_alloc t f (segment_from_frame alloc f)
    else (t, pos 0)

-- tcp_sack_prepare: the block from `left` to `right` that is being collected, how many there are,
-- and those that are complete, the last one first (in host byte order).
pub record Scan : Type 0 where
  pub left : ℕ
  pub right : ℕ
  pub n : ℕ
  pub blocks : List (ℕ × ℕ)

abbrev pub close_block : Scan → Scan
close_block c = record { left = 0; right = 0; n = c.n + 1; blocks = (c.left, c.right) ∷ c.blocks }

-- One round of the loop at a segment; the segment after it is the next one in all of them but
-- when there is no memory for a block.
abbrev pub sack_segment : Bool → ℕ → Scan → Segment → Option Scan
sack_segment alloc rcv_nxt c s =
    if ltb s.seq rcv_nxt
    then some c
    else if c.left == 0
    then some (record c { left = s.seq; right = end_of input s })
    else if s.seq == c.right
    then some (record c { right = u32 (c.right + length s.payload) })
    else if alloc
    then some (close_block c)
    else none

unfoldable pub sack_loop : Bool → ℕ → TcpQueue Segment → ℕ → Scan → Option Segment → List (ℕ × ℕ)
sack_loop alloc zero q rcv_nxt c o = c.blocks
sack_loop alloc (suc fuel) q rcv_nxt c none =
    if ltb c.n 3 && (not (c.left == 0) && alloc) then (close_block c).blocks else c.blocks
sack_loop alloc (suc fuel) q rcv_nxt c (some s) = elim (ltb c.n 3) [
  | false ↦ c.blocks
  | true ↦ elim (sack_segment alloc rcv_nxt c s) [
    | none ↦ c.blocks
    | some c' ↦ sack_loop alloc fuel q rcv_nxt c' (next_segment input q s)
  ]
]

abbrev pub no_block : Scan
no_block = record { left = 0; right = 0; n = 0; blocks = [] }

unfoldable pub sack_prepare : Bool → Receiver → Receiver
sack_prepare alloc t = elim t.sacks [
  | [] ↦ record t {
    sacks =
        sack_loop alloc (suc t.tcpq_in.frames) t.tcpq_in t.rcv_nxt no_block
          (first_segment input t.tcpq_in);
  }
  | b ∷ bs ↦ t
]

abbrev pub high_enqueued : Bool → Receiver → TcpQueue Segment × ℤ → Receiver × ℤ
high_enqueued alloc t (q, r) =
    if not_later r
    then (record t { tcpq_in = q }, negsuc 0)
    else (sack_prepare alloc (record t { tcpq_in = q }), pos 0)

abbrev pub high_segment : Bool → Bool → Receiver → Option Segment → Receiver × ℤ
high_segment alloc node_alloc t none = (t, negsuc 0)
high_segment alloc node_alloc t (some s) =
    high_enqueued alloc t (enqueue_segment input node_alloc t.tcpq_in s)

-- tcp_data_in_high_segment
unfoldable pub data_in_high_segment : Bool → Bool → Receiver → InFrame → Receiver × ℤ
data_in_high_segment alloc node_alloc t f =
    if t.sack_ok then high_segment alloc node_alloc t (segment_from_frame alloc f) else (t, pos 0)

-- tcp_data_in_send_ack: no ACK in CLOSE_WAIT, SYN_SENT and SYN_RECV, nor for a segment with RST.
abbrev pub data_in_send_ack : Bool → Receiver → InFrame → Receiver
data_in_send_ack net_alloc t f =
    let s = t.state / 256 % 256 in
    if not (s == 6) && (not (s == 3) && (not (s == 4) && f.flags / 4 % 2 == 0))
    then send_ack net_alloc 2 t
    else t

-- The rest of tcp_data_in.
unfoldable pub data_in : Bool → Bool → Bool → Receiver → InFrame → Receiver × ℤ
data_in alloc node_alloc net_alloc t f =
    let (t', r) =
      if not_later (seq_compare f.seq t.rcv_nxt)
      then data_in_expected alloc node_alloc t f
      else data_in_high_segment alloc node_alloc t f in
    (data_in_send_ack net_alloc t' f, r)
