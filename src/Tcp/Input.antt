-- ===== src/Tcp/Input.antt =====
-- The receiving half of a TCP socket: pico_tcp_read and tcp_data_in of modules/pico_tcp.c.
--
-- `Receiver` has the fields of struct pico_socket_tcp and its struct pico_socket that this code
-- reads or writes. `acks` counts the ACKs that have been handed to the IP layer, `wakeups` are the
-- events that `wakeup` has been called with, the last one first; what a callback does to the socket
-- is not modelled.
use picotcp.Base.{
  ℕ, zero, suc, ◌+◌, ◌-◌, ◌/◌, ◌%◌, Bool, true, false, not, ◌||◌, Option, none, some, List, [], ◌∷◌,
  ◌++◌, if◌then◌else◌, ltb, leb, ◌==◌, u32, sub32, ℤ, pos, negsuc, to_int32, length, take, drop,
}
use picotcp.Seq.{seq_compare}
use picotcp.Tcp.{Segment, input, TcpQueue, first_segment, discard_segment, release_until}

pub record Receiver : Type 0 where
  pub tcpq_in : TcpQueue Segment
  pub rcv_nxt : ℕ
  pub rcv_ackd : ℕ
  pub rcv_processed : ℕ
  pub wnd : ℕ
  pub wnd_scale : ℕ
  pub local_zero_window : Bool
  pub remote_closed : Bool
  pub sack_ok : Bool
  pub sacks : List (ℕ × ℕ)
  pub ev_pending : ℕ
  pub state : ℕ
  pub has_wakeup : Bool
  pub wakeups : List ℕ
  pub acks : ℕ

-- `x |= bit` and `x &= ~bit`, for a power of two.
abbrev pub or_bit : ℕ → ℕ → ℕ
or_bit bit x = if x / bit % 2 == 1 then x else x + bit

abbrev pub clear_bit : ℕ → ℕ → ℕ
clear_bit bit x = if x / bit % 2 == 1 then x - bit else x

-- The TCP state is the high byte of the field `state`: `state &= 0x00FFU; state |= s`.
abbrev pub set_tcp_state : ℕ → ℕ → ℕ
set_tcp_state s state = state % 256 + s

abbrev pub wakeup : ℕ → Receiver → Receiver
wakeup ev t = if t.has_wakeup then record t { wakeups = ev ∷ t.wakeups } else t

-- The space that the queue has left, and the loop of tcp_set_space that halves it until it fits
-- into 16 bits; an int32_t is less than 2 ^ 16 after 15 rounds.
abbrev pub not_negative : ℤ → ℕ
not_negative (pos n) = n
not_negative (negsuc n) = 0

unfoldable pub halve : ℕ → ℕ → ℕ → ℕ × ℕ
halve zero space shift = (space, shift)
halve (suc fuel) space shift =
    let halved = halve fuel (space / 2) (shift + 1) in
    if ltb 65535 space then halved else (space, shift)

unfoldable pub free_space : TcpQueue Segment → ℕ × ℕ
unfolding halve
free_space q =
    if q.max_size == 0
    then halve 15 1073741824 0
    else halve 15 (not_negative (to_int32 (sub32 q.max_size q.size))) 0

-- tcp_set_space_check_winupdate: whether a window update is due is the second result.
unfoldable pub check_winupdate : Receiver → ℕ × ℕ → Receiver × Bool
check_winupdate t (space, shift) =
    let t' = record t { wnd = space; wnd_scale = shift } in
    if not (space == t.wnd) || (not (shift == t.wnd_scale) || ltb (space / 4) (space - t.wnd))
    then if space == 0
      then (record t' { local_zero_window = true }, false)
      else (record t' { local_zero_window = false }, t.local_zero_window)
    else (t, false)

-- tcp_send_ack, and tcp_set_space, which calls it for a window update; tcp_send_ack calls
-- tcp_set_space again. `net_alloc` is the answer of the IP layer's `alloc`; the blocks of `sacks`
-- leave with the ACK.
unfoldable pub send_ack : Bool → ℕ → Receiver → Receiver
unfolding free_space check_winupdate
send_ack net_alloc zero t = t
send_ack false (suc fuel) t = t
send_ack true (suc fuel) t =
    let (t', due) = check_winupdate t (free_space t.tcpq_in) in
    let updated = send_ack true fuel t' in
    let t'' = if due then updated else t' in
    record t'' {
      sacks = if t''.sack_ok then [] else t''.sacks;
      rcv_ackd = t''.rcv_nxt;
      acks = suc t''.acks;
    }

unfoldable pub set_space : Bool → Receiver → Receiver
unfolding send_ack
set_space net_alloc t =
    let (t', due) = check_winupdate t (free_space t.tcpq_in) in
    let updated = send_ack net_alloc 2 t' in if due then updated else t'

-- tcp_read_finish: PICO_SOCK_EV_RD is 1, PICO_SOCK_EV_CLOSE 8, CLOSE_WAIT 0x0600 and SHUT_REMOTE 2.
abbrev pub close_if_remote : Receiver → Receiver
close_if_remote t =
    if t.remote_closed
    then wakeup 8 (record t {
      ev_pending = or_bit 8 t.ev_pending;
      state = or_bit 2 (set_tcp_state 1536 t.state);
    })
    else t

abbrev pub clear_if_empty : Receiver → Receiver
clear_if_empty t =
    if t.tcpq_in.size == 0 then record t { ev_pending = clear_bit 1 t.ev_pending } else t

unfoldable pub read_finish : Bool → Receiver → Receiver
unfolding set_space
read_finish net_alloc t = close_if_remote (clear_if_empty (set_space net_alloc t))

-- tcp_read_in_frame_len, where the offset is not negative.
abbrev pub read_in_frame_len : ℕ → ℕ → ℕ → ℕ → ℕ
read_in_frame_len payload_len in_frame_off tot len =
    let n = if ltb 0 in_frame_off then sub32 payload_len in_frame_off else payload_len in
    if ltb len (u32 (n + tot)) then sub32 len tot else n

-- `memcpy` of so many bytes from an offset on: nothing can be told of bytes behind the buffer.
abbrev pub bytes_at : List ℕ → ℕ → ℕ → Option (List ℕ)
bytes_at payload i n = if leb (i + n) (length payload) then some (take n (drop i payload)) else none

-- How one round of the loop of pico_tcp_read ends: there is nothing to read, bytes have been read,
-- or the copy leaves the payload.
pub data ReadRound : Type 0 where
  ended : Receiver → ReadRound
  copied : Receiver → List ℕ → ReadRound
  overrun : ReadRound

-- tcp_read_check_segment_done
abbrev pub segment_done : TcpQueue Segment → Segment → ℕ → TcpQueue Segment
segment_done q s n = if (n == 0) || (n == length s.payload) then discard_segment input q s else q

abbrev pub copied_bytes : Receiver → Segment → ℕ → Option (List ℕ) → ReadRound
copied_bytes t s n none = overrun
copied_bytes t s n (some bytes) =
    copied
      (record t { rcv_processed = u32 (t.rcv_processed + n); tcpq_in = segment_done t.tcpq_in s n })
      bytes

abbrev pub read_at : Receiver → ℕ → ℕ → Segment → ℤ → ReadRound
read_at t len tot s (negsuc i) = ended t
read_at t len tot s (pos i) =
    let n = read_in_frame_len (length s.payload) i tot len in
    copied_bytes t s n (bytes_at s.payload i n)

abbrev pub read_first : Receiver → ℕ → ℕ → Option Segment → ReadRound
read_first t len tot none = ended t
read_first t len tot (some s) = read_at t len tot s (seq_compare t.rcv_processed s.seq)

-- A round of release_until takes one segment out, so it needs no more rounds than there are.
unfoldable pub read_round : Receiver → ℕ → ℕ → ReadRound
read_round t len tot =
    let q = (release_until input (suc t.tcpq_in.frames) t.tcpq_in t.rcv_processed).0 in
    read_first (record t { tcpq_in = q }) len tot (first_segment input q)

-- What pico_tcp_read does: it returns with bytes in the buffer, copies from outside of a payload,
-- or has not ended after so many rounds.
pub data Reading : Type 0 where
  returned : Receiver → List ℕ → Reading
  overran : Reading
  unfinished : Reading

abbrev pub before : List ℕ → Reading → Reading
before bytes (returned t rest) = returned t (bytes ++ rest)
before bytes overran = overran
before bytes unfinished = unfinished

unfoldable pub read_loop : Bool → ℕ → Receiver → ℕ → ℕ → Reading
unfolding read_round read_finish
read_loop net_alloc zero t len tot = unfinished
read_loop net_alloc (suc fuel) t len tot = elim (ltb tot len) [
  | false ↦ returned (read_finish net_alloc t) []
  | true ↦ elim (read_round t len tot) [
    | ended t' ↦ returned (read_finish net_alloc t') []
    | overrun ↦ overran
    | copied t' bytes ↦ before bytes (read_loop net_alloc fuel t' len (u32 (tot + length bytes)))
  ]
]

-- pico_tcp_read, of so many bytes.
unfoldable pub tcp_read : Bool → ℕ → Receiver → ℕ → Reading
unfolding read_loop
tcp_read net_alloc fuel t len = read_loop net_alloc fuel t len 0
