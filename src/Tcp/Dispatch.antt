-- ===== src/Tcp/Dispatch.antt =====
-- The state machine of modules/pico_tcp.c: which handlers a segment runs in which state. What the
-- handlers do to the socket is an interface here, and so are the parts of the socket that
-- pico_tcp_input reads itself.
pub mod Handled
pub mod Dropped
mod Tests
use picotcp.Base.{
  ℕ, zero, suc, ◌+◌, ◌-◌, ◌*◌, ◌/◌, Bool, true, false, not, ◌||◌, Option, none, some, List, [], ◌∷◌,
  if◌then◌else◌, ◌==◌, bit_and, u16, ltb,
}

-- `s->state >> 8`, by the names of PICO_SOCKET_STATE_TCP_*.
pub data TcpState : Type 0 where
  undef closed listen syn_sent syn_recv established close_wait last_ack fin_wait1 fin_wait2 closing
        time_wait :
      TcpState

pub data Handler : Type 0 where
  tcp_syn tcp_synrecv_syn tcp_halfopencon tcp_synack tcp_first_ack tcp_ack tcp_lastackwait : Handler
  tcp_finwaitack tcp_closing_ack tcp_data_in tcp_send_rst tcp_closewait tcp_rcvfin tcp_finwaitfin :
      Handler
  tcp_closeconn tcp_finack tcp_rst : Handler

-- What pico_tcp_input and the handlers read of a frame: the flags, the length byte and the numbers
-- of the TCP header, as the host reads them, and the length of the segment with its header.
pub record Arrived : Type 0 where
  pub flags : ℕ
  pub len : ℕ
  pub transport_len : ℕ
  pub seq : ℕ
  pub ack : ℕ
  pub rwnd : ℕ

-- A socket of TCP: `is_closed` is the bit PICO_SOCKET_STATE_CLOSED of the state, `stamp` sets the
-- timestamp, `answer_rst` is what pico_tcp_reply_rst does with a frame that is no reset.
pub record Socket {ℓ} (S : Type ℓ) : Type ℓ where
  pub tcp_state : S → TcpState
  pub is_closed : S → Bool
  pub ev_pending : S → ℕ
  pub run : Handler → Arrived → S → S
  pub stamp : S → S
  pub answer_rst : Arrived → S → S
  pub wakeup : ℕ → S → S

-- struct tcp_action_entry without the state; `payload` is the field `data`.
pub record Actions : Type 0 where
  pub syn : Option Handler
  pub synack : Option Handler
  pub ack : Option Handler
  pub payload : Option Handler
  pub fin : Option Handler
  pub finack : Option Handler
  pub rst : Option Handler

abbrev row :
    Option Handler
    → Option Handler
    → Option Handler
    → Option Handler
    → Option Handler
    → Option Handler
    → Option Handler
    → Actions
row a b c d e f g = record {
  syn = a;
  synack = b;
  ack = c;
  payload = d;
  fin = e;
  finack = f;
  rst = g;
}

abbrev pub tcp_fsm : TcpState → Actions
tcp_fsm undef = row none none none none none none none
tcp_fsm closed = row none none none none none none none
tcp_fsm listen = row (some tcp_syn) none none none none none none
tcp_fsm syn_sent = row none (some tcp_synack) none none none none (some tcp_rst)
tcp_fsm syn_recv =
    row (some tcp_synrecv_syn) none (some tcp_first_ack) (some tcp_data_in) none
      (some tcp_closeconn) (some tcp_rst)
tcp_fsm established =
    row (some tcp_halfopencon) (some tcp_ack) (some tcp_ack) (some tcp_data_in) (some tcp_closewait)
      (some tcp_closewait) (some tcp_rst)
tcp_fsm close_wait =
    row none (some tcp_ack) (some tcp_ack) (some tcp_send_rst) (some tcp_closewait)
      (some tcp_closewait) (some tcp_rst)
tcp_fsm last_ack =
    row none (some tcp_ack) (some tcp_lastackwait) (some tcp_send_rst) (some tcp_send_rst)
      (some tcp_send_rst) (some tcp_rst)
tcp_fsm fin_wait1 =
    row none (some tcp_ack) (some tcp_finwaitack) (some tcp_data_in) (some tcp_rcvfin)
      (some tcp_finack) (some tcp_rst)
tcp_fsm fin_wait2 =
    row none (some tcp_ack) (some tcp_ack) (some tcp_data_in) (some tcp_finwaitfin)
      (some tcp_finack) (some tcp_rst)
tcp_fsm closing =
    row none (some tcp_ack) (some tcp_closing_ack) (some tcp_send_rst) (some tcp_send_rst)
      (some tcp_send_rst) (some tcp_rst)
tcp_fsm time_wait = row none none none (some tcp_send_rst) none none none

-- The flags: FIN is 1, SYN 2, RST 4, PSH 8 and ACK 16.
abbrev flags_open : List ℕ
flags_open = 18 ∷ 16 ∷ 8 ∷ 24 ∷ 1 ∷ 17 ∷ 25 ∷ 4 ∷ []

-- A row of valid_flags, without the zeros that fill it up.
abbrev pub valid_flags : TcpState → List ℕ
valid_flags undef = []
valid_flags closed = []
valid_flags listen = 2 ∷ []
valid_flags syn_sent = 18 ∷ 4 ∷ 20 ∷ []
valid_flags syn_recv = 2 ∷ 16 ∷ 8 ∷ 24 ∷ 17 ∷ 25 ∷ 4 ∷ []
valid_flags established = 2 ∷ 18 ∷ 16 ∷ 8 ∷ 24 ∷ 1 ∷ 17 ∷ 25 ∷ 4 ∷ 20 ∷ []
valid_flags close_wait = flags_open
valid_flags last_ack = flags_open
valid_flags fin_wait1 = flags_open
valid_flags fin_wait2 = flags_open
valid_flags closing = flags_open
valid_flags time_wait = flags_open

abbrev pub is_listed : ℕ → List ℕ → Bool
is_listed x [] = false
is_listed x (y ∷ ys) = if y == x then true else is_listed x ys

unfoldable pub invalid_flags : TcpState → ℕ → Bool
invalid_flags st flags = if flags == 0 then true else not (is_listed flags (valid_flags st))

-- The length of a header of TCP, in bytes.
abbrev pub header_len : Arrived → ℕ
header_len f = bit_and f.len 240 / 4

-- `f->payload_len`, a 16-bit number.
abbrev pub payload_len : Arrived → ℕ
payload_len f = u16 (f.transport_len + 65536 - header_len f)

abbrev pub is_listen : TcpState → Bool
is_listen listen = true
is_listen _ = false

abbrev pub is_ack : ℕ → Bool
is_ack flags = (flags == 16) || (flags == 24)

abbrev pub is_finack : ℕ → Bool
is_finack flags = (flags == 17) || (flags == 25)

module _ {ℓ} {S : Type ℓ} (sock : Socket S) (f : Arrived) where
  -- tcp_action_call
  abbrev pub action_call : Option Handler → S → S
  action_call none s = s
  action_call (some h) s = sock.run h f s

  -- A call that a test guards.
  abbrev pub call_if : Bool → Option Handler → S → S
  call_if b h s = if b then action_call h s else s

  -- The test before the handler of data.
  abbrev pub takes_data : S → Bool
  takes_data s =
      if ltb 0 (payload_len f) || not (bit_and f.flags 8 == 0)
      then not (sock.is_closed s || is_listen (sock.tcp_state s))
      else false

  abbrev pub after_data : Actions → S → S
  after_data a s =
      call_if (not (bit_and f.flags 4 == 0)) a.rst
        (call_if (is_finack f.flags) a.finack (call_if (f.flags == 1) a.fin s))

  abbrev pub data_and_after : Actions → S → S × ℕ
  data_and_after a s =
      let b = takes_data s in (after_data a (call_if b a.payload s), if b then payload_len f else 0)

  -- tcp_action_by_flags
  unfoldable pub action_by_flags : Actions → S → S × ℕ
  action_by_flags a s = data_and_after a (call_if (is_ack f.flags) a.ack s)

  -- pico_tcp_reply_rst
  abbrev pub reply_rst : S → S
  reply_rst s = if bit_and f.flags 4 == 0 then sock.answer_rst f s else s

  abbrev pub dispatch : Actions → S → S × ℕ
  dispatch a s =
      if invalid_flags (sock.tcp_state s) f.flags
      then (reply_rst s, 0)
      else if f.flags == 2
      then (action_call a.syn s, 0)
      else if f.flags == 18
      then (action_call a.synack s, 0)
      else action_by_flags a s

  abbrev pub wakeup_pending : S → S
  wakeup_pending s = if sock.ev_pending s == 0 then s else sock.wakeup (sock.ev_pending s) s

  abbrev pub woken : S × ℕ → S × ℕ
  woken (s, r) = (wakeup_pending s, r)

  -- pico_tcp_input, without the frame, which is discarded: the socket, and the bytes of data.
  unfoldable pub tcp_input : S → S × ℕ
  unfolding action_by_flags invalid_flags
  tcp_input s = let s' = sock.stamp s in woken (dispatch (tcp_fsm (sock.tcp_state s')) s')
