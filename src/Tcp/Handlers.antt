-- ===== src/Tcp/Handlers.antt =====
-- The handlers of the state machine of modules/pico_tcp.c, and the socket that pico_tcp_input works
-- on with them. What they call in other parts of the stack is an interface.
pub mod Unchecked
mod Tests
use picotcp.Base.{
  ℕ, ◌+◌, ◌-◌, ◌*◌, ◌^◌, Bool, true, false, not, ◌||◌, ◌&&◌, if◌then◌else◌, ◌==◌, leb, ltb, bit_and,
  bit_or, u32, sub32, short_be, ℤ, pos, negsuc,
}
use picotcp.Seq.{seq_compare}
use picotcp.Tcp.{is_zero}
use picotcp.Tcp.Dispatch.{
  TcpState, closed, syn_sent, syn_recv, established, close_wait, fin_wait1, fin_wait2, closing,
  time_wait, listen, undef, last_ack, Handler, tcp_syn, tcp_synrecv_syn, tcp_halfopencon,
  tcp_synack, tcp_first_ack, tcp_ack, tcp_lastackwait, tcp_finwaitack, tcp_closing_ack, tcp_data_in,
  tcp_send_rst, tcp_closewait, tcp_rcvfin, tcp_finwaitfin, tcp_closeconn, tcp_finack, tcp_rst,
  Arrived, Socket, payload_len,
}

-- What the handlers read and write of struct pico_socket_tcp: the state of TCP and the bits CLOSED,
-- SHUT_LOCAL and SHUT_REMOTE of the state of the socket, its events, and numbers. The other bits
-- of the state are not modelled.
pub record TcpSocket : Type 0 where
  pub state : TcpState
  pub is_closed : Bool
  pub shut_local : Bool
  pub shut_remote : Bool
  pub ev_pending : ℕ
  pub timestamp : ℕ
  pub snd_nxt : ℕ
  pub rcv_nxt : ℕ
  pub rcv_processed : ℕ
  pub rcv_ackd : ℕ
  pub wnd_scale : ℕ
  pub retrans_tmr : ℕ
  pub remote_closed : Bool

-- The functions that the handlers call, by their names in the C code, without tcp_ and pico_:
-- wakeup calls the callback of the socket, if it has one, and wakeup_parent that of its parent.
pub record Calls : Type 0 where
  pub time : ℕ
  pub syn : Arrived → TcpSocket → TcpSocket
  pub ack : Arrived → TcpSocket → TcpSocket
  pub data_in : Arrived → TcpSocket → TcpSocket
  pub send_ack : TcpSocket → TcpSocket
  pub send_synack : TcpSocket → TcpSocket
  pub do_send_rst : ℕ → TcpSocket → TcpSocket
  pub nosync_rst : Arrived → TcpSocket → TcpSocket
  pub reply_rst : Arrived → TcpSocket → TcpSocket
  pub linger : TcpSocket → TcpSocket
  pub timer_cancel : TcpSocket → TcpSocket
  pub wakeup : ℕ → TcpSocket → TcpSocket
  pub wakeup_connected : TcpSocket → TcpSocket
  pub socket_close : TcpSocket → TcpSocket
  pub socket_del : TcpSocket → TcpSocket

-- `s->state &= 0x00FFU; s->state |= st`
abbrev pub set_state : TcpState → TcpSocket → TcpSocket
set_state st s = record s { state = st }

-- `s->state &= 0xFF00U; s->state |= PICO_SOCKET_STATE_CLOSED`
abbrev pub mark_closed : TcpSocket → TcpSocket
mark_closed s = record s { is_closed = true; shut_local = false; shut_remote = false }

-- The assignments that leave CLOSED in both bytes of the state.
abbrev pub set_closed : TcpSocket → TcpSocket
set_closed s = mark_closed (set_state closed s)

abbrev pub is_state : TcpState → TcpState → Bool
is_state undef undef = true
is_state closed closed = true
is_state listen listen = true
is_state syn_sent syn_sent = true
is_state syn_recv syn_recv = true
is_state established established = true
is_state close_wait close_wait = true
is_state last_ack last_ack = true
is_state fin_wait1 fin_wait1 = true
is_state fin_wait2 fin_wait2 = true
is_state closing closing = true
is_state time_wait time_wait = true
is_state _ _ = false

abbrev pub is_synchronized : TcpState → Bool
is_synchronized undef = false
is_synchronized closed = false
is_synchronized listen = false
is_synchronized syn_sent = false
is_synchronized syn_recv = false
is_synchronized _ = true

-- tcp_attempt_closewait, before the notification.
abbrev pub marked : TcpSocket → TcpSocket
marked s = if is_state s.state established then set_state close_wait s else s

module _ (c : Calls) (f : Arrived) where
  -- tcp_send_rst: `state > SYN_RECV` are the synchronized states.
  abbrev pub send_rst : TcpSocket → TcpSocket
  send_rst s =
      if is_synchronized s.state
      then c.do_send_rst f.ack s
      else c.socket_del (c.wakeup 16 (mark_closed (c.do_send_rst s.snd_nxt (set_state closed s))))

  abbrev pub halfopencon : TcpSocket → TcpSocket
  halfopencon s = c.send_ack s

  abbrev pub synrecv_syn : TcpSocket → TcpSocket
  synrecv_syn s =
      if s.rcv_nxt == u32 (f.seq + 1)
      then c.send_synack (record s { snd_nxt = sub32 s.snd_nxt 1 })
      else send_rst s

  -- The socket is told that it is connected, and acknowledges.
  abbrev pub connected : TcpSocket → TcpSocket
  connected s =
      let s' = c.wakeup 4 s in
      c.send_ack (record s' {
        ev_pending = bit_or s'.ev_pending 2;
        rcv_nxt = u32 (s'.rcv_nxt + 1);
        snd_nxt = u32 (s'.snd_nxt + 1);
      })

  abbrev pub synack : TcpSocket → TcpSocket
  synack s =
      if f.ack == u32 (1 + s.snd_nxt)
      then (let s' = record (c.timer_cancel s) {
        retrans_tmr = 0;
        rcv_nxt = f.seq;
        rcv_processed = u32 (f.seq + 1);
      } in
          connected (set_state established (c.ack f s')))
      else if bit_and f.flags 4 == 0
      then c.nosync_rst f s
      else s

  abbrev pub ready : TcpSocket → TcpSocket
  ready s = record s { ev_pending = bit_or s.ev_pending 2 }

  abbrev pub first_ack : TcpSocket → TcpSocket
  first_ack s =
      if s.snd_nxt == f.ack
      then (let s' = record s { rcv_processed = s.rcv_nxt } in
          ready (c.wakeup_connected (set_state established (c.ack f s'))))
      else if bit_and f.flags 4 == 0
      then c.nosync_rst f s
      else s

  abbrev pub finwaitack : TcpSocket → TcpSocket
  finwaitack s =
      let s' = c.ack f s in if f.ack == sub32 s'.snd_nxt 1 then set_state fin_wait2 s' else s'

  abbrev pub closing_ack : TcpSocket → TcpSocket
  closing_ack s =
      let s' = c.ack f s in if f.ack == s'.snd_nxt then c.linger (set_state time_wait s') else s'

  abbrev pub lastackwait : TcpSocket → TcpSocket
  lastackwait s = if f.ack == s.snd_nxt then c.socket_del (c.wakeup 16 (set_closed s)) else s

  abbrev pub remote_shut : TcpSocket → TcpSocket
  remote_shut s = c.wakeup 8 (record (marked s) { shut_remote = true })

  -- tcp_attempt_closewait
  abbrev pub attempt_closewait : TcpSocket → TcpSocket
  attempt_closewait s =
      if is_zero (seq_compare f.seq s.rcv_nxt)
      then (let s' = record s { rcv_nxt = u32 (f.seq + 1) } in
          if is_zero (seq_compare f.seq s'.rcv_processed)
          then remote_shut s'
          else record s' { remote_closed = true })
      else s

  abbrev pub ack_if_open : TcpSocket → TcpSocket
  ack_if_open s =
      if is_state s.state close_wait || is_state s.state established then c.send_ack s else s

  abbrev pub data_if_any : TcpSocket → TcpSocket
  data_if_any s = if ltb 0 (payload_len f) then c.data_in f s else s

  abbrev pub ack_if_set : TcpSocket → TcpSocket
  ack_if_set s = if bit_and f.flags 16 == 0 then s else c.ack f s

  abbrev pub closewait : TcpSocket → TcpSocket
  closewait s = ack_if_open (attempt_closewait (ack_if_set (data_if_any s)))

  abbrev pub rcvfin : TcpSocket → TcpSocket
  rcvfin s = c.send_ack (record s {
    state = closing;
    rcv_processed = u32 (s.rcv_nxt + 1);
    rcv_nxt = u32 (s.rcv_nxt + 1);
  })

  abbrev pub finwaitfin : TcpSocket → TcpSocket
  finwaitfin s =
      let s' =
        c.wakeup 8
          (record s { state = time_wait; shut_remote = true; rcv_nxt = u32 (f.seq + 1) }) in
      c.linger (c.send_ack (data_if_any s'))

  abbrev pub finack : TcpSocket → TcpSocket
  finack s =
      let s' = c.wakeup 16 (c.send_ack (record s { rcv_nxt = u32 (s.rcv_nxt + 1) })) in
      c.linger (record s' { state = time_wait; shut_remote = true })

  -- tcp_force_closed, whose test for ESTABLISHED fails, since the state is CLOSED by then.
  abbrev pub force_closed : TcpSocket → TcpSocket
  force_closed s = c.socket_del (c.wakeup 16 (set_closed s))

  -- The window of a reset: `short_be(hdr->rwnd) << wnd_scale` is 32 bits wide.
  abbrev pub rst : TcpSocket → TcpSocket
  rst s =
      if is_state s.state syn_sent
      then if u32 (s.snd_nxt + 1) == f.ack then force_closed s else s
      else if leb s.rcv_ackd f.seq && leb f.seq (u32 (u32 (f.rwnd * 2 ^ s.wnd_scale) + s.rcv_ackd))
      then force_closed s
      else s

  abbrev pub closeconn : TcpSocket → TcpSocket
  closeconn s =
      if is_zero (seq_compare f.seq s.rcv_nxt)
      then c.socket_close
          (record s { state = close_wait; shut_local = true; rcv_nxt = u32 (f.seq + 1) })
      else s

unfoldable pub handle : Calls → Handler → Arrived → TcpSocket → TcpSocket
handle c tcp_syn f s = c.syn f s
handle c tcp_synrecv_syn f s = synrecv_syn c f s
handle c tcp_halfopencon f s = halfopencon c f s
handle c tcp_synack f s = synack c f s
handle c tcp_first_ack f s = first_ack c f s
handle c tcp_ack f s = c.ack f s
handle c tcp_lastackwait f s = lastackwait c f s
handle c tcp_finwaitack f s = finwaitack c f s
handle c tcp_closing_ack f s = closing_ack c f s
handle c tcp_data_in f s = c.data_in f s
handle c tcp_send_rst f s = send_rst c f s
handle c tcp_closewait f s = closewait c f s
handle c tcp_rcvfin f s = rcvfin c f s
handle c tcp_finwaitfin f s = finwaitfin c f s
handle c tcp_closeconn f s = closeconn c f s
handle c tcp_finack f s = finack c f s
handle c tcp_rst f s = rst c f s

-- The socket of TCP that pico_tcp_input works on.
abbrev pub tcp_socket : Calls → Socket TcpSocket
tcp_socket c = record {
  tcp_state = λ s. s.state;
  is_closed = λ s. s.is_closed;
  ev_pending = λ s. s.ev_pending;
  run = handle c;
  stamp = λ s. record s { timestamp = c.time };
  answer_rst = c.reply_rst;
  wakeup = c.wakeup;
}
