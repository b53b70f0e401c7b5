-- ===== src/Tcp/Handlers/Tests.antt =====
-- Runs of the handlers of modules/pico_tcp.c, and instances of the theorems.
use picotcp.Base.{ℕ, ◌≡◌, refl, false, arith}
use picotcp.Tcp.Dispatch.{
  TcpState, syn_sent, established, close_wait, fin_wait1, fin_wait2, tcp_rst, Arrived, tcp_input,
}
use picotcp.Seq.{seq_compare}
use picotcp.Tcp.Handlers.{TcpSocket, Calls, handle, tcp_socket}
use picotcp.Tcp.Handlers.Unchecked.{wrapped_rst_ignored}

-- The other parts of the stack do nothing here, but that a deleted socket has no events.
abbrev quiet : Calls
quiet = record {
  time = 7;
  syn = λ f s. s;
  ack = λ f s. s;
  data_in = λ f s. s;
  send_ack = λ s. s;
  send_synack = λ s. s;
  do_send_rst = λ n s. s;
  nosync_rst = λ f s. s;
  reply_rst = λ f s. s;
  linger = λ s. s;
  timer_cancel = λ s. s;
  wakeup = λ e s. s;
  wakeup_connected = λ s. s;
  socket_close = λ s. s;
  socket_del = λ s. record s { ev_pending = 0 };
}

abbrev in_state : TcpState → TcpSocket
in_state st = record {
  state = st;
  is_closed = false;
  shut_local = false;
  shut_remote = false;
  ev_pending = 0;
  timestamp = 0;
  snd_nxt = 99;
  rcv_nxt = 500;
  rcv_processed = 500;
  rcv_ackd = 4294967000;
  wnd_scale = 0;
  retrans_tmr = 0;
  remote_closed = false;
}

abbrev segment : ℕ → ℕ → ℕ → Arrived
segment flags seq ack = record {
  flags = flags;
  len = 80;
  transport_len = 20;
  seq = seq;
  ack = ack;
  rwnd = 1000;
}

-- Three segments from SYN_SENT: the acknowledgement opens the socket, a FIN shuts it.
opened :
    (tcp_input (tcp_socket quiet) (segment 18 500 100) (in_state syn_sent)).0.state ≡ established
unfolding tcp_input handle seq_compare
opened = refl

shut :
    (tcp_input (tcp_socket quiet) (segment 17 500 99) (in_state established)).0.state ≡ close_wait
unfolding tcp_input handle seq_compare
shut = refl

acked : (tcp_input (tcp_socket quiet) (segment 16 500 98) (in_state fin_wait1)).0.state ≡ fin_wait2
unfolding tcp_input handle seq_compare
acked = refl

wrapped_rst_ignored_example :
    handle quiet tcp_rst (segment 4 4294967100 0) (in_state established) ≡ in_state established
wrapped_rst_ignored_example =
    wrapped_rst_ignored quiet (segment 4 4294967100 0) (in_state established) refl (omega arith)
      (omega arith)
