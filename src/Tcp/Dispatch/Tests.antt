-- ===== src/Tcp/Dispatch/Tests.antt =====
-- Runs of the state machine of modules/pico_tcp.c, and instances of the theorems. The socket is a
-- state and the number of handlers that have run; its handlers do nothing else.
use picotcp.Base.{ℕ, suc, ◌≡◌, ◌≢◌, refl, false, [], ◌∷◌}
use picotcp.Tcp.Dispatch.{
  TcpState, established, fin_wait1, tcp_ack, tcp_data_in, Arrived, Socket, invalid_flags, tcp_input,
}
use picotcp.Tcp.Dispatch.Handled.{traced, valid_flags_handled}

abbrev counting : Socket (TcpState × ℕ)
counting = record {
  tcp_state = λ s. s.0;
  is_closed = λ s. false;
  ev_pending = λ s. 0;
  run = λ h f s. (s.0, suc s.1);
  stamp = λ s. s;
  answer_rst = λ f s. s;
  wakeup = λ e s. s;
}

-- A segment of 120 bytes with PSH and ACK, the first 20 of which are its header.
abbrev pushed : Arrived
pushed = record { flags = 24; len = 80; transport_len = 120; seq = 0; ack = 0; rwnd = 0 }

abbrev reset : Arrived
reset = record { flags = 20; len = 80; transport_len = 20; seq = 0; ack = 0; rwnd = 0 }

data_and_ack :
    tcp_input (traced counting) pushed ((established, 0), [])
    ≡ (((established, 2), tcp_data_in ∷ tcp_ack ∷ []), 100)
unfolding tcp_input invalid_flags
data_and_ack = refl

valid_flags_handled_example : (tcp_input (traced counting) pushed ((fin_wait1, 0), [])).0.1 ≢ []
unfolding invalid_flags
valid_flags_handled_example = valid_flags_handled counting pushed (fin_wait1, 0) refl (λ e. cc) refl
