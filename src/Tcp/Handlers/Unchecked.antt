-- ===== src/Tcp/Handlers/Unchecked.antt =====
-- A test on numbers that a handler of modules/pico_tcp.c makes wrongly.
use picotcp.Base.{◌≡◌, ◌≤◌, ◌<◌, false, ◌+◌, ◌*◌, ◌^◌, arith, u32}
use picotcp.Tcp.Dispatch.{syn_sent, tcp_rst, Arrived}
use picotcp.Tcp.Handlers.{TcpSocket, Calls, is_state, handle}

-- Once the window that a reset announces reaches past the largest sequence number, no reset is
-- taken outside SYN_SENT, not even one with the next sequence number: the socket stays as it is.
pub wrapped_rst_ignored :
    (c : Calls) (f : Arrived) (s : TcpSocket)
    → is_state s.state syn_sent ≡ false
    → s.rcv_ackd < 4294967296
    → 4294967296 ≤ u32 (f.rwnd * 2 ^ s.wnd_scale) + s.rcv_ackd
    → handle c tcp_rst f s ≡ s
unfolding handle
wrapped_rst_ignored c f s n b w = ground (arith, n, b, w)
