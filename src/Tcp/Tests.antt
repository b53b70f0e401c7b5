-- ===== src/Tcp/Tests.antt =====
-- Runs of the queues and the receiving half of modules/pico_tcp.c, and instances of the theorems.
use picotcp.Base.{
  ℕ, ◌+◌, ◌<◌, ◌≤◌, ◌≡◌, ◌⊎◌, refl, true, false, List, [], ◌∷◌, arith, length, pos, negsuc,
}
use picotcp.Seq.{seq_compare}
use picotcp.Seq.Window.{off}
use picotcp.Tree.{black, red, leaf, node}
use picotcp.Tree.Search.{All}
use picotcp.Tcp.{Segment, OutFrame, input, output, TcpQueue, enqueue_segment, release_all_until}
use picotcp.Tcp.Segments.{Holds}
use picotcp.Tcp.Queues.{Refused, Enqueued, enqueue_segment_refines}
use picotcp.Tcp.Layout.{chunk, start, Keeps}
use picotcp.Tcp.Input.{Receiver, Reading, returned, overran, unfinished, tcp_read}
use picotcp.Tcp.Round.{Valid}
use picotcp.Tcp.Read.{tcp_read_in_order}
use picotcp.Tcp.Receive.{InFrame, data_in}
use picotcp.Tcp.Synced.{Synced}
use picotcp.Tcp.Received.{nothing, segment, acknowledged_is_read}
use picotcp.Tcp.Overlap.{stale_segments_overrun}

abbrev no_segments : TcpQueue Segment
no_segments = record { pool = leaf; leaf_color = black; max_size = 1000; size = 0; frames = 0 }

abbrev at_90 : Segment
at_90 = record { seq = 90; payload = 0 ∷ 1 ∷ 2 ∷ [] }

abbrev one_segment : TcpQueue Segment
one_segment = record no_segments { pool = node black at_90 leaf leaf; size = 3; frames = 1 }

abbrev just_at_90 : List Segment
just_at_90 = at_90 ∷ []

abbrev stream : ℕ → ℕ
stream i = i

-- Three bytes have come in and have been acknowledged, and none has been read.
abbrev socket : Receiver
socket = record {
  tcpq_in = one_segment;
  rcv_nxt = 93;
  rcv_ackd = 93;
  rcv_processed = 90;
  wnd = 997;
  wnd_scale = 0;
  local_zero_window = false;
  remote_closed = false;
  sack_ok = true;
  sacks = [];
  ev_pending = 1;
  state = 1292;
  has_wakeup = true;
  wakeups = [];
  acks = 0;
}

one_segment-Holds : Holds input 90 one_segment just_at_90
one_segment-Holds = record {
  held = refl;
  sorted = (tt, tt);
  here = (record { word = omega arith; near = omega arith }, tt);
  filled = ((omega arith, omega arith), tt);
  counted = refl;
  numbered = refl;
  within = omega arith;
  limited = omega arith;
}

socket-Valid : Valid 90 stream socket just_at_90
socket-Valid = record {
  holds = one_segment-Holds;
  processed = record { word = omega arith; near = omega arith };
  pending = (
    record {
      here = record { word = omega arith; near = omega arith };
      ends = omega arith;
      filled = (omega arith, omega arith);
      bytes = refl;
    },
    tt,
    tt,
  );
}

abbrev at_95 : Segment
at_95 = record { seq = 95; payload = 5 ∷ 6 ∷ [] }

enqueue_segment_refines_example :
    let (q, r) = enqueue_segment input true one_segment at_95 in
    ((r ≡ negsuc 0) × (length at_95.payload ≡ 0) × (q ≡ one_segment))
    ⊎ (((r ≡ pos 0) × Refused input 90 one_segment at_95 just_at_90 true q)
        ⊎ ((r ≡ pos 2) × (0 < 2) × Enqueued input 90 one_segment at_95 just_at_90 true q))
enqueue_segment_refines_example =
    enqueue_segment_refines input 90 true one_segment at_95 just_at_90 (omega arith)
      one_segment-Holds (record { word = omega arith; near = omega arith }) (omega arith)

abbrev sent : OutFrame
sent = record { seq = 90; payload_len = 10; buffer_len = 64; timestamp = 7 }

abbrev just_sent : List OutFrame
just_sent = sent ∷ []

abbrev one_frame : TcpQueue OutFrame
one_frame = record {
  pool = node black sent leaf leaf;
  leaf_color = black;
  max_size = 1000;
  size = 64;
  frames = 1;
}

tcp_read_in_order_example :
    (t' : Receiver) × (bytes : List ℕ) × (ys : List Segment) × (tcp_read true 11 socket 10
      ≡ returned t' bytes)
    × (length bytes ≤ 10)
    × (bytes ≡ chunk stream 0 (length bytes))
    × (off 90 t'.rcv_processed ≡ 0 + length bytes)
    × ((length bytes ≡ 10) ⊎ All (λ (s : Segment). off 90 t'.rcv_processed < start 90 stream s) ys)
    × Valid 90 stream t' ys
    × Keeps 90 stream (off 90 t'.rcv_processed) just_at_90 ys
tcp_read_in_order_example =
    tcp_read_in_order 90 stream true 11 socket just_at_90 10 (omega arith) socket-Valid
      (omega arith) (omega arith)

abbrev ahead : InFrame
ahead = record { seq = 95; payload = 5 ∷ 6 ∷ []; flags = 16 }

-- Two short segments arrive first, and then the long one that covers them.
abbrev listening : Receiver
listening = record socket { tcpq_in = no_segments; rcv_nxt = 90; rcv_ackd = 90; ev_pending = 0 }

abbrev front : InFrame
front = record { seq = 90; payload = 0 ∷ 1 ∷ 2 ∷ []; flags = 16 }

acknowledged_is_read_example :
    (t' : Receiver) × (tcp_read true 4 (data_in true true true listening front).0 3
      ≡ returned t' (0 ∷ 1 ∷ 2 ∷ []))
unfolding data_in picotcp.Tcp.Receive.data_in_expected seq_compare enqueue_segment
    picotcp.Tree.insert picotcp.Tcp.Receive.scroll picotcp.Tcp.peek_segment
    picotcp.Tcp.Input.send_ack
acknowledged_is_read_example =
    acknowledged_is_read 90 stream true 4 listening (data_in true true true listening front).0 3
      (omega arith)
      (record {
        empty = record {
          held = refl;
          sorted = tt;
          here = tt;
          filled = tt;
          counted = refl;
          numbered = refl;
          within = omega arith;
          limited = omega arith;
        };
        window = record { word = omega arith; near = omega arith };
        caught_up = refl;
      })
      (segment true true true front nothing (
        record {
          here = record { word = omega arith; near = omega arith };
          ends = omega arith;
          filled = (omega arith, omega arith);
          bytes = refl;
        },
        omega arith,
        tt,
      ))
      (omega arith) (omega arith)

abbrev short_92 : InFrame
short_92 = record { seq = 92; payload = 0 ∷ 0 ∷ []; flags = 16 }

abbrev short_96 : InFrame
short_96 = record { seq = 96; payload = 0 ∷ 0 ∷ []; flags = 16 }

abbrev long_90 : InFrame
long_90 = record { seq = 90; payload = 0 ∷ 0 ∷ 0 ∷ 0 ∷ 0 ∷ 0 ∷ 0 ∷ 0 ∷ 0 ∷ []; flags = 16 }

abbrev overlapped : Receiver
overlapped =
    let t = (data_in true true true listening short_92).0 in
    let t' = (data_in true true true t short_96).0 in (data_in true true true t' long_90).0

abbrev read_one : Reading → Reading
read_one (returned t bytes) = tcp_read true 2 t 1
read_one overran = overran
read_one unfinished = unfinished

-- The nine bytes are read, and the next read leaves the payload of a short segment.
overlap_overruns : read_one (tcp_read true 10 overlapped 9) ≡ overran
unfolding tcp_read picotcp.Tcp.first_segment picotcp.Tree.Walk.first picotcp.Tcp.release_until
    data_in seq_compare picotcp.Tcp.Receive.data_in_high_segment enqueue_segment picotcp.Tree.insert
    picotcp.Tcp.Receive.sack_prepare picotcp.Tcp.Receive.data_in_expected picotcp.Tree.Delete.delete
overlap_overruns = refl

abbrev at_92 : Segment
at_92 = record { seq = 92; payload = 0 ∷ 0 ∷ [] }

abbrev at_96 : Segment
at_96 = record { seq = 96; payload = 0 ∷ 0 ∷ [] }

abbrev stale : Receiver
stale = record socket {
  tcpq_in = record no_segments {
    pool = node black at_92 leaf (node red at_96 leaf leaf);
    size = 4;
    frames = 2;
  };
  rcv_nxt = 99;
  rcv_processed = 99;
}

stale_segments_overrun_example : tcp_read true 2 stale 1 ≡ overran
stale_segments_overrun_example =
    stale_segments_overrun 90 (omega arith) true 1 stale at_92 at_96 1
      (record {
        held = refl;
        sorted = ((refl, tt), (tt, tt));
        here = (
          record { word = omega arith; near = omega arith },
          (record { word = omega arith; near = omega arith }, tt),
        );
        filled = ((omega arith, omega arith), ((omega arith, omega arith), tt));
        counted = refl;
        numbered = refl;
        within = omega arith;
        limited = omega arith;
      })
      (omega arith) (record { word = omega arith; near = omega arith }) (omega arith) (omega arith)
      (omega arith)
