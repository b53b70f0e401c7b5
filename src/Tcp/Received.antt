-- ===== src/Tcp/Received.antt =====
-- What a socket of modules/pico_tcp.c has received, from its first segment on.
use picotcp.Base.{ℕ, ◌+◌, ◌<◌, ◌≤◌, ◌≡◌, sym, ap, subst, Bool, [], arith}
use picotcp.Seq.Window.{off}
use picotcp.Tree.{keys}
use picotcp.Tcp.{input}
use picotcp.Tcp.Order.{InWindow}
use picotcp.Tcp.Segments.{Holds}
use picotcp.Tcp.Layout.{chunk}
use picotcp.Tcp.Input.{Receiver, returned, tcp_read}
use picotcp.Tcp.Receive.{InFrame, data_in}
use picotcp.Tcp.Synced.{Synced, New, segment_of}
use picotcp.Tcp.Arrive.{data_in-Keeps, Synced-tcp_read}

module _ (base : ℕ) (stream : ℕ → ℕ) where
  -- A socket with an empty input queue, which has handed out all that it has acknowledged.
  pub record IsIdle (t : Receiver) : Type 0 where
    pub empty : Holds input base t.tcpq_in []
    pub window : InWindow base t.rcv_processed
    pub caught_up : t.rcv_nxt ≡ t.rcv_processed

  -- The sockets after some segments: each is a part of the stream behind what has been handed out and
  -- overlaps no segment that is in the queue when it arrives, and it is stored or not.
  pub data Received (start : Receiver) : Receiver → Type 0 where
    nothing : Received start start
    segment :
        {t : Receiver} (alloc node_alloc net_alloc : Bool) (f : InFrame)
        → Received start t
        → New base stream t (keys t.tcpq_in.pool) (segment_of base stream f)
        → Received start (data_in alloc node_alloc net_alloc t f).0

  idle-Synced : (t : Receiver) → IsIdle t → Synced base stream t []
  idle-Synced t h =
      let e = ap (off base) h.caught_up in
      record {
        valid = record { holds = h.empty; processed = h.window; pending = tt };
        next = subst (InWindow base) (sym h.caught_up) h.window;
        ahead = omega (arith, e);
        covers = λ i a b. absurd (omega (arith, a, b, e));
      }

  Received-Synced :
      (l : base < 4294967296) (start t : Receiver)
      → IsIdle start
      → Received start t
      → Synced base stream t (keys t.tcpq_in.pool)
  Received-Synced l start t h nothing =
      subst (Synced base stream start) (sym h.empty.held) (idle-Synced start h)
  Received-Synced l start _ h (segment {t} alloc node_alloc net_alloc f r n) =
      let (ys, v, k, w) =
        data_in-Keeps base stream alloc node_alloc net_alloc t f (keys t.tcpq_in.pool) l
          (Received-Synced l start t h r) n in
      subst (Synced base stream (data_in alloc node_alloc net_alloc t f).0) (sym v.valid.holds.held)
        v

  -- What has been acknowledged can be read. A socket with an empty input queue receives any segments
  -- of the stream by tcp_data_in, in any order, whatever memory there is, of which none overlaps one
  -- that is in the queue when it arrives. Then pico_tcp_read of no more bytes than lie between what has
  -- been handed out and `rcv_nxt`, with fuel for one round more than that, returns all of them.
  pub acknowledged_is_read :
      (net_alloc : Bool) (fuel : ℕ) (start t : Receiver) (len : ℕ)
      → base < 4294967296
      → IsIdle start
      → Received start t
      → off base t.rcv_processed + len ≤ off base t.rcv_nxt
      → len < fuel
      → (t' : Receiver) × (tcp_read net_alloc fuel t len
          ≡ returned t' (chunk stream (off base t.rcv_processed) len))
  acknowledged_is_read net_alloc fuel start t len l h r =
      Synced-tcp_read base stream net_alloc fuel t (keys t.tcpq_in.pool) len l
        (Received-Synced l start t h r)
