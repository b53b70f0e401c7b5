-- ===== src/Tcp/Overlap.antt =====
-- What pico_tcp_read of modules/pico_tcp.c does if segments overlap: those that a longer segment
-- has covered stay behind in the queue, release_until stops at the first gap between them, and the
-- offset of the next copy lies behind the payload.
use picotcp.Base.{
  ℕ, suc, ◌+◌, ◌-◌, ◌<◌, ◌≤◌, ◌≡◌, refl, sym, ap, ◌∙◌, subst, Bool, none, List, [], ◌∷◌, arith, inl,
  inr, length,
}
use picotcp.Seq.{seq_compare}
use picotcp.Seq.Window.{off, seq_compare-off}
use picotcp.Tree.Order.{search_key}
use picotcp.Tcp.{Segment, input, TcpQueue, end_of, next_segment, release_from, release_until}
use picotcp.Tcp.Order.{InWindow, Here, Ends, by_offset, off-end_of, end_of-InWindow, not_later-off}
use picotcp.Tcp.Read.{continue, read_loop-suc}
use picotcp.Tcp.Segments.{Holds, first_segment-Holds, peek_segment-Holds, discard_segment-Holds}
use picotcp.Tcp.Input.{
  Receiver, bytes_at, read_in_frame_len, overrun, overran, read_at, read_round, tcp_read,
}

bytes_at-none : (xs : List ℕ) (i n : ℕ) → length xs < i → bytes_at xs i n ≡ none
bytes_at-none xs i n h = ground (arith, h)

between-none :
    (base : ℕ) (k a b : Segment)
    → off base a.seq < off base k.seq
    → off base k.seq < off base b.seq
    → search_key (by_offset input base) k (a ∷ b ∷ []) ≡ none
unfolding search_key
between-none base k a b h i = ground (arith, h, i)

module _ (base : ℕ) (l : base < 4294967296) where
  abbrev stop_of : Segment → ℕ
  stop_of s = off base s.seq + length s.payload

  -- The search behind the first of two segments that do not touch finds nothing.
  gap_found :
      (q : TcpQueue Segment) (a b : Segment)
      → Holds input base q (a ∷ b ∷ [])
      → Ends input base a
      → stop_of a < off base b.seq
      → next_segment input q a ≡ none
  unfolding next_segment
  gap_found q a b v e g =
      let w = end_of-InWindow input base a l v.here.0 e in
      let o = off-end_of input base a l v.here.0 e in
      peek_segment-Holds input base l q (a ∷ b ∷ []) v (end_of input a) refl w
      ∙ between-none base (input.at (end_of input a)) a b (omega (arith, o, v.filled.0.0))
          (omega (arith, o, g))

  -- Of two segments with a gap between them, release_until takes only the first one.
  release_stops :
      (q : TcpQueue Segment) (a b : Segment) (n : ℕ) (fuel : ℕ)
      → Holds input base q (a ∷ b ∷ [])
      → Ends input base a
      → InWindow base n
      → stop_of a ≤ off base n
      → stop_of a < off base b.seq
      → Holds input base (release_until input (suc (suc fuel)) q n).0 (b ∷ [])
  unfolding release_until release_from
  release_stops q a b n fuel v e w m g =
      let o = off-end_of input base a l v.here.0 e in
      elim (not_later-off base (end_of input a) n l (end_of-InWindow input base a l v.here.0 e) w) [
        | inl (t, x) ↦
            rw (first_segment-Holds input base l q (a ∷ b ∷ []) v, t, gap_found q a b v e g)
              (discard_segment-Holds input base l q a (b ∷ []) v)
        | inr (t, x) ↦ absurd (omega (arith, x, o, m))
      ]

  read_at-overrun :
      (t : Receiver) (len tot : ℕ) (s : Segment)
      → InWindow base t.rcv_processed
      → Here input base s
      → stop_of s < off base t.rcv_processed
      → read_at t len tot s (seq_compare t.rcv_processed s.seq) ≡ overrun
  read_at-overrun t len tot s w h g =
      elim (seq_compare-off base t.rcv_processed s.seq l w.word h.word w.near h.near) [
        | inl (c, e) ↦
            let i = off base t.rcv_processed - off base s.seq in
            rw
              (
                e,
                bytes_at-none s.payload i (read_in_frame_len (length s.payload) i tot len)
                    (omega (arith, g)),
              )
              refl
        | inr (c, e) ↦ absurd (omega (arith, c, g))
      ]

  round_overrun :
      (t : Receiver) (a b : Segment) (len : ℕ)
      → Holds input base t.tcpq_in (a ∷ b ∷ [])
      → Ends input base a
      → InWindow base t.rcv_processed
      → stop_of a < off base b.seq
      → stop_of b < off base t.rcv_processed
      → read_round t len 0 ≡ overrun
  unfolding read_round
  round_overrun t a b len v e w g m =
      let q = (release_until input (suc t.tcpq_in.frames) t.tcpq_in t.rcv_processed).0 in
      let h : Holds input base q (b ∷ []) =
        subst
          (λ i. Holds input base (release_until input (suc i) t.tcpq_in t.rcv_processed).0 (b ∷ []))
          (sym v.numbered)
          (release_stops t.tcpq_in a b t.rcv_processed 1 v e w (omega (arith, g, m)) g) in
      rw (first_segment-Holds input base l q (b ∷ []) h)
        (read_at-overrun (record t { tcpq_in = q }) len 0 b w h.here.0 m)

  -- If the input queue has two segments with a gap between them, both of which end before the bytes
  -- that have not been handed out, any pico_tcp_read of one byte or more copies from behind the
  -- payload of the second one.
  pub stale_segments_overrun :
      (net_alloc : Bool) (fuel : ℕ) (t : Receiver) (a b : Segment) (len : ℕ)
      → Holds input base t.tcpq_in (a ∷ b ∷ [])
      → Ends input base a
      → InWindow base t.rcv_processed
      → stop_of a < off base b.seq
      → stop_of b < off base t.rcv_processed
      → 0 < len
      → tcp_read net_alloc (suc fuel) t len ≡ overran
  unfolding tcp_read
  stale_segments_overrun net_alloc fuel t a b len v e w g m z =
      read_loop-suc net_alloc fuel t len 0 z
      ∙ ap (continue net_alloc fuel len 0) (round_overrun t a b len v e w g m)
