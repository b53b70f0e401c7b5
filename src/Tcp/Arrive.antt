-- ===== src/Tcp/Arrive.antt =====
-- Data that comes in, modules/pico_tcp.c: the socket goes on having all the bytes that it has
-- acknowledged.
use picotcp.Base.{
  ℕ, ◌⊎◌, suc, ◌+◌, ◌<◌, ◌≤◌, ◌≡◌, inl, inr, refl, sym, ap, ◌∙◌, subst, Bool, true, false, none,
  some, List, [], ◌∷◌, arith, length, ℤ, pos, Bool-cases, ◌==◌, if◌then◌else◌, not, ◌&&◌, ◌/◌, ◌%◌,
}
use picotcp.Seq.{seq_compare}
use picotcp.Seq.Window.{off}
use picotcp.Tree.Order.{insert_key}
use picotcp.Tcp.{Segment, input, TcpQueue, is_zero, not_later, first_segment}
use picotcp.Tcp.Order.{InWindow, by_offset, is_zero-off}
use picotcp.Tcp.Segments.{Holds}
use picotcp.Tcp.Layout.{chunk, Pending, From-Held}
use picotcp.Tcp.Insertion.{insert-Keeps}
use picotcp.Tcp.Input.{Receiver, send_ack, returned, tcp_read}
use picotcp.Tcp.Finish.{Same, if-Same, send_ack-Same}
use picotcp.Tcp.Read.{tcp_read_in_order}
use picotcp.Tcp.Receive.{
  InFrame, segment_from_frame, expected_enqueued, expected_segment, data_in_expected, sack_prepare,
  high_enqueued, high_segment, sack_loop, no_block, data_in_high_segment, data_in_send_ack, data_in,
}
use picotcp.Seq.Window.{seq_compare-off}
use picotcp.Tcp.Insertion.{insert-Held}
use picotcp.Tcp.Layout.{Keeps}
use picotcp.Tcp.Synced.{
  Stored, NoPlace, lt_or_ge, Synced, Arrived, New, segment_of, with_queue, put_in, enqueued-Arrived,
  expected_added,
}

module _ (base : ℕ) (stream : ℕ → ℕ) where
  -- What keeps the bytes of a frame out of the queue: there is no memory or no room, the frame comes
  -- before `rcv_nxt`, or it comes behind it and there are no selective acknowledgements.
  abbrev pub KeptOut : Bool → Bool → Receiver → InFrame → Type 0
  KeptOut alloc node_alloc t f =
      (alloc ≡ false)
      ⊎ (NoPlace base stream node_alloc t f
          ⊎ ((off base f.seq < off base t.rcv_nxt)
              ⊎ ((off base t.rcv_nxt < off base f.seq) × (t.sack_ok ≡ false))))

  module _ (R : Type 0) (t : Receiver) (f : InFrame) (xs : List Segment) where
    if-Arrived :
        (c : Bool) (a b : Receiver × ℤ)
        → (c ≡ true → Arrived base stream R t f xs a.0)
        → (c ≡ false → Arrived base stream R t f xs b.0)
        → Arrived base stream R t f xs (if c then a else b).0
    if-Arrived true a b h k = h refl
    if-Arrived false a b h k = k refl

    unchanged : Synced base stream t xs → R → Arrived base stream R t f xs t
    unchanged v r = (xs, v, (λ i m h. h), inr r)

    requeued :
        (q : TcpQueue Segment)
        → Synced base stream t xs
        → Holds input base q xs
        → R
        → Arrived base stream R t f xs (record t { tcpq_in = q })
    requeued q v h r = (xs, with_queue base stream t q xs v h, (λ i m b. b), inr r)

    Same-Arrived :
        (s s' : Receiver)
        → Same s s'
        → Arrived base stream R t f xs s
        → Arrived base stream R t f xs s'
    Same-Arrived s s' (q, p, n) (ys, v, k, w) = (
      ys,
      record {
        valid = record {
          holds = subst (λ z. Holds input base z ys) (sym q) v.valid.holds;
          processed = subst (InWindow base) (sym p) v.valid.processed;
          pending = subst (λ z. Pending base stream (off base z) ys) (sym p) v.valid.pending;
        };
        next = subst (InWindow base) (sym n) v.next;
        ahead = rw (p, n) v.ahead;
        covers = rw (p, n) v.covers;
      },
      k,
      rw n w,
    )

  -- The segment of a frame with a payload.
  segment_from_frame-some :
      (f : InFrame)
      → 0 < length f.payload
      → segment_from_frame true f ≡ some (segment_of base stream f)
  segment_from_frame-some f h = ground (arith, h)

  segment_from_frame-none : (f : InFrame) → segment_from_frame false f ≡ none
  segment_from_frame-none f = ground arith

  -- What the comparison of the numbers says about their places.
  before_next :
      (a b : ℕ)
      → base < 4294967296
      → InWindow base a
      → InWindow base b
      → not_later (seq_compare a b) ≡ true
      → is_zero (seq_compare a b) ≡ false
      → off base a < off base b
  before_next a b l v w y z = elim (seq_compare-off base a b l v.word w.word v.near w.near) [
    | inl (m, e) ↦ ground (arith, e, m, y, z)
    | inr (m, e) ↦ m
  ]

  behind_next :
      (a b : ℕ)
      → base < 4294967296
      → InWindow base a
      → InWindow base b
      → not_later (seq_compare a b) ≡ false
      → off base b < off base a
  behind_next a b l v w y = elim (seq_compare-off base a b l v.word w.word v.near w.near) [
    | inl (m, e) ↦ ground (arith, e, m, y)
    | inr (m, e) ↦ ground (arith, e, m, y)
  ]

  -- The blocks for the peer leave the data alone.
  sack_prepare-Same : (alloc : Bool) (t : Receiver) → Same t (sack_prepare alloc t)
  unfolding sack_prepare
  sack_prepare-Same alloc t = by_sacks t.sacks
    where
      by_sacks :
          (bs : List (ℕ × ℕ))
          → Same t (elim bs as (λ _. Receiver) [
            | [] ↦ record t {
              sacks =
                  sack_loop alloc
                    (suc t.tcpq_in.frames)
                    t.tcpq_in
                    t.rcv_nxt
                    no_block
                    (first_segment input t.tcpq_in);
            }
            | b ∷ bs ↦ t
          ])
      by_sacks [] = (refl, refl, refl)
      by_sacks (b ∷ bs) = (refl, refl, refl)

  data_in_send_ack-Same :
      (net_alloc : Bool) (t : Receiver) (f : InFrame) → Same t (data_in_send_ack net_alloc t f)
  data_in_send_ack-Same net_alloc t f =
      let s = t.state / 256 % 256 in
      if-Same t (send_ack net_alloc 2 t) t
        (not (s == 6) && (not (s == 3) && (not (s == 4) && f.flags / 4 % 2 == 0)))
        (send_ack-Same net_alloc 2 t) (refl, refl, refl)

  module _ (l : base < 4294967296) (alloc node_alloc : Bool) (t : Receiver) (f : InFrame)
      (xs : List Segment) (v : Synced base stream t xs)
      (w : New base stream t xs (segment_of base stream f)) where
    abbrev Reason : Type 0
    Reason = KeptOut alloc node_alloc t f

    abbrev Result : Receiver → Type 0
    Result t' = Arrived base stream Reason t f xs t'

    data_in_expected-Arrived :
        not_later (seq_compare f.seq t.rcv_nxt) ≡ true
        → Result (data_in_expected alloc node_alloc t f).0
    unfolding data_in_expected
    data_in_expected-Arrived y = elim (Bool-cases (is_zero (seq_compare f.seq t.rcv_nxt))) [
      | inr e ↦ rw e (
          unchanged Reason t f xs v
            (inr (inr (inl (before_next f.seq t.rcv_nxt l w.0.here v.next y e)))))
      | inl e ↦ rw e (by_alloc alloc refl (is_zero-off base f.seq t.rcv_nxt l w.0.here v.next e))
    ]
      where
        by_alloc :
            (b : Bool)
            → alloc ≡ b
            → off base f.seq ≡ off base t.rcv_nxt
            → Result (expected_segment node_alloc t f (segment_from_frame b f)).0
        by_alloc false a at = rw (segment_from_frame-none f) (unchanged Reason t f xs v (inl a))
        by_alloc true a at = rw (segment_from_frame-some f w.0.filled.0) (
            enqueued-Arrived base stream l node_alloc Reason t f xs (expected_enqueued t f) v w
              (λ q r e h n. rw e (requeued Reason t f xs q v h (inr (inl n))))
              (λ q r e h. expected_added base stream l t f xs q r Reason v w at e h))

    data_in_high_segment-Arrived :
        not_later (seq_compare f.seq t.rcv_nxt) ≡ false
        → Result (data_in_high_segment alloc node_alloc t f).0
    unfolding data_in_high_segment
    data_in_high_segment-Arrived y =
        if-Arrived Reason t f xs t.sack_ok
          (high_segment alloc node_alloc t (segment_from_frame alloc f)) (t, pos 0)
          (λ e. by_alloc alloc alloc refl)
          (λ e. unchanged Reason t f xs v (inr (inr (inr (ahead, e)))))
      where
        ahead : off base t.rcv_nxt < off base f.seq
        ahead = behind_next f.seq t.rcv_nxt l w.0.here v.next y

        by_alloc :
            (b block_alloc : Bool)
            → alloc ≡ b
            → Result (high_segment block_alloc node_alloc t (segment_from_frame b f)).0
        by_alloc false block_alloc x =
            rw (segment_from_frame-none f) (unchanged Reason t f xs v (inl x))
        by_alloc true block_alloc x =
            let a = segment_of base stream f in
            rw (segment_from_frame-some f w.0.filled.0) (
              enqueued-Arrived base stream l node_alloc Reason t f xs (high_enqueued block_alloc t)
                v w (λ q r e h n. rw e (requeued Reason t f xs q v h (inr (inl n))))
                (λ q r e h.
                  let ys = insert_key (by_offset input base) a xs in
                  let t' = record t { tcpq_in = q } in
                  rw e (
                    Same-Arrived Reason t f xs t' (sack_prepare block_alloc t')
                      (sack_prepare-Same block_alloc t')
                      (
                        ys,
                        put_in base stream t q xs a v w h,
                        insert-Keeps base stream 0 a xs,
                        inl (insert-Held base stream a xs, inl (λ z. omega (arith, z, ahead))),
                      ))))

  pub data_in-Keeps :
      (alloc node_alloc net_alloc : Bool) (t : Receiver) (f : InFrame) (xs : List Segment)
      → base < 4294967296
      → Synced base stream t xs
      → New base stream t xs (segment_of base stream f)
      → let t' = (data_in alloc node_alloc net_alloc t f).0 in
        (ys : List Segment) × Synced base stream t' ys
        × Keeps base stream 0 xs ys
        × (Stored base stream t f ys t' ⊎ KeptOut alloc node_alloc t f)
  unfolding data_in
  data_in-Keeps alloc node_alloc net_alloc t f xs l v w =
      let r =
        if not_later (seq_compare f.seq t.rcv_nxt)
        then data_in_expected alloc node_alloc t f
        else data_in_high_segment alloc node_alloc t f in
      let reason = KeptOut alloc node_alloc t f in
      Same-Arrived reason t f xs r.0 (data_in_send_ack net_alloc r.0 f)
        (data_in_send_ack-Same net_alloc r.0 f)
        (if-Arrived reason t f xs (not_later (seq_compare f.seq t.rcv_nxt))
          (data_in_expected alloc node_alloc t f) (data_in_high_segment alloc node_alloc t f)
          (data_in_expected-Arrived l alloc node_alloc t f xs v w)
          (data_in_high_segment-Arrived l alloc node_alloc t f xs v w))

  -- Acknowledged bytes that are in the queue are read: pico_tcp_read of no more bytes than lie between what has
  -- been handed out and `rcv_nxt`, with fuel for one round more than that, returns all of them.
  pub Synced-tcp_read :
      (net_alloc : Bool) (fuel : ℕ) (t : Receiver) (xs : List Segment) (len : ℕ)
      → base < 4294967296
      → Synced base stream t xs
      → off base t.rcv_processed + len ≤ off base t.rcv_nxt
      → len < fuel
      → (t' : Receiver) × (tcp_read net_alloc fuel t len
          ≡ returned t' (chunk stream (off base t.rcv_processed) len))
  Synced-tcp_read net_alloc fuel t xs len l v m b =
      let (t', bytes, ys, e, a, c, g, h, w, k) =
        tcp_read_in_order base stream net_alloc fuel t xs len l v.valid
          (omega (arith, m, v.next.near)) b in
      let n : length bytes ≡ len = elim h [
        | inl x ↦ x
        | inr x ↦ elim (lt_or_ge (length bytes) len) [
          | inr y ↦ omega (arith, a, y)
          | inl y ↦
              let i = off base t'.rcv_processed in
              absurd (
                From-Held base stream i ys x
                  (k i (omega arith) (v.covers i (omega (arith, g)) (omega (arith, g, y, m)))))
        ]
      ] in
      (t', e ∙ ap (returned t') (c ∙ ap (chunk stream (off base t.rcv_processed)) n))
