-- ===== src/Tcp/Round.antt =====
-- The loop of pico_tcp_read of modules/pico_tcp.c, round by round: which bytes of the peer's stream a
-- round copies, and what it leaves of the input queue.
use picotcp.Base.{
  ℕ, suc, ◌+◌, ◌-◌, ◌<◌, ◌≤◌, ◌≡◌, refl, sym, ap, ◌∙◌, subst, some, List, [], ◌∷◌, arith, inl, inr,
  length, ◌==◌, ◌||◌, Bool-cases, u32, take, drop,
}
use picotcp.Seq.{seq_compare}
use picotcp.Seq.Window.{off, off-u32, seq_compare-off}
use picotcp.Tree.Search.{All}
use picotcp.Tree.Walk.{head}
use picotcp.Tcp.{Segment, input, TcpQueue, discard_segment, release_until}
use picotcp.Tcp.Order.{InWindow}
use picotcp.Tcp.Segments.{Holds, first_segment-Holds, discard_segment-Holds}
use picotcp.Tcp.Layout.{
  chunk, part-chunk, start, stop, Fits, From-weaken, Laid-From, Laid-Pending, Pending, Fresh, Keeps,
  Keeps-drop, Keeps-trans,
}
use picotcp.Tcp.Release.{released, release_until-Holds, released-Pending, released-Keeps}
use picotcp.Tcp.Input.{
  Receiver, read_in_frame_len, bytes_at, ReadRound, ended, copied, overrun, segment_done, read_at,
  read_first, read_round,
}

module _ (base : ℕ) (stream : ℕ → ℕ) where
  -- The socket has handed out the stream up to `rcv_processed`, and its input queue holds the
  -- segments.
  pub record Valid (t : Receiver) (xs : List Segment) : Type 0 where
    pub holds : Holds input base t.tcpq_in xs
    pub processed : InWindow base t.rcv_processed
    pub pending : Pending base stream (off base t.rcv_processed) xs

  -- How many bytes a round copies, of a segment of `m` bytes from the offset `i` on.
  frame_len :
      (m i tot len : ℕ)
      → i < m
      → m < 65536
      → tot < len
      → len < 2147483648
      → (0 < read_in_frame_len m i tot len)
        × (i + read_in_frame_len m i tot len ≤ m)
        × (tot + read_in_frame_len m i tot len ≤ len)
  frame_len m i tot len a b c d = ground (arith, a, b, c, d)

  -- The bytes that are copied are the next ones of the stream.
  bytes_at-chunk :
      (s : Segment) (i n : ℕ)
      → Fits base stream s
      → i + n ≤ length s.payload
      → bytes_at s.payload i n ≡ some (chunk stream (start base stream s + i) n)
  bytes_at-chunk s i n f h = ground (
    arith,
    h,
    ap (λ (xs : List ℕ). take n (drop i xs)) f.bytes
        ∙ part-chunk stream (start base stream s) i (length s.payload) n h,
  )

  -- The two ways in which a round can end: nothing more is in order, or the next bytes are copied.
  abbrev Stuck : ℕ → List Segment → Receiver → Type 0
  Stuck p xs t' =
      (ys : List Segment) × Valid t' ys
      × All (λ (s : Segment). off base p < start base stream s) ys
      × (t'.rcv_processed ≡ p)
      × Keeps base stream (off base p) xs ys

  abbrev Moved : ℕ → ℕ → List Segment → Receiver → Type 0
  Moved p n xs t' =
      (ys : List Segment) × Valid t' ys
      × (off base t'.rcv_processed ≡ off base p + n)
      × Keeps base stream (off base p + n) xs ys

  abbrev pub Rounded : ℕ → ℕ → ℕ → List Segment → ReadRound → Type 0
  Rounded p len tot xs (ended t') = Stuck p xs t'
  Rounded p len tot xs (copied t' bytes) =
      (n : ℕ) × (0 < n) × (tot + n ≤ len) × (bytes ≡ chunk stream (off base p) n) × Moved p n xs t'
  Rounded p len tot xs overrun = ⊥

  Rounded-Keeps :
      (p len tot : ℕ) (xs ys : List Segment) (r : ReadRound)
      → Keeps base stream (off base p) xs ys
      → Rounded p len tot ys r
      → Rounded p len tot xs r
  Rounded-Keeps p len tot xs ys (ended t') k (zs, v, a, e, m) =
      (zs, v, a, e, Keeps-trans base stream (off base p) (off base p) xs ys zs (omega arith) k m)
  Rounded-Keeps p len tot xs ys (copied t' bytes) k (n, z, l, c, (zs, v, e, m)) = (
    n,
    z,
    l,
    c,
    (zs, v, e, Keeps-trans base stream (off base p) (off base p + n) xs ys zs (omega arith) k m),
  )
  Rounded-Keeps p len tot xs ys overrun k h = h

  -- The socket after it has handed out `n` more bytes.
  moved :
      (l : base < 4294967296) (t : Receiver) (q : TcpQueue Segment) (xs ys : List Segment) (n : ℕ)
      → InWindow base t.rcv_processed
      → off base t.rcv_processed + n < 2147483648
      → Holds input base q ys
      → Pending base stream (off base t.rcv_processed + n) ys
      → Keeps base stream (off base t.rcv_processed + n) xs ys
      → Moved t.rcv_processed n xs
          (record t { rcv_processed = u32 (t.rcv_processed + n); tcpq_in = q })
  moved l t q xs ys n w m v h k =
      let e = off-u32 base t.rcv_processed n l w.word (omega (arith, m)) in
      (
        ys,
        record {
          holds = v;
          processed = record { word = omega arith; near = omega (arith, e, m) };
          pending = subst (λ p. Pending base stream p ys) (sym e) h;
        },
        e,
        k,
      )

  -- A segment is discarded when it has been copied as a whole.
  segment_done-Valid :
      (l : base < 4294967296) (t : Receiver) (s : Segment) (ss : List Segment) (n : ℕ)
      → Valid t (s ∷ ss)
      → start base stream s ≤ off base t.rcv_processed
      → 0 < n
      → off base t.rcv_processed + n ≤ stop base stream s
      → Moved t.rcv_processed n (s ∷ ss) (record t {
        rcv_processed = u32 (t.rcv_processed + n);
        tcpq_in = segment_done t.tcpq_in s n;
      })
  segment_done-Valid l t s ss n v b z e =
      let (f, d, g) = v.pending in
      let p = off base t.rcv_processed + n in
      let m : p < 2147483648 = omega (arith, e, f.ends) in
      elim (Bool-cases ((n == 0) || (n == length s.payload))) [
        | inl c ↦
            let whole : n ≡ length s.payload = ground (arith, c, z) in
            rw c (
              moved l t (discard_segment input t.tcpq_in s) (s ∷ ss) ss n v.processed m
                (discard_segment-Holds input base l t.tcpq_in s ss v.holds)
                (Laid-Pending base stream (stop base stream s) p ss (omega (arith, whole, b, e))
                  d).0
                (Keeps-drop base stream p s ss (omega (arith, whole, b))))
        | inr c ↦ rw c (
            moved l t t.tcpq_in (s ∷ ss) (s ∷ ss) n v.processed m v.holds
              (
                f,
                d,
                From-weaken base stream p (stop base stream s) ss (omega (arith, e))
                    (Laid-From base stream (stop base stream s) ss d),
              )
              (λ i a h. h))
      ]

  -- The round at the first segment, whose bytes have not all been handed out.
  read_at-Rounded :
      (l : base < 4294967296) (t : Receiver) (len tot : ℕ) (s : Segment) (ss : List Segment)
      → tot < len
      → len < 2147483648
      → Valid t (s ∷ ss)
      → off base t.rcv_processed < stop base stream s
      → Rounded t.rcv_processed len tot
          (s ∷ ss)
          (read_at t len tot s (seq_compare t.rcv_processed s.seq))
  read_at-Rounded l t len tot s ss a b v g =
      let (f, d, h) = v.pending in
      elim (seq_compare-off base t.rcv_processed s.seq l v.processed.word f.here.word
        v.processed.near f.here.near) [
          | inl (c, e) ↦
              let i = off base t.rcv_processed - start base stream s in
              let n = read_in_frame_len (length s.payload) i tot len in
              let (x, y, z) =
                frame_len (length s.payload) i tot len (omega (arith, c, g)) f.filled.1 a b in
              let k : bytes_at s.payload i n ≡ some (chunk stream (off base t.rcv_processed) n) =
                bytes_at-chunk s i n f y ∙ ap (λ j. some (chunk stream j n)) (omega (arith, c)) in
              rw (e, k) (n, x, z, refl, segment_done-Valid l t s ss n v c x (omega (arith, c, y)))
          | inr (c, e) ↦ rw e (
            s ∷ ss,
            v,
            (
              c,
              From-weaken base stream (suc (off base t.rcv_processed)) (stop base stream s) ss
                  (omega (arith, g)) (Laid-From base stream (stop base stream s) ss d),
            ),
            refl,
            (λ i a h. h),
          )
        ]

  read_first-Rounded :
      (l : base < 4294967296) (t : Receiver) (len tot : ℕ) (ys : List Segment)
      → tot < len
      → len < 2147483648
      → Valid t ys
      → Fresh base stream (off base t.rcv_processed) ys
      → Rounded t.rcv_processed len tot ys (read_first t len tot (head ys))
  read_first-Rounded l t len tot [] a b v g = ([], v, tt, refl, (λ i a h. h))
  read_first-Rounded l t len tot (s ∷ ss) a b v g = read_at-Rounded l t len tot s ss a b v g

  pub read_round-Rounded :
      (l : base < 4294967296) (t : Receiver) (len tot : ℕ) (xs : List Segment)
      → tot < len
      → len < 2147483648
      → Valid t xs
      → Rounded t.rcv_processed len tot xs (read_round t len tot)
  unfolding read_round
  read_round-Rounded l t len tot xs a b v =
      let p = off base t.rcv_processed in
      let q = (release_until input (suc t.tcpq_in.frames) t.tcpq_in t.rcv_processed).0 in
      let ys = released base stream l p xs in
      let h : Holds input base q ys =
        release_until-Holds base stream l t.tcpq_in.frames t.rcv_processed xs t.tcpq_in v.processed
          v.holds v.pending in
      let (f, g) = released-Pending base stream l p xs v.pending in
      rw (first_segment-Holds input base l q ys h) (
        Rounded-Keeps t.rcv_processed len tot xs ys
          (read_first (record t { tcpq_in = q }) len tot (head ys))
          (released-Keeps base stream l p xs)
          (read_first-Rounded l (record t { tcpq_in = q }) len tot ys a b
            (record { holds = h; processed = v.processed; pending = f }) g))
