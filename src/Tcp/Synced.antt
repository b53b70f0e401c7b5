-- ===== src/Tcp/Synced.antt =====
-- What the socket has acknowledged stays in its input queue when a segment is added to it:
-- tcp_data_in_expected of modules/pico_tcp.c, and the loop that takes `rcv_nxt` over the segments
-- that follow.
use picotcp.Base.{
  ℕ, zero, suc, ◌+◌, ◌<◌, ◌≤◌, ◌≡◌, ◌⊎◌, inl, inr, refl, sym, ◌∙◌, Bool, true, false, ◌≢◌, Option,
  none, some, List, [], ◌∷◌, arith, length, u32, ℤ, pos,
}
use picotcp.Seq.Window.{off, off-u32}
use picotcp.Tree.Order.{search_key, insert_key}
use picotcp.Tree.Search.{All}
use picotcp.Tcp.{Segment, input, TcpQueue, not_later, peek_segment, enqueue_segment}
use picotcp.Tcp.Order.{InWindow, by_offset}
use picotcp.Tcp.Segments.{Filled, Holds, peek_segment-Holds}
use picotcp.Tcp.Queues.{enqueue_segment_refines}
use picotcp.Tcp.Layout.{start, stop, Fits, Laid, Pending, Held, Keeps}
use picotcp.Tcp.Release.{found_at}
use picotcp.Tcp.Insertion.{Apart, insert-Pending, insert-Keeps, insert-Held}
use picotcp.Tcp.Input.{Receiver}
use picotcp.Tcp.Round.{Valid}
use picotcp.Tcp.Receive.{InFrame, scroll, expected_enqueued}

pub lt_or_ge : (a b : ℕ) → (a < b) ⊎ (b ≤ a)
lt_or_ge a b = ground arith

module _ (base : ℕ) (stream : ℕ → ℕ) where
  -- The segments have all bytes from one place up to another.
  abbrev pub Covers : ℕ → ℕ → List Segment → Type 0
  Covers p n xs = (i : ℕ) → p ≤ i → i < n → Held base stream i xs

  -- All that has been acknowledged and not handed out is there.
  pub record Synced (t : Receiver) (xs : List Segment) : Type 0 where
    pub valid : Valid base stream t xs
    pub next : InWindow base t.rcv_nxt
    pub ahead : off base t.rcv_processed ≤ off base t.rcv_nxt
    pub covers : Covers (off base t.rcv_processed) (off base t.rcv_nxt) xs

  abbrev Member : List Segment → Segment → Type 0
  Member xs z =
      Fits base stream z
      × ((i : ℕ) → start base stream z ≤ i → i < stop base stream z → Held base stream i xs)

  Laid-Member :
      (lo : ℕ) (xs ys : List Segment)
      → Laid base stream lo ys
      → ((i : ℕ) → Held base stream i ys → Held base stream i xs)
      → All (Member xs) ys
  Laid-Member lo xs [] h k = tt
  Laid-Member lo xs (s ∷ ss) (m, f, d) k = (
    (f, λ i a b. k i (inl (a, b))),
    Laid-Member (stop base stream s) xs ss d (λ i h. k i (inr h)),
  )

  Pending-Member : (p : ℕ) (xs : List Segment) → Pending base stream p xs → All (Member xs) xs
  Pending-Member p [] h = tt
  Pending-Member p (s ∷ ss) (f, d, g) =
      ((f, λ i a b. inl (a, b)), Laid-Member (stop base stream s) (s ∷ ss) ss d (λ i h. inr h))

  abbrev Scrolled : ℕ → ℕ → List Segment → ℕ → Type 0
  Scrolled p n xs n' = InWindow base n' × (off base n ≤ off base n') × Covers p (off base n') xs

  -- The loop over the segments that follow goes over bytes that are there.
  scroll-Scrolled :
      (l : base < 4294967296) (fuel p : ℕ) (q : TcpQueue Segment) (xs : List Segment) (n : ℕ)
      (o : Option Segment)
      → Holds input base q xs
      → All (Member xs) xs
      → InWindow base n
      → Covers p (off base n) xs
      → peek_segment input q n ≡ o
      → Scrolled p n xs (scroll fuel q n o)
  unfolding scroll
  scroll-Scrolled l zero p q xs n o v a w c e = (w, omega arith, c)
  scroll-Scrolled l (suc fuel) p q xs n none v a w c e = (w, omega arith, c)
  scroll-Scrolled l (suc fuel) p q xs n (some z) v a w c e =
      let ((f, g), at) =
        found_at (Member xs) base (input.at n) z xs a
          (sym (peek_segment-Holds input base l q xs v n refl w) ∙ e) in
      let n' = u32 (n + length z.payload) in
      let m : off base n' ≡ off base n + length z.payload =
        off-u32 base n (length z.payload) l w.word (omega (arith, f.ends, at)) in
      let w' : InWindow base n' = record {
        word = omega arith;
        near = omega (arith, m, f.ends, at);
      } in
      let c' : Covers p (off base n') xs = λ i x y. elim (lt_or_ge i (off base n)) [
        | inl b ↦ c i x b
        | inr b ↦ g i (omega (arith, b, at)) (omega (arith, y, m, at))
      ] in
      let (w'', k, d) = scroll-Scrolled l fuel p q xs n' (peek_segment input q n') v a w' c' refl in
      (w'', omega (arith, k, m), d)

  -- The socket with another tree for the same segments.
  pub with_queue :
      (t : Receiver) (q : TcpQueue Segment) (xs : List Segment)
      → Synced t xs
      → Holds input base q xs
      → Synced (record t { tcpq_in = q }) xs
  with_queue t q xs v h = record {
    valid = record { holds = h; processed = v.valid.processed; pending = v.valid.pending };
    next = v.next;
    ahead = v.ahead;
    covers = v.covers;
  }

  abbrev pub segment_of : InFrame → Segment
  segment_of f = record { seq = f.seq; payload = f.payload }

  -- All bytes of a frame are in the queue, and acknowledged if it has the number that was expected.
  abbrev pub Stored : Receiver → InFrame → List Segment → Receiver → Type 0
  Stored t f ys t' =
      ((i : ℕ) → off base f.seq ≤ i → i < off base f.seq + length f.payload → Held base stream i ys)
      × ((off base f.seq ≢ off base t.rcv_nxt)
          ⊎ (off base f.seq + length f.payload ≤ off base t'.rcv_nxt))

  -- What comes of a frame that arrives: nothing that has been there is lost, and the frame is stored,
  -- or there is a reason why not.
  abbrev pub Arrived : Type 0 → Receiver → InFrame → List Segment → Receiver → Type 0
  Arrived R t f xs t' =
      (ys : List Segment) × Synced t' ys × Keeps base stream 0 xs ys × (Stored t f ys t' ⊎ R)

  -- No memory for the node of the tree, or no room in the queue.
  abbrev pub NoPlace : Bool → Receiver → InFrame → Type 0
  NoPlace node_alloc t f =
      (node_alloc ≡ false) ⊎ (t.tcpq_in.max_size < t.tcpq_in.size + length f.payload)

  -- A segment behind what has been handed out that overlaps no other one.
  abbrev pub New : Receiver → List Segment → Segment → Type 0
  New t xs a =
      Fits base stream a
      × (off base t.rcv_processed ≤ start base stream a)
      × All (Apart base stream a) xs

  pub put_in :
      (t : Receiver) (q : TcpQueue Segment) (xs : List Segment) (a : Segment)
      → Synced t xs
      → New t xs a
      → Holds input base q (insert_key (by_offset input base) a xs)
      → Synced (record t { tcpq_in = q }) (insert_key (by_offset input base) a xs)
  put_in t q xs a v (f, m, c) h = record {
    valid = record {
      holds = h;
      processed = v.valid.processed;
      pending = insert-Pending base stream (off base t.rcv_processed) a xs v.valid.pending m f c;
    };
    next = v.next;
    ahead = v.ahead;
    covers = λ i x y. insert-Keeps base stream 0 a xs i (omega arith) (v.covers i x y);
  }

  absent :
      (a : Segment) (xs : List Segment)
      → 0 < length a.payload
      → All (Filled input base) xs
      → All (Apart base stream a) xs
      → (o : Option Segment) → search_key (by_offset input base) a xs ≡ o
      → o ≡ none
  absent a xs n h c none e = refl
  absent a xs n h c (some z) e = absurd (
      omega (
        arith,
        n,
        (found_at (Filled input base) base a z xs h e).0.0,
        found_at (Apart base stream a) base a z xs c e,
      ))

  -- The way of a segment into the queue, for a function that goes on with what
  -- pico_enqueue_segment answers.
  pub enqueued-Arrived :
      (l : base < 4294967296) (node_alloc : Bool) (R : Type 0) (t : Receiver) (f : InFrame)
      (xs : List Segment) (g : TcpQueue Segment × ℤ → Receiver × ℤ)
      → Synced t xs
      → New t xs (segment_of f)
      → ((q : TcpQueue Segment) (r : ℤ)
          → not_later r ≡ true
          → Holds input base q xs
          → NoPlace node_alloc t f
          → Arrived R t f xs (g (q, r)).0)
      → ((q : TcpQueue Segment) (r : ℤ)
          → not_later r ≡ false
          → Holds input base q (insert_key (by_offset input base) (segment_of f) xs)
          → Arrived R t f xs (g (q, r)).0)
      → Arrived R t f xs (g (enqueue_segment input node_alloc t.tcpq_in (segment_of f))).0
  enqueued-Arrived l node_alloc R t f xs g v (fit, m, c) refused added =
      let a = segment_of f in
      let new = absent a xs fit.filled.0 v.valid.holds.filled c _ refl in
      let (q, r) = enqueue_segment input node_alloc t.tcpq_in a in
      elim (enqueue_segment_refines input base node_alloc t.tcpq_in a xs l v.valid.holds fit.here
        fit.filled.1) [
          | inl (e, z, w) ↦ absurd (omega (arith, z, fit.filled.0))
          | inr (inl (e, (h, inl w))) ↦ refused q r (rw e refl) h (inr w)
          | inr (inl (e, (h, inr (inl w)))) ↦ refused q r (rw e refl) h (inl w)
          | inr (inl (e, (h, inr (inr w)))) ↦ absurd (w new)
          | inr (inr (e, z, (h, w, x, y))) ↦ added q r (later (length a.payload) z r e) h
        ]
    where
      later : (n : ℕ) → 0 < n → (r : ℤ) → r ≡ pos n → not_later r ≡ false
      later n z r e = rw e (ground (arith, z))

  -- What tcp_data_in_expected does with the queue that has the segment.
  pub expected_added :
      (l : base < 4294967296) (t : Receiver) (f : InFrame) (xs : List Segment)
      (q : TcpQueue Segment) (r : ℤ) (R : Type 0)
      → Synced t xs
      → New t xs (segment_of f)
      → off base f.seq ≡ off base t.rcv_nxt
      → not_later r ≡ false
      → Holds input base q (insert_key (by_offset input base) (segment_of f) xs)
      → Arrived R t f xs (expected_enqueued t f (q, r)).0
  expected_added l t f xs q r R v (fit, m, c) at p h =
      let s = segment_of f in
      let ys = insert_key (by_offset input base) s xs in
      let n = u32 (f.seq + length f.payload) in
      let e : off base n ≡ off base f.seq + length f.payload =
        off-u32 base f.seq (length f.payload) l fit.here.word (omega (arith, fit.ends)) in
      let w : InWindow base n = record { word = omega arith; near = omega (arith, e, fit.ends) } in
      let u = put_in t q xs s v (fit, m, c) h in
      let d : Covers (off base t.rcv_processed) (off base n) ys = λ i x y.
        elim (lt_or_ge i (off base t.rcv_nxt)) [
          | inl b ↦ u.covers i x b
          | inr b ↦ insert-Held base stream s xs i (omega (arith, b, at)) (omega (arith, y, e))
        ] in
      let (w', k, d') =
        scroll-Scrolled l (suc q.frames) (off base t.rcv_processed) q ys n (peek_segment input q n)
          h (Pending-Member (off base t.rcv_processed) ys u.valid.pending) w d refl in
      rw p (
        ys,
        record {
          valid = record { holds = h; processed = v.valid.processed; pending = u.valid.pending };
          next = w';
          ahead = omega (arith, v.ahead, k, e, at);
          covers = d';
        },
        insert-Keeps base stream 0 s xs,
        inl (insert-Held base stream s xs, inr (omega (arith, k, e))),
      )
