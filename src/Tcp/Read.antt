-- ===== src/Tcp/Read.antt =====
-- pico_tcp_read of modules/pico_tcp.c hands out the peer's stream of bytes, each byte once and in
-- order, as long as the segments of the input queue do not overlap.
use picotcp.Base.{
  ℕ, zero, suc, ◌+◌, ◌<◌, ◌≤◌, ◌≡◌, refl, sym, ap, ◌∙◌, subst, Bool, false, List, [], ◌++◌, arith,
  ◌⊎◌, inl, inr, length, ltb, length-append, ap₂, lt→ltb, u32,
}
use picotcp.Seq.Window.{off}
use picotcp.Tree.Search.{All}
use picotcp.Tcp.{Segment, input}
use picotcp.Tcp.Order.{InWindow}
use picotcp.Tcp.Segments.{Holds}
use picotcp.Tcp.Layout.{chunk, length-chunk, chunk-append, start, Pending, Keeps, Keeps-trans}
use picotcp.Tcp.Finish.{read_finish-Same}
use picotcp.Tcp.Input.{
  Receiver, ReadRound, ended, copied, overrun, read_round, Reading, returned, overran, unfinished,
  before, read_finish, read_loop, tcp_read,
}
use picotcp.Tcp.Round.{Valid, Rounded, read_round-Rounded}

lt_or_eq : (a b : ℕ) → a ≤ b → (a < b) ⊎ (a ≡ b)
lt_or_eq a b h = ground (arith, h)

-- What the loop does with the end of a round.
abbrev pub continue : Bool → ℕ → ℕ → ℕ → ReadRound → Reading
continue net_alloc fuel len tot (ended t') = returned (read_finish net_alloc t') []
continue net_alloc fuel len tot (copied t' bytes) =
    before bytes (read_loop net_alloc fuel t' len (u32 (tot + length bytes)))
continue net_alloc fuel len tot overrun = overran

pub read_loop-suc :
    (net_alloc : Bool) (fuel : ℕ) (t : Receiver) (len tot : ℕ)
    → tot < len
    → read_loop net_alloc (suc fuel) t len tot
      ≡ continue net_alloc fuel len tot (read_round t len tot)
unfolding read_loop
read_loop-suc net_alloc fuel t len tot a =
    rw (lt→ltb tot len a, read_loop) (by_round (read_round t len tot))
  where
    by_round :
        (r : ReadRound)
        → elim r as (λ _. Reading) [
          | ended t' ↦ returned (read_finish net_alloc t') []
          | overrun ↦ overran
          | copied t' bytes ↦
              before bytes (read_loop net_alloc fuel t' len (u32 (tot + length bytes)))
        ]
          ≡ continue net_alloc fuel len tot r
    by_round (ended t') = refl
    by_round overrun = refl
    by_round (copied t' bytes) = refl

read_loop-end :
    (net_alloc : Bool) (fuel : ℕ) (t : Receiver) (len tot : ℕ)
    → len ≤ tot
    → read_loop net_alloc (suc fuel) t len tot ≡ returned (read_finish net_alloc t) []
unfolding read_loop
read_loop-end net_alloc fuel t len tot a =
    let e : ltb tot len ≡ false = ground (arith, a) in rw (e, read_loop) refl

module _ (base : ℕ) (stream : ℕ → ℕ) where
  -- pico_tcp_read with `tot` bytes in the buffer already.
  abbrev Returned : ℕ → ℕ → ℕ → List Segment → Reading → Type 0
  Returned p len tot xs (returned t' bytes) =
      (ys : List Segment) × Valid base stream t' ys
      × (tot + length bytes ≤ len)
      × (bytes ≡ chunk stream (off base p) (length bytes))
      × (off base t'.rcv_processed ≡ off base p + length bytes)
      × ((tot + length bytes ≡ len)
          ⊎ All (λ (s : Segment). off base t'.rcv_processed < start base stream s) ys)
      × Keeps base stream (off base t'.rcv_processed) xs ys
  Returned p len tot xs overran = ⊥
  Returned p len tot xs unfinished = ⊥

  finish-Valid :
      (net_alloc : Bool) (t : Receiver) (xs : List Segment)
      → Valid base stream t xs
      → Valid base stream (read_finish net_alloc t) xs
  finish-Valid net_alloc t xs v =
      let (q, p, n) = read_finish-Same net_alloc t in
      record {
        holds = subst (λ z. Holds input base z xs) (sym q) v.holds;
        processed = subst (InWindow base) (sym p) v.processed;
        pending = subst (λ z. Pending base stream (off base z) xs) (sym p) v.pending;
      }

  before-Returned :
      (p p' len tot n : ℕ) (xs ys : List Segment) (bytes : List ℕ) (r : Reading)
      → bytes ≡ chunk stream (off base p) n
      → off base p' ≡ off base p + n
      → Keeps base stream (off base p + n) xs ys
      → Returned p' len (tot + n) ys r
      → Returned p len tot xs (before bytes r)
  before-Returned p p' len tot n xs ys bytes (returned t' rest) e f b (zs, v, m, c, g, h, z) =
      let k : length bytes ≡ n = ap length e ∙ length-chunk stream (off base p) n in
      let w : length (bytes ++ rest) ≡ n + length rest =
        length-append bytes rest ∙ ap (λ i. i + length rest) k in
      (
        zs,
        v,
        omega (arith, w, m),
        ap₂ (λ (a b : List ℕ). a ++ b) e (c ∙ ap (λ i. chunk stream i (length rest)) f)
            ∙ sym (chunk-append stream (off base p) n (length rest))
            ∙ ap (chunk stream (off base p)) (sym w),
        omega (arith, w, g, f),
        elim h [ inl a ↦ inl (omega (arith, w, a)) | inr a ↦ inr a ],
        Keeps-trans base stream (off base p + n) (off base t'.rcv_processed) xs ys zs
            (omega (arith, f, g)) b z,
      )
  before-Returned p p' len tot n xs ys bytes overran e f b h = absurd h
  before-Returned p p' len tot n xs ys bytes unfinished e f b h = absurd h

  -- Nothing has been read, and the socket is as it was but for its window and events.
  finished :
      (net_alloc : Bool) (p : ℕ) (t : Receiver) (xs ys : List Segment) (len tot : ℕ)
      → Valid base stream t ys
      → t.rcv_processed ≡ p
      → tot ≤ len
      → ((tot ≡ len) ⊎ All (λ (s : Segment). off base p < start base stream s) ys)
      → Keeps base stream (off base p) xs ys
      → Returned p len tot xs (returned (read_finish net_alloc t) [])
  finished net_alloc p t xs ys len tot v e a h k =
      let same = (read_finish-Same net_alloc t).1 ∙ e in
      (
        ys,
        finish-Valid net_alloc t ys v,
        omega (arith, a),
        refl,
        ap (off base) same ∙ omega arith,
        elim h [
          | inl z ↦ inl (omega (arith, z))
          | inr z ↦
              inr (
                subst (λ n. All (λ (s : Segment). off base n < start base stream s) ys) (sym same)
                  z)
        ],
        subst (λ n. Keeps base stream (off base n) xs ys) (sym same) k,
      )

  continue-Returned :
      (net_alloc : Bool) (fuel : ℕ) (p len tot : ℕ) (xs : List Segment) (r : ReadRound)
      → tot ≤ len
      → len < 2147483648
      → Rounded base stream p len tot xs r
      → ((t : Receiver) (ys : List Segment) (n : ℕ)
          → Valid base stream t ys
          → 0 < n
          → tot + n ≤ len
          → Returned t.rcv_processed len (tot + n) ys (read_loop net_alloc fuel t len (tot + n)))
      → Returned p len tot xs (continue net_alloc fuel len tot r)
  continue-Returned net_alloc fuel p len tot xs (ended t') b a (ys, w, h, e, k) ih =
      finished net_alloc p t' xs ys len tot w e b (inr h) k
  continue-Returned net_alloc fuel p len tot xs (copied t' bytes) b a (n, z, m, e, (ys, w, f, x))
        ih =
      let k : length bytes ≡ n = ap length e ∙ length-chunk stream (off base p) n in
      let sum : u32 (tot + length bytes) ≡ tot + n = omega (arith, k, m, a) in
      before-Returned p t'.rcv_processed len tot n xs ys bytes
        (read_loop net_alloc fuel t' len (u32 (tot + length bytes))) e f x
        (subst (λ i. Returned t'.rcv_processed len (tot + n) ys (read_loop net_alloc fuel t' len i))
          (sym sum) (ih t' ys n w z m))
  continue-Returned net_alloc fuel p len tot xs overrun b a h ih = absurd h

  read_loop-Returned :
      (l : base < 4294967296) (net_alloc : Bool) (fuel : ℕ) (t : Receiver) (xs : List Segment)
      (len tot : ℕ)
      → Valid base stream t xs
      → len < 2147483648
      → tot ≤ len
      → len < tot + fuel
      → Returned t.rcv_processed len tot xs (read_loop net_alloc fuel t len tot)
  read_loop-Returned l net_alloc zero t xs len tot v a b c = absurd (omega (arith, b, c))
  read_loop-Returned l net_alloc (suc fuel) t xs len tot v a b c = elim (lt_or_eq tot len b) [
    | inr e ↦
        rw (read_loop-end net_alloc fuel t len tot (omega (arith, e)))
          (finished net_alloc t.rcv_processed t xs xs len tot v refl b (inl e) (λ i m h. h))
    | inl d ↦ rw (read_loop-suc net_alloc fuel t len tot d) (
        continue-Returned net_alloc fuel t.rcv_processed len tot xs (read_round t len tot) b a
          (read_round-Rounded base stream l t len tot xs d a v)
          (λ t' ys n w z m.
            read_loop-Returned l net_alloc fuel t' ys len (tot + n) w a m (omega (arith, c, z))))
  ]

  -- pico_tcp_read of less than 2 ^ 31 bytes, on a socket whose input queue holds segments of the
  -- stream that do not overlap, with fuel for one round more than there are bytes: it returns, and
  -- never copies from outside of a payload; the bytes are the next ones of the stream, no more than
  -- are asked for, and `rcv_processed` advances by their number; if they are fewer than asked for, no
  -- segment has the next byte of the stream; the queue is in order again, and has all the bytes that
  -- it had and that have not been handed out.
  pub tcp_read_in_order :
      (net_alloc : Bool) (fuel : ℕ) (t : Receiver) (xs : List Segment) (len : ℕ)
      → base < 4294967296
      → Valid base stream t xs
      → len < 2147483648
      → len < fuel
      → (t' : Receiver) × (bytes : List ℕ) × (ys : List Segment) × (tcp_read net_alloc fuel t len
          ≡ returned t' bytes)
        × (length bytes ≤ len)
        × (bytes ≡ chunk stream (off base t.rcv_processed) (length bytes))
        × (off base t'.rcv_processed ≡ off base t.rcv_processed + length bytes)
        × ((length bytes ≡ len)
            ⊎ All (λ (s : Segment). off base t'.rcv_processed < start base stream s) ys)
        × Valid base stream t' ys
        × Keeps base stream (off base t'.rcv_processed) xs ys
  unfolding tcp_read
  tcp_read_in_order net_alloc fuel t xs len l v a b =
      by_result (read_loop net_alloc fuel t len 0) refl
        (read_loop-Returned l net_alloc fuel t xs len 0 v a (omega arith) (omega (arith, b)))
    where
      by_result :
          (r : Reading)
          → read_loop net_alloc fuel t len 0 ≡ r
          → Returned t.rcv_processed len 0 xs r
          → (t' : Receiver) × (bytes : List ℕ) × (ys : List Segment) × (read_loop net_alloc fuel t
                len 0
              ≡ returned t' bytes)
            × (length bytes ≤ len)
            × (bytes ≡ chunk stream (off base t.rcv_processed) (length bytes))
            × (off base t'.rcv_processed ≡ off base t.rcv_processed + length bytes)
            × ((length bytes ≡ len)
                ⊎ All (λ (s : Segment). off base t'.rcv_processed < start base stream s) ys)
            × Valid base stream t' ys
            × Keeps base stream (off base t'.rcv_processed) xs ys
      by_result (returned t' bytes) e (ys, w, m, c, g, h, k) = (
        t',
        bytes,
        ys,
        e,
        omega (arith, m),
        c,
        g,
        elim h [ inl x ↦ inl (omega (arith, x)) | inr x ↦ inr x ],
        w,
        k,
      )
      by_result overran e h = absurd h
      by_result unfinished e h = absurd h
