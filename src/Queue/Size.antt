-- ===== src/Queue/Size.antt =====
-- The byte counter of the queue of include/pico_queue.h.
use picotcp.Base.{ℕ, ◌+◌, ◌*◌, ◌<◌, ◌≤◌, ◌≡◌, ◌≢◌, false, List, [], ◌∷◌, ◌++◌, arith}
use picotcp.Queue.Fifo.{Holds}
use picotcp.Queue.{Heap, Queue, is_full, link, enqueue, dequeue}

abbrev pub total : (ℕ → ℕ) → List ℕ → ℕ
total len [] = 0
total len (f ∷ fs) = len f + total len fs

-- In a queue that does not run empty, whose limits and counters do not stand in the way and whose
-- first frame is no shorter than the overhead, a frame that comes and one that goes move the
-- counter by their lengths, and by twice the overhead: pico_enqueue adds it, and pico_dequeue adds
-- it again.
pub overhead_drifts :
    (h : Heap) (q : Queue) (p : ℕ)
    → is_full h q p ≡ false
    → q.head ≢ 0
    → 0 < q.frames
    → q.frames + 1 < 4294967296
    → q.size + h.buffer_len p + q.overhead < 4294967296
    → h.buffer_len q.head ≤ q.size
    → q.overhead ≤ h.buffer_len q.head
    → let (h', q', r) = enqueue h q p in
      let (h'', q'', f) = dequeue h' q' in
      (f ≡ q.head) × (q''.size + h.buffer_len f ≡ q.size + h.buffer_len p + 2 * q.overhead)
unfolding enqueue dequeue link
overhead_drifts h q p e z n m s l o = ground (arith, e, z, n, m, s, l, o)

total-append : (len : ℕ → ℕ) (fs : List ℕ) (p : ℕ) → total len (fs ++ p ∷ []) ≡ total len fs + len p
total-append len [] p = omega arith
total-append len (f ∷ fs) p = omega (arith, total-append len fs p)

-- The counter is the number of bytes in the buffers.
abbrev pub Exact : Heap → Queue → List ℕ → Type 0
Exact h q fs = (q.overhead ≡ 0) × (q.size ≡ total h.buffer_len fs)

-- Without an overhead, a queue that counts the bytes of its frames goes on to do so when a frame is
-- accepted, as long as the sum does not wrap.
pub enqueue-Exact :
    (h : Heap) (q : Queue) (p : ℕ) (fs : List ℕ)
    → Holds h q fs
    → Exact h q fs
    → is_full h q p ≡ false
    → total h.buffer_len fs + h.buffer_len p < 4294967296
    → Exact (enqueue h q p).0 (enqueue h q p).1 (fs ++ p ∷ [])
unfolding enqueue link
enqueue-Exact h q p [] v x e l = ground (arith, v.chain, x, e, l)
enqueue-Exact h q p (f ∷ fs) v x e l =
    ground (arith, v.chain.0, v.chain.1, x, e, l, total-append h.buffer_len fs p)

-- Without an overhead, a queue that counts the bytes of its frames goes on to do so when the first
-- frame is taken out, as long as the sum does not wrap.
pub dequeue-Exact :
    (h : Heap) (q : Queue) (f : ℕ) (fs : List ℕ)
    → Holds h q (f ∷ fs)
    → Exact h q (f ∷ fs)
    → total h.buffer_len (f ∷ fs) < 4294967296
    → Exact (dequeue h q).0 (dequeue h q).1 fs
unfolding dequeue
dequeue-Exact h q f fs v x l = ground (arith, v.chain.0, v.chain.1, v.counted, x, l)
