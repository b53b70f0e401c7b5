-- ===== src/Queue/Tests.antt =====
-- Runs of the queue of include/pico_queue.h, and instances of the theorems.
use picotcp.Base.{ℕ, ◌≡◌, ◌⊎◌, refl, false, List, [], ◌∷◌, arith, negsuc, to_int32}
use picotcp.Queue.{Heap, Queue, is_full, link, enqueue}
use picotcp.Queue.Fifo.{Holds, Reached, enqueue_refines}

-- The frame at the pointer n has 100 bytes.
abbrev heap : Heap
heap = record { next = λ p. 0; buffer_len = λ p. 100 }

abbrev empty_queue : Queue
empty_queue = record {
  frames = 0;
  size = 0;
  max_frames = 2;
  max_size = 0;
  head = 0;
  tail = 0;
  shared = false;
  overhead = 0;
}

abbrev one_frame : Queue
one_frame = record empty_queue { frames = 1; size = 100; head = 5; tail = 5 }

abbrev two_frames : Queue
two_frames = record empty_queue { frames = 2; size = 200; head = 5; tail = 6 }

abbrev five : List ℕ
five = 5 ∷ []

one_frame-Holds : Holds heap one_frame five
one_frame-Holds = record {
  chain = (refl, (λ e. omega (arith, e)), refl);
  distinct = (tt, tt);
  at_tail = refl;
  counted = refl;
  in_range = omega arith;
}

first_in : (enqueue heap empty_queue 5).1 ≡ one_frame
unfolding enqueue is_full link
first_in = refl

-- Two frames are the limit.
third_refused : (enqueue heap two_frames 7).2 ≡ negsuc 0
unfolding enqueue is_full
third_refused = refl

enqueue_refines_example :
    let (h, q, r) = enqueue heap one_frame 6 in
    (Reached heap one_frame 6 × (h ≡ heap) × (q ≡ one_frame) × (r ≡ negsuc 0))
    ⊎ ((¬ Reached heap one_frame 6)
        × Holds h q (5 ∷ 6 ∷ [])
        × (q.size ≡ 200)
        × (r ≡ to_int32 q.size))
enqueue_refines_example =
    enqueue_refines heap one_frame 6 five one_frame-Holds (λ e. omega (arith, e))
      ((λ e. omega (arith, e)), tt) (omega arith)
