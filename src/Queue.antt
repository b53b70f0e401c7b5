-- ===== src/Queue.antt =====
-- The queue of frames of include/pico_queue.h: a list that is linked through the field `next` of
-- the frames, with counters and limits. A pointer to a frame is a number, and NULL is 0; the store
-- `Heap` has the two fields of the frames that the queue reads or writes. The mutex of a shared
-- queue is not modelled.
pub mod Chain
pub mod Fifo
pub mod Size
mod Tests
use picotcp.Base.{
  ℕ, zero, suc, ◌+◌, ◌-◌, ◌%◌, Bool, true, false, ◌&&◌, not, Option, none, some, List, [], ◌∷◌,
  if◌then◌else◌, ltb, leb, ◌==◌, u32, sub32, ℤ, negsuc, to_int32,
}

pub record Heap : Type 0 where
  pub next : ℕ → ℕ
  pub buffer_len : ℕ → ℕ

pub record Queue : Type 0 where
  pub frames : ℕ
  pub size : ℕ
  pub max_frames : ℕ
  pub max_size : ℕ
  pub head : ℕ
  pub tail : ℕ
  pub shared : Bool
  pub overhead : ℕ

abbrev pub store : (ℕ → ℕ) → ℕ → ℕ → ℕ → ℕ
store f p v q = if q == p then v else f q

-- `p->next = v`
abbrev pub set_next : Heap → ℕ → ℕ → Heap
set_next h p v = record h { next = store h.next p v }

-- The two tests on the limits, of which 0 is no limit.
unfoldable pub is_full : Heap → Queue → ℕ → Bool
is_full h q p =
    if not (q.max_frames == 0) && leb q.max_frames q.frames
    then true
    else not (q.max_size == 0) && ltb q.max_size (u32 (h.buffer_len p + q.size))

-- The frame is hung in behind the tail, or as the only one.
unfoldable pub link : Heap → Queue → ℕ → Heap × Queue
link h q p =
    if q.head == 0
    then (set_next h p 0, record q { head = p; tail = p; size = 0; frames = 0 })
    else (set_next (set_next h p 0) q.tail p, record q { tail = p })

abbrev pub count_in : Heap → Queue → ℕ → Queue
count_in h q p = record q {
  size = u32 (q.size + u32 (h.buffer_len p + q.overhead));
  frames = u32 (q.frames + 1);
}

-- pico_enqueue
unfoldable pub enqueue : Heap → Queue → ℕ → Heap × Queue × ℤ
enqueue h q p =
    if is_full h q p
    then (h, q, negsuc 0)
    else let (h', q') = link h q p in let q'' = count_in h' q' p in (h', q'', to_int32 q''.size)

-- The frame at the head is taken out.
abbrev pub unlink : Heap → Queue → Heap × Queue
unlink h q =
    let head' = h.next q.head in
    (
      set_next h q.head 0,
      record q {
        head = head';
        frames = sub32 q.frames 1;
        size = sub32 q.size (sub32 (h.buffer_len q.head) q.overhead);
        tail = if head' == 0 then 0 else q.tail;
      },
    )

-- pico_dequeue: 0 for NULL.
unfoldable pub dequeue : Heap → Queue → Heap × Queue × ℕ
dequeue h q =
    if q.head == 0
    then (h, q, 0)
    else if ltb q.frames 1
    then (h, q, 0)
    else let (h', q') = unlink h q in (h', q', q.head)

-- pico_queue_peek
unfoldable pub queue_peek : Queue → ℕ
queue_peek q = if ltb q.frames 1 then 0 else q.head

-- pico_queue_empty, in at most so many rounds; the result are the frames that are discarded.
unfoldable pub queue_empty : ℕ → Heap → Queue → Heap × Queue × List ℕ
queue_empty zero h q = (h, q, [])
queue_empty (suc fuel) h q =
    let (h', q', p) = dequeue h q in
    let (h'', q'', ps) = queue_empty fuel h' q' in
    if p == 0 then (h', q', []) else (h'', q'', p ∷ ps)

-- pico_queue_protect
unfoldable pub queue_protect : Queue → Queue
queue_protect q = record q { shared = true }
