-- ===== src/Tcp.antt =====
-- TCP: modules/pico_tcp.c. Here, the queues of segments, which are trees in the order of the
-- sequence numbers. A queue holds segments of payload (the input queue, `tcpq_in`) or whole frames
-- (the output queue, `tcpq_out`), and the C code asks at each place which of them it is
-- (IS_INPUT_QUEUE): here the operations are generic, and a `Kind` has the fields of the keys that
-- they read. A pointer to a key of the queue is the key; the memory of the keys that leave a queue
-- is not modelled, nor is the mutex.
pub mod Order
pub mod Segments
pub mod Queues
pub mod Acked
pub mod Input
pub mod Layout
pub mod Release
pub mod Finish
pub mod Round
pub mod Read
pub mod Insertion
pub mod Receive
pub mod Synced
pub mod Arrive
pub mod Received
pub mod Overlap
pub mod Dispatch
pub mod Handlers
pub mod Rtt
mod Tests
use picotcp.Base.{
  ℕ, zero, suc, ◌+◌, ◌≡◌, Bool, true, false, not, Option, none, some, List, [], ◌∷◌, if◌then◌else◌,
  ltb, ◌==◌, u32, sub32, u16, ℤ, pos, negsuc, ltb_ℤ, to_int32, length, Ordering,
}
use picotcp.Seq.{seq_compare, sign}
use picotcp.Tree.{Color, Tree, Inserted, done, exists, no_memory, find_key, insert, keys}
use picotcp.Tree.Walk.{first, foreach}
use picotcp.Tree.Delete.{delete}

-- What the queues read of their keys: `at` is the key with a sequence number and nothing else
-- that a search compares with, and `measure` the length that the size of the queue counts.
pub record Kind {ℓ} (A : Type ℓ) : Type ℓ where
  pub seq : A → ℕ
  pub payload_len : A → ℕ
  pub measure : A → ℕ
  pub at : ℕ → A

-- struct tcp_input_segment; the length of the payload is the field `payload_len`.
pub record Segment : Type 0 where
  pub seq : ℕ
  pub payload : List ℕ

-- A frame that waits to be acknowledged.
pub record OutFrame : Type 0 where
  pub seq : ℕ
  pub payload_len : ℕ
  pub buffer_len : ℕ
  pub timestamp : ℕ

abbrev pub input : Kind Segment
input = record {
  seq = λ s. s.seq;
  payload_len = λ s. length s.payload;
  measure = λ s. length s.payload;
  at = λ n. record { seq = n; payload = [] };
}

abbrev pub output : Kind OutFrame
output = record {
  seq = λ f. f.seq;
  payload_len = λ f. f.payload_len;
  measure = λ f. u16 f.buffer_len;
  at = λ n. record { seq = n; payload_len = 0; buffer_len = 0; timestamp = 0 };
}

-- struct pico_tcp_queue, with the colour of LEAF.
pub record TcpQueue {ℓ} (A : Type ℓ) : Type ℓ where
  pub pool : Tree A
  pub leaf_color : Color
  pub max_size : ℕ
  pub size : ℕ
  pub frames : ℕ

-- `x <= 0` on int32_t.
abbrev pub not_later : ℤ → Bool
not_later x = not (ltb_ℤ (pos 0) x)

abbrev pub is_zero : ℤ → Bool
is_zero (pos zero) = true
is_zero (pos (suc n)) = false
is_zero (negsuc n) = false

module _ {ℓ} {A : Type ℓ} (k : Kind A) where
  -- input_segment_compare and segment_compare
  abbrev pub segment_compare : A → A → Ordering
  segment_compare a b = sign (seq_compare (k.seq a) (k.seq b))

  -- The sequence number behind a segment.
  abbrev pub end_of : A → ℕ
  end_of a = u32 (k.seq a + k.payload_len a)

  unfoldable pub peek_segment : TcpQueue A → ℕ → Option A
  peek_segment q n = find_key segment_compare (k.at n) q.pool

  unfoldable pub first_segment : TcpQueue A → Option A
  first_segment q = first q.pool

  unfoldable pub next_segment : TcpQueue A → A → Option A
  unfolding peek_segment
  next_segment q cur = peek_segment q (end_of cur)

  abbrev pub counted_in : ℕ → TcpQueue A → TcpQueue A
  counted_in len q = record q {
    size = u32 (q.size + len);
    frames = if ltb 0 len then u32 (q.frames + 1) else q.frames;
  }

  abbrev pub counted_out : ℕ → TcpQueue A → TcpQueue A
  counted_out len q = record q {
    size = sub32 q.size len;
    frames = if ltb 0 len then sub32 q.frames 1 else q.frames;
  }

  abbrev pub with_pool : Tree A → Color → TcpQueue A → TcpQueue A
  with_pool t lc q = record q { pool = t; leaf_color = lc }

  -- What follows pico_tree_insert in do_enqueue_segment.
  unfoldable pub enqueue_inserted : ℕ → TcpQueue A → Tree A × Color × Inserted A → TcpQueue A × ℤ
  enqueue_inserted len q (t, lc, done) = (counted_in len (with_pool t lc q), to_int32 len)
  enqueue_inserted len q (t, lc, exists x) = (with_pool t lc q, pos 0)
  enqueue_inserted len q (t, lc, no_memory) = (with_pool t lc q, pos 0)

  unfoldable pub do_enqueue_segment : Bool → TcpQueue A → A → ℕ → TcpQueue A × ℤ
  unfolding enqueue_inserted
  do_enqueue_segment alloc q a len =
      let r = insert segment_compare alloc q.leaf_color a q.pool in
      let inserted = enqueue_inserted len q r in
      if ltb q.max_size (u32 (q.size + len)) then (q, pos 0) else inserted

  -- pico_enqueue_segment, of a segment that is there.
  unfoldable pub enqueue_segment : Bool → TcpQueue A → A → TcpQueue A × ℤ
  unfolding do_enqueue_segment
  enqueue_segment alloc q a =
      let enqueued = do_enqueue_segment alloc q a (k.measure a) in
      if k.measure a == 0 then (q, negsuc 0) else enqueued

  -- What follows pico_tree_delete in pico_discard_segment.
  unfoldable pub discard_deleted : ℕ → TcpQueue A → Tree A × Color × Option A → TcpQueue A
  discard_deleted len q (t, lc, some x) = counted_out len (with_pool t lc q)
  discard_deleted len q (t, lc, none) = with_pool t lc q

  unfoldable pub discard_segment : TcpQueue A → A → TcpQueue A
  unfolding discard_deleted
  discard_segment q a =
      discard_deleted (k.measure a) q (delete segment_compare q.leaf_color a q.pool)

  -- The loop of release_until, at the segment `head`, in at most so many rounds; the result is
  -- the queue, and how many segments have left it.
  unfoldable pub release_from : ℕ → TcpQueue A → ℕ → Option A → TcpQueue A × ℕ
  unfolding next_segment discard_segment
  release_from zero q n head = (q, 0)
  release_from (suc fuel) q n none = (q, 0)
  release_from (suc fuel) q n (some cur) =
      let (q', gone) = release_from fuel (discard_segment q cur) n (next_segment q cur) in
      if not_later (seq_compare (end_of cur) n) then (q', suc gone) else (q, 0)

  unfoldable pub release_until : ℕ → TcpQueue A → ℕ → TcpQueue A × ℕ
  unfolding first_segment release_from
  release_until fuel q n = release_from fuel q n (first_segment q)

-- The loop of release_all_until, over the segments that pico_tree_foreach_safe meets; `stamp` is the
-- time that it leaves in `timestamp`: that of the frame whose end is the number asked for. The next
-- node is taken before a node is deleted, and a deletion leaves the other nodes with their keys,
-- so that the loop meets the keys in the order that they have at its start. Only the output queue
-- is released like this.
unfoldable pub release_each : TcpQueue OutFrame → ℕ → ℕ → List OutFrame → TcpQueue OutFrame × ℕ × ℕ
unfolding discard_segment
release_each q n stamp [] = (q, stamp, 0)
release_each q n stamp (f ∷ fs) =
    let late = seq_compare (end_of output f) n in
    let stamp' = if is_zero late then f.timestamp else stamp in
    let (q', stamp'', gone) = release_each (discard_segment output q f) n stamp' fs in
    if not_later late then (q', stamp'', suc gone) else (q, stamp, 0)

unfoldable pub release_all_until : ℕ → TcpQueue OutFrame → ℕ → TcpQueue OutFrame × ℕ × ℕ
unfolding release_each
release_all_until fuel q n = release_each q n 0 (foreach fuel q.pool)
