-- ===== src/Frames.antt =====
-- The buffers of stack/pico_frame.c, which the copies of a frame share and count. A block of memory is
-- the number of its address, and NULL is 0. The pointers into a buffer are not modelled.
pub mod Owned
pub mod Memory
pub mod Valid
pub mod Added
pub mod Changed
pub mod Deep
pub mod Runs
pub mod Faults
mod Tests
use picotcp.Base.{
  ℕ, zero, suc, ◌+◌, ◌-◌, ◌*◌, ◌%◌, Bool, true, false, not, ◌&&◌, ◌||◌, Option, none, some, List,
  [], ◌∷◌, if◌then◌else◌, ltb, ◌==◌, u32, sub32,
}
use picotcp.Heaps.{write}

-- Where `usage_count` points to: behind the bytes of a buffer, or to a block of its own.
pub data Place : Type 0 where
  inside : ℕ → Place
  own : ℕ → Place

-- The block that holds the counter.
abbrev pub block : Place → ℕ
block (inside b) = b
block (own c) = c

-- The fields of struct pico_frame that a copy has from its original. `ext_buffer` and `ext_counter`
-- are the flags PICO_FRAME_FLAG_EXT_BUFFER and PICO_FRAME_FLAG_EXT_USAGE_COUNTER, and `notifies`
-- says that `notify_free` is set.
pub record Shared : Type 0 where
  pub buffer : ℕ
  pub buffer_len : ℕ
  pub usage_count : Place
  pub ext_buffer : Bool
  pub ext_counter : Bool
  pub notifies : Bool
  pub info : ℕ

-- A frame at its address.
pub record FrameAt : Type 0 where
  pub address : ℕ
  pub shared : Shared

-- How often each block is allocated, the buffers that notify_free has been called with, and whether a
-- block was freed or used that was not allocated.
pub record Blocks : Type 0 where
  pub allocs : ℕ → ℕ
  pub notified : List ℕ
  pub is_faulty : Bool

-- The memory, the counters by the block that holds them, and the frames.
pub record Store : Type 0 where
  pub blocks : Blocks
  pub counts : ℕ → ℕ
  pub frames : List FrameAt

-- The blocks that PICO_ZALLOC returns for a frame, for the buffer or the counter, and for `info`.
pub record Given : Type 0 where
  pub frame : ℕ
  pub second : ℕ
  pub third : ℕ

abbrev pub allocated : ℕ → Blocks → Blocks
allocated a m = record m { allocs = λ b. if a == b then suc (m.allocs b) else m.allocs b }

abbrev pub failed : Blocks → Blocks
failed m = record m { is_faulty = true }

-- PICO_FREE
abbrev pub released : ℕ → Blocks → Blocks
released a m =
    if a == 0
    then m
    else if m.allocs a == 0
    then failed m
    else record m { allocs = λ b. if a == b then m.allocs b - 1 else m.allocs b }

-- A use of a block.
abbrev pub touched : ℕ → Blocks → Blocks
touched a m = if m.allocs a == 0 then failed m else m

abbrev pub drop_frame : ℕ → List FrameAt → List FrameAt
drop_frame a [] = []
drop_frame a (f ∷ fs) = if f.address == a then fs else f ∷ drop_frame a fs

abbrev pub find_frame : ℕ → List FrameAt → Option Shared
find_frame a [] = none
find_frame a (f ∷ fs) = if f.address == a then some f.shared else find_frame a fs

abbrev pub change_frame : ℕ → Shared → List FrameAt → List FrameAt
change_frame a s [] = []
change_frame a s (f ∷ fs) =
    if f.address == a then record { address = a; shared = s } ∷ fs else f ∷ change_frame a s fs

abbrev pub count_of : Shared → Store → ℕ
count_of s st = st.counts (block s.usage_count)

-- A write to the counter.
abbrev pub set_count : Shared → ℕ → Store → Store
set_count s n st = record st {
  blocks = touched (block s.usage_count) st.blocks;
  counts = write st.counts (block s.usage_count) n;
}

-- PICO_FREE of the counter: an address inside of a buffer is no block.
abbrev pub free_place : Place → Blocks → Blocks
free_place (inside b) m = failed m
free_place (own c) m = released c m

abbrev pub free_counter : Shared → Blocks → Blocks
free_counter s m = if s.ext_counter then free_place s.usage_count m else m

abbrev pub notify : Shared → Blocks → Blocks
notify s m = if s.notifies then record m { notified = s.buffer ∷ m.notified } else m

abbrev pub free_buffer : Shared → Blocks → Blocks
free_buffer s m = if not s.ext_buffer then released s.buffer m else notify s m

-- The last frame of a buffer goes.
abbrev pub free_shared : Shared → Blocks → Blocks
free_shared s m = released s.info (free_buffer s (free_counter s m))

-- pico_frame_discard of the frame at `a`; its address holds no frame afterwards.
unfoldable pub discard : ℕ → Shared → Store → Store
discard a s st =
    let n = sub32 (count_of s st) 1 in
    let st' = set_count s n st in
    record st' {
      blocks = released a (if n == 0 then free_shared s st'.blocks else st'.blocks);
      frames = drop_frame a st'.frames;
    }

abbrev pub add_frame : ℕ → Shared → Store → Store
add_frame a s st = record st { frames = record { address = a; shared = s } ∷ st.frames }

abbrev pub alloc_block : ℕ → Store → Store
alloc_block a st = record st { blocks = allocated a st.blocks }

-- pico_frame_copy
unfoldable pub copy : Given → Shared → Store → Store × ℕ
copy g s st = if g.frame == 0 then (st, 0) else (
  add_frame g.frame s (set_count s (u32 (count_of s st + 1)) (alloc_block g.frame st)),
  g.frame,
)

abbrev pub new_shared : ℕ → Place → Bool → ℕ → Shared
new_shared size place ext_buffer buffer = record {
  buffer = buffer;
  buffer_len = size;
  usage_count = place;
  ext_buffer = ext_buffer;
  ext_counter = elim place [ inside b ↦ false | own c ↦ true ];
  notifies = false;
  info = 0;
}

-- The end of pico_frame_do_alloc: the counter is 1.
abbrev pub started : ℕ → Shared → Store → Store × ℕ
started a s st = (add_frame a s (set_count s 1 st), a)

-- pico_frame_do_alloc
unfoldable pub do_alloc : Given → ℕ → Bool → Bool → Store → Store × ℕ
do_alloc g size zerocopy ext_buffer st =
    let st' = alloc_block g.frame st in
    if g.frame == 0
    then (st, 0)
    else if (ext_buffer && not zerocopy) || (g.second == 0)
    then (record st' { blocks = released g.frame st'.blocks }, 0)
    else if not zerocopy
    then started g.frame (new_shared size (inside g.second) ext_buffer g.second)
        (alloc_block g.second st')
    else started g.frame (new_shared size (own g.second) ext_buffer 0) (alloc_block g.second st')

-- pico_frame_skeleton_set_buffer: true for 0.
unfoldable pub set_buffer : ℕ → Shared → ℕ → Store → Store × Bool
set_buffer a s buf st =
    if buf == 0
    then (st, false)
    else (record st { frames = change_frame a (record s { buffer = buf }) st.frames }, true)

-- pico_frame_new_buffer, for a larger size and with memory: the counter moves into the new buffer.
abbrev pub new_buffer : ℕ → ℕ → ℕ → Shared → Store → Store
new_buffer a b size s st =
    let s' = record s { buffer = b; buffer_len = size; usage_count = inside b } in
    let n = count_of s st in
    let m = touched (block s.usage_count) (allocated b st.blocks) in
    let st' = set_count s' n (record st { blocks = m }) in
    record st' { blocks = free_counter s st'.blocks; frames = change_frame a s' st'.frames }

-- pico_frame_update_pointers: the flags are cleared.
abbrev pub update_pointers : ℕ → ℕ → ℕ → Shared → Store → Store
update_pointers a b size s st =
    let s' = record s {
      buffer = b;
      buffer_len = size;
      usage_count = inside b;
      ext_buffer = false;
      ext_counter = false;
    } in
    record st { blocks = free_buffer s st.blocks; frames = change_frame a s' st.frames }

-- pico_frame_grow and pico_frame_grow_head, which differ in the place of the old bytes; true for 0. A
-- frame without a buffer has a new one when pico_frame_new_buffer returns its NULL.
unfoldable pub grow : Given → ℕ → ℕ → Shared → Store → Store × Bool
grow g a size s st =
    if ltb size s.buffer_len || (g.second == 0)
    then (st, false)
    else let st' = new_buffer a g.second size s st in
      if s.buffer == 0 then (st', false) else (update_pointers a g.second size s st', true)

-- The copy of the fields in pico_frame_deepcopy, and that of `info`.
abbrev pub deepcopied : Given → Shared → Shared
deepcopied g s = record s { buffer = g.second; usage_count = inside g.second }

-- What pico_frame_deepcopy does with the frame that pico_frame_alloc returns.
unfoldable pub filled : Given → Shared → Store × ℕ → Store × ℕ
unfolding discard
filled g s (st, r) =
    let s' = record (deepcopied g s) { info = g.third } in
    let bare = record (deepcopied g s) { info = 0 } in
    if r == 0
    then (st, 0)
    else if s.info == 0
    then (record st { frames = change_frame r bare st.frames }, r)
    else if g.third == 0
    then (discard r bare (record st { frames = change_frame r bare st.frames }), 0)
    else (alloc_block g.third (record st { frames = change_frame r s' st.frames }), r)

-- pico_frame_deepcopy
unfoldable pub deepcopy : Given → Shared → Store → Store × ℕ
unfolding do_alloc
deepcopy g s st = filled g s (do_alloc g s.buffer_len false false st)
