-- ===== src/Heaps.antt =====
-- The binary heap of include/heap.h, generic in the elements; `orderby` is the field that the macro
-- DECLARE_HEAP is given. The elements stand in blocks, and `slots` is heap_get_element: the element
-- at an index, of which the first is 1. The memory of the blocks grows by one element at a time;
-- `capacity` is elements_per_block * MAX_BLOCK_COUNT, of which the number of elements in a block
-- hangs on the size of the type.
pub mod Order
pub mod Contents
mod Tests
use picotcp.Base.{
  ℕ, zero, suc, ◌+◌, ◌-◌, ◌*◌, ◌/◌, Bool, true, false, not, ◌&&◌, ◌||◌, Option, none, some,
  if◌then◌else◌, ltb, leb, ◌==◌, u32, ℤ, pos, negsuc,
}

pub record BinHeap {ℓ} (A : Type ℓ) : Type ℓ where
  pub size : ℕ
  pub n : ℕ
  pub slots : ℕ → A

-- `memcpy` of an element to an index
abbrev pub write {ℓ} : {A : Type ℓ} → (ℕ → A) → ℕ → A → ℕ → A
write slots i v j = if i == j then v else slots j

module _ {ℓ} {A : Type ℓ} (orderby : A → ℕ) where
  -- The loop of heap_insert: the place of the element, from which the greater parents have been
  -- moved down. An index is halved in each round.
  unfoldable pub sift_up : ℕ → (ℕ → A) → ℕ → A → (ℕ → A) × ℕ
  sift_up zero slots i el = (slots, i)
  sift_up (suc fuel) slots i el =
      let moved = sift_up fuel (write slots i (slots (i / 2))) (i / 2) el in
      if ltb 1 i && ltb (orderby el) (orderby (slots (i / 2))) then moved else (slots, i)

  abbrev pub placed : ℕ → ℕ → A → (ℕ → A) × ℕ → BinHeap A
  placed size n el (slots, i) = record { size = size; n = n; slots = write slots i el }

  -- heap_increase_size, of a heap whose `n` is that of the new element: the new `size`.
  unfoldable pub heap_increase_size : ℕ → Bool → ℕ → ℕ → Option ℕ
  heap_increase_size capacity alloc n size =
      if ltb capacity (n + 1) then none else if alloc then some (u32 (size + 1)) else none

  -- The size after `++heap->n`, if there is room for it.
  abbrev pub grown : ℕ → Bool → ℕ → ℕ → Option ℕ
  grown capacity alloc n size =
      if leb size n then heap_increase_size capacity alloc n size else some size

  abbrev pub insert_grown : BinHeap A → A → Option ℕ → BinHeap A × ℤ
  insert_grown h el none = (h, negsuc 0)
  insert_grown h el (some size) =
      let n = h.n + 1 in
      (
        if n == 1
            then record { size = size; n = n; slots = write h.slots 1 el }
            else placed size n el (sift_up n h.slots n el),
        pos 0,
      )

  unfoldable pub heap_insert : ℕ → Bool → BinHeap A → A → BinHeap A × ℤ
  unfolding sift_up heap_increase_size
  heap_insert capacity alloc h el = insert_grown h el (grown capacity alloc (h.n + 1) h.size)

  -- The lesser one of the two children.
  abbrev pub lesser_child : (ℕ → A) → ℕ → ℕ → ℕ
  lesser_child slots n child =
      if not (child == n) && ltb (orderby (slots (child + 1))) (orderby (slots child))
      then child + 1
      else child

  -- The loop of heap_peek: the place of the last element, from which the lesser children have been
  -- moved up.
  unfoldable pub sift_down : ℕ → (ℕ → A) → ℕ → ℕ → A → (ℕ → A) × ℕ
  sift_down zero slots n i last = (slots, i)
  sift_down (suc fuel) slots n i last =
      let child = lesser_child slots n (2 * i) in
      let moved = sift_down fuel (write slots i (slots child)) n child last in
      if leb (i * 2) n && ltb (orderby (slots child)) (orderby last) then moved else (slots, i)

  -- heap_peek takes the first element out. `last` is a pointer to the element behind the heap that
  -- is left, which the loop does not write.
  unfoldable pub heap_peek : BinHeap A → BinHeap A × Option A
  unfolding sift_down
  heap_peek h = if h.n == 0 then (h, none) else (
    placed h.size (h.n - 1) (h.slots h.n) (sift_down h.n h.slots (h.n - 1) 1 (h.slots h.n)),
    some (h.slots 1),
  )

-- heap_first
unfoldable pub heap_first {ℓ} : {A : Type ℓ} → BinHeap A → Option A
heap_first h = if h.n == 0 then none else some (h.slots 1)
