-- ===== src/Heaps/Tests.antt =====
-- Runs of the heap of include/heap.h on numbers, and instances of the theorems.
use picotcp.Base.{ℕ, ◌≡◌, ◌≤◌, ◌⊎◌, refl, true, arith, none, some, negsuc, if◌then◌else◌, ◌==◌}
use picotcp.Heaps.{BinHeap, heap_insert, heap_peek}
use picotcp.Heaps.Contents.{Popped, heap_peek_outcome}

abbrev itself : ℕ → ℕ
itself n = n

abbrev no_numbers : BinHeap ℕ
no_numbers = record { size = 0; n = 0; slots = λ i. 0 }

abbrev three : BinHeap ℕ
three =
    let h = (heap_insert itself 100 true no_numbers 5).0 in
    let h' = (heap_insert itself 100 true h 9).0 in (heap_insert itself 100 true h' 2).0

least_first : (heap_peek itself three).1 ≡ some 2
unfolding heap_insert heap_peek
least_first = refl

then_the_next : (heap_peek itself (heap_peek itself three).0).1 ≡ some 5
unfolding heap_insert heap_peek
then_the_next = refl

full : (heap_insert itself 3 true three 1).1 ≡ negsuc 0
unfolding heap_insert
full = refl

-- The elements 3 and 7.
abbrev two : BinHeap ℕ
two = record { size = 3; n = 2; slots = λ i. if i == 1 then 3 else 7 }

heap_peek_outcome_example :
    let (h, r) = heap_peek itself two in
    ((two.n ≡ 0) × (r ≡ none) × (h ≡ two))
    ⊎ ((r ≡ some 3) × ((c : ℕ) → 1 ≤ c → c ≤ 2 → 3 ≤ two.slots c) × Popped itself 3 two h)
heap_peek_outcome_example = heap_peek_outcome itself two (λ c a b. ground (arith, a, b))
