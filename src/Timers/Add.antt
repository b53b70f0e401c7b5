-- ===== src/Timers/Add.antt =====
-- What pico_timer_add and pico_timer_add_hashed of stack/pico_stack.c do to the timers.
use picotcp.Base.{
  ℕ, ◌+◌, ◌%◌, ◌≡◌, ◌≢◌, ◌⊎◌, inl, inr, refl, Bool, true, false, arith, some, if◌then◌else◌, ◌==◌,
  u32, ℤ, pos, negsuc,
}
use picotcp.Heaps.{BinHeap, heap_insert}
use picotcp.Heaps.Order.{Ordered}
use picotcp.Heaps.Contents.{Inserted, heap_insert_outcome}
use picotcp.Timers.{TimerRef, Timers, by_expire, ref_added, timer_ref_add, timer_add_hashed}

abbrev pub ref : ℕ → ℕ → ℕ → ℕ → ℕ → TimerRef
ref now expire t id hash = record {
  expire = (now + expire) % 18446744073709551616;
  id = id;
  hash = hash;
  tmr = some t;
}

-- The identifier that is given.
abbrev pub given : Timers → ℕ
given st = if st.tmr_id == 0 then 1 else st.tmr_id

-- A timer has been added under an identifier, or none has, and the answer is 0.
abbrev pub Added : TimerRef → Timers → Timers × ℕ → Type 0
Added r st (st', id) =
    ((id ≡ 0) × (st'.heap ≡ st.heap))
    ⊎ ((id ≡ r.id)
        × (r.id ≢ 0)
        × (st'.tmr_id ≡ u32 (r.id + 1))
        × Inserted by_expire r st.heap st'.heap)

ref_added-Added :
    (r : TimerRef) (st : Timers) (h : BinHeap TimerRef) (a : ℤ)
    → r.id ≢ 0
    → ((a ≡ negsuc 0) × (h ≡ st.heap)) ⊎ ((a ≡ pos 0) × Inserted by_expire r st.heap h)
    → Added r st (ref_added (record st { tmr_id = u32 (r.id + 1) }) r.id (h, a))
ref_added-Added r st h (negsuc i) z (inl (e, f)) = inl (refl, f)
ref_added-Added r st h (negsuc i) z (inr (e, f)) = cc
ref_added-Added r st h (pos i) z (inl (e, f)) = cc
ref_added-Added r st h (pos i) z (inr (e, f)) = inr (refl, z, refl, f)

-- pico_timer_add_hashed on a heap in order: without memory the heap stays as it is and the answer
-- is 0, and otherwise the timer is in the heap, which is in order again, with the other timers; the
-- answer is its identifier, which is not 0, and the next one is given after it.
pub timer_add_hashed_outcome :
    (capacity : ℕ) (timer_alloc alloc : Bool) (now : ℕ) (st : Timers) (expire t hash : ℕ)
    → Ordered by_expire st.heap.n st.heap.slots
    → Added
        (ref now expire t (given st) hash)
        st
        (timer_add_hashed capacity timer_alloc alloc now st expire t hash)
unfolding timer_add_hashed
timer_add_hashed_outcome capacity false alloc now st expire t hash v = inl (refl, refl)
timer_add_hashed_outcome capacity true alloc now st expire t hash v =
    let r = ref now expire t (given st) hash in
    let (h, a) = heap_insert by_expire capacity alloc st.heap r in
    let z : given st ≢ 0 = ground arith in
    unfold timer_ref_add in
    ref_added-Added r st h a z (elim (heap_insert_outcome by_expire capacity alloc st.heap r v) [
      | inl (e, f, g, i) ↦ inl (e, f)
      | inr (e, f) ↦ inr (e, f)
    ])
