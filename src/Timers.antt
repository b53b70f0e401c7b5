-- ===== src/Timers.antt =====
-- The timers of stack/pico_stack.c, in a heap by the time at which they expire. `tmr` is the struct
-- pico_timer, a callback with its argument, as a number; what has been freed is not followed. The
-- time, PICO_TIME_MS(), is an argument, and so are the answers of the allocations. A callback may
-- change the timers, and is an argument of the check, too.
pub mod Expire
pub mod Cancel
pub mod Add
mod Tests
use picotcp.Base.{
  ℕ, zero, suc, ◌+◌, ◌%◌, Bool, true, false, ◌&&◌, Option, none, some, List, [], ◌∷◌, if◌then◌else◌,
  ltb, ◌==◌, u32, ℤ, pos, negsuc,
}
use picotcp.Heaps.{BinHeap, write, heap_insert, heap_peek, heap_first}

pub record TimerRef : Type 0 where
  pub expire : ℕ
  pub id : ℕ
  pub hash : ℕ
  pub tmr : Option ℕ

-- `heap` is Timers, `tmr_id` the number that is given next.
pub record Timers : Type 0 where
  pub heap : BinHeap TimerRef
  pub tmr_id : ℕ

abbrev pub by_expire : TimerRef → ℕ
by_expire r = r.expire

abbrev pub ref_added : Timers → ℕ → BinHeap TimerRef × ℤ → Timers × ℕ
ref_added st id (h, negsuc i) = (record st { heap = h }, 0)
ref_added st id (h, pos i) = (record st { heap = h }, id)

-- pico_timer_ref_add; pico_time has 64 bits.
unfoldable pub timer_ref_add : ℕ → Bool → ℕ → Timers → ℕ → ℕ → ℕ → ℕ → Timers × ℕ
timer_ref_add capacity alloc now st expire t id hash = ref_added st id (
    heap_insert by_expire capacity alloc st.heap (record {
      expire = (now + expire) % 18446744073709551616;
      id = id;
      hash = hash;
      tmr = some t;
    }))

-- pico_timer_add_hashed, and with the hash 0 pico_timer_add; `timer_alloc` answers for the
-- timer, `alloc` for the heap. 0 is no identifier.
unfoldable pub timer_add_hashed : ℕ → Bool → Bool → ℕ → Timers → ℕ → ℕ → ℕ → Timers × ℕ
unfolding timer_ref_add
timer_add_hashed capacity timer_alloc alloc now st expire t hash =
    let id = if st.tmr_id == 0 then 1 else st.tmr_id in
    if timer_alloc
    then timer_ref_add capacity alloc now (record st { tmr_id = u32 (id + 1) }) expire t id hash
    else (record st { tmr_id = id }, 0)

unfoldable pub timer_add : ℕ → Bool → Bool → ℕ → Timers → ℕ → ℕ → Timers × ℕ
unfolding timer_add_hashed
timer_add capacity timer_alloc alloc now st expire t =
    timer_add_hashed capacity timer_alloc alloc now st expire t 0

-- The loop of pico_timer_cancel over the slots from `i` on, of which there are so many.
unfoldable pub find_id : ℕ → (ℕ → TimerRef) → ℕ → ℕ → Option ℕ
find_id zero slots i id = none
find_id (suc left) slots i id =
    let later = find_id left slots (i + 1) id in if (slots i).id == id then some i else later

abbrev pub with_slots : Timers → (ℕ → TimerRef) → Timers
with_slots st slots = record st {
  heap = record { size = st.heap.size; n = st.heap.n; slots = slots };
}

abbrev pub is_armed : Option ℕ → Bool
is_armed none = false
is_armed (some t) = true

abbrev pub cancel_found : Timers → Option ℕ → Timers
cancel_found st none = st
cancel_found st (some i) =
    let r = st.heap.slots i in
    if is_armed r.tmr
    then with_slots st (write st.heap.slots i (record r { tmr = none; id = 0 }))
    else st

-- pico_timer_cancel
unfoldable pub timer_cancel : Timers → ℕ → Timers
unfolding find_id
timer_cancel st id = if id == 0 then st else cancel_found st (find_id st.heap.n st.heap.slots 1 id)

-- `tref[i].id = 0`, where `tref` points to the element i: the element 2 * i, if it stands in the same
-- block of the heap.
abbrev pub clear_id : (ℕ → TimerRef) → ℕ → ℕ → TimerRef
clear_id slots i = write slots i (record (slots i) { id = 0 })

abbrev pub cancel_slot : (ℕ → TimerRef) → ℕ → ℕ → ℕ → TimerRef
cancel_slot slots i hash =
    let r = slots i in
    if (r.hash == hash) && is_armed r.tmr
    then clear_id (write slots i (record r { tmr = none })) (i + i)
    else slots

-- The loop of pico_timer_cancel_hashed.
unfoldable pub cancel_from : ℕ → (ℕ → TimerRef) → ℕ → ℕ → ℕ → TimerRef
cancel_from zero slots i hash = slots
cancel_from (suc left) slots i hash = cancel_from left (cancel_slot slots i hash) (i + 1) hash

unfoldable pub timer_cancel_hashed : Timers → ℕ → Timers
unfolding cancel_from
timer_cancel_hashed st hash =
    if hash == 0 then st else with_slots st (cancel_from st.heap.n st.heap.slots 1 hash)

-- The callback of a timer that has expired.
abbrev pub called : (ℕ → Timers → Timers) → Option ℕ → Timers → Timers
called call none st = st
called call (some t) st = call t st

-- pico_check_timers at the time `tick`, in at most so many rounds; the result has the timers that
-- have been taken off the heap, in this order.
unfoldable pub check_timers :
    (ℕ → Timers → Timers) → ℕ → ℕ → Timers → Option TimerRef → Timers × List TimerRef
check_timers call zero tick st o = (st, [])
check_timers call (suc fuel) tick st none = (st, [])
check_timers call (suc fuel) tick st (some r) =
    let st' = called call r.tmr st in
    let st'' = record st' { heap = (heap_peek by_expire st'.heap).0 } in
    let (end, fired) = check_timers call fuel tick st'' (heap_first st''.heap) in
    if ltb r.expire tick then (end, r ∷ fired) else (st, [])
