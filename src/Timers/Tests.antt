-- ===== src/Timers/Tests.antt =====
-- Runs of the timers of stack/pico_stack.c, and instances of the theorems.
use picotcp.Base.{ℕ, ◌≡◌, refl, true, false, arith, none, some, [], ◌∷◌, if◌then◌else◌, ◌==◌, map}
use picotcp.Heaps.{heap_first, heap_insert, heap_peek}
use picotcp.Heaps.Order.{Ordered}
use picotcp.Timers.{TimerRef, Timers, by_expire, timer_add, check_timers}

abbrev nothing : TimerRef
nothing = record { expire = 0; id = 0; hash = 0; tmr = none }

abbrev no_timers : Timers
no_timers = record { heap = record { size = 0; n = 0; slots = λ i. nothing }; tmr_id = 0 }

abbrev quiet : ℕ → Timers → Timers
quiet t st = st

abbrev id_of : TimerRef → ℕ
id_of r = r.id

-- Timers that expire at 30, 10 and 20.
abbrev three_timers : Timers
three_timers =
    let st = (timer_add 100 true true 0 no_timers 30 7).0 in
    let st' = (timer_add 100 true true 0 st 10 8).0 in (timer_add 100 true true 0 st' 20 9).0

fired_at_25 :
    map id_of (check_timers quiet 4 25 three_timers (heap_first three_timers.heap)).1 ≡ 2 ∷ 3 ∷ []
unfolding check_timers timer_add heap_insert heap_peek heap_first
fired_at_25 = refl

no_memory_no_timer : (timer_add 100 false true 0 no_timers 30 7).1 ≡ 0
unfolding timer_add
no_memory_no_timer = refl

abbrev hashed : TimerRef
hashed = record { expire = 10; id = 1; hash = 77; tmr = some 7 }

abbrev plain : TimerRef
plain = record { expire = 20; id = 2; hash = 0; tmr = some 8 }

-- A timer with a hash in front of one without.
abbrev two_timers : Timers
two_timers = record {
  heap = record {
    size = 3;
    n = 2;
    slots = λ i. if i == 1 then hashed else if i == 2 then plain else nothing;
  };
  tmr_id = 3;
}

two_timers-Ordered : Ordered by_expire 2 two_timers.heap.slots
two_timers-Ordered c a b = ground (arith, a, b)
