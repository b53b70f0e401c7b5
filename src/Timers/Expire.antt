-- ===== src/Timers/Expire.antt =====
-- Which timers pico_check_timers of stack/pico_stack.c fires, and in which order.
use picotcp.Base.{
  ℕ, zero, suc, ◌+◌, ◌<◌, ◌≤◌, ◌≡◌, ◌⊎◌, inl, inr, refl, Bool, false, arith, Option, none, some,
  List, [], ◌∷◌, ltb, ltb→lt, if◌then◌else◌, Bool-cases,
}
use picotcp.Heaps.{BinHeap, heap_peek, heap_first}
use picotcp.Heaps.Order.{Ordered}
use picotcp.Heaps.Contents.{one_if, tally, Popped, heap_peek_outcome}
use picotcp.Timers.{TimerRef, Timers, by_expire, called, check_timers}

-- The timers of a list expire one after the other, none before a time.
abbrev pub Rising : ℕ → List TimerRef → Type 0
Rising lo [] = Unit
Rising lo (r ∷ rs) = (lo ≤ r.expire) × Rising r.expire rs

abbrev pub Expired : ℕ → List TimerRef → Type 0
Expired tick [] = Unit
Expired tick (r ∷ rs) = (r.expire < tick) × Expired tick rs

abbrev pub tally_list : (TimerRef → Bool) → List TimerRef → ℕ
tally_list p [] = 0
tally_list p (r ∷ rs) = one_if p (p r) + tally_list p rs

-- No timer of the heap expires before a time.
abbrev pub NoneBefore : ℕ → Timers → Type 0
NoneBefore lo st = (c : ℕ) → 1 ≤ c → c ≤ st.heap.n → lo ≤ (st.heap.slots c).expire

abbrev InOrder : Timers → Type 0
InOrder st = Ordered by_expire st.heap.n st.heap.slots

abbrev Fires : ℕ → ℕ → Timers → Timers × List TimerRef → Type 0
Fires lo tick st (end, fired) =
    Rising lo fired
    × Expired tick fired
    × NoneBefore tick end
    × InOrder end
    × ((p : TimerRef → Bool)
        → tally p st.heap.n st.heap.slots ≡ tally_list p fired + tally p end.heap.n end.heap.slots)

first_cases :
    (h : BinHeap TimerRef)
    → ((h.n ≡ 0) × (heap_first h ≡ none)) ⊎ ((1 ≤ h.n) × (heap_first h ≡ some (h.slots 1)))
unfolding heap_first
first_cases h = ground arith

called_quiet :
    (call : ℕ → Timers → Timers)
    → ((t : ℕ) (st : Timers) → call t st ≡ st)
    → (o : Option ℕ) (st : Timers) → called call o st ≡ st
called_quiet call quiet none st = refl
called_quiet call quiet (some t) st = quiet t st

module _ (p : TimerRef → Bool) where
  tally-none :
      (n : ℕ) (slots : ℕ → TimerRef)
      → ((c : ℕ) → 1 ≤ c → c ≤ n → p (slots c) ≡ false)
      → tally p n slots ≡ 0
  tally-none zero slots h = refl
  tally-none (suc n) slots h =
      let e : p (slots (suc n)) ≡ false = h (suc n) (omega arith) (omega arith) in
      ground (arith, e, tally-none n slots (λ c a b. h c a (omega (arith, b))))

  none-tally :
      (n : ℕ) (slots : ℕ → TimerRef) (c : ℕ)
      → tally p n slots ≡ 0
      → 1 ≤ c
      → c ≤ n
      → p (slots c) ≡ false
  none-tally zero slots c h a b = absurd (omega (arith, a, b))
  none-tally (suc n) slots c h a b = ground (arith, h, a, b, none-tally n slots c)

-- What is left when the first timer has been taken off is no earlier.
Popped-NoneBefore :
    (st : Timers) (h : BinHeap TimerRef) (x : TimerRef) (lo : ℕ)
    → Popped by_expire x st.heap h
    → NoneBefore lo st
    → NoneBefore lo (record st { heap = h })
Popped-NoneBefore st h x lo (a, b, t) v c m k =
    let p : TimerRef → Bool = λ r. ltb r.expire lo in
    let e : tally p st.heap.n st.heap.slots ≡ 0 =
      tally-none p st.heap.n st.heap.slots (λ i j l. ground (arith, v i j l)) in
    let f : tally p h.n h.slots ≡ 0 = omega (arith, e, t p) in
    ground (arith, none-tally p h.n h.slots c f m k)

module _ (call : ℕ → Timers → Timers) (quiet : (t : ℕ) (st : Timers) → call t st ≡ st) where
  stops : (lo tick : ℕ) (st : Timers) → InOrder st → NoneBefore tick st → Fires lo tick st (st, [])
  stops lo tick st v e = (tt, tt, e, v, λ p. omega arith)

  fires-suc :
      (fuel tick : ℕ) (st : Timers) (r : TimerRef)
      → check_timers call (suc fuel) tick st (some r) ≡ (
          let st' = record st { heap = (heap_peek by_expire st.heap).0 } in
          let (end, fired) = check_timers call fuel tick st' (heap_first st'.heap) in
          if ltb r.expire tick then (end, r ∷ fired) else (st, []))
  unfolding check_timers
  fires-suc fuel tick st r = rw (called_quiet call quiet r.tmr st) refl

  fires-none : (fuel tick : ℕ) (st : Timers) → check_timers call (suc fuel) tick st none ≡ (st, [])
  unfolding check_timers
  fires-none fuel tick st = refl

  -- One timer is taken off, and the others follow.
  fired_first :
      (lo tick : ℕ) (st st' : Timers) (r : TimerRef) (rest : Timers × List TimerRef)
      → lo ≤ r.expire
      → r.expire < tick
      → ((p : TimerRef → Bool)
          → tally p st.heap.n st.heap.slots ≡ one_if p (p r) + tally p st'.heap.n st'.heap.slots)
      → Fires r.expire tick st' rest
      → Fires lo tick st (rest.0, r ∷ rest.1)
  fired_first lo tick st st' r (end, fired) l m t (a, b, c, d, e) =
      ((l, a), (m, b), c, d, λ p. omega (arith, t p, e p))

  round-Fires :
      (lo tick : ℕ) (st st' : Timers) (rest : Timers × List TimerRef)
      → InOrder st
      → NoneBefore lo st
      → 1 ≤ st.heap.n
      → NoneBefore (st.heap.slots 1).expire st
      → ((p : TimerRef → Bool)
          → tally p st.heap.n st.heap.slots
            ≡ one_if p (p (st.heap.slots 1)) + tally p st'.heap.n st'.heap.slots)
      → Fires (st.heap.slots 1).expire tick st' rest
      → Fires lo tick st (
          if ltb (st.heap.slots 1).expire tick
          then (rest.0, st.heap.slots 1 ∷ rest.1)
          else (st, []))
  round-Fires lo tick st st' rest v b e least t ih =
      elim (Bool-cases (ltb (st.heap.slots 1).expire tick)) [
        | inl x ↦ rw x (
            fired_first lo tick st st' (st.heap.slots 1) rest (b 1 (omega arith) e)
              (ltb→lt (st.heap.slots 1).expire tick x) t ih)
        | inr x ↦
            let late : tick ≤ (st.heap.slots 1).expire = ground (arith, x) in
            rw x (stops lo tick st v (λ c m k. omega (arith, late, least c m k)))
      ]

  check_timers-Fires :
      (fuel lo tick : ℕ) (st : Timers)
      → InOrder st
      → NoneBefore lo st
      → st.heap.n < fuel
      → Fires lo tick st (check_timers call fuel tick st (heap_first st.heap))
  check_timers-Fires zero lo tick st v b f = absurd (omega (arith, f))
  check_timers-Fires (suc fuel) lo tick st v b f = elim (first_cases st.heap) [
    | inl (e, g) ↦
        rw (g, fires-none fuel tick st)
          (stops lo tick st v (λ c m k. absurd (omega (arith, e, m, k))))
    | inr (e, g) ↦
        rw (g, fires-suc fuel tick st (st.heap.slots 1))
          (elim (heap_peek_outcome by_expire st.heap v) [
            | inl (z, x, y) ↦ absurd (omega (arith, z, e))
            | inr (x, least, (n, w, t)) ↦
                let h = (heap_peek by_expire st.heap).0 in
                let st' = record st { heap = h } in
                round-Fires lo tick st st' (check_timers call fuel tick st' (heap_first h)) v b e
                  least t
                  (check_timers-Fires fuel (st.heap.slots 1).expire tick st' w
                    (Popped-NoneBefore st h (st.heap.slots 1) (st.heap.slots 1).expire (n, w, t)
                      least)
                    (omega (arith, n, f)))
          ])
  ]

  -- pico_check_timers on a heap in order, with callbacks that leave the timers alone, and with fuel
  -- for one round more than there are timers: the timers that are fired are those that expire before
  -- the tick, each as often as it is in the heap, in the order in which they expire; those that stay
  -- expire at the tick or later, and the heap is in order.
  pub check_timers_in_order :
      (fuel tick : ℕ) (st : Timers)
      → Ordered by_expire st.heap.n st.heap.slots
      → st.heap.n < fuel
      → let (end, fired) = check_timers call fuel tick st (heap_first st.heap) in
        Rising 0 fired
        × Expired tick fired
        × NoneBefore tick end
        × Ordered by_expire end.heap.n end.heap.slots
        × ((p : TimerRef → Bool)
            → tally p st.heap.n st.heap.slots
              ≡ tally_list p fired + tally p end.heap.n end.heap.slots)
  check_timers_in_order fuel tick st v f =
      check_timers-Fires fuel 0 tick st v (λ c m k. omega arith) f
