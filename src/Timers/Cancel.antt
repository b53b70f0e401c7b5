-- ===== src/Timers/Cancel.antt =====
-- What pico_timer_cancel and pico_timer_cancel_hashed of stack/pico_stack.c do to the timers.
use picotcp.Base.{
  ℕ, zero, suc, ◌+◌, ◌-◌, ◌<◌, ◌≤◌, ◌≡◌, ◌≢◌, ◌⊎◌, inl, inr, refl, sym, ◌∙◌, Bool, true, false,
  arith, Option, none, some, if◌then◌else◌, ◌==◌, Bool-cases, Option-cases,
}
use picotcp.Heaps.{write}
use picotcp.Timers.{
  TimerRef, Timers, find_id, with_slots, is_armed, cancel_found, timer_cancel, clear_id,
  cancel_slot, cancel_from, timer_cancel_hashed,
}

find_id-some :
    (left : ℕ) (slots : ℕ → TimerRef) (i id j : ℕ)
    → find_id left slots i id ≡ some j
    → (i ≤ j) × (j < i + left) × ((slots j).id ≡ id)
unfolding find_id
find_id-some zero slots i id j e = cc
find_id-some (suc left) slots i id j e = ground (arith, e, find_id-some left slots (i + 1) id j)

none-find_id :
    (left : ℕ) (slots : ℕ → TimerRef) (i id c : ℕ)
    → find_id left slots i id ≡ none
    → i ≤ c
    → c < i + left
    → (slots c).id ≢ id
unfolding find_id
none-find_id zero slots i id c e a b = absurd (omega (arith, a, b))
none-find_id (suc left) slots i id c e a b =
    ground (arith, e, a, b, none-find_id left slots (i + 1) id c)

find_id-none :
    (left : ℕ) (slots : ℕ → TimerRef) (i id : ℕ)
    → ((c : ℕ) → i ≤ c → c < i + left → (slots c).id ≢ id)
    → find_id left slots i id ≡ none
unfolding find_id
find_id-none zero slots i id h = refl
find_id-none (suc left) slots i id h =
    let rest =
      find_id-none left slots (i + 1) id (λ c a b. h c (omega (arith, a)) (omega (arith, b))) in
    ground (arith, rest, h i (omega arith) (omega arith))

-- The timer in a slot is off, and nothing else has changed.
abbrev pub Off : Timers → ℕ → Timers → Type 0
Off st i st' =
    (st'.heap.n ≡ st.heap.n)
    × ((st'.heap.slots i).tmr ≡ none)
    × ((st'.heap.slots i).expire ≡ (st.heap.slots i).expire)
    × ((c : ℕ) → c ≢ i → st'.heap.slots c ≡ st.heap.slots c)

cancel_found-Off : (st : Timers) (i : ℕ) → Off st i (cancel_found st (some i))
cancel_found-Off st i = by_tmr (is_armed (st.heap.slots i).tmr) refl
  where
    disarmed : (o : Option ℕ) → is_armed o ≡ false → o ≡ none
    disarmed none e = refl
    disarmed (some t) e = cc

    by_tmr :
        (b : Bool)
        → is_armed (st.heap.slots i).tmr ≡ b
        → Off st i (
            if b
            then with_slots st
                (write st.heap.slots i (record (st.heap.slots i) { tmr = none; id = 0 }))
            else st)
    by_tmr true e = (refl, ground arith, ground arith, λ c h. ground (arith, h))
    by_tmr false e = (refl, disarmed (st.heap.slots i).tmr e, refl, λ c h. refl)

-- pico_timer_cancel of an identifier: if a timer in the heap has it, one of those timers has no
-- callback any more, and stays in its place until it expires; no other timer changes. If none has
-- it, nothing changes.
pub timer_cancel_outcome :
    (st : Timers) (id : ℕ)
    → id ≢ 0
    → let st' = timer_cancel st id in
      (((c : ℕ) → 1 ≤ c → c ≤ st.heap.n → (st.heap.slots c).id ≢ id) × (st' ≡ st))
      ⊎ ((i : ℕ) × (1 ≤ i) × (i ≤ st.heap.n) × ((st.heap.slots i).id ≡ id) × Off st i st')
unfolding timer_cancel
timer_cancel_outcome st id z =
    let e : (id == 0) ≡ false = ground (arith, z) in
    elim (Option-cases (find_id st.heap.n st.heap.slots 1 id)) [
      | inl f ↦ inl (
        (λ c a b. none-find_id st.heap.n st.heap.slots 1 id c f a (omega (arith, b))),
        rw (e, f) refl,
      )
      | inr (i, f) ↦
          let (a, b, c) = find_id-some st.heap.n st.heap.slots 1 id i f in
          inr (i, a, omega (arith, b), c, rw (e, f) (cancel_found-Off st i))
    ]

cancel_from-none :
    (left : ℕ) (slots : ℕ → TimerRef) (i hash : ℕ)
    → ((c : ℕ) → i ≤ c → c < i + left → (slots c).hash ≢ hash)
    → cancel_from left slots i hash ≡ slots
unfolding cancel_from
cancel_from-none zero slots i hash h = refl
cancel_from-none (suc left) slots i hash h =
    let e : ((slots i).hash == hash) ≡ false = ground (arith, h i (omega arith) (omega arith)) in
    rw e (
      cancel_from-none left slots (i + 1) hash (λ c a b. h c (omega (arith, a)) (omega (arith, b))))

-- The slots after the first timer has been cancelled by its hash.
abbrev first_cleared : (ℕ → TimerRef) → ℕ → TimerRef
first_cleared slots = clear_id (write slots 1 (record (slots 1) { tmr = none })) (1 + 1)

cancel_slot-first :
    (slots : ℕ → TimerRef) (hash t : ℕ)
    → (slots 1).hash ≡ hash
    → (slots 1).tmr ≡ some t
    → cancel_slot slots 1 hash ≡ first_cleared slots
cancel_slot-first slots hash t h a =
    let y : ((slots 1).hash == hash) ≡ true = ground (arith, h) in
    let z : is_armed (slots 1).tmr ≡ true = rw a refl in rw (y, z) refl

first_cleared-hash : (slots : ℕ → TimerRef) (c : ℕ) → (first_cleared slots c).hash ≡ (slots c).hash
first_cleared-hash slots c = ground arith

first_cleared-id :
    (slots : ℕ → TimerRef) (c : ℕ) → (c == 2) ≡ false → (first_cleared slots c).id ≡ (slots c).id
first_cleared-id slots c h = ground (arith, h)

cancelled_first :
    (st : Timers) (hash t m : ℕ)
    → hash ≢ 0
    → st.heap.n ≡ suc m
    → (st.heap.slots 1).hash ≡ hash
    → (st.heap.slots 1).tmr ≡ some t
    → ((c : ℕ) → 2 ≤ c → c ≤ st.heap.n → (st.heap.slots c).hash ≢ hash)
    → timer_cancel_hashed st hash ≡ with_slots st (first_cleared st.heap.slots)
unfolding timer_cancel_hashed cancel_from
cancelled_first st hash t m z e h a others =
    let x : (hash == 0) ≡ false = ground (arith, z) in
    let rest : cancel_from m (first_cleared st.heap.slots) 2 hash ≡ first_cleared st.heap.slots =
      cancel_from-none m (first_cleared st.heap.slots) 2 hash
        (λ c k l. rw (first_cleared-hash st.heap.slots c) (others c k (omega (arith, e, l)))) in
    rw (x, e, cancel_slot-first st.heap.slots hash t h a, rest) refl

-- pico_timer_cancel_hashed of the hash of the first timer alone takes the identifier of the second
-- one away: if the heap has a second timer, of another hash, and no other timer has its identifier,
-- then pico_timer_cancel of this identifier does nothing any more, and the timer keeps its callback.
pub cancel_hashed_disables :
    (st : Timers) (hash t id : ℕ)
    → hash ≢ 0
    → 2 ≤ st.heap.n
    → (st.heap.slots 1).hash ≡ hash
    → (st.heap.slots 1).tmr ≡ some t
    → ((c : ℕ) → 2 ≤ c → c ≤ st.heap.n → (st.heap.slots c).hash ≢ hash)
    → id ≢ 0
    → (st.heap.slots 2).id ≡ id
    → ((c : ℕ) → c ≢ 2 → (st.heap.slots c).id ≢ id)
    → let st' = timer_cancel_hashed st hash in
      (timer_cancel st' id ≡ st') × ((st'.heap.slots 2).tmr ≡ (st.heap.slots 2).tmr)
cancel_hashed_disables st hash t id z two h a others w k alone =
    let slots = first_cleared st.heap.slots in
    let e : st.heap.n ≡ suc (st.heap.n - 1) = omega (arith, two) in
    let absent : (i : ℕ) → (slots i).id ≢ id = λ i f. elim (Bool-cases (i == 2)) [
      | inl b ↦ ground (arith, b, f, w)
      | inr b ↦ alone i (ground (arith, b)) (sym (first_cleared-id st.heap.slots i b) ∙ f)
    ] in
    rw (cancelled_first st hash t (st.heap.n - 1) z e h a others) (
      elim (timer_cancel_outcome (with_slots st slots) id w) [
        | inl (x, y) ↦ y
        | inr (i, b, c, f, x) ↦ absurd (absent i f)
      ],
      ground arith,
    )
