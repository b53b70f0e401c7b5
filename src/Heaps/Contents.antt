-- ===== src/Heaps/Contents.antt =====
-- What insertions and removals do to the heap of include/heap.h: its order, and the elements that
-- it has.
use picotcp.Base.{
  ℕ, zero, suc, ◌+◌, ◌-◌, ◌*◌, ◌/◌, ◌<◌, ◌≤◌, ◌≡◌, ◌≢◌, ◌⊎◌, inl, inr, refl, sym, ap, ◌∙◌, Bool,
  true, false, arith, ltb, leb, ◌==◌, ◌&&◌, Option, none, some, pos, negsuc, Bool-cases,
  Option-cases,
}
use picotcp.Heaps.{
  BinHeap, write, sift_up, placed, heap_increase_size, grown, insert_grown, heap_insert,
  lesser_child, sift_down, heap_peek,
}
use picotcp.Heaps.Order.{Ordered, sift_up-Ordered, sift_down-Ordered, root_least}

module _ {ℓ} {A : Type ℓ} (p : A → Bool) where
  abbrev pub one_if : Bool → ℕ
  one_if true = 1
  one_if false = 0

  -- How many of the first `n` elements satisfy a test.
  abbrev pub tally : ℕ → (ℕ → A) → ℕ
  tally zero slots = 0
  tally (suc n) slots = one_if (p (slots (suc n))) + tally n slots

  tally-outside :
      (n : ℕ) (slots : ℕ → A) (i : ℕ) (v : A) → n < i → tally n (write slots i v) ≡ tally n slots
  tally-outside zero slots i v h = refl
  tally-outside (suc n) slots i v h = ground (arith, h, tally-outside n slots i v)

  tally-write :
      (n : ℕ) (slots : ℕ → A) (i : ℕ) (v : A)
      → 1 ≤ i
      → i ≤ n
      → tally n (write slots i v) + one_if (p (slots i)) ≡ tally n slots + one_if (p v)
  tally-write zero slots i v a b = absurd (omega (arith, a, b))
  tally-write (suc n) slots i v a b =
      ground (arith, a, b, tally-write n slots i v a, tally-outside n slots i v)

  -- An element that moves into the hole leaves the hole behind.
  tally-move :
      (n : ℕ) (slots : ℕ → A) (i j : ℕ) (el : A)
      → 1 ≤ i
      → i ≤ n
      → 1 ≤ j
      → j ≤ n
      → i ≢ j
      → tally n (write (write slots i (slots j)) j el) ≡ tally n (write slots i el)
  tally-move n slots i j el a b c d e =
      let same : write slots i (slots j) j ≡ slots j = ground (arith, e) in
      let x = tally-write n (write slots i (slots j)) j el c d in
      let y = tally-write n slots i (slots j) a b in
      let z = tally-write n slots i el a b in ground (arith, same, x, y, z)

module _ {ℓ} {A : Type ℓ} (orderby : A → ℕ) (p : A → Bool) where
  sift_up-tally :
      (fuel n : ℕ) (slots : ℕ → A) (i : ℕ) (el : A)
      → 1 ≤ i
      → i ≤ n
      → let (slots', i') = sift_up orderby fuel slots i el in
        tally p n (write slots' i' el) ≡ tally p n (write slots i el)
  unfolding sift_up
  sift_up-tally zero n slots i el a b = refl
  sift_up-tally (suc fuel) n slots i el a b =
      elim (Bool-cases (ltb 1 i && ltb (orderby el) (orderby (slots (i / 2))))) [
        | inl e ↦
            let two : 2 ≤ i = ground (arith, e) in
            rw e (
              sift_up-tally fuel n (write slots i (slots (i / 2))) (i / 2) el (omega (arith, two))
                (omega (arith, b, two))
              ∙ tally-move p n slots i (i / 2) el a b (omega (arith, two)) (omega (arith, b, two))
                  (λ h. omega (arith, h, two)))
        | inr e ↦ rw e refl
      ]

  sift_down-tally :
      (fuel n : ℕ) (slots : ℕ → A) (i : ℕ) (last : A)
      → 1 ≤ i
      → i ≤ n
      → let (slots', i') = sift_down orderby fuel slots n i last in
        tally p n (write slots' i' last) ≡ tally p n (write slots i last)
  unfolding sift_down
  sift_down-tally zero n slots i last a b = refl
  sift_down-tally (suc fuel) n slots i last a b =
      let child = lesser_child orderby slots n (2 * i) in
      elim (Bool-cases (leb (i * 2) n && ltb (orderby (slots child)) (orderby last))) [
        | inl e ↦
            let c : i < child = ground (arith, e, a) in
            let d : child ≤ n = ground (arith, e, a) in
            rw e (
              sift_down-tally fuel n (write slots i (slots child)) child last (omega (arith, c)) d
              ∙ tally-move p n slots i child last a b (omega (arith, c)) d
                  (λ h. omega (arith, h, c)))
        | inr e ↦ rw e refl
      ]

module _ {ℓ} {A : Type ℓ} (orderby : A → ℕ) where
  -- The heap has one element more than another one, for any test that is asked of them.
  abbrev pub Gains : A → BinHeap A → BinHeap A → Type ℓ
  Gains el h h' =
      (h'.n ≡ h.n + 1)
      × ((p : A → Bool) → tally p h'.n h'.slots ≡ one_if p (p el) + tally p h.n h.slots)

  tally-last :
      (p : A → Bool) (n : ℕ) (slots : ℕ → A) (el : A)
      → tally p (n + 1) (write slots (n + 1) el) ≡ one_if p (p el) + tally p n slots
  tally-last p n slots el =
      let e : n + 1 ≡ suc n = omega arith in
      ap (λ m. tally p m (write slots m el)) e
      ∙ ground (arith, tally-outside p n slots (suc n) el (omega arith))

  abbrev pub Inserted : A → BinHeap A → BinHeap A → Type ℓ
  Inserted el h h' = Ordered orderby h'.n h'.slots × Gains el h h'

  sifted-Inserted :
      (h : BinHeap A) (el : A) (size : ℕ)
      → Ordered orderby h.n h.slots
      → let n = h.n + 1 in Inserted el h (placed orderby size n el (sift_up orderby n h.slots n el))
  sifted-Inserted h el size v =
      let n = h.n + 1 in
      (
        sift_up-Ordered orderby n n h.slots n el (omega arith) (omega arith) (omega arith) (record {
          edges = λ c a b d e. v c a (omega (arith, b, d));
          below = λ c a b d. absurd (omega (arith, a, b, d));
          bridged = λ c a b d e. absurd (omega (arith, a, b, d));
        }),
        (
          refl,
          λ p.
              sift_up-tally orderby p n n h.slots n el (omega arith) (omega arith)
              ∙ tally-last p h.n h.slots el,
        ),
      )

  first-Inserted :
      (h : BinHeap A) (el : A) (size : ℕ)
      → h.n + 1 ≡ 1
      → Inserted el h (record { size = size; n = h.n + 1; slots = write h.slots 1 el })
  first-Inserted h el size e = (
    (λ c a b. absurd (omega (arith, a, b, e))),
    (
      refl,
      λ p. ap (λ m. tally p (h.n + 1) (write h.slots m el)) (sym e) ∙ tally-last p h.n h.slots el,
    ),
  )

  insert_grown-Inserted :
      (h : BinHeap A) (el : A) (size : ℕ)
      → Ordered orderby h.n h.slots
      → let (h', r) = insert_grown orderby h el (some size) in (r ≡ pos 0) × Inserted el h h'
  insert_grown-Inserted h el size v = elim (Bool-cases (h.n + 1 == 1)) [
    | inl e ↦ (refl, rw e (first-Inserted h el size (ground (arith, e))))
    | inr e ↦ (refl, rw e (sifted-Inserted h el size v))
  ]

  grown-none :
      (capacity : ℕ) (alloc : Bool) (n size : ℕ)
      → grown orderby capacity alloc n size ≡ none
      → (size ≤ n) × ((capacity < n + 1) ⊎ (alloc ≡ false))
  unfolding heap_increase_size
  grown-none capacity alloc n size e = ground (arith, e)

  -- heap_insert on a heap in order: without room for one more element, for which it needs memory
  -- that it does not get or more than the heap's capacity, it answers -1 and changes nothing;
  -- otherwise the heap is in order again, and has its elements and the new one, each as often.
  pub heap_insert_outcome :
      (capacity : ℕ) (alloc : Bool) (h : BinHeap A) (el : A)
      → Ordered orderby h.n h.slots
      → let (h', r) = heap_insert orderby capacity alloc h el in
        ((r ≡ negsuc 0)
          × (h' ≡ h)
          × (h.size ≤ h.n + 1)
          × ((capacity < h.n + 1 + 1) ⊎ (alloc ≡ false)))
        ⊎ ((r ≡ pos 0) × Inserted el h h')
  unfolding heap_insert
  heap_insert_outcome capacity alloc h el v =
      elim (Option-cases (grown orderby capacity alloc (h.n + 1) h.size)) [
        | inl e ↦
            let (a, b) = grown-none capacity alloc (h.n + 1) h.size e in
            rw e (inl (refl, refl, a, b))
        | inr (size, e) ↦ rw e (inr (insert_grown-Inserted h el size v))
      ]

  -- What is left when the first element has been taken out.
  abbrev Peeked : ℕ → (ℕ → A) → ℕ → (ℕ → A) × ℕ → A → Type ℓ
  Peeked n slots m (slots', i) last =
      Ordered orderby m (write slots' i last)
      × ((p : A → Bool)
          → tally p n slots ≡ one_if p (p (slots 1)) + tally p m (write slots' i last))

  peeked :
      (m : ℕ) (slots : ℕ → A)
      → Ordered orderby (suc m) slots
      → Peeked (suc m) slots m (sift_down orderby (suc m) slots m 1 (slots (suc m))) (slots (suc m))
  peeked zero slots v = ((λ c a b. absurd (omega (arith, a, b))), λ p. refl)
  peeked (suc m) slots v =
      let last = slots (suc (suc m)) in
      (
        sift_down-Ordered orderby (suc (suc m)) (suc m) slots 1 last (omega arith) (omega arith)
            (record {
              edges = λ c a b d e. v c a (omega (arith, b));
              above = λ a. absurd (omega (arith, a));
              bridged = λ c a b d e. absurd (omega (arith, e));
            }),
        λ p.
            let x =
              sift_down-tally orderby p (suc (suc m)) (suc m) slots 1 last (omega arith)
                (omega arith) in
            let y = tally-write p (suc m) slots 1 last (omega arith) (omega arith) in
            omega (arith, x, y),
      )

  -- The heap without its first element.
  abbrev pub Popped : A → BinHeap A → BinHeap A → Type ℓ
  Popped x h h' =
      (h'.n + 1 ≡ h.n)
      × Ordered orderby h'.n h'.slots
      × ((p : A → Bool) → tally p h.n h.slots ≡ one_if p (p x) + tally p h'.n h'.slots)

  heap_peek-zero : (h : BinHeap A) → h.n ≡ 0 → heap_peek orderby h ≡ (h, none)
  unfolding heap_peek
  heap_peek-zero h e = ground (arith, e)

  abbrev heap : ℕ → ℕ → (ℕ → A) → BinHeap A
  heap size n slots = record { size = size; n = n; slots = slots }

  heap_peek-suc :
      (size m : ℕ) (slots : ℕ → A)
      → heap_peek orderby (heap size (suc m) slots) ≡ (
        placed orderby size m (slots (suc m)) (sift_down orderby (suc m) slots m 1 (slots (suc m))),
        some (slots 1),
      )
  unfolding heap_peek
  heap_peek-suc size m slots =
      let e : suc m - 1 ≡ m = omega arith in
      let full : (suc m == 0) ≡ false = ground arith in
      rw full (
        ap
          (λ k. (
            placed orderby size k (slots (suc m))
                (sift_down orderby (suc m) slots k 1 (slots (suc m))),
            some (slots 1),
          ))
          e)

  abbrev Peeking : BinHeap A → BinHeap A × Option A → Type ℓ
  Peeking h (h', r) =
      ((h.n ≡ 0) × (r ≡ none) × (h' ≡ h))
      ⊎ ((r ≡ some (h.slots 1))
          × ((c : ℕ) → 1 ≤ c → c ≤ h.n → orderby (h.slots 1) ≤ orderby (h.slots c))
          × Popped (h.slots 1) h h')

  heap_peek-Peeking :
      (size n : ℕ) (slots : ℕ → A)
      → Ordered orderby n slots
      → Peeking (heap size n slots) (heap_peek orderby (heap size n slots))
  heap_peek-Peeking size zero slots v =
      rw (heap_peek-zero (heap size 0 slots) refl) (inl (refl, refl, refl))
  heap_peek-Peeking size (suc m) slots v =
      let (a, b) = peeked m slots v in
      rw (heap_peek-suc size m slots) (
        inr (
          refl,
          λ c x y. root_least orderby c (suc m) slots c (omega arith) v x y,
          (omega arith, a, b),
        ))

  -- heap_peek on a heap in order: an empty one answers NULL and stays as it is; otherwise the
  -- result is the first element, which is no greater than any other one, and the heap is in order
  -- again and has the other elements, each as often.
  pub heap_peek_outcome :
      (h : BinHeap A)
      → Ordered orderby h.n h.slots
      → let (h', r) = heap_peek orderby h in
        ((h.n ≡ 0) × (r ≡ none) × (h' ≡ h))
        ⊎ ((r ≡ some (h.slots 1))
            × ((c : ℕ) → 1 ≤ c → c ≤ h.n → orderby (h.slots 1) ≤ orderby (h.slots c))
            × Popped (h.slots 1) h h')
  heap_peek_outcome h v = heap_peek-Peeking h.size h.n h.slots v
