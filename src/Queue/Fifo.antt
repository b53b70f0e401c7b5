-- ===== src/Queue/Fifo.antt =====
-- The queue of include/pico_queue.h is a list of frames: pico_enqueue adds at its end, pico_dequeue
-- takes from its front.
use picotcp.Base.{
  to_int32, ℕ, zero, suc, ◌+◌, ◌<◌, ◌≤◌, ◌%◌, ◌^◌, ◌≡◌, ◌≢◌, ◌⊎◌, inl, inr, refl, sym, ap, subst,
  true, false, List, [], ◌∷◌, ◌++◌, arith, length, length-append, if◌then◌else◌, ◌==◌, negsuc, ◌∙◌,
}
use picotcp.Queue.{
  Heap, Queue, store, set_next, is_full, link, count_in, enqueue, unlink, dequeue, queue_empty,
}
use picotcp.Queue.Chain.{
  Chain, NotIn, Distinct, last_or_null, last, Chain-store, Chain-append, Distinct-append,
  last-append,
}

-- The queue holds the frames of the list, in this order.
pub record Holds (h : Heap) (q : Queue) (fs : List ℕ) : Type 0 where
  pub chain : Chain h.next q.head fs
  pub distinct : Distinct fs
  pub at_tail : q.tail ≡ last_or_null fs
  pub counted : q.frames ≡ length fs
  pub in_range : length fs < 4294967296

link_first :
    (h : Heap) (q : Queue) (p : ℕ)
    → q.head ≡ 0
    → link h q p ≡ (set_next h p 0, record q { head = p; tail = p; size = 0; frames = 0 })
unfolding link
link_first h q p e = ground (arith, e)

link_behind :
    (h : Heap) (q : Queue) (p : ℕ)
    → q.head ≢ 0
    → link h q p ≡ (set_next (set_next h p 0) q.tail p, record q { tail = p })
unfolding link
link_behind h q p e = ground (arith, e)

-- The queue before the counters are set.
abbrev Linked : ℕ → List ℕ → Heap × Queue → Type 0
Linked p fs (h, q) = Chain h.next q.head (fs ++ p ∷ []) × (q.tail ≡ p) × (q.frames ≡ length fs)

link-Linked :
    (h : Heap) (q : Queue) (p : ℕ) (fs : List ℕ)
    → Holds h q fs
    → p ≢ 0
    → NotIn p fs
    → Linked p fs (link h q p)
link-Linked h q p [] v y n =
    subst (Linked p []) (sym (link_first h q p v.chain)) ((refl, y, ground arith), refl, refl)
link-Linked h q p (f ∷ fs) v y n =
    let (e, z, c) = v.chain in
    let next = store h.next p 0 in
    let behind : Chain (store next (last f fs) p) f (f ∷ fs ++ p ∷ []) =
      Chain-append next p f fs (ground arith) y n v.distinct
        (Chain-store h.next p 0 f (f ∷ fs) n (refl, z, c)) in
    let w : Chain (store next q.tail p) q.head (f ∷ fs ++ p ∷ []) =
      subst (λ t. Chain (store next t p) q.head (f ∷ fs ++ p ∷ [])) (sym v.at_tail)
        (subst (λ a. Chain (store next (last f fs) p) a (f ∷ fs ++ p ∷ [])) (sym e) behind) in
    subst (Linked p (f ∷ fs)) (sym (link_behind h q p (λ k. z (sym e ∙ k)))) (w, refl, v.counted)

last_or_null-append : (fs : List ℕ) (p : ℕ) → last_or_null (fs ++ p ∷ []) ≡ p
last_or_null-append [] p = refl
last_or_null-append (f ∷ fs) p = last-append f p fs

count_in-Holds :
    (h : Heap) (q : Queue) (p : ℕ) (fs : List ℕ)
    → Linked p fs (h, q)
    → Distinct fs
    → NotIn p fs
    → length fs + 1 < 4294967296
    → Holds h (count_in h q p) (fs ++ p ∷ [])
count_in-Holds h q p fs (c, t, n) d m r = record {
  chain = c;
  distinct = Distinct-append fs p d m;
  at_tail = t ∙ sym (last_or_null-append fs p);
  counted = omega (arith, n, r, length-append fs (p ∷ []));
  in_range = omega (arith, r, length-append fs (p ∷ []));
}

-- A limit of the queue, of which 0 is none, is reached: the number of frames, or the number of bytes on
-- 32 bits.
abbrev pub Reached : Heap → Queue → ℕ → Type 0
Reached h q p =
    ((q.max_frames ≢ 0) × (q.max_frames ≤ q.frames))
    ⊎ ((q.max_size ≢ 0) × (q.max_size < (h.buffer_len p + q.size) % 2 ^ 32))

is_full_cases :
    (h : Heap) (q : Queue) (p : ℕ)
    → ((is_full h q p ≡ true) × Reached h q p) ⊎ ((is_full h q p ≡ false) × ¬ Reached h q p)
unfolding is_full
is_full_cases h q p = ground arith

-- The bytes that the queue counts before a frame is hung in.
abbrev pub counted_before : Queue → List ℕ → ℕ
counted_before q [] = 0
counted_before q (f ∷ fs) = q.size

link-size :
    (h : Heap) (q : Queue) (p : ℕ) (fs : List ℕ)
    → Holds h q fs
    → let (h', q') = link h q p in
      ((count_in h' q' p).size ≡ (counted_before q fs + h.buffer_len p + q.overhead) % 2 ^ 32)
unfolding link
link-size h q p [] v = ground (arith, v.chain)
link-size h q p (f ∷ fs) v = ground (arith, v.chain.0, v.chain.1)

-- pico_enqueue on a queue that holds a list, with room in its counter, for a frame that is not in
-- it: it refuses the frame with -1 and changes nothing if one more frame or its bytes would go beyond a
-- limit that is set, and otherwise the queue holds the frame behind the others, its size counts the
-- bytes of the frame and the overhead in 32 bits, from 0 on if the queue was empty, and is the answer.
pub enqueue_refines :
    (h : Heap) (q : Queue) (p : ℕ) (fs : List ℕ)
    → Holds h q fs
    → p ≢ 0
    → NotIn p fs
    → length fs + 1 < 4294967296
    → let (h', q', r) = enqueue h q p in
      (Reached h q p × (h' ≡ h) × (q' ≡ q) × (r ≡ negsuc 0))
      ⊎ ((¬ Reached h q p)
          × Holds h' q' (fs ++ p ∷ [])
          × (q'.size ≡ (counted_before q fs + h.buffer_len p + q.overhead) % 2 ^ 32)
          × (r ≡ to_int32 q'.size))
unfolding enqueue
enqueue_refines h q p fs v y n r = elim (is_full_cases h q p) [
  | inl (e, w) ↦ rw e (inl (w, refl, refl, refl))
  | inr (e, w) ↦
      let (h', q') = link h q p in
      rw e (
        inr (
          w,
          count_in-Holds h' q' p fs (link-Linked h q p fs v y n) v.distinct n r,
          link-size h q p fs v,
          refl,
        ))
]

dequeue_none : (h : Heap) (q : Queue) → q.head ≡ 0 → dequeue h q ≡ (h, q, 0)
unfolding dequeue
dequeue_none h q e = ground (arith, e)

dequeue_some :
    (h : Heap) (q : Queue)
    → q.head ≢ 0
    → 0 < q.frames
    → dequeue h q ≡ (let (h', q') = unlink h q in (h', q', q.head))
unfolding dequeue
dequeue_some h q e l = ground (arith, e, l)

unlink-Holds :
    (h : Heap) (q : Queue) (f : ℕ) (fs : List ℕ)
    → Holds h q (f ∷ fs)
    → Holds (unlink h q).0 (unlink h q).1 fs
unlink-Holds h q f fs v =
    let (e, z, c) = v.chain in
    let c' : Chain h.next (h.next q.head) fs = subst (λ a. Chain h.next (h.next a) fs) (sym e) c in
    let n : NotIn q.head fs = subst (λ a. NotIn a fs) (sym e) v.distinct.0 in
    record {
      chain = Chain-store h.next q.head 0 (h.next q.head) fs n c';
      distinct = v.distinct.1;
      at_tail = tail_after fs c' v.at_tail;
      counted = omega (arith, v.counted, v.in_range);
      in_range = omega (arith, v.in_range);
    }
  where
    tail_after :
        (gs : List ℕ)
        → Chain h.next (h.next q.head) gs
        → q.tail ≡ last f gs
        → (if h.next q.head == 0 then 0 else q.tail) ≡ last_or_null gs
    tail_after [] c t = ground arith
    tail_after (g ∷ gs) c t = ground (arith, c.0, c.1, t)

-- On a queue that holds a list, pico_dequeue answers NULL and changes nothing if the queue is
-- empty, and otherwise takes the first frame out.
pub dequeue_refines :
    (h : Heap) (q : Queue) (fs : List ℕ)
    → Holds h q fs
    → ((fs ≡ []) × (dequeue h q ≡ (h, q, 0)))
      ⊎ ((f : ℕ) × (rest : List ℕ) × (fs ≡ f ∷ rest)
          × ((dequeue h q).2 ≡ f)
          × Holds (dequeue h q).0 (dequeue h q).1 rest)
dequeue_refines h q [] v = inl (refl, dequeue_none h q v.chain)
dequeue_refines h q (f ∷ fs) v =
    let (e, z, c) = v.chain in
    let (a, b) =
      subst (λ (r : Heap × Queue × ℕ). (r.2 ≡ f) × Holds r.0 r.1 fs)
        (sym (dequeue_some h q (λ k. z (sym e ∙ k)) (omega (arith, v.counted))))
        (e, unlink-Holds h q f fs v) in
    inr (f, fs, refl, a, b)

-- One round of pico_queue_empty, from what pico_dequeue answers.
abbrev round : ℕ → Heap × Queue × ℕ → Heap × Queue × List ℕ
round fuel (h, q, p) =
    let (h', q', ps) = queue_empty fuel h q in if p == 0 then (h, q, []) else (h', q', p ∷ ps)

abbrev Discards : List ℕ → Heap × Queue × List ℕ → Type 0
Discards fs (h, q, gone) = (gone ≡ fs) × Holds h q []

round-Discards :
    (fuel : ℕ) (r : Heap × Queue × ℕ) (f : ℕ) (fs : List ℕ)
    → r.2 ≡ f
    → f ≢ 0
    → Discards fs (queue_empty fuel r.0 r.1)
    → Discards (f ∷ fs) (round fuel r)
round-Discards fuel (h, q, p) f fs e z (a, b) = ground (arith, e, a, b)

-- On a queue that holds a list, pico_queue_empty discards all frames, from the first to the last,
-- and ends within one round more than there are frames.
pub queue_empty_discards :
    (fuel : ℕ) (h : Heap) (q : Queue) (fs : List ℕ)
    → Holds h q fs
    → length fs < fuel
    → let (h', q', gone) = queue_empty fuel h q in (gone ≡ fs) × Holds h' q' []
unfolding queue_empty
queue_empty_discards zero h q fs v l = absurd (omega (arith, l))
queue_empty_discards (suc fuel) h q [] v l =
    subst (λ r. Discards [] (round fuel r)) (sym (dequeue_none h q v.chain)) (refl, v)
queue_empty_discards (suc fuel) h q (f ∷ fs) v l = elim (dequeue_refines h q (f ∷ fs) v) [
  | inl (e, d) ↦ cc
  | inr (g, rest, e, a, b) ↦
      let same : f ≡ g = cc in
      let n : length (f ∷ fs) ≡ length (g ∷ rest) = ap length e in
      subst (λ l. Discards l (queue_empty (suc fuel) h q)) (sym e)
        (round-Discards fuel (dequeue h q) g rest a (λ k. v.chain.1 (same ∙ k))
          (queue_empty_discards fuel (dequeue h q).0 (dequeue h q).1 rest b (omega (arith, n, l))))
]
