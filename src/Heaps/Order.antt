-- ===== src/Heaps/Order.antt =====
-- Order and contents of the heap of include/heap.h.
use picotcp.Base.{
  ℕ, zero, suc, ◌+◌, ◌*◌, ◌/◌, ◌<◌, ◌≤◌, ◌≡◌, ◌≢◌, ◌⊎◌, inl, inr, arith, ltb, leb, ◌&&◌, Bool-cases,
}
use picotcp.Heaps.{write, sift_up, lesser_child, sift_down}

module _ {ℓ} {A : Type ℓ} (orderby : A → ℕ) where
  -- No element is less than its parent.
  abbrev pub Ordered : ℕ → (ℕ → A) → Type 0
  Ordered n slots = (c : ℕ) → 2 ≤ c → c ≤ n → orderby (slots (c / 2)) ≤ orderby (slots c)

  -- The heap with a hole at a place, into which the element fits but for the edge above it.
  pub record UpInv (n : ℕ) (slots : ℕ → A) (i : ℕ) (el : A) : Type 0 where
    pub edges :
        (c : ℕ) → 2 ≤ c → c ≤ n → c ≢ i → c / 2 ≢ i → orderby (slots (c / 2)) ≤ orderby (slots c)
    pub below : (c : ℕ) → 2 ≤ c → c ≤ n → c / 2 ≡ i → orderby el ≤ orderby (slots c)
    pub bridged :
        (c : ℕ) → 2 ≤ c → c ≤ n → c / 2 ≡ i → 2 ≤ i → orderby (slots (i / 2)) ≤ orderby (slots c)

  move_up :
      (n : ℕ) (slots : ℕ → A) (i : ℕ) (el : A)
      → 2 ≤ i
      → i ≤ n
      → orderby el < orderby (slots (i / 2))
      → UpInv n slots i el
      → UpInv n (write slots i (slots (i / 2))) (i / 2) el
  move_up n slots i el a b e v =
      let half : i / 2 < i = omega (arith, a) in
      record {
        edges = λ c p q r s. ground (arith, a, half, e, p, q, r, s, v.edges c p q, v.bridged c p q);
        below = λ c p q r. ground (arith, a, half, e, p, q, r, v.edges c p q);
        bridged = λ c p q r s. ground (
          arith,
          a,
          b,
          half,
          e,
          p,
          q,
          r,
          s,
          v.edges (i / 2) s (omega (arith, b, half)),
          v.edges c p q,
        );
      }

  settle :
      (n : ℕ) (slots : ℕ → A) (i : ℕ) (el : A)
      → (2 ≤ i → orderby (slots (i / 2)) ≤ orderby el)
      → UpInv n slots i el
      → Ordered n (write slots i el)
  settle n slots i el e v c p q = ground (arith, e, p, q, v.edges c p q, v.below c p q)

  pub sift_up-Ordered :
      (fuel n : ℕ) (slots : ℕ → A) (i : ℕ) (el : A)
      → i ≤ fuel
      → 1 ≤ i
      → i ≤ n
      → UpInv n slots i el
      → let (slots', i') = sift_up orderby fuel slots i el in Ordered n (write slots' i' el)
  unfolding sift_up
  sift_up-Ordered zero n slots i el f a b v = absurd (omega (arith, f, a))
  sift_up-Ordered (suc fuel) n slots i el f a b v =
      elim (Bool-cases (ltb 1 i && ltb (orderby el) (orderby (slots (i / 2))))) [
        | inl e ↦
            let two : 2 ≤ i = ground (arith, e) in
            let lt : orderby el < orderby (slots (i / 2)) = ground (arith, e) in
            rw e (
              sift_up-Ordered fuel n (write slots i (slots (i / 2))) (i / 2) el
                (omega (arith, f, two)) (omega (arith, two)) (omega (arith, b, two))
                (move_up n slots i el two b lt v))
        | inr e ↦ rw e (settle n slots i el (λ two. ground (arith, e, two)) v)
      ]

  -- The heap with a hole at a place, into which the element fits but for the edges below it.
  pub record DownInv (n : ℕ) (slots : ℕ → A) (i : ℕ) (last : A) : Type 0 where
    pub edges :
        (c : ℕ) → 2 ≤ c → c ≤ n → c ≢ i → c / 2 ≢ i → orderby (slots (c / 2)) ≤ orderby (slots c)
    pub above : 2 ≤ i → orderby (slots (i / 2)) ≤ orderby last
    pub bridged :
        (c : ℕ) → 2 ≤ c → c ≤ n → c / 2 ≡ i → 2 ≤ i → orderby (slots (i / 2)) ≤ orderby (slots c)

  record LesserChild (n : ℕ) (slots : ℕ → A) (i child : ℕ) : Type 0 where
    inside : child ≤ n
    parent : child / 2 ≡ i
    least : (c : ℕ) → c ≤ n → c / 2 ≡ i → orderby (slots child) ≤ orderby (slots c)

  lesser_child_lem :
      (n : ℕ) (slots : ℕ → A) (i : ℕ)
      → i * 2 ≤ n
      → LesserChild n slots i (lesser_child orderby slots n (2 * i))
  lesser_child_lem n slots i h = record {
    inside = ground (arith, h);
    parent = ground (arith, h);
    least = λ c p q. ground (arith, h, p, q, halves c i q);
  }
    where
      halves : (c i : ℕ) → c / 2 ≡ i → (c ≡ 2 * i) ⊎ (c ≡ 2 * i + 1)
      halves c i q = ground (arith, q)

  move_down :
      (n : ℕ) (slots : ℕ → A) (i child : ℕ) (last : A)
      → 1 ≤ i
      → LesserChild n slots i child
      → orderby (slots child) < orderby last
      → DownInv n slots i last
      → DownInv n (write slots i (slots child)) child last
  move_down n slots i child last a l e v =
      let deeper : i < child = omega (arith, a, l.parent) in
      record {
        edges = λ c p q r s. ground (
          arith,
          a,
          deeper,
          e,
          p,
          q,
          r,
          s,
          l.inside,
          l.parent,
          v.edges c p q,
          l.least c q,
          v.bridged child (omega (arith, a, deeper)),
        );
        above = λ two. ground (arith, a, deeper, e, l.parent);
        bridged = λ c p q r s. ground (arith, a, deeper, e, p, q, r, l.parent, v.edges c p q);
      }

  settle_down :
      (n : ℕ) (slots : ℕ → A) (i : ℕ) (last : A)
      → ((c : ℕ) → c ≤ n → 2 ≤ c → c / 2 ≡ i → orderby last ≤ orderby (slots c))
      → DownInv n slots i last
      → Ordered n (write slots i last)
  settle_down n slots i last e v c p q = ground (arith, e c q p, p, q, v.edges c p q, v.above)

  pub sift_down-Ordered :
      (fuel n : ℕ) (slots : ℕ → A) (i : ℕ) (last : A)
      → n < fuel + i
      → 1 ≤ i
      → DownInv n slots i last
      → let (slots', i') = sift_down orderby fuel slots n i last in Ordered n (write slots' i' last)
  unfolding sift_down
  sift_down-Ordered zero n slots i last f a v =
      settle_down n slots i last (λ c p q r. absurd (omega (arith, f, p, q, r))) v
  sift_down-Ordered (suc fuel) n slots i last f a v =
      let child = lesser_child orderby slots n (2 * i) in
      elim (Bool-cases (leb (i * 2) n && ltb (orderby (slots child)) (orderby last))) [
        | inl e ↦
            let l = lesser_child_lem n slots i (ground (arith, e)) in
            rw e (
              sift_down-Ordered fuel n (write slots i (slots child)) child last
                (omega (arith, f, l.parent, a)) (omega (arith, l.parent, a))
                (move_down n slots i child last a l (ground (arith, e)) v))
        | inr e ↦ rw e (
            settle_down n slots i last
              (λ c p q r.
                let l = lesser_child_lem n slots i (omega (arith, p, r)) in
                ground (arith, e, p, q, r, l.least c p r))
              v)
      ]

  -- The first element is the least one.
  pub root_least :
      (fuel n : ℕ) (slots : ℕ → A) (c : ℕ)
      → c ≤ fuel
      → Ordered n slots
      → 1 ≤ c
      → c ≤ n
      → orderby (slots 1) ≤ orderby (slots c)
  root_least zero n slots c f v a b = absurd (omega (arith, f, a))
  root_least (suc fuel) n slots c f v a b = elim (one_or_more c a) [
    | inl e ↦ ap_le e
    | inr e ↦ omega (
      arith,
      v c e b,
      root_least fuel n slots (c / 2) (omega (arith, f, e)) v (omega (arith, e)) (omega (arith, b)),
    )
  ]
    where
      one_or_more : (c : ℕ) → 1 ≤ c → (c ≡ 1) ⊎ (2 ≤ c)
      one_or_more c h = ground (arith, h)

      ap_le : c ≡ 1 → orderby (slots 1) ≤ orderby (slots c)
      ap_le e = rw e (omega arith)
