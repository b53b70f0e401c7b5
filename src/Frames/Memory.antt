-- ===== src/Frames/Memory.antt =====
-- The memory that stack/pico_frame.c allocates and frees, block by block.
use picotcp.Base.{
  ℕ, ◌+◌, ◌≡◌, ◌≢◌, refl, ap, ◌∙◌, true, false, not, if◌then◌else◌, if_cases, arith, ◌==◌,
}
use picotcp.Frames.{
  Place, inside, own, block, Shared, Blocks, allocated, released, touched, free_place, free_counter,
  notify, free_buffer, free_shared,
}
use picotcp.Frames.Owned.{tick, counter_block, buffer_block, group, IsPlaced}

-- The memory is exactly what `r` says, and no block was used that was not allocated.
pub record IsExact (r : ℕ → ℕ) (m : Blocks) : Type 0 where
  pub exact : (b : ℕ) → m.allocs b ≡ r b
  pub sound : m.is_faulty ≡ false

pub released-IsExact :
    (a : ℕ) (r q : ℕ → ℕ) (m : Blocks)
    → IsExact r m
    → ((b : ℕ) → r b ≡ tick a b + q b)
    → IsExact q (released a m)
released-IsExact a r q m v e =
    if_cases (IsExact q) (a == 0) _ _
      (λ z. record { exact = λ b. ground (arith, z, v.exact b, e b); sound = v.sound })
      (λ n.
        if_cases (IsExact q) (m.allocs a == 0) _ _
          (λ z. absurd (ground (arith, n, z, v.exact a, e a)))
          (λ _. record { exact = λ b. ground (arith, n, v.exact b, e b); sound = v.sound }))

pub touched-IsExact :
    (a : ℕ) (r : ℕ → ℕ) (m : Blocks) → IsExact r m → r a ≢ 0 → IsExact r (touched a m)
touched-IsExact a r m v n =
    if_cases (IsExact r) (m.allocs a == 0) _ _ (λ z. absurd (ground (arith, z, n, v.exact a)))
      (λ _. v)

pub allocated-IsExact :
    (a : ℕ) (r q : ℕ → ℕ) (m : Blocks)
    → a ≢ 0
    → IsExact r m
    → ((b : ℕ) → q b ≡ tick a b + r b)
    → IsExact q (allocated a m)
allocated-IsExact a r q m n v e = record {
  exact = λ b. ground (arith, n, v.exact b, e b);
  sound = v.sound;
}

free_place-IsExact :
    (p : Place) (r q : ℕ → ℕ) (m : Blocks) (s : Shared)
    → s.ext_counter ≡ true
    → IsPlaced p s
    → IsExact r m
    → ((b : ℕ) → r b ≡ tick (block p) b + q b)
    → IsExact q (free_place p m)
free_place-IsExact (inside b) r q m s t (f, x, y) v e = cc
free_place-IsExact (own c) r q m s t f v e = released-IsExact c r q m v e

pub free_counter-IsExact :
    (s : Shared) (r q : ℕ → ℕ) (m : Blocks)
    → IsPlaced s.usage_count s
    → IsExact r m
    → ((b : ℕ) → r b ≡ tick (counter_block s) b + q b)
    → IsExact q (free_counter s m)
free_counter-IsExact s r q m p v e =
    if_cases (IsExact q) s.ext_counter _ _
      (λ t.
        free_place-IsExact s.usage_count r q m s t p v
          (λ b. e b ∙ ap (λ x. tick (if x then block s.usage_count else 0) b + q b) t))
      (λ f. record { exact = λ b. ground (arith, f, v.exact b, e b); sound = v.sound })

notify-IsExact : (s : Shared) (r : ℕ → ℕ) (m : Blocks) → IsExact r m → IsExact r (notify s m)
notify-IsExact s r m v =
    if_cases (IsExact r) s.notifies _ _ (λ _. record { exact = v.exact; sound = v.sound }) (λ _. v)

pub free_buffer-IsExact :
    (s : Shared) (r q : ℕ → ℕ) (m : Blocks)
    → IsExact r m
    → ((b : ℕ) → r b ≡ tick (buffer_block s) b + q b)
    → IsExact q (free_buffer s m)
free_buffer-IsExact s r q m v e =
    if_cases (IsExact q) (not s.ext_buffer) _ _
      (λ f. released-IsExact s.buffer r q m v (λ b. ground (arith, f, e b)))
      (λ t.
        let n = notify-IsExact s r m v in
        record { exact = λ b. ground (arith, t, n.exact b, e b); sound = n.sound })

-- All that the frames with one counter share.
pub free_shared-IsExact :
    (s : Shared) (r q : ℕ → ℕ) (m : Blocks)
    → IsPlaced s.usage_count s
    → IsExact r m
    → ((b : ℕ) → r b ≡ group s b + q b)
    → IsExact q (free_shared s m)
free_shared-IsExact s r q m p v e =
    let u = λ (b : ℕ). tick (buffer_block s) b + (tick s.info b + q b) in
    let w = λ (b : ℕ). tick s.info b + q b in
    released-IsExact s.info w q (free_buffer s (free_counter s m))
      (free_buffer-IsExact s u w (free_counter s m)
        (free_counter-IsExact s r u m p v (λ b. omega (arith, e b))) (λ b. refl))
      (λ b. refl)
