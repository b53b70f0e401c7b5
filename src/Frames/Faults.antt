-- ===== src/Frames/Faults.antt =====
-- Frames that stack/pico_frame.c must not grow, or copy deep.
use picotcp.Base.{
  ℕ, ◌≡◌, ◌≢◌, refl, ◌∙◌, Bool, true, false, ◌||◌, if◌then◌else◌, if_cases, arith, ◌==◌, ltb, sub32,
}
use picotcp.Frames.{
  Place, inside, own, block, Shared, Blocks, Store, Given, allocated, released, touched, free_place,
  free_counter, free_buffer, free_shared, grow, discard,
}

released-IsFaulty : (a : ℕ) (m : Blocks) → m.is_faulty ≡ true → (released a m).is_faulty ≡ true
released-IsFaulty a m e = ground (arith, e)

touched-IsFaulty : (a : ℕ) (m : Blocks) → m.is_faulty ≡ true → (touched a m).is_faulty ≡ true
touched-IsFaulty a m e = ground (arith, e)

place-IsFaulty : (p : Place) (m : Blocks) → m.is_faulty ≡ true → (free_place p m).is_faulty ≡ true
place-IsFaulty (inside b) m e = refl
place-IsFaulty (own c) m e = released-IsFaulty c m e

counter-IsFaulty :
    (s : Shared) (m : Blocks) → m.is_faulty ≡ true → (free_counter s m).is_faulty ≡ true
counter-IsFaulty s m e =
    if_cases (λ (x : Blocks). x.is_faulty ≡ true) s.ext_counter _ _
      (λ _. place-IsFaulty s.usage_count m e) (λ _. e)

buffer-IsFaulty :
    (s : Shared) (m : Blocks) → m.is_faulty ≡ true → (free_buffer s m).is_faulty ≡ true
buffer-IsFaulty s m e = ground (arith, e)

shared-IsFaulty :
    (s : Shared) (m : Blocks) → m.is_faulty ≡ true → (free_shared s m).is_faulty ≡ true
shared-IsFaulty s m e =
    released-IsFaulty s.info (free_buffer s (free_counter s m))
      (buffer-IsFaulty s (free_counter s m) (counter-IsFaulty s m e))

-- A frame whose counter is not allocated any more cannot be discarded.
discard-IsFaulty :
    (a : ℕ) (s : Shared) (st : Store)
    → st.blocks.allocs (block s.usage_count) ≡ 0
    → (discard a s st).blocks.is_faulty ≡ true
unfolding discard
discard-IsFaulty a s st e =
    let n = sub32 (st.counts (block s.usage_count)) 1 in
    let m = touched (block s.usage_count) st.blocks in
    let t : m.is_faulty ≡ true = ground (arith, e) in
    released-IsFaulty a (if n == 0 then free_shared s m else m) (
      if_cases (λ (x : Blocks). x.is_faulty ≡ true) (n == 0) _ _ (λ _. shared-IsFaulty s m t)
        (λ _. t))

touched-allocs : (a b : ℕ) (m : Blocks) → (touched a m).allocs b ≡ m.allocs b
touched-allocs a b m =
    if_cases (λ (x : Blocks). x.allocs b ≡ m.allocs b) (m.allocs a == 0) _ _ (λ _. refl) (λ _. refl)

released-once : (b : ℕ) (m : Blocks) → b ≢ 0 → m.allocs b ≡ 1 → (released b m).allocs b ≡ 0
released-once b m n e = ground (arith, n, e)

old_buffer_gone :
    (x b : ℕ) (m : Blocks)
    → m.allocs b ≡ 1
    → b ≢ 0
    → x ≢ b
    → (released b (touched x (touched b (allocated x m)))).allocs b ≡ 0
old_buffer_gone x b m e n d = released-once b (touched x (touched b (allocated x m))) n (
    touched-allocs x b (touched b (allocated x m))
    ∙ touched-allocs b b (allocated x m)
    ∙ ground (arith, e, d))

-- pico_frame_grow frees the buffer, which holds the counter, without a look at the counter: after a
-- frame has grown that has copies, its copies cannot be discarded without a use of freed memory.
pub grow_shared_faults :
    (st : Store) (g : Given) (a a' size : ℕ) (s : Shared) (b : ℕ)
    → s.usage_count ≡ inside b
    → s.buffer ≡ b
    → s.ext_buffer ≡ false
    → s.ext_counter ≡ false
    → st.blocks.allocs b ≡ 1
    → b ≢ 0
    → ltb size s.buffer_len ≡ false
    → g.second ≢ 0
    → g.second ≢ b
    → (discard a' s (grow g a size s st).0).blocks.is_faulty ≡ true
unfolding grow
grow_shared_faults st g a a' size s b p q x y n z l k d =
    discard-IsFaulty a' s (grow g a size s st).0 (
      if_cases (λ (r : Store × Bool). r.0.blocks.allocs (block s.usage_count) ≡ 0)
        (ltb size s.buffer_len || (g.second == 0)) _ _ (λ t. absurd (ground (arith, t, l, k)))
        (λ _.
          if_cases (λ (r : Store × Bool). r.0.blocks.allocs (block s.usage_count) ≡ 0)
            (s.buffer == 0) _ _ (λ t. absurd (ground (arith, t, q, z)))
            (λ _. rw (x, y, p, q) (old_buffer_gone g.second b st.blocks n z d))))
