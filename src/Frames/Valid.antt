-- ===== src/Frames/Valid.antt =====
-- The invariant of the buffers of stack/pico_frame.c, and what keeps it.
use picotcp.Base.{
  ℕ, suc, ◌+◌, ◌<◌, ◌≡◌, ◌≢◌, inl, inr, refl, sym, ap, ◌∙◌, false, some, List, if◌then◌else◌,
  if_cases, Bool-cases, arith, ◌==◌, ==_iff, sub32,
}
use picotcp.Heaps.{write}
use picotcp.Tree.Members.{In}
use picotcp.Frames.{
  block, Shared, FrameAt, Blocks, Store, touched, drop_frame, find_frame, free_shared, discard,
}
use picotcp.Frames.Owned.{
  tick, group, uses, part, shared_part, owned, AllAlike, IsMade, AllMade, Found, find-Found,
  Found-In, others-In, uses-Found, owned-Found, uses-owned,
}
use picotcp.Frames.Memory.{IsExact, released-IsExact, touched-IsExact, free_shared-IsExact}

pub record IsValid (st : Store) : Type 0 where
  pub memory : IsExact (owned st.frames) st.blocks
  pub counted :
      (f : FrameAt)
      → In f st.frames
      → st.counts (block f.shared.usage_count) ≡ uses (block f.shared.usage_count) st.frames
  pub alike : AllAlike st.frames
  pub made : AllMade st.frames

module _ (st : Store) (v : IsValid st) (a : ℕ) (s : Shared)
    (e : find_frame a st.frames ≡ some s) where
  abbrev pub others : List FrameAt
  others = drop_frame a st.frames

  abbrev counter : ℕ
  counter = block s.usage_count

  found : Found a s st.frames others
  found = find-Found a s st.frames e

  is_made : IsMade (record { address = a; shared = s })
  is_made = v.made (record { address = a; shared = s }) (Found-In found)

  uses_all : uses counter st.frames ≡ suc (uses counter others)
  uses_all = ground (arith, uses-Found counter found)

  pub count : st.counts counter ≡ suc (uses counter others)
  count = v.counted (record { address = a; shared = s }) (Found-In found) ∙ uses_all

  pub counter_live : owned st.frames counter ≢ 0
  counter_live = uses-owned counter st.frames v.made (λ z. omega (arith, z, uses_all))

  pub others-alike : AllAlike others
  others-alike f g h i = v.alike f g (others-In found f h) (others-In found g i)

  pub others-made : AllMade others
  others-made f h = v.made f (others-In found f h)

  -- What the frame at `a` leaves to the others.
  remaining-counted :
      (n : ℕ)
      → n ≡ uses counter others
      → (f : FrameAt) → In f others
      → write st.counts counter n (block f.shared.usage_count)
        ≡ uses (block f.shared.usage_count) others
  remaining-counted n p f h = elim (Bool-cases (counter == block f.shared.usage_count)) [
    | inl t ↦
        ground
          (arith, t, p, ap (λ c. uses c others) ((==_iff counter (block f.shared.usage_count)).0 t))
    | inr t ↦
        ground (
          arith,
          t,
          v.counted f (others-In found f h),
          uses-Found (block f.shared.usage_count) found,
        )
  ]

  frames_owned : (b : ℕ) → owned st.frames b ≡ tick a b + shared_part s others b + owned others b
  frames_owned b = owned-Found b found v.alike

  unfoldable left : ℕ → ℕ
  left b = tick a b + owned others b

  shared_left :
      (n : ℕ)
      → n ≡ uses counter others
      → (m : Blocks) → IsExact (owned st.frames) m
      → IsExact left (if n == 0 then free_shared s m else m)
  unfolding part left
  shared_left n p m w =
      if_cases (IsExact left) (n == 0) _ _
        (λ z.
          let none_left : uses counter others ≡ 0 = sym p ∙ (==_iff n 0).0 z in
          free_shared-IsExact s (owned st.frames) left m is_made.placed w
            (λ b. omega (arith, frames_owned b, ap (λ k. part k (group s b)) none_left)))
        (λ z.
          let some_left : (uses counter others == 0) ≡ false = ap (λ k. k == 0) (sym p) ∙ z in
          record {
            exact = λ b. ground (arith, w.exact b, frames_owned b, some_left);
            sound = w.sound;
          })

  pub discard-IsValid : st.counts counter < 4294967296 → IsValid (discard a s st)
  unfolding discard left
  discard-IsValid l =
      let n = sub32 (st.counts counter) 1 in
      let p : n ≡ uses counter others = omega (arith, count, l) in
      let m = touched counter st.blocks in
      record {
        memory =
            released-IsExact a left (owned others) (if n == 0 then free_shared s m else m)
              (shared_left n p m
                (touched-IsExact counter (owned st.frames) st.blocks v.memory counter_live))
              (λ b. refl);
        counted = remaining-counted n p;
        alike = others-alike;
        made = others-made;
      }
