-- ===== src/Frames/Added.antt =====
-- Frames that pico_frame_alloc, pico_frame_alloc_skeleton and pico_frame_copy of stack/pico_frame.c add.
use picotcp.Base.{
  ℕ, suc, ◌+◌, ◌<◌, ◌≡◌, ◌≢◌, ◌⊎◌, inl, inr, refl, sym, ap, ◌∙◌, subst, Bool, true, false, some,
  List, [], ◌∷◌, if_cases, Bool-cases, arith, ◌==◌, ==_iff, u32, ◌&&◌, ◌||◌,
}
use picotcp.Heaps.{write}
use picotcp.Tree.Members.{In}
use picotcp.Frames.{
  inside, own, block, Shared, FrameAt, Blocks, Store, Given, allocated, released, touched,
  find_frame, alloc_block, new_shared, started, do_alloc, copy,
}
use picotcp.Frames.Owned.{
  tick, group, uses, part, owned, AllAlike, IsPlaced, IsMade, AllMade, Found, here, find-Found,
  Found-In, In-Found, uses-Found, uses-owned,
}
use picotcp.Frames.Memory.{IsExact, released-IsExact, touched-IsExact, allocated-IsExact}
use picotcp.Frames.Valid.{IsValid, count}

-- One frame joins the others.
module _ {a : ℕ} {s : Shared} {fs ds : List FrameAt} (m : Found a s fs ds) where
  pub Found-counted :
      (cs : ℕ → ℕ) (n : ℕ)
      → n ≡ suc (uses (block s.usage_count) ds)
      → ((f : FrameAt)
          → In f ds
          → block f.shared.usage_count ≢ block s.usage_count
          → cs (block f.shared.usage_count) ≡ uses (block f.shared.usage_count) ds)
      → (f : FrameAt) → In f fs
      → write cs (block s.usage_count) n (block f.shared.usage_count)
        ≡ uses (block f.shared.usage_count) fs
  Found-counted cs n e k f h =
      let c = block s.usage_count in
      let d = block f.shared.usage_count in
      elim (Bool-cases (c == d)) [
        | inl t ↦
            let q : c ≡ d = (==_iff c d).0 t in
            ground (arith, t, e, ap (λ x. uses x ds) q, uses-Found d m)
        | inr t ↦ elim (In-Found m f h) [
          | inl r ↦ absurd (ground (arith, t, ap (λ (g : FrameAt). block g.shared.usage_count) r))
          | inr i ↦ ground (arith, t, k f i (λ z. ground (arith, t, z)), uses-Found d m)
        ]
      ]

  pub Found-alike :
      AllAlike ds
      → ((f : FrameAt) → In f ds → block s.usage_count ≡ block f.shared.usage_count → s ≡ f.shared)
      → AllAlike fs
  Found-alike k j f g h i e = elim (In-Found m f h) [
    | inl p ↦ elim (In-Found m g i) [
      | inl q ↦ cc
      | inr y ↦
          ap (λ (x : FrameAt). x.shared) p
          ∙ j g y (ap (λ (x : FrameAt). block x.shared.usage_count) (sym p) ∙ e)
    ]
    | inr x ↦ elim (In-Found m g i) [
      | inl q ↦
          sym (j f x (sym (e ∙ ap (λ (x : FrameAt). block x.shared.usage_count) q)))
          ∙ ap (λ (x : FrameAt). x.shared) (sym q)
      | inr y ↦ k f g x y e
    ]
  ]

  pub Found-made : AllMade ds → IsMade (record { address = a; shared = s }) → AllMade fs
  Found-made k i f h = elim (In-Found m f h) [ inl p ↦ subst IsMade (sym p) i | inr x ↦ k f x ]

pub record IsFree (a : ℕ) (m : Blocks) : Type 0 where
  pub is_set : a ≢ 0
  pub is_new : m.allocs a ≡ 0

-- A block that is not allocated holds no counter.
pub free-unused : (st : Store) → IsValid st → (b : ℕ) → IsFree b st.blocks → uses b st.frames ≡ 0
free-unused st v b f = elim (Bool-cases (uses b st.frames == 0)) [
  | inl t ↦ (==_iff (uses b st.frames) 0).0 t
  | inr t ↦ absurd (
      uses-owned b st.frames v.made (λ z. ground (arith, t, z)) (sym (v.memory.exact b) ∙ f.is_new))
]

pub unused_differs :
    (fs : List FrameAt) (c : ℕ)
    → uses c fs ≡ 0
    → (f : FrameAt) → In f fs
    → block f.shared.usage_count ≢ c
unused_differs [] c z f h e = h
unused_differs (g ∷ fs) c z f (inl p) e =
    ground (arith, z, e, ap (λ (x : FrameAt). block x.shared.usage_count) p)
unused_differs (g ∷ fs) c z f (inr h) e = unused_differs fs c (omega (arith, z)) f h e

-- A frame with a counter of its own; it also owns the block `y` unless that is 0.
pub add-IsValid :
    (st : Store) (v : IsValid st) (a y : ℕ) (s : Shared) (m : Blocks)
    → IsMade (record { address = a; shared = s })
    → uses (block s.usage_count) st.frames ≡ 0
    → ((b : ℕ) → group s b ≡ tick (block s.usage_count) b + tick y b)
    → IsExact (λ b. tick a b + (tick (block s.usage_count) b + tick y b) + owned st.frames b) m
    → IsValid (record {
      blocks = m;
      counts = write st.counts (block s.usage_count) 1;
      frames = record { address = a; shared = s } ∷ st.frames;
    })
unfolding part
add-IsValid st v a y s m i z g w =
    let place = here st.frames in
    record {
      memory = record { exact = λ b. w.exact b ∙ ground (arith, g b, z); sound = w.sound };
      counted = Found-counted place st.counts 1 (omega (arith, z)) (λ f h n. v.counted f h);
      alike =
          Found-alike place v.alike
            (λ f h q. absurd (unused_differs st.frames (block s.usage_count) z f h (sym q)));
      made = Found-made place v.made i;
    }

pub tick_self : (a : ℕ) → a ≢ 0 → tick a a ≡ 1
tick_self a n = ground (arith, n)

module _ (st : Store) (v : IsValid st) (g : Given)
    (fr : (g.second ≡ 0) ⊎ IsFree g.second st.blocks) where
  frame-IsExact :
      g.frame ≢ 0 → IsExact (λ b. tick g.frame b + owned st.frames b) (allocated g.frame st.blocks)
  frame-IsExact n = allocated-IsExact g.frame (owned st.frames) _ st.blocks n v.memory (λ b. refl)

  pub both-IsExact :
      g.frame ≢ 0
      → g.second ≢ 0
      → IsExact
          (λ b. tick g.frame b + (tick g.second b + tick 0 b) + owned st.frames b)
          (touched g.second (allocated g.second (allocated g.frame st.blocks)))
  both-IsExact n k =
      touched-IsExact g.second _ (allocated g.second (allocated g.frame st.blocks))
        (allocated-IsExact g.second (λ b. tick g.frame b + owned st.frames b) _
          (allocated g.frame st.blocks) k (frame-IsExact n) (λ b. omega arith))
        (λ z. omega (arith, z, tick_self g.second k))

  pub second_unused : g.second ≢ 0 → uses g.second st.frames ≡ 0
  second_unused n = elim fr [ inl z ↦ absurd (n z) | inr f ↦ free-unused st v g.second f ]

  pub failed-IsValid :
      g.frame ≢ 0 → IsValid (record st { blocks = released g.frame (allocated g.frame st.blocks) })
  failed-IsValid n = record {
    memory =
        released-IsExact g.frame (λ b. tick g.frame b + owned st.frames b) (owned st.frames)
          (allocated g.frame st.blocks) (frame-IsExact n) (λ b. refl);
    counted = v.counted;
    alike = v.alike;
    made = v.made;
  }

  new_group :
      (size : ℕ) (ext : Bool) (b : ℕ)
      → group (new_shared size (own g.second) ext 0) b ≡ tick g.second b + tick 0 b
  new_group size true b = omega arith
  new_group size false b = omega arith

  -- A frame is added with its counter in the second block.
  pub started-IsValid :
      (s : Shared)
      → g.frame ≢ 0
      → g.second ≢ 0
      → block s.usage_count ≡ g.second
      → IsPlaced s.usage_count s
      → ((b : ℕ) → group s b ≡ tick g.second b + tick 0 b)
      → IsValid (started g.frame s (alloc_block g.second (alloc_block g.frame st))).0
  started-IsValid s n k e p q =
      add-IsValid st v g.frame 0 s _
        (record { address_set = n; block_set = λ z. k (sym e ∙ z); placed = p })
        (ap (λ x. uses x st.frames) e ∙ second_unused k)
        (λ b. q b ∙ ap (λ x. tick x b + tick 0 b) (sym e))
        (subst
          (λ x.
            IsExact (λ b. tick g.frame b + (tick x b + tick 0 b) + owned st.frames b)
              (touched x (allocated g.second (allocated g.frame st.blocks))))
          (sym e) (both-IsExact n k))

  -- pico_frame_alloc
  pub do_alloc-IsValid : (size : ℕ) → IsValid (do_alloc g size false false st).0
  unfolding do_alloc
  do_alloc-IsValid size =
      if_cases (λ (r : Store × ℕ). IsValid r.0) (g.frame == 0) _ _ (λ _. v)
        (λ n.
          if_cases (λ (r : Store × ℕ). IsValid r.0) (g.second == 0) _ _
            (λ _. failed-IsValid (λ z. ground (arith, n, z)))
            (λ k.
              started-IsValid (new_shared size (inside g.second) false g.second)
                (λ z. ground (arith, n, z)) (λ z. ground (arith, k, z)) refl (refl, refl, refl)
                (λ b. omega arith)))

  -- pico_frame_alloc_skeleton, with or without an external buffer
  pub do_alloc_skeleton-IsValid : (size : ℕ) (ext : Bool) → IsValid (do_alloc g size true ext st).0
  unfolding do_alloc
  do_alloc_skeleton-IsValid size ext =
      if_cases (λ (r : Store × ℕ). IsValid r.0) (g.frame == 0) _ _ (λ _. v)
        (λ n.
          if_cases (λ (r : Store × ℕ). IsValid r.0) ((ext && false) || (g.second == 0)) _ _
            (λ _. failed-IsValid (λ z. ground (arith, n, z)))
            (λ k.
              started-IsValid (new_shared size (own g.second) ext 0) (λ z. ground (arith, n, z))
                (λ z. ground (arith, k, z)) refl refl (new_group size ext)))

-- pico_frame_copy, with fewer than 2 ^ 32 frames for one buffer
pub copy-IsValid :
    (st : Store) (v : IsValid st) (a : ℕ) (s : Shared)
    → find_frame a st.frames ≡ some s
    → (g : Given) → st.counts (block s.usage_count) < 4294967295
    → IsValid (copy g s st).0
unfolding copy part
copy-IsValid st v a s e g l =
    let c = block s.usage_count in
    let found = find-Found a s st.frames e in
    let old : FrameAt = record { address = a; shared = s } in
    let here_a : In old st.frames = Found-In found in
    let i = v.made old here_a in
    let place = here st.frames in
    let used : st.counts c ≡ uses c st.frames = v.counted old here_a in
    let some_use : uses c st.frames ≢ 0 = λ z. omega (arith, z, used, count st v a s e) in
    if_cases (λ (r : Store × ℕ). IsValid r.0) (g.frame == 0) _ _ (λ _. v)
      (λ n.
        let na : g.frame ≢ 0 = λ z. ground (arith, n, z) in
        let w =
          touched-IsExact c (λ b. tick g.frame b + owned st.frames b) (allocated g.frame st.blocks)
            (allocated-IsExact g.frame (owned st.frames) _ st.blocks na v.memory (λ b. refl))
            (λ z. uses-owned c st.frames v.made some_use (omega (arith, z))) in
        record {
          memory = record { exact = λ b. w.exact b ∙ ground (arith, some_use); sound = w.sound };
          counted =
              Found-counted place st.counts (u32 (st.counts c + 1)) (omega (arith, used, l))
                (λ f h q. v.counted f h);
          alike = Found-alike place v.alike (λ f h q. v.alike old f here_a h q);
          made =
              Found-made place v.made
                (record { address_set = na; block_set = i.block_set; placed = i.placed });
        })
