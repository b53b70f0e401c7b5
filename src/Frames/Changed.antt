-- ===== src/Frames/Changed.antt =====
-- Frames that pico_frame_grow and pico_frame_skeleton_set_buffer of stack/pico_frame.c change.
use picotcp.Base.{
  ℕ, ◌+◌, ◌≡◌, ◌≢◌, ◌⊎◌, inl, inr, refl, sym, ap, ◌∙◌, subst, Bool, true, false, some, List, [],
  ◌∷◌, if◌then◌else◌, if_cases, Bool-cases, arith, ◌==◌, ==_iff, ◌||◌, ltb,
}
use picotcp.Heaps.{write}
use picotcp.Tree.Members.{In}
use picotcp.Frames.{
  Place, inside, own, block, Shared, FrameAt, Blocks, Store, Given, allocated, touched, drop_frame,
  find_frame, change_frame, free_counter, free_buffer, grow, set_buffer,
}
use picotcp.Frames.Owned.{
  tick, counter_block, buffer_block, group, uses, part, owned, IsPlaced, IsMade, find-Found,
  change-Found, Found-In, others-In, one_if, uses-Found, owned-Found,
}
use picotcp.Frames.Memory.{
  IsExact, touched-IsExact, allocated-IsExact, free_counter-IsExact, free_buffer-IsExact,
}
use picotcp.Frames.Valid.{IsValid, count, counter_live, others-alike, others-made}
use picotcp.Frames.Added.{
  Found-counted, Found-alike, Found-made, IsFree, free-unused, unused_differs, tick_self,
}

pub change_head :
    (a : ℕ) (s t : Shared) (fs : List FrameAt)
    → change_frame a t (record { address = a; shared = s } ∷ fs)
      ≡ record { address = a; shared = t } ∷ fs
change_head a s t fs = rw ((==_iff a a).1 refl) refl

change_twice :
    (a : ℕ) (s t : Shared) (fs : List FrameAt)
    → change_frame a t (change_frame a s fs) ≡ change_frame a t fs
change_twice a s t [] = refl
change_twice a s t (f ∷ fs) = elim (Bool-cases (f.address == a)) [
  | inl p ↦ rw p (change_head a s t fs)
  | inr p ↦ rw (p, p) (ap (λ l. f ∷ l) (change_twice a s t fs))
]

rebuffered :
    (s : Shared) (buf : ℕ) (p : Place)
    → IsPlaced p s
    → s.ext_counter ≡ true
    → IsPlaced p (record s { buffer = buf })
rebuffered s buf (inside b) (f, g, h) x = cc
rebuffered s buf (own c) f x = f

unwritten : (cs : ℕ → ℕ) (c j : ℕ) → cs c ≡ 1 → cs j ≡ write cs c 1 j
unwritten cs c j e = elim (Bool-cases (c == j)) [
  | inl t ↦ rw t (ap cs (sym ((==_iff c j).0 t)) ∙ e)
  | inr t ↦ rw t refl
]

-- A buffer that is not external belongs to the frame from now on.
abbrev pub handed : Shared → ℕ → Store → Store
handed s buf st = record st { blocks = if s.ext_buffer then st.blocks else allocated buf st.blocks }

module _ (st : Store) (v : IsValid st) (a : ℕ) (s : Shared)
    (e : find_frame a st.frames ≡ some s) where
  abbrev rest : List FrameAt
  rest = drop_frame a st.frames

  rest-uses : (c : ℕ) → uses c st.frames ≡ one_if (block s.usage_count) c + uses c rest
  rest-uses c = uses-Found c (find-Found a s st.frames e)

  -- A frame that shares its buffer with no other one gets another one.
  change-IsValid :
      (t : Shared) (m : Blocks) (cs : ℕ → ℕ)
      → uses (block t.usage_count) rest ≡ 0
      → IsMade (record { address = a; shared = t })
      → IsExact (λ b. tick a b + group t b + owned rest b) m
      → ((f : FrameAt)
          → In f (change_frame a t st.frames)
          → cs (block f.shared.usage_count)
            ≡ uses (block f.shared.usage_count) (change_frame a t st.frames))
      → IsValid (record { blocks = m; counts = cs; frames = change_frame a t st.frames })
  unfolding part
  change-IsValid t m cs z i w k =
      let place = change-Found a s t st.frames e in
      let alike =
        Found-alike place (others-alike st v a s e)
          (λ f h q. absurd (unused_differs rest (block t.usage_count) z f h (sym q))) in
      record {
        memory = record {
          exact = λ b. w.exact b ∙ ground (arith, owned-Found b place alike, z);
          sound = w.sound;
        };
        counted = k;
        alike = alike;
        made = Found-made place (others-made st v a s e) i;
      }

  module _ (alone : st.counts (block s.usage_count) ≡ 1) where
    rest_unused : uses (block s.usage_count) rest ≡ 0
    rest_unused = omega (arith, alone, count st v a s e)

    frame_group : (b : ℕ) → owned st.frames b ≡ tick a b + group s b + owned rest b
    unfolding part
    frame_group b = ground (arith, owned-Found b (find-Found a s st.frames e) v.alike, rest_unused)

    rest_counted :
        (f : FrameAt)
        → In f rest
        → st.counts (block f.shared.usage_count) ≡ uses (block f.shared.usage_count) rest
    rest_counted f h = ground (
      arith,
      rest-uses (block f.shared.usage_count),
      v.counted f (others-In (find-Found a s st.frames e) f h),
      unused_differs rest (block s.usage_count) rest_unused f h,
    )

    -- The memory while pico_frame_grow runs: the new buffer, and what the frame still owns.
    unfoldable grown : ℕ → ℕ → ℕ → ℕ → ℕ
    grown x c d b = tick x b + (tick a b + tick c b + tick d b + tick s.info b + owned rest b)

    grown-IsExact :
        (x : ℕ)
        → x ≢ 0
        → IsExact
            (λ b. tick a b + (tick 0 b + tick x b + tick s.info b) + owned rest b)
            (free_buffer s
              (free_counter s (touched x (touched (block s.usage_count) (allocated x st.blocks)))))
    unfolding grown
    grown-IsExact x n =
        let all = grown x (counter_block s) (buffer_block s) in
        let made =
          v.made (record { address = a; shared = s }) (Found-In (find-Found a s st.frames e)) in
        let w1 =
          allocated-IsExact x (owned st.frames) all st.blocks n v.memory
            (λ b. omega (arith, frame_group b)) in
        let w2 =
          touched-IsExact (block s.usage_count) all (allocated x st.blocks) w1
            (λ z. counter_live st v a s e (omega (arith, z, frame_group (block s.usage_count)))) in
        let w3 =
          touched-IsExact x all (touched (block s.usage_count) (allocated x st.blocks)) w2
            (λ z. omega (arith, z, tick_self x n)) in
        let w4 =
          free_counter-IsExact s all (grown x 0 (buffer_block s)) _ made.placed w3
            (λ b. omega arith) in
        free_buffer-IsExact s (grown x 0 (buffer_block s)) _ _ w4 (λ b. omega arith)

    abbrev moved : ℕ → ℕ → Shared
    moved x size = record s { buffer = x; buffer_len = size; usage_count = inside x }

    abbrev grown_to : ℕ → ℕ → Shared
    grown_to x size = record s {
      buffer = x;
      buffer_len = size;
      usage_count = inside x;
      ext_buffer = false;
      ext_counter = false;
    }

    v-IsMade : IsMade (record { address = a; shared = s })
    v-IsMade = v.made (record { address = a; shared = s }) (Found-In (find-Found a s st.frames e))

    -- pico_frame_grow and pico_frame_grow_head
    pub grow-IsValid :
        (g : Given) (size : ℕ)
        → s.buffer ≢ 0
        → (g.second ≡ 0) ⊎ IsFree g.second st.blocks
        → IsValid (grow g a size s st).0
    unfolding grow
    grow-IsValid g size old fr =
        if_cases (λ (r : Store × Bool). IsValid r.0) (ltb size s.buffer_len || (g.second == 0)) _ _
          (λ _. v)
          (λ n.
            let x = g.second in
            let nx : x ≢ 0 = λ z. ground (arith, n, z) in
            let m = free_buffer s (
              free_counter s (touched x (touched (block s.usage_count) (allocated x st.blocks)))) in
            let cs = write st.counts x (st.counts (block s.usage_count)) in
            let unused : uses x rest ≡ 0 = elim fr [
              | inl z ↦ absurd (nx z)
              | inr f ↦ omega (arith, free-unused st v x f, rest-uses x)
            ] in
            if_cases (λ (r : Store × Bool). IsValid r.0) (s.buffer == 0) _ _
              (λ t. absurd (ground (arith, t, old)))
              (λ _.
                subst (λ fs. IsValid (record { blocks = m; counts = cs; frames = fs }))
                  (sym (change_twice a (moved x size) (grown_to x size) st.frames))
                  (change-IsValid (grown_to x size) m cs unused
                    (record {
                      address_set = v-IsMade.address_set;
                      block_set = nx;
                      placed = (refl, refl, refl);
                    })
                    (grown-IsExact x nx)
                    (Found-counted (change-Found a s (grown_to x size) st.frames e) st.counts
                      (st.counts (block s.usage_count)) (omega (arith, alone, unused))
                      (λ f h q. rest_counted f h)))))

    abbrev buffered : ℕ → ℕ → ℕ
    buffered buf b = tick a b + group (record s { buffer = buf }) b + owned rest b

    buffered-IsExact :
        (buf : ℕ)
        → buf ≢ 0
        → s.buffer ≡ 0
        → IsExact (buffered buf) (if s.ext_buffer then st.blocks else allocated buf st.blocks)
    buffered-IsExact buf n z =
        if_cases (IsExact (buffered buf)) s.ext_buffer _ _
          (λ t. record {
            exact = λ b. v.memory.exact b ∙ ground (arith, t, frame_group b);
            sound = v.memory.sound;
          })
          (λ f.
            allocated-IsExact buf (owned st.frames) (buffered buf) st.blocks n v.memory
              (λ b. ground (arith, f, z, n, frame_group b)))

    -- pico_frame_skeleton_set_buffer of a block that is handed over, or of an external buffer
    pub set_buffer-IsValid :
        (buf : ℕ)
        → buf ≢ 0
        → s.buffer ≡ 0
        → s.ext_counter ≡ true
        → IsValid (set_buffer a s buf (handed s buf st)).0
    unfolding set_buffer
    set_buffer-IsValid buf n z x =
        let t = record s { buffer = buf } in
        let c = block s.usage_count in
        let place = change-Found a s t st.frames e in
        let m : Blocks = if s.ext_buffer then st.blocks else allocated buf st.blocks in
        let counted =
          Found-counted place st.counts 1 (omega (arith, rest_unused))
            (λ f h q. rest_counted f h) in
        let same : (j : ℕ) → st.counts j ≡ write st.counts c 1 j =
          λ j. unwritten st.counts c j alone in
        if_cases (λ (r : Store × Bool). IsValid r.0) (buf == 0) _ _
          (λ q. absurd (ground (arith, n, q)))
          (λ _.
            change-IsValid t m st.counts rest_unused
              (record {
                address_set = v-IsMade.address_set;
                block_set = v-IsMade.block_set;
                placed = rebuffered s buf s.usage_count v-IsMade.placed x;
              })
              (buffered-IsExact buf n z) (λ f h. same (block f.shared.usage_count) ∙ counted f h))
