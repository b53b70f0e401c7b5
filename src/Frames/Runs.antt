-- ===== src/Frames/Runs.antt =====
-- What holds after any sequence of calls of stack/pico_frame.c.
use picotcp.Base.{
  ℕ, ◌<◌, ◌≡◌, ◌≢◌, ◌⊎◌, inl, inr, refl, sym, ap, ◌∙◌, Bool, true, false, some, List, [], ◌∷◌,
  Bool-cases, arith, ◌==◌, ==_iff,
}
use picotcp.Tree.Members.{In}
use picotcp.Frames.{
  block, Shared, FrameAt, Store, Given, find_frame, do_alloc, set_buffer, copy, grow, deepcopy,
  discard,
}
use picotcp.Frames.Owned.{group, part, uses, owned, AllAlike, Found-In, find-Found}
use picotcp.Frames.Valid.{IsValid, discard-IsValid}
use picotcp.Frames.Added.{IsFree, do_alloc-IsValid, do_alloc_skeleton-IsValid, copy-IsValid}
use picotcp.Frames.Changed.{handed, grow-IsValid, set_buffer-IsValid}
use picotcp.Frames.Deep.{deepcopy-IsValid}

abbrev pub SecondFree : Given → Store → Type 0
SecondFree g st = (g.second ≡ 0) ⊎ IsFree g.second st.blocks

-- A call of the module, for a frame that is there. A buffer is set where the frame has none yet; only
-- a frame that shares its buffer with no other one grows, and a frame with an external buffer or
-- counter is not copied deep.
pub data Step (st : Store) : Store → Type 0 where
  allocs : (g : Given) (size : ℕ) → SecondFree g st → Step st (do_alloc g size false false st).0
  allocs_skeleton :
      (g : Given) (size : ℕ) (ext : Bool)
      → SecondFree g st
      → Step st (do_alloc g size true ext st).0
  sets_buffer :
      (a buf : ℕ) (s : Shared)
      → find_frame a st.frames ≡ some s
      → st.counts (block s.usage_count) ≡ 1
      → buf ≢ 0
      → s.buffer ≡ 0
      → s.ext_counter ≡ true
      → Step st (set_buffer a s buf (handed s buf st)).0
  copies :
      (a : ℕ) (s : Shared) (g : Given)
      → find_frame a st.frames ≡ some s
      → st.counts (block s.usage_count) < 4294967295
      → Step st (copy g s st).0
  grows :
      (a : ℕ) (s : Shared) (g : Given) (size : ℕ)
      → find_frame a st.frames ≡ some s
      → st.counts (block s.usage_count) ≡ 1
      → s.buffer ≢ 0
      → SecondFree g st
      → Step st (grow g a size s st).0
  copies_deep :
      (a : ℕ) (s : Shared) (g : Given)
      → find_frame a st.frames ≡ some s
      → s.ext_counter ≡ false
      → s.ext_buffer ≡ false
      → SecondFree g st
      → Step st (deepcopy g s st).0
  discards :
      (a : ℕ) (s : Shared)
      → find_frame a st.frames ≡ some s
      → st.counts (block s.usage_count) < 4294967296
      → Step st (discard a s st)

pub data Run : Store → Store → Type 0 where
  stop : (st : Store) → Run st st
  step : {st st' st'' : Store} → Step st st' → Run st' st'' → Run st st''

abbrev pub empty_store : Store
empty_store = record {
  blocks = record { allocs = λ b. 0; notified = []; is_faulty = false };
  counts = λ c. 0;
  frames = [];
}

empty-IsValid : IsValid empty_store
empty-IsValid = record {
  memory = record { exact = λ b. refl; sound = refl };
  counted = λ f h. absurd h;
  alike = λ f g h i e. absurd h;
  made = λ f h. absurd h;
}

step-IsValid : {st st' : Store} → Step st st' → IsValid st → IsValid st'
step-IsValid {st} (allocs g size fr) v = do_alloc-IsValid st v g fr size
step-IsValid {st} (allocs_skeleton g size ext fr) v = do_alloc_skeleton-IsValid st v g fr size ext
step-IsValid {st} (sets_buffer a buf s e one n z x) v = set_buffer-IsValid st v a s e one buf n z x
step-IsValid {st} (copies a s g e l) v = copy-IsValid st v a s e g l
step-IsValid {st} (grows a s g size e one n fr) v = grow-IsValid st v a s e one g size n fr
step-IsValid {st} (copies_deep a s g e c b fr) v = deepcopy-IsValid st v g fr s c b
step-IsValid {st} (discards a s e l) v = discard-IsValid st v a s e l

run-IsValid : {st st' : Store} → Run st st' → IsValid st → IsValid st'
run-IsValid (stop st) v = v
run-IsValid (step p q) v = run-IsValid q (step-IsValid p v)

-- After any calls of the module, with a free block for each buffer and counter, less than 2 ^ 32
-- frames for a counter, buffers set once, for a frame without copies, growth only of a frame without
-- copies that has a buffer, and deep copies only of frames without external parts: no block has been
-- freed twice or used after it was freed, and the blocks that are allocated are those that the
-- frames own: none is left when there are no frames.
pub run_exact :
    (st : Store)
    → Run empty_store st
    → (b : ℕ) → (st.blocks.is_faulty ≡ false) × (st.blocks.allocs b ≡ owned st.frames b)
run_exact st r b = let v = run-IsValid r empty-IsValid in (v.memory.sound, v.memory.exact b)

uses-In :
    (c : ℕ) (fs : List FrameAt)
    → uses c fs ≢ 0
    → (f : FrameAt) × In f fs × (block f.shared.usage_count ≡ c)
uses-In c [] n = absurd (n refl)
uses-In c (f ∷ fs) n = elim (Bool-cases (block f.shared.usage_count == c)) [
  | inl t ↦ (f, inl refl, (==_iff (block f.shared.usage_count) c).0 t)
  | inr t ↦ let (g, h, e) = uses-In c fs (λ z. n (ground (arith, z, t))) in (g, inr h, e)
]

group-owned :
    (b : ℕ) (fs : List FrameAt)
    → AllAlike fs
    → (f : FrameAt) → In f fs
    → group f.shared b ≢ 0
    → owned fs b ≢ 0
unfolding part
group-owned b [] k f h n e = h
group-owned b (g ∷ fs) k f (inr h) n e =
    group-owned b fs (λ x y i j. k x y (inr i) (inr j)) f h n (omega (arith, e))
group-owned b (g ∷ fs) k f (inl p) n e =
    elim (Bool-cases (uses (block g.shared.usage_count) fs == 0)) [
      | inl t ↦ n (ap (λ (x : FrameAt). group x.shared b) p ∙ ground (arith, t, e))
      | inr t ↦
          let (x, h, q) = uses-In (block g.shared.usage_count) fs (λ z. ground (arith, t, z)) in
          let same = k x g (inr h) (inl refl) q in
          group-owned b fs (λ x y i j. k x y (inr i) (inr j)) x h
            (λ z. n (ap (λ (y : FrameAt). group y.shared b) p ∙ sym (ap (λ y. group y b) same) ∙ z))
            (omega (arith, e))
    ]

-- After any calls of the module, with a free block for each buffer and counter, less than 2 ^ 32 frames
-- for a counter, buffers set once, for a frame without copies, growth only of a frame without copies
-- that has a buffer, and deep copies only of frames without external parts: as long as there is a
-- frame, the blocks that it shares with its copies, that of its counter and its buffer, if it is not
-- external, are allocated, and its counter is the number of the frames that have it.
pub frame_live :
    (st : Store)
    → Run empty_store st
    → (a : ℕ) (s : Shared) → find_frame a st.frames ≡ some s
    → (b : ℕ) → group s b ≢ 0
    → (st.blocks.allocs b ≢ 0)
      × (st.counts (block s.usage_count) ≡ uses (block s.usage_count) st.frames)
frame_live st r a s e b n =
    let v = run-IsValid r empty-IsValid in
    let f : FrameAt = record { address = a; shared = s } in
    let h : In f st.frames = Found-In (find-Found a s st.frames e) in
    ((λ z. group-owned b st.frames v.alike f h n (sym (v.memory.exact b) ∙ z)), v.counted f h)
