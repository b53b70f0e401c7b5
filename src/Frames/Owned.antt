-- ===== src/Frames/Owned.antt =====
-- Which blocks the frames of stack/pico_frame.c own: each frame its own block, and the last one with a
-- counter the blocks that those with this counter share.
use picotcp.Base.{
  ℕ, ◌+◌, ◌≡◌, ◌≢◌, ◌⊎◌, inl, inr, refl, sym, ap, subst, true, false, some, List, [], ◌∷◌,
  if◌then◌else◌, Bool-cases, arith, ◌==◌, ==_iff,
}
use picotcp.Tree.Members.{In}
use picotcp.Frames.{
  Place, inside, own, block, Shared, FrameAt, drop_frame, find_frame, change_frame,
}

abbrev pub tick : ℕ → ℕ → ℕ
tick a b = if a == 0 then 0 else if a == b then 1 else 0

abbrev pub counter_block : Shared → ℕ
counter_block s = if s.ext_counter then block s.usage_count else 0

abbrev pub buffer_block : Shared → ℕ
buffer_block s = if s.ext_buffer then 0 else s.buffer

abbrev pub group : Shared → ℕ → ℕ
group s b = tick (counter_block s) b + tick (buffer_block s) b + tick s.info b

-- The frames whose counter is in the block `c`.
abbrev pub uses : ℕ → List FrameAt → ℕ
uses c [] = 0
uses c (f ∷ fs) = (if block f.shared.usage_count == c then 1 else 0) + uses c fs

unfoldable pub part : ℕ → ℕ → ℕ
part n g = if n == 0 then g else 0

-- What the last frame with a counter owns, when `fs` are the frames behind it.
abbrev pub shared_part : Shared → List FrameAt → ℕ → ℕ
shared_part s fs b = part (uses (block s.usage_count) fs) (group s b)

-- How often the frames own a block.
abbrev pub owned : List FrameAt → ℕ → ℕ
owned [] b = 0
owned (f ∷ fs) b = tick f.address b + shared_part f.shared fs b + owned fs b

-- Frames with one counter share all.
abbrev pub AllAlike : List FrameAt → Type 0
AllAlike fs =
    (f g : FrameAt)
    → In f fs
    → In g fs
    → block f.shared.usage_count ≡ block g.shared.usage_count
    → f.shared ≡ g.shared

-- The flag says where the counter is.
abbrev pub IsPlaced : Place → Shared → Type 0
IsPlaced (inside b) s = (s.ext_counter ≡ false) × (s.ext_buffer ≡ false) × (s.buffer ≡ b)
IsPlaced (own c) s = s.ext_counter ≡ true

pub record IsMade (f : FrameAt) : Type 0 where
  pub address_set : f.address ≢ 0
  pub block_set : block f.shared.usage_count ≢ 0
  pub placed : IsPlaced f.shared.usage_count f.shared

abbrev pub AllMade : List FrameAt → Type 0
AllMade fs = (f : FrameAt) → In f fs → IsMade f

-- A frame stands in a list, and the others are the second list.
pub data Found (a : ℕ) (s : Shared) : List FrameAt → List FrameAt → Type 0 where
  here : (fs : List FrameAt) → Found a s (record { address = a; shared = s } ∷ fs) fs
  later : (f : FrameAt) {fs ds : List FrameAt} → Found a s fs ds → Found a s (f ∷ fs) (f ∷ ds)

module _ (a : ℕ) (s : Shared) (f : FrameAt) (fs : List FrameAt) where
  same :
      (f.address == a) ≡ true
      → find_frame a (f ∷ fs) ≡ some s
      → record { address = a; shared = s } ≡ f
  same p e =
      let q : f.address ≡ a = (==_iff f.address a).0 p in
      let r : f.shared ≡ s = ground (arith, p, e) in cc

  missed : (f.address == a) ≡ false → find_frame a (f ∷ fs) ≡ some s → find_frame a fs ≡ some s
  missed p e = ground (arith, p, e)

find_cases :
    (a : ℕ) (s : Shared) (f : FrameAt) (fs : List FrameAt)
    → find_frame a (f ∷ fs) ≡ some s
    → (((f.address == a) ≡ true) × (record { address = a; shared = s } ≡ f))
      ⊎ (((f.address == a) ≡ false) × (find_frame a fs ≡ some s))
find_cases a s f fs e = elim (Bool-cases (f.address == a)) [
  | inl p ↦ inl (p, same a s f fs p e)
  | inr p ↦ inr (p, missed a s f fs p e)
]

pub find-Found :
    (a : ℕ) (s : Shared) (fs : List FrameAt)
    → find_frame a fs ≡ some s
    → Found a s fs (drop_frame a fs)
find-Found a s [] e = cc
find-Found a s (f ∷ fs) e = elim (find_cases a s f fs e) [
  | inl (p, q) ↦ rw p (subst (λ (g : FrameAt). Found a s (g ∷ fs) fs) q (here fs))
  | inr (p, q) ↦ rw p (later f (find-Found a s fs q))
]

pub change-Found :
    (a : ℕ) (s s' : Shared) (fs : List FrameAt)
    → find_frame a fs ≡ some s
    → Found a s' (change_frame a s' fs) (drop_frame a fs)
change-Found a s s' [] e = cc
change-Found a s s' (f ∷ fs) e = elim (find_cases a s f fs e) [
  | inl (p, q) ↦ rw p (here fs)
  | inr (p, q) ↦ rw p (later f (change-Found a s s' fs q))
]

pub Found-In :
    {a : ℕ} {s : Shared} {fs ds : List FrameAt}
    → Found a s fs ds
    → In (record { address = a; shared = s }) fs
Found-In (here fs) = inl refl
Found-In (later f m) = inr (Found-In m)

pub others-In :
    {a : ℕ} {s : Shared} {fs ds : List FrameAt}
    → Found a s fs ds
    → (g : FrameAt) → In g ds
    → In g fs
others-In (here fs) g h = inr h
others-In (later f m) g (inl e) = inl e
others-In (later f m) g (inr h) = inr (others-In m g h)

-- Each frame of the first list is the one that is found, or one of the others.
pub In-Found :
    {a : ℕ} {s : Shared} {fs ds : List FrameAt}
    → Found a s fs ds
    → (g : FrameAt) → In g fs
    → (g ≡ record { address = a; shared = s }) ⊎ In g ds
In-Found (here fs) g h = h
In-Found (later f m) g (inl e) = inr (inl e)
In-Found (later f m) g (inr h) = elim (In-Found m g h) [ inl e ↦ inl e | inr i ↦ inr (inr i) ]

abbrev pub one_if : ℕ → ℕ → ℕ
one_if x y = if x == y then 1 else 0

pub uses-Found :
    {a : ℕ} {s : Shared} {fs ds : List FrameAt} (c : ℕ)
    → Found a s fs ds
    → uses c fs ≡ one_if (block s.usage_count) c + uses c ds
uses-Found c (here fs) = refl
uses-Found c (later f m) = omega (arith, uses-Found c m)

parts_swap :
    (x y u v g h : ℕ)
    → (x ≡ y → u ≡ v)
    → (x ≡ y → g ≡ h)
    → part (one_if x y + v) h + part u g ≡ part (one_if y x + u) g + part v h
unfolding part
parts_swap x y u v g h e k = elim (Bool-cases (x == y)) [
  | inl p ↦ let q = (==_iff x y).0 p in ground (arith, q, e q, k q)
  | inr p ↦ ground (arith, p)
]

pub owned-Found :
    {a : ℕ} {s : Shared} {fs ds : List FrameAt} (b : ℕ)
    → Found a s fs ds
    → AllAlike fs
    → owned fs b ≡ tick a b + shared_part s ds b + owned ds b
owned-Found b (here fs) k = refl
owned-Found {a} {s} b (later f {fs} {ds} m) k =
    let x = block s.usage_count in
    let y = block f.shared.usage_count in
    let ih = owned-Found b m (λ g h i j. k g h (inr i) (inr j)) in
    let alike : x ≡ y → group s b ≡ group f.shared b = λ e.
      ap (λ t. group t b)
        (k (record { address = a; shared = s }) f (inr (Found-In m)) (inl refl) e) in
    let parts =
      parts_swap x y (uses x ds) (uses y ds) (group s b) (group f.shared b) (ap (λ z. uses z ds))
        alike in
    let shift = ap (λ n. part n (group f.shared b)) (uses-Found y m) in
    omega (arith, ih, parts, shift)

group-block :
    (s : Shared) (p : Place)
    → s.usage_count ≡ p
    → IsPlaced p s
    → block p ≢ 0
    → group s (block p) ≢ 0
group-block s (inside b) e (c, x, d) n z = ground (arith, e, c, x, d, n, z)
group-block s (own b) e c n z = ground (arith, e, c, n, z)

-- The block of a counter that is in use is owned.
pub uses-owned : (c : ℕ) (fs : List FrameAt) → AllMade fs → uses c fs ≢ 0 → owned fs c ≢ 0
unfolding part
uses-owned c [] m n e = n refl
uses-owned c (f ∷ fs) m n e = elim (Bool-cases (uses c fs == 0)) [
  | inl p ↦
      let z : uses c fs ≡ 0 = (==_iff (uses c fs) 0).0 p in
      let here : block f.shared.usage_count ≡ c = ground (arith, z, n) in
      let last : part (uses (block f.shared.usage_count) fs) (group f.shared c) ≡ group f.shared c =
        rw (here, z) refl in
      let made = m f (inl refl) in
      group-block f.shared f.shared.usage_count refl made.placed made.block_set
        (subst (λ x. group f.shared x ≡ 0) (sym here) (omega (arith, e, last)))
  | inr p ↦ uses-owned c fs (λ g h. m g (inr h)) (λ z. ground (arith, p, z)) (omega (arith, e))
]
