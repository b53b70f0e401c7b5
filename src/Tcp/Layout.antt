-- ===== src/Tcp/Layout.antt =====
-- What the input queue of modules/pico_tcp.c holds of the peer's stream of bytes: segments at their
-- places in the stream, which do not overlap.
use picotcp.Base.{
  ℕ, zero, suc, ◌+◌, ◌-◌, ◌<◌, ◌≤◌, ◌≡◌, ◌⊎◌, inl, inr, refl, ap, ◌∙◌, List, [], ◌∷◌, ◌++◌, arith,
  length, take, drop,
}
use picotcp.Seq.Window.{off}
use picotcp.Tree.Search.{All}
use picotcp.Tcp.{Segment, input}
use picotcp.Tcp.Order.{Here, Ends}
use picotcp.Tcp.Segments.{Filled}

-- The bytes of a stream from one place on.
abbrev pub chunk : (ℕ → ℕ) → ℕ → ℕ → List ℕ
chunk stream i zero = []
chunk stream i (suc n) = stream i ∷ chunk stream (suc i) n

module _ (stream : ℕ → ℕ) where
  pub length-chunk : (i n : ℕ) → length (chunk stream i n) ≡ n
  length-chunk i zero = refl
  length-chunk i (suc n) = ap suc (length-chunk (suc i) n)

  pub chunk-append :
      (i m n : ℕ) → chunk stream i (m + n) ≡ chunk stream i m ++ chunk stream (i + m) n
  chunk-append i zero n = ground arith
  chunk-append i (suc m) n =
      let e : suc m + n ≡ suc (m + n) = omega arith in
      let f : suc i + m ≡ i + suc m = omega arith in
      ap (chunk stream i) e
      ∙ ap (λ (xs : List ℕ). stream i ∷ xs) (chunk-append (suc i) m n)
      ∙ ap (λ j. chunk stream i (suc m) ++ chunk stream j n) f

  drop-chunk : (i m n : ℕ) → drop m (chunk stream i n) ≡ chunk stream (i + m) (n - m)
  drop-chunk i zero n = ground arith
  drop-chunk i (suc m) zero = ground arith
  drop-chunk i (suc m) (suc n) = ground (arith, drop-chunk (suc i) m n)

  take-chunk : (i m n : ℕ) → m ≤ n → take m (chunk stream i n) ≡ chunk stream i m
  take-chunk i zero n l = refl
  take-chunk i (suc m) zero l = absurd (omega (arith, l))
  take-chunk i (suc m) (suc n) l =
      ap (λ (xs : List ℕ). stream i ∷ xs) (take-chunk (suc i) m n (omega (arith, l)))

  -- A part of a part of the stream.
  pub part-chunk :
      (i m n k : ℕ) → m + k ≤ n → take k (drop m (chunk stream i n)) ≡ chunk stream (i + m) k
  part-chunk i m n k l =
      ap (take k) (drop-chunk i m n) ∙ take-chunk (i + m) k (n - m) (omega (arith, l))

module _ (base : ℕ) (stream : ℕ → ℕ) where
  abbrev pub start : Segment → ℕ
  start s = off base s.seq

  abbrev pub stop : Segment → ℕ
  stop s = off base s.seq + length s.payload

  -- A segment of the window whose payload is that part of the stream.
  pub record Fits (s : Segment) : Type 0 where
    pub here : Here input base s
    pub ends : Ends input base s
    pub filled : Filled input base s
    pub bytes : s.payload ≡ chunk stream (start s) (length s.payload)

  -- The segments from one place on, one behind the other.
  abbrev pub Laid : ℕ → List Segment → Type 0
  Laid lo [] = Unit
  Laid lo (s ∷ ss) = (lo ≤ start s) × Fits s × Laid (stop s) ss

  abbrev pub From : ℕ → Segment → Type 0
  From lo s = lo ≤ start s

  pub From-weaken : (lo hi : ℕ) (ss : List Segment) → lo ≤ hi → All (From hi) ss → All (From lo) ss
  From-weaken lo hi [] l a = tt
  From-weaken lo hi (s ∷ ss) l a = (omega (arith, l, a.0), From-weaken lo hi ss l a.1)

  pub Laid-From : (lo : ℕ) (ss : List Segment) → Laid lo ss → All (From lo) ss
  Laid-From lo [] h = tt
  Laid-From lo (s ∷ ss) (l, f, h) =
      (l, From-weaken lo (stop s) ss (omega (arith, l)) (Laid-From (stop s) ss h))

  -- The segments of a socket that has handed out the stream up to a place: all but the first one
  -- begin there or later.
  abbrev pub Pending : ℕ → List Segment → Type 0
  Pending p [] = Unit
  Pending p (s ∷ ss) = Fits s × Laid (stop s) ss × All (From p) ss

  -- The first segment has bytes that have not been handed out.
  abbrev pub Fresh : ℕ → List Segment → Type 0
  Fresh p [] = Unit
  Fresh p (s ∷ ss) = p < stop s

  pub Laid-Pending :
      (lo p : ℕ) (ss : List Segment) → p ≤ lo → Laid lo ss → Pending p ss × Fresh p ss
  Laid-Pending lo p [] l h = (tt, tt)
  Laid-Pending lo p (s ∷ ss) l (m, f, h) = (
    (f, h, From-weaken p (stop s) ss (omega (arith, l, m)) (Laid-From (stop s) ss h)),
    omega (arith, l, m, f.filled.0),
  )

  -- A byte of the stream that one of the segments has.
  abbrev pub Held : ℕ → List Segment → Type 0
  Held i [] = ⊥
  Held i (s ∷ ss) = ((start s ≤ i) × (i < stop s)) ⊎ Held i ss

  -- The bytes from a place on that the first list of segments has, the second one has, too.
  abbrev pub Keeps : ℕ → List Segment → List Segment → Type 0
  Keeps p xs ys = (i : ℕ) → p ≤ i → Held i xs → Held i ys

  pub Keeps-drop : (p : ℕ) (s : Segment) (ss : List Segment) → stop s ≤ p → Keeps p (s ∷ ss) ss
  Keeps-drop p s ss l i m (inl h) = absurd (omega (arith, l, m, h.1))
  Keeps-drop p s ss l i m (inr h) = h

  pub Keeps-trans :
      (p q : ℕ) (xs ys zs : List Segment) → p ≤ q → Keeps p xs ys → Keeps q ys zs → Keeps q xs zs
  Keeps-trans p q xs ys zs l h k i m a = k i m (h i (omega (arith, l, m)) a)

  -- No segment after a place has its byte.
  pub From-Held : (i : ℕ) (ss : List Segment) → All (From (suc i)) ss → Held i ss → ⊥
  From-Held i [] a h = absurd h
  From-Held i (s ∷ ss) a (inl h) = omega (arith, a.0, h.0)
  From-Held i (s ∷ ss) a (inr h) = From-Held i ss a.1 h
