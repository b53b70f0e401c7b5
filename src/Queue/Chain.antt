-- ===== src/Queue/Chain.antt =====
-- The frames of a queue of include/pico_queue.h as a list, and how the list changes with the links.
use picotcp.Base.{ℕ, ◌≡◌, ◌≢◌, refl, sym, List, [], ◌∷◌, ◌++◌, arith}
use picotcp.Queue.{store}

-- The links lead from `a` through the frames of the list to NULL.
abbrev pub Chain : (ℕ → ℕ) → ℕ → List ℕ → Type 0
Chain next a [] = a ≡ 0
Chain next a (f ∷ fs) = (a ≡ f) × (f ≢ 0) × Chain next (next f) fs

abbrev pub NotIn : ℕ → List ℕ → Type 0
NotIn p [] = Unit
NotIn p (f ∷ fs) = (p ≢ f) × NotIn p fs

abbrev pub Distinct : List ℕ → Type 0
Distinct [] = Unit
Distinct (f ∷ fs) = NotIn f fs × Distinct fs

abbrev pub last : ℕ → List ℕ → ℕ
last f [] = f
last f (g ∷ fs) = last g fs

abbrev pub last_or_null : List ℕ → ℕ
last_or_null [] = 0
last_or_null (f ∷ fs) = last f fs

-- A write to a frame that is not in the list.
pub Chain-store :
    (next : ℕ → ℕ) (p v a : ℕ) (fs : List ℕ)
    → NotIn p fs
    → Chain next a fs
    → Chain (store next p v) a fs
Chain-store next p v a [] n c = c
Chain-store next p v a (f ∷ fs) n (e, z, c) =
    (e, z, ground (arith, n.0, Chain-store next p v (next f) fs n.1 c))

last_ne : (f g : ℕ) (fs : List ℕ) → NotIn f (g ∷ fs) → last g fs ≢ f
last_ne f g [] n e = n.0 (sym e)
last_ne f g (k ∷ fs) n e = last_ne f k fs n.1 e

-- A new frame is hung in behind the last one.
pub Chain-append :
    (next : ℕ → ℕ) (p f : ℕ) (fs : List ℕ)
    → next p ≡ 0
    → p ≢ 0
    → NotIn p (f ∷ fs)
    → Distinct (f ∷ fs)
    → Chain next f (f ∷ fs)
    → Chain (store next (last f fs) p) f ((f ∷ fs) ++ p ∷ [])
Chain-append next p f [] x y n d (e, z, c) = (refl, z, (ground arith, y, ground (arith, n)))
Chain-append next p f (g ∷ fs) x y n d (e, z, (e', z', c)) =
    let (a, b, rest) = Chain-append next p g fs x y n.1 d.1 (refl, z', c) in
    (refl, z, (ground (arith, e', last_ne f g fs d.0), b, rest))

pub NotIn-append : (p q : ℕ) (fs : List ℕ) → NotIn p fs → p ≢ q → NotIn p (fs ++ q ∷ [])
NotIn-append p q [] n h = (h, tt)
NotIn-append p q (f ∷ fs) n h = (n.0, NotIn-append p q fs n.1 h)

pub Distinct-append : (fs : List ℕ) (p : ℕ) → Distinct fs → NotIn p fs → Distinct (fs ++ p ∷ [])
Distinct-append [] p d n = (tt, tt)
Distinct-append (f ∷ fs) p d n =
    (NotIn-append f p fs d.0 (λ e. n.0 (sym e)), Distinct-append fs p d.1 n.1)

pub last-append : (f p : ℕ) (fs : List ℕ) → last f (fs ++ p ∷ []) ≡ p
last-append f p [] = refl
last-append f p (g ∷ fs) = last-append g p fs
