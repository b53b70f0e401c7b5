-- ===== src/Tcp/Order.antt =====
-- The order of the queues of modules/pico_tcp.c: inside a window of half the sequence space, that
-- of the distances from the start of the window.
use picotcp.Base.{
  ℕ, ◌+◌, ◌<◌, ◌≤◌, ◌≡◌, true, false, List, [], ◌∷◌, arith, ◌⊎◌, inl, inr, compare, Ordering,
}
use picotcp.Seq.{seq_compare, sign}
use picotcp.Seq.Window.{off, off-u32, seq_compare-off}
use picotcp.Tree.Order.{IsOrder}
use picotcp.Tree.Search.{All}
use picotcp.Tree.Agree.{Agree}
use picotcp.Tcp.{Kind, end_of, segment_compare, not_later, is_zero}

pub record InWindow (base n : ℕ) : Type 0 where
  pub word : n < 4294967296
  pub near : off base n < 2147483648

sign-off :
    (base a b : ℕ)
    → base < 4294967296
    → InWindow base a
    → InWindow base b
    → sign (seq_compare a b) ≡ compare (off base a) (off base b)
sign-off base a b k v w = elim (seq_compare-off base a b k v.word w.word v.near w.near) [
  | inl (l, e) ↦ ground (arith, e, l)
  | inr (l, e) ↦ ground (arith, e, l)
]

-- The tests on a difference of two numbers of the window.
pub not_later-off :
    (base a b : ℕ)
    → base < 4294967296
    → InWindow base a
    → InWindow base b
    → ((not_later (seq_compare a b) ≡ true) × (off base a ≤ off base b))
      ⊎ ((not_later (seq_compare a b) ≡ false) × (off base b < off base a))
not_later-off base a b k v w = elim (seq_compare-off base a b k v.word w.word v.near w.near) [
  | inl (l, e) ↦ ground (arith, e, l)
  | inr (l, e) ↦ ground (arith, e, l)
]

pub is_zero-off :
    (base a b : ℕ)
    → base < 4294967296
    → InWindow base a
    → InWindow base b
    → is_zero (seq_compare a b) ≡ true
    → off base a ≡ off base b
is_zero-off base a b k v w z = elim (seq_compare-off base a b k v.word w.word v.near w.near) [
  | inl (l, e) ↦ ground (arith, e, l, z)
  | inr (l, e) ↦ ground (arith, e, l, z)
]

module _ {ℓ} {A : Type ℓ} (k : Kind A) (base : ℕ) where
  abbrev pub by_offset : A → A → Ordering
  by_offset a b = compare (off base (k.seq a)) (off base (k.seq b))

  pub by_offset-IsOrder : IsOrder by_offset
  by_offset-IsOrder = record {
    flip = λ a b. ground arith;
    trans = λ a b c h i. ground arith;
    congr = λ a b c h. ground arith;
  }

  abbrev pub Here : A → Type 0
  Here a = InWindow base (k.seq a)

  pub agree :
      (x : A) (ys : List A)
      → base < 4294967296
      → Here x
      → All Here ys
      → All (Agree (segment_compare k) by_offset x) ys
  agree x [] l h a = tt
  agree x (y ∷ ys) l h a = (
    (sign-off base (k.seq y) (k.seq x) l a.0 h, sign-off base (k.seq x) (k.seq y) l h a.0),
    agree x ys l h a.1,
  )

  -- A segment that ends inside the window.
  abbrev pub Ends : A → Type 0
  Ends a = off base (k.seq a) + k.payload_len a < 2147483648

  pub off-end_of :
      (a : A)
      → base < 4294967296
      → Here a
      → Ends a
      → off base (end_of k a) ≡ off base (k.seq a) + k.payload_len a
  off-end_of a l h e = off-u32 base (k.seq a) (k.payload_len a) l h.word (omega (arith, e))

  pub end_of-InWindow : (a : A) → base < 4294967296 → Here a → Ends a → InWindow base (end_of k a)
  end_of-InWindow a l h e = record {
    word = omega arith;
    near = omega (arith, off-end_of a l h e, e);
  }
