-- ===== src/Tcp/Insertion.antt =====
-- A segment that enters an input queue of modules/pico_tcp.c without overlapping the others.
use picotcp.Base.{ℕ, ◌<◌, ◌≤◌, ◌≡◌, ◌⊎◌, inl, inr, List, [], ◌∷◌, arith}
use picotcp.Tree.Order.{insert_key}
use picotcp.Tree.Search.{All}
use picotcp.Tcp.{Segment, input}
use picotcp.Tcp.Order.{by_offset}
use picotcp.Tcp.Segments.{All-insert_key}
use picotcp.Tcp.Layout.{start, stop, Fits, Laid, From, From-weaken, Laid-From, Pending, Held, Keeps}

module _ (base : ℕ) (stream : ℕ → ℕ) where
  -- The segment has no byte in common with another one.
  abbrev pub Apart : Segment → Segment → Type 0
  Apart a s =
      (stop base stream s ≤ start base stream a) ⊎ (stop base stream a ≤ start base stream s)

  abbrev put : Segment → List Segment → List Segment
  put a xs = insert_key (by_offset input base) a xs

  insert-Laid :
      (lo : ℕ) (a : Segment) (xs : List Segment)
      → Laid base stream lo xs
      → lo ≤ start base stream a
      → Fits base stream a
      → All (Apart a) xs
      → Laid base stream lo (put a xs)
  unfolding insert_key
  insert-Laid lo a [] h m f c = (m, f, tt)
  insert-Laid lo a (s ∷ ss) (k, g, h) m f (c, d) =
      ground (
        arith,
        k,
        g,
        h,
        m,
        f,
        c,
        d,
        f.filled.0,
        g.filled.0,
        insert-Laid (stop base stream s) a ss h,
      )

  put_before :
      (a s : Segment) (ss : List Segment)
      → start base stream a < start base stream s
      → put a (s ∷ ss) ≡ a ∷ s ∷ ss
  unfolding insert_key
  put_before a s ss h = ground (arith, h)

  put_behind :
      (a s : Segment) (ss : List Segment)
      → start base stream s ≤ start base stream a
      → put a (s ∷ ss) ≡ s ∷ put a ss
  unfolding insert_key
  put_behind a s ss h = ground (arith, h)

  pub insert-Pending :
      (p : ℕ) (a : Segment) (xs : List Segment)
      → Pending base stream p xs
      → p ≤ start base stream a
      → Fits base stream a
      → All (Apart a) xs
      → Pending base stream p (put a xs)
  insert-Pending p a [] h m f c = unfold insert_key in (f, tt, tt)
  insert-Pending p a (s ∷ ss) (g, d, e) m f (inl b, c) = rw (put_behind a s ss (omega (arith, b))) (
    g,
    insert-Laid (stop base stream s) a ss d b f c,
    All-insert_key input base (From base stream p) a ss m e,
  )
  insert-Pending p a (s ∷ ss) (g, d, e) m f (inr b, c) =
      rw (put_before a s ss (omega (arith, b, f.filled.0))) (
        f,
        (b, g, d),
        (
          omega (arith, m, b),
          From-weaken base stream p (stop base stream s) ss (omega (arith, m, b))
              (Laid-From base stream (stop base stream s) ss d),
        ),
      )

  pub insert-Keeps : (p : ℕ) (a : Segment) (xs : List Segment) → Keeps base stream p xs (put a xs)
  unfolding insert_key
  insert-Keeps p a [] i m h = absurd h
  insert-Keeps p a (s ∷ ss) i m h = ground (arith, h, insert-Keeps p a ss i m)

  -- The bytes of the segment are there then.
  pub insert-Held :
      (a : Segment) (xs : List Segment) (i : ℕ)
      → start base stream a ≤ i
      → i < stop base stream a
      → Held base stream i (put a xs)
  unfolding insert_key
  insert-Held a [] i h k = inl (h, k)
  insert-Held a (s ∷ ss) i h k = ground (arith, h, k, insert-Held a ss i h k)
