-- ===== src/Tcp/Release.antt =====
-- release_until of modules/pico_tcp.c on an input queue whose segments do not overlap: at most the
-- first segment leaves.
use picotcp.Base.{
  ℕ, zero, suc, ◌<◌, ◌≤◌, ◌≡◌, refl, sym, ap, ◌∙◌, Bool, true, false, none, some, List, [], ◌∷◌,
  arith, ◌⊎◌, inl, inr, leb, if◌then◌else◌, Option-cases,
}
use picotcp.Seq.Window.{off}
use picotcp.Tree.Order.{search_key}
use picotcp.Tree.Search.{All}
use picotcp.Tcp.{
  Segment, input, TcpQueue, end_of, next_segment, discard_segment, release_from, release_until,
}
use picotcp.Tcp.Order.{InWindow, by_offset, off-end_of, end_of-InWindow, not_later-off}
use picotcp.Tcp.Segments.{Holds, first_segment-Holds, peek_segment-Holds, discard_segment-Holds}
use picotcp.Tcp.Layout.{stop, Fits, Laid, From, Pending, Fresh, Held, Keeps, Keeps-drop}

-- What a search finds is one of the segments, at the number that is searched for.
pub found_at :
    (P : Segment → Type 0) (base : ℕ) (a z : Segment) (xs : List Segment)
    → All P xs
    → search_key (by_offset input base) a xs ≡ some z
    → P z × (off base z.seq ≡ off base a.seq)
unfolding search_key
found_at P base a z [] h e = cc
found_at P base a z (x ∷ xs) h e = ground (arith, h, e, found_at P base a z xs h.1)

module _ (base : ℕ) (stream : ℕ → ℕ) (l : base < 4294967296) where
  -- The segments that release_until leaves.
  abbrev pub released : ℕ → List Segment → List Segment
  released p [] = []
  released p (s ∷ ss) = if leb (stop base stream s) p then ss else s ∷ ss

  abbrev Behind : ℕ → ℕ → Segment → Type 0
  Behind p e z = Fits base stream z × ((p ≤ off base z.seq) ⊎ (off base z.seq < e))

  all-Behind :
      (p e lo : ℕ) (ss : List Segment)
      → Laid base stream lo ss
      → All (From base stream p) ss
      → All (Behind p e) ss
  all-Behind p e lo [] d g = tt
  all-Behind p e lo (z ∷ ss) (m, f, d) (b, g) =
      ((f, inl b), all-Behind p e (stop base stream z) ss d g)

  -- The search for the segment behind the first one finds none that has been handed out.
  next-Fresh :
      (p : ℕ) (s z : Segment) (ss : List Segment) (q : TcpQueue Segment)
      → Holds input base q (s ∷ ss)
      → Pending base stream p (s ∷ ss)
      → next_segment input q s ≡ some z
      → Fits base stream z × (p ≤ off base z.seq)
  unfolding next_segment
  next-Fresh p s z ss q v (f, d, g) e =
      let o = off-end_of input base s l f.here f.ends in
      let w = end_of-InWindow input base s l f.here f.ends in
      let ((k, b), i) =
        found_at (Behind p (stop base stream s)) base (input.at (end_of input s)) z (s ∷ ss)
          (
            (f, inr (omega (arith, f.filled.0))),
            all-Behind p (stop base stream s) (stop base stream s) ss d g,
          )
          (sym (peek_segment-Holds input base l q (s ∷ ss) v (end_of input s) refl w) ∙ e) in
      (k, elim b [ inl c ↦ c | inr c ↦ absurd (omega (arith, c, i, o)) ])

  -- The loop stops at a segment that ends behind the place.
  release_from-Fresh :
      (fuel n : ℕ) (q : TcpQueue Segment) (z : Segment)
      → InWindow base n
      → Fits base stream z
      → off base n < stop base stream z
      → release_from input fuel q n (some z) ≡ (q, 0)
  unfolding release_from
  release_from-Fresh zero n q z w f g = refl
  release_from-Fresh (suc fuel) n q z w f g =
      let o = off-end_of input base z l f.here f.ends in
      elim (not_later-off base (end_of input z) n l (end_of-InWindow input base z l f.here f.ends)
        w) [ inl (t, b) ↦ absurd (omega (arith, b, o, g)) | inr (t, b) ↦ rw t refl ]

  release_from-none :
      (fuel n : ℕ) (q : TcpQueue Segment) → release_from input fuel q n none ≡ (q, 0)
  unfolding release_from
  release_from-none zero n q = refl
  release_from-none (suc fuel) n q = refl

  released_drop :
      (p : ℕ) (s : Segment) (ss : List Segment) → stop base stream s ≤ p → released p (s ∷ ss) ≡ ss
  released_drop p s ss h = ground (arith, h)

  released_keep :
      (p : ℕ) (s : Segment) (ss : List Segment)
      → p < stop base stream s
      → released p (s ∷ ss) ≡ s ∷ ss
  released_keep p s ss h = ground (arith, h)

  -- What follows the first segment, when it has left the queue.
  release_next :
      (fuel n : ℕ) (s : Segment) (ss : List Segment) (q q' : TcpQueue Segment)
      → InWindow base n
      → Holds input base q (s ∷ ss)
      → Pending base stream (off base n) (s ∷ ss)
      → (release_from input fuel q' n (next_segment input q s)).0 ≡ q'
  unfolding release_from
  release_next fuel n s ss q q' w v h = elim (Option-cases (next_segment input q s)) [
    | inl e ↦ rw e (ap (λ (r : TcpQueue Segment × ℕ). r.0) (release_from-none fuel n q'))
    | inr (z, e) ↦
        let (f, g) = next-Fresh (off base n) s z ss q v h e in
        rw e (
          ap (λ (r : TcpQueue Segment × ℕ). r.0)
            (release_from-Fresh fuel n q' z w f (omega (arith, g, f.filled.0))))
  ]

  -- release_until on a queue without overlaps leaves out the first segment, if its bytes have all
  -- been handed out.
  pub release_until-Holds :
      (fuel n : ℕ) (xs : List Segment) (q : TcpQueue Segment)
      → InWindow base n
      → Holds input base q xs
      → Pending base stream (off base n) xs
      → Holds input base (release_until input (suc fuel) q n).0 (released (off base n) xs)
  unfolding release_until release_from
  release_until-Holds fuel n [] q w v h = rw (first_segment-Holds input base l q [] v) v
  release_until-Holds fuel n (s ∷ ss) q w v h =
      let f = h.0 in
      let o = off-end_of input base s l f.here f.ends in
      let q' = discard_segment input q s in
      elim (not_later-off base (end_of input s) n l (end_of-InWindow input base s l f.here f.ends)
        w) [
          | inl (t, b) ↦
              rw
                (
                  first_segment-Holds input base l q (s ∷ ss) v,
                  t,
                  released_drop (off base n) s ss (omega (arith, b, o)),
                  release_next fuel n s ss q q' w v h,
                )
                (discard_segment-Holds input base l q s ss v)
          | inr (t, b) ↦
              rw
                (
                  first_segment-Holds input base l q (s ∷ ss) v,
                  t,
                  released_keep (off base n) s ss (omega (arith, b, o)),
                )
                v
        ]

  behind_first :
      (p lo : ℕ) (ss : List Segment)
      → Laid base stream lo ss
      → All (From base stream p) ss
      → Pending base stream p ss × Fresh base stream p ss
  behind_first p lo [] d g = (tt, tt)
  behind_first p lo (z ∷ ss) (m, f, d) (b, g) = ((f, d, g), omega (arith, b, f.filled.0))

  -- What is left begins with bytes that have not been handed out.
  pub released-Pending :
      (p : ℕ) (xs : List Segment)
      → Pending base stream p xs
      → Pending base stream p (released p xs) × Fresh base stream p (released p xs)
  released-Pending p [] h = (tt, tt)
  released-Pending p (s ∷ ss) (f, d, g) = by_test (leb (stop base stream s) p) refl
    where
      by_test :
          (b : Bool)
          → leb (stop base stream s) p ≡ b
          → Pending base stream p (if b then ss else s ∷ ss)
            × Fresh base stream p (if b then ss else s ∷ ss)
      by_test true e = behind_first p (stop base stream s) ss d g
      by_test false e = ((f, d, g), ground (arith, e))

  -- Only bytes that have been handed out are released.
  pub released-Keeps : (p : ℕ) (xs : List Segment) → Keeps base stream p xs (released p xs)
  released-Keeps p [] i m h = h
  released-Keeps p (s ∷ ss) i m h = by_test (leb (stop base stream s) p) refl
    where
      by_test :
          (b : Bool)
          → leb (stop base stream s) p ≡ b
          → Held base stream i (if b then ss else s ∷ ss)
      by_test true e = Keeps-drop base stream p s ss (ground (arith, e)) i m h
      by_test false e = h
