-- ===== src/Tcp/Acked.antt =====
-- What an acknowledgement takes out of the output queue: release_all_until of modules/pico_tcp.c.
use picotcp.Base.{
  ℕ, suc, ◌+◌, ◌<◌, ◌≤◌, ◌≡◌, refl, sym, ap, ◌∙◌, subst, List, [], ◌∷◌, ◌++◌, arith, inl, inr,
  length, if◌then◌else◌,
}
use picotcp.Seq.{seq_compare}
use picotcp.Seq.Window.{off}
use picotcp.Tree.Search.{All}
use picotcp.Tree.Walk.{foreach, foreach-keys}
use picotcp.Tcp.{
  OutFrame, output, TcpQueue, end_of, is_zero, discard_segment, release_each, release_all_until,
}
use picotcp.Tcp.Order.{InWindow, Ends, off-end_of, end_of-InWindow, not_later-off}
use picotcp.Tcp.Segments.{Holds, discard_segment-Holds}

module _ (base n : ℕ) where
  -- The frame ends at the number or before it.
  abbrev pub Covered : OutFrame → Type 0
  Covered f = off base f.seq + f.payload_len ≤ off base n

  -- The first frame, if there is one, ends behind the number.
  abbrev pub Waiting : List OutFrame → Type 0
  Waiting [] = Unit
  Waiting (f ∷ fs) = off base n < off base f.seq + f.payload_len

  abbrev Released : List OutFrame → TcpQueue OutFrame × ℕ × ℕ → Type 0
  Released fs (q', stamp, count) =
      (gone rest : List OutFrame) × (fs ≡ gone ++ rest)
      × Holds output base q' rest
      × (count ≡ length gone)
      × All Covered gone
      × Waiting rest

  release_each-Released :
      (q : TcpQueue OutFrame) (stamp : ℕ) (fs : List OutFrame)
      → base < 4294967296
      → InWindow base n
      → Holds output base q fs
      → All (Ends output base) fs
      → Released fs (release_each q n stamp fs)
  unfolding release_each
  release_each-Released q stamp [] l w v e = ([], [], refl, v, refl, tt, tt)
  release_each-Released q stamp (f ∷ fs) l w v e =
      let g = off-end_of output base f l v.here.0 e.0 in
      let stamp' = if is_zero (seq_compare (end_of output f) n) then f.timestamp else stamp in
      elim (not_later-off base (end_of output f) n l (end_of-InWindow output base f l v.here.0 e.0)
        w) [
          | inl (t, b) ↦ rw t (
              prepend b g (release_each (discard_segment output q f) n stamp' fs) (
                release_each-Released (discard_segment output q f) stamp' fs l w
                  (discard_segment-Holds output base l q f fs v) e.1))
          | inr (t, b) ↦ rw t ([], f ∷ fs, refl, v, refl, tt, omega (arith, b, g))
        ]
    where
      prepend :
          off base (end_of output f) ≤ off base n
          → off base (end_of output f) ≡ off base f.seq + f.payload_len
          → (r : TcpQueue OutFrame × ℕ × ℕ) → Released fs r
          → Released (f ∷ fs) (r.0, r.1, suc r.2)
      prepend b g r (gone, rest, p, h, c, a, m) = (
        f ∷ gone,
        rest,
        ap (λ (ys : List OutFrame). f ∷ ys) p,
        h,
        ap suc c,
        (omega (arith, b, g), a),
        m,
      )

  -- release_all_until on an output queue in order, all of whose frames end inside the window, with
  -- fuel for all frames: the frames that leave are the first ones, all of them end at the number or
  -- before it, and the first one that stays ends behind it; the queue is in order, and the result
  -- counts the frames that have left.
  pub release_all_until_splits :
      (fuel : ℕ) (q : TcpQueue OutFrame) (fs : List OutFrame)
      → base < 4294967296
      → InWindow base n
      → Holds output base q fs
      → All (Ends output base) fs
      → length fs ≤ fuel
      → let (q', stamp, count) = release_all_until fuel q n in
        (gone rest : List OutFrame) × (fs ≡ gone ++ rest)
        × Holds output base q' rest
        × (count ≡ length gone)
        × All Covered gone
        × Waiting rest
  unfolding release_all_until
  release_all_until_splits fuel q fs l w v e m =
      let p : foreach fuel q.pool ≡ fs =
        foreach-keys fuel q.pool (omega (arith, ap length v.held, m)) ∙ v.held in
      subst (λ xs. Released fs (release_each q n 0 xs)) (sym p)
        (release_each-Released q 0 fs l w v e)
