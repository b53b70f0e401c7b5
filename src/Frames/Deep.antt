-- ===== src/Frames/Deep.antt =====
-- pico_frame_deepcopy of stack/pico_frame.c.
use picotcp.Base.{ℕ, ◌≡◌, ◌≢◌, ◌⊎◌, refl, sym, ap, subst, false, if_cases, arith, ◌==◌, ==_iff}
use picotcp.Frames.{
  inside, Shared, Store, Given, change_frame, alloc_block, new_shared, started, deepcopied,
  do_alloc, discard, filled, deepcopy,
}
use picotcp.Frames.Memory.{allocated-IsExact}
use picotcp.Frames.Valid.{IsValid, discard-IsValid}
use picotcp.Frames.Added.{
  IsFree, add-IsValid, started-IsValid, both-IsExact, failed-IsValid, second_unused,
}
use picotcp.Frames.Changed.{change_head}

module _ (st : Store) (v : IsValid st) (g : Given) (fr : (g.second ≡ 0) ⊎ IsFree g.second st.blocks)
    (s : Shared) (no_counter : s.ext_counter ≡ false) (no_buffer : s.ext_buffer ≡ false) where
  abbrev bare : Shared
  bare = record (deepcopied g s) { info = 0 }

  abbrev whole : Shared
  whole = record (deepcopied g s) { info = g.third }

  -- The new frame with the fields of the old one.
  abbrev with_fields : Shared → Store
  with_fields t = (started g.frame t (alloc_block g.second (alloc_block g.frame st))).0

  module _ (n : g.frame ≢ 0) (k : g.second ≢ 0) where
    bare-IsValid : IsValid (with_fields bare)
    bare-IsValid =
        started-IsValid st v g fr bare n k refl (no_counter, no_buffer, refl)
          (λ b. ground (arith, no_counter, no_buffer))

    -- With a block for `info`.
    whole-IsValid : g.third ≢ 0 → IsValid (alloc_block g.third (with_fields whole))
    whole-IsValid t =
        add-IsValid st v g.frame g.third whole _
          (record { address_set = n; block_set = k; placed = (no_counter, no_buffer, refl) })
          (second_unused st v g fr k) (λ b. ground (arith, no_counter, no_buffer))
          (allocated-IsExact g.third _ _ _ t (both-IsExact st v g fr n k) (λ b. omega arith))

    discarded-IsValid : IsValid (discard g.frame bare (with_fields bare))
    discarded-IsValid =
        discard-IsValid (with_fields bare) bare-IsValid g.frame bare
          (rw ((==_iff g.frame g.frame).1 refl) refl) (ground arith)

  abbrev alloced : Store
  alloced =
      (started g.frame (new_shared s.buffer_len (inside g.second) false g.second)
        (alloc_block g.second (alloc_block g.frame st))).0

  -- The fields are copied over those of the new frame.
  fields_set :
      (i : ℕ)
      → with_fields (record (deepcopied g s) { info = i }) ≡ record alloced {
        frames = change_frame g.frame (record (deepcopied g s) { info = i }) alloced.frames;
      }
  fields_set i =
      ap
        (λ fs. record {
          blocks = (with_fields (record (deepcopied g s) { info = i })).blocks;
          counts = (with_fields (record (deepcopied g s) { info = i })).counts;
          frames = fs;
        })
        (sym (
          change_head g.frame (new_shared s.buffer_len (inside g.second) false g.second)
            (record (deepcopied g s) { info = i }) st.frames))

  filled-IsValid : g.frame ≢ 0 → g.second ≢ 0 → IsValid (filled g s (alloced, g.frame)).0
  unfolding filled
  filled-IsValid n k =
      if_cases Valid (g.frame == 0) _ _ (λ z. absurd (ground (arith, n, z)))
        (λ _.
          if_cases Valid (s.info == 0) _ _ (λ _. subst IsValid (fields_set 0) (bare-IsValid n k))
            (λ _.
              if_cases Valid (g.third == 0) _ _
                (λ _.
                  subst (λ x. IsValid (discard g.frame bare x)) (fields_set 0)
                    (discarded-IsValid n k))
                (λ t.
                  subst (λ x. IsValid (alloc_block g.third x)) (fields_set g.third)
                    (whole-IsValid n k (λ z. ground (arith, t, z))))))
    where
      Valid : Store × ℕ → Type 0
      Valid r = IsValid r.0

  -- A frame with a buffer of its own, whose counter is in it.
  pub deepcopy-IsValid : IsValid (deepcopy g s st).0
  unfolding deepcopy filled do_alloc
  deepcopy-IsValid =
      if_cases (λ (r : Store × ℕ). IsValid (filled g s r).0) (g.frame == 0) _ _ (λ _. v)
        (λ n.
          if_cases (λ (r : Store × ℕ). IsValid (filled g s r).0) (g.second == 0) _ _
            (λ _. failed-IsValid st v g fr (λ z. ground (arith, n, z)))
            (λ k. filled-IsValid (λ z. ground (arith, n, z)) (λ z. ground (arith, k, z))))
