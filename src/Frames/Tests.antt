-- ===== src/Frames/Tests.antt =====
-- Runs of the calls of stack/pico_frame.c, and instances of the theorems.
use picotcp.Base.{ℕ, ◌≡◌, ◌≢◌, refl, inr, true, false, arith}
use picotcp.Frames.{inside, own, Shared, Store, Given, do_alloc, new_shared, copy, discard, grow}
use picotcp.Frames.Owned.{uses, owned}
use picotcp.Frames.Runs.{
  allocs, copies, discards, Run, stop, step, empty_store, run_exact, frame_live,
}
use picotcp.Frames.Faults.{grow_shared_faults}

abbrev given : ℕ → ℕ → Given
given a b = record { frame = a; second = b; third = 0 }

-- A frame at 1 with its buffer at 2.
abbrev first : Shared
first = new_shared 100 (inside 2) false 2

abbrev one_frame : Store
one_frame = (do_alloc (given 1 2) 100 false false empty_store).0

abbrev two_frames : Store
two_frames = (copy (given 3 0) first one_frame).0

abbrev last_frame : Store
last_frame = discard 1 first two_frames

-- The buffer stays for the copy, and goes with it.
kept : last_frame.blocks.allocs 2 ≡ 1
unfolding do_alloc copy discard
kept = refl

gone_all : (discard 3 first last_frame).blocks.allocs 2 ≡ 0
unfolding do_alloc copy discard
gone_all = refl

three_calls : Run empty_store last_frame
unfolding do_alloc copy discard
three_calls =
    step (allocs (given 1 2) 100 (inr (record { is_set = λ e. omega (arith, e); is_new = refl }))) (
      step (copies 1 first (given 3 0) refl (omega arith))
        (step (discards 1 first refl (omega arith)) (stop last_frame)))

run_exact_example :
    (last_frame.blocks.is_faulty ≡ false) × (last_frame.blocks.allocs 2 ≡ owned last_frame.frames 2)
run_exact_example = run_exact last_frame three_calls 2

frame_live_example :
    (last_frame.blocks.allocs 2 ≢ 0) × (last_frame.counts 2 ≡ uses 2 last_frame.frames)
unfolding do_alloc copy discard
frame_live_example = frame_live last_frame three_calls 3 first refl 2 (λ e. omega (arith, e))

grow_shared_faults_example :
    (discard 3 first (grow (given 0 4) 1 200 first two_frames).0).blocks.is_faulty ≡ true
unfolding do_alloc copy
grow_shared_faults_example =
    grow_shared_faults two_frames (given 0 4) 1 3 200 first 2 refl refl refl refl refl
      (λ e. omega (arith, e)) refl (λ e. omega (arith, e)) (λ e. omega (arith, e))

-- A skeleton with its counter at 5.
abbrev outside : Shared
outside = new_shared 100 (own 5) true 0
