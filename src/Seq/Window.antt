-- ===== src/Seq/Window.antt =====
-- Inside a window of half the number space, pico_seq_compare of stack/pico_stack.c is the difference
-- of the distances from the start of the window, wherever the numbers wrap.
use picotcp.Base.{ℕ, ◌+◌, ◌-◌, ◌<◌, ◌≤◌, ◌≡◌, arith, sub32, u32, pos, negsuc, ◌⊎◌}
use picotcp.Seq.{seq_compare}

-- The distance of a number from the start of the window.
abbrev pub off : ℕ → ℕ → ℕ
off base x = sub32 x base

-- pico_seq_compare of two numbers of the window is the difference of their distances, with its
-- sign: positive or 0 if the first is the later one or the same, negative if it is the earlier one.
pub seq_compare-off :
    (base a b : ℕ)
    → base < 4294967296
    → a < 4294967296
    → b < 4294967296
    → off base a < 2147483648
    → off base b < 2147483648
    → ((off base b ≤ off base a) × (seq_compare a b ≡ pos (off base a - off base b)))
      ⊎ ((off base a < off base b) × (seq_compare a b ≡ negsuc (off base b - off base a - 1)))
unfolding seq_compare
seq_compare-off base a b k l m p q = ground arith

pub off-u32 :
    (base x n : ℕ)
    → base < 4294967296
    → x < 4294967296
    → off base x + n < 4294967296
    → off base (u32 (x + n)) ≡ off base x + n
off-u32 base x n k l m = omega arith
