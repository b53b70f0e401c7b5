-- ===== src/Seq.antt =====
-- Sequence numbers of 32 bits that wrap: pico_seq_compare of stack/pico_stack.c.
pub mod Window
mod Tests
use picotcp.Base.{
  ℕ, zero, suc, ◌-◌, if◌then◌else◌, ltb, sub32, ℤ, pos, negsuc, to_int32, neg_int32, Ordering,
}

-- `thresh` is 2 ^ 31 - 1.
unfoldable pub seq_compare : ℕ → ℕ → ℤ
seq_compare a b =
    if ltb b a
    then if ltb 2147483647 (a - b) then neg_int32 (to_int32 (sub32 b a)) else to_int32 (a - b)
    else if ltb a b
    then if ltb 2147483647 (b - a) then to_int32 (sub32 a b) else neg_int32 (to_int32 (b - a))
    else pos 0

-- What a tree reads of the result of its `compare`.
abbrev pub sign : ℤ → Ordering
sign (pos zero) = Ordering.eq
sign (pos (suc n)) = Ordering.gt
sign (negsuc n) = Ordering.lt
