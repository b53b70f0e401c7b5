-- ===== src/Checksum.antt =====
-- The Internet checksum of stack/pico_frame.c, on a machine with the low byte first. A buffer is
-- the list of its bytes.
pub mod Verify
mod Tests
use picotcp.Base.{
  ℕ, zero, suc, ◌+◌, ◌-◌, ◌*◌, ◌/◌, ◌%◌, List, [], ◌∷◌, if◌then◌else◌, ◌==◌, u16, u32, short_be,
}

-- The last byte of a buffer of odd length, which pico_checksum_adder adds first.
unfoldable pub add_odd : ℕ → List ℕ → ℕ
add_odd sum [] = sum
add_odd sum (a ∷ []) = u32 (sum + a)
add_odd sum (a ∷ b ∷ bs) = add_odd sum bs

-- The loop over the words.
unfoldable pub add_words : ℕ → List ℕ → ℕ
add_words sum [] = sum
add_words sum (a ∷ []) = sum
add_words sum (a ∷ b ∷ bs) = add_words (u32 (sum + (a + 256 * b))) bs

-- pico_checksum_adder
unfoldable pub checksum_adder : ℕ → List ℕ → ℕ
checksum_adder sum bs = add_words (add_odd sum bs) bs

-- The loop of pico_checksum_finalize, in at most so many rounds.
unfoldable pub fold : ℕ → ℕ → ℕ
fold zero sum = sum
fold (suc fuel) sum =
    let rest = fold fuel (sum % 65536 + sum / 65536) in if sum / 65536 == 0 then sum else rest

-- pico_checksum_finalize
unfoldable pub checksum_finalize : ℕ → ℕ
checksum_finalize sum = short_be (u16 (4294967295 - fold 2 sum))

-- pico_checksum
unfoldable pub checksum : List ℕ → ℕ
checksum bs = checksum_finalize (checksum_adder 0 bs)

-- pico_dualbuffer_checksum
unfoldable pub dualbuffer_checksum : List ℕ → List ℕ → ℕ
dualbuffer_checksum bs1 bs2 = checksum_finalize (checksum_adder (checksum_adder 0 bs1) bs2)
