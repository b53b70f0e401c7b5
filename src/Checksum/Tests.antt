-- ===== src/Checksum/Tests.antt =====
-- Runs of the checksum of stack/pico_frame.c, and instances of the theorems.
use picotcp.Base.{ℕ, ◌%◌, ◌/◌, ◌≡◌, refl, List, [], ◌∷◌, arith, short_be}
use picotcp.Checksum.{add_odd, add_words, checksum_adder, fold, checksum_finalize, checksum}
use picotcp.Checksum.Verify.{checksum_verifies}

-- A word, and the four bytes that follow the checksum.
abbrev before : List ℕ
before = 0x45 ∷ 0x00 ∷ []

abbrev after : List ℕ
after = 0xff ∷ 0xff ∷ 0x12 ∷ 0x34 ∷ []

stored : short_be (checksum (0x45 ∷ 0x00 ∷ 0 ∷ 0 ∷ 0xff ∷ 0xff ∷ 0x12 ∷ 0x34 ∷ [])) ≡ 0xcba8
unfolding checksum checksum_adder add_odd add_words checksum_finalize fold short_be
stored = refl

checksum_verifies_example :
    let c = short_be (checksum (0x45 ∷ 0x00 ∷ 0 ∷ 0 ∷ after)) in
    checksum (0x45 ∷ 0x00 ∷ c % 256 ∷ c / 256 ∷ after) ≡ 0
checksum_verifies_example = checksum_verifies before after refl (omega arith)
