-- ===== src/Strings/Tests.antt =====
-- Runs of the functions of modules/pico_strings.c, and instances of the theorems.
use picotcp.Base.{ℕ, ◌≡◌, refl, List, [], ◌∷◌, ◌++◌, arith, pos}
use picotcp.Strings.{printed, write_digits, num2string, strncasecmp, too_short}
use picotcp.Strings.Decimal.{reads, AllDigits, num2string-reads}

-- "ab" with what is behind it in its block.
abbrev block : List ℕ
block = 97 ∷ 98 ∷ 0 ∷ 7 ∷ []

print_1305 : num2string (pos 1305) 11 ≡ printed (49 ∷ 51 ∷ 48 ∷ 53 ∷ 0 ∷ [])
unfolding num2string write_digits
print_1305 = refl

print_short : num2string (pos 1305) 3 ≡ too_short
unfolding num2string write_digits
print_short = refl

-- Compared up to the byte 0 that both have.
compare_equal : strncasecmp (λ c. c) block block 9 ≡ pos 0
unfolding strncasecmp
compare_equal = refl

num2string-reads_example :
    (ds : List ℕ) × (num2string (pos 1305) 11 ≡ printed (ds ++ 0 ∷ []))
    × (reads 0 ds ≡ 1305)
    × AllDigits ds
num2string-reads_example = num2string-reads 1305 11 (omega arith) (omega arith)
