-- ===== src/Strings.antt =====
-- The bounded string functions of modules/pico_strings.c. A string is the list of its bytes.
pub mod Decimal
pub mod Terminator
mod Tests
use picotcp.Base.{
  ℕ, zero, suc, ◌+◌, ◌-◌, ◌/◌, ◌%◌, Option, none, some, List, [], ◌∷◌, if◌then◌else◌, ltb, ◌==◌,
  get_or, drop, ℤ, pos, negsuc,
}

-- pico_strnlen: the buffer is at least as long as `n`, or has a byte 0 before its end; the option
-- is NULL.
unfoldable pub bounded_length : List ℕ → ℕ → ℕ
bounded_length bs zero = 0
bounded_length [] (suc n) = 0
bounded_length (zero ∷ bs) (suc n) = 0
bounded_length (suc c ∷ bs) (suc n) = suc (bounded_length bs n)

unfoldable pub strnlen : Option (List ℕ) → ℕ → ℕ
strnlen none n = 0
strnlen (some bs) n = bounded_length bs n

-- get_string_terminator_position: the index of the byte, none for NULL.
unfoldable pub get_string_terminator_position : List ℕ → ℕ → Option ℕ
get_string_terminator_position bs len =
    let length = strnlen (some bs) len in if len == length then none else some length

-- What num2string answers: -1, -3, or the length of what it has put at the start of the buffer.
pub data Printed : Type 0 where
  not_valid : Printed
  too_short : Printed
  printed : List ℕ → Printed

-- The loop of num2string: so many bytes of the buffer, `pos`, are left in front of those that are
-- written.
unfoldable pub write_digits : ℕ → ℕ → List ℕ → Option (List ℕ)
write_digits zero quot written = none
write_digits (suc left) quot written =
    let more = write_digits left (quot / 10) ((quot % 10 + 48) ∷ written) in
    if quot / 10 == 0 then some ((quot % 10 + 48) ∷ written) else more

-- revert_and_shift moves the bytes that are written to the start of the buffer.
abbrev pub revert_and_shift : Option (List ℕ) → Printed
revert_and_shift none = too_short
revert_and_shift (some written) = printed written

-- num2string, for a buffer that is not NULL.
unfoldable pub num2string : ℤ → ℕ → Printed
num2string (negsuc n) len = not_valid
num2string (pos n) len =
    if ltb len 2 then not_valid else revert_and_shift (write_digits (len - 1) n (0 ∷ []))

-- pico_strncasecmp: `upper` is toupper of the C library. Past the end of a list there is the byte
-- 0.
unfoldable pub strncasecmp : (ℕ → ℕ) → List ℕ → List ℕ → ℕ → ℤ
strncasecmp upper bs cs zero = pos 0
strncasecmp upper bs cs (suc n) =
    let ch1 = upper (get_or bs 0 0) in
    let ch2 = upper (get_or cs 0 0) in
    let rest = strncasecmp upper (drop 1 bs) (drop 1 cs) n in
    if ltb ch1 ch2
    then negsuc 0
    else if ltb ch2 ch1
    then pos 1
    else if ch1 == 0
    then pos 0
    else rest
