-- ===== src/Addresses.antt =====
-- The notation of IPv4 addresses in modules/pico_ipv4.c. A string is the list of its bytes, an address
-- the list of its four bytes in the order of memory.
pub mod Parsed
mod Tests
use picotcp.Base.{
  ℕ, zero, suc, ◌+◌, ◌-◌, ◌*◌, ◌/◌, ◌%◌, Bool, true, false, not, ◌||◌, ◌&&◌, Option, none, some,
  List, [], ◌∷◌, ◌++◌, if◌then◌else◌, ltb, leb, ◌==◌, get_or, set, u8,
}

abbrev pub is_digit : ℕ → Bool
is_digit c = leb 48 c && leb c 57

-- The bytes that pico_ipv4_to_string writes for one byte of the address.
abbrev pub octet : ℕ → List ℕ
octet b =
    if ltb 99 b
    then (48 + b / 100) ∷ (48 + b % 100 / 10) ∷ (48 + b % 100 % 10) ∷ []
    else if ltb 9 b
    then (48 + b / 10) ∷ (48 + b % 10) ∷ []
    else (48 + b) ∷ []

-- pico_ipv4_to_string, for a buffer that is not NULL.
unfoldable pub ipv4_to_string : List ℕ → List ℕ
ipv4_to_string [] = 0 ∷ []
ipv4_to_string (b ∷ []) = octet b ++ (0 ∷ [])
ipv4_to_string (b ∷ c ∷ bs) = octet b ++ (46 ∷ ipv4_to_string (c ∷ bs))

-- What the loop of pico_string_to_ipv4 does with a byte: it goes on with `cnt` and `buf`, ends, or
-- returns -1.
pub data CharRead : Type 0 where
  goes_on : ℕ → List ℕ → CharRead
  ends : CharRead
  fails : CharRead

abbrev pub char_read : ℕ → ℕ → List ℕ → CharRead
char_read p cnt buf =
    if (p == 0) || not (ltb cnt 4)
    then ends
    else if is_digit p
    then goes_on cnt (set buf cnt (u8 (10 * get_or buf cnt 0 + (p - 48))))
    else if p == 46
    then goes_on (cnt + 1) buf
    else fails

unfoldable pub read_octets : List ℕ → ℕ → List ℕ → Option (ℕ × List ℕ)
read_octets [] cnt buf = some (cnt, buf)
read_octets (p ∷ ps) cnt buf = elim (char_read p cnt buf) [
  | goes_on cnt' buf' ↦ read_octets ps cnt' buf'
  | ends ↦ some (cnt, buf)
  | fails ↦ none
]

-- The short notations: the last byte that was read is the last of the address.
unfoldable pub expanded : Option (ℕ × List ℕ) → Option (List ℕ)
expanded none = none
expanded (some (cnt, buf)) =
    if cnt == 1
    then some (get_or buf 0 0 ∷ 0 ∷ 0 ∷ get_or buf 1 0 ∷ [])
    else if cnt == 2
    then some (get_or buf 0 0 ∷ get_or buf 1 0 ∷ 0 ∷ get_or buf 2 0 ∷ [])
    else if cnt == 3
    then some buf
    else none

-- pico_string_to_ipv4, for arguments that are not NULL; none is -1.
unfoldable pub string_to_ipv4 : List ℕ → Option (List ℕ)
string_to_ipv4 ps = expanded (read_octets ps 0 (0 ∷ 0 ∷ 0 ∷ 0 ∷ []))
