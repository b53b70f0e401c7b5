-- ===== src/Addresses/Tests.antt =====
-- Instances of the theorems on addresses, for modules/pico_ipv4.c.
use picotcp.Base.{◌≡◌, refl, some, none, [], ◌∷◌, arith}
use picotcp.Addresses.{ipv4_to_string, read_octets, expanded, string_to_ipv4}
use picotcp.Addresses.Parsed.{string_to_ipv4-ipv4_to_string}

-- 10.1 is 10.0.0.1.
short_notation : string_to_ipv4 (49 ∷ 48 ∷ 46 ∷ 49 ∷ 0 ∷ []) ≡ some (10 ∷ 0 ∷ 0 ∷ 1 ∷ [])
unfolding string_to_ipv4 read_octets expanded
short_notation = refl

-- A number alone is no address.
number_refused : string_to_ipv4 (49 ∷ 48 ∷ 0 ∷ []) ≡ none
unfolding string_to_ipv4 read_octets expanded
number_refused = refl

string_to_ipv4-ipv4_to_string_example :
    string_to_ipv4 (ipv4_to_string (192 ∷ 168 ∷ 0 ∷ 7 ∷ [])) ≡ some (192 ∷ 168 ∷ 0 ∷ 7 ∷ [])
string_to_ipv4-ipv4_to_string_example =
    string_to_ipv4-ipv4_to_string 192 168 0 7 (omega arith) (omega arith) (omega arith)
      (omega arith)
