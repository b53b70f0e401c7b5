-- ===== src/Addresses/Parsed.antt =====
-- What pico_string_to_ipv4 of modules/pico_ipv4.c reads in four decimal numbers.
use picotcp.Base.{
  ℕ, ◌+◌, ◌-◌, ◌*◌, ◌/◌, ◌%◌, ◌<◌, ◌≤◌, ◌≡◌, refl, ap, ◌∙◌, some, List, [], ◌∷◌, ◌++◌, arith,
  length, get_or, set, u8, ltb, if_cases,
}
use picotcp.Strings.Decimal.{reads, AllDigits}
use picotcp.Addresses.{octet, ipv4_to_string, read_octets, expanded, string_to_ipv4}

get_or-middle : (xs ys : List ℕ) (v : ℕ) → get_or (xs ++ v ∷ ys) (length xs) 0 ≡ v
get_or-middle [] ys v = refl
get_or-middle (x ∷ xs) ys v = get_or-middle xs ys v

set-middle : (xs ys : List ℕ) (v w : ℕ) → set (xs ++ v ∷ ys) (length xs) w ≡ xs ++ w ∷ ys
set-middle [] ys v w = refl
set-middle (x ∷ xs) ys v w = ap (λ l. x ∷ l) (set-middle xs ys v w)

reads_mod : (ds : List ℕ) (a b : ℕ) → a % 256 ≡ b % 256 → reads a ds % 256 ≡ reads b ds % 256
reads_mod [] a b e = e
reads_mod (d ∷ ds) a b e = reads_mod ds (a * 10 + (d - 48)) (b * 10 + (d - 48)) (omega (arith, e))

-- A digit.
read_digit :
    (d cnt : ℕ) (ps buf : List ℕ)
    → 48 ≤ d
    → d < 58
    → cnt < 4
    → read_octets (d ∷ ps) cnt buf
      ≡ read_octets ps cnt (set buf cnt (u8 (10 * get_or buf cnt 0 + (d - 48))))
unfolding read_octets
read_digit d cnt ps buf a b c = ground (arith, a, b, c)

-- A point.
read_point :
    (cnt : ℕ) (ps buf : List ℕ)
    → cnt < 4
    → read_octets (46 ∷ ps) cnt buf ≡ read_octets ps (cnt + 1) buf
unfolding read_octets
read_point cnt ps buf c = ground (arith, c)

read_digits :
    (xs ys : List ℕ) (v : ℕ) (ds ps : List ℕ)
    → AllDigits ds
    → length xs < 4
    → v < 256
    → read_octets (ds ++ ps) (length xs) (xs ++ v ∷ ys)
      ≡ read_octets ps (length xs) (xs ++ u8 (reads v ds) ∷ ys)
read_digits xs ys v [] ps a l b =
    ap (λ w. read_octets ps (length xs) (xs ++ w ∷ ys)) (omega (arith, b))
read_digits xs ys v (d ∷ ds) ps (a, b, c) l m =
    read_digit d (length xs) (ds ++ ps) (xs ++ v ∷ ys) a b l
    ∙ ap
        (λ z.
          read_octets (ds ++ ps) (length xs)
            (set (xs ++ v ∷ ys) (length xs) (u8 (10 * z + (d - 48)))))
        (get_or-middle xs ys v)
    ∙ ap (read_octets (ds ++ ps) (length xs)) (set-middle xs ys v (u8 (10 * v + (d - 48))))
    ∙ read_digits xs ys (u8 (10 * v + (d - 48))) ds ps c l (omega arith)
    ∙ ap (λ w. read_octets ps (length xs) (xs ++ w ∷ ys))
        (reads_mod ds (u8 (10 * v + (d - 48))) (v * 10 + (d - 48)) (omega arith))

read_end : (cnt : ℕ) (buf : List ℕ) → read_octets (0 ∷ []) cnt buf ≡ some (cnt, buf)
unfolding read_octets
read_end cnt buf = refl

-- Four strings of decimal digits, with points between them, are read as four numbers that are cut to
-- a byte each: a number over 255 is taken modulo 256, and an empty string for 0.
pub string_to_ipv4-reads :
    (p q r s : List ℕ)
    → AllDigits p
    → AllDigits q
    → AllDigits r
    → AllDigits s
    → string_to_ipv4 (p ++ (46 ∷ (q ++ (46 ∷ (r ++ (46 ∷ (s ++ (0 ∷ []))))))))
      ≡ some (u8 (reads 0 p) ∷ u8 (reads 0 q) ∷ u8 (reads 0 r) ∷ u8 (reads 0 s) ∷ [])
unfolding string_to_ipv4 expanded
string_to_ipv4-reads p q r s a b c d =
    let v = u8 (reads 0 p) in
    let w = u8 (reads 0 q) in
    let x = u8 (reads 0 r) in
    let y = u8 (reads 0 s) in
    ap expanded (
      read_digits [] (0 ∷ 0 ∷ 0 ∷ []) 0 p (46 ∷ (q ++ (46 ∷ (r ++ (46 ∷ (s ++ (0 ∷ []))))))) a
        (omega arith) (omega arith)
      ∙ read_point 0 (q ++ (46 ∷ (r ++ (46 ∷ (s ++ (0 ∷ [])))))) (v ∷ 0 ∷ 0 ∷ 0 ∷ []) (omega arith)
      ∙ read_digits (v ∷ []) (0 ∷ 0 ∷ []) 0 q (46 ∷ (r ++ (46 ∷ (s ++ (0 ∷ []))))) b (omega arith)
          (omega arith)
      ∙ read_point 1 (r ++ (46 ∷ (s ++ (0 ∷ [])))) (v ∷ w ∷ 0 ∷ 0 ∷ []) (omega arith)
      ∙ read_digits (v ∷ w ∷ []) (0 ∷ []) 0 r (46 ∷ (s ++ (0 ∷ []))) c (omega arith) (omega arith)
      ∙ read_point 2 (s ++ (0 ∷ [])) (v ∷ w ∷ x ∷ 0 ∷ []) (omega arith)
      ∙ read_digits (v ∷ w ∷ x ∷ []) [] 0 s (0 ∷ []) d (omega arith) (omega arith)
      ∙ read_end 3 (v ∷ w ∷ x ∷ y ∷ []))

abbrev Reads : ℕ → List ℕ → Type 0
Reads b ds = AllDigits ds × (reads 0 ds ≡ b)

digit_first : (c : ℕ) (ds : List ℕ) → c < 10 → AllDigits ds → AllDigits ((48 + c) ∷ ds)
digit_first c ds l a = (omega arith, omega (arith, l), a)

octet-Reads : (b : ℕ) → b < 256 → Reads b (octet b)
octet-Reads b l =
    if_cases (Reads b) (ltb 99 b) _ _
      (λ e. (
        digit_first (b / 100) ((48 + b % 100 / 10) ∷ (48 + b % 100 % 10) ∷ []) (omega (arith, l)) (
            digit_first (b % 100 / 10) ((48 + b % 100 % 10) ∷ []) (omega arith)
              (digit_first (b % 100 % 10) [] (omega arith) tt)),
        omega (arith, l),
      ))
      (λ e.
        if_cases (Reads b) (ltb 9 b) _ _
          (λ f. (
            digit_first (b / 10) ((48 + b % 10) ∷ []) (ground (arith, e))
                (digit_first (b % 10) [] (omega arith) tt),
            omega (arith, l),
          ))
          (λ f. (digit_first b [] (ground (arith, f)) tt, omega (arith, l))))

u8-small : (b : ℕ) → b < 256 → u8 b ≡ b
u8-small b l = omega (arith, l)

-- Whatever its four bytes are, an address that pico_ipv4_to_string writes is read back by
-- pico_string_to_ipv4.
pub string_to_ipv4-ipv4_to_string :
    (a b c d : ℕ)
    → a < 256
    → b < 256
    → c < 256
    → d < 256
    → string_to_ipv4 (ipv4_to_string (a ∷ b ∷ c ∷ d ∷ [])) ≡ some (a ∷ b ∷ c ∷ d ∷ [])
unfolding ipv4_to_string
string_to_ipv4-ipv4_to_string a b c d k l m n =
    string_to_ipv4-reads (octet a) (octet b) (octet c) (octet d) (octet-Reads a k).0
      (octet-Reads b l).0 (octet-Reads c m).0 (octet-Reads d n).0
    ∙ rw
        (
          (octet-Reads a k).1,
          (octet-Reads b l).1,
          (octet-Reads c m).1,
          (octet-Reads d n).1,
          u8-small a k,
          u8-small b l,
          u8-small c m,
          u8-small d n,
        )
        refl
