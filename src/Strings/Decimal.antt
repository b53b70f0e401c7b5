-- ===== src/Strings/Decimal.antt =====
-- num2string of modules/pico_strings.c prints the decimal digits of its number.
use mathlib.Core.List.{append_assoc}
use picotcp.Base.{
  ℕ, zero, suc, ◌+◌, ◌-◌, ◌*◌, ◌/◌, ◌%◌, ◌<◌, ◌≤◌, ◌≡◌, ◌≢◌, inl, inr, refl, sym, ap, ◌∙◌,
  Bool-cases, Option, some, List, [], ◌∷◌, ◌++◌, arith, ◌==◌, pos, ==_iff,
}
use picotcp.Strings.{printed, write_digits, num2string}

-- The number that a string of digits reads, after `acc`.
abbrev pub reads : ℕ → List ℕ → ℕ
reads acc [] = acc
reads acc (d ∷ ds) = reads (acc * 10 + (d - 48)) ds

reads-append : (acc d : ℕ) (ds : List ℕ) → reads acc (ds ++ d ∷ []) ≡ reads acc ds * 10 + (d - 48)
reads-append acc d [] = refl
reads-append acc d (e ∷ ds) = reads-append (acc * 10 + (e - 48)) d ds

abbrev pub AllDigits : List ℕ → Type 0
AllDigits [] = Unit
AllDigits (d ∷ ds) = (48 ≤ d) × (d < 58) × AllDigits ds

AllDigits-append : (ds : List ℕ) (d : ℕ) → AllDigits ds → d < 10 → AllDigits (ds ++ (d + 48) ∷ [])
AllDigits-append [] d a l = (omega arith, omega (arith, l), tt)
AllDigits-append (e ∷ ds) d (a, b, c) l = (a, b, AllDigits-append ds d c l)

abbrev Digits : ℕ → List ℕ → Option (List ℕ) → Type 0
Digits q written o = (ds : List ℕ) × (o ≡ some (ds ++ written)) × (reads 0 ds ≡ q) × AllDigits ds

abbrev pub pow10 : ℕ → ℕ
pow10 zero = 1
pow10 (suc n) = 10 * pow10 n

pow10_mono : (k m : ℕ) → k ≤ m → pow10 k ≤ pow10 m
pow10_mono zero zero l = omega arith
pow10_mono zero (suc m) l = omega (arith, pow10_mono zero m (omega arith))
pow10_mono (suc k) zero l = absurd (omega (arith, l))
pow10_mono (suc k) (suc m) l = omega (arith, pow10_mono k m (omega (arith, l)))

room_left : (left q : ℕ) → q < pow10 (suc left) → q / 10 ≢ 0 → 0 < left
room_left zero q l n = absurd (n (omega (arith, l)))
room_left (suc left) q l n = omega arith

-- A digit that is written in front of the others.
Digits-more :
    (q : ℕ) (written : List ℕ) (o : Option (List ℕ))
    → Digits (q / 10) ((q % 10 + 48) ∷ written) o
    → Digits q written o
Digits-more q written o (ds, e, r, a) = (
  ds ++ (q % 10 + 48) ∷ [],
  e ∙ ap some (sym (append_assoc ds ((q % 10 + 48) ∷ []) written)),
  omega (arith, reads-append 0 (q % 10 + 48) ds, r),
  AllDigits-append ds (q % 10) a (omega arith),
)

write_digits-Digits :
    (left q : ℕ) (written : List ℕ)
    → 0 < left
    → q < pow10 left
    → Digits q written (write_digits left q written)
unfolding write_digits
write_digits-Digits zero q written z l = absurd (omega (arith, z))
write_digits-Digits (suc left) q written z l = elim (Bool-cases (q / 10 == 0)) [
  | inl e ↦
      let k : q / 10 ≡ 0 = (==_iff (q / 10) 0).0 e in
      rw e ((q % 10 + 48) ∷ [], refl, omega (arith, k), (omega arith, omega arith, tt))
  | inr e ↦
      let n : q / 10 ≢ 0 = λ k. ground (arith, e, k) in
      rw e (
        Digits-more q written _ (
          write_digits-Digits left (q / 10) ((q % 10 + 48) ∷ written) (room_left left q l n)
            (omega (arith, l))))
]

-- In a buffer of eleven bytes or more, num2string prints the digits of any number that is not
-- negative, with a byte 0 behind them: they are decimal digits, and read back they are the number.
pub num2string-reads :
    (n len : ℕ)
    → n < 2147483648
    → 11 ≤ len
    → (ds : List ℕ) × (num2string (pos n) len ≡ printed (ds ++ 0 ∷ []))
      × (reads 0 ds ≡ n)
      × AllDigits ds
unfolding num2string
num2string-reads n len l m =
    let (ds, e, r, a) =
      write_digits-Digits (len - 1) n (0 ∷ []) (omega (arith, m))
        (omega (arith, l, pow10_mono 10 (len - 1) (omega (arith, m)))) in
    (ds, ground (arith, e, m), r, a)
