-- ===== src/Checksum/Verify.antt =====
-- The checksum of stack/pico_frame.c: the loop of its carries ends, two buffers count as one, and a
-- receiver that sums over the stored checksum gets 0.
use picotcp.Base.{
  Bool-cases, ==_iff, inl, inr, ℕ, zero, suc, ◌+◌, ◌-◌, ◌*◌, ◌/◌, ◌%◌, ◌<◌, ◌≡◌, refl, sym, ap, ◌∙◌,
  true, false, Bool, List, [], ◌∷◌, ◌++◌, arith, ◌==◌, u32, short_be,
}
use picotcp.Checksum.{
  add_odd, add_words, checksum_adder, fold, checksum_finalize, checksum, dualbuffer_checksum,
}

-- The sum of the words of a buffer, of which an odd last byte is the low byte of a word.
abbrev pub value : List ℕ → ℕ
value [] = 0
value (a ∷ []) = a
value (a ∷ b ∷ bs) = a + 256 * b + value bs

abbrev pub is_even : List ℕ → Bool
is_even [] = true
is_even (a ∷ []) = false
is_even (a ∷ b ∷ bs) = is_even bs

abbrev odd : List ℕ → ℕ
odd [] = 0
odd (a ∷ []) = a
odd (a ∷ b ∷ bs) = odd bs

abbrev words : List ℕ → ℕ
words [] = 0
words (a ∷ []) = 0
words (a ∷ b ∷ bs) = a + 256 * b + words bs

odd-words : (bs : List ℕ) → odd bs + words bs ≡ value bs
odd-words [] = refl
odd-words (a ∷ []) = omega arith
odd-words (a ∷ b ∷ bs) = omega (arith, odd-words bs)

add_odd_lem : (s : ℕ) (bs : List ℕ) → s < 4294967296 → add_odd s bs ≡ u32 (s + odd bs)
unfolding add_odd
add_odd_lem s [] l = omega (arith, l)
add_odd_lem s (a ∷ []) l = refl
add_odd_lem s (a ∷ b ∷ bs) l = add_odd_lem s bs l

add_words_lem : (s : ℕ) (bs : List ℕ) → s < 4294967296 → add_words s bs ≡ u32 (s + words bs)
unfolding add_words
add_words_lem s [] l = omega (arith, l)
add_words_lem s (a ∷ []) l = omega (arith, l)
add_words_lem s (a ∷ b ∷ bs) l =
    omega (arith, add_words_lem (u32 (s + (a + 256 * b))) bs (omega arith))

-- pico_checksum_adder adds the words of the buffer, modulo 2 ^ 32.
adder_value : (s : ℕ) (bs : List ℕ) → s < 4294967296 → checksum_adder s bs ≡ u32 (s + value bs)
unfolding checksum_adder
adder_value s bs l =
    let o = add_odd_lem s bs l in
    omega (arith, o, add_words_lem (add_odd s bs) bs (omega (arith, o)), odd-words bs)

value-append : (bs cs : List ℕ) → is_even bs ≡ true → value (bs ++ cs) ≡ value bs + value cs
value-append [] cs h = omega arith
value-append (a ∷ []) cs h = cc
value-append (a ∷ b ∷ bs) cs h = omega (arith, value-append bs cs h)

-- The checksum of two buffers, the first of which has an even length, is that of the one buffer
-- that they make.
pub dualbuffer_checksum-checksum :
    (bs cs : List ℕ) → is_even bs ≡ true → dualbuffer_checksum bs cs ≡ checksum (bs ++ cs)
unfolding dualbuffer_checksum checksum
dualbuffer_checksum-checksum bs cs h =
    let a = adder_value 0 bs (omega arith) in
    let b = adder_value (checksum_adder 0 bs) cs (omega (arith, a)) in
    let c = adder_value 0 (bs ++ cs) (omega arith) in
    ap checksum_finalize (omega (arith, a, b, c, value-append bs cs h))

-- The rounds of the loop of carries: the first leaves one carry at most, the second none.
fold_small : (fuel sum : ℕ) → sum < 65536 → fold fuel sum ≡ sum
unfolding fold
fold_small zero sum l = refl
fold_small (suc fuel) sum l = ground (arith, l)

fold_step : (fuel sum : ℕ) → fold (suc fuel) sum ≡ fold fuel (sum % 65536 + sum / 65536)
unfolding fold
fold_step fuel sum = elim (Bool-cases (sum / 65536 == 0)) [
  | inl e ↦
      let z : sum / 65536 ≡ 0 = (==_iff (sum / 65536) 0).0 e in
      let same : sum % 65536 + sum / 65536 ≡ sum = omega (arith, z) in
      rw e (sym (ap (fold fuel) same ∙ fold_small fuel sum (omega (arith, z))))
  | inr e ↦ rw e refl
]

-- Any number of rounds from two on gives the same 16-bit number: the loop of pico_checksum_finalize
-- ends after two rounds, for every 32-bit sum.
pub fold_ends :
    (fuel sum : ℕ)
    → sum < 4294967296
    → (fold (suc (suc fuel)) sum ≡ fold 2 sum) × (fold 2 sum < 65536)
fold_ends fuel sum l =
    let s1 = sum % 65536 + sum / 65536 in
    let s2 = s1 % 65536 + s1 / 65536 in
    let a = fold_step (suc fuel) sum in
    let b = fold_step fuel s1 in
    let c = fold_step 1 sum in
    let d = fold_step 0 s1 in
    let small : s2 < 65536 = omega (arith, l) in
    let e = fold_small fuel s2 small in
    let f = fold_small 0 s2 small in
    (a ∙ b ∙ e ∙ sym f ∙ sym d ∙ sym c, omega (arith, c, d, f, small))

fold_value :
    (sum : ℕ)
    → sum < 4294967296
    → let s1 = sum % 65536 + sum / 65536 in fold 2 sum ≡ s1 % 65536 + s1 / 65536
fold_value sum l =
    let s1 = sum % 65536 + sum / 65536 in
    let s2 = s1 % 65536 + s1 / 65536 in
    fold_step 1 sum ∙ fold_step 0 s1 ∙ fold_small 0 s2 (omega (arith, l))

-- A sum and the complement of its fold fold to all ones.
fold_complement : (v : ℕ) → v + 65535 < 4294967296 → fold 2 (v + (65535 - fold 2 v)) ≡ 65535
fold_complement v l =
    let f = fold_value v (omega (arith, l)) in
    let g = fold_value (v + (65535 - fold 2 v)) (omega (arith, l)) in omega (arith, f, g, l)

short_be_twice : (n : ℕ) → n < 65536 → short_be (short_be n) ≡ n
unfolding short_be
short_be_twice n l = omega (arith, l)

checksum-value :
    (bs : List ℕ) → value bs < 4294967296 → checksum bs ≡ short_be (65535 - fold 2 (value bs))
unfolding checksum checksum_finalize
checksum-value bs l =
    let a : checksum_adder 0 bs ≡ value bs = omega (arith, adder_value 0 bs (omega arith), l) in
    let b = (fold_ends 0 (value bs) l).1 in ap checksum_finalize a ∙ ap short_be (omega (arith, b))

-- With the checksum stored in a word of the buffer that was 0, at an even offset, the checksum of
-- the buffer is 0, as long as the sum of its words stays 65535 below 2 ^ 32.
pub checksum_verifies :
    (bs cs : List ℕ)
    → is_even bs ≡ true
    → value bs + value cs + 65535 < 4294967296
    → let c = short_be (checksum (bs ++ 0 ∷ 0 ∷ cs)) in checksum (bs ++ c % 256 ∷ c / 256 ∷ cs) ≡ 0
unfolding short_be
checksum_verifies bs cs h l =
    let v = value bs + value cs in
    let c = short_be (checksum (bs ++ 0 ∷ 0 ∷ cs)) in
    let e : value (bs ++ 0 ∷ 0 ∷ cs) ≡ v = omega (arith, value-append bs (0 ∷ 0 ∷ cs) h) in
    let stored : c ≡ 65535 - fold 2 v =
      ap short_be (checksum-value (bs ++ 0 ∷ 0 ∷ cs) (omega (arith, e, l)))
      ∙ short_be_twice (65535 - fold 2 (value (bs ++ 0 ∷ 0 ∷ cs))) (omega arith)
      ∙ ap (λ n. 65535 - fold 2 n) e in
    let w : value (bs ++ c % 256 ∷ c / 256 ∷ cs) ≡ v + (65535 - fold 2 v) =
      omega (arith, stored, value-append bs (c % 256 ∷ c / 256 ∷ cs) h) in
    let ones = fold_complement v l in
    checksum-value (bs ++ c % 256 ∷ c / 256 ∷ cs) (omega (arith, w, l))
    ∙ ap (λ n. short_be (65535 - fold 2 n)) w
    ∙ ap (λ n. short_be (65535 - n)) ones
