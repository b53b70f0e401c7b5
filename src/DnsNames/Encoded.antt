-- ===== src/DnsNames/Encoded.antt =====
-- What pico_dns_url_to_qname of modules/pico_dns_common.c writes for the labels of a name.
use mathlib.Core.List.{append_assoc}
use picotcp.Base.{
  ℕ, zero, suc, ◌+◌, ◌-◌, ◌<◌, ◌≤◌, ◌≡◌, ◌≢◌, refl, sym, ap, ◌∙◌, true, some, List, [], ◌∷◌, ◌++◌,
  arith, length, length-append, set, take, u16,
}
use picotcp.DnsNames.{
  strlen, dns_strlen, check_namelen, label_len, write_lengths, name_to_dns_notation, url_to_qname,
}

-- No byte of a label is 0 or a point.
abbrev pub AllPlain : List ℕ → Type 0
AllPlain [] = Unit {0}
AllPlain (c ∷ cs) = (c ≢ 0) × (c ≢ 46) × AllPlain cs

abbrev pub AllLabels : List (List ℕ) → Type 0
AllLabels [] = Unit {0}
AllLabels (l ∷ ls) = AllPlain l × AllLabels ls

-- The labels in front of `z`, each with a point in front, and each with its length in front.
abbrev pub pointed : List (List ℕ) → List ℕ → List ℕ
pointed [] z = z
pointed (l ∷ ls) z = 46 ∷ (l ++ pointed ls z)

abbrev pub encoded : List (List ℕ) → List ℕ → List ℕ
encoded [] z = z
encoded (l ∷ ls) z = length l ∷ (l ++ encoded ls z)

abbrev pub total : List (List ℕ) → ℕ
total [] = 0
total (l ∷ ls) = suc (length l) + total ls

pub set_middle : (xs ys : List ℕ) (v w : ℕ) → set (xs ++ v ∷ ys) (length xs) w ≡ xs ++ w ∷ ys
set_middle [] ys v w = refl
set_middle (x ∷ xs) ys v w = ap (λ l. x ∷ l) (set_middle xs ys v w)

pub strlen-append : (l z : List ℕ) → AllPlain l → strlen (l ++ z) ≡ length l + strlen z
strlen-append [] z a = omega arith
strlen-append (zero ∷ l) z (n, m, a) = absurd (n refl)
strlen-append (suc c ∷ l) z (n, m, a) = omega (arith, strlen-append l z a)

pub strlen-pointed :
    (ls : List (List ℕ)) (z : List ℕ) → AllLabels ls → strlen (pointed ls z) ≡ total ls + strlen z
strlen-pointed [] z a = omega arith
strlen-pointed (l ∷ ls) z (p, a) =
    omega (arith, strlen-append l (pointed ls z) p, strlen-pointed ls z a)

write_char :
    (x : ℕ) (cs : List ℕ) (i lbl m : ℕ) (buf : List ℕ)
    → x ≢ 0
    → x ≢ 46
    → i + 1 ≤ m
    → m < 256
    → write_lengths (x ∷ cs) i lbl m buf ≡ write_lengths cs (i + 1) lbl m buf
unfolding write_lengths
write_char x cs i lbl m buf z p b c = ground (arith, z, p, b, c)

write_plain :
    (l rest : List ℕ) (i lbl m : ℕ) (buf : List ℕ)
    → AllPlain l
    → i + length l ≤ m
    → m < 256
    → write_lengths (l ++ rest) i lbl m buf ≡ write_lengths rest (i + length l) lbl m buf
write_plain [] rest i lbl m buf a b c = ap (λ j. write_lengths rest j lbl m buf) (omega arith)
write_plain (x ∷ l) rest i lbl m buf (z, p, a) b c =
    write_char x (l ++ rest) i lbl m buf z p (omega (arith, b)) c
    ∙ write_plain l rest (i + 1) lbl m buf a (omega (arith, b)) c
    ∙ ap (λ j. write_lengths rest j lbl m buf) (omega arith)

write_point :
    (rest : List ℕ) (i lbl m : ℕ) (buf : List ℕ)
    → i + 1 ≤ m
    → m < 256
    → write_lengths (46 ∷ rest) i lbl m buf
      ≡ write_lengths rest (i + 1) (i + 1) m (set buf lbl (label_len (i + 1) lbl))
unfolding write_lengths
write_point rest i lbl m buf b c = ground (arith, b, c)

write_last :
    (z : List ℕ) (i lbl m : ℕ) (buf : List ℕ)
    → write_lengths (0 ∷ z) i lbl m buf ≡ set buf lbl (label_len (i + 1) lbl)
unfolding write_lengths
write_last z i lbl m buf = refl

label_len-same : (i k : ℕ) → k < 256 → label_len (i + k + 1) i ≡ k
label_len-same i k l = omega (arith, l)

pub next_length : (pre l : List ℕ) (v : ℕ) → length pre + length l + 1 ≡ length (pre ++ v ∷ l)
next_length pre l v = omega (arith, length-append pre (v ∷ l))

-- The first label stands behind the byte `v` in which its length is written.
write_encoded :
    (ls : List (List ℕ)) (pre l z : List ℕ) (v m : ℕ)
    → AllPlain l
    → AllLabels ls
    → length pre + length l + total ls + 1 ≤ m
    → m < 256
    → write_lengths
        (l ++ pointed ls (0 ∷ z))
        (length pre)
        (length pre)
        m
        (pre ++ v ∷ (l ++ pointed ls (0 ∷ z)))
      ≡ pre ++ encoded (l ∷ ls) (0 ∷ z)
write_encoded [] pre l z v m p a b c =
    let n = length pre in
    let buf = pre ++ v ∷ (l ++ 0 ∷ z) in
    write_plain l (0 ∷ z) n n m buf p (omega (arith, b)) c
    ∙ write_last z (n + length l) n m buf
    ∙ ap (set buf n) (label_len-same n (length l) (omega (arith, b, c)))
    ∙ set_middle pre (l ++ 0 ∷ z) v (length l)
write_encoded (k ∷ ls) pre l z v m p (q, a) b c =
    let n = length pre in
    let tail = k ++ pointed ls (0 ∷ z) in
    let buf = pre ++ v ∷ (l ++ 46 ∷ tail) in
    let pre' = pre ++ length l ∷ l in
    write_plain l (46 ∷ tail) n n m buf p (omega (arith, b)) c
    ∙ write_point tail (n + length l) n m buf (omega (arith, b)) c
    ∙ ap (write_lengths tail (n + length l + 1) (n + length l + 1) m) (
        ap (set buf n) (label_len-same n (length l) (omega (arith, b, c)))
        ∙ set_middle pre (l ++ 46 ∷ tail) v (length l)
        ∙ sym (append_assoc pre (length l ∷ l) (46 ∷ tail)))
    ∙ ap (λ j. write_lengths tail j j m (pre' ++ 46 ∷ tail)) (next_length pre l (length l))
    ∙ write_encoded ls pre' k z 46 m q a (omega (arith, b, next_length pre l (length l))) c
    ∙ append_assoc pre (length l ∷ l) (encoded (k ∷ ls) (0 ∷ z))

take_all : (xs : List ℕ) → take (length xs) xs ≡ xs
take_all [] = refl
take_all (x ∷ xs) = ap (λ l. x ∷ l) (take_all xs)

pub length-pointed : (ls : List (List ℕ)) (z : List ℕ) → length (pointed ls z) ≡ total ls + length z
length-pointed [] z = omega arith
length-pointed (l ∷ ls) z = omega (arith, length-append l (pointed ls z), length-pointed ls z)

-- pico_dns_url_to_qname writes a name, whose labels have neither points nor bytes 0, as its labels with
-- their lengths in front, when the name with its points has from 1 to 253 bytes.
pub url_to_qname-encoded :
    (l : List ℕ) (ls : List (List ℕ))
    → AllPlain l
    → AllLabels ls
    → 0 < length l + total ls
    → length l + total ls < 254
    → url_to_qname true (l ++ pointed ls (0 ∷ [])) ≡ some (encoded (l ∷ ls) (0 ∷ []))
unfolding url_to_qname name_to_dns_notation
url_to_qname-encoded l ls p a low high =
    let url = l ++ pointed ls (0 ∷ []) in
    let len : strlen url ≡ length l + total ls =
      omega (arith, strlen-append l (pointed ls (0 ∷ [])) p, strlen-pointed ls (0 ∷ []) a) in
    let k = length l + total ls + 2 in
    let name : u16 (dns_strlen url + 2) ≡ k = omega (arith, len, high) in
    let fits : check_namelen k ≡ true = ground (arith, low, high) in
    let whole : take (k - 1) url ≡ url =
      ap (λ n. take n url)
        (omega (arith, length-append l (pointed ls (0 ∷ [])), length-pointed ls (0 ∷ [])))
      ∙ take_all url in
    rw (name, fits, whole)
      (ap some (write_encoded ls [] l [] 0 k p a (omega arith) (omega (arith, high))))
