-- ===== src/DnsNames/Decoded.antt =====
-- The names that pico_dns_qname_to_url of modules/pico_dns_common.c reads back.
use mathlib.Core.List.{append_assoc}
use picotcp.Base.{
  ℕ, zero, suc, ◌+◌, ◌-◌, ◌<◌, ◌≤◌, ◌≡◌, ◌≢◌, refl, sym, ap, ◌∙◌, true, some, List, [], ◌∷◌, ◌++◌,
  arith, length, length-append, get_or, set, take, drop, replicate,
}
use picotcp.DnsNames.{
  strlen, dns_strlen, check_namelen, write_points, notation_to_name, qname_to_url, url_to_qname,
}
use picotcp.DnsNames.Encoded.{
  AllLabels, pointed, encoded, total, set_middle, strlen-append, length-pointed,
  url_to_qname-encoded,
}

abbrev pub AllFilled : List (List ℕ) → Type 0
AllFilled [] = Unit {0}
AllFilled (l ∷ ls) = (l ≢ []) × AllFilled ls

length-filled : (l : List ℕ) → l ≢ [] → 0 < length l
length-filled [] n = absurd (n refl)
length-filled (x ∷ l) n = omega arith

pub get_or_middle : (xs ys : List ℕ) (v : ℕ) → get_or (xs ++ v ∷ ys) (length xs) 0 ≡ v
get_or_middle [] ys v = refl
get_or_middle (x ∷ xs) ys v = get_or_middle xs ys v

points_end :
    (n label next m : ℕ) (buf : List ℕ)
    → get_or buf label 0 ≡ 0
    → write_points n label next m buf ≡ buf
unfolding write_points
points_end zero label next m buf e = refl
points_end (suc n) label next m buf e = rw e refl

points_step :
    (n label next m : ℕ) (buf : List ℕ)
    → get_or buf label 0 ≢ 0
    → label < m
    → m < 65536
    → write_points (suc n) label next m buf
      ≡ write_points n next (next + get_or (set buf label 46) next 0 + 1) m (set buf label 46)
unfolding write_points
points_step n label next m buf e l b = ground (arith, e, l, b)

points-encoded :
    (ls : List (List ℕ)) (pre z : List ℕ) (n m : ℕ)
    → AllFilled ls
    → total ls ≤ n
    → length pre + total ls ≤ m
    → m < 65536
    → write_points n
        (length pre)
        (length pre + get_or (pre ++ encoded ls (0 ∷ z)) (length pre) 0 + 1)
        m
        (pre ++ encoded ls (0 ∷ z))
      ≡ pre ++ pointed ls (0 ∷ z)
points-encoded [] pre z n m a f b c = points_end n _ _ m _ (get_or_middle pre z 0)
points-encoded (l ∷ ls) pre z zero m a f b c = absurd (omega (arith, f))
points-encoded (l ∷ ls) pre z (suc n) m (e, a) f b c =
    let k = length l in
    let tail = encoded ls (0 ∷ z) in
    let buf = pre ++ k ∷ (l ++ tail) in
    let pre' = pre ++ 46 ∷ l in
    let here = get_or_middle pre (l ++ tail) k in
    let filled = length-filled l e in
    let j = length pre + get_or buf (length pre) 0 + 1 in
    let next : j ≡ length pre' = omega (arith, here, length-append pre (46 ∷ l)) in
    let marked : set buf (length pre) 46 ≡ pre' ++ tail =
      set_middle pre (l ++ tail) k 46 ∙ sym (append_assoc pre (46 ∷ l) tail) in
    points_step n (length pre) j m buf (λ z. omega (arith, here, filled, z))
      (omega (arith, b, filled)) c
    ∙ ap (λ b'. write_points n j (j + get_or b' j 0 + 1) m b') marked
    ∙ ap (λ i. write_points n i (i + get_or (pre' ++ tail) i 0 + 1) m (pre' ++ tail)) next
    ∙ points-encoded ls pre' z n m a (omega (arith, f))
        (omega (arith, b, length-append pre (46 ∷ l))) c
    ∙ append_assoc pre (46 ∷ l) (pointed ls (0 ∷ z))

strlen-encoded :
    (ls : List (List ℕ)) (z : List ℕ)
    → AllLabels ls
    → AllFilled ls
    → strlen (encoded ls z) ≡ total ls + strlen z
strlen-encoded [] z a f = omega arith
strlen-encoded ([] ∷ ls) z a (e, f) = absurd (e refl)
strlen-encoded ((x ∷ l) ∷ ls) z (p, a) (e, f) =
    omega (arith, strlen-append (x ∷ l) (encoded ls z) p, strlen-encoded ls z a f)

encoded_append : (ls : List (List ℕ)) (y z : List ℕ) → encoded ls y ++ z ≡ encoded ls (y ++ z)
encoded_append [] y z = refl
encoded_append (l ∷ ls) y z =
    ap (λ x. length l ∷ x)
      (append_assoc l (encoded ls y) z ∙ ap (λ x. l ++ x) (encoded_append ls y z))

pointed_append : (ls : List (List ℕ)) (y z : List ℕ) → pointed ls y ++ z ≡ pointed ls (y ++ z)
pointed_append [] y z = refl
pointed_append (l ∷ ls) y z =
    ap (λ x. 46 ∷ x) (append_assoc l (pointed ls y) z ∙ ap (λ x. l ++ x) (pointed_append ls y z))

length-encoded : (ls : List (List ℕ)) (z : List ℕ) → length (encoded ls z) ≡ total ls + length z
length-encoded [] z = omega arith
length-encoded (l ∷ ls) z = omega (arith, length-append l (encoded ls z), length-encoded ls z)

pub take_front : (xs ys : List ℕ) (n : ℕ) → length xs ≡ n → take n (xs ++ ys) ≡ xs
take_front [] ys zero e = refl
take_front [] ys (suc n) e = absurd (omega (arith, e))
take_front (x ∷ xs) ys zero e = absurd (omega (arith, e))
take_front (x ∷ xs) ys (suc n) e = ap (λ l. x ∷ l) (take_front xs ys n (omega (arith, e)))

later : (t : ℕ) → t < 256 → 256 - t ≡ suc (255 - t)
later t h = omega (arith, h)

-- The copy of the name in the buffer of 256 bytes.
copied :
    (ls : List (List ℕ))
    → total ls < 256
    → take (total ls) (encoded ls (0 ∷ [])) ++ replicate (256 - total ls) 0
      ≡ encoded ls (0 ∷ replicate (255 - total ls) 0)
copied ls h =
    ap (λ x. take (total ls) x ++ replicate (256 - total ls) 0)
      (sym (encoded_append ls [] (0 ∷ [])))
    ∙ ap (λ x. x ++ replicate (256 - total ls) 0)
        (take_front (encoded ls []) (0 ∷ []) (total ls) (omega (arith, length-encoded ls [])))
    ∙ ap (λ (n : ℕ). encoded ls [] ++ replicate n 0) (later (total ls) h)
    ∙ encoded_append ls [] (0 ∷ replicate (255 - total ls) 0)

-- The name without its first point.
cut :
    (l : List ℕ) (ls : List (List ℕ)) (z : List ℕ)
    → take (length l + total ls) (l ++ pointed ls z) ++ (0 ∷ []) ≡ l ++ pointed ls (0 ∷ [])
cut l ls z =
    ap (λ x. take (length l + total ls) (l ++ x) ++ (0 ∷ [])) (sym (pointed_append ls [] z))
    ∙ ap (λ x. take (length l + total ls) x ++ (0 ∷ [])) (sym (append_assoc l (pointed ls []) z))
    ∙ ap (λ x. x ++ (0 ∷ []))
        (take_front (l ++ pointed ls []) z (length l + total ls)
          (omega (arith, length-append l (pointed ls []), length-pointed ls [])))
    ∙ append_assoc l (pointed ls []) (0 ∷ [])
    ∙ ap (λ x. l ++ x) (pointed_append ls [] (0 ∷ []))

from_start :
    (ls : List (List ℕ)) (z : List ℕ) (m : ℕ)
    → AllFilled ls
    → total ls ≤ m
    → m < 65536
    → write_points m 0 (get_or (encoded ls (0 ∷ z)) 0 0 + 1) m (encoded ls (0 ∷ z))
      ≡ pointed ls (0 ∷ z)
from_start ls z m a b c =
    ap (λ n. write_points m 0 n m (encoded ls (0 ∷ z))) (omega arith)
    ∙ points-encoded ls [] z m m a b (omega (arith, b)) c

qname_to_url-encoded :
    (l : List ℕ) (ls : List (List ℕ))
    → AllLabels (l ∷ ls)
    → AllFilled (l ∷ ls)
    → 1 < length l + total ls
    → length l + total ls < 254
    → qname_to_url true (encoded (l ∷ ls) (0 ∷ [])) ≡ some (l ++ pointed ls (0 ∷ []))
unfolding qname_to_url notation_to_name
qname_to_url-encoded l ls p a low high =
    let k = suc (length l) + total ls in
    let zs : List ℕ = replicate (255 - k) 0 in
    let name : dns_strlen (encoded (l ∷ ls) (0 ∷ [])) ≡ k =
      omega (arith, strlen-encoded (l ∷ ls) (0 ∷ []) p a, high) in
    let fits : check_namelen k ≡ true = ground (arith, low, high) in
    rw (name, fits, copied (l ∷ ls) (omega (arith, high)))
      (ap (λ b. some (take (k - 1) (drop 1 b) ++ (0 ∷ [])))
          (from_start (l ∷ ls) zs k a (omega arith) (omega (arith, high)))
        ∙ ap (λ n. some (take n (l ++ pointed ls (0 ∷ zs)) ++ (0 ∷ []))) (omega arith)
        ∙ ap some (cut l ls (0 ∷ zs)))

-- A name of 2 to 253 bytes, whose labels are not empty and have neither points nor bytes 0, is
-- written by pico_dns_url_to_qname as its labels with their lengths in front, and
-- pico_dns_qname_to_url makes the name of that again.
pub qname_to_url-url_to_qname :
    (l : List ℕ) (ls : List (List ℕ))
    → AllLabels (l ∷ ls)
    → AllFilled (l ∷ ls)
    → 1 < length l + total ls
    → length l + total ls < 254
    → (url_to_qname true (l ++ pointed ls (0 ∷ [])) ≡ some (encoded (l ∷ ls) (0 ∷ [])))
      × (qname_to_url true (encoded (l ∷ ls) (0 ∷ [])) ≡ some (l ++ pointed ls (0 ∷ [])))
qname_to_url-url_to_qname l ls (p, a) f low high = (
  url_to_qname-encoded l ls p a (omega (arith, low)) high,
  qname_to_url-encoded l ls (p, a) f low high,
)
