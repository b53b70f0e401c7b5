-- ===== src/DnsNames/Compressed.antt =====
-- Compressed names in pico_dns_decompress_name of modules/pico_dns_common.c.
use picotcp.Base.{
  ℕ, zero, suc, ◌+◌, ◌*◌, ◌≡◌, ◌≢◌, ◌<◌, ◌≤◌, ◌⊎◌, inl, inr, refl, sym, ap, ◌∙◌, Bool, true, false,
  List, [], ◌∷◌, ◌++◌, if◌then◌else◌, arith, length, length-append, ◌==◌, ltb, ltb→lt, Bool-cases,
  get_or, take, drop, bit_and, u16,
}
use mathlib.Core.List.{append_assoc, append-nil}
use picotcp.DnsNames.{strlen, dns_strlen}
use picotcp.DnsNames.Encoded.{encoded, total, next_length}
use picotcp.DnsNames.Decoded.{get_or_middle, take_front}

-- The place that a pointer names: its two bytes without their first two bits.
abbrev pub pointer : List ℕ → ℕ → ℕ
pointer packet i = bit_and (get_or packet i 0) 63 * 256 + get_or packet (i + 1) 0

-- How pico_dns_decompress_name ends: not within the rounds, with a write behind decompressed_name, with
-- NULL for want of memory, or with a name. The loop alone never ends with `no_memory`.
pub data Name : Type 0 where
  unended : Name
  overrun : Name
  no_memory : Name
  ended : List ℕ → Name

-- The loop and the byte 0 at the end: `dest` is what decompressed_name, of PICO_DNS_NAMEBUF_SIZE = 256
-- bytes, has so far. The loop has no bound of its own, so the fuel has none that is always enough; what
-- stands behind the packet, which the loop may read, counts as 0.
unfoldable pub decompress : ℕ → List ℕ → ℕ → List ℕ → Name
decompress zero packet i dest = unended
decompress (suc n) packet i dest =
    let b = get_or packet i 0 in
    let jump = decompress n packet (pointer packet i) dest in
    let copy = decompress n packet (i + b + 1) (dest ++ (b ∷ take b (drop (i + 1) packet))) in
    if b == 0
    then if ltb (length dest) 256 then ended (dest ++ (0 ∷ [])) else overrun
    else if bit_and b 192 == 0
    then if ltb 256 (length dest + b + 1) then overrun else copy
    else jump

-- The storage for the name, of its length and the byte 0.
abbrev pub stored : Bool → Name → Name
stored alloc unended = unended
stored alloc overrun = overrun
stored alloc no_memory = no_memory
stored alloc (ended dest) =
    if alloc then ended (take (u16 (dns_strlen dest + 1)) dest) else no_memory

-- pico_dns_decompress_name
abbrev pub decompress_name : Bool → ℕ → List ℕ → ℕ → Name
decompress_name alloc fuel packet i = stored alloc (decompress fuel packet i [])

byte_set : (b : ℕ) → bit_and b 192 ≢ 0 → b ≢ 0
byte_set b n e = n (ap (λ x. bit_and x 192) e)

jump_step :
    (n i : ℕ) (packet dest : List ℕ)
    → bit_and (get_or packet i 0) 192 ≢ 0
    → decompress (suc n) packet i dest ≡ decompress n packet (pointer packet i) dest
unfolding decompress
jump_step n i packet dest h =
    let b = get_or packet i 0 in
    let z : (b == 0) ≡ false = ground (arith, byte_set b h) in
    let p : (bit_and b 192 == 0) ≡ false = ground (arith, h) in rw (z, p) refl

-- Where each of some places of a packet has a pointer to a place among them, as one that points to
-- itself does, pico_dns_decompress_name does not end from any of them, however many rounds it has.
pub pointers_cycle :
    (P : ℕ → Type 0) (packet : List ℕ)
    → ((i : ℕ) → P i → (bit_and (get_or packet i 0) 192 ≢ 0) × P (pointer packet i))
    → (n i : ℕ) (dest : List ℕ) → P i
    → decompress n packet i dest ≡ unended
unfolding decompress
pointers_cycle P packet c zero i dest p = refl
pointers_cycle P packet c (suc n) i dest p =
    jump_step n i packet dest (c i p).0
    ∙ pointers_cycle P packet c n (pointer packet i) dest (c i p).1

-- No length has one of the two bits of a pointer.
abbrev pub AllShort : List (List ℕ) → Type 0
AllShort [] = Unit {0}
AllShort (l ∷ ls) = (length l ≢ 0) × (bit_and (length l) 192 ≡ 0) × AllShort ls

copy_step :
    (n i : ℕ) (packet dest : List ℕ) (b : ℕ)
    → get_or packet i 0 ≡ b
    → b ≢ 0
    → bit_and b 192 ≡ 0
    → decompress (suc n) packet i dest ≡ (
        if ltb 256 (length dest + b + 1)
        then overrun
        else decompress n packet (i + b + 1) (dest ++ (b ∷ take b (drop (i + 1) packet))))
unfolding decompress
copy_step n i packet dest b e h p =
    let z : (b == 0) ≡ false = ground (arith, h) in rw (e, z, p) refl

drop_behind : (xs ys : List ℕ) (v : ℕ) → drop (length xs + 1) (xs ++ v ∷ ys) ≡ ys
drop_behind [] ys v = refl
drop_behind (x ∷ xs) ys v =
    let shifted : suc (length xs) + 1 ≡ suc (length xs + 1) = omega arith in
    ap (λ n. drop n (x ∷ (xs ++ v ∷ ys))) shifted ∙ drop_behind xs ys v

-- One label of a name is copied, if there is room for it.
label_step :
    (l : List ℕ) (ls : List (List ℕ)) (pre z dest : List ℕ)
    → length l ≢ 0
    → bit_and (length l) 192 ≡ 0
    → decompress (suc (suc (length ls))) (pre ++ encoded (l ∷ ls) (0 ∷ z)) (length pre) dest ≡ (
        if ltb 256 (length dest + length l + 1)
        then overrun
        else decompress
            (suc (length ls))
            ((pre ++ length l ∷ l) ++ encoded ls (0 ∷ z))
            (length (pre ++ length l ∷ l))
            (dest ++ (length l ∷ l)))
label_step l ls pre z dest n s =
    let k = length l in
    let tail = encoded ls (0 ∷ z) in
    let packet = pre ++ k ∷ (l ++ tail) in
    let copied : take k (drop (length pre + 1) packet) ≡ l =
      ap (take k) (drop_behind pre (l ++ tail) k) ∙ take_front l tail k refl in
    let same =
      ap (λ x. decompress (suc (length ls)) packet (length pre + k + 1) (dest ++ (k ∷ x))) copied
      ∙ ap (λ j. decompress (suc (length ls)) packet j (dest ++ (k ∷ l))) (next_length pre l k)
      ∙ ap (λ q. decompress (suc (length ls)) q (length (pre ++ k ∷ l)) (dest ++ (k ∷ l)))
          (sym (append_assoc pre (k ∷ l) tail)) in
    copy_step (suc (length ls)) (length pre) packet dest k (get_or_middle pre (l ++ tail) k) n s
    ∙ ap (λ x. if ltb 256 (length dest + k + 1) then overrun else x) same

copied_whole :
    (ls : List (List ℕ)) (pre z dest : List ℕ)
    → AllShort ls
    → length dest + total ls < 256
    → decompress (suc (length ls)) (pre ++ encoded ls (0 ∷ z)) (length pre) dest
      ≡ ended (dest ++ encoded ls (0 ∷ []))
unfolding decompress
copied_whole [] pre z dest a m =
    let f : ltb (length dest) 256 ≡ true = ground (arith, m) in rw (get_or_middle pre z 0, f) refl
copied_whole (l ∷ ls) pre z dest (n, s, a) m =
    let room : ltb 256 (length dest + length l + 1) ≡ false = ground (arith, m) in
    let e = length-append dest (length l ∷ l) in
    label_step l ls pre z dest n s
    ∙ (rw room
        (copied_whole ls (pre ++ length l ∷ l) z (dest ++ (length l ∷ l)) a (omega (arith, m, e))))
    ∙ ap ended (append_assoc dest (length l ∷ l) (encoded ls (0 ∷ [])))

overruns :
    (ls : List (List ℕ)) (pre z dest : List ℕ)
    → AllShort ls
    → length dest ≤ 256
    → 256 ≤ length dest + total ls
    → decompress (suc (length ls)) (pre ++ encoded ls (0 ∷ z)) (length pre) dest ≡ overrun
unfolding decompress
overruns [] pre z dest a m w =
    let f : ltb (length dest) 256 ≡ false = ground (arith, w) in rw (get_or_middle pre z 0, f) refl
overruns (l ∷ ls) pre z dest (n, s, a) m w =
    let e = length-append dest (length l ∷ l) in
    label_step l ls pre z dest n s ∙ elim (Bool-cases (ltb 256 (length dest + length l + 1))) [
      | inl f ↦ rw f refl
      | inr f ↦ rw f (
          overruns ls (pre ++ length l ∷ l) z (dest ++ (length l ∷ l)) a (ground (arith, f, e))
            (omega (arith, w, e)))
    ]

-- No byte of a label is 0.
abbrev pub NoZero : List ℕ → Type 0
NoZero [] = Unit {0}
NoZero (c ∷ cs) = (c ≢ 0) × NoZero cs

abbrev pub AllNoZero : List (List ℕ) → Type 0
AllNoZero [] = Unit {0}
AllNoZero (l ∷ ls) = NoZero l × AllNoZero ls

strlen-front : (l z : List ℕ) → NoZero l → strlen (l ++ z) ≡ length l + strlen z
strlen-front [] z a = omega arith
strlen-front (zero ∷ l) z (n, a) = absurd (n refl)
strlen-front (suc c ∷ l) z (n, a) = omega (arith, strlen-front l z a)

strlen-encoded :
    (ls : List (List ℕ)) → AllShort ls → AllNoZero ls → strlen (encoded ls (0 ∷ [])) ≡ total ls
strlen-encoded [] a b = refl
strlen-encoded (l ∷ ls) (n, s, a) (p, b) =
    strlen-front (length l ∷ l) (encoded ls (0 ∷ [])) (n, p) ∙ omega (arith, strlen-encoded ls a b)

length-encoded : (ls : List (List ℕ)) → length (encoded ls (0 ∷ [])) ≡ total ls + 1
length-encoded [] = refl
length-encoded (l ∷ ls) = omega (arith, length-append l (encoded ls (0 ∷ [])), length-encoded ls)

stored-encoded :
    (alloc : Bool) (ls : List (List ℕ))
    → AllShort ls
    → AllNoZero ls
    → total ls < 256
    → stored alloc (ended (encoded ls (0 ∷ [])))
      ≡ (if alloc then ended (encoded ls (0 ∷ [])) else no_memory)
stored-encoded alloc ls a b m =
    let name = encoded ls (0 ∷ []) in
    let n : u16 (dns_strlen name + 1) ≡ length name =
      omega (arith, strlen-encoded ls a b, length-encoded ls, m) in
    let whole : take (u16 (dns_strlen name + 1)) name ≡ name =
      ap (take (u16 (dns_strlen name + 1))) (sym (append-nil name))
      ∙ take_front name [] (u16 (dns_strlen name + 1)) (sym n) in
    ap (λ x. if alloc then ended x else no_memory) whole

-- A name without pointers, whose labels have no byte 0, are not empty and have lengths with neither of
-- the two bits of a pointer, from wherever it stands in the packet, in one round more than it has
-- labels: if it is shorter than 256 bytes without the byte 0 at its end, it is returned as it stands,
-- or NULL without memory; if it is not, pico_dns_decompress_name writes behind its buffer.
pub decompress-encoded :
    (alloc : Bool) (ls : List (List ℕ)) (pre z : List ℕ)
    → AllShort ls
    → AllNoZero ls
    → ((total ls < 256)
        × (decompress_name alloc (suc (length ls)) (pre ++ encoded ls (0 ∷ z)) (length pre)
            ≡ (if alloc then ended (encoded ls (0 ∷ [])) else no_memory)))
      ⊎ ((256 ≤ total ls)
          × (decompress_name alloc (suc (length ls)) (pre ++ encoded ls (0 ∷ z)) (length pre)
              ≡ overrun))
decompress-encoded alloc ls pre z a b = elim (Bool-cases (ltb (total ls) 256)) [
  | inl m ↦
      let l = ltb→lt (total ls) 256 m in
      inl (
        l,
        ap (stored alloc) (copied_whole ls pre z [] a (omega (arith, l)))
            ∙ stored-encoded alloc ls a b l,
      )
  | inr m ↦
      let l : 256 ≤ total ls = ground (arith, m) in
      inr (l, ap (stored alloc) (overruns ls pre z [] a (omega arith) (omega (arith, l))))
]
