-- ===== src/DnsNames.antt =====
-- The names of modules/pico_dns_common.c. A buffer is the list of its bytes, of which a string ends at
-- its first byte 0; allocation is a Boolean argument.
pub mod Encoded
pub mod Decoded
pub mod Compressed
mod Tests
use picotcp.Base.{
  ℕ, zero, suc, ◌+◌, ◌-◌, Bool, true, false, not, ◌&&◌, Option, none, some, List, [], ◌∷◌, ◌++◌,
  if◌then◌else◌, ltb, ◌==◌, get_or, set, take, drop, replicate, u8, u16,
}

-- strlen of the C library.
abbrev pub strlen : List ℕ → ℕ
strlen [] = 0
strlen (zero ∷ bs) = 0
strlen (suc b ∷ bs) = suc (strlen bs)

-- pico_dns_strlen, for a string that is not NULL.
abbrev pub dns_strlen : List ℕ → ℕ
dns_strlen bs = u16 (strlen bs)

-- pico_dns_check_namelen, true for 0.
abbrev pub check_namelen : ℕ → Bool
check_namelen namelen = ltb 2 namelen && ltb namelen 256

-- `(char)(i - lbl - 1)`
abbrev pub label_len : ℕ → ℕ → ℕ
label_len i lbl = u8 (i + 255 - lbl)

-- The loop of pico_dns_name_to_dns_notation, with what follows it: the first list is what stands
-- behind `i` in the buffer, and no write has reached it yet.
unfoldable pub write_lengths : List ℕ → ℕ → ℕ → ℕ → List ℕ → List ℕ
write_lengths [] i lbl maxlen buf = set buf lbl (label_len (i + 1) lbl)
write_lengths (c ∷ cs) i lbl maxlen buf =
    let i' = i + 1 in
    let buf' = if c == 46 then set buf lbl (label_len i' lbl) else buf in
    let lbl' = if c == 46 then i' else lbl in
    let rest = write_lengths cs i' lbl' maxlen buf' in
    if c == 0
    then set buf lbl (label_len i' lbl)
    else if ltb (u16 maxlen) (u16 i')
    then set buf' lbl' (label_len i' lbl')
    else rest

-- pico_dns_name_to_dns_notation; where it returns -1 the buffer stays.
unfoldable pub name_to_dns_notation : List ℕ → ℕ → List ℕ
name_to_dns_notation url maxlen =
    if check_namelen maxlen then write_lengths (drop 1 url) 0 0 maxlen url else url

-- pico_dns_url_to_qname
unfoldable pub url_to_qname : Bool → List ℕ → Option (List ℕ)
url_to_qname alloc url =
    let namelen = u16 (dns_strlen url + 2) in
    if check_namelen namelen && alloc
    then some (name_to_dns_notation (0 ∷ take (namelen - 1) url) namelen)
    else none

-- The loop dns_name_foreach_label_safe of pico_dns_notation_to_name. Each round goes at least one byte
-- on and the loop ends at `maxlen`, which is fuel enough.
unfoldable pub write_points : ℕ → ℕ → ℕ → ℕ → List ℕ → List ℕ
write_points zero label next maxlen buf = buf
write_points (suc n) label next maxlen buf =
    let buf' = set buf label 46 in
    let rest = write_points n next (next + get_or buf' next 0 + 1) maxlen buf' in
    if get_or buf label 0 == 0 then buf else if ltb (u16 label) maxlen then rest else buf

-- pico_dns_notation_to_name
unfoldable pub notation_to_name : List ℕ → ℕ → List ℕ
notation_to_name buf maxlen = write_points maxlen 0 (get_or buf 0 0 + 1) maxlen buf

-- pico_dns_qname_to_url
unfoldable pub qname_to_url : Bool → List ℕ → Option (List ℕ)
qname_to_url alloc qname =
    let namelen = dns_strlen qname in
    let temp = take namelen qname ++ replicate (256 - namelen) 0 in
    if check_namelen namelen && alloc
    then some (take (namelen - 1) (drop 1 (notation_to_name temp namelen)) ++ (0 ∷ []))
    else none
