-- ===== src/DnsNames/Tests.antt =====
-- Runs on names of modules/pico_dns_common.c, and instances of the theorems.
use picotcp.DnsNames.Compressed.{
  unended, ended, overrun, decompress, decompress_name, pointer, pointers_cycle, decompress-encoded,
}
use picotcp.Base.{
  ℕ, ◌≡◌, ◌≢◌, ◌<◌, ◌≤◌, ◌⊎◌, refl, sym, subst, bit_and, get_or, none, some, true, List, [], ◌∷◌,
  arith,
}
use picotcp.DnsNames.{
  write_lengths, name_to_dns_notation, url_to_qname, notation_to_name, write_points, qname_to_url,
}
use picotcp.DnsNames.Decoded.{qname_to_url-url_to_qname}

-- The name a.bc
abbrev url : List ℕ
url = 97 ∷ 46 ∷ 98 ∷ 99 ∷ 0 ∷ []

abbrev qname : List ℕ
qname = 1 ∷ 97 ∷ 2 ∷ 98 ∷ 99 ∷ 0 ∷ []

converted : url_to_qname true url ≡ some qname
unfolding url_to_qname name_to_dns_notation write_lengths
converted = refl

converted_back : qname_to_url true qname ≡ some url
unfolding qname_to_url notation_to_name write_points
converted_back = refl

-- A name of one byte is not converted back.
short_name : qname_to_url true (1 ∷ 97 ∷ 0 ∷ []) ≡ none
unfolding qname_to_url
short_name = refl

qname_to_url-url_to_qname_example :
    (url_to_qname true url ≡ some qname) × (qname_to_url true qname ≡ some url)
qname_to_url-url_to_qname_example =
    qname_to_url-url_to_qname (97 ∷ []) ((98 ∷ 99 ∷ []) ∷ [])
      (
        ((λ e. omega (arith, e)), (λ e. omega (arith, e)), tt),
        (
          (
            (λ e. omega (arith, e)),
            (λ e. omega (arith, e)),
            ((λ e. omega (arith, e)), (λ e. omega (arith, e)), tt),
          ),
          tt,
        ),
      )
      ((λ e. cc), ((λ e. cc), tt)) (omega arith) (omega arith)

-- The pointer at place 12 names place 12.
abbrev looping : List ℕ
looping = 0 ∷ 0 ∷ 0 ∷ 0 ∷ 0 ∷ 0 ∷ 0 ∷ 0 ∷ 0 ∷ 0 ∷ 0 ∷ 0 ∷ 192 ∷ 12 ∷ []

pointers_cycle_example : decompress 1000 looping 12 [] ≡ unended
pointers_cycle_example =
    pointers_cycle (λ i. i ≡ 12) looping
      (λ i e. (
        subst (λ j. bit_and (get_or looping j 0) 192 ≢ 0) (sym e) (λ z. omega (arith, z)),
        subst (λ j. pointer looping j ≡ 12) (sym e) refl,
      ))
      1000 12 [] refl

decompress-encoded_example :
    ((5 < 256) × (decompress_name true 3 (7 ∷ qname) 1 ≡ ended qname))
    ⊎ ((256 ≤ 5) × (decompress_name true 3 (7 ∷ qname) 1 ≡ overrun))
decompress-encoded_example =
    decompress-encoded true ((97 ∷ []) ∷ (98 ∷ 99 ∷ []) ∷ []) (7 ∷ []) []
      ((λ e. omega (arith, e)), refl, ((λ e. omega (arith, e)), refl, tt))
      (
        ((λ e. omega (arith, e)), tt),
        (((λ e. omega (arith, e)), ((λ e. omega (arith, e)), tt)), tt),
      )
