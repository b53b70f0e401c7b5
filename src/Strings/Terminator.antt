-- ===== src/Strings/Terminator.antt =====
-- get_string_terminator_position of modules/pico_strings.c finds the first byte 0.
use picotcp.Base.{
  ℕ, zero, suc, ◌<◌, ◌≤◌, ◌≡◌, ◌≢◌, ◌⊎◌, inl, inr, refl, ap, subst, none, some, List, [], ◌∷◌,
  arith, length, get_elem?, take,
}
use picotcp.Strings.{bounded_length, strnlen, get_string_terminator_position}

abbrev pub NoZero : List ℕ → Type 0
NoZero [] = Unit
NoZero (c ∷ bs) = (c ≢ 0) × NoZero bs

bounded_length_lem :
    (bs : List ℕ) (n : ℕ)
    → n ≤ length bs
    → NoZero (take (bounded_length bs n) bs)
      × ((bounded_length bs n ≡ n)
          ⊎ ((bounded_length bs n < n) × (get_elem? bs (bounded_length bs n) ≡ some 0)))
unfolding bounded_length
bounded_length_lem bs zero l = (tt, inl refl)
bounded_length_lem [] (suc n) l = absurd (omega (arith, l))
bounded_length_lem (zero ∷ bs) (suc n) l = (tt, inr (omega arith, refl))
bounded_length_lem (suc c ∷ bs) (suc n) l =
    let (a, b) = bounded_length_lem bs n (omega (arith, l)) in
    (
      ((λ e. omega (arith, e)), a),
      elim b [ inl e ↦ inl (ap suc e) | inr (m, e) ↦ inr (omega (arith, m), e) ],
    )

-- In a block of at least `len` bytes, either there is no byte 0 among the first `len`, and the
-- answer is NULL, or the answer is the place of the first one.
pub terminator_found :
    (bs : List ℕ) (len : ℕ)
    → len ≤ length bs
    → ((get_string_terminator_position bs len ≡ none) × NoZero (take len bs))
      ⊎ ((i : ℕ) × (get_string_terminator_position bs len ≡ some i)
          × (i < len)
          × (get_elem? bs i ≡ some 0)
          × NoZero (take i bs))
unfolding get_string_terminator_position strnlen
terminator_found bs len l =
    let (a, b) = bounded_length_lem bs len l in
    elim b [
      | inl e ↦ inl (ground (arith, e), subst (λ n. NoZero (take n bs)) e a)
      | inr (m, e) ↦ inr (bounded_length bs len, ground (arith, m), m, e, a)
    ]
