-- ===== src/Fragments/Chain.antt =====
-- The fragments of one datagram, and what the check of modules/pico_fragments.c says of some of
-- them.
use picotcp.Base.{
  ℕ, ◌+◌, ◌≤◌, ◌<◌, ◌≡◌, ◌⊎◌, inl, inr, refl, sym, ap, ap₂, ◌∙◌, subst, true, false, List, [], ◌∷◌,
  arith, length, length-append, Bool-cases,
}
use picotcp.Tree.Order.{IsOrder, Sorted, AllAfter}
use picotcp.Tree.Members.{In, AllAfter-In}
use picotcp.Fragments.{
  Net, Fragment, get_offset, get_more_flag, transport_len, frag_compare, complete, check_from,
  joined,
}

pub frag_compare-IsOrder : (net : Net) → IsOrder (frag_compare net)
frag_compare-IsOrder net = record {
  flip = λ a b. ground arith;
  trans = λ a b c h i. ground arith;
  congr = λ a b c h. ground arith;
}

-- The fragments of one datagram from an offset on, in order: each begins where the one before it
-- ends, and all but the last say that more follow.
abbrev pub Chain : Net → ℕ → List Fragment → Type 0
Chain net b [] = ⊥
Chain net b (f ∷ []) = (get_offset net f ≡ b) × (get_more_flag net f ≡ false)
Chain net b (f ∷ g ∷ fs) =
    (get_offset net f ≡ b)
    × (get_more_flag net f ≡ true)
    × (0 < transport_len f)
    × Chain net (b + transport_len f) (g ∷ fs)

module _ (net : Net) where
  check_last :
      (b : ℕ) (f : Fragment) (fs : List Fragment)
      → get_offset net f ≡ b
      → get_more_flag net f ≡ false
      → check_from net b (f ∷ fs) ≡ complete (b + transport_len f)
  unfolding check_from
  check_last b f fs p m = ground (arith, p, m)

  check_more :
      (b : ℕ) (f : Fragment) (fs : List Fragment)
      → get_offset net f ≡ b
      → get_more_flag net f ≡ true
      → check_from net b (f ∷ fs) ≡ check_from net (b + transport_len f) fs
  unfolding check_from
  check_more b f fs p m = ground (arith, p, m)

  check_complete-inv :
      (b n : ℕ) (f : Fragment) (fs : List Fragment)
      → check_from net b (f ∷ fs) ≡ complete n
      → (get_offset net f ≡ b)
        × ((get_more_flag net f ≡ false)
            ⊎ ((get_more_flag net f ≡ true)
                × (check_from net (b + transport_len f) fs ≡ complete n)))
  unfolding check_from
  check_complete-inv b n f fs e = elim (Bool-cases (get_more_flag net f)) [
    | inl m ↦ (ground (arith, e, m), inr (m, ground (arith, e, m)))
    | inr m ↦ (ground (arith, e, m), inl m)
  ]

  pub Chain-offset :
      (b : ℕ) (fs : List Fragment) (x : Fragment) → Chain net b fs → In x fs → b ≤ get_offset net x
  Chain-offset b [] x c i = absurd c
  Chain-offset b (f ∷ []) x c (inl e) = ground (arith, c.0, ap (get_offset net) e)
  Chain-offset b (f ∷ []) x c (inr i) = absurd i
  Chain-offset b (f ∷ g ∷ fs) x c (inl e) = ground (arith, c.0, ap (get_offset net) e)
  Chain-offset b (f ∷ g ∷ fs) x c (inr i) =
      omega (arith, Chain-offset (b + transport_len f) (g ∷ fs) x c.3 i)

  pub check-Chain :
      (b : ℕ) (fs : List Fragment)
      → Chain net b fs
      → check_from net b fs ≡ complete (b + length (joined fs))
  check-Chain b [] c = absurd c
  check-Chain b (f ∷ []) c =
      check_last b f [] c.0 c.1 ∙ ap complete (omega (arith, length-append f.transport (joined [])))
  check-Chain b (f ∷ g ∷ fs) c =
      check_more b f (g ∷ fs) c.0 c.1
      ∙ (check-Chain (b + transport_len f) (g ∷ fs) c.3
          ∙ ap complete (omega (arith, length-append f.transport (joined (g ∷ fs)))))

  -- The fragment at an offset of the datagram is the one that begins there.
  at_offset :
      (b : ℕ) (f : Fragment) (fs : List Fragment) (k : Fragment)
      → Chain net b (f ∷ fs)
      → In k (f ∷ fs)
      → get_offset net k ≡ b
      → k ≡ f
  at_offset b f fs k c (inl e) p = e
  at_offset b f [] k c (inr i) p = absurd i
  at_offset b f (g ∷ fs) k c (inr i) p =
      absurd (omega (arith, p, c.2, Chain-offset (b + transport_len f) (g ∷ fs) k c.3 i))

  -- Behind the first fragment in order there are only later ones.
  tail-In :
      (f : Fragment) (fs : List Fragment) (k : Fragment) (ks : List Fragment)
      → k ≡ f
      → AllAfter (frag_compare net) k ks
      → ((x : Fragment) → In x (k ∷ ks) → In x (f ∷ fs))
      → (x : Fragment) → In x ks
      → In x fs
  tail-In f fs k ks e a i x h = elim (i x (inr h)) [
    | inl p ↦ absurd (
        ground (
          arith,
          AllAfter-In (frag_compare net) (frag_compare-IsOrder net) k ks x a h,
          ap (get_offset net) p,
          ap (get_offset net) e,
        ))
    | inr j ↦ j
  ]

  no_members : (ks : List Fragment) → ((x : Fragment) → In x ks → ⊥) → ks ≡ []
  no_members [] h = refl
  no_members (k ∷ ks) h = absurd (h k (inl refl))

  single_member :
      (f k : Fragment) (ks : List Fragment)
      → Sorted (frag_compare net) (k ∷ ks)
      → ((x : Fragment) → In x (k ∷ ks) → In x (f ∷ []))
      → k ∷ ks ≡ f ∷ []
  single_member f k ks s i = elim (i k (inl refl)) [
    | inl p ↦ ap₂ ◌∷◌ p (no_members ks (tail-In f [] k ks p s.0 i))
    | inr h ↦ absurd h
  ]

  -- A check that succeeds on some of the fragments has found all of them.
  pub check-complete :
      (b n : ℕ) (fs ks : List Fragment)
      → Chain net b fs
      → Sorted (frag_compare net) ks
      → ((x : Fragment) → In x ks → In x fs)
      → check_from net b ks ≡ complete n
      → ks ≡ fs
  check-complete b n [] ks c s i e = absurd c
  check-complete b n (f ∷ fs) [] c s i e = absurd (check_none e)
    where
      check_none : check_from net b [] ≡ complete n → ⊥
      check_none h = unfold check_from in cc
  check-complete b n (f ∷ []) (k ∷ ks) c s i e = single_member f k ks s i
  check-complete b n (f ∷ g ∷ fs) (k ∷ ks) c s i e =
      let (p, m) = check_complete-inv b n k ks e in
      let same = at_offset b f (g ∷ fs) k c (i k (inl refl)) p in
      elim m [
        | inl last ↦ ground (arith, ap (get_more_flag net) same, last, c.1)
        | inr (more, e') ↦ ap₂ ◌∷◌ same (
            check-complete (b + transport_len f) n (g ∷ fs) ks c.3 s.1
              (tail-In f (g ∷ fs) k ks same s.0 i)
              (subst (λ z. check_from net (b + transport_len z) ks ≡ complete n) same e'))
      ]

  first_member :
      (b : ℕ) (f : Fragment) (fs : List Fragment) (k : Fragment) (ks : List Fragment)
      → Chain net b (f ∷ fs)
      → get_offset net f ≡ b
      → AllAfter (frag_compare net) k ks
      → In k (f ∷ fs)
      → In f (k ∷ ks)
      → k ≡ f
  first_member b f fs k ks c p a i (inl e) = sym e
  first_member b f fs k ks c p a i (inr j) = absurd (
      ground (
        arith,
        AllAfter-In (frag_compare net) (frag_compare-IsOrder net) k ks f a j,
        Chain-offset b (f ∷ fs) k c i,
        p,
      ))

  later-In :
      (b : ℕ) (f g : Fragment) (fs : List Fragment) (k : Fragment) (ks : List Fragment)
      → Chain net b (f ∷ g ∷ fs)
      → k ≡ f
      → ((x : Fragment) → In x (f ∷ g ∷ fs) → In x (k ∷ ks))
      → (x : Fragment) → In x (g ∷ fs)
      → In x ks
  later-In b f g fs k ks c e j x h = elim (j x (inr h)) [
    | inl p ↦ absurd (
        omega (
          arith,
          Chain-offset (b + transport_len f) (g ∷ fs) x c.3 h,
          c.0,
          c.2,
          ap (get_offset net) p,
          ap (get_offset net) e,
        ))
    | inr i ↦ i
  ]

  -- Fragments in order that are those of the datagram are the datagram.
  pub Sorted-Chain :
      (b : ℕ) (fs ks : List Fragment)
      → Chain net b fs
      → Sorted (frag_compare net) ks
      → ((x : Fragment) → In x ks → In x fs)
      → ((x : Fragment) → In x fs → In x ks)
      → ks ≡ fs
  Sorted-Chain b [] ks c s i j = absurd c
  Sorted-Chain b (f ∷ fs) [] c s i j = absurd (j f (inl refl))
  Sorted-Chain b (f ∷ []) (k ∷ ks) c s i j = single_member f k ks s i
  Sorted-Chain b (f ∷ g ∷ fs) (k ∷ ks) c s i j =
      let same = first_member b f (g ∷ fs) k ks c c.0 s.0 (i k (inl refl)) (j f (inl refl)) in
      ap₂ ◌∷◌ same (
        Sorted-Chain (b + transport_len f) (g ∷ fs) ks c.3 s.1 (tail-In f (g ∷ fs) k ks same s.0 i)
          (later-In b f g fs k ks c same j))

  -- Two fragments of the datagram at one offset are the same.
  pub offset_unique :
      (b : ℕ) (fs : List Fragment) (x y : Fragment)
      → Chain net b fs
      → In x fs
      → In y fs
      → get_offset net x ≡ get_offset net y
      → x ≡ y
  offset_unique b [] x y c i j e = absurd c
  offset_unique b (f ∷ []) x y c i j e =
      at_offset b f [] x c i (first_offset x i) ∙ sym (at_offset b f [] y c j (first_offset y j))
    where
      first_offset : (z : Fragment) → In z (f ∷ []) → get_offset net z ≡ b
      first_offset z (inl p) = ap (get_offset net) p ∙ c.0
      first_offset z (inr h) = absurd h
  offset_unique b (f ∷ g ∷ fs) x y c (inl p) j e =
      p ∙ sym (at_offset b f (g ∷ fs) y c j (sym e ∙ (ap (get_offset net) p ∙ c.0)))
  offset_unique b (f ∷ g ∷ fs) x y c (inr i) (inl q) e =
      at_offset b f (g ∷ fs) x c (inr i) (e ∙ (ap (get_offset net) q ∙ c.0)) ∙ sym q
  offset_unique b (f ∷ g ∷ fs) x y c (inr i) (inr j) e =
      offset_unique (b + transport_len f) (g ∷ fs) x y c.3 i j e
