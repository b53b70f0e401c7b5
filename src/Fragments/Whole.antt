-- ===== src/Fragments/Whole.antt =====
-- What pico_ipv4_process_frag and pico_ipv6_process_frag of modules/pico_fragments.c hand over when
-- the fragments of one datagram arrive, in any order and any number of times.
use picotcp.Base.{
  ℕ, ◌+◌, ◌≡◌, ◌≢◌, ◌⊎◌, inl, inr, refl, sym, ap, ◌∙◌, subst, true, List, [], ◌∷◌, ◌++◌, arith,
  length, map, u16, ℤ, pos,
}
use mathlib.Core.List.{append-nil}
use picotcp.Tree.{keys}
use picotcp.Tree.Order.{Sorted}
use picotcp.Tree.Members.{In}
use picotcp.Tree.Walk.{head, first-keys}
use picotcp.Fragments.{
  Net, Fragment, Full, Event, discarded, Answers, Reassembly, frag_compare, get_header_length,
  in_order, emptied, Checked, gap, incomplete, complete, check_from, joined, reassemble,
  reassemble_from, timer_stopped, fragments_complete, hand_over, cancelled, check_complete, checked,
  after,
}
use picotcp.Fragments.Chain.{Chain, check-Chain, check-complete}
use picotcp.Fragments.Emptied.{
  received_of, received_of-append, received_of-discarded, received_of-hand_over, in_order-keys,
  emptied-keys,
}

-- The frame that has all of a datagram.
abbrev pub whole : Net → Fragment → List Fragment → Full
whole net f fs = record {
  buffer_len = u16 (get_header_length net + length (joined (f ∷ fs)));
  first_fragment = f;
  written = joined (f ∷ fs);
  full_len = u16 (length (joined (f ∷ fs)));
}

module _ (net : Net) (f₀ : Fragment) (fs : List Fragment) where
  abbrev pub all : List Fragment
  all = f₀ ∷ fs

  -- Some fragments of the datagram are in the tree, and not all of them.
  abbrev pub Collecting : Reassembly → Type 0
  Collecting st =
      Sorted (frag_compare net) (keys st.fragments)
      × ((x : Fragment) → In x (keys st.fragments) → In x all)
      × (keys st.fragments ≢ all)
      × (st.cur_frag_id ≡ f₀.id)

  abbrev pub Finished : Reassembly → Type 0
  Finished st = (keys st.fragments ≡ []) × (st.cur_frag_id ≡ f₀.id)

  abbrev pub Outcome : Fragment → List Fragment → Reassembly × List Event → Type 0
  Outcome x ks (st, es) =
      (Collecting st
        × ((y : Fragment) → ((y ≡ x) ⊎ In y ks) → In y (keys st.fragments))
        × (received_of es ≡ []))
      ⊎ (Finished st × (received_of es ≡ whole net f₀ fs ∷ []))

  pub after-Outcome :
      (x : Fragment) (ks : List Fragment) (es : List Event) (r : Reassembly × List Event)
      → received_of es ≡ []
      → Outcome x ks r
      → Outcome x ks (after es r)
  after-Outcome x ks es (st, es') n (inl (a, b, d)) = inl (a, b, received_of-append es es' ∙ rw n d)
  after-Outcome x ks es (st, es') n (inr (a, d)) = inr (a, received_of-append es es' ∙ rw n d)

  module _ (w : Answers) (proto : ℕ) (c : Chain net 0 all) (allocs : w.allocs ≡ true) where
    reassemble-all :
        (st : Reassembly)
        → keys st.fragments ≡ all
        → reassemble net w (length (joined all)) proto st ≡ (
          emptied net st,
          map discarded (in_order st) ++ hand_over w proto (whole net f₀ fs),
          pos 0,
        )
    unfolding reassemble
    reassemble-all st e =
        ap (reassemble_from net w (length (joined all)) proto st)
          (first-keys st.fragments ∙ ap head e)
        ∙ (rw allocs (ap (λ (l : List Fragment). from l) (in_order-keys st ∙ e)))
      where
        from : List Fragment → Reassembly × List Event × ℤ
        from l = (
          emptied net st,
          map discarded (in_order st)
              ++ hand_over w proto (record (whole net f₀ fs) { written = joined l }),
          pos 0,
        )

    received_whole :
        (xs : List Fragment) (t : ℕ)
        → received_of
            ((map discarded xs ++ hand_over w proto (whole net f₀ fs)) ++ cancelled t ∷ [])
          ≡ whole net f₀ fs ∷ []
    received_whole xs t =
        received_of-append (map discarded xs ++ hand_over w proto (whole net f₀ fs))
          (cancelled t ∷ [])
        ∙ (append-nil _
            ∙ (received_of-append (map discarded xs) (hand_over w proto (whole net f₀ fs))
                ∙ rw (received_of-discarded xs) (received_of-hand_over w proto (whole net f₀ fs))))

    -- The check of a tree with all fragments of the datagram.
    reassembled :
        (st : Reassembly)
        → keys st.fragments ≡ all
        → Sorted (frag_compare net) (keys st.fragments)
        → st.cur_frag_id ≡ f₀.id
        → let (st', es) = fragments_complete net w (length (joined all)) proto st in
          Finished st' × (received_of es ≡ whole net f₀ fs ∷ [])
    reassembled st e s i =
        subst
          (λ r.
            Finished (timer_stopped r).0 × (received_of (timer_stopped r).1 ≡ whole net f₀ fs ∷ []))
          (sym (reassemble-all st e))
          ((emptied-keys net st s, i), received_whole (in_order st) st.timer)

    check_from-all : check_from net 0 all ≡ complete (length (joined all))
    check_from-all = check-Chain net 0 all c ∙ ap complete (omega arith)

    module _ (x : Fragment) (ks : List Fragment) (st : Reassembly)
        (s : Sorted (frag_compare net) (keys st.fragments))
        (i : (y : Fragment) → In y (keys st.fragments) → In y all) (e : st.cur_frag_id ≡ f₀.id)
        (m : (y : Fragment) → ((y ≡ x) ⊎ In y ks) → In y (keys st.fragments)) where
      not_yet :
          (r : Checked)
          → check_from net 0 (keys st.fragments) ≡ r
          → complete (length (joined all)) ≢ r
          → keys st.fragments ≢ all
      not_yet r q n p = n (sym check_from-all ∙ (ap (check_from net 0) (sym p) ∙ q))

      checked-Outcome :
          (r : Checked)
          → check_from net 0 (keys st.fragments) ≡ r
          → Outcome x ks (checked net w proto st r)
      checked-Outcome gap q = inl ((s, i, not_yet gap q (λ h. cc), e), m, refl)
      checked-Outcome incomplete q = inl ((s, i, not_yet incomplete q (λ h. cc), e), m, refl)
      checked-Outcome (complete n) q =
          let p = check-complete net 0 n all (keys st.fragments) c s i q in
          let same : complete (length (joined all)) ≡ complete n =
            sym check_from-all ∙ (ap (check_from net 0) (sym p) ∙ q) in
          inr (
            subst
              (λ r.
                Finished (checked net w proto st r).0
                × (received_of (checked net w proto st r).1 ≡ whole net f₀ fs ∷ []))
              same (reassembled st p s e))

      pub check-Outcome : Outcome x ks (check_complete net w proto st)
      unfolding check_complete
      check-Outcome =
          checked-Outcome (check_from net 0 (in_order st))
            (ap (check_from net 0) (sym (in_order-keys st)))
