-- ===== src/Fragments/Arrival.antt =====
-- The arrival of a fragment at pico_ipv4_process_frag or pico_ipv6_process_frag of
-- modules/pico_fragments.c, and of all fragments of a datagram.
use picotcp.Base.{
  ℕ, ◌≡◌, ◌≢◌, inl, inr, refl, sym, ap, ◌∙◌, subst, true, some, List, [], ◌∷◌, arith, Option-cases,
}
use picotcp.Tree.{Color, Tree, Inserted, done, exists, no_memory, keys, insert}
use picotcp.Tree.Order.{Sorted, search_key, insert_key, insert_list, insert_key-Sorted}
use picotcp.Tree.Members.{In, search_key_sound, insert_key-In}
use picotcp.Tree.Refine.{insert_refines}
use picotcp.Fragments.{
  Net, Fragment, Event, discarded, Answers, Reassembly, frag_compare, check_complete, insert_told,
  insert_frag, check_kept,
}
use picotcp.Fragments.Chain.{frag_compare-IsOrder, Chain, offset_unique}
use picotcp.Fragments.Emptied.{received_of, received_of-append}
use picotcp.Fragments.Whole.{Outcome, after-Outcome, check-Outcome}

module _ (net : Net) (w : Answers) (proto : ℕ) (f₀ : Fragment) (fs : List Fragment)
    (c : Chain net 0 (f₀ ∷ fs)) (allocs : w.allocs ≡ true) (nodes : w.node_alloc ≡ true)
    (copies : w.copies ≡ true) where
  module _ (x : Fragment) (h : In x (f₀ ∷ fs)) (st : Reassembly) (es : List Event)
      (s : Sorted (frag_compare net) (keys st.fragments))
      (i : (y : Fragment) → In y (keys st.fragments) → In y (f₀ ∷ fs))
      (ne : keys st.fragments ≢ f₀ ∷ fs) (e : st.cur_frag_id ≡ f₀.id)
      (n : received_of es ≡ []) where
    abbrev ks : List Fragment
    ks = keys st.fragments

    found_In : (z : Fragment) → search_key (frag_compare net) x ks ≡ some z → In x ks
    found_In z q =
        let (a, b) = search_key_sound (frag_compare net) (frag_compare-IsOrder net) x ks z q in
        subst (λ y. In y ks) (offset_unique net 0 (f₀ ∷ fs) z x c (i z a) h (ground (arith, b))) a

    told-Outcome :
        (r : Tree Fragment × Color × Inserted Fragment)
        → (keys r.0, r.2) ≡ insert_list (frag_compare net) x true ks
        → Outcome net f₀ fs x ks (check_kept net w proto (insert_told st x es r))
    told-Outcome (t, lc, done) q = elim (Option-cases (search_key (frag_compare net) x ks)) [
      | inr (z, p) ↦ ground (arith, q, p)
      | inl p ↦
          let k : keys t ≡ insert_key (frag_compare net) x ks = ground (arith, q, p) in
          let into =
            λ (y : Fragment). insert_key-In (frag_compare net) (frag_compare-IsOrder net) x ks y in
          let st' = record st { fragments = t; leaf_color = lc } in
          after-Outcome net f₀ fs x ks es (check_complete net w proto st') n (
            check-Outcome net f₀ fs w proto c allocs x ks st'
              (subst (Sorted (frag_compare net)) (sym k)
                (insert_key-Sorted (frag_compare net) (frag_compare-IsOrder net) x ks s p))
              (λ y m. elim ((into y).0 (subst (λ l. In y l) k m)) [
                | inl a ↦ subst (λ z. In z (f₀ ∷ fs)) (sym a) h
                | inr a ↦ i y a
              ])
              e (λ y m. subst (λ l. In y l) (sym k) ((into y).1 m)))
    ]
    told-Outcome (t, lc, exists g) q = elim (Option-cases (search_key (frag_compare net) x ks)) [
      | inl p ↦ ground (arith, q, p)
      | inr (z, p) ↦
          let k : keys t ≡ ks = ground (arith, q, p) in
          inl (
            (
              subst (Sorted (frag_compare net)) (sym k) s,
              (λ y m. i y (subst (λ l. In y l) k m)),
              (λ a. ne (sym k ∙ a)),
              e,
            ),
            (λ y m.
                subst (λ l. In y l) (sym k)
                  (elim m [ inl a ↦ subst (λ v. In v ks) (sym a) (found_In z p) | inr a ↦ a ])),
            received_of-append es (discarded x ∷ []) ∙ rw n refl,
          )
    ]
    told-Outcome (t, lc, no_memory) q = elim (Option-cases (search_key (frag_compare net) x ks)) [
      | inl p ↦ ground (arith, q, p)
      | inr (z, p) ↦ ground (arith, q, p)
    ]

    pub insert-Outcome : Outcome net f₀ fs x ks (check_kept net w proto (insert_frag net w st x es))
    unfolding insert_frag
    insert-Outcome =
        told-Outcome (insert (frag_compare net) w.node_alloc st.leaf_color x st.fragments) (
          insert_refines (frag_compare net) (frag_compare-IsOrder net) x w.node_alloc st.leaf_color
            st.fragments s
          ∙ ap (λ b. insert_list (frag_compare net) x b ks) nodes)
