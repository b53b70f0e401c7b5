-- ===== src/Fragments/Emptied.antt =====
-- What modules/pico_fragments.c leaves in the tree when it goes through it, and what it hands over.
use picotcp.Base.{
  ℕ, ◌≡◌, refl, sym, ap, ◌∙◌, subst, Option, List, [], ◌∷◌, ◌++◌, arith, length, map, Bool-cases,
  inl, inr,
}
use picotcp.Tree.{Color, Tree, keys}
use picotcp.Tree.Order.{Sorted, remove_key}
use picotcp.Tree.Members.{cmp_self}
use picotcp.Tree.Walk.{foreach-keys}
use picotcp.Tree.Delete.{delete}
use picotcp.Tree.Delete.Refine.{delete_refines}
use picotcp.Fragments.{
  Net, Fragment, Full, Event, received, refused, discarded, cancelled, notified, Answers,
  Reassembly, frag_compare, in_order, delete_each, emptied, hand_over,
}
use picotcp.Fragments.Chain.{frag_compare-IsOrder}

-- The frames that are handed over to the transport layer.
abbrev pub received_of : List Event → List Full
received_of [] = []
received_of (received x proto ∷ es) = x ∷ received_of es
received_of (refused x ∷ es) = received_of es
received_of (discarded x ∷ es) = received_of es
received_of (cancelled t ∷ es) = received_of es
received_of (notified x ∷ es) = received_of es

pub received_of-append :
    (es es' : List Event) → received_of (es ++ es') ≡ received_of es ++ received_of es'
received_of-append [] es' = refl
received_of-append (received x proto ∷ es) es' = ap (λ l. x ∷ l) (received_of-append es es')
received_of-append (refused x ∷ es) es' = received_of-append es es'
received_of-append (discarded x ∷ es) es' = received_of-append es es'
received_of-append (cancelled t ∷ es) es' = received_of-append es es'
received_of-append (notified x ∷ es) es' = received_of-append es es'

pub received_of-discarded : (fs : List Fragment) → received_of (map discarded fs) ≡ []
received_of-discarded [] = refl
received_of-discarded (f ∷ fs) = received_of-discarded fs

pub received_of-hand_over :
    (w : Answers) (proto : ℕ) (x : Full) → received_of (hand_over w proto x) ≡ x ∷ []
received_of-hand_over w proto x = elim (Bool-cases (w.receive_fails x proto)) [
  | inl e ↦ rw e
  | inr e ↦ rw e
]

pub in_order-keys : (st : Reassembly) → in_order st ≡ keys st.fragments
in_order-keys st = foreach-keys (length (keys st.fragments)) st.fragments (omega arith)

module _ (net : Net) where
  remove_head : (f : Fragment) (fs : List Fragment) → remove_key (frag_compare net) f (f ∷ fs) ≡ fs
  unfolding remove_key
  remove_head f fs = ground (arith, cmp_self (frag_compare net) (frag_compare-IsOrder net) f)

  -- Deleting all fragments in order leaves an empty tree.
  pub delete_each-keys :
      (ks : List Fragment) (lc : Color) (t : Tree Fragment)
      → keys t ≡ ks
      → Sorted (frag_compare net) ks
      → keys (delete_each net ks lc t).0 ≡ []
  unfolding delete_each
  delete_each-keys [] lc t e s = e
  delete_each-keys (f ∷ fs) lc t e s =
      delete_each-keys fs (delete (frag_compare net) lc f t).1 (delete (frag_compare net) lc f t).0
        (ap (λ (p : List Fragment × Option Fragment). p.0)
            (delete_refines (frag_compare net) (frag_compare-IsOrder net) f lc t
              (subst (Sorted (frag_compare net)) (sym e) s))
          ∙ (ap (remove_key (frag_compare net) f) e ∙ remove_head f fs))
        s.1

  pub emptied-keys :
      (st : Reassembly)
      → Sorted (frag_compare net) (keys st.fragments)
      → keys (emptied net st).fragments ≡ []
  emptied-keys st s =
      delete_each-keys (in_order st) st.leaf_color st.fragments (sym (in_order-keys st))
        (subst (Sorted (frag_compare net)) (sym (in_order-keys st)) s)
