-- ===== src/Fragments/Faults.antt =====
-- Where pico_ipv4_process_frag of modules/pico_fragments.c loses a datagram, and where the frame that
-- is made is too small.
use picotcp.Base.{
  ℕ, ◌+◌, ◌<◌, ◌≤◌, ◌≡◌, ◌≢◌, ◌↔◌, refl, sym, ap, ◌∙◌, subst, not, ◌&&◌, some, List, [], ◌∷◌, ◌++◌,
  arith, length, if_cases, ◌==◌, map,
}
use mathlib.Core.List.{append-nil}
use picotcp.Tree.{keys}
use picotcp.Tree.Order.{Sorted}
use picotcp.Tree.Members.{In}
use picotcp.Tree.Walk.{first}
use picotcp.Fragments.{
  Net, ipv4, Fragment, Full, Event, discarded, Answers, Reassembly, get_offset, frag_compare,
  get_header_length, joined, in_order, emptied, empty_tree, check_from, check_complete, checked,
  kept, check_kept, after, process_first, process_frag,
}
use picotcp.Fragments.Chain.{Chain}
use picotcp.Fragments.Emptied.{received_of, received_of-discarded, in_order-keys, emptied-keys}
use picotcp.Fragments.Whole.{whole}
use picotcp.Fragments.Delivery.{arrivals, HasMemory, OneDatagram, delivered}

check_empty :
    (net : Net) (w : Answers) (proto : ℕ) (st : Reassembly)
    → keys st.fragments ≡ []
    → check_complete net w proto st ≡ (st, [])
unfolding check_complete
check_empty net w proto st e =
    ap (λ l. checked net w proto st (check_from net 0 l)) (in_order-keys st ∙ e)

-- The first fragment of a new IPv4 datagram, one with another identification and offset 0, that
-- arrives while fragments of an earlier one are in the tree, is lost: the tree is emptied and the
-- fragment is not put there, no frame is handed over, and the timer of the old datagram goes on.
pub new_datagram_lost :
    (w : Answers) (proto : ℕ) (st : Reassembly) (f g : Fragment)
    → Sorted (frag_compare ipv4) (keys st.fragments)
    → first st.fragments ≡ some g
    → f.id ≢ st.cur_frag_id
    → get_offset ipv4 f ≡ 0
    → let (st', es) = process_frag ipv4 w proto st f in
      (keys st'.fragments ≡ [])
      × (st'.cur_frag_id ≡ 0)
      × (st'.timer ≡ st.timer)
      × (received_of es ≡ [])
unfolding process_frag empty_tree
new_datagram_lost w proto st f g s p n o =
    let st' = record (emptied ipv4 st) { cur_frag_id = 0 } in
    let es = map discarded (in_order st) in
    let same : check_kept ipv4 w proto (process_first ipv4 w st f (first st.fragments))
        ≡ (st', es ++ []) =
      ap (λ o. check_kept ipv4 w proto (process_first ipv4 w st f o)) p
      ∙ (ap (check_kept ipv4 w proto) (
            if_cases (λ k. k ≡ kept st' es) (not (f.id == st.cur_frag_id) && get_offset ipv4 f == 0)
              _ _ (λ t. refl) (λ t. ground (arith, t, n, o)))
          ∙ ap (after es) (check_empty ipv4 w proto st' (emptied-keys ipv4 st s))) in
    subst
      (λ (r : Reassembly × List Event).
        (keys r.0.fragments ≡ [])
        × (r.0.cur_frag_id ≡ 0)
        × (r.0.timer ≡ st.timer)
        × (received_of r.1 ≡ []))
      (sym same)
      (
        emptied-keys ipv4 st s,
        refl,
        refl,
        ap received_of (append-nil es) ∙ received_of-discarded (in_order st),
      )

-- A datagram whose fragments make 65536 bytes or more together with the header is put together in
-- a frame with a buffer that is smaller than what is written to it.
pub oversize_overruns :
    (net : Net) (w : Answers) (proto : ℕ) (f : Fragment) (fs xs : List Fragment) (st : Reassembly)
    → Chain net 0 (f ∷ fs)
    → OneDatagram f (f ∷ fs)
    → f.id ≢ 0
    → HasMemory w
    → keys st.fragments ≡ []
    → st.cur_frag_id ≢ f.id
    → ((x : Fragment) → In x xs ↔ In x (f ∷ fs))
    → 65536 ≤ get_header_length net + length (joined (f ∷ fs))
    → (x : Full) × (received_of (arrivals net w proto st xs).1 ≡ x ∷ [])
      × (x.buffer_len < get_header_length net + length x.written)
oversize_overruns net w proto f fs xs st c d z m e n a o =
    (whole net f fs, delivered net w proto f fs xs st c d z m e n a, omega (arith, o))
