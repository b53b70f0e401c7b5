-- ===== src/Nat/Idle.antt =====
-- What runs of the timer pico_ipv4_nat_table_cleanup of modules/pico_nat.c do to one session among the
-- others of the table.
use mathlib.Core.List.{reverse, reverse-append}
use picotcp.Base.{
  ℕ, ◌≡◌, ◌≢◌, ◌⊎◌, ◌↔◌, inl, inr, refl, sym, ap, ◌∙◌, subst, Bool, true, false, Option, none, some,
  List, [], ◌∷◌, ◌++◌, arith, length,
}
use picotcp.Tree.{keys}
use picotcp.Tree.Order.{Sorted}
use picotcp.Tree.Members.{In, AllAfter-In, cmp_self}
use picotcp.Tree.Walk.{foreach_reverse, foreach_reverse-keys}
use picotcp.Nat.{
  NatTuple, Nat, Session, delete_inbound, delete_outbound, nat_cmp_outbound, nat_del, delete_tuple,
  find_tuple,
}
use picotcp.Nat.Cleanup.{cleanup_tuple, cleanup_all, table_cleanup, restart, tick}
use picotcp.Nat.Table.{IsValid, outbound-IsOrder}
use picotcp.Nat.Changes.{nat_del_outcome}
use picotcp.Nat.Rounds.{
  cleanup_tuple_lem, cleanup_tuple_outcome, nat_del-Gone, udp_ticks, udp_expires,
}
use picotcp.Nat.Reachable.{cleanup_tuple-IsValid}

abbrev Distinct : List NatTuple → Type 0
Distinct [] = Unit {0}
Distinct (x ∷ xs) = (¬ In x xs) × Distinct xs

In-last : (z x : NatTuple) (xs : List NatTuple) → In z (xs ++ x ∷ []) ↔ ((z ≡ x) ⊎ In z xs)
In-last z x [] = ground arith
In-last z x (y ∷ ys) = ground (arith, In-last z x ys)

Distinct-last :
    (x : NatTuple) (xs : List NatTuple) → Distinct xs → ¬ In x xs → Distinct (xs ++ x ∷ [])
Distinct-last x [] d n = ((λ h. h), tt)
Distinct-last x (y ∷ ys) d n = (
  (λ h. elim ((In-last y x ys).0 h) [ inl e ↦ n (inl (sym e)) | inr i ↦ d.0 i ]),
  Distinct-last x ys d.1 (λ i. n (inr i)),
)

reverse-first : (x : NatTuple) (xs : List NatTuple) → reverse (x ∷ xs) ≡ reverse xs ++ x ∷ []
reverse-first x xs = reverse-append (x ∷ []) xs

In-reverse : (z : NatTuple) (xs : List NatTuple) → In z (reverse xs) ↔ In z xs
In-reverse z [] = (λ h. h, λ h. h)
In-reverse z (x ∷ xs) =
    subst (λ ys. In z ys ↔ In z (x ∷ xs)) (sym (reverse-first x xs))
      (ground (arith, In-last z x (reverse xs), In-reverse z xs))

Distinct-reverse : (xs : List NatTuple) → Distinct xs → Distinct (reverse xs)
Distinct-reverse [] d = tt
Distinct-reverse (x ∷ xs) d =
    subst Distinct (sym (reverse-first x xs))
      (Distinct-last x (reverse xs) (Distinct-reverse xs d.1) (λ i. d.0 ((In-reverse x xs).0 i)))

Sorted-Distinct : (xs : List NatTuple) → Sorted nat_cmp_outbound xs → Distinct xs
Sorted-Distinct [] s = tt
Sorted-Distinct (x ∷ xs) s = (
  (λ i. ground (
    arith,
    AllAfter-In nat_cmp_outbound outbound-IsOrder x xs x s.0 i,
    cmp_self nat_cmp_outbound outbound-IsOrder x,
  )),
  Sorted-Distinct xs s.1,
)

nat_del-sessions : (st : Nat) (port proto : ℕ) → (nat_del st port proto).sessions ≡ st.sessions
unfolding nat_del
nat_del-sessions st port proto = by_found (find_tuple st port none 0 proto)
  where
    by_found : (o : Option NatTuple) → (delete_tuple st o).sessions ≡ st.sessions
    by_found none = refl
    by_found (some t) = unfold delete_inbound delete_outbound in refl

-- No round adds a tuple.
abbrev Subset : Nat → Nat → Type 0
Subset st st' = (z : NatTuple) → In z (keys st'.inbound) → In z (keys st.inbound)

cleanup_tuple-Subset : (st : Nat) (t : NatTuple) → IsValid st → Subset st (cleanup_tuple st t)
cleanup_tuple-Subset st t v =
    cleanup_tuple_lem (Subset st) st t (λ z i. i)
      (λ z i. elim (nat_del_outcome st t.nat_port t.proto v).1 [
        | inl (e, f) ↦ subst (λ (s : Nat). In z (keys s.inbound)) f i
        | inr (u, e, d) ↦ ((d z).0 i).0
      ])
      (λ s z i. i)

cleanup_all-Subset : (st : Nat) (ts : List NatTuple) → IsValid st → Subset st (cleanup_all st ts)
unfolding cleanup_all
cleanup_all-Subset st [] v z i = i
cleanup_all-Subset st (t ∷ ts) v z i =
    cleanup_tuple-Subset st t v z
      (cleanup_all-Subset (cleanup_tuple st t) ts (cleanup_tuple-IsValid st t v) z i)

-- A round for another tuple keeps a tuple.
stays :
    (st : Nat) (t z : NatTuple)
    → IsValid st
    → In t (keys st.inbound)
    → z ≢ t
    → In z (keys st.inbound)
    → In z (keys (cleanup_tuple st t).inbound)
stays st t z v m n i = elim (cleanup_tuple_outcome st t v m) [
  | inl k ↦ (k z).1 i
  | inr g ↦ (g z).1 (i, n)
]

module _ (t : NatTuple) where
  -- The tuple is in the table, and its session is as it was.
  record Same (s : Session) (st : Nat) : Type 0 where
    valid : IsValid st
    there : In t (keys st.inbound)
    session : st.sessions t.ptr ≡ s

  -- Of the tuples of a list only `t` has its session.
  abbrev Alone : List NatTuple → Type 0
  Alone ts = (z : NatTuple) → In z ts → z.ptr ≡ t.ptr → z ≡ t

  abbrev AllThere : List NatTuple → Nat → Type 0
  AllThere ts st = (z : NatTuple) → In z ts → In z (keys st.inbound)

  other_session :
      (st : Nat) (z : NatTuple)
      → z.ptr ≢ t.ptr
      → (cleanup_tuple st z).sessions t.ptr ≡ st.sessions t.ptr
  other_session st z n =
      cleanup_tuple_lem (λ (s : Nat). s.sessions t.ptr ≡ st.sessions t.ptr) st z refl
        (ap (λ f. f t.ptr) (nat_del-sessions st z.nat_port z.proto)) (λ s. ground (arith, n))

  round-Same :
      (s : Session) (st : Nat) (z : NatTuple)
      → Same s st
      → In z (keys st.inbound)
      → z ≢ t
      → z.ptr ≢ t.ptr
      → Same s (cleanup_tuple st z)
  round-Same s st z h m n d = record {
    valid = cleanup_tuple-IsValid st z h.valid;
    there = stays st z t h.valid m (λ e. n (sym e)) h.there;
    session = other_session st z d ∙ h.session;
  }

  AllThere-round :
      (st : Nat) (z : NatTuple) (zs : List NatTuple)
      → IsValid st
      → Distinct (z ∷ zs)
      → AllThere (z ∷ zs) st
      → AllThere zs (cleanup_tuple st z)
  AllThere-round st z zs v d a y i =
      stays st z y v (a z (inl refl)) (λ e. d.0 (subst (λ x. In x zs) e i)) (a y (inr i))

  -- The rounds for the other tuples leave a session and its tuple alone.
  others-Same :
      (s : Session) (st : Nat) (ts : List NatTuple)
      → Same s st
      → Distinct ts
      → AllThere ts st
      → Alone ts
      → ¬ In t ts
      → Same s (cleanup_all st ts)
  unfolding cleanup_all
  others-Same s st [] h d a u n = h
  others-Same s st (z ∷ zs) h d a u n =
      let m : z ≢ t = λ e. n (inl (sym e)) in
      others-Same s (cleanup_tuple st z) zs
        (round-Same s st z h (a z (inl refl)) m (λ e. m (u z (inl refl) e))) d.1
        (AllThere-round st z zs h.valid d a) (λ y i. u y (inr i)) (λ i. n (inr i))

  -- A run of the timer is the round for the tuple, among rounds that do not matter to it: what the
  -- round brings about and the other rounds keep holds at the end.
  module _ (s : Session) (Q : Nat → Type 0) (own : (st : Nat) → Same s st → Q (cleanup_tuple st t))
      (kept : (st : Nat) (ts : List NatTuple)
        → IsValid st
        → Q st
        → Distinct ts
        → AllThere ts st
        → Alone ts
        → ¬ In t ts
        → Q (cleanup_all st ts)) where
    run-own :
        (st : Nat) (ts : List NatTuple)
        → Same s st
        → Distinct ts
        → AllThere ts st
        → Alone ts
        → In t ts
        → Q (cleanup_all st ts)
    unfolding cleanup_all
    run-own st [] h d a u i = absurd i
    run-own st (z ∷ zs) h d a u (inl e) =
        let at : Q (cleanup_tuple st z) = subst (λ x. Q (cleanup_tuple st x)) e (own st h) in
        kept (cleanup_tuple st z) zs (cleanup_tuple-IsValid st z h.valid) at d.1
          (AllThere-round st z zs h.valid d a) (λ y i. u y (inr i))
          (λ i. d.0 (subst (λ x. In x zs) e i))
    run-own st (z ∷ zs) h d a u (inr i) =
        let n : z ≢ t = λ e. d.0 (subst (λ x. In x zs) (sym e) i) in
        run-own (cleanup_tuple st z) zs
          (round-Same s st z h (a z (inl refl)) n (λ e. n (u z (inl refl) e))) d.1
          (AllThere-round st z zs h.valid d a) (λ y j. u y (inr j)) i

  module _ (udp : t.proto ≡ 17) (s : Session) (own : s.portforward ≡ false) where
    first_run :
        s.conn_active ≡ 1
        → (st : Nat) (ts : List NatTuple) → Same s st
        → Distinct ts
        → AllThere ts st
        → Alone ts
        → In t ts
        → Same (tick s) (cleanup_all st ts)
    first_run c =
        run-own s (Same (tick s))
          (λ st h.
            subst (Same (tick s))
              (sym (
                udp_ticks st t udp (ap (λ (x : Session). x.portforward) h.session ∙ own)
                  (ap (λ (x : Session). x.conn_active) h.session ∙ c)))
              (record { valid = h.valid; there = h.there; session = ground (arith, h.session) }))
          (λ st ts v q d a u n. others-Same (tick s) st ts q d a u n)

    second_run :
        s.conn_active ≡ 2
        → (st : Nat) (ts : List NatTuple) → Same s st
        → Distinct ts
        → AllThere ts st
        → Alone ts
        → In t ts
        → ¬ In t (keys (cleanup_all st ts).inbound)
    second_run c =
        run-own s (λ (st : Nat). ¬ In t (keys st.inbound))
          (λ st h.
            subst (λ (x : Nat). ¬ In t (keys x.inbound))
              (sym (
                udp_expires st t udp (ap (λ (x : Session). x.portforward) h.session ∙ own)
                  (ap (λ (x : Session). x.conn_active) h.session ∙ c)))
              (λ i. ((nat_del-Gone st t h.valid h.there t).0 i).1 refl))
          (λ st ts v q d a u n i. q (cleanup_all-Subset st ts v t i))

-- The tuples that the loop takes.
abbrev taken : Nat → List NatTuple
taken st = foreach_reverse (length (keys st.outbound)) st.outbound

taken-keys : (st : Nat) → taken st ≡ reverse (keys st.outbound)
taken-keys st = foreach_reverse-keys (length (keys st.outbound)) st.outbound (omega arith)

taken-Distinct : (st : Nat) → IsValid st → Distinct (taken st)
taken-Distinct st v =
    subst Distinct (sym (taken-keys st))
      (Distinct-reverse (keys st.outbound) (Sorted-Distinct (keys st.outbound) v.out_sorted))

taken-In : (st : Nat) → IsValid st → (z : NatTuple) → In z (taken st) ↔ In z (keys st.inbound)
taken-In st v z =
    subst (λ ts. In z ts ↔ In z (keys st.inbound)) (sym (taken-keys st))
      (ground (arith, In-reverse z (keys st.outbound), v.same z))

restart-Same :
    (t : NatTuple) (s : Session) (b : Bool) (st : Nat) → Same t s st → Same t s (restart b st)
restart-Same t s true st h = record { valid = h.valid; there = h.there; session = h.session }
restart-Same t s false st h = h

restart-inbound : (b : Bool) (st : Nat) → (restart b st).inbound ≡ st.inbound
restart-inbound true st = refl
restart-inbound false st = refl

-- A session of UDP in a valid table that has just been used and is not forwarded, and that no other
-- tuple of the table has: after one run of pico_ipv4_nat_table_cleanup its tuple is still in the table,
-- and after a second run, with nothing in between, it is not, whatever the other sessions are.
pub idle_udp_gone :
    (st : Nat) (t : NatTuple) (b b' : Bool)
    → IsValid st
    → In t (keys st.inbound)
    → ((z : NatTuple) → In z (keys st.inbound) → z.ptr ≡ t.ptr → z ≡ t)
    → t.proto ≡ 17
    → (st.sessions t.ptr).portforward ≡ false
    → (st.sessions t.ptr).conn_active ≡ 1
    → In t (keys (table_cleanup b st).inbound)
      × ¬ In t (keys (table_cleanup b' (table_cleanup b st)).inbound)
unfolding table_cleanup
idle_udp_gone st t b b' v m u p f c =
    let s = st.sessions t.ptr in
    let one =
      first_run t p s f c st (taken st) (record { valid = v; there = m; session = refl })
        (taken-Distinct st v) (λ z i. (taken-In st v z).0 i) (λ z i. u z ((taken-In st v z).0 i))
        ((taken-In st v t).1 m) in
    let st' = restart b (cleanup_all st (taken st)) in
    let h = restart-Same t (tick s) b (cleanup_all st (taken st)) one in
    let sub : Subset st st' = λ z i.
      cleanup_all-Subset st (taken st) v z
        (subst (λ k. In z (keys k)) (restart-inbound b (cleanup_all st (taken st))) i) in
    let two =
      second_run t p (tick s) f (ground (arith, c)) st' (taken st') h (taken-Distinct st' h.valid)
        (λ z i. (taken-In st' h.valid z).0 i) (λ z i. u z (sub z ((taken-In st' h.valid z).0 i)))
        ((taken-In st' h.valid t).1 h.there) in
    (
      h.there,
      λ i. two (subst (λ k. In t (keys k)) (restart-inbound b' (cleanup_all st' (taken st'))) i),
    )
