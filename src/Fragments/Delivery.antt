-- ===== src/Fragments/Delivery.antt =====
-- What pico_ipv4_process_frag and pico_ipv6_process_frag of modules/pico_fragments.c hand over when
-- the fragments of one datagram arrive, in any order and any number of times.
use picotcp.Base.{
  ℕ, ◌≡◌, ◌≢◌, ◌⊎◌, ◌↔◌, inl, inr, refl, sym, ap, ◌∙◌, subst, Bool, true, false, not, ◌&&◌, some,
  List, [], ◌∷◌, arith, ◌==◌, ==_iff, if_cases, ◌+◌, ◌<◌, length,
}
use mathlib.Core.List.{append-nil}
use picotcp.Tree.{Tree, keys}
use picotcp.Tree.Order.{Sorted}
use picotcp.Tree.Members.{In}
use picotcp.Tree.Walk.{first, head, first-keys}
use picotcp.Fragments.{
  Net, ipv4, ipv6, Fragment, Full, Event, Answers, Reassembly, get_offset, frag_compare, in_order,
  emptied, empty_tree, get_header_length, joined, insert_frag, check_kept, after, next_with,
  continue_with, start_timed, frag_timer_on, is_continued, process_first, process_frag,
}
use picotcp.Fragments.Chain.{Chain, Sorted-Chain}
use picotcp.Fragments.Emptied.{received_of, received_of-append, received_of-discarded, emptied-keys}
use picotcp.Fragments.Whole.{whole, Collecting, Finished, Outcome}
use picotcp.Fragments.Arrival.{insert-Outcome}

next_same :
    (net : Net) (w : Answers) (st : Reassembly) (x g : Fragment)
    → x.id ≡ st.cur_frag_id
    → next_with net w st x g ≡ continue_with net w st x (some g) []
next_same ipv4 w st x g e =
    if_cases (λ k. k ≡ continue_with ipv4 w st x (some g) [])
      (not (x.id == st.cur_frag_id) && get_offset ipv4 x == 0) _ _ (λ t. ground (arith, e, t))
      (λ t. refl)
next_same ipv6 w st x g e = refl

is_continued-same :
    (st : Reassembly) (x g : Fragment)
    → x.src ≡ g.src
    → x.dst ≡ g.dst
    → x.id ≡ st.cur_frag_id
    → is_continued st x (some g) ≡ true
is_continued-same st x g a b e = ground (arith, a, b, e)

and_right : (a b : Bool) → a && b ≡ true → b ≡ true
and_right true b e = e
and_right false b e = ground (arith, e)

first-some :
    (t : Tree Fragment) (y : Fragment)
    → In y (keys t)
    → (g : Fragment) × (first t ≡ some g) × In g (keys t)
first-some t y i = go (keys t) refl i
  where
    go :
        (ks : List Fragment)
        → keys t ≡ ks
        → In y ks
        → (g : Fragment) × (first t ≡ some g) × In g (keys t)
    go [] e h = absurd h
    go (k ∷ ks) e h = (k, first-keys t ∙ ap head e, subst (λ l. In k l) (sym e) (inl refl))

-- The fragments of a list arrive one after the other.
abbrev pub arrivals : Net → Answers → ℕ → Reassembly → List Fragment → Reassembly × List Event
arrivals net w proto st [] = (st, [])
arrivals net w proto st (x ∷ xs) =
    let (st', es) = process_frag net w proto st x in after es (arrivals net w proto st' xs)

-- The stack has memory for the copies, the tree and the frame that is made.
abbrev pub HasMemory : Answers → Type 0
HasMemory w = (w.copies ≡ true) × (w.node_alloc ≡ true) × (w.allocs ≡ true)

-- The fragments of a list belong to one datagram.
abbrev pub OneDatagram : Fragment → List Fragment → Type 0
OneDatagram f [] = Unit
OneDatagram f (x ∷ xs) = (x.src ≡ f.src) × (x.dst ≡ f.dst) × (x.id ≡ f.id) × OneDatagram f xs

OneDatagram-In :
    (f : Fragment) (xs : List Fragment) (x : Fragment)
    → OneDatagram f xs
    → In x xs
    → (x.src ≡ f.src) × (x.dst ≡ f.dst) × (x.id ≡ f.id)
OneDatagram-In f [] x o i = absurd i
OneDatagram-In f (y ∷ ys) x o (inl e) =
    subst (λ z. (z.src ≡ f.src) × (z.dst ≡ f.dst) × (z.id ≡ f.id)) (sym e) (o.0, o.1, o.2)
OneDatagram-In f (y ∷ ys) x o (inr i) = OneDatagram-In f ys x o.3 i

module _ (net : Net) (w : Answers) (proto : ℕ) (f₀ : Fragment) (fs : List Fragment)
    (c : Chain net 0 (f₀ ∷ fs)) (mem : HasMemory w) (d : OneDatagram f₀ (f₀ ∷ fs)) where
  next-Outcome :
      (x : Fragment)
      → In x (f₀ ∷ fs)
      → (st : Reassembly) → Collecting net f₀ fs st
      → (y : Fragment) → In y (keys st.fragments)
      → Outcome net f₀ fs x (keys st.fragments) (process_frag net w proto st x)
  unfolding process_frag
  next-Outcome x h st (s, i, ne, e) y m =
      let (g, p, k) = first-some st.fragments y m in
      let (a, b, j) = OneDatagram-In f₀ (f₀ ∷ fs) x d h in
      let (a', b', j') = OneDatagram-In f₀ (f₀ ∷ fs) g d (i g k) in
      let same : process_first net w st x (first st.fragments) ≡ insert_frag net w st x [] =
        ap (process_first net w st x) p
        ∙ (next_same net w st x g (j ∙ sym e)
            ∙ rw (is_continued-same st x g (a ∙ sym a') (b ∙ sym b') (j ∙ sym e))
                (rw mem.0 refl)) in
      subst (λ r. Outcome net f₀ fs x (keys st.fragments) (check_kept net w proto r)) (sym same)
        (insert-Outcome net w proto f₀ fs c mem.2 mem.1 mem.0 x h st [] s i ne e refl)

  started-Outcome :
      (x : Fragment)
      → In x (f₀ ∷ fs)
      → (st : Reassembly) (es : List Event) → keys st.fragments ≡ []
      → received_of es ≡ []
      → Outcome net f₀ fs x [] (check_kept net w proto (start_timed net w x (st, es)))
  started-Outcome x h st es e n =
      subst (λ l. Outcome net f₀ fs x l (check_kept net w proto (start_timed net w x (st, es)))) e
        (insert-Outcome net w proto f₀ fs c mem.2 mem.1 mem.0 x h (record st { cur_frag_id = x.id })
          es (subst (Sorted (frag_compare net)) (sym e) tt)
          (λ y i. absurd (subst (λ l. In y l) e i)) (λ q. cc)
          ((OneDatagram-In f₀ (f₀ ∷ fs) x d h).2) n)

  start-Outcome :
      (x : Fragment)
      → In x (f₀ ∷ fs)
      → (st : Reassembly) → keys st.fragments ≡ []
      → st.cur_frag_id ≢ f₀.id
      → Outcome net f₀ fs x [] (process_frag net w proto st x)
  unfolding process_frag empty_tree
  start-Outcome x h st e n =
      let j = (OneDatagram-In f₀ (f₀ ∷ fs) x d h).2 in
      let started = frag_timer_on net w st in
      let same : process_first net w st x (first st.fragments) ≡ start_timed net w x started =
        ap (process_first net w st x) (first-keys st.fragments ∙ ap head e)
        ∙ (if_cases (λ k. k ≡ start_timed net w x started)
            (not (st.cur_frag_id == 0) && x.id == st.cur_frag_id) _ _
            (λ t. absurd (n (sym ((==_iff x.id st.cur_frag_id).0 (and_right _ _ t)) ∙ j)))
            (λ t. rw mem.0 refl)) in
      subst (λ r. Outcome net f₀ fs x [] (check_kept net w proto r)) (sym same)
        (if_cases (λ r. Outcome net f₀ fs x [] (check_kept net w proto (start_timed net w x r)))
          (w.new_timer == 0) _ _
          (λ t.
            started-Outcome x h (emptied net (record st { timer = w.new_timer })) _
              (emptied-keys net (record st { timer = w.new_timer })
                (subst (Sorted (frag_compare net)) (sym e) tt))
              (received_of-discarded (in_order (record st { timer = w.new_timer }))))
          (λ t. started-Outcome x h (record st { timer = w.new_timer }) [] e refl))

  Finished-same :
      (x : Fragment)
      → In x (f₀ ∷ fs)
      → f₀.id ≢ 0
      → (st : Reassembly) → Finished net f₀ fs st
      → process_frag net w proto st x ≡ (st, [])
  unfolding process_frag
  Finished-same x h z st (e, i) =
      let j = (OneDatagram-In f₀ (f₀ ∷ fs) x d h).2 in
      ap (λ o. check_kept net w proto (process_first net w st x o))
        (first-keys st.fragments ∙ ap head e)
      ∙ if_cases (λ k. check_kept net w proto k ≡ (st, []))
          (not (st.cur_frag_id == 0) && x.id == st.cur_frag_id) _ _ (λ t. refl)
          (λ t. ground (arith, t, i, j, z))

  -- Late and repeated fragments of a datagram that is complete change nothing.
  late :
      (xs : List Fragment)
      → ((x : Fragment) → In x xs → In x (f₀ ∷ fs))
      → f₀.id ≢ 0
      → (st : Reassembly) → Finished net f₀ fs st
      → received_of (arrivals net w proto st xs).1 ≡ []
  late [] i z st h = refl
  late (x ∷ xs) i z st h =
      subst (λ r. received_of (after r.1 (arrivals net w proto r.0 xs)).1 ≡ [])
        (sym (Finished-same x (i x (inl refl)) z st h)) (late xs (λ y m. i y (inr m)) z st h)

  received-after :
      (es : List Event) (r : Reassembly × List Event) (l : List Full)
      → received_of es ≡ []
      → received_of r.1 ≡ l
      → received_of (after es r).1 ≡ l
  received-after es (st, es') l e h = received_of-append es es' ∙ rw e h

  received_before :
      (es : List Event) (r : Reassembly × List Event) (l : List Full)
      → received_of es ≡ l
      → received_of r.1 ≡ []
      → received_of (after es r).1 ≡ l
  received_before es (st, es') l e h = received_of-append es es' ∙ (rw (e, h) (append-nil l))

  -- Each fragment of the datagram is in the tree, or still arrives.
  abbrev Covers : List Fragment → List Fragment → Type 0
  Covers ks xs = (x : Fragment) → In x (f₀ ∷ fs) → In x ks ⊎ In x xs

  abbrev Within : List Fragment → Type 0
  Within xs = (x : Fragment) → In x xs → In x (f₀ ∷ fs)

  -- The rest of the arrivals, from a tree with some fragments on.
  abbrev Collects : List Fragment → Type 0
  Collects xs =
      (st : Reassembly)
      → Collecting net f₀ fs st
      → (y : Fragment) → In y (keys st.fragments)
      → Covers (keys st.fragments) xs
      → received_of (arrivals net w proto st xs).1 ≡ whole net f₀ fs ∷ []

  collect_on :
      (x : Fragment) (xs ks : List Fragment)
      → Within xs
      → f₀.id ≢ 0
      → Collects xs
      → (r : Reassembly × List Event) → Outcome net f₀ fs x ks r
      → Covers ks (x ∷ xs)
      → received_of (after r.1 (arrivals net w proto r.0 xs)).1 ≡ whole net f₀ fs ∷ []
  collect_on x xs ks i z rec (st, es) (inl (q, b, n)) a =
      received-after es (arrivals net w proto st xs) (whole net f₀ fs ∷ []) n (
        rec st q x (b x (inl refl)) (λ v h. elim (a v h) [
          | inl k ↦ inl (b v (inr k))
          | inr (inl p) ↦ inl (b v (inl p))
          | inr (inr j) ↦ inr j
        ]))
  collect_on x xs ks i z rec (st, es) (inr (b, n)) a =
      received_before es (arrivals net w proto st xs) (whole net f₀ fs ∷ []) n (late xs i z st b)

  collect : (xs : List Fragment) → Within xs → f₀.id ≢ 0 → Collects xs
  collect [] i z st (s, k, ne, e) y m a = absurd (
      ne (
        Sorted-Chain net 0 (f₀ ∷ fs) (keys st.fragments) c s k
          (λ x h. elim (a x h) [ inl b ↦ b | inr b ↦ absurd b ])))
  collect (x ∷ xs) i z st q y m a =
      let rest = λ (v : Fragment) (h : In v xs). i v (inr h) in
      collect_on x xs (keys st.fragments) rest z (collect xs rest z) (process_frag net w proto st x)
        (next-Outcome x (i x (inl refl)) st q y m) a

-- The fragments of one datagram arrive, and a frame that has them is handed over, whatever its size.
pub delivered :
    (net : Net) (w : Answers) (proto : ℕ) (f : Fragment) (fs xs : List Fragment) (st : Reassembly)
    → Chain net 0 (f ∷ fs)
    → OneDatagram f (f ∷ fs)
    → f.id ≢ 0
    → HasMemory w
    → keys st.fragments ≡ []
    → st.cur_frag_id ≢ f.id
    → ((x : Fragment) → In x xs ↔ In x (f ∷ fs))
    → received_of (arrivals net w proto st xs).1 ≡ whole net f fs ∷ []
delivered net w proto f fs [] st c d z mem e n a = absurd ((a f).1 (inl refl))
delivered net w proto f fs (x ∷ xs) st c d z mem e n a =
    let rest = λ (v : Fragment) (h : In v xs). (a v).0 (inr h) in
    collect_on net w proto f fs c mem d x xs [] rest z (collect net w proto f fs c mem d xs rest z)
      (process_frag net w proto st x)
      (start-Outcome net w proto f fs c mem d x ((a x).0 (inl refl)) st e n)
      (λ v h. inr ((a v).1 h))

-- The fragments of one datagram, whose identification is not 0 and which has less than 65536 bytes
-- with its header, arrive at an empty tree that has not just completed a datagram of that
-- identification: in any order, each of them at least once, and with memory at hand. Then the
-- transport layer is handed one frame and no other: it has the header of the first fragment and behind
-- it the bytes of all fragments in order, its buffer is as large as both, and its length is that of
-- the bytes.
pub delivered_once :
    (net : Net) (w : Answers) (proto : ℕ) (f : Fragment) (fs xs : List Fragment) (st : Reassembly)
    → Chain net 0 (f ∷ fs)
    → OneDatagram f (f ∷ fs)
    → f.id ≢ 0
    → HasMemory w
    → keys st.fragments ≡ []
    → st.cur_frag_id ≢ f.id
    → ((x : Fragment) → In x xs ↔ In x (f ∷ fs))
    → get_header_length net + length (joined (f ∷ fs)) < 65536
    → (x : Full) × (received_of (arrivals net w proto st xs).1 ≡ x ∷ [])
      × (x.first_fragment ≡ f)
      × (x.written ≡ joined (f ∷ fs))
      × (x.buffer_len ≡ get_header_length net + length x.written)
      × (x.full_len ≡ length x.written)
delivered_once net w proto f fs xs st c d z mem e n a s = (
  whole net f fs,
  delivered net w proto f fs xs st c d z mem e n a,
  refl,
  refl,
  omega (arith, s),
  omega (arith, s),
)
