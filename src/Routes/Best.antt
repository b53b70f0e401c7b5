-- ===== src/Routes/Best.antt =====
-- Which route route_find of modules/pico_ipv4.c takes: of all that cover the address, the last one in
-- the order of the tree, which has the longest netmask.
use mathlib.Core.List.{reverse, reverse-append}
use picotcp.Base.{
  ℕ, ◌≤◌, ◌≡◌, ◌≢◌, ◌⊎◌, inl, inr, refl, sym, ap, ◌∙◌, subst, Bool, true, false, Option, none, some,
  List, [], ◌∷◌, ◌++◌, arith, Ordering, if◌then◌else◌, ◌==◌, length,
}
use picotcp.Tree.{keys}
use picotcp.Tree.Order.{IsOrder, Sorted, AllAfter}
use picotcp.Tree.Members.{In, AllAfter-In}
use picotcp.Tree.Walk.{foreach_reverse-keys}
use picotcp.Routes.{
  Route, Routing, long_be, ipv4_route_compare, is_covered, first_covering, route_find,
}

pub ipv4_route_compare-IsOrder : IsOrder ipv4_route_compare
ipv4_route_compare-IsOrder = record {
  flip = λ a b. ground arith;
  trans = λ a b c h i. ground arith;
  congr = λ a b c h. ground arith;
}

covering-append :
    (addr : ℕ) (xs : List Route) (r : Route)
    → first_covering addr (xs ++ r ∷ []) ≡ (elim (first_covering addr xs) as (λ _. Option Route) [
      | some x ↦ some x
      | none ↦ if is_covered addr r then some r else none
    ])
covering-append addr [] r = refl
covering-append addr (x ∷ xs) r = ground (arith, covering-append addr xs r)

-- The last route of a list that covers the address.
abbrev Last : ℕ → List Route → Option Route → Type 0
Last addr xs none = (x : Route) → In x xs → is_covered addr x ≡ false
Last addr xs (some r) =
    In r xs
    × (is_covered addr r ≡ true)
    × ((x : Route)
        → In x xs
        → is_covered addr x ≡ true
        → (x ≡ r) ⊎ (ipv4_route_compare x r ≡ Ordering.lt))

covering-Last :
    (addr : ℕ) (x : Route) (xs : List Route) (o : Option Route)
    → AllAfter ipv4_route_compare x xs
    → first_covering addr (reverse xs) ≡ o
    → Last addr xs o
    → Last addr (x ∷ xs) (first_covering addr (reverse xs ++ x ∷ []))
covering-Last addr x xs none a e h =
    rw (covering-append addr (reverse xs) x, e) (by_test (is_covered addr x) refl)
  where
    by_test : (b : Bool) → is_covered addr x ≡ b → Last addr (x ∷ xs) (if b then some x else none)
    by_test true f =
        (inl refl, f, λ y i c. elim i [ inl k ↦ inl k | inr k ↦ absurd (clash (sym c ∙ h y k)) ])
      where
        clash : true ≡ false → ⊥
        clash k = cc
    by_test false f = λ y i. elim i [ inl k ↦ ap (is_covered addr) k ∙ f | inr k ↦ h y k ]
covering-Last addr x xs (some r) a e (i, c, h) =
    rw (covering-append addr (reverse xs) x, e)
      (
        inr i,
        c,
        λ y j d. elim j [
          | inl k ↦ inr (
              subst (λ z. ipv4_route_compare z r ≡ Ordering.lt) (sym k)
                (AllAfter-In ipv4_route_compare ipv4_route_compare-IsOrder x xs r a i))
          | inr k ↦ h y k d
        ],
      )

reverse-Last :
    (addr : ℕ) (xs : List Route)
    → Sorted ipv4_route_compare xs
    → Last addr xs (first_covering addr (reverse xs))
reverse-Last addr [] s = λ y i. absurd i
reverse-Last addr (x ∷ xs) s =
    subst (λ ys. Last addr (x ∷ xs) (first_covering addr ys)) (sym (reverse-append (x ∷ []) xs))
      (covering-Last addr x xs (first_covering addr (reverse xs)) s.0 refl
        (reverse-Last addr xs s.1))

route_find-walk :
    (st : Routing) (addr : ℕ)
    → addr ≢ 0
    → addr ≢ 4294967295
    → route_find st addr ≡ first_covering addr (reverse (keys st.routes))
unfolding route_find
route_find-walk st addr a b =
    let e : (addr == 0) ≡ false = ground (arith, a) in
    let f : (addr == 4294967295) ≡ false = ground (arith, b) in
    rw (e, f, foreach_reverse-keys (length (keys st.routes)) st.routes (omega arith)) refl

-- The route that is found covers the address, and no other one that does is more specific: none
-- has a longer netmask, or with the same netmask and destination a greater metric.
abbrev pub Best : ℕ → List Route → Option Route → Type 0
Best addr rs none = (x : Route) → In x rs → is_covered addr x ≡ false
Best addr rs (some r) =
    In r rs
    × (is_covered addr r ≡ true)
    × ((x : Route)
        → In x rs
        → is_covered addr x ≡ true
        → (long_be x.netmask ≤ long_be r.netmask)
          × (x.netmask ≡ r.netmask → x.dest ≡ r.dest → x.metric ≤ r.metric))

Last-Best : (addr : ℕ) (rs : List Route) (o : Option Route) → Last addr rs o → Best addr rs o
Last-Best addr rs none h = h
Last-Best addr rs (some r) (i, c, h) = (i, c, λ x j d. by_place x (h x j d))
  where
    by_place :
        (x : Route)
        → (x ≡ r) ⊎ (ipv4_route_compare x r ≡ Ordering.lt)
        → (long_be x.netmask ≤ long_be r.netmask)
          × (x.netmask ≡ r.netmask → x.dest ≡ r.dest → x.metric ≤ r.metric)
    by_place x (inl e) = ground (arith, e)
    by_place x (inr e) = ground (arith, e)

-- route_find on a table in order, of an address that is neither 0 nor the broadcast address: NULL
-- only if no route covers the address; otherwise a route of the table that does, and no route that
-- covers the address has a longer netmask; of those with one netmask and destination it is the one
-- with the greatest metric.
pub route_find-Best :
    (st : Routing) (addr : ℕ)
    → Sorted ipv4_route_compare (keys st.routes)
    → addr ≢ 0
    → addr ≢ 4294967295
    → Best addr (keys st.routes) (route_find st addr)
route_find-Best st addr s a b =
    subst (Best addr (keys st.routes)) (sym (route_find-walk st addr a b)) (
      Last-Best addr (keys st.routes) (first_covering addr (reverse (keys st.routes)))
        (reverse-Last addr (keys st.routes) s))
