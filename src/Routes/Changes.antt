-- ===== src/Routes/Changes.antt =====
-- What pico_ipv4_route_add and pico_ipv4_route_del of modules/pico_ipv4.c do to the table.
use picotcp.Base.{
  ℕ, ◌≡◌, ◌≢◌, ◌⊎◌, inl, inr, refl, sym, ap, ◌∙◌, Bool, true, false, Option, none, some, List,
  arith, ◌==◌, Bool-cases, Option-cases, ℤ, pos, negsuc,
}
use picotcp.Tree.{Color, Tree, Inserted, done, exists, no_memory, keys, find_key, insert}
use picotcp.Tree.Order.{Sorted, search_key, insert_key, remove_key, insert_list}
use picotcp.Tree.Refine.{insert_list_cases, find_key-keys, insert_refines}
use picotcp.Tree.Delete.Refine.{delete_refines}
use picotcp.Routes.{
  Route, Routing, RouteErr, ipv4_route_compare, route_find, Linked, via, unlinked, gateway_link,
  link_for, route_inserted, add_linked, add_found, route_add, route_del,
}
use picotcp.Routes.Best.{ipv4_route_compare-IsOrder}

-- How a new route gets its link: it is given, or it is that of a neighbour's route.
abbrev pub Reaches : Routing → Route → ℕ → Type 0
Reaches st new l =
    ((new.gateway ≡ 0) × (new.link ≡ some l))
    ⊎ ((new.gateway ≢ 0)
        × (g : Route) × (route_find st new.gateway ≡ some g)
        × (g.gateway ≡ 0)
        × (g.link ≡ some l))

gateway_link-via :
    (o : Option Route) (l : ℕ)
    → gateway_link o ≡ via (some l)
    → (g : Route) × (o ≡ some g) × (g.gateway ≡ 0) × (g.link ≡ some l)
gateway_link-via none l e = cc
gateway_link-via (some g) l e = (g, refl, ground (arith, e), ground (arith, e))

link_for-Reaches :
    (st : Routing) (new : Route) (l : ℕ)
    → link_for st new.gateway new.link ≡ via (some l)
    → Reaches st new l
unfolding link_for
link_for-Reaches st new l e = elim (Bool-cases (new.gateway == 0)) [
  | inl f ↦ inl (ground (arith, f), ground (arith, e, f))
  | inr f ↦
      let (g, x, y, z) = gateway_link-via (route_find st new.gateway) l (ground (arith, e, f)) in
      inr (ground (arith, f), g, x, y, z)
]

-- The table has not changed, or it has the new route.
abbrev pub AddOutcome : Routing → Route → Routing × ℤ × Option RouteErr → Type 0
AddOutcome st new (st', r, e) =
    ((r ≡ negsuc 0) × (keys st'.routes ≡ keys st.routes) × (st'.bcast_link ≡ st.bcast_link))
    ⊎ ((r ≡ pos 0)
        × (l : ℕ) × Reaches st new l
        × (keys st'.routes
            ≡ insert_key ipv4_route_compare (record new { link = some l }) (keys st.routes))
        × (st'.bcast_link ≡ st.bcast_link))

route_inserted-AddOutcome :
    (st : Routing) (new : Route) (l : ℕ) (alloc : Bool) (t : Tree Route) (lc : Color)
    (told : Inserted Route)
    → Reaches st new l
    → (keys t, told)
      ≡ insert_list ipv4_route_compare (record new { link = some l }) alloc (keys st.routes)
    → AddOutcome st new (route_inserted st (t, lc, told))
route_inserted-AddOutcome st new l alloc t lc told w e =
    let r : Route = record new { link = some l } in
    let e0 = ap (λ (p : List Route × Inserted Route). p.0) e in
    let e1 = ap (λ (p : List Route × Inserted Route). p.1) e in
    elim (insert_list_cases ipv4_route_compare r alloc (keys st.routes)) [
      | inl (c, d, n) ↦ refused told (e0 ∙ c) (λ h. d (sym e1 ∙ h))
      | inr (c, d, n, b) ↦ added told (e0 ∙ c) (e1 ∙ d)
    ]
  where
    refused :
        (told : Inserted Route)
        → keys t ≡ keys st.routes
        → told ≢ done
        → AddOutcome st new (route_inserted st (t, lc, told))
    refused done c d = absurd (d refl)
    refused (exists x) c d = inl (refl, c, refl)
    refused no_memory c d = inl (refl, c, refl)

    added :
        (told : Inserted Route)
        → keys t ≡ insert_key ipv4_route_compare (record new { link = some l }) (keys st.routes)
        → told ≡ done
        → AddOutcome st new (route_inserted st (t, lc, told))
    added done c d = inr (refl, l, w, c, refl)
    added (exists x) c d = cc
    added no_memory c d = cc

add_linked-AddOutcome :
    (node_alloc : Bool) (st : Routing) (new : Route) (o : Linked)
    → Sorted ipv4_route_compare (keys st.routes)
    → link_for st new.gateway new.link ≡ o
    → AddOutcome st new (add_linked node_alloc st new o)
unfolding add_linked
add_linked-AddOutcome node_alloc st new (unlinked e) s h = inl (refl, refl, refl)
add_linked-AddOutcome node_alloc st new (via none) s h = inl (refl, refl, refl)
add_linked-AddOutcome node_alloc st new (via (some l)) s h =
    let r : Route = record new { link = some l } in
    let (t, lc, told) = insert ipv4_route_compare node_alloc st.leaf_color r st.routes in
    route_inserted-AddOutcome st new l node_alloc t lc told (link_for-Reaches st new l h) (
      insert_refines ipv4_route_compare ipv4_route_compare-IsOrder r node_alloc st.leaf_color
        st.routes s)

add_found-AddOutcome :
    (alloc node_alloc : Bool) (st : Routing) (new : Route) (o : Option Route)
    → Sorted ipv4_route_compare (keys st.routes)
    → AddOutcome st new (add_found alloc node_alloc st new o)
add_found-AddOutcome alloc node_alloc st new (some r) s = inl (refl, refl, refl)
add_found-AddOutcome false node_alloc st new none s = inl (refl, refl, refl)
add_found-AddOutcome true node_alloc st new none s =
    add_linked-AddOutcome node_alloc st new (link_for st new.gateway new.link) s refl

-- pico_ipv4_route_add on a table in order: either the answer is -1 and the table has the same
-- routes, or it is 0 and the table has the new route in its place, with a link: the one that is
-- given if there is no gateway, and otherwise that of the route to the gateway, which is itself
-- without a gateway.
pub route_add_outcome :
    (alloc node_alloc : Bool) (st : Routing) (new : Route)
    → Sorted ipv4_route_compare (keys st.routes)
    → AddOutcome st new (route_add alloc node_alloc st new)
unfolding route_add
route_add_outcome alloc node_alloc st new s =
    add_found-AddOutcome alloc node_alloc st new (find_key ipv4_route_compare new st.routes) s

-- pico_ipv4_route_del on a table in order: the route with the destination, netmask and metric that
-- are given leaves the table, and the answer is 0; without such a route it is -1, and the table is
-- as it was.
pub route_del_outcome :
    (st : Routing) (test : Route)
    → Sorted ipv4_route_compare (keys st.routes)
    → let (st', r, e) = route_del st test in
      ((search_key ipv4_route_compare test (keys st.routes) ≡ none) × (r ≡ negsuc 0) × (st' ≡ st))
      ⊎ ((found : Route) × (search_key ipv4_route_compare test (keys st.routes) ≡ some found)
          × (r ≡ pos 0)
          × (keys st'.routes ≡ remove_key ipv4_route_compare found (keys st.routes)))
unfolding route_del
route_del_outcome st test s =
    let f = find_key-keys ipv4_route_compare ipv4_route_compare-IsOrder test st.routes s in
    elim (Option-cases (find_key ipv4_route_compare test st.routes)) [
      | inl e ↦ rw e (inl (sym f ∙ e, refl, refl))
      | inr (r, e) ↦ rw e (
          inr (
            r,
            sym f ∙ e,
            refl,
            ap (λ (p : List Route × Option Route). p.0)
                (delete_refines ipv4_route_compare ipv4_route_compare-IsOrder r st.leaf_color
                  st.routes s),
          ))
    ]
