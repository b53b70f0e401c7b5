-- ===== src/Routes.antt =====
-- The routes of modules/pico_ipv4.c, in a tree. Addresses are numbers as the code reads them, in
-- network byte order; a link is a pointer, and `none` is NULL.
pub mod Best
pub mod Changes
mod Tests
use picotcp.Base.{
  ℕ, zero, suc, ◌+◌, ◌*◌, ◌/◌, ◌%◌, bit_and, compare, Ordering, Bool, true, false, Option, none,
  some, List, [], ◌∷◌, if◌then◌else◌, ◌==◌, ℤ, pos, negsuc, length,
}
use picotcp.Tree.{Color, Tree, Inserted, done, exists, no_memory, keys, find_key, insert}
use picotcp.Tree.Walk.{foreach_reverse}
use picotcp.Tree.Delete.{delete}

pub record Route : Type 0 where
  pub dest : ℕ
  pub netmask : ℕ
  pub gateway : ℕ
  pub link : Option ℕ
  pub metric : ℕ

-- `routes` is Routes, with the colour of LEAF; `bcast_link` is the link of default_bcast_route.
pub record Routing : Type 0 where
  pub routes : Tree Route
  pub leaf_color : Color
  pub bcast_link : Option ℕ

-- `long_be` on a little-endian machine.
unfoldable pub long_be : ℕ → ℕ
long_be n =
    n % 256 * 16777216 + (n / 256 % 256 * 65536 + (n / 65536 % 256 * 256 + n / 16777216 % 256))

abbrev pub then_by : Ordering → Ordering → Ordering
then_by Ordering.lt o = Ordering.lt
then_by Ordering.eq o = o
then_by Ordering.gt o = Ordering.gt

-- pico_ipv4_compare
abbrev pub ipv4_compare : ℕ → ℕ → Ordering
ipv4_compare a b = compare a b

abbrev pub ipv4_route_compare : Route → Route → Ordering
ipv4_route_compare a b =
    then_by (compare (long_be a.netmask) (long_be b.netmask))
      (then_by (ipv4_compare a.dest b.dest) (compare a.metric b.metric))

abbrev pub default_bcast_route : Routing → Route
default_bcast_route st = record {
  dest = 4294967295;
  netmask = 4294967295;
  gateway = 0;
  link = st.bcast_link;
  metric = 1000;
}

-- The test of the loop of route_find.
abbrev pub is_covered : ℕ → Route → Bool
is_covered addr r = bit_and addr r.netmask == r.dest

abbrev pub first_covering : ℕ → List Route → Option Route
first_covering addr [] = none
first_covering addr (r ∷ rs) = if is_covered addr r then some r else first_covering addr rs

-- route_find; the walk through the tree has as many rounds as the tree has keys.
unfoldable pub route_find : Routing → ℕ → Option Route
route_find st addr =
    if addr == 0
    then none
    else if addr == 4294967295
    then some (default_bcast_route st)
    else first_covering addr (foreach_reverse (length (keys st.routes)) st.routes)

pub data RouteErr : Type 0 where
  einval enomem ehostunreach enetunreach : RouteErr

-- pico_ipv4_route_get_gateway: 0 if there is no route.
abbrev pub gateway_of : Option Route → ℕ × Option RouteErr
gateway_of none = (0, some ehostunreach)
gateway_of (some r) = (r.gateway, none)

unfoldable pub route_get_gateway : Routing → ℕ → ℕ × Option RouteErr
unfolding route_find
route_get_gateway st addr = gateway_of (route_find st addr)

-- pico_ipv4_source_find: the link whose address is the source.
abbrev pub source_of : Option Route → Option ℕ × Option RouteErr
source_of none = (none, some ehostunreach)
source_of (some r) = elim r.link [ none ↦ (none, some ehostunreach) | some l ↦ (some l, none) ]

unfoldable pub source_find : Routing → ℕ → Option ℕ × Option RouteErr
unfolding route_find
source_find st dst = source_of (route_find st dst)

-- The link of a new route: the one that is given, or that of the route to the gateway, which must
-- be a neighbour.
pub data Linked : Type 0 where
  via : Option ℕ → Linked
  unlinked : RouteErr → Linked

abbrev pub gateway_link : Option Route → Linked
gateway_link none = unlinked ehostunreach
gateway_link (some r) = if r.gateway == 0 then via r.link else unlinked enetunreach

unfoldable pub link_for : Routing → ℕ → Option ℕ → Linked
unfolding route_find
link_for st gateway link = if gateway == 0 then via link else gateway_link (route_find st gateway)

abbrev pub route_inserted :
    Routing → Tree Route × Color × Inserted Route → Routing × ℤ × Option RouteErr
route_inserted st (t, lc, done) = (record st { routes = t; leaf_color = lc }, pos 0, none)
route_inserted st (t, lc, exists r) = (record st { routes = t; leaf_color = lc }, negsuc 0, none)
route_inserted st (t, lc, no_memory) = (record st { routes = t; leaf_color = lc }, negsuc 0, none)

unfoldable pub add_linked : Bool → Routing → Route → Linked → Routing × ℤ × Option RouteErr
add_linked node_alloc st new (unlinked e) = (st, negsuc 0, some e)
add_linked node_alloc st new (via none) = (st, negsuc 0, some einval)
add_linked node_alloc st new (via (some l)) =
    route_inserted st
      (insert ipv4_route_compare node_alloc st.leaf_color (record new { link = some l }) st.routes)

abbrev pub add_absent : Bool → Bool → Routing → Route → Routing × ℤ × Option RouteErr
add_absent false node_alloc st new = (st, negsuc 0, some enomem)
add_absent true node_alloc st new = add_linked node_alloc st new (link_for st new.gateway new.link)

abbrev pub add_found : Bool → Bool → Routing → Route → Option Route → Routing × ℤ × Option RouteErr
add_found alloc node_alloc st new (some r) = (st, negsuc 0, some einval)
add_found alloc node_alloc st new none = add_absent alloc node_alloc st new

-- pico_ipv4_route_add of a route with the fields that are given; the errors are those that the
-- function sets itself.
unfoldable pub route_add : Bool → Bool → Routing → Route → Routing × ℤ × Option RouteErr
unfolding link_for add_linked
route_add alloc node_alloc st new =
    add_found alloc node_alloc st new (find_key ipv4_route_compare new st.routes)

abbrev pub del_found : Routing → Option Route → Routing × ℤ × Option RouteErr
del_found st none = (st, negsuc 0, some einval)
del_found st (some r) =
    let (t, lc, gone) = delete ipv4_route_compare st.leaf_color r st.routes in
    (record st { routes = t; leaf_color = lc }, pos 0, none)

-- pico_ipv4_route_del
unfoldable pub route_del : Routing → Route → Routing × ℤ × Option RouteErr
route_del st test = del_found st (find_key ipv4_route_compare test st.routes)
