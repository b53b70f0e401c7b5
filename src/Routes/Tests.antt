-- ===== src/Routes/Tests.antt =====
-- Runs of the routes of modules/pico_ipv4.c, and instances of the theorems. An address a.b.c.d is
-- a + 256 * b + 65536 * c + 16777216 * d, as a little-endian machine reads it.
use picotcp.Base.{◌≡◌, refl, true, none, some, [], ◌∷◌, arith}
use picotcp.Tree.{red, black, leaf, node, keys, find_key, insert}
use picotcp.Tree.Order.{Sorted}
use picotcp.Tree.Walk.{foreach_reverse}
use picotcp.Routes.{
  Route, Routing, ehostunreach, ipv4_route_compare, long_be, route_find, route_add,
  route_get_gateway,
}
use picotcp.Routes.Best.{Best, route_find-Best}

-- 10.0.0.0/8 without a gateway, and the default route over 10.0.0.1.
abbrev ten : Route
ten = record { dest = 10; netmask = 255; gateway = 0; link = some 1; metric = 1 }

abbrev anywhere : Route
anywhere = record { dest = 0; netmask = 0; gateway = 16777226; link = some 1; metric = 1 }

-- The same destination again, at a higher price.
abbrev detour : Route
detour = record ten { link = some 2; metric = 5 }

abbrev no_routes : Routing
no_routes = record { routes = leaf; leaf_color = black; bcast_link = none }

abbrev two_routes : Routing
two_routes = let st = (route_add true true no_routes ten).0 in (route_add true true st anywhere).0

-- 10.1.2.3 is found on 10.0.0.0/8, 11.1.2.3 on the default route.
near : route_find two_routes 50462986 ≡ some ten
unfolding route_find foreach_reverse route_add find_key insert long_be
near = refl

far : (route_get_gateway two_routes 50462987).0 ≡ 16777226
unfolding route_get_gateway foreach_reverse route_add find_key insert long_be
far = refl

-- Of two routes to 10.0.0.0/8, the one with the metric 5 is taken.
dearest : route_find (route_add true true two_routes detour).0 50462986 ≡ some detour
unfolding route_find foreach_reverse route_add find_key insert long_be
dearest = refl

no_way_to_gateway : (route_add true true no_routes anywhere).2 ≡ some ehostunreach
unfolding route_add find_key route_find foreach_reverse
no_way_to_gateway = refl

abbrev table : Routing
table = record no_routes { routes = node black ten (node red anywhere leaf leaf) leaf }

table-Sorted : Sorted ipv4_route_compare (keys table.routes)
unfolding long_be
table-Sorted = ((refl, tt), (tt, tt))

route_find-Best_example : Best 50462986 (anywhere ∷ ten ∷ []) (route_find table 50462986)
route_find-Best_example =
    route_find-Best table 50462986 table-Sorted (λ e. omega (arith, e)) (λ e. omega (arith, e))
