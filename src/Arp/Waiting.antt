-- ===== src/Arp/Waiting.antt =====
-- The frames that wait for an address in modules/pico_arp.c: pico_arp_get, pico_arp_retry,
-- pico_arp_unreachable and pico_arp_postpone.
use picotcp.Base.{
  ℕ, zero, suc, ◌+◌, ◌<◌, ◌≡◌, refl, Bool, true, false, not, ◌&&◌, Option, none, some, List, [],
  ◌∷◌, ◌++◌, if◌then◌else◌, ◌==◌, ltb, arith, length, get_elem?,
}
use picotcp.Routes.{route_get_gateway}
use picotcp.Arp.{Datagram, Stack, Event, unreachable, Resolver, arp_lookup, arp_request}

-- pico_arp_unreachable: the frames that wait for the address, and are not of this host.
abbrev pub next_hop : Stack → ℕ → ℕ
next_hop w dst = let g = (route_get_gateway w.routing dst).0 in if g == 0 then dst else g

unfoldable pub arp_unreachable : Stack → ℕ → List (Option Datagram) → List Event
arp_unreachable w a [] = []
arp_unreachable w a (none ∷ qs) = arp_unreachable w a qs
arp_unreachable w a (some f ∷ qs) =
    (if next_hop w f.dst == a && not (w.is_local f) then unreachable f ∷ [] else [])
    ++ arp_unreachable w a qs

-- pico_arp_retry
abbrev pub arp_retry : Stack → Resolver → Datagram → ℕ → Datagram × List Event
arp_retry w st f hop =
    let f' = record f { failure_count = f.failure_count + 1 } in
    if ltb f'.failure_count 4
    then (f', arp_request w f.dev hop)
    else (f', arp_unreachable w hop st.frames_queued)

abbrev pub looked_up : Stack → Resolver → Datagram → Option ℕ → Option ℕ × Datagram × List Event
looked_up w st f (some mac) = (some mac, f, [])
looked_up w st f none = let (f', es) = arp_retry w st f (next_hop w f.dst) in (none, f', es)

abbrev pub hop_found : Stack → Resolver → Datagram → Option ℕ → Option ℕ × Datagram × List Event
hop_found w st f (some mac) = (some mac, f, [])
hop_found w st f none = looked_up w st f (arp_lookup st (next_hop w f.dst))

-- pico_arp_get: the MAC address, and the frame with its count of failures.
unfoldable pub arp_get : Stack → Resolver → Datagram → Option ℕ × Datagram × List Event
unfolding arp_unreachable
arp_get w st f = hop_found w st f (w.link_mac f.dst)

-- pico_arp_postpone
unfoldable pub postpone : Datagram → List (Option Datagram) → List (Option Datagram)
postpone f [] = []
postpone f (none ∷ qs) = (if ltb f.failure_count 4 then some f else none) ∷ qs
postpone f (some g ∷ qs) = some g ∷ postpone f qs

abbrev pub is_full : List (Option Datagram) → Bool
is_full [] = true
is_full (none ∷ qs) = false
is_full (some g ∷ qs) = is_full qs

-- What pico_arp_postpone leaves, at any place: the number of places is the same, a frame that waits
-- stays where it is, and a frame with less than four failures gets a place unless all are taken.
pub postpone_places :
    (f : Datagram) (qs : List (Option Datagram))
    → (length (postpone f qs) ≡ length qs)
      × ((i : ℕ) (g : Datagram)
          → get_elem? qs i ≡ some (some g)
          → get_elem? (postpone f qs) i ≡ some (some g))
      × (is_full qs ≡ false
          → f.failure_count < 4
          → (i : ℕ) × (get_elem? qs i ≡ some none) × (get_elem? (postpone f qs) i ≡ some (some f)))
unfolding postpone
postpone_places f [] = (refl, (λ i g e. e), (λ e. cc))
postpone_places f (none ∷ qs) = (refl, kept, (λ e l. (0, refl, ground (arith, l))))
  where
    kept :
        (i : ℕ) (g : Datagram)
        → get_elem? (none ∷ qs) i ≡ some (some g)
        → get_elem? (postpone f (none ∷ qs)) i ≡ some (some g)
    kept zero g e = cc
    kept (suc i) g e = e
postpone_places f (some h ∷ qs) =
    let (n, k, p) = postpone_places f qs in
    (omega (arith, n), kept k, (λ e l. let (i, a, b) = p e l in (suc i, a, b)))
  where
    kept :
        ((i : ℕ) (g : Datagram)
          → get_elem? qs i ≡ some (some g)
          → get_elem? (postpone f qs) i ≡ some (some g))
        → (i : ℕ) (g : Datagram) → get_elem? (some h ∷ qs) i ≡ some (some g)
        → get_elem? (postpone f (some h ∷ qs)) i ≡ some (some g)
    kept k zero g e = e
    kept k (suc i) g e = k i g e
