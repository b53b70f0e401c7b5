-- ===== src/Arp.antt =====
-- The address resolution of modules/pico_arp.c: the table of the neighbours, a tree in the order of
-- their IPv4 addresses, the frames that wait for an answer, and the limit of requests. A pointer to
-- an entry of the table is its address here: a write through it changes the entry in its place.
pub mod Table
pub mod Receive
pub mod Limit
pub mod Waiting
mod Tests
use picotcp.Base.{
  ℕ, ◌+◌, ◌-◌, ◌≡◌, Bool, true, false, not, ◌&&◌, ◌||◌, Option, none, some, List, [], ◌∷◌, ◌++◌,
  if◌then◌else◌, ◌==◌, leb, ltb, bit_and, ℤ, pos, negsuc, Ordering,
}
use picotcp.Tree.{
  Color, Tree, leaf, node, Inserted, done, exists, no_memory, keys, find_key, insert,
}
use picotcp.Tree.Delete.{delete}
use picotcp.Routes.{Routing, ipv4_compare, route_get_gateway, source_find}

-- PICO_ARP_STATUS_*
pub data Status : Type 0 where
  reachable permanent stale : Status

-- struct pico_arp
pub record Arp : Type 0 where
  pub eth : ℕ
  pub ipv4 : ℕ
  pub arp_status : Status
  pub timestamp : ℕ
  pub dev : ℕ

abbrev pub arp_compare : Arp → Arp → Ordering
arp_compare a b = ipv4_compare a.ipv4 b.ipv4

-- A frame with its IPv4 destination, and the frame of an ARP packet; a MAC address is a number,
-- whose lowest byte is the first one.
pub record Datagram : Type 0 where
  pub ref : ℕ
  pub dst : ℕ
  pub dev : ℕ
  pub failure_count : ℕ

pub record ArpFrame : Type 0 where
  pub htype : ℕ
  pub ptype : ℕ
  pub opcode : ℕ
  pub s_mac : ℕ
  pub src : ℕ
  pub dst : ℕ
  pub dev : ℕ

-- What the rest of the stack answers: PICO_TIME, memory for entries, nodes and frames,
-- pico_timer_add, pico_ipv4_link_find (0 is NULL), the MAC of pico_ipv4_link_get, whether
-- pico_datalink_send sends, pico_source_is_local, and the routes with the addresses of their links.
pub record Stack : Type 0 where
  pub time : ℕ
  pub allocs : Bool
  pub node_alloc : Bool
  pub timer_starts : Bool
  pub link_find : ℕ → ℕ
  pub link_mac : ℕ → Option ℕ
  pub link_address : ℕ → ℕ
  pub sends : Datagram → Bool
  pub is_local : Datagram → Bool
  pub routing : Routing

pub data Event : Type 0 where
  sent discarded unreachable : Datagram → Event
  requested : ℕ → ℕ → ℕ → Event
  replied : ArpFrame → ℕ → Event
  conflict probe : Event
  expires : ℕ → ℕ → Event
  freed : Arp → Event

-- arp_tree with the colour of LEAF, max_arp_reqs, frames_queued, and conflict_ipv4 if a callback is
-- registered, as the address and the MAC.
pub record Resolver : Type 0 where
  pub arp_tree : Tree Arp
  pub leaf_color : Color
  pub max_arp_reqs : ℕ
  pub frames_queued : List (Option Datagram)
  pub conflict_ipv4 : Option (ℕ × ℕ)

-- PICO_ARP_TIMEOUT and PICO_ARP_MAX_RATE
abbrev pub arp_timeout : ℕ
arp_timeout = 600000

abbrev pub max_rate : ℕ
max_rate = 1

-- The key of a search.
abbrev pub search_for : ℕ → Arp
search_for ip = record { eth = 0; ipv4 = ip; arp_status = reachable; timestamp = 0; dev = 0 }

abbrev pub find_arp : Resolver → ℕ → Option Arp
find_arp st ip = find_key arp_compare (search_for ip) st.arp_tree

abbrev pub eth_of : Option Arp → Option ℕ
eth_of none = none
eth_of (some a) = elim a.arp_status [ stale ↦ none | _ ↦ some a.eth ]

-- pico_arp_lookup
unfoldable pub arp_lookup : Resolver → ℕ → Option ℕ
arp_lookup st ip = eth_of (find_arp st ip)

-- A write to the entry with an address.
unfoldable pub map_tree : (Arp → Arp) → Tree Arp → Tree Arp
map_tree g leaf = leaf
map_tree g (node c k l r) = node c (g k) (map_tree g l) (map_tree g r)

abbrev pub write_at : ℕ → (Arp → Arp) → Arp → Arp
write_at ip g a = if a.ipv4 == ip then g a else a

abbrev pub write_entry : ℕ → (Arp → Arp) → Resolver → Resolver
write_entry ip g st = record st { arp_tree = map_tree (write_at ip g) st.arp_tree }

-- pico_arp_queued_trigger: what is sent, and the empty places.
abbrev pub trigger : Stack → Option Datagram → List Event
trigger w none = []
trigger w (some f) = if w.sends f then sent f ∷ [] else sent f ∷ discarded f ∷ []

abbrev pub trigger_all : Stack → List (Option Datagram) → List Event
trigger_all w [] = []
trigger_all w (q ∷ qs) = trigger w q ++ trigger_all w qs

abbrev pub emptied_places : List (Option Datagram) → List (Option Datagram)
emptied_places [] = []
emptied_places (q ∷ qs) = none ∷ emptied_places qs

-- update_max_arp_reqs, without its timer.
unfoldable pub update_max_arp_reqs : Resolver → Resolver
update_max_arp_reqs st =
    if ltb st.max_arp_reqs max_rate then record st { max_arp_reqs = st.max_arp_reqs + 1 } else st

-- pico_arp_add_entry behind the insertion: the waiting frames are sent, and the timer starts.
abbrev pub timed : Stack → Arp → Resolver → Resolver × List Event × ℤ
timed w e st =
    let es = trigger_all w st.frames_queued in
    let st' = record st { frames_queued = emptied_places st.frames_queued } in
    if w.timer_starts
    then (st', es ++ expires arp_timeout e.ipv4 ∷ [], pos 0)
    else let (t, lc, gone) = delete arp_compare st'.leaf_color e st'.arp_tree in
      (record st' { arp_tree = t; leaf_color = lc }, es, negsuc 0)

abbrev pub entry_told :
    Stack → Arp → Resolver → Tree Arp × Color × Inserted Arp → Resolver × List Event × ℤ
entry_told w e st (t, lc, done) = timed w e (record st { arp_tree = t; leaf_color = lc })
entry_told w e st (t, lc, exists a) = (record st { arp_tree = t; leaf_color = lc }, [], negsuc 0)
entry_told w e st (t, lc, no_memory) = (record st { arp_tree = t; leaf_color = lc }, [], negsuc 0)

-- The entry as pico_arp_add_entry writes it.
abbrev pub renewed : Stack → Arp → Arp
renewed w e = record e { arp_status = reachable; timestamp = w.time }

-- pico_arp_add_entry
unfoldable pub add_entry : Stack → Arp → Resolver → Resolver × List Event × ℤ
add_entry w e st =
    entry_told w (renewed w e) st
      (insert arp_compare w.node_alloc st.leaf_color (renewed w e) st.arp_tree)

-- The memory of an entry that could not be added.
abbrev pub freed_on_error : Arp → Resolver × List Event × ℤ → Resolver × List Event × ℤ
freed_on_error e (st, es, pos n) = (st, es, pos n)
freed_on_error e (st, es, negsuc n) = (st, es ++ freed e ∷ [], negsuc n)

-- pico_arp_create_entry
unfoldable pub create_entry : Stack → ℕ → ℕ → ℕ → Resolver → Resolver × List Event × ℤ
unfolding add_entry
create_entry w hwaddr ip dev st =
    if w.allocs
    then (let e = record (search_for ip) { eth = hwaddr; dev = dev } in
        freed_on_error e (add_entry w e st))
    else (st, [], negsuc 0)

-- pico_arp_request with PICO_ARP_QUERY
abbrev pub query_from : Stack → ℕ → ℕ → Option ℕ → List Event
query_from w dev dst none = []
query_from w dev dst (some l) = requested dev (w.link_address l) dst ∷ []

unfoldable pub arp_request : Stack → ℕ → ℕ → List Event
arp_request w dev dst = if w.allocs then query_from w dev dst (source_find w.routing dst).0 else []

-- arp_expire of the entry with an address, if it is still there.
abbrev pub expire_found : Stack → Resolver → Option Arp → Resolver × List Event
expire_found w st none = (st, [])
expire_found w st (some a) =
    if leb (a.timestamp + arp_timeout) w.time
    then (write_entry a.ipv4 (λ e. record e { arp_status = stale }) st, arp_request w a.dev a.ipv4)
    else if w.timer_starts
    then (st, expires (arp_timeout + a.timestamp - w.time) a.ipv4 ∷ [])
    else let (t, lc, gone) = delete arp_compare st.leaf_color a st.arp_tree in
      (record st { arp_tree = t; leaf_color = lc }, freed a ∷ [])

unfoldable pub arp_expire : Stack → ℕ → Resolver → Resolver × List Event
unfolding map_tree arp_request
arp_expire w ip st = expire_found w st (find_arp st ip)

-- pico_arp_check_conflict
abbrev pub check_conflict : Option (ℕ × ℕ) → ArpFrame → List Event
check_conflict none h = []
check_conflict (some (ip, mac)) h =
    (if ip == h.src && not (h.s_mac == mac) then conflict ∷ [] else [])
    ++ (if h.src == 0 && h.dst == ip then probe ∷ [] else [])

-- pico_arp_lookup_entry: what is there already, renewed or updated.
abbrev pub stale_again : Arp → Resolver × List Event × ℤ → Resolver × List Event × Bool
stale_again a (st, es, pos n) = (st, es, true)
stale_again a (st, es, negsuc n) = (st, es ++ freed a ∷ [], false)

abbrev pub entry_found : Stack → ArpFrame → Resolver → Option Arp → Resolver × List Event × Bool
entry_found w h st none = (st, [], false)
entry_found w h st (some a) = elim a.arp_status [
  | stale ↦
      let (t, lc, gone) = delete arp_compare st.leaf_color a st.arp_tree in
      stale_again a (add_entry w a (record st { arp_tree = t; leaf_color = lc }))
  | _ ↦ (write_entry a.ipv4 (λ e. record e { eth = h.s_mac; timestamp = w.time }) st, [], true)
]

unfoldable pub lookup_entry : Stack → ArpFrame → Resolver → Resolver × List Event × Bool
unfolding add_entry map_tree
lookup_entry w h st = entry_found w h st (find_arp st h.src)

-- pico_arp_check_incoming_hdr and pico_arp_check_incoming_hdr_type, with the constants as a
-- little-endian machine reads them.
abbrev pub incoming_hdr : ArpFrame → Bool
incoming_hdr h = h.htype == 256 && h.ptype == 8 && bit_and (h.s_mac) 1 == 0

abbrev pub is_request : ArpFrame → Bool
is_request h = h.opcode == 256

-- pico_arp_check_flooding: `none` is -1.
abbrev pub check_flooding : Stack → ArpFrame → Resolver → Option Resolver
check_flooding w h st =
    if not (w.link_find h.dst == h.dev)
    then none
    else if not (is_request h)
    then some st
    else if st.max_arp_reqs == 0
    then none
    else some (record st { max_arp_reqs = st.max_arp_reqs - 1 })

-- pico_arp_reply_on_request
abbrev pub reply : ArpFrame → List Event
reply h = if is_request h then replied h h.dst ∷ [] else []

-- pico_arp_process_in behind the checks.
abbrev pub created : ArpFrame → Resolver × List Event × ℤ → Resolver × List Event × ℤ
created h (st, es, pos n) = (st, es ++ reply h, pos 0)
created h (st, es, negsuc n) = (st, es, negsuc 0)

abbrev pub process_checked :
    Stack → ArpFrame → Bool → Option Resolver → Resolver → Resolver × List Event × ℤ
process_checked w h found none old = (old, [], negsuc 0)
process_checked w h true (some st) old = (st, reply h, pos 0)
process_checked w h false (some st) old = created h (create_entry w h.s_mac h.src h.dev st)

unfoldable pub process_in : Stack → ArpFrame → Resolver → Bool → Resolver × List Event × ℤ
unfolding create_entry
process_in w h st found =
    if incoming_hdr h
    then process_checked w h found (check_flooding w h st) st
    else (st, [], negsuc 0)

abbrev pub behind_lookup :
    Stack → ArpFrame → List Event → Resolver × List Event × Bool → Resolver × List Event × ℤ
behind_lookup w h es (st, es', found) =
    let (st', es'', r) = process_in w h st found in (st', es ++ (es' ++ es''), r)

-- pico_arp_receive
unfoldable pub arp_receive : Stack → ArpFrame → Resolver → Resolver × List Event × ℤ
unfolding lookup_entry process_in
arp_receive w h st = behind_lookup w h (check_conflict st.conflict_ipv4 h) (lookup_entry w h st)
