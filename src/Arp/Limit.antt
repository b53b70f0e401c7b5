-- ===== src/Arp/Limit.antt =====
-- How many requests pico_arp_receive of modules/pico_arp.c answers.
use picotcp.Base.{
  ◌+◌, ◌≤◌, ◌-◌, ℕ, ◌≡◌, refl, ◌∙◌, Bool, true, false, not, ◌&&◌, Option, none, some, List, [], ◌∷◌,
  ◌++◌, arith, if◌then◌else◌, if_cases, ◌==◌, ℤ, pos, negsuc,
}
use picotcp.Tree.{Color, Tree, Inserted, done, exists, no_memory}
use picotcp.Arp.{
  Datagram, sent, discarded, unreachable, requested, replied, conflict, probe, expires, freed,
  trigger, trigger_all, reply, Status, reachable, permanent, stale, Arp, ArpFrame, Stack, Event,
  Resolver, search_for, find_arp, timed, entry_told, renewed, add_entry, create_entry,
  freed_on_error, entry_found, stale_again, lookup_entry, incoming_hdr, process_checked, created,
  process_in, behind_lookup, arp_receive, check_conflict, is_request,
}

-- The replies among the events.
abbrev pub replies : List Event → ℕ
replies [] = 0
replies (replied h ip ∷ es) = 1 + replies es
replies (sent f ∷ es) = replies es
replies (discarded f ∷ es) = replies es
replies (unreachable f ∷ es) = replies es
replies (requested d s a ∷ es) = replies es
replies (conflict ∷ es) = replies es
replies (probe ∷ es) = replies es
replies (expires t a ∷ es) = replies es
replies (freed a ∷ es) = replies es

replies-append : (es es' : List Event) → replies (es ++ es') ≡ replies es + replies es'
replies-append [] es' = omega arith
replies-append (replied h ip ∷ es) es' = omega (arith, replies-append es es')
replies-append (sent f ∷ es) es' = replies-append es es'
replies-append (discarded f ∷ es) es' = replies-append es es'
replies-append (unreachable f ∷ es) es' = replies-append es es'
replies-append (requested d s a ∷ es) es' = replies-append es es'
replies-append (conflict ∷ es) es' = replies-append es es'
replies-append (probe ∷ es) es' = replies-append es es'
replies-append (expires t a ∷ es) es' = replies-append es es'
replies-append (freed a ∷ es) es' = replies-append es es'

replies-trigger : (w : Stack) (q : Option Datagram) → replies (trigger w q) ≡ 0
replies-trigger w none = refl
replies-trigger w (some f) = if_cases (λ es. replies es ≡ 0) (w.sends f) _ _ (λ e. refl) (λ e. refl)

replies-trigger_all : (w : Stack) (qs : List (Option Datagram)) → replies (trigger_all w qs) ≡ 0
replies-trigger_all w [] = refl
replies-trigger_all w (q ∷ qs) =
    replies-append (trigger w q) (trigger_all w qs)
    ∙ rw (replies-trigger w q, replies-trigger_all w qs) (omega arith)

-- Nothing is answered, and the limit stays.
abbrev Quiet {ℓ} : {R : Type ℓ} → ℕ → Resolver × List Event × R → Type 0
Quiet n (st, es, r) = (st.max_arp_reqs ≡ n) × (replies es ≡ 0)

timed-Quiet : (w : Stack) (e : Arp) (st : Resolver) → Quiet st.max_arp_reqs (timed w e st)
timed-Quiet w e st =
    if_cases (Quiet st.max_arp_reqs) w.timer_starts _ _
      (λ t. (
        refl,
        replies-append (trigger_all w st.frames_queued) _
            ∙ rw (replies-trigger_all w st.frames_queued) (omega arith),
      ))
      (λ t. (refl, replies-trigger_all w st.frames_queued))

entry_told-Quiet :
    (w : Stack) (e : Arp) (st : Resolver) (r : Tree Arp × Color × Inserted Arp)
    → Quiet st.max_arp_reqs (entry_told w e st r)
entry_told-Quiet w e st (t, lc, done) =
    timed-Quiet w e (record st { arp_tree = t; leaf_color = lc })
entry_told-Quiet w e st (t, lc, exists a) = (refl, refl)
entry_told-Quiet w e st (t, lc, no_memory) = (refl, refl)

add_entry-Quiet : (w : Stack) (e : Arp) (st : Resolver) → Quiet st.max_arp_reqs (add_entry w e st)
unfolding add_entry
add_entry-Quiet w e st = entry_told-Quiet w (renewed w e) st _

freed_on_error-Quiet :
    (e : Arp) (n : ℕ) (r : Resolver × List Event × ℤ) → Quiet n r → Quiet n (freed_on_error e r)
freed_on_error-Quiet e n (st, es, pos k) q = q
freed_on_error-Quiet e n (st, es, negsuc k) q =
    (q.0, replies-append es (freed e ∷ []) ∙ rw q.1 (omega arith))

stale_again-Quiet :
    (a : Arp) (n : ℕ) (r : Resolver × List Event × ℤ) → Quiet n r → Quiet n (stale_again a r)
stale_again-Quiet a n (st, es, pos k) q = q
stale_again-Quiet a n (st, es, negsuc k) q =
    (q.0, replies-append es (freed a ∷ []) ∙ rw q.1 (omega arith))

stale_cases {ℓ m} :
    {X : Type ℓ} (P : X → Type m) (s : Status) (u v : X)
    → P u
    → P v
    → P (elim s as (λ x. X) [ stale ↦ v | _ ↦ u ])
stale_cases P reachable u v p q = p
stale_cases P permanent u v p q = p
stale_cases P stale u v p q = q

entry_found-Quiet :
    (w : Stack) (h : ArpFrame) (st : Resolver) (o : Option Arp)
    → Quiet st.max_arp_reqs (entry_found w h st o)
entry_found-Quiet w h st none = (refl, refl)
entry_found-Quiet w h st (some a) =
    stale_cases (Quiet st.max_arp_reqs) a.arp_status _ _ (refl, refl)
      (stale_again-Quiet a st.max_arp_reqs _ (add_entry-Quiet w a _))

create_entry-Quiet :
    (w : Stack) (mac ip d : ℕ) (st : Resolver) → Quiet st.max_arp_reqs (create_entry w mac ip d st)
unfolding create_entry
create_entry-Quiet w mac ip d st =
    if_cases (Quiet st.max_arp_reqs) w.allocs _ _
      (λ e. freed_on_error-Quiet new st.max_arp_reqs _ (add_entry-Quiet w new st))
      (λ e. (refl, refl))
  where
    new : Arp
    new = record (search_for ip) { eth = mac; dev = d }

-- The limit that is left covers what is answered.
abbrev Covered : ℕ → Resolver × List Event × ℤ → Type 0
Covered n (st, es, r) = replies es + st.max_arp_reqs ≤ n

created-Covered :
    (h : ArpFrame) (n k : ℕ) (r : Resolver × List Event × ℤ)
    → Quiet k r
    → replies (reply h) + k ≤ n
    → Covered n (created h r)
created-Covered h n k (st, es, pos x) q c = omega (arith, replies-append es (reply h), q.0, q.1, c)
created-Covered h n k (st, es, negsuc x) q c = omega (arith, q.0, q.1, c)

allowed-Covered :
    (w : Stack) (h : ArpFrame) (found : Bool) (st st' : Resolver)
    → replies (reply h) + st'.max_arp_reqs ≤ st.max_arp_reqs
    → Covered st.max_arp_reqs (process_checked w h found (some st') st)
allowed-Covered w h true st st' c = c
allowed-Covered w h false st st' c =
    created-Covered h st.max_arp_reqs st'.max_arp_reqs (create_entry w h.s_mac h.src h.dev st')
      (create_entry-Quiet w h.s_mac h.src h.dev st') c

refused-Covered :
    (w : Stack) (h : ArpFrame) (found : Bool) (st : Resolver)
    → Covered st.max_arp_reqs (process_checked w h found none st)
refused-Covered w h found st = omega arith

process_in-Covered :
    (w : Stack) (h : ArpFrame) (st : Resolver) (found : Bool)
    → Covered st.max_arp_reqs (process_in w h st found)
unfolding process_in
process_in-Covered w h st found =
    if_cases (Covered st.max_arp_reqs) (incoming_hdr h) _ _
      (λ _.
        if_cases Allows (not (w.link_find h.dst == h.dev)) _ _ (λ _. refused-Covered w h found st)
          (λ _.
            if_cases Allows (not (is_request h)) _ _
              (λ e. allowed-Covered w h found st st (ground (arith, e)))
              (λ _.
                if_cases Allows (st.max_arp_reqs == 0) _ _ (λ _. refused-Covered w h found st)
                  (λ e.
                    allowed-Covered w h found st (record st { max_arp_reqs = st.max_arp_reqs - 1 })
                      (ground (arith, e))))))
      (λ _. omega arith)
  where
    Allows : Option Resolver → Type 0
    Allows o = Covered st.max_arp_reqs (process_checked w h found o st)

replies-check_conflict : (o : Option (ℕ × ℕ)) (h : ArpFrame) → replies (check_conflict o h) ≡ 0
replies-check_conflict none h = refl
replies-check_conflict (some (ip, mac)) h =
    replies-append (if ip == h.src && not (h.s_mac == mac) then conflict ∷ [] else []) _
    ∙ rw
        (
          if_cases (λ es. replies es ≡ 0) (ip == h.src && not (h.s_mac == mac)) (conflict ∷ []) []
              (λ e. refl) (λ e. refl),
          if_cases (λ es. replies es ≡ 0) (h.src == 0 && h.dst == ip) (probe ∷ []) [] (λ e. refl)
              (λ e. refl),
        )
        (omega arith)

behind_lookup-Covered :
    (w : Stack) (h : ArpFrame) (n : ℕ) (es : List Event) (r : Resolver × List Event × Bool)
    → replies es ≡ 0
    → Quiet n r
    → Covered n (behind_lookup w h es r)
behind_lookup-Covered w h n es (st, es', found) e q =
    let p = process_in w h st found in
    omega (
      arith,
      process_in-Covered w h st found,
      replies-append es (es' ++ p.1),
      replies-append es' p.1,
      e,
      q.0,
      q.1,
    )

-- A received packet is answered at most once, and then takes one from the limit.
arp_receive-Covered :
    (w : Stack) (h : ArpFrame) (st : Resolver) → Covered st.max_arp_reqs (arp_receive w h st)
unfolding arp_receive lookup_entry
arp_receive-Covered w h st =
    behind_lookup-Covered w h st.max_arp_reqs (check_conflict st.conflict_ipv4 h)
      (lookup_entry w h st) (replies-check_conflict st.conflict_ipv4 h)
      (entry_found-Quiet w h st (find_arp st h.src))

-- Packets that arrive one after the other.
abbrev pub receive_all : Stack → Resolver → List ArpFrame → Resolver × List Event
receive_all w st [] = (st, [])
receive_all w st (h ∷ hs) =
    let (st', es, r) = arp_receive w h st in
    let (st'', es') = receive_all w st' hs in (st'', es ++ es')

-- Between two runs of update_max_arp_reqs at most as many requests are answered as the limit
-- allows, whatever arrives, and what is left of the limit is smaller by at least their number.
pub replies_limited :
    (w : Stack) (hs : List ArpFrame) (st : Resolver)
    → let (st', es) = receive_all w st hs in replies es + st'.max_arp_reqs ≤ st.max_arp_reqs
replies_limited w [] st = omega arith
replies_limited w (h ∷ hs) st =
    let (st', es, r) = arp_receive w h st in
    let (st'', es') = receive_all w st' hs in
    omega (arith, arp_receive-Covered w h st, replies_limited w hs st', replies-append es es')
