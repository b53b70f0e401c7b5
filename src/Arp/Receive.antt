-- ===== src/Arp/Receive.antt =====
-- What pico_arp_receive of modules/pico_arp.c does to the entry of the sender.
use picotcp.Base.{
  ℕ, ◌≡◌, ◌≢◌, inl, inr, refl, sym, ap, ◌∙◌, subst, Bool, true, false, not, Option, none, some,
  List, [], if_cases, ◌==◌, ℤ, pos, negsuc, Option-cases,
}
use picotcp.Tree.{Tree, keys, find_key}
use picotcp.Tree.Order.{Sorted}
use picotcp.Tree.Members.{delete-In, find_key-found}
use picotcp.Tree.Delete.{delete}
use picotcp.Tree.Delete.Refine.{delete-Sorted}
use picotcp.Arp.{
  Status, reachable, permanent, stale, Arp, arp_compare, ArpFrame, Stack, Event, Resolver,
  search_for, find_arp, eth_of, arp_lookup, write_entry, renewed, add_entry, create_entry,
  freed_on_error, entry_found, stale_again, lookup_entry, incoming_hdr, check_flooding,
  process_checked, created, process_in, behind_lookup, arp_receive, check_conflict, is_request,
}
use picotcp.Arp.Table.{InOrder, arp_compare-IsOrder, add_entry-find, write-lookup, find_arp-ipv4}

-- The steps behind the lookup leave the table as it is when an entry was there.
process_in-found :
    (w : Stack) (h : ArpFrame) (st : Resolver) → (process_in w h st true).0.arp_tree ≡ st.arp_tree
unfolding process_in
process_in-found w h st =
    if_cases (λ (r : Resolver × List Event × ℤ). r.0.arp_tree ≡ st.arp_tree) (incoming_hdr h) _ _
      (λ e. checked) (λ e. refl)
  where
    Keeps : Option Resolver → Type 0
    Keeps o = (process_checked w h true o st).0.arp_tree ≡ st.arp_tree

    checked : (process_checked w h true (check_flooding w h st) st).0.arp_tree ≡ st.arp_tree
    checked =
        if_cases Keeps (not (w.link_find h.dst == h.dev)) _ _ (λ e. refl)
          (λ e.
            if_cases Keeps (not (is_request h)) _ _ (λ e. refl)
              (λ e. if_cases Keeps (st.max_arp_reqs == 0) _ _ (λ e. refl) (λ e. refl)))

not_stale {ℓ} :
    {X : Type ℓ} (s : Status) (u v : X) → s ≢ stale → elim s as (λ x. X) [ stale ↦ v | _ ↦ u ] ≡ u
not_stale reachable u v n = refl
not_stale permanent u v n = refl
not_stale stale u v n = absurd (n refl)

is_stale {ℓ} :
    {X : Type ℓ} (s : Status) (u v : X) → s ≡ stale → elim s as (λ x. X) [ stale ↦ v | _ ↦ u ] ≡ v
is_stale reachable u v e = cc
is_stale permanent u v e = cc
is_stale stale u v e = refl

abbrev deleted : Arp → Resolver → Resolver
deleted a st =
    let (t, lc, gone) = delete arp_compare st.leaf_color a st.arp_tree in
    record st { arp_tree = t; leaf_color = lc }

found_then-lookup :
    (w : Stack) (h : ArpFrame) (st : Resolver) (a : Arp) (m : ℕ)
    → find_arp st h.src ≡ some a
    → eth_of (some a) ≡ some m
    → arp_lookup (process_in w h st true).0 h.src ≡ some m
unfolding arp_lookup
found_then-lookup w h st a m f e =
    ap (λ t. eth_of (find_key arp_compare (search_for h.src) t)) (process_in-found w h st)
    ∙ (ap eth_of f ∙ e)

updated : Stack → ArpFrame → Arp → Arp
updated w h e = record e { eth = h.s_mac; timestamp = w.time }

entry_found-update :
    (w : Stack) (h : ArpFrame) (st : Resolver) (a : Arp)
    → a.arp_status ≢ stale
    → entry_found w h st (some a) ≡ (write_entry a.ipv4 (updated w h) st, [], true)
unfolding updated
entry_found-update w h st a n =
    not_stale a.arp_status (write_entry a.ipv4 (updated w h) st, [], true)
      (stale_again a (add_entry w a (deleted a st))) n

eth_of-updated :
    (w : Stack) (h : ArpFrame) (a : Arp)
    → a.arp_status ≢ stale
    → eth_of (some (updated w h a)) ≡ some h.s_mac
unfolding updated
eth_of-updated w h a n = not_stale a.arp_status (some h.s_mac) none n

process_in-refused :
    (w : Stack) (h : ArpFrame) (st : Resolver) (found : Bool)
    → incoming_hdr h ≡ false
    → (process_in w h st found).2 ≡ negsuc 0
unfolding process_in
process_in-refused w h st found e = rw e refl

-- An entry that is not stale takes the MAC address of the packet, whatever the checks of the packet
-- say: also if it is not for this host, if its types are wrong, or if the source is a multicast
-- address, for which pico_arp_receive answers -1.
pub unchecked_update :
    (w : Stack) (h : ArpFrame) (st : Resolver) (a : Arp)
    → InOrder st
    → find_arp st h.src ≡ some a
    → a.arp_status ≢ stale
    → (arp_lookup (arp_receive w h st).0 h.src ≡ some h.s_mac)
      × (incoming_hdr h ≡ false → (arp_receive w h st).2 ≡ negsuc 0)
unfolding arp_receive arp_lookup lookup_entry process_in
unchecked_update w h st a s f n =
    let es = check_conflict st.conflict_ipv4 h in
    let k = find_arp-ipv4 st h.src a s f in
    let st' = write_entry a.ipv4 (updated w h) st in
    let found : find_arp st' h.src ≡ some (updated w h a) =
      subst (λ ip. find_arp (write_entry ip (updated w h) st) h.src ≡ some (updated w h a)) (sym k)
        (write-lookup st h.src (updated w h) a s (λ x. unfold updated in refl) f) in
    subst
      (λ r.
        (arp_lookup (behind_lookup w h es r).0 h.src ≡ some h.s_mac)
        × (incoming_hdr h ≡ false → (behind_lookup w h es r).2 ≡ negsuc 0))
      (sym (ap (entry_found w h st) f ∙ entry_found-update w h st a n))
      (
        found_then-lookup w h st' (updated w h a) h.s_mac found (eth_of-updated w h a n),
        λ e. process_in-refused w h st' true e,
      )

find_arp-deleted : (a : Arp) (st : Resolver) → InOrder st → find_arp (deleted a st) a.ipv4 ≡ none
find_arp-deleted a st s = elim (Option-cases (find_arp (deleted a st) a.ipv4)) [
  | inl e ↦ e
  | inr (z, e) ↦
      let s' = delete-Sorted arp_compare arp_compare-IsOrder a st.leaf_color st.arp_tree s in
      let (i, q) =
        find_key-found arp_compare arp_compare-IsOrder (search_for a.ipv4) (deleted a st).arp_tree z
          s' e in
      absurd (((delete-In arp_compare arp_compare-IsOrder a st.leaf_color st.arp_tree z s).0 i).1 q)
]

stale_again-pos :
    (a : Arp) (r : Resolver × List Event × ℤ) → r.2 ≡ pos 0 → stale_again a r ≡ (r.0, r.1, true)
stale_again-pos a (st, es, pos n) e = refl
stale_again-pos a (st, es, negsuc n) e = cc

-- A stale entry is renewed with the MAC address that it had, also if the packet has another one:
-- the lookup gives the old address, with memory and a timer at hand.
pub stale_keeps_mac :
    (w : Stack) (h : ArpFrame) (st : Resolver) (a : Arp)
    → InOrder st
    → find_arp st h.src ≡ some a
    → a.arp_status ≡ stale
    → w.node_alloc ≡ true
    → w.timer_starts ≡ true
    → arp_lookup (arp_receive w h st).0 h.src ≡ some a.eth
unfolding arp_receive arp_lookup lookup_entry updated
stale_keeps_mac w h st a s f e m t =
    let es = check_conflict st.conflict_ipv4 h in
    let k = find_arp-ipv4 st h.src a s f in
    let added = add_entry w a (deleted a st) in
    let (q, r) =
      add_entry-find w a (deleted a st) m t
        (delete-Sorted arp_compare arp_compare-IsOrder a st.leaf_color st.arp_tree s)
        (find_arp-deleted a st s) in
    subst (λ r. arp_lookup (behind_lookup w h es r).0 h.src ≡ some a.eth)
      (sym (
        ap (entry_found w h st) f
        ∙ (is_stale a.arp_status (write_entry a.ipv4 (updated w h) st, [], true)
              (stale_again a added) e
            ∙ stale_again-pos a added r)))
      (found_then-lookup w h added.0 (renewed w a) a.eth
        (subst (λ ip. find_arp added.0 ip ≡ some (renewed w a)) k q) refl)

check_flooding-keeps :
    (w : Stack) (h : ArpFrame) (st st' : Resolver)
    → check_flooding w h st ≡ some st'
    → st'.arp_tree ≡ st.arp_tree
check_flooding-keeps w h st st' =
    if_cases Keeps (not (w.link_find h.dst == h.dev)) _ _ (λ _ e. cc)
      (λ _.
        if_cases Keeps (not (is_request h)) _ _ (λ _ e. cc)
          (λ _. if_cases Keeps (st.max_arp_reqs == 0) _ _ (λ _ e. cc) (λ _ e. sym (ap tree_of e))))
  where
    tree_of : Option Resolver → Tree Arp
    tree_of none = st.arp_tree
    tree_of (some x) = x.arp_tree

    Keeps : Option Resolver → Type 0
    Keeps o = o ≡ some st' → st'.arp_tree ≡ st.arp_tree

created-pos :
    (h : ArpFrame) (e : Arp) (r : Resolver × List Event × ℤ)
    → r.2 ≡ pos 0
    → ((created h (freed_on_error e r)).0 ≡ r.0) × ((created h (freed_on_error e r)).2 ≡ pos 0)
created-pos h e (st, es, pos n) q = (refl, refl)
created-pos h e (st, es, negsuc n) q = cc

-- The sender of a packet that passes the checks, and that has no entry, gets one, with memory and a
-- timer at hand: the lookup gives its MAC address, and the answer is 0.
pub sender_learned :
    (w : Stack) (h : ArpFrame) (st st' : Resolver)
    → InOrder st
    → find_arp st h.src ≡ none
    → incoming_hdr h ≡ true
    → check_flooding w h st ≡ some st'
    → w.allocs ≡ true
    → w.node_alloc ≡ true
    → w.timer_starts ≡ true
    → (arp_lookup (arp_receive w h st).0 h.src ≡ some h.s_mac) × ((arp_receive w h st).2 ≡ pos 0)
unfolding arp_receive arp_lookup lookup_entry process_in create_entry
sender_learned w h st st' s f i c a m t =
    let es = check_conflict st.conflict_ipv4 h in
    let e = record (search_for h.src) { eth = h.s_mac; dev = h.dev } in
    let k = check_flooding-keeps w h st st' c in
    let (q, r) =
      add_entry-find w e st' m t (subst (λ x. Sorted arp_compare (keys x)) (sym k) s)
        (ap (find_key arp_compare (search_for h.src)) k ∙ f) in
    let (u, v) = created-pos h e (add_entry w e st') r in
    let same : process_in w h st false ≡ created h (freed_on_error e (add_entry w e st')) =
      rw i (rw c (rw a refl)) in
    subst
      (λ x.
        (arp_lookup (behind_lookup w h es x).0 h.src ≡ some h.s_mac)
        × ((behind_lookup w h es x).2 ≡ pos 0))
      (sym (ap (entry_found w h st) f))
      (subst
        (λ (x : Resolver × List Event × ℤ). (arp_lookup x.0 h.src ≡ some h.s_mac) × (x.2 ≡ pos 0))
        (sym same) (ap (λ x. arp_lookup x h.src) u ∙ ap eth_of q, v))
