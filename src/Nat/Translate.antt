-- ===== src/Nat/Translate.antt =====
-- The translation of modules/pico_nat.c there and back: what leaves through pico_ipv4_nat_outbound
-- is answered to the host that sent it.
use picotcp.Base.{
  ℕ, ◌≡◌, ◌⊎◌, refl, sym, ap, ◌∙◌, subst, true, false, ◌||◌, Option, none, some, arith,
  if◌then◌else◌,
}
use picotcp.Tree.{keys}
use picotcp.Tree.Members.{In}
use picotcp.Nat.{Session, write, NatTuple, Nat, Memory, find_tuple, set_session}
use picotcp.Nat.Frames.{
  Datagram, Checksums, Ports, is_tcp, is_udp, is_port_free, generate_tuple, outwards, Direction,
  set_tcp_flags, sniff_session, is_enabled, Verdict, translated, fault, rewrite_in, rewrite_out,
  inbound_with, nat_inbound, outbound_with, found_or_generated, nat_outbound,
}
use picotcp.Nat.Table.{IsValid}
use picotcp.Nat.Outbound.{
  Sender, Chosen, find_tuple_back, found_or_generated-Chosen, find_tuple_host, generate_tuple-none,
}

-- Whatever the frame, only the sessions change.
pub sniff_session_lem :
    (P : Nat → Type 0) (st : Nat) (t : NatTuple) (f : Datagram) (d : Direction)
    → ((s : ℕ → Session) → P (record st { sessions = s }))
    → P (sniff_session st t f d)
unfolding sniff_session
sniff_session_lem P st t f d h =
    let s = st.sessions t.ptr in
    elim (is_tcp f.proto)
      as (λ b. P (
        if b
        then set_session st t (set_tcp_flags s f.tcp_flags d)
        else if is_udp f.proto
        then set_session st t (record s { conn_active = 1 })
        else st)) [
          | true ↦ h (write st.sessions t.ptr (set_tcp_flags s f.tcp_flags d))
          | false ↦
              elim (is_udp f.proto)
                as (λ b. P (if b then set_session st t (record s { conn_active = 1 }) else st)) [
                  | true ↦ h (write st.sessions t.ptr (record s { conn_active = 1 }))
                  | false ↦ h st.sessions
                ]
        ]

inbound_with_lem :
    (cs : Checksums) (st : Nat) (g : Datagram) (o : Option NatTuple) (t : NatTuple)
    → o ≡ some t
    → let (st', g', told) = inbound_with cs st g o in
      (told ≡ translated) × (g'.dst ≡ t.src_addr) × (g'.dport ≡ t.src_port)
unfolding rewrite_in
inbound_with_lem cs st g none t h = cc
inbound_with_lem cs st g (some u) t h = ground arith

-- pico_ipv4_nat_inbound gives a frame for the NAT port of a tuple of the table to the tuple's
-- sender.
inbound_to_sender :
    (cs : Checksums) (st : Nat) (t : NatTuple) (g : Datagram) (link_addr : ℕ)
    → IsValid st
    → In t (keys st.inbound)
    → is_enabled st link_addr ≡ true
    → (is_tcp g.proto || is_udp g.proto) ≡ true
    → g.proto ≡ t.proto
    → g.dport ≡ t.nat_port
    → let (st', g', told) = nat_inbound cs st g link_addr in
      (told ≡ translated) × (g'.dst ≡ t.src_addr) × (g'.dport ≡ t.src_port)
unfolding nat_inbound
inbound_to_sender cs st t g link_addr v m e p q r =
    let found : find_tuple st g.dport none 0 g.proto ≡ some t =
      subst (λ n. find_tuple st n none 0 g.proto ≡ some t) (sym r)
        (subst (λ n. find_tuple st t.nat_port none 0 n ≡ some t) (sym q)
          (find_tuple_back st t v m)) in
    ground (arith, inbound_with_lem cs st g (find_tuple st g.dport none 0 g.proto) t found)

is_enabled_link :
    (a b : Nat) (link_addr : ℕ)
    → b.nat_link ≡ a.nat_link
    → is_enabled a link_addr ≡ true
    → is_enabled b link_addr ≡ true
unfolding is_enabled
is_enabled_link a b link_addr e h = ground (arith, e)

module _ (cs : Checksums) (f g : Datagram) (link_addr : ℕ) (q : g.proto ≡ f.proto) where
  -- The answer to a frame that has been translated.
  abbrev Answered : Nat × Datagram × Verdict → Type 0
  Answered (st', f', told) =
      told ≡ translated
      → g.dport ≡ f'.sport
      → let (st'', g', answer) = nat_inbound cs st' g link_addr in
        (answer ≡ translated) × (g'.dst ≡ f.src) × (g'.dport ≡ f.sport)

  to_sender :
      (st : Nat) (t : NatTuple)
      → IsValid st
      → In t (keys st.inbound)
      → Sender t f
      → is_enabled st link_addr ≡ true
      → (is_tcp f.proto || is_udp f.proto) ≡ true
      → g.dport ≡ t.nat_port
      → let (st'', g', answer) = nat_inbound cs st g link_addr in
        (answer ≡ translated) × (g'.dst ≡ f.src) × (g'.dport ≡ f.sport)
  to_sender st t v m (a, b, c) e p d =
      let p' = subst (λ n. (is_tcp n || is_udp n) ≡ true) (sym q) p in
      let (x, y, z) = inbound_to_sender cs st t g link_addr v m e p' (q ∙ sym c) d in
      (x, y ∙ a, z ∙ b)

  outbound_with-Answered :
      (st : Nat) (r : Nat × Option NatTuple)
      → Chosen st f r
      → is_enabled st link_addr ≡ true
      → (is_tcp f.proto || is_udp f.proto) ≡ true
      → Answered (outbound_with cs f r)
  unfolding rewrite_out
  outbound_with-Answered st (st', none) c e p told d = cc
  outbound_with-Answered st (st', some t) (v, l, c) e p told d =
      sniff_session_lem
        (λ st2.
          let (st'', g', answer) = nat_inbound cs st2 g link_addr in
          (answer ≡ translated) × (g'.dst ≡ f.src) × (g'.dport ≡ f.sport))
        st' t f outwards
        (λ s.
          to_sender (record st' { sessions = s }) t v (c t refl).0 (c t refl).1
            (is_enabled_link st (record st' { sessions = s }) link_addr l e) p d)

module _ (cs : Checksums) (m : Memory) (ports : Ports) (st : Nat) (f : Datagram)
    (link_addr : ℕ) where
  nat_outbound-is_enabled :
      (nat_outbound cs m ports st f link_addr).2 ≡ translated → is_enabled st link_addr ≡ true
  unfolding nat_outbound
  nat_outbound-is_enabled h = ground arith

  nat_outbound_open :
      is_enabled st link_addr ≡ true
      → (is_tcp f.proto || is_udp f.proto) ≡ true
      → nat_outbound cs m ports st f link_addr
        ≡ outbound_with cs f
            (found_or_generated cs m ports st f (find_tuple st 0 (some f.src) f.sport f.proto))
  unfolding nat_outbound
  nat_outbound_open e p = ground arith

-- There and back, from a valid table: if pico_ipv4_nat_outbound has translated a frame of TCP or
-- UDP, then pico_ipv4_nat_inbound takes a frame of the same protocol to the port that the first one
-- got, and gives it the address and the port that the first one came from.
pub outbound_then_inbound :
    (cs : Checksums) (m : Memory) (ports : Ports) (st : Nat) (f g : Datagram) (link_addr : ℕ)
    → IsValid st
    → (is_tcp f.proto || is_udp f.proto) ≡ true
    → (nat_outbound cs m ports st f link_addr).2 ≡ translated
    → g.proto ≡ f.proto
    → g.dport ≡ (nat_outbound cs m ports st f link_addr).1.sport
    → let (st', f', told) = nat_outbound cs m ports st f link_addr in
      let (st'', g', answer) = nat_inbound cs st' g link_addr in
      (answer ≡ translated) × (g'.dst ≡ f.src) × (g'.dport ≡ f.sport)
outbound_then_inbound cs m ports st f g link_addr v p h q d =
    let e = nat_outbound-is_enabled cs m ports st f link_addr h in
    let o = find_tuple st 0 (some f.src) f.sport f.proto in
    subst (Answered cs f g link_addr q) (sym (nat_outbound_open cs m ports st f link_addr e p))
      (outbound_with-Answered cs f g link_addr q st (found_or_generated cs m ports st f o)
        (found_or_generated-Chosen cs m ports st f o v refl) e p)
      h d

-- While the translation is enabled, a sender of TCP or UDP that has a tuple in a valid table keeps
-- its address and port: the frame leaves with those of the tuple, and the table stays valid.
pub known_host_kept :
    (cs : Checksums) (m : Memory) (ports : Ports) (st : Nat) (t : NatTuple) (f : Datagram)
    (link_addr : ℕ)
    → IsValid st
    → In t (keys st.inbound)
    → Sender t f
    → is_enabled st link_addr ≡ true
    → (is_tcp f.proto || is_udp f.proto) ≡ true
    → let (st', f', told) = nat_outbound cs m ports st f link_addr in
      (told ≡ translated) × (f'.src ≡ t.nat_addr) × (f'.sport ≡ t.nat_port) × IsValid st'
unfolding rewrite_out
known_host_kept cs m ports st t f link_addr v i s e p =
    let o = find_tuple st 0 (some f.src) f.sport f.proto in
    let found : o ≡ some t = find_tuple_host st f t v i s in
    subst
      (λ (r : Nat × Datagram × Verdict).
        (r.2 ≡ translated) × (r.1.src ≡ t.nat_addr) × (r.1.sport ≡ t.nat_port) × IsValid r.0)
      (sym (
        nat_outbound_open cs m ports st f link_addr e p
        ∙ ap (λ o. outbound_with cs f (found_or_generated cs m ports st f o)) found))
      (refl, refl, refl, sniff_session_lem IsValid st t f outwards (λ w. v))

outbound_with-fault :
    (cs : Checksums) (f : Datagram) (r : Nat × Option NatTuple)
    → r.1 ≡ none
    → (outbound_with cs f r).2 ≡ fault
outbound_with-fault cs f (st, none) h = refl
outbound_with-fault cs f (st, some t) h = cc

-- While the translation is enabled, pico_ipv4_nat_outbound dereferences NULL for a new sender of
-- TCP or UDP if there is no memory for its tuple, or if all ports are in use.
pub outbound_faults :
    (cs : Checksums) (m : Memory) (ports : Ports) (st : Nat) (f : Datagram) (link_addr : ℕ)
    → is_enabled st link_addr ≡ true
    → (is_tcp f.proto || is_udp f.proto) ≡ true
    → find_tuple st 0 (some f.src) f.sport f.proto ≡ none
    → (m.tuple ≡ none) ⊎ ((n : ℕ) → is_port_free ports st f.proto n ≡ false)
    → (nat_outbound cs m ports st f link_addr).2 ≡ fault
outbound_faults cs m ports st f link_addr e p n h =
    subst (λ (r : Nat × Datagram × Verdict). r.2 ≡ fault)
      (sym (
        nat_outbound_open cs m ports st f link_addr e p
        ∙ ap (λ o. outbound_with cs f (found_or_generated cs m ports st f o)) n))
      (outbound_with-fault cs f (generate_tuple m ports st f) (generate_tuple-none m ports st f h))
