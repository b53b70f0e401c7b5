-- ===== src/IpFilter/Match.antt =====
-- What the comparison of modules/pico_ipfilter.c means for a packet and a rule.
use picotcp.Base.{
  ◌≡◌, ◌≢◌, ◌↔◌, inl, inr, refl, sym, ◌∙◌, true, false, List, [], ◌∷◌, ◌++◌, Ordering, arith,
  Option-cases, bit_and,
}
use picotcp.Tree.{keys, find_key}
use picotcp.Tree.Search.{All, All-at, find_key_sound}
use picotcp.IpFilter.{
  FilterNode, IpFilter, Packet, Effect, filter_compare, packet_node, function_ptr, ipfilter,
  match_rule,
}

-- The criteria that the rule sets hold of the packet.
pub record Matches (rule pkt : FilterNode) : Type 0 where
  pub dev : rule.fdev ≢ 0 → rule.fdev ≡ pkt.fdev
  pub proto : rule.proto ≢ 0 → rule.proto ≡ pkt.proto
  pub source :
      rule.in_addr_netmask ≢ 0
      → bit_and rule.in_addr rule.in_addr_netmask ≡ bit_and pkt.in_addr rule.in_addr_netmask
  pub destination :
      rule.out_addr_netmask ≢ 0
      → bit_and rule.out_addr rule.out_addr_netmask ≡ bit_and pkt.out_addr rule.out_addr_netmask
  pub source_port : rule.in_port ≢ 0 → rule.in_port ≡ pkt.in_port
  pub destination_port : rule.out_port ≢ 0 → rule.out_port ≡ pkt.out_port

match_rule_sound :
    (rule pkt : FilterNode) → match_rule rule pkt rule ≡ Ordering.eq → Matches rule pkt
unfolding match_rule
match_rule_sound rule pkt h = ground arith

match_rule_complete :
    (rule pkt : FilterNode) → Matches rule pkt → match_rule rule pkt rule ≡ Ordering.eq
unfolding match_rule
match_rule_complete rule pkt m = ground arith

by_rule :
    (rule pkt : FilterNode)
    → rule.filter_id ≢ 0
    → pkt.filter_id ≡ 0
    → match_rule rule pkt rule ≡ filter_compare rule pkt
unfolding filter_compare
by_rule rule pkt n z = ground arith

-- Between a filter and a packet, filter_compare gives 0 exactly when every criterion that the
-- filter sets holds of the packet: device, protocol, masked addresses and ports.
pub filter_compare_eq_iff :
    (rule pkt : FilterNode)
    → rule.filter_id ≢ 0
    → pkt.filter_id ≡ 0
    → (filter_compare rule pkt ≡ Ordering.eq) ↔ Matches rule pkt
filter_compare_eq_iff rule pkt n z = (
  (λ h. match_rule_sound rule pkt (by_rule rule pkt n z ∙ h)),
  (λ m. sym (by_rule rule pkt n z) ∙ match_rule_complete rule pkt m),
)

abbrev pub HasIdentifier : FilterNode → Type 0
HasIdentifier rule = rule.filter_id ≢ 0

-- A packet that the filters act upon matches one of the filters, and what is done to it is what
-- that filter says.
pub ipfilter_sound :
    (st : IpFilter) (f : Packet) (es : List Effect)
    → All HasIdentifier (keys st.filter_tree)
    → ipfilter st f ≡ (true, es)
    → (rule : FilterNode) × (xs ys : List FilterNode) × (keys st.filter_tree ≡ xs ++ rule ∷ ys)
      × Matches rule (packet_node f)
      × (es ≡ function_ptr rule.action)
unfolding ipfilter
ipfilter_sound st f es a h =
    elim (Option-cases (find_key filter_compare (packet_node f) st.filter_tree)) [
      | inl e ↦ absurd (ground (arith, e))
      | inr (rule, e) ↦
          let (c, xs, ys, k) =
            find_key_sound filter_compare (packet_node f) st.filter_tree rule e in
          (
            rule,
            xs,
            ys,
            k,
            (filter_compare_eq_iff rule (packet_node f)
                  (All-at HasIdentifier (keys st.filter_tree) xs rule ys k a) refl).0
                c,
            ground arith,
          )
    ]

-- A packet that matches none of the filters passes, and nothing is done to it.
pub ipfilter_passes :
    (st : IpFilter) (f : Packet)
    → All HasIdentifier (keys st.filter_tree)
    → All (λ rule. ¬ Matches rule (packet_node f)) (keys st.filter_tree)
    → ipfilter st f ≡ (false, [])
unfolding ipfilter
ipfilter_passes st f a n =
    elim (Option-cases (find_key filter_compare (packet_node f) st.filter_tree)) [
      | inl e ↦ ground (arith, e)
      | inr (rule, e) ↦
          let (c, xs, ys, k) =
            find_key_sound filter_compare (packet_node f) st.filter_tree rule e in
          absurd (
            All-at (λ r. ¬ Matches r (packet_node f)) (keys st.filter_tree) xs rule ys k n
              ((filter_compare_eq_iff rule (packet_node f)
                  (All-at HasIdentifier (keys st.filter_tree) xs rule ys k a) refl).0
                c))
    ]
