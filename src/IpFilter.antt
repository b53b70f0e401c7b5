-- ===== src/IpFilter.antt =====
-- The packet filter of modules/pico_ipfilter.c.
--
-- A filter and a packet that is looked up are both a `FilterNode`; a packet has the identifier 0.
-- The static variables are the record `IpFilter`: the tree `filter_tree`, the counter `filter_id`
-- of pico_ipv4_filter_add, and the colour of LEAF that the trees share. A device pointer is a
-- number, NULL is 0. What a filter's function does to the frame is a list of `Effect`s. Numbers
-- keep the byte order that they have in memory, and `short_be` turns it over.
pub mod Match
pub mod Table
pub mod Bypass
mod Tests
use picotcp.Base.{
  ℕ, ◌+◌, ◌-◌, Bool, true, false, ◌&&◌, ◌||◌, not, Option, none, some, List, [], ◌∷◌, Ordering,
  if◌then◌else◌, ltb, ◌==◌, bit_and, u32, sub32, short_be, ℤ, pos, negsuc, ltb_ℤ,
}
use picotcp.Tree.{Color, black, Tree, leaf, Inserted, done, exists, no_memory, find_key, insert}
use picotcp.Tree.Delete.{delete}

-- enum filter_action, and `fp_function` that it indexes.
pub data Action : Type 0 where
  priority reject drop : Action

-- What is done to the frame: pico_icmp4_packet_filtered and pico_frame_discard.
pub data Effect : Type 0 where
  packet_filtered discard : Effect

pub data Err : Type 0 where
  einval enomem eexist : Err

pub record FilterNode : Type 0 where
  pub fdev : ℕ
  pub out_addr : ℕ
  pub out_addr_netmask : ℕ
  pub in_addr : ℕ
  pub in_addr_netmask : ℕ
  pub out_port : ℕ
  pub in_port : ℕ
  pub proto : ℕ
  pub prio : ℤ
  pub tos : ℕ
  pub filter_id : ℕ
  pub action : Action

pub record IpFilter : Type 0 where
  pub filter_tree : Tree FilterNode
  pub leaf_color : Color
  pub next_id : ℕ

-- ipfilter_uint32_cmp, ipfilter_uint16_cmp, ipfilter_uint8_cmp and ipfilter_ptr_cmp: only the
-- sign of the result is used.
abbrev pub uint_cmp : ℕ → ℕ → Ordering
uint_cmp a b = if ltb a b then Ordering.lt else if ltb b a then Ordering.gt else Ordering.eq

-- `if (cmp) return cmp;` and what follows.
abbrev pub or_else : Ordering → Ordering → Ordering
or_else Ordering.lt next = Ordering.lt
or_else Ordering.gt next = Ordering.gt
or_else Ordering.eq next = next

-- A criterion that is compared only where the rule sets it.
abbrev pub when_set : ℕ → Ordering → Ordering
when_set n cmp = if n == 0 then Ordering.eq else cmp

abbrev pub compare_ports : FilterNode → FilterNode → Ordering
compare_ports a b = or_else (uint_cmp a.in_port b.in_port) (uint_cmp a.out_port b.out_port)

abbrev pub compare_addresses : FilterNode → FilterNode → Ordering
compare_addresses a b =
    or_else (uint_cmp (bit_and a.in_addr a.in_addr_netmask) (bit_and b.in_addr b.in_addr_netmask))
      (uint_cmp (bit_and a.out_addr a.out_addr_netmask) (bit_and b.out_addr b.out_addr_netmask))

abbrev pub compare_proto : FilterNode → FilterNode → Ordering
compare_proto a b = uint_cmp a.proto b.proto

abbrev pub compare_address_port : FilterNode → FilterNode → Ordering
compare_address_port a b = or_else (compare_addresses a b) (compare_ports a b)

-- The criteria of a packet's search. `a` and `b` are the nodes, one of which is the rule.
module _ (a b rule : FilterNode) where
  abbrev pub match_dev : Ordering
  match_dev = when_set rule.fdev (uint_cmp a.fdev b.fdev)

  abbrev pub match_proto : Ordering
  match_proto = when_set rule.proto (compare_proto a b)

  abbrev pub match_addr_in : Ordering
  match_addr_in =
      when_set rule.in_addr_netmask
        (uint_cmp (bit_and a.in_addr rule.in_addr_netmask) (bit_and b.in_addr rule.in_addr_netmask))

  abbrev pub match_addr_out : Ordering
  match_addr_out = when_set rule.out_addr_netmask (
      uint_cmp (bit_and a.out_addr rule.out_addr_netmask)
        (bit_and b.out_addr rule.out_addr_netmask))

  abbrev pub match_port_in : Ordering
  match_port_in = when_set rule.in_port (uint_cmp a.in_port b.in_port)

  abbrev pub match_port_out : Ordering
  match_port_out = when_set rule.out_port (uint_cmp a.out_port b.out_port)

  unfoldable pub match_rule : Ordering
  match_rule =
      or_else (or_else match_dev match_proto)
        (or_else (or_else match_addr_in match_addr_out) (or_else match_port_in match_port_out))

abbrev pub find_rule : FilterNode → FilterNode → FilterNode
find_rule a b = if a.filter_id == 0 then b else a

unfoldable pub match_packet : FilterNode → FilterNode → Ordering
match_packet a b = match_rule a b (find_rule a b)

-- filter_compare. The devices that it compares are those of `a` and of `a`.
unfoldable pub filter_compare : FilterNode → FilterNode → Ordering
unfolding match_packet
filter_compare a b =
    if a.filter_id == 0 || b.filter_id == 0
    then match_packet a b
    else if a.filter_id == b.filter_id
    then Ordering.eq
    else or_else (uint_cmp a.fdev a.fdev) (or_else (compare_proto a b) (compare_address_port a b))

-- A pointer argument to an address, NULL for "any".
abbrev pub or_zero : Option ℕ → ℕ
or_zero none = 0
or_zero (some a) = a

-- The arguments of pico_ipv4_filter_add; `action_code` is the number of the action.
pub record AddArgs : Type 0 where
  pub dev : ℕ
  pub proto : ℕ
  pub out_addr : Option ℕ
  pub out_addr_netmask : Option ℕ
  pub in_addr : Option ℕ
  pub in_addr_netmask : Option ℕ
  pub out_port : ℕ
  pub in_port : ℕ
  pub prio : ℤ
  pub tos : ℕ
  pub action_code : ℕ

-- `fp_function[action]`, for the actions that the validation lets pass.
abbrev pub fp_function : ℕ → Action
fp_function n = if n == 0 then priority else if n == 1 then reject else drop

-- pico_ipv4_filter_add_validate: true for the result 0.
unfoldable pub add_validate : ℤ → ℕ → Bool
add_validate prio action =
    if ltb_ℤ (pos 10) prio || ltb_ℤ prio (negsuc 9) then false else ltb action 3

abbrev pub new_filter : AddArgs → ℕ → FilterNode
new_filter x id = record {
  fdev = x.dev;
  out_addr = or_zero x.out_addr;
  out_addr_netmask = or_zero x.out_addr_netmask;
  in_addr = or_zero x.in_addr;
  in_addr_netmask = or_zero x.in_addr_netmask;
  out_port = x.out_port;
  in_port = x.in_port;
  proto = x.proto;
  prio = x.prio;
  tos = x.tos;
  filter_id = id;
  action = fp_function x.action_code;
}

-- The end of pico_ipv4_filter_add, by the result of pico_tree_insert; `pico_err` is the option.
abbrev pub add_result :
    IpFilter → ℕ → Tree FilterNode × Color × Inserted FilterNode → IpFilter × ℕ × Option Err
add_result st id (t, lc, done) =
    (record st { filter_tree = t; leaf_color = lc; next_id = u32 (id + 1) }, id, none)
add_result st id (t, lc, exists x) = (
  record st { filter_tree = t; leaf_color = lc; next_id = sub32 (u32 (id + 1)) 1 },
  0,
  some eexist,
)
add_result st id (t, lc, no_memory) = (
  record st { filter_tree = t; leaf_color = lc; next_id = sub32 (u32 (id + 1)) 1 },
  0,
  some enomem,
)

-- pico_ipv4_filter_add: `alloc` and `alloc_node` say whether the filter and the tree's node get
-- their memory. The result is the filter's identifier, or 0.
unfoldable pub filter_add : Bool → Bool → IpFilter → AddArgs → IpFilter × ℕ × Option Err
unfolding add_validate
filter_add alloc alloc_node st x =
    if not (add_validate x.prio x.action_code)
    then (st, 0, some einval)
    else if not alloc
    then (st, 0, some enomem)
    else add_result st st.next_id
        (insert filter_compare alloc_node st.leaf_color (new_filter x st.next_id) st.filter_tree)

-- The node that is all zero but for its identifier.
abbrev pub dummy : ℕ → FilterNode
dummy id = record {
  fdev = 0;
  out_addr = 0;
  out_addr_netmask = 0;
  in_addr = 0;
  in_addr_netmask = 0;
  out_port = 0;
  in_port = 0;
  proto = 0;
  prio = pos 0;
  tos = 0;
  filter_id = id;
  action = priority;
}

abbrev pub del_result :
    IpFilter → Tree FilterNode × Color × Option FilterNode → IpFilter × Bool × Option FilterNode
del_result st (t, lc, none) = (record st { filter_tree = t; leaf_color = lc }, false, none)
del_result st (t, lc, some x) = (record st { filter_tree = t; leaf_color = lc }, true, some x)

-- pico_ipv4_filter_del: true for the result 0, with the filter that was freed.
unfoldable pub filter_del : IpFilter → ℕ → IpFilter × Bool × Option FilterNode
filter_del st id = del_result st (delete filter_compare st.leaf_color (dummy id) st.filter_tree)

-- What ipfilter reads of a frame: ports in network byte order, and the type and code of ICMP.
pub record Packet : Type 0 where
  pub dev : ℕ
  pub dst : ℕ
  pub src : ℕ
  pub proto : ℕ
  pub dport : ℕ
  pub sport : ℕ
  pub icmp_type : ℕ
  pub icmp_code : ℕ
  pub prio : ℤ
  pub tos : ℕ

abbrev pub has_ports : Packet → Bool
has_ports f = f.proto == 6 || f.proto == 17

-- `temp` of ipfilter.
unfoldable pub packet_node : Packet → FilterNode
packet_node f = record {
  fdev = f.dev;
  out_addr = f.dst;
  out_addr_netmask = 0;
  in_addr = f.src;
  in_addr_netmask = 0;
  out_port = if has_ports f then short_be f.dport else 0;
  in_port = if has_ports f then short_be f.sport else 0;
  proto = f.proto;
  prio = f.prio;
  tos = f.tos;
  filter_id = 0;
  action = priority;
}

-- fp_priority, fp_reject and fp_drop.
abbrev pub function_ptr : Action → List Effect
function_ptr priority = []
function_ptr reject = packet_filtered ∷ discard ∷ []
function_ptr drop = discard ∷ []

-- ipfilter_apply_filter: true for the result 1.
unfoldable pub apply_filter : IpFilter → FilterNode → Bool × List Effect
apply_filter st pkt = elim (find_key filter_compare pkt st.filter_tree) [
  | none ↦ (false, [])
  | some rule ↦ (true, function_ptr rule.action)
]

-- ipfilter
unfoldable pub ipfilter : IpFilter → Packet → Bool × List Effect
unfolding apply_filter packet_node
ipfilter st f =
    if not (has_ports f) && f.proto == 1 && f.icmp_type == 3 && f.icmp_code == 13
    then (false, [])
    else apply_filter st (packet_node f)

abbrev pub start : IpFilter
start = record { filter_tree = leaf; leaf_color = black; next_id = 1 }
