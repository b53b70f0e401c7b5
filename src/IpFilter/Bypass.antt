-- ===== src/IpFilter/Bypass.antt =====
-- Where the comparison of modules/pico_ipfilter.c is no order: filters that are missed, refused, or
-- deleted in place of another.
use picotcp.Base.{ℕ, ◌≡◌, ◌≢◌, refl, Bool, true, false, none, some, [], Ordering, arith, bit_and}
use picotcp.Tree.{Color, red, black, Tree, leaf, node, exists, find_key, insert}
use picotcp.Tree.Delete.{delete}
use picotcp.IpFilter.{
  FilterNode, IpFilter, AddArgs, Packet, eexist, filter_compare, add_validate, new_filter,
  filter_add, filter_del, dummy, ipfilter, packet_node,
}

-- What the first comparison of a search decides.
module _ (k a : FilterNode) (lc : Color) where
  insert_at_equal :
      (alloc : Bool) (l r : Tree FilterNode)
      → filter_compare a k ≡ Ordering.eq
      → insert filter_compare alloc lc k (node black a l r) ≡ (node black a l r, lc, exists a)
  unfolding insert find_key
  insert_at_equal alloc l r e = ground arith

  delete_at_equal :
      filter_compare a k ≡ Ordering.eq
      → delete filter_compare lc k (node black a leaf leaf) ≡ (leaf, black, some a)
  unfolding delete
  delete_at_equal e = ground arith

  delete_at_greater :
      (r : Tree FilterNode)
      → filter_compare a k ≡ Ordering.gt
      → delete filter_compare lc k (node black a leaf r) ≡ (node black a leaf r, lc, none)
  unfolding delete
  delete_at_greater r e = ground arith

  find_at_less :
      (l : Tree FilterNode)
      → filter_compare a k ≡ Ordering.lt
      → find_key filter_compare k (node black a l leaf) ≡ none
  unfolding find_key
  find_at_less l e = ground arith

-- Two filters agree on everything but the device and what is to be done.
pub record SameButDevice (a b : FilterNode) : Type 0 where
  pub proto : a.proto ≡ b.proto
  pub source : bit_and a.in_addr a.in_addr_netmask ≡ bit_and b.in_addr b.in_addr_netmask
  pub destination : bit_and a.out_addr a.out_addr_netmask ≡ bit_and b.out_addr b.out_addr_netmask
  pub in_port : a.in_port ≡ b.in_port
  pub out_port : a.out_port ≡ b.out_port

-- The devices of two filters do not tell them apart.
compare_other_device :
    (a b : FilterNode)
    → a.filter_id ≢ 0
    → b.filter_id ≢ 0
    → SameButDevice a b
    → filter_compare a b ≡ Ordering.eq
unfolding filter_compare
compare_other_device a b n m s = ground arith

-- A filter is refused as a duplicate if there is one for any other device with the same protocol,
-- addresses and ports, although the two match different packets.
pub add_other_device_refused :
    (a : FilterNode) (lc : Color) (next : ℕ) (x : AddArgs)
    → a.filter_id ≢ 0
    → next ≢ 0
    → add_validate x.prio x.action_code ≡ true
    → SameButDevice a (new_filter x next)
    → let st : IpFilter = record {
      filter_tree = node black a leaf leaf;
      leaf_color = lc;
      next_id = next;
    } in
      let (st', id, err) = filter_add true true st x in
      (id ≡ 0) × (err ≡ some eexist) × (st'.filter_tree ≡ node black a leaf leaf)
unfolding filter_add
add_other_device_refused a lc next x n m v s =
    let e = compare_other_device a (new_filter x next) n m s in
    rw (v, insert_at_equal (new_filter x next) a lc true leaf leaf e) (refl, refl, refl)

-- The search for an identifier compares protocol, addresses and ports, which are all 0 in the node
-- that is searched for: a filter that sets none of them is deleted whatever the identifier is.
pub del_takes_wrong_filter :
    (a : FilterNode) (lc : Color) (next id : ℕ)
    → a.filter_id ≢ 0
    → id ≢ 0
    → SameButDevice a (dummy id)
    → let st : IpFilter = record {
      filter_tree = node black a leaf leaf;
      leaf_color = lc;
      next_id = next;
    } in
      let (st', ok, gone) = filter_del st id in
      (ok ≡ true) × (gone ≡ some a) × (st'.filter_tree ≡ leaf)
unfolding filter_del
del_takes_wrong_filter a lc next id n m s =
    rw (delete_at_equal (dummy id) a lc (compare_other_device a (dummy id) n m s))
      (refl, refl, refl)

compare_dummy :
    (a : FilterNode) (id : ℕ)
    → a.filter_id ≢ 0
    → id ≢ 0
    → a.filter_id ≢ id
    → a.proto ≢ 0
    → filter_compare a (dummy id) ≡ Ordering.gt
unfolding filter_compare
compare_dummy a id n m d p = ground arith

-- A filter to the right of one with a protocol cannot be deleted.
pub del_misses_filter :
    (a b : FilterNode) (lc : Color) (next : ℕ)
    → a.filter_id ≢ 0
    → b.filter_id ≢ 0
    → a.filter_id ≢ b.filter_id
    → a.proto ≢ 0
    → let st : IpFilter = record {
      filter_tree = node black a leaf (node red b leaf leaf);
      leaf_color = lc;
      next_id = next;
    } in
      filter_del st b.filter_id ≡ (st, false, none)
unfolding filter_del
del_misses_filter a b lc next n m d p = rw (
    delete_at_greater (dummy b.filter_id) a lc (node red b leaf leaf)
      (compare_dummy a b.filter_id n m d p))

-- A packet that compares greater than the first filter is not held against those to its left,
-- also if it matches them: it passes.
pub left_filter_missed :
    (a b : FilterNode) (lc : Color) (next : ℕ) (f : Packet)
    → filter_compare a (packet_node f) ≡ Ordering.lt
    → let st : IpFilter = record {
      filter_tree = node black a (node red b leaf leaf) leaf;
      leaf_color = lc;
      next_id = next;
    } in
      ipfilter st f ≡ (false, [])
unfolding ipfilter
left_filter_missed a b lc next f h =
    ground (arith, find_at_less (packet_node f) a lc (node red b leaf leaf) h)
