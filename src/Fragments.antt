-- ===== src/Fragments.antt =====
-- Reassembly of IP fragments: modules/pico_fragments.c, for IPv4 and IPv6. The fragments of the one
-- datagram that is being put together are in a tree in the order of their offsets.
pub mod Chain
pub mod Emptied
pub mod Whole
pub mod Arrival
pub mod Delivery
pub mod Faults
mod Tests
use picotcp.Base.{
  ℕ, zero, ◌+◌, ◌*◌, Bool, true, false, not, ◌&&◌, Option, none, some, List, [], ◌∷◌, ◌++◌,
  if◌then◌else◌, ◌==◌, bit_and, u16, ℤ, pos, negsuc, length, compare, Ordering, map,
}
use picotcp.Tree.{Color, Tree, Inserted, done, exists, no_memory, keys, insert}
use picotcp.Tree.Walk.{first, foreach}
use picotcp.Tree.Delete.{delete}

pub data Net : Type 0 where
  ipv4 ipv6 : Net

-- What the module reads of a frame: the addresses and the identification of the network header,
-- the fragment field `f->frag`, and the bytes from `transport_hdr` on, of which there are
-- `transport_len`. A copy of a frame is the same frame here.
pub record Fragment : Type 0 where
  pub src : ℕ
  pub dst : ℕ
  pub id : ℕ
  pub frag : ℕ
  pub transport : List ℕ

-- IP4_FRAG_OFF and IP6_FRAG_OFF, IP4_FRAG_MORE and IP6_FRAG_MORE.
unfoldable pub get_offset : Net → Fragment → ℕ
get_offset ipv4 f = bit_and f.frag 8191 * 8
get_offset ipv6 f = bit_and f.frag 65528

unfoldable pub get_more_flag : Net → Fragment → Bool
get_more_flag ipv4 f = not (bit_and f.frag 8192 == 0)
get_more_flag ipv6 f = not (bit_and f.frag 1 == 0)

abbrev pub get_header_length : Net → ℕ
get_header_length ipv4 = 20
get_header_length ipv6 = 40

abbrev pub transport_len : Fragment → ℕ
transport_len f = length f.transport

-- pico_ipv4_frag_compare and pico_ipv6_frag_compare
abbrev pub frag_compare : Net → Fragment → Fragment → Ordering
frag_compare net a b = compare (get_offset net a) (get_offset net b)

-- pico_ipv4_frag_match and pico_ipv6_frag_match; `none` is a NULL pointer.
abbrev pub frag_match : Fragment → Option Fragment → ℤ
frag_match a none = negsuc 0
frag_match a (some b) =
    if not (a.src == b.src) then pos 1 else if not (a.dst == b.dst) then pos 2 else pos 0

-- The frame that reassembly makes: the size of its buffer, the fragment whose header it has, and
-- the bytes that are written behind the header.
pub record Full : Type 0 where
  pub buffer_len : ℕ
  pub first_fragment : Fragment
  pub written : List ℕ
  pub full_len : ℕ

-- What the module does to the rest of the stack.
pub data Event : Type 0 where
  received : Full → ℕ → Event
  refused : Full → Event
  discarded : Fragment → Event
  cancelled : ℕ → Event
  notified : Fragment → Event

-- What the rest of the stack answers: pico_frame_copy, the memory of a node of the tree,
-- pico_timer_add, pico_frame_alloc, and whether pico_transport_receive answers -1.
pub record Answers : Type 0 where
  pub copies : Bool
  pub node_alloc : Bool
  pub new_timer : ℕ
  pub allocs : Bool
  pub receive_fails : Full → ℕ → Bool

-- The tree of fragments, with the colour of LEAF, ipv4_cur_frag_id and ipv4_fragments_timer, or
-- those of IPv6.
pub record Reassembly : Type 0 where
  pub fragments : Tree Fragment
  pub leaf_color : Color
  pub cur_frag_id : ℕ
  pub timer : ℕ

-- The fragments in order, as the loop pico_tree_foreach_safe meets them.
abbrev pub in_order : Reassembly → List Fragment
in_order st = foreach (length (keys st.fragments)) st.fragments

-- The loop body that deletes each fragment. The next node is saved before, and stays a node of the
-- tree, since the node that goes is the leftmost one.
unfoldable pub delete_each : Net → List Fragment → Color → Tree Fragment → Tree Fragment × Color
delete_each net [] lc t = (t, lc)
delete_each net (f ∷ fs) lc t =
    let (t', lc', gone) = delete (frag_compare net) lc f t in delete_each net fs lc' t'

abbrev pub emptied : Net → Reassembly → Reassembly
emptied net st =
    let (t, lc) = delete_each net (in_order st) st.leaf_color st.fragments in
    record st { fragments = t; leaf_color = lc }

-- pico_fragments_empty_tree
unfoldable pub empty_tree : Net → Reassembly → Reassembly × List Event
unfolding delete_each
empty_tree net st = (emptied net st, map discarded (in_order st))

-- The loop of pico_fragments_check_complete from a bookmark on.
pub data Checked : Type 0 where
  gap incomplete : Checked
  complete : ℕ → Checked

unfoldable pub check_from : Net → ℕ → List Fragment → Checked
check_from net bookmark [] = incomplete
check_from net bookmark (f ∷ fs) =
    let rest = check_from net (bookmark + transport_len f) fs in
    if not (get_offset net f == bookmark)
    then gap
    else if not (get_more_flag net f)
    then complete (bookmark + transport_len f)
    else rest

-- The bytes of the fragments, one after the other.
abbrev pub joined : List Fragment → List ℕ
joined [] = []
joined (f ∷ fs) = f.transport ++ joined fs

abbrev pub hand_over : Answers → ℕ → Full → List Event
hand_over w proto full =
    received full proto ∷ (if w.receive_fails full proto then refused full ∷ [] else [])

-- pico_fragments_reassemble: the answer is 0 if the frame could be made.
abbrev pub reassemble_from :
    Net → Answers → ℕ → ℕ → Reassembly → Option Fragment → Reassembly × List Event × ℤ
reassemble_from net w len proto st none = (st, [], negsuc 1)
reassemble_from net w len proto st (some f) =
    if w.allocs
    then (
      emptied net st,
      map discarded (in_order st)
          ++ hand_over w proto (record {
            buffer_len = u16 (get_header_length net + len);
            first_fragment = f;
            written = joined (in_order st);
            full_len = u16 len;
          }),
      pos 0,
    )
    else (st, [], pos 1)

unfoldable pub reassemble : Net → Answers → ℕ → ℕ → Reassembly → Reassembly × List Event × ℤ
unfolding delete_each
reassemble net w len proto st = reassemble_from net w len proto st (first st.fragments)

abbrev pub timer_stopped : Reassembly × List Event × ℤ → Reassembly × List Event
timer_stopped (st, es, pos zero) = (record st { timer = 0 }, es ++ cancelled st.timer ∷ [])
timer_stopped (st, es, _) = (st, es)

-- pico_ipv4_fragments_complete and pico_ipv6_fragments_complete
abbrev pub fragments_complete : Net → Answers → ℕ → ℕ → Reassembly → Reassembly × List Event
fragments_complete net w len proto st = timer_stopped (reassemble net w len proto st)

abbrev pub checked : Net → Answers → ℕ → Reassembly → Checked → Reassembly × List Event
checked net w proto st (complete n) = fragments_complete net w n proto st
checked net w proto st _ = (st, [])

-- pico_fragments_check_complete
unfoldable pub check_complete : Net → Answers → ℕ → Reassembly → Reassembly × List Event
unfolding check_from reassemble
check_complete net w proto st = checked net w proto st (check_from net 0 (in_order st))

-- pico_ipv4_frag_timer_on and pico_ipv6_frag_timer_on
abbrev pub frag_timer_on : Net → Answers → Reassembly → Reassembly × List Event
frag_timer_on net w st =
    let st' = record st { timer = w.new_timer } in
    if w.new_timer == 0 then empty_tree net st' else (st', [])

-- A step of pico_ipv4_process_frag or pico_ipv6_process_frag: the function goes on to the check,
-- or it has returned.
pub data Kept : Type 0 where
  kept : Reassembly → List Event → Kept
  returned : Reassembly → List Event → Kept

abbrev pub insert_told :
    Reassembly → Fragment → List Event → Tree Fragment × Color × Inserted Fragment → Kept
insert_told st f es (t, lc, done) = kept (record st { fragments = t; leaf_color = lc }) es
insert_told st f es (t, lc, exists g) =
    returned (record st { fragments = t; leaf_color = lc }) (es ++ discarded f ∷ [])
insert_told st f es (t, lc, no_memory) =
    returned (record st { fragments = t; leaf_color = lc }) (es ++ discarded f ∷ [])

unfoldable pub insert_frag : Net → Answers → Reassembly → Fragment → List Event → Kept
insert_frag net w st f es =
    insert_told st f es (insert (frag_compare net) w.node_alloc st.leaf_color f st.fragments)

-- The fragment is one of the datagram that the tree has fragments of.
abbrev pub is_continued : Reassembly → Fragment → Option Fragment → Bool
is_continued st f first = elim (frag_match f first) [
  | pos zero ↦ f.id == st.cur_frag_id
  | _ ↦ false
]

abbrev pub continue_with :
    Net → Answers → Reassembly → Fragment → Option Fragment → List Event → Kept
continue_with net w st f first es =
    if is_continued st f first
    then if w.copies then insert_frag net w st f es else returned st es
    else kept st es

abbrev pub start_timed : Net → Answers → Fragment → Reassembly × List Event → Kept
start_timed net w f (st, es) = insert_frag net w (record st { cur_frag_id = f.id }) f es

-- The tree is empty: a new datagram, unless the fragment is a late one of the last datagram.
abbrev pub start_with : Net → Answers → Reassembly → Fragment → Kept
start_with net w st f =
    if not (st.cur_frag_id == 0) && f.id == st.cur_frag_id
    then returned st []
    else if w.copies
    then start_timed net w f (frag_timer_on net w st)
    else returned st []

-- pico_ipv4_process_frag: a first fragment of another datagram empties the tree.
abbrev pub emptied_with : Net → Answers → Fragment → Reassembly × List Event → Kept
emptied_with net w f (st, es) = continue_with net w (record st { cur_frag_id = 0 }) f none es

abbrev pub next_with : Net → Answers → Reassembly → Fragment → Fragment → Kept
next_with ipv4 w st f g =
    if not (f.id == st.cur_frag_id) && get_offset ipv4 f == 0
    then emptied_with ipv4 w f (empty_tree ipv4 st)
    else continue_with ipv4 w st f (some g) []
next_with ipv6 w st f g = continue_with ipv6 w st f (some g) []

abbrev pub process_first : Net → Answers → Reassembly → Fragment → Option Fragment → Kept
process_first net w st f none = start_with net w st f
process_first net w st f (some g) = next_with net w st f g

abbrev pub after : List Event → Reassembly × List Event → Reassembly × List Event
after es (st, es') = (st, es ++ es')

abbrev pub check_kept : Net → Answers → ℕ → Kept → Reassembly × List Event
check_kept net w proto (kept st es) = after es (check_complete net w proto st)
check_kept net w proto (returned st es) = (st, es)

-- pico_ipv4_process_frag and pico_ipv6_process_frag
unfoldable pub process_frag : Net → Answers → ℕ → Reassembly → Fragment → Reassembly × List Event
unfolding get_offset empty_tree insert_frag check_complete
process_frag net w proto st f =
    check_kept net w proto (process_first net w st f (first st.fragments))

-- pico_frag_expire; `is_unicast` is pico_frame_dst_is_unicast.
abbrev pub expire_first :
    Net → (Fragment → Bool) → Reassembly → Option Fragment → Reassembly × List Event
expire_first net is_unicast st none = (st, [])
expire_first net is_unicast st (some f) =
    after (if get_offset net f == 0 && is_unicast f then notified f ∷ [] else [])
      (empty_tree net st)

unfoldable pub frag_expire : Net → (Fragment → Bool) → Reassembly → Reassembly × List Event
unfolding get_offset empty_tree
frag_expire net is_unicast st = expire_first net is_unicast st (first st.fragments)
