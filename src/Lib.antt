-- ===== src/Lib.antt =====
-- picoTCP, a TCP/IP stack for embedded devices: the data structures that the stack is built upon,
-- and the modules that stand on them. Paths are those of the repository.
--
-- Tree (stack/pico_tree.c, include/pico_tree.h): the red-black tree that holds nearly every table of
--   the stack. `find_key`, `insert` and `delete` are pico_tree_findKey, pico_tree_insert and
--   pico_tree_delete; Tree/Walk has pico_tree_next, pico_tree_prev and the loops of the foreach
--   macros. The parent pointers are a list of frames, and the colour of the node LEAF that all trees
--   share is passed through. Tree/Order says what a comparison function must satisfy and what the
--   operations mean on sorted lists; Tree/Search needs nothing of the comparison function.
-- IpFilter (modules/pico_ipfilter.c): the packet filter, whose table is such a tree. `filter_add`,
--   `filter_del` and `ipfilter` are pico_ipv4_filter_add, pico_ipv4_filter_del and ipfilter, and
--   `filter_compare` has the name that it has there. What is done to a frame is a list of effects.
-- Nat (modules/pico_nat.c): network address translation. A tuple is in two such trees at once, and
--   its bit fields are in a store at its address. Nat/Frames has pico_ipv4_nat_outbound and
--   pico_ipv4_nat_inbound as `nat_outbound` and `nat_inbound`, Nat/Cleanup the timer; Nat/Reachable
--   has the calls of the module as steps, Nat/Idle runs of the timer. Checksums, random numbers and
--   the sockets' ports are arguments, since they belong to other modules.
-- Queue (include/pico_queue.h): the queue of frames, linked through the frames. `enqueue` and
--   `dequeue` are pico_enqueue and pico_dequeue; Queue/Fifo relates the links to a list, Queue/Size is
--   about the counter of bytes.
-- Frames (stack/pico_frame.c): the buffers that frames share and the counters in them. `do_alloc`,
--   `copy`, `grow`, `set_buffer`, `deepcopy` and `discard` are the functions with these names
--   behind pico_frame. Frames/Owned says which blocks the frames own, Frames/Memory and
--   Frames/Valid what the calls do to them, Frames/Added, Frames/Changed and Frames/Deep follow one
--   call each, Frames/Runs all calls, Frames/Faults has calls that leave freed memory in use.
-- Checksum (stack/pico_frame.c): the Internet checksum, pico_checksum and pico_dualbuffer_checksum,
--   over lists of bytes.
-- Strings (modules/pico_strings.c): pico_strnlen, get_string_terminator_position, pico_strncasecmp and
--   num2string, as `strnlen`, `get_string_terminator_position`, `strncasecmp` and `num2string`. The
--   buffer of num2string is the part of it that is written, from its end to the front; toupper of
--   the C library is an argument.
-- Heaps (include/heap.h): the binary heap of the macro DECLARE_HEAP, as `heap_insert`, `heap_peek` and
--   `heap_first`; Heaps/Order has the way of a hole through the heap, Heaps/Contents the elements.
-- Timers (stack/pico_stack.c): the timers in such a heap, pico_timer_add, pico_timer_cancel and
--   pico_check_timers with the names that they have there, without the prefix. Callbacks are an
--   argument.
-- Routes (modules/pico_ipv4.c): the table of routes, a tree of Tree. `route_find`, `route_add`,
--   `route_del`, `route_get_gateway` and `source_find` are the functions with these names, without the
--   prefix pico_ipv4. Routes/Best has the lookup, Routes/Changes the changes.
-- Addresses (modules/pico_ipv4.c): pico_ipv4_to_string and pico_string_to_ipv4, as `ipv4_to_string` and
--   `string_to_ipv4`, on lists of bytes.
-- DnsNames (modules/pico_dns_common.c): pico_dns_url_to_qname and pico_dns_qname_to_url with the
--   functions that they call, under these names without pico_dns. DnsNames/Encoded and
--   DnsNames/Decoded follow the two ways, DnsNames/Compressed has the loop of
--   pico_dns_decompress_name as `decompress`.
-- Fragments (modules/pico_fragments.c): reassembly for IPv4 and IPv6. `process_frag` is
--   pico_ipv4_process_frag and pico_ipv6_process_frag, `check_complete`, `reassemble`, `empty_tree` and
--   `frag_expire` the functions with these names; what they do to the stack is a list of events.
--   Fragments/Chain says what the fragments of a datagram are, Fragments/Emptied, Fragments/Whole and
--   Fragments/Arrival follow one arrival, Fragments/Delivery all of them, Fragments/Faults has
--   datagrams that are lost or too large.
-- Arp (modules/pico_arp.c): the table of neighbours, with `arp_receive`, `arp_lookup`, `add_entry`,
--   `arp_expire` and the functions between them; it asks Routes for the way to an address. Arp/Receive
--   says what a packet does to the entry of its sender, Arp/Limit how many are answered, Arp/Waiting
--   has the frames that wait for an answer.
-- Seq (stack/pico_stack.c): pico_seq_compare, the order of the sequence numbers of TCP.
-- Tcp (modules/pico_tcp.c): the data of a TCP socket. Tcp has the queues of segments, generic for
--   the input and the output queue, which are trees of Tree in the order of Seq; Tcp/Segments and
--   Tcp/Queues relate them to lists. Tcp/Input has pico_tcp_read as `tcp_read`, Tcp/Receive the
--   rest of tcp_data_in behind the options as `data_in`, with the blocks for selective
--   acknowledgements. Tcp/Layout says how segments lie in the stream of the peer, Tcp/Round,
--   Tcp/Read, Tcp/Synced, Tcp/Arrive, Tcp/Received and Tcp/Acked what reading, data and
--   acknowledgements do, Tcp/Overlap what happens where segments overlap. Tcp/Dispatch has
--   pico_tcp_input as `tcp_input`, with the table of states `tcp_fsm` and the valid flags; what the
--   handlers do to a socket is the record Socket there, an interface. Tcp/Dispatch/Handled and
--   Tcp/Dispatch/Dropped say which segments run a handler and which do not. Tcp/Handlers fills that
--   interface with the handlers, which have their names without tcp_, by `tcp_socket`; what they
--   call in other parts of the stack is the record Calls there. Tcp/Handlers/Unchecked has a test
--   on numbers that goes wrong. Tcp/Rtt has tcp_rtt with the part of tcp_ack that calls it, as
--   `tcp_rtt` and `measure`; Tcp/Rtt/Estimate sets it beside the estimator of RFC 2988,
--   Tcp/Rtt/Bounds bounds what it computes.
-- Base: Boolean tests, lists over the native numbers, machine words, signed numbers.
--
-- Memory is a Boolean argument of the operations that allocate; for Frames it is a count of each
-- block, and the blocks that an allocation returns are the argument. The walk through a tree takes
-- fuel, of which as much as the tree has keys is enough; the search for a port has the 32 rounds of
-- the C code; a read of TCP ends after one round more than bytes are asked for, the release of
-- segments and the check of the timers after one round more than there are; the labels of a name
-- are at most as many as its bytes, while its decompression has no bound; the emptying of a queue
-- ends after one round more than the queue has frames, and the loop of carries of the checksum
-- after two. Pointers are numbers, and NULL is 0.
--
-- Not modelled: the handler tcp_syn of TCP and the rest of tcp_ack, its output and options, the
-- rest of IPv4 behind the routes; what is printed for debugging, mutexes, the drivers, the pointers
-- into the buffers of frames, and the modules of the stack that this list does not name.
pub mod Base
pub mod Tree
pub mod IpFilter
pub mod Nat
pub mod Queue
pub mod Frames
pub mod Checksum
pub mod Strings
pub mod Heaps
pub mod Timers
pub mod Seq
pub mod Tcp
pub mod Routes
pub mod Fragments
pub mod DnsNames
pub mod Addresses
pub mod Arp
