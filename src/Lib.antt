-- ===== src/Lib.antt =====
-- Verification of tinc, a VPN daemon in C. This library models the parts of the program that the
-- security of a tunnel rests on, and proves what they promise.
--
-- The parts and how they interact. Two daemons keep a meta connection (a stream) and exchange
-- packets (datagrams); both are protected by SPTPS sessions. src/sptps.c runs the handshake, cuts
-- the stream into records and checks datagrams against a replay window; it is given callbacks that
-- send bytes and take records. A meta connection collects what it sends and receives in the byte
-- buffers of src/buffer.c. A packet's way is found by the subnets that each node owns. Keys and
-- names are written and checked with the text functions of src/utils.c.
--
-- Where things are.
--   Base: library names, Boolean tests on native numbers, lists, bits of a byte, bytes in network
--     order, slices, and `Action`, a step of C code: it succeeds, fails (returns false), or faults
--     (reads through a null pointer or leaves its buffer).
--   Sptps.Window: `sptps_check_seqno` and the fields of `sptps_t` that it uses. Window.Slots has
--     the laws of the bitmap, Window.Refine compares the code with the set of missing numbers,
--     Window.Replay and Window.Far look at whole runs.
--   Sptps.Session: `sptps_t` (src/sptps.h), the callbacks, and a log of their calls.
--   Sptps.Send: `send_record_priv`, `send_record_priv_datagram`, `sptps_send_record`, `send_kex`,
--     `send_sig`, `send_ack`.
--   Sptps.Handshake: `generate_key_material`, `receive_ack`, `receive_kex`, `receive_sig`,
--     `receive_handshake`, `sptps_force_kex`, `sptps_start`. A function with a long body is split
--     where its later part is a function of its own here (`establish_keys` and `change_outcipher`
--     are the end of `receive_sig`).
--   Sptps.Receive: `sptps_receive_data`, `sptps_receive_data_datagram`, `sptps_verify_datagram`.
--   Sptps.Safety: which pointers are set in which state, and how large the input buffer is, in a
--     session whose calls have all succeeded; and what the functions of src/sptps.c do to that.
--   Sptps.Datagrams: what one end sends over datagrams, and what the other delivers.
--   Sptps.Agreement: what the two ends of a handshake have in common at its end.
--   Buffer: src/buffer.c; Buffer.Queue is the invariant, Buffer.Fifo the view of a buffer as a
--     queue of bytes.
--   Subnet: `maskcmp`, `mask`, `maskcpy` and `maskcheck` of src/subnet_parse.c, which decide what
--     addresses a subnet has; Subnet.Masks has how they agree. Subnet.Compare is `subnet_compare`
--     and `subnetcheck` over the subnets of src/subnet.h, Subnet.Order what the order promises.
--     Subnet.Cache is the hash table of src/hash.h, Subnet.Lookup the lookups of src/subnet.c with
--     their caches, and what adding and removing a subnet does to them; Lookup.Longest is about
--     the search in a tree that is in order.
--   Route: src/route.c. `Traffic` is the packet on its way, the variables of `ratelimit`, the
--     subnets and their expiry times, `mymac`, `pcap` and the log of the calls that leave a mark
--     outside; `Network` is the settings, the nodes and the connections. Route.Checksum is `inet_checksum`; Route.Unreachable
--     `route_ipv4_unreachable` and `route_ipv6_unreachable`; Route.Ttl `do_decrement_ttl`; Route.Mss
--     `clamp_mss`; Route.Fragment `fragment_ipv4_packet`; Route.Decide `route_broadcast` and
--     `route_ipv4`; Route.Ipv6 `route_ipv6`; Route.Neighbor `route_arp` and `route_neighborsol`;
--     Route.Switch `learn_mac`, `age_subnets`, `route_mac`, `send_pcap` and `route`.
--     What the two routing functions do alike is one definition in Route.Decide.
--   Mtu: `try_fix_mtu`, `reduce_mtu`, `udp_probe_h` and its helpers in src/net_packet.c; `Peer` is the
--     fields of `node_t` that they use.
--   Requests: `seen_request`, `age_past_requests` and `exit_requests` of src/protocol.c.
--   Splay: src/splay_tree.c. The module itself has the two restructurings of a tree, Splay.State the
--     operations on a `splay_tree_t`, which is a tree and the list of the same nodes, Splay.Nosplay
--     the search that leaves the tree alone, Splay.Order the reference on sorted lists. Shape, Sides, Search,
--     BottomUp, Thread, Joins, Valid and Refine carry the proofs; Update, Neighbours and Reached
--     have the results.
--   Graph: `sssp_bfs` of src/graph.c over a function from nodes to their fields; Graph.Sound,
--     Graph.Explored and Graph.Reached follow its rounds. Graph.Mst is `mst_kruskal`,
--     Graph.Reachability `check_reachability`.
--   LinkedList: src/list.c over nodes in memory. LinkedList.Chain and LinkedList.Parts have what a
--     write to one node does to a list; Refine, Insert and Delete the results.
--   Utils: `bin2hex`, `hex2bin`, the base64 functions, `check_id`, `check_netname` and
--     `replace_name` of src/utils.c.
--   The Tests modules apply the theorems to concrete inputs.
--
-- Conventions. C integers keep their width: 32-bit sums are taken modulo 2 ^ 32; differences of
-- weights of subnets are taken to fit an int. A buffer in memory is the list of its bytes and a
-- pointer that may be NULL is an Option. The cipher, the signatures, the key exchange and the PRF
-- are the record `Crypto`; they and the callbacks are parameters. Of the cipher three
-- laws are used: decryption takes off a tag of 16 bytes, encryption adds one, and decryption with
-- the same key undoes encryption. The address that the machine would be reached
-- from, the answer of the sockets library, is a parameter of `Network`. The machine has 64-bit
-- words and keeps the low byte first. Each loop of the C code runs over a list or a number that
-- its guard counts down, but for three, which have fuel: `fold` has three rounds, the loop over
-- the TCP options as many as there are bytes of options, and that over fragments as many as there
-- are bytes of payload; each round of the last two takes at least one byte. A hash table is
-- probed three or four times, as in the source. The MTU is that of a build without jumbograms,
-- and a clock that is read twice does not go backwards.
--
-- Not modelled: `sptps_stop` and the log functions of src/sptps.c, and memory that cannot be
-- allocated; of src/utils.c `is_decimal`, `int_to_str`, `string_eq` and `winerror`. A callback
-- does not change the session that called it. Of src/subnet.c `lookup_subnet` and `subnet_update`
-- are not modelled; in Subnet and Requests a splay tree is the list of its elements in order. Of
-- src/net_packet.c, src/protocol.c and src/node.c only what is named above is modelled. Sockets,
-- devices, configuration files and the command line tool are input and output. The code under src/chacha-poly1305 and src/ed25519 and the getopt files are
-- copies of other projects' libraries.
pub mod Base
pub mod Sptps
pub mod Subnet
pub mod Route
pub mod Mtu
pub mod Requests
pub mod Buffer
pub mod Utils
pub mod Splay
pub mod Graph
pub mod LinkedList
