-- ===== src/Route/Tests.antt =====
-- The theorems on src/route.c at concrete packets.
use tinc.Base.{
  if◌then◌else◌, ℕ, ◌+◌, ◌*◌, ◌/◌, ◌%◌, ◌^◌, ◌-◌, ◌<◌, ◌≡◌, ◌↔◌, refl, inr, Bool, true, false, ◌&&◌,
  Option, none, some, List, [], ◌∷◌, ◌++◌, ltb, length, replicate, arith,
}
use tinc.Base.Bytes.{Bytes, AllBytes}
use tinc.Subnet.{pos}
use tinc.Subnet.Compare.{Net}
use tinc.Subnet.Cache.{hash_clear}
use tinc.Subnet.Lookup.{ipv4_table, ipv6_table, mac_table, lookup_subnet_ipv4, lookup_subnet_ipv6}
use tinc.Subnet.Lookup.{tree_of, subnet_add}
use tinc.Route.Switch.{learned, age_subnets}
use tinc.Route.Switch.Laws.{
  is_old, is_pending, filter, any, delete_all, withdraw_all, age_subnets_lem,
}
use tinc.Route
use tinc.Route.{Packet, byte, pair, word, Traffic, Output, Node, Forwarding, Mode, ratelimit}
use tinc.Route.Checksum.{inet_checksum}
use tinc.Route.Checksum.Laws.{inet_checksum-filled}
use tinc.Route.Unreachable.{slice, ipv4_reply}
use tinc.Route.Ttl.{decrement_ipv4, do_decrement_ttl}
use tinc.Route.Ttl.Laws.{decrement_ipv4-sum, time_exceeded-answered}
use tinc.Route.Mss.{new_csum, write_mss, clamp_option, mss_loop, clamp_tcp}
use tinc.Route.Fragment.{fragment_ipv4_packet}
use tinc.Route.Fragment.Laws.{Pieces, fragment_ipv4_packet-Pieces}
use tinc.Route.Decide.{owner_reachable, route_ipv4}
use tinc.Route.Ipv6.{route_ipv6}
use tinc.Route.Laws.{Routed}
use tinc.Route.Ipv6.Laws.{route_ip-Routed}

abbrev are_bytes : Bytes → Bool
are_bytes [] = true
are_bytes (x ∷ b) = ltb x 256 && are_bytes b

are_bytes_lem : (b : Bytes) → are_bytes b ≡ true → AllBytes b
are_bytes_lem [] h = tt
are_bytes_lem (x ∷ b) h = ground (arith, are_bytes_lem b)

-- This node is 0, and a name is the number of its node.
abbrev network : Route.Network
network = record {
  myself = 0;
  now = 100;
  nodes = λ n. record { mtu = 500; options = 8; reachable = true; via = some n; nexthop = some n };
  node_named = λ name. tinc.Base.get_or name 0 0;
  hash_seed = 5;
  forwarding = Forwarding.internal;
  decrement_ttl = true;
  directonly = false;
  overwrite_mac = false;
  priorityinheritance = false;
  mode = Mode.router;
  my_name = 0 ∷ [];
  macexpire = 600;
  connections = [];
  local_address = λ _. none;
  local_address6 = λ _. none;
}

-- The frame and the IPv4 header of a packet from 10.0.0.1 to 10.0.0.2.
abbrev headers : ℕ → ℕ → ℕ → Bytes
headers total ttl protocol =
    replicate 12 0
    ++ (8
        ∷ 0
        ∷ 69
        ∷ 0
        ∷ total / 256
        ∷ total % 256
        ∷ 0
        ∷ 1
        ∷ 0
        ∷ 0
        ∷ ttl
        ∷ protocol
        ∷ 0
        ∷ 0
        ∷ 10
        ∷ 0
        ∷ 0
        ∷ 1
        ∷ 10
        ∷ 0
        ∷ 0
        ∷ 2
        ∷ [])

abbrev packet : Bytes → ℕ → Packet
packet cells len = record { len = len; priority = 0; cells = cells }

abbrev state : Packet → Traffic
state p = record {
  packet = p;
  lasttime = 0;
  count = 0;
  subnets = record {
    tree =
        record { owner = some (3 ∷ []); weight = pos 10; net = Net.ipv4 8 (10 ∷ 0 ∷ 0 ∷ 0 ∷ []) }
        ∷ [];
    ipv4_cache = hash_clear (ipv4_table 5);
    ipv6_cache = hash_clear (ipv6_table 5);
    mac_cache = hash_clear (mac_table 5);
  };
  mymac = replicate 6 0;
  expires = λ _. 0;
  pcap = false;
  log = [];
}

abbrev long : Traffic
long = state (packet (headers 620 64 17 ++ replicate 600 7) 634)

route_ip-Routed_example :
    let found =
      (lookup_subnet_ipv4 5
        (owner_reachable network)
        (slice long.packet.cells 30 4)
        long.subnets).0 in
    let found6 =
      (lookup_subnet_ipv6 5
        (owner_reachable network)
        (slice long.packet.cells 38 16)
        long.subnets).0 in
    Routed network 2 590 found [] ((route_ipv4 network 2 long).log)
    × Routed network 2 1294 found6 [] ((route_ipv6 network 2 long).log)
route_ip-Routed_example = route_ip-Routed network 2 long

fragment_ipv4_packet-Pieces_example :
    Pieces 3 34 590
      (slice long.packet.cells 34 600)
      []
      ((fragment_ipv4_packet network 3 14 long).log)
fragment_ipv4_packet-Pieces_example =
    fragment_ipv4_packet-Pieces network 3 14 long (omega arith) (omega arith) (omega arith)
      (omega arith) refl refl

-- The TCP header of a SYN packet, with an MSS option of 1460 behind two fillers or before them.
abbrev tcp : Bytes → Bytes
tcp options = replicate 12 0 ++ (112 ∷ 2 ∷ 0 ∷ 0 ∷ 18 ∷ 52 ∷ 0 ∷ 0 ∷ options)

abbrev mss_first : Packet
mss_first =
    packet (headers 48 64 6 ++ (tcp (2 ∷ 4 ∷ 5 ∷ 180 ∷ 1 ∷ 1 ∷ 1 ∷ 0 ∷ []) ++ replicate 8 0)) 62

abbrev mss_last : Packet
mss_last =
    packet (headers 48 64 6 ++ (tcp (1 ∷ 1 ∷ 1 ∷ 1 ∷ 2 ∷ 4 ∷ 5 ∷ 180 ∷ []) ++ replicate 8 0)) 62

-- An option in front is clamped, to 446.
clamped_in_front : byte (clamp_tcp mss_first 34 500) 57 ≡ 190
unfolding clamp_tcp mss_loop clamp_option write_mss new_csum
clamped_in_front = refl

decrement_ipv4-sum_example :
    let p = long.packet in
    let q = decrement_ipv4 p 14 in
    (byte q 22 + 1 ≡ byte p 22)
    × (byte q 23 ≡ byte p 23)
    × ((pair (byte q 22) (byte q 23) + pair (byte q 24) (byte q 25)) % 65535
        ≡ (pair (byte p 22) (byte p 23) + pair (byte p 24) (byte p 25)) % 65535)
    × (byte q 30 ≡ byte p 30)
    × (q.len ≡ p.len)
decrement_ipv4-sum_example =
    decrement_ipv4-sum long.packet 14 30 (are_bytes_lem long.packet.cells refl) (omega arith)
      (omega arith) (inr (omega arith))

abbrev expired : Traffic
expired = state (packet (headers 28 1 1 ++ (11 ∷ 0 ∷ 0 ∷ 0 ∷ 0 ∷ 0 ∷ 0 ∷ 0 ∷ [])) 42)

not_limited : (ratelimit 100 3 expired).0 ≡ false
unfolding ratelimit
not_limited = refl

time_exceeded-answered_example :
    ((do_decrement_ttl network 2 expired).0 ≡ false)
    × ((do_decrement_ttl network 2 expired).1.log
        ≡ Output.sent 2 (ipv4_reply network 14 11 0 expired.packet) ∷ [])
time_exceeded-answered_example =
    time_exceeded-answered network 2 expired refl (omega arith) (omega arith) refl refl
      (omega arith) not_limited

abbrev greatest : ℕ
greatest = 2 ^ 32 - 1

abbrev front : Bytes
front = 69 ∷ 0 ∷ 0 ∷ 28 ∷ []

abbrev back : Bytes
back = 10 ∷ 0 ∷ 0 ∷ 1 ∷ []

inet_checksum-filled_example :
    let c = inet_checksum (front ++ (0 ∷ 0 ∷ back)) 65535 in
    inet_checksum (front ++ ((c % 256) ∷ (c / 256) ∷ back)) 65535 ≡ 0
inet_checksum-filled_example =
    inet_checksum-filled 2 front back (are_bytes_lem (front ++ (0 ∷ 0 ∷ back)) refl) refl
      (omega arith)

-- A switch that learned an address of its own interface 700 seconds ago.
abbrev card : Bytes
card = 2 ∷ 0 ∷ 0 ∷ 0 ∷ 0 ∷ 1 ∷ []

abbrev grown_old : Traffic
grown_old = record (state (packet [] 0)) {
  subnets = subnet_add 5 (some (0 ∷ [])) (learned network card) long.subnets;
  expires = λ _. 40;
}

age_subnets_lem_example :
    let mine = tree_of (some (0 ∷ [])) grown_old.subnets.tree in
    let old = filter (is_old network grown_old) mine in
    let withdrawn = withdraw_all old [] in
    ((age_subnets network grown_old).log ≡ (
      if any (is_pending network grown_old) mine then Output.timer 10 ∷ withdrawn else withdrawn))
    × ((age_subnets network grown_old).subnets.tree ≡ delete_all old grown_old.subnets.tree)
    × ((age_subnets network grown_old).expires ≡ grown_old.expires)
age_subnets_lem_example = age_subnets_lem network grown_old
