-- ===== src/Route.antt =====
-- Packet routing, src/route.c: the packet, what the functions know of the network, and the calls
-- of `send_packet` and `broadcast_packet` that they make.
pub mod Checksum
pub mod Unreachable
pub mod Ttl
pub mod Mss
pub mod Fragment
pub mod Decide
pub mod Neighbor
pub mod Ipv6
pub mod Switch
pub mod Laws
mod Tests
use tinc.Base.{
  ℕ, ◌+◌, ◌*◌, ◌%◌, ◌^◌, Bool, true, false, Option, none, some, List, [], ◌∷◌, get_or, set, leb,
  ltb, ◌==◌, if◌then◌else◌,
}
use tinc.Base.Bytes.{Bytes}
use tinc.Subnet.Compare.{Subnet}
use tinc.Subnet.Lookup.{Subnets}

-- `vpn_packet_t`: the valid length, the priority, and the memory from `DATA(packet)` on.
pub record Packet : Type 0 where
  pub len : ℕ
  pub priority : ℕ
  pub cells : Bytes

-- DATA(packet)[i], and the 16 bits from there on in network byte order.
abbrev pub byte : Packet → ℕ → ℕ
byte p i = get_or p.cells i 0

abbrev pub pair : ℕ → ℕ → ℕ
pair high low = high * 256 + low

abbrev pub word : Packet → ℕ → ℕ
word p i = pair (byte p i) (byte p (i + 1))

-- A node is its place in the tree of nodes.
abbrev pub NodeId : Type 0
NodeId = ℕ

-- A call that leaves a mark outside: of `send_packet` and `broadcast_packet`, of `subnet_update`, of
-- `send_add_subnet` and `send_del_subnet` to every connection that has an edge, of the timer of
-- `age_subnets`, and of `send_meta` with the first bytes of the packet to one of the connections.
pub data Output : Type 0 where
  sent : NodeId → Packet → Output
  broadcast : NodeId → Packet → Output
  updated : Subnet → Output
  announced : Subnet → Output
  withdrawn : Subnet → Output
  timer : ℕ → Output
  captured : ℕ → ℕ → Output

-- The packet on its way, the static variables of `ratelimit`, the subnets, `mymac`, the expiry times
-- of the subnets, `pcap`, and the calls made, the latest first.
pub record Traffic : Type 0 where
  pub packet : Packet
  pub lasttime : ℕ
  pub count : ℕ
  pub subnets : Subnets
  pub mymac : Bytes
  pub expires : Subnet → ℕ
  pub pcap : Bool
  pub log : List Output

-- The fields of `node_t` that routing reads; a pointer may be NULL.
pub record Node : Type 0 where
  pub mtu : ℕ
  pub options : ℕ
  pub reachable : Bool
  pub via : Option NodeId
  pub nexthop : Option NodeId

-- forwarding_mode: off, internal, kernel
pub data Forwarding : Type 0 where
  off internal kernel : Forwarding

-- Of a connection what `send_pcap` reads, and whether a request to it can be sent.
pub record Connection : Type 0 where
  pub pcap : Bool
  pub outmaclength : ℕ
  pub sends : Bool

-- routing_mode
pub data Mode : Type 0 where
  router switch hub : Mode

-- The settings, the clock, the nodes and their names, and `local_address`, the answer of connect and getsockname
-- of a new socket: the address of the local machine that an address is reached from.
pub record Network : Type 0 where
  pub myself : NodeId
  pub now : ℕ
  pub nodes : NodeId → Node
  pub node_named : Bytes → NodeId
  pub hash_seed : ℕ
  pub forwarding : Forwarding
  pub decrement_ttl : Bool
  pub directonly : Bool
  pub overwrite_mac : Bool
  pub priorityinheritance : Bool
  pub mode : Mode
  pub my_name : Bytes
  pub macexpire : ℕ
  pub connections : List Connection
  pub local_address : Bytes → Option Bytes
  pub local_address6 : Bytes → Option Bytes

abbrev pub ether_size : ℕ
ether_size = 14

abbrev pub ip_size : ℕ
ip_size = 20

abbrev pub icmp_size : ℕ
icmp_size = 8

abbrev pub ip6_size : ℕ
ip6_size = 40

abbrev pub icmp6_size : ℕ
icmp6_size = 8

abbrev pub send_packet : NodeId → Packet → Traffic → Traffic
send_packet n p s = record s { log = Output.sent n p ∷ s.log }

abbrev pub broadcast_packet : NodeId → Packet → Traffic → Traffic
broadcast_packet n p s = record s { log = Output.broadcast n p ∷ s.log }

abbrev pub checklength : Packet → ℕ → Bool
checklength p length = leb length p.len

-- True if this second's limit is used up.
unfoldable pub ratelimit : ℕ → ℕ → Traffic → Bool × Traffic
ratelimit now frequency s =
    if s.lasttime == now
    then (if leb frequency s.count then (true, s) else (false, record s { count = s.count + 1 }))
    else (false, record s { lasttime = now; count = 1 })
