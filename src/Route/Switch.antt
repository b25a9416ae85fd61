-- ===== src/Route/Switch.antt =====
-- The switch of src/route.c, `learn_mac`, `age_subnets` and `route_mac`, and `send_pcap` and `route`.
pub mod Laws
use tinc.Base.{
  ℕ, ◌+◌, ◌*◌, ◌/◌, ◌%◌, Bool, true, false, not, ◌&&◌, ◌||◌, Option, none, some, List, [], ◌∷◌, ltb,
  leb, ◌==◌, if◌then◌else◌,
}
use tinc.Base.Bits.{bit}
use tinc.Base.Bytes.{Bytes}
use tinc.Subnet.{pos}
use tinc.Subnet.Compare
use tinc.Subnet.Compare.{Subnet, subnet_compare}
use tinc.Subnet.Lookup.{is_zero, tree_of, lookup_subnet_mac, subnet_add, subnet_del}
use tinc.Route.{
  Packet, Connection, byte, word, NodeId, Node, Output, Traffic, Network, Forwarding, Mode,
  ether_size, ip_size, ip6_size, checklength, send_packet,
}
use tinc.Route.Unreachable.{slice, route_ipv4_unreachable, route_ipv6_unreachable}
use tinc.Route.Ttl.{do_decrement_ttl}
use tinc.Route.Fragment.{fragment_ipv4_packet}
use tinc.Route.Decide.{
  is_off, points_to, owner_reachable, route_broadcast, relay, relay_mtu, shorten, inherit,
  clamp_and_send, route_ipv4,
}
use tinc.Route.Neighbor.{route_arp}
use tinc.Route.Ipv6.{route_ipv6}

abbrev pub note : Output → Traffic → Traffic
note output s = record s { log = output ∷ s.log }

-- A subnet is the one that compares as equal.
abbrev pub expire_at : Subnet → ℕ → Traffic → Traffic
expire_at subnet time s = record s {
  expires = λ x. if is_zero (subnet_compare x subnet) then time else s.expires x;
}

-- The subnet of one hardware address that this node owns.
abbrev pub learned : Network → Bytes → Subnet
learned net address = record {
  owner = some net.my_name;
  weight = pos 10;
  net = Compare.Net.mac address;
}

unfoldable pub learn_new : Network → Bytes → Traffic → Traffic
learn_new net address s =
    let subnet = learned net address in
    let added = record s {
      subnets = subnet_add net.hash_seed (some net.my_name) subnet s.subnets;
    } in
    note (Output.timer 10) (
      note (Output.announced subnet)
        (note (Output.updated subnet) (expire_at subnet (net.now + net.macexpire) added)))

-- By what the lookup gave.
unfoldable pub learn_found : Network → Bytes → Option Subnet → Traffic → Traffic
learn_found net address none s = learn_new net address s
learn_found net address (some subnet) s =
    if s.expires subnet == 0 then s else expire_at subnet (net.now + net.macexpire) s

unfoldable pub learn_mac : Network → Bytes → Traffic → Traffic
learn_mac net address s =
    let (found, subnets) =
      lookup_subnet_mac net.hash_seed (owner_reachable net) (some net.my_name) address s.subnets in
    learn_found net address found (record s { subnets = subnets })

-- The loop of `age_subnets`; its result says if any subnet is left that expires.
unfoldable pub age_loop : Network → List Subnet → Bool → Traffic → Bool × Traffic
age_loop net [] left s = (left, s)
age_loop net (x ∷ tree) left s =
    let expiring = not (s.expires x == 0) in
    let old = expiring && ltb (s.expires x) net.now in
    age_loop net tree (if old then left else left || expiring) (
      if old
      then record s {
        subnets = subnet_del net.hash_seed x s.subnets;
        log = Output.withdrawn x ∷ s.log;
      }
      else s)

unfoldable pub age_subnets : Network → Traffic → Traffic
age_subnets net s =
    let (left, s') = age_loop net (tree_of (some net.my_name) s.subnets.tree) false s in
    if left then note (Output.timer 10) s' else s'

-- The priority that a packet in a frame of a type carries.
unfoldable pub inherit_by_type : Network → ℕ → Traffic → Traffic
inherit_by_type net type s =
    if type == 2048 && leb (ether_size + ip_size) s.packet.len
    then inherit net (byte s.packet 15) s
    else (if type == 34525 && leb (ether_size + ip6_size) s.packet.len
        then inherit net (byte s.packet 14 % 16 * 16 + byte s.packet 15 / 16) s
        else s)

-- A packet longer than the relay takes: an answer, fragments, or `otherwise`, for a type of packet
-- whose header is at `ethlen`.
unfoldable pub oversize_frame :
    Network → NodeId → NodeId → ℕ → ℕ → (Traffic → Traffic) → Traffic → Traffic
oversize_frame net source via type ethlen otherwise s =
    let mtu = (net.nodes via).mtu in
    if type == 2048 && ltb (576 + ethlen) s.packet.len
    then (if bit (byte s.packet (6 + ethlen)) 6
        then route_ipv4_unreachable net source ethlen 3 4 (shorten mtu s)
        else fragment_ipv4_packet net via ethlen s)
    else (if type == 34525 && ltb (1280 + ethlen) s.packet.len
        then route_ipv6_unreachable net source ethlen 2 0 (shorten mtu s)
        else otherwise s)

unfoldable pub send_frame : Network → NodeId → NodeId → Option NodeId → Traffic → Traffic
send_frame net source owner none s = clamp_and_send net source owner none s
send_frame net source owner (some via) s =
    let send = clamp_and_send net source owner (some via) in
    if not (ltb ((net.nodes via).mtu) s.packet.len) || via == net.myself
    then send s
    else (if word s.packet 12 == 33024
        then oversize_frame net source via (word s.packet 16) (ether_size + 4) send s
        else oversize_frame net source via (word s.packet 12) ether_size send s)

-- The end of `route_mac`, from the priority on.
unfoldable pub forward_mac : Network → NodeId → NodeId → Traffic → Traffic
forward_mac net source owner s =
    let via = relay net owner in
    let s1 = inherit_by_type net (word s.packet 12) s in
    if net.directonly && not (points_to via owner) then s1 else send_frame net source owner via s1

unfoldable pub to_owner_mac : Network → NodeId → NodeId → Traffic → Traffic
to_owner_mac net source owner s =
    let transit = not (source == net.myself) && not (owner == net.myself) in
    if owner == source || is_off net.forwarding && transit
    then s
    else (if net.decrement_ttl && transit
        then (let (alive, s') = do_decrement_ttl net source s in
            if alive then forward_mac net source owner s' else s')
        else forward_mac net source owner s)

unfoldable pub by_owner_mac : Network → NodeId → Option Bytes → Traffic → Traffic
by_owner_mac net source none s = route_broadcast net source s
by_owner_mac net source (some name) s = to_owner_mac net source (net.node_named name) s

unfoldable pub by_subnet_mac : Network → NodeId → Option Subnet → Traffic → Traffic
by_subnet_mac net source none s = route_broadcast net source s
by_subnet_mac net source (some subnet) s = by_owner_mac net source subnet.owner s

unfoldable pub route_mac : Network → NodeId → Traffic → Traffic
route_mac net source s =
    let s1 = if source == net.myself then learn_mac net (slice s.packet.cells 6 6) s else s in
    let (found, subnets) =
      lookup_subnet_mac net.hash_seed (owner_reachable net) none (slice s.packet.cells 0 6)
        s1.subnets in
    by_subnet_mac net source found (record s1 { subnets = subnets })

-- The loop of `send_pcap`: `n` is the number of the connection. A request that cannot be sent is
-- not followed by the packet.
unfoldable pub pcap_loop : ℕ → List Connection → Traffic → Traffic
pcap_loop n [] s = s
pcap_loop n (c ∷ connections) s =
    let len = s.packet.len in
    let cut = if not (c.outmaclength == 0) && ltb c.outmaclength len then c.outmaclength else len in
    let marked = record s { pcap = true } in
    pcap_loop (n + 1) connections
      (if c.pcap then (if c.sends then note (Output.captured n cut) marked else marked) else s)

unfoldable pub send_pcap : Network → Traffic → Traffic
send_pcap net s = pcap_loop 0 net.connections (record s { pcap = false })

abbrev pub is_kernel : Forwarding → Bool
is_kernel Forwarding.kernel = true
is_kernel _ = false

-- By the type of the frame in router mode.
unfoldable pub route_by_type : Network → NodeId → ℕ → Traffic → Traffic
route_by_type net source type s =
    if type == 2054
    then route_arp net source s
    else (if type == 2048
        then route_ipv4 net source s
        else (if type == 34525 then route_ipv6 net source s else s))

unfoldable pub route_by_mode : Network → NodeId → Mode → Traffic → Traffic
route_by_mode net source Mode.router s = route_by_type net source (word s.packet 12) s
route_by_mode net source Mode.switch s = route_mac net source s
route_by_mode net source Mode.hub s = route_broadcast net source s

unfoldable pub route : Network → NodeId → Traffic → Traffic
route net source s =
    let s1 = if s.pcap then send_pcap net s else s in
    if is_kernel net.forwarding && not (source == net.myself)
    then send_packet net.myself s1.packet s1
    else (if not (checklength s1.packet ether_size)
        then s1
        else route_by_mode net source net.mode s1)
