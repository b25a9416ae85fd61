-- ===== src/Route/Decide.antt =====
-- `route_broadcast`, `route_ipv4` and `route_ipv6` of src/route.c: where a packet goes.
pub mod Laws
use tinc.Base.{
  ℕ, ◌+◌, ◌*◌, ◌/◌, ◌%◌, Bool, true, false, not, ◌&&◌, ◌||◌, Option, none, some, leb, ltb, ◌==◌,
  if◌then◌else◌,
}
use tinc.Base.Bits.{bit}
use tinc.Base.Bytes.{Bytes}
use tinc.Subnet.Compare.{Subnet}
use tinc.Subnet.Lookup.{lookup_subnet_ipv4, lookup_subnet_ipv6}
use tinc.Route.{
  Packet, byte, word, NodeId, Node, Traffic, Network, Forwarding, ether_size, ip_size, ip6_size,
  icmp6_size, checklength, send_packet, broadcast_packet,
}
use tinc.Route.Unreachable.{slice, route_ipv4_unreachable, route_ipv6_unreachable}
use tinc.Route.Ttl.{do_decrement_ttl}
use tinc.Route.Mss.{clamp_mss}
use tinc.Route.Fragment.{maximum, fragment_ipv4_packet}

abbrev pub is_off : Forwarding → Bool
is_off Forwarding.off = true
is_off _ = false

-- Equality of a pointer that may be NULL with a node.
abbrev pub points_to : Option NodeId → NodeId → Bool
points_to none n = false
points_to (some m) n = m == n

abbrev pub owner_reachable : Network → Bytes → Bool
owner_reachable net name = (net.nodes (net.node_named name)).reachable

unfoldable pub route_broadcast : Network → NodeId → Traffic → Traffic
route_broadcast net source s =
    if net.decrement_ttl && not (source == net.myself)
    then (let (alive, s') = do_decrement_ttl net source s in
        if alive then broadcast_packet source s'.packet s' else s')
    else broadcast_packet source s.packet s

-- `via`: the relay on the way to the owner.
unfoldable pub relay : Network → NodeId → Option NodeId
relay net owner =
    if points_to (net.nodes owner).via net.myself
    then (net.nodes owner).nexthop
    else (net.nodes owner).via

-- A packet that is not for this node and is longer than `limit` and than its relay takes.
unfoldable pub too_long : Network → Option NodeId → ℕ → Packet → Bool
too_long net none limit p = false
too_long net (some via) limit p =
    ltb (maximum ((net.nodes via).mtu) limit) p.len && not (via == net.myself)

abbrev pub relay_mtu : Network → Option NodeId → ℕ
relay_mtu net none = 0
relay_mtu net (some via) = (net.nodes via).mtu

-- `clamp_mss` and `send_packet` to the owner.
unfoldable pub clamp_and_send : Network → NodeId → NodeId → Option NodeId → Traffic → Traffic
clamp_and_send net source owner via s =
    let p = clamp_mss net source via s.packet in send_packet owner p (record s { packet = p })

unfoldable pub fragment_to : Network → Option NodeId → Traffic → Traffic
fragment_to net none s = s
fragment_to net (some via) s = fragment_ipv4_packet net via ether_size s

abbrev pub shorten : ℕ → Traffic → Traffic
shorten len s = record s { packet = record (s.packet) { len = len } }

abbrev pub inherit : Network → ℕ → Traffic → Traffic
inherit net priority s =
    if net.priorityinheritance
    then record s { packet = record (s.packet) { priority = priority } }
    else s

-- The end of `route_ipv4` and `route_ipv6`, from the test for a routing loop on: what they do with
-- a packet that must not pass, with one that is longer than `limit`, and with any other.
unfoldable pub send_on :
    Network
    → NodeId
    → NodeId
    → Option NodeId
    → ℕ
    → (Traffic → Traffic)
    → (Traffic → Traffic)
    → Traffic
    → Traffic
send_on net source owner via limit prohibited oversize s =
    if points_to via source
    then s
    else (if net.directonly && not (points_to via owner)
        then prohibited s
        else (if too_long net via limit s.packet
            then oversize s
            else clamp_and_send net source owner via s))

-- A subnet was found and has an owner: what the two functions do if it is not reachable, if the
-- packet must not pass, and else.
unfoldable pub to_owner :
    Network
    → NodeId
    → NodeId
    → (Traffic → Traffic)
    → (Traffic → Traffic)
    → (Traffic → Traffic)
    → Traffic
    → Traffic
to_owner net source owner noroute prohibited forward s =
    let transit = not (source == net.myself) && not (owner == net.myself) in
    if owner == source
    then s
    else (if not ((net.nodes owner).reachable)
        then noroute s
        else (if is_off net.forwarding && transit
            then prohibited s
            else (if net.decrement_ttl && transit
                then (let (alive, s') = do_decrement_ttl net source s in
                    if alive then forward s' else s')
                else forward s)))

abbrev pub prohibited_ipv4 : Network → NodeId → Traffic → Traffic
prohibited_ipv4 net source = route_ipv4_unreachable net source ether_size 3 9

-- A packet that must not be fragmented is answered with the MTU.
unfoldable pub oversize_ipv4 : Network → NodeId → Option NodeId → Traffic → Traffic
oversize_ipv4 net source via s =
    if bit (byte s.packet 20) 6
    then route_ipv4_unreachable net source ether_size 3 4
        (shorten (maximum (relay_mtu net via) 590) s)
    else fragment_to net via s

unfoldable pub forward_ipv4 : Network → NodeId → NodeId → Traffic → Traffic
forward_ipv4 net source owner s =
    let via = relay net owner in
    send_on net source owner via 590 (prohibited_ipv4 net source) (oversize_ipv4 net source via)
      (inherit net (byte s.packet 15) s)

unfoldable pub to_owner_ipv4 : Network → NodeId → NodeId → Traffic → Traffic
to_owner_ipv4 net source owner =
    to_owner net source owner (route_ipv4_unreachable net source ether_size 3 0)
      (prohibited_ipv4 net source) (forward_ipv4 net source owner)

-- By the owner of the subnet, and by what the lookup gave.
unfoldable pub by_owner_ipv4 : Network → NodeId → Option Bytes → Traffic → Traffic
by_owner_ipv4 net source none s = route_broadcast net source s
by_owner_ipv4 net source (some name) s = to_owner_ipv4 net source (net.node_named name) s

unfoldable pub by_subnet_ipv4 : Network → NodeId → Option Subnet → Traffic → Traffic
by_subnet_ipv4 net source none s = route_ipv4_unreachable net source ether_size 3 6 s
by_subnet_ipv4 net source (some subnet) s = by_owner_ipv4 net source subnet.owner s

unfoldable pub route_ipv4 : Network → NodeId → Traffic → Traffic
route_ipv4 net source s =
    if not (checklength s.packet (ether_size + ip_size))
    then s
    else (let (found, subnets) =
          lookup_subnet_ipv4 net.hash_seed (owner_reachable net) (slice s.packet.cells 30 4)
            s.subnets in
        by_subnet_ipv4 net source found (record s { subnets = subnets }))
