-- ===== src/Route/Ipv6.antt =====
-- `route_ipv6` of src/route.c: where an IPv6 packet goes.
pub mod Laws
use tinc.Base.{
  ℕ, ◌+◌, ◌*◌, ◌/◌, ◌%◌, Bool, true, false, not, ◌&&◌, Option, none, some, ◌==◌, if◌then◌else◌,
}
use tinc.Base.Bytes.{Bytes}
use tinc.Subnet.Compare.{Subnet}
use tinc.Subnet.Lookup.{lookup_subnet_ipv6}
use tinc.Route.{
  Packet, byte, NodeId, Node, Traffic, Network, ether_size, ip6_size, icmp6_size, checklength,
}
use tinc.Route.Unreachable.{slice, route_ipv6_unreachable}
use tinc.Route.Ttl.{do_decrement_ttl}
use tinc.Route.Fragment.{maximum}
use tinc.Route.Decide.{
  is_off, points_to, owner_reachable, route_broadcast, relay, relay_mtu, shorten, inherit, send_on,
  to_owner,
}
use tinc.Route.Neighbor.{route_neighborsol}

abbrev pub prohibited_ipv6 : Network → NodeId → Traffic → Traffic
prohibited_ipv6 net source = route_ipv6_unreachable net source ether_size 1 1

unfoldable pub oversize_ipv6 : Network → NodeId → Option NodeId → Traffic → Traffic
oversize_ipv6 net source via s =
    route_ipv6_unreachable net source ether_size 2 0 (shorten (maximum (relay_mtu net via) 1294) s)

unfoldable pub forward_ipv6 : Network → NodeId → NodeId → Traffic → Traffic
forward_ipv6 net source owner s =
    let via = relay net owner in
    send_on net source owner via 1294 (prohibited_ipv6 net source) (oversize_ipv6 net source via)
      (inherit net (byte s.packet 14 % 16 * 16 + byte s.packet 15 / 16) s)

unfoldable pub to_owner_ipv6 : Network → NodeId → NodeId → Traffic → Traffic
to_owner_ipv6 net source owner =
    to_owner net source owner (route_ipv6_unreachable net source ether_size 1 0)
      (prohibited_ipv6 net source) (forward_ipv6 net source owner)

unfoldable pub by_owner_ipv6 : Network → NodeId → Option Bytes → Traffic → Traffic
by_owner_ipv6 net source none s = route_broadcast net source s
by_owner_ipv6 net source (some name) s = to_owner_ipv6 net source (net.node_named name) s

unfoldable pub by_subnet_ipv6 : Network → NodeId → Option Subnet → Traffic → Traffic
by_subnet_ipv6 net source none s = route_ipv6_unreachable net source ether_size 1 3 s
by_subnet_ipv6 net source (some subnet) s = by_owner_ipv6 net source subnet.owner s

-- A neighbor solicitation is not routed.
abbrev pub is_solicitation : Packet → Bool
is_solicitation p =
    byte p 20 == 58 && checklength p (ether_size + ip6_size + icmp6_size) && byte p 54 == 135

unfoldable pub route_ipv6 : Network → NodeId → Traffic → Traffic
route_ipv6 net source s =
    if not (checklength s.packet (ether_size + ip6_size))
    then s
    else (if is_solicitation s.packet
        then route_neighborsol net source s
        else (let (found, subnets) =
              lookup_subnet_ipv6 net.hash_seed (owner_reachable net) (slice s.packet.cells 38 16)
                s.subnets in
            by_subnet_ipv6 net source found (record s { subnets = subnets })))
