-- ===== src/Route/Ipv6/Laws.antt =====
-- Where `route_ipv6` of src/route.c lets a packet go.
use mathlib.Core.Option
use tinc.Base.{ℕ, ◌+◌, ◌*◌, ◌/◌, ◌%◌, ◌≡◌, inl, inr, refl, not, Option, none, some, Bool-cases}
use tinc.Base.Bytes.{Bytes}
use tinc.Subnet.Compare.{Subnet}
use tinc.Subnet.Lookup.{lookup_subnet_ipv4, lookup_subnet_ipv6}
use tinc.Route.{byte, NodeId, Traffic, Network, ether_size, ip6_size, checklength}
use tinc.Route.Unreachable.{slice, route_ipv6_unreachable}
use tinc.Route.Fragment.{maximum}
use tinc.Route.Decide.{owner_reachable, relay, relay_mtu, shorten, send_on, route_ipv4}
use tinc.Route.Decide.Laws.{route_ipv4-Routed}
use tinc.Route.Laws.{
  owner_of, Routed, route_ipv6_unreachable-Answered, Ends, Stays, inherit-Ends, send_on-Ends,
  to_owner-Ends, route_broadcast-Ends,
}
use tinc.Route.Neighbor.Laws.{route_neighborsol-Replies}
use tinc.Route.Ipv6.{
  prohibited_ipv6, oversize_ipv6, forward_ipv6, to_owner_ipv6, by_owner_ipv6, by_subnet_ipv6,
  is_solicitation, route_ipv6,
}

module _ (net : Network) (source : NodeId) (found : Option Subnet) where
  answer :
      (type code : ℕ)
      → Stays net source 1294 found (route_ipv6_unreachable net source ether_size type code)
  answer type code s =
      Routed.answered (route_ipv6_unreachable-Answered net source ether_size type code s)

  to_owner_ipv6-Ends :
      (owner : NodeId)
      → owner_of net found ≡ some (some owner)
      → Stays net source 1294 found (to_owner_ipv6 net source owner)
  unfolding to_owner_ipv6 forward_ipv6 oversize_ipv6
  to_owner_ipv6-Ends owner own =
      let via = relay net owner in
      to_owner-Ends net source 1294 found owner own
        (route_ipv6_unreachable net source ether_size 1 0) (prohibited_ipv6 net source)
        (forward_ipv6 net source owner) (answer 1 0) (answer 1 1)
        (λ a b c s.
          inherit-Ends net source 1294 found (byte s.packet 14 % 16 * 16 + byte s.packet 15 / 16) s
            (send_on net source owner via 1294 (prohibited_ipv6 net source)
              (oversize_ipv6 net source via))
            (send_on-Ends net source 1294 found owner own (prohibited_ipv6 net source)
              (oversize_ipv6 net source via) (answer 1 1)
              (λ _ t. answer 2 0 (shorten (maximum (relay_mtu net via) 1294) t)) a b c))

by_subnet_ipv6-Routed :
    (net : Network) (source : NodeId) (found : Option Subnet)
    → Stays net source 1294 found (by_subnet_ipv6 net source found)
unfolding by_subnet_ipv6 by_owner_ipv6 owner_of
by_subnet_ipv6-Routed net source none s = answer net source none 1 3 s
by_subnet_ipv6-Routed net source (some subnet) s = by_owner subnet.owner refl
  where
    by_owner :
        (o : Option Bytes)
        → owner_of net (some subnet) ≡ some (Option.map net.node_named o)
        → Ends net source 1294 (some subnet) s.log (by_owner_ipv6 net source o s)
    by_owner none e = route_broadcast-Ends net source 1294 (some subnet) e s
    by_owner (some name) e = to_owner_ipv6-Ends net source (some subnet) (net.node_named name) e s

route_ipv6-Routed :
    (net : Network) (source : NodeId) (s : Traffic)
    → let found =
        (lookup_subnet_ipv6 net.hash_seed
          (owner_reachable net)
          (slice s.packet.cells 38 16)
          s.subnets).0 in
      Routed net source 1294 found s.log ((route_ipv6 net source s).log)
unfolding route_ipv6
route_ipv6-Routed net source s =
    let (found, subnets) =
      lookup_subnet_ipv6 net.hash_seed (owner_reachable net) (slice s.packet.cells 38 16)
        s.subnets in
    elim (Bool-cases (not (checklength s.packet (ether_size + ip6_size)))) [
      | inl a ↦ rw a (Routed.answered (inl refl))
      | inr a ↦ elim (Bool-cases (is_solicitation s.packet)) [
        | inl b ↦ rw (a, b) (Routed.answered (route_neighborsol-Replies net source s))
        | inr b ↦
            rw (a, b) (by_subnet_ipv6-Routed net source found (record s { subnets = subnets }))
      ]
    ]

-- Whatever the packet and the state, `route_ipv4` and `route_ipv6`, with the answers of
-- `route_neighborsol`, make calls of one of four kinds: at most one answer to `source`; a broadcast
-- if the subnet that was found for the destination has no owner; a packet to the owner of that
-- subnet, which is not longer than the MTU of the relay or 590 bytes (1294 for IPv6), whichever is
-- more, unless there is no relay or it is this node; or any number of packets to the relay, as the
-- fragments. In the last two cases the owner is not `source` and is reachable, the relay is not
-- `source`, and the settings `Forwarding` and `DirectOnly` let the packet pass.
pub route_ip-Routed :
    (net : Network) (source : NodeId) (s : Traffic)
    → let found =
        (lookup_subnet_ipv4 net.hash_seed
          (owner_reachable net)
          (slice s.packet.cells 30 4)
          s.subnets).0 in
      let found6 =
        (lookup_subnet_ipv6 net.hash_seed
          (owner_reachable net)
          (slice s.packet.cells 38 16)
          s.subnets).0 in
      Routed net source 590 found s.log ((route_ipv4 net source s).log)
      × Routed net source 1294 found6 s.log ((route_ipv6 net source s).log)
route_ip-Routed net source s = (route_ipv4-Routed net source s, route_ipv6-Routed net source s)
