-- ===== src/Route/Decide/Laws.antt =====
-- Where `route_ipv4` of src/route.c lets a packet go.
use tinc.Base.{
  ℕ, zero, suc, ◌+◌, ◌-◌, ◌/◌, ◌%◌, ◌^◌, ◌≡◌, inl, inr, refl, not, Option, none, some, length, drop,
  take, ltb, ◌==◌, if◌then◌else◌, bit_or, Bool-cases, if_intro,
}
use mathlib.Core.Option
use tinc.Base.Bits.{bit}
use tinc.Base.Bytes.{Bytes}
use tinc.Subnet.Compare.{Subnet}
use tinc.Subnet.Lookup.{lookup_subnet_ipv4}
use tinc.Route.{
  Packet, NodeId, Traffic, Network, ether_size, ip_size, checklength, send_packet, word, byte,
}
use tinc.Route.Unreachable.{slice, route_ipv4_unreachable}
use tinc.Route.Fragment.{fragment, maximum, fragment_loop, fragment_room, fragment_ipv4_packet}
use tinc.Route.Decide.{
  owner_reachable, relay, relay_mtu, fragment_to, shorten, send_on, prohibited_ipv4, oversize_ipv4,
  forward_ipv4, to_owner_ipv4, by_owner_ipv4, by_subnet_ipv4, route_ipv4,
}
use tinc.Route.Laws.{
  SentTo, owner_of, Allowed, Routed, route_ipv4_unreachable-Answered, Ends, Stays, inherit-Ends,
  send_on-Ends, to_owner-Ends, route_broadcast-Ends,
}

fragment_loop-SentTo :
    (rounds : ℕ) (dest : NodeId) (p : Packet) (ether_size : ℕ) (ip : Bytes) (maxlen origf : ℕ)
    (payload : Bytes) (ip_off : ℕ) (s : Traffic)
    → SentTo dest s.log
        ((fragment_loop rounds dest p ether_size ip maxlen origf payload ip_off s).log)
unfolding fragment_loop
fragment_loop-SentTo zero dest p ether_size ip maxlen origf payload ip_off s = SentTo.no_more
fragment_loop-SentTo (suc rounds) dest p ether_size ip maxlen origf payload ip_off s =
    let len : ℕ = if ltb maxlen (length payload) then maxlen else length payload in
    let more : ℕ = if ltb len (length payload) then 8192 else 0 in
    let q = fragment p ether_size ip (take len payload) (bit_or (bit_or ip_off origf) more) in
    let rest =
      fragment_loop-SentTo rounds dest p ether_size ip maxlen origf (drop len payload)
        ((ip_off + len / 8) % 2 ^ 16) (send_packet dest q s) in
    elim (Bool-cases (length payload == 0)) [
      | inl e ↦ rw e SentTo.no_more
      | inr e ↦ rw e (SentTo.one_more q rest)
    ]

fragment_ipv4_packet-SentTo :
    (net : Network) (dest : NodeId) (ether_size : ℕ) (s : Traffic)
    → SentTo dest s.log ((fragment_ipv4_packet net dest ether_size s).log)
unfolding fragment_ipv4_packet
fragment_ipv4_packet-SentTo net dest ether_size s =
    let p = s.packet in
    let todo = (word p (ether_size + 2) + 2 ^ 64 - ip_size) % 2 ^ 64 in
    let off = word p (ether_size + 6) in
    let sent =
      fragment_loop-SentTo todo dest p ether_size (slice p.cells ether_size ip_size)
        (fragment_room ((net.nodes dest).mtu) ether_size) (off - off % 8192)
        (slice p.cells (ether_size + ip_size) todo) (off % 8192) s in
    elim (Bool-cases (byte p ether_size % 16 == 5)) [
      | inl e ↦ elim (Bool-cases ((ether_size + ip_size + todo) % 2 ^ 64 == p.len)) [
        | inl f ↦ rw (e, f) sent
        | inr f ↦ rw (e, f) SentTo.no_more
      ]
      | inr e ↦ rw e SentTo.no_more
    ]

-- The IPv4 messages and the fragments.
module _ (net : Network) (source owner : NodeId) (found : Option Subnet)
    (own : owner_of net found ≡ some (some owner)) where
  oversize_ipv4-Ends :
      (via : Option NodeId)
      → relay net owner ≡ via
      → Allowed net source owner
      → Stays net source 590 found (oversize_ipv4 net source via)
  unfolding oversize_ipv4 fragment_to
  oversize_ipv4-Ends none e allowed s =
      if_intro (λ (t : Traffic). Ends net source 590 found s.log t) (bit (byte s.packet 20) 6)
        (Routed.answered
          (route_ipv4_unreachable-Answered net source ether_size 3 4 (shorten 590 s)))
        (Routed.answered (inl refl))
  oversize_ipv4-Ends (some via) e allowed s =
      if_intro (λ (t : Traffic). Ends net source 590 found s.log t) (bit (byte s.packet 20) 6)
        (Routed.answered (
          route_ipv4_unreachable-Answered net source ether_size 3 4
            (shorten (maximum (relay_mtu net (some via)) 590) s)))
        (Routed.fragmented own allowed e (fragment_ipv4_packet-SentTo net via ether_size s))

  to_owner_ipv4-Ends : Stays net source 590 found (to_owner_ipv4 net source owner)
  unfolding to_owner_ipv4 forward_ipv4
  to_owner_ipv4-Ends =
      let answer : (code : ℕ)
          → Stays net source 590 found (route_ipv4_unreachable net source ether_size 3 code) =
        λ code s.
          Routed.answered (route_ipv4_unreachable-Answered net source ether_size 3 code s) in
      to_owner-Ends net source 590 found owner own
        (route_ipv4_unreachable net source ether_size 3 0) (prohibited_ipv4 net source)
        (forward_ipv4 net source owner) (answer 0) (answer 9)
        (λ a b c s.
          inherit-Ends net source 590 found (byte s.packet 15) s
            (send_on net source owner (relay net owner) 590 (prohibited_ipv4 net source)
              (oversize_ipv4 net source (relay net owner)))
            (send_on-Ends net source 590 found owner own (prohibited_ipv4 net source)
              (oversize_ipv4 net source (relay net owner)) (answer 9)
              (oversize_ipv4-Ends (relay net owner) refl) a b c))

by_subnet_ipv4-Routed :
    (net : Network) (source : NodeId) (found : Option Subnet)
    → Stays net source 590 found (by_subnet_ipv4 net source found)
unfolding by_subnet_ipv4 by_owner_ipv4 owner_of
by_subnet_ipv4-Routed net source none s =
    Routed.answered (route_ipv4_unreachable-Answered net source ether_size 3 6 s)
by_subnet_ipv4-Routed net source (some subnet) s = by_owner subnet.owner refl
  where
    by_owner :
        (o : Option Bytes)
        → owner_of net (some subnet) ≡ some (Option.map net.node_named o)
        → Ends net source 590 (some subnet) s.log (by_owner_ipv4 net source o s)
    by_owner none e = route_broadcast-Ends net source 590 (some subnet) e s
    by_owner (some name) e = to_owner_ipv4-Ends net source (net.node_named name) (some subnet) e s

pub route_ipv4-Routed :
    (net : Network) (source : NodeId) (s : Traffic)
    → let found =
        (lookup_subnet_ipv4 net.hash_seed
          (owner_reachable net)
          (slice s.packet.cells 30 4)
          s.subnets).0 in
      Routed net source 590 found s.log ((route_ipv4 net source s).log)
unfolding route_ipv4
route_ipv4-Routed net source s =
    let (found, subnets) =
      lookup_subnet_ipv4 net.hash_seed (owner_reachable net) (slice s.packet.cells 30 4)
        s.subnets in
    elim (Bool-cases (not (checklength s.packet (ether_size + ip_size)))) [
      | inl a ↦ rw a (Routed.answered (inl refl))
      | inr a ↦ rw a (by_subnet_ipv4-Routed net source found (record s { subnets = subnets }))
    ]
