-- ===== src/Route/Laws.antt =====
-- What the routing functions of src/route.c can make of a packet: the calls that they make.
use tinc.Base.{
  ℕ, ◌+◌, ◌≡◌, ◌⊎◌, inl, inr, refl, Bool, true, false, not, ◌&&◌, Option, none, some, List, ◌∷◌,
  ◌==◌, if◌then◌else◌, arith, Bool-cases, if_intro, ap,
}
use mathlib.Core.Path.{subst}
use mathlib.Core.Option
use tinc.Subnet.Compare.{Subnet}
use tinc.Route.{
  Packet, NodeId, Output, Traffic, Network, ether_size, broadcast_packet, ratelimit, word,
}
use tinc.Route.Unreachable.{route_ipv4_unreachable, route_ipv6_unreachable}
use tinc.Route.Ttl.{ttl_ipv4, ttl_ipv6, ttl_by_type, do_decrement_ttl}
use tinc.Route.Mss.{clamp_mss}
use tinc.Route.Mss.Length.{clamp_mss-len}
use tinc.Route.Decide.{
  is_off, points_to, route_broadcast, relay, too_long, clamp_and_send, inherit, send_on, to_owner,
}

-- No call, or one that sends a packet to `source`.
abbrev pub Answered : NodeId → List Output → List Output → Type 0
Answered source log log' = (log' ≡ log) ⊎ ((q : Packet) × (log' ≡ Output.sent source q ∷ log))

-- Any number of calls, each of which sends a packet to `dest`.
pub data SentTo (dest : NodeId) : List Output → List Output → Type 0 where
  no_more : {log : List Output} → SentTo dest log log
  one_more :
      {log log' : List Output} (q : Packet)
      → SentTo dest (Output.sent dest q ∷ log) log'
      → SentTo dest log log'

-- The node that owns the subnet that was found: no subnet, a subnet that nobody owns, or a node.
unfoldable pub owner_of : Network → Option Subnet → Option (Option NodeId)
owner_of net none = none
owner_of net (some subnet) = some (Option.map net.node_named subnet.owner)

-- The owner is not the source and is reachable, nor is its relay the source, and both the settings
-- `Forwarding` and `DirectOnly` let this node send a packet from one to the other.
unfoldable pub Allowed : Network → NodeId → NodeId → Type 0
Allowed net source owner =
    ((owner == source) ≡ false)
    × ((net.nodes owner).reachable ≡ true)
    × ((is_off net.forwarding && (not (source == net.myself) && not (owner == net.myself))) ≡ false)
    × (points_to (relay net owner) source ≡ false)
    × ((net.directonly && not (points_to (relay net owner) owner)) ≡ false)

-- What can become of a packet from `source`, as the calls before and after; `limit` is the least
-- length that is too long for a relay.
pub data Routed (net : Network) (source : NodeId) (limit : ℕ) (found : Option Subnet)
    (log log' : List Output) : Type 0 where
  answered : Answered source log log' → Routed net source limit found log log'
  flooded :
      {q : Packet}
      → owner_of net found ≡ some none
      → log' ≡ Output.broadcast source q ∷ log
      → Routed net source limit found log log'
  delivered :
      {owner : NodeId} {q : Packet}
      → owner_of net found ≡ some (some owner)
      → Allowed net source owner
      → too_long net (relay net owner) limit q ≡ false
      → log' ≡ Output.sent owner q ∷ log
      → Routed net source limit found log log'
  fragmented :
      {owner via : NodeId}
      → owner_of net found ≡ some (some owner)
      → Allowed net source owner
      → relay net owner ≡ some via
      → SentTo via log log'
      → Routed net source limit found log log'

pub route_ipv4_unreachable-Answered :
    (net : Network) (source : NodeId) (ether_size type code : ℕ) (s : Traffic)
    → Answered source s.log ((route_ipv4_unreachable net source ether_size type code s).log)
unfolding route_ipv4_unreachable ratelimit
route_ipv4_unreachable-Answered net source ether_size type code s = ground arith

pub route_ipv6_unreachable-Answered :
    (net : Network) (source : NodeId) (ether_size type code : ℕ) (s : Traffic)
    → Answered source s.log ((route_ipv6_unreachable net source ether_size type code s).log)
unfolding route_ipv6_unreachable ratelimit
route_ipv6_unreachable-Answered net source ether_size type code s = ground arith

-- A packet that goes on has caused no call.
abbrev pub Tested : NodeId → List Output → Bool × Traffic → Type 0
Tested source log r = (r.0 ≡ true → r.1.log ≡ log) × Answered source log (r.1.log)

module _ (net : Network) (source : NodeId) (s : Traffic) where
  ttl_ipv4-Tested : (ethlen : ℕ) → Tested source s.log (ttl_ipv4 net source ethlen s)
  unfolding ttl_ipv4
  ttl_ipv4-Tested ethlen = ground (arith, route_ipv4_unreachable-Answered net source ethlen 11 0 s)

  ttl_ipv6-Tested : (ethlen : ℕ) → Tested source s.log (ttl_ipv6 net source ethlen s)
  unfolding ttl_ipv6
  ttl_ipv6-Tested ethlen = ground (arith, route_ipv6_unreachable-Answered net source ethlen 3 0 s)

  ttl_by_type-Tested :
      (type ethlen : ℕ) → Tested source s.log (ttl_by_type net source type ethlen s)
  unfolding ttl_by_type
  ttl_by_type-Tested type ethlen =
      if_intro (Tested source s.log) (type == 2048) (ttl_ipv4-Tested ethlen) (
        if_intro (Tested source s.log) (type == 34525) (ttl_ipv6-Tested ethlen)
          ((λ _. refl), inl refl))

  pub do_decrement_ttl-Tested : Tested source s.log (do_decrement_ttl net source s)
  unfolding do_decrement_ttl
  do_decrement_ttl-Tested =
      if_intro (Tested source s.log) (word s.packet 12 == 33024)
        (ttl_by_type-Tested (word s.packet 16) (ether_size + 4))
        (ttl_by_type-Tested (word s.packet 12) ether_size)

too_long-len :
    (net : Network) (via : Option NodeId) (limit : ℕ) (p q : Packet)
    → q.len ≡ p.len
    → too_long net via limit p ≡ false
    → too_long net via limit q ≡ false
unfolding too_long
too_long-len net none limit p q e h = refl
too_long-len net (some via) limit p q e h = rw e h

module _ (net : Network) (source : NodeId) (limit : ℕ) (found : Option Subnet) where
  -- What a step that ends with `s` makes of the calls before.
  abbrev pub Ends : List Output → Traffic → Type 0
  Ends log s = Routed net source limit found log (s.log)

  -- The step `f` from every state.
  abbrev pub Stays : (Traffic → Traffic) → Type 0
  Stays f = (s : Traffic) → Ends s.log (f s)

  inherit-log : (priority : ℕ) (s : Traffic) → (inherit net priority s).log ≡ s.log
  inherit-log priority s =
      if_intro (λ (s' : Traffic). s'.log ≡ s.log) net.priorityinheritance refl refl

  pub inherit-Ends :
      (priority : ℕ) (s : Traffic) (f : Traffic → Traffic)
      → Stays f
      → Ends s.log (f (inherit net priority s))
  inherit-Ends priority s f h =
      subst (λ log. Ends log (f (inherit net priority s))) (inherit-log priority s)
        (h (inherit net priority s))

  -- After the TTL was looked at: a packet that is dropped has been answered at most.
  Tested-Ends :
      (s : Traffic) (r : Bool × Traffic) (f : Traffic → Traffic)
      → Tested source s.log r
      → Stays f
      → Ends s.log (if r.0 then f r.1 else r.1)
  Tested-Ends s (true, t) f h go = subst (λ log. Ends log (f t)) (h.0 refl) (go t)
  Tested-Ends s (false, t) f h go = Routed.answered h.1

  module _ (owner : NodeId) (own : owner_of net found ≡ some (some owner)) where
    pub send_on-Ends :
        (prohibited oversize : Traffic → Traffic)
        → Stays prohibited
        → (Allowed net source owner → Stays oversize)
        → (owner == source) ≡ false
        → (net.nodes owner).reachable ≡ true
        → (is_off net.forwarding && (not (source == net.myself) && not (owner == net.myself)))
          ≡ false
        → Stays (send_on net source owner (relay net owner) limit prohibited oversize)
    unfolding send_on clamp_and_send Allowed
    send_on-Ends prohibited oversize p o other alive open_way s =
        let via = relay net owner in
        elim (Bool-cases (points_to via source)) [
          | inl a ↦ rw a (Routed.answered (inl refl))
          | inr a ↦ elim (Bool-cases (net.directonly && not (points_to via owner))) [
            | inl b ↦ rw (a, b) (p s)
            | inr b ↦ elim (Bool-cases (too_long net via limit s.packet)) [
              | inl c ↦ rw (a, b, c) (o (other, alive, open_way, a, b) s)
              | inr c ↦
                  rw (a, b, c)
                    (Routed.delivered own (other, alive, open_way, a, b)
                      (too_long-len net via limit s.packet (clamp_mss net source via s.packet)
                        (clamp_mss-len net source via s.packet) c)
                      refl)
            ]
          ]
        ]

    pub to_owner-Ends :
        (noroute prohibited forward : Traffic → Traffic)
        → Stays noroute
        → Stays prohibited
        → ((owner == source) ≡ false
            → (net.nodes owner).reachable ≡ true
            → (is_off net.forwarding && (not (source == net.myself) && not (owner == net.myself)))
              ≡ false
            → Stays forward)
        → Stays (to_owner net source owner noroute prohibited forward)
    unfolding to_owner
    to_owner-Ends noroute prohibited forward n p go s =
        let transit = not (source == net.myself) && not (owner == net.myself) in
        elim (Bool-cases (owner == source)) [
          | inl a ↦ rw a (Routed.answered (inl refl))
          | inr a ↦ elim (Bool-cases ((net.nodes owner).reachable)) [
            | inr b ↦ rw (a, b) (n s)
            | inl b ↦ elim (Bool-cases (is_off net.forwarding && transit)) [
              | inl c ↦ rw (a, b, c) (p s)
              | inr c ↦ elim (Bool-cases (net.decrement_ttl && transit)) [
                | inl d ↦
                    rw (a, b, c, d)
                      (Tested-Ends s (do_decrement_ttl net source s) forward
                        (do_decrement_ttl-Tested net source s) (go a b c))
                | inr d ↦ rw (a, b, c, d) (go a b c s)
              ]
            ]
          ]
        ]

  pub route_broadcast-Ends : owner_of net found ≡ some none → Stays (route_broadcast net source)
  unfolding route_broadcast
  route_broadcast-Ends own s = elim (Bool-cases (net.decrement_ttl && not (source == net.myself))) [
    | inl a ↦ rw a (tested (do_decrement_ttl net source s) (do_decrement_ttl-Tested net source s))
    | inr a ↦ rw a (Routed.flooded own refl)
  ]
    where
      tested :
          (r : Bool × Traffic)
          → Tested source s.log r
          → Ends s.log (if r.0 then broadcast_packet source r.1.packet r.1 else r.1)
      tested (true, t) h =
          Routed.flooded own (ap (λ l. Output.broadcast source t.packet ∷ l) (h.0 refl))
      tested (false, t) h = Routed.answered h.1
