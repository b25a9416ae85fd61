-- ===== src/Route/Neighbor/Laws.antt =====
-- The answers of `route_arp` and `route_neighborsol` of src/route.c.
use tinc.Base.{
  ◌+◌, ◌≡◌, inl, inr, refl, Bool, true, false, not, ◌&&◌, ◌||◌, Option, none, some, ◌∷◌, ◌==◌,
  if◌then◌else◌, if_intro, ap, get_or, leb,
}
use mathlib.Core.Path.{subst}
use tinc.Subnet.Compare.{Subnet}
use tinc.Subnet.Lookup.{Subnets, lookup_subnet_ipv4, lookup_subnet_ipv6}
use tinc.Route.Decide.{owner_reachable}
use tinc.Route.{
  Packet, NodeId, Output, Traffic, Network, ether_size, ip6_size, checklength, send_packet,
}
use tinc.Route.Unreachable.{slice}
use tinc.Route.Ttl.{do_decrement_ttl}
use tinc.Route.Laws.{Answered, Tested, do_decrement_ttl-Tested}
use tinc.Route.Neighbor.{
  owned_by_me, snatch, reply_with, if_foreign, ns_size, opt_size, arp_size, is_arp_request,
  arp_reply, route_arp, neighbor_checksum, neighbor_reply, route_neighborsol,
}

module _ (net : Network) (source : NodeId) where
  -- A step that answers the source at most.
  abbrev Replies : (Traffic → Traffic) → Type 0
  Replies f = (s : Traffic) → Answered source s.log ((f s).log)

  reply_with-Replies : (reply : Packet → Packet) → Replies (reply_with net source reply)
  reply_with-Replies reply s =
      if_intro (λ (t : Traffic). Answered source s.log t.log) net.decrement_ttl
        (tested (do_decrement_ttl net source s) (do_decrement_ttl-Tested net source s))
        (inr (reply s.packet, refl))
    where
      tested :
          (r : Bool × Traffic)
          → Tested source s.log r
          → Answered source s.log (
              (if r.0
                then send_packet source
                    (reply r.1.packet)
                    (record (r.1) { packet = reply r.1.packet })
                else r.1).log)
      tested (true, t) h =
          inr (reply t.packet, ap (λ l. Output.sent source (reply t.packet) ∷ l) (h.0 refl))
      tested (false, t) h = h.1

  if_foreign-Replies :
      (found : Option Subnet) (reply : Packet → Packet)
      → Replies (λ s. if_foreign net source found reply s)
  if_foreign-Replies none reply s = inl refl
  if_foreign-Replies (some subnet) reply s =
      if_intro (λ (t : Traffic). Answered source s.log t.log) (owned_by_me net subnet.owner)
        (inl refl) (reply_with-Replies reply s)

  snatch-Silent : (s : Traffic) → (snatch net s).log ≡ s.log
  snatch-Silent s = if_intro (λ (t : Traffic). t.log ≡ s.log) net.overwrite_mac refl refl

  -- The source address is taken, and then the source is answered at most.
  snatched-Replies :
      (found : Option Subnet) (subnets : Subnets) (reply : Packet → Packet) (s : Traffic)
      → Answered source s.log
          ((if_foreign net source found reply (record (snatch net s) { subnets = subnets })).log)
  snatched-Replies found subnets reply s =
      let after = record (snatch net s) { subnets = subnets } in
      subst (λ log. Answered source log ((if_foreign net source found reply after).log))
        (snatch-Silent s) (if_foreign-Replies found reply after)

  pub route_arp-Replies : Replies (route_arp net source)
  unfolding route_arp
  route_arp-Replies s =
      let arp = slice s.packet.cells ether_size arp_size in
      let s1 = snatch net s in
      let (found, subnets) =
        lookup_subnet_ipv4 net.hash_seed (owner_reachable net) (slice arp 24 4) s1.subnets in
      let Good : Traffic → Type 0 = λ t. Answered source s.log t.log in
      if_intro Good
        (not (checklength s.packet (ether_size + arp_size)) || not (source == net.myself))
        (inl refl)
        (if_intro Good (not (is_arp_request arp)) (inl (snatch-Silent s))
          (snatched-Replies found subnets (arp_reply arp) s))

  pub route_neighborsol-Replies : Replies (route_neighborsol net source)
  unfolding route_neighborsol
  route_neighborsol-Replies s =
      let cells = s.packet.cells in
      let has_opt = leb (ether_size + ip6_size + ns_size + opt_size + 6) s.packet.len in
      let ip6 = slice cells ether_size ip6_size in
      let ns = slice cells (ether_size + ip6_size) ns_size in
      let opt = slice cells (ether_size + ip6_size + ns_size) opt_size in
      let s1 = snatch net s in
      let checksum =
        neighbor_checksum (slice ip6 8 16) (slice ip6 24 16) has_opt ns opt (slice cells 80 6) in
      let (found, subnets) =
        lookup_subnet_ipv6 net.hash_seed (owner_reachable net) (slice ns 8 16) s1.subnets in
      let Good : Traffic → Type 0 = λ t. Answered source s.log t.log in
      if_intro Good
        (not (checklength s.packet (ether_size + ip6_size + ns_size)) || not (source == net.myself))
        (inl refl)
        (if_intro Good (not (get_or ns 0 0 == 135) || (has_opt && not (get_or opt 0 0 == 1)))
          (inl (snatch-Silent s))
          (if_intro Good (not (checksum == 0)) (inl (snatch-Silent s))
            (snatched-Replies found subnets (neighbor_reply has_opt ip6 ns opt) s)))
