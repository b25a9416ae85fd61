-- ===== src/Route/Neighbor.antt =====
-- `route_arp` and `route_neighborsol` of src/route.c: the answers to those who ask for the hardware
-- address that goes with an address on the VPN.
pub mod Laws
use Prim.Native.Nat.{bit_xor}
use tinc.Base.{
  ℕ, ◌+◌, ◌*◌, Bool, true, false, not, ◌&&◌, ◌||◌, Option, none, some, [], ◌∷◌, ◌++◌, get_or, set,
  take, leb, ◌==◌, if◌then◌else◌,
}
use tinc.Base.Bytes.{Bytes, be16, be32}
use tinc.Base.Slices.{overwrite}
use tinc.Subnet.Compare.{Subnet}
use tinc.Subnet.Lookup.{lookup_subnet_ipv4, lookup_subnet_ipv6}
use tinc.Route.{
  Packet, pair, NodeId, Traffic, Network, ether_size, ip6_size, checklength, send_packet,
}
use tinc.Route.Checksum.{inet_checksum}
use tinc.Route.Unreachable.{slice, stored, pseudo_header}
use tinc.Route.Ttl.{do_decrement_ttl}
use tinc.Route.Decide.{owner_reachable}

abbrev pub arp_size : ℕ
arp_size = 28

abbrev pub ns_size : ℕ
ns_size = 24

abbrev pub opt_size : ℕ
opt_size = 2

abbrev pub owned_by_me : Network → Option Bytes → Bool
owned_by_me net none = false
owned_by_me net (some name) = net.node_named name == net.myself

-- The source address of the frame becomes the address of this node's interface.
abbrev pub snatch : Network → Traffic → Traffic
snatch net s = if net.overwrite_mac then record s { mymac = slice s.packet.cells 6 6 } else s

-- The TTL is looked at, and what is left of the packet goes through `reply` and back to the source.
abbrev pub reply_with : Network → NodeId → (Packet → Packet) → Traffic → Traffic
reply_with net source reply s =
    let answer =
      λ (t : Traffic). send_packet source (reply t.packet) (record t { packet = reply t.packet }) in
    if net.decrement_ttl
    then (let (alive, s') = do_decrement_ttl net source s in if alive then answer s' else s')
    else answer s

-- By what the lookup of the address gave.
abbrev pub if_foreign : Network → NodeId → Option Subnet → (Packet → Packet) → Traffic → Traffic
if_foreign net source none reply s = s
if_foreign net source (some subnet) reply s =
    if owned_by_me net subnet.owner then s else reply_with net source reply s

abbrev pub half_word : Bytes → ℕ → ℕ
half_word cells i = pair (get_or cells i 0) (get_or cells (i + 1) 0)

unfoldable pub is_arp_request : Bytes → Bool
is_arp_request arp =
    half_word arp 0 == 1
    && half_word arp 2 == 2048
    && get_or arp 4 0 == 6
    && get_or arp 5 0 == 4
    && half_word arp 6 == 1

-- The hardware address of the sender is the source address of the frame, its last byte inverted.
unfoldable pub mangled : Bytes → Bytes
mangled cells = slice cells 6 5 ++ (bit_xor (get_or cells 11 0) 255 ∷ [])

-- The answer to the request `arp` that was copied from the packet.
unfoldable pub arp_reply : Bytes → Packet → Packet
arp_reply arp p = record p {
  cells = overwrite p.cells ether_size (
      take 6 arp
      ++ (be16 2 ++ (mangled p.cells ++ (slice arp 24 4 ++ (slice arp 8 6 ++ slice arp 14 4)))));
}

unfoldable pub route_arp : Network → NodeId → Traffic → Traffic
route_arp net source s =
    let arp = slice s.packet.cells ether_size arp_size in
    let s1 = snatch net s in
    let (found, subnets) =
      lookup_subnet_ipv4 net.hash_seed (owner_reachable net) (slice arp 24 4) s1.subnets in
    if not (checklength s.packet (ether_size + arp_size)) || not (source == net.myself)
    then s
    else (if not (is_arp_request arp)
        then s1
        else if_foreign net source found (arp_reply arp) (record s1 { subnets = subnets }))

-- The parts of a neighbor message: `ip6`, `ns`, `opt` and the hardware address behind it.
unfoldable pub neighbor_checksum : Bytes → Bytes → Bool → Bytes → Bytes → Bytes → ℕ
neighbor_checksum src dst has_opt ns opt hardware =
    let size = if has_opt then ns_size + opt_size + 6 else ns_size in
    let checksum = inet_checksum ns (inet_checksum (pseudo_header src dst size) 65535) in
    if has_opt then inet_checksum hardware (inet_checksum opt checksum) else checksum

abbrev pub advert : Bytes → Bytes → Bytes
advert ns sum = 136 ∷ get_or ns 1 0 ∷ (sum ++ (be32 1073741824 ++ slice ns 8 16))

-- The advertisement for the solicitation in `ip6`, `ns` and `opt`.
unfoldable pub neighbor_reply : Bool → Bytes → Bytes → Bytes → Packet → Packet
neighbor_reply has_opt ip6 ns opt p =
    let turned = overwrite p.cells 0 (slice p.cells 6 6) in
    let faked = set turned 11 (bit_xor (get_or turned 11 0) 255) in
    let cells = if has_opt then overwrite faked 80 (slice faked 6 6) else faked in
    let opt' = 2 ∷ slice opt 1 1 in
    let src = slice ns 8 16 in
    let dst = slice ip6 8 16 in
    let checksum =
      neighbor_checksum src dst has_opt (advert ns (0 ∷ 0 ∷ [])) opt' (slice cells 80 6) in
    let headed = overwrite cells ether_size (take 8 ip6 ++ (src ++ dst)) in
    let filled = overwrite headed (ether_size + ip6_size) (advert ns (stored checksum)) in
    record p { cells = if has_opt then overwrite filled 78 opt' else filled }

unfoldable pub route_neighborsol : Network → NodeId → Traffic → Traffic
route_neighborsol net source s =
    let cells = s.packet.cells in
    let has_opt = leb (ether_size + ip6_size + ns_size + opt_size + 6) s.packet.len in
    let ip6 = slice cells ether_size ip6_size in
    let ns = slice cells (ether_size + ip6_size) ns_size in
    let opt = slice cells (ether_size + ip6_size + ns_size) opt_size in
    let s1 = snatch net s in
    let checksum =
      neighbor_checksum (slice ip6 8 16) (slice ip6 24 16) has_opt ns opt (slice cells 80 6) in
    let (found, subnets) =
      lookup_subnet_ipv6 net.hash_seed (owner_reachable net) (slice ns 8 16) s1.subnets in
    if not (checklength s.packet (ether_size + ip6_size + ns_size)) || not (source == net.myself)
    then s
    else (if not (get_or ns 0 0 == 135) || (has_opt && not (get_or opt 0 0 == 1))
        then s1
        else (if not (checksum == 0)
            then s1
            else if_foreign net source found (neighbor_reply has_opt ip6 ns opt)
                (record s1 { subnets = subnets })))
