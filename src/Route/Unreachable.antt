-- ===== src/Route/Unreachable.antt =====
-- `route_ipv4_unreachable` and `route_ipv6_unreachable` of src/route.c: the ICMP messages that are
-- sent back for a packet that is not forwarded. A structure on the stack is the list of its bytes.
use tinc.Base.{
  ℕ, ◌+◌, ◌-◌, ◌/◌, ◌%◌, ◌^◌, ◌&&◌, Option, none, some, [], ◌∷◌, ◌++◌, take, drop, leb, ◌==◌,
  if◌then◌else◌,
}
use tinc.Base.Bytes.{Bytes, be16, be32}
use tinc.Base.Slices.{overwrite}
use tinc.Route.{Packet, NodeId, Traffic, Network, send_packet, ratelimit}
use tinc.Route.Checksum.{inet_checksum}

abbrev pub slice : Bytes → ℕ → ℕ → Bytes
slice cells start size = take size (drop start cells)

unfoldable pub swap_mac_addresses : Bytes → Bytes
swap_mac_addresses cells = overwrite cells 0 (slice cells 6 6 ++ take 6 cells)

-- A checksum as it lies in memory, on a machine whose first byte is the low one.
abbrev pub stored : ℕ → Bytes
stored c = (c % 256) ∷ (c / 256) ∷ []

-- The part of the IPv4 header before the checksum, and the header.
abbrev pub ip_front : ℕ → Bytes
ip_front size = 69 ∷ 0 ∷ (be16 size ++ (0 ∷ 0 ∷ 0 ∷ 0 ∷ 255 ∷ 1 ∷ []))

unfoldable pub ip_header : ℕ → Bytes → Bytes → Bytes
ip_header size src dst =
    ip_front size
    ++ (stored (inet_checksum (ip_front size ++ (0 ∷ 0 ∷ (src ++ dst))) 65535) ++ (src ++ dst))

-- The ICMP header with a checksum field and the next MTU, 0 where it is not set.
abbrev pub icmp_header : ℕ → ℕ → Bytes → ℕ → Bytes
icmp_header type code sum nextmtu = type ∷ code ∷ (sum ++ (0 ∷ 0 ∷ be16 nextmtu))

unfoldable pub icmp_filled : ℕ → ℕ → ℕ → Bytes → Bytes
icmp_filled type code nextmtu original =
    icmp_header type code
      (stored
        (inet_checksum original (inet_checksum (icmp_header type code (0 ∷ 0 ∷ []) nextmtu) 65535)))
      nextmtu

abbrev pub or_given : Option Bytes → Bytes → Bytes
or_given none b = b
or_given (some a) b = a

-- The number of bytes of the packet that are quoted; `uint32_t oldlen`.
unfoldable pub quoted : ℕ → ℕ → ℕ → ℕ
quoted len ether_size most =
    let oldlen = (len + 2 ^ 32 - ether_size) % 2 ^ 32 in if leb most oldlen then most else oldlen

-- Everything after the rate limit but the sending.
unfoldable pub ipv4_reply : Network → ℕ → ℕ → ℕ → Packet → Packet
ipv4_reply net ether_size type code p =
    let cells = swap_mac_addresses p.cells in
    let ip_src = slice cells (ether_size + 12) 4 in
    let ip_dst =
      if type == 11 && code == 0
      then or_given (net.local_address ip_src) (slice cells (ether_size + 16) 4)
      else slice cells (ether_size + 16) 4 in
    let oldlen = quoted p.len ether_size 548 in
    let nextmtu = if type == 3 && code == 4 then (p.len + 2 ^ 16 - ether_size) % 2 ^ 16 else 0 in
    let original = slice cells ether_size oldlen in
    let moved = overwrite cells (ether_size + 28) original in
    let headed = overwrite moved ether_size (ip_header (28 + oldlen) ip_dst ip_src) in
    record p {
      len = (ether_size + 28 + oldlen) % 2 ^ 16;
      cells = overwrite headed (ether_size + 20) (icmp_filled type code nextmtu original);
    }

unfoldable pub route_ipv4_unreachable : Network → NodeId → ℕ → ℕ → ℕ → Traffic → Traffic
route_ipv4_unreachable net source ether_size type code s =
    let (limited, s') = ratelimit net.now 3 s in
    if limited
    then s'
    else (let reply = ipv4_reply net ether_size type code s.packet in
        send_packet source reply (record s' { packet = reply }))

abbrev pub icmp6_header : ℕ → ℕ → Bytes → ℕ → Bytes
icmp6_header type code sum mtu = type ∷ code ∷ (sum ++ be32 mtu)

abbrev pub pseudo_header : Bytes → Bytes → ℕ → Bytes
pseudo_header src dst size = src ++ (dst ++ (be32 size ++ be32 58))

unfoldable pub icmp6_filled : Bytes → Bytes → ℕ → ℕ → ℕ → ℕ → Bytes → Bytes
icmp6_filled src dst size type code mtu original =
    icmp6_header type code
      (stored (
        inet_checksum original (
          inet_checksum (icmp6_header type code (0 ∷ 0 ∷ []) mtu)
            (inet_checksum (pseudo_header src dst size) 65535))))
      mtu

unfoldable pub ipv6_reply : Network → ℕ → ℕ → ℕ → Packet → Packet
ipv6_reply net ether_size type code p =
    let cells = swap_mac_addresses p.cells in
    let old_src = slice cells (ether_size + 8) 16 in
    let src =
      if type == 3 && code == 0
      then or_given (net.local_address6 old_src) (slice cells (ether_size + 24) 16)
      else slice cells (ether_size + 24) 16 in
    let mtu = if type == 2 then (p.len + 2 ^ 32 - ether_size) % 2 ^ 32 else 0 in
    let size = quoted p.len ether_size 528 in
    let original = slice cells ether_size size in
    let moved = overwrite cells (ether_size + 48) original in
    let header = be32 1610612736 ++ (be16 (8 + size) ++ (58 ∷ 255 ∷ (src ++ old_src))) in
    let headed = overwrite moved ether_size header in
    record p {
      len = (ether_size + 48 + size) % 2 ^ 16;
      cells =
          overwrite headed (ether_size + 40)
            (icmp6_filled src old_src (8 + size) type code mtu original);
    }

unfoldable pub route_ipv6_unreachable : Network → NodeId → ℕ → ℕ → ℕ → Traffic → Traffic
route_ipv6_unreachable net source ether_size type code s =
    let (limited, s') = ratelimit net.now 3 s in
    if limited
    then s'
    else (let reply = ipv6_reply net ether_size type code s.packet in
        send_packet source reply (record s' { packet = reply }))
