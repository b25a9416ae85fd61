-- ===== src/Route/Ttl.antt =====
-- `do_decrement_ttl` of src/route.c.
pub mod Laws
use tinc.Base.{
  ℕ, ◌+◌, ◌-◌, ◌*◌, ◌/◌, ◌%◌, ◌^◌, Bool, true, false, not, ◌&&◌, ◌||◌, get_or, set, leb, ◌==◌,
  if◌then◌else◌,
}
use tinc.Base.Bytes.{Bytes}
use tinc.Route.{
  Packet, pair, byte, word, NodeId, Traffic, Network, ether_size, ip_size, ip6_size, checklength,
}
use tinc.Route.Checksum.{fold}
use tinc.Route.Unreachable.{route_ipv4_unreachable, route_ipv6_unreachable}

-- The new checksum of the header, from the old one and the word that changed.
unfoldable pub update_checksum : ℕ → ℕ → ℕ → ℕ
update_checksum checksum old new = fold 3 (checksum + (old + (65535 - new)))

-- The IPv4 header at `ethlen` with one hop less, and its checksum brought up to date.
unfoldable pub decrement_ipv4 : Packet → ℕ → Packet
decrement_ipv4 p ethlen =
    let old = pair (byte p (ethlen + 8)) (byte p (ethlen + 9)) in
    let cells = set p.cells (ethlen + 8) (byte p (ethlen + 8) - 1) in
    let new = pair (get_or cells (ethlen + 8) 0) (get_or cells (ethlen + 9) 0) in
    let checksum =
      update_checksum (pair (get_or cells (ethlen + 10) 0) (get_or cells (ethlen + 11) 0)) old
        new in
    record p {
      cells = set (set cells (ethlen + 10) (checksum / 256)) (ethlen + 11) (checksum % 256);
    }

unfoldable pub decrement_ipv6 : Packet → ℕ → Packet
decrement_ipv6 p ethlen = record p { cells = set p.cells (ethlen + 7) (byte p (ethlen + 7) - 1) }

unfoldable pub ttl_ipv4 : Network → NodeId → ℕ → Traffic → Bool × Traffic
ttl_ipv4 net source ethlen s =
    if not (checklength s.packet (ethlen + ip_size))
    then (false, s)
    else (if leb (byte s.packet (ethlen + 8)) 1
        then (
          false,
          if not (byte s.packet (ethlen + 11) == 1) || not (byte s.packet (ethlen + 32) == 11)
              then route_ipv4_unreachable net source ethlen 11 0 s
              else s,
        )
        else (true, record s { packet = decrement_ipv4 s.packet ethlen }))

unfoldable pub ttl_ipv6 : Network → NodeId → ℕ → Traffic → Bool × Traffic
ttl_ipv6 net source ethlen s =
    if not (checklength s.packet (ethlen + ip6_size))
    then (false, s)
    else (if leb (byte s.packet (ethlen + 7)) 1
        then (
          false,
          if not (byte s.packet (ethlen + 6) == 58) || not (byte s.packet (ethlen + 40) == 3)
              then route_ipv6_unreachable net source ethlen 3 0 s
              else s,
        )
        else (true, record s { packet = decrement_ipv6 s.packet ethlen }))

-- The `switch` over the type of the frame.
unfoldable pub ttl_by_type : Network → NodeId → ℕ → ℕ → Traffic → Bool × Traffic
ttl_by_type net source type ethlen s =
    if type == 2048
    then ttl_ipv4 net source ethlen s
    else (if type == 34525 then ttl_ipv6 net source ethlen s else (true, s))

-- A VLAN tag moves the type and the header by four bytes.
unfoldable pub do_decrement_ttl : Network → NodeId → Traffic → Bool × Traffic
do_decrement_ttl net source s =
    if word s.packet 12 == 33024
    then ttl_by_type net source (word s.packet 16) (ether_size + 4) s
    else ttl_by_type net source (word s.packet 12) ether_size s
