-- ===== src/Route/Fragment.antt =====
-- `fragment_ipv4_packet` of src/route.c.
pub mod Laws
use tinc.Base.{
  ℕ, zero, suc, ◌+◌, ◌-◌, ◌*◌, ◌/◌, ◌%◌, ◌^◌, Bool, true, false, not, List, [], ◌∷◌, ◌++◌, take,
  drop, length, leb, ltb, ◌==◌, if◌then◌else◌, bit_or,
}
use tinc.Base.Bytes.{Bytes, be16}
use tinc.Route.{Packet, byte, word, NodeId, Traffic, Node, Network, ip_size, send_packet}
use tinc.Route.Checksum.{inet_checksum}
use tinc.Route.Unreachable.{slice, stored}

-- The header of a fragment: that of the packet but for the length, the flags and offset, and the
-- checksum.
unfoldable pub fragment_header : Bytes → ℕ → ℕ → Bytes
fragment_header ip len off =
    let front =
      take 2 ip ++ (be16 (ip_size + len) ++ (slice ip 4 2 ++ (be16 off ++ slice ip 8 2))) in
    front ++ (stored (inet_checksum (front ++ (0 ∷ 0 ∷ slice ip 12 8)) 65535) ++ slice ip 12 8)

-- The memory of a fragment is what is written of it.
unfoldable pub fragment : Packet → ℕ → Bytes → Bytes → ℕ → Packet
fragment p ether_size ip chunk off = record {
  len = (ether_size + ip_size + length chunk) % 2 ^ 16;
  priority = p.priority;
  cells = take ether_size p.cells ++ (fragment_header ip (length chunk) off ++ chunk);
}

-- `while(todo)`: `payload` is the rest of the packet, `todo` bytes. Each round takes at least one
-- byte, so `length payload` rounds are enough.
unfoldable pub fragment_loop :
    ℕ → NodeId → Packet → ℕ → Bytes → ℕ → ℕ → Bytes → ℕ → Traffic → Traffic
fragment_loop zero dest p ether_size ip maxlen origf payload ip_off s = s
fragment_loop (suc rounds) dest p ether_size ip maxlen origf payload ip_off s =
    let len = if ltb maxlen (length payload) then maxlen else length payload in
    let more = if ltb len (length payload) then 8192 else 0 in
    let chunk = take len payload in
    let off = bit_or (bit_or ip_off origf) more in
    let rest =
      fragment_loop rounds dest p ether_size ip maxlen origf (drop len payload)
        ((ip_off + len / 8) % 2 ^ 16) (send_packet dest (fragment p ether_size ip chunk off) s) in
    if length payload == 0 then s else rest

-- The room for payload in a fragment: a multiple of eight bytes.
abbrev pub maximum : ℕ → ℕ → ℕ
maximum a b = if ltb b a then a else b

unfoldable pub fragment_room : ℕ → ℕ → ℕ
fragment_room mtu ether_size = let room = maximum mtu 590 - ether_size - ip_size in room - room % 8

unfoldable pub fragment_ipv4_packet : Network → NodeId → ℕ → Traffic → Traffic
fragment_ipv4_packet net dest ether_size s =
    let p = s.packet in
    let ip = slice p.cells ether_size ip_size in
    let todo = (word p (ether_size + 2) + 2 ^ 64 - ip_size) % 2 ^ 64 in
    let off = word p (ether_size + 6) in
    if not (byte p ether_size % 16 == 5)
    then s
    else (if not ((ether_size + ip_size + todo) % 2 ^ 64 == p.len)
        then s
        else fragment_loop todo dest p ether_size ip
            (fragment_room ((net.nodes dest).mtu) ether_size) (off - off % 8192)
            (slice p.cells (ether_size + ip_size) todo) (off % 8192) s)
