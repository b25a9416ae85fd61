-- ===== src/Route/Mss.antt =====
-- `clamp_mss` of src/route.c.
pub mod Options
pub mod Length
pub mod Laws
use tinc.Base.{
  ℕ, zero, suc, ◌+◌, ◌-◌, ◌*◌, ◌/◌, ◌%◌, ◌^◌, Bool, true, false, not, ◌&&◌, ◌||◌, Option, none,
  some, set, leb, ltb, ◌==◌, if◌then◌else◌,
}
use tinc.Base.Bits.{bit}
use tinc.Base.Bytes.{Bytes}
use tinc.Route.{Packet, pair, byte, word, NodeId, Node, Network, ether_size}

-- The new checksum field of the TCP header, before it is cut to two bytes.
unfoldable pub new_csum : ℕ → ℕ → ℕ → ℕ
new_csum csum oldmss newmss =
    let sum = 65535 - csum + (65535 - oldmss) + newmss in
    let once = sum % 2 ^ 16 + sum / 2 ^ 16 in
    let twice = once + once / 2 ^ 16 in twice / 2 ^ 16 * 2 ^ 16 + (65535 - twice % 2 ^ 16)

-- The MSS option at `i` gets the new value, and the checksum of the TCP header goes with it.
unfoldable pub write_mss : Packet → ℕ → ℕ → ℕ → Packet
write_mss p start i newmss =
    let oldmss = pair (byte p (start + 22 + i)) (byte p (start + 23 + i)) in
    let csum = new_csum (pair (byte p (start + 16)) (byte p (start + 17))) oldmss newmss in
    let clamped =
      set (set p.cells (start + 22 + i) (newmss / 256)) (start + 23 + i) (newmss % 256) in
    record p { cells = set (set clamped (start + 16) (csum / 256 % 256)) (start + 17) (csum % 256) }

abbrev pub new_mss : ℕ → ℕ → ℕ
new_mss mtu start = (mtu + 2 ^ 16 - start - 20) % 2 ^ 16

-- An option that is the MSS option.
unfoldable pub clamp_option : Packet → ℕ → ℕ → ℕ → Packet
clamp_option p start i mtu =
    if not (byte p (start + 21) == 4)
      || leb (pair (byte p (start + 22 + i)) (byte p (start + 23 + i))) (new_mss mtu start)
    then p
    else write_mss p start i (new_mss mtu start)

-- The search through the options; each round takes at least one byte of the `len` bytes, so `len`
-- rounds are enough.
unfoldable pub mss_loop : ℕ → Packet → ℕ → ℕ → ℕ → ℕ → Packet
mss_loop zero p start len mtu i = p
mss_loop (suc rounds) p start len mtu i =
    let kind = byte p (start + 20 + i) in
    let size = byte p (start + 21 + i) in
    let rest = mss_loop rounds p start len mtu (if kind == 1 then i + 1 else i + size) in
    if not (ltb i len) || kind == 0
    then p
    else (if kind == 1
        then rest
        else (if ltb len (i + 2) || ltb len (i + size)
            then p
            else (if not (kind == 2)
                then (if ltb size 2 then p else rest)
                else clamp_option p start i mtu)))

-- The options of the TCP header at `start`; their length comes from the data offset field, and is
-- not positive if that is below five. With them the header has four times that field.
unfoldable pub clamp_tcp : Packet → ℕ → ℕ → Packet
clamp_tcp p start mtu =
    let len = (byte p (start + 12) / 16 - 5) * 4 in
    if leb p.len (start + 20) || ltb p.len (start + byte p (start + 12) / 16 * 4)
    then p
    else mss_loop len p start len mtu 0

-- The TCP header behind the IP header at `start`, if there is one.
unfoldable pub clamp_ip : Packet → ℕ → ℕ → ℕ → Packet
clamp_ip p type start mtu =
    if leb p.len (start + 20)
    then p
    else (if type == 2048 && byte p (start + 9) == 6
        then clamp_tcp p (start + byte p start % 16 * 4) mtu
        else (if type == 34525 && byte p (start + 6) == 6 then clamp_tcp p (start + 40) mtu else p))

-- The outer IPv4 header is skipped if it holds another (RFC 2003).
unfoldable pub clamp_frame : Packet → ℕ → ℕ → ℕ → Packet
clamp_frame p type start mtu =
    clamp_ip p type (if type == 2048 && byte p (start + 9) == 4 then start + 20 else start) mtu

-- The MTU of the source, or of the relay if it is less; this node has none.
abbrev pub least_mtu : Network → NodeId → NodeId → ℕ
least_mtu net source via =
    let near = (net.nodes source).mtu in
    let far = (net.nodes via).mtu in if not (via == net.myself) && ltb far near then far else near

unfoldable pub clamp_mss : Network → NodeId → Option NodeId → Packet → Packet
clamp_mss net source none p = p
clamp_mss net source (some via) p =
    if not (bit ((net.nodes via).options) 3)
    then p
    else (if word p 12 == 33024
        then clamp_frame p (word p 16) (ether_size + 4) (least_mtu net source via)
        else clamp_frame p (word p 12) ether_size (least_mtu net source via))
