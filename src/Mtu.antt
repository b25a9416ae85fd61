-- ===== src/Mtu.antt =====
-- The path MTU in src/net_packet.c: what a probe, its answer and a packet that was too long do to
-- the fields of `node_t`.
pub mod Laws
mod Tests
use tinc.Base.{
  ℕ, ◌+◌, ◌*◌, ◌-◌, ◌/◌, ◌^◌, Bool, true, false, not, ◌&&◌, ◌||◌, Option, none, some, List, [], ◌∷◌,
  set, leb, ltb, ◌==◌, if◌then◌else◌,
}
use tinc.Base.Bytes.{Bytes, be16}
use tinc.Base.Slices.{overwrite}
use tinc.Subnet.{ℤ, pos, negsuc}
use tinc.Route.{Packet, byte, word}

-- The calls that leave a mark: of `send_udppacket` while `udp_confirmed` is set, on the cache of
-- addresses, and of the ping timer.
pub data Mark : Type 0 where
  replied : Packet → Mark
  opened cleared : Mark
  recent : Bytes → Mark
  restarted : ℕ → Mark

-- The fields of `node_t` that are used here, `now`, and the address of the edge of the node's
-- connection, if there are both. Times are in microseconds.
pub record Peer : Type 0 where
  pub options : ℕ
  pub sptps : Bool
  pub validkey : Bool
  pub udp_confirmed : Bool
  pub ping_sent : Bool
  pub udp_ping_sent : ℕ
  pub udp_ping_rtt : ℤ
  pub mtu_ping_sent : ℕ
  pub maxrecentlen : ℕ
  pub mtu : ℕ
  pub minmtu : ℕ
  pub maxmtu : ℕ
  pub mtuprobes : ℤ
  pub address_cache : Bool
  pub edge_address : Option Bytes
  pub now : ℕ
  pub marks : List Mark

abbrev pub most_mtu : ℕ
most_mtu = 1518

abbrev pub least_mtu : ℕ
least_mtu = 512

abbrev pub is_negative : ℤ → Bool
is_negative (pos n) = false
is_negative (negsuc n) = true

abbrev pub is_twenty : ℤ → Bool
is_twenty (pos n) = n == 20
is_twenty (negsuc n) = false

unfoldable pub try_fix_mtu : Peer → Peer
try_fix_mtu n =
    let fixed = if ltb n.maxmtu n.minmtu then n.maxmtu else n.minmtu in
    if not (is_negative n.mtuprobes) && (is_twenty n.mtuprobes || leb n.maxmtu n.minmtu)
    then record n { minmtu = fixed; maxmtu = fixed; mtu = fixed; mtuprobes = negsuc 0 }
    else n

abbrev pub at_most : ℕ → ℕ → ℕ
at_most limit a = if ltb limit a then limit else a

unfoldable pub reduce_mtu : Peer → ℕ → Peer
reduce_mtu n mtu =
    let limit = if ltb mtu least_mtu then least_mtu else mtu in
    try_fix_mtu (record n { maxmtu = at_most limit n.maxmtu; mtu = at_most limit n.mtu })

unfoldable pub udp_probe_timeout_handler : Peer → Peer
udp_probe_timeout_handler n = if not n.udp_confirmed then n else record n {
  udp_confirmed = false;
  udp_ping_rtt = negsuc 0;
  maxrecentlen = 0;
  mtuprobes = pos 0;
  minmtu = 0;
  maxmtu = most_mtu;
}

abbrev pub mark : Mark → Peer → Peer
mark m n = record n { marks = m ∷ n.marks }

-- The length of a probe that asks for it, in the packet or in two of its bytes.
unfoldable pub send_udp_probe_reply : Peer → Packet → ℕ → Peer
send_udp_probe_reply n packet len =
    if not n.sptps && not n.validkey
    then n
    else (if leb 3 (n.options / 2 ^ 24)
        then mark
            (Mark.replied
              (record packet { len = 18; cells = overwrite packet.cells 0 (2 ∷ be16 len) }))
            n
        else mark (Mark.replied (record packet { cells = set packet.cells 0 1 })) n)

-- The time of the round trip, if a probe is on its way; `clock` is the answer of `gettimeofday`.
unfoldable pub take_time : ℕ → Peer → Peer
take_time clock n =
    if n.ping_sent
    then record n { now = clock; udp_ping_rtt = pos (clock - n.udp_ping_sent); ping_sent = false }
    else n

abbrev pub remember : Option Bytes → Peer → Peer
remember none n = n
remember (some address) n = mark (Mark.recent address) (mark Mark.cleared n)

unfoldable pub confirm : Peer → Peer
confirm n =
    if n.udp_confirmed
    then n
    else remember n.edge_address (
        if n.address_cache
        then record n { udp_confirmed = true }
        else mark Mark.opened (record n { udp_confirmed = true; address_cache = true }))

-- A probe of `len` bytes has come through.
unfoldable pub raise_mtu : ℕ → Peer → Peer
raise_mtu len n =
    let valid =
      if is_negative n.mtuprobes && len == n.maxmtu
      then record n { mtuprobes = negsuc 0; mtu_ping_sent = n.now }
      else n in
    if ltb n.maxmtu len
    then record n { minmtu = len; maxmtu = most_mtu; mtuprobes = pos 1 }
    else (if ltb valid.minmtu len then try_fix_mtu (record valid { minmtu = len }) else valid)

-- The length that an answer speaks of: a type 2 answer says it.
unfoldable pub answered_len : Packet → ℕ → ℕ
answered_len packet len = if byte packet 0 == 2 then word packet 1 else len

-- `udp_discovery` and its time, `clock`, and the probe.
unfoldable pub udp_probe_h : Bool → ℕ → ℕ → Peer → Packet → ℕ → Peer
udp_probe_h udp_discovery timeout clock n packet len =
    let known = confirm (take_time clock n) in
    if byte packet 0 == 0
    then send_udp_probe_reply n packet len
    else raise_mtu (answered_len packet len)
        (if udp_discovery then mark (Mark.restarted timeout) known else known)
