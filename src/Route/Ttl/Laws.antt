-- ===== src/Route/Ttl/Laws.antt =====
-- Taking a hop off a packet, as src/route.c does it.
use tinc.Base.{
  ℕ, ◌+◌, ◌-◌, ◌/◌, ◌%◌, ◌^◌, ◌≤◌, ◌<◌, ◌≡◌, ◌≢◌, ◌⊎◌, refl, false, ◌∷◌, length, get_or, set, ◌==◌,
  if◌then◌else◌, arith, get_or-set, get_or-set_two, length-set,
}
use tinc.Base.Bytes.{Bytes, AllBytes, get_or-lt}
use tinc.Route.{pair, Packet, byte, word, NodeId, Traffic, Network, Output, ratelimit}
use tinc.Route.Checksum.Laws.{fold_ends}
use tinc.Route.Unreachable.{ipv4_reply, route_ipv4_unreachable}
use tinc.Route.Ttl.{update_checksum, decrement_ipv4, ttl_ipv4, ttl_by_type, do_decrement_ttl}

update_checksum-sum :
    (checksum old new : ℕ)
    → checksum < 2 ^ 16
    → old < 2 ^ 16
    → new < 2 ^ 16
    → (update_checksum checksum old new < 2 ^ 16)
      × ((new + update_checksum checksum old new) % 65535 ≡ (old + checksum) % 65535)
unfolding update_checksum
update_checksum-sum checksum old new h k l =
    let (_, small, same, _) = fold_ends (checksum + (old + (65535 - new))) 0 (omega arith) in
    (small, omega arith)

-- The header at `n` with a hop less, and then with a new checksum.
module _ (cells : Bytes) (n a c : ℕ) (room : n + 20 ≤ length cells) where
  abbrev hop : Bytes
  hop = set cells (n + 8) a

  abbrev summed : Bytes
  summed = set (set hop (n + 10) (c / 256)) (n + 11) (c % 256)

  hop-read : (j : ℕ) → get_or hop j 0 ≡ (if n + 8 == j then a else get_or cells j 0)
  hop-read j = get_or-set cells (n + 8) j a 0 (omega arith)

  summed-read :
      (j : ℕ)
      → get_or summed j 0 ≡ (
          if n + 11 == j
          then c % 256
          else (if n + 10 == j then c / 256 else (if n + 8 == j then a else get_or cells j 0)))
  summed-read j =
      rw
        (get_or-set_two hop (n + 10) (n + 11) j (c / 256) (c % 256) 0
          (omega (arith, length-set cells (n + 8) a)) (omega (arith, length-set cells (n + 8) a)))
        (rw (hop-read j))

  hop_bytes :
      (get_or hop (n + 8) 0 ≡ a)
      × (get_or hop (n + 9) 0 ≡ get_or cells (n + 9) 0)
      × (get_or hop (n + 10) 0 ≡ get_or cells (n + 10) 0)
      × (get_or hop (n + 11) 0 ≡ get_or cells (n + 11) 0)
  hop_bytes =
      ground (arith, hop-read (n + 8), hop-read (n + 9), hop-read (n + 10), hop-read (n + 11))

  summed_bytes :
      (j : ℕ)
      → (j < n + 8) ⊎ (n + 11 < j)
      → (get_or summed (n + 8) 0 ≡ a)
        × (get_or summed (n + 9) 0 ≡ get_or cells (n + 9) 0)
        × (get_or summed (n + 10) 0 ≡ c / 256)
        × (get_or summed (n + 11) 0 ≡ c % 256)
        × (get_or summed j 0 ≡ get_or cells j 0)
  summed_bytes j away = ground (
    arith,
    summed-read (n + 8),
    summed-read (n + 9),
    summed-read (n + 10),
    summed-read (n + 11),
    summed-read j,
  )

-- Taking a hop off an IPv4 header that lies in the buffer and has a TTL above zero: the TTL is one
-- less, the sum of the header's words by 65535 is what it was, and no other byte changes.
pub decrement_ipv4-sum :
    (p : Packet) (n j : ℕ)
    → AllBytes p.cells
    → n + 20 ≤ length p.cells
    → 0 < byte p (n + 8)
    → (j < n + 8) ⊎ (n + 11 < j)
    → let q = decrement_ipv4 p n in
      (byte q (n + 8) + 1 ≡ byte p (n + 8))
      × (byte q (n + 9) ≡ byte p (n + 9))
      × ((pair (byte q (n + 8)) (byte q (n + 9)) + pair (byte q (n + 10)) (byte q (n + 11))) % 65535
          ≡ (pair (byte p (n + 8)) (byte p (n + 9)) + pair (byte p (n + 10)) (byte p (n + 11)))
            % 65535)
      × (byte q j ≡ byte p j)
      × (q.len ≡ p.len)
unfolding decrement_ipv4
decrement_ipv4-sum p n j h room alive away =
    let a = byte p (n + 8) - 1 in
    let b8 = get_or-lt p.cells (n + 8) h in
    let b9 = get_or-lt p.cells (n + 9) h in
    let b10 = get_or-lt p.cells (n + 10) h in
    let b11 = get_or-lt p.cells (n + 11) h in
    let (h8, h9, h10, h11) = hop_bytes p.cells n a 0 room in
    let old = pair (byte p (n + 8)) (byte p (n + 9)) in
    let cells = set p.cells (n + 8) a in
    let new = pair (get_or cells (n + 8) 0) (get_or cells (n + 9) 0) in
    let checksum = pair (get_or cells (n + 10) 0) (get_or cells (n + 11) 0) in
    let (small, sums) =
      update_checksum-sum checksum old new (omega arith) (omega arith) (omega arith) in
    let (s8, s9, s10, s11, sj) =
      summed_bytes p.cells n a (update_checksum checksum old new) room j away in
    (omega arith, s9, omega arith, sj, refl)

-- A time exceeded message is answered with another one. An IPv4 packet, long enough, that carries
-- such a message and has a TTL of at most one is answered to its sender, if the rate limit allows,
-- whenever the low byte of its checksum is not one: the guard against it reads the bytes 11 and 32
-- of the header for the protocol and the ICMP type, which lie at 9 and at 20.
pub time_exceeded-answered :
    (net : Network) (source : NodeId) (s : Traffic)
    → word s.packet 12 ≡ 2048
    → 34 ≤ s.packet.len
    → byte s.packet 22 ≤ 1
    → byte s.packet 23 ≡ 1
    → byte s.packet 34 ≡ 11
    → byte s.packet 25 ≢ 1
    → (ratelimit net.now 3 s).0 ≡ false
    → ((do_decrement_ttl net source s).0 ≡ false)
      × ((do_decrement_ttl net source s).1.log
          ≡ Output.sent source (ipv4_reply net 14 11 0 s.packet) ∷ s.log)
unfolding do_decrement_ttl ttl_by_type ttl_ipv4 route_ipv4_unreachable ratelimit
time_exceeded-answered net source s type size hop icmp kind low free = ground arith
