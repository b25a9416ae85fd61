-- ===== src/Route/Fragment/Laws.antt =====
-- What `fragment_ipv4_packet` of src/route.c sends.
use tinc.Base.{
  true, false, ℕ, zero, suc, ◌+◌, ◌-◌, ◌%◌, ◌/◌, ◌^◌, ◌<◌, ◌≤◌, ◌≡◌, List, [], ◌∷◌, ◌++◌, take,
  drop, length, ltb, ◌==◌, if◌then◌else◌, bit_or, arith, ◌∙◌, sym, ap, length-append, length-take,
  length-drop,
}
use mathlib.Core.List.{append_assoc}
use tinc.Base.Bytes.{Bytes, be16}
use tinc.Base.Slices.{take-drop, drop-append}
use tinc.Route.{Packet, word, byte, NodeId, Output, Traffic, Network, ip_size, send_packet}
use tinc.Route.Checksum.{inet_checksum}
use tinc.Route.Unreachable.{slice, stored}
use tinc.Route.Fragment.{
  fragment_header, fragment, fragment_loop, maximum, fragment_room, fragment_ipv4_packet,
}

-- The calls from `log` to `log'`, the latest first, send `payload` to `dest` in pieces: each is in a
-- packet that is whole, not longer than `limit`, and not empty; behind a frame and an IP header of
-- `front` bytes it carries the next piece, of a multiple of eight bytes if more is to come.
pub data Pieces (dest : NodeId) (front limit : ℕ) : Bytes → List Output → List Output → Type 0 where
  done : {log : List Output} → Pieces dest front limit [] log log
  piece :
      {payload rest : Bytes} {log log' : List Output} {q : Packet}
      → q.len ≡ length q.cells
      → q.len ≤ limit
      → front < q.len
      → payload ≡ drop front q.cells ++ rest
      → (0 < length rest → (q.len - front) % 8 ≡ 0)
      → Pieces dest front limit rest (Output.sent dest q ∷ log) log'
      → Pieces dest front limit payload log log'

length-slice : (xs : Bytes) (a n : ℕ) → a + n ≤ length xs → length (slice xs a n) ≡ n
length-slice xs a n h = omega (arith, length-take n (drop a xs), length-drop a xs)

length-fragment_header :
    (ip : Bytes) (len off : ℕ) → length ip ≡ 20 → length (fragment_header ip len off) ≡ 20
unfolding fragment_header be16
length-fragment_header ip len off h =
    let behind = be16 off ++ slice ip 8 2 in
    let middle = be16 (ip_size + len) ++ (slice ip 4 2 ++ behind) in
    let front = take 2 ip ++ middle in
    let sum = stored (inet_checksum (front ++ (0 ∷ 0 ∷ slice ip 12 8)) 65535) in
    omega (
      arith,
      length-append front (sum ++ slice ip 12 8),
      length-append (take 2 ip) middle,
      length-append (slice ip 4 2) behind,
      length-take 2 ip,
      length-slice ip 4 2 (omega arith),
      length-slice ip 8 2 (omega arith),
      length-slice ip 12 8 (omega arith),
    )

-- The limit of a fragment's payload.
fragment_room_lem :
    (mtu ether_size : ℕ)
    → ether_size ≤ 100
    → (0 < fragment_room mtu ether_size)
      × (fragment_room mtu ether_size % 8 ≡ 0)
      × (fragment_room mtu ether_size + ether_size + 20 ≤ maximum mtu 590)
unfolding fragment_room
fragment_room_lem mtu ether_size h = ground arith

module _ (dest : NodeId) (p : Packet) (ether_size : ℕ) (ip : Bytes) (maxlen limit origf : ℕ)
    (frame : ether_size ≤ length p.cells) (header : length ip ≡ 20) (room : 0 < maxlen)
    (units : maxlen % 8 ≡ 0) (most : ether_size + 20 + maxlen ≤ limit) where
  -- The frame and the IP header of a fragment.
  abbrev before : Bytes → ℕ → Bytes
  before chunk off = take ether_size p.cells ++ fragment_header ip (length chunk) off

  length-before : (chunk : Bytes) (off : ℕ) → length (before chunk off) ≡ ether_size + 20
  length-before chunk off = omega (
    arith,
    length-append (take ether_size p.cells) (fragment_header ip (length chunk) off),
    length-take ether_size p.cells,
    length-fragment_header ip (length chunk) off header,
  )

  cells-fragment :
      (chunk : Bytes) (off : ℕ)
      → (fragment p ether_size ip chunk off).cells ≡ before chunk off ++ chunk
  unfolding fragment
  cells-fragment chunk off =
      sym (append_assoc (take ether_size p.cells) (fragment_header ip (length chunk) off) chunk)

  piece_is :
      (chunk : Bytes) (off : ℕ)
      → ether_size + 20 + length chunk < 2 ^ 16
      → let q = fragment p ether_size ip chunk off in
        (q.len ≡ ether_size + 20 + length chunk)
        × (q.len ≡ length q.cells)
        × (drop (ether_size + 20) q.cells ≡ chunk)
  unfolding fragment
  piece_is chunk off h =
      let whole = before chunk off in
      let e = cells-fragment chunk off in
      let l = length-before chunk off in
      let same : length (fragment p ether_size ip chunk off).cells ≡ length (whole ++ chunk) =
        ap length e in
      (
        omega arith,
        omega (arith, same, l, length-append whole chunk),
        ap (drop (ether_size + 20)) e ∙ drop-append (ether_size + 20) whole chunk l,
      )

  fragment_loop-Pieces :
      (rounds : ℕ) (payload : Bytes) (ip_off : ℕ) (s : Traffic)
      → length payload ≤ rounds
      → ether_size + 20 + length payload < 2 ^ 16
      → Pieces dest
          (ether_size + 20)
          limit
          payload
          s.log
          ((fragment_loop rounds dest p ether_size ip maxlen origf payload ip_off s).log)
  unfolding fragment_loop
  fragment_loop-Pieces zero [] ip_off s enough fits = Pieces.done
  fragment_loop-Pieces zero (b ∷ bs) ip_off s enough fits = absurd (omega arith)
  fragment_loop-Pieces (suc rounds) [] ip_off s enough fits = Pieces.done
  fragment_loop-Pieces (suc rounds) (b ∷ bs) ip_off s enough fits =
      let payload : Bytes = b ∷ bs in
      let len : ℕ = if ltb maxlen (length payload) then maxlen else length payload in
      let more : ℕ = if ltb len (length payload) then 8192 else 0 in
      let chunk = take len payload in
      let off = bit_or (bit_or ip_off origf) more in
      let bounds : (0 < len)
          × (len ≤ length payload)
          × (len ≤ maxlen)
          × (len < length payload → len ≡ maxlen) =
        ground arith in
      let here = length-take len payload in
      let next = length-drop len payload in
      let (long, whole, carried) = piece_is chunk off (omega (arith, here)) in
      let q = fragment p ether_size ip chunk off in
      let some_left : (length payload == 0) ≡ false = ground arith in
      rw some_left (
        Pieces.piece whole (omega (arith, here, long, most)) (omega (arith, here, long, most))
          (sym (take-drop len payload) ∙ ap (λ c. c ++ drop len payload) (sym carried))
          (λ left. omega (arith, here, long, next, units, bounds.3 (omega (arith, next))))
          (fragment_loop-Pieces rounds (drop len payload) ((ip_off + len / 8) % 2 ^ 16)
            (send_packet dest q s) (omega (arith, next)) (omega (arith, next))))

-- A packet that is whole in memory and has an IPv4 header without options, whose length is that
-- which the header says, is sent to `dest` in pieces that carry its payload in order. Each piece is
-- not empty, whole, with its headers not longer than the MTU of `dest` or 590, whichever is more,
-- and of a multiple of eight bytes but for the last.
pub fragment_ipv4_packet-Pieces :
    (net : Network) (dest : NodeId) (ether_size : ℕ) (s : Traffic)
    → ether_size ≤ 100
    → ether_size + 20 ≤ s.packet.len
    → s.packet.len ≤ length s.packet.cells
    → s.packet.len < 2 ^ 16
    → byte s.packet ether_size % 16 ≡ 5
    → ether_size + word s.packet (ether_size + 2) ≡ s.packet.len
    → Pieces dest
        (ether_size + 20)
        (maximum ((net.nodes dest).mtu) 590)
        (slice s.packet.cells (ether_size + 20) (s.packet.len - (ether_size + 20)))
        s.log
        ((fragment_ipv4_packet net dest ether_size s).log)
unfolding fragment_ipv4_packet
fragment_ipv4_packet-Pieces net dest ether_size s small front within short plain total =
    let p = s.packet in
    let mtu = (net.nodes dest).mtu in
    let off = word p (ether_size + 6) in
    let payload = slice p.cells (ether_size + 20) (p.len - (ether_size + 20)) in
    let (room, units, most) = fragment_room_lem mtu ether_size small in
    let size = length-slice p.cells (ether_size + 20) (p.len - (ether_size + 20)) (omega arith) in
    let pieces =
      fragment_loop-Pieces dest p ether_size (slice p.cells ether_size 20)
        (fragment_room mtu ether_size) (maximum mtu 590) (off - off % 8192) (omega arith)
        (length-slice p.cells ether_size 20 (omega arith)) room units (omega (arith, most))
        (p.len - (ether_size + 20)) payload (off % 8192) s (omega (arith, size))
        (omega (arith, size)) in
    let todo : (word p (ether_size + 2) + 2 ^ 64 - ip_size) % 2 ^ 64 ≡ p.len - (ether_size + 20) =
      omega (arith, total) in
    let agree : ((ether_size + ip_size + (p.len - (ether_size + 20))) % 2 ^ 64 == p.len) ≡ true =
      ground arith in
    let none_left : (byte p ether_size % 16 == 5) ≡ true = ground arith in
    rw (none_left, todo, agree) pieces
