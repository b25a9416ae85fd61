-- ===== src/Route/Mss/Laws.antt =====
-- What `clamp_mss` of src/route.c does to a packet.
use tinc.Base.{
  ℕ, ◌+◌, ◌/◌, ◌%◌, ◌≤◌, ◌<◌, ◌≡◌, ◌⊎◌, Bool, true, false, Option, none, some, length, set, ◌==◌,
}
use tinc.Base.Bytes.{Bytes, AllBytes}
use tinc.Route.{Packet, pair, byte}
use tinc.Route.Mss.Options.{tcp_start, options_len, fits, IsOption, first_over}
use tinc.Route.Mss.{write_mss, new_mss}

-- The writes of the new value and of the checksum `c`.
module _ (cells : Bytes) (n i v c : ℕ) (room : n + 24 + i ≤ length cells) where
  abbrev valued : Bytes
  valued = set (set cells (n + 22 + i) (v / 256)) (n + 23 + i) (v % 256)

  abbrev written : Bytes
  written = set (set valued (n + 16) (c / 256 % 256)) (n + 17) (c % 256)

-- The packet is as it was and its first option needs no change, or an option of the TCP header at
-- `n` is of kind MSS with a value above the one that fits into the MTU behind a TCP header at `n`:
-- it then has that one, and with the checksum of the header the same sum by 65535.
unfoldable pub ClampedAt : ℕ → ℕ → Packet → Packet → Type 0
ClampedAt mtu n p q =
    ((q ≡ p) × (first_over mtu p n ≡ false))
    ⊎ ((fits p n ≡ true)
        × (i : ℕ) × IsOption p n i
        × (byte p (n + 20 + i) ≡ 2)
        × (i + byte p (n + 21 + i) ≤ options_len p n)
        × (q ≡ write_mss p n i (new_mss mtu n))
        × (new_mss mtu n < pair (byte p (n + 22 + i)) (byte p (n + 23 + i)))
        × (pair (byte q (n + 22 + i)) (byte q (n + 23 + i)) ≡ new_mss mtu n)
        × ((pair (byte q (n + 16)) (byte q (n + 17))
                + pair (byte q (n + 22 + i)) (byte q (n + 23 + i)))
              % 65535
            ≡ (pair (byte p (n + 16)) (byte p (n + 17))
                + pair (byte p (n + 22 + i)) (byte p (n + 23 + i)))
              % 65535))

-- A packet without a TCP header is as it was.
abbrev pub ClampedIf : ℕ → Option ℕ → Packet → Packet → Type 0
ClampedIf mtu none p q = q ≡ p
ClampedIf mtu (some n) p q = ClampedAt mtu n p q

-- So is one on the way to a node that does not ask for clamping.
abbrev pub Clamped : Bool → ℕ → Packet → Packet → Type 0
Clamped false mtu p q = q ≡ p
Clamped true mtu p q = ClampedIf mtu (tcp_start p) p q

module _ (p : Packet) (h : AllBytes p.cells) (mtu : ℕ) where
  -- The packet and two bytes behind it are memory, and the TCP header at `n` lies in the packet.
  module _ (slack : p.len + 2 ≤ length p.cells) (n : ℕ) (inside : fits p n ≡ true) where
    -- The loop is at the first option, or that one is not of kind MSS.
    abbrev PastFirst : ℕ → Type 0
    PastFirst i = (i ≡ 0) ⊎ ((byte p (n + 20) == 2) ≡ false)
