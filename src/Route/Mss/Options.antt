-- ===== src/Route/Mss/Options.antt =====
-- The TCP header of a packet and its options, which `clamp_mss` of src/route.c looks for.
use tinc.Base.{
  ℕ, ◌+◌, ◌-◌, ◌*◌, ◌/◌, ◌%◌, ◌≡◌, ◌&&◌, Bool, false, leb, ltb, Option, none, some, ◌==◌,
  if◌then◌else◌,
}
use tinc.Route.{Packet, pair, byte, word}
use tinc.Route.Mss.{new_mss}

-- Where the TCP header of a frame starts, if it has one: behind the Ethernet header, a VLAN tag, an
-- outer IPv4 header of 20 bytes (protocol 4) and the IP header.
abbrev pub ip_start : Packet → ℕ → ℕ → ℕ
ip_start p type start = if type == 2048 && byte p (start + 9) == 4 then start + 20 else start

abbrev pub tcp_of : Packet → ℕ → ℕ → Option ℕ
tcp_of p type start =
    if leb p.len (start + 20)
    then none
    else (if type == 2048 && byte p (start + 9) == 6
        then some (start + byte p start % 16 * 4)
        else (if type == 34525 && byte p (start + 6) == 6 then some (start + 40) else none))

abbrev pub tcp_start : Packet → Option ℕ
tcp_start p =
    if word p 12 == 33024
    then tcp_of p (word p 16) (ip_start p (word p 16) 18)
    else tcp_of p (word p 12) (ip_start p (word p 12) 14)

-- The bytes of options of the TCP header at `n`, and whether it lies in the packet.
abbrev pub options_len : Packet → ℕ → ℕ
options_len p n = (byte p (n + 12) / 16 - 5) * 4

abbrev pub fits : Packet → ℕ → Bool
fits p n = ltb (n + 20) p.len && leb (n + byte p (n + 12) / 16 * 4) p.len

-- An option starts at `i`: the first does, and one behind a filler or another option.
pub data IsOption (p : Packet) (n : ℕ) : ℕ → Type 0 where
  at_first : IsOption p n 0
  behind_filler : (i j : ℕ) → IsOption p n i → byte p (n + 20 + i) ≡ 1 → j ≡ i + 1 → IsOption p n j
  behind_option :
      (i j : ℕ)
      → IsOption p n i
      → (byte p (n + 20 + i) == 2) ≡ false
      → j ≡ i + byte p (n + 21 + i)
      → IsOption p n j

-- The first option is an MSS option of four bytes, whose MSS is above the one that fits.
abbrev pub first_over : ℕ → Packet → ℕ → Bool
first_over mtu p n =
    fits p n
    && leb 4 (options_len p n)
    && byte p (n + 20) == 2
    && byte p (n + 21) == 4
    && ltb (new_mss mtu n) (pair (byte p (n + 22)) (byte p (n + 23)))
