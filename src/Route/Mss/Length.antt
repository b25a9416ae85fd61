-- ===== src/Route/Mss/Length.antt =====
-- `clamp_mss` of src/route.c: the length of a packet, and the length of its first option.
use tinc.Base.{
  ℕ, zero, suc, ◌+◌, ◌-◌, ◌*◌, ◌/◌, ◌%◌, ◌≡◌, ◌≢◌, refl, ◌&&◌, Option, none, some, ◌==◌, arith,
  if_intro,
}
use tinc.Route.{Packet, byte, word, NodeId, Network, ether_size}
use tinc.Route.Mss.{
  write_mss, least_mtu, clamp_option, mss_loop, clamp_tcp, clamp_ip, clamp_frame, clamp_mss,
}

module _ (p : Packet) (n len mtu : ℕ) where
  mss_loop-len : (rounds i : ℕ) → (mss_loop rounds p n len mtu i).len ≡ p.len
  unfolding mss_loop clamp_option write_mss
  mss_loop-len zero i = refl
  mss_loop-len (suc rounds) i =
      let one = mss_loop-len rounds (i + 1) in
      let more = mss_loop-len rounds (i + byte p (n + 21 + i)) in ground (arith, one, more)

clamp_tcp-len : (p : Packet) (n mtu : ℕ) → (clamp_tcp p n mtu).len ≡ p.len
unfolding clamp_tcp
clamp_tcp-len p n mtu =
    let len = (byte p (n + 12) / 16 - 5) * 4 in ground (arith, mss_loop-len p n len mtu len 0)

clamp_frame-len : (p : Packet) (type n mtu : ℕ) → (clamp_frame p type n mtu).len ≡ p.len
unfolding clamp_frame clamp_ip
clamp_frame-len p type n mtu =
    let Same : Packet → Type 0 = λ q. q.len ≡ p.len in
    if_intro (λ start. Same (clamp_ip p type start mtu)) (type == 2048 && byte p (n + 9) == 4)
      (at_ip (n + 20)) (at_ip n)
  where
    at_ip : (start : ℕ) → (clamp_ip p type start mtu).len ≡ p.len
    at_ip start = ground (
      arith,
      clamp_tcp-len p (start + byte p start % 16 * 4) mtu,
      clamp_tcp-len p (start + 40) mtu,
    )

-- The length of the packet stays.
pub clamp_mss-len :
    (net : Network) (source : NodeId) (via : Option NodeId) (p : Packet)
    → (clamp_mss net source via p).len ≡ p.len
unfolding clamp_mss
clamp_mss-len net source none p = refl
clamp_mss-len net source (some via) p =
    let mtu = least_mtu net source via in
    ground (
      arith,
      clamp_frame-len p (word p 16) (ether_size + 4) mtu,
      clamp_frame-len p (word p 12) ether_size mtu,
    )

mss_loop-first_option :
    (rounds : ℕ) (p : Packet) (start len mtu i : ℕ)
    → byte p (start + 21) ≢ 4
    → mss_loop rounds p start len mtu i ≡ p
unfolding mss_loop clamp_option
mss_loop-first_option zero p start len mtu i h = refl
mss_loop-first_option (suc rounds) p start len mtu i h =
    let one = mss_loop-first_option rounds p start len mtu (i + 1) h in
    let more = mss_loop-first_option rounds p start len mtu (i + byte p (start + 21 + i)) h in
    ground (arith, one, more)

-- If the second byte behind the fixed TCP header is not 4, no MSS option is clamped, wherever it is.
pub clamp_tcp-first_option :
    (p : Packet) (start mtu : ℕ) → byte p (start + 21) ≢ 4 → clamp_tcp p start mtu ≡ p
unfolding clamp_tcp
clamp_tcp-first_option p start mtu h =
    let len = (byte p (start + 12) / 16 - 5) * 4 in
    ground (arith, mss_loop-first_option len p start len mtu 0 h)
