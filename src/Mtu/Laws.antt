-- ===== src/Mtu/Laws.antt =====
-- What the path MTU in src/net_packet.c can become.
use tinc.Base.{
  ℕ, ◌≤◌, ◌≡◌, Bool, true, ◌&&◌, ◌||◌, leb, inl, inr, Bool-cases, Option, none, some, List, [], ◌∷◌,
  ltb, ◌==◌, if◌then◌else◌, arith, if_intro,
}
use tinc.Base.Bytes.{Bytes}
use tinc.Subnet.{negsuc}
use tinc.Route.{Packet, byte}
use tinc.Mtu.{
  Peer, Mark, least_mtu, at_most, is_negative, try_fix_mtu, reduce_mtu, udp_probe_timeout_handler,
  send_udp_probe_reply, mark, remember, take_time, confirm, raise_mtu, answered_len, udp_probe_h,
}

-- What happens to a node: a probe comes in, a packet was too long for the system, the ping timer
-- runs out, or `try_mtu` looks at the number of probes.
pub data Happening : Type 0 where
  probe : (udp_discovery : Bool) (timeout clock : ℕ) → Packet → ℕ → Happening
  too_big : ℕ → Happening
  silence look : Happening

abbrev pub happen : Happening → Peer → Peer
happen (Happening.probe discovery timeout clock packet len) n =
    udp_probe_h discovery timeout clock n packet len
happen (Happening.too_big mtu) n = reduce_mtu n mtu
happen Happening.silence n = udp_probe_timeout_handler n
happen Happening.look n = try_fix_mtu n

abbrev pub run : List Happening → Peer → Peer
run [] n = n
run (h ∷ more) n = run more (happen h n)

-- No answer speaks of more than `b` bytes; a probe of type 0 is a request, not an answer.
abbrev pub Answers : ℕ → List Happening → Type 0
Answers b [] = Unit {0}
Answers b (Happening.probe discovery timeout clock packet len ∷ more) =
    ((byte packet 0 == 0 || leb (answered_len packet len) b) ≡ true) × Answers b more
Answers b (Happening.too_big mtu ∷ more) = Answers b more
Answers b (Happening.silence ∷ more) = Answers b more
Answers b (Happening.look ∷ more) = Answers b more

abbrev pub Bounded : ℕ → Peer → Type 0
Bounded b n = (n.mtu ≤ b) × (n.minmtu ≤ b)

module _ (b : ℕ) where
  try_fix_mtu-Bounded : (n : Peer) → Bounded b n → Bounded b (try_fix_mtu n)
  unfolding try_fix_mtu
  try_fix_mtu-Bounded n h = ground arith

  reduce_mtu-Bounded : (n : Peer) (mtu : ℕ) → Bounded b n → Bounded b (reduce_mtu n mtu)
  unfolding reduce_mtu
  reduce_mtu-Bounded n mtu h =
      let limit : ℕ = if ltb mtu least_mtu then least_mtu else mtu in
      let cut = record n { maxmtu = at_most limit n.maxmtu; mtu = at_most limit n.mtu } in
      try_fix_mtu-Bounded cut (ground arith)

  silence-Bounded : (n : Peer) → Bounded b n → Bounded b (udp_probe_timeout_handler n)
  unfolding udp_probe_timeout_handler
  silence-Bounded n h = ground arith

  raise_mtu-Bounded : (len : ℕ) (n : Peer) → len ≤ b → Bounded b n → Bounded b (raise_mtu len n)
  unfolding raise_mtu
  raise_mtu-Bounded len n l h =
      let Good : Peer → Type 0 = Bounded b in
      let fixed : (t : Peer) → Bounded b t → Bounded b (try_fix_mtu (record t { minmtu = len })) =
        λ t k. try_fix_mtu-Bounded (record t { minmtu = len }) (k.0, l) in
      let again = record n { mtuprobes = negsuc 0; mtu_ping_sent = n.now } in
      if_intro Good (ltb n.maxmtu len) (h.0, l)
        (if_intro
          (λ (t : Peer).
            Bounded b (if ltb t.minmtu len then try_fix_mtu (record t { minmtu = len }) else t))
          (is_negative n.mtuprobes && len == n.maxmtu)
          (if_intro Good (ltb n.minmtu len) (fixed again h) h)
          (if_intro Good (ltb n.minmtu len) (fixed n h) h))

  -- What comes before in `udp_probe_h` does not touch the MTU.
  remember-Bounded :
      (address : Option Bytes) (n : Peer) → Bounded b n → Bounded b (remember address n)
  remember-Bounded none n h = h
  remember-Bounded (some address) n h = h

  confirm-Bounded : (n : Peer) → Bounded b n → Bounded b (confirm n)
  unfolding confirm
  confirm-Bounded n h =
      let cached = record n { udp_confirmed = true } in
      let fresh = mark Mark.opened (record n { udp_confirmed = true; address_cache = true }) in
      if_intro (Bounded b) n.udp_confirmed {x = n} h (
        remember-Bounded n.edge_address (if n.address_cache then cached else fresh)
          (if_intro (Bounded b) n.address_cache {x = cached} {y = fresh} h h))

  take_time-Bounded : (clock : ℕ) (n : Peer) → Bounded b n → Bounded b (take_time clock n)
  unfolding take_time
  take_time-Bounded clock n h = ground arith

  reply-Bounded :
      (n : Peer) (packet : Packet) (len : ℕ)
      → Bounded b n
      → Bounded b (send_udp_probe_reply n packet len)
  unfolding send_udp_probe_reply
  reply-Bounded n packet len h = ground arith

  udp_probe_h-Bounded :
      (discovery : Bool) (timeout clock : ℕ) (n : Peer) (packet : Packet) (len : ℕ)
      → (byte packet 0 == 0 || leb (answered_len packet len) b) ≡ true
      → Bounded b n
      → Bounded b (udp_probe_h discovery timeout clock n packet len)
  unfolding udp_probe_h
  udp_probe_h-Bounded discovery timeout clock n packet len l h =
      let n1 = confirm (take_time clock n) in
      let n2 = mark (Mark.restarted timeout) n1 in
      let known = confirm-Bounded (take_time clock n) (take_time-Bounded clock n h) in
      let size = answered_len packet len in
      elim (Bool-cases (byte packet 0 == 0)) [
        | inl request ↦ rw request (reply-Bounded n packet len h)
        | inr answer ↦ rw answer (
            raise_mtu-Bounded size (if discovery then n2 else n1) (ground (arith, l, answer))
              (if_intro (Bounded b) discovery {x = n2} {y = n1} known known))
      ]

-- If a number bounds the MTU and the minimum MTU of a node and every length that an answer speaks
-- of, it bounds both MTUs whatever happens: probes and answers in any order, packets that were too
-- long, silence, and the end of the discovery.
pub run-Bounded :
    (b : ℕ) (happenings : List Happening) (n : Peer)
    → Answers b happenings
    → Bounded b n
    → Bounded b (run happenings n)
run-Bounded b [] n a h = h
run-Bounded b (Happening.probe discovery timeout clock packet len ∷ more) n a h =
    run-Bounded b more (udp_probe_h discovery timeout clock n packet len) a.1
      (udp_probe_h-Bounded b discovery timeout clock n packet len a.0 h)
run-Bounded b (Happening.too_big mtu ∷ more) n a h =
    run-Bounded b more (reduce_mtu n mtu) a (reduce_mtu-Bounded b n mtu h)
run-Bounded b (Happening.silence ∷ more) n a h =
    run-Bounded b more (udp_probe_timeout_handler n) a (silence-Bounded b n h)
run-Bounded b (Happening.look ∷ more) n a h =
    run-Bounded b more (try_fix_mtu n) a (try_fix_mtu-Bounded b n h)
