-- ===== src/Mtu/Tests.antt =====
-- The path MTU of src/net_packet.c while probes come in.
use tinc.Base.{◌≡◌, false, true, none, [], ◌∷◌, List, arith, refl}
use tinc.Subnet.{pos, negsuc}
use tinc.Route.{Packet}
use tinc.Mtu.{
  Peer, try_fix_mtu, reduce_mtu, take_time, confirm, raise_mtu, answered_len, udp_probe_h,
  send_udp_probe_reply,
}
use tinc.Mtu.Laws.{Answers, Happening, Bounded, run, run-Bounded}

abbrev node : Peer
node = record {
  options = 0;
  sptps = true;
  validkey = true;
  udp_confirmed = false;
  ping_sent = true;
  udp_ping_sent = 1000;
  udp_ping_rtt = negsuc 0;
  mtu_ping_sent = 0;
  maxrecentlen = 0;
  mtu = 0;
  minmtu = 0;
  maxmtu = 1518;
  mtuprobes = pos 2;
  address_cache = false;
  edge_address = none;
  now = 0;
  marks = [];
}

-- The answer to a probe of 1400 bytes.
abbrev answer : Packet
answer = record { len = 18; priority = 0; cells = 2 ∷ 5 ∷ 120 ∷ [] }

-- A request of 1500 bytes, which is no answer.
abbrev request : Packet
request = record { len = 1500; priority = 0; cells = 0 ∷ 0 ∷ 0 ∷ [] }

-- After the request it comes in, then a packet of 1401 bytes turns out too long, and that ends the discovery.
abbrev discovery : List Happening
discovery =
    Happening.probe true 30 4000 request 1500
    ∷ Happening.probe true 30 5000 answer 18
    ∷ Happening.too_big 1400
    ∷ Happening.look
    ∷ []

answered : Answers 1400 discovery
unfolding answered_len
answered = (refl, (refl, tt))

run-Bounded_example : Bounded 1400 (run discovery node)
run-Bounded_example = run-Bounded 1400 discovery node answered (omega arith, omega arith)

found_1400 : (run discovery node).mtu ≡ 1400
unfolding try_fix_mtu reduce_mtu take_time confirm raise_mtu answered_len udp_probe_h
    send_udp_probe_reply
found_1400 = refl
