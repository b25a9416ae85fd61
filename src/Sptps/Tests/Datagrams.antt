-- ===== src/Sptps/Tests/Datagrams.antt =====
-- A record that goes from one toy session to another over a datagram.
use tinc.Base.{
  ℕ, ◌+◌, ◌-◌, ◌≡◌, refl, true, none, some, [], ◌∷◌, ◌++◌, length, length-append, arith,
}
use tinc.Base.Slices.{take-append, drop-append}
use tinc.Base.Bytes.{Bytes}
use tinc.Sptps.Window.{check_seqno}
use tinc.Sptps.Session.{Crypto, Session, State, Event}
use tinc.Sptps.Send.{send_record}
use tinc.Sptps.Receive.{receive_data}
use tinc.Sptps.Datagrams.{latest_sent, sent_is_delivered}
use tinc.Sptps.Tests.Toy.{toy, same_bytes, tag, alice, bob}

-- After the handshake, over datagrams.
abbrev settled : Session toy → Session toy
settled s = record s {
  datagram = true;
  state = State.secondary_kex;
  instate = true;
  incipher = some [];
  outstate = true;
  outcipher = some [];
  ecdh = none;
  mykex = none;
  hiskex = none;
}

same_bytes_refl : (b : Bytes) → same_bytes b b ≡ true
same_bytes_refl [] = refl
same_bytes_refl (x ∷ b) = ground (arith, same_bytes_refl b)

toy_undone : (n : ℕ) (p : Bytes) → Crypto.decrypt toy [] n (Crypto.encrypt toy [] n p) ≡ some p
toy_undone n p =
    let size : length (p ++ tag [] n) - 16 ≡ length p = omega (arith, length-append p (tag [] n)) in
    ground (
      arith,
      length-append p (tag [] n),
      size,
      drop-append (length p) p (tag [] n) refl,
      take-append (length p) p (tag [] n) refl,
      same_bytes_refl (tag [] n),
    )

toy_tagged : (n : ℕ) (p : Bytes) → length (Crypto.encrypt toy [] n p) ≡ length p + 16
toy_tagged n p = length-append p (tag [] n)

sent_is_delivered_example :
    (receive_data toy
      (latest_sent (send_record toy 0 (7 ∷ 8 ∷ []) (settled alice)).1.log)
      (settled bob)).1
    ≡ record (settled bob) {
      win = (check_seqno (settled bob).win 1 true).1;
      log = Event.delivered 0 (7 ∷ 8 ∷ []) ∷ (settled bob).log;
    }
unfolding check_seqno
sent_is_delivered_example =
    sent_is_delivered toy [] [] 0 (7 ∷ 8 ∷ []) toy_undone toy_tagged (settled alice) (settled bob)
      refl refl refl (omega arith) refl refl refl refl refl (omega arith) (omega arith)
