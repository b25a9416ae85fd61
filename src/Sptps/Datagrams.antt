-- ===== src/Sptps/Datagrams.antt =====
-- A record of src/sptps.c on its way from one end to the other in a datagram.
use tinc.Base.{
  ℕ, ◌+◌, ◌^◌, ◌<◌, ◌≤◌, ◌≡◌, refl, true, false, some, List, [], ◌∷◌, ◌++◌, length, take, drop, ◌%◌,
  arith,
}
use tinc.Base.Bytes.{Bytes, be32, from_be32, from_be32-be32}
use tinc.Base.Slices.{take_past}
use tinc.Sptps.Window.{check_seqno}
use tinc.Sptps.Session.{Crypto, Session, Event}
use tinc.Sptps.Send.{send_record, send_record_priv, send_record_priv_datagram, emit}
use tinc.Sptps.Receive.{
  is_unset, deliver, handle_record, check_seqno_session, receive_sealed_datagram,
  receive_data_datagram, receive_data,
}

-- The bytes of the latest call of `send_data`.
abbrev pub latest_sent : List Event → Bytes
latest_sent [] = []
latest_sent (Event.sent type buffer ∷ log) = buffer
latest_sent (Event.delivered type body ∷ log) = latest_sent log

u16_bytes_short : (b : Bytes) → length b < 2 ^ 16 → take (length b % 2 ^ 16) b ≡ b
u16_bytes_short b h = take_past (length b % 2 ^ 16) b (omega arith)

module _ (c : Crypto) (k k' : Crypto.Cipher c) (type : ℕ) (body : Bytes) where
  datagram : ℕ → Bytes
  datagram n = be32 n ++ Crypto.encrypt c k n (type ∷ body)

  send_record_sent :
      (a : Session c)
      → a.datagram ≡ true
      → a.outstate ≡ true
      → a.outcipher ≡ some k
      → type < 128
      → length body < 2 ^ 16
      → (send_record c type body a).1.log ≡ Event.sent type (datagram a.outseqno) ∷ a.log
  unfolding datagram send_record send_record_priv send_record_priv_datagram emit
  send_record_sent a d o e t h = ground (arith, u16_bytes_short body h)

  datagram_parts :
      (n : ℕ)
      → n < 2 ^ 32
      → (from_be32 (take 4 (datagram n)) ≡ n)
        × (drop 4 (datagram n) ≡ Crypto.encrypt c k n (type ∷ body))
        × (length (datagram n) ≡ length (Crypto.encrypt c k n (type ∷ body)) + 4)
  unfolding datagram be32
  datagram_parts n h = (from_be32-be32 n h, refl, omega arith)

  -- The cipher of the receiver undoes that of the sender, which adds 16 bytes.
  module _ (undone : (n : ℕ) (p : Bytes) → Crypto.decrypt c k' n (Crypto.encrypt c k n p) ≡ some p)
      (tagged : (n : ℕ) (p : Bytes) → length (Crypto.encrypt c k n p) ≡ length p + 16) where
    delivered :
        (b : Session c) (n : ℕ)
        → b.instate ≡ true
        → b.incipher ≡ some k'
        → (check_seqno b.win n true).0 ≡ true
        → type < 128
        → length body < 2 ^ 16
        → (receive_sealed_datagram c n (Crypto.encrypt c k n (type ∷ body)) b).1
          ≡ record b { win = (check_seqno b.win n true).1; log = Event.delivered type body ∷ b.log }
    unfolding receive_sealed_datagram check_seqno_session handle_record deliver
    delivered b n i e w t h = ground (arith, undone n (type ∷ body), u16_bytes_short body h)

    received :
        (b : Session c) (n : ℕ)
        → n < 2 ^ 32
        → b.datagram ≡ true
        → b.instate ≡ true
        → b.incipher ≡ some k'
        → is_unset b.state ≡ false
        → (check_seqno b.win n true).0 ≡ true
        → type < 128
        → length body < 2 ^ 16
        → (receive_data c (datagram n) b).1
          ≡ record b { win = (check_seqno b.win n true).1; log = Event.delivered type body ∷ b.log }
    unfolding receive_data receive_data_datagram
    received b n m d i e u w t h =
        let (number, sealed, size) = datagram_parts n m in
        let long : 21 ≤ length (datagram n) = omega (arith, size, tagged n (type ∷ body)) in
        ground (arith, number, sealed, long, delivered b n i e w t h)

    -- Delivery of datagrams. If both ends have their keys, the receiver's cipher undoes the
    -- sender's, which adds 16 bytes, and the receiver's window lets the sender's next number pass,
    -- then the bytes that `sptps_send_record` hands to `send_data` for an application record of
    -- less than 65536 bytes make `sptps_receive_data` of the receiver deliver that record, its type
    -- and its bytes, once; but for that call and the window the receiver's session stays as it is.
    pub sent_is_delivered :
        (a b : Session c)
        → a.datagram ≡ true
        → a.outstate ≡ true
        → a.outcipher ≡ some k
        → a.outseqno < 2 ^ 32
        → b.datagram ≡ true
        → b.instate ≡ true
        → b.incipher ≡ some k'
        → is_unset b.state ≡ false
        → (check_seqno b.win a.outseqno true).0 ≡ true
        → type < 128
        → length body < 2 ^ 16
        → (receive_data c (latest_sent (send_record c type body a).1.log) b).1 ≡ record b {
          win = (check_seqno b.win a.outseqno true).1;
          log = Event.delivered type body ∷ b.log;
        }
    sent_is_delivered a b da oa ea m db ib eb ub w t h =
        rw (send_record_sent a da oa ea t h) (received b a.outseqno m db ib eb ub w t h)
