-- ===== src/Sptps/Safety/Start.antt =====
-- `sptps_start` and `sptps_send_record` of src/sptps.c.
use tinc.Base.{ℕ, Bool, false, ◌&&◌, ◌≡◌, arith, ltb}
use tinc.Base.Bytes.{Bytes}
use tinc.Base.Action.{failed}
use tinc.Sptps.Session.{Crypto, Host, Session, handshake_type}
use tinc.Sptps.Send.{send_record}
use tinc.Sptps.Handshake.{fresh, start}
use tinc.Sptps.Safety.Ready.{Safe, Safe-intro, Ensures}
use tinc.Sptps.Safety.Send.{send_kex-Ensures}
use tinc.Sptps.Safety.Stream.{IsSound}

module _ {c : Crypto} where
  start-IsSound :
      (replaywin : ℕ) (initiator datagram : Bool) (mykey hiskey : Crypto.Key c) (label : Bytes)
      (host : Host c)
      → Ensures IsSound (start c replaywin initiator datagram mykey hiskey label host)
  unfolding start fresh
  start-IsSound replaywin initiator datagram mykey hiskey label host =
      ground
        (arith, send_kex-Ensures (fresh c replaywin initiator datagram mykey hiskey label host))

  -- `sptps_start` does not fault, and a session that it starts is sound.
  pub start-Safe :
      (replaywin : ℕ) (initiator datagram : Bool) (mykey hiskey : Crypto.Key c) (label : Bytes)
      (host : Host c)
      → Safe IsSound (start c replaywin initiator datagram mykey hiskey label host)
  start-Safe replaywin initiator datagram mykey hiskey label host =
      Safe-intro IsSound _ (start-IsSound replaywin initiator datagram mykey hiskey label host)

  -- The application cannot send before the first key exchange has finished, nor records of the
  -- types that the protocol keeps for itself: nothing is sent and the session is left as it was.
  pub send_record_refused :
      (s : Session c) (type : ℕ) (body : Bytes)
      → (s.outstate && ltb type handshake_type) ≡ false
      → send_record c type body s ≡ (failed, s)
  unfolding send_record
  send_record_refused s type body h = ground arith
