-- ===== src/Sptps/Safety/Calls.antt =====
-- `sptps_send_record` and `sptps_verify_datagram` of src/sptps.c in a ready session.
use tinc.Base.{ℕ, ◌≡◌, arith}
use tinc.Base.Bytes.{Bytes}
use tinc.Sptps.Session.{Crypto, Session}
use tinc.Sptps.Send.{send_record}
use tinc.Sptps.Receive.{verify_datagram}
use tinc.Sptps.Safety.Ready.{Safe, Safe-intro, Ensures, IsReady}
use tinc.Sptps.Safety.Send.{Sent, send_record_priv-Sent}

module _ {c : Crypto} (s : Session c) (r : IsReady s) where
  IsReady-Sent : (t : Session c) → Sent s t → IsReady t
  IsReady-Sent t e = rw e (record {
    linked = r.linked;
    ciphers = r.ciphers;
    mine = r.mine;
    his = r.his;
    secret = r.secret;
    key = r.key;
    secured = r.secured;
  })

  send_record-Ensures :
      (type : ℕ) (body : Bytes) → Ensures (λ t. IsReady t × Sent s t) (send_record c type body s)
  unfolding send_record
  send_record-Ensures type body =
      let sent = send_record_priv-Sent s type body (ground (arith, r.ciphers)) in
      let t = (send_record c type body s).1 in ground (arith, sent, IsReady-Sent t)

  -- Sending a record does not fault in a ready session, and if it succeeds the session is ready
  -- again and nothing of it but the sequence number and the log has changed.
  pub send_record-Safe :
      (type : ℕ) (body : Bytes) → Safe (λ t. IsReady t × Sent s t) (send_record c type body s)
  send_record-Safe type body =
      Safe-intro (λ t. IsReady t × Sent s t) _ (send_record-Ensures type body)

  verify_datagram-Ensures : (buffer : Bytes) → Ensures (λ t. t ≡ s) (verify_datagram c buffer s)
  unfolding verify_datagram
  verify_datagram-Ensures buffer = ground (arith, r.ciphers, r.linked)

  -- Verifying a datagram does not fault in a ready session, and leaves it as it was.
  pub verify_datagram-Safe : (buffer : Bytes) → Safe (λ t. t ≡ s) (verify_datagram c buffer s)
  verify_datagram-Safe buffer = Safe-intro (λ t. t ≡ s) _ (verify_datagram-Ensures buffer)
