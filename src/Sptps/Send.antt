-- ===== src/Sptps/Send.antt =====
-- Sending records (src/sptps.c): the private sender for datagrams and for streams, the sender
-- for the application, and the senders of the handshake messages.
use tinc.Base.{
  ℕ, ◌+◌, Bool, true, false, Option, none, some, [], ◌∷◌, ◌++◌, length, take, drop, replicate, ltb,
  if◌then◌else◌,
}
use tinc.Base.Bytes.{u32, Bytes, be16, be32, u16_bytes}
use tinc.Base.Action.{Action, ok, failed, ◌>>=◌, ◌>>◌, get, modify, guard, need, try}
use tinc.Sptps.Session.{Crypto, Session, Event, handshake_type}

abbrev pub is_none {ℓ} : {A : Type ℓ} → Option A → Bool
is_none none = true
is_none (some a) = false

-- sizeof(sptps_kex_t), and its parts
abbrev pub kex_size : ℕ
kex_size = 65

abbrev pub kex_nonce : Bytes → Bytes
kex_nonce k = take 32 (drop 1 k)

abbrev pub kex_pubkey : Bytes → Bytes
kex_pubkey k = drop 33 k

-- The message that a signature covers.
unfoldable pub fill_msg : Bool → Bytes → Bytes → Bytes → Bytes
fill_msg initiator kex0 kex1 label = (if initiator then 1 else 0) ∷ (kex0 ++ (kex1 ++ label))

module _ (c : Crypto) where
  open c use {encrypt, ecdsa_sign}

  -- The call of the `send_data` callback.
  unfoldable pub emit : ℕ → Bytes → Action (Session c) (Unit {0})
  emit type buffer s = (
    if s.send_data s.log type buffer then ok tt else failed,
    record s { log = Event.sent type buffer ∷ s.log },
  )

  -- `s->outseqno++`
  abbrev pub next_outseqno : Session c → Session c
  next_outseqno s = record s { outseqno = u32 (s.outseqno + 1) }

  unfoldable pub send_record_priv_datagram : ℕ → Bytes → Action (Session c) (Unit {0})
  send_record_priv_datagram type body = do
    s ← get
    modify next_outseqno
    let header = be32 s.outseqno
    if s.outstate
        then (do k ← need s.outcipher; emit type (header ++ encrypt k s.outseqno (type ∷ body)))
        else emit type (header ++ (type ∷ body))

  unfoldable pub send_record_stream : ℕ → Bytes → Action (Session c) (Unit {0})
  send_record_stream type body = do
    s ← get
    modify next_outseqno
    let header = be16 (length body)
    if s.outstate
        then (do k ← need s.outcipher; emit type (header ++ encrypt k s.outseqno (type ∷ body)))
        else emit type (header ++ (type ∷ body))

  unfoldable pub send_record_priv : ℕ → Bytes → Action (Session c) (Unit {0})
  send_record_priv type body = do
    s ← get
    if s.datagram
        then send_record_priv_datagram type (u16_bytes body)
        else send_record_stream type (u16_bytes body)

  unfoldable pub send_record : ℕ → Bytes → Action (Session c) (Unit {0})
  send_record type body = do
    s ← get
    guard s.outstate
    guard (ltb type handshake_type)
    send_record_priv type body

  unfoldable pub send_kex : Action (Session c) (Unit {0})
  send_kex = do
    s ← get
    guard (is_none s.mykex)
    let nonce = s.randomize s.log
    modify (λ (t : Session c). record t { mykex = some (0 ∷ (nonce ++ replicate 32 0)) })
    modify (λ (t : Session c). record t { ecdh = none })
    (e, pubkey) ← try (s.ecdh_generate_public s.log)
    let kex = 0 ∷ (nonce ++ pubkey)
    modify (λ (t : Session c). record t { mykex = some kex; ecdh = some e })
    send_record_priv handshake_type kex

  unfoldable pub send_sig : Action (Session c) (Unit {0})
  send_sig = do
    s ← get
    mine ← need s.mykex
    his ← need s.hiskex
    signature ← try (ecdsa_sign s.mykey (fill_msg s.initiator mine his s.label))
    send_record_priv handshake_type signature

  unfoldable pub send_ack : Action (Session c) (Unit {0})
  send_ack = send_record_priv handshake_type []
