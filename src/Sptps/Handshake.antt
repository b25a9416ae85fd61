-- ===== src/Sptps/Handshake.antt =====
-- The handshake of src/sptps.c: key material, the receivers of the handshake messages, and the
-- state machine of `receive_handshake`, `sptps_force_kex` and `sptps_start`.
use tinc.Base.{
  ℕ, Bool, true, false, not, none, some, [], ◌∷◌, ◌++◌, length, take, drop, replicate, ◌==◌,
  if◌then◌else◌, get_or,
}
use tinc.Base.Bytes.{Bytes}
use tinc.Base.Action.{Action, Outcome, ok, ◌>>=◌, ◌>>◌, pure, get, modify, guard, need, try}
use tinc.Sptps.Session.{Crypto, Host, Session, State, Event, handshake_type}
use tinc.Sptps.Send.{
  is_none, kex_size, kex_nonce, kex_pubkey, fill_msg, send_kex, send_sig, send_ack,
}

-- "key expansion"
abbrev pub expansion : Bytes
expansion =
    b'k' ∷ b'e' ∷ b'y' ∷ b' ' ∷ b'e' ∷ b'x' ∷ b'p' ∷ b'a' ∷ b'n' ∷ b's' ∷ b'i' ∷ b'o' ∷ b'n' ∷ []

-- The seed: the initiator's nonce stands first on both sides.
unfoldable pub key_seed : Bool → Bytes → Bytes → Bytes → Bytes
key_seed initiator mine his label =
    expansion
    ++ (kex_nonce (if initiator then mine else his)
        ++ (kex_nonce (if initiator then his else mine) ++ label))

-- The two halves of `sptps_key_t`.
abbrev pub key0 : Bytes → Bytes
key0 k = take 64 k

abbrev pub key1 : Bytes → Bytes
key1 k = drop 64 k

-- A session is in one of the states that wait for a handshake message.
abbrev pub is_secondary_kex : State → Bool
is_secondary_kex State.secondary_kex = true
is_secondary_kex _ = false

module _ (c : Crypto) where
  open c use {cipher_init, set_key, ecdsa_size, ecdsa_verify, ecdh_compute_shared, prf}

  unfoldable pub init_ciphers : Action (Session c) (Unit {0})
  init_ciphers = do
    k ← try cipher_init
    modify (λ (t : Session c). record t { incipher = some k; outcipher = some k })

  unfoldable pub generate_key_material : Bytes → Action (Session c) (Unit {0})
  generate_key_material shared = do
    s ← get
    if s.outstate then pure tt else init_ciphers
    modify (λ (t : Session c). record t { key = some (replicate 128 0) })
    mine ← need s.mykex
    his ← need s.hiskex
    both ← try (prf shared (key_seed s.initiator mine his s.label) 128)
    modify (λ (t : Session c). record t { key = some both })

  unfoldable pub receive_ack : Bytes → Action (Session c) (Unit {0})
  receive_ack body = do
    guard (length body == 0)
    s ← get
    both ← need s.key
    old ← need s.incipher
    new ← try (set_key old (if s.initiator then key0 both else key1 both))
    modify (λ (t : Session c). record t { incipher = some new; key = none; instate = true })

  unfoldable pub receive_kex : Bytes → Action (Session c) (Unit {0})
  receive_kex body = do
    s ← get
    guard (length body == kex_size)
    guard (get_or body 0 0 == 0)
    guard (is_none s.hiskex)
    modify (λ (t : Session c). record t { hiskex = some body })
    if s.initiator then send_sig c else pure tt

  -- The end of `receive_sig`: the kex messages go, and the new key is set for sending.
  unfoldable pub change_outcipher : Action (Session c) (Unit {0})
  change_outcipher = do
    modify (λ (t : Session c). record t { mykex = none; hiskex = none })
    s ← get
    if s.outstate then send_ack c else pure tt
    t ← get
    both ← need t.key
    old ← need t.outcipher
    new ← try (set_key old (if t.initiator then key1 both else key0 both))
    modify (λ (t : Session c). record t { outcipher = some new })

  -- The middle of `receive_sig`: the shared secret is there.
  unfoldable pub establish_keys : Bytes → Action (Session c) (Unit {0})
  establish_keys shared = do
    modify (λ (t : Session c). record t { ecdh = none })
    generate_key_material shared
    s ← get
    if s.initiator then pure tt else send_sig c
    change_outcipher

  unfoldable pub receive_sig : Bytes → Action (Session c) (Unit {0})
  receive_sig body = do
    s ← get
    guard (length body == ecdsa_size s.hiskey)
    his ← need s.hiskex
    mine ← need s.mykex
    guard (ecdsa_verify s.hiskey (fill_msg (not s.initiator) his mine s.label) body)
    e ← need s.ecdh
    shared ← try (ecdh_compute_shared e (kex_pubkey his))
    establish_keys shared

  -- The call of the `receive_record` callback whose result is not looked at.
  unfoldable pub notify : Action (Session c) (Unit {0})
  notify s = (ok tt, record s { log = Event.delivered handshake_type [] ∷ s.log })

  abbrev pub enter : State → Action (Session c) (Unit {0})
  enter state = modify (λ (t : Session c). record t { state = state })

  unfoldable pub handshake_kex : Bytes → Action (Session c) (Unit {0})
  handshake_kex body = do receive_kex body; enter State.sig

  unfoldable pub handshake_sig : Bytes → Action (Session c) (Unit {0})
  handshake_sig body = do
    receive_sig body
    s ← get
    if s.outstate then enter State.ack else (do
      modify (λ (t : Session c). record t { outstate = true })
      receive_ack []
      notify
      enter State.secondary_kex)

  unfoldable pub handshake_ack : Bytes → Action (Session c) (Unit {0})
  handshake_ack body = do receive_ack body; notify; enter State.secondary_kex

  unfoldable pub dispatch : State → Bytes → Action (Session c) (Unit {0})
  dispatch State.secondary_kex body = do send_kex c; handshake_kex body
  dispatch State.kex body = handshake_kex body
  dispatch State.sig body = handshake_sig body
  dispatch State.ack body = handshake_ack body
  dispatch State.unset body = guard false

  unfoldable pub receive_handshake : Bytes → Action (Session c) (Unit {0})
  receive_handshake body = do s ← get; dispatch s.state body

  unfoldable pub force_kex : Action (Session c) (Unit {0})
  force_kex = do
    s ← get
    guard s.outstate
    guard (is_secondary_kex s.state)
    enter State.kex
    send_kex c

  -- The session that `sptps_start` fills in before the first key exchange; `replaywin` is the
  -- global `sptps_replaywin`.
  unfoldable pub fresh : ℕ → Bool → Bool → Crypto.Key c → Crypto.Key c → Bytes → Host c → Session c
  fresh replaywin initiator datagram mykey hiskey label host = record {
    initiator = initiator;
    datagram = datagram;
    state = State.kex;
    inbuf = [];
    incap = if datagram then 0 else 7;
    reclen = 0;
    instate = false;
    incipher = none;
    win = record {
      inseqno = 0;
      received = 0;
      replaywin = replaywin;
      farfuture = 0;
      late = replicate replaywin 0;
    };
    outstate = false;
    outcipher = none;
    outseqno = 0;
    mykey = mykey;
    hiskey = hiskey;
    ecdh = none;
    mykex = none;
    hiskex = none;
    key = none;
    label = label;
    send_data = host.send_data;
    receive_record = host.receive_record;
    randomize = host.randomize;
    ecdh_generate_public = host.ecdh_generate_public;
    log = [];
  }

  unfoldable pub start :
      ℕ
      → Bool
      → Bool
      → Crypto.Key c
      → Crypto.Key c
      → Bytes
      → Host c
      → Outcome (Unit {0}) × Session c
  start replaywin initiator datagram mykey hiskey label host =
      send_kex c (fresh replaywin initiator datagram mykey hiskey label host)
