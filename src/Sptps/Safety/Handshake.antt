-- ===== src/Sptps/Safety/Handshake.antt =====
-- The handshake of src/sptps.c in a ready session: the pointers it reads and what it leaves.
use tinc.Base.{
  true, false, not, ◌&&◌, ◌||◌, none, some, ◌≡◌, refl, arith, [], inl, inr, Option-cases,
}
use tinc.Base.Bytes.{Bytes}
use tinc.Sptps.Session.{Crypto, Session, State}
use tinc.Sptps.Send.{send_kex, send_sig, kex_pubkey}
use tinc.Sptps.Handshake.{
  init_ciphers, establish_keys, generate_key_material, receive_ack, receive_kex, change_outcipher,
  receive_sig, notify, handshake_kex, handshake_sig, handshake_ack, dispatch, receive_handshake,
  force_kex,
}
use tinc.Sptps.Safety.Ready.{Safe, Safe-intro, is_some, Ensures, IsReady, Follows}
use tinc.Sptps.Safety.Send.{send_kex-Ensures, send_sig-Sent, send_ack-Sent}

module _ {c : Crypto} where
  abbrev SomeCipher : Session c → Type 0
  SomeCipher s = (not s.outstate || is_some s.outcipher) ≡ true

  generate_key_material-Ensures :
      (s : Session c) (shared : Bytes)
      → (not s.outstate || (is_some s.incipher && is_some s.outcipher)) ≡ true
      → is_some s.mykex ≡ true
      → is_some s.hiskex ≡ true
      → Ensures
          (λ t.
            (t ≡ record s { incipher = t.incipher; outcipher = t.outcipher; key = t.key })
            × ((is_some t.incipher && is_some t.outcipher) ≡ true)
            × (is_some t.key ≡ true))
          (generate_key_material c shared s)
  unfolding generate_key_material init_ciphers
  generate_key_material-Ensures s shared h m k = ground arith

  receive_ack-Ensures :
      (s : Session c) (body : Bytes)
      → is_some s.incipher ≡ true
      → is_some s.key ≡ true
      → Ensures
          (λ t.
            (t ≡ record s { incipher = t.incipher; key = none; instate = true })
            × (is_some t.incipher ≡ true))
          (receive_ack c body s)
  unfolding receive_ack
  receive_ack-Ensures s body h k = ground arith

  receive_kex-Ensures :
      (s : Session c) (body : Bytes)
      → SomeCipher s
      → is_some s.mykex ≡ true
      → Ensures
          (λ t.
            (t ≡ record s { outseqno = t.outseqno; log = t.log; hiskex = some body })
            × (is_some s.hiskex ≡ false))
          (receive_kex c body s)
  unfolding receive_kex
  receive_kex-Ensures s body h m =
      ground (arith, send_sig-Sent (record s { hiskex = some body }) h m refl)

  change_outcipher-Ensures :
      (s : Session c)
      → is_some s.outcipher ≡ true
      → is_some s.key ≡ true
      → Ensures
          (λ t.
            (t ≡ record s {
              mykex = none;
              hiskex = none;
              outcipher = t.outcipher;
              outseqno = t.outseqno;
              log = t.log;
            })
            × (is_some t.outcipher ≡ true))
          (change_outcipher c s)
  unfolding change_outcipher
  change_outcipher-Ensures s h k =
      ground (arith, send_ack-Sent (record s { mykex = none; hiskex = none }))

  -- What a signature record leaves of the session.
  abbrev Signed : Session c → Session c → Type 0
  Signed s t =
      (t ≡ record s {
        mykex = none;
        hiskex = none;
        ecdh = none;
        incipher = t.incipher;
        outcipher = t.outcipher;
        key = t.key;
        outseqno = t.outseqno;
        log = t.log;
      })
      × ((is_some t.incipher && is_some t.outcipher) ≡ true)
      × (is_some t.key ≡ true)

  establish_keys-Signed :
      (s : Session c) (shared : Bytes)
      → (not s.outstate || (is_some s.incipher && is_some s.outcipher)) ≡ true
      → is_some s.mykex ≡ true
      → is_some s.hiskex ≡ true
      → Ensures (Signed s) (establish_keys c shared s)
  unfolding establish_keys
  establish_keys-Signed s shared h m k =
      let s1 = record s { ecdh = none } in
      let t1 = (generate_key_material c shared s1).1 in
      ground (
        arith,
        generate_key_material-Ensures s1 shared h m k,
        send_sig-Sent t1,
        change_outcipher-Ensures t1,
        change_outcipher-Ensures (send_sig c t1).1,
      )

  receive_sig-Signed :
      (s : Session c) (body : Bytes)
      → (not s.outstate || (is_some s.incipher && is_some s.outcipher)) ≡ true
      → is_some s.mykex ≡ true
      → is_some s.hiskex ≡ true
      → is_some s.ecdh ≡ true
      → Ensures (Signed s) (receive_sig c body s)
  unfolding receive_sig
  receive_sig-Signed s body h m k e = elim (Option-cases s.hiskex) [
    | inl none' ↦ ground arith
    | inr (his, eh) ↦ elim (Option-cases s.ecdh) [
      | inl none' ↦ ground arith
      | inr (secret, es) ↦
          elim (Option-cases (Crypto.ecdh_compute_shared c secret (kex_pubkey his))) [
            | inl none' ↦ ground arith
            | inr (shared, eq) ↦ ground (arith, establish_keys-Signed s shared h m k)
          ]
    ]
  ]

  handshake_kex-Follows :
      (s : Session c) (body : Bytes)
      → IsReady (record s { state = State.kex })
      → Ensures (Follows s) (handshake_kex c body s)
  unfolding handshake_kex
  handshake_kex-Follows s body r = ground (arith, receive_kex-Ensures s body)

  handshake_ack-Follows :
      (s : Session c) (body : Bytes)
      → s.state ≡ State.ack
      → IsReady s
      → Ensures (Follows s) (handshake_ack c body s)
  unfolding handshake_ack notify
  handshake_ack-Follows s body e r = ground (arith, receive_ack-Ensures s body)

  handshake_sig-Follows :
      (s : Session c) (body : Bytes)
      → s.state ≡ State.sig
      → IsReady s
      → Ensures (Follows s) (handshake_sig c body s)
  unfolding handshake_sig notify
  handshake_sig-Follows s body e r = ground (
    arith,
    receive_sig-Signed s body,
    receive_ack-Ensures (record ((receive_sig c body s).1) { outstate = true }) [],
  )

  dispatch-Follows :
      (s : Session c) (state : State) (body : Bytes)
      → s.state ≡ state
      → IsReady s
      → Ensures (Follows s) (dispatch c state body s)
  unfolding dispatch
  dispatch-Follows s State.unset body e r = ground arith
  dispatch-Follows s State.kex body e r = handshake_kex-Follows s body (ground arith)
  dispatch-Follows s State.secondary_kex body e r =
      ground (arith, send_kex-Ensures s, handshake_kex-Follows (send_kex c s).1 body)
  dispatch-Follows s State.sig body e r = handshake_sig-Follows s body e r
  dispatch-Follows s State.ack body e r = handshake_ack-Follows s body e r

  pub receive_handshake-Follows :
      (s : Session c) (body : Bytes) → IsReady s → Ensures (Follows s) (receive_handshake c body s)
  unfolding receive_handshake
  receive_handshake-Follows s body r = dispatch-Follows s s.state body refl r

  pub force_kex-Follows : (s : Session c) → IsReady s → Ensures (Follows s) (force_kex c s)
  unfolding force_kex
  force_kex-Follows s r = ground (arith, send_kex-Ensures (record s { state = State.kex }))

  -- A handshake message never makes a ready session read through a null pointer, whatever its
  -- bytes are, and a session that accepts it is ready again, with its input buffer as before.
  pub receive_handshake-Safe :
      (s : Session c) (body : Bytes) → IsReady s → Safe (Follows s) (receive_handshake c body s)
  receive_handshake-Safe s body r = Safe-intro (Follows s) _ (receive_handshake-Follows s body r)

  -- Forcing a key exchange does not fault in a ready session, and if it succeeds the session is
  -- ready again, with its input buffer as before.
  pub force_kex-Safe : (s : Session c) → IsReady s → Safe (Follows s) (force_kex c s)
  force_kex-Safe s r = Safe-intro (Follows s) _ (force_kex-Follows s r)
