-- ===== src/Sptps/Safety/Delivery.antt =====
-- When records of src/sptps.c reach the application.
use tinc.Base.{
  ℕ, suc, ◌+◌, ◌-◌, ◌%◌, ◌^◌, true, false, none, some, ◌≡◌, ◌⊎◌, refl, arith, List, [], ◌∷◌, ◌++◌,
  inl, inr, ltb, length, if◌then◌else◌, Option-cases, take, drop, min,
}
use tinc.Base.Bytes.{u32, Bytes, u16_bytes, from_be16, from_be32}
use tinc.Base.Action.{Outcome}
use tinc.Sptps.Session.{Crypto, Session, State, Event, handshake_type}
use tinc.Sptps.Send.{
  emit, send_kex, send_sig, send_ack, send_record_priv, send_record_stream,
  send_record_priv_datagram, fill_msg, kex_pubkey,
}
use tinc.Sptps.Handshake.{
  init_ciphers, establish_keys, generate_key_material, receive_ack, receive_kex, change_outcipher,
  receive_sig, notify, handshake_kex, handshake_sig, handshake_ack, dispatch, receive_handshake,
}
use tinc.Sptps.Receive.{
  handle_record, receive_plain_datagram, receive_data_datagram, fill, take_record, read_body,
  begin_record, read_length, receive_stream, receive_data, uncons, record_size,
}

-- How many application records were handed over.
abbrev pub delivered_count : List Event → ℕ
delivered_count [] = 0
delivered_count (Event.sent type body ∷ log) = delivered_count log
delivered_count (Event.delivered type body ∷ log) =
    if ltb type handshake_type then suc (delivered_count log) else delivered_count log

uncons_step : (b : Bytes) → (uncons b ≡ none) ⊎ ((x : ℕ) × (xs : Bytes) × (uncons b ≡ some (x, xs)))
uncons_step [] = inl refl
uncons_step (x ∷ xs) = inr (x, xs, refl)

module _ {c : Crypto} where
  -- The call hands no application record over.
  abbrev Silent : {A : Type 0} → Session c → Outcome A × Session c → Type 0
  Silent s r = delivered_count r.1.log ≡ delivered_count s.log

  send_record_priv-Silent :
      (s : Session c) (type : ℕ) (body : Bytes) → Silent s (send_record_priv c type body s)
  unfolding send_record_priv send_record_stream send_record_priv_datagram emit
  send_record_priv-Silent s type body = ground arith

  send_kex-Silent : (s : Session c) → Silent s (send_kex c s)
  unfolding send_kex
  send_kex-Silent s = elim (Option-cases (s.ecdh_generate_public s.log)) [
    | inl e ↦ ground arith
    | inr ((e, p), eq) ↦
        let kex = 0 ∷ (s.randomize s.log ++ p) in
        ground
          (arith, send_record_priv-Silent (record s { mykex = some kex; ecdh = some e }) 128 kex)
  ]

  send_sig-Silent : (s : Session c) → Silent s (send_sig c s)
  unfolding send_sig
  send_sig-Silent s = elim (Option-cases s.mykex) [
    | inl e ↦ ground arith
    | inr (mine, e) ↦ elim (Option-cases s.hiskex) [
      | inl e' ↦ ground arith
      | inr (his, e') ↦
          elim (Option-cases
            (Crypto.ecdsa_sign c s.mykey (fill_msg s.initiator mine his s.label))) [
              | inl f ↦ ground arith
              | inr (signature, f) ↦ ground (arith, send_record_priv-Silent s 128 signature)
            ]
    ]
  ]

  generate_key_material-Silent :
      (s : Session c) (shared : Bytes) → Silent s (generate_key_material c shared s)
  unfolding generate_key_material init_ciphers
  generate_key_material-Silent s shared = ground arith

  receive_ack-Silent : (s : Session c) (body : Bytes) → Silent s (receive_ack c body s)
  unfolding receive_ack
  receive_ack-Silent s body = ground arith

  receive_kex-Silent : (s : Session c) (body : Bytes) → Silent s (receive_kex c body s)
  unfolding receive_kex
  receive_kex-Silent s body = ground (arith, send_sig-Silent (record s { hiskex = some body }))

  change_outcipher-Silent : (s : Session c) → Silent s (change_outcipher c s)
  unfolding change_outcipher send_ack
  change_outcipher-Silent s =
      ground (arith, send_record_priv-Silent (record s { mykex = none; hiskex = none }) 128 [])

  establish_keys-Silent : (s : Session c) (shared : Bytes) → Silent s (establish_keys c shared s)
  unfolding establish_keys
  establish_keys-Silent s shared =
      let s1 = record s { ecdh = none } in
      let t1 = (generate_key_material c shared s1).1 in
      ground (
        arith,
        generate_key_material-Silent s1 shared,
        send_sig-Silent t1,
        change_outcipher-Silent t1,
        change_outcipher-Silent (send_sig c t1).1,
      )

  receive_sig-Silent : (s : Session c) (body : Bytes) → Silent s (receive_sig c body s)
  unfolding receive_sig
  receive_sig-Silent s body = elim (Option-cases s.hiskex) [
    | inl none' ↦ ground arith
    | inr (his, eh) ↦ elim (Option-cases s.ecdh) [
      | inl none' ↦ ground arith
      | inr (secret, es) ↦
          elim (Option-cases (Crypto.ecdh_compute_shared c secret (kex_pubkey his))) [
            | inl none' ↦ ground arith
            | inr (shared, eq) ↦ ground (arith, establish_keys-Silent s shared)
          ]
    ]
  ]

  dispatch-Silent :
      (s : Session c) (state : State) (body : Bytes) → Silent s (dispatch c state body s)
  unfolding dispatch handshake_kex handshake_sig handshake_ack notify
  dispatch-Silent s State.unset body = ground arith
  dispatch-Silent s State.kex body = ground (arith, receive_kex-Silent s body)
  dispatch-Silent s State.secondary_kex body =
      ground (arith, send_kex-Silent s, receive_kex-Silent (send_kex c s).1 body)
  dispatch-Silent s State.sig body = ground (
    arith,
    receive_sig-Silent s body,
    receive_ack-Silent (record ((receive_sig c body s).1) { outstate = true }) [],
  )
  dispatch-Silent s State.ack body = ground (arith, receive_ack-Silent s body)

  receive_handshake-Silent : (s : Session c) (body : Bytes) → Silent s (receive_handshake c body s)
  unfolding receive_handshake
  receive_handshake-Silent s body = dispatch-Silent s s.state body

  handle_record-Silent :
      (s : Session c) (type : ℕ) (body : Bytes)
      → s.instate ≡ false
      → Silent s (handle_record c type body s)
  unfolding handle_record
  handle_record-Silent s type body i = ground (arith, receive_handshake-Silent s (u16_bytes body))

  plain_datagram-Silent :
      (s : Session c) (seqno : ℕ) (rest : Bytes) → Silent s (receive_plain_datagram c seqno rest s)
  unfolding receive_plain_datagram
  plain_datagram-Silent s seqno [] = ground arith
  plain_datagram-Silent s seqno (x ∷ xs) =
      let s1 = record s { win = record (s.win) { inseqno = u32 (seqno + 1) } } in
      ground (arith, receive_handshake-Silent s1 (u16_bytes xs))

  datagram-Silent :
      (s : Session c) (buffer : Bytes)
      → s.instate ≡ false
      → Silent s (receive_data_datagram c buffer s)
  unfolding receive_data_datagram
  datagram-Silent s buffer i =
      ground (arith, plain_datagram-Silent s (from_be32 (take 4 buffer)) (drop 4 buffer))

  take_record-Silent : (s : Session c) → s.instate ≡ false → Silent s (take_record c s)
  unfolding take_record
  take_record-Silent s i = elim (uncons_step (drop 2 s.inbuf)) [
    | inl e ↦ ground arith
    | inr (type, body, e) ↦
        let s1 = record s { win = record (s.win) { inseqno = u32 (s.win.inseqno + 1) } } in
        ground (arith, handle_record-Silent s1 type (take s.reclen body) i)
  ]

  read_body-Silent :
      (s : Session c) (total : ℕ) (chunk : Bytes)
      → s.instate ≡ false
      → Silent s (read_body c total chunk s)
  unfolding read_body fill
  read_body-Silent s total chunk i =
      let n = min ((2 ^ 64 + record_size c s - length s.inbuf) % 2 ^ 64) (length chunk) in
      ground (arith, take_record-Silent (record s { inbuf = s.inbuf ++ take n chunk }) i)

  begin_record-Silent :
      (s : Session c) (used : ℕ) (chunk : Bytes)
      → s.instate ≡ false
      → Silent s (begin_record c used chunk s)
  unfolding begin_record
  begin_record-Silent s used chunk i =
      let n = from_be16 (take 2 s.inbuf) % 2 ^ 16 in
      ground
        (arith, read_body-Silent (record s { reclen = n; incap = n + 19 }) used (drop used chunk) i)

  read_length-Silent :
      (s : Session c) (chunk : Bytes) → s.instate ≡ false → Silent s (read_length c chunk s)
  unfolding read_length fill
  read_length-Silent s chunk i =
      let n = min (2 - length s.inbuf) (length chunk) in
      ground (arith, begin_record-Silent (record s { inbuf = s.inbuf ++ take n chunk }) n chunk i)

  -- Until the keys for receiving are set, no bytes from the network, in whatever order and whether
  -- the call succeeds or not, hand an application record to the application.
  pub receive_data-Silent :
      (s : Session c) (chunk : Bytes)
      → s.instate ≡ false
      → delivered_count (receive_data c chunk s).1.log ≡ delivered_count s.log
  unfolding receive_data receive_stream
  receive_data-Silent s chunk i =
      ground (
        arith,
        datagram-Silent s chunk i,
        read_length-Silent s chunk i,
        read_body-Silent s 0 chunk i,
      )
