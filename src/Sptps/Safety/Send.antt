-- ===== src/Sptps/Safety/Send.antt =====
-- What the senders of src/sptps.c change of a session.
use tinc.Base.{ℕ, true, not, ◌||◌, some, ◌≡◌, arith, ◌∷◌, ◌++◌, inl, inr, Option-cases}
use tinc.Base.Bytes.{Bytes}
use tinc.Sptps.Session.{Crypto, Session}
use tinc.Sptps.Send.{
  send_record_priv, send_record_stream, send_record_priv_datagram, emit, send_kex, send_sig,
  send_ack, fill_msg,
}
use tinc.Sptps.Safety.Ready.{is_some, Ensures}

module _ {c : Crypto} where
  abbrev pub Sent : Session c → Session c → Type 0
  Sent s t = t ≡ record s { outseqno = t.outseqno; log = t.log }

  pub send_record_priv-Sent :
      (s : Session c) (type : ℕ) (body : Bytes)
      → (not s.outstate || is_some s.outcipher) ≡ true
      → Ensures (Sent s) (send_record_priv c type body s)
  unfolding send_record_priv send_record_stream send_record_priv_datagram emit
  send_record_priv-Sent s type body h = ground arith

  pub send_kex-Ensures :
      (s : Session c)
      → (not s.outstate || is_some s.outcipher) ≡ true
      → Ensures
          (λ t.
            (t ≡ record s { outseqno = t.outseqno; log = t.log; mykex = t.mykex; ecdh = t.ecdh })
            × (is_some t.mykex ≡ true)
            × (is_some t.ecdh ≡ true))
          (send_kex c s)
  unfolding send_kex
  send_kex-Ensures s h = elim (Option-cases (s.ecdh_generate_public s.log)) [
    | inl e ↦ ground arith
    | inr ((e, p), eq) ↦
        let kex = 0 ∷ (s.randomize s.log ++ p) in
        ground
          (arith, send_record_priv-Sent (record s { mykex = some kex; ecdh = some e }) 128 kex h)
  ]

  pub send_sig-Sent :
      (s : Session c)
      → (not s.outstate || is_some s.outcipher) ≡ true
      → is_some s.mykex ≡ true
      → is_some s.hiskex ≡ true
      → Ensures (Sent s) (send_sig c s)
  unfolding send_sig
  send_sig-Sent s h m k = elim (Option-cases s.mykex) [
    | inl e ↦ ground arith
    | inr (mine, e) ↦ elim (Option-cases s.hiskex) [
      | inl e' ↦ ground arith
      | inr (his, e') ↦
          elim (Option-cases
            (Crypto.ecdsa_sign c s.mykey (fill_msg s.initiator mine his s.label))) [
              | inl f ↦ ground arith
              | inr (signature, f) ↦ ground (arith, send_record_priv-Sent s 128 signature h)
            ]
    ]
  ]

  pub send_ack-Sent :
      (s : Session c)
      → (not s.outstate || is_some s.outcipher) ≡ true
      → Ensures (Sent s) (send_ack c s)
  unfolding send_ack
  send_ack-Sent s h = send_record_priv-Sent s _ _ h
