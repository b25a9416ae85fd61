-- ===== src/Sptps/Agreement.antt =====
-- The two ends of an SPTPS handshake (src/sptps.c): what they sign, verify and derive.
use tinc.Base.{
  true, false, none, some, ◌≡◌, ◌∙◌, sym, refl, arith, inl, inr, if◌then◌else◌, Option-cases,
}
use tinc.Base.Bytes.{Bytes}
use tinc.Base.Action.{ok}
use tinc.Sptps.Session.{Crypto, Session}
use tinc.Sptps.Send.{send_sig, kex_pubkey}
use tinc.Sptps.Handshake.{
  key_seed, key0, key1, init_ciphers, generate_key_material, change_outcipher, establish_keys,
  receive_sig, receive_ack, handshake_sig, notify,
}
use tinc.Sptps.Safety.Ready.{is_ok}
use tinc.Sptps.Safety.Send.{send_sig-Sent}

-- The key seed is the same on both sides, if each holds the other's kex message.
key_seed_comm :
    (mine his label : Bytes) → key_seed true mine his label ≡ key_seed false his mine label
unfolding key_seed
key_seed_comm mine his label = refl

module _ {c : Crypto} where
  open c use {Cipher, cipher_init, set_key, ecdh_compute_shared, prf}

  generate_key_material-first :
      (s : Session c) (shared mine his : Bytes)
      → s.outstate ≡ false
      → s.mykex ≡ some mine
      → s.hiskex ≡ some his
      → is_ok (generate_key_material c shared s).0 ≡ true
      → (k : Cipher) × (both : Bytes) × (cipher_init ≡ some k)
        × (prf shared (key_seed s.initiator mine his s.label) 128 ≡ some both)
        × (generate_key_material c shared s
            ≡ (ok tt, record s { incipher = some k; outcipher = some k; key = some both }))
  unfolding generate_key_material init_ciphers
  generate_key_material-first s shared mine his o m h good = ground arith

  -- The sending key comes from one half of the key material; the receiving key is yet to be set.
  abbrev Keyed : Session c → Cipher → Bytes → Session c → Type 0
  Keyed s k both t =
      (t.outcipher ≡ set_key k (if s.initiator then key1 both else key0 both))
      × (t.incipher ≡ some k)
      × (t.key ≡ some both)
      × (t.initiator ≡ s.initiator)
      × (t.outstate ≡ false)

  change_outcipher-first :
      (s : Session c) (k : Cipher) (both : Bytes)
      → s.outstate ≡ false
      → s.incipher ≡ some k
      → s.outcipher ≡ some k
      → s.key ≡ some both
      → is_ok (change_outcipher c s).0 ≡ true
      → Keyed s k both (change_outcipher c s).1
  unfolding change_outcipher
  change_outcipher-first s k both o ei ek eb good = ground arith

  abbrev Agreed : Session c → Bytes → Bytes → Bytes → Session c → Type 0
  Agreed s shared mine his t =
      (k : Cipher) × (both : Bytes) × (cipher_init ≡ some k)
      × (prf shared (key_seed s.initiator mine his s.label) 128 ≡ some both)
      × Keyed s k both t

  establish_keys-first :
      (s : Session c) (shared mine his : Bytes)
      → s.outstate ≡ false
      → s.mykex ≡ some mine
      → s.hiskex ≡ some his
      → is_ok (establish_keys c shared s).0 ≡ true
      → Agreed s shared mine his (establish_keys c shared s).1
  unfolding establish_keys
  establish_keys-first s shared mine his o m h good =
      let s1 = record s { ecdh = none } in
      let made : is_ok (generate_key_material c shared s1).0 ≡ true = ground arith in
      let (k, both, ek, ep, eq) = generate_key_material-first s1 shared mine his o m h made in
      let t1 = record s1 { incipher = some k; outcipher = some k; key = some both } in
      (
        k,
        both,
        ek,
        ep,
        ground (
          arith,
          send_sig-Sent t1,
          change_outcipher-first t1 k both,
          change_outcipher-first (send_sig c t1).1 k both,
        ),
      )

  -- The first handshake, seen from one end: both keys come from the same key material.
  abbrev Finished : Session c → Bytes → Bytes → Bytes → Session c → Type 0
  Finished s shared mine his t =
      (k : Cipher) × (both : Bytes) × (cipher_init ≡ some k)
      × (prf shared (key_seed s.initiator mine his s.label) 128 ≡ some both)
      × (t.outcipher ≡ set_key k (if s.initiator then key1 both else key0 both))
      × (t.incipher ≡ set_key k (if s.initiator then key0 both else key1 both))

  receive_sig-first :
      (s : Session c) (body mine his shared : Bytes) (e : Crypto.Ecdh c)
      → s.outstate ≡ false
      → s.mykex ≡ some mine
      → s.hiskex ≡ some his
      → s.ecdh ≡ some e
      → ecdh_compute_shared e (kex_pubkey his) ≡ some shared
      → is_ok (receive_sig c body s).0 ≡ true
      → (is_ok (establish_keys c shared s).0 ≡ true)
        × ((receive_sig c body s).1 ≡ (establish_keys c shared s).1)
  unfolding receive_sig
  receive_sig-first s body mine his shared e o m h es eq good = ground arith

  handshake_sig-first :
      (s : Session c) (body mine his shared : Bytes) (e : Crypto.Ecdh c)
      → s.outstate ≡ false
      → s.mykex ≡ some mine
      → s.hiskex ≡ some his
      → s.ecdh ≡ some e
      → ecdh_compute_shared e (kex_pubkey his) ≡ some shared
      → is_ok (handshake_sig c body s).0 ≡ true
      → Finished s shared mine his (handshake_sig c body s).1
  unfolding handshake_sig receive_ack notify
  handshake_sig-first s body mine his shared e o m h es eq good =
      let signed : is_ok (receive_sig c body s).0 ≡ true = ground arith in
      let (done, same) = receive_sig-first s body mine his shared e o m h es eq signed in
      let (k, both, ek, ep, keyed) = establish_keys-first s shared mine his o m h done in
      (k, both, ek, ep, ground arith, ground arith)

  handshake_sig-shared :
      (s : Session c) (body his : Bytes) (e : Crypto.Ecdh c)
      → s.hiskex ≡ some his
      → s.ecdh ≡ some e
      → is_ok (handshake_sig c body s).0 ≡ true
      → (shared : Bytes) × (ecdh_compute_shared e (kex_pubkey his) ≡ some shared)
  unfolding handshake_sig receive_sig
  handshake_sig-shared s body his e h es good =
      elim (Option-cases (ecdh_compute_shared e (kex_pubkey his))) [
        | inl none' ↦ absurd (ground arith)
        | inr found ↦ found
      ]

  -- Two sessions that wait for each other's signature.
  pub record Paired (a b : Session c) (mine his : Bytes) (ea eb : Crypto.Ecdh c) : Type 0 where
    pub first : a.initiator ≡ true
    pub second : b.initiator ≡ false
    pub new_a : a.outstate ≡ false
    pub new_b : b.outstate ≡ false
    pub labels : a.label ≡ b.label
    pub kex_a : a.mykex ≡ some mine
    pub kex_b : b.mykex ≡ some his
    pub got_a : a.hiskex ≡ some his
    pub got_b : b.hiskex ≡ some mine
    pub secret_a : a.ecdh ≡ some ea
    pub secret_b : b.ecdh ≡ some eb
    pub exchange :
        ecdh_compute_shared ea (kex_pubkey his) ≡ ecdh_compute_shared eb (kex_pubkey mine)

  -- Agreement of the keys. If in their first handshake an initiator and a responder with the same
  -- label hold each other's kex message, the key exchange gives both the same secret, and each
  -- accepts a signature record, then each one's receiving key is the other's sending key.
  pub keys_agree :
      (a b : Session c) (mine his : Bytes) (ea eb : Crypto.Ecdh c) (sig_a sig_b : Bytes)
      → Paired a b mine his ea eb
      → is_ok (handshake_sig c sig_b a).0 ≡ true
      → is_ok (handshake_sig c sig_a b).0 ≡ true
      → ((handshake_sig c sig_b a).1.outcipher ≡ (handshake_sig c sig_a b).1.incipher)
        × ((handshake_sig c sig_b a).1.incipher ≡ (handshake_sig c sig_a b).1.outcipher)
  keys_agree a b mine his ea eb sig_a sig_b p good_a good_b =
      let (shared, es) = handshake_sig-shared a sig_b his ea p.got_a p.secret_a good_a in
      let (k, both, ek, ep, out, in') =
        handshake_sig-first a sig_b mine his shared ea p.new_a p.kex_a p.got_a p.secret_a es
          good_a in
      let (k', both', ek', ep', out', in'') =
        handshake_sig-first b sig_a his mine shared eb p.new_b p.kex_b p.got_b p.secret_b
          (sym p.exchange ∙ es) good_b in
      ground (arith, key_seed_comm mine his a.label)
