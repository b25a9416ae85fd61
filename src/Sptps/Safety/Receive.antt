-- ===== src/Sptps/Safety/Receive.antt =====
-- Receiving (src/sptps.c) in a ready session: the pointers and the input buffer.
use tinc.Base.{
  ℕ, ◌+◌, ◌^◌, ◌≤◌, ◌<◌, true, false, none, some, ◌≡◌, ◌⊎◌, refl, arith, [], ◌∷◌, inl, inr,
  Option-cases, Bool-cases, length, take, drop, length-take, length-drop,
}
use tinc.Base.Bytes.{u32, Bytes, from_be32, u16_bytes}
use tinc.Base.Action.{Outcome}
use tinc.Sptps.Session.{Crypto, Session}
use tinc.Sptps.Window.{Window, check_seqno}
use tinc.Sptps.Receive.{
  deliver, handle_record, check_seqno_session, receive_plain_datagram, receive_sealed_datagram,
  receive_data_datagram, take_record, record_size,
}
use tinc.Sptps.Safety.Ready.{is_some, Ensures, IsReady, Follows}
use tinc.Sptps.Safety.Handshake.{receive_handshake-Follows}

-- `chacha_poly1305_decrypt` takes the 16 bytes of the tag off.
abbrev pub StripsTag : Crypto → Type 0
StripsTag c =
    (k : Crypto.Cipher c) (n : ℕ) (body plain : Bytes)
    → Crypto.decrypt c k n body ≡ some plain
    → length plain + 16 ≡ length body

-- The input buffer of a stream session: fewer than the two length bytes, or a part of a record
-- for which the buffer was made long enough.
pub record IsBuffered {c : Crypto} (s : Session c) : Type 0 where
  pub room : 7 ≤ s.incap
  pub short : s.reclen < 2 ^ 16
  pub partial : length s.inbuf < 2 ⊎ (s.incap ≡ s.reclen + 19) × (length s.inbuf < record_size c s)

uncons-cases : (b : Bytes) → (b ≡ []) ⊎ ((x : ℕ) × (xs : Bytes) × (b ≡ x ∷ xs))
uncons-cases [] = inl refl
uncons-cases (x ∷ xs) = inr (x, xs, refl)

module _ {c : Crypto} where
  pub handle_record-Follows :
      (s : Session c) (type : ℕ) (body : Bytes)
      → IsReady s
      → Ensures (Follows s) (handle_record c type body s)
  unfolding handle_record deliver
  handle_record-Follows s type body r =
      ground (arith, receive_handshake-Follows s (u16_bytes body) r)

  receive_plain_datagram-Follows :
      (s : Session c) (seqno : ℕ) (rest : Bytes)
      → IsReady s
      → 0 < length rest
      → Ensures (Follows s) (receive_plain_datagram c seqno rest s)
  unfolding receive_plain_datagram
  receive_plain_datagram-Follows s seqno [] r h = absurd (omega arith)
  receive_plain_datagram-Follows s seqno (x ∷ xs) r h =
      let s1 = record s { win = record (s.win) { inseqno = u32 (seqno + 1) } } in
      ground (arith, receive_handshake-Follows s1 (u16_bytes xs))

  IsReady-win : (s : Session c) (w : Window) → IsReady s → IsReady (record s { win = w })
  IsReady-win s w r = record {
    linked = r.linked;
    ciphers = r.ciphers;
    mine = r.mine;
    his = r.his;
    secret = r.secret;
    key = r.key;
    secured = r.secured;
  }

  Follows-win :
      (s : Session c) (w : Window) (r : Outcome (Unit {0}) × Session c)
      → Ensures (Follows (record s { win = w })) r
      → Ensures (Follows s) r
  Follows-win s w r h = (
    h.0,
    λ p. record {
      ready = (h.1 p).ready;
      buffer = (h.1 p).buffer;
      capacity = (h.1 p).capacity;
      expected = (h.1 p).expected;
      transport = (h.1 p).transport;
    },
  )

  sealed_step :
      (P : Session c → Type 0) (s : Session c) (seqno : ℕ) (rest plain body : Bytes)
      (k : Crypto.Cipher c) (type : ℕ)
      → s.incipher ≡ some k
      → Crypto.decrypt c k seqno rest ≡ some plain
      → plain ≡ type ∷ body
      → Ensures P (handle_record c type body (record s { win = (check_seqno s.win seqno true).1 }))
      → Ensures P (receive_sealed_datagram c seqno rest s)
  unfolding receive_sealed_datagram check_seqno_session
  sealed_step P s seqno rest plain body k type ek ep e h = ground arith

  receive_sealed_datagram-Follows :
      (s : Session c) (seqno : ℕ) (rest : Bytes)
      → StripsTag c
      → IsReady s
      → s.instate ≡ true
      → 16 < length rest
      → Ensures (Follows s) (receive_sealed_datagram c seqno rest s)
  unfolding receive_sealed_datagram
  receive_sealed_datagram-Follows s seqno rest tag r i h = elim (Option-cases s.incipher) [
    | inl none' ↦ ground arith
    | inr (k, ek) ↦ elim (Option-cases (Crypto.decrypt c k seqno rest)) [
      | inl none' ↦ ground arith
      | inr (plain, ep) ↦ elim (uncons-cases plain) [
        | inl empty ↦
            let short : length plain ≡ 0 = rw empty in
            absurd (omega (arith, tag k seqno rest plain ep))
        | inr (type, body, e) ↦
            let w = (check_seqno s.win seqno true).1 in
            sealed_step (Follows s) s seqno rest plain body k type ek ep e (
              Follows-win s w _
                (handle_record-Follows (record s { win = w }) type body (IsReady-win s w r)))
      ]
    ]
  ]

  pub receive_data_datagram-Follows :
      (s : Session c) (buffer : Bytes)
      → StripsTag c
      → IsReady s
      → Ensures (Follows s) (receive_data_datagram c buffer s)
  unfolding receive_data_datagram
  receive_data_datagram-Follows s buffer tag r =
      let seqno = from_be32 (take 4 buffer) in
      ground (
        arith,
        receive_sealed_datagram-Follows s seqno (drop 4 buffer) tag r,
        receive_plain_datagram-Follows s seqno (drop 4 buffer) r,
        length-drop 4 buffer,
      )

  abbrev counted : Session c → Session c
  counted s = record s { win = record (s.win) { inseqno = u32 (s.win.inseqno + 1) } }

  abbrev sealed_part : Session c → Bytes
  sealed_part s = take (s.reclen + 17) (drop 2 s.inbuf)

  plain_step :
      (P : Session c → Type 0) (s : Session c) (body : Bytes) (type : ℕ)
      → s.instate ≡ false
      → s.reclen + 3 < s.incap
      → drop 2 s.inbuf ≡ type ∷ body
      → Ensures P (handle_record c type (take s.reclen body) (counted s))
      → Ensures P (take_record c s)
  unfolding take_record
  plain_step P s body type i cap e h = ground arith

  opened_step :
      (P : Session c → Type 0) (s : Session c) (plain body : Bytes) (k : Crypto.Cipher c) (type : ℕ)
      → s.instate ≡ true
      → s.incipher ≡ some k
      → Crypto.decrypt c k s.win.inseqno (sealed_part s) ≡ some plain
      → s.reclen + 3 < s.incap
      → plain ≡ type ∷ body
      → Ensures P (handle_record c type (take s.reclen body) (counted s))
      → Ensures P (take_record c s)
  unfolding take_record
  opened_step P s plain body k type i ek ep cap e h = ground arith

  refused_step :
      (P : Session c → Type 0) (s : Session c) (k : Crypto.Cipher c)
      → s.instate ≡ true
      → s.incipher ≡ some k
      → Crypto.decrypt c k s.win.inseqno (sealed_part s) ≡ none
      → Ensures P (take_record c s)
  unfolding take_record
  refused_step P s k i ek ep = ground arith

  has_incipher : (s : Session c) → IsReady s → s.instate ≡ true → is_some s.incipher ≡ true
  has_incipher s r i = ground arith

  -- A whole record in the buffer is taken out within its bounds.
  pub take_record-Follows :
      (s : Session c)
      → StripsTag c
      → IsReady s
      → s.incap ≡ s.reclen + 19
      → record_size c s ≤ length s.inbuf
      → Ensures (Follows s) (take_record c s)
  take_record-Follows s tag r cap full = elim (Bool-cases s.instate) [
    | inr plain ↦ elim (uncons-cases (drop 2 s.inbuf)) [
      | inl empty ↦
          let short : length (drop 2 s.inbuf) ≡ 0 = rw empty in
          absurd (ground (arith, length-drop 2 s.inbuf))
      | inr (type, body, e) ↦
          plain_step (Follows s) s body type plain (omega arith) e (handled type body)
    ]
    | inl secure ↦ elim (Option-cases s.incipher) [
      | inl none' ↦ absurd (ground (arith, has_incipher s r secure))
      | inr (k, ek) ↦ elim (Option-cases (Crypto.decrypt c k s.win.inseqno (sealed_part s))) [
        | inl none' ↦ refused_step (Follows s) s k secure ek none'
        | inr (plain, ep) ↦ elim (uncons-cases plain) [
          | inl empty ↦
              let short : length plain ≡ 0 = rw empty in
              absurd (
                ground (
                  arith,
                  tag k s.win.inseqno (sealed_part s) plain ep,
                  length-take (s.reclen + 17) (drop 2 s.inbuf),
                  length-drop 2 s.inbuf,
                ))
          | inr (type, body, e) ↦
              opened_step (Follows s) s plain body k type secure ek ep (omega arith) e
                (handled type body)
        ]
      ]
    ]
  ]
    where
      handled :
          (type : ℕ) (body : Bytes)
          → Ensures (Follows s) (handle_record c type (take s.reclen body) (counted s))
      handled type body =
          Follows-win s _ _
            (handle_record-Follows (counted s) type (take s.reclen body) (IsReady-win s _ r))
