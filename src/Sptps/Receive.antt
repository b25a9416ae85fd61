-- ===== src/Sptps/Receive.antt =====
-- Receiving (src/sptps.c): datagrams, and a stream of bytes that is cut into records.
use tinc.Base.{
  ℕ, ◌+◌, ◌-◌, ◌%◌, ◌^◌, Bool, true, false, not, Option, none, some, [], ◌∷◌, ◌++◌, length, take,
  drop, min, leb, ltb, ◌==◌, if◌then◌else◌,
}
use tinc.Base.Bytes.{u32, Bytes, from_be16, from_be32, u16_bytes}
use tinc.Base.Action.{Action, ok, failed, ◌>>=◌, ◌>>◌, pure, get, modify, guard, need, try, within}
use tinc.Sptps.Window.{check_seqno}
use tinc.Sptps.Session.{Crypto, Session, State, Event, handshake_type}
use tinc.Sptps.Handshake.{receive_handshake}

-- `*data` and what follows it.
abbrev pub uncons : Bytes → Option (ℕ × Bytes)
uncons [] = none
uncons (b ∷ bs) = some (b, bs)

abbrev pub is_unset : State → Bool
is_unset State.unset = true
is_unset _ = false

module _ (c : Crypto) where
  open c use {decrypt}

  -- The call of the `receive_record` callback for an application record.
  unfoldable pub deliver : ℕ → Bytes → Action (Session c) (Unit {0})
  deliver type body s = (
    if s.receive_record s.log type body then ok tt else failed,
    record s { log = Event.delivered type body ∷ s.log },
  )

  -- A record by its type: application data, a handshake message, or an error.
  unfoldable pub handle_record : ℕ → Bytes → Action (Session c) (Unit {0})
  handle_record type body =
      if ltb type handshake_type
      then (do s ← get; guard s.instate; deliver type (u16_bytes body))
      else (if type == handshake_type then receive_handshake c (u16_bytes body) else guard false)

  -- `sptps_check_seqno` with update, on the session.
  unfoldable pub check_seqno_session : ℕ → Action (Session c) (Unit {0})
  check_seqno_session seqno s =
      let (passed, win) = check_seqno s.win seqno true in
      (if passed then ok tt else failed, record s { win = win })

  -- A datagram before the keys are set: plain, in order, and a handshake record.
  unfoldable pub receive_plain_datagram : ℕ → Bytes → Action (Session c) (Unit {0})
  receive_plain_datagram seqno rest = do
    s ← get
    guard (seqno == s.win.inseqno)
    modify (λ (t : Session c). record t { win = record (t.win) { inseqno = u32 (seqno + 1) } })
    (type, body) ← need (uncons rest)
    guard (type == handshake_type)
    receive_handshake c (u16_bytes body)

  unfoldable pub receive_sealed_datagram : ℕ → Bytes → Action (Session c) (Unit {0})
  receive_sealed_datagram seqno rest = do
    s ← get
    k ← need s.incipher
    plain ← try (decrypt k seqno rest)
    check_seqno_session seqno
    (type, body) ← need (uncons plain)
    handle_record type body

  unfoldable pub receive_data_datagram : Bytes → Action (Session c) (Unit {0})
  receive_data_datagram buffer = do
    s ← get
    guard (leb (if s.instate then 21 else 5) (length buffer))
    let seqno = from_be32 (take 4 buffer)
    if s.instate
        then receive_sealed_datagram seqno (drop 4 buffer)
        else receive_plain_datagram seqno (drop 4 buffer)

  -- Whether a datagram would pass; the session is only read.
  unfoldable pub verify_datagram : Bytes → Action (Session c) (Unit {0})
  verify_datagram buffer = do
    s ← get
    guard (s.instate)
    guard (leb 21 (length buffer))
    let seqno = from_be32 (take 4 buffer)
    guard (check_seqno s.win seqno false).0
    k ← need s.incipher
    plain ← try (decrypt k seqno (drop 4 buffer))
    pure tt

  -- The whole length of the record whose length field is `reclen`.
  abbrev pub record_size : Session c → ℕ
  record_size s = s.reclen + (if s.instate then 19 else 3)

  -- memcpy(s->inbuf + s->buflen, data, toread)
  unfoldable pub fill : Bytes → Action (Session c) (Unit {0})
  fill chunk = do
    s ← get
    within (leb (length s.inbuf + length chunk) s.incap)
    modify (λ (t : Session c). record t { inbuf = t.inbuf ++ chunk })

  -- A whole record lies in the buffer.
  unfoldable pub take_record : Action (Session c) (Unit {0})
  take_record = do
    s ← get
    let seqno = s.win.inseqno
    modify (λ (t : Session c). record t { win = record (t.win) { inseqno = u32 (seqno + 1) } })
    plain ←
        if s.instate
        then (do k ← need s.incipher; try (decrypt k seqno (take (s.reclen + 17) (drop 2 s.inbuf))))
        else pure (drop 2 s.inbuf)
    within (ltb (s.reclen + 3) s.incap)
    (type, body) ← need (uncons plain)
    handle_record type (take s.reclen body)

  -- From the length field on to the end of the record; `total` bytes were read before.
  unfoldable pub read_body : ℕ → Bytes → Action (Session c) ℕ
  read_body total chunk = do
    s ← get
    let toread = min ((2 ^ 64 + record_size s - length s.inbuf) % 2 ^ 64) (length chunk)
    fill (take toread chunk)
    t ← get
    if ltb (length t.inbuf) (record_size t) then pure (total + toread) else (do
      take_record
      modify (λ (t : Session c). record t { inbuf = [] })
      pure (total + toread))

  -- Both length bytes are in the buffer; `toread` bytes of the chunk were used for them.
  unfoldable pub begin_record : ℕ → Bytes → Action (Session c) ℕ
  begin_record toread chunk = do
    s ← get
    let reclen = from_be16 (take 2 s.inbuf) % 2 ^ 16
    modify (λ (t : Session c). record t { reclen = reclen; incap = reclen + 19 })
    if length chunk == toread then pure toread else read_body toread (drop toread chunk)

  unfoldable pub read_length : Bytes → Action (Session c) ℕ
  read_length chunk = do
    s ← get
    let toread = min (2 - length s.inbuf) (length chunk)
    fill (take toread chunk)
    t ← get
    if ltb (length t.inbuf) 2 then pure toread else begin_record toread chunk

  unfoldable pub receive_stream : Bytes → Action (Session c) ℕ
  receive_stream chunk = do
    s ← get
    if ltb (length s.inbuf) 2 then read_length chunk else read_body 0 chunk

  -- The number of bytes consumed; `failed` is the return of 0.
  unfoldable pub receive_data : Bytes → Action (Session c) ℕ
  receive_data chunk = do
    s ← get
    guard (not (is_unset s.state))
    if s.datagram
        then (do receive_data_datagram chunk; pure (length chunk))
        else receive_stream chunk
