-- ===== src/Sptps/Safety/Stream.antt =====
-- The stream receiver of src/sptps.c: its input buffer, and how many bytes it takes.
use tinc.Base.{
  ℕ, ◌+◌, ◌-◌, ◌%◌, ◌^◌, ◌≤◌, ◌<◌, true, ◌≡◌, ◌⊎◌, refl, arith, [], ◌++◌, inl, inr, Bool-cases,
  if◌then◌else◌, ◌==◌, length, take, drop, length-append, length-take, length-drop, min, ltb,
}
use tinc.Base.Bytes.{Bytes, from_be16}
use tinc.Base.Action.{Outcome, ok, ◌>>◌, modify, pure}
use tinc.Sptps.Session.{Crypto, Session}
use tinc.Sptps.Receive.{
  fill, take_record, read_body, begin_record, read_length, receive_stream, receive_data,
  record_size,
}
use tinc.Sptps.Safety.Ready.{Safe, Safe-intro, Ensures, IsReady}
use tinc.Sptps.Safety.Receive.{
  StripsTag, IsBuffered, take_record-Follows, receive_data_datagram-Follows,
}

-- The number that `sptps_receive_data` returns: 0 if it failed.
abbrev pub returned : Outcome ℕ → ℕ
returned (ok n) = n
returned _ = 0

-- A session between two calls; the buffer is there only for a stream.
pub record IsSound {c : Crypto} (s : Session c) : Type 0 where
  pub ready : IsReady s
  pub buffered : (s.datagram ≡ true) ⊎ IsBuffered s

module _ {c : Crypto} where
  filled : Session c → Bytes → Session c
  filled s chunk = record s { inbuf = s.inbuf ++ chunk }

  fill-eq :
      (s : Session c) (chunk : Bytes)
      → length s.inbuf + length chunk ≤ s.incap
      → fill c chunk s ≡ (ok tt, record s { inbuf = s.inbuf ++ chunk })
  unfolding fill
  fill-eq s chunk h = ground arith

  IsReady-inbuf :
      (s : Session c) (b : Bytes) (n m : ℕ)
      → IsReady s
      → IsReady (record s { inbuf = b; reclen = n; incap = m })
  IsReady-inbuf s b n m r = record {
    linked = r.linked;
    ciphers = r.ciphers;
    mine = r.mine;
    his = r.his;
    secret = r.secret;
    key = r.key;
    secured = r.secured;
  }

  abbrev toread : Session c → Bytes → ℕ
  toread s chunk = min (record_size c s - length s.inbuf) (length chunk)

  -- The `size_t` subtraction does not wrap.
  no_wrap :
      (s : Session c)
      → s.reclen < 2 ^ 16
      → length s.inbuf ≤ record_size c s
      → (2 ^ 64 + record_size c s - length s.inbuf) % 2 ^ 64 ≡ record_size c s - length s.inbuf
  no_wrap s short h = ground arith

  length-chunk :
      (s : Session c) (chunk : Bytes)
      → length (s.inbuf ++ take (toread s chunk) chunk) ≡ length s.inbuf + toread s chunk
  length-chunk s chunk = omega (
    arith,
    length-append s.inbuf (take (toread s chunk) chunk),
    length-take (toread s chunk) chunk,
  )

  -- What the buffer holds after the copy.
  abbrev after : Session c → Bytes → Session c
  after s chunk = record s { inbuf = s.inbuf ++ take (toread s chunk) chunk }

  chunk_fits :
      (s : Session c) (chunk : Bytes)
      → s.incap ≡ s.reclen + 19
      → length s.inbuf < record_size c s
      → fill c (take (toread s chunk) chunk) s ≡ (ok tt, after s chunk)
  chunk_fits s chunk size h =
      fill-eq s (take (toread s chunk) chunk) (ground (arith, length-take (toread s chunk) chunk))

  -- The rest of `read_body` after the copy.
  abbrev rest_of_body : ℕ → Session c → Outcome ℕ × Session c
  rest_of_body total t =
      if ltb (length t.inbuf) (record_size c t)
      then (ok total, t)
      else (take_record c >> (modify (λ (t : Session c). record t { inbuf = [] }) >> pure total)) t

  read_body-eq :
      (s : Session c) (total : ℕ) (chunk : Bytes)
      → s.incap ≡ s.reclen + 19
      → s.reclen < 2 ^ 16
      → length s.inbuf < record_size c s
      → read_body c total chunk s ≡ rest_of_body (total + toread s chunk) (after s chunk)
  unfolding read_body
  read_body-eq s total chunk size short h =
      rw (no_wrap s short (omega arith)) (ground (arith, chunk_fits s chunk size h))

  -- A session between two calls, without the hypothesis on the kind of session.
  record Stream (s : Session c) : Type 0 where
    ready : IsReady s
    buffered : IsBuffered s

  rest_of_body-Stream :
      (t : Session c) (total : ℕ)
      → StripsTag c
      → IsReady t
      → t.incap ≡ t.reclen + 19
      → t.reclen < 2 ^ 16
      → Ensures Stream (rest_of_body total t)
  rest_of_body-Stream t total tag r size short = ground (arith, take_record-Follows t tag r size)

  read_body-Stream :
      (s : Session c) (total : ℕ) (chunk : Bytes)
      → StripsTag c
      → IsReady s
      → s.incap ≡ s.reclen + 19
      → s.reclen < 2 ^ 16
      → length s.inbuf < record_size c s
      → Ensures Stream (read_body c total chunk s)
  read_body-Stream s total chunk tag r size short h =
      rw (read_body-eq s total chunk size short h)
        (rest_of_body-Stream (after s chunk) _ tag (IsReady-inbuf s _ _ _ r) size short)

  begin_record-Stream :
      (s : Session c) (used : ℕ) (chunk : Bytes)
      → StripsTag c
      → IsReady s
      → length s.inbuf ≡ 2
      → Ensures Stream (begin_record c used chunk s)
  unfolding begin_record
  begin_record-Stream s used chunk tag r two =
      let n = from_be16 (take 2 s.inbuf) % 2 ^ 16 in
      let s1 = record s { reclen = n; incap = n + 19 } in
      let r1 = IsReady-inbuf s s.inbuf n (n + 19) r in
      elim (Bool-cases (length chunk == used)) [
        | inl done ↦ ground (arith, r1)
        | inr more ↦
            ground (arith, read_body-Stream s1 used (drop used chunk) tag r1 refl (omega arith))
      ]

  read_length-Stream :
      (s : Session c) (chunk : Bytes)
      → StripsTag c
      → IsReady s
      → IsBuffered s
      → length s.inbuf < 2
      → Ensures Stream (read_length c chunk s)
  unfolding read_length
  read_length-Stream s chunk tag r b h =
      let n = min (2 - length s.inbuf) (length chunk) in
      let s1 = record s { inbuf = s.inbuf ++ take n chunk } in
      let r1 = IsReady-inbuf s (s.inbuf ++ take n chunk) s.reclen s.incap r in
      ground (
        arith,
        fill-eq s (take n chunk),
        length-append s.inbuf (take n chunk),
        length-take n chunk,
        begin_record-Stream s1 n chunk tag r1,
        r1,
      )

  receive_stream-Stream :
      (s : Session c) (chunk : Bytes)
      → StripsTag c
      → IsReady s
      → IsBuffered s
      → Ensures Stream (receive_stream c chunk s)
  unfolding receive_stream
  receive_stream-Stream s chunk tag r b =
      ground (arith, read_length-Stream s chunk tag r b, read_body-Stream s 0 chunk tag r)

  receive_data-IsSound :
      (s : Session c) (chunk : Bytes)
      → StripsTag c
      → IsSound s
      → Ensures IsSound (receive_data c chunk s)
  unfolding receive_data
  receive_data-IsSound s chunk tag v = elim (Bool-cases s.datagram) [
    | inl yes' ↦ ground (arith, receive_data_datagram-Follows s chunk tag v.ready)
    | inr stream ↦ elim v.buffered [
      | inl d ↦ cc
      | inr b ↦ ground (arith, receive_stream-Stream s chunk tag v.ready b)
    ]
  ]

  -- If the cipher's decryption takes off its 16 bytes of tag, no bytes from the peer make a sound
  -- session read through a null pointer or leave its input buffer, and a session that accepts
  -- them is sound again, so its next call is safe too.
  pub receive_data-Safe :
      (s : Session c) (chunk : Bytes)
      → StripsTag c
      → IsSound s
      → Safe IsSound (receive_data c chunk s)
  receive_data-Safe s chunk tag v = Safe-intro IsSound _ (receive_data-IsSound s chunk tag v)

  returned-read_body :
      (s : Session c) (total : ℕ) (chunk : Bytes)
      → returned (read_body c total chunk s).0 ≤ total + length chunk
  unfolding read_body
  returned-read_body s total chunk = ground arith

  returned-begin_record :
      (s : Session c) (used : ℕ) (chunk : Bytes)
      → used ≤ length chunk
      → returned (begin_record c used chunk s).0 ≤ length chunk
  unfolding begin_record
  returned-begin_record s used chunk h =
      let n = from_be16 (take 2 s.inbuf) % 2 ^ 16 in
      ground (
        arith,
        returned-read_body (record s { reclen = n; incap = n + 19 }) used (drop used chunk),
        length-drop used chunk,
      )

  returned-read_length :
      (s : Session c) (chunk : Bytes) → returned (read_length c chunk s).0 ≤ length chunk
  unfolding read_length
  returned-read_length s chunk =
      let n = min (2 - length s.inbuf) (length chunk) in
      ground (arith, returned-begin_record (fill c (take n chunk) s).1 n chunk)

  -- `sptps_receive_data` never claims to have taken more bytes than it was given.
  pub returned-receive_data :
      (s : Session c) (chunk : Bytes) → returned (receive_data c chunk s).0 ≤ length chunk
  unfolding receive_data receive_stream
  returned-receive_data s chunk =
      ground (arith, returned-read_length s chunk, returned-read_body s 0 chunk)
