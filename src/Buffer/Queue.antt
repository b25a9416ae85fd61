-- ===== src/Buffer/Queue.antt =====
-- A buffer of buffer.c as the queue of its unread bytes.
use tinc.Base.{
  ℕ, ◌+◌, ◌-◌, ◌^◌, ◌≤◌, ◌<◌, ◌≡◌, refl, ap, ◌∙◌, inl, inr, Bool, true, false, not, ◌&&◌, ◌++◌,
  length, take, drop, replicate, ltb, ◌==◌, arith, length-append, length-take, length-drop,
  length-replicate, Bool-cases,
}
use tinc.Base.Bytes.{Bytes, u32}
use tinc.Base.Slices.{overwrite, take-append, take-append_le, drop-append_le, take_none, drop-take}
use tinc.Buffer.{Buffer, shift, move_up, grow, make_room}

pub record IsValid (b : Buffer) : Type 0 where
  pub memory : length b.cells ≡ b.maxlen
  pub room : b.len ≤ b.maxlen
  pub unread : b.offset ≤ b.len
  pub short : b.maxlen < 2 ^ 32
  pub unallocated : b.allocated ≡ false → b.maxlen ≡ 0

-- The bytes that wait to be read.
abbrev pub contents : Buffer → Bytes
contents b = take (b.len - b.offset) (drop b.offset b.cells)

pub length-contents : (b : Buffer) → IsValid b → length (contents b) ≡ b.len - b.offset
length-contents b v =
    omega (
      arith,
      v,
      length-take (b.len - b.offset) (drop b.offset b.cells),
      length-drop b.offset b.cells,
    )

pub length-overwrite :
    (xs : Bytes) (i : ℕ) (ys : Bytes)
    → i + length ys ≤ length xs
    → length (overwrite xs i ys) ≡ length xs
length-overwrite xs i ys h = omega (
  arith,
  length-append {0} (take i xs) (ys ++ drop (i + length ys) xs),
  length-append {0} ys (drop (i + length ys) xs),
  length-take {0} i xs,
  length-drop {0} (i + length ys) xs,
)

pub shift-IsValid : (b : Buffer) → IsValid b → IsValid (shift b)
unfolding shift
shift-IsValid b v =
    ground (arith, length-overwrite b.cells 0 (contents b), length-contents b v, v.unallocated)

pub contents-shift : (b : Buffer) → IsValid b → contents (shift b) ≡ contents b
unfolding shift
contents-shift b v =
    take-append (b.len - b.offset - 0) (contents b) _ (ground (arith, length-contents b v))

-- Reading the unread part of a memory that begins with `len` bytes of the old one.
pub contents-append :
    (cells : Bytes) (len offset : ℕ) (more : Bytes)
    → offset ≤ len
    → len ≤ length cells
    → drop offset (take len cells ++ more) ≡ take (len - offset) (drop offset cells) ++ more
contents-append cells len offset more h k =
    drop-append_le offset (take len cells) more (omega (arith, length-take {0} len cells))
    ∙ ap (λ l. l ++ more) (drop-take offset len cells)

grow-IsValid :
    (junk : ℕ) (b : Buffer) (size : ℕ)
    → b.len + size < 2 ^ 32
    → b.allocated ≡ true
    → IsValid b
    → IsValid (grow junk b size) × (b.len + size ≤ (grow junk b size).maxlen)
unfolding grow
grow-IsValid junk b size h a v = ground (
  arith,
  length-append {0} b.cells (replicate (b.len + size - b.maxlen) junk),
  length-replicate {0} (b.len + size - b.maxlen) junk,
  length-append {0} b.cells (replicate (u32 (b.len + size) - b.maxlen) junk),
  length-replicate {0} (u32 (b.len + size) - b.maxlen) junk,
)

contents-grow :
    (junk : ℕ) (b : Buffer) (size : ℕ)
    → IsValid b
    → (contents (grow junk b size) ≡ contents b)
      × ((grow junk b size).len ≡ b.len)
      × ((grow junk b size).allocated ≡ b.allocated)
unfolding grow
contents-grow junk b size v = ground (
  arith,
  drop-append_le b.offset b.cells (replicate (u32 (b.len + size) - b.maxlen) junk),
  take-append_le (b.len - b.offset) (drop b.offset b.cells)
      (replicate (u32 (b.len + size) - b.maxlen) junk),
  length-drop {0} b.offset b.cells,
)

-- What `buffer_prepare` gives: a valid buffer with room for `size` more bytes, and the same
-- unread bytes.
pub record Prepared (b : Buffer) (size : ℕ) (r : Buffer) : Type 0 where
  pub valid : IsValid r
  pub fits : r.len + size ≤ r.maxlen
  pub kept : contents r ≡ contents b

move_up-lem :
    (b : Buffer) (size : ℕ)
    → IsValid b
    → IsValid (move_up b size)
      × (contents (move_up b size) ≡ contents b)
      × ((move_up b size).len ≤ b.len)
      × ((move_up b size).allocated ≡ b.allocated)
move_up-lem b size v = elim (Bool-cases test) [
  | inl yes' ↦
      rw (moved yes')
        (shift-IsValid b v, contents-shift b v, unfold shift in omega arith, unfold shift in refl)
  | inr no' ↦ rw (stays no') (v, refl, omega arith, refl)
]
  where
    test : Bool
    test = not (b.offset == 0) && ltb b.maxlen (u32 (b.len + size))

    moved : test ≡ true → move_up b size ≡ shift b
    moved e = unfold move_up in rw e

    stays : test ≡ false → move_up b size ≡ b
    stays e = unfold move_up in rw e

pub make_room-Prepared :
    (junk : ℕ) (b : Buffer) (size : ℕ)
    → b.len + size < 2 ^ 32
    → IsValid b
    → Prepared b size (make_room junk b size)
unfolding make_room
make_room-Prepared junk b size h v = elim (Bool-cases b.allocated) [
  | inr fresh ↦
      let none' : b.maxlen ≡ 0 = v.unallocated fresh in
      ground (
        arith,
        v.unallocated,
        length-replicate {0} size junk,
        take_none (b.len - b.offset) (drop b.offset b.cells),
        take_none (b.len - b.offset) (drop b.offset (replicate size junk)),
      )
  | inl old ↦
      let (valid, same, le, alloc) = move_up-lem b size v in
      let (grown, fits) =
        grow-IsValid junk (move_up b size) size (omega arith) (alloc ∙ old) valid in
      let (kept, len, _) = contents-grow junk (move_up b size) size valid in
      let eq : make_room junk b size ≡ grow junk (move_up b size) size = rw old in
      rw eq (record { valid = grown; fits = rw len fits; kept = kept ∙ same })
]
