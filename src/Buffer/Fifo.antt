-- ===== src/Buffer/Fifo.antt =====
-- What the operations of buffer.c do to the queue of unread bytes.
use tinc.Base.{
  Bool-cases, ltb→lt, ℕ, zero, suc, ◌+◌, ◌-◌, ◌^◌, ◌≤◌, ◌<◌, ◌≡◌, refl, sym, ap, ◌∙◌, inl, inr,
  Bool, false, ◌||◌, Option, none, some, [], ◌∷◌, ◌++◌, length, take, drop, ltb, ◌==◌, arith,
  length-take, length-drop, Bool-cases, Option-cases, if_intro,
}
use tinc.Base.Bytes.{Bytes, u32}
use tinc.Base.Slices.{
  overwrite, take-append, take-append_ge, take_none, drop-take, take-take, drop-drop,
  drop-append_cons,
}
use tinc.Buffer.{Buffer, compact, make_room, add, consume, find_newline, readline, read}
use tinc.Buffer.Queue.{
  IsValid, contents, length-contents, length-overwrite, shift-IsValid, contents-shift,
  contents-append, make_room-Prepared,
}

-- On a valid buffer `buffer_compact` keeps the bytes that wait, and leaves a valid buffer.
pub compact-contents :
    (b : Buffer) (maxsize : ℕ)
    → IsValid b
    → IsValid (compact b maxsize) × (contents (compact b maxsize) ≡ contents b)
unfolding compact
compact-contents b maxsize v =
    if_intro (λ (r : Buffer). IsValid r × (contents r ≡ contents b)) _
      (shift-IsValid b v, contents-shift b v) (v, refl)

written :
    (r : Buffer) (bytes : Bytes)
    → IsValid r
    → r.len + length bytes ≤ r.maxlen
    → let r' = record r {
      len = u32 (r.len + length bytes);
      cells = overwrite r.cells r.len bytes;
    } in
      IsValid r' × (contents r' ≡ contents r ++ bytes)
written r bytes v fits = (
  ground (arith, length-overwrite r.cells r.len bytes, v.unallocated),
  ap (λ k. take (k - r.offset) (drop r.offset (overwrite r.cells r.len bytes))) small
      ∙ ap (take (r.len + length bytes - r.offset))
          (contents-append r.cells r.len r.offset (bytes ++ rest) v.unread (omega (arith, v)))
      ∙ take-append_ge _ (contents r) (bytes ++ rest) (omega (arith, length-contents r v, v))
      ∙ ap (λ l. contents r ++ l)
          (take-append _ bytes rest (omega (arith, length-contents r v, v))),
)
  where
    rest : Bytes
    rest = drop (r.len + length bytes) r.cells

    small : u32 (r.len + length bytes) ≡ r.len + length bytes
    small = omega (arith, v)

-- If the length fits 32 bits, `buffer_add` to a valid buffer puts its bytes behind those that wait,
-- whether the memory is new, moved or grown, and leaves a valid buffer.
pub contents-add :
    (junk : ℕ) (b : Buffer) (bytes : Bytes)
    → IsValid b
    → b.len + length bytes < 2 ^ 32
    → IsValid (add junk b bytes) × (contents (add junk b bytes) ≡ contents b ++ bytes)
unfolding add
contents-add junk b bytes v h =
    let p = make_room-Prepared junk b (length bytes) h v in
    let (valid, grown) = written (make_room junk b (length bytes)) bytes p.valid p.fits in
    (valid, grown ∙ ap (λ l. l ++ bytes) p.kept)

consumed :
    (b : Buffer) (size : ℕ)
    → IsValid b
    → size ≤ b.len - b.offset
    → ((consume b size).0 ≡ take size (contents b))
      × (contents (consume b size).1 ≡ drop size (contents b))
      × IsValid (consume b size).1
unfolding consume
consumed b size v h = (
  sym (take-take size (b.len - b.offset) (drop b.offset b.cells) h),
  ground (
    arith,
    drop-take size (b.len - b.offset) (drop b.offset b.cells),
    drop-drop size b.offset b.cells,
    take_none (b.len - b.offset - size) (drop size (drop b.offset b.cells)),
  ),
  ground (arith, v.unallocated),
)

-- What a call of `buffer_read` on `b` gives: nothing, where too few bytes wait, or the first `size`
-- of those that wait.
abbrev pub ReadOut : Buffer → ℕ → Option Bytes → Buffer → Type 0
ReadOut b size none b' = (b' ≡ b) × (length (contents b) < size)
ReadOut b size (some bytes) b' =
    (size ≤ length (contents b))
    × (bytes ≡ take size (contents b))
    × (contents b' ≡ drop size (contents b))
    × IsValid b'

-- On a valid buffer `buffer_read` gives bytes exactly if that many wait; then it takes them from
-- the front, in order, and otherwise it leaves the buffer alone.
pub read_lem : (b : Buffer) (size : ℕ) → IsValid b → ReadOut b size (read b size).0 (read b size).1
unfolding read
read_lem b size v = elim (Bool-cases (ltb (b.len - b.offset) size)) [
  | inl short ↦
      let eq : read b size ≡ (none, b) = rw (short, read) in
      rw eq (refl, omega (arith, ltb→lt _ _ short, length-contents b v))
  | inr enough ↦
      let fits : size ≤ b.len - b.offset = ground arith in
      let (bytes, rest, valid) = consumed b size v fits in
      let eq : read b size ≡ (some (consume b size).0, (consume b size).1) = rw (enough, read) in
      rw eq (omega (arith, length-contents b v), bytes, rest, valid)
]

abbrev pub has_newline : Bytes → Bool
has_newline [] = false
has_newline (x ∷ xs) = x == 10 || has_newline xs

find_newline-some :
    (xs : Bytes) (i : ℕ)
    → find_newline xs ≡ some i
    → (xs ≡ take i xs ++ (10 ∷ drop (suc i) xs))
      × (has_newline (take i xs) ≡ false)
      × (i < length xs)
unfolding find_newline
find_newline-some [] i h = cc
find_newline-some (x ∷ xs) zero h = ground arith
find_newline-some (x ∷ xs) (suc i) h = ground (arith, find_newline-some xs i)

find_newline-none : (xs : Bytes) → find_newline xs ≡ none → has_newline xs ≡ false
unfolding find_newline
find_newline-none [] h = refl
find_newline-none (x ∷ xs) h = ground (arith, find_newline-none xs)

-- The memory with the newline at `i` overwritten, seen from the offset on.
module _ (b : Buffer) (i : ℕ) (v : IsValid b) (h : i < b.len - b.offset) where
  abbrev waiting : Bytes
  waiting = drop b.offset b.cells

  abbrev after : Bytes
  after = drop (b.offset + i + 1) b.cells

  abbrev cut : Buffer
  cut = record b { cells = overwrite b.cells (b.offset + i) (0 ∷ []) }

  cut-IsValid : IsValid cut
  cut-IsValid = ground (arith, length-overwrite b.cells (b.offset + i) (0 ∷ []), v.unallocated)

  cut-waiting : drop b.offset cut.cells ≡ take i waiting ++ (0 ∷ after)
  cut-waiting =
      contents-append b.cells (b.offset + i) b.offset (0 ∷ after) (omega arith) (omega (arith, v))
      ∙ ap (λ k. take k waiting ++ (0 ∷ after)) (omega arith)

  cut-taken : take i (take (suc i) (drop b.offset cut.cells)) ≡ take i (contents b)
  cut-taken =
      take-take i (suc i) (drop b.offset cut.cells) (omega arith)
      ∙ ap (take i) cut-waiting
      ∙ take-append i (take i waiting) (0 ∷ after)
          (omega (arith, length-take {0} i waiting, length-drop {0} b.offset b.cells, v))
      ∙ sym (take-take i (b.len - b.offset) waiting (omega arith))

  cut-rest : drop (suc i) (contents cut) ≡ drop (suc i) (contents b)
  cut-rest =
      drop-take (suc i) (b.len - b.offset) (drop b.offset cut.cells)
      ∙ ap (take (b.len - b.offset - suc i)) past
      ∙ sym (drop-take (suc i) (b.len - b.offset) waiting)
    where
      past : drop (suc i) (drop b.offset cut.cells) ≡ drop (suc i) waiting
      past =
          ap (drop (suc i)) cut-waiting
          ∙ drop-append_cons i (take i waiting) 0 after
              (omega (arith, length-take {0} i waiting, length-drop {0} b.offset b.cells, v))
          ∙ ap (λ k. drop k b.cells) (omega arith)
          ∙ sym (drop-drop (suc i) b.offset b.cells)

-- What a call of `buffer_readline` on `b` gives: no line, where no newline waits, or the bytes up
-- to the first newline, which goes with them.
abbrev pub LineRead : Buffer → Option Bytes → Buffer → Type 0
LineRead b none b' = (b' ≡ b) × (has_newline (contents b) ≡ false)
LineRead b (some line) b' =
    (contents b ≡ line ++ (10 ∷ contents b')) × (has_newline line ≡ false) × IsValid b'

-- On a valid buffer `buffer_readline` cuts the waiting bytes at their first newline, and leaves
-- the buffer alone if there is none.
pub readline_lem : (b : Buffer) → IsValid b → LineRead b (readline b).0 (readline b).1
unfolding readline
readline_lem b v = elim (Option-cases (find_newline (contents b))) [
  | inl none' ↦
      let eq : readline b ≡ (none, b) = rw (none', readline) in
      rw eq (refl, find_newline-none (contents b) none')
  | inr (i, found) ↦
      let (split, clean, inside) = find_newline-some (contents b) i found in
      let h : i < b.len - b.offset = omega (arith, length-contents b v) in
      let (taken, rest, valid) =
        consumed (cut b i v h) (suc i) (cut-IsValid b i v h) (omega arith) in
      let eq : readline b
          ≡ (some (take i (consume (cut b i v h) (suc i)).0), (consume (cut b i v h) (suc i)).1) =
        rw (found, readline) in
      let line : take i (consume (cut b i v h) (suc i)).0 ≡ take i (contents b) =
        ap (take i) (taken ∙ take-take (suc i) (b.len - b.offset) _ (omega arith))
        ∙ cut-taken b i v h in
      let tail : contents (consume (cut b i v h) (suc i)).1 ≡ drop (suc i) (contents b) =
        rest ∙ cut-rest b i v h in
      rw (eq, line, tail) (split, clean, valid)
]
