-- ===== src/Buffer.antt =====
-- buffer.c: a growing byte buffer with a read offset, used for the meta connections.
pub mod Queue
pub mod Fifo
pub mod Tests
use tinc.Base.{
  ℕ, suc, ◌+◌, ◌-◌, ◌*◌, ◌/◌, ◌%◌, ◌^◌, Bool, true, false, not, ◌&&◌, ◌||◌, Option, none, some,
  List, [], ◌∷◌, ◌++◌, length, take, drop, replicate, leb, ltb, ◌==◌, if◌then◌else◌,
}
use tinc.Base.Bytes.{Bytes, u32}
use tinc.Base.Slices.{overwrite}

-- `buffer_t`. `cells` is the allocated memory, `maxlen` bytes; `allocated` is false where `data`
-- is NULL.
pub record Buffer : Type 0 where
  pub allocated : Bool
  pub cells : Bytes
  pub maxlen : ℕ
  pub len : ℕ
  pub offset : ℕ

abbrev pub empty : Buffer
empty = record { allocated = false; cells = []; maxlen = 0; len = 0; offset = 0 }

-- The memmove of the unread bytes to the start.
unfoldable pub shift : Buffer → Buffer
shift b = record b {
  cells = overwrite b.cells 0 (take (b.len - b.offset) (drop b.offset b.cells));
  len = b.len - b.offset;
  offset = 0;
}

unfoldable pub compact : Buffer → ℕ → Buffer
compact b maxsize = if leb maxsize b.len || ltb (b.len / 8) (b.offset / 7) then shift b else b

-- xmalloc and xrealloc give memory of unspecified content; `junk` is what it holds.
unfoldable pub grow : ℕ → Buffer → ℕ → Buffer
grow junk b size =
    if ltb b.maxlen (u32 (b.len + size))
    then record b {
      maxlen = u32 (b.len + size);
      cells = b.cells ++ replicate (u32 (b.len + size) - b.maxlen) junk;
    }
    else b

-- The first test of `buffer_prepare`.
unfoldable pub move_up : Buffer → ℕ → Buffer
move_up b size = if not (b.offset == 0) && ltb b.maxlen (u32 (b.len + size)) then shift b else b

-- `buffer_prepare` without the return value, which is `b.len` after `make_room`.
unfoldable pub make_room : ℕ → Buffer → ℕ → Buffer
make_room junk b size =
    if not b.allocated
    then record b { allocated = true; maxlen = size; cells = replicate size junk }
    else grow junk (move_up b size) size

-- `buffer_prepare` and the copy of `size` bytes to the place that it returns.
unfoldable pub add : ℕ → Buffer → Bytes → Buffer
add junk b bytes =
    let r = make_room junk b (length bytes) in
    record r { len = u32 (r.len + length bytes); cells = overwrite r.cells r.len bytes }

-- `buffer_consume`: the memory from the old offset on, and the new buffer.
unfoldable pub consume : Buffer → ℕ → Bytes × Buffer
consume b size = (
  take size (drop b.offset b.cells),
  if leb b.len (u32 (b.offset + size))
      then record b { offset = 0; len = 0 }
      else record b { offset = u32 (b.offset + size) },
)

-- `memchr`: the position of the first newline.
unfoldable pub find_newline : Bytes → Option ℕ
find_newline [] = none
find_newline (x ∷ xs) =
    if x == 10 then some 0 else elim (find_newline xs) [ none ↦ none | some i ↦ some (suc i) ]

-- The line without its newline, which is overwritten by a NUL; `none` if there is no whole line.
unfoldable pub readline : Buffer → Option Bytes × Buffer
readline b = elim (find_newline (take (b.len - b.offset) (drop b.offset b.cells))) [
  | none ↦ (none, b)
  | some i ↦
      let cut = record b { cells = overwrite b.cells (b.offset + i) (0 ∷ []) } in
      let (start, b') = consume cut (suc i) in (some (take i start), b')
]

unfoldable pub read : Buffer → ℕ → Option Bytes × Buffer
read b size =
    if ltb (b.len - b.offset) size
    then (none, b)
    else (let (start, b') = consume b size in (some start, b'))

unfoldable pub clear : Buffer → Buffer
clear b = empty
