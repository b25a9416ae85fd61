-- ===== src/Buffer/Tests.antt =====
-- The theorems on buffer.c at a concrete buffer.
use tinc.Base.{◌≡◌, true, [], ◌∷◌, ◌++◌, arith}
use tinc.Buffer.{Buffer, add, readline}
use tinc.Buffer.Queue.{IsValid, contents}
use tinc.Buffer.Fifo.{contents-add, readline_lem, LineRead}

-- Ten bytes of memory; two were read, and "ab\ncd" waits.
abbrev some_bytes : Buffer
some_bytes = record {
  allocated = true;
  cells = 1 ∷ 2 ∷ b'a' ∷ b'b' ∷ 10 ∷ b'c' ∷ b'd' ∷ 0 ∷ 0 ∷ 0 ∷ [];
  maxlen = 10;
  len = 7;
  offset = 2;
}

some_bytes-IsValid : IsValid some_bytes
some_bytes-IsValid = ground arith

contents-add_example :
    IsValid (add 99 some_bytes (1 ∷ 2 ∷ 3 ∷ 4 ∷ 5 ∷ []))
    × (contents (add 99 some_bytes (1 ∷ 2 ∷ 3 ∷ 4 ∷ 5 ∷ []))
        ≡ contents some_bytes ++ (1 ∷ 2 ∷ 3 ∷ 4 ∷ 5 ∷ []))
contents-add_example =
    contents-add 99 some_bytes (1 ∷ 2 ∷ 3 ∷ 4 ∷ 5 ∷ []) some_bytes-IsValid (omega arith)

readline_lem_example : LineRead some_bytes (readline some_bytes).0 (readline some_bytes).1
readline_lem_example = readline_lem some_bytes some_bytes-IsValid
