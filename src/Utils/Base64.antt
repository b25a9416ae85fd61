-- ===== src/Utils/Base64.antt =====
-- `b64encode_tinc`, `b64encode_tinc_urlsafe` and `b64decode_tinc` of utils.c.
pub mod RoundTrip
use tinc.Base.{
  ℕ, zero, suc, ◌+◌, ◌-◌, ◌*◌, ◌/◌, ◌%◌, ◌^◌, ◌≤◌, ◌<◌, ◌≡◌, refl, ap, ◌∙◌, sym, Bool, true, false,
  not, ◌&&◌, ◌||◌, Option, none, some, List, [], ◌∷◌, ◌++◌, length, get_or, take, drop, leb, ltb,
  ◌==◌, if◌then◌else◌, arith, ==_iff,
}
use tinc.Base.Bits.{holds_below, below_at}
use tinc.Base.Bytes.{Bytes, codes, AllBytes}

abbrev pub base64_original : Bytes
base64_original = codes "ABCDEFGHIJKLMNOPQRSTUVWXYZabcdefghijklmnopqrstuvwxyz0123456789+/"

abbrev pub base64_urlsafe : Bytes
base64_urlsafe = codes "ABCDEFGHIJKLMNOPQRSTUVWXYZabcdefghijklmnopqrstuvwxyz0123456789-_"

-- The table, with `none` for -1.
abbrev pub base64_decode : List (Option ℕ)
base64_decode =
    none
    ∷ none
    ∷ none
    ∷ none
    ∷ none
    ∷ none
    ∷ none
    ∷ none
    ∷ none
    ∷ none
    ∷ none
    ∷ none
    ∷ none
    ∷ none
    ∷ none
    ∷ none
    ∷ none
    ∷ none
    ∷ none
    ∷ none
    ∷ none
    ∷ none
    ∷ none
    ∷ none
    ∷ none
    ∷ none
    ∷ none
    ∷ none
    ∷ none
    ∷ none
    ∷ none
    ∷ none
    ∷ none
    ∷ none
    ∷ none
    ∷ none
    ∷ none
    ∷ none
    ∷ none
    ∷ none
    ∷ none
    ∷ none
    ∷ none
    ∷ some 62
    ∷ none
    ∷ some 62
    ∷ none
    ∷ some 63
    ∷ some 52
    ∷ some 53
    ∷ some 54
    ∷ some 55
    ∷ some 56
    ∷ some 57
    ∷ some 58
    ∷ some 59
    ∷ some 60
    ∷ some 61
    ∷ none
    ∷ none
    ∷ none
    ∷ none
    ∷ none
    ∷ none
    ∷ none
    ∷ some 0
    ∷ some 1
    ∷ some 2
    ∷ some 3
    ∷ some 4
    ∷ some 5
    ∷ some 6
    ∷ some 7
    ∷ some 8
    ∷ some 9
    ∷ some 10
    ∷ some 11
    ∷ some 12
    ∷ some 13
    ∷ some 14
    ∷ some 15
    ∷ some 16
    ∷ some 17
    ∷ some 18
    ∷ some 19
    ∷ some 20
    ∷ some 21
    ∷ some 22
    ∷ some 23
    ∷ some 24
    ∷ some 25
    ∷ none
    ∷ none
    ∷ none
    ∷ none
    ∷ some 63
    ∷ none
    ∷ some 26
    ∷ some 27
    ∷ some 28
    ∷ some 29
    ∷ some 30
    ∷ some 31
    ∷ some 32
    ∷ some 33
    ∷ some 34
    ∷ some 35
    ∷ some 36
    ∷ some 37
    ∷ some 38
    ∷ some 39
    ∷ some 40
    ∷ some 41
    ∷ some 42
    ∷ some 43
    ∷ some 44
    ∷ some 45
    ∷ some 46
    ∷ some 47
    ∷ some 48
    ∷ some 49
    ∷ some 50
    ∷ some 51
    ∷ none
    ∷ none
    ∷ none
    ∷ none
    ∷ none
    ∷ none
    ∷ none
    ∷ none
    ∷ none
    ∷ none
    ∷ none
    ∷ none
    ∷ none
    ∷ none
    ∷ none
    ∷ none
    ∷ none
    ∷ none
    ∷ none
    ∷ none
    ∷ none
    ∷ none
    ∷ none
    ∷ none
    ∷ none
    ∷ none
    ∷ none
    ∷ none
    ∷ none
    ∷ none
    ∷ none
    ∷ none
    ∷ none
    ∷ none
    ∷ none
    ∷ none
    ∷ none
    ∷ none
    ∷ none
    ∷ none
    ∷ none
    ∷ none
    ∷ none
    ∷ none
    ∷ none
    ∷ none
    ∷ none
    ∷ none
    ∷ none
    ∷ none
    ∷ none
    ∷ none
    ∷ none
    ∷ none
    ∷ none
    ∷ none
    ∷ none
    ∷ none
    ∷ none
    ∷ none
    ∷ none
    ∷ none
    ∷ none
    ∷ none
    ∷ none
    ∷ none
    ∷ none
    ∷ none
    ∷ none
    ∷ none
    ∷ none
    ∷ none
    ∷ none
    ∷ none
    ∷ none
    ∷ none
    ∷ none
    ∷ none
    ∷ none
    ∷ none
    ∷ none
    ∷ none
    ∷ none
    ∷ none
    ∷ none
    ∷ none
    ∷ none
    ∷ none
    ∷ none
    ∷ none
    ∷ none
    ∷ none
    ∷ none
    ∷ none
    ∷ none
    ∷ none
    ∷ none
    ∷ none
    ∷ none
    ∷ none
    ∷ none
    ∷ none
    ∷ none
    ∷ none
    ∷ none
    ∷ none
    ∷ none
    ∷ none
    ∷ none
    ∷ none
    ∷ none
    ∷ none
    ∷ none
    ∷ none
    ∷ none
    ∷ none
    ∷ none
    ∷ none
    ∷ none
    ∷ none
    ∷ none
    ∷ none
    ∷ none
    ∷ none
    ∷ none
    ∷ none
    ∷ none
    ∷ none
    ∷ none
    ∷ none
    ∷ none
    ∷ none
    ∷ none
    ∷ []

-- The letters of a number, the lowest six bits first, and the last letter from what is left.
unfoldable pub letters2 : Bytes → ℕ → Bytes
letters2 alphabet t = get_or alphabet (t % 64) 0 ∷ get_or alphabet (t / 64) 0 ∷ []

unfoldable pub letters3 : Bytes → ℕ → Bytes
letters3 alphabet t =
    get_or alphabet (t % 64) 0
    ∷ get_or alphabet (t / 64 % 64) 0
    ∷ get_or alphabet (t / 64 / 64) 0
    ∷ []

unfoldable pub letters4 : Bytes → ℕ → Bytes
letters4 alphabet t =
    get_or alphabet (t % 64) 0
    ∷ get_or alphabet (t / 64 % 64) 0
    ∷ get_or alphabet (t / 64 / 64 % 64) 0
    ∷ get_or alphabet (t / 64 / 64 / 64) 0
    ∷ []

-- The `switch` over length % 3: the letters of the bytes behind the last whole triplet.
unfoldable pub encode_tail : Bytes → Bytes → Bytes
encode_tail alphabet [] = []
encode_tail alphabet (a ∷ []) = letters2 alphabet a
encode_tail alphabet (a ∷ b ∷ rest) = letters3 alphabet (a + b * 256)

-- `while(si > 0)`: the whole triplets from the last to the first; `n` of them are left.
unfoldable pub encode_triplets : Bytes → Bytes → ℕ → Bytes → Bytes
encode_triplets alphabet src zero dst = dst
encode_triplets alphabet src (suc n) dst = encode_triplets alphabet src n (
    letters4 alphabet
      (get_or src (n * 3) 0 + get_or src (n * 3 + 1) 0 * 256 + get_or src (n * 3 + 2) 0 * 65536)
    ++ dst)

unfoldable pub b64encode_tinc_internal : Bytes → Bytes → Bytes
b64encode_tinc_internal alphabet src =
    encode_triplets alphabet src (length src / 3)
      (encode_tail alphabet (drop (length src / 3 * 3) src))

-- The state of the decoding loop: how many letters of the group were read (`i & 3`), their value
-- (the low 24 bits of `triplet`), whether one was no letter (then bits of its top byte are set),
-- and the bytes written.
pub record Decoding : Type 0 where
  pub phase : ℕ
  pub triplet : ℕ
  pub bad : Bool
  pub written : Bytes

-- One round: the letter's six bits are added, and a whole group is written out.
unfoldable pub decode_letter : Decoding → Option ℕ → Decoding
decode_letter d none = record d { phase = d.phase + 1; bad = true }
decode_letter d (some v) = record d { phase = d.phase + 1; triplet = d.triplet + v * 64 ^ d.phase }

unfoldable pub write_group : Decoding → Decoding
write_group d = record {
  phase = 0;
  triplet = 0;
  bad = false;
  written =
      d.written ++ (d.triplet % 256 ∷ d.triplet / 256 % 256 ∷ d.triplet / 256 / 256 % 256 ∷ []);
}

-- What is written behind the last whole group.
unfoldable pub finish : Decoding → Option Bytes
finish d =
    if d.bad
    then none
    else some (
        if d.phase == 3
        then d.written ++ (d.triplet % 256 ∷ d.triplet / 256 % 256 ∷ [])
        else if d.phase == 2
        then d.written ++ (d.triplet % 256 ∷ [])
        else d.written)

-- The loop ends at a NUL. `none` is the return of 0 for a letter that is not in the table.
unfoldable pub decode_loop : Bytes → Decoding → Option Bytes
decode_loop [] d = finish d
decode_loop (c ∷ src) d =
    let d' = decode_letter d (get_or base64_decode (c % 256) none) in
    let whole = decode_loop src (write_group d') in
    let part = decode_loop src d' in
    if c == 0 then finish d else (if d'.phase == 4 then (if d'.bad then none else whole) else part)

abbrev pub nothing_decoded : Decoding
nothing_decoded = record { phase = 0; triplet = 0; bad = false; written = [] }

unfoldable pub b64decode_tinc : Bytes → ℕ → Option Bytes
b64decode_tinc src length = decode_loop (take length src) nothing_decoded

unfoldable pub b64encode_tinc : Bytes → Bytes
b64encode_tinc src = b64encode_tinc_internal base64_original src

unfoldable pub b64encode_tinc_urlsafe : Bytes → Bytes
b64encode_tinc_urlsafe src = b64encode_tinc_internal base64_urlsafe src
