-- ===== src/Utils/Hex.antt =====
-- `bin2hex` and `hex2bin` of utils.c.
pub mod RoundTrip
use tinc.Base.{
  ℕ, zero, suc, ◌+◌, ◌-◌, ◌*◌, ◌/◌, ◌%◌, ◌≤◌, ◌<◌, ◌≡◌, refl, ap, ◌∙◌, sym, Bool, true, false, not,
  ◌&&◌, ◌||◌, List, [], ◌∷◌, ◌++◌, length, get_or, take, drop, leb, ltb, ◌==◌, if◌then◌else◌, arith,
  ==_iff,
}
use tinc.Base.Bits.{holds_below, below_at}
use tinc.Base.Bytes.{Bytes, codes, AllBytes}

-- `isdigit`, `isxdigit` and `toupper` of a byte, in the C locale.
abbrev pub is_digit : ℕ → Bool
is_digit c = leb b'0' c && leb c b'9'

abbrev pub is_upper : ℕ → Bool
is_upper c = leb b'A' c && leb c b'Z'

abbrev pub is_lower : ℕ → Bool
is_lower c = leb b'a' c && leb c b'z'

abbrev pub to_upper : ℕ → ℕ
to_upper c = if is_lower c then c - 32 else c

abbrev pub is_xdigit : ℕ → Bool
is_xdigit c = is_digit c || (leb b'A' (to_upper c) && leb (to_upper c) b'F')

abbrev pub hexadecimals : Bytes
hexadecimals = codes "0123456789ABCDEF"

-- The result is a `uint8_t`.
unfoldable pub charhex2bin : ℕ → ℕ
charhex2bin c = if is_digit c then c - b'0' else (to_upper c + 256 - b'A' + 10) % 256

-- At most `length` bytes; the text ends at a NUL. The count returned is that of the bytes.
unfoldable pub hex2bin : ℕ → Bytes → Bytes
hex2bin zero src = []
hex2bin (suc n) src =
    let rest = hex2bin n (drop 2 src) in
    if is_xdigit (get_or src 0 0) && is_xdigit (get_or src 1 0)
    then (charhex2bin (get_or src 0 0) * 16 + charhex2bin (get_or src 1 0)) % 256 ∷ rest
    else []

-- The loop runs from the last byte to the first, so that it may work in place.
unfoldable pub bin2hex_from : ℕ → Bytes → Bytes → Bytes
bin2hex_from zero src dst = dst
bin2hex_from (suc i) src dst = bin2hex_from i src (
    get_or hexadecimals (get_or src i 0 / 16) 0 ∷ get_or hexadecimals (get_or src i 0 % 16) 0 ∷ dst)

-- Without the NUL at the end.
unfoldable pub bin2hex : Bytes → Bytes
bin2hex src = bin2hex_from (length src) src []
