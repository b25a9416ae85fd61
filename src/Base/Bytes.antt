-- ===== src/Base/Bytes.antt =====
-- Byte strings and numbers in network byte order.
use Prim.Native.Nat.{ℕ, zero, suc, ◌+◌, ◌*◌, ◌/◌, ◌%◌, ◌^◌, ◌<◌}
use mathlib.Core.Path.{◌≡◌}
use mathlib.Core.List.{List, [], ◌∷◌}
use native.Mathlib.Omega.{arith}
use Prim.Native.String.{String}
use Prim.Native.Char.{code}
use tinc.Base.Lists.{length, take, get_or}

abbrev pub Bytes : Type 0
Bytes = List ℕ

-- Arithmetic of `uint32_t` and `unsigned int`.
abbrev pub u32 : ℕ → ℕ
u32 n = n % 2 ^ 32

-- `htons` and `htonl` of a number that fits, as the bytes in memory.
unfoldable pub be16 : ℕ → Bytes
be16 n = n / 256 % 256 ∷ n % 256 ∷ []

unfoldable pub be32 : ℕ → Bytes
be32 n = n / 2 ^ 24 % 256 ∷ n / 2 ^ 16 % 256 ∷ n / 256 % 256 ∷ n % 256 ∷ []

-- `ntohs` and `ntohl` of the first bytes of a buffer.
unfoldable pub from_be16 : Bytes → ℕ
from_be16 b = get_or b 0 0 * 256 + get_or b 1 0

unfoldable pub from_be32 : Bytes → ℕ
from_be32 b = get_or b 0 0 * 2 ^ 24 + get_or b 1 0 * 2 ^ 16 + get_or b 2 0 * 256 + get_or b 3 0

pub from_be16-be16 : (n : ℕ) → n < 2 ^ 16 → from_be16 (be16 n) ≡ n
unfolding be16 from_be16
from_be16-be16 n h = omega arith

pub from_be32-be32 : (n : ℕ) → n < 2 ^ 32 → from_be32 (be32 n) ≡ n
unfolding be32 from_be32
from_be32-be32 n h = omega arith

-- A length passed through a `uint16_t` parameter: the callee sees this much of the data.
abbrev pub u16_bytes : Bytes → Bytes
u16_bytes b = take (length b % 2 ^ 16) b

-- The bytes of an ASCII text.
abbrev pub codes : String → Bytes
codes String.[] = []
codes (String.◌∷◌ c s) = code c ∷ codes s

abbrev pub AllBytes : Bytes → Type 0
AllBytes [] = Unit {0}
AllBytes (x ∷ xs) = (x < 256) × AllBytes xs

pub get_or-lt : (bytes : Bytes) (i : ℕ) → AllBytes bytes → get_or bytes i 0 < 256
get_or-lt [] i h = omega arith
get_or-lt (x ∷ bytes) zero h = h.0
get_or-lt (x ∷ bytes) (suc i) h = get_or-lt bytes i h.1
