-- ===== src/Subnet.antt =====
-- Subnet masks of src/subnet_parse.c: `maskcmp`, `mask`, `maskcpy` and `maskcheck`.
pub mod Masks
pub mod Compare
pub mod Order
pub mod Cache
pub mod Lookup
mod Tests
use tinc.Base.{
  ℕ, zero, suc, ◌+◌, ◌-◌, ◌/◌, ◌%◌, ◌^◌, Bool, true, false, not, ◌&&◌, [], ◌∷◌, ◌++◌, length,
  get_or, take, drop, replicate, leb, ltb, ◌==◌, if◌then◌else◌, bit_and,
}
use tinc.Base.Bytes.{Bytes}

-- An `int`, as far as the functions here produce one.
pub data ℤ : Type 0 where
  pos : ℕ → ℤ
  negsuc : ℕ → ℤ

-- The difference of two bytes.
unfoldable pub minus : ℕ → ℕ → ℤ
minus a b = if leb b a then pos (a - b) else negsuc (b - a - 1)

-- a & (0x100 - (1 << (8 - m)))
abbrev pub high_bits : ℕ → ℕ → ℕ
high_bits m a = bit_and a (256 - 2 ^ (8 - m))

-- The loop over the whole bytes, and the bits that are left. The code reads as many bytes as the
-- mask covers; both addresses are that long.
unfoldable pub maskcmp : Bytes → Bytes → ℕ → ℤ
maskcmp [] b masklen = pos 0
maskcmp (x ∷ a) [] masklen = pos 0
maskcmp (x ∷ a) (y ∷ b) masklen =
    let rest = maskcmp a b (masklen - 8) in
    if leb 8 masklen
    then (if x == y then rest else minus x y)
    else (if masklen == 0 then pos 0 else minus (high_bits masklen x) (high_bits masklen y))

-- `a` is the whole address, `len` bytes.
unfoldable pub mask : Bytes → ℕ → Bytes
mask a masklen =
    if masklen % 8 == 0
    then take (masklen / 8) a ++ replicate (length a - masklen / 8) 0
    else take (masklen / 8) a
      ++ (high_bits (masklen % 8) (get_or a (masklen / 8) 0)
          ∷ replicate (length a - suc (masklen / 8)) 0)

-- What is written to the destination, which is as long as the source: the whole bytes one by one,
-- then the bits that are left, then zeros.
unfoldable pub maskcpy : Bytes → ℕ → Bytes
maskcpy [] masklen = []
maskcpy (x ∷ b) masklen =
    let rest = maskcpy b (masklen - 8) in
    if leb 8 masklen
    then x ∷ rest
    else (if masklen == 0 then 0 else high_bits masklen x) ∷ replicate (length b) 0

unfoldable pub all_zero : Bytes → Bool
all_zero [] = true
all_zero (x ∷ a) = x == 0 && all_zero a

-- 0xff >> masklen keeps the low bits.
unfoldable pub maskcheck : Bytes → ℕ → Bool
maskcheck a masklen =
    if masklen % 8 == 0
    then all_zero (drop (masklen / 8) a)
    else bit_and (get_or a (masklen / 8) 0) (255 / 2 ^ (masklen % 8)) == 0
      && all_zero (drop (suc (masklen / 8)) a)
