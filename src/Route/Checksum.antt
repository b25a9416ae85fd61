-- ===== src/Route/Checksum.antt =====
-- `inet_checksum` of src/route.c, the Internet checksum.
pub mod Laws
use tinc.Base.{ℕ, zero, suc, ◌+◌, ◌-◌, ◌*◌, ◌/◌, ◌%◌, ◌^◌, [], ◌∷◌, ◌==◌, if◌then◌else◌}
use tinc.Base.Bytes.{Bytes, u32}

-- The loop over the words, on a machine whose first byte is the low one; an odd byte is added.
unfoldable pub add_words : ℕ → Bytes → ℕ
add_words checksum [] = checksum
add_words checksum (x ∷ []) = u32 (checksum + x)
add_words checksum (x ∷ y ∷ rest) = add_words (u32 (checksum + (x + y * 256))) rest

-- while(checksum >> 16), for `rounds` rounds at most.
unfoldable pub fold : ℕ → ℕ → ℕ
fold zero checksum = checksum
fold (suc rounds) checksum =
    let rest = fold rounds (checksum % 2 ^ 16 + checksum / 2 ^ 16) in
    if checksum / 2 ^ 16 == 0 then checksum else rest

unfoldable pub inet_checksum : Bytes → ℕ → ℕ
inet_checksum bytes prevsum = 65535 - fold 3 (add_words (65535 - prevsum) bytes)
