-- ===== src/Utils/Hex/RoundTrip.antt =====
-- Writing hexadecimal text and reading it again (utils.c).
use tinc.Base.{
  ℕ, zero, suc, ◌/◌, ◌%◌, ◌≤◌, ◌<◌, ◌≡◌, refl, ap, ◌∙◌, Bool, true, ◌&&◌, [], ◌∷◌, length, get_or,
  ◌==◌, arith,
}
use tinc.Base.Bits.{holds_below, below_at}
use tinc.Base.Bytes.{Bytes, AllBytes}
use tinc.Utils.Hex.{hexadecimals, is_xdigit, charhex2bin, hex2bin, bin2hex_from, bin2hex}

digit_row : ℕ → Bool
digit_row v = is_xdigit (get_or hexadecimals v 0) && charhex2bin (get_or hexadecimals v 0) == v

digit_lem :
    (v : ℕ)
    → v < 16
    → (is_xdigit (get_or hexadecimals v 0) ≡ true) × (charhex2bin (get_or hexadecimals v 0) ≡ v)
unfolding digit_row holds_below charhex2bin
digit_lem v h =
    parts (is_xdigit (get_or hexadecimals v 0)) (charhex2bin (get_or hexadecimals v 0)) row
  where
    row : digit_row v ≡ true
    row = below_at 16 digit_row v refl h

    parts : (b : Bool) (c : ℕ) → (b && c == v) ≡ true → (b ≡ true) × (c ≡ v)
    parts b c e = ground arith

-- The loop from the last byte to the first, seen from the front.
bin2hex_from-cons :
    (x : ℕ) (r : Bytes) (n : ℕ) (dst : Bytes)
    → bin2hex_from (suc n) (x ∷ r) dst
      ≡ get_or hexadecimals (x / 16) 0 ∷ get_or hexadecimals (x % 16) 0 ∷ bin2hex_from n r dst
unfolding bin2hex_from
bin2hex_from-cons x r zero dst = refl
bin2hex_from-cons x r (suc n) dst = bin2hex_from-cons x r n _

-- For a string of bytes `hex2bin` gives back what `bin2hex` was given, if it may write that many
-- bytes: the end of the text ends its loop.
pub hex2bin-bin2hex :
    (src : Bytes) (n : ℕ) → AllBytes src → length src ≤ n → hex2bin n (bin2hex src) ≡ src
unfolding hex2bin bin2hex bin2hex_from
hex2bin-bin2hex [] zero h k = refl
hex2bin-bin2hex [] (suc n) h k = refl
hex2bin-bin2hex (x ∷ r) zero h k = absurd (omega arith)
hex2bin-bin2hex (x ∷ r) (suc n) h k =
    ap (hex2bin (suc n)) (bin2hex_from-cons x r (length r) [])
    ∙ ground (arith, digit_lem (x / 16), digit_lem (x % 16), hex2bin-bin2hex r n h.1)
