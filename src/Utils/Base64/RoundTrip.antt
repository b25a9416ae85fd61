-- ===== src/Utils/Base64/RoundTrip.antt =====
-- Encoding in base64 and decoding again (utils.c).
use tinc.Base.{
  ℕ, zero, suc, ◌+◌, ◌*◌, ◌/◌, ◌%◌, ◌^◌, ◌≤◌, ◌<◌, ◌≡◌, ◌≢◌, refl, ap, ◌∙◌, sym, Bool, true, false,
  not, ◌&&◌, Option, none, some, [], ◌∷◌, ◌++◌, length, get_or, drop, ◌==◌, arith,
}
use mathlib.Core.List.{append_assoc, append-nil}
use tinc.Base.Bits.{holds_below, below_at}
use tinc.Base.Bytes.{Bytes, AllBytes}
use tinc.Base.Slices.{take_past}
use tinc.Utils.Base64.{
  b64encode_tinc, b64encode_tinc_urlsafe, base64_original, base64_urlsafe, base64_decode, letters2,
  letters3, letters4, encode_tail, encode_triplets, b64encode_tinc_internal, Decoding,
  decode_letter, write_group, finish, decode_loop, nothing_decoded, b64decode_tinc,
}

abbrev digit : ℕ → Option ℕ
digit c = get_or base64_decode (c % 256) none

abbrev is_digit_of : Option ℕ → ℕ → Bool
is_digit_of none v = false
is_digit_of (some w) v = w == v

letter_row : Bytes → ℕ → Bool
letter_row alphabet v =
    is_digit_of (digit (get_or alphabet v 0)) v && not (get_or alphabet v 0 == 0)

-- The table gives every letter of the alphabet its place.
pub IsAlphabet : Bytes → Type 0
IsAlphabet alphabet =
    (v : ℕ) → v < 64 → (digit (get_or alphabet v 0) ≡ some v) × (get_or alphabet v 0 ≢ 0)

of_row :
    (alphabet : Bytes) (v : ℕ)
    → letter_row alphabet v ≡ true
    → (digit (get_or alphabet v 0) ≡ some v) × (get_or alphabet v 0 ≢ 0)
unfolding letter_row
of_row alphabet v h = (read (digit (get_or alphabet v 0)) refl, ground arith)
  where
    read : (o : Option ℕ) → digit (get_or alphabet v 0) ≡ o → o ≡ some v
    read none e = ground arith
    read (some w) e = ground arith

pub base64_original-IsAlphabet : IsAlphabet base64_original
unfolding IsAlphabet holds_below letter_row
base64_original-IsAlphabet v h =
    of_row base64_original v (below_at 64 (letter_row base64_original) v refl h)

pub base64_urlsafe-IsAlphabet : IsAlphabet base64_urlsafe
unfolding IsAlphabet holds_below letter_row
base64_urlsafe-IsAlphabet v h =
    of_row base64_urlsafe v (below_at 64 (letter_row base64_urlsafe) v refl h)

abbrev group : ℕ → ℕ → ℕ → ℕ
group a b c = a + b * 256 + c * 65536

module _ (alphabet : Bytes) where
  -- The loop from the last triplet to the first, seen from the front.
  encode_triplets-cons :
      (a b c : ℕ) (r : Bytes) (n : ℕ) (dst : Bytes)
      → encode_triplets alphabet (a ∷ b ∷ c ∷ r) (suc n) dst
        ≡ letters4 alphabet (group a b c) ++ encode_triplets alphabet r n dst
  unfolding encode_triplets
  encode_triplets-cons a b c r zero dst = refl
  encode_triplets-cons a b c r (suc n) dst =
      rw (at (suc n * 3) (n * 3) (omega arith), at (suc n * 3 + 1) (n * 3 + 1) (omega arith))
        (rw (at (suc n * 3 + 2) (n * 3 + 2) (omega arith)) (
          encode_triplets-cons a b c r n (
            letters4 alphabet
              (get_or r (n * 3) 0 + get_or r (n * 3 + 1) 0 * 256 + get_or r (n * 3 + 2) 0 * 65536)
            ++ dst)))
    where
      at : (i j : ℕ) → i ≡ suc (suc (suc j)) → get_or (a ∷ b ∷ c ∷ r) i 0 ≡ get_or r j 0
      at i j e = rw e

  -- The encoding from the front.
  encode : Bytes → Bytes
  encode (a ∷ b ∷ c ∷ r) = letters4 alphabet (group a b c) ++ encode r
  encode (a ∷ b ∷ []) = letters3 alphabet (a + b * 256)
  encode (a ∷ []) = letters2 alphabet a
  encode [] = []

  start :
      (n m : ℕ)
      → n ≡ 0
      → m ≡ 0
      → (src : Bytes)
      → encode_triplets alphabet src n (encode_tail alphabet (drop m src))
        ≡ encode_tail alphabet src
  unfolding encode_triplets
  start n m p q src = rw (p, q)

  internal-eq :
      (src : Bytes) (n m : ℕ)
      → n ≡ length src / 3
      → m ≡ n * 3
      → encode_triplets alphabet src n (encode_tail alphabet (drop m src)) ≡ encode src
  unfolding encode encode_tail encode_triplets
  internal-eq [] n m e e' = rw (start n m (omega arith) (omega arith) [])
  internal-eq (a ∷ []) n m e e' = rw (start n m (omega arith) (omega arith) (a ∷ []))
  internal-eq (a ∷ b ∷ []) n m e e' = rw (start n m (omega arith) (omega arith) (a ∷ b ∷ []))
  internal-eq (a ∷ b ∷ c ∷ r) n m e e' = more n m (omega arith) (omega arith) (
      encode_triplets-cons a b c r (length r / 3) _
      ∙ ap (λ l. letters4 alphabet (group a b c) ++ l)
          (internal-eq r (length r / 3) (length r / 3 * 3) refl refl))
    where
      more :
          (n m : ℕ)
          → n ≡ suc (length r / 3)
          → m ≡ suc (suc (suc (length r / 3 * 3)))
          → {l : Bytes}
          → encode_triplets alphabet
              (a ∷ b ∷ c ∷ r)
              (suc (length r / 3))
              (encode_tail alphabet (drop (length r / 3 * 3) r))
            ≡ l
          → encode_triplets alphabet
              (a ∷ b ∷ c ∷ r)
              n
              (encode_tail alphabet (drop m (a ∷ b ∷ c ∷ r)))
            ≡ l
      more n m p q h = rw (p, q) h

  b64encode-eq : (src : Bytes) → b64encode_tinc_internal alphabet src ≡ encode src
  unfolding b64encode_tinc_internal
  b64encode-eq src = internal-eq src _ _ refl refl

abbrev at_phase : ℕ → ℕ → Bytes → Decoding
at_phase i t w = record { phase = i; triplet = t; bad = false; written = w }

module _ (alphabet : Bytes) (letters : IsAlphabet alphabet) where
  letter_before :
      (v i t : ℕ) (w rest : Bytes)
      → v < 64
      → i < 3
      → decode_loop (get_or alphabet v 0 ∷ rest) (at_phase i t w)
        ≡ decode_loop rest (at_phase (i + 1) (t + v * 64 ^ i) w)
  unfolding decode_loop decode_letter IsAlphabet
  letter_before v i t w rest h k = rw (letters v h).0 (ground (arith, (letters v h).1))

  letter_last :
      (v t : ℕ) (w rest : Bytes)
      → v < 64
      → decode_loop (get_or alphabet v 0 ∷ rest) (at_phase 3 t w)
        ≡ decode_loop rest (
            at_phase 0 0 (
              w
              ++ ((t + v * 262144) % 256
                  ∷ (t + v * 262144) / 256 % 256
                  ∷ (t + v * 262144) / 256 / 256 % 256
                  ∷ [])))
  unfolding decode_loop decode_letter write_group IsAlphabet
  letter_last v t w rest h = rw (letters v h).0 (ground (arith, (letters v h).1))

  decode-letters4 :
      (a b c : ℕ) (w rest : Bytes)
      → a < 256
      → b < 256
      → c < 256
      → decode_loop (letters4 alphabet (group a b c) ++ rest) (at_phase 0 0 w)
        ≡ decode_loop rest (at_phase 0 0 (w ++ (a ∷ b ∷ c ∷ [])))
  unfolding letters4
  decode-letters4 a b c w rest ha hb hc =
      let t = group a b c in
      letter_before (t % 64) 0 0 w _ (omega arith) (omega arith)
      ∙ letter_before (t / 64 % 64) 1 _ w _ (omega arith) (omega arith)
      ∙ letter_before (t / 64 / 64 % 64) 2 _ w _ (omega arith) (omega arith)
      ∙ letter_last (t / 64 / 64 / 64) _ w rest (omega arith)
      ∙ values _ _ _ (omega arith) (omega arith) (omega arith)
    where
      values :
          (x y z : ℕ)
          → x ≡ a
          → y ≡ b
          → z ≡ c
          → decode_loop rest (at_phase 0 0 (w ++ (x ∷ y ∷ z ∷ [])))
            ≡ decode_loop rest (at_phase 0 0 (w ++ (a ∷ b ∷ c ∷ [])))
      values x y z p q r = rw (p, q, r)

  end3 :
      (t a b : ℕ) (w : Bytes)
      → t % 256 ≡ a
      → t / 256 % 256 ≡ b
      → decode_loop [] (at_phase 3 t w) ≡ some (w ++ (a ∷ b ∷ []))
  unfolding decode_loop finish
  end3 t a b w p q = rw (p, q)

  end2 :
      (t a : ℕ) (w : Bytes) → t % 256 ≡ a → decode_loop [] (at_phase 2 t w) ≡ some (w ++ (a ∷ []))
  unfolding decode_loop finish
  end2 t a w p = rw p

  decode-letters3 :
      (a b : ℕ) (w : Bytes)
      → a < 256
      → b < 256
      → decode_loop (letters3 alphabet (a + b * 256)) (at_phase 0 0 w) ≡ some (w ++ (a ∷ b ∷ []))
  unfolding letters3
  decode-letters3 a b w ha hb =
      let t = a + b * 256 in
      letter_before (t % 64) 0 0 w _ (omega arith) (omega arith)
      ∙ letter_before (t / 64 % 64) 1 _ w _ (omega arith) (omega arith)
      ∙ letter_before (t / 64 / 64) 2 _ w _ (omega arith) (omega arith)
      ∙ end3 _ a b w (omega arith) (omega arith)

  decode-letters2 :
      (a : ℕ) (w : Bytes)
      → a < 256
      → decode_loop (letters2 alphabet a) (at_phase 0 0 w) ≡ some (w ++ (a ∷ []))
  unfolding letters2
  decode-letters2 a w ha =
      letter_before (a % 64) 0 0 w _ (omega arith) (omega arith)
      ∙ letter_before (a / 64) 1 _ w _ (omega arith) (omega arith)
      ∙ end2 _ a w (omega arith)

  decode-encode :
      (src w : Bytes)
      → AllBytes src
      → decode_loop (encode alphabet src) (at_phase 0 0 w) ≡ some (w ++ src)
  unfolding encode decode_loop finish
  decode-encode [] w h = ap some (sym (append-nil w))
  decode-encode (a ∷ []) w h = decode-letters2 a w h.0
  decode-encode (a ∷ b ∷ []) w h = decode-letters3 a b w h.0 h.1.0
  decode-encode (a ∷ b ∷ c ∷ r) w h =
      decode-letters4 a b c w (encode alphabet r) h.0 h.1.0 h.1.1.0
      ∙ decode-encode r (w ++ (a ∷ b ∷ c ∷ [])) h.1.1.1
      ∙ ap some (append_assoc w (a ∷ b ∷ c ∷ []) r)

  b64decode-encode :
      (src : Bytes) (bound : ℕ)
      → AllBytes src
      → length (b64encode_tinc_internal alphabet src) ≤ bound
      → b64decode_tinc (b64encode_tinc_internal alphabet src) bound ≡ some src
  unfolding b64decode_tinc
  b64decode-encode src bound h k =
      ap (λ l. decode_loop l nothing_decoded)
        (take_past bound (b64encode_tinc_internal alphabet src) k ∙ b64encode-eq alphabet src)
      ∙ decode-encode src [] h

-- What either encoder writes for a string of bytes is decoded to those bytes, whatever bound on
-- the length is given that does not cut the text. The two alphabets share one decoder.
pub b64decode-b64encode :
    (src : Bytes) (bound : ℕ)
    → AllBytes src
    → length (b64encode_tinc src) ≤ bound
    → length (b64encode_tinc_urlsafe src) ≤ bound
    → (b64decode_tinc (b64encode_tinc src) bound ≡ some src)
      × (b64decode_tinc (b64encode_tinc_urlsafe src) bound ≡ some src)
unfolding b64encode_tinc b64encode_tinc_urlsafe
b64decode-b64encode src bound h k k' = (
  b64decode-encode base64_original base64_original-IsAlphabet src bound h k,
  b64decode-encode base64_urlsafe base64_urlsafe-IsAlphabet src bound h k',
)
