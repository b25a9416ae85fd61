-- ===== src/Route/Checksum/Laws.antt =====
-- The Internet checksum of src/route.c: its loop, sums in parts, and a checksum that is filled in.
use tinc.Base.{
  ℕ, zero, suc, ◌+◌, ◌-◌, ◌*◌, ◌/◌, ◌%◌, ◌^◌, ◌≤◌, ◌<◌, ◌≡◌, ◌↔◌, refl, sym, ap, ◌∙◌, [], ◌∷◌, ◌++◌,
  length, arith,
}
use tinc.Base.Bytes.{Bytes, u32, AllBytes}
use tinc.Route.Checksum.{add_words, fold, inet_checksum}

fold_done : (rounds c : ℕ) → c < 2 ^ 16 → fold rounds c ≡ c
unfolding fold
fold_done zero c h = refl
fold_done (suc rounds) c h = ground arith

-- One round of the loop.
abbrev once : ℕ → ℕ
once c = c % 2 ^ 16 + c / 2 ^ 16

fold-suc : (rounds c : ℕ) → fold (suc rounds) c ≡ fold rounds (once c)
unfolding fold
fold-suc rounds c = ground (arith, fold_done rounds c, fold_done rounds (once c))

fold_three : (more c : ℕ) → c < 2 ^ 32 → fold (suc (suc (suc more))) c ≡ once (once (once c))
fold_three more c h =
    fold-suc (suc (suc more)) c
    ∙ fold-suc (suc more) (once c)
    ∙ fold-suc more (once (once c))
    ∙ fold_done more (once (once (once c))) (omega arith)

-- The loop that folds the sum ends after three rounds, for every 32-bit sum: more rounds change
-- nothing. Its result has 16 bits, has the same remainder by 65535, and is zero only for zero.
pub fold_ends :
    (checksum more : ℕ)
    → checksum < 2 ^ 32
    → (fold (suc (suc (suc more))) checksum ≡ fold 3 checksum)
      × (fold 3 checksum < 2 ^ 16)
      × (fold 3 checksum % 65535 ≡ checksum % 65535)
      × ((fold 3 checksum ≡ 0) ↔ (checksum ≡ 0))
fold_ends c more h =
    let f : fold 3 c ≡ once (once (once c)) = fold_three 0 c h in
    let same : once (once (once c)) % 65535 ≡ c % 65535 = omega arith in
    (
      fold_three more c h ∙ sym f,
      rw f (omega arith),
      rw f same,
      (λ e. omega (arith, f), λ e. omega (arith, f)),
    )

-- The sum of the words, not cut to 32 bits.
word_sum : Bytes → ℕ
word_sum [] = 0
word_sum (x ∷ []) = x
word_sum (x ∷ y ∷ rest) = x + y * 256 + word_sum rest

word_sum-le : (bytes : Bytes) → AllBytes bytes → word_sum bytes ≤ 65535 * length bytes
unfolding word_sum
word_sum-le [] h = omega arith
word_sum-le (x ∷ []) h = omega arith
word_sum-le (x ∷ y ∷ rest) h = omega (arith, word_sum-le rest h.1.1)

add_words-eq :
    (c : ℕ) (bytes : Bytes) → c + word_sum bytes < 2 ^ 32 → add_words c bytes ≡ c + word_sum bytes
unfolding word_sum add_words
add_words-eq c [] h = omega arith
add_words-eq c (x ∷ []) h = omega arith
add_words-eq c (x ∷ y ∷ rest) h =
    let e : u32 (c + (x + y * 256)) ≡ c + (x + y * 256) = omega arith in
    rw e (omega (arith, add_words-eq (c + (x + y * 256)) rest (omega arith)))

-- Two 32-bit sums that agree by 65535, and of which none or both are zero, fold to the same.
fold_unique :
    (c d : ℕ)
    → c < 2 ^ 32
    → d < 2 ^ 32
    → c % 65535 ≡ d % 65535
    → (c ≡ 0) ↔ (d ≡ 0)
    → fold 3 c ≡ fold 3 d
fold_unique c d h k e z =
    let (_, short, same, zero') = fold_ends c 0 h in
    let (_, short', same', zero'') = fold_ends d 0 k in ground arith

word_sum-append :
    (half : ℕ) (a b : Bytes) → length a ≡ 2 * half → word_sum (a ++ b) ≡ word_sum a + word_sum b
unfolding word_sum
word_sum-append half [] b e = omega arith
word_sum-append half (x ∷ []) b e = absurd (omega arith)
word_sum-append half (x ∷ y ∷ rest) b e =
    omega (arith, word_sum-append (half - 1) rest b (omega arith))

AllBytes-append_left : (a b : Bytes) → AllBytes (a ++ b) → AllBytes a
AllBytes-append_left [] b h = tt
AllBytes-append_left (x ∷ a) b h = (h.0, AllBytes-append_left a b h.1)

AllBytes-append_right : (a b : Bytes) → AllBytes (a ++ b) → AllBytes b
AllBytes-append_right [] b h = h
AllBytes-append_right (x ∷ a) b h = AllBytes-append_right a b h.1

-- The checksum of bytes in two parts, of which the first has an even length, can be made in two
-- calls, of which the second continues the first, if there are at most 64 KiB in all.
pub inet_checksum-append :
    (half : ℕ) (a b : Bytes)
    → AllBytes (a ++ b)
    → length a ≡ 2 * half
    → length (a ++ b) ≤ 65535
    → inet_checksum b (inet_checksum a 65535) ≡ inet_checksum (a ++ b) 65535
unfolding inet_checksum
inet_checksum-append half a b h e short =
    let sum = word_sum-append half a b e in
    let below = word_sum-le (a ++ b) h in
    let all : add_words 0 (a ++ b) ≡ word_sum (a ++ b) =
      omega (arith, add_words-eq 0 (a ++ b) (omega arith)) in
    let first : add_words 0 a ≡ word_sum a = omega (arith, add_words-eq 0 a (omega arith)) in
    let (_, small, same, nought) = fold_ends (word_sum a) 0 (omega arith) in
    let back : 65535 - (65535 - fold 3 (word_sum a)) ≡ fold 3 (word_sum a) = omega arith in
    let second : add_words (fold 3 (word_sum a)) b ≡ fold 3 (word_sum a) + word_sum b =
      add_words-eq (fold 3 (word_sum a)) b (omega arith) in
    rw (first, back, second, all)
      (ap (λ (k : ℕ). 65535 - k)
        (fold_unique (fold 3 (word_sum a) + word_sum b) (word_sum (a ++ b)) (omega arith)
          (omega arith) (omega arith) (ground arith)))

-- The checksum is accepted: bytes whose checksum field, at an even place, was filled in with the
-- checksum that the bytes have while it is zero, have the checksum zero; so is a word of 16 bits
-- stored with its low byte first. There are at most 64 KiB.
pub inet_checksum-filled :
    (half : ℕ) (a b : Bytes)
    → AllBytes (a ++ (0 ∷ 0 ∷ b))
    → length a ≡ 2 * half
    → length (a ++ (0 ∷ 0 ∷ b)) ≤ 65534
    → let c = inet_checksum (a ++ (0 ∷ 0 ∷ b)) 65535 in
      inet_checksum (a ++ ((c % 256) ∷ (c / 256) ∷ b)) 65535 ≡ 0
unfolding inet_checksum word_sum
inet_checksum-filled half a b h e short =
    let w = word_sum a + word_sum b in
    let zeros : word_sum (a ++ (0 ∷ 0 ∷ b)) ≡ w =
      omega (arith, word_sum-append half a (0 ∷ 0 ∷ b) e) in
    let below = word_sum-le (a ++ (0 ∷ 0 ∷ b)) h in
    let all : add_words 0 (a ++ (0 ∷ 0 ∷ b)) ≡ w =
      omega (arith, add_words-eq 0 (a ++ (0 ∷ 0 ∷ b)) (omega arith)) in
    let (_, small, same, nought) = fold_ends w 0 (omega arith) in
    let c = 65535 - fold 3 w in
    let filled : word_sum (a ++ ((c % 256) ∷ (c / 256) ∷ b)) ≡ w + c =
      omega (arith, word_sum-append half a ((c % 256) ∷ (c / 256) ∷ b) e) in
    let again : add_words 0 (a ++ ((c % 256) ∷ (c / 256) ∷ b)) ≡ w + c =
      omega (arith, add_words-eq 0 (a ++ ((c % 256) ∷ (c / 256) ∷ b)) (omega arith)) in
    let full : fold 3 (w + c) ≡ fold 3 65535 =
      fold_unique (w + c) 65535 (omega arith) (omega arith) (omega arith) (ground arith) in
    rw all (rw again (rw full (unfold fold in refl)))
