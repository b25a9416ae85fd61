-- ===== src/Utils/Tests.antt =====
-- The theorems on utils.c at concrete texts.
use tinc.Base.{◌≡◌, refl, true, none, some, [], ◌∷◌, length, arith}
use tinc.Base.Bytes.{Bytes, codes, AllBytes}
use tinc.Utils.Hex.{bin2hex, hex2bin}
use tinc.Utils.Hex.RoundTrip.{hex2bin-bin2hex}
use tinc.Utils.Base64.{
  b64encode_tinc, b64encode_tinc_urlsafe, b64decode_tinc, b64encode_tinc_internal, encode_triplets,
  encode_tail, letters2, letters4,
}
use tinc.Utils.Base64.RoundTrip.{b64decode-b64encode}
use tinc.Utils.Names.{replace_name, checked, check_id, id_chars, id_char}

abbrev four_bytes : Bytes
four_bytes = 251 ∷ 0 ∷ 17 ∷ 255 ∷ []

four_bytes-AllBytes : AllBytes four_bytes
four_bytes-AllBytes = (omega arith, (omega arith, (omega arith, (omega arith, tt))))

hex2bin-bin2hex_example : hex2bin 16 (bin2hex four_bytes) ≡ four_bytes
hex2bin-bin2hex_example = hex2bin-bin2hex four_bytes 16 four_bytes-AllBytes (omega arith)

length-original : length (b64encode_tinc four_bytes) ≡ 6
unfolding b64encode_tinc b64encode_tinc_internal encode_triplets encode_tail letters2 letters4
length-original = refl

length-urlsafe : length (b64encode_tinc_urlsafe four_bytes) ≡ 6
unfolding b64encode_tinc_urlsafe b64encode_tinc_internal encode_triplets encode_tail letters2
    letters4
length-urlsafe = refl

b64decode-b64encode_example :
    (b64decode_tinc (b64encode_tinc four_bytes) 6 ≡ some four_bytes)
    × (b64decode_tinc (b64encode_tinc_urlsafe four_bytes) 6 ≡ some four_bytes)
b64decode-b64encode_example =
    b64decode-b64encode four_bytes 6 four_bytes-AllBytes (omega (arith, length-original))
      (omega (arith, length-urlsafe))

node_1-accepted : check_id (codes "node_1") ≡ true
unfolding check_id id_chars id_char
node_1-accepted = refl

host_variable :
    replace_name (λ v. none) (some (codes "my-host")) 255 (codes "$HOST") ≡ some (codes "my_host")
unfolding replace_name checked check_id id_chars id_char
host_variable = refl
