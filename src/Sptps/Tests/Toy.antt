-- ===== src/Sptps/Tests/Toy.antt =====
-- A toy cryptographic library that satisfies what the theorems ask of one, and two sessions over
-- it in the middle of a handshake.
use tinc.Base.{
  ℕ, ◌-◌, ◌%◌, Bool, true, false, Option, none, some, [], ◌∷◌, ◌++◌, length, take, drop, replicate,
  leb, ◌==◌, if◌then◌else◌, ◌&&◌, arith, length-take,
}
use tinc.Base.Bytes.{Bytes, codes}
use tinc.Sptps.Session.{Crypto, Host, Session, State}
use tinc.Sptps.Safety.Receive.{StripsTag}

abbrev pub same_bytes : Bytes → Bytes → Bool
same_bytes [] [] = true
same_bytes [] (y ∷ ys) = false
same_bytes (x ∷ xs) [] = false
same_bytes (x ∷ xs) (y ∷ ys) = x == y && same_bytes xs ys

abbrev pub tag : Bytes → ℕ → Bytes
tag k n = n % 256 ∷ take 15 (k ++ replicate 15 0)

abbrev open_tagged : Bytes → ℕ → Bytes → Option Bytes
open_tagged k n p =
    if leb 16 (length p) && same_bytes (drop (length p - 16) p) (tag k n)
    then some (take (length p - 16) p)
    else none

-- A signature is the signer's number and the length of what it signs.
abbrev signature : ℕ → Bytes → Bytes
signature k m = k ∷ length m % 256 ∷ []

abbrev pub toy : Crypto
toy = record {
  Cipher = Bytes;
  Key = ℕ;
  Ecdh = ℕ;
  cipher_init = some [];
  set_key = λ old k. some k;
  encrypt = λ k n p. p ++ tag k n;
  decrypt = open_tagged;
  ecdsa_size = λ k. 2;
  ecdsa_sign = λ k m. some (signature k m);
  ecdsa_verify = λ k m s. same_bytes s (signature k m);
  ecdh_compute_shared = λ e p. some (e ∷ []);
  prf = λ secret seed n. some (replicate 64 1 ++ replicate 64 2);
}

pub toy-StripsTag : StripsTag toy
toy-StripsTag k n body plain h = ground (arith, length-take {0} (length body - 16) body)

abbrev pub host : ℕ → Host toy
host r = record {
  send_data = λ log type body. true;
  receive_record = λ log type body. true;
  randomize = λ log. replicate 32 r;
  ecdh_generate_public = λ log. some (5, replicate 32 r);
}

abbrev pub label : Bytes
label = codes "tinc"

abbrev pub kex_of : ℕ → Bytes
kex_of r = 0 ∷ (replicate 32 r ++ replicate 32 r)

-- A stream session that waits for the peer's signature.
abbrev pub waiting : Bool → ℕ → ℕ → Session toy
waiting initiator mine his = record {
  initiator = initiator;
  datagram = false;
  state = State.sig;
  inbuf = [];
  incap = 84;
  reclen = 65;
  instate = false;
  incipher = none;
  win = record { inseqno = 1; received = 0; replaywin = 16; farfuture = 0; late = replicate 16 0 };
  outstate = false;
  outcipher = none;
  outseqno = 1;
  mykey = mine;
  hiskey = his;
  ecdh = some 5;
  mykex = some (kex_of mine);
  hiskex = some (kex_of his);
  key = none;
  label = label;
  send_data = λ log type body. true;
  receive_record = λ log type body. true;
  randomize = λ log. replicate 32 mine;
  ecdh_generate_public = λ log. some (5, replicate 32 mine);
  log = [];
}

abbrev pub alice : Session toy
alice = waiting true 10 20

abbrev pub bob : Session toy
bob = waiting false 20 10
