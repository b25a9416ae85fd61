-- ===== src/Sptps/Session.antt =====
-- The state of an SPTPS session (`sptps_t` in src/sptps.h), the cryptographic library and the
-- callbacks that it is given, and the calls of the callbacks that it makes.
use tinc.Base.{ℕ, Bool, Option, List}
use tinc.Base.Bytes.{Bytes}
use tinc.Sptps.Window.{Window}

-- `sptps_state_t`; a session that was not started, or was stopped, has state zero.
pub data State : Type 0 where
  unset kex secondary_kex sig ack : State

abbrev pub handshake_type : ℕ
handshake_type = 128

-- A call of a callback: a record that was sent, or one that was handed to the application.
pub data Event : Type 0 where
  sent : ℕ → Bytes → Event
  delivered : ℕ → Bytes → Event

-- The library under chacha-poly1305, ed25519 and prf.h.
pub record Crypto : Type 1 where
  pub Cipher : Type 0
  pub Key : Type 0
  pub Ecdh : Type 0
  pub cipher_init : Option Cipher
  pub set_key : Cipher → Bytes → Option Cipher
  pub encrypt : Cipher → ℕ → Bytes → Bytes
  pub decrypt : Cipher → ℕ → Bytes → Option Bytes
  pub ecdsa_size : Key → ℕ
  pub ecdsa_sign : Key → Bytes → Option Bytes
  pub ecdsa_verify : Key → Bytes → Bytes → Bool
  pub ecdh_compute_shared : Ecdh → Bytes → Option Bytes
  pub prf : Bytes → Bytes → ℕ → Option Bytes

-- `sptps_t`. `inbuf` holds the first `buflen` bytes of the input buffer and `incap` is its size;
-- a kex is its 65 bytes and `key` the 128 bytes of both keys; `win` holds `inseqno`, `received`,
-- `replaywin`, `farfuture` and `late`; `log` is every call of a callback, the latest first.
-- The two callbacks, and what the random sources `randomize` and `ecdh_generate_public` will give
-- this session, are functions of the calls made so far.
pub record Session (c : Crypto) : Type 0 where
  pub initiator : Bool
  pub datagram : Bool
  pub state : State
  pub inbuf : Bytes
  pub incap : ℕ
  pub reclen : ℕ
  pub instate : Bool
  pub incipher : Option (Crypto.Cipher c)
  pub win : Window
  pub outstate : Bool
  pub outcipher : Option (Crypto.Cipher c)
  pub outseqno : ℕ
  pub mykey : Crypto.Key c
  pub hiskey : Crypto.Key c
  pub ecdh : Option (Crypto.Ecdh c)
  pub mykex : Option Bytes
  pub hiskex : Option Bytes
  pub key : Option Bytes
  pub label : Bytes
  pub send_data : List Event → ℕ → Bytes → Bool
  pub receive_record : List Event → ℕ → Bytes → Bool
  pub randomize : List Event → Bytes
  pub ecdh_generate_public : List Event → Option (Crypto.Ecdh c × Bytes)
  pub log : List Event

-- The callbacks and random sources of one session.
pub record Host (c : Crypto) : Type 0 where
  pub send_data : List Event → ℕ → Bytes → Bool
  pub receive_record : List Event → ℕ → Bytes → Bool
  pub randomize : List Event → Bytes
  pub ecdh_generate_public : List Event → Option (Crypto.Ecdh c × Bytes)
