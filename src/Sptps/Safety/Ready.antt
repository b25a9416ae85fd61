-- ===== src/Sptps/Safety/Ready.antt =====
-- The pointers of `sptps_t` that are set in each state of the handshake (src/sptps.c).
use tinc.Base.{Bool, true, false, not, ◌&&◌, ◌||◌, Option, none, some, ◌≡◌, refl, arith}
use tinc.Base.Action.{Outcome, ok, failed, fault}
use tinc.Sptps.Session.{Crypto, Session, State}

abbrev pub is_some {ℓ} : {A : Type ℓ} → Option A → Bool
is_some none = false
is_some (some a) = true

abbrev pub is_ok : {A : Type 0} → Outcome A → Bool
is_ok (ok a) = true
is_ok _ = false

abbrev pub is_fault : {A : Type 0} → Outcome A → Bool
is_fault fault = true
is_fault _ = false

-- The call did not fault, and if it returned true the session is as `P` says.
abbrev pub Ensures : {S A : Type 0} → (S → Type 0) → Outcome A × S → Type 0
Ensures P r = (is_fault r.0 ≡ false) × (is_ok r.0 ≡ true → P r.1)

-- Our kex message is kept while a key exchange runs, the peer's once it has come, and the new key
-- until the peer has changed over.
abbrev pub keeps_mine : State → Bool
keeps_mine State.kex = true
keeps_mine State.sig = true
keeps_mine _ = false

abbrev pub keeps_his : State → Bool
keeps_his State.sig = true
keeps_his _ = false

abbrev pub keeps_key : State → Bool
keeps_key State.ack = true
keeps_key _ = false

-- The states that are reached only after the first key exchange.
abbrev pub is_secured : State → Bool
is_secured State.secondary_kex = true
is_secured State.ack = true
is_secured _ = false

pub record IsReady {c : Crypto} (s : Session c) : Type 0 where
  pub linked : s.instate ≡ s.outstate
  pub ciphers : (not s.outstate || (is_some s.incipher && is_some s.outcipher)) ≡ true
  pub mine : is_some s.mykex ≡ keeps_mine s.state
  pub his : is_some s.hiskex ≡ keeps_his s.state
  pub secret : (not (keeps_mine s.state) || is_some s.ecdh) ≡ true
  pub key : (not (keeps_key s.state) || is_some s.key) ≡ true
  pub secured : (not (is_secured s.state) || s.outstate) ≡ true

-- A ready session with the input buffer of `s`.
pub record Follows {c : Crypto} (s t : Session c) : Type 0 where
  pub ready : IsReady t
  pub buffer : t.inbuf ≡ s.inbuf
  pub capacity : t.incap ≡ s.incap
  pub expected : t.reclen ≡ s.reclen
  pub transport : t.datagram ≡ s.datagram

-- The call did not fault, and if it returned true it left a state that satisfies `P`.
abbrev pub Safe : {S A : Type 0} → (S → Type 0) → Outcome A × S → Type 0
Safe P (ok a, s) = P s
Safe P (failed, s) = Unit {0}
Safe P (fault, s) = ⊥

pub Safe-intro : {S A : Type 0} (P : S → Type 0) (r : Outcome A × S) → Ensures P r → Safe P r
Safe-intro P (ok a, s) e = e.1 refl
Safe-intro P (failed, s) e = tt
Safe-intro P (fault, s) e = absurd (ground arith)
