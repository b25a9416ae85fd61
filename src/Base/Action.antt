-- ===== src/Base/Action.antt =====
-- Steps of C code that change a state and may fail: `failed` is a function that returns false,
-- `fault` is a read through a null pointer or an access out of bounds.
use mathlib.Core.Bool.{Bool, true, false}
use mathlib.Core.Option.{Option, none, some}

pub data Outcome (A : Type 0) : Type 0 where
  ok : A → Outcome A
  failed : Outcome A
  fault : Outcome A

abbrev pub Action : Type 0 → Type 0 → Type 0
Action S A = S → Outcome A × S

infixl 5 ◌>>=◌ ◌>>◌
abbrev pub ◌>>=◌ : {S A B : Type 0} → Action S A → (A → Action S B) → Action S B
◌>>=◌ m f s =
    let (r, s') = m s in elim r [ ok a ↦ f a s' | failed ↦ (failed, s') | fault ↦ (fault, s') ]

abbrev pub ◌>>◌ : {S B : Type 0} → Action S (Unit {0}) → Action S B → Action S B
m >> k = m >>= λ _. k

abbrev pub pure : {S A : Type 0} → A → Action S A
pure a s = (ok a, s)

abbrev pub get : {S : Type 0} → Action S S
get s = (ok s, s)

abbrev pub modify : {S : Type 0} → (S → S) → Action S (Unit {0})
modify f s = (ok tt, f s)

-- A test whose failure makes the function return false.
abbrev pub guard : {S : Type 0} → Bool → Action S (Unit {0})
guard true s = (ok tt, s)
guard false s = (failed, s)

-- A pointer that is read through, and a call that reports failure.
abbrev pub need : {S A : Type 0} → Option A → Action S A
need none s = (fault, s)
need (some a) s = (ok a, s)

abbrev pub try : {S A : Type 0} → Option A → Action S A
try none s = (failed, s)
try (some a) s = (ok a, s)

-- A bound that an access relies on.
abbrev pub within : {S : Type 0} → Bool → Action S (Unit {0})
within true s = (ok tt, s)
within false s = (fault, s)
