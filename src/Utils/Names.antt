-- ===== src/Utils/Names.antt =====
-- The checks of names of utils.c: `check_id`, `check_netname` and `replace_name`.
use tinc.Base.{
  Bool-cases, Option-cases, inl, inr, ℕ, ◌≡◌, refl, Bool, true, false, not, ◌&&◌, ◌||◌, Option,
  none, some, [], ◌∷◌, map, get_or, take, drop, ltb, ◌==◌, if◌then◌else◌, arith,
}
use tinc.Base.Bytes.{Bytes, codes}
use tinc.Utils.Hex.{is_digit, is_upper, is_lower}

-- `isalnum` and `iscntrl` of a byte, in the C locale.
abbrev pub is_alnum : ℕ → Bool
is_alnum c = is_digit c || (is_upper c || is_lower c)

abbrev pub is_cntrl : ℕ → Bool
is_cntrl c = ltb c 32 || c == 127

-- A text is its bytes before the NUL.
abbrev pub contains : Bytes → ℕ → Bool
contains [] c = false
contains (x ∷ xs) c = x == c || contains xs c

abbrev pub text_eq : Bytes → Bytes → Bool
text_eq [] [] = true
text_eq [] (y ∷ ys) = false
text_eq (x ∷ xs) [] = false
text_eq (x ∷ xs) (y ∷ ys) = x == y && text_eq xs ys

pub text_eq_refl : (a : Bytes) → text_eq a a ≡ true
text_eq_refl [] = refl
text_eq_refl (x ∷ a) = ground (arith, text_eq_refl a)

abbrev pub is_empty : Bytes → Bool
is_empty [] = true
is_empty (x ∷ xs) = false

unfoldable pub id_char : ℕ → Bool
id_char c = is_alnum c || c == b'_'

unfoldable pub id_chars : Bytes → Bool
id_chars [] = true
id_chars (c ∷ id) = id_char c && id_chars id

unfoldable pub check_id : Bytes → Bool
check_id id = not (is_empty id) && id_chars id

abbrev pub forbidden : Bytes
forbidden = codes " $%<>:`\"|?*"

-- Byte 92 is the backslash.
unfoldable pub netname_char : Bool → ℕ → Bool
netname_char strict c =
    not (is_cntrl c) && (not (c == b'/' || c == 92) && not (strict && contains forbidden c))

unfoldable pub netname_chars : Bool → Bytes → Bool
netname_chars strict [] = true
netname_chars strict (c ∷ name) = netname_char strict c && netname_chars strict name

unfoldable pub check_netname : Bytes → Bool → Bool
check_netname name strict =
    not (is_empty name) && (not (get_or name 0 0 == b'.') && netname_chars strict name)

abbrev pub underscore : ℕ → ℕ
underscore c = if is_alnum c then c else b'_'

unfoldable pub checked : Bytes → Option Bytes
checked name = if check_id name then some name else none

-- `getenv`, and `gethostname` into a buffer of `host_name_max` bytes and a NUL; `none` is its
-- failure.
unfoldable pub replace_name : (Bytes → Option Bytes) → Option Bytes → ℕ → Bytes → Option Bytes
replace_name getenv gethostname host_name_max name =
    if get_or name 0 0 == b'$'
    then elim (getenv (drop 1 name)) [
      | some env ↦ checked (map underscore env)
      | none ↦
          if text_eq (drop 1 name) (codes "HOST")
          then elim gethostname [
            | none ↦ none
            | some host ↦
                if is_empty host then none else checked (map underscore (take host_name_max host))
          ]
          else none
    ]
    else checked name

id_char-netname_char : (strict : Bool) (c : ℕ) → id_char c ≡ true → netname_char strict c ≡ true
unfolding id_char netname_char
id_char-netname_char strict c h = ground arith

id_char-no_dot : (c : ℕ) → id_char c ≡ true → (c == b'.') ≡ false
unfolding id_char
id_char-no_dot c h = ground arith

id_chars-netname_chars :
    (strict : Bool) (name : Bytes) → id_chars name ≡ true → netname_chars strict name ≡ true
unfolding id_chars netname_chars
id_chars-netname_chars strict [] h = refl
id_chars-netname_chars strict (c ∷ name) h =
    ground (arith, id_char-netname_char strict c, id_chars-netname_chars strict name)

-- A node name that `check_id` accepts is a safe file name: `check_netname` accepts it even when
-- it is strict, so it begins with no dot and holds no separator and no control character.
pub check_id-check_netname :
    (name : Bytes) (strict : Bool) → check_id name ≡ true → check_netname name strict ≡ true
unfolding check_id check_netname id_chars
check_id-check_netname [] strict h = ground arith
check_id-check_netname (c ∷ name) strict h =
    ground (arith, id_char-no_dot c, id_chars-netname_chars strict (c ∷ name))

checked-some : (name r : Bytes) → checked name ≡ some r → check_id r ≡ true
unfolding checked
checked-some name r h = ground arith

-- Whatever the environment and the host are called, a name that `replace_name` returns is one that
-- `check_id` accepts.
pub check_id-replace_name :
    (getenv : Bytes → Option Bytes) (gethostname : Option Bytes) (host_name_max : ℕ)
    (name r : Bytes)
    → replace_name getenv gethostname host_name_max name ≡ some r
    → check_id r ≡ true
unfolding replace_name
check_id-replace_name getenv gethostname host_name_max name r h =
    elim (Bool-cases (get_or name 0 0 == b'$')) [
      | inr plain ↦ ground (arith, checked-some name r)
      | inl variable ↦ elim (Option-cases (getenv (drop 1 name))) [
        | inr (env, e) ↦ ground (arith, checked-some (map underscore env) r)
        | inl none' ↦ elim (Option-cases gethostname) [
          | inl none'' ↦ ground arith
          | inr (host, e) ↦
              ground (arith, checked-some (map underscore (take host_name_max host)) r)
        ]
      ]
    ]
