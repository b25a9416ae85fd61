-- ===== src/Subnet/Cache.antt =====
-- The hash table of src/hash.h, as the lookup cache of src/subnet.c: a direct table with a few
-- probes, which forgets an old entry where there is no room.
use tinc.Base.{
  ℕ, zero, suc, ◌+◌, ◌%◌, Bool, true, false, ◌||◌, Option, none, some, ◌==◌, if◌then◌else◌,
}
use tinc.Base.Bytes.{Bytes}
use tinc.Utils.Names.{text_eq}
use tinc.Subnet.Compare.{Subnet}

pub record Cache : Type 0 where
  pub keys : ℕ → Bytes
  pub values : ℕ → Option Subnet

abbrev pub is_null : Option Subnet → Bool
is_null none = true
is_null (some v) = false

abbrev pub put : ℕ → Bytes → Option Subnet → Cache → Cache
put i key value c = record {
  keys = λ j. if j == i then key else c.keys j;
  values = λ j. if j == i then value else c.values j;
}

-- The tables of one type of key: their size, a power of two, the hash function, and the key of
-- zeros that clearing leaves.
pub record Table : Type 0 where
  pub size : ℕ
  pub hash : Bytes → ℕ
  pub zeros : Bytes

module _ (t : Table) where
  abbrev pub next_slot : ℕ → ℕ
  next_slot i = if i + 1 == t.size then 0 else i + 1

  unfoldable pub insert_at : ℕ → ℕ → Bytes → Subnet → Cache → Cache
  insert_at zero i key value c = put i key (some value) c
  insert_at (suc rounds) i key value c =
      let rest = insert_at rounds (next_slot i) key value c in
      if is_null (c.values i) || text_eq key (c.keys i) then put i key (some value) c else rest

  -- Three probes, and then the last slot whatever it holds.
  unfoldable pub hash_insert : Bytes → Subnet → Cache → Cache
  hash_insert key value c = insert_at 3 (t.hash key % t.size) key value c

  unfoldable pub search_at : ℕ → ℕ → Bytes → Cache → Option Subnet
  search_at zero i key c = none
  search_at (suc rounds) i key c =
      let rest = search_at rounds (next_slot i) key c in
      if text_eq key (c.keys i) then c.values i else rest

  unfoldable pub hash_search : Bytes → Cache → Option Subnet
  hash_search key c = search_at 4 (t.hash key % t.size) key c

  unfoldable pub delete_at : ℕ → ℕ → Bytes → Cache → Cache
  delete_at zero i key c = c
  delete_at (suc rounds) i key c =
      let rest = delete_at rounds (next_slot i) key c in
      if text_eq key (c.keys i)
      then record c { values = λ j. if j == i then none else c.values j }
      else rest

  unfoldable pub hash_delete : Bytes → Cache → Cache
  hash_delete key c = delete_at 4 (t.hash key % t.size) key c

  unfoldable pub hash_clear : Cache
  hash_clear = record { keys = λ i. t.zeros; values = λ i. none }

  -- The frame of the lookup routines: the cache, then the search, whose result is cached.
  unfoldable pub lookup_cached : (Bytes → Option Subnet) → Bytes → Cache → Option Subnet × Cache
  lookup_cached find key c = elim (hash_search key c) [
    | some r ↦ (some r, c)
    | none ↦ elim (find key) [ none ↦ (none, c) | some r ↦ (some r, hash_insert key r c) ]
  ]
