-- ===== src/Scache.antt =====
-- src/scache.c: the cache of server names, which gives one entry for all spellings of a name.
--
-- A chain is the list of its entries' names, from the first; the pointer that find_or_add returns
-- is the entry that it points to. strncpyzt (include/struct.h) keeps as many bytes as fit before a
-- terminator, one less than its last argument.
pub mod Unique
pub mod Later
mod Tests
use Prim.Native.Nat.{bit_and}
use solidircd.Base.{
  ℕ, zero, suc, ◌+◌, ◌-◌, ◌%◌, Bool, true, false, List, [], ◌∷◌, if◌then◌else◌, get_or, set,
  replicate, take, Option, none, some,
}
use solidircd.Base.Int.{ℤ}
use solidircd.HashTable.{is_zero}
use solidircd.Match.Compare.{Bytes, mycmp}

abbrev pub scache_hash_size : ℕ
scache_hash_size = 257

-- HOSTLEN
abbrev pub hostlen : ℕ
hostlen = 63

-- `clear_scache_hash_table`
unfoldable pub clear_scache_hash_table : List (List Bytes)
clear_scache_hash_table = replicate scache_hash_size []

-- The sum in `hash`, over the bytes that are left
unfoldable pub sum_bytes : Bytes → ℕ → ℕ
sum_bytes [] hash_value = hash_value
sum_bytes (c ∷ string) hash_value = sum_bytes string (hash_value + bit_and c 0xdf)

-- `hash`
unfoldable pub hash : Bytes → ℕ
unfolding sum_bytes
hash string = sum_bytes string 0 % scache_hash_size

abbrev pub chain : List (List Bytes) → ℕ → List Bytes
chain cache i = get_or cache i []

-- The loop of `find_or_add`
unfoldable pub find_name : Bytes → List Bytes → Option Bytes
find_name name [] = none
find_name name (e ∷ l) = if is_zero (mycmp e name) then some e else find_name name l

-- `strncpyzt(…, name, HOSTLEN)`
abbrev pub stored : Bytes → Bytes
stored name = take (hostlen - 1) name

-- `find_or_add`: both branches behind the search put the new entry in front of the chain.
unfoldable pub find_or_add : Bytes → List (List Bytes) → Bytes × List (List Bytes)
unfolding find_name hash
find_or_add name cache =
    let i = hash name in
    elim (find_name name (chain cache i)) [
      | some e ↦ (e, cache)
      | none ↦ (stored name, set cache i (stored name ∷ chain cache i))
    ]
