-- ===== src/HashTable.antt =====
-- src/throttle.c: the generic chained hash table (`hash_table`), which throttle.c and clones.c use.
--
-- An entry is the pointer that the caller stores, with the key that stands behind it: both callers
-- write the key before `hash_insert` and never again while the entry is in the table. The chain
-- nodes (`hashent`) hold nothing else. Keys are strings, or for `keylen` bytes of memory those bytes.
-- `cmpfunc` (strcmp of the C library in both callers) is the parameter `cmp`.
pub mod Chain
pub mod Models
pub mod Resize
pub mod Runs
pub mod Tests
use solidircd.Base.{
  ℕ, zero, suc, ◌+◌, ◌*◌, ◌%◌, Bool, true, false, List, [], ◌∷◌, arith, ◌==◌, ltb, if◌then◌else◌,
  get_or, set, replicate, take, Option, none, some,
}
use solidircd.Base.Int.{ℤ, pos, negsuc}
use solidircd.Match.Compare.{Bytes}
use solidircd.Match.Tables.{to_lower}

pub record Ent : Type 0 where
  pub at : ℕ
  pub key : Bytes

-- `hash_table`: `nocase` is the flag HASH_FL_NOCASE. The flag HASH_FL_STRING only bounds the key by
-- its own length, which `take` does.
pub record HashTable : Type 0 where
  pub size : ℕ
  pub keylen : ℕ
  pub nocase : Bool
  pub table : List (List Ent)

-- `create_hash_table`
unfoldable pub create_hash_table : ℕ → ℕ → Bool → HashTable
create_hash_table elems len nocase = record {
  size = elems;
  keylen = len;
  nocase = nocase;
  table = replicate elems [];
}

-- What `*rkey++` adds to an `unsigned int`, as a signed `char`, and folded as an `unsigned char`.
unfoldable pub char_value : Bool → ℕ → ℕ
char_value true c = to_lower c
char_value false c = if ltb c 128 then c else c + 0xffff_ff00

-- `hash = hash * 33 + …`, over the bytes that are left
unfoldable pub hash_bytes : Bool → Bytes → ℕ → ℕ
unfolding char_value
hash_bytes nocase [] hash = hash
hash_bytes nocase (c ∷ key) hash =
    hash_bytes nocase key ((hash * 33 + char_value nocase c) % 0x1_0000_0000)

-- `hash_get_key_hash`; a `keylen` of 0 means the whole string
unfoldable pub hash_get_key_hash : HashTable → Bytes → ℕ
unfolding hash_bytes
hash_get_key_hash t key =
    hash_bytes t.nocase (if t.keylen == 0 then key else take t.keylen key) 0 % t.size

-- `&table->table[hash]`
abbrev pub bucket : HashTable → ℕ → List Ent
bucket t i = get_or t.table i []

-- `hash_insert`
unfoldable pub hash_insert : HashTable → Ent → HashTable
hash_insert t ent =
    let i = hash_get_key_hash t ent.key in record t { table = set t.table i (ent ∷ bucket t i) }

-- The search by pointer in `hash_delete`
unfoldable pub holds : ℕ → List Ent → Bool
holds p [] = false
holds p (e ∷ c) = if e.at == p then true else holds p c

-- `SLIST_REMOVE` of the first node with that pointer
unfoldable pub remove : ℕ → List Ent → List Ent
remove p [] = []
remove p (e ∷ c) = if e.at == p then c else e ∷ remove p c

-- `hash_delete`: whether the entry was there
unfoldable pub hash_delete : HashTable → Ent → Bool × HashTable
unfolding holds remove
hash_delete t ent =
    let i = hash_get_key_hash t ent.key in
    if holds ent.at (bucket t i)
    then (true, record t { table = set t.table i (remove ent.at (bucket t i)) })
    else (false, t)

-- The loops of `resize_hash_table`: every entry of an old chain, then of every old chain
unfoldable pub insert_chain : List Ent → HashTable → HashTable
insert_chain [] t = t
insert_chain (e ∷ c) t = insert_chain c (hash_insert t e)

unfoldable pub insert_all : List (List Ent) → HashTable → HashTable
unfolding insert_chain
insert_all [] t = t
insert_all (c ∷ cs) t = insert_all cs (insert_chain c t)

-- `resize_hash_table`
unfoldable pub resize_hash_table : HashTable → ℕ → HashTable
unfolding insert_all
resize_hash_table t elems =
    insert_all t.table (record t { size = elems; table = replicate elems [] })

-- `!cmpfunc(…)`
abbrev pub is_zero : ℤ → Bool
is_zero (pos zero) = true
is_zero (pos (suc n)) = false
is_zero (negsuc n) = false

module _ (cmp : Bytes → Bytes → ℤ) where
  -- The search by key in `hash_find`
  unfoldable pub find_in : Bytes → List Ent → Option Ent
  find_in key [] = none
  find_in key (e ∷ c) = if is_zero (cmp e.key key) then some e else find_in key c

  -- `hash_find`
  unfoldable pub hash_find : HashTable → Bytes → Option Ent
  unfolding find_in
  hash_find t key = find_in key (bucket t (hash_get_key_hash t key))
