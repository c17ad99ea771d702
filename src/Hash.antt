-- ===== src/Hash.antt =====
-- src/hash.c: the hash of names, and the tables of clients and of channels by name.
--
-- `unsigned` and `int` values of the hash are numbers below 2^32, an `int` in two's complement; a
-- `char` is signed. A bucket is its chain, from `list` on, with its two counters. A pointer in a
-- chain is the record that it points to, with its address `at`. The functions of the tables take
-- the name that the caller passes, which del_from_* need not find in the record.
pub mod Names
pub mod Chains
pub mod Tables
pub mod Reach
mod Tests
use solidircd.Base.{
  ℕ, zero, suc, ◌+◌, ◌-◌, ◌*◌, ◌/◌, ◌%◌, Bool, true, false, List, [], ◌∷◌, ◌==◌, ltb, ◌&&◌, ◌||◌,
  not, if◌then◌else◌, get_or, get_elem?, set, replicate, Option, none, some,
}
use solidircd.Base.Int.{ℤ, pos, negsuc}
use solidircd.HashTable.{char_value, is_zero}
use solidircd.Match.Compare.{Bytes, mycmp}
use solidircd.Match.Tables.{to_lower}

abbrev pub u_max_initial : ℕ
u_max_initial = 8192

abbrev pub u_max : ℕ
u_max = u_max_initial * 8

abbrev pub ch_max_initial : ℕ
ch_max_initial = 2048

abbrev pub ch_max : ℕ
ch_max = ch_max_initial * 8

abbrev pub ww_max_initial : ℕ
ww_max_initial = 16

abbrev pub ww_max : ℕ
ww_max = ww_max_initial * 8

-- `>> 1` on an `int`
unfoldable pub shift_right : ℕ → ℕ
shift_right n = if ltb n 0x8000_0000 then n / 2 else n / 2 + 0x8000_0000

-- The loop of the three hash functions, over the bytes that are left, and their result
unfoldable pub hash_name : ℕ → Bytes → ℕ → ℕ → ℕ
unfolding shift_right char_value
hash_name initial [] hash hash2 = (hash % initial) * 8 + hash2 % 8
hash_name initial (c ∷ name) hash hash2 =
    let lower = char_value false (to_lower c) in
    hash_name initial name ((hash * 2 + lower) % 0x1_0000_0000)
      ((shift_right hash2 + lower) % 0x1_0000_0000)

unfoldable pub hash_nick_name : Bytes → ℕ
unfolding hash_name
hash_nick_name nname = hash_name u_max_initial nname 0 0

-- The bytes that `while (*hname && --i)` lets through
unfoldable pub counted : ℕ → Bytes → Bytes
counted i [] = []
counted zero (c ∷ name) = c ∷ name
counted (suc zero) (c ∷ name) = []
counted (suc (suc i)) (c ∷ name) = c ∷ counted (suc i) name

unfoldable pub hash_channel_name : Bytes → ℕ
unfolding hash_name counted
hash_channel_name name = hash_name ch_max_initial (counted 30 name) 0 0

unfoldable pub hash_whowas_name : Bytes → ℕ
unfolding hash_name
hash_whowas_name name = hash_name ww_max_initial name 0 0

-- `aHashEntry`
pub record Bucket (A : Type 0) : Type 0 where
  pub list : List A
  pub links : ℕ
  pub hits : ℕ

-- The part of `aClient` that the table reads: `IsServer` or `IsMe`, and the server of a user
pub record Client : Type 0 where
  pub at : ℕ
  pub name : Bytes
  pub is_server : Bool
  pub user_server : Option Bytes

-- The part of `aChannel` that the table reads
pub record Channel : Type 0 where
  pub at : ℕ
  pub chname : Bytes

-- `clear_client_hash_table`, `clear_channel_hash_table`, for the number of buckets
unfoldable pub clear : {A : Type 0} → ℕ → List (Bucket A)
clear size = replicate size (record { list = []; links = 0; hits = 0 })

module _ {A : Type 0} where
  -- `table[hashv]`
  abbrev pub bucket : List (Bucket A) → ℕ → Bucket A
  bucket table i = get_or table i (record { list = []; links = 0; hits = 0 })

  -- The body of add_to_*_hash_table
  unfoldable pub add_at : ℕ → A → List (Bucket A) → List (Bucket A)
  add_at hashv a table =
      let b = bucket table hashv in
      set table hashv (record { list = a ∷ b.list; links = b.links + 1; hits = b.hits + 1 })

  -- The search loops, for the test in them
  unfoldable pub find_that : (A → Bool) → List A → Option A
  find_that test [] = none
  find_that test (a ∷ l) = if test a then some a else find_that test l

  -- The chain without the first record at an address, and whether there is one
  unfoldable pub cut : (A → ℕ) → ℕ → List A → List A
  cut at_of p [] = []
  cut at_of p (a ∷ l) = if at_of a == p then l else a ∷ cut at_of p l

  unfoldable pub member : (A → ℕ) → ℕ → List A → Bool
  member at_of p [] = false
  member at_of p (a ∷ l) = if at_of a == p then true else member at_of p l

  -- The body of del_from_*_hash_table
  unfoldable pub del_at : (A → ℕ) → ℕ → ℕ → List (Bucket A) → ℤ × List (Bucket A)
  unfolding cut member
  del_at at_of hashv p table =
      let b = bucket table hashv in
      let l = cut at_of p b.list in
      if not (member at_of p b.list)
      then (pos 0, table)
      else if ltb 0 b.links
      then (pos 1, set table hashv (record b { list = l; links = b.links - 1 }))
      else (negsuc 0, set table hashv (record b { list = l }))

  -- The caller's second argument is the answer when nothing is found.
  abbrev pub or_else : Option A → Option A → Option A
  or_else none cptr = cptr
  or_else (some a) cptr = some a

-- `mycmp(…) == 0`
abbrev pub same_name : Bytes → Bytes → Bool
same_name s t = is_zero (mycmp s t)

unfoldable pub add_to_client_hash_table :
    Bytes → Client → List (Bucket Client) → List (Bucket Client)
unfolding add_at
add_to_client_hash_table name cptr table = add_at (hash_nick_name name) cptr table

unfoldable pub add_to_channel_hash_table :
    Bytes → Channel → List (Bucket Channel) → List (Bucket Channel)
unfolding add_at
add_to_channel_hash_table name chptr table = add_at (hash_channel_name name) chptr table

unfoldable pub del_from_client_hash_table :
    Bytes → Client → List (Bucket Client) → ℤ × List (Bucket Client)
unfolding del_at
del_from_client_hash_table name cptr table = del_at (λ c. c.at) (hash_nick_name name) cptr.at table

unfoldable pub del_from_channel_hash_table :
    Bytes → Channel → List (Bucket Channel) → ℤ × List (Bucket Channel)
unfolding del_at
del_from_channel_hash_table name chptr table =
    del_at (λ c. c.at) (hash_channel_name name) chptr.at table

unfoldable pub hash_find_client : List (Bucket Client) → Bytes → Option Client → Option Client
unfolding find_that
hash_find_client table name cptr =
    or_else (find_that (λ c. same_name name c.name) (bucket table (hash_nick_name name)).list) cptr

unfoldable pub hash_find_server : List (Bucket Client) → Bytes → Option Client → Option Client
unfolding find_that
hash_find_server table server cptr =
    or_else
      (find_that (λ c. c.is_server && same_name server c.name)
        (bucket table (hash_nick_name server)).list)
      cptr

-- `strchr(name, '@')`: the texts before and behind the first one
unfoldable pub split_at : Bytes → Option (Bytes × Bytes)
split_at [] = none
split_at (c ∷ name) =
    let rest = split_at name in
    if c == b'@'
    then some ([], name)
    else elim rest [ none ↦ none | some (nick, serv) ↦ some (c ∷ nick, serv) ]

-- `tmp->user && mycmp(serv, tmp->user->server) == 0`
abbrev pub on_server : Bytes → Client → Bool
on_server serv c = elim c.user_server [ none ↦ false | some server ↦ same_name serv server ]

-- `none` is the write through a null pointer, for a name without an `@`. The zero byte that the code
-- leaves over the `@` in its caller's buffer is not kept: the value that it returns does not depend on
-- it afterwards.
unfoldable pub hash_find_nickserver :
    List (Bucket Client) → Bytes → Option Client → Option (Option Client)
unfolding find_that split_at
hash_find_nickserver table name cptr = elim (split_at name) [
  | none ↦ none
  | some (nick, serv) ↦ some (
      or_else
        (find_that (λ c. same_name nick c.name && on_server serv c)
          (bucket table (hash_nick_name nick)).list)
        cptr)
]

unfoldable pub hash_find_channel : List (Bucket Channel) → Bytes → Option Channel → Option Channel
unfolding find_that
hash_find_channel table name chptr =
    or_else (find_that (λ c. same_name name c.chname) (bucket table (hash_channel_name name)).list)
      chptr

-- `hash_get_chan_bucket`: NULL is the empty chain, and `none` a read behind the table.
unfoldable pub hash_get_chan_bucket : List (Bucket Channel) → ℕ → Option (List Channel)
hash_get_chan_bucket table hashv =
    if ltb ch_max hashv
    then some []
    else elim (get_elem? table hashv) [ none ↦ none | some b ↦ some b.list ]
