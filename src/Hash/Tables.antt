-- ===== src/Hash/Tables.antt =====
-- The tables of clients and channels of src/hash.c: what their calls do, on the records by themselves.
use solidircd.Base.{
  ℕ, zero, suc, ◌+◌, ◌<◌, ◌≡◌, ◌≢◌, refl, sym, ap, true, List, [], ◌∷◌, if◌then◌else◌, Option, none,
  some, length, get_elem?, arith, ◌⊎◌, inl, inr,
}
use solidircd.Base.Int.{ℤ, pos, negsuc}
use solidircd.Hash.{
  Bucket, Client, Channel, bucket, find_that, cut, member, or_else, same_name, hash_nick_name,
  hash_channel_name, u_max, ch_max, add_to_client_hash_table, add_to_channel_hash_table,
  del_from_client_hash_table, del_from_channel_hash_table, hash_find_channel, hash_get_chan_bucket,
}
use solidircd.Hash.Chains.{
  NameHash, Holds, AllUnder, in_bucket, add_at-Holds, del_at-Holds, find_that-Holds,
}
use solidircd.Hash.Names.{hashes-lt, hashes_agree}
use solidircd.HashTable.{is_zero}
use solidircd.Match.Compare.{Bytes, IsText, mycmp}

abbrev pub nick_hash : NameHash
nick_hash = record {
  size = u_max;
  hash = hash_nick_name;
  bounded = λ s. (hashes-lt s).0;
  agrees = λ s t hs ht e. (hashes_agree s t hs ht e).0;
}

abbrev pub channel_hash : NameHash
channel_hash = record {
  size = ch_max;
  hash = hash_channel_name;
  bounded = λ s. (hashes-lt s).1;
  agrees = λ s t hs ht e. (hashes_agree s t hs ht e).1;
}

abbrev pub HoldsClients : List (Bucket Client) → List Client → Type 0
HoldsClients = Holds nick_hash (λ c. c.at) (λ c. c.name)

abbrev pub HoldsChannels : List (Bucket Channel) → List Channel → Type 0
HoldsChannels = Holds channel_hash (λ c. c.at) (λ c. c.chname)

pub zero_is : (z : ℤ) → is_zero z ≡ true → z ≡ pos 0
zero_is (pos zero) h = refl
zero_is (pos (suc n)) h = cc
zero_is (negsuc n) h = cc

-- Names that compare equal have the same hash.
same_hash :
    (names : NameHash) (s t : Bytes)
    → IsText s
    → IsText t
    → same_name s t ≡ true
    → names.hash t ≡ names.hash s
same_hash names s t hs ht h = sym (names.agrees s t hs ht (zero_is (mycmp s t) h))

abbrev pub Lacks : ℕ → Bytes → Type 0
Lacks p [] = Unit
Lacks p (c ∷ s) = (c ≢ p) × Lacks p s

-- In a table that holds the channels, hash_find_channel finds the newest one whose name is equal
-- by mycmp, and gives its second argument back when there is none.
pub channel_find-Holds :
    (table : List (Bucket Channel)) (es : List Channel) (name : Bytes) (chptr : Option Channel)
    → HoldsChannels table es
    → IsText name
    → hash_find_channel table name chptr
      ≡ or_else (find_that (λ c. same_name name c.chname) es) chptr
unfolding hash_find_channel
channel_find-Holds table es name chptr m text =
    ap (λ r. or_else r chptr)
      (find_that-Holds channel_hash (λ c. c.at) (λ c. c.chname) table es
        (λ c. same_name name c.chname) name m (λ c h. same_hash channel_hash name c.chname text h))

-- A table that holds the clients: add_to_client_hash_table under the client's name makes it hold
-- one more, the newest; del_from_client_hash_table, under a name that has the hash of every client
-- at that address, answers 1 if there is such a client and 0 if not, and makes it hold the
-- others.
pub client_update-Holds :
    (table : List (Bucket Client)) (es : List Client) (cptr : Client) (name : Bytes)
    → HoldsClients table es
    → IsText cptr.name
    → AllUnder nick_hash (λ c. c.at) (λ c. c.name) cptr.at (hash_nick_name name) es
    → HoldsClients (add_to_client_hash_table cptr.name cptr table) (cptr ∷ es)
      × ((del_from_client_hash_table name cptr table).0
          ≡ (if member (λ c. c.at) cptr.at es then pos 1 else pos 0))
      × HoldsClients (del_from_client_hash_table name cptr table).1 (cut (λ c. c.at) cptr.at es)
unfolding add_to_client_hash_table del_from_client_hash_table
client_update-Holds table es cptr name m text own = (
  add_at-Holds nick_hash (λ c. c.at) (λ c. c.name) table es cptr m text,
  (del_at-Holds nick_hash (λ c. c.at) (λ c. c.name) table es cptr.at name m own).0,
  (del_at-Holds nick_hash (λ c. c.at) (λ c. c.name) table es cptr.at name m own).1,
)

-- A table that holds the channels: add_to_channel_hash_table under the channel's name makes it
-- hold one more, the newest; del_from_channel_hash_table, under a name that has the hash of every
-- channel at that address, answers 1 if there is such a channel and 0 if not, and makes it hold
-- the others.
pub channel_update-Holds :
    (table : List (Bucket Channel)) (es : List Channel) (chptr : Channel) (name : Bytes)
    → HoldsChannels table es
    → IsText chptr.chname
    → AllUnder channel_hash (λ c. c.at) (λ c. c.chname) chptr.at (hash_channel_name name) es
    → HoldsChannels (add_to_channel_hash_table chptr.chname chptr table) (chptr ∷ es)
      × ((del_from_channel_hash_table name chptr table).0
          ≡ (if member (λ c. c.at) chptr.at es then pos 1 else pos 0))
      × HoldsChannels (del_from_channel_hash_table name chptr table).1 (cut (λ c. c.at) chptr.at es)
unfolding add_to_channel_hash_table del_from_channel_hash_table
channel_update-Holds table es chptr name m text own = (
  add_at-Holds channel_hash (λ c. c.at) (λ c. c.chname) table es chptr m text,
  (del_at-Holds channel_hash (λ c. c.at) (λ c. c.chname) table es chptr.at name m own).0,
  (del_at-Holds channel_hash (λ c. c.at) (λ c. c.chname) table es chptr.at name m own).1,
)

get_elem?-bucket :
    (table : List (Bucket Channel)) (i : ℕ)
    → ((i < length table) × (get_elem? table i ≡ some (bucket table i)))
      ⊎ ((length table < i + 1) × (get_elem? table i ≡ none))
get_elem?-bucket [] i = inr (omega arith, refl)
get_elem?-bucket (b ∷ table) zero = inl (omega arith, refl)
get_elem?-bucket (b ∷ table) (suc i) = ground (arith, get_elem?-bucket table i)

-- In a table that holds the channels, hash_get_chan_bucket gives for a bucket of the table its
-- channels, for a number above CH_MAX none, and reads behind the table at CH_MAX.
pub hash_get_chan_bucket-Holds :
    (table : List (Bucket Channel)) (es : List Channel) (i : ℕ)
    → HoldsChannels table es
    → (i < ch_max
        → hash_get_chan_bucket table i
          ≡ some (in_bucket channel_hash (λ c. c.at) (λ c. c.chname) i es))
      × (ch_max < i → hash_get_chan_bucket table i ≡ some [])
      × (i ≡ ch_max → hash_get_chan_bucket table i ≡ none)
unfolding hash_get_chan_bucket
hash_get_chan_bucket-Holds table es i m =
    ground (arith, get_elem?-bucket table i, m.chains i, m.size)
