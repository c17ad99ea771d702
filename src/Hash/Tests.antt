-- ===== src/Hash/Tests.antt =====
-- Runs of src/hash.c, and its theorems at inputs.
use solidircd.Base.{ℕ, ◌≡◌, ◌+◌, ◌*◌, refl, false, List, [], ◌∷◌, if◌then◌else◌, some, arith}
use solidircd.Base.Int.{pos}
use solidircd.Hash.{
  Bucket, Client, Channel, clear, cut, member, hash_nick_name, hash_channel_name, hash_whowas_name,
  u_max, ch_max, add_to_client_hash_table, add_to_channel_hash_table, del_from_client_hash_table,
}
use solidircd.Hash.Chains.{AllUnder, clear-Holds}
use solidircd.Hash.Names.{hashes_agree}
use solidircd.Hash.Tables.{
  nick_hash, channel_hash, HoldsClients, HoldsChannels, client_update-Holds, channel_update-Holds,
}
use solidircd.Match.Compare.{Bytes, mycmp}
use solidircd.Match.Tables.{to_upper, to_lower}

abbrev nick : Bytes
nick = b'A' ∷ b'b' ∷ []

abbrev nick_other_case : Bytes
nick_other_case = b'a' ∷ b'B' ∷ []

-- For "ab": hash is 2 * 97 + 98, and hash2 is 48 + 98.
hash_run : hash_nick_name nick ≡ 292 * 8 + 2
unfolding hash_nick_name to_lower
hash_run = refl

-- A byte above 127 counts as a negative `char`: 2^32 - 1 is 7 in both columns.
hash_negative : hash_whowas_name (0xff ∷ []) ≡ 15 * 8 + 7
unfolding hash_whowas_name to_lower
hash_negative = refl

-- The hash of a channel reads 29 bytes of its name, not 30.
abbrev long_name : ℕ → Bytes
long_name c =
    b'#' ∷ b'a' ∷ b'a' ∷ b'a' ∷ b'a' ∷ b'a' ∷ b'a' ∷ b'a' ∷ b'a' ∷ b'a' ∷ b'a' ∷ b'a' ∷ b'a' ∷ b'a'
    ∷ b'a' ∷ b'a' ∷ b'a' ∷ b'a' ∷ b'a' ∷ b'a' ∷ b'a' ∷ b'a' ∷ b'a' ∷ b'a' ∷ b'a' ∷ b'a' ∷ b'a'
    ∷ b'a' ∷ b'a' ∷ c ∷ []

byte_thirty : hash_channel_name (long_name b'a') ≡ hash_channel_name (long_name b'b')
unfolding hash_channel_name
byte_thirty = refl

nick_hashes : hash_nick_name nick ≡ hash_nick_name nick_other_case
unfolding mycmp to_upper
nick_hashes = (hashes_agree nick nick_other_case (omega arith) (omega arith) refl).0

abbrev user : Client
user = record { at = 8; name = nick; is_server = false; user_server = some (b's' ∷ []) }

abbrev none_yet : List (Bucket Client)
none_yet = clear u_max

none_yet-Holds : HoldsClients none_yet []
none_yet-Holds = clear-Holds nick_hash (λ c. c.at) (λ c. c.name)

abbrev one_client : List (Bucket Client)
one_client = add_to_client_hash_table nick user none_yet

one_client-Holds : HoldsClients one_client (user ∷ [])
unfolding AllUnder
one_client-Holds = (client_update-Holds none_yet [] user nick none_yet-Holds (omega arith) tt).0

client_update-Holds_example :
    HoldsClients (add_to_client_hash_table nick user one_client) (user ∷ user ∷ [])
    × ((del_from_client_hash_table nick_other_case user one_client).0
        ≡ (if member (λ (c : Client). c.at) 8 (user ∷ []) then pos 1 else pos 0))
    × HoldsClients
        (del_from_client_hash_table nick_other_case user one_client).1
        (cut (λ (c : Client). c.at) 8 (user ∷ []))
unfolding AllUnder
client_update-Holds_example =
    client_update-Holds one_client (user ∷ []) user nick_other_case one_client-Holds (omega arith)
      (λ e. nick_hashes, tt)

abbrev channel : Channel
channel = record { at = 16; chname = b'#' ∷ b'c' ∷ [] }

abbrev no_channels : List (Bucket Channel)
no_channels = clear ch_max

no_channels-Holds : HoldsChannels no_channels []
no_channels-Holds = clear-Holds channel_hash (λ c. c.at) (λ c. c.chname)

abbrev one_channel : List (Bucket Channel)
one_channel = add_to_channel_hash_table (b'#' ∷ b'c' ∷ []) channel no_channels

one_channel-Holds : HoldsChannels one_channel (channel ∷ [])
unfolding AllUnder
one_channel-Holds =
    (channel_update-Holds no_channels [] channel (b'#' ∷ b'c' ∷ []) no_channels-Holds (omega arith)
      tt).0

abbrev gone : List (Bucket Client)
gone = (del_from_client_hash_table nick_other_case user one_client).1
