-- ===== src/Hash/Reach.antt =====
-- The client table of src/hash.c over a run of the server: clients come and go.
use solidircd.Base.{List, [], ◌∷◌}
use solidircd.Hash.{
  Bucket, Client, clear, cut, hash_nick_name, u_max, add_to_client_hash_table,
  del_from_client_hash_table,
}
use solidircd.Hash.Chains.{AllUnder}
use solidircd.Hash.Tables.{nick_hash}
use solidircd.Match.Compare.{Bytes, IsText}

-- The tables that the calls can lead to from clear_client_hash_table on, each with the clients
-- that came and did not go, newest first. A client goes under a name with the hash that it came
-- with.
pub data Reached : List (Bucket Client) → List Client → Type 0 where
  start : Reached (clear u_max) []
  added :
      {table : List (Bucket Client)} {es : List Client} (cptr : Client)
      → IsText cptr.name
      → Reached table es
      → Reached (add_to_client_hash_table cptr.name cptr table) (cptr ∷ es)
  deleted :
      {table : List (Bucket Client)} {es : List Client} (name : Bytes) (cptr : Client)
      → IsText cptr.name
      → AllUnder nick_hash (λ c. c.at) (λ c. c.name) cptr.at (hash_nick_name name) es
      → Reached table es
      → Reached (del_from_client_hash_table name cptr table).1 (cut (λ c. c.at) cptr.at es)
