-- ===== src/Scache/Tests.antt =====
-- Runs of src/scache.c, and its theorem at an input.
use solidircd.Base.{◌≡◌, refl, [], ◌∷◌, arith, replicate}
use solidircd.Match.Compare.{Bytes, IsText, upper}
use solidircd.Match.Tables.{to_upper}
use solidircd.Scache.{clear_scache_hash_table, find_or_add}
use solidircd.Scache.Later.{behind, find_or_add-behind}
use solidircd.Scache.Unique.{IsValid, clear-IsValid}

abbrev hub : Bytes
hub = b'h' ∷ b'u' ∷ b'b' ∷ []

abbrev hub_other_case : Bytes
hub_other_case = b'H' ∷ b'u' ∷ b'B' ∷ []

spelling_kept : (find_or_add hub_other_case (find_or_add hub clear_scache_hash_table).1).0 ≡ hub
unfolding find_or_add to_upper solidircd.Match.Compare.mycmp clear_scache_hash_table
spelling_kept = refl

-- A name of HOSTLEN bytes loses its last one.
long_cut : (find_or_add (replicate 63 b'a') clear_scache_hash_table).0 ≡ replicate 62 b'a'
unfolding find_or_add clear_scache_hash_table
long_cut = refl

abbrev net : Bytes
net = b'n' ∷ b'e' ∷ b't' ∷ []

find_or_add-behind_example :
    IsValid (behind (net ∷ []) (find_or_add hub clear_scache_hash_table).1)
    × (upper (find_or_add hub clear_scache_hash_table).0 ≡ upper hub)
    × (find_or_add hub_other_case (behind (net ∷ []) (find_or_add hub clear_scache_hash_table).1)
        ≡ (
          (find_or_add hub clear_scache_hash_table).0,
          behind (net ∷ []) (find_or_add hub clear_scache_hash_table).1,
        ))
unfolding to_upper
find_or_add-behind_example =
    find_or_add-behind clear_scache_hash_table hub (net ∷ []) hub_other_case clear-IsValid
      (omega arith) (omega arith) (omega arith, omega arith, tt) (omega arith) refl
