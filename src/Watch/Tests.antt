-- ===== src/Watch/Tests.antt =====
-- Runs of the watch lists of src/hash.c, and the theorems there.
use solidircd.Base.{ℕ, ◌≡◌, refl, false, [], ◌∷◌, Option, none, some, ◌>>=◌}
use solidircd.Match.Compare.{Bytes, mycmp}
use solidircd.Match.Tables.{to_upper, to_lower}
use solidircd.Watch.{
  Watches, has, without, hash_get_watch, add_to_watch_hash_table, del_from_watch_hash_table,
  hash_del_watch_list, hash_check_watch,
}
use solidircd.Watch.Calls.{Watching, add_to_watch-IsLinked, del_from_watch-IsLinked}
use solidircd.Watch.Leaving.{hash_del_watch_list-IsLinked}
use solidircd.Watch.Linked.{IsLinked}

abbrev jo : Bytes
jo = b'j' ∷ b'o' ∷ []

abbrev jo_shouted : Bytes
jo_shouted = b'J' ∷ b'O' ∷ []

abbrev none_yet : Watches
none_yet = record {
  headers = λ p. record { lasttime = 0; nick = []; watch = [] };
  table = λ h. [];
  links = λ c. [];
  counts = λ c. 0;
}

none_yet-IsLinked : IsLinked none_yet
unfolding has without
none_yet-IsLinked = record {
  linked = λ p c. refl;
  links_once = λ p c. refl;
  watch_once = λ p c. refl;
  counted = λ c. refl;
  chained = λ h p e. cc;
  placed = λ p c e. cc;
}

abbrev two : Watches
two = add_to_watch_hash_table 6 101 jo_shouted 8 (add_to_watch_hash_table 5 100 jo 9 none_yet)

told_run : (hash_check_watch 102 jo two).0 ≡ 8 ∷ 9 ∷ []
unfolding hash_check_watch add_to_watch_hash_table solidircd.Hash.hash_nick_name mycmp to_upper
    to_lower
told_run = refl

gone_run : (hash_check_watch 102 jo (del_from_watch_hash_table jo 9 two)).0 ≡ 8 ∷ []
unfolding hash_check_watch add_to_watch_hash_table del_from_watch_hash_table
    solidircd.Hash.hash_nick_name mycmp to_upper to_lower
gone_run = refl

abbrev found : Option Watches → Option (Option ℕ)
found o = o >>= λ w. some (hash_get_watch w jo)

-- The last client takes the header with it.
last_run : found (hash_del_watch_list 8 (del_from_watch_hash_table jo 9 two)) ≡ some none
unfolding hash_get_watch hash_del_watch_list add_to_watch_hash_table del_from_watch_hash_table
    solidircd.Hash.hash_nick_name mycmp to_upper to_lower
last_run = refl

add_to_watch-IsLinked_example :
    IsLinked (add_to_watch_hash_table 5 100 jo 9 none_yet)
    × Watching (add_to_watch_hash_table 5 100 jo 9 none_yet) jo 9
unfolding has
add_to_watch-IsLinked_example =
    add_to_watch-IsLinked 5 100 jo 9 none_yet none_yet-IsLinked (λ c. refl) (λ h. refl)

one-IsLinked : IsLinked (add_to_watch_hash_table 5 100 jo 9 none_yet)
unfolding has
one-IsLinked =
    (add_to_watch-IsLinked 5 100 jo 9 none_yet none_yet-IsLinked (λ c. refl) (λ h. refl)).0

del_from_watch-IsLinked_example :
    IsLinked (del_from_watch_hash_table jo 9 (add_to_watch_hash_table 5 100 jo 9 none_yet))
    × ((p : ℕ)
        → hash_get_watch (add_to_watch_hash_table 5 100 jo 9 none_yet) jo ≡ some p
        → has 9
            ((del_from_watch_hash_table jo 9 (add_to_watch_hash_table 5 100 jo 9 none_yet)).headers
              p).watch
          ≡ false)
del_from_watch-IsLinked_example =
    del_from_watch-IsLinked jo 9 (add_to_watch_hash_table 5 100 jo 9 none_yet) one-IsLinked

hash_del_watch_list-IsLinked_example :
    (w' : Watches) × (hash_del_watch_list 9 (add_to_watch_hash_table 5 100 jo 9 none_yet) ≡ some w')
    × IsLinked w'
    × ((p : ℕ) → has 9 (w'.headers p).watch ≡ false)
    × (w'.links 9 ≡ [])
hash_del_watch_list-IsLinked_example =
    hash_del_watch_list-IsLinked 9 (add_to_watch_hash_table 5 100 jo 9 none_yet) one-IsLinked
