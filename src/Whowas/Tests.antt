-- ===== src/Whowas/Tests.antt =====
-- A small history of src/whowas.c.
use solidircd.Base.{ℕ, ◌<◌, ◌≡◌, ◌≢◌, ◌⊎◌, refl, true, false, [], ◌∷◌, none, some, arith, ◌>>=◌}
use solidircd.Hash.{hash_whowas_name}
use solidircd.Match.Compare.{Bytes, mycmp}
use solidircd.Match.Tables.{to_upper, to_lower}
use solidircd.Whowas.Added.{add_history_lem}
use solidircd.Whowas.Last.{Call, adds, place, written, adds-last}
use solidircd.Whowas.Off.{off_history-InOrder}
use solidircd.Whowas.Order.{clients_of, InOrder, add_history-InOrder}
use solidircd.Whowas.Runs.{init-InOrder}
use solidircd.Whowas.{Person, History, initwhowas, add_history, off_history, get_history, is_hit}

abbrev jo : Bytes
jo = b'j' ∷ b'o' ∷ []

abbrev jo_other_case : Bytes
jo_other_case = b'J' ∷ b'O' ∷ []

abbrev person : Person
person = record {
  at = 7;
  name = jo;
  username = b'u' ∷ [];
  host = b'h' ∷ [];
  user_realhost = none;
  sockhost = b's' ∷ [];
  info = [];
  server = b'x' ∷ [];
  umode = 0;
  is_mine = false;
}

abbrev other : Person
other = record person { at = 8 }

abbrev earlier : Call
earlier = record { now = 100; online = true; cptr = person }

abbrev later : Call
later = record { now = 110; online = false; cptr = other }

abbrev once : History
once = add_history 100 true person initwhowas

abbrev twice : History
twice = add_history 110 true other once

-- The newer of the two under the name is found, and the limit counts.
found_run : get_history jo_other_case 30 120 twice ≡ some (some 8)
unfolding get_history add_history initwhowas is_hit mycmp to_upper to_lower
found_run = refl

late_run : get_history jo 30 150 twice ≡ some none
unfolding get_history add_history initwhowas is_hit mycmp to_upper to_lower
late_run = refl

-- When the newer client is gone, NULL is found, and not the older one.
gone_run : (off_history 8 twice >>= (λ h. get_history jo 30 120 h)) ≡ some none
unfolding get_history add_history initwhowas is_hit mycmp to_upper to_lower off_history
gone_run = refl

add_history_lem_example :
    InOrder once
    × (once.whowas_next ≡ 1)
    × ((once.entry 0).hashv ≡ some (hash_whowas_name jo))
    × ((once.entry 0).name ≡ jo)
    × ((once.entry 0).logoff ≡ 100)
    × ((once.entry 0).online ≡ some 7)
    × ((j : ℕ) → (j ≡ 0) ⊎ (once.entry j ≡ initwhowas.entry j))
    × (once.list.head (hash_whowas_name jo) ≡ some 0)
    × ((true ≡ false) ⊎ ((true ≡ true) × (once.clist.head 7 ≡ some 0)))
unfolding initwhowas
add_history_lem_example = add_history_lem 100 true person initwhowas init-InOrder

off_history-InOrder_example :
    (h' : History) × (off_history 7 once ≡ some h')
    × InOrder h'
    × ((i : ℕ) → i < 2048 → clients_of h' i ≢ some 7)
    × ((i : ℕ)
        → ((clients_of h' i ≡ clients_of once i) ⊎ (clients_of h' i ≡ none))
          × (record (h'.entry i) { online = none } ≡ record (once.entry i) { online = none }))
off_history-InOrder_example =
    off_history-InOrder 7 once (add_history-InOrder 100 true person initwhowas init-InOrder)

adds-last_example :
    (adds (later ∷ earlier ∷ []) initwhowas).entry
      (place (adds (later ∷ earlier ∷ []) initwhowas).whowas_next 1)
    ≡ written earlier
adds-last_example =
    adds-last (later ∷ earlier ∷ []) initwhowas 1 earlier init-InOrder (omega arith) refl
