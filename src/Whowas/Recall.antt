-- ===== src/Whowas/Recall.antt =====
-- get_history of src/whowas.c, and the newest entry under a name.
use solidircd.Base.{
  ℕ, zero, suc, ◌≤◌, ◌≡◌, refl, sym, ap, ◌∙◌, ◌⊎◌, inl, inr, Bool, true, false, List, [], ◌∷◌,
  Option, none, some, ◌&&◌, if◌then◌else◌, arith, length, Bool-cases, Option-cases,
}
use solidircd.Hash.Names.{hashes_agree}
use solidircd.Hash.Tables.{zero_is}
use solidircd.Hash.{hash_whowas_name, same_name}
use solidircd.Match.Compare.{Bytes, IsText, mycmp}
use solidircd.Whowas.Chains.{is_at, select, AllLists, select-on, select-skip}
use solidircd.Whowas.Delete.{IsList}
use solidircd.Whowas.Select.{length-select, is_at-some}
use solidircd.Whowas.Order.{hashes_of, InOrder}
use solidircd.Whowas.Pointers.{Linked}
use solidircd.Whowas.Ring.{all_places, length-all_places}
use solidircd.Whowas.{Whowas, History, is_hit, find_from, get_history}

-- An entry that is used has the hash of its name.
unfoldable pub IsNamed : Whowas → Type 0
unfolding hash_whowas_name
IsNamed w = (w.hashv ≡ none) ⊎ ((w.hashv ≡ some (hash_whowas_name w.name)) × IsText w.name)

abbrev pub is_used : Option ℕ → Bool
is_used none = false
is_used (some b) = true

-- The first of these entries that is used and looked for
unfoldable pub newest : Bytes → ℕ → ℕ → History → List ℕ → Option ℕ
unfolding is_hit
newest nick now timelimit h [] = none
newest nick now timelimit h (i ∷ log) =
    let older = newest nick now timelimit h log in
    if is_used (h.entry i).hashv && is_hit nick now timelimit (h.entry i)
    then (h.entry i).online
    else older

abbrev value_of : Option ℕ → ℕ
value_of none = 0
value_of (some b) = b

module _ (nick : Bytes) (now timelimit : ℕ) (h : History) where
  first_hit : List ℕ → Option ℕ
  first_hit [] = none
  first_hit (i ∷ log) =
      let later = first_hit log in
      if is_hit nick now timelimit (h.entry i) then (h.entry i).online else later

  find_from-Linked :
      (xs : List ℕ) (fuel : ℕ) (p first : Option ℕ)
      → Linked h.list.next h.list.prev p first xs
      → length xs ≤ fuel
      → find_from fuel nick now timelimit h first ≡ some (first_hit xs)
  unfolding find_from first_hit Linked
  find_from-Linked [] fuel p first l enough = ap (find_from fuel nick now timelimit h) l
  find_from-Linked (x ∷ xs) zero p first l enough = absurd (omega (arith, enough))
  find_from-Linked (x ∷ xs) (suc fuel) p first l enough =
      ap (find_from (suc fuel) nick now timelimit h) l.0
      ∙ elim (Bool-cases (is_hit nick now timelimit (h.entry x))) [
        | inl on ↦ rw on refl
        | inr off ↦
            rw off (find_from-Linked xs fuel (some x) (h.list.next x) l.2 (omega (arith, enough)))
      ]

  -- A name that is looked for has the hash of the list.
  hit-hash :
      (w : Whowas) (b : ℕ)
      → IsText nick
      → IsNamed w
      → w.hashv ≡ some b
      → is_hit nick now timelimit w ≡ true
      → hash_whowas_name nick ≡ b
  unfolding IsNamed is_hit
  hit-hash w b text (inl e) here hit = absurd (ground (arith, e, here))
  hit-hash w b text (inr (e, wtext)) here hit =
      let same : same_name nick w.name ≡ true = ground (arith, hit) in
      let hash = (hashes_agree nick w.name text wtext (zero_is (mycmp nick w.name) same)).2 in
      let found : hash_whowas_name w.name ≡ b = ap value_of (sym e ∙ here) in hash ∙ found

  -- An entry with another hash is not looked for.
  no_hit :
      (w : Whowas)
      → IsText nick
      → IsNamed w
      → is_at w.hashv (hash_whowas_name nick) ≡ false
      → (is_used w.hashv && is_hit nick now timelimit w) ≡ false
  unfolding is_at is_hit
  no_hit w text named off = elim (Option-cases w.hashv) [
    | inl e ↦ rw e refl
    | inr (b, e) ↦ elim (Bool-cases (is_hit nick now timelimit w)) [
      | inl on ↦
          let same = hit-hash w b text named e on in
          let there : is_at w.hashv (hash_whowas_name nick) ≡ true =
            ap (λ o. is_at o (hash_whowas_name nick)) e ∙ ground (arith, same) in
          absurd (ground (arith, off, there))
      | inr no_name ↦ rw (e, no_name) refl
    ]
  ]

  first_hit-newest :
      (log : List ℕ)
      → IsText nick
      → ((i : ℕ) → IsNamed (h.entry i))
      → first_hit (select (hashes_of h) (hash_whowas_name nick) log)
        ≡ newest nick now timelimit h log
  unfolding first_hit newest select
  first_hit-newest [] text named = refl
  first_hit-newest (x ∷ log) text named =
      let b = hash_whowas_name nick in
      let later = first_hit-newest log text named in
      elim (Bool-cases (is_at (hashes_of h x) b)) [
        | inl on ↦
            let used : is_used (h.entry x).hashv ≡ true =
              ap is_used (is_at-some (hashes_of h x) b on) in
            ap first_hit (select-on (hashes_of h) b x log on)
            ∙ rw used (
                ap (λ r. if is_hit nick now timelimit (h.entry x) then (h.entry x).online else r)
                  later)
        | inr off ↦
            ap first_hit (select-skip (hashes_of h) b x log off)
            ∙ later
            ∙ rw (no_hit (h.entry x) text (named x) off) refl
      ]

  pub get_history-newest :
      InOrder h
      → IsText nick
      → ((i : ℕ) → IsNamed (h.entry i))
      → get_history nick timelimit now h
        ≡ some (newest nick now timelimit h (all_places h.whowas_next))
  unfolding get_history AllLists IsList
  get_history-newest order text named =
      let b = hash_whowas_name nick in
      let log = all_places h.whowas_next in
      let few : length (select (hashes_of h) b log) ≤ 2048 =
        omega (arith, length-select (hashes_of h) b log, length-all_places h.whowas_next) in
      find_from-Linked (select (hashes_of h) b log) 2048 none (h.list.head b) (order.hashes b) few
      ∙ ap some (first_hit-newest log text named)
