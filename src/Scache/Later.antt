-- ===== src/Scache/Later.antt =====
-- find_or_add of src/scache.c behind any other calls of it.
use solidircd.Base.{
  ◌<◌, ◌≡◌, sym, ap, ◌∙◌, List, [], ◌∷◌, ◌==◌, ==_iff, none, some, length, get_or-set, set, arith,
  Option-cases, Bool-cases, inl, inr,
}
use solidircd.Match.Compare.{Bytes, IsText, upper}
use solidircd.Scache.Unique.{
  IsValid, same_iff, find_name-same, hash-upper, hash-lt, take-all, find_or_add-new,
  find_or_add-old, find_or_add-IsValid,
}
use solidircd.Scache.{hash, chain, find_name, stored, find_or_add, hostlen}

-- Texts that fit an entry
abbrev pub AllFit : List Bytes → Type 0
AllFit [] = Unit
AllFit (name ∷ names) = IsText name × (length name < hostlen) × AllFit names

-- The cache behind calls for these names, one after the other
unfoldable pub behind : List Bytes → List (List Bytes) → List (List Bytes)
behind [] cache = cache
behind (name ∷ names) cache = behind names (find_or_add name cache).1

behind-IsValid :
    (names : List Bytes) (cache : List (List Bytes))
    → AllFit names
    → IsValid cache
    → IsValid (behind names cache)
unfolding behind
behind-IsValid [] cache fit v = v
behind-IsValid (name ∷ names) cache fit v =
    behind-IsValid names _ fit.2 (find_or_add-IsValid cache name v fit.0 fit.1).0

-- An entry that the search finds is found behind another call too.
find_name-kept :
    (cache : List (List Bytes)) (name other x : Bytes)
    → IsValid cache
    → IsText name
    → IsText other
    → length other < hostlen
    → find_name name (chain cache (hash name)) ≡ some x
    → find_name name (chain (find_or_add other cache).1 (hash name)) ≡ some x
unfolding find_name
find_name-kept cache name other x v text fits short seen =
    let i = hash other in
    let c = chain cache i in
    let whole : stored other ≡ other = take-all 62 other (omega (arith, short)) in
    elim (Option-cases (find_name other c)) [
      | inr (y, e) ↦ rw (find_or_add-old other y cache e) seen
      | inl e ↦
          let inside : i < length cache = omega (arith, v.size, hash-lt other) in
          let made : find_or_add other cache ≡ (other, set cache i (other ∷ c)) =
            find_or_add-new other cache e ∙ ap (λ (s : Bytes). (s, set cache i (s ∷ c))) whole in
          let new = get_or-set cache i (hash name) (other ∷ c) [] inside in
          rw made (elim (Bool-cases (i == hash name)) [
            | inr apart ↦ rw (new, apart) seen
            | inl same ↦
                let home : i ≡ hash name = (==_iff i (hash name)).0 same in
                let here : find_name name c ≡ some x =
                  ap (λ j. find_name name (chain cache j)) home ∙ seen in
                let absent : upper other ≡ upper name → find_name name c ≡ none =
                  λ eq. find_name-same name other i c text fits (v.chains i) (sym eq) ∙ e in
                rw (new, same) (ground (arith, here, absent, same_iff other name fits text))
          ])
    ]

find_name-behind :
    (names : List Bytes) (cache : List (List Bytes)) (name x : Bytes)
    → IsValid cache
    → IsText name
    → AllFit names
    → find_name name (chain cache (hash name)) ≡ some x
    → find_name name (chain (behind names cache) (hash name)) ≡ some x
unfolding behind
find_name-behind [] cache name x v text fit seen = seen
find_name-behind (other ∷ names) cache name x v text fit seen =
    find_name-behind names _ name x (find_or_add-IsValid cache other v fit.0 fit.1).0 text fit.2
      (find_name-kept cache name other x v text fit.0 fit.1 seen)

-- On a cache with one entry for each name up to case, a text shorter than HOSTLEN, and any number
-- of further calls for such texts: find_or_add returns an entry equal to the name up to case; all
-- the calls leave such a cache; and behind them, a call for any spelling of the name returns that
-- same entry and changes nothing.
pub find_or_add-behind :
    (cache : List (List Bytes)) (name : Bytes) (names : List Bytes) (again : Bytes)
    → IsValid cache
    → IsText name
    → length name < hostlen
    → AllFit names
    → IsText again
    → upper again ≡ upper name
    → IsValid (behind names (find_or_add name cache).1)
      × (upper (find_or_add name cache).0 ≡ upper name)
      × (find_or_add again (behind names (find_or_add name cache).1)
          ≡ ((find_or_add name cache).0, behind names (find_or_add name cache).1))
find_or_add-behind cache name names again v text short fit text' same =
    let x = (find_or_add name cache).0 in
    let (v', spelt, seen) = find_or_add-IsValid cache name v text short in
    let end = behind names (find_or_add name cache).1 in
    let v_end : IsValid end = behind-IsValid names _ fit v' in
    let kept : find_name name (chain end (hash name)) ≡ some x =
      find_name-behind names _ name x v' text fit seen in
    let home : hash again ≡ hash name = hash-upper again name text' text same in
    let found : find_name again (chain end (hash again)) ≡ some x =
      find_name-same again name (hash again) (chain end (hash again)) text' text
        (v_end.chains (hash again)) same
      ∙ ap (λ j. find_name name (chain end j)) home
      ∙ kept in
    (v_end, spelt, find_or_add-old again x end found)
