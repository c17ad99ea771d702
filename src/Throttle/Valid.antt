-- ===== src/Throttle/Valid.antt =====
-- What is always true of the throttle table of src/throttle.c, and what it means: at most one
-- record for each host.
use mathlib.Core.Option
use solidircd.Base.{
  ℕ, ◌≡◌, ◌≢◌, refl, false, List, [], ◌∷◌, map, ◌==◌, if◌then◌else◌, Option, none, some, arith,
  Bool-cases, Option-cases, inl, inr, length,
}
use solidircd.Base.Int.{ℤ}
use solidircd.HashTable.{Ent, find_in, holds}
use solidircd.HashTable.Chain.{Compares, same_key, same_key_iff}
use solidircd.HashTable.Models.{Models, hash_find-Models}
use solidircd.Match.Compare.{Bytes}
use solidircd.Throttle.{Throttle, Throttles, ent_of, deref, store, find_throttle}
use solidircd.Throttle.Apart.{IsApart}

abbrev pub entries : List Throttle → List Ent
entries = map ent_of

module _ (cmp : Bytes → Bytes → ℤ) (cmp_iff : Compares cmp) where
  -- The record of a host.
  unfoldable pub view : List Throttle → Bytes → Option Throttle
  view [] host = none
  view (tp ∷ l) host = if same_key cmp cmp_iff tp.addr host then some tp else view l host

  -- The hash table holds the records of the list, which differ in their addresses and in their
  -- hosts, and the counter is their number.
  pub record IsValid (st : Throttles) : Type 0 where
    pub models : Models cmp cmp_iff st.hash (entries st.list)
    pub apart : IsApart cmp cmp_iff (entries st.list)
    pub counted : st.num ≡ length st.list

  pub find_in-view :
      (k : Bytes) (l : List Throttle) → find_in cmp k (entries l) ≡ Option.map ent_of (view l k)
  unfolding find_in view
  find_in-view k [] = refl
  find_in-view k (tp ∷ l) = ground (arith, find_in-view k l)

  pub holds-deref : (p : ℕ) (l : List Throttle) → holds p (entries l) ≡ false → deref p l ≡ none
  unfolding holds deref
  holds-deref p [] h = refl
  holds-deref p (tp ∷ l) h = ground (arith, holds-deref p l)

  pub deref-holds : (p : ℕ) (l : List Throttle) → deref p l ≡ none → holds p (entries l) ≡ false
  unfolding holds deref
  deref-holds p [] h = refl
  deref-holds p (tp ∷ l) h = ground (arith, deref-holds p l)

  -- The record that a host has is found through its address.
  pub deref-view :
      (k : Bytes) (l : List Throttle) (tp : Throttle)
      → IsApart cmp cmp_iff (entries l)
      → view l k ≡ some tp
      → deref tp.at l ≡ some tp
  unfolding deref view
  deref-view k [] tp apart h = cc
  deref-view k (x ∷ l) tp apart h = elim (Bool-cases (same_key cmp cmp_iff x.addr k)) [
    | inl same ↦ ground arith
    | inr other ↦
        let tail : view l k ≡ some tp = ground arith in
        ground (arith, deref-view k l tp apart.2 tail, holds-deref x.at l apart.0)
  ]

  pub view-addr : (k : Bytes) (l : List Throttle) (tp : Throttle) → view l k ≡ some tp → tp.addr ≡ k
  unfolding view
  view-addr k [] tp h = cc
  view-addr k (x ∷ l) tp h = ground (arith, view-addr k l tp, same_key_iff cmp cmp_iff x.addr k)

  -- In a valid table the search by host finds the record of the host, through no stale pointer.
  pub find_throttle-view :
      (st : Throttles) (k : Bytes) → IsValid st → find_throttle cmp k st ≡ some (view st.list k)
  unfolding find_throttle
  find_throttle-view st k v =
      let found = hash_find-Models cmp cmp_iff st.hash (entries st.list) k v.models in
      elim (Option-cases (view st.list k)) [
        | inl e ↦ ground (arith, found, find_in-view k st.list)
        | inr (tp, e) ↦
            ground (arith, found, find_in-view k st.list, deref-view k st.list tp v.apart e)
      ]

  -- Writing a record through its address.
  pub entries-store :
      (l : List Throttle) (new old : Throttle)
      → deref new.at l ≡ some old
      → old.addr ≡ new.addr
      → entries (store new l) ≡ entries l
  unfolding deref store
  entries-store [] new old h e = cc
  entries-store (tp ∷ l) new old h e = ground (arith, entries-store l new old)

  pub length-store : (l : List Throttle) (new : Throttle) → length (store new l) ≡ length l
  unfolding store
  length-store [] new = refl
  length-store (tp ∷ l) new = ground (arith, length-store l new)

  -- A record that is alive is found under its host.
  deref-listed :
      (p : ℕ) (l : List Throttle) (tp : Throttle)
      → deref p l ≡ some tp
      → find_in cmp tp.addr (entries l) ≢ none
  unfolding deref find_in
  deref-listed p [] tp h = cc
  deref-listed p (x ∷ l) tp h =
      ground (arith, deref-listed p l tp, same_key_iff cmp cmp_iff x.addr tp.addr)

  pub view-store :
      (l : List Throttle) (new old : Throttle) (k : Bytes)
      → deref new.at l ≡ some old
      → old.addr ≡ new.addr
      → IsApart cmp cmp_iff (entries l)
      → view (store new l) k ≡ (if same_key cmp cmp_iff new.addr k then some new else view l k)
  unfolding deref store view
  view-store [] new old k h e apart = cc
  view-store (tp ∷ l) new old k h e apart = elim (Bool-cases (tp.at == new.at)) [
    | inl here ↦ let same : tp.addr ≡ new.addr = ground arith in rw (here, same) (ground arith)
    | inr there ↦
        let tail : deref new.at l ≡ some old = ground arith in
        let differ = addr_differ tp old l apart.1 (deref-listed new.at l old tail) in
        ground (
          arith,
          view-store l new old k tail e apart.2,
          differ,
          same_key_iff cmp cmp_iff tp.addr k,
          same_key_iff cmp cmp_iff new.addr k,
        )
  ]
    where
      addr_differ :
          (x y : Throttle) (es : List Throttle)
          → find_in cmp x.addr (entries es) ≡ none
          → find_in cmp y.addr (entries es) ≢ none
          → x.addr ≢ y.addr
      addr_differ x y es h n same = n (rw same at h)
