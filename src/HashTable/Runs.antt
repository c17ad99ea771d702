-- ===== src/HashTable/Runs.antt =====
-- Runs of the hash table of src/throttle.c from create_hash_table on, and what hash_find sees of them.
use solidircd.Base.{
  ℕ, ◌<◌, ◌≡◌, ◌≢◌, ◌⊎◌, refl, sym, subst, inl, inr, Bool, List, [], ◌∷◌, arith, ◌==◌,
  if◌then◌else◌, Option, none, some, Bool-cases,
}
use solidircd.Base.Int.{ℤ}
use solidircd.HashTable.{
  HashTable, Ent, create_hash_table, hash_insert, hash_delete, hash_find, resize_hash_table, remove,
  find_in,
}
use solidircd.HashTable.Chain.{Compares, same_key, same_key_iff, OnlyUnder}
use solidircd.HashTable.Models.{
  Models, create-Models, hash_find-Models, hash_insert-Models, hash_delete-Models,
}
use solidircd.HashTable.Resize.{AtMostOnce, resize-Models}
use solidircd.Match.Compare.{Bytes}

-- Of the entries, newest first: the newest under the key, or none where there is none.
abbrev pub Newest : Bytes → List Ent → Option Ent → Type 0
Newest k [] answer = answer ≡ none
Newest k (e ∷ es) answer = ((e.key ≡ k) × (answer ≡ some e)) ⊎ ((e.key ≢ k) × Newest k es answer)

-- The entries without the newest at an address
unfoldable pub taken_out : ℕ → List Ent → List Ent
taken_out p [] = []
taken_out p (e ∷ es) = let rest = taken_out p es in if e.at == p then es else e ∷ rest

remove-taken_out : (p : ℕ) (es : List Ent) → remove p es ≡ taken_out p es
unfolding remove taken_out
remove-taken_out p [] = refl
remove-taken_out p (e ∷ es) = ground (arith, remove-taken_out p es)

module _ (cmp : Bytes → Bytes → ℤ) (cmp_iff : Compares cmp) where
  -- A table, and the entries that went in and did not come out, newest first. An entry is deleted
  -- under the key that it stands under; a table is resized while no key has two entries.
  pub data Reached : HashTable → List Ent → Type 0 where
    created :
        (elems len : ℕ)
        → (nocase : Bool) → 0 < elems
        → Reached (create_hash_table elems len nocase) []
    inserted :
        {t : HashTable} {es : List Ent}
        → (e : Ent) → Reached t es
        → Reached (hash_insert t e) (e ∷ es)
    deleted :
        {t : HashTable} {es : List Ent}
        → (e : Ent) → OnlyUnder cmp cmp_iff e.at e.key es
        → Reached t es
        → Reached (hash_delete t e).1 (taken_out e.at es)
    resized :
        {t : HashTable} {es : List Ent}
        → (elems : ℕ) → 0 < elems
        → AtMostOnce cmp cmp_iff es
        → Reached t es
        → Reached (resize_hash_table t elems) es

  Reached-Models : (t : HashTable) (es : List Ent) → Reached t es → Models cmp cmp_iff t es
  Reached-Models t es (created elems len nocase pos) =
      create-Models cmp cmp_iff elems len nocase pos
  Reached-Models t es (inserted {t = t0} {es = es0} e run) =
      hash_insert-Models cmp cmp_iff t0 es0 e (Reached-Models t0 es0 run)
  Reached-Models t es (deleted {t = t0} {es = es0} e only run) =
      subst (Models cmp cmp_iff (hash_delete t0 e).1) (remove-taken_out e.at es0)
        (hash_delete-Models cmp cmp_iff t0 es0 e (Reached-Models t0 es0 run) only).1
  Reached-Models t es (resized {t = t0} elems pos once run) =
      resize-Models cmp cmp_iff t0 es elems (Reached-Models t0 es run) once pos

  find_in-Newest : (k : Bytes) (es : List Ent) → Newest k es (find_in cmp k es)
  unfolding find_in
  find_in-Newest k [] = refl
  find_in-Newest k (e ∷ es) = elim (Bool-cases (same_key cmp cmp_iff e.key k)) [
    | inl on ↦ rw on (inl ((same_key_iff cmp cmp_iff e.key k).0 on, refl))
    | inr off ↦ rw off (
        inr (
          (λ e'. ground (arith, off, (same_key_iff cmp cmp_iff e.key k).1 e')),
          find_in-Newest k es,
        ))
  ]

  -- After any run of hash_insert, hash_delete and resize_hash_table from create_hash_table on, with
  -- a comparison that is 0 just on equal keys, where an entry is deleted under the key that it stands
  -- under, and a table is resized only while no key has two entries: hash_find gives for every key
  -- the newest entry under it that went in and did not come out, and NULL just when there is none.
  pub hash_find-Reached :
      (t : HashTable) (es : List Ent) (k : Bytes) → Reached t es → Newest k es (hash_find cmp t k)
  hash_find-Reached t es k run =
      subst (Newest k es) (sym (hash_find-Models cmp cmp_iff t es k (Reached-Models t es run)))
        (find_in-Newest k es)
