-- ===== src/HashTable/Resize.antt =====
-- `resize_hash_table` of src/throttle.c moves every entry into a new table.
use mathlib.Core.List.{flatten, reverse_aux, reverse_aux-append}
use solidircd.Base.{
  ℕ, zero, suc, ◌≤◌, ◌<◌, ◌≡◌, refl, List, [], ◌∷◌, arith, ◌==◌, if◌then◌else◌, length, get_or,
  append-nil, subst,
}
use solidircd.Base.Int.{ℤ}
use solidircd.HashTable.{
  HashTable, Ent, bucket, create_hash_table, hash_get_key_hash, hash_insert, insert_chain,
  insert_all, resize_hash_table,
}
use solidircd.HashTable.Chain.{Compares, select, select-append, select-reverse_aux}
use solidircd.HashTable.Models.{Models, create-Models, hash_insert-Models, home-lt}
use solidircd.Match.Compare.{Bytes}

module _ (cmp : Bytes → Bytes → ℤ) (cmp_iff : Compares cmp) where
  insert_chain-Models :
      (c es : List Ent) (t : HashTable)
      → Models cmp cmp_iff t es
      → Models cmp cmp_iff (insert_chain c t) (reverse_aux c es)
  unfolding insert_chain
  insert_chain-Models [] es t m = m
  insert_chain-Models (e ∷ c) es t m =
      insert_chain-Models c (e ∷ es) (hash_insert t e) (hash_insert-Models cmp cmp_iff t es e m)

  insert_all-Models :
      (cs : List (List Ent)) (es : List Ent) (t : HashTable)
      → Models cmp cmp_iff t es
      → Models cmp cmp_iff (insert_all cs t) (reverse_aux (flatten cs) es)
  unfolding insert_all flatten
  insert_all-Models [] es t m = m
  insert_all-Models (c ∷ cs) es t m =
      rw (reverse_aux-append c (flatten cs) es)
        (insert_all-Models cs (reverse_aux c es) (insert_chain c t) (insert_chain-Models c es t m))

  select-flatten_nowhere :
      (j : Bytes) (cs : List (List Ent))
      → ((i : ℕ) → select cmp cmp_iff j (get_or cs i []) ≡ [])
      → select cmp cmp_iff j (flatten cs) ≡ []
  unfolding flatten select
  select-flatten_nowhere j [] h = refl
  select-flatten_nowhere j (c ∷ cs) h =
      rw (select-append cmp cmp_iff j c (flatten cs), h 0)
        (select-flatten_nowhere j cs (λ i. h (suc i)))

  -- A key that stands in one bucket only is found there by a walk over all buckets.
  select-flatten :
      (j : Bytes) (cs : List (List Ent)) (home : ℕ) (xs : List Ent)
      → home < length cs
      → ((i : ℕ) → select cmp cmp_iff j (get_or cs i []) ≡ (if home == i then xs else []))
      → select cmp cmp_iff j (flatten cs) ≡ xs
  unfolding flatten
  select-flatten j [] home xs h chains = absurd (omega arith)
  select-flatten j (c ∷ cs) zero xs h chains =
      rw
        (
          select-append cmp cmp_iff j c (flatten cs),
          chains 0,
          select-flatten_nowhere j cs (λ i. ground (arith, chains (suc i))),
        )
        (append-nil xs)
  select-flatten j (c ∷ cs) (suc home) xs h chains =
      let none_here : select cmp cmp_iff j c ≡ [] = ground (arith, chains 0) in
      rw (select-append cmp cmp_iff j c (flatten cs), none_here)
        (select-flatten j cs home xs (omega arith) (λ i. ground (arith, chains (suc i))))

  -- No key stands twice.
  abbrev pub AtMostOnce : List Ent → Type 0
  AtMostOnce es = (j : Bytes) → length (select cmp cmp_iff j es) ≤ 1

  short_reverse : (xs : List Ent) → length xs ≤ 1 → reverse_aux xs [] ≡ xs
  short_reverse [] h = refl
  short_reverse (x ∷ []) h = refl
  short_reverse (x ∷ y ∷ xs) h = absurd (omega arith)

  moved-select :
      (t : HashTable) (es : List Ent) (j : Bytes)
      → Models cmp cmp_iff t es
      → AtMostOnce es
      → select cmp cmp_iff j (reverse_aux (flatten t.table) []) ≡ select cmp cmp_iff j es
  unfolding select
  moved-select t es j m once =
      let home = hash_get_key_hash t j in
      let all =
        select-flatten j t.table home (select cmp cmp_iff j es) (rw m.width (home-lt t j m.sized))
          (λ i. m.chains i j) in
      rw (select-reverse_aux cmp cmp_iff j (flatten t.table) [], all)
        (short_reverse (select cmp cmp_iff j es) (once j))

  -- A table that holds the entries `es`, no key twice, holds the same entries after
  -- `resize_hash_table` to a positive size.
  pub resize-Models :
      (t : HashTable) (es : List Ent) (elems : ℕ)
      → Models cmp cmp_iff t es
      → AtMostOnce es
      → 0 < elems
      → Models cmp cmp_iff (resize_hash_table t elems) es
  unfolding resize_hash_table create_hash_table
  resize-Models t es elems m once h =
      let moved =
        insert_all-Models t.table [] (create_hash_table elems t.keylen t.nocase)
          (create-Models cmp cmp_iff elems t.keylen t.nocase h) in
      record {
        sized = moved.sized;
        width = moved.width;
        chains = λ i j.
            subst
              (λ xs.
                select cmp cmp_iff j (bucket (resize_hash_table t elems) i)
                ≡ (if hash_get_key_hash (resize_hash_table t elems) j == i then xs else []))
              (moved-select t es j m once) (moved.chains i j);
      }
