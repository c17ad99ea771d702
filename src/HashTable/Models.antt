-- ===== src/HashTable/Models.antt =====
-- What the hash table of src/throttle.c holds, as one list of entries, newest first.
use solidircd.Base.{
  ℕ, ◌<◌, ◌≡◌, refl, ◌∙◌, Bool, false, List, [], ◌∷◌, arith, ◌==◌, if◌then◌else◌, length,
  Bool-cases, inl, inr, get_or-set, get_or-replicate, set, length-set, length-replicate,
}
use solidircd.Base.Int.{ℤ}
use solidircd.HashTable.{
  HashTable, Ent, bucket, create_hash_table, hash_get_key_hash, hash_insert, hash_delete, hash_find,
  holds, remove, find_in,
}
use solidircd.HashTable.Chain.{
  Compares, same_key_iff, select, find_in-select, OnlyUnder, holds-select, select-remove,
}
use solidircd.Match.Compare.{Bytes}

-- The home of a key is a bucket of the table.
pub home-lt : (t : HashTable) (k : Bytes) → 0 < t.size → hash_get_key_hash t k < t.size
unfolding hash_get_key_hash
home-lt t k h = omega arith

remove-absent : (p : ℕ) (c : List Ent) → holds p c ≡ false → remove p c ≡ c
unfolding holds remove
remove-absent p [] h = refl
remove-absent p (e ∷ c) h = ground (arith, remove-absent p c)

module _ (cmp : Bytes → Bytes → ℤ) (cmp_iff : Compares cmp) where
  -- The table holds the entries `es`: those under a key stand in its home bucket, in this order,
  -- and nowhere else.
  pub record Models (t : HashTable) (es : List Ent) : Type 0 where
    pub sized : 0 < t.size
    pub width : length t.table ≡ t.size
    pub chains :
        (i : ℕ) (j : Bytes)
        → select cmp cmp_iff j (bucket t i)
          ≡ (if hash_get_key_hash t j == i then select cmp cmp_iff j es else [])

  -- A new table of a positive size is empty.
  pub create-Models :
      (elems len : ℕ) (nocase : Bool) → 0 < elems → Models (create_hash_table elems len nocase) []
  unfolding create_hash_table select
  create-Models elems len nocase h = record {
    sized = h;
    width = length-replicate elems [];
    chains = λ i j. rw get_or-replicate (ground arith);
  }

  -- `hash_find` returns the newest entry under the key, and NULL if there is none.
  pub hash_find-Models :
      (t : HashTable) (es : List Ent) (k : Bytes)
      → Models t es
      → hash_find cmp t k ≡ find_in cmp k es
  unfolding hash_find
  hash_find-Models t es k m =
      rw
        (
          find_in-select cmp cmp_iff k (bucket t (hash_get_key_hash t k)),
          find_in-select cmp cmp_iff k es,
        )
        (ground (arith, m.chains (hash_get_key_hash t k) k))

  -- `hash_insert` adds the entry as the newest.
  pub hash_insert-Models :
      (t : HashTable) (es : List Ent) (e : Ent) → Models t es → Models (hash_insert t e) (e ∷ es)
  unfolding hash_insert select hash_get_key_hash
  hash_insert-Models t es e m =
      let h = hash_get_key_hash t e.key in
      let inside : h < length t.table = rw m.width (home-lt t e.key m.sized) in
      record {
        sized = m.sized;
        width = length-set t.table _ _ ∙ m.width;
        chains = λ i j.
            rw (get_or-set t.table h i (e ∷ bucket t h) [] inside)
              (ground (arith, m.chains i j, m.chains h j, same_key_iff cmp cmp_iff e.key j));
      }

  OnlyUnder-bucket :
      (t : HashTable) (es : List Ent) (p i : ℕ) (k : Bytes)
      → Models t es
      → OnlyUnder cmp cmp_iff p k es
      → OnlyUnder cmp cmp_iff p k (bucket t i)
  unfolding holds
  OnlyUnder-bucket t es p i k m only j h = ground (arith, only j h, m.chains i j)

  -- The home bucket of the key has the pointer exactly if the table has it.
  holds-bucket :
      (t : HashTable) (es : List Ent) (p : ℕ) (k : Bytes)
      → Models t es
      → OnlyUnder cmp cmp_iff p k es
      → holds p (bucket t (hash_get_key_hash t k)) ≡ holds p es
  holds-bucket t es p k m only =
      let h = hash_get_key_hash t k in
      ground (
        arith,
        holds-select cmp cmp_iff p k es only,
        holds-select cmp cmp_iff p k (bucket t h) (OnlyUnder-bucket t es p h k m only),
        m.chains h k,
      )

  remove-Models :
      (t : HashTable) (es : List Ent) (p : ℕ) (k : Bytes)
      → Models t es
      → OnlyUnder cmp cmp_iff p k es
      → let h = hash_get_key_hash t k in
        Models (record t { table = set t.table h (remove p (bucket t h)) }) (remove p es)
  unfolding hash_get_key_hash remove
  remove-Models t es p k m only =
      let h = hash_get_key_hash t k in
      let inside : h < length t.table = rw m.width (home-lt t k m.sized) in
      record {
        sized = m.sized;
        width = length-set t.table _ _ ∙ m.width;
        chains = λ i j. rw (get_or-set t.table h i (remove p (bucket t h)) [] inside) (
            ground (
              arith,
              m.chains i j,
              m.chains h j,
              select-remove cmp cmp_iff p k j es only,
              select-remove cmp cmp_iff p k j (bucket t h) (OnlyUnder-bucket t es p h k m only),
              same_key_iff cmp cmp_iff k j,
            ));
      }

  -- Where no entry under another key has the pointer: `hash_delete` takes the entry out, and tells
  -- whether it was there.
  pub hash_delete-Models :
      (t : HashTable) (es : List Ent) (e : Ent)
      → Models t es
      → OnlyUnder cmp cmp_iff e.at e.key es
      → ((hash_delete t e).0 ≡ holds e.at es) × Models (hash_delete t e).1 (remove e.at es)
  unfolding hash_delete
  hash_delete-Models t es e m only =
      let same = holds-bucket t es e.at e.key m only in
      elim (Bool-cases (holds e.at es)) [
        | inl found ↦ rw (same, found) (refl, remove-Models t es e.at e.key m only)
        | inr absent ↦ rw (same, absent) (refl, rw (remove-absent e.at es absent) m)
      ]
