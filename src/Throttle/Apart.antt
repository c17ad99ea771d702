-- ===== src/Throttle/Apart.antt =====
-- Entries of the throttle table of src/throttle.c: no two share a pointer or a key.
use solidircd.Base.{
  ℕ, ◌≡◌, refl, true, false, List, [], ◌∷◌, none, some, arith, Bool-cases, inl, inr,
}
use solidircd.Base.Int.{ℤ}
use solidircd.HashTable.{Ent, find_in, holds, remove}
use solidircd.HashTable.Chain.{Compares, same_key, same_key_iff, select, OnlyUnder}
use solidircd.HashTable.Resize.{AtMostOnce}
use solidircd.Match.Compare.{Bytes}

module _ (cmp : Bytes → Bytes → ℤ) (cmp_iff : Compares cmp) where
  abbrev pub IsApart : List Ent → Type 0
  IsApart [] = Unit
  IsApart (e ∷ es) = (holds e.at es ≡ false) × (find_in cmp e.key es ≡ none) × IsApart es

  select-absent :
      (j : Bytes) (es : List Ent) → find_in cmp j es ≡ none → select cmp cmp_iff j es ≡ []
  unfolding find_in select
  select-absent j [] h = refl
  select-absent j (e ∷ es) h = ground (arith, select-absent j es)

  find_in_same : (a b : Bytes) (es : List Ent) → a ≡ b → find_in cmp a es ≡ find_in cmp b es
  find_in_same a b es e = rw e

  pub IsApart-AtMostOnce : (es : List Ent) → IsApart es → AtMostOnce cmp cmp_iff es
  unfolding select
  IsApart-AtMostOnce [] h j = omega arith
  IsApart-AtMostOnce (e ∷ es) h j = ground (
    arith,
    IsApart-AtMostOnce es h.2 j,
    select-absent j es,
    find_in_same e.key j es,
    same_key_iff cmp cmp_iff e.key j,
  )

  pub find_in-key : (k : Bytes) (es : List Ent) (e : Ent) → find_in cmp k es ≡ some e → e.key ≡ k
  unfolding find_in
  find_in-key k [] e h = cc
  find_in-key k (x ∷ es) e h = ground (arith, find_in-key k es e, same_key_iff cmp cmp_iff x.key k)

  pub find_in-holds :
      (k : Bytes) (es : List Ent) (e : Ent) → find_in cmp k es ≡ some e → holds e.at es ≡ true
  unfolding find_in holds
  find_in-holds k [] e h = cc
  find_in-holds k (x ∷ es) e h = ground (arith, find_in-holds k es e)

  select-free :
      (p : ℕ) (j : Bytes) (es : List Ent)
      → holds p es ≡ false
      → holds p (select cmp cmp_iff j es) ≡ false
  unfolding holds select
  select-free p j [] h = refl
  select-free p j (e ∷ es) h = ground (arith, select-free p j es)

  -- The pointer that a search by key returns stands under that key only.
  pub IsApart-OnlyUnder :
      (k : Bytes) (es : List Ent) (e : Ent)
      → IsApart es
      → find_in cmp k es ≡ some e
      → OnlyUnder cmp cmp_iff e.at k es
  unfolding find_in select holds
  IsApart-OnlyUnder k [] e apart h j other = cc
  IsApart-OnlyUnder k (x ∷ es) e apart h j other =
      elim (Bool-cases (same_key cmp cmp_iff x.key k)) [
        | inl same ↦ ground (
          arith,
          same_key_iff cmp cmp_iff x.key k,
          same_key_iff cmp cmp_iff x.key j,
          same_key_iff cmp cmp_iff k j,
          select-free e.at j es,
        )
        | inr differs ↦
            ground
              (arith, IsApart-OnlyUnder k es e apart.2 (ground arith) j other, find_in-holds k es e)
      ]

  -- Taking an entry out keeps the others apart, and hides the key of this one only.
  holds-remove : (p q : ℕ) (es : List Ent) → holds p es ≡ false → holds p (remove q es) ≡ false
  unfolding holds remove
  holds-remove p q [] h = refl
  holds-remove p q (e ∷ es) h = ground (arith, holds-remove p q es)

  find_in-remove-none :
      (q : ℕ) (k : Bytes) (es : List Ent)
      → find_in cmp k es ≡ none
      → find_in cmp k (remove q es) ≡ none
  unfolding find_in remove
  find_in-remove-none q k [] h = refl
  find_in-remove-none q k (e ∷ es) h = ground (arith, find_in-remove-none q k es)

  pub remove-IsApart : (q : ℕ) (es : List Ent) → IsApart es → IsApart (remove q es)
  unfolding remove
  remove-IsApart q [] h = tt
  remove-IsApart q (e ∷ es) h = ground (
    arith,
    remove-IsApart q es h.2,
    holds-remove e.at q es h.0,
    find_in-remove-none q e.key es h.1,
  )
