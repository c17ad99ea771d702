-- ===== src/HashTable/Chain.antt =====
-- One chain of the hash table of src/throttle.c, read key by key.
use mathlib.Core.List.{reverse_aux, head?}
use solidircd.Base.{
  ℕ, ◌≡◌, ◌↔◌, refl, Bool, true, false, List, [], ◌∷◌, ◌++◌, arith, ◌==◌, if◌then◌else◌, Bool-cases,
  inl, inr,
}
use solidircd.Base.Int.{ℤ, pos}
use solidircd.HashTable.{Ent, is_zero, holds, remove, find_in}
use solidircd.Match.Compare.{Bytes}

-- What the table relies on of `cmpfunc`: 0 means equal keys.
abbrev pub Compares : (Bytes → Bytes → ℤ) → Type 0
Compares cmp = (a b : Bytes) → (cmp a b ≡ pos 0) ↔ (a ≡ b)

module _ (cmp : Bytes → Bytes → ℤ) (cmp_iff : Compares cmp) where
  abbrev pub same_key : Bytes → Bytes → Bool
  same_key a b = is_zero (cmp a b)

  pub same_key_iff : (a b : Bytes) → (same_key a b ≡ true) ↔ (a ≡ b)
  same_key_iff a b = ground (arith, cmp_iff a b)

  -- The entries under one key, in the order of the chain.
  unfoldable pub select : Bytes → List Ent → List Ent
  select j [] = []
  select j (e ∷ c) = if same_key e.key j then e ∷ select j c else select j c

  pub find_in-select : (j : Bytes) (c : List Ent) → find_in cmp j c ≡ head? (select j c)
  unfolding find_in select
  find_in-select j [] = refl
  find_in-select j (e ∷ c) = ground (arith, find_in-select j c)

  -- No entry of a chain under another key than `k` has the pointer `p`.
  abbrev pub OnlyUnder : ℕ → Bytes → List Ent → Type 0
  OnlyUnder p k c = (j : Bytes) → same_key k j ≡ false → holds p (select j c) ≡ false

  OnlyUnder-tail :
      (p : ℕ) (k : Bytes) (e : Ent) (c : List Ent) → OnlyUnder p k (e ∷ c) → OnlyUnder p k c
  unfolding select holds
  OnlyUnder-tail p k e c only j h = ground (arith, only j)

  -- The head of such a chain has the key `k` if it has the pointer `p`.
  OnlyUnder-head :
      (p : ℕ) (k : Bytes) (e : Ent) (c : List Ent)
      → OnlyUnder p k (e ∷ c)
      → (e.at == p) ≡ true
      → e.key ≡ k
  unfolding select holds
  OnlyUnder-head p k e c only h =
      ground (arith, only e.key, same_key_iff e.key e.key, same_key_iff k e.key)

  pub holds-select :
      (p : ℕ) (k : Bytes) (c : List Ent) → OnlyUnder p k c → holds p c ≡ holds p (select k c)
  unfolding holds select
  holds-select p k [] only = refl
  holds-select p k (e ∷ c) only = ground (
    arith,
    OnlyUnder-head p k e c only,
    holds-select p k c (OnlyUnder-tail p k e c only),
    same_key_iff e.key k,
  )

  pub select-remove :
      (p : ℕ) (k j : Bytes) (c : List Ent)
      → OnlyUnder p k c
      → select j (remove p c) ≡ (if same_key k j then remove p (select j c) else select j c)
  unfolding select remove
  select-remove p k j [] only = ground arith
  select-remove p k j (e ∷ c) only = ground (
    arith,
    OnlyUnder-head p k e c only,
    select-remove p k j c (OnlyUnder-tail p k e c only),
    same_key_iff e.key j,
    same_key_iff k j,
  )

  pub select-append : (j : Bytes) (c d : List Ent) → select j (c ++ d) ≡ select j c ++ select j d
  unfolding select
  select-append j [] d = refl
  select-append j (e ∷ c) d = ground (arith, select-append j c d)

  pub select-reverse_aux :
      (j : Bytes) (c d : List Ent)
      → select j (reverse_aux c d) ≡ reverse_aux (select j c) (select j d)
  unfolding select
  select-reverse_aux j [] d = refl
  select-reverse_aux j (e ∷ c) d = elim (Bool-cases (same_key e.key j)) [
    | inl same ↦ rw (select-reverse_aux j c (e ∷ d), select, same)
    | inr other ↦ rw (select-reverse_aux j c (e ∷ d), select, other)
  ]
