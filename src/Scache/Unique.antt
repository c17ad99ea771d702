-- ===== src/Scache/Unique.antt =====
-- The server name cache of src/scache.c has one entry for each name, up to case.
use Prim.Native.Nat.{bit_and}
use solidircd.Base.{
  ℕ, zero, suc, ◌+◌, ◌%◌, ◌<◌, ◌≡◌, refl, sym, ap, ◌∙◌, true, List, [], ◌∷◌, ◌==◌, ==_iff, none,
  some, length, length-set, length-replicate, get_or-set, get_or-replicate, set, take, arith,
  Option-cases, Bool-cases, subst, inl, inr,
}
use solidircd.Base.Int.{ℤ, pos, negsuc}
use solidircd.HashTable.{is_zero}
use solidircd.Match.Compare.{Bytes, IsText, mycmp, mycmp_iff, upper}
use solidircd.Match.Tables.{to_upper, entries, entry}
use solidircd.Scache.{
  clear_scache_hash_table, sum_bytes, hash, chain, find_name, stored, find_or_add, hostlen,
  scache_hash_size,
}

mask_table : entries (λ c. bit_and (to_upper c) 0xdf == bit_and c 0xdf) 256 ≡ true
unfolding entries to_upper
mask_table = refl

-- Folding a byte moves no bit that the hash looks at.
mask_upper : (c : ℕ) → c < 256 → bit_and (to_upper c) 0xdf ≡ bit_and c 0xdf
mask_upper c h = (==_iff _ _).0 (entry _ 256 h mask_table)

sum_bytes-upper : (s : Bytes) (n : ℕ) → IsText s → sum_bytes (upper s) n ≡ sum_bytes s n
unfolding sum_bytes
sum_bytes-upper [] n h = refl
sum_bytes-upper (c ∷ s) n h =
    rw (mask_upper c h.0.1, sum_bytes) (sum_bytes-upper s (n + bit_and c 0xdf) h.1)

pub hash-upper : (s t : Bytes) → IsText s → IsText t → upper s ≡ upper t → hash s ≡ hash t
unfolding hash
hash-upper s t hs ht e =
    ap (λ v. v % scache_hash_size)
      (sym (sum_bytes-upper s 0 hs) ∙ ap (λ r. sum_bytes r 0) e ∙ sum_bytes-upper t 0 ht)

zero_is : (z : ℤ) → (is_zero z ≡ true → z ≡ pos 0) × (z ≡ pos 0 → is_zero z ≡ true)
zero_is (pos zero) = (λ h. refl, λ h. refl)
zero_is (pos (suc n)) = (λ h. cc, λ h. cc)
zero_is (negsuc n) = (λ h. cc, λ h. cc)

pub same_iff :
    (s t : Bytes)
    → IsText s
    → IsText t
    → (is_zero (mycmp s t) ≡ true → upper s ≡ upper t)
      × (upper s ≡ upper t → is_zero (mycmp s t) ≡ true)
same_iff s t hs ht = (
  λ h. (mycmp_iff s t hs ht).0 ((zero_is (mycmp s t)).0 h),
  λ h. (zero_is (mycmp s t)).1 ((mycmp_iff s t hs ht).1 h),
)

-- The names of a chain are texts with its hash, no two of them equal up to case.
pub IsChain : ℕ → List Bytes → Type 0
IsChain i [] = Unit
IsChain i (e ∷ l) = IsText e × (hash e ≡ i) × (find_name e l ≡ none) × IsChain i l

pub record IsValid (cache : List (List Bytes)) : Type 0 where
  pub size : length cache ≡ scache_hash_size
  pub chains : (i : ℕ) → IsChain i (chain cache i)

find_name_sound :
    (name e : Bytes) (i : ℕ) (l : List Bytes)
    → IsText name
    → IsChain i l
    → find_name name l ≡ some e
    → IsText e × (upper e ≡ upper name)
unfolding find_name IsChain
find_name_sound name e i [] text c h = cc
find_name_sound name e i (x ∷ l) text c h =
    ground (arith, find_name_sound name e i l text c.3, same_iff x name c.0 text)

-- Names equal up to case find the same entry.
pub find_name-same :
    (s t : Bytes) (i : ℕ) (l : List Bytes)
    → IsText s
    → IsText t
    → IsChain i l
    → upper s ≡ upper t
    → find_name s l ≡ find_name t l
unfolding find_name IsChain
find_name-same s t i [] hs ht c e = refl
find_name-same s t i (x ∷ l) hs ht c e =
    ground (arith, find_name-same s t i l hs ht c.3 e, same_iff x s c.0 hs, same_iff x t c.0 ht)

pub take-all : (n : ℕ) (s : Bytes) → length s < n + 1 → take n s ≡ s
take-all zero [] h = refl
take-all zero (c ∷ s) h = absurd (omega arith)
take-all (suc n) [] h = refl
take-all (suc n) (c ∷ s) h = ap (λ r. c ∷ r) (take-all n s (omega arith))

-- The empty cache is valid.
pub clear-IsValid : IsValid clear_scache_hash_table
unfolding clear_scache_hash_table IsChain
clear-IsValid = record {
  size = length-replicate {A = List Bytes} scache_hash_size [];
  chains = λ i. rw (get_or-replicate {A = List Bytes} scache_hash_size i []) tt;
}

pub hash-lt : (s : Bytes) → hash s < scache_hash_size
unfolding hash
hash-lt s = omega arith

-- A new name in front of its chain.
add-IsValid :
    (cache : List (List Bytes)) (name : Bytes)
    → IsValid cache
    → IsText name
    → find_name name (chain cache (hash name)) ≡ none
    → IsValid (set cache (hash name) (name ∷ chain cache (hash name)))
unfolding IsChain
add-IsValid cache name v text new =
    let i = hash name in
    let inside : i < length cache = omega (arith, v.size, hash-lt name) in
    record {
      size = length-set cache i (name ∷ chain cache i) ∙ v.size;
      chains = λ j. elim (Bool-cases (i == j)) [
        | inl e ↦
            let same : i ≡ j = (==_iff i j).0 e in
            rw (get_or-set cache i j (name ∷ chain cache i) [] inside, e)
              (text, same, new, subst (λ k. IsChain k (chain cache i)) same (v.chains i))
        | inr e ↦ rw (get_or-set cache i j (name ∷ chain cache i) [] inside, e) (v.chains j)
      ];
    }

found :
    (s t : Bytes) (l : List Bytes)
    → IsText s
    → IsText t
    → upper s ≡ upper t
    → find_name s (t ∷ l) ≡ some t
unfolding find_name
found s t l hs ht e = rw ((same_iff t s ht hs).1 (sym e)) refl

pub find_or_add-new :
    (name : Bytes) (cache : List (List Bytes))
    → find_name name (chain cache (hash name)) ≡ none
    → find_or_add name cache
      ≡ (stored name, set cache (hash name) (stored name ∷ chain cache (hash name)))
unfolding find_or_add
find_or_add-new name cache e = rw (e, find_or_add) refl

pub find_or_add-old :
    (name e : Bytes) (cache : List (List Bytes))
    → find_name name (chain cache (hash name)) ≡ some e
    → find_or_add name cache ≡ (e, cache)
unfolding find_or_add
find_or_add-old name x cache e = rw (e, find_or_add) refl

-- On a cache with one entry for each name up to case, and a text shorter than HOSTLEN:
-- find_or_add leaves such a cache, and returns an entry equal to the name up to case, which the
-- search then finds.
pub find_or_add-IsValid :
    (cache : List (List Bytes)) (name : Bytes)
    → IsValid cache
    → IsText name
    → length name < hostlen
    → IsValid (find_or_add name cache).1
      × (upper (find_or_add name cache).0 ≡ upper name)
      × (find_name name (chain (find_or_add name cache).1 (hash name))
          ≡ some (find_or_add name cache).0)
find_or_add-IsValid cache name v text short =
    let i = hash name in
    let c = chain cache i in
    let whole : stored name ≡ name = take-all 62 name (omega arith) in
    elim (Option-cases (find_name name c)) [
      | inl e ↦
          let inside : i < length cache = omega (arith, v.size, hash-lt name) in
          let cache' = set cache i (name ∷ c) in
          let front : chain cache' i ≡ name ∷ c =
            get_or-set cache i i (name ∷ c) [] inside ∙ ground arith in
          let made : find_or_add name cache ≡ (name, cache') =
            find_or_add-new name cache e ∙ ap (λ (s : Bytes). (s, set cache i (s ∷ c))) whole in
          rw made (
            add-IsValid cache name v text e,
            refl,
            ap (find_name name) front ∙ found name name c text text refl,
          )
      | inr (x, e) ↦
          rw (find_or_add-old name x cache e)
            (v, (find_name_sound name x i c text (v.chains i) e).1, e)
    ]
