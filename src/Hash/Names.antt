-- ===== src/Hash/Names.antt =====
-- The hash functions of src/hash.c stay inside of their tables, and names that mycmp holds equal
-- have the same hash.
use solidircd.Base.{ℕ, zero, suc, ◌*◌, ◌%◌, ◌<◌, ◌≡◌, refl, [], ◌∷◌, arith}
use solidircd.Base.Int.{pos}
use solidircd.Hash.{
  hash_name, hash_nick_name, hash_channel_name, hash_whowas_name, counted, u_max, ch_max, ww_max,
}
use solidircd.Match.Compare.{Bytes, IsText, mycmp, mycmp-lower, lower}
use solidircd.Match.Tables.{to_lower}

hash_name-lt :
    (initial : ℕ) (s : Bytes) (h h2 : ℕ) → 0 < initial → hash_name initial s h h2 < initial * 8
unfolding hash_name
hash_name-lt initial [] h h2 p = omega (arith, mod-lt h initial p)
  where
    mod-lt : (a b : ℕ) → 0 < b → a % b < b
    mod-lt a b p = omega arith
hash_name-lt initial (c ∷ s) h h2 p = hash_name-lt initial s _ _ p

-- Every hash is the index of a bucket of its table.
pub hashes-lt :
    (s : Bytes)
    → (hash_nick_name s < u_max) × (hash_channel_name s < ch_max) × (hash_whowas_name s < ww_max)
unfolding hash_nick_name hash_channel_name hash_whowas_name
hashes-lt s = (
  hash_name-lt 8192 s 0 0 (omega arith),
  hash_name-lt 2048 (counted 30 s) 0 0 (omega arith),
  hash_name-lt 16 s 0 0 (omega arith),
)

hash_name-lower :
    (initial : ℕ) (s t : Bytes) (h h2 : ℕ)
    → lower s ≡ lower t
    → hash_name initial s h h2 ≡ hash_name initial t h h2
unfolding hash_name
hash_name-lower initial [] [] h h2 e = refl
hash_name-lower initial [] (d ∷ t) h h2 e = cc
hash_name-lower initial (c ∷ s) [] h h2 e = cc
hash_name-lower initial (c ∷ s) (d ∷ t) h h2 e =
    let head : to_lower c ≡ to_lower d = cc in
    let tail : lower s ≡ lower t = cc in rw head (hash_name-lower initial s t _ _ tail)

counted-lower :
    (i : ℕ) (s t : Bytes) → lower s ≡ lower t → lower (counted i s) ≡ lower (counted i t)
unfolding counted
counted-lower i [] [] e = refl
counted-lower i [] (d ∷ t) e = cc
counted-lower i (c ∷ s) [] e = cc
counted-lower zero (c ∷ s) (d ∷ t) e = e
counted-lower (suc zero) (c ∷ s) (d ∷ t) e = refl
counted-lower (suc (suc i)) (c ∷ s) (d ∷ t) e =
    let head : to_lower c ≡ to_lower d = cc in
    let tail : lower s ≡ lower t = cc in rw (head, counted-lower (suc i) s t tail) refl

-- Two names that mycmp finds equal have the same hash as a nickname, as a channel and in the history.
pub hashes_agree :
    (s t : Bytes)
    → IsText s
    → IsText t
    → mycmp s t ≡ pos 0
    → (hash_nick_name s ≡ hash_nick_name t)
      × (hash_channel_name s ≡ hash_channel_name t)
      × (hash_whowas_name s ≡ hash_whowas_name t)
unfolding hash_nick_name hash_channel_name hash_whowas_name
hashes_agree s t hs ht e =
    let low = mycmp-lower s t hs ht e in
    (
      hash_name-lower 8192 s t 0 0 low,
      hash_name-lower 2048 (counted 30 s) (counted 30 t) 0 0 (counted-lower 30 s t low),
      hash_name-lower 16 s t 0 0 low,
    )
