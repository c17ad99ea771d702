-- ===== src/Match/Compare.antt =====
-- src/match.c: `mycmp`, `mycmp_diff` and `myncmp`. A C string is the list of the bytes before its
-- terminator; reading at the terminator gives 0.
use solidircd.Base.{
  ℕ, zero, suc, ◌+◌, ◌%◌, ◌<◌, ◌^◌, ◌≡◌, refl, ◌↔◌, Bool, true, false, List, [], ◌∷◌, map, arith,
  ◌==◌, ◌||◌, if◌then◌else◌, Option, none, some, take, ◌⊎◌,
}
use solidircd.Base.Int.{ℤ, pos, negsuc, sub_ℕ, neg}
use solidircd.Match.Tables.{to_upper, to_lower, to_upper_lem, fold_agree}

abbrev pub Bytes : Type 0
Bytes = List ℕ

-- `*str`
abbrev pub first : Bytes → ℕ
first [] = 0
first (c ∷ _) = c

abbrev pub rest : Bytes → Bytes
rest [] = []
rest (_ ∷ s) = s

-- A byte that can stand before the terminator; a string of such bytes.
abbrev pub IsByte : ℕ → Type 0
IsByte c = (0 < c) × (c < 256)

abbrev pub IsText : Bytes → Type 0
IsText [] = Unit
IsText (c ∷ s) = IsByte c × IsText s

-- `mycmp`: the loop runs while the folded bytes agree and ends at the terminator of `str1`.
unfoldable pub mycmp : Bytes → Bytes → ℤ
mycmp [] t = if to_upper 0 == to_upper (first t) then pos 0 else negsuc 0
mycmp (c ∷ s) t = if to_upper c == to_upper (first t) then mycmp s (rest t) else negsuc 0

-- `mycmp_diff`
unfoldable pub mycmp_diff : Bytes → Bytes → ℤ
mycmp_diff [] t = sub_ℕ (to_upper 0) (to_upper (first t))
mycmp_diff (c ∷ s) t =
    if to_upper c == to_upper (first t)
    then mycmp_diff s (rest t)
    else sub_ℕ (to_upper c) (to_upper (first t))

-- `*s1 == '\0' && *s2 == '\0'`
abbrev both_end : Bytes → Bytes → Bool
both_end [] [] = true
both_end _ _ = false

-- `n--` on a 32-bit `int`, by its bit pattern
abbrev dec32 : ℕ → ℕ
dec32 n = (n + 0xffff_ffff) % 0x1_0000_0000

-- `myncmp`; `none` is a read past a terminator, which the code does not test for on entry
unfoldable pub myncmp : Bytes → Bytes → ℕ → Option ℤ
myncmp [] t n =
    if to_upper 0 == to_upper (first t)
    then if dec32 n == 0 then some (pos 0) else none
    else some (negsuc 0)
myncmp (c ∷ s) t n =
    if to_upper c == to_upper (first t)
    then if dec32 n == 0 || both_end s (rest t) then some (pos 0) else myncmp s (rest t) (dec32 n)
    else some (negsuc 0)

to_upper-zero : to_upper 0 ≡ 0
unfolding to_upper
to_upper-zero = refl

-- Only the terminator folds to 0.
to_upper-pos : (c : ℕ) → IsByte c → 0 < to_upper c
to_upper-pos c h = ground (arith, to_upper_lem c h.1)

abbrev pub upper : Bytes → Bytes
upper = map to_upper

abbrev pub lower : Bytes → Bytes
lower = map to_lower

cons_inj : {a b : ℕ} {s t : Bytes} → a ∷ s ≡ b ∷ t → (a ≡ b) × (s ≡ t)
cons_inj e = (cc, cc)

mycmp_sound : (s t : Bytes) → IsText s → IsText t → mycmp s t ≡ pos 0 → upper s ≡ upper t
unfolding mycmp
mycmp_sound [] [] hs ht e = refl
mycmp_sound [] (d ∷ t) hs ht e = ground (arith, to_upper-zero, to_upper-pos d)
mycmp_sound (c ∷ s) [] hs ht e = ground (arith, to_upper-zero, to_upper-pos c)
mycmp_sound (c ∷ s) (d ∷ t) hs ht e = ground (arith, mycmp_sound s t)

mycmp_complete : (s t : Bytes) → upper s ≡ upper t → mycmp s t ≡ pos 0
unfolding mycmp
mycmp_complete [] [] e = ground arith
mycmp_complete [] (d ∷ t) e = ground arith
mycmp_complete (c ∷ s) [] e = ground arith
mycmp_complete (c ∷ s) (d ∷ t) e = ground (arith, mycmp_complete s t)

-- For two strings of bytes from 1 to 255, `mycmp` returns 0 exactly if the strings are equal once
-- every byte is folded to upper case.
pub mycmp_iff : (s t : Bytes) → IsText s → IsText t → (mycmp s t ≡ pos 0) ↔ (upper s ≡ upper t)
mycmp_iff s t hs ht = (mycmp_sound s t hs ht, mycmp_complete s t)

upper→lower : (s t : Bytes) → IsText s → IsText t → upper s ≡ upper t → lower s ≡ lower t
upper→lower [] [] hs ht e = refl
upper→lower [] (d ∷ t) hs ht e = ground arith
upper→lower (c ∷ s) [] hs ht e = ground arith
upper→lower (c ∷ s) (d ∷ t) hs ht e = ground (arith, fold_agree c d, upper→lower s t)

-- Strings that `mycmp` takes for equal agree in lower case too, which is how the hash functions fold.
pub mycmp-lower : (s t : Bytes) → IsText s → IsText t → mycmp s t ≡ pos 0 → lower s ≡ lower t
mycmp-lower s t hs ht e = upper→lower s t hs ht (mycmp_sound s t hs ht e)

mycmp_diff-zero : (s t : Bytes) → (mycmp_diff s t ≡ pos 0) ↔ (mycmp s t ≡ pos 0)
unfolding mycmp mycmp_diff
mycmp_diff-zero [] t = ground arith
mycmp_diff-zero (c ∷ s) t = ground (arith, mycmp_diff-zero s (rest t))

mycmp_diff-swap : (s t : Bytes) → IsText s → IsText t → mycmp_diff t s ≡ neg (mycmp_diff s t)
unfolding mycmp_diff
mycmp_diff-swap [] [] hs ht = ground arith
mycmp_diff-swap [] (d ∷ t) hs ht = ground (arith, to_upper-zero, to_upper-pos d)
mycmp_diff-swap (c ∷ s) [] hs ht = ground (arith, to_upper-zero, to_upper-pos c)
mycmp_diff-swap (c ∷ s) (d ∷ t) hs ht = ground (arith, mycmp_diff-swap s t)

-- For two strings of bytes from 1 to 255, `mycmp_diff` is 0 exactly where `mycmp` is, and
-- exchanging the strings changes its sign.
pub mycmp_diff-mycmp :
    (s t : Bytes)
    → IsText s
    → IsText t
    → ((mycmp_diff s t ≡ pos 0) ↔ (mycmp s t ≡ pos 0)) × (mycmp_diff t s ≡ neg (mycmp_diff s t))
mycmp_diff-mycmp s t hs ht = (mycmp_diff-zero s t, mycmp_diff-swap s t hs ht)

myncmp_sound :
    (s t : Bytes) (n : ℕ)
    → IsText s
    → IsText t
    → suc n < 0x1_0000_0000
    → both_end s t ≡ false
    → myncmp s t (suc n) ≡ some (pos 0)
    → take (suc n) (upper s) ≡ take (suc n) (upper t)
unfolding myncmp
myncmp_sound [] [] n hs ht b ne e = cc
myncmp_sound [] (d ∷ t) n hs ht b ne e = ground (arith, to_upper-zero, to_upper-pos d)
myncmp_sound (c ∷ s) [] n hs ht b ne e = ground (arith, to_upper-zero, to_upper-pos c)
myncmp_sound (c ∷ s) (d ∷ t) zero hs ht b ne e = ground arith
myncmp_sound (c ∷ []) (d ∷ []) (suc n) hs ht b ne e = ground arith
myncmp_sound (c ∷ s) (d ∷ t) (suc n) hs ht b ne e = ground (arith, myncmp_sound s t n)

myncmp_complete :
    (s t : Bytes) (n : ℕ)
    → suc n < 0x1_0000_0000
    → both_end s t ≡ false
    → take (suc n) (upper s) ≡ take (suc n) (upper t)
    → myncmp s t (suc n) ≡ some (pos 0)
unfolding myncmp
myncmp_complete [] [] n b ne e = cc
myncmp_complete [] (d ∷ t) n b ne e = ground arith
myncmp_complete (c ∷ s) [] n b ne e = ground arith
myncmp_complete (c ∷ s) (d ∷ t) zero b ne e = ground arith
myncmp_complete (c ∷ []) (d ∷ []) (suc n) b ne e = ground arith
myncmp_complete (c ∷ s) (d ∷ t) (suc n) b ne e = ground (arith, myncmp_complete s t n)

myncmp_ends :
    (s t : Bytes) (n : ℕ)
    → IsText s
    → IsText t
    → both_end s t ≡ false
    → (myncmp s t n ≡ some (pos 0)) ⊎ (myncmp s t n ≡ some (negsuc 0))
unfolding myncmp
myncmp_ends [] [] n hs ht ne = cc
myncmp_ends [] (d ∷ t) n hs ht ne = ground (arith, to_upper-zero, to_upper-pos d)
myncmp_ends (c ∷ s) [] n hs ht ne = ground (arith, to_upper-zero, to_upper-pos c)
myncmp_ends (c ∷ []) (d ∷ []) n hs ht ne = ground arith
myncmp_ends (c ∷ s) (d ∷ t) n hs ht ne = ground (arith, myncmp_ends s t (dec32 n))

-- For two strings of bytes from 1 to 255 that are not both empty, and a positive `int` bound:
-- `myncmp` returns 0 or -1 without reading past a terminator, and it returns 0 exactly if the
-- first `n` bytes agree once folded to upper case.
pub myncmp_iff :
    (s t : Bytes) (n : ℕ)
    → IsText s
    → IsText t
    → 0 < n
    → n < 2 ^ 31
    → both_end s t ≡ false
    → ((myncmp s t n ≡ some (pos 0)) ⊎ (myncmp s t n ≡ some (negsuc 0)))
      × ((myncmp s t n ≡ some (pos 0)) ↔ (take n (upper s) ≡ take n (upper t)))
myncmp_iff s t zero hs ht p b ne = absurd (omega arith)
myncmp_iff s t (suc n) hs ht p b ne = (
  myncmp_ends s t (suc n) hs ht ne,
  (myncmp_sound s t n hs ht (omega arith) ne, myncmp_complete s t n (omega arith) ne),
)
