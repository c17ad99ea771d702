-- ===== src/Parse/Order.antt =====
-- The order of the names in the table of src/parse.c, and their prefixes.
use solidircd.Base.{
  ℕ, zero, suc, ◌≤◌, ◌<◌, ◌≡◌, refl, Bool, true, false, [], ◌∷◌, ◌++◌, ◌==◌, ltb, ◌&&◌, ◌||◌,
  if◌then◌else◌, arith, length, drop,
}
use solidircd.Match.Compare.{Bytes, first}
use solidircd.Match.Tables.{to_upper, to_upper_lem}
use solidircd.Parse.Tree.{starts, fold}

-- The order of strcmp
unfoldable pub less : Bytes → Bytes → Bool
less [] [] = false
less [] (d ∷ t) = true
less (c ∷ s) [] = false
less (c ∷ s) (d ∷ t) = if c == d then less s t else ltb c d

-- The letters from A to Z
unfoldable pub IsCaps : Bytes → Type 0
IsCaps [] = Unit
IsCaps (c ∷ s) = ((b'A' ≤ c) × (c ≤ b'Z')) × IsCaps s

pub less-irreflexive : (s : Bytes) → less s s ≡ false
unfolding less
less-irreflexive [] = refl
less-irreflexive (c ∷ s) = ground (arith, less-irreflexive s)

-- Behind the names with a prefix there is none.
pub starts-convex :
    (p a b x : Bytes)
    → starts p a ≡ true
    → starts p b ≡ false
    → less a b ≡ true
    → less b x ≡ true
    → starts p x ≡ false
unfolding starts less
starts-convex [] a b x ha hb ab bx = absurd (ground arith)
starts-convex (c ∷ p) [] b x ha hb ab bx = absurd (ground arith)
starts-convex (c ∷ p) (d ∷ a) [] x ha hb ab bx = absurd (ground arith)
starts-convex (c ∷ p) (d ∷ a) (e ∷ b) [] ha hb ab bx = refl
starts-convex (c ∷ p) (d ∷ a) (e ∷ b) (f ∷ x) ha hb ab bx = ground (arith, starts-convex p a b x)

-- Names with a prefix stand by the letter behind it.
pub starts-first :
    (p a b : Bytes)
    → starts p a ≡ true
    → starts p b ≡ true
    → less a b ≡ true
    → first (drop (length p) a) ≤ first (drop (length p) b)
unfolding starts less
starts-first [] [] b ha hb ab = omega arith
starts-first [] (d ∷ a) [] ha hb ab = absurd (ground arith)
starts-first [] (d ∷ a) (e ∷ b) ha hb ab = ground arith
starts-first (c ∷ p) [] b ha hb ab = absurd (ground arith)
starts-first (c ∷ p) (d ∷ a) [] ha hb ab = absurd (ground arith)
starts-first (c ∷ p) (d ∷ a) (e ∷ b) ha hb ab = ground (arith, starts-first p a b)

pub starts-snoc :
    (p : Bytes) (c : ℕ) (a : Bytes)
    → 0 < c
    → starts (p ++ c ∷ []) a ≡ (starts p a && (first (drop (length p) a) == c))
unfolding starts
starts-snoc [] c [] h = ground arith
starts-snoc [] c (d ∷ a) h = ground arith
starts-snoc (e ∷ p) c [] h = refl
starts-snoc (e ∷ p) c (d ∷ a) h = ground (arith, starts-snoc p c a h)

drop-nil : (n : ℕ) → drop {A = ℕ} n [] ≡ []
drop-nil zero = refl
drop-nil (suc n) = refl

pub drop-snoc :
    (p : Bytes) (c : ℕ) (a : Bytes) → drop (length (p ++ c ∷ [])) a ≡ drop 1 (drop (length p) a)
drop-snoc [] c a = refl
drop-snoc (e ∷ p) c [] = refl
drop-snoc (e ∷ p) c (d ∷ a) = drop-snoc p c a

pub drop-IsCaps : (n : ℕ) (a : Bytes) → IsCaps a → IsCaps (drop n a)
unfolding IsCaps
drop-IsCaps zero a h = h
drop-IsCaps (suc n) [] h = h
drop-IsCaps (suc n) (c ∷ a) h = drop-IsCaps n a h.1

-- A name that is its prefix
pub starts-whole : (p a : Bytes) → starts p a ≡ true → drop (length p) a ≡ [] → a ≡ p
unfolding starts
starts-whole [] a h e = e
starts-whole (c ∷ p) [] h e = absurd (ground arith)
starts-whole (c ∷ p) (d ∷ a) h e = ground (arith, starts-whole p a)

pub fold_upper :
    (c d : ℕ) → b'A' ≤ c → c ≤ b'Z' → d < 256 → (to_upper c == to_upper d) ≡ (fold d == c)
unfolding fold
fold_upper c d low high byte = ground (arith, to_upper_lem c (omega arith), to_upper_lem d byte)

pub fold_inside :
    (c d : ℕ)
    → b'A' ≤ c
    → c ≤ b'Z'
    → d < 256
    → fold d ≡ c
    → (ltb (fold d) b'A' || ltb b'Z' (fold d)) ≡ false
fold_inside c d low high byte e = ground arith
