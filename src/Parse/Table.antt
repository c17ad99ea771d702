-- ===== src/Parse/Table.antt =====
-- Sorted tables of commands, for the tree of src/parse.c: the names with a prefix stand together.
use solidircd.Base.{
  ℕ, ◌+◌, ◌≤◌, ◌<◌, ◌≡◌, ◌≢◌, refl, ◌∙◌, inl, inr, true, false, List, [], ◌∷◌, ◌++◌, ◌&&◌,
  if◌then◌else◌, Option, none, some, arith, length, drop, Bool-cases,
}
use solidircd.HashTable.{is_zero}
use solidircd.Match.Compare.{Bytes, first, mycmp}
use solidircd.Parse.Order.{less, IsCaps, starts-convex, starts-first, starts-snoc, drop-IsCaps}
use solidircd.Parse.Tree.{Message, starts}

-- Every name of the table is behind this one.
unfoldable pub AllBehind : Bytes → List Message → Type 0
AllBehind a [] = Unit
AllBehind a (m ∷ ms) = (less a m.cmd ≡ true) × AllBehind a ms

unfoldable pub AllShort : ℕ → List Message → Type 0
AllShort n [] = Unit
AllShort n (m ∷ ms) = (length m.cmd < n) × AllShort n ms

-- A table in the order of its names, which are of capital letters
unfoldable pub IsSorted : List Message → Type 0
unfolding AllBehind
IsSorted [] = Unit
IsSorted (m ∷ ms) = IsCaps m.cmd × AllBehind m.cmd ms × IsSorted ms

-- The first entry with the prefix whose rest is the text, up to case
unfoldable pub find_under : Bytes → Bytes → List Message → Option Message
find_under p s [] = none
find_under p s (m ∷ ms) =
    if starts p m.cmd && is_zero (mycmp (drop (length p) m.cmd) s)
    then some m
    else find_under p s ms

-- The table from the first name without the prefix on
unfoldable pub outside : Bytes → List Message → List Message
outside p [] = []
outside p (m ∷ ms) = if starts p m.cmd then outside p ms else m ∷ ms

-- The next letter of the names with the prefix is this one or a later one.
unfoldable pub Over : ℕ → Bytes → List Message → Type 0
Over c p [] = Unit
Over c p (m ∷ ms) = (starts p m.cmd ≡ true → c ≤ first (drop (length p) m.cmd)) × Over c p ms

-- No name has the prefix.
unfoldable pub AllOutside : Bytes → List Message → Type 0
AllOutside p [] = Unit
AllOutside p (m ∷ ms) = (starts p m.cmd ≡ false) × AllOutside p ms

pub behind-AllOutside :
    (p a b : Bytes) (ms : List Message)
    → starts p a ≡ true
    → starts p b ≡ false
    → less a b ≡ true
    → AllBehind b ms
    → AllOutside p ms
unfolding AllOutside AllBehind
behind-AllOutside p a b [] ha hb ab all = tt
behind-AllOutside p a b (m ∷ ms) ha hb ab all =
    (starts-convex p a b m.cmd ha hb ab all.0, behind-AllOutside p a b ms ha hb ab all.1)

pub outside-AllOutside :
    (p a : Bytes) (ms : List Message)
    → starts p a ≡ true
    → AllBehind a ms
    → IsSorted ms
    → AllOutside p (outside p ms)
unfolding AllOutside AllBehind IsSorted outside
outside-AllOutside p a [] ha behind sorted = tt
outside-AllOutside p a (m ∷ ms) ha behind sorted = elim (Bool-cases (starts p m.cmd)) [
  | inl e ↦ rw e (outside-AllOutside p a ms ha behind.1 sorted.2)
  | inr e ↦ rw e (e, behind-AllOutside p a m.cmd ms ha e behind.0 sorted.1)
]

pub AllOutside-none : (p s : Bytes) (ms : List Message) → AllOutside p ms → find_under p s ms ≡ none
unfolding find_under AllOutside
AllOutside-none p s [] h = refl
AllOutside-none p s (m ∷ ms) h = rw h.0 (AllOutside-none p s ms h.1)

pub AllOutside-snoc :
    (p : Bytes) (c : ℕ) (ms : List Message) → 0 < c → AllOutside p ms → AllOutside (p ++ c ∷ []) ms
unfolding AllOutside
AllOutside-snoc p c [] hc h = tt
AllOutside-snoc p c (m ∷ ms) hc h =
    (starts-snoc p c m.cmd hc ∙ ground arith, AllOutside-snoc p c ms hc h.1)

pub Over-AllOutside :
    (c : ℕ) (p : Bytes) (ms : List Message)
    → 0 < c
    → Over (c + 1) p ms
    → AllOutside (p ++ c ∷ []) ms
unfolding AllOutside Over
Over-AllOutside c p [] hc h = tt
Over-AllOutside c p (m ∷ ms) hc h =
    (starts-snoc p c m.cmd hc ∙ ground (arith, h.0), Over-AllOutside c p ms hc h.1)

-- The names under one letter have no part in the search under another.
pub find_under-other :
    (p s : Bytes) (c r : ℕ) (ms : List Message)
    → 0 < c
    → 0 < r
    → c ≢ r
    → find_under (p ++ r ∷ []) s ms ≡ find_under (p ++ r ∷ []) s (outside (p ++ c ∷ []) ms)
unfolding find_under outside
find_under-other p s c r [] hc hr d = refl
find_under-other p s c r (m ∷ ms) hc hr d = elim (Bool-cases (starts (p ++ c ∷ []) m.cmd)) [
  | inl e ↦
      let apart : starts (p ++ r ∷ []) m.cmd ≡ false =
        ground (arith, starts-snoc p c m.cmd hc, starts-snoc p r m.cmd hr) in
      rw (e, apart) (find_under-other p s c r ms hc hr d)
  | inr e ↦ rw e refl
]

pub outside-outside :
    (p : Bytes) (c : ℕ) (ms : List Message)
    → 0 < c
    → outside p ms ≡ outside p (outside (p ++ c ∷ []) ms)
unfolding outside
outside-outside p c [] h = refl
outside-outside p c (m ∷ ms) h = elim (Bool-cases (starts (p ++ c ∷ []) m.cmd)) [
  | inl e ↦
      let under : starts p m.cmd ≡ true = ground (arith, starts-snoc p c m.cmd h) in
      rw (e, under) (outside-outside p c ms h)
  | inr e ↦ rw e refl
]

pub outside-IsSorted : (p : Bytes) (ms : List Message) → IsSorted ms → IsSorted (outside p ms)
unfolding IsSorted outside
outside-IsSorted p [] h = h
outside-IsSorted p (m ∷ ms) h = elim (Bool-cases (starts p m.cmd)) [
  | inl e ↦ rw e (outside-IsSorted p ms h.2)
  | inr e ↦ rw e h
]

pub outside-AllShort :
    (n : ℕ) (p : Bytes) (ms : List Message) → AllShort n ms → AllShort n (outside p ms)
unfolding AllShort outside
outside-AllShort n p [] h = h
outside-AllShort n p (m ∷ ms) h = elim (Bool-cases (starts p m.cmd)) [
  | inl e ↦ rw e (outside-AllShort n p ms h.1)
  | inr e ↦ rw e h
]

pub outside-Over : (c : ℕ) (q p : Bytes) (ms : List Message) → Over c p ms → Over c p (outside q ms)
unfolding Over outside
outside-Over c q p [] h = h
outside-Over c q p (m ∷ ms) h = elim (Bool-cases (starts q m.cmd)) [
  | inl e ↦ rw e (outside-Over c q p ms h.1)
  | inr e ↦ rw e h
]

-- Behind a name with the prefix the letters are its own or later ones.
pub AllBehind-Over :
    (p a : Bytes) (c : ℕ) (ms : List Message)
    → starts p a ≡ true
    → c ≤ first (drop (length p) a)
    → AllBehind a ms
    → Over c p ms
unfolding AllBehind Over
AllBehind-Over p a c [] ha low behind = tt
AllBehind-Over p a c (m ∷ ms) ha low behind = (
  λ h. let step = starts-first p a m.cmd ha h behind.0 in omega arith,
  AllBehind-Over p a c ms ha low behind.1,
)

-- What is left when the names of a letter are gone begins with another name.
pub outside-head :
    (p : Bytes) (ms ns : List Message) (x : Message)
    → outside p ms ≡ x ∷ ns
    → starts p x.cmd ≡ false
unfolding outside
outside-head p [] ns x e = cc
outside-head p (m ∷ ms) ns x e = elim (Bool-cases (starts p m.cmd)) [
  | inl h ↦ outside-head p ms ns x (rw h at e)
  | inr h ↦ ground arith
]

first-IsCaps : (a : Bytes) → IsCaps a → first a ≤ b'Z'
unfolding IsCaps
first-IsCaps [] h = omega arith
first-IsCaps (c ∷ a) h = h.0.1

pub letter-IsCaps : (n : ℕ) (a : Bytes) → IsCaps a → first (drop n a) ≤ b'Z'
letter-IsCaps n a h = first-IsCaps (drop n a) (drop-IsCaps n a h)

pub starts-length : (p a : Bytes) → starts p a ≡ true → length p ≤ length a
unfolding starts
starts-length [] a h = omega arith
starts-length (c ∷ p) [] h = absurd (ground arith)
starts-length (c ∷ p) (d ∷ a) h = ground (arith, starts-length p a)
