-- ===== src/Match/Budget.antt =====
-- The counter of calls in `_match` of src/match.c, and the masks on which its shortcuts do nothing.
use solidircd.Base.{
  ℕ, zero, suc, ◌+◌, ◌≤◌, ◌≡◌, refl, Bool, false, [], ◌∷◌, arith, ◌==◌, ◌&&◌, ◌||◌, some, inl, inr,
  Bool-cases, Option-cases,
}
use solidircd.Match.Compare.{Bytes}
use solidircd.Match.Glob.{
  Matcher, shortcut, enter, scan, after_star, one_byte, walk, eat_marks, drop_stars,
}

-- The counter only grows.
abbrev pub Grows : Matcher → Type 0
Grows m = (w s : Bytes) (calls r calls' : ℕ) → m w s calls ≡ some (r, calls') → calls ≤ calls'

pub enter-Grows : (go : Matcher) → Grows go → Grows (enter go)
unfolding enter
enter-Grows go grows w s calls r calls' e = elim (Option-cases (shortcut b'!' w s)) [
  | inl q ↦ ground arith
  | inr ((w₁, s₁), q) ↦ elim (Option-cases (shortcut b'@' w₁ s₁)) [
    | inl q' ↦ ground arith
    | inr ((w₂, s₂), q') ↦ ground (arith, grows w₂ s₂ (calls + 1) r calls')
  ]
]

pub scan-Grows : (again : Matcher) (c : ℕ) → Grows again → Grows (scan again c)
unfolding scan
scan-Grows again c grows w [] calls r calls' e = ground arith
scan-Grows again c grows w (x ∷ s) calls r calls' e = elim (Option-cases (again w s calls)) [
  | inl q ↦ ground (arith, scan-Grows again c grows w s calls r calls')
  | inr ((r₁, c₁), q) ↦ ground (
    arith,
    grows w s calls r₁ c₁,
    scan-Grows again c grows w s calls r calls',
    scan-Grows again c grows w s c₁ r calls',
  )
]

after_star-Grows : (go : Matcher) → Grows go → Grows (after_star go)
unfolding after_star
after_star-Grows go grows [] s calls r calls' e = ground arith
after_star-Grows go grows (c ∷ w) s calls r calls' e = ground (
  arith,
  grows (c ∷ w) s calls r calls',
  scan-Grows (enter go) c (enter-Grows go grows) w s calls r calls',
)

one_byte-Grows : (go : Matcher) (c : ℕ) → Grows go → Grows (one_byte go c)
unfolding one_byte
one_byte-Grows go c grows w [] calls r calls' e = ground arith
one_byte-Grows go c grows w (x ∷ s) calls r calls' e = ground (arith, grows w s calls r calls')

pub walk-Grows : (f : ℕ) → Grows (walk f)
unfolding walk
walk-Grows zero w s calls r calls' e = cc
walk-Grows (suc f) [] [] calls r calls' e = ground arith
walk-Grows (suc f) [] (x ∷ s) calls r calls' e = ground arith
walk-Grows (suc f) (c ∷ w) s calls r calls' e = ground (
  arith,
  after_star-Grows (walk f) (walk-Grows f) (eat_marks (drop_stars w) s).0
      (eat_marks (drop_stars w) s).1 calls r calls',
  one_byte-Grows (walk f) c (walk-Grows f) w s calls r calls',
)

-- Neither `*!` nor `*@` stands in the mask.
abbrev pub cuts : ℕ → ℕ → Bool
cuts a b = a == b'*' && (b == b'!' || b == b'@')

abbrev pub NoShortcut : Bytes → Type 0
NoShortcut [] = Unit
NoShortcut (a ∷ []) = Unit
NoShortcut (a ∷ b ∷ w) = (cuts a b ≡ false) × NoShortcut (b ∷ w)

pub NoShortcut-tail : (a : ℕ) (w : Bytes) → NoShortcut (a ∷ w) → NoShortcut w
NoShortcut-tail a [] h = tt
NoShortcut-tail a (b ∷ w) h = h.1

pub drop_stars-NoShortcut : (w : Bytes) → NoShortcut w → NoShortcut (drop_stars w)
unfolding drop_stars
drop_stars-NoShortcut [] h = tt
drop_stars-NoShortcut (c ∷ w) h = elim (Bool-cases (c == b'*')) [
  | inl e ↦ rw e (drop_stars-NoShortcut w (NoShortcut-tail c w h))
  | inr e ↦ rw e h
]

pub eat_marks-NoShortcut : (w s : Bytes) → NoShortcut w → NoShortcut (eat_marks w s).0
unfolding eat_marks
eat_marks-NoShortcut [] s h = tt
eat_marks-NoShortcut (c ∷ w) [] h = h
eat_marks-NoShortcut (c ∷ w) (x ∷ s) h = elim (Bool-cases (c == b'?')) [
  | inl e ↦ rw e (eat_marks-NoShortcut w s (NoShortcut-tail c w h))
  | inr e ↦ rw e h
]

pub shortcut-NoShortcut :
    (w s : Bytes)
    → NoShortcut w
    → (shortcut b'!' w s ≡ some (w, s)) × (shortcut b'@' w s ≡ some (w, s))
unfolding shortcut
shortcut-NoShortcut [] s h = (refl, refl)
shortcut-NoShortcut (a ∷ []) s h = (refl, refl)
shortcut-NoShortcut (a ∷ b ∷ w) s h = (ground arith, ground arith)
