-- ===== src/Match/Ends.antt =====
-- `match` of src/match.c always ends, also where it recurs under a star.
use solidircd.Base.{
  ℕ, zero, suc, ◌+◌, ◌≤◌, ◌<◌, ◌≡◌, ◌≢◌, [], ◌∷◌, arith, none, some, inl, inr, Option-cases, length,
}
use solidircd.Match.Compare.{Bytes}
use solidircd.Match.Glob.{
  Matcher, shortcut, enter, scan, after_star, one_byte, walk, match, eat_marks, drop_stars,
}

-- Masks shorter than `n` get an answer.
abbrev Ends : ℕ → Matcher → Type 0
Ends n m = (w s : Bytes) (calls : ℕ) → length w < n → m w s calls ≢ none

pub drop_stars-length : (w : Bytes) → length (drop_stars w) ≤ length w
unfolding drop_stars
drop_stars-length [] = omega arith
drop_stars-length (c ∷ w) = ground (arith, drop_stars-length w)

pub eat_marks-length : (w s : Bytes) → length (eat_marks w s).0 ≤ length w
unfolding eat_marks
eat_marks-length [] s = omega arith
eat_marks-length (c ∷ w) [] = omega arith
eat_marks-length (c ∷ w) (x ∷ s) = ground (arith, eat_marks-length w s)

shortcut-length :
    (c : ℕ) (w s w' s' : Bytes) → shortcut c w s ≡ some (w', s') → length w' ≤ length w
unfolding shortcut
shortcut-length c [] s w' s' e = ground arith
shortcut-length c (a ∷ []) s w' s' e = ground arith
shortcut-length c (a ∷ b ∷ w) s w' s' e = ground arith

enter-Ends : (n : ℕ) (go : Matcher) → Ends n go → Ends n (enter go)
unfolding enter
enter-Ends n go ends w s calls h e = elim (Option-cases (shortcut b'!' w s)) [
  | inl q ↦ ground arith
  | inr ((w₁, s₁), q) ↦ elim (Option-cases (shortcut b'@' w₁ s₁)) [
    | inl q' ↦ ground arith
    | inr ((w₂, s₂), q') ↦ ground (
      arith,
      ends w₂ s₂ (calls + 1),
      shortcut-length b'!' w s w₁ s₁ q,
      shortcut-length b'@' w₁ s₁ w₂ s₂ q',
    )
  ]
]

scan-Ends :
    (n : ℕ) (again : Matcher) (c : ℕ) (w s : Bytes) (calls : ℕ)
    → Ends n again
    → length w < n
    → scan again c w s calls ≢ none
unfolding scan
scan-Ends n again c w [] calls ends h e = ground arith
scan-Ends n again c w (x ∷ s) calls ends h e = elim (Option-cases (again w s calls)) [
  | inl q ↦ ends w s calls h q
  | inr ((r, c₁), q) ↦
      ground (arith, scan-Ends n again c w s calls ends, scan-Ends n again c w s c₁ ends)
]

after_star-Ends : (n : ℕ) (go : Matcher) → Ends n go → Ends n (after_star go)
unfolding after_star
after_star-Ends n go ends [] s calls h e = ground arith
after_star-Ends n go ends (c ∷ w) s calls h e = ground (
  arith,
  ends (c ∷ w) s calls,
  scan-Ends n (enter go) c w s calls (enter-Ends n go ends) (omega arith),
)

one_byte-Ends : (n : ℕ) (go : Matcher) (c : ℕ) → Ends n go → Ends n (one_byte go c)
unfolding one_byte
one_byte-Ends n go c ends w [] calls h e = ground arith
one_byte-Ends n go c ends w (x ∷ s) calls h e = ground (arith, ends w s calls)

walk-Ends : (f : ℕ) → Ends f (walk f)
unfolding walk
walk-Ends zero w s calls h e = omega arith
walk-Ends (suc f) [] [] calls h e = cc
walk-Ends (suc f) [] (x ∷ s) calls h e = cc
walk-Ends (suc f) (c ∷ w) s calls h e = ground (
  arith,
  drop_stars-length w,
  eat_marks-length (drop_stars w) s,
  after_star-Ends f (walk f) (walk-Ends f) (eat_marks (drop_stars w) s).0
      (eat_marks (drop_stars w) s).1 calls,
  one_byte-Ends f (walk f) c (walk-Ends f) w s calls,
)

-- `match` answers on every mask and string: the fuel of the model is enough.
pub match-ends : (wild s : Bytes) → (r : ℕ × ℕ) × (match wild s ≡ some r)
unfolding match
match-ends wild s = elim (Option-cases (enter (walk (length wild + 1)) wild s 0)) [
  | inl e ↦ absurd (enter-Ends _ _ (walk-Ends (length wild + 1)) wild s 0 (omega arith) e)
  | inr r ↦ r
]
