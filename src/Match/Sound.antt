-- ===== src/Match/Sound.antt =====
-- A return of 0 from `match` of src/match.c is right, and the fuel of the model is enough.
use solidircd.Base.{
  ℕ, zero, suc, ◌+◌, ◌≡◌, refl, true, false, [], ◌∷◌, arith, ◌==◌, ltb, ◌&&◌, some, inl, inr,
  Bool-cases, Option-cases, length, subst, subst₂,
}
use solidircd.Match.Compare.{Bytes}
use solidircd.Match.Glob.{
  Matcher, shortcut, skip_past, enter, scan, after_star, one_byte, walk, match, eat_marks,
  drop_stars, max_calls,
}
use solidircd.Match.Pattern.{
  star, lit, item, items, Matches, end, byte, any, leave, take, star_all, item-star, item-mark,
  item-lit, drop_stars-sound, eat_marks-sound, eat_marks-left, skip_past-Matches,
}
use solidircd.Match.Tables.{to_upper}

-- Every answer 0 is a match.
abbrev pub IsSound : Matcher → Type 0
IsSound m = (w s : Bytes) (calls calls' : ℕ) → m w s calls ≡ some (0, calls') → Matches (items w) s

shortcut-sound :
    (c : ℕ) (w s w' s' : Bytes)
    → item c ≡ lit c
    → shortcut c w s ≡ some (w', s')
    → Matches (items w') s'
    → Matches (items w) s
unfolding shortcut
shortcut-sound c [] s w' s' k e d =
    let p : w' ≡ [] = ground arith in
    let q : s' ≡ s = ground arith in subst₂ (λ a b. Matches (items a) b) p q d
shortcut-sound c (a ∷ []) s w' s' k e d =
    let p : w' ≡ a ∷ [] = ground arith in
    let q : s' ≡ s = ground arith in subst₂ (λ a b. Matches (items a) b) p q d
shortcut-sound c (a ∷ b ∷ w) s w' s' k e d = elim (Bool-cases (a == b'*' && b == c)) [
  | inr no_cut ↦
      let p : w' ≡ a ∷ b ∷ w = ground arith in
      let q : s' ≡ s = ground arith in subst₂ (λ a b. Matches (items a) b) p q d
  | inl cut ↦
      let p : w' ≡ w = ground arith in
      let is_star : (a == b'*') ≡ true = ground arith in
      let b_is_c : c ≡ b = ground arith in
      let found : skip_past c s ≡ some s' = ground arith in
      let k' : item b ≡ lit c = subst (λ b. item b ≡ lit c) b_is_c k in
      rw (item-star a is_star, k')
        (skip_past-Matches c s s' (items w) found (subst (λ a. Matches (items a) s') p d))
]

-- The way of a call that answers 0: within the budget, both shortcuts taken, then the loop.
enter_inv :
    (go : Matcher) (w s : Bytes) (calls calls' : ℕ)
    → enter go w s calls ≡ some (0, calls')
    → (w₁ s₁ w₂ s₂ : Bytes) × (shortcut b'!' w s ≡ some (w₁, s₁))
      × (shortcut b'@' w₁ s₁ ≡ some (w₂, s₂))
      × (go w₂ s₂ (calls + 1) ≡ some (0, calls'))
unfolding enter
enter_inv go w s calls calls' e = elim (Bool-cases (ltb max_calls calls)) [
  | inl over ↦ absurd (ground arith)
  | inr within ↦ elim (Option-cases (shortcut b'!' w s)) [
    | inl n ↦ absurd (ground arith)
    | inr ((w₁, s₁), cut₁) ↦ elim (Option-cases (shortcut b'@' w₁ s₁)) [
      | inl n ↦ absurd (ground arith)
      | inr ((w₂, s₂), cut₂) ↦ (w₁, s₁, w₂, s₂, cut₁, cut₂, ground arith)
    ]
  ]
]

enter-IsSound : (go : Matcher) → IsSound go → IsSound (enter go)
enter-IsSound go sound w s calls calls' e =
    let (w₁, s₁, w₂, s₂, cut₁, cut₂, run) = enter_inv go w s calls calls' e in
    shortcut-sound b'!' w s w₁ s₁ (item-lit _ refl refl) cut₁ (
      shortcut-sound b'@' w₁ s₁ w₂ s₂ (item-lit _ refl refl) cut₂
        (sound w₂ s₂ (calls + 1) calls' run))

scan-sound :
    (again : Matcher) (c : ℕ) (w s : Bytes) (calls calls' : ℕ)
    → IsSound again
    → item c ≡ lit c
    → scan again c w s calls ≡ some (0, calls')
    → Matches (star ∷ lit c ∷ items w) s
unfolding scan
scan-sound again c w [] calls calls' sound k e = absurd (ground arith)
scan-sound again c w (x ∷ s) calls calls' sound k e = elim (Bool-cases (to_upper x == to_upper c)) [
  | inr differ ↦ take (scan-sound again c w s calls calls' sound k (ground arith))
  | inl same ↦ elim (Option-cases (again w s calls)) [
    | inl n ↦ absurd (ground arith)
    | inr ((zero, c₁), r) ↦ leave (byte (ground arith) (sound w s calls c₁ r))
    | inr ((suc n, c₁), r) ↦ take (scan-sound again c w s c₁ calls' sound k (ground arith))
  ]
]

scan-end :
    (again : Matcher) (c : ℕ) (w : Bytes) (calls calls' : ℕ)
    → ¬ (scan again c w [] calls ≡ some (0, calls'))
unfolding scan
scan-end again c w calls calls' e = ground arith

pub marks_left :
    (w s : Bytes) (c x : ℕ) (v t : Bytes)
    → (eat_marks w s).0 ≡ c ∷ v
    → (eat_marks w s).1 ≡ x ∷ t
    → (c == b'?') ≡ false
marks_left w s c x v t p q = eat_marks-left w s v c x t (λ i. (p i, q i))

after_star-sound :
    (go : Matcher) (w s : Bytes) (calls calls' : ℕ)
    → IsSound go
    → ((c x : ℕ) (v t : Bytes) → w ≡ c ∷ v → s ≡ x ∷ t → (c == b'?') ≡ false)
    → after_star go w s calls ≡ some (0, calls')
    → Matches (star ∷ items w) s
unfolding after_star
after_star-sound go [] s calls calls' sound left e = star_all s
after_star-sound go (c ∷ w) [] calls calls' sound left e = elim (Bool-cases (c == b'*')) [
  | inl again ↦ leave (sound (c ∷ w) [] calls calls' (rw again at e))
  | inr lone ↦ absurd (scan-end (enter go) c w calls calls' (rw lone at e))
]
after_star-sound go (c ∷ w) (x ∷ s) calls calls' sound left e = elim (Bool-cases (c == b'*')) [
  | inl again ↦ leave (sound (c ∷ w) (x ∷ s) calls calls' (rw again at e))
  | inr lone ↦
      let k = item-lit c lone (left c x w s refl refl) in
      rw k
        (scan-sound (enter go) c w (x ∷ s) calls calls' (enter-IsSound go sound) k (rw lone at e))
]

one_byte-sound :
    (go : Matcher) (c : ℕ) (w s : Bytes) (calls calls' : ℕ)
    → IsSound go
    → (c == b'*') ≡ false
    → one_byte go c w s calls ≡ some (0, calls')
    → Matches (items (c ∷ w)) s
unfolding one_byte
one_byte-sound go c w [] calls calls' sound k e = absurd (ground arith)
one_byte-sound go c w (x ∷ s) calls calls' sound k e = elim (Bool-cases (c == b'?')) [
  | inl m ↦ rw (item-mark c m) (any (sound w s calls calls' (ground arith)))
  | inr n ↦ rw (item-lit c k n) (byte (ground arith) (sound w s calls calls' (ground arith)))
]

walk-IsSound : (f : ℕ) → IsSound (walk f)
unfolding walk
walk-IsSound zero w s calls calls' e = absurd (ground arith)
walk-IsSound (suc f) [] [] calls calls' e = end
walk-IsSound (suc f) [] (x ∷ s) calls calls' e = absurd (ground arith)
walk-IsSound (suc f) (c ∷ w) s calls calls' e = elim (Bool-cases (c == b'*')) [
  | inl k ↦ rw (item-star c k) (
      drop_stars-sound w s (
        eat_marks-sound (drop_stars w) s (
          after_star-sound (walk f) _ _ calls calls' (walk-IsSound f) (marks_left _ s)
            (rw k at e))))
  | inr k ↦ one_byte-sound (walk f) c w s calls calls' (walk-IsSound f) k (rw k at e)
]

-- If `match` returns 0, the string matches the mask: some split of it fits, with `*` for any run
-- of bytes, `?` for any byte, and letters up to case.
pub match-sound :
    (wild s : Bytes) (calls : ℕ) → match wild s ≡ some (0, calls) → Matches (items wild) s
unfolding match
match-sound wild s calls e =
    enter-IsSound (walk (length wild + 1)) (walk-IsSound (length wild + 1)) wild s 0 calls e
