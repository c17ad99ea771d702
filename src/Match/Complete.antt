-- ===== src/Match/Complete.antt =====
-- On masks without the two shortcuts an answer of no match from `match` of src/match.c is right, as
-- long as the budget of calls was not used up.
use solidircd.Base.{
  ℕ, zero, suc, ◌+◌, ◌≤◌, ◌≡◌, refl, true, false, List, [], ◌∷◌, arith, ◌==◌, ltb, ◌↔◌, some, inl,
  inr, ◌⊎◌, Bool-cases, Option-cases, length,
}
use solidircd.Match.Compare.{Bytes}
use solidircd.Match.Glob.{
  Matcher, enter, scan, after_star, one_byte, walk, match, drop_stars, max_calls,
}
use solidircd.Match.Pattern.{
  Item, star, mark, lit, item, items, Matches, end, byte, any, leave, take, item-star, item-mark,
  item-lit, drop_stars-complete, eat_marks-complete, star-end, byte_inv, halve_star,
}
use solidircd.Match.Budget.{
  Grows, enter-Grows, scan-Grows, walk-Grows, NoShortcut, NoShortcut-tail, drop_stars-NoShortcut,
  eat_marks-NoShortcut, shortcut-NoShortcut,
}
use solidircd.Match.Sound.{match-sound, marks_left}
use solidircd.Match.Tables.{to_upper}

-- An answer of no match is right while the counter has not passed the budget.
IsComplete : Matcher → Type 0
IsComplete m =
    (w s : Bytes) (calls r calls' : ℕ)
    → NoShortcut w
    → m w s calls ≡ some (suc r, calls')
    → calls' ≤ max_calls + 1
    → ¬ Matches (items w) s

enter-IsComplete : (go : Matcher) → IsComplete go → IsComplete (enter go)
unfolding IsComplete enter
enter-IsComplete go complete w s calls r calls' n e b =
    let (cut₁, cut₂) = shortcut-NoShortcut w s n in
    elim (Bool-cases (ltb max_calls calls)) [
      | inl over ↦ absurd (ground arith)
      | inr within ↦ complete w s (calls + 1) r calls' n (rw (within, cut₁, cut₂) at e) b
    ]

-- A star before a byte either stops here or takes one more byte.
star_lit_inv :
    {c x : ℕ} {w : List Item} {s : Bytes}
    → Matches (star ∷ lit c ∷ w) (x ∷ s)
    → ((to_upper x ≡ to_upper c) × Matches w s) ⊎ Matches (star ∷ lit c ∷ w) s
star_lit_inv (leave d) = inl (byte_inv d)
star_lit_inv (take d) = inr d

scan-IsComplete :
    (again : Matcher) (c : ℕ) (w s : Bytes) (calls r calls' : ℕ)
    → IsComplete again
    → Grows again
    → NoShortcut w
    → scan again c w s calls ≡ some (suc r, calls')
    → calls' ≤ max_calls + 1
    → ¬ Matches (star ∷ lit c ∷ items w) s
unfolding IsComplete scan
scan-IsComplete again c w [] calls r calls' complete grows n e b (leave d) = elim d [ ]
scan-IsComplete again c w (x ∷ s) calls r calls' complete grows n e b d =
    elim (Bool-cases (to_upper x == to_upper c)) [
      | inr differ ↦ elim (star_lit_inv d) [
        | inl (same, d') ↦ ground arith
        | inr d' ↦ scan-IsComplete again c w s calls r calls' complete grows n (ground arith) b d'
      ]
      | inl same ↦ elim (Option-cases (again w s calls)) [
        | inl q ↦ ground arith
        | inr ((zero, c₁), q) ↦ ground arith
        | inr ((suc r₁, c₁), q) ↦
            let e' : scan again c w s c₁ ≡ some (suc r, calls') = ground arith in
            elim (star_lit_inv d) [
              | inl (u, d') ↦
                  complete w s calls r₁ c₁ n q
                    (omega (arith, scan-Grows again c grows w s c₁ (suc r) calls' e')) d'
              | inr d' ↦ scan-IsComplete again c w s c₁ r calls' complete grows n e' b d'
            ]
      ]
    ]

-- No byte but a star stands for the empty run.
not-Matches-end : (c : ℕ) (w : Bytes) → (c == b'*') ≡ false → ¬ Matches (items (c ∷ w)) []
unfolding item
not-Matches-end c w k d = elim (Bool-cases (c == b'?')) [
  | inl m ↦ no_mark (rw (k, m) at d)
  | inr n ↦ no_lit (rw (k, n) at d)
]
  where
    no_mark : ¬ Matches (mark ∷ items w) []
    no_mark h = elim h [ ]

    no_lit : ¬ Matches (lit c ∷ items w) []
    no_lit h = elim h [ ]

drop_first :
    (c : ℕ) (w s : Bytes)
    → (c == b'*') ≡ true
    → Matches (star ∷ items (c ∷ w)) s
    → Matches (items (c ∷ w)) s
drop_first c w s k d = rw (item-star c k) (halve_star (rw (item-star c k) at d))

any_inv : {x : ℕ} {w : List Item} {s : Bytes} → Matches (mark ∷ w) (x ∷ s) → Matches w s
any_inv (any d) = d

after_star-IsComplete :
    (go : Matcher) (w s : Bytes) (calls r calls' : ℕ)
    → IsComplete go
    → Grows go
    → ((c x : ℕ) (v t : Bytes) → w ≡ c ∷ v → s ≡ x ∷ t → (c == b'?') ≡ false)
    → NoShortcut w
    → after_star go w s calls ≡ some (suc r, calls')
    → calls' ≤ max_calls + 1
    → ¬ Matches (star ∷ items w) s
unfolding IsComplete after_star
after_star-IsComplete go [] s calls r calls' complete grows left n e b d = ground arith
after_star-IsComplete go (c ∷ w) [] calls r calls' complete grows left n e b d =
    elim (Bool-cases (c == b'*')) [
      | inl k ↦ complete (c ∷ w) [] calls r calls' n (rw k at e) b (drop_first c w [] k d)
      | inr k ↦ not-Matches-end c w k (star-end d)
    ]
after_star-IsComplete go (c ∷ w) (x ∷ s) calls r calls' complete grows left n e b d =
    elim (Bool-cases (c == b'*')) [
      | inl k ↦ complete (c ∷ w) (x ∷ s) calls r calls' n (rw k at e) b (drop_first c w (x ∷ s) k d)
      | inr k ↦
          scan-IsComplete (enter go) c w (x ∷ s) calls r calls' (enter-IsComplete go complete)
            (enter-Grows go grows) (NoShortcut-tail c w n) (rw k at e) b
            (rw (item-lit c k (left c x w s refl refl)) at d)
    ]

one_byte-IsComplete :
    (go : Matcher) (c : ℕ) (w s : Bytes) (calls r calls' : ℕ)
    → IsComplete go
    → (c == b'*') ≡ false
    → NoShortcut w
    → one_byte go c w s calls ≡ some (suc r, calls')
    → calls' ≤ max_calls + 1
    → ¬ Matches (items (c ∷ w)) s
unfolding IsComplete one_byte
one_byte-IsComplete go c w [] calls r calls' complete k n e b d = not-Matches-end c w k d
one_byte-IsComplete go c w (x ∷ s) calls r calls' complete k n e b d =
    elim (Bool-cases (c == b'?')) [
      | inl m ↦ complete w s calls r calls' n (ground arith) b (any_inv (rw (item-mark c m) at d))
      | inr m ↦
          let (u, d') = byte_inv (rw (item-lit c k m) at d) in
          complete w s calls r calls' n (ground arith) b d'
    ]

walk-IsComplete : (f : ℕ) → IsComplete (walk f)
unfolding IsComplete walk
walk-IsComplete zero w s calls r calls' n e b d = ground arith
walk-IsComplete (suc f) [] [] calls r calls' n e b d = ground arith
walk-IsComplete (suc f) [] (x ∷ s) calls r calls' n e b d = elim d [ ]
walk-IsComplete (suc f) (c ∷ w) s calls r calls' n e b d =
    let n' = NoShortcut-tail c w n in
    elim (Bool-cases (c == b'*')) [
      | inl k ↦
          after_star-IsComplete (walk f) _ _ calls r calls' (walk-IsComplete f) (walk-Grows f)
            (marks_left (drop_stars w) s)
            (eat_marks-NoShortcut (drop_stars w) s (drop_stars-NoShortcut w n')) (rw k at e) b
            (eat_marks-complete (drop_stars w) s
              (drop_stars-complete w s (rw (item-star c k) at d)))
      | inr k ↦
          one_byte-IsComplete (walk f) c w s calls r calls' (walk-IsComplete f) k n' (rw k at e) b d
    ]

-- For a mask in which neither `*!` nor `*@` stands, and a call whose counter stayed within the
-- budget of 512 (so that it ends at 513 at most): `match` returns 0 exactly if the string matches
-- the mask.
pub match_iff :
    (wild s : Bytes) (r calls : ℕ)
    → NoShortcut wild
    → match wild s ≡ some (r, calls)
    → calls ≤ max_calls + 1
    → (r ≡ 0) ↔ Matches (items wild) s
unfolding match IsComplete
match_iff wild s zero calls n e b = (λ _. match-sound wild s calls e, λ _. refl)
match_iff wild s (suc r) calls n e b = (
  λ h. absurd (omega arith),
  λ d. absurd (
      enter-IsComplete (walk (length wild + 1)) (walk-IsComplete (length wild + 1)) wild s 0 r calls
        n e b d),
)

-- The shortcut for `*!` looks at the first `!` only: for every byte `x` that is no wildcard and is
-- not `!` up to case, `match` answers that `!!x` does not match `*!x`, though it does.
pub match-misses :
    (x : ℕ)
    → (x == b'*') ≡ false
    → (x == b'?') ≡ false
    → (to_upper b'!' == to_upper x) ≡ false
    → (match (b'*' ∷ b'!' ∷ x ∷ []) (b'!' ∷ b'!' ∷ x ∷ []) ≡ some (1, 1))
      × Matches (items (b'*' ∷ b'!' ∷ x ∷ [])) (b'!' ∷ b'!' ∷ x ∷ [])
unfolding match item
match-misses x h k n = (ground arith, rw (h, k) (take (leave (byte refl (byte refl end)))))
