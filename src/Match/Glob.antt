-- ===== src/Match/Glob.antt =====
-- src/match.c: `match` and `_match`, wildcard matching with a budget of calls, and `collapse`.
-- The counter `calls` is passed along; a result is the return value with the counter after it.
use mathlib.Core.Option
use solidircd.Base.{
  ℕ, zero, suc, ◌+◌, [], ◌∷◌, length, ◌==◌, ltb, not, true, false, ◌&&◌, if◌then◌else◌, Option,
  none, some,
}
use solidircd.Match.Compare.{Bytes}
use solidircd.Match.Tables.{to_upper}

abbrev pub max_calls : ℕ
max_calls = 512

-- The return value, 0 for a match and 1 for none, and `calls`.
abbrev pub Reply : Type 0
Reply = Option (ℕ × ℕ)

-- `while(*string!='!' && *string) string++;` and the step past the byte; `none` at the terminator.
unfoldable pub skip_past : ℕ → Bytes → Option Bytes
skip_past c [] = none
skip_past c (x ∷ s) = if x == c then some s else skip_past c s

-- The two shortcuts for `*!` and `*@`; `none` is the early `return 1`.
unfoldable pub shortcut : ℕ → Bytes → Bytes → Option (Bytes × Bytes)
unfolding skip_past
shortcut c (a ∷ b ∷ wild) s =
    if a == b'*' && b == c
    then Option.map (λ t. (wild, t)) (skip_past c s)
    else some (a ∷ b ∷ wild, s)
shortcut c wild s = some (wild, s)

-- `while(*wild=='*') wild++;`
unfoldable pub drop_stars : Bytes → Bytes
drop_stars [] = []
drop_stars (c ∷ wild) = if c == b'*' then drop_stars wild else c ∷ wild

-- `while(*wild=='?' && *string) { wild++;string++; }`
unfoldable pub eat_marks : Bytes → Bytes → Bytes × Bytes
eat_marks [] s = ([], s)
eat_marks (c ∷ wild) [] = (c ∷ wild, [])
eat_marks (c ∷ wild) (x ∷ s) = if c == b'?' then eat_marks wild s else (c ∷ wild, x ∷ s)

abbrev pub Matcher : Type 0
Matcher = Bytes → Bytes → ℕ → Reply

-- The entry of `_match`, before its loop `go`.
unfoldable pub enter : Matcher → Matcher
unfolding shortcut
enter go wild s calls =
    if ltb max_calls calls then some (1, calls + 1) else elim (shortcut b'!' wild s) [
      | none ↦ some (1, calls + 1)
      | some (wild', s') ↦ elim (shortcut b'@' wild' s') [
        | none ↦ some (1, calls + 1)
        | some (wild'', s'') ↦ go wild'' s'' (calls + 1)
      ]
    ]

-- `while(*string)` under a star: try every place where the byte `w` after the star occurs.
-- At the end of the string the code falls through to `if(!*string) return 1`.
unfoldable pub scan : Matcher → ℕ → Matcher
scan again w wild [] calls = some (1, calls)
scan again w wild (x ∷ s) calls = elim (to_upper x == to_upper w) [
  | false ↦ scan again w wild s calls
  | true ↦ elim (again wild s calls) [
    | none ↦ none
    | some (zero, calls') ↦ some (0, calls')
    | some (suc _, calls') ↦ scan again w wild s calls'
  ]
]

-- What follows the star, once further stars are dropped and marks have taken their bytes.
unfoldable pub after_star : Matcher → Matcher
after_star go [] s calls = some (0, calls)
after_star go (w ∷ wild) s calls =
    if w == b'*' then go (w ∷ wild) s calls else scan (enter go) w wild s calls

-- One byte of the pattern that is no star, against one byte of the string.
unfoldable pub one_byte : Matcher → ℕ → Matcher
one_byte go c wild [] calls = some (1, calls)
one_byte go c wild (x ∷ s) calls =
    if not (c == b'?') && not (to_upper x == to_upper c) then some (1, calls) else go wild s calls

-- `while(1)`, on fuel: every round takes a byte of the pattern. `none` means out of fuel.
unfoldable pub walk : ℕ → Matcher
walk zero wild s calls = none
walk (suc f) [] [] calls = some (0, calls)
walk (suc f) [] (x ∷ s) calls = some (1, calls)
walk (suc f) (c ∷ wild) s calls =
    if c == b'*'
    then (let (wild', s') = eat_marks (drop_stars wild) s in after_star (walk f) wild' s' calls)
    else one_byte (walk f) c wild s calls

-- `match(n, m)`, the pattern first
unfoldable pub match : Bytes → Bytes → Reply
unfolding walk enter scan after_star one_byte eat_marks drop_stars
match wild s = enter (walk (length wild + 1)) wild s 0

-- The cleaning of what follows a star at `s` in `collapse`: further stars go; or, after a mark,
-- a run of stars and marks keeps its marks.
unfoldable pub keep_marks : Bytes → Bytes
keep_marks [] = []
keep_marks (c ∷ p) =
    if c == b'*' then keep_marks p else if c == b'?' then c ∷ keep_marks p else c ∷ p

unfoldable pub squeeze : Bytes → Bytes
unfolding drop_stars keep_marks
squeeze [] = []
squeeze (c ∷ p) = if c == b'*' then drop_stars p else if c == b'?' then c ∷ keep_marks p else c ∷ p

-- `if (*s == '*')` and the step to the next byte
unfoldable pub cleaned : ℕ → Bytes → Bytes
unfolding squeeze
cleaned c p = if c == b'*' then squeeze p else p

-- The loop of `collapse`, on fuel: a backslash (92) protects the byte after it, and ends the loop
-- at the end of the pattern. `none` means out of fuel.
unfoldable pub collapse_from : ℕ → Bytes → Option Bytes
unfolding cleaned
collapse_from zero p = none
collapse_from (suc f) [] = some []
collapse_from (suc f) (c ∷ []) = some (c ∷ [])
collapse_from (suc f) (c ∷ d ∷ p) = elim (c == 92) [
  | true ↦ Option.map (λ q. c ∷ d ∷ q) (collapse_from f p)
  | false ↦ Option.map (λ q. c ∷ q) (collapse_from f (cleaned c (d ∷ p)))
]

unfoldable pub collapse : Bytes → Option Bytes
unfolding collapse_from
collapse p = collapse_from (length p + 1) p
