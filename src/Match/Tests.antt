-- ===== src/Match/Tests.antt =====
-- Runs of the functions of src/match.c, and each theorem at an input.
use Prim.Native.Char.{code}
use Prim.Native.String.{String}
use solidircd.Base.{ℕ, ◌≡◌, ◌≤◌, ◌↔◌, refl, some, none, [], ◌∷◌, arith, length}
use solidircd.Base.Int.{negsuc}
use solidircd.Match.Collapse.{collapse-Matches}
use solidircd.Match.Compare.{Bytes, mycmp, mycmp_diff, myncmp}
use solidircd.Match.Complete.{match_iff}
use solidircd.Match.Ends.{match-ends}
use solidircd.Match.Glob.{match, collapse}
use solidircd.Match.Pattern.{Matches, items, item}
use solidircd.Match.Sound.{match-sound}
use solidircd.Match.Tables.{to_upper, to_lower}

abbrev codes : String → Bytes
codes String.[] = []
codes (String.◌∷◌ c s) = code c ∷ codes s

runs : Unit {0}
unfolding match collapse mycmp mycmp_diff myncmp to_upper to_lower item
runs = tt

collapse_run : collapse (codes "a**b\\**?*c*?*?**") ≡ some (codes "a*b\\**?c*??")
unfolding runs
collapse_run = refl

-- A mark between two stars is kept with both stars when a doubled star comes first.
collapse_double : collapse (codes "**?*") ≡ some (codes "*?*")
unfolding runs
collapse_double = refl

match_host : match (codes "*!*@*.Example.net") (codes "nick!user@irc.example.NET") ≡ some (0, 2)
unfolding runs
match_host = refl

match_fails : match (codes "a*b?c") (codes "axxbbcd") ≡ some (1, 3)
unfolding runs
match_fails = refl

mycmp_diff_run : mycmp_diff (codes "Nick[") (codes "nICK{") ≡ negsuc 31
unfolding runs
mycmp_diff_run = refl

-- Two empty strings: the code steps past both terminators before it tests for them.
myncmp_empty : myncmp [] [] 5 ≡ none
unfolding runs
myncmp_empty = refl

abbrev nick : Bytes
nick = codes "Nick"

abbrev shouted : Bytes
shouted = codes "NICK"

match-sound_example : Matches (items (codes "n*k")) nick
match-sound_example = match-sound (codes "n*k") nick 2 (unfold runs in refl)

match-ends_example : (r : ℕ × ℕ) × (match (codes "*?*@x") nick ≡ some r)
match-ends_example = match-ends (codes "*?*@x") nick

match_iff_example : ◌≡◌ {A = ℕ} 1 0 ↔ Matches (items (codes "n*x")) nick
match_iff_example =
    match_iff (codes "n*x") nick 1 1 (refl, (refl, tt)) (unfold runs in refl) (omega arith)

collapse-Matches_example :
    (q : Bytes) × (collapse (codes "n**k") ≡ some q)
    × (length q ≤ length (codes "n**k"))
    × (Matches (items q) nick ↔ Matches (items (codes "n**k")) nick)
collapse-Matches_example = collapse-Matches (codes "n**k") nick
