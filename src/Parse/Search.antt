-- ===== src/Parse/Search.antt =====
-- The search in the tree of src/parse.c finds what a search in the table finds.
use solidircd.Base.{
  ℕ, ◌≤◌, ◌<◌, ◌≡◌, refl, sym, ap, ◌∙◌, inl, inr, Bool, true, false, List, [], ◌∷◌, ◌++◌, ◌==◌, ltb,
  ◌&&◌, ◌||◌, if◌then◌else◌, Option, none, some, arith, length, drop, Bool-cases,
}
use solidircd.HashTable.{is_zero}
use solidircd.Match.Compare.{Bytes, IsText, first, mycmp}
use solidircd.Match.Tables.{to_upper_lem}
use solidircd.Parse.Order.{IsCaps, starts-snoc, drop-snoc, drop-IsCaps, fold_upper}
use solidircd.Parse.Tree.{Message, starts, fold}
use solidircd.Parse.Table.{IsSorted, find_under, Over, letter-IsCaps}
use solidircd.Parse.Tree.{Tree, null, node, Final, hit, or_later, tree_parse}

-- The search from the place where a node is come to
abbrev pub arrive : Tree → Bytes → Option Message
arrive t s = or_later (hit t s) (tree_parse t s)

pub tree_parse-null : (s : Bytes) → tree_parse null s ≡ none
unfolding tree_parse hit
tree_parse-null [] = refl
tree_parse-null (c ∷ s) = rw (tree_parse-null s) (ground arith)

letter-step :
    (a : Bytes) (d : ℕ) (s : Bytes)
    → IsCaps a
    → d < 256
    → b'A' ≤ first a
    → is_zero (mycmp a (d ∷ s)) ≡ (first a == fold d && is_zero (mycmp (drop 1 a) s))
unfolding mycmp IsCaps
letter-step [] d s caps byte low = absurd (omega arith)
letter-step (c ∷ a) d s caps byte low = ground (arith, fold_upper c d caps.0.0 caps.0.1 byte)

-- One letter of a name and of the command
under-letter :
    (p a : Bytes) (d : ℕ) (s : Bytes)
    → IsCaps a
    → d < 256
    → b'A' ≤ fold d
    → (starts p a ≡ true → b'A' ≤ first (drop (length p) a))
    → (starts p a && is_zero (mycmp (drop (length p) a) (d ∷ s)))
      ≡ (starts (p ++ fold d ∷ []) a && is_zero (mycmp (drop (length (p ++ fold d ∷ [])) a) s))
under-letter p a d s caps byte inside low =
    rw (starts-snoc p (fold d) a (omega arith), drop-snoc p (fold d) a)
      (elim (Bool-cases (starts p a)) [
        | inl e ↦
            rw (e, letter-step (drop (length p) a) d s (drop-IsCaps (length p) a caps) byte (low e))
              refl
        | inr e ↦ rw e refl
      ])

pub find_under-letter :
    (p : Bytes) (d : ℕ) (s : Bytes) (ms : List Message)
    → IsSorted ms
    → d < 256
    → b'A' ≤ fold d
    → Over b'A' p ms
    → find_under p (d ∷ s) ms ≡ find_under (p ++ fold d ∷ []) s ms
unfolding find_under IsSorted Over
find_under-letter p d s [] sorted byte inside over = refl
find_under-letter p d s (m ∷ ms) sorted byte inside over =
    rw (under-letter p m.cmd d s sorted.0 byte inside over.0) (
      ap
        (λ (o : Option Message).
          if starts (p ++ fold d ∷ []) m.cmd
            && is_zero (mycmp (drop (length (p ++ fold d ∷ [])) m.cmd) s)
          then some m
          else o)
        (find_under-letter p d s ms sorted.2 byte inside over.1))

-- No name has a byte that is not a letter, and none ends early.
find_under-none :
    (p : Bytes) (d : ℕ) (s : Bytes) (ms : List Message)
    → IsSorted ms
    → d < 256
    → (ltb (fold d) b'A' || ltb b'Z' (fold d)) ≡ true
    → Over b'A' p ms
    → find_under p (d ∷ s) ms ≡ none
unfolding find_under IsSorted Over
find_under-none p d s [] sorted byte out over = refl
find_under-none p d s (m ∷ ms) sorted byte out over =
    let high = letter-IsCaps (length p) m.cmd sorted.0 in
    let step =
      letter-step (drop (length p) m.cmd) d s (drop-IsCaps (length p) m.cmd sorted.0) byte in
    let here : (starts p m.cmd && is_zero (mycmp (drop (length p) m.cmd) (d ∷ s))) ≡ false =
      elim (Bool-cases (starts p m.cmd)) [
        | inl e ↦
            rw (e, step (over.0 e))
              (not-letter (first (drop (length p) m.cmd)) (fold d)
                (is_zero (mycmp (drop 1 (drop (length p) m.cmd)) s)) (over.0 e) high out)
        | inr e ↦ rw e refl
      ] in
    rw here (find_under-none p d s ms sorted.2 byte out over.1)
  where
    not-letter :
        (c r : ℕ) (b : Bool)
        → b'A' ≤ c
        → c ≤ b'Z'
        → (ltb r b'A' || ltb b'Z' r) ≡ true
        → ((c == r) && b) ≡ false
    not-letter c r b low high out = ground arith

pub ends-early : (a : Bytes) → IsCaps a → b'A' ≤ first a → is_zero (mycmp a []) ≡ false
unfolding mycmp IsCaps
ends-early [] caps h = absurd (omega arith)
ends-early (c ∷ a) caps h =
    ground (arith, to_upper_lem c (omega (arith, caps.0.1)), to_upper_lem 0 (omega arith))

find_under-nil :
    (p : Bytes) (ms : List Message) → IsSorted ms → Over b'A' p ms → find_under p [] ms ≡ none
unfolding find_under Over IsSorted
find_under-nil p [] sorted over = refl
find_under-nil p (m ∷ ms) sorted over =
    let here : (starts p m.cmd && is_zero (mycmp (drop (length p) m.cmd) [])) ≡ false =
      elim (Bool-cases (starts p m.cmd)) [
        | inl e ↦
            rw e (
              ends-early (drop (length p) m.cmd) (drop-IsCaps (length p) m.cmd sorted.0) (over.0 e))
        | inr e ↦ rw e refl
      ] in
    rw here (find_under-nil p ms sorted.2 over.1)

-- The pointers of a node lead to the names under each letter, from one letter on.
abbrev pub Points : ℕ → Bytes → (ℕ → Tree) → List Message → Type 0
Points c p pointers ms =
    (r : ℕ) (s : Bytes)
    → c ≤ r
    → r ≤ b'Z'
    → IsText s
    → arrive (pointers r) s ≡ find_under (p ++ r ∷ []) s ms

-- A node whose pointers are right, below it.
pub node-find_under :
    (p : Bytes) (f : Final) (o : Option Message) (pointers : ℕ → Tree) (ms : List Message)
    (s : Bytes)
    → IsSorted ms
    → Over b'A' p ms
    → Points b'A' p pointers ms
    → IsText s
    → tree_parse (node f o pointers) s ≡ find_under p s ms
unfolding tree_parse
node-find_under p f o pointers ms [] sorted over points text = sym (find_under-nil p ms sorted over)
node-find_under p f o pointers ms (d ∷ s) sorted over points text =
    let byte = text.0.1 in
    elim (Bool-cases (ltb (fold d) b'A' || ltb b'Z' (fold d))) [
      | inl out ↦ rw out (sym (find_under-none p d s ms sorted byte out over))
      | inr inside ↦
          let low : b'A' ≤ fold d = ground arith in
          let high : fold d ≤ b'Z' = ground arith in
          rw inside (
            points (fold d) s low high text.1
            ∙ sym (find_under-letter p d s ms sorted byte low over))
    ]
