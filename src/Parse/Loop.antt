-- ===== src/Parse/Loop.antt =====
-- The loop of do_msg_tree of src/parse.c builds the pointers of a node.
use solidircd.Base.{
  ℕ, zero, suc, ◌+◌, ◌≤◌, ◌<◌, ◌≡◌, refl, sym, subst, ap, ◌∙◌, inl, inr, true, false, List, [], ◌∷◌,
  ◌++◌, ◌==◌, Option, none, some, ◌>>=◌, arith, length, drop, Bool-cases,
}
use solidircd.Match.Compare.{Bytes, IsText, first}
use solidircd.Parse.Order.{starts-snoc}
use solidircd.Parse.Tree.{Message, starts}
use solidircd.Parse.Table.{
  AllShort, IsSorted, find_under, outside, Over, AllOutside, outside-AllOutside, AllOutside-none,
  AllOutside-snoc, Over-AllOutside, find_under-other, outside-outside, outside-IsSorted,
  outside-AllShort, outside-Over, AllBehind-Over, outside-head, letter-IsCaps,
}
use solidircd.Parse.Tree.{Tree, null, leaves, point, letters, hit}
use solidircd.Parse.Search.{arrive, tree_parse-null, Points}

-- A call has built the tree of the names with a prefix, and left the table behind them.
abbrev pub Builds : Option (Tree × List Message) → Bytes → List Message → Type 0
Builds o p ms =
    (t : Tree) × (o ≡ some (t, outside p ms))
    × ((s : Bytes) → IsText s → arrive t s ≡ find_under p s ms)

abbrev pub Calls : ℕ → (Bytes → List Message → Option (Tree × List Message)) → Bytes → Type 0
Calls n rec p =
    (c : ℕ) (m : Message) (ms : List Message)
    → b'A' ≤ c
    → IsSorted (m ∷ ms)
    → AllShort n (m ∷ ms)
    → starts (p ++ c ∷ []) m.cmd ≡ true
    → Builds (rec (p ++ c ∷ []) (m ∷ ms)) (p ++ c ∷ []) (m ∷ ms)

abbrev pub Loops : Option ((ℕ → Tree) × List Message) → ℕ → Bytes → List Message → Type 0
Loops o c p ms =
    (pointers : ℕ → Tree) × (o ≡ some (pointers, outside p ms))
    × Points c p pointers ms
    × ((r : ℕ) → r < c → pointers r ≡ null)

arrive-null : (s : Bytes) → arrive null s ≡ none
unfolding hit
arrive-null s = tree_parse-null s

pub leaves-outside : (p : Bytes) (ms : List Message) → leaves p ms ≡ true → outside p ms ≡ ms
unfolding leaves outside
leaves-outside p [] h = refl
leaves-outside p (m ∷ ms) h = let e : starts p m.cmd ≡ false = ground arith in rw e refl

-- The pointers under one letter and those under the later ones
point-Points :
    (c : ℕ) (p : Bytes) (t : Tree) (pointers : ℕ → Tree) (ms : List Message)
    → 0 < c
    → ((s : Bytes) → IsText s → arrive t s ≡ find_under (p ++ c ∷ []) s ms)
    → Points (c + 1) p pointers (outside (p ++ c ∷ []) ms)
    → Points c p (point c t pointers) ms
point-Points c p t pointers ms hc here later r s low high text = elim (Bool-cases (r == c)) [
  | inl e ↦
      let same : r ≡ c = ground arith in
      rw e (subst (λ x. arrive t s ≡ find_under (p ++ x ∷ []) s ms) (sym same) (here s text))
  | inr e ↦ rw e (
      later r s (ground arith) high text
      ∙ sym (find_under-other p s c r ms hc (omega arith) (ground arith)))
]

-- One letter that names have, when none is left of the prefix behind them
last-Loops :
    (c : ℕ) (p : Bytes) (t : Tree) (m : Message) (ms : List Message)
    → 0 < c
    → IsSorted (m ∷ ms)
    → starts p m.cmd ≡ true
    → ((s : Bytes) → IsText s → arrive t s ≡ find_under (p ++ c ∷ []) s (m ∷ ms))
    → leaves p (outside (p ++ c ∷ []) (m ∷ ms)) ≡ true
    → Loops (some (point c t (λ x. null), outside (p ++ c ∷ []) (m ∷ ms))) c p (m ∷ ms)
unfolding outside IsSorted
last-Loops c p t m ms hc sorted under here gone =
    let rest = outside (p ++ c ∷ []) (m ∷ ms) in
    let same : outside p (m ∷ ms) ≡ rest =
      outside-outside p c (m ∷ ms) hc ∙ leaves-outside p rest gone in
    let none_left : AllOutside p rest =
      subst (AllOutside p) same
        (rw under (outside-AllOutside p m.cmd ms under sorted.1 sorted.2)) in
    (
      point c t (λ x. null),
      ap (λ l. some (point c t (λ x. null), l)) (sym same),
      point-Points c p t (λ x. null) (m ∷ ms) hc here
          (λ r s low high text.
            arrive-null s
            ∙ sym (
                AllOutside-none (p ++ r ∷ []) s rest
                  (AllOutside-snoc p r rest (omega arith) none_left))),
      λ r h. let e : (r == c) ≡ false = ground arith in rw e refl,
    )

pub stays-cons :
    (p : Bytes) (ms : List Message)
    → leaves p ms ≡ false
    → (x : Message) × (ns : List Message) × (ms ≡ x ∷ ns) × (starts p x.cmd ≡ true)
unfolding leaves
stays-cons p [] h = absurd (ground arith)
stays-cons p (x ∷ ns) h = (x, ns, refl, ground arith)

-- Behind the names of one letter, the prefix goes on with a later one.
next-Over :
    (c : ℕ) (p : Bytes) (ms ns : List Message) (x : Message)
    → 0 < c
    → outside (p ++ c ∷ []) ms ≡ x ∷ ns
    → starts p x.cmd ≡ true
    → IsSorted (x ∷ ns)
    → Over c p (x ∷ ns)
    → Over (c + 1) p (x ∷ ns)
unfolding Over IsSorted
next-Over c p ms ns x hc e under sorted over =
    let other = outside-head (p ++ c ∷ []) ms ns x e in
    let low : c + 1 ≤ first (drop (length p) x.cmd) =
      ground (arith, over.0 under, starts-snoc p c x.cmd hc) in
    (λ h. low, AllBehind-Over p x.cmd (c + 1) ns under low sorted.1)

skip-Over :
    (c : ℕ) (p : Bytes) (ms : List Message) (m : Message)
    → starts p m.cmd ≡ true
    → (first (drop (length p) m.cmd) == c) ≡ false
    → IsSorted (m ∷ ms)
    → Over c p (m ∷ ms)
    → Over (c + 1) p (m ∷ ms)
unfolding Over IsSorted
skip-Over c p ms m under other sorted over =
    let low : c + 1 ≤ first (drop (length p) m.cmd) = ground (arith, over.0 under) in
    (λ h. low, AllBehind-Over p m.cmd (c + 1) ms under low sorted.1)

-- What the loop makes of the pointers from the next letter on
more-Loops :
    (c : ℕ) (p : Bytes) (t : Tree) (ms : List Message) (o : Option ((ℕ → Tree) × List Message))
    → 0 < c
    → ((s : Bytes) → IsText s → arrive t s ≡ find_under (p ++ c ∷ []) s ms)
    → Loops o (c + 1) p (outside (p ++ c ∷ []) ms)
    → Loops (o >>= λ s. some (point c t s.0, s.1)) c p ms
more-Loops c p t ms o hc here (pointers, e, points, nulls) = (
  point c t pointers,
  rw e (ap (λ l. some (point c t pointers, l)) (sym (outside-outside p c ms hc))),
  point-Points c p t pointers ms hc here points,
  λ r h. let d : (r == c) ≡ false = ground arith in rw d (nulls r (omega arith)),
)

skip-Loops :
    (c : ℕ) (p : Bytes) (ms : List Message) (o : Option ((ℕ → Tree) × List Message))
    → 0 < c
    → Over (c + 1) p ms
    → Loops o (c + 1) p ms
    → Loops o c p ms
skip-Loops c p ms o hc over (pointers, e, points, nulls) = (
  pointers,
  e,
  λ r s low high text. elim (Bool-cases (r == c)) [
    | inl same ↦
        let at_c : r ≡ c = ground arith in
        subst (λ x. arrive (pointers x) s ≡ find_under (p ++ x ∷ []) s ms) (sym at_c)
          (ap (λ t. arrive t s) (nulls c (omega arith))
            ∙ arrive-null s
            ∙ sym (AllOutside-none (p ++ c ∷ []) s ms (Over-AllOutside c p ms hc over)))
    | inr later ↦ points r s (ground arith) high text
  ],
  λ r h. nulls r (omega arith),
)

pub letters-Loops :
    (n : ℕ) (rec : Bytes → List Message → Option (Tree × List Message)) (p : Bytes)
    → Calls n rec p
    → (k c : ℕ) (m : Message) (ms : List Message) → c + k ≡ 91
    → b'A' ≤ c
    → IsSorted (m ∷ ms)
    → AllShort n (m ∷ ms)
    → starts p m.cmd ≡ true
    → Over c p (m ∷ ms)
    → Loops (letters rec p k c (m ∷ ms)) c p (m ∷ ms)
unfolding letters Over IsSorted
letters-Loops n rec p calls zero c m ms end low sorted short under over =
    absurd (omega (arith, over.0 under, letter-IsCaps (length p) m.cmd sorted.0))
letters-Loops n rec p calls (suc k) c m ms end low sorted short under over =
    let T = m ∷ ms in
    elim (Bool-cases (first (drop (length p) m.cmd) == c)) [
      | inr other ↦
          let over' = skip-Over c p ms m under other sorted over in
          rw other (
            skip-Loops c p T (letters rec p k (c + 1) T) (omega arith) over' (
              letters-Loops n rec p calls k (c + 1) m ms (omega arith) (omega arith) sorted short
                under over'))
      | inl this ↦
          let under_c : starts (p ++ c ∷ []) m.cmd ≡ true =
            ground (arith, starts-snoc p c m.cmd (omega arith)) in
          let (t, e, here) = calls c m ms low sorted short under_c in
          let rest = outside (p ++ c ∷ []) T in
          elim (Bool-cases (leaves p rest)) [
            | inl gone ↦
                rw (this, e, gone) (last-Loops c p t m ms (omega arith) sorted under here gone)
            | inr stays ↦
                rw (this, e, stays)
                  (more-Loops c p t T (letters rec p k (c + 1) rest) (omega arith) here (
                    let (x, ns, cons, under_x) = stays-cons p rest stays in
                    let sorted_x = subst IsSorted cons (outside-IsSorted (p ++ c ∷ []) T sorted) in
                    let short_x =
                      subst (AllShort n) cons (outside-AllShort n (p ++ c ∷ []) T short) in
                    let over_x =
                      next-Over c p T ns x (omega arith) cons under_x sorted_x
                        (subst (Over c p) cons (outside-Over c (p ++ c ∷ []) p T over)) in
                    subst (λ l. Loops (letters rec p k (c + 1) l) (c + 1) p l) (sym cons)
                      (letters-Loops n rec p calls k (c + 1) x ns (omega arith) (omega arith)
                        sorted_x short_x under_x over_x)))
          ]
    ]
