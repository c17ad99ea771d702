-- ===== src/Parse/Build.antt =====
-- The tree of src/parse.c is that of its table.
use solidircd.Base.{
  ℕ, zero, suc, ◌+◌, ◌≤◌, ◌<◌, ◌≡◌, refl, sym, subst, ap, ◌∙◌, ◌⊎◌, inl, inr, Bool, true, false,
  List, [], ◌∷◌, ◌++◌, ◌&&◌, if◌then◌else◌, Option, none, some, ◌>>=◌, arith, length, length-append,
  drop, Bool-cases,
}
use solidircd.HashTable.{is_zero}
use solidircd.Match.Compare.{Bytes, IsText, first, mycmp}
use solidircd.Match.Tables.{to_upper, to_upper_lem}
use solidircd.Parse.Order.{less, IsCaps, drop-IsCaps}
use solidircd.Parse.Tree.{Message, starts}
use solidircd.Parse.Order.{starts-whole}
use solidircd.Parse.Table.{
  AllBehind, AllShort, IsSorted, find_under, outside, Over, AllOutside, outside-AllOutside,
  AllOutside-none, starts-length,
}
use solidircd.Parse.Tree.{
  Tree, null, node, Final, no_final, ends, tail, leaves, letters, do_msg_tree, init_tree_parse, hit,
  is_end, or_later, tree_parse,
}
use solidircd.Parse.Search.{tree_parse-null, node-find_under, ends-early}
use solidircd.Parse.Loop.{Builds, Calls, Loops, leaves-outside, letters-Loops, stays-cons}

-- A node without pointers
bare : (f : Final) (o : Option Message) (s : Bytes) → tree_parse (node f o (λ r. null)) s ≡ none
unfolding tree_parse hit
bare f o [] = refl
bare f o (c ∷ s) = rw (tree_parse-null s) (ground arith)

letter-or-end : (a : Bytes) → IsCaps a → (a ≡ []) ⊎ (b'A' ≤ first a)
unfolding IsCaps
letter-or-end [] h = inl refl
letter-or-end (c ∷ a) h = inr h.0.0

mycmp_self : (a : Bytes) → is_zero (mycmp a a) ≡ true
unfolding mycmp to_upper
mycmp_self [] = refl
mycmp_self (c ∷ a) = ground (arith, mycmp_self a)

mycmp-end : (d : ℕ) (s : Bytes) → IsText (d ∷ s) → is_zero (mycmp [] (d ∷ s)) ≡ false
unfolding mycmp
mycmp-end d s text = ground (arith, to_upper_lem 0 (omega arith), to_upper_lem d text.0.1, text.0.0)

-- A name that is equal to its prefix ends there.
whole-name :
    (p a : Bytes)
    → IsCaps a
    → starts p a ≡ true
    → is_zero (mycmp a p) ≡ true
    → drop (length p) a ≡ []
unfolding starts mycmp IsCaps
whole-name [] [] caps h e = refl
whole-name [] (c ∷ a) caps h e = absurd (ground (arith, ends-early (c ∷ a) caps caps.0.0))
whole-name (c ∷ p) [] caps h e = absurd (ground arith)
whole-name (c ∷ p) (d ∷ a) caps h e = ground (arith, whole-name p a caps.1)

less-starts : (p a : Bytes) → starts p a ≡ true → less a p ≡ false
unfolding less starts
less-starts [] [] h = refl
less-starts [] (c ∷ a) h = refl
less-starts (c ∷ p) [] h = absurd (ground arith)
less-starts (c ∷ p) (d ∷ a) h = ground (arith, less-starts p a)

-- Behind a name with the prefix, the prefix goes on with a letter.
behind-Over :
    (p a : Bytes) (ms : List Message)
    → starts p a ≡ true
    → AllBehind a ms
    → IsSorted ms
    → Over b'A' p ms
unfolding IsSorted AllBehind Over
behind-Over p a [] under behind sorted = tt
behind-Over p a (m ∷ ms) under behind sorted = (
  λ h. elim (letter-or-end (drop (length p) m.cmd) (drop-IsCaps (length p) m.cmd sorted.0)) [
    | inr low ↦ low
    | inl ended ↦
        let whole : m.cmd ≡ p = starts-whole p m.cmd h ended in
        let first_one : less a p ≡ true = subst (λ x. less a x ≡ true) whole behind.0 in
        absurd (ground (arith, less-starts p a under))
  ],
  behind-Over p a ms under behind.1 sorted.2,
)

-- The node of a name that no other shares its prefix with
leaf-Builds :
    (p : Bytes) (m : Message) (ms : List Message)
    → IsSorted (m ∷ ms)
    → starts p m.cmd ≡ true
    → leaves p ms ≡ true
    → Builds (some (node (tail (drop (length p) m.cmd)) (some m) (λ r. null), ms)) p (m ∷ ms)
unfolding IsSorted outside find_under hit
leaf-Builds p m ms sorted under gone =
    let rest : outside p ms ≡ ms = leaves-outside p ms gone in
    let t = node (tail (drop (length p) m.cmd)) (some m) (λ r. null) in
    let none_left : AllOutside p ms =
      subst (AllOutside p) rest (outside-AllOutside p m.cmd ms under sorted.1 sorted.2) in
    (
      t,
      rw under (ap (λ l. some (t, l)) (sym rest)),
      λ s text.
          rw
            (
              under,
              bare (tail (drop (length p) m.cmd)) (some m) s,
              AllOutside-none p s ms none_left,
            )
            (same-choice (is_zero (mycmp (drop (length p) m.cmd) s)) m),
    )
  where
    same-choice :
        (b : Bool) (x : Message)
        → or_later (if b then some x else none) none ≡ (if b then some x else none)
    same-choice true x = refl
    same-choice false x = refl

-- The node of a name that others go on from
named-Builds :
    (p : Bytes) (m : Message) (ms : List Message) (o : Option ((ℕ → Tree) × List Message))
    → IsSorted (m ∷ ms)
    → starts p m.cmd ≡ true
    → drop (length p) m.cmd ≡ []
    → Loops o b'A' p ms
    → Builds (o >>= λ s. some (node ends (some m) s.0, s.1)) p (m ∷ ms)
unfolding IsSorted outside find_under hit
named-Builds p m ms o sorted under ended (pointers, e, points, nulls) =
    let over = behind-Over p m.cmd ms under sorted.1 sorted.2 in
    (
      node ends (some m) pointers,
      rw (e, under) refl,
      λ s text.
          rw (under, ended, node-find_under p ends (some m) pointers ms s sorted.2 over points text)
            (here s text),
    )
  where
    here :
        (s : Bytes)
        → IsText s
        → or_later (if is_end s then some m else none) (find_under p s ms)
          ≡ (if true && is_zero (mycmp [] s) then some m else find_under p s ms)
    here [] text = rw (mycmp_self []) refl
    here (d ∷ s) text = rw (mycmp-end d s text) refl

-- The node of a prefix that is no name
plain-Builds :
    (p : Bytes) (ms : List Message) (o : Option ((ℕ → Tree) × List Message))
    → IsSorted ms
    → Over b'A' p ms
    → Loops o b'A' p ms
    → Builds (o >>= λ s. some (node no_final none s.0, s.1)) p ms
unfolding hit
plain-Builds p ms o sorted over (pointers, e, points, nulls) = (
  node no_final none pointers,
  rw e refl,
  λ s text. node-find_under p no_final none pointers ms s sorted over points text,
)

-- do_msg_tree on a sorted table that begins with names of the prefix.
pub do_msg_tree-Builds :
    (n fuel : ℕ) (p : Bytes) (m : Message) (ms : List Message)
    → n ≤ length p + fuel
    → IsSorted (m ∷ ms)
    → AllShort n (m ∷ ms)
    → starts p m.cmd ≡ true
    → Builds (do_msg_tree fuel p (m ∷ ms)) p (m ∷ ms)
unfolding do_msg_tree IsSorted AllShort Over
do_msg_tree-Builds n zero p m ms room sorted short under =
    absurd (omega (arith, short.0, starts-length p m.cmd under))
do_msg_tree-Builds n (suc fuel) p m ms room sorted short under =
    let calls : Calls n (do_msg_tree fuel) p = λ c x ns low sorted_x short_x under_x.
      do_msg_tree-Builds n fuel (p ++ c ∷ []) x ns (omega (arith, length-append p (c ∷ [])))
        sorted_x short_x under_x in
    let rest_over = behind-Over p m.cmd ms under sorted.1 sorted.2 in
    elim (Bool-cases (leaves p ms)) [
      | inl gone ↦ rw (under, gone) (leaf-Builds p m ms sorted under gone)
      | inr stays ↦ elim (Bool-cases (is_zero (mycmp m.cmd p))) [
        | inl named ↦
            let ended = whole-name p m.cmd sorted.0 under named in
            let (x, ns, cons, under_x) = stays-cons p ms stays in
            let loops : Loops (letters (do_msg_tree fuel) p 26 b'A' ms) b'A' p ms =
              subst (λ l. Loops (letters (do_msg_tree fuel) p 26 b'A' l) b'A' p l) (sym cons)
                (letters-Loops n (do_msg_tree fuel) p calls 26 b'A' x ns (omega arith) (omega arith)
                  (subst IsSorted cons sorted.2) (subst (AllShort n) cons short.1) under_x
                  (subst (Over b'A' p) cons rest_over)) in
            rw (under, stays, named)
              (named-Builds p m ms (letters (do_msg_tree fuel) p 26 b'A' ms) sorted under ended
                loops)
        | inr prefix ↦
            let low : b'A' ≤ first (drop (length p) m.cmd) =
              elim (letter-or-end (drop (length p) m.cmd) (drop-IsCaps (length p) m.cmd sorted.0)) [
                | inr low ↦ low
                | inl ended ↦
                    let whole = starts-whole p m.cmd under ended in
                    absurd (ground (arith, mycmp_self p, ap (λ x. is_zero (mycmp x p)) whole))
              ] in
            let over : Over b'A' p (m ∷ ms) = (λ h. low, rest_over) in
            let all = m ∷ ms in
            rw (under, stays, prefix)
              (plain-Builds p all (letters (do_msg_tree fuel) p 26 b'A' all) sorted over (
                letters-Loops n (do_msg_tree fuel) p calls 26 b'A' m ms (omega arith) (omega arith)
                  sorted short under over))
      ]
    ]

-- The first entry of the table whose name is the command, up to case
unfoldable pub find_command : Bytes → List Message → Option Message
find_command cmd [] = none
find_command cmd (m ∷ ms) = if is_zero (mycmp m.cmd cmd) then some m else find_command cmd ms

find_command-under : (cmd : Bytes) (ms : List Message) → find_under [] cmd ms ≡ find_command cmd ms
unfolding find_under find_command starts
find_command-under cmd [] = refl
find_command-under cmd (m ∷ ms) = rw (find_command-under cmd ms) refl

outside-all : (ms : List Message) → outside [] ms ≡ []
unfolding outside starts
outside-all [] = refl
outside-all (m ∷ ms) = outside-all ms

do_msg_tree-plain :
    (fuel : ℕ) (p : Bytes) (m : Message) (ms : List Message)
    → starts p m.cmd ≡ true
    → leaves p ms ≡ false
    → is_zero (mycmp m.cmd p) ≡ false
    → do_msg_tree (suc fuel) p (m ∷ ms)
      ≡ (letters (do_msg_tree fuel) p 26 b'A' (m ∷ ms) >>= λ s. some (node no_final none s.0, s.1))
unfolding do_msg_tree
do_msg_tree-plain fuel p m ms under stays prefix = rw (under, stays, prefix) refl

init-do_msg_tree :
    (ms : List Message) (t : Tree)
    → do_msg_tree 64 [] ms ≡ some (t, [])
    → init_tree_parse ms ≡ some t
unfolding init_tree_parse
init-do_msg_tree ms t e =
    ap (λ (o : Option (Tree × List Message)). o >>= λ r. elim r.1 [ [] ↦ some r.0 | m ∷ l ↦ none ])
      e

-- On a sorted table of two or more names of capital letters, none of them empty and none longer than
-- 63 bytes, init_tree_parse builds a tree, and tree_parse in it finds for every command what a search
-- in the whole table up to case finds.
pub tree_parse_lem :
    (m x : Message) (ms : List Message)
    → IsSorted (m ∷ x ∷ ms)
    → AllShort 64 (m ∷ x ∷ ms)
    → 0 < length m.cmd
    → (t : Tree) × (init_tree_parse (m ∷ x ∷ ms) ≡ some t)
      × ((cmd : Bytes) → IsText cmd → tree_parse t cmd ≡ find_command cmd (m ∷ x ∷ ms))
unfolding leaves starts IsSorted Over
tree_parse_lem m x ms sorted short named =
    let table = m ∷ x ∷ ms in
    let calls : Calls 64 (do_msg_tree 63) [] = λ c y ns low sorted_y short_y under_y.
      do_msg_tree-Builds 64 63 ([] ++ c ∷ []) y ns (omega arith) sorted_y short_y under_y in
    let low : b'A' ≤ first m.cmd = elim (letter-or-end m.cmd sorted.0) [
      | inr low ↦ low
      | inl ended ↦ absurd (omega (arith, named, ap (λ (s : Bytes). length s) ended))
    ] in
    let over : Over b'A' [] table =
      (λ h. low, behind-Over [] m.cmd (x ∷ ms) refl sorted.1 sorted.2) in
    let (pointers, e, points, nulls) =
      letters-Loops 64 (do_msg_tree 63) [] calls 26 b'A' m (x ∷ ms) (omega arith) (omega arith)
        sorted short refl over in
    let prefix : is_zero (mycmp m.cmd []) ≡ false = ends-early m.cmd sorted.0 low in
    (
      node no_final none pointers,
      init-do_msg_tree table (node no_final none pointers) (
          do_msg_tree-plain 63 [] m (x ∷ ms) refl refl prefix
          ∙ ap
              (λ (o : Option ((ℕ → Tree) × List Message)).
                o >>= λ s. some (node no_final none s.0, s.1))
              (e ∙ ap (λ l. some (pointers, l)) (outside-all table))),
      λ cmd text.
          node-find_under [] no_final none pointers table cmd sorted over points text
          ∙ find_command-under cmd table,
    )
