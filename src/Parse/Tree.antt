-- ===== src/Parse/Tree.antt =====
-- The tree of the commands of src/parse.c. A table is the list of its entries, without the one at the
-- end that has no name. `none` is a crash: the end of the table read as an entry, `exit`, or a name
-- longer than `newpref`.
use solidircd.Base.{
  ℕ, zero, suc, ◌+◌, ◌-◌, ◌/◌, ◌%◌, Bool, true, false, List, [], ◌∷◌, ◌++◌, ◌==◌, ltb, ◌||◌, not,
  if◌then◌else◌, Option, none, some, ◌>>=◌, length, drop,
}
use solidircd.HashTable.{is_zero}
use solidircd.Match.Compare.{Bytes, first, mycmp}

-- `struct Message`, without the counters. `func == m_private` and the bits of `flags` are tests.
pub record Message : Type 0 where
  pub cmd : Bytes
  pub is_private : Bool
  pub parameters : ℕ
  pub ridle : Bool
  pub unreg : Bool
  pub aliased : Bool
  pub aliasidx : ℕ

-- The pointer `final`: NULL, 1, or the rest of a name
pub data Final : Type 0 where
  no_final : Final
  ends : Final
  tail : Bytes → Final

-- `MESSAGE_TREE *`; the pointers are known by their letters.
pub data Tree : Type 0 where
  null : Tree
  node : Final → Option Message → (ℕ → Tree) → Tree

-- `!strncmp(cmd, prefix, strlen(prefix))`
unfoldable pub starts : Bytes → Bytes → Bool
starts [] cmd = true
starts (c ∷ prefix) [] = false
starts (c ∷ prefix) (d ∷ cmd) = if c == d then starts prefix cmd else false

-- `!mptr->cmd || strncmp(mptr->cmd, prefix, lp)`
unfoldable pub leaves : Bytes → List Message → Bool
unfolding starts
leaves prefix [] = true
leaves prefix (m ∷ ms) = not (starts prefix m.cmd)

-- `mtree->pointers[c - 'A'] = mtree1`
abbrev pub point : ℕ → Tree → (ℕ → Tree) → ℕ → Tree
point c t pointers r = if r == c then t else pointers r

-- The loop over the letters, from `c` on, for the `k` that are left; `rec` is the recursive call.
unfoldable pub letters :
    (Bytes → List Message → Option (Tree × List Message))
    → Bytes
    → ℕ
    → ℕ
    → List Message
    → Option ((ℕ → Tree) × List Message)
unfolding leaves
letters rec prefix zero c ms = some (λ r. null, ms)
letters rec prefix (suc k) c [] = none
letters rec prefix (suc k) c (m ∷ ms) =
    let skip = letters rec prefix k (c + 1) (m ∷ ms) in
    if first (drop (length prefix) m.cmd) == c
    then (rec (prefix ++ c ∷ []) (m ∷ ms) >>= λ r.
        let later = letters rec prefix k (c + 1) r.1 in
        if leaves prefix r.1
        then some (point c r.0 (λ x. null), r.1)
        else (later >>= λ s. some (point c r.0 s.0, s.1)))
    else skip

-- `do_msg_tree`, on as much fuel as `newpref` has room
unfoldable pub do_msg_tree : ℕ → Bytes → List Message → Option (Tree × List Message)
unfolding starts leaves letters
do_msg_tree zero prefix ms = none
do_msg_tree (suc fuel) prefix [] = none
do_msg_tree (suc fuel) prefix (m ∷ ms) =
    let below = letters (do_msg_tree fuel) prefix 26 b'A' in
    if not (starts prefix m.cmd)
    then none
    else if leaves prefix ms
    then some (node (tail (drop (length prefix) m.cmd)) (some m) (λ r. null), ms)
    else if is_zero (mycmp m.cmd prefix)
    then (below ms >>= λ s. some (node ends (some m) s.0, s.1))
    else (below (m ∷ ms) >>= λ s. some (node no_final none s.0, s.1))

-- `init_tree_parse` behind the qsort: an entry that is left over is an `exit`.
unfoldable pub init_tree_parse : List Message → Option Tree
unfolding do_msg_tree
init_tree_parse msgtab =
    do_msg_tree 64 [] msgtab >>= λ r. elim r.1 [ [] ↦ some r.0 | m ∷ ms ↦ none ]

-- `r &= 0xdf`
unfoldable pub fold : ℕ → ℕ
fold c = if (c / 32) % 2 == 1 then c - 32 else c

abbrev pub child : Tree → ℕ → Tree
child null r = null
child (node final msg pointers) r = pointers r

abbrev pub is_end : Bytes → Bool
is_end [] = true
is_end (c ∷ s) = false

-- The two tests of a node, for what is left of the command
unfoldable pub hit : Tree → Bytes → Option Message
hit null cmd = none
hit (node no_final msg pointers) cmd = none
hit (node ends msg pointers) cmd = if is_end cmd then msg else none
hit (node (tail final) msg pointers) cmd = if is_zero (mycmp final cmd) then msg else none

abbrev pub or_later : Option Message → Option Message → Option Message
or_later none later = later
or_later (some m) later = some m

-- `tree_parse`, from a node on
unfoldable pub tree_parse : Tree → Bytes → Option Message
unfolding fold hit
tree_parse mtree [] = none
tree_parse mtree (c ∷ cmd) =
    let r = fold c in
    let later = tree_parse (child mtree r) cmd in
    if ltb r b'A' || ltb b'Z' r then none else or_later (hit (child mtree r) cmd) later
