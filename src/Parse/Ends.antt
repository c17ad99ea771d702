-- ===== src/Parse/Ends.antt =====
-- The lines that src/parse.c takes apart: every line has an end, and parameters come out as they
-- were put together.
use solidircd.Base.{
  ◌≡◌, ◌<◌, refl, arith, inl, inr, Bool-cases, ℕ, zero, suc, ◌+◌, Bool, true, false, List, [], ◌∷◌,
  ◌==◌, ◌&&◌, ◌||◌, not, if◌then◌else◌, Option, none, some, length, take,
}
use solidircd.Hash.{Bucket, Client, hash_find_client}
use solidircd.Match.Compare.{Bytes}
use solidircd.Parse.Tree.{Message, Tree, tree_parse}
use solidircd.Scache.{hostlen}
use solidircd.Parse.Line.{
  Source, Parsed, stop, skip_spaces, word, behind_word, numeric, behind_space, behind_colon, is_raw,
  dispatch, raw_text, reparse, command, parse, at_colon, at_message, at_command, at_numeric, dead,
  from_sender, prefixed,
}

behind_colon-shorter : (s r : Bytes) → behind_colon s ≡ some r → length r < length s
unfolding behind_colon
behind_colon-shorter [] r e = cc
behind_colon-shorter (c ∷ s) r e = ground (arith, behind_colon-shorter s r)

behind_space-shorter : (s r : Bytes) → behind_space s ≡ some r → length r < length s
unfolding behind_space
behind_space-shorter [] r e = cc
behind_space-shorter (c ∷ s) r e = ground (arith, behind_space-shorter s r)

chosen : (b : Bool) (s : Option Bytes) (r : Bytes) → (if b then s else none) ≡ some r → s ≡ some r
chosen true s r e = e
chosen false s r e = cc

raw_text-same : (m : Message) (s : Option Bytes) (r : Bytes) → raw_text m s ≡ some r → s ≡ some r
unfolding raw_text
raw_text-same m s r e = chosen (m.is_private && is_raw s) s r e

Ends : Option Parsed → Type 0
Ends o = (r : Parsed) × (o ≡ some r)

Ends-some : (r : Parsed) → Ends (some r)
unfolding Ends
Ends-some r = (r, refl)

at_colon-Ends :
    (again : Bytes → Option Parsed) (cptr from : Source) (para0 : Bytes) (mptr : Message)
    (cmd text : Bytes)
    → ((ch : Bytes) → length ch < length text → Ends (again ch))
    → Ends (at_colon again cptr from para0 mptr cmd text)
unfolding at_colon
at_colon-Ends again cptr from para0 mptr cmd text rec =
    go (behind_colon text) (λ ch e. rec ch (behind_colon-shorter text ch e))
  where
    go :
        (o : Option Bytes)
        → ((ch : Bytes) → o ≡ some ch → Ends (again ch))
        → Ends (elim o [
          | none ↦ some (dispatch cptr from para0 mptr none (some text) (length text))
          | some ch ↦ again ch
        ])
    go none rec = Ends-some _
    go (some ch) rec = rec ch refl

at_message-Ends :
    (again : Bytes → Option Parsed) (cptr from : Source) (para0 : Bytes) (mptr : Message)
    (cmd : Bytes) (s o : Option Bytes)
    → ((text : Bytes) → o ≡ some text → (ch : Bytes) → length ch < length text → Ends (again ch))
    → Ends (at_message again cptr from para0 mptr cmd s o)
unfolding at_message
at_message-Ends again cptr from para0 mptr cmd s none rec = Ends-some _
at_message-Ends again cptr from para0 mptr cmd s (some text) rec =
    at_colon-Ends again cptr from para0 mptr cmd text (rec text refl)

at_command-Ends :
    (again : Bytes → Option Parsed) (cptr from : Source) (para0 cmd : Bytes) (s : Option Bytes)
    (o : Option Message)
    → ((text : Bytes) → s ≡ some text → (ch : Bytes) → length ch < length text → Ends (again ch))
    → Ends (at_command again cptr from para0 cmd s o)
unfolding at_command
at_command-Ends again cptr from para0 cmd s none rec = Ends-some _
at_command-Ends again cptr from para0 cmd s (some mptr) rec =
    at_message-Ends again cptr from para0 mptr cmd s (raw_text mptr s)
      (λ text e. rec text (raw_text-same mptr s text e))

at_numeric-Ends :
    (again : Bytes → Option Parsed) (tree : Tree) (cptr from : Source) (para0 ch : Bytes)
    (o : Option (ℕ × Bytes))
    → ((ch' : Bytes) → length ch' < length ch → Ends (again ch'))
    → Ends (at_numeric again tree cptr from para0 ch o)
unfolding at_numeric
at_numeric-Ends again tree cptr from para0 ch (some (n, rest)) rec = Ends-some _
at_numeric-Ends again tree cptr from para0 ch none rec =
    at_command-Ends again cptr from para0 (word ch) (behind_space ch) (tree_parse tree (word ch))
      (λ text e ch' shorter. rec ch' (omega (arith, behind_space-shorter ch text e)))

reparse-Ends :
    (fuel : ℕ) (tree : Tree) (cptr from : Source) (para0 ch : Bytes)
    → length ch < fuel
    → Ends (reparse fuel tree cptr from para0 ch)
unfolding reparse
reparse-Ends zero tree cptr from para0 ch h = absurd (omega arith)
reparse-Ends (suc fuel) tree cptr from para0 ch h =
    at_numeric-Ends (λ text. reparse fuel tree cptr from para0 text) tree cptr from para0 ch
      (numeric ch) (λ ch' shorter. reparse-Ends fuel tree cptr from para0 ch' (omega arith))

command-Ends :
    (tree : Tree) (cptr from : Source) (para0 ch : Bytes) → Ends (command tree cptr from para0 ch)
unfolding command Ends
command-Ends tree cptr from para0 [] = (_, refl)
command-Ends tree cptr from para0 (c ∷ s) =
    reparse-Ends (length (c ∷ s) + 1) tree cptr from para0 (c ∷ s) (omega arith)

from_sender-Ends :
    (client_at : ℕ → Source) (tree : Tree) (cptr : Source) (sender ch : Bytes) (o : Option Client)
    → Ends (from_sender client_at tree cptr sender ch o)
unfolding from_sender Ends
from_sender-Ends client_at tree cptr sender ch none = (_, refl)
from_sender-Ends client_at tree cptr sender ch (some found) =
    elim (Bool-cases ((client_at found.at).via == cptr.at)) [
      | inl e ↦ rw e (command-Ends tree cptr (client_at found.at) sender ch)
      | inr e ↦ rw e (_, refl)
    ]

prefixed-Ends :
    (table : List (Bucket Client)) (client_at : ℕ → Source) (tree : Tree) (cptr : Source)
    (s : Bytes)
    → Ends (prefixed table client_at tree cptr s)
unfolding prefixed Ends
prefixed-Ends table client_at tree cptr [] = (_, refl)
prefixed-Ends table client_at tree cptr (c ∷ rest) =
    let sender = take hostlen (word rest) in
    let ch = skip_spaces (behind_word rest) in
    elim (Bool-cases (c == b':')) [
      | inr e ↦ rw e (command-Ends tree cptr cptr cptr.name (c ∷ rest))
      | inl e ↦ elim (Bool-cases (length sender == 0 || not cptr.is_server)) [
        | inl e1 ↦ rw (e, e1) (command-Ends tree cptr cptr cptr.name ch)
        | inr e1 ↦
            rw (e, e1)
              (from_sender-Ends client_at tree cptr sender ch (hash_find_client table sender none))
      ]
    ]

-- Whatever the line, the tree and the clients are, parse comes to an end, also where a private
-- message has it parse again.
pub parse-Ends :
    (table : List (Bucket Client)) (client_at : ℕ → Source) (tree : Tree) (cptr : Source)
    (buffer : Bytes)
    → (r : Parsed) × (parse table client_at tree cptr buffer ≡ some r)
unfolding parse Ends
parse-Ends table client_at tree cptr buffer =
    go cptr.is_dead (prefixed-Ends table client_at tree cptr (skip_spaces buffer))
  where
    go : {o : Option Parsed} (b : Bool) → Ends o → Ends (if b then some (stop dead) else o)
    go true ends = (_, refl)
    go false ends = ends
