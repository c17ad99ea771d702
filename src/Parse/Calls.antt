-- ===== src/Parse/Calls.antt =====
-- Whole lines of clients and servers, with the tree of the table of src/parse.c.
use solidircd.Base.{
  ◌≡◌, ◌<◌, ◌≤◌, ◌++◌, refl, ap, ◌∙◌, arith, ℕ, zero, suc, ◌+◌, Bool, true, false, List, [], ◌∷◌,
  ◌==◌, ◌&&◌, ◌||◌, not, if◌then◌else◌, none, some, length, take,
}
use solidircd.Hash.{Bucket, Client, hash_find_client}
use solidircd.Match.Compare.{Bytes, IsText, first}
use solidircd.Match.Tables.{attribute}
use solidircd.Parse.Tree.{Message, Tree, tree_parse}
use solidircd.Scache.{hostlen}
use solidircd.Parse.Build.{find_command, tree_parse_lem}
use solidircd.Parse.Table.{IsSorted, AllShort}
use solidircd.Parse.Tree.{init_tree_parse}
use solidircd.Parse.Line.{
  cancel_clients, Source, stop, skip_spaces, word, behind_word, reparse, command, parse, dead,
  from_sender, prefixed,
}
use solidircd.Parse.Roundtrip.{
  IsMiddle, AllMiddle, put_line, called, room_for, word-append, word-cons, reparse-called,
}

skip_spaces-word : (c : ℕ) (s : Bytes) → (c == b' ') ≡ false → skip_spaces (c ∷ s) ≡ c ∷ s
unfolding skip_spaces
skip_spaces-word c s e = rw e refl

command-called :
    (tree : Tree) (cptr from : Source) (para0 : Bytes) (m : Message) (cmd : Bytes) (ws : List Bytes)
    (last : Bytes)
    → IsMiddle cmd
    → attribute 16 (first cmd) ≡ false
    → tree_parse tree cmd ≡ some m
    → m.is_private ≡ false
    → (not cptr.is_registered && not m.unreg) ≡ false
    → AllMiddle ws
    → length ws ≤ room_for m
    → command tree cptr from para0 (put_line cmd ws last) ≡ some (called cptr from para0 m ws last)
unfolding command
command-called tree cptr from para0 m [] ws last middle letter found public allowed all fits =
    absurd (omega (arith, middle.1))
command-called tree cptr from para0 m (c ∷ w) ws last middle letter found public allowed all fits =
    let n = length (put_line (c ∷ w) ws last) in
    let step : n + 1 ≡ suc n = omega arith in
    ap (λ k. reparse k tree cptr from para0 (put_line (c ∷ w) ws last)) step
    ∙ reparse-called n tree cptr from para0 m (c ∷ w) ws last middle.0 middle.1 letter found public
        allowed all fits

-- A line without a prefix
prefixed-client :
    (clients : List (Bucket Client)) (client_at : ℕ → Source) (tree : Tree) (cptr : Source)
    (cmd : Bytes) (ws : List Bytes) (last : Bytes)
    → IsMiddle cmd
    → prefixed clients client_at tree cptr (skip_spaces (put_line cmd ws last))
      ≡ command tree cptr cptr cptr.name (put_line cmd ws last)
unfolding prefixed
prefixed-client clients client_at tree cptr [] ws last middle = absurd (omega (arith, middle.1))
prefixed-client clients client_at tree cptr (c ∷ w) ws last middle =
    let colon : (c == b':') ≡ false = ground (arith, middle.2) in
    ap (prefixed clients client_at tree cptr)
      (skip_spaces-word c (put_line w ws last) (word-cons c w middle.0).0)
    ∙ rw colon refl

if-false {ℓ} : {A : Type ℓ} (b : Bool) (x y : A) → b ≡ false → (if b then x else y) ≡ y
if-false true x y e = cc
if-false false x y e = refl

parse-alive :
    (clients : List (Bucket Client)) (client_at : ℕ → Source) (tree : Tree) (cptr : Source)
    (buffer : Bytes)
    → cptr.is_dead ≡ false
    → parse clients client_at tree cptr buffer
      ≡ prefixed clients client_at tree cptr (skip_spaces buffer)
unfolding parse
parse-alive clients client_at tree cptr buffer alive =
    if-false cptr.is_dead (some (stop dead))
      (prefixed clients client_at tree cptr (skip_spaces buffer)) alive

take-all : (n : ℕ) (s : Bytes) → length s ≤ n → take n s ≡ s
take-all zero [] h = refl
take-all zero (c ∷ s) h = absurd (omega arith)
take-all (suc n) [] h = refl
take-all (suc n) (c ∷ s) h = ap (λ t. c ∷ t) (take-all n s (omega arith))

skip_spaces-line :
    (cmd : Bytes) (ws : List Bytes) (last : Bytes)
    → IsMiddle cmd
    → skip_spaces (b' ' ∷ put_line cmd ws last) ≡ put_line cmd ws last
unfolding skip_spaces
skip_spaces-line [] ws last middle = absurd (omega (arith, middle.1))
skip_spaces-line (c ∷ w) ws last middle = rw (word-cons c w middle.0).0 refl

-- A line from a server that begins with a sender
abbrev pub put_prefix : Bytes → Bytes → Bytes
put_prefix sender line = b':' ∷ (sender ++ b' ' ∷ line)

prefixed-server :
    (clients : List (Bucket Client)) (client_at : ℕ → Source) (tree : Tree) (cptr : Source)
    (sender : Bytes) (found : Client) (cmd : Bytes) (ws : List Bytes) (last : Bytes)
    → cptr.is_server ≡ true
    → word sender ≡ sender
    → 0 < length sender
    → length sender ≤ hostlen
    → hash_find_client clients sender none ≡ some found
    → (client_at found.at).via ≡ cptr.at
    → IsMiddle cmd
    → prefixed clients client_at tree cptr (put_prefix sender (put_line cmd ws last))
      ≡ command tree cptr (client_at found.at) sender (put_line cmd ws last)
unfolding prefixed from_sender
prefixed-server clients client_at tree cptr sender found cmd ws last server whole some_sender short
      known direct middle =
    let line = put_line cmd ws last in
    let words = word-append sender line whole in
    let cut : take hostlen (word (sender ++ b' ' ∷ line)) ≡ sender =
      ap (take hostlen) words.0 ∙ take-all hostlen sender short in
    let behind : skip_spaces (behind_word (sender ++ b' ' ∷ line)) ≡ line =
      ap skip_spaces words.1 ∙ skip_spaces-line cmd ws last middle in
    let taken : (length (take hostlen (word (sender ++ b' ' ∷ line))) == 0 || not cptr.is_server)
        ≡ false =
      ap (λ (t : Bytes). length t == 0 || not cptr.is_server) cut ∙ ground (arith, server) in
    let here : not ((client_at found.at).via == cptr.at) ≡ false = ground (arith, direct) in
    if-false (length (take hostlen (word (sender ++ b' ' ∷ line))) == 0 || not cptr.is_server)
      (command tree cptr cptr cptr.name (skip_spaces (behind_word (sender ++ b' ' ∷ line))))
      (from_sender client_at tree cptr (take hostlen (word (sender ++ b' ' ∷ line)))
        (skip_spaces (behind_word (sender ++ b' ' ∷ line)))
        (hash_find_client clients (take hostlen (word (sender ++ b' ' ∷ line))) none))
      taken
    ∙ ap
        (λ s.
          from_sender client_at tree cptr s (skip_spaces (behind_word (sender ++ b' ' ∷ line)))
            (hash_find_client clients s none))
        cut
    ∙ ap (λ s. from_sender client_at tree cptr sender s (hash_find_client clients sender none))
        behind
    ∙ ap (from_sender client_at tree cptr sender line) known
    ∙ if-false (not ((client_at found.at).via == cptr.at))
        (some (stop (cancel_clients (client_at found.at))))
        (command tree cptr (client_at found.at) sender line) here

-- The command line of a live client, for a table as in `tree_parse_lem`: the command is in the table
-- up to case, does not begin with a digit, is no private message and is open to the client, and the
-- parameters in front of the last have bytes, no spaces and no colon in front, and are no more than
-- the command takes. Then parse calls the command with the name of the client and just these
-- parameters, in their order, and counts the bytes behind the command.
pub parse-client :
    (m0 x : Message) (ms : List Message)
    → IsSorted (m0 ∷ x ∷ ms)
    → AllShort 64 (m0 ∷ x ∷ ms)
    → 0 < length m0.cmd
    → (clients : List (Bucket Client)) (client_at : ℕ → Source) (cptr : Source) (m : Message)
      (cmd : Bytes) (ws : List Bytes) (last : Bytes)
    → cptr.is_dead ≡ false
    → IsText cmd
    → IsMiddle cmd
    → attribute 16 (first cmd) ≡ false
    → find_command cmd (m0 ∷ x ∷ ms) ≡ some m
    → m.is_private ≡ false
    → (not cptr.is_registered && not m.unreg) ≡ false
    → AllMiddle ws
    → length ws ≤ room_for m
    → (tree : Tree) × (init_tree_parse (m0 ∷ x ∷ ms) ≡ some tree)
      × (parse clients client_at tree cptr (put_line cmd ws last)
          ≡ some (called cptr cptr cptr.name m ws last))
parse-client m0 x ms sorted short named clients client_at cptr m cmd ws last alive text middle
      letter found public allowed all fits =
    let (tree, built, search) = tree_parse_lem m0 x ms sorted short named in
    (
      tree,
      built,
      parse-alive clients client_at tree cptr (put_line cmd ws last) alive
          ∙ prefixed-client clients client_at tree cptr cmd ws last middle
          ∙ command-called tree cptr cptr cptr.name m cmd ws last middle letter
              (search cmd text ∙ found) public allowed all fits,
    )

-- The same line of a server, behind a sender of at most HOSTLEN bytes without spaces that
-- hash_find_client finds, and that is reached by this server: parse calls the command for the client
-- that it found, with the sender and just these parameters.
pub parse-server :
    (m0 x : Message) (ms : List Message)
    → IsSorted (m0 ∷ x ∷ ms)
    → AllShort 64 (m0 ∷ x ∷ ms)
    → 0 < length m0.cmd
    → (clients : List (Bucket Client)) (client_at : ℕ → Source) (cptr : Source) (m : Message)
      (sender : Bytes) (from : Client) (cmd : Bytes) (ws : List Bytes) (last : Bytes)
    → cptr.is_dead ≡ false
    → cptr.is_server ≡ true
    → word sender ≡ sender
    → 0 < length sender
    → length sender ≤ hostlen
    → hash_find_client clients sender none ≡ some from
    → (client_at from.at).via ≡ cptr.at
    → IsText cmd
    → IsMiddle cmd
    → attribute 16 (first cmd) ≡ false
    → find_command cmd (m0 ∷ x ∷ ms) ≡ some m
    → m.is_private ≡ false
    → (not cptr.is_registered && not m.unreg) ≡ false
    → AllMiddle ws
    → length ws ≤ room_for m
    → (tree : Tree) × (init_tree_parse (m0 ∷ x ∷ ms) ≡ some tree)
      × (parse clients client_at tree cptr (put_prefix sender (put_line cmd ws last))
          ≡ some (called cptr (client_at from.at) sender m ws last))
parse-server m0 x ms sorted short named clients client_at cptr m sender from cmd ws last alive
      server whole some_sender fit known direct text middle letter found public allowed all fits =
    let (tree, built, search) = tree_parse_lem m0 x ms sorted short named in
    (
      tree,
      built,
      parse-alive clients client_at tree cptr (put_prefix sender (put_line cmd ws last)) alive
          ∙ ap (prefixed clients client_at tree cptr)
              (skip_spaces-word b':' (sender ++ b' ' ∷ put_line cmd ws last) refl)
          ∙ prefixed-server clients client_at tree cptr sender from cmd ws last server whole
              some_sender fit known direct middle
          ∙ command-called tree cptr (client_at from.at) sender m cmd ws last middle letter
              (search cmd text ∙ found) public allowed all fits,
    )
