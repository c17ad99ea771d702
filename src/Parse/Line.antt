-- ===== src/Parse/Line.antt =====
-- The function `parse` of src/parse.c. A line is its bytes before the terminator, which `bufend` is
-- taken to point to. The counters of `ircstp` and of the commands are not kept.
use solidircd.Base.{
  ℕ, zero, suc, ◌+◌, ◌-◌, ◌*◌, ◌/◌, ◌%◌, Bool, false, List, [], ◌∷◌, ◌==◌, ltb, ◌&&◌, ◌||◌, not,
  if◌then◌else◌, Option, none, some, length, take,
}
use solidircd.Hash.{Bucket, Client, hash_find_client}
use solidircd.Match.Compare.{Bytes}
use solidircd.Match.Tables.{attribute}
use solidircd.Parse.Tree.{Message, Tree, tree_parse}
use solidircd.Scache.{hostlen}

abbrev pub maxpara : ℕ
maxpara = 15

-- What `parse` reads of an `aClient`: `via` is the address of `from`, the rest are its macros.
pub record Source : Type 0 where
  pub at : ℕ
  pub name : Bytes
  pub via : ℕ
  pub is_dead : Bool
  pub is_server : Bool
  pub is_person : Bool
  pub is_an_oper : Bool
  pub is_registered : Bool
  pub is_registered_user : Bool
  pub no_msg_throttle : Bool
  pub receive_m : ℕ

-- How `parse` ends. `bad_pointer` is the print of a text at the address 1.
pub data Outcome : Type 0 where
  dead : Outcome
  unknown_prefix : Bytes → Outcome
  cancel_clients : Source → Outcome
  empty_message : Outcome
  unknown_command : Source → Bytes → Outcome
  do_numeric : ℕ → Source → List Bytes → Outcome
  register_first : Source → Bytes → Outcome
  bad_pointer : Outcome
  call : Message → Source → List Bytes → Outcome

-- What is added to `since`, and `bytes` of the command, stand with the end; `last` is whether the
-- time of the user's last message is set.
pub record Parsed : Type 0 where
  pub outcome : Outcome
  pub since : ℕ
  pub bytes : ℕ
  pub last : Bool

abbrev pub stop : Outcome → Parsed
stop o = record { outcome = o; since = 0; bytes = 0; last = false }

unfoldable pub skip_spaces : Bytes → Bytes
skip_spaces [] = []
skip_spaces (c ∷ s) = if c == b' ' then skip_spaces s else c ∷ s

-- The bytes before the first space, and the text from it on
unfoldable pub word : Bytes → Bytes
word [] = []
word (c ∷ s) = if c == b' ' then [] else c ∷ word s

unfoldable pub behind_word : Bytes → Bytes
behind_word [] = []
behind_word (c ∷ s) = if c == b' ' then c ∷ s else behind_word s

-- The parameter that takes all that is left
abbrev pub last_para : Bytes → List Bytes
last_para [] = []
last_para (c ∷ s) = if c == b':' then s ∷ [] else (c ∷ s) ∷ []

-- One round of the loop over the parameters, behind the spaces, and the rounds after it
unfoldable pub next_para : (Bytes → List Bytes) → Bytes → List Bytes
unfolding word behind_word
next_para later [] = []
next_para later (c ∷ s) = if c == b':' then s ∷ [] else word (c ∷ s) ∷ later (behind_word (c ∷ s))

-- The loop over the parameters, where after the next one so many more may come
unfoldable pub paras : ℕ → Bytes → List Bytes
unfolding skip_spaces next_para
paras zero s = last_para (skip_spaces s)
paras (suc more) s = next_para (λ t. paras more t) (skip_spaces s)

-- The parameters of a text behind the command, if there is one
unfoldable pub all_paras : ℕ → Option Bytes → List Bytes
unfolding paras
all_paras paramcount none = []
all_paras paramcount (some s) =
    paras ((if ltb maxpara paramcount then maxpara else paramcount) - 2) s

-- Three digits and a space
unfoldable pub numeric : Bytes → Option (ℕ × Bytes)
unfolding attribute
numeric (a ∷ b ∷ c ∷ d ∷ s) =
    if d == b' ' && attribute 16 a && attribute 16 b && attribute 16 c
    then some ((a - b'0') * 100 + (b - b'0') * 10 + (c - b'0'), s)
    else none
numeric _ = none

-- `strchr(ch, ' ')`: what is behind the space
unfoldable pub behind_space : Bytes → Option Bytes
behind_space [] = none
behind_space (c ∷ s) = if c == b' ' then some s else behind_space s

-- `index(s, ':')`
unfoldable pub behind_colon : Bytes → Option Bytes
behind_colon [] = none
behind_colon (c ∷ s) = if c == b':' then some s else behind_colon s

-- `!strncasecmp(s, "raw ", 4)`
unfoldable pub is_raw : Option Bytes → Bool
is_raw (some (a ∷ b ∷ c ∷ d ∷ s)) =
    (a == b'r' || a == b'R') && (b == b'a' || b == b'A') && (c == b'w' || c == b'W') && d == b' '
is_raw _ = false

-- `bufend - ((s) ? s : ch)`
abbrev pub left : Bytes → Option Bytes → ℕ
left ch none = length ch
left ch (some s) = length s

unfoldable pub more_since : Source → ℕ → ℕ
more_since cptr i =
    if cptr.is_server || cptr.no_msg_throttle
    then 0
    else if cptr.is_an_oper
    then (if cptr.receive_m % 10 == 0 then 0 else 1)
    else 2 + i / 120

-- The end of `parse`, for a command that is known; `ch` is NULL + 1 when it is `none`.
unfoldable pub dispatch :
    Source → Source → Bytes → Message → Option Bytes → Option Bytes → ℕ → Parsed
unfolding all_paras more_since
dispatch cptr from para0 mptr ch s i =
    let refused : Outcome = elim ch [ none ↦ bad_pointer | some text ↦ register_first from text ] in
    if not cptr.is_registered && not mptr.unreg
    then record { outcome = refused; since = more_since cptr i; bytes = i; last = false }
    else record {
      outcome = call mptr from (para0 ∷ all_paras mptr.parameters s);
      since = more_since cptr i;
      bytes = i;
      last = cptr.is_registered_user && mptr.ridle;
    }

-- The text behind a private message that begins with `raw`
unfoldable pub raw_text : Message → Option Bytes → Option Bytes
unfolding is_raw
raw_text mptr s = if mptr.is_private && is_raw s then s else none

-- What is read again behind `raw`, by `goto reparse`, when there is a colon
unfoldable pub at_colon :
    (Bytes → Option Parsed) → Source → Source → Bytes → Message → Bytes → Bytes → Option Parsed
unfolding behind_colon dispatch
at_colon again cptr from para0 mptr cmd text = elim (behind_colon text) [
  | none ↦ some (dispatch cptr from para0 mptr none (some text) (length text))
  | some ch ↦ again ch
]

unfoldable pub at_message :
    (Bytes → Option Parsed)
    → Source
    → Source
    → Bytes
    → Message
    → Bytes
    → Option Bytes
    → Option Bytes
    → Option Parsed
unfolding at_colon dispatch
at_message again cptr from para0 mptr cmd s none =
    some (dispatch cptr from para0 mptr (some cmd) s (left cmd s))
at_message again cptr from para0 mptr cmd s (some text) =
    at_colon again cptr from para0 mptr cmd text

unfoldable pub at_command :
    (Bytes → Option Parsed)
    → Source
    → Source
    → Bytes
    → Bytes
    → Option Bytes
    → Option Message
    → Option Parsed
unfolding at_message raw_text
at_command again cptr from para0 cmd s none = some (stop (unknown_command from cmd))
at_command again cptr from para0 cmd s (some mptr) =
    at_message again cptr from para0 mptr cmd s (raw_text mptr s)

unfoldable pub at_numeric :
    (Bytes → Option Parsed)
    → Tree
    → Source
    → Source
    → Bytes
    → Bytes
    → Option (ℕ × Bytes)
    → Option Parsed
unfolding all_paras tree_parse word behind_space at_command
at_numeric again tree cptr from para0 ch (some (n, rest)) =
    some (stop (do_numeric n from (para0 ∷ all_paras maxpara (some rest))))
at_numeric again tree cptr from para0 ch none =
    at_command again cptr from para0 (word ch) (behind_space ch) (tree_parse tree (word ch))

-- From `reparse` on: each time the text is shorter, so that fuel above its length is enough.
unfoldable pub reparse : ℕ → Tree → Source → Source → Bytes → Bytes → Option Parsed
unfolding numeric at_numeric
reparse zero tree cptr from para0 ch = none
reparse (suc fuel) tree cptr from para0 ch =
    at_numeric (λ text. reparse fuel tree cptr from para0 text) tree cptr from para0 ch (numeric ch)

-- Behind the prefix
unfoldable pub command : Tree → Source → Source → Bytes → Bytes → Option Parsed
unfolding reparse
command tree cptr from para0 [] = some (stop empty_message)
command tree cptr from para0 (c ∷ s) = reparse (length (c ∷ s) + 1) tree cptr from para0 (c ∷ s)

-- A prefix that a server sent, and the client under that name
unfoldable pub from_sender :
    (ℕ → Source) → Tree → Source → Bytes → Bytes → Option Client → Option Parsed
unfolding command
from_sender client_at tree cptr sender ch none = some (stop (unknown_prefix sender))
from_sender client_at tree cptr sender ch (some found) =
    let from = client_at found.at in
    if not (from.via == cptr.at)
    then some (stop (cancel_clients from))
    else command tree cptr from sender ch

-- The line from its first byte that is no space on
unfoldable pub prefixed :
    List (Bucket Client) → (ℕ → Source) → Tree → Source → Bytes → Option Parsed
unfolding skip_spaces word behind_word command from_sender hash_find_client
prefixed table client_at tree cptr [] = some (stop empty_message)
prefixed table client_at tree cptr (c ∷ rest) =
    let sender = take hostlen (word rest) in
    let ch = skip_spaces (behind_word rest) in
    if not (c == b':')
    then command tree cptr cptr cptr.name (c ∷ rest)
    else if length sender == 0 || not cptr.is_server
    then command tree cptr cptr cptr.name ch
    else from_sender client_at tree cptr sender ch (hash_find_client table sender none)

-- `parse`, with the table of the clients and what stands at their addresses
unfoldable pub parse : List (Bucket Client) → (ℕ → Source) → Tree → Source → Bytes → Option Parsed
unfolding prefixed
parse table client_at tree cptr buffer =
    let line = prefixed table client_at tree cptr (skip_spaces buffer) in
    if cptr.is_dead then some (stop dead) else line
