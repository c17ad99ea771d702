-- ===== src/Parse/Tests.antt =====
-- Runs of src/parse.c on a small table of commands, and the theorems there.
use solidircd.Base.{
  ◌≡◌, refl, Bool, true, false, List, [], ◌∷◌, Option, none, some, ◌>>=◌, ◌++◌, arith,
}
use solidircd.Hash.{Bucket, Client, clear, add_to_client_hash_table, hash_find_client}
use solidircd.Match.Compare.{Bytes, IsText, mycmp}
use solidircd.Match.Tables.{attribute, to_upper, to_lower}
use solidircd.Parse.Build.{find_command, tree_parse_lem}
use solidircd.Parse.Calls.{parse-client, parse-server, put_prefix}
use solidircd.Parse.Ends.{parse-Ends}
use solidircd.Parse.Field.{AllPlain, before, put_fields, getfields, getfields-put_fields}
use solidircd.Parse.Line.{Source, Outcome, Parsed, parse, bad_pointer, call, word}
use solidircd.Parse.Order.{less, IsCaps}
use solidircd.Parse.Roundtrip.{AllMiddle, put_paras, put_line, called}
use solidircd.Parse.Table.{IsSorted, AllShort, AllBehind}
use solidircd.Parse.Tree.{Message, Tree, null, init_tree_parse, tree_parse}

abbrev ping : Bytes
ping = b'P' ∷ b'I' ∷ b'N' ∷ b'G' ∷ []

abbrev pong : Bytes
pong = b'P' ∷ b'O' ∷ b'N' ∷ b'G' ∷ []

abbrev privmsg : Bytes
privmsg = b'P' ∷ b'R' ∷ b'I' ∷ b'V' ∷ b'M' ∷ b'S' ∷ b'G' ∷ []

abbrev who : Bytes
who = b'W' ∷ b'H' ∷ b'O' ∷ []

abbrev whois : Bytes
whois = b'W' ∷ b'H' ∷ b'O' ∷ b'I' ∷ b'S' ∷ []

abbrev entry : Bytes → Bool → Message
entry cmd is_private = record {
  cmd = cmd;
  is_private = is_private;
  parameters = 15;
  ridle = false;
  unreg = false;
  aliased = false;
  aliasidx = 0;
}

abbrev table : List Message
table = entry pong false ∷ entry privmsg true ∷ entry who false ∷ entry whois false ∷ []

abbrev all : List Message
all = entry ping false ∷ table

abbrev user : Source
user = record {
  at = 7;
  name = b'j' ∷ b'o' ∷ [];
  via = 7;
  is_dead = false;
  is_server = false;
  is_person = true;
  is_an_oper = false;
  is_registered = true;
  is_registered_user = true;
  no_msg_throttle = false;
  receive_m = 0;
}

abbrev names : Option Message → Option Bytes
names none = none
names (some m) = some m.cmd

abbrev found : Bytes → Option Bytes
found cmd = init_tree_parse all >>= λ t. names (tree_parse t cmd)

who_run : found (b'w' ∷ b'h' ∷ b'O' ∷ []) ≡ some who
unfolding init_tree_parse tree_parse to_upper mycmp
who_run = refl

whois_run : found (b'w' ∷ b'h' ∷ b'O' ∷ b'i' ∷ b's' ∷ []) ≡ some whois
unfolding init_tree_parse tree_parse to_upper mycmp
whois_run = refl

-- No command is known by its first letters.
prefix_run : found (b'w' ∷ b'h' ∷ []) ≡ none
unfolding init_tree_parse tree_parse to_upper mycmp
prefix_run = refl

abbrev outcome : Source → Bytes → Option Outcome
outcome cptr line =
    init_tree_parse all >>= λ t. parse [] (λ p. user) t cptr line >>= λ r. some r.outcome

abbrev stranger : Source
stranger = record user { is_registered = false; is_registered_user = false }

-- `PRIVMSG raw x` of a client that is not registered: the code prints the text at the address 1.
raw_run :
    outcome stranger (privmsg ++ (b' ' ∷ b'r' ∷ b'a' ∷ b'w' ∷ b' ' ∷ b'x' ∷ [])) ≡ some bad_pointer
unfolding init_tree_parse tree_parse to_upper mycmp parse
raw_run = refl

-- `PRIVMSG raw :WHO x` is `WHO x`.
again_run :
    outcome user (put_line privmsg ((b'r' ∷ b'a' ∷ b'w' ∷ []) ∷ []) (who ++ (b' ' ∷ b'x' ∷ [])))
    ≡ some (call (entry who false) user (user.name ∷ (b'x' ∷ []) ∷ []))
unfolding init_tree_parse tree_parse to_upper mycmp parse put_paras
again_run = refl

all-IsSorted : IsSorted all
unfolding IsSorted AllBehind IsCaps less
all-IsSorted = ground arith

all-AllShort : AllShort 64 all
unfolding AllShort
all-AllShort = ground arith

tree_parse_lem_example :
    (t : Tree) × (init_tree_parse all ≡ some t)
    × ((cmd : Bytes) → IsText cmd → tree_parse t cmd ≡ find_command cmd all)
tree_parse_lem_example =
    tree_parse_lem (entry ping false) (entry pong false)
      (entry privmsg true ∷ entry who false ∷ entry whois false ∷ []) all-IsSorted all-AllShort
      (omega arith)

parse-Ends_example :
    (r : Parsed) × (parse [] (λ p. user) null user (b'w' ∷ b'h' ∷ b'o' ∷ []) ≡ some r)
parse-Ends_example = parse-Ends [] (λ p. user) null user (b'w' ∷ b'h' ∷ b'o' ∷ [])

middles : AllMiddle ((b'a' ∷ []) ∷ (b'b' ∷ b'c' ∷ []) ∷ [])
unfolding AllMiddle word
middles = ((refl, omega arith, ground arith), ((refl, omega arith, ground arith), tt))

parse-client_example :
    (tree : Tree) × (init_tree_parse all ≡ some tree)
    × (parse []
          (λ p. user)
          tree
          user
          (put_line
            (b'w' ∷ b'h' ∷ b'o' ∷ [])
            ((b'a' ∷ []) ∷ (b'b' ∷ b'c' ∷ []) ∷ [])
            (b'd' ∷ b' ' ∷ b'e' ∷ []))
        ≡ some (
            called user user user.name
              (entry who false)
              ((b'a' ∷ []) ∷ (b'b' ∷ b'c' ∷ []) ∷ [])
              (b'd' ∷ b' ' ∷ b'e' ∷ [])))
unfolding word attribute find_command mycmp to_upper
parse-client_example =
    parse-client (entry ping false) (entry pong false)
      (entry privmsg true ∷ entry who false ∷ entry whois false ∷ []) all-IsSorted all-AllShort
      (omega arith) [] (λ p. user) user (entry who false) (b'w' ∷ b'h' ∷ b'o' ∷ [])
      ((b'a' ∷ []) ∷ (b'b' ∷ b'c' ∷ []) ∷ []) (b'd' ∷ b' ' ∷ b'e' ∷ []) refl (ground arith)
      (refl, omega arith, ground arith) refl refl refl refl middles (omega arith)

-- A server at 9, and the client at 7 behind it
abbrev server : Source
server = record user { at = 9; is_server = true; is_registered_user = false }

abbrev remote : Source
remote = record user { via = 9 }

abbrev client : Client
client = record { at = 7; name = b'j' ∷ b'o' ∷ []; is_server = false; user_server = none }

abbrev clients : List (Bucket Client)
clients = add_to_client_hash_table (b'j' ∷ b'o' ∷ []) client (clear 3000)

known_client : hash_find_client clients (b'j' ∷ b'o' ∷ []) none ≡ some client
unfolding hash_find_client add_to_client_hash_table clear mycmp to_upper to_lower
    solidircd.Hash.hash_nick_name
known_client = refl

parse-server_example :
    (tree : Tree) × (init_tree_parse all ≡ some tree)
    × (parse clients
          (λ p. remote)
          tree
          server
          (put_prefix
            (b'j' ∷ b'o' ∷ [])
            (put_line (b'w' ∷ b'h' ∷ b'o' ∷ []) [] (b'd' ∷ b' ' ∷ b'e' ∷ [])))
        ≡ some (
            called server remote (b'j' ∷ b'o' ∷ []) (entry who false) [] (b'd' ∷ b' ' ∷ b'e' ∷ [])))
unfolding word attribute find_command mycmp to_upper AllMiddle
parse-server_example =
    parse-server (entry ping false) (entry pong false)
      (entry privmsg true ∷ entry who false ∷ entry whois false ∷ []) all-IsSorted all-AllShort
      (omega arith) clients (λ p. remote) server (entry who false) (b'j' ∷ b'o' ∷ []) client
      (b'w' ∷ b'h' ∷ b'o' ∷ []) [] (b'd' ∷ b' ' ∷ b'e' ∷ []) refl refl refl (omega arith)
      (omega arith) known_client refl (ground arith) (refl, omega arith, ground arith) refl refl
      refl refl tt (omega arith)

fields_run :
    getfields 4 (some (b'K' ∷ b':' ∷ b'*' ∷ b':' ∷ b'x' ∷ b'\n' ∷ [])) none
    ≡ some (b'K' ∷ []) ∷ some (b'*' ∷ []) ∷ some (b'x' ∷ []) ∷ none ∷ []
unfolding getfields
fields_run = refl

getfields-put_fields_example :
    getfields 3 (some (b'K' ∷ b':' ∷ b'x' ∷ b'\n' ∷ [])) (some (b'y' ∷ []))
    ≡ some (b'K' ∷ []) ∷ some (b'x' ∷ []) ∷ none ∷ []
unfolding AllPlain before put_fields
getfields-put_fields_example =
    getfields-put_fields ((b'K' ∷ []) ∷ []) (b'x' ∷ []) (some (b'y' ∷ [])) (refl, tt) refl refl
