-- ===== src/Packet/Tests.antt =====
-- Concrete packets of src/packet.c.
use solidircd.Base.{
  ℕ, ◌+◌, ◌<◌, ◌≡◌, refl, inl, inr, Bool, true, false, List, [], ◌∷◌, ◌++◌, Option, none, some,
  if◌then◌else◌, ◌==◌, length, take, drop, length-drop, arith, Bool-cases,
}
use solidircd.Match.Compare.{Bytes}
use solidircd.Packet.Bounded.{AllInside, IsPending, Holds, dopacket-Holds}
use solidircd.Packet.Chunks.{Lawful, Fits}
use solidircd.Packet.Client.{effect, effects, client_dopacket-agree}
use solidircd.Packet.Counters.{Counter, Traffic, count_bytes, count_bytes_lem, bytes_in}
use solidircd.Packet.Cut.{settle_done, then_packet, dopacket-append}
use solidircd.Packet.Ending.{Starts, Drains, dopacket-Ended}
use solidircd.Packet.Feed.{ends_line}
use solidircd.Packet.Output.{Deflated, ZippedLinkOut, OutOrder, zip_output, zip_output_lem}
use solidircd.Packet.Receive.{Done, kept, dopacket, client_dopacket}
use solidircd.Packet.Rounds.{KeptDone}
use solidircd.Packet.Session.{
  Inflate, Reply, rc4_next_buffer, other, Conn, Server, parse_line, handled,
}
use solidircd.Parse.Line.{Source, Parsed, Outcome, parse, unknown_command}
use solidircd.Parse.Tree.{null}
use solidircd.Rc4.{Rc4State, rc4_process_stream}

abbrev user : Source
user = record {
  at = 1;
  name = b'm' ∷ b'e' ∷ [];
  via = 1;
  is_dead = false;
  is_server = false;
  is_person = true;
  is_an_oper = false;
  is_registered = true;
  is_registered_user = true;
  no_msg_throttle = false;
  receive_m = 0;
}

-- Whether the stream is encrypted, and the words that came, the last one first
abbrev World : Type 0
World = Bool × List Bytes

abbrev key : Rc4State
key = record { mstate = 1 ∷ 2 ∷ 3 ∷ 0 ∷ 0 ∷ 4 ∷ []; x = 0; y = 0 }

abbrev word_of : Outcome → Option Bytes
word_of (unknown_command from word) = some word
word_of _ = none

-- A word of one byte starts encryption.
abbrev said : Option Bytes → World → Reply ℕ × World
said none w = (other, w)
said (some word) (true, log) = (other, (true, word ∷ log))
said (some word) (false, log) =
    if length word == 1 then (rc4_next_buffer key, (true, log)) else (other, (false, word ∷ log))

abbrev server : Server World ℕ
server = record {
  table = λ w. [];
  client_at = λ w p. user;
  tree = null;
  own = λ w. user;
  handle = λ p w. said (word_of p.outcome) w;
  is_dead = λ w. false;
  exit_client = λ w. w;
}

-- A stream that is stored as it is
abbrev as_is : Inflate ℕ
as_is z buffer room = record {
  is_ok = true;
  stream = z;
  output = take room buffer;
  avail_in = drop room buffer;
}

abbrev quiet : Conn ℕ
quiet = record {
  buffer = [];
  receive_m = 0;
  me_receive_m = 0;
  lstn = none;
  rc4_in = none;
  zip_in = none;
}

abbrev zero_bytes : Counter
zero_bytes = record { receive_k = 0; receive_b = 0 }

abbrev nothing : Traffic
nothing = record { me = zero_bytes; cptr = zero_bytes; lptr = none }

abbrev two_words : Bytes
two_words = b'h' ∷ b'i' ∷ b'\r' ∷ b'\n' ∷ b'y' ∷ b'o' ∷ b'\n' ∷ b'e' ∷ []

two_words_run :
    settle_done (dopacket 1 server as_is two_words nothing quiet (false, [])).1
    ≡ some (
        kept
          (record quiet { buffer = b'e' ∷ []; receive_m = 2; me_receive_m = 2 })
          (false, (b'y' ∷ b'o' ∷ []) ∷ (b'h' ∷ b'i' ∷ []) ∷ []))
unfolding dopacket settle_done parse_line parse
two_words_run = refl

-- The byte behind the line that starts encryption is decrypted.
start_run :
    settle_done (dopacket 1 server as_is (b'K' ∷ b'\n' ∷ 5 ∷ []) nothing quiet (false, [])).1
    ≡ some (
        kept
          (record quiet {
            buffer = 1 ∷ [];
            receive_m = 1;
            me_receive_m = 1;
            rc4_in = some (record { mstate = 1 ∷ 3 ∷ 2 ∷ 0 ∷ 0 ∷ 4 ∷ []; x = 1; y = 2 });
          })
          (true, []))
unfolding dopacket settle_done parse_line parse rc4_process_stream
start_run = refl

-- Eight reads of 8192 bytes are not counted at all.
abbrev eight_reads : Traffic → Traffic
eight_reads t =
    let two = λ (u : Traffic). count_bytes 8192 (count_bytes 8192 u) in two (two (two (two t)))

uncounted : eight_reads nothing ≡ nothing
unfolding count_bytes
uncounted = refl

said-Lawful : (o : Option Bytes) (w : World) → Lawful (λ v. v.0) w (said o w)
unfolding Lawful
said-Lawful none (true, log) = inr refl
said-Lawful none (false, log) = inl refl
said-Lawful (some word) (true, log) = inr refl
said-Lawful (some word) (false, log) = elim (Bool-cases (length word == 1)) [
  | inl on ↦ rw on (refl, refl)
  | inr off ↦ rw off (inl refl)
]

said-Starts : (o : Option Bytes) (w : World) → Starts (λ v. true) w (said o w)
unfolding Starts
said-Starts none w = inr refl
said-Starts (some word) (true, log) = inr refl
said-Starts (some word) (false, log) = elim (Bool-cases (length word == 1)) [
  | inl on ↦ rw on (inr refl)
  | inr off ↦ rw off (inr refl)
]

dopacket-append_example :
    ((d : Done World ℕ) × ((dopacket 1 server as_is
          (two_words ++ b'K' ∷ b'\n' ∷ 5 ∷ [])
          nothing
          quiet
          (false, [])).1
        ≡ some d))
    × (settle_done
          (dopacket 1 server as_is (two_words ++ b'K' ∷ b'\n' ∷ 5 ∷ []) nothing quiet (false, [])).1
        ≡ settle_done (
            then_packet (dopacket 1 server as_is two_words nothing quiet (false, [])).1 (λ c v.
              (dopacket 1 server as_is
                (b'K' ∷ b'\n' ∷ 5 ∷ [])
                (dopacket 1 server as_is two_words nothing quiet (false, [])).0
                c
                v).1)))
unfolding Fits
dopacket-append_example =
    dopacket-append server as_is (λ v. v.0) (λ p w. said-Lawful (word_of p.outcome) w) 0 two_words
      (b'K' ∷ b'\n' ∷ 5 ∷ []) nothing quiet (false, []) refl tt

as_is-Drains : Drains as_is (λ z b. length b)
as_is-Drains z [] ok some_yet = absurd (some_yet refl)
as_is-Drains z (c ∷ b) ok some_yet = omega (arith, length-drop 131072 (c ∷ b))

dopacket-Ended_example :
    (fuel : ℕ) × (d : Done World ℕ) × ((dopacket fuel server as_is two_words nothing
        (record quiet { zip_in = some 0 })
        (false, [])).1
      ≡ some d)
unfolding Fits
dopacket-Ended_example =
    dopacket-Ended server as_is (λ v. true) (λ z b. length b) as_is-Drains
      (λ p w. said-Starts (word_of p.outcome) w) two_words nothing
      (record quiet { zip_in = some 0 }) (false, []) refl

-- Encryption stays on.
said-on : (o : Option Bytes) (w : World) → w.0 ≡ true → (said o w).1.0 ≡ true
said-on none w on = on
said-on (some word) (true, log) on = refl
said-on (some word) (false, log) on = ground (arith, on)

handled-on : (o : Option Parsed) (w : World) → w.0 ≡ true → (handled server w o).1.0 ≡ true
unfolding handled
handled-on none w on = on
handled-on (some p) w on = said-on (word_of p.outcome) w on

dopacket-Holds_example :
    KeptDone server
      (Holds server (λ w. w.0 ≡ true))
      (λ w. w.0 ≡ true)
      (dopacket 1 server as_is two_words nothing quiet (true, [])).1
unfolding IsPending parse_line
dopacket-Holds_example =
    dopacket-Holds server (λ w. w.0 ≡ true) (λ line m w some_yet pending on. handled-on _ w on)
      (λ w on. on) 1 as_is two_words nothing quiet (true, []) (omega arith, tt) refl

client_dopacket-agree_example :
    (t : Traffic) × (d : Done World ℕ) × (client_dopacket server
        (b'h' ∷ b'i' ∷ [])
        nothing
        quiet
        (false, [])
      ≡ some (t, d))
    × (effects (dopacket 1 server as_is (b'h' ∷ b'i' ∷ b'\n' ∷ []) nothing quiet (false, [])).1
        ≡ some (effect d))
unfolding AllInside ends_line
client_dopacket-agree_example =
    client_dopacket-agree server as_is 0 (b'h' ∷ b'i' ∷ []) nothing quiet (false, [])
      (λ e. ground (arith, e)) (refl, (refl, tt)) (omega arith) refl refl refl

count_bytes_lem_example :
    (t : Traffic) × (l : Counter) × (count_bytes 700 (record {
      me = zero_bytes;
      cptr = record { receive_k = 1; receive_b = 900 };
      lptr = some zero_bytes;
    })
      ≡ t)
    × (t.lptr ≡ some l)
    × (bytes_in t.me ≡ bytes_in zero_bytes + 700)
    × (bytes_in t.cptr ≡ bytes_in (record { receive_k = 1; receive_b = 900 }) + 700)
    × (bytes_in l ≡ bytes_in zero_bytes + 700)
    × (t.cptr.receive_b < 1024)
    × (l.receive_b < 1024)
count_bytes_lem_example =
    count_bytes_lem 700 zero_bytes (record { receive_k = 1; receive_b = 900 }) zero_bytes
      (omega arith) (omega arith) (omega arith) (omega arith)

-- A stream that keeps what it took
abbrev keeps : Bytes → Bytes → ℕ → Deflated Bytes
keeps z text room = record { is_ok = true; stream = z ++ text; output = text }

abbrev waiting : ZippedLinkOut Bytes
waiting = record { stream = b'a' ∷ []; buf = b'b' ∷ [] }

zip_output_lem_example :
    (length (waiting.buf ++ b'c' ∷ []) < 8192)
    × OutOrder keeps
        (λ z. z)
        (waiting.stream ++ (waiting.buf ++ b'c' ∷ []))
        (zip_output keeps waiting (some (b'c' ∷ [])) true true)
zip_output_lem_example =
    zip_output_lem keeps (λ z. z) (λ z text room ok. refl) waiting (b'c' ∷ []) true true
      (omega arith) (omega arith)
