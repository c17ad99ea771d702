-- ===== src/Packet/Session.antt =====
-- The connection that src/packet.c reads from, and what it calls: parse, the handlers of the
-- commands, exit_client, and zip_input of src/zlink.c with inflate of zlib behind it.
use solidircd.Base.{ℕ, Bool, List, [], ◌∷◌, Option, none, some, ◌==◌, if◌then◌else◌, length}
use solidircd.Hash.{Bucket, Client}
use solidircd.Match.Compare.{Bytes}
use solidircd.Parse.Line.{Source, Parsed, parse}
use solidircd.Parse.Tree.{Tree}
use solidircd.Rc4.{Rc4State}

abbrev pub bufsize : ℕ
bufsize = 512

abbrev pub zip_in_buf_size : ℕ
zip_in_buf_size = 131072

-- What `inflate` answers: whether it is `Z_OK`, the stream after it, what it wrote to `next_out` and
-- what it left at `next_in`
pub record Inflated (Z : Type 0) : Type 0 where
  pub is_ok : Bool
  pub stream : Z
  pub output : Bytes
  pub avail_in : Bytes

-- `inflate` on a stream, its input and the room at `next_out`
abbrev pub Inflate : Type 0 → Type 0
Inflate Z = Z → Bytes → ℕ → Inflated Z

-- What `zip_input` answers: a length of -1, or the text and `nbuf`, which is what is left to do
pub data Unzipped (Z : Type 0) : Type 0 where
  failed : Z → Unzipped Z
  text : Z → Bytes → Option Bytes → Unzipped Z

-- How a handler returns to `dopacket`, with the session that it has set up
pub data Reply (Z : Type 0) : Type 0 where
  flush_buffer : Reply Z
  zip_next_buffer : Z → Reply Z
  rc4_next_buffer : Rc4State → Reply Z
  other : Reply Z

-- The part of an `aClient` that this file reads and writes; `buffer` is the first `count` bytes of
-- it. `lstn` is `receiveM` of the listener.
pub record Conn (Z : Type 0) : Type 0 where
  pub buffer : Bytes
  pub receive_m : ℕ
  pub me_receive_m : ℕ
  pub lstn : Option ℕ
  pub rc4_in : Option Rc4State
  pub zip_in : Option Z

-- The rest of the program, with a state `W`: the tables that `parse` reads, the client of the
-- connection, what is done with a line that is taken apart, the flag of a dead socket, and
-- `exit_client`.
pub record Server (W : Type 0) (Z : Type 0) : Type 0 where
  pub table : W → List (Bucket Client)
  pub client_at : W → ℕ → Source
  pub tree : Tree
  pub own : W → Source
  pub handle : Parsed → W → Reply Z × W
  pub is_dead : W → Bool
  pub exit_client : W → W

-- The two cases of `Z_OK`: `avail_in` zero or not
unfoldable pub at_rest : {Z : Type 0} → Z → Bytes → Bytes → Unzipped Z
at_rest z output [] = text z output none
at_rest z output (c ∷ rest) =
    if length output == zip_in_buf_size then text z output (some (c ∷ rest)) else failed z

unfoldable pub zip_input : {Z : Type 0} → Inflate Z → Z → Bytes → Unzipped Z
unfolding at_rest
zip_input inflate z buffer =
    let r = inflate z buffer zip_in_buf_size in
    if r.is_ok then at_rest r.stream r.output r.avail_in else failed r.stream

-- The bytes before a terminator that the client sent itself
unfoldable pub c_string : Bytes → Bytes
c_string [] = []
c_string (c ∷ s) = if c == 0 then [] else c ∷ c_string s

module _ {W : Type 0} {Z : Type 0} where
  -- The handler of a line. `parse` always has a result.
  unfoldable pub handled : Server W Z → W → Option Parsed → Reply Z × W
  handled server w none = (other, w)
  handled server w (some p) = server.handle p w

  -- `parse(cptr, cptr->buffer, ch1)`, with the message counted already. `bufend - s` in it is
  -- taken to be the length of the text, which it is when the client sent no zero byte.
  unfoldable pub parse_line : Server W Z → Bytes → ℕ → W → Reply Z × W
  unfolding handled c_string
  parse_line server line receive_m w = handled server w (
      parse (server.table w) (server.client_at w) server.tree
        (record (server.own w) { receive_m = receive_m }) (c_string line))
