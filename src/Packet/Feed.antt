-- ===== src/Packet/Feed.antt =====
-- The loop of dopacket in src/packet.c.
use solidircd.Base.{
  ℕ, zero, suc, ◌+◌, ◌-◌, Bool, [], ◌∷◌, ◌++◌, Option, none, some, ◌==◌, ltb, ◌&&◌, ◌||◌,
  if◌then◌else◌, length,
}
use solidircd.Match.Compare.{Bytes}
use solidircd.Packet.Session.{
  bufsize, Reply, flush_buffer, zip_next_buffer, rc4_next_buffer, other, Conn, Server, parse_line,
}
use solidircd.Rc4.{Rc4State, rc4_process_stream}

-- How the loop ends: at the end of the text, by a return of `FLUSH_BUFFER`, or with the rest of the
-- text that `zip_input` is called on
pub data Fed (W : Type 0) (Z : Type 0) : Type 0 where
  at_end : Conn Z → W → Fed W Z
  flushed : Conn Z → W → Fed W Z
  zipped : Z → Bytes → Conn Z → W → Fed W Z

-- `g < '\16' && (g == '\n' || g == '\r')`
unfoldable pub ends_line : ℕ → Bool
ends_line g = ltb g 14 && (g == b'\n' || g == b'\r')

-- A byte that does not end a line. The byte behind the last place is written over by the next.
unfoldable pub put_byte : {Z : Type 0} → ℕ → Conn Z → Conn Z
put_byte g cptr = record cptr {
  buffer = if ltb (length cptr.buffer) (bufsize - 1) then cptr.buffer ++ g ∷ [] else cptr.buffer;
}

abbrev pub more : Option ℕ → Option ℕ
more none = none
more (some n) = some (n + 1)

-- What is counted and set before `parse` is called
unfoldable pub take_line : {Z : Type 0} → Conn Z → Conn Z
take_line cptr = record cptr {
  buffer = [];
  receive_m = cptr.receive_m + 1;
  me_receive_m = cptr.me_receive_m + 1;
  lstn = more cptr.lstn;
}

-- `rc4_process_stream` on the rest of the text, which is not called for none; then the next byte
unfoldable pub decrypt_rest : Rc4State → Bytes → Rc4State × Bytes
decrypt_rest rc4 rest = rc4_process_stream rc4 rest (length rest)

module _ {W : Type 0} {Z : Type 0} where
  -- The test for a dead socket, and the rest of the loop
  unfoldable pub unless_dead :
      Server W Z → (Bytes → Conn Z → W → Fed W Z) → Bytes → Conn Z → W → Fed W Z
  unless_dead server go rest cptr w =
      if server.is_dead w then flushed cptr (server.exit_client w) else go rest cptr w

  -- The cases of the reply of `parse`, and the rest of the loop. A compressed rest that is empty is
  -- not looked at.
  unfoldable pub on_reply :
      Server W Z → (Bytes → Conn Z → W → Fed W Z) → Bytes → Conn Z → Reply Z × W → Fed W Z
  unfolding unless_dead decrypt_rest
  on_reply server go rest cptr (flush_buffer, w) = flushed cptr w
  on_reply server go [] cptr (zip_next_buffer z, w) =
      unless_dead server go [] (record cptr { zip_in = some z }) w
  on_reply server go (c ∷ rest) cptr (zip_next_buffer z, w) =
      zipped z (c ∷ rest) (record cptr { zip_in = some z }) w
  on_reply server go rest cptr (rc4_next_buffer rc4, w) =
      let (after, plain) = decrypt_rest rc4 rest in
      unless_dead server go plain (record cptr { rc4_in = some after }) w
  on_reply server go rest cptr (other, w) = unless_dead server go rest cptr w

  -- A byte that ends a line, in a text that is not empty
  unfoldable pub on_line :
      Server W Z → (Bytes → Conn Z → W → Fed W Z) → Bytes → Conn Z → W → Fed W Z
  unfolding on_reply take_line
  on_line server go rest cptr w =
      on_reply server go rest (take_line cptr)
        (parse_line server cptr.buffer (cptr.receive_m + 1) w)

  -- One round
  unfoldable pub on_byte :
      Server W Z → (Bytes → Conn Z → W → Fed W Z) → ℕ → Bytes → Conn Z → W → Fed W Z
  unfolding on_line put_byte ends_line
  on_byte server go g rest cptr w =
      if ends_line g
      then (if length cptr.buffer == 0 then go rest cptr w else on_line server go rest cptr w)
      else go rest (put_byte g cptr) w

  -- `while (--length >= 0)`, on a text with as many bytes as the number says
  unfoldable pub feed : Server W Z → ℕ → Bytes → Conn Z → W → Fed W Z
  unfolding on_byte
  feed server zero ch2 cptr w = at_end cptr w
  feed server (suc length) [] cptr w = at_end cptr w
  feed server (suc length) (g ∷ ch2) cptr w = on_byte server (feed server length) g ch2 cptr w
