-- ===== src/Packet/Receive.antt =====
-- dopacket and client_dopacket of src/packet.c.
use solidircd.Base.{
  ℕ, zero, suc, Bool, true, false, Option, none, some, ltb, ◌&&◌, if◌then◌else◌, length,
}
use solidircd.Match.Compare.{Bytes}
use solidircd.Packet.Counters.{Traffic, count_bytes, count_line}
use solidircd.Packet.Feed.{Fed, at_end, flushed, zipped, feed, decrypt_rest, take_line}
use solidircd.Packet.Session.{
  bufsize, Inflate, Unzipped, failed, text, Reply, flush_buffer, Conn, Server, zip_input, c_string,
  parse_line,
}
use solidircd.Rc4.{Rc4State}

-- `closed` is a return of `FLUSH_BUFFER`, the client is gone; `kept` any other.
pub data Done (W : Type 0) (Z : Type 0) : Type 0 where
  closed : Conn Z → W → Done W Z
  kept : Conn Z → W → Done W Z

-- From `zcontinue` on, with a text
abbrev pub Round : Type 0 → Type 0 → Type 0
Round W Z = Bool → Bytes → Conn Z → W → Option (Done W Z)

module _ {W : Type 0} {Z : Type 0} where
  -- Behind the loop, with `nbuf`; the rest of a text that was sent before compression began is
  -- decompressed in the loop.
  unfoldable pub on_fed : Round W Z → Option Bytes → Fed W Z → Option (Done W Z)
  on_fed go none (at_end cptr w) = some (kept cptr w)
  on_fed go (some buffer) (at_end cptr w) = go false buffer cptr w
  on_fed go nbuf (flushed cptr w) = some (closed cptr w)
  on_fed go nbuf (zipped z rest cptr w) = go true rest cptr w

  -- What `zip_input` answered; in the loop the test for a dead socket comes behind it.
  unfoldable pub on_unzipped :
      Server W Z → Round W Z → Bool → Conn Z → W → Unzipped Z → Option (Done W Z)
  unfolding on_fed feed
  on_unzipped server go in_loop cptr w (failed z) =
      some (closed (record cptr { zip_in = some z }) (server.exit_client w))
  on_unzipped server go in_loop cptr w (text z out nbuf) =
      let ready = record cptr { zip_in = some z } in
      if in_loop && server.is_dead w
      then some (closed ready (server.exit_client w))
      else on_fed go nbuf (feed server (length out) out ready w)

  unfoldable pub at_zip :
      Server W Z → Inflate Z → Round W Z → Bool → Bytes → Conn Z → W → Option Z → Option (Done W Z)
  unfolding on_unzipped zip_input
  at_zip server inflate go in_loop buffer cptr w none =
      on_fed go none (feed server (length buffer) buffer cptr w)
  at_zip server inflate go in_loop buffer cptr w (some z) =
      on_unzipped server go in_loop cptr w (zip_input inflate z buffer)

  -- From `zcontinue` on, or from the call of `zip_input` in the loop on. The fuel counts the calls
  -- of `zip_input`.
  unfoldable pub zcontinue :
      ℕ → Server W Z → Inflate Z → Bool → Bytes → Conn Z → W → Option (Done W Z)
  unfolding at_zip
  zcontinue zero server inflate in_loop buffer cptr w = none
  zcontinue (suc fuel) server inflate in_loop buffer cptr w =
      at_zip server inflate (zcontinue fuel server inflate) in_loop buffer cptr w cptr.zip_in

-- `if(IsRC4IN(cptr)) rc4_process_stream(...)`
unfoldable pub decrypt : {Z : Type 0} → Bytes → Conn Z → Option Rc4State → Bytes × Conn Z
unfolding decrypt_rest
decrypt buffer cptr none = (buffer, cptr)
decrypt buffer cptr (some rc4) =
    let (after, plain) = decrypt_rest rc4 buffer in (plain, record cptr { rc4_in = some after })

module _ {W : Type 0} {Z : Type 0} where
  unfoldable pub dopacket :
      ℕ → Server W Z → Inflate Z → Bytes → Traffic → Conn Z → W → Traffic × Option (Done W Z)
  unfolding zcontinue decrypt
  dopacket fuel server inflate buffer traffic cptr w =
      let (plain, ready) = decrypt buffer cptr cptr.rc4_in in
      (count_bytes (length buffer) traffic, zcontinue fuel server inflate false plain ready w)

  -- The end of `client_dopacket`
  unfoldable pub on_client_reply : Server W Z → Conn Z → Reply Z × W → Done W Z
  on_client_reply server cptr (flush_buffer, w) = closed cptr w
  on_client_reply server cptr (_, w) =
      if server.is_dead w then closed cptr (server.exit_client w) else kept cptr w

  -- `client_dopacket`. `strncpy` copies 512 bytes at most; without a zero byte among them `strlen`
  -- reads on behind the buffer, and there is no result.
  unfoldable pub client_dopacket :
      Server W Z → Bytes → Traffic → Conn Z → W → Option (Traffic × Done W Z)
  unfolding on_client_reply take_line c_string parse_line count_line
  client_dopacket server buffer traffic cptr w =
      let line = c_string buffer in
      let counted = record (take_line cptr) { lstn = cptr.lstn } in
      if ltb (length line) bufsize
      then some (
        count_line (length line) traffic,
        on_client_reply server counted (parse_line server line counted.receive_m w),
      )
      else none
