-- ===== src/Packet/Cut.antt =====
-- dopacket of src/packet.c on a text that arrives in two pieces, without compression.
use solidircd.Base.{
  ℕ, suc, ◌+◌, ◌≡◌, refl, sym, ap, ◌∙◌, Bool, false, [], ◌++◌, Option, none, some, length,
  length-append,
}
use solidircd.Match.Compare.{Bytes}
use solidircd.Packet.Chunks.{
  Lawful, Fits, ahead, keyed, settle_fed, follow, next, length-ahead, feed-append, handled-Lawful,
  ahead-append,
}
use solidircd.Packet.Counters.{Traffic}
use solidircd.Packet.Feed.{Fed, at_end, flushed, zipped, feed, put_byte, take_line}
use solidircd.Packet.Keeps.{Answered, Kept, feed-Kept}
use solidircd.Packet.Receive.{Done, closed, kept, on_fed, at_zip, zcontinue, decrypt, dopacket}
use solidircd.Packet.Session.{
  Inflate, Reply, flush_buffer, zip_next_buffer, rc4_next_buffer, other, Conn, Server, parse_line,
}
use solidircd.Parse.Line.{Parsed}
use solidircd.Rc4.{Rc4State}

module _ {W : Type 0} {Z : Type 0} where
  -- A closed client has no cipher any more.
  unfoldable pub settle_done : Option (Done W Z) → Option (Done W Z)
  settle_done none = none
  settle_done (some (closed cptr w)) = some (closed (keyed none cptr) w)
  settle_done (some (kept cptr w)) = some (kept cptr w)

  -- The next packet, unless the client is gone
  unfoldable pub then_packet :
      Option (Done W Z) → (Conn Z → W → Option (Done W Z)) → Option (Done W Z)
  then_packet none go = none
  then_packet (some (closed cptr w)) go = some (closed cptr w)
  then_packet (some (kept cptr w)) go = go cptr w

module _ {W : Type 0} {Z : Type 0} (server : Server W Z) (inflate : Inflate Z)
    (encrypted : W → Bool)
    (lawful : (p : Parsed) (w : W) → Lawful encrypted w (server.handle p w)) where
  -- What dopacket makes of the end of the loop on a text that is not compressed
  abbrev plain_run : ℕ → Fed W Z → Option (Done W Z)
  plain_run fuel f = on_fed (zcontinue fuel server inflate) none f

  zcontinue-plain :
      (fuel : ℕ) (buffer : Bytes) (cptr : Conn Z) (w : W)
      → cptr.zip_in ≡ none
      → zcontinue (suc fuel) server inflate false buffer cptr w
        ≡ plain_run fuel (feed server (length buffer) buffer cptr w)
  unfolding zcontinue at_zip
  zcontinue-plain fuel buffer cptr w off =
      ap (λ o. at_zip server inflate (zcontinue fuel server inflate) false buffer cptr w o) off

  dopacket-plain :
      (fuel : ℕ) (buffer : Bytes) (traffic : Traffic) (cptr : Conn Z) (w : W)
      → cptr.zip_in ≡ none
      → (dopacket (suc fuel) server inflate buffer traffic cptr w).1
        ≡ plain_run fuel (next server buffer cptr w)
  unfolding dopacket decrypt next ahead
  dopacket-plain fuel buffer traffic cptr w off = at cptr.rc4_in refl
    where
      at :
          (o : Option Rc4State)
          → cptr.rc4_in ≡ o
          → zcontinue
              (suc fuel)
              server
              inflate
              false
              (decrypt buffer cptr o).0
              (decrypt buffer cptr o).1
              w
            ≡ plain_run fuel
                (feed server (length buffer) (ahead o buffer).1 (keyed (ahead o buffer).0 cptr) w)
      at none e =
          zcontinue-plain fuel buffer cptr w off
          ∙ ap (λ o. plain_run fuel (feed server (length buffer) buffer (keyed o cptr) w)) e
      at (some rc4) e =
          zcontinue-plain fuel (ahead (some rc4) buffer).1 (keyed (ahead (some rc4) buffer).0 cptr)
            w off
          ∙ ap
              (λ n. plain_run fuel (
                feed server n (ahead (some rc4) buffer).1 (keyed (ahead (some rc4) buffer).0 cptr)
                  w))
              (length-ahead (some rc4) buffer)

  ahead-Fits :
      (o : Option Rc4State) (s : Bytes) (w : W)
      → Fits encrypted o w
      → Fits encrypted (ahead o s).0 w
  unfolding ahead Fits
  ahead-Fits none s w fits = tt
  ahead-Fits (some rc4) s w fits = fits

  next-append :
      (a b : Bytes) (cptr : Conn Z) (w : W)
      → Fits encrypted cptr.rc4_in w
      → settle_fed (next server (a ++ b) cptr w)
        ≡ settle_fed (follow (next server a cptr w) (next server b))
  unfolding next
  next-append a b cptr w fits =
      let o = cptr.rc4_in in
      ap (λ n. settle_fed (feed server n (ahead o (a ++ b)).1 (keyed (ahead o (a ++ b)).0 cptr) w))
        (length-append a b)
      ∙ ap (λ d. settle_fed (feed server (length a + length b) d.1 (keyed d.0 cptr) w))
          (ahead-append o a b)
      ∙ feed-append server encrypted b lawful (length a) (ahead o a).1 (length-ahead o a)
          (ahead o a).0 cptr w (ahead-Fits o a w fits)

  settle_done-plain_run :
      (fuel : ℕ) (f : Fed W Z)
      → settle_done (plain_run fuel f) ≡ settle_done (plain_run fuel (settle_fed f))
  unfolding settle_done settle_fed on_fed
  settle_done-plain_run fuel (at_end cptr w) = refl
  settle_done-plain_run fuel (flushed cptr w) = refl
  settle_done-plain_run fuel (zipped z rest cptr w) = refl

  -- Compression stays off.
  abbrev StaysOff : Fed W Z → Type 0
  StaysOff f = Kept server (λ c v. c.zip_in ≡ none) (λ v. Unit) (λ z v. ⊥) f

  Answered-off :
      (cptr : Conn Z) (w : W) (r : Reply Z × W)
      → cptr.zip_in ≡ none
      → Lawful encrypted w r
      → Answered server (λ c v. c.zip_in ≡ none) (λ v. Unit) (λ z v. ⊥) (take_line cptr) r
  unfolding Answered Lawful take_line
  Answered-off cptr w (flush_buffer, w') off l = tt
  Answered-off cptr w (zip_next_buffer z, w') off l = absurd l
  Answered-off cptr w (rc4_next_buffer rc4, w') off l = λ after. off
  Answered-off cptr w (other, w') off l = off

  next-StaysOff :
      (buffer : Bytes) (cptr : Conn Z) (w : W)
      → cptr.zip_in ≡ none
      → StaysOff (next server buffer cptr w)
  unfolding next parse_line put_byte
  next-StaysOff buffer cptr w off =
      feed-Kept server (λ c v. c.zip_in ≡ none) (λ v. Unit) (λ z v. ⊥) (λ c v h. tt)
        (λ g c v e h. h)
        (λ c v some_yet h. Answered-off c v _ h (handled-Lawful server encrypted [] lawful v _))
        (length buffer) _ _ w off

  ran : (fuel : ℕ) (f : Fed W Z) → StaysOff f → (d : Done W Z) × (plain_run fuel f ≡ some d)
  unfolding on_fed Kept
  ran fuel (at_end cptr w) off = (_, refl)
  ran fuel (flushed cptr w) off = (_, refl)
  ran fuel (zipped z rest cptr w) off = absurd off.1

  plain_run-follow :
      (fuel : ℕ) (b : Bytes) (traffic : Traffic) (f : Fed W Z)
      → StaysOff f
      → plain_run fuel (follow f (next server b))
        ≡ then_packet
            (plain_run fuel f)
            (λ c v. (dopacket (suc fuel) server inflate b traffic c v).1)
  unfolding on_fed follow then_packet Kept
  plain_run-follow fuel b traffic (at_end cptr w) off =
      sym (dopacket-plain fuel b traffic cptr w off)
  plain_run-follow fuel b traffic (flushed cptr w) off = refl
  plain_run-follow fuel b traffic (zipped z rest cptr w) off = absurd off.1

  -- A connection that is not compressed, whose handlers start no compression, and start encryption
  -- only while its flag is off and then set the flag, and that is encrypted only with the flag: for
  -- every text, dopacket comes to an end. And wherever the text is cut, also in the middle of a line or
  -- behind the line that starts encryption, one call for the whole and two for the pieces come to the
  -- same end, up to the cipher of a client that is gone: the same lines are handled in the same
  -- order, with the same effects, and the connection keeps the same bytes. The counts of bytes, which
  -- dopacket leaves beside that, are not compared: they can differ in what is carried to kilobytes.
  pub dopacket-append :
      (fuel : ℕ) (a b : Bytes) (traffic : Traffic) (cptr : Conn Z) (w : W)
      → cptr.zip_in ≡ none
      → Fits encrypted cptr.rc4_in w
      → ((d : Done W Z) × ((dopacket (suc fuel) server inflate (a ++ b) traffic cptr w).1 ≡ some d))
        × (settle_done (dopacket (suc fuel) server inflate (a ++ b) traffic cptr w).1
            ≡ settle_done (
                then_packet (dopacket (suc fuel) server inflate a traffic cptr w).1 (λ c v.
                  (dopacket
                    (suc fuel)
                    server
                    inflate
                    b
                    (dopacket (suc fuel) server inflate a traffic cptr w).0
                    c
                    v).1)))
  dopacket-append fuel a b traffic cptr w off fits =
      let whole = dopacket-plain fuel (a ++ b) traffic cptr w off in
      let first = dopacket-plain fuel a traffic cptr w off in
      let traffic' = (dopacket (suc fuel) server inflate a traffic cptr w).0 in
      let (d, e) = ran fuel _ (next-StaysOff (a ++ b) cptr w off) in
      (
        (d, whole ∙ e),
        ap settle_done whole
            ∙ settle_done-plain_run fuel _
            ∙ ap (λ f. settle_done (plain_run fuel f)) (next-append a b cptr w fits)
            ∙ sym (settle_done-plain_run fuel _)
            ∙ ap settle_done (plain_run-follow fuel b traffic' _ (next-StaysOff a cptr w off))
            ∙ ap
                (λ o.
                  settle_done
                    (then_packet o (λ c v. (dopacket (suc fuel) server inflate b traffic' c v).1)))
                (sym first),
      )
