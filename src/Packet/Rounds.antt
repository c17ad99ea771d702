-- ===== src/Packet/Rounds.antt =====
-- What dopacket of src/packet.c keeps, compressed or not.
use solidircd.Base.{
  ℕ, zero, suc, ◌+◌, ◌≡◌, ◌≢◌, inl, inr, Bool, true, false, [], Option, none, some, ◌&&◌, length,
  Bool-cases,
}
use solidircd.Match.Compare.{Bytes}
use solidircd.Packet.Counters.{Traffic}
use solidircd.Packet.Feed.{Fed, at_end, flushed, zipped, put_byte, take_line, ends_line}
use solidircd.Packet.Keeps.{Answered, Kept, feed-Kept}
use solidircd.Packet.Receive.{
  Done, closed, kept, Round, on_fed, on_unzipped, at_zip, zcontinue, decrypt, dopacket,
}
use solidircd.Packet.Session.{Inflate, Unzipped, failed, text, Conn, Server, zip_input, parse_line}
use solidircd.Rc4.{Rc4State}

module _ {W : Type 0} {Z : Type 0} (server : Server W Z) (P : Conn Z → W → Type 0)
    (Q : W → Type 0) where
  -- The same for the result of dopacket, if there is one
  unfoldable pub KeptDone : Option (Done W Z) → Type 0
  KeptDone none = Unit
  KeptDone (some (closed cptr w)) = Q w
  KeptDone (some (kept cptr w)) = P cptr w

  module _ (left : (cptr : Conn Z) (w : W) → P cptr w → Q (server.exit_client w))
      (stored : (g : ℕ) (cptr : Conn Z) (w : W)
        → ends_line g ≡ false
        → P cptr w
        → P (put_byte g cptr) w)
      (answered : (cptr : Conn Z) (w : W)
        → cptr.buffer ≢ []
        → P cptr w
        → Answered server P Q
            (λ z v. Unit)
            (take_line cptr)
            (parse_line server cptr.buffer (cptr.receive_m + 1) w))
      (set_zip : (z : Z) (cptr : Conn Z) (w : W) → P cptr w → P (record cptr { zip_in = some z }) w)
      (set_rc4 : (rc4 : Rc4State) (cptr : Conn Z) (w : W)
        → P cptr w
        → P (record cptr { rc4_in = some rc4 }) w) where
    abbrev Goes : Round W Z → Type 0
    Goes go =
        (in_loop : Bool) (buffer : Bytes) (cptr : Conn Z) (w : W)
        → P cptr w
        → KeptDone (go in_loop buffer cptr w)

    on_fed-Kept :
        (go : Round W Z)
        → Goes go
        → (nbuf : Option Bytes) (f : Fed W Z) → Kept server P Q (λ z v. Unit) f
        → KeptDone (on_fed go nbuf f)
    unfolding on_fed Kept KeptDone
    on_fed-Kept go goes none (at_end cptr w) ok = ok
    on_fed-Kept go goes (some buffer) (at_end cptr w) ok = goes false buffer cptr w ok
    on_fed-Kept go goes none (flushed cptr w) ok = ok
    on_fed-Kept go goes (some buffer) (flushed cptr w) ok = ok
    on_fed-Kept go goes none (zipped z rest cptr w) ok = goes true rest cptr w ok.0
    on_fed-Kept go goes (some buffer) (zipped z rest cptr w) ok = goes true rest cptr w ok.0

    on_unzipped-Kept :
        (go : Round W Z)
        → Goes go
        → (in_loop : Bool) (cptr : Conn Z) (w : W) (u : Unzipped Z) → P cptr w
        → KeptDone (on_unzipped server go in_loop cptr w u)
    unfolding on_unzipped KeptDone
    on_unzipped-Kept go goes in_loop cptr w (failed z) ok = left cptr w ok
    on_unzipped-Kept go goes in_loop cptr w (text z out nbuf) ok =
        elim (Bool-cases (in_loop && server.is_dead w)) [
          | inl on ↦ rw on (left cptr w ok)
          | inr off ↦ rw off (
              on_fed-Kept go goes nbuf _ (
                feed-Kept server P Q (λ z v. Unit) left stored answered (length out) out _ w
                  (set_zip z cptr w ok)))
        ]

    at_zip-Kept :
        (inflate : Inflate Z) (go : Round W Z)
        → Goes go
        → (in_loop : Bool) (buffer : Bytes) (cptr : Conn Z) (w : W) (o : Option Z) → P cptr w
        → KeptDone (at_zip server inflate go in_loop buffer cptr w o)
    unfolding at_zip
    at_zip-Kept inflate go goes in_loop buffer cptr w none ok =
        on_fed-Kept go goes none _
          (feed-Kept server P Q (λ z v. Unit) left stored answered (length buffer) buffer cptr w ok)
    at_zip-Kept inflate go goes in_loop buffer cptr w (some z) ok =
        on_unzipped-Kept go goes in_loop cptr w (zip_input inflate z buffer) ok

    zcontinue-Kept : (fuel : ℕ) (inflate : Inflate Z) → Goes (zcontinue fuel server inflate)
    unfolding zcontinue KeptDone
    zcontinue-Kept zero inflate in_loop buffer cptr w ok = tt
    zcontinue-Kept (suc fuel) inflate in_loop buffer cptr w ok =
        at_zip-Kept inflate (zcontinue fuel server inflate) (zcontinue-Kept fuel inflate) in_loop
          buffer cptr w cptr.zip_in ok

    pub dopacket-Kept :
        (fuel : ℕ) (inflate : Inflate Z) (buffer : Bytes) (traffic : Traffic) (cptr : Conn Z)
        (w : W)
        → P cptr w
        → KeptDone (dopacket fuel server inflate buffer traffic cptr w).1
    unfolding dopacket
    dopacket-Kept fuel inflate buffer traffic cptr w ok = at cptr.rc4_in
      where
        at :
            (o : Option Rc4State)
            → KeptDone (
                zcontinue fuel server inflate false
                  (decrypt buffer cptr o).0
                  (decrypt buffer cptr o).1
                  w)
        at none = zcontinue-Kept fuel inflate false buffer cptr w ok
        at (some rc4) = zcontinue-Kept fuel inflate false _ _ w (set_rc4 _ cptr w ok)
