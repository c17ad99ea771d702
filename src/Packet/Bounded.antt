-- ===== src/Packet/Bounded.antt =====
-- What src/packet.c keeps of a line, and what reaches the handlers.
use solidircd.Base.{
  ℕ, ◌+◌, ◌<◌, ◌≡◌, ◌≢◌, inl, inr, false, [], ◌∷◌, ◌++◌, ltb, length, length-append, arith,
  Bool-cases,
}
use solidircd.Match.Compare.{Bytes}
use solidircd.Packet.Counters.{Traffic}
use solidircd.Packet.Feed.{put_byte, take_line, ends_line}
use solidircd.Packet.Keeps.{Answered}
use solidircd.Packet.Receive.{dopacket}
use solidircd.Packet.Rounds.{KeptDone, dopacket-Kept}
use solidircd.Packet.Session.{
  bufsize, Inflate, Reply, flush_buffer, zip_next_buffer, rc4_next_buffer, other, Conn, Server,
  parse_line,
}

-- A text without an end of line
unfoldable pub AllInside : Bytes → Type 0
AllInside [] = Unit
AllInside (c ∷ s) = (ends_line c ≡ false) × AllInside s

-- What stands in `cptr->buffer` fits it, with the zero byte behind it, and has no end of line.
unfoldable pub IsPending : Bytes → Type 0
unfolding AllInside
IsPending s = (length s < bufsize) × AllInside s

AllInside-append : (s : Bytes) (g : ℕ) → AllInside s → ends_line g ≡ false → AllInside (s ++ g ∷ [])
unfolding AllInside
AllInside-append [] g inside off = (off, tt)
AllInside-append (c ∷ s) g inside off = (inside.0, AllInside-append s g inside.1 off)

put_byte-Pending :
    {Z : Type 0} (g : ℕ) (cptr : Conn Z)
    → ends_line g ≡ false
    → IsPending cptr.buffer
    → IsPending (put_byte g cptr).buffer
unfolding put_byte IsPending
put_byte-Pending g cptr off pending = elim (Bool-cases (ltb (length cptr.buffer) 511)) [
  | inl room ↦ rw room (
    ground (arith, room, length-append cptr.buffer (g ∷ [])),
    AllInside-append cptr.buffer g pending.1 off,
  )
  | inr full ↦ rw full pending
]

module _ {W : Type 0} {Z : Type 0} (server : Server W Z) (I : W → Type 0) where
  abbrev pub Holds : Conn Z → W → Type 0
  Holds cptr w = IsPending cptr.buffer × I w

  Answered-Holds :
      (cptr : Conn Z) (r : Reply Z × W)
      → I r.1
      → Answered server Holds I (λ z v. Unit) (take_line cptr) r
  unfolding Answered take_line IsPending AllInside
  Answered-Holds cptr (flush_buffer, w) ok = ok
  Answered-Holds cptr (zip_next_buffer z, w) ok = (((omega arith, tt), ok), tt)
  Answered-Holds cptr (rc4_next_buffer rc4, w) ok = λ after. ((omega arith, tt), ok)
  Answered-Holds cptr (other, w) ok = ((omega arith, tt), ok)

  -- A property of the rest of the program that exit_client keeps, and that the handling of a line
  -- keeps which is not empty, is shorter than 512 bytes and has no CR or LF in it. Then dopacket
  -- keeps it, whatever arrives and however it is compressed and encrypted, and what is left in the
  -- buffer of a client that stays is again shorter than 512 bytes and without CR and LF.
  pub dopacket-Holds :
      ((line : Bytes) (receive_m : ℕ) (w : W)
        → line ≢ []
        → IsPending line
        → I w
        → I (parse_line server line receive_m w).1)
      → ((w : W) → I w → I (server.exit_client w))
      → (fuel : ℕ) (inflate : Inflate Z) (buffer : Bytes) (traffic : Traffic) (cptr : Conn Z)
        (w : W)
      → IsPending cptr.buffer
      → I w
      → KeptDone server Holds I (dopacket fuel server inflate buffer traffic cptr w).1
  dopacket-Holds handles exits fuel inflate buffer traffic cptr w pending ok =
      dopacket-Kept server Holds I (λ c w' h. exits w' h.1)
        (λ g c w' off h. (put_byte-Pending g c off h.0, h.1))
        (λ c w' some_yet h.
          Answered-Holds c _ (handles c.buffer (c.receive_m + 1) w' some_yet h.0 h.1))
        (λ z c w' h. h) (λ rc4 c w' h. h) fuel inflate buffer traffic cptr w (pending, ok)
