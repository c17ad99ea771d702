-- ===== src/Packet/Ending.antt =====
-- The end of dopacket of src/packet.c, where the text may be compressed.
use solidircd.Base.{
  ℕ, zero, suc, ◌+◌, ◌<◌, ◌≡◌, ◌≢◌, ◌⊎◌, refl, sym, subst, inl, inr, Bool, true, false, [], ◌∷◌,
  Option, none, some, ◌==◌, ◌&&◌, length, arith, Bool-cases, Option-cases,
}
use solidircd.Match.Compare.{Bytes}
use solidircd.Packet.Chunks.{Fits}
use solidircd.Packet.Counters.{Traffic}
use solidircd.Packet.Feed.{Fed, at_end, flushed, zipped, feed, put_byte, take_line}
use solidircd.Packet.Keeps.{Answered, Kept, feed-Kept}
use solidircd.Packet.Receive.{
  Done, Round, on_fed, on_unzipped, at_zip, zcontinue, decrypt, dopacket,
}
use solidircd.Packet.Session.{
  Inflate, Unzipped, failed, text, Reply, flush_buffer, zip_next_buffer, rc4_next_buffer, other,
  Conn, Server, zip_in_buf_size, zip_input, at_rest, parse_line, handled,
}
use solidircd.Parse.Line.{Parsed}
use solidircd.Rc4.{Rc4State}

-- Compression starts when it is off, and then it is on.
unfoldable pub Starts : {W Z : Type 0} → (W → Bool) → W → Reply Z × W → Type 0
Starts started w (flush_buffer, w') = Unit
Starts started w (zip_next_buffer z, w') = (started w ≡ false) × (started w' ≡ true)
Starts started w (rc4_next_buffer rc4, w') = (started w ≡ false) ⊎ (started w' ≡ true)
Starts started w (other, w') = (started w ≡ false) ⊎ (started w' ≡ true)

module _ {Z : Type 0} (inflate : Inflate Z) (to_come : Z → Bytes → ℕ) where
  -- What is left at `next_in` has less to come than there was.
  unfoldable pub Drained : ℕ → Unzipped Z → Type 0
  Drained n (failed z) = Unit
  Drained n (text z out none) = Unit
  Drained n (text z out (some rest)) = to_come z rest < n

  -- Of `inflate`: when it answers `Z_OK` and leaves some of its input, less is to come.
  abbrev pub Drains : Type 0
  Drains =
      (z : Z) (buffer : Bytes)
      → (inflate z buffer zip_in_buf_size).is_ok ≡ true
      → (inflate z buffer zip_in_buf_size).avail_in ≢ []
      → to_come (inflate z buffer zip_in_buf_size).stream
          (inflate z buffer zip_in_buf_size).avail_in
        < to_come z buffer

  at_rest-Drained :
      (n : ℕ) (z : Z) (out rest : Bytes)
      → (rest ≢ [] → to_come z rest < n)
      → Drained n (at_rest z out rest)
  unfolding at_rest Drained
  at_rest-Drained n z out [] less = tt
  at_rest-Drained n z out (c ∷ rest) less = elim (Bool-cases (length out == zip_in_buf_size)) [
    | inl full ↦ rw full (less (λ e. ground (arith, e)))
    | inr room ↦ rw room tt
  ]

  zip_input-Drained : Drains → (z : Z) (b : Bytes) → Drained (to_come z b) (zip_input inflate z b)
  unfolding zip_input Drained
  zip_input-Drained drains z b = elim (Bool-cases (inflate z b zip_in_buf_size).is_ok) [
    | inl ok ↦ rw ok (at_rest-Drained _ _ _ _ (drains z b ok))
    | inr bad ↦ rw bad tt
  ]

module _ {W : Type 0} {Z : Type 0} (server : Server W Z) (inflate : Inflate Z) (started : W → Bool)
    (to_come : Z → Bytes → ℕ) (drains : Drains inflate to_come)
    (starts : (p : Parsed) (w : W) → Starts started w (server.handle p w)) where
  abbrev pub Ended : Option (Done W Z) → Type 0
  Ended o = (d : Done W Z) × (o ≡ some d)

  handled-Starts : (w : W) (o : Option Parsed) → Starts started w (handled server w o)
  unfolding handled Starts
  handled-Starts w none = elim (Bool-cases (started w)) [ inl on ↦ inr on | inr off ↦ inl off ]
  handled-Starts w (some p) = starts p w

  -- Compression is on, with this session.
  abbrev On : Z → Conn Z → W → Type 0
  On z cptr w = (cptr.zip_in ≡ some z) × (started w ≡ true)

  Answered-On :
      (z : Z) (cptr : Conn Z) (w : W) (r : Reply Z × W)
      → On z cptr w
      → Starts started w r
      → Answered server (On z) (λ v. Unit) (λ y v. ⊥) (take_line cptr) r
  unfolding Answered Starts take_line
  Answered-On z cptr w (flush_buffer, w') on s = tt
  Answered-On z cptr w (zip_next_buffer y, w') on s = ground (arith, on.1, s.0)
  Answered-On z cptr w (rc4_next_buffer rc4, w') on s = λ after. (on.0, ground (arith, on, s))
  Answered-On z cptr w (other, w') on s = (on.0, ground (arith, on, s))

  -- Compression is not known to be on: after a reply that starts it, it is.
  Answered-any :
      (cptr : Conn Z) (w : W) (r : Reply Z × W)
      → Starts started w r
      → Answered server (λ c v. Unit) (λ v. Unit) (λ y v. started v ≡ true) (take_line cptr) r
  unfolding Answered Starts
  Answered-any cptr w (flush_buffer, w') s = tt
  Answered-any cptr w (zip_next_buffer y, w') s = (tt, s.1)
  Answered-any cptr w (rc4_next_buffer rc4, w') s = λ after. tt
  Answered-any cptr w (other, w') s = tt

  feed-On :
      (z : Z) (n : ℕ) (out : Bytes) (cptr : Conn Z) (w : W)
      → On z cptr w
      → Kept server (On z) (λ v. Unit) (λ y v. ⊥) (feed server n out cptr w)
  unfolding parse_line put_byte
  feed-On z n out cptr w on =
      feed-Kept server (On z) (λ v. Unit) (λ y v. ⊥) (λ c v h. tt) (λ g c v off h. h)
        (λ c v some_yet h. Answered-On z c v _ h (handled-Starts v _)) n out cptr w on

  fed-Ended :
      (go : Round W Z) (z : Z) (nbuf : Option Bytes) (f : Fed W Z)
      → ((b : Bytes) (cptr : Conn Z) (w : W)
          → nbuf ≡ some b
          → On z cptr w
          → Ended (go false b cptr w))
      → Kept server (On z) (λ v. Unit) (λ y v. ⊥) f
      → Ended (on_fed go nbuf f)
  unfolding on_fed Kept
  fed-Ended go z none (at_end cptr w) goes on = (_, refl)
  fed-Ended go z (some b) (at_end cptr w) goes on = goes b cptr w refl on
  fed-Ended go z none (flushed cptr w) goes on = (_, refl)
  fed-Ended go z (some b) (flushed cptr w) goes on = (_, refl)
  fed-Ended go z nbuf (zipped y rest cptr w) goes on = absurd on.1

  unzipped-Ended :
      (go : Round W Z) (n : ℕ) (in_loop : Bool) (cptr : Conn Z) (w : W) (u : Unzipped Z)
      → ((z : Z) (b : Bytes) (c : Conn Z) (v : W)
          → to_come z b < n
          → On z c v
          → Ended (go false b c v))
      → started w ≡ true
      → Drained inflate to_come n u
      → Ended (on_unzipped server go in_loop cptr w u)
  unfolding on_unzipped Drained
  unzipped-Ended go n in_loop cptr w (failed z) goes on less = (_, refl)
  unzipped-Ended go n in_loop cptr w (text z out nbuf) goes on less =
      elim (Bool-cases (in_loop && server.is_dead w)) [
        | inl dead ↦ rw dead (_, refl)
        | inr alive ↦ rw alive (
            fed-Ended go z nbuf _
              (λ b c v e h.
                goes z b c v (subst (λ o. Drained inflate to_come n (text z out o)) e less) h)
              (feed-On z (length out) out _ w (refl, on)))
      ]

  -- With compression on
  zcontinue-On :
      (fuel : ℕ) (in_loop : Bool) (z : Z) (buffer : Bytes) (cptr : Conn Z) (w : W)
      → to_come z buffer < fuel
      → On z cptr w
      → Ended (zcontinue fuel server inflate in_loop buffer cptr w)
  unfolding zcontinue at_zip
  zcontinue-On zero in_loop z buffer cptr w enough on = absurd (omega (arith, enough))
  zcontinue-On (suc fuel) in_loop z buffer cptr w enough on =
      subst
        (λ o. Ended (at_zip server inflate (zcontinue fuel server inflate) in_loop buffer cptr w o))
        (sym on.0)
        (unzipped-Ended (zcontinue fuel server inflate) (to_come z buffer) in_loop cptr w _
          (λ y b c v less h. zcontinue-On fuel false y b c v (omega (arith, less, enough)) h) on.1
          (zip_input-Drained inflate to_come drains z buffer))

  -- With compression off
  fed-any :
      (f : Fed W Z)
      → Kept server (λ c v. Unit) (λ v. Unit) (λ y v. started v ≡ true) f
      → (fuel : ℕ) × Ended (on_fed (zcontinue fuel server inflate) none f)
  unfolding on_fed Kept
  fed-any (at_end cptr w) ok = (0, (_, refl))
  fed-any (flushed cptr w) ok = (0, (_, refl))
  fed-any (zipped z rest cptr w) ok = (
    to_come z rest + 1,
    zcontinue-On (to_come z rest + 1) true z rest cptr w (omega arith) (ok.2, ok.1),
  )

  zcontinue-Ended :
      (buffer : Bytes) (cptr : Conn Z) (w : W)
      → Fits started cptr.zip_in w
      → (fuel : ℕ) × Ended (zcontinue fuel server inflate false buffer cptr w)
  unfolding zcontinue at_zip parse_line Fits
  zcontinue-Ended buffer cptr w fits = elim (Option-cases cptr.zip_in) [
    | inl off ↦
        let (fuel, ends) = fed-any (feed server (length buffer) buffer cptr w) (
          feed-Kept server (λ c v. Unit) (λ v. Unit) (λ y v. started v ≡ true) (λ c v h. tt)
            (λ g c v e h. h) (λ c v some_yet h. Answered-any c v _ (handled-Starts v _))
            (length buffer) buffer cptr w tt) in
        (
          suc fuel,
          subst
              (λ o.
                Ended (at_zip server inflate (zcontinue fuel server inflate) false buffer cptr w o))
              (sym off) ends,
        )
    | inr (z, on) ↦ (
      to_come z buffer + 1,
      zcontinue-On (to_come z buffer + 1) false z buffer cptr w (omega arith)
          (on, subst (λ o. Fits started o w) on fits),
    )
  ]

  -- When inflate has less to come after each answer of Z_OK that leaves some of its input, and
  -- compression is started only while it is off, by a reply that sets its flag, and a connection
  -- with a session has the flag: then dopacket always comes to an end, for some number of calls of
  -- zip_input.
  pub dopacket-Ended :
      (buffer : Bytes) (traffic : Traffic) (cptr : Conn Z) (w : W)
      → Fits started cptr.zip_in w
      → (fuel : ℕ) × (d : Done W Z) × ((dopacket fuel server inflate buffer traffic cptr w).1
          ≡ some d)
  unfolding dopacket decrypt
  dopacket-Ended buffer traffic cptr w fits = at cptr.rc4_in
    where
      at :
          (o : Option Rc4State)
          → (fuel : ℕ) × (d : Done W Z) × (zcontinue fuel server inflate false
                (decrypt buffer cptr o).0
                (decrypt buffer cptr o).1
                w
              ≡ some d)
      at none = let (fuel, (d, e)) = zcontinue-Ended buffer cptr w fits in (fuel, d, e)
      at (some rc4) =
          let (fuel, (d, e)) =
            zcontinue-Ended (decrypt buffer cptr (some rc4)).0 (decrypt buffer cptr (some rc4)).1 w
              fits in
          (fuel, d, e)
