-- ===== src/Packet/Keeps.antt =====
-- What the loop of dopacket in src/packet.c keeps.
use solidircd.Base.{
  ℕ, zero, suc, ◌+◌, ◌≡◌, ◌≢◌, refl, inl, inr, false, [], ◌∷◌, some, ◌==◌, length, arith,
  Bool-cases,
}
use solidircd.Match.Compare.{Bytes}
use solidircd.Packet.Feed.{
  Fed, at_end, flushed, zipped, feed, on_byte, on_line, on_reply, unless_dead, put_byte, take_line,
  decrypt_rest, ends_line,
}
use solidircd.Packet.Session.{
  Reply, flush_buffer, zip_next_buffer, rc4_next_buffer, other, Conn, Server, parse_line,
}
use solidircd.Rc4.{Rc4State}

module _ {W : Type 0} {Z : Type 0} (server : Server W Z) (P : Conn Z → W → Type 0) (Q : W → Type 0)
    (R : Z → W → Type 0) where
  -- The connection, set as the reply says, is as it should be; a client that is closed has none. `R` is
  -- what a compressed rest needs besides.
  unfoldable pub Answered : Conn Z → Reply Z × W → Type 0
  Answered cptr (flush_buffer, w) = Q w
  Answered cptr (zip_next_buffer z, w) = P (record cptr { zip_in = some z }) w × R z w
  Answered cptr (rc4_next_buffer rc4, w) =
      (after : Rc4State) → P (record cptr { rc4_in = some after }) w
  Answered cptr (other, w) = P cptr w

  unfoldable pub Kept : Fed W Z → Type 0
  Kept (at_end cptr w) = P cptr w
  Kept (flushed cptr w) = Q w
  Kept (zipped z rest cptr w) = P cptr w × R z w × (cptr.zip_in ≡ some z)

  module _ (left : (cptr : Conn Z) (w : W) → P cptr w → Q (server.exit_client w))
      (stored : (g : ℕ) (cptr : Conn Z) (w : W)
        → ends_line g ≡ false
        → P cptr w
        → P (put_byte g cptr) w)
      (answered : (cptr : Conn Z) (w : W)
        → cptr.buffer ≢ []
        → P cptr w
        → Answered (take_line cptr) (parse_line server cptr.buffer (cptr.receive_m + 1) w)) where
    abbrev Keeps : (Bytes → Conn Z → W → Fed W Z) → Type 0
    Keeps go = (rest : Bytes) (cptr : Conn Z) (w : W) → P cptr w → Kept (go rest cptr w)

    unless_dead-Kept :
        (go : Bytes → Conn Z → W → Fed W Z) → Keeps go → Keeps (unless_dead server go)
    unfolding unless_dead Kept
    unless_dead-Kept go keeps rest cptr w ok = elim (Bool-cases (server.is_dead w)) [
      | inl on ↦ rw on (left cptr w ok)
      | inr off ↦ rw off (keeps rest cptr w ok)
    ]

    on_reply-Kept :
        (go : Bytes → Conn Z → W → Fed W Z)
        → Keeps go
        → (rest : Bytes) (cptr : Conn Z) (r : Reply Z × W) → Answered cptr r
        → Kept (on_reply server go rest cptr r)
    unfolding on_reply Answered Kept
    on_reply-Kept go keeps rest cptr (flush_buffer, w) ok = ok
    on_reply-Kept go keeps [] cptr (zip_next_buffer z, w) ok = unless_dead-Kept go keeps [] _ w ok.0
    on_reply-Kept go keeps (c ∷ rest) cptr (zip_next_buffer z, w) ok = (ok.0, ok.1, refl)
    on_reply-Kept go keeps rest cptr (rc4_next_buffer rc4, w) ok =
        unless_dead-Kept go keeps (decrypt_rest rc4 rest).1 _ w (ok (decrypt_rest rc4 rest).0)
    on_reply-Kept go keeps rest cptr (other, w) ok = unless_dead-Kept go keeps rest cptr w ok

    on_byte-Kept :
        (go : Bytes → Conn Z → W → Fed W Z) (g : ℕ) → Keeps go → Keeps (on_byte server go g)
    unfolding on_byte on_line
    on_byte-Kept go g keeps rest cptr w ok = elim (Bool-cases (ends_line g)) [
      | inl on ↦ elim (Bool-cases (length cptr.buffer == 0)) [
        | inl none_yet ↦ rw (on, none_yet) (keeps rest cptr w ok)
        | inr some_yet ↦
            rw (on, some_yet)
              (on_reply-Kept go keeps rest (take_line cptr) _
                (answered cptr w (λ e. ground (arith, some_yet, e)) ok))
      ]
      | inr off ↦ rw off (keeps rest (put_byte g cptr) w (stored g cptr w off ok))
    ]

    pub feed-Kept : (n : ℕ) → Keeps (feed server n)
    unfolding feed Kept
    feed-Kept zero rest cptr w ok = ok
    feed-Kept (suc n) [] cptr w ok = ok
    feed-Kept (suc n) (g ∷ rest) cptr w ok =
        on_byte-Kept (feed server n) g (feed-Kept n) rest cptr w ok
