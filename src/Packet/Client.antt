-- ===== src/Packet/Client.antt =====
-- client_dopacket of src/packet.c on a line, and dopacket on the line with its end.
use solidircd.Base.{
  ℕ, suc, ◌+◌, ◌<◌, ◌≡◌, ◌≢◌, refl, sym, ap, ◌∙◌, inl, inr, Bool, true, false, [], ◌∷◌, ◌++◌,
  Option, none, some, ◌==◌, ltb, length, length-append, arith, append_assoc, append-nil, Bool-cases,
}
use solidircd.Match.Compare.{Bytes}
use solidircd.Packet.Bounded.{AllInside}
use solidircd.Packet.Counters.{Traffic, count_line}
use solidircd.Packet.Feed.{
  feed, on_byte, on_line, on_reply, unless_dead, put_byte, take_line, ends_line,
}
use solidircd.Packet.Receive.{
  Done, closed, kept, on_fed, at_zip, zcontinue, decrypt, dopacket, client_dopacket,
  on_client_reply,
}
use solidircd.Packet.Session.{
  Inflate, Reply, flush_buffer, zip_next_buffer, rc4_next_buffer, other, Conn, Server, parse_line,
  c_string,
}

module _ {W : Type 0} {Z : Type 0} (server : Server W Z) where
  -- A text without an end of line goes to the end of the buffer, when there is room.
  feed-inside :
      (s rest : Bytes) (cptr : Conn Z) (w : W)
      → AllInside s
      → length cptr.buffer + length s < 512
      → feed server (length (s ++ rest)) (s ++ rest) cptr w
        ≡ feed server (length rest) rest (record cptr { buffer = cptr.buffer ++ s }) w
  unfolding feed on_byte put_byte AllInside
  feed-inside [] rest cptr w inside room =
      ap (λ s. feed server (length rest) rest (record cptr { buffer = s }) w)
        (sym (append-nil cptr.buffer))
  feed-inside (c ∷ s) rest cptr w inside room =
      let room' : ltb (length cptr.buffer) 511 ≡ true = ground (arith, room) in
      let step : length (cptr.buffer ++ c ∷ []) + length s ≡ length cptr.buffer + suc (length s) =
        omega (arith, length-append cptr.buffer (c ∷ [])) in
      rw (inside.0, room')
        (feed-inside s rest (record cptr { buffer = cptr.buffer ++ c ∷ [] }) w inside.1
          (omega (arith, room, step)))
      ∙ ap (λ l. feed server (length rest) rest (record cptr { buffer = l }) w)
          (append_assoc cptr.buffer (c ∷ []) s)

-- Whether the client is gone, and the rest of the program
unfoldable pub effect : {W Z : Type 0} → Done W Z → Bool × W
effect (closed cptr w) = (true, w)
effect (kept cptr w) = (false, w)

unfoldable pub effects : {W Z : Type 0} → Option (Done W Z) → Option (Bool × W)
unfolding effect
effects none = none
effects (some d) = some (effect d)

length-c_string : (s : Bytes) → length (c_string s) < length s + 1
unfolding c_string
length-c_string [] = omega arith
length-c_string (c ∷ s) = ground (arith, length-c_string s)

c_string_twice : (s : Bytes) → c_string (c_string s) ≡ c_string s
unfolding c_string
c_string_twice [] = refl
c_string_twice (c ∷ s) = elim (Bool-cases (c == 0)) [
  | inl on ↦ rw on refl
  | inr off ↦ rw off (rw off (ap (λ l. c ∷ l) (c_string_twice s)))
]

module _ {W : Type 0} {Z : Type 0} (server : Server W Z) (inflate : Inflate Z) where
  reply-agree :
      (fuel : ℕ) (cptr cptr' : Conn Z) (r : Reply Z × W)
      → effects
          (on_fed (zcontinue fuel server inflate) none (on_reply server (feed server 0) [] cptr r))
        ≡ some (effect (on_client_reply server cptr' r))
  unfolding on_reply unless_dead on_client_reply effects on_fed feed
  reply-agree fuel cptr cptr' (flush_buffer, w) = refl
  reply-agree fuel cptr cptr' (zip_next_buffer z, w) = elim (Bool-cases (server.is_dead w)) [
    | inl on ↦ rw on refl
    | inr off ↦ rw off refl
  ]
  reply-agree fuel cptr cptr' (rc4_next_buffer rc4, w) = elim (Bool-cases (server.is_dead w)) [
    | inl on ↦ rw on refl
    | inr off ↦ rw off refl
  ]
  reply-agree fuel cptr cptr' (other, w) = elim (Bool-cases (server.is_dead w)) [
    | inl on ↦ rw on refl
    | inr off ↦ rw off refl
  ]

  parse_line_cut :
      (line : Bytes) (m : ℕ) (w : W)
      → parse_line server (c_string line) m w ≡ parse_line server line m w
  unfolding parse_line
  parse_line_cut line m w = rw (c_string_twice line) refl

  feed-line :
      (line : Bytes) (cptr : Conn Z) (w : W)
      → line ≢ []
      → AllInside line
      → length line < 512
      → cptr.buffer ≡ []
      → feed server (length (line ++ b'\n' ∷ [])) (line ++ b'\n' ∷ []) cptr w
        ≡ on_reply server
            (feed server 0)
            []
            (take_line cptr)
            (parse_line server line (cptr.receive_m + 1) w)
  unfolding feed on_byte on_line ends_line take_line
  feed-line [] cptr w some_yet inside short empty = absurd (some_yet refl)
  feed-line (c ∷ line) cptr w some_yet inside short empty =
      let text = c ∷ line in
      let room : length cptr.buffer + length text < 512 =
        let e : length cptr.buffer ≡ 0 = ap length empty in omega (arith, short, e) in
      let filled : (suc (length line) == 0) ≡ false = ground arith in
      feed-inside server text (b'\n' ∷ []) cptr w inside room
      ∙ ap (λ l. feed server 1 (b'\n' ∷ []) (record cptr { buffer = l ++ text }) w) empty
      ∙ rw filled refl

  -- A line that is not empty, has no CR or LF and is shorter than 512 bytes, on a connection with
  -- nothing in its buffer, without compression and encryption: client_dopacket has a result for the
  -- line, and dopacket for the line with an LF behind it. The rest of the program is the same
  -- behind both, and the client is gone behind both or behind none.
  pub client_dopacket-agree :
      (fuel : ℕ) (line : Bytes) (traffic : Traffic) (cptr : Conn Z) (w : W)
      → line ≢ []
      → AllInside line
      → length line < 512
      → cptr.buffer ≡ []
      → cptr.rc4_in ≡ none
      → cptr.zip_in ≡ none
      → (t : Traffic) × (d : Done W Z) × (client_dopacket server line traffic cptr w ≡ some (t, d))
        × (effects (dopacket (suc fuel) server inflate (line ++ b'\n' ∷ []) traffic cptr w).1
            ≡ some (effect d))
  unfolding client_dopacket dopacket decrypt zcontinue at_zip
  client_dopacket-agree fuel line traffic cptr w some_yet inside short empty clear plain =
      let text = line ++ b'\n' ∷ [] in
      let fits : ltb (length (c_string line)) 512 ≡ true =
        ground (arith, short, length-c_string line) in
      let counted : Conn Z = record (take_line cptr) { lstn = cptr.lstn } in
      let whole : (dopacket (suc fuel) server inflate text traffic cptr w).1
          ≡ on_fed (zcontinue fuel server inflate) none (
              on_reply server (feed server 0) [] (take_line cptr)
                (parse_line server line (cptr.receive_m + 1) w)) =
        ap
          (λ o.
            zcontinue (suc fuel) server inflate false (decrypt text cptr o).0
              (decrypt text cptr o).1 w)
          clear
        ∙ ap (λ o. at_zip server inflate (zcontinue fuel server inflate) false text cptr w o) plain
        ∙ ap (λ f. on_fed (zcontinue fuel server inflate) none f)
            (feed-line line cptr w some_yet inside short empty) in
      let d : Done W Z =
        on_client_reply server counted (parse_line server (c_string line) (cptr.receive_m + 1) w) in
      (
        count_line (length (c_string line)) traffic,
        d,
        rw fits refl,
        ap effects whole
            ∙ reply-agree fuel (take_line cptr) counted _
            ∙ ap (λ r. some (effect (on_client_reply server counted r)))
                (sym (parse_line_cut line (cptr.receive_m + 1) w)),
      )
