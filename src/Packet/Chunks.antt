-- ===== src/Packet/Chunks.antt =====
-- The loop of dopacket in src/packet.c on a text with more text behind it, where encryption may start
-- in the middle.
use solidircd.Base.{
  ℕ, zero, suc, ◌+◌, ◌≡◌, refl, ap, ◌∙◌, ◌⊎◌, inl, inr, Bool, true, false, [], ◌∷◌, ◌++◌, Option,
  none, some, ◌==◌, if◌then◌else◌, length, arith, Bool-cases,
}
use solidircd.Match.Compare.{Bytes}
use solidircd.Packet.Feed.{
  Fed, at_end, flushed, zipped, feed, on_byte, on_line, on_reply, unless_dead, put_byte, take_line,
  decrypt_rest, ends_line,
}
use solidircd.Packet.Session.{
  Reply, flush_buffer, zip_next_buffer, rc4_next_buffer, other, Conn, Server, parse_line, handled,
}
use solidircd.Parse.Line.{Parsed}
use solidircd.Rc4.{Rc4State, advance, rc4_process_stream_to_buf}
use solidircd.Rc4.Stream.{to_buf-append, whole}

module _ {W : Type 0} {Z : Type 0} (encrypted : W → Bool) where
  -- A handler that starts no compression, and starts encryption only when it is off; from then on
  -- it is on.
  unfoldable pub Lawful : W → Reply Z × W → Type 0
  Lawful w (flush_buffer, w') = Unit
  Lawful w (zip_next_buffer z, w') = ⊥
  Lawful w (rc4_next_buffer rc4, w') = (encrypted w ≡ false) × (encrypted w' ≡ true)
  Lawful w (other, w') = (encrypted w ≡ false) ⊎ (encrypted w' ≡ true)

-- A connection with a session is one whose flag is set.
unfoldable pub Fits : {W S : Type 0} → (W → Bool) → Option S → W → Type 0
Fits flag none w = Unit
Fits flag (some session) w = flag w ≡ true

-- The state of the cipher behind a text, and the text as the connection reads it
unfoldable pub ahead : Option Rc4State → Bytes → Option Rc4State × Bytes
unfolding decrypt_rest
ahead none t = (none, t)
ahead (some rc4) t = let (after, plain) = decrypt_rest rc4 t in (some after, plain)

abbrev pub keyed : {Z : Type 0} → Option Rc4State → Conn Z → Conn Z
keyed o cptr = record cptr { rc4_in = o }

module _ {W : Type 0} {Z : Type 0} where
  -- A closed client has no cipher any more.
  unfoldable pub settle_fed : Fed W Z → Fed W Z
  settle_fed (at_end cptr w) = at_end cptr w
  settle_fed (flushed cptr w) = flushed (keyed none cptr) w
  settle_fed (zipped z rest cptr w) = zipped z rest cptr w

  unfoldable pub follow : Fed W Z → (Conn Z → W → Fed W Z) → Fed W Z
  follow (at_end cptr w) go = go cptr w
  follow (flushed cptr w) go = flushed cptr w
  follow (zipped z rest cptr w) go = zipped z rest cptr w

  -- A piece of text on a connection
  unfoldable pub next : Server W Z → Bytes → Conn Z → W → Fed W Z
  unfolding ahead feed
  next server t cptr w =
      feed server (length t) (ahead cptr.rc4_in t).1 (keyed (ahead cptr.rc4_in t).0 cptr) w

length-to_buf : (rc4 : Rc4State) (s : Bytes) → length (rc4_process_stream_to_buf rc4 s).1 ≡ length s
unfolding rc4_process_stream_to_buf
length-to_buf rc4 [] = refl
length-to_buf rc4 (c ∷ s) = ap suc (length-to_buf (advance rc4) s)

decrypt_rest_whole :
    (rc4 : Rc4State) (s : Bytes) → decrypt_rest rc4 s ≡ rc4_process_stream_to_buf rc4 s
unfolding decrypt_rest
decrypt_rest_whole rc4 s = whole rc4 s

length-decrypt_rest : (rc4 : Rc4State) (s : Bytes) → length (decrypt_rest rc4 s).1 ≡ length s
length-decrypt_rest rc4 s = rw (decrypt_rest_whole rc4 s) (length-to_buf rc4 s)

pub length-ahead : (o : Option Rc4State) (t : Bytes) → length (ahead o t).1 ≡ length t
unfolding ahead
length-ahead none t = refl
length-ahead (some rc4) t = length-decrypt_rest rc4 t

-- A text that is decrypted in one piece, or in two
decrypt_rest-append :
    (rc4 : Rc4State) (s t : Bytes)
    → decrypt_rest rc4 (s ++ t) ≡ (
      (decrypt_rest (decrypt_rest rc4 s).0 t).0,
      (decrypt_rest rc4 s).1 ++ (decrypt_rest (decrypt_rest rc4 s).0 t).1,
    )
decrypt_rest-append rc4 s t =
    rw
      (
        decrypt_rest_whole rc4 (s ++ t),
        decrypt_rest_whole rc4 s,
        decrypt_rest_whole (rc4_process_stream_to_buf rc4 s).0 t,
      )
      (to_buf-append rc4 s t)

pub ahead-append :
    (o : Option Rc4State) (s t : Bytes)
    → ahead o (s ++ t) ≡ ((ahead (ahead o s).0 t).0, (ahead o s).1 ++ (ahead (ahead o s).0 t).1)
unfolding ahead
ahead-append none s t = refl
ahead-append (some rc4) s t = ap (λ d. (some d.0, d.1)) (decrypt_rest-append rc4 s t)

module _ {W : Type 0} {Z : Type 0} (server : Server W Z) (encrypted : W → Bool) (t : Bytes) where
  -- `go` goes on with the text behind the piece in it, `go'` with the piece alone.
  abbrev Agree : (Bytes → Conn Z → W → Fed W Z) → (Bytes → Conn Z → W → Fed W Z) → ℕ → Type 0
  Agree go go' n =
      (s : Bytes)
      → length s ≡ n
      → (o : Option Rc4State) (cptr : Conn Z) (w : W) → Fits encrypted o w
      → settle_fed (go (s ++ (ahead o t).1) (keyed (ahead o t).0 cptr) w)
        ≡ settle_fed (follow (go' s (keyed o cptr) w) (next server t))

  unless_dead-append :
      (go go' : Bytes → Conn Z → W → Fed W Z) (n : ℕ)
      → Agree go go' n
      → Agree (unless_dead server go) (unless_dead server go') n
  unfolding unless_dead settle_fed follow
  unless_dead-append go go' n agree s sized o cptr w fits = at (server.is_dead w)
    where
      at :
          (b : Bool)
          → settle_fed (
              if b
              then flushed (keyed (ahead o t).0 cptr) (server.exit_client w)
              else go (s ++ (ahead o t).1) (keyed (ahead o t).0 cptr) w)
            ≡ settle_fed (
                follow
                  (if b
                    then flushed (keyed o cptr) (server.exit_client w)
                    else go' s (keyed o cptr) w)
                  (next server t))
      at true = refl
      at false = agree s sized o cptr w fits

  on_reply-append :
      (go go' : Bytes → Conn Z → W → Fed W Z) (n : ℕ)
      → Agree go go' n
      → (s : Bytes) → length s ≡ n
      → (o : Option Rc4State) (cptr : Conn Z) (w : W) → Fits encrypted o w
      → (r : Reply Z × W) → Lawful encrypted w r
      → settle_fed (on_reply server go (s ++ (ahead o t).1) (keyed (ahead o t).0 cptr) r)
        ≡ settle_fed (follow (on_reply server go' s (keyed o cptr) r) (next server t))
  unfolding on_reply settle_fed follow Lawful Fits ahead
  on_reply-append go go' n agree s sized o cptr w fits (flush_buffer, w') lawful = refl
  on_reply-append go go' n agree s sized o cptr w fits (zip_next_buffer z, w') lawful =
      absurd lawful
  on_reply-append go go' n agree s sized (some k) cptr w fits (rc4_next_buffer rc4, w') lawful =
      ground (arith, fits, lawful)
  on_reply-append go go' n agree s sized none cptr w fits (rc4_next_buffer rc4, w') lawful =
      ap (λ d. settle_fed (unless_dead server go d.1 (keyed (some d.0) cptr) w'))
        (decrypt_rest-append rc4 s t)
      ∙ unless_dead-append go go' n agree (decrypt_rest rc4 s).1 (length-decrypt_rest rc4 s ∙ sized)
          (some (decrypt_rest rc4 s).0) cptr w' lawful.1
  on_reply-append go go' n agree s sized none cptr w fits (other, w') lawful =
      unless_dead-append go go' n agree s sized none cptr w' tt
  on_reply-append go go' n agree s sized (some k) cptr w fits (other, w') lawful =
      unless_dead-append go go' n agree s sized (some k) cptr w' (ground (arith, fits, lawful))

  module _ (lawful : (p : Parsed) (w : W) → Lawful encrypted w (server.handle p w)) where
    pub handled-Lawful : (w : W) (o : Option Parsed) → Lawful encrypted w (handled server w o)
    unfolding handled Lawful
    handled-Lawful w none = elim (Bool-cases (encrypted w)) [ inl on ↦ inr on | inr off ↦ inl off ]
    handled-Lawful w (some p) = lawful p w

    on_byte-append :
        (go go' : Bytes → Conn Z → W → Fed W Z) (n : ℕ)
        → Agree go go' n
        → (g : ℕ) → Agree (on_byte server go g) (on_byte server go' g) n
    unfolding on_byte on_line put_byte take_line parse_line
    on_byte-append go go' n agree g s sized o cptr w fits =
        at (ends_line g) (length cptr.buffer == 0)
      where
        at :
            (b b' : Bool)
            → settle_fed (
                if b
                then (if b'
                    then go (s ++ (ahead o t).1) (keyed (ahead o t).0 cptr) w
                    else on_line server go (s ++ (ahead o t).1) (keyed (ahead o t).0 cptr) w)
                else go (s ++ (ahead o t).1) (put_byte g (keyed (ahead o t).0 cptr)) w)
              ≡ settle_fed (
                  follow
                    (if b
                      then (if b'
                          then go' s (keyed o cptr) w
                          else on_line server go' s (keyed o cptr) w)
                      else go' s (put_byte g (keyed o cptr)) w)
                    (next server t))
        at true true = agree s sized o cptr w fits
        at true false =
            on_reply-append go go' n agree s sized o (take_line cptr) w fits _ (handled-Lawful w _)
        at false b' = agree s sized o (put_byte g cptr) w fits

    pub feed-append : (n : ℕ) → Agree (feed server (n + length t)) (feed server n) n
    unfolding feed follow next settle_fed
    feed-append zero [] sized o cptr w fits =
        let step : 0 + length t ≡ length t = omega arith in
        ap (λ k. settle_fed (feed server k (ahead o t).1 (keyed (ahead o t).0 cptr) w)) step
    feed-append zero (g ∷ s) sized o cptr w fits = absurd (omega (arith, sized))
    feed-append (suc n) [] sized o cptr w fits = absurd (omega (arith, sized))
    feed-append (suc n) (g ∷ s) sized o cptr w fits =
        let step : suc n + length t ≡ suc (n + length t) = omega arith in
        ap (λ k. settle_fed (feed server k (g ∷ (s ++ (ahead o t).1)) (keyed (ahead o t).0 cptr) w))
          step
        ∙ on_byte-append (feed server (n + length t)) (feed server n) n (feed-append n) g s
            (omega (arith, sized)) o cptr w fits
