-- ===== src/Rc4/Stream.antt =====
-- The two streams of src/rc4.c: in place and into a buffer, and the two ends of a link.
use solidircd.Base.{
  ℕ, ◌+◌, ◌<◌, ◌≡◌, refl, sym, ap, ◌∙◌, subst, List, [], ◌∷◌, ◌++◌, append-nil, append_assoc,
  get_or, set, length, length-append,
}
use solidircd.Match.Compare.{Bytes}
use solidircd.Rc4.{
  Rc4State, xor, advance, key_byte, process_from, rc4_initstate, rc4_process_stream,
  rc4_process_stream_to_buf,
}
use solidircd.Rc4.Xor.{xor_twice}

abbrev pub AreBytes : Bytes → Type 0
AreBytes [] = Unit
AreBytes (c ∷ s) = (c < 256) × AreBytes s

get_or-append : (s : Bytes) (c : ℕ) (rest : Bytes) → get_or (s ++ c ∷ rest) (length s) 0 ≡ c
get_or-append [] c rest = refl
get_or-append (x ∷ s) c rest = get_or-append s c rest

set-append : (s : Bytes) (c v : ℕ) (rest : Bytes) → set (s ++ c ∷ rest) (length s) v ≡ s ++ v ∷ rest
set-append [] c v rest = refl
set-append (x ∷ s) c v rest = ap (λ l. x ∷ l) (set-append s c v rest)

-- The loop in place, in the middle of a string.
process_from-buf :
    (done todo rest : Bytes) (rc4 : Rc4State)
    → process_from (length todo) (length done) rc4 (done ++ (todo ++ rest)) ≡ (
      (rc4_process_stream_to_buf rc4 todo).0,
      done ++ ((rc4_process_stream_to_buf rc4 todo).1 ++ rest),
    )
unfolding process_from rc4_process_stream_to_buf
process_from-buf done [] rest rc4 = refl
process_from-buf done (c ∷ todo) rest rc4 =
    let v = xor c (key_byte rc4) in
    let later = process_from-buf (done ++ v ∷ []) todo rest (advance rc4) in
    let now = done ++ c ∷ (todo ++ rest) in
    let written : set now (length done) (xor (get_or now (length done) 0) (key_byte rc4))
        ≡ (done ++ v ∷ []) ++ (todo ++ rest) =
      ap (λ b. set now (length done) (xor b (key_byte rc4))) (get_or-append done c (todo ++ rest))
      ∙ set-append done c v (todo ++ rest)
      ∙ sym (append_assoc done (v ∷ []) (todo ++ rest)) in
    ap (process_from (length todo) (length done + 1) (advance rc4)) written
    ∙ ap (λ n. process_from (length todo) n (advance rc4) ((done ++ v ∷ []) ++ (todo ++ rest)))
        (sym (length-append done (v ∷ [])))
    ∙ later
    ∙ ap (λ l. ((rc4_process_stream_to_buf (advance rc4) todo).0, l))
        (append_assoc done (v ∷ []) ((rc4_process_stream_to_buf (advance rc4) todo).1 ++ rest))

-- The first `length todo` bytes of a string that continues with `rest`: `rc4_process_stream`
-- leaves in them what `rc4_process_stream_to_buf` writes, nothing else changes, and both leave the
-- same state.
pub in_place_agree :
    (rc4 : Rc4State) (todo rest : Bytes)
    → rc4_process_stream rc4 (todo ++ rest) (length todo)
      ≡ ((rc4_process_stream_to_buf rc4 todo).0, (rc4_process_stream_to_buf rc4 todo).1 ++ rest)
unfolding rc4_process_stream
in_place_agree rc4 todo rest = process_from-buf [] todo rest rc4

pub to_buf-append :
    (rc4 : Rc4State) (s t : Bytes)
    → rc4_process_stream_to_buf rc4 (s ++ t) ≡ (
      (rc4_process_stream_to_buf (rc4_process_stream_to_buf rc4 s).0 t).0,
      (rc4_process_stream_to_buf rc4 s).1
          ++ (rc4_process_stream_to_buf (rc4_process_stream_to_buf rc4 s).0 t).1,
    )
unfolding rc4_process_stream_to_buf
to_buf-append rc4 [] t = refl
to_buf-append rc4 (c ∷ s) t = rw (to_buf-append (advance rc4) s t) refl

-- The state after a string does not depend on its bytes, and twice is the string.
to_buf_twice :
    (rc4 : Rc4State) (s : Bytes)
    → AreBytes s
    → rc4_process_stream_to_buf rc4 (rc4_process_stream_to_buf rc4 s).1
      ≡ ((rc4_process_stream_to_buf rc4 s).0, s)
unfolding rc4_process_stream_to_buf
to_buf_twice rc4 [] h = refl
to_buf_twice rc4 (c ∷ s) h =
    rw (to_buf_twice (advance rc4) s h.1, xor_twice c (key_byte rc4) h.0) refl

abbrev pub concat : List Bytes → Bytes
concat [] = []
concat (m ∷ ms) = m ++ concat ms

-- What a row of messages puts on the wire, each encrypted into a buffer, from one state on.
unfoldable pub wire : Rc4State → List Bytes → Bytes
wire rc4_out [] = []
wire rc4_out (m ∷ ms) =
    let (after, sent) = rc4_process_stream_to_buf rc4_out m in sent ++ wire after ms

-- What the other end reads, each piece that arrives decrypted in place.
unfoldable pub received : Rc4State → List Bytes → Bytes
received rc4_in [] = []
received rc4_in (m ∷ ms) =
    let (after, plain) = rc4_process_stream rc4_in m (length m) in plain ++ received after ms

wire-concat :
    (rc4 : Rc4State) (ms : List Bytes) → wire rc4 ms ≡ (rc4_process_stream_to_buf rc4 (concat ms)).1
unfolding wire rc4_process_stream_to_buf
wire-concat rc4 [] = refl
wire-concat rc4 (m ∷ ms) =
    rw (to_buf-append rc4 m (concat ms), wire-concat (rc4_process_stream_to_buf rc4 m).0 ms) refl

pub whole :
    (rc4 : Rc4State) (m : Bytes)
    → rc4_process_stream rc4 m (length m) ≡ rc4_process_stream_to_buf rc4 m
whole rc4 m =
    subst
      (λ s.
        rc4_process_stream rc4 s (length m)
        ≡ ((rc4_process_stream_to_buf rc4 m).0, (rc4_process_stream_to_buf rc4 m).1 ++ []))
      (append-nil m) (in_place_agree rc4 m [])
    ∙ ap (λ t. ((rc4_process_stream_to_buf rc4 m).0, t))
        (append-nil (rc4_process_stream_to_buf rc4 m).1)

received-concat :
    (rc4 : Rc4State) (ms : List Bytes)
    → received rc4 ms ≡ (rc4_process_stream_to_buf rc4 (concat ms)).1
unfolding received rc4_process_stream_to_buf
received-concat rc4 [] = refl
received-concat rc4 (m ∷ ms) =
    rw
      (
        whole rc4 m,
        to_buf-append rc4 m (concat ms),
        received-concat (rc4_process_stream_to_buf rc4 m).0 ms,
      )
      refl

-- Two ends that start with the same key: whatever messages of bytes one end encrypts, and however
-- the stream is cut on its way, the other end decrypts the bytes of the messages in their order.
pub link_roundtrip :
    (key : Bytes) (messages chunks : List Bytes)
    → AreBytes (concat messages)
    → concat chunks ≡ wire (rc4_initstate key) messages
    → received (rc4_initstate key) chunks ≡ concat messages
link_roundtrip key messages chunks bytes cut =
    received-concat (rc4_initstate key) chunks
    ∙ ap (λ s. (rc4_process_stream_to_buf (rc4_initstate key) s).1)
        (cut ∙ wire-concat (rc4_initstate key) messages)
    ∙ ap (λ r. r.1) (to_buf_twice (rc4_initstate key) (concat messages) bytes)
