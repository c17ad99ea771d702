-- ===== src/Rc4/Tests.antt =====
-- Runs of the cipher of src/rc4.c, against published test vectors, and its theorems at inputs.
use solidircd.Base.{◌≡◌, refl, [], ◌∷◌, ◌++◌, arith}
use solidircd.Match.Compare.{Bytes}
use solidircd.Rc4.{rc4_initstate, rc4_process_stream, rc4_process_stream_to_buf}
use solidircd.Rc4.Permutation.{IsValid, context-IsValid}
use solidircd.Rc4.Stream.{concat, wire, received, link_roundtrip}

runs : Unit {0}
unfolding rc4_initstate rc4_process_stream rc4_process_stream_to_buf wire received
runs = tt

abbrev key : Bytes
key = b'K' ∷ b'e' ∷ b'y' ∷ []

abbrev plain : Bytes
plain = b'P' ∷ b'l' ∷ b'a' ∷ b'i' ∷ b'n' ∷ b't' ∷ b'e' ∷ b'x' ∷ b't' ∷ []

abbrev sent : Bytes
sent = 0xbb ∷ 0xf3 ∷ 0x16 ∷ 0xe8 ∷ 0xd9 ∷ 0x40 ∷ 0xaf ∷ 0x0a ∷ 0xd3 ∷ []

vector : (rc4_process_stream_to_buf (rc4_initstate key) plain).1 ≡ sent
unfolding runs
vector = refl

in_place : (rc4_process_stream (rc4_initstate key) (plain ++ 1 ∷ 2 ∷ []) 9).1 ≡ sent ++ 1 ∷ 2 ∷ []
unfolding runs
in_place = refl

-- Two messages of four and five bytes, cut into pieces of two and seven.
link_roundtrip_example :
    received
      (rc4_initstate key)
      ((0xbb ∷ 0xf3 ∷ []) ∷ (0x16 ∷ 0xe8 ∷ 0xd9 ∷ 0x40 ∷ 0xaf ∷ 0x0a ∷ 0xd3 ∷ []) ∷ [])
    ≡ concat ((b'P' ∷ b'l' ∷ b'a' ∷ b'i' ∷ []) ∷ (b'n' ∷ b't' ∷ b'e' ∷ b'x' ∷ b't' ∷ []) ∷ [])
unfolding runs
link_roundtrip_example =
    link_roundtrip key
      ((b'P' ∷ b'l' ∷ b'a' ∷ b'i' ∷ []) ∷ (b'n' ∷ b't' ∷ b'e' ∷ b'x' ∷ b't' ∷ []) ∷ [])
      ((0xbb ∷ 0xf3 ∷ []) ∷ (0x16 ∷ 0xe8 ∷ 0xd9 ∷ 0x40 ∷ 0xaf ∷ 0x0a ∷ 0xd3 ∷ []) ∷ [])
      (omega arith) refl

context-IsValid_example : IsValid (rc4_process_stream_to_buf (rc4_initstate key) plain).0
context-IsValid_example = context-IsValid key plain
