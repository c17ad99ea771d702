-- ===== src/Rc4.antt =====
-- src/rc4.c: the stream cipher of the links between servers.
--
-- The context is a record, `mstate` a list of 256 bytes. `RC4BYTE` arithmetic wraps at 256, and so
-- does `& 0xFF`. A key is the list of its `keylen` bytes.
pub mod Xor
pub mod Permutation
pub mod Stream
mod Tests
use solidircd.Base.{
  ℕ, zero, suc, ◌+◌, ◌*◌, ◌/◌, ◌%◌, Bool, true, false, List, [], ◌∷◌, leb, if◌then◌else◌, get_or,
  set, replicate, length,
}
use solidircd.Match.Compare.{Bytes}

-- `struct rc4_state`
pub record Rc4State : Type 0 where
  pub mstate : Bytes
  pub x : ℕ
  pub y : ℕ

-- C's `^` on the low bits of its operands, as many as the first argument says
unfoldable pub xor_bits : ℕ → ℕ → ℕ → ℕ
xor_bits zero a b = 0
xor_bits (suc w) a b = (a % 2 + b % 2) % 2 + 2 * xor_bits w (a / 2) (b / 2)

-- `^=` on a byte
abbrev pub xor : ℕ → ℕ → ℕ
xor a b = xor_bits 8 a b

-- The exchange of two bytes of the state
unfoldable pub swap : Bytes → ℕ → ℕ → Bytes
swap s i j = set (set s i (get_or s j 0)) j (get_or s i 0)

-- The first loop of `rc4_initstate`
unfoldable pub fill : ℕ → ℕ → Bytes → Bytes
fill zero i s = s
fill (suc left) i s = fill left (i + 1) (set s i (i % 256))

-- The second loop of `rc4_initstate`, with as many rounds left as the first number says
unfoldable pub schedule : Bytes → ℕ → ℕ → ℕ → ℕ → Bytes → Bytes
unfolding swap
schedule key zero i idx1 idx2 s = s
schedule key (suc left) i idx1 idx2 s =
    let other = (get_or key idx1 0 + get_or s i 0 + idx2) % 256 in
    let next = (idx1 + 1) % 256 in
    schedule key left (i + 1) (if leb (length key) next then 0 else next) other (swap s i other)

unfoldable pub rc4_initstate : Bytes → Rc4State
unfolding fill schedule
rc4_initstate key = record {
  mstate = schedule key 256 0 0 0 (fill 256 0 (replicate 256 0));
  x = 0;
  y = 0;
}

-- One round of the two loops over a string: the state after it, and the byte of the key stream
unfoldable pub advance : Rc4State → Rc4State
unfolding swap
advance rc4 =
    let x = (rc4.x + 1) % 256 in
    let y = (rc4.y + get_or rc4.mstate x 0) % 256 in
    record { mstate = swap rc4.mstate x y; x = x; y = y }

-- `s[(a + b) & 0xFF]`: behind the exchange `a` is `s[y]` and `b` is `s[x]`.
unfoldable pub key_byte : Rc4State → ℕ
unfolding advance
key_byte rc4 =
    let x = (rc4.x + 1) % 256 in
    let a = get_or rc4.mstate x 0 in
    let b = get_or rc4.mstate ((rc4.y + a) % 256) 0 in get_or (advance rc4).mstate ((a + b) % 256) 0

-- The loop of `rc4_process_stream`, with as many bytes left as the number says, at a position
unfoldable pub process_from : ℕ → ℕ → Rc4State → Bytes → Rc4State × Bytes
unfolding advance key_byte xor_bits
process_from zero pos rc4 buf = (rc4, buf)
process_from (suc left) pos rc4 buf =
    process_from left (pos + 1) (advance rc4) (set buf pos (xor (get_or buf pos 0) (key_byte rc4)))

-- `rc4_process_stream`, in place
unfoldable pub rc4_process_stream : Rc4State → Bytes → ℕ → Rc4State × Bytes
unfolding process_from
rc4_process_stream rc4 istring stringlen = process_from stringlen 0 rc4 istring

-- `rc4_process_stream_to_buf`, over the bytes of `istring`: what it writes to `ostring`
unfoldable pub rc4_process_stream_to_buf : Rc4State → Bytes → Rc4State × Bytes
unfolding advance key_byte xor_bits
rc4_process_stream_to_buf rc4 [] = (rc4, [])
rc4_process_stream_to_buf rc4 (c ∷ istring) =
    let (after, ostring) = rc4_process_stream_to_buf (advance rc4) istring in
    (after, xor c (key_byte rc4) ∷ ostring)
