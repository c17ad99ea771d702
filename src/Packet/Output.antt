-- ===== src/Packet/Output.antt =====
-- The output side of src/zlink.c. `bufsize` is the length of `buf`; the errors of deflate are one.
use solidircd.Base.{
  ℕ, ◌-◌, ◌<◌, ◌≤◌, ◌≡◌, refl, ◌∙◌, inl, inr, Bool, true, [], ◌++◌, append-nil, Option, none, some,
  ltb, not, ◌&&◌, ◌||◌, if◌then◌else◌, length, length-append, arith, Bool-cases,
}
use solidircd.Match.Compare.{Bytes}

abbrev pub zip_min_block : ℕ
zip_min_block = 1024

abbrev pub zip_max_block : ℕ
zip_max_block = 8192

abbrev pub zip_out_buf_size : ℕ
zip_out_buf_size = 16384

-- What `deflate` answers: whether it is `Z_OK`, the stream after it, and what it wrote
pub record Deflated (Z : Type 0) : Type 0 where
  pub is_ok : Bool
  pub stream : Z
  pub output : Bytes

-- `struct zipped_link_out`
pub record ZippedLinkOut (Z : Type 0) : Type 0 where
  pub stream : Z
  pub buf : Bytes

-- What is given back: no text yet, a text to send, or a length of -1
pub data Zipped : Type 0 where
  waits : Zipped
  sends : Bytes → Zipped
  fails : Zipped

abbrev pub with_text : Bytes → Option Bytes → Bytes
with_text buf none = buf
with_text buf (some s) = buf ++ s

module _ {Z : Type 0} (deflate : Z → Bytes → ℕ → Deflated Z) where
  -- The call of `deflate`
  unfoldable pub compress : ZippedLinkOut Z → ZippedLinkOut Z × Zipped
  compress z =
      let r = deflate z.stream z.buf zip_out_buf_size in
      if r.is_ok
      then (record { stream = r.stream; buf = [] }, sends r.output)
      else (record { stream = r.stream; buf = z.buf }, fails)

  -- `zip_output`; `has_flag` is whether the pointer `largedata` is not NULL.
  unfoldable pub zip_output :
      ZippedLinkOut Z → Option Bytes → Bool → Bool → ZippedLinkOut Z × Zipped
  unfolding compress
  zip_output z buffer forceflush has_flag =
      let full = record z { buf = with_text z.buf buffer } in
      if not forceflush
        && (ltb (length full.buf) zip_min_block
            || has_flag && ltb (length full.buf) (zip_max_block - 512))
      then (full, waits)
      else compress full

  -- What has gone to `deflate`, and what waits behind it
  abbrev pub OutOrder : (Z → Bytes) → Bytes → ZippedLinkOut Z × Zipped → Type 0
  OutOrder taken s (z, fails) = length z.buf < zip_max_block
  OutOrder taken s (z, answer) = (length z.buf < 7680) × (taken z.stream ++ z.buf ≡ s)

  module _ (taken : Z → Bytes)
      (takes : (z : Z) (s : Bytes)
        → length s < zip_max_block
        → (deflate z s zip_out_buf_size).is_ok ≡ true
        → taken (deflate z s zip_out_buf_size).stream ≡ taken z ++ s) where
    compress_lem :
        (z : ZippedLinkOut Z)
        → length z.buf < zip_max_block
        → OutOrder taken (taken z.stream ++ z.buf) (compress z)
    unfolding compress
    compress_lem z room = elim (Bool-cases (deflate z.stream z.buf zip_out_buf_size).is_ok) [
      | inl on ↦ rw on (omega arith, append-nil _ ∙ takes z.stream z.buf room on)
      | inr off ↦ rw off room
    ]

    -- `deflate` takes all of its input when it answers Z_OK. With fewer than 7680 bytes that wait and
    -- a text of at most 512, zip_output stays inside the 8192 bytes of `buf`; and unless it fails,
    -- fewer than 7680 bytes wait again, and all texts have gone to `deflate` or wait, in their order.
    pub zip_output_lem :
        (z : ZippedLinkOut Z) (s : Bytes) (forceflush has_flag : Bool)
        → length z.buf < 7680
        → length s ≤ 512
        → (length (z.buf ++ s) < zip_max_block)
          × OutOrder taken
              (taken z.stream ++ (z.buf ++ s))
              (zip_output z (some s) forceflush has_flag)
    unfolding zip_output
    zip_output_lem z s forceflush has_flag room short =
        let full : length (z.buf ++ s) < 8192 = omega (arith, length-append z.buf s, room, short) in
        let now = compress_lem (record z { buf = z.buf ++ s }) full in
        (
          full,
          elim (Bool-cases (
              not forceflush
              && (ltb (length (z.buf ++ s)) 1024 || has_flag && ltb (length (z.buf ++ s)) 7680))) [
                | inl on ↦ rw on (ground (arith, on), refl)
                | inr off ↦ rw off now
              ],
        )
