-- ===== src/Sbuf/Messages.antt =====
-- A message through a queue of src/sbuf.c: what sbuf_put put in, sbuf_getmsg takes out.
use solidircd.Base.{
  ℕ, zero, suc, ◌<◌, ◌≡◌, refl, sym, ap, ◌∙◌, true, false, List, [], ◌∷◌, ◌++◌, some, arith, length,
  length-append, take, drop,
}
use solidircd.Sbuf.Chain.{text_of, IsQueue}
use solidircd.Sbuf.Flush.{skip_eols, no-length}
use solidircd.Sbuf.Lines.{find_line, first_line, taken_line, sbuf_getmsg_lem}
use solidircd.Sbuf.Pool.{Pools}
use solidircd.Sbuf.Queue.{SBuf, is_eol, eols, sbuf_put, sbuf_getmsg}
use solidircd.Sbuf.Whole.{sbuf_put_lem}

-- No end mark stands in the text.
unfoldable pub NoEol : List ℕ → Type 0
NoEol [] = Unit
NoEol (c ∷ s) = (is_eol c ≡ false) × NoEol s

find_line-front :
    (n : ℕ) (s rest : List ℕ) (c : ℕ)
    → NoEol s
    → is_eol c ≡ true
    → length s < n
    → find_line (take n (s ++ c ∷ rest)) ≡ some s
unfolding find_line NoEol
find_line-front zero s rest c plain end h = absurd (omega arith)
find_line-front (suc n) [] rest c plain end h = rw end refl
find_line-front (suc n) (d ∷ s) rest c plain end h =
    rw (plain.0, find_line-front n s rest c plain.1 end (omega arith)) refl

skip_eols-front : (s rest : List ℕ) → NoEol s → 0 < length s → skip_eols (s ++ rest) ≡ s ++ rest
unfolding eols NoEol
skip_eols-front [] rest plain h = absurd (omega arith)
skip_eols-front (c ∷ s) rest plain h = rw plain.0 refl

drop-front : (s rest : List ℕ) → drop (length s) (s ++ rest) ≡ rest
drop-front [] rest = refl
drop-front (c ∷ s) rest = drop-front s rest

skip_eols-end : (rest : List ℕ) → skip_eols (b'\r' ∷ b'\n' ∷ rest) ≡ skip_eols rest
unfolding eols
skip_eols-end rest = refl

-- A line with its end, at the front of a text
first_line-line :
    (n : ℕ) (line rest : List ℕ)
    → NoEol line
    → 0 < length line
    → length line < n
    → first_line n (line ++ b'\r' ∷ b'\n' ∷ rest) ≡ (line, skip_eols rest)
unfolding first_line
first_line-line n line rest plain some_bytes fits =
    let text = line ++ b'\r' ∷ b'\n' ∷ rest in
    ap (λ s. taken_line s (find_line (take n s)))
      (skip_eols-front line (b'\r' ∷ b'\n' ∷ rest) plain some_bytes)
    ∙ ap (taken_line text) (find_line-front n line (b'\n' ∷ rest) b'\r' plain refl fits)
    ∙ ap (λ t. (line, skip_eols t)) (drop-front line (b'\r' ∷ b'\n' ∷ rest))
    ∙ ap (λ t. (line, t)) (skip_eols-end rest)

-- On a queue in order that is empty: a line that is not empty and has no end mark, with its end and
-- more behind it, goes in by sbuf_put, and sbuf_getmsg with room for more than the line gives just
-- the line. The queue then holds what was behind it, without the end marks in front.
pub message_roundtrip :
    (m : Pools) (refs : ℕ → ℕ) (q : SBuf) (line rest : List ℕ) (n : ℕ)
    → IsQueue m refs q
    → q.length ≡ 0
    → NoEol line
    → 0 < length line
    → length line < n
    → (q1 : SBuf) × (m1 : Pools) × (q2 : SBuf) × (m2 : Pools) × (sbuf_put q
          (line ++ b'\r' ∷ b'\n' ∷ rest)
          m
        ≡ some (q1, m1))
      × (sbuf_getmsg q1 n m1 ≡ some (line, q2, m2))
      × IsQueue m2 refs q2
      × (text_of m2 q2.users ≡ skip_eols rest)
message_roundtrip m refs q line rest n isq none_yet plain some_bytes fits =
    let text = line ++ b'\r' ∷ b'\n' ∷ rest in
    let (q1, m1, e1, isq1, text1, keeps1) =
      sbuf_put_lem m refs q text isq
        (omega (arith, some_bytes, length-append line (b'\r' ∷ b'\n' ∷ rest))) in
    let blank : text_of m q.users ≡ [] = no-length (text_of m q.users) (sym isq.sized ∙ none_yet) in
    let whole : first_line n (text_of m1 q1.users) ≡ (line, skip_eols rest) =
      ap (first_line n) (text1 ∙ ap (λ t. t ++ text) blank)
      ∙ first_line-line n line rest plain some_bytes fits in
    let (q2, m2, e2, isq2, text2, same2) = sbuf_getmsg_lem m1 refs q1 n isq1 in
    (
      q1,
      m1,
      q2,
      m2,
      e1,
      e2 ∙ ap (λ (r : List ℕ × List ℕ). some (r.0, q2, m2)) whole,
      isq2,
      text2 ∙ ap (λ (r : List ℕ × List ℕ). r.1) whole,
    )
