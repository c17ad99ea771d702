-- ===== src/Sbuf/Lines.antt =====
-- sbuf_getmsg of src/sbuf.c: the first line of a queue.
use solidircd.Base.{
  ℕ, zero, suc, ◌-◌, ◌≡◌, refl, sym, ap, ◌∙◌, inl, inr, true, false, List, [], ◌∷◌, ◌++◌, ◌==◌, ltb,
  if◌then◌else◌, Option, none, some, arith, length, take, drop, Bool-cases,
}
use solidircd.Sbuf.Chain.{IsQueue, IsQueue, text_of}
use solidircd.Sbuf.Pool.{Pools}
use solidircd.Sbuf.Queue.{
  User, SBuf, bytes_of, line, is_eol, msg_from, then_line, delete_line, sbuf_getmsg,
}
use solidircd.Sbuf.Take.{SameBytes, sbuf_delete_lem}
use solidircd.Sbuf.Flush.{skip_eols, no-length, sbuf_flush_lem}

abbrev cons_line : ℕ → Option (List ℕ) → Option (List ℕ)
cons_line c none = none
cons_line c (some t) = some (c ∷ t)

-- What stands before the first end mark of a text, if it has one
unfoldable pub find_line : List ℕ → Option (List ℕ)
find_line [] = none
find_line (c ∷ s) = if is_eol c then some [] else cons_line c (find_line s)

then_line-nil : (o : Option (List ℕ)) → then_line [] o ≡ o
then_line-nil none = refl
then_line-nil (some t) = refl

cons_line-then_line :
    (c : ℕ) (s : List ℕ) (o : Option (List ℕ)) → cons_line c (then_line s o) ≡ then_line (c ∷ s) o
cons_line-then_line c s none = refl
cons_line-then_line c s (some t) = refl

line-found :
    (s t : List ℕ) → ltb (line s) (length s) ≡ true → find_line (s ++ t) ≡ some (take (line s) s)
unfolding line find_line
line-found [] t h = absurd (ground arith)
line-found (c ∷ s) t h = elim (Bool-cases (is_eol c)) [
  | inl e ↦ rw e refl
  | inr e ↦ rw (e, line-found s t (ground arith)) refl
]

line-missing :
    (s t : List ℕ)
    → ltb (line s) (length s) ≡ false
    → (line s ≡ length s) × (find_line (s ++ t) ≡ then_line s (find_line t))
unfolding line find_line
line-missing [] t h = (refl, sym (then_line-nil (find_line t)))
line-missing (c ∷ s) t h = elim (Bool-cases (is_eol c)) [
  | inl e ↦ absurd (ground arith)
  | inr e ↦
      let (all, next) = line-missing s t (ground arith) in
      (rw e (ap (λ n. suc n) all), rw (e, next) (cons_line-then_line c s (find_line t)))
]

pub take-over :
    (n : ℕ) (xs ys : List ℕ) → take n (xs ++ ys) ≡ take n xs ++ take (n - length (take n xs)) ys
take-over zero xs ys = refl
take-over (suc n) [] ys = let step : suc n ≡ suc n - 0 = omega arith in ap (λ k. take k ys) step
take-over (suc n) (x ∷ xs) ys =
    let step : n - length (take n xs) ≡ suc n - suc (length (take n xs)) = omega arith in
    ap (λ t. x ∷ t) (take-over n xs ys ∙ ap (λ k. take n xs ++ take k ys) step)

-- The search along the chain is that in its first bytes.
msg_from-find_line :
    (us : List User) (n : ℕ) (m : Pools) → msg_from us n m ≡ find_line (take n (text_of m us))
unfolding msg_from text_of find_line
msg_from-find_line [] zero m = refl
msg_from-find_line [] (suc n) m = refl
msg_from-find_line (u ∷ us) zero m = refl
msg_from-find_line (u ∷ us) (suc n) m =
    let part = take (suc n) (bytes_of m u) in
    let rest = take (suc n - length part) (text_of m us) in
    let whole = take-over (suc n) (bytes_of m u) (text_of m us) in
    let some_n : (suc n == 0) ≡ false = ground arith in
    elim (Bool-cases (ltb (line part) (length part))) [
      | inl here ↦ rw (some_n, here, whole) (sym (line-found part rest here))
      | inr there ↦
          let (all, next) = line-missing part rest there in
          rw (some_n, there, whole)
            (ap (then_line part) (msg_from-find_line us (suc n - line part) m)
              ∙ ap (λ k. then_line part (find_line (take (suc n - k) (text_of m us)))) all
              ∙ sym next)
    ]

abbrev pub taken_line : List ℕ → Option (List ℕ) → List ℕ × List ℕ
taken_line s none = ([], s)
taken_line s (some l) = (l, skip_eols (drop (length l) s))

-- The message of a text: its first line, when an end mark comes within `n` bytes, and what is left
unfoldable pub first_line : ℕ → List ℕ → List ℕ × List ℕ
unfolding find_line
first_line n t = let s = skip_eols t in taken_line s (find_line (take n s))

Gets : Pools → (ℕ → ℕ) → Option (List ℕ × SBuf × Pools) → List ℕ × List ℕ → Type 0
Gets m refs o r =
    (q' : SBuf) × (m' : Pools) × (o ≡ some (r.0, q', m'))
    × IsQueue m' refs q'
    × (text_of m' q'.users ≡ r.1)
    × SameBytes m m'

take-nil : (n : ℕ) → take {A = ℕ} n [] ≡ []
take-nil zero = refl
take-nil (suc n) = refl

delete_line-Gets :
    (m : Pools) (refs : ℕ → ℕ) (q : SBuf) (t : List ℕ) (o : Option (List ℕ))
    → IsQueue m refs q
    → text_of m q.users ≡ t
    → Gets m refs (delete_line q m o) (taken_line t o)
unfolding Gets
delete_line-Gets m refs q t none isq e = (q, m, refl, isq, e, λ p. refl)
delete_line-Gets m refs q t (some s) isq e =
    let (q1, m1, e1, isq1, text1, same1) = sbuf_delete_lem m refs q (length s) isq in
    let (q2, m2, e2, isq2, text2, same2) = sbuf_flush_lem m1 refs q1 isq1 in
    (
      q2,
      m2,
      rw (e1, e2) refl,
      isq2,
      text2 ∙ ap skip_eols (text1 ∙ ap (drop (length s)) e),
      λ p. same2 p ∙ same1 p,
    )

-- sbuf_getmsg always has a result: the message and the bytes left are those of the text that the
-- queue holds, every buffer is owned as before and no byte of memory is written.
pub sbuf_getmsg_lem :
    (m : Pools) (refs : ℕ → ℕ) (q : SBuf) (n : ℕ)
    → IsQueue m refs q
    → (q' : SBuf) × (m' : Pools) × (sbuf_getmsg q n m
        ≡ some ((first_line n (text_of m q.users)).0, q', m'))
      × IsQueue m' refs q'
      × (text_of m' q'.users ≡ (first_line n (text_of m q.users)).1)
      × SameBytes m m'
unfolding sbuf_getmsg first_line find_line Gets
sbuf_getmsg_lem m refs q n isq =
    let (q1, m1, e1, isq1, text1, same1) = sbuf_flush_lem m refs q isq in
    elim (Bool-cases (q1.length == 0)) [
      | inl e ↦
          let blank : skip_eols (text_of m q.users) ≡ [] =
            sym text1 ∙ no-length (text_of m1 q1.users) (ground (arith, isq1.sized)) in
          (
            q1,
            m1,
            rw (e1, e, blank, take-nil n) refl,
            isq1,
            rw (blank, take-nil n) (text1 ∙ blank),
            same1,
          )
      | inr e ↦
          let o = find_line (take n (skip_eols (text_of m q.users))) in
          let found : msg_from q1.users n m1 ≡ o =
            msg_from-find_line q1.users n m1 ∙ ap (λ t. find_line (take n t)) text1 in
          let (q2, m2, e2, isq2, text2, same2) =
            delete_line-Gets m1 refs q1 (skip_eols (text_of m q.users)) o isq1 text1 in
          (q2, m2, rw (e1, e, found) e2, isq2, text2, λ p. same2 p ∙ same1 p)
    ]
