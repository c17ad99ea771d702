-- ===== src/Sbuf/Get.antt =====
-- sbuf_get of src/sbuf.c: the first bytes of a queue, over its users.
use solidircd.Base.{
  ℕ, zero, suc, ◌+◌, ◌-◌, ◌≤◌, ◌<◌, ◌≡◌, refl, sym, subst, ap, ◌∙◌, inl, inr, false, List, [], ◌∷◌,
  ◌++◌, ◌==◌, Option, none, some, ◌>>=◌, arith, length, length-append, length-take, length-drop,
  take, drop, Bool-cases,
}
use solidircd.Sbuf.Chain.{IsQueue, IsQueue, text_of, AllOpen}
use solidircd.Sbuf.Pool.{Pools}
use solidircd.Sbuf.Put.{drop-nil}
use solidircd.Sbuf.Queue.{User, SBuf, bytes_of, sbuf_map, get_from, sbuf_get}
use solidircd.Sbuf.Take.{SameBytes, drop-drop, sbuf_delete_lem}
use solidircd.Sbuf.Flush.{no-length}
use solidircd.Sbuf.Whole.{List-cases, open-length}

abbrev Reads : Pools → (ℕ → ℕ) → Option (List ℕ × SBuf × Pools) → List ℕ → ℕ → Type 0
Reads m refs o t n =
    (q' : SBuf) × (m' : Pools) × (o ≡ some (take n t, q', m'))
    × IsQueue m' refs q'
    × (text_of m' q'.users ≡ drop n t)
    × SameBytes m m'

take-nil : (n : ℕ) → take {A = ℕ} n [] ≡ []
take-nil zero = refl
take-nil (suc n) = refl

take-split : (k n : ℕ) (t : List ℕ) → k ≤ n → take k t ++ take (n - k) (drop k t) ≡ take n t
take-split zero n t h = let step : n - zero ≡ n = omega arith in ap (λ j. take j t) step
take-split (suc k) zero t h = absurd (omega arith)
take-split (suc k) (suc n) [] h = ap (λ t. [] ++ t) (take-nil (suc n - suc k))
take-split (suc k) (suc n) (x ∷ t) h =
    let step : suc n - suc k ≡ n - k = omega arith in
    ap (λ j. x ∷ (take k t ++ take j (drop k t))) step
    ∙ ap (λ s. x ∷ s) (take-split k n t (omega arith))

-- The chunk that the first user gives is the front of the text.
chunk-front : (n : ℕ) (b rest : List ℕ) → take n b ≡ take (length (take n b)) (b ++ rest)
chunk-front zero b rest = refl
chunk-front (suc n) [] rest = refl
chunk-front (suc n) (x ∷ b) rest = ap (λ s. x ∷ s) (chunk-front n b rest)

map-none : (m : Pools) (q : SBuf) → q.users ≡ [] → sbuf_map q m ≡ none
unfolding sbuf_map
map-none m q e = elim (Bool-cases (q.length == 0)) [ inl z ↦ rw z refl | inr z ↦ rw (z, e) refl ]

-- Where a queue has users, its length is not 0.
map-some :
    (m : Pools) (refs : ℕ → ℕ) (q : SBuf) (u : User) (us : List User)
    → IsQueue m refs q
    → q.users ≡ u ∷ us
    → (sbuf_map q m ≡ some (bytes_of m u)) × (0 < length (bytes_of m u))
unfolding sbuf_map AllOpen text_of
map-some m refs q u us isq e =
    let opens = subst (AllOpen m) e isq.opens in
    let some_length : (q.length == 0) ≡ false =
      ground (arith, isq.sized, ap (λ l. length (text_of m l)) e, open-length m u us opens) in
    (rw (some_length, e) refl, omega (arith, opens.0, length-drop u.start (m.bufs u.buf).bytes))

drop-again : (k n : ℕ) (t : List ℕ) → k ≤ n → drop (n - k) (drop k t) ≡ drop n t
drop-again k n t h =
    let step : k + (n - k) ≡ n = omega arith in drop-drop k (n - k) t ∙ ap (λ j. drop j t) step

-- One round of the loop, and the rounds after it
round-Reads :
    (m : Pools) (refs : ℕ → ℕ) (n k : ℕ) (t : List ℕ) (q1 : SBuf) (m1 : Pools) (fuel : ℕ)
    → k ≤ n
    → text_of m1 q1.users ≡ drop k t
    → SameBytes m m1
    → Reads m1 refs (get_from fuel q1 (n - k) m1) (text_of m1 q1.users) (n - k)
    → Reads m refs (get_from fuel q1 (n - k) m1 >>= λ s. some (take k t ++ s.0, s.1, s.2)) t n
round-Reads m refs n k t q1 m1 fuel fits text1 same1 (q2, m2, e2, isq2, text2, same2) = (
  q2,
  m2,
  rw e2 (
      ap (λ s. some (take k t ++ take (n - k) s, q2, m2)) text1
      ∙ ap (λ s. some (s, q2, m2)) (take-split k n t fits)),
  isq2,
  text2 ∙ ap (drop (n - k)) text1 ∙ drop-again k n t fits,
  λ p. same2 p ∙ same1 p,
)

get_from-Reads :
    (fuel : ℕ) (m : Pools) (refs : ℕ → ℕ) (q : SBuf) (n : ℕ)
    → IsQueue m refs q
    → q.length < fuel
    → Reads m refs (get_from fuel q n m) (text_of m q.users) n
unfolding get_from text_of
get_from-Reads zero m refs q n isq enough = absurd (omega arith)
get_from-Reads (suc fuel) m refs q zero isq enough = (q, m, refl, isq, refl, λ p. refl)
get_from-Reads (suc fuel) m refs q (suc n) isq enough =
    let some_n : (suc n == 0) ≡ false = ground arith in
    elim (List-cases q.users) [
      | inl e ↦
          let blank : text_of m q.users ≡ [] = ap (text_of m) e in
          (q, m, rw (some_n, map-none m q e, blank) refl, isq, rw blank refl, λ p. refl)
      | inr (u, us, e) ↦
          let t = text_of m q.users in
          let chunk = take (suc n) (bytes_of m u) in
          let (mapped, open_u) = map-some m refs q u us isq e in
          let (q1, m1, e1, isq1, text1, same1) = sbuf_delete_lem m refs q (length chunk) isq in
          let fits : length chunk ≤ suc n = omega (arith, length-take (suc n) (bytes_of m u)) in
          let less : q1.length < fuel = omega (
            arith,
            isq.sized,
            isq1.sized,
            ap length text1,
            length-drop (length chunk) t,
            length-take (suc n) (bytes_of m u),
            length-append (bytes_of m u) (text_of m us),
            ap (λ l. length (text_of m l)) e,
          ) in
          let front : chunk ≡ take (length chunk) t =
            chunk-front (suc n) (bytes_of m u) (text_of m us)
            ∙ ap (λ l. take (length chunk) (text_of m l)) (sym e) in
          let (q2, m2, e2, isq2, text2, same2) =
            round-Reads m refs (suc n) (length chunk) t q1 m1 fuel fits text1 same1
              (get_from-Reads fuel m1 refs q1 (suc n - length chunk) isq1 less) in
          (
            q2,
            m2,
            rw (some_n, mapped, e1)
                (ap
                    (λ c.
                      get_from fuel q1 (suc n - length chunk) m1 >>= λ s. some (c ++ s.0, s.1, s.2))
                    front
                  ∙ e2),
            isq2,
            text2,
            same2,
          )
    ]

-- sbuf_get always has a result: the first `n` bytes of the queue, or all when it has fewer, which the
-- queue then no longer holds. Every buffer is owned as before and no byte of memory is written.
pub sbuf_get_lem :
    (m : Pools) (refs : ℕ → ℕ) (q : SBuf) (n : ℕ)
    → IsQueue m refs q
    → (q' : SBuf) × (m' : Pools) × (sbuf_get q n m ≡ some (take n (text_of m q.users), q', m'))
      × IsQueue m' refs q'
      × (text_of m' q'.users ≡ drop n (text_of m q.users))
      × SameBytes m m'
unfolding sbuf_get
sbuf_get_lem m refs q n isq = elim (Bool-cases (q.length == 0)) [
  | inl e ↦
      let blank : text_of m q.users ≡ [] =
        no-length (text_of m q.users) (ground (arith, isq.sized)) in
      (q, m, rw (e, blank, take-nil n) refl, isq, rw blank (sym (drop-nil n)), λ p. refl)
  | inr e ↦ rw e (get_from-Reads (q.length + 1) m refs q n isq (omega arith))
]
