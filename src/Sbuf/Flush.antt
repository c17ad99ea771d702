-- ===== src/Sbuf/Flush.antt =====
-- sbuf_flush and sbuf_getmsg of src/sbuf.c read a queue like one text.
use solidircd.Base.{
  ℕ, ◌+◌, ◌-◌, ◌≤◌, ◌≡◌, refl, sym, ap, ◌∙◌, inl, inr, List, [], ◌∷◌, ◌++◌, ◌==◌, ltb,
  if◌then◌else◌, arith, length, length-drop, drop, Bool-cases,
}
use solidircd.Sbuf.Chain.{IsQueue, IsQueue, text_of, AllOpen, plus, text_of-same, AllOpen-same}
use solidircd.Sbuf.Owned.{IsOwned}
use solidircd.Sbuf.Pool.{Pools}
use solidircd.Sbuf.Put.{drop-append, drop-nil}
use solidircd.Sbuf.Queue.{User, SBuf, avail, bytes_of, release, eols, flush_from, sbuf_flush}
use solidircd.Sbuf.Take.{
  SameBytes, Left, release-IsOwned, swap_user, move_user, drop-drop, drop-over,
}

eols-bound : (xs : List ℕ) → eols xs ≤ length xs
unfolding eols
eols-bound [] = omega arith
eols-bound (x ∷ xs) = ground (arith, eols-bound xs)

eols-append :
    (xs ys : List ℕ)
    → eols (xs ++ ys) ≡ (if ltb (eols xs) (length xs) then eols xs else length xs + eols ys)
unfolding eols
eols-append [] ys = ground arith
eols-append (x ∷ xs) ys = ground (arith, eols-append xs ys)

pub flush_from-Left :
    (us : List User) (m : Pools) (refs : ℕ → ℕ)
    → IsOwned m (plus refs us)
    → AllOpen m us
    → (us' : List User) × (n : ℕ) × (m' : Pools) × (flush_from us m ≡ (us', n, m'))
      × (n ≡ eols (text_of m us))
      × Left m refs (drop n (text_of m us)) us' m'
unfolding flush_from text_of AllOpen
flush_from-Left [] m refs own opens =
    ([], 0, m, refl, refl, record { owned = own; opens = tt; holds = refl; same = λ p. refl })
flush_from-Left (u ∷ us) m refs own opens =
    let (own1, same1) = release-IsOwned m (plus refs us) u (swap_user m refs u us own) in
    let size = length-drop u.start (m.bufs u.buf).bytes in
    let opens1 = AllOpen-same m (release u.buf m) us (λ q h. same1 q) opens.1 in
    let text1 = text_of-same m (release u.buf m) us (λ q h. same1 q) in
    let k = eols (bytes_of m u) in
    let whole = eols-append (bytes_of m u) (text_of m us) in
    elim (Bool-cases (ltb k (avail m u))) [
      | inl less ↦ (
        record { start = u.start + k; buf = u.buf } ∷ us,
        k,
        m,
        rw less refl,
        ground (arith, whole, size),
        record {
          owned = move_user m refs u us (u.start + k) own;
          opens = (ground arith, opens.1);
          holds =
              ap (λ t. t ++ text_of m us) (sym (drop-drop u.start k (m.bufs u.buf).bytes))
              ∙ sym (drop-append k (bytes_of m u) (text_of m us) (eols-bound (bytes_of m u)));
          same = λ p. refl;
        },
      )
      | inr all ↦
          let full : k ≡ length (bytes_of m u) = ground (arith, eols-bound (bytes_of m u), size) in
          let (us', n, m', e', e, l) = flush_from-Left us (release u.buf m) refs own1 opens1 in
          let rest : drop (k + n) (text_of m (u ∷ us)) ≡ drop n (text_of m us) =
            drop-over (k + n) (bytes_of m u) (text_of m us) (omega arith)
            ∙ ap (λ j. drop j (text_of m us)) (omega arith) in
          (
            us',
            k + n,
            m',
            rw (all, e') refl,
            ground (arith, whole, size, ap eols text1),
            record {
              owned = l.owned;
              opens = l.opens;
              holds = l.holds ∙ ap (drop n) text1 ∙ sym rest;
              same = λ p. l.same p ∙ same1 p;
            },
          )
    ]

-- A text without the end marks in front
abbrev pub skip_eols : List ℕ → List ℕ
skip_eols t = drop (eols t) t

pub no-length : (xs : List ℕ) → length xs ≡ 0 → xs ≡ []
no-length [] h = refl
no-length (x ∷ xs) h = absurd (omega arith)

-- sbuf_flush takes the end marks off the front of a queue, and nothing else: every buffer is owned
-- as before and no byte of memory is written.
pub sbuf_flush_lem :
    (m : Pools) (refs : ℕ → ℕ) (q : SBuf)
    → IsQueue m refs q
    → (q' : SBuf) × (m' : Pools) × (sbuf_flush q m ≡ (q', m'))
      × IsQueue m' refs q'
      × (text_of m' q'.users ≡ skip_eols (text_of m q.users))
      × SameBytes m m'
unfolding sbuf_flush
sbuf_flush_lem m refs q isq = elim (Bool-cases (q.length == 0)) [
  | inl e ↦
      let blank : text_of m q.users ≡ [] =
        no-length (text_of m q.users) (ground (arith, isq.sized)) in
      (q, m, rw e refl, isq, blank ∙ sym (ap skip_eols blank ∙ drop-nil (eols [])), λ p. refl)
  | inr e ↦
      let (us, n, m', e', k, l) = flush_from-Left q.users m refs isq.owned isq.opens in
      (
        record { length = q.length - n; users = us },
        m',
        rw (e, e') refl,
        record {
          owned = l.owned;
          opens = l.opens;
          sized =
              ap (λ j. j - n) isq.sized
              ∙ sym (length-drop n (text_of m q.users))
              ∙ sym (ap length l.holds);
        },
        l.holds ∙ ap (λ j. drop j (text_of m q.users)) k,
        l.same,
      )
]
