-- ===== src/Sbuf/Take.antt =====
-- sbuf_delete of src/sbuf.c takes the bytes off the front of a queue.
use solidircd.Base.{
  ℕ, zero, suc, ◌+◌, ◌-◌, ◌≤◌, ◌≡◌, refl, sym, subst, ap, ◌∙◌, inl, inr, true, false, List, [], ◌∷◌,
  ◌++◌, ◌==◌, ltb, if◌then◌else◌, some, arith, length, length-append, length-drop, drop, Bool-cases,
}
use solidircd.Sbuf.Chain.{
  IsQueue, IsQueue, refs_of, text_of, AllOpen, plus, text_of-same, AllOpen-same,
}
use solidircd.Sbuf.Owned.{count_in, pooled, Owned, IsOwned}
use solidircd.Sbuf.Pool.{Pools, sbuf_free, sbuf_user_free}
use solidircd.Sbuf.Put.{drop-append, drop-nil}
use solidircd.Sbuf.Queue.{User, SBuf, avail, bytes_of, release, delete_from, sbuf_delete}

-- No byte of any buffer is written.
abbrev pub SameBytes : Pools → Pools → Type 0
SameBytes m m' = (p : ℕ) → (m'.bufs p).bytes ≡ (m.bufs p).bytes

-- A user less: a buffer that has no other and is not shared goes to its pool.
pub release-IsOwned :
    (m : Pools) (refs : ℕ → ℕ) (u : User)
    → IsOwned m (plus refs (u ∷ []))
    → IsOwned (release u.buf m) refs × SameBytes m (release u.buf m)
unfolding release sbuf_free sbuf_user_free refs_of pooled count_in
release-IsOwned m refs u own = (
  λ q. elim (Bool-cases (u.buf == q)) [
    | inl e ↦
        let same : u.buf ≡ q = ground arith in
        subst (λ x. Owned (release u.buf m) (refs x) x) same (ground (arith, own u.buf))
    | inr e ↦ ground (arith, own q)
  ],
  λ q. ground arith,
)

pub swap_user :
    (m : Pools) (refs : ℕ → ℕ) (u : User) (us : List User)
    → IsOwned m (plus refs (u ∷ us))
    → IsOwned m (plus (plus refs us) (u ∷ []))
unfolding refs_of
swap_user m refs u us own q = subst (λ n. Owned m n q) (omega arith) (own q)

-- Moving a user forward in its buffer
pub move_user :
    (m : Pools) (refs : ℕ → ℕ) (u : User) (us : List User) (n : ℕ)
    → IsOwned m (plus refs (u ∷ us))
    → IsOwned m (plus refs (record u { start = n } ∷ us))
unfolding refs_of
move_user m refs u us n own = own

pub drop-drop : (m n : ℕ) (xs : List ℕ) → drop n (drop m xs) ≡ drop (m + n) xs
drop-drop zero n xs = let step : n ≡ zero + n = omega arith in ap (λ k. drop k xs) step
drop-drop (suc m) n [] = drop-nil n ∙ sym (drop-nil (suc m + n))
drop-drop (suc m) n (x ∷ xs) =
    let step : suc (m + n) ≡ suc m + n = omega arith in
    drop-drop m n xs ∙ ap (λ k. drop k (x ∷ xs)) step

pub drop-over :
    (n : ℕ) (xs ys : List ℕ) → length xs ≤ n → drop n (xs ++ ys) ≡ drop (n - length xs) ys
drop-over n [] ys h = ap (λ k. drop k ys) (omega arith)
drop-over zero (x ∷ xs) ys h = absurd (omega arith)
drop-over (suc n) (x ∷ xs) ys h =
    drop-over n xs ys (omega arith) ∙ ap (λ k. drop k ys) (omega arith)

-- What is left of a chain whose buffers kept their bytes
pub record Left (m : Pools) (refs : ℕ → ℕ) (text : List ℕ) (us : List User) (m' : Pools)
    : Type 0 where
  pub owned : IsOwned m' (plus refs us)
  pub opens : AllOpen m' us
  pub holds : text_of m' us ≡ text
  pub same : SameBytes m m'

pub delete_from-Left :
    (us : List User) (n : ℕ) (m : Pools) (refs : ℕ → ℕ)
    → IsOwned m (plus refs us)
    → AllOpen m us
    → n ≤ length (text_of m us)
    → (us' : List User) × (m' : Pools) × (delete_from us n m ≡ some (us', m'))
      × Left m refs (drop n (text_of m us)) us' m'
unfolding delete_from text_of AllOpen
delete_from-Left [] n m refs own opens fit =
    let none_left : n ≡ 0 = omega arith in
    (
      [],
      m,
      rw none_left refl,
      record { owned = own; opens = tt; holds = sym (drop-nil n); same = λ p. refl },
    )
delete_from-Left (u ∷ us) n m refs own opens fit =
    let (own1, same1) = release-IsOwned m (plus refs us) u (swap_user m refs u us own) in
    let size = length-drop u.start (m.bufs u.buf).bytes in
    let opens1 = AllOpen-same m (release u.buf m) us (λ q h. same1 q) opens.1 in
    let text1 = text_of-same m (release u.buf m) us (λ q h. same1 q) in
    elim (Bool-cases (n == 0)) [
      | inl e ↦
          let zero_n : n ≡ 0 = ground arith in
          (
            u ∷ us,
            m,
            rw e refl,
            record {
              owned = own;
              opens = opens;
              holds = ap (λ k. drop k (text_of m (u ∷ us))) (sym zero_n);
              same = λ p. refl;
            },
          )
      | inr e ↦ elim (Bool-cases (ltb n (avail m u))) [
        | inl less ↦
            let inside : (u.start + n == length (m.bufs u.buf).bytes) ≡ false = ground arith in
            (
              record u { start = u.start + n } ∷ us,
              m,
              rw (e, less, inside) refl,
              record {
                owned = move_user m refs u us (u.start + n) own;
                opens = (ground arith, opens.1);
                holds =
                    ap (λ t. t ++ text_of m us) (sym (drop-drop u.start n (m.bufs u.buf).bytes))
                    ∙ sym (drop-append n (bytes_of m u) (text_of m us) (ground (arith, size)));
                same = λ p. refl;
              },
            )
        | inr all ↦
            let at_end : (u.start + avail m u == length (m.bufs u.buf).bytes) ≡ true =
              ground (arith, opens.0) in
            let fit1 : n - avail m u ≤ length (text_of (release u.buf m) us) =
              omega
                (arith, fit, size, ap length text1, length-append (bytes_of m u) (text_of m us)) in
            let (us', m', e', l) =
              delete_from-Left us (n - avail m u) (release u.buf m) refs own1 opens1 fit1 in
            (
              us',
              m',
              rw (e, all, at_end, e') refl,
              record {
                owned = l.owned;
                opens = l.opens;
                holds =
                    l.holds
                    ∙ ap (drop (n - avail m u)) text1
                    ∙ ap (λ k. drop (n - k) (text_of m us)) (sym size)
                    ∙ sym (drop-over n (bytes_of m u) (text_of m us) (ground (arith, size)));
                same = λ p. l.same p ∙ same1 p;
              },
            )
      ]
    ]

pub drop-all : (n : ℕ) (xs : List ℕ) → length xs ≤ n → drop n xs ≡ []
drop-all n [] h = drop-nil n
drop-all zero (x ∷ xs) h = absurd (omega arith)
drop-all (suc n) (x ∷ xs) h = drop-all n xs (omega arith)

drop-min :
    (n : ℕ) (xs : List ℕ) (size : ℕ)
    → size ≡ length xs
    → drop (if ltb size n then size else n) xs ≡ drop n xs
drop-min n xs size e = elim (Bool-cases (ltb size n)) [
  | inl over ↦ rw over (drop-all size xs (omega arith) ∙ sym (drop-all n xs (ground arith)))
  | inr fits ↦ rw fits refl
]

-- sbuf_delete always has a result: the queue is left with its bytes but for the first `n`, with none
-- when it had fewer, every buffer is owned and no byte of memory is written.
pub sbuf_delete_lem :
    (m : Pools) (refs : ℕ → ℕ) (q : SBuf) (n : ℕ)
    → IsQueue m refs q
    → (q' : SBuf) × (m' : Pools) × (sbuf_delete q n m ≡ some (q', m'))
      × IsQueue m' refs q'
      × (text_of m' q'.users ≡ drop n (text_of m q.users))
      × SameBytes m m'
unfolding sbuf_delete
sbuf_delete_lem m refs q n isq =
    let len = if ltb q.length n then q.length else n in
    let fits : len ≤ q.length = ground arith in
    let (us, m', e, l) =
      delete_from-Left q.users len m refs isq.owned isq.opens
        (subst (λ k. len ≤ k) isq.sized fits) in
    (
      record { length = q.length - len; users = us },
      m',
      rw e refl,
      record {
        owned = l.owned;
        opens = l.opens;
        sized =
            ap (λ k. k - len) isq.sized
            ∙ sym (length-drop len (text_of m q.users))
            ∙ sym (ap length l.holds);
      },
      l.holds ∙ drop-min n (text_of m q.users) q.length isq.sized,
      l.same,
    )
