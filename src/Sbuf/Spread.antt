-- ===== src/Sbuf/Spread.antt =====
-- The calls of src/sbuf.c on a shared buffer: into a queue, and the end of sharing.
use solidircd.Base.{
  ℕ, ◌+◌, ◌<◌, ◌≡◌, refl, sym, subst, ap, ◌∙◌, inl, inr, List, [], ◌∷◌, ◌++◌, append-nil, ◌==◌,
  if◌then◌else◌, some, arith, length, length-append, Bool-cases,
}
use solidircd.Sbuf.Chain.{
  IsQueue, plus-append, IsQueue, refs_of, text_of, AllOpen, plus, text_of-same, AllOpen-same,
  text_of-append, AllOpen-append,
}
use solidircd.Sbuf.Owned.{pooled, Owned, IsOwned, Live}
use solidircd.Sbuf.Pool.{sbuf_user_alloc, SBuffer, Pools, write}
use solidircd.Sbuf.Queue.{User, SBuf}
use solidircd.Sbuf.Take.{SameBytes}
use solidircd.Sbuf.Whole.{List-cases, open-length}
use solidircd.Sbuf.Share.{sbuf_put_share}
use solidircd.Sbuf.Users.{user_alloc-bufs, user_alloc-IsOwned}

-- The buffer has a user more.
user_more : Pools → ℕ → Pools
user_more m p = record m {
  bufs = write p (record (m.bufs p) { refcount = (m.bufs p).refcount + 1 }) m.bufs;
}

user_more-IsOwned :
    (m : Pools) (refs : ℕ → ℕ) (p : ℕ)
    → IsOwned m refs
    → Live m (refs p) p
    → IsOwned (user_more m p) (plus refs (record { start = 0; buf = p } ∷ []))
unfolding user_more refs_of pooled
user_more-IsOwned m refs p own live q = elim (Bool-cases (p == q)) [
  | inl e ↦
      let same : p ≡ q = ground arith in
      subst (λ x. Owned (user_more m p) (plus refs (record { start = 0; buf = p } ∷ []) x) x) same
        (ground (arith, live))
  | inr e ↦ ground (arith, own q)
]

user_more-SameBytes : (m : Pools) (p : ℕ) → SameBytes m (sbuf_user_alloc (user_more m p))
unfolding user_more
user_more-SameBytes m p q =
    ap (λ (f : ℕ → SBuffer). (f q).bytes) (user_alloc-bufs (user_more m p)).0 ∙ ground arith

shared-text :
    (m m' : Pools) (p : ℕ) (us : List User)
    → SameBytes m m'
    → text_of m' (us ++ (record { start = 0; buf = p } ∷ [])) ≡ text_of m us ++ (m.bufs p).bytes
unfolding text_of
shared-text m m' p us same =
    text_of-append m' us (record { start = 0; buf = p } ∷ [])
    ∙ ap (λ t. t ++ ((m'.bufs p).bytes ++ [])) (text_of-same m m' us (λ q h. same q))
    ∙ ap (λ t. text_of m us ++ t) (append-nil (m'.bufs p).bytes ∙ same p)

no-users : (m : Pools) (refs : ℕ → ℕ) (q : SBuf) → IsQueue m refs q → q.length ≡ 0 → q.users ≡ []
no-users m refs q isq e = elim (List-cases q.users) [
  | inl none_there ↦ none_there
  | inr (u, us, h) ↦
      let some_text = open-length m u us (subst (AllOpen m) h isq.opens) in
      absurd (omega (arith, isq.sized, ap (λ l. length (text_of m l)) h))
]

at-end :
    (m : Pools) (refs : ℕ → ℕ) (q : SBuf) (u : User)
    → IsQueue m refs q
    → (if q.length == 0 then u ∷ [] else q.users ++ (u ∷ [])) ≡ q.users ++ (u ∷ [])
at-end m refs q u isq = elim (Bool-cases (q.length == 0)) [
  | inl e ↦ rw (e, no-users m refs q isq (ground arith)) refl
  | inr e ↦ rw e refl
]

-- A shared buffer, or one that other queues use, with bytes: sbuf_put_share puts them to the end
-- of the queue. Every buffer is owned, the length is that of the bytes, and no byte of memory is
-- written.
pub sbuf_put_share_lem :
    (m : Pools) (refs : ℕ → ℕ) (q : SBuf) (p : ℕ)
    → IsQueue m refs q
    → Live m (plus refs q.users p) p
    → 0 < length (m.bufs p).bytes
    → (q' : SBuf) × (m' : Pools) × (sbuf_put_share q (some p) m ≡ some (q', m'))
      × IsQueue m' refs q'
      × (text_of m' q'.users ≡ text_of m q.users ++ (m.bufs p).bytes)
      × SameBytes m m'
unfolding sbuf_put_share user_more AllOpen
sbuf_put_share_lem m refs q p isq live some_bytes =
    let u : User = record { start = 0; buf = p } in
    let m' = sbuf_user_alloc (user_more m p) in
    let same = user_more-SameBytes m p in
    let us = if q.length == 0 then u ∷ [] else q.users ++ (u ∷ []) in
    let at_end : us ≡ q.users ++ (u ∷ []) = at-end m refs q u isq in
    let own =
      (user_alloc-IsOwned (user_more m p) (plus (plus refs q.users) (u ∷ []))
        (user_more-IsOwned m (plus refs q.users) p isq.owned live)).0 in
    let text : text_of m' us ≡ text_of m q.users ++ (m.bufs p).bytes =
      ap (text_of m') at_end ∙ shared-text m m' p q.users same in
    (
      record { length = q.length + length (m.bufs p).bytes; users = us },
      m',
      refl,
      record {
        owned =
            subst (λ l. IsOwned m' (plus refs l)) (sym at_end)
              ((plus-append m' refs q.users (u ∷ [])).1 own);
        opens = subst (AllOpen m') (sym at_end) (
            AllOpen-append m' q.users (u ∷ []) (AllOpen-same m m' q.users (λ x h. same x) isq.opens)
              (subst (λ b. 0 < length b) (sym (same p)) some_bytes, tt));
        sized =
            ap (λ n. n + length (m.bufs p).bytes) isq.sized
            ∙ sym (length-append (text_of m q.users) (m.bufs p).bytes)
            ∙ sym (ap length text);
      },
      text,
      same,
    )
