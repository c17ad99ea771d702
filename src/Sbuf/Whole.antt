-- ===== src/Sbuf/Whole.antt =====
-- sbuf_put of src/sbuf.c on a whole queue.
use solidircd.Base.{
  ℕ, ◌+◌, ◌<◌, ◌≡◌, ◌≢◌, refl, sym, subst, ap, ◌∙◌, ◌⊎◌, inl, inr, false, List, [], ◌∷◌, ◌++◌,
  append_assoc, append-nil, ◌==◌, some, arith, length, length-append, length-drop, Bool-cases,
}
use solidircd.Sbuf.Chain.{
  AllOpen-split, plus-append, IsQueue, KeepsOthers, refs_of, text_of, AllOpen, plus, text_of-same,
  AllOpen-same, refs_of-append, text_of-append, AllOpen-append, Owned-Live,
}
use solidircd.Sbuf.Owned.{Owned, IsOwned}
use solidircd.Sbuf.Pool.{SBuffer, Pools}
use solidircd.Sbuf.Put.{grow_lem}
use solidircd.Sbuf.Queue.{User, SBuf, bytes_of, fill, put_from, split_tail, sbuf_put}
use solidircd.Sbuf.Append.{split_tail_lem, put_from-Behind}

abbrev Puts : Pools → (ℕ → ℕ) → SBuf → List ℕ → Type 0
Puts m refs q text =
    (q' : SBuf) × (m' : Pools) × (sbuf_put q text m ≡ some (q', m'))
    × IsQueue m' refs q'
    × (text_of m' q'.users ≡ text_of m q.users ++ text)
    × KeepsOthers m refs q.users m'

put-empty :
    (m : Pools) (refs : ℕ → ℕ) (q : SBuf) (text : List ℕ)
    → IsQueue m refs q
    → q.users ≡ []
    → Puts m refs q text
unfolding sbuf_put put_from fill text_of refs_of
put-empty m refs q text isq e =
    let own : IsOwned m refs =
      λ p. subst (λ n. Owned m n p) (ap (λ l. plus refs l p) e ∙ omega arith) (isq.owned p) in
    let (us, m', e', f) = grow_lem (length text + 1) text m refs own (omega arith) in
    let none_yet : q.length ≡ 0 = isq.sized ∙ ap (λ l. length (text_of m l)) e in
    (
      record { length = length text; users = us },
      m',
      rw (e, e', none_yet) refl,
      record { owned = f.owned; opens = f.opens; sized = ap length (sym f.holds) },
      f.holds ∙ ap (λ l. text_of m l ++ text) (sym e),
      λ p a b c. ap (λ (x : SBuffer). x.bytes) (f.keeps p a b).2,
    )

-- A buffer that another user has: it is not that of the last one, or that one counts them both.
other-user :
    (m : Pools) (refs : ℕ → ℕ) (v : User) (p : ℕ)
    → Owned m (plus refs (v ∷ []) p) p
    → 0 < refs p
    → (p ≢ v.buf) ⊎ (1 < (m.bufs v.buf).refcount)
unfolding refs_of
other-user m refs v p own used =
    let live = Owned-Live m (plus refs (v ∷ []) p) p own (omega arith) in
    elim (Bool-cases (v.buf == p)) [
      | inl e ↦
          let same : p ≡ v.buf = ground arith in
          inr (subst (λ x. 1 < (m.bufs x).refcount) same (ground (arith, live)))
      | inr e ↦ inl (ground arith)
    ]

not-user : (p : ℕ) (front : List User) (v : User) → refs_of p (front ++ v ∷ []) ≡ 0 → p ≢ v.buf
unfolding refs_of
not-user p front v none_there = ground (arith, refs_of-append p front (v ∷ []))

last-text :
    (m : Pools) (front : List User) (v : User)
    → text_of m (front ++ v ∷ []) ≡ text_of m front ++ bytes_of m v
unfolding text_of
last-text m front v =
    text_of-append m front (v ∷ []) ∙ ap (λ t. text_of m front ++ t) (append-nil (bytes_of m v))

put-last :
    (m : Pools) (refs : ℕ → ℕ) (q : SBuf) (text : List ℕ) (front : List User) (v : User)
    → IsQueue m refs q
    → q.users ≡ front ++ v ∷ []
    → split_tail q.users ≡ (front, v ∷ [])
    → 0 < q.length
    → 0 < length text
    → Puts m refs q text
unfolding sbuf_put AllOpen
put-last m refs q text front v isq whole e1 longer some_text =
    let own =
      (plus-append m refs front (v ∷ [])).0
        (subst (λ l. IsOwned m (plus refs l)) whole isq.owned) in
    let (opens_f, opens_v) = AllOpen-split m front (v ∷ []) (subst (AllOpen m) whole isq.opens) in
    let (us', m', e', b) = put_from-Behind v text m (plus refs front) own opens_v.0 some_text in
    let kept : (p : ℕ) → 0 < plus refs front p → (m'.bufs p).bytes ≡ (m.bufs p).bytes = λ p h.
      let live = Owned-Live m (plus (plus refs front) (v ∷ []) p) p (own p) (omega arith) in
      ap (λ (x : SBuffer). x.bytes)
        (b.keeps p live.0 live.1 (other-user m (plus refs front) v p (own p) h)) in
    let front_kept = λ (p : ℕ) (h : 0 < refs_of p front). kept p (omega arith) in
    let text' : text_of m' (front ++ us') ≡ text_of m q.users ++ text =
      text_of-append m' front us'
      ∙ ap (λ t. t ++ text_of m' us') (text_of-same m m' front front_kept)
      ∙ ap (λ t. text_of m front ++ t) b.holds
      ∙ sym (append_assoc (text_of m front) (bytes_of m v) text)
      ∙ ap (λ t. t ++ text) (sym (last-text m front v) ∙ ap (text_of m) (sym whole)) in
    let longer' : (q.length == 0) ≡ false = ground arith in
    (
      record { length = q.length + length text; users = front ++ us' },
      m',
      rw (longer', e1, e') refl,
      record {
        owned = (plus-append m' refs front us').1 b.owned;
        opens = AllOpen-append m' front us' (AllOpen-same m m' front front_kept opens_f) b.opens;
        sized =
            ap (λ n. n + length text) isq.sized
            ∙ sym (length-append (text_of m q.users) text)
            ∙ sym (ap length text');
      },
      text',
      λ p a c others. elim others [
        | inl h ↦ kept p (omega arith)
        | inr h ↦
            ap (λ (x : SBuffer). x.bytes)
              (b.keeps p a c (inl (not-user p front v (ap (refs_of p) (sym whole) ∙ h))))
      ],
    )

pub List-cases : (l : List User) → (l ≡ []) ⊎ ((u : User) × (us : List User) × (l ≡ u ∷ us))
List-cases [] = inl refl
List-cases (u ∷ us) = inr (u, us, refl)

pub open-length :
    (m : Pools) (u : User) (us : List User) → AllOpen m (u ∷ us) → 0 < length (text_of m (u ∷ us))
unfolding AllOpen text_of
open-length m u us h = omega (
  arith,
  h.0,
  length-append (bytes_of m u) (text_of m us),
  length-drop u.start (m.bufs u.buf).bytes,
)

-- Other queues have `refs` users of the buffers. sbuf_put of a text that is not empty always has a
-- result: the queue then holds its bytes and after them the text, every buffer is owned as before
-- and the length is that of the bytes; what other queues use keeps its bytes.
pub sbuf_put_lem :
    (m : Pools) (refs : ℕ → ℕ) (q : SBuf) (text : List ℕ)
    → IsQueue m refs q
    → 0 < length text
    → (q' : SBuf) × (m' : Pools) × (sbuf_put q text m ≡ some (q', m'))
      × IsQueue m' refs q'
      × (text_of m' q'.users ≡ text_of m q.users ++ text)
      × KeepsOthers m refs q.users m'
sbuf_put_lem m refs q text isq some_text = elim (List-cases q.users) [
  | inl e ↦ put-empty m refs q text isq e
  | inr (u, us, e) ↦
      let (front, v, e1, e2) = split_tail_lem u us in
      let longer : 0 < q.length =
        subst (λ n. 0 < n) (sym isq.sized)
          (subst (λ l. 0 < length (text_of m l)) (sym e)
            (open-length m u us (subst (AllOpen m) e isq.opens))) in
      put-last m refs q text front v isq (e ∙ sym e2) (ap split_tail e ∙ e1) longer some_text
]
