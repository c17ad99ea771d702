-- ===== src/Sbuf/Append.antt =====
-- sbuf_put of src/sbuf.c: the bytes go to the end of the queue, and to no other.
use solidircd.Base.{
  ℕ, ◌<◌, ◌≡◌, ◌≢◌, refl, sym, subst, ap, ◌∙◌, ◌⊎◌, inl, inr, List, [], ◌∷◌, ◌++◌, ltb, some, arith,
  length, drop, Bool-cases,
}
use solidircd.Sbuf.Chain.{text_of, AllOpen, plus, Owned-Live}
use solidircd.Sbuf.Owned.{pooled, IsOwned}
use solidircd.Sbuf.Pool.{SBuffer, Pools}
use solidircd.Sbuf.Put.{plus_assoc, refs_of_self, drop-nil, fill_lem}
use solidircd.Sbuf.Queue.{User, bytes_of, put_behind, put_from, split_tail}
use solidircd.Sbuf.Users.{new_user_lem}

pub split_tail_lem :
    (u : User) (us : List User)
    → (front : List User) × (v : User) × (split_tail (u ∷ us) ≡ (front, v ∷ []))
      × (front ++ v ∷ [] ≡ u ∷ us)
unfolding split_tail
split_tail_lem u [] = ([], u, refl, refl)
split_tail_lem u (w ∷ us) =
    let (front, v, e, f) = split_tail_lem w us in (u ∷ front, v, rw e refl, ap (λ l. u ∷ l) f)

-- What has become of the last user of a queue.
pub record Behind (m : Pools) (refs : ℕ → ℕ) (u : User) (text : List ℕ) (us : List User)
    (m' : Pools) : Type 0 where
  pub owned : IsOwned m' (plus refs us)
  pub holds : text_of m' us ≡ bytes_of m u ++ text
  pub opens : AllOpen m' us
  pub keeps :
      (q : ℕ)
      → pooled m q ≡ 0
      → q < m.count
      → (q ≢ u.buf) ⊎ (1 < (m.bufs u.buf).refcount)
      → m'.bufs q ≡ m.bufs q

-- The buffer of the last user has other users: the text goes to new ones.
Behind-many :
    (u : User) (text : List ℕ) (m : Pools) (refs : ℕ → ℕ)
    → IsOwned m (plus refs (u ∷ []))
    → u.start < length (m.bufs u.buf).bytes
    → 0 < length text
    → 1 < (m.bufs u.buf).refcount
    → (us : List User) × (m' : Pools) × (put_behind u text m ≡ some (us, m'))
      × Behind m refs u text us m'
unfolding text_of AllOpen
Behind-many u text m refs own open_u some_text many =
    let refs1 = plus refs (u ∷ []) in
    let (n, m1, e1, new) = new_user_lem (length text) m refs1 own in
    let empty_n = new.no_bytes in
    let wide_n = new.wide in
    let zero_n = new.from_start in
    let (us, m2, e2, own2, holds, opens, keeps) =
      fill_lem n text m1 (plus refs1 (n ∷ [])) new.owned (refs_of_self refs1 n)
        (omega (arith, zero_n)) (omega (arith, zero_n)) (inr (ground (arith, wide_n, empty_n))) in
    let live = Owned-Live m (refs1 u.buf) u.buf (own u.buf) (refs_of_self refs u) in
    let (a1, b1, same1) = new.keeps u.buf live.0 live.1 in
    let same : m2.bufs u.buf ≡ m.bufs u.buf =
      (keeps u.buf a1 b1).2 (new.fresh u.buf live.0 live.1) ∙ same1 in
    let blank : bytes_of m1 n ≡ [] = ap (drop n.start) empty_n ∙ drop-nil n.start in
    (
      u ∷ n ∷ us,
      m2,
      rw (e1, e2) refl,
      record {
        owned = plus_assoc m2 refs u (n ∷ us) (plus_assoc m2 refs1 n us own2);
        holds =
            ap (λ (b : SBuffer). drop u.start b.bytes ++ text_of m2 (n ∷ us)) same
            ∙ ap (λ t. bytes_of m u ++ t) (holds ∙ ap (λ t. t ++ text) blank);
        opens = (subst (λ (b : SBuffer). u.start < length b.bytes) (sym same) open_u, opens);
        keeps =
            λ q a b c. let (a1, b1, e) = new.keeps q a b in (keeps q a1 b1).2 (new.fresh q a b) ∙ e;
      },
    )

pub put_from-Behind :
    (u : User) (text : List ℕ) (m : Pools) (refs : ℕ → ℕ)
    → IsOwned m (plus refs (u ∷ []))
    → u.start < length (m.bufs u.buf).bytes
    → 0 < length text
    → (us : List User) × (m' : Pools) × (put_from (u ∷ []) text m ≡ some (us, m'))
      × Behind m refs u text us m'
unfolding put_from
put_from-Behind u text m refs own open_u some_text =
    elim (Bool-cases (ltb 1 (m.bufs u.buf).refcount)) [
      | inl many ↦ rw many (Behind-many u text m refs own open_u some_text (ground arith))
      | inr one ↦
          let (us, m2, e2, own2, holds, opens, keeps) =
            fill_lem u text m (plus refs (u ∷ [])) own (refs_of_self refs u) (omega arith)
              (omega arith) (inl open_u) in
          (
            u ∷ us,
            m2,
            rw (one, e2) refl,
            record {
              owned = plus_assoc m2 refs u us own2;
              holds = holds;
              opens = opens;
              keeps = λ q a b c. elim c [
                | inl other ↦ (keeps q a b).2 other
                | inr many ↦ absurd (ground arith)
              ];
            },
          )
    ]
