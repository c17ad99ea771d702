-- ===== src/Sbuf/Users.antt =====
-- A new user of src/sbuf.c, with a buffer of its own.
use solidircd.Base.{
  ℕ, ◌+◌, ◌<◌, ◌≡◌, ◌≢◌, refl, sym, subst, ap, ◌∙◌, inl, inr, [], ◌∷◌, ◌==◌, some, arith,
  Bool-cases,
}
use solidircd.Sbuf.Alloc.{Taken, sbuf_alloc-Taken}
use solidircd.Sbuf.Chain.{refs_of, plus}
use solidircd.Sbuf.Owned.{pooled, Owned, IsOwned, Live, Fits, Keeps}
use solidircd.Sbuf.Pool.{SBuffer, Pools, write, empty, sbuf_user_alloc}
use solidircd.Sbuf.Queue.{User, new_user}

pub user_alloc-bufs :
    (m : Pools)
    → ((sbuf_user_alloc m).bufs ≡ m.bufs)
      × ((sbuf_user_alloc m).count ≡ m.count)
      × ((sbuf_user_alloc m).large_pool ≡ m.large_pool)
      × ((sbuf_user_alloc m).small_pool ≡ m.small_pool)
unfolding sbuf_user_alloc
user_alloc-bufs m = ground arith

-- sbuf_user_alloc owns and changes no buffer.
pub user_alloc-IsOwned :
    (m : Pools) (refs : ℕ → ℕ)
    → IsOwned m refs
    → IsOwned (sbuf_user_alloc m) refs × Keeps m (sbuf_user_alloc m)
unfolding pooled
user_alloc-IsOwned m refs own =
    let (b, c, l, s) = user_alloc-bufs m in
    (
      λ p. ground (arith, own p, ap (λ (f : ℕ → SBuffer). f p) b),
      λ q. ground (arith, ap (λ (f : ℕ → SBuffer). f q) b),
    )

pub record NewUser (m : Pools) (refs : ℕ → ℕ) (u : User) (m' : Pools) : Type 0 where
  pub from_start : u.start ≡ 0
  pub unused : refs u.buf ≡ 0
  pub owned : IsOwned m' (plus refs (u ∷ []))
  pub no_bytes : (m'.bufs u.buf).bytes ≡ []
  pub wide : 0 < (m'.bufs u.buf).bufsize
  pub keeps : Keeps m m'
  pub fresh : (q : ℕ) → pooled m q ≡ 0 → q < m.count → q ≢ u.buf

abbrev one_user : Pools → ℕ → Pools
one_user m p = record m { bufs = write p (record (m.bufs p) { refcount = 1 }) m.bufs }

-- The buffer that came out of a pool has one user.
one_user_self :
    (m m2 : Pools) (refs : ℕ → ℕ) (p : ℕ) → Taken m refs p m2 → Live (one_user m2 p) (refs p + 1) p
unfolding pooled
one_user_self m m2 refs p t =
    let here : (one_user m2 p).bufs p ≡ record (empty t.size) { refcount = 1 } =
      ground (arith, t.ready) in
    (
      t.out,
      t.there,
      ap (λ (b : SBuffer). b.refcount) here ∙ omega (arith, t.unused),
      inl (omega arith),
      subst Fits (sym here) (omega arith, t.fits),
    )

one_user-IsOwned :
    (m m2 : Pools) (refs : ℕ → ℕ) (p : ℕ)
    → Taken m refs p m2
    → IsOwned (one_user m2 p) (plus refs (record { start = 0; buf = p } ∷ []))
unfolding pooled refs_of
one_user-IsOwned m m2 refs p t q = elim (Bool-cases (p == q)) [
  | inl e ↦
      let same : p ≡ q = ground arith in
      subst (λ x. Owned (one_user m2 p) (plus refs (record { start = 0; buf = p } ∷ []) x) x) same
        (ground (arith, one_user_self m m2 refs p t))
  | inr e ↦ ground (arith, t.others q)
]

pub new_user_lem :
    (size : ℕ) (m : Pools) (refs : ℕ → ℕ)
    → IsOwned m refs
    → (u : User) × (m' : Pools) × (new_user size m ≡ some (u, m')) × NewUser m refs u m'
unfolding new_user refs_of pooled
new_user_lem size m refs own =
    let (own1, k1) = user_alloc-IsOwned m refs own in
    let (p, m2, e, t) = sbuf_alloc-Taken size (sbuf_user_alloc m) refs own1 in
    let m3 = record m2 { bufs = write p (record (m2.bufs p) { refcount = 1 }) m2.bufs } in
    (
      record { start = 0; buf = p },
      m3,
      rw (e, new_user) refl,
      record {
        from_start = refl;
        unused = t.unused;
        owned = one_user-IsOwned (sbuf_user_alloc m) m2 refs p t;
        no_bytes = ground (arith, t.ready);
        wide = ground (arith, t.ready, t.fits);
        keeps = λ q a b.
            let (a1, b1, e1) = k1 q a b in
            let (a2, b2, e2) = t.keeps q a1 b1 in ground (arith, t.fresh q a1 b1);
        fresh = λ q a b. let (a1, b1, e1) = k1 q a b in t.fresh q a1 b1;
      },
    )
