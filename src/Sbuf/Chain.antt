-- ===== src/Sbuf/Chain.antt =====
-- The chains of the queues of src/sbuf.c: their bytes, and their uses of the buffers.
use solidircd.Base.{
  ℕ, ◌+◌, ◌<◌, ◌≡◌, ◌≢◌, refl, sym, subst, ap, ◌⊎◌, inl, inr, List, [], ◌∷◌, ◌++◌, append_assoc,
  ◌==◌, if◌then◌else◌, arith, length,
}
use solidircd.Sbuf.Owned.{pooled, Owned, IsOwned, Live}
use solidircd.Sbuf.Pool.{Pools}
use solidircd.Sbuf.Queue.{User, SBuf, bytes_of}

-- The users that a chain has of a buffer
unfoldable pub refs_of : ℕ → List User → ℕ
refs_of q [] = 0
refs_of q (u ∷ us) = (if u.buf == q then 1 else 0) + refs_of q us

-- The bytes of a chain
unfoldable pub text_of : Pools → List User → List ℕ
text_of m [] = []
text_of m (u ∷ us) = bytes_of m u ++ text_of m us

-- Every user of the chain has bytes left.
unfoldable pub AllOpen : Pools → List User → Type 0
AllOpen m [] = Unit
AllOpen m (u ∷ us) = (u.start < length (m.bufs u.buf).bytes) × AllOpen m us

-- Buffers in use are as they were, but for one.
abbrev pub KeepsBut : ℕ → Pools → Pools → Type 0
KeepsBut p m m' =
    (q : ℕ)
    → pooled m q ≡ 0
    → q < m.count
    → (pooled m' q ≡ 0) × (q < m'.count) × (q ≢ p → m'.bufs q ≡ m.bufs q)

abbrev pub plus : (ℕ → ℕ) → List User → ℕ → ℕ
plus refs us q = refs q + refs_of q us

-- A chain whose buffers keep their bytes keeps its own.
pub text_of-same :
    (m m' : Pools) (us : List User)
    → ((q : ℕ) → 0 < refs_of q us → (m'.bufs q).bytes ≡ (m.bufs q).bytes)
    → text_of m' us ≡ text_of m us
unfolding text_of refs_of
text_of-same m m' [] h = refl
text_of-same m m' (u ∷ us) h =
    rw (h u.buf (ground arith))
      (ap (λ s. bytes_of m u ++ s) (text_of-same m m' us (λ q p. h q (ground arith))))

pub AllOpen-same :
    (m m' : Pools) (us : List User)
    → ((q : ℕ) → 0 < refs_of q us → (m'.bufs q).bytes ≡ (m.bufs q).bytes)
    → AllOpen m us
    → AllOpen m' us
unfolding AllOpen refs_of
AllOpen-same m m' [] h o = tt
AllOpen-same m m' (u ∷ us) h o =
    (rw (h u.buf (ground arith)) o.0, AllOpen-same m m' us (λ q p. h q (ground arith)) o.1)

pub refs_of-append :
    (q : ℕ) (us vs : List User) → refs_of q (us ++ vs) ≡ refs_of q us + refs_of q vs
unfolding refs_of
refs_of-append q [] vs = omega arith
refs_of-append q (u ∷ us) vs = omega (arith, refs_of-append q us vs)

pub text_of-append :
    (m : Pools) (us vs : List User) → text_of m (us ++ vs) ≡ text_of m us ++ text_of m vs
unfolding text_of
text_of-append m [] vs = refl
text_of-append m (u ∷ us) vs =
    rw (text_of-append m us vs) (sym (append_assoc (bytes_of m u) (text_of m us) (text_of m vs)))

pub AllOpen-append :
    (m : Pools) (us vs : List User) → AllOpen m us → AllOpen m vs → AllOpen m (us ++ vs)
unfolding AllOpen
AllOpen-append m [] vs hu hv = hv
AllOpen-append m (u ∷ us) vs hu hv = (hu.0, AllOpen-append m us vs hu.1 hv)

-- A buffer that has a user is in use.
pub Owned-Live : (m : Pools) (r p : ℕ) → Owned m r p → 0 < r → Live m r p
Owned-Live m r p (inl a) h = absurd (omega arith)
Owned-Live m r p (inr (inl a)) h = absurd (omega arith)
Owned-Live m r p (inr (inr l)) h = l

pub AllOpen-split :
    (m : Pools) (us vs : List User) → AllOpen m (us ++ vs) → AllOpen m us × AllOpen m vs
unfolding AllOpen
AllOpen-split m [] vs h = (tt, h)
AllOpen-split m (u ∷ us) vs h = let (a, b) = AllOpen-split m us vs h.1 in ((h.0, a), b)

pub plus-append :
    (m : Pools) (refs : ℕ → ℕ) (us vs : List User)
    → (IsOwned m (plus refs (us ++ vs)) → IsOwned m (plus (plus refs us) vs))
      × (IsOwned m (plus (plus refs us) vs) → IsOwned m (plus refs (us ++ vs)))
plus-append m refs us vs = (
  λ own q. subst (λ n. Owned m n q) (omega (arith, refs_of-append q us vs)) (own q),
  λ own q. subst (λ n. Owned m n q) (omega (arith, refs_of-append q us vs)) (own q),
)

-- A queue, where `refs` are the users that other queues have: the buffers are owned, every user of
-- the queue has bytes, and its length is the number of them all.
pub record IsQueue (m : Pools) (refs : ℕ → ℕ) (q : SBuf) : Type 0 where
  pub owned : IsOwned m (plus refs q.users)
  pub opens : AllOpen m q.users
  pub sized : q.length ≡ length (text_of m q.users)

-- What other queues use, and what is shared and not in this queue, keeps its bytes.
abbrev pub KeepsOthers : Pools → (ℕ → ℕ) → List User → Pools → Type 0
KeepsOthers m refs us m' =
    (p : ℕ)
    → pooled m p ≡ 0
    → p < m.count
    → (0 < refs p) ⊎ (refs_of p us ≡ 0)
    → (m'.bufs p).bytes ≡ (m.bufs p).bytes
