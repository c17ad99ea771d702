-- ===== src/Sbuf/Alloc.antt =====
-- sbuf_alloc of src/sbuf.c always has a buffer, and one that no one uses.
use solidircd.Base.{
  ℕ, zero, suc, ◌+◌, ◌-◌, ◌<◌, ◌≡◌, ◌≢◌, refl, ◌∙◌, ◌⊎◌, inl, inr, List, [], ◌∷◌, ◌++◌, leb, Option,
  none, some, arith, Bool-cases,
}
use solidircd.Sbuf.Owned.{
  count_in, pooled, Owned, IsOwned, Keeps, sbuf_allocblock_large-IsOwned,
  sbuf_allocblock_small-IsOwned,
}
use solidircd.Sbuf.Pool.{
  SBuffer, Pools, write, block, block_num, empty, sbuf_allocblock_large, sbuf_allocblock_small,
  take_large, take_small, alloc_large, sbuf_alloc, sbuf_init, sbuf_allocblock_users, large_buffer,
  small_buffer, sbuf_base, initial_sbufs_large, initial_sbufs_small,
}

-- A buffer that came out of a pool: empty, and in no one's use. The rest is as it was.
pub record Taken (m : Pools) (refs : ℕ → ℕ) (p : ℕ) (m' : Pools) : Type 0 where
  pub unused : refs p ≡ 0
  pub out : pooled m' p ≡ 0
  pub there : p < m'.count
  pub size : ℕ
  pub ready : m'.bufs p ≡ empty size
  pub fits : (size ≡ large_buffer) ⊎ (size ≡ small_buffer)
  pub others : (q : ℕ) → q ≢ p → Owned m' (refs q) q
  pub keeps : Keeps m m'
  pub fresh : (q : ℕ) → pooled m q ≡ 0 → q < m.count → q ≢ p

abbrev Takes : Pools → (ℕ → ℕ) → Option (ℕ × Pools) → Type 0
Takes m refs o = (p : ℕ) × (m' : Pools) × (o ≡ some (p, m')) × Taken m refs p m'

take_large-Taken :
    (m : Pools) (refs : ℕ → ℕ) (p : ℕ) (rest : List ℕ)
    → m.large_pool ≡ p ∷ rest
    → IsOwned m refs
    → Takes m refs (take_large m)
unfolding take_large pooled count_in
take_large-Taken m refs p rest e own = (
  p,
  record m {
    bufs = write p (empty large_buffer) m.bufs;
    large_pool = rest;
    large_used = m.large_used + 1;
  },
  rw (e, take_large) refl,
  record {
    unused = ground (arith, own p);
    out = ground (arith, own p);
    there = ground (arith, own p);
    size = large_buffer;
    ready = ground arith;
    fits = inl refl;
    others = λ q d. ground (arith, own q);
    keeps = λ q. ground arith;
    fresh = λ q. ground arith;
  },
)

take_small-Taken :
    (m : Pools) (refs : ℕ → ℕ) (p : ℕ) (rest : List ℕ)
    → m.small_pool ≡ p ∷ rest
    → IsOwned m refs
    → Takes m refs (take_small m)
unfolding take_small pooled count_in
take_small-Taken m refs p rest e own = (
  p,
  record m {
    bufs = write p (empty small_buffer) m.bufs;
    small_pool = rest;
    small_used = m.small_used + 1;
  },
  rw (e, take_small) refl,
  record {
    unused = ground (arith, own p);
    out = ground (arith, own p);
    there = ground (arith, own p);
    size = small_buffer;
    ready = ground arith;
    fits = inr refl;
    others = λ q d. ground (arith, own q);
    keeps = λ q. ground arith;
    fresh = λ q. ground arith;
  },
)

-- Behind a step that keeps the buffers in use.
Takes-after :
    (m m1 : Pools) (refs : ℕ → ℕ) (o : Option (ℕ × Pools))
    → Keeps m m1
    → Takes m1 refs o
    → Takes m refs o
Takes-after m m1 refs o k (p, m', e, t) = (
  p,
  m',
  e,
  record {
    unused = t.unused;
    out = t.out;
    there = t.there;
    size = t.size;
    ready = t.ready;
    fits = t.fits;
    others = t.others;
    keeps = λ q a b.
        let (a1, b1, e1) = k q a b in let (a2, b2, e2) = t.keeps q a1 b1 in (a2, b2, e2 ∙ e1);
    fresh = λ q a b. let (a1, b1, e1) = k q a b in t.fresh q a1 b1;
  },
)

List-cases {ℓ} : {A : Type ℓ} (l : List A) → (l ≡ []) ⊎ ((x : A) × (r : List A) × (l ≡ x ∷ r))
List-cases [] = inl refl
List-cases (x ∷ r) = inr (x, r, refl)

block-cons :
    (first num : ℕ) (l : List ℕ)
    → 0 < num
    → block first num ++ l ≡ first ∷ (block (first + 1) (num - 1) ++ l)
unfolding block
block-cons first zero l h = absurd (omega arith)
block-cons first (suc n) l h = ground arith

large_num : 0 < block_num initial_sbufs_large (sbuf_base + large_buffer)
unfolding block_num
large_num = omega arith

small_num : 0 < block_num initial_sbufs_small (sbuf_base + small_buffer)
unfolding block_num
small_num = omega arith

-- A large buffer is always to be had.
alloc_large-Taken : (m : Pools) (refs : ℕ → ℕ) → IsOwned m refs → Takes m refs (alloc_large m)
unfolding alloc_large
alloc_large-Taken m refs own = elim (List-cases m.large_pool) [
  | inl e ↦
      let more = sbuf_allocblock_large initial_sbufs_large m in
      let (own', k) = sbuf_allocblock_large-IsOwned initial_sbufs_large m refs own in
      let num = block_num initial_sbufs_large (sbuf_base + large_buffer) in
      let none_left : take_large m ≡ none = rw (e, take_large) refl in
      let (p, m', e', t) =
        take_large-Taken more refs m.count (block (m.count + 1) (num - 1) ++ m.large_pool)
          (block-cons m.count num m.large_pool large_num) own' in
      Takes-after m more refs (alloc_large m) k (p, m', rw (none_left, alloc_large) e', t)
  | inr (p, rest, e) ↦
      let (p', m', e', t) = take_large-Taken m refs p rest e own in
      (p', m', rw (e', alloc_large) refl, t)
]

-- Whatever the size, sbuf_alloc has an empty buffer that was in no use, and leaves the others in
-- use as they were.
pub sbuf_alloc-Taken :
    (size : ℕ) (m : Pools) (refs : ℕ → ℕ)
    → IsOwned m refs
    → (p : ℕ) × (m' : Pools) × (sbuf_alloc size m ≡ some (p, m')) × Taken m refs p m'
unfolding sbuf_alloc
sbuf_alloc-Taken size m refs own = elim (Bool-cases (leb small_buffer size)) [
  | inl large ↦ rw large (alloc_large-Taken m refs own)
  | inr small ↦ elim (List-cases m.small_pool) [
    | inl e ↦
        let more = sbuf_allocblock_small initial_sbufs_small m in
        let (own', k) = sbuf_allocblock_small-IsOwned initial_sbufs_small m refs own in
        let num = block_num initial_sbufs_small (sbuf_base + small_buffer) in
        let none_left : take_small m ≡ none = rw (e, take_small) refl in
        let (p, m', e', t) =
          take_small-Taken more refs m.count (block (m.count + 1) (num - 1) ++ m.small_pool)
            (block-cons m.count num m.small_pool small_num) own' in
        Takes-after m more refs (sbuf_alloc size m) k
          (p, m', rw (small, none_left, e', sbuf_alloc) refl, t)
    | inr (p, rest, e) ↦
        let (p', m', e', t) = take_small-Taken m refs p rest e own in
        (p', m', rw (small, e', sbuf_alloc) refl, t)
  ]
]

-- At the start every buffer is in a pool, once.
pub sbuf_init-IsOwned : (memory : ℕ → SBuffer) → IsOwned (sbuf_init memory) (λ p. 0)
unfolding sbuf_init sbuf_allocblock_users pooled count_in
sbuf_init-IsOwned memory =
    let none_yet : Pools = record {
      bufs = memory;
      count = 0;
      large_pool = [];
      small_pool = [];
      user_pool = 0;
      user_total = 0;
      user_used = 0;
      small_total = 0;
      small_used = 0;
      large_total = 0;
      large_used = 0;
    } in
    let small = sbuf_allocblock_small initial_sbufs_small none_yet in
    let own : IsOwned none_yet (λ p. 0) = λ p. inl (omega arith, omega arith, refl) in
    let (own1, _) = sbuf_allocblock_small-IsOwned initial_sbufs_small none_yet (λ p. 0) own in
    (sbuf_allocblock_large-IsOwned initial_sbufs_large small (λ p. 0) own1).0
