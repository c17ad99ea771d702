-- ===== src/Sbuf/Owned.antt =====
-- Who owns a buffer of src/sbuf.c: a pool, or the queues and the caller that shares it. `refs` is the
-- number of users that all queues have of a buffer.
use solidircd.Base.{
  ℕ, zero, suc, ◌+◌, ◌≤◌, ◌<◌, ◌≡◌, ◌⊎◌, true, List, [], ◌∷◌, ◌++◌, ◌==◌, leb, ltb, ◌&&◌,
  if◌then◌else◌, arith, length,
}
use solidircd.Sbuf.Pool.{
  SBuffer, Pools, block, block_num, sbuf_allocblock_large, sbuf_allocblock_small, large_buffer,
  small_buffer, sbuf_base,
}

unfoldable pub count_in : ℕ → List ℕ → ℕ
count_in p [] = 0
count_in p (q ∷ l) = (if q == p then 1 else 0) + count_in p l

-- How often a buffer stands in the pools
unfoldable pub pooled : Pools → ℕ → ℕ
unfolding count_in
pooled m p = count_in p m.large_pool + count_in p m.small_pool

abbrev pub Fits : SBuffer → Type 0
Fits b = (length b.bytes ≤ b.bufsize) × ((b.bufsize ≡ large_buffer) ⊎ (b.bufsize ≡ small_buffer))

-- A buffer in use counts its users, has one or is shared, and its bytes fit.
abbrev pub Live : Pools → ℕ → ℕ → Type 0
Live m r p =
    (pooled m p ≡ 0)
    × (p < m.count)
    × ((m.bufs p).refcount ≡ r)
    × ((0 < r) ⊎ ((m.bufs p).shared ≡ true))
    × Fits (m.bufs p)

-- A number of a buffer that is not there, of one in a pool, once, or of one in use
abbrev pub Owned : Pools → ℕ → ℕ → Type 0
Owned m r p =
    ((pooled m p ≡ 0) × (m.count ≤ p) × (r ≡ 0))
    ⊎ (((pooled m p ≡ 1) × (p < m.count) × (r ≡ 0)) ⊎ Live m r p)

-- No buffer is lost, stands in a pool twice, or is in a pool and in use.
abbrev pub IsOwned : Pools → (ℕ → ℕ) → Type 0
IsOwned m refs = (p : ℕ) → Owned m (refs p) p

-- Buffers in use are as they were.
abbrev pub Keeps : Pools → Pools → Type 0
Keeps m m' =
    (q : ℕ)
    → pooled m q ≡ 0
    → q < m.count
    → (pooled m' q ≡ 0) × (q < m'.count) × (m'.bufs q ≡ m.bufs q)

count_in-append : (p : ℕ) (xs ys : List ℕ) → count_in p (xs ++ ys) ≡ count_in p xs + count_in p ys
unfolding count_in
count_in-append p [] ys = omega arith
count_in-append p (x ∷ xs) ys = omega (arith, count_in-append p xs ys)

count_in-block :
    (p first num : ℕ)
    → count_in p (block first num) ≡ (if leb first p && ltb p (first + num) then 1 else 0)
unfolding count_in block
count_in-block p first zero = ground arith
count_in-block p first (suc num) = ground (arith, count_in-block p (first + 1) num)

-- A new block of either size.
pub sbuf_allocblock_large-IsOwned :
    (memory : ℕ) (m : Pools) (refs : ℕ → ℕ)
    → IsOwned m refs
    → IsOwned (sbuf_allocblock_large memory m) refs × Keeps m (sbuf_allocblock_large memory m)
unfolding sbuf_allocblock_large pooled
sbuf_allocblock_large-IsOwned memory m refs own =
    let num = block_num memory (sbuf_base + large_buffer) in
    (
      λ p. ground (
        arith,
        own p,
        count_in-append p (block m.count num) m.large_pool,
        count_in-block p m.count num,
      ),
      λ q.
          ground (
            arith,
            count_in-append q (block m.count num) m.large_pool,
            count_in-block q m.count num,
          ),
    )

pub sbuf_allocblock_small-IsOwned :
    (memory : ℕ) (m : Pools) (refs : ℕ → ℕ)
    → IsOwned m refs
    → IsOwned (sbuf_allocblock_small memory m) refs × Keeps m (sbuf_allocblock_small memory m)
unfolding sbuf_allocblock_small pooled
sbuf_allocblock_small-IsOwned memory m refs own =
    let num = block_num memory (sbuf_base + small_buffer) in
    (
      λ p. ground (
        arith,
        own p,
        count_in-append p (block m.count num) m.small_pool,
        count_in-block p m.count num,
      ),
      λ q.
          ground (
            arith,
            count_in-append q (block m.count num) m.small_pool,
            count_in-block q m.count num,
          ),
    )
