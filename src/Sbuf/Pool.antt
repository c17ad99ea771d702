-- ===== src/Sbuf/Pool.antt =====
-- The pools of src/sbuf.c. A buffer is known by its number, in the order in which the blocks came;
-- `count` is the number of buffers there are. Its `end` pointer is the length of `bytes`. Memory of a
-- new block reads as whatever stood there, but for its size. The users in `user_pool` hold nothing, so
-- only their number is kept. MyMalloc (src/list.c) does not return without memory.
use solidircd.Base.{
  ℕ, zero, suc, ◌+◌, ◌-◌, ◌/◌, ◌%◌, Bool, false, List, [], ◌∷◌, ◌++◌, ◌==◌, leb, ltb, ◌&&◌,
  if◌then◌else◌, Option, none, some,
}

-- `SBUF_LARGE_BUFFER`, `SBUF_SMALL_BUFFER`, and `SBUF_BASE` where pointers have 8 bytes
abbrev pub large_buffer : ℕ
large_buffer = 512

abbrev pub small_buffer : ℕ
small_buffer = 256

abbrev pub sbuf_base : ℕ
sbuf_base = 32

abbrev pub initial_sbufs_large : ℕ
initial_sbufs_large = 2_097_152

abbrev pub initial_sbufs_small : ℕ
initial_sbufs_small = 2_097_152

abbrev pub initial_sbufs_users : ℕ
initial_sbufs_users = 256

-- `SBuffer`
pub record SBuffer : Type 0 where
  pub shared : Bool
  pub bufsize : ℕ
  pub refcount : ℕ
  pub bytes : List ℕ

-- `largesbuf_pool`, `smallsbuf_pool`, the number of users in `user_pool`, and the counters
pub record Pools : Type 0 where
  pub bufs : ℕ → SBuffer
  pub count : ℕ
  pub large_pool : List ℕ
  pub small_pool : List ℕ
  pub user_pool : ℕ
  pub user_total : ℕ
  pub user_used : ℕ
  pub small_total : ℕ
  pub small_used : ℕ
  pub large_total : ℕ
  pub large_used : ℕ

-- A write through a pointer to a buffer
abbrev pub write : ℕ → SBuffer → (ℕ → SBuffer) → ℕ → SBuffer
write p b bufs q = if q == p then b else bufs q

-- The buffers of a new block, in their order
unfoldable pub block : ℕ → ℕ → List ℕ
block first zero = []
block first (suc num) = first ∷ block (first + 1) num

-- What the loop of `sbuf_allocblock_general` writes
abbrev pub sized : ℕ → ℕ → ℕ → (ℕ → SBuffer) → ℕ → SBuffer
sized first num size bufs q =
    if leb first q && ltb q (first + num) then record (bufs q) { bufsize = size } else bufs q

-- The number of buffers that `theMemorySize` gives
unfoldable pub block_num : ℕ → ℕ → ℕ
block_num memory total = (if memory % total == 0 then memory else memory + total) / total

-- `sbuf_allocblock_large`, `sbuf_allocblock_small`, with sbuf_allocblock_general in them
unfoldable pub sbuf_allocblock_large : ℕ → Pools → Pools
unfolding block
sbuf_allocblock_large memory m =
    let num = block_num memory (sbuf_base + large_buffer) in
    record m {
      bufs = sized m.count num large_buffer m.bufs;
      count = m.count + num;
      large_pool = block m.count num ++ m.large_pool;
      large_total = m.large_total + num;
    }

unfoldable pub sbuf_allocblock_small : ℕ → Pools → Pools
unfolding block
sbuf_allocblock_small memory m =
    let num = block_num memory (sbuf_base + small_buffer) in
    record m {
      bufs = sized m.count num small_buffer m.bufs;
      count = m.count + num;
      small_pool = block m.count num ++ m.small_pool;
      small_total = m.small_total + num;
    }

-- `sbuf_allocblock_users`
unfoldable pub sbuf_allocblock_users : ℕ → Pools → Pools
sbuf_allocblock_users num m = record m {
  user_pool = num + m.user_pool;
  user_total = m.user_total + num;
}

-- `sbuf_init`, over the memory as it is
unfoldable pub sbuf_init : (ℕ → SBuffer) → Pools
unfolding sbuf_allocblock_large sbuf_allocblock_small sbuf_allocblock_users
sbuf_init memory = sbuf_allocblock_users initial_sbufs_users (
    sbuf_allocblock_large initial_sbufs_large (
      sbuf_allocblock_small initial_sbufs_small (record {
        bufs = memory;
        count = 0;
        large_pool = [];
        small_pool = [];
        user_pool = 0;
        user_total = 0;
        user_used = 0;
        small_total = 0;
        small_used = 0;
        large_total = 0;
        large_used = 0;
      })))

-- `sbuf_free`: -1, which no caller looks at, for another size
unfoldable pub sbuf_free : ℕ → Pools → Pools
sbuf_free p m =
    if (m.bufs p).bufsize == large_buffer
    then record m { large_pool = p ∷ m.large_pool; large_used = m.large_used - 1 }
    else if (m.bufs p).bufsize == small_buffer
    then record m { small_pool = p ∷ m.small_pool; small_used = m.small_used - 1 }
    else m

-- `sbuf_user_free`
unfoldable pub sbuf_user_free : Pools → Pools
sbuf_user_free m = record m { user_pool = m.user_pool + 1; user_used = m.user_used - 1 }

abbrev pub empty : ℕ → SBuffer
empty size = record { shared = false; bufsize = size; refcount = 0; bytes = [] }

-- The head of a pool, taken off and made ready
unfoldable pub take_large : Pools → Option (ℕ × Pools)
take_large m = elim m.large_pool [
  | [] ↦ none
  | p ∷ rest ↦ some (
    p,
    record m {
      bufs = write p (empty large_buffer) m.bufs;
      large_pool = rest;
      large_used = m.large_used + 1;
    },
  )
]

unfoldable pub take_small : Pools → Option (ℕ × Pools)
take_small m = elim m.small_pool [
  | [] ↦ none
  | p ∷ rest ↦ some (
    p,
    record m {
      bufs = write p (empty small_buffer) m.bufs;
      small_pool = rest;
      small_used = m.small_used + 1;
    },
  )
]

abbrev pub or_else : Option (ℕ × Pools) → Option (ℕ × Pools) → Option (ℕ × Pools)
or_else none next = next
or_else (some r) next = some r

-- `sbuf_alloc`: NULL is `none`. A large buffer stands in for a small one that is not to be had.
unfoldable pub alloc_large : Pools → Option (ℕ × Pools)
unfolding take_large sbuf_allocblock_large
alloc_large m = or_else (take_large m) (take_large (sbuf_allocblock_large initial_sbufs_large m))

unfoldable pub sbuf_alloc : ℕ → Pools → Option (ℕ × Pools)
unfolding alloc_large take_small sbuf_allocblock_small
sbuf_alloc size m =
    if leb small_buffer size
    then alloc_large m
    else let more = sbuf_allocblock_small initial_sbufs_small m in
      or_else (take_small m) (or_else (take_small more) (alloc_large more))

-- `sbuf_user_alloc`: a new block always has a user.
unfoldable pub sbuf_user_alloc : Pools → Pools
unfolding sbuf_allocblock_users
sbuf_user_alloc m =
    let m' = if m.user_pool == 0 then sbuf_allocblock_users initial_sbufs_users m else m in
    record m' { user_pool = m'.user_pool - 1; user_used = m'.user_used + 1 }
