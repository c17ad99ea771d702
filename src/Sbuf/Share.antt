-- ===== src/Sbuf/Share.antt =====
-- The shared buffers of src/sbuf.c: one copy of a message for many queues.
use solidircd.Base.{
  ℕ, ◌+◌, true, false, List, [], ◌∷◌, ◌++◌, ◌==◌, ltb, if◌then◌else◌, Option, none, some, ◌>>=◌,
  length, take,
}
use solidircd.Sbuf.Pool.{Pools, write, sbuf_alloc, sbuf_free, sbuf_user_alloc}
use solidircd.Sbuf.Queue.{User, SBuf}

-- `sbuf_begin_share`: the buffer with the message, cut to 510 bytes, and an end mark
unfoldable pub sbuf_begin_share : List ℕ → Pools → Option (ℕ × Pools)
unfolding sbuf_alloc
sbuf_begin_share text m =
    let cut = take 510 text in
    sbuf_alloc (length cut + 2) m >>= λ r.
    let b = r.1.bufs r.0 in
    if ltb b.bufsize (length cut + 2)
    then none
    else some (
      r.0,
      record r.1 {
        bufs =
            write r.0
              (record b { bytes = cut ++ (b'\r' ∷ b'\n' ∷ []); refcount = 0; shared = true })
              r.1.bufs;
      },
    )

-- The body of the loop of `sbuf_end_share`, for an entry that is not NULL
unfoldable pub end_share : ℕ → Pools → Pools
unfolding sbuf_free
end_share p m =
    let m' = record m { bufs = write p (record (m.bufs p) { shared = false }) m.bufs } in
    if (m.bufs p).refcount == 0 then sbuf_free p m' else m'

-- `sbuf_end_share`
unfoldable pub sbuf_end_share : List (Option ℕ) → Pools → Pools
unfolding end_share
sbuf_end_share [] m = m
sbuf_end_share (none ∷ shares) m = sbuf_end_share shares m
sbuf_end_share (some p ∷ shares) m = sbuf_end_share shares (end_share p m)

-- `sbuf_put_share`: -1 for NULL is `none`. With a length of 0 the chain starts anew.
unfoldable pub sbuf_put_share : SBuf → Option ℕ → Pools → Option (SBuf × Pools)
unfolding sbuf_user_alloc
sbuf_put_share q none m = none
sbuf_put_share q (some p) m =
    let b = m.bufs p in
    let u : User = record { start = 0; buf = p } in
    let m' =
      sbuf_user_alloc
        (record m { bufs = write p (record b { refcount = b.refcount + 1 }) m.bufs }) in
    some (
      record {
        length = q.length + length b.bytes;
        users = if q.length == 0 then u ∷ [] else q.users ++ (u ∷ []);
      },
      m',
    )
