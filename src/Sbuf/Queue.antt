-- ===== src/Sbuf/Queue.antt =====
-- The queues of src/sbuf.c. A user is the place in its buffer where its bytes start; the chain from
-- `head` is the list, and `tail` the last of it. The calls return `none` where the code would write
-- through a null pointer, or has no memory.
use solidircd.Base.{
  ℕ, zero, suc, ◌+◌, ◌-◌, Bool, List, [], ◌∷◌, ◌++◌, ◌==◌, ltb, ◌&&◌, ◌||◌, not, if◌then◌else◌,
  Option, none, some, ◌>>=◌, length, take, drop,
}
use solidircd.Sbuf.Pool.{Pools, write, sbuf_alloc, sbuf_user_alloc, sbuf_free, sbuf_user_free}

-- `SBufUser`
pub record User : Type 0 where
  pub start : ℕ
  pub buf : ℕ

-- `SBuf`
pub record SBuf : Type 0 where
  pub length : ℕ
  pub users : List User

-- The bytes from `start` to `end`
abbrev pub bytes_of : Pools → User → List ℕ
bytes_of m u = drop u.start (m.bufs u.buf).bytes

-- `user->buf->end - user->start`
abbrev pub avail : Pools → User → ℕ
avail m u = length (m.bufs u.buf).bytes - u.start

-- A new user of a new buffer for the data that is left
unfoldable pub new_user : ℕ → Pools → Option (User × Pools)
unfolding sbuf_alloc sbuf_user_alloc
new_user size m = sbuf_alloc size (sbuf_user_alloc m) >>= λ r. some (
  record { start = 0; buf = r.0 },
  record r.1 { bufs = write r.0 (record (r.1.bufs r.0) { refcount = 1 }) r.1.bufs },
)

-- The room in a buffer
abbrev pub room : Pools → ℕ → ℕ
room m p = (m.bufs p).bufsize - length (m.bufs p).bytes

-- The memcpy of a chunk to the end of a buffer
unfoldable pub append : ℕ → List ℕ → Pools → Pools
append p chunk m =
    let b = m.bufs p in record m { bufs = write p (record b { bytes = b.bytes ++ chunk }) m.bufs }

-- The loop of `sbuf_put` where no user is left: on fuel, since every round takes a byte or more
unfoldable pub grow : ℕ → List ℕ → Pools → Option (List User × Pools)
unfolding new_user append
grow zero text m = none
grow (suc fuel) [] m = some ([], m)
grow (suc fuel) (c ∷ rest) m = new_user (length (c ∷ rest)) m >>= λ r.
    let p = r.0.buf in
    let n = room r.1 p in
    grow fuel (drop n (c ∷ rest)) (append p (take n (c ∷ rest)) r.1) >>= λ s. some (r.0 ∷ s.0, s.1)

-- The loop of `sbuf_put`, from a place in the chain on
unfoldable pub fill : List User → List ℕ → Pools → Option (List User × Pools)
unfolding grow append
fill [] text m = grow (length text + 1) text m
fill (u ∷ us) [] m = some (u ∷ us, m)
fill (u ∷ us) (c ∷ rest) m =
    let n = room m u.buf in
    fill us (drop n (c ∷ rest)) (append u.buf (take n (c ∷ rest)) m) >>= λ s. some (u ∷ s.0, s.1)

-- A new user behind the last one, with a buffer of its own
abbrev pub put_behind : User → List ℕ → Pools → Option (List User × Pools)
put_behind u text m =
    new_user (length text) m >>= λ r. fill (r.0 ∷ []) text r.1 >>= λ s. some (u ∷ s.0, s.1)

-- A new user where `u->buf->refcount > 1`
unfoldable pub put_from : List User → List ℕ → Pools → Option (List User × Pools)
unfolding fill
put_from [] text m = fill [] text m
put_from (u ∷ us) text m =
    if ltb 1 (m.bufs u.buf).refcount then put_behind u text m else fill (u ∷ us) text m

-- The users in front of the one that `tail` points to, and that one
unfoldable pub split_tail : List User → List User × List User
split_tail [] = ([], [])
split_tail (u ∷ []) = ([], u ∷ [])
split_tail (u ∷ v ∷ us) = let (front, back) = split_tail (v ∷ us) in (u ∷ front, back)

-- `sbuf_put`. With a length of 0 the code starts at `head`: then a chain that is not empty loses it
-- when its buffer is in use elsewhere, and that is `none` here.
unfoldable pub sbuf_put : SBuf → List ℕ → Pools → Option (SBuf × Pools)
unfolding put_from split_tail
sbuf_put q text m =
    if q.length == 0
    then elim q.users [
      | [] ↦ put_from [] text m >>= λ s. some (record { length = length text; users = s.0 }, s.1)
      | u ∷ us ↦
          if ltb 1 (m.bufs u.buf).refcount
          then none
          else fill (u ∷ us) text m >>= λ s.
              some (record { length = length text; users = s.0 }, s.1)
    ]
    else let (front, back) = split_tail q.users in
      put_from back text m >>= λ s.
      some (record { length = q.length + length text; users = front ++ s.0 }, s.1)

-- The end of a user: `refcount--`, sbuf_free of a buffer that no one uses, sbuf_user_free
unfoldable pub release : ℕ → Pools → Pools
unfolding sbuf_free sbuf_user_free
release p m =
    let b = m.bufs p in
    let m' = record m { bufs = write p (record b { refcount = b.refcount - 1 }) m.bufs } in
    sbuf_user_free (if b.refcount - 1 == 0 && not b.shared then sbuf_free p m' else m')

-- The loop of `sbuf_delete`; `none` is a read through a null `head`.
unfoldable pub delete_from : List User → ℕ → Pools → Option (List User × Pools)
unfolding release
delete_from [] n m = if n == 0 then some ([], m) else none
delete_from (u ∷ us) n m =
    let chunk = if ltb n (avail m u) then n else avail m u in
    let later = delete_from us (n - chunk) (release u.buf m) in
    if n == 0
    then some (u ∷ us, m)
    else if u.start + chunk == length (m.bufs u.buf).bytes
    then later
    else some (record u { start = u.start + chunk } ∷ us, m)

unfoldable pub sbuf_delete : SBuf → ℕ → Pools → Option (SBuf × Pools)
unfolding delete_from
sbuf_delete q n m =
    let len = if ltb q.length n then q.length else n in
    delete_from q.users len m >>= λ s. some (record { length = q.length - len; users = s.0 }, s.1)

-- `SBufClear`
unfoldable pub sbuf_clear : SBuf → Pools → Option (SBuf × Pools)
unfolding sbuf_delete
sbuf_clear q m = sbuf_delete q q.length m

-- `sbuf_map`: the bytes of the first user; `none` is NULL, or a read through a null `head`.
unfoldable pub sbuf_map : SBuf → Pools → Option (List ℕ)
sbuf_map q m =
    if q.length == 0 then none else elim q.users [ [] ↦ none | u ∷ us ↦ some (bytes_of m u) ]

-- `sbuf_mapiov`, for the number WRITEV_IOV of pieces
unfoldable pub mapiov_from : ℕ → List User → Pools → List (List ℕ)
mapiov_from zero us m = []
mapiov_from (suc n) [] m = []
mapiov_from (suc n) (u ∷ us) m = bytes_of m u ∷ mapiov_from n us m

unfoldable pub sbuf_mapiov : ℕ → SBuf → Pools → List (List ℕ)
unfolding mapiov_from
sbuf_mapiov writev_iov q m = if q.length == 0 then [] else mapiov_from writev_iov q.users m

-- `IsEol`
abbrev pub is_eol : ℕ → Bool
is_eol c = c == b'\r' || c == b'\n'

-- How many end marks a text begins with
unfoldable pub eols : List ℕ → ℕ
eols [] = 0
eols (c ∷ s) = if is_eol c then suc (eols s) else 0

-- The loop of `sbuf_flush`: the users, and the bytes taken
unfoldable pub flush_from : List User → Pools → List User × ℕ × Pools
unfolding eols release
flush_from [] m = ([], 0, m)
flush_from (u ∷ us) m =
    let skip = eols (bytes_of m u) in
    let (us', n, m') = flush_from us (release u.buf m) in
    if ltb skip (avail m u)
    then (record u { start = u.start + skip } ∷ us, skip, m)
    else (us', skip + n, m')

unfoldable pub sbuf_flush : SBuf → Pools → SBuf × Pools
unfolding flush_from
sbuf_flush q m =
    if q.length == 0
    then (q, m)
    else let (us, n, m') = flush_from q.users m in
      (record { length = q.length - n; users = us }, m')

-- How many bytes stand before the first end mark
unfoldable pub line : List ℕ → ℕ
line [] = 0
line (c ∷ s) = if is_eol c then 0 else suc (line s)

-- A message that goes on in the next users
abbrev pub then_line : List ℕ → Option (List ℕ) → Option (List ℕ)
then_line part none = none
then_line part (some s) = some (part ++ s)

-- The loop of `sbuf_getmsg` over the chain: the message, if an end mark comes before `n` bytes
unfoldable pub msg_from : List User → ℕ → Pools → Option (List ℕ)
unfolding line
msg_from [] n m = none
msg_from (u ∷ us) n m =
    let part = take n (bytes_of m u) in
    let k = line part in
    let later = msg_from us (n - k) m in
    if n == 0
    then none
    else if ltb k (length part)
    then some (take k part)
    else then_line part later

-- The end of `sbuf_getmsg`: a message leaves the queue, with the end marks behind it.
abbrev pub delete_line : SBuf → Pools → Option (List ℕ) → Option (List ℕ × SBuf × Pools)
delete_line q m none = some ([], q, m)
delete_line q m (some s) =
    sbuf_delete q (length s) m >>= λ r. let (q', m') = sbuf_flush r.0 r.1 in some (s, q', m')

-- `sbuf_getmsg`: 0 is `[]`, as a message is not empty.
unfoldable pub sbuf_getmsg : SBuf → ℕ → Pools → Option (List ℕ × SBuf × Pools)
unfolding sbuf_flush msg_from sbuf_delete
sbuf_getmsg q n m =
    let (q', m') = sbuf_flush q m in
    if q'.length == 0 then some ([], q', m') else delete_line q' m' (msg_from q'.users n m')

-- The loop of `sbuf_get`, on fuel: every round takes a byte or more.
unfoldable pub get_from : ℕ → SBuf → ℕ → Pools → Option (List ℕ × SBuf × Pools)
unfolding sbuf_map sbuf_delete
get_from zero q n m = none
get_from (suc fuel) q n m = if n == 0 then some ([], q, m) else elim (sbuf_map q m) [
  | none ↦ some ([], q, m)
  | some buf ↦
      let chunk = take n buf in
      sbuf_delete q (length chunk) m >>= λ r.
      get_from fuel r.0 (n - length chunk) r.1 >>= λ s. some (chunk ++ s.0, s.1, s.2)
]

unfoldable pub sbuf_get : SBuf → ℕ → Pools → Option (List ℕ × SBuf × Pools)
unfolding get_from
sbuf_get q n m = if q.length == 0 then some ([], q, m) else get_from (q.length + 1) q n m
