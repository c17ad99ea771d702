-- ===== src/Sbuf/Tests.antt =====
-- Runs of the queues of src/sbuf.c, and the theorems at one memory.
use solidircd.Base.{
  ℕ, ◌≡◌, ◌⊎◌, refl, subst, true, false, List, [], ◌∷◌, ◌++◌, ◌==◌, if◌then◌else◌, Option, none,
  some, ◌>>=◌, arith, take, drop,
}
use solidircd.Sbuf.Chain.{refs_of, text_of, AllOpen, plus, IsQueue, KeepsOthers}
use solidircd.Sbuf.Owned.{count_in, pooled, Owned, IsOwned}
use solidircd.Sbuf.Pool.{SBuffer, Pools, empty}
use solidircd.Sbuf.Queue.{SBuf, sbuf_put, sbuf_delete, sbuf_getmsg, sbuf_get}
use solidircd.Sbuf.Share.{sbuf_end_share, sbuf_put_share}
use solidircd.Sbuf.Whole.{sbuf_put_lem}
use solidircd.Sbuf.Flush.{skip_eols}
use solidircd.Sbuf.Messages.{NoEol, message_roundtrip}
use solidircd.Sbuf.Take.{SameBytes, sbuf_delete_lem}
use solidircd.Sbuf.Lines.{first_line, sbuf_getmsg_lem}
use solidircd.Sbuf.Get.{sbuf_get_lem}
use solidircd.Sbuf.Spread.{sbuf_put_share_lem}
use solidircd.Sbuf.Ended.{Absent, AllLive, is_in, Ended, Untouched, sbuf_end_share_lem}

-- Buffer 0 is free and large, 1 is free and small; 2 is in one queue, 3 is shared and in two.
abbrev bufs : ℕ → SBuffer
bufs p =
    if p == 0
    then empty 512
    else if p == 1
    then empty 256
    else if p == 2
    then record {
      shared = false;
      bufsize = 256;
      refcount = 1;
      bytes = b'x' ∷ b'\r' ∷ b'\n' ∷ b'b' ∷ b'\n' ∷ b'c' ∷ [];
    }
    else record { shared = true; bufsize = 256; refcount = 2; bytes = b'h' ∷ b'i' ∷ b'\n' ∷ [] }

abbrev pools : Pools
pools = record {
  bufs = bufs;
  count = 4;
  large_pool = 0 ∷ [];
  small_pool = 1 ∷ [];
  user_pool = 5;
  user_total = 8;
  user_used = 3;
  small_total = 3;
  small_used = 2;
  large_total = 1;
  large_used = 0;
}

abbrev others : ℕ → ℕ
others p = if p == 3 then 1 else 0

abbrev queue : SBuf
queue = record {
  length = 7;
  users = record { start = 1; buf = 3 } ∷ record { start = 1; buf = 2 } ∷ [];
}

queue-IsQueue : IsQueue pools others queue
unfolding refs_of pooled count_in text_of AllOpen
queue-IsQueue = record {
  owned = λ p. ground arith;
  opens = (omega arith, (omega arith, tt));
  sized = refl;
}

-- The runs below show what a call gives, and the bytes of the queue after it.
abbrev contents : Option (SBuf × Pools) → Option (List ℕ × ℕ)
contents none = none
contents (some (q, m)) = some (text_of m q.users, q.length)

abbrev ap_message : Option (List ℕ × SBuf × Pools) → Option (List ℕ)
ap_message none = none
ap_message (some (s, q, m)) = some s

put_run :
    contents (sbuf_put queue (b'd' ∷ []) pools)
    ≡ some (b'i' ∷ b'\n' ∷ b'\r' ∷ b'\n' ∷ b'b' ∷ b'\n' ∷ b'c' ∷ b'd' ∷ [], 8)
unfolding sbuf_put text_of
put_run = refl

-- The last buffer has another user: the text goes to a new one.
put_behind_run :
    contents (
      sbuf_put
        (record { length = 2; users = record { start = 1; buf = 3 } ∷ [] })
        (b'd' ∷ [])
        pools)
    ≡ some (b'i' ∷ b'\n' ∷ b'd' ∷ [], 3)
unfolding sbuf_put text_of
put_behind_run = refl

delete_run : contents (sbuf_delete queue 3 pools) ≡ some (b'\n' ∷ b'b' ∷ b'\n' ∷ b'c' ∷ [], 4)
unfolding sbuf_delete text_of
delete_run = refl

getmsg_run : ap_message (sbuf_getmsg queue 100 pools) ≡ some (b'i' ∷ [])
unfolding sbuf_getmsg
getmsg_run = refl

-- A shared buffer in one queue: what is put to that queue now, the next queue gets too.
shared_once : Pools
shared_once = record pools {
  bufs = λ p. if p == 3 then record (bufs 3) { refcount = 1 } else bufs p;
}

put_shared_run :
    contents (
      sbuf_put
        (record { length = 3; users = record { start = 0; buf = 3 } ∷ [] })
        (b'd' ∷ [])
        shared_once
      >>= λ r. sbuf_put_share (record { length = 0; users = [] }) (some 3) r.1)
    ≡ some (b'h' ∷ b'i' ∷ b'\n' ∷ b'd' ∷ [], 4)
unfolding sbuf_put sbuf_put_share text_of shared_once
put_shared_run = refl

sbuf_put_lem_example :
    (q' : SBuf) × (m' : Pools) × (sbuf_put queue (b'd' ∷ []) pools ≡ some (q', m'))
    × IsQueue m' others q'
    × (text_of m' q'.users ≡ text_of pools queue.users ++ (b'd' ∷ []))
    × KeepsOthers pools others queue.users m'
sbuf_put_lem_example = sbuf_put_lem pools others queue (b'd' ∷ []) queue-IsQueue (omega arith)

sbuf_delete_lem_example :
    (q' : SBuf) × (m' : Pools) × (sbuf_delete queue 3 pools ≡ some (q', m'))
    × IsQueue m' others q'
    × (text_of m' q'.users ≡ drop 3 (text_of pools queue.users))
    × SameBytes pools m'
sbuf_delete_lem_example = sbuf_delete_lem pools others queue 3 queue-IsQueue

sbuf_getmsg_lem_example :
    (q' : SBuf) × (m' : Pools) × (sbuf_getmsg queue 100 pools
      ≡ some ((first_line 100 (text_of pools queue.users)).0, q', m'))
    × IsQueue m' others q'
    × (text_of m' q'.users ≡ (first_line 100 (text_of pools queue.users)).1)
    × SameBytes pools m'
sbuf_getmsg_lem_example = sbuf_getmsg_lem pools others queue 100 queue-IsQueue

sbuf_get_lem_example :
    (q' : SBuf) × (m' : Pools) × (sbuf_get queue 4 pools
      ≡ some (take 4 (text_of pools queue.users), q', m'))
    × IsQueue m' others q'
    × (text_of m' q'.users ≡ drop 4 (text_of pools queue.users))
    × SameBytes pools m'
sbuf_get_lem_example = sbuf_get_lem pools others queue 4 queue-IsQueue

total : ℕ → ℕ
total p = plus others queue.users p

pools-IsOwned : IsOwned pools total
unfolding total
pools-IsOwned = queue-IsQueue.owned

sbuf_put_share_lem_example :
    (q' : SBuf) × (m' : Pools) × (sbuf_put_share queue (some 3) pools ≡ some (q', m'))
    × IsQueue m' others q'
    × (text_of m' q'.users ≡ text_of pools queue.users ++ (pools.bufs 3).bytes)
    × SameBytes pools m'
unfolding refs_of pooled count_in
sbuf_put_share_lem_example =
    sbuf_put_share_lem pools others queue 3 queue-IsQueue (ground arith) (omega arith)

sbuf_end_share_lem_example :
    IsOwned (sbuf_end_share (none ∷ some 3 ∷ []) pools) total
    × ((q : ℕ)
        → ((is_in q (none ∷ some 3 ∷ []) ≡ true)
            × Ended total pools (sbuf_end_share (none ∷ some 3 ∷ []) pools) q)
          ⊎ ((is_in q (none ∷ some 3 ∷ []) ≡ false)
              × Untouched pools (sbuf_end_share (none ∷ some 3 ∷ []) pools) q))
unfolding AllLive Absent pooled count_in total refs_of
sbuf_end_share_lem_example =
    sbuf_end_share_lem (none ∷ some 3 ∷ []) pools total pools-IsOwned (ground arith, tt, tt)

abbrev no_bytes : SBuf
no_bytes = record { length = 0; users = [] }

no_bytes-IsQueue : IsQueue pools total no_bytes
unfolding refs_of text_of AllOpen
no_bytes-IsQueue = record {
  owned = λ p. subst (λ n. Owned pools n p) (omega arith) (pools-IsOwned p);
  opens = tt;
  sized = refl;
}

message_roundtrip_example :
    (q1 : SBuf) × (m1 : Pools) × (q2 : SBuf) × (m2 : Pools) × (sbuf_put no_bytes
        (b'h' ∷ b'i' ∷ b'\r' ∷ b'\n' ∷ b'\n' ∷ b'y' ∷ [])
        pools
      ≡ some (q1, m1))
    × (sbuf_getmsg q1 512 m1 ≡ some (b'h' ∷ b'i' ∷ [], q2, m2))
    × IsQueue m2 total q2
    × (text_of m2 q2.users ≡ skip_eols (b'\n' ∷ b'y' ∷ []))
unfolding NoEol
message_roundtrip_example =
    message_roundtrip pools total no_bytes (b'h' ∷ b'i' ∷ []) (b'\n' ∷ b'y' ∷ []) 512
      no_bytes-IsQueue refl (refl, (refl, tt)) (omega arith) (omega arith)
