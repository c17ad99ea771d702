-- ===== src/Throttle.antt =====
-- src/throttle.c: connection throttling by host.
--
-- `throttles` is the list of the records that are alive, each with its address (`at`): a pointer is
-- an address, a read through it is `deref`, a write is `store`. The records stand in the hash table
-- by their address. BlockHeapALLOC gives the address of a new record, an argument here; the theorems
-- ask that it is not in use. The C `time_t` values are seconds since 1970 and not negative, and so
-- are the three settings; differences of times are compared with the smaller side moved over, as
-- 64 bits do not overflow. `conns` and `stage` are signed.
pub mod Apart
pub mod Valid
pub mod Steps
pub mod Check
pub mod Timer
pub mod Deadline
pub mod Policy
mod Tests
use solidircd.Base.{
  ℕ, zero, suc, ◌+◌, ◌-◌, ◌/◌, Bool, true, false, List, [], ◌∷◌, ◌==◌, ltb, leb, ◌&&◌, ◌||◌, not,
  if◌then◌else◌, Option, none, some,
}
use solidircd.Base.Int.{ℤ, pos, negsuc, inc, ltb_ℤ, sub_ℕ}
use solidircd.HashTable.{
  HashTable, Ent, create_hash_table, hash_insert, hash_delete, hash_find, resize_hash_table,
}
use solidircd.Match.Compare.{Bytes}

-- `throttle`
pub record Throttle : Type 0 where
  pub at : ℕ
  pub addr : Bytes
  pub conns : ℤ
  pub first : ℕ
  pub last : ℕ
  pub zline_start : ℕ
  pub stage : ℤ
  pub re_zlines : ℕ

-- `throttle_enable`, `throttle_tcount`, `throttle_ttime`, `throttle_rtime`
pub record Settings : Type 0 where
  pub enable : Bool
  pub tcount : ℕ
  pub ttime : ℕ
  pub rtime : ℕ

-- `throttles`, `throttle_hash`, `numthrottles`
pub record Throttles : Type 0 where
  pub list : List Throttle
  pub hash : HashTable
  pub num : ℕ

-- What the code sends: to the operators (host, connections, seconds, minutes, offense), and to the
-- client (minutes; a longer throttle next time; the error).
pub data Notice : Type 0 where
  to_ops : Bytes → ℤ → ℤ → ℕ → ℤ → Notice
  throttled : ℕ → Notice
  longer_next : Notice
  too_fast : Notice

-- The result of a check: whether the client may come in, the record, the messages.
abbrev pub Verdict : Type 0
Verdict = ℕ × Throttle × List Notice

-- `throttle_init`
abbrev pub throttle_hashsize : ℕ
throttle_hashsize = 25147

abbrev pub hostiplen : ℕ
hostiplen = 46

pub throttle_init : Throttles
throttle_init = record {
  list = [];
  hash = create_hash_table throttle_hashsize hostiplen false;
  num = 0;
}

-- `throttle_get_zline_time`, in seconds
unfoldable pub zline_time : ℤ → ℕ
zline_time (negsuc zero) = 0
zline_time (negsuc (suc n)) = 3600
zline_time (pos zero) = 120
zline_time (pos (suc zero)) = 300
zline_time (pos (suc (suc zero))) = 900
zline_time (pos (suc (suc (suc zero)))) = 1800
zline_time (pos (suc (suc (suc (suc n))))) = 3600

abbrev pub is_neg : ℤ → Bool
is_neg z = ltb_ℤ z (pos 0)

-- The entry that the hash table holds for a record.
abbrev pub ent_of : Throttle → Ent
ent_of tp = record { at = tp.at; key = tp.addr }

unfoldable pub deref : ℕ → List Throttle → Option Throttle
deref p [] = none
deref p (tp ∷ l) = if tp.at == p then some tp else deref p l

unfoldable pub store : Throttle → List Throttle → List Throttle
store new [] = []
store new (tp ∷ l) = if tp.at == new.at then new ∷ l else tp ∷ store new l

-- `LIST_REMOVE`
unfoldable pub unlink : ℕ → List Throttle → List Throttle
unlink p [] = []
unlink p (tp ∷ l) = if tp.at == p then l else tp ∷ unlink p l

-- A new record: `throttle_alloc` and the assignments behind it. `last` is written afterwards.
unfoldable pub new_throttle : ℕ → Bytes → ℕ → Throttle
new_throttle at host time = record {
  at = at;
  addr = host;
  conns = pos 0;
  first = time;
  last = 0;
  zline_start = 0;
  stage = negsuc 0;
  re_zlines = 0;
}

-- `hash_insert`, `LIST_INSERT_HEAD`, `numthrottles++`
unfoldable pub add_throttle : Throttle → Throttles → Throttles
add_throttle tp st = record {
  list = tp ∷ st.list;
  hash = hash_insert st.hash (ent_of tp);
  num = st.num + 1;
}

-- `LIST_REMOVE`, `hash_delete`, `throttle_free`, `numthrottles--`
unfoldable pub drop_throttle : Throttle → Throttles → Throttles
unfolding unlink
drop_throttle tp st = record {
  list = unlink tp.at st.list;
  hash = (hash_delete st.hash (ent_of tp)).1;
  num = st.num - 1;
}

-- The messages of a fresh throttle, after `tp->stage++`.
unfoldable pub notices : ℕ → Throttle → List Notice
unfolding zline_time
notices sotime tp =
    let zlength = zline_time tp.stage in
    to_ops tp.addr tp.conns (sub_ℕ sotime tp.first) (zlength / 60) (inc tp.stage)
    ∷ throttled (zlength / 60)
    ∷ (if zline_time (inc tp.stage) == zlength then too_fast ∷ [] else longer_next ∷ too_fast ∷ [])

module _ (cfg : Settings) (remote : Bool) (sotime : ℕ) where
  -- `if (tp->conns >= throttle_tcount)`: a local client starts the next stage.
  unfoldable pub count_out : Throttle → Verdict
  count_out tp =
      if remote
      then (0, tp, [])
      else let next = record tp { stage = inc tp.stage } in
        (0, record next { zline_start = sotime }, notices sotime next)

  -- `throttle_check` from "got a throttle, up the conns"
  unfoldable pub judge : Throttle → Verdict
  unfolding count_out
  judge old =
      let tp = record old {
        conns = if is_neg old.conns then old.conns else inc old.conns;
        last = sotime;
      } in
      if ltb (tp.first + cfg.ttime) sotime
      then (1, record tp { conns = pos 1; first = sotime }, [])
      else if is_neg tp.conns && not (ltb_ℤ tp.conns (negsuc 0))
      then (0, tp, [])
      else if ltb_ℤ tp.conns (pos cfg.tcount)
      then (1, tp, [])
      else count_out tp

  -- `else if(tp->zline_start)` and what follows, for a record that was there before
  unfoldable pub known : Throttle → Verdict
  unfolding judge
  known tp =
      if tp.zline_start == 0
      then judge tp
      else if ltb sotime (tp.zline_start + zline_time tp.stage)
      then if remote
        then (0, tp, [])
        else (0, record tp { re_zlines = tp.re_zlines + 1; zline_start = sotime }, [])
      else judge (record tp { conns = pos 0; first = sotime; zline_start = 0 })

-- The writes of `throttle_force`
unfoldable pub forced : ℕ → Throttle → Throttle
forced now tp = record tp { conns = negsuc 0; last = now; first = now }

-- The writes of a check through `tp`
unfoldable pub settle : Verdict → Throttles → ℕ × Throttles × List Notice
unfolding store
settle (verdict, tp, sent) st = (verdict, record st { list = store tp st.list }, sent)

module _ (cmp : Bytes → Bytes → ℤ) where
  -- `hash_find(throttle_hash, host)` and the reads through the pointer. The outer `none` is a
  -- pointer to no record.
  unfoldable pub find_throttle : Bytes → Throttles → Option (Option Throttle)
  unfolding deref
  find_throttle host st = elim (hash_find cmp st.hash host) [
    | none ↦ some none
    | some ent ↦ elim (deref ent.at st.list) [ none ↦ none | some tp ↦ some (some tp) ]
  ]

  -- `throttle_remove`
  unfoldable pub throttle_remove : Bytes → Throttles → Option Throttles
  throttle_remove host st = elim (find_throttle host st) [
    | none ↦ none
    | some none ↦ some st
    | some (some tp) ↦ some (drop_throttle tp st)
  ]

  -- `throttle_force` at the time `now`
  unfoldable pub throttle_force : ℕ → ℕ → Bytes → Throttles → Option Throttles
  unfolding forced
  throttle_force now at host st = elim (find_throttle host st) [
    | none ↦ none
    | some none ↦
        let st' = add_throttle (new_throttle at host now) st in
        some (record st' { list = store (forced now (new_throttle at host now)) st'.list })
    | some (some tp) ↦ some (record st { list = store (forced now tp) st.list })
  ]

  -- `throttle_check`, behind the early returns
  unfoldable pub check_host :
      Settings → Bool → ℕ → ℕ → Bytes → Throttles → Option (ℕ × Throttles × List Notice)
  unfolding settle
  check_host cfg remote sotime at host st = elim (find_throttle host st) [
    | none ↦ none
    | some none ↦
        let tp = new_throttle at host sotime in
        some (settle (judge cfg remote sotime tp) (add_throttle tp st))
    | some (some tp) ↦ some (settle (known cfg remote sotime tp) st)
  ]

  -- `throttle_check`: `remote` is `fd == -1`
  unfoldable pub throttle_check :
      Settings → ℕ → Bool → ℕ → ℕ → Bytes → Throttles → Option (ℕ × Throttles × List Notice)
  throttle_check cfg now remote sotime at host st =
      if not cfg.enable
      then some (1, st, [])
      else if remote && ltb (sotime + cfg.ttime) now
      then some (1, st, [])
      else check_host cfg remote (if ltb now sotime then now else sotime) at host st

-- The test of `throttle_timer`
unfoldable pub expired : Settings → ℕ → Throttle → Bool
unfolding zline_time
expired cfg now tp =
    now == 0
    || not (tp.zline_start == 0) && leb (tp.zline_start + (zline_time tp.stage + cfg.rtime)) now
    || tp.zline_start == 0 && leb (tp.last + cfg.rtime) now

-- The loop of `throttle_timer`: `LIST_NEXT` is read before the record goes.
unfoldable pub sweep : Settings → ℕ → List Throttle → Throttles → Throttles
unfolding expired
sweep cfg now [] st = st
sweep cfg now (tp ∷ l) st = sweep cfg now l (if expired cfg now tp then drop_throttle tp st else st)

unfoldable pub throttle_timer : Settings → ℕ → Throttles → Throttles
unfolding sweep
throttle_timer cfg now st = if cfg.enable then sweep cfg now st.list st else st

unfoldable pub throttle_rehash : Settings → Throttles → Throttles
throttle_rehash cfg st = throttle_timer cfg 0 st

unfoldable pub throttle_resize : ℕ → Throttles → Throttles
throttle_resize size st = record st { hash = resize_hash_table st.hash size }
