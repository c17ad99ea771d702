-- ===== src/Clones.antt =====
-- src/clones.c: the limits on clients from one host and from one site (its /24).
--
-- `clones_list` is the list of the entries that are alive, each with its address; a pointer is an
-- address, and the entries stand in the hash table by theirs. The chain of an entry's clients
-- (clone.prev, clone.next) is the list of their addresses: a client leaves the chain of the entry
-- of its host, where clones_add put it. Counts are signed, limits are not negative, since
-- clones_set refuses negative ones. BlockHeapALLOC gives the addresses of new entries, which are
-- arguments.
pub mod Decision
mod Tests
use solidircd.Base.{
  ℕ, zero, suc, ◌+◌, ◌-◌, Bool, true, false, List, [], ◌∷◌, ◌==◌, ltb, leb, ◌&&◌, ◌||◌, not,
  if◌then◌else◌, Option, none, some, ◌>>=◌, length,
}
use solidircd.Base.Int.{ℤ, pos, negsuc, inc, ltb_ℤ}
use solidircd.HashTable.{HashTable, Ent, create_hash_table, hash_insert, hash_delete, hash_find}
use solidircd.Match.Compare.{Bytes}
use solidircd.Throttle.{Throttles, throttle_force, throttle_hashsize, hostiplen}

-- `CloneEnt`
pub record CloneEnt : Type 0 where
  pub at : ℕ
  pub ent : Bytes
  pub clients : List ℕ
  pub lcount : ℤ
  pub gcount : ℤ
  pub limit : ℕ
  pub sllimit : ℕ
  pub sglimit : ℕ

-- `clones_stat`
pub record CloneStat : Type 0 where
  pub rlh : ℕ
  pub rls : ℕ
  pub rgh : ℕ
  pub rgs : ℕ

-- `clones_list`, `clones_hashtable`, `clones_stat`
pub record Clones : Type 0 where
  pub list : List CloneEnt
  pub hash : HashTable
  pub stat : CloneStat

-- The four default limits, and of the client's class `connfreq` and `ip24clones`
pub record Limits : Type 0 where
  pub local_ip_limit : ℕ
  pub local_ip24_limit : ℕ
  pub global_ip_limit : ℕ
  pub global_ip24_limit : ℕ
  pub connfreq : ℕ
  pub ip24clones : ℕ

-- `dec` of a count
unfoldable pub dec : ℤ → ℤ
dec (pos zero) = negsuc 0
dec (pos (suc n)) = pos n
dec (negsuc n) = negsuc (suc n)

abbrev pub is_nil : ℤ → Bool
is_nil z = not (ltb_ℤ z (pos 0)) && not (ltb_ℤ (pos 0) z)

-- `clones_init`
pub clones_init : Clones
clones_init = record {
  list = [];
  hash = create_hash_table throttle_hashsize hostiplen false;
  stat = record { rlh = 0; rls = 0; rgh = 0; rgs = 0 };
}

abbrev pub ent_of : CloneEnt → Ent
ent_of ce = record { at = ce.at; key = ce.ent }

unfoldable pub entry_at : ℕ → List CloneEnt → Option CloneEnt
entry_at p [] = none
entry_at p (ce ∷ l) = if ce.at == p then some ce else entry_at p l

unfoldable pub write : CloneEnt → List CloneEnt → List CloneEnt
write new [] = []
write new (ce ∷ l) = if ce.at == new.at then new ∷ l else ce ∷ write new l

unfoldable pub unlink : ℕ → List CloneEnt → List CloneEnt
unlink p [] = []
unlink p (ce ∷ l) = if ce.at == p then l else ce ∷ unlink p l

-- The memset and strcpy of `get_clone`
abbrev pub new_clone : ℕ → Bytes → CloneEnt
new_clone at key = record {
  at = at;
  ent = key;
  clients = [];
  lcount = pos 0;
  gcount = pos 0;
  limit = 0;
  sllimit = 0;
  sglimit = 0;
}

-- `expire_clone`
unfoldable pub expire_clone : CloneEnt → Clones → Clones
unfolding unlink
expire_clone ce st =
    if not (is_nil ce.gcount)
      || not (ce.limit == 0)
      || not (ce.sllimit == 0)
      || not (ce.sglimit == 0)
    then st
    else record st { list = unlink ce.at st.list; hash = (hash_delete st.hash (ent_of ce)).1 }

-- `get_clones`: the site of an address, which is the text up to the last dot and a star behind it.
-- `none` is the write through a null pointer, for a text without a dot.
unfoldable pub site : Bytes → Option Bytes
site [] = none
site (c ∷ s) =
    let rest = site s in
    elim rest [ some t ↦ some (c ∷ t) | none ↦ if c == b'.' then some (b'.' ∷ b'*' ∷ []) else none ]

-- The word in a report
pub data Source : Type 0 where
  soft by_class by_default hard : Source

-- What `report_lclone` and `report_gclone` tell the operators.
pub record Report : Type 0 where
  pub is_local : Bool
  pub is24 : Bool
  pub entry : CloneEnt
  pub limit : ℕ
  pub source : Source

abbrev pub reached : ℤ → ℕ → Bool
reached count limit = not (ltb_ℤ count (pos limit))

-- `if (count >= limit) return report_…`
abbrev pub refuse : Bool → Bool → CloneEnt → ℕ → Source → Option Report
refuse is_local is24 ce limit source =
    if reached (if is_local then ce.lcount else ce.gcount) limit
    then some
        (record { is_local = is_local; is24 = is24; entry = ce; limit = limit; source = source })
    else none

-- `return` of the first report, else on to the next check
abbrev pub or_on : Option Report → Option Report → Option Report
or_on none next = next
or_on (some r) next = some r

-- `lpri` and `gpri`
unfoldable pub local_priority : Limits → Option CloneEnt → ℕ
local_priority lim none = 0
local_priority lim (some ceip) =
    if not (ceip.sllimit == 0) then 3 else if not (lim.connfreq == 0) then 2 else 1

unfoldable pub global_priority : Option CloneEnt → ℕ
global_priority none = 0
global_priority (some ceip) =
    if not (ceip.sglimit == 0) then 3 else if not (ceip.limit == 0) then 2 else 1

-- The checks of `clones_check` on the entry of the host
unfoldable pub check_ip : Limits → Option CloneEnt → Option Report
check_ip lim none = none
check_ip lim (some ceip) =
    or_on
      (if not (ceip.sllimit == 0)
        then refuse true false ceip ceip.sllimit soft
        else if not (lim.connfreq == 0)
        then refuse true false ceip lim.connfreq by_class
        else refuse true false ceip lim.local_ip_limit by_default)
      (if not (ceip.sglimit == 0)
        then refuse false false ceip ceip.sglimit soft
        else if not (ceip.limit == 0)
        then refuse false false ceip ceip.limit hard
        else refuse false false ceip lim.global_ip_limit by_default)

-- The checks of `clones_check` on the entry of the site
unfoldable pub check_site : Limits → ℕ → ℕ → Option CloneEnt → Option Report
check_site lim lpri gpri none = none
check_site lim lpri gpri (some ce24) =
    or_on
      (if not (ce24.sllimit == 0)
        then refuse true true ce24 ce24.sllimit soft
        else if leb lpri 2 && not (lim.ip24clones == 0)
        then refuse true true ce24 lim.ip24clones by_class
        else if leb lpri 1
        then refuse true true ce24 lim.local_ip24_limit by_default
        else none)
      (if not (ce24.sglimit == 0)
        then refuse false true ce24 ce24.sglimit soft
        else if not (ce24.limit == 0)
        then refuse false true ce24 ce24.limit hard
        else if leb gpri 1
        then refuse false true ce24 lim.global_ip24_limit by_default
        else none)

unfoldable pub check_limits : Limits → Option CloneEnt → Option CloneEnt → Option Report
unfolding check_ip check_site local_priority global_priority
check_limits lim ceip ce24 =
    or_on (check_ip lim ceip) (check_site lim (local_priority lim ceip) (global_priority ceip) ce24)

-- `return (is24 ? 2 : 1)`, and 0 at the end of `clones_check`
unfoldable pub code : Option Report → ℕ
code none = 0
code (some r) = if r.is24 then 2 else 1

-- The counters of `report_lclone` and `report_gclone`
unfoldable pub count_report : Report → CloneStat → CloneStat
count_report r stat =
    if r.is_local
    then if r.is24 then record stat { rls = stat.rls + 1 } else record stat { rlh = stat.rlh + 1 }
    else if r.is24
    then record stat { rgs = stat.rgs + 1 }
    else record stat { rgh = stat.rgh + 1 }

-- `CLIM_HARD_GLOBAL`, `CLIM_SOFT_GLOBAL`, `CLIM_SOFT_LOCAL`
pub data LimitType : Type 0 where
  hard_global soft_global soft_local : LimitType

-- The switch of `clones_set`: the old value, and the entry with the new one
unfoldable pub set_limit : LimitType → ℕ → CloneEnt → ℕ × CloneEnt
set_limit hard_global limit ce =
    let sg = if not (limit == 0) && ltb limit ce.sglimit then 0 else ce.sglimit in
    (ce.limit, record ce { limit = limit; sglimit = sg })
set_limit soft_global limit ce = (ce.sglimit, record ce { sglimit = limit })
set_limit soft_local limit ce = (ce.sllimit, record ce { sllimit = limit })

-- The counting of `clones_add` and `clones_remove`
unfoldable pub count_in : Bool → CloneEnt → CloneEnt
count_in is_local ce = record ce {
  gcount = inc ce.gcount;
  lcount = if is_local then inc ce.lcount else ce.lcount;
}

unfoldable pub count_out : Bool → CloneEnt → CloneEnt
unfolding dec
count_out is_local ce = record ce {
  gcount = dec ce.gcount;
  lcount = if is_local then dec ce.lcount else ce.lcount;
}

unfoldable pub leave : ℕ → List ℕ → List ℕ
leave cptr [] = []
leave cptr (c ∷ l) = if c == cptr then l else c ∷ leave cptr l

module _ (cmp : Bytes → Bytes → ℤ) where
  -- `get_clone` without and with `create`. The outer `none` is a pointer to no entry.
  unfoldable pub find_clone : Bytes → Clones → Option (Option CloneEnt)
  unfolding entry_at
  find_clone key st = elim (hash_find cmp st.hash key) [
    | none ↦ some none
    | some e ↦ elim (entry_at e.at st.list) [ none ↦ none | some ce ↦ some (some ce) ]
  ]

  unfoldable pub get_clone : ℕ → Bytes → Clones → Option (CloneEnt × Clones)
  get_clone at key st = elim (find_clone key st) [
    | none ↦ none
    | some none ↦
        let ce = new_clone at key in
        some (ce, record st { list = ce ∷ st.list; hash = hash_insert st.hash (ent_of ce) })
    | some (some ce) ↦ some (ce, st)
  ]

  -- `clones_check`: the code, the state, the throttles after throttle_force, the report
  unfoldable pub clones_check :
      Limits → ℕ → ℕ → Bytes → Clones → Throttles → Option (ℕ × Clones × Throttles × Option Report)
  unfolding check_limits code count_report site
  clones_check lim now at hostip st throttles = do
    key ← site hostip
    ceip ← find_clone hostip st
    ce24 ← find_clone key st
    let r = check_limits lim ceip ce24
    elim r [
      | none ↦ some (0, st, throttles, none)
      | some report ↦ elim (throttle_force cmp now at hostip throttles) [
        | none ↦ none
        | some throttles' ↦ some (
          code (some report),
          record st { stat = count_report report st.stat },
          throttles',
          some report,
        )
      ]
    ]

  -- `clones_add`, for a client at an address; `is_local` is MyConnect
  unfoldable pub clones_add : ℕ → ℕ → ℕ → Bool → Bytes → Clones → Option Clones
  unfolding write count_in site
  clones_add at at24 cptr is_local hostip st = do
    key ← site hostip
    (ceip, st') ← get_clone at hostip st
    (ce24, st'') ← get_clone at24 key st'
    let ip = count_in is_local (record ceip { clients = cptr ∷ ceip.clients })
    some (record st'' { list = write (count_in is_local ce24) (write ip st''.list) })

  -- `clones_remove`; `is_local` is `uplink == &me`. A missing entry is a null pointer.
  unfoldable pub clones_remove : ℕ → Bool → Bytes → Clones → Option Clones
  unfolding write count_out leave site expire_clone
  clones_remove cptr is_local hostip st = do
    key ← site hostip
    found ← find_clone hostip st
    found24 ← find_clone key st
    ceip ← found
    ce24 ← found24
    let ip = count_out is_local (record ceip { clients = leave cptr ceip.clients })
    let ip24 = count_out is_local ce24
    some (expire_clone ip24 (expire_clone ip (record st { list = write ip24 (write ip st.list) })))

  -- `clones_set`: -1 for a text that is too long or a negative limit, else the old value
  unfoldable pub clones_set : ℕ → Bytes → LimitType → ℤ → Clones → Option (ℤ × Clones)
  unfolding set_limit write expire_clone
  clones_set at ent type (negsuc n) st = some (negsuc 0, st)
  clones_set at ent type (pos limit) st =
      if ltb hostiplen (length ent) then some (negsuc 0, st) else elim (get_clone at ent st) [
        | none ↦ none
        | some (ce, st') ↦
            let (old, ce') = set_limit type limit ce in
            some (pos old, expire_clone ce' (record st' { list = write ce' st'.list }))
      ]

  -- `clones_get`: the hard global, soft global and soft local limit
  unfoldable pub clones_get : Bytes → Clones → Option (ℕ × ℕ × ℕ)
  unfolding find_clone
  clones_get ent st = elim (find_clone ent st) [
    | none ↦ none
    | some none ↦ some (0, 0, 0)
    | some (some ce) ↦ some (ce.limit, ce.sglimit, ce.sllimit)
  ]

-- `clones_send`: the entries whose hard limits go out to a server
unfoldable pub clones_send : List CloneEnt → List (Bytes × ℕ)
clones_send [] = []
clones_send (ce ∷ l) =
    let rest = clones_send l in if ce.limit == 0 then rest else (ce.ent, ce.limit) ∷ rest
