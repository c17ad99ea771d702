-- ===== src/Whowas.antt =====
-- src/whowas.c: the history of nicknames.
--
-- An entry is known by its place in `WHOWAS`, a client by its address. The links are kept beside the
-- entries, one set for the lists of `WHOWASHASH` (Pointers), one for those of the clients. Delete and
-- Chains are about single lists and all lists, Lists about the calls that change them, Ring about
-- the order of the places, Select about single lists in that order. Order, Off and Recall are about the
-- functions of this file, Runs about all of them, Last and Added about what the ring holds. m_whowas only prints.
pub mod Pointers
pub mod Delete
pub mod Chains
pub mod Lists
pub mod Ring
pub mod Order
pub mod Select
pub mod Off
pub mod Recall
pub mod Runs
pub mod Last
pub mod Added
mod Tests
use solidircd.Base.{
  ℕ, zero, suc, ◌+◌, ◌-◌, Bool, true, false, List, [], Option, none, some, ◌==◌, ltb, not, ◌&&◌,
  if◌then◌else◌, take,
}
use solidircd.Hash.{hash_whowas_name, same_name}
use solidircd.Match.Compare.{Bytes}
use solidircd.Scache.{hostlen}
use solidircd.Whowas.Pointers.{Links, put_one, add_whowas_to_list, del_whowas_from_list}

abbrev pub nicknamehistorylength : ℕ
nicknamehistorylength = 2048

abbrev pub nicklen : ℕ
nicklen = 30

abbrev pub userlen : ℕ
userlen = 10

abbrev pub reallen : ℕ
reallen = 50

-- `aWhowas` without its links; `hashv` is -1 in an entry that was never used.
pub record Whowas : Type 0 where
  pub hashv : Option ℕ
  pub name : Bytes
  pub username : Bytes
  pub hostname : Bytes
  pub realhost : Bytes
  pub servername : Bytes
  pub realname : Bytes
  pub logoff : ℕ
  pub umode : ℕ
  pub online : Option ℕ

-- What is read of an `aClient` and its `anUser`
pub record Person : Type 0 where
  pub at : ℕ
  pub name : Bytes
  pub username : Bytes
  pub host : Bytes
  pub user_realhost : Option Bytes
  pub sockhost : Bytes
  pub info : Bytes
  pub server : Bytes
  pub umode : ℕ
  pub is_mine : Bool

pub record History : Type 0 where
  pub entry : ℕ → Whowas
  pub list : Links
  pub clist : Links
  pub whowas_next : ℕ

abbrev pub zeroed : Whowas
zeroed = record {
  hashv = none;
  name = [];
  username = [];
  hostname = [];
  realhost = [];
  servername = [];
  realname = [];
  logoff = 0;
  umode = 0;
  online = none;
}

abbrev pub no_links : Links
no_links = record { next = λ i. none; prev = λ i. none; head = λ b. none }

-- `initwhowas`; no client has a list yet.
unfoldable pub initwhowas : History
initwhowas = record { entry = λ i. zeroed; list = no_links; clist = no_links; whowas_next = 0 }

-- `del_whowas_from_clist(&(new->online->whowas), new)`, when it is online
unfoldable pub forget_online : ℕ → Option ℕ → History → History
unfolding del_whowas_from_list
forget_online new none h = h
forget_online new (some client) h = record h { clist = del_whowas_from_list client new h.clist }

-- What is done first with an entry that was used before
unfoldable pub forget : ℕ → Option ℕ → History → History
unfolding forget_online del_whowas_from_list
forget new none h = h
forget new (some hashv) h =
    let offline = forget_online new (h.entry new).online h in
    record offline { list = del_whowas_from_list hashv new offline.list }

-- `strncpyzt`: as many bytes as fit before the terminator
abbrev pub strncpyzt : Bytes → ℕ → Bytes
strncpyzt s n = take (n - 1) s

abbrev pub or_host : Option Bytes → Bytes → Bytes
or_host none host = host
or_host (some realhost) host = realhost

-- The entry as `add_history` leaves it
unfoldable pub entry_of : ℕ → Bool → Person → Whowas
unfolding hash_whowas_name
entry_of now online cptr = record {
  hashv = some (hash_whowas_name cptr.name);
  name = strncpyzt cptr.name (nicklen + 1);
  username = strncpyzt cptr.username (userlen + 1);
  hostname = strncpyzt cptr.host hostlen;
  realhost =
      strncpyzt (if cptr.is_mine then cptr.sockhost else or_host cptr.user_realhost cptr.host)
        hostlen;
  servername = cptr.server;
  realname = strncpyzt cptr.info reallen;
  logoff = now;
  umode = cptr.umode;
  online = if online then some cptr.at else none;
}

-- `whowas_next++`, and back to 0 at the end
unfoldable pub step_next : ℕ → ℕ
step_next i = if i + 1 == nicknamehistorylength then 0 else i + 1

unfoldable pub add_history : ℕ → Bool → Person → History → History
unfolding forget entry_of step_next add_whowas_to_list put_one
add_history now online cptr h =
    let new = h.whowas_next in
    let forgotten = forget new (h.entry new).hashv h in
    record {
      entry = put_one new (entry_of now online cptr) forgotten.entry;
      list = add_whowas_to_list (hash_whowas_name cptr.name) new forgotten.list;
      clist = if online then add_whowas_to_list cptr.at new forgotten.clist else forgotten.clist;
      whowas_next = step_next new;
    }

-- One entry of a client that goes
unfoldable pub set_offline : ℕ → ℕ → History → History
unfolding del_whowas_from_list put_one
set_offline client temp h = record h {
  entry = put_one temp (record (h.entry temp) { online = none }) h.entry;
  clist = del_whowas_from_list client temp h.clist;
}

-- The loop of `off_history`; `next` is read first.
unfoldable pub off_from : ℕ → ℕ → Option ℕ → History → Option History
unfolding set_offline
off_from fuel client none h = some h
off_from zero client (some temp) h = none
off_from (suc fuel) client (some temp) h =
    off_from fuel client (h.clist.next temp) (set_offline client temp h)

unfoldable pub off_history : ℕ → History → Option History
unfolding off_from
off_history client h = off_from nicknamehistorylength client (h.clist.head client) h

-- Whether an entry is the one that `get_history` looks for
unfoldable pub is_hit : Bytes → ℕ → ℕ → Whowas → Bool
is_hit nick now timelimit temp = same_name nick temp.name && not (ltb (temp.logoff + timelimit) now)

-- The loop of `get_history`: NULL, and the `online` of an entry, which may be NULL too
unfoldable pub find_from : ℕ → Bytes → ℕ → ℕ → History → Option ℕ → Option (Option ℕ)
unfolding is_hit
find_from fuel nick now timelimit h none = some none
find_from zero nick now timelimit h (some temp) = none
find_from (suc fuel) nick now timelimit h (some temp) =
    let later = find_from fuel nick now timelimit h (h.list.next temp) in
    if is_hit nick now timelimit (h.entry temp) then some (h.entry temp).online else later

unfoldable pub get_history : Bytes → ℕ → ℕ → History → Option (Option ℕ)
unfolding find_from hash_whowas_name
get_history nick timelimit now h =
    find_from nicknamehistorylength nick now timelimit h (h.list.head (hash_whowas_name nick))
