-- ===== src/Watch.antt =====
-- The watch lists of src/hash.c: who is told when a nickname comes and goes.
--
-- A header and a client are known by their addresses. The state is the memory of the headers, the
-- chains of the table, and of every client the links to the headers that it watches, with their
-- number. The messages to clients and operators have no part in it. `none` is a walk past the end of
-- a chain.
pub mod Linked
pub mod Calls
pub mod Leaving
mod Tests
use solidircd.Base.{
  ℕ, zero, suc, ◌+◌, ◌-◌, ◌%◌, Bool, true, false, List, [], ◌∷◌, ◌==◌, ◌&&◌, not, if◌then◌else◌,
  Option, none, some, ◌>>=◌,
}
use solidircd.Hash.{hash_nick_name, same_name}
use solidircd.Match.Compare.{Bytes}

abbrev pub watchhashsize : ℕ
watchhashsize = 10_007

-- `aWatch`; `hnext` is the order of the chain.
pub record Header : Type 0 where
  pub lasttime : ℕ
  pub nick : Bytes
  pub watch : List ℕ

pub record Watches : Type 0 where
  pub headers : ℕ → Header
  pub table : ℕ → List ℕ
  pub links : ℕ → List ℕ
  pub counts : ℕ → ℕ

-- A write to one place
abbrev pub put_at : {A : Type 0} → ℕ → A → (ℕ → A) → ℕ → A
put_at p a f q = if q == p then a else f q

abbrev pub hashv : Bytes → ℕ
hashv nick = hash_nick_name nick % watchhashsize

-- The searches of a chain, of a list of clients and of a list of headers
unfoldable pub find_header : (ℕ → Header) → Bytes → List ℕ → Option ℕ
find_header headers nick [] = none
find_header headers nick (p ∷ l) =
    if same_name (headers p).nick nick then some p else find_header headers nick l

unfoldable pub has : ℕ → List ℕ → Bool
has p [] = false
has p (q ∷ l) = if q == p then true else has p l

-- A list without the first such element
unfoldable pub without : ℕ → List ℕ → List ℕ
without p [] = []
without p (q ∷ l) = if q == p then l else q ∷ without p l

-- `hash_get_watch`
unfoldable pub hash_get_watch : Watches → Bytes → Option ℕ
unfolding find_header
hash_get_watch w name = find_header w.headers name (w.table (hashv name))

-- A new header, which MyMalloc puts at this address
abbrev pub new_header : ℕ → ℕ → Bytes → Watches → Watches
new_header at now nick w = record w {
  headers = put_at at (record { lasttime = now; nick = nick; watch = [] }) w.headers;
  table = put_at (hashv nick) (at ∷ w.table (hashv nick)) w.table;
}

-- The client and the header come to watch each other, if they do not.
unfoldable pub link : ℕ → ℕ → Watches → Watches
unfolding has
link p cptr w =
    let a = w.headers p in
    if has cptr a.watch then w else record w {
      headers = put_at p (record a { watch = cptr ∷ a.watch }) w.headers;
      links = put_at cptr (p ∷ w.links cptr) w.links;
      counts = put_at cptr (w.counts cptr + 1) w.counts;
    }

-- For the header that the search has found, or a new one
unfoldable pub add_to : ℕ → ℕ → Bytes → ℕ → Watches → Option ℕ → Watches
unfolding link
add_to at now nick cptr w none = link at cptr (new_header at now nick w)
add_to at now nick cptr w (some p) = link p cptr w

unfoldable pub add_to_watch_hash_table : ℕ → ℕ → Bytes → ℕ → Watches → Watches
unfolding hash_get_watch add_to
add_to_watch_hash_table at now nick cptr w = add_to at now nick cptr w (hash_get_watch w nick)

abbrev pub is_nil : List ℕ → Bool
is_nil [] = true
is_nil (c ∷ cs) = false

-- The header loses a client, and the table a header that has no client left.
unfoldable pub leave : ℕ → ℕ → Watches → Watches
unfolding without
leave p cptr w =
    let a = w.headers p in
    let watch = without cptr a.watch in
    let emptied = put_at (hashv a.nick) (without p (w.table (hashv a.nick))) w.table in
    record w {
      headers = put_at p (record a { watch = watch }) w.headers;
      table = if is_nil watch then emptied else w.table;
    }

-- The links of the client lose the header, and their number is counted down.
abbrev pub unlink : ℕ → ℕ → Watches → Watches
unlink p cptr w = record w {
  links = put_at cptr (without p (w.links cptr)) w.links;
  counts = put_at cptr (w.counts cptr - 1) w.counts;
}

unfoldable pub del_from : ℕ → Watches → Option ℕ → Watches
unfolding leave has
del_from cptr w none = w
del_from cptr w (some p) =
    if has cptr (w.headers p).watch then leave p cptr (unlink p cptr w) else w

unfoldable pub del_from_watch_hash_table : Bytes → ℕ → Watches → Watches
unfolding hash_get_watch del_from
del_from_watch_hash_table nick cptr w = del_from cptr w (hash_get_watch w nick)

-- The loop of `hash_del_watch_list` over the links that the client had
unfoldable pub leave_all : List ℕ → ℕ → Watches → Option Watches
unfolding leave has
leave_all [] cptr w = some w
leave_all (p ∷ np) cptr w =
    let later = leave_all np cptr (leave p cptr w) in
    let skipped = leave_all np cptr w in
    let found = has p (w.table (hashv (w.headers p).nick)) in
    if not (has cptr (w.headers p).watch)
    then skipped
    else if not found && is_nil (without cptr (w.headers p).watch)
    then none
    else later

-- For the links that the client has; one without links keeps its number.
unfoldable pub del_links : ℕ → Watches → List ℕ → Option Watches
unfolding leave_all
del_links cptr w [] = some w
del_links cptr w (p ∷ np) =
    leave_all (p ∷ np) cptr (record w { links = put_at cptr [] w.links }) >>= λ w'.
    some (record w' { counts = put_at cptr 0 w'.counts })

unfoldable pub hash_del_watch_list : ℕ → Watches → Option Watches
unfolding del_links
hash_del_watch_list cptr w = del_links cptr w (w.links cptr)

-- `hash_check_watch`: the clients that are told, and the time of the change
unfoldable pub hash_check_watch : ℕ → Bytes → Watches → List ℕ × Watches
unfolding hash_get_watch
hash_check_watch now name w = elim (hash_get_watch w name) [
  | none ↦ ([], w)
  | some p ↦ (
    (w.headers p).watch,
    record w { headers = put_at p (record (w.headers p) { lasttime = now }) w.headers },
  )
]
