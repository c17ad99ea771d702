-- ===== src/Watch/Calls.antt =====
-- add_to_watch_hash_table and del_from_watch_hash_table of src/hash.c.
use solidircd.Base.{
  ℕ, ◌≡◌, refl, sym, ap, ◌∙◌, subst, true, false, List, [], ◌∷◌, ◌==◌, if◌then◌else◌, none, some,
  arith, Bool-cases, Option-cases, inl, inr,
}
use solidircd.Hash.{same_name}
use solidircd.HashTable.{is_zero}
use solidircd.Match.Compare.{Bytes, mycmp}
use solidircd.Watch.{
  Header, Watches, hashv, has, find_header, hash_get_watch, new_header, link, leave, add_to,
  del_from, add_to_watch_hash_table, del_from_watch_hash_table,
}
use solidircd.Watch.Linked.{
  IsLinked, link-IsLinked, unlink-IsLinked, new_header-IsLinked, find_header-has,
}

-- The client stands in the list of the header of the nickname.
abbrev pub Watching : Watches → Bytes → ℕ → Type 0
Watching w nick cptr =
    (p : ℕ) × (hash_get_watch w nick ≡ some p) × (has cptr (w.headers p).watch ≡ true)

find_header-same :
    (f g : ℕ → Header) (nick : Bytes) (l : List ℕ)
    → ((p : ℕ) → (f p).nick ≡ (g p).nick)
    → find_header f nick l ≡ find_header g nick l
unfolding find_header
find_header-same f g nick [] h = refl
find_header-same f g nick (x ∷ l) h =
    ap (λ s. if same_name s nick then some x else find_header f nick l) (h x)
    ∙ ap (λ o. if same_name (g x).nick nick then some x else o) (find_header-same f g nick l h)

link-keeps :
    (p cptr : ℕ) (w : Watches)
    → ((q : ℕ) → ((link p cptr w).headers q).nick ≡ (w.headers q).nick)
      × ((h : ℕ) → (link p cptr w).table h ≡ w.table h)
      × (has cptr ((link p cptr w).headers p).watch ≡ true)
unfolding link has
link-keeps p cptr w = elim (Bool-cases (has cptr (w.headers p).watch)) [
  | inl e ↦ rw e (λ q. refl, λ h. refl, e)
  | inr e ↦ rw e (λ q. ground arith, λ h. refl, ground arith)
]

link-Watching :
    (p cptr : ℕ) (nick : Bytes) (w : Watches)
    → hash_get_watch w nick ≡ some p
    → Watching (link p cptr w) nick cptr
unfolding hash_get_watch
link-Watching p cptr nick w e =
    let (nicks, tables, here) = link-keeps p cptr w in
    (
      p,
      ap (find_header (link p cptr w).headers nick) (tables (hashv nick))
          ∙ find_header-same (link p cptr w).headers w.headers nick (w.table (hashv nick)) nicks
          ∙ e,
      here,
    )

same_name_self : (s : Bytes) → same_name s s ≡ true
unfolding mycmp
same_name_self s = go s
  where
    go : (s : Bytes) → is_zero (mycmp s s) ≡ true
    go [] = ground arith
    go (c ∷ s) = ground (arith, go s)

new_header-found :
    (at now : ℕ) (nick : Bytes) (w : Watches)
    → (hash_get_watch (new_header at now nick w) nick ≡ some at)
      × (has at
            ((new_header at now nick w).table (hashv ((new_header at now nick w).headers at).nick))
          ≡ true)
unfolding hash_get_watch find_header has
new_header-found at now nick w =
    let self = same_name_self nick in
    let here : (at == at) ≡ true = ground arith in
    let bucket : (hashv nick == hashv nick) ≡ true = ground arith in
    (rw (bucket, here, self) refl, rw (here, bucket, here) refl)

get-find :
    (w : Watches) (nick : Bytes) (p : ℕ)
    → hash_get_watch w nick ≡ some p
    → find_header w.headers nick (w.table (hashv nick)) ≡ some p
unfolding hash_get_watch
get-find w nick p e = e

abbrev Added : Watches → Bytes → ℕ → Type 0
Added w nick cptr = IsLinked w × Watching w nick cptr

-- At a new address for a header, which no client links to and no chain has: after
-- add_to_watch_hash_table the client stands in the list of the header of the nickname, and headers
-- and clients still point to each other, each once, with the number of the links right.
pub add_to_watch-IsLinked :
    (at now : ℕ) (nick : Bytes) (cptr : ℕ) (w : Watches)
    → IsLinked w
    → ((c : ℕ) → has at (w.links c) ≡ false)
    → ((h : ℕ) → has at (w.table h) ≡ false)
    → IsLinked (add_to_watch_hash_table at now nick cptr w)
      × Watching (add_to_watch_hash_table at now nick cptr w) nick cptr
unfolding add_to_watch_hash_table add_to
add_to_watch-IsLinked at now nick cptr w v fresh_links fresh_table =
    elim (Option-cases (hash_get_watch w nick)) [
      | inl e ↦
          let (found, there) = new_header-found at now nick w in
          subst (λ o. Added (add_to at now nick cptr w o) nick cptr) (sym e)
            (
              link-IsLinked at cptr (new_header at now nick w)
                  (new_header-IsLinked at now nick w v fresh_links fresh_table) there,
              link-Watching at cptr nick (new_header at now nick w) found,
            )
      | inr (p, e) ↦
          let inside =
            find_header-has w.headers nick (w.table (hashv nick)) p (get-find w nick p e) in
          let there : has p (w.table (hashv (w.headers p).nick)) ≡ true =
            subst (λ h. has p (w.table h) ≡ true) (sym (v.chained (hashv nick) p inside)) inside in
          subst (λ o. Added (add_to at now nick cptr w o) nick cptr) (sym e)
            (link-IsLinked p cptr w v there, link-Watching p cptr nick w e)
    ]

del_from-none : (cptr : ℕ) (w : Watches) → IsLinked w → IsLinked (del_from cptr w none)
unfolding del_from
del_from-none cptr w v = v

del_from-IsLinked :
    (p cptr : ℕ) (w : Watches)
    → IsLinked w
    → IsLinked (del_from cptr w (some p))
      × (has cptr ((del_from cptr w (some p)).headers p).watch ≡ false)
unfolding del_from leave
del_from-IsLinked p cptr w v = elim (Bool-cases (has cptr (w.headers p).watch)) [
  | inl e ↦
      let here : (p == p) ≡ true = ground arith in
      rw e (unlink-IsLinked p cptr w v e, rw here (v.watch_once p cptr))
  | inr e ↦ rw e (v, e)
]

-- After del_from_watch_hash_table the client does not stand in the list of the header that the
-- nickname had, and headers and clients still point to each other, each once, with the number of the
-- links right.
pub del_from_watch-IsLinked :
    (nick : Bytes) (cptr : ℕ) (w : Watches)
    → IsLinked w
    → IsLinked (del_from_watch_hash_table nick cptr w)
      × ((p : ℕ)
          → hash_get_watch w nick ≡ some p
          → has cptr ((del_from_watch_hash_table nick cptr w).headers p).watch ≡ false)
unfolding del_from_watch_hash_table
del_from_watch-IsLinked nick cptr w v = (
  elim (Option-cases (hash_get_watch w nick)) [
    | inl e ↦ subst (λ o. IsLinked (del_from cptr w o)) (sym e) (del_from-none cptr w v)
    | inr (p, e) ↦
        subst (λ o. IsLinked (del_from cptr w o)) (sym e) (del_from-IsLinked p cptr w v).0
  ],
  λ p e.
      subst (λ o. has cptr ((del_from cptr w o).headers p).watch ≡ false) (sym e)
        (del_from-IsLinked p cptr w v).1,
)
