-- ===== src/Sbuf/Shared.antt =====
-- The shared buffers of src/sbuf.c: who owns them, and what they add to a queue.
use solidircd.Base.{
  ℕ, ◌+◌, ◌≤◌, ◌<◌, ◌≡◌, ◌≢◌, refl, sym, subst, ap, ◌∙◌, ◌⊎◌, inl, inr, true, false, List, [], ◌∷◌,
  ◌++◌, ◌==◌, ltb, leb, Option, none, some, arith, length, length-append, length-take, take,
  Bool-cases,
}
use solidircd.Sbuf.Owned.{pooled, Owned, IsOwned, Live, Fits, Keeps}
use solidircd.Sbuf.Pool.{
  large_buffer, small_buffer, empty, or_else, alloc_large, take_large, sbuf_allocblock_large,
  initial_sbufs_large, sbuf_alloc, SBuffer, Pools, write,
}
use solidircd.Sbuf.Alloc.{Taken, sbuf_alloc-Taken}
use solidircd.Sbuf.Share.{sbuf_begin_share}

Large : Option (ℕ × Pools) → Type 0
Large none = Unit
Large (some (p, m)) = (m.bufs p).bufsize ≡ large_buffer

or_else-Large : (o next : Option (ℕ × Pools)) → Large o → Large next → Large (or_else o next)
unfolding Large
or_else-Large none next h h' = h'
or_else-Large (some r) next h h' = h

take_large-Large : (m : Pools) → Large (take_large m)
unfolding take_large Large
take_large-Large m =
    elim m.large_pool
      as (λ l. Large (elim l [
        | [] ↦ none
        | p ∷ rest ↦ some (
          p,
          record m {
            bufs = write p (empty large_buffer) m.bufs;
            large_pool = rest;
            large_used = m.large_used + 1;
          },
        )
      ])) [ [] ↦ tt | p ∷ rest ↦ ground arith ]

-- For 256 bytes and more there is a large buffer.
sbuf_alloc-Large : (size : ℕ) (m : Pools) → small_buffer ≤ size → Large (sbuf_alloc size m)
unfolding sbuf_alloc alloc_large
sbuf_alloc-Large size m h =
    let large : leb small_buffer size ≡ true = ground arith in
    rw large (
      or_else-Large (take_large m) (take_large (sbuf_allocblock_large initial_sbufs_large m))
        (take_large-Large m) (take_large-Large (sbuf_allocblock_large initial_sbufs_large m)))

-- What sbuf_begin_share puts into the buffer
abbrev pub message : List ℕ → List ℕ
message text = take 510 text ++ (b'\r' ∷ b'\n' ∷ [])

-- A buffer of an owned memory written anew stays owned, if it is right then.
pub write-IsOwned :
    (m : Pools) (refs : ℕ → ℕ) (p : ℕ) (b : SBuffer)
    → Live (record m { bufs = write p b m.bufs }) (refs p) p
    → ((q : ℕ) → q ≢ p → Owned m (refs q) q)
    → IsOwned (record m { bufs = write p b m.bufs }) refs
unfolding pooled
write-IsOwned m refs p b live others q = elim (Bool-cases (p == q)) [
  | inl e ↦
      let same : p ≡ q = ground arith in
      subst (λ x. Owned (record m { bufs = write p b m.bufs }) (refs x) x) same (inr (inr live))
  | inr e ↦ ground (arith, others q)
]

-- A buffer from sbuf_alloc is as large as was asked for.
alloc-fits :
    (size : ℕ) (m : Pools) (refs : ℕ → ℕ) (p : ℕ) (m1 : Pools)
    → size ≤ large_buffer
    → sbuf_alloc size m ≡ some (p, m1)
    → Taken m refs p m1
    → size ≤ (m1.bufs p).bufsize
unfolding Large
alloc-fits size m refs p m1 h e t =
    let has_size : (m1.bufs p).bufsize ≡ t.size = ap (λ (b : SBuffer). b.bufsize) t.ready in
    elim (Bool-cases (leb small_buffer size)) [
      | inl large ↦
          let wide : (m1.bufs p).bufsize ≡ large_buffer =
            subst Large e (sbuf_alloc-Large size m (ground arith)) in
          omega arith
      | inr small ↦
          let less : size < small_buffer = ground arith in
          elim t.fits [ inl f ↦ omega arith | inr f ↦ omega arith ]
    ]

abbrev begun : Pools → ℕ → List ℕ → Pools
begun m p text = record m {
  bufs = write p (record (m.bufs p) { bytes = message text; refcount = 0; shared = true }) m.bufs;
}

begun_self :
    (m : Pools) (p : ℕ) (text : List ℕ)
    → (((begun m p text).bufs p).bytes ≡ message text) × (((begun m p text).bufs p).shared ≡ true)
begun_self m p text = ground arith

not-below : (a b : ℕ) → b ≤ a → ltb a b ≡ false
not-below a b h = ground arith

begun-IsOwned :
    (m m1 : Pools) (refs : ℕ → ℕ) (p : ℕ) (text : List ℕ)
    → Taken m refs p m1
    → length (message text) ≤ (m1.bufs p).bufsize
    → IsOwned (begun m1 p text) refs × Keeps m (begun m1 p text)
unfolding pooled
begun-IsOwned m m1 refs p text t fits =
    let has_size : (m1.bufs p).bufsize ≡ t.size = ap (λ (b : SBuffer). b.bufsize) t.ready in
    let b : SBuffer = record (m1.bufs p) { bytes = message text; refcount = 0; shared = true } in
    let here : (begun m1 p text).bufs p ≡ b = ground arith in
    (
      write-IsOwned m1 refs p b
          (
            t.out,
            t.there,
            ap (λ (x : SBuffer). x.refcount) here ∙ sym t.unused,
            inr (ap (λ (x : SBuffer). x.shared) here),
            subst Fits (sym here)
                (fits, subst (λ n. (n ≡ large_buffer) ⊎ (n ≡ small_buffer)) (sym has_size) t.fits),
          )
          t.others,
      λ q a c.
          let (a1, c1, e1) = t.keeps q a c in
          let other = t.fresh q a c in
          let apart : (begun m1 p text).bufs q ≡ m1.bufs q = ground arith in (a1, c1, apart ∙ e1),
    )

-- sbuf_begin_share always has a buffer, of no user yet: it holds the first 510 bytes of the message
-- and an end mark. Every buffer is owned, and those in use are as they were.
pub sbuf_begin_share_lem :
    (m : Pools) (refs : ℕ → ℕ) (text : List ℕ)
    → IsOwned m refs
    → (p : ℕ) × (m' : Pools) × (sbuf_begin_share text m ≡ some (p, m'))
      × IsOwned m' refs
      × (refs p ≡ 0)
      × ((m'.bufs p).bytes ≡ message text)
      × ((m'.bufs p).shared ≡ true)
      × Keeps m m'
unfolding sbuf_begin_share
sbuf_begin_share_lem m refs text own =
    let size = length (take 510 text) + 2 in
    let (p, m1, e, t) = sbuf_alloc-Taken size m refs own in
    let bound : size ≤ large_buffer = omega (arith, length-take 510 text) in
    let fits = alloc-fits size m refs p m1 bound e t in
    let full : length (message text) ≤ (m1.bufs p).bufsize =
      omega (arith, fits, length-append (take 510 text) (b'\r' ∷ b'\n' ∷ [])) in
    let enough : ltb (m1.bufs p).bufsize size ≡ false = not-below (m1.bufs p).bufsize size fits in
    let (own', keeps) = begun-IsOwned m m1 refs p text t full in
    (
      p,
      begun m1 p text,
      rw (e, enough) refl,
      own',
      t.unused,
      (begun_self m1 p text).0,
      (begun_self m1 p text).1,
      keeps,
    )
