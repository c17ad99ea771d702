-- ===== src/Watch/Linked.antt =====
-- Headers and clients of the watch lists of src/hash.c point to each other.
use solidircd.Base.{
  ℕ, ◌-◌, ◌<◌, ◌≡◌, ◌≢◌, refl, sym, ap, ◌∙◌, subst, Bool, true, false, List, [], ◌∷◌, ◌==◌,
  if◌then◌else◌, some, length, arith, Bool-cases, inl, inr,
}
use solidircd.Hash.{same_name}
use solidircd.Match.Compare.{Bytes}
use solidircd.Watch.{
  Header, Watches, put_at, hashv, has, without, find_header, new_header, link, leave, is_nil,
}

pub has-without : (p q : ℕ) (l : List ℕ) → p ≢ q → has q (without p l) ≡ has q l
unfolding has without
has-without p q [] d = refl
has-without p q (x ∷ l) d = ground (arith, has-without p q l d)

pub length-without : (p : ℕ) (l : List ℕ) → has p l ≡ true → length (without p l) ≡ length l - 1
unfolding has without
length-without p [] h = cc
length-without p (x ∷ l) h = ground (arith, length-without p l, has-length p l)
  where
    has-length : (p : ℕ) (l : List ℕ) → has p l ≡ true → 0 < length l
    has-length p [] h = cc
    has-length p (x ∷ l) h = omega arith

-- An element stands in the list once at most.
abbrev pub Once : ℕ → List ℕ → Type 0
Once p l = has p (without p l) ≡ false

absent-Once : (q : ℕ) (l : List ℕ) → has q l ≡ false → Once q l
unfolding has without
absent-Once q [] h = refl
absent-Once q (x ∷ l) h = ground (arith, absent-Once q l)

Once-cons : (q x : ℕ) (l : List ℕ) → Once q (x ∷ l) → Once q l × (x ≡ q → has q l ≡ false)
unfolding has without
Once-cons q x l h = elim (Bool-cases (x == q)) [
  | inl e ↦ let gone : has q l ≡ false = ground arith in (absent-Once q l gone, λ d. gone)
  | inr e ↦ (ground arith, λ d. absurd (ground arith))
]

cons-Once : (q x : ℕ) (l : List ℕ) → Once q l → (x ≡ q → has q l ≡ false) → Once q (x ∷ l)
unfolding has without
cons-Once q x l h d = ground arith

pub Once-without : (p q : ℕ) (l : List ℕ) → Once q l → Once q (without p l)
unfolding without
Once-without p q [] h = h
Once-without p q (x ∷ l) h =
    let (tail, apart) = Once-cons q x l h in
    elim (Bool-cases (x == p)) [
      | inl e ↦ rw e tail
      | inr e ↦ rw e (
          cons-Once q x (without p l) (Once-without p q l tail)
            (λ d. has-without p q l (ground arith) ∙ apart d))
    ]

-- A client is in the list of a header exactly if the header is among its links, each once, and the
-- client knows the number of them.
pub record IsLinked (w : Watches) : Type 0 where
  pub linked : (p c : ℕ) → has c (w.headers p).watch ≡ has p (w.links c)
  pub links_once : (p c : ℕ) → Once p (w.links c)
  pub watch_once : (p c : ℕ) → Once c (w.headers p).watch
  pub counted : (c : ℕ) → w.counts c ≡ length (w.links c)
  pub chained : (h p : ℕ) → has p (w.table h) ≡ true → hashv (w.headers p).nick ≡ h
  pub placed :
      (p c : ℕ)
      → has c (w.headers p).watch ≡ true
      → has p (w.table (hashv (w.headers p).nick)) ≡ true

pub link-IsLinked :
    (p cptr : ℕ) (w : Watches)
    → IsLinked w
    → has p (w.table (hashv (w.headers p).nick)) ≡ true
    → IsLinked (link p cptr w)
unfolding link has without
link-IsLinked p cptr w v there = elim (Bool-cases (has cptr (w.headers p).watch)) [
  | inl e ↦ rw e v
  | inr e ↦ rw e (record {
    linked = λ q c. ground (arith, v.linked q c, v.linked p cptr);
    links_once = λ q c. ground (arith, v.links_once q c, v.linked p cptr);
    watch_once = λ q c. ground (arith, v.watch_once q c, v.linked p cptr);
    counted = λ c. ground (arith, v.counted c);
    chained = λ h q. ground (arith, v.chained h q);
    placed = λ q c. ground (arith, v.placed q c, there);
  })
]

has-more : (p q : ℕ) (l : List ℕ) → has q (without p l) ≡ true → has q l ≡ true
unfolding has without
has-more p q [] h = h
has-more p q (x ∷ l) h = ground (arith, has-more p q l)

-- The table when a header has gone or stays
abbrev cut_table : Bool → ℕ → ℕ → (ℕ → List ℕ) → ℕ → List ℕ
cut_table gone k p table = if gone then put_at k (without p (table k)) table else table

cut_table-more :
    (gone : Bool) (k p q h : ℕ) (table : ℕ → List ℕ)
    → has q (cut_table gone k p table h) ≡ true
    → has q (table h) ≡ true
cut_table-more false k p q h table e = e
cut_table-more true k p q h table e = ground (arith, has-more p q (table k))

cut_table-other :
    (gone : Bool) (k p q h : ℕ) (table : ℕ → List ℕ)
    → (q ≡ p → gone ≡ false)
    → has q (table h) ≡ true
    → has q (cut_table gone k p table h) ≡ true
cut_table-other false k p q h table d e = e
cut_table-other true k p q h table d e = ground (arith, has-without p q (table k))

put_nick :
    (headers : ℕ → Header) (p q : ℕ) (l : List ℕ)
    → (put_at p (record (headers p) { watch = l }) headers q).nick ≡ (headers q).nick
put_nick headers p q l = ground arith

has-nil : (c : ℕ) (l : List ℕ) → has c l ≡ true → is_nil l ≡ false
unfolding has
has-nil c [] h = cc
has-nil c (x ∷ l) h = refl

put_watch :
    (headers : ℕ → Header) (p q cptr c : ℕ)
    → has c
        (put_at p (record (headers p) { watch = without cptr (headers p).watch }) headers q).watch
      ≡ true
    → (has c (headers q).watch ≡ true) × (q ≡ p → is_nil (without cptr (headers p).watch) ≡ false)
put_watch headers p q cptr c h = elim (Bool-cases (q == p)) [
  | inl e ↦
      let inside : has c (without cptr (headers p).watch) ≡ true = rw e at h in
      let same : q ≡ p = ground arith in
      (
        subst (λ x. has c (headers x).watch ≡ true) (sym same)
            (has-more cptr c (headers p).watch inside),
        λ d. has-nil c (without cptr (headers p).watch) inside,
      )
  | inr e ↦ (rw e at h, λ d. absurd (ground arith))
]

-- The header and the client lose each other.
pub unlink-IsLinked :
    (p cptr : ℕ) (w : Watches)
    → IsLinked w
    → has cptr (w.headers p).watch ≡ true
    → IsLinked (
        leave p cptr (record w {
          links = put_at cptr (without p (w.links cptr)) w.links;
          counts = put_at cptr (w.counts cptr - 1) w.counts;
        }))
unfolding leave
unlink-IsLinked p cptr w v here =
    let W = (w.headers p).watch in
    let L = w.links cptr in
    record {
      linked = λ q c. ground (
        arith,
        v.linked q c,
        v.watch_once p cptr,
        v.links_once p cptr,
        has-without cptr c W,
        has-without p q L,
      );
      links_once = λ q c. ground (arith, v.links_once q c, Once-without p q L);
      watch_once = λ q c. ground (arith, v.watch_once q c, Once-without cptr c W);
      counted = λ c. ground (arith, v.counted c, v.linked p cptr, length-without p L);
      chained = λ h q inside.
          ap hashv (put_nick w.headers p q (without cptr W))
          ∙ v.chained h q (
              cut_table-more (is_nil (without cptr W)) (hashv (w.headers p).nick) p q h w.table
                inside);
      placed = λ q c inside.
          let (before, apart) = put_watch w.headers p q cptr c inside in
          let nick = put_nick w.headers p q (without cptr W) in
          cut_table-other (is_nil (without cptr W)) (hashv (w.headers p).nick) p q
            (hashv (put_at p (record (w.headers p) { watch = without cptr W }) w.headers q).nick)
            w.table apart
            (subst (λ (n : Bytes). has q (w.table (hashv n)) ≡ true) (sym nick)
              (v.placed q c before));
    }

pub find_header-has :
    (headers : ℕ → Header) (nick : Bytes) (l : List ℕ) (p : ℕ)
    → find_header headers nick l ≡ some p
    → has p l ≡ true
unfolding find_header has
find_header-has headers nick [] p e = cc
find_header-has headers nick (x ∷ l) p e = elim (Bool-cases (same_name (headers x).nick nick)) [
  | inl h ↦ first (rw h at e)
  | inr h ↦ later (find_header-has headers nick l p (rw h at e))
]
  where
    first : some x ≡ some p → (if x == p then true else has p l) ≡ true
    first d = ground arith

    later : has p l ≡ true → (if x == p then true else has p l) ≡ true
    later d = ground arith

-- A new header at an address that no list has
pub new_header-IsLinked :
    (at now : ℕ) (nick : Bytes) (w : Watches)
    → IsLinked w
    → ((c : ℕ) → has at (w.links c) ≡ false)
    → ((h : ℕ) → has at (w.table h) ≡ false)
    → IsLinked (new_header at now nick w)
unfolding has without
new_header-IsLinked at now nick w v fresh_links fresh_table = record {
  linked = λ q c. ground (arith, v.linked q c, fresh_links c);
  links_once = v.links_once;
  watch_once = λ q c. ground (arith, v.watch_once q c);
  counted = v.counted;
  chained = λ h q. ground (arith, v.chained h q, fresh_table h);
  placed = λ q c. ground (arith, v.placed q c);
}
