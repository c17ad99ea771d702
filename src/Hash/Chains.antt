-- ===== src/Hash/Chains.antt =====
-- A table of src/hash.c as one list of records, newest first, for any hash of names that stays
-- inside of the table and agrees with mycmp.
use solidircd.Base.{
  ℕ, ◌+◌, ◌-◌, ◌<◌, ◌≡◌, refl, sym, ap, ◌∙◌, subst, Bool, true, false, List, [], ◌∷◌, ◌==◌, ltb,
  if◌then◌else◌, length, length-set, length-replicate, get_or-set, get_or-replicate, set, arith,
  Bool-cases, inl, inr,
}
use solidircd.Base.Int.{pos}
use solidircd.Hash.{Bucket, bucket, clear, add_at, del_at, find_that, cut, member}
use solidircd.Match.Compare.{Bytes, IsText, mycmp}

-- What the tables ask of a hash function.
pub record NameHash : Type 0 where
  pub size : ℕ
  pub hash : Bytes → ℕ
  pub bounded : (s : Bytes) → hash s < size
  pub agrees : (s t : Bytes) → IsText s → IsText t → mycmp s t ≡ pos 0 → hash s ≡ hash t

module _ {A : Type 0} (names : NameHash) (at_of : A → ℕ) (name_of : A → Bytes) where
  -- The records of one bucket.
  unfoldable pub in_bucket : ℕ → List A → List A
  in_bucket i [] = []
  in_bucket i (a ∷ es) = if names.hash (name_of a) == i then a ∷ in_bucket i es else in_bucket i es

  unfoldable pub AllText : List A → Type 0
  AllText [] = Unit
  AllText (a ∷ es) = IsText (name_of a) × AllText es

  -- The table holds these records: every chain the ones of its bucket, and `links` their number.
  pub record Holds (table : List (Bucket A)) (es : List A) : Type 0 where
    pub size : length table ≡ names.size
    pub chains : (i : ℕ) → (bucket table i).list ≡ (if ltb i names.size then in_bucket i es else [])
    pub links : (i : ℕ) → (bucket table i).links ≡ length (bucket table i).list
    pub texts : AllText es

  pub clear-Holds : Holds (clear names.size) []
  unfolding clear in_bucket AllText
  clear-Holds = record {
    size = length-replicate names.size (record { list = []; links = 0; hits = 0 });
    chains = λ i.
        ap (λ (b : Bucket A). b.list)
          (get_or-replicate names.size i (record { list = []; links = 0; hits = 0 }))
        ∙ ground arith;
    links = λ i.
        subst (λ (b : Bucket A). b.links ≡ length b.list)
          (sym (get_or-replicate names.size i (record { list = []; links = 0; hits = 0 }))) refl;
    texts = tt;
  }

  bucket-set :
      (table : List (Bucket A)) (h i : ℕ) (b : Bucket A)
      → h < length table
      → bucket (set table h b) i ≡ (if h == i then b else bucket table i)
  bucket-set table h i b lt = get_or-set table h i b (record { list = []; links = 0; hits = 0 }) lt

  pub add_at-Holds :
      (table : List (Bucket A)) (es : List A) (a : A)
      → Holds table es
      → IsText (name_of a)
      → Holds (add_at (names.hash (name_of a)) a table) (a ∷ es)
  unfolding add_at in_bucket AllText
  add_at-Holds table es a m text =
      let h = names.hash (name_of a) in
      let b = bucket table h in
      let new : Bucket A = record { list = a ∷ b.list; links = b.links + 1; hits = b.hits + 1 } in
      let inside : h < length table = omega (arith, m.size, names.bounded (name_of a)) in
      record {
        size = length-set table h new ∙ m.size;
        chains = λ i.
            rw (bucket-set table h i new inside)
              (ground (arith, m.chains i, m.chains h, names.bounded (name_of a)));
        links = λ i. rw (bucket-set table h i new inside) (ground (arith, m.links i, m.links h));
        texts = (text, m.texts);
      }

  -- A search in a bucket, where every record that the test takes stands in it, is the search in all.
  find_that-in_bucket :
      (test : A → Bool) (h : ℕ) (es : List A)
      → AllText es
      → ((a : A) → IsText (name_of a) → test a ≡ true → names.hash (name_of a) ≡ h)
      → find_that test (in_bucket h es) ≡ find_that test es
  unfolding find_that in_bucket AllText
  find_that-in_bucket test h [] texts own = refl
  find_that-in_bucket test h (a ∷ es) texts own =
      ground (arith, find_that-in_bucket test h es texts.1 own, own a texts.0)

  pub find_that-Holds :
      (table : List (Bucket A)) (es : List A) (test : A → Bool) (name : Bytes)
      → Holds table es
      → ((a : A) → IsText (name_of a) → test a ≡ true → names.hash (name_of a) ≡ names.hash name)
      → find_that test (bucket table (names.hash name)).list ≡ find_that test es
  find_that-Holds table es test name m own =
      ap (find_that test) (m.chains (names.hash name) ∙ ground (arith, names.bounded name))
      ∙ find_that-in_bucket test (names.hash name) es m.texts own

  -- Every record at the address has this hash.
  unfoldable pub AllUnder : ℕ → ℕ → List A → Type 0
  AllUnder p h [] = Unit
  AllUnder p h (a ∷ es) = (at_of a ≡ p → names.hash (name_of a) ≡ h) × AllUnder p h es

  member-in_bucket :
      (p h : ℕ) (es : List A)
      → AllUnder p h es
      → member at_of p (in_bucket h es) ≡ member at_of p es
  unfolding member in_bucket AllUnder
  member-in_bucket p h [] own = refl
  member-in_bucket p h (a ∷ es) own = ground (arith, member-in_bucket p h es own.1, own.0)

  cut-in_bucket :
      (p h i : ℕ) (es : List A)
      → AllUnder p h es
      → in_bucket i (cut at_of p es)
        ≡ (if h == i then cut at_of p (in_bucket i es) else in_bucket i es)
  unfolding cut in_bucket AllUnder
  cut-in_bucket p h i [] own = ground arith
  cut-in_bucket p h i (a ∷ es) own = ground (arith, cut-in_bucket p h i es own.1, own.0)

  cut-AllText : (p : ℕ) (es : List A) → AllText es → AllText (cut at_of p es)
  unfolding cut AllText
  cut-AllText p [] texts = tt
  cut-AllText p (a ∷ es) texts = elim (Bool-cases (at_of a == p)) [
    | inl e ↦ rw e texts.1
    | inr e ↦ rw e (texts.0, cut-AllText p es texts.1)
  ]

  length-cut :
      (p : ℕ) (es : List A)
      → member at_of p es ≡ true
      → (length (cut at_of p es) ≡ length es - 1) × (0 < length es)
  unfolding cut member
  length-cut p [] h = cc
  length-cut p (a ∷ es) h = ground (arith, length-cut p es)

  cut-absent : (p : ℕ) (es : List A) → member at_of p es ≡ false → cut at_of p es ≡ es
  unfolding cut member
  cut-absent p [] h = refl
  cut-absent p (a ∷ es) h = ground (arith, cut-absent p es)

  -- Taking a record out by its address, under a name with the hash of the record.
  pub del_at-Holds :
      (table : List (Bucket A)) (es : List A) (p : ℕ) (name : Bytes)
      → Holds table es
      → AllUnder p (names.hash name) es
      → ((del_at at_of (names.hash name) p table).0 ≡ (if member at_of p es then pos 1 else pos 0))
        × Holds (del_at at_of (names.hash name) p table).1 (cut at_of p es)
  unfolding del_at
  del_at-Holds table es p name m own =
      let h = names.hash name in
      let b = bucket table h in
      let inside : h < length table = omega (arith, m.size, names.bounded name) in
      let chain : b.list ≡ in_bucket h es = m.chains h ∙ ground (arith, names.bounded name) in
      let here : member at_of p b.list ≡ member at_of p es =
        ap (member at_of p) chain ∙ member-in_bucket p h es own in
      elim (Bool-cases (member at_of p es)) [
        | inl e ↦
            let there = here ∙ e in
            let count = length-cut p b.list there in
            let new : Bucket A = record b { list = cut at_of p b.list; links = b.links - 1 } in
            let positive : ltb 0 b.links ≡ true = ground (arith, m.links h) in
            rw (there, positive, e)
              (
                refl,
                record {
                  size = length-set table h new ∙ m.size;
                  chains = λ i.
                      rw (bucket-set table h i new inside)
                        (ground (arith, m.chains i, chain, cut-in_bucket p h i es own));
                  links = λ i.
                      rw (bucket-set table h i new inside) (ground (arith, m.links i, m.links h));
                  texts = cut-AllText p es m.texts;
                },
              )
        | inr e ↦ let gone = here ∙ e in rw (gone, e, cut-absent p es e) (refl, m)
      ]
