-- ===== src/Watch/Leaving.antt =====
-- hash_del_watch_list of src/hash.c: a client that goes takes all its watches with it.
use solidircd.Base.{
  ℕ, suc, ◌-◌, ◌≡◌, refl, sym, ap, ◌∙◌, true, false, List, [], ◌∷◌, ◌==◌, some, length, arith,
}
use solidircd.Watch.{
  Watches, put_at, hashv, has, without, leave, unlink, leave_all, del_links, hash_del_watch_list,
}
use solidircd.Watch.Linked.{IsLinked, unlink-IsLinked}

-- The same headers and chains, with other functions for the links
relinked : Watches → (ℕ → List ℕ) → (ℕ → ℕ) → Watches
relinked w links counts = record w { links = links; counts = counts }

IsLinked-same :
    (w : Watches) (links : ℕ → List ℕ) (counts : ℕ → ℕ)
    → ((c : ℕ) → links c ≡ w.links c)
    → ((c : ℕ) → counts c ≡ w.counts c)
    → IsLinked w
    → IsLinked (relinked w links counts)
unfolding relinked
IsLinked-same w links counts l n v = record {
  linked = λ p c. v.linked p c ∙ ap (has p) (sym (l c));
  links_once = λ p c. ap (λ (x : List ℕ). has p (without p x)) (l c) ∙ v.links_once p c;
  watch_once = v.watch_once;
  counted = λ c. n c ∙ v.counted c ∙ ap (λ (x : List ℕ). length x) (sym (l c));
  chained = v.chained;
  placed = v.placed;
}

-- While `np` is left of the links of the client
abbrev During : ℕ → List ℕ → Watches → Type 0
During cptr np w =
    IsLinked
      (record w { links = put_at cptr np w.links; counts = put_at cptr (length np) w.counts })

links-left :
    (p cptr : ℕ) (np : List ℕ) (links : ℕ → List ℕ) (c : ℕ)
    → put_at cptr np links c
      ≡ put_at cptr (without p (put_at cptr (p ∷ np) links cptr)) (put_at cptr (p ∷ np) links) c
unfolding without
links-left p cptr np links c =
    let self : (cptr == cptr) ≡ true = ground arith in
    let head : (p == p) ≡ true = ground arith in rw (self, head) (ground arith)

counts-left :
    (cptr n : ℕ) (counts : ℕ → ℕ) (c : ℕ)
    → put_at cptr n counts c
      ≡ put_at cptr (put_at cptr (suc n) counts cptr - 1) (put_at cptr (suc n) counts) c
counts-left cptr n counts c = ground arith

head-has :
    (p cptr : ℕ) (np : List ℕ) (links : ℕ → List ℕ) → has p (put_at cptr (p ∷ np) links cptr) ≡ true
unfolding has
head-has p cptr np links =
    let self : (cptr == cptr) ≡ true = ground arith in
    let head : (p == p) ≡ true = ground arith in rw (self, head) refl

leave-During :
    (p cptr : ℕ) (np : List ℕ) (w : Watches)
    → During cptr (p ∷ np) w
    → (has cptr (w.headers p).watch ≡ true)
      × (has p (w.table (hashv (w.headers p).nick)) ≡ true)
      × During cptr np (leave p cptr w)
      × ((c : ℕ) → (leave p cptr w).links c ≡ w.links c)
unfolding leave relinked
leave-During p cptr np w v =
    let here : has cptr (w.headers p).watch ≡ true = v.linked p cptr ∙ head-has p cptr np w.links in
    let w1 = record w {
      links = put_at cptr (p ∷ np) w.links;
      counts = put_at cptr (suc (length np)) w.counts;
    } in
    (
      here,
      v.placed p cptr here,
      IsLinked-same (leave p cptr (unlink p cptr w1)) (put_at cptr np w.links)
          (put_at cptr (length np) w.counts) (links-left p cptr np w.links)
          (counts-left cptr (length np) w.counts) (unlink-IsLinked p cptr w1 v here),
      λ c. refl,
    )

leave_all-During :
    (np : List ℕ) (cptr : ℕ) (w : Watches)
    → During cptr np w
    → (w' : Watches) × (leave_all np cptr w ≡ some w')
      × During cptr [] w'
      × ((c : ℕ) → w'.links c ≡ w.links c)
unfolding leave_all
leave_all-During [] cptr w v = (w, refl, v, λ c. refl)
leave_all-During (p ∷ np) cptr w v =
    let (here, there, v1, same1) = leave-During p cptr np w v in
    let (w', e, v', same') = leave_all-During np cptr (leave p cptr w) v1 in
    (w', rw (here, there) e, v', λ c. same' c ∙ same1 c)

nobody :
    (cptr : ℕ) (w : Watches) → During cptr [] w → (p : ℕ) → has cptr (w.headers p).watch ≡ false
unfolding has
nobody cptr w v p =
    let self : (cptr == cptr) ≡ true = ground arith in v.linked p cptr ∙ rw self refl

put-links :
    (cptr : ℕ) (l : List ℕ) (links : ℕ → List ℕ) (c : ℕ)
    → l ≡ links cptr
    → put_at cptr l (put_at cptr [] links) c ≡ links c
put-links cptr l links c e = ground (arith, e)

put-counts :
    (cptr n : ℕ) (counts : ℕ → ℕ) (c : ℕ) → n ≡ counts cptr → put_at cptr n counts c ≡ counts c
put-counts cptr n counts c e = ground (arith, e)

put-none :
    (cptr : ℕ) (links : ℕ → List ℕ) (c : ℕ) → links cptr ≡ [] → links c ≡ put_at cptr [] links c
put-none cptr links c e = ground (arith, e)

put_self : (cptr : ℕ) (links : ℕ → List ℕ) → put_at cptr [] links cptr ≡ []
put_self cptr links = ground arith

del_links-IsLinked :
    (cptr : ℕ) (w : Watches) (l : List ℕ)
    → w.links cptr ≡ l
    → IsLinked w
    → (w' : Watches) × (del_links cptr w l ≡ some w')
      × IsLinked w'
      × ((p : ℕ) → has cptr (w'.headers p).watch ≡ false)
      × (w'.links cptr ≡ [])
unfolding del_links relinked has
del_links-IsLinked cptr w [] e v = (w, refl, v, λ p. v.linked p cptr ∙ ap (has p) e, e)
del_links-IsLinked cptr w (p ∷ np) e v =
    let l = p ∷ np in
    let w0 = record w { links = put_at cptr [] w.links } in
    let during : During cptr l w0 =
      IsLinked-same w (put_at cptr l (put_at cptr [] w.links)) (put_at cptr (length l) w.counts)
        (λ c. put-links cptr l w.links c (sym e))
        (λ c.
          put-counts cptr (length l) w.counts c
            (sym (v.counted cptr ∙ ap (λ (x : List ℕ). length x) e)))
        v in
    let (w', e', v', same) = leave_all-During l cptr w0 during in
    let none_left = same cptr ∙ put_self cptr w.links in
    let w2 = record w' { links = put_at cptr [] w'.links; counts = put_at cptr 0 w'.counts } in
    (
      record w' { counts = put_at cptr 0 w'.counts },
      rw e' refl,
      IsLinked-same w2 w'.links (put_at cptr 0 w'.counts) (λ c. put-none cptr w'.links c none_left)
          (λ c. refl) v',
      nobody cptr w' v',
      none_left,
    )

-- When headers and clients point to each other, each once, hash_del_watch_list always comes to an
-- end: the client then stands in no list and has no links, and headers and clients still point to
-- each other, each once, with the number of the links right.
pub hash_del_watch_list-IsLinked :
    (cptr : ℕ) (w : Watches)
    → IsLinked w
    → (w' : Watches) × (hash_del_watch_list cptr w ≡ some w')
      × IsLinked w'
      × ((p : ℕ) → has cptr (w'.headers p).watch ≡ false)
      × (w'.links cptr ≡ [])
unfolding hash_del_watch_list
hash_del_watch_list-IsLinked cptr w v = del_links-IsLinked cptr w (w.links cptr) refl v
