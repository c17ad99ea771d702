-- ===== src/Whowas/Delete.antt =====
-- del_whowas_from_list of src/whowas.c takes one entry out of its list.
use solidircd.Base.{
  ℕ, ◌≡◌, ◌≢◌, refl, sym, ap, ◌∙◌, subst, inl, inr, List, [], ◌∷◌, ◌++◌, Option, none, some, ◌==◌,
  arith, Bool-cases,
}
use solidircd.Whowas.Pointers.{
  Links, put_one, put_through, skip, del_whowas_from_list, Linked, Out, Apart, Away,
}

pub Away-ne : (p : Option ℕ) (y : ℕ) (ys : List ℕ) → Away p (y ∷ ys) → (p ≢ some y) × Away p ys
unfolding Away Out
Away-ne none y ys away = (λ e. ground (arith, e), tt)
Away-ne (some x) y ys away = (λ e. ground (arith, e, away.0), away.1)

-- Nothing changes at the entries of a list.
unfoldable pub Same :
    (ℕ → Option ℕ) → (ℕ → Option ℕ) → (ℕ → Option ℕ) → (ℕ → Option ℕ) → List ℕ → Type 0
Same next prev next' prev' [] = Unit
Same next prev next' prev' (x ∷ xs) =
    (next' x ≡ next x) × (prev' x ≡ prev x) × Same next prev next' prev' xs

pub Linked-Same :
    (next prev next' prev' : ℕ → Option ℕ) (before first : Option ℕ) (xs : List ℕ)
    → Same next prev next' prev' xs
    → Linked next prev before first xs
    → Linked next' prev' before first xs
unfolding Linked Same
Linked-Same next prev next' prev' before first [] same l = l
Linked-Same next prev next' prev' before first (x ∷ xs) same l = (
  l.0,
  same.1 ∙ l.1,
  subst (λ f. Linked next' prev' (some x) f xs) (sym same.0)
      (Linked-Same next prev next' prev' (some x) (next x) xs same.2 l.2),
)

-- A write at one place
unfoldable pub PutsOne : (f f' : ℕ → Option ℕ) → Option ℕ → Option ℕ → Type 0
PutsOne f f' at v = (y : ℕ) → (at ≡ some y → f' y ≡ v) × (at ≢ some y → f' y ≡ f y)

pub put_through-PutsOne : (p v : Option ℕ) (f : ℕ → Option ℕ) → PutsOne f (put_through p v f) p v
unfolding put_through put_one PutsOne
put_through-PutsOne none v f y = (λ e. ground (arith, e), λ ne. refl)
put_through-PutsOne (some x) v f y = elim (Bool-cases (y == x)) [
  | inl on ↦ (λ e. rw on refl, λ ne. absurd (ne (ap some (ground (arith, on)))))
  | inr off ↦ (λ e. absurd (ground (arith, off, e)), λ ne. rw off refl)
]

-- What stands in front of an entry behind these, and what is the first without it
unfoldable pub back : Option ℕ → List ℕ → Option ℕ
back p [] = p
back p (y ∷ ys) = back (some y) ys

unfoldable pub lead : Option ℕ → List ℕ → Option ℕ → Option ℕ
lead first [] later = later
lead first (y ∷ ys) later = first

unfoldable pub first_of : List ℕ → Option ℕ
first_of [] = none
first_of (x ∷ xs) = some x

-- What stands in front of an entry that more stand in front of is one of those.
back-ne : (y z : ℕ) (zs rest : List ℕ) → Out y ((z ∷ zs) ++ rest) → back (some z) zs ≢ some y
unfolding back Out
back-ne y z [] rest out = λ e. ground (arith, e, out.0)
back-ne y z (a ∷ zs) rest out = back-ne y a zs rest out.1

pub back-other : (y : ℕ) (p : Option ℕ) (xs : List ℕ) → p ≢ some y → Out y xs → back p xs ≢ some y
unfolding back Out
back-other y p [] ne out = ne
back-other y p (x ∷ xs) ne out = back-other y (some x) xs (λ e. ground (arith, e, out.0)) out.1

Out-after : (y x : ℕ) (before after : List ℕ) → Out y (before ++ x ∷ after) → Out y after
unfolding Out
Out-after y x [] after out = out.1
Out-after y x (b ∷ before) after out = Out-after y x before after out.1

pub first_of-ne : (y : ℕ) (ys : List ℕ) → Out y ys → first_of ys ≢ some y
unfolding first_of Out
first_of-ne y [] out = λ e. ground (arith, e)
first_of-ne y (z ∷ ys) out = λ e. ground (arith, e, out.0)

-- The links around one entry
module _ (next prev : ℕ → Option ℕ) (x : ℕ) where
  pub next-first_of :
      (p f : Option ℕ) (before after : List ℕ)
      → Linked next prev p f (before ++ x ∷ after)
      → next x ≡ first_of after
  unfolding Linked first_of
  next-first_of p f [] [] l = l.2
  next-first_of p f [] (r ∷ after) l = l.2.0
  next-first_of p f (b ∷ before) after l = next-first_of (some b) (next b) before after l.2

  pub prev-back :
      (p f : Option ℕ) (before after : List ℕ)
      → Linked next prev p f (before ++ x ∷ after)
      → prev x ≡ back p before
  unfolding Linked back
  prev-back p f [] after l = l.1
  prev-back p f (b ∷ before) after l = prev-back (some b) (next b) before after l.2

  module _ (next' prev' : ℕ → Option ℕ) (nexts : PutsOne next next' (prev x) (next x))
      (prevs : PutsOne prev prev' (next x) (prev x)) where
    Same-Away : (ys : List ℕ) → Away (prev x) ys → Away (next x) ys → Same next prev next' prev' ys
    unfolding Same PutsOne
    Same-Away [] far far' = tt
    Same-Away (y ∷ ys) far far' =
        let (ne, far) = Away-ne (prev x) y ys far in
        let (ne', far') = Away-ne (next x) y ys far' in
        ((nexts y).1 ne, (prevs y).1 ne', Same-Away ys far far')

    -- Behind the entry
    after-Linked :
        (after : List ℕ)
        → Apart after
        → Away (prev x) after
        → Linked next prev (some x) (next x) after
        → Linked next' prev' (prev x) (next x) after
    unfolding Linked Apart PutsOne Away
    after-Linked [] apart far l = l
    after-Linked (r ∷ after) apart far l =
        let (ne, far') = Away-ne (prev x) r after far in
        (
          l.0,
          (prevs r).0 l.0,
          subst (λ f. Linked next' prev' (some r) f after) (sym ((nexts r).1 ne))
              (Linked-Same next prev next' prev' (some r) (next r) after
                (Same-Away after far' (subst (λ o. Away o after) (sym l.0) apart.0)) l.2),
        )

    lead-next :
        (y : ℕ) (before rest : List ℕ)
        → Out y (before ++ rest)
        → prev x ≡ back (some y) before
        → lead (next y) before (next x) ≡ next' y
    unfolding lead back PutsOne
    lead-next y [] rest out e = sym ((nexts y).0 e)
    lead-next y (z ∷ before) rest out e =
        sym ((nexts y).1 (λ e'. back-ne y z before rest out (sym e ∙ e')))

    pub drop-Linked :
        (p f : Option ℕ) (before after : List ℕ)
        → Apart (before ++ x ∷ after)
        → Away p (before ++ x ∷ after)
        → Linked next prev p f (before ++ x ∷ after)
        → Linked next' prev' p (lead f before (next x)) (before ++ after)
    unfolding Linked Apart Away lead PutsOne Out first_of back
    drop-Linked p f [] after apart far l =
        subst (λ o. Linked next' prev' o (next x) after) l.1
          (after-Linked after apart.1
            (subst (λ o. Away o after) (sym l.1) (Away-ne p x after far).1) l.2)
    drop-Linked p f (y ∷ before) after apart far l =
        let rest = drop-Linked (some y) (next y) before after apart.1 apart.0 l.2 in
        let first_behind = next-first_of (some y) (next y) before after l.2 in
        let in_front = prev-back (some y) (next y) before after l.2 in
        (
          l.0,
          (prevs y).1 (λ e.
                first_of-ne y after (Out-after y x before after apart.0) (sym first_behind ∙ e))
              ∙ l.1,
          subst (λ o. Linked next' prev' (some y) o (before ++ after))
              (lead-next y before (x ∷ after) apart.0 in_front) rest,
        )

-- Of a list of all links
unfoldable pub IsList : Links → ℕ → List ℕ → Type 0
unfolding Linked
IsList l bucket xs = Linked l.next l.prev none (l.head bucket) xs

module _ (bucket x : ℕ) (l : Links) (alone : l.prev x ≢ some x) where
  skip-next : (o : Option ℕ) → PutsOne l.next (skip bucket x o l).next o (l.next x)
  unfolding skip PutsOne put_through
  skip-next none = λ y. ((λ e. ground (arith, e)), λ ne. refl)
  skip-next (some q) = put_through-PutsOne (some q) (l.next x) l.next

  skip-prev : (o : Option ℕ) → (skip bucket x o l).prev ≡ l.prev
  unfolding skip
  skip-prev none = refl
  skip-prev (some q) = refl

  deleted-next : PutsOne l.next (del_whowas_from_list bucket x l).next (l.prev x) (l.next x)
  unfolding del_whowas_from_list
  deleted-next = skip-next (l.prev x)

  deleted-prev : PutsOne l.prev (del_whowas_from_list bucket x l).prev (l.next x) (l.prev x)
  unfolding del_whowas_from_list PutsOne
  deleted-prev =
      let skipped = skip bucket x (l.prev x) l in
      let same : skipped.prev ≡ l.prev = skip-prev (l.prev x) in
      let next_x : skipped.next x ≡ l.next x = (skip-next (l.prev x) x).1 alone in
      subst
        (λ o. PutsOne l.prev (put_through o (skipped.prev x) skipped.prev) (l.next x) (l.prev x))
        (sym next_x)
        (subst (λ f. PutsOne l.prev (put_through (l.next x) (f x) f) (l.next x) (l.prev x))
          (sym same) (put_through-PutsOne (l.next x) (l.prev x) l.prev))

  skip-head_other :
      (other : ℕ) (o : Option ℕ) → other ≢ bucket → (skip bucket x o l).head other ≡ l.head other
  unfolding skip put_one
  skip-head_other other none ne = ground (arith, ne)
  skip-head_other other (some q) ne = refl

  back-some : (y : ℕ) (ys : List ℕ) → back (some y) ys ≢ none
  unfolding back
  back-some y [] = λ e. ground (arith, e)
  back-some y (z ∷ ys) = back-some z ys

  skip-head :
      (o : Option ℕ) (before : List ℕ)
      → o ≡ back none before
      → lead (l.head bucket) before (l.next x) ≡ (skip bucket x o l).head bucket
  unfolding skip put_one lead back
  skip-head none [] e = ground arith
  skip-head none (y ∷ before) e = absurd (back-some y before (sym e))
  skip-head (some q) [] e = ground (arith, e)
  skip-head (some q) (y ∷ before) e = refl

  -- The other lists
  pub deleted-others :
      (other : ℕ) (ys : List ℕ)
      → other ≢ bucket
      → Away (l.prev x) ys
      → Away (l.next x) ys
      → IsList l other ys
      → IsList (del_whowas_from_list bucket x l) other ys
  unfolding IsList del_whowas_from_list
  deleted-others other ys ne far far' isl =
      subst
        (λ o.
          Linked (del_whowas_from_list bucket x l).next (del_whowas_from_list bucket x l).prev none
            o ys)
        (sym (skip-head_other other (l.prev x) ne))
        (Linked-Same l.next l.prev _ _ none (l.head other) ys
          (Same-Away l.next l.prev x _ _ deleted-next deleted-prev ys far far') isl)

  -- The list that the entry stands in
  pub deleted-IsList :
      (before after : List ℕ)
      → Apart (before ++ x ∷ after)
      → IsList l bucket (before ++ x ∷ after)
      → IsList (del_whowas_from_list bucket x l) bucket (before ++ after)
  unfolding IsList del_whowas_from_list Away
  deleted-IsList before after apart isl =
      let in_front = prev-back l.next l.prev x none (l.head bucket) before after isl in
      subst
        (λ o.
          Linked (del_whowas_from_list bucket x l).next (del_whowas_from_list bucket x l).prev none
            o (before ++ after))
        (skip-head (l.prev x) before in_front)
        (drop-Linked l.next l.prev x _ _ deleted-next deleted-prev none (l.head bucket) before after
          apart tt isl)
