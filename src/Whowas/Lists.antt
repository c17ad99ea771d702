-- ===== src/Whowas/Lists.antt =====
-- The calls of src/whowas.c that change a list, on all lists together.
use solidircd.Base.{
  ℕ, ◌≡◌, ◌≢◌, sym, ap, ◌∙◌, subst, inl, inr, false, List, [], ◌∷◌, ◌++◌, Option, none, some, ◌==◌,
  arith, Bool-cases,
}
use solidircd.Whowas.Chains.{
  is_at, select, AllLists, select-append, select-here, select-skip, select-put, Out-select,
  Apart-select, select-AllKeyed, back-Away, first_of-Away,
}
use solidircd.Whowas.Delete.{
  IsList, deleted-IsList, deleted-others, prev-back, next-first_of, back, first_of, first_of-ne,
  back-other, PutsOne, put_through-PutsOne, Same, Linked-Same, Away-ne,
}
use solidircd.Whowas.Pointers.{
  Links, put_one, add_whowas_to_list, del_whowas_from_list, Linked, Out, Apart, Away,
}

-- What is apart as a whole is apart in its parts.
pub Apart-middle :
    (left : List ℕ) (x : ℕ) (right : List ℕ) → Apart (left ++ x ∷ right) → Out x left × Out x right
unfolding Apart Out
Apart-middle [] x right apart = (tt, apart.0)
Apart-middle (y ∷ left) x right apart =
    let (before, behind) = Apart-middle left x right apart.1 in
    let y_ne : y ≢ x = out-middle left apart.0 in ((λ e. y_ne (sym e), before), behind)
  where
    out-middle : {z : ℕ} (ys : List ℕ) → Out z (ys ++ x ∷ right) → z ≢ x
    out-middle [] out = out.0
    out-middle (u ∷ ys) out = out-middle ys out.1

module _ (l : Links) (key : ℕ → Option ℕ) (b x : ℕ) (left right : List ℕ)
    (here : key x ≡ some b) where
  -- The list of the entry, around it
  around : select key b (left ++ x ∷ right) ≡ select key b left ++ x ∷ select key b right
  around =
      select-append key b left (x ∷ right)
      ∙ ap (λ s. select key b left ++ s) (select-here key b x right here)

  here_only : (b' : ℕ) → b' ≢ b → is_at (key x) b' ≡ false
  unfolding is_at
  here_only b' ne = rw here (ground (arith, ne))

  -- The other lists pass it by.
  past :
      (b' : ℕ)
      → b' ≢ b
      → select key b' (left ++ x ∷ right) ≡ select key b' left ++ select key b' right
  past b' ne =
      select-append key b' left (x ∷ right)
      ∙ ap (λ s. select key b' left ++ s) (select-skip key b' x right (here_only b' ne))

  -- Without a key it is in none.
  without_entry :
      Apart (left ++ x ∷ right)
      → (b' : ℕ)
      → select (put_one x none key) b' (left ++ x ∷ right)
        ≡ select key b' left ++ select key b' right
  unfolding put_one is_at
  without_entry apart b' =
      let (before, behind) = Apart-middle left x right apart in
      let gone : is_at (put_one x none key x) b' ≡ false = ground arith in
      select-append (put_one x none key) b' left (x ∷ right)
      ∙ ap (λ s. select (put_one x none key) b' left ++ s) (select-skip _ b' x right gone)
      ∙ ap (λ s. s ++ select (put_one x none key) b' right) (select-put key b' x none left before)
      ∙ ap (λ s. select key b' left ++ s) (select-put key b' x none right behind)

  -- The entry is deleted from its list, and has no key any more: all others are as they were.
  pub deleted-AllLists :
      Apart (left ++ x ∷ right)
      → AllLists l key (left ++ x ∷ right)
      → AllLists (del_whowas_from_list b x l) (put_one x none key) (left ++ x ∷ right)
  unfolding AllLists IsList Away
  deleted-AllLists apart lists b' =
      let xs = select key b left in
      let ys = select key b right in
      let mine : IsList l b (xs ++ x ∷ ys) = subst (λ s. IsList l b s) around (lists b) in
      let mine_apart : Apart (xs ++ x ∷ ys) =
        subst Apart around (Apart-select key b (left ++ x ∷ right) apart) in
      let in_front : l.prev x ≡ back none xs =
        prev-back l.next l.prev x none (l.head b) xs ys mine in
      let behind : l.next x ≡ first_of ys =
        next-first_of l.next l.prev x none (l.head b) xs ys mine in
      let alone : l.prev x ≢ some x = λ e.
        back-other x none xs (λ e'. ground (arith, e')) (Apart-middle xs x ys mine_apart).0
          (sym in_front ∙ e) in
      subst (λ s. IsList (del_whowas_from_list b x l) b' s) (sym (without_entry apart b'))
        (elim (Bool-cases (b' == b)) [
          | inl on ↦
              let e : b' ≡ b = ground (arith, on) in
              subst
                (λ c.
                  IsList (del_whowas_from_list b x l) c (select key c left ++ select key c right))
                (sym e) (deleted-IsList b x l alone xs ys mine_apart mine)
          | inr off ↦
              let ne : b' ≢ b = ground (arith, off) in
              subst (λ s. IsList (del_whowas_from_list b x l) b' s) (past b' ne)
                (deleted-others b x l alone b' _ ne
                  (subst (λ o. Away o (select key b' (left ++ x ∷ right))) (sym in_front)
                    (back-Away key b b' none xs _ (select-AllKeyed key b left) ne tt))
                  (subst (λ o. Away o (select key b' (left ++ x ∷ right))) (sym behind)
                    (first_of-Away key b b' ys _ (select-AllKeyed key b right) ne))
                  (lists b'))
        ])

-- What add_whowas_to_list writes
module _ (l : Links) (b x : ℕ) (first : l.head b ≢ some x) where
  abbrev after_add : Links
  after_add = add_whowas_to_list b x l

  added-next : (y : ℕ) → y ≢ x → (add_whowas_to_list b x l).next y ≡ l.next y
  unfolding add_whowas_to_list put_one
  added-next y ne = ground (arith, ne)

  added-prev : (y : ℕ) → y ≢ x → l.head b ≢ some y → (add_whowas_to_list b x l).prev y ≡ l.prev y
  unfolding add_whowas_to_list put_one PutsOne
  added-prev y ne ne' =
      (put_through-PutsOne (l.head b) (some x) (put_one x none l.prev) y).1 ne' ∙ ground (arith, ne)

  added-Same :
      (ys : List ℕ)
      → Out x ys
      → Away (l.head b) ys
      → Same l.next l.prev (add_whowas_to_list b x l).next (add_whowas_to_list b x l).prev ys
  unfolding Same Out
  added-Same [] out far = tt
  added-Same (y ∷ ys) out far =
      let (ne, far') = Away-ne (l.head b) y ys far in
      let y_ne : y ≢ x = λ e. out.0 (sym e) in
      (added-next y y_ne, added-prev y y_ne ne, added-Same ys out.1 far')

  -- Behind the new entry the list goes on as before.
  fronted :
      (ys : List ℕ)
      → Out x ys
      → Apart ys
      → Linked l.next l.prev none (l.head b) ys
      → Linked
          (add_whowas_to_list b x l).next
          (add_whowas_to_list b x l).prev
          (some x)
          (l.head b)
          ys
  unfolding Linked Out Apart Away add_whowas_to_list PutsOne
  fronted [] out apart isl = isl
  fronted (r ∷ ys) out apart isl = (
    isl.0,
    (put_through-PutsOne (l.head b) (some x) (put_one x none l.prev) r).0 isl.0,
    subst
        (λ o. Linked (add_whowas_to_list b x l).next (add_whowas_to_list b x l).prev (some r) o ys)
        (sym (added-next r (λ e. out.0 (sym e))))
        (Linked-Same l.next l.prev _ _ (some r) (l.next r) ys
          (added-Same ys out.1 (subst (λ o. Away o ys) (sym isl.0) apart.0)) isl.2),
  )

  added-head : (add_whowas_to_list b x l).head b ≡ some x
  unfolding add_whowas_to_list put_one
  added-head = ground arith

  added-head_other : (b' : ℕ) → b' ≢ b → (add_whowas_to_list b x l).head b' ≡ l.head b'
  unfolding add_whowas_to_list put_one
  added-head_other b' ne = ground (arith, ne)

  added-next_self : (add_whowas_to_list b x l).next x ≡ l.head b
  unfolding add_whowas_to_list put_one
  added-next_self = ground arith

  added-prev_self : (add_whowas_to_list b x l).prev x ≡ none
  unfolding add_whowas_to_list put_one PutsOne
  added-prev_self =
      (put_through-PutsOne (l.head b) (some x) (put_one x none l.prev) x).1 first ∙ ground arith

-- The head of a list is the first of its entries.
pub head-first_of : (l : Links) (b : ℕ) (xs : List ℕ) → IsList l b xs → l.head b ≡ first_of xs
unfolding IsList Linked first_of
head-first_of l b [] isl = isl
head-first_of l b (x ∷ xs) isl = isl.0

module _ (l : Links) (key : ℕ → Option ℕ) (b x : ℕ) (log : List ℕ) (out : Out x log) where
  put_self : put_one x (some b) key x ≡ some b
  unfolding put_one
  put_self = ground arith

  mine_now : select (put_one x (some b) key) b (x ∷ log) ≡ x ∷ select key b log
  mine_now =
      select-here (put_one x (some b) key) b x log put_self
      ∙ ap (λ s. x ∷ s) (select-put key b x (some b) log out)

  other_now : (b' : ℕ) → b' ≢ b → select (put_one x (some b) key) b' (x ∷ log) ≡ select key b' log
  unfolding is_at
  other_now b' ne =
      select-skip (put_one x (some b) key) b' x log (rw put_self (ground (arith, ne)))
      ∙ select-put key b' x (some b) log out

  -- A new entry that the log does not have yet comes to the front of the log and of its list.
  pub added-AllLists :
      Apart log
      → AllLists l key log
      → AllLists (add_whowas_to_list b x l) (put_one x (some b) key) (x ∷ log)
  unfolding AllLists IsList Linked
  added-AllLists apart lists b' =
      let ys = select key b log in
      let head_is = head-first_of l b ys (lists b) in
      let out_ys : Out x ys = Out-select key b x log out in
      let first : l.head b ≢ some x = λ e. first_of-ne x ys out_ys (sym head_is ∙ e) in
      let mine : IsList (add_whowas_to_list b x l) b (x ∷ ys) = (
        added-head l b x first,
        added-prev_self l b x first,
        subst
            (λ o.
              Linked (add_whowas_to_list b x l).next (add_whowas_to_list b x l).prev (some x) o ys)
            (sym (added-next_self l b x first))
            (fronted l b x first ys out_ys (Apart-select key b log apart) (lists b)),
      ) in
      elim (Bool-cases (b' == b)) [
        | inl on ↦
            let e : b' ≡ b = ground (arith, on) in
            subst
              (λ c.
                IsList (add_whowas_to_list b x l) c (select (put_one x (some b) key) c (x ∷ log)))
              (sym e) (subst (λ s. IsList (add_whowas_to_list b x l) b s) (sym mine_now) mine)
        | inr off ↦
            let ne : b' ≢ b = ground (arith, off) in
            let far : Away (l.head b) (select key b' log) =
              subst (λ o. Away o (select key b' log)) (sym head_is)
                (first_of-Away key b b' ys log (select-AllKeyed key b log) ne) in
            subst (λ s. IsList (add_whowas_to_list b x l) b' s) (sym (other_now b' ne))
              (subst
                (λ o.
                  Linked (add_whowas_to_list b x l).next (add_whowas_to_list b x l).prev none o
                    (select key b' log))
                (sym (added-head_other l b x first b' ne))
                (Linked-Same l.next l.prev _ _ none (l.head b') (select key b' log)
                  (added-Same l b x first (select key b' log) (Out-select key b' x log out) far)
                  (lists b')))
      ]
