-- ===== src/Whowas/Runs.antt =====
-- The runs of the history of src/whowas.c.
use solidircd.Base.{
  ℕ, zero, suc, ◌≤◌, ◌≡◌, refl, sym, ap, ◌∙◌, subst, inl, inr, Bool, true, false, List, [], ◌∷◌,
  none, some, ◌==◌, if◌then◌else◌, arith, length, take,
}
use solidircd.Hash.{hash_whowas_name}
use solidircd.Match.Compare.{Bytes, IsText}
use solidircd.Whowas.Chains.{select, AllLists}
use solidircd.Whowas.Delete.{IsList}
use solidircd.Whowas.Off.{off_history-InOrder}
use solidircd.Whowas.Order.{InOrder, added_lem, add_history-InOrder}
use solidircd.Whowas.Pointers.{put_one, Linked}
use solidircd.Whowas.Recall.{IsNamed}
use solidircd.Whowas.Ring.{all_places}
use solidircd.Whowas.{
  Whowas, Person, History, initwhowas, no_links, nicklen, entry_of, add_history, off_history,
}

-- From initwhowas on, by add_history for names that fit and by off_history
pub data Reached : History → Type 0 where
  start : Reached initwhowas
  added :
      {h : History}
      → (now : ℕ) → (online : Bool) → (cptr : Person) → IsText cptr.name
      → length cptr.name ≤ nicklen
      → Reached h
      → Reached (add_history now online cptr h)
  departed :
      {h h' : History} → (client : ℕ) → off_history client h ≡ some h' → Reached h → Reached h'

select-unkeyed : (b : ℕ) (log : List ℕ) → select (λ i. none) b log ≡ []
unfolding select
select-unkeyed b [] = refl
select-unkeyed b (x ∷ log) = select-unkeyed b log

no_links-AllLists : (log : List ℕ) → AllLists no_links (λ i. none) log
unfolding AllLists IsList Linked
no_links-AllLists log b = subst (λ s. IsList no_links b s) (sym (select-unkeyed b log)) refl

pub init-InOrder : InOrder initwhowas
unfolding initwhowas
init-InOrder = record {
  low = omega arith;
  hashes = no_links-AllLists (all_places 0);
  clients = no_links-AllLists (all_places 0);
  used = λ i. inl refl;
}

abbrev AllNamed : History → Type 0
AllNamed h = (i : ℕ) → IsNamed (h.entry i)

take_all : (n : ℕ) (s : Bytes) → length s ≤ n → take n s ≡ s
take_all zero [] short = refl
take_all zero (c ∷ s) short = absurd (omega (arith, short))
take_all (suc n) [] short = refl
take_all (suc n) (c ∷ s) short = ap (λ l. c ∷ l) (take_all n s (omega (arith, short)))

entry_of-Named :
    (now : ℕ) (online : Bool) (cptr : Person)
    → IsText cptr.name
    → length cptr.name ≤ nicklen
    → IsNamed (entry_of now online cptr)
unfolding entry_of IsNamed
entry_of-Named now online cptr text short =
    let whole = take_all nicklen cptr.name short in
    inr (ap (λ s. some (hash_whowas_name s)) (sym whole), subst IsText (sym whole) text)

put-AllNamed :
    (entry : ℕ → Whowas) (i : ℕ) (new : Whowas)
    → IsNamed new
    → ((y : ℕ) → IsNamed (entry y))
    → (y : ℕ) → IsNamed (put_one i new entry y)
unfolding put_one
put-AllNamed entry i new named all y = at (y == i)
  where
    at : (b : Bool) → IsNamed (if b then new else entry y)
    at true = named
    at false = all y

-- `online` says nothing about names.
offline-Named :
    (w w' : Whowas)
    → record w' { online = none } ≡ record w { online = none }
    → IsNamed w
    → IsNamed w'
unfolding IsNamed
offline-Named w w' e named = subst IsNamed (sym e) named

pub some_same : {A : Type 0} {a b : A} → some a ≡ some b → a ≡ b
some_same {a = a} e = ap (λ o. elim o [ none ↦ a | some x ↦ x ]) e

pub Reached-InOrder : (h : History) → Reached h → InOrder h × AllNamed h
unfolding IsNamed initwhowas
Reached-InOrder h start = (init-InOrder, λ i. inl refl)
Reached-InOrder h (added {h = before} now online cptr text short run) =
    let (order, named) = Reached-InOrder before run in
    let (list, clist, entry) = added_lem now online cptr before order in
    (
      add_history-InOrder now online cptr before order,
      λ i.
          subst (λ (e : ℕ → Whowas). IsNamed (e i)) (sym entry)
            (put-AllNamed before.entry before.whowas_next (entry_of now online cptr)
              (entry_of-Named now online cptr text short) named i),
    )
Reached-InOrder h (departed {h = before} client gone run) =
    let (order, named) = Reached-InOrder before run in
    let (h', ran, order', off, others) = off_history-InOrder client before order in
    let same : h' ≡ h = some_same (sym ran ∙ gone) in
    subst (λ x. InOrder x × AllNamed x) same
      (order', λ i. offline-Named (before.entry i) (h'.entry i) (others i).1 (named i))
