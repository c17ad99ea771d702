-- ===== src/Whowas/Added.antt =====
-- What add_history of src/whowas.c does to the ring and to its lists.
use solidircd.Base.{
  ℕ, ◌+◌, ◌%◌, ◌≡◌, ◌⊎◌, refl, sym, subst, ap, ◌∙◌, Bool, true, false, Option, none, some, ◌==◌,
  ==_iff, inl, inr, take, if◌then◌else◌, arith, Bool-cases,
}
use solidircd.Hash.{hash_whowas_name}
use solidircd.Whowas.Order.{InOrder, relinked, added_lem, add_history-InOrder, step_next_lem}
use solidircd.Whowas.Pointers.{Links, put_one, add_whowas_to_list}
use solidircd.Whowas.{Whowas, Person, History, entry_of, add_history}

-- A written list begins with what was written.
relinked-head : (i b : ℕ) (old : Option ℕ) (l : Links) → (relinked i old (some b) l).head b ≡ some i
unfolding relinked add_whowas_to_list put_one
relinked-head i b old l = ground arith

client_head :
    (now : ℕ) (online : Bool) (cptr : Person) (h : History)
    → InOrder h
    → (online ≡ false)
      ⊎ ((online ≡ true)
          × ((add_history now online cptr h).clist.head cptr.at ≡ some h.whowas_next))
client_head now false cptr h order = inl refl
client_head now true cptr h order = inr (
  refl,
  ap (λ (l : Links). l.head cptr.at) (added_lem now true cptr h order).1
      ∙ relinked-head h.whowas_next cptr.at _ h.clist,
)

put_cases : (i j : ℕ) (new : Whowas) (f : ℕ → Whowas) → (j ≡ i) ⊎ (put_one i new f j ≡ f j)
unfolding put_one
put_cases i j new f = elim (Bool-cases (j == i)) [
  | inl e ↦ inl ((==_iff j i).0 e)
  | inr e ↦ inr (rw e refl)
]

put_there : (i : ℕ) (new : Whowas) (f : ℕ → Whowas) → put_one i new f i ≡ new
unfolding put_one
put_there i new f = ground arith

-- In a history in order, add_history keeps the order and goes one place on, round the ring; at the
-- place that was next stands the client now, with the hash of its nickname, the nickname up to 30
-- bytes, the time, and the client itself as the one online exactly when it is online; no other place
-- changes; and that place is the first in the list of its hash and, when the client is online, in the
-- list of the client.
pub add_history_lem :
    (now : ℕ) (online : Bool) (cptr : Person) (h : History)
    → InOrder h
    → InOrder (add_history now online cptr h)
      × ((add_history now online cptr h).whowas_next ≡ (h.whowas_next + 1) % 2048)
      × (((add_history now online cptr h).entry h.whowas_next).hashv
          ≡ some (hash_whowas_name cptr.name))
      × (((add_history now online cptr h).entry h.whowas_next).name ≡ take 30 cptr.name)
      × (((add_history now online cptr h).entry h.whowas_next).logoff ≡ now)
      × (((add_history now online cptr h).entry h.whowas_next).online
          ≡ (if online then some cptr.at else none))
      × ((j : ℕ) → (j ≡ h.whowas_next) ⊎ ((add_history now online cptr h).entry j ≡ h.entry j))
      × ((add_history now online cptr h).list.head (hash_whowas_name cptr.name)
          ≡ some h.whowas_next)
      × ((online ≡ false)
          ⊎ ((online ≡ true)
              × ((add_history now online cptr h).clist.head cptr.at ≡ some h.whowas_next)))
unfolding add_history entry_of
add_history_lem now online cptr h order =
    let i = h.whowas_next in
    let (list, _, entry) = added_lem now online cptr h order in
    let here : (add_history now online cptr h).entry i ≡ entry_of now online cptr =
      ap (λ (f : ℕ → Whowas). f i) entry ∙ put_there i _ h.entry in
    (
      add_history-InOrder now online cptr h order,
      step_next_lem i order.low,
      ap (λ (w : Whowas). w.hashv) here,
      ap (λ (w : Whowas). w.name) here,
      ap (λ (w : Whowas). w.logoff) here,
      ap (λ (w : Whowas). w.online) here,
      λ j.
          subst (λ (f : ℕ → Whowas). (j ≡ i) ⊎ (f j ≡ h.entry j)) (sym entry)
            (put_cases i j _ h.entry),
      ap (λ (l : Links). l.head (hash_whowas_name cptr.name)) list
          ∙ relinked-head i (hash_whowas_name cptr.name) _ h.list,
      client_head now online cptr h order,
    )
