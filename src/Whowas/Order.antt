-- ===== src/Whowas/Order.antt =====
-- The order of the lists of src/whowas.c, and add_history.
use solidircd.Base.{
  ℕ, ◌+◌, ◌%◌, ◌<◌, ◌≡◌, refl, sym, ap, ◌∙◌, subst, subst₂, fun_ext, ◌⊎◌, inl, inr, Bool, true,
  false, List, [], ◌∷◌, ◌++◌, append-nil, Option, none, some, ◌==◌, if◌then◌else◌, arith,
}
use solidircd.Hash.{hash_whowas_name}
use solidircd.Whowas.Chains.{is_at, select, AllLists, select-append, select-skip}
use solidircd.Whowas.Delete.{IsList}
use solidircd.Whowas.Lists.{Apart-middle, deleted-AllLists, added-AllLists}
use solidircd.Whowas.Pointers.{Links, put_one, add_whowas_to_list, del_whowas_from_list, Out, Apart}
use solidircd.Whowas.Ring.{
  all_places, rest_places, all_places_last, all_places_step, all_places-Apart, rest_places-Apart,
}
use solidircd.Whowas.{
  Whowas, Person, History, forget_online, forget, entry_of, step_next, add_history,
}

abbrev pub hashes_of : History → ℕ → Option ℕ
hashes_of h i = (h.entry i).hashv

abbrev pub clients_of : History → ℕ → Option ℕ
clients_of h i = (h.entry i).online

-- Each list of WHOWASHASH has the entries with its hash, each list of a client the entries that are
-- online for it, both from the last one written on; an entry that was never used is not online.
pub record InOrder (h : History) : Type 0 where
  pub low : h.whowas_next < 2048
  pub hashes : AllLists h.list (hashes_of h) (all_places h.whowas_next)
  pub clients : AllLists h.clist (clients_of h) (all_places h.whowas_next)
  pub used : (i : ℕ) → (clients_of h i ≡ none) ⊎ ((b : ℕ) × (hashes_of h i ≡ some b))

-- An entry without a key stands in no list.
without_key :
    (l : Links) (key : ℕ → Option ℕ) (i : ℕ) (rest : List ℕ)
    → key i ≡ none
    → AllLists l key (rest ++ i ∷ [])
    → AllLists l key rest
unfolding AllLists is_at select
without_key l key i rest e lists b =
    subst (λ s. IsList l b s)
      (select-append key b rest (i ∷ [])
        ∙ ap (λ s. select key b rest ++ s) (select-skip key b i [] (rw e refl))
        ∙ append-nil (select key b rest))
      (lists b)

unkeyed_first :
    (l : Links) (key : ℕ → Option ℕ) (i : ℕ) (rest : List ℕ)
    → key i ≡ none
    → AllLists l key rest
    → AllLists l key (i ∷ rest)
unfolding AllLists is_at
unkeyed_first l key i rest e lists b =
    subst (λ s. IsList l b s) (sym (select-skip key b i rest (rw e refl))) (lists b)

-- What happens to the links of one kind when an entry is forgotten
unfoldable pub unlinked : ℕ → Option ℕ → Links → Links
unfolding del_whowas_from_list
unlinked i none l = l
unlinked i (some b) l = del_whowas_from_list b i l

put_same : (key : ℕ → Option ℕ) (i : ℕ) (v : Option ℕ) → key i ≡ v → put_one i v key ≡ key
unfolding put_one
put_same key i v e = fun_ext (λ y. ground (arith, e))

put_here : (key : ℕ → Option ℕ) (i : ℕ) (v : Option ℕ) → put_one i v key i ≡ v
unfolding put_one
put_here key i v = ground arith

unlinked-AllLists :
    (l : Links) (key : ℕ → Option ℕ) (i : ℕ) (rest : List ℕ) (o : Option ℕ)
    → key i ≡ o
    → Apart (rest ++ i ∷ [])
    → AllLists l key (rest ++ i ∷ [])
    → AllLists (unlinked i o l) (put_one i none key) rest
unfolding unlinked
unlinked-AllLists l key i rest none e apart lists =
    subst (λ k. AllLists l k rest) (sym (put_same key i none e)) (without_key l key i rest e lists)
unlinked-AllLists l key i rest (some b) e apart lists =
    without_key (del_whowas_from_list b i l) (put_one i none key) i rest (put_here key i none)
      (deleted-AllLists l key b i rest [] e apart lists)

forget_online_lem :
    (h : History) (i : ℕ) (o : Option ℕ)
    → ((forget_online i o h).list ≡ h.list)
      × ((forget_online i o h).clist ≡ unlinked i o h.clist)
      × ((forget_online i o h).entry ≡ h.entry)
unfolding forget_online unlinked
forget_online_lem h i none = (refl, refl, refl)
forget_online_lem h i (some c) = (refl, refl, refl)

forget_lem :
    (h : History) (i : ℕ) (o : Option ℕ)
    → ((clients_of h i ≡ none) ⊎ ((b : ℕ) × (o ≡ some b)))
    → ((forget i o h).list ≡ unlinked i o h.list)
      × ((forget i o h).clist ≡ unlinked i (clients_of h i) h.clist)
      × ((forget i o h).entry ≡ h.entry)
unfolding forget unlinked
forget_lem h i none (inl e) = (refl, sym (ap (λ o. unlinked i o h.clist) e), refl)
forget_lem h i none (inr (b, e)) = absurd (ground (arith, e))
forget_lem h i (some b) used =
    let (list, clist, entry) = forget_online_lem h i (clients_of h i) in
    (ap (del_whowas_from_list b i) list, clist, entry)

pub step_next_lem : (i : ℕ) → i < 2048 → step_next i ≡ (i + 1) % 2048
unfolding step_next
step_next_lem i low = ground (arith, low)

-- The keys of the entries behind the write of a new one
pub put_field :
    (field : Whowas → Option ℕ) (entry : ℕ → Whowas) (i : ℕ) (new : Whowas)
    → (λ y. field (put_one i new entry y))
      ≡ put_one i (field new) (put_one i none (λ y. field (entry y)))
unfolding put_one
put_field field entry i new = fun_ext (λ y. at (y == i) y)
  where
    at :
        (b : Bool) (y : ℕ)
        → field (if b then new else entry y)
          ≡ (if b then field new else (if b then none else field (entry y)))
    at true y = refl
    at false y = refl

-- The links of one kind when an entry is written over, with a key or without one
unfoldable pub relinked : ℕ → Option ℕ → Option ℕ → Links → Links
unfolding add_whowas_to_list unlinked
relinked i old none l = unlinked i old l
relinked i old (some b) l = add_whowas_to_list b i (unlinked i old l)

turned-AllLists :
    (l : Links) (key : ℕ → Option ℕ) (i : ℕ) (rest : List ℕ) (old new : Option ℕ)
    → Out i rest
    → Apart rest
    → AllLists (unlinked i old l) (put_one i none key) rest
    → AllLists (relinked i old new l) (put_one i new (put_one i none key)) (i ∷ rest)
unfolding relinked
turned-AllLists l key i rest old none out apart free =
    unkeyed_first (unlinked i old l) (put_one i none (put_one i none key)) i rest
      (put_here (put_one i none key) i none)
      (subst (λ k. AllLists (unlinked i old l) k rest)
        (sym (put_same (put_one i none key) i none (put_here key i none))) free)
turned-AllLists l key i rest old (some b) out apart free =
    added-AllLists (unlinked i old l) (put_one i none key) b i rest out apart free

relinked-AllLists :
    (l : Links) (key : ℕ → Option ℕ) (i : ℕ) (old new : Option ℕ)
    → i < 2048
    → key i ≡ old
    → AllLists l key (all_places i)
    → AllLists
        (relinked i old new l)
        (put_one i new (put_one i none key))
        (all_places (step_next i))
unfolding relinked
relinked-AllLists l key i old new low e lists =
    let rest = rest_places i in
    let apart : Apart (rest ++ i ∷ []) =
      subst Apart (all_places_last i low) (all_places-Apart i low) in
    let free =
      unlinked-AllLists l key i rest old e apart
        (subst (AllLists l key) (all_places_last i low) lists) in
    let turned = all_places_step i (step_next i) low (step_next_lem i low) in
    subst (AllLists (relinked i old new l) (put_one i new (put_one i none key))) (sym turned) (
      turned-AllLists l key i rest old new (Apart-middle rest i [] apart).0
        (rest_places-Apart i low) free)

-- add_history, kind by kind
pub added_lem :
    (now : ℕ) (online : Bool) (cptr : Person) (h : History)
    → InOrder h
    → ((add_history now online cptr h).list
        ≡ relinked h.whowas_next
            (hashes_of h h.whowas_next)
            (some (hash_whowas_name cptr.name))
            h.list)
      × ((add_history now online cptr h).clist
          ≡ relinked h.whowas_next
              (clients_of h h.whowas_next)
              (if online then some cptr.at else none)
              h.clist)
      × ((add_history now online cptr h).entry
          ≡ put_one h.whowas_next (entry_of now online cptr) h.entry)
unfolding add_history relinked
added_lem now true cptr h order =
    let i = h.whowas_next in
    let (list, clist, entry) = forget_lem h i (hashes_of h i) (order.used i) in
    (
      ap (add_whowas_to_list (hash_whowas_name cptr.name) i) list,
      ap (add_whowas_to_list cptr.at i) clist,
      ap (put_one i (entry_of now true cptr)) entry,
    )
added_lem now false cptr h order =
    let i = h.whowas_next in
    let (list, clist, entry) = forget_lem h i (hashes_of h i) (order.used i) in
    (
      ap (add_whowas_to_list (hash_whowas_name cptr.name) i) list,
      clist,
      ap (put_one i (entry_of now false cptr)) entry,
    )

used_put :
    (entry : ℕ → Whowas) (i : ℕ) (new : Whowas) (b : ℕ)
    → new.hashv ≡ some b
    → ((y : ℕ) → ((entry y).online ≡ none) ⊎ ((c : ℕ) × ((entry y).hashv ≡ some c)))
    → (y : ℕ)
    → ((put_one i new entry y).online ≡ none) ⊎ ((c : ℕ) × ((put_one i new entry y).hashv ≡ some c))
unfolding put_one
used_put entry i new b e used y = at (y == i)
  where
    at :
        (t : Bool)
        → ((if t then new else entry y).online ≡ none)
          ⊎ ((c : ℕ) × ((if t then new else entry y).hashv ≡ some c))
    at true = inr (b, e)
    at false = used y

step_next_low : (i : ℕ) → i < 2048 → step_next i < 2048
unfolding step_next
step_next_low i low = ground (arith, low)

-- In a history in order, add_history keeps the order: the place that is next is taken out of its two
-- lists and comes to the front of the lists of its new hash and, when it is online, of its new client.
pub add_history-InOrder :
    (now : ℕ) (online : Bool) (cptr : Person) (h : History)
    → InOrder h
    → InOrder (add_history now online cptr h)
unfolding entry_of add_history
add_history-InOrder now online cptr h order =
    let i = h.whowas_next in
    let new = entry_of now online cptr in
    let (list, clist, entry) = added_lem now online cptr h order in
    let hashes' : hashes_of (add_history now online cptr h)
        ≡ put_one i new.hashv (put_one i none (hashes_of h)) =
      ap (λ (e : ℕ → Whowas). λ y. (e y).hashv) entry ∙ put_field (λ w. w.hashv) h.entry i new in
    let clients' : clients_of (add_history now online cptr h)
        ≡ put_one i new.online (put_one i none (clients_of h)) =
      ap (λ (e : ℕ → Whowas). λ y. (e y).online) entry ∙ put_field (λ w. w.online) h.entry i new in
    record {
      low = step_next_low i order.low;
      hashes =
          subst₂ (λ l k. AllLists l k (all_places (step_next i))) (sym list) (sym hashes')
            (relinked-AllLists h.list (hashes_of h) i _ new.hashv order.low refl order.hashes);
      clients =
          subst₂ (λ l k. AllLists l k (all_places (step_next i))) (sym clist) (sym clients')
            (relinked-AllLists h.clist (clients_of h) i _ new.online order.low refl order.clients);
      used = λ y.
          subst (λ (e : ℕ → Whowas). ((e y).online ≡ none) ⊎ ((b : ℕ) × ((e y).hashv ≡ some b)))
            (sym entry) (used_put h.entry i new (hash_whowas_name cptr.name) refl order.used y);
    }
