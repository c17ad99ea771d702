-- ===== src/Whowas/Off.antt =====
-- off_history of src/whowas.c, for a client that goes.
use solidircd.Base.{
  ℕ, zero, suc, ◌<◌, ◌≤◌, ◌≡◌, ◌≢◌, refl, sym, ap, ◌∙◌, subst, subst₂, fun_ext, ◌⊎◌, inl, inr, Bool,
  true, false, List, [], ◌∷◌, Option, none, some, ◌==◌, if◌then◌else◌, arith, length,
}
use solidircd.Whowas.Chains.{select, AllLists}
use solidircd.Whowas.Delete.{IsList, first_of}
use solidircd.Whowas.Lists.{deleted-AllLists, head-first_of}
use solidircd.Whowas.Order.{hashes_of, clients_of, InOrder}
use solidircd.Whowas.Pointers.{Links, put_one, del_whowas_from_list, Linked, Apart}
use solidircd.Whowas.Ring.{all_places, all_places-Apart, length-all_places, all_places-whole}
use solidircd.Whowas.Select.{select-split, select-rest, select-none, is_at-some, length-select}
use solidircd.Whowas.{Whowas, History, set_offline, off_from, off_history}

next-first : (l : Links) (b x : ℕ) (ys : List ℕ) → IsList l b (x ∷ ys) → l.next x ≡ first_of ys
unfolding IsList Linked first_of
next-first l b x [] isl = isl.2
next-first l b x (y ∷ ys) isl = isl.2.0

==→≡ : (a b : ℕ) → (a == b) ≡ true → a ≡ b
==→≡ a b e = ground (arith, e)

-- One entry of the client goes.
module _ (client temp : ℕ) (ys : List ℕ) (h : History) (order : InOrder h)
    (chain : select (clients_of h) client (all_places h.whowas_next) ≡ temp ∷ ys) where
  offline : Whowas
  offline = record (h.entry temp) { online = none }

  clients_after : clients_of (set_offline client temp h) ≡ put_one temp none (clients_of h)
  unfolding set_offline put_one
  clients_after = fun_ext (λ y. at (y == temp) y)
    where
      at :
          (b : Bool) (y : ℕ)
          → (if b then record (h.entry temp) { online = none } else h.entry y).online
            ≡ (if b then none else (h.entry y).online)
      at true y = refl
      at false y = refl

  hashes_after : hashes_of (set_offline client temp h) ≡ hashes_of h
  unfolding set_offline put_one
  hashes_after = fun_ext (λ y. at (y == temp) y (λ e. sym (==→≡ y temp e)))
    where
      at :
          (b : Bool) (y : ℕ)
          → (b ≡ true → temp ≡ y)
          → (if b then record (h.entry temp) { online = none } else h.entry y).hashv
            ≡ (h.entry y).hashv
      at true y e = ap (λ z. (h.entry z).hashv) (e refl)
      at false y e = refl

  set_offline-InOrder : InOrder (set_offline client temp h)
  unfolding set_offline offline
  set_offline-InOrder =
      let (left, right, where_is, on) = select-split (clients_of h) client temp ys _ chain in
      record {
        low = order.low;
        hashes =
            subst (λ k. AllLists h.list k (all_places h.whowas_next)) (sym hashes_after)
              order.hashes;
        clients =
            subst₂ (λ k log. AllLists (del_whowas_from_list client temp h.clist) k log)
              (sym clients_after) (sym where_is)
              (deleted-AllLists h.clist (clients_of h) client temp left right
                (is_at-some (clients_of h temp) client on)
                (subst Apart where_is (all_places-Apart h.whowas_next order.low))
                (subst (AllLists h.clist (clients_of h)) where_is order.clients));
        used = λ y. used_after (y == temp) y;
      }
    where
      used_after :
          (b : Bool) (y : ℕ)
          → ((if b then offline else h.entry y).online ≡ none)
            ⊎ ((c : ℕ) × ((if b then offline else h.entry y).hashv ≡ some c))
      used_after true y = inl refl
      used_after false y = order.used y

  others_after :
      (y : ℕ)
      → ((clients_of (set_offline client temp h) y ≡ clients_of h y)
          ⊎ (clients_of (set_offline client temp h) y ≡ none))
        × (record ((set_offline client temp h).entry y) { online = none }
            ≡ record (h.entry y) { online = none })
  unfolding set_offline put_one
  others_after y = at (y == temp) (λ e. sym (==→≡ y temp e))
    where
      at :
          (b : Bool)
          → (b ≡ true → temp ≡ y)
          → (((if b then record (h.entry temp) { online = none } else h.entry y).online
                ≡ (h.entry y).online)
              ⊎ ((if b then record (h.entry temp) { online = none } else h.entry y).online ≡ none))
            × (record (if b then record (h.entry temp) { online = none } else h.entry y) {
              online = none;
            }
                ≡ record (h.entry y) { online = none })
      at true e = (inr refl, ap (λ z. record (h.entry z) { online = none }) (e refl))
      at false e = (inl refl, refl)

  next_after : h.clist.next temp ≡ first_of ys
  unfolding AllLists
  next_after =
      next-first h.clist client temp ys
        (subst (λ s. IsList h.clist client s) chain (order.clients client))

  chain_after :
      select (clients_of (set_offline client temp h)) client (all_places h.whowas_next) ≡ ys
  chain_after =
      ap (λ k. select k client (all_places h.whowas_next)) clients_after
      ∙ select-rest (clients_of h) client temp ys _ (all_places-Apart h.whowas_next order.low) chain

-- What off_history does to a history
Offs : ℕ → History → History → Type 0
Offs client h h' =
    InOrder h'
    × (h'.whowas_next ≡ h.whowas_next)
    × (select (clients_of h') client (all_places h'.whowas_next) ≡ [])
    × ((y : ℕ)
        → ((clients_of h' y ≡ clients_of h y) ⊎ (clients_of h' y ≡ none))
          × (record (h'.entry y) { online = none } ≡ record (h.entry y) { online = none }))

off_from_lem :
    (xs : List ℕ) (fuel client : ℕ) (first : Option ℕ) (h : History)
    → InOrder h
    → select (clients_of h) client (all_places h.whowas_next) ≡ xs
    → first ≡ first_of xs
    → length xs ≤ fuel
    → (h' : History) × (off_from fuel client first h ≡ some h') × Offs client h h'
unfolding off_from first_of Offs
off_from_lem [] fuel client first h order chain e enough =
    (h, ap (λ o. off_from fuel client o h) e, (order, refl, chain, λ y. (inl refl, refl)))
off_from_lem (temp ∷ ys) zero client first h order chain e enough = absurd (omega (arith, enough))
off_from_lem (temp ∷ ys) (suc fuel) client first h order chain e enough =
    let (h', ran, (order', next, gone, others)) =
      off_from_lem ys fuel client (h.clist.next temp) (set_offline client temp h)
        (set_offline-InOrder client temp ys h order chain)
        (chain_after client temp ys h order chain) (next_after client temp ys h order chain)
        (omega (arith, enough)) in
    (
      h',
      ap (λ o. off_from (suc fuel) client o h) e ∙ ran,
      (
        order',
        next,
        gone,
        λ y.
            let (now, rest) = others y in
            let (before, rest') = others_after client temp ys h order chain y in
            (either now before, rest ∙ rest'),
      ),
    )
  where
    either :
        {a b c : Option ℕ}
        → ((a ≡ b) ⊎ (a ≡ none))
        → ((b ≡ c) ⊎ (b ≡ none))
        → ((a ≡ c) ⊎ (a ≡ none))
    either (inl e) (inl e') = inl (e ∙ e')
    either (inl e) (inr e') = inr (e ∙ e')
    either (inr e) t = inr e

-- In a history in order, off_history comes to its end within as many rounds as there are places, and
-- the order is kept. No place is online for the client any more, and no entry changes but for its
-- `online`, which becomes NULL or stays.
pub off_history-InOrder :
    (client : ℕ) (h : History)
    → InOrder h
    → (h' : History) × (off_history client h ≡ some h')
      × InOrder h'
      × ((i : ℕ) → i < 2048 → clients_of h' i ≢ some client)
      × ((i : ℕ)
          → ((clients_of h' i ≡ clients_of h i) ⊎ (clients_of h' i ≡ none))
            × (record (h'.entry i) { online = none } ≡ record (h.entry i) { online = none }))
unfolding off_history Offs AllLists
off_history-InOrder client h order =
    let xs = select (clients_of h) client (all_places h.whowas_next) in
    let few : length xs ≤ 2048 = omega (
      arith,
      length-select (clients_of h) client (all_places h.whowas_next),
      length-all_places h.whowas_next,
    ) in
    let (h', ran, (order', next, gone, others)) =
      off_from_lem xs 2048 client (h.clist.head client) h order refl
        (head-first_of h.clist client xs (order.clients client)) few in
    (
      h',
      ran,
      order',
      λ i low here.
          all_places-whole i h'.whowas_next low order'.low
            (select-none (clients_of h') client i (all_places h'.whowas_next) gone here),
      others,
    )
