-- ===== src/Whowas/Last.antt =====
-- What the ring of src/whowas.c holds: the last entries that were written.
use solidircd.Base.{
  ℕ, zero, suc, ◌+◌, ◌-◌, ◌%◌, ◌<◌, ◌≡◌, ◌≢◌, ap, ◌∙◌, Bool, List, [], ◌∷◌, some, get_elem?, arith,
}
use solidircd.Whowas.Order.{InOrder, added_lem, add_history-InOrder, step_next_lem}
use solidircd.Whowas.Pointers.{put_one}
use solidircd.Whowas.Runs.{some_same}
use solidircd.Whowas.{Whowas, Person, History, entry_of, add_history}

-- A call of add_history
pub record Call : Type 0 where
  pub now : ℕ
  pub online : Bool
  pub cptr : Person

-- The calls, the newest of them first in the list
unfoldable pub adds : List Call → History → History
unfolding add_history
adds [] h = h
adds (e ∷ es) h = add_history e.now e.online e.cptr (adds es h)

abbrev pub written : Call → Whowas
written e = entry_of e.now e.online e.cptr

-- The place that was written so many calls before the last
abbrev pub place : ℕ → ℕ → ℕ
place next k = (next + 2048 - (k + 1)) % 2048

adds-InOrder : (es : List Call) (h : History) → InOrder h → InOrder (adds es h)
unfolding adds
adds-InOrder [] h order = order
adds-InOrder (e ∷ es) h order =
    add_history-InOrder e.now e.online e.cptr (adds es h) (adds-InOrder es h order)

put_elsewhere : (f : ℕ → Whowas) (i j : ℕ) (v : Whowas) → j ≢ i → put_one i v f j ≡ f j
unfolding put_one
put_elsewhere f i j v ne = ground (arith, ne)

put_at_self : (f : ℕ → Whowas) (i j : ℕ) (v : Whowas) → j ≡ i → put_one i v f j ≡ v
unfolding put_one
put_at_self f i j v e = ground (arith, e)

-- add_history on the entries and on the next place
stepped :
    (e : Call) (h : History)
    → InOrder h
    → ((add_history e.now e.online e.cptr h).entry ≡ put_one h.whowas_next (written e) h.entry)
      × ((add_history e.now e.online e.cptr h).whowas_next ≡ (h.whowas_next + 1) % 2048)
unfolding add_history
stepped e h order =
    ((added_lem e.now e.online e.cptr h order).2, step_next_lem h.whowas_next order.low)

-- From a history in order on, behind any calls of add_history: each of the last 2048 of them still
-- stands, whole, round the ring, at the place before the next one when no call came after it, and one
-- more step back for each call that did.
pub adds-last :
    (es : List Call) (h : History) (k : ℕ) (e : Call)
    → InOrder h
    → k < 2048
    → get_elem? es k ≡ some e
    → (adds es h).entry (place (adds es h).whowas_next k) ≡ written e
unfolding adds
adds-last [] h k e order low found = absurd (ground (arith, found))
adds-last (c ∷ es) h zero e order low found =
    let before = adds es h in
    let order' = adds-InOrder es h order in
    let (entry, next) = stepped c before order' in
    let here : place (adds (c ∷ es) h).whowas_next 0 ≡ before.whowas_next =
      omega (arith, next, order'.low) in
    let same : c ≡ e = some_same found in
    ap (λ (f : ℕ → Whowas). f (place (adds (c ∷ es) h).whowas_next 0)) entry
    ∙ put_at_self before.entry before.whowas_next _ (written c) here
    ∙ ap (λ (x : Call). written x) same
adds-last (c ∷ es) h (suc k) e order low found =
    let before = adds es h in
    let order' = adds-InOrder es h order in
    let (entry, next) = stepped c before order' in
    let back : place (adds (c ∷ es) h).whowas_next (suc k) ≡ place before.whowas_next k =
      omega (arith, next, order'.low, low) in
    let elsewhere : place before.whowas_next k ≢ before.whowas_next =
      λ e'. absurd (omega (arith, e', order'.low, low)) in
    ap (λ (f : ℕ → Whowas). f (place (adds (c ∷ es) h).whowas_next (suc k))) entry
    ∙ ap (λ (j : ℕ). put_one before.whowas_next (written c) before.entry j) back
    ∙ put_elsewhere before.entry before.whowas_next _ (written c) elsewhere
    ∙ adds-last es h k e order (omega (arith, low)) found
