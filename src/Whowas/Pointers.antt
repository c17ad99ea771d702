-- ===== src/Whowas/Pointers.antt =====
-- The doubly linked lists of src/whowas.c. Its two pairs of functions differ only in the fields that
-- they use: the links of one kind are two functions on the entries and the heads of the lists.
use solidircd.Base.{ℕ, ◌≡◌, ◌≢◌, List, [], ◌∷◌, Option, none, some, ◌==◌, if◌then◌else◌}

-- `next`, `prev` and the buckets, or `cnext`, `cprev` and the clients
pub record Links : Type 0 where
  pub next : ℕ → Option ℕ
  pub prev : ℕ → Option ℕ
  pub head : ℕ → Option ℕ

-- A write to one place
unfoldable pub put_one : {A : Type 0} → ℕ → A → (ℕ → A) → ℕ → A
put_one p v f q = if q == p then v else f q

-- A write through a pointer, unless it is NULL
unfoldable pub put_through : Option ℕ → Option ℕ → (ℕ → Option ℕ) → ℕ → Option ℕ
unfolding put_one
put_through none v f = f
put_through (some p) v f = put_one p v f

-- `add_whowas_to_list` and `add_whowas_to_clist`
unfoldable pub add_whowas_to_list : ℕ → ℕ → Links → Links
unfolding put_one put_through
add_whowas_to_list bucket whowas l = record {
  next = put_one whowas (l.head bucket) l.next;
  prev = put_through (l.head bucket) (some whowas) (put_one whowas none l.prev);
  head = put_one bucket (some whowas) l.head;
}

-- The first write of `del_whowas_from_list`, by whether there is an entry before
unfoldable pub skip : ℕ → ℕ → Option ℕ → Links → Links
unfolding put_one
skip bucket whowas none l = record l { head = put_one bucket (l.next whowas) l.head }
skip bucket whowas (some before) l = record l { next = put_one before (l.next whowas) l.next }

-- `del_whowas_from_list` and `del_whowas_from_clist`
unfoldable pub del_whowas_from_list : ℕ → ℕ → Links → Links
unfolding skip put_through
del_whowas_from_list bucket whowas l =
    let skipped = skip bucket whowas (l.prev whowas) l in
    record skipped { prev = put_through (skipped.next whowas) (skipped.prev whowas) skipped.prev }

-- From `first` on, with `before` in front of it, the links go through these entries.
unfoldable pub Linked : (ℕ → Option ℕ) → (ℕ → Option ℕ) → Option ℕ → Option ℕ → List ℕ → Type 0
Linked next prev before first [] = first ≡ none
Linked next prev before first (x ∷ xs) =
    (first ≡ some x) × (prev x ≡ before) × Linked next prev (some x) (next x) xs

unfoldable pub Out : ℕ → List ℕ → Type 0
Out x [] = Unit
Out x (y ∷ ys) = (x ≢ y) × Out x ys

-- No entry twice
unfoldable pub Apart : List ℕ → Type 0
unfolding Out
Apart [] = Unit
Apart (x ∷ xs) = Out x xs × Apart xs

-- The pointer is to none of these.
unfoldable pub Away : Option ℕ → List ℕ → Type 0
unfolding Out
Away none xs = Unit
Away (some x) xs = Out x xs
