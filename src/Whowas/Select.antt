-- ===== src/Whowas/Select.antt =====
-- The entries of one list of src/whowas.c in the log, and the log without the first of them.
use solidircd.Base.{
  ℕ, ◌≤◌, ◌≡◌, refl, sym, ap, ◌∙◌, subst, inl, inr, true, false, List, [], ◌∷◌, ◌++◌, Option, none,
  some, ◌==◌, arith, length, Bool-cases,
}
use solidircd.Whowas.Chains.{is_at, select, select-put, select-on, select-skip}
use solidircd.Whowas.Pointers.{put_one, Out, Apart}

abbrev head_of : List ℕ → ℕ
head_of [] = 0
head_of (x ∷ xs) = x

abbrev tail_of : List ℕ → List ℕ
tail_of [] = []
tail_of (x ∷ xs) = xs

-- Where the first entry of a list stands in the log
pub select-split :
    (key : ℕ → Option ℕ) (b x : ℕ) (ys log : List ℕ)
    → select key b log ≡ x ∷ ys
    → (left : List ℕ) × (right : List ℕ) × (log ≡ left ++ x ∷ right) × (is_at (key x) b ≡ true)
unfolding select
select-split key b x ys [] e = absurd (ground (arith, e))
select-split key b x ys (y ∷ log) e = elim (Bool-cases (is_at (key y) b)) [
  | inl on ↦
      let same : y ≡ x = ap head_of (sym (select-on key b y log on) ∙ e) in
      ([], log, ap (λ z. z ∷ log) same, subst (λ z. is_at (key z) b ≡ true) same on)
  | inr off ↦
      let (left, right, where_is, on) =
        select-split key b x ys log (sym (select-skip key b y log off) ∙ e) in
      (y ∷ left, right, ap (λ l. y ∷ l) where_is, on)
]

pub is_at-some : (o : Option ℕ) (b : ℕ) → is_at o b ≡ true → o ≡ some b
unfolding is_at
is_at-some none b e = absurd (ground (arith, e))
is_at-some (some k) b e = ap some (ground (arith, e))

unkeyed :
    (key : ℕ → Option ℕ) (b x y : ℕ)
    → is_at (key y) b ≡ false
    → is_at (put_one x none key y) b ≡ false
unfolding put_one is_at
unkeyed key b x y off = elim (Bool-cases (y == x)) [
  | inl on ↦ rw on refl
  | inr elsewhere ↦ rw elsewhere off
]

unkeyed_self : (key : ℕ → Option ℕ) (b x y : ℕ) → y ≡ x → is_at (put_one x none key y) b ≡ false
unfolding put_one is_at
unkeyed_self key b x y e = let here : (y == x) ≡ true = ground (arith, e) in rw here refl

-- Without its key, the first entry is gone from the list.
pub select-rest :
    (key : ℕ → Option ℕ) (b x : ℕ) (ys log : List ℕ)
    → Apart log
    → select key b log ≡ x ∷ ys
    → select (put_one x none key) b log ≡ ys
unfolding Apart select
select-rest key b x ys [] apart e = absurd (ground (arith, e))
select-rest key b x ys (y ∷ log) apart e = elim (Bool-cases (is_at (key y) b)) [
  | inl on ↦
      let found = sym (select-on key b y log on) ∙ e in
      let same : y ≡ x = ap head_of found in
      select-skip (put_one x none key) b y log (unkeyed_self key b x y same)
      ∙ select-put key b x none log (subst (λ z. Out z log) same apart.0)
      ∙ ap tail_of found
  | inr off ↦
      select-skip (put_one x none key) b y log (unkeyed key b x y off)
      ∙ select-rest key b x ys log apart.1 (sym (select-skip key b y log off) ∙ e)
]

pub length-select :
    (key : ℕ → Option ℕ) (b : ℕ) (log : List ℕ) → length (select key b log) ≤ length log
unfolding select
length-select key b [] = omega arith
length-select key b (x ∷ log) = elim (Bool-cases (is_at (key x) b)) [
  | inl on ↦ rw on (omega (arith, length-select key b log))
  | inr off ↦ rw off (omega (arith, length-select key b log))
]

pub select-none :
    (key : ℕ → Option ℕ) (b i : ℕ) (log : List ℕ)
    → select key b log ≡ []
    → key i ≡ some b
    → Out i log
unfolding Out is_at
select-none key b i [] e here = tt
select-none key b i (x ∷ log) e here = elim (Bool-cases (is_at (key x) b)) [
  | inl on ↦ absurd (ground (arith, sym (select-on key b x log on) ∙ e))
  | inr off ↦ (
    (λ same.
        let there : is_at (key i) b ≡ false = ap (λ z. is_at (key z) b) same ∙ off in
        ground (arith, there, here)),
    select-none key b i log (sym (select-skip key b x log off) ∙ e) here,
  )
]
