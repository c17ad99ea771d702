-- ===== src/Whowas/Chains.antt =====
-- The lists of src/whowas.c together: every list has the entries with its key, in the order of a log.
use solidircd.Base.{
  ℕ, ◌≡◌, ◌≢◌, refl, ap, inl, inr, Bool, true, false, List, [], ◌∷◌, ◌++◌, Option, none, some, ◌==◌,
  if◌then◌else◌, arith, Bool-cases,
}
use solidircd.Whowas.Delete.{IsList, back, first_of}
use solidircd.Whowas.Pointers.{Links, put_one, Out, Apart, Away}

unfoldable pub is_at : Option ℕ → ℕ → Bool
is_at none b = false
is_at (some k) b = k == b

-- The entries with a key, in the order of the log
unfoldable pub select : (ℕ → Option ℕ) → ℕ → List ℕ → List ℕ
unfolding is_at
select key b [] = []
select key b (x ∷ log) = let rest = select key b log in if is_at (key x) b then x ∷ rest else rest

unfoldable pub AllLists : Links → (ℕ → Option ℕ) → List ℕ → Type 0
unfolding select IsList
AllLists l key log = (b : ℕ) → IsList l b (select key b log)

pub select-append :
    (key : ℕ → Option ℕ) (b : ℕ) (xs ys : List ℕ)
    → select key b (xs ++ ys) ≡ select key b xs ++ select key b ys
unfolding select
select-append key b [] ys = refl
select-append key b (x ∷ xs) ys = elim (Bool-cases (is_at (key x) b)) [
  | inl on ↦ rw on (ap (λ l. x ∷ l) (select-append key b xs ys))
  | inr off ↦ rw off (select-append key b xs ys)
]

pub select-here :
    (key : ℕ → Option ℕ) (b x : ℕ) (xs : List ℕ)
    → key x ≡ some b
    → select key b (x ∷ xs) ≡ x ∷ select key b xs
unfolding select is_at
select-here key b x xs e = rw e (ground arith)

pub select-on :
    (key : ℕ → Option ℕ) (b x : ℕ) (xs : List ℕ)
    → is_at (key x) b ≡ true
    → select key b (x ∷ xs) ≡ x ∷ select key b xs
unfolding select
select-on key b x xs on = rw on refl

pub select-skip :
    (key : ℕ → Option ℕ) (b x : ℕ) (xs : List ℕ)
    → is_at (key x) b ≡ false
    → select key b (x ∷ xs) ≡ select key b xs
unfolding select
select-skip key b x xs off = rw off refl

-- A write to the key of an entry that the log does not have
pub select-put :
    (key : ℕ → Option ℕ) (b x : ℕ) (v : Option ℕ) (xs : List ℕ)
    → Out x xs
    → select (put_one x v key) b xs ≡ select key b xs
unfolding select put_one Out
select-put key b x v [] out = refl
select-put key b x v (y ∷ xs) out =
    let other : (y == x) ≡ false = ground (arith, out.0) in
    rw (other, select-put key b x v xs out.1) refl

pub Out-select : (key : ℕ → Option ℕ) (b x : ℕ) (xs : List ℕ) → Out x xs → Out x (select key b xs)
unfolding select Out
Out-select key b x [] out = tt
Out-select key b x (y ∷ xs) out = elim (Bool-cases (is_at (key y) b)) [
  | inl on ↦ rw on (out.0, Out-select key b x xs out.1)
  | inr off ↦ rw off (Out-select key b x xs out.1)
]

pub Apart-select : (key : ℕ → Option ℕ) (b : ℕ) (xs : List ℕ) → Apart xs → Apart (select key b xs)
unfolding select Apart
Apart-select key b [] apart = tt
Apart-select key b (y ∷ xs) apart = elim (Bool-cases (is_at (key y) b)) [
  | inl on ↦ rw on (Out-select key b y xs apart.0, Apart-select key b xs apart.1)
  | inr off ↦ rw off (Apart-select key b xs apart.1)
]

-- An entry with another key
pub Out-key :
    (key : ℕ → Option ℕ) (b x : ℕ) (xs : List ℕ) → is_at (key x) b ≡ false → Out x (select key b xs)
unfolding select Out
Out-key key b x [] off = tt
Out-key key b x (y ∷ xs) off = elim (Bool-cases (is_at (key y) b)) [
  | inl on ↦
      rw on (
        (λ e. absurd (ground (arith, on, off, ap (λ z. is_at (key z) b) e))),
        Out-key key b x xs off,
      )
  | inr off' ↦ rw off' (Out-key key b x xs off)
]

-- All entries of a list have its key.
unfoldable pub AllKeyed : (ℕ → Option ℕ) → ℕ → List ℕ → Type 0
AllKeyed key b [] = Unit
AllKeyed key b (x ∷ xs) = (is_at (key x) b ≡ true) × AllKeyed key b xs

pub select-AllKeyed : (key : ℕ → Option ℕ) (b : ℕ) (xs : List ℕ) → AllKeyed key b (select key b xs)
unfolding select AllKeyed
select-AllKeyed key b [] = tt
select-AllKeyed key b (x ∷ xs) = elim (Bool-cases (is_at (key x) b)) [
  | inl on ↦ rw on (on, select-AllKeyed key b xs)
  | inr off ↦ rw off (select-AllKeyed key b xs)
]

pub is_at-other : (o : Option ℕ) (b b' : ℕ) → is_at o b ≡ true → b' ≢ b → is_at o b' ≡ false
unfolding is_at
is_at-other none b b' on ne = refl
is_at-other (some k) b b' on ne = ground (arith, on, ne)

-- The neighbours of an entry are in its list, and so in no other.
pub back-Away :
    (key : ℕ → Option ℕ) (b b' : ℕ) (p : Option ℕ) (xs log : List ℕ)
    → AllKeyed key b xs
    → b' ≢ b
    → Away p (select key b' log)
    → Away (back p xs) (select key b' log)
unfolding back AllKeyed Away
back-Away key b b' p [] log keyed ne far = far
back-Away key b b' p (x ∷ xs) log keyed ne far =
    back-Away key b b' (some x) xs log keyed.1 ne
      (Out-key key b' x log (is_at-other (key x) b b' keyed.0 ne))

pub first_of-Away :
    (key : ℕ → Option ℕ) (b b' : ℕ) (xs log : List ℕ)
    → AllKeyed key b xs
    → b' ≢ b
    → Away (first_of xs) (select key b' log)
unfolding first_of AllKeyed Away
first_of-Away key b b' [] log keyed ne = tt
first_of-Away key b b' (x ∷ xs) log keyed ne =
    Out-key key b' x log (is_at-other (key x) b b' keyed.0 ne)
