-- ===== src/Whowas/Ring.antt =====
-- The places of WHOWAS in src/whowas.c, from the last one written to the oldest.
use solidircd.Base.{
  ℕ, zero, suc, ◌+◌, ◌-◌, ◌%◌, ◌<◌, ◌≤◌, ◌≡◌, ◌≢◌, refl, ap, ◌∙◌, List, [], ◌∷◌, ◌++◌, arith,
  length, ltb, ◌==◌, Bool-cases, inl, inr,
}
use solidircd.Whowas.Pointers.{Out, Apart}

-- So many places, the first of them so far before this one
unfoldable pub places : ℕ → ℕ → ℕ → List ℕ
places zero k i = []
places (suc n) k i = (i + 2048 - k) % 2048 ∷ places n (k + 1) i

-- All places before the next one, which is the last of them
unfoldable pub all_places : ℕ → List ℕ
unfolding places
all_places i = places 2048 1 i

pub length-places : (n k i : ℕ) → length (places n k i) ≡ n
unfolding places
length-places zero k i = refl
length-places (suc n) k i = ap suc (length-places n (k + 1) i)

places-last : (n k i : ℕ) → places (suc n) k i ≡ places n k i ++ (i + 2048 - (k + n)) % 2048 ∷ []
unfolding places
places-last zero k i =
    let e : k ≡ k + 0 = omega arith in ap (λ (j : ℕ). (i + 2048 - j) % 2048 ∷ []) e
places-last (suc n) k i =
    let e : k + 1 + n ≡ k + suc n = omega arith in
    ap (λ l. (i + 2048 - k) % 2048 ∷ l)
      (places-last n (k + 1) i ∙ ap (λ (j : ℕ). places n (k + 1) i ++ (i + 2048 - j) % 2048 ∷ []) e)

places-shift :
    (n k i j : ℕ)
    → i < 2048
    → 0 < k
    → k + n ≤ 2048
    → j ≡ (i + 1) % 2048
    → places n (k + 1) j ≡ places n k i
unfolding places
places-shift zero k i j low pos room e = refl
places-shift (suc n) k i j low pos room e =
    let same : (j + 2048 - (k + 1)) % 2048 ≡ (i + 2048 - k) % 2048 =
      omega (arith, low, pos, room, e) in
    ap (λ (x : ℕ). x ∷ places n (k + 1 + 1) j) same
    ∙ ap (λ l. (i + 2048 - k) % 2048 ∷ l)
        (places-shift n (k + 1) i j low (omega arith) (omega (arith, room)) e)

places-Out :
    (n k k' i : ℕ)
    → i < 2048
    → 0 < k
    → k < k'
    → k' + n ≤ k + 2048
    → k' + n ≤ 2049
    → Out ((i + 2048 - k) % 2048) (places n k' i)
unfolding places Out
places-Out zero k k' i low pos less room room' = tt
places-Out (suc n) k k' i low pos less room room' = (
  (λ e. absurd (omega (arith, e, low, pos, less, room, room'))),
  places-Out n k (k' + 1) i low pos (omega (arith, less)) (omega (arith, room))
      (omega (arith, room')),
)

places-Apart : (n k i : ℕ) → i < 2048 → 0 < k → k + n ≤ 2049 → Apart (places n k i)
unfolding places Apart
places-Apart zero k i low pos room = tt
places-Apart (suc n) k i low pos room = (
  places-Out n k (k + 1) i low pos (omega arith) (omega (arith, room, pos)) (omega (arith, room)),
  places-Apart n (k + 1) i low (omega arith) (omega (arith, room)),
)

-- The rest of the places, without the next one
unfoldable pub rest_places : ℕ → List ℕ
unfolding places
rest_places i = places 2047 1 i

pub all_places_last : (i : ℕ) → i < 2048 → all_places i ≡ rest_places i ++ i ∷ []
unfolding all_places rest_places
all_places_last i low =
    let e : (i + 2048 - (1 + 2047)) % 2048 ≡ i = omega (arith, low) in
    places-last 2047 1 i ∙ ap (λ (x : ℕ). places 2047 1 i ++ x ∷ []) e

pub all_places_step : (i j : ℕ) → i < 2048 → j ≡ (i + 1) % 2048 → all_places j ≡ i ∷ rest_places i
unfolding all_places rest_places places
all_places_step i j low e =
    let first : (j + 2048 - 1) % 2048 ≡ i = omega (arith, low, e) in
    ap (λ (x : ℕ). x ∷ places 2047 2 j) first
    ∙ ap (λ l. i ∷ l) (places-shift 2047 1 i j low (omega arith) (omega arith) e)

pub all_places-Apart : (i : ℕ) → i < 2048 → Apart (all_places i)
unfolding all_places
all_places-Apart i low = places-Apart 2048 1 i low (omega arith) (omega arith)

pub length-all_places : (i : ℕ) → length (all_places i) ≡ 2048
unfolding all_places
length-all_places i = length-places 2048 1 i

pub rest_places-Apart : (i : ℕ) → i < 2048 → Apart (rest_places i)
unfolding rest_places
rest_places-Apart i low = places-Apart 2047 1 i low (omega arith) (omega arith)

Out-places : (n k i j m : ℕ) → Out i (places n k j) → k ≤ m → m < k + n → i ≢ (j + 2048 - m) % 2048
unfolding places Out
Out-places zero k i j m out low high = absurd (omega (arith, low, high))
Out-places (suc n) k i j m out low high = elim (Bool-cases (m == k)) [
  | inl on ↦ ground (arith, on, out.0)
  | inr off ↦ Out-places n (k + 1) i j m out.1 (ground (arith, low, off)) (omega (arith, high))
]

-- Every place is one of them.
pub all_places-whole : (i j : ℕ) → i < 2048 → j < 2048 → Out i (all_places j) → ⊥
unfolding all_places
all_places-whole i j low low' out = elim (Bool-cases (ltb i j)) [
  | inl on ↦
      Out-places 2048 1 i j (j - i) out (ground (arith, on)) (omega (arith, low'))
        (ground (arith, on, low))
  | inr off ↦
      let up : j ≤ i = ground (arith, off) in
      Out-places 2048 1 i j (j + 2048 - i) out (omega (arith, low)) (omega (arith, up))
        (omega (arith, up, low))
]
