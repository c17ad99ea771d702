-- ===== src/Match/Collapse.antt =====
-- `collapse` of src/match.c ends and changes no mask's meaning.
use mathlib.Core.Option
use solidircd.Base.{
  ℕ, zero, suc, ◌+◌, ◌≤◌, ◌<◌, ◌≡◌, true, false, List, [], ◌∷◌, arith, ◌==◌, ◌↔◌, some, none, inl,
  inr, Bool-cases, Option-cases, length, subst, sym, Option,
}
use solidircd.Match.Compare.{Bytes}
use solidircd.Match.Glob.{drop_stars, keep_marks, squeeze, cleaned, collapse_from, collapse}
use solidircd.Match.Ends.{drop_stars-length}
use solidircd.Match.Pattern.{
  Item, star, mark, item, items, Matches, byte, any, leave, take, item-star, item-mark,
  drop_stars-sound, drop_stars-complete, halve_star, star_mark,
}

-- Two masks that match the same strings.
Same : List Item → List Item → Type 0
Same v w = (s : Bytes) → Matches v s ↔ Matches w s

Same-refl : (w : List Item) → Same w w
unfolding Same
Same-refl w s = (λ d. d, λ d. d)

Same-trans : (u v w : List Item) → Same u v → Same v w → Same u w
unfolding Same
Same-trans u v w p q s = (λ d. (q s).0 ((p s).0 d), λ d. (p s).1 ((q s).1 d))

under :
    {v w : List Item} {s : Bytes} (i : Item)
    → ((t : Bytes) → Matches v t → Matches w t)
    → Matches (i ∷ v) s
    → Matches (i ∷ w) s
under i f (byte e d) = byte e (f _ d)
under i f (any d) = any (f _ d)
under i f (leave d) = leave (f _ d)
under i f (take d) = take (under star f d)

Same-cons : (i : Item) (v w : List Item) → Same v w → Same (i ∷ v) (i ∷ w)
unfolding Same
Same-cons i v w h s = (under i (λ t. (h t).0), under i (λ t. (h t).1))

take_mark :
    {x : ℕ} {w : List Item} {s : Bytes}
    → Matches (mark ∷ star ∷ w) s
    → Matches (mark ∷ star ∷ w) (x ∷ s)
take_mark (any d) = any (take d)

mark_star : {w : List Item} (s : Bytes) → Matches (star ∷ mark ∷ w) s → Matches (mark ∷ star ∷ w) s
mark_star s (leave (any d)) = any (leave d)
mark_star (x ∷ s) (take d) = take_mark (mark_star s d)

star_of_mark :
    {w : List Item} {s : Bytes} → Matches (mark ∷ star ∷ w) s → Matches (star ∷ mark ∷ w) s
star_of_mark (any d) = star_mark d

Same-star-mark : (w : List Item) → Same (star ∷ mark ∷ w) (mark ∷ star ∷ w)
unfolding Same
Same-star-mark w s = (mark_star s, star_of_mark)

Same-star-star : (w : List Item) → Same (star ∷ w) (star ∷ star ∷ w)
unfolding Same
Same-star-star w s = (leave, halve_star)

Same-mark-star : (w : List Item) → Same (mark ∷ star ∷ w) (star ∷ mark ∷ w)
unfolding Same
Same-mark-star w s = (star_of_mark, mark_star s)

-- Behind a star and a mark, what a star allows to change may change.
behind_mark :
    (v w : List Item) → Same (star ∷ v) (star ∷ w) → Same (star ∷ mark ∷ v) (star ∷ mark ∷ w)
behind_mark v w h =
    Same-trans _ _ _ (Same-star-mark v) (Same-trans _ _ _ (Same-cons mark _ _ h) (Same-mark-star w))

-- A run of stars and marks behind a star keeps its marks only.
keep_marks-Same : (p : Bytes) → Same (star ∷ items (keep_marks p)) (star ∷ items p)
unfolding keep_marks
keep_marks-Same [] = Same-refl _
keep_marks-Same (c ∷ p) = elim (Bool-cases (c == b'*')) [
  | inl e ↦ rw (e, item-star c e) (Same-trans _ _ _ (keep_marks-Same p) (Same-star-star _))
  | inr e ↦ elim (Bool-cases (c == b'?')) [
    | inl m ↦ rw (e, m, item-mark c m) (behind_mark _ _ (keep_marks-Same p))
    | inr m ↦ rw (e, m) (Same-refl _)
  ]
]

drop_stars-Same : (p : Bytes) → Same (star ∷ items (drop_stars p)) (star ∷ items p)
unfolding Same
drop_stars-Same p s = (drop_stars-sound p s, drop_stars-complete p s)

squeeze-Same : (p : Bytes) → Same (star ∷ items (squeeze p)) (star ∷ items p)
unfolding squeeze
squeeze-Same [] = Same-refl _
squeeze-Same (c ∷ p) = elim (Bool-cases (c == b'*')) [
  | inl e ↦ rw (e, item-star c e) (Same-trans _ _ _ (drop_stars-Same p) (Same-star-star _))
  | inr e ↦ elim (Bool-cases (c == b'?')) [
    | inl m ↦ rw (e, m, item-mark c m) (behind_mark _ _ (keep_marks-Same p))
    | inr m ↦ rw (e, m) (Same-refl _)
  ]
]

cleaned-Same : (c : ℕ) (p : Bytes) → Same (item c ∷ items (cleaned c p)) (item c ∷ items p)
unfolding cleaned
cleaned-Same c p = elim (Bool-cases (c == b'*')) [
  | inl e ↦ rw (e, item-star c e) (squeeze-Same p)
  | inr e ↦ rw e (Same-refl _)
]

-- Cleaning makes no mask longer.
keep_marks-length : (p : Bytes) → length (keep_marks p) ≤ length p
unfolding keep_marks
keep_marks-length [] = omega arith
keep_marks-length (c ∷ p) = ground (arith, keep_marks-length p)

cleaned-length : (c : ℕ) (p : Bytes) → length (cleaned c p) ≤ length p
unfolding cleaned squeeze
cleaned-length c [] = ground arith
cleaned-length c (d ∷ p) = ground (arith, drop_stars-length p, keep_marks-length p)

-- The loop on enough fuel: a mask no longer than before, with the same meaning.
abbrev Collapsed : Bytes → Option Bytes → Type 0
Collapsed p none = ⊥
Collapsed p (some q) = (length q ≤ length p) × Same (items q) (items p)

Collapsed-cons :
    (c : ℕ) (p : Bytes) (o : Option Bytes)
    → Collapsed (cleaned c p) o
    → Collapsed (c ∷ p) (Option.map (λ q. c ∷ q) o)
Collapsed-cons c p none h = h
Collapsed-cons c p (some q) h = (
  omega (arith, cleaned-length c p, h.0),
  Same-trans _ _ _ (Same-cons (item c) _ _ h.1) (cleaned-Same c p),
)

Collapsed-protected :
    (c d : ℕ) (p : Bytes) (o : Option Bytes)
    → Collapsed p o
    → Collapsed (c ∷ d ∷ p) (Option.map (λ q. c ∷ d ∷ q) o)
Collapsed-protected c d p none h = h
Collapsed-protected c d p (some q) h =
    (omega (arith, h.0), Same-cons (item c) _ _ (Same-cons (item d) _ _ h.1))

protected_lem :
    (f c d : ℕ) (p : Bytes)
    → (c == 92) ≡ true
    → collapse_from (suc f) (c ∷ d ∷ p) ≡ Option.map (λ q. c ∷ d ∷ q) (collapse_from f p)
unfolding collapse_from
protected_lem f c d p e = rw (e, collapse_from)

unprotected_lem :
    (f c d : ℕ) (p : Bytes)
    → (c == 92) ≡ false
    → collapse_from (suc f) (c ∷ d ∷ p)
      ≡ Option.map (λ q. c ∷ q) (collapse_from f (cleaned c (d ∷ p)))
unfolding collapse_from
unprotected_lem f c d p e = rw (e, collapse_from)

collapse_from-Collapsed : (f : ℕ) (p : Bytes) → length p < f → Collapsed p (collapse_from f p)
unfolding collapse_from
collapse_from-Collapsed zero p h = absurd (omega arith)
collapse_from-Collapsed (suc f) [] h = (omega arith, Same-refl _)
collapse_from-Collapsed (suc f) (c ∷ []) h = (omega arith, Same-refl _)
collapse_from-Collapsed (suc f) (c ∷ d ∷ p) h = elim (Bool-cases (c == 92)) [
  | inl e ↦
      subst (Collapsed (c ∷ d ∷ p)) (sym (protected_lem f c d p e))
        (Collapsed-protected c d p (collapse_from f p) (collapse_from-Collapsed f p (omega arith)))
  | inr e ↦ subst (Collapsed (c ∷ d ∷ p)) (sym (unprotected_lem f c d p e)) (
      Collapsed-cons c (d ∷ p) (collapse_from f (cleaned c (d ∷ p)))
        (collapse_from-Collapsed f (cleaned c (d ∷ p)) (omega (arith, cleaned-length c (d ∷ p)))))
]

-- On every mask `collapse` ends, with a mask that is no longer and that matches exactly the same
-- strings.
pub collapse-Matches :
    (p s : Bytes)
    → (q : Bytes) × (collapse p ≡ some q)
      × (length q ≤ length p)
      × (Matches (items q) s ↔ Matches (items p) s)
unfolding collapse Same
collapse-Matches p s = elim (Option-cases (collapse_from (length p + 1) p)) [
  | inl e ↦ absurd (rw e at (collapse_from-Collapsed (length p + 1) p (omega arith)))
  | inr (q, e) ↦
      let h : Collapsed p (some q) =
        rw e at (collapse_from-Collapsed (length p + 1) p (omega arith)) in
      (q, e, h.0, h.1 s)
]
