-- ===== src/Match/Pattern.antt =====
-- What a wildcard mask of src/match.c means, with no search order in it: `*` is any run of bytes,
-- `?` any byte, and any other byte itself up to case.
use solidircd.Base.{
  ℕ, ◌≡◌, true, false, List, [], ◌∷◌, ◌++◌, map, arith, ◌==◌, some, inl, inr, Bool-cases,
  if◌then◌else◌, ap, subst,
}
use solidircd.Match.Compare.{Bytes}
use solidircd.Match.Glob.{drop_stars, eat_marks, skip_past}
use solidircd.Match.Tables.{to_upper}

pub data Item : Type 0 where
  star mark : Item
  lit : ℕ → Item

unfoldable pub item : ℕ → Item
item c = if c == b'*' then star else if c == b'?' then mark else lit c

-- A mask as items.
abbrev pub items : Bytes → List Item
items = map item

pub data Matches : List Item → Bytes → Type 0 where
  end : Matches [] []
  byte :
      {c x : ℕ} {w : List Item} {s : Bytes}
      → to_upper x ≡ to_upper c
      → Matches w s
      → Matches (lit c ∷ w) (x ∷ s)
  any : {x : ℕ} {w : List Item} {s : Bytes} → Matches w s → Matches (mark ∷ w) (x ∷ s)
  leave : {w : List Item} {s : Bytes} → Matches w s → Matches (star ∷ w) s
  take : {x : ℕ} {w : List Item} {s : Bytes} → Matches (star ∷ w) s → Matches (star ∷ w) (x ∷ s)

module _ {w : List Item} where
  -- A star may take any prefix.
  pub star_prefix : (p : Bytes) {s : Bytes} → Matches (star ∷ w) s → Matches (star ∷ w) (p ++ s)
  star_prefix [] d = d
  star_prefix (x ∷ p) d = take (star_prefix p d)

  pub star-end : Matches (star ∷ w) [] → Matches w []
  star-end (leave d) = d

  pub halve_star : {s : Bytes} → Matches (star ∷ star ∷ w) s → Matches (star ∷ w) s
  halve_star (leave d) = d
  halve_star (take d) = take (halve_star d)

  -- A mark after a star may take its byte first.
  pub star_mark : {x : ℕ} {s : Bytes} → Matches (star ∷ w) s → Matches (star ∷ mark ∷ w) (x ∷ s)
  star_mark (leave d) = leave (any d)
  star_mark (take d) = take (star_mark d)

  pub star_mark_inv : {x : ℕ} (s : Bytes) → Matches (star ∷ mark ∷ w) (x ∷ s) → Matches (star ∷ w) s
  star_mark_inv s (leave (any d)) = leave d
  star_mark_inv [] (take (leave d)) = elim d [ ]
  star_mark_inv (y ∷ s) (take d) = take (star_mark_inv s d)

pub star_all : (s : Bytes) → Matches (star ∷ []) s
star_all [] = leave end
star_all (x ∷ s) = take (star_all s)

pub byte_inv :
    {c x : ℕ} {w : List Item} {s : Bytes}
    → Matches (lit c ∷ w) (x ∷ s)
    → (to_upper x ≡ to_upper c) × Matches w s
byte_inv (byte e d) = (e, d)

-- The three kinds of a byte of the mask.
pub item-star : (c : ℕ) → (c == b'*') ≡ true → item c ≡ star
unfolding item
item-star c h = ground arith

pub item-mark : (c : ℕ) → (c == b'?') ≡ true → item c ≡ mark
unfolding item
item-mark c h = ground arith

pub item-lit : (c : ℕ) → (c == b'*') ≡ false → (c == b'?') ≡ false → item c ≡ lit c
unfolding item
item-lit c h k = ground arith

-- Dropping further stars changes nothing, either way.
pub drop_stars-sound :
    (w s : Bytes) → Matches (star ∷ items (drop_stars w)) s → Matches (star ∷ items w) s
unfolding drop_stars
drop_stars-sound [] s d = d
drop_stars-sound (c ∷ w) s d = elim (Bool-cases (c == b'*')) [
  | inl e ↦ rw (item-star c e) (leave (drop_stars-sound w s (rw e at d)))
  | inr e ↦ rw e at d
]

pub drop_stars-complete :
    (w s : Bytes) → Matches (star ∷ items w) s → Matches (star ∷ items (drop_stars w)) s
unfolding drop_stars
drop_stars-complete [] s d = d
drop_stars-complete (c ∷ w) s d = elim (Bool-cases (c == b'*')) [
  | inl e ↦ rw e (drop_stars-complete w s (halve_star (rw (item-star c e) at d)))
  | inr e ↦ rw e d
]

-- Marks after a star may take their bytes first.
pub eat_marks-sound :
    (w s : Bytes)
    → Matches (star ∷ items (eat_marks w s).0) (eat_marks w s).1
    → Matches (star ∷ items w) s
unfolding eat_marks
eat_marks-sound [] s d = d
eat_marks-sound (c ∷ w) [] d = d
eat_marks-sound (c ∷ w) (x ∷ s) d = elim (Bool-cases (c == b'?')) [
  | inl e ↦ rw (item-mark c e) (star_mark (eat_marks-sound w s (rw e at d)))
  | inr e ↦ rw e at d
]

pub eat_marks-complete :
    (w s : Bytes)
    → Matches (star ∷ items w) s
    → Matches (star ∷ items (eat_marks w s).0) (eat_marks w s).1
unfolding eat_marks
eat_marks-complete [] s d = d
eat_marks-complete (c ∷ w) [] d = d
eat_marks-complete (c ∷ w) (x ∷ s) d = elim (Bool-cases (c == b'?')) [
  | inl e ↦ rw e (eat_marks-complete w s (star_mark_inv s (rw (item-mark c e) at d)))
  | inr e ↦ rw e d
]

-- After the marks, a mark is left only at the end of the string.
pub eat_marks-left :
    (w s v : Bytes) (c x : ℕ) (t : Bytes) → eat_marks w s ≡ (c ∷ v, x ∷ t) → (c == b'?') ≡ false
unfolding eat_marks
eat_marks-left [] s v c x t e = ground arith
eat_marks-left (d ∷ w) [] v c x t e = ground arith
eat_marks-left (d ∷ w) (y ∷ s) v c x t e = ground (arith, eat_marks-left w s v c x t)

-- `skip_past c` cuts the string behind a byte `c`.
pub skip_past-Matches :
    (c : ℕ) (s t : Bytes) (w : List Item)
    → skip_past c s ≡ some t
    → Matches w t
    → Matches (star ∷ lit c ∷ w) s
unfolding skip_past
skip_past-Matches c [] t w e d = cc
skip_past-Matches c (x ∷ s) t w e d = elim (Bool-cases (x == c)) [
  | inl h ↦
      let same : x ≡ c = ground arith in
      let tail : t ≡ s = ground arith in leave (byte (ap to_upper same) (subst (Matches w) tail d))
  | inr h ↦ take (skip_past-Matches c s t w (rw h at e) d)
]
