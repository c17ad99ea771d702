-- ===== src/Parse/Field.antt =====
-- `getfield` of src/parse.c, which splits the lines of a configuration. The static `line` is the
-- second argument and the last part of the result. The text from a pointer on is a list of bytes; the
-- terminator that is written stands behind the field and before what `line` then points to.
use solidircd.Base.{
  ℕ, zero, suc, ◌+◌, ◌≡◌, refl, ap, ◌∙◌, true, false, List, [], ◌∷◌, ◌++◌, ◌==◌, if◌then◌else◌,
  Option, none, some, length, Bool-cases, arith, inl, inr,
}
use solidircd.Match.Compare.{Bytes}

-- `strchr(line, c)`: the text in front of the byte, and behind it if it is there
unfoldable pub before : ℕ → Bytes → Bytes
before c [] = []
before c (d ∷ s) = if d == c then [] else d ∷ before c s

unfoldable pub behind : ℕ → Bytes → Option Bytes
behind c [] = none
behind c (d ∷ s) = if d == c then some s else behind c s

-- The field at `line`, and the new `line`
unfoldable pub cut_field : Bytes → Option Bytes → Option Bytes × Option Bytes
unfolding before
cut_field line none = (some (before b'\n' line), none)
cut_field line (some end) = (some (before b':' line), some end)

abbrev pub from_line : Option Bytes → Option Bytes → Option Bytes
from_line none line = line
from_line (some newline) line = some newline

unfoldable pub field_at : Option Bytes → Option Bytes × Option Bytes
unfolding behind cut_field
field_at none = (none, none)
field_at (some line) = cut_field line (behind b':' line)

unfoldable pub getfield : Option Bytes → Option Bytes → Option Bytes × Option Bytes
unfolding field_at
getfield newline line = field_at (from_line newline line)

-- A row of calls, the first of them with a new line or not, the others without
unfoldable pub getfields : ℕ → Option Bytes → Option Bytes → List (Option Bytes)
unfolding getfield
getfields zero newline line = []
getfields (suc n) newline line =
    let (field, line') = getfield newline line in field ∷ getfields n none line'

-- No byte of the text is this one.
abbrev pub Without : ℕ → Bytes → Type 0
Without c s = before c s ≡ s

unfoldable pub AllPlain : List Bytes → Type 0
AllPlain [] = Unit
AllPlain (f ∷ fs) = Without b':' f × AllPlain fs

-- A line of fields, with the end of the line behind the last
unfoldable pub put_fields : List Bytes → Bytes → Bytes
put_fields [] last = last ++ b'\n' ∷ []
put_fields (f ∷ fs) last = f ++ b':' ∷ put_fields fs last

Without-cons : (c d : ℕ) (s : Bytes) → Without c (d ∷ s) → ((d == c) ≡ false) × Without c s
unfolding before
Without-cons c d s e = elim (Bool-cases (d == c)) [
  | inl h ↦ absurd (ground (arith, e))
  | inr h ↦ (h, ground arith)
]

before-append : (c : ℕ) (s t : Bytes) → Without c s → before c (s ++ c ∷ t) ≡ s
unfolding before
before-append c [] t h = let e : (c == c) ≡ true = ground arith in rw e refl
before-append c (d ∷ s) t h =
    let (e, tail) = Without-cons c d s h in rw e (ap (λ l. d ∷ l) (before-append c s t tail))

behind-append : (c : ℕ) (s t : Bytes) → Without c s → behind c (s ++ c ∷ t) ≡ some t
unfolding behind
behind-append c [] t h = let e : (c == c) ≡ true = ground arith in rw e refl
behind-append c (d ∷ s) t h =
    let (e, tail) = Without-cons c d s h in rw e (behind-append c s t tail)

behind-none : (c d : ℕ) (s : Bytes) → (d == c) ≡ false → Without c s → behind c (s ++ d ∷ []) ≡ none
unfolding behind
behind-none c d [] other h = rw other refl
behind-none c d (e ∷ s) other h =
    let (apart, tail) = Without-cons c e s h in rw apart (behind-none c d s other tail)

field-front :
    (f rest : Bytes) → Without b':' f → field_at (some (f ++ b':' ∷ rest)) ≡ (some f, some rest)
unfolding field_at cut_field
field-front f rest plain =
    ap (cut_field (f ++ b':' ∷ rest)) (behind-append b':' f rest plain)
    ∙ ap (λ (t : Bytes). (some t, some rest)) (before-append b':' f rest plain)

field-last :
    (last : Bytes)
    → Without b':' last
    → Without b'\n' last
    → field_at (some (last ++ b'\n' ∷ [])) ≡ (some last, none)
unfolding field_at cut_field
field-last last plain one_line =
    ap (cut_field (last ++ b'\n' ∷ [])) (behind-none b':' b'\n' last refl plain)
    ∙ ap (λ (t : Bytes). (some t, none)) (before-append b'\n' last [] one_line)

abbrev pub fields_and_end : List Bytes → Bytes → List (Option Bytes)
fields_and_end [] last = some last ∷ none ∷ []
fields_and_end (f ∷ fs) last = some f ∷ fields_and_end fs last

-- One call, where the field and the line behind it are known
getfields-next :
    (n : ℕ) (t : Bytes) (r : Option Bytes × Option Bytes)
    → field_at (some t) ≡ r
    → getfields (suc n) none (some t) ≡ r.0 ∷ getfields n none r.1
unfolding getfields getfield
getfields-next n t r e = ap (λ (x : Option Bytes × Option Bytes). x.0 ∷ getfields n none x.1) e

getfields-none : (n : ℕ) → getfields (suc n) none none ≡ none ∷ getfields n none none
unfolding getfields getfield field_at
getfields-none n = refl

getfields-zero : getfields zero none none ≡ []
unfolding getfields
getfields-zero = refl

same-line :
    (n : ℕ) (t : Bytes) (line : Option Bytes)
    → getfields (suc n) (some t) line ≡ getfields (suc n) none (some t)
unfolding getfields getfield
same-line n t line = refl

fields-line :
    (fs : List Bytes) (last : Bytes) (n : ℕ)
    → AllPlain fs
    → Without b':' last
    → Without b'\n' last
    → n ≡ length fs + 2
    → getfields n none (some (put_fields fs last)) ≡ fields_and_end fs last
unfolding AllPlain put_fields
fields-line fs last zero all plain one_line e = absurd (omega arith)
fields-line [] last (suc zero) all plain one_line e = absurd (omega arith)
fields-line [] last (suc (suc zero)) all plain one_line e =
    getfields-next 1 (last ++ b'\n' ∷ []) (some last, none) (field-last last plain one_line)
    ∙ ap (λ l. some last ∷ l) (getfields-none 0 ∙ ap (λ l. none ∷ l) getfields-zero)
fields-line [] last (suc (suc (suc n))) all plain one_line e = absurd (omega arith)
fields-line (f ∷ fs) last (suc n) all plain one_line e =
    getfields-next n (f ++ b':' ∷ put_fields fs last) (some f, some (put_fields fs last))
      (field-front f (put_fields fs last) all.0)
    ∙ ap (λ l. some f ∷ l) (fields-line fs last n all.1 plain one_line (omega arith))

-- A line of fields without colons, the last of them without an end of line: the first call of
-- getfield with the line and the calls after it give just the fields, in their order, and then NULL,
-- whatever was being split before.
pub getfields-put_fields :
    (fs : List Bytes) (last : Bytes) (line : Option Bytes)
    → AllPlain fs
    → Without b':' last
    → Without b'\n' last
    → getfields (length fs + 2) (some (put_fields fs last)) line ≡ fields_and_end fs last
getfields-put_fields fs last line all plain one_line =
    let step : length fs + 2 ≡ suc (length fs + 1) = omega arith in
    ap (λ n. getfields n (some (put_fields fs last)) line) step
    ∙ same-line (length fs + 1) (put_fields fs last) line
    ∙ fields-line fs last (suc (length fs + 1)) all plain one_line (omega arith)
