-- ===== src/Parse/Roundtrip.antt =====
-- Lines put together from a command and its parameters: `parse` of src/parse.c takes them apart.
use solidircd.Base.{
  ◌≡◌, ◌≢◌, ◌<◌, ◌≤◌, ◌++◌, refl, sym, ap, ◌∙◌, arith, inl, inr, Bool-cases, ℕ, zero, suc, ◌-◌,
  false, List, [], ◌∷◌, ◌==◌, ltb, ◌&&◌, not, if◌then◌else◌, Option, none, some, length,
}
use solidircd.Match.Compare.{Bytes, first}
use solidircd.Match.Tables.{attribute}
use solidircd.Parse.Tree.{Message, Tree, tree_parse}
use solidircd.Parse.Line.{
  maxpara, Source, Parsed, skip_spaces, word, behind_word, paras, next_para, all_paras, numeric,
  behind_space, more_since, dispatch, raw_text, reparse, call, at_message, at_command, at_numeric,
}

-- A parameter that can stand in front of others
abbrev pub IsMiddle : Bytes → Type 0
IsMiddle w = (word w ≡ w) × (0 < length w) × (first w ≢ b':')

unfoldable pub AllMiddle : List Bytes → Type 0
AllMiddle [] = Unit
AllMiddle (w ∷ ws) = IsMiddle w × AllMiddle ws

-- Parameters as they are sent, the last of them behind a colon
unfoldable pub put_paras : List Bytes → Bytes → Bytes
put_paras [] last = b' ' ∷ b':' ∷ last
put_paras (w ∷ ws) last = b' ' ∷ (w ++ put_paras ws last)

pub word-append :
    (w s : Bytes)
    → word w ≡ w
    → (word (w ++ b' ' ∷ s) ≡ w) × (behind_word (w ++ b' ' ∷ s) ≡ b' ' ∷ s)
unfolding word behind_word
word-append [] s e = (refl, refl)
word-append (c ∷ w) s e = elim (Bool-cases (c == b' ')) [
  | inl h ↦ absurd (ground (arith, e))
  | inr h ↦
      let tail : word w ≡ w = ground arith in
      let (a, b) = word-append w s tail in (rw h (ap (λ t. c ∷ t) a), rw h b)
]

pub word-cons : (c : ℕ) (w : Bytes) → word (c ∷ w) ≡ c ∷ w → ((c == b' ') ≡ false) × (word w ≡ w)
unfolding word
word-cons c w e = elim (Bool-cases (c == b' ')) [
  | inl h ↦ absurd (ground (arith, e))
  | inr h ↦ (h, ground arith)
]

skip-word : (c : ℕ) (s : Bytes) → (c == b' ') ≡ false → skip_spaces (b' ' ∷ c ∷ s) ≡ c ∷ s
unfolding skip_spaces
skip-word c s e = rw e refl

next_para-middle :
    (later : Bytes → List Bytes) (c : ℕ) (w s : Bytes)
    → IsMiddle (c ∷ w)
    → next_para later (c ∷ (w ++ b' ' ∷ s)) ≡ (c ∷ w) ∷ later (b' ' ∷ s)
unfolding next_para
next_para-middle later c w s middle =
    let (a, b) = word-append (c ∷ w) s middle.0 in
    let colon : (c == b':') ≡ false = ground (arith, middle.2) in
    rw colon
      (ap (λ t. t ∷ later (behind_word ((c ∷ w) ++ b' ' ∷ s))) a ∙ ap (λ t. (c ∷ w) ∷ later t) b)

-- One parameter in front of others
paras-middle :
    (more : ℕ) (w s : Bytes)
    → IsMiddle w
    → paras (suc more) (b' ' ∷ (w ++ b' ' ∷ s)) ≡ w ∷ paras more (b' ' ∷ s)
unfolding paras
paras-middle more [] s middle = absurd (omega (arith, middle.1))
paras-middle more (c ∷ w) s middle =
    ap (next_para (λ t. paras more t)) (skip-word c (w ++ b' ' ∷ s) (word-cons c w middle.0).0)
    ∙ next_para-middle (λ t. paras more t) c w s middle

pub put_paras-space :
    (ws : List Bytes) (last : Bytes) → (s : Bytes) × (put_paras ws last ≡ b' ' ∷ s)
unfolding put_paras
put_paras-space [] last = (_, refl)
put_paras-space (w ∷ ws) last = (_, refl)

paras-last : (more : ℕ) (last : Bytes) → paras more (b' ' ∷ b':' ∷ last) ≡ last ∷ []
unfolding paras skip_spaces
paras-last zero last = refl
paras-last (suc more) last = refl

pub paras-put_paras :
    (more : ℕ) (ws : List Bytes) (last : Bytes)
    → AllMiddle ws
    → length ws ≤ more
    → paras more (put_paras ws last) ≡ ws ++ last ∷ []
unfolding put_paras AllMiddle
paras-put_paras more [] last all fits = paras-last more last
paras-put_paras zero (w ∷ ws) last all fits = absurd (omega arith)
paras-put_paras (suc more) (w ∷ ws) last all fits =
    let (s, e) = put_paras-space ws last in
    ap (λ t. paras (suc more) (b' ' ∷ (w ++ t))) e
    ∙ paras-middle more w s all.0
    ∙ ap (λ t. w ∷ paras more t) (sym e)
    ∙ ap (λ t. w ∷ t) (paras-put_paras more ws last all.1 (omega arith))

behind_space-word : (w s : Bytes) → word w ≡ w → behind_space (w ++ b' ' ∷ s) ≡ some s
unfolding behind_space
behind_space-word [] s e = refl
behind_space-word (c ∷ w) s e =
    let (space, tail) = word-cons c w e in rw space (behind_space-word w s tail)

numeric-none : (s : Bytes) → attribute 16 (first s) ≡ false → numeric s ≡ none
unfolding numeric
numeric-none [] h = refl
numeric-none (a ∷ []) h = refl
numeric-none (a ∷ b ∷ []) h = refl
numeric-none (a ∷ b ∷ c ∷ []) h = refl
numeric-none (a ∷ b ∷ c ∷ d ∷ s) h = elim (Bool-cases (d == b' ')) [
  | inl e ↦ rw (e, h) refl
  | inr e ↦ rw e refl
]

paras-space : (more : ℕ) (s : Bytes) → paras more (b' ' ∷ s) ≡ paras more s
unfolding paras skip_spaces
paras-space zero s = refl
paras-space (suc more) s = refl

-- The line of a command with its parameters
abbrev pub put_line : Bytes → List Bytes → Bytes → Bytes
put_line cmd ws last = cmd ++ put_paras ws last

-- How a line ends whose command is called
abbrev pub called : Source → Source → Bytes → Message → List Bytes → Bytes → Parsed
called cptr from para0 m ws last =
    let n = length (put_paras ws last) - 1 in
    record {
      outcome = call m from (para0 ∷ (ws ++ last ∷ []));
      since = more_since cptr n;
      bytes = n;
      last = cptr.is_registered_user && m.ridle;
    }

abbrev pub room_for : Message → ℕ
room_for m = (if ltb maxpara m.parameters then maxpara else m.parameters) - 2

dispatch-called :
    (cptr from : Source) (para0 : Bytes) (m : Message) (cmd s : Bytes) (ws : List Bytes)
    (last : Bytes)
    → (not cptr.is_registered && not m.unreg) ≡ false
    → AllMiddle ws
    → length ws ≤ room_for m
    → put_paras ws last ≡ b' ' ∷ s
    → dispatch cptr from para0 m (some cmd) (some s) (length s) ≡ called cptr from para0 m ws last
unfolding dispatch all_paras
dispatch-called cptr from para0 m cmd s ws last allowed all fits e =
    let params : paras (room_for m) s ≡ ws ++ last ∷ [] =
      sym (paras-space (room_for m) s)
      ∙ ap (paras (room_for m)) (sym e)
      ∙ paras-put_paras (room_for m) ws last all fits in
    let size : length s ≡ length (put_paras ws last) - 1 =
      omega (arith, ap (λ (t : Bytes). length t) e) in
    rw (allowed, params, size) refl

raw_text-public : (m : Message) (s : Option Bytes) → m.is_private ≡ false → raw_text m s ≡ none
unfolding raw_text
raw_text-public m s e = rw e refl

first-append : (s t : Bytes) → 0 < length s → first (s ++ t) ≡ first s
first-append [] t h = absurd (omega arith)
first-append (c ∷ s) t h = refl

pub reparse-called :
    (fuel : ℕ) (tree : Tree) (cptr from : Source) (para0 : Bytes) (m : Message) (cmd : Bytes)
    (ws : List Bytes) (last : Bytes)
    → word cmd ≡ cmd
    → 0 < length cmd
    → attribute 16 (first cmd) ≡ false
    → tree_parse tree cmd ≡ some m
    → m.is_private ≡ false
    → (not cptr.is_registered && not m.unreg) ≡ false
    → AllMiddle ws
    → length ws ≤ room_for m
    → reparse (suc fuel) tree cptr from para0 (put_line cmd ws last)
      ≡ some (called cptr from para0 m ws last)
unfolding reparse at_numeric at_command at_message
reparse-called fuel tree cptr from para0 m cmd ws last whole some_cmd letter found public allowed
      all fits =
    let (s, e) = put_paras-space ws last in
    let line : put_line cmd ws last ≡ cmd ++ b' ' ∷ s = ap (λ t. cmd ++ t) e in
    let again : Bytes → Option Parsed = λ text. reparse fuel tree cptr from para0 text in
    let words = word-append cmd s whole in
    let at_word : word (put_line cmd ws last) ≡ cmd = ap word line ∙ words.0 in
    let at_space : behind_space (put_line cmd ws last) ≡ some s =
      ap behind_space line ∙ behind_space-word cmd s whole in
    let no_number : numeric (put_line cmd ws last) ≡ none =
      numeric-none (put_line cmd ws last)
        (ap (attribute 16) (first-append cmd (put_paras ws last) some_cmd) ∙ letter) in
    ap (at_numeric again tree cptr from para0 (put_line cmd ws last)) no_number
    ∙ ap
        (λ w.
          at_command again cptr from para0 w (behind_space (put_line cmd ws last))
            (tree_parse tree w))
        at_word
    ∙ ap (λ o. at_command again cptr from para0 cmd o (tree_parse tree cmd)) at_space
    ∙ ap (at_command again cptr from para0 cmd (some s)) found
    ∙ ap (at_message again cptr from para0 m cmd (some s)) (raw_text-public m (some s) public)
    ∙ ap (λ (r : Parsed). some r)
        (dispatch-called cptr from para0 m cmd s ws last allowed all fits e)
