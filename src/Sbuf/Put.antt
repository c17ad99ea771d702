-- ===== src/Sbuf/Put.antt =====
-- sbuf_put of src/sbuf.c: the bytes go to the end of the queue, and to no other.
use solidircd.Base.{
  ℕ, zero, suc, ◌+◌, ◌≤◌, ◌<◌, ◌≡◌, refl, subst, ap, ◌∙◌, ◌⊎◌, inl, inr, List, [], ◌∷◌, ◌++◌,
  append_assoc, ◌==◌, some, arith, length, length-append, length-take, length-drop, take, drop,
  take-append-drop, Bool-cases,
}
use solidircd.Sbuf.Chain.{refs_of, text_of, AllOpen, KeepsBut, plus, Owned-Live}
use solidircd.Sbuf.Owned.{pooled, Owned, IsOwned, Keeps}
use solidircd.Sbuf.Pool.{SBuffer, Pools}
use solidircd.Sbuf.Queue.{User, bytes_of, room, append, grow, fill}
use solidircd.Sbuf.Users.{new_user_lem}

-- The bytes of a chunk fit, behind those of a buffer in use.
append-IsOwned :
    (m : Pools) (refs : ℕ → ℕ) (p : ℕ) (chunk : List ℕ)
    → IsOwned m refs
    → 0 < refs p
    → length chunk ≤ room m p
    → IsOwned (append p chunk m) refs × KeepsBut p m (append p chunk m)
unfolding append pooled
append-IsOwned m refs p chunk own used fit =
    let live = Owned-Live m (refs p) p (own p) used in
    (
      λ q. elim (Bool-cases (p == q)) [
        | inl e ↦
            let same : p ≡ q = ground arith in
            subst (λ x. Owned (append p chunk m) (refs x) x) same
              (ground (arith, live, length-append (m.bufs p).bytes chunk))
        | inr e ↦ ground (arith, own q)
      ],
      λ q. ground arith,
    )

-- What a chain has become, when a text went into it and its last buffer.
pub record Filled (m : Pools) (refs : ℕ → ℕ) (us : List User) (text : List ℕ) (m' : Pools)
    : Type 0 where
  pub owned : IsOwned m' (plus refs us)
  pub holds : text_of m' us ≡ text
  pub opens : AllOpen m' us
  pub keeps : Keeps m m'

pub plus_assoc :
    (m : Pools) (refs : ℕ → ℕ) (u : User) (us : List User)
    → IsOwned m (plus (plus refs (u ∷ [])) us)
    → IsOwned m (plus refs (u ∷ us))
unfolding refs_of
plus_assoc m refs u us own q = subst (λ n. Owned m n q) (omega arith) (own q)

pub refs_of_self : (refs : ℕ → ℕ) (u : User) → 0 < plus refs (u ∷ []) u.buf
unfolding refs_of
refs_of_self refs u = ground arith

Filled-nil : (m : Pools) (refs : ℕ → ℕ) → IsOwned m refs → Filled m refs [] [] m
unfolding refs_of text_of AllOpen
Filled-nil m refs own = record {
  owned = λ q. subst (λ n. Owned m n q) (omega arith) (own q);
  holds = refl;
  opens = tt;
  keeps = λ q a b. (a, b, refl);
}

pub drop-nil : (n : ℕ) → drop {A = ℕ} n [] ≡ []
drop-nil zero = refl
drop-nil (suc n) = refl

pub drop-append : (n : ℕ) (xs ys : List ℕ) → n ≤ length xs → drop n (xs ++ ys) ≡ drop n xs ++ ys
drop-append zero xs ys h = refl
drop-append (suc n) [] ys h = absurd (omega arith)
drop-append (suc n) (x ∷ xs) ys h = drop-append n xs ys (omega arith)

append-bytes :
    (p : ℕ) (chunk : List ℕ) (m : Pools)
    → ((append p chunk m).bufs p).bytes ≡ (m.bufs p).bytes ++ chunk
unfolding append
append-bytes p chunk m = ground arith

-- A user whose buffer took what fits of a text, before the users that took the rest.
extend :
    (m : Pools) (refs : ℕ → ℕ) (u : User) (text : List ℕ) (us : List User) (m' : Pools)
    → IsOwned m refs
    → 0 < refs u.buf
    → u.start ≤ length (m.bufs u.buf).bytes
    → u.start < length (m.bufs u.buf).bytes + length (take (room m u.buf) text)
    → Filled (append u.buf (take (room m u.buf) text) m) refs us (drop (room m u.buf) text) m'
    → IsOwned m' (plus refs us)
      × (text_of m' (u ∷ us) ≡ bytes_of m u ++ text)
      × AllOpen m' (u ∷ us)
      × KeepsBut u.buf m m'
unfolding text_of AllOpen
extend m refs u text us m' own used within some_left f =
    let k = room m u.buf in
    let chunk = take k text in
    let m2 = append u.buf chunk m in
    let fit : length chunk ≤ k = omega (arith, length-take k text) in
    let (own2, keep2) = append-IsOwned m refs u.buf chunk own used fit in
    let live = Owned-Live m2 (refs u.buf) u.buf (own2 u.buf) used in
    let (_, _, later) = f.keeps u.buf live.0 live.1 in
    let whole : (m'.bufs u.buf).bytes ≡ (m.bufs u.buf).bytes ++ chunk =
      ap (λ (b : SBuffer). b.bytes) later ∙ append-bytes u.buf chunk m in
    (
      f.owned,
      ap (λ b. drop u.start b ++ text_of m' us) whole
          ∙ ap (λ b. b ++ text_of m' us) (drop-append u.start (m.bufs u.buf).bytes chunk within)
          ∙ ap (λ t. (bytes_of m u ++ chunk) ++ t) f.holds
          ∙ append_assoc (bytes_of m u) chunk (drop k text)
          ∙ ap (λ t. bytes_of m u ++ t) (take-append-drop k text),
      (omega (arith, ap length whole, length-append (m.bufs u.buf).bytes chunk), f.opens),
      λ q a b.
          let (a2, b2, e2) = keep2 q a b in
          let (a3, b3, e3) = f.keeps q a2 b2 in (a3, b3, λ d. e3 ∙ e2 d),
    )

-- The loop for new users puts the whole text into them, on fuel above its length.
pub grow_lem :
    (fuel : ℕ) (text : List ℕ) (m : Pools) (refs : ℕ → ℕ)
    → IsOwned m refs
    → length text < fuel
    → (us : List User) × (m' : Pools) × (grow fuel text m ≡ some (us, m'))
      × Filled m refs us text m'
unfolding grow
grow_lem zero text m refs own h = absurd (omega arith)
grow_lem (suc fuel) [] m refs own h = ([], m, refl, Filled-nil m refs own)
grow_lem (suc fuel) (c ∷ rest) m refs own h =
    let text = c ∷ rest in
    let (u, m1, e1, n) = new_user_lem (length text) m refs own in
    let k = room m1 u.buf in
    let wide : 0 < k = ground (arith, n.wide, n.no_bytes) in
    let m2 = append u.buf (take k text) m1 in
    let used : 0 < plus refs (u ∷ []) u.buf = refs_of_self refs u in
    let fit : length (take k text) ≤ k = omega (arith, length-take k text) in
    let own2 = (append-IsOwned m1 (plus refs (u ∷ [])) u.buf (take k text) n.owned used fit).0 in
    let (us, m3, e3, f) =
      grow_lem fuel (drop k text) m2 (plus refs (u ∷ [])) own2
        (omega (arith, length-drop k text)) in
    let (own3, holds, opens, keeps) =
      extend m1 (plus refs (u ∷ [])) u text us m3 n.owned used (omega (arith, n.from_start))
        (omega (arith, n.from_start, length-take k text)) f in
    (
      u ∷ us,
      m3,
      rw (e1, e3) refl,
      record {
        owned = plus_assoc m3 refs u us own3;
        holds = holds ∙ ap (λ b. b ++ text) (ap (drop u.start) n.no_bytes ∙ drop-nil u.start);
        opens = opens;
        keeps = λ q a b.
            let (a1, b1, e) = n.keeps q a b in
            let (a2, b2, e2) = keeps q a1 b1 in (a2, b2, e2 (n.fresh q a b) ∙ e);
      },
    )

-- The loop from the last user of a chain on, which alone may use its buffer.
pub fill_lem :
    (u : User) (text : List ℕ) (m : Pools) (refs : ℕ → ℕ)
    → IsOwned m refs
    → 0 < refs u.buf
    → u.start < length (m.bufs u.buf).bytes + length text
    → u.start ≤ length (m.bufs u.buf).bytes
    → (u.start < length (m.bufs u.buf).bytes) ⊎ (0 < room m u.buf)
    → (us : List User) × (m' : Pools) × (fill (u ∷ []) text m ≡ some (u ∷ us, m'))
      × IsOwned m' (plus refs us)
      × (text_of m' (u ∷ us) ≡ bytes_of m u ++ text)
      × AllOpen m' (u ∷ us)
      × KeepsBut u.buf m m'
unfolding fill text_of AllOpen
fill_lem u [] m refs own used some_left within open_or_room = (
  [],
  m,
  refl,
  (Filled-nil m refs own).owned,
  refl,
  (omega arith, tt),
  λ q a b. (a, b, λ d. refl),
)
fill_lem u (c ∷ rest) m refs own used some_left within open_or_room =
    let text = c ∷ rest in
    let k = room m u.buf in
    let fit : length (take k text) ≤ k = omega (arith, length-take k text) in
    let m2 = append u.buf (take k text) m in
    let own2 = (append-IsOwned m refs u.buf (take k text) own used fit).0 in
    let (us, m3, e3, f) =
      grow_lem (length (drop k text) + 1) (drop k text) m2 refs own2 (omega arith) in
    let (own3, holds, opens, keeps) =
      extend m refs u text us m3 own used within (omega (arith, length-take k text, open_or_room))
        f in
    (us, m3, rw e3 refl, own3, holds, opens, keeps)
