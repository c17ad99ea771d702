-- ===== src/Throttle/Timer.antt =====
-- `throttle_timer` and `throttle_rehash` of src/throttle.c: exactly the expired records go.
use solidircd.Base.{
  ℕ, ◌≡◌, refl, ◌∙◌, ap, true, false, List, [], ◌∷◌, if◌then◌else◌, Option, none, some, arith,
  Bool-cases, inl, inr, length,
}
use solidircd.Base.Int.{ℤ}
use solidircd.HashTable.Chain.{Compares, same_key, same_key_iff}
use solidircd.Match.Compare.{Bytes}
use solidircd.Throttle.{
  Throttle, Throttles, Settings, drop_throttle, expired, sweep, throttle_timer, throttle_rehash,
}
use solidircd.Throttle.Apart.{IsApart}
use solidircd.Throttle.Steps.{drop-IsValid, view-unlink, view_congr}
use solidircd.Throttle.Valid.{entries, view, IsValid, find_in-view}

-- What the timer leaves of a host.
abbrev pub kept : Settings → ℕ → Option Throttle → Option Throttle
kept cfg now none = none
kept cfg now (some tp) = if expired cfg now tp then none else some tp

module _ (cmp : Bytes → Bytes → ℤ) (cmp_iff : Compares cmp) where
  -- The records of `l` differ in their hosts, and are those that the table `m` has for them.
  abbrev IsListed : List Throttle → (Bytes → Option Throttle) → Type 0
  IsListed [] m = Unit
  IsListed (tp ∷ l) m = (m tp.addr ≡ some tp) × (view cmp cmp_iff l tp.addr ≡ none) × IsListed l m

  IsListed-other :
      (l : List Throttle) (m m' : Bytes → Option Throttle) (host : Bytes)
      → view cmp cmp_iff l host ≡ none
      → ((k : Bytes) → same_key cmp cmp_iff host k ≡ false → m' k ≡ m k)
      → IsListed l m
      → IsListed l m'
  unfolding view
  IsListed-other [] m m' host h keep listed = tt
  IsListed-other (tp ∷ l) m m' host h keep listed =
      let other : same_key cmp cmp_iff host tp.addr ≡ false =
        ground
          (arith, same_key_iff cmp cmp_iff host tp.addr, same_key_iff cmp cmp_iff tp.addr host) in
      (
        keep tp.addr other ∙ listed.0,
        listed.1,
        IsListed-other l m m' host (ground arith) keep listed.2,
      )

  IsListed-self :
      (l : List Throttle) → IsApart cmp cmp_iff (entries l) → IsListed l (view cmp cmp_iff l)
  unfolding view
  IsListed-self [] apart = tt
  IsListed-self (tp ∷ l) apart =
      let absent : view cmp cmp_iff l tp.addr ≡ none =
        ground (arith, find_in-view cmp cmp_iff tp.addr l) in
      (
        ground (arith, same_key_iff cmp cmp_iff tp.addr tp.addr),
        absent,
        IsListed-other l (view cmp cmp_iff l) (view cmp cmp_iff (tp ∷ l)) tp.addr absent
            (λ k h. ground arith) (IsListed-self l apart.2),
      )

  -- What is left of a host after a walk over `l`.
  abbrev after : Settings → ℕ → Option Throttle → Option Throttle → Option Throttle
  after cfg now none other = other
  after cfg now (some tp) other = if expired cfg now tp then none else other

  -- One record of the walk.
  abbrev step : Settings → ℕ → Throttle → Throttles → Throttles
  step cfg now tp st = if expired cfg now tp then drop_throttle tp st else st

  step-view :
      (cfg : Settings) (now : ℕ) (tp : Throttle) (st : Throttles) (k : Bytes)
      → IsValid cmp cmp_iff st
      → view cmp cmp_iff st.list tp.addr ≡ some tp
      → view cmp cmp_iff (step cfg now tp st).list k ≡ (
          if same_key cmp cmp_iff tp.addr k
          then kept cfg now (some tp)
          else view cmp cmp_iff st.list k)
  unfolding drop_throttle
  step-view cfg now tp st k v h = elim (Bool-cases (expired cfg now tp)) [
    | inl e ↦ rw e (view-unlink cmp cmp_iff st.list tp tp.addr k v.apart h)
    | inr e ↦
        ground (arith, same_key_iff cmp cmp_iff tp.addr k, view_congr cmp cmp_iff tp.addr k st.list)
  ]

  step-IsValid :
      (cfg : Settings) (now : ℕ) (tp : Throttle) (st : Throttles)
      → IsValid cmp cmp_iff st
      → view cmp cmp_iff st.list tp.addr ≡ some tp
      → IsValid cmp cmp_iff (step cfg now tp st)
  step-IsValid cfg now tp st v h = elim (Bool-cases (expired cfg now tp)) [
    | inl e ↦ rw e (drop-IsValid cmp cmp_iff st tp tp.addr v h)
    | inr e ↦ rw e v
  ]

  sweep-IsValid :
      (cfg : Settings) (now : ℕ) (l : List Throttle) (st : Throttles)
      → IsValid cmp cmp_iff st
      → IsListed l (view cmp cmp_iff st.list)
      → IsValid cmp cmp_iff (sweep cfg now l st)
        × ((k : Bytes)
            → view cmp cmp_iff (sweep cfg now l st).list k
              ≡ after cfg now (view cmp cmp_iff l k) (view cmp cmp_iff st.list k))
  unfolding sweep view
  sweep-IsValid cfg now [] st v listed = (v, λ k. refl)
  sweep-IsValid cfg now (tp ∷ l) st v listed =
      let seen = λ (k : Bytes). step-view cfg now tp st k v listed.0 in
      let rest : IsListed l (view cmp cmp_iff (step cfg now tp st).list) =
        IsListed-other l (view cmp cmp_iff st.list) (view cmp cmp_iff (step cfg now tp st).list)
          tp.addr listed.1 (λ k h. ground (arith, seen k)) listed.2 in
      let (v', reads) =
        sweep-IsValid cfg now l (step cfg now tp st) (step-IsValid cfg now tp st v listed.0) rest in
      (
        v',
        λ k.
            reads k
            ∙ ground (
              arith,
              seen k,
              same_key_iff cmp cmp_iff tp.addr k,
              view_congr cmp cmp_iff tp.addr k l,
            ),
      )

  -- `throttle_timer` on a valid table, with throttling on: the table stays valid; every host whose
  -- record has expired has none any more, and every other host keeps its record unchanged.
  pub throttle_timer-kept :
      (cfg : Settings) (now : ℕ) (st : Throttles)
      → IsValid cmp cmp_iff st
      → cfg.enable ≡ true
      → IsValid cmp cmp_iff (throttle_timer cfg now st)
        × ((k : Bytes)
            → view cmp cmp_iff (throttle_timer cfg now st).list k
              ≡ kept cfg now (view cmp cmp_iff st.list k))
  unfolding throttle_timer
  throttle_timer-kept cfg now st v on =
      let (v', reads) = sweep-IsValid cfg now st.list st v (IsListed-self st.list v.apart) in
      (rw on v', λ k. ground (arith, reads k))

  none_left : (l : List Throttle) → ((k : Bytes) → view cmp cmp_iff l k ≡ none) → l ≡ []
  unfolding view
  none_left [] h = refl
  none_left (tp ∷ l) h =
      absurd (ground (arith, h tp.addr, same_key_iff cmp cmp_iff tp.addr tp.addr))

  -- `throttle_rehash` on a valid table, with throttling on, leaves no record, counts none, and
  -- keeps the table valid.
  pub throttle_rehash-empty :
      (cfg : Settings) (st : Throttles)
      → IsValid cmp cmp_iff st
      → cfg.enable ≡ true
      → IsValid cmp cmp_iff (throttle_rehash cfg st)
        × ((throttle_rehash cfg st).list ≡ [])
        × ((throttle_rehash cfg st).num ≡ 0)
  unfolding throttle_rehash expired
  throttle_rehash-empty cfg st v on =
      let (v', reads) = throttle_timer-kept cfg 0 st v on in
      let empty = none_left (throttle_timer cfg 0 st).list (λ k. ground (arith, reads k)) in
      (v', empty, v'.counted ∙ ap length empty)
