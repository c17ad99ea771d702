-- ===== src/Throttle/Check.antt =====
-- `throttle_check`, `throttle_force` and `throttle_remove` of src/throttle.c: the table stays valid,
-- no pointer dangles, and each call reads and writes the record of its host alone.
use mathlib.Core.Option
use solidircd.Base.{
  ℕ, ◌+◌, ◌≡◌, refl, sym, ◌∙◌, ap, Bool, true, false, List, [], ◌∷◌, ◌&&◌, ◌||◌, ◌⊎◌, not, ltb,
  if◌then◌else◌, Option, none, some, arith, Bool-cases, Option-cases, inl, inr, subst,
}
use solidircd.Base.Int.{ℤ}
use solidircd.HashTable.Chain.{Compares, same_key, same_key_iff}
use solidircd.Match.Compare.{Bytes}
use solidircd.Throttle.{
  Throttle, Throttles, Settings, Verdict, deref, store, add_throttle, drop_throttle, new_throttle,
  judge, known, count_out, forced, settle, check_host, throttle_check, throttle_force,
  throttle_remove,
}
use solidircd.Throttle.Valid.{view, IsValid, deref-view, view-addr, view-store, find_throttle-view}
use solidircd.Throttle.Steps.{add-IsValid, store-IsValid, drop-IsValid, view-unlink, view_congr}

-- No branch of a check moves a record or changes its host.
SamePlace : Throttle → Throttle → Type 0
SamePlace old new = (new.at ≡ old.at) × (new.addr ≡ old.addr)

judge-SamePlace :
    (cfg : Settings) (remote : Bool) (time : ℕ) (tp : Throttle)
    → SamePlace tp (judge cfg remote time tp).1
unfolding judge count_out SamePlace
judge-SamePlace cfg remote time tp = ground arith

known-SamePlace :
    (cfg : Settings) (remote : Bool) (time : ℕ) (tp : Throttle)
    → SamePlace tp (known cfg remote time tp).1
unfolding known SamePlace
known-SamePlace cfg remote time tp = ground (
  arith,
  judge-SamePlace cfg remote time tp,
  judge-SamePlace cfg remote time (record tp { conns = ℤ.pos 0; first = time; zline_start = 0 }),
)

-- What a check does to the record of its host: a missing one is made first.
unfoldable pub verdict_for : Settings → Bool → ℕ → ℕ → Bytes → Option Throttle → Verdict
verdict_for cfg remote time at host none = judge cfg remote time (new_throttle at host time)
verdict_for cfg remote time at host (some tp) = known cfg remote time tp

module _ (cmp : Bytes → Bytes → ℤ) (cmp_iff : Compares cmp) where
  -- After a write of a record for its host: the table is valid, and other hosts are as before.
  pub record Wrote (host : Bytes) (new : Option Throttle) (st st' : Throttles) : Type 0 where
    pub valid : IsValid cmp cmp_iff st'
    pub reads :
        (k : Bytes)
        → view cmp cmp_iff st'.list k
          ≡ (if same_key cmp cmp_iff host k then new else view cmp cmp_iff st.list k)

  Wrote-store :
      (st : Throttles) (new old : Throttle) (host : Bytes)
      → IsValid cmp cmp_iff st
      → view cmp cmp_iff st.list host ≡ some old
      → SamePlace old new
      → Wrote host (some new) st (record st { list = store new st.list })
  unfolding SamePlace
  Wrote-store st new old host v h (place, addr) =
      let alive : deref new.at st.list ≡ some old =
        ap (λ p. deref p st.list) place ∙ deref-view cmp cmp_iff host st.list old v.apart h in
      let own : new.addr ≡ host = addr ∙ view-addr cmp cmp_iff host st.list old h in
      record {
        valid = store-IsValid cmp cmp_iff st new old v alive (sym addr);
        reads = λ k.
            subst
              (λ a.
                view cmp cmp_iff (store new st.list) k
                ≡ (if same_key cmp cmp_iff a k then some new else view cmp cmp_iff st.list k))
              own (view-store cmp cmp_iff st.list new old k alive (sym addr) v.apart);
      }

  view-add :
      (tp : Throttle) (l : List Throttle) (k : Bytes)
      → view cmp cmp_iff (tp ∷ l) k
        ≡ (if same_key cmp cmp_iff tp.addr k then some tp else view cmp cmp_iff l k)
  unfolding view
  view-add tp l k = refl

  -- A record that is made for a host without one, and then written.
  Wrote-add :
      (st : Throttles) (new old : Throttle)
      → IsValid cmp cmp_iff st
      → view cmp cmp_iff st.list old.addr ≡ none
      → deref old.at st.list ≡ none
      → SamePlace old new
      → Wrote old.addr
          (some new)
          st
          (record (add_throttle old st) { list = store new (old ∷ st.list) })
  unfolding add_throttle
  Wrote-add st new old v none_yet fresh same =
      let v' = add-IsValid cmp cmp_iff st old v fresh none_yet in
      let there : view cmp cmp_iff (old ∷ st.list) old.addr ≡ some old =
        ground (arith, view-add old st.list old.addr, same_key_iff cmp cmp_iff old.addr old.addr) in
      let w = Wrote-store (add_throttle old st) new old old.addr v' there same in
      record { valid = w.valid; reads = λ k. ground (arith, w.reads k, view-add old st.list k) }

  -- In a valid table, for a new record at an address that is not in use: behind the early returns
  -- `throttle_check` returns, follows no stale pointer, keeps the table valid, and puts for its host
  -- the record that the rules of a check make of the old one; other hosts keep theirs.
  pub check_host-Wrote :
      (cfg : Settings) (remote : Bool) (time at : ℕ) (host : Bytes) (st : Throttles)
      → IsValid cmp cmp_iff st
      → deref at st.list ≡ none
      → let v = verdict_for cfg remote time at host (view cmp cmp_iff st.list host) in
        (st' : Throttles) × (check_host cmp cfg remote time at host st ≡ some (v.0, st', v.2))
        × Wrote host (some v.1) st st'
  unfolding check_host settle verdict_for new_throttle add_throttle
  check_host-Wrote cfg remote time at host st valid fresh =
      elim (Option-cases (view cmp cmp_iff st.list host)) [
        | inl e ↦
            let found = find_throttle-view cmp cmp_iff st host valid ∙ ap some e in
            let old = new_throttle at host time in
            rw (found, check_host, e)
              (
                _,
                refl,
                Wrote-add st (judge cfg remote time old).1 old valid e fresh
                    (judge-SamePlace cfg remote time old),
              )
        | inr (tp, e) ↦
            let found = find_throttle-view cmp cmp_iff st host valid ∙ ap some e in
            rw (found, check_host, e)
              (
                _,
                refl,
                Wrote-store st (known cfg remote time tp).1 tp host valid e
                    (known-SamePlace cfg remote time tp),
              )
      ]

  absent_reads :
      (st : Throttles) (host k : Bytes)
      → view cmp cmp_iff st.list host ≡ none
      → view cmp cmp_iff st.list k
        ≡ (if same_key cmp cmp_iff host k then none else view cmp cmp_iff st.list k)
  absent_reads st host k e =
      ground (arith, same_key_iff cmp cmp_iff host k, view_congr cmp cmp_iff host k st.list)

  -- `throttle_force` in a valid table, for a new record at an address that is not in use: the host
  -- gets the record it had, or a new one, with `conns` at -1 and both times at now; other hosts
  -- keep theirs, and the table stays valid.
  pub throttle_force-Wrote :
      (now at : ℕ) (host : Bytes) (st : Throttles)
      → IsValid cmp cmp_iff st
      → deref at st.list ≡ none
      → (st' : Throttles) × (throttle_force cmp now at host st ≡ some st')
        × Wrote host
            (some (
              forced now
                (Option.get_or (view cmp cmp_iff st.list host) (new_throttle at host now))))
            st
            st'
  unfolding throttle_force forced new_throttle add_throttle SamePlace
  throttle_force-Wrote now at host st valid fresh =
      elim (Option-cases (view cmp cmp_iff st.list host)) [
        | inl e ↦
            let found = find_throttle-view cmp cmp_iff st host valid ∙ ap some e in
            let old = new_throttle at host now in
            rw (found, throttle_force, e)
              (_, refl, Wrote-add st (forced now old) old valid e fresh (refl, refl))
        | inr (tp, e) ↦
            let found = find_throttle-view cmp cmp_iff st host valid ∙ ap some e in
            rw (found, throttle_force, e)
              (_, refl, Wrote-store st (forced now tp) tp host valid e (refl, refl))
      ]

  -- `throttle_remove` in a valid table takes the record of its host out, if there is one, and no
  -- other; the table stays valid.
  pub throttle_remove-Wrote :
      (host : Bytes) (st : Throttles)
      → IsValid cmp cmp_iff st
      → (st' : Throttles) × (throttle_remove cmp host st ≡ some st') × Wrote host none st st'
  unfolding throttle_remove drop_throttle
  throttle_remove-Wrote host st valid = elim (Option-cases (view cmp cmp_iff st.list host)) [
    | inl e ↦
        let found = find_throttle-view cmp cmp_iff st host valid ∙ ap some e in
        rw (found, throttle_remove)
          (st, refl, record { valid = valid; reads = λ k. absent_reads st host k e })
    | inr (tp, e) ↦
        let found = find_throttle-view cmp cmp_iff st host valid ∙ ap some e in
        rw (found, throttle_remove)
          (
            drop_throttle tp st,
            refl,
            record {
              valid = drop-IsValid cmp cmp_iff st tp host valid e;
              reads = λ k. view-unlink cmp cmp_iff st.list tp host k valid.apart e;
            },
          )
  ]

  -- The two early returns of `throttle_check`.
  abbrev pub skips : Settings → ℕ → Bool → ℕ → Bool
  skips cfg now remote sotime = not cfg.enable || (remote && ltb (sotime + cfg.ttime) now)

  abbrev pub check_time : ℕ → ℕ → ℕ
  check_time now sotime = if ltb now sotime then now else sotime

  -- `throttle_check` in a valid table, for a new record at an address that is not in use. With
  -- throttling off, or for a remote client that signed on longer ago than the trigger time, it
  -- accepts and changes nothing. Else it answers what the rules make of the record of the host at
  -- the sign-on time (at now, if that lies ahead), writes that record, keeps those of other hosts,
  -- and keeps the table valid.
  pub throttle_check-Wrote :
      (cfg : Settings) (now : ℕ) (remote : Bool) (sotime at : ℕ) (host : Bytes) (st : Throttles)
      → IsValid cmp cmp_iff st
      → deref at st.list ≡ none
      → let v =
          verdict_for cfg remote (check_time now sotime) at host (view cmp cmp_iff st.list host) in
        ((skips cfg now remote sotime ≡ true)
          × (throttle_check cmp cfg now remote sotime at host st ≡ some (1, st, [])))
        ⊎ ((skips cfg now remote sotime ≡ false)
            × (st' : Throttles) × (throttle_check cmp cfg now remote sotime at host st
                ≡ some (v.0, st', v.2))
            × Wrote host (some v.1) st st')
  unfolding throttle_check
  throttle_check-Wrote cfg now remote sotime at host st valid fresh =
      elim (Bool-cases (skips cfg now remote sotime)) [
        | inl skip ↦ inl (skip, ground arith)
        | inr go ↦
            let (st', run, wrote) =
              check_host-Wrote cfg remote (check_time now sotime) at host st valid fresh in
            inr (go, st', ground (arith, run), wrote)
      ]
