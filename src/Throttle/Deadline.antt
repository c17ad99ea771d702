-- ===== src/Throttle/Deadline.antt =====
-- When a record of src/throttle.c is due, and what `throttle_timer` does about it.
use solidircd.Base.{
  ℕ, ◌+◌, ◌≡◌, refl, ◌∙◌, true, Option, none, some, ◌==◌, leb, ◌||◌, if◌then◌else◌, arith,
}
use solidircd.Base.Int.{ℤ}
use solidircd.HashTable.Chain.{Compares}
use solidircd.Match.Compare.{Bytes}
use solidircd.Throttle.{Throttle, Throttles, Settings, zline_time, expired, throttle_timer}
use solidircd.Throttle.Timer.{kept, throttle_timer-kept}
use solidircd.Throttle.Valid.{view, IsValid}

-- The last time at which a record counts: the record time behind the last connection, or behind the
-- end of the throttle that stands.
unfoldable pub deadline : Settings → Throttle → ℕ
unfolding zline_time
deadline cfg tp =
    cfg.rtime + (if tp.zline_start == 0 then tp.last else tp.zline_start + zline_time tp.stage)

-- A record is left before its deadline; at the time 0 none is.
unfoldable pub left_at : Settings → ℕ → Option Throttle → Option Throttle
unfolding deadline
left_at cfg now none = none
left_at cfg now (some tp) = if now == 0 || leb (deadline cfg tp) now then none else some tp

expired_lem :
    (cfg : Settings) (now : ℕ) (tp : Throttle)
    → expired cfg now tp ≡ (now == 0 || leb (deadline cfg tp) now)
unfolding expired deadline
expired_lem cfg now tp = ground arith

kept_lem : (cfg : Settings) (now : ℕ) (o : Option Throttle) → kept cfg now o ≡ left_at cfg now o
unfolding left_at
kept_lem cfg now none = refl
kept_lem cfg now (some tp) = rw (expired_lem cfg now tp) refl

module _ (cmp : Bytes → Bytes → ℤ) (cmp_iff : Compares cmp) where
  -- On a valid table, with throttling on, at a time: `throttle_timer` keeps the table valid; every
  -- host whose record is at its deadline or behind it, `throttle_rtime` seconds after its last
  -- connection or, for one that is throttled, after the end of its throttle, has none any more, at
  -- the time 0 no host has one, and every other host keeps its record unchanged.
  pub throttle_timer-left_at :
      (cfg : Settings) (now : ℕ) (st : Throttles)
      → IsValid cmp cmp_iff st
      → cfg.enable ≡ true
      → IsValid cmp cmp_iff (throttle_timer cfg now st)
        × ((k : Bytes)
            → view cmp cmp_iff (throttle_timer cfg now st).list k
              ≡ left_at cfg now (view cmp cmp_iff st.list k))
  throttle_timer-left_at cfg now st v on =
      let (v', reads) = throttle_timer-kept cmp cmp_iff cfg now st v on in
      (v', λ k. reads k ∙ kept_lem cfg now (view cmp cmp_iff st.list k))
