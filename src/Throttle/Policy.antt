-- ===== src/Throttle/Policy.antt =====
-- What the throttle of src/throttle.c promises about the connections of one host.
use solidircd.Base.{
  ℕ, zero, suc, ◌+◌, ◌≤◌, ◌<◌, ◌≡◌, refl, Bool, false, List, [], ◌∷◌, ◌==◌, if◌then◌else◌, arith,
  length,
}
use solidircd.Base.Int.{pos, negsuc, inc}
use solidircd.Throttle.{Throttle, Settings, judge, known, count_out, forced, zline_time}

-- The verdicts of checks of one known host, one after the other, and the record they leave.
unfoldable pub attempts : Settings → Bool → List ℕ → Throttle → List ℕ × Throttle
attempts cfg remote [] tp = ([], tp)
attempts cfg remote (time ∷ times) tp =
    let v = known cfg remote time tp in
    let later = attempts cfg remote times v.1 in (v.0 ∷ later.0, later.1)

abbrev pub AllAre : ℕ → List ℕ → Type 0
AllAre v [] = Unit
AllAre v (x ∷ xs) = (x ≡ v) × AllAre v xs

abbrev pub AllBy : ℕ → List ℕ → Type 0
AllBy limit [] = Unit
AllBy limit (t ∷ ts) = (t ≤ limit) × AllBy limit ts

known-below :
    (cfg : Settings) (time n : ℕ) (tp : Throttle)
    → tp.conns ≡ pos n
    → tp.zline_start ≡ 0
    → time ≤ tp.first + cfg.ttime
    → n + 1 < cfg.tcount
    → known cfg false time tp ≡ (1, record tp { conns = pos (n + 1); last = time }, [])
unfolding known judge
known-below cfg time n tp c z by few = ground arith

-- Fewer connections than the trigger count, within the trigger time.
attempts-accepted :
    (cfg : Settings) (times : List ℕ) (n : ℕ) (tp : Throttle)
    → tp.conns ≡ pos n
    → tp.zline_start ≡ 0
    → AllBy (tp.first + cfg.ttime) times
    → n + length times < cfg.tcount
    → AllAre 1 (attempts cfg false times tp).0
      × ((attempts cfg false times tp).1.conns ≡ pos (n + length times))
      × ((attempts cfg false times tp).1.zline_start ≡ 0)
      × ((attempts cfg false times tp).1.first ≡ tp.first)
      × ((attempts cfg false times tp).1.stage ≡ tp.stage)
unfolding attempts
attempts-accepted cfg [] n tp c z by few = ground arith
attempts-accepted cfg (time ∷ times) n tp c z by few =
    let next = record tp { conns = pos (n + 1); last = time } in
    ground (
      arith,
      known-below cfg time n tp c z by.0 (omega arith),
      attempts-accepted cfg times (n + 1) next refl z by.1 (omega arith),
    )

-- A record at the trigger count less one: the next local connection within the trigger time is
-- refused, and starts the next stage.
known-last :
    (cfg : Settings) (time n : ℕ) (tp : Throttle)
    → tp.conns ≡ pos n
    → tp.zline_start ≡ 0
    → time ≤ tp.first + cfg.ttime
    → cfg.tcount ≡ n + 1
    → ((known cfg false time tp).0 ≡ 0)
      × ((known cfg false time tp).1.zline_start ≡ time)
      × ((known cfg false time tp).1.stage ≡ inc tp.stage)
unfolding known judge count_out
known-last cfg time n tp c z by full = ground arith

-- For a host that was never throttled and has one connection on record, and a trigger count
-- above one: local connections within the trigger time are accepted until the count is reached;
-- the one that reaches it is refused and starts the first stage, of two minutes, at its time.
pub burst-refused :
    (cfg : Settings) (times : List ℕ) (last : ℕ) (tp : Throttle)
    → tp.conns ≡ pos 1
    → tp.zline_start ≡ 0
    → tp.stage ≡ negsuc 0
    → AllBy (tp.first + cfg.ttime) times
    → last ≤ tp.first + cfg.ttime
    → cfg.tcount ≡ length times + 2
    → let (verdicts, before) = attempts cfg false times tp in
      let refusal = known cfg false last before in
      AllAre 1 verdicts
      × (refusal.0 ≡ 0)
      × (refusal.1.zline_start ≡ last)
      × (zline_time refusal.1.stage ≡ 120)
unfolding zline_time
burst-refused cfg times last tp c z s by late full =
    let (ok, conns, zline, first, stage) = attempts-accepted cfg times 1 tp c z by (omega arith) in
    let before = (attempts cfg false times tp).1 in
    let (refused, start, next) =
      known-last cfg last (1 + length times) before conns zline (rw first late) (omega arith) in
    (ok, refused, start, rw (next, stage, s) refl)

-- Each time comes before the throttle that the one before it started has run out.
abbrev pub AllWithin : ℕ → ℕ → List ℕ → Type 0
AllWithin gap start [] = Unit
AllWithin gap start (t ∷ ts) = (t < start + gap) × (0 < t) × AllWithin gap t ts

known-retry :
    (cfg : Settings) (time : ℕ) (tp : Throttle)
    → 0 < tp.zline_start
    → time < tp.zline_start + zline_time tp.stage
    → known cfg false time tp
      ≡ (0, record tp { re_zlines = tp.re_zlines + 1; zline_start = time }, [])
unfolding known
known-retry cfg time tp z soon = ground arith

-- A throttled host whose local retries each come before the running throttle ends, at times above
-- 0, is refused every time, whatever the settings; its stage stays, and every retry is counted.
pub retries-refused :
    (cfg : Settings) (times : List ℕ) (tp : Throttle)
    → 0 < tp.zline_start
    → AllWithin (zline_time tp.stage) tp.zline_start times
    → let (verdicts, left) = attempts cfg false times tp in
      AllAre 0 verdicts × (left.stage ≡ tp.stage) × (left.re_zlines ≡ tp.re_zlines + length times)
unfolding attempts
retries-refused cfg [] tp z soon = ground arith
retries-refused cfg (time ∷ times) tp z soon =
    let next = record tp { re_zlines = tp.re_zlines + 1; zline_start = time } in
    ground (arith, known-retry cfg time tp z soon.0, retries-refused cfg times next soon.1 soon.2)

-- A record that `throttle_force` wrote at `now`, with no throttle running: a connection, local or
-- remote, is refused up to the trigger time after `now`, and the first one behind it is accepted and starts the count anew.
pub forced-refused :
    (cfg : Settings) (remote : Bool) (now time : ℕ) (tp : Throttle)
    → tp.zline_start ≡ 0
    → (time ≤ now + cfg.ttime → (known cfg remote time (forced now tp)).0 ≡ 0)
      × (now + cfg.ttime < time
          → ((known cfg remote time (forced now tp)).0 ≡ 1)
            × ((known cfg remote time (forced now tp)).1.conns ≡ pos 1))
unfolding known judge forced
forced-refused cfg remote now time tp z = ground arith

zline_closed :
    (n : ℕ)
    → zline_time (pos n) ≡ (
        if n == 0
        then 120
        else if n == 1
        then 300
        else if n == 2
        then 900
        else if n == 3
        then 1800
        else 3600)
unfolding zline_time
zline_closed zero = refl
zline_closed (suc zero) = refl
zline_closed (suc (suc zero)) = refl
zline_closed (suc (suc (suc zero))) = refl
zline_closed (suc (suc (suc (suc n)))) = ground arith

-- The throttle times grow with the stage, from two minutes to an hour.
pub zline_time_mono :
    (a b : ℕ)
    → a ≤ b
    → (zline_time (pos a) ≤ zline_time (pos b))
      × (120 ≤ zline_time (pos a))
      × (zline_time (pos b) ≤ 3600)
zline_time_mono a b h = ground (arith, zline_closed a, zline_closed b)
