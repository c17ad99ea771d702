-- ===== src/Throttle/Tests.antt =====
-- Runs of the throttle of src/throttle.c, and each theorem at an input. The hash table has 3 buckets.
use mathlib.Core.Option
use solidircd.Base.{ℕ, ◌≡◌, ◌⊎◌, refl, true, false, List, [], ◌∷◌, Option, none, some, arith}
use solidircd.Base.Int.{pos, negsuc}
use solidircd.HashTable.Models.{create-Models}
use solidircd.HashTable.Tests.{text_eq, text_cmp, text_cmp_iff}
use solidircd.HashTable.{create_hash_table, hash_get_key_hash, hash_insert, hash_find}
use solidircd.Match.Compare.{Bytes}
use solidircd.Throttle.{
  check_host, find_throttle, add_throttle, drop_throttle, Notice, Throttle, Throttles, Settings,
  throttle_check, throttle_timer, deref, known, judge, zline_time, new_throttle,
}
use solidircd.Throttle.Check.{verdict_for, Wrote, skips, check_time, throttle_check-Wrote}
use solidircd.Throttle.Deadline.{left_at, throttle_timer-left_at}
use solidircd.Throttle.Policy.{attempts, AllAre, burst-refused}
use solidircd.Throttle.Steps.{add-IsValid}
use solidircd.Throttle.Valid.{view, IsValid}

-- The defaults of include/config.h
abbrev defaults : Settings
defaults = record { enable = true; tcount = 3; ttime = 15; rtime = 1800 }

abbrev empty : Throttles
empty = record { list = []; hash = create_hash_table 3 46 false; num = 0 }

empty-IsValid : IsValid text_cmp text_cmp_iff empty
empty-IsValid = record {
  models = create-Models text_cmp text_cmp_iff 3 46 false (omega arith);
  apart = tt;
  counted = refl;
}

abbrev host : Bytes
host = b'1' ∷ b'.' ∷ b'2' ∷ []

-- A record after its first connection, at 1000.
abbrev seen : Throttle
seen = record {
  at = 64;
  addr = host;
  conns = pos 1;
  first = 1000;
  last = 1000;
  zline_start = 0;
  stage = negsuc 0;
  re_zlines = 0;
}

abbrev one : Throttles
one = add_throttle seen empty

one-IsValid : IsValid text_cmp text_cmp_iff one
unfolding deref view
one-IsValid = add-IsValid text_cmp text_cmp_iff empty seen empty-IsValid refl refl

throttle_check-Wrote_example :
    ((skips text_cmp text_cmp_iff defaults 1005 false 1005 ≡ true)
      × (throttle_check text_cmp defaults 1005 false 1005 128 host one ≡ some (1, one, [])))
    ⊎ ((skips text_cmp text_cmp_iff defaults 1005 false 1005 ≡ false)
        × (st' : Throttles) × (throttle_check text_cmp defaults 1005 false 1005 128 host one
            ≡ some (
              (verdict_for defaults false
                  (check_time text_cmp text_cmp_iff 1005 1005)
                  128
                  host
                  (view text_cmp text_cmp_iff one.list host)).0,
              st',
              (verdict_for defaults false
                  (check_time text_cmp text_cmp_iff 1005 1005)
                  128
                  host
                  (view text_cmp text_cmp_iff one.list host)).2,
            ))
        × Wrote text_cmp text_cmp_iff host
            (some
              (verdict_for defaults false
                (check_time text_cmp text_cmp_iff 1005 1005)
                128
                host
                (view text_cmp text_cmp_iff one.list host)).1)
            one
            st')
unfolding deref add_throttle
throttle_check-Wrote_example =
    throttle_check-Wrote text_cmp text_cmp_iff defaults 1005 false 1005 128 host one one-IsValid
      refl

throttle_timer-left_at_example :
    IsValid text_cmp text_cmp_iff (throttle_timer defaults 2800 one)
    × ((k : Bytes)
        → view text_cmp text_cmp_iff (throttle_timer defaults 2800 one).list k
          ≡ left_at defaults 2800 (view text_cmp text_cmp_iff one.list k))
throttle_timer-left_at_example =
    throttle_timer-left_at text_cmp text_cmp_iff defaults 2800 one one-IsValid refl

burst-refused_example :
    AllAre 1 (attempts defaults false (1004 ∷ []) seen).0
    × ((known defaults false 1008 (attempts defaults false (1004 ∷ []) seen).1).0 ≡ 0)
    × ((known defaults false 1008 (attempts defaults false (1004 ∷ []) seen).1).1.zline_start
        ≡ 1008)
    × (zline_time (known defaults false 1008 (attempts defaults false (1004 ∷ []) seen).1).1.stage
        ≡ 120)
burst-refused_example =
    burst-refused defaults (1004 ∷ []) 1008 seen refl refl refl (omega arith, tt) (omega arith) refl

-- Throttled since 1008, at the first stage.
abbrev throttled : Throttle
throttled = record seen { conns = pos 3; zline_start = 1008; stage = pos 0 }

runs : Unit {0}
unfolding deref zline_time known judge throttle_check throttle_timer create_hash_table hash_find
    text_eq check_host find_throttle hash_get_key_hash add_throttle hash_insert new_throttle
    drop_throttle
runs = tt

-- Local connections at 1000, 1005 and 1010: the third is refused.
abbrev after : ℕ → ℕ → Option (ℕ × Throttles × List Notice) → Option (ℕ × Throttles × List Notice)
after at now none = none
after at now (some (v, st, sent)) = throttle_check text_cmp defaults now false now at host st

first_two : Option.map (λ r. r.0) (after 128 1005 (after 64 1000 (some (1, empty, [])))) ≡ some 1
unfolding runs
first_two = refl

third_refused :
    Option.map (λ r. r.0) (after 192 1010 (after 128 1005 (after 64 1000 (some (1, empty, [])))))
    ≡ some 0
unfolding runs
third_refused = refl

swept : (throttle_timer defaults 2800 one).num ≡ 0
unfolding runs
swept = refl
