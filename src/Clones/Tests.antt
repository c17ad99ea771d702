-- ===== src/Clones/Tests.antt =====
-- Runs of src/clones.c, with a comparison that stands for strcmp, and its theorem at an input.
use mathlib.Core.Option
use solidircd.Base.{◌≡◌, refl, true, false, [], ◌∷◌, if◌then◌else◌, Option, none, some, ◌>>=◌}
use solidircd.Base.Int.{pos}
use solidircd.Clones.{
  CloneEnt, Clones, Limits, LimitType, soft_global, hard_global, clones_add, clones_remove,
  clones_check, clones_set, clones_get, clones_send, check_limits, code, new_clone, site,
}
use solidircd.Clones.Decision.{check_limits_lem, host_full, site_full}
use solidircd.HashTable.{HashTable, create_hash_table}
use solidircd.HashTable.Tests.{text_cmp}
use solidircd.Match.Compare.{Bytes}
use solidircd.Throttle.{Throttles}

abbrev host : Bytes
host = b'1' ∷ b'.' ∷ b'2' ∷ []

abbrev no_clones : Clones
no_clones = record {
  list = [];
  hash = create_hash_table 3 46 false;
  stat = record { rlh = 0; rls = 0; rgh = 0; rgs = 0 };
}

abbrev no_throttles : Throttles
no_throttles = record { list = []; hash = create_hash_table 3 46 false; num = 0 }

-- A local limit of two, else the defaults of include/config.h, and a class without limits
abbrev limits : Limits
limits = record {
  local_ip_limit = 2;
  local_ip24_limit = 60;
  global_ip_limit = 25;
  global_ip24_limit = 150;
  connfreq = 0;
  ip24clones = 0;
}

abbrev two_clients : Option Clones
two_clients =
    clones_add text_cmp 64 128 7 true host no_clones
    >>= (λ st. clones_add text_cmp 192 256 8 true host st)

runs : Unit {0}
unfolding clones_add clones_remove clones_check clones_set clones_get clones_send
    solidircd.Clones.find_clone solidircd.Clones.get_clone solidircd.HashTable.hash_find
    solidircd.HashTable.hash_insert solidircd.HashTable.hash_delete
    solidircd.HashTable.hash_get_key_hash create_hash_table solidircd.HashTable.Tests.text_eq
    solidircd.Throttle.throttle_force solidircd.Throttle.find_throttle
    solidircd.Throttle.add_throttle
runs = tt

third_refused :
    Option.map
      (λ r. r.0)
      (two_clients >>= (λ st. clones_check text_cmp limits 1000 64 host st no_throttles))
    ≡ some 1
unfolding runs
third_refused = refl

-- With both clients gone no entry is left, neither of the host nor of the site.
all_gone :
    Option.map
      (λ (st : Clones). st.list)
      (two_clients
        >>= (λ st. clones_remove text_cmp 7 true host st)
        >>= (λ st. clones_remove text_cmp 8 true host st))
    ≡ some []
unfolding runs
all_gone = refl

limit_kept :
    (clones_set text_cmp 64 host soft_global (pos 5) no_clones
      >>= (λ r. clones_get text_cmp host r.1))
    ≡ some (0, 5, 0)
unfolding runs
limit_kept = refl

abbrev full : CloneEnt
full = record (new_clone 64 host) { lcount = pos 2; gcount = pos 3 }

check_limits_lem_example : code (check_limits limits (some full) none) ≡ (
    if host_full limits (some full) then 1 else if site_full limits (some full) none then 2 else 0)
check_limits_lem_example = check_limits_lem limits (some full) none
