-- ===== src/Clones/Decision.antt =====
-- Which clients the limits of src/clones.c refuse, told without the order of the checks.
use solidircd.Base.{
  ℕ, ◌≡◌, refl, ◌∙◌, Bool, false, ◌==◌, ◌||◌, not, if◌then◌else◌, Option, none, some, arith,
}
use solidircd.Base.Int.{ℤ}
use solidircd.Clones.{
  CloneEnt, Limits, Report, reached, check_ip, check_site, check_limits, or_on, local_priority,
  global_priority, code,
}

-- The first limit that is set, else the default
unfoldable pub first_set : ℕ → ℕ → ℕ → ℕ
first_set a b default = if not (a == 0) then a else if not (b == 0) then b else default

-- A host is full by its local or by its global count.
unfoldable pub host_full : Limits → Option CloneEnt → Bool
unfolding first_set
host_full lim none = false
host_full lim (some ce) =
    reached ce.lcount (first_set ce.sllimit lim.connfreq lim.local_ip_limit)
    || reached ce.gcount (first_set ce.sglimit ce.limit lim.global_ip_limit)

-- A limit of its own for the host, soft or of its class, lifts the default limit of the site, and
-- a soft one that of the class too.
unfoldable pub has_soft : Option CloneEnt → Bool
has_soft none = false
has_soft (some ce) = not (ce.sllimit == 0)

unfoldable pub has_class : Limits → Option CloneEnt → Bool
has_class lim none = false
has_class lim (some ce) = not (lim.connfreq == 0)

unfoldable pub has_global : Option CloneEnt → Bool
has_global none = false
has_global (some ce) = not (ce.sglimit == 0) || not (ce.limit == 0)

-- The limit of the site on local clients, where there is one
unfoldable pub site_local : Limits → Option CloneEnt → CloneEnt → Option ℕ
site_local lim host ce =
    if not (ce.sllimit == 0)
    then some ce.sllimit
    else if has_soft host
    then none
    else if not (lim.ip24clones == 0)
    then some lim.ip24clones
    else if has_class lim host
    then none
    else some lim.local_ip24_limit

-- The limit of the site on all clients, where there is one
unfoldable pub site_global : Limits → Option CloneEnt → CloneEnt → Option ℕ
site_global lim host ce =
    if not (ce.sglimit == 0)
    then some ce.sglimit
    else if not (ce.limit == 0)
    then some ce.limit
    else if has_global host
    then none
    else some lim.global_ip24_limit

abbrev pub reaches : ℤ → Option ℕ → Bool
reaches count none = false
reaches count (some limit) = reached count limit

unfoldable pub site_full : Limits → Option CloneEnt → Option CloneEnt → Bool
unfolding site_local site_global
site_full lim host none = false
site_full lim host (some ce) =
    reaches ce.lcount (site_local lim host ce) || reaches ce.gcount (site_global lim host ce)

code-check_ip :
    (lim : Limits) (host : Option CloneEnt)
    → code (check_ip lim host) ≡ (if host_full lim host then 1 else 0)
unfolding code check_ip host_full
code-check_ip lim none = refl
code-check_ip lim (some ce) = ground arith

code-check_site :
    (lim : Limits) (host s : Option CloneEnt)
    → code (check_site lim (local_priority lim host) (global_priority host) s)
      ≡ (if site_full lim host s then 2 else 0)
unfolding code check_site local_priority global_priority site_full has_soft has_class has_global
code-check_site lim host none = refl
code-check_site lim none (some ce) = ground arith
code-check_site lim (some ip) (some ce) = ground arith

code-or_on : (a b : Option Report) → code (or_on a b) ≡ (if code a == 0 then code b else code a)
unfolding code
code-or_on none b = refl
code-or_on (some r) b = ground arith

-- The checks answer 1 when the host is full, else 2 when its site is, else 0. The host is full when
-- its local count reaches the first of its soft limit, the limit of the class and the default that
-- is set, or its global count the first of its soft limit, its hard limit and the default. The
-- site is full by its own limits in the same way, but, when the host has an entry, without the
-- default limits when a limit of that kind other than the default holds for the host, and without the
-- limit of the class when the entry of the host has a soft one; for a host without an entry the limits
-- of the site hold without exemption.
pub check_limits_lem :
    (lim : Limits) (host s : Option CloneEnt)
    → code (check_limits lim host s)
      ≡ (if host_full lim host then 1 else if site_full lim host s then 2 else 0)
unfolding check_limits
check_limits_lem lim host s =
    code-or_on (check_ip lim host)
      (check_site lim (local_priority lim host) (global_priority host) s)
    ∙ rw (code-check_ip lim host, code-check_site lim host s) (ground arith)
