-- ===== src/Pm2/Processes.antt =====
-- agent/internal/providers/pm2/pm2.go and the process list of snapshot.go: pm2's processes as units.
-- What JSON decodes to is an argument. Times are in nanoseconds since 1970 unless said otherwise.
pub mod Unique
pub mod Snapshot
mod Tests
use pc_monitor.Base.{
  ℕ, zero, suc, ◌+◌, ◌*◌, Bool, true, false, not, ◌&&◌, ◌||◌, List, [], ◌∷◌, ◌++◌, map, Option,
  none, some, Bytes, codes, bytes_eq, member, join, lookup, insert, keep_if, take, length, ltb,
  decimal, ◌==◌, if◌then◌else◌,
}
use pc_monitor.Base.Int.{ℤ, pos, negsuc, ◌-ℤ◌, ◌*ℤ◌, ltb_ℤ}
use pc_monitor.Base.Scanner.{itoa, quot}
use pc_monitor.Provider.{
  Ratio, ProviderUnit, health_none, action_start, action_stop, action_restart, state_running,
  state_starting, state_restarting, state_stopping, state_stopped, state_failed, state_unknown,
}
use pc_monitor.Provider.Registry.{is_blank}
use pc_monitor.Pm2.Clean.{Unicode, clean, trim_space}

-- `started` is in milliseconds.
pub record Proc : Type 0 where
  pub name : Bytes
  pub id : ℤ
  pub status : Bytes
  pub started : ℤ
  pub cpu : Option Ratio
  pub mem : Option ℕ
  pub restarts : ℤ
  pub runtime : Bytes
  pub accounts : List Bytes
  pub discord : Bytes
  pub logins : List (Bytes × Bytes)
  pub out_log : Bytes
  pub err_log : Bytes

abbrev pub max_accounts : ℕ
max_accounts = 50

unfoldable pub clean_proc : Unicode → Proc → Proc
clean_proc u p = record p {
  name = clean u 64 p.name;
  status = clean u 32 p.status;
  runtime = clean u 32 p.runtime;
  discord = clean u 64 p.discord;
  accounts = keep_if (λ a. not (is_blank a)) (map (clean u 64) (take max_accounts p.accounts));
}

unfoldable pub map_status : Bytes → Bytes
map_status s =
    if bytes_eq s (codes "online")
    then state_running
    else if bytes_eq s (codes "launching")
    then state_starting
    else if bytes_eq s (codes "waiting restart")
    then state_restarting
    else if bytes_eq s (codes "stopping")
    then state_stopping
    else if bytes_eq s (codes "stopped")
    then state_stopped
    else if bytes_eq s (codes "one-launch-status")
    then state_stopped
    else if bytes_eq s (codes "errored")
    then state_failed
    else state_unknown

unfoldable pub actions_of : Bytes → List Bytes
actions_of state =
    if bytes_eq state state_running
    then action_restart ∷ action_stop ∷ []
    else if bytes_eq state state_starting
        || bytes_eq state state_restarting
        || bytes_eq state state_stopping
    then action_stop ∷ []
    else if bytes_eq state state_stopped || bytes_eq state state_failed
    then action_start ∷ []
    else []

-- `count[name]`
unfoldable pub count_of : Bytes → List Proc → ℕ
count_of name [] = 0
count_of name (p ∷ ps) = (if bytes_eq p.name name then 1 else 0) + count_of name ps

-- `next[base]`
unfoldable pub next_of : Bytes → List (Bytes × ℕ) → ℕ
next_of base next = elim (lookup base next) [ none ↦ 0 | some n ↦ n ]

-- The id of the `n`-th repeat.
abbrev pub repeat_id : Bytes → ℕ → Bytes
repeat_id base n = base ++ b'~' ∷ decimal (n + 1)

-- The loop that looks for an id that is not used, from `next[base]` on. Each id that it tries is
-- another one, so a fuel above the number of used ids is enough.
unfoldable pub settle_from : ℕ → Bytes → ℕ → List Bytes → Bytes × ℕ
settle_from zero base n used = (repeat_id base (n + 1), n + 1)
settle_from (suc fuel) base n used =
    let later = settle_from fuel base (n + 1) used in
    if member (repeat_id base (n + 1)) used then later else (repeat_id base (n + 1), n + 1)

-- The id taken, and the counters after.
unfoldable pub settle : Bytes → List Bytes → List (Bytes × ℕ) → Bytes × List (Bytes × ℕ)
settle base used next =
    let (id, n) = settle_from (suc (length used)) base (next_of base next) used in
    if member base used then (id, insert base n next) else (base, next)

abbrev pub note : Bool → Bytes → Bytes → List (Bytes × Bytes) → List (Bytes × Bytes)
note true k v m = insert k v m
note false k v m = m

-- `pr.Logins[a]`: the empty text on a missing key
abbrev pub login_of : List (Bytes × Bytes) → Bytes → Bytes
login_of logins a = elim (lookup a logins) [ none ↦ [] | some d ↦ d ]

unfoldable pub account_line : Unicode → List (Bytes × Bytes) → Bytes → Bytes
account_line u logins a =
    let d = clean u 64 (login_of logins a) in if is_blank d then a else a ++ b'\t' ∷ d

unfoldable pub meta_of : Unicode → Proc → List (Bytes × Bytes)
meta_of u p =
    let lines = map (account_line u p.logins) p.accounts in
    note (ltb 0 (length lines)) (codes "accounts") (join (codes "\n") lines) (
      note (ltb_ℤ (pos 0) p.restarts) (codes "restarts") (itoa p.restarts) (
        note (not (is_blank p.discord)) (codes "discord") p.discord
          (note (not (is_blank p.runtime)) (codes "description") p.runtime [])))

unfoldable pub uptime_of : ℤ → ℤ → ℤ
uptime_of started now =
    let up = now -ℤ started *ℤ pos 1000000 in
    if ltb_ℤ (pos 0) started && ltb_ℤ (pos 0) up then quot up 1000000000 else pos 0

-- Cluster instances share a name, and get their pm2 id behind it.
abbrev pub id_of : Proc → ℕ → Bytes
id_of p n = if ltb 1 n then p.name ++ b'-' ∷ itoa p.id else p.name

abbrev pub label_of : Proc → ℕ → Bytes
label_of p n = if ltb 1 n then p.name ++ (codes " #" ++ itoa p.id) else p.name

unfoldable pub unit_of : Unicode → ℤ → Proc → ℕ → Bytes → ProviderUnit
unit_of u now p n id' =
    let runs = bytes_eq (map_status p.status) state_running in
    record {
      id = id';
      provider = [];
      name = label_of p n;
      kind = codes "bot";
      state = map_status p.status;
      health = health_none;
      uptime_sec = if runs then uptime_of p.started now else pos 0;
      cpu = if runs then p.cpu else none;
      mem_bytes = if runs then p.mem else none;
      mem_limit = none;
      actions = some (actions_of (map_status p.status));
      meta = meta_of u p;
      about = [];
    }

pub record Bound : Type 0 where
  pub unit : ProviderUnit
  pub proc : Proc

unfoldable pub skipped : Unicode → List Bytes → Proc → Bool
skipped u exclude p = is_blank p.name || member (u.lower p.name) exclude

-- The loop of `bind`, with the ids used and the counters; `all` is what `count` counts.
unfoldable pub bind_from :
    Unicode → List Bytes → ℤ → List Proc → List Bytes → List (Bytes × ℕ) → List Proc → List Bound
bind_from u exclude now all used next [] = []
bind_from u exclude now all used next (p ∷ ps) =
    let n = count_of p.name all in
    let (id, next') = settle (id_of p n) used next in
    let skip = skipped u exclude p in
    let rest =
      bind_from u exclude now all (if skip then used else id ∷ used) (if skip then next else next')
        ps in
    if skip then rest else record { unit = unit_of u now p n id; proc = p } ∷ rest

unfoldable pub bind : Unicode → List Bytes → ℤ → List Proc → List Bound
bind u exclude now procs =
    let cleaned = map (clean_proc u) procs in bind_from u exclude now cleaned [] [] cleaned

-- The keys of `exclude`.
unfoldable pub exclude_of : Unicode → List Bytes → List Bytes
exclude_of u names = map (λ n. u.lower (u.encode (trim_space (u.runes n)))) names
