-- ===== src/Systemd.antt =====
-- agent/internal/providers/systemd/systemd.go: units of an allowlist, through systemctl and
-- journalctl. What a command prints, the clocks and JSON are arguments. A CPU share is the exact
-- fraction that the source rounds.
pub mod Show
pub mod Listed
pub mod Done
pub mod Journal
mod Tests
use pc_monitor.Base.{
  ℕ, ◌-◌, ◌*◌, ◌/◌, ◌^◌, Bool, true, false, not, ◌&&◌, List, [], ◌∷◌, ◌++◌, Option, none, some,
  Bytes, codes, bytes_eq, member, cut, lookup, insert, ltb, leb, if◌then◌else◌,
}
use pc_monitor.Base.Int.{ℤ, pos}
use pc_monitor.Base.Lines.{all_lines}
use pc_monitor.Base.Scanner.{max_token, tokens, parse_uint}
use pc_monitor.Provider.{
  Ratio, ProviderUnit, CallError, bad_action, unknown_unit, health_none, actions_for, valid_action,
  state_running, state_starting, state_stopping, state_stopped, state_failed, state_unknown,
}
use pc_monitor.Provider.Registry.{Listing, listed, list_failed, is_blank}

abbrev pub Props : Type 0
Props = List (Bytes × Bytes)

-- `props[key]`: the empty text on a missing key
unfoldable pub prop : Props → Bytes → Bytes
prop props key = elim (lookup key props) [ none ↦ [] | some v ↦ v ]

-- One line of a block.
unfoldable pub set_prop : Bytes → Props → Props
set_prop line cur = elim (cut b'=' line) [ none ↦ cur | some p ↦ insert p.0 p.1 cur ]

abbrev pub end_block : Props → List Props → List Props
end_block [] blocks = blocks
end_block (p ∷ cur) blocks = (p ∷ cur) ∷ blocks

-- The loop of `parseShow`, with the block that it is in.
unfoldable pub show_blocks : List Bytes → Props → List Props
show_blocks [] cur = end_block cur []
show_blocks ([] ∷ ls) cur = end_block cur (show_blocks ls [])
show_blocks ((c ∷ line) ∷ ls) cur = show_blocks ls (set_prop (c ∷ line) cur)

unfoldable pub parse_show : Bytes → List Props
parse_show out = show_blocks (tokens max_token (all_lines out)) []

-- `none` where the property is not set, for which systemd may also print 2 ^ 64 - 1.
unfoldable pub num : Bytes → Option ℕ
num s = parse_uint (2 ^ 64 - 1) s

unfoldable pub map_state : Bytes → Bytes
map_state s =
    if bytes_eq s (codes "active")
    then state_running
    else if bytes_eq s (codes "activating")
    then state_starting
    else if bytes_eq s (codes "reloading")
    then state_starting
    else if bytes_eq s (codes "deactivating")
    then state_stopping
    else if bytes_eq s (codes "inactive")
    then state_stopped
    else if bytes_eq s (codes "failed")
    then state_failed
    else state_unknown

-- `strings.TrimSuffix(s, suffix)`
unfoldable pub without_suffix : Bytes → Bytes → Bytes
without_suffix suffix [] = []
without_suffix suffix (c ∷ s) =
    let rest = without_suffix suffix s in if bytes_eq (c ∷ s) suffix then [] else c ∷ rest

abbrev pub note : Bool → Bytes → Bytes → Props → Props
note true k v m = insert k v m
note false k v m = m

-- The `Meta` of a unit.
unfoldable pub meta_of : Props → Props
meta_of props =
    let d = prop props (codes "Description") in
    let s = prop props (codes "SubState") in
    let n = prop props (codes "NRestarts") in
    note (bytes_eq (prop props (codes "LoadState")) (codes "not-found")) (codes "error")
      (codes "unit not found")
      (note (not (is_blank n) && not (bytes_eq n (codes "0"))) (codes "restarts") n (
        note (not (is_blank s)) (codes "sub") s
          (note (not (is_blank d)) (codes "description") d [])))

unfoldable pub state_of : Props → Bytes
state_of props =
    if bytes_eq (prop props (codes "LoadState")) (codes "not-found")
    then state_failed
    else map_state (prop props (codes "ActiveState"))

-- Microseconds to seconds, where the start is known and not in the future.
abbrev pub uptime_of : Option ℕ → ℕ → ℤ
uptime_of none mono = pos 0
uptime_of (some enter) mono =
    if ltb 0 enter && ltb enter mono then pos ((mono - enter) / 1000000) else pos 0

-- The time that a unit had used when it was seen, in nanoseconds both.
pub record CpuPrev : Type 0 where
  pub nsec : ℕ
  pub seen_at : ℕ

unfoldable pub cpu_since : Option CpuPrev → ℕ → ℕ → Option Ratio
cpu_since none nsec now = none
cpu_since (some prev) nsec now =
    if leb prev.nsec nsec && ltb prev.seen_at now
    then some (record { num = (nsec - prev.nsec) * 100; den = now - prev.seen_at })
    else none

-- The CPU share since the last look, and what is remembered for the next.
unfoldable pub cpu_of :
    Bytes → Option ℕ → ℕ → List (Bytes × CpuPrev) → Option Ratio × List (Bytes × CpuPrev)
cpu_of id none now prev = (none, prev)
cpu_of id (some nsec) now prev =
    (cpu_since (lookup id prev) nsec now, insert id (record { nsec = nsec; seen_at = now }) prev)

-- `unit` without what only a running unit has.
unfoldable pub idle_unit : Bytes → Props → ProviderUnit
idle_unit id props = record {
  id = id;
  provider = [];
  name = without_suffix (codes ".service") id;
  kind = codes "service";
  state = state_of props;
  health = health_none;
  uptime_sec = pos 0;
  cpu = none;
  mem_bytes = none;
  mem_limit = none;
  actions = some (actions_for (state_of props));
  meta = meta_of props;
  about = [];
}

-- `unit` on a running unit.
unfoldable pub running_unit :
    Bytes → Props → ℕ → ℕ → List (Bytes × CpuPrev) → ProviderUnit × List (Bytes × CpuPrev)
running_unit id props mono now prev =
    let (cpu', prev') = cpu_of id (num (prop props (codes "CPUUsageNSec"))) now prev in
    (
      record (idle_unit id props) {
        uptime_sec = uptime_of (num (prop props (codes "ActiveEnterTimestampMonotonic"))) mono;
        mem_bytes = num (prop props (codes "MemoryCurrent"));
        cpu = cpu';
      },
      prev',
    )

unfoldable pub unit_of :
    Bytes → Props → ℕ → ℕ → List (Bytes × CpuPrev) → ProviderUnit × List (Bytes × CpuPrev)
unit_of id props mono now prev =
    if bytes_eq (state_of props) state_running
    then running_unit id props mono now prev
    else (idle_unit id props, prev)

abbrev single : ProviderUnit × List (Bytes × CpuPrev) → List ProviderUnit × List (Bytes × CpuPrev)
single (u, prev) = (u ∷ [], prev)

-- One round of the loop of `List`.
unfoldable pub allowed_unit :
    List Bytes → Props → ℕ → ℕ → List (Bytes × CpuPrev) → List ProviderUnit × List (Bytes × CpuPrev)
allowed_unit units props mono now prev =
    if member (prop props (codes "Id")) units
    then single (unit_of (prop props (codes "Id")) props mono now prev)
    else ([], prev)

unfoldable pub list_blocks :
    List Bytes
    → List Props
    → ℕ
    → ℕ
    → List (Bytes × CpuPrev)
    → List ProviderUnit × List (Bytes × CpuPrev)
list_blocks units [] mono now prev = ([], prev)
list_blocks units (b ∷ bs) mono now prev =
    let (here, prev') = allowed_unit units b mono now prev in
    let (more, prev'') = list_blocks units bs mono now prev' in (here ++ more, prev'')

-- What a command prints, or the text of its error.
pub data Ran : Type 0 where
  printed failed_with : Bytes → Ran

-- `List`, given what systemctl did. Without units it is not run.
unfoldable pub list_units :
    List Bytes → Ran → ℕ → ℕ → List (Bytes × CpuPrev) → Listing × List (Bytes × CpuPrev)
list_units [] r mono now prev = (listed [], prev)
list_units (u ∷ us) (failed_with e) mono now prev = (list_failed e, prev)
list_units (u ∷ us) (printed out) mono now prev =
    let (found, prev') = list_blocks (u ∷ us) (parse_show out) mono now prev in
    (listed found, prev')

-- What becomes of a request: refused, or a command with its arguments.
pub data Request : Type 0 where
  refused : CallError → Request
  command : Bytes → List Bytes → Request

unfoldable pub do_unit : List Bytes → Bytes → Bytes → Request
do_unit units id action =
    if not (member id units)
    then refused unknown_unit
    else if not (valid_action action)
    then refused bad_action
    else command (codes "systemctl") (codes "--no-ask-password" ∷ action ∷ codes "--" ∷ id ∷ [])
