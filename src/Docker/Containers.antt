-- ===== src/Docker/Containers.antt =====
-- agent/internal/providers/docker/docker.go: containers as units, and actions. The answers of
-- Docker's API are arguments, JSON decoded. The source asks for the containers side by side, which
-- shows only in the order of the units, and the registry sorts them. A CPU share is the exact
-- fraction that the source rounds.
pub mod Kept
pub mod Listed
pub mod Actions
mod Tests
use pc_monitor.Base.{
  ℕ, zero, suc, ◌+◌, ◌-◌, ◌*◌, Bool, true, false, not, ◌&&◌, ◌||◌, List, [], ◌∷◌, ◌++◌, Option,
  none, some, Bytes, codes, bytes_eq, member, any, cut, cut_prefix, lookup, insert, take, length,
  ltb, leb, decimal, ◌==◌, if◌then◌else◌,
}
use pc_monitor.Base.Int.{ℤ, pos, negsuc, ◌-ℤ◌, ltb_ℤ}
use pc_monitor.Base.Scanner.{quot, itoa}
use pc_monitor.Config.{DockerConfig}
use pc_monitor.Provider.{
  Ratio, ProviderUnit, health_none, actions_for, state_running, state_restarting, state_paused,
  state_stopping, state_failed, state_stopped, state_unknown,
}

pub record Container : Type 0 where
  pub id : Bytes
  pub names : List Bytes
  pub image : Bytes
  pub state : Bytes
  pub labels : List (Bytes × Bytes)

-- What `unit` and `Logs` read of `apiInspect`; the zero time is `none`.
pub record Inspect : Type 0 where
  pub restart_count : ℤ
  pub exit_code : ℤ
  pub started_at : Option ℕ
  pub health : Option Bytes
  pub tty : Bool

pub record Stats : Type 0 where
  pub total_usage : ℕ
  pub system_usage : ℕ
  pub online_cpus : ℕ
  pub usage : ℕ
  pub limit : ℕ
  pub stats : List (Bytes × ℕ)

pub record CpuSample : Type 0 where
  pub container : ℕ
  pub system : ℕ

-- The settings of `Provider`.
pub record Filter : Type 0 where
  pub exclude_labels : List (Bytes × Bytes)
  pub exclude : List Bytes

-- `strings.Cut(kv, "=")`, where the value of a label without `=` is empty
abbrev pub label_of : Bytes → Bytes × Bytes
label_of kv = elim (cut b'=' kv) [ none ↦ (kv, []) | some p ↦ p ]

unfoldable pub label_map : List Bytes → List (Bytes × Bytes) → List (Bytes × Bytes)
label_map [] m = m
label_map (kv ∷ kvs) m = let (k, v) = label_of kv in label_map kvs (insert k v m)

abbrev pub listed_labels : Option (List Bytes) → List Bytes
listed_labels none = []
listed_labels (some ls) = ls

unfoldable pub new_filter : DockerConfig → Filter
new_filter cfg = record {
  exclude_labels = label_map (listed_labels cfg.exclude_labels) [];
  exclude = cfg.exclude;
}

-- `strings.TrimPrefix(s, "/")`
unfoldable pub without_slash : Bytes → Bytes
without_slash s = elim (cut_prefix (codes "/") s) [ none ↦ s | some rest ↦ rest ]

-- `none` is the panic of `c.ID[:12]` on a short id.
unfoldable pub name_of : List Bytes → Bytes → Option Bytes
name_of (n ∷ ns) id = some (without_slash n)
name_of [] id = if ltb (length id) 12 then none else some (take 12 id)

abbrev pub has_label : List (Bytes × Bytes) → Bytes × Bytes → Bool
has_label labels (k, v) = elim (lookup k labels) [ none ↦ false | some got ↦ bytes_eq got v ]

unfoldable pub hidden : Filter → Bytes → Container → Bool
hidden f name c = member name f.exclude || any (has_label c.labels) f.exclude_labels

unfoldable pub map_state : Bytes → Bytes
map_state s =
    if bytes_eq s (codes "running")
    then state_running
    else if bytes_eq s (codes "restarting")
    then state_restarting
    else if bytes_eq s (codes "paused")
    then state_paused
    else if bytes_eq s (codes "removing")
    then state_stopping
    else if bytes_eq s (codes "dead")
    then state_failed
    else if bytes_eq s (codes "created")
    then state_stopped
    else if bytes_eq s (codes "exited")
    then state_stopped
    else state_unknown

abbrev pub cpu_since : Option CpuSample → CpuSample → ℕ → Option Ratio
cpu_since none cur cpus = none
cpu_since (some prev) cur cpus =
    if not (ltb prev.system cur.system) || ltb cur.container prev.container
    then none
    else some (record {
      num = (cur.container - prev.container) * (if cpus == 0 then 1 else cpus) * 100;
      den = cur.system - prev.system;
    })

-- The share, and the samples for the next poll.
unfoldable pub cpu_percent :
    Bytes → Stats → List (Bytes × CpuSample) → Option Ratio × List (Bytes × CpuSample)
cpu_percent id st prev =
    let cur : CpuSample = record { container = st.total_usage; system = st.system_usage } in
    (cpu_since (lookup id prev) cur st.online_cpus, insert id cur prev)

-- A key that is not there counts as 0.
abbrev pub stat_of : Bytes → List (Bytes × ℕ) → ℕ
stat_of k m = elim (lookup k m) [ none ↦ 0 | some n ↦ n ]

unfoldable pub inactive_of : List (Bytes × ℕ) → ℕ
inactive_of m =
    let v2 = stat_of (codes "inactive_file") m in
    if v2 == 0 then stat_of (codes "total_inactive_file") m else v2

unfoldable pub used_memory : Stats → ℕ
used_memory st =
    if ltb (inactive_of st.stats) st.usage then st.usage - inactive_of st.stats else st.usage

-- `unit` as far as the list of containers tells.
unfoldable pub plain_unit : Bytes → Container → ProviderUnit
plain_unit name c = record {
  id = name;
  provider = [];
  name = name;
  kind = codes "container";
  state = map_state c.state;
  health = health_none;
  uptime_sec = pos 0;
  cpu = none;
  mem_bytes = none;
  mem_limit = none;
  actions = some (actions_for (map_state c.state));
  meta = (codes "image", c.image) ∷ [];
  about = [];
}

abbrev pub note : Bool → Bytes → Bytes → List (Bytes × Bytes) → List (Bytes × Bytes)
note true k v m = insert k v m
note false k v m = m

abbrev pub or_health : Option Bytes → Bytes → Bytes
or_health none h = h
or_health (some h) _ = h

-- Nanoseconds to whole seconds, towards zero.
abbrev pub seconds_since : Option ℕ → ℕ → ℤ
seconds_since none now = pos 0
seconds_since (some t) now = quot (pos now -ℤ pos t) 1000000000

-- What `inspect` adds; nothing where it fails.
unfoldable pub inspected : Option Inspect → ℕ → ProviderUnit → ProviderUnit
inspected none now u = u
inspected (some i) now u = record u {
  health = or_health i.health u.health;
  meta =
      note (bytes_eq u.state state_stopped) (codes "exit") (itoa i.exit_code)
        (note (ltb_ℤ (pos 0) i.restart_count) (codes "restarts") (itoa i.restart_count) u.meta);
  uptime_sec =
      if bytes_eq u.state state_running then seconds_since i.started_at now else u.uptime_sec;
}

unfoldable pub measured :
    Bytes
    → Option Stats
    → List (Bytes × CpuSample)
    → ProviderUnit
    → ProviderUnit × List (Bytes × CpuSample)
measured id none prev u = (u, prev)
measured id (some st) prev u =
    let (cpu', prev') = cpu_percent id st prev in
    (
      record u {
        cpu = cpu';
        mem_bytes = some (used_memory st);
        mem_limit = if ltb 0 st.limit then some st.limit else u.mem_limit;
      },
      prev',
    )

-- What the API answers about a container; `none` where the call fails.
pub record Answers : Type 0 where
  pub inspect : Bytes → Option Inspect
  pub stats : Bytes → Option Stats

-- The statistics are asked for only where the container runs.
unfoldable pub unit_of :
    Answers
    → ℕ
    → Bytes
    → Container
    → List (Bytes × CpuSample)
    → ProviderUnit × List (Bytes × CpuSample)
unit_of api now name c prev =
    let u = inspected (api.inspect c.id) now (plain_unit name c) in
    if bytes_eq (map_state c.state) state_running
    then measured c.id (api.stats c.id) prev u
    else (u, prev)

abbrev pub add_unit :
    ProviderUnit × List (Bytes × CpuSample)
    → Option (List ProviderUnit × List (Bytes × CpuSample))
    → Option (List ProviderUnit × List (Bytes × CpuSample))
add_unit (u, prev) none = none
add_unit (u, prev) (some (us, prev')) = some (u ∷ us, prev')

-- The units of all containers that are not hidden. `none` is the panic of `containerName`.
unfoldable pub list_containers :
    Filter
    → Answers
    → ℕ
    → List Container
    → List (Bytes × CpuSample)
    → Option (List ProviderUnit × List (Bytes × CpuSample))
list_containers f api now [] prev = some ([], prev)
list_containers f api now (c ∷ cs) prev = elim (name_of c.names c.id) [
  | none ↦ none
  | some name ↦
      let shown = unit_of api now name c prev in
      let rest = list_containers f api now cs (if hidden f name c then prev else shown.1) in
      if hidden f name c then rest else add_unit shown rest
]
