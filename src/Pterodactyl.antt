-- ===== src/Pterodactyl.antt =====
-- agent/internal/providers/pterodactyl/pterodactyl.go: the game servers of a panel, and power
-- signals. The panel's answers and JSON are arguments. The source asks about the servers side by
-- side, each for its own unit.
pub mod Listed
pub mod Console
mod Tests
use pc_monitor.Base.{
  ℕ, ◌*◌, ◌%◌, ◌^◌, Bool, true, false, not, ◌&&◌, ◌||◌, List, [], ◌∷◌, ◌++◌, map, Option, none,
  some, Bytes, codes, bytes_eq, insert, take, ltb, leb, ◌==◌, if◌then◌else◌,
}
use pc_monitor.Base.Int.{ℤ, pos, negsuc}
use pc_monitor.Base.Scanner.{quot}
use pc_monitor.Provider.{
  Ratio, ProviderUnit, CallError, bad_action, other_error, valid_action, health_none, actions_for,
  state_running, state_starting, state_stopping, state_stopped, state_unknown,
}
use pc_monitor.Provider.Registry.{is_blank}

-- One server of `serverList`; `memory` is in MiB, 0 for no limit.
pub record PanelServer : Type 0 where
  pub identifier : Bytes
  pub name : Bytes
  pub node : Bytes
  pub is_suspended : Bool
  pub is_installing : Bool
  pub memory : ℤ

-- `uptime` is in milliseconds.
pub record Resources : Type 0 where
  pub current_state : Bytes
  pub memory_bytes : ℕ
  pub cpu_absolute : Ratio
  pub uptime : ℤ

pub record Response : Type 0 where
  pub status : ℕ
  pub status_text : Bytes
  pub body : Bytes

-- What the HTTP client brings: an error or a response.
pub data Reply : Type 0 where
  not_reached : Bytes → Reply
  response : Response → Reply

-- A value, or the text of an error.
pub data Result (A : Type 0) : Type 0 where
  failed : Bytes → Result A
  result : A → Result A

-- `url.PathEscape`, and JSON of the panel's answers and of its errors' details.
pub record Panel : Type 0 where
  pub escape : Bytes → Bytes
  pub details : Bytes → Option (List Bytes)
  pub decode_servers : Bytes → Result (List PanelServer)
  pub decode_resources : Bytes → Result Resources

abbrev detail_of : Option (List Bytes) → Bytes
detail_of none = []
detail_of (some []) = []
detail_of (some (d ∷ ds)) = d

-- Of the body 4096 bytes are read.
unfoldable pub panel_error : Panel → Response → Bytes
panel_error p r =
    let detail = detail_of (p.details (take 4096 r.body)) in
    if not (is_blank detail)
    then detail
    else if r.status == 401 || r.status == 403
    then codes "panel rejected the API key (" ++ (r.status_text ++ codes ")")
    else codes "panel returned " ++ r.status_text

-- `api`, from the reply on.
unfoldable pub api : {A : Type 0} → Panel → (Bytes → Result A) → Reply → Result A
api p decode (not_reached e) = failed (codes "panel not reachable: " ++ e)
api p decode (response r) = if leb 300 r.status then failed (panel_error p r) else decode r.body

unfoldable pub map_state : Bytes → Bytes
map_state s =
    if bytes_eq s (codes "running")
    then state_running
    else if bytes_eq s (codes "starting")
    then state_starting
    else if bytes_eq s (codes "stopping")
    then state_stopping
    else if bytes_eq s (codes "offline")
    then state_stopped
    else state_unknown

-- `uint64(n) << 20`
abbrev pub limit_of : ℤ → Option ℕ
limit_of (negsuc n) = none
limit_of (pos n) = if n == 0 then none else some (n * 2 ^ 20 % 2 ^ 64)

-- The state and the note of a server that is not asked about.
abbrev pub held : Bool → Bool → Option (Bytes × Bytes)
held true installing = some (state_stopped, codes "suspended")
held false true = some (state_starting, codes "installing")
held false false = none

unfoldable pub plain_unit : PanelServer → ProviderUnit
plain_unit s = record {
  id = s.identifier;
  provider = [];
  name = s.name;
  kind = codes "game server";
  state = state_unknown;
  health = health_none;
  uptime_sec = pos 0;
  cpu = none;
  mem_bytes = none;
  mem_limit = limit_of s.memory;
  actions = some [];
  meta = (codes "node", s.node) ∷ [];
  about = [];
}

-- What the goroutine of a server writes into its unit.
unfoldable pub with_resources : Result Resources → ProviderUnit → ProviderUnit
with_resources (failed e) u = record u { meta = insert (codes "error") e u.meta }
with_resources (result r) u =
    let state' = map_state r.current_state in
    let running = bytes_eq state' state_running in
    record u {
      state = state';
      cpu = if running then some r.cpu_absolute else none;
      mem_bytes = if running then some r.memory_bytes else none;
      uptime_sec = if running then quot r.uptime 1000 else pos 0;
      actions = some (actions_for state');
    }

abbrev pub server_unit : Option (Bytes × Bytes) → Result Resources → PanelServer → ProviderUnit
server_unit (some (state', note)) res s =
    let u = plain_unit s in record u { state = state'; meta = insert (codes "note") note u.meta }
server_unit none res s = with_resources res (plain_unit s)

unfoldable pub resources_path : Panel → Bytes → Bytes
resources_path p id = codes "/api/client/servers/" ++ (p.escape id ++ codes "/resources")

-- `get` is what a GET of a path brings.
unfoldable pub unit_of : Panel → (Bytes → Reply) → PanelServer → ProviderUnit
unit_of p get s =
    server_unit (held s.is_suspended s.is_installing)
      (api p p.decode_resources (get (resources_path p s.identifier))) s

unfoldable pub list_path : Bool → Bytes
list_path all = codes "/api/client?per_page=100" ++ (if all then codes "&type=admin-all" else [])

abbrev pub units_from :
    Panel → (Bytes → Reply) → Result (List PanelServer) → Result (List ProviderUnit)
units_from p get (failed e) = failed e
units_from p get (result ss) = result (map {A = PanelServer} (unit_of p get) ss)

-- `List`
unfoldable pub list_servers : Panel → Bool → (Bytes → Reply) → Result (List ProviderUnit)
list_servers p all get = units_from p get (api p p.decode_servers (get (list_path all)))

abbrev error_of : Result Bytes → Option CallError
error_of (failed e) = some (other_error e)
error_of (result b) = none

-- `Do`, given what a POST of a path with a signal brings; no body is read.
unfoldable pub do_server : Panel → (Bytes → Bytes → Reply) → Bytes → Bytes → Option CallError
do_server p post id action =
    if not (valid_action action)
    then some bad_action
    else error_of (
        api p result
          (post (codes "/api/client/servers/" ++ (p.escape id ++ codes "/power")) action))
