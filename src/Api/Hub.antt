-- ===== src/Api/Hub.antt =====
-- agent/internal/api/hub.go: what the server knows last of host and units, and its clients. A call
-- under the lock is one step. JSON, the host's figures and the clock are arguments.
pub mod History
use pc_monitor.Base.{
  ℕ, zero, suc, ◌+◌, ◌-◌, Bool, true, false, List, [], ◌∷◌, ◌++◌, map, Option, none, some, Bytes,
  length, drop, keep_if, not, ltb, ◌==◌, if◌then◌else◌,
}
use pc_monitor.Base.Int.{ℤ, pos}
use pc_monitor.Provider.{ProviderUnit}
use pc_monitor.Provider.Registry.{Registry, list_all}
use pc_monitor.About.{StringTools, Book, describe_all}
use pc_monitor.Audit.{Entry}

pub record UnitsSnapshot : Type 0 where
  pub units : List ProviderUnit
  pub errors : List (Bytes × Bytes)
  pub t : ℤ

-- A websocket client: its identity, the messages in its channel, and whether it was cancelled.
pub record Client : Type 0 where
  pub id : ℕ
  pub send : List Bytes
  pub cancelled : Bool

-- `S` is the type of the host's figures. `refresh` says that the channel of one place is full, and
-- `timers` counts the kicks that are still to come.
pub record Hub (S : Type 0) : Type 0 where
  pub clients : List Client
  pub history : List S
  pub units : UnitsSnapshot
  pub refresh : Bool
  pub timers : ℕ
  pub about : Option Book

-- JSON of the envelopes, where it can be made.
pub record Envelopes (S : Type 0) : Type 0 where
  pub host : S → Option Bytes
  pub units : UnitsSnapshot → Option Bytes
  pub audit : Entry → Option Bytes

abbrev pub history_len : ℕ
history_len = 150

-- The room of a client's channel.
abbrev pub send_room : ℕ
send_room = 128

-- A client as `ws` adds it, with the message that greets it.
unfoldable pub new_client : ℕ → Bytes → Client
new_client id hello = record { id = id; send = hello ∷ []; cancelled = false }

-- `trySend`
unfoldable pub try_send : Bytes → Client → Client
try_send raw c =
    if ltb (length c.send) send_room
    then record c { send = c.send ++ (raw ∷ []) }
    else record c { cancelled = true }

module _ {S : Type 0} where
  unfoldable pub new_hub : Option Book → Hub S
  new_hub about = record {
    clients = [];
    history = [];
    units = record { units = []; errors = []; t = pos 0 };
    refresh = false;
    timers = 0;
    about = about;
  }

  unfoldable pub broadcast : Option Bytes → Hub S → Hub S
  broadcast none h = h
  broadcast (some raw) h = record h { clients = map (try_send raw) h.clients }

  unfoldable pub keep_history : S → Hub S → Hub S
  keep_history st h =
      let more = h.history ++ (st ∷ []) in
      record h {
        history =
            if ltb history_len (length more) then drop (length more - history_len) more else more;
      }

  -- `none` is an error of `Collect`.
  unfoldable pub poll_host : Envelopes S → Option S → Hub S → Hub S
  poll_host e none h = h
  poll_host e (some st) h = broadcast (e.host st) (keep_history st h)

  -- The registry holds what each provider answers now.
  unfoldable pub poll_units : Envelopes S → StringTools → Registry → ℤ → Hub S → Hub S
  poll_units e t r now h =
      let (units', errors') = list_all t.lower r in
      let snap : UnitsSnapshot = record {
        units = describe_all t h.about units';
        errors = errors';
        t = now;
      } in
      broadcast (e.units snap) (record h { units = snap })

  unfoldable pub add_client : Client → Hub S → Hub S
  add_client c h = record h { clients = c ∷ h.clients }

  unfoldable pub remove_client : ℕ → Hub S → Hub S
  remove_client id h = record h { clients = keep_if (λ c. not (c.id == id)) h.clients }

  unfoldable pub client_count : Hub S → ℕ
  client_count h = length h.clients

  abbrev pub kick : Hub S → Hub S
  kick h = record h { refresh = true }

  -- One kick now and two by timers.
  unfoldable pub refresh_units : Hub S → Hub S
  refresh_units h = record (kick h) { timers = suc (suc h.timers) }

-- What the loop of `Run` waits for, with what the host and the providers answer then; a timer of
-- `RefreshUnits`; and what the endpoints do with the hub.
pub data HubEvent (S : Type 0) : Type 0 where
  host_tick : Option S → HubEvent S
  units_tick refreshed : Registry → ℤ → HubEvent S
  timer_fired action_done : HubEvent S
  audited : Entry → HubEvent S
  client_came : Client → HubEvent S
  client_left : ℕ → HubEvent S

module _ {S : Type 0} where
  abbrev fire : ℕ → Hub S → Hub S
  fire zero h = h
  fire (suc n) h = record (kick h) { timers = n }

  -- A refresh needs a kick, and a timer that fires was started.
  unfoldable pub on_event : Envelopes S → StringTools → HubEvent S → Hub S → Hub S
  on_event e t (host_tick st) h = poll_host e st h
  on_event e t (units_tick r now) h = if ltb 0 (client_count h) then poll_units e t r now h else h
  on_event e t (refreshed r now) h =
      if h.refresh then poll_units e t r now (record h { refresh = false }) else h
  on_event e t timer_fired h = fire h.timers h
  on_event e t action_done h = refresh_units h
  on_event e t (audited x) h = broadcast (e.audit x) h
  on_event e t (client_came c) h = add_client c h
  on_event e t (client_left id) h = remove_client id h

  unfoldable pub run : Envelopes S → StringTools → List (HubEvent S) → Hub S → Hub S
  run e t [] h = h
  run e t (v ∷ vs) h = run e t vs (on_event e t v h)
