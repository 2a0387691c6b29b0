-- ===== src/Provider.antt =====
-- agent/internal/provider/provider.go: the unit and log line that every provider speaks in, the
-- states and actions, and the conventional action set of a state.
pub mod Ring
pub mod CleanLine
pub mod Registry
mod Tests
use pc_monitor.Base.{
  ℕ, Bool, true, false, ◌||◌, List, [], ◌∷◌, Option, none, Bytes, codes, bytes_eq, if◌then◌else◌,
}
use pc_monitor.Base.Int.{ℤ, pos}

abbrev pub state_running : Bytes
state_running = codes "running"

abbrev pub state_starting : Bytes
state_starting = codes "starting"

abbrev pub state_stopping : Bytes
state_stopping = codes "stopping"

abbrev pub state_restarting : Bytes
state_restarting = codes "restarting"

abbrev pub state_stopped : Bytes
state_stopped = codes "stopped"

abbrev pub state_failed : Bytes
state_failed = codes "failed"

abbrev pub state_paused : Bytes
state_paused = codes "paused"

abbrev pub state_unknown : Bytes
state_unknown = codes "unknown"

abbrev pub health_none : Bytes
health_none = codes "none"

abbrev pub action_start : Bytes
action_start = codes "start"

abbrev pub action_stop : Bytes
action_stop = codes "stop"

abbrev pub action_restart : Bytes
action_restart = codes "restart"

abbrev pub action_kill : Bytes
action_kill = codes "kill"

-- `ErrBadAction`, `ErrUnknownUnit`, or another error with its text.
pub data CallError : Type 0 where
  bad_action unknown_unit : CallError
  other_error : Bytes → CallError

-- A percentage, as the exact fraction that the source rounds to a `float64`.
pub record Ratio : Type 0 where
  pub num : ℕ
  pub den : ℕ

-- `Unit` of the source. A nil pointer is `none`; `actions` is a slice, which may be nil.
pub record ProviderUnit : Type 0 where
  pub id : Bytes
  pub provider : Bytes
  pub name : Bytes
  pub kind : Bytes
  pub state : Bytes
  pub health : Bytes
  pub uptime_sec : ℤ
  pub cpu : Option Ratio
  pub mem_bytes : Option ℕ
  pub mem_limit : Option ℕ
  pub actions : Option (List Bytes)
  pub meta : List (Bytes × Bytes)
  pub about : Bytes

-- `t` is in milliseconds, 0 when the source has none.
pub record LogLine : Type 0 where
  pub t : ℤ
  pub err : Bool
  pub text : Bytes

abbrev pub blank_line : LogLine
blank_line = record { t = pos 0; err = false; text = [] }

unfoldable pub actions_for : Bytes → List Bytes
actions_for state =
    if bytes_eq state state_running
    then action_restart ∷ action_stop ∷ action_kill ∷ []
    else if bytes_eq state state_starting || bytes_eq state state_restarting
    then action_stop ∷ action_kill ∷ []
    else if bytes_eq state state_stopping
    then action_kill ∷ []
    else if bytes_eq state state_stopped || bytes_eq state state_failed
    then action_start ∷ []
    else action_restart ∷ []

unfoldable pub valid_action : Bytes → Bool
valid_action a =
    bytes_eq a action_start
    || bytes_eq a action_stop
    || bytes_eq a action_restart
    || bytes_eq a action_kill
