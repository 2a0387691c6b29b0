-- ===== src/Pm2/Control.antt =====
-- agent/internal/providers/pm2/control.go and snapshot.go: pm2's process list, and the helper's
-- answer to a request. JSON, quoting and what pm2 answers are arguments. The lock is taken or not
-- when a request comes; what runs under it is one step.
pub mod Asked
pub mod Live
pub mod Requested
pub mod Remote
use pc_monitor.Base.{
  ℕ, Bool, true, false, not, ◌&&◌, ◌||◌, List, [], ◌∷◌, ◌++◌, map, reverse, Option, none, some,
  Bytes, codes, bytes_eq, cut_last, any, ltb, length, ◌==◌, if◌then◌else◌,
}
use pc_monitor.Base.Int.{ℤ, ◌==ℤ◌}
use pc_monitor.Provider.{Ratio}
use pc_monitor.Provider.Registry.{is_blank}
use pc_monitor.Pm2.Clean.{Unicode, clean}
use pc_monitor.Pm2.Processes.{Proc}
use pc_monitor.Pm2.Processes.Snapshot.{ControlRequest}

-- One entry of pm2's list; without `monit` there are no figures.
pub record JlistProc : Type 0 where
  pub name : Bytes
  pub pm_id : ℤ
  pub monit : Option (Option ℕ × Option Ratio)
  pub status : Bytes
  pub uptime : ℤ
  pub restarts : ℤ
  pub interpreter : Bytes
  pub out_log : Bytes
  pub err_log : Bytes

unfoldable pub drop_slashes : Bytes → Bytes
drop_slashes [] = []
drop_slashes (c ∷ s) = if c == b'/' then drop_slashes s else c ∷ s

abbrev after_slash : Option (Bytes × Bytes) → Bytes → Bytes
after_slash none s = s
after_slash (some p) s = p.1

abbrev or_slash : Bytes → Bytes
or_slash [] = codes "/"
or_slash (c ∷ s) = after_slash (cut_last b'/' (c ∷ s)) (c ∷ s)

-- `path.Base`
unfoldable pub base_name : Bytes → Bytes
base_name [] = codes "."
base_name (c ∷ s) = or_slash (reverse (drop_slashes (reverse (c ∷ s))))

unfoldable pub runtime_name : Unicode → Bytes → Bytes
runtime_name u interp =
    if is_blank interp || bytes_eq interp (codes "none")
    then []
    else clean u 32 (base_name (map (λ c. if c == b'\\' then b'/' else c) interp))

abbrev cpu_of : Option (Option ℕ × Option Ratio) → Option Ratio
cpu_of none = none
cpu_of (some m) = m.1

abbrev mem_of : Option (Option ℕ × Option Ratio) → Option ℕ
mem_of none = none
mem_of (some m) = m.0

unfoldable pub proc_of : Unicode → JlistProc → Proc
proc_of u r = record {
  name = clean u 64 r.name;
  id = r.pm_id;
  status = r.status;
  started = r.uptime;
  cpu = cpu_of r.monit;
  mem = mem_of r.monit;
  restarts = r.restarts;
  runtime = runtime_name u r.interpreter;
  accounts = [];
  discord = [];
  logins = [];
  out_log = r.out_log;
  err_log = r.err_log;
}

-- `ParseProcs`, given what JSON reads; `none` is its error.
unfoldable pub parse_procs : Unicode → Option (List JlistProc) → Option (List Proc)
parse_procs u none = none
parse_procs u (some rs) = some (map (proc_of u) rs)

-- Why a call of pm2 failed: nothing listens, no permission, no answer in time, pm2's own refusal,
-- or something else.
pub data RpcError : Type 0 where
  not_running no_permission timed_out : RpcError
  pm2_refused other_failure : Bytes → RpcError

-- `explain`; `user` is `currentUser()`.
unfoldable pub explain : Unicode → Bytes → RpcError → Bytes
explain u user not_running =
    codes "pm2 isn't running for this user. Start it with: systemctl start pm2-" ++ user
explain u user no_permission = codes "dashd-pm2 can't reach pm2. Run it as the user pm2 runs under."
explain u user timed_out = codes "pm2 didn't answer within 10 seconds."
explain u user (pm2_refused s) = codes "couldn't read pm2: " ++ clean u 200 s
explain u user (other_failure s) = codes "couldn't read pm2: " ++ clean u 200 s

-- What the list call gives: an error, or JSON that is read or not.
pub data Answer : Type 0 where
  list_error : RpcError → Answer
  answer : Option (List JlistProc) → Answer

pub data RpcCall : Type 0 where
  start_process stop_process restart_process : ℤ → RpcCall

-- A request is denied before pm2 is asked to do anything, or one call is made, with its error if it
-- fails.
pub data Acted : Type 0 where
  denied : Bytes → Acted
  called : RpcCall → Option Bytes → Acted

-- The call that an action stands for.
unfoldable pub rpc_call : Bytes → ℤ → Option RpcCall
rpc_call action id =
    if bytes_eq action (codes "start")
    then some (start_process id)
    else if bytes_eq action (codes "stop")
    then some (stop_process id)
    else if bytes_eq action (codes "restart")
    then some (restart_process id)
    else none

abbrev pub is_same : ControlRequest → Proc → Bool
is_same req p = p.id ==ℤ req.id && bytes_eq p.name req.name

abbrev pub call_error : Unicode → Bytes → Bytes → Option RpcError → Option Bytes
call_error u user action none = none
call_error u user action (some (pm2_refused s)) = some (codes "pm2 said: " ++ s)
call_error u user action (some timed_out) =
    some
      (codes "pm2 didn't finish the " ++ (action ++ codes " within 1m0s. Check the bot's status"))
call_error u user action (some not_running) = some (explain u user not_running)
call_error u user action (some no_permission) = some (explain u user no_permission)
call_error u user action (some (other_failure s)) = some (explain u user (other_failure s))

-- What the helper has at hand: `clean`, `%q`, the user's name, and what a call of pm2 brings.
pub record Helper : Type 0 where
  pub unicode : Unicode
  pub quote : Bytes → Bytes
  pub user : Bytes
  pub rpc : RpcCall → Option RpcError

abbrev pub act_on : Helper → ControlRequest → RpcCall → Option (List Proc) → Acted
act_on h req call none = denied (codes "pm2 sent no readable process list")
act_on h req call (some ps) =
    if any (is_same req) ps
    then called call (call_error h.unicode h.user req.action (h.rpc call))
    else denied (clean h.unicode 64 req.name ++ codes " isn't in pm2 anymore. Reload the page")

abbrev pub act_listed : Helper → ControlRequest → RpcCall → Answer → Acted
act_listed h req call (list_error e) = denied (explain h.unicode h.user e)
act_listed h req call (answer raw) = act_on h req call (parse_procs h.unicode raw)

abbrev pub act_known : Helper → Bool → Answer → ControlRequest → Option RpcCall → Acted
act_known h busy a req none =
    denied (h.quote (clean h.unicode 20 req.action) ++ codes " isn't something the helper can do")
act_known h true a req (some call) =
    denied (codes "another bot action is still running. Try again in a few seconds")
act_known h false a req (some call) = act_listed h req call a

-- `act`; `busy` says that another action holds the lock.
unfoldable pub act : Helper → Bool → Answer → ControlRequest → Acted
act h busy a req = act_known h busy a req (rpc_call req.action req.id)

-- What a connection is answered with: nothing, a stream of log lines, or one reply, which is an
-- error text unless it is `accepted`.
pub data Reply : Type 0 where
  hung_up : Reply
  streaming : ControlRequest → Reply
  accepted : Reply
  failed : Bytes → Reply

abbrev reply_to : Acted → Reply
reply_to (denied e) = failed e
reply_to (called c none) = accepted
reply_to (called c (some e)) = failed e

abbrev handle_read : Helper → Bool → Answer → Option ControlRequest → Reply
handle_read h busy a none = failed (codes "unreadable request")
handle_read h busy a (some req) =
    if bytes_eq req.action (codes "logs") then streaming req else reply_to (act h busy a req)

-- `handleControl`: the line that was read before the end or an error, and what JSON makes of it.
unfoldable pub handle_control :
    Helper → Bool → Answer → (Bytes → Option ControlRequest) → Bytes → Bool → Reply
handle_control h busy a decode line read_error =
    if read_error && is_blank line then hung_up else handle_read h busy a (decode line)
