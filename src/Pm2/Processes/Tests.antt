-- ===== src/Pm2/Processes/Tests.antt =====
-- The theorems on pm2's processes, at two that share name and number.
use pc_monitor.Base.{
  refl, Option, Bytes, zero, suc, Bool, true, some, ◌↔◌, false, [], ◌∷◌, map, none, codes, ◌≡◌,
}
use pc_monitor.Base.Int.{pos}
use pc_monitor.Provider.Registry.{listed}
use pc_monitor.Provider.Registry.Ids.{LocallyDistinct}
use pc_monitor.Pm2.Clean.{Unicode}
use pc_monitor.Pm2.Processes.{Proc, bind}
use pc_monitor.Pm2.Processes.Unique.{bind-LocallyDistinct}
use pc_monitor.Pm2.Control.{answer, Helper, JlistProc, stop_process, act}
use pc_monitor.Pm2.Processes.Snapshot.{
  snapshot, Snapshot, File, content, send, do_process, ControlRequest,
}
use pc_monitor.Pm2.Control.Requested.{Asks}
use pc_monitor.Pm2.Control.Remote.{works, do_remote, KeepsOk, IsDone, do_remote_iff}
use pc_monitor.Pm2.Control.Asked.{Means}
use pc_monitor.Pm2.Control.Live.{IsCall, IsLive, act_iff}

abbrev ascii : Unicode
ascii = record { runes = λ s. s; encode = λ s. s; lower = λ s. s }

abbrev bot : Proc
bot = record {
  name = codes "bot";
  id = pos 0;
  status = codes "online";
  started = pos 1;
  cpu = none;
  mem = none;
  restarts = pos 0;
  runtime = [];
  accounts = [];
  discord = [];
  logins = [];
  out_log = [];
  err_log = [];
}

bind-LocallyDistinct_example : LocallyDistinct (record {
  name = codes "pm2";
  listing = listed (map (λ b. b.unit) (bind ascii [] (pos 9) (bot ∷ bot ∷ [])));
})
bind-LocallyDistinct_example = bind-LocallyDistinct ascii [] (pos 9) (bot ∷ bot ∷ [])

abbrev taken : Snapshot
taken = record { t = pos 0; every = pos 5000; error = []; procs = bot ∷ [] }

abbrev helper : Helper
helper = record { unicode = ascii; quote = λ s. s; user = codes "pi"; rpc = λ call. none }

abbrev entry : JlistProc
entry = record {
  name = codes "bot";
  pm_id = pos 0;
  monit = none;
  status = codes "online";
  uptime = pos 1;
  restarts = pos 0;
  interpreter = [];
  out_log = [];
  err_log = [];
}

abbrev request : ControlRequest
request = record { action = codes "stop"; id = pos 0; name = codes "bot"; tail = pos 0 }

act_iff_example :
    IsCall (stop_process (pos 0)) (act helper false (answer (some (entry ∷ []))) request) ↔ (
      (false ≡ false)
      × Means (codes "stop") (pos 0) (stop_process (pos 0))
      × IsLive helper request (answer (some (entry ∷ []))))
act_iff_example = act_iff helper false (answer (some (entry ∷ []))) request (stop_process (pos 0))

-- A reply whose first byte tells whether it is `ok`.
abbrev write : Bool → Bytes → Bytes
write true e = 1 ∷ e
write false e = 0 ∷ e

abbrev read : Bytes → Option (Bool × Bytes)
read [] = none
read (zero ∷ e) = some (false, e)
read (suc n ∷ e) = some (true, e)

read-write : KeepsOk read write
read-write true e = (e, refl)
read-write false e = (e, refl)

abbrev file : File
file = content (some taken)

do_remote_iff_example :
    (do_remote helper read write works false
        (answer (some (entry ∷ [])))
        (do_process ascii [] (pos 9) file (codes "bot") (codes "stop"))
      ≡ none)
    ↔ ((works ≡ works)
        × ((req : ControlRequest) × (do_process ascii [] (pos 9) file (codes "bot") (codes "stop")
              ≡ send req)
            × Asks ascii [] (pos 9) (snapshot ascii (pos 9) file) (codes "bot") (codes "stop") req
            × IsDone helper false (answer (some (entry ∷ []))) req))
do_remote_iff_example =
    do_remote_iff helper read write works false (answer (some (entry ∷ []))) [] (pos 9) file
      (codes "bot") (codes "stop") read-write
