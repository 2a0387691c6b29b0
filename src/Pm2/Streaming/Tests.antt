-- ===== src/Pm2/Streaming/Tests.antt =====
-- A log stream of one process: one finished line in the output log, an empty error log, two rounds.
use pc_monitor.Base.{codes, List, [], ◌∷◌, none}
use pc_monitor.Base.Int.{pos}
use pc_monitor.Pm2.Clean.{Unicode}
use pc_monitor.Pm2.Control.{Helper, JlistProc}
use pc_monitor.Pm2.Processes.Snapshot.{ControlRequest}
use pc_monitor.Pm2.Logs.{TextTools}
use pc_monitor.Pm2.Streaming.Page.{Written}

abbrev ascii : Unicode
ascii = record { runes = λ s. s; encode = λ s. s; lower = λ s. s }

abbrev tools : TextTools
tools = record { strip_ansi = λ s. s; to_valid_utf8 = λ s. s }

abbrev helper : Helper
helper = record { unicode = ascii; quote = λ s. s; user = codes "pi"; rpc = λ call. none }

abbrev entry : JlistProc
entry = record {
  name = codes "bot";
  pm_id = pos 0;
  monit = none;
  status = codes "online";
  uptime = pos 1;
  restarts = pos 0;
  interpreter = [];
  out_log = codes "/o";
  err_log = codes "/e";
}

abbrev request : ControlRequest
request = record { action = codes "logs"; id = pos 0; name = codes "bot"; tail = pos 5 }

abbrev rounds : List Written
rounds =
    record { now = pos 10; out = codes "b"; err = codes "oh" }
    ∷ (record { now = pos 20; out = codes "c\n"; err = codes "no\n" } ∷ [])
