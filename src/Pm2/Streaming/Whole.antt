-- ===== src/Pm2/Streaming/Whole.antt =====
-- A log stream as a whole: pm2's list, the two files, the socket, the page.
use pc_monitor.Base.{ℕ, ◌<◌, true, false, List, ◌++◌, none, some, Bytes, bytes_eq, ◌==◌, ◌≡◌}
use pc_monitor.Base.Int.{ℤ}
use pc_monitor.Pm2.Processes.{Proc}
use pc_monitor.Pm2.Processes.Snapshot.{ControlRequest}
use pc_monitor.Pm2.Control.{JlistProc, parse_procs, Helper, answer}
use pc_monitor.Pm2.Logs.{TextTools, usable_log}
use pc_monitor.Pm2.Streaming.{Message, max_log_streams, proc_for, tail_of, to_ℕ, stream_logs}
use pc_monitor.Pm2.Streaming.Page.{Written, look_at, ticks, news, opening}

-- A process of pm2's list with two log files of its own, which can be followed, and a free slot.
pub record IsFollowed (h : Helper) (req : ControlRequest) (raw : List JlistProc) (ps : List Proc)
    (pr : Proc) (used k j : ℕ) : Type 0 where
  pub slot : used < max_log_streams
  pub listed : parse_procs h.unicode (some raw) ≡ some ps
  pub found : proc_for req ps none ≡ some pr
  pub out_usable : usable_log pr.out_log ≡ true
  pub err_usable : usable_log pr.err_log ≡ true
  pub apart : bytes_eq pr.err_log pr.out_log ≡ false
  pub two_files : (k == j) ≡ false

-- The lines that both logs had before, and those that the rounds complete.
abbrev pub page_of :
    TextTools → ControlRequest → Proc → ℕ → ℕ → Bytes → Bytes → List Written → List Message
page_of t req pr k j a b ws =
    opening t pr.out_log pr.err_log k j (to_ℕ (tail_of req.tail)) a b
    ++ news t pr.out_log pr.err_log k j a b ws

module _ (h : Helper) (t : TextTools) (valid : Bytes → Bytes) (used room k j : ℕ)
    (req : ControlRequest) (raw : List JlistProc) (ps : List Proc) (pr : Proc) (a b : Bytes)
    (ws : List Written) (now : ℤ) where
  abbrev sent : List Message
  sent =
      stream_logs h t (look_at pr.out_log k j a b) used room req (answer (some raw))
        (ticks t pr.out_log pr.err_log k j a b ws)
