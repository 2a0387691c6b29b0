-- ===== src/Pm2/Streaming.antt =====
-- agent/internal/providers/pm2/logs.go, streamLogs and streamFromHelper: the log of a process, from
-- the helper to the page. A message of the socket is its value; JSON reads back what it wrote. What
-- the file system answers and the clock are arguments of each look.
pub mod Page
pub mod Shown
pub mod Whole
mod Tests
use pc_monitor.Base.{
  ℕ, ◌-◌, Bool, true, false, not, ◌&&◌, ◌||◌, List, [], ◌∷◌, ◌++◌, map, Option, none, some, Bytes,
  codes, bytes_eq, take, length, ltb, ◌==◌, if◌then◌else◌,
}
use pc_monitor.Base.Int.{ℤ, pos, ◌==ℤ◌}
use pc_monitor.Provider.{LogLine}
use pc_monitor.Provider.Registry.{is_blank}
use pc_monitor.Pm2.Clean.{Unicode, clean}
use pc_monitor.Pm2.Names.{contains_text}
use pc_monitor.Pm2.Processes.{Proc}
use pc_monitor.Pm2.Processes.Snapshot.{ControlRequest, min_ℤ, max_ℤ}
use pc_monitor.Pm2.Logs.{TextTools, FileInfo, Handle, LogFile, max_log_line, open_log, poll}
use pc_monitor.Pm2.Control.{
  Answer, list_error, answer, explain, parse_procs, is_same, Helper, base_name,
}
use pc_monitor.Pm2.Control.Remote.{DialError, dial_text}

abbrev pub max_log_tail : ℕ
max_log_tail = 2000

abbrev pub max_log_streams : ℕ
max_log_streams = 8

-- `logLine` of the source.
pub record Message : Type 0 where
  pub t : ℤ
  pub err : Bool
  pub text : Bytes
  pub error : Bytes

abbrev pub text_message : ℤ → Bool → Bytes → Message
text_message t err text = record { t = t; err = err; text = text; error = [] }

abbrev pub fail : Bytes → Message
fail e = record { t = pos 0; err = false; text = []; error = e }

-- What `Stat` and opening give for one path.
pub record Seen : Type 0 where
  pub stat : Option FileInfo
  pub not_exist : Bool
  pub handle : Option Handle

-- A tick of the loop: the clock, and what each path is then.
pub record Tick : Type 0 where
  pub now : ℤ
  pub look : Bytes → Seen

-- Where `Stat` of both paths answers, `os.SameFile` compares the file numbers.
abbrev pub same_file : Option FileInfo → Option FileInfo → Bool
same_file none b = false
same_file (some a) none = false
same_file (some a) (some b) = a.file_number == b.file_number

unfoldable pub same_log : (Bytes → Seen) → Bytes → Bytes → Bool
same_log look a b = bytes_eq a b || same_file (look a).stat (look b).stat

-- The loop goes on behind a hit, so the last process that fits counts.
unfoldable pub proc_for : ControlRequest → List Proc → Option Proc → Option Proc
proc_for req [] found = found
proc_for req (p ∷ ps) found = proc_for req ps (if is_same req p then some p else found)

abbrev pub new_file : Bytes → Bool → LogFile
new_file path err = record {
  path = path;
  err = err;
  ok = false;
  off = 0;
  partial = [];
  info = none;
  missing = false;
  skip = false;
}

unfoldable pub log_files : (Bytes → Seen) → Proc → List LogFile
log_files look p =
    if same_log look p.out_log p.err_log
    then new_file p.out_log false ∷ []
    else new_file p.out_log false ∷ new_file p.err_log true ∷ []

-- `min(max(req.Tail, 1), maxLogTail)`
unfoldable pub tail_of : ℤ → ℤ
tail_of n = min_ℤ (max_ℤ n (pos 1)) (pos max_log_tail)

-- Two of `─`, in UTF-8.
abbrev pub rule_sign : Bytes
rule_sign = 226 ∷ 148 ∷ 128 ∷ 226 ∷ 148 ∷ 128 ∷ []

abbrev pub header_of : Bytes → Bytes
header_of path =
    rule_sign ++ (codes " error log (" ++ (base_name path ++ (codes ") " ++ rule_sign)))

-- The error log stands under a header where it has lines.
abbrev pub old_lines : LogFile → List Bytes → List Message
old_lines f [] = []
old_lines f (l ∷ ls) =
    let ms = map (text_message (pos 0) f.err) (l ∷ ls) in
    if f.err then text_message (pos 0) false (header_of f.path) ∷ ms else ms

abbrev pub first_lines : LogFile → Option (List Bytes) → List Message
first_lines f none = []
first_lines f (some ls) = old_lines f ls

unfoldable pub open_files :
    TextTools → (Bytes → Seen) → ℕ → List LogFile → List Message × List LogFile
open_files t look n [] = ([], [])
open_files t look n (f ∷ fs) =
    let s = look f.path in
    let (ls, f') = open_log t f n s.stat s.not_exist s.handle in
    let (ms, fs') = open_files t look n fs in (first_lines f ls ++ ms, f' ∷ fs')

-- The client waits for a first line.
abbrev pub or_nothing_yet : List Message → List Message
or_nothing_yet [] = text_message (pos 0) false (codes "(no output yet)") ∷ []
or_nothing_yet (m ∷ ms) = m ∷ ms

unfoldable pub poll_files : TextTools → Tick → List LogFile → List Message × List LogFile
poll_files t k [] = ([], [])
poll_files t k (f ∷ fs) =
    let s = k.look f.path in
    let (ls, f') = poll t f s.stat s.handle in
    let (ms, fs') = poll_files t k fs in (map (text_message k.now f.err) ls ++ ms, f' ∷ fs')

unfoldable pub follow : TextTools → List LogFile → List Tick → List Message
follow t fs [] = []
follow t fs (k ∷ ks) = let (ms, fs') = poll_files t k fs in ms ++ follow t fs' ks

abbrev pub stream_files : TextTools → (Bytes → Seen) → ℕ → List LogFile → List Tick → List Message
stream_files t look n fs ks =
    let (ms, fs') = open_files t look n fs in or_nothing_yet ms ++ follow t fs' ks

-- The number of lines is at least 1, so its sign is lost on nothing.
abbrev pub to_ℕ : ℤ → ℕ
to_ℕ (pos n) = n
to_ℕ n = 0

abbrev pub stream_proc :
    Helper → TextTools → (Bytes → Seen) → ControlRequest → Option Proc → List Tick → List Message
stream_proc h t look req none ks =
    fail (clean h.unicode 64 req.name ++ codes " isn't in pm2 anymore") ∷ []
stream_proc h t look req (some p) ks =
    stream_files t look (to_ℕ (tail_of req.tail)) (log_files look p) ks

abbrev pub stream_listed :
    Helper
    → TextTools
    → (Bytes → Seen)
    → ControlRequest
    → Option (List Proc)
    → List Tick
    → List Message
stream_listed h t look req none ks = fail (codes "pm2 sent no readable process list") ∷ []
stream_listed h t look req (some ps) ks = stream_proc h t look req (proc_for req ps none) ks

abbrev pub stream_answer :
    Helper → TextTools → (Bytes → Seen) → ControlRequest → Answer → List Tick → List Message
stream_answer h t look req (list_error e) ks = fail (explain h.unicode h.user e) ∷ []
stream_answer h t look req (answer raw) ks =
    stream_listed h t look req (parse_procs h.unicode raw) ks

-- `streamLogs`: what it sends, over the ticks up to the end of its context. `used` streams are open
-- already, and the connection takes `room` messages before a write fails, which ends the stream.
unfoldable pub stream_logs :
    Helper → TextTools → (Bytes → Seen) → ℕ → ℕ → ControlRequest → Answer → List Tick → List Message
stream_logs h t look used room req a ks = take room (
    if ltb used max_log_streams
    then stream_answer h t look req a ks
    else fail (codes "too many log streams are open") ∷ [])

-- `capText`, where `valid` is `strings.ToValidUTF8(s, "")`.
unfoldable pub cap_text : (Bytes → Bytes) → Bytes → Bytes
cap_text valid s = if ltb max_log_line (length s) then valid (take max_log_line s) else s

-- What the socket brings to dashd: a failed dial or write, no first message because the helper
-- closed or for another reason, or messages and when each of them came, up to the end.
pub data Incoming : Type 0 where
  dial_failed : DialError → Incoming
  write_failed : Bytes → Incoming
  closed_early : Incoming
  no_first : Bytes → Incoming
  messages : Message → List (ℤ × Message) → ℤ → Incoming

-- The error, or the lines of the page.
pub data Streamed : Type 0 where
  no_stream : Bytes → Streamed
  shown : List LogLine → Streamed

abbrev pub shown_line : (Bytes → Bytes) → Message → LogLine
shown_line valid m = record { t = m.t; err = m.err; text = cap_text valid m.text }

-- A later error shows as a line.
abbrev pub later_line : (Bytes → Bytes) → ℤ × Message → LogLine
later_line valid (now, m) =
    if is_blank m.error
    then shown_line valid m
    else record { t = now; err = true; text = cap_text valid m.error }

abbrev pub end_line : ℤ → LogLine
end_line now = record {
  t = now;
  err = true;
  text = codes "The log stream ended (the dashd-pm2 helper restarted or stopped).";
}

-- A helper from before log streaming refuses the action.
abbrev refusal : Unicode → Bytes → Bytes
refusal u e =
    if contains_text (codes "\"logs\" isn't") e
    then codes
        "the dashd-pm2 helper can't stream logs yet. On the server, run deploy/update.sh in the dashd checkout"
    else clean u 300 e

-- `streamFromHelper`, while the page follows.
unfoldable pub stream_from_helper : Unicode → (Bytes → Bytes) → Incoming → Streamed
stream_from_helper u valid (dial_failed e) = no_stream (dial_text e)
stream_from_helper u valid (write_failed e) = no_stream e
stream_from_helper u valid closed_early =
    no_stream (codes "the dashd-pm2 helper closed the log stream before it started")
stream_from_helper u valid (no_first e) = no_stream (codes "no logs from the helper: " ++ e)
stream_from_helper u valid (messages first later ended) =
    if is_blank first.error
    then shown (shown_line valid first ∷ (map (later_line valid) later ++ (end_line ended ∷ [])))
    else no_stream (refusal u first.error)
