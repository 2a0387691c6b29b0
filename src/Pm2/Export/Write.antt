-- ===== src/Pm2/Export/Write.antt =====
-- WriteSnapshot of agent/internal/providers/pm2/export.go, and the rounds of Run. Files are their
-- contents by path; what each call of the system does is an argument. Modes are not modelled.
pub mod Atomic
use pc_monitor.Base.{
  ℕ, Bool, true, false, not, List, [], ◌∷◌, ◌++◌, Option, none, some, Bytes, codes, bytes_eq,
  bytes_eq_sym, bytes_eq_refl, lookup, insert, delete, lookup-insert, lookup-delete, take,
  if◌then◌else◌, All, ◌≡◌, ◌⊎◌, inl, inr, refl, sym, ap, ◌∙◌, arith,
}
use pc_monitor.Pm2.Clean.{Unicode}
use pc_monitor.Pm2.Names.{Patterns}
use pc_monitor.Pm2.Processes.Snapshot.{Snapshot}
use pc_monitor.Pm2.Export.{ExportOptions, Exporter, World, Entry, warn, TakeResult, take_snapshot}

abbrev pub Files : Type 0
Files = List (Bytes × Bytes)

-- What the calls of one write come to: an error, or none. A write that fails leaves a part.
pub record Calls : Type 0 where
  pub create : Option Bytes
  pub write : Option Bytes
  pub part : ℕ
  pub close : Option Bytes
  pub chmod : Option Bytes
  pub rename : Option Bytes
  pub remove : Option Bytes

-- The error of a write, and the files after each of its calls.
pub record Written : Type 0 where
  pub error : Option Bytes
  pub states : List Files

-- `os.Remove(tmp.Name())`, whose error is not looked at
abbrev pub removed : Bytes → Files → Option Bytes → Files
removed tmp fs none = delete tmp fs
removed tmp fs (some e) = fs

abbrev pub give_up : Bytes → Files → Calls → Bytes → Written
give_up tmp fs c e = record { error = some e; states = removed tmp fs c.remove ∷ [] }

abbrev pub later : Files → Written → Written
later fs w = record w { states = fs ∷ w.states }

abbrev pub rename_step : Bytes → Bytes → Bytes → Files → Calls → Option Bytes → Written
rename_step path tmp raw fs c (some e) = give_up tmp fs c e
rename_step path tmp raw fs c none =
    let moved = insert path raw (delete tmp fs) in
    record { error = none; states = moved ∷ removed tmp moved c.remove ∷ [] }

abbrev pub chmod_step : Bytes → Bytes → Bytes → Files → Calls → Option Bytes → Written
chmod_step path tmp raw fs c (some e) = give_up tmp fs c e
chmod_step path tmp raw fs c none = rename_step path tmp raw fs c c.rename

abbrev pub close_step : Bytes → Bytes → Bytes → Files → Calls → Option Bytes → Written
close_step path tmp raw fs c (some e) = give_up tmp fs c e
close_step path tmp raw fs c none = chmod_step path tmp raw fs c c.chmod

abbrev pub write_step : Bytes → Bytes → Bytes → Files → Calls → Option Bytes → Written
write_step path tmp raw fs c (some e) =
    let partial = insert tmp (take c.part raw) fs in later partial (give_up tmp partial c e)
write_step path tmp raw fs c none =
    let whole = insert tmp raw fs in later whole (close_step path tmp raw whole c c.close)

abbrev pub create_step : Bytes → Bytes → Bytes → Files → Calls → Option Bytes → Written
create_step path tmp raw fs c (some e) = record { error = some e; states = [] }
create_step path tmp raw fs c none =
    let empty = insert tmp [] fs in later empty (write_step path tmp raw empty c c.write)

-- What `json.Marshal` brings.
pub data Marshalled : Type 0 where
  not_marshalled marshalled : Bytes → Marshalled

-- `WriteSnapshot`, given the text of the snapshot and the name that the system gives the new file.
unfoldable pub write_snapshot : Bytes → Bytes → Marshalled → Files → Calls → Written
write_snapshot path tmp (not_marshalled e) fs c = record { error = some e; states = [] }
write_snapshot path tmp (marshalled raw) fs c = create_step path tmp raw fs c c.create

abbrev pub last_state : Files → List Files → Files
last_state fs [] = fs
last_state fs (s ∷ ss) = last_state s ss

-- A round of `Run`: what it meets, the name of its new file, and what the calls of the write do.
pub record Round : Type 0 where
  pub world : World
  pub tmp : Bytes
  pub calls : Calls

-- The exporter, the files and the journal.
pub record RunState : Type 0 where
  pub exporter : Exporter
  pub files : Files
  pub journal : List Entry

abbrev pub write_message : Option Bytes → Bytes
write_message none = []
write_message (some e) = codes "can't write the snapshot"

module _ (u : Unicode) (r : Patterns) (marshal : Snapshot → Marshalled) (o : ExportOptions)
    (path : Bytes) where
  unfoldable pub run_round : Round → RunState → RunState
  run_round n s =
      let t = take_snapshot u r o n.world s.exporter in
      let w = write_snapshot path n.tmp (marshal t.snap) s.files n.calls in
      let (es, last) = warn (codes "write") (write_message w.error) w.error t.exporter.last_warn in
      record {
        exporter = record t.exporter { last_warn = last };
        files = last_state s.files w.states;
        journal = s.journal ++ (t.journal ++ es);
      }

  -- `Run` over the rounds that a tick or a kick starts, up to the end of its context.
  unfoldable pub run_rounds : List Round → RunState → RunState
  run_rounds [] s = s
  run_rounds (n ∷ ns) s = run_rounds ns (run_round n s)
