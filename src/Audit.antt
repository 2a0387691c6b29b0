-- ===== src/Audit.antt =====
-- agent/internal/audit/audit.go: the record of control actions, in a file and in memory. JSON is a
-- parameter. A write succeeds as a whole or not at all.
pub mod Reopen
pub mod Newest
mod Tests
use pc_monitor.Base.{
  ℕ, zero, suc, ◌+◌, ◌-◌, Bool, true, false, List, [], ◌∷◌, ◌++◌, reverse, Option, none, some,
  Bytes, length, get_or, drop, ltb, leb, ◌==◌, if◌then◌else◌, min,
}
use pc_monitor.Base.Int.{ℤ, pos, negsuc}
use pc_monitor.Base.Scanner.{max_token, tokens}
use pc_monitor.Base.Lines.{newline, all_lines}

pub record Entry : Type 0 where
  pub time : ℕ
  pub user : Bytes
  pub ip : Bytes
  pub unit : Bytes
  pub action : Bytes
  pub ok : Bool
  pub error : Bytes

abbrev pub blank_entry : Entry
blank_entry = record {
  time = 0;
  user = [];
  ip = [];
  unit = [];
  action = [];
  ok = false;
  error = [];
}

-- `json.Marshal` and `json.Unmarshal` of an entry
pub record Json : Type 0 where
  pub marshal : Entry → Option Bytes
  pub unmarshal : Bytes → Option Entry

abbrev pub keep : ℕ
keep = 200

-- `file` is what the file holds.
pub record Log : Type 0 where
  pub file : Bytes
  pub recent : List Entry

unfoldable pub push : Log → Entry → Log
push l e =
    let more = l.recent ++ (e ∷ []) in
    record l { recent = if ltb keep (length more) then drop (length more - keep) more else more }

-- Lines that are no entry are passed over.
unfoldable pub load : Json → List Bytes → Log → Log
load j [] l = l
load j (t ∷ ts) l = elim (j.unmarshal t) [ none ↦ load j ts l | some e ↦ load j ts (push l e) ]

-- `none` where the file can't be opened for writing. A file that can't be read counts as empty.
unfoldable pub open_log : Json → Bytes → Bool → Bool → Option Log
open_log j disk readable writable =
    let l : Log = record { file = disk; recent = [] } in
    if writable
    then some (if readable then load j (tokens max_token (all_lines disk)) l else l)
    else none

-- Whether the entry was written, and the log behind the call.
unfoldable pub append : Json → Log → Entry → Bool → Bool × Log
append j l e written = elim (j.marshal e) [
  | none ↦ (false, l)
  | some raw ↦ (
    written,
    record (push l e) { file = if written then l.file ++ (raw ++ newline ∷ []) else l.file },
  )
]

-- The loop of `Recent`, from the `i`-th newest on.
unfoldable pub newest : List Entry → ℕ → ℕ → List Entry
newest es i zero = []
newest es i (suc k) = get_or es (length es - 1 - i) blank_entry ∷ newest es (suc i) k

-- `none` is the panic of `make` on a negative size.
unfoldable pub recent_entries : Log → ℤ → Option (List Entry)
recent_entries l (pos n) = some (newest l.recent 0 (min n (length l.recent)))
recent_entries l (negsuc n) = none
