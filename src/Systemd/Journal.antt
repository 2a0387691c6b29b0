-- ===== src/Systemd/Journal.antt =====
-- The log of a unit: what journalctl prints, line by line. JSON is a parameter; the lines are given
-- in the order in which they are offered to the reader.
use pc_monitor.Base.{
  ℕ, ◌%◌, ◌-◌, Bool, true, false, not, List, [], ◌∷◌, ◌++◌, map, Option, none, some, Bytes, codes,
  member, if◌then◌else◌,
}
use pc_monitor.Base.Int.{ℤ, pos, negsuc, ltb_ℤ}
use pc_monitor.Base.Lines.{all_lines}
use pc_monitor.Base.Scanner.{tokens, parse_int, quot, itoa}
use pc_monitor.Provider.{LogLine, unknown_unit}
use pc_monitor.Provider.Registry.{is_blank}
use pc_monitor.Provider.CleanLine.{clean_line}
use pc_monitor.Systemd.{Request, refused, command}

-- `MESSAGE` stays as it stands in the line.
pub record JournalEntry : Type 0 where
  pub realtime : Bytes
  pub priority : Bytes
  pub message : Bytes

-- `json.Unmarshal` into an entry, a string and a list of integers; `bytes.ToValidUTF8` with `?`; the
-- pattern of `CleanLine`.
pub record JournalTools : Type 0 where
  pub read_entry : Bytes → Option JournalEntry
  pub read_string : Bytes → Option Bytes
  pub read_ints : Bytes → Option (List ℤ)
  pub to_valid_utf8 : Bytes → Bytes
  pub strip_ansi : Bytes → Bytes

-- `byte(i)`
unfoldable pub to_byte : ℤ → ℕ
to_byte (pos n) = n % 256
to_byte (negsuc n) = 255 - n % 256

abbrev or_none : Option (List ℤ) → List ℤ
or_none none = []
or_none (some is) = is

unfoldable pub message_text : JournalTools → Bytes → Bytes
message_text t raw = elim (t.read_string raw) [
  | some s ↦ s
  | none ↦ t.to_valid_utf8 (map to_byte (or_none (t.read_ints raw)))
]

abbrev millis : Option ℤ → ℤ
millis none = pos 0
millis (some us) = quot us 1000

-- Priorities up to 3 are errors.
abbrev is_error : Option ℤ → Bool
is_error none = false
is_error (some prio) = not (ltb_ℤ (pos 3) prio)

unfoldable pub parse_journal : JournalTools → Bytes → Option LogLine
parse_journal t raw = elim (t.read_entry raw) [
  | none ↦ none
  | some e ↦ some (record {
    t = millis (parse_int e.realtime);
    err = is_error (parse_int e.priority);
    text = clean_line t.strip_ansi (message_text t e.message);
  })
]

unfoldable pub journal_lines : JournalTools → List Bytes → List LogLine
journal_lines t [] = []
journal_lines t (l ∷ ls) = elim (parse_journal t l) [
  | none ↦ journal_lines t ls
  | some line ↦ line ∷ journal_lines t ls
]

-- The line that an error of journalctl ends the log with: what it printed, or the error itself.
unfoldable pub failure_line : ℤ → Bytes → Bytes → LogLine
failure_line now stderr error = record {
  t = now;
  err = true;
  text = codes "journalctl: " ++ (if is_blank stderr then error else stderr);
}

-- All lines of a log that journalctl ends, with the trimmed text of its error output and its error
-- where it failed.
unfoldable pub log_lines : JournalTools → ℤ → Bytes → Option (Bytes × Bytes) → List LogLine
log_lines t now out none = journal_lines t (tokens 1048576 (all_lines out))
log_lines t now out (some (stderr, error)) =
    journal_lines t (tokens 1048576 (all_lines out)) ++ failure_line now stderr error ∷ []

unfoldable pub logs_request : List Bytes → Bytes → ℤ → Request
logs_request units id tail =
    if not (member id units)
    then refused unknown_unit
    else command (codes "journalctl") (
        codes "--unit"
        ∷ id
        ∷ codes "--lines"
        ∷ itoa tail
        ∷ codes "--follow"
        ∷ codes "--output"
        ∷ codes "json"
        ∷ codes "--no-pager"
        ∷ codes "--output-fields"
        ∷ codes "MESSAGE,PRIORITY"
        ∷ [])
