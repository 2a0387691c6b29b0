-- ===== src/Pm2/Logs.antt =====
-- agent/internal/providers/pm2/logs.go and readTail of names.go: following one log file.
-- What the file system answers in a call is an argument: the `Stat` of the path, and the file that
-- opening it gives, whose bytes are all that it holds at that moment.
pub mod Split
pub mod Cap
pub mod Follow
pub mod Open
pub mod Finished
pub mod Replaced
use pc_monitor.Base.{
  ℕ, ◌+◌, ◌-◌, ◌*◌, Bool, true, false, not, ◌&&◌, ◌||◌, List, [], ◌∷◌, ◌++◌, map, Option, none,
  some, Bytes, codes, bytes_eq, cut, cut_last, split, trim_suffix, length, take, drop, last_n, ltb,
  ◌==◌, if◌then◌else◌, min,
}
use pc_monitor.Base.Lines.{newline}
use pc_monitor.Provider.CleanLine.{clean_line}

abbrev pub max_log_line : ℕ
max_log_line = 8192

abbrev pub max_log_read : ℕ
max_log_read = 1048576

abbrev pub log_tail : ℕ
log_tail = 262144

-- The regular expression of `CleanLine`, and `bytes.ToValidUTF8(line, "?")`.
pub record TextTools : Type 0 where
  pub strip_ansi : Bytes → Bytes
  pub to_valid_utf8 : Bytes → Bytes

-- `os.FileInfo`; `os.SameFile` compares the file numbers.
pub record FileInfo : Type 0 where
  pub regular : Bool
  pub size : ℕ
  pub file_number : ℕ

-- An opened file: its own `Stat`, and its bytes.
pub record Handle : Type 0 where
  pub regular : Bool
  pub file_number : ℕ
  pub content : Bytes

pub record LogFile : Type 0 where
  pub path : Bytes
  pub err : Bool
  pub ok : Bool
  pub off : ℕ
  pub partial : Bytes
  pub info : Option FileInfo
  pub missing : Bool
  pub skip : Bool

unfoldable pub usable_log : Bytes → Bool
usable_log path = not (bytes_eq path []) && not (bytes_eq path (codes "/dev/null"))

unfoldable pub cap_line : Bytes → Bytes
cap_line b = if ltb max_log_line (length b) then take max_log_line b else b

unfoldable pub tidy_line : TextTools → Bytes → Bytes
tidy_line t line = clean_line t.strip_ansi (t.to_valid_utf8 (cap_line line))

-- The loop leaves at once on an empty `b`.
unfoldable pub split_lines : TextTools → Bytes → List Bytes
split_lines t [] = []
split_lines t (c ∷ b) = map (tidy_line t) (split newline (trim_suffix newline (c ∷ b)))

-- The bytes behind the first newline; none at all where there is no newline.
unfoldable pub after_first_line : Bytes → Bytes
after_first_line buf = elim (cut newline buf) [ none ↦ [] | some p ↦ p.1 ]

-- `readTail` on a regular file: up to `n` bytes from the end, from a line boundary on.
unfoldable pub read_tail : Bytes → ℕ → Bytes
read_tail content n =
    let off : ℕ = length content - n in
    if ltb 0 off then after_first_line (drop off content) else content

-- A text up to and with its last newline, and what follows it.
unfoldable pub cut_lines : Bytes → Bytes × Bytes
cut_lines buf = elim (cut_last newline buf) [ none ↦ ([], buf) | some p ↦ p ]

-- The part of `open` behind the checks of the handle.
unfoldable pub opened : TextTools → LogFile → ℕ → FileInfo → Bytes → Option (List Bytes) × LogFile
opened t f n st content =
    let (front, rest) = cut_lines (read_tail content (n * 512 + max_log_line)) in
    (
      some (last_n n (split_lines t front)),
      record f {
        ok = true;
        off = length content;
        info = some st;
        partial = if ltb 0 (length rest) then cap_line rest else f.partial;
      },
    )

-- The path may have been given to another file since its own `Stat`.
abbrev stat_of_handle : Handle → FileInfo
stat_of_handle h = record {
  regular = h.regular;
  size = length h.content;
  file_number = h.file_number;
}

-- The last `n` lines, or `none` for an error. A `Stat` that fails is taken for a missing file where
-- the flag says so.
unfoldable pub open_log :
    TextTools → LogFile → ℕ → Option FileInfo → Bool → Option Handle → Option (List Bytes) × LogFile
open_log t f n none not_exist h =
    if not (usable_log f.path) then (none, f) else (none, record f { missing = not_exist })
open_log t f n (some st) not_exist none = (none, f)
open_log t f n (some st) not_exist (some h) =
    if not (usable_log f.path) || not st.regular || not h.regular
    then (none, f)
    else opened t f n (stat_of_handle h) h.content

-- `!os.SameFile(l.info, st)`; without a known file there is nothing to compare with.
unfoldable pub replaced : Option FileInfo → FileInfo → Bool
replaced none st = false
replaced (some old) st = not (old.file_number == st.file_number)

-- The second case of `poll`'s switch: from the last part of the file, or on from where it was.
unfoldable pub start_over : LogFile → FileInfo → LogFile
start_over f st =
    if not f.ok || ltb st.size f.off || replaced f.info st
    then record f {
      ok = true;
      off = st.size - log_tail;
      partial = [];
      skip = ltb 0 (st.size - log_tail);
    }
    else f

-- The lines that the new bytes finish.
unfoldable pub take_lines : TextTools → LogFile → Bytes → List Bytes × LogFile
take_lines t f buf = elim (cut_last newline buf) [
  | none ↦ ([], record f { partial = cap_line buf })
  | some p ↦ (split_lines t p.0, record f { partial = cap_line p.1 })
]

-- The first line is dropped after a start in the middle of the file.
unfoldable pub take_data : TextTools → LogFile → Bytes → List Bytes × LogFile
take_data t f buf =
    if f.skip
    then elim (cut newline buf) [
      | none ↦ ([], record f { partial = [] })
      | some p ↦ take_lines t (record f { skip = false }) p.1
    ]
    else take_lines t f buf

-- What `ReadAt` gives into a buffer of the wanted size.
abbrev pub read_at : Bytes → ℕ → ℕ → Bytes
read_at content off n = take n (drop off content)

unfoldable pub read_on : TextTools → LogFile → FileInfo → Option Handle → List Bytes × LogFile
read_on t f st none = ([], f)
read_on t f st (some h) =
    if not h.regular
    then ([], f)
    else let got = read_at h.content f.off (min (st.size - f.off) max_log_read) in
      take_data t (record f { off = f.off + length got }) (f.partial ++ got)

unfoldable pub poll_stat : TextTools → LogFile → FileInfo → Option Handle → List Bytes × LogFile
poll_stat t f st h =
    if not f.ok && not f.missing
    then ([], record f { ok = true; off = st.size; partial = []; info = some st })
    else let f' = record (start_over f st) { info = some st } in
      if st.size == f'.off then ([], f') else read_on t f' st h

unfoldable pub poll : TextTools → LogFile → Option FileInfo → Option Handle → List Bytes × LogFile
poll t f none h = ([], f)
poll t f (some st) h =
    if not (usable_log f.path) || not st.regular then ([], f) else poll_stat t f st h
