-- ===== src/Pm2/Logs/Open.antt =====
-- The first look into a file that fits into the window that `open` reads.
use pc_monitor.Base.{
  ℕ, ◌+◌, ◌*◌, ◌≤◌, Bool, true, false, List, [], ◌∷◌, map, Option, none, some, Bytes, length,
  last_n, ltb, ◌≡◌, refl, ap, ap₂, ◌∙◌, arith, if◌then◌else◌,
}
use pc_monitor.Base.Lines.{complete}
use pc_monitor.Pm2.Logs.{
  TextTools, LogFile, max_log_line, usable_log, cap_line, tidy_line, split_lines, read_tail,
  cut_lines, opened, open_log,
}
use pc_monitor.Pm2.Logs.Split.{cut_lines-complete}
use pc_monitor.Pm2.Logs.Follow.{stat_of, handle_of, tracked}

read_tail_whole : (content : Bytes) (n : ℕ) → length content ≤ n → read_tail content n ≡ content
unfolding read_tail
read_tail_whole content n h = ground arith

-- A file that was not opened yet.
abbrev pub untouched : Bytes → Bool → LogFile
untouched path err = record {
  path = path;
  err = err;
  ok = false;
  off = 0;
  partial = [];
  info = none;
  missing = false;
  skip = false;
}

cap_line_pending :
    (rest : Bytes) → (if ltb 0 (length rest) then cap_line rest else []) ≡ cap_line rest
unfolding cap_line
cap_line_pending [] = refl
cap_line_pending (c ∷ rest) = ground arith

module _ (t : TextTools) (path : Bytes) (err : Bool) (k n : ℕ) (content : Bytes) where
  opened-whole :
      length content ≤ n * 512 + max_log_line
      → opened t (untouched path err) n (stat_of k content) content ≡ (
        some (last_n n (map (tidy_line t) (complete content).0)),
        tracked path err false k content,
      )
  unfolding opened
  opened-whole small =
      let (lines, rest) = cut_lines-complete t content in
      ap (λ buf. look buf) (read_tail_whole content (n * 512 + max_log_line) small)
      ∙ ap₂
          (λ ls r. (
            some (last_n n ls),
            record (tracked path err false k content) {
              partial = if ltb 0 (length r) then cap_line r else [];
            },
          ))
          lines rest
      ∙ ap
          (λ r. (
            some (last_n n (map (tidy_line t) (complete content).0)),
            record (tracked path err false k content) { partial = r },
          ))
          (cap_line_pending (complete content).1)
    where
      look : Bytes → Option (List Bytes) × LogFile
      look buf = (
        some (last_n n (split_lines t (cut_lines buf).0)),
        record (tracked path err false k content) {
          partial = if ltb 0 (length (cut_lines buf).1) then cap_line (cut_lines buf).1 else [];
        },
      )

  -- A file that fits into the window that `open` reads gives its last `n` finished lines, and is
  -- followed from its end on, with the unfinished line held back.
  pub open_log-tracked :
      usable_log path ≡ true
      → length content ≤ n * 512 + max_log_line
      → open_log t
          (untouched path err)
          n
          (some (stat_of k content))
          false
          (some (handle_of k content))
        ≡ (
          some (last_n n (map (tidy_line t) (complete content).0)),
          tracked path err false k content,
        )
  unfolding open_log
  open_log-tracked usable small = rw (usable, open_log) (opened-whole small)
