-- ===== src/Pm2/Logs/Follow.antt =====
-- Following a file that is only appended to.
use pc_monitor.Base.{
  ℕ, ◌+◌, ◌-◌, ◌≤◌, Bool, true, false, List, [], ◌∷◌, ◌++◌, append_assoc, append-nil, map,
  map-append, some, Bytes, length, length-append, take, take-of_le, drop-append_self, All, ◌==◌,
  ◌≡◌, refl, sym, ap, ap₂, ◌∙◌, arith, if◌then◌else◌, min,
}
use pc_monitor.Base.Lines.{complete, complete-append, complete-rest}
use pc_monitor.Pm2.Logs.{
  TextTools, FileInfo, Handle, LogFile, max_log_read, usable_log, cap_line, tidy_line, replaced,
  start_over, take_data, read_at, read_on, poll_stat, poll,
}
use pc_monitor.Pm2.Logs.Split.{take_lines-complete}
use pc_monitor.Pm2.Logs.Cap.{contains_byte-complete, complete-cap_line}

-- A file with a number, and what it holds, as `Stat` and as the opened file show it.
abbrev pub stat_of : ℕ → Bytes → FileInfo
stat_of k content = record { regular = true; size = length content; file_number = k }

abbrev pub handle_of : ℕ → Bytes → Handle
handle_of k content = record { regular = true; file_number = k; content = content }

abbrev pub joined : List Bytes → Bytes
joined [] = []
joined (c ∷ cs) = c ++ joined cs

-- The follower that has read all of a content, with the unfinished line at its end held back.
abbrev pub tracked : Bytes → Bool → Bool → ℕ → Bytes → LogFile
tracked path err missing k content = record {
  path = path;
  err = err;
  ok = true;
  off = length content;
  partial = cap_line (complete content).1;
  info = some (stat_of k content);
  missing = missing;
  skip = false;
}

-- The lines of one poll after each chunk that is appended.
unfoldable pub poll_all : TextTools → ℕ → LogFile → Bytes → List Bytes → List Bytes
poll_all t k f content [] = []
poll_all t k f content (chunk ∷ chunks) =
    let (lines, f') =
      poll t f (some (stat_of k (content ++ chunk))) (some (handle_of k (content ++ chunk))) in
    lines ++ poll_all t k f' (content ++ chunk) chunks

module _ (t : TextTools) (path : Bytes) (err missing : Bool) (k : ℕ)
    (usable : usable_log path ≡ true) where
  start_over-tracked :
      (content chunk : Bytes)
      → start_over (tracked path err missing k content) (stat_of k (content ++ chunk))
        ≡ tracked path err missing k content
  unfolding start_over replaced
  start_over-tracked content chunk = ground (arith, length-append content chunk)

  read_at-append :
      (content chunk : Bytes)
      → length chunk ≤ max_log_read
      → read_at
          (content ++ chunk)
          (length content)
          (min (length (content ++ chunk) - length content) max_log_read)
        ≡ chunk
  read_at-append content chunk h =
      ap (take (min (length (content ++ chunk) - length content) max_log_read))
        (drop-append_self content chunk)
      ∙ take-of_le _ chunk (omega (arith, length-append content chunk))

  -- What one poll gives on an appended chunk.
  abbrev pub after : Bytes → Bytes → List Bytes × LogFile
  after content chunk = (
    map (tidy_line t) (complete ((complete content).1 ++ chunk)).0,
    tracked path err missing k (content ++ chunk),
  )

  take_data-tracked :
      (content chunk : Bytes) (n : ℕ)
      → n ≡ length (content ++ chunk)
      → take_data t
          (record (tracked path err missing k content) {
            info = some (stat_of k (content ++ chunk));
            off = n;
          })
          (cap_line (complete content).1 ++ chunk)
        ≡ after content chunk
  unfolding take_data
  take_data-tracked content chunk n e =
      let (same, cut) =
        complete-cap_line t (complete content).1 chunk (contains_byte-complete content) in
      take_lines-complete t _ (cap_line (complete content).1 ++ chunk)
      ∙ ap₂
          (λ ls r. (
            ls,
            record (tracked path err missing k content) {
              info = some (stat_of k (content ++ chunk));
              off = n;
              partial = r;
            },
          ))
          same (cut ∙ ap (λ p. cap_line p.1) (sym (complete-append content chunk)))
      ∙ ap
          (λ m. (
            map (tidy_line t) (complete ((complete content).1 ++ chunk)).0,
            record (tracked path err missing k (content ++ chunk)) { off = m },
          ))
          e

  read_on-tracked :
      (content chunk : Bytes)
      → length chunk ≤ max_log_read
      → read_on t
          (record (tracked path err missing k content) {
            info = some (stat_of k (content ++ chunk));
          })
          (stat_of k (content ++ chunk))
          (some (handle_of k (content ++ chunk)))
        ≡ after content chunk
  unfolding read_on
  read_on-tracked content chunk h =
      ap
        (λ got.
          take_data t
            (record (tracked path err missing k content) {
              info = some (stat_of k (content ++ chunk));
              off = length content + length got;
            })
            (cap_line (complete content).1 ++ got))
        (read_at-append content chunk h)
      ∙ take_data-tracked content chunk (length content + length chunk)
          (sym (length-append content chunk))

  -- The end of `poll` on the file that it goes on with.
  abbrev pub go_on : FileInfo → Handle → LogFile → List Bytes × LogFile
  go_on st h g =
      if st.size == g.off
      then ([], record g { info = some st })
      else read_on t (record g { info = some st }) st (some h)

  pub poll_stat-go_on :
      (content : Bytes) (st : FileInfo) (h : Handle)
      → poll_stat t (tracked path err missing k content) st (some h)
        ≡ go_on st h (start_over (tracked path err missing k content) st)
  unfolding poll_stat
  poll_stat-go_on content st h = refl

  pub go_on-tracked :
      (content chunk : Bytes)
      → length chunk ≤ max_log_read
      → go_on
          (stat_of k (content ++ chunk))
          (handle_of k (content ++ chunk))
          (tracked path err missing k content)
        ≡ after content chunk
  go_on-tracked content [] h =
      rw (append-nil content, append-nil (complete content).1, complete-rest content) (ground arith)
  go_on-tracked content (c ∷ chunk) h =
      rw (longer content c chunk) (read_on-tracked content (c ∷ chunk) h)
    where
      longer : (s : Bytes) (d : ℕ) (cs : Bytes) → (length (s ++ d ∷ cs) == length s) ≡ false
      longer s d cs = ground (arith, length-append s (d ∷ cs))

  poll_stat-tracked :
      (content chunk : Bytes)
      → length chunk ≤ max_log_read
      → poll_stat t
          (tracked path err missing k content)
          (stat_of k (content ++ chunk))
          (some (handle_of k (content ++ chunk)))
        ≡ after content chunk
  poll_stat-tracked content chunk h =
      poll_stat-go_on content (stat_of k (content ++ chunk)) (handle_of k (content ++ chunk))
      ∙ ap (go_on (stat_of k (content ++ chunk)) (handle_of k (content ++ chunk)))
          (start_over-tracked content chunk)
      ∙ go_on-tracked content chunk h

  -- One poll of a file that a chunk of at most one read was appended to.
  pub poll-tracked :
      (content chunk : Bytes)
      → length chunk ≤ max_log_read
      → poll t
          (tracked path err missing k content)
          (some (stat_of k (content ++ chunk)))
          (some (handle_of k (content ++ chunk)))
        ≡ after content chunk
  unfolding poll
  poll-tracked content chunk h = rw (usable, poll) (poll_stat-tracked content chunk h)

  -- A follower that has read all of a file with a usable path, and polls once for each chunk that is
  -- appended to that file, of at most what one poll reads, gives exactly the lines that the appended
  -- text completes, each once and tidied as a whole line is, wherever the chunks were cut; the first
  -- of them begins in the line that was unfinished.
  poll_all-complete :
      (content : Bytes) (chunks : List Bytes)
      → All (λ c. length c ≤ max_log_read) chunks
      → poll_all t k (tracked path err missing k content) content chunks
        ≡ map (tidy_line t) (complete ((complete content).1 ++ joined chunks)).0
  unfolding poll_all
  poll_all-complete content [] h =
      ap (λ p. map (tidy_line t) p.0)
        (sym (ap complete (append-nil (complete content).1) ∙ complete-rest content))
  poll_all-complete content (chunk ∷ chunks) (few, h) =
      ap (λ p. p.0 ++ poll_all t k p.1 (content ++ chunk) chunks) (poll-tracked content chunk few)
      ∙ ap (λ ls. map (tidy_line t) (complete (rest ++ chunk)).0 ++ ls)
          (poll_all-complete (content ++ chunk) chunks h
            ∙ ap (λ p. map (tidy_line t) (complete (p.1 ++ joined chunks)).0)
                (complete-append content chunk))
      ∙ sym (map-append (tidy_line t) (complete (rest ++ chunk)).0 _)
      ∙ ap (λ p. map (tidy_line t) p.0) (sym (complete-append (rest ++ chunk) (joined chunks)))
      ∙ ap (λ s. map (tidy_line t) (complete s).0) (append_assoc rest chunk (joined chunks))
    where
      rest : Bytes
      rest = (complete content).1
