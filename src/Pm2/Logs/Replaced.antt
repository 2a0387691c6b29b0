-- ===== src/Pm2/Logs/Replaced.antt =====
-- Following a file that another one takes the place of, or that is cut down.
use pc_monitor.Base.{
  ℕ, ◌-◌, ◌≤◌, ◌<◌, Bool, true, false, not, ◌||◌, List, [], ◌∷◌, ◌++◌, append_assoc, append-nil,
  some, Bytes, length, ltb, ◌==◌, All, if◌then◌else◌, ◌≡◌, ◌⊎◌, inl, inr, refl, sym, ap, ap₂, ◌∙◌,
  arith,
}
use pc_monitor.Base.Lines.{complete}
use pc_monitor.Pm2.Logs.{
  TextTools, FileInfo, Handle, LogFile, max_log_read, log_tail, usable_log, cap_line, replaced,
  start_over, poll_stat, poll,
}
use pc_monitor.Pm2.Logs.Follow.{
  stat_of, handle_of, joined, tracked, after, go_on, go_on-tracked, poll_stat-go_on, poll-tracked,
}
use pc_monitor.Pm2.Logs.Finished.{finished, finished-append, finished_nil}

-- The lines that polls give, each with what it finds at the path.
unfoldable pub poll_lines : TextTools → LogFile → List (FileInfo × Handle) → List Bytes
poll_lines t f [] = []
poll_lines t f ((st, h) ∷ looks) =
    let (lines, f') = poll t f (some st) (some h) in lines ++ poll_lines t f' looks

-- What polls find after each chunk that is appended.
abbrev pub grown : ℕ → Bytes → List Bytes → List (FileInfo × Handle)
grown k content [] = []
grown k content (c ∷ cs) =
    (stat_of k (content ++ c), handle_of k (content ++ c)) ∷ grown k (content ++ c) cs

-- Another file, or a shorter one.
abbrev pub IsReplaced : ℕ → Bytes → ℕ → Bytes → Type 0
IsReplaced k old j fresh = ((k == j) ≡ false) ⊎ (length fresh < length old)

module _ (t : TextTools) (path : Bytes) (err missing : Bool) (usable : usable_log path ≡ true) where
  start_over-replaced :
      (k : ℕ) (old : Bytes) (j : ℕ) (fresh : Bytes)
      → IsReplaced k old j fresh
      → length fresh ≤ log_tail
      → start_over (tracked path err missing k old) (stat_of j fresh)
        ≡ record (tracked path err missing k []) { info = some (stat_of k old) }
  unfolding start_over replaced cap_line complete
  start_over-replaced k old j fresh r short =
      ap (λ b. if b then from_part (length fresh - log_tail) else tracked path err missing k old)
        (seen r)
      ∙ ap from_part (whole (length fresh) short)
    where
      from_part : ℕ → LogFile
      from_part n = record (tracked path err missing k old) {
        ok = true;
        off = n;
        partial = [];
        skip = ltb 0 n;
      }

      seen : IsReplaced k old j fresh → (ltb (length fresh) (length old) || not (k == j)) ≡ true
      seen (inl other) = ground (arith, other)
      seen (inr shorter) = ground (arith, shorter)

      whole : (n : ℕ) → n ≤ log_tail → n - log_tail ≡ 0
      whole n h = omega arith

  -- The first poll after it reads the file from its start.
  poll-replaced :
      (k : ℕ) (old : Bytes) (j : ℕ) (fresh : Bytes)
      → IsReplaced k old j fresh
      → length fresh ≤ log_tail
      → poll t (tracked path err missing k old) (some (stat_of j fresh)) (some (handle_of j fresh))
        ≡ after t path err missing j usable [] fresh
  unfolding poll
  poll-replaced k old j fresh r short =
      ap
        (λ b.
          if b
          then ([], tracked path err missing k old)
          else poll_stat t (tracked path err missing k old) (stat_of j fresh)
              (some (handle_of j fresh)))
        known
      ∙ poll_stat-go_on t path err missing k usable old (stat_of j fresh) (handle_of j fresh)
      ∙ ap (go_on t path err missing j usable (stat_of j fresh) (handle_of j fresh))
          (start_over-replaced k old j fresh r short)
      ∙ go_on-tracked t path err missing j usable [] fresh (omega (arith, short))
    where
      known : (not (usable_log path) || false) ≡ false
      known = rw usable refl

  -- The polls of a file that grows, and then others.
  poll_lines-grown :
      (k : ℕ) (content : Bytes) (chunks : List Bytes) (looks : List (FileInfo × Handle))
      → All (λ c. length c ≤ max_log_read) chunks
      → poll_lines t (tracked path err missing k content) (grown k content chunks ++ looks)
        ≡ finished t content (joined chunks)
          ++ poll_lines t (tracked path err missing k (content ++ joined chunks)) looks
  unfolding poll_lines
  poll_lines-grown k content [] looks h =
      ap₂ (λ ls c. ls ++ poll_lines t (tracked path err missing k c) looks)
        (sym (finished_nil t content)) (sym (append-nil content))
  poll_lines-grown k content (c ∷ cs) looks (few, h) =
      ap (λ p. p.0 ++ poll_lines t p.1 (grown k (content ++ c) cs ++ looks))
        (poll-tracked t path err missing k usable content c few)
      ∙ ap (λ ls. finished t content c ++ ls) (poll_lines-grown k (content ++ c) cs looks h)
      ∙ sym (append_assoc (finished t content c) (finished t (content ++ c) (joined cs)) _)
      ∙ ap₂ (λ ls d. ls ++ poll_lines t (tracked path err missing k d) looks)
          (finished-append t content c (joined cs)) (append_assoc content c (joined cs))

  -- A follower that has read all of a file with a usable path, while chunks are appended, then
  -- another file takes its place or it is cut down, to at most what a start from the beginning
  -- reads, and then chunks are appended again, with one poll after each of these and chunks of at
  -- most one read: the polls give exactly the lines that the first chunks complete, and then all
  -- complete lines of the new content from its start on; of the line that the old one left
  -- unfinished nothing is mixed in.
  pub poll_lines-replaced :
      (k : ℕ) (content : Bytes) (chunks : List Bytes) (j : ℕ) (fresh : Bytes) (more : List Bytes)
      → All (λ c. length c ≤ max_log_read) chunks
      → IsReplaced k (content ++ joined chunks) j fresh
      → length fresh ≤ log_tail
      → All (λ c. length c ≤ max_log_read) more
      → poll_lines t
          (tracked path err missing k content)
          (grown k content chunks ++ ((stat_of j fresh, handle_of j fresh) ∷ grown j fresh more))
        ≡ finished t content (joined chunks) ++ finished t [] (fresh ++ joined more)
  unfolding poll_lines
  poll_lines-replaced k content chunks j fresh more few r short few' =
      poll_lines-grown k content chunks _ few
      ∙ ap (λ ls. finished t content (joined chunks) ++ ls)
          (ap (λ p. p.0 ++ poll_lines t p.1 (grown j fresh more))
              (poll-replaced k (content ++ joined chunks) j fresh r short)
            ∙ ap
                (λ looks.
                  finished t [] fresh ++ poll_lines t (tracked path err missing j fresh) looks)
                (sym (append-nil (grown j fresh more)))
            ∙ ap (λ ls. finished t [] fresh ++ ls)
                (poll_lines-grown j fresh more [] few' ∙ append-nil _)
            ∙ finished-append t [] fresh (joined more))
