-- ===== src/Pm2/Streaming/Page.antt =====
-- What the page shows of a process whose two logs are appended to.
use pc_monitor.Base.{
  ℕ, ◌+◌, ◌*◌, ◌≤◌, true, false, List, [], ◌∷◌, ◌++◌, append_assoc, append-nil, map, Option, some,
  Bytes, bytes_eq, bytes_eq_refl, length, last_n, All, if◌then◌else◌, ◌≡◌, refl, ap, ap₂, ◌∙◌,
}
use pc_monitor.Base.Int.{ℤ}
use pc_monitor.Base.Lines.{complete}
use pc_monitor.Pm2.Logs.{
  TextTools, LogFile, max_log_line, max_log_read, usable_log, tidy_line, open_log, poll,
}
use pc_monitor.Pm2.Logs.Follow.{stat_of, handle_of, tracked, poll-tracked}
use pc_monitor.Pm2.Logs.Finished.{finished}
use pc_monitor.Pm2.Logs.Open.{open_log-tracked}
use pc_monitor.Pm2.Streaming.{
  Message, text_message, Seen, Tick, new_file, old_lines, first_lines, open_files, or_nothing_yet,
  poll_files, follow, stream_files,
}

-- A round of the loop: the clock, and what was appended to the output log and to the error log.
pub record Written : Type 0 where
  pub now : ℤ
  pub out : Bytes
  pub err : Bytes

-- Each chunk is at most what one poll reads.
abbrev pub IsShort : Written → Type 0
IsShort w = (length w.out ≤ max_log_read) × (length w.err ≤ max_log_read)

-- The newest `n` finished lines of a content.
abbrev pub newest : TextTools → ℕ → Bytes → List Bytes
newest t n content = last_n n (map (tidy_line t) (complete content).0)

abbrev seen_of : ℕ → Bytes → Seen
seen_of n content = record {
  stat = some (stat_of n content);
  not_exist = false;
  handle = some (handle_of n content);
}

-- Two files, by path: the one at `p`, and the other at any other.
abbrev pub look_at : Bytes → ℕ → ℕ → Bytes → Bytes → Bytes → Seen
look_at p k j a b path = if bytes_eq path p then seen_of k a else seen_of j b

module _ (t : TextTools) (p q : Bytes) (k j : ℕ) where
  abbrev pub ticks : Bytes → Bytes → List Written → List Tick
  ticks a b [] = []
  ticks a b (w ∷ ws) =
      record { now = w.now; look = look_at p k j (a ++ w.out) (b ++ w.err) }
      ∷ ticks (a ++ w.out) (b ++ w.err) ws

  -- What the rounds add to the page.
  abbrev pub news : Bytes → Bytes → List Written → List Message
  news a b [] = []
  news a b (w ∷ ws) =
      map (text_message w.now false) (finished t a w.out)
      ++ (map (text_message w.now true) (finished t b w.err) ++ news (a ++ w.out) (b ++ w.err) ws)

  abbrev both : Bytes → Bytes → List LogFile
  both a b = tracked p false false k a ∷ tracked q true false j b ∷ []

  -- What the page shows at first.
  abbrev pub opening : ℕ → Bytes → Bytes → List Message
  opening n a b = or_nothing_yet (
      old_lines (new_file p false) (newest t n a)
      ++ (old_lines (new_file q true) (newest t n b) ++ []))

  module _ (usable_p : usable_log p ≡ true) (usable_q : usable_log q ≡ true)
      (apart : bytes_eq q p ≡ false) where
    look_at-out : (a b : Bytes) → look_at p k j a b p ≡ seen_of k a
    look_at-out a b = rw (bytes_eq_refl p) refl

    look_at-err : (a b : Bytes) → look_at p k j a b q ≡ seen_of j b
    look_at-err a b = rw apart refl

    poll_files-tracked :
        (a b : Bytes) (w : Written)
        → length w.out ≤ max_log_read
        → length w.err ≤ max_log_read
        → poll_files t
            (record { now = w.now; look = look_at p k j (a ++ w.out) (b ++ w.err) })
            (both a b)
          ≡ (
            map (text_message w.now false) (finished t a w.out)
                ++ (map (text_message w.now true) (finished t b w.err) ++ []),
            both (a ++ w.out) (b ++ w.err),
          )
    unfolding poll_files
    poll_files-tracked a b w ha hb =
        ap₂ polled (look_at-out (a ++ w.out) (b ++ w.err)) (look_at-err (a ++ w.out) (b ++ w.err))
        ∙ ap₂ messages_of (poll-tracked t p false false k usable_p a w.out ha)
            (poll-tracked t q true false j usable_q b w.err hb)
      where
        messages_of : List Bytes × LogFile → List Bytes × LogFile → List Message × List LogFile
        messages_of x y = (
          map (text_message w.now false) x.0 ++ (map (text_message w.now true) y.0 ++ []),
          x.1 ∷ y.1 ∷ [],
        )

        polled : Seen → Seen → List Message × List LogFile
        polled x y =
            messages_of (poll t (tracked p false false k a) x.stat x.handle)
              (poll t (tracked q true false j b) y.stat y.handle)

    follow-news :
        (a b : Bytes) (ws : List Written)
        → All IsShort ws
        → follow t (both a b) (ticks a b ws) ≡ news a b ws
    unfolding follow
    follow-news a b [] h = refl
    follow-news a b (w ∷ ws) ((ho, he), h) =
        ap (λ r. r.0 ++ follow t r.1 (ticks (a ++ w.out) (b ++ w.err) ws))
          (poll_files-tracked a b w ho he)
        ∙ append_assoc outs (errs ++ []) rest
        ∙ ap (λ ms. outs ++ ms)
            (ap (λ es. es ++ rest) (append-nil errs)
              ∙ ap (λ ms. errs ++ ms) (follow-news (a ++ w.out) (b ++ w.err) ws h))
      where
        outs : List Message
        outs = map (text_message w.now false) (finished t a w.out)

        errs : List Message
        errs = map (text_message w.now true) (finished t b w.err)

        rest : List Message
        rest = follow t (both (a ++ w.out) (b ++ w.err)) (ticks (a ++ w.out) (b ++ w.err) ws)

    open_files-tracked :
        (n : ℕ) (a b : Bytes)
        → length a ≤ n * 512 + max_log_line
        → length b ≤ n * 512 + max_log_line
        → open_files t (look_at p k j a b) n (new_file p false ∷ new_file q true ∷ []) ≡ (
          old_lines (new_file p false) (newest t n a)
              ++ (old_lines (new_file q true) (newest t n b) ++ []),
          both a b,
        )
    unfolding open_files
    open_files-tracked n a b ha hb =
        ap₂ opened (look_at-out a b) (look_at-err a b)
        ∙ ap₂ messages_of (open_log-tracked t p false k n a usable_p ha)
            (open_log-tracked t q true j n b usable_q hb)
      where
        messages_of :
            Option (List Bytes) × LogFile
            → Option (List Bytes) × LogFile
            → List Message × List LogFile
        messages_of x y = (
          first_lines (new_file p false) x.0 ++ (first_lines (new_file q true) y.0 ++ []),
          x.1 ∷ y.1 ∷ [],
        )

        opened : Seen → Seen → List Message × List LogFile
        opened x y =
            messages_of (open_log t (new_file p false) n x.stat x.not_exist x.handle)
              (open_log t (new_file q true) n y.stat y.not_exist y.handle)

    pub stream_files-news :
        (n : ℕ) (a b : Bytes) (ws : List Written)
        → length a ≤ n * 512 + max_log_line
        → length b ≤ n * 512 + max_log_line
        → All IsShort ws
        → stream_files t
            (look_at p k j a b)
            n
            (new_file p false ∷ new_file q true ∷ [])
            (ticks a b ws)
          ≡ opening n a b ++ news a b ws
    stream_files-news n a b ws ha hb h =
        ap (λ r. or_nothing_yet r.0 ++ follow t r.1 (ticks a b ws)) (open_files-tracked n a b ha hb)
        ∙ ap (λ ms. opening n a b ++ ms) (follow-news a b ws h)
