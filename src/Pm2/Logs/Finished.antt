-- ===== src/Pm2/Logs/Finished.antt =====
-- The lines that appended text completes.
use pc_monitor.Base.{
  List, [], ◌++◌, append_assoc, append-nil, map, map-append, Bytes, ◌≡◌, sym, ap, ◌∙◌,
}
use pc_monitor.Base.Lines.{complete, complete-append, complete-rest}
use pc_monitor.Pm2.Logs.{TextTools, tidy_line}

-- The lines that a chunk completes behind a content.
abbrev pub finished : TextTools → Bytes → Bytes → List Bytes
finished t content chunk = map (tidy_line t) (complete ((complete content).1 ++ chunk)).0

-- What one poll completes and what the later ones do, as one text.
pub finished-append :
    (t : TextTools) (content chunk more : Bytes)
    → finished t content chunk ++ finished t (content ++ chunk) more
      ≡ finished t content (chunk ++ more)
finished-append t content chunk more =
    ap (λ r. finished t content chunk ++ map (tidy_line t) (complete (r.1 ++ more)).0)
      (complete-append content chunk)
    ∙ sym (map-append (tidy_line t) (complete (rest ++ chunk)).0 _)
    ∙ ap (λ r. map (tidy_line t) r.0) (sym (complete-append (rest ++ chunk) more))
    ∙ ap (λ s. map (tidy_line t) (complete s).0) (append_assoc rest chunk more)
  where
    rest : Bytes
    rest = (complete content).1

pub finished_nil : (t : TextTools) (content : Bytes) → finished t content [] ≡ []
finished_nil t content =
    ap (λ s. map (tidy_line t) (complete s).0) (append-nil (complete content).1)
    ∙ ap (λ r. map (tidy_line t) r.0) (complete-rest content)
