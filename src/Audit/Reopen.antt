-- ===== src/Audit/Reopen.antt =====
-- What is left of the log when the process starts again.
use pc_monitor.Base.{
  ◌≤◌, true, List, [], ◌∷◌, ◌++◌, map, map-append, append-nil, append_assoc, some, Bytes, length,
  last_n, last_n-last_n, last_n-of_le, length-last_n, All, All-append, ltb, Bool-cases, ◌≡◌, refl,
  sym, ap, ap₂, ◌∙◌, subst, arith, inl, inr,
}
use pc_monitor.Base.Lines.{newline, complete, complete-append, last_line, all_lines}
use pc_monitor.Base.Scanner.{IsToken, max_token, tokens, tokens-IsToken, complete-line}
use pc_monitor.Audit.{Entry, Json, Log, keep, push, load, open_log, append}

-- The line of an entry: JSON gives the entry back, and has no newline, no carriage return at its
-- end, and less than the 64 KiB that the scanner takes.
pub record IsLine (j : Json) (e : Entry) (raw : Bytes) : Type 0 where
  pub written : j.marshal e ≡ some raw
  pub read : j.unmarshal raw ≡ some e
  pub token : IsToken max_token raw

unfoldable pub append_all : Json → Log → List Entry → Log
append_all j l [] = l
append_all j l (e ∷ es) = append_all j (append j l e true).1 es

push_recent : (l : Log) (e : Entry) → (push l e).recent ≡ last_n keep (l.recent ++ (e ∷ []))
unfolding push
push_recent l e = elim (Bool-cases (ltb keep (length (l.recent ++ (e ∷ []))))) [
  | inl h ↦ rw h refl
  | inr h ↦ rw h (sym (last_n-of_le keep (l.recent ++ (e ∷ [])) (ground arith)))
]

push_file : (l : Log) (e : Entry) → (push l e).file ≡ l.file
unfolding push
push_file l e = refl

-- The entries with their lines, as the file holds them.
record Stores (j : Json) (l : Log) (ps : List (Bytes × Entry)) : Type 0 where
  lines : complete l.file ≡ (map (λ p. p.0) ps, [])
  each : All (λ p. IsLine j p.1 p.0) ps
  newest : l.recent ≡ last_n keep (map (λ p. p.1) ps)

lines-IsToken :
    (j : Json) (ps : List (Bytes × Entry))
    → All (λ p. IsLine j p.1 p.0) ps
    → All (IsToken max_token) (map (λ p. p.0) ps)
lines-IsToken j [] h = tt
lines-IsToken j ((raw, e) ∷ ps) (is, h) = (is.token, lines-IsToken j ps h)

load-cons :
    (j : Json) (raw : Bytes) (e : Entry) (ts : List Bytes) (l : Log)
    → j.unmarshal raw ≡ some e
    → load j (raw ∷ ts) l ≡ load j ts (push l e)
unfolding load
load-cons j raw e ts l h = rw (h, load) refl

load_recent :
    (j : Json) (ps : List (Bytes × Entry)) (l : Log)
    → All (λ p. IsLine j p.1 p.0) ps
    → length l.recent ≤ keep
    → load j (map (λ p. p.0) ps) l
      ≡ record l { recent = last_n keep (l.recent ++ map (λ p. p.1) ps) }
unfolding load
load_recent j [] l h few =
    ap (λ es. record l { recent = es })
      (sym (ap (last_n keep) (append-nil l.recent) ∙ last_n-of_le keep l.recent few))
load_recent j ((raw, e) ∷ ps) l (is, h) few =
    load-cons j raw e (map (λ p. p.0) ps) l is.read
    ∙ load_recent j ps (push l e) h
        (omega (arith, ap length (push_recent l e), length-last_n keep (l.recent ++ (e ∷ []))))
    ∙ ap₂ (λ f es. record { file = f; recent = es }) (push_file l e)
        (ap (λ es. last_n keep (es ++ map (λ p. p.1) ps)) (push_recent l e)
          ∙ last_n-last_n keep (l.recent ++ (e ∷ [])) (map (λ p. p.1) ps)
          ∙ ap (last_n keep) (append_assoc l.recent (e ∷ []) (map (λ p. p.1) ps)))

append_of :
    (j : Json) (l : Log) (e : Entry) (raw : Bytes)
    → j.marshal e ≡ some raw
    → (append j l e true).1
      ≡ record { file = l.file ++ (raw ++ newline ∷ []); recent = (push l e).recent }
unfolding append push
append_of j l e raw h = rw (h, append) refl

append-Stores :
    (j : Json) (l : Log) (ps : List (Bytes × Entry)) (e : Entry) (raw : Bytes)
    → Stores j l ps
    → IsLine j e raw
    → Stores j (append j l e true).1 (ps ++ (raw, e) ∷ [])
append-Stores j l ps e raw s is =
    subst (λ k. Stores j k (ps ++ (raw, e) ∷ [])) (sym (append_of j l e raw is.written))
      (record {
        lines =
            complete-append l.file (raw ++ newline ∷ [])
            ∙ ap
                (λ p. (
                  p.0 ++ (complete (p.1 ++ (raw ++ newline ∷ []))).0,
                  (complete (p.1 ++ (raw ++ newline ∷ []))).1,
                ))
                s.lines
            ∙ ap (λ p. (map (λ q. q.0) ps ++ p.0, p.1)) (complete-line raw is.token.one_line)
            ∙ ap (λ ls. (ls, [])) (sym (map-append (λ q. q.0) ps ((raw, e) ∷ [])));
        each = All-append (λ p. IsLine j p.1 p.0) ps ((raw, e) ∷ []) s.each (is, tt);
        newest =
            push_recent l e
            ∙ ap (λ es. last_n keep (es ++ (e ∷ []))) s.newest
            ∙ last_n-last_n keep (map (λ q. q.1) ps) (e ∷ [])
            ∙ ap (last_n keep) (sym (map-append (λ q. q.1) ps ((raw, e) ∷ [])));
      })

append_all-Stores :
    (j : Json) (l : Log) (ps qs : List (Bytes × Entry))
    → Stores j l ps
    → All (λ p. IsLine j p.1 p.0) qs
    → Stores j (append_all j l (map (λ q. q.1) qs)) (ps ++ qs)
unfolding append_all
append_all-Stores j l ps [] s h = subst (Stores j l) (sym (append-nil ps)) s
append_all-Stores j l ps ((raw, e) ∷ qs) s (is, h) =
    subst (Stores j (append_all j (append j l e true).1 (map (λ q. q.1) qs)))
      (append_assoc ps ((raw, e) ∷ []) qs)
      (append_all-Stores j (append j l e true).1 (ps ++ (raw, e) ∷ []) qs
        (append-Stores j l ps e raw s is) h)

Stores-open_log :
    (j : Json) (l : Log) (ps : List (Bytes × Entry))
    → Stores j l ps
    → open_log j l.file true true ≡ some l
unfolding open_log all_lines
Stores-open_log j l ps s =
    ap
      (λ p.
        some (
          load j (tokens max_token (p.0 ++ last_line p.1)) (record { file = l.file; recent = [] })))
      s.lines
    ∙ ap (λ ts. some (load j ts (record { file = l.file; recent = [] })))
        (ap (tokens max_token) (append-nil (map (λ p. p.0) ps))
          ∙ tokens-IsToken max_token (map (λ p. p.0) ps) (lines-IsToken j ps s.each))
    ∙ ap some (load_recent j ps (record { file = l.file; recent = [] }) s.each (omega arith))
    ∙ ap (λ es. some (record { file = l.file; recent = es })) (sym s.newest)

abbrev pub empty_log : Log
empty_log = record { file = []; recent = [] }

-- A log that entries were written to, from an empty file on, is found again by `Open` as it was:
-- the same newest entries in the same order, where JSON gives each entry back from its line and
-- the line fits the scanner.
pub open_log-append_all :
    (j : Json) (ps : List (Bytes × Entry))
    → All (λ p. IsLine j p.1 p.0) ps
    → open_log j (append_all j empty_log (map (λ p. p.1) ps)).file true true
      ≡ some (append_all j empty_log (map (λ p. p.1) ps))
unfolding complete
open_log-append_all j ps h =
    Stores-open_log j (append_all j empty_log (map (λ p. p.1) ps)) ps
      (append_all-Stores j empty_log [] ps (record { lines = refl; each = tt; newest = refl }) h)
