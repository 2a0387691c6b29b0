-- ===== src/Audit/Newest.antt =====
-- What `Recent` copies out.
use pc_monitor.Base.{
  ℕ, zero, suc, ◌+◌, ◌-◌, ◌<◌, ◌≤◌, List, [], ◌∷◌, ◌++◌, reverse, length, length-append, get_or,
  take, min, some, ◌≡◌, refl, sym, ap, ap₂, ◌∙◌, arith,
}
use mathlib.Core.List.{reverse-cons, reverse-reverse}
use pc_monitor.Base.Int.{pos}
use pc_monitor.Audit.{Entry, blank_entry, Log, newest, recent_entries}

get_or-append-left :
    (xs ys : List Entry) (i : ℕ)
    → i < length xs
    → get_or (xs ++ ys) i blank_entry ≡ get_or xs i blank_entry
get_or-append-left [] ys i h = absurd (omega arith)
get_or-append-left (x ∷ xs) ys zero h = refl
get_or-append-left (x ∷ xs) ys (suc i) h = get_or-append-left xs ys i (omega arith)

get_or-append-end :
    (xs : List Entry) (e : Entry) → get_or (xs ++ e ∷ []) (length xs) blank_entry ≡ e
get_or-append-end [] e = refl
get_or-append-end (x ∷ xs) e = get_or-append-end xs e

newest-append :
    (es : List Entry) (e : Entry) (i k : ℕ)
    → i + k ≤ length es
    → newest (es ++ e ∷ []) (suc i) k ≡ newest es i k
unfolding newest
newest-append es e i zero h = refl
newest-append es e i (suc k) h =
    ap₂ ◌∷◌
      (ap (λ n. get_or (es ++ e ∷ []) n blank_entry)
          (omega (arith, length-append es (e ∷ [])) ∙ refl {a = length es - 1 - i})
        ∙ get_or-append-left es (e ∷ []) (length es - 1 - i) (omega arith))
      (newest-append es e (suc i) k (omega arith))

length-reverse : (es : List Entry) → length (reverse es) ≡ length es
length-reverse [] = refl
length-reverse (e ∷ es) =
    ap length (reverse-cons e es)
    ∙ length-append (reverse es) (e ∷ [])
    ∙ ap (λ n. n + 1) (length-reverse es)
    ∙ omega arith

newest-end :
    (es : List Entry) (e : Entry) (k : ℕ)
    → k ≤ length es
    → newest (es ++ e ∷ []) 0 (suc k) ≡ e ∷ newest es 0 k
unfolding newest
newest-end es e k h =
    ap₂ ◌∷◌
      (ap (λ n. get_or (es ++ e ∷ []) n blank_entry) {x = length (es ++ e ∷ []) - 1 - 0}
          {y = length es} (omega (arith, length-append es (e ∷ [])))
        ∙ get_or-append-end es e)
      (newest-append es e 0 k (omega arith))

newest-reverse : (es : List Entry) (k : ℕ) → k ≤ length es → newest (reverse es) 0 k ≡ take k es
unfolding newest
newest-reverse es zero h = refl
newest-reverse [] (suc k) h = absurd (omega arith)
newest-reverse (e ∷ es) (suc k) h =
    ap (λ xs. newest xs 0 (suc k)) (reverse-cons e es)
    ∙ newest-end (reverse es) e k (omega (arith, length-reverse es))
    ∙ ap (◌∷◌ e) (newest-reverse es k (omega arith))

take-min : (n : ℕ) (es : List Entry) → take (min n (length es)) es ≡ take n es
take-min zero es = ap (λ m. take m es) {x = min 0 (length es)} {y = 0} (omega arith)
take-min (suc n) [] = ap (λ m. take m []) {x = min (suc n) 0} {y = 0} (omega arith)
take-min (suc n) (e ∷ es) =
    ap (λ m. take m (e ∷ es)) {x = min (suc n) (suc (length es))} {y = suc (min n (length es))}
      (omega arith)
    ∙ ap (◌∷◌ e) (take-min n es)

-- `Recent(n)` gives the entries kept in memory from the newest on, `n` of them or all if there are
-- fewer.
pub recent_entries-reverse :
    (l : Log) (n : ℕ) → recent_entries l (pos n) ≡ some (take n (reverse l.recent))
unfolding recent_entries
recent_entries-reverse l n = ap some (
    ap (λ xs. newest xs 0 (min n (length l.recent))) (sym (reverse-reverse l.recent))
    ∙ newest-reverse (reverse l.recent) (min n (length l.recent))
        (omega (arith, length-reverse l.recent))
    ∙ ap (λ m. take (min n m) (reverse l.recent)) (sym (length-reverse l.recent))
    ∙ take-min n (reverse l.recent))
