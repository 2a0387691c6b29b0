-- ===== src/Base/Lines.antt =====
-- Cutting a byte stream into lines.
use pc_monitor.Base.{
  ℕ, ◌<◌, false, List, [], ◌∷◌, ◌++◌, none, some, Bytes, length, cut, ◌==◌, ◌≡◌, refl, ap, ◌∙◌,
  arith, if◌then◌else◌, Bool-cases, Option-cases, inl, inr, append_assoc,
}

abbrev pub newline : ℕ
newline = b'\n'

-- The finished lines at the front of a text, and the unfinished one at its end.
abbrev pub grow : ℕ → List Bytes × Bytes → List Bytes × Bytes
grow x ([], rest) = ([], x ∷ rest)
grow x (l ∷ ls, rest) = ((x ∷ l) ∷ ls, rest)

unfoldable pub complete : Bytes → List Bytes × Bytes
complete [] = ([], [])
complete (x ∷ xs) =
    if x == newline then ([] ∷ (complete xs).0, (complete xs).1) else grow x (complete xs)

-- What a chunk adds behind an unfinished line.
abbrev pub after_chunk : List Bytes × Bytes → Bytes → List Bytes × Bytes
after_chunk (ls, rest) b = (ls ++ (complete (rest ++ b)).0, (complete (rest ++ b)).1)

grow-after_chunk :
    (x : ℕ) (p : List Bytes × Bytes) (b : Bytes)
    → (x == newline) ≡ false
    → grow x (after_chunk p b) ≡ after_chunk (grow x p) b
unfolding complete
grow-after_chunk x ([], rest) b h = rw h
grow-after_chunk x (l ∷ ls, rest) b h = refl

-- Where a stream is cut into chunks makes no difference to its lines.
pub complete-append : (a b : Bytes) → complete (a ++ b) ≡ after_chunk (complete a) b
unfolding complete
complete-append [] b = refl
complete-append (x ∷ a) b = elim (Bool-cases (x == newline)) [
  | inl e ↦ rw e (ap (λ p. ([] ∷ p.0, p.1)) (complete-append a b))
  | inr e ↦ rw e (ap (grow x) (complete-append a b) ∙ grow-after_chunk x (complete a) b e)
]

-- The first line of a text, by `cut`.
pub complete-cut-none : (b : Bytes) → cut newline b ≡ none → complete b ≡ ([], b)
unfolding complete cut
complete-cut-none [] h = refl
complete-cut-none (x ∷ b) h = elim (Bool-cases (x == newline)) [
  | inl e ↦ absurd (ground (arith, e))
  | inr e ↦ rw e (ap (grow x) (complete-cut-none b (ground (arith, e))))
]

pub complete-cut-some :
    (b : Bytes) {l r : Bytes}
    → cut newline b ≡ some (l, r)
    → (complete b ≡ (l ∷ (complete r).0, (complete r).1)) × (length r < length b)
unfolding complete cut
complete-cut-some [] h = cc
complete-cut-some (x ∷ b) {l} {r} h = elim (Bool-cases (x == newline)) [
  | inl e ↦ ground (arith, e)
  | inr e ↦ elim (Option-cases (cut newline b)) [
    | inl c ↦ absurd (ground (arith, e, c))
    | inr (p, c) ↦ ground (arith, e, c, complete-cut-some b {l = p.0} {r = p.1} c)
  ]
]

-- What is left behind the last newline has no newline.
grow-rest :
    (x : ℕ) (p : List Bytes × Bytes)
    → (x == newline) ≡ false
    → complete p.1 ≡ ([], p.1)
    → complete (grow x p).1 ≡ ([], (grow x p).1)
unfolding complete
grow-rest x ([], rest) h e = rw h (ap (grow x) e)
grow-rest x (l ∷ ls, rest) h e = e

pub complete-rest : (b : Bytes) → complete (complete b).1 ≡ ([], (complete b).1)
unfolding complete
complete-rest [] = refl
complete-rest (x ∷ b) = elim (Bool-cases (x == newline)) [
  | inl e ↦ rw e (complete-rest b)
  | inr e ↦ rw e (grow-rest x (complete b) e (complete-rest b))
]

-- A last line that was not finished.
abbrev pub last_line : Bytes → List Bytes
last_line [] = []
last_line (c ∷ r) = (c ∷ r) ∷ []

-- All lines of a text, a last one without a newline too.
unfoldable pub all_lines : Bytes → List Bytes
all_lines b = (complete b).0 ++ last_line (complete b).1

pub all_lines-append :
    (a b : Bytes) → all_lines (a ++ b) ≡ (complete a).0 ++ all_lines ((complete a).1 ++ b)
unfolding all_lines
all_lines-append a b =
    ap (λ p. p.0 ++ last_line p.1) (complete-append a b)
    ∙ append_assoc (complete a).0 (complete ((complete a).1 ++ b)).0 _

pub all_lines_unfinished : (b : Bytes) → complete b ≡ ([], b) → all_lines b ≡ last_line b
unfolding all_lines
all_lines_unfinished b h = ap (λ p. p.0 ++ last_line p.1) h
