-- ===== src/Pm2/Logs/Split.antt =====
-- The code cuts at the last newline and splits; the lines are those of `complete`.
use pc_monitor.Base.{
  ℕ, List, [], ◌∷◌, map, none, some, Bytes, cut_last, split, trim_suffix, ◌==◌, ◌≡◌, ◌≢◌, refl, sym,
  ap, ap₂, ◌∙◌, arith, Bool-cases, Option-cases, inl, inr, subst, ◌⊎◌,
}
use pc_monitor.Base.Lines.{newline, grow, complete}
use pc_monitor.Pm2.Logs.{
  TextTools, LogFile, cap_line, tidy_line, split_lines, cut_lines, take_lines,
}

pub complete-cut_last-none : (b : Bytes) → cut_last newline b ≡ none → complete b ≡ ([], b)
unfolding complete cut_last
complete-cut_last-none [] h = refl
complete-cut_last-none (x ∷ b) h = elim (Option-cases (cut_last newline b)) [
  | inl e ↦ elim (Bool-cases (x == newline)) [
    | inl is ↦ absurd (ground (arith, e, is))
    | inr other ↦ rw other (ap (grow x) (complete-cut_last-none b e))
  ]
  | inr (p, e) ↦ absurd (ground (arith, e))
]

-- What stands before the last newline, split as the code splits it.
record CutsLines (b front rest : Bytes) : Type 0 where
  lines : split newline (trim_suffix newline front) ≡ (complete b).0
  left : rest ≡ (complete b).1
  some_front : front ≢ []

split-some : (s : Bytes) → (l : Bytes) × (ls : List Bytes) × (split newline s ≡ l ∷ ls)
unfolding split
split-some [] = ([], [], refl)
split-some (x ∷ s) = elim (Bool-cases (x == newline)) [
  | inl e ↦ ([], split newline s, rw e refl)
  | inr e ↦ let (l, ls, same) = split-some s in (x ∷ l, ls, rw (e, same) refl)
]

trim_suffix-cons :
    (x : ℕ) (s : Bytes) → s ≢ [] → trim_suffix newline (x ∷ s) ≡ x ∷ trim_suffix newline s
unfolding trim_suffix
trim_suffix-cons x [] h = absurd (h refl)
trim_suffix-cons x (y ∷ s) h = refl

grow_some :
    (x : ℕ) (p : List Bytes × Bytes) (l : Bytes) (ls : List Bytes)
    → p.0 ≡ l ∷ ls
    → grow x p ≡ ((x ∷ l) ∷ ls, p.1)
grow_some x ([], rest) l ls h = absurd (ground arith)
grow_some x (m ∷ ms, rest) l ls h = ap (λ q. grow x (q, rest)) h

complete-cons_split :
    (x : ℕ) (s b : Bytes)
    → split newline s ≡ (complete b).0
    → (split newline (x ∷ s) ≡ (complete (x ∷ b)).0) × ((complete b).1 ≡ (complete (x ∷ b)).1)
unfolding split complete
complete-cons_split x s b h = elim (Bool-cases (x == newline)) [
  | inl e ↦ rw e (ap (◌∷◌ []) h, refl)
  | inr e ↦
      let (l, ls, same) = split-some s in
      rw (e, same, grow_some x (complete b) l ls (sym h ∙ same)) (refl, refl)
]

cons-CutsLines :
    (x : ℕ) (b front rest : Bytes) → CutsLines b front rest → CutsLines (x ∷ b) (x ∷ front) rest
cons-CutsLines x b front rest c =
    let (same, end) = complete-cons_split x (trim_suffix newline front) b c.lines in
    record {
      lines = ap (split newline) (trim_suffix-cons x front c.some_front) ∙ same;
      left = c.left ∙ end;
      some_front = λ e. cc;
    }

end-CutsLines : (b : Bytes) → complete b ≡ ([], b) → CutsLines (newline ∷ b) (newline ∷ []) b
unfolding complete split trim_suffix
end-CutsLines b h = record {
  lines = ap (λ p. [] ∷ p.0) (sym h);
  left = ap (λ p. p.1) (sym h);
  some_front = λ e. cc;
}

cut_last-cases :
    (x : ℕ) (b : Bytes) {front rest : Bytes}
    → cut_last newline (x ∷ b) ≡ some (front, rest)
    → ((p : Bytes × Bytes) × (cut_last newline b ≡ some p) × (front ≡ x ∷ p.0) × (rest ≡ p.1))
      ⊎ ((cut_last newline b ≡ none) × (x ≡ newline) × (front ≡ newline ∷ []) × (rest ≡ b))
unfolding cut_last
cut_last-cases x b h = elim (Option-cases (cut_last newline b)) [
  | inr (p, e) ↦ inl (p, e, ground (arith, e), ground (arith, e))
  | inl e ↦ elim (Bool-cases (x == newline)) [
    | inl is ↦ inr (e, ground (arith, is), ground (arith, e, is), ground (arith, e, is))
    | inr other ↦ absurd (ground (arith, e, other))
  ]
]

cut_last-CutsLines :
    (b : Bytes) {front rest : Bytes}
    → cut_last newline b ≡ some (front, rest)
    → CutsLines b front rest
cut_last-CutsLines [] h = absurd (unfold cut_last in ground arith)
cut_last-CutsLines (x ∷ b) {front} {rest} h = elim (cut_last-cases x b h) [
  | inl (p, e, f, r) ↦
      let c = cons-CutsLines x b p.0 p.1 (cut_last-CutsLines b e) in
      subst (λ q. CutsLines (x ∷ b) q rest) (sym f) (subst (CutsLines (x ∷ b) (x ∷ p.0)) (sym r) c)
  | inr (e, is, f, r) ↦
      let c = end-CutsLines b (complete-cut_last-none b e) in
      subst (λ y. CutsLines (y ∷ b) front rest) (sym is)
        (subst (λ q. CutsLines (newline ∷ b) q rest) (sym f)
          (subst (CutsLines (newline ∷ b) (newline ∷ [])) (sym r) c))
]

split_lines-some :
    (t : TextTools) (front : Bytes)
    → front ≢ []
    → split_lines t front ≡ map (tidy_line t) (split newline (trim_suffix newline front))
unfolding split_lines
split_lines-some t [] h = absurd (h refl)
split_lines-some t (c ∷ front) h = refl

-- The lines that a read finishes, and the part it leaves, are those of the text, a line being
-- what ends with a newline.
pub take_lines-complete :
    (t : TextTools) (f : LogFile) (buf : Bytes)
    → take_lines t f buf
      ≡ (map (tidy_line t) (complete buf).0, record f { partial = cap_line (complete buf).1 })
unfolding take_lines
take_lines-complete t f buf = elim (Option-cases (cut_last newline buf)) [
  | inl e ↦
      rw (e, take_lines)
        (ap (λ p. (map (tidy_line t) p.0, record f { partial = cap_line p.1 }))
          (sym (complete-cut_last-none buf e)))
  | inr ((front, rest), e) ↦
      let c = cut_last-CutsLines buf e in
      rw (e, take_lines)
        (ap₂ (λ ls r. (ls, record f { partial = cap_line r }))
          (split_lines-some t front c.some_front ∙ ap (map (tidy_line t)) c.lines) c.left)
]

split_lines_none : (t : TextTools) → split_lines t [] ≡ []
unfolding split_lines
split_lines_none t = refl

-- The same at the first look into a file.
pub cut_lines-complete :
    (t : TextTools) (buf : Bytes)
    → (split_lines t (cut_lines buf).0 ≡ map (tidy_line t) (complete buf).0)
      × ((cut_lines buf).1 ≡ (complete buf).1)
unfolding cut_lines
cut_lines-complete t buf = elim (Option-cases (cut_last newline buf)) [
  | inl e ↦ rw (e, cut_lines, complete-cut_last-none buf e) (split_lines_none t, refl)
  | inr ((front, rest), e) ↦
      let c = cut_last-CutsLines buf e in
      rw (e, cut_lines)
        (split_lines-some t front c.some_front ∙ ap (map (tidy_line t)) c.lines, c.left)
]
