-- ===== src/Pm2/Logs/Cap.antt =====
-- Cutting a line that is still being written makes no difference to the line that comes out.
use pc_monitor.Base.{
  ℕ, zero, suc, false, List, [], ◌∷◌, ◌++◌, map, Bytes, contains_byte, length, take, take-of_le,
  ltb, ◌==◌, ◌≡◌, refl, sym, ap, ◌∙◌, arith, Bool-cases, inl, inr,
}
use pc_monitor.Base.Lines.{newline, grow, complete}
use pc_monitor.Provider.CleanLine.{clean_line}
use pc_monitor.Pm2.Logs.{TextTools, max_log_line, cap_line, tidy_line}

cap_line-take : (b : Bytes) → cap_line b ≡ take max_log_line b
unfolding cap_line
cap_line-take b = elim (Bool-cases (ltb max_log_line (length b))) [
  | inl e ↦ rw e refl
  | inr e ↦ rw e (sym (take-of_le max_log_line b (ground arith)))
]

take-append-take : (n : ℕ) (r c : Bytes) → take n (take n r ++ c) ≡ take n (r ++ c)
take-append-take zero r c = refl
take-append-take (suc n) [] c = refl
take-append-take (suc n) (x ∷ r) c = ap (◌∷◌ x) (take-append-take n r c)

cap_line-append : (r c : Bytes) → cap_line (cap_line r ++ c) ≡ cap_line (r ++ c)
cap_line-append r c =
    cap_line-take (cap_line r ++ c)
    ∙ ap (λ s. take max_log_line (s ++ c)) (cap_line-take r)
    ∙ take-append-take max_log_line r c
    ∙ sym (cap_line-take (r ++ c))

contains_byte-take :
    (n : ℕ) (r : Bytes) → contains_byte newline r ≡ false → contains_byte newline (take n r) ≡ false
unfolding contains_byte
contains_byte-take zero r h = refl
contains_byte-take (suc n) [] h = refl
contains_byte-take (suc n) (x ∷ r) h = ground (arith, contains_byte-take n r)

contains_byte-cap_line :
    (r : Bytes) → contains_byte newline r ≡ false → contains_byte newline (cap_line r) ≡ false
contains_byte-cap_line r h =
    ap (contains_byte newline) (cap_line-take r) ∙ contains_byte-take max_log_line r h

-- A text without a newline in front of another goes to its first line.
abbrev on_front : Bytes → List Bytes × Bytes → List Bytes × Bytes
on_front r ([], rest) = ([], r ++ rest)
on_front r (l ∷ ls, rest) = ((r ++ l) ∷ ls, rest)

on_front-nil : (p : List Bytes × Bytes) → p ≡ on_front [] p
on_front-nil ([], rest) = refl
on_front-nil (l ∷ ls, rest) = refl

grow-on_front :
    (x : ℕ) (r : Bytes) (p : List Bytes × Bytes) → grow x (on_front r p) ≡ on_front (x ∷ r) p
grow-on_front x r ([], rest) = refl
grow-on_front x r (l ∷ ls, rest) = refl

complete-on_front :
    (r c : Bytes) → contains_byte newline r ≡ false → complete (r ++ c) ≡ on_front r (complete c)
unfolding complete contains_byte
complete-on_front [] c h = on_front-nil (complete c)
complete-on_front (x ∷ r) c h = elim (Bool-cases (x == newline)) [
  | inl e ↦ absurd (ground (arith, e))
  | inr e ↦
      rw e
        (ap (grow x) (complete-on_front r c (ground (arith, e))) ∙ grow-on_front x r (complete c))
]

contains_byte-grow :
    (x : ℕ) (p : List Bytes × Bytes)
    → (x == newline) ≡ false
    → contains_byte newline p.1 ≡ false
    → contains_byte newline (grow x p).1 ≡ false
unfolding contains_byte
contains_byte-grow x ([], rest) e h = rw e h
contains_byte-grow x (l ∷ ls, rest) e h = h

pub contains_byte-complete : (b : Bytes) → contains_byte newline (complete b).1 ≡ false
unfolding complete contains_byte
contains_byte-complete [] = refl
contains_byte-complete (x ∷ b) = elim (Bool-cases (x == newline)) [
  | inl e ↦ rw e (contains_byte-complete b)
  | inr e ↦ rw e (contains_byte-grow x (complete b) e (contains_byte-complete b))
]

tidy_line-cap : (t : TextTools) (r l : Bytes) → tidy_line t (cap_line r ++ l) ≡ tidy_line t (r ++ l)
unfolding tidy_line
tidy_line-cap t r l = ap (λ s. clean_line t.strip_ansi (t.to_valid_utf8 s)) (cap_line-append r l)

abbrev tidied : TextTools → List Bytes × Bytes → List Bytes × Bytes
tidied t p = (map (tidy_line t) p.0, cap_line p.1)

on_front-cap :
    (t : TextTools) (r : Bytes) (p : List Bytes × Bytes)
    → tidied t (on_front (cap_line r) p) ≡ tidied t (on_front r p)
on_front-cap t r ([], rest) = ap (λ s. ([], s)) (cap_line-append r rest)
on_front-cap t r (l ∷ ls, rest) =
    ap (λ s. (s ∷ map (tidy_line t) ls, cap_line rest)) (tidy_line-cap t r l)

-- The tidied lines, and the cut part left, of a text behind an unfinished line and behind that line
-- cut.
pub complete-cap_line :
    (t : TextTools) (r c : Bytes)
    → contains_byte newline r ≡ false
    → (map (tidy_line t) (complete (cap_line r ++ c)).0 ≡ map (tidy_line t) (complete (r ++ c)).0)
      × (cap_line (complete (cap_line r ++ c)).1 ≡ cap_line (complete (r ++ c)).1)
complete-cap_line t r c h =
    let whole : tidied t (complete (cap_line r ++ c)) ≡ tidied t (complete (r ++ c)) =
      ap (tidied t) (complete-on_front (cap_line r) c (contains_byte-cap_line r h))
      ∙ on_front-cap t r (complete c)
      ∙ ap (tidied t) (sym (complete-on_front r c h)) in
    (ap (λ p. p.0) whole, ap (λ p. p.1) whole)
