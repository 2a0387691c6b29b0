-- ===== src/Auth/Limiter/Window.antt =====
-- Lists of times, oldest first, and the part of one that a sliding window shows.
use pc_monitor.Base.{
  ℕ, ◌≤◌, List, [], ◌∷◌, ◌++◌, ◌≡◌, refl, leb, ltb, arith, keep_if, All, All-append, Bool-cases,
  inl, inr,
}
use pc_monitor.Auth.Limiter.{prune}

-- The times at or after the cutoff.
abbrev pub recent : ℕ → List ℕ → List ℕ
recent cutoff ts = keep_if (leb cutoff) ts

-- Times in the order in which they were recorded.
abbrev pub IsOrdered : List ℕ → Type 0
IsOrdered [] = Unit {0}
IsOrdered (t ∷ ts) = All (λ u. t ≤ u) ts × IsOrdered ts

All-recent : (c : ℕ) (ts : List ℕ) → All (λ u. c ≤ u) ts → recent c ts ≡ ts
unfolding keep_if
All-recent c [] h = refl
All-recent c (t ∷ ts) h = ground (arith, All-recent c ts h.1)

All-weaken : (a b : ℕ) (ts : List ℕ) → a ≤ b → All (λ u. b ≤ u) ts → All (λ u. a ≤ u) ts
All-weaken a b [] h p = p
All-weaken a b (t ∷ ts) h p = (omega arith, All-weaken a b ts h p.1)

-- On ordered times, dropping the old ones at the front drops all that are old.
pub prune-recent : (c : ℕ) (ts : List ℕ) → IsOrdered ts → prune ts c ≡ recent c ts
unfolding prune keep_if
prune-recent c [] o = refl
prune-recent c (t ∷ ts) o = elim (Bool-cases (ltb t c)) [
  | inl e ↦ ground (arith, prune-recent c ts o.1)
  | inr e ↦ ground (arith, All-recent c ts (All-weaken c t ts (ground arith) o.0))
]

pub prune-IsOrdered : (c : ℕ) (ts : List ℕ) → IsOrdered ts → IsOrdered (prune ts c)
unfolding prune
prune-IsOrdered c [] o = o
prune-IsOrdered c (t ∷ ts) o = elim (Bool-cases (ltb t c)) [
  | inl e ↦ rw e (prune-IsOrdered c ts o.1)
  | inr e ↦ rw e o
]

pub prune-All : (P : ℕ → Type 0) (c : ℕ) (ts : List ℕ) → All P ts → All P (prune ts c)
unfolding prune
prune-All P c [] h = h
prune-All P c (t ∷ ts) h = elim (Bool-cases (ltb t c)) [
  | inl e ↦ rw e (prune-All P c ts h.1)
  | inr e ↦ rw e h
]

-- A later cutoff shows no more than an earlier one left.
pub recent-recent : (c d : ℕ) (ts : List ℕ) → c ≤ d → recent d (recent c ts) ≡ recent d ts
unfolding keep_if
recent-recent c d [] h = refl
recent-recent c d (t ∷ ts) h = ground (arith, recent-recent c d ts h)

pub recent-append : (c : ℕ) (xs ys : List ℕ) → recent c (xs ++ ys) ≡ recent c xs ++ recent c ys
unfolding keep_if
recent-append c [] ys = refl
recent-append c (x ∷ xs) ys = ground (arith, recent-append c xs ys)

-- A new time, no earlier than the others, goes to the end.
pub IsOrdered-append :
    (ts : List ℕ) (now : ℕ) → All (λ u. u ≤ now) ts → IsOrdered ts → IsOrdered (ts ++ (now ∷ []))
IsOrdered-append [] now h o = (tt, tt)
IsOrdered-append (t ∷ ts) now h o =
    (All-append (λ u. t ≤ u) ts (now ∷ []) o.0 (h.0, tt), IsOrdered-append ts now h.1 o.1)

pub All-le : (a b : ℕ) (ts : List ℕ) → a ≤ b → All (λ u. u ≤ a) ts → All (λ u. u ≤ b) ts
All-le a b [] h p = p
All-le a b (t ∷ ts) h p = (omega arith, All-le a b ts h p.1)
