-- ===== src/Base/Text.antt =====
-- Go strings and byte slices as lists of bytes, with what the code uses of `strings` and `bytes`.
use Prim.Native.Nat.{ℕ}
use Prim.Native.Char.{code}
use Prim.Native.String.{String}
use mathlib.Core.Path.{◌≡◌, refl}
use mathlib.Core.Logic.{◌≢◌, ◌↔◌, inl, inr}
use mathlib.Core.Bool.{Bool, true, false, ◌&&◌}
use mathlib.Core.Option.{Option, none, some}
use mathlib.Core.List.{List, [], ◌∷◌, ◌++◌}
use native.Mathlib.Omega.{arith}
use pc_monitor.Base.Tests.{◌==◌, if◌then◌else◌, Option-cases}

abbrev pub Bytes : Type 0
Bytes = List ℕ

-- The code points of a text: its bytes, if it is ASCII. `String` has its own `[]` and `∷`.
abbrev pub codes : String → Bytes
codes String.[] = []
codes (String.◌∷◌ c s) = code c ∷ codes s

-- `==` on strings, `bytes.Equal`
unfoldable pub bytes_eq : Bytes → Bytes → Bool
bytes_eq [] [] = true
bytes_eq (x ∷ xs) (y ∷ ys) = x == y && bytes_eq xs ys
bytes_eq _ _ = false

pub bytes_eq_iff : (a b : Bytes) → (bytes_eq a b ≡ true) ↔ (a ≡ b)
unfolding bytes_eq
bytes_eq_iff [] [] = ground arith
bytes_eq_iff (x ∷ a) (y ∷ b) = ground (arith, bytes_eq_iff a b)
bytes_eq_iff _ _ = ground arith

pub bytes_eq_refl : (a : Bytes) → bytes_eq a a ≡ true
bytes_eq_refl a = (bytes_eq_iff a a).1 refl

pub bytes_eq_ne : (a b : Bytes) → a ≢ b → bytes_eq a b ≡ false
bytes_eq_ne a b h = ground (arith, bytes_eq_iff a b)

pub bytes_eq_sym : (a b : Bytes) → bytes_eq a b ≡ bytes_eq b a
bytes_eq_sym a b = ground (arith, bytes_eq_iff a b, bytes_eq_iff b a)

-- `slices.Contains` on a list of strings
unfoldable pub member : Bytes → List Bytes → Bool
member k [] = false
member k (x ∷ xs) = if bytes_eq x k then true else member k xs

-- `strings.Contains(s, "<c>")` for one byte
unfoldable pub contains_byte : ℕ → Bytes → Bool
contains_byte c [] = false
contains_byte c (x ∷ xs) = if x == c then true else contains_byte c xs

-- `strings.Cut(s, "<c>")`: `none` where the separator does not occur
unfoldable pub cut : ℕ → Bytes → Option (Bytes × Bytes)
cut c [] = none
cut c (x ∷ xs) =
    if x == c then some ([], xs) else elim (cut c xs) [ none ↦ none | some p ↦ some (x ∷ p.0, p.1) ]

-- `strings.CutPrefix`
unfoldable pub cut_prefix : Bytes → Bytes → Option Bytes
cut_prefix [] s = some s
cut_prefix (p ∷ ps) [] = none
cut_prefix (p ∷ ps) (x ∷ xs) = if x == p then cut_prefix ps xs else none

-- `bytes.Split(b, "<c>")`: always at least one piece
abbrev on_first : ℕ → List Bytes → List Bytes
on_first x [] = (x ∷ []) ∷ []
on_first x (p ∷ ps) = (x ∷ p) ∷ ps

unfoldable pub split : ℕ → Bytes → List Bytes
split c [] = [] ∷ []
split c (x ∷ xs) = if x == c then [] ∷ split c xs else on_first x (split c xs)

-- `strings.Join`
unfoldable pub join : Bytes → List Bytes → Bytes
join sep [] = []
join sep (x ∷ []) = x
join sep (x ∷ y ∷ xs) = x ++ (sep ++ join sep (y ∷ xs))

-- `bytes.LastIndexByte(b, c)` as the pieces on its two sides: up to and with the last `c`, and
-- what follows it.
unfoldable pub cut_last : ℕ → Bytes → Option (Bytes × Bytes)
cut_last c [] = none
cut_last c (x ∷ xs) = elim (cut_last c xs) [
  | some p ↦ some (x ∷ p.0, p.1)
  | none ↦ if x == c then some (x ∷ [], xs) else none
]

pub cut-append :
    (c : ℕ) (s t : Bytes) → contains_byte c s ≡ false → cut c (s ++ c ∷ t) ≡ some (s, t)
unfolding cut contains_byte
cut-append c [] t h = ground arith
cut-append c (x ∷ s) t h = ground (arith, cut-append c s t)

-- What `cut` returns is the text before the first separator and the text after it.
pub cut-eq-some :
    (c : ℕ) (s : Bytes) {a b : Bytes}
    → cut c s ≡ some (a, b)
    → (s ≡ a ++ c ∷ b) × (contains_byte c a ≡ false)
unfolding cut contains_byte
cut-eq-some c [] h = cc
cut-eq-some c (x ∷ s) h = elim (Option-cases (cut c s)) [
  | inl e ↦ ground (arith, e)
  | inr (p, e) ↦ ground (arith, e, cut-eq-some c s e)
]

pub split-append :
    (c : ℕ) (s t : Bytes) → contains_byte c s ≡ false → split c (s ++ c ∷ t) ≡ s ∷ split c t
unfolding split contains_byte
split-append c [] t h = ground arith
split-append c (x ∷ s) t h = ground (arith, split-append c s t)

pub split_whole : (c : ℕ) (s : Bytes) → contains_byte c s ≡ false → split c s ≡ s ∷ []
unfolding split contains_byte
split_whole c [] h = refl
split_whole c (x ∷ s) h = ground (arith, split_whole c s)

-- `bytes.TrimSuffix(b, "<c>")`
unfoldable pub trim_suffix : ℕ → Bytes → Bytes
trim_suffix c [] = []
trim_suffix c (x ∷ []) = if x == c then [] else x ∷ []
trim_suffix c (x ∷ y ∷ s) = x ∷ trim_suffix c (y ∷ s)
