-- ===== src/Base/Decimal.antt =====
-- `strconv.Itoa`, `%d` and its scanning, on numbers that are not negative.
use Prim.Native.Nat.{ℕ, zero, suc, ◌+◌, ◌-◌, ◌*◌, ◌/◌, ◌%◌, ◌<◌}
use mathlib.Core.Path.{◌≡◌, refl, sym, ap, ◌∙◌}
use mathlib.Core.Logic.{◌≢◌, inl, inr}
use mathlib.Core.Bool.{Bool, true, false, ◌&&◌}
use mathlib.Core.List.{[], ◌∷◌, ◌++◌}
use native.Mathlib.Omega.{arith}
use pc_monitor.Base.Tests.{ltb, leb, if◌then◌else◌, Bool-cases}
use pc_monitor.Base.Lists.{All, All-append}
use pc_monitor.Base.Text.{Bytes}

-- The digits of a number below the fuel; `value-decimal` shows that `suc n` is enough for `n`.
unfoldable pub decimal_fuel : ℕ → ℕ → Bytes
decimal_fuel zero n = []
decimal_fuel (suc f) n =
    let more : Bytes = decimal_fuel f (n / 10) ++ ((b'0' + n % 10) ∷ []) in
    if ltb n 10 then (b'0' + n) ∷ [] else more

unfoldable pub decimal : ℕ → Bytes
decimal n = decimal_fuel (suc n) n

abbrev pub is_digit : ℕ → Bool
is_digit c = leb b'0' c && leb c b'9'

-- The number that a row of digits stands for, behind the digits already read.
unfoldable pub value : ℕ → Bytes → ℕ
value acc [] = acc
value acc (c ∷ cs) = value (acc * 10 + (c - b'0')) cs

value-concat :
    (acc : ℕ) (s : Bytes) (c : ℕ) → value acc (s ++ (c ∷ [])) ≡ value acc s * 10 + (c - b'0')
unfolding value
value-concat acc [] c = refl
value-concat acc (x ∷ s) c = value-concat (acc * 10 + (x - b'0')) s c

value-decimal_fuel : (f n : ℕ) → n < f → value 0 (decimal_fuel f n) ≡ n
unfolding decimal_fuel value
value-decimal_fuel zero n h = elim h [ ]
value-decimal_fuel (suc f) n h = elim (Bool-cases (ltb n 10)) [
  | inl e ↦ rw e (omega arith)
  | inr e ↦ rw e (
      value-concat 0 (decimal_fuel f (n / 10)) (b'0' + n % 10)
      ∙ digit_back n (value-decimal_fuel f (n / 10) (shrinks e)))
]
  where
    digit_back : (n : ℕ) {v : ℕ} → v ≡ n / 10 → v * 10 + (b'0' + n % 10 - b'0') ≡ n
    digit_back n e = omega arith

    shrinks : ltb n 10 ≡ false → n / 10 < f
    shrinks e = ground arith

-- Reading back what was printed gives the number.
pub value-decimal : (n : ℕ) → value 0 (decimal n) ≡ n
unfolding decimal
value-decimal n = value-decimal_fuel (suc n) n (omega arith)

pub decimal-injective : (m n : ℕ) → decimal m ≡ decimal n → m ≡ n
decimal-injective m n e = sym (value-decimal m) ∙ ap (value 0) e ∙ value-decimal n

decimal_fuel-digits : (f n : ℕ) → All (λ c. is_digit c ≡ true) (decimal_fuel f n)
unfolding decimal_fuel
decimal_fuel-digits zero n = tt
decimal_fuel-digits (suc f) n = elim (Bool-cases (ltb n 10)) [
  | inl e ↦ rw e (ground arith, tt)
  | inr e ↦ rw e (
      All-append (λ c. is_digit c ≡ true) (decimal_fuel f (n / 10)) ((b'0' + n % 10) ∷ [])
        (decimal_fuel-digits f (n / 10)) (ground arith, tt))
]

pub decimal-digits : (n : ℕ) → All (λ c. is_digit c ≡ true) (decimal n)
unfolding decimal
decimal-digits n = decimal_fuel-digits (suc n) n

append-concat-ne-nil : (s : Bytes) (c : ℕ) → s ++ (c ∷ []) ≢ []
append-concat-ne-nil [] c = λ e. cc
append-concat-ne-nil (x ∷ s) c = λ e. cc

pub decimal-ne-nil : (n : ℕ) → decimal n ≢ []
unfolding decimal decimal_fuel
decimal-ne-nil n = elim (Bool-cases (ltb n 10)) [
  | inl e ↦ rw e (λ p. cc)
  | inr e ↦ rw e (append-concat-ne-nil _ _)
]

-- The longest row of digits at the front, and the rest.
unfoldable pub span_digits : Bytes → Bytes × Bytes
span_digits [] = ([], [])
span_digits (c ∷ s) =
    let (ds, rest) = span_digits s in if is_digit c then (c ∷ ds, rest) else ([], c ∷ s)

abbrev pub StartsNoDigit : Bytes → Type 0
StartsNoDigit [] = Unit {0}
StartsNoDigit (c ∷ s) = is_digit c ≡ false

pub span_digits-append :
    (ds rest : Bytes)
    → All (λ c. is_digit c ≡ true) ds
    → StartsNoDigit rest
    → span_digits (ds ++ rest) ≡ (ds, rest)
unfolding span_digits
span_digits-append [] [] h n = refl
span_digits-append [] (c ∷ rest) h n = ground arith
span_digits-append (d ∷ ds) rest h n = ground (arith, span_digits-append ds rest h.1 n)
