-- ===== src/Base/Binary.antt =====
-- Big-endian 32-bit words, as `encoding/binary` writes and reads them, and `io.ReadFull` on a
-- stream that is all there: a list of bytes up to the end of the stream.
use pc_monitor.Base.{
  ℕ, ◌+◌, ◌-◌, ◌*◌, ◌/◌, ◌%◌, ◌^◌, ◌≤◌, ◌<◌, [], ◌∷◌, ◌++◌, Option, none, some, Bytes, length, take,
  drop, take-append_self, drop-append_self, length-append, length-take, length-drop, min, sym, ltb,
  ◌≡◌, ap, ◌∙◌, arith, if◌then◌else◌, Bool-cases, inl, inr,
}

unfoldable pub be32 : ℕ → Bytes
be32 n = n / 2 ^ 24 % 256 ∷ n / 2 ^ 16 % 256 ∷ n / 2 ^ 8 % 256 ∷ n % 256 ∷ []

-- The number in the first four bytes.
unfoldable pub u32_of : Bytes → ℕ
u32_of (a ∷ b ∷ c ∷ d ∷ rest) = a * 2 ^ 24 + b * 2 ^ 16 + c * 2 ^ 8 + d
u32_of _ = 0

pub u32_of-be32 : (n : ℕ) → n < 2 ^ 32 → u32_of (be32 n) ≡ n
unfolding u32_of be32
u32_of-be32 n h = omega arith

-- `io.ReadFull(r, buf)` with `len(buf) = n`: what was read and what is left, or an error where
-- the stream ends before.
unfoldable pub read_full : ℕ → Bytes → Option (Bytes × Bytes)
read_full n s = if ltb (length s) n then none else some (take n s, drop n s)

pub read_full-append : (n : ℕ) (a b : Bytes) → length a ≡ n → read_full n (a ++ b) ≡ some (a, b)
unfolding read_full
read_full-append n a b h = ground (
  arith,
  length-append a b,
  ap (λ k. take k (a ++ b)) h,
  ap (λ k. drop k (a ++ b)) h,
  take-append_self a b,
  drop-append_self a b,
)

-- A read takes its bytes from the front of the stream.
pub read_full-length :
    (n : ℕ) (s : Bytes) {a b : Bytes}
    → read_full n s ≡ some (a, b)
    → (length a ≡ n) × (length s ≡ n + length b)
unfolding read_full
read_full-length n s {a} {b} h = elim (Bool-cases (ltb (length s) n)) [
  | inl e ↦ absurd (ground (arith, e))
  | inr e ↦
      let taken : take n s ≡ a = ground (arith, e) in
      let left : drop n s ≡ b = ground (arith, e) in
      let long : n ≤ length s = ground (arith, e) in
      (
        ap length (sym taken) ∙ length-take n s ∙ least n (length s) long,
        sym (left_over n (length s) long (ap length (sym left) ∙ length-drop n s)),
      )
]
  where
    least : (n k : ℕ) → n ≤ k → min n k ≡ n
    least n k h = omega arith

    left_over : (n k : ℕ) {j : ℕ} → n ≤ k → j ≡ k - n → n + j ≡ k
    left_over n k h e = omega arith
