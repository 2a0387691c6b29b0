-- ===== src/Pm2/Rpc/Frames.antt =====
-- Frames are read back as they were written, and nothing larger than the limit is read.
use pc_monitor.Base.{
  ℕ, zero, suc, ◌+◌, ◌/◌, ◌%◌, ◌^◌, ◌≤◌, ◌<◌, Bool, true, false, if◌then◌else◌, List, [], ◌∷◌, ◌++◌,
  append_assoc, Bytes, length, All, ltb, ◌==◌, ==_iff, ◌≡◌, refl, subst, ap, ◌∙◌, arith, Bool-cases,
  Option-cases, inl, inr,
}
use pc_monitor.Base.Binary.{
  be32, u32_of, u32_of-be32, read_full, read_full-append, read_full-length,
}
use pc_monitor.Pm2.Rpc.{
  max_arg, encode_args, encode_frame, FrameResult, ok, err, with_arg, read_args, read_frame,
}
use Prim.Native.Nat.{bit_or}

length-be32 : (n : ℕ) → length (be32 n) ≡ 4
unfolding be32
length-be32 n = refl

-- A test that holds for each of the numbers below one.
holds_until : (ℕ → Bool) → ℕ → Bool
holds_until test zero = true
holds_until test (suc last) = if test last then holds_until test last else false

test_of-holds_until :
    (test : ℕ → Bool) (i count : ℕ) → i < count → holds_until test count ≡ true → test i ≡ true
unfolding holds_until
test_of-holds_until test i zero small h = absurd (omega arith)
test_of-holds_until test i (suc last) small h = ground (arith, test_of-holds_until test i last)

-- The header byte at every count of arguments that it can hold.
header_table : holds_until (λ n. bit_or 16 n % 256 == 16 + n) 16 ≡ true
unfolding holds_until
header_table = refl

header : (n : ℕ) → n < 16 → bit_or 16 n % 256 ≡ 16 + n
header n h =
    (==_iff (bit_or 16 n % 256) (16 + n)).0
      (test_of-holds_until (λ n. bit_or 16 n % 256 == 16 + n) n 16 h header_table)

read_args-cons :
    (k m : ℕ) (a t : Bytes)
    → length a ≡ m
    → m ≤ max_arg
    → read_args (suc k) (be32 m ++ (a ++ t)) ≡ with_arg a (read_args k t)
unfolding read_args
read_args-cons k m a t e h =
    rw (read_full-append 4 (be32 m) (a ++ t) (length-be32 m), read_args)
      (rw (u32_of-be32 m (omega arith)) (ground (arith, read_full-append m a t e)))

read_args-encode_args :
    (args : List Bytes) (rest : Bytes)
    → All (λ a. length a ≤ max_arg) args
    → read_args (length args) (encode_args args ++ rest) ≡ ok args rest
unfolding encode_args
read_args-encode_args [] rest h = unfold read_args in refl
read_args-encode_args (a ∷ args) rest h =
    ap (read_args (suc (length args))) (
      append_assoc (be32 (length a % 2 ^ 32)) (a ++ encode_args args) rest
      ∙ ap (λ t. be32 (length a % 2 ^ 32) ++ t) (append_assoc a (encode_args args) rest))
    ∙ read_args-cons (length args) (length a % 2 ^ 32) a (encode_args args ++ rest)
        (omega (arith, h.0)) (omega (arith, h.0))
    ∙ ap (with_arg a) (read_args-encode_args args rest h.1)

-- Reading a frame that was written gives its arguments back, and leaves the stream at its end: for
-- up to 15 arguments, each within the limit.
pub read_frame-encode_frame :
    (args : List Bytes) (rest : Bytes)
    → length args < 16
    → All (λ a. length a ≤ max_arg) args
    → read_frame (encode_frame args ++ rest) ≡ ok args rest
unfolding read_frame encode_frame
read_frame-encode_frame args rest n h =
    rw (header (length args) n) (ground (arith, read_args-encode_args args rest h))

-- What a successful read gives.
record Bounded (k : ℕ) (s : Bytes) (args : List Bytes) (rest : Bytes) : Type 0 where
  count : length args ≡ k
  small : All (λ a. length a ≤ max_arg) args
  shorter : length rest ≤ length s

abbrev IsBounded : ℕ → Bytes → FrameResult → Type 0
IsBounded k s (ok args rest) = Bounded k s args rest
IsBounded k s (err e) = Unit {0}

with_arg-IsBounded :
    (k : ℕ) (s t a : Bytes) (r : FrameResult)
    → length a ≤ max_arg
    → length t ≤ length s
    → IsBounded k t r
    → IsBounded (suc k) s (with_arg a r)
with_arg-IsBounded k s t a (ok args rest) small short b = record {
  count = ap suc b.count;
  small = (small, b.small);
  shorter = omega (arith, b.shorter);
}
with_arg-IsBounded k s t a (err e) small short b = tt

read_args-IsBounded : (k : ℕ) (s : Bytes) → IsBounded k s (read_args k s)
unfolding read_args
read_args-IsBounded zero s = record { count = refl; small = tt; shorter = omega arith }
read_args-IsBounded (suc k) s = elim (Option-cases (read_full 4 s)) [
  | inl e ↦ rw (e, read_args) tt
  | inr ((n, s1), e) ↦
      rw (e, read_args)
        (elim (Bool-cases (ltb max_arg (u32_of n))) [
          | inl big ↦ rw big tt
          | inr fits ↦ rw fits (elim (Option-cases (read_full (u32_of n) s1)) [
            | inl e2 ↦ ground (arith, e2)
            | inr ((a, s2), e2) ↦
                let (size_head, left_head) = read_full-length 4 s e in
                let (size_arg, left_arg) = read_full-length (u32_of n) s1 e2 in
                rw e2 (
                  with_arg-IsBounded k s s2 a (read_args k s2)
                    (not_over (u32_of n) (length a) fits size_arg)
                    (omega (arith, left_head, left_arg)) (read_args-IsBounded k s2))
          ])
        ])
]
  where
    not_over : (n k : ℕ) → ltb max_arg n ≡ false → k ≡ n → k ≤ max_arg
    not_over n k h e = ground arith

-- Whatever the daemon sends, a frame that is read has at most 15 arguments, none larger than the
-- limit, and the stream gets shorter.
pub read_frame_bounds :
    (s : Bytes) {args : List Bytes} {rest : Bytes}
    → read_frame s ≡ ok args rest
    → (length args < 16) × All (λ a. length a ≤ max_arg) args × (length rest < length s)
unfolding read_frame
read_frame_bounds [] h = cc
read_frame_bounds (head ∷ s) {args} {rest} h = elim (Bool-cases (head / 16 == 1)) [
  | inr e ↦ absurd (ground (arith, e))
  | inl e ↦
      let read : read_args (head % 16) s ≡ ok args rest = ground (arith, e) in
      let b = subst (IsBounded (head % 16) s) read (read_args-IsBounded (head % 16) s) in
      (omega (arith, b.count), b.small, omega (arith, b.shorter))
]
