-- ===== src/Auth/Totp.antt =====
-- agent/internal/auth/totp.go: RFC 6238 codes, and the match that absorbs clock drift.
-- Times are in seconds since 1970. A step is a signed number, as `cur - 1` is -1 in the first
-- period. Texts are ASCII.
pub mod Match
use pc_monitor.Base.{
  ℕ, zero, suc, ◌+◌, ◌-◌, ◌*◌, ◌/◌, ◌%◌, ◌^◌, Bool, true, false, not, ◌&&◌, List, [], ◌∷◌, Option,
  none, some, Bytes, bytes_eq, length, get_or, map, keep_if, ltb, leb, ◌==◌, if◌then◌else◌, reverse,
}
use pc_monitor.Base.Int.{to_u64, ℤ, pos, negsuc, ◌+ℤ◌, ◌-ℤ◌}
use pc_monitor.Auth.Crypto.{Crypto}

abbrev pub totp_period : ℕ
totp_period = 30

-- `strings.ToUpper` on ASCII
unfoldable pub upper_byte : ℕ → ℕ
upper_byte c = if leb b'a' c && leb c b'z' then c - 32 else c

-- `strings.TrimRight(s, "=")`
unfoldable pub drop_pads : Bytes → Bytes
drop_pads [] = []
drop_pads (c ∷ s) = if c == b'=' then drop_pads s else c ∷ s

unfoldable pub trim_pads : Bytes → Bytes
trim_pads s = reverse (drop_pads (reverse s))

unfoldable pub decode_secret : Crypto → Bytes → Option Bytes
decode_secret c secret =
    c.b32_decode (trim_pads (map upper_byte (keep_if (λ b. not (b == b' ')) secret)))

-- `binary.BigEndian.PutUint64`
unfoldable pub be64 : ℕ → Bytes
be64 n =
    n / 2 ^ 56 % 256
    ∷ n / 2 ^ 48 % 256
    ∷ n / 2 ^ 40 % 256
    ∷ n / 2 ^ 32 % 256
    ∷ n / 2 ^ 24 % 256
    ∷ n / 2 ^ 16 % 256
    ∷ n / 2 ^ 8 % 256
    ∷ n % 256
    ∷ []

-- `sum[len(sum)-1] & 0x0f`
unfoldable pub offset : Bytes → ℕ
offset sum = get_or sum (length sum - 1) 0 % 16

-- `binary.BigEndian.Uint32(sum[off:off+4]) & 0x7fffffff`. The read is in range by
-- `Match.offset_in_range`.
unfoldable pub truncated : Bytes → ℕ
truncated sum =
    (get_or sum (offset sum) 0 * 2 ^ 24
      + get_or sum (offset sum + 1) 0 * 2 ^ 16
      + get_or sum (offset sum + 2) 0 * 2 ^ 8
      + get_or sum (offset sum + 3) 0)
    % 2 ^ 31

-- `fmt.Sprintf("%06d", n)` for a number of at most six digits
unfoldable pub six_digits : ℕ → Bytes
six_digits n =
    (b'0' + n / 100000 % 10)
    ∷ (b'0' + n / 10000 % 10)
    ∷ (b'0' + n / 1000 % 10)
    ∷ (b'0' + n / 100 % 10)
    ∷ (b'0' + n / 10 % 10)
    ∷ (b'0' + n % 10)
    ∷ []

unfoldable pub totp_at : Crypto → Bytes → ℤ → Bytes
totp_at c key step = six_digits (truncated (c.hmac_sha1 key (be64 (to_u64 step))) % 1000000)

unfoldable pub totp_code : Crypto → Bytes → ℕ → Option Bytes
totp_code c secret unix = elim (decode_secret c secret) [
  | none ↦ none
  | some key ↦ some (totp_at c key (pos (unix / totp_period)))
]

-- The loop of `matchTOTP`; `subtle.ConstantTimeCompare(a, b) == 1` is equality.
unfoldable pub first_match : Crypto → Bytes → Bytes → List ℤ → ℤ × Bool
first_match c key code [] = (pos 0, false)
first_match c key code (step ∷ steps) =
    if bytes_eq (totp_at c key step) code then (step, true) else first_match c key code steps

abbrev pub drift : ℤ → List ℤ
drift cur = cur ∷ (cur -ℤ pos 1) ∷ (cur +ℤ pos 1) ∷ []

unfoldable pub match_totp : Crypto → Bytes → Bytes → ℕ → ℤ × Bool
match_totp c secret code unix = elim (decode_secret c secret) [
  | none ↦ (pos 0, false)
  | some key ↦
      if not (length code == 6)
      then (pos 0, false)
      else first_match c key code (drift (pos (unix / totp_period)))
]
