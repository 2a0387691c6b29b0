-- ===== src/Auth/Password.antt =====
-- agent/internal/auth/password.go: PHC strings of argon2id hashes. `argon2.IDKey`, base64 and the
-- random salt are parameters; `argon2.Version` is 19.
pub mod RoundTrip
use pc_monitor.Base.{
  ℕ, ◌+◌, ◌*◌, ◌%◌, ◌^◌, Bool, true, false, not, ◌&&◌, ◌||◌, List, [], ◌∷◌, ◌++◌, Option, none,
  some, Bytes, codes, bytes_eq, split, cut_prefix, length, decimal, span_digits, value, leb, ltb,
  ◌==◌, if◌then◌else◌,
}
use pc_monitor.Auth.Crypto.{Crypto}

abbrev pub argon_version : ℕ
argon_version = 19

abbrev pub argon_time : ℕ
argon_time = 3

abbrev pub argon_memory : ℕ
argon_memory = 64 * 1024

abbrev pub argon_threads : ℕ
argon_threads = 2

abbrev pub argon_key_len : ℕ
argon_key_len = 32

-- `fmt.Sprintf("$argon2id$v=%d$m=%d,t=%d,p=%d$%s$%s", ...)`
unfoldable pub phc_string : Bytes → Bytes → Bytes
phc_string salt64 key64 =
    b'$'
    ∷ (codes "argon2id"
        ++ b'$'
          ∷ ((codes "v=" ++ decimal argon_version)
              ++ b'$'
                ∷ ((codes "m="
                      ++ (decimal argon_memory
                          ++ (codes ",t="
                              ++ (decimal argon_time ++ (codes ",p=" ++ decimal argon_threads)))))
                    ++ b'$' ∷ (salt64 ++ b'$' ∷ key64))))

-- `none` where the system has no randomness; otherwise the salt that was read is given.
unfoldable pub hash_password : Crypto → Option Bytes → Bytes → Option Bytes
hash_password c none password = none
hash_password c (some salt) password = some (
    phc_string (c.b64_encode salt)
      (c.b64_encode (c.id_key password salt argon_time argon_memory argon_threads argon_key_len)))

-- `fmt` skips blanks before a number.
unfoldable pub skip_blanks : Bytes → Bytes
skip_blanks [] = []
skip_blanks (c ∷ s) =
    if c == b' ' || c == b'\t' || c == 11 || c == 12 || c == b'\r' then skip_blanks s else c ∷ s

-- One `%d` of `fmt.Sscanf` into a type that holds numbers below `limit`.
unfoldable pub scan_num : ℕ → Bytes → Option (ℕ × Bytes)
scan_num limit s =
    let (ds, rest) = span_digits (skip_blanks s) in
    elim ds [
      | [] ↦ none
      | d ∷ more ↦ if ltb (value 0 (d ∷ more)) limit then some (value 0 (d ∷ more), rest) else none
    ]

-- A literal piece of the format, then `%d`.
unfoldable pub scan_field : Bytes → ℕ → Bytes → Option (ℕ × Bytes)
scan_field lit limit s = elim (cut_prefix lit s) [ none ↦ none | some rest ↦ scan_num limit rest ]

-- `Sscanf(s, "m=%d,t=%d,p=%d", &mem, &iters, &threads)`
unfoldable pub scan_params : Bytes → Option (ℕ × ℕ × ℕ)
scan_params s = elim (scan_field (codes "m=") (2 ^ 32) s) [
  | none ↦ none
  | some a ↦ elim (scan_field (codes ",t=") (2 ^ 32) a.1) [
    | none ↦ none
    | some b ↦ elim (scan_field (codes ",p=") (2 ^ 8) b.1) [
      | none ↦ none
      | some d ↦ some (a.0, b.0, d.0)
    ]
  ]
]

-- A `+` may stand before the digits of a signed number. A `-` would make it another number than
-- the version, which is refused all the same.
unfoldable pub skip_plus : Bytes → Bytes
skip_plus [] = []
skip_plus (c ∷ s) = if c == b'+' then s else c ∷ s

unfoldable pub version_ok : Bytes → Bool
version_ok s = elim (cut_prefix (codes "v=") s) [
  | none ↦ false
  | some rest ↦ elim (scan_num (2 ^ 63) (skip_plus (skip_blanks rest))) [
    | none ↦ false
    | some r ↦ r.0 == argon_version
  ]
]

-- The last steps of `VerifyPassword`, from the parameters and the two decoded texts on. `none` is
-- `errBadHash`.
unfoldable pub compare_key :
    Crypto → Bytes → Option (ℕ × ℕ × ℕ) → Option Bytes → Option Bytes → Option Bool
compare_key c password (some (mem, iters, threads)) (some salt) (some (k ∷ want)) =
    some
      (bytes_eq (c.id_key password salt iters mem threads (length (k ∷ want) % 2 ^ 32)) (k ∷ want))
compare_key c password _ _ _ = none

unfoldable pub verify_parts : Crypto → Bytes → List Bytes → Option Bool
verify_parts c password (p0 ∷ p1 ∷ p2 ∷ p3 ∷ p4 ∷ p5 ∷ []) =
    if bytes_eq p1 (codes "argon2id") && version_ok p2
    then compare_key c password (scan_params p3) (c.b64_decode p4) (c.b64_decode p5)
    else none
verify_parts c password _ = none

unfoldable pub verify_password : Crypto → Bytes → Bytes → Option Bool
verify_password c encoded password = verify_parts c password (split b'$' encoded)
