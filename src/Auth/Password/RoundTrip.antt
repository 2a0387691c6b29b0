-- ===== src/Auth/Password/RoundTrip.antt =====
-- A hash that was printed is read back as it was printed.
use pc_monitor.Base.{
  ℕ, ◌%◌, ◌^◌, true, false, List, [], ◌∷◌, some, Bytes, codes, bytes_eq, bytes_eq_refl,
  contains_byte, split, split-append, split_whole, length, decimal, decimal_fuel, ◌≡◌, refl, ap,
  ap₂, ◌∙◌, arith, cut_prefix, span_digits, value,
}
use pc_monitor.Auth.Crypto.{Crypto}
use pc_monitor.Auth.Password.{
  argon_time, argon_memory, argon_threads, argon_key_len, phc_string, hash_password, skip_blanks,
  skip_plus, scan_num, scan_field, scan_params, version_ok, compare_key, verify_parts,
  verify_password,
}

-- What `VerifyPassword` relies on: base64 decodes what it encoded and has no `$`, and argon2 gives
-- a key of the length asked for.
pub record CodecLaws (c : Crypto) : Type 0 where
  pub decode_encode : (b : Bytes) → c.b64_decode (c.b64_encode b) ≡ some b
  pub no_dollar : (b : Bytes) → contains_byte b'$' (c.b64_encode b) ≡ false
  pub key_length :
      (password salt : Bytes) (t m p n : ℕ) → length (c.id_key password salt t m p n) ≡ n

split-phc_string :
    (salt64 key64 : Bytes)
    → contains_byte b'$' salt64 ≡ false
    → contains_byte b'$' key64 ≡ false
    → split b'$' (phc_string salt64 key64)
      ≡ [] ∷ codes "argon2id" ∷ codes "v=19" ∷ codes "m=65536,t=3,p=2" ∷ salt64 ∷ key64 ∷ []
unfolding phc_string split decimal decimal_fuel
split-phc_string salt64 key64 hs hk =
    ap (λ ps. [] ∷ codes "argon2id" ∷ codes "v=19" ∷ codes "m=65536,t=3,p=2" ∷ ps)
      (split-append b'$' salt64 key64 hs ∙ ap (◌∷◌ salt64) (split_whole b'$' key64 hk))

scan_params_text :
    scan_params (codes "m=65536,t=3,p=2") ≡ some (argon_memory, argon_time, argon_threads)
unfolding scan_params scan_field scan_num cut_prefix skip_blanks span_digits value
scan_params_text = refl

verify_parts-phc :
    (c : Crypto) (password salt64 key64 : Bytes)
    → verify_parts c password
        ([] ∷ codes "argon2id" ∷ codes "v=19" ∷ codes "m=65536,t=3,p=2" ∷ salt64 ∷ key64 ∷ [])
      ≡ compare_key c password
          (some (argon_memory, argon_time, argon_threads))
          (c.b64_decode salt64)
          (c.b64_decode key64)
unfolding verify_parts bytes_eq version_ok scan_num cut_prefix skip_plus skip_blanks span_digits
    value
verify_parts-phc c password salt64 key64 =
    ap (λ ps. compare_key c password ps (c.b64_decode salt64) (c.b64_decode key64)) scan_params_text

compare_key-sized :
    (c : Crypto) (password salt want : Bytes)
    → length want ≡ argon_key_len
    → compare_key c password
        (some (argon_memory, argon_time, argon_threads))
        (some salt)
        (some want)
      ≡ some (
          bytes_eq
            (c.id_key password salt argon_time argon_memory argon_threads argon_key_len)
            want)
unfolding compare_key
compare_key-sized c password salt [] h = absurd (omega arith)
compare_key-sized c password salt (k ∷ want) h =
    ap
      (λ n.
        some (bytes_eq (c.id_key password salt argon_time argon_memory argon_threads n) (k ∷ want)))
      (short h)
  where
    short : {n : ℕ} → n ≡ argon_key_len → n % 2 ^ 32 ≡ argon_key_len
    short e = omega arith

verify_split :
    (c : Crypto) (password encoded : Bytes) {parts : List Bytes}
    → split b'$' encoded ≡ parts
    → verify_password c encoded password ≡ verify_parts c password parts
unfolding verify_password
verify_split c password encoded e = ap (verify_parts c password) e

-- Checking a password against a hash that `HashPassword` printed succeeds without an error, and
-- says yes exactly when argon2 derives the same key from it with the same salt; so the password
-- that was hashed is accepted.
pub verify-hash :
    (c : Crypto)
    → CodecLaws c
    → (salt password tried : Bytes)
    → (encoded : Bytes) × (hash_password c (some salt) password ≡ some encoded)
      × (verify_password c encoded tried
          ≡ some (
              bytes_eq
                (c.id_key tried salt argon_time argon_memory argon_threads argon_key_len)
                (c.id_key password salt argon_time argon_memory argon_threads argon_key_len)))
      × (verify_password c encoded password ≡ some true)
unfolding hash_password
verify-hash c laws salt password tried = (
  phc_string (c.b64_encode salt) (c.b64_encode key),
  refl,
  checked tried,
  checked password ∙ ap some (bytes_eq_refl key),
)
  where
    key : Bytes
    key = c.id_key password salt argon_time argon_memory argon_threads argon_key_len

    checked :
        (p : Bytes)
        → verify_password c (phc_string (c.b64_encode salt) (c.b64_encode key)) p
          ≡ some
              (bytes_eq (c.id_key p salt argon_time argon_memory argon_threads argon_key_len) key)
    checked p =
        verify_split c p _ (
          split-phc_string (c.b64_encode salt) (c.b64_encode key) (laws.no_dollar salt)
            (laws.no_dollar key))
        ∙ verify_parts-phc c p (c.b64_encode salt) (c.b64_encode key)
        ∙ ap₂ (compare_key c p (some (argon_memory, argon_time, argon_threads)))
            (laws.decode_encode salt) (laws.decode_encode key)
        ∙ compare_key-sized c p salt key
            (laws.key_length password salt argon_time argon_memory argon_threads argon_key_len)
