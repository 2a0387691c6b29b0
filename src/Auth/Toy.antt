-- ===== src/Auth/Toy.antt =====
-- Simple functions in the place of the crypto packages, for the tests: a MAC that turns the message
-- round, a unary code in the place of base64, and a key that is the password.
use pc_monitor.Base.{
  ℕ, zero, suc, ◌+◌, false, [], ◌∷◌, reverse, some, Bytes, length, contains_byte, ◌≡◌, refl, ap,
  ap₂, ◌∙◌, arith,
}
use pc_monitor.Auth.Crypto.{Crypto, HmacSize}
use pc_monitor.Auth.Password.RoundTrip.{CodecLaws}

-- A byte string of a given length.
abbrev pub pad : ℕ → Bytes → Bytes
pad zero s = []
pad (suc n) [] = 0 ∷ pad n []
pad (suc n) (c ∷ s) = c ∷ pad n s

length-pad : (n : ℕ) (s : Bytes) → length (pad n s) ≡ n
unfolding length
length-pad zero s = refl
length-pad (suc n) [] = ap suc (length-pad n [])
length-pad (suc n) (c ∷ s) = ap suc (length-pad n s)

-- Each byte as so many zeros and a one.
abbrev pub unary : ℕ → Bytes → Bytes
unary zero s = 1 ∷ s
unary (suc n) s = 0 ∷ unary n s

abbrev pub write_unary : Bytes → Bytes
write_unary [] = []
write_unary (n ∷ s) = unary n (write_unary s)

abbrev pub read_unary : ℕ → Bytes → Bytes
read_unary k [] = []
read_unary k (zero ∷ s) = read_unary (suc k) s
read_unary k (suc c ∷ s) = k ∷ read_unary 0 s

read_unary-unary : (n k : ℕ) (s : Bytes) → read_unary k (unary n s) ≡ (k + n) ∷ read_unary 0 s
read_unary-unary zero k s = ap (λ m. m ∷ read_unary 0 s) (omega arith)
read_unary-unary (suc n) k s =
    read_unary-unary n (suc k) s ∙ ap (λ m. m ∷ read_unary 0 s) (omega arith)

read_unary-write_unary : (s : Bytes) → read_unary 0 (write_unary s) ≡ s
read_unary-write_unary [] = refl
read_unary-write_unary (n ∷ s) =
    read_unary-unary n 0 (write_unary s) ∙ ap₂ ◌∷◌ (omega arith) (read_unary-write_unary s)

unary_no_dollar :
    (n : ℕ) (s : Bytes) → contains_byte b'$' s ≡ false → contains_byte b'$' (unary n s) ≡ false
unfolding contains_byte
unary_no_dollar zero s h = h
unary_no_dollar (suc n) s h = unary_no_dollar n s h

write_unary_no_dollar : (s : Bytes) → contains_byte b'$' (write_unary s) ≡ false
unfolding contains_byte
write_unary_no_dollar [] = refl
write_unary_no_dollar (n ∷ s) = unary_no_dollar n (write_unary s) (write_unary_no_dollar s)

abbrev pub toy : Crypto
toy = record {
  hmac_sha1 = λ key msg. pad 20 (reverse msg);
  b32_decode = λ s. some s;
  b64_encode = write_unary;
  b64_decode = λ s. some (read_unary 0 s);
  b64url_encode = λ s. s;
  sha256_hex = λ s. s;
  id_key = λ password salt t m p n. pad n password;
}

pub toy-HmacSize : HmacSize toy
toy-HmacSize = record { size = λ key msg. length-pad 20 (reverse msg) }

pub toy-CodecLaws : CodecLaws toy
toy-CodecLaws = record {
  decode_encode = λ b. ap some (read_unary-write_unary b);
  no_dollar = write_unary_no_dollar;
  key_length = λ password salt t m p n. length-pad n password;
}
