-- ===== src/Auth/Crypto.antt =====
-- What the login uses of crypto, encoding and argon2 packages: functions that are parameters of the
-- model, and the documented behaviour that some theorems rely on.
use pc_monitor.Base.{ℕ, ◌≡◌, Bytes, Option, length}

pub record Crypto : Type 0 where
  -- `hmac.New(sha1.New, key)`, one `Write`, `Sum(nil)`
  pub hmac_sha1 : Bytes → Bytes → Bytes
  -- `base32.StdEncoding.WithPadding(base32.NoPadding).DecodeString`
  pub b32_decode : Bytes → Option Bytes
  -- `base64.RawStdEncoding`
  pub b64_encode : Bytes → Bytes
  pub b64_decode : Bytes → Option Bytes
  -- `base64.RawURLEncoding.EncodeToString`
  pub b64url_encode : Bytes → Bytes
  -- `sha256.Sum256` and `hex.EncodeToString`
  pub sha256_hex : Bytes → Bytes
  -- `argon2.IDKey(password, salt, time, memory, threads, keyLen)`
  pub id_key : Bytes → Bytes → ℕ → ℕ → ℕ → ℕ → Bytes

-- HMAC-SHA1 gives 20 bytes.
pub record HmacSize (c : Crypto) : Type 0 where
  pub size : (key msg : Bytes) → length (c.hmac_sha1 key msg) ≡ 20
