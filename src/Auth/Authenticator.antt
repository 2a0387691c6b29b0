-- ===== src/Auth/Authenticator.antt =====
-- agent/internal/auth/auth.go: login, sessions, and what survives a restart.
-- Each call is one step: `Login` holds the lock from the check of the code to its end. Clock
-- readings, randomness and whether a write to disk succeeds are arguments. Times are nanoseconds
-- since 1970. The sessions file is the value that JSON and an atomic rename store and give back.
pub mod Steps
pub mod Sessions
use pc_monitor.Base.{
  ℕ, suc, ◌+◌, ◌-◌, ◌*◌, ◌/◌, Bool, true, false, not, ◌&&◌, ◌||◌, List, [], ◌∷◌, Option, none, some,
  Bytes, bytes_eq, lookup, insert, delete, keep_if, ltb, if◌then◌else◌,
}
use pc_monitor.Base.Int.{ℤ, pos, negsuc, pos_part, neg_part, ltb_ℤ}
use pc_monitor.Config.{AuthConfig, is_empty}
use pc_monitor.Auth.Crypto.{Crypto}
use pc_monitor.Auth.Totp.{match_totp}
use pc_monitor.Auth.Password.{verify_password}
use pc_monitor.Auth.Limiter
use pc_monitor.Auth.Limiter.{Limiter, new_limiter}

pub record Session : Type 0 where
  pub user : Bytes
  pub expires : ℕ

pub record StateFile : Type 0 where
  pub sessions : List (Bytes × Session)
  pub last_step : ℤ

-- `disk` is the content of the sessions file, `none` where it is missing or unreadable.
pub record Authenticator : Type 0 where
  pub cfg : AuthConfig
  pub limiter : Limiter
  pub sessions : List (Bytes × Session)
  pub last_step : ℤ
  pub disk : Option StateFile

pub data LoginError : Type 0 where
  locked invalid bad_hash no_randomness : LoginError

-- Token and session, or the error.
pub data LoginResult : Type 0 where
  ok : Bytes → Session → LoginResult
  err : LoginError → LoginResult

abbrev pub second : ℕ
second = 1000000000

-- What the environment gives to one call: the clock at each place where it is read, the random
-- bytes of a token, and whether the sessions file can be written.
pub record World : Type 0 where
  pub allow_at : ℕ
  pub match_at : ℕ
  pub fail_at : ℕ
  pub issue_at : ℕ
  pub random : Option Bytes
  pub writable : Bool

unfoldable pub save : Bool → Authenticator → Authenticator
save writable a =
    if not (is_empty a.cfg.sessions_path) && writable
    then record a { disk = some (record { sessions = a.sessions; last_step = a.last_step }) }
    else a

-- `s.User == a.cfg.Username && now.Before(s.Expires)`
unfoldable pub still_good : Bytes → ℕ → Session → Bool
still_good username now s = bytes_eq s.user username && ltb now s.expires

unfoldable pub load : ℕ → Authenticator → Authenticator
load now a = if is_empty a.cfg.sessions_path then a else elim a.disk [
  | none ↦ a
  | some st ↦ record a {
    sessions = keep_if (λ e. still_good a.cfg.username now e.1) st.sessions;
    last_step = st.last_step;
  }
]

-- `New`, given what the sessions file holds.
unfoldable pub new_authenticator : AuthConfig → Option StateFile → ℕ → Authenticator
new_authenticator cfg disk now = load now (record {
  cfg = cfg;
  limiter = new_limiter (15 * (60 * second)) 5 30;
  sessions = [];
  last_step = pos 0;
  disk = disk;
})

-- `now.Add(ttl)`; a time before the clock's zero counts as its zero, which is over too.
abbrev pub expiry : ℕ → ℤ → ℕ
expiry now (pos ttl) = now + ttl
expiry now (negsuc n) = now - suc n

-- The end of `Login`, where all three factors are right.
unfoldable pub issue : Crypto → Authenticator → World → Bytes → ℤ → LoginResult × Authenticator
issue c a w key step =
    let a' = record a { last_step = step; limiter = Limiter.reset a.limiter key } in
    elim w.random [
      | none ↦ (err no_randomness, a')
      | some buf ↦
          let token = c.b64url_encode buf in
          let s : Session = record {
            user = a.cfg.username;
            expires = expiry w.issue_at a.cfg.session_ttl;
          } in
          (
            ok token s,
            save w.writable (record a' { sessions = insert (c.sha256_hex token) s a.sessions }),
          )
    ]

-- `step <= a.lastStep` is `not (lastStep < step)`.
unfoldable pub check_factors :
    Crypto → Authenticator → World → Bytes → Bool → Bool → ℤ × Bool → LoginResult × Authenticator
check_factors c a w key user_ok pass_ok (step, code_ok) =
    let fresh = code_ok && ltb_ℤ a.last_step step in
    if not user_ok || not pass_ok || not fresh
    then (err invalid, record a { limiter = Limiter.fail a.limiter w.fail_at key })
    else issue c a w key step

-- What follows the check of the password; `none` is its error.
unfoldable pub check_password :
    Crypto
    → Authenticator
    → World
    → Bytes
    → Bytes
    → Bytes
    → Option Bool
    → LoginResult × Authenticator
check_password c a w key user code none = (err bad_hash, a)
check_password c a w key user code (some pass_ok) =
    check_factors c a w key (bytes_eq user a.cfg.username) pass_ok
      (match_totp c a.cfg.totp_secret code (w.match_at / second))

unfoldable pub login :
    Crypto → Authenticator → World → Bytes → Bytes → Bytes → Bytes → LoginResult × Authenticator
login c a w key user password code =
    let (allowed, limiter') = Limiter.allow a.limiter w.allow_at key in
    let a' = record a { limiter = limiter' } in
    if not allowed
    then (err locked, a')
    else check_password c a' w key user code (verify_password c a.cfg.password_hash password)

-- `a.now().After(s.Expires)` is a strict comparison.
unfoldable pub session : Crypto → Authenticator → ℕ → Bool → Bytes → Option Session × Authenticator
session c a now writable token = elim (lookup (c.sha256_hex token) a.sessions) [
  | none ↦ (none, a)
  | some s ↦
      if ltb s.expires now
      then (none, save writable (record a { sessions = delete (c.sha256_hex token) a.sessions }))
      else (some s, a)
]

unfoldable pub logout : Crypto → Authenticator → Bool → Bytes → Authenticator
logout c a writable token =
    save writable (record a { sessions = delete (c.sha256_hex token) a.sessions })
