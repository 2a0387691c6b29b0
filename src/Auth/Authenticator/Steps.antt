-- ===== src/Auth/Authenticator/Steps.antt =====
-- No TOTP step is accepted twice, also across restarts.
use pc_monitor.Base.{
  ℕ, ◌/◌, Bool, true, false, List, [], ◌∷◌, Option, none, some, Bytes, bytes_eq, ◌≡◌, inl, inr,
  arith, Bool-cases, Option-cases, ltb, lookup,
}
use pc_monitor.Base.Int.{ℤ, pos, ltb_ℤ, ◌≤ℤ◌}
use pc_monitor.Config.{AuthConfig, is_empty}
use pc_monitor.Auth.Crypto.{Crypto}
use pc_monitor.Auth.Totp.{match_totp}
use pc_monitor.Auth.Password.{verify_password}
use pc_monitor.Auth.Limiter
use pc_monitor.Auth.Authenticator.{
  StateFile, Authenticator, LoginResult, ok, err, World, second, save, load, new_authenticator,
  issue, check_factors, check_password, login, session, logout,
}

-- One call from the server, or the end of the process and a new start with the same
-- configuration and the file that it left.
pub data Call : Type 0 where
  log_in : World → Bytes → Bytes → Bytes → Bytes → Call
  check_session : ℕ → Bool → Bytes → Call
  log_out : Bool → Bytes → Call
  restart : ℕ → Call

unfoldable pub step : Crypto → Authenticator → Call → Authenticator
step c a (log_in w key user password code) = (login c a w key user password code).1
step c a (check_session now writable token) = (session c a now writable token).1
step c a (log_out writable token) = logout c a writable token
step c a (restart now) = new_authenticator a.cfg a.disk now

-- The TOTP step behind a login that succeeds.
unfoldable pub used_by : LoginResult → ℤ → Option ℤ
used_by (ok token s) step = some step
used_by (err e) step = none

unfoldable pub used : Crypto → Authenticator → Call → Option ℤ
used c a (log_in w key user password code) =
    used_by (login c a w key user password code).0
      (match_totp c a.cfg.totp_secret code (w.match_at / second)).0
used c a _ = none

abbrev cons_option : Option ℤ → List ℤ → List ℤ
cons_option none ss = ss
cons_option (some s) ss = s ∷ ss

-- The steps of all successful logins, in order.
unfoldable pub accepted : Crypto → Authenticator → List Call → List ℤ
accepted c a [] = []
accepted c a (call ∷ calls) = cons_option (used c a call) (accepted c (step c a call) calls)

abbrev pub Before : ℤ → ℤ → Type 0
Before a b = ltb_ℤ a b ≡ true

abbrev pub Increasing : ℤ → List ℤ → Type 0
Increasing m [] = Unit {0}
Increasing m (s ∷ ss) = Before m s × Increasing s ss

-- The sessions file can always be written.
abbrev pub Writes : Call → Type 0
Writes (log_in w key user password code) = w.writable ≡ true
Writes (check_session now writable token) = writable ≡ true
Writes (log_out writable token) = writable ≡ true
Writes (restart now) = Unit {0}

abbrev pub AllWrite : List Call → Type 0
AllWrite [] = Unit {0}
AllWrite (call ∷ calls) = Writes call × AllWrite calls

-- A file, or no file, from which nothing at or below `m` would be accepted again.
abbrev DiskGuards : ℤ → Option StateFile → Type 0
DiskGuards m none = m ≤ℤ pos 0
DiskGuards m (some st) = m ≤ℤ st.last_step

record Guards (m : ℤ) (a : Authenticator) : Type 0 where
  path : is_empty a.cfg.sessions_path ≡ false
  memory : m ≤ℤ a.last_step
  file : DiskGuards m a.disk

abbrev Advances : ℤ → Authenticator → Option ℤ → Type 0
Advances m a none = Guards m a
Advances m a (some s) = Before m s × Guards s a

save-Guards :
    (m : ℤ) (a : Authenticator)
    → is_empty a.cfg.sessions_path ≡ false
    → m ≤ℤ a.last_step
    → Guards m (save true a)
unfolding save
save-Guards m a p h = rw p (record { path = p; memory = h; file = h })

-- A process that starts guards what the file guards.
new-Guards :
    (m : ℤ) (cfg : AuthConfig) (disk : Option StateFile) (now : ℕ)
    → is_empty cfg.sessions_path ≡ false
    → DiskGuards m disk
    → Guards m (new_authenticator cfg disk now)
unfolding new_authenticator load
new-Guards m cfg none now p h = rw p (record { path = p; memory = h; file = h })
new-Guards m cfg (some st) now p h = rw p (record { path = p; memory = h; file = h })

≤-Before : (a b c : ℤ) → a ≤ℤ b → Before b c → Before a c
≤-Before a b c h k = ground arith

≤-of_Before : (a b : ℤ) → Before a b → a ≤ℤ b
≤-of_Before a b h = ground arith

≤-self : (a : ℤ) → a ≤ℤ a
≤-self a = omega arith

issue-Advances :
    (c : Crypto) (a : Authenticator) (w : World) (key : Bytes) (step m : ℤ)
    → w.writable ≡ true
    → Before a.last_step step
    → Guards m a
    → Advances m (issue c a w key step).1 (used_by (issue c a w key step).0 step)
unfolding issue used_by
issue-Advances c a w key step m h b g = elim (Option-cases w.random) [
  | inl e ↦
      rw (e, issue)
        (record {
          path = g.path;
          memory = ≤-of_Before m step (≤-Before m a.last_step step g.memory b);
          file = g.file;
        })
  | inr (buf, e) ↦
      rw (e, issue, h)
        (≤-Before m a.last_step step g.memory b, save-Guards step _ g.path (≤-self step))
]

check_factors-Advances :
    (c : Crypto) (a : Authenticator) (w : World) (key : Bytes) (user_ok pass_ok : Bool) (step : ℤ)
    (code_ok : Bool) (m : ℤ)
    → w.writable ≡ true
    → Guards m a
    → Advances m
        (check_factors c a w key user_ok pass_ok (step, code_ok)).1
        (used_by (check_factors c a w key user_ok pass_ok (step, code_ok)).0 step)
unfolding check_factors used_by
check_factors-Advances c a w key true true step true m h g =
    elim (Bool-cases (ltb_ℤ a.last_step step)) [
      | inl e ↦ rw e (issue-Advances c a w key step m h e g)
      | inr e ↦ rw e (record { path = g.path; memory = g.memory; file = g.file })
    ]
check_factors-Advances c a w key true true step false m h g = record {
  path = g.path;
  memory = g.memory;
  file = g.file;
}
check_factors-Advances c a w key true false step code_ok m h g = record {
  path = g.path;
  memory = g.memory;
  file = g.file;
}
check_factors-Advances c a w key false pass_ok step code_ok m h g = record {
  path = g.path;
  memory = g.memory;
  file = g.file;
}

check_password-Advances :
    (c : Crypto) (a : Authenticator) (w : World) (key user code : Bytes) (checked : Option Bool)
    (m : ℤ)
    → w.writable ≡ true
    → Guards m a
    → Advances m (check_password c a w key user code checked).1 (
        used_by
          (check_password c a w key user code checked).0
          (match_totp c a.cfg.totp_secret code (w.match_at / second)).0)
unfolding check_password used_by
check_password-Advances c a w key user code none m h g = g
check_password-Advances c a w key user code (some pass_ok) m h g =
    let (step, code_ok) = match_totp c a.cfg.totp_secret code (w.match_at / second) in
    check_factors-Advances c a w key (bytes_eq user a.cfg.username) pass_ok step code_ok m h g

login-Advances :
    (c : Crypto) (a : Authenticator) (w : World) (key user password code : Bytes) (m : ℤ)
    → w.writable ≡ true
    → Guards m a
    → Advances m (login c a w key user password code).1 (
        used_by
          (login c a w key user password code).0
          (match_totp c a.cfg.totp_secret code (w.match_at / second)).0)
unfolding login used_by
login-Advances c a w key user password code m h g =
    elim (Bool-cases (Limiter.allow a.limiter w.allow_at key).0) [
      | inr e ↦ rw e (record { path = g.path; memory = g.memory; file = g.file })
      | inl e ↦ rw e (
          check_password-Advances c
            (record a { limiter = (Limiter.allow a.limiter w.allow_at key).1 }) w key user code
            (verify_password c a.cfg.password_hash password) m h
            (record { path = g.path; memory = g.memory; file = g.file }))
    ]

session-Guards :
    (c : Crypto) (a : Authenticator) (now : ℕ) (token : Bytes) (m : ℤ)
    → Guards m a
    → Guards m (session c a now true token).1
unfolding session
session-Guards c a now token m g = elim (Option-cases (lookup (c.sha256_hex token) a.sessions)) [
  | inl e ↦ rw (e, session) g
  | inr (s, e) ↦
      rw (e, session)
        (elim (Bool-cases (ltb s.expires now)) [
          | inl late ↦ rw late (save-Guards m _ g.path g.memory)
          | inr early ↦ rw early g
        ])
]

step-Advances :
    (c : Crypto) (a : Authenticator) (call : Call) (m : ℤ)
    → Writes call
    → Guards m a
    → Advances m (step c a call) (used c a call)
unfolding step used logout
step-Advances c a (log_in w key user password code) m h g =
    login-Advances c a w key user password code m h g
step-Advances c a (check_session now writable token) m h g = rw h (session-Guards c a now token m g)
step-Advances c a (log_out writable token) m h g = rw h (save-Guards m _ g.path g.memory)
step-Advances c a (restart now) m h g = new-Guards m a.cfg a.disk now g.path g.file

advance :
    (used : Option ℤ) (m : ℤ) (a : Authenticator) (rest : List ℤ)
    → Advances m a used
    → ((m' : ℤ) → Guards m' a → Increasing m' rest)
    → Increasing m (cons_option used rest)
advance none m a rest h later = later m h
advance (some s) m a rest h later = (h.0, later s h.1)

accepted-Increasing :
    (c : Crypto) (calls : List Call) (a : Authenticator) (m : ℤ)
    → AllWrite calls
    → Guards m a
    → Increasing m (accepted c a calls)
unfolding accepted
accepted-Increasing c [] a m h g = tt
accepted-Increasing c (call ∷ calls) a m h g =
    advance (used c a call) m (step c a call) (accepted c (step c a call) calls)
      (step-Advances c a call m h.0 g)
      (λ m' g'. accepted-Increasing c calls (step c a call) m' h.1 g')

-- The highest step that a file remembers.
abbrev pub remembered : Option StateFile → ℤ
remembered none = pos 0
remembered (some st) = st.last_step

remembered-DiskGuards : (disk : Option StateFile) → DiskGuards (remembered disk) disk
remembered-DiskGuards none = omega arith
remembered-DiskGuards (some st) = omega arith

-- Where sessions are saved to a file that can always be written, the TOTP steps of the successful
-- logins increase strictly over any sequence of logins, session checks, logouts and restarts, and
-- are all above the step in the file at the start: no step, and so no code of a step, is accepted
-- twice.
pub accepted_once :
    (c : Crypto) (cfg : AuthConfig) (disk : Option StateFile) (now : ℕ) (calls : List Call)
    → is_empty cfg.sessions_path ≡ false
    → AllWrite calls
    → Increasing (remembered disk) (accepted c (new_authenticator cfg disk now) calls)
accepted_once c cfg disk now calls p h =
    accepted-Increasing c calls (new_authenticator cfg disk now) (remembered disk) h
      (new-Guards (remembered disk) cfg disk now p (remembered-DiskGuards disk))
