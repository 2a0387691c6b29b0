-- ===== src/Auth/Authenticator/Sessions.antt =====
-- Who gets a session, how long it lasts, and what a failed login changes.
use pc_monitor.Base.{
  ℕ, ◌/◌, ◌≤◌, ◌<◌, Bool, true, false, Option, none, some, Bytes, bytes_eq, bytes_eq_iff,
  bytes_eq_refl, ◌≡◌, ◌≢◌, ◌↔◌, refl, ap, ◌∙◌, inl, inr, arith, Bool-cases, lookup, lookup-insert,
  lookup-delete, lt→ltb, bytes_eq_ne, filter_value, lookup-keep_if, UniqueKeys,
}
use pc_monitor.Base.Int.{ℤ, ltb_ℤ}
use pc_monitor.Config.{is_empty}
use pc_monitor.Auth.Crypto.{Crypto}
use pc_monitor.Auth.Totp.{match_totp}
use pc_monitor.Auth.Password.{verify_password}
use pc_monitor.Auth.Limiter
use pc_monitor.Auth.Authenticator.{
  Session, Authenticator, LoginError, ok, err, World, second, save, load, new_authenticator, issue,
  check_factors, check_password, expiry, login, session, logout, still_good,
}

sessions-save : (b : Bool) (a : Authenticator) → (save b a).sessions ≡ a.sessions
unfolding save
sessions-save b a = ground arith

last_step-save : (b : Bool) (a : Authenticator) → (save b a).last_step ≡ a.last_step
unfolding save
last_step-save b a = ground arith

-- What the three factors have to be for a login at a state that still admits the caller.
pub record Proves (c : Crypto) (a : Authenticator) (w : World) (user password code : Bytes) (st : ℤ)
    : Type 0 where
  pub user_right : user ≡ a.cfg.username
  pub password_right : verify_password c a.cfg.password_hash password ≡ some true
  pub code_right : match_totp c a.cfg.totp_secret code (w.match_at / second) ≡ (st, true)
  pub code_fresh : ltb_ℤ a.last_step st ≡ true

-- The token, the session behind it, and the state that knows both and the step used.
pub record Grants (c : Crypto) (a : Authenticator) (w : World) (st : ℤ) (token : Bytes)
    (s : Session) (a' : Authenticator) : Type 0 where
  pub user_is : s.user ≡ a.cfg.username
  pub expires_is : s.expires ≡ expiry w.issue_at a.cfg.session_ttl
  pub stored : lookup (c.sha256_hex token) a'.sessions ≡ some s
  pub step_used : a'.last_step ≡ st

issue-Grants :
    (c : Crypto) (a : Authenticator) (w : World) (key : Bytes) (st : ℤ) (buf : Bytes)
    → w.random ≡ some buf
    → (s : Session) × ((issue c a w key st).0 ≡ ok (c.b64url_encode buf) s)
      × Grants c a w st (c.b64url_encode buf) s (issue c a w key st).1
unfolding issue
issue-Grants c a w key st buf e = (
  record { user = a.cfg.username; expires = expiry w.issue_at a.cfg.session_ttl },
  rw (e, issue),
  rw (e, issue)
      (record {
        user_is = refl;
        expires_is = refl;
        stored = rw (sessions-save, lookup-insert, bytes_eq_refl);
        step_used = rw last_step-save;
      }),
)

check_factors-eq-issue :
    (c : Crypto) (a : Authenticator) (w : World) (key : Bytes) (st : ℤ)
    → ltb_ℤ a.last_step st ≡ true
    → check_factors c a w key true true (st, true) ≡ issue c a w key st
unfolding check_factors
check_factors-eq-issue c a w key st h = rw h

check_password-eq-issue :
    (c : Crypto) (a : Authenticator) (w : World) (key user password code : Bytes) (st : ℤ)
    → Proves c a w user password code st
    → check_password c a w key user code (verify_password c a.cfg.password_hash password)
      ≡ issue c a w key st
unfolding check_password
check_password-eq-issue c a w key user password code st p =
    rw (p.password_right, p.code_right, (bytes_eq_iff user a.cfg.username).1 p.user_right)
      (check_factors-eq-issue c a w key st p.code_fresh)

-- The state after the limiter was asked.
abbrev pub asked : Authenticator → World → Bytes → Authenticator
asked a w key = record a { limiter = (Limiter.allow a.limiter w.allow_at key).1 }

login-eq-issue :
    (c : Crypto) (a : Authenticator) (w : World) (key user password code : Bytes) (st : ℤ)
    → (Limiter.allow a.limiter w.allow_at key).0 ≡ true
    → Proves c a w user password code st
    → login c a w key user password code ≡ issue c (asked a w key) w key st
unfolding login
login-eq-issue c a w key user password code st allowed p = rw allowed (
    check_password-eq-issue c (asked a w key) w key user password code st (record {
      user_right = p.user_right;
      password_right = p.password_right;
      code_right = p.code_right;
      code_fresh = p.code_fresh;
    }))

-- A caller that the limiter admits and who gives the configured user name, the right password and
-- a code of a step above the last one used is logged in, as long as the system has randomness: the
-- session is the configured user's, lasts `session_ttl` from now, and is found under the token.
pub login-Grants :
    (c : Crypto) (a : Authenticator) (w : World) (key user password code : Bytes) (buf : Bytes)
    (st : ℤ)
    → (Limiter.allow a.limiter w.allow_at key).0 ≡ true
    → Proves c a w user password code st
    → w.random ≡ some buf
    → (s : Session) × ((login c a w key user password code).0 ≡ ok (c.b64url_encode buf) s)
      × Grants c a w st (c.b64url_encode buf) s (login c a w key user password code).1
login-Grants c a w key user password code buf st allowed p random =
    rw (login-eq-issue c a w key user password code st allowed p) (
      let (s, e, g) = issue-Grants c (asked a w key) w key st buf random in
      (
        s,
        e,
        record {
          user_is = g.user_is;
          expires_is = g.expires_is;
          stored = g.stored;
          step_used = g.step_used;
        },
      ))

check_factors-ok :
    (c : Crypto) (a : Authenticator) (w : World) (key : Bytes) (user_ok pass_ok : Bool) (st : ℤ)
    (code_ok : Bool) {token : Bytes} {s : Session}
    → (check_factors c a w key user_ok pass_ok (st, code_ok)).0 ≡ ok token s
    → (user_ok ≡ true) × (pass_ok ≡ true) × (code_ok ≡ true) × (ltb_ℤ a.last_step st ≡ true)
unfolding check_factors
check_factors-ok c a w key true true st true h = elim (Bool-cases (ltb_ℤ a.last_step st)) [
  | inl e ↦ (refl, refl, refl, e)
  | inr e ↦ absurd (ground (arith, e))
]
check_factors-ok c a w key true true st false h = cc
check_factors-ok c a w key true false st code_ok h = cc
check_factors-ok c a w key false pass_ok st code_ok h = cc

check_password-Proves :
    (c : Crypto) (a : Authenticator) (w : World) (key user password code : Bytes)
    (checked : Option Bool) {token : Bytes} {s : Session}
    → verify_password c a.cfg.password_hash password ≡ checked
    → (check_password c a w key user code checked).0 ≡ ok token s
    → (st : ℤ) × Proves c a w user password code st
unfolding check_password
check_password-Proves c a w key user password code none e h = cc
check_password-Proves c a w key user password code (some pass_ok) e h =
    let (st, code_ok) = match_totp c a.cfg.totp_secret code (w.match_at / second) in
    let (u, p, k, fresh) =
      check_factors-ok c a w key (bytes_eq user a.cfg.username) pass_ok st code_ok h in
    (
      st,
      record {
        user_right = (bytes_eq_iff user a.cfg.username).0 u;
        password_right = e ∙ ap some p;
        code_right = ap (λ b. (st, b)) k;
        code_fresh = fresh;
      },
    )

not-ok : {e : LoginError} {token : Bytes} {s : Session} → err e ≡ ok token s → ⊥
not-ok h = cc

-- A login that succeeds was admitted by the limiter, and the user name, the password and the code
-- were right, the code being of a step above the last one used.
pub login_ok_Proves :
    (c : Crypto) (a : Authenticator) (w : World) (key user password code : Bytes) {token : Bytes}
    {s : Session}
    → (login c a w key user password code).0 ≡ ok token s
    → ((Limiter.allow a.limiter w.allow_at key).0 ≡ true)
      × ((st : ℤ) × Proves c a w user password code st)
unfolding login
login_ok_Proves c a w key user password code h =
    elim (Bool-cases (Limiter.allow a.limiter w.allow_at key).0) [
      | inr e ↦ absurd (not-ok (rw e at h))
      | inl e ↦
          let (st, p) =
            check_password-Proves c (asked a w key) w key user password code _ refl (rw e at h) in
          (
            e,
            (
              st,
              record {
                user_right = p.user_right;
                password_right = p.password_right;
                code_right = p.code_right;
                code_fresh = p.code_fresh;
              },
            ),
          )
    ]

-- A session that a token finds can be used until the end of its last instant, and not after; an
-- expired one is removed when it is looked up, and looking up a live one changes nothing.
pub session_until_expiry :
    (c : Crypto) (a : Authenticator) (now : ℕ) (writable : Bool) (token : Bytes) (s : Session)
    → lookup (c.sha256_hex token) a.sessions ≡ some s
    → ((now ≤ s.expires) → session c a now writable token ≡ (some s, a))
      × ((s.expires < now)
          → ((session c a now writable token).0 ≡ none)
            × (lookup (c.sha256_hex token) (session c a now writable token).1.sessions ≡ none))
unfolding session
session_until_expiry c a now writable token s h = (live, late)
  where
    live : now ≤ s.expires → session c a now writable token ≡ (some s, a)
    live e = rw (h, session) (ground arith)

    late :
        s.expires < now
        → ((session c a now writable token).0 ≡ none)
          × (lookup (c.sha256_hex token) (session c a now writable token).1.sessions ≡ none)
    late e =
        rw (h, session, lt→ltb s.expires now e)
          (refl, rw (sessions-save, lookup-delete, bytes_eq_refl))

session_of_absent :
    (c : Crypto) (a : Authenticator) (now : ℕ) (writable : Bool) (token : Bytes)
    → lookup (c.sha256_hex token) a.sessions ≡ none
    → (session c a now writable token).0 ≡ none
unfolding session
session_of_absent c a now writable token h = rw (h, session)

-- After a logout the token gives no session at any time, and every token with another hash finds
-- what it found before.
pub logout_ends :
    (c : Crypto) (a : Authenticator) (now : ℕ) (b writable : Bool) (token other : Bytes)
    → ((session c (logout c a b token) now writable token).0 ≡ none)
      × (c.sha256_hex token ≢ c.sha256_hex other
          → lookup (c.sha256_hex other) (logout c a b token).sessions
            ≡ lookup (c.sha256_hex other) a.sessions)
unfolding logout
logout_ends c a now b writable token other = (
  session_of_absent c (logout c a b token) now writable token
      (rw (sessions-save, lookup-delete, bytes_eq_refl)),
  λ ne. rw (sessions-save, lookup-delete, bytes_eq_ne (c.sha256_hex token) (c.sha256_hex other) ne),
)

still_good_iff :
    (username : Bytes) (now : ℕ) (s : Session) (o : Option Session)
    → (filter_value (still_good username now) o ≡ some s)
      ↔ ((o ≡ some s) × (s.user ≡ username) × (now < s.expires))
unfolding filter_value still_good
still_good_iff username now s none = ground arith
still_good_iff username now s (some t) = elim (Bool-cases (bytes_eq t.user username)) [
  | inl e ↦ ground (arith, e, (bytes_eq_iff t.user username).0)
  | inr e ↦ ground (arith, e, (bytes_eq_iff t.user username).1)
]

-- Where sessions are saved to a file, a restart with the same configuration finds in the file that
-- was just saved exactly the sessions, of distinct keys, that are of the configured user and end
-- later than the restart, as they were, and the same last step.
pub restart_keeps :
    (a : Authenticator) (now : ℕ) (k : Bytes) (s : Session)
    → is_empty a.cfg.sessions_path ≡ false
    → UniqueKeys a.sessions
    → ((lookup k (new_authenticator a.cfg (save true a).disk now).sessions ≡ some s)
        ↔ ((lookup k a.sessions ≡ some s) × (s.user ≡ a.cfg.username) × (now < s.expires)))
      × ((new_authenticator a.cfg (save true a).disk now).last_step ≡ a.last_step)
unfolding new_authenticator save load
restart_keeps a now k s path unique = rw path (
  rw (lookup-keep_if k (still_good a.cfg.username now) a.sessions unique)
      (still_good_iff a.cfg.username now s (lookup k a.sessions)),
  refl,
)
