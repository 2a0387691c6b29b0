-- ===== src/Auth/Tests.antt =====
-- The theorems on the login, with simple functions in the place of the crypto packages.
use pc_monitor.Base.{
  ℕ, ◌*◌, ◌≤◌, ◌<◌, true, false, List, [], ◌∷◌, ◌++◌, none, some, Bytes, codes, bytes_eq, lookup,
  insert, delete, keep_if, length, get_or, split, cut_prefix, span_digits, is_digit, value, ◌≡◌,
  ◌↔◌, ◌≢◌, refl, arith, inl, inr,
}
use pc_monitor.Base.Int.{to_u64, ℤ, pos, ◌-ℤ◌}
use pc_monitor.Config.{AuthConfig}
use pc_monitor.Auth.Toy.{pad, write_unary, toy, toy-CodecLaws}
use pc_monitor.Auth.Limiter
use pc_monitor.Auth.Limiter.{new_limiter}
use pc_monitor.Auth.Limiter.Refine.{
  Op, allowing, failing, resetting, no_history, run, spec_run, run_refines,
}
use pc_monitor.Auth.Totp.{
  drop_pads, trim_pads, decode_secret, be64, offset, truncated, six_digits, totp_at, totp_code,
  first_match, match_totp,
}
use pc_monitor.Auth.Totp.Match.{totp_code_accepted}
use pc_monitor.Auth.Password.{
  argon_key_len, hash_password, skip_blanks, scan_num, scan_field, scan_params, skip_plus,
  version_ok, compare_key, verify_parts, verify_password,
}
use pc_monitor.Auth.Password.RoundTrip.{verify-hash}
use pc_monitor.Auth.Authenticator.{
  Session, Authenticator, World, ok, second, login, session, logout, new_authenticator, save,
}
use pc_monitor.Auth.Authenticator.Steps.{
  Call, log_in, check_session, restart, Increasing, accepted, accepted_once,
}
use pc_monitor.Auth.Authenticator.Sessions.{
  Proves, Grants, login-Grants, login_ok_Proves, session_until_expiry, logout_ends, restart_keeps,
}

-- A password hash with a key of two bytes.
abbrev hash : Bytes
hash =
    codes "$argon2id$v=19$m=65536,t=3,p=2$"
    ++ (write_unary (1 ∷ []) ++ b'$' ∷ write_unary (3 ∷ 4 ∷ []))

abbrev cfg : AuthConfig
cfg = record {
  username = codes "me";
  password_hash = hash;
  totp_secret = codes "k";
  session_ttl = pos 1000;
  sessions_path = codes "s.json";
  insecure_cookie = false;
}

abbrev at_hand : Session
at_hand = record { user = codes "me"; expires = 50 }

abbrev fresh : Authenticator
fresh = record {
  cfg = cfg;
  limiter = record { window = 900; per_key = 5; global = 30; fails = []; all_fails = [] };
  sessions = (codes "t", at_hand) ∷ [];
  last_step = pos 2;
  disk = none;
}

abbrev at_90 : World
at_90 = record {
  allow_at = 90 * second;
  match_at = 90 * second;
  fail_at = 90 * second;
  issue_at = 90 * second;
  random = some (codes "u");
  writable = true;
}

abbrev code_3 : Bytes
code_3 = codes "331648"

code_3_printed : totp_code toy (codes "k") 119 ≡ some code_3
unfolding totp_code decode_secret trim_pads drop_pads keep_if totp_at six_digits truncated offset
    get_or length be64 to_u64
code_3_printed = refl

code_3_matches : match_totp toy (codes "k") code_3 90 ≡ (pos 3, true)
unfolding match_totp first_match bytes_eq decode_secret trim_pads drop_pads keep_if totp_at
    six_digits truncated offset get_or length be64 to_u64
code_3_matches = refl

password_matches : verify_password toy hash (3 ∷ 4 ∷ []) ≡ some true
unfolding verify_password verify_parts version_ok compare_key scan_params scan_field scan_num
    skip_blanks skip_plus span_digits value split cut_prefix bytes_eq length is_digit
password_matches = refl

admitted : (Limiter.allow fresh.limiter at_90.allow_at (codes "ip")).0 ≡ true
unfolding Limiter.allow Limiter.store Limiter.times_of Limiter.prune insert delete lookup length
    bytes_eq
admitted = refl

fresh-Proves : Proves toy fresh at_90 (codes "me") (3 ∷ 4 ∷ []) code_3 (pos 3)
fresh-Proves = record {
  user_right = refl;
  password_right = password_matches;
  code_right = code_3_matches;
  code_fresh = refl;
}

login-Grants_example :
    (s : Session) × ((login toy fresh at_90 (codes "ip") (codes "me") (3 ∷ 4 ∷ []) code_3).0
      ≡ ok (codes "u") s)
    × Grants toy fresh at_90
        (pos 3)
        (codes "u")
        s
        (login toy fresh at_90 (codes "ip") (codes "me") (3 ∷ 4 ∷ []) code_3).1
login-Grants_example =
    login-Grants toy fresh at_90 (codes "ip") (codes "me") (3 ∷ 4 ∷ []) code_3 (codes "u") (pos 3)
      admitted fresh-Proves refl

login_ok_Proves_example :
    ((Limiter.allow fresh.limiter at_90.allow_at (codes "ip")).0 ≡ true)
    × ((st : ℤ) × Proves toy fresh at_90 (codes "me") (3 ∷ 4 ∷ []) code_3 st)
login_ok_Proves_example =
    login_ok_Proves toy fresh at_90 (codes "ip") (codes "me") (3 ∷ 4 ∷ []) code_3
      (login-Grants toy fresh at_90 (codes "ip") (codes "me") (3 ∷ 4 ∷ []) code_3 (codes "u")
        (pos 3) admitted fresh-Proves refl).1

abbrev calls : List Call
calls =
    log_in at_90 (codes "ip") (codes "me") (3 ∷ 4 ∷ []) code_3
    ∷ restart (91 * second)
    ∷ check_session (92 * second) true (codes "u")
    ∷ log_in at_90 (codes "ip") (codes "me") (3 ∷ 4 ∷ []) code_3
    ∷ []

accepted_once_example : Increasing (pos 0) (accepted toy (new_authenticator cfg none 0) calls)
accepted_once_example = accepted_once toy cfg none 0 calls refl (refl, (tt, (refl, (refl, tt))))

session_known : lookup (codes "t") fresh.sessions ≡ some at_hand
unfolding lookup bytes_eq
session_known = refl

session_until_expiry_example :
    ((50 ≤ 50) → session toy fresh 50 true (codes "t") ≡ (some at_hand, fresh))
    × ((50 < 50)
        → ((session toy fresh 50 true (codes "t")).0 ≡ none)
          × (lookup (codes "t") (session toy fresh 50 true (codes "t")).1.sessions ≡ none))
session_until_expiry_example =
    session_until_expiry toy fresh 50 true (codes "t") at_hand session_known

logout_ends_example :
    ((session toy (logout toy fresh true (codes "t")) 9 true (codes "t")).0 ≡ none)
    × (codes "t" ≢ codes "v"
        → lookup (codes "v") (logout toy fresh true (codes "t")).sessions
          ≡ lookup (codes "v") fresh.sessions)
logout_ends_example = logout_ends toy fresh 9 true true (codes "t") (codes "v")

restart_keeps_example :
    ((lookup (codes "t") (new_authenticator cfg (save true fresh).disk 9).sessions ≡ some at_hand)
      ↔ ((lookup (codes "t") fresh.sessions ≡ some at_hand)
          × (at_hand.user ≡ codes "me")
          × (9 < at_hand.expires)))
    × ((new_authenticator cfg (save true fresh).disk 9).last_step ≡ pos 2)
restart_keeps_example = restart_keeps fresh 9 (codes "t") at_hand refl (tt, tt)

totp_code_accepted_example : (match_totp toy (codes "k") code_3 120).1 ≡ true
unfolding ◌-ℤ◌
totp_code_accepted_example =
    totp_code_accepted toy (codes "k") 119 120 code_3_printed (inr (inl refl))

verify-hash_example :
    (encoded : Bytes) × (hash_password toy (some (1 ∷ [])) (3 ∷ []) ≡ some encoded)
    × (verify_password toy encoded (4 ∷ [])
        ≡ some (bytes_eq (pad argon_key_len (4 ∷ [])) (pad argon_key_len (3 ∷ []))))
    × (verify_password toy encoded (3 ∷ []) ≡ some true)
verify-hash_example = verify-hash toy toy-CodecLaws (1 ∷ []) (3 ∷ []) (4 ∷ [])

abbrev attempts : List (ℕ × Op)
attempts =
    (1, failing (codes "a"))
    ∷ (2, failing (codes "a"))
    ∷ (3, allowing (codes "a"))
    ∷ (4, resetting (codes "a"))
    ∷ (20, allowing (codes "a"))
    ∷ []

run_refines_example : run (new_limiter 10 2 9) attempts ≡ spec_run 10 2 9 no_history attempts
run_refines_example =
    run_refines 10 2 9 attempts
      (omega arith, (omega arith, (omega arith, (omega arith, (omega arith, tt)))))
