-- ===== src/Api/Endpoints.antt =====
-- agent/internal/api/server.go: the endpoints. Go's URL parsing, IP addresses, the files of the
-- frontend and JSON are parameters.
use pc_monitor.Base.{
  ℕ, Bool, true, false, not, ◌&&◌, ◌||◌, [], ◌∷◌, map, Option, none, some, Bytes, codes, cut_prefix,
  if◌then◌else◌,
}
use pc_monitor.Base.Int.{pos}
use pc_monitor.Provider.{CallError, bad_action, unknown_unit}
use pc_monitor.Provider.Registry
use pc_monitor.Provider.Registry.{
  Registry, ServiceProvider, DoResult, passed_on, do_action, is_blank,
}
use pc_monitor.Auth.Crypto.{Crypto}
use pc_monitor.Auth.Authenticator.{
  Authenticator, World, locked, invalid, bad_hash, no_randomness, LoginResult, ok, err, login,
  logout, session,
}
use pc_monitor.Docker.Containers.{without_slash}
use pc_monitor.Audit.{Entry, Json, Log, append, recent_entries}
use pc_monitor.Api.Requests.{
  LoginBody, Request, empty, index_page, file, session_of, meta_of, units_of, audit_of, Reply, Call,
  get, is_host, host_or_addr, error_reply, json_reply, cookie_of, error_of, worth_recording,
  action_reply,
}
use pc_monitor.Api.Hub.{Hub, Envelopes, broadcast, refresh_units}

pub record Server (S : Type 0) : Type 0 where
  pub hostname : Bytes
  pub insecure_cookie : Bool
  pub auth : Authenticator
  pub registry : Registry
  pub hub : Hub S
  pub audit : Log

pub record Caller : Type 0 where
  pub token : Bytes
  pub user : Bytes
  pub ip : Bytes

-- The packages, and what the environment brings during one request: the clock, whether files can be
-- written, the files of the
-- frontend, the answer of a provider's own `Do`.
pub record Env (S : Type 0) : Type 0 where
  pub crypto : Crypto
  pub url_host : Bytes → Option Bytes
  pub split_host_port : Bytes → Option Bytes
  pub is_loopback : Bytes → Bool
  pub trim_space : Bytes → Bytes
  pub json : Json
  pub envelopes : Envelopes S
  pub world : World
  pub session_at : ℕ
  pub session_again_at : ℕ
  pub time : ℕ
  pub writable : Bool
  pub audit_writable : Bool
  pub clean_path : Bytes → Bytes
  pub is_file : Bytes → Bool
  pub index : Option Bytes
  pub call : ServiceProvider → Bytes → Bytes → Option CallError

pub record Outcome (S : Type 0) : Type 0 where
  pub reply : Reply
  pub server : Server S
  pub called : Option Call

-- `strings.HasPrefix`
abbrev starts_with : Bytes → Bytes → Bool
starts_with prefix s = elim (cut_prefix prefix s) [ none ↦ false | some rest ↦ true ]

module _ {S : Type 0} where
  -- Whether `sameOrigin` lets a request pass.
  unfoldable pub same_origin : Env S → Request → Bool
  same_origin env r =
      get r.method || (not (is_blank r.origin) && is_host r.host (env.url_host r.origin))

  unfoldable pub client_ip : Env S → Request → Bytes
  client_ip env r =
      let host = host_or_addr (env.split_host_port r.remote_addr) r.remote_addr in
      if env.is_loopback host && not (is_blank r.cf_ip) then r.cf_ip else host

  abbrev pub answer : Reply → Server S → Outcome S
  answer reply s = record { reply = reply; server = s; called = none }

  abbrev pub logged_in : Server S → LoginResult → Reply
  logged_in s (err locked) =
      error_reply 429 (codes "Too many failed attempts. Wait 15 minutes and try again.")
  logged_in s (err invalid) = error_reply 401 (codes "Username, password or code is wrong.")
  logged_in s (err bad_hash) =
      error_reply 500 (codes "Login is misconfigured on the server. Check the dashd logs.")
  logged_in s (err no_randomness) =
      error_reply 500 (codes "Login is misconfigured on the server. Check the dashd logs.")
  logged_in s (ok token sess) = record {
    status = 200;
    body = session_of (some sess);
    cookie = some (cookie_of s.insecure_cookie token (some sess.expires));
  }

  abbrev pub login_body : Env S → Request → Server S → Option LoginBody → Outcome S
  login_body env r s none =
      answer (error_reply 400 (codes "Send username, password and code as JSON.")) s
  login_body env r s (some b) =
      let (result, auth') =
        login env.crypto s.auth env.world (client_ip env r) b.username b.password
          (env.trim_space b.code) in
      answer (logged_in s result) (record s { auth = auth' })

  unfoldable pub login_handler : Env S → Request → Server S → Outcome S
  login_handler env r s = login_body env r s r.body

  unfoldable pub logout_handler : Env S → Caller → Server S → Outcome S
  logout_handler env c s =
      answer
        (record { status = 204; body = empty; cookie = some (cookie_of s.insecure_cookie [] none) })
        (record s { auth = logout env.crypto s.auth env.writable c.token })

  -- It asks for the session once more.
  unfoldable pub session_handler : Env S → Caller → Server S → Outcome S
  session_handler env c s =
      let (found, auth') = session env.crypto s.auth env.session_again_at env.writable c.token in
      answer (json_reply (session_of found)) (record s { auth = auth' })

  -- A label stands with its name in the source; a provider here has only the name.
  unfoldable pub meta_handler : Server S → Outcome S
  meta_handler s = answer (json_reply (meta_of s.hostname (map (λ p. p.name) s.registry.list))) s

  unfoldable pub units_handler : Server S → Outcome S
  units_handler s = answer (json_reply (units_of s.hub.units)) s

  unfoldable pub audit_handler : Server S → Outcome S
  audit_handler s = answer (json_reply (audit_of (recent_entries s.audit (pos 100)))) s

  -- `Registry.Do`: its error, and the call that it made.
  abbrev pub carried_out : Env S → Bytes → DoResult → Option CallError × Option Call
  carried_out env action Registry.bad_action = (some bad_action, none)
  carried_out env action Registry.unknown_unit = (some unknown_unit, none)
  carried_out env action (passed_on p local) =
      (env.call p local action, some (record { service = p; local = local; action = action }))

  abbrev pub entry_of : Env S → Caller → Bytes → Bytes → Option CallError → Entry
  entry_of env c id action e = record {
    time = env.time;
    user = c.user;
    ip = c.ip;
    unit = id;
    action = action;
    ok = (elim e [ none ↦ true | some x ↦ false ]);
    error = error_of e;
  }

  unfoldable pub record_entry : Env S → Entry → Server S → Server S
  record_entry env e s = record s {
    audit = (append env.json s.audit e env.audit_writable).1;
    hub = broadcast (env.envelopes.audit e) s.hub;
  }

  abbrev pub action_done :
      Env S → Caller → Bytes → Bytes → Option CallError × Option Call → Server S → Outcome S
  action_done env c id action (e, called) s =
      let s' = if worth_recording e then record_entry env (entry_of env c id action e) s else s in
      record {
        reply = action_reply id action e;
        server = record s' { hub = refresh_units s'.hub };
        called = called;
      }

  unfoldable pub action_handler : Env S → Caller → Bytes → Bytes → Server S → Outcome S
  action_handler env c id action s =
      action_done env c id action (carried_out env action (do_action s.registry id action)) s

  abbrev pub page_reply : Env S → Bytes → Reply
  page_reply env p =
      if not (is_blank p) && env.is_file p
      then json_reply (file p (starts_with (codes "assets/") p))
      else elim env.index [
        | none ↦
            error_reply 503
              (codes "The frontend isn't built. Run `npm run build` in web/ and rebuild dashd.")
        | some text ↦ json_reply (index_page text)
      ]

  -- `spa`; `is_file` says that a file is there and no directory.
  unfoldable pub spa : Env S → Request → Server S → Outcome S
  spa env r s = answer (page_reply env (without_slash (env.clean_path (b'/' ∷ r.path)))) s
