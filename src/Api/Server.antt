-- ===== src/Api/Server.antt =====
-- agent/internal/api/server.go: what stands before the endpoints. Go's router is left to its
-- documented rules.
pub mod Paths
pub mod Called
pub mod Guard
pub mod Recorded
use pc_monitor.Base.{
  ℕ, Bool, true, false, not, ◌&&◌, ◌||◌, [], ◌∷◌, ◌++◌, map, Option, none, some, Bytes, codes,
  cut_prefix, if◌then◌else◌,
}
use pc_monitor.Base.Int.{pos}
use pc_monitor.Provider.{CallError, bad_action, unknown_unit, other_error}
use pc_monitor.Provider.Registry
use pc_monitor.Provider.Registry.{
  Registry, ServiceProvider, DoResult, passed_on, do_action, is_blank,
}
use pc_monitor.Auth.Crypto.{Crypto}
use pc_monitor.Auth.Authenticator.{
  Session, Authenticator, World, locked, invalid, bad_hash, no_randomness, LoginResult, ok, err,
  login, logout, session,
}
use pc_monitor.Docker.Containers.{without_slash}
use pc_monitor.Audit.{Entry, Json, Log, append, recent_entries}
use pc_monitor.Api.Requests.{
  LoginBody, Route, login_route, logout_route, session_route, meta_route, units_route, audit_route,
  ws_route, action_route, no_endpoint, page, Request, empty, upgrade, index_page, file, session_of,
  meta_of, units_of, audit_of, done, Reply, Call, route, get, is_host, host_or_addr, error_reply,
  json_reply, cookie_of, error_of, worth_recording, action_reply,
}
use pc_monitor.Api.Hub.{Hub, Envelopes, broadcast, refresh_units}
use pc_monitor.Api.Endpoints.{
  Server, Caller, Env, Outcome, same_origin, client_ip, answer, login_handler, logout_handler,
  session_handler, meta_handler, units_handler, audit_handler, action_handler, spa,
}

module _ {S : Type 0} where
  abbrev pub signed_in :
      Env S
      → Request
      → Bytes
      → (Caller → Server S → Outcome S)
      → Option Session × Authenticator
      → Server S
      → Outcome S
  signed_in env r token h (none, auth') s =
      answer (error_reply 401 (codes "Your session ended. Sign in again."))
        (record s { auth = auth' })
  signed_in env r token h (some sess, auth') s =
      h (record { token = token; user = sess.user; ip = client_ip env r })
        (record s { auth = auth' })

  -- `authed`, given the cookie.
  unfoldable pub authed :
      Env S → Request → Option Bytes → (Caller → Server S → Outcome S) → Server S → Outcome S
  authed env r none h s = answer (error_reply 401 (codes "Sign in to continue.")) s
  authed env r (some token) h s =
      signed_in env r token h (session env.crypto s.auth env.session_at env.writable token) s

  -- The router. The upgrade to a websocket only begins here.
  unfoldable pub serve : Env S → Request → Route → Server S → Outcome S
  serve env r login_route s = login_handler env r s
  serve env r logout_route s = authed env r r.cookie (logout_handler env) s
  serve env r session_route s = authed env r r.cookie (session_handler env) s
  serve env r meta_route s = authed env r r.cookie (λ c. meta_handler) s
  serve env r units_route s = authed env r r.cookie (λ c. units_handler) s
  serve env r (action_route id action) s =
      authed env r r.cookie (λ c. action_handler env c id action) s
  serve env r audit_route s = authed env r r.cookie (λ c. audit_handler) s
  serve env r ws_route s =
      authed env r r.cookie (λ c. answer (record { status = 101; body = upgrade; cookie = none })) s
  serve env r no_endpoint s = answer (error_reply 404 (codes "No such endpoint.")) s
  serve env r page s = spa env r s

  -- `Handler`
  unfoldable pub handle : Env S → Request → Server S → Outcome S
  handle env r s =
      if same_origin env r
      then serve env r (route r.method r.segments) s
      else answer (error_reply 403 (codes "Request came from another site and was blocked.")) s
