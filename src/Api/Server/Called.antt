-- ===== src/Api/Server/Called.antt =====
-- The calls of providers that an outcome has come from an action of a caller with a session.
use pc_monitor.Base.{true, false, Option, none, some, Bytes, ◌≡◌, refl, subst, sym, ◌∙◌, arith}
use pc_monitor.Provider.{CallError}
use pc_monitor.Provider.Registry
use pc_monitor.Provider.Registry.{ServiceProvider, DoResult, passed_on, do_action, is_blank}
use pc_monitor.Auth.Authenticator.{Session, Authenticator, session}
use pc_monitor.Api.Requests.{
  Route, login_route, logout_route, session_route, meta_route, units_route, audit_route, ws_route,
  action_route, no_endpoint, page, Request, Call, LoginBody,
}
use pc_monitor.Api.Endpoints.{
  Server, Caller, Env, Outcome, client_ip, login_handler, logout_handler, session_handler,
  meta_handler, units_handler, audit_handler, carried_out, action_done, action_handler, spa,
  login_body,
}
use pc_monitor.Api.Server.{signed_in, authed, serve}

pub some_eq : {A : Type 0} {a b : A} → some a ≡ some b → a ≡ b
some_eq h = cc

quiet_absurd : {o : Option Call} {call : Call} → o ≡ none → o ≡ some call → true ≡ false
quiet_absurd q e = ground (arith, sym q ∙ e)

module _ {S : Type 0} where
  abbrev pub caller_of : Env S → Request → Bytes → Session → Caller
  caller_of env r token sess = record { token = token; user = sess.user; ip = client_ip env r }

  -- The state behind the lookup of a session.
  abbrev pub after : Env S → Bytes → Server S → Server S
  after env token s = record s {
    auth = (session env.crypto s.auth env.session_at env.writable token).1;
  }

  -- A call that an outcome made, and what the handler behind `authed` was given.
  pub signed_in_called :
      (env : Env S) (r : Request) (token : Bytes) (h : Caller → Server S → Outcome S)
      (found : Option Session × Authenticator) (s : Server S) {call : Call}
      → (signed_in env r token h found s).called ≡ some call
      → (sess : Session) × (found.0 ≡ some sess)
        × ((h (caller_of env r token sess) (record s { auth = found.1 })).called ≡ some call)
  signed_in_called env r token h (none, auth') s e = absurd (ground (arith, e))
  signed_in_called env r token h (some sess, auth') s e = (sess, refl, e)

  pub record Passed (env : Env S) (r : Request) (cookie : Option Bytes)
      (h : Caller → Server S → Outcome S) (s : Server S) (call : Call) : Type 0 where
    pub token : Bytes
    pub has_token : cookie ≡ some token
    pub sess : Session
    pub has_session : (session env.crypto s.auth env.session_at env.writable token).0 ≡ some sess
    pub calls : (h (caller_of env r token sess) (after env token s)).called ≡ some call

  authed_called :
      (env : Env S) (r : Request) (cookie : Option Bytes) (h : Caller → Server S → Outcome S)
      (s : Server S) {call : Call}
      → (authed env r cookie h s).called ≡ some call
      → Passed env r cookie h s call
  unfolding authed
  authed_called env r none h s e = absurd (ground (arith, e))
  authed_called env r (some token) h s e =
      let (sess, is, calls) =
        signed_in_called env r token h (session env.crypto s.auth env.session_at env.writable token)
          s e in
      record { token = token; has_token = refl; sess = sess; has_session = is; calls = calls }

  -- An outcome that called no provider.
  abbrev Quiet : Outcome S → Type 0
  Quiet o = o.called ≡ none

  login_body-Quiet :
      (env : Env S) (r : Request) (s : Server S) (b : Option LoginBody)
      → Quiet (login_body env r s b)
  login_body-Quiet env r s none = refl
  login_body-Quiet env r s (some b) = refl

  login_handler-Quiet : (env : Env S) (r : Request) (s : Server S) → Quiet (login_handler env r s)
  unfolding login_handler
  login_handler-Quiet env r s = login_body-Quiet env r s r.body

  pub carried_out_called :
      (env : Env S) (action : Bytes) (d : DoResult) (call : Call)
      → (carried_out env action d).1 ≡ some call
      → (d ≡ passed_on call.service call.local) × (call.action ≡ action)
  carried_out_called env action Registry.bad_action call e = absurd (ground (arith, e))
  carried_out_called env action Registry.unknown_unit call e = absurd (ground (arith, e))
  carried_out_called env action (passed_on p local) call e =
      subst (λ c. (passed_on p local ≡ passed_on c.service c.local) × (c.action ≡ action))
        (some_eq e) (refl, refl)

  pub called-action_done :
      (env : Env S) (c : Caller) (id action : Bytes) (p : Option CallError × Option Call)
      (s : Server S)
      → (action_done env c id action p s).called ≡ p.1
  called-action_done env c id action (e, called) s = refl

  authed_absurd :
      (env : Env S) (r : Request) (h : Caller → Server S → Outcome S) (s : Server S) {call : Call}
      → ((c : Caller) (t : Server S) → Quiet (h c t))
      → (authed env r r.cookie h s).called ≡ some call
      → true ≡ false
  authed_absurd env r h s q e =
      let p = authed_called env r r.cookie h s e in
      quiet_absurd (q (caller_of env r p.token p.sess) (after env p.token s)) p.calls

  -- A call comes from the route of an action.
  pub serve_called :
      (env : Env S) (r : Request) (to : Route) (s : Server S) {call : Call}
      → (serve env r to s).called ≡ some call
      → (id : Bytes) × (action : Bytes) × (to ≡ action_route id action)
        × Passed env r r.cookie (λ c. action_handler env c id action) s call
  unfolding serve logout_handler session_handler meta_handler units_handler audit_handler spa
  serve_called env r login_route s e =
      absurd (ground (arith, quiet_absurd (login_handler-Quiet env r s) e))
  serve_called env r logout_route s e =
      absurd (ground (arith, authed_absurd env r _ s (λ c t. refl) e))
  serve_called env r session_route s e =
      absurd (ground (arith, authed_absurd env r _ s (λ c t. refl) e))
  serve_called env r meta_route s e =
      absurd (ground (arith, authed_absurd env r _ s (λ c t. refl) e))
  serve_called env r units_route s e =
      absurd (ground (arith, authed_absurd env r _ s (λ c t. refl) e))
  serve_called env r audit_route s e =
      absurd (ground (arith, authed_absurd env r _ s (λ c t. refl) e))
  serve_called env r ws_route s e = absurd (ground (arith, authed_absurd env r _ s (λ c t. refl) e))
  serve_called env r no_endpoint s e = absurd (ground (arith, e))
  serve_called env r page s e = absurd (ground (arith, e))
  serve_called env r (action_route id action) s e =
      (id, action, refl, authed_called env r r.cookie (λ c. action_handler env c id action) s e)
