-- ===== src/Api/Server/Guard.antt =====
-- Which requests reach a provider, and which leave the record of actions alone.
use pc_monitor.Base.{
  true, false, not, ◌&&◌, Option, none, some, Bytes, codes, bytes_eq, bytes_eq_iff, bytes_eq_refl,
  Bool-cases, inl, inr, ◌≡◌, ◌↔◌, refl, sym, ap, ◌∙◌, arith,
}
use pc_monitor.Provider.Registry.{passed_on, do_action, is_blank}
use pc_monitor.Auth.Authenticator.{Session, Authenticator, session}
use pc_monitor.Api.Requests.{action_route, Request, Call, route, is_host}
use pc_monitor.Api.Endpoints.{
  Server, Caller, Env, Outcome, same_origin, carried_out, action_done, action_handler,
}
use pc_monitor.Api.Server.{signed_in, authed, serve, handle}
use pc_monitor.Api.Server.Called.{
  some_eq, Passed, caller_of, after, carried_out_called, called-action_done, serve_called,
}
use pc_monitor.Api.Server.Paths.{action_path, not_blank_passed, route-action, route_action}

is_host-eq : (host : Bytes) (o : Option Bytes) → is_host host o ≡ true → o ≡ some host
is_host-eq host none h = absurd (ground (arith, h))
is_host-eq host (some x) h = ap some ((bytes_eq_iff x host).0 h)

module _ {S : Type 0} where
  -- What a request needs to have a provider called.
  pub record Permits (env : Env S) (r : Request) (s : Server S) (call : Call) : Type 0 where
    pub is_post : r.method ≡ codes "POST"
    pub some_origin : is_blank r.origin ≡ false
    pub own_origin : env.url_host r.origin ≡ some r.host
    pub token : Bytes
    pub has_token : r.cookie ≡ some token
    pub sess : Session
    pub has_session : (session env.crypto s.auth env.session_at env.writable token).0 ≡ some sess
    pub id : Bytes
    pub at_path : r.segments ≡ action_path id call.action
    pub known : do_action s.registry id call.action ≡ passed_on call.service call.local

  same_origin-post :
      (env : Env S) (r : Request)
      → r.method ≡ codes "POST"
      → same_origin env r ≡ true
      → (is_blank r.origin ≡ false) × (env.url_host r.origin ≡ some r.host)
  unfolding same_origin bytes_eq
  same_origin-post env r post h =
      let after : not (is_blank r.origin) && is_host r.host (env.url_host r.origin) ≡ true =
        rw post at h in
      (ground (arith, after), is_host-eq r.host (env.url_host r.origin) (ground (arith, after)))

  origin-same :
      (env : Env S) (r : Request)
      → is_blank r.origin ≡ false
      → env.url_host r.origin ≡ some r.host
      → same_origin env r ≡ true
  unfolding same_origin
  origin-same env r blank own = rw (own, bytes_eq_refl) (ground (arith, blank))

  Passed-Permits :
      (env : Env S) (r : Request) (s : Server S) (call : Call) (id action : Bytes)
      → same_origin env r ≡ true
      → route r.method r.segments ≡ action_route id action
      → Passed env r r.cookie (λ c. action_handler env c id action) s call
      → Permits env r s call
  unfolding action_handler
  Passed-Permits env r s call id action same to p =
      let (post, path) = route_action r.method r.segments id action to in
      let (some_one, own) = same_origin-post env r post same in
      let (is, named) = carried_out_called env action (do_action s.registry id action) call (
        sym (
          called-action_done env (caller_of env r p.token p.sess) id action
            (carried_out env action (do_action s.registry id action)) (after env p.token s))
        ∙ p.calls) in
      record {
        is_post = post;
        some_origin = some_one;
        own_origin = own;
        token = p.token;
        has_token = p.has_token;
        sess = p.sess;
        has_session = p.has_session;
        id = id;
        at_path = path ∙ ap (action_path id) (sym named);
        known = ap (do_action s.registry id) named ∙ is;
      }

  calls_permitted :
      (env : Env S) (r : Request) (s : Server S) {call : Call}
      → (handle env r s).called ≡ some call
      → Permits env r s call
  unfolding handle
  calls_permitted env r s {call} e = elim (Bool-cases (same_origin env r)) [
    | inl same ↦
        let (id, action, to, p) = serve_called env r (route r.method r.segments) s (rw same at e) in
        Passed-Permits env r s call id action same to p
    | inr other ↦ absurd (ground (arith, rw other at e))
  ]

  signed_in-found :
      (env : Env S) (r : Request) (token : Bytes) (h : Caller → Server S → Outcome S)
      (found : Option Session × Authenticator) (s : Server S) {sess : Session}
      → found.0 ≡ some sess
      → signed_in env r token h found s
        ≡ h (caller_of env r token sess) (record s { auth = found.1 })
  signed_in-found env r token h (none, auth') s e = absurd (ground (arith, e))
  signed_in-found env r token h (some sess', auth') s e =
      ap (λ x. h (caller_of env r token x) (record s { auth = auth' })) (some_eq e)

  handle-serve :
      (env : Env S) (r : Request) (s : Server S)
      → same_origin env r ≡ true
      → handle env r s ≡ serve env r (route r.method r.segments) s
  unfolding handle
  handle-serve env r s same = rw same refl

  abbrev act_on : Env S → Bytes → Bytes → Caller → Server S → Outcome S
  act_on env id action c = action_handler env c id action

  -- What a request with all of that does.
  pub handle_permitted :
      (env : Env S) (r : Request) (s : Server S) {call : Call} (p : Permits env r s call)
      → handle env r s
        ≡ action_done env
            (caller_of env r p.token p.sess)
            p.id
            call.action
            (env.call call.service call.local call.action, some call)
            (after env p.token s)
  unfolding serve authed action_handler
  handle_permitted env r s {call} p =
      let (some_id, some_action) =
        not_blank_passed s.registry p.id call.action call.service call.local p.known in
      let to : route r.method r.segments ≡ action_route p.id call.action =
        ap (λ m. route m r.segments) p.is_post
        ∙ ap (route (codes "POST")) p.at_path
        ∙ route-action p.id call.action some_id some_action in
      let same = origin-same env r p.some_origin p.own_origin in
      handle-serve env r s same
      ∙ ap (λ t. serve env r t s) to
      ∙ ap (λ c. authed env r c (act_on env p.id call.action) s) p.has_token
      ∙ signed_in-found env r p.token (act_on env p.id call.action)
          (session env.crypto s.auth env.session_at env.writable p.token) s p.has_session
      ∙ ap
          (λ d.
            action_done env (caller_of env r p.token p.sess) p.id call.action
              (carried_out env call.action d) (after env p.token s))
          p.known

-- A provider is asked for an action exactly by a POST to the action's path, whose origin is the
-- host that it was sent to, whose cookie has a session at that moment, and whose id and action the
-- registry knows; and it is the provider and the local id of that id.
pub handle_calls_iff :
    {S : Type 0} (env : Env S) (r : Request) (s : Server S) (call : Call)
    → ((handle env r s).called ≡ some call) ↔ Permits env r s call
handle_calls_iff env r s call =
    (calls_permitted env r s, λ p. ap (λ o. o.called) (handle_permitted env r s p))
