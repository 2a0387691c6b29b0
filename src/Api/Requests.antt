-- ===== src/Api/Requests.antt =====
-- agent/internal/api/server.go: requests, their routes, and replies. The headers that every response
-- gets are left out.
use pc_monitor.Base.{
  ℕ, Bool, true, false, not, ◌&&◌, ◌||◌, List, [], ◌∷◌, ◌++◌, Option, none, some, Bytes, codes,
  bytes_eq, if◌then◌else◌,
}
use pc_monitor.Provider.{CallError, bad_action, unknown_unit, other_error}
use pc_monitor.Provider.Registry.{ServiceProvider, is_blank}
use pc_monitor.Auth.Authenticator.{Session}
use pc_monitor.Audit.{Entry}
use pc_monitor.Api.Hub.{UnitsSnapshot}

pub record LoginBody : Type 0 where
  pub username : Bytes
  pub password : Bytes
  pub code : Bytes

-- The patterns of `Handler`, where a path is cut into its segments.
pub data Route : Type 0 where
  login_route logout_route session_route meta_route units_route audit_route ws_route : Route
  action_route : Bytes → Bytes → Route
  no_endpoint page : Route

-- `segments` is the path cut at its slashes, the last one empty where it ends with a slash; the
-- redirects that the router makes by itself are left out. `origin`, `cf_ip` and `cookie` are headers and the cookie of the session, empty or `none` where
-- they are missing; `body` is what JSON reads.
pub record Request : Type 0 where
  pub method : Bytes
  pub segments : List Bytes
  pub path : Bytes
  pub host : Bytes
  pub origin : Bytes
  pub cf_ip : Bytes
  pub remote_addr : Bytes
  pub cookie : Option Bytes
  pub body : Option LoginBody

-- `upgrade` begins a websocket; `file` is one of the frontend, and whether browsers keep it for good.
pub data Body : Type 0 where
  empty upgrade done : Body
  error_text index_page : Bytes → Body
  file : Bytes → Bool → Body
  session_of : Option Session → Body
  meta_of : Bytes → List Bytes → Body
  units_of : UnitsSnapshot → Body
  audit_of : Option (List Entry) → Body

-- `expires` is `none` where the cookie is deleted.
pub record Cookie : Type 0 where
  pub value : Bytes
  pub expires : Option ℕ
  pub http_only : Bool
  pub secure : Bool
  pub same_site_strict : Bool

pub record Reply : Type 0 where
  pub status : ℕ
  pub body : Body
  pub cookie : Option Cookie

-- A call of a provider: which one, its local id, the action.
pub record Call : Type 0 where
  pub service : ServiceProvider
  pub local : Bytes
  pub action : Bytes

abbrev pub get : Bytes → Bool
get m = bytes_eq m (codes "GET") || bytes_eq m (codes "HEAD")

abbrev pub when : Bool → Route → Route
when true r = r
when false r = no_endpoint

abbrev pub in_api : Bytes → List Bytes → Route
in_api m (a ∷ []) =
    if bytes_eq a (codes "login")
    then when (bytes_eq m (codes "POST")) login_route
    else if bytes_eq a (codes "logout")
    then when (bytes_eq m (codes "POST")) logout_route
    else if bytes_eq a (codes "session")
    then when (get m) session_route
    else if bytes_eq a (codes "meta")
    then when (get m) meta_route
    else if bytes_eq a (codes "units")
    then when (get m) units_route
    else if bytes_eq a (codes "audit")
    then when (get m) audit_route
    else no_endpoint
in_api m (a ∷ id ∷ action ∷ []) =
    when
      (bytes_eq a (codes "units")
        && bytes_eq m (codes "POST")
        && not (is_blank id)
        && not (is_blank action))
      (action_route id action)
in_api m _ = no_endpoint

-- A pattern with GET takes HEAD too. Below `/api/` any other request is `no_endpoint`.
unfoldable pub route : Bytes → List Bytes → Route
route m [] = page
route m (a ∷ []) = if bytes_eq a (codes "ws") && get m then ws_route else page
route m (a ∷ b ∷ rest) = if bytes_eq a (codes "api") then in_api m (b ∷ rest) else page

abbrev pub is_host : Bytes → Option Bytes → Bool
is_host host none = false
is_host host (some h) = bytes_eq h host

abbrev pub host_or_addr : Option Bytes → Bytes → Bytes
host_or_addr none addr = addr
host_or_addr (some h) addr = h

abbrev pub error_reply : ℕ → Bytes → Reply
error_reply status text = record { status = status; body = error_text text; cookie = none }

abbrev pub json_reply : Body → Reply
json_reply b = record { status = 200; body = b; cookie = none }

-- The cookie that a login sets, or a logout deletes.
abbrev pub cookie_of : Bool → Bytes → Option ℕ → Cookie
cookie_of insecure value expires = record {
  value = value;
  expires = expires;
  http_only = true;
  secure = not insecure;
  same_site_strict = true;
}

abbrev pub error_of : Option CallError → Bytes
error_of none = []
error_of (some bad_action) = codes "unsupported action"
error_of (some unknown_unit) = codes "unknown unit"
error_of (some (other_error e)) = e

-- Unknown units and actions are not recorded.
abbrev pub worth_recording : Option CallError → Bool
worth_recording none = true
worth_recording (some bad_action) = false
worth_recording (some unknown_unit) = false
worth_recording (some (other_error e)) = true

abbrev pub action_reply : Bytes → Bytes → Option CallError → Reply
action_reply id action none = json_reply done
action_reply id action (some unknown_unit) =
    error_reply 404 (codes "No unit called " ++ (id ++ codes "."))
action_reply id action (some bad_action) =
    error_reply 400 (action ++ codes " isn't something dashd can do.")
action_reply id action (some (other_error e)) = error_reply 502 e
