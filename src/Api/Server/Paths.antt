-- ===== src/Api/Server/Paths.antt =====
-- Only a POST to the path of an action is routed to one.
use pc_monitor.Base.{
  Bool, true, false, ◌&&◌, List, [], ◌∷◌, Bytes, codes, bytes_eq, bytes_eq_iff, Bool-cases, inl,
  inr, ◌≡◌, refl, sym, ap, ◌∙◌, arith, if◌then◌else◌, cut,
}
use pc_monitor.Provider.{valid_action}
use pc_monitor.Provider.Registry.{
  Registry, ServiceProvider, passed_on, do_action, is_blank, resolve,
}
use pc_monitor.Api.Requests.{
  Route, login_route, logout_route, session_route, meta_route, units_route, audit_route, ws_route,
  action_route, no_endpoint, page, route, get, when, in_api,
}

abbrev pub action_path : Bytes → Bytes → List Bytes
action_path id action = codes "api" ∷ codes "units" ∷ id ∷ action ∷ []

pub not_blank_passed :
    (r : Registry) (id action : Bytes) (p : ServiceProvider) (local : Bytes)
    → do_action r id action ≡ passed_on p local
    → (is_blank id ≡ false) × (is_blank action ≡ false)
unfolding do_action valid_action resolve cut bytes_eq
not_blank_passed r [] [] p local h = absurd (ground (arith, h))
not_blank_passed r [] (a ∷ action) p local h = absurd (ground (arith, h))
not_blank_passed r (c ∷ id) [] p local h = absurd (ground (arith, h))
not_blank_passed r (c ∷ id) (a ∷ action) p local h = (refl, refl)

pub route-action :
    (id action : Bytes)
    → is_blank id ≡ false
    → is_blank action ≡ false
    → route (codes "POST") (action_path id action) ≡ action_route id action
unfolding route bytes_eq
route-action id action h k = rw (h, k) refl

-- A route that is no action.
abbrev is_plain : Route → Bool
is_plain (action_route id action) = false
is_plain login_route = true
is_plain logout_route = true
is_plain session_route = true
is_plain meta_route = true
is_plain units_route = true
is_plain audit_route = true
is_plain ws_route = true
is_plain no_endpoint = true
is_plain page = true

is_plain-when : (b : Bool) (r : Route) → is_plain r ≡ true → is_plain (when b r) ≡ true
is_plain-when true r h = h
is_plain-when false r h = refl

is_plain-in_api : (m a : Bytes) → is_plain (in_api m (a ∷ [])) ≡ true
is_plain-in_api m a =
    let post = bytes_eq m (codes "POST") in
    ground (
      arith,
      is_plain-when post login_route refl,
      is_plain-when post logout_route refl,
      is_plain-when (get m) session_route refl,
      is_plain-when (get m) meta_route refl,
      is_plain-when (get m) units_route refl,
      is_plain-when (get m) audit_route refl,
    )

not_plain :
    (r : Route) (id action : Bytes) → is_plain r ≡ true → r ≡ action_route id action → true ≡ false
not_plain r id action h e = sym h ∙ ap is_plain e

when_action :
    (b : Bool) (i a id action : Bytes)
    → when b (action_route i a) ≡ action_route id action
    → (b ≡ true) × (i ≡ id) × (a ≡ action)
when_action true i a id action h = (refl, ground (arith, h), ground (arith, h))
when_action false i a id action h = absurd (ground (arith, h))

in_api_action :
    (m : Bytes) (segments : List Bytes) (id action : Bytes)
    → in_api m segments ≡ action_route id action
    → (bytes_eq m (codes "POST") ≡ true) × (segments ≡ codes "units" ∷ id ∷ action ∷ [])
in_api_action m [] id action h = absurd (ground (arith, h))
in_api_action m (a ∷ []) id action h =
    absurd (ground (arith, not_plain _ id action (is_plain-in_api m a) h))
in_api_action m (a ∷ b ∷ []) id action h = absurd (ground (arith, h))
in_api_action m (a ∷ i ∷ x ∷ []) id action h =
    let (b, same, named) = when_action _ i x id action h in
    let units : a ≡ codes "units" = (bytes_eq_iff a (codes "units")).0 (ground (arith, b)) in
    (ground (arith, b), cc)
in_api_action m (a ∷ i ∷ x ∷ y ∷ more) id action h = absurd (ground (arith, h))

-- Only a POST to the path of an action is one.
pub route_action :
    (m : Bytes) (segments : List Bytes) (id action : Bytes)
    → route m segments ≡ action_route id action
    → (m ≡ codes "POST") × (segments ≡ action_path id action)
unfolding route
route_action m [] id action h = absurd (ground (arith, h))
route_action m (a ∷ []) id action h =
    absurd (ground (arith, not_plain _ id action (plain_one (bytes_eq a (codes "ws") && get m)) h))
  where
    plain_one : (b : Bool) → is_plain (if b then ws_route else page) ≡ true
    plain_one true = refl
    plain_one false = refl
route_action m (a ∷ b ∷ rest) id action h = elim (Bool-cases (bytes_eq a (codes "api"))) [
  | inl e ↦
      let (post, units) = in_api_action m (b ∷ rest) id action (rw e at h) in
      let api : a ≡ codes "api" = (bytes_eq_iff a (codes "api")).0 e in
      ((bytes_eq_iff m (codes "POST")).0 post, cc)
  | inr e ↦ absurd (ground (arith, rw e at h))
]
