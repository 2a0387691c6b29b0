-- ===== src/Config/Complete.antt =====
-- What a configuration that was loaded is sure to hold.
use pc_monitor.Base.{
  ℕ, true, false, List, [], ◌∷◌, ◌++◌, Option, none, some, Bytes, codes, contains_byte, map, All,
  ◌≡◌, ◌≢◌, ◌⊎◌, ◌↔◌, inl, inr, refl, sym, ◌∙◌, subst, Bool-cases, List-cases, arith, ◌==◌,
  if◌then◌else◌,
}
use pc_monitor.Base.Int.{ℤ, pos, negsuc, ◌==ℤ◌}
use pc_monitor.Config.{
  AuthConfig, PterodactylConfig, SystemdConfig, Config, missing, ok, err, is_empty, or_default,
  twelve_hours, normalize_auth, missing_fields, full_unit_name, normalize_systemd,
  normalize_pterodactyl, incomplete, map_block, normalize_providers, finish, normalize,
}

-- A login is complete when none of its three fields is empty.
pub record HasLogin (a : AuthConfig) : Type 0 where
  pub username : a.username ≢ []
  pub password_hash : a.password_hash ≢ []
  pub totp_secret : a.totp_secret ≢ []

abbrev pub UnitsComplete : Option SystemdConfig → Type 0
UnitsComplete none = Unit {0}
UnitsComplete (some s) = All (λ u. contains_byte b'.' u ≡ true) s.units

abbrev pub PanelComplete : Option PterodactylConfig → Type 0
PanelComplete none = Unit {0}
PanelComplete (some p) = (p.url ≢ []) × (p.api_key ≢ [])

pub record IsComplete (c : Config) : Type 0 where
  pub listen : c.listen ≢ []
  pub login : HasLogin c.auth
  pub ttl : c.auth.session_ttl ≢ pos 0
  pub audit : c.audit_path ≢ []
  pub units : UnitsComplete c.providers.systemd
  pub panel : PanelComplete c.providers.pterodactyl

is_empty-ne-nil : (s : Bytes) → is_empty s ≡ false → s ≢ []
is_empty-ne-nil [] h = absurd (cc)
is_empty-ne-nil (c ∷ s) h = λ e. cc

missing_fields-HasLogin : (a : AuthConfig) → missing_fields a ≡ [] → HasLogin a
unfolding missing_fields
missing_fields-HasLogin a h = record {
  username = is_empty-ne-nil a.username (ground arith);
  password_hash = is_empty-ne-nil a.password_hash (ground arith);
  totp_secret = is_empty-ne-nil a.totp_secret (ground arith);
}

or_default-ne-nil : (d s : Bytes) → d ≢ [] → or_default d s ≢ []
unfolding or_default
or_default-ne-nil d [] h = h
or_default-ne-nil d (c ∷ s) h = λ e. cc

contains_byte-append_right :
    (c : ℕ) (s t : Bytes) → contains_byte c t ≡ true → contains_byte c (s ++ t) ≡ true
unfolding contains_byte
contains_byte-append_right c [] t h = h
contains_byte-append_right c (x ∷ s) t h = ground (arith, contains_byte-append_right c s t h)

full_unit_name-dot : (u : Bytes) → contains_byte b'.' (full_unit_name u) ≡ true
unfolding full_unit_name
full_unit_name-dot u = elim (Bool-cases (contains_byte b'.' u)) [
  | inl e ↦ rw e e
  | inr e ↦
      rw e (contains_byte-append_right b'.' u (codes ".service") (unfold contains_byte in refl))
]

All-full_unit_name :
    (us : List Bytes) → All (λ u. contains_byte b'.' u ≡ true) (map full_unit_name us)
All-full_unit_name [] = tt
All-full_unit_name (u ∷ us) = (full_unit_name-dot u, All-full_unit_name us)

normalize_systemd-UnitsComplete :
    (o : Option SystemdConfig) → UnitsComplete (map_block normalize_systemd o)
unfolding normalize_systemd
normalize_systemd-UnitsComplete none = tt
normalize_systemd-UnitsComplete (some s) = All-full_unit_name s.units

incomplete-PanelComplete : (o : Option PterodactylConfig) → incomplete o ≡ false → PanelComplete o
unfolding incomplete
incomplete-PanelComplete none h = tt
incomplete-PanelComplete (some p) h =
    (is_empty-ne-nil p.url (ground arith), is_empty-ne-nil p.api_key (ground arith))

finish-ok :
    (c d : Config) → finish c ≡ ok d → (c ≡ d) × (incomplete c.providers.pterodactyl ≡ false)
unfolding finish
finish-ok c d h = ground arith

HasLogin-missing_fields : (a : AuthConfig) → HasLogin a → missing_fields a ≡ []
unfolding missing_fields
HasLogin-missing_fields a h = ground (arith, h.username, h.password_hash, h.totp_secret)

PanelComplete-incomplete : (o : Option PterodactylConfig) → PanelComplete o → incomplete o ≡ false
unfolding incomplete
PanelComplete-incomplete none h = refl
PanelComplete-incomplete (some p) h = ground (arith, h.0, h.1)

finish_of_complete : (c : Config) → incomplete c.providers.pterodactyl ≡ false → finish c ≡ ok c
unfolding finish
finish_of_complete c h = rw h

ttl-ne-zero : (d : ℤ) → (if d ==ℤ pos 0 then pos twelve_hours else d) ≢ pos 0
ttl-ne-zero (pos n) = elim (Bool-cases (n == 0)) [
  | inl e ↦ rw e (λ h. ground (arith, h))
  | inr e ↦ rw e (λ h. ground (arith, e, h))
]
ttl-ne-zero (negsuc n) = λ h. ground (arith, h)

-- The configuration that `normalize` builds where no login field is missing.
module _ (getenv : Bytes → Bytes) (host : Bytes) (c : Config) where
  built : Config
  built = record {
    listen = or_default (codes "127.0.0.1:7070") c.listen;
    hostname = or_default host c.hostname;
    mock = c.mock;
    auth = normalize_auth getenv c.auth;
    audit_path = or_default (codes "audit.jsonl") c.audit_path;
    providers = normalize_providers getenv c.providers;
    about = c.about;
  }

  built-IsComplete :
      HasLogin built.auth → incomplete built.providers.pterodactyl ≡ false → IsComplete built
  unfolding built normalize_auth normalize_providers
  built-IsComplete login panel = record {
    listen = or_default-ne-nil (codes "127.0.0.1:7070") c.listen (λ e. cc);
    login = login;
    ttl = ttl-ne-zero c.auth.session_ttl;
    audit = or_default-ne-nil (codes "audit.jsonl") c.audit_path (λ e. cc);
    units = normalize_systemd-UnitsComplete c.providers.systemd;
    panel =
        incomplete-PanelComplete (map_block (normalize_pterodactyl getenv) c.providers.pterodactyl)
          panel;
  }

  -- `normalize` in terms of what it builds.
  normalize_cases :
      ((f : Bytes) × (fs : List Bytes) × (missing_fields built.auth ≡ f ∷ fs)
        × (normalize getenv host c ≡ err (missing (f ∷ fs))))
      ⊎ ((missing_fields built.auth ≡ []) × (normalize getenv host c ≡ finish built))
  unfolding normalize built
  normalize_cases = elim (List-cases (missing_fields (normalize_auth getenv c.auth))) [
    | inl e ↦ inr (e, rw (e, normalize))
    | inr (f, fs, e) ↦ inl (f, fs, e, rw (e, normalize))
  ]

  -- A configuration that loads is complete: it has an address to listen on, an audit file, a
  -- session length other than zero, all three login fields, full unit names, and the address and key of
  -- the panel where that block is there.
  normalize-IsComplete : {d : Config} → normalize getenv host c ≡ ok d → IsComplete d
  normalize-IsComplete {d} h = elim normalize_cases [
    | inl (f, fs, m, e) ↦ absurd (ground (arith, e))
    | inr (m, e) ↦
        let (same, panel) = finish-ok built d (sym e ∙ h) in
        subst IsComplete same (built-IsComplete (missing_fields-HasLogin built.auth m) panel)
  ]

  -- A configuration loads exactly when, after secrets are read from the environment, no login
  -- field is empty and a panel block has both its address and its key.
  pub normalize_ok_iff : ((d : Config) × (normalize getenv host c ≡ ok d)) ↔ (
      HasLogin (normalize_auth getenv c.auth)
      × PanelComplete (normalize_providers getenv c.providers).pterodactyl)
  unfolding built
  normalize_ok_iff = (forward, back)
    where
      forward :
          ((d : Config) × (normalize getenv host c ≡ ok d))
          → HasLogin (normalize_auth getenv c.auth)
            × PanelComplete (normalize_providers getenv c.providers).pterodactyl
      forward (d, h) = elim normalize_cases [
        | inl (f, fs, m, e) ↦ absurd (ground (arith, e))
        | inr (m, e) ↦ (
          missing_fields-HasLogin built.auth m,
          incomplete-PanelComplete built.providers.pterodactyl (finish-ok built d (sym e ∙ h)).1,
        )
      ]

      back :
          HasLogin (normalize_auth getenv c.auth)
            × PanelComplete (normalize_providers getenv c.providers).pterodactyl
          → (d : Config) × (normalize getenv host c ≡ ok d)
      back (login, panel) = elim normalize_cases [
        | inl (f, fs, m, e) ↦ absurd (ground (arith, m, HasLogin-missing_fields built.auth login))
        | inr (m, e) ↦ (
          built,
          e ∙ finish_of_complete built (PanelComplete-incomplete built.providers.pterodactyl panel),
        )
      ]
