-- ===== src/Config.antt =====
-- agent/internal/config/config.go: the configuration and what loading makes of it. YAML decoding is
-- not modelled: `normalize` is given what the decoder left, with nil for an absent block or list.
-- Durations are in nanoseconds. The environment and the host's name are arguments.
pub mod Complete
mod Tests
use pc_monitor.Base.{
  ℕ, ◌+◌, ◌*◌, Bool, true, false, not, ◌||◌, List, [], ◌∷◌, ◌++◌, Option, none, some, Bytes, codes,
  bytes_eq, contains_byte, cut_prefix, map, reverse, ◌==◌, if◌then◌else◌,
}
use pc_monitor.Base.Int.{ℤ, pos, ◌==ℤ◌}

pub record AuthConfig : Type 0 where
  pub username : Bytes
  pub password_hash : Bytes
  pub totp_secret : Bytes
  pub session_ttl : ℤ
  pub sessions_path : Bytes
  pub insecure_cookie : Bool

pub record DockerConfig : Type 0 where
  pub label : Bytes
  pub socket : Bytes
  pub exclude_labels : Option (List Bytes)
  pub exclude : List Bytes

pub record SystemdConfig : Type 0 where
  pub label : Bytes
  pub units : List Bytes

pub record PterodactylConfig : Type 0 where
  pub label : Bytes
  pub url : Bytes
  pub api_key : Bytes
  pub all_servers : Bool

pub record Pm2Config : Type 0 where
  pub label : Bytes
  pub path : Bytes
  pub control : Bytes
  pub exclude : List Bytes

pub record Providers : Type 0 where
  pub docker : Option DockerConfig
  pub systemd : Option SystemdConfig
  pub pterodactyl : Option PterodactylConfig
  pub pm2 : Option Pm2Config

pub record Config : Type 0 where
  pub listen : Bytes
  pub hostname : Bytes
  pub mock : Bool
  pub auth : AuthConfig
  pub audit_path : Bytes
  pub providers : Providers
  pub about : List (Bytes × Bytes)

-- What `normalize` refuses: missing login fields, or an incomplete pterodactyl block.
pub data ConfigError : Type 0 where
  missing : List Bytes → ConfigError
  needs_url_and_key : ConfigError

pub data Loaded : Type 0 where
  ok : Config → Loaded
  err : ConfigError → Loaded

abbrev pub is_empty : Bytes → Bool
is_empty [] = true
is_empty (c ∷ s) = false

-- `if s == "" { s = d }`
unfoldable pub or_default : Bytes → Bytes → Bytes
or_default d s = if is_empty s then d else s

unfoldable pub resolve_secret : (Bytes → Bytes) → Bytes → Bytes
resolve_secret getenv v = elim (cut_prefix (codes "env:") v) [ none ↦ v | some name ↦ getenv name ]

-- `strings.TrimRight(s, "/")`
unfoldable pub drop_slashes : Bytes → Bytes
drop_slashes [] = []
drop_slashes (c ∷ s) = if c == b'/' then drop_slashes s else c ∷ s

unfoldable pub trim_slashes : Bytes → Bytes
trim_slashes s = reverse (drop_slashes (reverse s))

abbrev pub twelve_hours : ℕ
twelve_hours = 12 * 3600 * 1000000000

unfoldable pub sessions_path_of : Bytes → Bytes
sessions_path_of p =
    if is_empty p then codes "sessions.json" else if bytes_eq p (codes "none") then [] else p

unfoldable pub normalize_auth : (Bytes → Bytes) → AuthConfig → AuthConfig
normalize_auth getenv a = record {
  username = a.username;
  password_hash = resolve_secret getenv a.password_hash;
  totp_secret = resolve_secret getenv a.totp_secret;
  session_ttl = if a.session_ttl ==ℤ pos 0 then pos twelve_hours else a.session_ttl;
  sessions_path = sessions_path_of a.sessions_path;
  insecure_cookie = a.insecure_cookie;
}

unfoldable pub missing_fields : AuthConfig → List Bytes
missing_fields a =
    (if is_empty a.username then codes "auth.username" ∷ [] else [])
    ++ ((if is_empty a.password_hash then codes "auth.password_hash" ∷ [] else [])
        ++ (if is_empty a.totp_secret then codes "auth.totp_secret" ∷ [] else []))

unfoldable pub normalize_docker : DockerConfig → DockerConfig
normalize_docker d = record {
  label = or_default (codes "Docker") d.label;
  socket = or_default (codes "/var/run/docker.sock") d.socket;
  exclude_labels = elim d.exclude_labels [
    | none ↦ some (codes "Service=Pterodactyl" ∷ [])
    | some ls ↦ some ls
  ];
  exclude = d.exclude;
}

unfoldable pub full_unit_name : Bytes → Bytes
full_unit_name u = if not (contains_byte b'.' u) then u ++ codes ".service" else u

unfoldable pub normalize_systemd : SystemdConfig → SystemdConfig
normalize_systemd s = record {
  label = or_default (codes "Services") s.label;
  units = map full_unit_name s.units;
}

unfoldable pub normalize_pm2 : Pm2Config → Pm2Config
normalize_pm2 p = record {
  label = or_default (codes "Discord bots") p.label;
  path = or_default (codes "/run/pm2-status/pm2.json") p.path;
  control = or_default (codes "/run/pm2-status/control.sock") p.control;
  exclude = p.exclude;
}

unfoldable pub normalize_pterodactyl : (Bytes → Bytes) → PterodactylConfig → PterodactylConfig
normalize_pterodactyl getenv p = record {
  label = or_default (codes "Pterodactyl") p.label;
  url = trim_slashes p.url;
  api_key = resolve_secret getenv p.api_key;
  all_servers = p.all_servers;
}

-- `p.URL == "" || p.APIKey == ""` on a block that is there
unfoldable pub incomplete : Option PterodactylConfig → Bool
incomplete none = false
incomplete (some p) = is_empty p.url || is_empty p.api_key

abbrev pub map_block {ℓ} : {A : Type ℓ} → (A → A) → Option A → Option A
map_block f none = none
map_block f (some a) = some (f a)

unfoldable pub normalize_providers : (Bytes → Bytes) → Providers → Providers
normalize_providers getenv p = record {
  docker = map_block normalize_docker p.docker;
  systemd = map_block normalize_systemd p.systemd;
  pterodactyl = map_block (normalize_pterodactyl getenv) p.pterodactyl;
  pm2 = map_block normalize_pm2 p.pm2;
}

-- The end of `normalize`, once the login fields are known to be there.
unfoldable pub finish : Config → Loaded
finish c = if incomplete c.providers.pterodactyl then err needs_url_and_key else ok c

unfoldable pub normalize : (Bytes → Bytes) → Bytes → Config → Loaded
normalize getenv host c =
    let a = normalize_auth getenv c.auth in
    elim (missing_fields a) [
      | f ∷ fs ↦ err (missing (f ∷ fs))
      | [] ↦ finish (record {
        listen = or_default (codes "127.0.0.1:7070") c.listen;
        hostname = or_default host c.hostname;
        mock = c.mock;
        auth = a;
        audit_path = or_default (codes "audit.jsonl") c.audit_path;
        providers = normalize_providers getenv c.providers;
        about = c.about;
      })
    ]
