-- ===== src/About.antt =====
-- agent/internal/about/about.go: the description of a unit. The settings take precedence over the
-- built-in texts. `strings.ToLower` and `strings.TrimSpace` are parameters.
use pc_monitor.Base.{
  Bool, ◌||◌, List, [], ◌∷◌, ◌++◌, map, Option, none, some, Bytes, codes, bytes_eq, cut, cut_last,
  split, trim_suffix, join, contains_byte, lookup, insert, if◌then◌else◌,
}
use pc_monitor.Provider.{ProviderUnit}
use pc_monitor.Provider.Registry.{bytes_less}

pub record StringTools : Type 0 where
  pub lower : Bytes → Bytes
  pub trim_space : Bytes → Bytes

-- Built-in texts by provider and unit name.
unfoldable pub by_name : List (Bytes × Bytes)
by_name =
    (
      codes "systemd:wings",
      codes "Pterodactyl's node daemon: it starts, stops and runs your game "
          ++ codes "servers in Docker containers.",
    )
    ∷ (
      codes "systemd:playit",
      codes "playit.gg agent: tunnels game server ports to the internet, so "
          ++ codes "players can join without port forwarding.",
    )
    ∷ (
      codes "systemd:pteroq",
      codes "Pterodactyl panel's queue worker: runs the panel's background "
          ++ codes "jobs, such as schedules and emails.",
    )
    ∷ (
      codes "systemd:cloudflared",
      codes "Cloudflare Tunnel: carries traffic for your domains to the server "
          ++ codes "without open ports.",
    )
    ∷ (
      codes "systemd:nginx",
      codes "Web server and reverse proxy: serves websites and passes requests "
          ++ codes "on to apps on this server.",
    )
    ∷ (
      codes "systemd:mariadb",
      codes "MariaDB database server: stores the data of the apps that connect " ++ codes "to it.",
    )
    ∷ (
      codes "systemd:mysql",
      codes "MySQL database server: stores the data of the apps that connect to " ++ codes "it.",
    )
    ∷ (
      codes "systemd:postgresql",
      codes "PostgreSQL database server: stores the data of the apps that "
          ++ codes "connect to it.",
    )
    ∷ (
      codes "systemd:redis-server",
      codes "Redis: a fast in-memory store that apps use for caching, sessions "
          ++ codes "and job queues.",
    )
    ∷ (
      codes "systemd:redis",
      codes "Redis: a fast in-memory store that apps use for caching, sessions "
          ++ codes "and job queues.",
    )
    ∷ []

-- Built-in texts by image.
unfoldable pub by_image : List (Bytes × Bytes)
by_image =
    (
      codes "pterodactyl/panel",
      codes "Pterodactyl panel: the website where you create, manage and "
          ++ codes "configure your game servers.",
    )
    ∷ (
      codes "mariadb",
      codes "MariaDB database server: stores the data of the apps that connect " ++ codes "to it.",
    )
    ∷ (
      codes "mysql",
      codes "MySQL database server: stores the data of the apps that connect to " ++ codes "it.",
    )
    ∷ (
      codes "postgres",
      codes "PostgreSQL database server: stores the data of the apps that "
          ++ codes "connect to it.",
    )
    ∷ (
      codes "redis",
      codes "Redis: a fast in-memory store that apps use for caching, sessions "
          ++ codes "and job queues.",
    )
    ∷ (
      codes "louislam/uptime-kuma",
      codes "Uptime Kuma: checks that your sites and services are up and alerts "
          ++ codes "you when one goes down.",
    )
    ∷ (
      codes "nginx",
      codes "Web server and reverse proxy: serves websites and passes requests "
          ++ codes "on to apps on this server.",
    )
    ∷ (
      codes "cloudflare/cloudflared",
      codes "Cloudflare Tunnel: carries traffic for your domains to the server "
          ++ codes "without open ports.",
    )
    ∷ []

unfoldable pub by_provider : List (Bytes × Bytes)
by_provider =
    (
      codes "pterodactyl",
      codes "Game server on the Pterodactyl panel; Wings runs it in its own "
          ++ codes "Docker container.",
    )
    ∷ []

pub record Book : Type 0 where
  pub overrides : List (Bytes × Bytes)

-- The keys stay in the order of `sort.Strings`, so that of two equal ones the last counts.
unfoldable pub place_key : Bytes × Bytes → List (Bytes × Bytes) → List (Bytes × Bytes)
place_key e [] = e ∷ []
place_key e (f ∷ es) = if bytes_less f.0 e.0 then f ∷ place_key e es else e ∷ f ∷ es

unfoldable pub sort_keys : List (Bytes × Bytes) → List (Bytes × Bytes)
sort_keys [] = []
sort_keys (e ∷ es) = place_key e (sort_keys es)

unfoldable pub add_overrides :
    StringTools → List (Bytes × Bytes) → List (Bytes × Bytes) → List (Bytes × Bytes)
add_overrides t [] m = m
add_overrides t ((k, v) ∷ es) m =
    add_overrides t es (insert (t.lower (t.trim_space k)) (t.trim_space v) m)

unfoldable pub new_book : StringTools → List (Bytes × Bytes) → Book
new_book t overrides = record { overrides = add_overrides t (sort_keys overrides) [] }

abbrev without_digest : Bytes → Bytes
without_digest s = elim (cut b'@' s) [ none ↦ s | some p ↦ p.0 ]

-- A colon after the last slash begins the tag.
abbrev without_tag : Bytes → Bytes
without_tag s = elim (cut_last b':' s) [
  | none ↦ s
  | some (front, tail) ↦ if contains_byte b'/' tail then s else trim_suffix b':' front
]

abbrev is_host : Bytes → Bool
is_host s = contains_byte b'.' s || contains_byte b':' s || bytes_eq s (codes "localhost")

-- The first part goes where others follow and the test accepts it.
abbrev drop_first : (Bytes → Bool) → List Bytes → List Bytes
drop_first p [] = []
drop_first p (w ∷ []) = w ∷ []
drop_first p (w ∷ v ∷ ws) = if p w then v ∷ ws else w ∷ v ∷ ws

unfoldable pub image_name : StringTools → Bytes → Bytes
image_name t ref =
    let parts = split b'/' (without_tag (without_digest (t.lower (t.trim_space ref)))) in
    join (codes "/") (drop_first (λ w. bytes_eq w (codes "library")) (drop_first is_host parts))

-- The value of a key, empty where it is not there.
abbrev value_of : Option Bytes → Bytes
value_of none = []
value_of (some v) = v

abbrev or_else : Option Bytes → Option Bytes → Option Bytes
or_else none o = o
or_else (some v) o = some v

abbrev pub overridden : StringTools → Option Book → ProviderUnit → Option Bytes
overridden t none u = none
overridden t (some b) u =
    or_else (lookup (t.lower u.id) b.overrides) (lookup (t.lower u.name) b.overrides)

-- The text for an image counts for containers only.
abbrev pub built_in : StringTools → ProviderUnit → Option Bytes
built_in t u = or_else (lookup (u.provider ++ b':' ∷ t.lower u.name) by_name) (
    if bytes_eq u.provider (codes "docker")
    then lookup (image_name t (value_of (lookup (codes "image") u.meta))) by_image
    else none)

-- `For`; a nil book is `none`.
unfoldable pub describe : StringTools → Option Book → ProviderUnit → Bytes
describe t b u =
    value_of (or_else (overridden t b u) (or_else (built_in t u) (lookup u.provider by_provider)))

-- `Apply`
unfoldable pub describe_all : StringTools → Option Book → List ProviderUnit → List ProviderUnit
describe_all t b us = map {A = ProviderUnit} (λ u. record u { about = describe t b u }) us
