-- ===== src/Cli.antt =====
-- agent/cmd/dashd/main.go: the command line, and how `serve` puts the parts together. Parsed flags,
-- the terminal, files and the clock are arguments; what ends the process is a value.
pub mod Init
pub mod Registered
mod Tests
use pc_monitor.Base.{
  ℕ, Bool, true, false, not, ◌&&◌, List, [], ◌∷◌, ◌++◌, map, Option, none, some, Bytes, codes,
  bytes_eq, cut, join, insert, reverse, ◌==◌, ◌||◌, if◌then◌else◌,
}
use pc_monitor.Base.Int.{ℤ}
use pc_monitor.Config.{Config, Providers}
use pc_monitor.Provider.Registry.{
  is_blank, Listing, ServiceProvider, Registry, new_registry, Added, added, refused, add,
}
use pc_monitor.Pm2.Clean.{Unicode, trim_space}

pub data Command : Type 0 where
  serve_command init_command hash_command code_command export_command help_command unknown_command :
      Command

abbrev pub is_flag : Bytes → Bool
is_flag [] = false
is_flag (c ∷ s) = c == b'-'

unfoldable pub command_named : Bytes → Command
command_named s =
    if bytes_eq s (codes "serve")
    then serve_command
    else if bytes_eq s (codes "init")
    then init_command
    else if bytes_eq s (codes "hash-password")
    then hash_command
    else if bytes_eq s (codes "totp-code")
    then code_command
    else if bytes_eq s (codes "pm2-export")
    then export_command
    else if bytes_eq s (codes "help") || bytes_eq s (codes "-h") || bytes_eq s (codes "--help")
    then help_command
    else unknown_command

-- The command of `main` and the arguments that it gets.
unfoldable pub command_of : List Bytes → Command × List Bytes
command_of [] = (serve_command, [])
command_of (a ∷ as') = if is_flag a then (serve_command, a ∷ as') else (command_named a, as')

-- The exit status, by the error of the command that ran.
abbrev pub exit_status : Command → Option Bytes → ℕ
exit_status unknown_command e = 2
exit_status c none = 0
exit_status c (some e) = 1

-- What the providers answer to `List`.
pub record Listings : Type 0 where
  pub docker : Listing
  pub pterodactyl : Listing
  pub systemd : Listing
  pub pm2 : Listing

abbrev pub named : Bytes → Listing → ServiceProvider
named name l = record { name = name; listing = l }

abbrev pub block {ℓ} : {A : Type ℓ} → Option A → ServiceProvider → List ServiceProvider
block none p = []
block (some a) p = p ∷ []

-- The providers of the blocks that are there, in the order in which `serve` adds them.
abbrev pub real_ones : Providers → Listings → List ServiceProvider
real_ones ps l =
    block ps.docker (named (codes "docker") l.docker)
    ++ (block ps.pterodactyl (named (codes "pterodactyl") l.pterodactyl)
        ++ (block ps.systemd (named (codes "systemd") l.systemd)
            ++ block ps.pm2 (named (codes "pm2") l.pm2)))

-- `mocks` are the providers of `mock.Set`.
unfoldable pub configured : Config → Listings → List ServiceProvider → List ServiceProvider
configured c l mocks = if c.mock then mocks else real_ones c.providers l

-- `must(reg.Add(p))`, where `none` is its panic.
abbrev pub must_added : Added → Option Registry
must_added (added r) = some r
must_added (refused e) = none

unfoldable pub add_all : Registry → List ServiceProvider → Option Registry
add_all r [] = some r
add_all r (p ∷ ps) = elim (must_added (add r p)) [ none ↦ none | some r' ↦ add_all r' ps ]

-- `net.SplitHostPort`, `net.ParseIP` and `IsLoopback`.
pub record Net : Type 0 where
  pub host_of : Bytes → Option Bytes
  pub is_loopback_ip : Bytes → Bool

abbrev pub is_local_host : Net → Option Bytes → Bool
is_local_host n none = false
is_local_host n (some host) = bytes_eq host (codes "localhost") || n.is_loopback_ip host

-- `ListenIsLoopback`
unfoldable pub listen_is_loopback : Net → Config → Bool
listen_is_loopback n c = is_local_host n (n.host_of c.listen)

pub data Warning : Type 0 where
  not_loopback insecure_cookie mock_mode : Warning

abbrev pub warning : Bool → Warning → List Warning
warning true w = w ∷ []
warning false w = []

-- How `serve` goes: an error, a panic, or it listens at an address with these providers.
pub data Served : Type 0 where
  not_served : Bytes → Served
  panicked : Served
  serving : Registry → List Bytes → Served

abbrev pub opened_audit : Registry → Option Bytes → Served
opened_audit r (some e) = not_served (codes "open audit log: " ++ e)
opened_audit r none = serving r (map (λ p. p.name) r.list)

abbrev pub built : Option Registry → Option Bytes → Served
built none audit_error = panicked
built (some r) audit_error = opened_audit r audit_error

-- What loading the configuration brings.
pub data LoadedConfig : Type 0 where
  no_config : Bytes → LoadedConfig
  with_config : Config → LoadedConfig

-- `serve` up to where it listens, and the warnings.
unfoldable pub serve :
    Net → LoadedConfig → Listings → List ServiceProvider → Option Bytes → List Warning × Served
serve n (no_config e) l mocks audit_error = ([], not_served e)
serve n (with_config c) l mocks audit_error = (
  warning (not (listen_is_loopback n c)) not_loopback
      ++ (warning c.auth.insecure_cookie insecure_cookie ++ warning c.mock mock_mode),
  built (add_all new_registry (configured c l mocks)) audit_error,
)

-- `strings.TrimSpace`
abbrev pub trimmed : Unicode → Bytes → Bytes
trimmed u s = u.encode (trim_space (u.runes s))

abbrev pub set_pair :
    Unicode → List (Bytes × Bytes) → Option (Bytes × Bytes) → Option (List (Bytes × Bytes))
set_pair u m none = none
set_pair u m (some (name, path)) =
    if is_blank (trimmed u name) || is_blank (trimmed u path)
    then none
    else some (insert (trimmed u name) (trimmed u path) m)

-- `accountFlags.Set`, where `none` is its error.
unfoldable pub set_account : Unicode → List (Bytes × Bytes) → Bytes → Option (List (Bytes × Bytes))
set_account u m v = set_pair u m (cut b'=' v)

-- The flag as often as it is given; the first that is wrong ends the program.
unfoldable pub set_accounts :
    Unicode → List (Bytes × Bytes) → List Bytes → Option (List (Bytes × Bytes))
set_accounts u m [] = some m
set_accounts u m (v ∷ vs) = elim (set_account u m v) [
  | none ↦ none
  | some m' ↦ set_accounts u m' vs
]
