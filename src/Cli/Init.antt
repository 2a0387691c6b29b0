-- ===== src/Cli/Init.antt =====
-- agent/cmd/dashd/main.go: `dashd init`, `hash-password`, `totp-code` and `pm2-export`, given what
-- the terminal, the random numbers and the file system bring.
pub mod Password
use pc_monitor.Base.{
  ℕ, Bool, true, false, not, ◌&&◌, ◌||◌, List, [], ◌∷◌, ◌++◌, Option, none, some, Bytes, codes,
  reverse, length, ltb, ◌==◌, if◌then◌else◌,
}
use pc_monitor.Base.Int.{ℤ, pos}
use pc_monitor.Auth.Crypto.{Crypto}
use pc_monitor.Auth.Password.{hash_password}
use pc_monitor.Auth.Totp.{totp_code}
use pc_monitor.Provider.Registry.{is_blank}
use pc_monitor.Pm2.Clean.{Unicode}
use pc_monitor.Cli.{trimmed, set_accounts}

-- How `ReadString` ends: at the newline, at the end of the input, or by an error.
pub data Ending : Type 0 where
  at_newline at_end : Ending
  read_error : Bytes → Ending

-- A line with its newline, if it has one.
pub record Line : Type 0 where
  pub text : Bytes
  pub ending : Ending

unfoldable pub drop_breaks : Bytes → Bytes
drop_breaks [] = []
drop_breaks (c ∷ s) = if c == b'\r' || c == b'\n' then drop_breaks s else c ∷ s

-- `strings.TrimRight(line, "\r\n")`
unfoldable pub trim_breaks : Bytes → Bytes
trim_breaks s = reverse (drop_breaks (reverse s))

-- A value or an error.
pub data Got : Type 0 where
  got : Bytes → Got
  not_got : Bytes → Got

-- What stands at the standard input.
pub data Input : Type 0 where
  terminal : Got → Input
  piped : Line → Input

unfoldable pub read_password : Input → Got
read_password (terminal g) = g
read_password (piped l) = elim l.ending [
  | at_newline ↦ got (trim_breaks l.text)
  | at_end ↦ if is_blank l.text then not_got (codes "EOF") else got (trim_breaks l.text)
  | read_error e ↦ not_got e
]

abbrev or_error : Bytes → Option Bytes → Got
or_error e none = not_got e
or_error e (some s) = got s

abbrev hashed_got : Crypto → Bytes → Option Bytes → Got → Got
hashed_got c e salt (not_got x) = not_got x
hashed_got c e salt (got pw) = or_error e (hash_password c salt pw)

-- `hashPassword`; the error is that of the random numbers.
unfoldable pub hash_command_output : Crypto → Bytes → Option Bytes → Input → Got
hash_command_output c e salt i = hashed_got c e salt (read_password i)

-- `totpCode`
unfoldable pub code_command_output : Crypto → Bytes → Bytes → ℕ → Got
code_command_output c e secret unix = or_error e (totp_code c secret unix)

pub record InitFlags : Type 0 where
  pub out : Bytes
  pub user : Bytes
  pub mock : Bool

-- What `init` meets. `entropy_error` is the error where there are no random numbers.
pub record InitWorld : Type 0 where
  pub exists : Bool
  pub user_line : Line
  pub password : Input
  pub salt : Option Bytes
  pub secret : Option Bytes
  pub entropy_error : Bytes
  pub write_error : Option Bytes

-- An error, or the file with its content, and the login that was set up.
pub data Initialised : Type 0 where
  not_initialised : Bytes → Initialised
  wrote : Bytes → Bytes → Initialised

abbrev pub providers_text : Bytes
providers_text =
    codes
      "\nproviders:\n  docker:\n    socket: /var/run/docker.sock\n\n  # The services dashd shows and can restart. Nothing else is visible to it.\n"
    ++ (codes
          "  systemd:\n    units: [wings, playit, pteroq, cloudflared]\n\n  # Remove the # in front of these three lines once the API key is in\n  # /etc/dashd/env.\n"
        ++ (codes
              "  # pterodactyl:\n  #   url: https://panel.findiepman.dev\n  #   api_key: env:DASHD_PTERODACTYL_KEY\n\n"
            ++ codes
                "  # Discord bots run by pm2. Needs deploy/dashd-pm2.service\n  # running first (see DEPLOY.md), then remove the # in front of this line.\n  # pm2: {}\n"))

abbrev pub when : Bool → Bytes → Bytes
when true s = s
when false s = []

-- The text of the configuration, where `quote` is `%q`.
unfoldable pub config_text : (Bytes → Bytes) → Bool → Bytes → Bytes → Bytes → Bytes
config_text quote mock user hash secret =
    codes "listen: 127.0.0.1:7070\n"
    ++ (when mock (codes "mock: true\n")
        ++ (codes "\nauth:\n  username: "
            ++ (user
                ++ (codes "\n  password_hash: "
                    ++ (quote hash
                        ++ (codes "\n  totp_secret: "
                            ++ (secret
                                ++ (codes "\n  session_ttl: "
                                    ++ ((if mock then codes "12h" else codes "168h")
                                        ++ (codes "\n"
                                            ++ (when mock (codes "  insecure_cookie: true\n")
                                                ++ (codes "\naudit:\n  path: audit.jsonl\n"
                                                    ++ when (not mock) providers_text))))))))))))

module _ (u : Unicode) (c : Crypto) (quote : Bytes → Bytes) (f : InitFlags) (w : InitWorld) where
  abbrev written : Bytes → Option Bytes → Initialised
  written text none = wrote f.out text
  written text (some e) = not_initialised e

  abbrev with_secret : Bytes → Bytes → Option Bytes → Initialised
  with_secret user hash none = not_initialised w.entropy_error
  with_secret user hash (some secret) =
      written (config_text quote f.mock user hash secret) w.write_error

  abbrev with_hash : Bytes → Option Bytes → Initialised
  with_hash user none = not_initialised w.entropy_error
  with_hash user (some hash) = with_secret user hash w.secret

  abbrev with_password : Bytes → Got → Initialised
  with_password user (not_got e) = not_initialised e
  with_password user (got pw) =
      if ltb (length pw) 12 && not f.mock
      then not_initialised (codes "use at least 12 characters; this login guards root-level access")
      else with_hash user (hash_password c w.salt pw)

  abbrev with_user : Bytes → Initialised
  with_user user =
      if is_blank user
      then not_initialised (codes "username can't be empty")
      else with_password user (read_password w.password)

  -- A line without its newline is an error here.
  abbrev asked_user : Line → Got
  asked_user l = elim l.ending [
    | at_newline ↦ got (trimmed u l.text)
    | at_end ↦ not_got (codes "EOF")
    | read_error e ↦ not_got e
  ]

  abbrev user_name : Got
  user_name = if is_blank f.user then asked_user w.user_line else got f.user

  abbrev with_name : Got → Initialised
  with_name (not_got e) = not_initialised e
  with_name (got user) = with_user user

  -- `initConfig`
  unfoldable pub init_config : Initialised
  init_config =
      if w.exists
      then not_initialised (f.out ++ codes " already exists; move it away first")
      else with_name user_name

-- The options of `pm2-export` as the flags leave them.
pub record ExportFlags : Type 0 where
  pub out : Bytes
  pub every : ℤ
  pub home : Bytes
  pub control : Bytes
  pub control_user : Bytes
  pub accounts : List Bytes

abbrev pub default_flags : ExportFlags
default_flags = record {
  out = codes "/run/pm2-status/pm2.json";
  every = pos 10000000000;
  home = [];
  control = codes "/run/pm2-status/control.sock";
  control_user = codes "dashd";
  accounts = [];
}

-- The accounts that `pm2-export` hands on; `none` where a flag is refused.
unfoldable pub export_accounts : Unicode → ExportFlags → Option (List (Bytes × Bytes))
export_accounts u f = set_accounts u [] f.accounts
