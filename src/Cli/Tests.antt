-- ===== src/Cli/Tests.antt =====
-- `serve` with docker and pm2, and `init` at a terminal.
use pc_monitor.Base.Int.{pos}
use pc_monitor.Docker.Containers.{Container, plain_unit}
use pc_monitor.Pm2.Processes.{Proc, bind}
use pc_monitor.Pm2.Processes.Unique.{bind-LocallyDistinct}
use pc_monitor.Provider.Registry.Ids.{LocallyDistinct}
use pc_monitor.Base.{
  All, bytes_eq, map, ◌∷◌, [], Bytes, false, Option, codes, some, none, length, ◌≡◌, refl,
}
use pc_monitor.Config.{Config, AuthConfig}
use pc_monitor.Auth.Toy.{toy, toy-CodecLaws}
use pc_monitor.Auth.Password.{hash_password}
use pc_monitor.Pm2.Clean.{Unicode}
use pc_monitor.Provider.Registry.{Registry, listed, list_all}
use pc_monitor.Provider.Registry.Routing.{Distinct, IsValid}
use pc_monitor.Provider.Registry.Ids.{ids}
use pc_monitor.Cli.{Listings, real_ones, Net, with_config, opened_audit, serve}
use pc_monitor.Cli.Registered.{serve-IsValid}
use pc_monitor.Cli.Init.{
  read_password, got, terminal, at_newline, InitFlags, InitWorld, config_text, init_config,
}
use pc_monitor.Cli.Init.Password.{IsLogin, init_config-IsLogin}

abbrev auth : AuthConfig
auth = record {
  username = codes "me";
  password_hash = codes "h";
  totp_secret = codes "k";
  session_ttl = pos 1000;
  sessions_path = [];
  insecure_cookie = false;
}

abbrev config : Config
config = record {
  listen = codes "127.0.0.1:7070";
  hostname = codes "pi";
  mock = false;
  auth = auth;
  audit_path = codes "a";
  providers = record {
    docker = some (record { label = []; socket = []; exclude_labels = none; exclude = [] });
    systemd = none;
    pterodactyl = none;
    pm2 = some (record { label = []; path = []; control = []; exclude = [] });
  };
  about = [];
}

abbrev ascii : Unicode
ascii = record { runes = λ s. s; encode = λ s. s; lower = λ s. s }

abbrev container : Bytes → Container
container name = record {
  id = name;
  names = name ∷ [];
  image = codes "nginx";
  state = codes "exited";
  labels = [];
}

abbrev bot : Proc
bot = record {
  name = codes "bot";
  id = pos 0;
  status = codes "online";
  started = pos 1;
  cpu = none;
  mem = none;
  restarts = pos 0;
  runtime = [];
  accounts = [];
  discord = [];
  logins = [];
  out_log = [];
  err_log = [];
}

-- Two containers, and two processes of one name.
abbrev listings : Listings
listings = record {
  docker = listed (
      plain_unit (codes "db") (container (codes "db"))
      ∷ plain_unit (codes "web") (container (codes "web"))
      ∷ []);
  pterodactyl = listed [];
  systemd = listed [];
  pm2 = listed (map (λ b. b.unit) (bind ascii [] (pos 9) (bot ∷ bot ∷ [])));
}

listings-LocallyDistinct : All LocallyDistinct (real_ones config.providers listings)
unfolding bytes_eq plain_unit
listings-LocallyDistinct =
    (((refl, tt), (tt, tt)), (bind-LocallyDistinct ascii [] (pos 9) (bot ∷ bot ∷ []), tt))

abbrev net : Net
net = record { host_of = λ s. none; is_loopback_ip = λ s. false }

serve-IsValid_example :
    (r : Registry) × ((serve net (with_config config) listings [] none).1 ≡ opened_audit r none)
    × (r.list ≡ real_ones config.providers listings)
    × IsValid r
    × Distinct (ids (list_all (λ s. s) r).0)
serve-IsValid_example =
    serve-IsValid net config listings [] none (λ s. s) refl listings-LocallyDistinct

abbrev flags : InitFlags
flags = record { out = codes "c"; user = codes "me"; mock = false }

abbrev world : InitWorld
world = record {
  exists = false;
  user_line = record { text = []; ending = at_newline };
  password = terminal (got (codes "twelve bytes"));
  salt = some (codes "s");
  secret = some (codes "K");
  entropy_error = [];
  write_error = none;
}

-- What is printed for the password.
abbrev or_none : Option Bytes → Bytes
or_none none = []
or_none (some s) = s

abbrev hash : Bytes
hash = or_none (hash_password toy (some (codes "s")) (codes "twelve bytes"))

init_config-IsLogin_example :
    IsLogin ascii toy
      (λ s. s)
      flags
      world
      (codes "c")
      (config_text (λ s. s) false (codes "me") hash (codes "K"))
unfolding init_config read_password length hash_password
init_config-IsLogin_example =
    init_config-IsLogin ascii toy (λ s. s) flags world toy-CodecLaws _ _ refl
