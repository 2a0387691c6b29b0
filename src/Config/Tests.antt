-- ===== src/Config/Tests.antt =====
-- The theorems on loading, at a configuration with a secret in the environment and a panel.
use pc_monitor.Base.{[], none, some, false, codes, Bytes, ◌≡◌, ◌↔◌}
use pc_monitor.Base.Int.{pos}
use pc_monitor.Config.{Config, normalize, normalize_auth, normalize_providers, ok}
use pc_monitor.Config.Complete.{HasLogin, PanelComplete, normalize_ok_iff}

abbrev env : Bytes → Bytes
env name = codes "secret"

abbrev box : Config
box = record {
  listen = [];
  hostname = [];
  mock = false;
  auth = record {
    username = codes "me";
    password_hash = codes "$";
    totp_secret = codes "env:TOTP";
    session_ttl = pos 0;
    sessions_path = [];
    insecure_cookie = false;
  };
  audit_path = [];
  providers = record {
    docker = none;
    systemd = none;
    pterodactyl =
        some (record {
          label = [];
          url = codes "http://p/";
          api_key = codes "k";
          all_servers = false;
        });
    pm2 = none;
  };
  about = [];
}

normalize_ok_iff_example : ((d : Config) × (normalize env (codes "h") box ≡ ok d)) ↔ (
    HasLogin (normalize_auth env box.auth)
    × PanelComplete (normalize_providers env box.providers).pterodactyl)
normalize_ok_iff_example = normalize_ok_iff env (codes "h") box
