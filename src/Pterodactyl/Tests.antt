-- ===== src/Pterodactyl/Tests.antt =====
-- The theorem on game servers, at a panel with one that runs and one that is suspended.
use pc_monitor.Base.{true, false, [], ◌∷◌, none, Bytes, codes}
use pc_monitor.Base.Int.{pos}
use pc_monitor.Pterodactyl.{
  PanelServer, Resources, Reply, response, result, Panel, api, list_path, list_servers,
}
use pc_monitor.Pterodactyl.Listed.{Served, list_servers-Served}

abbrev survival : PanelServer
survival = record {
  identifier = codes "a1";
  name = codes "survival";
  node = codes "pi";
  is_suspended = false;
  is_installing = false;
  memory = pos 2048;
}

abbrev running : Resources
running = record {
  current_state = codes "running";
  memory_bytes = 7;
  cpu_absolute = record { num = 1; den = 2 };
  uptime = pos 5000;
}

abbrev panel : Panel
panel = record {
  escape = λ s. s;
  details = λ s. none;
  decode_servers = λ s. result (survival ∷ record survival { is_suspended = true } ∷ []);
  decode_resources = λ s. result running;
}

abbrev get : Bytes → Reply
get path = response (record { status = 200; status_text = codes "200 OK"; body = [] })

list_servers-Served_example :
    Served panel get
      (api panel panel.decode_servers (get (list_path true)))
      (list_servers panel true get)
list_servers-Served_example = list_servers-Served panel true get
