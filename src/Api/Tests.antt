-- ===== src/Api/Tests.antt =====
-- The theorems on the server, at a request to restart a container; and on a client that opens two
-- streams of one unit.
use pc_monitor.Base.{
  ◌++◌, ℕ, ◌≤◌, true, false, List, [], ◌∷◌, none, some, codes, bytes_eq, lookup, cut, length,
  last_n, UniqueKeys, ◌≡◌, ◌↔◌, refl,
}
use pc_monitor.Base.Int.{pos}
use pc_monitor.Provider.{valid_action}
use pc_monitor.Provider.Registry.{ServiceProvider, listed, do_action, resolve, resolve_local}
use pc_monitor.Auth.Crypto.{Crypto}
use pc_monitor.Auth.Authenticator.{Authenticator, session}
use pc_monitor.Audit.{recent_entries}
use pc_monitor.About.{StringTools}
use pc_monitor.Api.Hub.{Envelopes, HubEvent, host_tick, timer_fired, new_hub, history_len, run}
use pc_monitor.Api.Hub.History.{collected, run-history}
use pc_monitor.Api.Subs.{
  Subs, no_subs, ClientMsg, on_message, Reach, opened, then_step, message, max_log_subs, hang_up,
}
use pc_monitor.Api.Subs.Streams.{Known}
use pc_monitor.Api.Subs.Ends.{streams_bounded}
use pc_monitor.Api.Requests.{Request, Call}
use pc_monitor.Api.Batches
use pc_monitor.Api.Batches.{Round, got_line, tick, closed, new_stream}
use pc_monitor.Api.Batches.Complete.{Delivered, received, run_complete}
use pc_monitor.Api.Endpoints.{Server, Env}
use pc_monitor.Api.Server.{handle}
use pc_monitor.Api.Server.Guard.{Permits, handle_calls_iff}
use pc_monitor.Api.Server.Paths.{action_path}
use pc_monitor.Api.Server.Recorded.{entry_for, handle-recorded}

abbrev toy : Crypto
toy = record {
  hmac_sha1 = λ key msg. msg;
  b32_decode = λ s. some s;
  b64_encode = λ s. s;
  b64_decode = λ s. some s;
  b64url_encode = λ s. s;
  sha256_hex = λ s. s;
  id_key = λ password salt t m p n. password;
}

abbrev tools : StringTools
tools = record { lower = λ s. s; trim_space = λ s. s }

-- The figures of the host are numbers here.
abbrev envelopes : Envelopes ℕ
envelopes = record { host = λ n. some (n ∷ []); units = λ s. none; audit = λ e. none }

abbrev events : List (HubEvent ℕ)
events = host_tick (some 7) ∷ timer_fired ∷ host_tick none ∷ host_tick (some 8) ∷ []

run-history_example :
    (run envelopes tools events (new_hub none)).history ≡ last_n history_len (collected events)
run-history_example = run-history envelopes tools none events

abbrev docker : ServiceProvider
docker = record { name = codes "docker"; listing = listed [] }

abbrev auth : Authenticator
auth = record {
  cfg = record {
    username = codes "me";
    password_hash = [];
    totp_secret = [];
    session_ttl = pos 1000;
    sessions_path = [];
    insecure_cookie = false;
  };
  limiter = record { window = 900; per_key = 5; global = 30; fails = []; all_fails = [] };
  sessions = (codes "t", record { user = codes "me"; expires = 50 }) ∷ [];
  last_step = pos 2;
  disk = none;
}

abbrev server : Server ℕ
server = record {
  hostname = codes "pi";
  insecure_cookie = false;
  auth = auth;
  registry = record { list = docker ∷ []; by_name = (codes "docker", docker) ∷ [] };
  hub = new_hub none;
  audit = record { file = []; recent = [] };
}

abbrev env : Env ℕ
env = record {
  crypto = toy;
  url_host = λ s. some (codes "pi");
  split_host_port = λ s. some s;
  is_loopback = λ s. false;
  trim_space = λ s. s;
  json = record { marshal = λ e. some e.unit; unmarshal = λ s. none };
  envelopes = envelopes;
  world = record {
    allow_at = 9;
    match_at = 9;
    fail_at = 9;
    issue_at = 9;
    random = none;
    writable = true;
  };
  session_at = 9;
  session_again_at = 9;
  time = 9;
  writable = true;
  audit_writable = false;
  clean_path = λ s. s;
  is_file = λ s. false;
  index = none;
  call = λ p local action. none;
}

abbrev request : Request
request = record {
  method = codes "POST";
  segments = action_path (codes "docker:web") (codes "restart");
  path = [];
  host = codes "pi";
  origin = codes "https://pi";
  cf_ip = [];
  remote_addr = codes "::1";
  cookie = some (codes "t");
  body = none;
}

abbrev call : Call
call = record { service = docker; local = codes "web"; action = codes "restart" }

abbrev allowed : Permits env request server call
unfolding session lookup bytes_eq do_action resolve resolve_local cut valid_action
allowed = record {
  is_post = refl;
  some_origin = refl;
  own_origin = refl;
  token = codes "t";
  has_token = refl;
  sess = record { user = codes "me"; expires = 50 };
  has_session = refl;
  id = codes "docker:web";
  at_path = refl;
  known = refl;
}

handle_calls_iff_example :
    ((handle env request server).called ≡ some call) ↔ Permits env request server call
handle_calls_iff_example = handle_calls_iff env request server call

handle-recorded_example :
    (recent_entries (handle env request server).server.audit (pos 1)
      ≡ some (entry_for env request server call allowed ∷ []))
    × (((handle env request server).reply.status ≡ 200)
        ↔ (env.call docker (codes "web") (codes "restart") ≡ none))
handle-recorded_example = handle-recorded env request server call allowed (λ e. cc) (λ e. cc) refl

abbrev logs_message : ClientMsg
logs_message = record { op = codes "logs"; unit = codes "a"; tail = pos 0 }

abbrev twice : Subs
twice = on_message logs_message (on_message logs_message no_subs)

twice-Reach : Reach twice
twice-Reach = then_step (then_step opened (message logs_message)) (message logs_message)

streams_bounded_example :
    (length twice.live ≤ max_log_subs)
    × UniqueKeys twice.live
    × Known twice.subs twice.live
    × ((hang_up twice).live ≡ [])
streams_bounded_example = streams_bounded twice-Reach

abbrev batched : List Round
batched =
    record {
      event = got_line (record { t = pos 1; err = false; text = codes "a" });
      sends = true;
      alive = true;
    }
    ∷ record { event = tick; sends = true; alive = true }
    ∷ record {
      event = got_line (record { t = pos 2; err = true; text = codes "b" });
      sends = true;
      alive = true;
    }
    ∷ []

run_complete_example :
    Delivered (received batched) true (
      Batches.run
        (batched ++ record { event = closed; sends = true; alive = true } ∷ [])
        new_stream)
run_complete_example = run_complete batched [] true (
  record { sends_ok = refl; goes_on = tt },
  (record { sends_ok = refl; goes_on = tt }, (record { sends_ok = refl; goes_on = tt }, tt)),
)
