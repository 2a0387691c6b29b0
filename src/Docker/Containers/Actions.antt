-- ===== src/Docker/Containers/Actions.antt =====
-- agent/internal/providers/docker/docker.go: `Do`, `Logs` and the errors. `url.PathEscape`, JSON,
-- time stamps and what an HTTP request brings are arguments.
use pc_monitor.Base.{
  ℕ, Bool, true, false, ◌||◌, List, ◌++◌, map, Option, none, some, Bytes, codes, bytes_eq, cut,
  take, ◌==◌, if◌then◌else◌, ◌≡◌, ◌↔◌, refl, arith,
}
use pc_monitor.Base.Int.{ℤ, pos}
use pc_monitor.Base.Lines.{all_lines}
use pc_monitor.Base.Scanner.{tokens}
use pc_monitor.Provider.{
  LogLine, CallError, bad_action, other_error, valid_action, action_start, action_stop,
  action_restart, action_kill,
}
use pc_monitor.Provider.CleanLine.{clean_line}
use pc_monitor.Provider.Registry.{is_blank}
use pc_monitor.Docker.Stream.{Emitted, read_multiplexed}

pub record Response : Type 0 where
  pub status : ℕ
  pub status_text : Bytes
  pub body : Bytes

-- No response comes from a cancelled call, whose context ended, or from another error; with the
-- text of the error.
pub data Reply : Type 0 where
  cancelled no_response : Bytes → Reply
  response : Response → Reply

-- `url.PathEscape`, and the `message` of a JSON body, which is empty where there is none.
pub record Web : Type 0 where
  pub escape : Bytes → Bytes
  pub read_message : Bytes → Option Bytes

unfoldable pub conn_err : Bytes → Bytes → Bytes
conn_err socket text =
    if is_blank socket
    then text
    else codes "docker socket "
      ++ (socket ++ (codes " not reachable, check that dashd is in the docker group: " ++ text))

abbrev said : Option Bytes → Bytes → Bytes
said none status = codes "docker API returned " ++ status
said (some m) status = if is_blank m then codes "docker API returned " ++ status else m

-- Of the body 4096 bytes are read.
unfoldable pub api_error : Web → Response → Bytes
api_error w r = said (w.read_message (take 4096 r.body)) r.status_text

-- The path of an action, or `none` for what is not one.
unfoldable pub action_path : Web → Bytes → Bytes → Option Bytes
action_path w id action =
    let path = codes "/containers/" ++ (w.escape id ++ (codes "/" ++ action)) in
    if bytes_eq action action_stop || bytes_eq action action_restart
    then some (path ++ codes "?t=10")
    else if bytes_eq action action_start || bytes_eq action action_kill
    then some path
    else none

abbrev pub is_done : ℕ → Bool
is_done status = status == 204 || status == 304

unfoldable pub answered : Web → Bytes → Reply → Option CallError
answered w socket (cancelled text) = some (other_error text)
answered w socket (no_response text) = some (other_error (conn_err socket text))
answered w socket (response r) =
    if is_done r.status then none else some (other_error (api_error w r))

-- `Do`, given what a POST to a path brings.
unfoldable pub do_container : Web → Bytes → (Bytes → Reply) → Bytes → Bytes → Option CallError
do_container w socket post id action = elim (action_path w id action) [
  | none ↦ some bad_action
  | some path ↦ answered w socket (post path)
]

-- Docker was asked and says that the container is in the state wanted, now or before.
abbrev pub IsDone : Reply → Type 0
IsDone (response r) = is_done r.status ≡ true
IsDone (cancelled text) = true ≡ false
IsDone (no_response text) = true ≡ false

abbrev pub Asks : (Bytes → Reply) → Option Bytes → Type 0
Asks post none = true ≡ false
Asks post (some path) = IsDone (post path)

answered-none : (w : Web) (socket : Bytes) (r : Reply) → (answered w socket r ≡ none) ↔ IsDone r
unfolding answered
answered-none w socket (cancelled text) = ground arith
answered-none w socket (no_response text) = ground arith
answered-none w socket (response r) = ground arith

answered_other :
    (w : Web) (socket : Bytes) (r : Reply)
    → (answered w socket r ≡ some bad_action) ↔ (true ≡ false)
unfolding answered
answered_other w socket (cancelled text) = ground arith
answered_other w socket (no_response text) = ground arith
answered_other w socket (response r) = ground arith

action_path_valid :
    (w : Web) (id action : Bytes) → (action_path w id action ≡ none) ↔ (valid_action action ≡ false)
unfolding action_path valid_action
action_path_valid w id action = ground arith

-- An action succeeds exactly where Docker was asked for it and answered 204 or 304, and it is
-- refused as no action exactly where it is none of the four.
do_container_iff :
    (w : Web) (socket : Bytes) (post : Bytes → Reply) (id action : Bytes)
    → ((do_container w socket post id action ≡ none) ↔ Asks post (action_path w id action))
      × ((do_container w socket post id action ≡ some bad_action) ↔ (valid_action action ≡ false))
unfolding do_container
do_container_iff w socket post id action = of_path (action_path w id action) refl
  where
    of_path :
        (path : Option Bytes)
        → action_path w id action ≡ path
        → ((do_container w socket post id action ≡ none) ↔ Asks post (action_path w id action))
          × ((do_container w socket post id action ≡ some bad_action)
              ↔ (valid_action action ≡ false))
    of_path none e = rw (e, do_container) (ground (arith, e, action_path_valid w id action))
    of_path (some path) e =
        rw (e, do_container)
          (
            answered-none w socket (post path),
            ground (arith, e, action_path_valid w id action, answered_other w socket (post path)),
          )

-- The pattern of `CleanLine`, and `time.Parse(time.RFC3339Nano, s)` in milliseconds.
pub record LogTools : Type 0 where
  pub strip_ansi : Bytes → Bytes
  pub parse_time : Bytes → Option ℤ

abbrev split_time : LogTools → Option (Bytes × Bytes) → Bytes → ℤ × Bytes
split_time t none line = (pos 0, line)
split_time t (some (ts, rest)) line = elim (t.parse_time ts) [
  | none ↦ (pos 0, line)
  | some ms ↦ (ms, rest)
]

unfoldable pub parse_line : LogTools → Emitted → LogLine
parse_line t (line, stderr) =
    let (ms, text') = split_time t (cut b' ' line) line in
    record { t = ms; err = stderr; text = clean_line t.strip_ansi text' }

-- The stream of a TTY container has no frames.
unfoldable pub read_raw : Bytes → List Emitted
read_raw s = map (λ l. (l, false)) (tokens 1048576 (all_lines s))

unfoldable pub log_lines : LogTools → Bool → Bytes → List LogLine
log_lines t tty s = map (parse_line t) (if tty then read_raw s else read_multiplexed s)
