-- ===== src/Api/Subs.antt =====
-- agent/internal/api/ws.go: the log subscriptions of one websocket client. Each holding of the
-- client's lock is one step; the goroutines of `subscribeLogs` run between any two of them. A
-- subscription is known by its number, as the source knows it by its pointer.
pub mod Streams
pub mod Ends
use pc_monitor.Base.{
  ℕ, suc, ◌+◌, ◌≤◌, min, Bool, true, false, not, ◌&&◌, ◌||◌, List, [], ◌∷◌, map, any, Option, none,
  some, Bytes, codes, bytes_eq, lookup, insert, delete, keep_if, length, ltb, leb, ◌==◌,
  if◌then◌else◌, ◌≡◌,
}
use pc_monitor.Base.Int.{ℤ, pos, negsuc}

abbrev pub max_log_subs : ℕ
max_log_subs = 4

abbrev pub default_tail : ℕ
default_tail = 500

abbrev pub max_tail : ℕ
max_tail = 5000

-- What `subscribeLogs` makes of the tail that is asked for.
unfoldable pub tail_of : ℤ → ℕ
tail_of (negsuc n) = default_tail
tail_of (pos n) = if n == 0 then default_tail else min n max_tail

-- `subs` is the client's map. `live` are the streams whose context is not cancelled, `running` the
-- goroutines that have not ended, by unit and number.
pub record Subs : Type 0 where
  pub subs : List (Bytes × ℕ)
  pub live : List (Bytes × ℕ)
  pub running : List (Bytes × ℕ)
  pub next : ℕ

unfoldable pub no_subs : Subs
no_subs = record { subs = []; live = []; running = []; next = 0 }

-- `stop` of a subscription; a second time it does nothing.
unfoldable pub stop : ℕ → Subs → Subs
stop n s = record s { live = keep_if (λ e. not (e.1 == n)) s.live }

abbrev stop_found : Option ℕ → Bytes → Subs → Subs
stop_found none unit s = s
stop_found (some n) unit s = let s' = stop n s in record s' { subs = delete unit s'.subs }

unfoldable pub unsubscribe : Bytes → Subs → Subs
unsubscribe unit s = stop_found (lookup unit s.subs) unit s

-- The insertion, and the goroutine that is started.
unfoldable pub start : Bytes → Subs → Subs
start unit s = record {
  subs = insert unit s.next s.subs;
  live = (unit, s.next) ∷ s.live;
  running = (unit, s.next) ∷ s.running;
  next = suc s.next;
}

-- Whether the stream was started, and the state after.
unfoldable pub subscribe_logs : Bytes → Subs → Bool × Subs
subscribe_logs unit s =
    let s' = unsubscribe unit s in
    if leb max_log_subs (length s'.subs) then (false, s') else (true, start unit s')

abbrev is_own : Option ℕ → ℕ → Bool
is_own none n = false
is_own (some m) n = m == n

-- The second half of the deferred function of a goroutine, under the lock: only its own entry goes.
unfoldable pub release : Bytes → ℕ → Subs → Subs
release unit n s = record s {
  subs = if is_own (lookup unit s.subs) n then delete unit s.subs else s.subs;
  running = keep_if (λ e. not (e.1 == n)) s.running;
}

unfoldable pub stop_each : List (Bytes × ℕ) → Subs → Subs
stop_each [] s = s
stop_each ((unit, n) ∷ subs) s = stop_each subs (stop n s)

-- The end of `ws`: every subscription of the map is stopped.
unfoldable pub hang_up : Subs → Subs
hang_up s = stop_each s.subs s

-- What the client sends; other operations are ignored.
pub record ClientMsg : Type 0 where
  pub op : Bytes
  pub unit : Bytes
  pub tail : ℤ

unfoldable pub on_message : ClientMsg → Subs → Subs
on_message m s =
    if bytes_eq m.op (codes "logs")
    then (subscribe_logs m.unit s).1
    else if bytes_eq m.op (codes "unlogs")
    then unsubscribe m.unit s
    else s

abbrev pub has_number : ℕ → List (Bytes × ℕ) → Bool
has_number n es = any (λ e. e.1 == n) es

abbrev pub is_running : Bytes → ℕ → Subs → Bool
is_running unit n s = any (λ e. bytes_eq e.0 unit && e.1 == n) s.running

-- A message of the client; or a goroutine that runs stops its stream, or releases its entry after
-- that.
pub data Step (s : Subs) : Subs → Type 0 where
  message : (m : ClientMsg) → Step s (on_message m s)
  stops : (unit : Bytes) (n : ℕ) → is_running unit n s ≡ true → Step s (stop n s)
  releases :
      (unit : Bytes) (n : ℕ)
      → is_running unit n s ≡ true
      → has_number n s.live ≡ false
      → Step s (release unit n s)

-- The states of a connection, from its begin on.
pub data Reach : Subs → Type 0 where
  opened : Reach no_subs
  then_step : {s t : Subs} → Reach s → Step s t → Reach t
