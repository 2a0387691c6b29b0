-- ===== src/Api/Socket.antt =====
-- agent/internal/api/ws.go: one websocket client, its queue and the goroutines around it. What the
-- connection and the clock bring comes as events, one at a time. A write or a ping on a context
-- that was cancelled fails in the websocket package, so that nothing is written behind that.
pub mod Order
mod Tests
use pc_monitor.Base.{
  ℕ, Bool, true, false, not, ◌||◌, List, [], ◌∷◌, ◌++◌, Option, none, some, Bytes, length, ltb,
  if◌then◌else◌,
}
use pc_monitor.Api.Subs.{Subs, no_subs, ClientMsg, on_message, hang_up}

-- The capacity of `send`.
abbrev pub send_size : ℕ
send_size = 128

-- `written` is what the socket took, oldest first.
pub record Client : Type 0 where
  pub queue : List Bytes
  pub written : List Bytes
  pub cancelled : Bool
  pub subs : Subs

-- A message from the hub or of a log stream, which says whether the stream's own context was
-- cancelled in the wait, since it was unsubscribed or replaced; the write loop at the head of the queue or at a ping, with
-- or without an error; a look at the session; and what `Read` brings: an error, or a message that
-- JSON reads or not.
pub data Event : Type 0 where
  try_send : Bytes → Event
  send_envelope : Bool → Bytes → Event
  write_next : Bool → Event
  ping : Bool → Event
  watch : Bool → Event
  read_failed : Event
  read : Option ClientMsg → Event

abbrev pub cancel : Client → Client
cancel c = record c { cancelled = true }

abbrev pub push : Bytes → Client → Client
push msg c = record c { queue = c.queue ++ (msg ∷ []) }

-- `trySend`: a client whose queue is full is cut off.
unfoldable pub offer : Bytes → Client → Client
offer msg c = if ltb (length c.queue) send_size then push msg c else cancel c

-- `sendEnvelope` at the end of its wait: the context was cancelled, the connection's or only that of
-- the stream, there is room, or its timer has run out.
unfoldable pub offer_waiting : Bool → Bytes → Client → Client
offer_waiting stopped msg c = if c.cancelled || stopped then c else offer msg c

abbrev write_head : Bool → List Bytes → Client → Client
write_head fails [] c = c
write_head true (m ∷ ms) c = cancel (record c { queue = ms })
write_head false (m ∷ ms) c = record c { queue = ms; written = c.written ++ (m ∷ []) }

-- A round of `writeLoop`.
unfoldable pub write_round : Bool → Client → Client
write_round fails c = if c.cancelled then c else write_head fails c.queue c

-- A ping of `writeLoop`, or a tick of `watchSession`.
unfoldable pub cancel_if : Bool → Client → Client
cancel_if b c = if b then cancel c else c

abbrev read_message : Option ClientMsg → Client → Client
read_message none c = c
read_message (some m) c = record c { subs = on_message m c.subs }

unfoldable pub on_event : Event → Client → Client
on_event (try_send msg) c = offer msg c
on_event (send_envelope stopped msg) c = offer_waiting stopped msg c
on_event (write_next fails) c = write_round fails c
on_event (ping fails) c = cancel_if fails c
on_event (watch ended) c = cancel_if ended c
on_event read_failed c = cancel (record c { subs = hang_up c.subs })
on_event (read m) c = if c.cancelled then c else read_message m c

-- `ws` at its begin: the greeting is the first message.
abbrev pub accepted_client : Bytes → Client
accepted_client hello = record {
  queue = hello ∷ [];
  written = [];
  cancelled = false;
  subs = no_subs;
}

unfoldable pub run_client : Client → List Event → Client
run_client c [] = c
run_client c (e ∷ es) = run_client (on_event e c) es
